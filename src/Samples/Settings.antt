-- ===== src/Samples/Settings.antt =====
-- The theorems on configurations and on the JSON of a client's information.
use r2_notify_server.Prelude.{◌≡◌, refl, Bool, false, some, ok}
use r2_notify_server.Models.{Configuration, ClientInfo}
use r2_notify_server.Json.Encode.{encode_client_info, bytes_of}
use r2_notify_server.Json.Decode.{unmarshal_client_info}
use r2_notify_server.Json.RoundTrip.{unmarshal_client_info-encode}
use r2_notify_server.Mongo.{Collection, Lawful}
use r2_notify_server.Repository.Configuration.{update}
use r2_notify_server.Repository.Configuration.Schema.{configuration_schema}
use r2_notify_server.Repository.Configuration.Laws.{configuration_of, update-view}
use r2_notify_server.Samples.Memory.{memory, memory-Lawful}
use r2_notify_server.Samples.Start.{ann_settings, one_setting}
use r2_notify_server.Samples.Parts.{time_texts}

abbrev coll : Collection configuration_schema
coll = memory configuration_schema

abbrev law : Lawful coll
law = memory-Lawful configuration_schema

-- A setting without an id, as the server writes it.
abbrev turned : Bool → Configuration
turned enable = record { id = 0; user_id = "ann"; enable_notifications = enable }

update-view_example :
    configuration_of "ann" (coll.view (update coll (turned false) one_setting).1)
    ≡ some (record ann_settings { enable_notifications = false })
unfolding update
update-view_example = update-view coll law (turned false) ann_settings "ann" one_setting refl refl

abbrev ann_info : ClientInfo
ann_info = record { id = "ann"; connected_at = 1000000; enable_notification = false }

unmarshal_client_info-encode_example :
    unmarshal_client_info time_texts (bytes_of (encode_client_info time_texts ann_info))
    ≡ ok ann_info
unmarshal_client_info-encode_example =
    unmarshal_client_info-encode time_texts ann_info "0001-01-01T00:00:00.001Z" refl refl

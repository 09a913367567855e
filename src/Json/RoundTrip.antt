-- ===== src/Json/RoundTrip.antt =====
-- Reading back what the server writes as JSON.
use r2_notify_server.Prelude.{String, ◌≡◌, refl, ok}
use r2_notify_server.Models.{ClientInfo}
use r2_notify_server.Data.{EventNotification, Configuration}
use r2_notify_server.Json.{json, TimeText}
use r2_notify_server.Json.Encode.{
  encode_client_info, encode_configuration, encode_event_notification, encode_notification,
  bytes_of,
}
use r2_notify_server.Json.Decode.{
  unmarshal_client_info, unmarshal_configuration, unmarshal_event_notification,
}

-- A ClientInfo whose time has a text that reads back is read as it was written.
pub unmarshal_client_info-encode :
    (times : TimeText) (info : ClientInfo) (text : String)
    → times.format info.connected_at ≡ ok text
    → times.parse text ≡ ok info.connected_at
    → unmarshal_client_info times (bytes_of (encode_client_info times info)) ≡ ok info
unfolding unmarshal_client_info encode_client_info
unmarshal_client_info-encode times info text written read = rw (written, read)

-- A configuration payload is read as it was written.
pub unmarshal_configuration-encode :
    (c : Configuration) → unmarshal_configuration (json (encode_configuration c)) ≡ ok c
unfolding unmarshal_configuration encode_configuration
unmarshal_configuration-encode c = refl

module _ (times : TimeText) (e : EventNotification) (created updated : String) where
  -- The payload of one notification, whose times have texts that read back, is read as it was
  -- written.
  unmarshal_event_notification-encode :
      times.format e.content.created_at ≡ ok created
      → times.format e.content.updated_at ≡ ok updated
      → times.parse created ≡ ok e.content.created_at
      → times.parse updated ≡ ok e.content.updated_at
      → unmarshal_event_notification times (bytes_of (encode_event_notification times e)) ≡ ok e
  unfolding unmarshal_event_notification encode_event_notification encode_notification
  unmarshal_event_notification-encode wc wu rc ru = rw (wc, wu, rc, ru)

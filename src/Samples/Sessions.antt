-- ===== src/Samples/Sessions.antt =====
-- The theorems on tokens, new connections and the notification status, on the server in memory.
use r2_notify_server.Prelude.{◌≡◌, ◌≢◌, refl, true, false, ◌&&◌, some, ok, eqb, if◌then◌else◌}
use r2_notify_server.Models.{ClientInfo}
use r2_notify_server.Data
use r2_notify_server.Json.{Bytes, json, str}
use r2_notify_server.Json.Encode.{
  encode_configuration, encode_client_info, encode_notification_list, encode_all,
}
use r2_notify_server.Json.Decode.{unmarshal_configuration, unmarshal_client_info}
use r2_notify_server.ClientStore.{
  send_to_user, get_client_info, client_key, send_notification_list_to_user,
  send_configuration_to_user, store_client, update_client_info,
}
use r2_notify_server.Repository
use r2_notify_server.Repository.Configuration.{find_by_app_and_user}
use r2_notify_server.Service
use r2_notify_server.Text.{split_comma, trim_space}
use r2_notify_server.Utils.{Token, hmac, key_for, validate_token, process_allowed_origins}
use r2_notify_server.Utils.Tokens.{validate_token_sound}
use r2_notify_server.WebSocket.Actions.{
  set_notification_status_action, send_configurations_to_client, send_all_notifications_to_client,
}
use r2_notify_server.WebSocket.Connect.{
  Handshake, check_origin, connect, configure, configured, register, welcome,
}
use r2_notify_server.Server.{notifications, configurations}
use r2_notify_server.Server.Status.{set_notification_status_action-off}
use r2_notify_server.Server.Handshakes.{connect-connected}
use r2_notify_server.Server.Welcome.{setting, info_of, connect-get_client_info}
use r2_notify_server.WebSocket.Events.{text, failed}
use r2_notify_server.WebSocket.Loops.{read_loop, HasEnded, Input, read_loop-ends}
use r2_notify_server.Samples.Parts.{redis_cells-Lawful, one_token, one_token-Lawful}
use r2_notify_server.Samples.Start.{backend, two_users, nobody, no_settings}

validate_token_sound_example :
    (t : Token) × (one_token.parse_with_claims "good" (key_for "secret") ≡ ok t)
    × (t.method ≡ hmac)
    × (t.valid ≡ true)
    × (t.subject ≡ some "ann")
unfolding validate_token
validate_token_sound_example =
    validate_token_sound one_token "good" "secret" "ann" one_token-Lawful refl

abbrev pub off : Data.Configuration
off = record {
  event = "setNotificationStatus";
  content = record { id = ""; user_id = "ann"; enable_notification = false };
}

abbrev pub off_message : Bytes
off_message = json (encode_configuration off)

set_notification_status_action-off_example :
    (send_to_user backend "ann" (ok (str "hello")) false (
      set_notification_status_action backend
        (notifications backend)
        (configurations backend)
        off_message
        "ann"
        two_users)).0
    ≢ ok tt
unfolding encode_configuration unmarshal_configuration update_client_info
set_notification_status_action-off_example =
    set_notification_status_action-off backend redis_cells-Lawful "ann" off_message off
      (ok (str "hello")) "0001-01-01T00:00:00Z" two_users refl refl refl refl refl

abbrev ann_arrives : Handshake
ann_arrives = record { origin = "https://a.example"; token = "good"; proper = true }

connect-connected_example :
    ((ann_arrives.proper && check_origin "https://a.example" "https://a.example") ≡ true)
    × (validate_token one_token "good" "secret" ≡ ok "ann")
unfolding connect configure configured register welcome process_allowed_origins split_comma
    trim_space validate_token Service.Configuration.find_by_app_and_user
    Repository.Configuration.find_by_app_and_user Service.Configuration.create
    Repository.Configuration.create store_client
connect-connected_example =
    connect-connected backend 3 0 one_token "secret" "https://a.example" ann_arrives nobody "ann"
      refl

abbrev ann_known : ClientInfo
ann_known = record { id = "ann"; connected_at = 0; enable_notification = true }

connect-get_client_info_example :
    ann_known
    ≡ info_of backend redis_cells-Lawful 0 3 "ann"
        (setting (find_by_app_and_user backend.configurations "ann" no_settings).0)
unfolding connect configure configured register welcome process_allowed_origins split_comma
    trim_space validate_token Service.Configuration.find_by_app_and_user
    Repository.Configuration.find_by_app_and_user Service.Configuration.create
    Repository.Configuration.create store_client get_client_info client_key
    send_configurations_to_client send_all_notifications_to_client Service.Notification.find_all
    Repository.Notification.find_all send_notification_list_to_user send_to_user
    unmarshal_client_info encode_client_info encode_notification_list encode_all
    send_configuration_to_user
connect-get_client_info_example =
    connect-get_client_info backend redis_cells-Lawful 0 3 "ann" ann_known "0001-01-01T00:00:00Z"
      refl refl one_token "secret" "https://a.example" ann_arrives nobody refl refl

-- Two messages, and then the connection is gone.
abbrev two_messages : Input
two_messages n = if eqb n 2 then (0, failed) else (0, text off_message)

read_loop-ends_example : HasEnded backend (notifications backend) (configurations backend) "ann" 3 (
    read_loop backend
      (notifications backend)
      (configurations backend)
      "ann"
      3
      3
      0
      two_messages
      (λ n w. w)
      two_users)
read_loop-ends_example =
    read_loop-ends backend (notifications backend) (configurations backend) "ann" 3 2 0 0
      two_messages (λ n w. w) two_users refl

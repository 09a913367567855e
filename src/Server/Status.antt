-- ===== src/Server/Status.antt =====
-- A client that turns its user's notifications off: handlers/websocket.go,
-- setNotificationStatusAction.
use r2_notify_server.Prelude.{String, ◌≡◌, ◌≢◌, refl, ◌∙◌, ap, true, false, Result, ok, err}
use r2_notify_server.Models.{UserId, ClientInfo}
use r2_notify_server.Data
use r2_notify_server.Json.{Json, Bytes}
use r2_notify_server.Json.Decode.{unmarshal_configuration}
use r2_notify_server.World.{Backend, World, LawfulRedis}
use r2_notify_server.ClientStore.{
  client_key, send_to_user, send_configuration_to_user, send_notification_list_to_user,
  update_client_info,
}
use r2_notify_server.ClientStore.Delivery.{send_to_user-permitted}
use r2_notify_server.ClientStore.Keeping.{send_to_user-redis}
use r2_notify_server.ClientStore.Registry.{stored_info}
use r2_notify_server.Service.Configuration
use r2_notify_server.WebSocket.Actions.{
  send_empty_notification_list_to_client, send_found_configuration, send_configurations_to_client,
  set_status, set_notification_status_action,
}
use r2_notify_server.Server.{notifications, configurations}

module _ (b : Backend) (law : LawfulRedis b.redis) (client : UserId) where
  sent_configuration :
      (r : Result Data.Configuration) (k : String) (w : World b)
      → b.redis.view
          (send_found_configuration b (notifications b) (configurations b) client r w).redis
          k
        ≡ b.redis.view w.redis k
  unfolding send_found_configuration send_configuration_to_user
  sent_configuration (err e) k w = refl
  sent_configuration (ok c) k w = send_to_user-redis b client law _ true k w

  pub sent_configurations :
      (k : String) (w : World b)
      → b.redis.view
          (send_configurations_to_client b (notifications b) (configurations b) client w).redis
          k
        ≡ b.redis.view w.redis k
  unfolding send_configurations_to_client Configuration.find_by_app_and_user
  sent_configurations k w =
      let (r, w') = (configurations b).find_by_app_and_user client w in sent_configuration r k w'

  pub sent_empty :
      (k : String) (w : World b)
      → b.redis.view
          (send_empty_notification_list_to_client b
            (notifications b)
            (configurations b)
            client
            true
            w).redis
          k
        ≡ b.redis.view w.redis k
  unfolding send_empty_notification_list_to_client send_notification_list_to_user
  sent_empty k w = send_to_user-redis b client law _ true k w

  -- What the server writes to Redis for a client that turns the notifications off.
  abbrev pub turned_off : ClientInfo
  turned_off = record { id = client; connected_at = 0; enable_notification = false }

  still_stored :
      (event : Data.Configuration) (w : World b)
      → event.content.enable_notification ≡ false
      → b.redis.view
          (set_status b (notifications b) (configurations b) (ok event) client w).redis
          (client_key client)
        ≡ b.redis.view (update_client_info b turned_off w).1.redis (client_key client)
  unfolding set_status Configuration.update update_client_info
  still_stored event w off =
      sent_configurations (client_key client) _ ∙ rw off (sent_empty (client_key client) _)

  -- A user whose stored information has notifications off is sent nothing without the bypass.
  pub silent :
      (payload : Result Json) (text : String) (v w : World b)
      → b.times.format 0 ≡ ok text
      → b.times.parse text ≡ ok 0
      → (update_client_info b turned_off w).0 ≡ ok tt
      → b.redis.view v.redis (client_key client)
        ≡ b.redis.view (update_client_info b turned_off w).1.redis (client_key client)
      → (send_to_user b client payload false v).0 ≢ ok tt
  silent payload text v w written read saved same sent =
      let (conns, info, _, known, enabled) = send_to_user-permitted b client v payload sent in
      let off : info ≡ turned_off =
        stored_info b law turned_off info text w v written read saved same known in
      cc

  -- After a client's message that turns notifications off, if Redis took the new setting and the
  -- text of the zero time reads back, every message for its user without the bypass is refused,
  -- whatever became of the setting in the database.
  pub set_notification_status_action-off :
      (message : Bytes) (event : Data.Configuration) (payload : Result Json) (text : String)
      (w : World b)
      → unmarshal_configuration message ≡ ok event
      → event.content.enable_notification ≡ false
      → b.times.format 0 ≡ ok text
      → b.times.parse text ≡ ok 0
      → (update_client_info b turned_off w).0 ≡ ok tt
      → (send_to_user b client payload false (
          set_notification_status_action b (notifications b) (configurations b) message client w)).0
        ≢ ok tt
  unfolding set_notification_status_action
  set_notification_status_action-off message event payload text w parsed off written read saved =
      silent payload text _ w written read saved (
        ap
          (λ r.
            b.redis.view (set_status b (notifications b) (configurations b) r client w).redis
              (client_key client))
          parsed
        ∙ still_stored event w off)

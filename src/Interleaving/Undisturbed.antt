-- ===== src/Interleaving/Undisturbed.antt =====
-- handlers/websocket.go, setNotificationStatusAction, when nothing comes between its calls.
use r2_notify_server.Prelude.{String, ◌≡◌, refl, ◌∙◌, ap, some, ok, eq_refl, Bool}
use r2_notify_server.Models.{UserId, ClientInfo, Configuration}
use r2_notify_server.Data
use r2_notify_server.Json.{Bytes}
use r2_notify_server.Json.Decode.{unmarshal_configuration}
use r2_notify_server.Mongo.{Lawful}
use r2_notify_server.World.{Backend, World, LawfulRedis}
use r2_notify_server.ClientStore.{client_key, get_client_info, update_client_info}
use r2_notify_server.ClientStore.Registry.{stored_info}
use r2_notify_server.Repository.Configuration.Laws.{configuration_of, update-view}
use r2_notify_server.Service
use r2_notify_server.WebSocket.Actions.{set_status, set_notification_status_action}
use r2_notify_server.Server.{notifications, configurations}
use r2_notify_server.Server.Status.{turned_off}
use r2_notify_server.Interleaving.Statuses.{resent, resent_redis, resent_stored, setting_to}

module _ (b : Backend) (law : LawfulRedis b.redis) (lawful : Lawful b.configurations)
    (client : UserId) where
  abbrev pub info_to : Bool → ClientInfo
  info_to enable = record (turned_off b law client) { enable_notification = enable }

  abbrev updated : Bool → World b → World b
  updated enable w = ((configurations b).update (setting_to b law lawful client enable) w).1

  set_status-resent :
      (event : Data.Configuration) (w : World b)
      → let enable = event.content.enable_notification in
        set_status b (notifications b) (configurations b) (ok event) client w
        ≡ resent b law lawful client enable
            (update_client_info b (info_to enable) (updated enable w)).1
  unfolding set_status resent
  set_status-resent event w = refl

  -- When nothing comes between the calls of setNotificationStatusAction for a message that parses,
  -- the user has a configuration, both writes succeed, and the text of the zero time reads back,
  -- the database has the new setting, and what GetClientInfo then finds of the user has the same
  -- setting, with the zero time as the time of the connection.
  pub set_notification_status_action_agrees :
      (message : Bytes) (event : Data.Configuration) (old : Configuration) (found : ClientInfo)
      (text : String) (w : World b)
      → unmarshal_configuration message ≡ ok event
      → configuration_of client (b.configurations.view w.configurations) ≡ some old
      → let enable = event.content.enable_notification in
        let v =
          set_notification_status_action b (notifications b) (configurations b) message client w in
        ((configurations b).update (setting_to b law lawful client enable) w).0 ≡ ok tt
        → (update_client_info b (info_to enable) (updated enable w)).0 ≡ ok tt
        → b.times.format 0 ≡ ok text
        → b.times.parse text ≡ ok 0
        → (get_client_info b client v).0 ≡ ok found
        → (configuration_of client (b.configurations.view v.configurations)
            ≡ some (record old { enable_notifications = enable; user_id = client }))
          × (found ≡ info_to enable)
  unfolding set_notification_status_action Service.Configuration.update update_client_info
  set_notification_status_action_agrees message event old found text w parsed there changed saved
        written read known =
      let enable = event.content.enable_notification in
      let u = (update_client_info b (info_to enable) (updated enable w)).1 in
      let same =
        ap (λ r. set_status b (notifications b) (configurations b) r client w) parsed
        ∙ set_status-resent event w in
      (
        ap (λ (v : World b). configuration_of client (b.configurations.view v.configurations)) same
            ∙ ap (configuration_of client) (resent_stored b law lawful client enable u)
            ∙ update-view b.configurations lawful (setting_to b law lawful client enable) old client
                w.configurations there changed
            ∙ rw (eq_refl client) refl,
        stored_info b law (info_to enable) found text (updated enable w) _ written read saved
            (ap (λ (v : World b). b.redis.view v.redis (client_key client)) same
              ∙ resent_redis b law lawful client enable (client_key client) u)
            known,
      )

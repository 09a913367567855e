-- ===== src/Interleaving/Statuses.antt =====
-- handlers/websocket.go, setNotificationStatusAction after its two writes: what is sent, call by call.
use r2_notify_server.Prelude.{
  String, ◌≡◌, refl, ◌∙◌, ap, Bool, true, false, List, Result, ok, err, if◌then◌else◌,
}
use r2_notify_server.Models.{UserId, Configuration, nil_object_id}
use r2_notify_server.Data
use r2_notify_server.Mongo.{Lawful}
use r2_notify_server.World.{Backend, World, LawfulRedis}
use r2_notify_server.ClientStore.{send_notification_list_to_user, send_configuration_to_user}
use r2_notify_server.ClientStore.Delivery.{send_to_user-collections}
use r2_notify_server.Repository.Configuration.{find_by_app_and_user}
use r2_notify_server.Service
use r2_notify_server.WebSocket.Actions.{
  send_list, send_all_notifications_to_client, send_empty_notification_list_to_client,
  send_found_configuration, send_configurations_to_client,
}
use r2_notify_server.Server.{notifications, configurations}
use r2_notify_server.Server.Status.{sent_configurations, sent_empty}
use r2_notify_server.Server.Welcome.{sent_all}
use r2_notify_server.Interleaving.Program.{Program, run, run->>=, ◌>>◌}
use r2_notify_server.Interleaving.Frames.{
  send_all_notifications_to_client_calls, send_empty_notification_list_to_client_calls,
  send_configurations_to_client_calls,
}
use r2_notify_server.Interleaving.Agreement.{resent_same, configurations_same}

module _ (b : Backend) (law : LawfulRedis b.redis) (lawful : Lawful b.configurations)
    (client : UserId) where
  abbrev pub Calls : Type 1
  Calls = Program (World b) (Unit {0})

  abbrev listing : Bool → Calls
  listing enable =
      if enable
      then send_all_notifications_to_client_calls b (notifications b) (configurations b) client
          false
      else send_empty_notification_list_to_client_calls b (notifications b) (configurations b)
          client true

  abbrev pub settings : Calls
  settings = send_configurations_to_client_calls b (notifications b) (configurations b) client

  -- What is left when the database and Redis have been written.
  abbrev pub resending : Bool → Calls
  resending enable = listing enable >> settings

  unfoldable pub resent : Bool → World b → World b
  resent enable w = send_configurations_to_client b (notifications b) (configurations b) client (
      if enable
      then send_all_notifications_to_client b (notifications b) (configurations b) client false w
      else send_empty_notification_list_to_client b (notifications b) (configurations b) client true
          w)

  pub resending_same :
      (enable : Bool) (w : World b) → (run (resending enable) w).1 ≡ resent enable w
  unfolding resent
  resending_same enable w =
      ap (λ (r : Unit {0} × World b). r.1) (run->>= (listing enable) (λ _. settings) w)
      ∙ configurations_same b (notifications b) (configurations b) client _
      ∙ ap (send_configurations_to_client b (notifications b) (configurations b) client)
          (resent_same b (notifications b) (configurations b) enable client w)

  pub resent_redis :
      (enable : Bool) (k : String) (w : World b)
      → b.redis.view (resent enable w).redis k ≡ b.redis.view w.redis k
  unfolding resent
  resent_redis true k w = sent_configurations b law client k _ ∙ sent_all b law client k w
  resent_redis false k w = sent_configurations b law client k _ ∙ sent_empty b law client k w

  abbrev pub stored_settings : World b → List Configuration
  stored_settings w = b.configurations.view w.configurations

  list_stored :
      (r : Result (List Data.Notification)) (w : World b)
      → stored_settings (send_list b (notifications b) (configurations b) client false r w)
        ≡ stored_settings w
  unfolding send_list send_notification_list_to_user
  list_stored (err e) w = refl
  list_stored (ok ns) w = ap b.configurations.view (send_to_user-collections b client _ false w).1

  all_stored :
      (w : World b)
      → stored_settings
          (send_all_notifications_to_client b (notifications b) (configurations b) client false w)
        ≡ stored_settings w
  unfolding send_all_notifications_to_client Service.Notification.find_all
  all_stored w = let (r, w') = (notifications b).find_all client w in list_stored r w'

  empty_stored :
      (w : World b)
      → stored_settings (
          send_empty_notification_list_to_client b
            (notifications b)
            (configurations b)
            client
            true
            w)
        ≡ stored_settings w
  unfolding send_empty_notification_list_to_client send_notification_list_to_user
  empty_stored w = ap b.configurations.view (send_to_user-collections b client _ true w).1

  found_stored :
      (r : Result Data.Configuration) (w : World b)
      → stored_settings (send_found_configuration b (notifications b) (configurations b) client r w)
        ≡ stored_settings w
  unfolding send_found_configuration send_configuration_to_user
  found_stored (err e) w = refl
  found_stored (ok c) w = ap b.configurations.view (send_to_user-collections b client _ true w).1

  settings_stored :
      (w : World b)
      → stored_settings
          (send_configurations_to_client b (notifications b) (configurations b) client w)
        ≡ stored_settings w
  unfolding send_configurations_to_client Service.Configuration.find_by_app_and_user
      find_by_app_and_user
  settings_stored w =
      let (r, w') = (configurations b).find_by_app_and_user client w in
      found_stored r w' ∙ lawful.find_one_reads _ w.configurations

  pub resent_stored :
      (enable : Bool) (w : World b) → stored_settings (resent enable w) ≡ stored_settings w
  unfolding resent
  resent_stored true w = settings_stored _ ∙ all_stored w
  resent_stored false w = settings_stored _ ∙ empty_stored w

  -- The document that setNotificationStatusAction updates with.
  abbrev pub setting_to : Bool → Configuration
  setting_to enable = record { id = nil_object_id; user_id = client; enable_notifications = enable }

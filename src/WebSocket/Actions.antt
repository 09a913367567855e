-- ===== src/WebSocket/Actions.antt =====
-- handlers/websocket.go: what a message of a client makes the server do. The log lines are left
-- out; `now` is the clock reading of the call to the repository.
use r2_notify_server.Prelude.{Bool, true, false, List, [], Result, ok, err, if◌then◌else◌}
use r2_notify_server.Models.{Time, UserId, nil_object_id}
use r2_notify_server.Data
use r2_notify_server.Data.{EventNotification, list_notifications, list_configurations}
use r2_notify_server.Json.{Bytes}
use r2_notify_server.Json.Decode.{unmarshal_event_notification, unmarshal_configuration}
use r2_notify_server.World.{Backend, World}
use r2_notify_server.ClientStore.{
  send_notification_list_to_user, send_configuration_to_user, update_client_info,
}
use r2_notify_server.Service.Notification.{NotificationService}
use r2_notify_server.Service.Configuration.{ConfigurationService}

module _ (b : Backend) (notifications : NotificationService (World b))
    (configurations : ConfigurationService (World b)) where
  -- sendAllNotificationsToClient behind its call of FindAll.
  unfoldable pub send_list : UserId → Bool → Result (List Data.Notification) → World b → World b
  send_list client bypass (err e) w = w
  send_list client bypass (ok ns) w =
      (send_notification_list_to_user b client (record { event = list_notifications; content = ns })
        bypass w).1

  unfoldable pub send_all_notifications_to_client : UserId → Bool → World b → World b
  unfolding send_list
  send_all_notifications_to_client client bypass w =
      let (r, w') = notifications.find_all client w in send_list client bypass r w'

  unfoldable pub send_empty_notification_list_to_client : UserId → Bool → World b → World b
  send_empty_notification_list_to_client client bypass w =
      (send_notification_list_to_user b client (record { event = list_notifications; content = [] })
        bypass w).1

  -- sendConfigurationsToClient behind its call of FindByAppAndUser.
  unfoldable pub send_found_configuration : UserId → Result Data.Configuration → World b → World b
  send_found_configuration client (err e) w = w
  send_found_configuration client (ok c) w =
      (send_configuration_to_user b
        (record {
          event = list_configurations;
          content = record {
            id = c.content.id;
            user_id = client;
            enable_notification = c.content.enable_notification;
          };
        })
        true w).1

  unfoldable pub send_configurations_to_client : UserId → World b → World b
  unfolding send_found_configuration
  send_configurations_to_client client w =
      let (r, w') = configurations.find_by_app_and_user client w in
      send_found_configuration client r w'

  unfoldable pub mark_as_read_action : Time → UserId → World b → World b
  mark_as_read_action now client w =
      send_all_notifications_to_client client false (notifications.mark_as_read now client w).1

  -- An action on a message that has to be an EventNotification: any other message is dropped.
  abbrev pub on_event :
      Result EventNotification → (EventNotification → World b → World b) → World b → World b
  on_event (err e) action w = w
  on_event (ok event) action w = action event w

  unfoldable pub mark_app_read_action : Time → Bytes → UserId → World b → World b
  mark_app_read_action now message client =
      on_event (unmarshal_event_notification b.times message) λ event w.
        send_all_notifications_to_client client false
          (notifications.mark_app_as_read now client event.content.app_id w).1

  unfoldable pub mark_group_as_read_action : Time → Bytes → UserId → World b → World b
  mark_group_as_read_action now message client =
      on_event (unmarshal_event_notification b.times message) λ event w.
        send_all_notifications_to_client client false
          (notifications.mark_group_as_read now client event.content.app_id event.content.group_key
            w).1

  unfoldable pub mark_notification_as_read_action : Time → Bytes → UserId → World b → World b
  mark_notification_as_read_action now message client =
      on_event (unmarshal_event_notification b.times message) λ event w.
        send_all_notifications_to_client client false
          (notifications.mark_notification_as_read now client event.content.id w).1

  unfoldable pub delete_notifications_action : UserId → World b → World b
  delete_notifications_action client w =
      send_all_notifications_to_client client false (notifications.delete_notifications client w).1

  unfoldable pub delete_app_notifications_action : Bytes → UserId → World b → World b
  delete_app_notifications_action message client =
      on_event (unmarshal_event_notification b.times message) λ event w.
        send_all_notifications_to_client client false
          (notifications.delete_app_notifications client event.content.app_id w).1

  unfoldable pub delete_group_notification_action : Bytes → UserId → World b → World b
  delete_group_notification_action message client =
      on_event (unmarshal_event_notification b.times message) λ event w.
        send_all_notifications_to_client client false
          (notifications.delete_group_notifications client event.content.app_id
            event.content.group_key w).1

  unfoldable pub delete_notification_action : Bytes → UserId → World b → World b
  delete_notification_action message client =
      on_event (unmarshal_event_notification b.times message) λ event w.
        send_all_notifications_to_client client false
          (notifications.delete_notification client event.content.id w).1

  -- The new setting in the database and in Redis; neither error is looked at.
  abbrev pub save_status : Bool → UserId → World b → World b
  save_status enable client w =
      let (_, w') =
        configurations.update
          (record { id = nil_object_id; user_id = client; enable_notifications = enable }) w in
      (update_client_info b (record { id = client; connected_at = 0; enable_notification = enable })
        w').1

  -- setNotificationStatusAction behind its call of json.Unmarshal.
  unfoldable pub set_status : Result Data.Configuration → UserId → World b → World b
  set_status (err e) client w = w
  set_status (ok event) client w =
      let enable = event.content.enable_notification in
      let saved = save_status enable client w in
      send_configurations_to_client client (
        if enable
        then send_all_notifications_to_client client false saved
        else send_empty_notification_list_to_client client true saved)

  unfoldable pub set_notification_status_action : Bytes → UserId → World b → World b
  unfolding set_status
  set_notification_status_action message client w =
      set_status (unmarshal_configuration message) client w

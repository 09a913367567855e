-- ===== src/Interleaving/Agreement.antt =====
-- The handlers call by call, beside the handlers as one step.
use r2_notify_server.Prelude.{
  String, ◌≡◌, refl, ◌∙◌, ap, Bool, true, false, List, Result, ok, err, ◌==◌, if◌then◌else◌,
}
use r2_notify_server.Models.{Time, UserId}
use r2_notify_server.Data
use r2_notify_server.Data.{
  EventNotification, CreateNotificationRequest, EventHubNotificationPayload,
}
use r2_notify_server.Json.{Bytes}
use r2_notify_server.Json.Decode.{unmarshal_event_notification, unmarshal_configuration}
use r2_notify_server.World.{Backend, World}
use r2_notify_server.Service.Notification.{NotificationService}
use r2_notify_server.Service.Configuration.{ConfigurationService}
use r2_notify_server.WebSocket.Actions.{
  send_list, send_all_notifications_to_client, send_empty_notification_list_to_client,
  send_found_configuration, send_configurations_to_client, on_event, mark_as_read_action,
  mark_app_read_action, mark_group_as_read_action, mark_notification_as_read_action,
  delete_notifications_action, delete_app_notifications_action, delete_group_notification_action,
  delete_notification_action, set_status, set_notification_status_action,
}
use r2_notify_server.WebSocket.Events.{handle_event}
use r2_notify_server.Interleaving.Program.{Program, run, run->>=}
use r2_notify_server.Interleaving.Frames.{
  send_list_calls, send_all_notifications_to_client_calls,
  send_empty_notification_list_to_client_calls, send_found_configuration_calls,
  send_configurations_to_client_calls, then_send_all, on_event_calls, set_status_calls,
  handle_event_calls,
}

module _ (b : Backend) (notifications : NotificationService (World b))
    (configurations : ConfigurationService (World b)) where
  -- The state after a program, without what it returns.
  abbrev pub after : {A : Type 0} → Program (World b) A → World b → World b
  after p w = (run p w).1

  list_same :
      (client : UserId) (bypass : Bool) (r : Result (List Data.Notification)) (w : World b)
      → after (send_list_calls b notifications configurations client bypass r) w
        ≡ send_list b notifications configurations client bypass r w
  unfolding send_list_calls send_list
  list_same client bypass (err e) w = refl
  list_same client bypass (ok ns) w = refl

  pub all_same :
      (client : UserId) (bypass : Bool) (w : World b)
      → after
          (send_all_notifications_to_client_calls b notifications configurations client bypass)
          w
        ≡ send_all_notifications_to_client b notifications configurations client bypass w
  unfolding send_all_notifications_to_client_calls send_all_notifications_to_client
  all_same client bypass w =
      let (r, w') = notifications.find_all client w in list_same client bypass r w'

  found_same :
      (client : UserId) (r : Result Data.Configuration) (w : World b)
      → after (send_found_configuration_calls b notifications configurations client r) w
        ≡ send_found_configuration b notifications configurations client r w
  unfolding send_found_configuration_calls send_found_configuration
  found_same client (err e) w = refl
  found_same client (ok c) w = refl

  pub configurations_same :
      (client : UserId) (w : World b)
      → after (send_configurations_to_client_calls b notifications configurations client) w
        ≡ send_configurations_to_client b notifications configurations client w
  unfolding send_configurations_to_client_calls send_configurations_to_client
  configurations_same client w =
      let (r, w') = configurations.find_by_app_and_user client w in found_same client r w'

  then_same :
      (client : UserId) (command : World b → Result (Unit {0}) × World b) (w : World b)
      → after (then_send_all b notifications configurations client command) w
        ≡ send_all_notifications_to_client b notifications configurations client false (command w).1
  unfolding then_send_all
  then_same client command w = all_same client false (command w).1

  on_event_same :
      (client : UserId) (r : Result EventNotification)
      (command : EventNotification → World b → Result (Unit {0}) × World b) (w : World b)
      → after (on_event_calls b notifications configurations client r command) w
        ≡ on_event b notifications configurations r
            (λ e v.
              send_all_notifications_to_client b notifications configurations client false
                (command e v).1)
            w
  unfolding on_event_calls
  on_event_same client (err e) command w = refl
  on_event_same client (ok event) command w = then_same client (command event) w

  pub resent_same :
      (enable : Bool) (client : UserId) (w : World b)
      → after
          (if enable
            then send_all_notifications_to_client_calls b notifications configurations client false
            else send_empty_notification_list_to_client_calls b notifications configurations client
                true)
          w
        ≡ (if enable
            then send_all_notifications_to_client b notifications configurations client false w
            else send_empty_notification_list_to_client b notifications configurations client true
                w)
  unfolding send_empty_notification_list_to_client_calls send_empty_notification_list_to_client
  resent_same true client w = all_same client false w
  resent_same false client w = refl

  status_same :
      (r : Result Data.Configuration) (client : UserId) (w : World b)
      → after (set_status_calls b notifications configurations r client) w
        ≡ set_status b notifications configurations r client w
  unfolding set_status_calls set_status
  status_same (err e) client w = refl
  status_same (ok event) client w =
      ap (λ (r : Unit {0} × World b). r.1)
        (run->>=
          (if event.content.enable_notification
            then send_all_notifications_to_client_calls b notifications configurations client false
            else send_empty_notification_list_to_client_calls b notifications configurations client
                true)
          (λ _. send_configurations_to_client_calls b notifications configurations client) _)
      ∙ configurations_same client _
      ∙ ap (send_configurations_to_client b notifications configurations client)
          (resent_same event.content.enable_notification client _)

  if_same :
      {A : Type 0} (t : Bool) (p q : Program (World b) A) (w v u : World b)
      → after p w ≡ v
      → after q w ≡ u
      → after (if t then p else q) w ≡ (if t then v else u)
  if_same true p q w v u e f = e
  if_same false p q w v u e f = f

  pub event_same :
      (now : Time) (event : String) (message : Bytes) (client : UserId) (w : World b)
      → after (handle_event_calls b notifications configurations now event message client) w
        ≡ handle_event b notifications configurations now event message client w
  unfolding handle_event_calls handle_event mark_as_read_action mark_app_read_action
      mark_group_as_read_action mark_notification_as_read_action delete_notifications_action
      delete_app_notifications_action delete_group_notification_action delete_notification_action
      set_notification_status_action
  event_same now event message client w =
      let parsed = unmarshal_event_notification b.times message in
      let same = if_same {A = Unit {0}} in
      same (event == Data.mark_as_read) _ _ w _ _
        (then_same client (notifications.mark_as_read now client) w)
        (same (event == Data.mark_app_as_read) _ _ w _ _ (on_event_same client parsed _ w) (
          same (event == Data.mark_group_as_read) _ _ w _ _ (on_event_same client parsed _ w) (
            same (event == Data.mark_notification_as_read) _ _ w _ _
              (on_event_same client parsed _ w)
              (same (event == Data.delete_notifications) _ _ w _ _
                (then_same client (notifications.delete_notifications client) w)
                (same (event == Data.delete_app_notifications) _ _ w _ _
                  (on_event_same client parsed _ w)
                  (same (event == Data.delete_group_notifications) _ _ w _ _
                    (on_event_same client parsed _ w)
                    (same (event == Data.delete_notification) _ _ w _ _
                      (on_event_same client parsed _ w)
                      (same (event == Data.reload_notifications) _ _ w _ _ (all_same client false w)
                        (same (event == Data.set_notification_status) _ _ w _ _
                          (status_same (unmarshal_configuration message) client w) refl)))))))))

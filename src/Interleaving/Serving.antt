-- ===== src/Interleaving/Serving.antt =====
-- The calls of the goroutines that read and ping a connection, and whom they are for.
use r2_notify_server.Prelude.{
  String, refl, Bool, true, false, Option, none, some, List, Result, ok, err, Error, ◌==◌,
}
use r2_notify_server.Models.{Time, UserId, Conn}
use r2_notify_server.Data
use r2_notify_server.Data.{EventNotification}
use r2_notify_server.Json.{Bytes, empty, malformed, json}
use r2_notify_server.Json.Decode.{
  unmarshal_event, unmarshal_event_notification, unmarshal_configuration,
}
use r2_notify_server.World.{Backend, World, LawfulSockets}
use r2_notify_server.ClientStore.{
  send_notification_list_to_user, send_configuration_to_user, update_client_info,
}
use r2_notify_server.Service.Notification
use r2_notify_server.Service.Configuration
use r2_notify_server.Server.{notifications, configurations}
use r2_notify_server.Server.Reach.{send_to_user-Serves, remove_connection-Serves}
use r2_notify_server.WebSocket.Events.{Frame, failed, text, binary, control}
use r2_notify_server.Interleaving.Program.{Program}
use r2_notify_server.Interleaving.Frames.{
  send_list_calls, send_all_notifications_to_client_calls,
  send_empty_notification_list_to_client_calls, send_found_configuration_calls,
  send_configurations_to_client_calls, then_send_all, on_event_calls, set_status_calls,
  handle_event_calls, handle_parsed_calls, handle_message_calls, on_frame_calls, after_ping_calls,
  on_tick_calls,
}
use r2_notify_server.Interleaving.Safe.{Allowed, serves, silent, IsSafe, >>=-IsSafe, if-IsSafe}

module _ (b : Backend) (law : LawfulSockets b.sockets) (users : Conn → Option UserId)
    (client : UserId) where
  -- All calls are allowed to a handler of the client's.
  abbrev pub ForClient : {A : Type 0} → Program (World b) A → Type 0
  ForClient = IsSafe b law users (some client)

  list_safe :
      (bypass : Bool) (r : Result (List Data.Notification))
      → ForClient (send_list_calls b (notifications b) (configurations b) client bypass r)
  unfolding send_list_calls send_notification_list_to_user
  list_safe bypass (err e) = tt
  list_safe bypass (ok ns) =
      (serves client refl (λ w. send_to_user-Serves b law client _ bypass w), λ r. tt)

  pub all_safe :
      (bypass : Bool)
      → ForClient (
          send_all_notifications_to_client_calls b
            (notifications b)
            (configurations b)
            client
            bypass)
  unfolding send_all_notifications_to_client_calls Notification.find_all
  all_safe bypass = (silent (λ w. refl) (λ w d. refl), λ r. list_safe bypass r)

  none_safe : ForClient (
      send_empty_notification_list_to_client_calls b
        (notifications b)
        (configurations b)
        client
        true)
  unfolding send_empty_notification_list_to_client_calls send_notification_list_to_user
  none_safe = (serves client refl (λ w. send_to_user-Serves b law client _ true w), λ r. tt)

  found_safe :
      (r : Result Data.Configuration)
      → ForClient (send_found_configuration_calls b (notifications b) (configurations b) client r)
  unfolding send_found_configuration_calls send_configuration_to_user
  found_safe (err e) = tt
  found_safe (ok c) = (serves client refl (λ w. send_to_user-Serves b law client _ true w), λ r. tt)

  pub configurations_safe :
      ForClient (send_configurations_to_client_calls b (notifications b) (configurations b) client)
  unfolding send_configurations_to_client_calls Configuration.find_by_app_and_user
  configurations_safe = (silent (λ w. refl) (λ w d. refl), λ r. found_safe r)

  then_safe :
      (command : World b → Result (Unit {0}) × World b)
      → Allowed b law users (some client) command
      → ForClient (then_send_all b (notifications b) (configurations b) client command)
  unfolding then_send_all
  then_safe command h = (h, λ r. all_safe false)

  on_event_safe :
      (r : Result EventNotification)
      (command : EventNotification → World b → Result (Unit {0}) × World b)
      → ((e : EventNotification) → Allowed b law users (some client) (command e))
      → ForClient (on_event_calls b (notifications b) (configurations b) client r command)
  unfolding on_event_calls
  on_event_safe (err e) command h = tt
  on_event_safe (ok event) command h = then_safe (command event) (h event)

  status_safe :
      (r : Result Data.Configuration)
      → ForClient (set_status_calls b (notifications b) (configurations b) r client)
  unfolding set_status_calls Configuration.update update_client_info
  status_safe (err e) = tt
  status_safe (ok event) = (
    silent (λ w. refl) (λ w d. refl),
    λ r. (
      silent (λ w. refl) (λ w d. refl),
      λ r'.
          >>=-IsSafe b law users (some client) _ _
            (if-IsSafe b law users (some client) event.content.enable_notification _ _
              (all_safe false) none_safe)
            (λ u. configurations_safe),
    ),
  )

  event_safe :
      (now : Time) (event : String) (message : Bytes)
      → ForClient
          (handle_event_calls b (notifications b) (configurations b) now event message client)
  unfolding handle_event_calls Notification.mark_as_read Notification.mark_app_as_read
      Notification.mark_group_as_read Notification.mark_notification_as_read
      Notification.delete_notifications Notification.delete_app_notifications
      Notification.delete_group_notifications Notification.delete_notification
  event_safe now event message =
      let parsed = unmarshal_event_notification b.times message in
      let either = if-IsSafe b law users (some client) {A = Unit {0}} in
      either (event == Data.mark_as_read) _ _ (then_safe _ (silent (λ w. refl) (λ w d. refl))) (
        either (event == Data.mark_app_as_read) _ _
          (on_event_safe parsed _ (λ e. silent (λ w. refl) (λ w d. refl)))
          (either (event == Data.mark_group_as_read) _ _
            (on_event_safe parsed _ (λ e. silent (λ w. refl) (λ w d. refl)))
            (either (event == Data.mark_notification_as_read) _ _
              (on_event_safe parsed _ (λ e. silent (λ w. refl) (λ w d. refl)))
              (either (event == Data.delete_notifications) _ _
                (then_safe _ (silent (λ w. refl) (λ w d. refl)))
                (either (event == Data.delete_app_notifications) _ _
                  (on_event_safe parsed _ (λ e. silent (λ w. refl) (λ w d. refl)))
                  (either (event == Data.delete_group_notifications) _ _
                    (on_event_safe parsed _ (λ e. silent (λ w. refl) (λ w d. refl)))
                    (either (event == Data.delete_notification) _ _
                      (on_event_safe parsed _ (λ e. silent (λ w. refl) (λ w d. refl)))
                      (either (event == Data.reload_notifications) _ _ (all_safe false) (
                        either (event == Data.set_notification_status) _ _
                          (status_safe (unmarshal_configuration message)) tt)))))))))

  parsed_safe :
      (now : Time) (r : Result String) (message : Bytes)
      → ForClient (handle_parsed_calls b (notifications b) (configurations b) now r message client)
  unfolding handle_parsed_calls
  parsed_safe now (err e) message = tt
  parsed_safe now (ok event) message = event_safe now event message

  message_safe :
      (now : Time) (message : Bytes)
      → ForClient (handle_message_calls b (notifications b) (configurations b) now message client)
  unfolding handle_message_calls
  message_safe now empty = tt
  message_safe now malformed = parsed_safe now (unmarshal_event malformed) malformed
  message_safe now (json j) = parsed_safe now (unmarshal_event (json j)) (json j)

  pub frame_safe :
      (now : Time) (frame : Frame) (conn : Conn)
      → ForClient (on_frame_calls b (notifications b) (configurations b) now frame client conn)
  unfolding on_frame_calls
  frame_safe now failed conn = (
    serves client refl (λ w. remove_connection-Serves b law client conn w),
    λ r. (silent (λ w. refl) (λ w d. law.close_sends_nothing conn d w.sockets), λ r'. tt),
  )
  frame_safe now (text message) conn = message_safe now message
  frame_safe now (binary message) conn = message_safe now message
  frame_safe now (control message) conn = tt

  ping_safe :
      (conn : Conn) (e : Option Error)
      → ForClient (after_ping_calls b (notifications b) (configurations b) client conn e)
  unfolding after_ping_calls
  ping_safe conn none = tt
  ping_safe conn (some e) =
      (serves client refl (λ w. remove_connection-Serves b law client conn w), λ r. tt)

  pub tick_safe :
      (conn : Conn) → ForClient (on_tick_calls b (notifications b) (configurations b) client conn)
  unfolding on_tick_calls
  tick_safe conn =
      (silent (λ w. refl) (λ w d. law.ping_sends_no_text conn d w.sockets), λ e. ping_safe conn e)

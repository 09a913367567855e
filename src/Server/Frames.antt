-- ===== src/Server/Frames.antt =====
-- Whom the messages and the ticks of a user's connections are for.
use r2_notify_server.Prelude.{
  String, ◌≡◌, refl, Bool, true, false, Option, none, some, List, Result, ok, err, Error, ◌==◌,
}
use r2_notify_server.Models.{Time, UserId, Conn}
use r2_notify_server.Data
use r2_notify_server.Data.{EventNotification, NotificationList}
use r2_notify_server.Json.{Bytes, empty, malformed, json}
use r2_notify_server.Json.Decode.{
  unmarshal_event, unmarshal_event_notification, unmarshal_configuration,
}
use r2_notify_server.World.{Backend, World, LawfulSockets, conns_of}
use r2_notify_server.ClientStore.{
  send_notification_list_to_user, send_configuration_to_user, update_client_info, remove_connection,
}
use r2_notify_server.ClientStore.Writing.{has}
use r2_notify_server.Service.Notification
use r2_notify_server.Service.Configuration
use r2_notify_server.WebSocket.Actions.{
  send_list, send_all_notifications_to_client, send_empty_notification_list_to_client,
  send_found_configuration, send_configurations_to_client, on_event, mark_as_read_action,
  mark_app_read_action, mark_group_as_read_action, mark_notification_as_read_action,
  delete_notifications_action, delete_app_notifications_action, delete_group_notification_action,
  delete_notification_action, save_status, set_status, set_notification_status_action,
}
use r2_notify_server.WebSocket.Events.{
  Frame, failed, text, binary, control, handle_event, handle_parsed, handle_message, on_frame,
  after_ping, on_tick,
}
use r2_notify_server.Server.{notifications, configurations}
use r2_notify_server.Server.Reach.{
  Narrows-refl, Serves, Serves-silent, Serves-trans, Serves-if, send_to_user-Serves,
  remove_connection-Serves,
}

module _ (b : Backend) (law : LawfulSockets b.sockets) (client : UserId) where
  abbrev ForClient : World b → World b → Type 0
  ForClient = Serves b law client

  send_list-Serves :
      (bypass : Bool) (r : Result (List Data.Notification)) (v w : World b)
      → ForClient v w
      → ForClient v (send_list b (notifications b) (configurations b) client bypass r w)
  unfolding send_list send_notification_list_to_user
  send_list-Serves bypass (err e) v w h = h
  send_list-Serves bypass (ok ns) v w h =
      Serves-trans b law client v w _ h (send_to_user-Serves b law client _ bypass w)

  pub send_all-Serves :
      (bypass : Bool) (v w : World b)
      → ForClient v w
      → ForClient v
          (send_all_notifications_to_client b (notifications b) (configurations b) client bypass w)
  unfolding send_all_notifications_to_client Notification.find_all
  send_all-Serves bypass v w h =
      let (r, w') = (notifications b).find_all client w in
      send_list-Serves bypass r v w'
        (Serves-trans b law client v w w' h (Serves-silent b law client w w' refl refl))

  send_found-Serves :
      (r : Result Data.Configuration) (v w : World b)
      → ForClient v w
      → ForClient v (send_found_configuration b (notifications b) (configurations b) client r w)
  unfolding send_found_configuration send_configuration_to_user
  send_found-Serves (err e) v w h = h
  send_found-Serves (ok c) v w h =
      Serves-trans b law client v w _ h (send_to_user-Serves b law client _ true w)

  pub send_configurations-Serves :
      (v w : World b)
      → ForClient v w
      → ForClient v (send_configurations_to_client b (notifications b) (configurations b) client w)
  unfolding send_configurations_to_client Configuration.find_by_app_and_user
  send_configurations-Serves v w h =
      let (r, w') = (configurations b).find_by_app_and_user client w in
      send_found-Serves r v w'
        (Serves-trans b law client v w w' h (Serves-silent b law client w w' refl refl))

  -- An action that changes the collection and then sends the list.
  changed_then_sent :
      (w w' : World b)
      → w'.clients ≡ w.clients
      → w'.sockets ≡ w.sockets
      → ForClient w
          (send_all_notifications_to_client b (notifications b) (configurations b) client false w')
  changed_then_sent w w' e f = send_all-Serves false w w' (Serves-silent b law client w w' e f)

  on_event-Serves :
      (r : Result EventNotification) (action : EventNotification → World b → World b) (w : World b)
      → ((event : EventNotification) → ForClient w (action event w))
      → ForClient w (on_event b (notifications b) (configurations b) r action w)
  on_event-Serves (err e) action w h = Serves-silent b law client w w refl refl
  on_event-Serves (ok event) action w h = h event

  set_status-Serves :
      (r : Result Data.Configuration) (w : World b)
      → ForClient w (set_status b (notifications b) (configurations b) r client w)
  unfolding set_status Configuration.update update_client_info
      send_empty_notification_list_to_client send_notification_list_to_user
  set_status-Serves (err e) w = Serves-silent b law client w w refl refl
  set_status-Serves (ok event) w =
      let saved =
        save_status b (notifications b) (configurations b) event.content.enable_notification client
          w in
      let silent = Serves-silent b law client w saved refl refl in
      send_configurations-Serves w _ (
        Serves-if b law client event.content.enable_notification w _ _
          (send_all-Serves false w saved silent)
          (Serves-trans b law client w saved _ silent
            (send_to_user-Serves b law client _ true saved)))

  handle_event-Serves :
      (now : Time) (event : String) (message : Bytes) (w : World b)
      → ForClient w (handle_event b (notifications b) (configurations b) now event message client w)
  unfolding handle_event mark_as_read_action mark_app_read_action mark_group_as_read_action
      mark_notification_as_read_action delete_notifications_action delete_app_notifications_action
      delete_group_notification_action delete_notification_action set_notification_status_action
      Notification.mark_as_read Notification.mark_app_as_read Notification.mark_group_as_read
      Notification.mark_notification_as_read Notification.delete_notifications
      Notification.delete_app_notifications Notification.delete_group_notifications
      Notification.delete_notification
  handle_event-Serves now event message w =
      let by_event = λ (action : EventNotification → World b → World b).
        on_event-Serves (unmarshal_event_notification b.times message) action w in
      Serves-if b law client (event == Data.mark_as_read) w _ _ (changed_then_sent w _ refl refl) (
        Serves-if b law client (event == Data.mark_app_as_read) w _ _
          (by_event _ (λ e. changed_then_sent w _ refl refl))
          (Serves-if b law client (event == Data.mark_group_as_read) w _ _
            (by_event _ (λ e. changed_then_sent w _ refl refl))
            (Serves-if b law client (event == Data.mark_notification_as_read) w _ _
              (by_event _ (λ e. changed_then_sent w _ refl refl))
              (Serves-if b law client (event == Data.delete_notifications) w _ _
                (changed_then_sent w _ refl refl)
                (Serves-if b law client (event == Data.delete_app_notifications) w _ _
                  (by_event _ (λ e. changed_then_sent w _ refl refl))
                  (Serves-if b law client (event == Data.delete_group_notifications) w _ _
                    (by_event _ (λ e. changed_then_sent w _ refl refl))
                    (Serves-if b law client (event == Data.delete_notification) w _ _
                      (by_event _ (λ e. changed_then_sent w _ refl refl))
                      (Serves-if b law client (event == Data.reload_notifications) w _ _
                        (changed_then_sent w w refl refl)
                        (Serves-if b law client (event == Data.set_notification_status) w _ _
                          (set_status-Serves (unmarshal_configuration message) w)
                          (Serves-silent b law client w w refl refl))))))))))

  pub close-Serves :
      (conn : Conn) (w : World b)
      → ForClient w (record w { sockets = b.sockets.close conn w.sockets })
  close-Serves conn w = record {
    narrows = Narrows-refl w.clients;
    quiet = λ d h. law.close_sends_nothing conn d w.sockets;
  }

  parsed_Serves :
      (now : Time) (r : Result String) (message : Bytes) (w : World b)
      → ForClient w (handle_parsed b (notifications b) (configurations b) now r message client w)
  unfolding handle_parsed
  parsed_Serves now (err e) message w = Serves-silent b law client w w refl refl
  parsed_Serves now (ok event) message w = handle_event-Serves now event message w

  handle_message-Serves :
      (now : Time) (message : Bytes) (w : World b)
      → ForClient w (handle_message b (notifications b) (configurations b) now message client w)
  unfolding handle_message
  handle_message-Serves now empty w = Serves-silent b law client w w refl refl
  handle_message-Serves now malformed w = parsed_Serves now (unmarshal_event malformed) malformed w
  handle_message-Serves now (json j) w = parsed_Serves now (unmarshal_event (json j)) (json j) w

  pub on_frame-Serves :
      (now : Time) (frame : Frame) (conn : Conn) (w : World b)
      → ForClient w (on_frame b (notifications b) (configurations b) now frame client conn w)
  unfolding on_frame
  on_frame-Serves now failed conn w =
      let w' = remove_connection b client conn w in
      Serves-trans b law client w w' _ (remove_connection-Serves b law client conn w)
        (close-Serves conn w')
  on_frame-Serves now (text message) conn w = handle_message-Serves now message w
  on_frame-Serves now (binary message) conn w = handle_message-Serves now message w
  on_frame-Serves now (control message) conn w = Serves-silent b law client w w refl refl

  after_ping-Serves :
      (e : Option Error) (conn : Conn) (w : World b)
      → ForClient w (after_ping b (notifications b) (configurations b) client conn e w)
  unfolding after_ping
  after_ping-Serves none conn w = Serves-silent b law client w w refl refl
  after_ping-Serves (some e) conn w = remove_connection-Serves b law client conn w

  pub on_tick-Serves :
      (conn : Conn) (w : World b)
      → ForClient w (on_tick b (notifications b) (configurations b) client conn w)
  unfolding on_tick
  on_tick-Serves conn w =
      let (e, k) = b.sockets.ping conn w.sockets in
      let pinged = record w { sockets = k } in
      Serves-trans b law client w pinged _
        (record {
          narrows = Narrows-refl w.clients;
          quiet = λ d h. law.ping_sends_no_text conn d w.sockets;
        })
        (after_ping-Serves e conn pinged)

-- Whatever a client sends on a connection, no connection that the map does not have under the
-- client's user gets a message.
on_frame-sent_other :
    (b : Backend) (law : LawfulSockets b.sockets) (now : Time) (frame : Frame) (client : UserId)
    (conn d : Conn) (w : World b)
    → has d (conns_of w.clients client) ≡ false
    → b.sockets.sent
        (on_frame b (notifications b) (configurations b) now frame client conn w).sockets
        d
      ≡ b.sockets.sent w.sockets d
on_frame-sent_other b law now frame client conn d w absent =
    (on_frame-Serves b law client now frame conn w).quiet d absent

-- ===== src/WebSocket/Events.antt =====
-- handlers/websocket.go: the goroutine that reads a connection, and the one that pings it.
use r2_notify_server.Prelude.{
  String, false, Option, none, some, Result, ok, err, Error, ◌==◌, if◌then◌else◌,
}
use r2_notify_server.Models.{Time, UserId, Conn}
use r2_notify_server.Data
use r2_notify_server.Json.{Bytes, empty, malformed, json}
use r2_notify_server.Json.Decode.{unmarshal_event}
use r2_notify_server.World.{Backend, World}
use r2_notify_server.ClientStore.{remove_connection}
use r2_notify_server.Service.Notification.{NotificationService}
use r2_notify_server.Service.Configuration.{ConfigurationService}
use r2_notify_server.WebSocket.Actions.{
  send_all_notifications_to_client, mark_as_read_action, mark_app_read_action,
  mark_group_as_read_action, mark_notification_as_read_action, delete_notifications_action,
  delete_app_notifications_action, delete_group_notification_action, delete_notification_action,
  set_notification_status_action,
}

-- What ReadMessage gives: an error, or a message with its type.
pub data Frame : Type 0 where
  failed : Frame
  text : Bytes → Frame
  binary : Bytes → Frame
  control : Bytes → Frame

module _ (b : Backend) (notifications : NotificationService (World b))
    (configurations : ConfigurationService (World b)) where
  -- The switch on the event's name.
  unfoldable pub handle_event : Time → String → Bytes → UserId → World b → World b
  handle_event now event message client w =
      if event == Data.mark_as_read
      then mark_as_read_action b notifications configurations now client w
      else if event == Data.mark_app_as_read
      then mark_app_read_action b notifications configurations now message client w
      else if event == Data.mark_group_as_read
      then mark_group_as_read_action b notifications configurations now message client w
      else if event == Data.mark_notification_as_read
      then mark_notification_as_read_action b notifications configurations now message client w
      else if event == Data.delete_notifications
      then delete_notifications_action b notifications configurations client w
      else if event == Data.delete_app_notifications
      then delete_app_notifications_action b notifications configurations message client w
      else if event == Data.delete_group_notifications
      then delete_group_notification_action b notifications configurations message client w
      else if event == Data.delete_notification
      then delete_notification_action b notifications configurations message client w
      else if event == Data.reload_notifications
      then send_all_notifications_to_client b notifications configurations client false w
      else if event == Data.set_notification_status
      then set_notification_status_action b notifications configurations message client w
      else w

  -- The loop's body behind the tests on type and length; an event that does not parse is dropped.
  unfoldable pub handle_parsed : Time → Result String → Bytes → UserId → World b → World b
  handle_parsed now (err e) message client w = w
  handle_parsed now (ok event) message client w = handle_event now event message client w

  unfoldable pub handle_message : Time → Bytes → UserId → World b → World b
  unfolding handle_parsed
  handle_message now empty client w = w
  handle_message now malformed client w =
      handle_parsed now (unmarshal_event malformed) malformed client w
  handle_message now (json j) client w =
      handle_parsed now (unmarshal_event (json j)) (json j) client w

  -- One round of the loop; an error takes the connection out of the store and closes it.
  unfoldable pub on_frame : Time → Frame → UserId → Conn → World b → World b
  unfolding handle_message
  on_frame now failed client conn w =
      let w' = remove_connection b client conn w in
      record w' { sockets = b.sockets.close conn w'.sockets }
  on_frame now (text message) client conn w = handle_message now message client w
  on_frame now (binary message) client conn w = handle_message now message client w
  on_frame now (control message) client conn w = w

  -- The pinging goroutine behind its write, which ends when that fails.
  unfoldable pub after_ping : UserId → Conn → Option Error → World b → World b
  after_ping client conn none w = w
  after_ping client conn (some e) w = remove_connection b client conn w

  unfoldable pub on_tick : UserId → Conn → World b → World b
  unfolding after_ping
  on_tick client conn w =
      let (e, k) = b.sockets.ping conn w.sockets in
      after_ping client conn e (record w { sockets = k })

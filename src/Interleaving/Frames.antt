-- ===== src/Interleaving/Frames.antt =====
-- handlers/websocket.go call by call: the reading and the pinging of a connection.
use r2_notify_server.Prelude.{
  String, Bool, true, false, Option, none, some, List, [], Result, ok, err, Error, ◌==◌,
  if◌then◌else◌,
}
use r2_notify_server.Models.{Time, UserId, Conn, nil_object_id}
use r2_notify_server.Data
use r2_notify_server.Data.{EventNotification, list_notifications, list_configurations}
use r2_notify_server.Json.{Bytes, empty, malformed, json}
use r2_notify_server.Json.Decode.{
  unmarshal_event, unmarshal_event_notification, unmarshal_configuration,
}
use r2_notify_server.World.{Backend, World}
use r2_notify_server.ClientStore.{
  send_notification_list_to_user, send_configuration_to_user, update_client_info, remove_connection,
}
use r2_notify_server.Service.Notification.{NotificationService}
use r2_notify_server.Service.Configuration.{ConfigurationService}
use r2_notify_server.WebSocket.Events.{Frame, failed, text, binary, control}
use r2_notify_server.Interleaving.Program.{
  Program, returns, call, call_void, call_only, ◌>>=◌, ◌>>◌,
}

module _ (b : Backend) (notifications : NotificationService (World b))
    (configurations : ConfigurationService (World b)) where
  abbrev Calls : Type 1
  Calls = Program (World b) (Unit {0})

  unfoldable pub send_list_calls : UserId → Bool → Result (List Data.Notification) → Calls
  send_list_calls client bypass (err e) = returns tt
  send_list_calls client bypass (ok ns) = call_only (
      send_notification_list_to_user b client (record { event = list_notifications; content = ns })
        bypass)

  unfoldable pub send_all_notifications_to_client_calls : UserId → Bool → Calls
  unfolding send_list_calls
  send_all_notifications_to_client_calls client bypass = do
    found ← call (notifications.find_all client)
    send_list_calls client bypass found

  unfoldable pub send_empty_notification_list_to_client_calls : UserId → Bool → Calls
  send_empty_notification_list_to_client_calls client bypass = call_only (
      send_notification_list_to_user b client (record { event = list_notifications; content = [] })
        bypass)

  unfoldable pub send_found_configuration_calls : UserId → Result Data.Configuration → Calls
  send_found_configuration_calls client (err e) = returns tt
  send_found_configuration_calls client (ok c) = call_only (
      send_configuration_to_user b
        (record {
          event = list_configurations;
          content = record {
            id = c.content.id;
            user_id = client;
            enable_notification = c.content.enable_notification;
          };
        })
        true)

  unfoldable pub send_configurations_to_client_calls : UserId → Calls
  unfolding send_found_configuration_calls
  send_configurations_to_client_calls client = do
    found ← call (configurations.find_by_app_and_user client)
    send_found_configuration_calls client found

  -- An action that calls the service for a command, and then sends the list.
  unfoldable pub then_send_all : UserId → (World b → Result (Unit {0}) × World b) → Calls
  unfolding send_all_notifications_to_client_calls
  then_send_all client command = do
    _ ← call command
    send_all_notifications_to_client_calls client false

  -- The same on a message that has to be an EventNotification.
  unfoldable pub on_event_calls :
      UserId
      → Result EventNotification
      → (EventNotification → World b → Result (Unit {0}) × World b)
      → Calls
  unfolding then_send_all
  on_event_calls client (err e) command = returns tt
  on_event_calls client (ok event) command = then_send_all client (command event)

  -- setNotificationStatusAction behind its call of json.Unmarshal.
  unfoldable pub set_status_calls : Result Data.Configuration → UserId → Calls
  unfolding send_all_notifications_to_client_calls send_empty_notification_list_to_client_calls
      send_configurations_to_client_calls
  set_status_calls (err e) client = returns tt
  set_status_calls (ok event) client = do
    let enable = event.content.enable_notification
    _ ← call (
        configurations.update
          (record { id = nil_object_id; user_id = client; enable_notifications = enable }))
    _ ← call (
        update_client_info b
          (record { id = client; connected_at = 0; enable_notification = enable }))
    (if enable
        then send_all_notifications_to_client_calls client false
        else send_empty_notification_list_to_client_calls client true)
    send_configurations_to_client_calls client

  unfoldable pub handle_event_calls : Time → String → Bytes → UserId → Calls
  unfolding then_send_all on_event_calls set_status_calls send_all_notifications_to_client_calls
  handle_event_calls now event message client =
      let parsed = unmarshal_event_notification b.times message in
      if event == Data.mark_as_read
      then then_send_all client (notifications.mark_as_read now client)
      else if event == Data.mark_app_as_read
      then on_event_calls client parsed
          (λ e. notifications.mark_app_as_read now client e.content.app_id)
      else if event == Data.mark_group_as_read
      then on_event_calls client parsed
          (λ e. notifications.mark_group_as_read now client e.content.app_id e.content.group_key)
      else if event == Data.mark_notification_as_read
      then on_event_calls client parsed
          (λ e. notifications.mark_notification_as_read now client e.content.id)
      else if event == Data.delete_notifications
      then then_send_all client (notifications.delete_notifications client)
      else if event == Data.delete_app_notifications
      then on_event_calls client parsed
          (λ e. notifications.delete_app_notifications client e.content.app_id)
      else if event == Data.delete_group_notifications
      then on_event_calls client parsed (λ e.
        notifications.delete_group_notifications client e.content.app_id e.content.group_key)
      else if event == Data.delete_notification
      then on_event_calls client parsed (λ e. notifications.delete_notification client e.content.id)
      else if event == Data.reload_notifications
      then send_all_notifications_to_client_calls client false
      else if event == Data.set_notification_status
      then set_status_calls (unmarshal_configuration message) client
      else returns tt

  unfoldable pub handle_parsed_calls : Time → Result String → Bytes → UserId → Calls
  handle_parsed_calls now (err e) message client = returns tt
  handle_parsed_calls now (ok event) message client = handle_event_calls now event message client

  unfoldable pub handle_message_calls : Time → Bytes → UserId → Calls
  unfolding handle_parsed_calls
  handle_message_calls now empty client = returns tt
  handle_message_calls now malformed client =
      handle_parsed_calls now (unmarshal_event malformed) malformed client
  handle_message_calls now (json j) client =
      handle_parsed_calls now (unmarshal_event (json j)) (json j) client

  -- A round of the loop that reads a connection.
  unfoldable pub on_frame_calls : Time → Frame → UserId → Conn → Calls
  unfolding handle_message_calls
  on_frame_calls now failed client conn = do
    call_void (remove_connection b client conn)
    call_void (λ w. record w { sockets = b.sockets.close conn w.sockets })
  on_frame_calls now (text message) client conn = handle_message_calls now message client
  on_frame_calls now (binary message) client conn = handle_message_calls now message client
  on_frame_calls now (control message) client conn = returns tt

  unfoldable pub after_ping_calls : UserId → Conn → Option Error → Calls
  after_ping_calls client conn none = returns tt
  after_ping_calls client conn (some e) = call_void (remove_connection b client conn)

  abbrev pub ping : Conn → World b → Option Error × World b
  ping conn w = let (e, k) = b.sockets.ping conn w.sockets in (e, record w { sockets = k })

  unfoldable pub on_tick_calls : UserId → Conn → Calls
  unfolding after_ping_calls
  on_tick_calls client conn = do e ← call (ping conn); after_ping_calls client conn e

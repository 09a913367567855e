-- ===== src/Samples/Commands.antt =====
-- The theorems on commands, on the server in memory.
use r2_notify_server.Prelude.{◌≡◌, refl, true, false, [], ◌∷◌, ok, err, Result, if◌then◌else◌}
use r2_notify_server.Models.{ClientInfo}
use r2_notify_server.Data
use r2_notify_server.Json.{Bytes, Json, json, str, arr, obj, nil, field, end}
use r2_notify_server.Json.Encode.{encode_notification_list, encode_all}
use r2_notify_server.Json.Decode.{unmarshal_event_notification, unmarshal_client_info}
use r2_notify_server.World.{conns_of}
use r2_notify_server.ClientStore.{get_client_info, client_key, send_to_user}
use r2_notify_server.ClientStore.Writing.{has}
use r2_notify_server.Repository
use r2_notify_server.Repository.Notification.Schema.{notification_schema}
use r2_notify_server.Repository.Notification.Scope
use r2_notify_server.Repository.Notification.Scope.{app}
use r2_notify_server.Text.{trim_quotes, trim_space}
use r2_notify_server.WebSocket.Actions.{send_all_notifications_to_client}
use r2_notify_server.WebSocket.Events.{handle_event}
use r2_notify_server.Server.{notifications, configurations}
use r2_notify_server.Server.Inbox.{marking, deleting, by_app, single}
use r2_notify_server.Server.Delivered.{IsListening, handle_event-Receives}
use r2_notify_server.Server.Refreshed.{unread_list, handle_event-Receives_unread}
use r2_notify_server.Samples.Memory.{memory-Lawful}
use r2_notify_server.Samples.Parts.{logs-Lawful}
use r2_notify_server.Samples.Start.{backend, two_users, two_docs, sample}

-- A client's message about the app ci.
abbrev app_message : Bytes
app_message = json (
    obj
      (field "event" (str "markAppAsRead") (field "data" (obj (field "appId" (str "ci") end)) end)))

abbrev app_event : Data.EventNotification
app_event = record {
  event = "markAppAsRead";
  content = record {
    id = "";
    app_id = "ci";
    user_id = "";
    group_key = "";
    message = "";
    read_status = false;
    status = "";
    created_at = 0;
    updated_at = 0;
  };
}

abbrev ann_known : ClientInfo
ann_known = record { id = "ann"; connected_at = 0; enable_notification = true }

ann_listens : IsListening backend "ann" two_users
unfolding get_client_info client_key unmarshal_client_info
ann_listens = record {
  conns = 3 ∷ 9 ∷ [];
  info = ann_known;
  connected = refl;
  distinct = (refl, (refl, tt));
  known = refl;
  enabled = refl;
}

-- The empty list, on connection 3.
handle_event-Receives_example :
    let w =
      handle_event backend
        (notifications backend)
        (configurations backend)
        5
        "markAppAsRead"
        app_message
        "ann"
        two_users in
    backend.sockets.sent w.sockets 3 ≡ (
      if has 3 (conns_of w.clients "ann")
      then obj (field "event" (str "listNotifications") (field "data" (arr nil) end)) ∷ []
      else [])
unfolding unmarshal_event_notification encode_notification_list encode_all Scope.mark
    Repository.Notification.mark_app_as_read Repository.Notification.clean trim_quotes trim_space
    Repository.Notification.find_all
handle_event-Receives_example =
    handle_event-Receives backend logs-Lawful "ann" 3 (memory-Lawful notification_schema) marking
      by_app 5 app_message app_event []
      (obj (field "event" (str "listNotifications") (field "data" (arr nil) end))) two_users
      ann_listens refl refl refl refl

-- A deletion of a notification whose id is no ObjectID reports an error.
abbrev lost_message : Bytes
lost_message = json (
    obj (
      field "event" (str "deleteNotification")
        (field "data" (obj (field "id" (str "none") end)) end)))

abbrev lost_event : Data.EventNotification
lost_event = record app_event {
  event = "deleteNotification";
  content = record app_event.content { id = "none"; app_id = "" };
}

abbrev value_of : Result Json → Json
value_of (ok j) = j
value_of (err e) = str ""

-- The list with the one notification of ann.
abbrev ann_list : Json
ann_list =
    value_of (
      encode_notification_list backend.times
        (unread_list backend logs-Lawful "ann" 3 two_docs.docs))

handle_event-Receives_unread_example :
    let w =
      handle_event backend
        (notifications backend)
        (configurations backend)
        5
        "deleteNotification"
        lost_message
        "ann"
        two_users in
    backend.sockets.sent w.sockets 3
    ≡ (if has 3 (conns_of w.clients "ann") then ann_list ∷ [] else [])
unfolding unmarshal_event_notification encode_notification_list encode_all
    r2_notify_server.Repository.Notification.find_all
    r2_notify_server.Repository.Notification.Scope.delete
    r2_notify_server.Repository.Notification.delete_notification
    r2_notify_server.Repository.Notification.delete_converted
    r2_notify_server.Repository.Notification.clean r2_notify_server.Text.trim_quotes
    r2_notify_server.Text.trim_space r2_notify_server.WebSocket.Events.handle_event
    r2_notify_server.WebSocket.Actions.delete_notification_action
    r2_notify_server.WebSocket.Actions.send_all_notifications_to_client
    r2_notify_server.Service.Notification.find_all
    r2_notify_server.Service.Notification.delete_notification
    r2_notify_server.ClientStore.send_notification_list_to_user
    r2_notify_server.ClientStore.send_to_user r2_notify_server.ClientStore.get_client_info
    r2_notify_server.ClientStore.client_key r2_notify_server.Json.Decode.unmarshal_client_info
    r2_notify_server.ClientStore.send_checked r2_notify_server.ClientStore.send_found
    r2_notify_server.ClientStore.send_marshalled r2_notify_server.ClientStore.write_all
    r2_notify_server.Json.Encode.encode_notification
    r2_notify_server.Repository.Notification.read_all r2_notify_server.WebSocket.Actions.send_list
    r2_notify_server.Service.Notification.listed
handle_event-Receives_unread_example =
    handle_event-Receives_unread backend logs-Lawful "ann" 3 (memory-Lawful notification_schema)
      deleting single 5 lost_message lost_event (sample 1 "ann" false ∷ []) ann_list two_users
      ann_listens refl refl refl

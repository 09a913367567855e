-- ===== src/Server/Inbox.antt =====
-- What a client's command does, said by the abstract view of the repository: the action is carried
-- out on its scope, and the client is sent what is left unread.
use r2_notify_server.Prelude.{String, ◌≡◌, refl, Bool, false, not, List, map, ok, Exec, select}
use r2_notify_server.Models.{Time, UserId, Notification}
use r2_notify_server.Data.{EventNotification, NotificationList, list_notifications}
use r2_notify_server.Json.{Bytes}
use r2_notify_server.Json.Decode.{unmarshal_event_notification}
use r2_notify_server.Mongo.{ObjectIds}
use r2_notify_server.World.{Backend, World}
use r2_notify_server.Repository.Notification.Scope
use r2_notify_server.Repository.Notification.Scope.{
  Scope, everything, app, group, one, is_unread, covers, reaches,
}
use r2_notify_server.Service.Notification
use r2_notify_server.WebSocket.Actions.{
  send_all_notifications_to_client, mark_as_read_action, mark_app_read_action,
  mark_group_as_read_action, mark_notification_as_read_action, delete_notifications_action,
  delete_app_notifications_action, delete_group_notification_action, delete_notification_action,
}
use r2_notify_server.WebSocket.Events.{handle_event}
use r2_notify_server.Server.{on_notifications, notifications, configurations}

pub data Act : Type 0 where
  marking : Act
  deleting : Act

-- How wide a command is; the rest of its scope is in the message.
pub data Width : Type 0 where
  whole : Width
  by_app : Width
  by_group : Width
  single : Width

-- The event that a client sends for a command.
abbrev pub event_name : Act → Width → String
event_name marking whole = "markAsRead"
event_name marking by_app = "markAppAsRead"
event_name marking by_group = "markGroupAsRead"
event_name marking single = "markNotificationAsRead"
event_name deleting whole = "deleteNotifications"
event_name deleting by_app = "deleteAppNotifications"
event_name deleting by_group = "deleteGroupNotifications"
event_name deleting single = "deleteNotification"

abbrev pub scope_of : Width → EventNotification → Scope
scope_of whole e = everything
scope_of by_app e = app e.content.app_id
scope_of by_group e = group e.content.app_id e.content.group_key
scope_of single e = one e.content.id

-- What a command takes out of its user's unread notifications.
abbrev pub takes : ObjectIds → Act → Scope → UserId → Notification → Bool
takes ids marking scope user = reaches ids scope user
takes ids deleting scope user = covers ids scope user

-- What the client is to be sent.
abbrev pub left_unread : ObjectIds → Act → Scope → UserId → List Notification → NotificationList
left_unread ids act scope user ns = record {
  event = list_notifications;
  content =
      map (Notification.listed ids)
        (select (λ n. not (takes ids act scope user n)) (select (is_unread user) ns));
}

module _ (b : Backend) where
  abbrev pub carry_out : Act → Scope → Time → UserId → Exec b.notifications.State (Unit {0})
  carry_out marking scope now user = Scope.mark b.notifications b.ids scope now user
  carry_out deleting scope now user = Scope.delete b.notifications b.ids scope user

  abbrev pub perform : Act → Scope → Time → UserId → Exec (World b) (Unit {0})
  perform act scope now user = on_notifications b (carry_out act scope now user)

  abbrev send_all : UserId → World b → World b
  send_all client w =
      send_all_notifications_to_client b (notifications b) (configurations b) client false w

  -- The handler of the event of a command, for a message that parses, carries the command out on
  -- the scope in the message, and then sends the client the list, whether the command has reported
  -- an error or not.
  pub handle_event-perform :
      (act : Act) (width : Width) (now : Time) (message : Bytes) (e : EventNotification)
      (client : UserId) (w : World b)
      → unmarshal_event_notification b.times message ≡ ok e
      → handle_event b
          (notifications b)
          (configurations b)
          now
          (event_name act width)
          message
          client
          w
        ≡ send_all client (perform act (scope_of width e) now client w).1
  unfolding handle_event mark_as_read_action mark_app_read_action mark_group_as_read_action
      mark_notification_as_read_action delete_notifications_action delete_app_notifications_action
      delete_group_notification_action delete_notification_action Scope.mark Scope.delete
      Notification.mark_as_read Notification.mark_app_as_read Notification.mark_group_as_read
      Notification.mark_notification_as_read Notification.delete_notifications
      Notification.delete_app_notifications Notification.delete_group_notifications
      Notification.delete_notification
  handle_event-perform marking whole now message e client w parsed = refl
  handle_event-perform marking by_app now message e client w parsed = rw parsed refl
  handle_event-perform marking by_group now message e client w parsed = rw parsed refl
  handle_event-perform marking single now message e client w parsed = rw parsed refl
  handle_event-perform deleting whole now message e client w parsed = refl
  handle_event-perform deleting by_app now message e client w parsed = rw parsed refl
  handle_event-perform deleting by_group now message e client w parsed = rw parsed refl
  handle_event-perform deleting single now message e client w parsed = rw parsed refl

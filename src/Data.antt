-- ===== src/Data.antt =====
-- data/types.go and data/constants.go: what crosses the wire. The embedded `Event` of a payload is
-- its field `event`.
use r2_notify_server.Prelude.{String, Bool, List}
use r2_notify_server.Models.{Time}

pub record EventHubNotificationPayload : Type 0 where
  pub app_id : String
  pub user_id : String
  pub group_key : String
  pub message : String
  pub status : String

pub record Notification : Type 0 where
  pub id : String
  pub app_id : String
  pub user_id : String
  pub group_key : String
  pub message : String
  pub read_status : Bool
  pub status : String
  pub created_at : Time
  pub updated_at : Time

pub record EventNotification : Type 0 where
  pub event : String
  pub content : Notification

pub record NotificationList : Type 0 where
  pub event : String
  pub content : List Notification

pub record NotificationConfig : Type 0 where
  pub id : String
  pub user_id : String
  pub enable_notification : Bool

pub record Configuration : Type 0 where
  pub event : String
  pub content : NotificationConfig

pub record CreateNotificationRequest : Type 0 where
  pub group_key : String
  pub message : String
  pub status : String

pub record GoogleAuthRequest : Type 0 where
  pub token : String

pub record UserInfo : Type 0 where
  pub id : String
  pub name : String
  pub email : String
  pub avatar : String

abbrev pub new_notification : String
new_notification = "newNotification"

abbrev pub list_notifications : String
list_notifications = "listNotifications"

abbrev pub list_configurations : String
list_configurations = "listConfigurations"

abbrev pub mark_as_read : String
mark_as_read = "markAsRead"

abbrev pub mark_app_as_read : String
mark_app_as_read = "markAppAsRead"

abbrev pub mark_group_as_read : String
mark_group_as_read = "markGroupAsRead"

abbrev pub mark_notification_as_read : String
mark_notification_as_read = "markNotificationAsRead"

abbrev pub delete_notifications : String
delete_notifications = "deleteNotifications"

abbrev pub delete_app_notifications : String
delete_app_notifications = "deleteAppNotifications"

abbrev pub delete_group_notifications : String
delete_group_notifications = "deleteGroupNotifications"

abbrev pub delete_notification : String
delete_notification = "deleteNotification"

abbrev pub reload_notifications : String
reload_notifications = "reloadNotifications"

abbrev pub set_notification_status : String
set_notification_status = "setNotificationStatus"

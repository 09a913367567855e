-- ===== src/Repository/Notification/Scope.antt =====
-- The abstract view of the notification repository: which stored notifications a call is about, and
-- what it does to them, said without filters.
use r2_notify_server.Prelude.{
  String, Bool, true, false, not, ◌&&◌, Result, ok, err, Exec, ◌==◌, eqb,
}
use r2_notify_server.Models.{ObjectId, Time, UserId, Notification}
use r2_notify_server.Mongo.{Collection, ObjectIds}
use r2_notify_server.Repository.Notification.{
  clean, mark_as_read, mark_app_as_read, mark_group_as_read, mark_notification_as_read,
  delete_notifications, delete_app_notifications, delete_group_notifications, delete_notification,
}
use r2_notify_server.Repository.Notification.Schema.{notification_schema, date_time}

-- The four marking and the four deleting methods, by what they are about.
pub data Scope : Type 0 where
  everything : Scope
  app : String → Scope
  group : String → String → Scope
  one : String → Scope

-- An unread notification of the user.
abbrev pub is_unread : UserId → Notification → Bool
is_unread user n = n.user_id == user && not n.read_status

abbrev pub is_of : UserId → Notification → Bool
is_of user n = n.user_id == user

abbrev pub as_read : Time → Notification → Notification
as_read now n = record n { read_status = true; updated_at = date_time now }

abbrev pub has_id : Result ObjectId → Notification → Bool
has_id (ok i) n = eqb n.id i
has_id (err e) n = false

module _ (ids : ObjectIds) where
  -- What the user means by a scope: notifications of that user only.
  abbrev pub covers : Scope → UserId → Notification → Bool
  covers everything user n = is_of user n
  covers (app a) user n = is_of user n && n.app_id == clean a
  covers (group a g) user n = is_of user n && (n.app_id == clean a && n.group_key == clean g)
  covers (one id) user n = is_of user n && has_id (ids.from_hex (clean id)) n

  -- What the marking methods reach: a single notification is not looked up under the user.
  abbrev pub reaches : Scope → UserId → Notification → Bool
  reaches (one id) user n = has_id (ids.from_hex (clean id)) n
  reaches everything user n = covers everything user n
  reaches (app a) user n = covers (app a) user n
  reaches (group a g) user n = covers (group a g) user n

module _ (coll : Collection notification_schema) (ids : ObjectIds) where
  unfoldable pub mark : Scope → Time → UserId → Exec coll.State (Unit {0})
  mark everything now user = mark_as_read coll ids now user
  mark (app a) now user = mark_app_as_read coll ids now user a
  mark (group a g) now user = mark_group_as_read coll ids now user a g
  mark (one id) now user = mark_notification_as_read coll ids now user id

  unfoldable pub delete : Scope → UserId → Exec coll.State (Unit {0})
  delete everything user = delete_notifications coll ids user
  delete (app a) user = delete_app_notifications coll ids user a
  delete (group a g) user = delete_group_notifications coll ids user a g
  delete (one id) user = delete_notification coll ids user id

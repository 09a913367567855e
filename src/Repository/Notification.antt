-- ===== src/Repository/Notification.antt =====
-- repository/notification/*.go. The clock is an argument: `now` is what `time.Now()` gives.
pub mod Schema
pub mod Scope
pub mod Writes
pub mod Reads
pub mod Isolation
use r2_notify_server.Prelude.{
  String, Bool, true, false, Option, none, some, List, [], ◌∷◌, Result, ok, err, Error,
  no_documents, notification_not_found, inserted_id_not_object_id, Exec, ◌>>=◌,
}
use r2_notify_server.Text.{trim_space, trim_quotes}
use r2_notify_server.Models.{ObjectId, Time, UserId, Notification}
use r2_notify_server.Mongo.{
  Collection, Cursor, SingleResult, failed, found, InsertedId, object_id, other_id, UpdateResult,
  ObjectIds,
}
use Schema.{
  notification_schema, Cond, user_is, app_is, group_is, read_is, id_is, Assign, set_read_status,
  set_updated_at, date_time,
}

-- The interface that the service is given.
pub record NotificationRepository (S : Type 0) : Type 0 where
  pub find_all : UserId → Exec S (List Notification)
  pub find_by_id : ObjectId → UserId → Exec S Notification
  pub create : Notification → Exec S ObjectId
  pub mark_as_read : Time → UserId → Exec S (Unit {0})
  pub mark_app_as_read : Time → UserId → String → Exec S (Unit {0})
  pub mark_group_as_read : Time → UserId → String → String → Exec S (Unit {0})
  pub mark_notification_as_read : Time → UserId → String → Exec S (Unit {0})
  pub delete_notifications : UserId → Exec S (Unit {0})
  pub delete_app_notifications : UserId → String → Exec S (Unit {0})
  pub delete_group_notifications : UserId → String → String → Exec S (Unit {0})
  pub delete_notification : UserId → String → Exec S (Unit {0})

-- strings.TrimSpace, then strings.Trim of quotes, as the methods do to their text arguments.
unfoldable pub clean : String → String
clean s = trim_quotes (trim_space s)

-- The loop over the cursor in FindAll, and the test of `cursor.Err()` behind it.
unfoldable pub read_all : List (Result Notification) → Option Error → Result (List Notification)
read_all [] none = ok []
read_all [] (some e) = err e
read_all (item ∷ items) failure = do
  notification ← item
  notifications ← read_all items failure
  ok (notification ∷ notifications)

-- The tests on the result of FindOne in FindById.
unfoldable pub read_one : SingleResult Notification → Result Notification
read_one (failed no_documents) = err notification_not_found
read_one (failed e) = err e
read_one (found (ok notification)) = ok notification
read_one (found (err e)) = err e

-- The type assertion on InsertedID.
unfoldable pub inserted_id : InsertedId → Result ObjectId
inserted_id (object_id id) = ok id
inserted_id other_id = err inserted_id_not_object_id

-- What a write returns: its error alone.
abbrev pub only_error : {A S : Type 0} → Result A × S → Result (Unit {0}) × S
only_error (ok a, s) = (ok tt, s)
only_error (err e, s) = (err e, s)

abbrev pub read_update : Time → List Assign
read_update now = set_read_status true ∷ set_updated_at (date_time now) ∷ []

module _ (coll : Collection notification_schema) (ids : ObjectIds) where
  open coll use {
    State, find, find_one, insert_one, update_many, update_by_id, delete_many, delete_one,
  }

  unfoldable pub find_all : UserId → Exec State (List Notification)
  unfolding read_all
  find_all user s =
      let (r, s') = find (user_is user ∷ read_is false ∷ []) s in
      (r >>= λ cursor. read_all cursor.items cursor.failure, s')

  unfoldable pub find_by_id : ObjectId → UserId → Exec State Notification
  unfolding read_one
  find_by_id id user s = let (r, s') = find_one (id_is id ∷ user_is user ∷ []) s in (read_one r, s')

  unfoldable pub create : Notification → Exec State ObjectId
  unfolding inserted_id
  create notification s = let (r, s') = insert_one notification s in (r >>= inserted_id, s')

  unfoldable pub mark_as_read : Time → UserId → Exec State (Unit {0})
  mark_as_read now client s = only_error (update_many (user_is client ∷ []) (read_update now) s)

  unfoldable pub mark_app_as_read : Time → UserId → String → Exec State (Unit {0})
  mark_app_as_read now client app s =
      only_error (update_many (user_is client ∷ app_is (clean app) ∷ []) (read_update now) s)

  unfoldable pub mark_group_as_read : Time → UserId → String → String → Exec State (Unit {0})
  mark_group_as_read now client app group s = only_error (
      update_many (user_is client ∷ app_is (clean app) ∷ group_is (clean group) ∷ [])
        (read_update now) s)

  -- MarkNotificationAsRead behind its call of ObjectIDFromHex.
  unfoldable pub update_converted : Time → Result ObjectId → Exec State (Unit {0})
  update_converted now (err e) s = (err e, s)
  update_converted now (ok id) s = only_error (update_by_id id (read_update now) s)

  unfoldable pub mark_notification_as_read : Time → UserId → String → Exec State (Unit {0})
  mark_notification_as_read now client notification_id s =
      update_converted now (ids.from_hex (clean notification_id)) s

  unfoldable pub delete_notifications : UserId → Exec State (Unit {0})
  delete_notifications client s = only_error (delete_many (user_is client ∷ []) s)

  unfoldable pub delete_app_notifications : UserId → String → Exec State (Unit {0})
  delete_app_notifications client app s =
      only_error (delete_many (user_is client ∷ app_is (clean app) ∷ []) s)

  unfoldable pub delete_group_notifications : UserId → String → String → Exec State (Unit {0})
  delete_group_notifications client app group s =
      only_error (delete_many (user_is client ∷ app_is (clean app) ∷ group_is (clean group) ∷ []) s)

  -- DeleteNotification behind its call of ObjectIDFromHex.
  unfoldable pub delete_converted : UserId → Result ObjectId → Exec State (Unit {0})
  delete_converted client (err e) s = (err e, s)
  delete_converted client (ok id) s = only_error (delete_one (user_is client ∷ id_is id ∷ []) s)

  unfoldable pub delete_notification : UserId → String → Exec State (Unit {0})
  delete_notification client notification_id s =
      delete_converted client (ids.from_hex (clean notification_id)) s

  -- NewNotificationRepositoryImpl
  abbrev pub notification_repository : NotificationRepository State
  notification_repository = record {
    find_all = find_all;
    find_by_id = find_by_id;
    create = create;
    mark_as_read = mark_as_read;
    mark_app_as_read = mark_app_as_read;
    mark_group_as_read = mark_group_as_read;
    mark_notification_as_read = mark_notification_as_read;
    delete_notifications = delete_notifications;
    delete_app_notifications = delete_app_notifications;
    delete_group_notifications = delete_group_notifications;
    delete_notification = delete_notification;
  }

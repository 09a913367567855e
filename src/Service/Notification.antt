-- ===== src/Service/Notification.antt =====
-- services/notification/*.go, over any implementation of the repository's interface.
use r2_notify_server.Prelude.{
  String, Bool, true, false, List, map, Result, ok, err, validator_nil, Exec, ◌>>=◌,
}
use r2_notify_server.Models
use r2_notify_server.Models.{ObjectId, Time, UserId, nil_object_id}
use r2_notify_server.Data
use r2_notify_server.Mongo.{ObjectIds}
use r2_notify_server.Repository.Notification.{NotificationRepository}

-- The interface that the handlers, the controller and the consumer are given.
pub record NotificationService (S : Type 0) : Type 0 where
  pub find_all : UserId → Exec S (List Data.Notification)
  pub find_by_id : ObjectId → UserId → Exec S Data.Notification
  pub create : Models.Notification → Exec S ObjectId
  pub mark_as_read : Time → UserId → Exec S (Unit {0})
  pub mark_app_as_read : Time → UserId → String → Exec S (Unit {0})
  pub mark_group_as_read : Time → UserId → String → String → Exec S (Unit {0})
  pub mark_notification_as_read : Time → UserId → String → Exec S (Unit {0})
  pub delete_notifications : UserId → Exec S (Unit {0})
  pub delete_app_notifications : UserId → String → Exec S (Unit {0})
  pub delete_group_notifications : UserId → String → String → Exec S (Unit {0})
  pub delete_notification : UserId → String → Exec S (Unit {0})

module _ (ids : ObjectIds) where
  -- The struct that FindAll builds for each document.
  unfoldable pub listed : Models.Notification → Data.Notification
  listed n = record {
    id = ids.hex n.id;
    app_id = n.app_id;
    user_id = n.user_id;
    group_key = n.group_key;
    message = n.message;
    read_status = n.read_status;
    status = n.status;
    created_at = n.created_at;
    updated_at = n.updated_at;
  }

  -- The struct that FindById builds: its AppId is that of the named result, still empty.
  unfoldable pub shown : Models.Notification → Data.Notification
  shown n = record {
    id = ids.hex n.id;
    app_id = "";
    user_id = n.user_id;
    group_key = n.group_key;
    message = n.message;
    read_status = n.read_status;
    status = n.status;
    created_at = n.created_at;
    updated_at = n.updated_at;
  }

module _ {S : Type 0} (repository : NotificationRepository S) (ids : ObjectIds) where
  unfoldable pub find_all : UserId → Exec S (List Data.Notification)
  find_all user s =
      let (result, s') = repository.find_all user s in
      (result >>= λ values. ok (map (listed ids) values), s')

  unfoldable pub find_by_id : ObjectId → UserId → Exec S Data.Notification
  find_by_id id user s =
      let (result, s') = repository.find_by_id id user s in
      (result >>= λ model. ok (shown ids model), s')

  unfoldable pub create : Models.Notification → Exec S ObjectId
  create notification s = repository.create notification s

  unfoldable pub mark_as_read : Time → UserId → Exec S (Unit {0})
  mark_as_read now user s = repository.mark_as_read now user s

  unfoldable pub mark_app_as_read : Time → UserId → String → Exec S (Unit {0})
  mark_app_as_read now user app s = repository.mark_app_as_read now user app s

  unfoldable pub mark_group_as_read : Time → UserId → String → String → Exec S (Unit {0})
  mark_group_as_read now user app group s = repository.mark_group_as_read now user app group s

  unfoldable pub mark_notification_as_read : Time → UserId → String → Exec S (Unit {0})
  mark_notification_as_read now user id s = repository.mark_notification_as_read now user id s

  unfoldable pub delete_notifications : UserId → Exec S (Unit {0})
  delete_notifications user s = repository.delete_notifications user s

  unfoldable pub delete_app_notifications : UserId → String → Exec S (Unit {0})
  delete_app_notifications user app s = repository.delete_app_notifications user app s

  unfoldable pub delete_group_notifications : UserId → String → String → Exec S (Unit {0})
  delete_group_notifications user app group s =
      repository.delete_group_notifications user app group s

  unfoldable pub delete_notification : UserId → String → Exec S (Unit {0})
  delete_notification user id s = repository.delete_notification user id s

  abbrev pub notification_service : NotificationService S
  notification_service = record {
    find_all = find_all;
    find_by_id = find_by_id;
    create = create;
    mark_as_read = mark_as_read;
    mark_app_as_read = mark_app_as_read;
    mark_group_as_read = mark_group_as_read;
    mark_notification_as_read = mark_notification_as_read;
    delete_notifications = delete_notifications;
    delete_app_notifications = delete_app_notifications;
    delete_group_notifications = delete_group_notifications;
    delete_notification = delete_notification;
  }

  -- NewNotificationServiceImpl: whether a validator is given.
  unfoldable pub new_notification_service : Bool → Result (NotificationService S)
  new_notification_service false = err validator_nil
  new_notification_service true = ok notification_service

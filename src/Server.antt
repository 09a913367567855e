-- ===== src/Server.antt =====
-- main.go: the services over the repositories over MongoDB, all on the shared state.
pub mod Reach
pub mod Frames
pub mod System
pub mod Stored
pub mod Creation
pub mod Requests
pub mod Events
pub mod Agreement
pub mod Inbox
pub mod Welcome
pub mod Handshakes
pub mod Status
pub mod Delivered
pub mod Refreshed
use r2_notify_server.Prelude.{Result, Exec}
use r2_notify_server.World.{Backend, World}
use r2_notify_server.Repository.Notification.{NotificationRepository, notification_repository}
use r2_notify_server.Repository.Configuration.{ConfigurationRepository, configuration_repository}
use r2_notify_server.Service.Notification.{NotificationService, notification_service}
use r2_notify_server.Service.Configuration.{ConfigurationService, configuration_service}

module _ (b : Backend) where
  -- An operation of a collection, on the shared state.
  abbrev pub on_notifications : {A : Type 0} → Exec b.notifications.State A → Exec (World b) A
  on_notifications m w = let (r, s) = m w.notifications in (r, record w { notifications = s })

  abbrev pub on_configurations : {A : Type 0} → Exec b.configurations.State A → Exec (World b) A
  on_configurations m w = let (r, s) = m w.configurations in (r, record w { configurations = s })

  abbrev pub notifications_of :
      NotificationRepository b.notifications.State → NotificationRepository (World b)
  notifications_of r = record {
    find_all = λ user. on_notifications (r.find_all user);
    find_by_id = λ id user. on_notifications (r.find_by_id id user);
    create = λ n. on_notifications (r.create n);
    mark_as_read = λ now user. on_notifications (r.mark_as_read now user);
    mark_app_as_read = λ now user app. on_notifications (r.mark_app_as_read now user app);
    mark_group_as_read =
        λ now user app group. on_notifications (r.mark_group_as_read now user app group);
    mark_notification_as_read =
        λ now user id. on_notifications (r.mark_notification_as_read now user id);
    delete_notifications = λ user. on_notifications (r.delete_notifications user);
    delete_app_notifications = λ user app. on_notifications (r.delete_app_notifications user app);
    delete_group_notifications =
        λ user app group. on_notifications (r.delete_group_notifications user app group);
    delete_notification = λ user id. on_notifications (r.delete_notification user id);
  }

  abbrev pub configurations_of :
      ConfigurationRepository b.configurations.State → ConfigurationRepository (World b)
  configurations_of r = record {
    find_by_app_and_user = λ user. on_configurations (r.find_by_app_and_user user);
    create = λ c. on_configurations (r.create c);
    update = λ c. on_configurations (r.update c);
    delete = λ user. on_configurations (r.delete user);
  }

  abbrev pub notifications : NotificationService (World b)
  notifications =
      notification_service (notifications_of (notification_repository b.notifications b.ids)) b.ids

  abbrev pub configurations : ConfigurationService (World b)
  configurations =
      configuration_service (configurations_of (configuration_repository b.configurations)) b.ids

-- ===== src/Service.antt =====
-- services/notification and services/configuration: the services over the repositories.
pub mod Notification
pub mod Configuration

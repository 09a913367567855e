-- ===== src/Repository.antt =====
-- repository/: the two repositories over the MongoDB driver.
pub mod Notification
pub mod Configuration

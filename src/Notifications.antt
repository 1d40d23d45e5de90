-- ===== src/Notifications.antt =====
-- src/notifications: the signed challenges that devices and web sessions start from.
pub mod Message
pub mod Challenge
mod Tests

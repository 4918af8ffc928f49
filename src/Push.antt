-- ===== src/Push.antt =====
-- src/modules/push: notifications to browsers that are not looking.
pub mod Jobs
pub mod Crypto
pub mod Subscriptions
pub mod Sender
pub mod Queue

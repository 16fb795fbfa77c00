-- ===== src/Domain/Notification.antt =====
-- src/domain/notification.rs: notification scopes, rules and what they select, resource versions,
-- webhook destinations and the addresses that they may name.
pub mod Rule
pub mod Address
pub mod Version
pub mod Webhook
pub mod Settings

-- ===== src/Application.antt =====
-- src/application: the use cases.
pub mod Notifications
pub mod Authorization
pub mod Todos
pub mod Idempotency
pub mod Projects

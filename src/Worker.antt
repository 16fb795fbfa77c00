-- ===== src/Worker.antt =====
-- src/worker: the processes beside the API.
pub mod Outbox
pub mod Retention

-- ===== src/Postgres.antt =====
-- The repository layer over PostgreSQL (src/infrastructure/postgres): rows, their reading, and the
-- statements as functions on rows.
pub mod Notifications
pub mod Listing
pub mod Idempotency
pub mod Projects

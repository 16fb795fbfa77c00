-- ===== src/Domain.antt =====
-- The pure domain values and their validation policy (src/domain).
pub mod Validation
pub mod Ids
pub mod Actor
pub mod Url
pub mod Attachment
pub mod Todo
pub mod Notification
pub mod Pagination
pub mod Project

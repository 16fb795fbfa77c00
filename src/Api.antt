-- ===== src/Api.antt =====
-- The HTTP interface (src/api): what it reads from headers.
pub mod IfMatch

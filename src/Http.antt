-- ===== src/Http.antt =====
-- The HTTP interface: the opaque cursor of lists (src/http/dto/subscriptions).
pub mod Cursor
mod Examples

-- ===== src/Repository.antt =====
-- The domain contract of subscription storage: src/subscription/repository.rs and
-- src/subscription/repository/payload.rs.
pub mod Operation
pub mod Errors
pub mod Payload
pub mod Source
pub mod Delta
pub mod Head
pub mod Retry
pub mod Poll
pub mod Listing
mod Examples

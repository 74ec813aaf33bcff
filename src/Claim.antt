-- ===== src/Claim.antt =====
-- src/storage/subscription_repo/claim.rs: the claims, leases and terminals of execution attempts.
pub mod Table
pub mod Load
pub mod Classify
pub mod Persist
pub mod Columns
pub mod Terminal
pub mod Exclusive
pub mod Due
pub mod Candidates
pub mod Refusals
pub mod Steps
pub mod Examples
pub mod Update
pub mod Select
pub mod Took
pub mod Passes
pub mod Checks
pub mod Eligible
pub mod Scenario

-- ===== src/Poll.antt =====
-- src/storage/subscription_repo/poll.rs: the polls of an account's watched list.
pub mod Meta
pub mod Existing
pub mod Merged
pub mod Seen
pub mod Missing
pub mod Opening
pub mod Operations
pub mod Terminal
pub mod Fence
pub mod Consumes
pub mod Stale
pub mod Begin
pub mod Commits
pub mod Snapshot
pub mod Incomplete
pub mod Steps
pub mod Ends
mod Examples
mod Scenario

-- ===== src/Effects.antt =====
-- src/subscription/effects.rs: rules that decide whether an external effect may run, so that a
-- retry neither repeats nor destroys a result. Its parts are the children.
pub mod Identity
pub mod Reconcile
pub mod Ensure
pub mod Paths
pub mod Link
mod Examples

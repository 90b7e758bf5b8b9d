-- ===== src/Controller.antt =====
-- Controllers.
pub mod Pods
pub mod Fencing
pub mod Retry
pub mod Classify
pub mod Result
pub mod Deadline
pub mod Ownership
pub mod Server
pub mod Sends
pub mod Attempt
pub mod Job
mod Examples

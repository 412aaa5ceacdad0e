-- ===== src/Transfer/Scheduler.antt =====
-- internal/transfer/scheduler.go: the fair scheduler of bandwidth.
pub mod Policy
pub mod Buckets
pub mod Queues
pub mod Waits
pub mod Limits
pub mod Leaving
pub mod Releasing
pub mod Keeping
pub mod Turns
pub mod Serving
pub mod Stranding
pub mod Arrival
pub mod Running
pub mod Calls
pub mod Invariant
pub mod Fairness
mod Tests
pub mod Turning

-- ===== src/Transfer.antt =====
-- internal/transfer: the resource ledger, the token bucket, the bandwidth scheduler, and
-- the policies of a plan.
pub mod Usage
pub mod Resources
pub mod Bucket
pub mod Completion
pub mod Streams
pub mod Scheduler
mod Tests

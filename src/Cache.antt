-- ===== src/Cache.antt =====
-- internal/cache: the catalog of cached files, its leases, its quota and its evictions.
pub mod Ids
pub mod Records
pub mod Validation
pub mod Accounting
pub mod Leases
pub mod Protections
pub mod Evictions
pub mod Planning
pub mod Plans
pub mod Marking
pub mod Candidates
pub mod Removing
pub mod Safety
pub mod Integrity
pub mod Applying
pub mod Trying
pub mod Totals
pub mod Rounds
pub mod Returns
pub mod Planned
pub mod Held
mod Tests

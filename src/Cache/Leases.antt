-- ===== src/Cache/Leases.antt =====
-- internal/cache/lease.go: heartbeat, release and the classification of a lease. The clock's reading
-- is an argument; the classifier of processes is not part of this package and is a parameter.
use awesome_sftp_cli.Base.{
  ℕ, ◌+◌, ◌-◌, String, not, ◌||◌, Option, none, some, ltb, ◌==◌, if◌then◌else◌, Result, ok, ◌>>◌,
  refuse_if, string_eq, ◌≐◌,
}
use awesome_sftp_cli.Cache.Records.{Lease, ProcessIdentity, is_negative}
use awesome_sftp_cli.Cache.Accounting.{CacheError, invalid_lease, invalid_manager, lease_not_active}
use awesome_sftp_cli.Cache.Validation.{valid_lease}

pub data ProcessStatus : Type 0 where
  process_matches process_gone process_birth_mismatch process_uncertain : ProcessStatus
  process_other : String → ProcessStatus

pub data LeaseProtection : Type 0 where
  protected_active protected_grace protected_live_process protected_uncertain : LeaseProtection
  reclaimable : LeaseProtection

-- `processes` is none for a nil classifier.
pub record LeaseManager : Type 0 where
  pub clock : ℕ → ℕ
  pub processes : Option (ProcessIdentity → ProcessStatus)
  pub expiry : ℕ
  pub grace : ℕ

abbrev pub lease_active : String
lease_active = "active"

abbrev pub lease_released : String
lease_released = "released"

-- Durations are int64 patterns.
unfoldable pub new_lease_manager :
    (ℕ → ℕ) → Option (ProcessIdentity → ProcessStatus) → ℕ → ℕ → Result CacheError LeaseManager
new_lease_manager clock processes expiry grace = do
  refuse_if (expiry == 0 || is_negative expiry || is_negative grace) invalid_manager
  ok (record { clock = clock; processes = processes; expiry = expiry; grace = grace })

-- A negative grace is cut off at 0, where the subtraction of ℕ stops.
unfoldable pub heartbeat : LeaseManager → ℕ → Lease → Result CacheError Lease
heartbeat manager now lease = do
  refuse_if (not (valid_lease lease)) invalid_lease
  refuse_if (not (lease.state ≐ lease_active)) lease_not_active
  let kept = lease.grace_until - lease.expires_at
  let grace = if ltb manager.grace kept then manager.grace else kept
  ok (record lease {
    heartbeat_at = now;
    expires_at = now + manager.expiry;
    grace_until = now + manager.expiry + grace;
  })

unfoldable pub release : ℕ → Lease → Result CacheError Lease
release now lease = do
  refuse_if (not (valid_lease lease)) invalid_lease
  refuse_if (not (lease.state ≐ lease_active)) lease_not_active
  ok (record lease { state = lease_released; released_at = now })

unfoldable pub protection_of : ProcessStatus → LeaseProtection
protection_of process_matches = protected_live_process
protection_of process_gone = reclaimable
protection_of process_birth_mismatch = reclaimable
protection_of process_uncertain = protected_uncertain
protection_of (process_other text) = protected_uncertain

unfoldable pub classify_owner :
    Option (ProcessIdentity → ProcessStatus) → Option ProcessIdentity → LeaseProtection
unfolding protection_of
classify_owner none identity = protected_uncertain
classify_owner (some processes) none = protected_uncertain
classify_owner (some processes) (some identity) = protection_of (processes identity)

-- The part of Classify behind the test for a released lease, with a manager.
unfoldable pub classify_held : LeaseManager → ℕ → Lease → LeaseProtection
unfolding classify_owner
classify_held manager now lease =
    if not (valid_lease lease)
    then protected_uncertain
    else if ltb now lease.expires_at
    then protected_active
    else if ltb now lease.grace_until
    then protected_grace
    else classify_owner manager.processes lease.process

unfoldable pub classify : Option LeaseManager → ℕ → Lease → LeaseProtection
unfolding classify_held
classify none now lease = if lease.state ≐ lease_released then reclaimable else protected_uncertain
classify (some manager) now lease =
    if lease.state ≐ lease_released then reclaimable else classify_held manager now lease

unfoldable pub classify_process : LeaseManager → Lease → LeaseProtection
unfolding classify_owner
classify_process manager lease =
    if not (valid_lease lease) || not (lease.state ≐ lease_active)
    then protected_uncertain
    else classify_owner manager.processes lease.process

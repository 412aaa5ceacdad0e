-- ===== src/Transfer/Scheduler/Limits.antt =====
-- internal/transfer/scheduler.go: what a normal policy holds, and what an accepted request holds.
use awesome_sftp_cli.Base.{◌≤◌, ◌≡◌, ◌↔◌, false, arith, ok, string_eq}
use awesome_sftp_cli.Transfer.Scheduler.Policy.{
  SchedulerPolicy, normalize_scheduler_policy, transfer_schedule_quantum,
  hard_recovery_buffer_bytes, max_bandwidth_bytes_per_second, default_to, validate_request,
  BandwidthRequest, is_unsupported,
}
use mathlib.Core.Path.{subst}

pub record IsNormalPolicy (p : SchedulerPolicy) : Type 0 where
  pub some_quantum : 1 ≤ p.quantum_bytes
  pub quantum : p.quantum_bytes ≤ transfer_schedule_quantum
  pub covers : p.quantum_bytes ≤ p.burst_bytes
  pub burst : p.burst_bytes ≤ hard_recovery_buffer_bytes
  pub global : p.global_bytes_per_second ≤ max_bandwidth_bytes_per_second
  pub endpoint : p.endpoint_bytes_per_second ≤ max_bandwidth_bytes_per_second
  pub job : p.job_bytes_per_second ≤ max_bandwidth_bytes_per_second
  pub some_interactive : 1 ≤ p.interactive_weight
  pub interactive : p.interactive_weight ≤ 16
  pub some_bulk : 1 ≤ p.bulk_weight
  pub bulk : p.bulk_weight ≤ 16

-- The policy with the defaults in place of its zero fields.
abbrev pub filled : SchedulerPolicy → SchedulerPolicy
filled p = record p {
  quantum_bytes = default_to transfer_schedule_quantum p.quantum_bytes;
  burst_bytes = default_to (default_to transfer_schedule_quantum p.quantum_bytes) p.burst_bytes;
  interactive_weight = default_to 4 p.interactive_weight;
  bulk_weight = default_to 1 p.bulk_weight;
}

pub normalize-filled :
    (p : SchedulerPolicy) → IsNormalPolicy (filled p) → normalize_scheduler_policy p ≡ ok (filled p)
unfolding normalize_scheduler_policy
normalize-filled p v = ground arith

pub normalize_bounds :
    (p q : SchedulerPolicy) → normalize_scheduler_policy p ≡ ok q → IsNormalPolicy q
unfolding normalize_scheduler_policy
normalize_bounds p q h = ground arith

normalize_value : (p q : SchedulerPolicy) → normalize_scheduler_policy p ≡ ok q → q ≡ filled p
unfolding normalize_scheduler_policy
normalize_value p q h = ground arith

-- normalizeSchedulerPolicy returns a policy exactly when it is the given one with the defaults in
-- place of its zero fields, and that is within every ceiling, with a positive quantum that the
-- burst covers and positive weights.
pub normalize_iff :
    (p q : SchedulerPolicy)
    → (normalize_scheduler_policy p ≡ ok q) ↔ ((q ≡ filled p) × IsNormalPolicy q)
normalize_iff p q = (
  λ h. (normalize_value p q h, normalize_bounds p q h),
  λ t. rw t.0 (normalize-filled p (subst IsNormalPolicy t.0 t.1)),
)

-- A request that validateRequest accepts is positive and within the quantum.
pub validate_bounds :
    (p : SchedulerPolicy) (r : BandwidthRequest)
    → validate_request p r ≡ ok tt
    → (1 ≤ r.bytes) × (r.bytes ≤ p.quantum_bytes) × (is_unsupported r.class ≡ false)
unfolding validate_request
validate_bounds p r h = ground arith

-- ===== src/Transfer/Scheduler/Tests.antt =====
-- internal/transfer/scheduler.go: the theorems at concrete inputs.
use awesome_sftp_cli.Base.{
  ℕ, ◌*◌, String, ◌≡◌, refl, ◌↔◌, true, false, List, [], ◌∷◌, map, arith, length, ok, string_eq,
}
use awesome_sftp_cli.Transfer.Scheduler.Policy.{
  ScheduleClass, SchedulerPolicy, normalize_scheduler_policy, BandwidthRequest,
  schedule_interactive, schedule_bulk, is_unsupported,
}
use awesome_sftp_cli.Transfer.Resources.{ResourceLedger}
use awesome_sftp_cli.Transfer.Bucket.{IntegerTokenBucket, second, add_tokens}
use awesome_sftp_cli.Transfer.Scheduler.Buckets.{TransferScheduler, BandwidthWaiter}
use awesome_sftp_cli.Transfer.Scheduler.Leaving.{IsRemoval, remove_waiter_lem}
use awesome_sftp_cli.Transfer.Scheduler.Waits.{
  enter_wait, update_policy, new_transfer_scheduler, wait_round, granted, advance_to,
}
use awesome_sftp_cli.Transfer.Scheduler.Serving.{IsServed}
use awesome_sftp_cli.Transfer.Scheduler.Fairness.{run-new-IsServed}
use awesome_sftp_cli.Transfer.Scheduler.Arrival.{CameAfter}
use awesome_sftp_cli.Transfer.Scheduler.Queues.{
  queue, has_waiter_for_job, endpoint_referenced, release_job, rebuild_cycle, same_class, class_at,
}
use awesome_sftp_cli.Transfer.Scheduler.Calls.{Event, step, enters, run, rounds, updates, releases}
use awesome_sftp_cli.Transfer.Scheduler.Running.{IsRunning}
use awesome_sftp_cli.Base.Map.{lookup, insert}
use awesome_sftp_cli.Transfer.Scheduler.Limits.{filled, IsNormalPolicy, normalize_iff}
use awesome_sftp_cli.Transfer.Usage.{
  hard_resource_ceilings, zero_usage, tighten_resource_limits, is_unset,
}
use awesome_sftp_cli.Transfer.Scheduler.Invariant.{started, run-new-IsRunning}
use awesome_sftp_cli.Transfer.Scheduler.Releasing.{IsReleased, IsReferenced, release_job_lem}
use awesome_sftp_cli.Transfer.Scheduler.Turning.{advance_to_lem}
use awesome_sftp_cli.Base.Members.{contains}

abbrev unlimited : SchedulerPolicy
unlimited = record {
  global_bytes_per_second = 0;
  endpoint_bytes_per_second = 0;
  job_bytes_per_second = 0;
  burst_bytes = 0;
  quantum_bytes = 0;
  interactive_weight = 0;
  bulk_weight = 0;
}

abbrev limited : SchedulerPolicy
limited = record (filled unlimited) {
  global_bytes_per_second = 100;
  endpoint_bytes_per_second = 100;
}

normalize_iff_example :
    (normalize_scheduler_policy unlimited ≡ ok (filled unlimited))
    ↔ ((filled unlimited ≡ filled unlimited) × IsNormalPolicy (filled unlimited))
normalize_iff_example = normalize_iff unlimited (filled unlimited)

abbrev empty_ledger : ResourceLedger
empty_ledger = record {
  limits = hard_resource_ceilings;
  total = zero_usage;
  per_endpoint = [];
  per_job = [];
  waiters = 0;
  wake = 0;
}

abbrev ticking : ℕ → ℕ
ticking n = n * second

abbrev copy_request : ScheduleClass → ℕ → BandwidthRequest
copy_request class bytes = record {
  job_id = "job";
  endpoint_id = "here";
  peer_endpoint_id = "there";
  job_bytes_per_second = 0;
  class = class;
  bytes = bytes;
}

abbrev waiter_at : ℕ → ScheduleClass → BandwidthWaiter
waiter_at id class = record { id = id; request = copy_request class 50 }

abbrev waiting : TransferScheduler
waiting = record (started ticking limited empty_ledger) {
  interactive = waiter_at 0 schedule_interactive ∷ waiter_at 1 schedule_interactive ∷ [];
  bulk = waiter_at 2 schedule_bulk ∷ [];
}

remove_waiter_lem_example : IsRemoval waiting.interactive (waiter_at 1 schedule_interactive)
remove_waiter_lem_example = remove_waiter_lem waiting.interactive (waiter_at 1 schedule_interactive)

new_unlimited :
    new_transfer_scheduler ticking limited hard_resource_ceilings
    ≡ ok (started ticking limited empty_ledger)
unfolding new_transfer_scheduler tighten_resource_limits is_unset
new_unlimited = refl

abbrev calls : List Event
calls =
    (enters (copy_request schedule_interactive 100) false
      ∷ enters (copy_request schedule_bulk 100) false
      ∷ rounds (record { id = 0; request = copy_request schedule_bulk 100 }) false
      ∷ updates unlimited
      ∷ releases "job"
      ∷ [])

run-new-IsRunning_example : IsRunning (run (started ticking limited empty_ledger) calls)
run-new-IsRunning_example =
    run-new-IsRunning ticking limited hard_resource_ceilings (started ticking limited empty_ledger)
      calls new_unlimited

-- A policy with a burst of one packet.
abbrev tight : SchedulerPolicy
tight = record (filled unlimited) {
  global_bytes_per_second = 100;
  burst_bytes = 1024;
  quantum_bytes = 1024;
}

new_tight :
    new_transfer_scheduler ticking tight hard_resource_ceilings
    ≡ ok (started ticking tight empty_ledger)
unfolding new_transfer_scheduler tighten_resource_limits is_unset
new_tight = refl

-- The first request takes the burst, and two more wait.
abbrev crowd : List Event
crowd =
    enters (copy_request schedule_bulk 1024) false
    ∷ enters (copy_request schedule_bulk 450) false
    ∷ enters (copy_request schedule_bulk 60) false
    ∷ []

abbrev crowded : TransferScheduler
crowded = run (started ticking tight empty_ledger) crowd

abbrev first_in_line : BandwidthWaiter
first_in_line = record { id = 0; request = copy_request schedule_bulk 450 }

crowded_lem :
    crowded.bulk ≡ first_in_line ∷ record { id = 1; request = copy_request schedule_bulk 60 } ∷ []
unfolding run step enter_wait rebuild_cycle lookup insert add_tokens
crowded_lem = refl

crowd_served :
    wait_round crowded first_in_line false ≡ ((wait_round crowded first_in_line false).0, granted)
unfolding run step enter_wait wait_round rebuild_cycle lookup insert add_tokens
crowd_served = refl

run-new-IsServed_example :
    (served : IsServed crowded (wait_round crowded first_in_line false).0 first_in_line) × CameAfter
      0
      (queue (wait_round crowded first_in_line false).0 served.class)
run-new-IsServed_example =
    run-new-IsServed ticking tight hard_resource_ceilings (started ticking tight empty_ledger) crowd
      first_in_line (wait_round crowded first_in_line false).0 new_tight crowd_served

abbrev rated_request : ℕ → ℕ → BandwidthRequest
rated_request rate bytes = record (copy_request schedule_bulk bytes) { job_bytes_per_second = rate }

-- Update lets a request wait that its Job's bucket can never hold: the bucket keeps the rate of an
-- earlier request of the Job, and the test reads the rate of the one that waits.
abbrev stuck : TransferScheduler
stuck = run (started ticking (filled unlimited) empty_ledger) (
    enters (rated_request 100 100) false
    ∷ enters (rated_request 0 200000) false
    ∷ updates (record (filled unlimited) { burst_bytes = 1024; quantum_bytes = 1024 })
    ∷ [])

stuck_lem :
    (map (λ (waiter : BandwidthWaiter). waiter.request.bytes) stuck.bulk ≡ 200000 ∷ [])
    × (map (λ (job : String × IntegerTokenBucket). job.1.rate) stuck.jobs ≡ 100 ∷ [])
    × (map (λ (job : String × IntegerTokenBucket). job.1.capacity) stuck.jobs ≡ 1024 ∷ [])
unfolding run step enter_wait rebuild_cycle lookup insert update_policy add_tokens
stuck_lem = (refl, refl, refl)

abbrev bucket : IntegerTokenBucket
bucket = record { rate = 100; capacity = 1000; tokens = 10; remainder = 0; last = 0 }

abbrev shared : TransferScheduler
shared = record (started ticking limited empty_ledger) {
  endpoints = ("here", bucket) ∷ ("there", bucket) ∷ [];
  jobs = ("job", bucket) ∷ ("other", bucket) ∷ [];
  job_endpoints = ("job", "here" ∷ "there" ∷ []) ∷ ("other", "there" ∷ []) ∷ [];
}

shared-IsReferenced : IsReferenced shared
unfolding lookup endpoint_referenced contains
shared-IsReferenced = record { unique = (refl, (refl, tt)); owned = λ name. ground arith }

release_job_lem_example : IsReleased shared (release_job shared "job") "job"
unfolding has_waiter_for_job rebuild_cycle
release_job_lem_example = release_job_lem shared "job" shared-IsReferenced refl refl

is_unsupported_bulk : is_unsupported schedule_bulk ≡ false
unfolding is_unsupported
is_unsupported_bulk = refl

advance_to_lem_example :
    same_class
      (class_at
        (started ticking limited empty_ledger).cycle
        (advance_to
          (length (started ticking limited empty_ledger).cycle)
          (started ticking limited empty_ledger)
          schedule_bulk).cycle_index)
      schedule_bulk
    ≡ true
unfolding rebuild_cycle run
advance_to_lem_example =
    advance_to_lem (started ticking limited empty_ledger) schedule_bulk
      (run-new-IsRunning ticking limited hard_resource_ceilings
        (started ticking limited empty_ledger) [] new_unlimited)
      is_unsupported_bulk

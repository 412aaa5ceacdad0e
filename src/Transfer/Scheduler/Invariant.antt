-- ===== src/Transfer/Scheduler/Invariant.antt =====
-- internal/transfer/scheduler.go: the invariant of the policy, the cycle and the queues.
use awesome_sftp_cli.Base.{
  ℕ, String, ◌≡◌, refl, inl, inr, ◌||◌, List, [], ◌∷◌, arith, Bool-cases, ok, ok-injective,
  >>=-eq-ok, string_eq,
}
use awesome_sftp_cli.Transfer.Scheduler.Queues.{rebuild_cycle, release_job, has_waiter_for_job}
use awesome_sftp_cli.Transfer.Scheduler.Calls.{
  run, step, Event, enters, enter_wait-IsRunning, rounds, wait_round-IsRunning, cancels, updates,
  update_policy-IsRunning, releases,
}
use awesome_sftp_cli.Transfer.Scheduler.Policy.{SchedulerPolicy, normalize_scheduler_policy}
use awesome_sftp_cli.Transfer.Scheduler.Waits.{
  new_transfer_scheduler, cancel_wait, strands, resources_for,
}
use awesome_sftp_cli.Transfer.Scheduler.Buckets.{TransferScheduler}
use awesome_sftp_cli.Transfer.Resources.{ResourceLedger}
use awesome_sftp_cli.Transfer.Usage.{ResourceLimits}
use awesome_sftp_cli.Transfer.Scheduler.Running.{IsRunning, cycle_nonempty, remove-IsRunning}
use awesome_sftp_cli.Transfer.Bucket.{new_integer_token_bucket}
use awesome_sftp_cli.Transfer.Scheduler.Limits.{IsNormalPolicy, normalize_bounds}
use mathlib.Core.Path.{subst}

release_job-IsRunning :
    (s : TransferScheduler) (job_id : String) → IsRunning s → IsRunning (release_job s job_id)
unfolding release_job
release_job-IsRunning s job_id r =
    elim (Bool-cases (string_eq.equal job_id "" || has_waiter_for_job s job_id)) [
      | inl kept ↦ rw kept r
      | inr free ↦ rw free (record {
        policy = r.policy;
        cycle = r.cycle;
        in_range = r.in_range;
        interactive = r.interactive;
        bulk = r.bulk;
        interactive_order = r.interactive_order;
        bulk_order = r.bulk_order;
      })
    ]

step-IsRunning : (s : TransferScheduler) (e : Event) → IsRunning s → IsRunning (step s e)
unfolding step cancel_wait
step-IsRunning s (enters request cancel) r = enter_wait-IsRunning s request cancel r
step-IsRunning s (rounds waiter cancel) r = wait_round-IsRunning s waiter cancel r
step-IsRunning s (cancels waiter) r = remove-IsRunning s waiter r
step-IsRunning s (updates policy) r = update_policy-IsRunning s policy r
step-IsRunning s (releases job_id) r = release_job-IsRunning s job_id r

run-IsRunning : (s : TransferScheduler) (es : List Event) → IsRunning s → IsRunning (run s es)
unfolding run
run-IsRunning s [] r = r
run-IsRunning s (e ∷ es) r = run-IsRunning (step s e) es (step-IsRunning s e r)

-- The state that NewTransferSchedulerWithLimits makes of a normal policy.
abbrev pub started : (ℕ → ℕ) → SchedulerPolicy → ResourceLedger → TransferScheduler
started clock p ledger = rebuild_cycle (record {
  clock = clock;
  reads = 1;
  policy = p;
  global = new_integer_token_bucket p.global_bytes_per_second p.burst_bytes p.burst_bytes (clock 0);
  endpoints = [];
  jobs = [];
  job_rates = [];
  job_endpoints = [];
  resources = ledger;
  interactive = [];
  bulk = [];
  cycle = [];
  cycle_index = 0;
  wake = 0;
  granted_bytes = 0;
  made = 0;
})

started-IsRunning :
    (clock : ℕ → ℕ) (p : SchedulerPolicy) (ledger : ResourceLedger)
    → IsNormalPolicy p
    → IsRunning (started clock p ledger)
unfolding rebuild_cycle strands
started-IsRunning clock p ledger n = record {
  policy = n;
  cycle = refl;
  in_range = ground (arith, cycle_nonempty p n);
  interactive = refl;
  bulk = refl;
  interactive_order = tt;
  bulk_order = tt;
}

new-IsRunning :
    (clock : ℕ → ℕ) (policy : SchedulerPolicy) (limits : ResourceLimits) (s : TransferScheduler)
    → new_transfer_scheduler clock policy limits ≡ ok s
    → IsRunning s
unfolding new_transfer_scheduler
new-IsRunning clock policy limits s h =
    let (p, normal, rest) = >>=-eq-ok (normalize_scheduler_policy policy) _ h in
    let (ledger, made, value) = >>=-eq-ok (resources_for limits) _ rest in
    subst IsRunning (ok-injective value)
      (started-IsRunning clock p ledger (normalize_bounds policy p normal))

-- From NewTransferSchedulerWithLimits, after any calls in any order: the policy is within every
-- ceiling; the cycle names each class as often as its weight says, and its index is in range, so
-- that no lookup in it can panic; each queue holds its waiters in the order in which they were
-- queued; and no queued request is larger than the burst while the global rate, or the rate of the
-- endpoints and it names one, or the rate that it states itself, or if it states none the policy's
-- rate of Jobs, is positive.
pub run-new-IsRunning :
    (clock : ℕ → ℕ) (policy : SchedulerPolicy) (limits : ResourceLimits) (s : TransferScheduler)
    (es : List Event)
    → new_transfer_scheduler clock policy limits ≡ ok s
    → IsRunning (run s es)
run-new-IsRunning clock policy limits s es h =
    run-IsRunning s es (new-IsRunning clock policy limits s h)

-- ===== src/Transfer/Scheduler/Fairness.antt =====
-- internal/transfer/scheduler.go: within a class, first come, first served.
use awesome_sftp_cli.Base.{ℕ, ◌≡◌, inl, inr, false, List, Bool-cases, ok, string_eq}
use awesome_sftp_cli.Transfer.Scheduler.Arrival.{InOrder, CameAfter}
use awesome_sftp_cli.Transfer.Scheduler.Policy.{
  SchedulerPolicy, ScheduleClass, schedule_interactive,
}
use awesome_sftp_cli.Transfer.Scheduler.Buckets.{TransferScheduler, BandwidthWaiter}
use awesome_sftp_cli.Transfer.Scheduler.Queues.{queue, same_class}
use awesome_sftp_cli.Transfer.Scheduler.Waits.{new_transfer_scheduler, wait_round, granted}
use awesome_sftp_cli.Transfer.Scheduler.Serving.{IsServed, wait_round-IsServed}
use awesome_sftp_cli.Transfer.Scheduler.Running.{IsRunning}
use awesome_sftp_cli.Transfer.Scheduler.Calls.{Event, run}
use awesome_sftp_cli.Transfer.Scheduler.Invariant.{run-new-IsRunning}
use awesome_sftp_cli.Transfer.Usage.{ResourceLimits}
use mathlib.Core.Path.{subst}

queue-InOrder :
    (s : TransferScheduler) (class : ScheduleClass) → IsRunning s → InOrder s.made (queue s class)
unfolding queue
queue-InOrder s class r = elim (Bool-cases (same_class class schedule_interactive)) [
  | inl first ↦ rw first r.interactive_order
  | inr second ↦ rw second r.bulk_order
]

-- From NewTransferSchedulerWithLimits, after any calls in any order: a round of Wait that grants
-- finds its waiter at the head of the queue of one of the two classes, takes out that waiter alone,
-- leaves the other class's queue as it is, and every waiter that is left in its class was queued
-- after it.
pub run-new-IsServed :
    (clock : ℕ → ℕ) (policy : SchedulerPolicy) (limits : ResourceLimits) (s : TransferScheduler)
    (es : List Event) (waiter : BandwidthWaiter) (s' : TransferScheduler)
    → new_transfer_scheduler clock policy limits ≡ ok s
    → wait_round (run s es) waiter false ≡ (s', granted)
    → (served : IsServed (run s es) s' waiter) × CameAfter waiter.id (queue s' served.class)
run-new-IsServed clock policy limits s es waiter s' made grants =
    let served = wait_round-IsServed (run s es) waiter s' grants in
    let r = run-new-IsRunning clock policy limits s es made in
    let order =
      subst (InOrder (run s es).made) served.head (queue-InOrder (run s es) served.class r) in
    (served, subst (λ id. CameAfter id (queue s' served.class)) served.own order.1)

-- ===== src/Transfer/Scheduler/Serving.antt =====
-- internal/transfer/scheduler.go: a round of Wait that grants takes its waiter from the head of a
-- class, and no other waiter moves.
use awesome_sftp_cli.Base.{
  ℕ, ◌≡◌, refl, inl, inr, Bool, false, not, Option, none, some, List, [], ◌∷◌, arith, ◌==◌,
  if◌then◌else◌, ==_iff, Bool-cases, string_eq,
}
use awesome_sftp_cli.Transfer.Scheduler.Policy.{
  ScheduleClass, schedule_interactive, BandwidthRequest,
}
use awesome_sftp_cli.Transfer.Scheduler.Buckets.{
  TransferScheduler, BandwidthWaiter, consume_request, refill_all, now,
}
use awesome_sftp_cli.Transfer.Scheduler.Queues.{
  dequeue_selected, head_of, queue, advance, same_class, tail_of, broadcast, class_at, is_waiter,
  selected, is_class_head,
}
use awesome_sftp_cli.Transfer.Scheduler.Waits.{
  grant_selected, add_granted, wait_round, granted, sleep_round,
}
use awesome_sftp_cli.Transfer.Scheduler.Turns.{IsChosen, Selects, later-Selects, selected-Selects}
use awesome_sftp_cli.Transfer.Scheduler.Keeping.{consume_request-Keeps, Keeps}
use mathlib.Core.Path.{subst}

-- Which of the two queues a class names.
abbrev pub first_queue : ScheduleClass → Bool
first_queue class = same_class class schedule_interactive

pub record IsServed (s s' : TransferScheduler) (waiter : BandwidthWaiter) : Type 0 where
  pub class : ScheduleClass
  pub first : BandwidthWaiter
  pub own : first.id ≡ waiter.id
  pub head : queue s class ≡ first ∷ queue s' class
  pub others :
      (other : ScheduleClass)
      → first_queue other ≡ not (first_queue class)
      → queue s' other ≡ queue s other

dequeue_selected-queue :
    (s : TransferScheduler) (other : ScheduleClass)
    → queue (dequeue_selected s) other ≡ (
        if first_queue (class_at s.cycle s.cycle_index)
        then (if first_queue other then tail_of s.interactive else s.bulk)
        else (if first_queue other then s.interactive else tail_of s.bulk))
unfolding dequeue_selected queue advance
dequeue_selected-queue s other = ground arith

grant_selected-queue :
    (s : TransferScheduler) (r : BandwidthRequest) (other : ScheduleClass)
    → queue (grant_selected s r) other ≡ (
        if first_queue (class_at s.cycle s.cycle_index)
        then (if first_queue other then tail_of s.interactive else s.bulk)
        else (if first_queue other then s.interactive else tail_of s.bulk))
unfolding grant_selected queue add_granted broadcast
grant_selected-queue s r other =
    let k = consume_request-Keeps s r in
    let d = dequeue_selected-queue (consume_request s r) other in
    ground (arith, k.interactive, k.bulk, k.cycle, k.cycle_index, d)

head_tail :
    (q : List BandwidthWaiter) (first : BandwidthWaiter)
    → head_of q ≡ some first
    → q ≡ first ∷ tail_of q
unfolding head_of tail_of
head_tail [] first h = cc
head_tail (x ∷ q) first h = cc

chosen-IsServed :
    (s t : TransferScheduler) (first waiter : BandwidthWaiter)
    → IsChosen s t first
    → first.id ≡ waiter.id
    → IsServed s (grant_selected t waiter.request) waiter
unfolding queue
chosen-IsServed s t first waiter c own =
    let class = class_at s.cycle t.cycle_index in
    let after = grant_selected-queue t waiter.request in
    let split = head_tail (queue s class) first c.head in
    record {
      class = class;
      first = first;
      own = own;
      head = ground (arith, after class, split, c.interactive, c.bulk, c.cycle);
      others = λ other apart. ground (arith, after other, apart, c.interactive, c.bulk, c.cycle);
    }

round-IsServed :
    (s t : TransferScheduler) (chosen : Option BandwidthWaiter) (waiter : BandwidthWaiter)
    (s' : TransferScheduler)
    → Selects s (t, chosen)
    → (if is_waiter waiter chosen
        then (grant_selected t waiter.request, granted)
        else sleep_round t chosen waiter)
      ≡ (s', granted)
    → IsServed s s' waiter
unfolding Selects is_waiter sleep_round
round-IsServed s t none waiter s' k h = absurd (ground (arith, Bool-cases (is_class_head t waiter)))
round-IsServed s t (some first) waiter s' c h = elim (Bool-cases (first.id == waiter.id)) [
  | inl same ↦
      subst (λ u. IsServed s u waiter) (ground arith)
        (chosen-IsServed s t first waiter c (omega (arith, (==_iff _ _).0 same)))
  | inr other ↦ absurd (ground arith)
]

pub refill_all-Keeps : (s : TransferScheduler) (time : ℕ) → Keeps s (refill_all (now s).0 time)
unfolding refill_all now
refill_all-Keeps s time = record {
  interactive = refl;
  bulk = refl;
  cycle = refl;
  cycle_index = refl;
  policy = refl;
  made = refl;
}

-- A round of Wait that grants, in any state, finds its waiter at the head of the queue of one of
-- the two classes, takes out that waiter alone, and leaves the other class's queue as it is.
pub wait_round-IsServed :
    (s : TransferScheduler) (waiter : BandwidthWaiter) (s' : TransferScheduler)
    → wait_round s waiter false ≡ (s', granted)
    → IsServed s s' waiter
unfolding wait_round now
wait_round-IsServed s waiter s' h =
    let r = refill_all (now s).0 (now s).1 in
    let o = selected r in
    round-IsServed s o.0 o.1 waiter s'
      (later-Selects s r o (refill_all-Keeps s (now s).1) (selected-Selects r)) h

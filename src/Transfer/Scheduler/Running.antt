-- ===== src/Transfer/Scheduler/Running.antt =====
-- internal/transfer/scheduler.go: what every call keeps of the policy, the cycle and the queues.
use awesome_sftp_cli.Transfer.Scheduler.Arrival.{
  InOrder, InOrder-more, InOrder-append, InOrder-tail, InOrder-remove_waiter,
}
use mathlib.Core.Path.{subst₂, subst}
use native.Mathlib.Nat.{mod-lt}
use awesome_sftp_cli.Base.{
  ℕ, zero, suc, ◌+◌, ◌≤◌, ◌<◌, ◌≡◌, sym, ap, ◌∙◌, inl, inr, false, List, [], ◌∷◌, ◌++◌, arith,
  Bool-cases, length, replicate, length-append, length-replicate, string_eq,
}
use awesome_sftp_cli.Transfer.Scheduler.Policy.{
  SchedulerPolicy, ScheduleClass, BandwidthRequest, schedule_interactive, schedule_bulk,
}
use awesome_sftp_cli.Transfer.Scheduler.Buckets.{TransferScheduler, BandwidthWaiter}
use awesome_sftp_cli.Transfer.Scheduler.Queues.{
  advance, broadcast, dequeue_selected, remove, enqueue, same_class, class_at, remove_waiter,
  tail_of,
}
use awesome_sftp_cli.Transfer.Scheduler.Waits.{
  add_granted, advance_to, join_queue, strands, is_stranded,
}
use awesome_sftp_cli.Transfer.Scheduler.Limits.{IsNormalPolicy}
use awesome_sftp_cli.Transfer.Scheduler.Keeping.{Keeps}
use awesome_sftp_cli.Transfer.Scheduler.Stranding.{
  strands-remove_waiter, single_fits, strands-tail, strands-append,
}

abbrev pub cycle_for : SchedulerPolicy → List ScheduleClass
cycle_for p =
    replicate p.interactive_weight schedule_interactive ++ replicate p.bulk_weight schedule_bulk

pub record IsRunning (s : TransferScheduler) : Type 0 where
  pub policy : IsNormalPolicy s.policy
  pub cycle : s.cycle ≡ cycle_for s.policy
  pub in_range : s.cycle_index < length s.cycle
  pub interactive : strands s.policy s.interactive ≡ false
  pub bulk : strands s.policy s.bulk ≡ false
  pub interactive_order : InOrder s.made s.interactive
  pub bulk_order : InOrder s.made s.bulk

pub cycle_nonempty : (p : SchedulerPolicy) → IsNormalPolicy p → 1 ≤ length (cycle_for p)
cycle_nonempty p n = omega (
  arith,
  n.some_interactive,
  length-append (replicate p.interactive_weight schedule_interactive)
      (replicate p.bulk_weight schedule_bulk),
  length-replicate p.interactive_weight schedule_interactive,
)

pub kept-IsRunning : (s t : TransferScheduler) → Keeps s t → IsRunning s → IsRunning t
kept-IsRunning s t k r = record {
  policy = subst IsNormalPolicy (sym k.policy) r.policy;
  cycle = k.cycle ∙ r.cycle ∙ ap cycle_for (sym k.policy);
  in_range = ground (arith, k.cycle, k.cycle_index, r.in_range);
  interactive = ground (arith, k.policy, k.interactive, r.interactive);
  bulk = ground (arith, k.policy, k.bulk, r.bulk);
  interactive_order = subst₂ InOrder (sym k.made) (sym k.interactive) r.interactive_order;
  bulk_order = subst₂ InOrder (sym k.made) (sym k.bulk) r.bulk_order;
}

pub advance-IsRunning : (s : TransferScheduler) → IsRunning s → IsRunning (advance s)
unfolding advance
advance-IsRunning s r = record {
  policy = r.policy;
  cycle = r.cycle;
  in_range = mod-lt (s.cycle_index + 1) (omega (arith, r.in_range));
  interactive = r.interactive;
  bulk = r.bulk;
  interactive_order = r.interactive_order;
  bulk_order = r.bulk_order;
}

pub advance_to-IsRunning :
    (fuel : ℕ) (s : TransferScheduler) (class : ScheduleClass)
    → IsRunning s
    → IsRunning (advance_to fuel s class)
unfolding advance_to
advance_to-IsRunning zero s class r = r
advance_to-IsRunning (suc fuel) s class r =
    let later = advance_to-IsRunning fuel (advance s) class (advance-IsRunning s r) in
    elim (Bool-cases (same_class (class_at s.cycle s.cycle_index) class)) [
      | inl here ↦ rw here r
      | inr further ↦ rw further later
    ]

pub join_queue-IsRunning :
    (s : TransferScheduler) (request : BandwidthRequest)
    → IsRunning s
    → is_stranded s.policy request ≡ false
    → IsRunning (join_queue s request).0
unfolding join_queue enqueue broadcast
join_queue-IsRunning s request r fits =
    let waiter : BandwidthWaiter = record { id = s.made; request = request } in
    let alone = single_fits s.policy waiter fits in
    elim (Bool-cases (same_class request.class schedule_interactive)) [
      | inl first ↦ rw first (record {
        policy = r.policy;
        cycle = r.cycle;
        in_range = r.in_range;
        interactive = strands-append s.policy s.interactive (waiter ∷ []) r.interactive alone;
        bulk = r.bulk;
        interactive_order = InOrder-append s.interactive waiter r.interactive_order;
        bulk_order = InOrder-more s.made s.bulk r.bulk_order;
      })
      | inr second ↦ rw second (record {
        policy = r.policy;
        cycle = r.cycle;
        in_range = r.in_range;
        interactive = r.interactive;
        bulk = strands-append s.policy s.bulk (waiter ∷ []) r.bulk alone;
        interactive_order = InOrder-more s.made s.interactive r.interactive_order;
        bulk_order = InOrder-append s.bulk waiter r.bulk_order;
      })
    ]

pub add_granted-IsRunning :
    (s : TransferScheduler) (bytes : ℕ) → IsRunning s → IsRunning (add_granted s bytes)
unfolding add_granted
add_granted-IsRunning s bytes r = record {
  policy = r.policy;
  cycle = r.cycle;
  in_range = r.in_range;
  interactive = r.interactive;
  bulk = r.bulk;
  interactive_order = r.interactive_order;
  bulk_order = r.bulk_order;
}

pub broadcast-IsRunning : (s : TransferScheduler) → IsRunning s → IsRunning (broadcast s)
unfolding broadcast
broadcast-IsRunning s r = record {
  policy = r.policy;
  cycle = r.cycle;
  in_range = r.in_range;
  interactive = r.interactive;
  bulk = r.bulk;
  interactive_order = r.interactive_order;
  bulk_order = r.bulk_order;
}

pub dequeue_selected-IsRunning :
    (s : TransferScheduler) → IsRunning s → IsRunning (dequeue_selected s)
unfolding dequeue_selected
dequeue_selected-IsRunning s r =
    elim (Bool-cases (same_class (class_at s.cycle s.cycle_index) schedule_interactive)) [
      | inl first ↦ rw first (
          advance-IsRunning (record s { interactive = tail_of s.interactive })
            (record {
              policy = r.policy;
              cycle = r.cycle;
              in_range = r.in_range;
              interactive = strands-tail s.policy s.interactive r.interactive;
              bulk = r.bulk;
              interactive_order = InOrder-tail s.made s.interactive r.interactive_order;
              bulk_order = r.bulk_order;
            }))
      | inr second ↦ rw second (
          advance-IsRunning (record s { bulk = tail_of s.bulk })
            (record {
              policy = r.policy;
              cycle = r.cycle;
              in_range = r.in_range;
              interactive = r.interactive;
              bulk = strands-tail s.policy s.bulk r.bulk;
              interactive_order = r.interactive_order;
              bulk_order = InOrder-tail s.made s.bulk r.bulk_order;
            }))
    ]

pub remove-IsRunning :
    (s : TransferScheduler) (w : BandwidthWaiter) → IsRunning s → IsRunning (remove s w)
unfolding remove broadcast
remove-IsRunning s w r = elim (Bool-cases (remove_waiter s.interactive w).1) [
  | inl first ↦ rw first (record {
    policy = r.policy;
    cycle = r.cycle;
    in_range = r.in_range;
    interactive = strands-remove_waiter s.policy s.interactive w r.interactive;
    bulk = r.bulk;
    interactive_order = InOrder-remove_waiter s.made s.interactive w r.interactive_order;
    bulk_order = r.bulk_order;
  })
  | inr neither ↦ elim (Bool-cases (remove_waiter s.bulk w).1) [
    | inl second ↦
        rw (neither, second)
          (record {
            policy = r.policy;
            cycle = r.cycle;
            in_range = r.in_range;
            interactive = r.interactive;
            bulk = strands-remove_waiter s.policy s.bulk w r.bulk;
            interactive_order = r.interactive_order;
            bulk_order = InOrder-remove_waiter s.made s.bulk w r.bulk_order;
          })
    | inr absent ↦ rw (neither, absent) r
  ]
]

-- ===== src/Transfer/Scheduler/Calls.antt =====
-- internal/transfer/scheduler.go: any calls on one scheduler, in any order, by callers that wait,
-- give up, finish their jobs and change the policy.
use awesome_sftp_cli.Transfer.Scheduler.Arrival.{InOrder}
use mathlib.Core.Path.{subst₂, subst}
use awesome_sftp_cli.Base.{
  String, ◌≡◌, refl, sym, ap, ◌∙◌, inl, inr, Bool, true, false, ◌&&◌, ◌||◌, Option, none, some,
  List, [], ◌∷◌, arith, ◌==◌, if◌then◌else◌, Bool-cases, length, Result, ok, err, Result-cases,
  string_eq,
}
use awesome_sftp_cli.Transfer.Scheduler.Policy.{
  BandwidthRequest, SchedulerError, SchedulerPolicy, normalize_scheduler_policy, validate_request,
}
use awesome_sftp_cli.Transfer.Scheduler.Buckets.{
  TransferScheduler, BandwidthWaiter, now, consume_request, refill_all, can_grant, request_wait,
}
use awesome_sftp_cli.Transfer.Scheduler.Waits.{
  enter_idle, enter_wait, grant_now, grant_selected, sleep_round, update_policy, wait_round,
  cancel_wait, Entry, granted, is_stranded, retune, is_empty, strands, join_queue, advance_to,
  add_granted,
}
use awesome_sftp_cli.Transfer.Scheduler.Turns.{Selects, IsChosen, later-Selects, selected-Selects}
use awesome_sftp_cli.Transfer.Scheduler.Queues.{
  broadcast, is_waiter, rebuild_cycle, is_class_head, release_job, selected, dequeue_selected,
  advance,
}
use awesome_sftp_cli.Transfer.Scheduler.Running.{
  IsRunning, remove-IsRunning, kept-IsRunning, broadcast-IsRunning, cycle_for, cycle_nonempty,
  advance_to-IsRunning, join_queue-IsRunning, add_granted-IsRunning, dequeue_selected-IsRunning,
  advance-IsRunning,
}
use awesome_sftp_cli.Transfer.Scheduler.Keeping.{
  consume_request-Keeps, Keeps-trans, request_wait-Keeps, can_grant-Keeps,
}
use awesome_sftp_cli.Transfer.Scheduler.Limits.{IsNormalPolicy, normalize_bounds}
use awesome_sftp_cli.Transfer.Scheduler.Stranding.{validated_fits}
use awesome_sftp_cli.Transfer.Scheduler.Serving.{refill_all-Keeps}

pub data Event : Type 0 where
  enters : BandwidthRequest → Bool → Event
  rounds : BandwidthWaiter → Bool → Event
  cancels : BandwidthWaiter → Event
  updates : SchedulerPolicy → Event
  releases : String → Event

abbrev pub after_enter :
    TransferScheduler → Result SchedulerError (TransferScheduler × Entry) → TransferScheduler
after_enter s (ok (s', entry)) = s'
after_enter s (err problem) = s

abbrev pub after_update :
    TransferScheduler → Result SchedulerError TransferScheduler → TransferScheduler
after_update s (ok s') = s'
after_update s (err problem) = s

unfoldable pub step : TransferScheduler → Event → TransferScheduler
step s (enters request cancel) = after_enter s (enter_wait s request cancel)
step s (rounds waiter cancel) = (wait_round s waiter cancel).0
step s (cancels waiter) = (cancel_wait s waiter).0
step s (updates policy) = after_update s (update_policy s policy)
step s (releases job_id) = release_job s job_id

unfoldable pub run : TransferScheduler → List Event → TransferScheduler
run s [] = s
run s (e ∷ es) = run (step s e) es

grant_now-IsRunning :
    (s : TransferScheduler) (request : BandwidthRequest)
    → IsRunning s
    → IsRunning (grant_now s request)
unfolding grant_now
grant_now-IsRunning s request r =
    let charged = consume_request s request in
    let fuel = length charged.cycle in
    let start = kept-IsRunning s charged (consume_request-Keeps s request) r in
    let turned = advance_to fuel charged request.class in
    let there = advance_to-IsRunning fuel charged request.class start in
    add_granted-IsRunning (advance turned) request.bytes (advance-IsRunning turned there)

enter_idle-IsRunning :
    (s : TransferScheduler) (request : BandwidthRequest)
    → IsRunning s
    → is_stranded s.policy request ≡ false
    → IsRunning (enter_idle s request).0
unfolding enter_idle now
enter_idle-IsRunning s request r fits =
    let full = refill_all (now s).0 (now s).1 in
    let t = (can_grant full request).0 in
    let k = Keeps-trans s full t (refill_all-Keeps s (now s).1) (can_grant-Keeps full request) in
    let there = kept-IsRunning s t k r in
    elim (Bool-cases (can_grant full request).1) [
      | inl possible ↦ rw possible (grant_now-IsRunning t request there)
      | inr short ↦ rw short (
          join_queue-IsRunning t request there
            (subst (λ p. is_stranded p request ≡ false) (sym k.policy) fits))
    ]

entered-IsRunning :
    (s : TransferScheduler) (request : BandwidthRequest)
    → IsRunning s
    → validate_request s.policy request ≡ ok tt
    → IsRunning
        (if is_empty s.interactive && is_empty s.bulk
          then enter_idle s request
          else join_queue s request).0
entered-IsRunning s request r valid =
    let fits = validated_fits s.policy request r.policy valid in
    elim (Bool-cases (is_empty s.interactive && is_empty s.bulk)) [
      | inl idle ↦ rw idle (enter_idle-IsRunning s request r fits)
      | inr busy ↦ rw busy (join_queue-IsRunning s request r fits)
    ]

pub enter_wait-IsRunning :
    (s : TransferScheduler) (request : BandwidthRequest) (cancel : Bool)
    → IsRunning s
    → IsRunning (after_enter s (enter_wait s request cancel))
unfolding enter_wait
enter_wait-IsRunning s request true r = r
enter_wait-IsRunning s request false r = elim (Result-cases (validate_request s.policy request)) [
  | inl (tt, valid) ↦ rw valid (entered-IsRunning s request r valid)
  | inr (problem, refused) ↦ rw refused r
]

chosen-IsRunning :
    (s t : TransferScheduler) (first : BandwidthWaiter)
    → IsRunning s
    → IsChosen s t first
    → IsRunning t
chosen-IsRunning s t first r c = record {
  policy = subst IsNormalPolicy (sym c.policy) r.policy;
  cycle = c.cycle ∙ r.cycle ∙ ap cycle_for (sym c.policy);
  in_range = ground (arith, c.cycle, c.in_range);
  interactive = ground (arith, c.policy, c.interactive, r.interactive);
  bulk = ground (arith, c.policy, c.bulk, r.bulk);
  interactive_order = subst₂ InOrder (sym c.made) (sym c.interactive) r.interactive_order;
  bulk_order = subst₂ InOrder (sym c.made) (sym c.bulk) r.bulk_order;
}

grant_selected-IsRunning :
    (s : TransferScheduler) (request : BandwidthRequest)
    → IsRunning s
    → IsRunning (grant_selected s request)
unfolding grant_selected
grant_selected-IsRunning s request r =
    let t = consume_request s request in
    let there = kept-IsRunning s t (consume_request-Keeps s request) r in
    broadcast-IsRunning (add_granted (dequeue_selected t) request.bytes) (
      add_granted-IsRunning (dequeue_selected t) request.bytes (dequeue_selected-IsRunning t there))

sleep_round-IsRunning :
    (s : TransferScheduler) (chosen : Option BandwidthWaiter) (waiter : BandwidthWaiter)
    → IsRunning s
    → IsRunning (sleep_round s chosen waiter).0
unfolding sleep_round
sleep_round-IsRunning s none waiter r = elim (Bool-cases (is_class_head s waiter)) [
  | inl first ↦
      rw first
        (kept-IsRunning s (request_wait s waiter.request).0 (request_wait-Keeps s waiter.request) r)
  | inr behind ↦ rw behind r
]
sleep_round-IsRunning s (some other) waiter r = r

after_selection :
    (s t : TransferScheduler) (chosen : Option BandwidthWaiter) (waiter : BandwidthWaiter)
    → IsRunning s
    → Selects s (t, chosen)
    → IsRunning
        (if is_waiter waiter chosen
          then (grant_selected t waiter.request, granted)
          else sleep_round t chosen waiter).0
unfolding Selects is_waiter
after_selection s t none waiter r k = sleep_round-IsRunning t none waiter (kept-IsRunning s t k r)
after_selection s t (some first) waiter r c =
    let there = chosen-IsRunning s t first r c in
    elim (Bool-cases (first.id == waiter.id)) [
      | inl same ↦ rw same (grant_selected-IsRunning t waiter.request there)
      | inr other ↦ rw other (sleep_round-IsRunning t (some first) waiter there)
    ]

pub wait_round-IsRunning :
    (s : TransferScheduler) (waiter : BandwidthWaiter) (cancel : Bool)
    → IsRunning s
    → IsRunning (wait_round s waiter cancel).0
unfolding wait_round now
wait_round-IsRunning s waiter true r = remove-IsRunning s waiter r
wait_round-IsRunning s waiter false r =
    let full = refill_all (now s).0 (now s).1 in
    let o = selected full in
    after_selection s o.0 o.1 waiter r
      (later-Selects s full o (refill_all-Keeps s (now s).1) (selected-Selects full))

-- The state after a change to the normal policy `p`.
abbrev changed : TransferScheduler → SchedulerPolicy → TransferScheduler
changed s p = broadcast (rebuild_cycle (retune (refill_all (now s).0 (now s).1) p (now s).1))

changed-IsRunning :
    (s : TransferScheduler) (p : SchedulerPolicy)
    → IsRunning s
    → IsNormalPolicy p
    → strands p s.interactive ≡ false
    → strands p s.bulk ≡ false
    → IsRunning (changed s p)
unfolding broadcast rebuild_cycle retune refill_all now
changed-IsRunning s p r n first second = record {
  policy = n;
  cycle = refl;
  in_range = ground (arith, cycle_nonempty p n);
  interactive = first;
  bulk = second;
  interactive_order = r.interactive_order;
  bulk_order = r.bulk_order;
}

pub update_policy-IsRunning :
    (s : TransferScheduler) (policy : SchedulerPolicy)
    → IsRunning s
    → IsRunning (after_update s (update_policy s policy))
unfolding update_policy now
update_policy-IsRunning s policy r = elim (Result-cases (normalize_scheduler_policy policy)) [
  | inr (problem, refused) ↦ rw refused r
  | inl (p, normal) ↦ elim (Bool-cases (strands p s.interactive || strands p s.bulk)) [
    | inl stranded ↦ rw (normal, stranded) r
    | inr free ↦
        rw (normal, free)
          (changed-IsRunning s p r (normalize_bounds policy p normal) (ground arith) (ground arith))
  ]
]

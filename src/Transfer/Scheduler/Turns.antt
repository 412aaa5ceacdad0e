-- ===== src/Transfer/Scheduler/Turns.antt =====
-- internal/transfer/scheduler.go: whose turn it is. The waiter that selectedLocked chooses is the
-- head of its class, and the one that dequeueSelectedLocked takes out.
use awesome_sftp_cli.Base.{
  ℕ, zero, suc, ◌+◌, ◌-◌, ◌%◌, ◌≤◌, ◌<◌, ◌≡◌, sym, ap, ◌∙◌, inl, inr, true, false, Option, none,
  some, arith, Bool-cases, Option-cases, length, string_eq,
}
use awesome_sftp_cli.Transfer.Scheduler.Buckets.{TransferScheduler, BandwidthWaiter, can_grant}
use awesome_sftp_cli.Transfer.Scheduler.Queues.{queue, select_from, selected, head_of, class_at}
use awesome_sftp_cli.Transfer.Scheduler.Policy.{ScheduleClass}
use awesome_sftp_cli.Transfer.Scheduler.Keeping.{Keeps-refl, Keeps, Keeps-trans, can_grant-Keeps}
use mathlib.Core.Path.{subst}
use native.Mathlib.Nat.{mod-lt}

pub record IsChosen (s s' : TransferScheduler) (waiter : BandwidthWaiter) : Type 0 where
  pub interactive : s'.interactive ≡ s.interactive
  pub bulk : s'.bulk ≡ s.bulk
  pub cycle : s'.cycle ≡ s.cycle
  pub policy : s'.policy ≡ s.policy
  pub made : s'.made ≡ s.made
  pub head : head_of (queue s (class_at s.cycle s'.cycle_index)) ≡ some waiter
  pub in_range : s'.cycle_index < length s.cycle

unfoldable pub Selects : TransferScheduler → TransferScheduler × Option BandwidthWaiter → Type 0
Selects s (s', none) = Keeps s s'
Selects s (s', some waiter) = IsChosen s s' waiter

queue-cong :
    (s t : TransferScheduler) (class : ScheduleClass) → Keeps s t → queue t class ≡ queue s class
unfolding queue
queue-cong s t class k = ground (arith, k.interactive, k.bulk)

pub later-Selects :
    (s t : TransferScheduler) (o : TransferScheduler × Option BandwidthWaiter)
    → Keeps s t
    → Selects t o
    → Selects s o
unfolding Selects
later-Selects s t (u, none) k h = Keeps-trans s t u k h
later-Selects s t (u, some waiter) k h = record {
  interactive = h.interactive ∙ k.interactive;
  bulk = h.bulk ∙ k.bulk;
  cycle = h.cycle ∙ k.cycle;
  policy = h.policy ∙ k.policy;
  made = h.made ∙ k.made;
  head =
      subst (λ c. head_of (queue s (class_at c u.cycle_index)) ≡ some waiter) k.cycle
        (sym (ap head_of (queue-cong s t (class_at t.cycle u.cycle_index) k)) ∙ h.head);
  in_range = subst (λ c. u.cycle_index < length c) k.cycle h.in_range;
}

-- The class and the index of the attempt that stands `left` attempts before the end.
abbrev attempt : TransferScheduler → ℕ → ℕ
attempt s left = (s.cycle_index + (length s.cycle - suc left)) % length s.cycle

abbrev candidate : TransferScheduler → ℕ → Option BandwidthWaiter
candidate s left = head_of (queue s (class_at s.cycle (attempt s left)))

attempt_empty :
    (s : TransferScheduler) (left : ℕ)
    → candidate s left ≡ none
    → select_from s (suc left) ≡ select_from s left
unfolding select_from
attempt_empty s left h = ground arith

attempt_granted :
    (s : TransferScheduler) (left : ℕ) (w : BandwidthWaiter)
    → candidate s left ≡ some w
    → (can_grant s w.request).1 ≡ true
    → select_from s (suc left)
      ≡ (record (can_grant s w.request).0 { cycle_index = attempt s left }, some w)
unfolding select_from
attempt_granted s left w h g = ground arith

attempt_short :
    (s : TransferScheduler) (left : ℕ) (w : BandwidthWaiter)
    → candidate s left ≡ some w
    → (can_grant s w.request).1 ≡ false
    → select_from s (suc left) ≡ select_from (can_grant s w.request).0 left
unfolding select_from
attempt_short s left w h g = ground arith

select_from-Selects :
    (s : TransferScheduler) (left : ℕ) → left ≤ length s.cycle → Selects s (select_from s left)
unfolding Selects select_from
select_from-Selects s zero h = Keeps-refl s
select_from-Selects s (suc left) h = elim (Option-cases (candidate s left)) [
  | inl empty ↦
      subst (Selects s) (sym (attempt_empty s left empty))
        (select_from-Selects s left (omega arith))
  | inr (waiter, head) ↦
      let t = (can_grant s waiter.request).0 in
      let k = can_grant-Keeps s waiter.request in
      let rest =
        select_from-Selects t left (subst (λ c. left ≤ length c) (sym k.cycle) (omega arith)) in
      elim (Bool-cases (can_grant s waiter.request).1) [
        | inl possible ↦
            subst (Selects s) (sym (attempt_granted s left waiter head possible)) (record {
              interactive = k.interactive;
              bulk = k.bulk;
              cycle = k.cycle;
              policy = k.policy;
              made = k.made;
              head = head;
              in_range = mod-lt (s.cycle_index + (length s.cycle - suc left)) (omega arith);
            })
        | inr short ↦
            subst (Selects s) (sym (attempt_short s left waiter head short))
              (later-Selects s t (select_from t left) k rest)
      ]
]

pub selected-Selects : (s : TransferScheduler) → Selects s (selected s)
unfolding selected
selected-Selects s = select_from-Selects s (length s.cycle) (omega arith)

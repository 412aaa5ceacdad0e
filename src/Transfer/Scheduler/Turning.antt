-- ===== src/Transfer/Scheduler/Turning.antt =====
-- internal/transfer/scheduler.go: the turn of the cycle to a class, in Wait's attempt at once, ends.
use native.Mathlib.Nat.{mod-eq_of_lt, mod_self}
use awesome_sftp_cli.Base.{
  ℕ, zero, suc, ◌+◌, ◌-◌, ◌%◌, ◌≤◌, ◌<◌, ◌≡◌, refl, sym, ap, ◌∙◌, ◌⊎◌, inl, inr, true, false, List,
  ◌++◌, arith, ltb, leb, ltb→lt, Bool-cases, length, replicate, length-append, length-replicate,
  string_eq,
}
use awesome_sftp_cli.Transfer.Scheduler.Waits.{advance_to}
use awesome_sftp_cli.Transfer.Scheduler.Queues.{class_at, advance, same_class}
use awesome_sftp_cli.Transfer.Scheduler.Policy.{
  ScheduleClass, is_unsupported, schedule_interactive, schedule_bulk, unsupported,
}
use awesome_sftp_cli.Transfer.Scheduler.Buckets.{TransferScheduler}
use mathlib.Core.Path.{subst}
use awesome_sftp_cli.Transfer.Scheduler.Running.{IsRunning}

-- `d` turns from index i of a cycle of n, with one wrap at most, lead to the index j.
abbrev Leads : ℕ → ℕ → ℕ → ℕ → Type 0
Leads n i d j = (i + d ≡ j) ⊎ (i + d ≡ n + j)

next_index :
    (n i : ℕ) → i < n → ((i + 1 < n) × ((i + 1) % n ≡ i + 1)) ⊎ ((i + 1 ≡ n) × ((i + 1) % n ≡ 0))
next_index n i h = elim (Bool-cases (ltb (i + 1) n)) [
  | inl before ↦ inl (ltb→lt (i + 1) n before, mod-eq_of_lt (ltb→lt (i + 1) n before))
  | inr last ↦ let e : i + 1 ≡ n = ground arith in inr (e, ap (λ k. k % n) e ∙ mod_self n)
]

next-Leads :
    (n i d j : ℕ)
    → j < n
    → i < n
    → Leads n i (suc d) j
    → Leads n ((i + 1) % n) d j × ((i + 1) % n < n)
next-Leads n i d j h b l = ground (arith, next_index n i b)

advance_to_reaches :
    (fuel d j : ℕ) (s : TransferScheduler) (class : ScheduleClass)
    → d ≤ fuel
    → j < length s.cycle
    → s.cycle_index < length s.cycle
    → Leads (length s.cycle) s.cycle_index d j
    → same_class (class_at s.cycle j) class ≡ true
    → same_class (class_at s.cycle (advance_to fuel s class).cycle_index) class ≡ true
unfolding advance_to advance
advance_to_reaches zero d j s class b h i l c = let e : s.cycle_index ≡ j = omega arith in rw e c
advance_to_reaches (suc fuel) zero j s class b h i l c =
    let e : s.cycle_index ≡ j = omega arith in
    let here = subst (λ k. same_class (class_at s.cycle k) class ≡ true) (sym e) c in rw here here
advance_to_reaches (suc fuel) (suc d) j s class b h i l c =
    let (led, range) = next-Leads (length s.cycle) s.cycle_index d j h i l in
    let later = advance_to_reaches fuel d j (advance s) class (omega arith) h range led c in
    elim (Bool-cases (same_class (class_at s.cycle s.cycle_index) class)) [
      | inl here ↦ rw here here
      | inr further ↦ rw further later
    ]

first-Leads : (n i j : ℕ) → j < n → i < n → (d : ℕ) × (d ≤ n) × Leads n i d j
first-Leads n i j h b = elim (Bool-cases (leb i j)) [
  | inl before ↦ (j - i, ground arith, inl (ground arith))
  | inr after ↦ (n + j - i, ground arith, inr (ground arith))
]

class_at-replicate :
    (a b : ℕ) (first second : ScheduleClass)
    → class_at (replicate a first ++ replicate (suc b) second) a ≡ second
unfolding class_at
class_at-replicate zero b first second = refl
class_at-replicate (suc a) b first second = class_at-replicate a b first second

-- A class that the cycle names.
abbrev Names : List ScheduleClass → ScheduleClass → Type 0
Names cycle class = (j : ℕ) × (j < length cycle) × (same_class (class_at cycle j) class ≡ true)

weights-Names :
    (a b : ℕ) (class : ScheduleClass)
    → 1 ≤ a
    → 1 ≤ b
    → is_unsupported class ≡ false
    → Names (replicate a schedule_interactive ++ replicate b schedule_bulk) class
unfolding is_unsupported same_class class_at
weights-Names zero b class h k u = absurd (omega arith)
weights-Names (suc a) zero class h k u = absurd (omega arith)
weights-Names (suc a) (suc b) schedule_interactive h k u = (0, omega arith, refl)
weights-Names (suc a) (suc b) schedule_bulk h k u = (
  suc a,
  omega (
    arith,
    length-append (replicate a schedule_interactive) (replicate (suc b) schedule_bulk),
    length-replicate a schedule_interactive,
  ),
  rw (class_at-replicate a b schedule_interactive schedule_bulk) refl,
)
weights-Names (suc a) (suc b) (unsupported name) h k u = cc

-- In a state that the scheduler's calls keep, and for a class that validateRequest accepts, the
-- loop of Wait that turns the cycle finds the class: a whole cycle of turns is enough.
pub advance_to_lem :
    (s : TransferScheduler) (class : ScheduleClass)
    → IsRunning s
    → is_unsupported class ≡ false
    → same_class (class_at s.cycle (advance_to (length s.cycle) s class).cycle_index) class ≡ true
advance_to_lem s class r u =
    let n = length s.cycle in
    let p = s.policy in
    let named =
      weights-Names p.interactive_weight p.bulk_weight class r.policy.some_interactive
        r.policy.some_bulk u in
    let (j, h, c) = subst (λ cycle. Names cycle class) (sym r.cycle) named in
    let (d, b, l) = first-Leads n s.cycle_index j h r.in_range in
    advance_to_reaches n d j s class b h r.in_range l c

-- ===== src/Cache/Trying.antt =====
-- internal/cache/quota.go: one round of the plan, over its sorted candidates.
use awesome_sftp_cli.Base.{
  ◌<◌, ◌≡◌, refl, sym, ◌⊎◌, inl, inr, Bool, true, false, List, [], ◌∷◌, arith, leb, Bool-cases, All,
  ok, Result-cases, ok-injective, string_eq,
}
use awesome_sftp_cli.Cache.Protections.{ProtectionIndex, EvictionCandidate, EvictionTarget}
use awesome_sftp_cli.Cache.Accounting.{Limits, Usage, account_validated, improves_violation}
use awesome_sftp_cli.Cache.Evictions.{
  PlanState, try_candidates, counted, apply_candidate, select_candidate,
}
use awesome_sftp_cli.Cache.Records.{Snapshot}
use mathlib.Core.Path.{subst}

abbrev pub trial_of :
    ProtectionIndex → PlanState → EvictionCandidate → Snapshot × List EvictionTarget
trial_of p s candidate = apply_candidate s.working candidate.target p

-- Applying the candidate is accounted for, and improves on no violation.
abbrev pub NoGain : Limits → ProtectionIndex → Snapshot → Usage → EvictionCandidate → Type 0
NoGain limits p working after candidate =
    (usage : Usage) × (account_validated (apply_candidate working candidate.target p).0 ≡ ok usage)
    × (improves_violation after usage limits ≡ false)

-- What a round comes to: it selects a candidate, or it stops at the limit of candidates, or none
-- of the candidates is a gain.
abbrev pub Outcome :
    Limits → ProtectionIndex → List EvictionCandidate → PlanState → PlanState × Bool → Type 0
Outcome limits p candidates s (s', true) = s.considered < s'.considered
Outcome limits p candidates s (s', false) =
    (s'.working ≡ s.working)
    × (s'.after ≡ s.after)
    × ((leb limits.max_candidates s'.considered ≡ true)
        ⊎ All (NoGain limits p s.working s.after) candidates)

module _ (limits : Limits) (p : ProtectionIndex) where
  -- A round that returns, by its first candidate.
  pub data Tried (c : EvictionCandidate) (rest : List EvictionCandidate) (s : PlanState)
      (r : PlanState × Bool) : Type 0 where
    stops : leb limits.max_candidates s.considered ≡ true → r ≡ (s, false) → Tried c rest s r
    passes_over :
        NoGain limits p s.working s.after c
        → try_candidates limits p rest (counted s) ≡ ok r
        → Tried c rest s r
    selects :
        (usage : Usage)
        → account_validated (trial_of p s c).0 ≡ ok usage
        → r ≡ (select_candidate (counted s) (trial_of p s c).0 usage (trial_of p s c).1, true)
        → Tried c rest s r

  pub tried :
      (c : EvictionCandidate) (rest : List EvictionCandidate) (s : PlanState) (r : PlanState × Bool)
      → try_candidates limits p (c ∷ rest) s ≡ ok r
      → Tried c rest s r
  unfolding try_candidates
  tried c rest s r h = elim (Bool-cases (leb limits.max_candidates s.considered)) [
    | inl full ↦ stops full (sym (ok-injective (rw full at h)))
    | inr more ↦ elim (Result-cases (account_validated (trial_of p s c).0)) [
      | inr (problem, failed) ↦ absurd (ground arith)
      | inl (usage, accounted) ↦ elim (Bool-cases (improves_violation s.after usage limits)) [
        | inl gain ↦ selects usage accounted (sym (ok-injective (rw (more, accounted, gain) at h)))
        | inr no_gain ↦ passes_over (usage, accounted, no_gain) (rw (more, accounted, no_gain) at h)
      ]
    ]
  ]

  -- Counting a candidate that is no gain leaves the outcome of the rest the outcome of the round.
  passed-Outcome :
      (c : EvictionCandidate) (cs : List EvictionCandidate) (s : PlanState) (r : PlanState × Bool)
      → NoGain limits p s.working s.after c
      → Outcome limits p cs (counted s) r
      → Outcome limits p (c ∷ cs) s r
  unfolding counted
  passed-Outcome c cs s (s', true) g o = omega arith
  passed-Outcome c cs s (s', false) g (w, a, inl full) = (w, a, inl full)
  passed-Outcome c cs s (s', false) g (w, a, inr rest) = (w, a, inr (g, rest))

  pub try-Outcome :
      (cs : List EvictionCandidate) (s : PlanState) (r : PlanState × Bool)
      → try_candidates limits p cs s ≡ ok r
      → Outcome limits p cs s r
  unfolding try_candidates counted select_candidate
  try-Outcome [] s r h = subst (Outcome limits p [] s) (ok-injective h) (refl, refl, inr tt)
  try-Outcome (c ∷ cs) s r h = elim (tried c cs s r h) [
    | stops full e ↦ subst (Outcome limits p (c ∷ cs) s) (sym e) (refl, refl, inl full)
    | passes_over g next ↦ passed-Outcome c cs s r g (try-Outcome cs (counted s) r next)
    | selects usage accounted e ↦ subst (Outcome limits p (c ∷ cs) s) (sym e) (omega arith)
  ]

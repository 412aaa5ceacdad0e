-- ===== src/Cache/Returns.antt =====
-- internal/cache/quota.go: a plan for a catalog whose bytes an int64 holds is always returned.
use awesome_sftp_cli.Base.{
  ℕ, zero, suc, ◌≤◌, ◌≡◌, refl, sym, inl, inr, Bool, true, false, ◌||◌, Option, List, [], ◌∷◌, leb,
  Bool-cases, ok, string_eq,
}
use awesome_sftp_cli.Cache.Planning.{Follows, counted-Follows, inspected-Follows}
use awesome_sftp_cli.Cache.Rounds.{round-Follows}
use awesome_sftp_cli.Cache.Totals.{total_bytes, account-total, total_bytes-evict}
use awesome_sftp_cli.Cache.Accounting.{
  Limits, max_int64, Usage, improves_violation, account_validated, within_limits,
}
use awesome_sftp_cli.Cache.Leases.{LeaseManager}
use awesome_sftp_cli.Cache.Records.{Snapshot}
use awesome_sftp_cli.Cache.Protections.{ProtectionIndex, EvictionCandidate, inspect_protections}
use awesome_sftp_cli.Cache.Evictions.{
  plan_loop, try_candidates, PlanState, counted, inspected, round_candidates, is_none_left,
  select_candidate,
}
use awesome_sftp_cli.Cache.Trying.{trial_of}
use awesome_sftp_cli.Cache.Removing.{evict, apply_candidate-evict}
use mathlib.Core.Path.{subst}
use native.Mathlib.Nat.{le_trans}

module _ (limits : Limits) (manager : Option LeaseManager) (s : Snapshot)
    (h : total_bytes s ≤ max_int64) where
  trial-accounted :
      (p : ProtectionIndex) (st : PlanState) (c : EvictionCandidate)
      → Follows manager s st
      → (usage : Usage) × (account_validated (trial_of p st c).0 ≡ ok usage)
  trial-accounted p st c f =
      let trial = trial_of p st c in
      let whole : st.working ≡ evict s st.targets = f.working in
      let less : total_bytes (evict st.working trial.1) ≤ total_bytes st.working =
        total_bytes-evict st.working trial.1 in
      let first : total_bytes st.working ≤ total_bytes s =
        subst (λ t. total_bytes t ≤ total_bytes s) (sym whole) (total_bytes-evict s st.targets) in
      let bound : total_bytes trial.0 ≤ max_int64 =
        subst (λ t. total_bytes t ≤ max_int64) (sym (apply_candidate-evict st.working c.target p))
          (le_trans less (le_trans first h)) in
      let (usage, e, g) = account-total trial.0 bound in (usage, e)

  try-returns :
      (p : ProtectionIndex) (cs : List EvictionCandidate) (st : PlanState)
      → Follows manager s st
      → (r : PlanState × Bool) × (try_candidates limits p cs st ≡ ok r)
  unfolding try_candidates counted
  try-returns p [] st f = (_, refl)
  try-returns p (c ∷ cs) st f =
      let (usage, accounted) = trial-accounted p st c f in
      let (r, rest) = try-returns p cs (counted st) (counted-Follows manager s st f) in
      elim (Bool-cases (leb limits.max_candidates st.considered)) [
        | inl full ↦ ((st, false), rw full refl)
        | inr more ↦ elim (Bool-cases (improves_violation st.after usage limits)) [
          | inl gain ↦ (
            (select_candidate (counted st) (trial_of p st c).0 usage (trial_of p st c).1, true),
            rw (more, accounted, gain) refl,
          )
          | inr no_gain ↦ (r, rw (more, accounted, no_gain) rest)
        ]
      ]

  pub loop-returns :
      (fuel : ℕ) (st : PlanState)
      → Follows manager s st
      → (last : PlanState) × (plan_loop limits manager fuel st ≡ ok last)
  unfolding plan_loop inspected
  loop-returns zero st f = (st, refl)
  loop-returns (suc fuel) st f =
      let p = inspect_protections manager st.reads st.working in
      let candidates = round_candidates limits manager st in
      elim (Bool-cases (within_limits st.after limits || leb limits.max_candidates st.considered)) [
        | inl stop ↦ (st, rw stop refl)
        | inr more ↦ elim (Bool-cases (is_none_left candidates)) [
          | inl empty ↦ (inspected st, rw (more, empty) refl)
          | inr left ↦
              let ((st', selected), tried) =
                try-returns p candidates (inspected st) (inspected-Follows manager s st f) in
              let (last, rest) =
                loop-returns fuel st' (round-Follows limits manager s st (st', selected) f tried) in
              elim (Bool-cases selected) [
                | inl again ↦ (last, rw (more, left, tried, again) rest)
                | inr stop ↦ (st', rw (more, left, tried, stop) refl)
              ]
        ]
      ]

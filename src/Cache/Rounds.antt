-- ===== src/Cache/Rounds.antt =====
-- internal/cache/quota.go: the rounds of a plan, and why they end.
use awesome_sftp_cli.Base.{
  ℕ, zero, suc, ◌+◌, ◌≤◌, ◌≡◌, refl, sym, ap, ◌∙◌, ◌⊎◌, inl, inr, Bool, true, false, ◌||◌, Option,
  List, [], ◌∷◌, arith, leb, leb→le, Bool-cases, All, ok, Result-cases, ok-injective, string_eq,
}
use mathlib.Core.Path.{subst₂, subst}
use awesome_sftp_cli.Cache.Planning.{Follows, inspected-Follows, try-Follows}
use awesome_sftp_cli.Cache.Accounting.{Limits, within_limits, within_byte_limits}
use awesome_sftp_cli.Cache.Leases.{LeaseManager}
use awesome_sftp_cli.Cache.Evictions.{
  PlanState, is_none_left, plan_loop, round_candidates, inspected, try_candidates,
}
use awesome_sftp_cli.Cache.Protections.{
  EvictionCandidate, inspect_protections, enumerate_candidates,
}
use awesome_sftp_cli.Cache.Candidates.{Sound, sort-All, enumerate-Sound}
use awesome_sftp_cli.Cache.Trying.{NoGain, try-Outcome}
use awesome_sftp_cli.Cache.Records.{Snapshot}

-- Within the limits, or as many candidates as the limit considered, or a reading of the clock at
-- which no candidate is a gain.
abbrev pub Ends : Limits → Option LeaseManager → PlanState → Type 0
Ends limits manager st =
    (within_limits st.after limits ≡ true)
    ⊎ (limits.max_candidates ≤ st.considered)
    ⊎ ((reads : ℕ) × All
          (NoGain limits (inspect_protections manager reads st.working) st.working st.after)
          (round_candidates limits manager (record st { reads = reads })))

module _ (limits : Limits) (manager : Option LeaseManager) where
  -- A loop that has fuel and returns.
  data Looped (fuel : ℕ) (st last : PlanState) : Type 0 where
    ends :
        last ≡ st
        → within_limits st.after limits || leb limits.max_candidates st.considered ≡ true
        → Looped fuel st last
    finds_none : last ≡ inspected st → round_candidates limits manager st ≡ [] → Looped fuel st last
    goes_on :
        (st' : PlanState)
        → try_candidates limits
            (inspect_protections manager st.reads st.working)
            (round_candidates limits manager st)
            (inspected st)
          ≡ ok (st', true)
        → plan_loop limits manager fuel st' ≡ ok last
        → Looped fuel st last
    selects_none :
        try_candidates limits
            (inspect_protections manager st.reads st.working)
            (round_candidates limits manager st)
            (inspected st)
          ≡ ok (last, false)
        → Looped fuel st last

  none_left-eq : (cs : List EvictionCandidate) → is_none_left cs ≡ true → cs ≡ []
  unfolding is_none_left
  none_left-eq [] h = refl
  none_left-eq (c ∷ cs) h = absurd (ground arith)

  looped :
      (fuel : ℕ) (st last : PlanState)
      → plan_loop limits manager (suc fuel) st ≡ ok last
      → Looped fuel st last
  unfolding plan_loop
  looped fuel st last h =
      let p = inspect_protections manager st.reads st.working in
      let candidates = round_candidates limits manager st in
      elim (Bool-cases (within_limits st.after limits || leb limits.max_candidates st.considered)) [
        | inl stop ↦ ends (sym (ok-injective (rw stop at h))) stop
        | inr more ↦ elim (Bool-cases (is_none_left candidates)) [
          | inl empty ↦
              finds_none (sym (ok-injective (rw (more, empty) at h)))
                (none_left-eq candidates empty)
          | inr left ↦ elim (Result-cases (try_candidates limits p candidates (inspected st))) [
            | inl ((st', true), tried) ↦ goes_on st' tried (rw (more, left, tried) at h)
            | inl ((st', false), tried) ↦
                selects_none
                  (tried ∙ ap (λ x. ok (x, false)) (ok-injective (rw (more, left, tried) at h)))
            | inr (problem, failed) ↦ absurd (ground arith)
          ]
        ]
      ]

  round-Sound :
      (st : PlanState)
      → All
          (Sound
            (inspect_protections manager st.reads st.working)
            st.working
            (within_byte_limits st.after limits))
          (round_candidates limits manager st)
  unfolding round_candidates
  round-Sound st =
      let p = inspect_protections manager st.reads st.working in
      let allow_shared = within_byte_limits st.after limits in
      sort-All (Sound p st.working allow_shared) (enumerate_candidates st.working p allow_shared)
        (enumerate-Sound st.working p allow_shared)

  pub round-Follows :
      (s : Snapshot) (st : PlanState) (r : PlanState × Bool)
      → Follows manager s st
      → try_candidates limits
          (inspect_protections manager st.reads st.working)
          (round_candidates limits manager st)
          (inspected st)
        ≡ ok r
      → Follows manager s r.0
  unfolding inspected
  round-Follows s st r f tried =
      try-Follows limits manager st.reads (within_byte_limits st.after limits) s
        (round_candidates limits manager st) (inspected st) r (inspected-Follows manager s st f)
        (round-Sound st) tried

  pub loop-Follows :
      (s : Snapshot) (fuel : ℕ) (st last : PlanState)
      → Follows manager s st
      → plan_loop limits manager fuel st ≡ ok last
      → Follows manager s last
  unfolding plan_loop inspected
  loop-Follows s zero st last f h = subst (Follows manager s) (ok-injective h) f
  loop-Follows s (suc fuel) st last f h = elim (looped fuel st last h) [
    | ends e stop ↦ subst (Follows manager s) (sym e) f
    | finds_none e empty ↦ subst (Follows manager s) (sym e) (inspected-Follows manager s st f)
    | goes_on st' tried rest ↦
        loop-Follows s fuel st' last (round-Follows s st (st', true) f tried) rest
    | selects_none tried ↦ round-Follows s st (last, false) f tried
  ]

  -- The same catalog and usage have the same candidates, none of them a gain.
  same-Ends :
      (st st' : PlanState)
      → st'.working ≡ st.working
      → st'.after ≡ st.after
      → All
          (NoGain limits (inspect_protections manager st.reads st.working) st.working st.after)
          (round_candidates limits manager st)
      → Ends limits manager st'
  unfolding round_candidates
  same-Ends st st' w a h = inr (
      inr (
        st.reads,
        subst₂
            (λ t u.
              All (NoGain limits (inspect_protections manager st.reads t) t u)
                (round_candidates limits manager (record st { working = t; after = u })))
            (sym w) (sym a) h,
      ))

  stop-Ends :
      (st : PlanState)
      → within_limits st.after limits || leb limits.max_candidates st.considered ≡ true
      → Ends limits manager st
  stop-Ends st h = elim (Bool-cases (within_limits st.after limits)) [
    | inl within ↦ inl within
    | inr beyond ↦ inr (inl (leb→le _ _ (rw beyond at h)))
  ]

  pub loop-Ends :
      (fuel : ℕ) (st last : PlanState)
      → limits.max_candidates ≤ st.considered + fuel
      → plan_loop limits manager fuel st ≡ ok last
      → Ends limits manager last
  unfolding plan_loop inspected
  loop-Ends zero st last b h =
      inr (inl (subst (λ x. limits.max_candidates ≤ x.considered) (ok-injective h) (omega arith)))
  loop-Ends (suc fuel) st last b h = elim (looped fuel st last h) [
    | ends e stop ↦ subst (Ends limits manager) (sym e) (stop-Ends st stop)
    | finds_none e empty ↦
        subst (Ends limits manager) (sym e)
          (same-Ends st (inspected st) refl refl (subst (All _) (sym empty) tt))
    | goes_on st' tried rest ↦
        let o =
          try-Outcome limits (inspect_protections manager st.reads st.working)
            (round_candidates limits manager st) (inspected st) (st', true) tried in
        loop-Ends fuel st' last (omega arith) rest
    | selects_none tried ↦
        let (w, a, why) =
          try-Outcome limits (inspect_protections manager st.reads st.working)
            (round_candidates limits manager st) (inspected st) (last, false) tried in
        elim why [ inl full ↦ inr (inl (leb→le _ _ full)) | inr rest ↦ same-Ends st last w a rest ]
  ]

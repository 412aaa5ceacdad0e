-- ===== src/Cache/Planned.antt =====
-- internal/cache/quota.go: what PlanEvictions returns.
use awesome_sftp_cli.Base.{
  ◌≤◌, ◌≡◌, refl, true, false, not, ◌&&◌, ◌||◌, Option, arith, All, ok, string_eq,
}
use awesome_sftp_cli.Cache.Rounds.{Ends, loop-Follows, loop-Ends}
use awesome_sftp_cli.Cache.Returns.{loop-returns}
use awesome_sftp_cli.Cache.Planning.{Follows, start-Follows}
use awesome_sftp_cli.Cache.Totals.{total_bytes, account-total}
use awesome_sftp_cli.Cache.Records.{Snapshot}
use awesome_sftp_cli.Cache.Plans.{
  EvictionPlan, is_empty_leases, is_absent, plan_evictions, plan_of, start_plan,
}
use awesome_sftp_cli.Cache.Accounting.{
  Limits, max_int64, valid_limits, Usage, account, account_validated, within_limits,
}
use awesome_sftp_cli.Cache.Evictions.{PlanState, round_candidates}
use awesome_sftp_cli.Cache.Leases.{LeaseManager}
use awesome_sftp_cli.Cache.Removing.{evict}
use awesome_sftp_cli.Cache.Validation.{valid_snapshot}
use awesome_sftp_cli.Cache.Integrity.{valid-IsIntact, IsIntact}
use awesome_sftp_cli.Cache.Safety.{MayEvict}
use mathlib.Core.Path.{subst}

-- The catalog that a plan leaves, where the plan ended.
abbrev pub end_of : Snapshot → EvictionPlan → PlanState
end_of s plan = record {
  working = evict s plan.targets;
  after = plan.after;
  targets = plan.targets;
  considered = plan.considered;
  reads = 0;
}

module _ (s : Snapshot) (limits : Limits) (manager : Option LeaseManager)
    (valid : valid_snapshot s ≡ true) (bounded : total_bytes s ≤ max_int64)
    (within : valid_limits limits ≡ true)
    (managed : is_empty_leases s.leases || not (is_absent manager) ≡ true) where
  plan-Ends :
      (before : Usage) × (last : PlanState) × (account_validated s ≡ ok before)
      × (plan_evictions s limits manager ≡ ok (plan_of limits manager before last))
      × Follows manager s last
      × Ends limits manager last
  unfolding plan_evictions
  plan-Ends =
      let (before, accounted, g) = account-total s bounded in
      let start = start_plan s before in
      let f = start-Follows manager s before accounted (valid-IsIntact s valid) in
      let (last, looped) = loop-returns limits manager s bounded limits.max_candidates start f in
      let unmanaged : not (is_empty_leases s.leases) && is_absent manager ≡ false = ground arith in
      (
        before,
        last,
        accounted,
        rw (valid, within, unmanaged, accounted, looped) refl,
        loop-Follows limits manager s limits.max_candidates start last f looped,
        loop-Ends limits manager limits.max_candidates start last (omega arith) looped,
      )

  -- A valid catalog whose sizes add up to at most an int64, with valid limits and a manager if it
  -- has leases, has a plan. The plan's usages are what the catalog and the catalog without the
  -- plan's targets come to, it is satisfied just when the latter is within the limits, each target
  -- may be evicted from the catalog, and of what is left each entry still has its blob, each
  -- materialization its entry and its baseline blob, and each reference its target.
  pub plan_evictions-IsSafe :
      (plan : EvictionPlan) × (plan_evictions s limits manager ≡ ok plan)
      × (account s ≡ ok plan.before)
      × (account_validated (evict s plan.targets) ≡ ok plan.after)
      × (plan.satisfied ≡ within_limits plan.after limits)
      × All (MayEvict manager s) plan.targets
      × IsIntact (evict s plan.targets)
  unfolding plan_of account
  plan_evictions-IsSafe =
      let (before, last, accounted, e, f, ends) = plan-Ends in
      (
        plan_of limits manager before last,
        e,
        rw valid accounted,
        subst (λ t. account_validated t ≡ ok last.after) f.working f.accounted,
        refl,
        f.allowed,
        subst IsIntact f.working f.intact,
      )

  -- For a valid catalog whose sizes add up to at most an int64, with valid limits and a manager
  -- if it has leases, there is a plan, and it is within the limits, or it considered as many candidates as the
  -- limits allow, or there is a reading of the clock at which no candidate of the catalog that the
  -- plan leaves lowers a quantity that is over its limit.
  pub plan_evictions-Ends :
      (plan : EvictionPlan) × (plan_evictions s limits manager ≡ ok plan)
      × Ends limits manager (end_of s plan)
  unfolding plan_of round_candidates
  plan_evictions-Ends =
      let (before, last, accounted, e, f, ends) = plan-Ends in
      (
        plan_of limits manager before last,
        e,
        subst (λ t. Ends limits manager (record last { working = t })) f.working ends,
      )

-- ===== src/Transfer/Resources/Accounts.antt =====
-- resource_ledger.go: the ledger against the leases that are out.
use text.Mathlib.Text.{◌==◌ as str_beq}
use text.Mathlib.TextEquality.{eq_iff}
use native.Mathlib.Nat.{mod-eq_of_lt}
use awesome_sftp_cli.Base.{
  ℕ, ◌+◌, ◌%◌, ◌^◌, ◌≤◌, ◌<◌, String, ◌≡◌, refl, sym, ap, ◌∙◌, inl, inr, true, List, [], ◌∷◌, ◌++◌,
  arith, if◌then◌else◌, ok, Result-cases, string_eq,
}
use awesome_sftp_cli.Transfer.Usage.{
  Field, ResourceUsage, ResourceLimits, get, limit, modulus, zero_usage, add_usage, active_jobs,
  connections, hard_resource_ceilings, is_unset, tighten_resource_limits,
}
use awesome_sftp_cli.Transfer.Resources.{
  ResourceRequest, ResourceLedger, usage_at, contains, endpoint_usage, check_endpoints, can_acquire,
  acquire_locked, new_resource_ledger,
}
use awesome_sftp_cli.Transfer.Resources.Columns.{
  Fits, IsTight, usage_fits_iff, exceeds-false, tighten_iff, limit-lt-modulus, get-add_usage,
  get-zero_usage,
}
use awesome_sftp_cli.Transfer.Resources.Charges.{
  Distinct, usage_at-charge, usage_at-update, get_added,
}
use awesome_sftp_cli.Base.Map.{lookup}

pub mod_zero : (f : Field) → 0 % modulus f ≡ 0
mod_zero active_jobs = refl
mod_zero _ = refl

-- A normalized request, with amounts of their machine types.
pub record IsNormal (r : ResourceRequest) : Type 0 where
  pub distinct : Distinct r.endpoint_ids
  pub in_range : (f : Field) → get f r.usage < modulus f
  pub each_in_range : (f : Field) (e : String) → get f (endpoint_usage r e) < modulus f

-- What a lease holds of a column: in all, for a Job, and at an endpoint.
abbrev pub held_by : Field → String → ResourceRequest → ℕ
held_by f j r = if str_beq r.job_id j then get f r.usage else 0

abbrev pub held_at : Field → String → ResourceRequest → ℕ
held_at f e r = if contains r.endpoint_ids e then get f (endpoint_usage r e) else 0

abbrev pub sum_of : (ResourceRequest → ℕ) → List ResourceRequest → ℕ
sum_of h [] = 0
sum_of h (r ∷ rs) = h r + sum_of h rs

pub sum_of-middle :
    (h : ResourceRequest → ℕ) (xs : List ResourceRequest) (r : ResourceRequest)
    (ys : List ResourceRequest)
    → sum_of h (xs ++ r ∷ ys) ≡ h r + sum_of h (xs ++ ys)
sum_of-middle h [] r ys = refl
sum_of-middle h (x ∷ xs) r ys = omega (arith, sum_of-middle h xs r ys)

-- The ledger's books agree with the leases that are out. The totals keep their ceilings, and at each
-- endpoint the active Jobs and the connections keep theirs; the ceiling on the number of endpoints is
-- not part of it. The books of a Job or an endpoint are kept in wrapping numbers.
pub record Accounts (ledger : ResourceLedger) (out : List ResourceRequest) : Type 0 where
  pub tight : IsTight ledger.limits
  pub total : (f : Field) → get f ledger.total ≡ sum_of (λ r. get f r.usage) out
  pub fits : (f : Field) → sum_of (λ r. get f r.usage) out ≤ limit f ledger.limits
  pub jobs :
      (f : Field) (j : String)
      → get f (usage_at j ledger.per_job) ≡ sum_of (held_by f j) out % modulus f
  pub endpoints :
      (f : Field) (e : String)
      → get f (usage_at e ledger.per_endpoint) ≡ sum_of (held_at f e) out % modulus f
  pub jobs_each :
      (e : String) → sum_of (held_at active_jobs e) out ≤ ledger.limits.active_jobs_per_endpoint
  pub connections_each :
      (e : String) → sum_of (held_at connections e) out ≤ ledger.limits.connections_per_endpoint

pub IsTight-new :
    (l : ResourceLimits) (ledger : ResourceLedger)
    → new_resource_ledger l ≡ ok ledger
    → IsTight ledger.limits
      × (ledger.total ≡ zero_usage)
      × (ledger.per_endpoint ≡ [])
      × (ledger.per_job ≡ [])
      × (ledger.waiters ≡ 0)
unfolding new_resource_ledger
IsTight-new l ledger h =
    let limits = if is_unset l then hard_resource_ceilings else l in
    elim (Result-cases (tighten_resource_limits limits)) [
      | inl (v, e) ↦ (
        ground (arith, (tighten_iff limits v).0 e),
        ground arith,
        ground arith,
        ground arith,
        ground arith,
      )
      | inr (x, e) ↦ absurd (ground arith)
    ]

-- A new ledger has no lease out.
pub new-Accounts :
    (l : ResourceLimits) (ledger : ResourceLedger)
    → new_resource_ledger l ≡ ok ledger
    → Accounts ledger []
unfolding usage_at lookup
new-Accounts l ledger h =
    let (t, total, ends, jobs, _) = IsTight-new l ledger h in
    record {
      tight = t;
      total = λ f. ap (get f) total ∙ get-zero_usage f;
      fits = λ f. omega arith;
      jobs = λ f j. ap (λ m. get f (usage_at j m)) jobs ∙ get-zero_usage f ∙ sym (mod_zero f);
      endpoints = λ f e. ap (λ m. get f (usage_at e m)) ends ∙ get-zero_usage f ∙ sym (mod_zero f);
      jobs_each = λ e. omega arith;
      connections_each = λ e. omega arith;
    }

-- The two checks of an endpoint leave room in its columns.
check_endpoints_room :
    (l : ResourceLimits) (current : String → ResourceUsage) (r : ResourceRequest) (es : List String)
    (e : String)
    → check_endpoints l current r es ≡ ok tt
    → contains es e ≡ true
    → ((current e).active_jobs + (endpoint_usage r e).active_jobs ≤ l.active_jobs_per_endpoint)
      × ((current e).connections + (endpoint_usage r e).connections ≤ l.connections_per_endpoint)
unfolding check_endpoints contains
check_endpoints_room l current r [] e h c = cc
check_endpoints_room l current r (x ∷ es) e h c = ground (
  arith,
  eq_iff x e,
  check_endpoints_room l current r es e,
  exceeds-false (current e).active_jobs (endpoint_usage r e).active_jobs l.active_jobs_per_endpoint,
  exceeds-false (current e).connections (endpoint_usage r e).connections l.connections_per_endpoint,
)

can_acquire_room :
    (ledger : ResourceLedger) (r : ResourceRequest)
    → can_acquire ledger r ≡ ok tt
    → Fits ledger.total r.usage ledger.limits
      × (check_endpoints ledger.limits (λ e. usage_at e ledger.per_endpoint) r r.endpoint_ids
          ≡ ok tt)
unfolding can_acquire
can_acquire_room ledger r h =
    ((usage_fits_iff ledger.total r.usage ledger.limits).0 (ground arith), ground arith)

unwrapped : (u s v l : ℕ) → u ≡ s % 2 ^ 32 → s ≤ l → l ≤ 8 → u + v ≤ l → v + s ≤ l
unwrapped u s v l e h small room = omega arith

module _ (ledger : ResourceLedger) (out : List ResourceRequest) (r : ResourceRequest)
    (a : Accounts ledger out) (h : can_acquire ledger r ≡ ok tt) where
  acquire_fits : (f : Field) → get f ledger.total + get f r.usage ≤ limit f ledger.limits
  acquire_fits = (can_acquire_room ledger r h).0

  acquire_total :
      (f : Field)
      → get f (add_usage ledger.total r.usage) ≡ get f r.usage + sum_of (λ r. get f r.usage) out
  acquire_total f = get-add_usage f ledger.total r.usage ∙ exact f
    where
      exact :
          (f : Field)
          → (get f ledger.total + get f r.usage) % modulus f
            ≡ get f r.usage + sum_of (λ r. get f r.usage) out
      exact f =
          mod-eq_of_lt (omega (arith, acquire_fits f, limit-lt-modulus f ledger.limits a.tight))
          ∙ omega (arith, a.total f)

  acquire_endpoint :
      (e : String)
      → contains r.endpoint_ids e ≡ true
      → (get active_jobs (endpoint_usage r e) + sum_of (held_at active_jobs e) out
          ≤ ledger.limits.active_jobs_per_endpoint)
        × (get connections (endpoint_usage r e) + sum_of (held_at connections e) out
            ≤ ledger.limits.connections_per_endpoint)
  unfolding hard_resource_ceilings
  acquire_endpoint e c =
      let room =
        check_endpoints_room ledger.limits (λ e. usage_at e ledger.per_endpoint) r r.endpoint_ids e
          (can_acquire_room ledger r h).1 c in
      (
        unwrapped _ _ _ ledger.limits.active_jobs_per_endpoint (a.endpoints active_jobs e)
            (a.jobs_each e) (omega (arith, a.tight.jobs_each)) room.0,
        unwrapped _ _ _ ledger.limits.connections_per_endpoint (a.endpoints connections e)
            (a.connections_each e) (omega (arith, a.tight.connections_each)) room.1,
      )

  pub acquire-Accounts : Distinct r.endpoint_ids → Accounts (acquire_locked ledger r) (r ∷ out)
  unfolding acquire_locked hard_resource_ceilings
  acquire-Accounts d = record {
    tight = a.tight;
    total = acquire_total;
    fits = λ f. omega (arith, acquire_fits f, a.total f);
    jobs = λ f j.
        ap (get f) (usage_at-update (λ u. add_usage u r.usage) r.job_id j ledger.per_job)
        ∙ get_added (str_beq r.job_id j) f (usage_at j ledger.per_job) r.usage
            (sum_of (held_by f j) out) (a.jobs f j);
    endpoints = λ f e.
        ap (get f) (usage_at-charge r r.endpoint_ids ledger.per_endpoint e d)
        ∙ get_added (contains r.endpoint_ids e) f (usage_at e ledger.per_endpoint)
            (endpoint_usage r e) (sum_of (held_at f e) out) (a.endpoints f e);
    jobs_each = λ e. ground (arith, acquire_endpoint e, a.jobs_each e);
    connections_each = λ e. ground (arith, acquire_endpoint e, a.connections_each e);
  }

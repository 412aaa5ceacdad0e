-- ===== src/Transfer/Resources/Progress.antt =====
-- resource_ledger.go: what a ledger is back to when every lease has been released.
use awesome_sftp_cli.Base.{
  String, ◌≡◌, refl, sym, ◌∙◌, inl, inr, Option, none, some, List, [], ◌∷◌, arith, if◌then◌else◌,
  Bool-cases, All, ok, refuse_if, ok-injective, >>=-eq-ok, string_eq,
}
use awesome_sftp_cli.Transfer.Usage.{
  ResourceLimits, zero_usage, ResourceUsage, is_zero, job_id_required,
}
use awesome_sftp_cli.Transfer.Resources.{
  ResourceLedger, ResourceRequest, new_resource_ledger, usage_at, normalize_usage, endpoint_usage,
  normalize_resource_request, str_beq, unique_endpoints,
}
use awesome_sftp_cli.Transfer.Resources.Sessions.{Event, EventIsTyped, outstanding, run}
use awesome_sftp_cli.Transfer.Resources.Returns.{Accounts-idle}
use mathlib.Core.Path.{subst}
use awesome_sftp_cli.Transfer.Resources.Accounts.{Accounts}
use awesome_sftp_cli.Transfer.Resources.Sessions.Releasing.{run-new-IsSound}
use awesome_sftp_cli.Base.Map.{lookup}

-- When every lease that was handed out has been released, however often and in whatever order,
-- nothing is in use: the totals and the amount of every Job and endpoint are zero.
pub idle_after_releases :
    (limits : ResourceLimits) (ledger : ResourceLedger) (es : List Event)
    → new_resource_ledger limits ≡ ok ledger
    → All EventIsTyped es
    → outstanding (run (record { ledger = ledger; leases = []; pending = [] }) es).leases ≡ []
    → let idle = (run (record { ledger = ledger; leases = []; pending = [] }) es).ledger in
      (idle.total ≡ zero_usage)
      × ((k : String)
          → (usage_at k idle.per_job ≡ zero_usage) × (usage_at k idle.per_endpoint ≡ zero_usage))
idle_after_releases limits ledger es h t none_out =
    Accounts-idle _ (subst (Accounts _) none_out (run-new-IsSound limits ledger es h t).accounts)

-- The request with the nil map of amounts.
abbrev pub without_usage_map : ResourceRequest → ResourceRequest
without_usage_map r = record r { endpoint_usage = none }

-- An empty map and the nil map take the same branch, and each keeps its map.
normalize_empty_usage :
    (r q : ResourceRequest) (es : List String) (o : Option (List (String × ResourceUsage)))
    → o ≡ some []
    → normalize_usage r es o ≡ ok q
    → (normalize_usage (without_usage_map r) es none ≡ ok (without_usage_map q))
      × (q.endpoint_usage ≡ r.endpoint_usage)
unfolding normalize_usage
normalize_empty_usage r q es none h n = absurd (ground arith)
normalize_empty_usage r q es (some []) h n = (ground arith, ground arith)
normalize_empty_usage r q es (some (x ∷ xs)) h n = absurd (ground arith)

-- With the nil map an endpoint is charged the request's amount for each endpoint, or its usage.
nil_usage_charged :
    (r q : ResourceRequest) (es : List String) (e : String)
    → r.endpoint_usage ≡ none
    → normalize_usage r es none ≡ ok q
    → endpoint_usage q e ≡ (if is_zero r.per_endpoint_usage then r.usage else r.per_endpoint_usage)
unfolding normalize_usage endpoint_usage
nil_usage_charged r q es e nil h =
    rw (sym (ok-injective h), nil)
      (elim (Bool-cases (is_zero r.per_endpoint_usage)) [
        | inl unset ↦ ground (arith, unset)
        | inr set ↦ ground (arith, set)
      ])

-- An empty map of amounts passes for the nil map while the request is normalized: the same request
-- with the nil map normalizes too, to the same request with the nil map. But an endpoint is then
-- charged nothing at all, where the nil map charges it the amount for each endpoint, or the whole
-- usage when there is none.
pub empty_usage_uncharged :
    (r q : ResourceRequest) (e : String)
    → r.endpoint_usage ≡ some []
    → normalize_resource_request r ≡ ok q
    → (normalize_resource_request (without_usage_map r) ≡ ok (without_usage_map q))
      × (endpoint_usage q e ≡ zero_usage)
      × (endpoint_usage (without_usage_map q) e
          ≡ (if is_zero r.per_endpoint_usage then r.usage else r.per_endpoint_usage))
unfolding normalize_resource_request endpoint_usage usage_at lookup
empty_usage_uncharged r q e h n =
    let (_, job, n') = >>=-eq-ok (refuse_if (str_beq r.job_id "") job_id_required) _ n in
    let (es, unique, n'') = >>=-eq-ok (unique_endpoints [] r.endpoint_ids) _ n' in
    let kept = normalize_empty_usage r q es r.endpoint_usage h n'' in
    (
      rw (job, unique) kept.0,
      rw (kept.1 ∙ h, endpoint_usage),
      nil_usage_charged (without_usage_map r) (without_usage_map q) es e refl kept.0,
    )

-- ===== src/Transfer/Resources.antt =====
-- internal/transfer/resource_ledger.go: which Jobs hold which resources, and who waits for some.
-- The receivers are never nil. `wake` counts the channels that broadcasts have replaced, so that a
-- waiter that holds an older count has been woken.
pub mod Columns
pub mod Charges
pub mod Accounts
pub mod Returns
pub mod Requests
pub mod Sessions
pub mod Progress
pub mod Endpoints
mod Tests
use awesome_sftp_cli.Base.{
  ℕ, ◌+◌, ◌-◌, ◌%◌, ◌^◌, String, Bool, true, false, not, ◌&&◌, ◌||◌, Option, none, some, List, [],
  ◌∷◌, ◌++◌, ltb, ◌==◌, if◌then◌else◌, length, Result, ok, err, ◌>>=◌, ◌>>◌, refuse_if, string_eq,
}
use awesome_sftp_cli.Base.Map.{lookup, insert, delete}
use text.Mathlib.Text.{◌==◌ as str_beq}
use awesome_sftp_cli.Transfer.Usage.{
  ResourceUsage, ResourceLimits, Error, job_id_required, endpoint_id_empty, mixed_usage,
  unknown_endpoint, endpoints_exhausted, endpoint_jobs_exhausted, endpoint_connections_exhausted,
  canceled, zero_usage, add_usage, subtract_usage, is_zero, exceeds, usage_fits,
  hard_resource_ceilings, tighten_resource_limits, is_unset,
}

-- `endpoint_usage` is `none` for the nil map.
pub record ResourceRequest : Type 0 where
  pub job_id : String
  pub endpoint_ids : List String
  pub usage : ResourceUsage
  pub per_endpoint_usage : ResourceUsage
  pub endpoint_usage : Option (List (String × ResourceUsage))

pub record ResourceLedger : Type 0 where
  pub limits : ResourceLimits
  pub total : ResourceUsage
  pub per_endpoint : List (String × ResourceUsage)
  pub per_job : List (String × ResourceUsage)
  pub waiters : ℕ
  pub wake : ℕ

pub record ResourceLease : Type 0 where
  pub request : ResourceRequest
  pub released : Bool

pub record ResourceSnapshot : Type 0 where
  pub limits : ResourceLimits
  pub total : ResourceUsage
  pub per_endpoint : List (String × ResourceUsage)
  pub per_job : List (String × ResourceUsage)
  pub waiters : ℕ

-- Go's `m[k]`: a missing key reads as the zero amount.
abbrev pub or_zero : Option ResourceUsage → ResourceUsage
or_zero none = zero_usage
or_zero (some u) = u

unfoldable pub usage_at : String → List (String × ResourceUsage) → ResourceUsage
usage_at k m = or_zero (lookup k m)

abbrev pub is_present {ℓ} : {A : Type ℓ} → Option A → Bool
is_present none = false
is_present (some a) = true

unfoldable pub new_resource_ledger : ResourceLimits → Result Error ResourceLedger
new_resource_ledger limits = do
  validated ← tighten_resource_limits (if is_unset limits then hard_resource_ceilings else limits)
  ok (record {
    limits = validated;
    total = zero_usage;
    per_endpoint = [];
    per_job = [];
    waiters = 0;
    wake = 0;
  })

unfoldable pub contains : List String → String → Bool
contains [] k = false
contains (j ∷ js) k = str_beq j k || contains js k

-- The loop over EndpointIDs: `endpoints` holds what was seen, in order.
unfoldable pub unique_endpoints : List String → List String → Result Error (List String)
unique_endpoints endpoints [] = ok endpoints
unique_endpoints endpoints (e ∷ es) =
    let rest =
      unique_endpoints (if contains endpoints e then endpoints else endpoints ++ e ∷ []) es in
    if str_beq e "" then err endpoint_id_empty else rest

-- The loop over EndpointUsage, which copies it entry by entry.
unfoldable pub clone_usage :
    List String
    → List (String × ResourceUsage)
    → List (String × ResourceUsage)
    → Result Error (List (String × ResourceUsage))
clone_usage seen cloned [] = ok cloned
clone_usage seen cloned ((e, u) ∷ rest) =
    let later = clone_usage seen (insert e u cloned) rest in
    if contains seen e then later else err (unknown_endpoint e)

normalize_usage :
    ResourceRequest
    → List String
    → Option (List (String × ResourceUsage))
    → Result Error ResourceRequest
normalize_usage r endpoints (some (entry ∷ entries)) = do
  refuse_if (not (is_zero r.per_endpoint_usage)) mixed_usage
  cloned ← clone_usage endpoints [] (entry ∷ entries)
  ok (record r { endpoint_ids = endpoints; endpoint_usage = some cloned })
normalize_usage r endpoints _ = ok (record r {
  endpoint_ids = endpoints;
  per_endpoint_usage =
      if not (length endpoints == 0) && is_zero r.per_endpoint_usage
      then r.usage
      else r.per_endpoint_usage;
})

unfoldable pub normalize_resource_request : ResourceRequest → Result Error ResourceRequest
unfolding normalize_usage
normalize_resource_request r = do
  refuse_if (str_beq r.job_id "") job_id_required
  endpoints ← unique_endpoints [] r.endpoint_ids
  normalize_usage r endpoints r.endpoint_usage

unfoldable pub endpoint_usage : ResourceRequest → String → ResourceUsage
endpoint_usage r e = elim r.endpoint_usage [
  | some m ↦ usage_at e m
  | none ↦ if is_zero r.per_endpoint_usage then r.usage else r.per_endpoint_usage
]

unfoldable pub new_endpoint_count : ResourceLedger → List String → ℕ
new_endpoint_count ledger [] = 0
new_endpoint_count ledger (e ∷ es) =
    let rest = new_endpoint_count ledger es in
    if is_present (lookup e ledger.per_endpoint) then rest else (rest + 1) % 2 ^ 32

-- The loops over the request's endpoints, against what each of them has in use.
unfoldable pub check_endpoints :
    ResourceLimits
    → (String → ResourceUsage)
    → ResourceRequest
    → List String
    → Result Error (Unit {0})
check_endpoints limits current r [] = ok tt
check_endpoints limits current r (e ∷ es) = do
  refuse_if
      (exceeds (current e).active_jobs (endpoint_usage r e).active_jobs
        limits.active_jobs_per_endpoint)
      (endpoint_jobs_exhausted e)
  refuse_if
      (exceeds (current e).connections (endpoint_usage r e).connections
        limits.connections_per_endpoint)
      (endpoint_connections_exhausted e)
  check_endpoints limits current r es

unfoldable pub can_acquire : ResourceLedger → ResourceRequest → Result Error (Unit {0})
can_acquire ledger r = do
  refuse_if
      (ltb ledger.limits.endpoints
        ((length ledger.per_endpoint % 2 ^ 32 + new_endpoint_count ledger r.endpoint_ids) % 2 ^ 32))
      endpoints_exhausted
  usage_fits ledger.total r.usage ledger.limits
  check_endpoints ledger.limits (λ e. usage_at e ledger.per_endpoint) r r.endpoint_ids

-- `perEndpoint.ActiveJobs > limit` in place of `exceeds32` on an endpoint that uses nothing.
unfoldable pub check_endpoints_ever :
    ResourceLimits → ResourceRequest → List String → Result Error (Unit {0})
check_endpoints_ever limits r [] = ok tt
check_endpoints_ever limits r (e ∷ es) = do
  refuse_if (ltb limits.active_jobs_per_endpoint (endpoint_usage r e).active_jobs)
      (endpoint_jobs_exhausted e)
  refuse_if (ltb limits.connections_per_endpoint (endpoint_usage r e).connections)
      (endpoint_connections_exhausted e)
  check_endpoints_ever limits r es

unfoldable pub can_ever_acquire : ResourceLedger → ResourceRequest → Result Error (Unit {0})
can_ever_acquire ledger r = do
  refuse_if (ltb ledger.limits.endpoints (length r.endpoint_ids % 2 ^ 32)) endpoints_exhausted
  usage_fits zero_usage r.usage ledger.limits
  check_endpoints_ever ledger.limits r r.endpoint_ids

unfoldable pub charge :
    ResourceRequest → List String → List (String × ResourceUsage) → List (String × ResourceUsage)
charge r [] m = m
charge r (e ∷ es) m = charge r es (insert e (add_usage (usage_at e m) (endpoint_usage r e)) m)

unfoldable pub acquire_locked : ResourceLedger → ResourceRequest → ResourceLedger
acquire_locked ledger r = record ledger {
  total = add_usage ledger.total r.usage;
  per_job = insert r.job_id (add_usage (usage_at r.job_id ledger.per_job) r.usage) ledger.per_job;
  per_endpoint = charge r r.endpoint_ids ledger.per_endpoint;
}

-- A remaining amount of zero deletes the key.
unfoldable pub settle :
    String → ResourceUsage → List (String × ResourceUsage) → List (String × ResourceUsage)
settle k remaining m = if is_zero remaining then delete k m else insert k remaining m

unfoldable pub refund :
    ResourceRequest → List String → List (String × ResourceUsage) → List (String × ResourceUsage)
refund r [] m = m
refund r (e ∷ es) m = refund r es (settle e (subtract_usage (usage_at e m) (endpoint_usage r e)) m)

unfoldable pub release : ResourceLedger → ResourceRequest → ResourceLedger
release ledger r = record ledger {
  total = subtract_usage ledger.total r.usage;
  per_job =
      settle r.job_id (subtract_usage (usage_at r.job_id ledger.per_job) r.usage) ledger.per_job;
  per_endpoint = refund r r.endpoint_ids ledger.per_endpoint;
  wake = ledger.wake + 1;
}

-- `Release` on a lease: sync.Once lets the first call through.
unfoldable pub release_lease : ResourceLedger → ResourceLease → ResourceLedger × ResourceLease
release_lease ledger lease =
    if lease.released
    then (ledger, lease)
    else (release ledger lease.request, record lease { released = true })

unfoldable pub try_acquire :
    ResourceLedger → ResourceRequest → Result Error (ResourceLedger × ResourceLease)
try_acquire ledger r = do
  request ← normalize_resource_request r
  can_acquire ledger request
  ok (acquire_locked ledger request, record { request = request; released = false })

-- `Acquire` up to its loop: the caller now counts as a waiter, with the normalized request.
unfoldable pub enter_acquire :
    ResourceLedger → ResourceRequest → Result Error (ResourceLedger × ResourceRequest)
enter_acquire ledger r = do
  request ← normalize_resource_request r
  can_ever_acquire ledger request
  ok (record ledger { waiters = ledger.waiters + 1 }, request)

-- One round of the loop of `Acquire` under the lock: the context's error ends it, and so does a
-- grant; otherwise the caller waits on the channel that it saw.
pub data Round : Type 0 where
  returned : Result Error ResourceLease → Round
  waits_on : ℕ → Round

abbrev stop_waiting : ResourceLedger → ResourceLedger
stop_waiting ledger = record ledger { waiters = ledger.waiters - 1 }

unfoldable pub acquire_round : ResourceLedger → ResourceRequest → Bool → ResourceLedger × Round
acquire_round ledger request done =
    if done
    then (stop_waiting ledger, returned (err canceled))
    else elim (can_acquire ledger request) [
      | ok _ ↦ (
        stop_waiting (acquire_locked ledger request),
        returned (ok (record { request = request; released = false })),
      )
      | err _ ↦ (ledger, waits_on ledger.wake)
    ]

-- The waiting caller's context ends first.
unfoldable pub abandon_acquire : ResourceLedger → ResourceLedger
abandon_acquire ledger = stop_waiting ledger

unfoldable pub resource_snapshot : ResourceLedger → ResourceSnapshot
resource_snapshot ledger = record {
  limits = ledger.limits;
  total = ledger.total;
  per_endpoint = ledger.per_endpoint;
  per_job = ledger.per_job;
  waiters = ledger.waiters;
}

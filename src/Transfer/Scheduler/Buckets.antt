-- ===== src/Transfer/Scheduler/Buckets.antt =====
-- internal/transfer/scheduler.go: the scheduler's state, and the buckets that a request draws from.
-- `clock n` is the n-th reading of the clock. A waiter stands for Go's pointer, told apart by `id`;
-- `wake` counts the channels that broadcastLocked has made.
use awesome_sftp_cli.Base.{
  ℕ, ◌+◌, max, String, Bool, true, false, not, none, some, List, [], ◌∷◌, ◌++◌, ◌==◌, if◌then◌else◌,
  string_eq,
}
use awesome_sftp_cli.Transfer.Scheduler.Policy.{
  BandwidthRequest, SchedulerPolicy, unique_endpoint_ids, ScheduleClass, default_to,
}
use awesome_sftp_cli.Transfer.Bucket.{
  IntegerTokenBucket, available, bucket_capacity, consume, refill, wait_duration,
  initial_bucket_tokens, new_integer_token_bucket,
}
use awesome_sftp_cli.Transfer.Resources.{ResourceLedger}
use awesome_sftp_cli.Base.Map.{insert, lookup}
use awesome_sftp_cli.Base.Members.{value_or, contains}

pub record BandwidthWaiter : Type 0 where
  pub id : ℕ
  pub request : BandwidthRequest

pub record TransferScheduler : Type 0 where
  pub clock : ℕ → ℕ
  pub reads : ℕ
  pub policy : SchedulerPolicy
  pub global : IntegerTokenBucket
  pub endpoints : List (String × IntegerTokenBucket)
  pub jobs : List (String × IntegerTokenBucket)
  pub job_rates : List (String × ℕ)
  pub job_endpoints : List (String × List String)
  pub resources : ResourceLedger
  pub interactive : List BandwidthWaiter
  pub bulk : List BandwidthWaiter
  pub cycle : List ScheduleClass
  pub cycle_index : ℕ
  pub wake : ℕ
  pub granted_bytes : ℕ
  pub made : ℕ

unfoldable pub now : TransferScheduler → TransferScheduler × ℕ
now s = (record s { reads = s.reads + 1 }, s.clock s.reads)

-- A bucket that a request makes on first use.
unfoldable pub fresh_bucket : SchedulerPolicy → ℕ → ℕ → IntegerTokenBucket
unfolding bucket_capacity initial_bucket_tokens new_integer_token_bucket
fresh_bucket policy rate time =
    let capacity = bucket_capacity rate policy.burst_bytes in
    new_integer_token_bucket rate capacity (initial_bucket_tokens rate capacity) time

unfoldable pub endpoint_bucket : TransferScheduler → String → TransferScheduler × IntegerTokenBucket
unfolding fresh_bucket now
endpoint_bucket s endpoint_id = elim (lookup endpoint_id s.endpoints) [
  | some bucket ↦ (s, bucket)
  | none ↦
      let (s', time) = now s in
      let bucket = fresh_bucket s.policy s.policy.endpoint_bytes_per_second time in
      (record s' { endpoints = insert endpoint_id bucket s.endpoints }, bucket)
]

unfoldable pub remember : List String → List String → List String
unfolding contains
remember known [] = known
remember known (endpoint_id ∷ rest) =
    remember (if contains endpoint_id known then known else known ++ (endpoint_id ∷ [])) rest

unfoldable pub remember_job_endpoints : TransferScheduler → BandwidthRequest → TransferScheduler
unfolding remember unique_endpoint_ids
remember_job_endpoints s request =
    let known = value_or [] (lookup request.job_id s.job_endpoints) in
    let endpoint_ids = remember known (unique_endpoint_ids request) in
    record s { job_endpoints = insert request.job_id endpoint_ids s.job_endpoints }

unfoldable pub job_bucket :
    TransferScheduler → BandwidthRequest → TransferScheduler × IntegerTokenBucket
unfolding fresh_bucket now remember_job_endpoints
job_bucket scheduler request =
    let s = remember_job_endpoints scheduler request in
    elim (lookup request.job_id s.jobs) [
      | some bucket ↦ (s, bucket)
      | none ↦
          let (s', time) = now s in
          let rate = default_to s.policy.job_bytes_per_second request.job_bytes_per_second in
          let bucket = fresh_bucket s.policy rate time in
          (
            record s' {
              jobs = insert request.job_id bucket s.jobs;
              job_rates = insert request.job_id request.job_bytes_per_second s.job_rates;
            },
            bucket,
          )
    ]

unfoldable pub endpoints_available : TransferScheduler → List String → ℕ → TransferScheduler × Bool
unfolding endpoint_bucket available
endpoints_available s [] bytes = (s, true)
endpoints_available s (endpoint_id ∷ rest) bytes =
    let (s', bucket) = endpoint_bucket s endpoint_id in
    let later = endpoints_available s' rest bytes in
    if not (available bucket bytes) then (s', false) else later

unfoldable pub can_grant : TransferScheduler → BandwidthRequest → TransferScheduler × Bool
unfolding available job_bucket endpoints_available unique_endpoint_ids
can_grant s request =
    let (s', bucket) = job_bucket s request in
    if not (available s.global request.bytes)
    then (s, false)
    else if not (available bucket request.bytes)
    then (s', false)
    else endpoints_available s' (unique_endpoint_ids request) request.bytes

unfoldable pub consume_endpoints : TransferScheduler → List String → ℕ → TransferScheduler
unfolding endpoint_bucket consume
consume_endpoints s [] bytes = s
consume_endpoints s (endpoint_id ∷ rest) bytes =
    let (s', bucket) = endpoint_bucket s endpoint_id in
    consume_endpoints
      (record s' { endpoints = insert endpoint_id (consume bucket bytes) s'.endpoints }) rest bytes

unfoldable pub consume_request : TransferScheduler → BandwidthRequest → TransferScheduler
unfolding consume consume_endpoints job_bucket unique_endpoint_ids
consume_request scheduler request =
    let charged = record scheduler { global = consume scheduler.global request.bytes } in
    let s = consume_endpoints charged (unique_endpoint_ids request) request.bytes in
    let (s', bucket) = job_bucket s request in
    record s' { jobs = insert request.job_id (consume bucket request.bytes) s'.jobs }

unfoldable pub endpoints_wait : TransferScheduler → List String → ℕ → ℕ → TransferScheduler × ℕ
unfolding endpoint_bucket wait_duration
endpoints_wait s [] bytes wait_for = (s, wait_for)
endpoints_wait s (endpoint_id ∷ rest) bytes wait_for =
    let (s', bucket) = endpoint_bucket s endpoint_id in
    endpoints_wait s' rest bytes (max wait_for (wait_duration bucket bytes))

unfoldable pub request_wait : TransferScheduler → BandwidthRequest → TransferScheduler × ℕ
unfolding endpoints_wait job_bucket wait_duration unique_endpoint_ids
request_wait scheduler request =
    let first = wait_duration scheduler.global request.bytes in
    let (s, endpoint) =
      endpoints_wait scheduler (unique_endpoint_ids request) request.bytes first in
    let (s', bucket) = job_bucket s request in
    let wait_for = max endpoint (wait_duration bucket request.bytes) in
    (s', if wait_for == 0 then 1 else wait_for)

unfoldable pub map_values {ℓ κ} :
    {A : Type ℓ} {B : Type κ} → (String → A → B) → List (String × A) → List (String × B)
map_values f [] = []
map_values f ((name, a) ∷ rest) = (name, f name a) ∷ map_values f rest

unfoldable pub refill_all : TransferScheduler → ℕ → TransferScheduler
unfolding refill map_values
refill_all s time = record s {
  global = refill s.global time;
  endpoints = map_values (λ name bucket. refill bucket time) s.endpoints;
  jobs = map_values (λ name bucket. refill bucket time) s.jobs;
}

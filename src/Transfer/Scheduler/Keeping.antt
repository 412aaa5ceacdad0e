-- ===== src/Transfer/Scheduler/Keeping.antt =====
-- internal/transfer/scheduler.go: what looking at the buckets and charging them leaves alone.
use awesome_sftp_cli.Base.{
  ℕ, max, String, ◌≡◌, refl, ◌∙◌, inl, inr, List, [], ◌∷◌, arith, Bool-cases, Option-cases,
  string_eq,
}
use awesome_sftp_cli.Transfer.Scheduler.Buckets.{
  TransferScheduler, can_grant, consume_endpoints, consume_request, endpoint_bucket,
  endpoints_available, endpoints_wait, job_bucket, request_wait, now, remember_job_endpoints,
}
use awesome_sftp_cli.Transfer.Bucket.{available, wait_duration, consume}
use awesome_sftp_cli.Transfer.Scheduler.Policy.{BandwidthRequest, unique_endpoint_ids}
use awesome_sftp_cli.Base.Map.{insert, lookup}

-- The queues, the cycle and the policy are the same.
pub record Keeps (s s' : TransferScheduler) : Type 0 where
  pub interactive : s'.interactive ≡ s.interactive
  pub bulk : s'.bulk ≡ s.bulk
  pub cycle : s'.cycle ≡ s.cycle
  pub cycle_index : s'.cycle_index ≡ s.cycle_index
  pub policy : s'.policy ≡ s.policy
  pub made : s'.made ≡ s.made

pub Keeps-refl : (s : TransferScheduler) → Keeps s s
Keeps-refl s = record {
  interactive = refl;
  bulk = refl;
  cycle = refl;
  cycle_index = refl;
  policy = refl;
  made = refl;
}

pub Keeps-trans : (s t u : TransferScheduler) → Keeps s t → Keeps t u → Keeps s u
Keeps-trans s t u a b = record {
  interactive = b.interactive ∙ a.interactive;
  bulk = b.bulk ∙ a.bulk;
  cycle = b.cycle ∙ a.cycle;
  cycle_index = b.cycle_index ∙ a.cycle_index;
  policy = b.policy ∙ a.policy;
  made = b.made ∙ a.made;
}

pub endpoint_bucket-Keeps :
    (s : TransferScheduler) (name : String) → Keeps s (endpoint_bucket s name).0
unfolding endpoint_bucket now
endpoint_bucket-Keeps s name = ground (arith, Option-cases (lookup name s.endpoints))

pub job_bucket-Keeps : (s : TransferScheduler) (r : BandwidthRequest) → Keeps s (job_bucket s r).0
unfolding job_bucket now remember_job_endpoints
job_bucket-Keeps s r = ground (arith, Option-cases (lookup r.job_id s.jobs))

pub endpoints_available-Keeps :
    (s : TransferScheduler) (names : List String) (bytes : ℕ)
    → Keeps s (endpoints_available s names bytes).0
unfolding endpoints_available
endpoints_available-Keeps s [] bytes = Keeps-refl s
endpoints_available-Keeps s (name ∷ rest) bytes =
    let first = endpoint_bucket-Keeps s name in
    let s' = (endpoint_bucket s name).0 in
    elim (Bool-cases (available (endpoint_bucket s name).1 bytes)) [
      | inl enough ↦ rw enough (Keeps-trans s s' _ first (endpoints_available-Keeps s' rest bytes))
      | inr short ↦ rw short first
    ]

pub can_grant-Keeps : (s : TransferScheduler) (r : BandwidthRequest) → Keeps s (can_grant s r).0
unfolding can_grant
can_grant-Keeps s r =
    let first = job_bucket-Keeps s r in
    let s' = (job_bucket s r).0 in
    elim (Bool-cases (available s.global r.bytes)) [
      | inr short ↦ rw short (Keeps-refl s)
      | inl enough ↦ elim (Bool-cases (available (job_bucket s r).1 r.bytes)) [
        | inr short ↦ rw (enough, short) first
        | inl fits ↦
            rw (enough, fits)
              (Keeps-trans s s' _ first
                (endpoints_available-Keeps s' (unique_endpoint_ids r) r.bytes))
      ]
    ]

pub consume_endpoints-Keeps :
    (s : TransferScheduler) (names : List String) (bytes : ℕ)
    → Keeps s (consume_endpoints s names bytes)
unfolding consume_endpoints
consume_endpoints-Keeps s [] bytes = Keeps-refl s
consume_endpoints-Keeps s (name ∷ rest) bytes =
    let (s', bucket) = endpoint_bucket s name in
    let t : TransferScheduler = record s' {
      endpoints = insert name (consume bucket bytes) s'.endpoints;
    } in
    let first = endpoint_bucket-Keeps s name in
    let charged : Keeps s t = record {
      interactive = first.interactive;
      bulk = first.bulk;
      cycle = first.cycle;
      cycle_index = first.cycle_index;
      policy = first.policy;
      made = first.made;
    } in
    Keeps-trans s t _ charged (consume_endpoints-Keeps t rest bytes)

pub consume_request-Keeps :
    (s : TransferScheduler) (r : BandwidthRequest) → Keeps s (consume_request s r)
unfolding consume_request
consume_request-Keeps s r =
    let t : TransferScheduler = record s { global = consume s.global r.bytes } in
    let u = consume_endpoints t (unique_endpoint_ids r) r.bytes in
    let first = consume_endpoints-Keeps t (unique_endpoint_ids r) r.bytes in
    let last = Keeps-trans t u _ first (job_bucket-Keeps u r) in
    record {
      interactive = last.interactive;
      bulk = last.bulk;
      cycle = last.cycle;
      cycle_index = last.cycle_index;
      policy = last.policy;
      made = last.made;
    }

pub endpoints_wait-Keeps :
    (s : TransferScheduler) (names : List String) (bytes wait_for : ℕ)
    → Keeps s (endpoints_wait s names bytes wait_for).0
unfolding endpoints_wait
endpoints_wait-Keeps s [] bytes wait_for = Keeps-refl s
endpoints_wait-Keeps s (name ∷ rest) bytes wait_for =
    let (s', bucket) = endpoint_bucket s name in
    Keeps-trans s s' _ (endpoint_bucket-Keeps s name)
      (endpoints_wait-Keeps s' rest bytes (max wait_for (wait_duration bucket bytes)))

pub request_wait-Keeps :
    (s : TransferScheduler) (r : BandwidthRequest) → Keeps s (request_wait s r).0
unfolding request_wait
request_wait-Keeps s r =
    let first = wait_duration s.global r.bytes in
    let t = (endpoints_wait s (unique_endpoint_ids r) r.bytes first).0 in
    Keeps-trans s t _ (endpoints_wait-Keeps s (unique_endpoint_ids r) r.bytes first)
      (job_bucket-Keeps t r)

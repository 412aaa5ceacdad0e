-- ===== src/Transfer/Scheduler/Policy.antt =====
-- internal/transfer/scheduler.go: the policy, its normal form, and the check of a request.
use awesome_sftp_cli.Base.{
  ℕ, ◌*◌, ◌^◌, String, Bool, true, false, not, ◌&&◌, ◌||◌, List, [], ◌∷◌, ◌++◌, ltb, ◌==◌,
  if◌then◌else◌, Result, ok, ◌>>◌, refuse_if, string_eq,
}

abbrev pub hard_recovery_buffer_bytes : ℕ
hard_recovery_buffer_bytes = 512 * 1024

abbrev pub transfer_schedule_quantum : ℕ
transfer_schedule_quantum = 256 * 1024

abbrev pub max_bandwidth_bytes_per_second : ℕ
max_bandwidth_bytes_per_second = 2 ^ 40

-- A Go string with two named values.
pub data ScheduleClass : Type 0 where
  schedule_interactive schedule_bulk : ScheduleClass
  unsupported : String → ScheduleClass

pub record SchedulerPolicy : Type 0 where
  pub global_bytes_per_second : ℕ
  pub endpoint_bytes_per_second : ℕ
  pub job_bytes_per_second : ℕ
  pub burst_bytes : ℕ
  pub quantum_bytes : ℕ
  pub interactive_weight : ℕ
  pub bulk_weight : ℕ

pub record BandwidthRequest : Type 0 where
  pub job_id : String
  pub endpoint_id : String
  pub peer_endpoint_id : String
  pub job_bytes_per_second : ℕ
  pub class : ScheduleClass
  pub bytes : ℕ

pub data SchedulerError : Type 0 where
  quantum_exceeds_ceiling burst_exceeds_ceiling burst_below_quantum : SchedulerError
  rate_exceeds_ceiling weights_exceed_ceiling : SchedulerError
  bytes_not_positive request_exceeds_quantum job_id_required : SchedulerError
  job_rate_exceeds_ceiling unsupported_class : SchedulerError
  update_strands_waiter context_canceled : SchedulerError
  resource_limit_expansion : SchedulerError

abbrev pub default_to : ℕ → ℕ → ℕ
default_to fallback n = if n == 0 then fallback else n

unfoldable pub normalize_scheduler_policy : SchedulerPolicy → Result SchedulerError SchedulerPolicy
normalize_scheduler_policy policy = do
  let quantum = default_to transfer_schedule_quantum policy.quantum_bytes
  refuse_if (ltb transfer_schedule_quantum quantum) quantum_exceeds_ceiling
  let burst = default_to quantum policy.burst_bytes
  refuse_if (ltb hard_recovery_buffer_bytes burst) burst_exceeds_ceiling
  refuse_if (ltb burst quantum) burst_below_quantum
  refuse_if
      (ltb max_bandwidth_bytes_per_second policy.global_bytes_per_second
        || ltb max_bandwidth_bytes_per_second policy.endpoint_bytes_per_second
        || ltb max_bandwidth_bytes_per_second policy.job_bytes_per_second)
      rate_exceeds_ceiling
  let interactive_weight = default_to 4 policy.interactive_weight
  let bulk_weight = default_to 1 policy.bulk_weight
  refuse_if (ltb 16 interactive_weight || ltb 16 bulk_weight) weights_exceed_ceiling
  ok (record policy {
    quantum_bytes = quantum;
    burst_bytes = burst;
    interactive_weight = interactive_weight;
    bulk_weight = bulk_weight;
  })

-- The class is neither of the named values.
unfoldable pub is_unsupported : ScheduleClass → Bool
is_unsupported schedule_interactive = false
is_unsupported schedule_bulk = false
is_unsupported (unsupported name) = true

unfoldable pub validate_request :
    SchedulerPolicy → BandwidthRequest → Result SchedulerError (Unit {0})
unfolding is_unsupported
validate_request policy request = do
  refuse_if (request.bytes == 0) bytes_not_positive
  refuse_if (ltb policy.quantum_bytes request.bytes) request_exceeds_quantum
  refuse_if (string_eq.equal request.job_id "") job_id_required
  refuse_if (ltb max_bandwidth_bytes_per_second request.job_bytes_per_second)
      job_rate_exceeds_ceiling
  refuse_if (is_unsupported request.class) unsupported_class
  ok tt

unfoldable pub unique_endpoint_ids : BandwidthRequest → List String
unique_endpoint_ids request =
    let first = request.endpoint_id in
    let peer = request.peer_endpoint_id in
    (if string_eq.equal first "" then [] else first ∷ [])
    ++ (if not (string_eq.equal peer "") && not (string_eq.equal peer first) then peer ∷ [] else [])

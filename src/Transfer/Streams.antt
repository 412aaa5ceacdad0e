-- ===== src/Transfer/Streams.antt =====
-- internal/transfer/stream_policy.go and stream_budget.go: the budgets of a streamed transfer, and
-- the resources that its execution asks of the ledger. Amounts are uint32, and memory uint64.
pub mod Budget
use awesome_sftp_cli.Base.{
  ℕ, ◌+◌, ◌-◌, ◌*◌, ◌/◌, ◌%◌, ◌^◌, min, max, Bool, true, not, ◌&&◌, ◌||◌, Option, none, some, ltb,
  leb, ◌==◌, if◌then◌else◌, string_eq,
}
use awesome_sftp_cli.Transfer.Completion.{Plan, StreamPolicy, no_durability}
use awesome_sftp_cli.Transfer.Usage.{ResourceUsage}

abbrev pub stream_packet_bytes : ℕ
stream_packet_bytes = 32 * 1024

abbrev pub max_read_ahead_bytes : ℕ
max_read_ahead_bytes = 2 * 1024 * 1024

abbrev pub max_sftp_write_window_requests : ℕ
max_sftp_write_window_requests = 64

abbrev pub directory_request_budget : ℕ
directory_request_budget = 128

abbrev pub default_stream_policy : StreamPolicy
default_stream_policy = record {
  checkpoint_bytes = 64 * 1024 * 1024;
  checkpoint_interval_ms = 1000;
  directory_workers = 2;
}

unfoldable pub valid_stream_policy : StreamPolicy → Bool
valid_stream_policy policy =
    if policy.checkpoint_bytes == 0
      && policy.checkpoint_interval_ms == 0
      && policy.directory_workers == 0
    then true
    else ltb 0 policy.checkpoint_bytes
      && leb policy.checkpoint_bytes (64 * 1024 * 1024)
      && leb 100 policy.checkpoint_interval_ms
      && leb policy.checkpoint_interval_ms 5000
      && leb 1 policy.directory_workers
      && leb policy.directory_workers 8

unfoldable pub stream_window_requests : Plan → Option ℕ → ℕ
stream_window_requests plan none = max_sftp_write_window_requests
stream_window_requests plan (some size) =
    if no_durability plan.durability || leb max_read_ahead_bytes size
    then max_sftp_write_window_requests
    else max 1 ((size + stream_packet_bytes - 1) / stream_packet_bytes)

unfoldable pub stream_buffer_bytes : Plan → ℕ
stream_buffer_bytes plan =
    if not (no_durability plan.durability)
    then min plan.buffer_bytes stream_packet_bytes
    else plan.buffer_bytes

abbrev pub ssh_legs : Plan → ℕ
ssh_legs plan =
    (if plan.source_endpoint.is_ssh then 1 else 0)
    + (if plan.destination_endpoint.is_ssh then 1 else 0)

unfoldable pub directory_request_cost : Plan → Option ℕ → ℕ
unfolding stream_window_requests
directory_request_cost plan size =
    if no_durability plan.durability
    then 0
    else max 1 (ssh_legs plan) * stream_window_requests plan size % 2 ^ 32

-- The number of different SSH endpoints.
unfoldable pub ssh_endpoints : Plan → ℕ
ssh_endpoints plan =
    let source = plan.source_endpoint in
    let destination = plan.destination_endpoint in
    if source.is_ssh && destination.is_ssh && string_eq.equal source.id destination.id
    then 1
    else ssh_legs plan

unfoldable pub directory_stream_workers : Plan → ℕ
directory_stream_workers plan =
    let workers = plan.stream_policy.directory_workers in
    if not (no_durability plan.durability)
    then max 1 (min workers 8)
    else if ltb workers 2 || plan.source_endpoint.is_ssh && plan.destination_endpoint.is_ssh
    then 1
    else 2

-- The usage for the given slots, requests and validation buffer.
unfoldable pub usage_for : Plan → ℕ → ℕ → ℕ → ResourceUsage
unfolding stream_buffer_bytes
usage_for plan connections slots asked =
    let requests = if connections == 0 then 0 else asked in
    let validation = if plan.source_is_directory then stream_packet_bytes else 0 in
    record {
      active_jobs = 1;
      queued_jobs = 0;
      connections = connections;
      ssh_processes = connections;
      helper_processes = 0;
      file_descriptors = (2 * slots + 3 * connections) % 2 ^ 32;
      goroutines = (requests + 8 * slots + 2) % 2 ^ 32;
      memory_bytes =
          (requests * stream_packet_bytes
            + slots * (stream_buffer_bytes plan + 2 * stream_packet_bytes)
            + validation)
          % 2 ^ 64;
      event_bytes = 0;
      log_bytes = 0;
    }

unfoldable pub windowed_execution_resource_usage : Plan → ResourceUsage
unfolding usage_for ssh_endpoints directory_stream_workers directory_request_cost
windowed_execution_resource_usage plan =
    if plan.source_is_directory
    then usage_for plan (ssh_endpoints plan) (directory_stream_workers plan)
        directory_request_budget
    else usage_for plan (ssh_endpoints plan) 1 (directory_request_cost plan plan.source_size)

-- ===== src/Transfer/Scheduler/Waits.antt =====
-- internal/transfer/scheduler.go: the scheduler's calls. Wait is its first critical section
-- (`enter_wait`) and one `wait_round` after each return of its select; `cancel` reads ctx.Err.
use awesome_sftp_cli.Base.{
  ℕ, zero, suc, ◌+◌, ◌*◌, ◌%◌, ◌^◌, String, Bool, true, false, not, ◌&&◌, ◌||◌, Option, none, some,
  List, [], ◌∷◌, leb, ◌==◌, if◌then◌else◌, length, Result, ok, err, ◌>>=◌, ◌>>◌, refuse_if,
  string_eq,
}
use awesome_sftp_cli.Transfer.Bucket.{
  second, update, bucket_capacity, new_integer_token_bucket, IntegerTokenBucket,
}
use awesome_sftp_cli.Transfer.Scheduler.Policy.{
  SchedulerError, SchedulerPolicy, normalize_scheduler_policy, unique_endpoint_ids,
  validate_request, BandwidthRequest, ScheduleClass, default_to, resource_limit_expansion,
  update_strands_waiter, context_canceled,
}
use awesome_sftp_cli.Transfer.Scheduler.Buckets.{
  BandwidthWaiter, TransferScheduler, consume_request, now, refill_all, request_wait, can_grant,
  map_values,
}
use awesome_sftp_cli.Transfer.Scheduler.Queues.{
  class_at, enqueue, is_class_head, remove, advance, broadcast, dequeue_selected, same_class,
  rebuild_cycle, selected, is_waiter,
}
use awesome_sftp_cli.Transfer.Resources.{
  resource_snapshot, ResourceLedger, ResourceSnapshot, new_resource_ledger,
}
use awesome_sftp_cli.Base.Map.{lookup}
use awesome_sftp_cli.Transfer.Usage.{ResourceLimits}
use awesome_sftp_cli.Base.Members.{value_or}

abbrev pub hour : ℕ
hour = 3600 * second

abbrev pub resources_for : ResourceLimits → Result SchedulerError ResourceLedger
resources_for limits = elim (new_resource_ledger limits) [
  | ok ledger ↦ ok ledger
  | err problem ↦ err resource_limit_expansion
]

unfoldable pub new_transfer_scheduler :
    (ℕ → ℕ) → SchedulerPolicy → ResourceLimits → Result SchedulerError TransferScheduler
unfolding normalize_scheduler_policy new_integer_token_bucket rebuild_cycle new_resource_ledger
new_transfer_scheduler clock policy limits = do
  normalized ← normalize_scheduler_policy policy
  ledger ← resources_for limits
  let burst = normalized.burst_bytes
  ok (
      rebuild_cycle (record {
        clock = clock;
        reads = 1;
        policy = normalized;
        global = new_integer_token_bucket normalized.global_bytes_per_second burst burst (clock 0);
        endpoints = [];
        jobs = [];
        job_rates = [];
        job_endpoints = [];
        resources = ledger;
        interactive = [];
        bulk = [];
        cycle = [];
        cycle_index = 0;
        wake = 0;
        granted_bytes = 0;
        made = 0;
      }))

unfoldable pub add_granted : TransferScheduler → ℕ → TransferScheduler
add_granted s bytes = record s { granted_bytes = (s.granted_bytes + bytes) % 2 ^ 64 }

-- `for cycle[cycleIndex] != class`; fuel bounds the turns.
unfoldable pub advance_to : ℕ → TransferScheduler → ScheduleClass → TransferScheduler
unfolding class_at same_class advance
advance_to zero s class = s
advance_to (suc fuel) s class =
    let next = advance_to fuel (advance s) class in
    if same_class (class_at s.cycle s.cycle_index) class then s else next

unfoldable pub grant_now : TransferScheduler → BandwidthRequest → TransferScheduler
unfolding consume_request advance_to advance add_granted
grant_now s request =
    let charged = consume_request s request in
    let turned = advance_to (length charged.cycle) charged request.class in
    add_granted (advance turned) request.bytes

pub data Entry : Type 0 where
  granted_at_once : Entry
  queued : BandwidthWaiter → Entry

unfoldable pub join_queue : TransferScheduler → BandwidthRequest → TransferScheduler × Entry
unfolding enqueue broadcast
join_queue s request =
    let waiter : BandwidthWaiter = record { id = s.made; request = request } in
    (broadcast (enqueue (record s { made = s.made + 1 }) waiter), queued waiter)

unfoldable pub is_empty : List BandwidthWaiter → Bool
is_empty [] = true
is_empty (waiter ∷ rest) = false

-- The attempt at once, when nothing is queued.
unfoldable pub enter_idle : TransferScheduler → BandwidthRequest → TransferScheduler × Entry
unfolding now refill_all can_grant grant_now join_queue
enter_idle s request =
    let (read, time) = now s in
    let (s', possible) = can_grant (refill_all read time) request in
    if possible then (grant_now s' request, granted_at_once) else join_queue s' request

unfoldable pub enter_wait :
    TransferScheduler → BandwidthRequest → Bool → Result SchedulerError (TransferScheduler × Entry)
unfolding validate_request is_empty enter_idle join_queue
enter_wait s request cancel = do
  refuse_if cancel context_canceled
  validate_request s.policy request
  ok (
      if is_empty s.interactive && is_empty s.bulk
      then enter_idle s request
      else join_queue s request)

-- What a round leaves Wait with: a grant, a refusal, or a timer and a channel.
pub data WaitRound : Type 0 where
  granted : WaitRound
  refused : SchedulerError → WaitRound
  sleeps : ℕ → ℕ → WaitRound

unfoldable pub sleep_round :
    TransferScheduler → Option BandwidthWaiter → BandwidthWaiter → TransferScheduler × WaitRound
unfolding is_class_head request_wait
sleep_round s none waiter =
    let (s', wait_for) = request_wait s waiter.request in
    if is_class_head s waiter then (s', sleeps wait_for s.wake) else (s, sleeps hour s.wake)
sleep_round s (some other) waiter = (s, sleeps hour s.wake)

unfoldable pub grant_selected : TransferScheduler → BandwidthRequest → TransferScheduler
unfolding consume_request dequeue_selected add_granted broadcast
grant_selected s request =
    broadcast (add_granted (dequeue_selected (consume_request s request)) request.bytes)

unfoldable pub wait_round :
    TransferScheduler → BandwidthWaiter → Bool → TransferScheduler × WaitRound
unfolding remove now refill_all selected is_waiter grant_selected sleep_round
wait_round s waiter cancel =
    let (read, time) = now s in
    let (s', chosen) = selected (refill_all read time) in
    if cancel
    then (remove s waiter, refused context_canceled)
    else if is_waiter waiter chosen
    then (grant_selected s' waiter.request, granted)
    else sleep_round s' chosen waiter

-- `case <-ctx.Done()` of the select.
unfoldable pub cancel_wait : TransferScheduler → BandwidthWaiter → TransferScheduler × WaitRound
unfolding remove
cancel_wait s waiter = (remove s waiter, refused context_canceled)

unfoldable pub is_stranded : SchedulerPolicy → BandwidthRequest → Bool
unfolding unique_endpoint_ids
is_stranded policy request =
    let job_rate = default_to policy.job_bytes_per_second request.job_bytes_per_second in
    not (leb request.bytes policy.burst_bytes)
    && (not (policy.global_bytes_per_second == 0)
        || not (policy.endpoint_bytes_per_second == 0)
          && not (length (unique_endpoint_ids request) == 0)
        || not (job_rate == 0))

unfoldable pub strands : SchedulerPolicy → List BandwidthWaiter → Bool
unfolding is_stranded
strands policy [] = false
strands policy (waiter ∷ rest) = is_stranded policy waiter.request || strands policy rest

unfoldable pub retuned : SchedulerPolicy → ℕ → ℕ → IntegerTokenBucket → IntegerTokenBucket
unfolding update bucket_capacity
retuned policy time rate bucket = update bucket rate (bucket_capacity rate policy.burst_bytes) time

unfoldable pub current_job_rate : TransferScheduler → SchedulerPolicy → String → ℕ
current_job_rate s policy job_id =
    default_to policy.job_bytes_per_second (value_or 0 (lookup job_id s.job_rates))

unfoldable pub retune : TransferScheduler → SchedulerPolicy → ℕ → TransferScheduler
unfolding update retuned current_job_rate map_values
retune s policy time = record s {
  global = update s.global policy.global_bytes_per_second policy.burst_bytes time;
  endpoints = map_values (λ name. retuned policy time policy.endpoint_bytes_per_second) s.endpoints;
  jobs = map_values (λ job_id. retuned policy time (current_job_rate s policy job_id)) s.jobs;
  policy = policy;
}

unfoldable pub update_policy :
    TransferScheduler → SchedulerPolicy → Result SchedulerError TransferScheduler
unfolding normalize_scheduler_policy strands now refill_all retune rebuild_cycle broadcast
update_policy s policy = do
  normalized ← normalize_scheduler_policy policy
  refuse_if (strands normalized s.interactive || strands normalized s.bulk) update_strands_waiter
  let (read, time) = now s
  ok (broadcast (rebuild_cycle (retune (refill_all read time) normalized time)))

unfoldable pub allows_read_ahead : TransferScheduler → BandwidthRequest → Bool
allows_read_ahead s request =
    s.policy.global_bytes_per_second == 0
    && s.policy.endpoint_bytes_per_second == 0
    && default_to s.policy.job_bytes_per_second request.job_bytes_per_second == 0

pub record SchedulerSnapshot : Type 0 where
  pub waiters : ℕ
  pub granted_bytes : ℕ
  pub policy : SchedulerPolicy
  pub resources : ResourceSnapshot

unfoldable pub scheduler_snapshot : TransferScheduler → SchedulerSnapshot
unfolding resource_snapshot
scheduler_snapshot s = record {
  waiters = length s.interactive + length s.bulk;
  granted_bytes = s.granted_bytes;
  policy = s.policy;
  resources = resource_snapshot s.resources;
}

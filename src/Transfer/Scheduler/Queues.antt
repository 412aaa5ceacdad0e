-- ===== src/Transfer/Scheduler/Queues.antt =====
-- internal/transfer/scheduler.go: the two queues, the cycle of classes, and the end of a job.
use awesome_sftp_cli.Base.{
  ℕ, zero, suc, ◌+◌, ◌-◌, ◌%◌, String, Bool, true, false, ◌||◌, Option, none, some, List, [], ◌∷◌,
  ◌++◌, leb, ◌==◌, if◌then◌else◌, length, replicate, string_eq,
}
use awesome_sftp_cli.Transfer.Scheduler.Policy.{
  ScheduleClass, unsupported, schedule_interactive, schedule_bulk,
}
use awesome_sftp_cli.Transfer.Scheduler.Buckets.{BandwidthWaiter, TransferScheduler, can_grant}
use awesome_sftp_cli.Transfer.Bucket.{IntegerTokenBucket}
use awesome_sftp_cli.Base.Map.{delete, lookup}
use awesome_sftp_cli.Base.Members.{value_or, contains}

unfoldable pub same_class : ScheduleClass → ScheduleClass → Bool
same_class schedule_interactive schedule_interactive = true
same_class schedule_bulk schedule_bulk = true
same_class (unsupported a) (unsupported b) = string_eq.equal a b
same_class _ _ = false

-- An index past the end would panic; `class_at` names no class there.
unfoldable pub class_at : List ScheduleClass → ℕ → ScheduleClass
class_at [] i = unsupported ""
class_at (class ∷ rest) zero = class
class_at (class ∷ rest) (suc i) = class_at rest i

unfoldable pub queue : TransferScheduler → ScheduleClass → List BandwidthWaiter
unfolding same_class
queue s class = if same_class class schedule_interactive then s.interactive else s.bulk

unfoldable pub enqueue : TransferScheduler → BandwidthWaiter → TransferScheduler
unfolding same_class
enqueue s waiter =
    if same_class waiter.request.class schedule_interactive
    then record s { interactive = s.interactive ++ (waiter ∷ []) }
    else record s { bulk = s.bulk ++ (waiter ∷ []) }

unfoldable pub head_of : List BandwidthWaiter → Option BandwidthWaiter
head_of [] = none
head_of (waiter ∷ rest) = some waiter

unfoldable pub tail_of : List BandwidthWaiter → List BandwidthWaiter
tail_of [] = []
tail_of (waiter ∷ rest) = rest

-- The loop of selectedLocked, `left` attempts before its end.
unfoldable pub select_from : TransferScheduler → ℕ → TransferScheduler × Option BandwidthWaiter
unfolding class_at queue head_of can_grant
select_from s zero = (s, none)
select_from s (suc left) =
    let index = (s.cycle_index + (length s.cycle - suc left)) % length s.cycle in
    let next = select_from s left in
    elim (head_of (queue s (class_at s.cycle index))) [
      | none ↦ next
      | some waiter ↦
          let (s', granted) = can_grant s waiter.request in
          let later = select_from s' left in
          if granted then (record s' { cycle_index = index }, some waiter) else later
    ]

unfoldable pub selected : TransferScheduler → TransferScheduler × Option BandwidthWaiter
unfolding select_from
selected s = select_from s (length s.cycle)

unfoldable pub advance : TransferScheduler → TransferScheduler
advance s = record s { cycle_index = (s.cycle_index + 1) % length s.cycle }

unfoldable pub dequeue_selected : TransferScheduler → TransferScheduler
unfolding class_at same_class tail_of advance
dequeue_selected s = advance (
    if same_class (class_at s.cycle s.cycle_index) schedule_interactive
    then record s { interactive = tail_of s.interactive }
    else record s { bulk = tail_of s.bulk })

unfoldable pub is_waiter : BandwidthWaiter → Option BandwidthWaiter → Bool
is_waiter waiter none = false
is_waiter waiter (some other) = other.id == waiter.id

unfoldable pub is_class_head : TransferScheduler → BandwidthWaiter → Bool
unfolding queue head_of is_waiter
is_class_head s waiter = is_waiter waiter (head_of (queue s waiter.request.class))

unfoldable pub remove_waiter : List BandwidthWaiter → BandwidthWaiter → List BandwidthWaiter × Bool
remove_waiter [] target = ([], false)
remove_waiter (waiter ∷ rest) target =
    let (others, found) = remove_waiter rest target in
    if waiter.id == target.id then (rest, true) else (waiter ∷ others, found)

unfoldable pub broadcast : TransferScheduler → TransferScheduler
broadcast s = record s { wake = s.wake + 1 }

unfoldable pub remove : TransferScheduler → BandwidthWaiter → TransferScheduler
unfolding remove_waiter broadcast
remove s waiter =
    let (interactive', found) = remove_waiter s.interactive waiter in
    let s' = record s { interactive = interactive' } in
    let (bulk', found') = remove_waiter s.bulk waiter in
    if found then broadcast s' else if found' then broadcast (record s { bulk = bulk' }) else s

unfoldable pub rebuild_cycle : TransferScheduler → TransferScheduler
rebuild_cycle s =
    let cycle =
      replicate s.policy.interactive_weight schedule_interactive
      ++ replicate s.policy.bulk_weight schedule_bulk in
    record s {
      cycle = cycle;
      cycle_index = if leb (length cycle) s.cycle_index then 0 else s.cycle_index;
    }

unfoldable pub has_waiter_in : List BandwidthWaiter → String → Bool
has_waiter_in [] job_id = false
has_waiter_in (waiter ∷ rest) job_id =
    string_eq.equal waiter.request.job_id job_id || has_waiter_in rest job_id

unfoldable pub has_waiter_for_job : TransferScheduler → String → Bool
unfolding has_waiter_in
has_waiter_for_job s job_id = has_waiter_in s.interactive job_id || has_waiter_in s.bulk job_id

unfoldable pub endpoint_referenced : List (String × List String) → String → Bool
unfolding contains
endpoint_referenced [] endpoint_id = false
endpoint_referenced ((job_id, endpoint_ids) ∷ rest) endpoint_id =
    contains endpoint_id endpoint_ids || endpoint_referenced rest endpoint_id

unfoldable pub drop_endpoints :
    List (String × List String)
    → List String
    → List (String × IntegerTokenBucket)
    → List (String × IntegerTokenBucket)
unfolding endpoint_referenced
drop_endpoints references [] buckets = buckets
drop_endpoints references (endpoint_id ∷ rest) buckets =
    drop_endpoints references rest
      (if endpoint_referenced references endpoint_id then buckets else delete endpoint_id buckets)

unfoldable pub release_job : TransferScheduler → String → TransferScheduler
unfolding has_waiter_for_job drop_endpoints
release_job s job_id =
    let endpoint_ids = value_or [] (lookup job_id s.job_endpoints) in
    let references = delete job_id s.job_endpoints in
    if string_eq.equal job_id "" || has_waiter_for_job s job_id then s else record s {
      jobs = delete job_id s.jobs;
      job_rates = delete job_id s.job_rates;
      job_endpoints = references;
      endpoints = drop_endpoints references endpoint_ids s.endpoints;
    }

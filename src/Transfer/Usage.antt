-- ===== src/Transfer/Usage.antt =====
-- resource_ledger.go and scheduler.go: amounts of resources, their ceilings, and the arithmetic on
-- them. Amounts are uint32 or uint64 and wrap.
use awesome_sftp_cli.Base.{
  ℕ, ◌+◌, ◌-◌, ◌*◌, ◌%◌, ◌^◌, String, Bool, ◌&&◌, ◌||◌, List, [], ◌∷◌, ltb, ◌==◌, if◌then◌else◌,
  Result, ok, err, ◌>>◌, refuse_if,
}

-- The columns of ResourceUsage, in the order of its fields.
pub data Field : Type 0 where
  active_jobs queued_jobs connections ssh_processes helper_processes : Field
  file_descriptors goroutines memory_bytes event_bytes log_bytes : Field

pub record ResourceUsage : Type 0 where
  pub active_jobs : ℕ
  pub queued_jobs : ℕ
  pub connections : ℕ
  pub ssh_processes : ℕ
  pub helper_processes : ℕ
  pub file_descriptors : ℕ
  pub goroutines : ℕ
  pub memory_bytes : ℕ
  pub event_bytes : ℕ
  pub log_bytes : ℕ

pub record ResourceLimits : Type 0 where
  pub active_jobs : ℕ
  pub active_jobs_per_endpoint : ℕ
  pub queued_jobs : ℕ
  pub endpoints : ℕ
  pub connections : ℕ
  pub connections_per_endpoint : ℕ
  pub ssh_processes : ℕ
  pub helper_processes : ℕ
  pub file_descriptors : ℕ
  pub goroutines : ℕ
  pub memory_bytes : ℕ
  pub event_bytes : ℕ
  pub log_bytes : ℕ

pub data Error : Type 0 where
  job_id_required endpoint_id_empty mixed_usage : Error
  unknown_endpoint : String → Error
  limit_expansion endpoints_exhausted : Error
  exhausted : Field → Error
  endpoint_jobs_exhausted endpoint_connections_exhausted : String → Error
  canceled : Error

abbrev pub usage_of : (Field → ℕ) → ResourceUsage
usage_of f = record {
  active_jobs = f active_jobs;
  queued_jobs = f queued_jobs;
  connections = f connections;
  ssh_processes = f ssh_processes;
  helper_processes = f helper_processes;
  file_descriptors = f file_descriptors;
  goroutines = f goroutines;
  memory_bytes = f memory_bytes;
  event_bytes = f event_bytes;
  log_bytes = f log_bytes;
}

-- A column of an amount, and its ceiling.
abbrev pub get : Field → ResourceUsage → ℕ
get active_jobs u = u.active_jobs
get queued_jobs u = u.queued_jobs
get connections u = u.connections
get ssh_processes u = u.ssh_processes
get helper_processes u = u.helper_processes
get file_descriptors u = u.file_descriptors
get goroutines u = u.goroutines
get memory_bytes u = u.memory_bytes
get event_bytes u = u.event_bytes
get log_bytes u = u.log_bytes

abbrev pub limit : Field → ResourceLimits → ℕ
limit active_jobs l = l.active_jobs
limit queued_jobs l = l.queued_jobs
limit connections l = l.connections
limit ssh_processes l = l.ssh_processes
limit helper_processes l = l.helper_processes
limit file_descriptors l = l.file_descriptors
limit goroutines l = l.goroutines
limit memory_bytes l = l.memory_bytes
limit event_bytes l = l.event_bytes
limit log_bytes l = l.log_bytes

-- uint32, and uint64 for the byte counts.
abbrev pub modulus : Field → ℕ
modulus memory_bytes = 2 ^ 64
modulus event_bytes = 2 ^ 64
modulus log_bytes = 2 ^ 64
modulus _ = 2 ^ 32

abbrev pub zero_usage : ResourceUsage
zero_usage = usage_of (λ f. 0)

unfoldable pub add_usage : ResourceUsage → ResourceUsage → ResourceUsage
add_usage left right = usage_of (λ f. (get f left + get f right) % modulus f)

unfoldable pub subtract_usage : ResourceUsage → ResourceUsage → ResourceUsage
subtract_usage left right = usage_of (λ f. (get f left + modulus f - get f right) % modulus f)

-- `usage == (ResourceUsage{})`.
unfoldable pub is_zero : ResourceUsage → Bool
is_zero u =
    u.active_jobs == 0
    && u.queued_jobs == 0
    && u.connections == 0
    && u.ssh_processes == 0
    && u.helper_processes == 0
    && u.file_descriptors == 0
    && u.goroutines == 0
    && u.memory_bytes == 0
    && u.event_bytes == 0
    && u.log_bytes == 0

unfoldable pub exceeds : ℕ → ℕ → ℕ → Bool
exceeds current request limit = ltb limit request || ltb (limit - request) current

-- The rows of `checks32` and then of `checks64`.
abbrev pub checks : List Field
checks =
    active_jobs ∷ queued_jobs ∷ connections ∷ ssh_processes ∷ helper_processes ∷ file_descriptors
    ∷ goroutines ∷ memory_bytes ∷ event_bytes ∷ log_bytes ∷ []

unfoldable pub run_checks :
    List Field → ResourceUsage → ResourceUsage → ResourceLimits → Result Error (Unit {0})
run_checks [] current requested limits = ok tt
run_checks (f ∷ rest) current requested limits = do
  refuse_if (exceeds (get f current) (get f requested) (limit f limits)) (exhausted f)
  run_checks rest current requested limits

unfoldable pub usage_fits : ResourceUsage → ResourceUsage → ResourceLimits → Result Error (Unit {0})
unfolding run_checks
usage_fits current requested limits = run_checks checks current requested limits

unfoldable pub hard_resource_ceilings : ResourceLimits
hard_resource_ceilings = record {
  active_jobs = 16;
  active_jobs_per_endpoint = 8;
  queued_jobs = 512;
  endpoints = 64;
  connections = 32;
  connections_per_endpoint = 4;
  ssh_processes = 32;
  helper_processes = 4;
  file_descriptors = 512;
  goroutines = 256;
  memory_bytes = 64 * 2 ^ 20;
  event_bytes = 32 * 2 ^ 10;
  log_bytes = 32 * 2 ^ 10;
}

unfoldable pub tighten_resource_limits : ResourceLimits → Result Error ResourceLimits
unfolding hard_resource_ceilings
tighten_resource_limits l =
    let hard = hard_resource_ceilings in
    if ltb hard.active_jobs l.active_jobs
      || ltb hard.active_jobs_per_endpoint l.active_jobs_per_endpoint
      || ltb hard.queued_jobs l.queued_jobs
      || ltb hard.endpoints l.endpoints
      || ltb hard.connections l.connections
      || ltb hard.connections_per_endpoint l.connections_per_endpoint
      || ltb hard.ssh_processes l.ssh_processes
      || ltb hard.helper_processes l.helper_processes
      || ltb hard.file_descriptors l.file_descriptors
      || ltb hard.goroutines l.goroutines
      || ltb hard.memory_bytes l.memory_bytes
      || ltb hard.event_bytes l.event_bytes
      || ltb hard.log_bytes l.log_bytes
    then err limit_expansion
    else ok l

-- `limits == (ResourceLimits{})`.
unfoldable pub is_unset : ResourceLimits → Bool
is_unset l =
    l.active_jobs == 0
    && l.active_jobs_per_endpoint == 0
    && l.queued_jobs == 0
    && l.endpoints == 0
    && l.connections == 0
    && l.connections_per_endpoint == 0
    && l.ssh_processes == 0
    && l.helper_processes == 0
    && l.file_descriptors == 0
    && l.goroutines == 0
    && l.memory_bytes == 0
    && l.event_bytes == 0
    && l.log_bytes == 0

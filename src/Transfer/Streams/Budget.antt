-- ===== src/Transfer/Streams/Budget.antt =====
-- internal/transfer/stream_budget.go: what one execution asks for fits the ceilings.
use awesome_sftp_cli.Base.{
  ℕ, ◌+◌, ◌*◌, ◌≤◌, max, ◌≡◌, refl, inl, inr, Option, none, some, arith, ◌==◌, if◌then◌else◌,
  Bool-cases, ok, string_eq,
}
use awesome_sftp_cli.Transfer.Streams.{
  directory_request_cost, directory_stream_workers, ssh_endpoints, stream_window_requests,
  usage_for, stream_buffer_bytes, windowed_execution_resource_usage, directory_request_budget,
  stream_packet_bytes, ssh_legs,
}
use awesome_sftp_cli.Transfer.Completion.{Plan, no_durability}
use awesome_sftp_cli.Transfer.Usage.{
  file_descriptors, goroutines, memory_bytes, ResourceUsage, zero_usage, usage_fits,
  hard_resource_ceilings,
}
use native.Mathlib.Nat.{mul-le-mul, add-le-add, le_refl}
use awesome_sftp_cli.Transfer.Resources.Columns.{Fits, usage_fits_iff}

window-bounds :
    (p : Plan) (size : Option ℕ)
    → (1 ≤ stream_window_requests p size) × (stream_window_requests p size ≤ 64)
unfolding stream_window_requests
window-bounds p none = omega arith
window-bounds p (some size) = ground arith

ssh_endpoints-bounds : (p : Plan) → ssh_endpoints p ≤ 2
unfolding ssh_endpoints
ssh_endpoints-bounds p = ground arith

workers-bounds : (p : Plan) → (1 ≤ directory_stream_workers p) × (directory_stream_workers p ≤ 8)
unfolding directory_stream_workers
workers-bounds p = ground arith

-- What one file of a directory costs, as a plain product.
abbrev pub exact_request_cost : Plan → Option ℕ → ℕ
exact_request_cost p size =
    if no_durability p.durability then 0 else max 1 (ssh_legs p) * stream_window_requests p size

cost-exact :
    (p : Plan) (size : Option ℕ)
    → (directory_request_cost p size ≡ exact_request_cost p size)
      × (directory_request_cost p size ≤ 128)
unfolding directory_request_cost
cost-exact p size = (ground (arith, window-bounds p size), ground (arith, window-bounds p size))

-- The file slots and requests of an execution, and its buffer for validation.
abbrev pub slots_of : Plan → ℕ
slots_of p = if p.source_is_directory then directory_stream_workers p else 1

abbrev pub requests_of : Plan → ℕ
requests_of p =
    if ssh_endpoints p == 0
    then 0
    else if p.source_is_directory
    then directory_request_budget
    else exact_request_cost p p.source_size

abbrev pub validation_of : Plan → ℕ
validation_of p = if p.source_is_directory then stream_packet_bytes else 0

slots-bounds : (p : Plan) → slots_of p ≤ 8
slots-bounds p = ground (arith, workers-bounds p)

requests-bounds : (p : Plan) → requests_of p ≤ 128
requests-bounds p = ground (arith, cost-exact p p.source_size)

-- An amount of exact sums, none of them reduced modulo a power of 2, that is free in a ledger with
-- the hard ceilings and nothing in use.
pub record IsExactBudget (p : Plan) (u : ResourceUsage) : Type 0 where
  pub one_job : u.active_jobs ≡ 1
  pub connections : u.connections ≡ ssh_endpoints p
  pub processes : u.ssh_processes ≡ ssh_endpoints p
  pub descriptors : u.file_descriptors ≡ 2 * slots_of p + 3 * ssh_endpoints p
  pub goroutines : u.goroutines ≡ requests_of p + 8 * slots_of p + 2
  pub memory :
      u.memory_bytes
      ≡ requests_of p * stream_packet_bytes
        + slots_of p * (stream_buffer_bytes p + 2 * stream_packet_bytes)
        + validation_of p
  pub fits : usage_fits zero_usage u hard_resource_ceilings ≡ ok tt

buffer-bounds :
    (p : Plan) → p.buffer_bytes ≤ 4 * 1024 * 1024 → stream_buffer_bytes p ≤ 4 * 1024 * 1024
unfolding stream_buffer_bytes
buffer-bounds p b = ground arith

memory-bounds :
    (p : Plan)
    → p.buffer_bytes ≤ 4 * 1024 * 1024
    → requests_of p * stream_packet_bytes
        + slots_of p * (stream_buffer_bytes p + 2 * stream_packet_bytes)
        + validation_of p
      ≤ 64 * 1024 * 1024
memory-bounds p b =
    let each = add-le-add (buffer-bounds p b) (le_refl (2 * stream_packet_bytes)) in
    let slots = mul-le-mul (slots-bounds p) each in
    let validation : validation_of p ≤ stream_packet_bytes = ground arith in
    omega (arith, slots, requests-bounds p, validation)

asked_of : Plan → ℕ
asked_of p =
    if p.source_is_directory
    then directory_request_budget
    else directory_request_cost p p.source_size

windowed-usage_for :
    (p : Plan)
    → windowed_execution_resource_usage p ≡ usage_for p (ssh_endpoints p) (slots_of p) (asked_of p)
unfolding windowed_execution_resource_usage asked_of
windowed-usage_for p = elim (Bool-cases p.source_is_directory) [
  | inl dir ↦ rw dir refl
  | inr file ↦ rw file refl
]

asked-exact : (p : Plan) → (if ssh_endpoints p == 0 then 0 else asked_of p) ≡ requests_of p
unfolding asked_of
asked-exact p = rw (cost-exact p p.source_size).0 refl

-- The sums of what one execution asks for are exact, whatever its endpoints, sizes and workers are.
sums-exact :
    (p : Plan)
    → p.buffer_bytes ≤ 4 * 1024 * 1024
    → let u = usage_for p (ssh_endpoints p) (slots_of p) (asked_of p) in
      (u.file_descriptors ≡ 2 * slots_of p + 3 * ssh_endpoints p)
      × (u.goroutines ≡ requests_of p + 8 * slots_of p + 2)
      × (u.memory_bytes
          ≡ requests_of p * stream_packet_bytes
            + slots_of p * (stream_buffer_bytes p + 2 * stream_packet_bytes)
            + validation_of p)
unfolding usage_for
sums-exact p b = rw (asked-exact p) (
  omega (arith, slots-bounds p, ssh_endpoints-bounds p),
  omega (arith, slots-bounds p, requests-bounds p),
  omega (arith, memory-bounds p b),
)

amounts-Fits :
    (p : Plan)
    → p.buffer_bytes ≤ 4 * 1024 * 1024
    → Fits zero_usage
        (usage_for p (ssh_endpoints p) (slots_of p) (asked_of p))
        hard_resource_ceilings
unfolding usage_for hard_resource_ceilings
amounts-Fits p b file_descriptors =
    omega (arith, (sums-exact p b).0, slots-bounds p, ssh_endpoints-bounds p)
amounts-Fits p b goroutines = omega (arith, (sums-exact p b).1, slots-bounds p, requests-bounds p)
amounts-Fits p b memory_bytes = omega (arith, (sums-exact p b).2, memory-bounds p b)
amounts-Fits p b _ = omega (arith, ssh_endpoints-bounds p)

amounts-IsExactBudget :
    (p : Plan)
    → p.buffer_bytes ≤ 4 * 1024 * 1024
    → IsExactBudget p (usage_for p (ssh_endpoints p) (slots_of p) (asked_of p))
unfolding usage_for
amounts-IsExactBudget p b = record {
  one_job = refl;
  connections = refl;
  processes = refl;
  descriptors = (sums-exact p b).0;
  goroutines = (sums-exact p b).1;
  memory = (sums-exact p b).2;
  fits = (usage_fits_iff zero_usage _ hard_resource_ceilings).1 (amounts-Fits p b);
}

-- Whatever its endpoints, sizes and workers are, one execution asks for the exact sums over its
-- slots, requests and connections, as long as the plan's buffer is within the transfer buffer of
-- 4 MiB: no amount differs from its sum by the wrap-around of its integer. The amounts fit
-- the hard ceilings when nothing else is in use.
pub windowed_usage_within :
    (p : Plan)
    → p.buffer_bytes ≤ 4 * 1024 * 1024
    → IsExactBudget p (windowed_execution_resource_usage p)
windowed_usage_within p b = rw (windowed-usage_for p) (amounts-IsExactBudget p b)

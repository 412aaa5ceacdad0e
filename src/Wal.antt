-- ===== src/Wal.antt =====
-- internal/state/wal/budget.go: the budgets of the online SQLite write-ahead log.
-- Numbers are Go's uint64; a worker is named by a text, whose `len` counts bytes.
pub mod Invariant
pub mod Reservations
pub mod Transactions
mod Tests
use Prim.Native.String.{len}
use text.Mathlib.Text.{◌==◌ as str_beq}
use awesome_sftp_cli.Base.{
  ℕ, ◌+◌, ◌-◌, ◌*◌, ◌%◌, ◌^◌, String, Bool, true, false, not, ◌||◌, Option, none, some, List, [],
  ◌∷◌, ltb, leb, ◌==◌, if◌then◌else◌, length, Result, ok, err, ◌>>=◌, ◌>>◌, refuse_if, string_eq,
}
use awesome_sftp_cli.Base.{string_eq}
use awesome_sftp_cli.Base.Map.{lookup, insert, delete}

abbrev pub statement_growth_limit_bytes : ℕ
statement_growth_limit_bytes = 4 * 1024 * 1024

abbrev pub transaction_growth_limit_bytes : ℕ
transaction_growth_limit_bytes = 8 * 1024 * 1024

abbrev pub soft_limit_bytes : ℕ
soft_limit_bytes = 64 * 1024 * 1024

abbrev pub hard_stop_bytes : ℕ
hard_stop_bytes = 256 * 1024 * 1024

abbrev pub absolute_ceiling_bytes : ℕ
absolute_ceiling_bytes = 264 * 1024 * 1024

abbrev pub max_operations_per_transaction : ℕ
max_operations_per_transaction = 256

abbrev pub max_uint64 : ℕ
max_uint64 = 2 ^ 64 - 1

pub record Pressure : Type 0 where
  pub pause_new_readers : Bool
  pub pause_job_claims : Bool
  pub stop_writes : Bool
  pub read_only : Bool

pub record Snapshot : Type 0 where
  pub wal_bytes : ℕ
  pub reserved_bytes : ℕ
  pub reservations : ℕ
  pub pressure : Pressure

pub record Controller : Type 0 where
  pub wal_bytes : ℕ
  pub reserved_bytes : ℕ
  pub reservations : List (String × ℕ)
  pub read_only : Bool

-- One constructor for each message of the source.
pub data Error : Type 0 where
  initial_above_ceiling invalid_reservation controller_read_only already_reserved : Error
  reservations_exceeded hard_stop_reached invalid_worker no_reservation : Error
  invalid_declaration stale_before wal_shrank above_ceiling : Error
  operation_count statement_budget total_budget : Error
  growth_violation : ℕ → ℕ → Bool → Error

-- `add`: the sum and whether it fits.
unfoldable pub add : ℕ → ℕ → ℕ × Bool
add left right =
    if ltb (max_uint64 - right) left then (0, false) else ((left + right) % 2 ^ 64, true)

unfoldable pub new_controller : ℕ → Result Error Controller
new_controller initial_wal_bytes =
    if ltb absolute_ceiling_bytes initial_wal_bytes
    then err initial_above_ceiling
    else ok (record {
      wal_bytes = initial_wal_bytes;
      reserved_bytes = 0;
      reservations = [];
      read_only = false;
    })

is_some {ℓ} : {A : Type ℓ} → Option A → Bool
is_some none = false
is_some (some a) = true

-- What is refused before the lock is taken.
invalid_request : String → ℕ → Bool
invalid_request worker_id bytes =
    str_beq worker_id ""
    || ltb 128 (len worker_id)
    || bytes == 0
    || ltb transaction_growth_limit_bytes bytes

-- A method leaves the controller as it is when it returns an error, unless it says otherwise.
unfoldable pub reserve : Controller → String → ℕ → Result Error Controller
unfolding invalid_request is_some add
reserve c worker_id bytes = do
  refuse_if (invalid_request worker_id bytes) invalid_reservation
  refuse_if c.read_only controller_read_only
  refuse_if (is_some (lookup worker_id c.reservations)) already_reserved
  let (total, fits) = add c.reserved_bytes bytes
  refuse_if (not fits || ltb transaction_growth_limit_bytes total) reservations_exceeded
  let (projected, projects) = add c.wal_bytes total
  refuse_if (not projects || leb hard_stop_bytes projected) hard_stop_reached
  ok (record c { reservations = insert worker_id bytes c.reservations; reserved_bytes = total })

release_found : Controller → String → Option ℕ → Result Error Controller
release_found c worker_id none = err no_reservation
release_found c worker_id (some bytes) = ok (record c {
  reservations = delete worker_id c.reservations;
  reserved_bytes = (c.reserved_bytes + 2 ^ 64 - bytes) % 2 ^ 64;
})

unfoldable pub release : Controller → String → Result Error Controller
unfolding release_found
release c worker_id =
    if str_beq worker_id ""
    then err invalid_worker
    else release_found c worker_id (lookup worker_id c.reservations)

-- The controller after the call, and the error that it returns, if any: a growth beyond the
-- budget is recorded and reported.
unfoldable pub observe_growth : Controller → ℕ → ℕ → ℕ → ℕ → Bool → Controller × Option Error
observe_growth c before_bytes after_bytes declared_bytes maximum_declared committed =
    let c' = record c { wal_bytes = after_bytes } in
    let actual = after_bytes - before_bytes in
    if declared_bytes == 0 || ltb maximum_declared declared_bytes
    then (c, some invalid_declaration)
    else if not (before_bytes == c.wal_bytes)
    then (c, some stale_before)
    else if ltb after_bytes before_bytes
    then (c, some wal_shrank)
    else if ltb absolute_ceiling_bytes after_bytes
    then (record c' { read_only = true }, some above_ceiling)
    else if ltb declared_bytes actual
    then (c', some (growth_violation declared_bytes actual committed))
    else (c', none)

unfoldable pub observe_write : Controller → ℕ → ℕ → ℕ → Bool → Controller × Option Error
unfolding observe_growth
observe_write c before_bytes after_bytes declared_bytes committed =
    observe_growth c before_bytes after_bytes declared_bytes statement_growth_limit_bytes committed

unfoldable pub observe_boundary : Controller → ℕ → ℕ → ℕ → Bool → Controller × Option Error
unfolding observe_growth
observe_boundary c before_bytes after_bytes declared_bytes committed =
    observe_growth c before_bytes after_bytes declared_bytes transaction_growth_limit_bytes
      committed

-- The loop of `transactionBudget` over the statements, with the total so far.
unfoldable pub sum_budgets : ℕ → List ℕ → Result Error ℕ
unfolding add
sum_budgets total [] = ok total
sum_budgets total (budget ∷ rest) =
    let (total', fits) = add total budget in
    let later = sum_budgets total' rest in
    if budget == 0 || ltb statement_growth_limit_bytes budget
    then err statement_budget
    else if not fits || ltb transaction_growth_limit_bytes total'
    then err total_budget
    else later

unfoldable pub transaction_budget : List ℕ → Result Error ℕ
unfolding sum_budgets
transaction_budget budgets =
    if length budgets == 0 || ltb max_operations_per_transaction (length budgets)
    then err operation_count
    else sum_budgets 0 budgets

unfoldable pub validate_transaction_budgets : List ℕ → Option Error
validate_transaction_budgets budgets = elim (transaction_budget budgets) [
  | ok total ↦ none
  | err e ↦ some e
]

-- The chain of `add` in PreflightTransaction: `if ok { projected, ok = add(projected, total) }`.
add_if : ℕ × Bool → ℕ → ℕ × Bool
add_if (projected, true) total = add projected total
add_if (projected, false) total = (projected, false)

unfoldable pub project : Controller → ℕ → ℕ × Bool
unfolding add_if
project c total = add_if (add c.wal_bytes c.reserved_bytes) total

unfoldable pub preflight_transaction : Controller → List ℕ → Result Error (Unit {0})
preflight_transaction c budgets = do
  total ← transaction_budget budgets
  refuse_if c.read_only controller_read_only
  let (projected, fits) = project c total
  refuse_if (not fits || leb hard_stop_bytes projected) hard_stop_reached

unfoldable pub observe_checkpoint : Controller → ℕ → Controller × Option Error
observe_checkpoint c wal_bytes =
    let c' = record c { wal_bytes = wal_bytes } in
    if ltb absolute_ceiling_bytes wal_bytes
    then (record c' { read_only = true }, some above_ceiling)
    else (c', none)

unfoldable pub pressure : Controller → Pressure
unfolding add
pressure c =
    let (sum, fits) = add c.wal_bytes c.reserved_bytes in
    let read_only = c.read_only || not fits || ltb absolute_ceiling_bytes c.wal_bytes in
    let projected = if fits then sum else max_uint64 in
    let stop = read_only || leb hard_stop_bytes projected in
    let pause = stop || leb soft_limit_bytes projected in
    record {
      pause_new_readers = pause;
      pause_job_claims = pause;
      stop_writes = stop;
      read_only = read_only;
    }

unfoldable pub snapshot : Controller → Snapshot
unfolding pressure
snapshot c = record {
  wal_bytes = c.wal_bytes;
  reserved_bytes = c.reserved_bytes;
  reservations = length c.reservations;
  pressure = pressure c;
}

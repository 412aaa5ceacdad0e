-- ===== src/Cache/Accounting.antt =====
-- internal/cache/quota.go: what a catalog uses. Sizes are int64 patterns; where the code adds them
-- they are validated, so they are below 2 ^ 63 and the patterns compare as the integers do.
use awesome_sftp_cli.Base.{
  ℕ, ◌+◌, ◌-◌, ◌*◌, ◌%◌, ◌^◌, String, Bool, true, false, not, ◌&&◌, ◌||◌, List, [], ◌∷◌, ltb, ◌==◌,
  if◌then◌else◌, length, Result, ok, err, ◌>>=◌, ◌>>◌, refuse_if, string_eq, ◌≐◌,
}
use awesome_sftp_cli.Base.Members.{value_or, contains}
use awesome_sftp_cli.Cache.Records.{Entry, Snapshot, is_negative, Blob, Materialization}
use awesome_sftp_cli.Base.Map.{lookup, insert}
use awesome_sftp_cli.Cache.Validation.{valid_snapshot}

abbrev pub max_int64 : ℕ
max_int64 = 2 ^ 63 - 1

pub record Quantity : Type 0 where
  pub bytes : ℕ
  pub entries : ℕ

pub record Usage : Type 0 where
  pub global : Quantity
  pub materializations : ℕ
  pub workspaces : List (String × ℕ)
  pub shared_bytes : ℕ

pub record Limits : Type 0 where
  pub global_bytes : ℕ
  pub global_entries : ℕ
  pub workspace_bytes : ℕ
  pub max_candidates : ℕ

abbrev pub default_limits : Limits
default_limits = record {
  global_bytes = 2 * 2 ^ 30;
  global_entries = 4096;
  workspace_bytes = 2 ^ 30;
  max_candidates = 256;
}

pub data CacheError : Type 0 where
  invalid_snapshot invalid_limits leases_require_manager : CacheError
  byte_count_overflow invalid_admission : CacheError
  invalid_lease lease_not_active invalid_manager : CacheError
  invalid_endpoint_id invalid_path invalid_fingerprint : CacheError

unfoldable pub add_bytes : ℕ → ℕ → Result CacheError ℕ
add_bytes destination amount =
    if ltb (max_int64 - destination) amount
    then err byte_count_overflow
    else ok (destination + amount)

-- `workspaces[id] += amount`, with the check.
unfoldable pub add_to_workspace :
    String → ℕ → List (String × ℕ) → Result CacheError (List (String × ℕ))
unfolding add_bytes
add_to_workspace id amount workspaces = do
  bytes ← add_bytes (value_or 0 (lookup id workspaces)) amount
  ok (insert id bytes workspaces)

unfoldable pub note_workspaces : List Entry → List (String × ℕ) → List (String × ℕ)
note_workspaces [] workspaces = workspaces
note_workspaces (entry ∷ rest) workspaces =
    let bytes = value_or 0 (lookup entry.workspace_id workspaces) in
    note_workspaces rest (insert entry.workspace_id bytes workspaces)

-- The keys of the set of workspaces whose entries hold the blob.
unfoldable pub workspaces_of : String → List Entry → List String → List String
workspaces_of blob_id [] seen = seen
workspaces_of blob_id (entry ∷ rest) seen = workspaces_of blob_id rest (
    if entry.blob_id ≐ blob_id && not (contains entry.workspace_id seen)
    then entry.workspace_id ∷ seen
    else seen)

unfoldable pub charge_blob : Usage → ℕ → List String → Result CacheError Usage
unfolding add_bytes add_to_workspace
charge_blob usage size [] = ok usage
charge_blob usage size (workspace ∷ []) = do
  workspaces ← add_to_workspace workspace size usage.workspaces
  ok (record usage { workspaces = workspaces })
charge_blob usage size (first ∷ second ∷ rest) = do
  shared ← add_bytes usage.shared_bytes size
  ok (record usage { shared_bytes = shared })

unfoldable pub add_global : Usage → ℕ → Result CacheError Usage
unfolding add_bytes
add_global usage size = do
  bytes ← add_bytes usage.global.bytes size
  ok (record usage { global = record usage.global { bytes = bytes } })

unfoldable pub account_blobs : List Entry → List Blob → Usage → Result CacheError Usage
unfolding add_global charge_blob workspaces_of
account_blobs entries [] usage = ok usage
account_blobs entries (blob ∷ rest) usage = do
  counted ← add_global usage blob.size
  charged ← charge_blob counted blob.size (workspaces_of blob.id entries [])
  account_blobs entries rest charged

-- The map from identifiers to entries: a later entry replaces an earlier one.
unfoldable pub workspace_of_entry : String → List Entry → String → String
workspace_of_entry id [] found = found
workspace_of_entry id (entry ∷ rest) found =
    workspace_of_entry id rest (if entry.id ≐ id then entry.workspace_id else found)

unfoldable pub account_materializations :
    List Entry → List Materialization → Usage → Result CacheError Usage
unfolding add_global add_to_workspace workspace_of_entry
account_materializations entries [] usage = ok usage
account_materializations entries (m ∷ rest) usage = do
  counted ← add_global usage m.size
  workspaces ← add_to_workspace (workspace_of_entry m.entry_id entries "") m.size counted.workspaces
  account_materializations entries rest (record counted { workspaces = workspaces })

unfoldable pub account_validated : Snapshot → Result CacheError Usage
unfolding account_blobs account_materializations note_workspaces
account_validated s = do
  let empty : Usage = record {
    global = record { bytes = 0; entries = length s.entries };
    materializations = length s.materializations;
    workspaces = note_workspaces s.entries [];
    shared_bytes = 0;
  }
  usage ← account_blobs s.entries s.blobs empty
  account_materializations s.entries s.materializations usage

unfoldable pub account : Snapshot → Result CacheError Usage
unfolding account_validated
account s = do refuse_if (not (valid_snapshot s)) invalid_snapshot; account_validated s

unfoldable pub valid_limits : Limits → Bool
valid_limits limits =
    not (is_negative limits.global_bytes)
    && not (is_negative limits.global_entries)
    && not (is_negative limits.workspace_bytes)
    && not (limits.max_candidates == 0 || is_negative limits.max_candidates)

unfoldable pub global_objects : Usage → ℕ
global_objects usage = usage.global.entries + usage.materializations

unfoldable pub workspaces_within : ℕ → List (String × ℕ) → Bool
workspaces_within limit [] = true
workspaces_within limit ((id, bytes) ∷ rest) = not (ltb limit bytes) && workspaces_within limit rest

unfoldable pub within_byte_limits : Usage → Limits → Bool
unfolding workspaces_within
within_byte_limits usage limits =
    not (ltb limits.global_bytes usage.global.bytes)
    && workspaces_within limits.workspace_bytes usage.workspaces

unfoldable pub within_limits : Usage → Limits → Bool
unfolding workspaces_within global_objects
within_limits usage limits =
    not (
      ltb limits.global_bytes usage.global.bytes
      || ltb limits.global_entries (global_objects usage))
    && workspaces_within limits.workspace_bytes usage.workspaces

unfoldable pub workspace_improves : ℕ → List (String × ℕ) → List (String × ℕ) → Bool
workspace_improves limit [] after = false
workspace_improves limit ((id, bytes) ∷ rest) after =
    ltb limit bytes && ltb (value_or 0 (lookup id after)) bytes
    || workspace_improves limit rest after

unfoldable pub improves_violation : Usage → Usage → Limits → Bool
unfolding global_objects workspace_improves
improves_violation before after limits =
    ltb limits.global_bytes before.global.bytes && ltb after.global.bytes before.global.bytes
    || ltb limits.global_entries (global_objects before)
      && ltb (global_objects after) (global_objects before)
    || workspace_improves limits.workspace_bytes before.workspaces after.workspaces

unfoldable pub workspaces_required : ℕ → List (String × ℕ) → ℕ
workspaces_required limit [] = 0
workspaces_required limit ((id, bytes) ∷ rest) =
    ((if ltb limit bytes then bytes - limit else 0) + workspaces_required limit rest) % 2 ^ 64

unfoldable pub required_quantity : Usage → Limits → Quantity
unfolding global_objects workspaces_required
required_quantity usage limits =
    let bytes =
      if ltb limits.global_bytes usage.global.bytes
      then usage.global.bytes - limits.global_bytes
      else 0 in
    let objects = global_objects usage in
    let required = workspaces_required limits.workspace_bytes usage.workspaces in
    record {
      bytes = if ltb bytes required && not (is_negative required) then required else bytes;
      entries = if ltb limits.global_entries objects then objects - limits.global_entries else 0;
    }

-- ===== src/Cache/Plans.antt =====
-- internal/cache/quota.go: PlanEvictions with its diagnostic, and PlanAdmission.
use awesome_sftp_cli.Base.{
  ℕ, ◌+◌, ◌%◌, ◌^◌, String, Bool, true, false, not, ◌&&◌, ◌||◌, Option, none, some, List, [], ◌∷◌,
  ◌++◌, ltb, if◌then◌else◌, Result, ok, err, ◌>>=◌, ◌>>◌, refuse_if, string_eq, ◌≐◌,
}
use awesome_sftp_cli.Cache.Accounting.{
  Quantity, Usage, required_quantity, within_limits, CacheError, Limits, valid_limits,
  account_validated, invalid_admission, invalid_snapshot, invalid_limits, leases_require_manager,
}
use awesome_sftp_cli.Cache.Records.{Blob, Entry, Lease, Materialization, Snapshot}
use awesome_sftp_cli.Base.Members.{contains}
use awesome_sftp_cli.Cache.Leases.{LeaseManager}
use awesome_sftp_cli.Cache.Validation.{valid_snapshot}
use awesome_sftp_cli.Cache.Protections.{
  EvictionCandidate, EvictionTarget, Marks, enumerate_candidates, inspect_protections,
  ProtectionIndex,
}
use awesome_sftp_cli.Cache.Evictions.{PlanState, plan_loop}

pub record QuotaDiagnostic : Type 0 where
  pub required : Quantity
  pub releasable : Quantity
  pub pinned : Quantity
  pub dirty : Quantity
  pub leased : Quantity
  pub shared : Quantity
  pub referenced : Quantity

pub record EvictionPlan : Type 0 where
  pub before : Usage
  pub after : Usage
  pub targets : List EvictionTarget
  pub satisfied : Bool
  pub considered : ℕ
  pub diagnostic : QuotaDiagnostic

abbrev pub no_quantity : Quantity
no_quantity = record { bytes = 0; entries = 0 }

abbrev pub no_diagnostic : QuotaDiagnostic
no_diagnostic = record {
  required = no_quantity;
  releasable = no_quantity;
  pinned = no_quantity;
  dirty = no_quantity;
  leased = no_quantity;
  shared = no_quantity;
  referenced = no_quantity;
}

-- Sums of quantities; Go's int64 and int wrap.
abbrev pub add_quantity : Quantity → Quantity → Quantity
add_quantity a b = record {
  bytes = (a.bytes + b.bytes) % 2 ^ 64;
  entries = (a.entries + b.entries) % 2 ^ 64;
}

unfoldable pub blob_size : List Blob → String → ℕ → ℕ
blob_size [] id found = found
blob_size (blob ∷ rest) id found = blob_size rest id (if blob.id ≐ id then blob.size else found)

unfoldable pub materialization_size : List Materialization → String → ℕ → ℕ
materialization_size [] id found = found
materialization_size (m ∷ rest) id found =
    materialization_size rest id (if m.id ≐ id then m.size else found)

unfoldable pub entries_of_blob : List Entry → String → ℕ
entries_of_blob [] id = 0
entries_of_blob (entry ∷ rest) id =
    if entry.blob_id ≐ id then entries_of_blob rest id + 1 else entries_of_blob rest id

-- The keys of a set, each once.
unfoldable pub distinct : List String → List String
unfolding contains
distinct [] = []
distinct (id ∷ rest) = if contains id rest then distinct rest else id ∷ distinct rest

unfoldable pub held_blobs : Snapshot → List String → Quantity
unfolding blob_size entries_of_blob
held_blobs s [] = no_quantity
held_blobs s (id ∷ rest) =
    add_quantity (record { bytes = blob_size s.blobs id 0; entries = entries_of_blob s.entries id })
      (held_blobs s rest)

unfoldable pub held_materializations : Snapshot → List String → Quantity
unfolding materialization_size
held_materializations s [] = no_quantity
held_materializations s (id ∷ rest) =
    add_quantity (record { bytes = materialization_size s.materializations id 0; entries = 0 })
      (held_materializations s rest)

unfoldable pub marked_quantity : Snapshot → Marks → Quantity
unfolding held_blobs held_materializations distinct
marked_quantity s marks =
    add_quantity (held_blobs s (distinct marks.blobs))
      (held_materializations s (distinct marks.materializations))

-- Pinned entries, with the blobs of those seen already.
unfoldable pub pinned_entries : Snapshot → List String → List Entry → Quantity
unfolding blob_size contains
pinned_entries s seen [] = no_quantity
pinned_entries s seen (entry ∷ rest) =
    let first = entry.pinned && not (contains entry.blob_id seen) in
    add_quantity
      (record {
        bytes = if first then blob_size s.blobs entry.blob_id 0 else 0;
        entries = if entry.pinned then 1 else 0;
      })
      (pinned_entries s (if first then entry.blob_id ∷ seen else seen) rest)

unfoldable pub sum_materializations : (Materialization → Bool) → List Materialization → Quantity
sum_materializations counts [] = no_quantity
sum_materializations counts (m ∷ rest) =
    add_quantity (record { bytes = if counts m then m.size else 0; entries = 0 })
      (sum_materializations counts rest)

unfoldable pub shared_blobs : Snapshot → List (String × ℕ) → Quantity
unfolding blob_size
shared_blobs s [] = no_quantity
shared_blobs s ((id, count) ∷ rest) =
    add_quantity
      (if ltb 1 count
        then record { bytes = blob_size s.blobs id 0; entries = count }
        else no_quantity)
      (shared_blobs s rest)

-- The blob of the first entry with the identifier; none if there is no such entry.
unfoldable pub first_entry_blob : List Entry → String → Option String
first_entry_blob [] id = none
first_entry_blob (entry ∷ rest) id =
    if entry.id ≐ id then some entry.blob_id else first_entry_blob rest id

unfoldable pub entry_bytes : Snapshot → Option String → ℕ
unfolding blob_size
entry_bytes s none = 0
entry_bytes s (some blob_id) = blob_size s.blobs blob_id 0

unfoldable pub releasable_target : Snapshot → EvictionTarget → Quantity
unfolding entry_bytes first_entry_blob materialization_size blob_size
releasable_target s target =
    if not (target.entry_id ≐ "")
    then record { bytes = entry_bytes s (first_entry_blob s.entries target.entry_id); entries = 1 }
    else if not (target.materialization_id ≐ "")
    then record {
      bytes = materialization_size s.materializations target.materialization_id 0;
      entries = 0;
    }
    else record { bytes = blob_size s.blobs target.blob_id 0; entries = 0 }

unfoldable pub releasable_candidates : Snapshot → List EvictionCandidate → Quantity
unfolding releasable_target
releasable_candidates s [] = no_quantity
releasable_candidates s (candidate ∷ rest) =
    add_quantity (releasable_target s candidate.target) (releasable_candidates s rest)

unfoldable pub build_diagnostic : Snapshot → Usage → Limits → ProtectionIndex → QuotaDiagnostic
unfolding required_quantity releasable_candidates enumerate_candidates pinned_entries
    sum_materializations marked_quantity shared_blobs
build_diagnostic s usage limits p = record {
  required = required_quantity usage limits;
  releasable = releasable_candidates s (enumerate_candidates s p false);
  pinned =
      add_quantity (pinned_entries s [] s.entries)
        (sum_materializations (λ m. m.pinned) s.materializations);
  dirty = sum_materializations (λ m. m.state ≐ "dirty" || m.state ≐ "orphaned") s.materializations;
  leased = marked_quantity s p.leased;
  shared = shared_blobs s p.entries_by_blob;
  referenced = marked_quantity s p.referenced;
}

unfoldable pub is_empty_leases : List Lease → Bool
is_empty_leases [] = true
is_empty_leases (lease ∷ rest) = false

unfoldable pub is_absent : Option LeaseManager → Bool
is_absent none = true
is_absent (some manager) = false

unfoldable pub plan_of : Limits → Option LeaseManager → Usage → PlanState → EvictionPlan
unfolding within_limits build_diagnostic inspect_protections
plan_of limits manager before s =
    let satisfied = within_limits s.after limits in
    let p = inspect_protections manager s.reads s.working in
    record {
      before = before;
      after = s.after;
      targets = s.targets;
      satisfied = satisfied;
      considered = s.considered;
      diagnostic = if satisfied then no_diagnostic else build_diagnostic s.working s.after limits p;
    }

abbrev pub start_plan : Snapshot → Usage → PlanState
start_plan s before = record {
  working = s;
  after = before;
  targets = [];
  considered = 0;
  reads = 0;
}

unfoldable pub plan_evictions :
    Snapshot → Limits → Option LeaseManager → Result CacheError EvictionPlan
unfolding valid_snapshot valid_limits is_empty_leases is_absent account_validated plan_loop plan_of
plan_evictions s limits manager = do
  refuse_if (not (valid_snapshot s)) invalid_snapshot
  refuse_if (not (valid_limits limits)) invalid_limits
  refuse_if (not (is_empty_leases s.leases) && is_absent manager) leases_require_manager
  before ← account_validated s
  last ← plan_loop limits manager limits.max_candidates (start_plan s before)
  ok (plan_of limits manager before last)

pub record Admission : Type 0 where
  pub blob : Option Blob
  pub entry : Option Entry
  pub materialization : Option Materialization

unfoldable pub pin_blob : String → List Entry → List Entry
pin_blob blob_id [] = []
pin_blob blob_id (entry ∷ rest) =
    (if entry.blob_id ≐ blob_id then record entry { pinned = true } else entry)
    ∷ pin_blob blob_id rest

unfoldable pub admit_blob : Snapshot → Entry → Option Blob → Snapshot
unfolding pin_blob
admit_blob s entry (some blob) = record s { blobs = s.blobs ++ (blob ∷ []) }
admit_blob s entry none = record s { entries = pin_blob entry.blob_id s.entries }

-- The catalog with the incoming records in it, pinned.
unfoldable pub admit :
    Snapshot → Option Blob → Option Entry → Option Materialization → Result CacheError Snapshot
unfolding admit_blob
admit s blob (some entry) none =
    let s' = admit_blob s entry blob in
    ok (record s' { entries = s'.entries ++ (record entry { pinned = true } ∷ []) })
admit s none none (some m) =
    ok (record s { materializations = s.materializations ++ (record m { pinned = true } ∷ []) })
admit s (some blob) none (some m) = err invalid_admission
admit s blob none none = err invalid_admission
admit s blob (some entry) (some m) = err invalid_admission

unfoldable pub plan_admission :
    Snapshot → Admission → Limits → Option LeaseManager → Result CacheError EvictionPlan
unfolding admit plan_evictions
plan_admission s admission limits manager = do
  working ← admit s admission.blob admission.entry admission.materialization
  plan_evictions working limits manager

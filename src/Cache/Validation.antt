-- ===== src/Cache/Validation.antt =====
-- internal/cache/records.go: the Validate methods. Each Boolean is whether Validate returns nil.
use Prim.Native.String.{len}
use awesome_sftp_cli.Base.{
  ℕ, String, Bool, true, not, ◌&&◌, ◌||◌, Option, none, some, List, [], ◌∷◌, map, leb, ◌==◌,
  if◌then◌else◌, length, string_eq, ◌≐◌,
}
use awesome_sftp_cli.Cache.Records.{
  Blob, Entry, Fingerprint, Lease, Materialization, ProcessIdentity, Reference, Snapshot, Target,
  is_negative,
}
use awesome_sftp_cli.Base.Members.{contains}
use awesome_sftp_cli.Cache.Ids.{
  is_content_id, is_random_id, max_canonical_fingerprint, max_endpoint_id_bytes,
  max_canonical_path_bytes,
}

unfoldable pub valid_fingerprint : Fingerprint → Bool
valid_fingerprint f =
    (f.strength ≐ "weak" || f.strength ≐ "strong")
    && not (length f.canonical == 0)
    && leb (length f.canonical) max_canonical_fingerprint

unfoldable pub valid_access_times : ℕ → ℕ → Bool
valid_access_times created_at last_access_at =
    not (created_at == 0) && not (last_access_at == 0) && leb created_at last_access_at

unfoldable pub valid_blob : Blob → Bool
unfolding valid_access_times
valid_blob blob =
    is_content_id blob.id
    && not (is_negative blob.size)
    && (blob.state ≐ "published" || blob.state ≐ "deleting")
    && valid_access_times blob.created_at blob.last_access_at

unfoldable pub valid_entry : Entry → Bool
unfolding valid_fingerprint valid_access_times
valid_entry entry =
    is_content_id entry.id
    && not (entry.endpoint_id ≐ "")
    && leb (len entry.endpoint_id) max_endpoint_id_bytes
    && not (length entry.canonical_path == 0)
    && leb (length entry.canonical_path) max_canonical_path_bytes
    && valid_fingerprint entry.fingerprint
    && (entry.freshness ≐ "fresh" || entry.freshness ≐ "stale" || entry.freshness ≐ "unknown")
    && (entry.policy ≐ "lru" || entry.policy ≐ "ephemeral" || entry.policy ≐ "pinned_offline")
    && not (entry.policy ≐ "pinned_offline" && not entry.pinned)
    && not (entry.workspace_id ≐ "")
    && is_content_id entry.blob_id
    && valid_access_times entry.created_at entry.last_access_at

unfoldable pub valid_materialization : Materialization → Bool
unfolding valid_access_times
valid_materialization m =
    is_random_id m.id
    && is_content_id m.entry_id
    && is_content_id m.baseline_blob_id
    && is_content_id m.current_blob_id
    && not (is_negative m.size)
    && (m.state ≐ "clean" || m.state ≐ "dirty" || m.state ≐ "orphaned" || m.state ≐ "deleting")
    && valid_access_times m.created_at m.last_access_at

unfoldable pub valid_target : Target → Bool
valid_target target =
    let has_blob = not (target.blob_id ≐ "") in
    let has_materialization = not (target.materialization_id ≐ "") in
    if has_blob
    then not has_materialization && is_content_id target.blob_id
    else has_materialization && is_random_id target.materialization_id

unfoldable pub valid_reference : Reference → Bool
unfolding valid_target
valid_reference reference =
    is_random_id reference.id
    && (reference.owner_kind ≐ "workspace"
        || reference.owner_kind ≐ "preview"
        || reference.owner_kind ≐ "edit"
        || reference.owner_kind ≐ "open"
        || reference.owner_kind ≐ "upload"
        || reference.owner_kind ≐ "stage2_part")
    && not (reference.owner_id ≐ "")
    && valid_target reference.target
    && not (reference.created_at == 0)

unfoldable pub valid_process : Option ProcessIdentity → Bool
valid_process none = true
valid_process (some identity) =
    not (identity.pid == 0 || is_negative identity.pid) && not (identity.birth_id ≐ "")

unfoldable pub valid_lease : Lease → Bool
unfolding valid_target valid_process
valid_lease lease =
    is_random_id lease.id
    && (lease.owner_kind ≐ "preview"
        || lease.owner_kind ≐ "editor"
        || lease.owner_kind ≐ "opener"
        || lease.owner_kind ≐ "upload")
    && not (lease.owner_id ≐ "")
    && not (lease.daemon_instance_id ≐ "")
    && valid_target lease.target
    && (if lease.state ≐ "active"
        then lease.released_at == 0
        else lease.state ≐ "released" && not (lease.released_at == 0))
    && not (lease.heartbeat_at == 0)
    && leb lease.heartbeat_at lease.expires_at
    && leb lease.expires_at lease.grace_until
    && valid_process lease.process

unfoldable pub target_exists : Target → List String → List String → Bool
unfolding contains
target_exists target blobs materializations =
    if not (target.blob_id ≐ "")
    then contains target.blob_id blobs
    else contains target.materialization_id materializations

-- The loops of Snapshot.Validate, each with the set of the identifiers that it has seen.
unfoldable pub valid_blobs : List String → List Blob → Bool
unfolding valid_blob contains
valid_blobs seen [] = true
valid_blobs seen (blob ∷ rest) =
    valid_blob blob && not (contains blob.id seen) && valid_blobs (blob.id ∷ seen) rest

unfoldable pub valid_entries : List String → List String → List Entry → Bool
unfolding valid_entry contains
valid_entries blobs seen [] = true
valid_entries blobs seen (entry ∷ rest) =
    valid_entry entry
    && not (contains entry.id seen)
    && contains entry.blob_id blobs
    && valid_entries blobs (entry.id ∷ seen) rest

unfoldable pub valid_materializations :
    List String → List String → List String → List Materialization → Bool
unfolding valid_materialization contains
valid_materializations blobs entries seen [] = true
valid_materializations blobs entries seen (m ∷ rest) =
    valid_materialization m
    && not (contains m.id seen)
    && contains m.entry_id entries
    && contains m.baseline_blob_id blobs
    && valid_materializations blobs entries (m.id ∷ seen) rest

unfoldable pub valid_references : List String → List String → List String → List Reference → Bool
unfolding valid_reference contains target_exists
valid_references blobs materializations seen [] = true
valid_references blobs materializations seen (reference ∷ rest) =
    valid_reference reference
    && not (contains reference.id seen)
    && target_exists reference.target blobs materializations
    && valid_references blobs materializations (reference.id ∷ seen) rest

unfoldable pub valid_leases : List String → List String → List String → List Lease → Bool
unfolding valid_lease contains target_exists
valid_leases blobs materializations seen [] = true
valid_leases blobs materializations seen (lease ∷ rest) =
    valid_lease lease
    && not (contains lease.id seen)
    && target_exists lease.target blobs materializations
    && valid_leases blobs materializations (lease.id ∷ seen) rest

abbrev pub blob_ids : List Blob → List String
blob_ids = map (λ blob. blob.id)

abbrev pub entry_ids : List Entry → List String
entry_ids = map (λ entry. entry.id)

abbrev pub materialization_ids : List Materialization → List String
materialization_ids = map (λ m. m.id)

unfoldable pub valid_snapshot : Snapshot → Bool
unfolding valid_blobs valid_entries valid_materializations valid_references valid_leases
valid_snapshot s =
    let blobs = blob_ids s.blobs in
    let entries = entry_ids s.entries in
    let materializations = materialization_ids s.materializations in
    valid_blobs [] s.blobs
    && valid_entries blobs [] s.entries
    && valid_materializations blobs entries [] s.materializations
    && valid_references blobs materializations [] s.references
    && valid_leases blobs materializations [] s.leases

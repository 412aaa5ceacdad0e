-- ===== src/Cache/Protections.antt =====
-- internal/cache/quota.go: what protects a record from eviction, and the candidates.
-- A set is the list of its members. The n-th reading of the clock is taken for the n-th
-- classification of a lease.
use awesome_sftp_cli.Base.{
  ℕ, ◌+◌, String, Bool, true, false, not, ◌&&◌, ◌||◌, Option, none, some, List, [], ◌∷◌, ◌++◌, map,
  ltb, ◌==◌, if◌then◌else◌, string_eq, ◌≐◌,
}
use awesome_sftp_cli.Cache.Records.{
  Blob, Entry, Materialization, Reference, Snapshot, Target, Lease,
}
use awesome_sftp_cli.Cache.Leases.{
  LeaseManager, LeaseProtection, classify, protected_active, protected_grace,
  protected_live_process, protected_uncertain, reclaimable,
}
use awesome_sftp_cli.Base.Members.{contains, value_or}
use awesome_sftp_cli.Base.Map.{insert, lookup}

pub record EvictionTarget : Type 0 where
  pub blob_id : String
  pub entry_id : String
  pub materialization_id : String

abbrev pub blob_eviction : String → EvictionTarget
blob_eviction id = record { blob_id = id; entry_id = ""; materialization_id = "" }

abbrev pub entry_eviction : String → EvictionTarget
entry_eviction id = record { blob_id = ""; entry_id = id; materialization_id = "" }

abbrev pub materialization_eviction : String → EvictionTarget
materialization_eviction id = record { blob_id = ""; entry_id = ""; materialization_id = id }

-- The sets of leased and of referenced records.
pub record Marks : Type 0 where
  pub blobs : List String
  pub materializations : List String

pub record ProtectionIndex : Type 0 where
  pub leased : Marks
  pub referenced : Marks
  pub materializations_by_entry : List String
  pub entries_by_blob : List (String × ℕ)

unfoldable pub mark : Target → Marks → Marks
mark target marks =
    if not (target.blob_id ≐ "")
    then record marks { blobs = target.blob_id ∷ marks.blobs }
    else record marks { materializations = target.materialization_id ∷ marks.materializations }

unfoldable pub count_entries : List Entry → List (String × ℕ)
count_entries [] = []
count_entries (entry ∷ rest) =
    let counts = count_entries rest in
    insert entry.blob_id (value_or 0 (lookup entry.blob_id counts) + 1) counts

unfoldable pub mark_references : List Reference → Marks
unfolding mark
mark_references [] = record { blobs = []; materializations = [] }
mark_references (reference ∷ rest) = mark reference.target (mark_references rest)

unfoldable pub is_reclaimable : LeaseProtection → Bool
is_reclaimable protected_active = false
is_reclaimable protected_grace = false
is_reclaimable protected_live_process = false
is_reclaimable protected_uncertain = false
is_reclaimable reclaimable = true

-- `leases != nil && leases.Classify(lease) == LeaseReclaimable`; `reads` numbers the reading.
unfoldable pub is_free : Option LeaseManager → ℕ → Lease → Bool
unfolding classify is_reclaimable
is_free none reads lease = false
is_free (some manager) reads lease =
    is_reclaimable (classify (some manager) (manager.clock reads) lease)

unfoldable pub mark_leases : Option LeaseManager → ℕ → List Lease → Marks
unfolding mark is_free
mark_leases manager reads [] = record { blobs = []; materializations = [] }
mark_leases manager reads (lease ∷ rest) =
    let marks = mark_leases manager (reads + 1) rest in
    if is_free manager reads lease then marks else mark lease.target marks

unfoldable pub inspect_protections : Option LeaseManager → ℕ → Snapshot → ProtectionIndex
unfolding mark_leases mark_references count_entries
inspect_protections manager reads s = record {
  leased = mark_leases manager reads s.leases;
  referenced = mark_references s.references;
  materializations_by_entry = map (λ m. m.entry_id) s.materializations;
  entries_by_blob = count_entries s.entries;
}

unfoldable pub target_blob_protected : String → ProtectionIndex → Bool
unfolding contains
target_blob_protected blob_id p =
    contains blob_id p.leased.blobs || contains blob_id p.referenced.blobs

unfoldable pub blob_reachable_from_materialization : String → List Materialization → Bool
blob_reachable_from_materialization blob_id [] = false
blob_reachable_from_materialization blob_id (m ∷ rest) =
    m.baseline_blob_id ≐ blob_id || blob_reachable_from_materialization blob_id rest

unfoldable pub blob_reachable_from_entry : String → List Entry → Bool
blob_reachable_from_entry blob_id [] = false
blob_reachable_from_entry blob_id (entry ∷ rest) =
    entry.blob_id ≐ blob_id || blob_reachable_from_entry blob_id rest

unfoldable pub blob_reachable : String → Snapshot → Bool
unfolding blob_reachable_from_entry blob_reachable_from_materialization
blob_reachable blob_id s =
    blob_reachable_from_entry blob_id s.entries
    || blob_reachable_from_materialization blob_id s.materializations

pub record EvictionCandidate : Type 0 where
  pub kind : String
  pub id : String
  pub last_access : ℕ
  pub target : EvictionTarget

-- The map from identifiers to blobs, read for the time of the last access; 0 when missing.
unfoldable pub blob_last_access : String → List Blob → ℕ → ℕ
blob_last_access id [] found = found
blob_last_access id (blob ∷ rest) found =
    blob_last_access id rest (if blob.id ≐ id then blob.last_access_at else found)

unfoldable pub is_entry_evictable : ProtectionIndex → Bool → Entry → Bool
unfolding contains target_blob_protected
is_entry_evictable p allow_shared entry =
    not (
      entry.pinned
      || ltb 1 (value_or 0 (lookup entry.blob_id p.entries_by_blob)) && not allow_shared)
    && not (contains entry.id p.materializations_by_entry)
    && not (target_blob_protected entry.blob_id p)

unfoldable pub is_materialization_evictable : ProtectionIndex → Materialization → Bool
unfolding contains
is_materialization_evictable p m =
    not (m.pinned || not (m.state ≐ "clean"))
    && not (contains m.id p.leased.materializations)
    && not (contains m.id p.referenced.materializations)

unfoldable pub is_blob_evictable : ProtectionIndex → List Materialization → Blob → Bool
unfolding target_blob_protected blob_reachable_from_materialization
is_blob_evictable p materializations blob = not (
    not (blob.state ≐ "published")
    || not (value_or 0 (lookup blob.id p.entries_by_blob) == 0)
    || blob_reachable_from_materialization blob.id materializations
    || target_blob_protected blob.id p)

unfoldable pub entry_candidate : List Blob → Entry → EvictionCandidate
unfolding blob_last_access
entry_candidate blobs entry =
    let accessed = blob_last_access entry.blob_id blobs 0 in
    record {
      kind = "entry";
      id = entry.id;
      last_access = if ltb entry.last_access_at accessed then accessed else entry.last_access_at;
      target = entry_eviction entry.id;
    }

unfoldable pub materialization_candidate : Materialization → EvictionCandidate
materialization_candidate m = record {
  kind = "materialization";
  id = m.id;
  last_access = m.last_access_at;
  target = materialization_eviction m.id;
}

unfoldable pub blob_candidate : Blob → EvictionCandidate
blob_candidate blob = record {
  kind = "blob";
  id = blob.id;
  last_access = blob.last_access_at;
  target = blob_eviction blob.id;
}

-- A loop that appends a candidate for each record that its tests let through.
unfoldable pub collect {ℓ} :
    {A : Type ℓ} → (A → Bool) → (A → EvictionCandidate) → List A → List EvictionCandidate
collect evictable candidate [] = []
collect evictable candidate (a ∷ rest) =
    let more = collect evictable candidate rest in if evictable a then candidate a ∷ more else more

unfoldable pub enumerate_candidates : Snapshot → ProtectionIndex → Bool → List EvictionCandidate
unfolding collect is_entry_evictable is_materialization_evictable is_blob_evictable entry_candidate
    materialization_candidate blob_candidate
enumerate_candidates s p allow_shared =
    collect (is_entry_evictable p allow_shared) (entry_candidate s.blobs) s.entries
    ++ (collect (is_materialization_evictable p) materialization_candidate s.materializations
        ++ collect (is_blob_evictable p s.materializations) blob_candidate s.blobs)

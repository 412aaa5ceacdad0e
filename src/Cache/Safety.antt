-- ===== src/Cache/Safety.antt =====
-- internal/cache/quota.go: what a plan may evict.
use awesome_sftp_cli.Base.{
  ℕ, String, ◌≡◌, inl, inr, Bool, false, not, ◌&&◌, Option, arith, Bool-cases, All, string_eq, ◌≐◌,
}
use awesome_sftp_cli.Cache.Leases.{LeaseManager}
use awesome_sftp_cli.Cache.Evictions.{apply_candidate, blob_of_entry, remove_entry}
use awesome_sftp_cli.Cache.Protections.{
  is_entry_evictable, EvictionTarget, is_materialization_evictable, ProtectionIndex,
  is_blob_evictable, target_blob_protected, blob_eviction, inspect_protections, entry_eviction,
  blob_reachable, materialization_eviction,
}
use awesome_sftp_cli.Cache.Records.{Snapshot, Entry, Target, Materialization}
use awesome_sftp_cli.Cache.Removing.{IsPart}
use awesome_sftp_cli.Base.Has.{Has}
use awesome_sftp_cli.Cache.Marking.{
  IsFree, names_blob, Ignores, unprotected_blob, Frees, unprotected_materialization,
  names_materialization,
}
use awesome_sftp_cli.Cache.Candidates.{Passes, entry_passes, materialization_passes, blob_passes}
use mathlib.Core.Path.{subst}

-- An entry that is not pinned and whose blob is free; a clean materialization that is not pinned
-- and is free; a blob that is free. Free is: no reference names it, and each lease on it was
-- reclaimable when the clock was read.
pub data MayEvict (manager : Option LeaseManager) (s : Snapshot) : EvictionTarget → Type 0 where
  of_entry :
      (entry : Entry)
      → Has entry s.entries
      → entry.pinned ≡ false
      → IsFree manager s (names_blob entry.blob_id)
      → MayEvict manager s (entry_eviction entry.id)
  of_materialization :
      (m : Materialization)
      → Has m s.materializations
      → m.pinned ≡ false
      → m.state ≡ "clean"
      → IsFree manager s (names_materialization m.id)
      → MayEvict manager s (materialization_eviction m.id)
  of_blob : (id : String) → IsFree manager s (names_blob id) → MayEvict manager s (blob_eviction id)

part-IsFree :
    (manager : Option LeaseManager) (t s : Snapshot) (names : Target → Bool)
    → IsPart t s
    → IsFree manager t names
    → IsFree manager s names
part-IsFree manager t s names part f = record {
  references = subst (All (Ignores names)) part.references f.references;
  leases = subst (All (Frees manager names)) part.leases f.leases;
}

apply-targets :
    (P : EvictionTarget → Type 0) (s : Snapshot) (target : EvictionTarget) (p : ProtectionIndex)
    → P target
    → ((b : String) → target_blob_protected b p ≡ false → P (blob_eviction b))
    → All P (apply_candidate s target p).1
unfolding apply_candidate
apply-targets P s target p h k = elim (Bool-cases (target.entry_id ≐ "")) [
  | inr entry ↦
      let b = blob_of_entry target.entry_id s.entries "" in
      let s' : Snapshot = record s { entries = remove_entry target.entry_id s.entries } in
      elim (Bool-cases
        (not (b ≐ "") && not (blob_reachable b s') && not (target_blob_protected b p))) [
          | inl last ↦ rw (entry, last) (h, (k b (ground arith), tt))
          | inr shared ↦ rw (entry, shared) (h, tt)
        ]
  | inl other ↦ elim (Bool-cases (target.materialization_id ≐ "")) [
    | inr materialization ↦ rw (other, materialization) (h, tt)
    | inl blob ↦ rw (other, blob) (h, tt)
  ]
]

-- In a part of the catalog, what passes the tests may be evicted from the catalog.
pub Passes-MayEvict :
    (manager : Option LeaseManager) (reads : ℕ) (t s : Snapshot) (allow_shared : Bool)
    (target : EvictionTarget)
    → IsPart t s
    → Passes (inspect_protections manager reads t) t allow_shared target
    → MayEvict manager s target
unfolding is_entry_evictable is_materialization_evictable is_blob_evictable
Passes-MayEvict manager reads t s allow_shared target part (entry_passes entry h test) =
    of_entry entry (part.entries entry h) (ground arith) (
      part-IsFree manager t s _ part
        (unprotected_blob manager reads t entry.blob_id (ground arith)))
Passes-MayEvict manager reads t s allow_shared target part (materialization_passes m h test) =
    of_materialization m (part.materializations m h) (ground arith)
      ((string_eq.equal_iff m.state "clean").0 (ground arith))
      (part-IsFree manager t s _ part
        (unprotected_materialization manager reads t m.id (ground arith) (ground arith)))
Passes-MayEvict manager reads t s allow_shared target part (blob_passes blob h test) =
    of_blob blob.id
      (part-IsFree manager t s _ part (unprotected_blob manager reads t blob.id (ground arith)))

pub apply-MayEvict :
    (manager : Option LeaseManager) (reads : ℕ) (t s : Snapshot) (allow_shared : Bool)
    (target : EvictionTarget)
    → IsPart t s
    → Passes (inspect_protections manager reads t) t allow_shared target
    → All (MayEvict manager s) (apply_candidate t target (inspect_protections manager reads t)).1
apply-MayEvict manager reads t s allow_shared target part passes =
    apply-targets (MayEvict manager s) t target (inspect_protections manager reads t)
      (Passes-MayEvict manager reads t s allow_shared target part passes)
      (λ b free.
        of_blob b (part-IsFree manager t s _ part (unprotected_blob manager reads t b free)))

-- ===== src/Cache/Applying.antt =====
-- internal/cache/quota.go: applying a candidate keeps the catalog intact.
use awesome_sftp_cli.Base.{
  ℕ, ◌+◌, String, ◌≡◌, refl, inl, inr, Bool, true, false, not, ◌&&◌, Option, List, [], ◌∷◌, map,
  arith, Bool-cases, string_eq, ◌≐◌,
}
use awesome_sftp_cli.Cache.Protections.{
  count_entries, is_blob_evictable, blob_reachable, blob_reachable_from_entry, ProtectionIndex,
  inspect_protections, is_entry_evictable, EvictionTarget, blob_eviction,
  is_materialization_evictable, entry_eviction, materialization_eviction, target_blob_protected,
}
use awesome_sftp_cli.Cache.Leases.{LeaseManager}
use awesome_sftp_cli.Cache.Records.{Snapshot, Entry, Blob, Materialization}
use awesome_sftp_cli.Cache.Integrity.{
  IsIntact, remove_blob-IsIntact, remove_materialization-IsIntact, remove_entry-IsIntact,
}
use awesome_sftp_cli.Base.Members.{value_or, contains}
use awesome_sftp_cli.Cache.Evictions.{apply_candidate, blob_of_entry, remove_entry}
use awesome_sftp_cli.Base.Map.{lookup, lookup-insert}
use awesome_sftp_cli.Base.Has.{Has, All-at}
use awesome_sftp_cli.Cache.Candidates.{Passes, entry_passes, materialization_passes, blob_passes}
use awesome_sftp_cli.Cache.Marking.{unprotected_blob, unprotected_materialization}

uncounted :
    (b : String) (es : List Entry)
    → value_or 0 (lookup b (count_entries es)) ≡ 0
    → blob_reachable_from_entry b es ≡ false
unfolding count_entries blob_reachable_from_entry
uncounted b [] h = refl
uncounted b (e ∷ es) h =
    let counts = count_entries es in
    let n = value_or 0 (lookup e.blob_id counts) + 1 in
    ground (arith, lookup-insert e.blob_id b n counts, uncounted b es)

unreached_blob :
    (p : ProtectionIndex) (s : Snapshot) (blob : Blob)
    → p.entries_by_blob ≡ count_entries s.entries
    → is_blob_evictable p s.materializations blob ≡ true
    → blob_reachable blob.id s ≡ false
unfolding is_blob_evictable blob_reachable
unreached_blob p s blob e h = ground (arith, e, uncounted blob.id s.entries)

module _ (manager : Option LeaseManager) (reads : ℕ) (s : Snapshot) (i : IsIntact s) where
  abbrev index : ProtectionIndex
  index = inspect_protections manager reads s

  apply_entry-IsIntact :
      (e : Entry)
      → Has e s.entries
      → contains e.id (map (λ m. m.entry_id) s.materializations) ≡ false
      → IsIntact (apply_candidate s (entry_eviction e.id) index).0
  unfolding apply_candidate
  apply_entry-IsIntact e h free =
      let named = All-at (λ e. (e.id ≐ "") ≡ false) s.entries e i.entry_names h in
      let b = blob_of_entry e.id s.entries "" in
      let s' : Snapshot = record s { entries = remove_entry e.id s.entries } in
      let rest : IsIntact s' = remove_entry-IsIntact e.id s i free in
      elim (Bool-cases
        (not (b ≐ "") && not (blob_reachable b s') && not (target_blob_protected b index))) [
          | inr shared ↦ rw (named, shared) rest
          | inl last ↦
              rw (named, last)
                (remove_blob-IsIntact b s' rest (ground arith)
                  (unprotected_blob manager reads s b (ground arith)).references)
        ]

  apply_materialization-IsIntact :
      (m : Materialization)
      → Has m s.materializations
      → is_materialization_evictable index m ≡ true
      → IsIntact (apply_candidate s (materialization_eviction m.id) index).0
  unfolding apply_candidate is_materialization_evictable
  apply_materialization-IsIntact m h test =
      let named =
        All-at (λ m. (m.id ≐ "") ≡ false) s.materializations m i.materialization_names h in
      let free = unprotected_materialization manager reads s m.id (ground arith) (ground arith) in
      rw named (remove_materialization-IsIntact m.id s i free.references)

  apply_blob-IsIntact :
      (blob : Blob)
      → is_blob_evictable index s.materializations blob ≡ true
      → IsIntact (apply_candidate s (blob_eviction blob.id) index).0
  unfolding apply_candidate is_blob_evictable inspect_protections
  apply_blob-IsIntact blob test =
      remove_blob-IsIntact blob.id s i (unreached_blob index s blob refl test)
        (unprotected_blob manager reads s blob.id (ground arith)).references

  pub apply-IsIntact :
      (allow_shared : Bool) (target : EvictionTarget)
      → Passes index s allow_shared target
      → IsIntact (apply_candidate s target index).0
  unfolding is_entry_evictable inspect_protections
  apply-IsIntact allow_shared target (entry_passes e h test) =
      apply_entry-IsIntact e h (ground arith)
  apply-IsIntact allow_shared target (materialization_passes m h test) =
      apply_materialization-IsIntact m h test
  apply-IsIntact allow_shared target (blob_passes blob h test) = apply_blob-IsIntact blob test

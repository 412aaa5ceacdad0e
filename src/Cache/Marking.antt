-- ===== src/Cache/Marking.antt =====
-- internal/cache/quota.go: a record that is in no set of marks is held by no lease and no reference.
use awesome_sftp_cli.Base.{
  ℕ, ◌+◌, String, ◌≡◌, ◌⊎◌, inl, inr, Bool, true, false, not, ◌&&◌, ◌||◌, Option, List, [], ◌∷◌,
  arith, Bool-cases, All, string_eq, ◌≐◌,
}
use awesome_sftp_cli.Cache.Records.{Target, Lease, Reference, Snapshot}
use awesome_sftp_cli.Cache.Leases.{LeaseManager}
use awesome_sftp_cli.Cache.Protections.{
  inspect_protections, mark, mark_leases, mark_references, target_blob_protected, Marks, is_free,
}
use awesome_sftp_cli.Base.Members.{contains}

-- The target is the blob, or the materialization, with the identifier.
abbrev pub names_blob : String → Target → Bool
names_blob id target = not (target.blob_id ≐ "") && target.blob_id ≐ id

abbrev pub names_materialization : String → Target → Bool
names_materialization id target = target.blob_id ≐ "" && target.materialization_id ≐ id

-- The lease is for something else, or was reclaimable at a reading of the clock.
abbrev pub Frees : Option LeaseManager → (Target → Bool) → Lease → Type 0
Frees manager names lease =
    (names lease.target ≡ false) ⊎ ((reading : ℕ) × (is_free manager reading lease ≡ true))

abbrev pub Ignores : (Target → Bool) → Reference → Type 0
Ignores names reference = names reference.target ≡ false

-- No reference names it, and no lease holds it.
pub record IsFree (manager : Option LeaseManager) (s : Snapshot) (names : Target → Bool)
    : Type 0 where
  pub references : All (Ignores names) s.references
  pub leases : All (Frees manager names) s.leases

mark-blobs :
    (t : Target) (marks : Marks) (id : String)
    → contains id (mark t marks).blobs ≡ (names_blob id t || contains id marks.blobs)
unfolding mark contains
mark-blobs t marks id = ground arith

mark-materializations :
    (t : Target) (marks : Marks) (id : String)
    → contains id (mark t marks).materializations
      ≡ (names_materialization id t || contains id marks.materializations)
unfolding mark contains
mark-materializations t marks id = ground arith

references-blob :
    (id : String) (rs : List Reference)
    → contains id (mark_references rs).blobs ≡ false
    → All (Ignores (names_blob id)) rs
unfolding mark_references
references-blob id [] h = tt
references-blob id (r ∷ rs) h =
    let e = mark-blobs r.target (mark_references rs) id in
    (ground (arith, e), references-blob id rs (ground (arith, e)))

references-materialization :
    (id : String) (rs : List Reference)
    → contains id (mark_references rs).materializations ≡ false
    → All (Ignores (names_materialization id)) rs
unfolding mark_references
references-materialization id [] h = tt
references-materialization id (r ∷ rs) h =
    let e = mark-materializations r.target (mark_references rs) id in
    (ground (arith, e), references-materialization id rs (ground (arith, e)))

leases-blob :
    (manager : Option LeaseManager) (id : String) (reads : ℕ) (ls : List Lease)
    → contains id (mark_leases manager reads ls).blobs ≡ false
    → All (Frees manager (names_blob id)) ls
unfolding mark_leases
leases-blob manager id reads [] h = tt
leases-blob manager id reads (l ∷ ls) h =
    let marks = mark_leases manager (reads + 1) ls in
    let e = mark-blobs l.target marks id in
    elim (Bool-cases (is_free manager reads l)) [
      | inl free ↦ (inr (reads, free), leases-blob manager id (reads + 1) ls (ground arith))
      | inr held ↦
          (inl (ground (arith, e)), leases-blob manager id (reads + 1) ls (ground (arith, e)))
    ]

leases-materialization :
    (manager : Option LeaseManager) (id : String) (reads : ℕ) (ls : List Lease)
    → contains id (mark_leases manager reads ls).materializations ≡ false
    → All (Frees manager (names_materialization id)) ls
unfolding mark_leases
leases-materialization manager id reads [] h = tt
leases-materialization manager id reads (l ∷ ls) h =
    let marks = mark_leases manager (reads + 1) ls in
    let e = mark-materializations l.target marks id in
    elim (Bool-cases (is_free manager reads l)) [
      | inl free ↦
          (inr (reads, free), leases-materialization manager id (reads + 1) ls (ground arith))
      | inr held ↦ (
        inl (ground (arith, e)),
        leases-materialization manager id (reads + 1) ls (ground (arith, e)),
      )
    ]

pub unprotected_blob :
    (manager : Option LeaseManager) (reads : ℕ) (s : Snapshot) (id : String)
    → target_blob_protected id (inspect_protections manager reads s) ≡ false
    → IsFree manager s (names_blob id)
unfolding target_blob_protected inspect_protections
unprotected_blob manager reads s id h = record {
  references = references-blob id s.references (ground arith);
  leases = leases-blob manager id reads s.leases (ground arith);
}

pub unprotected_materialization :
    (manager : Option LeaseManager) (reads : ℕ) (s : Snapshot) (id : String)
    → contains id (inspect_protections manager reads s).leased.materializations ≡ false
    → contains id (inspect_protections manager reads s).referenced.materializations ≡ false
    → IsFree manager s (names_materialization id)
unfolding inspect_protections
unprotected_materialization manager reads s id h k = record {
  references = references-materialization id s.references k;
  leases = leases-materialization manager id reads s.leases h;
}

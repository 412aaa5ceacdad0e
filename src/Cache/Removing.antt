-- ===== src/Cache/Removing.antt =====
-- internal/cache/quota.go: applying a candidate removes its targets from the catalog and no more.
use awesome_sftp_cli.Base.{
  String, ◌≡◌, refl, ◌∙◌, inl, inr, Bool, true, false, not, ◌&&◌, List, [], ◌∷◌, ◌++◌,
  if◌then◌else◌, Bool-cases, string_eq, ◌≐◌,
}
use awesome_sftp_cli.Cache.Records.{Snapshot, Entry, Materialization}
use awesome_sftp_cli.Cache.Evictions.{
  apply_candidate, remove_entry, blob_of_entry, remove_materialization, remove_blob,
}
use awesome_sftp_cli.Cache.Protections.{
  EvictionTarget, ProtectionIndex, blob_reachable, target_blob_protected,
}
use awesome_sftp_cli.Base.Has.{Has, Has-drop_if, Has-keep_if}

-- The catalog without one target, and without a list of them.
abbrev pub evict_target : Snapshot → EvictionTarget → Snapshot
evict_target s target =
    if not (target.entry_id ≐ "")
    then record s { entries = remove_entry target.entry_id s.entries }
    else if not (target.materialization_id ≐ "")
    then record s {
      materializations = remove_materialization target.materialization_id s.materializations;
    }
    else remove_blob s target.blob_id

abbrev pub evict : Snapshot → List EvictionTarget → Snapshot
evict s [] = s
evict s (target ∷ rest) = evict (evict_target s target) rest

pub evict-append :
    (s : Snapshot) (front back : List EvictionTarget)
    → evict s (front ++ back) ≡ evict (evict s front) back
evict-append s [] back = refl
evict-append s (target ∷ front) back = evict-append (evict_target s target) front back

pub apply_candidate-evict :
    (s : Snapshot) (target : EvictionTarget) (p : ProtectionIndex)
    → (apply_candidate s target p).0 ≡ evict s (apply_candidate s target p).1
unfolding apply_candidate
apply_candidate-evict s target p = elim (Bool-cases (target.entry_id ≐ "")) [
  | inr entry ↦
      let b = blob_of_entry target.entry_id s.entries "" in
      let s' : Snapshot = record s { entries = remove_entry target.entry_id s.entries } in
      elim (Bool-cases
        (not (b ≐ "") && not (blob_reachable b s') && not (target_blob_protected b p))) [
          | inl last ↦ rw (entry, last, entry) refl
          | inr shared ↦ rw (entry, shared, entry) refl
        ]
  | inl other ↦ elim (Bool-cases (target.materialization_id ≐ "")) [
    | inr materialization ↦ rw (other, materialization, other, materialization) refl
    | inl blob ↦ rw (other, blob, other, blob) refl
  ]
]

pub Has-remove_entry :
    (id : String) (e : Entry) (es : List Entry) → Has e (remove_entry id es) → Has e es
unfolding remove_entry
Has-remove_entry id e [] h = h
Has-remove_entry id e (x ∷ es) h =
    Has-drop_if (x.id ≐ id) x e (remove_entry id es) es (Has-remove_entry id e es) h

pub Has-remove_materialization :
    (id : String) (m : Materialization) (ms : List Materialization)
    → Has m (remove_materialization id ms)
    → Has m ms
unfolding remove_materialization
Has-remove_materialization id m [] h = h
Has-remove_materialization id m (x ∷ ms) h =
    Has-keep_if (not (x.id ≐ id)) x m (remove_materialization id ms) ms
      (Has-remove_materialization id m ms) h

-- What a target leaves: records of the catalog, with the same references and leases.
pub record IsPart (t s : Snapshot) : Type 0 where
  pub entries : (e : Entry) → Has e t.entries → Has e s.entries
  pub materializations : (m : Materialization) → Has m t.materializations → Has m s.materializations
  pub references : t.references ≡ s.references
  pub leases : t.leases ≡ s.leases

IsPart-refl : (s : Snapshot) → IsPart s s
IsPart-refl s = record {
  entries = λ e h. h;
  materializations = λ m h. h;
  references = refl;
  leases = refl;
}

if-IsPart : (b : Bool) (t u s : Snapshot) → IsPart t s → IsPart u s → IsPart (if b then t else u) s
if-IsPart true t u s h k = h
if-IsPart false t u s h k = k

pub evict_target-IsPart :
    (s : Snapshot) (target : EvictionTarget) → IsPart (evict_target s target) s
unfolding remove_blob
evict_target-IsPart s target =
    if-IsPart (not (target.entry_id ≐ "")) _ _ s
      (record {
        entries = λ e. Has-remove_entry target.entry_id e s.entries;
        materializations = λ m h. h;
        references = refl;
        leases = refl;
      })
      (if-IsPart (not (target.materialization_id ≐ "")) _ _ s
        (record {
          entries = λ e h. h;
          materializations =
              λ m. Has-remove_materialization target.materialization_id m s.materializations;
          references = refl;
          leases = refl;
        })
        (record {
          entries = λ e h. h;
          materializations = λ m h. h;
          references = refl;
          leases = refl;
        }))

pub IsPart-trans : (u t s : Snapshot) → IsPart u t → IsPart t s → IsPart u s
IsPart-trans u t s h k = record {
  entries = λ e m. k.entries e (h.entries e m);
  materializations = λ a m. k.materializations a (h.materializations a m);
  references = h.references ∙ k.references;
  leases = h.leases ∙ k.leases;
}

pub evict-IsPart : (s : Snapshot) (targets : List EvictionTarget) → IsPart (evict s targets) s
evict-IsPart s [] = IsPart-refl s
evict-IsPart s (target ∷ rest) =
    IsPart-trans (evict (evict_target s target) rest) (evict_target s target) s
      (evict-IsPart (evict_target s target) rest) (evict_target-IsPart s target)

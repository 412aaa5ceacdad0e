-- ===== src/Cache/Integrity.antt =====
-- internal/cache/quota.go: evictions leave no record without what it refers to.
use awesome_sftp_cli.Base.{
  ℕ, ◌≤◌, String, ◌≡◌, ap, inl, inr, true, false, List, [], ◌∷◌, map, arith, Bool-cases, All,
  string_eq, ◌≐◌,
}
use awesome_sftp_cli.Cache.Records.{Snapshot, Entry, Materialization, Reference, Blob}
use awesome_sftp_cli.Cache.Validation.{
  target_exists, valid_entries, valid_materializations, valid_references, valid_snapshot, blob_ids,
  entry_ids, materialization_ids, valid_entry, valid_materialization,
}
use awesome_sftp_cli.Base.Members.{contains}
use awesome_sftp_cli.Cache.Evictions.{
  remove_blob, remove_entry, remove_materialization, remove_from_blobs,
}
use awesome_sftp_cli.Cache.Protections.{
  blob_reachable_from_entry, blob_reachable_from_materialization, blob_reachable,
}
use awesome_sftp_cli.Base.Has.{All-zip}
use awesome_sftp_cli.Cache.Marking.{Ignores, names_blob, names_materialization}
use awesome_sftp_cli.Cache.Ids.{is_lower_hex_id, content_id_hex_length, random_id_hex_length}
use Prim.Native.String.{len}

-- Each entry has its blob, each materialization its entry and its baseline, and each reference its
-- target; no identifier of an entry or a materialization is empty.
pub record IsIntact (s : Snapshot) : Type 0 where
  pub entry_names : All (λ e. (e.id ≐ "") ≡ false) s.entries
  pub materialization_names : All (λ m. (m.id ≐ "") ≡ false) s.materializations
  pub entries : All (λ e. contains e.blob_id (blob_ids s.blobs) ≡ true) s.entries
  pub owners : All (λ m. contains m.entry_id (entry_ids s.entries) ≡ true) s.materializations
  pub baselines :
      All (λ m. contains m.baseline_blob_id (blob_ids s.blobs) ≡ true) s.materializations
  pub references :
      All
        (λ r.
          target_exists r.target (blob_ids s.blobs) (materialization_ids s.materializations) ≡ true)
        s.references

id_named :
    (width : ℕ) (id : String) → 1 ≤ width → is_lower_hex_id width id ≡ true → (id ≐ "") ≡ false
unfolding is_lower_hex_id
id_named width id h v = elim (Bool-cases (id ≐ "")) [
  | inr named ↦ named
  | inl empty ↦ let e = ap len ((string_eq.equal_iff id "").0 empty) in absurd (ground (arith, e))
]

valid-entries :
    (blobs seen : List String) (es : List Entry)
    → valid_entries blobs seen es ≡ true
    → All (λ e. (e.id ≐ "") ≡ false) es × All (λ e. contains e.blob_id blobs ≡ true) es
unfolding valid_entries valid_entry
valid-entries blobs seen [] h = (tt, tt)
valid-entries blobs seen (e ∷ es) h =
    let more = valid-entries blobs (e.id ∷ seen) es (ground arith) in
    let named = id_named content_id_hex_length e.id (omega arith) (ground arith) in
    ((named, more.0), (ground arith, more.1))

valid-materializations :
    (blobs entries seen : List String) (ms : List Materialization)
    → valid_materializations blobs entries seen ms ≡ true
    → All (λ m. (m.id ≐ "") ≡ false) ms
      × All (λ m. contains m.entry_id entries ≡ true) ms
      × All (λ m. contains m.baseline_blob_id blobs ≡ true) ms
unfolding valid_materializations valid_materialization
valid-materializations blobs entries seen [] h = (tt, tt, tt)
valid-materializations blobs entries seen (m ∷ ms) h =
    let more = valid-materializations blobs entries (m.id ∷ seen) ms (ground arith) in
    let named = id_named random_id_hex_length m.id (omega arith) (ground arith) in
    ((named, more.0), (ground arith, more.1), (ground arith, more.2))

valid-references :
    (blobs materializations seen : List String) (rs : List Reference)
    → valid_references blobs materializations seen rs ≡ true
    → All (λ r. target_exists r.target blobs materializations ≡ true) rs
unfolding valid_references
valid-references blobs materializations seen [] h = tt
valid-references blobs materializations seen (r ∷ rs) h =
    (ground arith, valid-references blobs materializations (r.id ∷ seen) rs (ground arith))

pub valid-IsIntact : (s : Snapshot) → valid_snapshot s ≡ true → IsIntact s
unfolding valid_snapshot
valid-IsIntact s h =
    let ms =
      valid-materializations (blob_ids s.blobs) (entry_ids s.entries) [] s.materializations
        (ground arith) in
    let es = valid-entries (blob_ids s.blobs) [] s.entries (ground arith) in
    record {
      entry_names = es.0;
      materialization_names = ms.0;
      entries = es.1;
      owners = ms.1;
      baselines = ms.2;
      references =
          valid-references (blob_ids s.blobs) (materialization_ids s.materializations) []
            s.references (ground arith);
    }

contains-remove_blob :
    (id x : String) (bs : List Blob)
    → (x ≐ id) ≡ false
    → contains x (blob_ids bs) ≡ true
    → contains x (blob_ids (remove_from_blobs id bs)) ≡ true
unfolding contains remove_from_blobs
contains-remove_blob id x [] h k = cc
contains-remove_blob id x (b ∷ bs) h k = ground (
  arith,
  string_eq.equal_iff b.id x,
  string_eq.equal_iff b.id id,
  string_eq.equal_iff x id,
  contains-remove_blob id x bs h,
)

contains-remove_entry :
    (id x : String) (es : List Entry)
    → (x ≐ id) ≡ false
    → contains x (entry_ids es) ≡ true
    → contains x (entry_ids (remove_entry id es)) ≡ true
unfolding contains remove_entry
contains-remove_entry id x [] h k = cc
contains-remove_entry id x (e ∷ es) h k = ground (
  arith,
  string_eq.equal_iff e.id x,
  string_eq.equal_iff e.id id,
  string_eq.equal_iff x id,
  contains-remove_entry id x es h,
)

contains-remove_materialization :
    (id x : String) (ms : List Materialization)
    → (x ≐ id) ≡ false
    → contains x (materialization_ids ms) ≡ true
    → contains x (materialization_ids (remove_materialization id ms)) ≡ true
unfolding contains remove_materialization
contains-remove_materialization id x [] h k = cc
contains-remove_materialization id x (m ∷ ms) h k = ground (
  arith,
  string_eq.equal_iff m.id x,
  string_eq.equal_iff m.id id,
  string_eq.equal_iff x id,
  contains-remove_materialization id x ms h,
)

-- What holds of every record holds of those that are left.
All-remove_entry :
    (P : Entry → Type 0) (id : String) (es : List Entry) → All P es → All P (remove_entry id es)
unfolding remove_entry
All-remove_entry P id [] h = tt
All-remove_entry P id (e ∷ es) h = elim (Bool-cases (e.id ≐ id)) [
  | inl gone ↦ rw gone (All-remove_entry P id es h.1)
  | inr kept ↦ rw kept (h.0, All-remove_entry P id es h.1)
]

All-remove_materialization :
    (P : Materialization → Type 0) (id : String) (ms : List Materialization)
    → All P ms
    → All P (remove_materialization id ms)
unfolding remove_materialization
All-remove_materialization P id [] h = tt
All-remove_materialization P id (m ∷ ms) h = elim (Bool-cases (m.id ≐ id)) [
  | inl gone ↦ rw gone (All-remove_materialization P id ms h.1)
  | inr kept ↦ rw kept (h.0, All-remove_materialization P id ms h.1)
]

unreached_entries :
    (b : String) (es : List Entry)
    → blob_reachable_from_entry b es ≡ false
    → All (λ e. (e.blob_id ≐ b) ≡ false) es
unfolding blob_reachable_from_entry
unreached_entries b [] h = tt
unreached_entries b (e ∷ es) h = (ground arith, unreached_entries b es (ground arith))

unreached_materializations :
    (b : String) (ms : List Materialization)
    → blob_reachable_from_materialization b ms ≡ false
    → All (λ m. (m.baseline_blob_id ≐ b) ≡ false) ms
unfolding blob_reachable_from_materialization
unreached_materializations b [] h = tt
unreached_materializations b (m ∷ ms) h =
    (ground arith, unreached_materializations b ms (ground arith))

blob_target :
    (b : String) (r : Reference) (bs : List Blob) (ids : List String)
    → names_blob b r.target ≡ false
    → target_exists r.target (blob_ids bs) ids ≡ true
    → target_exists r.target (blob_ids (remove_from_blobs b bs)) ids ≡ true
unfolding target_exists
blob_target b r bs ids h k = ground (arith, contains-remove_blob b r.target.blob_id bs)

pub remove_blob-IsIntact :
    (b : String) (s : Snapshot)
    → IsIntact s
    → blob_reachable b s ≡ false
    → All (Ignores (names_blob b)) s.references
    → IsIntact (remove_blob s b)
unfolding remove_blob blob_reachable
remove_blob-IsIntact b s i h free = record {
  entry_names = i.entry_names;
  materialization_names = i.materialization_names;
  entries =
      All-zip _ _ _ s.entries
        (λ e unreached there. contains-remove_blob b e.blob_id s.blobs unreached there)
        (unreached_entries b s.entries (ground arith)) i.entries;
  owners = i.owners;
  baselines =
      All-zip _ _ _ s.materializations
        (λ m unreached there. contains-remove_blob b m.baseline_blob_id s.blobs unreached there)
        (unreached_materializations b s.materializations (ground arith)) i.baselines;
  references =
      All-zip _ _ _ s.references
        (λ r ignored there.
          blob_target b r s.blobs (materialization_ids s.materializations) ignored there)
        free i.references;
}

unowned :
    (id : String) (ms : List Materialization)
    → contains id (map (λ m. m.entry_id) ms) ≡ false
    → All (λ m. (m.entry_id ≐ id) ≡ false) ms
unfolding contains
unowned id [] h = tt
unowned id (m ∷ ms) h = (ground arith, unowned id ms (ground arith))

pub remove_entry-IsIntact :
    (id : String) (s : Snapshot)
    → IsIntact s
    → contains id (map (λ m. m.entry_id) s.materializations) ≡ false
    → IsIntact (record s { entries = remove_entry id s.entries })
remove_entry-IsIntact id s i h = record {
  entry_names = All-remove_entry _ id s.entries i.entry_names;
  materialization_names = i.materialization_names;
  entries = All-remove_entry _ id s.entries i.entries;
  owners =
      All-zip _ _ _ s.materializations
        (λ m other there. contains-remove_entry id m.entry_id s.entries other there)
        (unowned id s.materializations h) i.owners;
  baselines = i.baselines;
  references = i.references;
}

materialization_target :
    (id : String) (r : Reference) (ids : List String) (ms : List Materialization)
    → names_materialization id r.target ≡ false
    → target_exists r.target ids (materialization_ids ms) ≡ true
    → target_exists r.target ids (materialization_ids (remove_materialization id ms)) ≡ true
unfolding target_exists
materialization_target id r ids ms h k =
    ground (arith, contains-remove_materialization id r.target.materialization_id ms)

pub remove_materialization-IsIntact :
    (id : String) (s : Snapshot)
    → IsIntact s
    → All (Ignores (names_materialization id)) s.references
    → IsIntact (record s { materializations = remove_materialization id s.materializations })
remove_materialization-IsIntact id s i free = record {
  entry_names = i.entry_names;
  materialization_names =
      All-remove_materialization _ id s.materializations i.materialization_names;
  entries = i.entries;
  owners = All-remove_materialization _ id s.materializations i.owners;
  baselines = All-remove_materialization _ id s.materializations i.baselines;
  references =
      All-zip _ _ _ s.references
        (λ r ignored there.
          materialization_target id r (blob_ids s.blobs) s.materializations ignored there)
        free i.references;
}

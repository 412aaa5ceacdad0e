-- ===== src/Cache/Totals.antt =====
-- internal/cache/quota.go: what a catalog holds in all, and when its usage can be counted.
use awesome_sftp_cli.Base.{
  ℕ, ◌+◌, ◌≤◌, String, ◌≡◌, refl, sym, inl, inr, List, [], ◌∷◌, arith, Bool-cases, length, Result,
  ok, ◌>>=◌, ok-injective, >>=-eq-ok, string_eq, ◌≐◌,
}
use awesome_sftp_cli.Cache.Records.{Blob, Materialization, Snapshot, Entry}
use awesome_sftp_cli.Cache.Accounting.{
  Usage, add_global, add_to_workspace, charge_blob, CacheError, add_bytes, max_int64, account_blobs,
  account_materializations, account_validated, note_workspaces, workspace_of_entry, workspaces_of,
}
use awesome_sftp_cli.Base.Members.{value_or}
use awesome_sftp_cli.Base.Map.{lookup, insert, lookup-insert}
use native.Mathlib.Nat.{le_trans}
use mathlib.Core.Path.{subst}
use awesome_sftp_cli.Cache.Evictions.{remove_blob, remove_from_blobs, remove_materialization}
use awesome_sftp_cli.Cache.Protections.{EvictionTarget}
use awesome_sftp_cli.Cache.Removing.{evict, evict_target}

abbrev pub blobs_total : List Blob → ℕ
blobs_total [] = 0
blobs_total (blob ∷ rest) = blob.size + blobs_total rest

abbrev pub materializations_total : List Materialization → ℕ
materializations_total [] = 0
materializations_total (m ∷ rest) = m.size + materializations_total rest

-- The bytes of the files that a catalog names, each file once.
abbrev pub total_bytes : Snapshot → ℕ
total_bytes s = blobs_total s.blobs + materializations_total s.materializations

-- No workspace is charged more than the whole, and neither is what workspaces share.
pub record Covered (usage : Usage) : Type 0 where
  pub workspaces : (id : String) → value_or 0 (lookup id usage.workspaces) ≤ usage.global.bytes
  pub shared : usage.shared_bytes ≤ usage.global.bytes

add_global-eq :
    (usage : Usage) (size : ℕ)
    → usage.global.bytes + size ≤ max_int64
    → add_global usage size
      ≡ ok (record usage { global = record usage.global { bytes = usage.global.bytes + size } })
unfolding add_global add_bytes
add_global-eq usage size h = ground arith

add_bytes-eq : (a b : ℕ) → a + b ≤ max_int64 → add_bytes a b ≡ ok (a + b)
unfolding add_bytes
add_bytes-eq a b h = ground arith

add_to_workspace-eq :
    (id : String) (size : ℕ) (ws : List (String × ℕ))
    → value_or 0 (lookup id ws) + size ≤ max_int64
    → add_to_workspace id size ws ≡ ok (insert id (value_or 0 (lookup id ws) + size) ws)
unfolding add_to_workspace add_bytes
add_to_workspace-eq id size ws h = ground arith

inserted-le :
    (id : String) (v g g' : ℕ) (ws : List (String × ℕ))
    → ((id : String) → value_or 0 (lookup id ws) ≤ g)
    → g ≤ g'
    → v ≤ g'
    → (k : String) → value_or 0 (lookup k (insert id v ws)) ≤ g'
inserted-le id v g g' ws h le lv k = ground (arith, lookup-insert id k v ws, h k)

-- Charging a file that the whole has room for.
abbrev Charged : Usage → ℕ → Result CacheError Usage → Type 0
Charged usage size r =
    (usage' : Usage) × (r ≡ ok usage')
    × Covered usage'
    × (usage'.global.bytes ≡ usage.global.bytes + size)

charge-Charged :
    (usage : Usage) (size : ℕ) (owners : List String)
    → Covered usage
    → usage.global.bytes + size ≤ max_int64
    → Charged usage size (add_global usage size >>= λ counted. charge_blob counted size owners)
unfolding charge_blob
charge-Charged usage size [] c h = rw (add_global-eq usage size h) (
  _,
  refl,
  record { workspaces = λ id. le_trans (c.workspaces id) (omega arith); shared = omega arith },
  refl,
)
charge-Charged usage size (w ∷ []) c h =
    let held = c.workspaces w in
    rw (add_global-eq usage size h, add_to_workspace-eq w size usage.workspaces (omega arith))
      (
        _,
        refl,
        record {
          workspaces =
              inserted-le w _ usage.global.bytes (usage.global.bytes + size) usage.workspaces
                c.workspaces (omega arith) (omega arith);
          shared = omega arith;
        },
        refl,
      )
charge-Charged usage size (w ∷ v ∷ rest) c h =
    rw (add_global-eq usage size h, add_bytes-eq usage.shared_bytes size (omega arith))
      (
        _,
        refl,
        record {
          workspaces = λ id. le_trans (c.workspaces id) (omega arith);
          shared = omega arith;
        },
        refl,
      )

blobs-Charged :
    (entries : List Entry) (blobs : List Blob) (usage : Usage)
    → Covered usage
    → usage.global.bytes + blobs_total blobs ≤ max_int64
    → Charged usage (blobs_total blobs) (account_blobs entries blobs usage)
unfolding account_blobs
blobs-Charged entries [] usage c h = (usage, refl, c, omega arith)
blobs-Charged entries (blob ∷ rest) usage c h =
    let (usage', e, c', g) =
      charge-Charged usage blob.size (workspaces_of blob.id entries []) c (omega arith) in
    let (last, e', c'', g') = blobs-Charged entries rest usage' c' (omega arith) in
    let (counted, a, b) =
      >>=-eq-ok (add_global usage blob.size)
        (λ counted. charge_blob counted blob.size (workspaces_of blob.id entries [])) e in
    (last, rw (a, b) e', c'', omega arith)

materializations-Charged :
    (entries : List Entry) (ms : List Materialization) (usage : Usage)
    → Covered usage
    → usage.global.bytes + materializations_total ms ≤ max_int64
    → Charged usage (materializations_total ms) (account_materializations entries ms usage)
unfolding account_materializations charge_blob
materializations-Charged entries [] usage c h = (usage, refl, c, omega arith)
materializations-Charged entries (m ∷ rest) usage c h =
    let w = workspace_of_entry m.entry_id entries "" in
    let (usage', e, c', g) =
      charge-Charged usage m.size (workspace_of_entry m.entry_id entries "" ∷ []) c (omega arith) in
    let (last, e', c'', g') = materializations-Charged entries rest usage' c' (omega arith) in
    let (counted, a, b) =
      >>=-eq-ok (add_global usage m.size) (λ counted. charge_blob counted m.size (w ∷ [])) e in
    let (workspaces, d, f) =
      >>=-eq-ok (add_to_workspace w m.size counted.workspaces)
        (λ workspaces. ok (record counted { workspaces = workspaces })) b in
    (
      last,
      rw (a, d)
          (subst (λ u. account_materializations entries rest u ≡ ok last) (sym (ok-injective f))
            e'),
      c'',
      omega arith,
    )

noted-le :
    (entries : List Entry) (ws : List (String × ℕ))
    → ((id : String) → value_or 0 (lookup id ws) ≤ 0)
    → (id : String) → value_or 0 (lookup id (note_workspaces entries ws)) ≤ 0
unfolding note_workspaces
noted-le [] ws h id = h id
noted-le (e ∷ es) ws h id =
    noted-le es _ (inserted-le e.workspace_id _ 0 0 ws h (omega arith) (h e.workspace_id)) id

-- A catalog whose bytes an int64 holds is accounted for, and its bytes are the global usage.
pub account-total :
    (s : Snapshot)
    → total_bytes s ≤ max_int64
    → (usage : Usage) × (account_validated s ≡ ok usage) × (usage.global.bytes ≡ total_bytes s)
unfolding account_validated lookup
account-total s h =
    let empty : Usage = record {
      global = record { bytes = 0; entries = length s.entries };
      materializations = length s.materializations;
      workspaces = note_workspaces s.entries [];
      shared_bytes = 0;
    } in
    let covered : Covered empty = record {
      workspaces = noted-le s.entries [] (λ id. omega arith);
      shared = omega arith;
    } in
    let (usage, e, c, g) = blobs-Charged s.entries s.blobs empty covered (omega arith) in
    let (last, e', c', g') =
      materializations-Charged s.entries s.materializations usage c (omega arith) in
    (last, rw e e', omega arith)

blobs_total-remove :
    (id : String) (blobs : List Blob) → blobs_total (remove_from_blobs id blobs) ≤ blobs_total blobs
unfolding remove_from_blobs
blobs_total-remove id [] = omega arith
blobs_total-remove id (blob ∷ rest) = ground (arith, blobs_total-remove id rest)

materializations_total-remove :
    (id : String) (ms : List Materialization)
    → materializations_total (remove_materialization id ms) ≤ materializations_total ms
unfolding remove_materialization
materializations_total-remove id [] = omega arith
materializations_total-remove id (m ∷ rest) = ground (arith, materializations_total-remove id rest)

total_bytes-evict_target :
    (s : Snapshot) (target : EvictionTarget) → total_bytes (evict_target s target) ≤ total_bytes s
unfolding remove_blob
total_bytes-evict_target s target =
    let b = blobs_total-remove target.blob_id s.blobs in
    let m = materializations_total-remove target.materialization_id s.materializations in
    elim (Bool-cases (target.entry_id ≐ "")) [
      | inr entry ↦ rw entry (omega arith)
      | inl other ↦ elim (Bool-cases (target.materialization_id ≐ "")) [
        | inr materialization ↦ rw (other, materialization) (omega arith)
        | inl blob ↦ rw (other, blob) (omega arith)
      ]
    ]

pub total_bytes-evict :
    (s : Snapshot) (targets : List EvictionTarget) → total_bytes (evict s targets) ≤ total_bytes s
total_bytes-evict s [] = omega arith
total_bytes-evict s (target ∷ rest) =
    le_trans (total_bytes-evict (evict_target s target) rest) (total_bytes-evict_target s target)

-- ===== src/Base/Map/Totals.antt =====
-- The sum of a measure over a map's values.
use awesome_sftp_cli.Base.{ℕ, ◌+◌, ◌≡◌, none, some, List, [], ◌∷◌, arith, Eq}
use awesome_sftp_cli.Base.Map.{lookup, insert, delete}
use awesome_sftp_cli.Base.Map.Keys.{Unique, delete_missing}

module _ {ℓ κ} {K : Type ℓ} {V : Type κ} (f : V → ℕ) where
  abbrev pub total : List (K × V) → ℕ
  total [] = 0
  total ((j, v) ∷ m) = f v + total m

module _ {ℓ κ} {K : Type ℓ} {V : Type κ} ⦃e : Eq K⦄ (f : V → ℕ) where
  pub total-insert :
      (k : K) (v : V) (m : List (K × V))
      → lookup k m ≡ none
      → total f (insert k v m) ≡ total f m + f v
  unfolding lookup insert
  total-insert k v [] h = omega arith
  total-insert k v ((i, w) ∷ m) h = ground (arith, total-insert k v m)

  pub total-delete :
      (k : K) (v : V) (m : List (K × V))
      → Unique m
      → lookup k m ≡ some v
      → total f (delete k m) + f v ≡ total f m
  unfolding lookup delete
  total-delete k v [] u h = cc
  total-delete k v ((i, w) ∷ m) u h =
      ground (arith, total-delete k v m u.1, delete_missing k m, e.equal_iff i k)

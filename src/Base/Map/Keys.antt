-- ===== src/Base/Map/Keys.antt =====
-- Maps that hold each key once: what an insertion and a deletion do to the size.
use awesome_sftp_cli.Base.{◌+◌, ◌≡◌, refl, none, some, List, [], ◌∷◌, arith, Eq, length}
use awesome_sftp_cli.Base.Map.{lookup, insert, delete, lookup-insert, lookup-delete}

module _ {ℓ κ} {K : Type ℓ} {V : Type κ} ⦃e : Eq K⦄ where
  -- No key stands twice.
  abbrev pub Unique : List (K × V) → Type κ
  Unique [] = Unit
  Unique ((j, w) ∷ m) = (lookup j m ≡ none) × Unique m

  pub insert-Unique : (k : K) (v : V) (m : List (K × V)) → Unique m → Unique (insert k v m)
  unfolding lookup insert
  insert-Unique k v [] u = (refl, tt)
  insert-Unique k v ((i, w) ∷ m) u =
      ground
        (arith, insert-Unique k v m u.1, lookup-insert k i v m, e.equal_iff k i, e.equal_iff i k)

  pub delete-Unique : (k : K) (m : List (K × V)) → Unique m → Unique (delete k m)
  unfolding lookup delete
  delete-Unique k [] u = tt
  delete-Unique k ((i, w) ∷ m) u =
      ground (arith, delete-Unique k m u.1, lookup-delete k i m, e.equal_iff k i, e.equal_iff i k)

  pub delete_missing : (k : K) (m : List (K × V)) → lookup k m ≡ none → delete k m ≡ m
  unfolding lookup delete
  delete_missing k [] h = refl
  delete_missing k ((i, w) ∷ m) h = ground (arith, delete_missing k m)

  pub length-insert :
      (k : K) (v : V) (m : List (K × V)) → lookup k m ≡ none → length (insert k v m) ≡ length m + 1
  unfolding lookup insert
  length-insert k v [] h = omega arith
  length-insert k v ((i, w) ∷ m) h = ground (arith, length-insert k v m)

  pub length-insert_present :
      (k : K) (v w : V) (m : List (K × V)) → lookup k m ≡ some w → length (insert k v m) ≡ length m
  unfolding lookup insert
  length-insert_present k v w [] h = cc
  length-insert_present k v w ((i, x) ∷ m) h = ground (arith, length-insert_present k v w m)

  pub length-delete :
      (k : K) (w : V) (m : List (K × V))
      → Unique m
      → lookup k m ≡ some w
      → length (delete k m) + 1 ≡ length m
  unfolding lookup delete
  length-delete k w [] u h = cc
  length-delete k w ((i, x) ∷ m) u h =
      ground (arith, length-delete k w m u.1, delete_missing k m, e.equal_iff i k)

  pub delete-insert :
      (k : K) (v : V) (m : List (K × V)) → lookup k m ≡ none → delete k (insert k v m) ≡ m
  unfolding lookup insert delete
  delete-insert k v [] h = ground (arith, e.equal_iff k k)
  delete-insert k v ((i, w) ∷ m) h = ground (arith, delete-insert k v m)

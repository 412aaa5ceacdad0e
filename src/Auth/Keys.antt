-- ===== src/Auth/Keys.antt =====
-- internal/auth/broker.go: the order of the challenges against the map of them.
use awesome_sftp_cli.Base.{
  ℕ, String, ◌≡◌, refl, ap, ◌∙◌, Option, none, some, List, [], ◌∷◌, ◌++◌, map, arith, ◌==◌,
  if◌then◌else◌, string_eq,
}
use awesome_sftp_cli.Base.Map.{lookup, insert, delete}
use awesome_sftp_cli.Base.Map.Keys.{Unique, delete_missing}
use awesome_sftp_cli.Auth.{ChallengeState, disown, remove_ordered}

abbrev pub keys : {V : Type 0} → List (String × V) → List String
keys = map (λ entry. entry.0)

pub keys-insert :
    {V : Type 0} (id : String) (v : V) (m : List (String × V))
    → lookup id m ≡ none
    → keys (insert id v m) ≡ keys m ++ (id ∷ [])
unfolding lookup insert
keys-insert id v [] h = refl
keys-insert id v ((i, w) ∷ m) h = ground (arith, keys-insert id v m)

pub keys-update :
    {V : Type 0} (id : String) (v w : V) (m : List (String × V))
    → lookup id m ≡ some w
    → keys (insert id v m) ≡ keys m
unfolding lookup insert
keys-update id v w [] h = cc
keys-update id v w ((i, x) ∷ m) h = ground (arith, keys-update id v w m)

pub keys-delete :
    {V : Type 0} (id : String) (m : List (String × V))
    → Unique m
    → remove_ordered id (keys m) ≡ keys (delete id m)
unfolding lookup delete remove_ordered
keys-delete id [] u = refl
keys-delete id ((i, w) ∷ m) u =
    ground (arith, keys-delete id m u.1, delete_missing id m, string_eq.equal_iff i id)

pub keys-disown : (owner : ℕ) (m : List (String × ChallengeState)) → keys (disown owner m) ≡ keys m
unfolding disown
keys-disown owner [] = refl
keys-disown owner ((id, state) ∷ m) = ap (λ rest. id ∷ rest) (keys-disown owner m)

-- A challenge that its owner leaves has none.
abbrev pub left_by : ℕ → Option ChallengeState → Option ChallengeState
left_by owner none = none
left_by owner (some state) =
    some (if state.owner == owner then record state { owner = 0 } else state)

pub lookup-disown :
    (owner : ℕ) (id : String) (m : List (String × ChallengeState))
    → lookup id (disown owner m) ≡ left_by owner (lookup id m)
unfolding disown lookup
lookup-disown owner id [] = refl
lookup-disown owner id ((i, state) ∷ m) = ground (arith, lookup-disown owner id m)

pub disown-Unique :
    (owner : ℕ) (m : List (String × ChallengeState)) → Unique m → Unique (disown owner m)
unfolding disown
disown-Unique owner [] u = tt
disown-Unique owner ((id, state) ∷ m) u =
    (lookup-disown owner id m ∙ ap (left_by owner) u.0, disown-Unique owner m u.1)

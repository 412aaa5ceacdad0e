-- ===== src/Base/Has.antt =====
-- Membership in a list, by recursion.
use mathlib.Core.Path.{◌≡◌, subst}
use mathlib.Core.Logic.{◌⊎◌, inl, inr}
use mathlib.Core.Bool.{Bool, true, false}
use mathlib.Core.List.{List, [], ◌∷◌, ◌++◌}
use awesome_sftp_cli.Base.Tests.{if◌then◌else◌}
use awesome_sftp_cli.Base.Lists.{All}

module _ {A : Type 0} where
  abbrev pub Has : A → List A → Type 0
  Has a [] = ⊥
  Has a (x ∷ xs) = (x ≡ a) ⊎ Has a xs

pub All-append {ℓ κ} :
    {A : Type ℓ} (P : A → Type κ) (front back : List A)
    → All P front
    → All P back
    → All P (front ++ back)
All-append P [] back none_left rest = rest
All-append P (a ∷ front) back (first, more) rest = (first, All-append P front back more rest)

-- Two predicates that hold everywhere give a third.
pub All-zip {ℓ κ μ ν} :
    {A : Type ℓ} (P : A → Type κ) (Q : A → Type μ) (R : A → Type ν) (xs : List A)
    → ((a : A) → P a → Q a → R a)
    → All P xs
    → All Q xs
    → All R xs
All-zip P Q R [] f h k = tt
All-zip P Q R (x ∷ xs) f h k = (f x h.0 k.0, All-zip P Q R xs f h.1 k.1)

-- A loop that drops the first element or keeps it.
pub Has-drop_if :
    {A : Type 0} (drop : Bool) (x a : A) (rest xs : List A)
    → (Has a rest → Has a xs)
    → Has a (if drop then rest else x ∷ rest)
    → Has a (x ∷ xs)
Has-drop_if true x a rest xs f h = inr (f h)
Has-drop_if false x a rest xs f (inl p) = inl p
Has-drop_if false x a rest xs f (inr q) = inr (f q)

pub Has-keep_if :
    {A : Type 0} (keep : Bool) (x a : A) (rest xs : List A)
    → (Has a rest → Has a xs)
    → Has a (if keep then x ∷ rest else rest)
    → Has a (x ∷ xs)
Has-keep_if false x a rest xs f h = inr (f h)
Has-keep_if true x a rest xs f (inl p) = inl p
Has-keep_if true x a rest xs f (inr q) = inr (f q)

pub All-at {κ} : {A : Type 0} (P : A → Type κ) (xs : List A) (a : A) → All P xs → Has a xs → P a
All-at P [] a h m = absurd m
All-at P (x ∷ xs) a h (inl e) = subst P e h.0
All-at P (x ∷ xs) a h (inr m) = All-at P xs a h.1 m

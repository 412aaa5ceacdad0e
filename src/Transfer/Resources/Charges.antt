-- ===== src/Transfer/Resources/Charges.antt =====
-- What the loops of acquireLocked and release do to the amount of each key.
use text.Mathlib.Text.{◌==◌ as str_beq}
use text.Mathlib.TextEquality.{eq_iff}
use awesome_sftp_cli.Base.{
  ℕ, ◌+◌, ◌-◌, ◌%◌, ◌<◌, String, ◌≡◌, refl, sym, ◌∙◌, Bool, true, false, List, [], ◌∷◌, arith,
  if◌then◌else◌, string_eq,
}
use awesome_sftp_cli.Base.Map.{insert, lookup-insert, lookup-delete}
use awesome_sftp_cli.Transfer.Usage.{
  Field, ResourceUsage, modulus, zero_usage, add_usage, subtract_usage, is_zero, active_jobs, get,
}
use awesome_sftp_cli.Transfer.Resources.{
  ResourceRequest, usage_at, contains, endpoint_usage, charge, refund, settle,
}
use native.Mathlib.Nat.{zero-add}
use awesome_sftp_cli.Transfer.Resources.Columns.{
  usage_ext, get-zero_usage, is_zero-get, get-add_usage, get-subtract_usage,
}

pub usage_at-insert :
    (k j : String) (u : ResourceUsage) (m : List (String × ResourceUsage))
    → usage_at j (insert k u m) ≡ (if str_beq k j then u else usage_at j m)
unfolding usage_at
usage_at-insert k j u m = ground (arith, lookup-insert k j u m)

zero_of_is_zero : (u : ResourceUsage) → is_zero u ≡ true → zero_usage ≡ u
zero_of_is_zero u h = usage_ext zero_usage u (λ f. get-zero_usage f ∙ sym (is_zero-get u h f))

-- Deleting a key reads as writing the zero amount.
pub usage_at-settle :
    (k j : String) (u : ResourceUsage) (m : List (String × ResourceUsage))
    → usage_at j (settle k u m) ≡ (if str_beq k j then u else usage_at j m)
unfolding usage_at settle
usage_at-settle k j u m =
    ground (arith, lookup-insert k j u m, lookup-delete k j m, zero_of_is_zero u)

-- One amount updated in place, and in place or deleted.
pub usage_at-update :
    (g : ResourceUsage → ResourceUsage) (k j : String) (m : List (String × ResourceUsage))
    → usage_at j (insert k (g (usage_at k m)) m)
      ≡ (if str_beq k j then g (usage_at j m) else usage_at j m)
usage_at-update g k j m = ground (arith, usage_at-insert k j (g (usage_at k m)) m, eq_iff k j)

pub usage_at-update_settle :
    (g : ResourceUsage → ResourceUsage) (k j : String) (m : List (String × ResourceUsage))
    → usage_at j (settle k (g (usage_at k m)) m)
      ≡ (if str_beq k j then g (usage_at j m) else usage_at j m)
usage_at-update_settle g k j m =
    ground (arith, usage_at-settle k j (g (usage_at k m)) m, eq_iff k j)

-- No endpoint stands twice, and none is empty.
abbrev pub Distinct : List String → Type 0
Distinct [] = Unit {0}
Distinct (e ∷ es) = (contains es e ≡ false) × Distinct es

pub usage_at-charge :
    (r : ResourceRequest) (es : List String) (m : List (String × ResourceUsage)) (j : String)
    → Distinct es
    → usage_at j (charge r es m)
      ≡ (if contains es j then add_usage (usage_at j m) (endpoint_usage r j) else usage_at j m)
unfolding charge contains
usage_at-charge r [] m j d = refl
usage_at-charge r (e ∷ es) m j d =
    let u = add_usage (usage_at e m) (endpoint_usage r e) in
    ground (arith, usage_at-charge r es (insert e u m) j d.1, usage_at-insert e j u m, eq_iff e j)

pub usage_at-refund :
    (r : ResourceRequest) (es : List String) (m : List (String × ResourceUsage)) (j : String)
    → Distinct es
    → usage_at j (refund r es m)
      ≡ (if contains es j then subtract_usage (usage_at j m) (endpoint_usage r j) else usage_at j m)
unfolding refund contains
usage_at-refund r [] m j d = refl
usage_at-refund r (e ∷ es) m j d =
    let u = subtract_usage (usage_at e m) (endpoint_usage r e) in
    ground (arith, usage_at-refund r es (settle e u m) j d.1, usage_at-settle e j u m, eq_iff e j)

-- Adding and taking away in a wrapping column.
pub add_mod : (f : Field) (v s : ℕ) → (s % modulus f + v) % modulus f ≡ (v + s) % modulus f
add_mod active_jobs v s = omega arith
add_mod _ v s = omega arith

pub sub_mod :
    (f : Field) (v s : ℕ)
    → v < modulus f
    → ((v + s) % modulus f + modulus f - v) % modulus f ≡ s % modulus f
sub_mod active_jobs v s h = omega arith
sub_mod _ v s h = omega arith

-- One booking in a column: `b` says whether it concerns the key at hand.
pub get_added :
    (b : Bool) (f : Field) (u v : ResourceUsage) (s : ℕ)
    → get f u ≡ s % modulus f
    → get f (if b then add_usage u v else u) ≡ ((if b then get f v else 0) + s) % modulus f
get_added true f u v s h = get-add_usage f u v ∙ rw h (add_mod f (get f v) s)
get_added false f u v s h = rw zero-add h

pub get_subtracted :
    (b : Bool) (f : Field) (u v : ResourceUsage) (s : ℕ)
    → get f v < modulus f
    → get f u ≡ ((if b then get f v else 0) + s) % modulus f
    → get f (if b then subtract_usage u v else u) ≡ s % modulus f
get_subtracted true f u v s small h = get-subtract_usage f u v ∙ rw h (sub_mod f (get f v) s small)
get_subtracted false f u v s small h = rw zero-add at h

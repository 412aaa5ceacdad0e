-- ===== src/Transfer/Resources/Requests.antt =====
-- resource_ledger.go: normalizeResourceRequest.
use text.Mathlib.Text.{◌==◌ as str_beq}
use awesome_sftp_cli.Base.{
  ◌<◌, String, ◌≡◌, refl, sym, ap, ◌∙◌, inl, inr, Bool, true, false, not, ◌||◌, Option, none, some,
  List, [], ◌∷◌, ◌++◌, arith, if◌then◌else◌, Bool-cases, All, ok, refuse_if, ok-injective,
  >>=-eq-ok, string_eq,
}
use awesome_sftp_cli.Transfer.Resources.{
  normalize_usage, endpoint_usage, ResourceRequest, clone_usage, contains, unique_endpoints,
  usage_at, normalize_resource_request,
}
use awesome_sftp_cli.Transfer.Usage.{
  ResourceUsage, zero_usage, Field, get, modulus, active_jobs, is_zero, mixed_usage,
  job_id_required,
}
use awesome_sftp_cli.Base.Map.{insert, lookup}
use awesome_sftp_cli.Transfer.Resources.Charges.{Distinct}
use text.Mathlib.TextEquality.{eq_iff}
use mathlib.Core.Path.{subst}
use awesome_sftp_cli.Transfer.Resources.Accounts.{IsNormal}

contains-snoc :
    (xs : List String) (e j : String) → contains (xs ++ e ∷ []) j ≡ (contains xs j || str_beq e j)
unfolding contains
contains-snoc [] e j = ground arith
contains-snoc (x ∷ xs) e j = ground (arith, contains-snoc xs e j)

Distinct-snoc :
    (xs : List String) (e : String) → Distinct xs → contains xs e ≡ false → Distinct (xs ++ e ∷ [])
unfolding contains
Distinct-snoc [] e d h = (refl, tt)
Distinct-snoc (x ∷ xs) e d h =
    ground (arith, Distinct-snoc xs e, contains-snoc xs e x, eq_iff x e, eq_iff e x)

-- The endpoints kept are distinct, and are those of the request and no others.
pub unique_endpoints_lem :
    (acc es res : List String)
    → Distinct acc
    → unique_endpoints acc es ≡ ok res
    → Distinct res × ((j : String) → contains res j ≡ (contains acc j || contains es j))
unfolding unique_endpoints contains
unique_endpoints_lem acc [] res d h = (ground arith, λ j. ground arith)
unique_endpoints_lem acc (e ∷ es) res d h = elim (Bool-cases (contains acc e)) [
  | inl seen ↦
      let (kept, same) = unique_endpoints_lem acc es res d (ground arith) in
      (kept, λ j. ground (arith, same j, eq_iff e j))
  | inr new ↦
      let (kept, same) =
        unique_endpoints_lem (acc ++ e ∷ []) es res (Distinct-snoc acc e d new) (ground arith) in
      (kept, λ j. ground (arith, same j, contains-snoc acc e j))
]

unique_endpoints_named :
    (acc es res : List String) → unique_endpoints acc es ≡ ok res → contains es "" ≡ false
unfolding unique_endpoints contains
unique_endpoints_named acc [] res h = refl
unique_endpoints_named acc (e ∷ es) res h =
    ground (arith, unique_endpoints_named (if contains acc e then acc else acc ++ e ∷ []) es res)

-- Amounts of their machine types, as every request carries them.
abbrev pub InRange : ResourceUsage → Type 0
InRange u = (f : Field) → get f u < modulus f

abbrev pub AllInRange : List (String × ResourceUsage) → Type 0
AllInRange m = All (λ entry. InRange entry.1) m

abbrev pub UsageInRange : Option (List (String × ResourceUsage)) → Type 0
UsageInRange none = Unit {0}
UsageInRange (some m) = AllInRange m

pub record IsTyped (r : ResourceRequest) : Type 0 where
  pub usage : InRange r.usage
  pub uniform : InRange r.per_endpoint_usage
  pub specific : UsageInRange r.endpoint_usage

insert-AllInRange :
    (e : String) (u : ResourceUsage) (m : List (String × ResourceUsage))
    → InRange u
    → AllInRange m
    → AllInRange (insert e u m)
unfolding insert
insert-AllInRange e u [] hu hm = (hu, tt)
insert-AllInRange e u ((j, v) ∷ m) hu hm = elim (Bool-cases (str_beq j e)) [
  | inl same ↦ rw same (hu, hm.1)
  | inr other ↦ rw other (hm.0, insert-AllInRange e u m hu hm.1)
]

clone_usage-AllInRange :
    (seen : List String) (cloned m res : List (String × ResourceUsage))
    → AllInRange cloned
    → AllInRange m
    → clone_usage seen cloned m ≡ ok res
    → AllInRange res
unfolding clone_usage
clone_usage-AllInRange seen cloned [] res hc hm h = subst AllInRange (ok-injective h) hc
clone_usage-AllInRange seen cloned ((e, u) ∷ m) res hc hm h = elim (Bool-cases (contains seen e)) [
  | inl known ↦
      clone_usage-AllInRange seen (insert e u cloned) m res (insert-AllInRange e u cloned hm.0 hc)
        hm.1 (ground arith)
  | inr unknown ↦ absurd (ground arith)
]

zero_usage-InRange : InRange zero_usage
zero_usage-InRange active_jobs = omega arith
zero_usage-InRange _ = omega arith

usage_at-InRange :
    (e : String) (m : List (String × ResourceUsage)) → AllInRange m → InRange (usage_at e m)
unfolding usage_at lookup
usage_at-InRange e [] h = zero_usage-InRange
usage_at-InRange e ((j, v) ∷ m) h = elim (Bool-cases (str_beq j e)) [
  | inl same ↦ rw same h.0
  | inr other ↦ rw other (usage_at-InRange e m h.1)
]

-- What an endpoint is charged is in range, whichever of the three amounts it comes from.
endpoint_usage-InRange :
    (r : ResourceRequest) (o : Option (List (String × ResourceUsage))) (e : String)
    → r.endpoint_usage ≡ o
    → InRange r.usage
    → InRange r.per_endpoint_usage
    → UsageInRange o
    → InRange (endpoint_usage r e)
unfolding endpoint_usage
endpoint_usage-InRange r (some m) e h u p s = rw (h, endpoint_usage) (usage_at-InRange e m s)
endpoint_usage-InRange r none e h u p s = elim (Bool-cases (is_zero r.per_endpoint_usage)) [
  | inl unset ↦ rw (h, endpoint_usage) (rw unset u)
  | inr set ↦ rw (h, endpoint_usage) (rw set p)
]

plain-IsNormal :
    (r : ResourceRequest) (es : List String) (b : Bool)
    → Distinct es
    → IsTyped r
    → IsNormal (record r {
      endpoint_ids = es;
      per_endpoint_usage = if b then r.usage else r.per_endpoint_usage;
    })
plain-IsNormal r es true d t = record {
  distinct = d;
  in_range = t.usage;
  each_in_range =
      λ f e. endpoint_usage-InRange _ r.endpoint_usage e refl t.usage t.usage t.specific f;
}
plain-IsNormal r es false d t = record {
  distinct = d;
  in_range = t.usage;
  each_in_range =
      λ f e. endpoint_usage-InRange _ r.endpoint_usage e refl t.usage t.uniform t.specific f;
}

specific-IsNormal :
    (r : ResourceRequest) (es : List String) (m : List (String × ResourceUsage))
    → Distinct es
    → IsTyped r
    → AllInRange m
    → IsNormal (record r { endpoint_ids = es; endpoint_usage = some m })
specific-IsNormal r es m d t h = record {
  distinct = d;
  in_range = t.usage;
  each_in_range = λ f e. endpoint_usage-InRange _ (some m) e refl t.usage t.uniform h f;
}

normalize_usage-IsNormal :
    (r q : ResourceRequest) (es : List String) (o : Option (List (String × ResourceUsage)))
    → Distinct es
    → IsTyped r
    → UsageInRange o
    → normalize_usage r es o ≡ ok q
    → IsNormal q
unfolding normalize_usage
normalize_usage-IsNormal r q es none d t s h =
    subst IsNormal (ok-injective h) (plain-IsNormal r es _ d t)
normalize_usage-IsNormal r q es (some []) d t s h =
    subst IsNormal (ok-injective h) (plain-IsNormal r es _ d t)
normalize_usage-IsNormal r q es (some (x ∷ xs)) d t s h =
    let (unmixed, _, h') =
      >>=-eq-ok (refuse_if (not (is_zero r.per_endpoint_usage)) mixed_usage) _ h in
    let (m, cloned, h'') = >>=-eq-ok (clone_usage es [] (x ∷ xs)) _ h' in
    subst IsNormal (ok-injective h'')
      (specific-IsNormal r es m d t (clone_usage-AllInRange es [] (x ∷ xs) m tt s cloned))

-- A request with amounts of their machine types keeps them in range: its charge at each endpoint is
-- in range too, and its endpoints are distinct.
pub normalize-IsNormal :
    (r q : ResourceRequest) → IsTyped r → normalize_resource_request r ≡ ok q → IsNormal q
unfolding normalize_resource_request contains
normalize-IsNormal r q t h =
    let (_, _, h') = >>=-eq-ok (refuse_if (str_beq r.job_id "") job_id_required) _ h in
    let (es, kept, h'') = >>=-eq-ok (unique_endpoints [] r.endpoint_ids) _ h' in
    normalize_usage-IsNormal r q es r.endpoint_usage
      (unique_endpoints_lem [] r.endpoint_ids es tt kept).0 t t.specific h''

normalize_usage_keeps :
    (r q : ResourceRequest) (es : List String) (o : Option (List (String × ResourceUsage)))
    → normalize_usage r es o ≡ ok q
    → (q.job_id ≡ r.job_id) × (q.usage ≡ r.usage) × (q.endpoint_ids ≡ es)
unfolding normalize_usage
normalize_usage_keeps r q es none h = ground arith
normalize_usage_keeps r q es (some []) h = ground arith
normalize_usage_keeps r q es (some (x ∷ xs)) h =
    let (unmixed, _, h') =
      >>=-eq-ok (refuse_if (not (is_zero r.per_endpoint_usage)) mixed_usage) _ h in
    let (m, cloned, h'') = >>=-eq-ok (clone_usage es [] (x ∷ xs)) _ h' in ground arith

-- A request that is normalized has a Job and no empty endpoint. Its Job and usage stay, its
-- endpoints stay as a set, and none stands twice.
pub normalize_lem :
    (r q : ResourceRequest)
    → normalize_resource_request r ≡ ok q
    → (str_beq r.job_id "" ≡ false)
      × (q.job_id ≡ r.job_id)
      × (q.usage ≡ r.usage)
      × Distinct q.endpoint_ids
      × ((j : String) → contains q.endpoint_ids j ≡ contains r.endpoint_ids j)
      × (contains r.endpoint_ids "" ≡ false)
unfolding normalize_resource_request contains
normalize_lem r q h =
    let (_, named, h') = >>=-eq-ok (refuse_if (str_beq r.job_id "") job_id_required) _ h in
    let (es, kept, h'') = >>=-eq-ok (unique_endpoints [] r.endpoint_ids) _ h' in
    let (job, usage, ids) = normalize_usage_keeps r q es r.endpoint_usage h'' in
    let (distinct, same) = unique_endpoints_lem [] r.endpoint_ids es tt kept in
    (
      ground arith,
      job,
      usage,
      subst Distinct (sym ids) distinct,
      λ j. ap (λ xs. contains xs j) ids ∙ same j,
      unique_endpoints_named [] r.endpoint_ids es kept,
    )

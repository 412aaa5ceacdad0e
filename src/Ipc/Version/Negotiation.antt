-- ===== src/Ipc/Version/Negotiation.antt =====
-- internal/ipc/handshake.go: highestSharedVersion finds the highest version that both sides speak.
use awesome_sftp_cli.Base.{
  min, max, ◌≡◌, refl, inl, inr, Bool, true, false, not, ◌&&◌, ◌||◌, Option, none, some, List, [],
  ◌∷◌, arith, ltb, leb, ◌==◌, if◌then◌else◌, Bool-cases, string_eq,
}
use awesome_sftp_cli.Ipc.Version.{
  ProtocolVersion, VersionRange, better, consider, consider_clients, consider_servers,
  highest_shared_version,
}

-- The range holds the version.
abbrev pub covers : VersionRange → ProtocolVersion → Bool
covers r v = r.major == v.major && leb r.min_minor v.minor && leb v.minor r.max_minor

abbrev pub speaks : List VersionRange → ProtocolVersion → Bool
speaks [] v = false
speaks (r ∷ rest) v = covers r v || speaks rest v

abbrev pub at_most : ProtocolVersion → ProtocolVersion → Bool
at_most a b = ltb a.major b.major || a.major == b.major && leb a.minor b.minor

-- Nothing is shared, or the version is shared and no shared one is higher.
abbrev pub IsHighest : List VersionRange → List VersionRange → Option ProtocolVersion → Type 0
IsHighest client server none = (v : ProtocolVersion) → speaks client v && speaks server v ≡ false
IsHighest client server (some best) =
    (speaks client best && speaks server best ≡ true)
    × ((v : ProtocolVersion) → speaks client v && speaks server v ≡ true → at_most v best ≡ true)

-- The best so far is at least v.
abbrev reaches : Option ProtocolVersion → ProtocolVersion → Bool
reaches none v = false
reaches (some best) v = at_most v best

abbrev Holds : (ProtocolVersion → Type 0) → Option ProtocolVersion → Type 0
Holds P none = Unit {0}
Holds P (some v) = P v

better-keeps :
    (best : Option ProtocolVersion) (c v : ProtocolVersion)
    → reaches best v ≡ true
    → reaches (better best c) v ≡ true
unfolding better
better-keeps none c v h = cc
better-keeps (some best) c v h = ground arith

better-reaches :
    (best : Option ProtocolVersion) (c v : ProtocolVersion)
    → at_most v c ≡ true
    → reaches (better best c) v ≡ true
unfolding better
better-reaches none c v h = h
better-reaches (some best) c v h = ground arith

consider-keeps :
    (c s : VersionRange) (best : Option ProtocolVersion) (v : ProtocolVersion)
    → reaches best v ≡ true
    → reaches (consider c s best) v ≡ true
unfolding consider
consider-keeps c s best v h =
    ground (
      arith,
      better-keeps best (record { major = c.major; minor = min c.max_minor s.max_minor }) v h,
    )

consider-reaches :
    (c s : VersionRange) (best : Option ProtocolVersion) (v : ProtocolVersion)
    → covers c v ≡ true
    → covers s v ≡ true
    → reaches (consider c s best) v ≡ true
unfolding consider
consider-reaches c s best v h k =
    ground (
      arith,
      better-reaches best (record { major = c.major; minor = min c.max_minor s.max_minor }) v,
    )

if-Holds :
    (P : ProtocolVersion → Type 0) (b : Bool) (x y : Option ProtocolVersion)
    → (b ≡ true → Holds P x)
    → (b ≡ false → Holds P y)
    → Holds P (if b then x else y)
if-Holds P true x y h k = h refl
if-Holds P false x y h k = k refl

better-Holds :
    (P : ProtocolVersion → Type 0) (best : Option ProtocolVersion) (c : ProtocolVersion)
    → Holds P best
    → P c
    → Holds P (better best c)
unfolding better
better-Holds P none c h p = p
better-Holds P (some best) c h p = if-Holds P _ (some c) (some best) (λ e. p) (λ e. h)

-- The version at the top of two ranges that meet is in both.
abbrev top : VersionRange → VersionRange → ProtocolVersion
top c s = record { major = c.major; minor = min c.max_minor s.max_minor }

abbrev apart : VersionRange → VersionRange → Bool
apart c s = ltb s.max_minor s.min_minor || not (c.major == s.major)

abbrev disjoint : VersionRange → VersionRange → Bool
disjoint c s = ltb (min c.max_minor s.max_minor) (max c.min_minor s.min_minor)

top_covered :
    (c s : VersionRange)
    → apart c s ≡ false
    → disjoint c s ≡ false
    → (covers c (top c s) ≡ true) × (covers s (top c s) ≡ true)
top_covered c s h k = ground arith

consider-Holds :
    (P : ProtocolVersion → Type 0) (c s : VersionRange) (best : Option ProtocolVersion)
    → Holds P best
    → ((v : ProtocolVersion) → covers c v ≡ true → covers s v ≡ true → P v)
    → Holds P (consider c s best)
unfolding consider
consider-Holds P c s best h shared =
    if-Holds P (apart c s) best _ (λ e. h)
      (λ near.
        if-Holds P (disjoint c s) best _ (λ e. h)
          (λ meet.
            let both = top_covered c s near meet in
            better-Holds P best (top c s) h (shared (top c s) both.0 both.1)))

consider_servers-Holds :
    (P : ProtocolVersion → Type 0) (c : VersionRange) (servers : List VersionRange)
    (best : Option ProtocolVersion)
    → Holds P best
    → ((v : ProtocolVersion) → covers c v ≡ true → speaks servers v ≡ true → P v)
    → Holds P (consider_servers c servers best)
unfolding consider_servers
consider_servers-Holds P c [] best h shared = h
consider_servers-Holds P c (s ∷ rest) best h shared =
    consider_servers-Holds P c rest (consider c s best)
      (consider-Holds P c s best h (λ v own other. shared v own (rw other refl)))
      (λ v own other. shared v own (ground arith))

consider_clients-Holds :
    (P : ProtocolVersion → Type 0) (clients servers : List VersionRange)
    (best : Option ProtocolVersion)
    → Holds P best
    → ((v : ProtocolVersion) → speaks clients v ≡ true → speaks servers v ≡ true → P v)
    → Holds P (consider_clients clients servers best)
unfolding consider_clients
consider_clients-Holds P [] servers best h shared = h
consider_clients-Holds P (c ∷ rest) servers best h shared =
    consider_clients-Holds P rest servers _
      (if-Holds P _ best _ (λ e. h)
        (λ e.
          consider_servers-Holds P c servers best h (λ v own other. shared v (rw own refl) other)))
      (λ v own other. shared v (ground arith) other)

consider_servers-reaches :
    (c : VersionRange) (servers : List VersionRange) (best : Option ProtocolVersion)
    (v : ProtocolVersion)
    → (reaches best v || covers c v && speaks servers v) ≡ true
    → reaches (consider_servers c servers best) v ≡ true
unfolding consider_servers
consider_servers-reaches c [] best v h = ground arith
consider_servers-reaches c (s ∷ rest) best v h =
    consider_servers-reaches c rest (consider c s best) v
      (ground (arith, consider-keeps c s best v, consider-reaches c s best v))

consider_clients-reaches :
    (clients servers : List VersionRange) (best : Option ProtocolVersion) (v : ProtocolVersion)
    → (reaches best v || speaks clients v && speaks servers v) ≡ true
    → reaches (consider_clients clients servers best) v ≡ true
unfolding consider_clients
consider_clients-reaches [] servers best v h = ground arith
consider_clients-reaches (c ∷ rest) servers best v h =
    consider_clients-reaches rest servers _ v
      (ground (arith, consider_servers-reaches c servers best v))

outcome-IsHighest :
    (client server : List VersionRange) (best : Option ProtocolVersion)
    → Holds (λ v. speaks client v && speaks server v ≡ true) best
    → ((v : ProtocolVersion) → speaks client v && speaks server v ≡ true → reaches best v ≡ true)
    → IsHighest client server best
outcome-IsHighest client server none h reached = λ v.
    elim (Bool-cases (speaks client v && speaks server v)) [
      | inl spoken ↦ absurd (cc (reached v spoken))
      | inr unspoken ↦ unspoken
    ]
outcome-IsHighest client server (some best) h reached = (h, reached)

-- highestSharedVersion, on any ranges, inverted ones included: it finds a version exactly when both
-- sides have a range with it, and then one that both sides speak and that no version they share
-- exceeds, the major number counting first.
pub highest_shared_version_lem :
    (client server : List VersionRange)
    → IsHighest client server (highest_shared_version client server)
unfolding highest_shared_version
highest_shared_version_lem client server =
    outcome-IsHighest client server (consider_clients client server none)
      (consider_clients-Holds _ client server none tt (λ v own other. rw (own, other) refl))
      (λ v shared. consider_clients-reaches client server none v (ground arith))

-- ===== src/Auth/Claiming.antt =====
-- internal/auth/broker.go: Claim, Detach and Resolve.
use awesome_sftp_cli.Base.{
  ◌≐◌, ℕ, ◌<◌, String, ◌≡◌, refl, sym, ap, ◌∙◌, ◌≢◌, ◌⊎◌, inl, inr, true, false, Option, none, some,
  List, [], ◌∷◌, arith, ◌==◌, Bool-cases, Option-cases, string_eq, nat_eq,
}
use awesome_sftp_cli.Base.Map.{lookup, insert, lookup-insert}
use awesome_sftp_cli.Base.Map.Keys.{insert-Unique}
use awesome_sftp_cli.Auth.Keys.{keys-update, left_by, keys-disown, disown-Unique, lookup-disown}
use awesome_sftp_cli.Auth.Sound.{IsSound, IsOpen, notify-IsSound}
use awesome_sftp_cli.Auth.{
  ChallengeState, first_unowned, owned_by, Broker, is_unowned, Challenge, claim_other, detach,
  disown, claim_next, is_present, notify, is_owner, set_owner,
}
use mathlib.Core.Path.{subst}

unowned-other :
    (owner : ℕ) (i : String) (s : ChallengeState) (m : List (String × ChallengeState))
    → owned_by owner m ≡ none
    → lookup i m ≡ some s
    → (s.owner == owner) ≡ false
unfolding owned_by lookup
unowned-other owner i s [] h l = cc
unowned-other owner i s ((j, t) ∷ m) h l = ground (arith, unowned-other owner i s m)

first-unowned :
    (id : String) (order : List String) (m : List (String × ChallengeState))
    → first_unowned order m ≡ some id
    → is_unowned (lookup id m) ≡ true
unfolding first_unowned
first-unowned id [] m h = cc
first-unowned id (i ∷ order) m h = ground (arith, first-unowned id order m)

pub some-injective : {A : Type 0} {a b : A} → ◌≡◌ {A = Option A} (some a) (some b) → a ≡ b
some-injective h = cc

-- Looking up in the map with the claimed challenge.
claimed :
    (id i : String) (owner : ℕ) (s t : ChallengeState) (m : List (String × ChallengeState))
    → lookup id m ≡ some s
    → lookup i (insert id (record s { owner = owner }) m) ≡ some t
    → (old : ChallengeState) × (lookup i m ≡ some old)
      × (t.result ≡ old.result)
      × (t.attempt ≡ old.attempt)
      × (((id ≡ i) × (t.owner ≡ owner)) ⊎ ((id ≢ i) × (t.owner ≡ old.owner)))
claimed id i owner s t m h l = elim (Bool-cases (id ≐ i)) [
  | inl same ↦
      let v : ChallengeState = record s { owner = owner } in
      let name : id ≡ i = (string_eq.equal_iff id i).0 same in
      let here : lookup i (insert id v m) ≡ some v = ground (arith, lookup-insert id i v m) in
      let e : v ≡ t = some-injective (sym here ∙ l) in
      (
        s,
        subst (λ k. lookup k m ≡ some s) name h,
        sym (ap (λ (x : ChallengeState). x.result) e),
        sym (ap (λ (x : ChallengeState). x.attempt) e),
        inl (name, sym (ap (λ (x : ChallengeState). x.owner) e)),
      )
  | inr apart ↦ (
    t,
    ground (arith, lookup-insert id i (record s { owner = owner }) m),
    refl,
    refl,
    inr ((λ p. ground (arith, string_eq.equal_iff id i)), refl),
  )
]

pub set_owner-IsSound :
    (id : String) (owner : ℕ) (s : ChallengeState) (b : Broker)
    → IsSound b
    → lookup id b.challenges ≡ some s
    → owned_by owner b.challenges ≡ none
    → IsSound (record b { challenges = insert id (record s { owner = owner }) b.challenges })
set_owner-IsSound id owner s b h l free = record {
  ordered = h.ordered ∙ sym (keys-update id _ s b.challenges l);
  unique = insert-Unique id _ b.challenges h.unique;
  sent_once = h.sent_once;
  made = h.made;
  waiting = λ i t k.
      let (old, found, same, of, who) = claimed id i owner s t b.challenges l k in
      let w = h.waiting i old found in
      subst (λ c. (c < b.channels) × (lookup c b.sent ≡ none)) (sym same) w;
  distinct = λ i j t u k k' e.
      let (old, found, same, of, who) = claimed id i owner s t b.challenges l k in
      let (old', found', same', of', who') = claimed id j owner s u b.challenges l k' in
      h.distinct i j old old' found found' (sym same ∙ e ∙ same');
  one_each = λ i j t u k k' e pos.
      let (old, found, same, of, who) = claimed id i owner s t b.challenges l k in
      let (old', found', same', of', who') = claimed id j owner s u b.challenges l k' in
      ground (
        arith,
        unowned-other owner j old' b.challenges free found',
        unowned-other owner i old b.challenges free found,
        h.one_each i j old old' found found',
      );
  counted = h.counted;
}

left :
    (owner : ℕ) (found : Option ChallengeState) (t : ChallengeState)
    → left_by owner found ≡ some t
    → (old : ChallengeState) × (found ≡ some old)
      × (t.result ≡ old.result)
      × (t.attempt ≡ old.attempt)
      × ((t.owner ≡ old.owner) ⊎ (t.owner ≡ 0))
left owner none t h = cc
left owner (some old) t h = elim (Bool-cases (old.owner == owner)) [
  | inl its ↦
      let e : ◌≡◌ {A = ChallengeState} (record old { owner = 0 }) t =
        some-injective (rw its at h) in
      (
        old,
        refl,
        sym (ap (λ (x : ChallengeState). x.result) e),
        sym (ap (λ (x : ChallengeState). x.attempt) e),
        inr (sym (ap (λ (x : ChallengeState). x.owner) e)),
      )
  | inr other ↦
      let e : ◌≡◌ {A = ChallengeState} old t = some-injective (rw other at h) in
      (
        old,
        refl,
        sym (ap (λ (x : ChallengeState). x.result) e),
        sym (ap (λ (x : ChallengeState). x.attempt) e),
        inl (sym (ap (λ (x : ChallengeState). x.owner) e)),
      )
]

pub disown-IsSound :
    (owner : ℕ) (b : Broker)
    → IsSound b
    → IsSound (record b { challenges = disown owner b.challenges })
disown-IsSound owner b h = record {
  ordered = h.ordered ∙ sym (keys-disown owner b.challenges);
  unique = disown-Unique owner b.challenges h.unique;
  sent_once = h.sent_once;
  made = h.made;
  waiting = λ i t k.
      let (old, found, same, of, who) =
        left owner (lookup i b.challenges) t (sym (lookup-disown owner i b.challenges) ∙ k) in
      subst (λ c. (c < b.channels) × (lookup c b.sent ≡ none)) (sym same) (h.waiting i old found);
  distinct = λ i j t u k k' e.
      let (old, found, same, of, who) =
        left owner (lookup i b.challenges) t (sym (lookup-disown owner i b.challenges) ∙ k) in
      let (old', found', same', of', who') =
        left owner (lookup j b.challenges) u (sym (lookup-disown owner j b.challenges) ∙ k') in
      h.distinct i j old old' found found' (sym same ∙ e ∙ same');
  one_each = λ i j t u k k' e pos.
      let (old, found, same, of, who) =
        left owner (lookup i b.challenges) t (sym (lookup-disown owner i b.challenges) ∙ k) in
      let (old', found', same', of', who') =
        left owner (lookup j b.challenges) u (sym (lookup-disown owner j b.challenges) ∙ k') in
      ground (arith, h.one_each i j old old' found found');
  counted = h.counted;
}

pub detach-IsSound : (owner : ℕ) (b : Broker) → IsSound b → IsSound (detach owner b)
unfolding detach
detach-IsSound owner b h =
    let left_behind =
      notify-IsSound (record b { challenges = disown owner b.challenges })
        (disown-IsSound owner b h) in
    elim (Bool-cases (owner == 0)) [
      | inl empty ↦ rw empty h
      | inr client ↦ elim (Bool-cases (is_owner owner b.challenges)) [
        | inl owns ↦ rw (client, owns) left_behind
        | inr free ↦ rw (client, free) h
      ]
    ]

pub detach-IsOpen : (owner : ℕ) (b : Broker) → IsOpen b → IsOpen (detach owner b)
unfolding detach notify
detach-IsOpen owner b h = elim (Bool-cases (owner == 0)) [
  | inl empty ↦ rw empty h
  | inr client ↦ elim (Bool-cases (is_owner owner b.challenges)) [
    | inl owns ↦
        rw (client, owns)
          (λ i t k.
            let (old, found, same, of, who) =
              left owner (lookup i b.challenges) t (sym (lookup-disown owner i b.challenges) ∙ k) in
            subst (λ a. is_present (lookup a b.attempts) ≡ true) (sym of) (h i old found))
    | inr free ↦ rw (client, free) h
  ]
]

-- A turn of Claim changes nothing, or it claims a challenge that nobody has for a client without.
data Claims (owner : ℕ) (b : Broker) : Broker × Option Challenge → Type 0 where
  stays : (found : Option Challenge) → Claims owner b (b, found)
  takes :
      (id : String) (s : ChallengeState)
      → lookup id b.challenges ≡ some s
      → owned_by owner b.challenges ≡ none
      → Claims owner b (
        record b { challenges = insert id (record s { owner = owner }) b.challenges },
        some s.challenge,
      )

claim-Claims :
    (owner : ℕ) (b : Broker) → Claims owner b (claim_other owner (owned_by owner b.challenges) b)
unfolding claim_other claim_next set_owner
claim-Claims owner b = elim (Option-cases (owned_by owner b.challenges)) [
  | inr (c, has) ↦ rw has (stays (some c))
  | inl free ↦ elim (Option-cases (first_unowned b.order b.challenges)) [
    | inr (id, chosen) ↦ elim (Option-cases (lookup id b.challenges)) [
      | inr (s, found) ↦ rw (free, chosen, found) (takes id s found free)
      | inl gone ↦ rw (free, chosen, gone) (stays none)
    ]
    | inl nobody ↦ rw (free, nobody) (stays none)
  ]
]

Claims-IsSound :
    (owner : ℕ) (b : Broker) (r : Broker × Option Challenge)
    → Claims owner b r
    → IsSound b
    → IsSound r.0
Claims-IsSound owner b r (stays found) h = h
Claims-IsSound owner b r (takes id s found free) h = set_owner-IsSound id owner s b h found free

Claims-IsOpen :
    (owner : ℕ) (b : Broker) (r : Broker × Option Challenge)
    → Claims owner b r
    → IsOpen b
    → IsOpen r.0
Claims-IsOpen owner b r (stays found) h = h
Claims-IsOpen owner b r (takes id s found free) h = λ i t k.
    let (old, held, same, of, who) = claimed id i owner s t b.challenges found k in
    subst (λ a. is_present (lookup a b.attempts) ≡ true) (sym of) (h i old held)

pub claim-IsSound :
    (owner : ℕ) (b : Broker)
    → IsSound b
    → IsSound (claim_other owner (owned_by owner b.challenges) b).0
claim-IsSound owner b = Claims-IsSound owner b _ (claim-Claims owner b)

pub claim-IsOpen :
    (owner : ℕ) (b : Broker)
    → IsOpen b
    → IsOpen (claim_other owner (owned_by owner b.challenges) b).0
claim-IsOpen owner b = Claims-IsOpen owner b _ (claim-Claims owner b)

-- ===== src/Auth/Asking.antt =====
-- internal/auth/broker.go: BeginAttempt and Prompt.
use awesome_sftp_cli.Base.{
  ◌≐◌, ◌+◌, ◌<◌, String, ◌≡◌, refl, sym, ap, ◌∙◌, ◌⊎◌, inl, inr, true, false, Option, none, some,
  List, [], ◌∷◌, ◌++◌, arith, leb, Bool-cases, string_eq, nat_eq,
}
use awesome_sftp_cli.Base.Map.{lookup, insert, lookup-insert}
use awesome_sftp_cli.Base.Map.Keys.{insert-Unique}
use awesome_sftp_cli.Auth.Keys.{keys-insert}
use awesome_sftp_cli.Auth.Sound.{IsSound, IsOpen, notify-IsSound}
use awesome_sftp_cli.Auth.Claiming.{some-injective}
use awesome_sftp_cli.Auth.{AttemptState, Broker, ChallengeState, is_present, post_challenge, notify}
use mathlib.Core.Path.{subst}

module _ (token prompt kind id : String) (attempt : AttemptState) (b : Broker) where
  abbrev posted : ChallengeState
  posted = record {
    challenge = record {
      id = id;
      endpoint = attempt.endpoint;
      kind = kind;
      prompt = prompt;
      expires_at = attempt.deadline;
    };
    attempt = token;
    owner = 0;
    result = b.channels;
  }

  -- What the map of the challenges has after a post.
  added :
      (i : String) (t : ChallengeState)
      → lookup i (insert id posted b.challenges) ≡ some t
      → ((id ≡ i) × (t.result ≡ b.channels) × (t.owner ≡ 0) × (t.attempt ≡ token))
        ⊎ (lookup i b.challenges ≡ some t)
  added i t k = elim (Bool-cases (id ≐ i)) [
    | inl same ↦
        let e : posted ≡ t =
          some-injective (ground (arith, lookup-insert id i posted b.challenges)) in
        inl (
          (string_eq.equal_iff id i).0 same,
          sym (ap (λ (x : ChallengeState). x.result) e),
          sym (ap (λ (x : ChallengeState). x.owner) e),
          sym (ap (λ (x : ChallengeState). x.attempt) e),
        )
    | inr apart ↦ inr (ground (arith, lookup-insert id i posted b.challenges))
  ]

  post-IsSound :
      IsSound b
      → lookup id b.challenges ≡ none
      → attempt.prompts < b.max_prompts
      → IsSound (record b {
        attempts = insert token (record attempt { prompts = attempt.prompts + 1 }) b.attempts;
        challenges = insert id posted b.challenges;
        order = b.order ++ (id ∷ []);
        channels = b.channels + 1;
      })
  post-IsSound h new more = record {
    ordered = ap (λ o. o ++ (id ∷ [])) h.ordered ∙ sym (keys-insert id posted b.challenges new);
    unique = insert-Unique id posted b.challenges h.unique;
    sent_once = h.sent_once;
    made = λ c k. h.made c (omega arith);
    waiting = λ i t k. elim (added i t k) [
      | inl (name, result, owner, of) ↦
          subst (λ c. (c < b.channels + 1) × (lookup c b.sent ≡ none)) (sym result)
            (omega arith, h.made b.channels (omega arith))
      | inr found ↦ let w = h.waiting i t found in (omega arith, w.1)
    ];
    distinct = λ i j t u k k' e. elim (added i t k) [
      | inl (name, result, owner, of) ↦ elim (added j u k') [
        | inl (name', result', owner', of') ↦ sym name ∙ name'
        | inr found' ↦ let w = h.waiting j u found' in absurd (omega arith)
      ]
      | inr found ↦ elim (added j u k') [
        | inl (name', result', owner', of') ↦ let w = h.waiting i t found in absurd (omega arith)
        | inr found' ↦ h.distinct i j t u found found' e
      ]
    ];
    one_each = λ i j t u k k' e pos. elim (added i t k) [
      | inl (name, result, owner, of) ↦ absurd (omega arith)
      | inr found ↦ elim (added j u k') [
        | inl (name', result', owner', of') ↦ absurd (omega arith)
        | inr found' ↦ h.one_each i j t u found found' e pos
      ]
    ];
    counted = λ t a k. ground (
      arith,
      lookup-insert token t (record attempt { prompts = attempt.prompts + 1 }) b.attempts,
      h.counted t a,
    );
  }

pub present-insert :
    (token t : String) (a : AttemptState) (m : List (String × AttemptState))
    → is_present (lookup t m) ≡ true
    → is_present (lookup t (insert token a m)) ≡ true
unfolding is_present
present-insert token t a m h = ground (arith, lookup-insert token t a m)

inserted-present :
    (token : String) (a : AttemptState) (m : List (String × AttemptState))
    → is_present (lookup token (insert token a m)) ≡ true
unfolding is_present
inserted-present token a m =
    ground (arith, lookup-insert token token a m, string_eq.equal_iff token token)

absent : {A : Type 0} (found : Option A) → is_present found ≡ false → found ≡ none
unfolding is_present
absent none h = refl
absent (some a) h = cc

pub post_challenge-IsSound :
    (token prompt kind id : String) (attempt : AttemptState) (b : Broker)
    → IsSound b
    → IsSound (post_challenge token prompt kind id attempt b).0
unfolding post_challenge
post_challenge-IsSound token prompt kind id attempt b h =
    elim (Bool-cases (leb b.max_prompts attempt.prompts)) [
      | inl spent ↦ rw spent h
      | inr more ↦ elim (Bool-cases (is_present (lookup id b.challenges))) [
        | inl taken ↦ rw (more, taken) h
        | inr new ↦
            rw (more, new)
              (notify-IsSound _ (
                post-IsSound token prompt kind id attempt b h (absent (lookup id b.challenges) new)
                  (ground arith)))
      ]
    ]

pub post_challenge-IsOpen :
    (token prompt kind id : String) (attempt : AttemptState) (b : Broker)
    → IsOpen b
    → IsOpen (post_challenge token prompt kind id attempt b).0
unfolding post_challenge notify
post_challenge-IsOpen token prompt kind id attempt b h =
    elim (Bool-cases (leb b.max_prompts attempt.prompts)) [
      | inl spent ↦ rw spent h
      | inr more ↦ elim (Bool-cases (is_present (lookup id b.challenges))) [
        | inl taken ↦ rw (more, taken) h
        | inr new ↦
            rw (more, new)
              (λ i t k. elim (added token prompt kind id attempt b i t k) [
                | inl (name, result, owner, of) ↦ rw of (inserted-present token _ b.attempts)
                | inr found ↦ present-insert token t.attempt _ b.attempts (h i t found)
              ])
      ]
    ]

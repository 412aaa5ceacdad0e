-- ===== src/Auth/Sound.antt =====
-- internal/auth/broker.go: what holds of the broker's maps between calls.
use awesome_sftp_cli.Base.{
  ◌≐◌, ℕ, ◌≤◌, ◌<◌, String, ◌≡◌, ap, ◌∙◌, inl, inr, true, false, none, some, List, arith, ◌==◌,
  Bool-cases, string_eq, nat_eq,
}
use awesome_sftp_cli.Base.Map.{lookup, delete, lookup-delete}
use awesome_sftp_cli.Base.Map.Keys.{Unique, delete-Unique}
use awesome_sftp_cli.Auth.Keys.{keys, keys-delete}
use awesome_sftp_cli.Auth.{
  Broker, ChallengeState, delete_challenge, notify, AttemptState, is_present, remove_ordered, send,
  PromptResult,
}

-- `order` lists the keys of `challenges`, each once. A channel takes one result at most, and none
-- while its challenge waits; challenges have different channels, and a client claims one at most.
pub record IsSound (b : Broker) : Type 0 where
  pub ordered : b.order ≡ keys b.challenges
  pub unique : Unique b.challenges
  pub sent_once : Unique b.sent
  pub made : (c : ℕ) → b.channels ≤ c → lookup c b.sent ≡ none
  pub waiting :
      (i : String) (s : ChallengeState)
      → lookup i b.challenges ≡ some s
      → (s.result < b.channels) × (lookup s.result b.sent ≡ none)
  pub distinct :
      (i j : String) (s t : ChallengeState)
      → lookup i b.challenges ≡ some s
      → lookup j b.challenges ≡ some t
      → s.result ≡ t.result
      → i ≡ j
  pub one_each :
      (i j : String) (s t : ChallengeState)
      → lookup i b.challenges ≡ some s
      → lookup j b.challenges ≡ some t
      → s.owner ≡ t.owner
      → 1 ≤ s.owner
      → i ≡ j
  pub counted :
      (t : String) (a : AttemptState) → lookup t b.attempts ≡ some a → a.prompts ≤ b.max_prompts

-- Each challenge is of an attempt that is not closed.
abbrev pub IsOpen : Broker → Type 0
IsOpen b =
    (i : String) (s : ChallengeState)
    → lookup i b.challenges ≡ some s
    → is_present (lookup s.attempt b.attempts) ≡ true

pub notify-IsSound : (b : Broker) → IsSound b → IsSound (notify b)
unfolding notify
notify-IsSound b h = record {
  ordered = h.ordered;
  unique = h.unique;
  sent_once = h.sent_once;
  made = h.made;
  waiting = h.waiting;
  distinct = h.distinct;
  one_each = h.one_each;
  counted = h.counted;
}

pub kept :
    (id i : String) (s : ChallengeState) (m : List (String × ChallengeState))
    → lookup i (delete id m) ≡ some s
    → (lookup i m ≡ some s) × ((id ≐ i) ≡ false)
kept id i s m h = ground (arith, lookup-delete id i m)

pub delete-IsSound : (id : String) (b : Broker) → IsSound b → IsSound (delete_challenge id b)
unfolding delete_challenge
delete-IsSound id b h = record {
  ordered = ap (remove_ordered id) h.ordered ∙ keys-delete id b.challenges h.unique;
  unique = delete-Unique id b.challenges h.unique;
  sent_once = h.sent_once;
  made = h.made;
  waiting = λ i s l. h.waiting i s (kept id i s b.challenges l).0;
  distinct = λ i j s t l k.
      h.distinct i j s t (kept id i s b.challenges l).0 (kept id j t b.challenges k).0;
  one_each = λ i j s t l k.
      h.one_each i j s t (kept id i s b.challenges l).0 (kept id j t b.challenges k).0;
  counted = h.counted;
}

-- Answering a challenge that waits, once it is deleted.
pub finish-IsSound :
    (id : String) (s : ChallengeState) (r : PromptResult) (b : Broker)
    → IsSound b
    → lookup id b.challenges ≡ some s
    → IsSound (send s.result r (delete_challenge id b))
unfolding delete_challenge send lookup
finish-IsSound id s r b h l =
    let g = delete-IsSound id b h in
    record {
      ordered = g.ordered;
      unique = g.unique;
      sent_once = ((h.waiting id s l).1, h.sent_once);
      made = λ c k. ground (arith, h.made c k, h.waiting id s l);
      waiting = λ i t k.
          let (l', other) = kept id i t b.challenges k in
          let old = h.waiting i t l' in
          (
            old.0,
            elim (Bool-cases (s.result == t.result)) [
              | inr apart ↦ rw apart old.1
              | inl same ↦
                  absurd (ground (arith, h.distinct id i s t l l', string_eq.equal_iff id i))
            ],
          );
      distinct = g.distinct;
      one_each = g.one_each;
      counted = g.counted;
    }

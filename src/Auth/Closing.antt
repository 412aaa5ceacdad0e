-- ===== src/Auth/Closing.antt =====
-- internal/auth/broker.go: closing an attempt.
use awesome_sftp_cli.Base.{
  ◌≐◌, String, ◌≡◌, refl, sym, inl, inr, true, false, Option, some, List, [], ◌∷◌, arith,
  Bool-cases, err, string_eq, nat_eq,
}
use awesome_sftp_cli.Base.Map.{lookup, lookup-delete, delete}
use awesome_sftp_cli.Base.Map.Keys.{Unique}
use awesome_sftp_cli.Auth.Sound.{IsSound, finish-IsSound, kept, IsOpen, notify-IsSound}
use awesome_sftp_cli.Auth.{
  ChallengeState, close_challenges, send, Broker, ContextError, delete_challenge, PromptResult,
  AttemptState, close_attempt, is_present, notify, context_canceled,
}
use awesome_sftp_cli.Base.Members.{value_or}
use mathlib.Core.Path.{subst}

-- What the loop has still to look at stands in the map.
abbrev Pending : List (String × ChallengeState) → Broker → Type 0
Pending l b =
    (i : String) (s : ChallengeState) → lookup i l ≡ some s → lookup i b.challenges ≡ some s

rest-Pending :
    (id : String) (s : ChallengeState) (l : List (String × ChallengeState)) (b : Broker)
    → Unique ((id, s) ∷ l)
    → Pending ((id, s) ∷ l) b
    → Pending l b
unfolding lookup
rest-Pending id s l b u h i t k = ground (arith, h i t, u.0, string_eq.equal_iff id i)

finished-Pending :
    (id : String) (s : ChallengeState) (l : List (String × ChallengeState)) (r : PromptResult)
    (b : Broker)
    → Unique ((id, s) ∷ l)
    → Pending ((id, s) ∷ l) b
    → Pending l (send s.result r (delete_challenge id b))
unfolding lookup send delete_challenge
finished-Pending id s l r b u h i t k =
    ground (arith, h i t, u.0, string_eq.equal_iff id i, lookup-delete id i b.challenges)

close-IsSound :
    (token : String) (cause : ContextError) (l : List (String × ChallengeState)) (b : Broker)
    → IsSound b
    → Unique l
    → Pending l b
    → IsSound (close_challenges token cause l b)
unfolding close_challenges lookup
close-IsSound token cause [] b h u p = h
close-IsSound token cause ((id, s) ∷ l) b h u p = elim (Bool-cases (s.attempt ≐ token)) [
  | inl its ↦
      let here : lookup id b.challenges ≡ some s =
        p id s (ground (arith, string_eq.equal_iff id id)) in
      rw its (
        close-IsSound token cause l (send s.result (err cause) (delete_challenge id b))
          (finish-IsSound id s (err cause) b h here) u.1
          (finished-Pending id s l (err cause) b u p))
  | inr other ↦ rw other (close-IsSound token cause l b h u.1 (rest-Pending id s l b u p))
]

-- What the loop leaves is what it found, less the challenges of the attempt that it looked at.
close-left :
    (token : String) (cause : ContextError) (l : List (String × ChallengeState)) (b : Broker)
    (i : String) (t : ChallengeState)
    → lookup i (close_challenges token cause l b).challenges ≡ some t
    → (lookup i b.challenges ≡ some t) × ((lookup i l ≡ some t) → (t.attempt ≐ token) ≡ false)
unfolding close_challenges lookup send delete_challenge
close-left token cause [] b i t k = (k, λ e. absurd (ground arith))
close-left token cause ((id, s) ∷ l) b i t k = elim (Bool-cases (s.attempt ≐ token)) [
  | inl its ↦
      let (found, apart) =
        close-left token cause l (send s.result (err cause) (delete_challenge id b)) i t
          (rw (its, close_challenges) at k) in
      (let (old, differs) = kept id i t b.challenges found in (old, λ e. apart (rw differs at e)))
  | inr other ↦
      let (found, apart) = close-left token cause l b i t (rw (other, close_challenges) at k) in
      (found, λ e. ground (arith, apart))
]

close-attempts :
    (token : String) (cause : ContextError) (l : List (String × ChallengeState)) (b : Broker)
    → (close_challenges token cause l b).attempts ≡ b.attempts
unfolding close_challenges send delete_challenge
close-attempts token cause [] b = refl
close-attempts token cause ((id, s) ∷ l) b = elim (Bool-cases (s.attempt ≐ token)) [
  | inl its ↦
      rw (its, close_challenges)
        (close-attempts token cause l (send s.result (err cause) (delete_challenge id b)))
  | inr other ↦ rw (other, close_challenges) (close-attempts token cause l b)
]

closed-counted :
    (token t : String) (m : List (String × AttemptState)) (a : AttemptState)
    → lookup t (delete token m) ≡ some a
    → lookup t m ≡ some a
closed-counted token t m a h = ground (arith, lookup-delete token t m)

pub close_attempt-IsSound :
    (token : String) (cause : Option ContextError) (b : Broker)
    → IsSound b
    → IsSound (close_attempt token cause b)
unfolding close_attempt
close_attempt-IsSound token cause b h = elim (Bool-cases (is_present (lookup token b.attempts))) [
  | inr missing ↦ rw missing h
  | inl running ↦
      let b' : Broker = record b { attempts = delete token b.attempts } in
      let h' : IsSound b' = record {
        ordered = h.ordered;
        unique = h.unique;
        sent_once = h.sent_once;
        made = h.made;
        waiting = h.waiting;
        distinct = h.distinct;
        one_each = h.one_each;
        counted = λ t a l. h.counted t a (closed-counted token t b.attempts a l);
      } in
      rw running (
        notify-IsSound (close_challenges token (value_or context_canceled cause) b.challenges b') (
          close-IsSound token (value_or context_canceled cause) b.challenges b' h' h.unique
            (λ i s l. l)))
]

present-delete :
    (token t : String) (m : List (String × AttemptState))
    → (t ≐ token) ≡ false
    → is_present (lookup t m) ≡ true
    → is_present (lookup t (delete token m)) ≡ true
unfolding is_present
present-delete token t m apart h =
    ground
      (arith, lookup-delete token t m, string_eq.equal_iff token t, string_eq.equal_iff t token)

pub close_attempt-IsOpen :
    (token : String) (cause : Option ContextError) (b : Broker)
    → IsOpen b
    → IsOpen (close_attempt token cause b)
unfolding close_attempt notify
close_attempt-IsOpen token cause b h = elim (Bool-cases (is_present (lookup token b.attempts))) [
  | inr missing ↦ rw missing h
  | inl running ↦ rw running (λ i s l.
      let b' : Broker = record b { attempts = delete token b.attempts } in
      let why = value_or context_canceled cause in
      let (found, apart) = close-left token why b.challenges b' i s l in
      subst (λ m. is_present (lookup s.attempt m) ≡ true)
        (sym (close-attempts token why b.challenges b'))
        (present-delete token s.attempt b.attempts (apart found) (h i s found)))
]

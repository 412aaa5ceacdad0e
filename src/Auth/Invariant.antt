-- ===== src/Auth/Invariant.antt =====
-- internal/auth/broker.go: any calls of any clients on one broker.
use awesome_sftp_cli.Base.{
  ◌≐◌, ℕ, ◌^◌, String, ◌≡◌, refl, inl, inr, Bool, true, false, not, ◌||◌, Option, none, some, List,
  [], ◌∷◌, arith, leb, ◌==◌, if◌then◌else◌, Bool-cases, Option-cases, Result, ok, err, ok-injective,
  string_eq, nat_eq,
}
use awesome_sftp_cli.Base.Map.{lookup, insert, lookup-insert}
use awesome_sftp_cli.Auth.Sound.{
  IsSound, IsOpen, notify-IsSound, finish-IsSound, delete-IsSound, kept,
}
use awesome_sftp_cli.Auth.Closing.{close_attempt-IsSound, close_attempt-IsOpen}
use awesome_sftp_cli.Auth.Claiming.{claim-IsSound, claim-IsOpen, detach-IsSound, detach-IsOpen}
use awesome_sftp_cli.Auth.Asking.{post_challenge-IsSound, post_challenge-IsOpen, present-insert}
use awesome_sftp_cli.Auth.{
  Broker, ContextError, abandon_challenge, ask, begin_attempt, claim, delete_challenge,
  find_attempt, new_broker, notify, resolve, send, AttemptState, AuthError, Resolution, detach,
  is_present, resolve_state, valid_prompt_kind, Challenge, ChallengeState, close_attempt, result_of,
}
use mathlib.Core.Path.{subst}

-- A call on the broker, with what the reader of random bytes and the contexts give it.
pub data Call : Type 0 where
  begins : Option ContextError → String → ℕ → Option String → ℕ → Call
  asks : Option ContextError → Option ContextError → String → String → String → Option String → Call
  claims : ℕ → Call
  resolves : ℕ → String → Resolution → Call
  detaches : ℕ → Call
  closes : String → Option ContextError → Call
  abandons : String → Call

abbrev claimed_broker : Broker → Result AuthError (Broker × Option Challenge) → Broker
claimed_broker b (ok (b', found)) = b'
claimed_broker b (err problem) = b

abbrev pub step : Broker → Call → Broker
step b (begins ended endpoint timeout drawn deadline) =
    (begin_attempt ended endpoint timeout drawn deadline b).0
step b (asks ended attempt_ended token prompt kind drawn) =
    (ask ended attempt_ended token prompt kind drawn b).0
step b (claims owner) = claimed_broker b (claim owner b)
step b (resolves owner id resolution) = (resolve owner id resolution b).0
step b (detaches owner) = detach owner b
step b (closes token cause) = close_attempt token cause b
step b (abandons id) = abandon_challenge id b

abbrev pub run : Broker → List Call → Broker
run b [] = b
run b (call ∷ calls) = run (step b call) calls

abbrev pub IsKept : Broker → Type 0
IsKept b = IsSound b × IsOpen b

notify-IsKept : (b : Broker) → IsKept b → IsKept (notify b)
unfolding notify
notify-IsKept b h = (notify-IsSound b h.0, h.1)

find-IsKept :
    (token prompt kind id : String) (ended : Option ContextError) (found : Option AttemptState)
    (b : Broker)
    → IsKept b
    → IsKept (find_attempt token prompt kind id ended found b).0
unfolding find_attempt
find-IsKept token prompt kind id ended none b h = h
find-IsKept token prompt kind id (some cause) (some attempt) b h =
    (close_attempt-IsSound token (some cause) b h.0, close_attempt-IsOpen token (some cause) b h.1)
find-IsKept token prompt kind id none (some attempt) b h = (
  post_challenge-IsSound token prompt kind id attempt b h.0,
  post_challenge-IsOpen token prompt kind id attempt b h.1,
)

if-IsKept :
    {A : Type 0} (t : Bool) (r s : Broker × A)
    → IsKept r.0
    → IsKept s.0
    → IsKept (if t then r else s).0
if-IsKept true r s h k = h
if-IsKept false r s h k = k

ask-IsKept :
    (ended attempt_ended : Option ContextError) (token prompt kind : String) (drawn : Option String)
    (b : Broker)
    → IsKept b
    → IsKept (ask ended attempt_ended token prompt kind drawn b).0
unfolding ask
ask-IsKept (some cause) attempt_ended token prompt kind drawn b h = h
ask-IsKept none attempt_ended token prompt kind none b h =
    if-IsKept (token ≐ "" || prompt ≐ "" || not (valid_prompt_kind kind)) _ _ h h
ask-IsKept none attempt_ended token prompt kind (some id) b h =
    if-IsKept (token ≐ "" || prompt ≐ "" || not (valid_prompt_kind kind)) _ _ h
      (find-IsKept token prompt kind id attempt_ended (lookup token b.attempts) b h)

opened-IsSound :
    (token endpoint : String) (deadline : ℕ) (b : Broker)
    → IsKept b
    → IsKept (record b {
      attempts =
          insert token
            (record { token = token; endpoint = endpoint; deadline = deadline; prompts = 0 })
            b.attempts;
    })
opened-IsSound token endpoint deadline b (h, o) = (
  record {
    ordered = h.ordered;
    unique = h.unique;
    sent_once = h.sent_once;
    made = h.made;
    waiting = h.waiting;
    distinct = h.distinct;
    one_each = h.one_each;
    counted = λ t a k. ground (
      arith,
      lookup-insert token t
          (record { token = token; endpoint = endpoint; deadline = deadline; prompts = 0 })
          b.attempts,
      h.counted t a,
    );
  },
  λ i s k. present-insert token s.attempt _ b.attempts (o i s k),
)

begin-IsKept :
    (ended : Option ContextError) (endpoint : String) (timeout : ℕ) (drawn : Option String)
    (deadline : ℕ) (b : Broker)
    → IsKept b
    → IsKept (begin_attempt ended endpoint timeout drawn deadline b).0
unfolding begin_attempt
begin-IsKept (some cause) endpoint timeout drawn deadline b h = h
begin-IsKept none endpoint timeout none deadline b h =
    if-IsKept (endpoint ≐ "" || (timeout == 0 || leb (2 ^ 63) timeout)) _ _ h h
begin-IsKept none endpoint timeout (some token) deadline b h =
    if-IsKept (endpoint ≐ "" || (timeout == 0 || leb (2 ^ 63) timeout)) _ _ h (
      if-IsKept (is_present (lookup token b.attempts)) _ _ h
        (notify-IsKept _ (opened-IsSound token endpoint deadline b h)))

deleted-IsKept : (id : String) (b : Broker) → IsKept b → IsKept (delete_challenge id b)
unfolding delete_challenge
deleted-IsKept id b h = (delete-IsSound id b h.0, λ i s k. h.1 i s (kept id i s b.challenges k).0)

abandon-IsKept : (id : String) (b : Broker) → IsKept b → IsKept (abandon_challenge id b)
unfolding abandon_challenge
abandon-IsKept id b h = elim (Bool-cases (is_present (lookup id b.challenges))) [
  | inl here ↦ rw here (notify-IsKept (delete_challenge id b) (deleted-IsKept id b h))
  | inr gone ↦ rw gone h
]

answered-IsKept :
    (owner : ℕ) (id : String) (resolution : Resolution) (s : ChallengeState) (b : Broker)
    → lookup id b.challenges ≡ some s
    → IsKept b
    → IsKept (send s.result (result_of resolution) (notify (delete_challenge id b)))
unfolding send notify delete_challenge
answered-IsKept owner id resolution s b l h = (
  notify-IsSound _ (finish-IsSound id s (result_of resolution) b h.0 l),
  (deleted-IsKept id b h).1,
)

resolve-IsKept :
    (owner : ℕ) (id : String) (resolution : Resolution) (b : Broker)
    → IsKept b
    → IsKept (resolve owner id resolution b).0
unfolding resolve resolve_state
resolve-IsKept owner id resolution b h = elim (Option-cases (lookup id b.challenges)) [
  | inl gone ↦ rw gone (if-IsKept _ _ _ h h)
  | inr (s, found) ↦ rw found (
      if-IsKept _ _ _ h (
        if-IsKept (not (s.owner == owner)) _ _ h (answered-IsKept owner id resolution s b found h)))
]

claim-IsKept : (owner : ℕ) (b : Broker) → IsKept b → IsKept (claimed_broker b (claim owner b))
unfolding claim
claim-IsKept owner b h = elim (Bool-cases (owner == 0)) [
  | inl empty ↦ rw empty h
  | inr client ↦ rw client (claim-IsSound owner b h.0, claim-IsOpen owner b h.1)
]

step-IsKept : (b : Broker) (call : Call) → IsKept b → IsKept (step b call)
step-IsKept b (begins ended endpoint timeout drawn deadline) h =
    begin-IsKept ended endpoint timeout drawn deadline b h
step-IsKept b (asks ended attempt_ended token prompt kind drawn) h =
    ask-IsKept ended attempt_ended token prompt kind drawn b h
step-IsKept b (claims owner) h = claim-IsKept owner b h
step-IsKept b (resolves owner id resolution) h = resolve-IsKept owner id resolution b h
step-IsKept b (detaches owner) h = (detach-IsSound owner b h.0, detach-IsOpen owner b h.1)
step-IsKept b (closes token cause) h =
    (close_attempt-IsSound token cause b h.0, close_attempt-IsOpen token cause b h.1)
step-IsKept b (abandons id) h = abandon-IsKept id b h

pub run-IsKept : (b : Broker) (calls : List Call) → IsKept b → IsKept (run b calls)
run-IsKept b [] h = h
run-IsKept b (call ∷ calls) h = run-IsKept (step b call) calls (step-IsKept b call h)

empty-IsKept :
    (max_prompts : ℕ)
    → IsKept (record {
      max_prompts = max_prompts;
      attempts = [];
      challenges = [];
      order = [];
      changed = 0;
      channels = 0;
      sent = [];
    })
unfolding lookup
empty-IsKept max_prompts = (
  record {
    ordered = refl;
    unique = tt;
    sent_once = tt;
    made = λ c h. refl;
    waiting = λ i s k. absurd (ground arith);
    distinct = λ i j s t k l e. absurd (ground arith);
    one_each = λ i j s t k l e pos. absurd (ground arith);
    counted = λ t a k. absurd (ground arith);
  },
  λ i s k. absurd (ground arith),
)

-- Whatever calls come to a new broker: its order lists the challenges that wait, each once and each
-- of an attempt that is not closed; no attempt has more prompts than the maximum; a client has at
-- most one challenge; and a prompt's channel takes at most one result, none while it waits.
pub run-new_broker-IsKept :
    (max_prompts : ℕ) (b : Broker) (calls : List Call)
    → new_broker max_prompts ≡ ok b
    → IsKept (run b calls)
unfolding new_broker lookup
run-new_broker-IsKept max_prompts b calls h =
    elim (Bool-cases (max_prompts == 0 || leb (2 ^ 63) max_prompts)) [
      | inl wrong ↦ absurd (ground arith)
      | inr right ↦
          run-IsKept b calls
            (subst IsKept (ok-injective (rw right at h)) (empty-IsKept max_prompts))
    ]

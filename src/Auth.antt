-- ===== src/Auth.antt =====
-- internal/auth/broker.go: the broker of authentication challenges. What crypto/rand and a context
-- give is an argument of the calls: `drawn` is randomID's value, none when the reader fails, and
-- `ended` is what ctx.Err() returns. A result channel is a number, and what is sent is recorded.
pub mod Keys
pub mod Sound
pub mod Closing
pub mod Claiming
pub mod Asking
pub mod Invariant
pub mod Answers
mod Tests
use awesome_sftp_cli.Base.{
  ◌≐◌, ℕ, ◌+◌, ◌^◌, String, Bool, true, false, not, ◌&&◌, ◌||◌, Option, none, some, List, [], ◌∷◌,
  ◌++◌, leb, ◌==◌, if◌then◌else◌, length, Result, ok, err, ◌>>◌, refuse_if, string_eq,
}
use awesome_sftp_cli.Base.Map.{delete, insert, lookup}
use awesome_sftp_cli.Base.Members.{value_or}

pub data ContextError : Type 0 where
  context_canceled context_deadline_exceeded : ContextError

pub data AuthError : Type 0 where
  context_ended : ContextError → AuthError
  invalid_maximum invalid_attempt random_failed token_collision : AuthError
  invalid_prompt attempt_not_found prompt_limit challenge_collision : AuthError
  empty_owner invalid_resolution challenge_not_found not_owner : AuthError

pub record Challenge : Type 0 where
  pub id : String
  pub endpoint : String
  pub kind : String
  pub prompt : String
  pub expires_at : ℕ

pub record Resolution : Type 0 where
  pub answer : List ℕ
  pub cancel : Bool

pub record AttemptState : Type 0 where
  pub token : String
  pub endpoint : String
  pub deadline : ℕ
  pub prompts : ℕ

pub record ChallengeState : Type 0 where
  pub challenge : Challenge
  pub attempt : String
  pub owner : ℕ
  pub result : ℕ

abbrev pub PromptResult : Type 0
PromptResult = Result ContextError (List ℕ)

-- `channels` counts the result channels that were made, `sent` holds what was sent on which.
pub record Broker : Type 0 where
  pub max_prompts : ℕ
  pub attempts : List (String × AttemptState)
  pub challenges : List (String × ChallengeState)
  pub order : List String
  pub changed : ℕ
  pub channels : ℕ
  pub sent : List (ℕ × PromptResult)

-- An int is its bit pattern, negative from 2 ^ 63 on.
unfoldable pub new_broker : ℕ → Result AuthError Broker
new_broker max_prompts = do
  refuse_if (max_prompts == 0 || leb (2 ^ 63) max_prompts) invalid_maximum
  ok (record {
    max_prompts = max_prompts;
    attempts = [];
    challenges = [];
    order = [];
    changed = 0;
    channels = 0;
    sent = [];
  })

unfoldable pub notify : Broker → Broker
notify b = record b { changed = b.changed + 1 }

unfoldable pub remove_ordered : String → List String → List String
remove_ordered id [] = []
remove_ordered id (ordered ∷ rest) = if ordered ≐ id then rest else ordered ∷ remove_ordered id rest

unfoldable pub delete_challenge : String → Broker → Broker
unfolding remove_ordered
delete_challenge id b = record b {
  challenges = delete id b.challenges;
  order = remove_ordered id b.order;
}

-- `state.result <- result`.
unfoldable pub send : ℕ → PromptResult → Broker → Broker
send channel result b = record b { sent = (channel, result) ∷ b.sent }

unfoldable pub is_present {ℓ} : {A : Type ℓ} → Option A → Bool
is_present none = false
is_present (some a) = true

-- BeginAttempt up to its goroutine, which closes the attempt when its context ends.
unfoldable pub begin_attempt :
    Option ContextError → String → ℕ → Option String → ℕ → Broker → Broker × Result AuthError String
unfolding notify is_present
begin_attempt (some cause) endpoint timeout drawn deadline b = (b, err (context_ended cause))
begin_attempt none endpoint timeout none deadline b =
    if endpoint ≐ "" || (timeout == 0 || leb (2 ^ 63) timeout)
    then (b, err invalid_attempt)
    else (b, err random_failed)
begin_attempt none endpoint timeout (some token) deadline b =
    if endpoint ≐ "" || (timeout == 0 || leb (2 ^ 63) timeout)
    then (b, err invalid_attempt)
    else if is_present (lookup token b.attempts)
    then (b, err token_collision)
    else (
      notify (record b {
        attempts =
            insert token
              (record { token = token; endpoint = endpoint; deadline = deadline; prompts = 0 })
              b.attempts;
      }),
      ok token,
    )

-- The loop over the challenges of closeAttempt; what it collects is answered at once.
unfoldable pub close_challenges :
    String → ContextError → List (String × ChallengeState) → Broker → Broker
unfolding delete_challenge send
close_challenges token cause [] b = b
close_challenges token cause ((id, state) ∷ rest) b =
    close_challenges token cause rest
      (if state.attempt ≐ token then send state.result (err cause) (delete_challenge id b) else b)

-- A nil cause counts as context.Canceled.
unfoldable pub close_attempt : String → Option ContextError → Broker → Broker
unfolding close_challenges notify is_present
close_attempt token cause b =
    if is_present (lookup token b.attempts)
    then notify (
        close_challenges token (value_or context_canceled cause) b.challenges
          (record b { attempts = delete token b.attempts }))
    else b

abbrev pub valid_prompt_kind : String → Bool
valid_prompt_kind kind = kind ≐ "secret" || kind ≐ "confirm" || kind ≐ "unknown"

-- Prompt with the attempt that it finds, after the context of the attempt was found to run.
unfoldable pub post_challenge :
    String → String → String → String → AttemptState → Broker → Broker × Result AuthError ℕ
unfolding notify is_present
post_challenge token prompt kind id attempt b =
    if leb b.max_prompts attempt.prompts
    then (b, err prompt_limit)
    else if is_present (lookup id b.challenges)
    then (b, err challenge_collision)
    else (
      notify (record b {
        attempts = insert token (record attempt { prompts = attempt.prompts + 1 }) b.attempts;
        challenges =
            insert id
              (record {
                challenge = record {
                  id = id;
                  endpoint = attempt.endpoint;
                  kind = kind;
                  prompt = prompt;
                  expires_at = attempt.deadline;
                };
                attempt = token;
                owner = 0;
                result = b.channels;
              })
              b.challenges;
        order = b.order ++ (id ∷ []);
        channels = b.channels + 1;
      }),
      ok b.channels,
    )

unfoldable pub find_attempt :
    String
    → String
    → String
    → String
    → Option ContextError
    → Option AttemptState
    → Broker
    → Broker × Result AuthError ℕ
unfolding close_attempt post_challenge
find_attempt token prompt kind id ended none b = (b, err attempt_not_found)
find_attempt token prompt kind id (some cause) (some attempt) b =
    (close_attempt token (some cause) b, err attempt_not_found)
find_attempt token prompt kind id none (some attempt) b =
    post_challenge token prompt kind id attempt b

-- Prompt up to its select, with the number of its channel. `attempt_ended` is what the attempt's
-- ctx.Err() returns.
unfoldable pub ask :
    Option ContextError
    → Option ContextError
    → String
    → String
    → String
    → Option String
    → Broker
    → Broker × Result AuthError ℕ
unfolding find_attempt
ask (some cause) attempt_ended token prompt kind drawn b = (b, err (context_ended cause))
ask none attempt_ended token prompt kind none b =
    if token ≐ "" || prompt ≐ "" || not (valid_prompt_kind kind)
    then (b, err invalid_prompt)
    else (b, err random_failed)
ask none attempt_ended token prompt kind (some id) b =
    if token ≐ "" || prompt ≐ "" || not (valid_prompt_kind kind)
    then (b, err invalid_prompt)
    else find_attempt token prompt kind id attempt_ended (lookup token b.attempts) b

-- What Prompt does when a context ends before the answer.
unfoldable pub abandon_challenge : String → Broker → Broker
unfolding delete_challenge notify is_present
abandon_challenge id b =
    if is_present (lookup id b.challenges) then notify (delete_challenge id b) else b

unfoldable pub owned_by : ℕ → List (String × ChallengeState) → Option Challenge
owned_by owner [] = none
owned_by owner ((id, state) ∷ rest) =
    if state.owner == owner then some state.challenge else owned_by owner rest

unfoldable pub is_unowned : Option ChallengeState → Bool
is_unowned none = false
is_unowned (some state) = state.owner == 0

unfoldable pub first_unowned : List String → List (String × ChallengeState) → Option String
unfolding is_unowned
first_unowned [] challenges = none
first_unowned (id ∷ rest) challenges =
    if is_unowned (lookup id challenges) then some id else first_unowned rest challenges

unfoldable pub set_owner : String → ℕ → Option ChallengeState → Broker → Broker × Option Challenge
set_owner id owner none b = (b, none)
set_owner id owner (some state) b = (
  record b { challenges = insert id (record state { owner = owner }) b.challenges },
  some state.challenge,
)

unfoldable pub claim_next : ℕ → Option String → Broker → Broker × Option Challenge
unfolding set_owner
claim_next owner none b = (b, none)
claim_next owner (some id) b = set_owner id owner (lookup id b.challenges) b

unfoldable pub claim_other : ℕ → Option Challenge → Broker → Broker × Option Challenge
unfolding claim_next first_unowned
claim_other owner (some challenge) b = (b, some challenge)
claim_other owner none b = claim_next owner (first_unowned b.order b.challenges) b

-- One turn of Claim's loop while its context runs; without a challenge it waits for a change.
unfoldable pub claim : ℕ → Broker → Result AuthError (Broker × Option Challenge)
unfolding claim_other owned_by
claim owner b = do
  refuse_if (owner == 0) empty_owner
  ok (claim_other owner (owned_by owner b.challenges) b)

unfoldable pub result_of : Resolution → PromptResult
result_of resolution = if resolution.cancel then err context_canceled else ok resolution.answer

unfoldable pub resolve_state :
    ℕ → String → Resolution → Option ChallengeState → Broker → Broker × Result AuthError (Unit {0})
unfolding send notify delete_challenge result_of
resolve_state owner id resolution none b = (b, err challenge_not_found)
resolve_state owner id resolution (some state) b =
    if not (state.owner == owner)
    then (b, err not_owner)
    else (send state.result (result_of resolution) (notify (delete_challenge id b)), ok tt)

unfoldable pub resolve : ℕ → String → Resolution → Broker → Broker × Result AuthError (Unit {0})
unfolding resolve_state
resolve owner id resolution b =
    if owner == 0 || id ≐ "" || resolution.cancel && not (length resolution.answer == 0)
    then (b, err invalid_resolution)
    else resolve_state owner id resolution (lookup id b.challenges) b

unfoldable pub is_owner : ℕ → List (String × ChallengeState) → Bool
is_owner owner [] = false
is_owner owner ((id, state) ∷ rest) = state.owner == owner || is_owner owner rest

unfoldable pub disown : ℕ → List (String × ChallengeState) → List (String × ChallengeState)
disown owner [] = []
disown owner ((id, state) ∷ rest) =
    (id, (if state.owner == owner then record state { owner = 0 } else state)) ∷ disown owner rest

unfoldable pub detach : ℕ → Broker → Broker
unfolding disown is_owner notify
detach owner b =
    if owner == 0
    then b
    else if is_owner owner b.challenges
    then notify (record b { challenges = disown owner b.challenges })
    else b

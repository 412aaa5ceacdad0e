-- ===== src/Auth/Answers.antt =====
-- internal/auth/broker.go: who answers a challenge.
use awesome_sftp_cli.Base.{
  ◌≐◌, ℕ, ◌≤◌, String, ◌≡◌, refl, Bool, true, false, not, ◌&&◌, ◌||◌, none, some, List, ◌∷◌, arith,
  ◌==◌, if◌then◌else◌, ==_iff, length, ok, err, string_eq, nat_eq,
}
use awesome_sftp_cli.Base.Map.{lookup, delete, lookup-delete}
use awesome_sftp_cli.Auth.{
  ChallengeState, PromptResult, Resolution, resolve, result_of, resolve_state, send, Broker, notify,
  challenge_not_found, delete_challenge, context_canceled,
}

gone : (id : String) (m : List (String × ChallengeState)) → lookup id (delete id m) ≡ none
gone id m = ground (arith, lookup-delete id id m, string_eq.equal_iff id id)

on_top : (c : ℕ) (r : PromptResult) (m : List (ℕ × PromptResult)) → lookup c ((c, r) ∷ m) ≡ some r
unfolding lookup
on_top c r m = ground (arith, ==_iff c c)

abbrev refused_resolution : ℕ → String → Resolution → Bool
refused_resolution owner id resolution =
    owner == 0 || id ≐ "" || resolution.cancel && not (length resolution.answer == 0)

resolve_found :
    (owner : ℕ) (id : String) (resolution : Resolution) (b : Broker) (s : ChallengeState)
    → refused_resolution owner id resolution ≡ false
    → lookup id b.challenges ≡ some s
    → s.owner ≡ owner
    → resolve owner id resolution b
      ≡ (send s.result (result_of resolution) (notify (delete_challenge id b)), ok tt)
unfolding resolve resolve_state
resolve_found owner id resolution b s fit found its =
    let same : (s.owner == owner) ≡ true = (==_iff s.owner owner).1 its in
    rw (fit, found, same) refl

resolve_gone :
    (owner : ℕ) (id : String) (resolution : Resolution) (b : Broker)
    → refused_resolution owner id resolution ≡ false
    → lookup id b.challenges ≡ none
    → resolve owner id resolution b ≡ (b, err challenge_not_found)
unfolding resolve resolve_state
resolve_gone owner id resolution b fit missing = rw (fit, missing) refl

-- A client that claimed a challenge and resolves it, with an answer or a cancellation but not both,
-- has the result sent on the prompt's channel; the challenge is gone, and resolving it again
-- changes nothing and finds no challenge.
pub resolve_lem :
    (owner : ℕ) (id : String) (resolution : Resolution) (b : Broker) (s : ChallengeState)
    → 1 ≤ owner
    → (id ≐ "") ≡ false
    → resolution.cancel && not (length resolution.answer == 0) ≡ false
    → lookup id b.challenges ≡ some s
    → s.owner ≡ owner
    → (b' : Broker) × (resolve owner id resolution b ≡ (b', ok tt))
      × (lookup s.result b'.sent
          ≡ some (if resolution.cancel then err context_canceled else ok resolution.answer))
      × (lookup id b'.challenges ≡ none)
      × (resolve owner id resolution b' ≡ (b', err challenge_not_found))
unfolding result_of send notify delete_challenge
resolve_lem owner id resolution b s client named fit found its =
    let accepted : refused_resolution owner id resolution ≡ false = ground arith in
    let b' = send s.result (result_of resolution) (notify (delete_challenge id b)) in
    let away : lookup id b'.challenges ≡ none = gone id b.challenges in
    (
      b',
      resolve_found owner id resolution b s accepted found its,
      on_top s.result (result_of resolution) b.sent,
      away,
      resolve_gone owner id resolution b' accepted away,
    )

-- ===== src/Job.antt =====
-- internal/job/state.go: the durable states of a Job and the transitions between them.
pub mod Lifecycle
mod Tests
use awesome_sftp_cli.Base.{
  ℕ, String, Bool, true, false, ◌||◌, List, [], ◌∷◌, ◌==◌, if◌then◌else◌, string_eq, nat_eq,
}

-- Go's State is a text. `unlisted` stands for a text that is none of the constants: the code
-- only ever compares a state with a constant.
pub data State : Type 0 where
  draft awaiting_confirmation queued running verifying paused waiting_auth : State
  waiting_conflict retry_wait completed completed_with_source_retained failed canceled : State
  unlisted : String → State

-- A number for each constant, by which states are compared.
tag : State → ℕ
tag draft = 0
tag awaiting_confirmation = 1
tag queued = 2
tag running = 3
tag verifying = 4
tag paused = 5
tag waiting_auth = 6
tag waiting_conflict = 7
tag retry_wait = 8
tag completed = 9
tag completed_with_source_retained = 10
tag failed = 11
tag canceled = 12
tag (unlisted text) = 13

-- `candidate == state` for a constant `candidate`.
unfoldable pub same : State → State → Bool
unfolding tag
same candidate state = tag candidate == tag state

unfoldable pub all_states : List State
all_states =
    draft ∷ awaiting_confirmation ∷ queued ∷ running ∷ verifying ∷ paused ∷ waiting_auth
    ∷ waiting_conflict ∷ retry_wait ∷ completed ∷ completed_with_source_retained ∷ failed ∷ canceled
    ∷ []

-- The rows of the map of maps; a missing row is Go's nil map.
unfoldable pub transitions : State → List State
transitions draft = awaiting_confirmation ∷ queued ∷ canceled ∷ []
transitions awaiting_confirmation = queued ∷ canceled ∷ []
transitions queued = running ∷ paused ∷ failed ∷ canceled ∷ []
transitions running =
    verifying ∷ paused ∷ waiting_auth ∷ waiting_conflict ∷ retry_wait ∷ failed ∷ canceled ∷ []
transitions verifying =
    completed ∷ completed_with_source_retained ∷ paused ∷ waiting_auth ∷ waiting_conflict
    ∷ retry_wait ∷ failed ∷ canceled ∷ []
transitions paused = queued ∷ canceled ∷ []
transitions waiting_auth = queued ∷ canceled ∷ []
transitions waiting_conflict = queued ∷ canceled ∷ []
transitions retry_wait = queued ∷ canceled ∷ []
transitions _ = []

unfoldable pub holds : List State → State → Bool
unfolding same
holds [] state = false
holds (candidate ∷ rest) state = same candidate state || holds rest state

unfoldable pub can_transition : State → State → Bool
unfolding transitions holds
can_transition from to = holds (transitions from) to

unfoldable pub valid : State → Bool
unfolding all_states holds
valid state = holds all_states state

unfoldable pub terminal : State → Bool
unfolding same
terminal state =
    same completed state
    || same completed_with_source_retained state
    || same failed state
    || same canceled state

unfoldable pub conservative_restart_state : State → State × Bool
unfolding same
conservative_restart_state state =
    if same running state || same verifying state then (paused, true) else (state, false)

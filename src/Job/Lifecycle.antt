-- ===== src/Job/Lifecycle.antt =====
-- internal/job/state.go: what a Job's life can look like, as a relation and its closure.
use awesome_sftp_cli.Base.{◌≡◌, refl, ◌↔◌, ◌⊎◌, true, false, List, [], ◌∷◌, arith}
use mathlib.Core.List.{Memᴰ}
use awesome_sftp_cli.Job.{
  State, draft, awaiting_confirmation, queued, running, verifying, paused, waiting_auth,
  waiting_conflict, retry_wait, completed, completed_with_source_retained, failed, canceled,
  unlisted, can_transition, valid, terminal, conservative_restart_state,
}

-- The lifecycle, described without the table: preparation, execution, and interruptions.
pub data IsExecuting : State → Type 0 where
  executes : IsExecuting running
  verifies : IsExecuting verifying

pub data IsResting : State → Type 0 where
  rests_paused : IsResting paused
  rests_auth : IsResting waiting_auth
  rests_conflict : IsResting waiting_conflict
  rests_retry : IsResting retry_wait

pub data IsPending : State → Type 0 where
  pending_draft : IsPending draft
  pending_confirmation : IsPending awaiting_confirmation

pub data Step : State → State → Type 0 where
  present : Step draft awaiting_confirmation
  submit : {s : State} → IsPending s → Step s queued
  start : Step queued running
  hold : Step queued paused
  check : Step running verifying
  finish : Step verifying completed
  finish_retained : Step verifying completed_with_source_retained
  interrupt : {s t : State} → IsExecuting s → IsResting t → Step s t
  resume : {s : State} → IsResting s → Step s queued
  reject : Step queued failed
  break_down : {s : State} → IsExecuting s → Step s failed
  cancel_pending : {s : State} → IsPending s → Step s canceled
  cancel_queued : Step queued canceled
  cancel_executing : {s : State} → IsExecuting s → Step s canceled
  cancel_resting : {s : State} → IsResting s → Step s canceled

Step-can_transition : {s t : State} → Step s t → can_transition s t ≡ true
unfolding can_transition
Step-can_transition present = refl
Step-can_transition (submit pending_draft) = refl
Step-can_transition (submit pending_confirmation) = refl
Step-can_transition (interrupt executes rests_paused) = refl
Step-can_transition (interrupt executes rests_auth) = refl
Step-can_transition (interrupt executes rests_conflict) = refl
Step-can_transition (interrupt executes rests_retry) = refl
Step-can_transition (interrupt verifies rests_paused) = refl
Step-can_transition (interrupt verifies rests_auth) = refl
Step-can_transition (interrupt verifies rests_conflict) = refl
Step-can_transition (interrupt verifies rests_retry) = refl
Step-can_transition (resume rests_paused) = refl
Step-can_transition (resume rests_auth) = refl
Step-can_transition (resume rests_conflict) = refl
Step-can_transition (resume rests_retry) = refl
Step-can_transition (break_down executes) = refl
Step-can_transition (break_down verifies) = refl
Step-can_transition (cancel_pending pending_draft) = refl
Step-can_transition (cancel_pending pending_confirmation) = refl
Step-can_transition (cancel_executing executes) = refl
Step-can_transition (cancel_executing verifies) = refl
Step-can_transition (cancel_resting rests_paused) = refl
Step-can_transition (cancel_resting rests_auth) = refl
Step-can_transition (cancel_resting rests_conflict) = refl
Step-can_transition (cancel_resting rests_retry) = refl
Step-can_transition _ = refl

ruleset roles = (
  executes, verifies, rests_paused, rests_auth, rests_conflict, rests_retry, pending_draft,
  pending_confirmation,
)

ruleset steps = (
  present, submit, start, hold, check, finish, finish_retained, interrupt, resume, reject,
  break_down, cancel_pending, cancel_queued, cancel_executing, cancel_resting,
)

can_transition-Step : (s t : State) → can_transition s t ≡ true → Step s t
unfolding can_transition
can_transition-Step draft draft h = cc
can_transition-Step draft _ h = first_of (cc, search (steps, roles))
can_transition-Step awaiting_confirmation draft h = cc
can_transition-Step awaiting_confirmation _ h = first_of (cc, search (steps, roles))
can_transition-Step queued draft h = cc
can_transition-Step queued _ h = first_of (cc, search (steps, roles))
can_transition-Step running draft h = cc
can_transition-Step running _ h = first_of (cc, search (steps, roles))
can_transition-Step verifying draft h = cc
can_transition-Step verifying _ h = first_of (cc, search (steps, roles))
can_transition-Step paused draft h = cc
can_transition-Step paused _ h = first_of (cc, search (steps, roles))
can_transition-Step waiting_auth draft h = cc
can_transition-Step waiting_auth _ h = first_of (cc, search (steps, roles))
can_transition-Step waiting_conflict draft h = cc
can_transition-Step waiting_conflict _ h = first_of (cc, search (steps, roles))
can_transition-Step retry_wait draft h = cc
can_transition-Step retry_wait _ h = first_of (cc, search (steps, roles))
can_transition-Step completed draft h = cc
can_transition-Step completed _ h = first_of (cc, search (steps, roles))
can_transition-Step completed_with_source_retained draft h = cc
can_transition-Step completed_with_source_retained _ h = first_of (cc, search (steps, roles))
can_transition-Step failed draft h = cc
can_transition-Step failed _ h = first_of (cc, search (steps, roles))
can_transition-Step canceled draft h = cc
can_transition-Step canceled _ h = first_of (cc, search (steps, roles))
can_transition-Step (unlisted text) draft h = cc
can_transition-Step (unlisted text) _ h = first_of (cc, search (steps, roles))

-- The table allows exactly the steps of the lifecycle, from every state and to every state.
pub can_transition_iff : (s t : State) → (can_transition s t ≡ true) ↔ Step s t
can_transition_iff s t = (can_transition-Step s t, Step-can_transition)

-- A state with a name is terminal exactly when the table allows no transition out of it.
pub terminal_iff_stuck :
    (s : State) → valid s ≡ true → (terminal s ≡ true) ↔ ((t : State) → can_transition s t ≡ false)
unfolding valid terminal can_transition
terminal_iff_stuck completed v = (λ _ t. refl, λ _. refl)
terminal_iff_stuck completed_with_source_retained v = (λ _ t. refl, λ _. refl)
terminal_iff_stuck failed v = (λ _ t. refl, λ _. refl)
terminal_iff_stuck canceled v = (λ _ t. refl, λ _. refl)
terminal_iff_stuck (unlisted text) v = cc
terminal_iff_stuck _ v = (λ h. cc, λ stuck. cc (stuck canceled))

-- The transitions that a Job goes through, with the states that it enters.
pub data Trace (s : State) : List State → State → Type 0 where
  here : Trace s [] s
  next :
      {visited : List State} {t u : State}
      → Trace s visited t
      → can_transition t u ≡ true
      → Trace s (u ∷ visited) u

complete_from_queue :
    {s : State} {visited : List State}
    → Trace s visited queued
    → Trace s (completed ∷ verifying ∷ running ∷ visited) completed
unfolding can_transition
complete_from_queue t = next {t = verifying} (next {t = running} (next t refl) refl) refl

-- Every state with a name that is not terminal can be canceled at once, and can still complete.
pub live_can_end :
    (s : State)
    → valid s ≡ true
    → terminal s ≡ false
    → (can_transition s canceled ≡ true) × ((visited : List State) × Trace s visited completed)
unfolding valid terminal can_transition
live_can_end queued v h = (refl, (_, complete_from_queue here))
live_can_end running v h = (refl, (_, next {t = verifying} (next here refl) refl))
live_can_end verifying v h = (refl, (_, next here refl))
live_can_end draft v h = (refl, (_, complete_from_queue (next here refl)))
live_can_end awaiting_confirmation v h = (refl, (_, complete_from_queue (next here refl)))
live_can_end paused v h = (refl, (_, complete_from_queue (next here refl)))
live_can_end waiting_auth v h = (refl, (_, complete_from_queue (next here refl)))
live_can_end waiting_conflict v h = (refl, (_, complete_from_queue (next here refl)))
live_can_end retry_wait v h = (refl, (_, complete_from_queue (next here refl)))
live_can_end _ v h = cc

-- What the path to a state has visited.
abbrev Needs : State → List State → Type 0
Needs queued vs = Memᴰ queued vs
Needs running vs = Memᴰ queued vs × Memᴰ running vs
Needs verifying vs = Memᴰ queued vs × Memᴰ running vs × Memᴰ verifying vs
Needs completed vs = Memᴰ queued vs × Memᴰ running vs × Memᴰ verifying vs
Needs completed_with_source_retained vs = Memᴰ queued vs × Memᴰ running vs × Memᴰ verifying vs
Needs _ vs = Unit {0}

-- Every needed state was visited by the step that enters it, or before.
Step-Needs : {s t : State} (vs : List State) → Step s t → Needs s vs → Needs t (t ∷ vs)
Step-Needs vs present n = tt
Step-Needs vs (submit p) n = Memᴰ.head refl
Step-Needs vs start n = (Memᴰ.tail n, Memᴰ.head refl)
Step-Needs vs hold n = tt
Step-Needs vs check n = (Memᴰ.tail n.0, Memᴰ.tail n.1, Memᴰ.head refl)
Step-Needs vs finish n = (Memᴰ.tail n.0, Memᴰ.tail n.1, Memᴰ.tail n.2)
Step-Needs vs finish_retained n = (Memᴰ.tail n.0, Memᴰ.tail n.1, Memᴰ.tail n.2)
Step-Needs vs (interrupt e rests_paused) n = tt
Step-Needs vs (interrupt e rests_auth) n = tt
Step-Needs vs (interrupt e rests_conflict) n = tt
Step-Needs vs (interrupt e rests_retry) n = tt
Step-Needs vs (resume r) n = Memᴰ.head refl
Step-Needs vs _ n = tt

Trace-Needs : {s : State} {vs : List State} → Trace draft vs s → Needs s vs
Trace-Needs here = tt
Trace-Needs (next {visited = vs} {t = t} {u = u} trace h) =
    Step-Needs vs (can_transition-Step t u h) (Trace-Needs trace)

-- A Job that was a draft and has completed, with its source kept or not, entered the queue, ran and was verified.
pub completed_was_verified :
    (visited : List State) (s : State)
    → (s ≡ completed) ⊎ (s ≡ completed_with_source_retained)
    → Trace draft visited s
    → Memᴰ queued visited × Memᴰ running visited × Memᴰ verifying visited
completed_was_verified vs completed h t = Trace-Needs t
completed_was_verified vs completed_with_source_retained h t = Trace-Needs t
completed_was_verified vs _ h t = absurd (ground arith)

-- A restart changes exactly the executing states: to paused, by a transition of the table. What it gives is left alone by a second restart.
pub restart_lem :
    (s : State)
    → let (s', changed) = conservative_restart_state s in
      ((changed ≡ true) ↔ IsExecuting s)
      × (changed ≡ true → (s' ≡ paused) × (can_transition s s' ≡ true))
      × (changed ≡ false → s' ≡ s)
      × (conservative_restart_state s' ≡ (s', false))
unfolding conservative_restart_state can_transition
restart_lem running = ((λ _. executes, λ _. refl), λ _. (refl, refl), λ h. cc, refl)
restart_lem verifying = ((λ _. verifies, λ _. refl), λ _. (refl, refl), λ h. cc, refl)
restart_lem _ = ((λ h. cc, λ e. elim e [ ]), λ h. cc, λ _. refl, refl)

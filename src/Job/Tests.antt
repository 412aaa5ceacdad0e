-- ===== src/Job/Tests.antt =====
-- internal/job/state.go at concrete states.
use mathlib.Core.List.{Memᴰ}
use awesome_sftp_cli.Base.{◌≡◌, refl, ◌↔◌, inl, true, false, List, [], ◌∷◌}
use awesome_sftp_cli.Job.{
  State, draft, queued, running, verifying, paused, completed, canceled, can_transition, terminal,
  valid, conservative_restart_state,
}
use awesome_sftp_cli.Job.Lifecycle.{
  IsExecuting, Step, Trace, here, next, can_transition_iff, terminal_iff_stuck, live_can_end,
  completed_was_verified, restart_lem,
}

can_transition_iff_example : (can_transition running verifying ≡ true) ↔ Step running verifying
can_transition_iff_example = can_transition_iff running verifying

terminal_iff_stuck_example :
    (terminal canceled ≡ true) ↔ ((t : State) → can_transition canceled t ≡ false)
unfolding valid
terminal_iff_stuck_example = terminal_iff_stuck canceled refl

live_can_end_example :
    (can_transition paused canceled ≡ true)
    × ((visited : List State) × Trace paused visited completed)
unfolding valid terminal
live_can_end_example = live_can_end paused refl refl

abbrev straight : List State
straight = completed ∷ verifying ∷ running ∷ queued ∷ []

straight-Trace : Trace draft straight completed
unfolding can_transition
straight-Trace =
    next {t = verifying} (next {t = running} (next {t = queued} (next here refl) refl) refl) refl

completed_was_verified_example :
    Memᴰ queued straight × Memᴰ running straight × Memᴰ verifying straight
completed_was_verified_example = completed_was_verified straight completed (inl refl) straight-Trace

restart_lem_example :
    let (s', changed) = conservative_restart_state verifying in
    ((changed ≡ true) ↔ IsExecuting verifying)
    × (changed ≡ true → (s' ≡ paused) × (can_transition verifying s' ≡ true))
    × (changed ≡ false → s' ≡ verifying)
    × (conservative_restart_state s' ≡ (s', false))
restart_lem_example = restart_lem verifying

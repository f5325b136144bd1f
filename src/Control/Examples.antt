-- ===== src/Control/Examples.antt =====
-- Interleaved calls of crates/jaiba-runtime/src/engine/control.rs.
use jaiva.Prelude.{none, some, List, [], ◌∷◌, ◌≡◌, refl}
use jaiva.Control.{
  running, failed, paused, FlowControl, default, note_change, send_replace, pause, resume, drain,
  allows, aim, transition, begin, advance, advance_at, is_starting, is_running, is_stopped,
  has_failed, commands, System, Action, begins, advances, step, run,
}
use jaiva.Control.Laws.{is_ending, is_command, run-ending}

-- Starting and running, each from its beginning to its end.
abbrev up : System
up =
    run (record { control = default 0; calls = [] })
      (begins is_starting
        ∷ advances 0 1
        ∷ advances 0 1
        ∷ begins is_running
        ∷ advances 1 2
        ∷ advances 1 2
        ∷ [])

-- A pause has read that the flow runs. Then the engine stops the flow, and the pause goes on: the
-- flow shows as paused.
abbrev overtaken : List Action
overtaken =
    begins (commands pause)
    ∷ advances 2 3
    ∷ begins is_stopped
    ∷ advances 3 4
    ∷ advances 3 4
    ∷ advances 2 5
    ∷ advances 2 5
    ∷ []

lost_stop : (run up overtaken).control.state ≡ paused
unfolding run step default begin transition advance advance_at allows aim note_change send_replace
lost_stop = refl

-- A resume behind that makes the flow that has stopped show as running.
runs_again :
    (run
      (run up overtaken)
      (begins (commands resume) ∷ advances 4 6 ∷ advances 4 6 ∷ advances 4 6 ∷ [])).control.state
    ≡ running
unfolding run step default begin transition advance advance_at allows aim note_change send_replace
runs_again = refl

-- Two calls whose parts are interleaved show a flow that has failed without its error.
lost_error :
    let c =
      (run up (
        begins (has_failed "disk full")
        ∷ begins is_running
        ∷ advances 2 3
        ∷ advances 3 4
        ∷ advances 3 4
        ∷ advances 2 5
        ∷ [])).control in
    (c.state ≡ failed) × (c.last_error ≡ none)
unfolding run step default begin transition advance advance_at note_change send_replace
lost_error = (refl, refl)

abbrev broken : FlowControl
broken = record { state = failed; last_error = some "disk full"; changed_at = 5 }

-- Commands behind the end do nothing.
stays_broken :
    (run
      (record { control = broken; calls = [] })
      (begins (commands drain)
        ∷ begins (commands resume)
        ∷ advances 1 6
        ∷ advances 0 7
        ∷ [])).control
    ≡ broken
unfolding is_ending is_command
stays_broken =
    run-ending broken []
      (begins (commands drain) ∷ begins (commands resume) ∷ advances 1 6 ∷ advances 0 7 ∷ []) refl
      tt (refl, (refl, (refl, (refl, tt))))

-- ===== src/Control.antt =====
-- crates/jaiba-runtime/src/engine/control.rs: the lifecycle of one execution of a flow. A command of
-- an operator tests the state first; every call writes the details under their lock and then sends the
-- state. These are steps of their own: the calls in flight take them in any order, each in its turn.
-- The clock is an argument of the step that reads it.
pub mod Laws
mod Examples
use jaiva.Prelude.{
  ℕ, String, Bool, true, false, Option, none, some, List, [], ◌∷◌, ◌++◌, if◌then◌else◌, get_elem?,
  set,
}

pub data FlowLifecycle : Type 0 where
  stopped starting running paused draining failed : FlowLifecycle

-- The value of the channel, and the details behind the lock.
pub record FlowControl : Type 0 where
  pub state : FlowLifecycle
  pub last_error : Option String
  pub changed_at : ℕ

unfoldable pub default : ℕ → FlowControl
default now = record { state = stopped; last_error = none; changed_at = now }

-- `matches!(state, Starting | Running)`
unfoldable pub clears_error : FlowLifecycle → Bool
clears_error starting = true
clears_error running = true
clears_error _ = false

unfoldable pub next_error : FlowLifecycle → Option String → Option String → Option String
unfolding clears_error
next_error state (some error) before = some error
next_error state none before = if clears_error state then none else before

-- The block of `transition` that holds the lock.
unfoldable pub note_change : FlowControl → FlowLifecycle → Option String → ℕ → FlowControl
unfolding next_error
note_change c state error now = record c {
  last_error = next_error state error c.last_error;
  changed_at = now;
}

-- `send_replace`
unfoldable pub send_replace : FlowControl → FlowLifecycle → FlowControl
send_replace c state = record c { state = state }

pub data Command : Type 0 where
  pause resume drain : Command

-- The test of a command.
unfoldable pub allows : Command → FlowLifecycle → Bool
allows pause running = true
allows resume paused = true
allows drain running = true
allows drain paused = true
allows drain starting = true
allows _ _ = false

unfoldable pub aim : Command → FlowLifecycle
aim pause = paused
aim resume = running
aim drain = draining

-- Where a call stands: before its test, before the lock, before the state is sent, or back with its
-- answer.
pub data Stage : Type 0 where
  testing : Command → Stage
  noting : FlowLifecycle → Option String → Stage
  sending : FlowLifecycle → Stage
  answered : Bool → Stage

pub data Call : Type 0 where
  is_starting is_running is_stopped : Call
  has_failed : String → Call
  commands : Command → Call

unfoldable pub transition : FlowLifecycle → Option String → Stage
transition state error = noting state error

unfoldable pub begin : Call → Stage
unfolding transition
begin is_starting = transition starting none
begin is_running = transition running none
begin is_stopped = transition stopped none
begin (has_failed error) = transition failed (some error)
begin (commands command) = testing command

-- The next step of a call.
unfoldable pub advance : FlowControl → ℕ → Stage → FlowControl × Stage
unfolding note_change send_replace allows aim transition
advance c now (testing command) =
    (c, (if allows command c.state then transition (aim command) none else answered false))
advance c now (noting state error) = (note_change c state error now, sending state)
advance c now (sending state) = (send_replace c state, answered true)
advance c now (answered changed) = (c, answered changed)

-- The control and the calls that have begun, the first at 0.
pub record System : Type 0 where
  pub control : FlowControl
  pub calls : List Stage

pub data Action : Type 0 where
  begins : Call → Action
  advances : ℕ → ℕ → Action

unfoldable pub advance_at : System → ℕ → ℕ → Option Stage → System
unfolding advance
advance_at s i now none = s
advance_at s i now (some stage) =
    let (control, next) = advance s.control now stage in
    record { control = control; calls = set s.calls i next }

unfoldable pub step : System → Action → System
unfolding begin advance_at
step s (begins call) = record s { calls = s.calls ++ begin call ∷ [] }
step s (advances i now) = advance_at s i now (get_elem? s.calls i)

unfoldable pub run : System → List Action → System
unfolding step
run s [] = s
run s (a ∷ rest) = run (step s a) rest

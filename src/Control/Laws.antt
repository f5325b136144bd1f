-- ===== src/Control/Laws.antt =====
-- crates/jaiba-runtime/src/engine/control.rs: the commands that come once an execution is over.
use jaiva.Prelude.{
  ℕ, zero, suc, Bool, true, false, Option, none, some, List, [], ◌∷◌, ◌++◌, ◌≡◌, refl, ◌∙◌, arith,
  All, get_elem?, set,
}
use mathlib.Core.Option.{some-injective}
use jaiva.Control.{
  FlowLifecycle, stopped, draining, failed, FlowControl, Command, allows, Stage, testing, noting,
  sending, answered, begin, Call, is_starting, is_running, is_stopped, has_failed, commands,
  advance, advance_at, System, Action, begins, advances, step, run,
}

-- The execution is over, or about to be.
unfoldable pub is_ending : FlowLifecycle → Bool
is_ending stopped = true
is_ending draining = true
is_ending failed = true
is_ending _ = false

-- A call that will write nothing if its test fails, or that is back.
unfoldable pub may_write : Stage → Bool
may_write (noting state error) = true
may_write (sending state) = true
may_write _ = false

unfoldable pub is_command : Action → Bool
is_command (begins (commands command)) = true
is_command (begins _) = false
is_command (advances i now) = true

abbrev pub IsHarmless : Stage → Type 0
IsHarmless stage = may_write stage ≡ false

allows_ending :
    (command : Command) (state : FlowLifecycle)
    → is_ending state ≡ true
    → allows command state ≡ false
unfolding allows is_ending
allows_ending command state over = ground (arith, over)

All-set :
    (stages : List Stage) (i : ℕ) (x : Stage)
    → All IsHarmless stages
    → IsHarmless x
    → All IsHarmless (set stages i x)
All-set [] i x h ok = tt
All-set (y ∷ ys) zero x h ok = (ok, h.1)
All-set (y ∷ ys) (suc i) x h ok = (h.0, All-set ys i x h.1 ok)

All-snoc :
    (stages : List Stage) (x : Stage)
    → All IsHarmless stages
    → IsHarmless x
    → All IsHarmless (stages ++ x ∷ [])
All-snoc [] x h ok = (ok, tt)
All-snoc (y ∷ ys) x h ok = (h.0, All-snoc ys x h.1 ok)

All-get_elem? :
    (stages : List Stage) (i : ℕ) (x : Stage)
    → All IsHarmless stages
    → get_elem? stages i ≡ some x
    → IsHarmless x
unfolding may_write
All-get_elem? [] i x h at = absurd (cc)
All-get_elem? (y ∷ ys) zero x h at = rw⁻¹ (some-injective y x at) h.0
All-get_elem? (y ∷ ys) (suc i) x h at = All-get_elem? ys i x h.1 at

-- What a harmless call does to a flow that is ending.
advance-ending :
    (c : FlowControl) (now : ℕ) (stage : Stage)
    → is_ending c.state ≡ true
    → IsHarmless stage
    → ((advance c now stage).0 ≡ c) × IsHarmless (advance c now stage).1
unfolding advance may_write
advance-ending c now (testing command) over h = (refl, rw (allows_ending command c.state over) refl)
advance-ending c now (noting state error) over h = absurd (ground (arith, h))
advance-ending c now (sending state) over h = absurd (ground (arith, h))
advance-ending c now (answered changed) over h = (refl, refl)

-- An ending flow that is left as it is, with no call that may write.
record IsLeft (c : FlowControl) (s : System) : Type 0 where
  pub same : s.control ≡ c
  pub harmless : All IsHarmless s.calls

begin-IsHarmless : (call : Call) → is_command (begins call) ≡ true → IsHarmless (begin call)
unfolding begin may_write is_command
begin-IsHarmless (commands command) h = refl
begin-IsHarmless is_starting h = absurd (ground (arith, h))
begin-IsHarmless is_running h = absurd (ground (arith, h))
begin-IsHarmless is_stopped h = absurd (ground (arith, h))
begin-IsHarmless (has_failed error) h = absurd (ground (arith, h))

advance_at-IsLeft :
    (c : FlowControl) (s : System) (i now : ℕ) (o : Option Stage)
    → is_ending c.state ≡ true
    → get_elem? s.calls i ≡ o
    → IsLeft c s
    → IsLeft c (advance_at s i now o)
unfolding advance_at
advance_at-IsLeft c s i now none over at left = left
advance_at-IsLeft c s i now (some stage) over at left =
    let own : is_ending s.control.state ≡ true = rw left.same over in
    let (kept, ok) =
      advance-ending s.control now stage own (All-get_elem? s.calls i stage left.harmless at) in
    record {
      same = kept ∙ left.same;
      harmless = All-set s.calls i (advance s.control now stage).1 left.harmless ok;
    }

step-IsLeft :
    (c : FlowControl) (s : System) (a : Action)
    → is_ending c.state ≡ true
    → is_command a ≡ true
    → IsLeft c s
    → IsLeft c (step s a)
unfolding step
step-IsLeft c s (begins call) over command left = record {
  same = left.same;
  harmless = All-snoc s.calls (begin call) left.harmless (begin-IsHarmless call command);
}
step-IsLeft c s (advances i now) over command left =
    advance_at-IsLeft c s i now (get_elem? s.calls i) over refl left

-- Commands in any number, with their steps in any order, leave a flow as it is that drains, has
-- stopped or has failed, if no call that has begun before is past its test.
pub run-ending :
    (c : FlowControl) (calls : List Stage) (actions : List Action)
    → is_ending c.state ≡ true
    → All IsHarmless calls
    → All (λ a. is_command a ≡ true) actions
    → (run (record { control = c; calls = calls }) actions).control ≡ c
unfolding run
run-ending c calls actions over harmless only =
    go (record { control = c; calls = calls }) actions only
      (record { same = refl; harmless = harmless })
  where
    go :
        (s : System) (actions : List Action)
        → All (λ a. is_command a ≡ true) actions
        → IsLeft c s
        → (run s actions).control ≡ c
    go s [] h left = left.same
    go s (a ∷ rest) h left = go (step s a) rest h.1 (step-IsLeft c s a over h.0 left)

-- ===== src/Executor/Engine/Stopping.antt =====
-- crates/jaiba-runtime/src/engine/executor/mod.rs: how the loop ends.
use jaiva.Prelude.{
  ℕ, ◌≡◌, refl, subst, inl, inr, true, false, not, ◌&&◌, Option, none, some, List, [], ◌∷◌, arith,
  is_some, is_empty, Bool-cases,
}
use jaiva.Control.{FlowLifecycle}
use jaiva.Executor.Scheduler.{Outcome, scheduled, failed, panicked, out_of_fuel}
use jaiva.Executor.Routing.{ProcessorEmission}
use jaiva.Executor.Engine.{
  Engine, MemoryStall, Setup, Progress, proceeds, fails, panics, Next, finishes, route_deferred,
  take_from_channel, stop_if_stalled, settle, after_schedule, schedule_next, is_over, is_paused,
  turn,
}

-- Nothing is left to do: no work, no task, no emission held back or in the channel.
pub record IsDone (s : Engine) : Type 0 where
  pub no_pending : s.tasks.pending ≡ []
  pub no_running : s.tasks.running ≡ []
  pub no_deferred : s.deferred ≡ none
  pub no_channel : s.channel ≡ []

abbrev Ends : Next → Type 0
Ends (finishes s) = IsDone s
Ends _ = Unit

is_empty-nil : {A : Type 0} (xs : List A) → is_empty xs ≡ true → xs ≡ []
is_empty-nil [] e = refl
is_empty-nil (x ∷ xs) e = absurd (ground (arith, e))

is_some-none : {A : Type 0} (o : Option A) → is_some o ≡ false → o ≡ none
is_some-none none e = refl
is_some-none (some x) e = absurd (ground (arith, e))

take_from_channel-Ends :
    (s : Engine) (channel : List ProcessorEmission)
    → s.channel ≡ channel
    → (is_empty s.tasks.pending && is_empty s.tasks.running && not (is_some s.deferred)) ≡ true
    → Ends (take_from_channel s channel)
unfolding take_from_channel
take_from_channel-Ends s (e ∷ rest) same idle = tt
take_from_channel-Ends s [] same idle = record {
  no_pending = is_empty-nil s.tasks.pending (ground (arith, idle));
  no_running = is_empty-nil s.tasks.running (ground (arith, idle));
  no_deferred = is_some-none s.deferred (ground (arith, idle));
  no_channel = same;
}

stop_if_stalled-Ends : (s : Engine) (o : Option MemoryStall) → Ends (stop_if_stalled s o)
unfolding stop_if_stalled
stop_if_stalled-Ends s none = tt
stop_if_stalled-Ends s (some stall) = tt

settle-Ends : (s : Engine) → Ends (settle s)
unfolding settle
settle-Ends s =
    elim (Bool-cases
      (is_empty s.tasks.pending && is_empty s.tasks.running && not (is_some s.deferred))) [
        | inl idle ↦ rw idle (take_from_channel-Ends s s.channel refl idle)
        | inr busy ↦ elim (Bool-cases (is_empty s.tasks.running)) [
          | inl none_ ↦ rw busy (rw none_ (stop_if_stalled-Ends s s.memory_stall))
          | inr some_ ↦ rw busy (rw some_ tt)
        ]
      ]

after_schedule-Ends : (s : Engine) (o : Outcome) → Ends (after_schedule s o)
unfolding after_schedule
after_schedule-Ends s (scheduled tasks) = settle-Ends (record s { tasks = tasks })
after_schedule-Ends s (failed e) = tt
after_schedule-Ends s panicked = tt
after_schedule-Ends s out_of_fuel = tt

schedule_next-Ends :
    (c : Setup) (lifecycle : FlowLifecycle) (p : Progress) → Ends (schedule_next c lifecycle p)
unfolding schedule_next
schedule_next-Ends c lifecycle (proceeds s) = after_schedule-Ends s _
schedule_next-Ends c lifecycle (fails e) = tt
schedule_next-Ends c lifecycle panics = tt

turn-Ends :
    (c : Setup) (lifecycle later : FlowLifecycle) (now : ℕ) (s : Engine)
    → is_over lifecycle ≡ false
    → Ends (turn c lifecycle later now s)
unfolding turn
turn-Ends c lifecycle later now s going =
    elim (Bool-cases (is_paused lifecycle && is_empty s.tasks.running)) [
      | inl paused ↦ rw (going, paused) tt
      | inr working ↦
          rw (going, working) (schedule_next-Ends c later (route_deferred c now s.deferred s))
    ]

-- A flow that is not told to drain or stop ends well only when nothing is left: no work pending, no
-- task running, and no emission held back or unread.
pub turn_finishes :
    (c : Setup) (lifecycle later : FlowLifecycle) (now : ℕ) (s last : Engine)
    → is_over lifecycle ≡ false
    → turn c lifecycle later now s ≡ finishes last
    → IsDone last
turn_finishes c lifecycle later now s last going e =
    subst Ends e (turn-Ends c lifecycle later now s going)

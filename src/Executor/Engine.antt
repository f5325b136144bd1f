-- ===== src/Executor/Engine.antt =====
-- crates/jaiba-runtime/src/engine/executor/mod.rs: the loop of `run_inner`. A turn is what stands
-- before `tokio::select!`; an event is the branch that `select!` takes, or what the running tasks do
-- meanwhile: they emit into the channel and use the memory limiters.
pub mod Joining
pub mod Invariant
pub mod Stopping
mod Examples
use jaiva.Prelude.{
  ℕ, ◌+◌, ◌-◌, ◌≡◌, String, Bool, true, false, ◌&&◌, ◌||◌, not, Option, none, some, List, [], ◌∷◌,
  ◌++◌, str_eq, if◌then◌else◌, ltb, leb, is_some, is_empty, length, get_elem?, remove_at, filter,
  get, insert,
}
use jaiva.Error.{FlowError, server}
use jaiva.Control.{FlowLifecycle, stopped, starting, running, paused, draining}
use jaiva.Limiter
use jaiva.Limiter.{System}
use jaiva.Executor.Scheduler.{
  Round, Task, Tasks, Outcome, scheduled, failed, panicked, out_of_fuel, schedule_available,
}
use jaiva.Executor.Routing.{
  ProcessorEmission, Router, Queues, RouteOutcome, routed, queue_full, memory_full, Answer, answer,
  error, no_limiter, route_emission,
}

-- 30 seconds, in milliseconds, the unit of the clock here.
abbrev pub memory_stall_timeout : ℕ
memory_stall_timeout = 30000

pub record MemoryStall : Type 0 where
  pub error : FlowError
  pub deadline : ℕ

-- The variables of the loop. `channel` holds what is sent and not yet received.
pub record Engine : Type 0 where
  pub tasks : Tasks
  pub memory : System
  pub emitted : ℕ
  pub deferred : Option ProcessorEmission
  pub memory_stall : Option MemoryStall
  pub channel : List ProcessorEmission

-- `record_completion` is what the repository answers where a task of one of its entries is done, by
-- the failure, if there is one. `deadlock_message` is the text of the last branch.
pub record Setup : Type 0 where
  pub round : Round
  pub router : Router
  pub channel_capacity : ℕ
  pub domain_memory : Bool
  pub record_completion : String → Option (String × ℕ) → Option FlowError
  pub deadlock_message : String

unfoldable pub hold_unrouted : ℕ → RouteOutcome → ProcessorEmission → Engine → Engine
hold_unrouted now routed e s = record s { memory_stall = none }
hold_unrouted now queue_full e s = record s { memory_stall = none; deferred = some e }
hold_unrouted now (memory_full failure) e s = record s {
  memory_stall = elim s.memory_stall [
    | none ↦ some (record { error = failure; deadline = now + memory_stall_timeout })
    | some stall ↦ some stall
  ];
  deferred = some e;
}

pub data Progress : Type 0 where
  proceeds : Engine → Progress
  fails : FlowError → Progress
  panics : Progress

-- `route_emission` on the loop's variables, and `hold_unrouted` behind it.
unfoldable pub after_routing : ℕ → ProcessorEmission → Engine → Queues × Answer → Progress
unfolding hold_unrouted
after_routing now e s (q, answer outcome) = proceeds (
    hold_unrouted now outcome e (record s {
      tasks = record s.tasks { pending = q.pending };
      memory = q.memory;
      emitted = q.emitted;
    }))
after_routing now e s (q, error failure) = fails failure
after_routing now e s (q, no_limiter) = panics

unfoldable pub route : Setup → ℕ → ProcessorEmission → Engine → Progress
unfolding after_routing
route c now e s = after_routing now e s (
    route_emission (record c.router { active_per_processor = s.tasks.active_per_processor }) e
      (record { pending = s.tasks.pending; memory = s.memory; emitted = s.emitted }))

-- `deferred.take()`
unfoldable pub route_deferred : Setup → ℕ → Option ProcessorEmission → Engine → Progress
unfolding route
route_deferred c now none s = proceeds s
route_deferred c now (some e) s = route c now e (record s { deferred = none })

-- What a turn comes to.
pub data Next : Type 0 where
  selects : Engine → Next
  repeats : Engine → Next
  waits : Engine → Next
  finishes : Engine → Next
  stops : FlowError → Next
  breaks : Next

unfoldable pub take_from_channel : Engine → List ProcessorEmission → Next
take_from_channel s [] = finishes s
take_from_channel s (e ∷ rest) = repeats (record s { deferred = some e; channel = rest })

unfoldable pub stop_if_stalled : Engine → Option MemoryStall → Next
stop_if_stalled s none = selects s
stop_if_stalled s (some stall) = stops stall.error

-- The two tests behind the schedule.
unfoldable pub settle : Engine → Next
unfolding take_from_channel stop_if_stalled
settle s =
    if is_empty s.tasks.pending && is_empty s.tasks.running && not (is_some s.deferred)
    then take_from_channel s s.channel
    else if is_empty s.tasks.running
    then stop_if_stalled s s.memory_stall
    else selects s

unfoldable pub after_schedule : Engine → Outcome → Next
unfolding settle
after_schedule s (scheduled tasks) = settle (record s { tasks = tasks })
after_schedule s (failed failure) = stops failure
after_schedule s panicked = breaks
after_schedule s out_of_fuel = breaks

unfoldable pub is_running : FlowLifecycle → Bool
is_running running = true
is_running _ = false

unfoldable pub is_over : FlowLifecycle → Bool
is_over draining = true
is_over stopped = true
is_over _ = false

unfoldable pub is_paused : FlowLifecycle → Bool
is_paused paused = true
is_paused _ = false

unfoldable pub schedule_next : Setup → FlowLifecycle → Progress → Next
unfolding after_schedule
schedule_next c lifecycle (proceeds s) =
    after_schedule s (schedule_available (is_running lifecycle) c.round (length s.channel) s.tasks)
schedule_next c lifecycle (fails failure) = stops failure
schedule_next c lifecycle panics = breaks

-- `lifecycle` is what `control.state()` reads at the head of the turn, `later` what it reads in
-- `schedule_available`.
unfoldable pub turn : Setup → FlowLifecycle → FlowLifecycle → ℕ → Engine → Next
unfolding route_deferred schedule_next
turn c lifecycle later now s =
    if is_over lifecycle && is_empty s.tasks.running
    then finishes s
    else if is_paused lifecycle && is_empty s.tasks.running
    then waits s
    else schedule_next c later (route_deferred c now s.deferred s)

-- `active.saturating_sub(1)`, at an entry that is there.
unfoldable pub less_active : Tasks → String → Option ℕ → Tasks
less_active s id none = s
less_active s id (some active) = record s {
  active_per_processor = insert s.active_per_processor id (active - 1);
}

unfoldable pub less_partitions : Tasks → String → Option String → Option (List String) → Tasks
less_partitions s id none held = s
less_partitions s id (some key) none = s
less_partitions s id (some key) (some keys) = record s {
  active_partitions = insert s.active_partitions id (filter (λ k. not (str_eq k key)) keys);
}

-- The tables behind the end of the task `k`.
unfoldable pub leave : Tasks → ℕ → Task → Tasks
unfolding less_active less_partitions
leave s k t =
    let id = t.item.processor_id in
    let s₁ =
      less_active (record s { running = remove_at s.running k }) id
        (get s.active_per_processor id) in
    less_partitions s₁ id t.partition_key (get s₁.active_partitions id)

unfoldable pub reported : Setup → Option String → Option (String × ℕ) → Engine → Progress
reported c none failure s = proceeds s
reported c (some queue_id) failure s = elim (c.record_completion queue_id failure) [
  | none ↦ proceeds s
  | some e ↦ fails e
]

-- `completion.fatal`, or the rest of the branch.
unfoldable pub joined :
    Setup → Engine → ℕ → Task → Option (String × ℕ) → Option FlowError → Progress
unfolding leave reported
joined c s k t failure (some fatal) = fails fatal
joined c s k t failure none =
    reported c t.item.queue_id failure (record s { memory_stall = none; tasks = leave s.tasks k t })

pub data Event : Type 0 where
  ticks : Option FlowError → Event
  joins : ℕ → Option (String × ℕ) → Option FlowError → Event
  join_fails : FlowError → Event
  receives : ℕ → Event
  times_out : ℕ → Event
  deadlocks : Event
  task_emits : ProcessorEmission → Event
  task_uses_memory : Limiter.Action → Event

unfoldable pub receive : Setup → ℕ → Engine → List ProcessorEmission → Option Progress
unfolding route
receive c now s [] = none
receive c now s (e ∷ rest) = some (route c now e (record s { channel = rest }))

unfoldable pub time_out : ℕ → Option MemoryStall → Option Progress
time_out now none = none
time_out now (some stall) = if leb stall.deadline now then some (fails stall.error) else none

unfoldable pub join_at :
    Setup → Engine → ℕ → Option (String × ℕ) → Option FlowError → Option Task → Option Progress
unfolding joined
join_at c s k failure fatal none = none
join_at c s k failure fatal (some t) = some (joined c s k t failure fatal)

unfoldable pub tick : Engine → Option FlowError → Progress
tick s none = proceeds s
tick s (some failure) = fails failure

-- `none` where the event cannot happen: the guard of its branch is off, or nothing is there.
unfoldable pub on_event : Setup → Engine → Event → Option Progress
unfolding receive time_out join_at tick
on_event c s (ticks result) = if c.domain_memory then some (tick s result) else none
on_event c s (joins k failure fatal) = join_at c s k failure fatal (get_elem? s.tasks.running k)
on_event c s (join_fails failure) = if is_empty s.tasks.running then none else some (fails failure)
on_event c s (receives now) = if is_some s.deferred then none else receive c now s s.channel
on_event c s (times_out now) = time_out now s.memory_stall
on_event c s deadlocks =
    if c.domain_memory
      || not (is_empty s.tasks.running)
      || not (is_some s.deferred)
      || is_some s.memory_stall
    then none
    else some (fails (server c.deadlock_message))
on_event c s (task_emits e) =
    if is_empty s.tasks.running || leb c.channel_capacity (length s.channel)
    then none
    else some (proceeds (record s { channel = s.channel ++ e ∷ [] }))
on_event c s (task_uses_memory action) =
    some (proceeds (record s { memory = (Limiter.step s.memory action).0 }))

-- What the tasks do while the loop is anywhere.
unfoldable pub is_of_tasks : Event → Bool
is_of_tasks (task_emits e) = true
is_of_tasks (task_uses_memory action) = true
is_of_tasks _ = false

-- Where the loop stands.
pub data Place : Type 0 where
  at_top at_select : Place

-- The states the loop comes to, from one at its top.
pub data Reaches (c : Setup) (s₀ : Engine) : Place → Engine → Type 0 where
  begins : Reaches c s₀ at_top s₀
  turns :
      (lifecycle later : FlowLifecycle) (now : ℕ) (s s' : Engine)
      → Reaches c s₀ at_top s
      → turn c lifecycle later now s ≡ selects s'
      → Reaches c s₀ at_select s'
  repeats_turn :
      (lifecycle later : FlowLifecycle) (now : ℕ) (s s' : Engine)
      → Reaches c s₀ at_top s
      → turn c lifecycle later now s ≡ repeats s'
      → Reaches c s₀ at_top s'
  waits_for_control :
      (lifecycle later : FlowLifecycle) (now : ℕ) (s s' : Engine)
      → Reaches c s₀ at_top s
      → turn c lifecycle later now s ≡ waits s'
      → Reaches c s₀ at_top s'
  tasks_go_on :
      (place : Place) (event : Event) (s s' : Engine)
      → Reaches c s₀ place s
      → is_of_tasks event ≡ true
      → on_event c s event ≡ some (proceeds s')
      → Reaches c s₀ place s'
  selected :
      (event : Event) (s s' : Engine)
      → Reaches c s₀ at_select s
      → on_event c s event ≡ some (proceeds s')
      → Reaches c s₀ at_top s'

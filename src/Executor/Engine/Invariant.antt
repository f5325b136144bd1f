-- ===== src/Executor/Engine/Invariant.antt =====
-- crates/jaiba-runtime/src/engine/executor/mod.rs: what the loop keeps, turn by turn and event by
-- event.
use jaiva.Prelude.{
  ℕ, ◌≤◌, ◌≡◌, refl, subst, inl, inr, true, not, ◌&&◌, ◌||◌, Option, none, some, List, [], ◌∷◌,
  String, arith, length, length-append, is_some, is_empty, leb, get_elem?, Bool-cases,
}
use jaiva.Error.{FlowError}
use jaiva.Control.{FlowLifecycle}
use jaiva.Limiter.Invariant.{IsConserved, step-IsConserved}
use jaiva.Executor.Scheduler.{Task, Outcome, scheduled, failed, panicked, out_of_fuel}
use jaiva.Executor.Scheduler.Ending.{Finally}
use jaiva.Executor.Scheduler.Limits.{IsSound, IsSound-pending, schedule_available-IsSound}
use jaiva.Executor.Routing.{
  ProcessorEmission, Queues, RouteOutcome, routed, queue_full, memory_full, Answer, answer, error,
  no_limiter,
}
use jaiva.Executor.Routing.Memory.{route_emission-IsConserved}
use jaiva.Executor.Engine.{
  Engine, MemoryStall, Setup, Progress, proceeds, fails, panics, hold_unrouted, after_routing,
  route, route_deferred, Next, selects, repeats, waits, finishes, take_from_channel,
  stop_if_stalled, settle, after_schedule, schedule_next, is_running, is_over, is_paused, turn,
  leave, reported, joined, Event, ticks, joins, join_fails, receives, times_out, deadlocks,
  task_emits, task_uses_memory, receive, time_out, join_at, tick, on_event, Place, at_top,
  at_select, Reaches, begins, turns, repeats_turn, waits_for_control, tasks_go_on, selected,
}
use jaiva.Executor.Engine.Joining.{leave-IsSound}

-- The tables count the tasks that run, within their limits; no permit is lost; the flow waits for
-- memory only where an emission is held back; and the channel is within its capacity.
pub record IsValid (c : Setup) (s : Engine) : Type 0 where
  pub tasks : IsSound c.round s.tasks
  pub memory : IsConserved s.memory
  pub stall : is_some s.memory_stall ≡ true → is_some s.deferred ≡ true
  pub channel : length s.channel ≤ c.channel_capacity

abbrev pub Proceeding : (Engine → Type 0) → Progress → Type 0
Proceeding P (proceeds s) = P s
Proceeding P _ = Unit

abbrev pub Continuing : (Engine → Type 0) → Next → Type 0
Continuing P (selects s) = P s
Continuing P (repeats s) = P s
Continuing P (waits s) = P s
Continuing P (finishes s) = P s
Continuing P _ = Unit

hold_unrouted-IsValid :
    (c : Setup) (now : ℕ) (o : RouteOutcome) (e : ProcessorEmission) (s : Engine)
    → IsSound c.round s.tasks
    → IsConserved s.memory
    → length s.channel ≤ c.channel_capacity
    → IsValid c (hold_unrouted now o e s)
unfolding hold_unrouted
hold_unrouted-IsValid c now routed e s sound memory small = record {
  tasks = sound;
  memory = memory;
  stall = λ h. ground (arith, h);
  channel = small;
}
hold_unrouted-IsValid c now queue_full e s sound memory small = record {
  tasks = sound;
  memory = memory;
  stall = λ h. refl;
  channel = small;
}
hold_unrouted-IsValid c now (memory_full failure) e s sound memory small = record {
  tasks = sound;
  memory = memory;
  stall = λ h. refl;
  channel = small;
}

after_routing-IsValid :
    (c : Setup) (now : ℕ) (e : ProcessorEmission) (s : Engine) (r : Queues × Answer)
    → IsSound c.round s.tasks
    → length s.channel ≤ c.channel_capacity
    → IsConserved r.0.memory
    → Proceeding (IsValid c) (after_routing now e s r)
unfolding after_routing
after_routing-IsValid c now e s (q, answer o) sound small memory =
    hold_unrouted-IsValid c now o e _ (IsSound-pending c.round s.tasks q.pending sound) memory small
after_routing-IsValid c now e s (q, error failure) sound small memory = tt
after_routing-IsValid c now e s (q, no_limiter) sound small memory = tt

route-IsValid :
    (c : Setup) (now : ℕ) (e : ProcessorEmission) (s : Engine)
    → IsSound c.round s.tasks
    → IsConserved s.memory
    → length s.channel ≤ c.channel_capacity
    → Proceeding (IsValid c) (route c now e s)
unfolding route
route-IsValid c now e s sound memory small = after_routing-IsValid c now e s _ sound small (
    route_emission-IsConserved
      (record c.router { active_per_processor = s.tasks.active_per_processor }) e
      (record { pending = s.tasks.pending; memory = s.memory; emitted = s.emitted }) memory)

route_deferred-IsValid :
    (c : Setup) (now : ℕ) (o : Option ProcessorEmission) (s : Engine)
    → IsValid c s
    → Proceeding (IsValid c) (route_deferred c now o s)
unfolding route_deferred
route_deferred-IsValid c now none s v = v
route_deferred-IsValid c now (some e) s v =
    route-IsValid c now e (record s { deferred = none }) v.tasks v.memory v.channel

take_from_channel-IsValid :
    (c : Setup) (s : Engine) (channel : List ProcessorEmission)
    → s.channel ≡ channel
    → IsValid c s
    → Continuing (IsValid c) (take_from_channel s channel)
unfolding take_from_channel
take_from_channel-IsValid c s [] e v = v
take_from_channel-IsValid c s (x ∷ rest) e v = record {
  tasks = v.tasks;
  memory = v.memory;
  stall = λ h. refl;
  channel =
      let size : length s.channel ≡ length (x ∷ rest) = rw e refl in omega (arith, size, v.channel);
}

stop_if_stalled-IsValid :
    (c : Setup) (s : Engine) (stall : Option MemoryStall)
    → IsValid c s
    → Continuing (IsValid c) (stop_if_stalled s stall)
unfolding stop_if_stalled
stop_if_stalled-IsValid c s none v = v
stop_if_stalled-IsValid c s (some stall) v = tt

settle-IsValid : (c : Setup) (s : Engine) → IsValid c s → Continuing (IsValid c) (settle s)
unfolding settle
settle-IsValid c s v =
    elim (Bool-cases
      (is_empty s.tasks.pending && is_empty s.tasks.running && not (is_some s.deferred))) [
        | inl idle ↦ rw idle (take_from_channel-IsValid c s s.channel refl v)
        | inr busy ↦ elim (Bool-cases (is_empty s.tasks.running)) [
          | inl none_ ↦ rw busy (rw none_ (stop_if_stalled-IsValid c s s.memory_stall v))
          | inr some_ ↦ rw busy (rw some_ v)
        ]
      ]

after_schedule-IsValid :
    (c : Setup) (s : Engine) (o : Outcome)
    → IsValid c s
    → Finally (IsSound c.round) o
    → Continuing (IsValid c) (after_schedule s o)
unfolding after_schedule
after_schedule-IsValid c s (scheduled tasks) v sound =
    settle-IsValid c (record s { tasks = tasks })
      (record { tasks = sound; memory = v.memory; stall = v.stall; channel = v.channel })
after_schedule-IsValid c s (failed e) v sound = tt
after_schedule-IsValid c s panicked v sound = tt
after_schedule-IsValid c s out_of_fuel v sound = tt

schedule_next-IsValid :
    (c : Setup) (lifecycle : FlowLifecycle) (p : Progress)
    → Proceeding (IsValid c) p
    → Continuing (IsValid c) (schedule_next c lifecycle p)
unfolding schedule_next
schedule_next-IsValid c lifecycle (proceeds s) v =
    after_schedule-IsValid c s _ v
      (schedule_available-IsSound (is_running lifecycle) c.round (length s.channel) s.tasks v.tasks)
schedule_next-IsValid c lifecycle (fails e) v = tt
schedule_next-IsValid c lifecycle panics v = tt

turn-IsValid :
    (c : Setup) (lifecycle later : FlowLifecycle) (now : ℕ) (s : Engine)
    → IsValid c s
    → Continuing (IsValid c) (turn c lifecycle later now s)
unfolding turn
turn-IsValid c lifecycle later now s v =
    elim (Bool-cases (is_over lifecycle && is_empty s.tasks.running)) [
      | inl over ↦ rw over v
      | inr on ↦ elim (Bool-cases (is_paused lifecycle && is_empty s.tasks.running)) [
        | inl paused ↦ rw (on, paused) v
        | inr working ↦
            rw (on, working)
              (schedule_next-IsValid c later _ (route_deferred-IsValid c now s.deferred s v))
      ]
    ]

abbrev Possible : (Engine → Type 0) → Option Progress → Type 0
Possible P none = Unit
Possible P (some p) = Proceeding P p

reported-IsValid :
    (c : Setup) (id : Option String) (failure : Option (String × ℕ)) (s : Engine)
    → IsValid c s
    → Proceeding (IsValid c) (reported c id failure s)
unfolding reported
reported-IsValid c none failure s v = v
reported-IsValid c (some id) failure s v = answered (c.record_completion id failure)
  where
    answered :
        (o : Option FlowError)
        → Proceeding
            (IsValid c)
            (elim o as (λ x. Progress) [ none ↦ proceeds s | some e ↦ fails e ])
    answered none = v
    answered (some e) = tt

join_at-IsValid :
    (c : Setup) (s : Engine) (k : ℕ) (failure : Option (String × ℕ)) (fatal : Option FlowError)
    (o : Option Task)
    → get_elem? s.tasks.running k ≡ o
    → IsValid c s
    → Possible (IsValid c) (join_at c s k failure fatal o)
unfolding join_at joined
join_at-IsValid c s k failure fatal none e v = tt
join_at-IsValid c s k failure (some fatal) (some t) e v = tt
join_at-IsValid c s k failure none (some t) e v =
    reported-IsValid c t.item.queue_id failure
      (record s { memory_stall = none; tasks = leave s.tasks k t })
      (record {
        tasks = leave-IsSound c.round s.tasks k t v.tasks e;
        memory = v.memory;
        stall = λ h. ground (arith, h);
        channel = v.channel;
      })

receive-IsValid :
    (c : Setup) (now : ℕ) (s : Engine) (channel : List ProcessorEmission)
    → s.channel ≡ channel
    → IsValid c s
    → Possible (IsValid c) (receive c now s channel)
unfolding receive
receive-IsValid c now s [] e v = tt
receive-IsValid c now s (x ∷ rest) e v =
    route-IsValid c now x (record s { channel = rest }) v.tasks v.memory
      (let size : length s.channel ≡ length (x ∷ rest) = rw e refl in
        omega (arith, size, v.channel))

time_out-IsValid :
    (c : Setup) (now : ℕ) (o : Option MemoryStall) → Possible (IsValid c) (time_out now o)
unfolding time_out
time_out-IsValid c now none = tt
time_out-IsValid c now (some stall) = elim (Bool-cases (leb stall.deadline now)) [
  | inl late ↦ rw late tt
  | inr early ↦ rw early tt
]

on_event-IsValid :
    (c : Setup) (s : Engine) (event : Event)
    → IsValid c s
    → Possible (IsValid c) (on_event c s event)
unfolding on_event tick
on_event-IsValid c s (ticks none) v = elim (Bool-cases (c.domain_memory)) [
  | inl on ↦ simp on v
  | inr off ↦ rw off tt
]
on_event-IsValid c s (ticks (some e)) v = elim (Bool-cases (c.domain_memory)) [
  | inl on ↦ rw on tt
  | inr off ↦ rw off tt
]
on_event-IsValid c s (joins k failure fatal) v =
    join_at-IsValid c s k failure fatal (get_elem? s.tasks.running k) refl v
on_event-IsValid c s (join_fails e) v = elim (Bool-cases (is_empty s.tasks.running)) [
  | inl on ↦ rw on tt
  | inr off ↦ rw off tt
]
on_event-IsValid c s (receives now) v = elim (Bool-cases (is_some s.deferred)) [
  | inl held ↦ rw held tt
  | inr free ↦ rw free (receive-IsValid c now s s.channel refl v)
]
on_event-IsValid c s (times_out now) v = time_out-IsValid c now s.memory_stall
on_event-IsValid c s deadlocks v =
    elim (Bool-cases (
      c.domain_memory
      || not (is_empty s.tasks.running)
      || not (is_some s.deferred)
      || is_some s.memory_stall)) [ inl on ↦ rw on tt | inr off ↦ rw off tt ]
on_event-IsValid c s (task_emits e) v =
    elim (Bool-cases (is_empty s.tasks.running || leb c.channel_capacity (length s.channel))) [
      | inl full ↦ rw full tt
      | inr room ↦ rw room (record {
        tasks = v.tasks;
        memory = v.memory;
        stall = v.stall;
        channel = ground (arith, room, v.channel, length-append s.channel (e ∷ []));
      })
    ]
on_event-IsValid c s (task_uses_memory action) v = record {
  tasks = v.tasks;
  memory = step-IsConserved s.memory action v.memory;
  stall = v.stall;
  channel = v.channel;
}

reached :
    (c : Setup) (next target : Next)
    → next ≡ target
    → Continuing (IsValid c) next
    → Continuing (IsValid c) target
reached c next target e v = subst (Continuing (IsValid c)) e v

-- Whatever the tasks, the operator, the repository and the clock do, the loop keeps, from a valid
-- state on: the tables count the tasks that run, and these are within the limits of the flow, of
-- each processor and of partition keys; no permit of the memory limiters is lost; the flow waits for
-- memory only while an emission is held back; and the channel is within its capacity.
pub Reaches-IsValid :
    (c : Setup) (s₀ s : Engine) (place : Place) → IsValid c s₀ → Reaches c s₀ place s → IsValid c s
Reaches-IsValid c s₀ s place v begins = v
Reaches-IsValid c s₀ s place v (turns lifecycle later now before s' path e) =
    reached c _ _ e
      (turn-IsValid c lifecycle later now before (Reaches-IsValid c s₀ before at_top v path))
Reaches-IsValid c s₀ s place v (repeats_turn lifecycle later now before s' path e) =
    reached c _ _ e
      (turn-IsValid c lifecycle later now before (Reaches-IsValid c s₀ before at_top v path))
Reaches-IsValid c s₀ s place v (waits_for_control lifecycle later now before s' path e) =
    reached c _ _ e
      (turn-IsValid c lifecycle later now before (Reaches-IsValid c s₀ before at_top v path))
Reaches-IsValid c s₀ s place v (tasks_go_on at event before s' path own e) =
    subst (Possible (IsValid c)) e
      (on_event-IsValid c before event (Reaches-IsValid c s₀ before at v path))
Reaches-IsValid c s₀ s place v (selected event before s' path e) =
    subst (Possible (IsValid c)) e
      (on_event-IsValid c before event (Reaches-IsValid c s₀ before at_select v path))

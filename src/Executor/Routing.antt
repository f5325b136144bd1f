-- ===== src/Executor/Routing.antt =====
-- crates/jaiba-runtime/src/engine/executor/routing.rs: an emission goes into the queue of each
-- connection of its relationship, or into none. What the packet repository answers, where there is
-- one, is the parameter `Repository`.
pub mod Publishing
pub mod Bounds
pub mod Memory
pub mod Tickets
pub mod Handles
pub mod Leaks
pub mod Reservations
mod Examples
use jaiva.Prelude.{
  ℕ, zero, suc, ◌+◌, String, Bool, true, false, ◌&&◌, not, Option, none, some, List, [], ◌∷◌, ◌++◌,
  str_eq, ltb, leb, if◌then◌else◌, is_empty, length, filter, any, count_if, HashMap, get, or_insert,
  u64_max, saturating_add,
}
use jaiva.Config.{ConnectionConfig, SchedulingConfig}
use jaiva.Error.{FlowError, memory_capacity, Result, ok, err}
use jaiva.Packet.{DataPacket, Sizes, estimated_size}
use jaiva.Limiter.{System, step, try_reserve, drop, Reply, granted, refused}
use jaiva.Executor.{WorkItem, is_source_seed}

-- The reservation that the emission itself holds is not read here.
pub record ProcessorEmission : Type 0 where
  pub processor_id : String
  pub relationship : String
  pub packet : DataPacket

-- `enqueue` and `record_event` of a connection, and the refresh of the metrics behind them.
pub record Repository : Type 0 where
  pub enqueue : ConnectionConfig → Result String
  pub record_event : String → Option FlowError
  pub sync_metrics : Option FlowError

-- What routing reads. `join` is `format!("{}.{}.{}", ..)`.
pub record Router : Type 0 where
  pub connections : List ConnectionConfig
  pub global_capacity : ℕ
  pub definitions : HashMap SchedulingConfig
  pub active_per_processor : HashMap ℕ
  pub repository : Option Repository
  pub flow_id : String
  pub sizes : Sizes
  pub join : String → String → String → String

pub record Queues : Type 0 where
  pub pending : List WorkItem
  pub memory : System
  pub emitted : ℕ

pub data RouteOutcome : Type 0 where
  routed queue_full : RouteOutcome
  memory_full : FlowError → RouteOutcome

-- `no_limiter`: the flow has no limiter in the system, which the engine excludes.
pub data Answer : Type 0 where
  answer : RouteOutcome → Answer
  error : FlowError → Answer
  no_limiter : Answer

unfoldable pub connection_id : Router → ConnectionConfig → String
connection_id ρ c = ρ.join c.source c.relationship c.target

unfoldable pub outgoing : List ConnectionConfig → String → String → List ConnectionConfig
outgoing connections processor_id relationship =
    filter (λ c. str_eq c.source processor_id && str_eq c.relationship relationship) connections

abbrev pub on_edge : String → WorkItem → Bool
on_edge edge item = elim item.connection [ none ↦ false | some id ↦ str_eq id edge ]

abbrev pub queued_for : String → WorkItem → Bool
queued_for id item = str_eq item.processor_id id

abbrev pub leads_to : String → ConnectionConfig → Bool
leads_to id c = str_eq c.target id

abbrev pub routed_work : WorkItem → Bool
routed_work item = not (is_source_seed item)

unfoldable pub maximum_in_flight : Option SchedulingConfig → Option ℕ
maximum_in_flight none = none
maximum_in_flight (some d) = d.maximum_in_flight

unfoldable pub over_flight :
    Router → List ConnectionConfig → List WorkItem → String → Option ℕ → Bool
over_flight ρ next pending id none = false
over_flight ρ next pending id (some maximum) = ltb maximum (
    saturating_add u64_max
      (saturating_add u64_max (count_if (queued_for id) pending)
        (or_insert (get ρ.active_per_processor id) 0))
      (count_if (leads_to id) next))

-- One turn of the `for` over the connections: whether it answers `QueueFull`.
unfoldable pub has_no_room :
    Router → List ConnectionConfig → List WorkItem → ConnectionConfig → Bool
unfolding over_flight
has_no_room ρ next pending c =
    if leb c.queue_capacity (count_if (on_edge (connection_id ρ c)) pending)
    then true
    else over_flight ρ next pending c.target (maximum_in_flight (get ρ.definitions c.target))

unfoldable pub over_capacity : Router → List ConnectionConfig → List WorkItem → Bool
over_capacity ρ next pending =
    ltb ρ.global_capacity (saturating_add u64_max (count_if routed_work pending) (length next))

unfoldable pub drop_all : System → List ℕ → System
drop_all memory [] = memory
drop_all memory (k ∷ ks) = drop_all (step memory (drop k)).0 ks

pub data Reserved : Type 0 where
  reservations : List ℕ → Reserved
  out_of_memory : FlowError → Reserved
  broken : FlowError → Reserved
  unlimited : Reserved

-- The error of a reservation, and whether the router takes it for a full memory.
unfoldable pub refusal : FlowError → Reserved
refusal (memory_capacity bytes) = out_of_memory (memory_capacity bytes)
refusal e = broken e

-- What a reply means: on an error the reservations that are made go back.
unfoldable pub on_reply : (ℕ → System × Reserved) → System → List ℕ → Reply → System × Reserved
unfolding drop_all refusal
on_reply next memory made (granted k) = next k
on_reply next memory made (refused e) = (drop_all memory made, refusal e)
on_reply next memory made _ = (drop_all memory made, unlimited)

-- The reservations of as many branches, behind those that are made.
unfoldable pub reserve_branches : Router → ℕ → System → List ℕ → ℕ → System × Reserved
unfolding on_reply
reserve_branches ρ bytes memory made zero = (memory, reservations made)
reserve_branches ρ bytes memory made (suc n) =
    let (after, reply) = step memory (try_reserve ρ.flow_id bytes) in
    on_reply (λ k. reserve_branches ρ bytes after (made ++ k ∷ []) n) after made reply

abbrev pub work_item : Router → ProcessorEmission → ConnectionConfig → ℕ → Option String → WorkItem
work_item ρ e c reservation queue_id = record {
  processor_id = c.target;
  packet = e.packet;
  connection = some (connection_id ρ c);
  reservation = some reservation;
  queue_id = queue_id;
}

-- `enqueue` and the event behind it: the identifier in the repository, if there is one.
unfoldable pub recorded : Repository → Result String → Result (Option String)
recorded repository (err e) = err e
recorded repository (ok queue_id) = elim (repository.record_event queue_id) [
  | none ↦ ok (some queue_id)
  | some e ↦ err e
]

unfoldable pub enqueued : Option Repository → ConnectionConfig → Result (Option String)
unfolding recorded
enqueued none c = ok none
enqueued (some repository) c = recorded repository (repository.enqueue c)

unfoldable pub push :
    Router → ProcessorEmission → ConnectionConfig → ℕ → Option String → Queues → Queues
push ρ e c k queue_id q = record q {
  pending = q.pending ++ work_item ρ e c k queue_id ∷ [];
  emitted = q.emitted + 1;
}

-- One turn of the `for` over connections and reservations. An error of the repository ends it: what
-- is pushed stays, and the reservations that are left, this one too, are dropped.
unfoldable pub on_enqueued :
    (Queues → Queues × Option FlowError)
    → Router
    → ProcessorEmission
    → ConnectionConfig
    → ℕ
    → List ℕ
    → Queues
    → Result (Option String)
    → Queues × Option FlowError
unfolding push
on_enqueued next ρ e c k ks q (ok queue_id) = next (push ρ e c k queue_id q)
on_enqueued next ρ e c k ks q (err failure) =
    (record q { memory = drop_all q.memory (k ∷ ks) }, some failure)

unfoldable pub publish :
    Router → ProcessorEmission → List ConnectionConfig → List ℕ → Queues → Queues × Option FlowError
unfolding enqueued on_enqueued
publish ρ e [] ks q = (q, none)
publish ρ e (c ∷ cs) [] q = (q, none)
publish ρ e (c ∷ cs) (k ∷ ks) q =
    on_enqueued (publish ρ e cs ks) ρ e c k ks q (enqueued ρ.repository c)

unfoldable pub refreshed : Option Repository → Answer
refreshed none = answer routed
refreshed (some repository) = elim repository.sync_metrics [
  | none ↦ answer routed
  | some e ↦ error e
]

unfoldable pub published : Option Repository → Queues × Option FlowError → Queues × Answer
unfolding refreshed
published repository (q, none) = (q, refreshed repository)
published repository (q, some e) = (q, error e)

-- Behind the reservations.
unfoldable pub deliver :
    Router → ProcessorEmission → List ConnectionConfig → Queues → Reserved → Queues × Answer
unfolding publish published
deliver ρ e next q (reservations ks) = published ρ.repository (publish ρ e next ks q)
deliver ρ e next q (out_of_memory failure) = (q, answer (memory_full failure))
deliver ρ e next q (broken failure) = (q, error failure)
deliver ρ e next q unlimited = (q, no_limiter)

unfoldable pub reserve_and_deliver :
    Router → ProcessorEmission → List ConnectionConfig → Queues → Queues × Answer
unfolding reserve_branches deliver
reserve_and_deliver ρ e next q =
    let (memory, made) =
      reserve_branches ρ (estimated_size ρ.sizes e.packet) q.memory [] (length next) in
    deliver ρ e next (record q { memory = memory }) made

unfoldable pub route_emission : Router → ProcessorEmission → Queues → Queues × Answer
unfolding reserve_and_deliver
route_emission ρ e q =
    let next = outgoing ρ.connections e.processor_id e.relationship in
    if is_empty next
    then (q, answer routed)
    else if over_capacity ρ next q.pending
    then (q, answer queue_full)
    else if any (has_no_room ρ next q.pending) next
    then (q, answer queue_full)
    else reserve_and_deliver ρ e next q

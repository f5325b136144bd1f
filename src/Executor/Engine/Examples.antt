-- ===== src/Executor/Engine/Examples.antt =====
-- Runs of the loop of crates/jaiba-runtime/src/engine/executor/mod.rs on a source without
-- connections.
use jaiva.Prelude.{◌≡◌, refl, true, false, none, some, List, [], ◌∷◌, arith, get, insert}
use jaiva.Config.{unordered, auto}
use jaiva.Control.{running, draining}
use jaiva.Error.{ok}
use jaiva.Packet.{DataPacket, records}
use jaiva.Executor.{WorkItem}
use jaiva.Executor.Scheduler.{
  Round, Task, Tasks, schedule_available, schedule, counted, loop, front, judge, consider,
  by_ordering, claimed, launch, processor_limit,
}
use jaiva.Executor.Scheduler
use jaiva.Executor.Routing.{ProcessorEmission}
use jaiva.Executor.Engine.{
  Engine, Setup, selects, finishes, proceeds, turn, settle, after_schedule, schedule_next,
  route_deferred, take_from_channel, is_running, is_over, is_paused, joins, on_event, join_at,
  joined, reported, leave, less_active, less_partitions, at_top, Reaches, begins, turns, selected,
}
use jaiva.Executor.Engine.Invariant.{IsValid, Reaches-IsValid}
use jaiva.Executor.Engine.Stopping.{IsDone, turn_finishes}

abbrev setup : Setup
setup = record {
  round = record {
    definitions =
        (
          "source",
          record {
            concurrent_tasks = 1;
            maximum_in_flight = none;
            timeout_ms = none;
            execution_mode = auto;
            ordering = unordered;
            partition_by = none;
          },
        )
        ∷ [];
    downstream_depths = [];
    concurrency_limit = 2;
    queue_capacity = 4;
    routed_backlog = 0;
    partition_key = λ item selector. ok selector;
    repository = false;
    claim = λ id. ok true;
    sync_metrics = λ item. none;
  };
  router = record {
    connections = [];
    global_capacity = 4;
    definitions = [];
    active_per_processor = [];
    repository = none;
    flow_id = "flow";
    sizes = record { text = λ s. 8; json_records = λ rs. none; json_schema = λ s. none; own = 100 };
    join = λ from relationship to. to;
  };
  channel_capacity = 4;
  domain_memory = false;
  record_completion = λ id failure. none;
  deadlock_message = "deadlocked";
}

abbrev packet : DataPacket
packet = record { id = "p"; attributes = []; content = records []; schema = none; attempt = 0 }

abbrev seed : WorkItem
seed = record {
  processor_id = "source";
  packet = packet;
  connection = none;
  reservation = none;
  queue_id = none;
}

abbrev engine : List WorkItem → List Task → List ProcessorEmission → Engine
engine pending live channel = record {
  tasks = record {
    pending = pending;
    running = live;
    active_per_processor = [];
    active_partitions = [];
  };
  memory = record { limiters = []; shared_available = 0; shared_total = 0; tickets = [] };
  emitted = 0;
  deferred = none;
  memory_stall = none;
  channel = channel;
}

abbrev emission : ProcessorEmission
emission = record { processor_id = "source"; relationship = "success"; packet = packet }

abbrev started : Engine
started = record (engine [] [] []) {
  tasks = record {
    pending = [];
    running = record { item = seed; partition_key = none } ∷ [];
    active_per_processor = ("source", 1) ∷ [];
    active_partitions = [];
  };
}

first_turn : turn setup running running 0 (engine (seed ∷ []) [] []) ≡ selects started
unfolding turn is_over is_paused is_running route_deferred schedule_next after_schedule settle
    schedule_available schedule counted loop front Scheduler.turn judge consider by_ordering claimed
    processor_limit launch get insert
first_turn = refl

abbrev ended : Engine
ended = record (engine [] [] []) {
  tasks = record {
    pending = [];
    running = [];
    active_per_processor = ("source", 0) ∷ [];
    active_partitions = [];
  };
}

then_ends : on_event setup started (joins 0 none none) ≡ some (proceeds ended)
unfolding on_event join_at joined leave less_active less_partitions reported get insert
then_ends = refl

last_turn : turn setup running running 9 ended ≡ finishes ended
unfolding turn is_over is_paused is_running route_deferred schedule_next after_schedule settle
    schedule_available schedule counted loop front take_from_channel
last_turn = refl

-- A flow that drains ends as soon as no task runs. What its last task has emitted is then still in
-- the channel, although the task counts as complete.
drain_loses_emissions :
    turn setup draining draining 0 (engine [] [] (emission ∷ []))
    ≡ finishes (engine [] [] (emission ∷ []))
unfolding turn is_over
drain_loses_emissions = refl

engine-IsValid : IsValid setup (engine (seed ∷ []) [] [])
unfolding get processor_limit
engine-IsValid = record {
  tasks = record {
    actives = λ id. refl;
    partitions = λ id key. refl;
    total = omega arith;
    each = λ id d e. omega arith;
  };
  memory = ((λ owner l e. absurd (ground (arith, e))), refl, tt);
  stall = λ h. ground (arith, h);
  channel = omega arith;
}

abbrev path : Reaches setup (engine (seed ∷ []) [] []) at_top ended
path =
    selected (joins 0 none none) started ended
      (turns running running 0 (engine (seed ∷ []) [] []) started begins first_turn) then_ends

Reaches-IsValid_example : IsValid setup ended
Reaches-IsValid_example =
    Reaches-IsValid setup (engine (seed ∷ []) [] []) ended at_top engine-IsValid path

turn_finishes_example : IsDone ended
unfolding is_over
turn_finishes_example = turn_finishes setup running running 9 ended ended refl last_turn

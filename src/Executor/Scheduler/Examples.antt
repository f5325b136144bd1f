-- ===== src/Executor/Scheduler/Examples.antt =====
-- A round of crates/jaiba-runtime/src/engine/executor/scheduler.rs: a sink that preserves order, busy
-- with one packet, and a side branch.
use jaiva.Prelude.{
  ℕ, ◌+◌, ◌≤◌, ◌≡◌, refl, ◌≢◌, ◌⊎◌, Bool, true, false, none, some, List, [], ◌∷◌, String, arith,
  All, length, count_if, map, get, insert,
}
use jaiva.Config.{SchedulingConfig, OrderingMode, unordered, preserve, auto}
use jaiva.Error.{ok}
use jaiva.Packet.{records}
use jaiva.Executor.{WorkItem}
use jaiva.Executor.Scheduler.{
  Round, Tasks, Outcome, scheduled, out_of_fuel, wait, judge, counted, schedule, schedule_available,
  loop, front, turn, launch, postpone, consider, by_ordering, claimed, processor_limit,
}
use jaiva.Executor.Scheduler.Ending.{Finally, schedule_available_ends}
use jaiva.Executor.Scheduler.Limits.{IsSound, schedule_available-IsSound}
use jaiva.Executor.Scheduler.Complete.{schedule_available_complete}
use jaiva.Executor.Scheduler.Items.{ClaimLost, items, schedule_available-items}

abbrev scheduling : OrderingMode → SchedulingConfig
scheduling ordering = record {
  concurrent_tasks = 4;
  maximum_in_flight = none;
  timeout_ms = none;
  execution_mode = auto;
  ordering = ordering;
  partition_by = none;
}

abbrev round : ℕ → Round
round limit = record {
  definitions = ("sink", scheduling preserve) ∷ ("side", scheduling unordered) ∷ [];
  downstream_depths = ("sink", 0) ∷ ("side", 0) ∷ [];
  concurrency_limit = limit;
  queue_capacity = 10;
  routed_backlog = 0;
  partition_key = λ item selector. ok selector;
  repository = false;
  claim = λ id. ok true;
  sync_metrics = λ item. none;
}

abbrev item : String → String → WorkItem
item processor id = record {
  processor_id = processor;
  packet = record { id = id; attributes = []; content = records []; schema = none; attempt = 0 };
  connection = some "read.success";
  reservation = none;
  queue_id = none;
}

abbrev busy : Tasks
busy = record {
  pending = item "sink" "first" ∷ item "side" "x" ∷ item "sink" "second" ∷ [];
  running = record { item = item "sink" "zero"; partition_key = none } ∷ [];
  active_per_processor = ("sink", 1) ∷ [];
  active_partitions = [];
}

abbrev outcome_ids : Outcome → List String
outcome_ids (scheduled s) = map (λ (i : WorkItem). i.packet.id) s.pending
outcome_ids _ = []

-- The turn that postpones the first packet and the start behind it end the round: of two packets
-- for the processor that preserves order, the second is now ahead.
preserve_reorders : outcome_ids (schedule_available true (round 2) 3 busy) ≡ "second" ∷ "first" ∷ []
unfolding schedule_available schedule counted loop front turn launch postpone judge consider
    by_ordering claimed processor_limit get insert
preserve_reorders = refl

busy-IsSound : IsSound (round 2) busy
unfolding get processor_limit
busy-IsSound = record {
  actives = λ id. ground arith;
  partitions = λ id key. ground arith;
  total = omega arith;
  each = λ id d e. ground (arith, e);
}

schedule_available_ends_example : schedule_available true (round 2) 3 busy ≢ out_of_fuel
schedule_available_ends_example = schedule_available_ends true (round 2) 3 busy

schedule_available-IsSound_example :
    Finally (IsSound (round 2)) (schedule_available true (round 2) 3 busy)
schedule_available-IsSound_example = schedule_available-IsSound true (round 2) 3 busy busy-IsSound

schedule_available_complete_example :
    Finally
      (λ s'.
        (2 ≤ length s'.running)
        ⊎ All (λ i. judge (counted (round 2) 3 busy) s' i ≡ wait) s'.pending)
      (schedule_available true (round 2) 3 busy)
schedule_available_complete_example = schedule_available_complete (round 2) 3 busy

schedule_available-items_example :
    Finally
      (λ s'.
        (lost : List WorkItem) × All (ClaimLost (round 2)) lost
        × ((q : WorkItem → Bool) → items q busy ≡ items q s' + count_if q lost))
      (schedule_available true (round 2) 3 busy)
schedule_available-items_example = schedule_available-items (round 2) 3 busy

-- ===== src/Executor/Scheduler.antt =====
-- crates/jaiba-runtime/src/engine/executor/scheduler.rs: what starts in one round. A task that
-- starts is an entry of `running`; its execution is another part's. The loop takes fuel.
pub mod Judging
pub mod Ending
pub mod Limits
pub mod Complete
pub mod Items
mod Examples
use jaiva.Prelude.{
  ℕ, zero, suc, ◌+◌, ◌-◌, String, Bool, true, false, ◌&&◌, not, Option, none, some, List, [], ◌∷◌,
  ◌++◌, ltb, leb, if◌then◌else◌, count_if, length, contains, HashMap, get, insert, or_insert,
  u64_max, saturating_add,
}
use jaiva.Config.{SchedulingConfig, OrderingMode, unordered, preserve, partitioned}
use jaiva.Error.{FlowError, Result, ok, err}
use jaiva.Packet.{DataPacket}
use jaiva.Executor.{WorkItem, is_source_seed}

-- What a round reads and does not change. `routed_backlog` is what `counted` puts there. `claim` is
-- the repository's, if there is one, with the refresh of its metrics behind it.
pub record Round : Type 0 where
  pub definitions : HashMap SchedulingConfig
  pub downstream_depths : HashMap ℕ
  pub concurrency_limit : ℕ
  pub queue_capacity : ℕ
  pub routed_backlog : ℕ
  pub partition_key : WorkItem → String → Result String
  pub repository : Bool
  pub claim : String → Result Bool
  pub sync_metrics : WorkItem → Option FlowError

pub record Task : Type 0 where
  pub item : WorkItem
  pub partition_key : Option String

pub record Tasks : Type 0 where
  pub pending : List WorkItem
  pub running : List Task
  pub active_per_processor : HashMap ℕ
  pub active_partitions : HashMap (List String)

pub data Outcome : Type 0 where
  scheduled : Tasks → Outcome
  failed : FlowError → Outcome
  panicked : Outcome
  out_of_fuel : Outcome

-- What one turn of the loop does with the item at the front.
pub data Verdict : Type 0 where
  wait : Verdict
  start : Option String → Verdict
  skip : Verdict
  fail : FlowError → Verdict
  panic : Verdict

abbrev pub active_of : Tasks → String → ℕ
active_of s id = or_insert (get s.active_per_processor id) 0

abbrev pub partitions_of : Tasks → String → List String
partitions_of s id = or_insert (get s.active_partitions id) []

unfoldable pub processor_limit : SchedulingConfig → ℕ
processor_limit d = elim d.ordering [
  | preserve ↦ 1
  | unordered ↦ d.concurrent_tasks
  | partitioned ↦ d.concurrent_tasks
]

-- The refresh of the repository's metrics behind a claim.
unfoldable pub after_claim : Round → WorkItem → Option String → Verdict
after_claim r item key =
    if r.repository
    then elim (r.sync_metrics item) [ none ↦ start key | some error ↦ fail error ]
    else start key

-- The claim of an item that has a place in the repository.
unfoldable pub claimed : Round → WorkItem → Option String → Option String → Verdict
unfolding after_claim
claimed r item key none = after_claim r item key
claimed r item key (some queue_id) =
    if r.repository
    then elim (r.claim queue_id) [
      | err error ↦ fail error
      | ok won ↦ if won then after_claim r item key else skip
    ]
    else start key

-- The test of the partition key.
unfoldable pub with_key : Round → Tasks → WorkItem → Result String → Verdict
with_key r s item (err error) = fail error
with_key r s item (ok key) =
    if contains (partitions_of s item.processor_id) key
    then wait
    else claimed r item (some key) item.queue_id

unfoldable pub selected : Round → Tasks → WorkItem → Option String → Verdict
selected r s item none = panic
selected r s item (some selector) = with_key r s item (r.partition_key item selector)

unfoldable pub by_ordering : Round → Tasks → WorkItem → SchedulingConfig → OrderingMode → Verdict
by_ordering r s item d partitioned = selected r s item d.partition_by
by_ordering r s item d unordered = claimed r item none item.queue_id
by_ordering r s item d preserve = claimed r item none item.queue_id

-- The tests behind the definition: the slots that the later stages need, and the processor's limit.
unfoldable pub consider : Round → Tasks → WorkItem → Option SchedulingConfig → Verdict
consider r s item none = panic
consider r s item (some d) =
    if ltb r.concurrency_limit (
      saturating_add u64_max (saturating_add u64_max (length s.running) 1)
        (or_insert (get r.downstream_depths item.processor_id) 0))
    then wait
    else if leb (processor_limit d) (active_of s item.processor_id)
    then wait
    else by_ordering r s item d d.ordering

unfoldable pub judge : Round → Tasks → WorkItem → Verdict
judge r s item =
    if is_source_seed item
      && leb r.queue_capacity (saturating_add u64_max r.routed_backlog (length s.running))
    then wait
    else consider r s item (get r.definitions item.processor_id)

abbrev pub add_partition : Tasks → String → Option String → HashMap (List String)
add_partition s id none = s.active_partitions
add_partition s id (some key) = insert s.active_partitions id (key ∷ partitions_of s id)

-- `rest` is what is pending behind the item.
unfoldable pub launch : Tasks → WorkItem → List WorkItem → Option String → Tasks
launch s item rest key = record {
  pending = rest;
  running = s.running ++ record { item = item; partition_key = key } ∷ [];
  active_per_processor =
      insert s.active_per_processor item.processor_id (active_of s item.processor_id + 1);
  active_partitions = add_partition s item.processor_id key;
}

unfoldable pub postpone : Tasks → WorkItem → List WorkItem → Tasks
postpone s item rest = record s { pending = rest ++ item ∷ [] }

unfoldable pub turn :
    (Tasks → ℕ → Outcome) → Tasks → ℕ → WorkItem → List WorkItem → Verdict → Outcome
turn next s inspected item rest wait = next (postpone s item rest) (suc inspected)
turn next s inspected item rest (start key) = next (launch s item rest key) 0
turn next s inspected item rest skip = next (record s { pending = rest }) inspected
turn next s inspected item rest (fail error) = failed error
turn next s inspected item rest panic = panicked

-- One test of the loop's condition, on what is pending.
unfoldable pub front : (Tasks → ℕ → Outcome) → Round → Tasks → ℕ → List WorkItem → Outcome
front next r s inspected [] = scheduled s
front next r s inspected (item ∷ rest) =
    if ltb (length s.running) r.concurrency_limit && ltb inspected (suc (length rest))
    then turn next s inspected item rest (judge r s item)
    else scheduled s

unfoldable pub loop : ℕ → Round → Tasks → ℕ → Outcome
loop zero r s inspected = out_of_fuel
loop (suc fuel) r s inspected = front (loop fuel r) r s inspected s.pending

-- Rounds for `n` pending items: a turn postpones one of them or takes it out.
abbrev pub turns : ℕ → ℕ
turns zero = 1
turns (suc n) = suc n + suc (turns n)

-- The loop of a round.
unfoldable pub schedule : Round → Tasks → Outcome
schedule r s = loop (turns (length s.pending) + length s.pending) r s 0

-- The work that takes room in the queues; `unread` is the emissions that wait in the channel.
unfoldable pub counted : Round → ℕ → Tasks → Round
counted r unread s = record r {
  routed_backlog =
      saturating_add u64_max (count_if (λ item. not (is_source_seed item)) s.pending) unread;
}

-- `lifecycle_is_running` is `control.state() == Running`.
unfoldable pub schedule_available : Bool → Round → ℕ → Tasks → Outcome
unfolding schedule counted
schedule_available lifecycle_is_running r unread s =
    if lifecycle_is_running then schedule (counted r unread s) s else scheduled s

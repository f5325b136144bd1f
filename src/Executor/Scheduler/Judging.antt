-- ===== src/Executor/Scheduler/Judging.antt =====
-- crates/jaiba-runtime/src/engine/executor/scheduler.rs: what the verdict on an item says.
use jaiva.Prelude.{
  ◌≤◌, ◌<◌, ◌≡◌, inl, inr, String, true, false, Option, none, some, arith, length, contains, get,
  or_insert, u64_max, saturating_add, Bool-cases, Option-cases,
}
use jaiva.Config.{SchedulingConfig, OrderingMode, unordered, preserve, partitioned}
use jaiva.Error.{Result, ok, err}
use jaiva.Executor.{WorkItem, is_source_seed}
use jaiva.Executor.Scheduler.{
  Round, Tasks, start, active_of, partitions_of, processor_limit, after_claim, claimed, with_key,
  selected, by_ordering, consider, judge,
}

-- The key of a task: none, or one that no running task of the processor has.
abbrev pub FreshKey : Tasks → WorkItem → OrderingMode → Option String → Type 0
FreshKey s item ordering key =
    (ordering ≡ partitioned → (k : String) × (key ≡ some k))
    × ((k : String) → key ≡ some k → contains (partitions_of s item.processor_id) k ≡ false)

claimed-start :
    (r : Round) (item : WorkItem) (key queue_id given : Option String)
    → claimed r item key queue_id ≡ start given
    → given ≡ key
unfolding claimed after_claim
claimed-start r item key none given e = ground (arith, e)
claimed-start r item key (some q) given e = ground (arith, e)

selected-FreshKey :
    (r : Round) (s : Tasks) (item : WorkItem) (selector given : Option String)
    → selected r s item selector ≡ start given
    → (k : String) × (given ≡ some k) × (contains (partitions_of s item.processor_id) k ≡ false)
unfolding selected with_key
selected-FreshKey r s item none given e = ground (arith, e)
selected-FreshKey r s item (some selector) given e = go (r.partition_key item selector) e
  where
    go :
        (res : Result String)
        → with_key r s item res ≡ start given
        → (k : String) × (given ≡ some k) × (contains (partitions_of s item.processor_id) k ≡ false)
    go (err error) e = ground (arith, e)
    go (ok key) e = elim (Bool-cases (contains (partitions_of s item.processor_id) key)) [
      | inl busy ↦ ground (arith, e, busy)
      | inr free ↦
          (key, claimed-start r item (some key) item.queue_id given (ground (arith, e, free)), free)
    ]

by_ordering-FreshKey :
    (r : Round) (s : Tasks) (item : WorkItem) (d : SchedulingConfig) (ordering : OrderingMode)
    (given : Option String)
    → by_ordering r s item d ordering ≡ start given
    → FreshKey s item ordering given
unfolding by_ordering
by_ordering-FreshKey r s item d partitioned given e =
    let (k, is, fresh) = selected-FreshKey r s item d.partition_by given e in
    ((λ _. (k, is)), λ j same. ground (arith, is, fresh, same))
by_ordering-FreshKey r s item d unordered given e =
    let nothing = claimed-start r item none item.queue_id given e in
    ((λ h. ground (arith, h)), λ j same. ground (arith, nothing, same))
by_ordering-FreshKey r s item d preserve given e =
    let nothing = claimed-start r item none item.queue_id given e in
    ((λ h. ground (arith, h)), λ j same. ground (arith, nothing, same))

-- What holds where an item starts.
pub record Starts (r : Round) (s : Tasks) (item : WorkItem) (key : Option String) : Type 0 where
  pub definition : SchedulingConfig
  pub defined : get r.definitions item.processor_id ≡ some definition
  pub room_for_output :
      is_source_seed item ≡ true
      → saturating_add u64_max r.routed_backlog (length s.running) < r.queue_capacity
  pub slots_left :
      saturating_add u64_max
        (saturating_add u64_max (length s.running) 1)
        (or_insert (get r.downstream_depths item.processor_id) 0)
      ≤ r.concurrency_limit
  pub below_limit : active_of s item.processor_id < processor_limit definition
  pub fresh : FreshKey s item definition.ordering key

pub judge-Starts :
    (r : Round) (s : Tasks) (item : WorkItem) (key : Option String)
    → judge r s item ≡ start key
    → Starts r s item key
unfolding judge consider
judge-Starts r s item key e = elim (Option-cases (get r.definitions item.processor_id)) [
  | inl unknown ↦ absurd (ground (arith, e, unknown))
  | inr (d, defined) ↦ record {
    definition = d;
    defined = defined;
    room_for_output = ground (arith, e);
    slots_left = ground (arith, e, defined);
    below_limit = ground (arith, e, defined);
    fresh = by_ordering-FreshKey r s item d d.ordering key (ground (arith, e, defined));
  }
]

-- ===== src/Executor/Scheduler/Limits.antt =====
-- crates/jaiba-runtime/src/engine/executor/scheduler.rs: the limits on what runs at once.
use jaiva.Prelude.{
  ℕ, suc, ◌+◌, ◌≤◌, ◌<◌, ◌≡◌, refl, sym, ◌∙◌, inl, inr, Bool, true, false, ◌&&◌, Option, none, some,
  List, [], ◌∷◌, ◌++◌, String, arith, length, length-append, count_if, count_if-append, contains,
  if◌then◌else◌, str_eq, str_eq_iff, get, get-insert, Bool-cases,
}
use mathlib.Core.Option.{some-injective}
use jaiva.Config.{SchedulingConfig}
use jaiva.Executor.{WorkItem}
use jaiva.Executor.Scheduler.{
  Round, Task, Tasks, launch, postpone, Outcome, scheduled, failed, panicked, out_of_fuel, schedule,
  counted, schedule_available, active_of, partitions_of, processor_limit,
}
use jaiva.Executor.Scheduler.Judging.{Starts, judge-Starts}
use jaiva.Executor.Scheduler.Ending.{Finally, schedule-Finally}

-- The tasks of a processor, and those with a partition key.
abbrev pub is_of : String → Task → Bool
is_of id t = str_eq t.item.processor_id id

abbrev pub has_key : Option String → String → Bool
has_key none key = false
has_key (some j) key = str_eq j key

abbrev pub is_keyed : String → String → Task → Bool
is_keyed id key t = is_of id t && has_key t.partition_key key

-- The tables agree with the tasks that run, no partition key of a processor runs twice, and no more
-- tasks run than the flow and the processors allow.
pub record IsSound (r : Round) (s : Tasks) : Type 0 where
  pub actives : (id : String) → active_of s id ≡ count_if (is_of id) s.running
  pub partitions :
      (id key : String)
      → count_if (is_keyed id key) s.running ≡ (if contains (partitions_of s id) key then 1 else 0)
  pub total : length s.running ≤ r.concurrency_limit
  pub each :
      (id : String) (d : SchedulingConfig)
      → get r.definitions id ≡ some d
      → count_if (is_of id) s.running ≤ processor_limit d

module _ (r : Round) (s : Tasks) (item : WorkItem) (rest : List WorkItem) (key : Option String)
    (sound : IsSound r s) where
  launch-actives :
      (id : String)
      → active_of (launch s item rest key) id ≡ count_if (is_of id) (launch s item rest key).running
  unfolding launch
  launch-actives id = ground (
    arith,
    sound.actives id,
    sound.actives item.processor_id,
    get-insert s.active_per_processor item.processor_id id (active_of s item.processor_id + 1),
    str_eq_iff item.processor_id id,
    count_if-append (is_of id) s.running (record { item = item; partition_key = key } ∷ []),
  )

module _ (r : Round) (s : Tasks) (item : WorkItem) (rest : List WorkItem)
    (sound : IsSound r s) where
  launch-unkeyed :
      (id k : String)
      → count_if (is_keyed id k) (launch s item rest none).running
        ≡ (if contains (partitions_of (launch s item rest none) id) k then 1 else 0)
  unfolding launch
  launch-unkeyed id k = ground (
    arith,
    sound.partitions id k,
    count_if-append (is_keyed id k) s.running (record { item = item; partition_key = none } ∷ []),
  )

  launch-keyed :
      (key id k : String)
      → contains (partitions_of s item.processor_id) key ≡ false
      → count_if (is_keyed id k) (launch s item rest (some key)).running
        ≡ (if contains (partitions_of (launch s item rest (some key)) id) k then 1 else 0)
  unfolding launch
  launch-keyed key id k fresh = elim (Bool-cases (str_eq item.processor_id id)) [
    | inl same ↦
        let eq : item.processor_id ≡ id = (str_eq_iff item.processor_id id).0 same in
        ground (
          arith,
          same,
          eq,
          fresh,
          sound.partitions item.processor_id k,
          str_eq_iff key k,
          get-insert s.active_partitions item.processor_id id
              (key ∷ partitions_of s item.processor_id),
          count_if-append (is_keyed id k) s.running
              (record { item = item; partition_key = some key } ∷ []),
        )
    | inr other ↦ ground (
      arith,
      other,
      sound.partitions id k,
      get-insert s.active_partitions item.processor_id id (key ∷ partitions_of s item.processor_id),
      count_if-append (is_keyed id k) s.running
          (record { item = item; partition_key = some key } ∷ []),
    )
  ]

launch-partitions :
    (r : Round) (s : Tasks) (item : WorkItem) (rest : List WorkItem) (key : Option String)
    → IsSound r s
    → ((k : String) → key ≡ some k → contains (partitions_of s item.processor_id) k ≡ false)
    → (id k : String)
    → count_if (is_keyed id k) (launch s item rest key).running
      ≡ (if contains (partitions_of (launch s item rest key) id) k then 1 else 0)
launch-partitions r s item rest none sound fresh = launch-unkeyed r s item rest sound
launch-partitions r s item rest (some key) sound fresh =
    λ id k. launch-keyed r s item rest sound key id k (fresh key refl)

launch-each :
    (r : Round) (s : Tasks) (item : WorkItem) (rest : List WorkItem) (key : Option String)
    → IsSound r s
    → Starts r s item key
    → (id : String) (d : SchedulingConfig) → get r.definitions id ≡ some d
    → count_if (is_of id) (launch s item rest key).running ≤ processor_limit d
unfolding launch
launch-each r s item rest key sound starts id d e =
    elim (Bool-cases (str_eq item.processor_id id)) [
      | inl same ↦
          let eq : item.processor_id ≡ id = (str_eq_iff item.processor_id id).0 same in
          let own : starts.definition ≡ d =
            some-injective starts.definition d (sym starts.defined ∙ rw eq e) in
          let below : suc (count_if (is_of id) s.running) ≤ processor_limit d =
            rw (sym own, sym eq, sym (sound.actives item.processor_id)) starts.below_limit in
          ground (
            arith,
            same,
            below,
            count_if-append (is_of id) s.running (record { item = item; partition_key = key } ∷ []),
          )
      | inr other ↦ ground (
        arith,
        other,
        sound.each id d e,
        count_if-append (is_of id) s.running (record { item = item; partition_key = key } ∷ []),
      )
    ]

launch-IsSound :
    (r : Round) (s : Tasks) (item : WorkItem) (rest : List WorkItem) (key : Option String)
    → IsSound r s
    → length s.running < r.concurrency_limit
    → Starts r s item key
    → IsSound r (launch s item rest key)
unfolding launch
launch-IsSound r s item rest key sound less starts = record {
  actives = launch-actives r s item rest key sound;
  partitions = launch-partitions r s item rest key sound starts.fresh.1;
  total =
      omega
        (arith, less, length-append s.running (record { item = item; partition_key = key } ∷ []));
  each = launch-each r s item rest key sound starts;
}

-- The backlog is no part of it.
IsSound-counted :
    (r : Round) (b : ℕ) (s : Tasks) → IsSound r s → IsSound (record r { routed_backlog = b }) s
IsSound-counted r b s inv = record {
  actives = inv.actives;
  partitions = inv.partitions;
  total = inv.total;
  each = inv.each;
}

pub IsSound-pending :
    (r : Round) (s : Tasks) (p : List WorkItem) → IsSound r s → IsSound r (record s { pending = p })
IsSound-pending r s p inv = record {
  actives = inv.actives;
  partitions = inv.partitions;
  total = inv.total;
  each = inv.each;
}

schedule-IsSound : (r : Round) (s : Tasks) → IsSound r s → Finally (IsSound r) (schedule r s)
unfolding postpone
schedule-IsSound r s sound =
    schedule-Finally r (λ s' i. IsSound r s') (IsSound r)
      (λ s' i item rest p a b inv. (
        (λ e. IsSound-pending r s' (rest ++ item ∷ []) inv),
        (λ key e. launch-IsSound r s' item rest key inv a (judge-Starts r s' item key e)),
        λ e. IsSound-pending r s' rest inv,
      ))
      (λ s' i inv h. inv) s sound

Finally-map :
    (P Q : Tasks → Type 0) (o : Outcome) → ((s : Tasks) → P s → Q s) → Finally P o → Finally Q o
Finally-map P Q (scheduled s) f h = f s h
Finally-map P Q (failed e) f h = tt
Finally-map P Q panicked f h = tt
Finally-map P Q out_of_fuel f h = tt

-- A round keeps every limit: at most as many tasks run as the flow allows, and of each processor as
-- it allows (one where it preserves order), and no partition key of a processor runs twice; and the
-- tables count what runs. So it is behind a round, if it was so before it.
pub schedule_available-IsSound :
    (on : Bool) (r : Round) (unread : ℕ) (s : Tasks)
    → IsSound r s
    → Finally (IsSound r) (schedule_available on r unread s)
unfolding schedule_available counted
schedule_available-IsSound true r unread s sound =
    Finally-map (IsSound (counted r unread s)) (IsSound r) (schedule (counted r unread s) s)
      (λ s' h. IsSound-counted (counted r unread s) r.routed_backlog s' h)
      (schedule-IsSound (counted r unread s) s
        (IsSound-counted r (counted r unread s).routed_backlog s sound))
schedule_available-IsSound false r unread s sound = sound

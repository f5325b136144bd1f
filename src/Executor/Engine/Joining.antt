-- ===== src/Executor/Engine/Joining.antt =====
-- crates/jaiba-runtime/src/engine/executor/mod.rs: the tables behind a task that has ended.
use jaiva.Prelude.{
  ℕ, ◌-◌, ◌≤◌, ◌≡◌, refl, ◌∙◌, not, ◌&&◌, Option, none, some, List, [], ◌∷◌, String, arith,
  count_if, count_if-remove_at, length-remove_at-le, filter, contains, get_elem?, remove_at,
  if◌then◌else◌, str_eq, str_eq_iff, get, insert, get-insert,
}
use jaiva.Config.{SchedulingConfig}
use jaiva.Executor.Scheduler.{Round, Task, Tasks, active_of, partitions_of, processor_limit}
use jaiva.Executor.Scheduler.Limits.{IsSound, is_of, is_keyed}
use jaiva.Executor.Engine.{less_active, less_partitions, leave}

contains-filter :
    (key j : String) (keys : List String)
    → contains (filter (λ k. not (str_eq k key)) keys) j ≡ (contains keys j && not (str_eq key j))
contains-filter key j [] = refl
contains-filter key j (k ∷ keys) =
    ground (arith, contains-filter key j keys, str_eq_iff k key, str_eq_iff k j, str_eq_iff key j)

module _ (r : Round) (s : Tasks) (k : ℕ) (t : Task) (sound : IsSound r s)
    (at : get_elem? s.running k ≡ some t) where
  active-own :
      (o : Option ℕ)
      → get s.active_per_processor t.item.processor_id ≡ o
      → (id : String)
      → active_of
          (less_active (record s { running = remove_at s.running k }) t.item.processor_id o)
          id
        ≡ count_if (is_of id) (remove_at s.running k)
  unfolding less_active
  active-own none e id = ground (
    arith,
    e,
    sound.actives id,
    sound.actives t.item.processor_id,
    str_eq_iff t.item.processor_id id,
    count_if-remove_at (is_of id) s.running k t at,
  )
  active-own (some n) e id = ground (
    arith,
    e,
    sound.actives id,
    sound.actives t.item.processor_id,
    str_eq_iff t.item.processor_id id,
    get-insert s.active_per_processor t.item.processor_id id (n - 1),
    count_if-remove_at (is_of id) s.running k t at,
  )

  -- `a` is the table of active tasks, which is not looked at here.
  partitions-own :
      (a : _) (key : Option String) (o : Option (List String))
      → t.partition_key ≡ key
      → get s.active_partitions t.item.processor_id ≡ o
      → (id j : String)
      → count_if (is_keyed id j) (remove_at s.running k) ≡ (
          if contains
            (partitions_of
              (less_partitions
                (record s { running = remove_at s.running k; active_per_processor = a })
                t.item.processor_id
                key
                o)
              id)
            j
          then 1
          else 0)
  unfolding less_partitions
  partitions-own a none o e f id j =
      ground (arith, e, sound.partitions id j, count_if-remove_at (is_keyed id j) s.running k t at)
  partitions-own a (some key) none e f id j = ground (
    arith,
    e,
    f,
    sound.partitions id j,
    sound.partitions t.item.processor_id j,
    str_eq_iff t.item.processor_id id,
    count_if-remove_at (is_keyed id j) s.running k t at,
  )
  partitions-own a (some key) (some keys) e f id j = ground (
    arith,
    e,
    f,
    sound.partitions id j,
    sound.partitions t.item.processor_id j,
    str_eq_iff t.item.processor_id id,
    contains-filter key j keys,
    get-insert s.active_partitions t.item.processor_id id (filter (λ i. not (str_eq i key)) keys),
    count_if-remove_at (is_keyed id j) s.running k t at,
  )

  each-own :
      (id : String) (d : SchedulingConfig)
      → get r.definitions id ≡ some d
      → count_if (is_of id) (remove_at s.running k) ≤ processor_limit d
  each-own id d e = omega (arith, sound.each id d e, less)
    where
      less : count_if (is_of id) (remove_at s.running k) ≤ count_if (is_of id) s.running
      less = ground (arith, count_if-remove_at (is_of id) s.running k t at)

  less_partitions-parts :
      (u : Tasks) (id : String) (key : Option String) (o : Option (List String))
      → (less_partitions u id key o).active_per_processor ≡ u.active_per_processor
  unfolding less_partitions
  less_partitions-parts u id none o = refl
  less_partitions-parts u id (some key) none = refl
  less_partitions-parts u id (some key) (some keys) = refl

  less_partitions-running :
      (u : Tasks) (id : String) (key : Option String) (o : Option (List String))
      → (less_partitions u id key o).running ≡ u.running
  unfolding less_partitions
  less_partitions-running u id none o = refl
  less_partitions-running u id (some key) none = refl
  less_partitions-running u id (some key) (some keys) = refl

  -- The tables behind both removals, whatever the table of active tasks holds.
  left-IsSound :
      (u : Tasks) (o : Option (List String))
      → u.running ≡ remove_at s.running k
      → ((id : String) → active_of u id ≡ count_if (is_of id) (remove_at s.running k))
      → ((id j : String)
          → count_if (is_keyed id j) (remove_at s.running k) ≡ (
              if contains
                (partitions_of (less_partitions u t.item.processor_id t.partition_key o) id)
                j
              then 1
              else 0))
      → IsSound r (less_partitions u t.item.processor_id t.partition_key o)
  left-IsSound u o runs actives partitions =
      let parts = less_partitions-parts u t.item.processor_id t.partition_key o in
      let same = less_partitions-running u t.item.processor_id t.partition_key o ∙ runs in
      record {
        actives = λ id. rw (parts, same) (actives id);
        partitions = λ id j. rw same (partitions id j);
        total = rw same (omega (arith, sound.total, length-remove_at-le s.running k));
        each = λ id d e. rw same (each-own id d e);
      }

  leave-cases :
      (o : Option ℕ)
      → get s.active_per_processor t.item.processor_id ≡ o
      → let u = less_active (record s { running = remove_at s.running k }) t.item.processor_id o in
        IsSound r (
          less_partitions u t.item.processor_id t.partition_key
            (get u.active_partitions t.item.processor_id))
  unfolding less_active
  leave-cases none e =
      left-IsSound (record s { running = remove_at s.running k }) _ refl (active-own none e)
        (partitions-own s.active_per_processor t.partition_key _ refl refl)
  leave-cases (some n) e =
      left-IsSound
        (record s {
          running = remove_at s.running k;
          active_per_processor = insert s.active_per_processor t.item.processor_id (n - 1);
        })
        _ refl (active-own (some n) e)
        (partitions-own (insert s.active_per_processor t.item.processor_id (n - 1)) t.partition_key
          _ refl refl)

  -- The tables that a scheduling round counts by are right again when a task has left.
  pub leave-IsSound : IsSound r (leave s k t)
  unfolding leave
  leave-IsSound = leave-cases (get s.active_per_processor t.item.processor_id) refl

-- ===== src/Executor/Validation/Accepted.antt =====
-- crates/jaiba-runtime/src/engine/executor/validation.rs: what an accepted configuration satisfies.
use jaiva.Prelude.{
  ℕ, ◌+◌, ◌≤◌, ◌<◌, ◌≡◌, refl, ap, inl, inr, String, Bool, true, false, ◌&&◌, ◌||◌, not, Option,
  none, some, List, [], ◌∷◌, arith, str_eq, str_eq_iff, if◌then◌else◌, length, contains, count,
  count_if, all, All, Bool-cases, ◌==◌, ltb, values, u64_max, saturating_add,
}
use jaiva.Config.{FlowConfig, ProcessorConfig, ConnectionConfig}
use jaiva.Graph.Spec.{IsRanking}
use jaiva.Executor.Validation.{
  Rejection, reject_if, also, same_way, Fanout, bump, fanout, counts_of, max_of, max_fanout,
  check_engine, check_processor, check_processors, ids_of, check_connections, targets_of,
  has_no_start, processor_downstream_depths, required_pipeline_slots, validate, duplicate_id,
  is_maximum_below, zero_queue, unknown_end, no_start, too_few_slots,
}
use jaiva.Executor.Validation.Walks.{Walk, Walk-bounded}
use jaiva.Executor.Validation.Paths.{InProcessors, In-climbs, processor_depth, get-max_of}

also-none : (a b : Option Rejection) → also a b ≡ none → (a ≡ none) × (b ≡ none)
also-none none b h = (refl, h)
also-none (some reason) b h = absurd (cc)

reject_if-none : (bad : Bool) (reason : Rejection) → reject_if bad reason ≡ none → bad ≡ false
reject_if-none true reason h = absurd (cc)
reject_if-none false reason h = refl

-- The count of a way, and what counting one more does to it.
abbrev count_at : String × String → Fanout → ℕ
count_at way [] = 0
count_at way ((w, n) ∷ counts) =
    let rest = count_at way counts in if str_eq w.0 way.0 && str_eq w.1 way.1 then n else rest

count_at-bump :
    (way : String × String) (c : ConnectionConfig) (counts : Fanout)
    → count_at way (bump c counts) ≡ count_at way counts + (if same_way c way then 1 else 0)
unfolding bump
count_at-bump way c [] = ground (
  arith,
  str_eq_iff c.source way.0,
  str_eq_iff way.0 c.source,
  str_eq_iff c.relationship way.1,
  str_eq_iff way.1 c.relationship,
)
count_at-bump way c ((w, n) ∷ counts) = ground (
  arith,
  count_at-bump way c counts,
  str_eq_iff w.0 way.0,
  str_eq_iff w.1 way.1,
  str_eq_iff w.0 c.source,
  str_eq_iff w.1 c.relationship,
  str_eq_iff way.0 c.source,
  str_eq_iff way.1 c.relationship,
)

count_at-fanout :
    (way : String × String) (cs : List ConnectionConfig) (counts : Fanout)
    → count_at way (fanout cs counts) ≡ count_at way counts + count_if (λ c. same_way c way) cs
count_at-fanout way [] counts = omega arith
count_at-fanout way (c ∷ cs) counts =
    ground (arith, count_at-fanout way cs (bump c counts), count_at-bump way c counts)

count_at-max_of :
    (way : String × String) (counts : Fanout) → count_at way counts ≤ max_of (counts_of counts)
count_at-max_of way [] = omega arith
count_at-max_of way ((w, n) ∷ counts) = ground (arith, count_at-max_of way counts)

check_processors-distinct :
    (ids : List String) (processors : List ProcessorConfig) (a : String)
    → check_processors ids processors ≡ none
    → count a (ids_of processors) + (if contains ids a then 1 else 0) ≤ 1
unfolding check_processors
check_processors-distinct ids [] a h = ground arith
check_processors-distinct ids (p ∷ processors) a h =
    let (own, later) =
      also-none (check_processor p)
        (also (reject_if (contains ids p.id) (duplicate_id p.id))
          (check_processors (p.id ∷ ids) processors))
        h in
    let (first, rest) =
      also-none (reject_if (contains ids p.id) (duplicate_id p.id))
        (check_processors (p.id ∷ ids) processors) later in
    let new_ = reject_if-none (contains ids p.id) (duplicate_id p.id) first in
    let ih = check_processors-distinct (p.id ∷ ids) processors a rest in
    elim (Bool-cases (str_eq p.id a)) [
      | inl same ↦
          let same_id : contains ids p.id ≡ contains ids a =
            ap (contains ids) ((str_eq_iff p.id a).0 same) in
          ground (arith, ih, same, new_, same_id)
      | inr other ↦ ground (arith, ih, other)
    ]

-- What the scheduler relies on of a processor.
abbrev pub IsRunnable : ProcessorConfig → Type 0
IsRunnable p =
    (0 < p.scheduling.concurrent_tasks)
    × (is_maximum_below p.scheduling.concurrent_tasks p.scheduling.maximum_in_flight ≡ false)

check_processor-IsRunnable : (p : ProcessorConfig) → check_processor p ≡ none → IsRunnable p
check_processor-IsRunnable p h = (ground (arith, h), ground (arith, h))

check_processors-IsRunnable :
    (ids : List String) (processors : List ProcessorConfig)
    → check_processors ids processors ≡ none
    → All IsRunnable processors
unfolding check_processors
check_processors-IsRunnable ids [] h = tt
check_processors-IsRunnable ids (p ∷ processors) h =
    let (own, later) =
      also-none (check_processor p)
        (also (reject_if (contains ids p.id) (duplicate_id p.id))
          (check_processors (p.id ∷ ids) processors))
        h in
    let (first, rest) =
      also-none (reject_if (contains ids p.id) (duplicate_id p.id))
        (check_processors (p.id ∷ ids) processors) later in
    (check_processor-IsRunnable p own, check_processors-IsRunnable (p.id ∷ ids) processors rest)

-- A connection between processors of the flow, with room for a packet.
abbrev pub IsConnection : List String → ConnectionConfig → Type 0
IsConnection ids c =
    (0 < c.queue_capacity) × (contains ids c.source ≡ true) × (contains ids c.target ≡ true)

check_connections-IsConnection :
    (ids : List String) (cs : List ConnectionConfig)
    → check_connections ids cs ≡ none
    → All (IsConnection ids) cs
unfolding check_connections
check_connections-IsConnection ids [] h = tt
check_connections-IsConnection ids (c ∷ cs) h =
    let (room, later) =
      also-none (reject_if (c.queue_capacity == 0) zero_queue)
        (also
          (reject_if (not (contains ids c.source) || not (contains ids c.target))
            (unknown_end c.source c.target))
          (check_connections ids cs))
        h in
    let (known, rest) =
      also-none
        (reject_if (not (contains ids c.source) || not (contains ids c.target))
          (unknown_end c.source c.target))
        (check_connections ids cs) later in
    (
      (ground (arith, room), ground (arith, known), ground (arith, known)),
      check_connections-IsConnection ids cs rest,
    )

some_start :
    (targets : List String) (processors : List ProcessorConfig)
    → all (λ p. contains targets p.id) processors ≡ false
    → (p : ProcessorConfig) × InProcessors p processors × (contains targets p.id ≡ false)
some_start targets [] h = absurd (cc)
some_start targets (p ∷ processors) h = elim (Bool-cases (contains targets p.id)) [
  | inr starts ↦ (p, inl refl, starts)
  | inl fed ↦
      let (q, inside, starts) = some_start targets processors (ground (arith, h, fed)) in
      (q, inr inside, starts)
]

-- An accepted configuration, as the engine takes it.
pub record Accepted (config : FlowConfig) : Type 0 where
  pub capacities : (0 < config.engine.queue_capacity) × (0 < config.engine.max_concurrency)
  pub distinct : (a : String) → count a (ids_of config.processors) ≤ 1
  pub runnable : All IsRunnable config.processors
  pub connected : All (IsConnection (ids_of config.processors)) config.connections
  pub fits :
      (way : String × String)
      → count_if (λ c. same_way c way) config.connections ≤ config.engine.queue_capacity
  pub starts :
      (p : ProcessorConfig) × InProcessors p config.processors
      × (contains (targets_of config.connections) p.id ≡ false)
  pub slots : required_pipeline_slots config ≤ config.engine.max_concurrency

-- `validate` accepts only configurations with positive capacities, distinct identifiers, processors
-- that may run a task, connections with room and known ends, no more connections out of a processor
-- by one relationship than a queue takes, a processor that no connection leads to, and as many slots
-- as are required.
pub validate-Accepted : (config : FlowConfig) → validate config ≡ none → Accepted config
unfolding validate
validate-Accepted config h =
    let start = reject_if (has_no_start config) no_start in
    let slots =
      reject_if (ltb config.engine.max_concurrency (required_pipeline_slots config))
        (too_few_slots (required_pipeline_slots config)) in
    let connections = check_connections (ids_of config.processors) config.connections in
    let (engine, h₁) =
      also-none (check_engine config)
        (also (check_processors [] config.processors) (also connections (also start slots))) h in
    let (processors, h₂) =
      also-none (check_processors [] config.processors) (also connections (also start slots)) h₁ in
    let (connected, h₃) = also-none connections (also start slots) h₂ in
    let (started, slotted) = also-none start slots h₃ in
    record {
      capacities = (ground (arith, engine), ground (arith, engine));
      distinct = λ a. ground (arith, check_processors-distinct [] config.processors a processors);
      runnable = check_processors-IsRunnable [] config.processors processors;
      connected =
          check_connections-IsConnection (ids_of config.processors) config.connections connected;
      fits = λ way.
          let most : max_fanout config ≤ config.engine.queue_capacity = ground (arith, engine) in
          omega (
            arith,
            most,
            count_at-fanout way config.connections [],
            count_at-max_of way (fanout config.connections []),
          );
      starts =
          some_start (targets_of config.connections) config.processors
            (reject_if-none (has_no_start config) no_start started);
      slots = ground (arith, slotted);
    }

-- In a flow that is accepted and whose connections climb some ranking within its number of processors,
-- there are more slots than connections on any path from a processor.
pub validate-slots :
    (config : FlowConfig) (rank : String → ℕ)
    → IsRanking config rank
    → ((p : String) → rank p ≤ length config.processors)
    → length config.processors < u64_max
    → validate config ≡ none
    → (p : ProcessorConfig) → InProcessors p config.processors
    → (k : ℕ) → Walk config.connections p.id k
    → k < config.engine.max_concurrency
unfolding required_pipeline_slots
validate-slots config rank ranked bounded small accepted p inside k walk =
    let (n, found, longest) = processor_depth config rank ranked bounded small p inside in
    let most = max_of (values (processor_downstream_depths config)) in
    let enough : saturating_add u64_max most 1 ≤ config.engine.max_concurrency =
      (validate-Accepted config accepted).slots in
    omega (
      arith,
      enough,
      longest.1 k walk,
      small,
      get-max_of (processor_downstream_depths config) p.id n found,
      Walk-bounded config.connections rank (length config.processors)
          (In-climbs config.connections rank ranked) bounded small p.id k walk,
    )

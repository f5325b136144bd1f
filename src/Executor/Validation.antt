-- ===== src/Executor/Validation.antt =====
-- crates/jaiba-runtime/src/engine/executor/validation.rs: how far each processor is from the end of
-- its paths, and what a configuration must satisfy. The depth of a recursion takes fuel.
pub mod Walks
pub mod Paths
pub mod Accepted
pub mod Graphs
mod Examples
use jaiva.Prelude.{
  ℕ, zero, suc, ◌+◌, String, Bool, true, false, ◌&&◌, ◌||◌, not, Option, none, some, List, [], ◌∷◌,
  str_eq, ltb, leb, ◌==◌, if◌then◌else◌, is_empty, is_some, length, contains, all, max, HashMap,
  get, insert, values, u64_max, saturating_add,
}
use jaiva.Config.{
  FlowConfig, ProcessorConfig, ConnectionConfig, DataExecutionMode, real, AdminAuthentication,
  bearer, OrderingMode, partitioned,
}
use jaiva.Texts.{codes, trim}

abbrev pub Depths : Type 0
Depths = HashMap ℕ

abbrev pub one_more : ℕ → ℕ × Depths → ℕ × Depths
one_more depth (best, after) = (max (saturating_add u64_max 1 depth) best, after)

-- The largest depth over the connections of a processor; the depths of what they lead to are noted.
unfoldable pub deepest :
    (String → Depths → ℕ × Depths) → String → List ConnectionConfig → Depths → ℕ × Depths
deepest visit p [] memo = (0, memo)
deepest visit p (c ∷ cs) memo =
    let onward = deepest visit p cs in
    if str_eq c.source p
    then one_more (visit c.target memo).0 (onward (visit c.target memo).1)
    else onward memo

abbrev pub note : String → ℕ × Depths → ℕ × Depths
note p (depth, memo) = (depth, insert memo p depth)

abbrev pub known_or : Option ℕ → Depths → ℕ × Depths → ℕ × Depths
known_or none memo fresh = fresh
known_or (some depth) memo fresh = (depth, memo)

unfoldable pub visit : ℕ → List ConnectionConfig → List String → String → Depths → ℕ × Depths
unfolding deepest
visit zero connections visiting p memo = (0, memo)
visit (suc fuel) connections visiting p memo =
    let inner = visit fuel connections (p ∷ visiting) in
    known_or (get memo p) memo
      (if contains visiting p then (0, memo) else note p (deepest inner p connections memo))

abbrev pub visit_all : ℕ → List ConnectionConfig → List ProcessorConfig → Depths → Depths
visit_all fuel connections [] memo = memo
visit_all fuel connections (p ∷ processors) memo =
    visit_all fuel connections processors (visit fuel connections [] p.id memo).1

unfoldable pub processor_downstream_depths : FlowConfig → Depths
unfolding visit
processor_downstream_depths config =
    visit_all (length config.processors + 2) config.connections config.processors []

-- `max().unwrap_or_default()`
abbrev pub max_of : List ℕ → ℕ
max_of [] = 0
max_of (x ∷ xs) = max x (max_of xs)

unfoldable pub required_pipeline_slots : FlowConfig → ℕ
unfolding processor_downstream_depths
required_pipeline_slots config =
    saturating_add u64_max (max_of (values (processor_downstream_depths config))) 1

-- Why a configuration is rejected; the messages are left out.
pub data Rejection : Type 0 where
  no_processor : Rejection
  zero_capacity : Rejection
  fanout_above_capacity : ℕ → ℕ → Rejection
  zero_drain_timeout : Rejection
  zero_request_body : Rejection
  empty_admin_token : Rejection
  too_many_threads : Rejection
  simulated_data : String → DataExecutionMode → Rejection
  no_concurrent_task : String → Rejection
  zero_in_flight : String → Rejection
  in_flight_below_tasks : String → Rejection
  no_partition_selector : String → Rejection
  duplicate_id : String → Rejection
  zero_queue : Rejection
  unknown_end : String → String → Rejection
  no_start : Rejection
  too_few_slots : ℕ → Rejection

-- The first reason to reject, if there is one.
abbrev pub reject_if : Bool → Rejection → Option Rejection
reject_if bad reason = if bad then some reason else none

abbrev pub also : Option Rejection → Option Rejection → Option Rejection
also none later = later
also (some reason) later = some reason

-- How many connections leave a processor by one relationship.
abbrev pub same_way : ConnectionConfig → String × String → Bool
same_way c way = str_eq way.0 c.source && str_eq way.1 c.relationship

abbrev pub Fanout : Type 0
Fanout = List ((String × String) × ℕ)

unfoldable pub bump : ConnectionConfig → Fanout → Fanout
bump c [] = ((c.source, c.relationship), 1) ∷ []
bump c ((way, n) ∷ counts) =
    let rest = bump c counts in if same_way c way then (way, n + 1) ∷ counts else (way, n) ∷ rest

abbrev pub fanout : List ConnectionConfig → Fanout → Fanout
fanout [] counts = counts
fanout (c ∷ cs) counts = fanout cs (bump c counts)

abbrev pub counts_of : Fanout → List ℕ
counts_of [] = []
counts_of ((way, n) ∷ counts) = n ∷ counts_of counts

abbrev pub max_fanout : FlowConfig → ℕ
max_fanout config = max_of (counts_of (fanout config.connections []))

abbrev pub is_bearer : AdminAuthentication → Bool
is_bearer bearer = true
is_bearer _ = false

abbrev pub check_engine : FlowConfig → Option Rejection
check_engine config =
    let e = config.engine in
    also (reject_if (is_empty config.processors) no_processor) (
      also (reject_if (e.queue_capacity == 0 || e.max_concurrency == 0) zero_capacity) (
        also
          (reject_if (ltb e.queue_capacity (max_fanout config))
            (fanout_above_capacity e.queue_capacity (max_fanout config)))
          (also (reject_if (e.drain_timeout_seconds == 0) zero_drain_timeout) (
            also (reject_if (e.admin_max_request_body_bytes == 0) zero_request_body) (
              also
                (reject_if
                  (e.admin_enabled
                    && is_bearer e.admin_authentication
                    && is_empty (trim (codes e.admin_token_env)))
                  empty_admin_token)
                (reject_if (ltb 1024 e.cpu_threads || ltb 1024 e.blocking_threads)
                  too_many_threads))))))

abbrev pub is_real : DataExecutionMode → Bool
is_real real = true
is_real _ = false

abbrev pub is_partitioned : OrderingMode → Bool
is_partitioned partitioned = true
is_partitioned _ = false

abbrev pub lacks_selector : Option String → Bool
lacks_selector none = true
lacks_selector (some selector) = str_eq selector ""

abbrev pub is_zero_maximum : Option ℕ → Bool
is_zero_maximum none = false
is_zero_maximum (some maximum) = maximum == 0

abbrev pub is_maximum_below : ℕ → Option ℕ → Bool
is_maximum_below tasks none = false
is_maximum_below tasks (some maximum) = ltb maximum tasks

abbrev pub check_processor : ProcessorConfig → Option Rejection
check_processor p =
    let s = p.scheduling in
    also (reject_if (not (is_real p.simulation_mode)) (simulated_data p.id p.simulation_mode)) (
      also (reject_if (s.concurrent_tasks == 0) (no_concurrent_task p.id)) (
        also (reject_if (is_zero_maximum s.maximum_in_flight) (zero_in_flight p.id)) (
          also
            (reject_if (is_maximum_below s.concurrent_tasks s.maximum_in_flight)
              (in_flight_below_tasks p.id))
            (reject_if (is_partitioned s.ordering && lacks_selector s.partition_by)
              (no_partition_selector p.id)))))

unfoldable pub check_processors : List String → List ProcessorConfig → Option Rejection
check_processors ids [] = none
check_processors ids (p ∷ processors) = also (check_processor p) (
    also (reject_if (contains ids p.id) (duplicate_id p.id))
      (check_processors (p.id ∷ ids) processors))

abbrev pub ids_of : List ProcessorConfig → List String
ids_of [] = []
ids_of (p ∷ processors) = p.id ∷ ids_of processors

unfoldable pub check_connections : List String → List ConnectionConfig → Option Rejection
check_connections ids [] = none
check_connections ids (c ∷ cs) = also (reject_if (c.queue_capacity == 0) zero_queue) (
    also
      (reject_if (not (contains ids c.source) || not (contains ids c.target))
        (unknown_end c.source c.target))
      (check_connections ids cs))

abbrev pub targets_of : List ConnectionConfig → List String
targets_of [] = []
targets_of (c ∷ cs) = c.target ∷ targets_of cs

abbrev pub has_no_start : FlowConfig → Bool
has_no_start config = all (λ p. contains (targets_of config.connections) p.id) config.processors

unfoldable pub validate : FlowConfig → Option Rejection
unfolding bump check_processors check_connections required_pipeline_slots trim
validate config = also (check_engine config) (
    also (check_processors [] config.processors) (
      also (check_connections (ids_of config.processors) config.connections) (
        also (reject_if (has_no_start config) no_start) (
          reject_if (ltb config.engine.max_concurrency (required_pipeline_slots config))
            (too_few_slots (required_pipeline_slots config))))))

-- ===== src/Executor/Validation/Examples.antt =====
-- crates/jaiba-runtime/src/engine/executor/validation.rs: a reader that feeds a writer.
use jaiva.Prelude.{
  List, ℕ, ◌<◌, ◌≤◌, ◌≡◌, refl, inl, String, false, none, some, [], ◌∷◌, arith, str_eq,
  if◌then◌else◌, get, insert, length,
}
use jaiva.Json.{null}
use jaiva.Config
use jaiva.Config.{FlowConfig, ProcessorConfig, ConnectionConfig}
use jaiva.Executor.Validation.{processor_downstream_depths, validate}
use jaiva.Executor.Validation.Walks.{stays, goes, Longest}
use jaiva.Executor.Validation.Paths.{processor_depth}
use jaiva.Executor.Validation.Accepted.{Accepted, validate-Accepted}
use jaiva.Executor.Validation.Graphs.{build-slots}
use jaiva.Graph.{FlowGraph, ok, build}

abbrev step : String → ProcessorConfig
step id = record {
  id = id;
  processor_type = "log_records";
  config = null;
  retry = record { maximum_attempts = 0; initial_delay_ms = 250; maximum_delay_ms = 30000 };
  scheduling = record {
    concurrent_tasks = 2;
    maximum_in_flight = some 4;
    timeout_ms = none;
    execution_mode = Config.cpu;
    ordering = Config.preserve;
    partition_by = none;
  };
  simulation_mode = Config.real;
}

abbrev pipe : ConnectionConfig
pipe = record { source = "read"; relationship = "success"; target = "write"; queue_capacity = 1 }

abbrev pipeline : FlowConfig
pipeline = record {
  id = "pipeline";
  engine = record {
    queue_capacity = 8;
    max_concurrency = 2;
    drain_timeout_seconds = 30;
    force_after_timeout = false;
    admin_enabled = false;
    admin_authentication = Config.none;
    admin_token_env = "";
    admin_max_request_body_bytes = 1024;
    cpu_threads = 2;
    blocking_threads = 2;
  };
  processors = step "read" ∷ step "write" ∷ [];
  connections = pipe ∷ [];
}

abbrev level : String → ℕ
level id = if str_eq id "write" then 1 else 0

level_bounded : (id : String) → level id ≤ length pipeline.processors
level_bounded id = ground arith

pipeline_validates : validate pipeline ≡ none
unfolding validate get insert
pipeline_validates = refl

processor_depth_example :
    (n : ℕ) × (get (processor_downstream_depths pipeline) "read" ≡ some n)
    × Longest pipeline.connections "read" n
processor_depth_example =
    processor_depth pipeline level (omega arith, tt) level_bounded (omega arith) (step "read")
      (inl refl)

validate-Accepted_example : Accepted pipeline
validate-Accepted_example = validate-Accepted pipeline pipeline_validates

abbrev in_order : List String → List String
in_order xs = xs

abbrev pipeline_graph : FlowGraph
pipeline_graph = record {
  nodes =
      record { id = "read"; processor_type = "log_records" }
      ∷ record { id = "write"; processor_type = "log_records" }
      ∷ [];
  edges = record { source = "read"; relationship = "success"; target = "write" } ∷ [];
  topological_order = "read" ∷ "write" ∷ [];
}

pipeline_builds : build in_order pipeline ≡ ok pipeline_graph
unfolding build get insert
pipeline_builds = refl

build-slots_example : 1 < pipeline.engine.max_concurrency
build-slots_example =
    build-slots in_order (λ a xs. refl) pipeline pipeline_graph pipeline_builds pipeline_validates
      (omega arith) (step "read") (inl refl) 1 (goes pipe 0 (inl refl) (stays "write"))

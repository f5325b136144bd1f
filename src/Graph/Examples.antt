-- ===== src/Graph/Examples.antt =====
-- Runs of `FlowGraph::build` (crates/jaiba-core/src/graph.rs) on small flows.
use jaiva.Prelude.{ℕ, String, ◌≡◌, refl, ◌≢◌, List, [], ◌∷◌, none, true, ◌↔◌, get, insert, map}
use jaiva.Json.{null}
use jaiva.Config
use jaiva.Config.{FlowConfig, ProcessorConfig, ConnectionConfig}
use jaiva.Graph.{FlowGraph, ok, err, panic, out_of_fuel, cycle, build}
use jaiva.Graph.Spec.{IsTopological, Explains, IsWellFormed, IsRanking}
use jaiva.Graph.Correct.{build_returns, build-IsTopological, build_accepts_iff, build-Explains}

abbrev processor : String → ProcessorConfig
processor id = record {
  id = id;
  processor_type = "log_records";
  config = null;
  retry = record { maximum_attempts = 0; initial_delay_ms = 250; maximum_delay_ms = 30000 };
  scheduling = record {
    concurrent_tasks = 1;
    maximum_in_flight = none;
    timeout_ms = none;
    execution_mode = Config.auto;
    ordering = Config.unordered;
    partition_by = none;
  };
  simulation_mode = Config.real;
}

abbrev connection : String → String → ConnectionConfig
connection from to = record {
  source = from;
  relationship = "success";
  target = to;
  queue_capacity = 100;
}

abbrev flow : List String → List ConnectionConfig → FlowConfig
flow ids cs = record {
  id = "flow";
  engine = record {
    queue_capacity = 100;
    max_concurrency = 4;
    drain_timeout_seconds = 60;
    force_after_timeout = true;
    admin_enabled = true;
    admin_authentication = Config.bearer;
    admin_token_env = "JAIBA_ADMIN_TOKEN";
    admin_max_request_body_bytes = 1048576;
    cpu_threads = 0;
    blocking_threads = 0;
  };
  processors = map processor ids;
  connections = cs;
}

-- The map is iterated in the order of insertion.
abbrev as_is : List String → List String
as_is xs = xs

abbrev diamond : FlowConfig
diamond = flow ("sink" ∷ "left" ∷ "right" ∷ "source" ∷ []) (
    connection "source" "left"
    ∷ connection "source" "right"
    ∷ connection "left" "sink"
    ∷ connection "right" "sink"
    ∷ [])

abbrev looping : FlowConfig
looping =
    flow ("start" ∷ "left" ∷ "right" ∷ [])
      (connection "left" "right" ∷ connection "right" "left" ∷ [])

abbrev diamond_graph : FlowGraph
diamond_graph = record {
  nodes =
      map (λ id. record { id = id; processor_type = "log_records" })
        ("sink" ∷ "left" ∷ "right" ∷ "source" ∷ []);
  edges =
      map (λ c. record { source = c.source; relationship = "success"; target = c.target })
        diamond.connections;
  topological_order = "source" ∷ "left" ∷ "right" ∷ "sink" ∷ [];
}

diamond_builds : build as_is diamond ≡ ok diamond_graph
unfolding build get insert
diamond_builds = refl

looping_fails : build as_is looping ≡ err cycle
unfolding build get insert
looping_fails = refl

build_returns_example : (build as_is looping ≢ panic) × (build as_is looping ≢ out_of_fuel)
build_returns_example = build_returns as_is (λ a xs. refl) looping

build-IsTopological_example : IsTopological diamond diamond_graph
build-IsTopological_example =
    build-IsTopological as_is (λ a xs. refl) diamond diamond_graph diamond_builds

build_accepts_iff_example :
    ((g : FlowGraph) × (build as_is diamond ≡ ok g))
    ↔ (IsWellFormed diamond × ((rank : String → ℕ) × IsRanking diamond rank))
build_accepts_iff_example = build_accepts_iff as_is (λ a xs. refl) diamond

diamond-IsWellFormed : IsWellFormed diamond
diamond-IsWellFormed = (build_accepts_iff_example.0 (diamond_graph, diamond_builds)).0

build-Explains_example : Explains looping cycle
build-Explains_example = build-Explains as_is (λ a xs. refl) looping cycle looping_fails

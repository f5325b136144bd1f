-- ===== src/Graph/Spec.antt =====
-- What `FlowGraph::build` of crates/jaiba-core/src/graph.rs is held to.
use jaiva.Prelude.{
  ℕ, ◌<◌, String, ◌≡◌, true, false, List, [], map, Memᴰ, is_empty, All, count, IsDistinct,
}
use jaiva.Config.{FlowConfig, ConnectionConfig}
use jaiva.Graph.{GraphError, empty, duplicate_processor, unknown_processor, cycle, FlowGraph}
use jaiva.Graph.Counts.{precedes}
use jaiva.Graph.Prepare.{id_of, node_of, edge_of, Known}

abbrev pub ids_of : FlowConfig → List String
ids_of config = map id_of config.processors

pub record IsWellFormed (config : FlowConfig) : Type 0 where
  pub some_processor : is_empty config.processors ≡ false
  pub distinct : IsDistinct (ids_of config)
  pub known : All (Known (ids_of config)) config.connections

-- The connections climb: a rank of the processors that shows that there is no cycle.
abbrev pub IsRanking : FlowConfig → (String → ℕ) → Type 0
IsRanking config rank = All (λ c. rank c.source < rank c.target) config.connections

-- What a graph owes to its configuration: every processor and connection in its place, and an
-- order that has each processor once and behind all its predecessors.
pub record IsTopological (config : FlowConfig) (g : FlowGraph) : Type 0 where
  pub nodes : g.nodes ≡ map node_of config.processors
  pub edges : g.edges ≡ map edge_of config.connections
  pub permutes : (a : String) → count a g.topological_order ≡ count a (ids_of config)
  pub distinct : IsDistinct g.topological_order
  pub respects : All (λ c. precedes c.source c.target g.topological_order ≡ true) config.connections

-- What is wrong with a configuration, for each error.
abbrev pub Explains : FlowConfig → GraphError → Type 0
Explains config empty = config.processors ≡ []
Explains config (duplicate_processor d) = 1 < count d (ids_of config)
Explains config (unknown_processor from to) =
    (c : ConnectionConfig) × Memᴰ c config.connections
    × (c.source ≡ from)
    × (c.target ≡ to)
    × ¬ Known (ids_of config) c
Explains config cycle = ¬ ((rank : String → ℕ) × IsRanking config rank)

-- ===== src/Executor/Validation/Graphs.antt =====
-- crates/jaiba-runtime/src/engine/executor/mod.rs, `FlowEngine::new`: a configuration that both the
-- graph and the validation accept.
use jaiva.Prelude.{
  ℕ, ◌≤◌, ◌<◌, ◌≡◌, refl, String, none, List, [], ◌∷◌, map, arith, length, count, u64_max,
}
use jaiva.Config.{FlowConfig, ProcessorConfig}
use jaiva.Graph.{FlowGraph, ok, build}
use jaiva.Graph.Counts.{length-le_of_count}
use jaiva.Graph.Prepare.{id_of}
use jaiva.Graph.Spec.{ids_of}
use jaiva.Graph.Ranking.{position, positions-rank}
use jaiva.Graph.Correct.{build-IsTopological}
use jaiva.Executor.Validation.{validate}
use jaiva.Executor.Validation.Walks.{Walk}
use jaiva.Executor.Validation.Paths.{InProcessors}
use jaiva.Executor.Validation.Accepted.{validate-slots}

position-le : (order : List String) (x : String) → position order x ≤ length order
position-le [] x = omega arith
position-le (z ∷ zs) x = ground (arith, position-le zs x)

length-map : (processors : List ProcessorConfig) → length (map id_of processors) ≡ length processors
length-map [] = refl
length-map (p ∷ processors) = omega (arith, length-map processors)

-- When `build` has returned a graph for a configuration, whatever the order in which the hash map
-- yields its keys, and `validate` accepts it, then a flow of less processors than a word counts has
-- more slots than there are connections on any path from a processor.
pub build-slots :
    (iter : List String → List String)
    → ((a : String) (xs : List String) → count a (iter xs) ≡ count a xs)
    → (config : FlowConfig) (g : FlowGraph) → build iter config ≡ ok g
    → validate config ≡ none
    → length config.processors < u64_max
    → (p : ProcessorConfig) → InProcessors p config.processors
    → (k : ℕ) → Walk config.connections p.id k
    → k < config.engine.max_concurrency
build-slots iter visits config g built accepted small p inside k walk =
    let topological = build-IsTopological iter visits config g built in
    let order = g.topological_order in
    let short : length order ≤ length config.processors = omega (
      arith,
      length-map config.processors,
      length-le_of_count order (ids_of config) (λ a. omega (arith, topological.permutes a)),
    ) in
    validate-slots config (position order)
      (positions-rank order config.connections topological.respects)
      (λ q. omega (arith, short, position-le order q)) small accepted p inside k walk

-- ===== src/Graph.antt =====
-- crates/jaiba-core/src/graph.rs: the graph of a flow and its topological order. `from` is a
-- `ConnectionConfig`'s `source` and `to` its `target`. An `expect` that fails and a subtraction
-- below 0 are the outcome `panic`; the `while` loop takes fuel. The order in which the standard
-- library's hash map yields its keys is the parameter `iter`.
pub mod Counts
pub mod Prepare
pub mod Release
pub mod Loop
pub mod Spec
pub mod Ranking
pub mod Analysis
pub mod Correct
mod Examples
use jaiva.Prelude.{
  ℕ, zero, suc, ◌+◌, ◌-◌, String, Bool, true, false, not, ◌||◌, Option, none, some, List, [], ◌∷◌,
  ◌++◌, ◌==◌, str_eq, if◌then◌else◌, length, is_empty, contains, filter, HashMap, get, insert, keys,
}
use jaiva.Config.{FlowConfig, ProcessorConfig, ConnectionConfig}

pub data GraphError : Type 0 where
  empty : GraphError
  duplicate_processor : String → GraphError
  unknown_processor : String → String → GraphError
  cycle : GraphError

pub data Outcome (A : Type 0) : Type 0 where
  ok : A → Outcome A
  err : GraphError → Outcome A
  panic : Outcome A
  out_of_fuel : Outcome A

infixl 5 ◌>>=◌
abbrev pub ◌>>=◌ : {A B : Type 0} → Outcome A → (A → Outcome B) → Outcome B
ok a >>= f = f a
err e >>= f = err e
panic >>= f = panic
out_of_fuel >>= f = out_of_fuel

pub record GraphNode : Type 0 where
  pub id : String
  pub processor_type : String

pub record GraphEdge : Type 0 where
  pub source : String
  pub relationship : String
  pub target : String

pub record FlowGraph : Type 0 where
  pub nodes : List GraphNode
  pub edges : List GraphEdge
  pub topological_order : List String

-- `expect("validated destination")`
abbrev pub expect : {A : Type 0} → Option A → Outcome A
expect none = panic
expect (some a) = ok a

-- The closure of the first `map`, run over the processors: the ids seen, and the nodes.
unfoldable pub collect_nodes :
    List String → List ProcessorConfig → Outcome (List String × List GraphNode)
collect_nodes ids [] = ok (ids, [])
collect_nodes ids (p ∷ ps) = if contains ids p.id then err (duplicate_processor p.id) else do
  (ids', nodes) ← collect_nodes (ids ++ p.id ∷ []) ps
  ok (ids', record { id = p.id; processor_type = p.processor_type } ∷ nodes)

pub record Tables : Type 0 where
  pub indegree : HashMap ℕ
  pub outgoing : HashMap (List String)

abbrev pub zero_degrees : List String → HashMap ℕ
zero_degrees [] = []
zero_degrees (id ∷ ids) = (id, 0) ∷ zero_degrees ids

-- `.into_iter().flatten()` of an optional list
abbrev pub or_empty : Option (List String) → List String
or_empty none = []
or_empty (some ds) = ds

-- What an accepted connection does to the two maps.
unfoldable pub note_edge : Tables → ConnectionConfig → Outcome Tables
note_edge t c = do
  degree ← expect (get t.indegree c.target)
  ok (record {
    indegree = insert t.indegree c.target (degree + 1);
    outgoing = insert t.outgoing c.source (or_empty (get t.outgoing c.source) ++ c.target ∷ []);
  })

-- The closure of the second `map`, run over the connections.
unfoldable pub collect_edges :
    List String → Tables → List ConnectionConfig → Outcome (Tables × List GraphEdge)
unfolding note_edge
collect_edges ids t [] = ok (t, [])
collect_edges ids t (c ∷ cs) =
    if not (contains ids c.source) || not (contains ids c.target)
    then err (unknown_processor c.source c.target)
    else do
      t' ← note_edge t c
      (t'', edges) ← collect_edges ids t' cs
      ok (
        t'',
        record { source = c.source; relationship = c.relationship; target = c.target } ∷ edges,
      )

-- The state of the `while` loop.
pub record Kahn : Type 0 where
  pub pending : List String
  pub order : List String
  pub indegree : HashMap ℕ

-- The body of the `for` loop: one destination loses a predecessor.
unfoldable pub release_one : Kahn → String → Outcome Kahn
release_one s destination = do
  degree ← expect (get s.indegree destination)
  elim degree [
    | zero ↦ panic
    | suc left ↦ ok (record s {
      pending = if left == 0 then s.pending ++ destination ∷ [] else s.pending;
      indegree = insert s.indegree destination left;
    })
  ]

unfoldable pub release : Kahn → List String → Outcome Kahn
unfolding release_one
release s [] = ok s
release s (destination ∷ rest) = do s' ← release_one s destination; release s' rest

unfoldable pub loop : ℕ → HashMap (List String) → Kahn → Outcome (List String)
unfolding release
loop zero outgoing s = elim s.pending [ [] ↦ ok s.order | _ ∷ _ ↦ out_of_fuel ]
loop (suc fuel) outgoing s = elim s.pending [
  | [] ↦ ok s.order
  | id ∷ rest ↦ do
    s' ←
        release (record s { pending = rest; order = s.order ++ id ∷ [] })
          (or_empty (get outgoing id))
    loop fuel outgoing s'
]

-- `**degree == 0` at a key of the map
abbrev pub is_ready : HashMap ℕ → String → Bool
is_ready indegree id = elim (get indegree id) [ none ↦ false | some degree ↦ degree == 0 ]

module _ (iter : List String → List String) where
  unfoldable pub start : Tables → Kahn
  start t = record {
    pending = filter (is_ready t.indegree) (iter (keys t.indegree));
    order = [];
    indegree = t.indegree;
  }

  unfoldable pub build : FlowConfig → Outcome FlowGraph
  unfolding collect_nodes collect_edges start loop
  build config = if is_empty config.processors then err empty else do
    (ids, nodes) ← collect_nodes [] config.processors
    (tables, edges) ←
        collect_edges ids (record { indegree = zero_degrees ids; outgoing = [] }) config.connections
    order ← loop (length nodes) tables.outgoing (start tables)
    if not (length order == length nodes)
        then err cycle
        else ok (record { nodes = nodes; edges = edges; topological_order = order })

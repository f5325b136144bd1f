-- ===== src/Graph/Analysis.antt =====
-- `FlowGraph::build` of crates/jaiba-core/src/graph.rs, case by case: a configuration that is
-- rejected before the loop, or the end of the loop.
use jaiva.Prelude.{
  suc, String, ◌≡◌, refl, sym, ap, subst, ◌⊎◌, inl, inr, true, not, List, [], ◌∷◌, map, Memᴰ, arith,
  str_eq, ◌==◌, if◌then◌else◌, length, is_empty, All, count, contains, contains-count, count-filter,
  IsDistinct, keys, Bool-cases,
}
use mathlib.Core.List.Memᴰ
use jaiva.Config.{FlowConfig, ProcessorConfig, ConnectionConfig}
use jaiva.Graph.{
  ok, err, GraphError, empty, duplicate_processor, unknown_processor, cycle, Tables, zero_degrees,
  Kahn, is_ready, start, build,
}
use jaiva.Graph.Counts.{targets}
use jaiva.Graph.Loop.{Round, InOrder, loop_ends}
use jaiva.Graph.Prepare.{
  id_of, node_of, edge_of, Known, Agrees, Agrees-start, collect_nodes-cases, collect_edges-cases,
}
use jaiva.Graph.Spec.{ids_of, IsWellFormed, Explains}

targets-Known :
    (ids : List String) (cs : List ConnectionConfig) (u : String)
    → All (Known ids) cs
    → All (λ d. contains ids d ≡ true) (targets cs u)
unfolding targets
targets-Known ids [] u h = tt
targets-Known ids (c ∷ cs) u ((from, to), hs) = elim (Bool-cases (str_eq c.source u)) [
  | inl e ↦ rw e (to, targets-Known ids cs u hs)
  | inr e ↦ rw e (targets-Known ids cs u hs)
]

InOrder-nil : (cs : List ConnectionConfig) → InOrder cs []
InOrder-nil [] = tt
InOrder-nil (c ∷ cs) = (λ h. cc, InOrder-nil cs)

is_empty-eq : (ps : List ProcessorConfig) → is_empty ps ≡ true → ps ≡ []
is_empty-eq [] h = refl
is_empty-eq (p ∷ ps) h = cc

pub length-ids : (ps : List ProcessorConfig) → length (map id_of ps) ≡ length (map node_of ps)
length-ids [] = refl
length-ids (p ∷ ps) = ap suc (length-ids ps)

All-Memᴰ :
    (P : ConnectionConfig → Type 0) (c : ConnectionConfig) (cs : List ConnectionConfig)
    → All P cs
    → Memᴰ c cs
    → P c
All-Memᴰ P c [] h m = absurd (Memᴰ.not-nil m)
All-Memᴰ P c (d ∷ cs) (p, ps) (Memᴰ.head e) = subst P (sym e) p
All-Memᴰ P c (d ∷ cs) (p, ps) (Memᴰ.tail m) = All-Memᴰ P c cs ps m

module _ (iter : List String → List String)
    (visits : (a : String) (xs : List String) → count a (iter xs) ≡ count a xs) where
  start-Round :
      (ids : List String) (cs : List ConnectionConfig) (t : Tables)
      → IsDistinct ids
      → Agrees ids cs t
      → Round ids cs (start iter t)
  unfolding start
  start-Round ids cs t d h = record {
    inv = record {
      degrees = λ v k. ground (arith, h.degrees v k);
      queued = λ v k. ground (
        arith,
        h.degrees v k,
        count-filter (is_ready t.indegree) v (iter (keys t.indegree)),
        visits v (keys t.indegree),
        ap (count v) h.names,
        d v,
        contains-count v ids,
      );
      foreign = λ v k. ground (
        arith,
        count-filter (is_ready t.indegree) v (iter (keys t.indegree)),
        visits v (keys t.indegree),
        ap (count v) h.names,
        contains-count v ids,
      );
    };
    behind = InOrder-nil cs;
  }

  -- A run on a well-formed configuration reaches the end of the loop.
  pub record Finished (config : FlowConfig) : Type 0 where
    pub last : Kahn
    pub round : Round (ids_of config) config.connections last
    pub drained : last.pending ≡ []
    pub answer : build iter config ≡ (
        if not (length last.order == length (map node_of config.processors))
        then err cycle
        else ok (record {
          nodes = map node_of config.processors;
          edges = map edge_of config.connections;
          topological_order = last.order;
        }))

  pub analysis :
      (config : FlowConfig)
      → (IsWellFormed config × Finished config)
        ⊎ ((e : GraphError) × (build iter config ≡ err e)
            × Explains config e
            × ¬ IsWellFormed config)
  unfolding build
  analysis config = elim (Bool-cases (is_empty config.processors)) [
    | inl none_at_all ↦ inr (
      empty,
      rw none_at_all refl,
      is_empty-eq config.processors none_at_all,
      λ w. cc (w.some_processor, none_at_all),
    )
    | inr some_at_all ↦ elim (collect_nodes-cases [] config.processors (λ a. omega arith)) [
      | inr (d, failed, twice) ↦ inr (
        duplicate_processor d,
        rw (some_at_all, failed) refl,
        twice,
        λ w. absurd (omega (arith, w.distinct d)),
      )
      | inl (named, distinct) ↦
          elim (collect_edges-cases (ids_of config) [] config.connections
            (record { indegree = zero_degrees (ids_of config); outgoing = [] })
            (Agrees-start (ids_of config))) [
              | inr (c, failed, there, unknown) ↦ inr (
                unknown_processor c.source c.target,
                rw (some_at_all, named, failed) refl,
                (c, there, refl, refl, unknown),
                λ w. unknown (All-Memᴰ (Known (ids_of config)) c config.connections w.known there),
              )
              | inl (t, wired, agrees, known) ↦
                  let (last, ended, round, drained) =
                    loop_ends (ids_of config) config.connections t.outgoing
                      (record {
                        follows = agrees.follows;
                        inside = λ u. targets-Known (ids_of config) config.connections u known;
                      })
                      (length (map node_of config.processors)) (start iter t)
                      (start-Round (ids_of config) config.connections t distinct agrees)
                      (omega (arith, length-ids config.processors)) in
                  inl (
                    record { some_processor = some_at_all; distinct = distinct; known = known },
                    record {
                      last = last;
                      round = round;
                      drained = drained;
                      answer = rw (some_at_all, named, wired, ended) refl;
                    },
                  )
            ]
    ]
  ]

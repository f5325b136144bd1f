-- ===== src/Graph/Correct.antt =====
-- `FlowGraph::build` of crates/jaiba-core/src/graph.rs against its specification.
use jaiva.Prelude.{
  ℕ, suc, String, ◌≡◌, refl, sym, ◌∙◌, subst, ◌≢◌, ◌⊎◌, ◌↔◌, inl, inr, List, map, arith, ◌==◌,
  length, count, contains, contains-count, Bool-cases,
}
use jaiva.Config.{FlowConfig}
use jaiva.Graph.{ok, err, panic, out_of_fuel, GraphError, cycle, FlowGraph, build}
use jaiva.Graph.Counts.{length-le_of_count, count-eq_of_length}
use jaiva.Graph.Prepare.{node_of, edge_of}
use jaiva.Graph.Spec.{ids_of, IsWellFormed, IsRanking, IsTopological, Explains}
use jaiva.Graph.Ranking.{InOrder-All, order-le, done-All, position, positions-rank}
use jaiva.Graph.Analysis.{length-ids, Finished, analysis}

module _ (iter : List String → List String)
    (visits : (a : String) (xs : List String) → count a (iter xs) ≡ count a xs) where
  full-Finished :
      (config : FlowConfig)
      → IsWellFormed config
      → (f : Finished iter visits config) → (rank : String → ℕ) → IsRanking config rank
      → length f.last.order ≡ length (map node_of config.processors)
  full-Finished config w f rank ranked =
      let ids = ids_of config in
      omega (
        arith,
        length-ids config.processors,
        length-le_of_count f.last.order ids
            (λ a. order-le ids config.connections f.last a f.round f.drained),
        length-le_of_count ids f.last.order (λ a. elim (Bool-cases (contains ids a)) [
          | inl k ↦ ground (
            arith,
            w.distinct a,
            contains-count a f.last.order,
            done-All ids config.connections f.last rank f.round f.drained w.known ranked
                (suc (rank a)) a k (omega arith),
          )
          | inr k ↦ ground (arith, contains-count a ids)
        ]),
      )

  graph-of : (config : FlowConfig) → Finished iter visits config → FlowGraph
  graph-of config f = record {
    nodes = map node_of config.processors;
    edges = map edge_of config.connections;
    topological_order = f.last.order;
  }

  -- The last test of `build` tells a full order from a short one.
  verdict :
      (config : FlowConfig)
      → (f : Finished iter visits config)
      → ((build iter config ≡ ok (graph-of config f))
          × (length f.last.order ≡ length (map node_of config.processors)))
        ⊎ ((build iter config ≡ err cycle)
            × (length f.last.order ≢ length (map node_of config.processors)))
  unfolding graph-of
  verdict config f =
      elim (Bool-cases (length f.last.order == length (map node_of config.processors))) [
        | inl full ↦ inl (f.answer ∙ rw full refl, ground arith)
        | inr short ↦ inr (f.answer ∙ rw short refl, λ e. ground arith)
      ]

  graph-of-IsTopological :
      (config : FlowConfig)
      → IsWellFormed config
      → (f : Finished iter visits config)
      → length f.last.order ≡ length (map node_of config.processors)
      → IsTopological config (graph-of config f)
  unfolding graph-of
  graph-of-IsTopological config w f full =
      let ids = ids_of config in
      let same =
        count-eq_of_length f.last.order ids
          (λ a. order-le ids config.connections f.last a f.round f.drained)
          (full ∙ sym (length-ids config.processors)) in
      record {
        nodes = refl;
        edges = refl;
        permutes = same;
        distinct = λ a. omega (arith, same a, w.distinct a);
        respects = InOrder-All ids f.last.order config.connections same w.known f.round.behind;
      }

  -- `build` neither panics nor runs out of fuel: no `expect` fails, no degree drops below 0, and
  -- the loop ends.
  pub build_returns :
      (config : FlowConfig) → (build iter config ≢ panic) × (build iter config ≢ out_of_fuel)
  build_returns config = elim (analysis iter visits config) [
    | inr (e, failed, _, _) ↦ (λ p. ground arith, λ p. ground arith)
    | inl (w, f) ↦ elim (verdict config f) [
      | inl (built, _) ↦ (λ p. ground arith, λ p. ground arith)
      | inr (cyclic, _) ↦ (λ p. ground arith, λ p. ground arith)
    ]
  ]

  -- A graph that `build` returns has the processors and connections of its configuration, and its
  -- order has each processor once, behind all its predecessors.
  pub build-IsTopological :
      (config : FlowConfig) (g : FlowGraph) → build iter config ≡ ok g → IsTopological config g
  build-IsTopological config g built = elim (analysis iter visits config) [
    | inr (e, failed, _, _) ↦ absurd (ground arith)
    | inl (w, f) ↦ elim (verdict config f) [
      | inl (built', full) ↦
          let same : graph-of config f ≡ g = ground arith in
          subst (IsTopological config) same (graph-of-IsTopological config w f full)
      | inr (cyclic, _) ↦ absurd (ground arith)
    ]
  ]

  -- `build` accepts exactly the configurations that are well-formed and have no cycle, whatever
  -- the order in which the hash map yields its keys.
  pub build_accepts_iff :
      (config : FlowConfig)
      → ((g : FlowGraph) × (build iter config ≡ ok g))
        ↔ (IsWellFormed config × ((rank : String → ℕ) × IsRanking config rank))
  build_accepts_iff config = elim (analysis iter visits config) [
    | inr (e, failed, _, ill) ↦ (λ (g, built). absurd (ground arith), λ (w, _). absurd (ill w))
    | inl (w, f) ↦ (
      λ (g, built). (
        w,
        (
          position g.topological_order,
          positions-rank g.topological_order config.connections
              (build-IsTopological config g built).respects,
        ),
      ),
      λ (_, ranking). elim (verdict config f) [
        | inl (built, _) ↦ (graph-of config f, built)
        | inr (_, short) ↦ absurd (short (full-Finished config w f ranking.0 ranking.1))
      ],
    )
  ]

  -- An error says what is wrong: no processor at all, an identifier that occurs twice, a connection
  -- with an unknown end, or a cycle, which no ranking of the processors allows.
  pub build-Explains :
      (config : FlowConfig) (e : GraphError) → build iter config ≡ err e → Explains config e
  build-Explains config e failed = elim (analysis iter visits config) [
    | inr (e', failed', why, _) ↦
        let same : e' ≡ e = ground arith in subst (Explains config) same why
    | inl (w, f) ↦ elim (verdict config f) [
      | inl (built, _) ↦ absurd (ground arith)
      | inr (cyclic, short) ↦
          let same : cycle ≡ e = ground arith in
          subst (Explains config) same
            (λ (rank, ranked). short (full-Finished config w f rank ranked))
    ]
  ]

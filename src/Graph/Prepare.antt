-- ===== src/Graph/Prepare.antt =====
-- The two maps that crates/jaiba-core/src/graph.rs fills before the loop: ids, degrees, targets.
use jaiva.Prelude.{
  ◌+◌, ◌<◌, String, ◌≡◌, refl, ap, ◌∙◌, ◌⊎◌, inl, inr, true, false, not, ◌||◌, none, some, List, [],
  ◌∷◌, ◌++◌, map, Memᴰ, arith, str_eq_iff, if◌then◌else◌, All, count, contains, count-append,
  contains-count, IsDistinct, get, insert, keys, get-insert, keys-insert, Bool-cases,
}
use mathlib.Core.List.{append-nil, append_assoc}
use jaiva.Config.{ProcessorConfig, ConnectionConfig}
use jaiva.Graph.{
  ok, err, duplicate_processor, unknown_processor, GraphNode, GraphEdge, collect_nodes, Tables,
  zero_degrees, or_empty, note_edge, collect_edges,
}
use jaiva.Graph.Counts.{remaining, targets, targets-append, remaining-append}

abbrev pub id_of : ProcessorConfig → String
id_of p = p.id

abbrev pub node_of : ProcessorConfig → GraphNode
node_of p = record { id = p.id; processor_type = p.processor_type }

abbrev pub edge_of : ConnectionConfig → GraphEdge
edge_of c = record { source = c.source; relationship = c.relationship; target = c.target }

abbrev pub Known : List String → ConnectionConfig → Type 0
Known ids c = (contains ids c.source ≡ true) × (contains ids c.target ≡ true)

IsDistinct-push :
    (ids : List String) (id : String)
    → contains ids id ≡ false
    → IsDistinct ids
    → IsDistinct (ids ++ id ∷ [])
IsDistinct-push ids id new d a =
    ground (arith, d a, count-append a ids (id ∷ []), contains-count id ids, str_eq_iff id a)

pub collect_nodes-cases :
    (ids : List String) (ps : List ProcessorConfig)
    → IsDistinct ids
    → ((collect_nodes ids ps ≡ ok (ids ++ map id_of ps, map node_of ps))
        × IsDistinct (ids ++ map id_of ps))
      ⊎ ((d : String) × (collect_nodes ids ps ≡ err (duplicate_processor d))
          × (1 < count d (ids ++ map id_of ps)))
unfolding collect_nodes
collect_nodes-cases ids [] d = inl (rw append-nil refl, rw append-nil d)
collect_nodes-cases ids (p ∷ ps) d = elim (Bool-cases (contains ids p.id)) [
  | inl old ↦ inr (
    p.id,
    rw old,
    ground (
      arith,
      contains-count p.id ids,
      count-append p.id ids (p.id ∷ map id_of ps),
      str_eq_iff p.id p.id,
    ),
  )
  | inr new ↦ elim (collect_nodes-cases (ids ++ p.id ∷ []) ps (IsDistinct-push ids p.id new d)) [
    | inl (done, distinct) ↦ inl (rw (new, done, append_assoc) refl, rw append_assoc at distinct)
    | inr (x, failed, twice) ↦ inr (x, rw (new, failed) refl, rw append_assoc at twice)
  ]
]

get-zero_degrees :
    (ids : List String) (v : String)
    → get (zero_degrees ids) v ≡ (if contains ids v then some 0 else none)
unfolding get
get-zero_degrees [] v = refl
get-zero_degrees (id ∷ ids) v = ground (arith, get-zero_degrees ids v)

keys-zero_degrees : (ids : List String) → keys (zero_degrees ids) ≡ ids
keys-zero_degrees [] = refl
keys-zero_degrees (id ∷ ids) = ap (◌∷◌ id) (keys-zero_degrees ids)

-- The maps agree with the connections read so far.
pub record Agrees (ids : List String) (cs : List ConnectionConfig) (t : Tables) : Type 0 where
  pub degrees : (v : String) → contains ids v ≡ true → get t.indegree v ≡ some (remaining [] cs v)
  pub names : keys t.indegree ≡ ids
  pub follows : (u : String) → or_empty (get t.outgoing u) ≡ targets cs u

pub Agrees-start :
    (ids : List String) → Agrees ids [] (record { indegree = zero_degrees ids; outgoing = [] })
unfolding remaining targets get
Agrees-start ids = record {
  degrees = λ v k. ground (arith, get-zero_degrees ids v);
  names = keys-zero_degrees ids;
  follows = λ u. refl;
}

note_edge-Agrees :
    (ids : List String) (cs : List ConnectionConfig) (t : Tables) (c : ConnectionConfig)
    → Known ids c
    → Agrees ids cs t
    → (t' : Tables) × (note_edge t c ≡ ok t') × Agrees ids (cs ++ c ∷ []) t'
unfolding note_edge
note_edge-Agrees ids cs t c (from, to) h =
    let degree = h.degrees c.target to in
    (
      record {
        indegree = insert t.indegree c.target (remaining [] cs c.target + 1);
        outgoing = insert t.outgoing c.source (or_empty (get t.outgoing c.source) ++ c.target ∷ []);
      },
      rw degree refl,
      record {
        degrees = λ v k. ground (
          arith,
          h.degrees v k,
          remaining-append [] cs c v,
          str_eq_iff c.target v,
          get-insert t.indegree c.target v (remaining [] cs c.target + 1),
        );
        names = keys-insert t.indegree c.target _ _ degree ∙ h.names;
        follows = λ u. ground (
          arith,
          h.follows u,
          h.follows c.source,
          targets-append cs c u,
          str_eq_iff c.source u,
          get-insert t.outgoing c.source u (or_empty (get t.outgoing c.source) ++ c.target ∷ []),
        );
      },
    )

pub collect_edges-cases :
    (ids : List String) (before cs : List ConnectionConfig) (t : Tables)
    → Agrees ids before t
    → ((t' : Tables) × (collect_edges ids t cs ≡ ok (t', map edge_of cs))
        × Agrees ids (before ++ cs) t'
        × All (Known ids) cs)
      ⊎ ((c : ConnectionConfig) × (collect_edges ids t cs
            ≡ err (unknown_processor c.source c.target))
          × Memᴰ c cs
          × ¬ Known ids c)
unfolding collect_edges
collect_edges-cases ids before [] t h = inl (t, refl, rw append-nil h, tt)
collect_edges-cases ids before (c ∷ cs) t h =
    elim (Bool-cases (not (contains ids c.source) || not (contains ids c.target))) [
      | inl bad ↦ inr (c, rw bad, Memᴰ.head refl, λ k. ground arith)
      | inr good ↦
          let known : Known ids c = ground arith in
          let (t', noted, h') = note_edge-Agrees ids before t c known h in
          elim (collect_edges-cases ids (before ++ c ∷ []) cs t' h') [
            | inl (u, done, agrees, all_known) ↦
                inl (u, rw (good, noted, done) refl, rw append_assoc at agrees, (known, all_known))
            | inr (d, failed, there, unknown) ↦
                inr (d, rw (good, noted, failed) refl, Memᴰ.tail there, unknown)
          ]
    ]

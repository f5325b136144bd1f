-- ===== src/Graph/Loop.antt =====
-- The outer `while` loop of crates/jaiba-core/src/graph.rs: its fuel and its invariant.
use jaiva.Prelude.{
  ℕ, zero, suc, ◌+◌, ◌≤◌, ◌<◌, String, ◌≡◌, sym, ap, subst, inl, inr, true, false, List, [], ◌∷◌,
  ◌++◌, arith, str_eq_iff, length, length-append, All, count, contains, count-append,
  contains-append, contains-count, HashMap, get, Bool-cases, List-cases,
}
use jaiva.Config.{ConnectionConfig}
use jaiva.Graph.{ok, Kahn, release, loop, or_empty}
use jaiva.Graph.Counts.{
  remaining, targets, precedes, remaining-done, remaining-zero, precedes-append, precedes-last,
  length-le_of_count,
}
use jaiva.Graph.Release.{Inv, release-Inv}

abbrev pub InOrder : List ConnectionConfig → List String → Type 0
InOrder cs order =
    All (λ c. contains order c.target ≡ true → precedes c.source c.target order ≡ true) cs

pub record Round (ids : List String) (cs : List ConnectionConfig) (s : Kahn) : Type 0 where
  pub inv : Inv ids cs [] s
  pub behind : InOrder cs s.order

InOrder-push :
    (cs : List ConnectionConfig) (order : List String) (id : String)
    → contains order id ≡ false
    → All (λ c. c.target ≡ id → contains order c.source ≡ true) cs
    → InOrder cs order
    → InOrder cs (order ++ id ∷ [])
InOrder-push [] order id new pre h = tt
InOrder-push (c ∷ cs) order id new (p, ps) (h, hs) = (
  λ k. elim (Bool-cases (contains order c.target)) [
    | inl old ↦ precedes-append c.source c.target id order (h old)
    | inr young ↦
        let same : c.target ≡ id =
          ground (arith, contains-append c.target order (id ∷ []), str_eq_iff id c.target) in
        subst (λ z. precedes c.source z (order ++ id ∷ []) ≡ true) (sym same)
          (precedes-last c.source id order (p same) new)
  ],
  InOrder-push cs order id new ps hs,
)

-- What stands at the head of the queue is known, not yet done, and waits for nothing.
record Head (ids : List String) (cs : List ConnectionConfig) (s : Kahn) (id : String) : Type 0 where
  known : contains ids id ≡ true
  fresh : contains s.order id ≡ false
  free : remaining s.order cs id ≡ 0

queue-Head :
    (ids : List String) (cs : List ConnectionConfig) (s : Kahn) (id : String) (rest : List String)
    → s.pending ≡ id ∷ rest
    → Inv ids cs [] s
    → Head ids cs s id
queue-Head ids cs s id rest e h =
    let here : 0 < count id s.pending = rw e (ground (arith, str_eq_iff id id)) in
    elim (Bool-cases (contains ids id)) [
      | inl k ↦
          let q = h.queued id k in
          record {
            known = k;
            fresh = ground (arith, contains-count id s.order);
            free = ground arith;
          }
      | inr k ↦ absurd (omega (arith, h.foreign id k))
    ]

module _ (ids : List String) (cs : List ConnectionConfig) (outgoing : HashMap (List String)) where
  pub record Wired : Type 0 where
    pub follows : (u : String) → or_empty (get outgoing u) ≡ targets cs u
    pub inside : (u : String) → All (λ d. contains ids d ≡ true) (targets cs u)

  round :
      Wired
      → (s : Kahn) (id : String) (rest : List String) → s.pending ≡ id ∷ rest
      → Round ids cs s
      → (t : Kahn) × (release
            (record s { pending = rest; order = s.order ++ id ∷ [] })
            (or_empty (get outgoing id))
          ≡ ok t)
        × Round ids cs t
        × (t.order ≡ s.order ++ id ∷ [])
  round wired s id rest e r =
      let h = queue-Head ids cs s id rest e r.inv in
      let s' = record s { pending = rest; order = s.order ++ id ∷ [] } in
      let before : Inv ids cs (targets cs id) s' = record {
        degrees = λ v k. ground (arith, r.inv.degrees v k, remaining-done s.order cs id v h.fresh);
        queued = λ v k. ground (
          arith,
          r.inv.queued v k,
          remaining-done s.order cs id v h.fresh,
          count-append v s.order (id ∷ []),
          ap (count v) e,
        );
        foreign = λ v k.
            ground (arith, r.inv.foreign v k, count-append v s.order (id ∷ []), ap (count v) e);
      } in
      let (t, released, inv, same) =
        release-Inv ids cs (targets cs id) s' (wired.inside id) before in
      (
        t,
        rw (wired.follows id) released,
        record {
          inv = inv;
          behind =
              subst (InOrder cs) (sym same)
                (InOrder-push cs s.order id h.fresh (remaining-zero s.order cs id h.free) r.behind);
        },
        same,
      )

  count-le : (s : Kahn) (a : String) → Round ids cs s → count a (s.order ++ s.pending) ≤ count a ids
  count-le s a r = elim (Bool-cases (contains ids a)) [
    | inl k ↦
        ground (arith, r.inv.queued a k, count-append a s.order s.pending, contains-count a ids)
    | inr k ↦ omega (arith, r.inv.foreign a k, count-append a s.order s.pending)
  ]

  -- Nothing is queued or done twice, and only known processors are.
  room : (s : Kahn) → Round ids cs s → length s.order + length s.pending ≤ length ids
  room s r = omega (
    arith,
    length-append s.order s.pending,
    length-le_of_count (s.order ++ s.pending) ids (λ a. count-le s a r),
  )

  -- As many rounds as there are processors are enough.
  pub loop_ends :
      Wired
      → (fuel : ℕ) (s : Kahn) → Round ids cs s
      → length ids ≤ fuel + length s.order
      → (t : Kahn) × (loop fuel outgoing s ≡ ok t.order) × Round ids cs t × (t.pending ≡ [])
  unfolding loop
  loop_ends wired zero s r enough = elim (List-cases s.pending) [
    | inl e ↦ (s, simp (e, loop), r, e)
    | inr (id, rest, e) ↦ absurd (omega (arith, room s r, ap length e))
  ]
  loop_ends wired (suc fuel) s r enough = elim (List-cases s.pending) [
    | inl e ↦ (s, simp (e, loop), r, e)
    | inr (id, rest, e) ↦
        let (t, released, r', same) = round wired s id rest e r in
        let (u, ended, r'', none_left) =
          loop_ends wired fuel t r'
            (omega (arith, ap length same, length-append s.order (id ∷ []))) in
        (u, simp (e, loop, released) ended, r'', none_left)
  ]

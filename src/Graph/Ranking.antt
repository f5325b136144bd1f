-- ===== src/Graph/Ranking.antt =====
-- What the end of the loop in crates/jaiba-core/src/graph.rs says of ranks and places.
use jaiva.Prelude.{
  ℕ, zero, suc, ◌≤◌, ◌<◌, String, ◌≡◌, ap, inl, inr, true, List, [], ◌∷◌, arith, str_eq,
  if◌then◌else◌, All, count, contains, contains-count, Bool-cases,
}
use jaiva.Config.{ConnectionConfig}
use jaiva.Graph.{Kahn}
use jaiva.Graph.Counts.{remaining, precedes, zero-remaining}
use jaiva.Graph.Release.{one_if_zero}
use jaiva.Graph.Loop.{Round, InOrder}
use jaiva.Graph.Prepare.{Known}

pub InOrder-All :
    (ids order : List String) (cs : List ConnectionConfig)
    → ((a : String) → count a order ≡ count a ids)
    → All (Known ids) cs
    → InOrder cs order
    → All (λ c. precedes c.source c.target order ≡ true) cs
InOrder-All ids order [] same known h = tt
InOrder-All ids order (c ∷ cs) same (k, ks) (h, hs) = (
  h (ground (arith, same c.target, contains-count c.target order, contains-count c.target ids)),
  InOrder-All ids order cs same ks hs,
)

-- Where the loop has ended, an identifier is in the order exactly if it waits for nothing.
pub done_iff-free :
    (ids : List String) (cs : List ConnectionConfig) (t : Kahn) (v : String)
    → Round ids cs t
    → t.pending ≡ []
    → contains ids v ≡ true
    → count v t.order ≡ one_if_zero (remaining t.order cs v)
done_iff-free ids cs t v r drained k = ground (arith, r.inv.queued v k, ap (count v) drained)

pub order-le :
    (ids : List String) (cs : List ConnectionConfig) (t : Kahn) (v : String)
    → Round ids cs t
    → t.pending ≡ []
    → count v t.order ≤ count v ids
order-le ids cs t v r drained = elim (Bool-cases (contains ids v)) [
  | inl k ↦ ground (arith, done_iff-free ids cs t v r drained k, contains-count v ids)
  | inr k ↦ omega (arith, r.inv.foreign v k)
]

sources-done :
    (order ids : List String) (cs : List ConnectionConfig) (rank : String → ℕ) (n : ℕ) (v : String)
    → ((u : String) → contains ids u ≡ true → rank u < n → contains order u ≡ true)
    → rank v ≤ n
    → All (Known ids) cs
    → All (λ c. rank c.source < rank c.target) cs
    → All (λ c. c.target ≡ v → contains order c.source ≡ true) cs
sources-done order ids [] rank n v below h known ranked = tt
sources-done order ids (c ∷ cs) rank n v below h (k, ks) (r, rs) = (
  λ e. below c.source k.0 (let same = ap rank e in omega arith),
  sources-done order ids cs rank n v below h ks rs,
)

-- Where a ranking exists the loop takes every processor.
pub done-All :
    (ids : List String) (cs : List ConnectionConfig) (t : Kahn) (rank : String → ℕ)
    → Round ids cs t
    → t.pending ≡ []
    → All (Known ids) cs
    → All (λ c. rank c.source < rank c.target) cs
    → (n : ℕ) (v : String) → contains ids v ≡ true
    → rank v < n
    → contains t.order v ≡ true
done-All ids cs t rank r drained known ranked zero v k h = absurd (omega arith)
done-All ids cs t rank r drained known ranked (suc n) v k h =
    let free = zero-remaining t.order cs v (
      sources-done t.order ids cs rank n v (done-All ids cs t rank r drained known ranked n)
        (omega arith) known ranked) in
    ground (arith, done_iff-free ids cs t v r drained k, free, contains-count v t.order)

-- The place of an identifier in an order.
abbrev pub position : List String → String → ℕ
position [] x = 0
position (z ∷ zs) x = let rest = position zs x in if str_eq z x then 0 else suc rest

precedes-position :
    (x y : String) (order : List String)
    → precedes x y order ≡ true
    → position order x < position order y
unfolding precedes
precedes-position x y [] h = cc
precedes-position x y (z ∷ zs) h = ground (arith, precedes-position x y zs)

pub positions-rank :
    (order : List String) (cs : List ConnectionConfig)
    → All (λ c. precedes c.source c.target order ≡ true) cs
    → All (λ c. position order c.source < position order c.target) cs
positions-rank order [] h = tt
positions-rank order (c ∷ cs) (h, hs) =
    (precedes-position c.source c.target order h, positions-rank order cs hs)

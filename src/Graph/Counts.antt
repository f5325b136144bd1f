-- ===== src/Graph/Counts.antt =====
-- Counting over connections and orders, for crates/jaiba-core/src/graph.rs: the predecessors that
-- a processor still waits for, the targets of a processor, and what comes before what.
use jaiva.Prelude.{
  ℕ, suc, ◌+◌, ◌≤◌, ◌<◌, String, ◌≡◌, refl, Bool, true, false, not, ◌&&◌, List, [], ◌∷◌, ◌++◌,
  arith, str_eq, str_eq_iff, if◌then◌else◌, length, All, count, contains, contains-append,
}
use jaiva.Config.{ConnectionConfig}

-- The connections into `v` whose source is not in `order`.
abbrev pub waits : List String → String → ConnectionConfig → Bool
waits order v c = str_eq c.target v && not (contains order c.source)

unfoldable pub remaining : List String → List ConnectionConfig → String → ℕ
remaining order [] v = 0
remaining order (c ∷ cs) v =
    let rest = remaining order cs v in if waits order v c then suc rest else rest

-- The targets of `u`'s connections, in order and as often as they occur.
unfoldable pub targets : List ConnectionConfig → String → List String
targets [] u = []
targets (c ∷ cs) u = let rest = targets cs u in if str_eq c.source u then c.target ∷ rest else rest

-- `x` occurs before `y`.
unfoldable pub precedes : String → String → List String → Bool
precedes x y [] = false
precedes x y (z ∷ zs) =
    let later = precedes x y zs in
    if str_eq z y then false else if str_eq z x then contains zs y else later

pub targets-append :
    (cs : List ConnectionConfig) (c : ConnectionConfig) (u : String)
    → targets (cs ++ c ∷ []) u
      ≡ (if str_eq c.source u then targets cs u ++ c.target ∷ [] else targets cs u)
unfolding targets
targets-append [] c u = ground arith
targets-append (d ∷ cs) c u = ground (arith, targets-append cs c u)

pub remaining-append :
    (order : List String) (cs : List ConnectionConfig) (c : ConnectionConfig) (v : String)
    → remaining order (cs ++ c ∷ []) v
      ≡ (if waits order v c then suc (remaining order cs v) else remaining order cs v)
unfolding remaining
remaining-append order [] c v = ground arith
remaining-append order (d ∷ cs) c v = ground (arith, remaining-append order cs c v)

-- Once `u` is done, nothing waits for it: each processor waits for as many connections less as
-- lead to it from `u`.
pub remaining-done :
    (order : List String) (cs : List ConnectionConfig) (u v : String)
    → contains order u ≡ false
    → remaining (order ++ u ∷ []) cs v + count v (targets cs u) ≡ remaining order cs v
unfolding remaining targets
remaining-done order [] u v h = omega arith
remaining-done order (c ∷ cs) u v h = ground (
  arith,
  remaining-done order cs u v h,
  contains-append c.source order (u ∷ []),
  str_eq_iff u c.source,
  str_eq_iff c.source u,
)

-- With no predecessor left, every connection into `v` starts in `order`.
pub remaining-zero :
    (order : List String) (cs : List ConnectionConfig) (v : String)
    → remaining order cs v ≡ 0
    → All (λ c. c.target ≡ v → contains order c.source ≡ true) cs
unfolding remaining
remaining-zero order [] v h = tt
remaining-zero order (c ∷ cs) v h =
    (λ e. ground (arith, str_eq_iff c.target v), remaining-zero order cs v (ground arith))

pub zero-remaining :
    (order : List String) (cs : List ConnectionConfig) (v : String)
    → All (λ c. c.target ≡ v → contains order c.source ≡ true) cs
    → remaining order cs v ≡ 0
unfolding remaining
zero-remaining order [] v h = refl
zero-remaining order (c ∷ cs) v (h, hs) =
    ground (arith, str_eq_iff c.target v, zero-remaining order cs v hs)

pub precedes-append :
    (x y z : String) (order : List String)
    → precedes x y order ≡ true
    → precedes x y (order ++ z ∷ []) ≡ true
unfolding precedes
precedes-append x y z [] h = ground arith
precedes-append x y z (w ∷ order) h =
    ground (arith, precedes-append x y z order, contains-append y order (z ∷ []))

pub precedes-last :
    (x y : String) (order : List String)
    → contains order x ≡ true
    → contains order y ≡ false
    → precedes x y (order ++ y ∷ []) ≡ true
unfolding precedes
precedes-last x y [] h k = ground arith
precedes-last x y (w ∷ order) h k =
    ground (arith, precedes-last x y order, contains-append y order (y ∷ []), str_eq_iff y y)

-- What precedes another stands in the order, and no identifier precedes itself.
pub precedes-contains :
    (x y : String) (order : List String) → precedes x y order ≡ true → contains order y ≡ true
unfolding precedes
precedes-contains x y [] h = ground arith
precedes-contains x y (w ∷ order) h = ground (arith, precedes-contains x y order)

-- The pigeonhole principle: what occurs nowhere more often is not longer, and of the same length
-- it occurs everywhere as often.
unfoldable pub erase : String → List String → List String
erase a [] = []
erase a (x ∷ xs) = let rest = erase a xs in if str_eq x a then xs else x ∷ rest

length-erase :
    (a : String) (xs : List String) → 0 < count a xs → length (erase a xs) + 1 ≡ length xs
unfolding erase
length-erase a [] h = absurd (omega arith)
length-erase a (x ∷ xs) h = ground (arith, length-erase a xs)

count-erase :
    (a b : String) (xs : List String)
    → 0 < count a xs
    → count b (erase a xs) + (if str_eq a b then 1 else 0) ≡ count b xs
unfolding erase
count-erase a b [] h = absurd (omega arith)
count-erase a b (x ∷ xs) h =
    ground (arith, count-erase a b xs, str_eq_iff x a, str_eq_iff x b, str_eq_iff a b)

pub length-le_of_count :
    (xs ys : List String) → ((a : String) → count a xs ≤ count a ys) → length xs ≤ length ys
length-le_of_count [] ys h = omega arith
length-le_of_count (x ∷ xs) ys h =
    let present : 0 < count x ys = ground (arith, h x, str_eq_iff x x) in
    omega (
      arith,
      length-erase x ys present,
      length-le_of_count xs (erase x ys) (λ a. ground (arith, h a, count-erase x a ys present)),
    )

pub count-eq_of_length :
    (xs ys : List String)
    → ((a : String) → count a xs ≤ count a ys)
    → length xs ≡ length ys
    → (a : String) → count a xs ≡ count a ys
count-eq_of_length [] [] h e a = refl
count-eq_of_length [] (y ∷ ys) h e a = absurd (omega arith)
count-eq_of_length (x ∷ xs) ys h e a =
    let present : 0 < count x ys = ground (arith, h x, str_eq_iff x x) in
    let rest =
      count-eq_of_length xs (erase x ys) (λ b. ground (arith, h b, count-erase x b ys present))
        (omega (arith, length-erase x ys present)) a in
    ground (arith, count-erase x a ys present, rest)

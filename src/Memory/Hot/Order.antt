-- ===== src/Memory/Hot/Order.antt =====
-- crates/jaiba-memory/src/hot.rs: the order in which entries are evicted.
use jaiva.Prelude.{◌≡◌, inl, inr, true, false, some, List, [], ◌∷◌, arith, Bool-cases, Option-cases}
use mathlib.Core.Option.{some-injective}
use jaiva.Memory.Hot.{HotEntry, Slot, precedes, least}
use jaiva.Memory.Hot.Victims.{In, least-none}

-- The comparison on numbers alone.
pub precedes_trans :
    (x y z : HotEntry) → precedes z y ≡ false → precedes y x ≡ false → precedes z x ≡ false
unfolding precedes
precedes_trans x y z a b = ground (arith, a, b)

precedes_irrefl : (x : HotEntry) → precedes x x ≡ false
unfolding precedes
precedes_irrefl x = ground arith

pub precedes_asym : (x y : HotEntry) → precedes x y ≡ true → precedes y x ≡ false
unfolding precedes
precedes_asym x y a = ground (arith, a)

nothing-In : (w : Slot) (xs : List Slot) → xs ≡ [] → In w xs → ⊥
nothing-In w [] e h = h
nothing-In w (x ∷ xs) e h = cc

-- No entry comes before the least.
pub least-first :
    (xs : List Slot) (v w : Slot) → least xs ≡ some v → In w xs → precedes w.1 v.1 ≡ false
unfolding least
least-first [] v w e h = absurd h
least-first (x ∷ xs) v w e h = elim (Option-cases (least xs)) [
  | inl none_ ↦
      let same : x ≡ v = some-injective x v (ground (arith, e, none_)) in
      elim h [
        | inl here ↦ rw⁻¹ same (rw⁻¹ here (precedes_irrefl x.1))
        | inr more ↦ absurd (nothing-In w xs (least-none xs none_) more)
      ]
  | inr (y, some_) ↦ elim (Bool-cases (precedes y.1 x.1)) [
    | inl first ↦
        let same : y ≡ v = some-injective y v (ground (arith, e, some_, first)) in
        elim h [
          | inl here ↦ rw⁻¹ same (rw⁻¹ here (precedes_asym y.1 x.1 first))
          | inr more ↦ least-first xs v w (rw⁻¹ same some_) more
        ]
    | inr not_first ↦
        let same : x ≡ v = some-injective x v (ground (arith, e, some_, not_first)) in
        elim h [
          | inl here ↦ rw⁻¹ same (rw⁻¹ here (precedes_irrefl x.1))
          | inr more ↦
              rw⁻¹ same (precedes_trans x.1 y.1 w.1 (least-first xs y w some_ more) not_first)
        ]
  ]
]

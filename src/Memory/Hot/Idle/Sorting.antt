-- ===== src/Memory/Hot/Idle/Sorting.antt =====
-- crates/jaiba-memory/src/hot.rs: the order of the candidates of `reclaim_idle`.
use jaiva.Prelude.{
  ℕ, zero, suc, ◌≤◌, ◌≡◌, ◌⊎◌, refl, subst, inl, inr, Bool, false, List, [], ◌∷◌, arith, length,
  count_if, All, Bool-cases,
}
use jaiva.Memory.Hot.{Slot, precedes}
use jaiva.Memory.Hot.Victims.{In}
use jaiva.Memory.Hot.Order.{precedes_asym, precedes_trans}
use jaiva.Memory.Hot.Idle.{sort_in, sort, take}

pub All-In : (P : Slot → Type 0) (xs : List Slot) → ((x : Slot) → In x xs → P x) → All P xs
All-In P [] h = tt
All-In P (x ∷ xs) h = (h x (inl refl), All-In P xs (λ y more. h y (inr more)))

pub All-map :
    (P Q : Slot → Type 0) (xs : List Slot) → ((x : Slot) → P x → Q x) → All P xs → All Q xs
All-map P Q [] f h = tt
All-map P Q (x ∷ xs) f h = (f x h.0, All-map P Q xs f h.1)

All-sort_in :
    (P : Slot → Type 0) (x : Slot) (xs : List Slot) → P x → All P xs → All P (sort_in x xs)
All-sort_in P x [] own h = (own, tt)
All-sort_in P x (y ∷ ys) own h = elim (Bool-cases (precedes y.1 x.1)) [
  | inl first ↦ rw first (h.0, All-sort_in P x ys own h.1)
  | inr after ↦ rw after (own, h)
]

pub All-sort : (P : Slot → Type 0) (xs : List Slot) → All P xs → All P (sort xs)
unfolding sort
All-sort P [] h = tt
All-sort P (x ∷ xs) h = All-sort_in P x (sort xs) h.0 (All-sort P xs h.1)

pub All-take : (P : Slot → Type 0) (xs : List Slot) (n : ℕ) → All P xs → All P (take xs n)
All-take P [] n h = tt
All-take P (x ∷ xs) zero h = tt
All-take P (x ∷ xs) (suc n) h = (h.0, All-take P xs n h.1)

In-sort_in : (w x : Slot) (xs : List Slot) → In w (x ∷ xs) → In w (sort_in x xs)
In-sort_in w x [] h = h
In-sort_in w x (y ∷ ys) h = elim (Bool-cases (precedes y.1 x.1)) [
  | inr after ↦ rw after h
  | inl first ↦ rw first (elim h [
    | inl here ↦ inr (In-sort_in w x ys (inl here))
    | inr (inl next) ↦ inl next
    | inr (inr more) ↦ inr (In-sort_in w x ys (inr more))
  ])
]

pub In-sort : (w : Slot) (xs : List Slot) → In w xs → In w (sort xs)
unfolding sort
In-sort w [] h = h
In-sort w (x ∷ xs) (inl here) = In-sort_in w x (sort xs) (inl here)
In-sort w (x ∷ xs) (inr more) = In-sort_in w x (sort xs) (inr (In-sort w xs more))

count_if-sort_in :
    (p : Slot → Bool) (x : Slot) (xs : List Slot) → count_if p (sort_in x xs) ≡ count_if p (x ∷ xs)
count_if-sort_in p x [] = refl
count_if-sort_in p x (y ∷ ys) = ground (arith, count_if-sort_in p x ys)

pub count_if-sort : (p : Slot → Bool) (xs : List Slot) → count_if p (sort xs) ≡ count_if p xs
unfolding sort
count_if-sort p [] = refl
count_if-sort p (x ∷ xs) = ground (arith, count_if-sort_in p x (sort xs), count_if-sort p xs)

pub count_if-take-le :
    (p : Slot → Bool) (xs : List Slot) (n : ℕ) → count_if p (take xs n) ≤ count_if p xs
count_if-take-le p [] n = omega arith
count_if-take-le p (x ∷ xs) zero = omega arith
count_if-take-le p (x ∷ xs) (suc n) = ground (arith, count_if-take-le p xs n)

pub length-take-le : (xs : List Slot) (n : ℕ) → length (take xs n) ≤ n
length-take-le [] n = omega arith
length-take-le (x ∷ xs) zero = omega arith
length-take-le (x ∷ xs) (suc n) = omega (arith, length-take-le xs n)

-- No entry comes before one that stands earlier.
abbrev pub Ordered : List Slot → Type 0
Ordered [] = Unit
Ordered (x ∷ xs) = All (λ y. precedes y.1 x.1 ≡ false) xs × Ordered xs

Ordered-sort_in : (x : Slot) (xs : List Slot) → Ordered xs → Ordered (sort_in x xs)
Ordered-sort_in x [] h = (tt, tt)
Ordered-sort_in x (y ∷ ys) h = elim (Bool-cases (precedes y.1 x.1)) [
  | inl first ↦ rw first (
    All-sort_in (λ z. precedes z.1 y.1 ≡ false) x ys (precedes_asym y.1 x.1 first) h.0,
    Ordered-sort_in x ys h.1,
  )
  | inr after ↦ rw after (
    (
      after,
      All-map (λ z. precedes z.1 y.1 ≡ false) (λ z. precedes z.1 x.1 ≡ false) ys
          (λ z later. precedes_trans x.1 y.1 z.1 later after) h.0,
    ),
    h,
  )
]

pub Ordered-sort : (xs : List Slot) → Ordered (sort xs)
unfolding sort
Ordered-sort [] = tt
Ordered-sort (x ∷ xs) = Ordered-sort_in x (sort xs) (Ordered-sort xs)

pub Ordered-take : (xs : List Slot) (n : ℕ) → Ordered xs → Ordered (take xs n)
Ordered-take [] n h = tt
Ordered-take (x ∷ xs) zero h = tt
Ordered-take (x ∷ xs) (suc n) h =
    (All-take (λ y. precedes y.1 x.1 ≡ false) xs n h.0, Ordered-take xs n h.1)

All-at : (P : Slot → Type 0) (w : Slot) (xs : List Slot) → All P xs → In w xs → P w
All-at P w [] h at = absurd at
All-at P w (x ∷ xs) h (inl here) = subst P here h.0
All-at P w (x ∷ xs) h (inr more) = All-at P w xs h.1 more

-- What is not among the first stands behind all of them.
pub take-first :
    (xs : List Slot) (n : ℕ) (w : Slot)
    → Ordered xs
    → In w xs
    → In w (take xs n)
      ⊎ ((length (take xs n) ≡ n) × All (λ v. precedes w.1 v.1 ≡ false) (take xs n))
take-first [] n w h at = absurd at
take-first (x ∷ xs) zero w h at = inr (refl, tt)
take-first (x ∷ xs) (suc n) w h (inl here) = inl (inl here)
take-first (x ∷ xs) (suc n) w h (inr more) = elim (take-first xs n w h.1 more) [
  | inl taken ↦ inl (inr taken)
  | inr (full, behind) ↦
      inr (omega (arith, full), (All-at (λ y. precedes y.1 x.1 ≡ false) w xs h.0 more, behind))
]

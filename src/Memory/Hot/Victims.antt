-- ===== src/Memory/Hot/Victims.antt =====
-- crates/jaiba-memory/src/hot.rs: the search for victims.
use jaiva.Prelude.{
  ℕ, zero, suc, ◌+◌, ◌-◌, ◌≤◌, ◌<◌, ◌≡◌, refl, ap, inl, inr, ◌⊎◌, String, Bool, true, false, ◌&&◌,
  ◌||◌, not, Option, none, some, List, [], ◌∷◌, ◌++◌, arith, str_eq, str_eq_iff, str_eq_comm,
  filter, count_if, sum_of, sum_of-append, All, Bool-cases, Option-cases,
}
use mathlib.Core.Option.{some-injective}
use jaiva.Memory.Hot.{
  Slot, live, precedes, least, is_selected, is_evictable, candidate, Choice, chosen, refused,
  out_of_fuel, Search, wants_more, on_least, choose, entry_bytes,
}

abbrev pub has_key : String → Slot → Bool
has_key k slot = str_eq slot.0 k

abbrev pub In : Slot → List Slot → Type 0
In v [] = ⊥
In v (x ∷ xs) = (x ≡ v) ⊎ In v xs

-- What stays: the live entries but the key's and the victims.
abbrev pub stays : String → ℕ → List Slot → Slot → Bool
stays key now victims slot =
    (not (str_eq slot.0 key) && live now slot) && not (is_selected victims slot.0)

pub filter-In :
    (p : Slot → Bool) (v : Slot) (xs : List Slot) → In v (filter p xs) → (p v ≡ true) × In v xs
filter-In p v [] h = absurd h
filter-In p v (x ∷ xs) h = elim (Bool-cases (p x)) [
  | inl yes_ ↦ elim (rw yes_ at h) [
    | inl same ↦ (rw⁻¹ same yes_, inl same)
    | inr more ↦ let (ok, rest) = filter-In p v xs more in (ok, inr rest)
  ]
  | inr no_ ↦ let (ok, rest) = filter-In p v xs (rw no_ at h) in (ok, inr rest)
]

pub least-In : (xs : List Slot) (v : Slot) → least xs ≡ some v → In v xs
unfolding least
least-In [] v e = absurd (ground (arith, e))
least-In (x ∷ xs) v e = elim (Option-cases (least xs)) [
  | inl none_ ↦ inl (some-injective x v (ground (arith, e, none_)))
  | inr (y, some_) ↦ elim (Bool-cases (precedes y.1 x.1)) [
    | inl first ↦ inr (least-In xs v (ground (arith, e, some_, first)))
    | inr not_first ↦ inl (some-injective x v (ground (arith, e, some_, not_first)))
  ]
]

pub least-none : (xs : List Slot) → least xs ≡ none → xs ≡ []
unfolding least
least-none [] e = refl
least-none (x ∷ xs) e = absurd (ground (arith, e))

-- One more victim: what else stays does not change.
absent :
    (f : Slot → ℕ) (p : Slot → Bool) (k : String) (xs : List Slot)
    → count_if (has_key k) xs ≡ 0
    → sum_of f (filter (λ x. p x && not (has_key k x)) xs) ≡ sum_of f (filter p xs)
absent f p k [] none_ = refl
absent f p k (x ∷ xs) none_ = ground (arith, none_, absent f p k xs)

present : (v : Slot) (xs : List Slot) → In v xs → 0 < count_if (has_key v.0) xs
present v [] h = absurd h
present v (x ∷ xs) (inl same) = rw same (ground (arith, str_eq_iff v.0 v.0))
present v (x ∷ xs) (inr more) = ground (arith, present v xs more)

pub less_one :
    (f : Slot → ℕ) (p : Slot → Bool) (v : Slot) (xs : List Slot)
    → count_if (has_key v.0) xs ≤ 1
    → In v xs
    → p v ≡ true
    → sum_of f (filter (λ x. p x && not (has_key v.0 x)) xs) + f v ≡ sum_of f (filter p xs)
less_one f p v [] distinct h stays_ = absurd h
less_one f p v (x ∷ xs) distinct (inl same) stays_ =
    let own : has_key v.0 x ≡ true = rw same ((str_eq_iff v.0 v.0).1 refl) in
    let px : p x ≡ true = rw same stays_ in
    let fx : f x ≡ f v = ap f same in
    let rest : sum_of f (filter (λ x. p x && not (has_key v.0 x)) xs) ≡ sum_of f (filter p xs) =
      absent f p v.0 xs (ground (arith, distinct, own)) in
    ground (arith, own, px, fx, rest)
less_one f p v (x ∷ xs) distinct (inr more) stays_ =
    ground
      (arith, distinct, present v xs more, less_one f p v xs (ground (arith, distinct)) more stays_)

pub filter_congr :
    (p q : Slot → Bool) (xs : List Slot) → ((x : Slot) → p x ≡ q x) → filter p xs ≡ filter q xs
filter_congr p q [] h = refl
filter_congr p q (x ∷ xs) h = ground (arith, h x, filter_congr p q xs h)

is_selected-append :
    (victims : List Slot) (v : Slot) (k : String)
    → is_selected (victims ++ v ∷ []) k ≡ (is_selected victims k || str_eq v.0 k)
is_selected-append [] v k = ground arith
is_selected-append (w ∷ victims) v k = ground (arith, is_selected-append victims v k)

stays-append :
    (key : String) (now : ℕ) (victims : List Slot) (v x : Slot)
    → stays key now (victims ++ v ∷ []) x ≡ (stays key now victims x && not (has_key v.0 x))
stays-append key now victims v x =
    ground (arith, is_selected-append victims v x.0, str_eq_comm v.0 x.0)

abbrev pub left_over : Search → List Slot → (Slot → ℕ) → ℕ
left_over q victims f = sum_of f (filter (stays q.key q.now victims) q.store.entries)

-- An entry that may go: live, not critical, and not the key's.
abbrev pub IsVictim : List Slot → String → ℕ → Slot → Type 0
IsVictim entries key now v =
    In v entries × (live now v ≡ true) × (is_evictable v ≡ true) × (str_eq v.0 key ≡ false)

-- What the search keeps: nothing of the store is counted twice, and only what may go goes.
pub record Fair (q : Search) (resident_bytes : ℕ) (victims : List Slot) : Type 0 where
  pub sums : (f : Slot → ℕ) → left_over q victims f + sum_of f victims ≡ left_over q [] f
  pub counted : resident_bytes ≡ left_over q victims (entry_bytes q.measure)
  pub evictable : All (IsVictim q.store.entries q.key q.now) victims

All-append :
    (P : Slot → Type 0) (victims : List Slot) (v : Slot)
    → All P victims
    → P v
    → All P (victims ++ v ∷ [])
All-append P [] v h e = (e, tt)
All-append P (w ∷ victims) v h e = (h.0, All-append P victims v h.1 e)

next-Fair :
    (q : Search) (resident_bytes : ℕ) (victims : List Slot) (v : Slot)
    → ((k : String) → count_if (has_key k) q.store.entries ≤ 1)
    → Fair q resident_bytes victims
    → In v (filter (candidate q.key q.now victims) q.store.entries)
    → Fair q (resident_bytes - entry_bytes q.measure v) (victims ++ v ∷ [])
next-Fair q resident_bytes victims v distinct fair found =
    let (ok, inside) = filter-In (candidate q.key q.now victims) v q.store.entries found in
    let one : (f : Slot → ℕ) → left_over q (victims ++ v ∷ []) f + f v ≡ left_over q victims f =
      λ f.
        rw
          (filter_congr (stays q.key q.now (victims ++ v ∷ []))
            (λ x. stays q.key q.now victims x && not (has_key v.0 x)) q.store.entries
            (stays-append q.key q.now victims v))
          (less_one f (stays q.key q.now victims) v q.store.entries (distinct v.0) inside
            (ground (arith, ok))) in
    record {
      sums = λ f. omega (arith, one f, fair.sums f, sum_of-append f victims (v ∷ []));
      counted = omega (arith, one (entry_bytes q.measure), fair.counted);
      evictable =
          All-append (IsVictim q.store.entries q.key q.now) victims v fair.evictable
            (inside, ground (arith, ok), ground (arith, ok), ground (arith, ok));
    }

-- How many may still go.
abbrev pub left_to_go : Search → List Slot → ℕ
left_to_go q victims = sum_of (λ x. 1) (filter (candidate q.key q.now victims) q.store.entries)

candidate-append :
    (key : String) (now : ℕ) (victims : List Slot) (v x : Slot)
    → candidate key now (victims ++ v ∷ []) x ≡ (candidate key now victims x && not (has_key v.0 x))
candidate-append key now victims v x =
    ground (arith, is_selected-append victims v x.0, str_eq_comm v.0 x.0)

left_to_go-append :
    (q : Search) (victims : List Slot) (v : Slot)
    → ((k : String) → count_if (has_key k) q.store.entries ≤ 1)
    → In v (filter (candidate q.key q.now victims) q.store.entries)
    → left_to_go q (victims ++ v ∷ []) + 1 ≡ left_to_go q victims
left_to_go-append q victims v distinct found =
    let (ok, inside) = filter-In (candidate q.key q.now victims) v q.store.entries found in
    rw
      (filter_congr (candidate q.key q.now (victims ++ v ∷ []))
        (λ x. candidate q.key q.now victims x && not (has_key v.0 x)) q.store.entries
        (candidate-append q.key q.now victims v))
      (less_one (λ x. 1) (candidate q.key q.now victims) v q.store.entries (distinct v.0) inside ok)

-- What the search comes to.
abbrev pub Chosen : Search → Choice → Type 0
Chosen q (chosen victims) =
    (resident_bytes : ℕ) × Fair q resident_bytes victims
    × (wants_more q resident_bytes victims ≡ false)
Chosen q (refused e) = Unit
Chosen q out_of_fuel = ⊥

pub choose_rule :
    (fuel : ℕ) (q : Search) (resident_bytes : ℕ) (victims : List Slot)
    → ((k : String) → count_if (has_key k) q.store.entries ≤ 1)
    → Fair q resident_bytes victims
    → left_to_go q victims < fuel
    → Chosen q (choose fuel q resident_bytes victims)
unfolding choose
choose_rule zero q resident_bytes victims distinct fair enough = absurd (omega (arith, enough))
choose_rule (suc fuel) q resident_bytes victims distinct fair enough =
    elim (Bool-cases (wants_more q resident_bytes victims)) [
      | inr done ↦ rw done (resident_bytes, fair, done)
      | inl more ↦ rw more (
          picked (least (filter (candidate q.key q.now victims) q.store.entries)) refl (λ v found.
            choose_rule fuel q (resident_bytes - entry_bytes q.measure v) (victims ++ v ∷ [])
              distinct (next-Fair q resident_bytes victims v distinct fair found)
              (omega (arith, enough, left_to_go-append q victims v distinct found))))
    ]
  where
    picked :
        (o : Option Slot)
        → least (filter (candidate q.key q.now victims) q.store.entries) ≡ o
        → ((v : Slot)
            → In v (filter (candidate q.key q.now victims) q.store.entries)
            → Chosen q
                (choose fuel q (resident_bytes - entry_bytes q.measure v) (victims ++ v ∷ [])))
        → Chosen q (on_least (choose fuel q) q resident_bytes victims o)
    picked none e h = tt
    picked (some v) e h =
        h v (least-In (filter (candidate q.key q.now victims) q.store.entries) v e)

-- ===== src/Memory/Hot/Bounds.antt =====
-- crates/jaiba-memory/src/hot.rs: how many entries and bytes the tier holds.
use jaiva.Prelude.{
  ℕ, ◌+◌, ◌≤◌, ◌≡◌, refl, sym, ap, inl, inr, String, Bool, true, false, ◌&&◌, not, List, [], ◌∷◌,
  arith, str_eq, str_eq_iff, str_eq_refl, str_eq_comm, length, filter, count_if, sum_of, Bool-cases,
  HashMap, insert, remove, get, get-insert, get-remove, Option, none, some, if◌then◌else◌, ◌∙◌,
}
use jaiva.Memory.Hot.{HotEntry, Slot, live, is_expired, is_selected, remove_all}
use jaiva.Memory.Hot.Victims.{has_key, stays, filter_congr}

-- What is removed is filtered away.
pub remove-filter :
    (m : HashMap HotEntry) (k : String) → remove m k ≡ filter (λ x. not (has_key k x)) m
unfolding remove
remove-filter [] k = refl
remove-filter ((j, e) ∷ m) k = ground (arith, remove-filter m k)

pub filter-filter :
    (p q : Slot → Bool) (xs : List Slot) → filter p (filter q xs) ≡ filter (λ x. q x && p x) xs
filter-filter p q [] = refl
filter-filter p q (x ∷ xs) = ground (arith, filter-filter p q xs)

pub filter-true : (xs : List Slot) → filter (λ x. true) xs ≡ xs
filter-true [] = refl
filter-true (x ∷ xs) = ground (arith, filter-true xs)

pub count_if-filter-le :
    (p q : Slot → Bool) (xs : List Slot) → count_if p (filter q xs) ≤ count_if p xs
count_if-filter-le p q [] = omega arith
count_if-filter-le p q (x ∷ xs) = ground (arith, count_if-filter-le p q xs)

pub length-filter-le : (q : Slot → Bool) (xs : List Slot) → length (filter q xs) ≤ length xs
length-filter-le q [] = omega arith
length-filter-le q (x ∷ xs) = ground (arith, length-filter-le q xs)

pub sum_of-filter-le :
    (f : Slot → ℕ) (q : Slot → Bool) (xs : List Slot) → sum_of f (filter q xs) ≤ sum_of f xs
sum_of-filter-le f q [] = omega arith
sum_of-filter-le f q (x ∷ xs) = ground (arith, sum_of-filter-le f q xs)

pub length-sum_of : (xs : List Slot) → length xs ≡ sum_of (λ x. 1) xs
length-sum_of [] = refl
length-sum_of (x ∷ xs) = omega (arith, length-sum_of xs)

-- An insertion replaces the entry of its key.
no_key :
    (f : Slot → ℕ) (m : HashMap HotEntry) (k : String)
    → count_if (has_key k) m ≡ 0
    → sum_of f (filter (λ x. not (has_key k x)) m) ≡ sum_of f m
no_key f [] k h = refl
no_key f (x ∷ m) k h = ground (arith, h, no_key f m k)

pub sum_of-insert :
    (f : Slot → ℕ) (m : HashMap HotEntry) (k : String) (e : HotEntry)
    → count_if (has_key k) m ≤ 1
    → sum_of f (insert m k e) ≡ f (k, e) + sum_of f (filter (λ x. not (has_key k x)) m)
unfolding insert
sum_of-insert f [] k e h = refl
sum_of-insert f ((j, w) ∷ m) k e h = ground (arith, h, no_key f m k, sum_of-insert f m k e)

pub count_if-insert :
    (m : HashMap HotEntry) (k j : String) (e : HotEntry)
    → count_if (has_key k) m ≤ 1
    → count_if (has_key j) m ≤ 1
    → count_if (has_key j) (insert m k e) ≤ 1
unfolding insert
count_if-insert m k j e once_k once_j = elim (Bool-cases (str_eq k j)) [
  | inl same ↦ rw⁻¹ ((str_eq_iff k j).0 same) (own m once_k)
  | inr other ↦ rw (others m other) once_j
]
  where
    own :
        (m : HashMap HotEntry)
        → count_if (has_key k) m ≤ 1
        → count_if (has_key k) (insert m k e) ≤ 1
    own [] h = ground (arith, str_eq_refl k)
    own ((i, w) ∷ m) h = ground (arith, h, str_eq_refl k, own m)

    others :
        (m : HashMap HotEntry)
        → str_eq k j ≡ false
        → count_if (has_key j) (insert m k e) ≡ count_if (has_key j) m
    others [] other = ground (arith, other)
    others ((i, w) ∷ m) other = ground (arith, other, str_eq_iff i k, others m other)

pub remove_all-filter :
    (victims : List Slot) (m : HashMap HotEntry)
    → remove_all victims m ≡ filter (λ x. not (is_selected victims x.0)) m
remove_all-filter [] m = sym (filter-true m)
remove_all-filter (v ∷ vs) m =
    rw
      (
        remove-filter m v.0,
        remove_all-filter vs (filter (λ x. not (has_key v.0 x)) m),
        filter-filter (λ x. not (is_selected vs x.0)) (λ x. not (has_key v.0 x)) m,
      )
      (filter_congr (λ x. not (has_key v.0 x) && not (is_selected vs x.0))
        (λ x. not (is_selected (v ∷ vs) x.0)) m (λ x. ground (arith, str_eq_comm v.0 x.0)))

get-remove_all :
    (victims : List Slot) (m : HashMap HotEntry) (k : String)
    → get (remove_all victims m) k ≡ (if is_selected victims k then none else get m k)
get-remove_all [] m k = refl
get-remove_all (v ∷ vs) m k = ground (arith, get-remove_all vs (remove m v.0) k, get-remove m v.0 k)

-- What is read of an entry once the expired ones are gone.
abbrev pub unexpired : ℕ → Option HotEntry → Option HotEntry
unexpired now none = none
unexpired now (some e) = if is_expired now e then none else some e

get-absent : (m : HashMap HotEntry) (k : String) → count_if (has_key k) m ≡ 0 → get m k ≡ none
unfolding get
get-absent [] k h = refl
get-absent ((j, w) ∷ m) k h = ground (arith, h, get-absent m k)

get-live :
    (now : ℕ) (m : HashMap HotEntry) (k : String)
    → count_if (has_key k) m ≤ 1
    → get (filter (live now) m) k ≡ unexpired now (get m k)
unfolding get
get-live now [] k once = refl
get-live now ((j, w) ∷ m) k once = elim (Bool-cases (str_eq j k)) [
  | inl same ↦
      let none_else : count_if (has_key k) m ≡ 0 = ground (arith, once, same) in
      let absent : get m k ≡ none = get-absent m k none_else in
      let rest : get (filter (live now) m) k ≡ none =
        get-live now m k (omega (arith, none_else)) ∙ rw absent refl in
      elim (Bool-cases (is_expired now w)) [
        | inl stale ↦ ground (arith, same, stale, rest)
        | inr fresh ↦ ground (arith, same, fresh)
      ]
  | inr other ↦ elim (Bool-cases (is_expired now w)) [
    | inl stale ↦ ground (arith, other, stale, get-live now m k (ground (arith, once)))
    | inr fresh ↦ ground (arith, other, fresh, get-live now m k (ground (arith, once)))
  ]
]

-- The entries behind a commit: the new one, and what stays.
abbrev pub committed : HashMap HotEntry → ℕ → List Slot → String → HotEntry → HashMap HotEntry
committed entries now victims key e = insert (remove_all victims (filter (live now) entries)) key e

committed-distinct_before :
    (entries : HashMap HotEntry) (now : ℕ) (victims : List Slot) (k : String)
    → count_if (has_key k) entries ≤ 1
    → count_if (has_key k) (remove_all victims (filter (live now) entries)) ≤ 1
committed-distinct_before entries now victims k h =
    rw (remove_all-filter victims (filter (live now) entries)) (
      omega (
        arith,
        h,
        count_if-filter-le (has_key k) (live now) entries,
        count_if-filter-le (has_key k) (λ x. not (is_selected victims x.0))
            (filter (live now) entries),
      ))

pub committed-distinct :
    (entries : HashMap HotEntry) (now : ℕ) (victims : List Slot) (key : String) (e : HotEntry)
    → ((k : String) → count_if (has_key k) entries ≤ 1)
    → (k : String) → count_if (has_key k) (committed entries now victims key e) ≤ 1
committed-distinct entries now victims key e distinct k =
    count_if-insert (remove_all victims (filter (live now) entries)) key k e
      (committed-distinct_before entries now victims key (distinct key))
      (committed-distinct_before entries now victims k (distinct k))

pub get-committed :
    (entries : HashMap HotEntry) (now : ℕ) (victims : List Slot) (key : String) (e : HotEntry)
    (k : String)
    → count_if (has_key k) entries ≤ 1
    → get (committed entries now victims key e) k ≡ (
        if str_eq key k
        then some e
        else if is_selected victims k
        then none
        else unexpired now (get entries k))
get-committed entries now victims key e k once =
    rw
      (
        get-insert (remove_all victims (filter (live now) entries)) key k e,
        get-remove_all victims (filter (live now) entries) k,
        get-live now entries k once,
      )
      refl

pub sum_of-committed :
    (f : Slot → ℕ) (entries : HashMap HotEntry) (now : ℕ) (victims : List Slot) (key : String)
    (e : HotEntry)
    → count_if (has_key key) entries ≤ 1
    → sum_of f (committed entries now victims key e)
      ≡ f (key, e) + sum_of f (filter (stays key now victims) entries)
sum_of-committed f entries now victims key e once =
    let gone : Slot → Bool = λ x. not (is_selected victims x.0) in
    rw
      (
        sum_of-insert f (remove_all victims (filter (live now) entries)) key e
            (committed-distinct_before entries now victims key once),
        remove_all-filter victims (filter (live now) entries),
        filter-filter gone (live now) entries,
        filter-filter (λ x. not (has_key key x)) (λ x. live now x && gone x) entries,
      )
      (ap (λ xs. f (key, e) + sum_of f xs)
        (filter_congr (λ x. (live now x && gone x) && not (has_key key x)) (stays key now victims)
          entries (λ x. ground arith)))

-- ===== src/Memory/Hot/Reclaim.antt =====
-- crates/jaiba-memory/src/hot.rs: what leaves the tier, and what is read from it.
use jaiva.Prelude.{
  ℕ, ◌+◌, ◌-◌, ◌<◌, ◌≡◌, ◌≢◌, refl, subst, inl, inr, String, Bool, true, false, not, Option, none,
  some, List, [], ◌∷◌, arith, str_eq, str_eq_iff, str_eq_refl, length, filter, Bool-cases,
  Option-cases, HashMap, get, get-remove, u64_max,
}
use mathlib.Core.Option.{some-injective}
use jaiva.Json.{Value}
use jaiva.Memory.{ClassPolicy}
use jaiva.Memory.Hot.{
  HotEntry, HotStore, Measure, Slot, precedes, least, is_expired, live, entry_bytes, resident,
  is_evictable, new_entry, Upserted, stored, failed, endless, upsert, purge_expired, touch, lookup,
  evict, evict_one, reclaim_one,
}
use jaiva.Memory.Hot.Victims.{In, has_key, least-In, least-none, filter-In}
use jaiva.Memory.Hot.Order.{least-first}
use jaiva.Memory.Hot.Bounds.{remove-filter, count_if-filter-le, length-filter-le, sum_of-filter-le}
use jaiva.Memory.Hot.Admission.{IsValid, Upserts, upsert-IsValid}

-- Fewer entries of a valid store are valid.
pub fewer-IsValid :
    (m : Measure) (s : HotStore) (p : Slot → Bool) (evictions expired_removals : ℕ)
    → IsValid m s
    → IsValid m (record s {
      entries = filter p s.entries;
      evictions = evictions;
      expired_removals = expired_removals;
    })
unfolding resident
fewer-IsValid m s p evictions expired_removals valid = record {
  distinct = λ k. omega (arith, valid.distinct k, count_if-filter-le (has_key k) p s.entries);
  few = omega (arith, valid.few, length-filter-le p s.entries);
  small = omega (arith, valid.small, sum_of-filter-le (entry_bytes m) p s.entries);
}

pub purge_expired-IsValid :
    (m : Measure) (s : HotStore) (now : ℕ) → IsValid m s → IsValid m (purge_expired s now)
unfolding purge_expired
purge_expired-IsValid m s now valid =
    fewer-IsValid m s (live now) s.evictions
      (s.expired_removals + (length s.entries - length (filter (live now) s.entries))) valid

-- What pressure takes from a store whose expired entries are gone.
abbrev pub Evicts : Measure → HotStore → HotStore × Option Slot → Type 0
Evicts m s (after, none) = (after ≡ s) × ((w : Slot) → In w s.entries → is_evictable w ≡ false)
Evicts m s (after, some v) =
    IsValid m after
    × (is_evictable v ≡ true)
    × In v s.entries
    × ((w : Slot) → In w s.entries → is_evictable w ≡ true → precedes w.1 v.1 ≡ false)
    × (get after.entries v.0 ≡ none)
    × ((k : String) → k ≢ v.0 → get after.entries k ≡ get s.entries k)

pub In-filter :
    (p : Slot → Bool) (w : Slot) (xs : List Slot) → In w xs → p w ≡ true → In w (filter p xs)
In-filter p w [] h ok = h
In-filter p w (x ∷ xs) (inl same) ok = rw (subst_test x same) (inl same)
  where
    subst_test : (x : Slot) → x ≡ w → p x ≡ true
    subst_test x same = rw same ok
In-filter p w (x ∷ xs) (inr more) ok = elim (Bool-cases (p x)) [
  | inl yes_ ↦ rw yes_ (inr (In-filter p w xs more ok))
  | inr no_ ↦ rw no_ (In-filter p w xs more ok)
]

none_evictable :
    (xs : List Slot) → filter is_evictable xs ≡ [] → (w : Slot) → In w xs → is_evictable w ≡ false
none_evictable xs nothing w h = elim (Bool-cases (is_evictable w)) [
  | inl yes_ ↦ absurd (subst (In w) nothing (In-filter is_evictable w xs h yes_))
  | inr no_ ↦ no_
]

evict-Evicts :
    (m : Measure) (s : HotStore) (o : Option Slot)
    → IsValid m s
    → least (filter is_evictable s.entries) ≡ o
    → Evicts m s (evict s o)
unfolding evict
evict-Evicts m s none valid picked =
    (refl, none_evictable s.entries (least-none (filter is_evictable s.entries) picked))
evict-Evicts m s (some v) valid picked =
    let (ok, inside) =
      filter-In is_evictable v s.entries (least-In (filter is_evictable s.entries) v picked) in
    (
      rw (remove-filter s.entries v.0)
          (fewer-IsValid m s (λ x. not (has_key v.0 x)) (s.evictions + 1) s.expired_removals valid),
      ok,
      inside,
      λ w h evictable.
          least-first (filter is_evictable s.entries) v w picked
            (In-filter is_evictable w s.entries h evictable),
      rw (get-remove s.entries v.0 v.0, str_eq_refl v.0) refl,
      λ k other. ground (arith, get-remove s.entries v.0 k, str_eq_iff v.0 k),
    )

-- For a valid store, `reclaim_one` first drops what has expired and then takes nothing only when every
-- entry left is critical. Otherwise it takes one entry, which is not critical and before which no
-- other such entry comes in the order of eviction. The store stays within its limits, the entry's key is
-- gone, and what other keys hold is as it was behind the purge.
pub reclaim_one-Evicts :
    (m : Measure) (s : HotStore) (now : ℕ)
    → IsValid m s
    → Evicts m (purge_expired s now) (reclaim_one s now)
unfolding reclaim_one evict_one
reclaim_one-Evicts m s now valid =
    evict-Evicts m (purge_expired s now) (least (filter is_evictable (purge_expired s now).entries))
      (purge_expired-IsValid m s now valid) refl

-- What an upsert stores is found until it expires.
pub get-filter :
    (p : Slot → Bool) (m : HashMap HotEntry) (k : String) (e : HotEntry)
    → get m k ≡ some e
    → p (k, e) ≡ true
    → get (filter p m) k ≡ some e
unfolding get
get-filter p [] k e h ok = absurd (cc)
get-filter p ((j, w) ∷ m) k e h ok = elim (Bool-cases (str_eq j k)) [
  | inl same ↦
      let keys_ : j ≡ k = (str_eq_iff j k).0 same in
      let entries_ : w ≡ e = some-injective w e (ground (arith, h, same)) in
      let first : p (j, w) ≡ true = rw keys_ (rw entries_ ok) in rw first (ground (arith, same, h))
  | inr other ↦ ground (arith, other, h, ok, get-filter p m k e)
]

lookup-get :
    (s : HotStore) (key : String) (now : ℕ) (e : HotEntry)
    → get s.entries key ≡ some e
    → is_expired now e ≡ false
    → (lookup s key now).1 ≡ some e.value
unfolding lookup purge_expired touch
lookup-get s key now e found fresh =
    rw (get-filter (live now) s.entries key e found (rw fresh refl)) (rw fresh refl)

not_expired :
    (value : Value) (class : ClassPolicy) (now later size_bytes : ℕ)
    → ((ttl : ℕ) → class.ttl ≡ some ttl → later < now + ttl)
    → is_expired later (new_entry value class now size_bytes) ≡ false
unfolding is_expired
not_expired value class now later size_bytes fresh = elim (Option-cases class.ttl) [
  | inl never ↦ simp never
  | inr (ttl, some_) ↦ let soon = fresh ttl some_ in simp some_ (ground (arith, soon))
]

lookup-stored :
    (m : Measure) (s : HotStore) (key : String) (value : Value) (class : ClassPolicy)
    (now later : ℕ) (result : Upserted) (after : HotStore) (victims : List Slot)
    → Upserts m s key value class now result
    → result ≡ stored after victims
    → ((ttl : ℕ) → class.ttl ≡ some ttl → later < now + ttl)
    → (lookup after key later).1 ≡ some value
lookup-stored m s key value class now later (stored found taken) after victims h same fresh =
    let stores : found ≡ after = cc in
    rw⁻¹ stores (
      lookup-get found key later (new_entry value class now h.1) h.3
        (not_expired value class now later h.1 fresh))
lookup-stored m s key value class now later (failed e) after victims h same fresh = absurd (cc)
lookup-stored m s key value class now later endless after victims h same fresh = absurd h

-- When an upsert into a valid store whose limit in bytes is less than the largest word has stored a
-- value, and its class has no deadline or the deadline is not yet reached, a lookup of the key
-- returns the value.
pub lookup-upsert :
    (m : Measure) (s : HotStore) (key : String) (value : Value) (class : ClassPolicy)
    (now later : ℕ) (after : HotStore) (victims : List Slot)
    → IsValid m s
    → s.max_bytes < u64_max
    → upsert m s key value class now ≡ stored after victims
    → ((ttl : ℕ) → class.ttl ≡ some ttl → later < now + ttl)
    → (lookup after key later).1 ≡ some value
lookup-upsert m s key value class now later after victims valid bounded done fresh =
    lookup-stored m s key value class now later (upsert m s key value class now) after victims
      (upsert-IsValid m s key value class now valid bounded) done fresh

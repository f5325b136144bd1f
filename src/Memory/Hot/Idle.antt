-- ===== src/Memory/Hot/Idle.antt =====
-- crates/jaiba-memory/src/hot.rs: `reclaim_idle`, which takes the entries that nobody has read for as
-- long as their class allows. `sort_by` is an insertion sort, which is as stable.
pub mod Sorting
pub mod Taking
use jaiva.Prelude.{
  ℕ, zero, suc, ◌+◌, ◌-◌, String, Bool, true, false, ◌&&◌, Option, none, some, List, [], ◌∷◌, leb,
  if◌then◌else◌, filter, get, remove,
}
use jaiva.Memory.Hot.{HotEntry, HotStore, Slot, precedes, is_evictable, purge_expired}

unfoldable pub waited : HotEntry → ℕ → Option ℕ → Bool
waited e now none = false
waited e now (some idle) = leb e.last_access now && leb idle (now - e.last_access)

unfoldable pub is_idle : ℕ → Slot → Bool
unfolding waited
is_idle now slot = is_evictable slot && waited slot.1 now slot.1.demote_after

abbrev pub sort_in : Slot → List Slot → List Slot
sort_in x [] = x ∷ []
sort_in x (y ∷ ys) = let rest = sort_in x ys in if precedes y.1 x.1 then y ∷ rest else x ∷ y ∷ ys

unfoldable pub sort : List Slot → List Slot
sort [] = []
sort (x ∷ xs) = sort_in x (sort xs)

abbrev pub take : List Slot → ℕ → List Slot
take [] n = []
take (x ∷ xs) zero = []
take (x ∷ xs) (suc n) = x ∷ take xs n

-- One candidate of the `filter_map`.
unfoldable pub remove_found : HotStore → String → Option HotEntry → HotStore × List Slot
remove_found s key none = (s, [])
remove_found s key (some e) =
    (record s { entries = remove s.entries key; evictions = s.evictions + 1 }, (key, e) ∷ [])

abbrev pub then_rest :
    HotStore × List Slot → (HotStore → HotStore × List Slot) → HotStore × List Slot
then_rest (s, []) rest = rest s
then_rest (s, v ∷ vs) rest = let (after, more) = rest s in (after, v ∷ more)

unfoldable pub remove_each : List Slot → HotStore → HotStore × List Slot
unfolding remove_found
remove_each [] s = (s, [])
remove_each (c ∷ cs) s = then_rest (remove_found s c.0 (get s.entries c.0)) (remove_each cs)

unfoldable pub reclaim_idle : HotStore → ℕ → ℕ → HotStore × List Slot
unfolding remove_each sort is_idle purge_expired
reclaim_idle s now limit =
    let s₁ = purge_expired s now in
    remove_each (take (sort (filter (is_idle now) s₁.entries)) limit) s₁

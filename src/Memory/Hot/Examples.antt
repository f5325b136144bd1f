-- ===== src/Memory/Hot/Examples.antt =====
-- crates/jaiba-memory/src/hot.rs: a tier of two entries.
use jaiva.Prelude.{
  ◌≤◌, ◌≡◌, refl, String, true, none, some, [], ◌∷◌, inl, inr, Bool-cases, get, insert, remove,
  arith, str_eq, str_eq_iff, count_if,
}
use mathlib.Core.Option.{some-injective}
use jaiva.Json.{null, bool}
use jaiva.Memory.{Priority, low, normal, critical, rank, ClassPolicy}
use jaiva.Memory.Hot.{
  HotEntry, HotStore, bytes, Measure, is_expired, resident, stored, upsert, lookup, purge_expired,
  reclaim_one, new_entry,
}
use jaiva.Memory.Hot.Idle.{reclaim_idle}
use jaiva.Memory.Hot.Idle.Taking.{Reclaims, reclaim_idle-Reclaims}
use jaiva.Memory.Hot.Victims.{has_key}
use jaiva.Memory.Hot.Admission.{IsValid, Upserts, upsert-IsValid}
use jaiva.Memory.Hot.Reclaim.{Evicts, reclaim_one-Evicts, lookup-upsert}

abbrev measure : Measure
measure = record { text = λ t. 1; json = λ v. bytes 9 }

abbrev class : ClassPolicy
class = record { name = "session"; ttl = some 100; priority = normal; demote_after = none }

abbrev old_entry : Priority → HotEntry
old_entry priority = record {
  class = "session";
  value = bool true;
  priority = priority;
  expires_at = none;
  last_access = 0;
  access_count = 1;
  demote_after = some 3;
  size_bytes = 9;
}

abbrev two : HotStore
two = record {
  entries = ("a", old_entry critical) ∷ ("b", old_entry low) ∷ [];
  max_entries = 2;
  max_bytes = 25;
  evictions = 0;
  expired_removals = 0;
}

two-distinct : (k : String) → count_if (has_key k) two.entries ≤ 1
two-distinct k = elim (Bool-cases (str_eq "a" k)) [
  | inl same ↦ rw⁻¹ ((str_eq_iff "a" k).0 same) (omega arith)
  | inr other ↦ rw other (elim (Bool-cases (str_eq "b" k)) [
    | inl same ↦ rw same (omega arith)
    | inr neither ↦ rw neither (omega arith)
  ])
]

two-IsValid : IsValid measure two
unfolding resident
two-IsValid = record { distinct = two-distinct; few = omega arith; small = ground arith }

upsert-IsValid_example : Upserts measure two "c" null class 5 (upsert measure two "c" null class 5)
upsert-IsValid_example = upsert-IsValid measure two "c" null class 5 two-IsValid (ground arith)

reclaim_one-Evicts_example : Evicts measure (purge_expired two 5) (reclaim_one two 5)
reclaim_one-Evicts_example = reclaim_one-Evicts measure two 5 two-IsValid

reclaim_idle-Reclaims_example : Reclaims measure (purge_expired two 5) 5 1 (reclaim_idle two 5 1)
reclaim_idle-Reclaims_example = reclaim_idle-Reclaims measure two 5 1 two-IsValid

abbrev behind : HotStore
behind = record {
  entries = ("a", old_entry critical) ∷ ("c", new_entry null class 5 9) ∷ [];
  max_entries = 2;
  max_bytes = 25;
  evictions = 1;
  expired_removals = 0;
}

upsert-two : upsert measure two "c" null class 5 ≡ stored behind (("b", old_entry low) ∷ [])
unfolding upsert get is_expired rank insert remove
upsert-two = refl

lookup-upsert_example : (lookup behind "c" 104).1 ≡ some null
lookup-upsert_example =
    lookup-upsert measure two "c" null class 5 104 behind (("b", old_entry low) ∷ []) two-IsValid
      (ground arith) upsert-two
      (λ ttl some_. let same : 100 ≡ ttl = some-injective 100 ttl some_ in omega (arith, same))

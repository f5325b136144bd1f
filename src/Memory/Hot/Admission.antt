-- ===== src/Memory/Hot/Admission.antt =====
-- crates/jaiba-memory/src/hot.rs: an upsert from its start to its commit.
use jaiva.Prelude.{
  ℕ, suc, ◌+◌, ◌≤◌, ◌<◌, ◌≡◌, refl, ap, inl, inr, String, false, ◌&&◌, not, none, some,
  if◌then◌else◌, List, [], ◌∷◌, arith, str_eq, str_eq_iff, ltb, length, filter, count_if, sum_of,
  All, Bool-cases, Option-cases, HashMap, get, get-insert_self, u64_max,
}
use mathlib.Core.Option.{some-injective}
use jaiva.Json.{Value}
use jaiva.Memory.{ClassPolicy}
use jaiva.Memory.Hot.{
  HotEntry, HotStore, Encoded, bytes, unencodable, Measure, Slot, is_expired, live, entry_bytes,
  resident, is_selected, candidate, Choice, chosen, refused, out_of_fuel, wants_more, choose,
  entries_needed, others_bytes, search, new_entry, with_victims, prepare_sized, prepare_upsert,
  purge_expired, remove_all, commit_upsert, Upserted, stored, failed, endless, commit, upsert,
}
use jaiva.Memory.Hot.Victims.{
  In, IsVictim, has_key, stays, less_one, filter_congr, Fair, left_to_go, Chosen, choose_rule,
}
use jaiva.Memory.Hot.Bounds.{
  length-filter-le, length-sum_of, committed, committed-distinct, sum_of-committed, unexpired,
  get-committed,
}

-- A store within its limits, each key once.
pub record IsValid (m : Measure) (s : HotStore) : Type 0 where
  pub distinct : (k : String) → count_if (has_key k) s.entries ≤ 1
  pub few : length s.entries ≤ s.max_entries
  pub small : resident m s ≤ s.max_bytes

get-In : (m : HashMap HotEntry) (k : String) (e : HotEntry) → get m k ≡ some e → In (k, e) m
unfolding get
get-In [] k e h = absurd (cc)
get-In ((j, w) ∷ m) k e h = elim (Bool-cases (str_eq j k)) [
  | inl same ↦
      let keys_ : j ≡ k = (str_eq_iff j k).0 same in
      let entries_ : w ≡ e = some-injective w e (ground (arith, h, same)) in inl (cc)
  | inr other ↦ inr (get-In m k e (ground (arith, h, other)))
]

-- The live entries but the key's, in a store that has its key live, and in any.
others_live :
    (entries : HashMap HotEntry) (key : String) (now : ℕ) (e : HotEntry)
    → count_if (has_key key) entries ≤ 1
    → get entries key ≡ some e
    → is_expired now e ≡ false
    → sum_of (λ x. 1) (filter (stays key now []) entries) + 1 ≤ length entries
others_live entries key now e once found fresh =
    rw
      (filter_congr (stays key now []) (λ x. live now x && not (has_key key x)) entries
        (λ x. ground arith))
      (omega (
        arith,
        less_one (λ x. 1) (live now) (key, e) entries once (get-In entries key e found)
            (ground (arith, fresh)),
        length-sum_of (filter (live now) entries),
        length-filter-le (live now) entries,
      ))

others_le :
    (entries : HashMap HotEntry) (key : String) (now : ℕ)
    → sum_of (λ x. 1) (filter (stays key now []) entries) ≤ count_if (live now) entries
others_le [] key now = omega arith
others_le (x ∷ xs) key now = ground (arith, others_le xs key now)

-- Room for one more.
room :
    (s : HotStore) (key : String) (now victims left : ℕ)
    → count_if (has_key key) s.entries ≤ 1
    → length s.entries ≤ s.max_entries
    → left + victims ≡ sum_of (λ x. 1) (filter (stays key now []) s.entries)
    → ltb victims (entries_needed s key now) ≡ false
    → 1 + left ≤ s.max_entries
unfolding entries_needed
room s key now victims left once few sums enough = elim (Option-cases (get s.entries key)) [
  | inl absent ↦ ground (arith, absent, few, sums, enough, others_le s.entries key now)
  | inr (e, found) ↦ elim (Bool-cases (is_expired now e)) [
    | inl stale ↦ ground (arith, found, stale, few, sums, enough, others_le s.entries key now)
    | inr fresh ↦ omega (arith, few, sums, others_live s.entries key now e once found fresh)
  ]
]

-- A search that begins.
start-Fair :
    (m : Measure) (s : HotStore) (key : String) (now size_bytes : ℕ)
    → Fair (search m s key now size_bytes) (others_bytes m s key now) []
unfolding search others_bytes
start-Fair m s key now size_bytes = record {
  sums = λ f. omega arith;
  counted = ap (sum_of (entry_bytes m)) (
      filter_congr (λ x. not (str_eq x.0 key) && live now x) (stays key now []) s.entries
        (λ x. ground arith));
  evictable = tt;
}

start-enough :
    (m : Measure) (s : HotStore) (key : String) (now size_bytes : ℕ)
    → left_to_go (search m s key now size_bytes) [] < suc (length s.entries)
unfolding search
start-enough m s key now size_bytes = omega (
  arith,
  length-sum_of (filter (candidate key now []) s.entries),
  length-filter-le (candidate key now []) s.entries,
)

-- What an upsert comes to.
abbrev pub Upserts : Measure → HotStore → String → Value → ClassPolicy → ℕ → Upserted → Type 0
Upserts m s key value class now (stored after victims) =
    IsValid m after
    × (size_bytes : ℕ) × (m.json value ≡ bytes size_bytes)
    × (get after.entries key ≡ some (new_entry value class now size_bytes))
    × All (IsVictim s.entries key now) victims
    × (length after.entries + length victims ≡ 1 + length (filter (stays key now []) s.entries))
    × ((k : String)
        → get after.entries k ≡ (
            if str_eq key k
            then some (new_entry value class now size_bytes)
            else if is_selected victims k
            then none
            else unexpired now (get s.entries k)))
Upserts m s key value class now (failed e) = Unit
Upserts m s key value class now endless = ⊥

module _ (m : Measure) (s : HotStore) (key : String) (value : Value) (class : ClassPolicy) (now : ℕ)
    (valid : IsValid m s) (bounded : s.max_bytes < u64_max) where
  committed-IsValid :
      (size_bytes resident_bytes : ℕ) (victims : List Slot)
      → Fair (search m s key now size_bytes) resident_bytes victims
      → wants_more (search m s key now size_bytes) resident_bytes victims ≡ false
      → IsValid m (
          commit_upsert s (record {
            key = key;
            entry = new_entry value class now size_bytes;
            now = now;
            victims = victims;
          }))
  unfolding search commit_upsert purge_expired resident
  committed-IsValid size_bytes resident_bytes victims fair enough =
      let e = new_entry value class now size_bytes in
      record {
        distinct = committed-distinct s.entries now victims key e valid.distinct;
        few =
            rw
              (
                length-sum_of (committed s.entries now victims key e),
                sum_of-committed (λ x. 1) s.entries now victims key e (valid.distinct key),
              )
              (room s key now (length victims)
                (sum_of (λ x. 1) (filter (stays key now victims) s.entries)) (valid.distinct key)
                valid.few (rw (length-sum_of victims) (fair.sums (λ x. 1)))
                (ground (arith, enough)));
        small =
            rw (sum_of-committed (entry_bytes m) s.entries now victims key e (valid.distinct key))
              (ground (arith, enough, fair.counted, bounded));
      }

  committed-length :
      (size_bytes resident_bytes : ℕ) (victims : List Slot)
      → Fair (search m s key now size_bytes) resident_bytes victims
      → length (committed s.entries now victims key (new_entry value class now size_bytes))
          + length victims
        ≡ 1 + length (filter (stays key now []) s.entries)
  unfolding search
  committed-length size_bytes resident_bytes victims fair =
      let e = new_entry value class now size_bytes in
      rw
        (
          length-sum_of (committed s.entries now victims key e),
          sum_of-committed (λ x. 1) s.entries now victims key e (valid.distinct key),
          length-sum_of (filter (stays key now []) s.entries),
          length-sum_of victims,
        )
        (omega (arith, fair.sums (λ x. 1)))

  stored-IsValid :
      (size_bytes : ℕ)
      → m.json value ≡ bytes size_bytes
      → (choice : Choice) → Chosen (search m s key now size_bytes) choice
      → Upserts m s key value class now
          (commit s (with_victims key (new_entry value class now size_bytes) now choice))
  unfolding commit with_victims commit_upsert purge_expired search
  stored-IsValid size_bytes measured (chosen victims) (resident_bytes, fair, enough) = (
    committed-IsValid size_bytes resident_bytes victims fair enough,
    size_bytes,
    measured,
    get-insert_self (remove_all victims (filter (live now) s.entries)) key
        (new_entry value class now size_bytes),
    fair.evictable,
    committed-length size_bytes resident_bytes victims fair,
    λ k.
        get-committed s.entries now victims key (new_entry value class now size_bytes) k
          (valid.distinct k),
  )
  stored-IsValid size_bytes measured (refused e) h = tt
  stored-IsValid size_bytes measured out_of_fuel h = absurd h

  sized-IsValid :
      (encoded : Encoded)
      → m.json value ≡ encoded
      → Upserts m s key value class now (commit s (prepare_sized m s key value class now encoded))
  unfolding commit prepare_sized
  sized-IsValid (unencodable text) measured = tt
  sized-IsValid (bytes size_bytes) measured =
      elim (Bool-cases (ltb s.max_bytes (search m s key now size_bytes).incoming_bytes)) [
        | inl large ↦ rw large tt
        | inr fits ↦ rw fits (
            stored-IsValid size_bytes measured
              (choose (suc (length s.entries)) (search m s key now size_bytes)
                (others_bytes m s key now) [])
              (choose_rule (suc (length s.entries)) (search m s key now size_bytes)
                (others_bytes m s key now) [] (distinct_in size_bytes)
                (start-Fair m s key now size_bytes) (start-enough m s key now size_bytes)))
      ]
    where
      distinct_in :
          (size_bytes : ℕ) (k : String)
          → count_if (has_key k) (search m s key now size_bytes).store.entries ≤ 1
      distinct_in size_bytes k = valid.distinct k

  -- In a store where each key has one entry, whose entries and bytes are within their limits and
  -- whose limit in bytes is less than the largest word, an upsert ends. If it stores the value, the
  -- store is again within its limits and holds, under the key, the value with the class's priority
  -- and deadline. Each victim is a live entry of another key that is not critical. Under any other
  -- key the store holds nothing if a victim has the key, and otherwise the entry that was there,
  -- unless that has expired; so a live entry of another key is either kept or among the victims.
  pub upsert-IsValid : Upserts m s key value class now (upsert m s key value class now)
  unfolding upsert prepare_upsert
  upsert-IsValid = sized-IsValid (m.json value) refl

-- ===== src/Memory/Hot.antt =====
-- crates/jaiba-memory/src/hot.rs: the objects in the memory of the process. The entries stand in the
-- order in which the hash map would yield them. Times are numbers of milliseconds. A sum of bytes is
-- a plain number. The search for victims takes fuel.
pub mod Victims
pub mod Order
pub mod Bounds
pub mod Admission
pub mod Reclaim
pub mod Idle
mod Examples
use jaiva.Prelude.{
  ℕ, zero, suc, ◌+◌, ◌-◌, String, Bool, true, false, ◌&&◌, ◌||◌, not, Option, none, some, List, [],
  ◌∷◌, ◌++◌, str_eq, ltb, leb, if◌then◌else◌, max, is_some, length, any, filter, count_if, sum_of,
  HashMap, get, insert, remove, u64_max, saturating_add,
}
use jaiva.Json.{Value}
use jaiva.Memory.{
  Priority, critical, rank, ClassPolicy, MemoryError, configuration, critical_capacity,
  hot_byte_capacity,
}

pub record HotEntry : Type 0 where
  pub class : String
  pub value : Value
  pub priority : Priority
  pub expires_at : Option ℕ
  pub last_access : ℕ
  pub access_count : ℕ
  pub demote_after : Option ℕ
  pub size_bytes : ℕ

pub record HotStore : Type 0 where
  pub entries : HashMap HotEntry
  pub max_entries : ℕ
  pub max_bytes : ℕ
  pub evictions : ℕ
  pub expired_removals : ℕ

-- `key.len()`, and `serde_json::to_vec(..)`: the length, or the text of its error.
pub data Encoded : Type 0 where
  bytes : ℕ → Encoded
  unencodable : String → Encoded

pub record Measure : Type 0 where
  pub text : String → ℕ
  pub json : Value → Encoded

unfoldable pub new : ℕ → HotStore
new max_entries = record {
  entries = [];
  max_entries = max max_entries 1;
  max_bytes = 67108864;
  evictions = 0;
  expired_removals = 0;
}

unfoldable pub with_max_bytes : HotStore → ℕ → HotStore
with_max_bytes s max_bytes = record s { max_bytes = max_bytes }

abbrev pub Slot : Type 0
Slot = String × HotEntry

unfoldable pub is_expired : ℕ → HotEntry → Bool
is_expired now e = elim e.expires_at [ none ↦ false | some deadline ↦ leb deadline now ]

abbrev pub live : ℕ → Slot → Bool
live now slot = not (is_expired now slot.1)

abbrev pub entry_bytes : Measure → Slot → ℕ
entry_bytes m slot = saturating_add u64_max (m.text slot.0) slot.1.size_bytes

unfoldable pub resident : Measure → HotStore → ℕ
resident m s = sum_of (entry_bytes m) s.entries

pub record HotMetrics : Type 0 where
  pub objects : ℕ
  pub bytes : ℕ
  pub evictions : ℕ
  pub expired_removals : ℕ

unfoldable pub metrics : Measure → HotStore → HotMetrics
unfolding resident
metrics m s = record {
  objects = length s.entries;
  bytes = resident m s;
  evictions = s.evictions;
  expired_removals = s.expired_removals;
}

-- The comparison of `min_by`, whether the left entry is strictly first.
unfoldable pub precedes : HotEntry → HotEntry → Bool
unfolding rank
precedes l r =
    if ltb (rank l.priority) (rank r.priority)
    then true
    else if ltb (rank r.priority) (rank l.priority)
    then false
    else if ltb l.access_count r.access_count
    then true
    else if ltb r.access_count l.access_count
    then false
    else if ltb r.size_bytes l.size_bytes
    then true
    else if ltb l.size_bytes r.size_bytes
    then false
    else ltb l.last_access r.last_access

-- `min_by`: the first of the least.
abbrev first_of : Slot → Option Slot → Option Slot
first_of x none = some x
first_of x (some y) = if precedes y.1 x.1 then some y else some x

unfoldable pub least : List Slot → Option Slot
least [] = none
least (x ∷ xs) = first_of x (least xs)

abbrev pub is_selected : List Slot → String → Bool
is_selected victims key = any (λ v. str_eq v.0 key) victims

abbrev pub is_evictable : Slot → Bool
is_evictable slot = ltb (rank slot.1.priority) 3

-- The filter before `min_by`.
abbrev pub candidate : String → ℕ → List Slot → Slot → Bool
candidate key now victims slot =
    not (str_eq slot.0 key)
    && live now slot
    && is_evictable slot
    && not (is_selected victims slot.0)

pub data Choice : Type 0 where
  chosen : List Slot → Choice
  refused : MemoryError → Choice
  out_of_fuel : Choice

-- What the search reads: the store, the key to come, the time, its bytes, and how many must go.
pub record Search : Type 0 where
  pub store : HotStore
  pub measure : Measure
  pub key : String
  pub now : ℕ
  pub incoming_bytes : ℕ
  pub needed : ℕ

abbrev pub wants_more : Search → ℕ → List Slot → Bool
wants_more q resident_bytes victims =
    ltb (length victims) q.needed
    || ltb q.store.max_bytes (saturating_add u64_max resident_bytes q.incoming_bytes)

abbrev pub no_victim : Search → ℕ → List Slot → MemoryError
no_victim q resident_bytes victims =
    if ltb (length victims) q.needed
    then critical_capacity q.store.max_entries
    else hot_byte_capacity (saturating_add u64_max resident_bytes q.incoming_bytes)
        q.store.max_bytes

unfoldable pub on_least : (ℕ → List Slot → Choice) → Search → ℕ → List Slot → Option Slot → Choice
on_least next q resident_bytes victims none = refused (no_victim q resident_bytes victims)
on_least next q resident_bytes victims (some v) =
    next (resident_bytes - entry_bytes q.measure v) (victims ++ v ∷ [])

unfoldable pub choose : ℕ → Search → ℕ → List Slot → Choice
unfolding on_least least
choose zero q resident_bytes victims = out_of_fuel
choose (suc fuel) q resident_bytes victims =
    if wants_more q resident_bytes victims
    then on_least (choose fuel q) q resident_bytes victims
        (least (filter (candidate q.key q.now victims) q.store.entries))
    else chosen victims

pub record PreparedUpsert : Type 0 where
  pub key : String
  pub entry : HotEntry
  pub now : ℕ
  pub victims : List Slot

abbrev pub is_live_at : ℕ → Option HotEntry → Bool
is_live_at now none = false
is_live_at now (some e) = not (is_expired now e)

unfoldable pub entries_needed : HotStore → String → ℕ → ℕ
entries_needed s key now =
    if is_live_at now (get s.entries key)
    then 0
    else count_if (live now) s.entries + 1 - s.max_entries

-- The bytes that stay whatever goes: of the live entries but the key's.
unfoldable pub others_bytes : Measure → HotStore → String → ℕ → ℕ
others_bytes m s key now =
    sum_of (entry_bytes m) (filter (λ slot. not (str_eq slot.0 key) && live now slot) s.entries)

unfoldable pub search : Measure → HotStore → String → ℕ → ℕ → Search
unfolding entries_needed
search m s key now size_bytes = record {
  store = s;
  measure = m;
  key = key;
  now = now;
  incoming_bytes = saturating_add u64_max (m.text key) size_bytes;
  needed = entries_needed s key now;
}

abbrev expiry : Option ℕ → ℕ → Option ℕ
expiry none now = none
expiry (some ttl) now = some (now + ttl)

abbrev pub new_entry : Value → ClassPolicy → ℕ → ℕ → HotEntry
new_entry value class now size_bytes = record {
  class = class.name;
  value = value;
  priority = class.priority;
  expires_at = expiry class.ttl now;
  last_access = now;
  access_count = 1;
  demote_after = class.demote_after;
  size_bytes = size_bytes;
}

pub data Prepared : Type 0 where
  prepared : PreparedUpsert → Prepared
  rejected : MemoryError → Prepared
  stuck : Prepared

unfoldable pub with_victims : String → HotEntry → ℕ → Choice → Prepared
with_victims key entry now (chosen victims) =
    prepared (record { key = key; entry = entry; now = now; victims = victims })
with_victims key entry now (refused e) = rejected e
with_victims key entry now out_of_fuel = stuck

-- Behind the size of the value.
unfoldable pub prepare_sized :
    Measure → HotStore → String → Value → ClassPolicy → ℕ → Encoded → Prepared
unfolding search choose others_bytes with_victims
prepare_sized m s key value class now (unencodable text) = rejected (configuration text)
prepare_sized m s key value class now (bytes size_bytes) =
    let q = search m s key now size_bytes in
    if ltb s.max_bytes q.incoming_bytes
    then rejected (hot_byte_capacity q.incoming_bytes s.max_bytes)
    else with_victims key (new_entry value class now size_bytes) now
        (choose (suc (length s.entries)) q (others_bytes m s key now) [])

unfoldable pub prepare_upsert : Measure → HotStore → String → Value → ClassPolicy → ℕ → Prepared
unfolding prepare_sized
prepare_upsert m s key value class now = prepare_sized m s key value class now (m.json value)

unfoldable pub purge_expired : HotStore → ℕ → HotStore
purge_expired s now = record s {
  entries = filter (live now) s.entries;
  expired_removals = s.expired_removals + (length s.entries - length (filter (live now) s.entries));
}

abbrev pub remove_all : List Slot → HashMap HotEntry → HashMap HotEntry
remove_all [] entries = entries
remove_all (v ∷ vs) entries = remove_all vs (remove entries v.0)

unfoldable pub commit_upsert : HotStore → PreparedUpsert → HotStore
unfolding purge_expired
commit_upsert s p =
    let s₁ = purge_expired s p.now in
    record s₁ {
      entries = insert (remove_all p.victims s₁.entries) p.key p.entry;
      evictions = s₁.evictions + length p.victims;
    }

pub data Upserted : Type 0 where
  stored : HotStore → List Slot → Upserted
  failed : MemoryError → Upserted
  endless : Upserted

unfoldable pub commit : HotStore → Prepared → Upserted
unfolding commit_upsert
commit s (prepared p) = stored (commit_upsert s p) p.victims
commit s (rejected e) = failed e
commit s stuck = endless

unfoldable pub upsert : Measure → HotStore → String → Value → ClassPolicy → ℕ → Upserted
unfolding prepare_upsert commit
upsert m s key value class now = commit s (prepare_upsert m s key value class now)

-- `get` behind the purge. The test of the deadline there repeats the purge's.
unfoldable pub touch : HotStore → String → ℕ → Option HotEntry → HotStore × Option Value
touch s key now none = (s, none)
touch s key now (some e) =
    if is_expired now e
    then (
      record s { entries = remove s.entries key; expired_removals = s.expired_removals + 1 },
      none,
    )
    else (
      record s {
        entries = insert s.entries key (record e {
          last_access = now;
          access_count = saturating_add u64_max e.access_count 1;
        });
      },
      some e.value,
    )

unfoldable pub lookup : HotStore → String → ℕ → HotStore × Option Value
unfolding purge_expired touch
lookup s key now = let s₁ = purge_expired s now in touch s₁ key now (get s₁.entries key)

unfoldable pub remove_entry : HotStore → String → HotStore × Bool
remove_entry s key = (record s { entries = remove s.entries key }, is_some (get s.entries key))

unfoldable pub restore : HotStore → String → HotEntry → HotStore
restore s key e = record s { entries = insert s.entries key e }

unfoldable pub evict : HotStore → Option Slot → HotStore × Option Slot
evict s none = (s, none)
evict s (some v) =
    (record s { entries = remove s.entries v.0; evictions = s.evictions + 1 }, some v)

unfoldable pub evict_one : HotStore → HotStore × Option Slot
unfolding least evict
evict_one s = evict s (least (filter is_evictable s.entries))

unfoldable pub reclaim_one : HotStore → ℕ → HotStore × Option Slot
unfolding purge_expired evict_one
reclaim_one s now = evict_one (purge_expired s now)

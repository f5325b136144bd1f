-- ===== src/Memory/Hot/Idle/Taking.antt =====
-- crates/jaiba-memory/src/hot.rs: the entries that `reclaim_idle` takes.
use jaiva.Prelude.{
  ℕ, ◌+◌, ◌≤◌, ◌<◌, ◌≡◌, ◌⊎◌, refl, ap, inl, inr, String, true, false, not, none, some, List, [],
  ◌∷◌, arith, str_eq_refl, str_eq_comm, if◌then◌else◌, length, filter, count_if, All, HashMap, get,
  remove, get-remove,
}
use jaiva.Memory.Hot.{HotEntry, HotStore, Measure, Slot, is_selected, precedes, purge_expired}
use jaiva.Memory.Hot.Victims.{In, has_key, filter-In}
use jaiva.Memory.Hot.Bounds.{count_if-filter-le, remove-filter}
use jaiva.Memory.Hot.Admission.{IsValid}
use jaiva.Memory.Hot.Reclaim.{In-filter, fewer-IsValid, purge_expired-IsValid}
use jaiva.Memory.Hot.Idle.{is_idle, sort, take, remove_found, remove_each, reclaim_idle}
use jaiva.Memory.Hot.Idle.Sorting.{
  All-In, All-map, All-sort, All-take, In-sort, count_if-sort, count_if-take-le, length-take-le,
  Ordered, Ordered-sort, Ordered-take, take-first,
}

-- A candidate as the map holds it.
abbrev Held : HotStore → Slot → Type 0
Held s c = get s.entries c.0 ≡ some c.1

key_count : (xs : List Slot) (x : Slot) → In x xs → 0 < count_if (has_key x.0) xs
key_count [] x h = absurd h
key_count (y ∷ ys) x (inl same) = rw same (ground (arith, str_eq_refl x.0))
key_count (y ∷ ys) x (inr more) = ground (arith, key_count ys x more)

In-get :
    (m : HashMap HotEntry) (c : Slot) → count_if (has_key c.0) m ≤ 1 → In c m → get m c.0 ≡ some c.1
unfolding get
In-get [] c once h = absurd h
In-get ((j, w) ∷ m) c once (inl same) =
    let keys_ : j ≡ c.0 = ap (λ x. x.0) same in
    let entries_ : w ≡ c.1 = ap (λ x. x.1) same in rw (keys_, str_eq_refl c.0) (ap some entries_)
In-get ((j, w) ∷ m) c once (inr more) = ground (arith, once, key_count m c more, In-get m c)

-- Another candidate stays held.
others_Held :
    (s after : HotStore) (c : Slot) (cs : List Slot)
    → after.entries ≡ remove s.entries c.0
    → count_if (has_key c.0) cs ≡ 0
    → All (Held s) cs
    → All (Held after) cs
others_Held s after c [] removed apart h = tt
others_Held s after c (d ∷ ds) removed apart h = (
  rw (removed, get-remove s.entries c.0 d.0) (ground (arith, apart, str_eq_comm c.0 d.0, h.0)),
  others_Held s after c ds removed (ground (arith, apart)) h.1,
)

-- All of the candidates leave in their order, and nothing else does.
abbrev Taken : Measure → HotStore → List Slot → HotStore × List Slot → Type 0
Taken m s cs (after, taken) =
    (taken ≡ cs)
    × IsValid m after
    × ((k : String) → get after.entries k ≡ (if is_selected cs k then none else get s.entries k))

step_Taken :
    (m : Measure) (s next : HotStore) (c : Slot) (cs : List Slot) (result : HotStore × List Slot)
    → next.entries ≡ remove s.entries c.0
    → Taken m next cs result
    → Taken m s (c ∷ cs) (result.0, c ∷ result.1)
step_Taken m s next c cs result removed h = (
  ap (λ xs. c ∷ xs) h.0,
  h.1,
  λ k. rw (h.2 k, removed, get-remove s.entries c.0 k) (ground arith),
)

less_IsValid :
    (m : Measure) (s : HotStore) (key : String)
    → IsValid m s
    → IsValid m (record s { entries = remove s.entries key; evictions = s.evictions + 1 })
less_IsValid m s key valid =
    rw (remove-filter s.entries key)
      (fewer-IsValid m s (λ x. not (has_key key x)) (s.evictions + 1) s.expired_removals valid)

remove_each-Taken :
    (m : Measure) (cs : List Slot) (s : HotStore)
    → IsValid m s
    → ((k : String) → count_if (has_key k) cs ≤ 1)
    → All (Held s) cs
    → Taken m s cs (remove_each cs s)
unfolding remove_each remove_found
remove_each-Taken m [] s valid once held = (refl, valid, λ k. refl)
remove_each-Taken m (c ∷ cs) s valid once held =
    let next : HotStore = record s {
      entries = remove s.entries c.0;
      evictions = s.evictions + 1;
    } in
    let apart : count_if (has_key c.0) cs ≡ 0 = ground (arith, once c.0, str_eq_refl c.0) in
    rw held.0 (
      step_Taken m s next c cs (remove_each cs next) refl (
        remove_each-Taken m cs next (less_IsValid m s c.0 valid) (λ k. ground (arith, once k))
          (others_Held s next c cs refl apart held.1)))

-- What `reclaim_idle` comes to, against the store without what has expired.
abbrev pub Reclaims : Measure → HotStore → ℕ → ℕ → HotStore × List Slot → Type 0
Reclaims m s now limit (after, taken) =
    IsValid m after
    × (length taken ≤ limit)
    × Ordered taken
    × All (λ c. (is_idle now c ≡ true) × Held s c) taken
    × ((k : String) → get after.entries k ≡ (if is_selected taken k then none else get s.entries k))
    × ((w : Slot)
        → In w s.entries
        → is_idle now w ≡ true
        → In w taken ⊎ ((length taken ≡ limit) × All (λ v. precedes w.1 v.1 ≡ false) taken))

module _ (m : Measure) (s : HotStore) (now limit : ℕ) (valid : IsValid m s) where
  candidates-Held : All (λ c. (is_idle now c ≡ true) × Held s c) (filter (is_idle now) s.entries)
  candidates-Held =
      All-In (λ c. (is_idle now c ≡ true) × Held s c) (filter (is_idle now) s.entries)
        (λ c at.
          let (idle, inside) = filter-In (is_idle now) c s.entries at in
          (idle, In-get s.entries c (valid.distinct c.0) inside))

  taken_Held :
      All
        (λ c. (is_idle now c ≡ true) × Held s c)
        (take (sort (filter (is_idle now) s.entries)) limit)
  taken_Held =
      All-take (λ c. (is_idle now c ≡ true) × Held s c) (sort (filter (is_idle now) s.entries))
        limit
        (All-sort (λ c. (is_idle now c ≡ true) × Held s c) (filter (is_idle now) s.entries)
          candidates-Held)

  taken-once :
      (k : String) → count_if (has_key k) (take (sort (filter (is_idle now) s.entries)) limit) ≤ 1
  taken-once k = omega (
    arith,
    valid.distinct k,
    count_if-filter-le (has_key k) (is_idle now) s.entries,
    count_if-sort (has_key k) (filter (is_idle now) s.entries),
    count_if-take-le (has_key k) (sort (filter (is_idle now) s.entries)) limit,
  )

  taking-Reclaims :
      (result : HotStore × List Slot)
      → Taken m s (take (sort (filter (is_idle now) s.entries)) limit) result
      → Reclaims m s now limit result
  taking-Reclaims (after, taken) (same, ok, frame) =
      let sorted = sort (filter (is_idle now) s.entries) in
      rw same (
        ok,
        length-take-le sorted limit,
        Ordered-take sorted limit (Ordered-sort (filter (is_idle now) s.entries)),
        taken_Held,
        frame,
        λ w at idle. take-first sorted limit w (Ordered-sort (filter (is_idle now) s.entries)) (
            In-sort w (filter (is_idle now) s.entries)
              (In-filter (is_idle now) w s.entries at idle)),
      )

-- For a valid store, `reclaim_idle` first drops what has expired and then takes at most `limit`
-- entries, in the order of eviction, each idle and as the store holds it. It removes these keys and
-- no other, and the store stays within its limits. An idle entry that it leaves is left because the
-- limit is reached, and comes before none of those taken.
pub reclaim_idle-Reclaims :
    (m : Measure) (s : HotStore) (now limit : ℕ)
    → IsValid m s
    → Reclaims m (purge_expired s now) now limit (reclaim_idle s now limit)
unfolding reclaim_idle
reclaim_idle-Reclaims m s now limit valid =
    let purged = purge_expired s now in
    let ok = purge_expired-IsValid m s now valid in
    let cs = take (sort (filter (is_idle now) purged.entries)) limit in
    taking-Reclaims m purged now limit ok (remove_each cs purged) (
      remove_each-Taken m cs purged ok (taken-once m purged now limit ok) (
        All-map (λ c. (is_idle now c ≡ true) × Held purged c) (Held purged) cs (λ c h. h.1)
          (taken_Held m purged now limit ok)))

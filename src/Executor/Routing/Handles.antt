-- ===== src/Executor/Routing/Handles.antt =====
-- crates/jaiba-runtime/src/engine/executor/routing.rs: the handles of the reservations that are held,
-- under the calls of the limiter that routing makes.
use jaiva.Prelude.{
  ℕ, ◌+◌, ◌-◌, String, ◌≡◌, refl, subst, inl, inr, Bool, true, false, ◌&&◌, ◌||◌, not, Option, none,
  some, List, [], ◌∷◌, ◌++◌, arith, ◌==◌, if◌then◌else◌, is_some, length, get_elem?, set, get,
  insert, get-insert, str_eq_refl, Bool-cases, Option-cases, ltb,
}
use jaiva.Error.{FlowError, memory_capacity}
use jaiva.Limiter.{
  Ticket, held, gone, MemoryLimiter, System, Reply, granted, refused, try_reserve, drop, take_now,
  check_now, release, step, flow_is_awaited, process_is_awaited, units_of, ticket, reserved,
}
use jaiva.Limiter.Sums.{is_held}
use jaiva.Executor.Routing.{drop_all}
use jaiva.Executor.Routing.Tickets.{among, DistinctHandles, get_elem?-set, get_elem?-snoc, beyond}

abbrev pub holds_at : Option Ticket → Bool
holds_at none = false
holds_at (some t) = is_held t.phase

-- Whether a handle is that of a reservation that is held.
abbrev pub is_held_at : System → ℕ → Bool
is_held_at s j = holds_at (get_elem? s.tickets j)

-- A handle of a reservation of a flow that has a limiter.
pub record IsOurs (owner : String) (s : System) (k : ℕ) : Type 0 where
  pub mine : Ticket
  pub at : get_elem? s.tickets k ≡ some mine
  pub owned : mine.owner ≡ owner
  pub phase_held : mine.phase ≡ held
  pub limited : is_some (get s.limiters owner) ≡ true

-- A drop of a reservation.
pub record Drops (s : System) (k : ℕ) (after : System) : Type 0 where
  pub one_less : (j : ℕ) → is_held_at after j ≡ (is_held_at s j && not (k == j))
  pub others : (owner : String) (j : ℕ) → (k == j) ≡ false → IsOurs owner s j → IsOurs owner after j

dropped :
    (s : System) (k : ℕ) (t : Ticket) (l l' : MemoryLimiter) (shared : ℕ)
    → get_elem? s.tickets k ≡ some t
    → get s.limiters t.owner ≡ some l
    → Drops s k (record s {
      limiters = insert s.limiters t.owner l';
      shared_available = shared;
      tickets = set s.tickets k (record t { phase = gone });
    })
dropped s k t l l' shared at has = record {
  one_less = λ j. rw (get_elem?-set s.tickets k j t (record t { phase = gone }) at) (ground arith);
  others = λ owner j apart ours. record {
    mine = ours.mine;
    at = rw (get_elem?-set s.tickets k j t (record t { phase = gone }) at, apart) ours.at;
    owned = ours.owned;
    phase_held = ours.phase_held;
    limited = ground (arith, ours.limited, get-insert s.limiters t.owner owner l');
  };
}

pub drop-Drops :
    (owner : String) (s : System) (k : ℕ) → IsOurs owner s k → Drops s k (step s (drop k)).0
unfolding step release
drop-Drops owner s k ours =
    let t = ours.mine in
    elim (Option-cases (get s.limiters t.owner)) [
      | inl missing ↦
          absurd (
            ground (arith, ours.limited, (subst (λ o. get s.limiters o ≡ none) ours.owned missing)))
      | inr (l, has) ↦ rw ours.at (
          rw has (
            rw ours.phase_held (
              dropped s k t l
                (record l { available = l.available + t.units; used = l.used - t.bytes })
                (if t.shares then s.shared_available + t.units else s.shared_available) ours.at
                has)))
    ]

-- What an attempt to reserve leaves, by its reply.
abbrev pub Tried : String → System → System × Reply → Type 0
Tried owner s (after, granted k) =
    (k ≡ length s.tickets)
    × IsOurs owner after k
    × ((j : ℕ) → is_held_at after j ≡ (is_held_at s j || k == j))
    × ((j : ℕ) → IsOurs owner s j → IsOurs owner after j)
Tried owner s (after, _) =
    ((j : ℕ) → is_held_at after j ≡ is_held_at s j)
    × ((j : ℕ) → IsOurs owner s j → IsOurs owner after j)

-- Nothing but the limiter of the flow is written.
written :
    (owner : String) (s : System) (l : MemoryLimiter) (j : ℕ)
    → IsOurs owner s j
    → IsOurs owner (record s { limiters = insert s.limiters owner l }) j
written owner s l j ours = record {
  mine = ours.mine;
  at = ours.at;
  owned = ours.owned;
  phase_held = ours.phase_held;
  limited = ground (arith, ours.limited, get-insert s.limiters owner owner l);
}

granted-Tried :
    (owner : String) (s : System) (t : Ticket) (l : MemoryLimiter) (shared : ℕ)
    → t.owner ≡ owner
    → t.phase ≡ held
    → Tried owner s (
      record s {
        limiters = insert s.limiters owner l;
        shared_available = shared;
        tickets = s.tickets ++ t ∷ [];
      },
      granted (length s.tickets),
    )
granted-Tried owner s t l shared own now =
    let limited : is_some (get (insert s.limiters owner l) owner) ≡ true =
      ground (arith, get-insert s.limiters owner owner l, str_eq_refl owner) in
    (
      refl,
      record {
        mine = t;
        at = rw (get_elem?-snoc s.tickets t (length s.tickets)) (ground arith);
        owned = own;
        phase_held = now;
        limited = limited;
      },
      λ j. elim (Bool-cases (length s.tickets == j)) [
        | inl here ↦ rw (get_elem?-snoc s.tickets t j, here) (rw now (ground arith))
        | inr there ↦ rw (get_elem?-snoc s.tickets t j, there) (ground arith)
      ],
      λ j ours. record {
        mine = ours.mine;
        at = elim (Bool-cases (length s.tickets == j)) [
          | inl here ↦
              let place : length s.tickets ≡ j = ground (arith, here) in
              let past : get_elem? s.tickets j ≡ none =
                subst (λ i. get_elem? s.tickets i ≡ none) place (beyond s.tickets) in
              absurd (ground (arith, past, ours.at))
          | inr there ↦ rw (get_elem?-snoc s.tickets t j, there) ours.at
        ];
        owned = ours.owned;
        phase_held = ours.phase_held;
        limited = limited;
      },
    )

unchanged-Tried :
    (owner : String) (s : System) (l : MemoryLimiter) (e : FlowError)
    → Tried owner s (record s { limiters = insert s.limiters owner l }, refused e)
unchanged-Tried owner s l e = (λ j. refl, written owner s l)

take_now-Tried :
    (owner : String) (s : System) (l : MemoryLimiter) (bytes : ℕ) (o : Option FlowError)
    → Tried owner s (take_now s owner l bytes o)
unfolding take_now
take_now-Tried owner s l bytes (some e) = (λ j. refl, λ j ours. ours)
take_now-Tried owner s l bytes none =
    let units = units_of bytes in
    let pressed_ = record l { backpressure = l.backpressure + 1 } in
    elim (Bool-cases (flow_is_awaited s owner || ltb l.available units)) [
      | inl short ↦ rw short (unchanged-Tried owner s pressed_ (memory_capacity (reserved bytes)))
      | inr enough ↦
          elim (Bool-cases (l.shares && (process_is_awaited s || ltb s.shared_available units))) [
            | inl short ↦
                rw (enough, short)
                  (unchanged-Tried owner s pressed_ (memory_capacity (reserved bytes)))
            | inr room ↦
                rw (enough, room)
                  (granted-Tried owner s (ticket owner l bytes held)
                    (record l { available = l.available - units; used = l.used + reserved bytes })
                    (if l.shares then s.shared_available - units else s.shared_available) refl refl)
          ]
    ]

pub try_reserve-Tried :
    (owner : String) (s : System) (bytes : ℕ) → Tried owner s (step s (try_reserve owner bytes))
unfolding step
try_reserve-Tried owner s bytes = elim (Option-cases (get s.limiters owner)) [
  | inl missing ↦ rw missing (λ j. refl, λ j ours. ours)
  | inr (l, has) ↦ rw has (take_now-Tried owner s l bytes (check_now l bytes))
]

pub drop_all-held :
    (owner : String) (s : System) (ks : List ℕ)
    → DistinctHandles ks
    → ((j : ℕ) → among ks j ≡ true → IsOurs owner s j)
    → (j : ℕ) → is_held_at (drop_all s ks) j ≡ (is_held_at s j && not (among ks j))
unfolding drop_all
drop_all-held owner s [] apart ours j = ground arith
drop_all-held owner s (k ∷ ks) apart ours j =
    let after = (step s (drop k)).0 in
    let d = drop-Drops owner s k (ours k (ground arith)) in
    let rest =
      drop_all-held owner after ks apart.1
        (λ i more. d.others owner i (later i more) (ours i (ground (arith, more)))) j in
    ground (arith, rest, d.one_less j)
  where
    later : (i : ℕ) → among ks i ≡ true → (k == i) ≡ false
    later i more = elim (Bool-cases (k == i)) [
      | inr other ↦ other
      | inl same ↦
          let place : k ≡ i = ground (arith, same) in
          absurd (ground (arith, more, subst (λ x. among ks x ≡ false) place apart.0))
    ]

-- ===== src/Executor/Routing/Bounds.antt =====
-- crates/jaiba-runtime/src/engine/executor/routing.rs: the bounds of the queues, and refused
-- emissions.
use jaiva.Prelude.{
  String, ℕ, zero, suc, ◌+◌, ◌≤◌, ◌<◌, ◌≡◌, ◌≢◌, refl, subst, Bool, true, false, Option, none, some,
  List, [], ◌∷◌, arith, count_if, length, is_empty, any, get_elem?, inl, inr, Bool-cases, get,
  or_insert, str_eq, u64_max,
}
use mathlib.Core.Option.{some-injective}
use jaiva.Config.{ConnectionConfig}
use jaiva.Error.{FlowError}
use jaiva.Packet.{estimated_size}
use jaiva.Executor.{WorkItem}
use jaiva.Executor.Routing.{
  Router, ProcessorEmission, Queues, Reserved, reservations, out_of_memory, broken, unlimited,
  RouteOutcome, routed, Answer, answer, connection_id, on_edge, queued_for, leads_to, routed_work,
  maximum_in_flight, over_flight, has_no_room, over_capacity, outgoing, publish, published,
  refreshed, deliver, reserve_and_deliver, route_emission, work_item, Repository,
}
use jaiva.Executor.Routing.Publishing.{length-reserve_branches, deliver-count}

abbrev pub next_of : Router → ProcessorEmission → List ConnectionConfig
next_of ρ e = outgoing ρ.connections e.processor_id e.relationship

any-get_elem? :
    {A : Type 0} (p : A → Bool) (xs : List A) (i : ℕ) (x : A)
    → any p xs ≡ false
    → get_elem? xs i ≡ some x
    → p x ≡ false
any-get_elem? p [] i x none_ at = absurd (ground (arith, at))
any-get_elem? p (y ∷ xs) zero x none_ at =
    let same : y ≡ x = some-injective y x at in rw (← same) (ground (arith, none_))
any-get_elem? p (y ∷ xs) (suc i) x none_ at = any-get_elem? p xs i x (ground (arith, none_)) at

count_all : {A : Type 0} (xs : List A) → count_if (λ x. true) xs ≡ length xs
count_all [] = refl
count_all (x ∷ xs) = omega (arith, count_all xs)

-- What holds where an emission with a connection is routed.
record Passed (ρ : Router) (e : ProcessorEmission) (q : Queues) : Type 0 where
  capacity : over_capacity ρ (next_of ρ e) q.pending ≡ false
  room : any (has_no_room ρ (next_of ρ e) q.pending) (next_of ρ e) ≡ false
  counts :
      (p : WorkItem → Bool) (f : ConnectionConfig → Bool)
      → ((c : ConnectionConfig) (k : ℕ) (id : Option String) → p (work_item ρ e c k id) ≡ f c)
      → count_if p (route_emission ρ e q).0.pending
        ≡ count_if p q.pending + count_if f (next_of ρ e)

routed-Passed :
    (ρ : Router) (e : ProcessorEmission) (q : Queues)
    → is_empty (next_of ρ e) ≡ false
    → (route_emission ρ e q).1 ≡ answer routed
    → Passed ρ e q
unfolding route_emission reserve_and_deliver
routed-Passed ρ e q some_ done = elim (Bool-cases (over_capacity ρ (next_of ρ e) q.pending)) [
  | inl full ↦ absurd (ground (arith, done, some_, full))
  | inr fits ↦ elim (Bool-cases (any (has_no_room ρ (next_of ρ e) q.pending) (next_of ρ e))) [
    | inl full ↦ absurd (ground (arith, done, some_, fits, full))
    | inr room ↦ record {
      capacity = fits;
      room = room;
      counts = λ p f agrees.
          rw (some_, fits, room)
            (deliver-count ρ e p f agrees (next_of ρ e) _ _
              (λ ks h. omega (
                arith,
                length-reserve_branches ρ (estimated_size ρ.sizes e.packet) q.memory []
                    (length (next_of ρ e)) ks h,
              ))
              (subst (λ x. x.1 ≡ answer routed) (passed fits room) done));
    }
  ]
]
  where
    passed :
        over_capacity ρ (next_of ρ e) q.pending ≡ false
        → any (has_no_room ρ (next_of ρ e) q.pending) (next_of ρ e) ≡ false
        → route_emission ρ e q ≡ reserve_and_deliver ρ e (next_of ρ e) q
    passed fits room = rw (some_, fits, room) refl

nonempty :
    {A : Type 0} (xs : List A) (i : ℕ) (x : A) → get_elem? xs i ≡ some x → is_empty xs ≡ false
nonempty [] i x at = absurd (ground (arith, at))
nonempty (y ∷ xs) i x at = refl

-- Behind an emission that is routed over a connection, which no other connection of its
-- relationship doubles, all queues together hold at most the capacity of the flow (one that is less
-- than the largest word), and the queue of the connection at most its own.
pub route_emission_capacity :
    (ρ : Router) (e : ProcessorEmission) (q : Queues) (c : ConnectionConfig) (i : ℕ)
    → get_elem? (next_of ρ e) i ≡ some c
    → count_if (λ d. str_eq (connection_id ρ d) (connection_id ρ c)) (next_of ρ e) ≡ 1
    → ρ.global_capacity < u64_max
    → (route_emission ρ e q).1 ≡ answer routed
    → let after = (route_emission ρ e q).0.pending in
      (count_if routed_work after ≤ ρ.global_capacity)
      × (count_if (on_edge (connection_id ρ c)) after ≤ c.queue_capacity)
unfolding over_capacity has_no_room
route_emission_capacity ρ e q c i at single small done =
    let h = routed-Passed ρ e q (nonempty (next_of ρ e) i c at) done in
    let room = any-get_elem? (has_no_room ρ (next_of ρ e) q.pending) (next_of ρ e) i c h.room at in
    let all = h.counts routed_work (λ c. true) (λ c k id. refl) in
    let edge =
      h.counts (on_edge (connection_id ρ c)) (λ d. str_eq (connection_id ρ d) (connection_id ρ c))
        (λ d k id. refl) in
    (
      ground (arith, all, count_all (next_of ρ e), h.capacity, small),
      ground (arith, edge, single, room),
    )

-- Behind an emission that is routed to a processor with a maximum in flight (less than the largest
-- word), what is queued for it and active is within that maximum.
pub route_emission_in_flight :
    (ρ : Router) (e : ProcessorEmission) (q : Queues) (c : ConnectionConfig) (i m : ℕ)
    → get_elem? (next_of ρ e) i ≡ some c
    → maximum_in_flight (get ρ.definitions c.target) ≡ some m
    → m < u64_max
    → (route_emission ρ e q).1 ≡ answer routed
    → count_if (queued_for c.target) (route_emission ρ e q).0.pending
        + or_insert (get ρ.active_per_processor c.target) 0
      ≤ m
unfolding has_no_room over_flight
route_emission_in_flight ρ e q c i m at limit small done =
    let h = routed-Passed ρ e q (nonempty (next_of ρ e) i c at) done in
    let room = any-get_elem? (has_no_room ρ (next_of ρ e) q.pending) (next_of ρ e) i c h.room at in
    let added = h.counts (queued_for c.target) (leads_to c.target) (λ d k id. refl) in
    ground (arith, added, limit, small, room)

-- What an answer other than `Routed` leaves as it was.
abbrev Untouched : Queues → Queues × Answer → Type 0
Untouched q r = (r.0.pending ≡ q.pending) × (r.0.emitted ≡ q.emitted)

published-Untouched :
    (r : Option Repository) (x : Queues × Option FlowError) (q : Queues) (o : RouteOutcome)
    → (published r x).1 ≡ answer o
    → o ≢ routed
    → Untouched q (published r x)
unfolding published refreshed
published-Untouched none (q', none) q o e blocked = absurd (blocked (ground (arith, e)))
published-Untouched (some r) (q', none) q o e blocked = absurd (blocked (ground (arith, e)))
published-Untouched r (q', some failure) q o e blocked = absurd (ground (arith, e))

deliver-Untouched :
    (ρ : Router) (e : ProcessorEmission) (next : List ConnectionConfig) (q : Queues)
    (made : Reserved) (o : RouteOutcome)
    → (deliver ρ e next q made).1 ≡ answer o
    → o ≢ routed
    → Untouched q (deliver ρ e next q made)
unfolding deliver
deliver-Untouched ρ e next q (reservations ks) o is blocked =
    published-Untouched ρ.repository (publish ρ e next ks q) q o is blocked
deliver-Untouched ρ e next q (out_of_memory failure) o is blocked = (refl, refl)
deliver-Untouched ρ e next q (broken failure) o is blocked = (refl, refl)
deliver-Untouched ρ e next q unlimited o is blocked = (refl, refl)

abbrev Kept : Queues → RouteOutcome → Queues × Answer → Type 0
Kept q o r = r.1 ≡ answer o → Untouched q r

-- All or nothing: an emission that is answered with a full queue or a full memory has put nothing
-- into the queues and counts nothing as emitted.
pub route_emission_blocked :
    (ρ : Router) (e : ProcessorEmission) (q : Queues) (o : RouteOutcome)
    → (route_emission ρ e q).1 ≡ answer o
    → o ≢ routed
    → ((route_emission ρ e q).0.pending ≡ q.pending)
      × ((route_emission ρ e q).0.emitted ≡ q.emitted)
unfolding route_emission reserve_and_deliver
route_emission_blocked ρ e q o is blocked = go is
  where
    go : Kept q o (route_emission ρ e q)
    go = elim (Bool-cases (is_empty (next_of ρ e))) [
      | inl nothing ↦ rw nothing (λ h. (refl, refl))
      | inr some_ ↦ elim (Bool-cases (over_capacity ρ (next_of ρ e) q.pending)) [
        | inl full ↦ rw (some_, full) (λ h. (refl, refl))
        | inr fits ↦ elim (Bool-cases (any (has_no_room ρ (next_of ρ e) q.pending) (next_of ρ e))) [
          | inl full ↦ rw (some_, fits, full) (λ h. (refl, refl))
          | inr room ↦
              rw (some_, fits, room) (λ h. deliver-Untouched ρ e (next_of ρ e) _ _ o h blocked)
        ]
      ]
    ]

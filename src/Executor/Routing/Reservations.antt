-- ===== src/Executor/Routing/Reservations.antt =====
-- crates/jaiba-runtime/src/engine/executor/routing.rs: what an emission leaves reserved.
use jaiva.Prelude.{
  ℕ, ◌+◌, String, ◌≡◌, refl, sym, subst, inl, inr, true, false, ◌&&◌, ◌||◌, not, Option, none, some,
  List, [], ◌∷◌, ◌++◌, arith, ◌==◌, is_empty, any, length, Bool-cases,
}
use mathlib.Core.List.{append_assoc, append-nil}
use jaiva.Config.{ConnectionConfig}
use jaiva.Error.{FlowError, Result, ok, err}
use jaiva.Packet.{estimated_size}
use jaiva.Limiter.{System}
use jaiva.Executor.{WorkItem}
use jaiva.Executor.Routing.{
  Router, ProcessorEmission, Queues, Reserved, reservations, out_of_memory, broken, unlimited,
  reserve_branches, work_item, publish, push, on_enqueued, Repository, enqueued, published, deliver,
  reserve_and_deliver, outgoing, over_capacity, has_no_room, route_emission,
}
use jaiva.Executor.Routing.Publishing.{length-reserve_branches}
use jaiva.Executor.Routing.Tickets.{among, DistinctHandles}
use jaiva.Executor.Routing.Handles.{is_held_at, IsOurs, drop_all-held}
use jaiva.Executor.Routing.Leaks.{Reserves, reserve_branches-Reserves}

abbrev with_handle : Option ℕ → List ℕ → List ℕ
with_handle none ks = ks
with_handle (some k) ks = k ∷ ks

-- The reservations that items carry.
abbrev pub handles : List WorkItem → List ℕ
handles [] = []
handles (item ∷ items) = with_handle item.reservation (handles items)

-- What publishing does with the reservations that are made.
record Publishes (q : Queues) (ks : List ℕ) (after : Queues) : Type 0 where
  pub pushed : List WorkItem
  pub queue : after.pending ≡ q.pending ++ pushed
  pub counted : after.emitted ≡ q.emitted + length pushed
  pub each : length (handles pushed) ≡ length pushed
  pub held_then :
      (j : ℕ)
      → is_held_at after.memory j
        ≡ ((is_held_at q.memory j && not (among ks j)) || among (handles pushed) j)
  pub made : (j : ℕ) → among (handles pushed) j ≡ true → among ks j ≡ true
  pub apart : DistinctHandles (handles pushed)

module _ (ρ : Router) (e : ProcessorEmission) where
  on_enqueued-Publishes :
      (next : Queues → Queues × Option FlowError) (c : ConnectionConfig) (k : ℕ) (ks : List ℕ)
      (q : Queues) (answer_ : Result (Option String))
      → DistinctHandles (k ∷ ks)
      → ((j : ℕ) → among (k ∷ ks) j ≡ true → IsOurs ρ.flow_id q.memory j)
      → ((q' : Queues) → q'.memory ≡ q.memory → Publishes q' ks (next q').0)
      → Publishes q (k ∷ ks) (on_enqueued next ρ e c k ks q answer_).0
  unfolding on_enqueued push
  on_enqueued-Publishes next c k ks q (ok id) apart ours h =
      let p = h (push ρ e c k id q) refl in
      let o = ours k (ground arith) in
      let here : is_held_at q.memory k ≡ true = rw (o.at, o.phase_held) refl in
      record {
        pushed = work_item ρ e c k id ∷ p.pushed;
        queue = rw (p.queue) (append_assoc q.pending (work_item ρ e c k id ∷ []) p.pushed);
        counted = ground (arith, p.counted);
        each = ground (arith, p.each);
        held_then = λ j. elim (Bool-cases (k == j)) [
          | inl same ↦
              let place : k ≡ j = ground (arith, same) in
              ground (
                arith,
                p.held_then j,
                same,
                (subst (λ i. is_held_at q.memory i ≡ true) place here),
                (subst (λ i. among ks i ≡ false) place apart.0),
              )
          | inr other ↦ ground (arith, p.held_then j, other)
        ];
        made = λ j more. ground (arith, more, p.made j);
        apart = (
          elim (Bool-cases (among (handles p.pushed) k)) [
            | inl again ↦ absurd (ground (arith, p.made k again, apart.0))
            | inr absent ↦ absent
          ],
          p.apart,
        );
      }
  on_enqueued-Publishes next c k ks q (err failure) apart ours h = record {
    pushed = [];
    queue = sym (append-nil q.pending);
    counted = omega arith;
    each = refl;
    held_then = λ j. ground (arith, drop_all-held ρ.flow_id q.memory (k ∷ ks) apart ours j);
    made = λ j more. absurd (ground (arith, more));
    apart = tt;
  }

  publish-Publishes :
      (cs : List ConnectionConfig) (ks : List ℕ) (q : Queues)
      → length ks ≡ length cs
      → DistinctHandles ks
      → ((j : ℕ) → among ks j ≡ true → IsOurs ρ.flow_id q.memory j)
      → Publishes q ks (publish ρ e cs ks q).0
  unfolding publish
  publish-Publishes [] [] q same apart ours = record {
    pushed = [];
    queue = sym (append-nil q.pending);
    counted = omega arith;
    each = refl;
    held_then = λ j. ground arith;
    made = λ j more. more;
    apart = tt;
  }
  publish-Publishes [] (k ∷ ks) q same apart ours = absurd (omega (arith, same))
  publish-Publishes (c ∷ cs) [] q same apart ours = absurd (omega (arith, same))
  publish-Publishes (c ∷ cs) (k ∷ ks) q same apart ours =
      on_enqueued-Publishes (publish ρ e cs ks) c k ks q (enqueued ρ.repository c) apart ours
        (λ q' memory_. publish-Publishes cs ks q' (omega (arith, same)) apart.1 (λ j more.
          subst (λ s. IsOurs ρ.flow_id s j) (sym memory_) (ours j (ground (arith, more)))))

published-queues : (r : Option Repository) (x : Queues × Option FlowError) → (published r x).0 ≡ x.0
unfolding published
published-queues r (q, none) = refl
published-queues r (q, some e) = refl

-- What an emission does to the queues: behind the items that it adds, each with a reservation of its
-- own that is new, the reservations that are held are the ones that were held before.
pub record Accounts (q after : Queues) : Type 0 where
  pub pushed : List WorkItem
  pub queue : after.pending ≡ q.pending ++ pushed
  pub counted : after.emitted ≡ q.emitted + length pushed
  pub each : length (handles pushed) ≡ length pushed
  pub apart : DistinctHandles (handles pushed)
  pub held_then :
      (j : ℕ) → is_held_at after.memory j ≡ (is_held_at q.memory j || among (handles pushed) j)
  pub fresh : (j : ℕ) → (is_held_at q.memory j && among (handles pushed) j) ≡ false

nothing_made :
    (q after : Queues)
    → after.pending ≡ q.pending
    → after.emitted ≡ q.emitted
    → ((j : ℕ) → is_held_at after.memory j ≡ is_held_at q.memory j)
    → Accounts q after
nothing_made q after queue_ counted_ same = record {
  pushed = [];
  queue = rw (append-nil q.pending) queue_;
  counted = omega (arith, counted_);
  each = refl;
  apart = tt;
  held_then = λ j. ground (arith, same j);
  fresh = λ j. ground arith;
}

deliver-Accounts :
    (ρ : Router) (e : ProcessorEmission) (next : List ConnectionConfig) (q : Queues)
    (memory : System) (made : Reserved)
    → Reserves ρ.flow_id q.memory [] (memory, made)
    → ((ks : List ℕ) → made ≡ reservations ks → length ks ≡ length next)
    → Accounts q (deliver ρ e next (record q { memory = memory }) made).0
unfolding deliver
deliver-Accounts ρ e next q memory (reservations ks) (held, ours, kept, fresh, apart) as_many =
    let p =
      publish-Publishes ρ e next ks (record q { memory = memory }) (as_many ks refl) apart ours in
    rw (published-queues ρ.repository (publish ρ e next ks (record q { memory = memory })))
      (record {
        pushed = p.pushed;
        queue = p.queue;
        counted = p.counted;
        each = p.each;
        apart = p.apart;
        held_then = λ j. elim (Bool-cases (among ks j)) [
          | inl taken ↦ ground (arith, p.held_then j, held j, taken, fresh j taken refl)
          | inr other ↦ ground (arith, p.held_then j, held j, other)
        ];
        fresh = λ j. elim (Bool-cases (among (handles p.pushed) j)) [
          | inl pushed_ ↦ ground (arith, fresh j (p.made j pushed_) refl)
          | inr other ↦ ground (arith, other)
        ];
      })
deliver-Accounts ρ e next q memory (out_of_memory failure) h as_many =
    nothing_made q _ refl refl (λ j. ground (arith, h j))
deliver-Accounts ρ e next q memory (broken failure) h as_many =
    nothing_made q _ refl refl (λ j. ground (arith, h j))
deliver-Accounts ρ e next q memory unlimited h as_many =
    nothing_made q _ refl refl (λ j. ground (arith, h j))

abbrev next_of : Router → ProcessorEmission → List ConnectionConfig
next_of ρ e = outgoing ρ.connections e.processor_id e.relationship

-- Whatever routing answers, errors of the memory limiter and of the repository in the middle
-- included, the emission adds items behind those that wait and counts them, each item has a
-- reservation of its own that was not held before, and apart from those exactly the reservations
-- are held that were held before: none of the others that it made is left, and none that it did
-- not make is gone.
pub route_emission-Accounts :
    (ρ : Router) (e : ProcessorEmission) (q : Queues) → Accounts q (route_emission ρ e q).0
unfolding route_emission reserve_and_deliver
route_emission-Accounts ρ e q = elim (Bool-cases (is_empty (next_of ρ e))) [
  | inl nothing ↦ rw nothing (nothing_made q q refl refl (λ j. refl))
  | inr some_ ↦ elim (Bool-cases (over_capacity ρ (next_of ρ e) q.pending)) [
    | inl full ↦ rw some_ (rw full (nothing_made q q refl refl (λ j. refl)))
    | inr fits ↦ elim (Bool-cases (any (has_no_room ρ (next_of ρ e) q.pending) (next_of ρ e))) [
      | inl full ↦ rw (some_, fits, full) (nothing_made q q refl refl (λ j. refl))
      | inr room ↦
          let bytes = estimated_size ρ.sizes e.packet in
          let n = length (next_of ρ e) in
          rw (some_, fits, room)
            (deliver-Accounts ρ e (next_of ρ e) q (reserve_branches ρ bytes q.memory [] n).0
              (reserve_branches ρ bytes q.memory [] n).1
              (reserve_branches-Reserves ρ bytes q.memory [] n tt
                (λ j h. absurd (ground (arith, h))))
              (λ ks made. omega (arith, length-reserve_branches ρ bytes q.memory [] n ks made)))
    ]
  ]
]

-- ===== src/Executor/Routing/Memory.antt =====
-- crates/jaiba-runtime/src/engine/executor/routing.rs: the permits of the memory limiters.
use jaiva.Prelude.{
  String, ℕ, zero, suc, ◌≡◌, refl, Option, none, some, List, [], ◌∷◌, ◌++◌, inl, inr, Bool-cases,
  is_empty, any, length,
}
use jaiva.Config.{ConnectionConfig}
use jaiva.Error.{FlowError, Result, ok, err}
use jaiva.Packet.{estimated_size}
use jaiva.Limiter.{System, step, try_reserve, drop, Reply, granted, queued, done, refused, no_such}
use jaiva.Limiter.Invariant.{IsConserved, step-IsConserved}
use jaiva.Executor.Routing.{
  Router, ProcessorEmission, Queues, Reserved, reservations, out_of_memory, broken, unlimited,
  drop_all, on_reply, reserve_branches, publish, push, on_enqueued, Repository, enqueued, published,
  deliver, reserve_and_deliver, outgoing, over_capacity, has_no_room, route_emission,
}

drop_all-IsConserved : (s : System) (ks : List ℕ) → IsConserved s → IsConserved (drop_all s ks)
unfolding drop_all
drop_all-IsConserved s [] v = v
drop_all-IsConserved s (k ∷ ks) v =
    drop_all-IsConserved (step s (drop k)).0 ks (step-IsConserved s (drop k) v)

on_reply-IsConserved :
    (next : ℕ → System × Reserved) (s : System) (made : List ℕ) (reply : Reply)
    → IsConserved s
    → ((k : ℕ) → IsConserved (next k).0)
    → IsConserved (on_reply next s made reply).0
unfolding on_reply
on_reply-IsConserved next s made (granted k) v h = h k
on_reply-IsConserved next s made (refused e) v h = drop_all-IsConserved s made v
on_reply-IsConserved next s made (queued k) v h = drop_all-IsConserved s made v
on_reply-IsConserved next s made done v h = drop_all-IsConserved s made v
on_reply-IsConserved next s made no_such v h = drop_all-IsConserved s made v

reserve_branches-IsConserved :
    (ρ : Router) (bytes : ℕ) (s : System) (made : List ℕ) (n : ℕ)
    → IsConserved s
    → IsConserved (reserve_branches ρ bytes s made n).0
unfolding reserve_branches
reserve_branches-IsConserved ρ bytes s made zero v = v
reserve_branches-IsConserved ρ bytes s made (suc n) v =
    let w = step-IsConserved s (try_reserve ρ.flow_id bytes) v in
    on_reply-IsConserved _ (step s (try_reserve ρ.flow_id bytes)).0 made
      (step s (try_reserve ρ.flow_id bytes)).1 w
      (λ k.
        reserve_branches-IsConserved ρ bytes (step s (try_reserve ρ.flow_id bytes)).0
          (made ++ k ∷ []) n w)

on_enqueued-IsConserved :
    (next : Queues → Queues × Option FlowError) (ρ : Router) (e : ProcessorEmission)
    (c : ConnectionConfig) (k : ℕ) (ks : List ℕ) (q : Queues) (made : Result (Option String))
    → ((q' : Queues) → IsConserved q'.memory → IsConserved (next q').0.memory)
    → IsConserved q.memory
    → IsConserved (on_enqueued next ρ e c k ks q made).0.memory
unfolding on_enqueued push
on_enqueued-IsConserved next ρ e c k ks q (ok id) h v = h (push ρ e c k id q) v
on_enqueued-IsConserved next ρ e c k ks q (err failure) h v =
    drop_all-IsConserved q.memory (k ∷ ks) v

publish-IsConserved :
    (ρ : Router) (e : ProcessorEmission) (cs : List ConnectionConfig) (ks : List ℕ) (q : Queues)
    → IsConserved q.memory
    → IsConserved (publish ρ e cs ks q).0.memory
unfolding publish
publish-IsConserved ρ e [] ks q v = v
publish-IsConserved ρ e (c ∷ cs) [] q v = v
publish-IsConserved ρ e (c ∷ cs) (k ∷ ks) q v =
    on_enqueued-IsConserved (publish ρ e cs ks) ρ e c k ks q (enqueued ρ.repository c)
      (publish-IsConserved ρ e cs ks) v

published-memory :
    (r : Option Repository) (p : Queues × Option FlowError) → (published r p).0.memory ≡ p.0.memory
unfolding published
published-memory r (q, none) = refl
published-memory r (q, some e) = refl

deliver-IsConserved :
    (ρ : Router) (e : ProcessorEmission) (next : List ConnectionConfig) (q : Queues)
    (made : Reserved)
    → IsConserved q.memory
    → IsConserved (deliver ρ e next q made).0.memory
unfolding deliver
deliver-IsConserved ρ e next q (reservations ks) v =
    rw (published-memory ρ.repository (publish ρ e next ks q)) (publish-IsConserved ρ e next ks q v)
deliver-IsConserved ρ e next q (out_of_memory failure) v = v
deliver-IsConserved ρ e next q (broken failure) v = v
deliver-IsConserved ρ e next q unlimited v = v

abbrev next_of : Router → ProcessorEmission → List ConnectionConfig
next_of ρ e = outgoing ρ.connections e.processor_id e.relationship

-- Whatever routing answers, errors of the repository in the middle included, no permit of the
-- memory limiters is lost or made up.
pub route_emission-IsConserved :
    (ρ : Router) (e : ProcessorEmission) (q : Queues)
    → IsConserved q.memory
    → IsConserved (route_emission ρ e q).0.memory
unfolding route_emission reserve_and_deliver
route_emission-IsConserved ρ e q v = elim (Bool-cases (is_empty (next_of ρ e))) [
  | inl nothing ↦ rw nothing v
  | inr some_ ↦ elim (Bool-cases (over_capacity ρ (next_of ρ e) q.pending)) [
    | inl full ↦ rw (some_, full) v
    | inr fits ↦ elim (Bool-cases (any (has_no_room ρ (next_of ρ e) q.pending) (next_of ρ e))) [
      | inl full ↦ rw (some_, fits, full) v
      | inr room ↦
          rw (some_, fits, room)
            (deliver-IsConserved ρ e (next_of ρ e) _ _ (
              reserve_branches-IsConserved ρ (estimated_size ρ.sizes e.packet) q.memory []
                (length (next_of ρ e)) v))
    ]
  ]
]

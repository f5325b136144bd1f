-- ===== src/Executor/Routing/Publishing.antt =====
-- crates/jaiba-runtime/src/engine/executor/routing.rs: what publishing adds to the queues.
use jaiva.Prelude.{
  String, ℕ, zero, suc, ◌+◌, ◌≡◌, refl, Bool, Option, none, some, List, [], ◌∷◌, ◌++◌, arith,
  count_if, count_if-append, if◌then◌else◌, length, length-append,
}
use jaiva.Config.{ConnectionConfig}
use jaiva.Error.{FlowError, Result, ok, err}
use jaiva.Limiter.{System, step, try_reserve, Reply, granted, queued, done, refused, no_such}
use jaiva.Executor.{WorkItem}
use jaiva.Executor.Routing.{
  Router, ProcessorEmission, Queues, Reserved, reservations, out_of_memory, broken, unlimited,
  routed, answer, refusal, on_reply, reserve_branches, work_item, push, on_enqueued, enqueued,
  publish, Repository, published, deliver,
}

-- There is a reservation for each branch.
length-on_reply :
    (next : ℕ → System × Reserved) (s : System) (made : List ℕ) (reply : Reply) (ks : List ℕ)
    (n : ℕ)
    → ((k : ℕ) → (next k).1 ≡ reservations ks → length ks ≡ n)
    → (on_reply next s made reply).1 ≡ reservations ks
    → length ks ≡ n
unfolding on_reply refusal
length-on_reply next s made (granted k) ks n h e = h k e
length-on_reply next s made (refused failure) ks n h e = absurd (ground (arith, e))
length-on_reply next s made (queued k) ks n h e = absurd (ground (arith, e))
length-on_reply next s made done ks n h e = absurd (ground (arith, e))
length-on_reply next s made no_such ks n h e = absurd (ground (arith, e))

pub length-reserve_branches :
    (ρ : Router) (bytes : ℕ) (s : System) (made : List ℕ) (n : ℕ) (ks : List ℕ)
    → (reserve_branches ρ bytes s made n).1 ≡ reservations ks
    → length ks ≡ length made + n
unfolding reserve_branches
length-reserve_branches ρ bytes s made zero ks e = ground (arith, e)
length-reserve_branches ρ bytes s made (suc n) ks e =
    length-on_reply _ (step s (try_reserve ρ.flow_id bytes)).0 made
      (step s (try_reserve ρ.flow_id bytes)).1 ks (length made + suc n)
      (λ k h. omega (
        arith,
        length-append made (k ∷ []),
        length-reserve_branches ρ bytes (step s (try_reserve ρ.flow_id bytes)).0 (made ++ k ∷ []) n
            ks h,
      ))
      e

-- A test of items that on new work looks at the connection only.
module _ (ρ : Router) (e : ProcessorEmission) (p : WorkItem → Bool) (f : ConnectionConfig → Bool)
    (agrees : (c : ConnectionConfig) (k : ℕ) (id : Option String)
      → p (work_item ρ e c k id) ≡ f c) where
  on_enqueued-count :
      (next : Queues → Queues × Option FlowError) (c : ConnectionConfig) (k : ℕ) (ks : List ℕ)
      (q : Queues) (made : Result (Option String)) (n : ℕ)
      → ((q' : Queues)
          → (next q').1 ≡ none
          → count_if p (next q').0.pending ≡ count_if p q'.pending + n)
      → (on_enqueued next ρ e c k ks q made).1 ≡ none
      → count_if p (on_enqueued next ρ e c k ks q made).0.pending
        ≡ count_if p q.pending + ((if f c then 1 else 0) + n)
  unfolding on_enqueued push
  on_enqueued-count next c k ks q (ok id) n h e' = ground (
    arith,
    h (push ρ e c k id q) e',
    agrees c k id,
    count_if-append p q.pending (work_item ρ e c k id ∷ []),
  )
  on_enqueued-count next c k ks q (err failure) n h e' = absurd (ground (arith, e'))

  pub publish-count :
      (cs : List ConnectionConfig) (ks : List ℕ) (q : Queues)
      → length ks ≡ length cs
      → (publish ρ e cs ks q).1 ≡ none
      → count_if p (publish ρ e cs ks q).0.pending ≡ count_if p q.pending + count_if f cs
  unfolding publish
  publish-count [] ks q same e' = omega arith
  publish-count (c ∷ cs) [] q same e' = absurd (omega (arith, same))
  publish-count (c ∷ cs) (k ∷ ks) q same e' =
      let made =
        on_enqueued-count (publish ρ e cs ks) c k ks q (enqueued ρ.repository c) (count_if f cs)
          (λ q' h. publish-count cs ks q' (omega (arith, same)) h) e' in
      ground (arith, made)

  published-count :
      (r : Option Repository) (x : Queues × Option FlowError) (n : ℕ)
      → (x.1 ≡ none → count_if p x.0.pending ≡ n)
      → (published r x).1 ≡ answer routed
      → count_if p (published r x).0.pending ≡ n
  unfolding published
  published-count r (q, none) n h e' = h refl
  published-count r (q, some failure) n h e' = absurd (ground (arith, e'))

  pub deliver-count :
      (next : List ConnectionConfig) (q : Queues) (made : Reserved)
      → ((ks : List ℕ) → made ≡ reservations ks → length ks ≡ length next)
      → (deliver ρ e next q made).1 ≡ answer routed
      → count_if p (deliver ρ e next q made).0.pending ≡ count_if p q.pending + count_if f next
  unfolding deliver
  deliver-count next q (reservations ks) same e' =
      published-count ρ.repository (publish ρ e next ks q) (count_if p q.pending + count_if f next)
        (publish-count next ks q (same ks refl)) e'
  deliver-count next q (out_of_memory failure) same e' = absurd (ground (arith, e'))
  deliver-count next q (broken failure) same e' = absurd (ground (arith, e'))
  deliver-count next q unlimited same e' = absurd (ground (arith, e'))

-- ===== src/Limiter/Invariant.antt =====
-- crates/jaiba-runtime/src/engine/memory.rs: the balance of permits, under requests, grants,
-- cancellations and drops.
use jaiva.Prelude.{
  ℕ, ◌+◌, ◌-◌, ◌*◌, ◌≤◌, String, ◌≡◌, refl, subst, inl, inr, true, false, ◌&&◌, ◌||◌, not, Option,
  none, some, List, [], ◌∷◌, ◌++◌, arith, if◌then◌else◌, ltb, leb, str_eq_refl, get_elem?, set,
  sum_of, sum_of-append, sum_of-set, get, insert, Bool-cases, All, zero, suc,
}
use mathlib.Core.Option.{some-injective}
use jaiva.Error.{FlowError}
use jaiva.Limiter.{
  Ticket, Phase, waiting, half, blocked, held, gone, MemoryLimiter, System, Reply, Action,
  try_reserve, reserve, grant_flow, grant_process, drop, take_now, request, notify_and_wait,
  acquire_flow, acquire_process, release, found, check, check_now, step, run, flow_is_awaited,
  process_is_awaited, units_of, unit_bytes, reserved, take_units, pressed, ticket, hold, give_back,
}
use jaiva.Limiter.Sums.{
  has_units, is_held, flow_units, live_bytes, shared_units, AllBalanced, AllBalanced-append,
  AllBalanced-set, AllBalanced-insert,
}

abbrev pub Fits : Ticket → Type 0
Fits t = t.bytes ≤ t.units * unit_bytes

units_of-fits : (bytes : ℕ) → reserved bytes ≤ units_of bytes * unit_bytes
units_of-fits bytes = omega arith

append-Fits : (ts : List Ticket) (t : Ticket) → All Fits ts → Fits t → All Fits (ts ++ t ∷ [])
append-Fits [] t h fits = (fits, tt)
append-Fits (u ∷ ts) t h fits = (h.0, append-Fits ts t h.1 fits)

set-Fits :
    (ts : List Ticket) (k : ℕ) (t u : Ticket)
    → All Fits ts
    → get_elem? ts k ≡ some t
    → (Fits t → Fits u)
    → All Fits (set ts k u)
set-Fits [] k t u h at f = tt
set-Fits (x ∷ ts) zero t u h at f = (f (subst Fits (some-injective x t at) h.0), h.1)
set-Fits (x ∷ ts) (suc k) t u h at f = (h.0, set-Fits ts k t u h.1 at f)

-- Each flow's permits are free or with its tickets, its metric counts its reservations, and the
-- process's permits are free or with reservations that share them. A ticket's bytes fit its units.
abbrev pub IsConserved : System → Type 0
IsConserved s =
    AllBalanced s.limiters s.tickets
    × (s.shared_available + sum_of shared_units s.tickets ≡ s.shared_total)
    × All Fits s.tickets

data Keeps (r : System × Reply) : Type 0 where
  keeps : IsConserved r.0 → Keeps r

-- A flow that only counts another refusal.
pressed-AllBalanced :
    (s : System) (owner : String) (l : MemoryLimiter)
    → IsConserved s
    → get s.limiters owner ≡ some l
    → AllBalanced (insert s.limiters owner (pressed l)) s.tickets
pressed-AllBalanced s owner l v e =
    AllBalanced-insert s.limiters s.tickets s.tickets owner (pressed l) v.0 (v.0 owner l e)
      (λ o ne. (refl, refl))

take_now-IsConserved :
    (s : System) (owner : String) (l : MemoryLimiter) (bytes : ℕ) (refusal : Option FlowError)
    → IsConserved s
    → get s.limiters owner ≡ some l
    → Keeps (take_now s owner l bytes refusal)
unfolding take_now
take_now-IsConserved s owner l bytes (some error) v e = keeps v
take_now-IsConserved s owner l bytes none v e =
    elim (Bool-cases (flow_is_awaited s owner || ltb l.available (units_of bytes))) [
      | inl short ↦ rw short (keeps (pressed-AllBalanced s owner l v e, v.1, v.2))
      | inr enough ↦
          elim (Bool-cases
            (l.shares && (process_is_awaited s || ltb s.shared_available (units_of bytes)))) [
              | inl short ↦ rw (enough, short) (keeps (pressed-AllBalanced s owner l v e, v.1, v.2))
              | inr room ↦
                  rw (enough, room)
                    (keeps (
                      AllBalanced-append s.limiters s.tickets (ticket owner l bytes held)
                          (record l {
                            available = l.available - units_of bytes;
                            used = l.used + reserved bytes;
                          })
                          v.0 (ground (arith, v.0 owner l e, str_eq_refl owner, enough))
                          (ground (arith, v.0 owner l e, str_eq_refl owner)),
                      ground (
                        arith,
                        v.1,
                        room,
                        sum_of-append shared_units s.tickets (ticket owner l bytes held ∷ []),
                      ),
                      append-Fits s.tickets (ticket owner l bytes held) v.2 (units_of-fits bytes),
                    ))
            ]
    ]

notify_and_wait-IsConserved :
    (s : System) (owner : String) (l : MemoryLimiter) (bytes : ℕ) (notify : Option FlowError)
    → IsConserved s
    → get s.limiters owner ≡ some l
    → Keeps (notify_and_wait s owner l bytes notify)
unfolding notify_and_wait
notify_and_wait-IsConserved s owner l bytes (some error) v e =
    keeps (pressed-AllBalanced s owner l v e, v.1, v.2)
notify_and_wait-IsConserved s owner l bytes none v e = keeps (
  AllBalanced-append s.limiters s.tickets (ticket owner l bytes waiting) (pressed l) v.0
      (ground (arith, v.0 owner l e)) (ground (arith, v.0 owner l e)),
  ground (arith, v.1, sum_of-append shared_units s.tickets (ticket owner l bytes waiting ∷ [])),
  append-Fits s.tickets (ticket owner l bytes waiting) v.2 (units_of-fits bytes),
)

request-IsConserved :
    (s : System) (owner : String) (l : MemoryLimiter) (bytes : ℕ)
    (notify refusal : Option FlowError)
    → IsConserved s
    → get s.limiters owner ≡ some l
    → Keeps (request s owner l bytes notify refusal)
unfolding request
request-IsConserved s owner l bytes notify (some error) v e = keeps v
request-IsConserved s owner l bytes notify none v e =
    elim (Bool-cases (not (flow_is_awaited s owner) && leb (units_of bytes) l.available)) [
      | inl enough ↦ rw enough (
          keeps (
            AllBalanced-append s.limiters s.tickets (ticket owner l bytes half)
                (take_units l (units_of bytes)) v.0
                (ground (arith, v.0 owner l e, str_eq_refl owner, enough))
                (ground (arith, v.0 owner l e)),
            ground
                (arith, v.1, sum_of-append shared_units s.tickets (ticket owner l bytes half ∷ [])),
            append-Fits s.tickets (ticket owner l bytes half) v.2 (units_of-fits bytes),
          ))
      | inr short ↦ rw short (notify_and_wait-IsConserved s owner l bytes notify v e)
    ]

-- The ticket `k` moves to another phase, its flow to `l`, and the shared permits with them.
moved-Keeps :
    (s : System) (k : ℕ) (t : Ticket) (l : MemoryLimiter) (phase : Phase) (shared : ℕ)
    → IsConserved s
    → get_elem? s.tickets k ≡ some t
    → ((a : ℕ)
        → a + flow_units t.owner t
          ≡ sum_of (flow_units t.owner) s.tickets + flow_units t.owner (record t { phase = phase })
        → l.available + a ≡ l.total_units)
    → ((a : ℕ)
        → a + live_bytes t.owner t
          ≡ sum_of (live_bytes t.owner) s.tickets + live_bytes t.owner (record t { phase = phase })
        → l.used ≡ a)
    → ((a : ℕ)
        → a + shared_units t
          ≡ sum_of shared_units s.tickets + shared_units (record t { phase = phase })
        → shared + a ≡ s.shared_total)
    → IsConserved (record s {
      limiters = insert s.limiters t.owner l;
      shared_available = shared;
      tickets = set s.tickets k (record t { phase = phase });
    })
moved-Keeps s k t l phase shared v at e f g = (
  AllBalanced-set s.limiters s.tickets k t (record t { phase = phase }) l v.0 at refl e f,
  g _ (sum_of-set shared_units s.tickets k (record t { phase = phase }) t at),
  set-Fits s.tickets k t (record t { phase = phase }) v.2 at (λ fits. fits),
)

hold-IsConserved :
    (s : System) (k : ℕ) (t : Ticket) (l : MemoryLimiter)
    → IsConserved s
    → get_elem? s.tickets k ≡ some t
    → get s.limiters t.owner ≡ some l
    → has_units t.phase ≡ true
    → is_held t.phase ≡ false
    → (t.shares && ltb s.shared_available t.units) ≡ false
    → IsConserved (hold s k t l)
hold-IsConserved s k t l v at e has new room =
    moved-Keeps s k t (record l { used = l.used + t.bytes }) held
      (if t.shares then s.shared_available - t.units else s.shared_available) v at
      (λ a h. ground (arith, v.0 t.owner l e, str_eq_refl t.owner, has, h))
      (λ a h. ground (arith, v.0 t.owner l e, str_eq_refl t.owner, new, h))
      (λ a h. ground (arith, v.1, new, room, h))

acquire_flow-Keeps :
    (phase : Phase) (s : System) (k : ℕ) (t : Ticket) (l : MemoryLimiter)
    → t.phase ≡ phase
    → IsConserved s
    → get_elem? s.tickets k ≡ some t
    → get s.limiters t.owner ≡ some l
    → Keeps (acquire_flow phase s k t l)
unfolding acquire_flow
acquire_flow-Keeps half s k t l p v at e = keeps v
acquire_flow-Keeps blocked s k t l p v at e = keeps v
acquire_flow-Keeps held s k t l p v at e = keeps v
acquire_flow-Keeps gone s k t l p v at e = keeps v
acquire_flow-Keeps waiting s k t l p v at e = elim (Bool-cases (leb t.units l.available)) [
  | inl enough ↦ rw enough (
      keeps (
        moved-Keeps s k t (take_units l t.units) half s.shared_available v at
          (λ a h. ground (arith, v.0 t.owner l e, str_eq_refl t.owner, p, enough, h))
          (λ a h. ground (arith, v.0 t.owner l e, p, h)) (λ a h. ground (arith, v.1, p, h))))
  | inr short ↦ rw short (keeps v)
]

acquire_process-Keeps :
    (phase : Phase) (s : System) (k : ℕ) (t : Ticket) (l : MemoryLimiter)
    → t.phase ≡ phase
    → IsConserved s
    → get_elem? s.tickets k ≡ some t
    → get s.limiters t.owner ≡ some l
    → Keeps (acquire_process phase s k t l)
unfolding acquire_process
acquire_process-Keeps waiting s k t l p v at e = keeps v
acquire_process-Keeps held s k t l p v at e = keeps v
acquire_process-Keeps gone s k t l p v at e = keeps v
acquire_process-Keeps half s k t l p v at e =
    elim (Bool-cases (t.shares && (process_is_awaited s || ltb s.shared_available t.units))) [
      | inl short ↦ rw short (
          keeps (
            moved-Keeps s k t (pressed l) blocked s.shared_available v at
              (λ a h. ground (arith, v.0 t.owner l e, p, h))
              (λ a h. ground (arith, v.0 t.owner l e, p, h)) (λ a h. ground (arith, v.1, p, h))))
      | inr room ↦
          rw room
            (keeps (hold-IsConserved s k t l v at e (rw p refl) (rw p refl) (ground (arith, room))))
    ]
acquire_process-Keeps blocked s k t l p v at e =
    elim (Bool-cases (t.shares && ltb s.shared_available t.units)) [
      | inl short ↦ rw short (keeps v)
      | inr room ↦ rw room (keeps (hold-IsConserved s k t l v at e (rw p refl) (rw p refl) room))
    ]

give_back-IsConserved :
    (s : System) (k : ℕ) (t : Ticket) (l : MemoryLimiter)
    → IsConserved s
    → get_elem? s.tickets k ≡ some t
    → get s.limiters t.owner ≡ some l
    → has_units t.phase ≡ true
    → is_held t.phase ≡ false
    → IsConserved (give_back s k t l)
give_back-IsConserved s k t l v at e has new =
    moved-Keeps s k t (record l { available = l.available + t.units }) gone s.shared_available v at
      (λ a h. ground (arith, v.0 t.owner l e, str_eq_refl t.owner, has, h))
      (λ a h. ground (arith, v.0 t.owner l e, new, h)) (λ a h. ground (arith, v.1, new, h))

-- A ticket that had nothing goes.
unqueue-IsConserved :
    (s : System) (k : ℕ) (t : Ticket)
    → t.phase ≡ waiting
    → IsConserved s
    → get_elem? s.tickets k ≡ some t
    → IsConserved (record s { tickets = set s.tickets k (record t { phase = gone }) })
unqueue-IsConserved s k t p v at = (
  λ owner l e. (
    ground (
      arith,
      v.0 owner l e,
      p,
      sum_of-set (flow_units owner) s.tickets k (record t { phase = gone }) t at,
    ),
    ground (
      arith,
      v.0 owner l e,
      p,
      sum_of-set (live_bytes owner) s.tickets k (record t { phase = gone }) t at,
    ),
  ),
  ground (arith, v.1, p, sum_of-set shared_units s.tickets k (record t { phase = gone }) t at),
  set-Fits s.tickets k t (record t { phase = gone }) v.2 at (λ fits. fits),
)

release-Keeps :
    (phase : Phase) (s : System) (k : ℕ) (t : Ticket) (l : MemoryLimiter)
    → t.phase ≡ phase
    → IsConserved s
    → get_elem? s.tickets k ≡ some t
    → get s.limiters t.owner ≡ some l
    → Keeps (release phase s k t l)
unfolding release
release-Keeps waiting s k t l p v at e = keeps (unqueue-IsConserved s k t p v at)
release-Keeps half s k t l p v at e =
    keeps (give_back-IsConserved s k t l v at e (rw p refl) (rw p refl))
release-Keeps blocked s k t l p v at e =
    keeps (give_back-IsConserved s k t l v at e (rw p refl) (rw p refl))
release-Keeps held s k t l p v at e = keeps (
    moved-Keeps s k t (record l { available = l.available + t.units; used = l.used - t.bytes }) gone
      (if t.shares then s.shared_available + t.units else s.shared_available) v at
      (λ a h. ground (arith, v.0 t.owner l e, str_eq_refl t.owner, p, h))
      (λ a h. ground (arith, v.0 t.owner l e, str_eq_refl t.owner, p, h))
      (λ a h. ground (arith, v.1, p, h)))
release-Keeps gone s k t l p v at e = keeps v

found-Keeps :
    {A : Type 0} (s : System) (o : Option A) (f : A → System × Reply)
    → IsConserved s
    → ((x : A) → o ≡ some x → Keeps (f x))
    → Keeps (found s o f)
found-Keeps s none f v h = keeps v
found-Keeps s (some x) f v h = h x refl

step-Keeps : (s : System) (a : Action) → IsConserved s → Keeps (step s a)
unfolding step
step-Keeps s (try_reserve owner bytes) v =
    found-Keeps s (get s.limiters owner) _ v
      (λ l e. take_now-IsConserved s owner l bytes (check_now l bytes) v e)
step-Keeps s (reserve owner bytes notify) v =
    found-Keeps s (get s.limiters owner) _ v
      (λ l e. request-IsConserved s owner l bytes notify (check l bytes) v e)
step-Keeps s (grant_flow k) v = found-Keeps s (get_elem? s.tickets k) _ v (λ t at.
    found-Keeps s (get s.limiters t.owner) _ v
      (λ l e. acquire_flow-Keeps t.phase s k t l refl v at e))
step-Keeps s (grant_process k) v = found-Keeps s (get_elem? s.tickets k) _ v (λ t at.
    found-Keeps s (get s.limiters t.owner) _ v
      (λ l e. acquire_process-Keeps t.phase s k t l refl v at e))
step-Keeps s (drop k) v = found-Keeps s (get_elem? s.tickets k) _ v (λ t at.
    found-Keeps s (get s.limiters t.owner) _ v (λ l e. release-Keeps t.phase s k t l refl v at e))

pub step-IsConserved : (s : System) (a : Action) → IsConserved s → IsConserved (step s a).0
step-IsConserved s a v = elim (step-Keeps s a v) [ keeps w ↦ w ]

-- No permit is lost or made up, and the metric counts the reservations, after any requests,
-- grants, cancellations and drops, if it was so before them.
pub run-IsConserved :
    (s : System) (actions : List Action) → IsConserved s → IsConserved (run s actions)
unfolding run
run-IsConserved s [] v = v
run-IsConserved s (a ∷ rest) v = run-IsConserved (step s a).0 rest (step-IsConserved s a v)

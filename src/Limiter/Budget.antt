-- ===== src/Limiter/Budget.antt =====
-- crates/jaiba-runtime/src/engine/memory.rs: what the reservations of a run may hold.
use jaiva.Prelude.{
  ℕ, ◌+◌, ◌*◌, ◌≤◌, String, ◌≡◌, true, ◌&&◌, some, List, [], ◌∷◌, arith, if◌then◌else◌, max, All,
  sum_of, get, refl, ◌++◌, length, get_elem?, insert, get-insert, get-insert_self, str_eq_iff, ◌-◌,
  Option,
}
use jaiva.Limiter.{
  Ticket, MemoryLimiter, System, Action, try_reserve, drop, granted, held, ticket, reserved,
  units_of, take_now, check_now, release, step, unit_bytes, run, from_budget, process_budget,
  detect,
}
use jaiva.Limiter.Sums.{flow_units, live_bytes, shared_units, is_held}
use jaiva.Limiter.Invariant.{Fits, IsConserved, run-IsConserved}

-- The bytes of all reservations that count against the process.
abbrev pub shared_bytes : Ticket → ℕ
shared_bytes t = if t.shares && is_held t.phase then t.bytes else 0

flow_bytes-le :
    (owner : String) (ts : List Ticket)
    → All Fits ts
    → sum_of (live_bytes owner) ts ≤ sum_of (flow_units owner) ts * unit_bytes
flow_bytes-le owner [] h = omega arith
flow_bytes-le owner (t ∷ ts) h = ground (arith, h.0, flow_bytes-le owner ts h.1)

shared_bytes-le :
    (ts : List Ticket) → All Fits ts → sum_of shared_bytes ts ≤ sum_of shared_units ts * unit_bytes
shared_bytes-le [] h = omega arith
shared_bytes-le (t ∷ ts) h = ground (arith, h.0, shared_bytes-le ts h.1)

-- From a sound state on, whatever happens: what a flow has reserved is what its metric says and at
-- most its permits of 64 KiB, and what all flows have reserved of the process at most the process's.
pub run-budget :
    (s : System) (actions : List Action) (owner : String) (l : MemoryLimiter)
    → IsConserved s
    → get (run s actions).limiters owner ≡ some l
    → let after = run s actions in
      (l.used ≡ sum_of (live_bytes owner) after.tickets)
      × (l.used ≤ l.total_units * unit_bytes)
      × (sum_of shared_bytes after.tickets ≤ after.shared_total * unit_bytes)
run-budget s actions owner l v e =
    let w = run-IsConserved s actions v in
    let fits = flow_bytes-le owner (run s actions).tickets w.2 in
    let balance = w.0 owner l e in
    (
      balance.1,
      omega (arith, fits, balance.0, balance.1),
      omega (arith, w.1, shared_bytes-le (run s actions).tickets w.2),
    )

from_budget-units :
    (budget : ℕ) → (from_budget budget).total_units * unit_bytes ≤ max budget unit_bytes
unfolding from_budget
from_budget-units budget = omega arith

-- Every limiter that is detected shares the budget of the process, asks for 1 to 90 percent, and its
-- budget and its permits of 64 KiB are within the budget of the process, which is at least one
-- permit.
pub detect-budget :
    (available default_percent percent global : ℕ) (configured : Option ℕ) (l : MemoryLimiter)
    → process_budget available configured default_percent ≡ some global
    → detect percent available global ≡ some l
    → (l.shares ≡ true)
      × (1 ≤ percent)
      × (percent ≤ 90)
      × (unit_bytes ≤ global)
      × (l.budget_bytes ≤ global)
      × (l.total_units * unit_bytes ≤ global)
unfolding process_budget detect from_budget
detect-budget available default_percent percent global configured l p d = ground (arith, p, d)

get_elem?-append : (ts : List Ticket) (t : Ticket) → get_elem? (ts ++ t ∷ []) (length ts) ≡ some t
get_elem?-append [] t = refl
get_elem?-append (u ∷ ts) t = get_elem?-append ts t

abbrev charged : MemoryLimiter → ℕ → MemoryLimiter
charged l bytes = record l {
  available = l.available - units_of bytes;
  used = l.used + reserved bytes;
}

-- The state behind a grant.
abbrev taken : System → String → MemoryLimiter → ℕ → System
taken s owner l bytes = record s {
  limiters = insert s.limiters owner (charged l bytes);
  shared_available = if l.shares then s.shared_available - units_of bytes else s.shared_available;
  tickets = s.tickets ++ ticket owner l bytes held ∷ [];
}

granted-taken :
    (s : System) (owner : String) (l : MemoryLimiter) (bytes k : ℕ)
    → get s.limiters owner ≡ some l
    → (step s (try_reserve owner bytes)).1 ≡ granted k
    → ((step s (try_reserve owner bytes)).0 ≡ taken s owner l bytes)
      × (k ≡ length s.tickets)
      × (units_of bytes ≤ l.available)
      × (l.shares ≡ true → units_of bytes ≤ s.shared_available)
unfolding step take_now check_now
granted-taken s owner l bytes k e g = ground (arith, e)

restored :
    (l : MemoryLimiter) (units bytes : ℕ)
    → units ≤ l.available
    → record l { available = l.available - units + units; used = l.used + bytes - bytes } ≡ l
restored l units bytes enough =
    let free : l.available - units + units ≡ l.available = omega arith in
    let same : l.used + bytes - bytes ≡ l.used = omega arith in rw (free, same) refl

taken-drop :
    (s : System) (owner other : String) (l : MemoryLimiter) (bytes : ℕ)
    → get s.limiters owner ≡ some l
    → units_of bytes ≤ l.available
    → (l.shares ≡ true → units_of bytes ≤ s.shared_available)
    → let after = (step (taken s owner l bytes) (drop (length s.tickets))).0 in
      (get after.limiters other ≡ get s.limiters other)
      × (after.shared_available ≡ s.shared_available)
unfolding step release
taken-drop s owner other l bytes e enough room =
    let at = get_elem?-append s.tickets (ticket owner l bytes held) in
    let own = get-insert_self s.limiters owner (charged l bytes) in
    let back : get (insert (insert s.limiters owner (charged l bytes)) owner l) other
        ≡ get s.limiters other =
      ground (
        arith,
        e,
        str_eq_iff owner other,
        get-insert s.limiters owner other (charged l bytes),
        get-insert (insert s.limiters owner (charged l bytes)) owner other l,
      ) in
    rw (at, own)
      (rw (restored l (units_of bytes) (reserved bytes) enough) back, ground (arith, room))

-- A reservation that is granted and dropped leaves every limiter and the process's permits as they
-- were.
pub try_reserve-drop :
    (s : System) (owner other : String) (l : MemoryLimiter) (bytes k : ℕ)
    → get s.limiters owner ≡ some l
    → (step s (try_reserve owner bytes)).1 ≡ granted k
    → let after = (step (step s (try_reserve owner bytes)).0 (drop k)).0 in
      (get after.limiters other ≡ get s.limiters other)
      × (after.shared_available ≡ s.shared_available)
try_reserve-drop s owner other l bytes k e g =
    let h = granted-taken s owner l bytes k e g in
    rw (h.0, h.1) (taken-drop s owner other l bytes e h.2 h.3)

-- ===== src/Limiter.antt =====
-- crates/jaiba-runtime/src/engine/memory.rs: the byte budget of a flow's packets, under the budget
-- of the process that all flows share. A tokio semaphore is its number of free permits. Since
-- flows share one semaphore, the state is that of all limiters together, and a reservation is a
-- ticket of the table `tickets`: its place there is its handle. A call of `reserve` that must wait
-- is a ticket that has not all its permits yet, and each grant is a step of its own, in any order.
pub mod Sums
pub mod Invariant
pub mod Budget
mod Examples
use jaiva.Prelude.{
  ℕ, zero, suc, ◌+◌, ◌-◌, ◌*◌, ◌/◌, min, max, String, Bool, true, false, not, ◌&&◌, ◌||◌, Option,
  none, some, List, [], ◌∷◌, ◌++◌, ltb, leb, ◌==◌, if◌then◌else◌, str_eq, any, length, get_elem?,
  set, HashMap, get, insert, u32_max, u64_max, saturating_mul,
}
use jaiva.Error.{FlowError, packet_too_large, memory_capacity, configuration}

abbrev pub unit_bytes : ℕ
unit_bytes = 65536

-- `shares` says that `shared` is set; `used` and `backpressure` are the flow's metrics.
pub record MemoryLimiter : Type 0 where
  pub available : ℕ
  pub shares : Bool
  pub total_units : ℕ
  pub budget_bytes : ℕ
  pub used : ℕ
  pub backpressure : ℕ

unfoldable pub from_budget : ℕ → MemoryLimiter
from_budget budget_bytes =
    let total_units = min (max (budget_bytes / unit_bytes) 1) u32_max in
    record {
      available = total_units;
      shares = false;
      total_units = total_units;
      budget_bytes = budget_bytes;
      used = 0;
      backpressure = 0;
    }

-- The process budget that the first `detect` fixes: `JAIBA_MEMORY_MAX_BYTES`, or a share of the
-- detected memory. `configured` is that variable, read and parsed.
unfoldable pub process_budget : ℕ → Option ℕ → ℕ → Option ℕ
process_budget available configured default_percent =
    let bytes = elim configured as (λ _. ℕ) [
      | some value ↦ value
      | none ↦ saturating_mul u64_max available default_percent / 100
    ] in
    if ltb bytes unit_bytes || ltb u32_max (bytes / unit_bytes) then none else some bytes

-- `detect`, given the detected memory and the process budget.
unfoldable pub detect : ℕ → ℕ → ℕ → Option MemoryLimiter
unfolding from_budget
detect maximum_percent available global_bytes =
    if not (leb 1 maximum_percent && leb maximum_percent 90)
    then none
    else some
        (record (from_budget
          (min (saturating_mul u64_max available maximum_percent / 100) global_bytes)) {
            shares = true;
          })

pub data Phase : Type 0 where
  waiting half blocked held gone : Phase

-- A call of `reserve` or its reservation. `half` has the flow's permits and asks for the process's
-- next, `blocked` has asked and waits; a reservation that is `held` counts in the metrics.
pub record Ticket : Type 0 where
  pub owner : String
  pub bytes : ℕ
  pub units : ℕ
  pub shares : Bool
  pub phase : Phase

pub record System : Type 0 where
  pub limiters : HashMap MemoryLimiter
  pub shared_available : ℕ
  pub shared_total : ℕ
  pub tickets : List Ticket

abbrev pub reserved : ℕ → ℕ
reserved bytes = max bytes 1

-- `div_ceil(UNIT_BYTES)`
abbrev pub units_of : ℕ → ℕ
units_of bytes = (reserved bytes + (unit_bytes - 1)) / unit_bytes

-- The checks at the head of `reserve`.
unfoldable pub check : MemoryLimiter → ℕ → Option FlowError
check l bytes =
    if ltb l.budget_bytes (reserved bytes)
    then some (packet_too_large (reserved bytes) l.budget_bytes)
    else if ltb l.total_units (units_of bytes)
    then some (packet_too_large (reserved bytes) (l.total_units * unit_bytes))
    else none

-- The check at the head of `try_reserve`.
unfoldable pub check_now : MemoryLimiter → ℕ → Option FlowError
check_now l bytes =
    if ltb l.budget_bytes (reserved bytes) || ltb l.total_units (units_of bytes)
    then some (packet_too_large (reserved bytes) l.budget_bytes)
    else none

abbrev pub pressed : MemoryLimiter → MemoryLimiter
pressed l = record l { backpressure = l.backpressure + 1 }

abbrev pub take_units : MemoryLimiter → ℕ → MemoryLimiter
take_units l units = record l { available = l.available - units }

abbrev pub store : System → String → MemoryLimiter → System
store s owner l = record s { limiters = insert s.limiters owner l }

abbrev pub ticket : String → MemoryLimiter → ℕ → Phase → Ticket
ticket owner l bytes phase = record {
  owner = owner;
  bytes = reserved bytes;
  units = units_of bytes;
  shares = l.shares;
  phase = phase;
}

-- Whether a call waits at the semaphore of a flow, or at that of the process.
unfoldable pub waits_for_flow : String → Phase → String → Bool
waits_for_flow owner waiting flow = str_eq owner flow
waits_for_flow owner _ flow = false

unfoldable pub waits_for_process : Phase → Bool
waits_for_process blocked = true
waits_for_process _ = false

abbrev pub flow_is_awaited : System → String → Bool
flow_is_awaited s flow = any (λ t. waits_for_flow t.owner t.phase flow) s.tickets

abbrev pub process_is_awaited : System → Bool
process_is_awaited s = any (λ t. waits_for_process t.phase) s.tickets

pub data Reply : Type 0 where
  granted : ℕ → Reply
  queued : ℕ → Reply
  done : Reply
  refused : FlowError → Reply
  no_such : Reply

-- `try_reserve` behind its check: where the process has no room, the permits just taken from the
-- flow go back.
unfoldable pub take_now : System → String → MemoryLimiter → ℕ → Option FlowError → System × Reply
take_now s owner l bytes (some error) = (s, refused error)
take_now s owner l bytes none =
    let units = units_of bytes in
    let exhausted : System × Reply =
      (store s owner (pressed l), refused (memory_capacity (reserved bytes))) in
    if flow_is_awaited s owner || ltb l.available units
    then exhausted
    else if l.shares && (process_is_awaited s || ltb s.shared_available units)
    then exhausted
    else (
      record s {
        limiters =
            insert s.limiters owner
              (record l { available = l.available - units; used = l.used + reserved bytes });
        shared_available = if l.shares then s.shared_available - units else s.shared_available;
        tickets = s.tickets ++ ticket owner l bytes held ∷ [];
      },
      granted (length s.tickets),
    )

-- `notify` is what the domain memory answers under pressure; the call then waits.
unfoldable pub notify_and_wait :
    System → String → MemoryLimiter → ℕ → Option FlowError → System × Reply
notify_and_wait s owner l bytes (some error) = (store s owner (pressed l), refused error)
notify_and_wait s owner l bytes none = (
  record s {
    limiters = insert s.limiters owner (pressed l);
    tickets = s.tickets ++ ticket owner l bytes waiting ∷ [];
  },
  queued (length s.tickets),
)

-- `reserve` behind its checks, up to its first wait.
unfoldable pub request :
    System → String → MemoryLimiter → ℕ → Option FlowError → Option FlowError → System × Reply
unfolding notify_and_wait
request s owner l bytes notify (some error) = (s, refused error)
request s owner l bytes notify none =
    if not (flow_is_awaited s owner) && leb (units_of bytes) l.available
    then (
      record s {
        limiters = insert s.limiters owner (take_units l (units_of bytes));
        tickets = s.tickets ++ ticket owner l bytes half ∷ [];
      },
      queued (length s.tickets),
    )
    else notify_and_wait s owner l bytes notify

-- `acquire_many_owned` on the flow's semaphore comes back.
unfoldable pub acquire_flow : Phase → System → ℕ → Ticket → MemoryLimiter → System × Reply
acquire_flow waiting s k t l =
    if leb t.units l.available
    then (
      record s {
        limiters = insert s.limiters t.owner (take_units l t.units);
        tickets = set s.tickets k (record t { phase = half });
      },
      done,
    )
    else (s, no_such)
acquire_flow _ s k t l = (s, no_such)

abbrev hold : System → ℕ → Ticket → MemoryLimiter → System
hold s k t l = record s {
  limiters = insert s.limiters t.owner (record l { used = l.used + t.bytes });
  shared_available = if t.shares then s.shared_available - t.units else s.shared_available;
  tickets = set s.tickets k (record t { phase = held });
}

-- The second half of `reserve`: the process's permits, if the limiter shares them, and the metrics.
unfoldable pub acquire_process : Phase → System → ℕ → Ticket → MemoryLimiter → System × Reply
acquire_process half s k t l =
    if t.shares && (process_is_awaited s || ltb s.shared_available t.units)
    then (
      record s {
        limiters = insert s.limiters t.owner (pressed l);
        tickets = set s.tickets k (record t { phase = blocked });
      },
      queued k,
    )
    else (hold s k t l, granted k)
acquire_process blocked s k t l =
    if t.shares && ltb s.shared_available t.units then (s, no_such) else (hold s k t l, granted k)
acquire_process _ s k t l = (s, no_such)

abbrev give_back : System → ℕ → Ticket → MemoryLimiter → System
give_back s k t l = record s {
  limiters = insert s.limiters t.owner (record l { available = l.available + t.units });
  tickets = set s.tickets k (record t { phase = gone });
}

-- The last clone of a reservation is dropped, or the call of `reserve` is cancelled.
unfoldable pub release : Phase → System → ℕ → Ticket → MemoryLimiter → System × Reply
release waiting s k t l = (record s { tickets = set s.tickets k (record t { phase = gone }) }, done)
release half s k t l = (give_back s k t l, done)
release blocked s k t l = (give_back s k t l, done)
release held s k t l = (
  record s {
    limiters =
        insert s.limiters t.owner
          (record l { available = l.available + t.units; used = l.used - t.bytes });
    shared_available = if t.shares then s.shared_available + t.units else s.shared_available;
    tickets = set s.tickets k (record t { phase = gone });
  },
  done,
)
release gone s k t l = (s, no_such)

pub data Action : Type 0 where
  try_reserve : String → ℕ → Action
  reserve : String → ℕ → Option FlowError → Action
  grant_flow grant_process drop : ℕ → Action

abbrev pub found : {A : Type 0} → System → Option A → (A → System × Reply) → System × Reply
found s none f = (s, no_such)
found s (some x) f = f x

abbrev with_owner : System → String → (MemoryLimiter → System × Reply) → System × Reply
with_owner s owner f = found s (get s.limiters owner) f

abbrev with_ticket : System → ℕ → (Ticket → MemoryLimiter → System × Reply) → System × Reply
with_ticket s k f = found s (get_elem? s.tickets k) (λ t. with_owner s t.owner (f t))

unfoldable pub step : System → Action → System × Reply
step s (try_reserve owner bytes) =
    with_owner s owner (λ l. take_now s owner l bytes (check_now l bytes))
step s (reserve owner bytes notify) =
    with_owner s owner (λ l. request s owner l bytes notify (check l bytes))
step s (grant_flow k) = with_ticket s k (λ t. acquire_flow t.phase s k t)
step s (grant_process k) = with_ticket s k (λ t. acquire_process t.phase s k t)
step s (drop k) = with_ticket s k (λ t. release t.phase s k t)

unfoldable pub run : System → List Action → System
run s [] = s
run s (a ∷ as_) = run (step s a).0 as_

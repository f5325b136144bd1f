-- ===== src/Circuit.antt =====
-- crates/jaiba-runtime/src/engine/circuit.rs: a circuit breaker for each connection.
-- An `Instant` is a number of nanoseconds, and the clock's reading is an argument. The mutex makes
-- every method atomic, so a method takes the map of states and returns it.
pub mod Laws
pub mod Traces
mod Examples
use jaiva.Prelude.{
  ℕ, ◌+◌, ◌-◌, ◌*◌, String, ◌≡◌, Bool, true, false, not, ◌||◌, Option, none, some, List, [], ◌∷◌,
  ltb, leb, ◌==◌, if◌then◌else◌, is_some, count_if, HashMap, get, insert, values, or_insert,
  u32_max, saturating_add,
}

pub record CircuitBreakerConfig : Type 0 where
  pub enabled : Bool
  pub failure_threshold : ℕ
  pub open_seconds : ℕ
  pub half_open_requests : ℕ

pub record CircuitState : Type 0 where
  pub failures : ℕ
  pub opened_at : Option ℕ
  pub half_open_in_flight : ℕ

pub record CircuitBreakers : Type 0 where
  pub config : CircuitBreakerConfig
  pub states : HashMap CircuitState

pub data CircuitError : Type 0 where
  configuration : CircuitError
  circuit_open : String → CircuitError

pub data Made : Type 0 where
  made : CircuitBreakers → Made
  refused : CircuitError → Made

unfoldable pub new : CircuitBreakerConfig → Made
new config =
    if config.failure_threshold == 0 || config.open_seconds == 0 || config.half_open_requests == 0
    then refused configuration
    else made (record { config = config; states = [] })

abbrev pub nanos : ℕ → ℕ
nanos seconds = seconds * 1000000000

abbrev pub fresh : CircuitState
fresh = record { failures = 0; opened_at = none; half_open_in_flight = 0 }

-- `entry(connection).or_insert(CircuitState { .. })`
abbrev pub entry : HashMap CircuitState → String → CircuitState
entry states connection = or_insert (get states connection) fresh

-- The body of `permit` behind `entry`: `none` is `Ok(())`.
unfoldable pub admit :
    CircuitBreakerConfig → String → CircuitState → ℕ → CircuitState × Option CircuitError
admit config connection state now = elim state.opened_at [
  | none ↦ (state, none)
  | some opened_at ↦
      if ltb (now - opened_at) (nanos config.open_seconds)
      then (state, some (circuit_open connection))
      else if leb config.half_open_requests state.half_open_in_flight
      then (state, some (circuit_open connection))
      else (record state { half_open_in_flight = state.half_open_in_flight + 1 }, none)
]

unfoldable pub permit : CircuitBreakers → String → ℕ → CircuitBreakers × Option CircuitError
unfolding admit
permit b connection now =
    if not b.config.enabled
    then (b, none)
    else (let (state, answer) = admit b.config connection (entry b.states connection) now in
        (record b { states = insert b.states connection state }, answer))

unfoldable pub success : CircuitBreakers → String → CircuitBreakers
success b connection = elim (get b.states connection) [
  | none ↦ b
  | some _ ↦ record b { states = insert b.states connection fresh }
]

-- The body of `failure` behind `entry`.
unfoldable pub trip : CircuitBreakerConfig → CircuitState → ℕ → CircuitState
trip config state now =
    let failures = saturating_add u32_max state.failures 1 in
    if leb config.failure_threshold failures
    then record { failures = failures; opened_at = some now; half_open_in_flight = 0 }
    else record { failures = failures; opened_at = state.opened_at; half_open_in_flight = 0 }

unfoldable pub failure : CircuitBreakers → String → ℕ → CircuitBreakers
unfolding trip
failure b connection now = if not b.config.enabled then b else record b {
  states = insert b.states connection (trip b.config (entry b.states connection) now);
}

unfoldable pub open_count : CircuitBreakers → ℕ
open_count b = count_if (λ state. is_some state.opened_at) (values b.states)

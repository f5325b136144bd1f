-- ===== src/Circuit/Laws.antt =====
-- crates/jaiba-runtime/src/engine/circuit.rs: the invariant of a breaker, and what one call changes.
use jaiva.Prelude.{
  ℕ, ◌≤◌, ◌<◌, String, ◌≡◌, refl, ◌↔◌, inl, inr, none, some, arith, subst, str_eq, get, insert,
  get-insert, u32_max, Bool-cases, Option-cases, [],
}
use jaiva.Circuit.{
  CircuitBreakerConfig, CircuitState, CircuitBreakers, made, new, fresh, entry, admit, permit,
  success, trip, failure,
}

-- What `new` asks of a configuration, and the ranges of its `u32` fields.
pub record IsUsable (config : CircuitBreakerConfig) : Type 0 where
  pub threshold_pos : 0 < config.failure_threshold
  pub threshold_u32 : config.failure_threshold ≤ u32_max
  pub open_pos : 0 < config.open_seconds
  pub probes_pos : 0 < config.half_open_requests
  pub probes_u32 : config.half_open_requests ≤ u32_max

-- A state is open exactly when its failures reach the threshold; only an open state counts probes,
-- and it never counts more than allowed.
pub record IsSound (config : CircuitBreakerConfig) (state : CircuitState) : Type 0 where
  pub closed_below : state.opened_at ≡ none → state.failures < config.failure_threshold
  pub open_above : (at : ℕ) → state.opened_at ≡ some at → config.failure_threshold ≤ state.failures
  pub closed_idle : state.opened_at ≡ none → state.half_open_in_flight ≡ 0
  pub probes_bounded : state.half_open_in_flight ≤ config.half_open_requests
  pub failures_u32 : state.failures ≤ u32_max

pub record IsValid (b : CircuitBreakers) : Type 0 where
  pub usable : IsUsable b.config
  pub sound :
      (connection : String) (state : CircuitState)
      → get b.states connection ≡ some state
      → IsSound b.config state

pub fresh-IsSound : (config : CircuitBreakerConfig) → IsUsable config → IsSound config fresh
fresh-IsSound config u = record {
  closed_below = λ _. u.threshold_pos;
  open_above = λ at e. ground arith;
  closed_idle = λ _. refl;
  probes_bounded = omega arith;
  failures_u32 = omega arith;
}

pub admit-IsSound :
    (config : CircuitBreakerConfig) (connection : String) (state : CircuitState) (now : ℕ)
    → IsSound config state
    → IsSound config (admit config connection state now).0
unfolding admit
admit-IsSound config connection state now s = record {
  closed_below = λ e. ground (arith, s.closed_below);
  open_above = λ at e. ground (arith, s.open_above at);
  closed_idle = λ e. ground (arith, s.closed_idle);
  probes_bounded = ground (arith, s.probes_bounded);
  failures_u32 = ground (arith, s.failures_u32);
}

pub trip-IsSound :
    (config : CircuitBreakerConfig) (state : CircuitState) (now : ℕ)
    → IsUsable config
    → IsSound config state
    → IsSound config (trip config state now)
unfolding trip
trip-IsSound config state now u s = record {
  closed_below = λ e. ground (arith, s.closed_below);
  open_above = λ at e. ground (arith, s.open_above at);
  closed_idle = λ e. ground arith;
  probes_bounded = ground arith;
  failures_u32 = ground arith;
}

pub entry-IsSound :
    (b : CircuitBreakers) (connection : String)
    → IsValid b
    → IsSound b.config (entry b.states connection)
entry-IsSound b connection v = elim (Option-cases (get b.states connection)) [
  | inl e ↦ rw e (fresh-IsSound b.config v.usable)
  | inr (state, e) ↦ rw e (v.sound connection state e)
]

-- Storing a sound state keeps the breaker valid.
store-IsValid :
    (b : CircuitBreakers) (connection : String) (state : CircuitState)
    → IsValid b
    → IsSound b.config state
    → IsValid (record b { states = insert b.states connection state })
store-IsValid b connection state v s = record {
  usable = v.usable;
  sound = λ j t e. elim (Bool-cases (str_eq connection j)) [
    | inl same ↦ subst (IsSound b.config) (ground (arith, get-insert b.states connection j state)) s
    | inr other ↦ v.sound j t (ground (arith, get-insert b.states connection j state))
  ];
}

-- `new` accepts a configuration exactly when its three limits are positive.
new_accepts_iff :
    (config : CircuitBreakerConfig)
    → (new config ≡ made (record { config = config; states = [] })) ↔ (
        (0 < config.failure_threshold)
        × (0 < config.open_seconds)
        × (0 < config.half_open_requests))
unfolding new
new_accepts_iff config = ground arith

pub permit-IsValid :
    (b : CircuitBreakers) (connection : String) (now : ℕ)
    → IsValid b
    → IsValid (permit b connection now).0
unfolding permit
permit-IsValid b connection now v = elim (Bool-cases b.config.enabled) [
  | inl on ↦ simp on (
      store-IsValid b connection (admit b.config connection (entry b.states connection) now).0 v (
        admit-IsSound b.config connection (entry b.states connection) now
          (entry-IsSound b connection v)))
  | inr off ↦ simp off v
]

pub success-IsValid :
    (b : CircuitBreakers) (connection : String) → IsValid b → IsValid (success b connection)
unfolding success
success-IsValid b connection v = elim (Option-cases (get b.states connection)) [
  | inl e ↦ rw (e, success) v
  | inr (state, e) ↦
      rw (e, success) (store-IsValid b connection fresh v (fresh-IsSound b.config v.usable))
]

pub failure-IsValid :
    (b : CircuitBreakers) (connection : String) (now : ℕ)
    → IsValid b
    → IsValid (failure b connection now)
unfolding failure
failure-IsValid b connection now v = elim (Bool-cases b.config.enabled) [
  | inl on ↦ simp on (
      store-IsValid b connection (trip b.config (entry b.states connection) now) v (
        trip-IsSound b.config (entry b.states connection) now v.usable
          (entry-IsSound b connection v)))
  | inr off ↦ simp off v
]

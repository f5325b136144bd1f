-- ===== src/Circuit/Examples.antt =====
-- A circuit breaker of crates/jaiba-runtime/src/engine/circuit.rs through its states.
use jaiva.Prelude.{
  ℕ, ◌≤◌, ◌≡◌, refl, ◌↔◌, true, is_some, some, List, [], ◌∷◌, arith, get, insert, ◌+◌,
}
use jaiva.Circuit.{CircuitBreakerConfig, CircuitBreakers, entry, failure, open_count}
use jaiva.Circuit.Laws.{IsUsable, IsValid}
use jaiva.Circuit.Traces.{
  failures_at, call, run, grants, run-IsValid, opens_iff_threshold, grants_bounded,
  grants_after_wait,
}

abbrev config : CircuitBreakerConfig
config = record { enabled = true; failure_threshold = 2; open_seconds = 60; half_open_requests = 1 }

abbrev closed : CircuitBreakers
closed = record { config = config; states = [] }

-- Two failures, at the 5th and the 6th nanosecond.
abbrev opened : CircuitBreakers
opened = record closed {
  states = ("db", record { failures = 2; opened_at = some 6; half_open_in_flight = 0 }) ∷ [];
}

config-IsUsable : IsUsable config
config-IsUsable = omega arith

closed-IsValid : IsValid closed
unfolding get
closed-IsValid = record { usable = config-IsUsable; sound = λ c s e. ground arith }

two_failures : run closed (failures_at "db" (5 ∷ 6 ∷ [])) ≡ opened
unfolding run call failure get insert
two_failures = refl

counts_open : open_count opened ≡ 1
unfolding open_count
counts_open = refl

run-IsValid_example : IsValid (run closed (failures_at "db" (5 ∷ 6 ∷ [])))
run-IsValid_example = run-IsValid closed (failures_at "db" (5 ∷ 6 ∷ [])) closed-IsValid

opens_iff_threshold_example :
    (is_some (entry (run closed (failures_at "db" (5 ∷ 6 ∷ []))).states "db").opened_at ≡ true)
    ↔ (2 ≤ (entry closed.states "db").failures + 2)
opens_iff_threshold_example = opens_iff_threshold closed "db" (5 ∷ 6 ∷ []) closed-IsValid refl

abbrev late : List ℕ
late = 60000000006 ∷ 60000000007 ∷ 90000000000 ∷ []

grants_bounded_example : grants opened "db" (7 ∷ late) ≤ 1
unfolding get
grants_bounded_example = grants_bounded opened "db" (7 ∷ late) 6 refl refl

grants_after_wait_example : grants opened "db" late ≡ 1
unfolding get
grants_after_wait_example = grants_after_wait opened "db" late 6 refl refl (omega arith)

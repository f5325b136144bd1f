-- ===== src/Circuit/Traces.antt =====
-- crates/jaiba-runtime/src/engine/circuit.rs: what sequences of calls do, connection by connection.
use jaiva.Prelude.{
  ℕ, suc, ap, ◌+◌, ◌-◌, ◌≤◌, ◌<◌, String, ◌≡◌, refl, ◌≢◌, ◌↔◌, inl, inr, true, none, some, List, [],
  ◌∷◌, arith, if◌then◌else◌, get, length, All, ◌∙◌, min, saturating_add, is_some, Option-cases,
  get-insert_ne, get-insert_self, u32_max,
}
use jaiva.Circuit.{
  CircuitBreakerConfig, CircuitState, CircuitBreakers, circuit_open, nanos, fresh, entry, admit,
  permit, success, trip, failure,
}
use jaiva.Circuit.Laws.{
  IsSound, IsValid, entry-IsSound, permit-IsValid, success-IsValid, failure-IsValid,
}

-- The calls that the processors make.
pub data Call : Type 0 where
  permit_at : String → ℕ → Call
  succeeded : String → Call
  failed_at : String → ℕ → Call

abbrev pub target : Call → String
target (permit_at c _) = c
target (succeeded c) = c
target (failed_at c _) = c

unfoldable pub call : CircuitBreakers → Call → CircuitBreakers
call b (permit_at c now) = (permit b c now).0
call b (succeeded c) = success b c
call b (failed_at c now) = failure b c now

unfoldable pub run : CircuitBreakers → List Call → CircuitBreakers
run b [] = b
run b (c ∷ cs) = run (call b c) cs

-- Whatever the calls and their order, a valid breaker stays valid: a circuit is open exactly when
-- its failures have reached the threshold, and never counts more probes than allowed.
pub run-IsValid : (b : CircuitBreakers) (cs : List Call) → IsValid b → IsValid (run b cs)
unfolding run call
run-IsValid b [] v = v
run-IsValid b (permit_at c now ∷ cs) v =
    run-IsValid (permit b c now).0 cs (permit-IsValid b c now v)
run-IsValid b (succeeded c ∷ cs) v = run-IsValid (success b c) cs (success-IsValid b c v)
run-IsValid b (failed_at c now ∷ cs) v =
    run-IsValid (failure b c now) cs (failure-IsValid b c now v)

call-other :
    (b : CircuitBreakers) (c : Call) (j : String)
    → target c ≢ j
    → get (call b c).states j ≡ get b.states j
unfolding call permit success failure
call-other b (permit_at c now) j h =
    ground (arith, get-insert_ne b.states c j (admit b.config c (entry b.states c) now).0 h)
call-other b (succeeded c) j h = ground (arith, get-insert_ne b.states c j fresh h)
call-other b (failed_at c now) j h =
    ground (arith, get-insert_ne b.states c j (trip b.config (entry b.states c) now) h)

-- Calls about other connections leave the state of a connection as it was.
pub run-other :
    (b : CircuitBreakers) (cs : List Call) (j : String)
    → All (λ c. target c ≢ j) cs
    → get (run b cs).states j ≡ get b.states j
unfolding run
run-other b [] j h = refl
run-other b (c ∷ cs) j (h, hs) = run-other (call b c) cs j hs ∙ call-other b c j h

call-config : (b : CircuitBreakers) (c : Call) → (call b c).config ≡ b.config
unfolding call permit success failure
call-config b (permit_at c now) = ground arith
call-config b (succeeded c) = ground arith
call-config b (failed_at c now) = ground arith

-- What one failure does to the state of its connection.
failure-failures :
    (b : CircuitBreakers) (c : String) (now : ℕ)
    → b.config.enabled ≡ true
    → (entry (failure b c now).states c).failures
      ≡ saturating_add u32_max (entry b.states c).failures 1
unfolding failure trip
failure-failures b c now on =
    ground (arith, get-insert_self b.states c (trip b.config (entry b.states c) now))

abbrev pub failures_at : String → List ℕ → List Call
failures_at c [] = []
failures_at c (t ∷ ts) = failed_at c t ∷ failures_at c ts

run-failures :
    (b : CircuitBreakers) (c : String) (ts : List ℕ)
    → b.config.enabled ≡ true
    → (entry b.states c).failures ≤ u32_max
    → (entry (run b (failures_at c ts)).states c).failures
      ≡ min ((entry b.states c).failures + length ts) u32_max
unfolding run call
run-failures b c [] on h = omega arith
run-failures b c (t ∷ ts) on h =
    let e = failure-failures b c t on in
    let on' : (failure b c t).config.enabled ≡ true =
      ap (λ (k : CircuitBreakerConfig). k.enabled) (call-config b (failed_at c t)) ∙ on in
    omega (arith, e, run-failures (failure b c t) c ts on' (omega arith))

run-config : (b : CircuitBreakers) (cs : List Call) → (run b cs).config ≡ b.config
unfolding run
run-config b [] = refl
run-config b (c ∷ cs) = run-config (call b c) cs ∙ call-config b c

open_iff :
    (config : CircuitBreakerConfig) (state : CircuitState)
    → IsSound config state
    → (is_some state.opened_at ≡ true) ↔ (config.failure_threshold ≤ state.failures)
open_iff config state s = elim (Option-cases state.opened_at) [
  | inl e ↦ ground (arith, s.closed_below e)
  | inr (at, e) ↦ ground (arith, s.open_above at e)
]

-- A run of failures, with no success between them, opens the circuit exactly when with those
-- already counted it reaches the threshold.
pub opens_iff_threshold :
    (b : CircuitBreakers) (c : String) (ts : List ℕ)
    → IsValid b
    → b.config.enabled ≡ true
    → (is_some (entry (run b (failures_at c ts)).states c).opened_at ≡ true)
      ↔ (b.config.failure_threshold ≤ (entry b.states c).failures + length ts)
opens_iff_threshold b c ts v on =
    let after = run b (failures_at c ts) in
    let (above, below) =
      open_iff after.config (entry after.states c)
        (entry-IsSound after c (run-IsValid b (failures_at c ts) v)) in
    let counted = run-failures b c ts on (entry-IsSound b c v).failures_u32 in
    let same =
      ap (λ (k : CircuitBreakerConfig). k.failure_threshold) (run-config b (failures_at c ts)) in
    (λ e. omega (arith, above e), λ le. below (omega arith))

-- While an open circuit waits, a request is refused and its state does not change.
permit_open :
    (b : CircuitBreakers) (c : String) (now : ℕ) {at : ℕ}
    → b.config.enabled ≡ true
    → (entry b.states c).opened_at ≡ some at
    → now - at < nanos b.config.open_seconds
    → ((permit b c now).1 ≡ some (circuit_open c))
      × (entry (permit b c now).0.states c ≡ entry b.states c)
unfolding permit
permit_open b c now on open_at early =
    ground (arith, get-insert_self b.states c (admit b.config c (entry b.states c) now).0)

-- After a success the next request is admitted, whatever the circuit was before.
permit-success :
    (b : CircuitBreakers) (c : String) (now : ℕ) → (permit (success b c) c now).1 ≡ none
unfolding permit success
permit-success b c now = ground (arith, get-insert_self b.states c fresh)

-- How many of the requests made at the given times are admitted.
unfoldable pub grants : CircuitBreakers → String → List ℕ → ℕ
grants b c [] = 0
grants b c (t ∷ ts) =
    let (b', answer) = permit b c t in
    let rest = grants b' c ts in if is_some answer then rest else suc rest

admit-open :
    (config : CircuitBreakerConfig) (c : String) (state : CircuitState) (now : ℕ) {at : ℕ}
    → state.opened_at ≡ some at
    → (admit config c state now).0.opened_at ≡ some at
unfolding admit
admit-open config c state now h = ground arith

permit-admit :
    (b : CircuitBreakers) (c : String) (now : ℕ)
    → b.config.enabled ≡ true
    → ((permit b c now).1 ≡ (admit b.config c (entry b.states c) now).1)
      × (entry (permit b c now).0.states c ≡ (admit b.config c (entry b.states c) now).0)
      × ((permit b c now).0.config ≡ b.config)
unfolding permit
permit-admit b c now on =
    ground (arith, get-insert_self b.states c (admit b.config c (entry b.states c) now).0)

-- Until a probe reports back, an open circuit admits at most the probes that are left, at any
-- times and in any number of requests.
pub grants_bounded :
    (b : CircuitBreakers) (c : String) (ts : List ℕ) (at : ℕ)
    → b.config.enabled ≡ true
    → (entry b.states c).opened_at ≡ some at
    → grants b c ts ≤ b.config.half_open_requests - (entry b.states c).half_open_in_flight
unfolding grants admit
grants_bounded b c [] at on open_at = omega arith
grants_bounded b c (t ∷ ts) at on open_at =
    ground (arith, permit-admit b c t on, grants_bounded (permit b c t).0 c ts at)

grants_late :
    (b : CircuitBreakers) (c : String) (ts : List ℕ) (at wait : ℕ)
    → b.config.enabled ≡ true
    → (entry b.states c).opened_at ≡ some at
    → nanos b.config.open_seconds ≡ wait
    → All (λ t. wait ≤ t - at) ts
    → grants b c ts
      ≡ min (length ts) (b.config.half_open_requests - (entry b.states c).half_open_in_flight)
unfolding grants admit
grants_late b c [] at wait on open_at e late = omega arith
grants_late b c (t ∷ ts) at wait on open_at e (now, later) = ground (
  arith,
  permit-admit b c t on,
  grants_late (permit b c t).0 c ts at wait (ground (arith, permit-admit b c t on))
      (ground (arith, permit-admit b c t on)) (ground (arith, permit-admit b c t on)) later,
)

-- Once the wait is over, exactly the probes that are left are admitted.
pub grants_after_wait :
    (b : CircuitBreakers) (c : String) (ts : List ℕ) (at : ℕ)
    → b.config.enabled ≡ true
    → (entry b.states c).opened_at ≡ some at
    → All (λ t. nanos b.config.open_seconds ≤ t - at) ts
    → grants b c ts
      ≡ min (length ts) (b.config.half_open_requests - (entry b.states c).half_open_in_flight)
grants_after_wait b c ts at on open_at late =
    grants_late b c ts at (nanos b.config.open_seconds) on open_at refl late

-- A circuit whose probes are all in flight and never report back refuses every later request,
-- however long it waits: only `success` or `failure` frees them.
pub lost_probes_block :
    (b : CircuitBreakers) (c : String) (ts : List ℕ) (at : ℕ)
    → b.config.enabled ≡ true
    → (entry b.states c).opened_at ≡ some at
    → b.config.half_open_requests ≤ (entry b.states c).half_open_in_flight
    → grants b c ts ≡ 0
lost_probes_block b c ts at on open_at spent = omega (arith, grants_bounded b c ts at on open_at)

-- ===== src/Retry/Laws.antt =====
-- crates/jaiba-runtime/src/engine/executor/retry.rs: the end of the loop, its waits and its answer.
use jaiva.Prelude.{ℕ, zero, suc, ◌-◌, ◌*◌, ◌^◌, ◌≤◌, ◌≡◌, subst, ◌≢◌, arith, min, u64_max}
use native.Mathlib.Decide.{dec_le}
use jaiva.Config.{RetryConfig}
use jaiva.Packet.{DataPacket}
use jaiva.Retry.{World, out_of_fuel, Settings, backoff, execute_with_retry}
use jaiva.Retry.Trace.{sleeps, retries}
use jaiva.Retry.Rounds.{schedule, Agrees, Waits, run-Waits, run-Agrees}

-- The loop ends: as many rounds as the retries allow are enough.
pub execute_with_retry_ends :
    (w : World) (s : Settings) (packet : DataPacket)
    → (execute_with_retry w s packet).0 ≢ out_of_fuel
unfolding execute_with_retry
execute_with_retry_ends w s packet e =
    subst (λ a. Agrees w s packet a (execute_with_retry w s packet).1) e
      (run-Agrees (suc (s.retry.maximum_attempts - packet.attempt)) w s 0 packet (omega arith))

-- What the function answers is what it did: one success and no failure; or one failure and one
-- packet offered to `failure`, with the same content and the error noted in its attributes, which
-- is out exactly if `emit` accepted it; or a packet that is too large, which is neither. In the
-- first and the last case nothing is offered.
pub execute_with_retry-Agrees :
    (w : World) (s : Settings) (packet : DataPacket)
    → Agrees w s packet (execute_with_retry w s packet).0 (execute_with_retry w s packet).1
unfolding execute_with_retry
execute_with_retry-Agrees w s packet =
    run-Agrees (suc (s.retry.maximum_attempts - packet.attempt)) w s 0 packet (omega arith)

-- The waits are the backoff of one attempt after the other, and no more than the retries allow.
pub execute_with_retry_waits :
    (w : World) (s : Settings) (packet : DataPacket)
    → let es = (execute_with_retry w s packet).1 in
      (sleeps es ≡ schedule s.retry packet.attempt (retries es))
      × (retries es ≤ s.retry.maximum_attempts - packet.attempt)
unfolding execute_with_retry Waits
execute_with_retry_waits w s packet =
    run-Waits (suc (s.retry.maximum_attempts - packet.attempt)) w s 0 packet

saturation_hidden : (i p m top : ℕ) → m ≤ top → min (min (i * min p top) top) m ≡ min (i * p) m
saturation_hidden zero p m top h = omega arith
saturation_hidden (suc i) p m top h = elim (dec_le p top) [
  | yes small ↦ let same : min p top ≡ p = omega arith in rw same (omega arith)
  | no large ↦ let same : min p top ≡ top = omega arith in rw same (grind arith)
]

-- The saturating product never shows: the wait before attempt `a + 1` is the initial delay doubled
-- `a` times, or the maximum where that is less.
pub backoff-exact :
    (retry : RetryConfig) (a : ℕ)
    → retry.maximum_delay_ms ≤ u64_max
    → backoff retry (suc a) ≡ min (retry.initial_delay_ms * 2 ^ a) retry.maximum_delay_ms
unfolding backoff
backoff-exact retry a h =
    let same : suc a - 1 ≡ a = omega arith in
    rw same (saturation_hidden retry.initial_delay_ms (2 ^ a) retry.maximum_delay_ms u64_max h)

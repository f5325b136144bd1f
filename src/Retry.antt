-- ===== src/Retry.antt =====
-- crates/jaiba-runtime/src/engine/executor/retry.rs: one packet through one processor, with a
-- timeout and retries. What the memory limiter, the processor, its timeout and `emit` answer is the
-- parameter `World`; what the function does to the outside is a list of effects, in order.
-- The loop takes fuel.
pub mod Trace
pub mod Rounds
pub mod Laws
mod Examples
use jaiva.Prelude.{
  ℕ, zero, suc, ◌+◌, ◌-◌, String, Bool, true, false, ◌&&◌, Option, none, some, List, [], ◌∷◌, ◌++◌,
  ltb, ◌==◌, if◌then◌else◌, min, insert, u64_max, saturating_mul, saturating_pow2,
}
use jaiva.Config.{RetryConfig}
use jaiva.Error.{FlowError, packet_too_large, processor, is_retryable}
use jaiva.Packet.{DataPacket, record_count}

pub data Execution : Type 0 where
  returned : Execution
  failed_with : FlowError → Execution
  timed_out : Execution

-- Round `n` of the loop, counted from 0: what `reserve_working_copy` answers, what the processor
-- does within its timeout, and what `emitted_records` reads afterwards; `emit` is what
-- `output.emit("failure", _)` answers. `show` is `to_string`.
pub record World : Type 0 where
  pub reserve : ℕ → Option FlowError
  pub execute : ℕ → DataPacket → Execution
  pub emitted_records : ℕ → ℕ
  pub emit : DataPacket → Option FlowError
  pub show : FlowError → String
  pub timeout_message : String

pub data ProvenanceEvent : Type 0 where
  processing_started processed retried : ProvenanceEvent

pub data Effect : Type 0 where
  recorded : ProvenanceEvent → ℕ → Effect
  executed : DataPacket → Effect
  counted_records : ℕ → Effect
  counted_processed : Effect
  counted_retried : Effect
  counted_failed : Effect
  finished : Bool → Effect
  slept : ℕ → Effect
  offered emitted : String → DataPacket → Effect
  not_routed : FlowError → Effect

pub data Answer : Type 0 where
  done : Answer
  gave_up : String → ℕ → Answer
  fatal : FlowError → Answer
  out_of_fuel : Answer

-- `persisted` says that there are both a repository and a queue entry.
pub record Settings : Type 0 where
  pub processor_id : String
  pub retry : RetryConfig
  pub persisted : Bool

unfoldable pub backoff : RetryConfig → ℕ → ℕ
backoff retry attempt =
    min (saturating_mul u64_max retry.initial_delay_ms (saturating_pow2 u64_max (attempt - 1)))
      retry.maximum_delay_ms

abbrev pub record_if : Settings → ProvenanceEvent → ℕ → List Effect
record_if s event attempt = if s.persisted then recorded event attempt ∷ [] else []

pub data Judged : Type 0 where
  succeeded : Judged
  refused : FlowError → Judged

-- The `let outcome = match ..` of a round, and whether the processor ran.
unfoldable pub attempt_once : World → Settings → ℕ → DataPacket → Judged × List Effect
attempt_once w s n packet = elim (w.reserve n) [
  | some error ↦ (refused error, [])
  | none ↦ (
    elim (w.execute n packet) [
      | returned ↦ succeeded
      | failed_with error ↦ refused error
      | timed_out ↦ refused (processor s.processor_id w.timeout_message)
    ],
    executed packet ∷ [],
  )
]

unfoldable pub report_success : World → Settings → ℕ → DataPacket → List Effect
report_success w s n packet =
    (if w.emitted_records n == 0 then counted_records (record_count packet) ∷ [] else [])
    ++ counted_processed ∷ finished true ∷ record_if s processed packet.attempt

-- The packet that leaves by `failure`.
unfoldable pub mark_failed : World → Settings → FlowError → DataPacket → DataPacket
mark_failed w s error packet = record packet {
  attributes =
      insert (insert packet.attributes "error.processor" s.processor_id) "error.message"
        (w.show error);
}

unfoldable pub is_too_large : FlowError → Bool
is_too_large (packet_too_large _ _) = true
is_too_large _ = false

-- The guard of the retrying arm.
unfoldable pub may_retry : Settings → DataPacket → FlowError → Bool
unfolding is_retryable
may_retry s packet error = ltb packet.attempt s.retry.maximum_attempts && is_retryable error

unfoldable pub next_try : DataPacket → DataPacket
next_try packet = record packet { attempt = packet.attempt + 1 }

-- The three arms of `match outcome` behind the success, on the effects of the round so far and
-- what the next round does.
unfoldable pub sleep_and_retry :
    Settings → DataPacket → List Effect → Answer × List Effect → Answer × List Effect
sleep_and_retry s again before rest = (
  rest.0,
  before
      ++ counted_retried
        ∷ (record_if s retried again.attempt ++ slept (backoff s.retry again.attempt) ∷ rest.1),
)

-- The `if let Err(send_error)` behind the emission: an error is logged and no more.
unfoldable pub on_emitted : DataPacket → Option FlowError → List Effect
on_emitted out none = emitted "failure" out ∷ []
on_emitted out (some send_error) = not_routed send_error ∷ []

-- The call of `emit`, and what comes of it.
unfoldable pub emit_failure : World → DataPacket → List Effect
unfolding on_emitted
emit_failure w out = offered "failure" out ∷ on_emitted out (w.emit out)

unfoldable pub give_up :
    World → Settings → DataPacket → List Effect → FlowError → Answer × List Effect
unfolding emit_failure
give_up w s packet before error = (
  gave_up (w.show error) packet.attempt,
  before ++ counted_failed ∷ finished false ∷ emit_failure w (mark_failed w s error packet),
)

unfoldable pub conclude :
    World
    → Settings
    → ℕ
    → DataPacket
    → List Effect
    → Answer × List Effect
    → Judged
    → Answer × List Effect
conclude w s n packet before rest succeeded = (done, before ++ report_success w s n packet)
conclude w s n packet before rest (refused error) =
    if is_too_large error
    then (fatal error, before)
    else if may_retry s packet error
    then sleep_and_retry s (next_try packet) before rest
    else give_up w s packet before error

unfoldable pub run : ℕ → World → Settings → ℕ → DataPacket → Answer × List Effect
run zero w s n packet = (out_of_fuel, [])
run (suc fuel) w s n packet =
    let (outcome, effects) = attempt_once w s n packet in
    let rest = run fuel w s (suc n) (next_try packet) in
    conclude w s n packet (record_if s processing_started packet.attempt ++ effects) rest outcome

unfoldable pub execute_with_retry : World → Settings → DataPacket → Answer × List Effect
unfolding run
execute_with_retry w s packet = run (suc (s.retry.maximum_attempts - packet.attempt)) w s 0 packet

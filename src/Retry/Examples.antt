-- ===== src/Retry/Examples.antt =====
-- Runs of crates/jaiba-runtime/src/engine/executor/retry.rs against a processor that fails twice.
use jaiva.Prelude.{ℕ, zero, suc, ◌≤◌, ◌≡◌, refl, ◌≢◌, true, none, some, [], ◌∷◌, arith}
use jaiva.Error.{memory_capacity, database, database_rejected}
use jaiva.Packet.{DataPacket, records}
use jaiva.Retry.{
  Execution, returned, failed_with, World, Settings, done, gave_up, out_of_fuel, backoff,
  execute_with_retry, attempt_once, report_success, is_too_large, may_retry, next_try,
  sleep_and_retry, give_up, conclude,
}
use jaiva.Retry.Trace.{sleeps, retries, emissions, executions}
use jaiva.Retry.Rounds.{Agrees, schedule}
use jaiva.Retry.Laws.{
  execute_with_retry_ends, execute_with_retry-Agrees, execute_with_retry_waits, backoff-exact,
}

abbrev fails_twice : ℕ → DataPacket → Execution
fails_twice zero p = failed_with (database "connection reset")
fails_twice (suc zero) p = failed_with (database "connection reset")
fails_twice (suc (suc n)) p = returned

abbrev world : (ℕ → DataPacket → Execution) → World
world execute = record {
  reserve = λ n. none;
  execute = execute;
  emitted_records = λ n. 0;
  emit = λ p. none;
  show = λ e. "error";
  timeout_message = "timeout";
}

abbrev settings : ℕ → Settings
settings maximum_attempts = record {
  processor_id = "sink";
  retry = record {
    maximum_attempts = maximum_attempts;
    initial_delay_ms = 250;
    maximum_delay_ms = 30000;
  };
  persisted = true;
}

abbrev packet : DataPacket
packet = record { id = "p"; attributes = []; content = records []; schema = none; attempt = 0 }

third_time_lucky :
    ((execute_with_retry (world fails_twice) (settings 3) packet).0 ≡ done)
    × (sleeps (execute_with_retry (world fails_twice) (settings 3) packet).1 ≡ 250 ∷ 500 ∷ [])
unfolding execute_with_retry attempt_once report_success is_too_large may_retry next_try
    sleep_and_retry conclude backoff
third_time_lucky = (refl, refl)

one_retry_is_not_enough :
    (execute_with_retry (world fails_twice) (settings 1) packet).0 ≡ gave_up "error" 1
unfolding execute_with_retry attempt_once is_too_large may_retry next_try sleep_and_retry give_up
    conclude
one_retry_is_not_enough = refl

-- An error that is no reason to retry ends the packet at once.
rejected_once :
    executions
      (execute_with_retry
        (world (λ n p. failed_with (database_rejected "syntax")))
        (settings 9)
        packet).1
    ≡ 1
unfolding execute_with_retry attempt_once is_too_large may_retry next_try sleep_and_retry give_up
    conclude
rejected_once = refl

-- Where the failed packet finds no room either, it is lost and the answer is the same.
abbrev no_room : World
no_room = record (world fails_twice) { emit = λ p. some (memory_capacity 64) }

lost_in_the_end :
    let r = execute_with_retry no_room (settings 1) packet in
    (r.0 ≡ gave_up "error" 1) × (emissions r.1 ≡ [])
unfolding execute_with_retry attempt_once is_too_large may_retry next_try sleep_and_retry give_up
    conclude
lost_in_the_end = (refl, refl)

execute_with_retry_ends_example :
    (execute_with_retry (world fails_twice) (settings 1) packet).0 ≢ out_of_fuel
execute_with_retry_ends_example = execute_with_retry_ends (world fails_twice) (settings 1) packet

execute_with_retry-Agrees_example :
    let r = execute_with_retry (world fails_twice) (settings 1) packet in
    Agrees (world fails_twice) (settings 1) packet r.0 r.1
execute_with_retry-Agrees_example =
    execute_with_retry-Agrees (world fails_twice) (settings 1) packet

execute_with_retry_waits_example :
    let es = (execute_with_retry (world fails_twice) (settings 3) packet).1 in
    (sleeps es ≡ schedule (settings 3).retry 0 (retries es)) × (retries es ≤ 3)
execute_with_retry_waits_example = execute_with_retry_waits (world fails_twice) (settings 3) packet

backoff_at_limit : backoff (settings 9).retry 8 ≡ 30000
backoff_at_limit = backoff-exact (settings 9).retry 7 (omega arith)

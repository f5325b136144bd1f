-- ===== src/Error.antt =====
-- crates/jaiba-runtime/src/error.rs. The wrapped errors of the standard library, the YAML parser
-- and the SQL driver are kept as their texts.
use jaiva.Prelude.{ℕ, String, Bool, true, false}

pub data FlowError : Type 0 where
  configuration : String → FlowError
  processor : String → String → FlowError
  io : String → FlowError
  yaml : String → FlowError
  database : String → FlowError
  backpressure : ℕ → FlowError
  server : String → FlowError
  channel_closed : FlowError
  packet_too_large : ℕ → ℕ → FlowError
  memory_capacity : ℕ → FlowError
  repository : String → FlowError
  database_connector : String → FlowError
  database_rejected : String → FlowError
  message_connector : String → FlowError
  message_rejected : String → FlowError
  circuit_open : String → FlowError

unfoldable pub is_retryable : FlowError → Bool
is_retryable (packet_too_large _ _) = false
is_retryable (database_rejected _) = false
is_retryable (message_rejected _) = false
is_retryable _ = true

-- `Result<A, FlowError>`
pub data Result (A : Type 0) : Type 0 where
  ok : A → Result A
  err : FlowError → Result A

-- ===== src/Config.antt =====
-- crates/jaiba-core/src/config/flow.rs: the deserialised manifest of a flow, as far as the engine's
-- core reads it.
use jaiva.Prelude.{ℕ, String, Bool, Option, List}
use jaiva.Json.{Value}

pub data DataExecutionMode : Type 0 where
  real mock replay : DataExecutionMode

pub data ExecutionMode : Type 0 where
  auto async_io blocking_io cpu : ExecutionMode

pub data OrderingMode : Type 0 where
  unordered preserve partitioned : OrderingMode

pub data AdminAuthentication : Type 0 where
  none bearer : AdminAuthentication

pub record RetryConfig : Type 0 where
  pub maximum_attempts : ℕ
  pub initial_delay_ms : ℕ
  pub maximum_delay_ms : ℕ

pub record SchedulingConfig : Type 0 where
  pub concurrent_tasks : ℕ
  pub maximum_in_flight : Option ℕ
  pub timeout_ms : Option ℕ
  pub execution_mode : ExecutionMode
  pub ordering : OrderingMode
  pub partition_by : Option String

pub record ProcessorConfig : Type 0 where
  pub id : String
  pub processor_type : String
  pub config : Value
  pub retry : RetryConfig
  pub scheduling : SchedulingConfig
  pub simulation_mode : DataExecutionMode

pub record ConnectionConfig : Type 0 where
  pub source : String
  pub relationship : String
  pub target : String
  pub queue_capacity : ℕ

pub record EngineConfig : Type 0 where
  pub queue_capacity : ℕ
  pub max_concurrency : ℕ
  pub drain_timeout_seconds : ℕ
  pub force_after_timeout : Bool
  pub admin_enabled : Bool
  pub admin_authentication : AdminAuthentication
  pub admin_token_env : String
  pub admin_max_request_body_bytes : ℕ
  pub cpu_threads : ℕ
  pub blocking_threads : ℕ

pub record FlowConfig : Type 0 where
  pub id : String
  pub engine : EngineConfig
  pub processors : List ProcessorConfig
  pub connections : List ConnectionConfig

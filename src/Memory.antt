-- ===== src/Memory.antt =====
-- crates/jaiba-memory: the tiers in which a flow keeps objects of its domain.
pub mod Hot
pub mod Durations
use jaiva.Prelude.{ℕ, String, Option}

pub data Priority : Type 0 where
  low normal high critical : Priority

-- The number behind a priority, by which it is compared.
unfoldable pub rank : Priority → ℕ
rank low = 0
rank normal = 1
rank high = 2
rank critical = 3

-- What the hot tier reads of a class. A `Duration` is a number of milliseconds.
pub record ClassPolicy : Type 0 where
  pub name : String
  pub ttl : Option ℕ
  pub priority : Priority
  pub demote_after : Option ℕ

pub data MemoryError : Type 0 where
  configuration unknown_class unsupported_policy rebuild persistence warm cold frozen :
      String → MemoryError
  critical_capacity : ℕ → MemoryError
  missing_immediate_sink : MemoryError
  hot_byte_capacity : ℕ → ℕ → MemoryError
  redis_feature_disabled : MemoryError

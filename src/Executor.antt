-- ===== src/Executor.antt =====
-- crates/jaiba-runtime/src/engine/executor/mod.rs: the work that moves through a flow, its
-- partition keys, what starts in a round and where emissions go.
pub mod Partition
pub mod Scheduler
pub mod Routing
pub mod Engine
pub mod Validation
use jaiva.Prelude.{ℕ, String, Bool, ◌&&◌, not, is_some, Option}
use jaiva.Packet.{DataPacket}

-- A reservation is the handle of its ticket in the limiter.
pub record WorkItem : Type 0 where
  pub processor_id : String
  pub packet : DataPacket
  pub connection : Option String
  pub reservation : Option ℕ
  pub queue_id : Option String

-- The first work of a source: it takes no room in a queue.
abbrev pub is_source_seed : WorkItem → Bool
is_source_seed item = not (is_some item.connection) && not (is_some item.queue_id)

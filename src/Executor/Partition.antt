-- ===== src/Executor/Partition.antt =====
-- crates/jaiba-runtime/src/engine/executor/partition.rs: the partition key of a packet. What the
-- standard library and `serde_json` do with texts and values is the parameter `Texts`.
pub mod Laws
mod Examples
use jaiva.Prelude.{String, Bool, str_eq, if◌then◌else◌, Option, none, some, List, [], ◌∷◌, get}
use jaiva.Json.{Value, string}
use jaiva.Error.{FlowError, processor, Result, ok, err}
use jaiva.Packet.{DataPacket, PacketContent, records, encoded}

-- Why a packet has no key.
pub data Problem : Type 0 where
  not_records missing empty several : Problem

-- `selector.strip_prefix("attribute.")`, `Value::get`, `Value::to_string` and the messages.
pub record Texts : Type 0 where
  pub strip_attribute : String → Option String
  pub get_field : Value → String → Option Value
  pub to_string : Value → String
  pub message : Problem → String → String

unfoldable pub attribute_of : Texts → String → String
attribute_of t selector = elim (t.strip_attribute selector) [ none ↦ selector | some rest ↦ rest ]

unfoldable pub canonical_partition_value : Texts → Value → String
canonical_partition_value t (string value) = value
canonical_partition_value t other = t.to_string other

abbrev pub refuse : Texts → String → String → Problem → Result String
refuse t processor_id selector problem = err (processor processor_id (t.message problem selector))

-- The value of the selected field, which `None` misses.
unfoldable pub value_of : Texts → String → Value → Option String
unfolding canonical_partition_value
value_of t selector record_ = elim (t.get_field record_ selector) [
  | none ↦ none
  | some value ↦ some (canonical_partition_value t value)
]

-- The `for` over the values behind the first.
unfoldable pub same_values : Texts → String → String → String → List Value → Result String
same_values t processor_id selector first [] = ok first
same_values t processor_id selector first (r ∷ rest) =
    let others = same_values t processor_id selector first rest in
    elim (value_of t selector r) [
      | none ↦ refuse t processor_id selector missing
      | some value ↦ if str_eq value first then others else refuse t processor_id selector several
    ]

unfoldable pub key_of_records : Texts → String → String → List Value → Result String
key_of_records t processor_id selector [] = refuse t processor_id selector empty
key_of_records t processor_id selector (r ∷ rest) = elim (value_of t selector r) [
  | none ↦ refuse t processor_id selector missing
  | some first ↦ same_values t processor_id selector first rest
]

unfoldable pub key_of_content : Texts → String → String → PacketContent → Result String
key_of_content t processor_id selector (records rs) = key_of_records t processor_id selector rs
key_of_content t processor_id selector (encoded _ _) = refuse t processor_id selector not_records

unfoldable pub packet_partition_key : Texts → DataPacket → String → String → Result String
packet_partition_key t packet selector processor_id =
    elim (get packet.attributes (attribute_of t selector)) [
      | some value ↦ ok value
      | none ↦ key_of_content t processor_id selector packet.content
    ]

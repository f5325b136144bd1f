-- ===== src/Packet.antt =====
-- crates/jaiba-runtime/src/engine/packet.rs and schema.rs: the unit of data that moves through a flow. What
-- `serde_json` and the compiler say of sizes is the parameter `Sizes`.
use jaiva.Prelude.{
  ℕ, ◌+◌, String, Bool, Option, none, some, List, [], ◌∷◌, length, HashMap, u64_max, saturating_add,
}
use jaiva.Json.{Value}

pub data DataType : Type 0 where
  boolean int64 float64 : DataType
  decimal : ℕ → ℕ → DataType
  text date timestamp timestamp_with_timezone uuid binary json : DataType

pub record FieldSchema : Type 0 where
  pub name : String
  pub data_type : DataType
  pub nullable : Bool

pub record RecordSchema : Type 0 where
  pub name : Option String
  pub fields : List FieldSchema

pub data PacketContent : Type 0 where
  records : List Value → PacketContent
  encoded : String → List ℕ → PacketContent

pub record DataPacket : Type 0 where
  pub id : String
  pub attributes : HashMap String
  pub content : PacketContent
  pub schema : Option RecordSchema
  pub attempt : ℕ

-- `to_vec(..).len()` of a value that may fail to serialise, and `size_of::<DataPacket>()`.
pub record Sizes : Type 0 where
  pub text : String → ℕ
  pub json_records : List Value → Option ℕ
  pub json_schema : RecordSchema → Option ℕ
  pub own : ℕ

-- `records().map(|r| r.len()).unwrap_or(1)`
unfoldable pub record_count : DataPacket → ℕ
record_count packet = elim packet.content [ records rs ↦ length rs | encoded _ _ ↦ 1 ]

abbrev sum_attributes : Sizes → HashMap String → ℕ
sum_attributes z [] = 0
sum_attributes z ((key, value) ∷ rest) =
    saturating_add u64_max (z.text key) (z.text value) + sum_attributes z rest

abbrev or_zero : Option ℕ → ℕ
or_zero none = 0
or_zero (some n) = n

abbrev schema_size : Sizes → Option RecordSchema → ℕ
schema_size z none = 0
schema_size z (some schema) = or_zero (z.json_schema schema)

abbrev content_size : Sizes → PacketContent → ℕ
content_size z (records rs) = or_zero (z.json_records rs)
content_size z (encoded media_type bytes) =
    saturating_add u64_max (z.text media_type) (length bytes)

unfoldable pub estimated_size : Sizes → DataPacket → ℕ
estimated_size z packet =
    saturating_add u64_max
      (saturating_add u64_max
        (saturating_add u64_max (sum_attributes z packet.attributes)
          (content_size z packet.content))
        (schema_size z packet.schema))
      z.own

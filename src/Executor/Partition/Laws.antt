-- ===== src/Executor/Partition/Laws.antt =====
-- crates/jaiba-runtime/src/engine/executor/partition.rs: when a packet has a key, and which.
use jaiva.Prelude.{
  ◌<◌, length, inl, inr, ◌⊎◌, Option-cases, String, ◌≡◌, ◌↔◌, none, some, List, [], ◌∷◌, All, get,
  arith, str_eq_iff,
}
use jaiva.Json.{Value}
use jaiva.Error.{ok}
use jaiva.Packet.{DataPacket, PacketContent, records, encoded}
use jaiva.Executor.Partition.{
  Texts, attribute_of, value_of, same_values, key_of_records, key_of_content, packet_partition_key,
}

-- Every record of a list has the key in the selected field.
abbrev pub Share : Texts → String → String → List Value → Type 0
Share t selector key rs = All (λ r. value_of t selector r ≡ some key) rs

same_values_iff :
    (t : Texts) (p selector first key : String) (rs : List Value)
    → (same_values t p selector first rs ≡ ok key) ↔ ((first ≡ key) × Share t selector key rs)
unfolding same_values
same_values_iff t p selector first key [] = ground arith
same_values_iff t p selector first key (r ∷ rs) = elim (Option-cases (value_of t selector r)) [
  | inl e ↦ rw e (ground arith)
  | inr (value, e) ↦
      rw e (ground (arith, str_eq_iff value first, same_values_iff t p selector first key rs))
]

key_of_records_iff :
    (t : Texts) (p selector key : String) (rs : List Value)
    → (key_of_records t p selector rs ≡ ok key) ↔ ((0 < length rs) × Share t selector key rs)
unfolding key_of_records
key_of_records_iff t p selector key [] = ground arith
key_of_records_iff t p selector key (r ∷ rs) = elim (Option-cases (value_of t selector r)) [
  | inl e ↦ rw e (ground arith)
  | inr (first, e) ↦ rw e (ground (arith, same_values_iff t p selector first key rs))
]

-- The content is records, at least one, that share the key.
unfoldable pub HoldsKey : Texts → String → String → PacketContent → Type 0
HoldsKey t selector key (records rs) = (0 < length rs) × Share t selector key rs
HoldsKey t selector key (encoded _ _) = ⊥

key_of_content_iff :
    (t : Texts) (p selector key : String) (content : PacketContent)
    → (key_of_content t p selector content ≡ ok key) ↔ HoldsKey t selector key content
unfolding key_of_content HoldsKey
key_of_content_iff t p selector key (records rs) = key_of_records_iff t p selector key rs
key_of_content_iff t p selector key (encoded _ _) = ground arith

-- A packet has a partition key exactly where the selected attribute is that key, or where there is
-- no such attribute and the packet holds records, at least one, that all have the key in the
-- selected field.
pub packet_partition_key_iff :
    (t : Texts) (packet : DataPacket) (selector p key : String)
    → (packet_partition_key t packet selector p ≡ ok key) ↔ (
        (get packet.attributes (attribute_of t selector) ≡ some key)
        ⊎ ((get packet.attributes (attribute_of t selector) ≡ none)
            × HoldsKey t selector key packet.content))
unfolding packet_partition_key
packet_partition_key_iff t packet selector p key =
    elim (Option-cases (get packet.attributes (attribute_of t selector))) [
      | inr (value, e) ↦ rw e (ground arith)
      | inl e ↦ rw e (ground (arith, key_of_content_iff t p selector key packet.content))
    ]

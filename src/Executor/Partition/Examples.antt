-- ===== src/Executor/Partition/Examples.antt =====
-- Partition keys of crates/jaiba-runtime/src/engine/executor/partition.rs.
use jaiva.Prelude.{◌≡◌, ◌↔◌, ◌⊎◌, none, some, [], ◌∷◌, get}
use jaiva.Json.{string}
use jaiva.Error.{ok}
use jaiva.Packet.{DataPacket, records}
use jaiva.Executor.Partition.{Texts, attribute_of, packet_partition_key}
use jaiva.Executor.Partition.Laws.{HoldsKey, packet_partition_key_iff}

-- Each record stands for its own field.
abbrev texts : Texts
texts = record {
  strip_attribute = λ selector. none;
  get_field = λ r field. some r;
  to_string = λ v. "null";
  message = λ problem selector. selector;
}

abbrev packet : DataPacket
packet = record {
  id = "p";
  attributes = [];
  content = records (string "north" ∷ string "north" ∷ []);
  schema = none;
  attempt = 0;
}

packet_partition_key_iff_example :
    (packet_partition_key texts packet "region" "sink" ≡ ok "north") ↔ (
      (get packet.attributes (attribute_of texts "region") ≡ some "north")
      ⊎ ((get packet.attributes (attribute_of texts "region") ≡ none)
          × HoldsKey texts "region" "north" packet.content))
packet_partition_key_iff_example = packet_partition_key_iff texts packet "region" "sink" "north"

-- ===== src/Transfer/Builder.antt =====
-- `BodyBuilder` of native/src/transfer/frame_codec.cpp. Running out of memory is left out.
use file_sender_byte_spark.Prelude.{
  ℕ, ◌+◌, ◌-◌, Bool, true, false, ◌&&◌, ◌||◌, not, List, [], ◌∷◌, ◌++◌, length, leb, ltb, ◌==◌,
  if◌then◌else◌,
}
use file_sender_byte_spark.Protocol.Types.{WireType, max_body_length}
use file_sender_byte_spark.Protocol.Bytes.{u16_bytes, u32_bytes, u64_bytes}
use file_sender_byte_spark.Protocol.Tlv.Field.{field_bytes}

pub record BodyBuilder : Type 0 where
  pub bytes : List ℕ
  pub previous_id : ℕ
  pub has_previous_id : Bool
  pub ok : Bool

abbrev pub empty_body : BodyBuilder
empty_body = record { bytes = []; previous_id = 0; has_previous_id = false; ok = true }

abbrev pub field_flags : Bool → ℕ
field_flags true = 1
field_flags false = 0

-- The subtraction stays in range: the test before it says so.
unfoldable pub add_field : ℕ → WireType → Bool → List ℕ → BodyBuilder → BodyBuilder
add_field id wire_type critical value b =
    if not b.ok
      || id == 0
      || (b.has_previous_id && leb id b.previous_id)
      || ltb 4294967295 (length value)
    then record b { ok = false }
    else if ltb max_body_length (8 + length value)
        || ltb (max_body_length - (8 + length value)) (length b.bytes)
    then record b { ok = false }
    else record {
      bytes =
          b.bytes
          ++ field_bytes (record {
            id = id;
            wire_type = wire_type;
            flags = field_flags critical;
            value = value;
          });
      previous_id = id;
      has_previous_id = true;
      ok = true;
    }

abbrev pub add_u16 : ℕ → ℕ → BodyBuilder → BodyBuilder
add_u16 id value b = add_field id WireType.u16 true (u16_bytes value) b

abbrev pub add_u32 : ℕ → ℕ → BodyBuilder → BodyBuilder
add_u32 id value b = add_field id WireType.u32 true (u32_bytes value) b

abbrev pub add_u64 : ℕ → ℕ → BodyBuilder → BodyBuilder
add_u64 id value b = add_field id WireType.u64 true (u64_bytes value) b

abbrev pub add_bool : ℕ → Bool → Bool → BodyBuilder → BodyBuilder
add_bool id value critical b = add_field id WireType.bool critical (field_flags value ∷ []) b

abbrev pub add_bytes : ℕ → List ℕ → BodyBuilder → BodyBuilder
add_bytes id value b = add_field id WireType.bytes true value b

abbrev pub add_utf8 : ℕ → List ℕ → Bool → BodyBuilder → BodyBuilder
add_utf8 id value critical b = add_field id WireType.utf8 critical value b

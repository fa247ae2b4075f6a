-- ===== src/Protocol/Tlv.antt =====
-- `ParseTlvs` and its helpers, of native/src/protocol/v1_parser.cpp.
pub mod Field
pub mod Canonical
pub mod Parse
use file_sender_byte_spark.Prelude.{
  ℕ, zero, suc, ◌+◌, ◌/◌, ◌%◌, Bool, true, false, ◌&&◌, ◌||◌, not, Option, some, List, [], ◌∷◌,
  ◌++◌, length, get_or, take, drop, leb, ltb, ◌==◌, ◌!=◌, if◌then◌else◌,
}
use file_sender_byte_spark.Protocol.Types.{
  WireType, wire_of, FieldView, ErrorCode, is_ok, max_fields,
}
use file_sender_byte_spark.Protocol.Schema.{Presence, FieldRule, find_rule}
use file_sender_byte_spark.Protocol.Bytes.{read_u16, read_u32, decode_unsigned}
use file_sender_byte_spark.Protocol.Utf8.{is_valid_utf8}

-- A value, or the error that the source returns beside an output that nobody reads then.
pub data Result {ℓ} (A : Type ℓ) : Type ℓ where
  ok : A → Result A
  err : ErrorCode → Result A

unfoldable pub fixed_wire_length : WireType → ℕ
fixed_wire_length WireType.u8 = 1
fixed_wire_length WireType.bool = 1
fixed_wire_length WireType.u16 = 2
fixed_wire_length WireType.u32 = 4
fixed_wire_length WireType.u64 = 8
fixed_wire_length WireType.bytes = 0
fixed_wire_length WireType.utf8 = 0

abbrev pub is_bool : WireType → Bool
is_bool WireType.bool = true
is_bool _ = false

abbrev pub is_utf8 : WireType → Bool
is_utf8 WireType.utf8 = true
is_utf8 _ = false

unfoldable pub validate_wire_value : WireType → List ℕ → ErrorCode
validate_wire_value wire_type value =
    if fixed_wire_length wire_type != 0 && length value != fixed_wire_length wire_type
    then ErrorCode.malformed_message
    else if is_bool wire_type && (get_or value 0 0 != 0 && get_or value 0 0 != 1)
    then ErrorCode.malformed_message
    else if is_utf8 wire_type && not (is_valid_utf8 value)
    then ErrorCode.malformed_message
    else ErrorCode.none

-- `FieldCollection::Count` and `FieldCollection::FindFirst`.
unfoldable pub count_field : List FieldView → ℕ → ℕ
count_field [] id = 0
count_field (f ∷ fs) id = (if f.id == id then 1 else 0) + count_field fs id

unfoldable pub find_first : List FieldView → ℕ → Option FieldView
find_first [] id = Option.none
find_first (f ∷ fs) id = if f.id == id then some f else find_first fs id

-- `has_previous_id && id < previous_id`
abbrev pub is_before : ℕ → Option ℕ → Bool
is_before id Option.none = false
is_before id (some previous_id) = ltb id previous_id

-- The header and the value at the front of what is left, up to the check that the value is there.
-- `flags & 0xfe` is not 0 where `flags / 2` is not.
unfoldable pub read_field : Option ℕ → List ℕ → Result FieldView
read_field previous_id bytes =
    if ltb (length bytes) 8
    then err ErrorCode.malformed_message
    else if is_before (read_u16 bytes) previous_id
    then err ErrorCode.malformed_message
    else elim (wire_of (get_or bytes 2 0)) [
      | Option.none ↦ err ErrorCode.malformed_message
      | some wire_type ↦
          if get_or bytes 3 0 / 2 != 0
          then err ErrorCode.malformed_message
          else if ltb (length (drop 8 bytes)) (read_u32 (drop 4 bytes))
          then err ErrorCode.malformed_message
          else ok (record {
            id = read_u16 bytes;
            wire_type = wire_type;
            flags = get_or bytes 3 0;
            value = take (read_u32 (drop 4 bytes)) (drop 8 bytes);
          })
    ]

abbrev pub is_critical : ℕ → Bool
is_critical flags = flags % 2 != 0

abbrev pub is_optional : Presence → Bool
is_optional Presence.optional = true
is_optional _ = false

abbrev pub is_required : Presence → Bool
is_required Presence.required = true
is_required _ = false

abbrev pub same_wire : WireType → WireType → Bool
same_wire WireType.u8 WireType.u8 = true
same_wire WireType.u16 WireType.u16 = true
same_wire WireType.u32 WireType.u32 = true
same_wire WireType.u64 WireType.u64 = true
same_wire WireType.bytes WireType.bytes = true
same_wire WireType.utf8 WireType.utf8 = true
same_wire WireType.bool WireType.bool = true
same_wire _ _ = false

-- The checks of a field against its rule.
unfoldable pub rule_error : FieldRule → List FieldView → FieldView → ErrorCode
rule_error rule output f =
    if is_optional rule.presence && is_critical f.flags
    then ErrorCode.malformed_message
    else if not (is_optional rule.presence) && not (is_critical f.flags)
    then ErrorCode.malformed_message
    else if not (same_wire f.wire_type rule.wire_type)
    then ErrorCode.malformed_message
    else if ltb (length f.value) rule.minimum_length || ltb rule.maximum_length (length f.value)
    then ErrorCode.malformed_message
    else if not rule.repeated && count_field output f.id != 0
    then ErrorCode.malformed_message
    else ErrorCode.none

unfoldable pub schema_error : List FieldRule → List FieldView → FieldView → ErrorCode
schema_error schema output f = elim (find_rule schema f.id) [
  | Option.none ↦ if is_critical f.flags then ErrorCode.unknown_critical_field else ErrorCode.none
  | some rule ↦ rule_error rule output f
]

unfoldable pub field_error : List FieldRule → List FieldView → FieldView → ErrorCode
field_error schema output f =
    if is_ok (schema_error schema output f)
    then validate_wire_value f.wire_type f.value
    else schema_error schema output f

-- Only a field that the schema knows is kept.
unfoldable pub keep_field : List FieldRule → List FieldView → FieldView → List FieldView
keep_field schema output f = elim (find_rule schema f.id) [
  | Option.none ↦ output
  | some _ ↦ output ++ (f ∷ [])
]

-- The loop on what is left of the bytes; a round takes at least the 8 bytes of a header.
unfoldable pub tlv_loop :
    ℕ → List FieldRule → ℕ → Option ℕ → List FieldView → List ℕ → Result (List FieldView)
tlv_loop fuel schema field_count previous_id output [] = ok output
tlv_loop zero schema field_count previous_id output (x ∷ xs) = err ErrorCode.malformed_message
tlv_loop (suc fuel) schema field_count previous_id output (x ∷ xs) =
    elim (field_count == max_fields) [
      | true ↦ err ErrorCode.limit_exceeded
      | false ↦ elim (read_field previous_id (x ∷ xs)) [
        | err e ↦ err e
        | ok f ↦ elim (is_ok (field_error schema output f)) [
          | false ↦ err (field_error schema output f)
          | true ↦
              tlv_loop fuel schema (field_count + 1) (some f.id) (keep_field schema output f)
                (drop (8 + length f.value) (x ∷ xs))
        ]
      ]
    ]

unfoldable pub has_required : List FieldRule → List FieldView → Bool
has_required [] output = true
has_required (rule ∷ schema) output =
    not (is_required rule.presence && count_field output rule.id == 0) && has_required schema output

unfoldable pub parse_tlvs : List ℕ → List FieldRule → Result (List FieldView)
parse_tlvs bytes schema = elim (tlv_loop (length bytes) schema 0 Option.none [] bytes) [
  | err e ↦ err e
  | ok output ↦ if has_required schema output then ok output else err ErrorCode.malformed_message
]

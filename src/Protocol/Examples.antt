-- ===== src/Protocol/Examples.antt =====
-- The theorems on the protocol at concrete inputs: a PING frame, and a whole negotiation.
use file_sender_byte_spark.Prelude.{
  ℕ, ◌<◌, ◌≤◌, ◌≡◌, ◌≢◌, ◌↔◌, refl, true, List, [], ◌∷◌, length, All, arith, u32_mod, u64_mod,
}
use file_sender_byte_spark.Protocol.Types.{
  WireType, wire_of, MessageType, message_code, message_of, is_connection_message,
  is_transfer_message, ErrorCode, version_1_0, FieldView, ParsedFrame, is_ok, max_body_length,
}
use file_sender_byte_spark.Protocol.Schema.{schema_for, find_rule}
use file_sender_byte_spark.Protocol.Bytes.{read_loop, read_u16, read_u32, read_u64}
use file_sender_byte_spark.Protocol.Utf8.{is_valid_utf8}
use file_sender_byte_spark.Protocol.Utf8.Scalars.{IsText, encode_all, is_valid_utf8_iff}
use file_sender_byte_spark.Protocol.Tlv.{
  Result, fixed_wire_length, validate_wire_value, count_field, find_first, read_field, rule_error,
  schema_error, field_error, keep_field, tlv_loop, has_required, parse_tlvs,
}
use file_sender_byte_spark.Protocol.Tlv.Parse.{IsFieldList, parse_tlvs_iff}
use file_sender_byte_spark.Protocol.Frame.{
  read_header, declaration_error, header_frame, scope_error, parse_extensions, parse_typed_header,
  parse_frame_header, parse_frame,
}
use file_sender_byte_spark.Protocol.Frame.Bounds.{
  IsSoundHeader, IsDeclared, parse_frame_header-IsSoundHeader,
}
use file_sender_byte_spark.Protocol.Frame.RoundTrip.{
  frame_bytes, frame_header, opened, parse_frame-frame_bytes,
}

-- "é"
is_valid_utf8_iff_example :
    (is_valid_utf8 (0xc3 ∷ 0xa9 ∷ []) ≡ true)
    ↔ ((cs : List ℕ) × All IsText cs × (0xc3 ∷ 0xa9 ∷ [] ≡ encode_all cs))
is_valid_utf8_iff_example = is_valid_utf8_iff (0xc3 ∷ 0xa9 ∷ []) (ground arith, (ground arith, tt))

-- The token 7, in 8 bytes.
abbrev token : FieldView
token = record {
  id = 1;
  wire_type = WireType.u64;
  flags = 1;
  value = 0 ∷ 0 ∷ 0 ∷ 0 ∷ 0 ∷ 0 ∷ 0 ∷ 7 ∷ [];
}

abbrev ping_body : List ℕ
ping_body = 0 ∷ 1 ∷ 4 ∷ 1 ∷ 0 ∷ 0 ∷ 0 ∷ 8 ∷ 0 ∷ 0 ∷ 0 ∷ 0 ∷ 0 ∷ 0 ∷ 0 ∷ 7 ∷ []

ping_bytes : All (λ b. b < 256) ping_body
ping_bytes = ground arith

ping_parses : parse_tlvs ping_body (schema_for MessageType.ping) ≡ Result.ok (token ∷ [])
unfolding parse_tlvs tlv_loop read_field read_u16 read_u32 read_loop wire_of find_rule schema_for
    schema_error rule_error field_error keep_field has_required validate_wire_value
    fixed_wire_length count_field find_first
ping_parses = refl

parse_tlvs_iff_example :
    (parse_tlvs ping_body (schema_for MessageType.ping) ≡ Result.ok (token ∷ []))
    ↔ IsFieldList (schema_for MessageType.ping) ping_body (token ∷ [])
parse_tlvs_iff_example =
    parse_tlvs_iff ping_body (schema_for MessageType.ping) (token ∷ []) ping_bytes

ping_list : IsFieldList (schema_for MessageType.ping) ping_body (token ∷ [])
ping_list =
    (parse_tlvs_iff ping_body (schema_for MessageType.ping) (token ∷ []) ping_bytes).0 ping_parses

ping_scope : scope_error (frame_header version_1_0 MessageType.ping 0 9 ping_body) ≡ ErrorCode.none
unfolding scope_error is_connection_message is_transfer_message message_code
ping_scope = refl

ping_known : MessageType.ping ≢ MessageType.unset
ping_known = λ h. cc

abbrev nine : ℕ
nine = 9

nine_nonzero : nine ≢ 0
nine_nonzero = λ h. ground arith

stream_fits : 0 < u32_mod
stream_fits = ground arith

id_fits : 9 < u64_mod
id_fits = ground arith

body_fits : length ping_body ≤ max_body_length
body_fits = ground arith

-- What is read from the PING frame with the id 9.
abbrev ping_opened : ParsedFrame
ping_opened =
    opened version_1_0 MessageType.ping 0 9 ping_body ping_known stream_fits id_fits nine_nonzero
      body_fits

parse_frame-frame_bytes_example :
    parse_frame (frame_bytes version_1_0 MessageType.ping 0 9 ping_body) version_1_0 ≡ record {
      frame = record ping_opened {
        raw = frame_bytes version_1_0 MessageType.ping 0 9 ping_body;
        body = ping_body;
        body_fields = token ∷ [];
      };
      error = ErrorCode.none;
    }
parse_frame-frame_bytes_example =
    parse_frame-frame_bytes version_1_0 MessageType.ping 0 9 ping_body ping_known stream_fits
      id_fits nine_nonzero body_fits ping_scope (token ∷ []) ping_bytes ping_list

abbrev ping_frame : List ℕ
ping_frame =
    0x58 ∷ 0x4e ∷ 0x4e ∷ 0x54 ∷ 0 ∷ 28 ∷ 1 ∷ 0 ∷ 0 ∷ 5 ∷ 0 ∷ 0 ∷ 0 ∷ 0 ∷ 0 ∷ 0 ∷ 0 ∷ 0 ∷ 0 ∷ 0 ∷ 0
    ∷ 0 ∷ 0 ∷ 9 ∷ 0 ∷ 0 ∷ 0 ∷ 16 ∷ ping_body

ping_opens : is_ok (parse_frame_header ping_frame version_1_0).error ≡ true
unfolding parse_frame_header parse_typed_header parse_extensions declaration_error read_header
    header_frame scope_error message_of message_code is_connection_message is_transfer_message
    read_u16 read_u32 read_u64 read_loop parse_tlvs tlv_loop has_required
ping_opens = refl

parse_frame_header-IsSoundHeader_example :
    IsSoundHeader version_1_0 (parse_frame_header ping_frame version_1_0).frame.header
    × IsDeclared ping_frame (parse_frame_header ping_frame version_1_0).frame
parse_frame_header-IsSoundHeader_example =
    parse_frame_header-IsSoundHeader ping_frame version_1_0 ping_opens

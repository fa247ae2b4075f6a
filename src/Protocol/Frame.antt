-- ===== src/Protocol/Frame.antt =====
-- `ParseFrameHeader`, `ParseFrameEnvelope`, `ParseFrameBody` and `ParseFrame` of
-- native/src/protocol/v1_parser.cpp.
pub mod Bounds
pub mod RoundTrip
use file_sender_byte_spark.Prelude.{
  ℕ, ◌+◌, ◌-◌, Bool, true, false, ◌&&◌, ◌||◌, not, Option, some, List, [], ◌∷◌, length, get_or,
  take, drop, leb, ltb, ◌==◌, ◌!=◌, if◌then◌else◌, u64_max,
}
use file_sender_byte_spark.Protocol.Types.{
  fixed_header_length, max_header_length, max_body_length, MessageType, message_of,
  is_connection_message, is_transfer_message, Version, same_version, FrameHeader, FieldView,
  ParsedFrame, empty_frame, ParseResult, ErrorCode, is_ok,
}
use file_sender_byte_spark.Protocol.Schema.{schema_for}
use file_sender_byte_spark.Protocol.Bytes.{read_u16, read_u32, read_u64}
use file_sender_byte_spark.Protocol.Tlv.{Result, ok, err, parse_tlvs}

-- "XNNT"
abbrev pub has_magic : List ℕ → Bool
has_magic encoded =
    get_or encoded 0 0 == 0x58
    && get_or encoded 1 0 == 0x4e
    && get_or encoded 2 0 == 0x4e
    && get_or encoded 3 0 == 0x54

abbrev pub read_version : List ℕ → Version
read_version encoded = record { major = get_or encoded 6 0; minor = get_or encoded 7 0 }

-- The fixed header, once the type is known.
unfoldable pub read_header : List ℕ → MessageType → FrameHeader
read_header encoded type = record {
  header_length = read_u16 (drop 4 encoded);
  version = read_version encoded;
  message_type = type;
  flags = read_u16 (drop 10 encoded);
  stream_id = read_u32 (drop 12 encoded);
  message_id = read_u64 (drop 16 encoded);
  body_length = read_u32 (drop 24 encoded);
}

-- The checks from the magic to the version, in their order.
unfoldable pub declaration_error : List ℕ → Version → ErrorCode
declaration_error encoded expected_version =
    if ltb (length encoded) fixed_header_length
    then ErrorCode.malformed_frame
    else if not (has_magic encoded)
    then ErrorCode.malformed_frame
    else if ltb (read_u16 (drop 4 encoded)) fixed_header_length
    then ErrorCode.malformed_frame
    else if ltb max_header_length (read_u16 (drop 4 encoded))
    then ErrorCode.frame_too_large
    else if ltb max_body_length (read_u32 (drop 24 encoded))
    then ErrorCode.frame_too_large
    else if read_u16 (drop 10 encoded) != 0
    then ErrorCode.malformed_frame
    else if read_u64 (drop 16 encoded) == 0
    then ErrorCode.message_id_violation
    else if not (same_version (read_version encoded) expected_version)
    then ErrorCode.unsupported_version
    else ErrorCode.none

-- The frame before its header extensions are parsed.
unfoldable pub header_frame : List ℕ → FrameHeader → ParsedFrame
header_frame encoded header = record empty_frame {
  header = header;
  declared_total_length = header.header_length + header.body_length;
  raw = take header.header_length encoded;
  header_extensions =
      take (header.header_length - fixed_header_length) (drop fixed_header_length encoded);
}

-- A connection message belongs to stream 0, a transfer message to another.
unfoldable pub scope_error : FrameHeader → ErrorCode
scope_error header =
    if is_connection_message header.message_type && header.stream_id != 0
    then ErrorCode.state_violation
    else if is_transfer_message header.message_type && header.stream_id == 0
    then ErrorCode.state_violation
    else ErrorCode.none

unfoldable pub parse_extensions : ParsedFrame → ParseResult
parse_extensions frame = elim (parse_tlvs frame.header_extensions []) [
  | err e ↦ record { frame = frame; error = e }
  | ok fields ↦ record {
    frame = record frame { header_fields = fields };
    error = scope_error frame.header;
  }
]

abbrev pub refused : ErrorCode → ParseResult
refused error = record { frame = empty_frame; error = error }

unfoldable pub parse_typed_header : List ℕ → FrameHeader → ParseResult
parse_typed_header encoded header =
    if ltb (u64_max - header.header_length) header.body_length
    then refused ErrorCode.malformed_frame
    else if ltb (length encoded) header.header_length
    then refused ErrorCode.malformed_frame
    else parse_extensions (header_frame encoded header)

unfoldable pub parse_frame_header : List ℕ → Version → ParseResult
parse_frame_header encoded expected_version =
    if not (is_ok (declaration_error encoded expected_version))
    then refused (declaration_error encoded expected_version)
    else elim (message_of (read_u16 (drop 8 encoded))) [
      | Option.none ↦ refused ErrorCode.unsupported_message
      | some type ↦ parse_typed_header encoded (read_header encoded type)
    ]

-- `encoded` is there in full, and its body is what stands behind the header.
unfoldable pub envelope_of : List ℕ → ParsedFrame → ParseResult
envelope_of encoded frame =
    if length encoded != frame.declared_total_length
    then record { frame = frame; error = ErrorCode.malformed_frame }
    else record {
      frame = record frame {
        raw = encoded;
        body = take frame.header.body_length (drop frame.header.header_length encoded);
      };
      error = ErrorCode.none;
    }

unfoldable pub parse_frame_envelope : List ℕ → Version → ParseResult
parse_frame_envelope encoded expected_version =
    let result : ParseResult = parse_frame_header encoded expected_version in
    if not (is_ok result.error) then result else envelope_of encoded result.frame

unfoldable pub parse_frame_body : ParsedFrame → ParsedFrame × ErrorCode
parse_frame_body frame =
    if length frame.body != frame.header.body_length
    then (frame, ErrorCode.malformed_frame)
    else elim (parse_tlvs frame.body (schema_for frame.header.message_type)) [
      | err e ↦ (record frame { body_fields = [] }, e)
      | ok fields ↦ (record frame { body_fields = fields }, ErrorCode.none)
    ]

unfoldable pub parse_frame : List ℕ → Version → ParseResult
parse_frame encoded expected_version =
    let result : ParseResult = parse_frame_envelope encoded expected_version in
    if not (is_ok result.error) then result else record {
      frame = (parse_frame_body result.frame).0;
      error = (parse_frame_body result.frame).1;
    }

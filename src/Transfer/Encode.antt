-- ===== src/Transfer/Encode.antt =====
-- The encoders of native/src/transfer/frame_codec.cpp. The header is written with the message id 1
-- for the self check, and the real id is stored over it; each version is `frame_bytes` here.
-- Running out of memory is left out.
use file_sender_byte_spark.Prelude.{
  ℕ, ◌+◌, ◌-◌, Bool, true, false, ◌&&◌, ◌||◌, not, Option, none, some, List, ◌++◌, length, ltb,
  ◌==◌, if◌then◌else◌,
}
use file_sender_byte_spark.Protocol.Types.{
  MessageType, message_code, WireType, ParseResult, is_ok, max_body_length,
}
use file_sender_byte_spark.Protocol.Frame.{parse_frame}
use file_sender_byte_spark.Protocol.Frame.RoundTrip.{frame_bytes}
use file_sender_byte_spark.Protocol.Tlv.Field.{field_bytes}
use file_sender_byte_spark.Transfer.Types.{
  WireErrorCode, no_wire_error, TransferContext, maximum_chunk_size,
}
use file_sender_byte_spark.Transfer.Errors.{wire_error_value, wire_error_is_fatal}
use file_sender_byte_spark.Transfer.Limits.{valid_commitment}
use file_sender_byte_spark.Transfer.Sequence.{ConnectionMessageSequence, next_outbound_id}
use file_sender_byte_spark.Transfer.Builder.{
  BodyBuilder, empty_body, add_u16, add_u32, add_u64, add_bool, add_bytes,
}

-- The frame, where the encoder returns true.
abbrev pub Encoded : Type 0
Encoded = ConnectionMessageSequence × Option (List ℕ)

-- The parse of the frame with the message id 1.
unfoldable pub self_check : TransferContext → MessageType → List ℕ → Bool
self_check context type body =
    let parsed : ParseResult =
      parse_frame (frame_bytes context.version type context.stream_id 1 body) context.version in
    is_ok parsed.error
    && message_code parsed.frame.header.message_type == message_code type
    && parsed.frame.header.stream_id == context.stream_id

-- The id is taken only when nothing else can fail any more.
unfoldable pub numbered_frame :
    TransferContext → MessageType → List ℕ → ConnectionMessageSequence × Option ℕ → Encoded
numbered_frame context type body (sequence, none) = (sequence, none)
numbered_frame context type body (sequence, some id) =
    if id == 0
    then (sequence, none)
    else (sequence, some (frame_bytes context.version type context.stream_id id body))

unfoldable pub encode_frame :
    TransferContext → MessageType → BodyBuilder → ConnectionMessageSequence → Encoded
encode_frame context type body sequence =
    if not body.ok
      || ltb context.limits.maximum_body (length body.bytes)
      || ltb max_body_length (length body.bytes)
    then (sequence, none)
    else if not (self_check context type body.bytes)
    then (sequence, none)
    else numbered_frame context type body.bytes (next_outbound_id sequence)

abbrev pub chunk_prefix : List ℕ → ℕ → BodyBuilder
chunk_prefix transfer_id offset =
    add_u64 3 offset (add_u32 2 0 (add_bytes 1 transfer_id empty_body))

-- `append_bytes_field`
abbrev pub bytes_field : ℕ → List ℕ → List ℕ
bytes_field id value =
    field_bytes (record { id = id; wire_type = WireType.bytes; flags = 1; value = value })

unfoldable pub chunk_body : List ℕ → ℕ → List ℕ → List ℕ → List ℕ
chunk_body transfer_id offset content commitment =
    (chunk_prefix transfer_id offset).bytes ++ (bytes_field 4 content ++ bytes_field 5 commitment)

-- The subtractions stay in range: the tests before them say so.
unfoldable pub encode_file_chunk_frame :
    TransferContext → List ℕ → ℕ → List ℕ → List ℕ → ConnectionMessageSequence → Encoded
encode_file_chunk_frame context transfer_id offset content commitment sequence =
    let prefix : BodyBuilder = chunk_prefix transfer_id offset in
    let variable_size : ℕ = length content + length commitment in
    let body_size : ℕ = length prefix.bytes + 16 + variable_size in
    let body : List ℕ = chunk_body transfer_id offset content commitment in
    if not prefix.ok
      || length content == 0
      || ltb maximum_chunk_size (length content)
      || not (valid_commitment commitment)
    then (sequence, none)
    else if ltb (max_body_length - 16) variable_size
        || ltb (max_body_length - 16 - variable_size) (length prefix.bytes)
    then (sequence, none)
    else if ltb context.limits.maximum_body body_size || ltb 4294967295 body_size
    then (sequence, none)
    else if not (self_check context MessageType.file_chunk body)
    then (sequence, none)
    else numbered_frame context MessageType.file_chunk body (next_outbound_id sequence)

abbrev pub error_body : WireErrorCode → Bool → BodyBuilder
error_body code retryable =
    let body : BodyBuilder =
      add_bool 2 (wire_error_is_fatal code) true (add_u16 1 (wire_error_value code) empty_body) in
    if retryable then add_bool 3 true false body else body

unfoldable pub encode_error_frame :
    TransferContext → WireErrorCode → Bool → ConnectionMessageSequence → Encoded
encode_error_frame context code retryable sequence =
    encode_frame context MessageType.error (error_body code retryable) sequence

unfoldable pub encode_cancel_frame : TransferContext → List ℕ → ConnectionMessageSequence → Encoded
encode_cancel_frame context transfer_id sequence =
    encode_frame context MessageType.cancel
      (add_u16 2 (wire_error_value WireErrorCode.cancelled) (add_bytes 1 transfer_id empty_body))
      sequence

unfoldable pub encode_cancel_ack_frame :
    TransferContext → List ℕ → WireErrorCode → ConnectionMessageSequence → Encoded
encode_cancel_ack_frame context transfer_id terminal_code sequence =
    if no_wire_error terminal_code
    then (sequence, none)
    else encode_frame context MessageType.cancel_ack
        (add_u16 2 (wire_error_value terminal_code) (add_bytes 1 transfer_id empty_body)) sequence

-- ===== src/Transfer/Inbound.antt =====
-- `ParseInbound`, `ParseBody` and the field accessors of native/src/transfer/frame_codec.cpp.
use file_sender_byte_spark.Prelude.{
  ℕ, Bool, true, false, not, Option, none, some, List, [], length, ltb, ◌==◌, ◌!=◌, if◌then◌else◌,
}
use file_sender_byte_spark.Protocol.Types.{FieldView, ParsedFrame, empty_frame, ParseResult, is_ok}
use file_sender_byte_spark.Protocol.Bytes.{decode_unsigned}
use file_sender_byte_spark.Protocol.Tlv.{find_first}
use file_sender_byte_spark.Protocol.Frame.{parse_frame_envelope, parse_frame_body}
use file_sender_byte_spark.Transfer.Types.{TransferError, WireErrorCode, TransferContext}
use file_sender_byte_spark.Transfer.Errors.{
  transfer_error_for_protocol, protocol_error_is_connection_fatal, wire_error_for_protocol,
}
use file_sender_byte_spark.Transfer.Sequence.{ConnectionMessageSequence, observe_inbound}

pub record ParsedTransferFrame : Type 0 where
  pub frame : ParsedFrame
  pub error : TransferError
  pub wire_error : WireErrorCode
  pub connection_fatal : Bool

abbrev pub inbound_failure : TransferError → WireErrorCode → Bool → ParsedTransferFrame
inbound_failure error wire_error connection_fatal = record {
  frame = empty_frame;
  error = error;
  wire_error = wire_error;
  connection_fatal = connection_fatal;
}

-- The part behind the message id.
unfoldable pub accept_envelope : TransferContext → ParsedFrame → ParsedTransferFrame
accept_envelope context frame =
    if ltb context.limits.maximum_body frame.header.body_length
    then inbound_failure TransferError.limit_exceeded WireErrorCode.limit_exceeded false
    else if frame.header.stream_id != context.stream_id
    then inbound_failure TransferError.state_violation WireErrorCode.state_violation false
    else record {
      frame = frame;
      error = TransferError.none;
      wire_error = WireErrorCode.none;
      connection_fatal = false;
    }

-- `authorized` is what the session authority answers.
unfoldable pub parse_inbound :
    Bool
    → TransferContext
    → List ℕ
    → ConnectionMessageSequence
    → ConnectionMessageSequence × ParsedTransferFrame
parse_inbound authorized context encoded sequence =
    let parsed : ParseResult = parse_frame_envelope encoded context.version in
    if not authorized
    then (sequence, inbound_failure TransferError.unauthenticated WireErrorCode.none true)
    else if not (is_ok parsed.error)
    then (
      sequence,
      inbound_failure (transfer_error_for_protocol parsed.error)
          (wire_error_for_protocol parsed.error)
          (protocol_error_is_connection_fatal parsed.error parsed.frame.header.stream_id),
    )
    else (let (sequence', observed) = observe_inbound parsed.frame.header.message_id sequence in
        if observed then (sequence', accept_envelope context parsed.frame) else (
          sequence',
          inbound_failure TransferError.message_id_violation WireErrorCode.message_id_violation
              true,
        ))

-- The frame with its fields, or the error.
unfoldable pub parse_body : ParsedTransferFrame → ParsedTransferFrame
parse_body parsed =
    let (frame, error) = parse_frame_body parsed.frame in
    if is_ok error then record parsed { frame = frame } else record {
      frame = frame;
      error = transfer_error_for_protocol error;
      wire_error = wire_error_for_protocol error;
      connection_fatal = protocol_error_is_connection_fatal error parsed.frame.header.stream_id;
    }

abbrev pub field_of : ParsedFrame → ℕ → Option FieldView
field_of frame id = find_first frame.body_fields id

unfoldable pub unsigned_field : ParsedFrame → ℕ → ℕ
unsigned_field frame id = elim (field_of frame id) [ none ↦ 0 | some f ↦ decode_unsigned f.value ]

unfoldable pub bytes_of : ParsedFrame → ℕ → List ℕ
bytes_of frame id = elim (field_of frame id) [ none ↦ [] | some f ↦ f.value ]

unfoldable pub read_transfer_id : ParsedFrame → Option (List ℕ)
read_transfer_id frame =
    let encoded : List ℕ = bytes_of frame 1 in if length encoded == 16 then some encoded else none

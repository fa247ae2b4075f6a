-- ===== src/Protocol/Negotiation.antt =====
-- The theorems on the transcript at a whole negotiation, followed by CANCEL_ACK.
use file_sender_byte_spark.Prelude.{ℕ, ◌≡◌, refl, true, false, ◌&&◌, List, [], ◌∷◌}
use file_sender_byte_spark.Protocol.Types.{
  WireType, wire_code, wire_of, MessageType, message_code, message_of, is_connection_message,
  is_transfer_message, Direction, version_1_0, version_less, FieldView, is_ok,
}
use file_sender_byte_spark.Protocol.Schema.{schema_for, find_rule}
use file_sender_byte_spark.Protocol.Bytes.{
  read_loop, read_u16, read_u32, read_u64, decode_unsigned, u16_bytes, u32_bytes, u64_bytes,
}
use file_sender_byte_spark.Protocol.Tlv.{
  fixed_wire_length, validate_wire_value, count_field, find_first, read_field, rule_error,
  schema_error, field_error, keep_field, tlv_loop, has_required, parse_tlvs,
}
use file_sender_byte_spark.Protocol.Tlv.Field.{field_bytes, fields_bytes}
use file_sender_byte_spark.Protocol.Frame.{
  read_header, declaration_error, header_frame, scope_error, parse_extensions, parse_typed_header,
  parse_frame_header, envelope_of, parse_frame_envelope, parse_frame_body,
}
use file_sender_byte_spark.Protocol.Frame.RoundTrip.{frame_bytes}
use file_sender_byte_spark.Protocol.Transcript.{new_transcript, field_number, collect}
use file_sender_byte_spark.Protocol.Transcript.Hello.{
  contains, capabilities_ordered, strictly_sorted, hello_of, hello_versions_fit, capabilities_error,
  receive_limits_error, hello_error, process_hello,
}
use file_sender_byte_spark.Protocol.Transcript.Negotiate.{
  version_maximum, version_minimum, intersect, intersection, equal_capabilities, negotiation_of,
  selection_error, negotiation_error, negotiate_is_early_or_late, process_negotiate,
  ack_is_early_or_late, same_negotiation, process_negotiate_ack,
}
use file_sender_byte_spark.Protocol.Transcript.Process.{
  process_transport_finished, complete, validate_envelope_state, advance_message_id, dispatch,
  process_numbered, process_enveloped, process,
}
use file_sender_byte_spark.Protocol.Transcript.Invariant.{IsSound}
use file_sender_byte_spark.Protocol.Transcript.Run.{process_all, run-IsSound}
use file_sender_byte_spark.Protocol.Transcript.Replay.{sent_id, process-once}
use file_sender_byte_spark.Protocol.Transcript.Binding.{IsBound, transfer-IsBound}
use file_sender_byte_spark.Protocol.Transcript.Steps.{sent_type}
use file_sender_byte_spark.Protocol.Transcript.Capabilities.{intersection-contains}

abbrev field : ℕ → WireType → List ℕ → FieldView
field id wire value = record { id = id; wire_type = wire; flags = 1; value = value }

-- HELLO of a side with the role: version 1.0 only, one capability, the least limits.
abbrev hello_body : ℕ → List ℕ
hello_body role = fields_bytes (
    field 1 WireType.u16 (0 ∷ 1 ∷ [])
    ∷ field 2 WireType.u16 (0 ∷ 0 ∷ [])
    ∷ field 3 WireType.u16 (0 ∷ 1 ∷ [])
    ∷ field 4 WireType.u16 (0 ∷ 0 ∷ [])
    ∷ field 5 WireType.u8 (role ∷ [])
    ∷ field 6 WireType.u32 (0 ∷ 1 ∷ 0 ∷ 1 ∷ [])
    ∷ field 7 WireType.u32 (0 ∷ 1 ∷ 0 ∷ 1 ∷ [])
    ∷ field 8 WireType.u32 (0 ∷ 0 ∷ 32 ∷ 0 ∷ [])
    ∷ field 9 WireType.u32 (0 ∷ 16 ∷ 0 ∷ 0 ∷ [])
    ∷ field 10 WireType.u16 (0 ∷ 1 ∷ [])
    ∷ [])

abbrev negotiate_body : List ℕ
negotiate_body = fields_bytes (
    field 1 WireType.u16 (0 ∷ 1 ∷ [])
    ∷ field 2 WireType.u16 (0 ∷ 0 ∷ [])
    ∷ field 3 WireType.u32 (0 ∷ 1 ∷ 0 ∷ 1 ∷ [])
    ∷ field 4 WireType.u32 (0 ∷ 0 ∷ 32 ∷ 0 ∷ [])
    ∷ field 5 WireType.u32 (0 ∷ 16 ∷ 0 ∷ 0 ∷ [])
    ∷ field 6 WireType.u16 (0 ∷ 1 ∷ [])
    ∷ [])

abbrev finished_body : ℕ → List ℕ
finished_body role =
    fields_bytes (field 1 WireType.u8 (role ∷ []) ∷ field 2 WireType.bytes (5 ∷ []) ∷ [])

abbrev sixteen : List ℕ
sixteen = 1 ∷ 2 ∷ 3 ∷ 4 ∷ 5 ∷ 6 ∷ 7 ∷ 8 ∷ 9 ∷ 10 ∷ 11 ∷ 12 ∷ 13 ∷ 14 ∷ 15 ∷ 16 ∷ []

abbrev send : MessageType → ℕ → ℕ → List ℕ → List ℕ
send type stream id body = frame_bytes version_1_0 type stream id body

abbrev first_hello : List ℕ
first_hello = send MessageType.hello 0 1 (hello_body 1)

abbrev negotiation_frames : List (Direction × List ℕ)
negotiation_frames =
    (Direction.initiator_to_responder, first_hello)
    ∷ (Direction.responder_to_initiator, send MessageType.hello 0 1 (hello_body 2))
    ∷ (Direction.initiator_to_responder, send MessageType.negotiate 0 2 negotiate_body)
    ∷ (Direction.responder_to_initiator, send MessageType.negotiate_ack 0 2 negotiate_body)
    ∷ (Direction.initiator_to_responder, send MessageType.transport_finished 0 3 (finished_body 1))
    ∷ (Direction.responder_to_initiator, send MessageType.transport_finished 0 3 (finished_body 2))
    ∷ []

abbrev cancel_ack : List ℕ
cancel_ack =
    send MessageType.cancel_ack 1 4
      (fields_bytes (field 1 WireType.bytes sixteen ∷ field 2 WireType.u16 (0 ∷ 1 ∷ []) ∷ []))

run-IsSound_example : IsSound (process_all negotiation_frames new_transcript)
run-IsSound_example = run-IsSound negotiation_frames

hello_accepted :
    is_ok (process Direction.initiator_to_responder first_hello new_transcript).1 ≡ true
unfolding wire_code wire_of message_code message_of is_connection_message is_transfer_message
    version_less schema_for find_rule read_loop read_u16 read_u32 read_u64 decode_unsigned u16_bytes
    u32_bytes u64_bytes fixed_wire_length validate_wire_value count_field find_first read_field
    rule_error schema_error field_error keep_field tlv_loop has_required parse_tlvs field_bytes
    fields_bytes read_header declaration_error header_frame scope_error parse_extensions
    parse_typed_header parse_frame_header envelope_of parse_frame_envelope parse_frame_body
    frame_bytes field_number collect contains capabilities_ordered strictly_sorted hello_of
    hello_versions_fit capabilities_error receive_limits_error hello_error process_hello
    version_maximum version_minimum intersect intersection equal_capabilities negotiation_of
    selection_error negotiation_error negotiate_is_early_or_late process_negotiate
    ack_is_early_or_late same_negotiation process_negotiate_ack process_transport_finished complete
    validate_envelope_state advance_message_id dispatch process_numbered process_enveloped process
hello_accepted = refl

same_id :
    sent_id
      (process_all [] (process Direction.initiator_to_responder first_hello new_transcript).0)
      first_hello
    ≡ sent_id new_transcript first_hello
unfolding sent_id process_all wire_code wire_of message_code message_of is_connection_message
    is_transfer_message version_less schema_for find_rule read_loop read_u16 read_u32 read_u64
    decode_unsigned u16_bytes u32_bytes u64_bytes fixed_wire_length validate_wire_value count_field
    find_first read_field rule_error schema_error field_error keep_field tlv_loop has_required
    parse_tlvs field_bytes fields_bytes read_header declaration_error header_frame scope_error
    parse_extensions parse_typed_header parse_frame_header envelope_of parse_frame_envelope
    parse_frame_body frame_bytes field_number collect contains capabilities_ordered strictly_sorted
    hello_of hello_versions_fit capabilities_error receive_limits_error hello_error process_hello
    version_maximum version_minimum intersect intersection equal_capabilities negotiation_of
    selection_error negotiation_error negotiate_is_early_or_late process_negotiate
    ack_is_early_or_late same_negotiation process_negotiate_ack process_transport_finished complete
    validate_envelope_state advance_message_id dispatch process_numbered process_enveloped process
same_id = refl

process-once_example :
    is_ok
      (process Direction.initiator_to_responder first_hello
        (process_all [] (process Direction.initiator_to_responder first_hello new_transcript).0)).1
    ≡ false
unfolding process_all
process-once_example =
    process-once Direction.initiator_to_responder first_hello first_hello [] new_transcript
      hello_accepted same_id

cancel_accepted :
    is_ok
      (process Direction.initiator_to_responder cancel_ack
        (process_all negotiation_frames new_transcript)).1
    ≡ true
unfolding process_all wire_code wire_of message_code message_of is_connection_message
    is_transfer_message version_less schema_for find_rule read_loop read_u16 read_u32 read_u64
    decode_unsigned u16_bytes u32_bytes u64_bytes fixed_wire_length validate_wire_value count_field
    find_first read_field rule_error schema_error field_error keep_field tlv_loop has_required
    parse_tlvs field_bytes fields_bytes read_header declaration_error header_frame scope_error
    parse_extensions parse_typed_header parse_frame_header envelope_of parse_frame_envelope
    parse_frame_body frame_bytes field_number collect contains capabilities_ordered strictly_sorted
    hello_of hello_versions_fit capabilities_error receive_limits_error hello_error process_hello
    version_maximum version_minimum intersect intersection equal_capabilities negotiation_of
    selection_error negotiation_error negotiate_is_early_or_late process_negotiate
    ack_is_early_or_late same_negotiation process_negotiate_ack process_transport_finished complete
    validate_envelope_state advance_message_id dispatch process_numbered process_enveloped process
cancel_accepted = refl

cancel_is_transfer :
    is_transfer_message (sent_type (process_all negotiation_frames new_transcript) cancel_ack)
    ≡ true
unfolding sent_type process_all wire_code wire_of message_code message_of is_connection_message
    is_transfer_message version_less schema_for find_rule read_loop read_u16 read_u32 read_u64
    decode_unsigned u16_bytes u32_bytes u64_bytes fixed_wire_length validate_wire_value count_field
    find_first read_field rule_error schema_error field_error keep_field tlv_loop has_required
    parse_tlvs field_bytes fields_bytes read_header declaration_error header_frame scope_error
    parse_extensions parse_typed_header parse_frame_header envelope_of parse_frame_envelope
    parse_frame_body frame_bytes field_number collect contains capabilities_ordered strictly_sorted
    hello_of hello_versions_fit capabilities_error receive_limits_error hello_error process_hello
    version_maximum version_minimum intersect intersection equal_capabilities negotiation_of
    selection_error negotiation_error negotiate_is_early_or_late process_negotiate
    ack_is_early_or_late same_negotiation process_negotiate_ack process_transport_finished complete
    validate_envelope_state advance_message_id dispatch process_numbered process_enveloped process
cancel_is_transfer = refl

transfer-IsBound_example :
    IsBound negotiation_frames (process_all negotiation_frames new_transcript)
transfer-IsBound_example =
    transfer-IsBound negotiation_frames Direction.initiator_to_responder cancel_ack cancel_accepted
      cancel_is_transfer

intersection-contains_example :
    contains (intersection (2 ∷ 5 ∷ 9 ∷ []) (1 ∷ 5 ∷ [])) 5
    ≡ (contains (2 ∷ 5 ∷ 9 ∷ []) 5 && contains (1 ∷ 5 ∷ []) 5)
unfolding strictly_sorted
intersection-contains_example = intersection-contains (2 ∷ 5 ∷ 9 ∷ []) (1 ∷ 5 ∷ []) refl refl 5

-- ===== src/Transfer/Receiver/Examples.antt =====
-- The theorems on a receiver, on a history in which a file of 3 bytes is received.
use file_sender_byte_spark.Prelude.{
  arith, ◌≢◌, ◌<◌, u64_mod, ℕ, ◌≡◌, refl, true, some, List, [], ◌∷◌, ◌++◌,
}
use file_sender_byte_spark.Protocol.Types.{MessageType, version_1_0, WireType}
use file_sender_byte_spark.Storage.Examples.{
  one_file, one_file_contract, counter, empty_disk, ascii,
}
use file_sender_byte_spark.Storage.Cleanup.{ReceiveTransaction}
use file_sender_byte_spark.Transfer.Types.{TransferContext, TransferState, is_terminal}
use file_sender_byte_spark.Transfer.Builder.{
  add_u16, BodyBuilder, empty_body, add_u32, add_u64, add_bytes, add_utf8,
}
use file_sender_byte_spark.Transfer.Credit.{Role}
use file_sender_byte_spark.Transfer.Receiver.{Outside, Authority, Endpoint, is_durable}
use file_sender_byte_spark.Transfer.Receiver.Run.{Event, receiver_run, new_endpoint}
use file_sender_byte_spark.Transfer.Receiver.Outcomes.{
  says_received, IsReceivedFile, run-says_received, run-IsReceivedFile,
}
use file_sender_byte_spark.Protocol.Types.{
  wire_code, wire_of, message_code, message_of, is_connection_message, is_transfer_message,
  version_less,
}
use file_sender_byte_spark.Protocol.Bytes.{
  read_loop, read_u16, read_u32, read_u64, decode_unsigned, u16_bytes, u32_bytes, u64_bytes,
}
use file_sender_byte_spark.Protocol.Utf8.{
  is_continuation, is_unicode_noncharacter, code_point_at, utf8_loop, is_valid_utf8,
}
use file_sender_byte_spark.Protocol.Schema.{schema_for, find_rule}
use file_sender_byte_spark.Protocol.Tlv.{
  fixed_wire_length, validate_wire_value, count_field, find_first, read_field, rule_error,
  schema_error, field_error, keep_field, tlv_loop, has_required, parse_tlvs,
}
use file_sender_byte_spark.Protocol.Tlv.Field.{field_bytes, fields_bytes}
use file_sender_byte_spark.Protocol.Frame.{
  read_header, declaration_error, header_frame, scope_error, parse_extensions, parse_typed_header,
  parse_frame_header, envelope_of, parse_frame_envelope, parse_frame_body, parse_frame,
}
use file_sender_byte_spark.Protocol.Frame.RoundTrip.{frame_bytes}
use file_sender_byte_spark.Storage.Component.{
  is_ascii_alpha, fold_ascii, folds_equal, ascii_case_insensitive_equals, ends_with, stem,
  is_reserved_stem, lacks_device_number, is_windows_reserved_component, same_bytes,
}
use file_sender_byte_spark.Storage.Codepoints.{
  is_noncharacter, codepoint_error, strict_utf8_loop, is_strict_utf8, codepoints_loop,
  validate_codepoints, is_nfc,
}
use file_sender_byte_spark.Storage.Path.{
  text_error, component_error, components_loop, validate_receive_path, validate_receive_request,
}
use file_sender_byte_spark.Storage.Path.Split.{component_of, rest_of, join}
use file_sender_byte_spark.Storage.Budget.{create_budget, try_reserve, release, mark_unresolved}
use file_sender_byte_spark.Storage.Cleanup.{
  error_for_platform, create_transaction, release_reservation, finish_cleanup, fail_and_cleanup,
}
use file_sender_byte_spark.Storage.Transaction.{
  begin_created, begin_reserved, begin_budgeted, begin, write_verified, write_data, write,
  commit_finished, commit_sealed, seal_verifier, seal_and_commit, abort,
}
use file_sender_byte_spark.Transfer.Credit.{
  new_credit, try_reserve_credit, try_adjust, release_credit, with_role, consume_id, open_expected,
  open_stream, last_first, remove_stream, close_stream,
}
use file_sender_byte_spark.Transfer.Errors.{
  wire_error_of, decode_wire_error, transfer_error_for_protocol, protocol_error_is_connection_fatal,
  wire_error_for_protocol, transfer_error_for_wire, wire_error_is_connection_fatal,
  wire_error_is_fatal, wire_error_may_retry, wire_error_is_reject_reason,
}
use file_sender_byte_spark.Transfer.Limits.{
  all_zero, valid_commitment, valid_limits, validate_context, observe_time, checked_deadline,
  deadline_reached,
}
use file_sender_byte_spark.Transfer.Sequence.{new_sequence, next_outbound_id, observe_inbound}
use file_sender_byte_spark.Transfer.Builder.{add_field}
use file_sender_byte_spark.Transfer.Encode.{
  self_check, numbered_frame, encode_frame, chunk_body, encode_file_chunk_frame, encode_error_frame,
  encode_cancel_frame, encode_cancel_ack_frame,
}
use file_sender_byte_spark.Transfer.Inbound.{
  accept_envelope, parse_inbound, parse_body, unsigned_field, bytes_of, read_transfer_id,
}
use file_sender_byte_spark.Transfer.Receiver.{
  new_receiver, release_reserved_credit, release_stream, on_transaction, abort_transaction,
}
use file_sender_byte_spark.Transfer.Receiver.Endings.{
  wire_error_for_transaction, transfer_error_for_transaction, report, settle_failure, fail,
  cancel_timeout, check_timeout, encode_accept, encode_reject, encode_chunk_ack, encode_file_commit,
  encode_complete_ack,
}
use file_sender_byte_spark.Transfer.Receiver.Closing.{
  cancellation_encoding_failure, cancel_ack_encoding_failure, emit_cancel, emit_cancel_ack,
  finish_cancelled, finish_committed, finish, begin_remote_cancel, apply_cancel_ack,
  pending_encoding_failure, emit_pending_reject, begin_reject, emit_pending_file_commit,
  emit_pending_completion_ack, reject_for_storage,
}
use file_sender_byte_spark.Transfer.Receiver.Offer.{
  allowed_inbound, receive_error, receive_offer, receive_manifest_entry, manifest_verified,
  receive_manifest_end,
}
use file_sender_byte_spark.Transfer.Receiver.Content.{
  receive_file_begin, chunk_fits, chunk_written, chunk_stored, chunk_verified, receive_chunk,
  file_sealed, receive_file_end, receive_file, receive_complete,
}
use file_sender_byte_spark.Transfer.Receiver.Frames.{
  receive_cancel, receive_cancel_ack, receive_in, receive_for_transfer, receive_fields,
  receive_parsed, receive_inbound, receive_late_fields, receive_late, receive_frame,
}
use file_sender_byte_spark.Transfer.Receiver.Calls.{
  create_receiver, send_pending, next_observed, next_outbound, restore_credit,
  confirm_chunk_ack_written,
}
use file_sender_byte_spark.Transfer.Receiver.Decisions.{
  accept_begun, accept_verifier, accept_reserved, window_fits, accept_timely, accept, reject,
  advance, cancel_aborted, cancel_observed, cancel, shut_down,
}
use file_sender_byte_spark.Transfer.Encoding.{IsReadBack, encode_frame-IsReadBack}
use file_sender_byte_spark.Transfer.Receiver.Ended.{run-says_received_still}

abbrev outside : Outside
outside = record {
  platform = one_file;
  integrity = counter;
  provider = record {
    State = Unit {0};
    verify_manifest = λ s m a b c. (s, true);
    verify_chunk_commitment = λ s id entry offset content commitment. (s, true);
    create_file_verifier = λ s id entry commitment. (s, some 0);
  };
  utf8 = ascii;
}

abbrev context : TransferContext
context = record {
  local_role = Role.responder;
  version = version_1_0;
  stream_id = 1;
  limits = record {
    maximum_body = 8192;
    maximum_in_flight = 1048576;
    maximum_active_streams = 4;
    preferred_chunk_size = 4096;
    preferred_initial_window = 8192;
  };
}

abbrev sixteen : List ℕ
sixteen = 1 ∷ 2 ∷ 3 ∷ 4 ∷ 5 ∷ 6 ∷ 7 ∷ 8 ∷ 9 ∷ 10 ∷ 11 ∷ 12 ∷ 13 ∷ 14 ∷ 15 ∷ 16 ∷ []

abbrev for_transfer : BodyBuilder
for_transfer = add_bytes 1 sixteen empty_body

abbrev arrives : MessageType → ℕ → BodyBuilder → Event
arrives type id body =
    Event.receives (record { admits = true; admits_report = true })
      (frame_bytes version_1_0 type 1 id body.bytes) id

abbrev yes : Authority
yes = record { admits = true; admits_report = true }

abbrev offered : List Event
offered =
    arrives MessageType.transfer_offer 1
      (add_bytes 4 sixteen (add_u64 3 3 (add_u32 2 1 for_transfer)))
    ∷ arrives MessageType.manifest_entry 2 (
        add_bytes 6 sixteen (
          add_u64 5 3 (
            add_utf8 4 (97 ∷ []) true
              (add_field 3 WireType.u8 true (1 ∷ []) (add_u32 2 0 for_transfer)))))
    ∷ arrives MessageType.manifest_end 3
        (add_bytes 4 sixteen (add_u64 3 3 (add_u32 2 1 for_transfer)))
    ∷ Event.accepts yes 4096 8192 4
    ∷ []

abbrev start : Endpoint outside
start =
    new_endpoint outside context (new_sequence 1 1) (new_credit 1048576 4) (create_budget 10)
      empty_disk tt

abbrev whole : List Event
whole =
    offered
    ++ (arrives MessageType.file_begin 4 (add_u32 4 4096 (add_u64 3 3 (add_u32 2 0 for_transfer)))
        ∷ arrives MessageType.file_chunk 5 (
            add_bytes 5 sixteen
              (add_bytes 4 (7 ∷ 8 ∷ 9 ∷ []) (add_u64 3 0 (add_u32 2 0 for_transfer))))
        ∷ Event.confirms yes 3 6
        ∷ arrives MessageType.file_end 6
            (add_bytes 4 sixteen (add_u64 3 3 (add_u32 2 0 for_transfer)))
        ∷ arrives MessageType.transfer_complete 7 (add_bytes 2 sixteen for_transfer)
        ∷ [])

whole_state : (receiver_run outside whole start).receiver.state ≡ TransferState.completed
unfolding wire_code wire_of message_code message_of is_connection_message is_transfer_message
    version_less read_loop read_u16 read_u32 read_u64 decode_unsigned u16_bytes u32_bytes u64_bytes
    is_continuation is_unicode_noncharacter code_point_at utf8_loop is_valid_utf8 schema_for
    find_rule fixed_wire_length validate_wire_value count_field find_first read_field rule_error
    schema_error field_error keep_field tlv_loop has_required parse_tlvs field_bytes fields_bytes
    read_header declaration_error header_frame scope_error parse_extensions parse_typed_header
    parse_frame_header envelope_of parse_frame_envelope parse_frame_body parse_frame frame_bytes
    is_ascii_alpha fold_ascii folds_equal ascii_case_insensitive_equals ends_with stem
    is_reserved_stem lacks_device_number is_windows_reserved_component same_bytes is_noncharacter
    codepoint_error strict_utf8_loop is_strict_utf8 codepoints_loop validate_codepoints is_nfc
    text_error component_error components_loop validate_receive_path validate_receive_request
    component_of rest_of join create_budget try_reserve release mark_unresolved error_for_platform
    create_transaction release_reservation finish_cleanup fail_and_cleanup begin_created
    begin_reserved begin_budgeted begin write_verified write_data write commit_finished
    commit_sealed seal_verifier seal_and_commit abort new_credit try_reserve_credit try_adjust
    release_credit with_role consume_id open_expected open_stream last_first remove_stream
    close_stream wire_error_of decode_wire_error transfer_error_for_protocol
    protocol_error_is_connection_fatal wire_error_for_protocol transfer_error_for_wire
    wire_error_is_connection_fatal wire_error_is_fatal wire_error_may_retry
    wire_error_is_reject_reason all_zero valid_commitment valid_limits validate_context observe_time
    checked_deadline deadline_reached new_sequence next_outbound_id observe_inbound add_field
    self_check numbered_frame encode_frame chunk_body encode_file_chunk_frame encode_error_frame
    encode_cancel_frame encode_cancel_ack_frame accept_envelope parse_inbound parse_body
    unsigned_field bytes_of read_transfer_id new_receiver release_reserved_credit release_stream
    on_transaction abort_transaction wire_error_for_transaction transfer_error_for_transaction
    report settle_failure fail cancel_timeout check_timeout encode_accept encode_reject
    encode_chunk_ack encode_file_commit encode_complete_ack cancellation_encoding_failure
    cancel_ack_encoding_failure emit_cancel emit_cancel_ack finish_cancelled finish_committed finish
    begin_remote_cancel apply_cancel_ack pending_encoding_failure emit_pending_reject begin_reject
    emit_pending_file_commit emit_pending_completion_ack reject_for_storage allowed_inbound
    receive_error receive_offer receive_manifest_entry manifest_verified receive_manifest_end
    receive_file_begin chunk_fits chunk_written chunk_stored chunk_verified receive_chunk
    file_sealed receive_file_end receive_file receive_complete receive_cancel receive_cancel_ack
    receive_in receive_for_transfer receive_fields receive_parsed receive_inbound
    receive_late_fields receive_late receive_frame create_receiver send_pending next_observed
    next_outbound restore_credit confirm_chunk_ack_written accept_begun accept_verifier
    accept_reserved window_fits accept_timely accept reject advance cancel_aborted cancel_observed
    cancel shut_down
whole_state = refl

whole_says : says_received (receiver_run outside whole start).receiver.state ≡ true
whole_says = rw whole_state refl

whole_ends : is_terminal (receiver_run outside whole start).receiver.state ≡ true
whole_ends = rw whole_state refl

run-IsReceivedFile_example :
    (tx : ReceiveTransaction ℕ) × ((receiver_run outside whole start).receiver.transaction
      ≡ some tx)
    × IsReceivedFile outside one_file_contract
        (receiver_run outside whole start).receiver.manifest
        tx
        (receiver_run outside whole start).world
run-IsReceivedFile_example =
    run-IsReceivedFile outside context (new_sequence 1 1) (new_credit 1048576 4) (create_budget 10)
      empty_disk tt whole one_file_contract whole_says

run-says_received_example :
    says_received (receiver_run outside whole start).receiver.state
    ≡ is_durable outside (receiver_run outside whole start).receiver.transaction
run-says_received_example =
    run-says_received outside context (new_sequence 1 1) (new_credit 1048576 4) (create_budget 10)
      empty_disk tt whole whole_ends

run-says_received_still_example :
    (is_terminal (receiver_run outside offered (receiver_run outside whole start)).receiver.state
      ≡ true)
    × ((receiver_run outside offered (receiver_run outside whole start)).receiver.transaction
        ≡ (receiver_run outside whole start).receiver.transaction)
    × (says_received
          (receiver_run outside offered (receiver_run outside whole start)).receiver.state
        ≡ says_received (receiver_run outside whole start).receiver.state)
run-says_received_still_example =
    run-says_received_still outside context (new_sequence 1 1) (new_credit 1048576 4)
      (create_budget 10) empty_disk tt whole offered whole_ends

abbrev cancel_body : BodyBuilder
cancel_body = add_u16 2 20 for_transfer

abbrev cancel_bytes : List ℕ
cancel_bytes = frame_bytes version_1_0 MessageType.cancel 1 5 cancel_body.bytes

cancel_encoded :
    encode_frame context MessageType.cancel cancel_body (new_sequence 5 1)
    ≡ (new_sequence 6 1, some cancel_bytes)
unfolding wire_code wire_of message_code message_of is_connection_message is_transfer_message
    version_less read_loop read_u16 read_u32 read_u64 decode_unsigned u16_bytes u32_bytes u64_bytes
    is_continuation is_unicode_noncharacter code_point_at utf8_loop is_valid_utf8 schema_for
    find_rule fixed_wire_length validate_wire_value count_field find_first read_field rule_error
    schema_error field_error keep_field tlv_loop has_required parse_tlvs field_bytes fields_bytes
    read_header declaration_error header_frame scope_error parse_extensions parse_typed_header
    parse_frame_header envelope_of parse_frame_envelope parse_frame_body parse_frame frame_bytes
    is_ascii_alpha fold_ascii folds_equal ascii_case_insensitive_equals ends_with stem
    is_reserved_stem lacks_device_number is_windows_reserved_component same_bytes is_noncharacter
    codepoint_error strict_utf8_loop is_strict_utf8 codepoints_loop validate_codepoints is_nfc
    text_error component_error components_loop validate_receive_path validate_receive_request
    component_of rest_of join create_budget try_reserve release mark_unresolved error_for_platform
    create_transaction release_reservation finish_cleanup fail_and_cleanup begin_created
    begin_reserved begin_budgeted begin write_verified write_data write commit_finished
    commit_sealed seal_verifier seal_and_commit abort new_credit try_reserve_credit try_adjust
    release_credit with_role consume_id open_expected open_stream last_first remove_stream
    close_stream wire_error_of decode_wire_error transfer_error_for_protocol
    protocol_error_is_connection_fatal wire_error_for_protocol transfer_error_for_wire
    wire_error_is_connection_fatal wire_error_is_fatal wire_error_may_retry
    wire_error_is_reject_reason all_zero valid_commitment valid_limits validate_context observe_time
    checked_deadline deadline_reached new_sequence next_outbound_id observe_inbound add_field
    self_check numbered_frame encode_frame chunk_body encode_file_chunk_frame encode_error_frame
    encode_cancel_frame encode_cancel_ack_frame accept_envelope parse_inbound parse_body
    unsigned_field bytes_of read_transfer_id new_receiver release_reserved_credit release_stream
    on_transaction abort_transaction wire_error_for_transaction transfer_error_for_transaction
    report settle_failure fail cancel_timeout check_timeout encode_accept encode_reject
    encode_chunk_ack encode_file_commit encode_complete_ack cancellation_encoding_failure
    cancel_ack_encoding_failure emit_cancel emit_cancel_ack finish_cancelled finish_committed finish
    begin_remote_cancel apply_cancel_ack pending_encoding_failure emit_pending_reject begin_reject
    emit_pending_file_commit emit_pending_completion_ack reject_for_storage allowed_inbound
    receive_error receive_offer receive_manifest_entry manifest_verified receive_manifest_end
    receive_file_begin chunk_fits chunk_written chunk_stored chunk_verified receive_chunk
    file_sealed receive_file_end receive_file receive_complete receive_cancel receive_cancel_ack
    receive_in receive_for_transfer receive_fields receive_parsed receive_inbound
    receive_late_fields receive_late receive_frame create_receiver send_pending next_observed
    next_outbound restore_credit confirm_chunk_ack_written accept_begun accept_verifier
    accept_reserved window_fits accept_timely accept reject advance cancel_aborted cancel_observed
    cancel shut_down
cancel_encoded = refl

cancel_known : MessageType.cancel ≢ MessageType.unset
cancel_known = λ h. cc

five_fits : (new_sequence 5 1).next_outbound < u64_mod
unfolding new_sequence
five_fits = ground arith

encode_frame-IsReadBack_example :
    (id : ℕ) × (next_outbound_id (new_sequence 5 1) ≡ (new_sequence 6 1, some id))
    × IsReadBack context MessageType.cancel cancel_body.bytes id cancel_bytes
encode_frame-IsReadBack_example =
    encode_frame-IsReadBack context MessageType.cancel cancel_body (new_sequence 5 1)
      (new_sequence 6 1) cancel_bytes cancel_known (ground arith) five_fits cancel_encoded

-- ===== src/Transfer/Receiver/Frames.antt =====
-- `OneFileReceiver::ReceiveFrame` of native/src/transfer/receiver.cpp.
use file_sender_byte_spark.Prelude.{
  ℕ, Bool, true, false, ◌&&◌, not, none, some, List, if◌then◌else◌,
}
use file_sender_byte_spark.Protocol.Types.{MessageType, ParsedFrame}
use file_sender_byte_spark.Storage.Component.{same_bytes}
use file_sender_byte_spark.Transfer.Credit.{ConnectionCreditBudget, StreamOpenResult, open_stream}
use file_sender_byte_spark.Transfer.Sequence.{ConnectionMessageSequence}
use file_sender_byte_spark.Transfer.Types.{
  TransferState, TransferError, WireErrorCode, no_error, is_terminal,
}
use file_sender_byte_spark.Transfer.Errors.{decode_wire_error}
use file_sender_byte_spark.Transfer.Limits.{observe_time}
use file_sender_byte_spark.Transfer.Inbound.{
  ParsedTransferFrame, parse_inbound, parse_body, unsigned_field, read_transfer_id,
}
use file_sender_byte_spark.Transfer.Receiver.{
  Outside, Authority, Receiver, Endpoint, update_of, Outcome, on_receiver, quiet,
}
use file_sender_byte_spark.Transfer.Receiver.Endings.{fail, check_timeout}
use file_sender_byte_spark.Transfer.Receiver.Closing.{
  cached_code, emit_cancel_ack, begin_remote_cancel, apply_cancel_ack,
}
use file_sender_byte_spark.Transfer.Receiver.Offer.{
  ◌is◌, is_created, is_cancelled_code, allowed_inbound, violation, malformed, receive_error,
  receive_offer, receive_manifest_entry, receive_manifest_end,
}
use file_sender_byte_spark.Transfer.Receiver.Content.{receive_file, receive_complete}

module _ (o : Outside) where
  abbrev R : Type 0
  R = Receiver o.integrity.Digest

  -- CANCEL and CANCEL_ACK
  unfoldable pub receive_cancel : Authority → ParsedFrame → Endpoint o → Outcome o
  receive_cancel authority frame e =
      if is_cancelled_code (decode_wire_error (unsigned_field frame 2))
      then begin_remote_cancel o e
      else malformed o authority e

  unfoldable pub receive_cancel_ack : Authority → ParsedFrame → Endpoint o → Outcome o
  receive_cancel_ack authority frame e = elim (decode_wire_error (unsigned_field frame 2)) [
    | none ↦ malformed o authority e
    | some code ↦
        if e.receiver.cancel_sent then apply_cancel_ack o code e else malformed o authority e
  ]

  -- The last part, by state.
  unfoldable pub receive_in : TransferState → Authority → ParsedFrame → ℕ → Endpoint o → Outcome o
  receive_in TransferState.cancelling authority frame now e = quiet o e
  receive_in TransferState.receiving_manifest authority frame now e =
      if e.receiver.manifest_entry_received
      then receive_manifest_end o authority frame now e
      else receive_manifest_entry o authority frame now e
  receive_in TransferState.receiving_file authority frame now e =
      receive_file o authority frame now e
  receive_in TransferState.awaiting_completion authority frame now e =
      receive_complete o authority frame now e
  receive_in _ authority frame now e = violation o authority e

  unfoldable pub receive_for_transfer :
      Authority → List ℕ → ParsedFrame → ℕ → Endpoint o → Outcome o
  receive_for_transfer authority transfer_id frame now e =
      if is_created e.receiver.state
      then receive_offer o authority transfer_id frame now e
      else if not (same_bytes transfer_id e.receiver.manifest.transfer_id)
      then fail o authority TransferError.idempotency_conflict WireErrorCode.idempotency_conflict
          false e
      else if frame.header.message_type is MessageType.cancel
      then receive_cancel authority frame e
      else if frame.header.message_type is MessageType.cancel_ack
      then receive_cancel_ack authority frame e
      else receive_in e.receiver.state authority frame now e

  -- The frame with its fields.
  unfoldable pub receive_fields : Authority → ParsedFrame → ℕ → Endpoint o → Outcome o
  receive_fields authority frame now e =
      if frame.header.message_type is MessageType.error
      then receive_error o authority frame e
      else elim (read_transfer_id frame) [
        | none ↦ malformed o authority e
        | some transfer_id ↦ receive_for_transfer authority transfer_id frame now e
      ]

  unfoldable pub receive_parsed : Authority → ParsedTransferFrame → ℕ → Endpoint o → Outcome o
  receive_parsed authority parsed now e =
      let body = parse_body parsed in
      if not (
        allowed_inbound e.receiver.state parsed.frame.header.message_type
          e.receiver.manifest_entry_received e.receiver.file_begin_received
          e.receiver.cancel_origin_state)
      then violation o authority e
      else if not (no_error body.error)
      then fail o authority body.error body.wire_error body.connection_fatal e
      else receive_fields authority body.frame now e

  -- Behind the timeouts.
  abbrev pub receive_in_time : Authority → ParsedTransferFrame → ℕ → Outcome o → Outcome o
  receive_in_time authority parsed now (e, timeout) =
      if no_error timeout.error then receive_parsed authority parsed now e else (e, timeout)

  -- The stream of an offer is opened with its first frame.
  abbrev pub with_stream :
      Authority
      → Endpoint o
      → ConnectionCreditBudget × StreamOpenResult
      → (Endpoint o → Outcome o)
      → Outcome o
  with_stream authority e (credit, StreamOpenResult.opened) go_on =
      go_on
        (record e { credit = credit; receiver = record (e.receiver) { stream_reserved = true } })
  with_stream authority e (credit, StreamOpenResult.capacity_rejected) go_on =
      fail o authority TransferError.busy WireErrorCode.busy false (record e { credit = credit })
  with_stream authority e (credit, StreamOpenResult.invalid) go_on =
      violation o authority (record e { credit = credit })

  unfoldable pub receive_inbound : Authority → ParsedTransferFrame → ℕ → Endpoint o → Outcome o
  receive_inbound authority parsed now e =
      let go_on = λ (e' : Endpoint o).
        receive_in_time authority parsed now (check_timeout o authority now e') in
      if not (no_error parsed.error)
      then fail o authority parsed.error parsed.wire_error parsed.connection_fatal e
      else if not e.receiver.stream_reserved && is_created e.receiver.state
      then with_stream authority e
          (open_stream e.receiver.context.stream_id false e.receiver.context.local_role e.credit)
          go_on
      else go_on e

  -- The current update, with the error of a frame that changes nothing.
  abbrev pub late_update : TransferError → WireErrorCode → Bool → Endpoint o → Outcome o
  late_update error code connection_fatal e = (
    e,
    record (update_of e.receiver) {
      error = error;
      wire_error = code;
      connection_fatal = connection_fatal;
      retryable = false;
    },
  )

  -- A frame for a transfer that has ended.
  unfoldable pub receive_late_fields : ParsedFrame → Endpoint o → Outcome o
  receive_late_fields frame e =
      let type = frame.header.message_type in
      let code = decode_wire_error (unsigned_field frame 2) in
      let conflict : Outcome o =
        late_update TransferError.idempotency_conflict WireErrorCode.idempotency_conflict false e in
      let wrong : Outcome o =
        late_update TransferError.state_violation WireErrorCode.state_violation false e in
      elim (read_transfer_id frame) [
        | none ↦ conflict
        | some transfer_id ↦
            if not (same_bytes transfer_id e.receiver.manifest.transfer_id)
            then conflict
            else if type is MessageType.cancel && is_cancelled_code code
            then emit_cancel_ack o (
                on_receiver o
                  (λ r. record r {
                    cancel_ack_failure_is_terminal =
                        r.cancel_ack_pending && r.cancel_ack_failure_is_terminal;
                    cancel_ack_pending = true;
                    pending_cancel_ack_code = cached_code o r.state r.terminal_wire_error;
                  })
                  e)
            else if type is MessageType.cancel_ack && e.receiver.cancel_sent
            then elim code [ none ↦ wrong | some c ↦ apply_cancel_ack o c e ]
            else wrong
      ]

  unfoldable pub receive_late : ParsedTransferFrame → Endpoint o → Outcome o
  receive_late parsed e =
      let body = parse_body parsed in
      if not (no_error parsed.error)
      then late_update parsed.error parsed.wire_error parsed.connection_fatal e
      else if not (no_error body.error)
      then late_update body.error body.wire_error body.connection_fatal e
      else receive_late_fields body.frame e

  abbrev pub parsed_then :
      ConnectionMessageSequence × ParsedTransferFrame
      → Endpoint o
      → (ParsedTransferFrame → Endpoint o → Outcome o)
      → Outcome o
  parsed_then (sequence, parsed) e go_on = go_on parsed (record e { sequence = sequence })

  unfoldable pub receive_frame : Authority → List ℕ → ℕ → Endpoint o → Outcome o
  receive_frame authority encoded now e =
      let parsing = parse_inbound authority.admits e.receiver.context encoded e.sequence in
      if e.receiver.shutdown
      then quiet o e
      else if is_terminal e.receiver.state
      then parsed_then parsing e receive_late
      else elim (observe_time now e.receiver.last_now_ms) [
        | none ↦ violation o authority e
        | some seen ↦
            parsed_then parsing (on_receiver o (λ r. record r { last_now_ms = seen }) e)
              (λ parsed e'. receive_inbound authority parsed now e')
      ]

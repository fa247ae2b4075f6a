-- ===== src/Transfer/Receiver/Endings.antt =====
-- How a receiver fails, rejects, cancels and completes: the members of `Implementation` in
-- native/src/transfer/receiver.cpp that end a transfer or send its last frames.
use file_sender_byte_spark.Prelude.{
  ℕ, Bool, true, false, ◌&&◌, ◌||◌, not, none, some, if◌then◌else◌,
}
use file_sender_byte_spark.Protocol.Types.{MessageType}
use file_sender_byte_spark.Storage.Types.{TransactionError, TransactionResult}
use file_sender_byte_spark.Transfer.Types.{
  TransferState, TransferError, WireErrorCode, TransferUpdate, no_wire_error,
}
use file_sender_byte_spark.Transfer.Errors.{wire_error_value, wire_error_may_retry}
use file_sender_byte_spark.Transfer.Limits.{deadline_reached}
use file_sender_byte_spark.Transfer.Sequence.{ConnectionMessageSequence}
use file_sender_byte_spark.Transfer.Builder.{
  empty_body, add_u16, add_u32, add_u64, add_bool, add_bytes,
}
use file_sender_byte_spark.Transfer.Encode.{Encoded, encode_frame, encode_error_frame}
use file_sender_byte_spark.Transfer.Receiver.{
  Outside, Authority, Receiver, Endpoint, update_of, end_in, clear_cancel, Outcome, on_receiver,
  quiet, release_both, abort_transaction, is_durable,
}

abbrev pub code_of_transaction : TransactionError → WireErrorCode
code_of_transaction TransactionError.none = WireErrorCode.none
code_of_transaction TransactionError.temporary_budget_exceeded = WireErrorCode.busy
code_of_transaction TransactionError.no_space = WireErrorCode.no_space
code_of_transaction TransactionError.integrity_failed = WireErrorCode.integrity_failed
code_of_transaction _ = WireErrorCode.io_failure

unfoldable pub wire_error_for_transaction : TransactionResult → WireErrorCode
wire_error_for_transaction result = code_of_transaction result.error

abbrev pub error_of_transaction : TransactionError → TransferError
error_of_transaction TransactionError.none = TransferError.none
error_of_transaction TransactionError.temporary_budget_exceeded = TransferError.busy
error_of_transaction TransactionError.no_space = TransferError.no_space
error_of_transaction TransactionError.integrity_failed = TransferError.integrity_failed
error_of_transaction _ = TransferError.io_failure

unfoldable pub transfer_error_for_transaction : TransactionResult → TransferError
transfer_error_for_transaction result = error_of_transaction result.error

module _ (o : Outside) where
  abbrev R : Type 0
  R = Receiver o.integrity.Digest

  -- The ERROR frame, if it can be encoded.
  abbrev pub with_report : Encoded → TransferUpdate → Endpoint o → Outcome o
  with_report (sequence, none) update e = (record e { sequence = sequence }, update)
  with_report (sequence, some frame) update e =
      (record e { sequence = sequence }, record update { outbound_frame = frame })

  unfoldable pub report : Bool → WireErrorCode → Bool → TransferUpdate → Endpoint o → Outcome o
  report reports code retryable update e =
      if reports
      then with_report (encode_error_frame e.receiver.context code retryable e.sequence) update e
      else (e, update)

  -- `state`, with what is remembered of the end, after the transaction is aborted unless its file
  -- is committed.
  unfoldable pub settle_failure :
      TransferState
      → TransferState
      → TransferError
      → WireErrorCode
      → Bool
      → Bool
      → Endpoint o
      → Endpoint o
  settle_failure durable_state other_state error wire_error connection_fatal retryable e =
      if is_durable o e.receiver.transaction
      then on_receiver o (end_in durable_state error wire_error connection_fatal retryable)
          (release_both o e)
      else on_receiver o (end_in other_state error wire_error connection_fatal retryable)
          (release_both o (abort_transaction o e))

  unfoldable pub fail : Authority → TransferError → WireErrorCode → Bool → Endpoint o → Outcome o
  fail authority error wire_error connection_fatal e =
      let retryable = wire_error_may_retry wire_error in
      let settled = on_receiver o clear_cancel (
        settle_failure TransferState.committed TransferState.failed error wire_error
          connection_fatal retryable e) in
      report (not connection_fatal && not (no_wire_error wire_error) && authority.admits_report)
        wire_error retryable (update_of settled.receiver) settled

  unfoldable pub cancel_timeout : Authority → Endpoint o → Outcome o
  cancel_timeout authority e =
      let released = release_both o (abort_transaction o e) in
      let ended =
        on_receiver o
          (λ r.
            end_in TransferState.failed TransferError.timeout WireErrorCode.timeout false false
              (record r {
                cancel_frame_pending = false;
                cancel_ack_pending = false;
                cancel_sent = false;
                cancel_deadline_ms = 0;
              }))
          released in
      report authority.admits_report WireErrorCode.timeout false (update_of ended.receiver) ended

  abbrev pub is_late : ℕ → TransferState → R → Bool
  is_late now TransferState.receiving_manifest r =
      deadline_reached now r.manifest_deadline_ms
      || deadline_reached now r.manifest_progress_deadline_ms
  is_late now TransferState.awaiting_decision r = deadline_reached now r.decision_deadline_ms
  is_late now TransferState.rejecting r = deadline_reached now r.data_deadline_ms
  is_late now TransferState.receiving_file r = deadline_reached now r.data_deadline_ms
  is_late now TransferState.awaiting_completion r = deadline_reached now r.data_deadline_ms
  is_late now _ r = false

  abbrev pub cancel_is_late : ℕ → TransferState → R → Bool
  cancel_is_late now TransferState.cancelling r =
      r.cancel_sent && deadline_reached now r.cancel_deadline_ms
  cancel_is_late now _ r = false

  unfoldable pub check_timeout : Authority → ℕ → Endpoint o → Outcome o
  check_timeout authority now e =
      if is_late now e.receiver.state e.receiver
      then fail authority TransferError.timeout WireErrorCode.timeout false e
      else if cancel_is_late now e.receiver.state e.receiver
      then cancel_timeout authority e
      else quiet o e

  unfoldable pub encode_accept : R → ConnectionMessageSequence → Encoded
  encode_accept r sequence =
      encode_frame r.context MessageType.transfer_accept
        (add_u32 3 r.initial_window
          (add_u32 2 r.chunk_size (add_bytes 1 r.manifest.transfer_id empty_body)))
        sequence

  unfoldable pub encode_reject : R → WireErrorCode → Bool → ConnectionMessageSequence → Encoded
  encode_reject r code retryable sequence =
      encode_frame r.context MessageType.transfer_reject
        (add_bool 3 retryable true
          (add_u16 2 (wire_error_value code) (add_bytes 1 r.manifest.transfer_id empty_body)))
        sequence

  unfoldable pub encode_chunk_ack : R → ConnectionMessageSequence → Encoded
  encode_chunk_ack r sequence =
      encode_frame r.context MessageType.chunk_ack
        (add_u32 4 r.last_chunk_size
          (add_u64 3 r.next_offset (add_u32 2 0 (add_bytes 1 r.manifest.transfer_id empty_body))))
        sequence

  unfoldable pub encode_file_commit : R → ConnectionMessageSequence → Encoded
  encode_file_commit r sequence =
      encode_frame r.context MessageType.file_commit
        (add_u64 3 r.manifest.file_size
          (add_u32 2 0 (add_bytes 1 r.manifest.transfer_id empty_body)))
        sequence

  unfoldable pub encode_complete_ack : R → ConnectionMessageSequence → Encoded
  encode_complete_ack r sequence =
      encode_frame r.context MessageType.transfer_complete_ack
        (add_bytes 2 r.manifest.manifest_commitment (add_bytes 1 r.manifest.transfer_id empty_body))
        sequence

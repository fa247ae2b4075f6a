-- ===== src/Transfer/Receiver/Closing.antt =====
-- How a receiver cancels, rejects and completes: the members of `Implementation` in
-- native/src/transfer/receiver.cpp that send its last frames.
use file_sender_byte_spark.Prelude.{ℕ, Bool, true, false, not, if◌then◌else◌}
use file_sender_byte_spark.Storage.Types.{TransactionResult}
use file_sender_byte_spark.Transfer.Types.{
  TransferState, TransferError, WireErrorCode, cancel_acknowledgement_timeout_ms,
  data_progress_timeout_ms,
}
use file_sender_byte_spark.Transfer.Errors.{
  transfer_error_for_wire, wire_error_is_connection_fatal, wire_error_may_retry,
  wire_error_is_reject_reason,
}
use file_sender_byte_spark.Transfer.Limits.{checked_deadline}
use file_sender_byte_spark.Transfer.Encode.{encode_cancel_frame, encode_cancel_ack_frame}
use file_sender_byte_spark.Transfer.Receiver.{
  Outside, Authority, Receiver, Endpoint, update_of, end_in, clear_cancel, Outcome, on_receiver,
  quiet, release_both, release_reserved_credit, release_stream, abort_transaction, is_durable,
  with_frame,
}
use file_sender_byte_spark.Transfer.Receiver.Endings.{
  wire_error_for_transaction, transfer_error_for_transaction, fail, encode_reject,
  encode_file_commit, encode_complete_ack,
}

module _ (o : Outside) where
  abbrev R : Type 0
  R = Receiver o.integrity.Digest

  abbrev pub cached_code : TransferState → WireErrorCode → WireErrorCode
  cached_code TransferState.committed code = WireErrorCode.completed
  cached_code TransferState.completed code = WireErrorCode.completed
  cached_code TransferState.cancelled code = WireErrorCode.cancelled
  cached_code _ WireErrorCode.none = WireErrorCode.cancelled
  cached_code _ code = code

  -- The update of a frame that could not be encoded, and may be tried again.
  abbrev pub try_again : Endpoint o → Outcome o
  try_again e = (
    e,
    record (update_of e.receiver) {
      error = TransferError.internal_failure;
      wire_error = WireErrorCode.busy;
      retryable = true;
    },
  )

  unfoldable pub cancellation_encoding_failure : Endpoint o → Outcome o
  cancellation_encoding_failure e =
      if e.sequence.outbound_exhausted
      then quiet o (
          on_receiver o
            (end_in TransferState.cancelled TransferError.message_id_violation
              WireErrorCode.message_id_violation true false)
            (release_both o (
              on_receiver o
                (λ r. record r {
                  cancel_frame_pending = false;
                  cancel_ack_pending = false;
                  cancel_sent = false;
                })
                e)))
      else try_again e

  unfoldable pub cancel_ack_encoding_failure : Endpoint o → Outcome o
  cancel_ack_encoding_failure e =
      let dropped = on_receiver o (λ r. record r { cancel_ack_pending = false }) e in
      if not e.sequence.outbound_exhausted
      then try_again e
      else if e.receiver.cancel_ack_failure_is_terminal
      then quiet o (
          on_receiver o
            (end_in e.receiver.state TransferError.message_id_violation
              WireErrorCode.message_id_violation true false)
            dropped)
      else (
        dropped,
        record (update_of e.receiver) {
          error = TransferError.message_id_violation;
          wire_error = WireErrorCode.message_id_violation;
          connection_fatal = true;
        },
      )

  unfoldable pub emit_cancel : Endpoint o → Outcome o
  emit_cancel e =
      with_frame o
        (encode_cancel_frame e.receiver.context e.receiver.manifest.transfer_id e.sequence)
        (λ frame e'. (
          on_receiver o
              (λ r. record r {
                cancel_frame_pending = false;
                cancel_sent = true;
                cancel_deadline_ms =
                    checked_deadline r.last_now_ms cancel_acknowledgement_timeout_ms;
              })
              e',
          record (update_of e.receiver) { outbound_frame = frame },
        ))
        cancellation_encoding_failure e

  unfoldable pub emit_cancel_ack : Endpoint o → Outcome o
  emit_cancel_ack e =
      with_frame o
        (encode_cancel_ack_frame e.receiver.context e.receiver.manifest.transfer_id
          e.receiver.pending_cancel_ack_code e.sequence)
        (λ frame e'. (
          on_receiver o
              (λ r. record r { cancel_ack_pending = false; cancel_ack_failure_is_terminal = false })
              e',
          record (update_of e.receiver) { outbound_frame = frame },
        ))
        cancel_ack_encoding_failure e

  unfoldable pub finish_cancelled : Endpoint o → Endpoint o
  finish_cancelled e =
      on_receiver o
        (end_in TransferState.cancelled TransferError.cancelled WireErrorCode.cancelled false false)
        (release_both o (abort_transaction o (on_receiver o clear_cancel e)))

  unfoldable pub finish_committed : Endpoint o → Endpoint o
  finish_committed e =
      on_receiver o
        (end_in TransferState.committed TransferError.none WireErrorCode.none false false)
        (release_both o (on_receiver o clear_cancel e))

  -- `committed ? FinishCommitted() : FinishCancelled()`
  unfoldable pub finish : Endpoint o → Endpoint o
  finish e = if is_durable o e.receiver.transaction then finish_committed e else finish_cancelled e

  unfoldable pub begin_remote_cancel : Endpoint o → Outcome o
  begin_remote_cancel e =
      let committed = is_durable o e.receiver.transaction in
      emit_cancel_ack (
        on_receiver o
          (λ r. record r {
            cancel_sent = e.receiver.cancel_sent;
            cancel_ack_pending = true;
            cancel_ack_failure_is_terminal = true;
            pending_cancel_ack_code =
                if committed then WireErrorCode.completed else WireErrorCode.cancelled;
          })
          (finish e))

  -- The end that CANCEL_ACK says, where the file is not taken for committed.
  abbrev pub acknowledged_end : WireErrorCode → R → R
  acknowledged_end WireErrorCode.cancelled r =
      end_in TransferState.cancelled TransferError.cancelled WireErrorCode.cancelled false false r
  acknowledged_end code r =
      if wire_error_is_reject_reason code
      then end_in TransferState.rejected (transfer_error_for_wire code) code false
          (wire_error_may_retry code) r
      else end_in TransferState.failed (transfer_error_for_wire code) code
          (wire_error_is_connection_fatal code) (wire_error_may_retry code) r

  abbrev pub acknowledged : WireErrorCode → Endpoint o → Endpoint o
  acknowledged WireErrorCode.completed e =
      if is_durable o e.receiver.transaction
      then on_receiver o
          (end_in TransferState.completed TransferError.none WireErrorCode.none false false) e
      else on_receiver o
          (end_in TransferState.failed TransferError.state_violation WireErrorCode.state_violation
            false false)
          (abort_transaction o e)
  acknowledged code e = on_receiver o (acknowledged_end code) (abort_transaction o e)

  unfoldable pub apply_cancel_ack : WireErrorCode → Endpoint o → Outcome o
  apply_cancel_ack code e =
      quiet o (acknowledged code (release_both o (on_receiver o clear_cancel e)))

  unfoldable pub pending_encoding_failure : Authority → Endpoint o → Outcome o
  pending_encoding_failure authority e =
      if e.sequence.outbound_exhausted
      then fail o authority TransferError.message_id_violation WireErrorCode.message_id_violation
          true e
      else try_again e

  unfoldable pub emit_pending_reject : Authority → Endpoint o → Outcome o
  emit_pending_reject authority e =
      let r = e.receiver in
      with_frame o (encode_reject o r r.pending_reject_code r.pending_reject_retryable e.sequence)
        (λ frame e'. (
          on_receiver o (λ r'. record r' { pending_reject = false })
              (release_stream o (
                on_receiver o
                  (end_in TransferState.rejected r.pending_reject_error r.pending_reject_code false
                    r.pending_reject_retryable)
                  e')),
          record (update_of r) {
            state = TransferState.rejected;
            error = r.pending_reject_error;
            wire_error = r.pending_reject_code;
            outbound_frame = frame;
            terminal = true;
            retryable = r.pending_reject_retryable;
          },
        ))
        (pending_encoding_failure authority) e

  unfoldable pub begin_reject :
      Authority → TransferError → WireErrorCode → Bool → ℕ → Endpoint o → Outcome o
  begin_reject authority error wire_error retryable now e = emit_pending_reject authority (
      on_receiver o
        (λ r. record r {
          state = TransferState.rejecting;
          pending_reject = true;
          pending_reject_error = error;
          pending_reject_code = wire_error;
          pending_reject_retryable = retryable;
          data_deadline_ms = checked_deadline now data_progress_timeout_ms;
        })
        (release_reserved_credit o (abort_transaction o e)))

  unfoldable pub emit_pending_file_commit : Authority → Endpoint o → Outcome o
  emit_pending_file_commit authority e =
      with_frame o (encode_file_commit o e.receiver e.sequence)
        (λ frame e'. (
          on_receiver o (λ r. record r { file_commit_sent = true }) e',
          record (update_of e.receiver) { outbound_frame = frame },
        ))
        (pending_encoding_failure authority) e

  unfoldable pub emit_pending_completion_ack : Authority → Endpoint o → Outcome o
  emit_pending_completion_ack authority e =
      with_frame o (encode_complete_ack o e.receiver e.sequence)
        (λ frame e'. (
          on_receiver o
              (end_in TransferState.completed TransferError.none WireErrorCode.none false false)
              (release_both o
                (on_receiver o (λ r. record r { completion_ack_pending = false }) e')),
          record (update_of e.receiver) {
            state = TransferState.completed;
            outbound_frame = frame;
            terminal = true;
          },
        ))
        (pending_encoding_failure authority) e

  abbrev pub retries_storage : WireErrorCode → Bool
  retries_storage WireErrorCode.busy = true
  retries_storage WireErrorCode.no_space = true
  retries_storage WireErrorCode.io_failure = true
  retries_storage _ = false

  unfoldable pub reject_for_storage : Authority → TransactionResult → ℕ → Endpoint o → Outcome o
  reject_for_storage authority result now e =
      let error = transfer_error_for_transaction result in
      let wire_error = wire_error_for_transaction result in
      if wire_error_is_reject_reason wire_error
      then begin_reject authority error wire_error (retries_storage wire_error) now e
      else fail o authority error wire_error false e

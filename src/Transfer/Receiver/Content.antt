-- ===== src/Transfer/Receiver/Content.antt =====
-- The file: the part of `OneFileReceiver::ReceiveFrame` in native/src/transfer/receiver.cpp
-- that takes
-- its chunks, its end and TRANSFER_COMPLETE.
use file_sender_byte_spark.Prelude.{
  ℕ, ◌-◌, Bool, true, false, ◌&&◌, ◌||◌, not, List, length, ltb, ◌==◌, ◌!=◌, if◌then◌else◌, add64,
  sub64,
}
use file_sender_byte_spark.Protocol.Types.{MessageType, ParsedFrame}
use file_sender_byte_spark.Storage.Types.{TransactionResult}
use file_sender_byte_spark.Storage.Component.{same_bytes}
use file_sender_byte_spark.Storage.Transaction.{write, seal_and_commit}
use file_sender_byte_spark.Transfer.Types.{
  TransferState, TransferError, WireErrorCode, data_progress_timeout_ms,
}
use file_sender_byte_spark.Transfer.Limits.{valid_commitment, checked_deadline}
use file_sender_byte_spark.Transfer.Inbound.{unsigned_field, bytes_of}
use file_sender_byte_spark.Transfer.Receiver.{
  Outside, Authority, Receiver, Endpoint, update_of, Outcome, on_receiver, quiet, on_transaction,
  with_frame,
}
use file_sender_byte_spark.Transfer.Receiver.Endings.{
  wire_error_for_transaction, transfer_error_for_transaction, fail, encode_chunk_ack,
}
use file_sender_byte_spark.Transfer.Receiver.Closing.{
  emit_pending_file_commit, emit_pending_completion_ack,
}
use file_sender_byte_spark.Transfer.Receiver.Offer.{◌is◌, is_success, violation, unverified}

module _ (o : Outside) where
  abbrev R : Type 0
  R = Receiver o.integrity.Digest

  -- FILE_BEGIN
  unfoldable pub receive_file_begin : Authority → ParsedFrame → Endpoint o → Outcome o
  receive_file_begin authority frame e =
      if not (frame.header.message_type is MessageType.file_begin)
        || unsigned_field frame 2 != 0
        || unsigned_field frame 3 != e.receiver.manifest.file_size
        || unsigned_field frame 4 != e.receiver.chunk_size
      then violation o authority e
      else quiet o (on_receiver o (λ r. record r { file_begin_received = true }) e)

  -- FILE_CHUNK: whether it is the next piece, of the agreed size unless it is the last one.
  unfoldable pub chunk_fits : ParsedFrame → R → Bool
  chunk_fits frame r =
      let size = length (bytes_of frame 4) in
      unsigned_field frame 2 == 0
      && unsigned_field frame 3 == r.next_offset
      && not (size == 0)
      && not (ltb r.chunk_size size)
      && not (ltb (sub64 r.manifest.file_size r.next_offset) size)
      && not (ltb (add64 r.next_offset size) r.manifest.file_size && size != r.chunk_size)
      && valid_commitment (bytes_of frame 5)

  -- The acknowledgement of a chunk that is written.
  unfoldable pub chunk_written : Authority → ℕ → ℕ → Endpoint o → Outcome o
  chunk_written authority size now e =
      let counted =
        on_receiver o
          (λ r. record r {
            available_credit = r.available_credit - size;
            next_offset = add64 r.next_offset size;
            last_chunk_size = size;
          })
          e in
      with_frame o (encode_chunk_ack o counted.receiver counted.sequence)
        (λ frame e'. (
          on_receiver o
              (λ r. record r {
                last_ack_encoded_offset = r.next_offset;
                data_deadline_ms = checked_deadline now data_progress_timeout_ms;
              })
              e',
          record (update_of counted.receiver) { outbound_frame = frame },
        ))
        (fail o authority TransferError.internal_failure WireErrorCode.busy false) counted

  -- What `Write` answers.
  unfoldable pub chunk_stored : Authority → ℕ → ℕ → Endpoint o × TransactionResult → Outcome o
  chunk_stored authority size now (e, result) =
      if is_success result.error
      then chunk_written authority size now e
      else fail o authority (transfer_error_for_transaction result)
          (wire_error_for_transaction result) false e

  unfoldable pub chunk_verified : Authority → List ℕ → ℕ → Bool → Endpoint o → Outcome o
  chunk_verified authority content now verified e =
      if verified
      then chunk_stored authority (length content) now
          (on_transaction o (write o.platform o.integrity content) e)
      else unverified o authority e

  unfoldable pub receive_chunk : Authority → ParsedFrame → ℕ → Endpoint o → Outcome o
  receive_chunk authority frame now e =
      let content = bytes_of frame 4 in
      let (provided, verified) =
        o.provider.verify_chunk_commitment e.provided e.receiver.manifest.transfer_id 0
          e.receiver.next_offset content (bytes_of frame 5) in
      if not (chunk_fits frame e.receiver)
      then violation o authority e
      else if ltb e.receiver.available_credit (length content)
      then fail o authority TransferError.limit_exceeded WireErrorCode.limit_exceeded false e
      else chunk_verified authority content now verified (record e { provided = provided })

  -- What `SealAndCommit` answers.
  unfoldable pub file_sealed : Authority → ℕ → Endpoint o × TransactionResult → Outcome o
  file_sealed authority now (e, result) =
      if is_success result.error
      then emit_pending_file_commit o authority (
          on_receiver o
            (λ r. record r {
              state = TransferState.awaiting_completion;
              data_deadline_ms = checked_deadline now data_progress_timeout_ms;
            })
            e)
      else fail o authority (transfer_error_for_transaction result)
          (wire_error_for_transaction result) false e

  -- FILE_END
  unfoldable pub receive_file_end : Authority → ParsedFrame → ℕ → Endpoint o → Outcome o
  receive_file_end authority frame now e =
      if unsigned_field frame 2 != 0
        || unsigned_field frame 3 != e.receiver.manifest.file_size
        || e.receiver.next_offset != e.receiver.manifest.file_size
        || not (same_bytes (bytes_of frame 4) e.receiver.manifest.file_commitment)
      then violation o authority e
      else file_sealed authority now (on_transaction o (seal_and_commit o.platform o.integrity) e)

  unfoldable pub receive_file : Authority → ParsedFrame → ℕ → Endpoint o → Outcome o
  receive_file authority frame now e =
      if not e.receiver.file_begin_received
      then receive_file_begin authority frame e
      else if frame.header.message_type is MessageType.file_chunk
      then receive_chunk authority frame now e
      else if frame.header.message_type is MessageType.file_end
      then receive_file_end authority frame now e
      else violation o authority e

  -- TRANSFER_COMPLETE
  unfoldable pub receive_complete : Authority → ParsedFrame → ℕ → Endpoint o → Outcome o
  receive_complete authority frame now e =
      if not e.receiver.file_commit_sent
        || not (frame.header.message_type is MessageType.transfer_complete)
        || not (same_bytes (bytes_of frame 2) e.receiver.manifest.manifest_commitment)
      then violation o authority e
      else emit_pending_completion_ack o authority (
          on_receiver o
            (λ r. record r {
              completion_ack_pending = true;
              data_deadline_ms = checked_deadline now data_progress_timeout_ms;
            })
            e)

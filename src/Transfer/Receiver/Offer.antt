-- ===== src/Transfer/Receiver/Offer.antt =====
-- TRANSFER_OFFER and the manifest: the first part of `OneFileReceiver::ReceiveFrame` in
-- native/src/transfer/receiver.cpp, and which frames a state admits.
use file_sender_byte_spark.Prelude.{
  ℕ, Bool, true, false, ◌&&◌, ◌||◌, not, Option, none, some, List, ltb, ◌==◌, ◌!=◌, if◌then◌else◌,
}
use file_sender_byte_spark.Protocol.Types.{MessageType, message_code, ParsedFrame}
use file_sender_byte_spark.Storage.Types.{TransactionError}
use file_sender_byte_spark.Storage.Component.{max_file_bytes, same_bytes}
use file_sender_byte_spark.Storage.Path.{RequestValidationResult, validate_receive_request}
use file_sender_byte_spark.Transfer.Types.{
  TransferState, TransferError, WireErrorCode, manifest_timeout_ms, manifest_progress_timeout_ms,
  decision_timeout_ms,
}
use file_sender_byte_spark.Transfer.Errors.{
  decode_wire_error, transfer_error_for_wire, wire_error_is_fatal, wire_error_is_connection_fatal,
  wire_error_may_retry,
}
use file_sender_byte_spark.Transfer.Limits.{all_zero, valid_commitment, checked_deadline}
use file_sender_byte_spark.Transfer.Inbound.{unsigned_field, bytes_of}
use file_sender_byte_spark.Transfer.Receiver.{
  Outside, Authority, Receiver, Endpoint, update_of, Outcome, on_receiver, quiet,
}
use file_sender_byte_spark.Transfer.Receiver.Endings.{settle_failure, fail}

infix 50 ◌is◌
abbrev pub ◌is◌ : MessageType → MessageType → Bool
a is b = message_code a == message_code b

abbrev pub is_created : TransferState → Bool
is_created TransferState.created = true
is_created _ = false

abbrev pub is_success : TransactionError → Bool
is_success TransactionError.none = true
is_success _ = false

abbrev pub is_cancelled_code : Option WireErrorCode → Bool
is_cancelled_code (some WireErrorCode.cancelled) = true
is_cancelled_code _ = false

-- What may come next, while a manifest and while a file is received.
abbrev pub manifest_next : Bool → MessageType → Bool
manifest_next true type = type is MessageType.manifest_end
manifest_next false type = type is MessageType.manifest_entry

abbrev pub file_next : Bool → MessageType → Bool
file_next true type = type is MessageType.file_chunk || type is MessageType.file_end
file_next false type = type is MessageType.file_begin

abbrev pub expected_in : TransferState → MessageType → Bool → Bool → Bool
expected_in TransferState.created type entry begun = type is MessageType.transfer_offer
expected_in TransferState.receiving_manifest type entry begun = manifest_next entry type
expected_in TransferState.receiving_file type entry begun = file_next begun type
expected_in TransferState.awaiting_completion type entry begun =
    type is MessageType.transfer_complete
expected_in _ type entry begun = false

-- While cancelling, what was under way may still come.
abbrev pub expected_cancelling : TransferState → MessageType → Bool → Bool → Bool
expected_cancelling TransferState.receiving_manifest type entry begun = manifest_next entry type
expected_cancelling TransferState.receiving_file type entry begun = file_next begun type
expected_cancelling _ type entry begun = false

abbrev pub is_cancelling : TransferState → Bool
is_cancelling TransferState.cancelling = true
is_cancelling _ = false

unfoldable pub allowed_inbound : TransferState → MessageType → Bool → Bool → TransferState → Bool
allowed_inbound state type entry begun origin =
    if type is MessageType.error
    then true
    else if type is MessageType.cancel
    then not (is_created state)
    else if type is MessageType.cancel_ack
    then is_cancelling state
    else if is_cancelling state
    then expected_cancelling origin type entry begun
    else expected_in state type entry begun

module _ (o : Outside) where
  abbrev R : Type 0
  R = Receiver o.integrity.Digest

  -- `Fail` with errors of the same name.
  abbrev pub violation : Authority → Endpoint o → Outcome o
  violation authority e =
      fail o authority TransferError.state_violation WireErrorCode.state_violation false e

  abbrev pub malformed : Authority → Endpoint o → Outcome o
  malformed authority e =
      fail o authority TransferError.malformed_message WireErrorCode.malformed_message false e

  abbrev pub bad_manifest : Authority → Endpoint o → Outcome o
  bad_manifest authority e =
      fail o authority TransferError.invalid_manifest WireErrorCode.invalid_manifest false e

  abbrev pub unverified : Authority → Endpoint o → Outcome o
  unverified authority e =
      fail o authority TransferError.integrity_failed WireErrorCode.integrity_failed false e

  -- ERROR
  unfoldable pub receive_error : Authority → ParsedFrame → Endpoint o → Outcome o
  receive_error authority frame e =
      let fatal = unsigned_field frame 2 != 0 in
      let retryable = unsigned_field frame 3 != 0 in
      let slow = ltb 60000 (unsigned_field frame 5) in
      elim (decode_wire_error (unsigned_field frame 1)) [
        | none ↦ malformed authority e
        | some code ↦
            if (fatal && not (wire_error_is_fatal code))
              || (not fatal && wire_error_is_fatal code)
              || (retryable && not (wire_error_may_retry code))
              || slow
            then malformed authority e
            else quiet o (
                settle_failure o TransferState.committed TransferState.failed
                  (transfer_error_for_wire code) code (wire_error_is_connection_fatal code)
                  retryable e)
      ]

  -- TRANSFER_OFFER
  unfoldable pub receive_offer : Authority → List ℕ → ParsedFrame → ℕ → Endpoint o → Outcome o
  receive_offer authority transfer_id frame now e =
      if not (frame.header.message_type is MessageType.transfer_offer)
      then violation authority e
      else if all_zero transfer_id
          || unsigned_field frame 2 != 1
          || ltb max_file_bytes (unsigned_field frame 3)
          || not (valid_commitment (bytes_of frame 4))
      then fail o authority TransferError.invalid_offer WireErrorCode.invalid_offer false e
      else quiet o (
          on_receiver o
            (λ r. record r {
              manifest = record (r.manifest) {
                transfer_id = transfer_id;
                file_size = unsigned_field frame 3;
                manifest_commitment = bytes_of frame 4;
                display_name = bytes_of frame 5;
              };
              raw_offer_frame = frame.raw;
              state = TransferState.receiving_manifest;
              manifest_deadline_ms = checked_deadline now manifest_timeout_ms;
              manifest_progress_deadline_ms = checked_deadline now manifest_progress_timeout_ms;
            })
            e)

  -- MANIFEST_ENTRY
  unfoldable pub receive_manifest_entry : Authority → ParsedFrame → ℕ → Endpoint o → Outcome o
  receive_manifest_entry authority frame now e =
      if not (frame.header.message_type is MessageType.manifest_entry)
        || unsigned_field frame 2 != 0
        || unsigned_field frame 3 != 1
        || unsigned_field frame 5 != e.receiver.manifest.file_size
        || not (valid_commitment (bytes_of frame 6))
      then bad_manifest authority e
      else elim (validate_receive_request o.utf8 (bytes_of frame 4) e.receiver.manifest.file_size
          max_file_bytes) [
            | RequestValidationResult.rejected error ↦ bad_manifest authority e
            | RequestValidationResult.accepted request ↦ quiet o (
                on_receiver o
                  (λ r. record r {
                    request = some request;
                    manifest = record (r.manifest) {
                      relative_path = bytes_of frame 4;
                      file_commitment = bytes_of frame 6;
                    };
                    raw_entry_frame = frame.raw;
                    manifest_entry_received = true;
                    manifest_progress_deadline_ms =
                        checked_deadline now manifest_progress_timeout_ms;
                  })
                  e)
          ]

  -- The answer of `VerifyManifest` to MANIFEST_END.
  unfoldable pub manifest_verified : Authority → ℕ → Bool → Endpoint o → Outcome o
  manifest_verified authority now verified e =
      let decided =
        on_receiver o
          (λ r. record r {
            state = TransferState.awaiting_decision;
            decision_deadline_ms = checked_deadline now decision_timeout_ms;
          })
          e in
      if verified
      then (
        decided,
        record (update_of decided.receiver) {
          offer = some (record {
            transfer_id = e.receiver.manifest.transfer_id;
            relative_path = e.receiver.manifest.relative_path;
            file_size = e.receiver.manifest.file_size;
            display_name = e.receiver.manifest.display_name;
          });
        },
      )
      else unverified authority e

  -- MANIFEST_END
  unfoldable pub receive_manifest_end : Authority → ParsedFrame → ℕ → Endpoint o → Outcome o
  receive_manifest_end authority frame now e =
      let (provided, verified) =
        o.provider.verify_manifest e.provided e.receiver.manifest e.receiver.raw_offer_frame
          e.receiver.raw_entry_frame frame.raw in
      if not (frame.header.message_type is MessageType.manifest_end)
        || unsigned_field frame 2 != 1
        || unsigned_field frame 3 != e.receiver.manifest.file_size
        || not (same_bytes (bytes_of frame 4) e.receiver.manifest.manifest_commitment)
      then bad_manifest authority e
      else manifest_verified authority now verified (
          on_receiver o (λ r. record r { raw_end_frame = frame.raw })
            (record e { provided = provided }))

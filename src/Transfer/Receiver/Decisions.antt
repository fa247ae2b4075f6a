-- ===== src/Transfer/Receiver/Decisions.antt =====
-- `Accept`, `Reject`, `Advance`, `Cancel` and `Shutdown` of `OneFileReceiver` in
-- native/src/transfer/receiver.cpp.
use file_sender_byte_spark.Prelude.{
  ℕ, ◌-◌, Bool, true, false, ◌&&◌, ◌||◌, not, Option, none, some, leb, ltb, ◌==◌, if◌then◌else◌,
}
use file_sender_byte_spark.Storage.Types.{
  ValidatedReceiveRequest, TransactionError, TransactionResult,
}
use file_sender_byte_spark.Storage.Cleanup.{failed, create_transaction}
use file_sender_byte_spark.Storage.Transaction.{begin}
use file_sender_byte_spark.Transfer.Credit.{
  CreditDirection, ConnectionCreditBudget, try_reserve_credit,
}
use file_sender_byte_spark.Transfer.Types.{
  TransferState, TransferError, WireErrorCode, TransferContext, is_terminal, minimum_chunk_size,
  maximum_chunk_size, maximum_transfer_window, data_progress_timeout_ms,
}
use file_sender_byte_spark.Transfer.Errors.{
  wire_error_value, transfer_error_for_wire, wire_error_may_retry, wire_error_is_reject_reason,
}
use file_sender_byte_spark.Transfer.Limits.{observe_time, checked_deadline}
use file_sender_byte_spark.Transfer.Receiver.{
  Outside, Authority, Receiver, Endpoint, end_in, clear_cancel, Outcome, on_receiver, quiet,
  on_transaction, abort_transaction, is_durable, with_frame,
}
use file_sender_byte_spark.Transfer.Receiver.Endings.{fail, check_timeout, encode_accept}
use file_sender_byte_spark.Transfer.Receiver.Offer.{is_created, is_cancelling, is_success}
use file_sender_byte_spark.Transfer.Receiver.Closing.{
  emit_cancel, finish_cancelled, finish_committed, finish, begin_reject, reject_for_storage,
}
use file_sender_byte_spark.Transfer.Receiver.Calls.{
  maximum_chunk_body_overhead, is_receiving_file, is_awaiting_decision, is_rejecting, not_now,
  unauthenticated, too_large, timed, in_time,
}

module _ (o : Outside) where
  abbrev R : Type 0
  R = Receiver o.integrity.Digest

  -- The file is open; ACCEPT is sent.
  unfoldable pub accept_begun : Authority → ℕ → ℕ → ℕ → Endpoint o × TransactionResult → Outcome o
  accept_begun authority chunk_size initial_window now (e, begun) =
      let ready =
        on_receiver o (λ r. record r { chunk_size = chunk_size; available_credit = initial_window })
          e in
      if not (is_success begun.error)
      then reject_for_storage o authority begun now e
      else with_frame o (encode_accept o ready.receiver ready.sequence)
          (λ frame e'. (
            on_receiver o
                (λ r. record r {
                  state = TransferState.receiving_file;
                  data_deadline_ms = checked_deadline now data_progress_timeout_ms;
                })
                e',
            record {
              state = TransferState.receiving_file;
              error = TransferError.none;
              wire_error = WireErrorCode.none;
              outbound_frame = frame;
              offer = none;
              terminal = false;
              connection_fatal = false;
              retryable = false;
            },
          ))
          (fail o authority TransferError.internal_failure WireErrorCode.busy false) ready

  -- The transaction is made with the verifier that the provider created, and begun.
  unfoldable pub accept_verifier :
      Authority
      → ValidatedReceiveRequest
      → ℕ
      → ℕ
      → ℕ
      → Option o.integrity.Digest
      → Endpoint o
      → Outcome o
  accept_verifier authority request chunk_size initial_window now none e =
      reject_for_storage o authority (failed TransactionError.integrity_failed) now e
  accept_verifier authority request chunk_size initial_window now (some verifier) e =
      accept_begun authority chunk_size initial_window now (
        on_transaction o (begin o.platform o.integrity) (
          on_receiver o
            (λ r. record r { transaction = some (create_transaction request true (some verifier)) })
            e))

  unfoldable pub accept_reserved :
      Authority
      → ValidatedReceiveRequest
      → ℕ
      → ℕ
      → ℕ
      → ConnectionCreditBudget × Bool
      → Endpoint o
      → Outcome o
  accept_reserved authority request chunk_size initial_window now (credit, false) e =
      reject_for_storage o authority (failed TransactionError.temporary_budget_exceeded) now
        (record e { credit = credit })
  accept_reserved authority request chunk_size initial_window now (credit, true) e =
      let (provided, verifier) =
        o.provider.create_file_verifier e.provided e.receiver.manifest.transfer_id 0
          e.receiver.manifest.file_commitment in
      accept_verifier authority request chunk_size initial_window now verifier (record e {
        credit = credit;
        provided = provided;
        receiver = record (e.receiver) { initial_window = initial_window; credit_reserved = true };
      })

  unfoldable pub window_fits : TransferContext → ℕ → ℕ → Bool
  window_fits context chunk_size initial_window =
      leb minimum_chunk_size chunk_size
      && leb chunk_size maximum_chunk_size
      && ltb maximum_chunk_body_overhead context.limits.maximum_body
      && leb chunk_size (context.limits.maximum_body - maximum_chunk_body_overhead)
      && leb chunk_size initial_window
      && leb initial_window maximum_transfer_window
      && leb initial_window context.limits.maximum_in_flight

  unfoldable pub accept_timely :
      Authority → ValidatedReceiveRequest → ℕ → ℕ → ℕ → Endpoint o → Outcome o
  accept_timely authority request chunk_size initial_window now e =
      if not authority.admits
      then unauthenticated o authority e
      else if not (window_fits e.receiver.context chunk_size initial_window)
      then too_large o authority e
      else accept_reserved authority request chunk_size initial_window now
          (try_reserve_credit CreditDirection.inbound initial_window e.credit) e

  unfoldable pub accept : Authority → ℕ → ℕ → ℕ → Endpoint o → Outcome o
  accept authority chunk_size initial_window now e =
      let r = e.receiver in
      if is_terminal r.state then quiet o e else elim r.request [
        | none ↦ not_now o e
        | some request ↦
            if is_receiving_file r.state
            then (if r.chunk_size == chunk_size && r.initial_window == initial_window
                then quiet o e
                else not_now o e)
            else if not (is_awaiting_decision r.state)
            then not_now o e
            else timed o authority (observe_time now r.last_now_ms)
                (λ e'.
                  in_time o (check_timeout o authority now e')
                    (accept_timely authority request chunk_size initial_window now))
                e
      ]

  abbrev pub reject_timely : Authority → WireErrorCode → Bool → ℕ → Endpoint o → Outcome o
  reject_timely authority code retryable now e =
      if not authority.admits
      then unauthenticated o authority e
      else begin_reject o authority (transfer_error_for_wire code) code retryable now e

  abbrev pub same_flag : Bool → Bool → Bool
  same_flag true b = b
  same_flag false b = not b

  unfoldable pub reject : Authority → WireErrorCode → Bool → ℕ → Endpoint o → Outcome o
  reject authority code retryable now e =
      let r = e.receiver in
      if is_terminal r.state
      then quiet o e
      else if is_rejecting r.state
      then (if r.pending_reject
            && wire_error_value r.pending_reject_code == wire_error_value code
            && same_flag r.pending_reject_retryable retryable
          then quiet o e
          else not_now o e)
      else if not (is_awaiting_decision r.state)
          || not (wire_error_is_reject_reason code)
          || (retryable && not (wire_error_may_retry code))
      then not_now o e
      else timed o authority (observe_time now r.last_now_ms)
          (λ e'.
            in_time o (check_timeout o authority now e')
              (reject_timely authority code retryable now))
          e

  unfoldable pub advance : Authority → ℕ → Endpoint o → Outcome o
  advance authority now e =
      if is_terminal e.receiver.state
      then quiet o e
      else timed o authority (observe_time now e.receiver.last_now_ms)
          (λ e'.
            if authority.admits
            then check_timeout o authority now e'
            else unauthenticated o authority e')
          e

  -- The cancellation of a transfer whose file is not committed.
  unfoldable pub cancel_aborted : Authority → Endpoint o → Outcome o
  cancel_aborted authority e =
      if is_created e.receiver.state || not authority.admits
      then quiet o (finish_cancelled o e)
      else emit_cancel o (
          on_receiver o
            (λ r.
              record (end_in TransferState.cancelling TransferError.none WireErrorCode.none false
                false r) {
                  cancel_origin_state = r.state;
                  cancel_frame_pending = true;
                  cancel_ack_pending = false;
                })
            e)

  unfoldable pub cancel_observed : Authority → Endpoint o → Outcome o
  cancel_observed authority e =
      if is_durable o e.receiver.transaction
      then quiet o (finish_committed o e)
      else cancel_aborted authority (abort_transaction o e)

  unfoldable pub cancel : Authority → ℕ → Endpoint o → Outcome o
  cancel authority now e =
      if is_terminal e.receiver.state
      then quiet o e
      else if is_cancelling e.receiver.state
      then quiet o e
      else timed o authority (observe_time now e.receiver.last_now_ms) (cancel_observed authority) e

  -- `Shutdown`, which the destructor calls too.
  unfoldable pub shut_down : Endpoint o → Outcome o
  shut_down e =
      let stopped = on_receiver o (λ r. record (clear_cancel r) { shutdown = true }) e in
      if is_terminal e.receiver.state then quiet o stopped else quiet o (finish o stopped)

-- ===== src/Transfer/Receiver/Calls.antt =====
-- `Create`, `NextOutbound` and `ConfirmChunkAckWritten` of `OneFileReceiver` in
-- native/src/transfer/receiver.cpp.
use file_sender_byte_spark.Prelude.{
  ℕ, ◌+◌, ◌-◌, ◌%◌, Bool, true, false, ◌&&◌, ◌||◌, not, Option, none, some, List, [], leb, ltb,
  ◌==◌, if◌then◌else◌, u32_mod,
}
use file_sender_byte_spark.Transfer.Credit.{ConnectionCreditBudget}
use file_sender_byte_spark.Transfer.Types.{
  TransferState, TransferError, WireErrorCode, no_error, TransferContext, TransferUpdate,
  failure_update, is_terminal, data_progress_timeout_ms,
}
use file_sender_byte_spark.Transfer.Limits.{validate_context, observe_time, checked_deadline}
use file_sender_byte_spark.Transfer.Receiver.{
  Outside, Authority, Receiver, Endpoint, new_receiver, update_of, Outcome, on_receiver, quiet,
}
use file_sender_byte_spark.Transfer.Receiver.Endings.{fail, check_timeout}
use file_sender_byte_spark.Transfer.Receiver.Offer.{is_cancelling, violation}
use file_sender_byte_spark.Transfer.Receiver.Closing.{
  emit_cancel, emit_cancel_ack, emit_pending_reject, emit_pending_file_commit,
  emit_pending_completion_ack,
}

abbrev pub maximum_chunk_body_overhead : ℕ
maximum_chunk_body_overhead = 132

abbrev pub is_some {ℓ} : {A : Type ℓ} → Option A → Bool
is_some none = false
is_some (some a) = true

-- `Create`: the receiver, or the update of a refusal.
unfoldable pub create_receiver :
    {Digest : Type 0}
    → Bool
    → Bool
    → TransferContext
    → ConnectionCreditBudget
    → Option (Receiver Digest) × TransferUpdate
create_receiver {Digest} admits has_budget context credit =
    if not (validate_context context false)
      || not admits
      || not has_budget
      || credit.limit_bytes == 0
      || ltb context.limits.maximum_in_flight credit.limit_bytes
      || credit.maximum_streams == 0
      || ltb context.limits.maximum_active_streams credit.maximum_streams
    then (
      none,
      failure_update TransferState.failed TransferError.invalid_argument WireErrorCode.invalid_offer
          false,
    )
    else (some (new_receiver context), update_of {Digest = Digest} (new_receiver context))

-- The states in which `NextOutbound` has something to do.
abbrev pub has_outbound : TransferState → Bool
has_outbound TransferState.rejecting = true
has_outbound TransferState.awaiting_completion = true
has_outbound TransferState.cancelling = true
has_outbound _ = false

abbrev pub may_confirm : TransferState → Bool
may_confirm TransferState.receiving_file = true
may_confirm TransferState.awaiting_completion = true
may_confirm _ = false

abbrev pub is_receiving_file : TransferState → Bool
is_receiving_file TransferState.receiving_file = true
is_receiving_file _ = false

abbrev pub is_awaiting_decision : TransferState → Bool
is_awaiting_decision TransferState.awaiting_decision = true
is_awaiting_decision _ = false

abbrev pub is_rejecting : TransferState → Bool
is_rejecting TransferState.rejecting = true
is_rejecting _ = false

abbrev pub is_nonempty : List ℕ → Bool
is_nonempty [] = false
is_nonempty _ = true

module _ (o : Outside) where
  abbrev R : Type 0
  R = Receiver o.integrity.Digest

  -- The current update, with STATE_VIOLATION.
  abbrev pub not_now : Endpoint o → Outcome o
  not_now e = (
    e,
    record (update_of e.receiver) {
      error = TransferError.state_violation;
      wire_error = WireErrorCode.state_violation;
    },
  )

  abbrev pub unauthenticated : Authority → Endpoint o → Outcome o
  unauthenticated authority e =
      fail o authority TransferError.unauthenticated WireErrorCode.none true e

  abbrev pub too_large : Authority → Endpoint o → Outcome o
  too_large authority e =
      fail o authority TransferError.limit_exceeded WireErrorCode.limit_exceeded false e

  -- Goes on with the time, or fails when the clock went back.
  abbrev pub timed : Authority → Option ℕ → (Endpoint o → Outcome o) → Endpoint o → Outcome o
  timed authority none go_on e = violation o authority e
  timed authority (some seen) go_on e =
      go_on (on_receiver o (λ r. record r { last_now_ms = seen }) e)

  -- Goes on unless a timeout was found.
  abbrev pub in_time : Outcome o → (Endpoint o → Outcome o) → Outcome o
  in_time (e, timeout) go_on = if no_error timeout.error then go_on e else (e, timeout)

  -- The last part of `NextOutbound`, by state.
  abbrev pub later_deadline : ℕ → Outcome o → Outcome o
  later_deadline now (e, update) =
      if is_nonempty update.outbound_frame
      then (
        on_receiver o
            (λ r. record r { data_deadline_ms = checked_deadline now data_progress_timeout_ms }) e,
        update,
      )
      else (e, update)

  unfoldable pub send_pending : Authority → ℕ → Endpoint o → Outcome o
  send_pending authority now e =
      let r = e.receiver in
      if is_cancelling r.state
      then (if r.cancel_frame_pending then emit_cancel o e else quiet o e)
      else if is_rejecting r.state
      then emit_pending_reject o authority e
      else if r.completion_ack_pending
      then emit_pending_completion_ack o authority e
      else if not r.file_commit_sent
      then later_deadline now (emit_pending_file_commit o authority e)
      else quiet o e

  -- Behind the clock.
  unfoldable pub next_observed : Authority → ℕ → Endpoint o → Outcome o
  next_observed authority now e =
      let ended = is_terminal e.receiver.state in
      if not authority.admits
      then (if ended
          then (
            on_receiver o (λ r. record r { cancel_ack_pending = false }) e,
            record (update_of e.receiver) {
              error = TransferError.unauthenticated;
              connection_fatal = true;
            },
          )
          else unauthenticated authority e)
      else if e.receiver.cancel_ack_pending
      then emit_cancel_ack o e
      else if ended
      then quiet o e
      else in_time (check_timeout o authority now e) (send_pending authority now)

  unfoldable pub next_outbound : Authority → ℕ → Endpoint o → Outcome o
  next_outbound authority now e =
      let ended = is_terminal e.receiver.state in
      if e.receiver.shutdown
      then quiet o e
      else if ended && not e.receiver.cancel_ack_pending
      then quiet o e
      else if not (has_outbound e.receiver.state) && not e.receiver.cancel_ack_pending
      then quiet o e
      else elim (observe_time now e.receiver.last_now_ms) [
        | none ↦ if ended then not_now e else violation o authority e
        | some seen ↦
            next_observed authority now (on_receiver o (λ r. record r { last_now_ms = seen }) e)
      ]

  -- `last_ack_written_offset < next_offset` is tested before. The difference of the windows is a
  -- uint32_t.
  unfoldable pub restore_credit : Authority → ℕ → ℕ → Endpoint o → Outcome o
  restore_credit authority next_offset now e =
      let r = e.receiver in
      let restored : ℕ = next_offset - r.last_ack_written_offset in
      if not authority.admits
      then unauthenticated authority e
      else if not (may_confirm r.state)
          || leb next_offset r.last_ack_written_offset
          || ltb r.last_ack_encoded_offset next_offset
      then violation o authority e
      else if ltb ((r.initial_window + u32_mod - r.available_credit) % u32_mod) restored
      then too_large authority e
      else quiet o (
          on_receiver o
            (λ r. record r {
              available_credit = (r.available_credit + restored) % u32_mod;
              last_ack_written_offset = next_offset;
              data_deadline_ms = checked_deadline now data_progress_timeout_ms;
            })
            e)

  unfoldable pub confirm_chunk_ack_written : Authority → ℕ → ℕ → Endpoint o → Outcome o
  confirm_chunk_ack_written authority next_offset now e =
      if is_terminal e.receiver.state
      then quiet o e
      else timed authority (observe_time now e.receiver.last_now_ms)
          (restore_credit authority next_offset now) e

-- ===== src/Transfer/Receiver/Sends.antt =====
-- That `NextOutbound` and `ConfirmChunkAckWritten` of native/src/transfer/receiver.cpp keep the
-- invariant.
use file_sender_byte_spark.Prelude.{
  ℕ, ◌+◌, ◌-◌, ◌≡◌, ◌≢◌, refl, sym, ap, subst, ◌∙◌, inl, inr, Bool, true, false, ◌&&◌, ◌||◌, not,
  Option, none, some, arith, ltb, leb, ◌%◌, u32_mod, Bool-cases, Option-cases,
}
use file_sender_byte_spark.Transfer.Types.{
  TransferState, TransferError, WireErrorCode, TransferUpdate, no_error, is_terminal,
  data_progress_timeout_ms,
}
use file_sender_byte_spark.Transfer.Errors.{wire_error_may_retry}
use file_sender_byte_spark.Transfer.Limits.{observe_time, checked_deadline}
use file_sender_byte_spark.Transfer.Encode.{Encoded, encode_error_frame}
use file_sender_byte_spark.Transfer.Receiver.{
  Outside, Authority, Endpoint, Outcome, on_receiver, is_durable,
}
use file_sender_byte_spark.Transfer.Receiver.Endings.{
  with_report, report, settle_failure, fail, cancel_timeout, is_late, cancel_is_late, check_timeout,
}
use file_sender_byte_spark.Transfer.Receiver.Offer.{is_cancelling}
use file_sender_byte_spark.Transfer.Receiver.Honest.{Carried, IsHonest, IsKept, kept, if-IsKept}
use file_sender_byte_spark.Transfer.Receiver.Ends.{check_timeout-IsKept}
use file_sender_byte_spark.Transfer.Receiver.Closes.{emit_cancel_ack-IsKept, emit_cancel-IsKept}
use file_sender_byte_spark.Transfer.Receiver.Answers.{
  emit_pending_reject-IsKept, emit_pending_file_commit-IsKept, emit_pending_completion_ack-IsKept,
}
use file_sender_byte_spark.Transfer.Receiver.Offers.{failed-IsKept}
use file_sender_byte_spark.Transfer.Receiver.Calls.{
  has_outbound, may_confirm, is_rejecting, is_nonempty, timed, in_time, later_deadline,
  send_pending, next_observed, next_outbound, restore_credit, confirm_chunk_ack_written,
}

pub cancelling_state : (s : TransferState) → is_cancelling s ≡ true → s ≡ TransferState.cancelling
cancelling_state s h = ground arith

rejecting_state : (s : TransferState) → is_rejecting s ≡ true → s ≡ TransferState.rejecting
rejecting_state s h = ground arith

awaiting_state :
    (s : TransferState)
    → has_outbound s ≡ true
    → is_cancelling s ≡ false
    → is_rejecting s ≡ false
    → s ≡ TransferState.awaiting_completion
awaiting_state s h c r = ground arith

or_left : (a b : Bool) → (not a && not b) ≡ false → b ≡ false → a ≡ true
or_left a b h k = ground arith

module _ (o : Outside) (q : Carried o) where
  -- The error of a failure is the one it was given.
  report-error :
      (reports : Bool) (code : WireErrorCode) (retryable : Bool) (u : TransferUpdate)
      (e : Endpoint o)
      → (report o reports code retryable u e).1.error ≡ u.error
  unfolding report
  report-error false code retryable u e = refl
  report-error true code retryable u e =
      reported (encode_error_frame e.receiver.context code retryable e.sequence) e
    where
      reported : (x : Encoded) (e' : Endpoint o) → (with_report o x u e').1.error ≡ u.error
      reported (s, none) e' = refl
      reported (s, some frame) e' = refl

  settle_failure-error :
      (error : TransferError) (code : WireErrorCode) (fatal retryable : Bool) (e : Endpoint o)
      → (settle_failure o TransferState.committed TransferState.failed error code fatal retryable
          e).receiver.terminal_error
        ≡ error
  unfolding settle_failure
  settle_failure-error error code fatal retryable e =
      elim (Bool-cases (is_durable o e.receiver.transaction)) [
        | inl d ↦ rw (settle_failure, d) refl
        | inr d ↦ rw (settle_failure, d) refl
      ]

  fail-error :
      (authority : Authority) (error : TransferError) (code : WireErrorCode) (fatal : Bool)
      (e : Endpoint o)
      → (fail o authority error code fatal e).1.error ≡ error
  unfolding fail
  fail-error authority error code fatal e =
      report-error _ code (wire_error_may_retry code) _ _
      ∙ settle_failure-error error code fatal (wire_error_may_retry code) e

  cancel_timeout-error :
      (authority : Authority) (e : Endpoint o)
      → (cancel_timeout o authority e).1.error ≡ TransferError.timeout
  unfolding cancel_timeout
  cancel_timeout-error authority e = report-error _ WireErrorCode.timeout false _ _

  timeout_is_error : no_error TransferError.timeout ≢ true
  timeout_is_error h = ground arith

  -- Where no timeout is reported, nothing was done.
  pub check_timeout-same :
      (authority : Authority) (now : ℕ) (e : Endpoint o)
      → no_error (check_timeout o authority now e).1.error ≡ true
      → (check_timeout o authority now e).0 ≡ e
  unfolding check_timeout
  check_timeout-same authority now e h =
      elim (Bool-cases (is_late o now e.receiver.state e.receiver)) [
        | inl late ↦ absurd (
            timeout_is_error (
              ap no_error
                (sym (fail-error authority TransferError.timeout WireErrorCode.timeout false e))
              ∙ (rw (check_timeout, late) at h)))
        | inr due ↦ elim (Bool-cases (cancel_is_late o now e.receiver.state e.receiver)) [
          | inl late ↦ absurd (
              timeout_is_error (
                ap no_error (sym (cancel_timeout-error authority e))
                ∙ (rw (check_timeout, due, late) at h)))
          | inr fine ↦ rw (check_timeout, due, fine) refl
        ]
      ]

  pub timed-IsKept :
      (authority : Authority) (seen : Option ℕ) (go_on : Endpoint o → Outcome o) (e : Endpoint o)
      → IsHonest o q e
      → ((now : ℕ) → IsKept o q (go_on (on_receiver o (λ r. record r { last_now_ms = now }) e)))
      → IsKept o q (timed o authority seen go_on e)
  timed-IsKept authority none go_on e h goes = failed-IsKept o q authority _ _ _ e h
  timed-IsKept authority (some now) go_on e h goes = goes now

  in_time_of :
      (x : Outcome o) (go_on : Endpoint o → Outcome o)
      → IsKept o q x
      → (no_error x.1.error ≡ true → IsKept o q (go_on x.0))
      → IsKept o q (in_time o x go_on)
  unfolding IsKept
  in_time_of (e, timeout) go_on h goes =
      if-IsKept o q (no_error timeout.error) _ _ goes (λ t. kept o q e timeout h)

  pub in_time-IsKept :
      (authority : Authority) (now : ℕ) (go_on : Endpoint o → Outcome o) (e : Endpoint o)
      → IsHonest o q e
      → IsKept o q (go_on e)
      → IsKept o q (in_time o (check_timeout o authority now e) go_on)
  in_time-IsKept authority now go_on e h goes =
      in_time_of (check_timeout o authority now e) go_on
        (check_timeout-IsKept o q authority now e h)
        (λ t. subst (λ e'. IsKept o q (go_on e')) (sym (check_timeout-same authority now e t)) goes)

  later_deadline-IsKept :
      (now : ℕ) (x : Outcome o) → IsKept o q x → IsKept o q (later_deadline o now x)
  unfolding IsKept
  later_deadline-IsKept now (e, update) h =
      if-IsKept o q (is_nonempty update.outbound_frame) _ _
        (λ t.
          kept o q
            (on_receiver o
              (λ r. record r { data_deadline_ms = checked_deadline now data_progress_timeout_ms })
              e)
            update h)
        (λ t. kept o q e update h)

  send_pending-IsKept :
      (authority : Authority) (now : ℕ) (e : Endpoint o)
      → has_outbound e.receiver.state ≡ true
      → IsHonest o q e
      → IsKept o q (send_pending o authority now e)
  unfolding send_pending
  send_pending-IsKept authority now e due h =
      if-IsKept o q (is_cancelling e.receiver.state) _ _
        (λ t.
          if-IsKept o q e.receiver.cancel_frame_pending _ _
            (λ u. emit_cancel-IsKept o q e (cancelling_state _ t) h) (λ u. kept o q e _ h))
        (λ t.
          if-IsKept o q (is_rejecting e.receiver.state) _ _
            (λ u. emit_pending_reject-IsKept o q authority e (rejecting_state _ u) h)
            (λ u.
              if-IsKept o q e.receiver.completion_ack_pending _ _
                (λ v.
                  emit_pending_completion_ack-IsKept o q authority e (awaiting_state _ due t u) h)
                (λ v.
                  if-IsKept o q (not e.receiver.file_commit_sent) _ _
                    (λ w.
                      later_deadline-IsKept now _
                        (emit_pending_file_commit-IsKept o q authority e h))
                    (λ w. kept o q e _ h))))

  next_observed-IsKept :
      (authority : Authority) (now : ℕ) (e : Endpoint o)
      → (not (has_outbound e.receiver.state) && not e.receiver.cancel_ack_pending) ≡ false
      → IsHonest o q e
      → IsKept o q (next_observed o authority now e)
  unfolding next_observed
  next_observed-IsKept authority now e due h =
      if-IsKept o q (not authority.admits) _ _
        (λ t.
          if-IsKept o q (is_terminal e.receiver.state) _ _ (λ u. kept o q _ _ h)
            (λ u. failed-IsKept o q authority _ _ _ e h))
        (λ t.
          if-IsKept o q e.receiver.cancel_ack_pending _ _ (λ u. emit_cancel_ack-IsKept o q e h)
            (λ u.
              if-IsKept o q (is_terminal e.receiver.state) _ _ (λ v. kept o q e _ h)
                (λ v.
                  in_time-IsKept authority now (send_pending o authority now) e h
                    (send_pending-IsKept authority now e (or_left _ _ due u) h))))

  pub next_outbound-IsKept :
      (authority : Authority) (now : ℕ) (e : Endpoint o)
      → IsHonest o q e
      → IsKept o q (next_outbound o authority now e)
  unfolding next_outbound
  next_outbound-IsKept authority now e h =
      let ended = is_terminal e.receiver.state in
      if-IsKept o q e.receiver.shutdown _ _ (λ t. kept o q e _ h)
        (λ t.
          if-IsKept o q (ended && not e.receiver.cancel_ack_pending) _ _ (λ u. kept o q e _ h)
            (λ u.
              if-IsKept o q
                (not (has_outbound e.receiver.state) && not e.receiver.cancel_ack_pending) _ _
                (λ v. kept o q e _ h)
                (λ v. elim (Option-cases (observe_time now e.receiver.last_now_ms)) [
                  | inl n ↦ rw n (
                      if-IsKept o q ended _ _ (λ w. kept o q e _ h)
                        (λ w. failed-IsKept o q authority _ _ _ e h))
                  | inr (seen, n) ↦ rw n (
                      next_observed-IsKept authority now
                        (on_receiver o (λ r. record r { last_now_ms = seen }) e) v h)
                ])))

  restore_credit-IsKept :
      (authority : Authority) (next_offset now : ℕ) (e : Endpoint o)
      → IsHonest o q e
      → IsKept o q (restore_credit o authority next_offset now e)
  unfolding restore_credit
  restore_credit-IsKept authority next_offset now e h =
      let r = e.receiver in
      if-IsKept o q (not authority.admits) _ _ (λ t. failed-IsKept o q authority _ _ _ e h)
        (λ t.
          if-IsKept o q
            (not (may_confirm r.state)
              || leb next_offset r.last_ack_written_offset
              || ltb r.last_ack_encoded_offset next_offset)
            _ _ (λ u. failed-IsKept o q authority _ _ _ e h)
            (λ u.
              if-IsKept o q
                (ltb ((r.initial_window + u32_mod - r.available_credit) % u32_mod)
                  (next_offset - r.last_ack_written_offset))
                _ _ (λ v. failed-IsKept o q authority _ _ _ e h) (λ v. kept o q _ _ h)))

  pub confirm_chunk_ack_written-IsKept :
      (authority : Authority) (next_offset now : ℕ) (e : Endpoint o)
      → IsHonest o q e
      → IsKept o q (confirm_chunk_ack_written o authority next_offset now e)
  unfolding confirm_chunk_ack_written
  confirm_chunk_ack_written-IsKept authority next_offset now e h =
      if-IsKept o q (is_terminal e.receiver.state) _ _ (λ t. kept o q e _ h)
        (λ t.
          timed-IsKept authority (observe_time now e.receiver.last_now_ms)
            (restore_credit o authority next_offset now) e h
            (λ seen.
              restore_credit-IsKept authority next_offset now
                (on_receiver o (λ r. record r { last_now_ms = seen }) e) h))

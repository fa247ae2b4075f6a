-- ===== src/Transfer/Receiver/Answers.antt =====
-- That acknowledging a CANCEL, rejecting and completing in native/src/transfer/receiver.cpp
-- keep the
-- invariant.
use file_sender_byte_spark.Prelude.{
  ℕ, ◌≡◌, ◌≢◌, refl, sym, ap, subst, ◌∙◌, inl, inr, Bool, true, false, arith, Bool-cases,
  Option-cases,
}
use file_sender_byte_spark.Storage.Types.{TransactionResult}
use file_sender_byte_spark.Transfer.Types.{TransferState, TransferError, WireErrorCode}
use file_sender_byte_spark.Transfer.Errors.{
  wire_error_may_retry, wire_error_is_reject_reason, transfer_error_for_wire,
  wire_error_is_connection_fatal,
}
use file_sender_byte_spark.Transfer.Receiver.{
  Outside, Authority, Endpoint, end_in, clear_cancel, on_receiver, on_transaction,
  abort_transaction, is_durable, release_both, release_stream,
}
use file_sender_byte_spark.Transfer.Receiver.Endings.{
  encode_reject, encode_file_commit, encode_complete_ack, wire_error_for_transaction,
}
use file_sender_byte_spark.Transfer.Receiver.Closing.{
  acknowledged_end, acknowledged, apply_cancel_ack, pending_encoding_failure, emit_pending_reject,
  begin_reject, emit_pending_file_commit, emit_pending_completion_ack, reject_for_storage,
}
use file_sender_byte_spark.Transfer.Receiver.Stage.{stage_of, StateFacts, is_durable-stage}
use file_sender_byte_spark.Transfer.Receiver.Honest.{
  Carried, IsCarried, IsHonest, IsKept, kept, if-IsKept, with_frame-IsKept, IsGoneCore,
  IsCarriedCore, IsEndOfLost, release_stream-state, release_stream-core, release_both-Lent,
  release_stream-Lent, release_reserved_credit-Lent, release_reserved_credit-core,
  release_both-core, release_reserved_credit-released, release_stream-released,
  release_stream-credit, release_both-credit, release_both-stream, abort_transaction-gone,
  abort_transaction-sent, lost-facts, kept-IsHonest,
}
use file_sender_byte_spark.Transfer.Receiver.Ends.{
  IsCalm, honest-IsCalm, unsent-IsCalm, fail-IsKept,
}
use file_sender_byte_spark.Transfer.Receiver.Closes.{rejecting_facts, completion_facts}

true_not_false : true ≢ false
true_not_false h = ground arith

-- A settled transfer keeps its credit and its stream released while its transaction is aborted.
module _ (o : Outside) (q : Carried o) where
  not_durable_sent :
      (e : Endpoint o)
      → IsCalm o q e
      → e.receiver.cancel_sent ≡ true
      → is_durable o e.receiver.transaction ≡ false
  not_durable_sent e (calm, c) sent = elim (Bool-cases (is_durable o e.receiver.transaction)) [
    | inl d ↦ absurd (true_not_false (sym sent ∙ calm (is_durable-stage o _ d)))
    | inr n ↦ n
  ]

  abort_transaction-credit :
      (e : Endpoint o)
      → (abort_transaction o e).receiver.credit_reserved ≡ e.receiver.credit_reserved
  unfolding abort_transaction on_transaction
  abort_transaction-credit e = elim (Option-cases e.receiver.transaction) [
    | inl n ↦ rw (abort_transaction, on_transaction, n) refl
    | inr (tx, n) ↦ rw (abort_transaction, on_transaction, n) refl
  ]

  abort_transaction-stream :
      (e : Endpoint o)
      → (abort_transaction o e).receiver.stream_reserved ≡ e.receiver.stream_reserved
  unfolding abort_transaction on_transaction
  abort_transaction-stream e = elim (Option-cases e.receiver.transaction) [
    | inl n ↦ rw (abort_transaction, on_transaction, n) refl
    | inr (tx, n) ↦ rw (abort_transaction, on_transaction, n) refl
  ]

  -- The end without a file, where credit and stream are released already.
  aborted-IsHonest :
      (state : TransferState) (error : TransferError) (code : WireErrorCode)
      (fatal retryable : Bool) (e : Endpoint o)
      → IsEndOfLost o q state
      → e.receiver.credit_reserved ≡ false
      → e.receiver.stream_reserved ≡ false
      → is_durable o e.receiver.transaction ≡ false
      → IsCarried o q e
      → IsHonest o q
          (on_receiver o (end_in state error code fatal retryable) (abort_transaction o e))
  aborted-IsHonest state error code fatal retryable e h c s n carried =
      let (gone, held, fits) = abort_transaction-gone o q e n carried in
      (
        lost-facts o q state _ _ _ _ h (abort_transaction-credit e ∙ c)
            (abort_transaction-stream e ∙ s) gone,
        (held, fits),
      )

  acknowledged_end-IsHonest :
      (code : WireErrorCode) (e : Endpoint o)
      → e.receiver.credit_reserved ≡ false
      → e.receiver.stream_reserved ≡ false
      → is_durable o e.receiver.transaction ≡ false
      → IsCarried o q e
      → IsHonest o q (on_receiver o (acknowledged_end o code) (abort_transaction o e))
  acknowledged_end-IsHonest WireErrorCode.cancelled e c s n carried =
      aborted-IsHonest TransferState.cancelled TransferError.cancelled WireErrorCode.cancelled false
        false e tt c s n carried
  acknowledged_end-IsHonest code e c s n carried =
      elim (Bool-cases (wire_error_is_reject_reason code)) [
        | inl r ↦ rw r (
            aborted-IsHonest TransferState.rejected (transfer_error_for_wire code) code false
              (wire_error_may_retry code) e tt c s n carried)
        | inr r ↦ rw r (
            aborted-IsHonest TransferState.failed (transfer_error_for_wire code) code
              (wire_error_is_connection_fatal code) (wire_error_may_retry code) e tt c s n carried)
      ]

  -- The answer to our CANCEL, where the file may be committed only if nothing is under way.
  acknowledged-IsHonest :
      (code : WireErrorCode) (e : Endpoint o)
      → e.receiver.credit_reserved ≡ false
      → e.receiver.stream_reserved ≡ false
      → is_durable o e.receiver.transaction ≡ false
      → IsCarried o q e
      → IsHonest o q (acknowledged o code e)
  acknowledged-IsHonest WireErrorCode.completed e c s n carried = rw n (
      aborted-IsHonest TransferState.failed TransferError.state_violation
        WireErrorCode.state_violation false false e tt c s n carried)
  acknowledged-IsHonest code e c s n carried = acknowledged_end-IsHonest code e c s n carried

  pub apply_cancel_ack-IsKept :
      (code : WireErrorCode) (e : Endpoint o)
      → e.receiver.cancel_sent ≡ true
      → IsHonest o q e
      → IsKept o q (apply_cancel_ack o code e)
  unfolding apply_cancel_ack
  apply_cancel_ack-IsKept code e sent (f, (held, fits)) =
      let e' : Endpoint o = on_receiver o clear_cancel e in
      let n = not_durable_sent e (honest-IsCalm o q e (f, (held, fits))) sent in
      let same = release_both-core o q e' in
      let (held', fits') =
        subst (λ c. IsCarriedCore o q c) (sym same)
          (held, (fits.0, release_both-Lent o q e' fits.1)) in
      kept o q _ _ (
        acknowledged-IsHonest code (release_both o e') (release_both-credit o q e')
          (release_both-stream o q e') (ap (λ c. is_durable o c.1) same ∙ n) (held', fits'))

  -- What is pending.
  pub pending_encoding_failure-IsKept :
      (authority : Authority) (e : Endpoint o)
      → IsHonest o q e
      → IsKept o q (pending_encoding_failure o authority e)
  unfolding pending_encoding_failure
  pending_encoding_failure-IsKept authority e h =
      if-IsKept o q e.sequence.outbound_exhausted _ _
        (λ t. fail-IsKept o q authority _ _ _ e (honest-IsCalm o q e h)) (λ t. kept o q e _ h)

  rejected-IsHonest :
      (error : TransferError) (code : WireErrorCode) (retryable : Bool) (e : Endpoint o)
      → e.receiver.state ≡ TransferState.rejecting
      → IsHonest o q e
      → IsHonest o q (
          release_stream o
            (on_receiver o (end_in TransferState.rejected error code false retryable) e))
  rejected-IsHonest error code retryable e r (f, (held, fits)) =
      let (sent, credit, gone) = rejecting_facts _ _ _ _ _ r f in
      let e' : Endpoint o =
        on_receiver o (end_in TransferState.rejected error code false retryable) e in
      let (gone', held', fits') =
        subst (λ c. IsGoneCore o q c) (sym (release_stream-core o q e'))
          (gone, held, (fits.0, release_stream-Lent o q e' fits.1)) in
      (
        subst
            (λ s.
              StateFacts s (release_stream o e').receiver.cancel_sent
                (release_stream o e').receiver.credit_reserved
                (release_stream o e').receiver.stream_reserved
                (stage_of (release_stream o e').receiver.transaction))
            (sym (release_stream-state o q e'))
            (release_stream-credit o q e' ∙ credit, release_stream-released o q e', gone'),
        (held', fits'),
      )

  pub emit_pending_reject-IsKept :
      (authority : Authority) (e : Endpoint o)
      → e.receiver.state ≡ TransferState.rejecting
      → IsHonest o q e
      → IsKept o q (emit_pending_reject o authority e)
  unfolding emit_pending_reject
  emit_pending_reject-IsKept authority e r h =
      with_frame-IsKept o q
        (encode_reject o e.receiver e.receiver.pending_reject_code
          e.receiver.pending_reject_retryable e.sequence)
        _ _ e
        (λ frame s. kept o q _ _ (
          rejected-IsHonest e.receiver.pending_reject_error e.receiver.pending_reject_code
            e.receiver.pending_reject_retryable (record e { sequence = s }) r h))
        (λ s. pending_encoding_failure-IsKept authority (record e { sequence = s }) h)

  pub emit_pending_file_commit-IsKept :
      (authority : Authority) (e : Endpoint o)
      → IsHonest o q e
      → IsKept o q (emit_pending_file_commit o authority e)
  unfolding emit_pending_file_commit
  emit_pending_file_commit-IsKept authority e h =
      with_frame-IsKept o q (encode_file_commit o e.receiver e.sequence) _ _ e
        (λ frame s. kept o q _ _ h)
        (λ s. pending_encoding_failure-IsKept authority (record e { sequence = s }) h)

  pub emit_pending_completion_ack-IsKept :
      (authority : Authority) (e : Endpoint o)
      → e.receiver.state ≡ TransferState.awaiting_completion
      → IsHonest o q e
      → IsKept o q (emit_pending_completion_ack o authority e)
  unfolding emit_pending_completion_ack
  emit_pending_completion_ack-IsKept authority e r (f, (held, fits)) =
      let (sent, durable) = completion_facts _ _ _ _ _ r f in
      with_frame-IsKept o q (encode_complete_ack o e.receiver e.sequence) _ _ e
        (λ frame s. kept o q _ _ (
          kept-IsHonest o q TransferState.completed TransferError.none WireErrorCode.none false
            false
            (on_receiver o (λ r'. record r' { completion_ack_pending = false })
              (record e { sequence = s }))
            tt sent (durable, held, fits)))
        (λ s.
          pending_encoding_failure-IsKept authority (record e { sequence = s }) (f, (held, fits)))

  -- A transfer that is refused, with nothing committed.
  pub begin_reject-IsKept :
      (authority : Authority) (error : TransferError) (code : WireErrorCode) (retryable : Bool)
      (now : ℕ) (e : Endpoint o)
      → e.receiver.cancel_sent ≡ false
      → is_durable o e.receiver.transaction ≡ false
      → IsCarried o q e
      → IsKept o q (begin_reject o authority error code retryable now e)
  unfolding begin_reject
  begin_reject-IsKept authority error code retryable now e unsent n c =
      let aborted = abort_transaction o e in
      let same = release_reserved_credit-core o q aborted in
      let (gone', held', fits') = abort_transaction-gone o q e n c in
      let (gone, held, fits) =
        subst (λ c. IsGoneCore o q c) (sym same)
          (gone', held', (fits'.0, release_reserved_credit-Lent o q aborted fits'.1)) in
      emit_pending_reject-IsKept authority _ refl (
        (
          ap (λ c. c.0) same ∙ (abort_transaction-sent o q e ∙ unsent),
          release_reserved_credit-released o q aborted,
          gone,
        ),
        (held, fits),
      )

  pub reject_for_storage-IsKept :
      (authority : Authority) (result : TransactionResult) (now : ℕ) (e : Endpoint o)
      → e.receiver.cancel_sent ≡ false
      → is_durable o e.receiver.transaction ≡ false
      → IsCarried o q e
      → IsKept o q (reject_for_storage o authority result now e)
  unfolding reject_for_storage
  reject_for_storage-IsKept authority result now e unsent n c =
      if-IsKept o q (wire_error_is_reject_reason (wire_error_for_transaction result)) _ _
        (λ t. begin_reject-IsKept authority _ _ _ now e unsent n c)
        (λ t. fail-IsKept o q authority _ _ _ e (unsent-IsCalm o q e unsent c))

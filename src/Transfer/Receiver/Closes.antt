-- ===== src/Transfer/Receiver/Closes.antt =====
-- That finishing, cancelling and rejecting in native/src/transfer/receiver.cpp keep the invariant.
use file_sender_byte_spark.Prelude.{
  ◌≡◌, refl, inl, inr, Bool, true, false, not, arith, if◌then◌else◌, Bool-cases,
}
use file_sender_byte_spark.Transfer.Types.{TransferState, TransferError, WireErrorCode}
use file_sender_byte_spark.Transfer.Encode.{encode_cancel_frame, encode_cancel_ack_frame}
use file_sender_byte_spark.Transfer.Receiver.{
  Outside, Endpoint, clear_cancel, on_receiver, abort_transaction, is_durable,
}
use file_sender_byte_spark.Transfer.Receiver.Closing.{
  cancellation_encoding_failure, cancel_ack_encoding_failure, emit_cancel, emit_cancel_ack,
  finish_cancelled, finish_committed, finish, begin_remote_cancel,
}
use file_sender_byte_spark.Transfer.Receiver.Stage.{
  Stage, stage_of, IsGone, StateFacts, is_durable-stage,
}
use file_sender_byte_spark.Transfer.Receiver.Honest.{
  Carried, IsCarried, IsHonest, IsKept, kept, if-IsKept, with_frame-IsKept, abort_transaction-gone,
  lost-IsHonest, kept-IsHonest,
}
use file_sender_byte_spark.Transfer.Receiver.Ends.{
  IsCalm, honest-IsCalm, gone-undurable, durable-IsDurable, cancelling-IsGone,
}

cancelled_sent :
    (sent credit stream : Bool) (stage : Stage)
    → StateFacts TransferState.cancelled false credit stream stage
    → StateFacts TransferState.cancelled sent credit stream stage
cancelled_sent sent credit stream stage f = f

pub rejecting_facts :
    (state : TransferState) (sent credit stream : Bool) (stage : Stage)
    → state ≡ TransferState.rejecting
    → StateFacts state sent credit stream stage
    → (sent ≡ false) × (credit ≡ false) × IsGone stage
rejecting_facts state sent credit stream stage h f = ground arith

pub completion_facts :
    (state : TransferState) (sent credit stream : Bool) (stage : Stage)
    → state ≡ TransferState.awaiting_completion
    → StateFacts state sent credit stream stage
    → (sent ≡ false) × (stage ≡ Stage.durable)
completion_facts state sent credit stream stage h f = ground arith

module _ (o : Outside) (q : Carried o) where
  -- Ends that finish.
  finish_cancelled-IsHonest :
      (e : Endpoint o)
      → is_durable o e.receiver.transaction ≡ false
      → IsCarried o q e
      → IsHonest o q (finish_cancelled o e)
  unfolding finish_cancelled
  finish_cancelled-IsHonest e n c =
      lost-IsHonest o q TransferState.cancelled TransferError.cancelled WireErrorCode.cancelled
        false false (abort_transaction o (on_receiver o clear_cancel e)) tt
        (abort_transaction-gone o q (on_receiver o clear_cancel e) n c)

  pub finish_committed-IsHonest :
      (e : Endpoint o)
      → is_durable o e.receiver.transaction ≡ true
      → IsCarried o q e
      → IsHonest o q (finish_committed o e)
  unfolding finish_committed
  finish_committed-IsHonest e d c =
      kept-IsHonest o q TransferState.committed TransferError.none WireErrorCode.none false false
        (on_receiver o clear_cancel e) tt refl (durable-IsDurable o q e d c)

  pub finish-IsHonest : (e : Endpoint o) → IsCarried o q e → IsHonest o q (finish o e)
  unfolding finish
  finish-IsHonest e c = elim (Bool-cases (is_durable o e.receiver.transaction)) [
    | inl d ↦ rw (finish, d) (finish_committed-IsHonest e d c)
    | inr n ↦ rw (finish, n) (finish_cancelled-IsHonest e n c)
  ]

  pub finish_cancelled-kept :
      (e : Endpoint o)
      → IsGone (stage_of e.receiver.transaction)
      → IsCarried o q e
      → IsHonest o q (finish_cancelled o e)
  finish_cancelled-kept e g c = finish_cancelled-IsHonest e (gone-undurable o q e g) c

  -- CANCEL and CANCEL_ACK
  cancel_ack_encoding_failure-IsKept :
      (e : Endpoint o) → IsHonest o q e → IsKept o q (cancel_ack_encoding_failure o e)
  unfolding cancel_ack_encoding_failure
  cancel_ack_encoding_failure-IsKept e h =
      if-IsKept o q (not e.sequence.outbound_exhausted) _ _ (λ t. kept o q _ _ h)
        (λ t.
          if-IsKept o q e.receiver.cancel_ack_failure_is_terminal _ _ (λ u. kept o q _ _ h)
            (λ u. kept o q _ _ h))

  pub emit_cancel_ack-IsKept : (e : Endpoint o) → IsHonest o q e → IsKept o q (emit_cancel_ack o e)
  unfolding emit_cancel_ack
  emit_cancel_ack-IsKept e h =
      with_frame-IsKept o q
        (encode_cancel_ack_frame e.receiver.context e.receiver.manifest.transfer_id
          e.receiver.pending_cancel_ack_code e.sequence)
        _ _ e (λ frame s. kept o q _ _ h)
        (λ s. cancel_ack_encoding_failure-IsKept (record e { sequence = s }) h)

  cancellation_encoding_failure-IsKept :
      (e : Endpoint o)
      → IsGone (stage_of e.receiver.transaction)
      → IsHonest o q e
      → IsKept o q (cancellation_encoding_failure o e)
  unfolding cancellation_encoding_failure
  cancellation_encoding_failure-IsKept e g (f, (held, fits)) =
      if-IsKept o q e.sequence.outbound_exhausted _ _
        (λ t. kept o q _ _ (
          lost-IsHonest o q TransferState.cancelled TransferError.message_id_violation
            WireErrorCode.message_id_violation true false
            (on_receiver o
              (λ r. record r {
                cancel_frame_pending = false;
                cancel_ack_pending = false;
                cancel_sent = false;
              })
              e)
            tt (g, held, fits)))
        (λ t. kept o q e _ (f, (held, fits)))

  sent_while_cancelling :
      (state : TransferState) (sent credit stream : Bool) (stage : Stage)
      → state ≡ TransferState.cancelling
      → StateFacts state sent credit stream stage
      → StateFacts state true credit stream stage
  sent_while_cancelling state sent credit stream stage r f = ground arith

  pub emit_cancel-IsKept :
      (e : Endpoint o)
      → e.receiver.state ≡ TransferState.cancelling
      → IsHonest o q e
      → IsKept o q (emit_cancel o e)
  unfolding emit_cancel
  emit_cancel-IsKept e r (f, c) =
      with_frame-IsKept o q
        (encode_cancel_frame e.receiver.context e.receiver.manifest.transfer_id e.sequence) _ _ e
        (λ frame s. kept o q _ _ (sent_while_cancelling _ _ _ _ _ r f, c))
        (λ s.
          cancellation_encoding_failure-IsKept (record e { sequence = s })
            (cancelling-IsGone _ _ _ _ _ r f) (f, c))

  -- The state that `finish` leaves, with `cancel_sent` as it was.
  finish_sent-IsHonest :
      (e : Endpoint o)
      → IsCalm o q e
      → IsHonest o q
          (on_receiver o (λ r. record r { cancel_sent = e.receiver.cancel_sent }) (finish o e))
  unfolding finish finish_committed finish_cancelled
  finish_sent-IsHonest e (calm, c) = elim (Bool-cases (is_durable o e.receiver.transaction)) [
    | inl d ↦
        let ((s, credit, stream, stage), carried) : IsHonest o q (finish_committed o e) =
          finish_committed-IsHonest e d c in
        rw (finish, d, finish_committed, calm (is_durable-stage o _ d))
          ((refl, credit, stream, stage), carried)
    | inr n ↦ rw (finish, n, finish_cancelled) (finish_cancelled-IsHonest e n c)
  ]

  pub begin_remote_cancel-IsKept :
      (e : Endpoint o) → IsHonest o q e → IsKept o q (begin_remote_cancel o e)
  unfolding begin_remote_cancel
  begin_remote_cancel-IsKept e h =
      emit_cancel_ack-IsKept
        (on_receiver o
          (λ r. record r {
            cancel_sent = e.receiver.cancel_sent;
            cancel_ack_pending = true;
            cancel_ack_failure_is_terminal = true;
            pending_cancel_ack_code =
                if is_durable o e.receiver.transaction
                then WireErrorCode.completed
                else WireErrorCode.cancelled;
          })
          (finish o e))
        (finish_sent-IsHonest e (honest-IsCalm o q e h))

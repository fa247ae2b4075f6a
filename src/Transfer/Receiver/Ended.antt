-- ===== src/Transfer/Receiver/Ended.antt =====
-- That a transfer which has ended stays so, whatever a receiver of
-- native/src/transfer/receiver.cpp does
-- afterwards.
use file_sender_byte_spark.Prelude.{
  ℕ, ◌≡◌, ◌≢◌, refl, sym, ap, ◌∙◌, inl, inr, Bool, true, false, ◌&&◌, not, Option, none, some, List,
  [], ◌∷◌, arith, if◌then◌else◌, Bool-cases, Option-cases,
}
use file_sender_byte_spark.Protocol.Types.{MessageType, ParsedFrame}
use file_sender_byte_spark.Storage.Component.{same_bytes}
use file_sender_byte_spark.Storage.Cleanup.{ReceiveTransaction, Sys}
use file_sender_byte_spark.Storage.Transaction.{abort}
use file_sender_byte_spark.Transfer.Types.{
  TransferState, TransferError, WireErrorCode, TransferUpdate, no_error, is_terminal,
}
use file_sender_byte_spark.Transfer.Errors.{wire_error_is_reject_reason, decode_wire_error}
use file_sender_byte_spark.Transfer.Limits.{observe_time}
use file_sender_byte_spark.Transfer.Inbound.{
  ParsedTransferFrame, parse_inbound, parse_body, unsigned_field, read_transfer_id,
}
use file_sender_byte_spark.Transfer.Credit.{ConnectionCreditBudget}
use file_sender_byte_spark.Transfer.Sequence.{ConnectionMessageSequence}
use file_sender_byte_spark.Transfer.Encode.{Encoded, encode_cancel_ack_frame}
use file_sender_byte_spark.Transfer.Receiver.{
  Outside, Authority, Receiver, Endpoint, update_of, clear_cancel, Outcome, on_receiver,
  on_transaction, with_frame, release_both, abort_transaction, is_durable,
}
use file_sender_byte_spark.Transfer.Receiver.Closing.{
  cancel_ack_encoding_failure, emit_cancel_ack, acknowledged_end, acknowledged, apply_cancel_ack,
}
use file_sender_byte_spark.Transfer.Receiver.Offer.{◌is◌, is_cancelled_code}
use file_sender_byte_spark.Transfer.Receiver.Frames.{
  late_update, receive_late_fields, receive_late, receive_frame,
}
use file_sender_byte_spark.Transfer.Receiver.Stage.{Stage, stage_of, StateFacts}
use file_sender_byte_spark.Transfer.Receiver.Honest.{kept, release_both-core}
use file_sender_byte_spark.Transfer.Receiver.Facts.{settled}
use file_sender_byte_spark.Storage.Budget.{TemporaryBudget}
use file_sender_byte_spark.Transfer.Types.{TransferContext}
use file_sender_byte_spark.Transfer.Receiver.Calls.{
  has_outbound, next_observed, next_outbound, confirm_chunk_ack_written,
}
use file_sender_byte_spark.Transfer.Receiver.Decisions.{accept, reject, advance, cancel, shut_down}
use file_sender_byte_spark.Transfer.Receiver.Run.{
  Event, receiver_step, receiver_run, receiver_run-IsHonest, heeded,
}
use file_sender_byte_spark.Transfer.Receiver.Outcomes.{
  says_received, after, after-IsSettled, ended-says_received,
}

ended_stage :
    (state : TransferState) (sent credit stream : Bool) (stage : Stage)
    → is_terminal state ≡ true
    → StateFacts state sent credit stream stage
    → stage ≢ Stage.underway
ended_stage state sent credit stream stage h f = ground arith

module _ (o : Outside) where
  -- The transfer has ended, and its transaction is `tx`.
  unfoldable pub IsEndedWith : Option (ReceiveTransaction o.integrity.Digest) → Outcome o → Type 0
  IsEndedWith tx x = (is_terminal x.0.receiver.state ≡ true) × (x.0.receiver.transaction ≡ tx)

  still :
      (e : Endpoint o) (u : TransferUpdate)
      → is_terminal e.receiver.state ≡ true
      → IsEndedWith e.receiver.transaction (e, u)
  unfolding IsEndedWith
  still e u ended = (ended, refl)

  ended_with :
      (tx : Option (ReceiveTransaction o.integrity.Digest)) (e : Endpoint o) (u : TransferUpdate)
      → is_terminal e.receiver.state ≡ true
      → e.receiver.transaction ≡ tx
      → IsEndedWith tx (e, u)
  unfolding IsEndedWith
  ended_with tx e u ended same = (ended, same)

  if-IsEndedWith :
      (tx : Option (ReceiveTransaction o.integrity.Digest)) (test : Bool) (a b : Outcome o)
      → (test ≡ true → IsEndedWith tx a)
      → (test ≡ false → IsEndedWith tx b)
      → IsEndedWith tx (if test then a else b)
  if-IsEndedWith tx true a b p q = p refl
  if-IsEndedWith tx false a b p q = q refl

  -- CANCEL_ACK may be sent again.
  cancel_ack_encoding_failure-IsEndedWith :
      (e : Endpoint o)
      → is_terminal e.receiver.state ≡ true
      → IsEndedWith e.receiver.transaction (cancel_ack_encoding_failure o e)
  unfolding cancel_ack_encoding_failure
  cancel_ack_encoding_failure-IsEndedWith e ended =
      if-IsEndedWith _ (not e.sequence.outbound_exhausted) _ _ (λ t. ended_with _ _ _ ended refl)
        (λ t.
          if-IsEndedWith _ e.receiver.cancel_ack_failure_is_terminal _ _
            (λ u. ended_with _ _ _ ended refl) (λ u. ended_with _ _ _ ended refl))

  emit_cancel_ack-IsEndedWith :
      (e : Endpoint o)
      → is_terminal e.receiver.state ≡ true
      → IsEndedWith e.receiver.transaction (emit_cancel_ack o e)
  unfolding emit_cancel_ack
  emit_cancel_ack-IsEndedWith e ended = encoded (
      encode_cancel_ack_frame e.receiver.context e.receiver.manifest.transfer_id
        e.receiver.pending_cancel_ack_code e.sequence)
    where
      encoded :
          (x : Encoded)
          → IsEndedWith e.receiver.transaction (
              with_frame o x
                (λ frame e'. (
                  on_receiver o
                      (λ r. record r {
                        cancel_ack_pending = false;
                        cancel_ack_failure_is_terminal = false;
                      })
                      e',
                  record (update_of e.receiver) { outbound_frame = frame },
                ))
                (cancel_ack_encoding_failure o)
                e)
      encoded (s, none) = cancel_ack_encoding_failure-IsEndedWith (record e { sequence = s }) ended
      encoded (s, some frame) = ended_with _ _ _ ended refl

  -- The transaction of an ended transfer is not changed by `Abort`.
  abort-same :
      (s : Sys o.platform o.integrity)
      → stage_of (some s.tx) ≢ Stage.underway
      → (abort o.platform o.integrity s).0.tx ≡ s.tx
  unfolding abort
  abort-same s h = ground arith

  abort_transaction-same :
      (e : Endpoint o)
      → stage_of e.receiver.transaction ≢ Stage.underway
      → (abort_transaction o e).receiver.transaction ≡ e.receiver.transaction
  unfolding abort_transaction on_transaction
  abort_transaction-same e h = elim (Option-cases e.receiver.transaction) [
    | inl n ↦ rw (abort_transaction, on_transaction, n) n
    | inr (tx, n) ↦ rw (abort_transaction, on_transaction, n) (ap some (abort-same _ (rw n at h)))
  ]

  acknowledged_end-ended :
      (code : WireErrorCode) (r : Receiver o.integrity.Digest)
      → (is_terminal (acknowledged_end o code r).state ≡ true)
        × ((acknowledged_end o code r).transaction ≡ r.transaction)
  acknowledged_end-ended WireErrorCode.cancelled r = (refl, refl)
  acknowledged_end-ended code r = elim (Bool-cases (wire_error_is_reject_reason code)) [
    | inl t ↦ rw t (refl, refl)
    | inr t ↦ rw t (refl, refl)
  ]

  acknowledged-ended :
      (code : WireErrorCode) (e : Endpoint o)
      → stage_of e.receiver.transaction ≢ Stage.underway
      → (is_terminal (acknowledged o code e).receiver.state ≡ true)
        × ((acknowledged o code e).receiver.transaction ≡ e.receiver.transaction)
  acknowledged-ended WireErrorCode.completed e h =
      elim (Bool-cases (is_durable o e.receiver.transaction)) [
        | inl d ↦ rw d (refl, refl)
        | inr d ↦ rw d (refl, abort_transaction-same e h)
      ]
  acknowledged-ended code e h =
      let (ended, same) = acknowledged_end-ended code (abort_transaction o e).receiver in
      (ended, same ∙ abort_transaction-same e h)

  release_both-transaction :
      (e : Endpoint o) → (release_both o e).receiver.transaction ≡ e.receiver.transaction
  release_both-transaction e = ap (λ c. c.1) (release_both-core o (settled o) e)

  apply_cancel_ack-IsEndedWith :
      (code : WireErrorCode) (e : Endpoint o)
      → stage_of e.receiver.transaction ≢ Stage.underway
      → IsEndedWith e.receiver.transaction (apply_cancel_ack o code e)
  unfolding apply_cancel_ack
  apply_cancel_ack-IsEndedWith code e h =
      let same = release_both-transaction (on_receiver o clear_cancel e) in
      let (ended, kept) =
        acknowledged-ended code (release_both o (on_receiver o clear_cancel e))
          (λ u. h (ap stage_of (sym same) ∙ u)) in
      ended_with _ _ _ ended (kept ∙ same)

  late_answer-IsEndedWith :
      (code : Option WireErrorCode) (e : Endpoint o)
      → is_terminal e.receiver.state ≡ true
      → stage_of e.receiver.transaction ≢ Stage.underway
      → IsEndedWith e.receiver.transaction (elim code [
        | none ↦ late_update o TransferError.state_violation WireErrorCode.state_violation false e
        | some c ↦ apply_cancel_ack o c e
      ])
  late_answer-IsEndedWith none e ended h = still e _ ended
  late_answer-IsEndedWith (some c) e ended h = apply_cancel_ack-IsEndedWith c e h

  receive_late_fields-IsEndedWith :
      (frame : ParsedFrame) (e : Endpoint o)
      → is_terminal e.receiver.state ≡ true
      → stage_of e.receiver.transaction ≢ Stage.underway
      → IsEndedWith e.receiver.transaction (receive_late_fields o frame e)
  unfolding receive_late_fields
  receive_late_fields-IsEndedWith frame e ended h =
      let type = frame.header.message_type in
      let code = decode_wire_error (unsigned_field frame 2) in
      elim (Option-cases (read_transfer_id frame)) [
        | inl n ↦ rw (receive_late_fields, n) (still e _ ended)
        | inr (id, n) ↦
            rw (receive_late_fields, n)
              (if-IsEndedWith _ (not (same_bytes id e.receiver.manifest.transfer_id)) _ _
                (λ t. still e _ ended)
                (λ t.
                  if-IsEndedWith _ (type is MessageType.cancel && is_cancelled_code code) _ _
                    (λ u. emit_cancel_ack-IsEndedWith _ ended)
                    (λ u.
                      if-IsEndedWith _ (type is MessageType.cancel_ack && e.receiver.cancel_sent) _
                        _ (λ v. late_answer-IsEndedWith code e ended h) (λ v. still e _ ended))))
      ]

  receive_late-IsEndedWith :
      (parsed : ParsedTransferFrame) (e : Endpoint o)
      → is_terminal e.receiver.state ≡ true
      → stage_of e.receiver.transaction ≢ Stage.underway
      → IsEndedWith e.receiver.transaction (receive_late o parsed e)
  unfolding receive_late
  receive_late-IsEndedWith parsed e ended h =
      let body = parse_body parsed in
      if-IsEndedWith _ (not (no_error parsed.error)) _ _ (λ t. still e _ ended)
        (λ t.
          if-IsEndedWith _ (not (no_error body.error)) _ _ (λ u. still e _ ended)
            (λ u. receive_late_fields-IsEndedWith body.frame e ended h))

  receive_frame-IsEndedWith :
      (authority : Authority) (encoded : List ℕ) (now : ℕ) (e : Endpoint o)
      → is_terminal e.receiver.state ≡ true
      → stage_of e.receiver.transaction ≢ Stage.underway
      → IsEndedWith e.receiver.transaction (receive_frame o authority encoded now e)
  unfolding receive_frame
  receive_frame-IsEndedWith authority encoded now e ended h =
      let parsing = parse_inbound authority.admits e.receiver.context encoded e.sequence in
      rw (receive_frame, ended)
        (if-IsEndedWith _ e.receiver.shutdown _ _ (λ t. still e _ ended)
          (λ t. receive_late-IsEndedWith parsing.1 (record e { sequence = parsing.0 }) ended h))

  next_observed-IsEndedWith :
      (authority : Authority) (now : ℕ) (e : Endpoint o)
      → is_terminal e.receiver.state ≡ true
      → IsEndedWith e.receiver.transaction (next_observed o authority now e)
  unfolding next_observed
  next_observed-IsEndedWith authority now e ended =
      rw (next_observed, ended)
        (if-IsEndedWith _ (not authority.admits) _ _ (λ t. ended_with _ _ _ ended refl)
          (λ t.
            if-IsEndedWith _ e.receiver.cancel_ack_pending _ _
              (λ u. emit_cancel_ack-IsEndedWith e ended) (λ u. still e _ ended)))

  next_outbound-IsEndedWith :
      (authority : Authority) (now : ℕ) (e : Endpoint o)
      → is_terminal e.receiver.state ≡ true
      → IsEndedWith e.receiver.transaction (next_outbound o authority now e)
  unfolding next_outbound
  next_outbound-IsEndedWith authority now e ended =
      if-IsEndedWith _ e.receiver.shutdown _ _ (λ t. still e _ ended)
        (λ t.
          if-IsEndedWith _ (is_terminal e.receiver.state && not e.receiver.cancel_ack_pending) _ _
            (λ u. still e _ ended)
            (λ u.
              if-IsEndedWith _
                (not (has_outbound e.receiver.state) && not e.receiver.cancel_ack_pending) _ _
                (λ v. still e _ ended)
                (λ v. elim (Option-cases (observe_time now e.receiver.last_now_ms)) [
                  | inl n ↦ rw (n, ended) (still e _ ended)
                  | inr (seen, n) ↦ rw n (
                      next_observed-IsEndedWith authority now
                        (on_receiver o (λ r. record r { last_now_ms = seen }) e) ended)
                ])))

  outcome-ended :
      (tx : Option (ReceiveTransaction o.integrity.Digest)) (x : Outcome o)
      → IsEndedWith tx x
      → (is_terminal x.0.receiver.state ≡ true) × (x.0.receiver.transaction ≡ tx)
  unfolding IsEndedWith
  outcome-ended tx x h = h

  first-IsEndedWith :
      (tx : Option (ReceiveTransaction o.integrity.Digest)) (test : Bool) (a b : Outcome o)
      → test ≡ true
      → IsEndedWith tx a
      → IsEndedWith tx (if test then a else b)
  first-IsEndedWith tx test a b t p = rw t p

  -- Every step leaves an ended transfer ended, with the transaction that it had.
  receiver_step-ended :
      (x : Event) (e : Endpoint o)
      → is_terminal e.receiver.state ≡ true
      → stage_of e.receiver.transaction ≢ Stage.underway
      → (is_terminal (receiver_step o x e).receiver.state ≡ true)
        × ((receiver_step o x e).receiver.transaction ≡ e.receiver.transaction)
  unfolding confirm_chunk_ack_written accept reject advance cancel shut_down
  receiver_step-ended (Event.receives a encoded now) e ended h =
      outcome-ended _ _ (receive_frame-IsEndedWith a encoded now e ended h)
  receiver_step-ended (Event.sends a now) e ended h =
      outcome-ended _ _ (next_outbound-IsEndedWith a now e ended)
  receiver_step-ended (Event.confirms a next_offset now) e ended h =
      outcome-ended _ _
        (first-IsEndedWith _ (is_terminal e.receiver.state) _ _ ended (ended_with _ e _ ended refl))
  receiver_step-ended (Event.accepts a chunk_size window now) e ended h =
      outcome-ended _ _
        (first-IsEndedWith _ (is_terminal e.receiver.state) _ _ ended (ended_with _ e _ ended refl))
  receiver_step-ended (Event.rejects a code retryable now) e ended h =
      outcome-ended _ _
        (first-IsEndedWith _ (is_terminal e.receiver.state) _ _ ended (ended_with _ e _ ended refl))
  receiver_step-ended (Event.advances a now) e ended h =
      outcome-ended _ _
        (first-IsEndedWith _ (is_terminal e.receiver.state) _ _ ended (ended_with _ e _ ended refl))
  receiver_step-ended (Event.cancels a now) e ended h =
      outcome-ended _ _
        (first-IsEndedWith _ (is_terminal e.receiver.state) _ _ ended (ended_with _ e _ ended refl))
  receiver_step-ended Event.shuts_down e ended h = outcome-ended _ _ (
      first-IsEndedWith _ (is_terminal e.receiver.state) _ _ ended (
        ended_with _ (on_receiver o (λ r. record (clear_cancel r) { shutdown = true }) e) _ ended
          refl))
  receiver_step-ended (Event.others sequence credit budget) e ended h = (ended, refl)

  receiver_run-ended :
      (xs : List Event) (e : Endpoint o)
      → is_terminal e.receiver.state ≡ true
      → stage_of e.receiver.transaction ≢ Stage.underway
      → (is_terminal (receiver_run o xs e).receiver.state ≡ true)
        × ((receiver_run o xs e).receiver.transaction ≡ e.receiver.transaction)
  receiver_run-ended [] e ended h = (ended, refl)
  receiver_run-ended (x ∷ xs) e ended h =
      let (ended', same) = receiver_step-ended x e ended h in
      let (last, same') =
        receiver_run-ended xs (receiver_step o x e) ended' (λ u. h (ap stage_of (sym same) ∙ u)) in
      (last, same' ∙ same)

  -- Take a new receiver and two histories, one after the other: its methods in any order, any
  -- frames, times and answers of the session authority, and any change of the shared message ids,
  -- credit and temporary budget in between. If the transfer has ended after the first, it has ended
  -- after the second too, with the same transaction, and its state says that the file is
  -- received (`completed` or
  -- `committed`) exactly if it said so before.
  pub run-says_received_still :
      (context : TransferContext) (sequence : ConnectionMessageSequence)
      (credit : ConnectionCreditBudget) (budget : TemporaryBudget) (world : o.platform.World)
      (provided : o.provider.State) (xs ys : List Event)
      → is_terminal (after o context sequence credit budget world provided xs).receiver.state ≡ true
      → (is_terminal
            (receiver_run o ys
              (after o context sequence credit budget world provided xs)).receiver.state
          ≡ true)
        × ((receiver_run o ys
              (after o context sequence credit budget world provided xs)).receiver.transaction
            ≡ (after o context sequence credit budget world provided xs).receiver.transaction)
        × (says_received
              (receiver_run o ys
                (after o context sequence credit budget world provided xs)).receiver.state
            ≡ says_received
                (after o context sequence credit budget world provided xs).receiver.state)
  run-says_received_still context sequence credit budget world provided xs ys ended =
      let e : Endpoint o = after o context sequence credit budget world provided xs in
      let h = after-IsSettled o context sequence credit budget world provided xs in
      let (last, same) = receiver_run-ended ys e ended (ended_stage _ _ _ _ _ ended h.0) in
      (
        last,
        same,
        ended-says_received o (receiver_run o ys e)
              (receiver_run-IsHonest o (settled o) ys e (heeded o (settled o) (λ c c'. tt) ys e) h)
              last
            ∙ (ap (λ tx. is_durable o tx) same ∙ sym (ended-says_received o e h ended)),
      )

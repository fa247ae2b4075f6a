-- ===== src/Transfer/Receiver/Receives.antt =====
-- That `OneFileReceiver::ReceiveFrame` of native/src/transfer/receiver.cpp keeps the invariant.
use file_sender_byte_spark.Prelude.{
  ℕ, ◌≡◌, refl, inl, inr, Bool, true, false, ◌&&◌, not, Option, none, some, List, arith,
  Option-cases,
}
use file_sender_byte_spark.Protocol.Types.{MessageType, ParsedFrame}
use file_sender_byte_spark.Storage.Component.{same_bytes}
use file_sender_byte_spark.Transfer.Types.{
  TransferState, TransferError, WireErrorCode, no_error, is_terminal,
}
use file_sender_byte_spark.Transfer.Errors.{decode_wire_error}
use file_sender_byte_spark.Transfer.Limits.{observe_time}
use file_sender_byte_spark.Transfer.Inbound.{
  ParsedTransferFrame, parse_inbound, parse_body, unsigned_field, read_transfer_id,
}
use file_sender_byte_spark.Transfer.Credit.{ConnectionCreditBudget, StreamOpenResult, open_stream}
use file_sender_byte_spark.Transfer.Sequence.{ConnectionMessageSequence}
use file_sender_byte_spark.Transfer.Receiver.{Outside, Authority, Endpoint, Outcome, on_receiver}
use file_sender_byte_spark.Transfer.Receiver.Endings.{check_timeout}
use file_sender_byte_spark.Transfer.Receiver.Closing.{apply_cancel_ack}
use file_sender_byte_spark.Transfer.Receiver.Offer.{
  ◌is◌, is_created, is_cancelled_code, allowed_inbound,
}
use file_sender_byte_spark.Transfer.Receiver.Frames.{
  receive_cancel, receive_cancel_ack, receive_in, receive_for_transfer, receive_fields,
  receive_parsed, receive_in_time, with_stream, receive_inbound, late_update, receive_late_fields,
  receive_late, parsed_then, receive_frame,
}
use file_sender_byte_spark.Transfer.Receiver.Stage.{Stage, StateFacts}
use file_sender_byte_spark.Transfer.Receiver.Honest.{
  Carried, share, IsHonest, IsKept, kept, if-IsKept,
}
use file_sender_byte_spark.Transfer.Receiver.Ends.{check_timeout-IsKept}
use file_sender_byte_spark.Transfer.Receiver.Closes.{
  emit_cancel_ack-IsKept, begin_remote_cancel-IsKept,
}
use file_sender_byte_spark.Transfer.Receiver.Answers.{apply_cancel_ack-IsKept}
use file_sender_byte_spark.Transfer.Receiver.Offers.{
  failed-IsKept, receive_error-IsKept, receive_offer-IsKept, receive_manifest_entry-IsKept,
  receive_manifest_end-IsKept,
}
use file_sender_byte_spark.Transfer.Receiver.Contents.{receive_file-IsKept, receive_complete-IsKept}

created_state : (s : TransferState) → is_created s ≡ true → s ≡ TransferState.created
created_state s h = ground arith

stream_opened :
    (state : TransferState) (sent credit stream : Bool) (stage : Stage)
    → state ≡ TransferState.created
    → StateFacts state sent credit stream stage
    → StateFacts state sent credit true stage
stream_opened state sent credit stream stage h f = ground arith

and_true_right : (a b : Bool) → (a && b) ≡ true → b ≡ true
and_true_right a b h = ground arith

unset_left : (a b : Bool) → (not a && b) ≡ true → a ≡ false
unset_left a b h = ground arith

module _ (o : Outside) (q : Carried o) where
  receive_cancel-IsKept :
      (authority : Authority) (frame : ParsedFrame) (e : Endpoint o)
      → IsHonest o q e
      → IsKept o q (receive_cancel o authority frame e)
  unfolding receive_cancel
  receive_cancel-IsKept authority frame e h =
      if-IsKept o q (is_cancelled_code (decode_wire_error (unsigned_field frame 2))) _ _
        (λ t. begin_remote_cancel-IsKept o q e h) (λ t. failed-IsKept o q authority _ _ _ e h)

  receive_cancel_ack-IsKept :
      (authority : Authority) (frame : ParsedFrame) (e : Endpoint o)
      → IsHonest o q e
      → IsKept o q (receive_cancel_ack o authority frame e)
  unfolding receive_cancel_ack
  receive_cancel_ack-IsKept authority frame e h =
      elim (Option-cases (decode_wire_error (unsigned_field frame 2))) [
        | inl n ↦ rw (receive_cancel_ack, n) (failed-IsKept o q authority _ _ _ e h)
        | inr (code, n) ↦
            rw (receive_cancel_ack, n)
              (if-IsKept o q e.receiver.cancel_sent _ _
                (λ t. apply_cancel_ack-IsKept o q code e t h)
                (λ t. failed-IsKept o q authority _ _ _ e h))
      ]

  receive_in-IsKept :
      (state : TransferState) (authority : Authority) (frame : ParsedFrame) (now : ℕ)
      (e : Endpoint o)
      → e.receiver.state ≡ state
      → IsHonest o q e
      → IsKept o q (receive_in o state authority frame now e)
  unfolding receive_in
  receive_in-IsKept TransferState.cancelling authority frame now e r h = kept o q e _ h
  receive_in-IsKept TransferState.receiving_manifest authority frame now e r h =
      if-IsKept o q e.receiver.manifest_entry_received _ _
        (λ t. receive_manifest_end-IsKept o q authority frame now e r h)
        (λ t. receive_manifest_entry-IsKept o q authority frame now e r h)
  receive_in-IsKept TransferState.receiving_file authority frame now e r h =
      receive_file-IsKept o q authority frame now e r h
  receive_in-IsKept TransferState.awaiting_completion authority frame now e r h =
      receive_complete-IsKept o q authority frame now e r h
  receive_in-IsKept state authority frame now e r h = failed-IsKept o q authority _ _ _ e h

  receive_for_transfer-IsKept :
      (authority : Authority) (transfer_id : List ℕ) (frame : ParsedFrame) (now : ℕ)
      (e : Endpoint o)
      → IsHonest o q e
      → IsKept o q (receive_for_transfer o authority transfer_id frame now e)
  unfolding receive_for_transfer
  receive_for_transfer-IsKept authority transfer_id frame now e h =
      if-IsKept o q (is_created e.receiver.state) _ _
        (λ t. receive_offer-IsKept o q authority transfer_id frame now e (created_state _ t) h)
        (λ t.
          if-IsKept o q (not (same_bytes transfer_id e.receiver.manifest.transfer_id)) _ _
            (λ u. failed-IsKept o q authority _ _ _ e h)
            (λ u.
              if-IsKept o q (frame.header.message_type is MessageType.cancel) _ _
                (λ v. receive_cancel-IsKept authority frame e h)
                (λ v.
                  if-IsKept o q (frame.header.message_type is MessageType.cancel_ack) _ _
                    (λ w. receive_cancel_ack-IsKept authority frame e h)
                    (λ w. receive_in-IsKept _ authority frame now e refl h))))

  receive_fields-IsKept :
      (authority : Authority) (frame : ParsedFrame) (now : ℕ) (e : Endpoint o)
      → IsHonest o q e
      → IsKept o q (receive_fields o authority frame now e)
  unfolding receive_fields
  receive_fields-IsKept authority frame now e h =
      if-IsKept o q (frame.header.message_type is MessageType.error) _ _
        (λ t. receive_error-IsKept o q authority frame e h)
        (λ t. elim (Option-cases (read_transfer_id frame)) [
          | inl n ↦ rw n (failed-IsKept o q authority _ _ _ e h)
          | inr (id, n) ↦ rw n (receive_for_transfer-IsKept authority id frame now e h)
        ])

  receive_parsed-IsKept :
      (authority : Authority) (parsed : ParsedTransferFrame) (now : ℕ) (e : Endpoint o)
      → IsHonest o q e
      → IsKept o q (receive_parsed o authority parsed now e)
  unfolding receive_parsed
  receive_parsed-IsKept authority parsed now e h =
      let body = parse_body parsed in
      if-IsKept o q
        (not (
          allowed_inbound e.receiver.state parsed.frame.header.message_type
            e.receiver.manifest_entry_received e.receiver.file_begin_received
            e.receiver.cancel_origin_state))
        _ _ (λ t. failed-IsKept o q authority _ _ _ e h)
        (λ t.
          if-IsKept o q (not (no_error body.error)) _ _ (λ u. failed-IsKept o q authority _ _ _ e h)
            (λ u. receive_fields-IsKept authority body.frame now e h))

  receive_in_time-IsKept :
      (authority : Authority) (parsed : ParsedTransferFrame) (now : ℕ) (x : Outcome o)
      → IsKept o q x
      → IsKept o q (receive_in_time o authority parsed now x)
  unfolding IsKept
  receive_in_time-IsKept authority parsed now (e, timeout) h =
      if-IsKept o q (no_error timeout.error) _ _
        (λ t. receive_parsed-IsKept authority parsed now e h) (λ t. kept o q e timeout h)

  with_stream-IsKept :
      (authority : Authority) (e : Endpoint o) (x : ConnectionCreditBudget × StreamOpenResult)
      (go_on : Endpoint o → Outcome o)
      → e.receiver.state ≡ TransferState.created
      → e.receiver.stream_reserved ≡ false
      → open_stream e.receiver.context.stream_id false e.receiver.context.local_role e.credit ≡ x
      → IsHonest o q e
      → ((e' : Endpoint o) → IsHonest o q e' → IsKept o q (go_on e'))
      → IsKept o q (with_stream o authority e x go_on)
  with_stream-IsKept authority e (credit, StreamOpenResult.opened) go_on r n x
        (f, (held, (fits, lent))) goes =
      goes _ (
        stream_opened _ _ _ _ _ r f,
        (held, (fits, q.lends.stream_opened (share o q e) false _ credit n x lent)),
      )
  with_stream-IsKept authority e (credit, StreamOpenResult.capacity_rejected) go_on r n x
        (f, (held, (fits, lent))) goes =
      failed-IsKept o q authority _ _ _ (record e { credit = credit })
        (
          f,
          (
            held,
            (
              fits,
              q.lends.stream_refused (share o q e) false _ credit _ (λ a. ground arith) x lent,
            ),
          ),
        )
  with_stream-IsKept authority e (credit, StreamOpenResult.invalid) go_on r n x
        (f, (held, (fits, lent))) goes =
      failed-IsKept o q authority _ _ _ (record e { credit = credit })
        (
          f,
          (
            held,
            (
              fits,
              q.lends.stream_refused (share o q e) false _ credit _ (λ a. ground arith) x lent,
            ),
          ),
        )

  receive_inbound-IsKept :
      (authority : Authority) (parsed : ParsedTransferFrame) (now : ℕ) (e : Endpoint o)
      → IsHonest o q e
      → IsKept o q (receive_inbound o authority parsed now e)
  unfolding receive_inbound
  receive_inbound-IsKept authority parsed now e h =
      if-IsKept o q (not (no_error parsed.error)) _ _ (λ t. failed-IsKept o q authority _ _ _ e h)
        (λ t.
          if-IsKept o q (not e.receiver.stream_reserved && is_created e.receiver.state) _ _
            (λ u.
              with_stream-IsKept authority e _ _ (created_state _ (and_true_right _ _ u))
                (unset_left _ _ u) refl h goes)
            (λ u. goes e h))
    where
      goes :
          (e' : Endpoint o)
          → IsHonest o q e'
          → IsKept o q (receive_in_time o authority parsed now (check_timeout o authority now e'))
      goes e' h' =
          receive_in_time-IsKept authority parsed now _
            (check_timeout-IsKept o q authority now e' h')

  receive_late_fields-IsKept :
      (frame : ParsedFrame) (e : Endpoint o)
      → IsHonest o q e
      → IsKept o q (receive_late_fields o frame e)
  unfolding receive_late_fields
  receive_late_fields-IsKept frame e h =
      let type = frame.header.message_type in
      let code = decode_wire_error (unsigned_field frame 2) in
      elim (Option-cases (read_transfer_id frame)) [
        | inl n ↦ rw (receive_late_fields, n) (kept o q e _ h)
        | inr (id, n) ↦
            rw (receive_late_fields, n)
              (if-IsKept o q (not (same_bytes id e.receiver.manifest.transfer_id)) _ _
                (λ t. kept o q e _ h)
                (λ t.
                  if-IsKept o q (type is MessageType.cancel && is_cancelled_code code) _ _
                    (λ u. emit_cancel_ack-IsKept o q _ h)
                    (λ u.
                      if-IsKept o q (type is MessageType.cancel_ack && e.receiver.cancel_sent) _ _
                        (λ v. acknowledged_late code e (and_true_right _ _ v) h)
                        (λ v. kept o q e _ h))))
      ]
    where
      acknowledged_late :
          (code : Option WireErrorCode) (e' : Endpoint o)
          → e'.receiver.cancel_sent ≡ true
          → IsHonest o q e'
          → IsKept o q (elim code [
            | none ↦
                late_update o TransferError.state_violation WireErrorCode.state_violation false e'
            | some c ↦ apply_cancel_ack o c e'
          ])
      acknowledged_late none e' sent h' = kept o q e' _ h'
      acknowledged_late (some c) e' sent h' = apply_cancel_ack-IsKept o q c e' sent h'

  receive_late-IsKept :
      (parsed : ParsedTransferFrame) (e : Endpoint o)
      → IsHonest o q e
      → IsKept o q (receive_late o parsed e)
  unfolding receive_late
  receive_late-IsKept parsed e h =
      let body = parse_body parsed in
      if-IsKept o q (not (no_error parsed.error)) _ _ (λ t. kept o q e _ h)
        (λ t.
          if-IsKept o q (not (no_error body.error)) _ _ (λ u. kept o q e _ h)
            (λ u. receive_late_fields-IsKept body.frame e h))

  parsed_then-IsKept :
      (x : ConnectionMessageSequence × ParsedTransferFrame) (e : Endpoint o)
      (go_on : ParsedTransferFrame → Endpoint o → Outcome o)
      → IsHonest o q e
      → ((parsed : ParsedTransferFrame) (e' : Endpoint o)
          → IsHonest o q e'
          → IsKept o q (go_on parsed e'))
      → IsKept o q (parsed_then o x e go_on)
  parsed_then-IsKept (s, parsed) e go_on h goes = goes parsed (record e { sequence = s }) h

  pub receive_frame-IsKept :
      (authority : Authority) (encoded : List ℕ) (now : ℕ) (e : Endpoint o)
      → IsHonest o q e
      → IsKept o q (receive_frame o authority encoded now e)
  unfolding receive_frame
  receive_frame-IsKept authority encoded now e h =
      let parsing = parse_inbound authority.admits e.receiver.context encoded e.sequence in
      if-IsKept o q e.receiver.shutdown _ _ (λ t. kept o q e _ h)
        (λ t.
          if-IsKept o q (is_terminal e.receiver.state) _ _
            (λ u. parsed_then-IsKept parsing e _ h receive_late-IsKept)
            (λ u. elim (Option-cases (observe_time now e.receiver.last_now_ms)) [
              | inl n ↦ rw n (failed-IsKept o q authority _ _ _ e h)
              | inr (seen, n) ↦ rw n (
                  parsed_then-IsKept parsing
                    (on_receiver o (λ r. record r { last_now_ms = seen }) e) _ h
                    (λ parsed e' h'. receive_inbound-IsKept authority parsed now e' h'))
            ]))

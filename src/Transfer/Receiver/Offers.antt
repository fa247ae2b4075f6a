-- ===== src/Transfer/Receiver/Offers.antt =====
-- That the offer and the manifest, as native/src/transfer/receiver.cpp takes them, keep the
-- invariant.
use file_sender_byte_spark.Prelude.{
  ℕ, ◌≡◌, refl, sym, subst, Option, none, some, ◌⊎◌, inl, inr, Bool, false, ◌&&◌, ◌||◌, not, List,
  arith, ltb, ◌!=◌, Option-cases,
}
use file_sender_byte_spark.Protocol.Types.{MessageType, ParsedFrame}
use file_sender_byte_spark.Storage.Types.{ValidationError, ValidatedReceiveRequest}
use file_sender_byte_spark.Storage.Component.{max_file_bytes, same_bytes}
use file_sender_byte_spark.Storage.Path.{RequestValidationResult, validate_receive_request}
use file_sender_byte_spark.Storage.Cleanup.{ReceiveTransaction}
use file_sender_byte_spark.Transfer.Types.{
  OneFileManifest, TransferState, TransferError, WireErrorCode,
}
use file_sender_byte_spark.Transfer.Errors.{
  decode_wire_error, wire_error_may_retry, wire_error_is_fatal,
}
use file_sender_byte_spark.Transfer.Limits.{all_zero, valid_commitment}
use file_sender_byte_spark.Transfer.Inbound.{unsigned_field, bytes_of}
use file_sender_byte_spark.Transfer.Receiver.{Outside, Authority, Endpoint}
use file_sender_byte_spark.Transfer.Receiver.Endings.{fail}
use file_sender_byte_spark.Transfer.Receiver.Offer.{
  ◌is◌, receive_error, receive_offer, receive_manifest_entry, manifest_verified,
  receive_manifest_end,
}
use file_sender_byte_spark.Transfer.Receiver.Stage.{Stage, stage_of, StateFacts}
use file_sender_byte_spark.Transfer.Receiver.Honest.{
  Carried, HoldsOf, IsHonest, IsKept, kept, if-IsKept,
}
use file_sender_byte_spark.Transfer.Receiver.Ends.{
  honest-IsCalm, settle_failure-IsHonest, fail-IsKept,
}

-- The states before a decision.
pub idle_facts :
    (state : TransferState) (sent credit stream : Bool) (stage : Stage)
    → (state ≡ TransferState.created)
      ⊎ ((state ≡ TransferState.receiving_manifest) ⊎ (state ≡ TransferState.awaiting_decision))
    → StateFacts state sent credit stream stage
    → (sent ≡ false) × (credit ≡ false) × (stage ≡ Stage.absent)
idle_facts state sent credit stream stage h f = ground arith

pub request_cases :
    (x : RequestValidationResult)
    → ((e : ValidationError) × (x ≡ RequestValidationResult.rejected e))
      ⊎ ((r : ValidatedReceiveRequest) × (x ≡ RequestValidationResult.accepted r))
request_cases (RequestValidationResult.rejected e) = inl (e, refl)
request_cases (RequestValidationResult.accepted r) = inr (r, refl)

absent-none :
    {D : Type 0} (tx : Option (ReceiveTransaction D)) → stage_of tx ≡ Stage.absent → tx ≡ none
absent-none none h = refl
absent-none (some tx) h = ground arith

module _ (o : Outside) (q : Carried o) where
  -- Without a transaction the manifest may change.
  other_manifest :
      (e : Endpoint o) (m : OneFileManifest)
      → stage_of e.receiver.transaction ≡ Stage.absent
      → HoldsOf o q m e.receiver.transaction e.budget e.world
  other_manifest e m absent =
      subst (λ x. HoldsOf o q m x e.budget e.world)
        (sym (absent-none e.receiver.transaction absent)) tt

  -- `Fail` from any honest state.
  pub failed-IsKept :
      (authority : Authority) (error : TransferError) (code : WireErrorCode) (fatal : Bool)
      (e : Endpoint o)
      → IsHonest o q e
      → IsKept o q (fail o authority error code fatal e)
  failed-IsKept authority error code fatal e h =
      fail-IsKept o q authority error code fatal e (honest-IsCalm o q e h)

  pub receive_error-IsKept :
      (authority : Authority) (frame : ParsedFrame) (e : Endpoint o)
      → IsHonest o q e
      → IsKept o q (receive_error o authority frame e)
  unfolding receive_error
  receive_error-IsKept authority frame e h =
      let fatal = unsigned_field frame 2 != 0 in
      let retryable = unsigned_field frame 3 != 0 in
      elim (Option-cases (decode_wire_error (unsigned_field frame 1))) [
        | inl n ↦ rw (receive_error, n) (failed-IsKept authority _ _ _ e h)
        | inr (code, n) ↦
            rw (receive_error, n)
              (if-IsKept o q
                ((fatal && not (wire_error_is_fatal code))
                  || (not fatal && wire_error_is_fatal code)
                  || (retryable && not (wire_error_may_retry code))
                  || ltb 60000 (unsigned_field frame 5))
                _ _ (λ t. failed-IsKept authority _ _ _ e h)
                (λ t.
                  kept o q _ _
                    (settle_failure-IsHonest o q _ code _ retryable e (honest-IsCalm o q e h))))
      ]

  pub receive_offer-IsKept :
      (authority : Authority) (transfer_id : List ℕ) (frame : ParsedFrame) (now : ℕ)
      (e : Endpoint o)
      → e.receiver.state ≡ TransferState.created
      → IsHonest o q e
      → IsKept o q (receive_offer o authority transfer_id frame now e)
  unfolding receive_offer
  receive_offer-IsKept authority transfer_id frame now e r (f, c) =
      if-IsKept o q (not (frame.header.message_type is MessageType.transfer_offer)) _ _
        (λ t. failed-IsKept authority _ _ _ e (f, c))
        (λ t.
          if-IsKept o q
            (all_zero transfer_id
              || unsigned_field frame 2 != 1
              || ltb max_file_bytes (unsigned_field frame 3)
              || not (valid_commitment (bytes_of frame 4)))
            _ _ (λ u. failed-IsKept authority _ _ _ e (f, c))
            (λ u.
              let idle = idle_facts _ _ _ _ _ (inl r) f in
              kept o q _ _ (idle, (other_manifest e _ idle.2, c.1))))

  pub receive_manifest_entry-IsKept :
      (authority : Authority) (frame : ParsedFrame) (now : ℕ) (e : Endpoint o)
      → e.receiver.state ≡ TransferState.receiving_manifest
      → IsHonest o q e
      → IsKept o q (receive_manifest_entry o authority frame now e)
  unfolding receive_manifest_entry
  receive_manifest_entry-IsKept authority frame now e r (f, (held, c)) =
      if-IsKept o q
        (not (frame.header.message_type is MessageType.manifest_entry)
          || unsigned_field frame 2 != 0
          || unsigned_field frame 3 != 1
          || unsigned_field frame 5 != e.receiver.manifest.file_size
          || not (valid_commitment (bytes_of frame 6)))
        _ _ (λ t. failed-IsKept authority _ _ _ e (f, (held, c)))
        (λ t.
          elim (request_cases (
            validate_receive_request o.utf8 (bytes_of frame 4) e.receiver.manifest.file_size
              max_file_bytes)) [
                | inl (error, n) ↦ rw n (failed-IsKept authority _ _ _ e (f, (held, c)))
                | inr (request, n) ↦
                    let idle = idle_facts _ _ _ _ _ (inr (inl r)) f in
                    rw n (
                      kept o q _ _ (f, (other_manifest e _ idle.2, (q.accepts _ _ request n, c.1))))
              ])

  pub receive_manifest_end-IsKept :
      (authority : Authority) (frame : ParsedFrame) (now : ℕ) (e : Endpoint o)
      → e.receiver.state ≡ TransferState.receiving_manifest
      → IsHonest o q e
      → IsKept o q (receive_manifest_end o authority frame now e)
  unfolding receive_manifest_end manifest_verified
  receive_manifest_end-IsKept authority frame now e r (f, c) =
      let answer =
        o.provider.verify_manifest e.provided e.receiver.manifest e.receiver.raw_offer_frame
          e.receiver.raw_entry_frame frame.raw in
      if-IsKept o q
        (not (frame.header.message_type is MessageType.manifest_end)
          || unsigned_field frame 2 != 1
          || unsigned_field frame 3 != e.receiver.manifest.file_size
          || not (same_bytes (bytes_of frame 4) e.receiver.manifest.manifest_commitment))
        _ _ (λ t. failed-IsKept authority _ _ _ e (f, c))
        (λ t.
          if-IsKept o q answer.1 _ _ (λ u. kept o q _ _ (idle_facts _ _ _ _ _ (inr (inl r)) f, c))
            (λ u. failed-IsKept authority _ _ _ _ (f, c)))

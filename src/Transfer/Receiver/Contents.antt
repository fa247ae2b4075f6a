-- ===== src/Transfer/Receiver/Contents.antt =====
-- That the chunks and the end of a file, as native/src/transfer/receiver.cpp takes them, keep the
-- invariant.
use file_sender_byte_spark.Prelude.{
  ℕ, ◌-◌, ◌≡◌, ◌≢◌, refl, ◌∙◌, inl, inr, Bool, true, false, ◌||◌, not, some, List, arith, length,
  ltb, ◌!=◌, Option-cases, add64,
}
use file_sender_byte_spark.Protocol.Types.{MessageType, ParsedFrame}
use file_sender_byte_spark.Storage.Types.{TransactionResult, TransactionState, TransactionError}
use file_sender_byte_spark.Storage.Component.{same_bytes}
use file_sender_byte_spark.Storage.Cleanup.{ReceiveTransaction, Sys}
use file_sender_byte_spark.Storage.Transaction.{begin, write, seal_and_commit}
use file_sender_byte_spark.Storage.Transaction.Calls.{Call, begins, writes, seals, step}
use file_sender_byte_spark.Transfer.Types.{TransferState}
use file_sender_byte_spark.Transfer.Inbound.{unsigned_field, bytes_of}
use file_sender_byte_spark.Transfer.Receiver.{
  Outside, Authority, Endpoint, on_receiver, on_transaction,
}
use file_sender_byte_spark.Transfer.Receiver.Endings.{encode_chunk_ack}
use file_sender_byte_spark.Transfer.Receiver.Offer.{◌is◌, is_success}
use file_sender_byte_spark.Transfer.Receiver.Content.{
  receive_file_begin, chunk_fits, chunk_written, chunk_stored, chunk_verified, receive_chunk,
  file_sealed, receive_file_end, receive_file, receive_complete,
}
use file_sender_byte_spark.Transfer.Receiver.Stage.{
  Stage, stage_of, StateFacts, begin-receiving, write-receiving, seal_and_commit-committed,
}
use file_sender_byte_spark.Transfer.Receiver.Honest.{
  Carried, IsCarried, IsHonest, IsKept, kept, if-IsKept, with_frame-IsKept,
  on_transaction-IsCarried, on_transaction-sent,
}
use file_sender_byte_spark.Transfer.Receiver.Ends.{unsent-IsCalm, fail-IsKept}
use file_sender_byte_spark.Transfer.Receiver.Answers.{
  emit_pending_file_commit-IsKept, emit_pending_completion_ack-IsKept,
}
use file_sender_byte_spark.Transfer.Receiver.Offers.{failed-IsKept}

pub file_facts :
    (state : TransferState) (sent credit stream : Bool) (stage : Stage)
    → state ≡ TransferState.receiving_file
    → StateFacts state sent credit stream stage
    → sent ≡ false
file_facts state sent credit stream stage h f = ground arith

pub facts_file :
    (state : TransferState) (sent credit stream : Bool) (stage : Stage)
    → state ≡ TransferState.receiving_file
    → sent ≡ false
    → stage ≡ Stage.underway
    → StateFacts state sent credit stream stage
facts_file state sent credit stream stage h s t = ground arith

receiving-stage :
    {D : Type 0} (tx : ReceiveTransaction D)
    → tx.state ≡ TransactionState.receiving
    → stage_of (some tx) ≡ Stage.underway
receiving-stage tx h = ground arith

committed-stage :
    {D : Type 0} (tx : ReceiveTransaction D)
    → tx.state ≡ TransactionState.committed
    → stage_of (some tx) ≡ Stage.durable
committed-stage tx h = ground arith

no_transaction : is_success TransactionError.invalid_state ≢ true
no_transaction h = ground arith

module _ (o : Outside) (q : Carried o) where
  -- A call on the transaction that succeeds leaves it at a known stage.
  on_transaction-stage :
      (c : Call) (stage : Stage) (e : Endpoint o)
      → ((s : Sys o.platform o.integrity)
          → is_success (step o.platform o.integrity c s).1.error ≡ true
          → stage_of (some (step o.platform o.integrity c s).0.tx) ≡ stage)
      → is_success (on_transaction o (step o.platform o.integrity c) e).1.error ≡ true
      → stage_of (on_transaction o (step o.platform o.integrity c) e).0.receiver.transaction ≡ stage
  unfolding on_transaction
  on_transaction-stage c stage e leaves good = elim (Option-cases e.receiver.transaction) [
    | inl n ↦ absurd (no_transaction (rw (on_transaction, n) at good))
    | inr (tx, n) ↦ rw (on_transaction, n) (leaves _ (rw (on_transaction, n) at good))
  ]

  pub on_transaction-state :
      (c : Call) (e : Endpoint o)
      → (on_transaction o (step o.platform o.integrity c) e).0.receiver.state ≡ e.receiver.state
  unfolding on_transaction
  on_transaction-state c e = elim (Option-cases e.receiver.transaction) [
    | inl n ↦ rw (on_transaction, n) refl
    | inr (tx, n) ↦ rw (on_transaction, n) refl
  ]

  pub write-stage :
      (bytes : List ℕ) (e : Endpoint o)
      → is_success (on_transaction o (write o.platform o.integrity bytes) e).1.error ≡ true
      → stage_of (on_transaction o (write o.platform o.integrity bytes) e).0.receiver.transaction
        ≡ Stage.underway
  write-stage bytes e good =
      on_transaction-stage (writes bytes) Stage.underway e
        (λ s g.
          receiving-stage (write o.platform o.integrity bytes s).0.tx (write-receiving o bytes s g))
        good

  pub begin-stage :
      (e : Endpoint o)
      → is_success (on_transaction o (begin o.platform o.integrity) e).1.error ≡ true
      → stage_of (on_transaction o (begin o.platform o.integrity) e).0.receiver.transaction
        ≡ Stage.underway
  begin-stage e good =
      on_transaction-stage begins Stage.underway e
        (λ s g. receiving-stage (begin o.platform o.integrity s).0.tx (begin-receiving o s g)) good

  seal_and_commit-stage :
      (e : Endpoint o)
      → is_success (on_transaction o (seal_and_commit o.platform o.integrity) e).1.error ≡ true
      → stage_of
          (on_transaction o (seal_and_commit o.platform o.integrity) e).0.receiver.transaction
        ≡ Stage.durable
  seal_and_commit-stage e good =
      on_transaction-stage seals Stage.durable e
        (λ s g.
          committed-stage (seal_and_commit o.platform o.integrity s).0.tx
            (seal_and_commit-committed o s g))
        good

  receive_file_begin-IsKept :
      (authority : Authority) (frame : ParsedFrame) (e : Endpoint o)
      → IsHonest o q e
      → IsKept o q (receive_file_begin o authority frame e)
  unfolding receive_file_begin
  receive_file_begin-IsKept authority frame e h =
      if-IsKept o q
        (not (frame.header.message_type is MessageType.file_begin)
          || unsigned_field frame 2 != 0
          || unsigned_field frame 3 != e.receiver.manifest.file_size
          || unsigned_field frame 4 != e.receiver.chunk_size)
        _ _ (λ t. failed-IsKept o q authority _ _ _ e h) (λ t. kept o q _ _ h)

  chunk_written-IsKept :
      (authority : Authority) (size now : ℕ) (e : Endpoint o)
      → IsHonest o q e
      → IsKept o q (chunk_written o authority size now e)
  unfolding chunk_written
  chunk_written-IsKept authority size now e h =
      let counted =
        on_receiver o
          (λ r. record r {
            available_credit = r.available_credit - size;
            next_offset = add64 r.next_offset size;
            last_chunk_size = size;
          })
          e in
      with_frame-IsKept o q (encode_chunk_ack o counted.receiver counted.sequence) _ _ counted
        (λ frame s. kept o q _ _ h)
        (λ s. failed-IsKept o q authority _ _ _ (record counted { sequence = s }) h)

  chunk_stored-IsKept :
      (authority : Authority) (size now : ℕ) (x : Endpoint o × TransactionResult)
      → x.0.receiver.cancel_sent ≡ false
      → IsCarried o q x.0
      → (is_success x.1.error ≡ true → IsHonest o q x.0)
      → IsKept o q (chunk_stored o authority size now x)
  unfolding chunk_stored
  chunk_stored-IsKept authority size now (e, result) unsent c good =
      if-IsKept o q (is_success result.error) _ _
        (λ t. chunk_written-IsKept authority size now e (good t))
        (λ t. fail-IsKept o q authority _ _ _ e (unsent-IsCalm o q e unsent c))

  chunk_verified-IsKept :
      (authority : Authority) (content : List ℕ) (now : ℕ) (verified : Bool) (e : Endpoint o)
      → e.receiver.state ≡ TransferState.receiving_file
      → IsHonest o q e
      → IsKept o q (chunk_verified o authority content now verified e)
  unfolding chunk_verified
  chunk_verified-IsKept authority content now verified e r (f, c) =
      let unsent = on_transaction-sent o q (writes content) e ∙ file_facts _ _ _ _ _ r f in
      let carried = on_transaction-IsCarried o q (writes content) e c in
      if-IsKept o q verified _ _
        (λ t.
          chunk_stored-IsKept authority _ now
            (on_transaction o (write o.platform o.integrity content) e) unsent carried
            (λ good. (
              facts_file _ _ _ _ _ (on_transaction-state (writes content) e ∙ r) unsent
                  (write-stage content e good),
              carried,
            )))
        (λ t. failed-IsKept o q authority _ _ _ e (f, c))

  receive_chunk-IsKept :
      (authority : Authority) (frame : ParsedFrame) (now : ℕ) (e : Endpoint o)
      → e.receiver.state ≡ TransferState.receiving_file
      → IsHonest o q e
      → IsKept o q (receive_chunk o authority frame now e)
  unfolding receive_chunk
  receive_chunk-IsKept authority frame now e r h =
      let content = bytes_of frame 4 in
      let answer =
        o.provider.verify_chunk_commitment e.provided e.receiver.manifest.transfer_id 0
          e.receiver.next_offset content (bytes_of frame 5) in
      if-IsKept o q (not (chunk_fits o frame e.receiver)) _ _
        (λ t. failed-IsKept o q authority _ _ _ e h)
        (λ t.
          if-IsKept o q (ltb e.receiver.available_credit (length content)) _ _
            (λ u. failed-IsKept o q authority _ _ _ e h)
            (λ u.
              chunk_verified-IsKept authority content now answer.1
                (record e { provided = answer.0 }) r h))

  file_sealed-IsKept :
      (authority : Authority) (now : ℕ) (x : Endpoint o × TransactionResult)
      → x.0.receiver.cancel_sent ≡ false
      → IsCarried o q x.0
      → (is_success x.1.error ≡ true → stage_of x.0.receiver.transaction ≡ Stage.durable)
      → IsKept o q (file_sealed o authority now x)
  unfolding file_sealed
  file_sealed-IsKept authority now (e, result) unsent c good =
      if-IsKept o q (is_success result.error) _ _
        (λ t. emit_pending_file_commit-IsKept o q authority _ ((unsent, good t), c))
        (λ t. fail-IsKept o q authority _ _ _ e (unsent-IsCalm o q e unsent c))

  receive_file_end-IsKept :
      (authority : Authority) (frame : ParsedFrame) (now : ℕ) (e : Endpoint o)
      → e.receiver.state ≡ TransferState.receiving_file
      → IsHonest o q e
      → IsKept o q (receive_file_end o authority frame now e)
  unfolding receive_file_end
  receive_file_end-IsKept authority frame now e r (f, c) =
      if-IsKept o q
        (unsigned_field frame 2 != 0
          || unsigned_field frame 3 != e.receiver.manifest.file_size
          || e.receiver.next_offset != e.receiver.manifest.file_size
          || not (same_bytes (bytes_of frame 4) e.receiver.manifest.file_commitment))
        _ _ (λ t. failed-IsKept o q authority _ _ _ e (f, c))
        (λ t.
          file_sealed-IsKept authority now
            (on_transaction o (seal_and_commit o.platform o.integrity) e)
            (on_transaction-sent o q seals e ∙ file_facts _ _ _ _ _ r f)
            (on_transaction-IsCarried o q seals e c) (seal_and_commit-stage e))

  pub receive_file-IsKept :
      (authority : Authority) (frame : ParsedFrame) (now : ℕ) (e : Endpoint o)
      → e.receiver.state ≡ TransferState.receiving_file
      → IsHonest o q e
      → IsKept o q (receive_file o authority frame now e)
  unfolding receive_file
  receive_file-IsKept authority frame now e r h =
      if-IsKept o q (not e.receiver.file_begin_received) _ _
        (λ t. receive_file_begin-IsKept authority frame e h)
        (λ t.
          if-IsKept o q (frame.header.message_type is MessageType.file_chunk) _ _
            (λ u. receive_chunk-IsKept authority frame now e r h)
            (λ u.
              if-IsKept o q (frame.header.message_type is MessageType.file_end) _ _
                (λ v. receive_file_end-IsKept authority frame now e r h)
                (λ v. failed-IsKept o q authority _ _ _ e h)))

  pub receive_complete-IsKept :
      (authority : Authority) (frame : ParsedFrame) (now : ℕ) (e : Endpoint o)
      → e.receiver.state ≡ TransferState.awaiting_completion
      → IsHonest o q e
      → IsKept o q (receive_complete o authority frame now e)
  unfolding receive_complete
  receive_complete-IsKept authority frame now e r h =
      if-IsKept o q
        (not e.receiver.file_commit_sent
          || not (frame.header.message_type is MessageType.transfer_complete)
          || not (same_bytes (bytes_of frame 2) e.receiver.manifest.manifest_commitment))
        _ _ (λ t. failed-IsKept o q authority _ _ _ e h)
        (λ t. emit_pending_completion_ack-IsKept o q authority _ r h)

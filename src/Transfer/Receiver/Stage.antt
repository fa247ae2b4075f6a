-- ===== src/Transfer/Receiver/Stage.antt =====
-- What the state of a receiver (native/src/transfer/receiver.cpp) says of its transaction, its
-- credit and its
-- stream, and what ending a transfer does to them.
use file_sender_byte_spark.Prelude.{ℕ, ◌≡◌, Bool, true, false, Option, none, some, List, arith}
use file_sender_byte_spark.Storage.Types.{PlatformError, TransactionState, TransactionError}
use file_sender_byte_spark.Storage.Cleanup.{
  ReceiveTransaction, Sys, error_for_platform, release_reservation, finish_cleanup,
  fail_and_cleanup,
}
use file_sender_byte_spark.Storage.Transaction.{
  begin_created, begin_reserved, begin_budgeted, begin, write_verified, write_data, write,
  commit_finished, commit_sealed, seal_verifier, seal_and_commit, abort,
}
use file_sender_byte_spark.Transfer.Types.{TransferState}
use file_sender_byte_spark.Transfer.Receiver.{Outside, Endpoint, is_durable}
use file_sender_byte_spark.Transfer.Receiver.Offer.{is_success}

-- How far the file of a transfer is.
pub data Stage : Type 0 where
  absent underway durable dropped : Stage

abbrev pub stage_of : {D : Type 0} → Option (ReceiveTransaction D) → Stage
stage_of none = Stage.absent
stage_of (some tx) = elim tx.state [
  | TransactionState.created ↦ Stage.underway
  | TransactionState.receiving ↦ Stage.underway
  | TransactionState.committed ↦ Stage.durable
  | _ ↦ Stage.dropped
]

-- No file is written, and none was committed.
abbrev pub IsGone : Stage → Type 0
IsGone Stage.absent = Unit {0}
IsGone Stage.underway = ⊥
IsGone Stage.durable = ⊥
IsGone Stage.dropped = Unit {0}

-- What a state says of `cancel_sent`, `credit_reserved`, `stream_reserved` and the transaction.
abbrev pub StateFacts : TransferState → Bool → Bool → Bool → Stage → Type 0
StateFacts TransferState.created sent credit stream stage =
    (sent ≡ false) × (credit ≡ false) × (stage ≡ Stage.absent)
StateFacts TransferState.receiving_manifest sent credit stream stage =
    (sent ≡ false) × (credit ≡ false) × (stage ≡ Stage.absent)
StateFacts TransferState.awaiting_decision sent credit stream stage =
    (sent ≡ false) × (credit ≡ false) × (stage ≡ Stage.absent)
StateFacts TransferState.receiving_file sent credit stream stage =
    (sent ≡ false) × (stage ≡ Stage.underway)
StateFacts TransferState.awaiting_completion sent credit stream stage =
    (sent ≡ false) × (stage ≡ Stage.durable)
StateFacts TransferState.rejecting sent credit stream stage =
    (sent ≡ false) × (credit ≡ false) × IsGone stage
StateFacts TransferState.cancelling sent credit stream stage = IsGone stage
StateFacts TransferState.committed sent credit stream stage =
    (sent ≡ false) × (credit ≡ false) × (stream ≡ false) × (stage ≡ Stage.durable)
StateFacts TransferState.completed sent credit stream stage =
    (sent ≡ false) × (credit ≡ false) × (stream ≡ false) × (stage ≡ Stage.durable)
StateFacts TransferState.cancelled sent credit stream stage =
    (credit ≡ false) × (stream ≡ false) × IsGone stage
StateFacts TransferState.rejected sent credit stream stage =
    (credit ≡ false) × (stream ≡ false) × IsGone stage
StateFacts TransferState.failed sent credit stream stage =
    (credit ≡ false) × (stream ≡ false) × IsGone stage
StateFacts _ sent credit stream stage = ⊥

pub durable-sent :
    (state : TransferState) (sent credit stream : Bool) (stage : Stage)
    → stage ≡ Stage.durable
    → StateFacts state sent credit stream stage
    → sent ≡ false
durable-sent state sent credit stream stage h f = ground arith

module _ (o : Outside) where
  abbrev pub FactsOf : Endpoint o → Type 0
  FactsOf e =
      StateFacts e.receiver.state e.receiver.cancel_sent e.receiver.credit_reserved
        e.receiver.stream_reserved (stage_of e.receiver.transaction)

  pub is_durable-stage :
      (tx : Option (ReceiveTransaction o.integrity.Digest))
      → is_durable o tx ≡ true
      → stage_of tx ≡ Stage.durable
  is_durable-stage none h = ground arith
  is_durable-stage (some tx) h = ground arith

  pub durable-stage :
      (tx : Option (ReceiveTransaction o.integrity.Digest))
      → stage_of tx ≡ Stage.durable
      → is_durable o tx ≡ true
  durable-stage none h = ground arith
  durable-stage (some tx) h = ground arith

  -- A method on the transaction.
  fail-error :
      (e : TransactionError) (p : PlatformError) (s : Sys o.platform o.integrity)
      → is_success e ≡ false
      → is_success (fail_and_cleanup o.platform o.integrity e p s).1.error ≡ false
  unfolding fail_and_cleanup finish_cleanup release_reservation
  fail-error e p s h = ground arith

  fail-stage :
      (e : TransactionError) (p : PlatformError) (s : Sys o.platform o.integrity)
      → IsGone (stage_of (some (fail_and_cleanup o.platform o.integrity e p s).0.tx))
  unfolding fail_and_cleanup finish_cleanup release_reservation
  fail-stage e p s = ground arith

  platform_error-failure :
      (p : PlatformError) (e : TransactionError)
      → is_success e ≡ false
      → is_success (error_for_platform p e) ≡ false
  unfolding error_for_platform
  platform_error-failure p e h = ground arith

  begin_created-receiving :
      (c : PlatformError) (h : ℕ) (s : Sys o.platform o.integrity)
      → is_success (begin_created o.platform o.integrity c h s).1.error ≡ true
      → (begin_created o.platform o.integrity c h s).0.tx.state ≡ TransactionState.receiving
  unfolding begin_created
  begin_created-receiving c h s good = grind (arith, fail-error, platform_error-failure)

  pub begin-receiving :
      (s : Sys o.platform o.integrity)
      → is_success (begin o.platform o.integrity s).1.error ≡ true
      → (begin o.platform o.integrity s).0.tx.state ≡ TransactionState.receiving
  unfolding begin begin_budgeted begin_reserved
  begin-receiving s good = grind (arith, begin_created-receiving)

  pub write-receiving :
      (bytes : List ℕ) (s : Sys o.platform o.integrity)
      → is_success (write o.platform o.integrity bytes s).1.error ≡ true
      → (write o.platform o.integrity bytes s).0.tx.state ≡ TransactionState.receiving
  unfolding write write_data write_verified
  write-receiving bytes s good = grind (arith, fail-error, platform_error-failure)

  pub seal_and_commit-committed :
      (s : Sys o.platform o.integrity)
      → is_success (seal_and_commit o.platform o.integrity s).1.error ≡ true
      → (seal_and_commit o.platform o.integrity s).0.tx.state ≡ TransactionState.committed
  unfolding seal_and_commit seal_verifier commit_sealed commit_finished
  seal_and_commit-committed s good = grind (arith, fail-error, platform_error-failure)

  pub abort-IsGone :
      (s : Sys o.platform o.integrity)
      → is_durable o (some s.tx) ≡ false
      → IsGone (stage_of (some (abort o.platform o.integrity s).0.tx))
  unfolding abort
  abort-IsGone s h = grind (arith, fail-stage)

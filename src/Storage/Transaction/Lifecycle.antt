-- ===== src/Storage/Transaction/Lifecycle.antt =====
-- The states of a receive transaction: what each one says of the other members, and that every
-- method keeps it so.
use file_sender_byte_spark.Prelude.{
  ℕ, ◌+◌, ◌≤◌, ◌<◌, ◌≡◌, ◌≢◌, true, false, List, length, arith, u64_mod,
}
use file_sender_byte_spark.Storage.Types.{
  PlatformError, PlatformCommitDisposition, PlatformBackend, StreamingIntegrityVerifier,
  TransactionState, TransactionError,
}
use file_sender_byte_spark.Storage.Budget.{try_reserve}
use file_sender_byte_spark.Storage.Cleanup.{
  ReceiveTransaction, Sys, release_reservation, finish_cleanup, fail_and_cleanup,
}
use file_sender_byte_spark.Storage.Transaction.{
  begin_created, begin_reserved, begin_budgeted, begin, write_verified, write_data, write,
  commit_finished, commit_sealed, seal_verifier, seal_and_commit, abort,
}

-- No bytes are reserved for the transaction, and it holds no temporary file.
pub record IsClosed {D : Type 0} (tx : ReceiveTransaction D) : Type 0 where
  pub released : tx.reservation_held ≡ false
  pub closed : tx.temporary_open ≡ false

pub record IsReceiving {D : Type 0} (tx : ReceiveTransaction D) : Type 0 where
  pub reserved : tx.reservation_held ≡ true
  pub opened : tx.temporary_open ≡ true
  pub has_handle : tx.temporary ≢ 0
  pub within : tx.received_bytes ≤ tx.request.declared_size

abbrev pub StateFacts : {D : Type 0} → TransactionState → ReceiveTransaction D → Type 0
StateFacts TransactionState.created tx = IsClosed tx × (tx.received_bytes ≡ 0)
StateFacts TransactionState.receiving tx = IsReceiving tx
StateFacts TransactionState.committed tx =
    IsClosed tx × (tx.received_bytes ≡ tx.request.declared_size)
StateFacts TransactionState.aborted tx = IsClosed tx
StateFacts TransactionState.cleanup_unresolved tx = IsClosed tx
StateFacts TransactionState.outcome_uncertain tx = IsClosed tx

abbrev pub IsValid : {D : Type 0} → ReceiveTransaction D → Type 0
IsValid tx = (tx.request.declared_size < u64_mod) × StateFacts tx.state tx

module _ (platform : PlatformBackend) (integrity : StreamingIntegrityVerifier) where
  abbrev S : Type 0
  S = Sys platform integrity

  fail-IsValid :
      (e : TransactionError) (p : PlatformError) (s : S)
      → s.tx.request.declared_size < u64_mod
      → IsValid (fail_and_cleanup platform integrity e p s).0.tx
  unfolding fail_and_cleanup finish_cleanup release_reservation
  fail-IsValid e p s h = ground arith

  begin_created-IsValid :
      (c : PlatformError) (h : ℕ) (s : S)
      → s.tx.request.declared_size < u64_mod
      → s.tx.reservation_held ≡ true
      → s.tx.received_bytes ≡ 0
      → s.tx.temporary_open ≡ false
      → IsValid (begin_created platform integrity c h s).0.tx
  unfolding begin_created release_reservation
  begin_created-IsValid c h s fits held none_yet closed = grind (arith, fail-IsValid)

  pub begin-IsValid : (s : S) → IsValid s.tx → IsValid (begin platform integrity s).0.tx
  unfolding begin begin_budgeted begin_reserved try_reserve
  begin-IsValid s v = grind (arith, begin_created-IsValid)

  write_verified-IsValid :
      (bytes : List ℕ) (s : S)
      → IsValid s.tx
      → s.tx.state ≡ TransactionState.receiving
      → length bytes + s.tx.received_bytes ≤ s.tx.request.declared_size
      → IsValid (write_verified platform integrity bytes s).0.tx
  unfolding write_verified
  write_verified-IsValid bytes s v r fits = grind (arith, fail-IsValid)

  pub write-IsValid :
      (bytes : List ℕ) (s : S) → IsValid s.tx → IsValid (write platform integrity bytes s).0.tx
  unfolding write write_data
  write-IsValid bytes s v = grind (arith, fail-IsValid, write_verified-IsValid)

  commit_finished-IsValid :
      (d : PlatformCommitDisposition) (e : PlatformError) (s : S)
      → IsValid s.tx
      → s.tx.received_bytes ≡ s.tx.request.declared_size
      → IsValid (commit_finished platform integrity d e s).0.tx
  unfolding commit_finished release_reservation
  commit_finished-IsValid d e s v all = grind (arith, fail-IsValid)

  seal_verifier-IsValid :
      (s : S)
      → IsValid s.tx
      → s.tx.received_bytes ≡ s.tx.request.declared_size
      → IsValid (seal_verifier platform integrity s).0.tx
  unfolding seal_verifier commit_sealed
  seal_verifier-IsValid s v all = grind (arith, fail-IsValid, commit_finished-IsValid)

  pub seal_and_commit-IsValid :
      (s : S) → IsValid s.tx → IsValid (seal_and_commit platform integrity s).0.tx
  unfolding seal_and_commit
  seal_and_commit-IsValid s v = grind (arith, fail-IsValid, seal_verifier-IsValid)

  pub abort-IsValid : (s : S) → IsValid s.tx → IsValid (abort platform integrity s).0.tx
  unfolding abort
  abort-IsValid s v = grind (arith, fail-IsValid)

  -- No method changes the request.
  fail-request :
      (e : TransactionError) (p : PlatformError) (s : S)
      → (fail_and_cleanup platform integrity e p s).0.tx.request ≡ s.tx.request
  unfolding fail_and_cleanup finish_cleanup release_reservation
  fail-request e p s = ground arith

  begin_created-request :
      (c : PlatformError) (h : ℕ) (s : S)
      → (begin_created platform integrity c h s).0.tx.request ≡ s.tx.request
  unfolding begin_created release_reservation
  begin_created-request c h s = grind (arith, fail-request)

  pub begin-request : (s : S) → (begin platform integrity s).0.tx.request ≡ s.tx.request
  unfolding begin begin_budgeted begin_reserved try_reserve
  begin-request s = grind (arith, begin_created-request)

  pub write-request :
      (bytes : List ℕ) (s : S) → (write platform integrity bytes s).0.tx.request ≡ s.tx.request
  unfolding write write_data write_verified
  write-request bytes s = grind (arith, fail-request)

  commit_finished-request :
      (d : PlatformCommitDisposition) (e : PlatformError) (s : S)
      → (commit_finished platform integrity d e s).0.tx.request ≡ s.tx.request
  unfolding commit_finished release_reservation
  commit_finished-request d e s = grind (arith, fail-request)

  pub seal_and_commit-request :
      (s : S) → (seal_and_commit platform integrity s).0.tx.request ≡ s.tx.request
  unfolding seal_and_commit seal_verifier commit_sealed
  seal_and_commit-request s = grind (arith, fail-request, commit_finished-request)

  pub abort-request : (s : S) → (abort platform integrity s).0.tx.request ≡ s.tx.request
  unfolding abort
  abort-request s = grind (arith, fail-request)

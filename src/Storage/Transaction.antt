-- ===== src/Storage/Transaction.antt =====
-- `ReceiveTransaction` of native/src/storage/receive_transaction.cpp: `Begin`, `Write`,
-- `SealAndCommit` and `Abort`. Each method holds the transaction's mutex to its end, so a call is
-- one step on the transaction, the shared budget and the file system.
pub mod Lifecycle
pub mod Calls
pub mod Integrity
pub mod Commit
pub mod Charge
use file_sender_byte_spark.Prelude.{
  ℕ, ◌≡◌, Bool, true, false, ◌||◌, not, Option, none, some, List, length, if◌then◌else◌, ltb, ◌==◌,
  ◌!=◌, add64, sub64,
}
use file_sender_byte_spark.Storage.Types.{
  PlatformError, platform_ok, PlatformWriteResult, PlatformCommitResult, PlatformCommitDisposition,
  ValidatedReceiveRequest, PlatformBackend, StreamingIntegrityVerifier, TransactionState,
  TransactionError, TransactionResult,
}
use file_sender_byte_spark.Storage.Budget.{TemporaryBudget, try_reserve, release, mark_unresolved}
use file_sender_byte_spark.Storage.Cleanup.{
  ReceiveTransaction, System, failed, failed_by, error_for_platform, release_reservation,
  close_temporary, finish, keep_unresolved, Sys, fail_and_cleanup,
}

module _ (platform : PlatformBackend) (integrity : StreamingIntegrityVerifier) where
  open platform use {World, create_temporary, write_temporary, flush_temporary, commit_temporary}
  open integrity use {update, seal}

  abbrev S : Type 0
  S = Sys platform integrity

  abbrev fail : TransactionError → PlatformError → S → S × TransactionResult
  fail = fail_and_cleanup platform integrity

  -- The part of `Begin` behind a granted reservation: the platform made `handle`, or did not.
  unfoldable pub begin_created : PlatformError → ℕ → S → S × TransactionResult
  begin_created created handle s =
      if not (platform_ok created) || handle == 0
      then (let platform_error =
            if platform_ok created then PlatformError.io_failure else created in
          if handle != 0
          then fail (error_for_platform platform_error TransactionError.open_failed) platform_error
              (record s { tx = record (s.tx) { temporary = handle; temporary_open = true } })
          else finish TransactionState.aborted
              (failed_by (error_for_platform platform_error TransactionError.open_failed)
                platform_error)
              (release_reservation s))
      else (
        record s {
          tx = record (s.tx) {
            temporary = handle;
            temporary_open = true;
            state = TransactionState.receiving;
          };
        },
        failed TransactionError.none,
      )

  unfoldable pub begin_reserved : S → S × TransactionResult
  begin_reserved s =
      let (w, created, handle) =
        create_temporary s.world s.tx.request.path s.tx.request.declared_size in
      begin_created created handle
        (record s { world = w; tx = record (s.tx) { reservation_held = true } })

  unfoldable pub begin_budgeted : S → S × TransactionResult
  begin_budgeted s =
      let (b, reserved) = try_reserve s.budget s.tx.request.declared_size in
      if reserved
      then begin_reserved (record s { budget = b })
      else finish TransactionState.aborted (failed TransactionError.temporary_budget_exceeded)
          (record s { budget = b })

  unfoldable pub begin : S → S × TransactionResult
  begin s = elim s.tx.state [
    | TransactionState.created ↦ elim s.tx.verifier [
      | none ↦ finish TransactionState.aborted (failed TransactionError.invalid_state) s
      | some _ ↦
          if s.tx.has_budget
          then begin_budgeted s
          else finish TransactionState.aborted (failed TransactionError.invalid_state) s
    ]
    | _ ↦ (s, failed TransactionError.invalid_state)
  ]

  -- A successful platform write is shown to the verifier, and counted when it agrees. The
  -- verifier is set whenever the state is `receiving`.
  unfoldable pub write_verified : List ℕ → S → S × TransactionResult
  write_verified bytes s = elim s.tx.verifier [
    | none ↦ fail TransactionError.integrity_failed PlatformError.ok s
    | some digest ↦
        let (digest', agreed) = update digest bytes in
        let s' : S = record s { tx = record (s.tx) { verifier = some digest' } } in
        if agreed
        then (
          record s' {
            tx = record (s'.tx) { received_bytes = add64 s'.tx.received_bytes (length bytes) };
          },
          failed TransactionError.none,
        )
        else fail TransactionError.integrity_failed PlatformError.ok s'
  ]

  unfoldable pub write_data : List ℕ → S → S × TransactionResult
  write_data bytes s =
      let (w, written) = write_temporary s.world s.tx.temporary bytes in
      let s' : S = record s { world = w } in
      if not (platform_ok written.error) || written.bytes_written != length bytes
      then fail (error_for_platform written.error TransactionError.write_failed) written.error s'
      else write_verified bytes s'

  unfoldable pub write : List ℕ → S → S × TransactionResult
  write bytes s = elim s.tx.state [
    | TransactionState.receiving ↦
        if ltb (sub64 s.tx.request.declared_size s.tx.received_bytes) (length bytes)
        then fail TransactionError.data_too_large PlatformError.ok s
        else if length bytes == 0
        then (s, failed TransactionError.none)
        else write_data bytes s
    | _ ↦ (s, failed TransactionError.invalid_state)
  ]

  unfoldable pub commit_finished :
      PlatformCommitDisposition → PlatformError → S → S × TransactionResult
  commit_finished PlatformCommitDisposition.committed error s =
      finish TransactionState.committed (failed TransactionError.none)
        (release_reservation (close_temporary s))
  commit_finished PlatformCommitDisposition.outcome_uncertain error s =
      finish TransactionState.outcome_uncertain (failed_by TransactionError.outcome_uncertain error)
        (keep_unresolved (close_temporary s))
  commit_finished PlatformCommitDisposition.not_committed error s =
      fail (error_for_platform error TransactionError.commit_failed) error s

  unfoldable pub commit_sealed : S → S × TransactionResult
  commit_sealed s =
      let (w, flushed) = flush_temporary s.world s.tx.temporary in
      let s' : S = record s { world = w } in
      if platform_ok flushed
      then (let (w', result) = commit_temporary w s'.tx.temporary s'.tx.request.path in
          commit_finished result.disposition result.error (record s' { world = w' }))
      else fail (error_for_platform flushed TransactionError.flush_failed) flushed s'

  unfoldable pub seal_verifier : S → S × TransactionResult
  seal_verifier s = elim s.tx.verifier [
    | none ↦ fail TransactionError.integrity_failed PlatformError.ok s
    | some digest ↦
        let (digest', sealed) = seal digest in
        let s' : S = record s { tx = record (s.tx) { verifier = some digest' } } in
        if sealed
        then commit_sealed s'
        else fail TransactionError.integrity_failed PlatformError.ok s'
  ]

  unfoldable pub seal_and_commit : S → S × TransactionResult
  seal_and_commit s = elim s.tx.state [
    | TransactionState.receiving ↦
        if s.tx.received_bytes == s.tx.request.declared_size
        then seal_verifier s
        else fail TransactionError.data_too_short PlatformError.ok s
    | _ ↦ (s, failed TransactionError.invalid_state)
  ]

  -- `Abort`, which the destructor calls too.
  unfoldable pub abort : S → S × TransactionResult
  abort s = elim s.tx.state [
    | TransactionState.created ↦ finish TransactionState.aborted (failed TransactionError.none) s
    | TransactionState.receiving ↦ fail TransactionError.none PlatformError.ok s
    | TransactionState.committed ↦ (s, failed TransactionError.invalid_state)
    | _ ↦ (s, s.tx.terminal_result)
  ]

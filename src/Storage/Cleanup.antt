-- ===== src/Storage/Cleanup.antt =====
-- The state of `ReceiveTransaction` (native/src/storage/receive_transaction.cpp) and its private
-- methods `FailAndCleanup` and `ReleaseReservation`.
use file_sender_byte_spark.Prelude.{ℕ, Bool, true, false, Option, if◌then◌else◌}
use file_sender_byte_spark.Storage.Types.{
  PlatformError, platform_ok, ValidatedReceiveRequest, PlatformBackend, StreamingIntegrityVerifier,
  TransactionState, TransactionError, TransactionResult,
}
use file_sender_byte_spark.Storage.Budget.{TemporaryBudget, release, mark_unresolved}

-- The members of `ReceiveTransaction`. `has_budget` says whether `temporary_budget_` is set; the
-- budget that it points to is shared, and stands in `System`.
pub record ReceiveTransaction (Digest : Type 0) : Type 0 where
  pub request : ValidatedReceiveRequest
  pub has_budget : Bool
  pub verifier : Option Digest
  pub temporary : ℕ
  pub state : TransactionState
  pub received_bytes : ℕ
  pub reservation_held : Bool
  pub temporary_open : Bool
  pub terminal_result : TransactionResult

-- What a call reads and writes.
pub record System (Digest World : Type 0) : Type 0 where
  pub tx : ReceiveTransaction Digest
  pub budget : TemporaryBudget
  pub world : World

-- `{.error = error}`, and `{.error = error, .platform_error = platform_error}`.
abbrev pub failed : TransactionError → TransactionResult
failed error = record {
  error = error;
  platform_error = PlatformError.ok;
  cleanup_error = PlatformError.ok;
  is_cleanup_unresolved = false;
}

abbrev pub failed_by : TransactionError → PlatformError → TransactionResult
failed_by error platform = record {
  error = error;
  platform_error = platform;
  cleanup_error = PlatformError.ok;
  is_cleanup_unresolved = false;
}

unfoldable pub error_for_platform : PlatformError → TransactionError → TransactionError
error_for_platform PlatformError.no_space fallback = TransactionError.no_space
error_for_platform _ fallback = fallback

abbrev pub or_cleanup_unresolved : TransactionError → TransactionError
or_cleanup_unresolved TransactionError.none = TransactionError.cleanup_unresolved
or_cleanup_unresolved error = error

-- The constructor, with the members' initial values.
unfoldable pub create_transaction :
    {Digest : Type 0} → ValidatedReceiveRequest → Bool → Option Digest → ReceiveTransaction Digest
create_transaction request has_budget verifier = record {
  request = request;
  has_budget = has_budget;
  verifier = verifier;
  temporary = 0;
  state = TransactionState.created;
  received_bytes = 0;
  reservation_held = false;
  temporary_open = false;
  terminal_result = failed TransactionError.none;
}

module _ {Digest World : Type 0} where
  unfoldable pub release_reservation : System Digest World → System Digest World
  release_reservation s =
      if s.tx.reservation_held
      then record s {
        tx = record (s.tx) { reservation_held = false };
        budget = release s.budget s.tx.request.declared_size;
      }
      else s

  -- `temporary_open_ = false; temporary_ = {};`
  abbrev pub close_temporary : System Digest World → System Digest World
  close_temporary s = record s { tx = record (s.tx) { temporary_open = false; temporary = 0 } }

  -- `state_ = state; terminal_result_ = result; return terminal_result_;`
  abbrev pub finish :
      TransactionState
      → TransactionResult
      → System Digest World
      → System Digest World × TransactionResult
  finish state result s =
      (record s { tx = record (s.tx) { state = state; terminal_result = result } }, result)

  -- The budget keeps the bytes of a file that may still be on disk.
  abbrev pub keep_unresolved : System Digest World → System Digest World
  keep_unresolved s = record s {
    tx = record (s.tx) { reservation_held = false };
    budget = mark_unresolved s.budget s.tx.request.declared_size;
  }

  unfoldable pub finish_cleanup :
      TransactionError
      → PlatformError
      → PlatformError
      → System Digest World
      → System Digest World × TransactionResult
  finish_cleanup error platform cleanup s =
      if platform_ok cleanup
      then finish TransactionState.aborted (failed_by error platform)
          (release_reservation (close_temporary s))
      else finish TransactionState.cleanup_unresolved
          (record {
            error = or_cleanup_unresolved error;
            platform_error = platform;
            cleanup_error = cleanup;
            is_cleanup_unresolved = true;
          })
          (keep_unresolved (close_temporary s))

module _ (platform : PlatformBackend) (integrity : StreamingIntegrityVerifier) where
  open platform use {
    World, create_temporary, write_temporary, flush_temporary, commit_temporary, cleanup_temporary,
  }
  open integrity use {Digest, update, seal}

  abbrev pub Sys : Type 0
  Sys = System Digest World

  unfoldable pub fail_and_cleanup : TransactionError → PlatformError → Sys → Sys × TransactionResult
  fail_and_cleanup error platform_error s =
      if s.tx.temporary_open
      then (let (w, cleanup) = cleanup_temporary s.world s.tx.temporary in
          finish_cleanup error platform_error cleanup (record s { world = w }))
      else finish TransactionState.aborted (failed_by error platform_error) (release_reservation s)

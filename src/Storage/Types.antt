-- ===== src/Storage/Types.antt =====
-- The result types and interfaces of native/include/xnn_transfer/core/storage/storage.hpp.
use file_sender_byte_spark.Prelude.{ℕ, Bool, true, false, List}

pub data PlatformError : Type 0 where
  ok no_space permission_denied destination_exists invalid_root busy unsupported io_failure :
      PlatformError

abbrev pub platform_ok : PlatformError → Bool
platform_ok PlatformError.ok = true
platform_ok _ = false

pub record PlatformWriteResult : Type 0 where
  pub error : PlatformError
  pub bytes_written : ℕ

pub data PlatformCommitDisposition : Type 0 where
  committed not_committed outcome_uncertain : PlatformCommitDisposition

pub record PlatformCommitResult : Type 0 where
  pub disposition : PlatformCommitDisposition
  pub error : PlatformError

-- A path that `validate_receive_path` accepted: its bytes and its components.
pub record ValidatedReceivePath : Type 0 where
  pub utf8 : List ℕ
  pub components : List (List ℕ)

pub record ValidatedReceiveRequest : Type 0 where
  pub path : ValidatedReceivePath
  pub declared_size : ℕ

-- The abstract class `PlatformBackend`: what each call does to the file system, `World`, and what
-- it answers. A handle is its number, 0 for none.
pub record PlatformBackend : Type 1 where
  pub World : Type 0
  pub create_temporary : World → ValidatedReceivePath → ℕ → World × PlatformError × ℕ
  pub write_temporary : World → ℕ → List ℕ → World × PlatformWriteResult
  pub flush_temporary : World → ℕ → World × PlatformError
  pub commit_temporary : World → ℕ → ValidatedReceivePath → World × PlatformCommitResult
  pub cleanup_temporary : World → ℕ → World × PlatformError

-- The abstract class `StreamingIntegrityVerifier`.
pub record StreamingIntegrityVerifier : Type 1 where
  pub Digest : Type 0
  pub update : Digest → List ℕ → Digest × Bool
  pub seal : Digest → Digest × Bool

pub data TransactionState : Type 0 where
  created receiving committed aborted cleanup_unresolved outcome_uncertain : TransactionState

pub data TransactionError : Type 0 where
  none invalid_state temporary_budget_exceeded no_space open_failed data_too_large data_too_short
        write_failed integrity_failed flush_failed commit_failed cleanup_unresolved
        outcome_uncertain :
      TransactionError

pub record TransactionResult : Type 0 where
  pub error : TransactionError
  pub platform_error : PlatformError
  pub cleanup_error : PlatformError
  pub is_cleanup_unresolved : Bool

pub data ValidationError : Type 0 where
  none path_empty path_bytes_limit invalid_utf8 path_not_nfc path_absolute path_unc
        path_drive_absolute path_drive_qualified path_backslash path_colon_or_ads
        path_trailing_separator path_nul path_c0_control path_c1_control path_noncharacter
        path_empty_component path_dot_component path_traversal path_reserved_component
        path_component_count_limit path_component_bytes_limit declared_size_limit :
      ValidationError

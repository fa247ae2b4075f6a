-- ===== src/Transfer/Types.antt =====
-- The types, limits and error tables of a transfer:
-- native/include/xnn_transfer/core/transfer/transfer.hpp, and the helpers of
-- native/src/transfer/frame_codec.cpp that only compute.
use file_sender_byte_spark.Prelude.{ℕ, Bool, true, false, Option, List, []}
use file_sender_byte_spark.Protocol.Types.{Version}
use file_sender_byte_spark.Transfer.Credit.{Role}

abbrev pub minimum_chunk_size : ℕ
minimum_chunk_size = 4096

abbrev pub maximum_chunk_size : ℕ
maximum_chunk_size = 1048000

abbrev pub maximum_transfer_window : ℕ
maximum_transfer_window = 16777216

abbrev pub manifest_progress_timeout_ms : ℕ
manifest_progress_timeout_ms = 30000

abbrev pub manifest_timeout_ms : ℕ
manifest_timeout_ms = 300000

abbrev pub decision_timeout_ms : ℕ
decision_timeout_ms = 300000

abbrev pub data_progress_timeout_ms : ℕ
data_progress_timeout_ms = 60000

abbrev pub cancel_acknowledgement_timeout_ms : ℕ
cancel_acknowledgement_timeout_ms = 10000

pub data TransferState : Type 0 where
  created sending_manifest receiving_manifest awaiting_decision sending_file receiving_file
        rejecting awaiting_file_commit awaiting_completion completing cancelling committed completed
        cancelled rejected failed :
      TransferState

pub data TransferError : Type 0 where
  none invalid_argument unauthenticated malformed_frame malformed_message state_violation
        message_id_violation limit_exceeded invalid_offer invalid_manifest policy_rejected no_space
        busy io_failure integrity_failed timeout cancelled idempotency_conflict source_failure
        internal_failure :
      TransferError

pub data WireErrorCode : Type 0 where
  none malformed_frame frame_too_large malformed_message unsupported_version downgrade_detected
        unsupported_capability unsupported_message unknown_critical_field state_violation
        message_id_violation limit_exceeded timeout invalid_offer invalid_manifest policy_rejected
        no_space busy io_failure integrity_failed cancelled resume_unavailable expired
        idempotency_conflict completed :
      WireErrorCode

pub record TransferLimits : Type 0 where
  pub maximum_body : ℕ
  pub maximum_in_flight : ℕ
  pub maximum_active_streams : ℕ
  pub preferred_chunk_size : ℕ
  pub preferred_initial_window : ℕ

-- The session authority of a context is outside; what it answers is an input of each call.
pub record TransferContext : Type 0 where
  pub local_role : Role
  pub version : Version
  pub stream_id : ℕ
  pub limits : TransferLimits

pub record OneFileManifest : Type 0 where
  pub transfer_id : List ℕ
  pub relative_path : List ℕ
  pub file_size : ℕ
  pub file_commitment : List ℕ
  pub manifest_commitment : List ℕ
  pub display_name : List ℕ

pub record IncomingOffer : Type 0 where
  pub transfer_id : List ℕ
  pub relative_path : List ℕ
  pub file_size : ℕ
  pub display_name : List ℕ

pub record TransferUpdate : Type 0 where
  pub state : TransferState
  pub error : TransferError
  pub wire_error : WireErrorCode
  pub outbound_frame : List ℕ
  pub offer : Option IncomingOffer
  pub terminal : Bool
  pub connection_fatal : Bool
  pub retryable : Bool

abbrev pub no_error : TransferError → Bool
no_error TransferError.none = true
no_error _ = false

abbrev pub no_wire_error : WireErrorCode → Bool
no_wire_error WireErrorCode.none = true
no_wire_error _ = false

abbrev pub is_terminal : TransferState → Bool
is_terminal TransferState.committed = true
is_terminal TransferState.completed = true
is_terminal TransferState.cancelled = true
is_terminal TransferState.rejected = true
is_terminal TransferState.failed = true
is_terminal _ = false

abbrev pub failure_update : TransferState → TransferError → WireErrorCode → Bool → TransferUpdate
failure_update state error wire_error connection_fatal = record {
  state = state;
  error = error;
  wire_error = wire_error;
  outbound_frame = [];
  offer = Option.none;
  terminal = is_terminal state;
  connection_fatal = connection_fatal;
  retryable = false;
}

-- ===== src/Transfer/Errors.antt =====
-- The error tables of native/src/transfer/frame_codec.cpp.
use file_sender_byte_spark.Prelude.{ℕ, ◌%◌, Bool, true, false, Option, ◌==◌, if◌then◌else◌, u16_mod}
use file_sender_byte_spark.Protocol.Types.{ErrorCode}
use file_sender_byte_spark.Transfer.Types.{TransferError, WireErrorCode}

-- The value of each constant.
abbrev pub wire_error_value : WireErrorCode → ℕ
wire_error_value WireErrorCode.none = 0
wire_error_value WireErrorCode.malformed_frame = 0x0001
wire_error_value WireErrorCode.frame_too_large = 0x0002
wire_error_value WireErrorCode.malformed_message = 0x0003
wire_error_value WireErrorCode.unsupported_version = 0x0004
wire_error_value WireErrorCode.downgrade_detected = 0x0005
wire_error_value WireErrorCode.unsupported_capability = 0x0006
wire_error_value WireErrorCode.unsupported_message = 0x0007
wire_error_value WireErrorCode.unknown_critical_field = 0x0008
wire_error_value WireErrorCode.state_violation = 0x0009
wire_error_value WireErrorCode.message_id_violation = 0x000a
wire_error_value WireErrorCode.limit_exceeded = 0x000b
wire_error_value WireErrorCode.timeout = 0x000c
wire_error_value WireErrorCode.invalid_offer = 0x0100
wire_error_value WireErrorCode.invalid_manifest = 0x0101
wire_error_value WireErrorCode.policy_rejected = 0x0102
wire_error_value WireErrorCode.no_space = 0x0103
wire_error_value WireErrorCode.busy = 0x0104
wire_error_value WireErrorCode.io_failure = 0x0105
wire_error_value WireErrorCode.integrity_failed = 0x0106
wire_error_value WireErrorCode.cancelled = 0x0107
wire_error_value WireErrorCode.resume_unavailable = 0x0108
wire_error_value WireErrorCode.expired = 0x0109
wire_error_value WireErrorCode.idempotency_conflict = 0x010a
wire_error_value WireErrorCode.completed = 0x010b

-- The cast of a 16-bit value, where it is one of the constants but `none`.
unfoldable pub wire_error_of : ℕ → Option WireErrorCode
wire_error_of n =
    if n == 0x0001
    then Option.some WireErrorCode.malformed_frame
    else if n == 0x0002
    then Option.some WireErrorCode.frame_too_large
    else if n == 0x0003
    then Option.some WireErrorCode.malformed_message
    else if n == 0x0004
    then Option.some WireErrorCode.unsupported_version
    else if n == 0x0005
    then Option.some WireErrorCode.downgrade_detected
    else if n == 0x0006
    then Option.some WireErrorCode.unsupported_capability
    else if n == 0x0007
    then Option.some WireErrorCode.unsupported_message
    else if n == 0x0008
    then Option.some WireErrorCode.unknown_critical_field
    else if n == 0x0009
    then Option.some WireErrorCode.state_violation
    else if n == 0x000a
    then Option.some WireErrorCode.message_id_violation
    else if n == 0x000b
    then Option.some WireErrorCode.limit_exceeded
    else if n == 0x000c
    then Option.some WireErrorCode.timeout
    else if n == 0x0100
    then Option.some WireErrorCode.invalid_offer
    else if n == 0x0101
    then Option.some WireErrorCode.invalid_manifest
    else if n == 0x0102
    then Option.some WireErrorCode.policy_rejected
    else if n == 0x0103
    then Option.some WireErrorCode.no_space
    else if n == 0x0104
    then Option.some WireErrorCode.busy
    else if n == 0x0105
    then Option.some WireErrorCode.io_failure
    else if n == 0x0106
    then Option.some WireErrorCode.integrity_failed
    else if n == 0x0107
    then Option.some WireErrorCode.cancelled
    else if n == 0x0108
    then Option.some WireErrorCode.resume_unavailable
    else if n == 0x0109
    then Option.some WireErrorCode.expired
    else if n == 0x010a
    then Option.some WireErrorCode.idempotency_conflict
    else if n == 0x010b
    then Option.some WireErrorCode.completed
    else Option.none

unfoldable pub decode_wire_error : ℕ → Option WireErrorCode
decode_wire_error encoded = wire_error_of (encoded % u16_mod)

unfoldable pub transfer_error_for_protocol : ErrorCode → TransferError
transfer_error_for_protocol ErrorCode.none = TransferError.none
transfer_error_for_protocol ErrorCode.malformed_message = TransferError.malformed_message
transfer_error_for_protocol ErrorCode.unknown_critical_field = TransferError.malformed_message
transfer_error_for_protocol ErrorCode.state_violation = TransferError.state_violation
transfer_error_for_protocol ErrorCode.message_id_violation = TransferError.message_id_violation
transfer_error_for_protocol ErrorCode.limit_exceeded = TransferError.limit_exceeded
transfer_error_for_protocol _ = TransferError.malformed_frame

unfoldable pub protocol_error_is_connection_fatal : ErrorCode → ℕ → Bool
protocol_error_is_connection_fatal ErrorCode.none stream_id = false
protocol_error_is_connection_fatal ErrorCode.malformed_message stream_id = false
protocol_error_is_connection_fatal ErrorCode.unknown_critical_field stream_id = false
protocol_error_is_connection_fatal ErrorCode.limit_exceeded stream_id = false
protocol_error_is_connection_fatal ErrorCode.state_violation stream_id = stream_id == 0
protocol_error_is_connection_fatal _ stream_id = true

-- The cast of an error code of the protocol: both enumerations have the same values.
unfoldable pub wire_error_for_protocol : ErrorCode → WireErrorCode
wire_error_for_protocol ErrorCode.none = WireErrorCode.none
wire_error_for_protocol ErrorCode.malformed_frame = WireErrorCode.malformed_frame
wire_error_for_protocol ErrorCode.frame_too_large = WireErrorCode.frame_too_large
wire_error_for_protocol ErrorCode.malformed_message = WireErrorCode.malformed_message
wire_error_for_protocol ErrorCode.unsupported_version = WireErrorCode.unsupported_version
wire_error_for_protocol ErrorCode.downgrade_detected = WireErrorCode.downgrade_detected
wire_error_for_protocol ErrorCode.unsupported_capability = WireErrorCode.unsupported_capability
wire_error_for_protocol ErrorCode.unsupported_message = WireErrorCode.unsupported_message
wire_error_for_protocol ErrorCode.unknown_critical_field = WireErrorCode.unknown_critical_field
wire_error_for_protocol ErrorCode.state_violation = WireErrorCode.state_violation
wire_error_for_protocol ErrorCode.message_id_violation = WireErrorCode.message_id_violation
wire_error_for_protocol ErrorCode.limit_exceeded = WireErrorCode.limit_exceeded

unfoldable pub transfer_error_for_wire : WireErrorCode → TransferError
transfer_error_for_wire WireErrorCode.none = TransferError.none
transfer_error_for_wire WireErrorCode.completed = TransferError.none
transfer_error_for_wire WireErrorCode.malformed_message = TransferError.malformed_message
transfer_error_for_wire WireErrorCode.unknown_critical_field = TransferError.malformed_message
transfer_error_for_wire WireErrorCode.state_violation = TransferError.state_violation
transfer_error_for_wire WireErrorCode.message_id_violation = TransferError.message_id_violation
transfer_error_for_wire WireErrorCode.limit_exceeded = TransferError.limit_exceeded
transfer_error_for_wire WireErrorCode.timeout = TransferError.timeout
transfer_error_for_wire WireErrorCode.invalid_offer = TransferError.invalid_offer
transfer_error_for_wire WireErrorCode.invalid_manifest = TransferError.invalid_manifest
transfer_error_for_wire WireErrorCode.policy_rejected = TransferError.policy_rejected
transfer_error_for_wire WireErrorCode.resume_unavailable = TransferError.policy_rejected
transfer_error_for_wire WireErrorCode.expired = TransferError.policy_rejected
transfer_error_for_wire WireErrorCode.cancelled = TransferError.cancelled
transfer_error_for_wire WireErrorCode.no_space = TransferError.no_space
transfer_error_for_wire WireErrorCode.busy = TransferError.busy
transfer_error_for_wire WireErrorCode.io_failure = TransferError.io_failure
transfer_error_for_wire WireErrorCode.integrity_failed = TransferError.integrity_failed
transfer_error_for_wire WireErrorCode.idempotency_conflict = TransferError.idempotency_conflict
transfer_error_for_wire _ = TransferError.malformed_frame

unfoldable pub wire_error_is_connection_fatal : WireErrorCode → Bool
wire_error_is_connection_fatal WireErrorCode.malformed_frame = true
wire_error_is_connection_fatal WireErrorCode.frame_too_large = true
wire_error_is_connection_fatal WireErrorCode.unsupported_version = true
wire_error_is_connection_fatal WireErrorCode.downgrade_detected = true
wire_error_is_connection_fatal WireErrorCode.unsupported_capability = true
wire_error_is_connection_fatal WireErrorCode.unsupported_message = true
wire_error_is_connection_fatal WireErrorCode.message_id_violation = true
wire_error_is_connection_fatal _ = false

-- The codes of the first switch are among those of the second that give `true`.
unfoldable pub wire_error_is_fatal : WireErrorCode → Bool
wire_error_is_fatal WireErrorCode.none = false
wire_error_is_fatal WireErrorCode.policy_rejected = false
wire_error_is_fatal WireErrorCode.no_space = false
wire_error_is_fatal WireErrorCode.busy = false
wire_error_is_fatal WireErrorCode.io_failure = false
wire_error_is_fatal WireErrorCode.cancelled = false
wire_error_is_fatal WireErrorCode.resume_unavailable = false
wire_error_is_fatal WireErrorCode.expired = false
wire_error_is_fatal WireErrorCode.completed = false
wire_error_is_fatal _ = true

unfoldable pub wire_error_may_retry : WireErrorCode → Bool
wire_error_may_retry WireErrorCode.timeout = true
wire_error_may_retry WireErrorCode.no_space = true
wire_error_may_retry WireErrorCode.busy = true
wire_error_may_retry WireErrorCode.io_failure = true
wire_error_may_retry _ = false

unfoldable pub wire_error_is_reject_reason : WireErrorCode → Bool
wire_error_is_reject_reason WireErrorCode.policy_rejected = true
wire_error_is_reject_reason WireErrorCode.no_space = true
wire_error_is_reject_reason WireErrorCode.busy = true
wire_error_is_reject_reason WireErrorCode.io_failure = true
wire_error_is_reject_reason _ = false

-- ===== src/Transfer/Limits.antt =====
-- The tests of contexts, limits and clocks in native/src/transfer/frame_codec.cpp.
use file_sender_byte_spark.Prelude.{
  ℕ, ◌+◌, ◌-◌, ◌%◌, Bool, ◌&&◌, Option, List, length, all, leb, ltb, ◌==◌, ◌!=◌, if◌then◌else◌,
  u64_max,
}
use file_sender_byte_spark.Protocol.Types.{version_1_0, same_version, max_body_length}
use file_sender_byte_spark.Transfer.Credit.{Role, maximum_connection_window}
use file_sender_byte_spark.Transfer.Types.{
  TransferLimits, TransferContext, minimum_chunk_size, maximum_chunk_size, maximum_transfer_window,
}

unfoldable pub all_zero : List ℕ → Bool
all_zero transfer_id = all (λ b. b == 0) transfer_id

unfoldable pub valid_commitment : List ℕ → Bool
valid_commitment commitment = leb 16 (length commitment) && leb (length commitment) 64

unfoldable pub valid_limits : TransferLimits → Bool
valid_limits l =
    leb 8192 l.maximum_body
    && leb l.maximum_body max_body_length
    && leb 1048576 l.maximum_in_flight
    && leb l.maximum_in_flight maximum_connection_window
    && l.maximum_active_streams != 0
    && leb l.maximum_active_streams 32
    && leb minimum_chunk_size l.preferred_chunk_size
    && leb l.preferred_chunk_size maximum_chunk_size
    && leb l.preferred_chunk_size l.preferred_initial_window
    && leb l.preferred_initial_window maximum_transfer_window
    && leb l.preferred_initial_window l.maximum_in_flight

-- Whether a stream with this id is the initiator's: it is odd.
abbrev pub creator_fits : Role → ℕ → Bool
creator_fits Role.initiator stream_id = stream_id % 2 == 1
creator_fits Role.responder stream_id = stream_id % 2 == 0

abbrev pub other_role : Role → Role
other_role Role.initiator = Role.responder
other_role Role.responder = Role.initiator

-- The null test of the authority is left out.
unfoldable pub validate_context : TransferContext → Bool → Bool
validate_context context local_is_stream_creator =
    context.stream_id != 0
    && same_version context.version version_1_0
    && valid_limits context.limits
    && creator_fits
        (if local_is_stream_creator then context.local_role else other_role context.local_role)
        context.stream_id

-- The new time, or `none` if the clock went back.
unfoldable pub observe_time : ℕ → ℕ → Option ℕ
observe_time now_ms last_now_ms = if ltb now_ms last_now_ms then Option.none else Option.some now_ms

unfoldable pub checked_deadline : ℕ → ℕ → ℕ
checked_deadline now_ms duration_ms =
    if ltb (u64_max - now_ms) duration_ms then u64_max else now_ms + duration_ms

unfoldable pub deadline_reached : ℕ → ℕ → Bool
deadline_reached now_ms deadline_ms = deadline_ms != 0 && leb deadline_ms now_ms

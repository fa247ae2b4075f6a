-- ===== src/Protocol/Transcript/Process.antt =====
-- `TranscriptParser::Process`, what it does to every frame, and its remaining handlers.
use file_sender_byte_spark.Prelude.{
  ℕ, ◌+◌, ◌%◌, Bool, true, false, ◌&&◌, ◌||◌, not, List, ltb, ◌==◌, ◌!=◌, if◌then◌else◌, u8_mod,
  u64_max,
}
use file_sender_byte_spark.Protocol.Types.{
  MessageType, Version, version_1_0, ParsedFrame, ParseResult, ErrorCode, is_ok, Direction,
}
use file_sender_byte_spark.Protocol.Frame.{parse_frame_envelope, parse_frame_body}
use file_sender_byte_spark.Protocol.Transcript.{
  at, put, opposite, expected_role, TranscriptParser, field_number, Outcome, refuse,
}
use file_sender_byte_spark.Protocol.Transcript.Hello.{hello_is_late, process_hello}
use file_sender_byte_spark.Protocol.Transcript.Negotiate.{
  negotiate_is_early_or_late, process_negotiate, ack_is_early_or_late, process_negotiate_ack,
}

unfoldable pub process_transport_finished : Direction → ParsedFrame → TranscriptParser → Outcome
process_transport_finished direction frame t =
    let finished = put t.transport_finished direction true in
    if not t.negotiation_acknowledged || at t.transport_finished direction
    then refuse ErrorCode.state_violation t
    else if field_number frame 1 % u8_mod != expected_role direction
    then refuse ErrorCode.state_violation t
    else (
      record t {
        transport_finished = finished;
        binding_frames_complete = finished.initiator && finished.responder;
      },
      ErrorCode.none,
    )

unfoldable pub process_ping : Direction → ParsedFrame → TranscriptParser → Outcome
process_ping direction frame t =
    if not t.binding_frames_complete || at t.pong_expected (opposite direction)
    then refuse ErrorCode.state_violation t
    else (
      record t {
        pong_expected = put t.pong_expected (opposite direction) true;
        expected_pong_token = put t.expected_pong_token (opposite direction) (field_number frame 1);
      },
      ErrorCode.none,
    )

unfoldable pub process_pong : Direction → ParsedFrame → TranscriptParser → Outcome
process_pong direction frame t =
    if not t.binding_frames_complete
    then refuse ErrorCode.state_violation t
    else if not (at t.pong_expected direction)
        || at t.expected_pong_token direction != field_number frame 1
    then refuse ErrorCode.state_violation t
    else (record t { pong_expected = put t.pong_expected direction false }, ErrorCode.none)

-- `Complete`: whether the error ends the transcript.
abbrev pub is_fatal : ErrorCode → Bool → Bool
is_fatal ErrorCode.none scoped = false
is_fatal ErrorCode.malformed_message scoped = scoped
is_fatal ErrorCode.unknown_critical_field scoped = scoped
is_fatal ErrorCode.state_violation scoped = scoped
is_fatal ErrorCode.limit_exceeded scoped = scoped
is_fatal _ scoped = true

abbrev pub assigns_terminal : ErrorCode → Bool
assigns_terminal ErrorCode.none = false
assigns_terminal _ = true

unfoldable pub complete : ErrorCode → ℕ → TranscriptParser → Outcome
complete error stream_id t =
    if assigns_terminal error
    then (
      record t { terminal = is_fatal error (not t.binding_frames_complete || stream_id == 0) },
      error,
    )
    else (t, error)

-- `ValidateEnvelopeState`
abbrev pub state_allows : MessageType → Direction → ℕ → TranscriptParser → Bool
state_allows MessageType.hello d stream t = not (hello_is_late d t)
state_allows MessageType.negotiate d stream t = not (negotiate_is_early_or_late d t)
state_allows MessageType.negotiate_ack d stream t = not (ack_is_early_or_late d t)
state_allows MessageType.transport_finished d stream t =
    t.negotiation_acknowledged && not (at t.transport_finished d)
state_allows MessageType.error d stream t = t.binding_frames_complete || stream == 0
state_allows _ d stream t = t.binding_frames_complete

unfoldable pub validate_envelope_state : Direction → ParsedFrame → TranscriptParser → ErrorCode
validate_envelope_state direction frame t =
    if state_allows frame.header.message_type direction frame.header.stream_id t
    then ErrorCode.none
    else ErrorCode.state_violation

-- The message id that was just seen.
unfoldable pub advance_message_id : Direction → TranscriptParser → TranscriptParser
advance_message_id direction t =
    if at t.next_message_id direction == u64_max
    then record t { message_id_exhausted = put t.message_id_exhausted direction true }
    else record t {
      next_message_id = put t.next_message_id direction (at t.next_message_id direction + 1);
    }

-- The dispatch on the message type, the body being parsed.
unfoldable pub dispatch : MessageType → Direction → ParsedFrame → TranscriptParser → Outcome
dispatch MessageType.hello d frame t = process_hello d frame t
dispatch MessageType.negotiate d frame t = process_negotiate d frame t
dispatch MessageType.negotiate_ack d frame t = process_negotiate_ack d frame t
dispatch MessageType.transport_finished d frame t = process_transport_finished d frame t
dispatch MessageType.ping d frame t = process_ping d frame t
dispatch MessageType.pong d frame t = process_pong d frame t
dispatch MessageType.error d frame t =
    if not t.binding_frames_complete && frame.header.stream_id != 0
    then refuse ErrorCode.state_violation t
    else (t, ErrorCode.none)
dispatch _ d frame t =
    if not t.binding_frames_complete
    then refuse ErrorCode.state_violation t
    else (t, ErrorCode.none)

abbrev pub complete_outcome : ℕ → Outcome → Outcome
complete_outcome stream_id (t, error) = complete error stream_id t

-- The checks behind the message id: the negotiated limit, the state, the body, the handler.
unfoldable pub process_numbered : Direction → ParsedFrame → TranscriptParser → Outcome
process_numbered direction frame t =
    let stream_id : ℕ = frame.header.stream_id in
    if t.negotiation_acknowledged && ltb t.negotiation.effective_max_body frame.header.body_length
    then complete ErrorCode.limit_exceeded stream_id t
    else if not (is_ok (validate_envelope_state direction frame t))
    then complete (validate_envelope_state direction frame t) stream_id t
    else if not (is_ok (parse_frame_body frame).1)
    then complete (parse_frame_body frame).1 stream_id t
    else complete_outcome stream_id
        (dispatch frame.header.message_type direction (parse_frame_body frame).0 t)

unfoldable pub process_enveloped : Direction → ParsedFrame → TranscriptParser → Outcome
process_enveloped direction frame t =
    if at t.message_id_exhausted direction
      || frame.header.message_id != at t.next_message_id direction
    then complete ErrorCode.message_id_violation frame.header.stream_id t
    else process_numbered direction frame (advance_message_id direction t)

abbrev pub expected_version : TranscriptParser → Version
expected_version t =
    if t.negotiation_acknowledged then t.negotiation.selected_version else version_1_0

unfoldable pub process : Direction → List ℕ → TranscriptParser → Outcome
process direction encoded t =
    let parsed : ParseResult = parse_frame_envelope encoded (expected_version t) in
    if t.terminal
    then refuse ErrorCode.state_violation t
    else if not (is_ok parsed.error)
    then complete parsed.error 0 t
    else process_enveloped direction parsed.frame t

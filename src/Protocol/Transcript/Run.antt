-- ===== src/Protocol/Transcript/Run.antt =====
-- Runs of a transcript: frames of both directions, one after the other.
use file_sender_byte_spark.Prelude.{
  ℕ, inl, inr, Bool, true, false, ◌&&◌, ◌||◌, not, List, [], ◌∷◌, ◌!=◌, if◌then◌else◌, ltb, arith,
  Bool-cases,
}
use file_sender_byte_spark.Protocol.Types.{MessageType, ParsedFrame, ErrorCode, is_ok, Direction}
use file_sender_byte_spark.Protocol.Frame.{parse_frame_envelope, parse_frame_body}
use file_sender_byte_spark.Protocol.Transcript.{at, TranscriptParser, new_transcript, Outcome}
use file_sender_byte_spark.Protocol.Transcript.Process.{
  complete, complete_outcome, advance_message_id, dispatch, process_numbered, process_enveloped,
  process, validate_envelope_state, expected_version,
}
use file_sender_byte_spark.Protocol.Transcript.Invariant.{
  IsSound, new_transcript-IsSound, process_hello-IsSound, process_negotiate-IsSound,
  process_negotiate_ack-IsSound, process_transport_finished-IsSound, process_ping-IsSound,
  process_pong-IsSound,
}

complete-IsSound :
    (e : ErrorCode) (stream : ℕ) (t : TranscriptParser)
    → IsSound t
    → IsSound (complete e stream t).0
unfolding complete
complete-IsSound e stream t s = ground (
  arith, s.acknowledged, s.agreed, s.negotiated, s.finished_i, s.finished_r, s.pong_i, s.pong_r,
  s.hello_i, s.hello_r, s.bound,
)

advance_message_id-IsSound :
    (d : Direction) (t : TranscriptParser) → IsSound t → IsSound (advance_message_id d t)
unfolding advance_message_id
advance_message_id-IsSound Direction.initiator_to_responder t s = ground (
  arith, s.acknowledged, s.agreed, s.negotiated, s.finished_i, s.finished_r, s.pong_i, s.pong_r,
  s.hello_i, s.hello_r, s.bound,
)
advance_message_id-IsSound Direction.responder_to_initiator t s = ground (
  arith, s.acknowledged, s.agreed, s.negotiated, s.finished_i, s.finished_r, s.pong_i, s.pong_r,
  s.hello_i, s.hello_r, s.bound,
)

dispatch-IsSound :
    (m : MessageType) (d : Direction) (frame : ParsedFrame) (t : TranscriptParser)
    → IsSound t
    → IsSound (dispatch m d frame t).0
unfolding dispatch
dispatch-IsSound MessageType.hello d frame t s = process_hello-IsSound d frame t s
dispatch-IsSound MessageType.negotiate d frame t s = process_negotiate-IsSound d frame t s
dispatch-IsSound MessageType.negotiate_ack d frame t s = process_negotiate_ack-IsSound d frame t s
dispatch-IsSound MessageType.transport_finished d frame t s =
    process_transport_finished-IsSound d frame t s
dispatch-IsSound MessageType.ping d frame t s = process_ping-IsSound d frame t s
dispatch-IsSound MessageType.pong d frame t s = process_pong-IsSound d frame t s
dispatch-IsSound m d frame t s = ground (arith, s)

-- What every part of `process` keeps, `process` keeps.
module _ (P : TranscriptParser → Type 0)
    (keep_complete : (e : ErrorCode) (stream : ℕ) (t : TranscriptParser)
      → P t
      → P (complete e stream t).0)
    (keep_advance : (d : Direction) (t : TranscriptParser) → P t → P (advance_message_id d t))
    (keep_dispatch : (m : MessageType) (d : Direction) (frame : ParsedFrame) (t : TranscriptParser)
      → P t
      → P (dispatch m d frame t).0) where
  unfoldable IsKept : Outcome → Type 0
  IsKept outcome = P outcome.0

  refusal-IsKept :
      (e : ErrorCode) (stream : ℕ) (t : TranscriptParser) → P t → IsKept (complete e stream t)
  unfolding IsKept
  refusal-IsKept = keep_complete

  if-IsKept : (test : Bool) (a b : Outcome) → IsKept a → IsKept b → IsKept (if test then a else b)
  if-IsKept true a b p q = p
  if-IsKept false a b p q = q

  answer-IsKept :
      (stream : ℕ) (answer : Outcome) → P answer.0 → IsKept (complete_outcome stream answer)
  answer-IsKept stream (t, e) p = refusal-IsKept e stream t p

  process_numbered-IsKept :
      (d : Direction) (frame : ParsedFrame) (t : TranscriptParser)
      → P t
      → IsKept (process_numbered d frame t)
  unfolding process_numbered
  process_numbered-IsKept d frame t p =
      let body = parse_frame_body frame in
      let stream = frame.header.stream_id in
      let answer = dispatch frame.header.message_type d body.0 t in
      let valid = validate_envelope_state d frame t in
      let limit =
        t.negotiation_acknowledged
        && ltb t.negotiation.effective_max_body frame.header.body_length in
      elim (Bool-cases limit) [
        | inl e ↦ rw e (refusal-IsKept ErrorCode.limit_exceeded stream t p)
        | inr e ↦ elim (Bool-cases (is_ok valid)) [
          | inr f ↦ rw (e, f) (refusal-IsKept valid stream t p)
          | inl f ↦ elim (Bool-cases (is_ok body.1)) [
            | inr g ↦ rw (e, f, g) (refusal-IsKept body.1 stream t p)
            | inl g ↦ rw (e, f, g) (answer-IsKept stream answer (keep_dispatch _ d _ t p))
          ]
        ]
      ]

  pub process_numbered-keeps :
      (d : Direction) (frame : ParsedFrame) (t : TranscriptParser)
      → P t
      → P (process_numbered d frame t).0
  unfolding IsKept
  process_numbered-keeps = process_numbered-IsKept

  process_enveloped-IsKept :
      (d : Direction) (frame : ParsedFrame) (t : TranscriptParser)
      → P t
      → IsKept (process_enveloped d frame t)
  unfolding process_enveloped
  process_enveloped-IsKept d frame t p =
      if-IsKept (at t.message_id_exhausted d || frame.header.message_id != at t.next_message_id d) _
        _ (refusal-IsKept ErrorCode.message_id_violation frame.header.stream_id t p)
        (process_numbered-IsKept d frame (advance_message_id d t) (keep_advance d t p))

  same-IsKept : (e : ErrorCode) (t : TranscriptParser) → P t → IsKept (t, e)
  unfolding IsKept
  same-IsKept e t p = p

  process-IsKept :
      (d : Direction) (bytes : List ℕ) (t : TranscriptParser) → P t → IsKept (process d bytes t)
  unfolding process
  process-IsKept d bytes t p =
      let parsed = parse_frame_envelope bytes (expected_version t) in
      if-IsKept t.terminal _ _ (same-IsKept ErrorCode.state_violation t p) (
        if-IsKept (not (is_ok parsed.error)) _ _ (refusal-IsKept parsed.error 0 t p)
          (process_enveloped-IsKept d parsed.frame t p))

  pub process-keeps :
      (d : Direction) (bytes : List ℕ) (t : TranscriptParser) → P t → P (process d bytes t).0
  unfolding IsKept
  process-keeps = process-IsKept

pub process-IsSound :
    (d : Direction) (bytes : List ℕ) (t : TranscriptParser)
    → IsSound t
    → IsSound (process d bytes t).0
process-IsSound = process-keeps IsSound complete-IsSound advance_message_id-IsSound dispatch-IsSound

-- The transcript after the frames of a list, whatever each was answered.
unfoldable pub process_all : List (Direction × List ℕ) → TranscriptParser → TranscriptParser
process_all [] t = t
process_all ((d, bytes) ∷ frames) t = process_all frames (process d bytes t).0

pub process_all-IsSound :
    (frames : List (Direction × List ℕ)) (t : TranscriptParser)
    → IsSound t
    → IsSound (process_all frames t)
unfolding process_all
process_all-IsSound [] t s = s
process_all-IsSound ((d, bytes) ∷ frames) t s =
    process_all-IsSound frames (process d bytes t).0 (process-IsSound d bytes t s)

-- After any frames that a new transcript has processed, accepted or not: a HELLO that is present
-- keeps every limit on it; a negotiation that is present is the one that the two HELLOs allow;
-- acknowledgement comes after negotiation and TRANSPORT_FINISHED after acknowledgement; the
-- binding is complete exactly when both sides have sent TRANSPORT_FINISHED; and a PONG is awaited
-- only from then on.
pub run-IsSound : (frames : List (Direction × List ℕ)) → IsSound (process_all frames new_transcript)
run-IsSound frames = process_all-IsSound frames new_transcript new_transcript-IsSound

-- ===== src/Protocol/Transcript/Steps.antt =====
-- What `TranscriptParser::Process` of native/src/protocol/v1_parser.cpp does to the agreement, for
-- any bytes: nothing, or what the handler of an accepted message does.
use file_sender_byte_spark.Prelude.{
  ℕ, ◌≡◌, refl, subst, ◌∙◌, Bool, true, false, ◌&&◌, ◌||◌, not, List, ◌!=◌, ltb, if◌then◌else◌,
  arith,
}
use file_sender_byte_spark.Protocol.Types.{MessageType, ParsedFrame, ErrorCode, is_ok, Direction}
use file_sender_byte_spark.Protocol.Frame.{parse_frame_envelope, parse_frame_body}
use file_sender_byte_spark.Protocol.Transcript.{at, TranscriptParser, Outcome}
use file_sender_byte_spark.Protocol.Transcript.Process.{
  complete, complete_outcome, dispatch, advance_message_id, validate_envelope_state,
  process_numbered, process_enveloped, process, expected_version,
}
use file_sender_byte_spark.Protocol.Transcript.Moves.{Pact, pact, Moves, dispatch-Moves}

pact-complete :
    (e : ErrorCode) (stream : ℕ) (t : TranscriptParser) → pact (complete e stream t).0 ≡ pact t
unfolding complete
pact-complete e stream t = ground arith

pub complete_error :
    (e : ErrorCode) (stream : ℕ) (t : TranscriptParser) → (complete e stream t).1 ≡ e
unfolding complete
complete_error e stream t = ground arith

advance_pact : (d : Direction) (t : TranscriptParser) → pact (advance_message_id d t) ≡ pact t
unfolding advance_message_id
advance_pact d t = ground arith

-- The type and the fields of the message that the bytes carry, as the transcript reads them.
unfoldable pub sent_type : TranscriptParser → List ℕ → MessageType
sent_type t bytes = (parse_frame_envelope bytes (expected_version t)).frame.header.message_type

unfoldable pub sent_frame : TranscriptParser → List ℕ → ParsedFrame
sent_frame t bytes = (parse_frame_body (parse_frame_envelope bytes (expected_version t)).frame).0

module _ (m : MessageType) (d : Direction) (frame : ParsedFrame) (before : Pact) where
  unfoldable IsMoved : Outcome → Type 0
  IsMoved answer = Moves m d frame before (pact answer.0) (is_ok answer.1)

  refusal-IsMoved :
      (e : ErrorCode) (stream : ℕ) (t : TranscriptParser)
      → pact t ≡ before
      → IsMoved (complete e stream t)
  unfolding IsMoved
  refusal-IsMoved e stream t h = Moves.stays (pact-complete e stream t ∙ h)

  if-IsMoved :
      (test : Bool) (a b : Outcome)
      → (test ≡ true → IsMoved a)
      → (test ≡ false → IsMoved b)
      → IsMoved (if test then a else b)
  if-IsMoved true a b p q = p refl
  if-IsMoved false a b p q = q refl

  same-IsMoved : (e : ErrorCode) (t : TranscriptParser) → pact t ≡ before → IsMoved (t, e)
  unfolding IsMoved
  same-IsMoved e t h = Moves.stays h

  answer-IsMoved :
      (stream : ℕ) (answer : Outcome)
      → Moves m d frame before (pact answer.0) (is_ok answer.1)
      → IsMoved (complete_outcome stream answer)
  unfolding IsMoved
  answer-IsMoved stream (t, e) h = rw (pact-complete e stream t, complete_error e stream t) h

  opened :
      (answer : Outcome) → IsMoved answer → Moves m d frame before (pact answer.0) (is_ok answer.1)
  unfolding IsMoved
  opened answer h = h

process_numbered-IsMoved :
    (d : Direction) (frame : ParsedFrame) (t : TranscriptParser) (before : Pact)
    → pact t ≡ before
    → IsMoved frame.header.message_type d
        (parse_frame_body frame).0
        before
        (process_numbered d frame t)
unfolding process_numbered
process_numbered-IsMoved d frame t before h =
    let m = frame.header.message_type in
    let body = (parse_frame_body frame).0 in
    let stream = frame.header.stream_id in
    if-IsMoved m d body before
      (t.negotiation_acknowledged && ltb t.negotiation.effective_max_body frame.header.body_length)
      _ _ (λ a. refusal-IsMoved m d body before ErrorCode.limit_exceeded stream t h)
      (λ a.
        if-IsMoved m d body before (not (is_ok (validate_envelope_state d frame t))) _ _
          (λ b. refusal-IsMoved m d body before (validate_envelope_state d frame t) stream t h)
          (λ b.
            if-IsMoved m d body before (not (is_ok (parse_frame_body frame).1)) _ _
              (λ c. refusal-IsMoved m d body before (parse_frame_body frame).1 stream t h)
              (λ c. answer-IsMoved m d body before stream (dispatch m d body t) (
                subst
                  (λ p.
                    Moves m d body p (pact (dispatch m d body t).0) (is_ok (dispatch m d body t).1))
                  h (dispatch-Moves m d body t)))))

process_enveloped-IsMoved :
    (d : Direction) (frame : ParsedFrame) (t : TranscriptParser)
    → IsMoved frame.header.message_type d
        (parse_frame_body frame).0
        (pact t)
        (process_enveloped d frame t)
unfolding process_enveloped
process_enveloped-IsMoved d frame t =
    let m = frame.header.message_type in
    let body = (parse_frame_body frame).0 in
    if-IsMoved m d body (pact t)
      (at t.message_id_exhausted d || frame.header.message_id != at t.next_message_id d) _ _
      (λ a.
        refusal-IsMoved m d body (pact t) ErrorCode.message_id_violation frame.header.stream_id t
          refl)
      (λ a. process_numbered-IsMoved d frame (advance_message_id d t) (pact t) (advance_pact d t))

process-IsMoved :
    (d : Direction) (bytes : List ℕ) (t : TranscriptParser)
    → IsMoved (sent_type t bytes) d (sent_frame t bytes) (pact t) (process d bytes t)
unfolding process sent_type sent_frame
process-IsMoved d bytes t =
    let parsed = parse_frame_envelope bytes (expected_version t) in
    let m = parsed.frame.header.message_type in
    let body = (parse_frame_body parsed.frame).0 in
    if-IsMoved m d body (pact t) t.terminal _ _
      (λ a. same-IsMoved m d body (pact t) ErrorCode.state_violation t refl)
      (λ a.
        if-IsMoved m d body (pact t) (not (is_ok parsed.error)) _ _
          (λ b. refusal-IsMoved m d body (pact t) parsed.error 0 t refl)
          (λ b. process_enveloped-IsMoved d parsed.frame t))

pub process-Moves :
    (d : Direction) (bytes : List ℕ) (t : TranscriptParser)
    → Moves
        (sent_type t bytes)
        d
        (sent_frame t bytes)
        (pact t)
        (pact (process d bytes t).0)
        (is_ok (process d bytes t).1)
process-Moves d bytes t =
    opened (sent_type t bytes) d (sent_frame t bytes) (pact t) (process d bytes t)
      (process-IsMoved d bytes t)

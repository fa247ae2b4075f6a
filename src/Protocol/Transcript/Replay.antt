-- ===== src/Protocol/Transcript/Replay.antt =====
-- The message ids of one direction: each is accepted once.
use file_sender_byte_spark.Prelude.{ℕ, ◌<◌, ◌≡◌, ◌⊎◌, true, false, List, [], ◌∷◌, arith}
use file_sender_byte_spark.Protocol.Types.{MessageType, ParsedFrame, ErrorCode, is_ok, Direction}
use file_sender_byte_spark.Protocol.Frame.{parse_frame_envelope}
use file_sender_byte_spark.Protocol.Transcript.{at, TranscriptParser}
use file_sender_byte_spark.Protocol.Transcript.Hello.{process_hello}
use file_sender_byte_spark.Protocol.Transcript.Negotiate.{process_negotiate, process_negotiate_ack}
use file_sender_byte_spark.Protocol.Transcript.Process.{
  process_transport_finished, process_ping, process_pong, complete, advance_message_id, dispatch,
  process_numbered, process_enveloped, process, expected_version,
}
use file_sender_byte_spark.Protocol.Transcript.Run.{
  process_all, process-keeps, process_numbered-keeps,
}

record HasSameIds (t u : TranscriptParser) : Type 0 where
  pub next : u.next_message_id ≡ t.next_message_id
  pub exhausted : u.message_id_exhausted ≡ t.message_id_exhausted

process_hello-HasSameIds :
    (d : Direction) (frame : ParsedFrame) (t : TranscriptParser)
    → HasSameIds t (process_hello d frame t).0
unfolding process_hello
process_hello-HasSameIds d frame t = ground arith

process_negotiate-HasSameIds :
    (d : Direction) (frame : ParsedFrame) (t : TranscriptParser)
    → HasSameIds t (process_negotiate d frame t).0
unfolding process_negotiate
process_negotiate-HasSameIds d frame t = ground arith

process_negotiate_ack-HasSameIds :
    (d : Direction) (frame : ParsedFrame) (t : TranscriptParser)
    → HasSameIds t (process_negotiate_ack d frame t).0
unfolding process_negotiate_ack
process_negotiate_ack-HasSameIds d frame t = ground arith

process_transport_finished-HasSameIds :
    (d : Direction) (frame : ParsedFrame) (t : TranscriptParser)
    → HasSameIds t (process_transport_finished d frame t).0
unfolding process_transport_finished
process_transport_finished-HasSameIds d frame t = ground arith

process_ping-HasSameIds :
    (d : Direction) (frame : ParsedFrame) (t : TranscriptParser)
    → HasSameIds t (process_ping d frame t).0
unfolding process_ping
process_ping-HasSameIds d frame t = ground arith

process_pong-HasSameIds :
    (d : Direction) (frame : ParsedFrame) (t : TranscriptParser)
    → HasSameIds t (process_pong d frame t).0
unfolding process_pong
process_pong-HasSameIds d frame t = ground arith

dispatch-HasSameIds :
    (m : MessageType) (d : Direction) (frame : ParsedFrame) (t : TranscriptParser)
    → HasSameIds t (dispatch m d frame t).0
unfolding dispatch
dispatch-HasSameIds MessageType.hello d frame t = process_hello-HasSameIds d frame t
dispatch-HasSameIds MessageType.negotiate d frame t = process_negotiate-HasSameIds d frame t
dispatch-HasSameIds MessageType.negotiate_ack d frame t = process_negotiate_ack-HasSameIds d frame t
dispatch-HasSameIds MessageType.transport_finished d frame t =
    process_transport_finished-HasSameIds d frame t
dispatch-HasSameIds MessageType.ping d frame t = process_ping-HasSameIds d frame t
dispatch-HasSameIds MessageType.pong d frame t = process_pong-HasSameIds d frame t
dispatch-HasSameIds m d frame t = ground arith

-- The id cannot be accepted in this direction any more.
unfoldable IsSpent : Direction → ℕ → TranscriptParser → Type 0
IsSpent d id t = (at t.message_id_exhausted d ≡ true) ⊎ (id < at t.next_message_id d)

keep_same_ids :
    (d : Direction) (id : ℕ) (t u : TranscriptParser)
    → HasSameIds t u
    → IsSpent d id t
    → IsSpent d id u
unfolding IsSpent
keep_same_ids d id t u same spent = rw (same.next, same.exhausted) spent

complete-HasSameIds :
    (e : ErrorCode) (stream : ℕ) (t : TranscriptParser) → HasSameIds t (complete e stream t).0
unfolding complete
complete-HasSameIds e stream t = ground arith

complete_error : (e : ErrorCode) (stream : ℕ) (t : TranscriptParser) → (complete e stream t).1 ≡ e
unfolding complete
complete_error e stream t = ground arith

keep_complete :
    (d : Direction) (id : ℕ) (e : ErrorCode) (stream : ℕ) (t : TranscriptParser)
    → IsSpent d id t
    → IsSpent d id (complete e stream t).0
keep_complete d id e stream t = keep_same_ids d id t _ (complete-HasSameIds e stream t)

keep_dispatch :
    (d : Direction) (id : ℕ) (m : MessageType) (d' : Direction) (frame : ParsedFrame)
    (t : TranscriptParser)
    → IsSpent d id t
    → IsSpent d id (dispatch m d' frame t).0
keep_dispatch d id m d' frame t = keep_same_ids d id t _ (dispatch-HasSameIds m d' frame t)

keep_advance :
    (d : Direction) (id : ℕ) (d' : Direction) (t : TranscriptParser)
    → IsSpent d id t
    → IsSpent d id (advance_message_id d' t)
unfolding IsSpent advance_message_id
keep_advance Direction.initiator_to_responder id Direction.initiator_to_responder t spent =
    ground arith
keep_advance Direction.initiator_to_responder id Direction.responder_to_initiator t spent =
    ground arith
keep_advance Direction.responder_to_initiator id Direction.initiator_to_responder t spent =
    ground arith
keep_advance Direction.responder_to_initiator id Direction.responder_to_initiator t spent =
    ground arith

advance-IsSpent :
    (d : Direction) (t : TranscriptParser)
    → IsSpent d (at t.next_message_id d) (advance_message_id d t)
unfolding IsSpent advance_message_id
advance-IsSpent Direction.initiator_to_responder t = ground arith
advance-IsSpent Direction.responder_to_initiator t = ground arith

process_all-IsSpent :
    (d : Direction) (id : ℕ) (frames : List (Direction × List ℕ)) (t : TranscriptParser)
    → IsSpent d id t
    → IsSpent d id (process_all frames t)
unfolding process_all
process_all-IsSpent d id [] t spent = spent
process_all-IsSpent d id ((d', bytes) ∷ frames) t spent = process_all-IsSpent d id frames _ (
    process-keeps (IsSpent d id) (keep_complete d id) (keep_advance d id) (keep_dispatch d id) d'
      bytes t spent)

numbered-IsSpent :
    (d : Direction) (frame : ParsedFrame) (t : TranscriptParser)
    → frame.header.message_id ≡ at t.next_message_id d
    → IsSpent d frame.header.message_id (process_numbered d frame (advance_message_id d t)).0
numbered-IsSpent d frame t e =
    let id = frame.header.message_id in
    process_numbered-keeps (IsSpent d id) (keep_complete d id) (keep_advance d id)
      (keep_dispatch d id) d frame _ (rw e (advance-IsSpent d t))

process_enveloped-IsSpent :
    (d : Direction) (frame : ParsedFrame) (t : TranscriptParser)
    → is_ok (process_enveloped d frame t).1 ≡ true
    → IsSpent d frame.header.message_id (process_enveloped d frame t).0
unfolding process_enveloped
process_enveloped-IsSpent d frame t ok = grind (arith, complete_error, numbered-IsSpent d frame t)

-- The message id that the bytes carry, as the transcript reads them.
unfoldable pub sent_id : TranscriptParser → List ℕ → ℕ
sent_id t bytes = (parse_frame_envelope bytes (expected_version t)).frame.header.message_id

process-IsSpent :
    (d : Direction) (bytes : List ℕ) (t : TranscriptParser)
    → is_ok (process d bytes t).1 ≡ true
    → IsSpent d (sent_id t bytes) (process d bytes t).0
unfolding process sent_id
process-IsSpent d bytes t ok = grind (arith, complete_error, process_enveloped-IsSpent)

spent_refused :
    (d : Direction) (bytes : List ℕ) (t : TranscriptParser)
    → IsSpent d (sent_id t bytes) t
    → is_ok (process d bytes t).1 ≡ false
unfolding process process_enveloped sent_id IsSpent
spent_refused d bytes t spent = grind (arith, complete_error)

-- After a frame was accepted in a direction, and after any other frames of both directions, every
-- frame of that direction with the same message id is refused.
pub process-once :
    (d : Direction) (first again : List ℕ) (frames : List (Direction × List ℕ))
    (t : TranscriptParser)
    → is_ok (process d first t).1 ≡ true
    → sent_id (process_all frames (process d first t).0) again ≡ sent_id t first
    → is_ok (process d again (process_all frames (process d first t).0)).1 ≡ false
process-once d first again frames t ok same =
    spent_refused d again _
      (rw same (process_all-IsSpent d (sent_id t first) frames _ (process-IsSpent d first t ok)))

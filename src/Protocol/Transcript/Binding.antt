-- ===== src/Protocol/Transcript/Binding.antt =====
-- What has been agreed when a message of a transfer is accepted.
use file_sender_byte_spark.Prelude.{ℕ, ◌≡◌, true, List, arith}
use file_sender_byte_spark.Protocol.Types.{
  MessageType, ParsedFrame, is_ok, Direction, is_transfer_message, message_code,
}
use file_sender_byte_spark.Protocol.Transcript.{TranscriptParser, new_transcript}
use file_sender_byte_spark.Protocol.Transcript.Process.{
  advance_message_id, state_allows, validate_envelope_state, process_numbered, process_enveloped,
  process,
}
use file_sender_byte_spark.Protocol.Transcript.Invariant.{
  IsSoundHello, IsAgreed, IsSound, new_transcript-IsSound,
}
use file_sender_byte_spark.Protocol.Transcript.Steps.{complete_error, sent_type}
use file_sender_byte_spark.Protocol.Transcript.History.{IsMade, process_all-IsMade}
use file_sender_byte_spark.Protocol.Transcript.Run.{process_all, process_all-IsSound}

allowed-bound :
    (m : MessageType) (d : Direction) (stream : ℕ) (t : TranscriptParser)
    → is_transfer_message m ≡ true
    → state_allows m d stream t ≡ true
    → t.binding_frames_complete ≡ true
unfolding is_transfer_message message_code
allowed-bound m d stream t transfer allowed = ground arith

advance-bound :
    (d : Direction) (t : TranscriptParser)
    → (advance_message_id d t).binding_frames_complete ≡ t.binding_frames_complete
unfolding advance_message_id
advance-bound d t = ground arith

numbered-bound :
    (d : Direction) (frame : ParsedFrame) (t : TranscriptParser)
    → is_ok (process_numbered d frame t).1 ≡ true
    → is_transfer_message frame.header.message_type ≡ true
    → t.binding_frames_complete ≡ true
unfolding process_numbered validate_envelope_state
numbered-bound d frame t ok transfer =
    grind
      (arith, complete_error, allowed-bound frame.header.message_type d frame.header.stream_id t)

enveloped-bound :
    (d : Direction) (frame : ParsedFrame) (t : TranscriptParser)
    → is_ok (process_enveloped d frame t).1 ≡ true
    → is_transfer_message frame.header.message_type ≡ true
    → t.binding_frames_complete ≡ true
unfolding process_enveloped
enveloped-bound d frame t ok transfer =
    grind (arith, complete_error, advance-bound, numbered-bound d frame (advance_message_id d t))

process-bound :
    (d : Direction) (bytes : List ℕ) (t : TranscriptParser)
    → is_ok (process d bytes t).1 ≡ true
    → is_transfer_message (sent_type t bytes) ≡ true
    → t.binding_frames_complete ≡ true
unfolding process sent_type
process-bound d bytes t ok transfer = grind (arith, complete_error, enveloped-bound)

-- Both sides have said HELLO, selected the one result that the two HELLOs allow, and acknowledged
-- and confirmed it, each by a message among the frames.
pub record IsBound (frames : List (Direction × List ℕ)) (t : TranscriptParser) : Type 0 where
  pub hello_i : IsSoundHello Direction.initiator_to_responder t.hellos.initiator
  pub hello_r : IsSoundHello Direction.responder_to_initiator t.hellos.responder
  pub agreed : IsAgreed t.hellos.initiator t.hellos.responder t.negotiation
  pub made : IsMade frames new_transcript t

abbrev IsComplete : TranscriptParser → Type 0
IsComplete t =
    (t.hellos.initiator.present ≡ true)
    × (t.hellos.responder.present ≡ true)
    × (t.negotiation.present ≡ true)
    × (t.negotiation_acknowledged ≡ true)
    × (t.transport_finished.initiator ≡ true)
    × (t.transport_finished.responder ≡ true)

sound-IsComplete :
    (t : TranscriptParser) → IsSound t → t.binding_frames_complete ≡ true → IsComplete t
sound-IsComplete t s e =
    ground (arith, s.acknowledged, s.negotiated, s.finished_i, s.finished_r, s.bound)

-- When a new transcript has processed any frames and then accepts a message of a transfer, among
-- the frames that it accepted before are: a HELLO of each side, with the contents that the
-- transcript has of it, which keep the limits; a NEGOTIATE of the initiator, with the negotiation
-- that the transcript has, which is the one that the two HELLOs allow; a NEGOTIATE_ACK of the
-- responder with this same negotiation; and a TRANSPORT_FINISHED of each side that names the role
-- of this side.
pub transfer-IsBound :
    (frames : List (Direction × List ℕ)) (d : Direction) (bytes : List ℕ)
    → is_ok (process d bytes (process_all frames new_transcript)).1 ≡ true
    → is_transfer_message (sent_type (process_all frames new_transcript) bytes) ≡ true
    → IsBound frames (process_all frames new_transcript)
transfer-IsBound frames d bytes ok transfer =
    let t = process_all frames new_transcript in
    let s = process_all-IsSound frames new_transcript new_transcript-IsSound in
    let (hi, hr, n, a, ci, cr) = sound-IsComplete t s (process-bound d bytes t ok transfer) in
    record {
      hello_i = s.hello_i hi;
      hello_r = s.hello_r hr;
      agreed = s.agreed n;
      made = process_all-IsMade frames hi hr n a ci cr;
    }

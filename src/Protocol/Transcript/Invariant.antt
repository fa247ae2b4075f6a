-- ===== src/Protocol/Transcript/Invariant.antt =====
-- What holds of a transcript whatever frames were processed.
use file_sender_byte_spark.Prelude.{◌≤◌, ◌≡◌, ◌≢◌, refl, true, false, ◌&&◌, all, min, arith}
use file_sender_byte_spark.Protocol.Types.{
  same_version, version_less, ParsedFrame, is_ok, Direction, max_body_length,
}
use file_sender_byte_spark.Protocol.Transcript.{
  base_transfer_v1, max_in_flight, max_streams, expected_role, HelloData, NegotiationData,
  TranscriptParser, new_transcript,
}
use file_sender_byte_spark.Protocol.Transcript.Hello.{
  contains, capabilities_ordered, hello_of, capabilities_error, receive_limits_error, hello_error,
  process_hello,
}
use file_sender_byte_spark.Protocol.Transcript.Negotiate.{
  version_maximum, version_minimum, intersection, equal_capabilities, negotiation_of,
  selection_error, negotiation_error, process_negotiate, process_negotiate_ack,
  negotiate_is_early_or_late, ack_is_early_or_late,
}
use file_sender_byte_spark.Protocol.Transcript.Process.{
  process_transport_finished, process_ping, process_pong,
}

-- A HELLO that a side is held to.
pub record IsSoundHello (direction : Direction) (h : HelloData) : Type 0 where
  pub range : version_less h.maximum h.minimum ≡ false
  pub role : h.role ≡ expected_role direction
  pub ordered : capabilities_ordered h.capabilities ≡ true
  pub offers_base : contains h.capabilities base_transfer_v1 ≡ true
  pub requires_base : contains h.required_capabilities base_transfer_v1 ≡ true
  pub offers_required : all (contains h.capabilities) h.required_capabilities ≡ true
  pub body_min : 8192 ≤ h.receive_max_body
  pub body_max : h.receive_max_body ≤ max_body_length
  pub in_flight_min : 1048576 ≤ h.receive_max_in_flight
  pub in_flight_max : h.receive_max_in_flight ≤ max_in_flight
  pub streams_min : h.receive_max_streams ≢ 0
  pub streams_max : h.receive_max_streams ≤ max_streams

-- What two HELLOs leave to be selected: one choice only.
pub record IsAgreed (i r : HelloData) (n : NegotiationData) : Type 0 where
  pub common :
      version_less (version_minimum i.maximum r.maximum) (version_maximum i.minimum r.minimum)
      ≡ false
  pub highest : same_version n.selected_version (version_minimum i.maximum r.maximum) ≡ true
  pub capabilities :
      equal_capabilities n.capabilities (intersection i.capabilities r.capabilities) ≡ true
  pub required_i :
      all (contains (intersection i.capabilities r.capabilities)) i.required_capabilities ≡ true
  pub required_r :
      all (contains (intersection i.capabilities r.capabilities)) r.required_capabilities ≡ true
  pub body : n.effective_max_body ≡ min i.receive_max_body r.receive_max_body
  pub in_flight : n.effective_max_in_flight ≡ min i.receive_max_in_flight r.receive_max_in_flight
  pub streams : n.effective_max_streams ≡ min i.receive_max_streams r.receive_max_streams

pub record IsSound (t : TranscriptParser) : Type 0 where
  pub hello_i :
      t.hellos.initiator.present ≡ true
      → IsSoundHello Direction.initiator_to_responder t.hellos.initiator
  pub hello_r :
      t.hellos.responder.present ≡ true
      → IsSoundHello Direction.responder_to_initiator t.hellos.responder
  pub negotiated :
      t.negotiation.present ≡ true
      → (t.hellos.initiator.present ≡ true) × (t.hellos.responder.present ≡ true)
  pub agreed :
      t.negotiation.present ≡ true → IsAgreed t.hellos.initiator t.hellos.responder t.negotiation
  pub acknowledged : t.negotiation_acknowledged ≡ true → t.negotiation.present ≡ true
  pub finished_i : t.transport_finished.initiator ≡ true → t.negotiation_acknowledged ≡ true
  pub finished_r : t.transport_finished.responder ≡ true → t.negotiation_acknowledged ≡ true
  pub bound :
      t.binding_frames_complete ≡ (t.transport_finished.initiator && t.transport_finished.responder)
  pub pong_i : t.pong_expected.initiator ≡ true → t.binding_frames_complete ≡ true
  pub pong_r : t.pong_expected.responder ≡ true → t.binding_frames_complete ≡ true

pub new_transcript-IsSound : IsSound new_transcript
new_transcript-IsSound = record {
  hello_i = λ h. cc;
  hello_r = λ h. cc;
  negotiated = λ h. cc;
  agreed = λ h. cc;
  acknowledged = λ h. cc;
  finished_i = λ h. cc;
  finished_r = λ h. cc;
  bound = refl;
  pong_i = λ h. cc;
  pong_r = λ h. cc;
}

hello_error_ok :
    (d : Direction) (frame : ParsedFrame) (h : HelloData)
    → is_ok (hello_error d frame h) ≡ true
    → IsSoundHello d h
unfolding hello_error capabilities_error receive_limits_error
hello_error_ok d frame h e = ground arith

negotiation_error_ok :
    (frame : ParsedFrame) (i r : HelloData) (n : NegotiationData)
    → is_ok (negotiation_error frame i r n) ≡ true
    → IsAgreed i r n
unfolding negotiation_error selection_error
negotiation_error_ok frame i r n e = ground arith

pub process_hello-IsSound :
    (d : Direction) (frame : ParsedFrame) (t : TranscriptParser)
    → IsSound t
    → IsSound (process_hello d frame t).0
unfolding process_hello
process_hello-IsSound Direction.initiator_to_responder frame t s = ground (
  arith,
  s.acknowledged,
  s.agreed,
  s.negotiated,
  s.finished_i,
  s.finished_r,
  s.pong_i,
  s.pong_r,
  s.hello_i,
  s.hello_r,
  hello_error_ok Direction.initiator_to_responder frame (hello_of frame),
)
process_hello-IsSound Direction.responder_to_initiator frame t s = ground (
  arith,
  s.acknowledged,
  s.agreed,
  s.negotiated,
  s.finished_i,
  s.finished_r,
  s.pong_i,
  s.pong_r,
  s.hello_i,
  s.hello_r,
  hello_error_ok Direction.responder_to_initiator frame (hello_of frame),
)

pub process_negotiate-IsSound :
    (d : Direction) (frame : ParsedFrame) (t : TranscriptParser)
    → IsSound t
    → IsSound (process_negotiate d frame t).0
unfolding process_negotiate negotiate_is_early_or_late
process_negotiate-IsSound Direction.initiator_to_responder frame t s = ground (
  arith,
  s.acknowledged,
  s.agreed,
  s.negotiated,
  s.finished_i,
  s.finished_r,
  s.pong_i,
  s.pong_r,
  s.hello_i,
  s.hello_r,
  negotiation_error_ok frame t.hellos.initiator t.hellos.responder (negotiation_of frame),
)
process_negotiate-IsSound Direction.responder_to_initiator frame t s = s

pub process_negotiate_ack-IsSound :
    (d : Direction) (frame : ParsedFrame) (t : TranscriptParser)
    → IsSound t
    → IsSound (process_negotiate_ack d frame t).0
unfolding process_negotiate_ack ack_is_early_or_late
process_negotiate_ack-IsSound Direction.initiator_to_responder frame t s = s
process_negotiate_ack-IsSound Direction.responder_to_initiator frame t s = ground (
  arith, s.acknowledged, s.agreed, s.negotiated, s.finished_i, s.finished_r, s.pong_i, s.pong_r,
  s.hello_i, s.hello_r,
)

pub process_transport_finished-IsSound :
    (d : Direction) (frame : ParsedFrame) (t : TranscriptParser)
    → IsSound t
    → IsSound (process_transport_finished d frame t).0
unfolding process_transport_finished
process_transport_finished-IsSound Direction.initiator_to_responder frame t s = ground (
  arith, s.acknowledged, s.agreed, s.negotiated, s.finished_i, s.finished_r, s.pong_i, s.pong_r,
  s.hello_i, s.hello_r, s.bound,
)
process_transport_finished-IsSound Direction.responder_to_initiator frame t s = ground (
  arith, s.acknowledged, s.agreed, s.negotiated, s.finished_i, s.finished_r, s.pong_i, s.pong_r,
  s.hello_i, s.hello_r, s.bound,
)

pub process_ping-IsSound :
    (d : Direction) (frame : ParsedFrame) (t : TranscriptParser)
    → IsSound t
    → IsSound (process_ping d frame t).0
unfolding process_ping
process_ping-IsSound Direction.initiator_to_responder frame t s = ground (
  arith, s.acknowledged, s.agreed, s.negotiated, s.finished_i, s.finished_r, s.pong_i, s.pong_r,
  s.hello_i, s.hello_r, s.bound,
)
process_ping-IsSound Direction.responder_to_initiator frame t s = ground (
  arith, s.acknowledged, s.agreed, s.negotiated, s.finished_i, s.finished_r, s.pong_i, s.pong_r,
  s.hello_i, s.hello_r, s.bound,
)

pub process_pong-IsSound :
    (d : Direction) (frame : ParsedFrame) (t : TranscriptParser)
    → IsSound t
    → IsSound (process_pong d frame t).0
unfolding process_pong
process_pong-IsSound Direction.initiator_to_responder frame t s = ground (
  arith, s.acknowledged, s.agreed, s.negotiated, s.finished_i, s.finished_r, s.pong_i, s.pong_r,
  s.hello_i, s.hello_r, s.bound,
)
process_pong-IsSound Direction.responder_to_initiator frame t s = ground (
  arith, s.acknowledged, s.agreed, s.negotiated, s.finished_i, s.finished_r, s.pong_i, s.pong_r,
  s.hello_i, s.hello_r, s.bound,
)

-- ===== src/Protocol/Transcript/Moves.antt =====
-- What a frame that a transcript accepts does to the agreement of the two sides: the HELLOs, the
-- negotiation, its acknowledgement and the two TRANSPORT_FINISHED of `TranscriptParser` in
-- native/src/protocol/v1_parser.cpp.
use file_sender_byte_spark.Prelude.{
  ℕ, ◌%◌, ◌≡◌, refl, sym, ◌∙◌, inl, inr, Bool, true, false, List, [], ◌∷◌, arith, Bool-cases,
  u8_mod,
}
use file_sender_byte_spark.Protocol.Types.{
  MessageType, Version, same_version, ParsedFrame, is_ok, Direction,
}
use file_sender_byte_spark.Protocol.Transcript.{
  Both, put, expected_role, HelloData, NegotiationData, TranscriptParser, field_number,
}
use file_sender_byte_spark.Protocol.Transcript.Hello.{hello_of, process_hello}
use file_sender_byte_spark.Protocol.Transcript.Negotiate.{
  equal_capabilities, same_negotiation, negotiation_of, negotiate_is_early_or_late,
  process_negotiate, ack_is_early_or_late, process_negotiate_ack,
}
use file_sender_byte_spark.Protocol.Transcript.Process.{
  process_transport_finished, process_ping, process_pong, dispatch,
}

pub record Pact : Type 0 where
  pub hellos : Both HelloData
  pub negotiation : NegotiationData
  pub acknowledged : Bool
  pub finished : Both Bool

abbrev pub pact : TranscriptParser → Pact
pact t = record {
  hellos = t.hellos;
  negotiation = t.negotiation;
  acknowledged = t.negotiation_acknowledged;
  finished = t.transport_finished;
}

-- The agreement that a message of type `m` leaves, and whether it was accepted.
pub data Moves (m : MessageType) (d : Direction) (frame : ParsedFrame) (before after : Pact)
    (accepted : Bool) : Type 0 where
  stays : after ≡ before → Moves m d frame before after accepted
  greets :
      m ≡ MessageType.hello
      → accepted ≡ true
      → after ≡ record before { hellos = put before.hellos d (hello_of frame) }
      → Moves m d frame before after accepted
  selects :
      m ≡ MessageType.negotiate
      → d ≡ Direction.initiator_to_responder
      → accepted ≡ true
      → before.negotiation.present ≡ false
      → after ≡ record before { negotiation = negotiation_of frame }
      → Moves m d frame before after accepted
  acknowledges :
      m ≡ MessageType.negotiate_ack
      → d ≡ Direction.responder_to_initiator
      → accepted ≡ true
      → negotiation_of frame ≡ before.negotiation
      → after ≡ record before { acknowledged = true }
      → Moves m d frame before after accepted
  confirms :
      m ≡ MessageType.transport_finished
      → accepted ≡ true
      → field_number frame 1 % u8_mod ≡ expected_role d
      → after ≡ record before { finished = put before.finished d true }
      → Moves m d frame before after accepted

hello_taken :
    (d : Direction) (frame : ParsedFrame) (t : TranscriptParser)
    → is_ok (process_hello d frame t).1 ≡ true
    → (pact (process_hello d frame t).0
        ≡ record (pact t) { hellos = put t.hellos d (hello_of frame) })
unfolding process_hello
hello_taken Direction.initiator_to_responder frame t ok = ground arith
hello_taken Direction.responder_to_initiator frame t ok = ground arith

hello_refused :
    (d : Direction) (frame : ParsedFrame) (t : TranscriptParser)
    → is_ok (process_hello d frame t).1 ≡ false
    → pact (process_hello d frame t).0 ≡ pact t
unfolding process_hello
hello_refused d frame t bad = ground arith

process_hello-Moves :
    (d : Direction) (frame : ParsedFrame) (t : TranscriptParser)
    → Moves MessageType.hello d frame
        (pact t)
        (pact (process_hello d frame t).0)
        (is_ok (process_hello d frame t).1)
process_hello-Moves d frame t = elim (Bool-cases (is_ok (process_hello d frame t).1)) [
  | inl ok ↦ Moves.greets refl ok (hello_taken d frame t ok)
  | inr bad ↦ Moves.stays (hello_refused d frame t bad)
]

negotiate_taken :
    (d : Direction) (frame : ParsedFrame) (t : TranscriptParser)
    → is_ok (process_negotiate d frame t).1 ≡ true
    → (d ≡ Direction.initiator_to_responder)
      × (t.negotiation.present ≡ false)
      × (pact (process_negotiate d frame t).0
          ≡ record (pact t) { negotiation = negotiation_of frame })
unfolding process_negotiate negotiate_is_early_or_late
negotiate_taken d frame t ok = ground arith

negotiate_refused :
    (d : Direction) (frame : ParsedFrame) (t : TranscriptParser)
    → is_ok (process_negotiate d frame t).1 ≡ false
    → pact (process_negotiate d frame t).0 ≡ pact t
unfolding process_negotiate
negotiate_refused d frame t bad = ground arith

process_negotiate-Moves :
    (d : Direction) (frame : ParsedFrame) (t : TranscriptParser)
    → Moves MessageType.negotiate d frame
        (pact t)
        (pact (process_negotiate d frame t).0)
        (is_ok (process_negotiate d frame t).1)
process_negotiate-Moves d frame t = elim (Bool-cases (is_ok (process_negotiate d frame t).1)) [
  | inl ok ↦
      let (way, fresh, after) = negotiate_taken d frame t ok in
      Moves.selects refl way ok fresh after
  | inr bad ↦ Moves.stays (negotiate_refused d frame t bad)
]

equal_capabilities-eq : (xs ys : List ℕ) → equal_capabilities xs ys ≡ true → xs ≡ ys
unfolding equal_capabilities
equal_capabilities-eq [] [] h = refl
equal_capabilities-eq [] (y ∷ ys) h = cc
equal_capabilities-eq (x ∷ xs) [] h = cc
equal_capabilities-eq (x ∷ xs) (y ∷ ys) h = ground (arith, equal_capabilities-eq xs ys)

same_version-eq : (a b : Version) → same_version a b ≡ true → a ≡ b
same_version-eq a b h = ground arith

same_negotiation-eq :
    (a b : NegotiationData) → a.present ≡ b.present → same_negotiation a b ≡ true → a ≡ b
unfolding same_negotiation
same_negotiation-eq a b p h = ground (
  arith,
  same_version-eq a.selected_version b.selected_version,
  equal_capabilities-eq a.capabilities b.capabilities,
)

made : (frame : ParsedFrame) → (negotiation_of frame).present ≡ true
unfolding negotiation_of
made frame = refl

ack_taken :
    (d : Direction) (frame : ParsedFrame) (t : TranscriptParser)
    → is_ok (process_negotiate_ack d frame t).1 ≡ true
    → (d ≡ Direction.responder_to_initiator)
      × (t.negotiation.present ≡ true)
      × (same_negotiation (negotiation_of frame) t.negotiation ≡ true)
      × (pact (process_negotiate_ack d frame t).0 ≡ record (pact t) { acknowledged = true })
unfolding process_negotiate_ack ack_is_early_or_late
ack_taken d frame t ok = ground arith

ack_refused :
    (d : Direction) (frame : ParsedFrame) (t : TranscriptParser)
    → is_ok (process_negotiate_ack d frame t).1 ≡ false
    → pact (process_negotiate_ack d frame t).0 ≡ pact t
unfolding process_negotiate_ack
ack_refused d frame t bad = ground arith

process_negotiate_ack-Moves :
    (d : Direction) (frame : ParsedFrame) (t : TranscriptParser)
    → Moves MessageType.negotiate_ack d frame
        (pact t)
        (pact (process_negotiate_ack d frame t).0)
        (is_ok (process_negotiate_ack d frame t).1)
process_negotiate_ack-Moves d frame t =
    elim (Bool-cases (is_ok (process_negotiate_ack d frame t).1)) [
      | inl ok ↦
          let (way, present, same, after) = ack_taken d frame t ok in
          Moves.acknowledges refl way ok
            (same_negotiation-eq (negotiation_of frame) t.negotiation (made frame ∙ sym present)
              same)
            after
      | inr bad ↦ Moves.stays (ack_refused d frame t bad)
    ]

finished_taken :
    (d : Direction) (frame : ParsedFrame) (t : TranscriptParser)
    → is_ok (process_transport_finished d frame t).1 ≡ true
    → (field_number frame 1 % u8_mod ≡ expected_role d)
      × (pact (process_transport_finished d frame t).0
          ≡ record (pact t) { finished = put t.transport_finished d true })
unfolding process_transport_finished
finished_taken d frame t ok = ground arith

finished_refused :
    (d : Direction) (frame : ParsedFrame) (t : TranscriptParser)
    → is_ok (process_transport_finished d frame t).1 ≡ false
    → pact (process_transport_finished d frame t).0 ≡ pact t
unfolding process_transport_finished
finished_refused d frame t bad = ground arith

process_transport_finished-Moves :
    (d : Direction) (frame : ParsedFrame) (t : TranscriptParser)
    → Moves MessageType.transport_finished d frame
        (pact t)
        (pact (process_transport_finished d frame t).0)
        (is_ok (process_transport_finished d frame t).1)
process_transport_finished-Moves d frame t =
    elim (Bool-cases (is_ok (process_transport_finished d frame t).1)) [
      | inl ok ↦
          let (role, after) = finished_taken d frame t ok in Moves.confirms refl ok role after
      | inr bad ↦ Moves.stays (finished_refused d frame t bad)
    ]

ping_pact :
    (d : Direction) (frame : ParsedFrame) (t : TranscriptParser)
    → pact (process_ping d frame t).0 ≡ pact t
unfolding process_ping
ping_pact d frame t = ground arith

pong_pact :
    (d : Direction) (frame : ParsedFrame) (t : TranscriptParser)
    → pact (process_pong d frame t).0 ≡ pact t
unfolding process_pong
pong_pact d frame t = ground arith

pub dispatch-Moves :
    (m : MessageType) (d : Direction) (frame : ParsedFrame) (t : TranscriptParser)
    → Moves m d frame (pact t) (pact (dispatch m d frame t).0) (is_ok (dispatch m d frame t).1)
unfolding dispatch
dispatch-Moves MessageType.hello d frame t = process_hello-Moves d frame t
dispatch-Moves MessageType.negotiate d frame t = process_negotiate-Moves d frame t
dispatch-Moves MessageType.negotiate_ack d frame t = process_negotiate_ack-Moves d frame t
dispatch-Moves MessageType.transport_finished d frame t = process_transport_finished-Moves d frame t
dispatch-Moves MessageType.ping d frame t = Moves.stays (ping_pact d frame t)
dispatch-Moves MessageType.pong d frame t = Moves.stays (pong_pact d frame t)
dispatch-Moves m d frame t = Moves.stays (ground arith)

-- ===== src/Protocol/Transcript/History.antt =====
-- Which frames of a history made the agreement of a transcript of native/src/protocol/v1_parser.cpp.
use file_sender_byte_spark.Prelude.{
  ℕ, ◌%◌, ◌≡◌, ◌⊎◌, refl, sym, ap, ◌∙◌, inl, inr, Bool, true, false, List, [], ◌∷◌, arith, u8_mod,
}
use file_sender_byte_spark.Protocol.Types.{MessageType, ParsedFrame, is_ok, Direction}
use file_sender_byte_spark.Protocol.Transcript.{
  at, expected_role, HelloData, NegotiationData, TranscriptParser, new_transcript, field_number,
}
use file_sender_byte_spark.Protocol.Transcript.Hello.{hello_of}
use file_sender_byte_spark.Protocol.Transcript.Negotiate.{negotiation_of}
use file_sender_byte_spark.Protocol.Transcript.Process.{process}
use file_sender_byte_spark.Protocol.Transcript.Invariant.{IsSound, new_transcript-IsSound}
use file_sender_byte_spark.Protocol.Transcript.Run.{process_all, process-IsSound}
use file_sender_byte_spark.Protocol.Transcript.Moves.{
  Pact, pact, Moves, stays, greets, selects, acknowledges, confirms,
}
use file_sender_byte_spark.Protocol.Transcript.Steps.{sent_type, sent_frame, process-Moves}

-- A property of a message: its type, its direction and its fields.
abbrev pub MessageProperty : Type 1
MessageProperty = MessageType → Direction → ParsedFrame → Type 0

-- One of the frames, which a transcript in the state `t` processes in turn, was accepted and
-- carried such a message.
abbrev pub Happened : MessageProperty → TranscriptParser → List (Direction × List ℕ) → Type 0
Happened P t [] = ⊥
Happened P t ((d, bytes) ∷ frames) =
    ((is_ok (process d bytes t).1 ≡ true) × P (sent_type t bytes) d (sent_frame t bytes))
    ⊎ Happened P (process d bytes t).0 frames

abbrev pub IsHello : Direction → HelloData → MessageProperty
IsHello side hello m d frame = (m ≡ MessageType.hello) × (d ≡ side) × (hello_of frame ≡ hello)

abbrev pub IsSelection : NegotiationData → MessageProperty
IsSelection negotiation m d frame =
    (m ≡ MessageType.negotiate)
    × (d ≡ Direction.initiator_to_responder)
    × (negotiation_of frame ≡ negotiation)

abbrev pub IsAcknowledgement : NegotiationData → MessageProperty
IsAcknowledgement negotiation m d frame =
    (m ≡ MessageType.negotiate_ack)
    × (d ≡ Direction.responder_to_initiator)
    × (negotiation_of frame ≡ negotiation)

abbrev pub IsConfirmation : Direction → MessageProperty
IsConfirmation side m d frame =
    (m ≡ MessageType.transport_finished)
    × (d ≡ side)
    × (field_number frame 1 % u8_mod ≡ expected_role side)

-- What holds of the agreement at the end and did not hold at the start came with a message.
module _ (Q : Pact → Type 0) (P : MessageProperty)
    (back : (m : MessageType) (d : Direction) (frame : ParsedFrame) (t : TranscriptParser)
        (after : Pact) (accepted : Bool)
      → IsSound t
      → Moves m d frame (pact t) after accepted
      → Q after
      → Q (pact t) ⊎ ((accepted ≡ true) × P m d frame)) where
  track :
      (frames : List (Direction × List ℕ)) (t : TranscriptParser)
      → IsSound t
      → Q (pact (process_all frames t))
      → Q (pact t) ⊎ Happened P t frames
  unfolding process_all
  track [] t s q = inl q
  track ((d, bytes) ∷ frames) t s q =
      elim (track frames (process d bytes t).0 (process-IsSound d bytes t s) q) [
        | inr later ↦ inr (inr later)
        | inl now ↦
            elim (back (sent_type t bytes) d (sent_frame t bytes) t _ _ s (process-Moves d bytes t)
              now) [ inl before ↦ inl before | inr here ↦ inr (inl here) ]
      ]

abbrev HasHello : Direction → HelloData → Pact → Type 0
HasHello side hello p = (at p.hellos side ≡ hello) × (hello.present ≡ true)

hello_back :
    (side : Direction) (hello : HelloData) (m : MessageType) (d : Direction) (frame : ParsedFrame)
    (t : TranscriptParser) (after : Pact) (accepted : Bool)
    → IsSound t
    → Moves m d frame (pact t) after accepted
    → HasHello side hello after
    → HasHello side hello (pact t) ⊎ ((accepted ≡ true) × IsHello side hello m d frame)
hello_back Direction.initiator_to_responder hello m Direction.initiator_to_responder frame t after
      accepted s (greets type ok e) (h, p) =
    inr (ok, (type, refl, sym (ap (λ x. x.hellos.initiator) e) ∙ h))
hello_back Direction.initiator_to_responder hello m Direction.responder_to_initiator frame t after
      accepted s (greets type ok e) (h, p) =
    inl (sym (ap (λ x. x.hellos.initiator) e) ∙ h, p)
hello_back Direction.responder_to_initiator hello m Direction.initiator_to_responder frame t after
      accepted s (greets type ok e) (h, p) =
    inl (sym (ap (λ x. x.hellos.responder) e) ∙ h, p)
hello_back Direction.responder_to_initiator hello m Direction.responder_to_initiator frame t after
      accepted s (greets type ok e) (h, p) =
    inr (ok, (type, refl, sym (ap (λ x. x.hellos.responder) e) ∙ h))
hello_back side hello m d frame t after accepted s (stays e) (h, p) =
    inl (sym (ap (λ x. at x.hellos side) e) ∙ h, p)
hello_back side hello m d frame t after accepted s (selects type way ok fresh e) (h, p) =
    inl (sym (ap (λ x. at x.hellos side) e) ∙ h, p)
hello_back side hello m d frame t after accepted s (acknowledges type way ok same e) (h, p) =
    inl (sym (ap (λ x. at x.hellos side) e) ∙ h, p)
hello_back side hello m d frame t after accepted s (confirms type ok role e) (h, p) =
    inl (sym (ap (λ x. at x.hellos side) e) ∙ h, p)

abbrev HasSelection : NegotiationData → Pact → Type 0
HasSelection n p = (p.negotiation ≡ n) × (n.present ≡ true)

selection_back :
    (n : NegotiationData) (m : MessageType) (d : Direction) (frame : ParsedFrame)
    (t : TranscriptParser) (after : Pact) (accepted : Bool)
    → IsSound t
    → Moves m d frame (pact t) after accepted
    → HasSelection n after
    → HasSelection n (pact t) ⊎ ((accepted ≡ true) × IsSelection n m d frame)
selection_back n m d frame t after accepted s (selects type way ok fresh e) (h, p) =
    inr (ok, (type, way, sym (ap (λ x. x.negotiation) e) ∙ h))
selection_back n m d frame t after accepted s (stays e) (h, p) =
    inl (sym (ap (λ x. x.negotiation) e) ∙ h, p)
selection_back n m d frame t after accepted s (greets type ok e) (h, p) =
    inl (sym (ap (λ x. x.negotiation) e) ∙ h, p)
selection_back n m d frame t after accepted s (acknowledges type way ok same e) (h, p) =
    inl (sym (ap (λ x. x.negotiation) e) ∙ h, p)
selection_back n m d frame t after accepted s (confirms type ok role e) (h, p) =
    inl (sym (ap (λ x. x.negotiation) e) ∙ h, p)

abbrev HasAcknowledged : NegotiationData → Pact → Type 0
HasAcknowledged n p = (p.acknowledged ≡ true) × (p.negotiation ≡ n)

acknowledged_fresh :
    (t : TranscriptParser)
    → IsSound t
    → t.negotiation_acknowledged ≡ true
    → t.negotiation.present ≡ false
    → ⊥
acknowledged_fresh t s a f = ground (arith, s.acknowledged)

acknowledgement_back :
    (n : NegotiationData) (m : MessageType) (d : Direction) (frame : ParsedFrame)
    (t : TranscriptParser) (after : Pact) (accepted : Bool)
    → IsSound t
    → Moves m d frame (pact t) after accepted
    → HasAcknowledged n after
    → HasAcknowledged n (pact t) ⊎ ((accepted ≡ true) × IsAcknowledgement n m d frame)
acknowledgement_back n m d frame t after accepted s (acknowledges type way ok same e) (a, h) =
    inr (ok, (type, way, same ∙ sym (ap (λ x. x.negotiation) e) ∙ h))
acknowledgement_back n m d frame t after accepted s (selects type way ok fresh e) (a, h) =
    absurd (acknowledged_fresh t s (sym (ap (λ x. x.acknowledged) e) ∙ a) fresh)
acknowledgement_back n m d frame t after accepted s (stays e) (a, h) =
    inl (sym (ap (λ x. x.acknowledged) e) ∙ a, sym (ap (λ x. x.negotiation) e) ∙ h)
acknowledgement_back n m d frame t after accepted s (greets type ok e) (a, h) =
    inl (sym (ap (λ x. x.acknowledged) e) ∙ a, sym (ap (λ x. x.negotiation) e) ∙ h)
acknowledgement_back n m d frame t after accepted s (confirms type ok role e) (a, h) =
    inl (sym (ap (λ x. x.acknowledged) e) ∙ a, sym (ap (λ x. x.negotiation) e) ∙ h)

abbrev HasConfirmed : Direction → Pact → Type 0
HasConfirmed side p = at p.finished side ≡ true

confirmation_back :
    (side : Direction) (m : MessageType) (d : Direction) (frame : ParsedFrame)
    (t : TranscriptParser) (after : Pact) (accepted : Bool)
    → IsSound t
    → Moves m d frame (pact t) after accepted
    → HasConfirmed side after
    → HasConfirmed side (pact t) ⊎ ((accepted ≡ true) × IsConfirmation side m d frame)
confirmation_back Direction.initiator_to_responder m Direction.initiator_to_responder frame t after
      accepted s (confirms type ok role e) h =
    inr (ok, (type, refl, role))
confirmation_back Direction.initiator_to_responder m Direction.responder_to_initiator frame t after
      accepted s (confirms type ok role e) h =
    inl (sym (ap (λ x. x.finished.initiator) e) ∙ h)
confirmation_back Direction.responder_to_initiator m Direction.initiator_to_responder frame t after
      accepted s (confirms type ok role e) h =
    inl (sym (ap (λ x. x.finished.responder) e) ∙ h)
confirmation_back Direction.responder_to_initiator m Direction.responder_to_initiator frame t after
      accepted s (confirms type ok role e) h =
    inr (ok, (type, refl, role))
confirmation_back side m d frame t after accepted s (stays e) h =
    inl (sym (ap (λ x. at x.finished side) e) ∙ h)
confirmation_back side m d frame t after accepted s (greets type ok e) h =
    inl (sym (ap (λ x. at x.finished side) e) ∙ h)
confirmation_back side m d frame t after accepted s (selects type way ok fresh e) h =
    inl (sym (ap (λ x. at x.finished side) e) ∙ h)
confirmation_back side m d frame t after accepted s (acknowledges type way ok same e) h =
    inl (sym (ap (λ x. at x.finished side) e) ∙ h)

-- The agreement that a transcript has, message by message.
pub record IsMade (frames : List (Direction × List ℕ)) (start t : TranscriptParser) : Type 0 where
  pub greeted_i :
      Happened (IsHello Direction.initiator_to_responder t.hellos.initiator) start frames
  pub greeted_r :
      Happened (IsHello Direction.responder_to_initiator t.hellos.responder) start frames
  pub selected : Happened (IsSelection t.negotiation) start frames
  pub acknowledged : Happened (IsAcknowledgement t.negotiation) start frames
  pub confirmed_i : Happened (IsConfirmation Direction.initiator_to_responder) start frames
  pub confirmed_r : Happened (IsConfirmation Direction.responder_to_initiator) start frames

happened : {A B : Type 0} → A ⊎ B → (A → ⊥) → B
happened (inl a) n = absurd (n a)
happened (inr b) n = b

none_present : (b : Bool) → b ≡ true → b ≡ false → ⊥
none_present b t f = ground arith

module _ (frames : List (Direction × List ℕ)) where
  abbrev t : TranscriptParser
  t = process_all frames new_transcript

  greeted :
      (side : Direction)
      → (at t.hellos side).present ≡ true
      → Happened (IsHello side (at t.hellos side)) new_transcript frames
  greeted side p =
      happened
        (track (HasHello side (at t.hellos side)) (IsHello side (at t.hellos side))
          (hello_back side (at t.hellos side)) frames new_transcript new_transcript-IsSound
          (refl, p))
        (λ (same, present). none_present _ present (sym (ap (λ h. h.present) same) ∙ unsaid side))
    where
      unsaid : (side' : Direction) → (at new_transcript.hellos side').present ≡ false
      unsaid Direction.initiator_to_responder = refl
      unsaid Direction.responder_to_initiator = refl

  confirmed :
      (side : Direction)
      → at t.transport_finished side ≡ true
      → Happened (IsConfirmation side) new_transcript frames
  confirmed side p =
      happened
        (track (HasConfirmed side) (IsConfirmation side) (confirmation_back side) frames
          new_transcript new_transcript-IsSound p)
        (λ h. none_present _ h (unsent side))
    where
      unsent : (side' : Direction) → at new_transcript.transport_finished side' ≡ false
      unsent Direction.initiator_to_responder = refl
      unsent Direction.responder_to_initiator = refl

  pub process_all-IsMade :
      t.hellos.initiator.present ≡ true
      → t.hellos.responder.present ≡ true
      → t.negotiation.present ≡ true
      → t.negotiation_acknowledged ≡ true
      → t.transport_finished.initiator ≡ true
      → t.transport_finished.responder ≡ true
      → IsMade frames new_transcript t
  process_all-IsMade hi hr n a ci cr = record {
    greeted_i = greeted Direction.initiator_to_responder hi;
    greeted_r = greeted Direction.responder_to_initiator hr;
    selected =
        happened
          (track (HasSelection t.negotiation) (IsSelection t.negotiation)
            (selection_back t.negotiation) frames new_transcript new_transcript-IsSound (refl, n))
          (λ (same, present). none_present _ present (sym (ap (λ x. x.present) same)));
    acknowledged =
        happened
          (track (HasAcknowledged t.negotiation) (IsAcknowledgement t.negotiation)
            (acknowledgement_back t.negotiation) frames new_transcript new_transcript-IsSound
            (a, refl))
          (λ (done, same). none_present _ done refl);
    confirmed_i = confirmed Direction.initiator_to_responder ci;
    confirmed_r = confirmed Direction.responder_to_initiator cr;
  }

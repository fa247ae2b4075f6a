-- ===== src/Protocol/Transcript/Negotiate.antt =====
-- `ProcessNegotiate` and `ProcessNegotiateAck` of `TranscriptParser`.
use file_sender_byte_spark.Prelude.{
  ℕ, zero, suc, ◌+◌, ◌%◌, Bool, true, false, ◌&&◌, ◌||◌, not, List, [], ◌∷◌, length, all, ltb, ◌==◌,
  ◌!=◌, if◌then◌else◌, min, u8_mod, u16_mod, u32_mod,
}
use file_sender_byte_spark.Protocol.Types.{
  Version, same_version, version_less, ParsedFrame, ErrorCode, is_ok, Direction,
}
use file_sender_byte_spark.Protocol.Transcript.{
  HelloData, NegotiationData, TranscriptParser, field_number, collect, Outcome, refuse,
}
use file_sender_byte_spark.Protocol.Transcript.Hello.{contains, strictly_sorted}

unfoldable pub version_maximum : Version → Version → Version
version_maximum left right = if version_less left right then right else left

unfoldable pub version_minimum : Version → Version → Version
version_minimum left right = if version_less left right then left else right

-- The loop over both capability lists; each round leaves one of them shorter.
unfoldable pub intersect : ℕ → List ℕ → List ℕ → List ℕ
intersect fuel [] ys = []
intersect fuel (x ∷ xs) [] = []
intersect zero (x ∷ xs) (y ∷ ys) = []
intersect (suc fuel) (x ∷ xs) (y ∷ ys) = elim (x == y) [
  | true ↦ x ∷ intersect fuel xs ys
  | false ↦ elim (ltb x y) [
    | true ↦ intersect fuel xs (y ∷ ys)
    | false ↦ intersect fuel (x ∷ xs) ys
  ]
]

unfoldable pub intersection : List ℕ → List ℕ → List ℕ
intersection xs ys = intersect (length xs + length ys) xs ys

-- `EqualCapabilities`
unfoldable pub equal_capabilities : List ℕ → List ℕ → Bool
equal_capabilities [] [] = true
equal_capabilities (x ∷ xs) (y ∷ ys) = x == y && equal_capabilities xs ys
equal_capabilities _ _ = false

-- The fields of NEGOTIATE and NEGOTIATE_ACK, with the casts of the source.
unfoldable pub negotiation_of : ParsedFrame → NegotiationData
negotiation_of frame = record {
  present = true;
  selected_version = record {
    major = field_number frame 1 % u8_mod;
    minor = field_number frame 2 % u8_mod;
  };
  capabilities = collect u32_mod 3 frame.body_fields;
  effective_max_body = field_number frame 4 % u32_mod;
  effective_max_in_flight = field_number frame 5 % u32_mod;
  effective_max_streams = field_number frame 6 % u16_mod;
}

-- The checks of the selection against the two HELLOs.
unfoldable pub selection_error : HelloData → HelloData → NegotiationData → ErrorCode
selection_error i r n =
    if version_less (version_minimum i.maximum r.maximum) (version_maximum i.minimum r.minimum)
    then ErrorCode.unsupported_version
    else if not (same_version n.selected_version (version_minimum i.maximum r.maximum))
    then ErrorCode.downgrade_detected
    else if not
          (all (contains (intersection i.capabilities r.capabilities)) i.required_capabilities)
        || not (all (contains (intersection i.capabilities r.capabilities)) r.required_capabilities)
    then ErrorCode.unsupported_capability
    else if not (equal_capabilities n.capabilities (intersection i.capabilities r.capabilities))
    then ErrorCode.unsupported_capability
    else if n.effective_max_body != min i.receive_max_body r.receive_max_body
        || n.effective_max_in_flight != min i.receive_max_in_flight r.receive_max_in_flight
        || n.effective_max_streams != min i.receive_max_streams r.receive_max_streams
    then ErrorCode.malformed_message
    else ErrorCode.none

unfoldable pub negotiation_error : ParsedFrame → HelloData → HelloData → NegotiationData → ErrorCode
negotiation_error frame i r n =
    if field_number frame 1 == 0 || ltb 255 (field_number frame 1) || ltb 255 (field_number frame 2)
    then ErrorCode.malformed_message
    else if not (strictly_sorted n.capabilities)
    then ErrorCode.malformed_message
    else selection_error i r n

-- Whether NEGOTIATE may come now, from this direction.
unfoldable pub negotiate_is_early_or_late : Direction → TranscriptParser → Bool
negotiate_is_early_or_late Direction.responder_to_initiator t = true
negotiate_is_early_or_late Direction.initiator_to_responder t =
    not t.hellos.initiator.present || not t.hellos.responder.present || t.negotiation.present

unfoldable pub process_negotiate : Direction → ParsedFrame → TranscriptParser → Outcome
process_negotiate direction frame t =
    let e : ErrorCode =
      negotiation_error frame t.hellos.initiator t.hellos.responder (negotiation_of frame) in
    if negotiate_is_early_or_late direction t
    then refuse ErrorCode.state_violation t
    else if not (is_ok e)
    then refuse e t
    else (record t { negotiation = negotiation_of frame }, ErrorCode.none)

unfoldable pub ack_is_early_or_late : Direction → TranscriptParser → Bool
ack_is_early_or_late Direction.initiator_to_responder t = true
ack_is_early_or_late Direction.responder_to_initiator t =
    not t.negotiation.present || t.negotiation_acknowledged

unfoldable pub same_negotiation : NegotiationData → NegotiationData → Bool
same_negotiation a b =
    same_version a.selected_version b.selected_version
    && equal_capabilities a.capabilities b.capabilities
    && a.effective_max_body == b.effective_max_body
    && a.effective_max_in_flight == b.effective_max_in_flight
    && a.effective_max_streams == b.effective_max_streams

unfoldable pub process_negotiate_ack : Direction → ParsedFrame → TranscriptParser → Outcome
process_negotiate_ack direction frame t =
    if ack_is_early_or_late direction t
    then refuse ErrorCode.state_violation t
    else if ltb 255 (field_number frame 1) || ltb 255 (field_number frame 2)
    then refuse ErrorCode.malformed_message t
    else if not (same_negotiation (negotiation_of frame) t.negotiation)
    then refuse ErrorCode.malformed_message t
    else (record t { negotiation_acknowledged = true }, ErrorCode.none)

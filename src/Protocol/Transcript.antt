-- ===== src/Protocol/Transcript.antt =====
-- `TranscriptParser` of native/src/protocol/v1_parser.cpp: the negotiation of one connection as
-- both directions send it. This file has the state; the handlers are in Transcript/Hello.antt,
-- Transcript/Negotiate.antt and Transcript/Process.antt. The branches for a `Direction` that is
-- neither of the two are left out.
pub mod Hello
pub mod Negotiate
pub mod Process
pub mod Invariant
pub mod Capabilities
pub mod Run
pub mod Replay
pub mod Moves
pub mod Steps
pub mod History
pub mod Binding
use file_sender_byte_spark.Prelude.{
  ℕ, zero, suc, ◌+◌, ◌/◌, ◌%◌, Bool, true, false, ◌&&◌, ◌||◌, not, Option, some, List, [], ◌∷◌,
  ◌++◌, length, any, all, leb, ltb, ◌==◌, ◌!=◌, if◌then◌else◌, min, u64_max, u32_mod, u16_mod,
}
use file_sender_byte_spark.Protocol.Types.{
  MessageType, Version, version_1_0, same_version, version_less, FrameHeader, FieldView,
  ParsedFrame, ParseResult, ErrorCode, is_ok, Direction, max_body_length,
}
use file_sender_byte_spark.Protocol.Bytes.{decode_unsigned}
use file_sender_byte_spark.Protocol.Tlv.{find_first}
use file_sender_byte_spark.Protocol.Frame.{parse_frame_envelope, parse_frame_body}

abbrev pub base_transfer_v1 : ℕ
base_transfer_v1 = 0x00010001

abbrev pub max_in_flight : ℕ
max_in_flight = 67108864

abbrev pub max_streams : ℕ
max_streams = 32

-- A `std::array` of two, indexed by `DirectionIndex`.
pub record Both {ℓ} (A : Type ℓ) : Type ℓ where
  pub initiator : A
  pub responder : A

abbrev pub at {ℓ} : {A : Type ℓ} → Both A → Direction → A
at b Direction.initiator_to_responder = b.initiator
at b Direction.responder_to_initiator = b.responder

abbrev pub put {ℓ} : {A : Type ℓ} → Both A → Direction → A → Both A
put b Direction.initiator_to_responder a = record b { initiator = a }
put b Direction.responder_to_initiator a = record b { responder = a }

abbrev pub opposite : Direction → Direction
opposite Direction.initiator_to_responder = Direction.responder_to_initiator
opposite Direction.responder_to_initiator = Direction.initiator_to_responder

-- `index == 0 ? 1 : 2`
abbrev pub expected_role : Direction → ℕ
expected_role Direction.initiator_to_responder = 1
expected_role Direction.responder_to_initiator = 2

-- An array of capabilities with its count is a list.
pub record HelloData : Type 0 where
  pub present : Bool
  pub minimum : Version
  pub maximum : Version
  pub role : ℕ
  pub capabilities : List ℕ
  pub required_capabilities : List ℕ
  pub receive_max_body : ℕ
  pub receive_max_in_flight : ℕ
  pub receive_max_streams : ℕ

pub record NegotiationData : Type 0 where
  pub present : Bool
  pub selected_version : Version
  pub capabilities : List ℕ
  pub effective_max_body : ℕ
  pub effective_max_in_flight : ℕ
  pub effective_max_streams : ℕ

pub record TranscriptParser : Type 0 where
  pub next_message_id : Both ℕ
  pub message_id_exhausted : Both Bool
  pub hellos : Both HelloData
  pub negotiation : NegotiationData
  pub negotiation_acknowledged : Bool
  pub transport_finished : Both Bool
  pub binding_frames_complete : Bool
  pub pong_expected : Both Bool
  pub expected_pong_token : Both ℕ
  pub terminal : Bool

abbrev pub no_hello : HelloData
no_hello = record {
  present = false;
  minimum = version_1_0;
  maximum = version_1_0;
  role = 0;
  capabilities = [];
  required_capabilities = [];
  receive_max_body = 0;
  receive_max_in_flight = 0;
  receive_max_streams = 0;
}

abbrev pub both {ℓ} : {A : Type ℓ} → A → Both A
both a = record { initiator = a; responder = a }

abbrev pub new_transcript : TranscriptParser
new_transcript = record {
  next_message_id = both 1;
  message_id_exhausted = both false;
  hellos = both no_hello;
  negotiation = record {
    present = false;
    selected_version = version_1_0;
    capabilities = [];
    effective_max_body = 0;
    effective_max_in_flight = 0;
    effective_max_streams = 0;
  };
  negotiation_acknowledged = false;
  transport_finished = both false;
  binding_frames_complete = false;
  pong_expected = both false;
  expected_pong_token = both 0;
  terminal = false;
}

-- `DecodeUnsigned(*frame.body_fields.FindFirst(id))`. The field is required by the schema; where
-- it is missing the source has no behaviour, and the number here is 0.
unfoldable pub field_number : ParsedFrame → ℕ → ℕ
field_number frame id = elim (find_first frame.body_fields id) [
  | Option.none ↦ 0
  | some f ↦ decode_unsigned f.value
]

-- The loop that collects the numbers of a repeated field.
unfoldable pub collect : ℕ → ℕ → List FieldView → List ℕ
collect modulus id [] = []
collect modulus id (f ∷ fs) =
    if f.id == id
    then (decode_unsigned f.value % modulus) ∷ collect modulus id fs
    else collect modulus id fs

-- A handler's new state and what it answers.
abbrev pub Outcome : Type 0
Outcome = TranscriptParser × ErrorCode

abbrev pub refuse : ErrorCode → TranscriptParser → Outcome
refuse e t = (t, e)

-- ===== src/Protocol/Schema.antt =====
-- The field schemas of native/src/protocol/v1_parser.cpp, one for each message type.
use file_sender_byte_spark.Prelude.{
  ℕ, Bool, true, false, Option, none, some, List, [], ◌∷◌, ◌==◌, if◌then◌else◌,
}
use file_sender_byte_spark.Protocol.Types.{WireType, MessageType}

pub data Presence : Type 0 where
  required optional conditional : Presence

pub record FieldRule : Type 0 where
  pub id : ℕ
  pub wire_type : WireType
  pub presence : Presence
  pub repeated : Bool
  pub minimum_length : ℕ
  pub maximum_length : ℕ

abbrev pub max_u32 : ℕ
max_u32 = 4294967295

abbrev pub max_chunk_data : ℕ
max_chunk_data = 1048000

abbrev pub required_span : ℕ → WireType → Bool → ℕ → ℕ → FieldRule
required_span id wire_type repeated lo hi = record {
  id = id;
  wire_type = wire_type;
  presence = Presence.required;
  repeated = repeated;
  minimum_length = lo;
  maximum_length = hi;
}

-- `Required` with the default arguments.
abbrev pub required_field : ℕ → WireType → FieldRule
required_field id wire_type = required_span id wire_type false 0 max_u32

abbrev pub repeated_field : ℕ → WireType → FieldRule
repeated_field id wire_type = required_span id wire_type true 0 max_u32

abbrev pub optional_field : ℕ → WireType → ℕ → ℕ → FieldRule
optional_field id wire_type lo hi = record {
  id = id;
  wire_type = wire_type;
  presence = Presence.optional;
  repeated = false;
  minimum_length = lo;
  maximum_length = hi;
}

abbrev pub conditional_field : ℕ → WireType → ℕ → ℕ → FieldRule
conditional_field id wire_type lo hi = record {
  id = id;
  wire_type = wire_type;
  presence = Presence.conditional;
  repeated = false;
  minimum_length = lo;
  maximum_length = hi;
}

abbrev pub hello_schema : List FieldRule
hello_schema =
    required_field 1 WireType.u16
    ∷ required_field 2 WireType.u16
    ∷ required_field 3 WireType.u16
    ∷ required_field 4 WireType.u16
    ∷ required_field 5 WireType.u8
    ∷ repeated_field 6 WireType.u32
    ∷ repeated_field 7 WireType.u32
    ∷ required_field 8 WireType.u32
    ∷ required_field 9 WireType.u32
    ∷ required_field 10 WireType.u16
    ∷ []

abbrev pub negotiate_schema : List FieldRule
negotiate_schema =
    required_field 1 WireType.u16
    ∷ required_field 2 WireType.u16
    ∷ repeated_field 3 WireType.u32
    ∷ required_field 4 WireType.u32
    ∷ required_field 5 WireType.u32
    ∷ required_field 6 WireType.u16
    ∷ []

abbrev pub error_schema : List FieldRule
error_schema =
    required_field 1 WireType.u16
    ∷ required_field 2 WireType.bool
    ∷ optional_field 3 WireType.bool 0 max_u32
    ∷ optional_field 4 WireType.u64 0 max_u32
    ∷ optional_field 5 WireType.u32 0 max_u32
    ∷ optional_field 6 WireType.utf8 0 256
    ∷ []

abbrev pub ping_pong_schema : List FieldRule
ping_pong_schema = required_field 1 WireType.u64 ∷ []

abbrev pub go_away_schema : List FieldRule
go_away_schema = required_field 1 WireType.u16 ∷ optional_field 2 WireType.u32 0 max_u32 ∷ []

abbrev pub transport_finished_schema : List FieldRule
transport_finished_schema =
    required_field 1 WireType.u8 ∷ required_span 2 WireType.bytes false 1 64 ∷ []

abbrev pub transfer_offer_schema : List FieldRule
transfer_offer_schema =
    required_span 1 WireType.bytes false 16 16
    ∷ required_field 2 WireType.u32
    ∷ required_field 3 WireType.u64
    ∷ required_span 4 WireType.bytes false 16 64
    ∷ optional_field 5 WireType.utf8 1 255
    ∷ []

abbrev pub manifest_entry_schema : List FieldRule
manifest_entry_schema =
    required_span 1 WireType.bytes false 16 16
    ∷ required_field 2 WireType.u32
    ∷ required_field 3 WireType.u8
    ∷ required_span 4 WireType.utf8 false 1 1024
    ∷ required_field 5 WireType.u64
    ∷ conditional_field 6 WireType.bytes 16 64
    ∷ optional_field 7 WireType.u64 0 max_u32
    ∷ []

abbrev pub manifest_end_schema : List FieldRule
manifest_end_schema =
    required_span 1 WireType.bytes false 16 16
    ∷ required_field 2 WireType.u32
    ∷ required_field 3 WireType.u64
    ∷ required_span 4 WireType.bytes false 16 64
    ∷ []

abbrev pub transfer_accept_schema : List FieldRule
transfer_accept_schema =
    required_span 1 WireType.bytes false 16 16
    ∷ required_field 2 WireType.u32
    ∷ required_field 3 WireType.u32
    ∷ conditional_field 4 WireType.bytes 16 256
    ∷ conditional_field 5 WireType.u32 0 max_u32
    ∷ []

abbrev pub transfer_reject_schema : List FieldRule
transfer_reject_schema =
    required_span 1 WireType.bytes false 16 16
    ∷ required_field 2 WireType.u16
    ∷ required_field 3 WireType.bool
    ∷ optional_field 4 WireType.u32 0 max_u32
    ∷ optional_field 5 WireType.utf8 0 256
    ∷ []

abbrev pub file_begin_schema : List FieldRule
file_begin_schema =
    required_span 1 WireType.bytes false 16 16
    ∷ required_field 2 WireType.u32
    ∷ required_field 3 WireType.u64
    ∷ required_field 4 WireType.u32
    ∷ []

abbrev pub file_chunk_schema : List FieldRule
file_chunk_schema =
    required_span 1 WireType.bytes false 16 16
    ∷ required_field 2 WireType.u32
    ∷ required_field 3 WireType.u64
    ∷ required_span 4 WireType.bytes false 1 max_chunk_data
    ∷ required_span 5 WireType.bytes false 16 64
    ∷ []

abbrev pub chunk_ack_schema : List FieldRule
chunk_ack_schema =
    required_span 1 WireType.bytes false 16 16
    ∷ required_field 2 WireType.u32
    ∷ required_field 3 WireType.u64
    ∷ required_field 4 WireType.u32
    ∷ []

abbrev pub file_end_schema : List FieldRule
file_end_schema =
    required_span 1 WireType.bytes false 16 16
    ∷ required_field 2 WireType.u32
    ∷ required_field 3 WireType.u64
    ∷ required_span 4 WireType.bytes false 16 64
    ∷ []

abbrev pub file_commit_schema : List FieldRule
file_commit_schema =
    required_span 1 WireType.bytes false 16 16
    ∷ required_field 2 WireType.u32
    ∷ required_field 3 WireType.u64
    ∷ []

abbrev pub transfer_complete_schema : List FieldRule
transfer_complete_schema =
    required_span 1 WireType.bytes false 16 16 ∷ required_span 2 WireType.bytes false 16 64 ∷ []

abbrev pub cancel_schema : List FieldRule
cancel_schema =
    required_span 1 WireType.bytes false 16 16
    ∷ required_field 2 WireType.u16
    ∷ optional_field 3 WireType.utf8 0 256
    ∷ []

abbrev pub cancel_ack_schema : List FieldRule
cancel_ack_schema = required_span 1 WireType.bytes false 16 16 ∷ required_field 2 WireType.u16 ∷ []

abbrev pub resume_request_schema : List FieldRule
resume_request_schema =
    required_span 1 WireType.bytes false 16 16
    ∷ required_span 2 WireType.bytes false 16 64
    ∷ required_span 3 WireType.bytes false 16 256
    ∷ []

abbrev pub resume_state_schema : List FieldRule
resume_state_schema =
    required_span 1 WireType.bytes false 16 16
    ∷ required_field 2 WireType.u32
    ∷ required_field 3 WireType.u64
    ∷ required_field 4 WireType.bool
    ∷ conditional_field 5 WireType.bytes 16 64
    ∷ []

abbrev pub resume_end_schema : List FieldRule
resume_end_schema =
    required_span 1 WireType.bytes false 16 16
    ∷ required_field 2 WireType.u32
    ∷ required_field 3 WireType.u16
    ∷ []

unfoldable pub schema_for : MessageType → List FieldRule
schema_for MessageType.unset = []
schema_for MessageType.hello = hello_schema
schema_for MessageType.negotiate = negotiate_schema
schema_for MessageType.negotiate_ack = negotiate_schema
schema_for MessageType.error = error_schema
schema_for MessageType.ping = ping_pong_schema
schema_for MessageType.pong = ping_pong_schema
schema_for MessageType.go_away = go_away_schema
schema_for MessageType.transport_finished = transport_finished_schema
schema_for MessageType.transfer_offer = transfer_offer_schema
schema_for MessageType.manifest_entry = manifest_entry_schema
schema_for MessageType.manifest_end = manifest_end_schema
schema_for MessageType.transfer_accept = transfer_accept_schema
schema_for MessageType.transfer_reject = transfer_reject_schema
schema_for MessageType.file_begin = file_begin_schema
schema_for MessageType.file_chunk = file_chunk_schema
schema_for MessageType.chunk_ack = chunk_ack_schema
schema_for MessageType.file_end = file_end_schema
schema_for MessageType.file_commit = file_commit_schema
schema_for MessageType.transfer_complete = transfer_complete_schema
schema_for MessageType.transfer_complete_ack = transfer_complete_schema
schema_for MessageType.cancel = cancel_schema
schema_for MessageType.cancel_ack = cancel_ack_schema
schema_for MessageType.resume_request = resume_request_schema
schema_for MessageType.resume_state = resume_state_schema
schema_for MessageType.resume_end = resume_end_schema

unfoldable pub find_rule : List FieldRule → ℕ → Option FieldRule
find_rule [] id = none
find_rule (rule ∷ schema) id = if rule.id == id then some rule else find_rule schema id

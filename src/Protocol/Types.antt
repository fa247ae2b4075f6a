-- ===== src/Protocol/Types.antt =====
-- The enumerations, limits and records of native/include/xnn_transfer/protocol/v1_parser.hpp.
use file_sender_byte_spark.Prelude.{
  ℕ, Bool, true, false, ◌&&◌, Option, some, List, [], ◌==◌, ltb, leb, if◌then◌else◌, ◌||◌,
}

abbrev pub fixed_header_length : ℕ
fixed_header_length = 28

abbrev pub max_header_length : ℕ
max_header_length = 256

abbrev pub max_body_length : ℕ
max_body_length = 1048576

abbrev pub max_fields : ℕ
max_fields = 256

pub data WireType : Type 0 where
  u8 u16 u32 u64 bytes utf8 bool : WireType

unfoldable pub wire_code : WireType → ℕ
wire_code WireType.u8 = 1
wire_code WireType.u16 = 2
wire_code WireType.u32 = 3
wire_code WireType.u64 = 4
wire_code WireType.bytes = 5
wire_code WireType.utf8 = 6
wire_code WireType.bool = 7

-- `IsKnownWireType`, and the cast behind it.
unfoldable pub wire_of : ℕ → Option WireType
wire_of value =
    if value == 1
    then some WireType.u8
    else if value == 2
    then some WireType.u16
    else if value == 3
    then some WireType.u32
    else if value == 4
    then some WireType.u64
    else if value == 5
    then some WireType.bytes
    else if value == 6
    then some WireType.utf8
    else if value == 7
    then some WireType.bool
    else Option.none

-- `unset` is the value 0 of a header that nothing was read into; it is no message of the protocol.
pub data MessageType : Type 0 where
  unset : MessageType
  hello negotiate negotiate_ack error ping pong go_away transport_finished transfer_offer
        manifest_entry manifest_end transfer_accept transfer_reject file_begin file_chunk chunk_ack
        file_end file_commit transfer_complete transfer_complete_ack cancel cancel_ack
        resume_request resume_state resume_end :
      MessageType

unfoldable pub message_code : MessageType → ℕ
message_code MessageType.unset = 0
message_code MessageType.hello = 0x0001
message_code MessageType.negotiate = 0x0002
message_code MessageType.negotiate_ack = 0x0003
message_code MessageType.error = 0x0004
message_code MessageType.ping = 0x0005
message_code MessageType.pong = 0x0006
message_code MessageType.go_away = 0x0007
message_code MessageType.transport_finished = 0x0008
message_code MessageType.transfer_offer = 0x0100
message_code MessageType.manifest_entry = 0x0101
message_code MessageType.manifest_end = 0x0102
message_code MessageType.transfer_accept = 0x0103
message_code MessageType.transfer_reject = 0x0104
message_code MessageType.file_begin = 0x0110
message_code MessageType.file_chunk = 0x0111
message_code MessageType.chunk_ack = 0x0112
message_code MessageType.file_end = 0x0113
message_code MessageType.file_commit = 0x0114
message_code MessageType.transfer_complete = 0x0120
message_code MessageType.transfer_complete_ack = 0x0121
message_code MessageType.cancel = 0x0130
message_code MessageType.cancel_ack = 0x0131
message_code MessageType.resume_request = 0x0140
message_code MessageType.resume_state = 0x0141
message_code MessageType.resume_end = 0x0142

-- `IsKnownMessageType`, and the cast behind it.
unfoldable pub message_of : ℕ → Option MessageType
message_of value =
    if value == 0x0001
    then some MessageType.hello
    else if value == 0x0002
    then some MessageType.negotiate
    else if value == 0x0003
    then some MessageType.negotiate_ack
    else if value == 0x0004
    then some MessageType.error
    else if value == 0x0005
    then some MessageType.ping
    else if value == 0x0006
    then some MessageType.pong
    else if value == 0x0007
    then some MessageType.go_away
    else if value == 0x0008
    then some MessageType.transport_finished
    else if value == 0x0100
    then some MessageType.transfer_offer
    else if value == 0x0101
    then some MessageType.manifest_entry
    else if value == 0x0102
    then some MessageType.manifest_end
    else if value == 0x0103
    then some MessageType.transfer_accept
    else if value == 0x0104
    then some MessageType.transfer_reject
    else if value == 0x0110
    then some MessageType.file_begin
    else if value == 0x0111
    then some MessageType.file_chunk
    else if value == 0x0112
    then some MessageType.chunk_ack
    else if value == 0x0113
    then some MessageType.file_end
    else if value == 0x0114
    then some MessageType.file_commit
    else if value == 0x0120
    then some MessageType.transfer_complete
    else if value == 0x0121
    then some MessageType.transfer_complete_ack
    else if value == 0x0130
    then some MessageType.cancel
    else if value == 0x0131
    then some MessageType.cancel_ack
    else if value == 0x0140
    then some MessageType.resume_request
    else if value == 0x0141
    then some MessageType.resume_state
    else if value == 0x0142
    then some MessageType.resume_end
    else Option.none

unfoldable pub is_connection_message : MessageType → Bool
is_connection_message MessageType.hello = true
is_connection_message MessageType.negotiate = true
is_connection_message MessageType.negotiate_ack = true
is_connection_message MessageType.ping = true
is_connection_message MessageType.pong = true
is_connection_message MessageType.go_away = true
is_connection_message MessageType.transport_finished = true
is_connection_message _ = false

unfoldable pub is_transfer_message : MessageType → Bool
is_transfer_message type = leb (message_code MessageType.transfer_offer) (message_code type)

pub data Direction : Type 0 where
  initiator_to_responder responder_to_initiator : Direction

pub data ErrorCode : Type 0 where
  none malformed_frame frame_too_large malformed_message unsupported_version downgrade_detected
        unsupported_capability unsupported_message unknown_critical_field state_violation
        message_id_violation limit_exceeded :
      ErrorCode

pub record Version : Type 0 where
  pub major : ℕ
  pub minor : ℕ

-- `Version{}`
abbrev pub version_1_0 : Version
version_1_0 = record { major = 1; minor = 0 }

abbrev pub same_version : Version → Version → Bool
same_version a b = a.major == b.major && a.minor == b.minor

unfoldable pub version_less : Version → Version → Bool
version_less left right =
    ltb left.major right.major || (left.major == right.major && ltb left.minor right.minor)

pub record FrameHeader : Type 0 where
  pub header_length : ℕ
  pub version : Version
  pub message_type : MessageType
  pub flags : ℕ
  pub stream_id : ℕ
  pub message_id : ℕ
  pub body_length : ℕ

pub record FieldView : Type 0 where
  pub id : ℕ
  pub wire_type : WireType
  pub flags : ℕ
  pub value : List ℕ

-- A `FieldCollection` is the list of its first `count` fields; a view is the bytes that it shows.
pub record ParsedFrame : Type 0 where
  pub header : FrameHeader
  pub header_fields : List FieldView
  pub body_fields : List FieldView
  pub declared_total_length : ℕ
  pub raw : List ℕ
  pub header_extensions : List ℕ
  pub body : List ℕ

-- `ParsedFrame{}`
abbrev pub empty_frame : ParsedFrame
empty_frame = record {
  header = record {
    header_length = 0;
    version = version_1_0;
    message_type = MessageType.unset;
    flags = 0;
    stream_id = 0;
    message_id = 0;
    body_length = 0;
  };
  header_fields = [];
  body_fields = [];
  declared_total_length = 0;
  raw = [];
  header_extensions = [];
  body = [];
}

-- An `Error` is its code: the detail texts are left out.
pub record ParseResult : Type 0 where
  pub frame : ParsedFrame
  pub error : ErrorCode

abbrev pub is_ok : ErrorCode → Bool
is_ok ErrorCode.none = true
is_ok _ = false

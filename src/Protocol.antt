-- ===== src/Protocol.antt =====
-- native/src/protocol: the frames of protocol version 1 and the negotiation transcript.
pub mod Types
pub mod Schema
pub mod Bytes
pub mod Utf8
pub mod Tlv
pub mod Frame
pub mod Transcript
pub mod Examples
pub mod Negotiation

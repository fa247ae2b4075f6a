-- ===== src/Protocol/Frame/Bounds.antt =====
-- What a caller may rely on after the header preflight.
use file_sender_byte_spark.Prelude.{
  ℕ, ◌+◌, ◌-◌, ◌≤◌, ◌≡◌, ◌≢◌, refl, inl, inr, true, some, List, [], length, take, drop, arith,
  Option-cases,
}
use file_sender_byte_spark.Protocol.Types.{
  fixed_header_length, max_header_length, max_body_length, MessageType, message_of,
  is_connection_message, is_transfer_message, Version, FrameHeader, ParsedFrame, ErrorCode, is_ok,
}
use file_sender_byte_spark.Protocol.Bytes.{read_u16}
use file_sender_byte_spark.Protocol.Tlv.Parse.{parse_tlvs_err}
use file_sender_byte_spark.Protocol.Frame.{
  read_header, declaration_error, header_frame, scope_error, parse_extensions, parse_typed_header,
  parse_frame_header,
}

-- The limits and rules that a header obeys.
pub record IsSoundHeader (expected : Version) (h : FrameHeader) : Type 0 where
  pub header_min : fixed_header_length ≤ h.header_length
  pub header_max : h.header_length ≤ max_header_length
  pub body_max : h.body_length ≤ max_body_length
  pub no_flags : h.flags ≡ 0
  pub numbered : h.message_id ≢ 0
  pub right_version : h.version ≡ expected
  pub connection_scope : is_connection_message h.message_type ≡ true → h.stream_id ≡ 0
  pub transfer_scope : is_transfer_message h.message_type ≡ true → h.stream_id ≢ 0

pub record IsDeclared (encoded : List ℕ) (f : ParsedFrame) : Type 0 where
  pub total : f.declared_total_length ≡ f.header.header_length + f.header.body_length
  pub header_present : f.header.header_length ≤ length encoded
  pub extensions :
      f.header_extensions
      ≡ take (f.header.header_length - fixed_header_length) (drop fixed_header_length encoded)

declared :
    (encoded : List ℕ) (expected : Version) (type : MessageType)
    → is_ok (declaration_error encoded expected) ≡ true
    → (fixed_header_length ≤ (read_header encoded type).header_length)
      × ((read_header encoded type).header_length ≤ max_header_length)
      × ((read_header encoded type).body_length ≤ max_body_length)
      × ((read_header encoded type).flags ≡ 0)
      × ((read_header encoded type).message_id ≢ 0)
      × ((read_header encoded type).version ≡ expected)
unfolding declaration_error read_header
declared encoded expected type h = ground arith

parse_extensions_ok :
    (frame : ParsedFrame)
    → is_ok (parse_extensions frame).error ≡ true
    → (scope_error frame.header ≡ ErrorCode.none)
      × ((parse_extensions frame).frame.header ≡ frame.header)
      × ((parse_extensions frame).frame.declared_total_length ≡ frame.declared_total_length)
      × ((parse_extensions frame).frame.header_extensions ≡ frame.header_extensions)
unfolding parse_extensions
parse_extensions_ok frame h = ground (arith, parse_tlvs_err frame.header_extensions [])

scope_ok :
    (h : FrameHeader)
    → scope_error h ≡ ErrorCode.none
    → (is_connection_message h.message_type ≡ true → h.stream_id ≡ 0)
      × (is_transfer_message h.message_type ≡ true → h.stream_id ≢ 0)
unfolding scope_error
scope_ok h e = (λ c. ground arith, λ t. ground arith)

parse_frame_header_inv :
    (encoded : List ℕ) (expected : Version)
    → is_ok (parse_frame_header encoded expected).error ≡ true
    → (type : MessageType) × (message_of (read_u16 (drop 8 encoded)) ≡ some type)
      × (is_ok (declaration_error encoded expected) ≡ true)
      × ((read_header encoded type).header_length ≤ length encoded)
      × (parse_frame_header encoded expected
          ≡ parse_extensions (header_frame encoded (read_header encoded type)))
unfolding parse_frame_header parse_typed_header
parse_frame_header_inv encoded expected h =
    elim (Option-cases (message_of (read_u16 (drop 8 encoded)))) [
      | inl unknown ↦ absurd (ground arith)
      | inr (type, known) ↦ (type, known, ground arith, ground arith, ground arith)
    ]

-- When the preflight of a header succeeds, whatever bytes came: the header is 28 to 256 bytes long
-- and all of it is there, the body that it declares is at most 1 MiB, the declared total is their
-- sum, no flag is set, the message id is not 0, the version is the expected one, and the stream is
-- 0 for a connection message and not 0 for a transfer message.
pub parse_frame_header-IsSoundHeader :
    (encoded : List ℕ) (expected : Version)
    → is_ok (parse_frame_header encoded expected).error ≡ true
    → IsSoundHeader expected (parse_frame_header encoded expected).frame.header
      × IsDeclared encoded (parse_frame_header encoded expected).frame
unfolding header_frame
parse_frame_header-IsSoundHeader encoded expected h =
    let (type, known, declaration, present, e) = parse_frame_header_inv encoded expected h in
    let (scope, same, total, extensions) =
      parse_extensions_ok (header_frame encoded (read_header encoded type)) (rw e at h) in
    let (lo, hi, body, flags, id, version) = declared encoded expected type declaration in
    let (connection, transfer) = scope_ok (read_header encoded type) scope in
    rw e (
      rw same (record {
        header_min = lo;
        header_max = hi;
        body_max = body;
        no_flags = flags;
        numbered = id;
        right_version = version;
        connection_scope = connection;
        transfer_scope = transfer;
      }),
      record {
        total = rw (total, same) refl;
        header_present = rw same present;
        extensions = rw (extensions, same) refl;
      },
    )

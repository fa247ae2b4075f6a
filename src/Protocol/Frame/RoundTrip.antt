-- ===== src/Protocol/Frame/RoundTrip.antt =====
-- A frame as `EncodeFrame` of native/src/transfer/frame_codec.cpp lays it out parses back.
use file_sender_byte_spark.Prelude.{
  ℕ, ◌+◌, ◌≤◌, ◌<◌, ◌≡◌, ◌≢◌, refl, ap, inl, inr, true, some, List, [], ◌∷◌, ◌++◌, length, take,
  drop, arith, All, IsByte, u16_mod, u32_mod, u64_mod,
}
use file_sender_byte_spark.Protocol.Types.{
  fixed_header_length, max_body_length, MessageType, message_of, message_code, Version, FrameHeader,
  FieldView, ParsedFrame, ErrorCode, empty_frame, is_ok,
}
use file_sender_byte_spark.Protocol.Schema.{schema_for}
use file_sender_byte_spark.Protocol.Bytes.{
  read_u16, read_u32, read_u64, u16_bytes, u32_bytes, u64_bytes, read-u16_bytes, read-u32_bytes,
  read-u64_bytes,
}
use file_sender_byte_spark.Protocol.Tlv.{ok, err, tlv_loop, has_required, parse_tlvs}
use file_sender_byte_spark.Protocol.Tlv.Canonical.{Result-cases, parse_tlvs-error}
use file_sender_byte_spark.Protocol.Tlv.Parse.{IsFieldList, parse_tlvs_iff}
use file_sender_byte_spark.Protocol.Frame.{
  read_header, declaration_error, header_frame, scope_error, parse_extensions, parse_typed_header,
  parse_frame_header, envelope_of, parse_frame_envelope, parse_frame_body, parse_frame,
}

-- The fixed header, without extensions, and the body.
unfoldable pub frame_bytes : Version → MessageType → ℕ → ℕ → List ℕ → List ℕ
frame_bytes version type stream_id message_id body =
    0x58
    ∷ 0x4e
    ∷ 0x4e
    ∷ 0x54
    ∷ (u16_bytes fixed_header_length
        ++ (version.major
            ∷ version.minor
            ∷ (u16_bytes (message_code type)
                ++ (u16_bytes 0
                    ++ (u32_bytes stream_id
                        ++ (u64_bytes message_id ++ (u32_bytes (length body) ++ body)))))))

-- What the header says.
abbrev pub frame_header : Version → MessageType → ℕ → ℕ → List ℕ → FrameHeader
frame_header version type stream_id message_id body = record {
  header_length = fixed_header_length;
  version = version;
  message_type = type;
  flags = 0;
  stream_id = stream_id;
  message_id = message_id;
  body_length = length body;
}

message_of-message_code :
    (t : MessageType) → t ≢ MessageType.unset → message_of (message_code t) ≡ some t
unfolding message_of message_code
message_of-message_code t n = ground arith

message_code-lt : (t : MessageType) → message_code t < u16_mod
unfolding message_code
message_code-lt t = ground arith

module _ (version : Version) (type : MessageType) (stream_id message_id : ℕ) (body : List ℕ)
    (known : type ≢ MessageType.unset) (stream_fits : stream_id < u32_mod)
    (id_fits : message_id < u64_mod) (numbered : message_id ≢ 0)
    (body_fits : length body ≤ max_body_length) where
  abbrev pub encoded : List ℕ
  encoded = frame_bytes version type stream_id message_id body

  type_read : read_u16 (drop 8 encoded) ≡ message_code type
  unfolding frame_bytes u16_bytes
  type_read = read-u16_bytes (message_code type) _ (message_code-lt type)

  length_read : read_u16 (drop 4 encoded) ≡ 28
  unfolding frame_bytes u16_bytes
  length_read = read-u16_bytes 28 _ (omega arith)

  flags_read : read_u16 (drop 10 encoded) ≡ 0
  unfolding frame_bytes u16_bytes
  flags_read = read-u16_bytes 0 _ (omega arith)

  stream_read : read_u32 (drop 12 encoded) ≡ stream_id
  unfolding frame_bytes u16_bytes
  stream_read = read-u32_bytes stream_id _ stream_fits

  id_read : read_u64 (drop 16 encoded) ≡ message_id
  unfolding frame_bytes u16_bytes u32_bytes
  id_read = read-u64_bytes message_id _ id_fits

  body_read : read_u32 (drop 24 encoded) ≡ length body
  unfolding frame_bytes u16_bytes u32_bytes u64_bytes
  body_read = read-u32_bytes (length body) body (omega arith)

  length-encoded : length encoded ≡ 28 + length body
  unfolding frame_bytes u16_bytes u32_bytes u64_bytes
  length-encoded = omega arith

  header_read : read_header encoded type ≡ frame_header version type stream_id message_id body
  unfolding read_header frame_bytes u16_bytes
  header_read = ground (arith, length_read, flags_read, stream_read, id_read, body_read)

  declaration_fine : declaration_error encoded version ≡ ErrorCode.none
  unfolding declaration_error frame_bytes u16_bytes
  declaration_fine = ground (arith, length_read, flags_read, id_read, body_read, length-encoded)

  take-all : (xs : List ℕ) → take (length xs) xs ≡ xs
  take-all [] = refl
  take-all (x ∷ xs) = ap (◌∷◌ x) (take-all xs)

  body_of : take (length body) (drop 28 encoded) ≡ body
  unfolding frame_bytes u16_bytes u32_bytes u64_bytes
  body_of = take-all body

  -- The result of parsing the header: no extensions.
  abbrev pub opened : ParsedFrame
  opened = record empty_frame {
    header = frame_header version type stream_id message_id body;
    declared_total_length = 28 + length body;
    raw = take 28 encoded;
  }

  header_frame_opened :
      header_frame encoded (frame_header version type stream_id message_id body) ≡ opened
  unfolding header_frame
  header_frame_opened = ground arith

  no_extensions : parse_tlvs [] [] ≡ ok []
  unfolding parse_tlvs tlv_loop has_required
  no_extensions = refl

  parse_typed_refused :
      scope_error (frame_header version type stream_id message_id body) ≢ ErrorCode.none
      → (parse_typed_header encoded (frame_header version type stream_id message_id body)).error
        ≡ scope_error (frame_header version type stream_id message_id body)
  unfolding parse_typed_header parse_extensions
  parse_typed_refused h = ground (arith, header_frame_opened, length-encoded, no_extensions)

  parse_header_refused :
      scope_error (frame_header version type stream_id message_id body) ≢ ErrorCode.none
      → (parse_frame_header encoded version).error
        ≡ scope_error (frame_header version type stream_id message_id body)
  unfolding parse_frame_header
  parse_header_refused h = ground (
    arith,
    declaration_fine,
    type_read,
    message_of-message_code type,
    header_read,
    parse_typed_refused h,
  )

  -- A frame that parses has the scope of its type.
  pub parse_frame-scope :
      is_ok (parse_frame encoded version).error ≡ true
      → scope_error (frame_header version type stream_id message_id body) ≡ ErrorCode.none
  unfolding parse_frame parse_frame_envelope
  parse_frame-scope good = ground (arith, parse_header_refused)

  module _
      (scope : scope_error (frame_header version type stream_id message_id body)
        ≡ ErrorCode.none) where
    parse_typed_fine :
        parse_typed_header encoded (frame_header version type stream_id message_id body)
        ≡ record { frame = opened; error = ErrorCode.none }
    unfolding parse_typed_header parse_extensions
    parse_typed_fine = ground (arith, header_frame_opened, length-encoded, no_extensions, scope)

    parse_header_fine :
        parse_frame_header encoded version ≡ record { frame = opened; error = ErrorCode.none }
    unfolding parse_frame_header
    parse_header_fine = ground (
      arith,
      declaration_fine,
      type_read,
      message_of-message_code type,
      header_read,
      parse_typed_fine,
    )

    parse_envelope_fine :
        parse_frame_envelope encoded version
        ≡ record { frame = record opened { raw = encoded; body = body }; error = ErrorCode.none }
    unfolding parse_frame_envelope envelope_of
    parse_envelope_fine = ground (arith, parse_header_fine, length-encoded, body_of)

    pub parse_frame_parsed :
        (fields : List FieldView)
        → parse_tlvs body (schema_for type) ≡ ok fields
        → parse_frame encoded version ≡ record {
          frame = record opened { raw = encoded; body = body; body_fields = fields };
          error = ErrorCode.none;
        }
    unfolding parse_frame parse_frame_body
    parse_frame_parsed fields parsed = ground (arith, parse_envelope_fine, parsed)

    parse_frame_refused :
        (e : ErrorCode)
        → parse_tlvs body (schema_for type) ≡ err e
        → (parse_frame encoded version).error ≡ e
    unfolding parse_frame parse_frame_body
    parse_frame_refused e refused = ground (arith, parse_envelope_fine, refused)

    -- A frame that parses has a body that is a list of fields.
    pub parse_frame-parse_tlvs :
        is_ok (parse_frame encoded version).error ≡ true
        → (fields : List FieldView) × (parse_tlvs body (schema_for type) ≡ ok fields)
    parse_frame-parse_tlvs good = elim (Result-cases (parse_tlvs body (schema_for type))) [
      | inr (fields, parsed) ↦ (fields, parsed)
      | inl (e, refused) ↦ absurd (
          ground (
            arith,
            parse_frame_refused e refused,
            parse_tlvs-error body (schema_for type) e refused,
          ))
    ]

    -- A frame of any known message type, with a nonzero 64-bit message id, a stream that fits the
    -- type, no extensions and a body of at most 1 MiB, whose body is the encoding of a canonical
    -- field list under the schema of its type, parses: to the header that was written, the body
    -- and its fields.
    pub parse_frame-frame_bytes :
        (fields : List FieldView)
        → All IsByte body
        → IsFieldList (schema_for type) body fields
        → parse_frame (frame_bytes version type stream_id message_id body) version ≡ record {
          frame = record opened { raw = encoded; body = body; body_fields = fields };
          error = ErrorCode.none;
        }
    parse_frame-frame_bytes fields bytes list =
        parse_frame_parsed fields ((parse_tlvs_iff body (schema_for type) fields bytes).1 list)

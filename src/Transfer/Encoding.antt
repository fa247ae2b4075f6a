-- ===== src/Transfer/Encoding.antt =====
-- What `EncodeFrame` of native/src/transfer/frame_codec.cpp writes can be read back.
use file_sender_byte_spark.Prelude.{
  ℕ, ◌≤◌, ◌<◌, ◌≡◌, ◌≢◌, refl, sym, ap, subst, Bool, true, ◌&&◌, Option, some, none, List, length,
  arith, u32_mod, u64_mod,
}
use file_sender_byte_spark.Protocol.Types.{MessageType, ErrorCode, is_ok, max_body_length}
use file_sender_byte_spark.Protocol.Frame.{scope_error, parse_frame}
use file_sender_byte_spark.Protocol.Frame.RoundTrip.{
  frame_bytes, frame_header, parse_frame_parsed, parse_frame-parse_tlvs, parse_frame-scope,
}
use file_sender_byte_spark.Transfer.Types.{TransferContext}
use file_sender_byte_spark.Transfer.Sequence.{ConnectionMessageSequence, next_outbound_id}
use file_sender_byte_spark.Transfer.Builder.{BodyBuilder}
use file_sender_byte_spark.Transfer.Encode.{self_check, numbered_frame, encode_frame}

-- The scope of a type does not depend on the message id.
scope-any_id :
    (context : TransferContext) (type : MessageType) (id other : ℕ) (body : List ℕ)
    → scope_error (frame_header context.version type context.stream_id id body) ≡ ErrorCode.none
    → scope_error (frame_header context.version type context.stream_id other body) ≡ ErrorCode.none
unfolding scope_error
scope-any_id context type id other body h = h

and_left : (a b : Bool) → (a && b) ≡ true → a ≡ true
and_left a b h = ground arith

one_nonzero : (one : ℕ) → one ≡ 1 → one ≢ 0
one_nonzero one h k = ground arith

self_check-ok :
    (context : TransferContext) (type : MessageType) (body : List ℕ)
    → self_check context type body ≡ true
    → is_ok
        (parse_frame
          (frame_bytes context.version type context.stream_id 1 body)
          context.version).error
      ≡ true
unfolding self_check
self_check-ok context type body h = and_left _ _ (and_left _ _ h)

-- What is read from a frame that was written.
abbrev pub IsReadBack : TransferContext → MessageType → List ℕ → ℕ → List ℕ → Type 0
IsReadBack context type body id bytes =
    (is_ok (parse_frame bytes context.version).error ≡ true)
    × ((parse_frame bytes context.version).frame.header
        ≡ frame_header context.version type context.stream_id id body)
    × ((parse_frame bytes context.version).frame.body ≡ body)

-- A body that passes the self check can be sent under every message id.
self_check-IsReadBack :
    (context : TransferContext) (type : MessageType) (body : List ℕ) (id : ℕ)
    → type ≢ MessageType.unset
    → context.stream_id < u32_mod
    → id < u64_mod
    → id ≢ 0
    → length body ≤ max_body_length
    → self_check context type body ≡ true
    → IsReadBack context type body id (frame_bytes context.version type context.stream_id id body)
self_check-IsReadBack context type body id known stream fits nonzero short checked =
    let good = self_check-ok context type body checked in
    let one = one_nonzero 1 refl in
    let scope =
      parse_frame-scope context.version type context.stream_id 1 body known stream (omega arith) one
        short good in
    let (fields, parsed) =
      parse_frame-parse_tlvs context.version type context.stream_id 1 body known stream
        (omega arith) one short scope good in
    let read =
      parse_frame_parsed context.version type context.stream_id id body known stream fits nonzero
        short (scope-any_id context type 1 id body scope) fields parsed in
    (ap (λ p. is_ok p.error) read, ap (λ p. p.frame.header) read, ap (λ p. p.frame.body) read)

numbered :
    (context : TransferContext) (type : MessageType) (body : List ℕ)
    (x : ConnectionMessageSequence × Option ℕ) (s : ConnectionMessageSequence) (bytes : List ℕ)
    → numbered_frame context type body x ≡ (s, some bytes)
    → (id : ℕ) × (x ≡ (s, some id))
      × (id ≢ 0)
      × (bytes ≡ frame_bytes context.version type context.stream_id id body)
unfolding numbered_frame
numbered context type body (s', none) s bytes h = absurd (ground arith)
numbered context type body (s', some id) s bytes h =
    (id, ground arith, (λ z. ground arith), ground arith)

id-lt :
    (s t : ConnectionMessageSequence) (id : ℕ)
    → s.next_outbound < u64_mod
    → next_outbound_id s ≡ (t, some id)
    → id < u64_mod
unfolding next_outbound_id
id-lt s t id fits h = ground arith

encode_frame_steps :
    (context : TransferContext) (type : MessageType) (body : BodyBuilder)
    (s t : ConnectionMessageSequence) (bytes : List ℕ)
    → encode_frame context type body s ≡ (t, some bytes)
    → (length body.bytes ≤ max_body_length)
      × (self_check context type body.bytes ≡ true)
      × (numbered_frame context type body.bytes (next_outbound_id s) ≡ (t, some bytes))
unfolding encode_frame
encode_frame_steps context type body s t bytes h = ground arith

-- A frame that `encode_frame` returns, of a known message type and on a stream of 32 bits, with
-- message ids of 64 bits, carries the message id that the connection gave next; and the parser
-- reads it without an error, to the header and the body that were written.
pub encode_frame-IsReadBack :
    (context : TransferContext) (type : MessageType) (body : BodyBuilder)
    (s t : ConnectionMessageSequence) (bytes : List ℕ)
    → type ≢ MessageType.unset
    → context.stream_id < u32_mod
    → s.next_outbound < u64_mod
    → encode_frame context type body s ≡ (t, some bytes)
    → (id : ℕ) × (next_outbound_id s ≡ (t, some id)) × IsReadBack context type body.bytes id bytes
encode_frame-IsReadBack context type body s t bytes known stream fits h =
    let (short, checked, written) = encode_frame_steps context type body s t bytes h in
    let (id, given, nonzero, same) =
      numbered context type body.bytes (next_outbound_id s) t bytes written in
    (
      id,
      given,
      subst (λ x. IsReadBack context type body.bytes id x) (sym same)
          (self_check-IsReadBack context type body.bytes id known stream (id-lt s t id fits given)
            nonzero short checked),
    )

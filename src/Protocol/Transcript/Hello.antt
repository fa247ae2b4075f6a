-- ===== src/Protocol/Transcript/Hello.antt =====
-- `TranscriptParser::ProcessHello`. `Contains` is a binary search on a range that was found sorted
-- before, so it is membership.
use file_sender_byte_spark.Prelude.{
  ℕ, ◌/◌, ◌%◌, Bool, true, ◌&&◌, ◌||◌, not, List, [], ◌∷◌, any, all, leb, ltb, ◌==◌, ◌!=◌,
  if◌then◌else◌, u8_mod, u16_mod, u32_mod,
}
use file_sender_byte_spark.Protocol.Types.{
  version_less, ParsedFrame, ErrorCode, is_ok, Direction, max_body_length,
}
use file_sender_byte_spark.Protocol.Transcript.{
  base_transfer_v1, max_in_flight, max_streams, at, put, expected_role, HelloData, TranscriptParser,
  field_number, collect, Outcome, refuse,
}

-- `Contains`. The arrays are sorted where it is called, so the binary search is a search.
unfoldable pub contains : List ℕ → ℕ → Bool
contains values wanted = any (λ v. v == wanted) values

-- The loop over `capabilities`: sorted, unique, one version of each.
unfoldable pub capabilities_ordered : List ℕ → Bool
capabilities_ordered [] = true
capabilities_ordered (previous ∷ []) = true
capabilities_ordered (previous ∷ current ∷ rest) =
    not (leb current previous)
    && not (current / 65536 == previous / 65536)
    && capabilities_ordered (current ∷ rest)

-- The loop over `required_capabilities`, and over the selected ones: sorted and unique.
unfoldable pub strictly_sorted : List ℕ → Bool
strictly_sorted [] = true
strictly_sorted (previous ∷ []) = true
strictly_sorted (previous ∷ current ∷ rest) =
    not (leb current previous) && strictly_sorted (current ∷ rest)

-- What `ProcessHello` puts together from the fields, with the casts of the source.
unfoldable pub hello_of : ParsedFrame → HelloData
hello_of frame = record {
  present = true;
  minimum = record { major = field_number frame 1 % u8_mod; minor = field_number frame 2 % u8_mod };
  maximum = record { major = field_number frame 3 % u8_mod; minor = field_number frame 4 % u8_mod };
  role = field_number frame 5 % u8_mod;
  capabilities = collect u32_mod 6 frame.body_fields;
  required_capabilities = collect u32_mod 7 frame.body_fields;
  receive_max_body = field_number frame 8 % u32_mod;
  receive_max_in_flight = field_number frame 9 % u32_mod;
  receive_max_streams = field_number frame 10 % u16_mod;
}

unfoldable pub hello_versions_fit : ParsedFrame → Bool
hello_versions_fit frame =
    not (field_number frame 1 == 0)
    && leb (field_number frame 1) 255
    && leb (field_number frame 2) 255
    && leb (field_number frame 3) 255
    && leb (field_number frame 4) 255

unfoldable pub capabilities_error : HelloData → ErrorCode
capabilities_error hello =
    if not (capabilities_ordered hello.capabilities)
    then ErrorCode.malformed_message
    else if not (strictly_sorted hello.required_capabilities)
    then ErrorCode.malformed_message
    else if not (all (contains hello.capabilities) hello.required_capabilities)
    then ErrorCode.unsupported_capability
    else if not (contains hello.capabilities base_transfer_v1)
        || not (contains hello.required_capabilities base_transfer_v1)
    then ErrorCode.unsupported_capability
    else ErrorCode.none

unfoldable pub receive_limits_error : HelloData → ErrorCode
receive_limits_error hello =
    if ltb hello.receive_max_body 8192 || ltb max_body_length hello.receive_max_body
    then ErrorCode.limit_exceeded
    else if ltb hello.receive_max_in_flight 1048576 || ltb max_in_flight hello.receive_max_in_flight
    then ErrorCode.limit_exceeded
    else if hello.receive_max_streams == 0 || ltb max_streams hello.receive_max_streams
    then ErrorCode.limit_exceeded
    else ErrorCode.none

-- The checks on the candidate, in the order of the source.
unfoldable pub hello_error : Direction → ParsedFrame → HelloData → ErrorCode
hello_error direction frame hello =
    if not (hello_versions_fit frame)
    then ErrorCode.malformed_message
    else if version_less hello.maximum hello.minimum
    then ErrorCode.malformed_message
    else if hello.role != expected_role direction
    then ErrorCode.state_violation
    else if not (is_ok (capabilities_error hello))
    then capabilities_error hello
    else receive_limits_error hello

-- A HELLO comes once for each direction, before any NEGOTIATE.
abbrev pub hello_is_late : Direction → TranscriptParser → Bool
hello_is_late direction t =
    (at t.hellos direction).present
    || t.negotiation.present
    || t.negotiation_acknowledged
    || t.binding_frames_complete

unfoldable pub process_hello : Direction → ParsedFrame → TranscriptParser → Outcome
process_hello direction frame t =
    if hello_is_late direction t
    then refuse ErrorCode.state_violation t
    else if not (is_ok (hello_error direction frame (hello_of frame)))
    then refuse (hello_error direction frame (hello_of frame)) t
    else (record t { hellos = put t.hellos direction (hello_of frame) }, ErrorCode.none)

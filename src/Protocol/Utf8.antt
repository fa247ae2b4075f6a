-- ===== src/Protocol/Utf8.antt =====
-- `IsValidUtf8` of native/src/protocol/v1_parser.cpp. On a byte, `v & 0x3f` is `v % 64`, and a
-- disjunction of shifted parts that share no bit is their sum.
pub mod Scalars
use file_sender_byte_spark.Prelude.{
  ℕ, zero, suc, ◌+◌, ◌*◌, ◌/◌, ◌%◌, ◌≡◌, Bool, true, false, ◌&&◌, ◌||◌, not, Option, none, some,
  List, [], ◌∷◌, length, get_or, drop, leb, ltb, ◌==◌, if◌then◌else◌,
}

-- `(value & 0xc0) == 0x80`
unfoldable pub is_continuation : ℕ → Bool
is_continuation value = value / 64 == 2

unfoldable pub is_unicode_noncharacter : ℕ → Bool
is_unicode_noncharacter code_point =
    (leb 0xfdd0 code_point && leb code_point 0xfdef)
    || (leb code_point 0x10ffff && leb 0xfffe (code_point % 65536))

-- The branches of the loop's body on what is left of the text, which is not empty: the code point
-- and its width, unless the bytes are refused. A byte is read only behind the test that there are
-- enough.
unfoldable pub code_point_at : List ℕ → Option (ℕ × ℕ)
code_point_at value =
    let first = get_or value 0 0 in
    let second = get_or value 1 0 in
    let third = get_or value 2 0 in
    let fourth = get_or value 3 0 in
    if leb first 0x7f
    then some (first, 1)
    else if leb 0xc2 first && leb first 0xdf
    then (if ltb (length value) 2 || not (is_continuation second)
        then none
        else some (first % 32 * 64 + second % 64, 2))
    else if leb 0xe0 first && leb first 0xef
    then (if ltb (length value) 3 || not (is_continuation second) || not (is_continuation third)
        then none
        else if (first == 0xe0 && ltb second 0xa0) || (first == 0xed && leb 0xa0 second)
        then none
        else some (first % 16 * 4096 + second % 64 * 64 + third % 64, 3))
    else if leb 0xf0 first && leb first 0xf4
    then (if ltb (length value) 4
          || not (is_continuation second)
          || not (is_continuation third)
          || not (is_continuation fourth)
        then none
        else if (first == 0xf0 && ltb second 0x90) || (first == 0xf4 && ltb 0x8f second)
        then none
        else some (first % 8 * 262144 + second % 64 * 4096 + third % 64 * 64 + fourth % 64, 4))
    else none

-- The loop, on what is left of the text. Each round takes a byte at least.
unfoldable pub utf8_loop : ℕ → List ℕ → Bool
utf8_loop fuel [] = true
utf8_loop zero (x ∷ xs) = false
utf8_loop (suc fuel) (x ∷ xs) = elim (code_point_at (x ∷ xs)) [
  | none ↦ false
  | some (code_point, width) ↦
      let rest = utf8_loop fuel (drop width (x ∷ xs)) in
      if code_point == 0 || is_unicode_noncharacter code_point then false else rest
]

unfoldable pub is_valid_utf8 : List ℕ → Bool
is_valid_utf8 value = utf8_loop (length value) value

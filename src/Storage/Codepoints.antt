-- ===== src/Storage/Codepoints.antt =====
-- The checks of native/src/storage/path_validator.cpp on the encoding and the code points of a
-- path: `IsStrictUtf8`, `ValidateCodepoints` and `IsNfc`. The library utf8proc is a parameter.
use file_sender_byte_spark.Prelude.{
  ℕ, zero, suc, ◌%◌, Bool, true, false, ◌&&◌, ◌||◌, Option, none, some, List, [], ◌∷◌, length, drop,
  leb, ◌==◌, if◌then◌else◌,
}
use file_sender_byte_spark.Storage.Types.{ValidationError}
use file_sender_byte_spark.Storage.Component.{same_bytes}

-- What the source uses of utf8proc: `utf8proc_iterate`, the bytes consumed by the next code point
-- (0 for an error code) and its value; `utf8proc_map` with STABLE | COMPOSE, the normalized bytes
-- unless it fails.
pub record Utf8proc : Type 0 where
  pub iterate : List ℕ → ℕ × ℕ
  pub compose : List ℕ → Option (List ℕ)

unfoldable pub is_noncharacter : ℕ → Bool
is_noncharacter codepoint =
    (leb 0xfdd0 codepoint && leb codepoint 0xfdef)
    || codepoint % 65536 == 0xfffe
    || codepoint % 65536 == 0xffff

-- The errors of one code point, or `none`.
unfoldable pub codepoint_error : ℕ → ValidationError
codepoint_error codepoint =
    if codepoint == 0
    then ValidationError.path_nul
    else if (leb 1 codepoint && leb codepoint 0x1f) || codepoint == 0x7f
    then ValidationError.path_c0_control
    else if leb 0x80 codepoint && leb codepoint 0x9f
    then ValidationError.path_c1_control
    else if is_noncharacter codepoint
    then ValidationError.path_noncharacter
    else ValidationError.none

module _ (utf8 : Utf8proc) where
  open utf8 use {iterate, compose}

  -- The loop of `IsStrictUtf8` on what is left of the text. A round consumes a byte at least.
  unfoldable pub strict_utf8_loop : ℕ → List ℕ → Bool
  strict_utf8_loop fuel [] = true
  strict_utf8_loop zero (x ∷ xs) = false
  strict_utf8_loop (suc fuel) (x ∷ xs) =
      let rest = strict_utf8_loop fuel (drop (iterate (x ∷ xs)).0 (x ∷ xs)) in
      if (iterate (x ∷ xs)).0 == 0 then false else rest

  unfoldable pub is_strict_utf8 : List ℕ → Bool
  is_strict_utf8 encoded = strict_utf8_loop (length encoded) encoded

  unfoldable pub codepoints_loop : ℕ → List ℕ → ValidationError
  codepoints_loop fuel [] = ValidationError.none
  codepoints_loop zero (x ∷ xs) = ValidationError.invalid_utf8
  codepoints_loop (suc fuel) (x ∷ xs) =
      let rest = codepoints_loop fuel (drop (iterate (x ∷ xs)).0 (x ∷ xs)) in
      if (iterate (x ∷ xs)).0 == 0
      then ValidationError.invalid_utf8
      else elim (codepoint_error (iterate (x ∷ xs)).1) [
        | ValidationError.none ↦ rest
        | error ↦ error
      ]

  unfoldable pub validate_codepoints : List ℕ → ValidationError
  validate_codepoints encoded = codepoints_loop (length encoded) encoded

  unfoldable pub is_nfc : List ℕ → Bool
  is_nfc encoded = elim (compose encoded) [
    | none ↦ false
    | some normalized ↦ same_bytes encoded normalized
  ]

-- ===== src/Protocol/Utf8/Scalars.antt =====
-- The validator against the definition of UTF-8: the encodings of Unicode's scalar values.
use file_sender_byte_spark.Prelude.{
  ℕ, zero, suc, ◌+◌, ◌/◌, ◌%◌, ◌≤◌, ◌<◌, ◌≡◌, ◌≢◌, ◌⊎◌, ◌↔◌, refl, ap, ◌∙◌, inl, inr, true, false,
  some, List, [], ◌∷◌, ◌++◌, length, length-append, drop, All, IsByte, leb, ltb, if◌then◌else◌,
  arith, Bool-cases, Option-cases, drop-length-append,
}
use file_sender_byte_spark.Protocol.Utf8.{
  is_continuation, is_unicode_noncharacter, code_point_at, utf8_loop, is_valid_utf8,
}

-- A scalar value of Unicode other than 0 and the noncharacters.
pub record IsText (c : ℕ) : Type 0 where
  pub nonzero : c ≢ 0
  pub in_range : c < 0x110000
  pub no_surrogate : (c < 0xd800) ⊎ (0xe000 ≤ c)
  pub character : is_unicode_noncharacter c ≡ false

-- The encoding of a scalar value, by the table of the Unicode standard.
unfoldable pub encode : ℕ → List ℕ
encode c =
    if ltb c 0x80
    then c ∷ []
    else if ltb c 0x800
    then (192 + c / 64) ∷ (128 + c % 64) ∷ []
    else if ltb c 0x10000
    then (224 + c / 4096) ∷ (128 + c / 64 % 64) ∷ (128 + c % 64) ∷ []
    else (240 + c / 262144) ∷ (128 + c / 4096 % 64) ∷ (128 + c / 64 % 64) ∷ (128 + c % 64) ∷ []

unfoldable pub encode_all : List ℕ → List ℕ
encode_all [] = []
encode_all (c ∷ cs) = encode c ++ encode_all cs

-- One round reads one encoding.
code_point_at-encode :
    (c : ℕ) (rest : List ℕ)
    → IsText c
    → code_point_at (encode c ++ rest) ≡ some (c, length (encode c))
unfolding code_point_at encode is_continuation
code_point_at-encode c rest t = ground arith

-- What a round that accepts has read.
abbrev Reads : ℕ → ℕ → List ℕ → Type 0
Reads c w xs =
    (xs ≡ encode c ++ drop w xs)
    × (w ≡ length (encode c))
    × (c < 0x110000)
    × ((c < 0xd800) ⊎ (0xe000 ≤ c))

code_point_at-Reads :
    (xs : List ℕ) (c w : ℕ)
    → All IsByte xs
    → xs ≢ []
    → code_point_at xs ≡ some (c, w)
    → Reads c w xs
unfolding code_point_at encode is_continuation
code_point_at-Reads [] c w bytes n h = absurd (n refl)
code_point_at-Reads (a ∷ []) c w bytes n h = ground arith
code_point_at-Reads (a ∷ b ∷ []) c w bytes n h = ground arith
code_point_at-Reads (a ∷ b ∷ d ∷ []) c w bytes n h = ground arith
code_point_at-Reads (a ∷ b ∷ d ∷ e ∷ r) c w bytes n h = elim (Bool-cases (leb a 0xdf)) [
  | inl short ↦ ground arith
  | inr more ↦ elim (Bool-cases (leb a 0xef)) [ inl three ↦ ground arith | inr four ↦ ground arith ]
]

utf8_loop_step :
    (fuel c w : ℕ) (xs : List ℕ)
    → xs ≢ []
    → code_point_at xs ≡ some (c, w)
    → c ≢ 0
    → is_unicode_noncharacter c ≡ false
    → utf8_loop (suc fuel) xs ≡ utf8_loop fuel (drop w xs)
unfolding utf8_loop
utf8_loop_step fuel c w [] n h z k = absurd (n refl)
utf8_loop_step fuel c w (x ∷ xs) n h z k = ground arith

encode_nonempty : (c : ℕ) → 0 < length (encode c)
unfolding encode
encode_nonempty c = ground arith

utf8_loop-encode_all :
    (fuel : ℕ) (cs : List ℕ)
    → length (encode_all cs) ≤ fuel
    → All IsText cs
    → utf8_loop fuel (encode_all cs) ≡ true
unfolding encode_all
utf8_loop-encode_all fuel [] h t = unfold utf8_loop in refl
utf8_loop-encode_all zero (c ∷ cs) h t =
    absurd (omega (arith, length-append (encode c) (encode_all cs), encode_nonempty c))
utf8_loop-encode_all (suc fuel) (c ∷ cs) h t =
    utf8_loop_step fuel c (length (encode c)) (encode c ++ encode_all cs)
      (λ e. omega (arith, ap length e, length-append (encode c) (encode_all cs), encode_nonempty c))
      (code_point_at-encode c (encode_all cs) t.0) t.0.nonzero t.0.character
    ∙ ap (utf8_loop fuel) (drop-length-append (encode c) (encode_all cs))
    ∙ utf8_loop-encode_all fuel cs
        (omega (arith, length-append (encode c) (encode_all cs), encode_nonempty c)) t.1

-- A round that goes on has read one scalar value.
utf8_loop_inv :
    (fuel x : ℕ) (xs : List ℕ)
    → utf8_loop (suc fuel) (x ∷ xs) ≡ true
    → (p : ℕ × ℕ) × (code_point_at (x ∷ xs) ≡ some p)
      × (p.0 ≢ 0)
      × (is_unicode_noncharacter p.0 ≡ false)
      × (utf8_loop fuel (drop p.1 (x ∷ xs)) ≡ true)
unfolding utf8_loop
utf8_loop_inv fuel x xs h = elim (Option-cases (code_point_at (x ∷ xs))) [
  | inl refused ↦ absurd (ground arith)
  | inr (p, e) ↦ (p, e, ground arith, ground arith, ground arith)
]

All-drop {ℓ κ} : {A : Type ℓ} (P : A → Type κ) (n : ℕ) (xs : List A) → All P xs → All P (drop n xs)
All-drop P zero xs h = h
All-drop P (suc n) [] h = h
All-drop P (suc n) (x ∷ xs) h = All-drop P n xs h.1

utf8_loop-IsText :
    (fuel : ℕ) (xs : List ℕ)
    → All IsByte xs
    → utf8_loop fuel xs ≡ true
    → (cs : List ℕ) × All IsText cs × (xs ≡ encode_all cs)
unfolding encode_all
utf8_loop-IsText fuel [] bytes h = ([], tt, refl)
utf8_loop-IsText zero (x ∷ xs) bytes h = unfold utf8_loop in cc
utf8_loop-IsText (suc fuel) (x ∷ xs) bytes h =
    let ((c, w), read, nonzero, character, more) = utf8_loop_inv fuel x xs h in
    let (e, size, range, scalar) = code_point_at-Reads (x ∷ xs) c w bytes (λ n. cc) read in
    let (cs, text, all) =
      utf8_loop-IsText fuel (drop w (x ∷ xs)) (All-drop IsByte w (x ∷ xs) bytes) more in
    (
      c ∷ cs,
      (
        record {
          nonzero = nonzero;
          in_range = range;
          no_surrogate = scalar;
          character = character;
        },
        text,
      ),
      e ∙ ap (λ r. encode c ++ r) all,
    )

-- A string of bytes is accepted exactly when it is the UTF-8 encoding of some Unicode scalar values
-- that are neither 0 nor noncharacters. So overlong forms, surrogates, values beyond U+10FFFF and
-- truncated sequences are refused, and nothing else is.
pub is_valid_utf8_iff :
    (xs : List ℕ)
    → All IsByte xs
    → (is_valid_utf8 xs ≡ true) ↔ ((cs : List ℕ) × All IsText cs × (xs ≡ encode_all cs))
unfolding is_valid_utf8
is_valid_utf8_iff xs bytes = (
  utf8_loop-IsText (length xs) xs bytes,
  λ (cs, text, e). rw e (utf8_loop-encode_all (length (encode_all cs)) cs (omega arith) text),
)

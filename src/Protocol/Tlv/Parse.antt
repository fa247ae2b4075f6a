-- ===== src/Protocol/Tlv/Parse.antt =====
-- The parser of a field list accepts the encodings of canonical field lists, and nothing else.
use file_sender_byte_spark.Prelude.{
  ℕ, zero, suc, ◌+◌, ◌≤◌, ◌≡◌, ◌≢◌, ◌↔◌, refl, sym, ap, ◌∙◌, inl, inr, true, Option, some, List, [],
  ◌∷◌, ◌++◌, length, length-append, drop, All, IsByte, arith,
}
use file_sender_byte_spark.Protocol.Types.{FieldView, ErrorCode, max_fields}
use file_sender_byte_spark.Protocol.Schema.{Presence, FieldRule}
use file_sender_byte_spark.Protocol.Tlv.{
  ok, err, count_field, read_field, keep_field, tlv_loop, has_required, parse_tlvs,
}
use file_sender_byte_spark.Protocol.Tlv.Field.{
  field_bytes, fields_bytes, read_field-Reads, read_field-field_bytes, drop-field_bytes,
  length-field_bytes,
}
use file_sender_byte_spark.Protocol.Tlv.Canonical.{
  IsCanonical, IsCanonical-cons, IsCanonical-uncons, LacksId, count_field-LacksId, field_error_iff,
  tlv_loop_step, tlv_loop_inv, Result-cases,
}

-- Every required rule of the schema has a field.
abbrev pub HasRequired : List FieldRule → List FieldView → Type 0
HasRequired [] output = Unit {0}
HasRequired (rule ∷ schema) output =
    (rule.presence ≡ Presence.required → (LacksId rule.id output → ⊥)) × HasRequired schema output

has_required_iff :
    (schema : List FieldRule) (output : List FieldView)
    → (has_required schema output ≡ true) ↔ HasRequired schema output
unfolding has_required
has_required_iff [] output = (λ _. tt, λ _. refl)
has_required_iff (rule ∷ schema) output = (
  λ h. (
    λ r l. let c = (count_field-LacksId output rule.id).1 l in ground (arith, c),
    (has_required_iff schema output).0 (ground arith),
  ),
  λ (r, rs).
      let rest = (has_required_iff schema output).1 rs in
      let present : rule.presence ≡ Presence.required → count_field output rule.id ≢ 0 =
        λ p c. r p ((count_field-LacksId output rule.id).0 c) in
      ground (arith, rest, present),
)

All-drop : (n : ℕ) (xs : List ℕ) → All IsByte xs → All IsByte (drop n xs)
All-drop zero xs h = h
All-drop (suc n) [] h = h
All-drop (suc n) (x ∷ xs) h = All-drop n xs h.1

tlv_loop-IsCanonical :
    (fuel : ℕ) (schema : List FieldRule) (count : ℕ) (previous : Option ℕ) (output : List FieldView)
    (bytes : List ℕ) (out : List FieldView)
    → All IsByte bytes
    → count ≤ max_fields
    → tlv_loop fuel schema count previous output bytes ≡ ok out
    → (fs : List FieldView) × (bytes ≡ fields_bytes fs)
      × (count + length fs ≤ max_fields)
      × IsCanonical schema previous output fs out
unfolding fields_bytes
tlv_loop-IsCanonical fuel schema count previous output [] out b c h =
    ([], refl, omega arith, unfold tlv_loop in ground arith)
tlv_loop-IsCanonical zero schema count previous output (x ∷ xs) out b c h = unfold tlv_loop in cc
tlv_loop-IsCanonical (suc fuel) schema count previous output (x ∷ xs) out b c h =
    let (f, more, read, fine, rest) = tlv_loop_inv fuel schema count previous output x xs out h in
    let (front, word, ordered) = read_field-Reads previous (x ∷ xs) f b read in
    let (fs, tail, few, canonical) =
      tlv_loop-IsCanonical fuel schema (count + 1) (some f.id) (keep_field schema output f)
        (drop (8 + length f.value) (x ∷ xs)) out (All-drop (8 + length f.value) (x ∷ xs) b)
        (omega arith) rest in
    let (rule, shape) = (field_error_iff schema output f).0 fine in
    (
      f ∷ fs,
      front ∙ ap (λ r. field_bytes f ++ r) tail,
      omega arith,
      IsCanonical-cons schema previous output f fs out word ordered rule shape canonical,
    )

tlv_loop-fields_bytes :
    (fuel : ℕ) (schema : List FieldRule) (count : ℕ) (previous : Option ℕ)
    (output fs out : List FieldView)
    → length (fields_bytes fs) ≤ fuel
    → count + length fs ≤ max_fields
    → IsCanonical schema previous output fs out
    → tlv_loop fuel schema count previous output (fields_bytes fs) ≡ ok out
unfolding fields_bytes
tlv_loop-fields_bytes fuel schema count previous output [] out l c k =
    unfold tlv_loop in ap ok (sym k)
tlv_loop-fields_bytes zero schema count previous output (f ∷ fs) out l c k =
    absurd (omega (arith, length-append (field_bytes f) (fields_bytes fs), length-field_bytes f))
tlv_loop-fields_bytes (suc fuel) schema count previous output (f ∷ fs) out l c k =
    let (word, ordered, rule, shape, canonical) =
      IsCanonical-uncons schema previous output f fs out k in
    tlv_loop_step fuel schema count previous output (field_bytes f ++ fields_bytes fs) f
      (λ e.
        omega (
          arith,
          ap length e,
          length-append (field_bytes f) (fields_bytes fs),
          length-field_bytes f,
        ))
      (omega arith) (read_field-field_bytes previous f (fields_bytes fs) word ordered)
      ((field_error_iff schema output f).1 (rule, shape))
    ∙ ap (tlv_loop fuel schema (count + 1) (some f.id) (keep_field schema output f))
        (drop-field_bytes f (fields_bytes fs))
    ∙ tlv_loop-fields_bytes fuel schema (count + 1) (some f.id) (keep_field schema output f) fs out
        (omega (arith, length-append (field_bytes f) (fields_bytes fs), length-field_bytes f))
        (omega arith) canonical

-- What the bytes of a body or of header extensions have to be, and what is read from them.
abbrev pub IsFieldList : List FieldRule → List ℕ → List FieldView → Type 0
IsFieldList schema bytes out =
    (fs : List FieldView) × (bytes ≡ fields_bytes fs)
    × (length fs ≤ max_fields)
    × IsCanonical schema Option.none [] fs out
    × HasRequired schema out

parse_tlvs_inv :
    (bytes : List ℕ) (schema : List FieldRule) (out : List FieldView)
    → (parse_tlvs bytes schema ≡ ok out) ↔ (
        (tlv_loop (length bytes) schema 0 Option.none [] bytes ≡ ok out)
        × (has_required schema out ≡ true))
unfolding parse_tlvs
parse_tlvs_inv bytes schema out = (λ h. ground arith, λ (l, r). ground arith)

-- For any schema and any bytes, the parser accepts the bytes with the fields `out` exactly when
-- the bytes are the encoding of at most 256 fields in order of their ids, each of which has the
-- shape of its wire type and follows its rule, or is not critical if the schema has no rule for it;
-- `out` is the fields with a rule, in order, and has one for each required rule.
pub parse_tlvs_iff :
    (bytes : List ℕ) (schema : List FieldRule) (out : List FieldView)
    → All IsByte bytes
    → (parse_tlvs bytes schema ≡ ok out) ↔ IsFieldList schema bytes out
parse_tlvs_iff bytes schema out b = (
  λ h.
      let (looped, all) = (parse_tlvs_inv bytes schema out).0 h in
      let (fs, e, few, canonical) =
        tlv_loop-IsCanonical (length bytes) schema 0 Option.none [] bytes out b (omega arith)
          looped in
      (fs, e, omega arith, canonical, (has_required_iff schema out).0 all),
  λ (fs, e, few, canonical, all). (parse_tlvs_inv bytes schema out).1 (
    rw e (
        tlv_loop-fields_bytes (length (fields_bytes fs)) schema 0 Option.none [] fs out
          (omega arith) (omega arith) canonical),
    (has_required_iff schema out).1 all,
  ),
)

read_field_err :
    (previous : Option ℕ) (bytes : List ℕ) → read_field previous bytes ≢ err ErrorCode.none
unfolding read_field
read_field_err previous bytes = λ h. ground arith

tlv_loop_err :
    (fuel : ℕ) (schema : List FieldRule) (count : ℕ) (previous : Option ℕ) (output : List FieldView)
    (bytes : List ℕ)
    → tlv_loop fuel schema count previous output bytes ≢ err ErrorCode.none
unfolding tlv_loop
tlv_loop_err fuel schema count previous output [] = λ h. ground arith
tlv_loop_err zero schema count previous output (x ∷ xs) = λ h. ground arith
tlv_loop_err (suc fuel) schema count previous output (x ∷ xs) = λ h.
    elim (Result-cases (read_field previous (x ∷ xs))) [
      | inl (e, refused) ↦ ground (arith, read_field_err previous (x ∷ xs))
      | inr (f, read) ↦ ground (
        arith,
        tlv_loop_err fuel schema (count + 1) (some f.id) (keep_field schema output f)
            (drop (8 + length f.value) (x ∷ xs)),
      )
    ]

-- A refusal always has an error code.
pub parse_tlvs_err :
    (bytes : List ℕ) (schema : List FieldRule) → parse_tlvs bytes schema ≢ err ErrorCode.none
unfolding parse_tlvs
parse_tlvs_err bytes schema =
    λ h. ground (arith, tlv_loop_err (length bytes) schema 0 Option.none [] bytes)

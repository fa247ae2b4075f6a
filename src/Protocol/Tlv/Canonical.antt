-- ===== src/Protocol/Tlv/Canonical.antt =====
-- What `parse_tlvs` accepts, described without the parser.
use file_sender_byte_spark.Prelude.{
  ℕ, zero, suc, ◌+◌, ◌≤◌, ◌≡◌, ◌≢◌, ◌⊎◌, ◌↔◌, refl, inl, inr, Bool, true, false, Option, some, List,
  [], ◌∷◌, length, get_or, drop, arith, sym, subst, ◌++◌, ◌%◌, Option-cases, Bool-cases, ◌==◌,
  if◌then◌else◌,
}
use file_sender_byte_spark.Protocol.Types.{WireType, FieldView, ErrorCode, is_ok, max_fields}
use file_sender_byte_spark.Protocol.Schema.{Presence, FieldRule, find_rule}
use file_sender_byte_spark.Protocol.Utf8.{is_valid_utf8}
use file_sender_byte_spark.Protocol.Tlv.{
  Result, ok, err, fixed_wire_length, validate_wire_value, count_field, is_before, read_field,
  same_wire, rule_error, schema_error, field_error, keep_field, tlv_loop, parse_tlvs, has_required,
}
use file_sender_byte_spark.Protocol.Tlv.Field.{IsFieldWord}

-- The value has the shape of its wire type.
abbrev pub IsWireValue : WireType → List ℕ → Type 0
IsWireValue WireType.u8 value = length value ≡ 1
IsWireValue WireType.u16 value = length value ≡ 2
IsWireValue WireType.u32 value = length value ≡ 4
IsWireValue WireType.u64 value = length value ≡ 8
IsWireValue WireType.bytes value = Unit {0}
IsWireValue WireType.utf8 value = is_valid_utf8 value ≡ true
IsWireValue WireType.bool value =
    (length value ≡ 1) × ((get_or value 0 0 ≡ 0) ⊎ (get_or value 0 0 ≡ 1))

-- The critical flag is the lowest bit. An optional field is not critical; a required or
-- conditional one is.
abbrev pub HasPresence : Presence → ℕ → Type 0
HasPresence Presence.optional flags = flags % 2 ≡ 0
HasPresence _ flags = flags % 2 ≢ 0

-- No field has this id.
abbrev pub LacksId : ℕ → List FieldView → Type 0
LacksId id [] = Unit {0}
LacksId id (f ∷ fs) = (f.id ≢ id) × LacksId id fs

-- A rule that is not repeated allows no earlier field with the same id.
abbrev pub IsScalarFresh : Bool → List FieldView → ℕ → Type 0
IsScalarFresh true output id = Unit {0}
IsScalarFresh false output id = LacksId id output

-- The first rule of the schema with this id, or that there is none.
abbrev pub RuleOf : List FieldRule → ℕ → Option FieldRule → Type 0
RuleOf [] id r = r ≡ Option.none
RuleOf (rule ∷ schema) id r =
    ((rule.id ≡ id) × (r ≡ some rule)) ⊎ ((rule.id ≢ id) × RuleOf schema id r)

-- The ids do not descend.
abbrev pub IsOrdered : Option ℕ → ℕ → Type 0
IsOrdered Option.none id = Unit {0}
IsOrdered (some previous) id = previous ≤ id

-- Fields with a rule are kept, in order; the others are skipped.
abbrev pub with_rule : Option FieldRule → List FieldView → FieldView → List FieldView
with_rule Option.none output f = output
with_rule (some rule) output f = output ++ (f ∷ [])

pub record Follows (rule : FieldRule) (output : List FieldView) (f : FieldView) : Type 0 where
  pub presence : HasPresence rule.presence f.flags
  pub wire : f.wire_type ≡ rule.wire_type
  pub long_enough : rule.minimum_length ≤ length f.value
  pub short_enough : length f.value ≤ rule.maximum_length
  pub fresh : IsScalarFresh rule.repeated output f.id

-- A field that the schema has no rule for may be skipped.
abbrev pub FitsRule : Option FieldRule → List FieldView → FieldView → Type 0
FitsRule Option.none output f = f.flags % 2 ≡ 0
FitsRule (some rule) output f = Follows rule output f

same_wire-eq : (a b : WireType) → (same_wire a b ≡ true) ↔ (a ≡ b)
same_wire-eq a b = ground arith

IsWireValue-iff :
    (w : WireType) (v : List ℕ) → (validate_wire_value w v ≡ ErrorCode.none) ↔ IsWireValue w v
unfolding validate_wire_value fixed_wire_length
IsWireValue-iff w v = ground arith

pub count_field-LacksId : (fs : List FieldView) (id : ℕ) → (count_field fs id ≡ 0) ↔ LacksId id fs
unfolding count_field
count_field-LacksId [] id = (λ _. tt, λ _. refl)
count_field-LacksId (f ∷ fs) id = (
  λ h. (ground arith, (count_field-LacksId fs id).0 (ground arith)),
  λ (n, l). let rest = (count_field-LacksId fs id).1 l in ground (arith, rest),
)

find_rule-RuleOf : (schema : List FieldRule) (id : ℕ) → RuleOf schema id (find_rule schema id)
unfolding find_rule
find_rule-RuleOf [] id = refl
find_rule-RuleOf (rule ∷ schema) id = let rest = find_rule-RuleOf schema id in ground (arith, rest)

RuleOf-find_rule :
    (schema : List FieldRule) (id : ℕ) (r : Option FieldRule)
    → RuleOf schema id r
    → find_rule schema id ≡ r
unfolding find_rule
RuleOf-find_rule [] id r h = sym h
RuleOf-find_rule (rule ∷ schema) id r (inl (e, k)) = ground (arith, k)
RuleOf-find_rule (rule ∷ schema) id r (inr (n, h)) =
    let rest = RuleOf-find_rule schema id r h in ground (arith, rest)

pub is_before_iff :
    (id : ℕ) (previous : Option ℕ) → (is_before id previous ≡ false) ↔ IsOrdered previous id
is_before_iff id previous = ground arith

keep_field-with_rule :
    (schema : List FieldRule) (output : List FieldView) (f : FieldView) (r : Option FieldRule)
    → find_rule schema f.id ≡ r
    → keep_field schema output f ≡ with_rule r output f
unfolding keep_field
keep_field-with_rule schema output f Option.none e = ground (arith, e)
keep_field-with_rule schema output f (some rule) e = ground (arith, e)

rule_error_iff :
    (rule : FieldRule) (output : List FieldView) (f : FieldView)
    → (rule_error rule output f ≡ ErrorCode.none) ↔ Follows rule output f
unfolding rule_error
rule_error_iff rule output f = (
  λ h. ground (arith, same_wire-eq f.wire_type rule.wire_type, (count_field-LacksId output f.id).0),
  λ h. ground (arith, same_wire-eq f.wire_type rule.wire_type, (count_field-LacksId output f.id).1),
)

pub field_error_iff :
    (schema : List FieldRule) (output : List FieldView) (f : FieldView)
    → (is_ok (field_error schema output f) ≡ true)
      ↔ (FitsRule (find_rule schema f.id) output f × IsWireValue f.wire_type f.value)
unfolding field_error schema_error
field_error_iff schema output f = elim (Option-cases (find_rule schema f.id)) [
  | inl unknown ↦ rw unknown (
    (λ h. (
      ground (arith, unknown),
      (IsWireValue-iff f.wire_type f.value).0 (ground (arith, unknown)),
    )),
    (λ (p, v). let w = (IsWireValue-iff f.wire_type f.value).1 v in ground (arith, unknown, w)),
  )
  | inr (rule, known) ↦ rw known (
    (λ h. (
      (rule_error_iff rule output f).0 (ground (arith, known)),
      (IsWireValue-iff f.wire_type f.value).0 (ground (arith, known)),
    )),
    (λ (p, v).
        let w = (IsWireValue-iff f.wire_type f.value).1 v in
        let r = (rule_error_iff rule output f).1 p in ground (arith, known, w, r)),
  )
]

-- The fields `fs`, read behind `previous` with `output` already kept, are in order, fit their
-- rules and their wire types, and leave `out`.
abbrev pub IsCanonical :
    List FieldRule → Option ℕ → List FieldView → List FieldView → List FieldView → Type 0
IsCanonical schema previous output [] out = out ≡ output
IsCanonical schema previous output (f ∷ fs) out =
    IsFieldWord f
    × IsOrdered previous f.id
    × ((r : Option FieldRule) × RuleOf schema f.id r
        × FitsRule r output f
        × IsWireValue f.wire_type f.value
        × IsCanonical schema (some f.id) (with_rule r output f) fs out)

-- The rule of a field in the two directions: as the parser finds it, and as it is described.
pub IsCanonical-cons :
    (schema : List FieldRule) (previous : Option ℕ) (output : List FieldView) (f : FieldView)
    (fs out : List FieldView)
    → IsFieldWord f
    → is_before f.id previous ≡ false
    → FitsRule (find_rule schema f.id) output f
    → IsWireValue f.wire_type f.value
    → IsCanonical schema (some f.id) (keep_field schema output f) fs out
    → IsCanonical schema previous output (f ∷ fs) out
IsCanonical-cons schema previous output f fs out word ordered rule shape rest =
    let r = find_rule schema f.id in
    (
      word,
      (is_before_iff f.id previous).0 ordered,
      (
        r,
        find_rule-RuleOf schema f.id,
        rule,
        shape,
        subst (λ k. IsCanonical schema (some f.id) k fs out)
            (keep_field-with_rule schema output f r refl) rest,
      ),
    )

pub IsCanonical-uncons :
    (schema : List FieldRule) (previous : Option ℕ) (output : List FieldView) (f : FieldView)
    (fs out : List FieldView)
    → IsCanonical schema previous output (f ∷ fs) out
    → IsFieldWord f
      × (is_before f.id previous ≡ false)
      × FitsRule (find_rule schema f.id) output f
      × IsWireValue f.wire_type f.value
      × IsCanonical schema (some f.id) (keep_field schema output f) fs out
IsCanonical-uncons schema previous output f fs out (word, ordered, (r, known, rule, shape, rest)) =
    let found = RuleOf-find_rule schema f.id r known in
    (
      word,
      (is_before_iff f.id previous).1 ordered,
      subst (λ k. FitsRule k output f) (sym found) rule,
      shape,
      subst (λ k. IsCanonical schema (some f.id) k fs out)
          (sym (keep_field-with_rule schema output f r found)) rest,
    )

-- One round, forwards and backwards.
pub tlv_loop_step :
    (fuel : ℕ) (schema : List FieldRule) (count : ℕ) (previous : Option ℕ) (output : List FieldView)
    (bytes : List ℕ) (f : FieldView)
    → bytes ≢ []
    → count ≢ max_fields
    → read_field previous bytes ≡ ok f
    → is_ok (field_error schema output f) ≡ true
    → tlv_loop (suc fuel) schema count previous output bytes
      ≡ tlv_loop fuel schema
          (count + 1)
          (some f.id)
          (keep_field schema output f)
          (drop (8 + length f.value) bytes)
unfolding tlv_loop
tlv_loop_step fuel schema count previous output [] f n c r e = absurd (n refl)
tlv_loop_step fuel schema count previous output (x ∷ xs) f n c r e = ground arith

pub Result-cases {ℓ} :
    {A : Type ℓ} (r : Result A) → ((e : ErrorCode) × (r ≡ err e)) ⊎ ((a : A) × (r ≡ ok a))
Result-cases (ok a) = inr (a, refl)
Result-cases (err e) = inl (e, refl)

pub tlv_loop_inv :
    (fuel : ℕ) (schema : List FieldRule) (count : ℕ) (previous : Option ℕ) (output : List FieldView)
    (x : ℕ) (xs : List ℕ) (out : List FieldView)
    → tlv_loop (suc fuel) schema count previous output (x ∷ xs) ≡ ok out
    → (f : FieldView) × (count ≢ max_fields)
      × (read_field previous (x ∷ xs) ≡ ok f)
      × (is_ok (field_error schema output f) ≡ true)
      × (tlv_loop fuel schema
            (count + 1)
            (some f.id)
            (keep_field schema output f)
            (drop (8 + length f.value) (x ∷ xs))
          ≡ ok out)
unfolding tlv_loop
tlv_loop_inv fuel schema count previous output x xs out h =
    elim (Result-cases (read_field previous (x ∷ xs))) [
      | inl (e, refused) ↦ absurd (ground arith)
      | inr (f, read) ↦ (f, ground arith, read, ground arith, ground arith)
    ]

-- A refusal has an error.
read_field-error :
    (previous : Option ℕ) (bytes : List ℕ) (e : ErrorCode)
    → read_field previous bytes ≡ err e
    → is_ok e ≡ false
unfolding read_field
read_field-error previous bytes e h = ground arith

error_same :
    (x : Result (List FieldView)) (a b : ErrorCode)
    → is_ok a ≡ false
    → x ≡ err a
    → x ≡ err b
    → is_ok b ≡ false
error_same x a b w h k = ground arith

tlv_loop-error :
    (fuel : ℕ) (schema : List FieldRule) (count : ℕ) (previous : Option ℕ) (output : List FieldView)
    (bytes : List ℕ) (e : ErrorCode)
    → tlv_loop fuel schema count previous output bytes ≡ err e
    → is_ok e ≡ false
unfolding tlv_loop
tlv_loop-error fuel schema count previous output [] e h = ground arith
tlv_loop-error zero schema count previous output (x ∷ xs) e h = ground arith
tlv_loop-error (suc fuel) schema count previous output (x ∷ xs) e h =
    elim (Bool-cases (count == max_fields)) [
      | inl full ↦
          error_same (err ErrorCode.limit_exceeded) ErrorCode.limit_exceeded e refl refl
            (rw (tlv_loop, full) at h)
      | inr room ↦ elim (Result-cases (read_field previous (x ∷ xs))) [
        | inl (r, read) ↦
            error_same (err r) r e (read_field-error previous (x ∷ xs) r read) refl
              (rw (tlv_loop, room, read) at h)
        | inr (f, read) ↦ elim (Bool-cases (is_ok (field_error schema output f))) [
          | inr wrong ↦
              error_same (err (field_error schema output f)) (field_error schema output f) e wrong
                refl (rw (tlv_loop, room, read, wrong) at h)
          | inl fine ↦
              tlv_loop-error fuel schema (count + 1) (some f.id) (keep_field schema output f)
                (drop (8 + length f.value) (x ∷ xs)) e (rw (tlv_loop, room, read, fine) at h)
        ]
      ]
    ]

missing_field :
    (found : Bool) (out : List FieldView) (e : ErrorCode)
    → (if found then ok out else err ErrorCode.malformed_message) ≡ err e
    → is_ok e ≡ false
missing_field found out e h = ground arith

pub parse_tlvs-error :
    (bytes : List ℕ) (schema : List FieldRule) (e : ErrorCode)
    → parse_tlvs bytes schema ≡ err e
    → is_ok e ≡ false
unfolding parse_tlvs
parse_tlvs-error bytes schema e h =
    elim (Result-cases (tlv_loop (length bytes) schema 0 Option.none [] bytes)) [
      | inl (r, l) ↦
          error_same (err r) r e (tlv_loop-error (length bytes) schema 0 Option.none [] bytes r l)
            refl (rw (parse_tlvs, l) at h)
      | inr (out, l) ↦ missing_field (has_required schema out) out e (rw (parse_tlvs, l) at h)
    ]

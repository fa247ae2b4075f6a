-- ===== src/Protocol/Tlv/Field.antt =====
-- One field on the wire: `read_field` is the inverse of what `BodyBuilder::Add` appends.
use file_sender_byte_spark.Prelude.{
  ℕ, zero, suc, ◌+◌, ◌≤◌, ◌<◌, ◌≡◌, refl, sym, ap, ◌∙◌, false, Option, some, List, [], ◌∷◌, ◌++◌,
  length, length-append, take, drop, All, IsByte, arith, u16_mod, u32_mod, take-length-append,
  drop-length-append,
}
use file_sender_byte_spark.Protocol.Types.{WireType, wire_code, wire_of, FieldView}
use file_sender_byte_spark.Protocol.Bytes.{
  read_u16, read_u32, read_loop, u16_bytes, u32_bytes, read-u16_bytes, read-u32_bytes,
}
use file_sender_byte_spark.Protocol.Tlv.{ok, is_before, read_field}

-- The bytes that `BodyBuilder::Add` appends for a field.
unfoldable pub field_bytes : FieldView → List ℕ
field_bytes f =
    u16_bytes f.id ++ (wire_code f.wire_type ∷ f.flags ∷ (u32_bytes (length f.value) ++ f.value))

unfoldable pub fields_bytes : List FieldView → List ℕ
fields_bytes [] = []
fields_bytes (f ∷ fs) = field_bytes f ++ fields_bytes fs

-- The members fit their words.
pub record IsFieldWord (f : FieldView) : Type 0 where
  pub id_fits : f.id < u16_mod
  pub flags_fit : f.flags < 2
  pub length_fits : length f.value < u32_mod

wire_of-wire_code : (w : WireType) → wire_of (wire_code w) ≡ some w
unfolding wire_of wire_code
wire_of-wire_code w = ground arith

wire_code-wire_of : (v : ℕ) (w : WireType) → wire_of v ≡ some w → wire_code w ≡ v
unfolding wire_of wire_code
wire_code-wire_of v w h = ground arith

pub length-field_bytes : (f : FieldView) → length (field_bytes f) ≡ 8 + length f.value
unfolding field_bytes u16_bytes u32_bytes
length-field_bytes f = omega arith

pub read_field-field_bytes :
    (previous : Option ℕ) (f : FieldView) (rest : List ℕ)
    → IsFieldWord f
    → is_before f.id previous ≡ false
    → read_field previous (field_bytes f ++ rest) ≡ ok f
unfolding read_field field_bytes u16_bytes u32_bytes
read_field-field_bytes previous f rest w b = ground (
  arith,
  wire_of-wire_code f.wire_type,
  length-append f.value rest,
  take-length-append f.value rest,
  read-u16_bytes f.id
      (wire_code f.wire_type ∷ f.flags ∷ (u32_bytes (length f.value) ++ (f.value ++ rest))),
  read-u32_bytes (length f.value) (f.value ++ rest),
)

pub drop-field_bytes :
    (f : FieldView) (rest : List ℕ) → drop (8 + length f.value) (field_bytes f ++ rest) ≡ rest
drop-field_bytes f rest =
    ap (λ n. drop n (field_bytes f ++ rest)) (sym (length-field_bytes f))
    ∙ drop-length-append (field_bytes f) rest

-- Reading back: the bytes of the numbers that were read.
u16_bytes-read :
    (a b : ℕ) (rest : List ℕ) → a < 256 → b < 256 → u16_bytes (read_u16 (a ∷ b ∷ rest)) ≡ a ∷ b ∷ []
unfolding u16_bytes read_u16
u16_bytes-read a b rest ha hb = ground arith

u32_bytes-read :
    (a b c d : ℕ) (rest : List ℕ)
    → a < 256
    → b < 256
    → c < 256
    → d < 256
    → u32_bytes (read_u32 (a ∷ b ∷ c ∷ d ∷ rest)) ≡ a ∷ b ∷ c ∷ d ∷ []
unfolding u32_bytes read_u32 read_loop
u32_bytes-read a b c d rest ha hb hc hd = ground arith

take-append-drop : (n : ℕ) (xs : List ℕ) → take n xs ++ drop n xs ≡ xs
take-append-drop zero xs = refl
take-append-drop (suc n) [] = refl
take-append-drop (suc n) (x ∷ xs) = ap (◌∷◌ x) (take-append-drop n xs)

length-take : (n : ℕ) (xs : List ℕ) → n ≤ length xs → length (take n xs) ≡ n
length-take zero xs h = refl
length-take (suc n) [] h = absurd (omega arith)
length-take (suc n) (x ∷ xs) h = ap suc (length-take n xs (omega arith))

-- A field that was read: its bytes stood at the front, it fits its words, and it is in order.
abbrev pub Reads : Option ℕ → List ℕ → FieldView → Type 0
Reads previous bytes f =
    (bytes ≡ field_bytes f ++ drop (8 + length f.value) bytes)
    × IsFieldWord f
    × (is_before f.id previous ≡ false)

-- The parts of a successful read.
read_field_parts :
    (previous : Option ℕ) (a b w fl l₃ l₂ l₁ l₀ : ℕ) (rest : List ℕ) (f : FieldView)
    → read_field previous (a ∷ b ∷ w ∷ fl ∷ l₃ ∷ l₂ ∷ l₁ ∷ l₀ ∷ rest) ≡ ok f
    → (is_before (read_u16 (a ∷ b ∷ w ∷ fl ∷ l₃ ∷ l₂ ∷ l₁ ∷ l₀ ∷ rest)) previous ≡ false)
      × (wire_of w ≡ some f.wire_type)
      × (fl < 2)
      × (f.flags ≡ fl)
      × (read_u32 (l₃ ∷ l₂ ∷ l₁ ∷ l₀ ∷ rest) ≤ length rest)
      × (f.id ≡ read_u16 (a ∷ b ∷ w ∷ fl ∷ l₃ ∷ l₂ ∷ l₁ ∷ l₀ ∷ rest))
      × (f.value ≡ take (read_u32 (l₃ ∷ l₂ ∷ l₁ ∷ l₀ ∷ rest)) rest)
unfolding read_field
read_field_parts previous a b w fl l₃ l₂ l₁ l₀ rest f h = ground arith

read_u16-lt : (a b : ℕ) (rest : List ℕ) → a < 256 → b < 256 → read_u16 (a ∷ b ∷ rest) < u16_mod
unfolding read_u16
read_u16-lt a b rest ha hb = omega arith

read_u32-lt :
    (a b c d : ℕ) (rest : List ℕ)
    → a < 256
    → b < 256
    → c < 256
    → d < 256
    → read_u32 (a ∷ b ∷ c ∷ d ∷ rest) < u32_mod
unfolding read_u32 read_loop
read_u32-lt a b c d rest ha hb hc hd = omega arith

drop_header :
    (k a b w fl l₃ l₂ l₁ l₀ : ℕ) (rest : List ℕ)
    → drop (8 + k) (a ∷ b ∷ w ∷ fl ∷ l₃ ∷ l₂ ∷ l₁ ∷ l₀ ∷ rest) ≡ drop k rest
drop_header k a b w fl l₃ l₂ l₁ l₀ rest =
    let e : 8 + k ≡ suc (suc (suc (suc (suc (suc (suc (suc k))))))) = omega arith in
    ap (λ m. drop m (a ∷ b ∷ w ∷ fl ∷ l₃ ∷ l₂ ∷ l₁ ∷ l₀ ∷ rest)) e

field_bytes_parts :
    (f : FieldView) (a b w fl l₃ l₂ l₁ l₀ : ℕ) (more rest : List ℕ)
    → u16_bytes f.id ≡ a ∷ b ∷ []
    → wire_code f.wire_type ≡ w
    → f.flags ≡ fl
    → u32_bytes (length f.value) ≡ l₃ ∷ l₂ ∷ l₁ ∷ l₀ ∷ []
    → f.value ++ more ≡ rest
    → a ∷ b ∷ w ∷ fl ∷ l₃ ∷ l₂ ∷ l₁ ∷ l₀ ∷ rest ≡ field_bytes f ++ more
unfolding field_bytes
field_bytes_parts f a b w fl l₃ l₂ l₁ l₀ more rest e₁ e₂ e₃ e₄ e₅ = rw (e₁, e₂, e₃, e₄, e₅)

pub read_field-Reads :
    (previous : Option ℕ) (bytes : List ℕ) (f : FieldView)
    → All IsByte bytes
    → read_field previous bytes ≡ ok f
    → Reads previous bytes f
read_field-Reads previous (a ∷ b ∷ w ∷ fl ∷ l₃ ∷ l₂ ∷ l₁ ∷ l₀ ∷ rest) f
      (ha, (hb, (hw, (hf, (h₃, (h₂, (h₁, (h₀, hr)))))))) h =
    let n : ℕ = read_u32 (l₃ ∷ l₂ ∷ l₁ ∷ l₀ ∷ rest) in
    let (ordered, wire, flags, same_flags, fits, id, value) =
      read_field_parts previous a b w fl l₃ l₂ l₁ l₀ rest f h in
    let size : length f.value ≡ n = ap length value ∙ length-take n rest fits in
    (
      field_bytes_parts f a b w fl l₃ l₂ l₁ l₀ _ rest (ap u16_bytes id ∙ u16_bytes-read a b _ ha hb)
          (wire_code-wire_of w f.wire_type wire) same_flags
          (ap u32_bytes size ∙ u32_bytes-read l₃ l₂ l₁ l₀ rest h₃ h₂ h₁ h₀)
          (rw (drop_header (length f.value) a b w fl l₃ l₂ l₁ l₀ rest, size, value)
            (take-append-drop n rest)),
      record {
        id_fits = rw id (read_u16-lt a b _ ha hb);
        flags_fit = omega arith;
        length_fits = rw size (read_u32-lt l₃ l₂ l₁ l₀ rest h₃ h₂ h₁ h₀);
      },
      rw id ordered,
    )
read_field-Reads previous xs f bytes h = unfold read_field in ground arith

-- ===== src/Protocol/Bytes.antt =====
-- Big-endian numbers: `ReadU16`, `ReadU32`, `ReadU64` and `DecodeUnsigned` of
-- native/src/protocol/v1_parser.cpp, and what writes them, `AppendU16`, `AppendU32` and `StoreU64`
-- of native/src/transfer/frame_codec.cpp. Of a byte `b`, `(v << 8) | b` is `v * 256 + b`, without
-- the bits that the word has no room for.
use file_sender_byte_spark.Prelude.{
  ℕ, ◌+◌, ◌*◌, ◌/◌, ◌%◌, ◌<◌, ◌≡◌, List, [], ◌∷◌, ◌++◌, get_or, take, u16_mod, u32_mod, u64_mod,
  arith,
}

abbrev pub shift_in : ℕ → ℕ → ℕ → ℕ
shift_in modulus value byte = value * 256 % modulus + byte

unfoldable pub read_loop : ℕ → ℕ → List ℕ → ℕ
read_loop modulus value [] = value
read_loop modulus value (b ∷ bs) = read_loop modulus (shift_in modulus value b) bs

unfoldable pub read_u16 : List ℕ → ℕ
read_u16 bs = get_or bs 0 0 * 256 + get_or bs 1 0

unfoldable pub read_u32 : List ℕ → ℕ
read_u32 bs = read_loop u32_mod 0 (take 4 bs)

unfoldable pub read_u64 : List ℕ → ℕ
read_u64 bs = read_loop u64_mod 0 (take 8 bs)

unfoldable pub decode_unsigned : List ℕ → ℕ
decode_unsigned value = read_loop u64_mod 0 value

-- What `AppendU16` and `AppendU32` push, and the eight bytes that `StoreU64` stores.
unfoldable pub u16_bytes : ℕ → List ℕ
u16_bytes v = (v / 256 % 256) ∷ (v % 256) ∷ []

unfoldable pub u32_bytes : ℕ → List ℕ
u32_bytes v = (v / 16777216 % 256) ∷ (v / 65536 % 256) ∷ (v / 256 % 256) ∷ (v % 256) ∷ []

unfoldable pub u64_bytes : ℕ → List ℕ
u64_bytes v =
    (v / 72057594037927936 % 256)
    ∷ (v / 281474976710656 % 256)
    ∷ (v / 1099511627776 % 256)
    ∷ (v / 4294967296 % 256)
    ∷ (v / 16777216 % 256)
    ∷ (v / 65536 % 256)
    ∷ (v / 256 % 256)
    ∷ (v % 256)
    ∷ []

pub read-u16_bytes : (v : ℕ) (rest : List ℕ) → v < u16_mod → read_u16 (u16_bytes v ++ rest) ≡ v
unfolding read_u16 u16_bytes
read-u16_bytes v rest h = omega arith

pub read-u32_bytes : (v : ℕ) (rest : List ℕ) → v < u32_mod → read_u32 (u32_bytes v ++ rest) ≡ v
unfolding read_u32 read_loop u32_bytes
read-u32_bytes v rest h = omega arith

pub read-u64_bytes : (v : ℕ) (rest : List ℕ) → v < u64_mod → read_u64 (u64_bytes v ++ rest) ≡ v
unfolding read_u64 read_loop u64_bytes
read-u64_bytes v rest h = omega arith

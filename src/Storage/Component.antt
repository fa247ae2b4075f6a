-- ===== src/Storage/Component.antt =====
-- One component of a path, and what is in common to all of native/src/storage/path_validator.cpp.
-- A path is its bytes; a `char` above 127 is negative in the source, and is in no range here.
use file_sender_byte_spark.Prelude.{
  ℕ, ◌+◌, ◌-◌, Bool, true, false, ◌&&◌, ◌||◌, List, [], ◌∷◌, length, get_or, take, leb, ltb, ◌==◌,
  if◌then◌else◌,
}

abbrev pub max_relative_path_bytes : ℕ
max_relative_path_bytes = 1024

abbrev pub max_path_components : ℕ
max_path_components = 32

abbrev pub max_path_component_bytes : ℕ
max_path_component_bytes = 255

abbrev pub max_file_bytes : ℕ
max_file_bytes = 17592186044416

abbrev pub slash : ℕ
slash = 0x2f

abbrev pub backslash : ℕ
backslash = 0x5c

abbrev pub colon : ℕ
colon = 0x3a

abbrev pub dot : ℕ
dot = 0x2e

abbrev pub space : ℕ
space = 0x20

-- ".xnn-transfer-tmp"
abbrev pub reserved_temporary_directory : List ℕ
reserved_temporary_directory =
    0x2e ∷ 0x78 ∷ 0x6e ∷ 0x6e ∷ 0x2d ∷ 0x74 ∷ 0x72 ∷ 0x61 ∷ 0x6e ∷ 0x73 ∷ 0x66 ∷ 0x65 ∷ 0x72 ∷ 0x2d
    ∷ 0x74 ∷ 0x6d ∷ 0x70 ∷ []

unfoldable pub is_ascii_alpha : ℕ → Bool
is_ascii_alpha value = (leb b'A' value && leb value b'Z') || (leb b'a' value && leb value b'z')

unfoldable pub fold_ascii : ℕ → ℕ
fold_ascii c = if leb b'A' c && leb c b'Z' then c - b'A' + b'a' else c

-- The loop over two texts of one size.
unfoldable pub folds_equal : List ℕ → List ℕ → Bool
folds_equal (x ∷ xs) (y ∷ ys) = fold_ascii x == fold_ascii y && folds_equal xs ys
folds_equal _ _ = true

unfoldable pub ascii_case_insensitive_equals : List ℕ → List ℕ → Bool
ascii_case_insensitive_equals left right =
    if length left == length right then folds_equal left right else false

unfoldable pub ends_with : ℕ → List ℕ → Bool
ends_with c [] = false
ends_with c (x ∷ []) = x == c
ends_with c (x ∷ y ∷ ys) = ends_with c (y ∷ ys)

-- `component.substr(0, component.find('.'))`
unfoldable pub stem : List ℕ → List ℕ
stem [] = []
stem (x ∷ xs) = if x == dot then [] else x ∷ stem xs

unfoldable pub is_reserved_stem : List ℕ → Bool
is_reserved_stem s =
    ascii_case_insensitive_equals s (b'C' ∷ b'O' ∷ b'N' ∷ [])
    || ascii_case_insensitive_equals s (b'P' ∷ b'R' ∷ b'N' ∷ [])
    || ascii_case_insensitive_equals s (b'A' ∷ b'U' ∷ b'X' ∷ [])
    || ascii_case_insensitive_equals s (b'N' ∷ b'U' ∷ b'L' ∷ [])

-- `stem.size() != 4 || stem[3] < '1' || stem[3] > '9'`
unfoldable pub lacks_device_number : List ℕ → Bool
lacks_device_number s =
    if length s == 4 then ltb (get_or s 3 0) b'1' || ltb b'9' (get_or s 3 0) else true

unfoldable pub is_windows_reserved_component : List ℕ → Bool
is_windows_reserved_component component =
    if ends_with dot component || ends_with space component
    then true
    else if is_reserved_stem (stem component)
    then true
    else if lacks_device_number (stem component)
    then false
    else ascii_case_insensitive_equals (take 3 (stem component)) (b'C' ∷ b'O' ∷ b'M' ∷ [])
      || ascii_case_insensitive_equals (take 3 (stem component)) (b'L' ∷ b'P' ∷ b'T' ∷ [])

-- The comparison `component == text`.
unfoldable pub same_bytes : List ℕ → List ℕ → Bool
same_bytes [] [] = true
same_bytes (x ∷ xs) (y ∷ ys) = x == y && same_bytes xs ys
same_bytes _ _ = false

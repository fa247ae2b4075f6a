-- ===== src/Storage/Path/Device.antt =====
-- The names that Windows keeps for devices, described without `IsWindowsReservedComponent` of
-- native/src/storage/path_validator.cpp, and that its test is exact.
use file_sender_byte_spark.Prelude.{
  ℕ, zero, suc, ◌+◌, ◌≤◌, ◌≡◌, ◌≢◌, ◌⊎◌, ◌↔◌, refl, ap, inl, inr, true, false, List, [], ◌∷◌, ◌++◌,
  length, get_or, take, All, arith, Bool-cases,
}
use file_sender_byte_spark.Storage.Component.{
  dot, space, fold_ascii, folds_equal, ascii_case_insensitive_equals, ends_with, stem,
  is_reserved_stem, lacks_device_number, is_windows_reserved_component,
}

-- An upper case letter, and a letter that is the same in one case or the other.
abbrev IsUpper : ℕ → Type 0
IsUpper y = (b'A' ≤ y) × (y ≤ b'Z')

abbrev pub IsLetter : ℕ → ℕ → Type 0
IsLetter y x = (x ≡ y) ⊎ (x ≡ y + 32)

-- The text is the name, whatever the case of its letters, and then ends or goes on with a dot.
abbrev pub IsNamed : List ℕ → List ℕ → Type 0
IsNamed [] [] = Unit {0}
IsNamed [] (x ∷ xs) = x ≡ dot
IsNamed (y ∷ ys) [] = ⊥
IsNamed (y ∷ ys) (x ∷ xs) = IsLetter y x × IsNamed ys xs

-- The same with a digit from 1 to 9 behind the name.
abbrev pub IsNumbered : List ℕ → List ℕ → Type 0
IsNumbered ys [] = ⊥
IsNumbered [] (x ∷ xs) = (b'1' ≤ x) × (x ≤ b'9') × IsNamed [] xs
IsNumbered (y ∷ ys) (x ∷ xs) = IsLetter y x × IsNumbered ys xs

-- CON, PRN, AUX, NUL, COM1 to COM9 and LPT1 to LPT9, with or without an extension.
pub data IsDevice (c : List ℕ) : Type 0 where
  is_con : IsNamed (b'C' ∷ b'O' ∷ b'N' ∷ []) c → IsDevice c
  is_prn : IsNamed (b'P' ∷ b'R' ∷ b'N' ∷ []) c → IsDevice c
  is_aux : IsNamed (b'A' ∷ b'U' ∷ b'X' ∷ []) c → IsDevice c
  is_nul : IsNamed (b'N' ∷ b'U' ∷ b'L' ∷ []) c → IsDevice c
  is_com : IsNumbered (b'C' ∷ b'O' ∷ b'M' ∷ []) c → IsDevice c
  is_lpt : IsNumbered (b'L' ∷ b'P' ∷ b'T' ∷ []) c → IsDevice c

-- The stem as the test compares it: its length and its letters.
abbrev HasStem : List ℕ → List ℕ → Type 0
HasStem ys c = (length (stem c) ≡ length ys) × (folds_equal (stem c) ys ≡ true)

fold-IsLetter : (x y : ℕ) → IsUpper y → (fold_ascii x ≡ fold_ascii y) ↔ IsLetter y x
unfolding fold_ascii
fold-IsLetter x y u = (λ h. ground arith, λ h. ground arith)

letter-dot : (x y : ℕ) → IsUpper y → IsLetter y x → x ≢ dot
letter-dot x y u h = λ e. ground arith

HasStem-IsNamed : (ys c : List ℕ) → All IsUpper ys → HasStem ys c ↔ IsNamed ys c
unfolding stem folds_equal
HasStem-IsNamed [] [] u = (λ _. tt, λ _. (refl, refl))
HasStem-IsNamed [] (x ∷ xs) u = (λ h. ground arith, λ h. ground arith)
HasStem-IsNamed (y ∷ ys) [] u = (λ h. ground arith, λ h. absurd h)
HasStem-IsNamed (y ∷ ys) (x ∷ xs) (u, us) =
    let letter = fold-IsLetter x y u in
    let rest = HasStem-IsNamed ys xs us in
    let plain = letter-dot x y u in
    (λ h. ground (arith, letter, rest), λ h. ground (arith, letter, rest, plain))

stem-IsNamed :
    (ys c : List ℕ)
    → All IsUpper ys
    → (ascii_case_insensitive_equals (stem c) ys ≡ true) ↔ IsNamed ys c
unfolding ascii_case_insensitive_equals
stem-IsNamed ys c u =
    let h = HasStem-IsNamed ys c u in
    (λ e. h.0 (ground arith), λ n. let s = h.1 n in ground (arith, s))

-- The stem with a digit at its end.
abbrev HasPort : List ℕ → List ℕ → Type 0
HasPort ys c =
    (length (stem c) ≡ suc (length ys))
    × (b'1' ≤ get_or (stem c) (length ys) 0)
    × (get_or (stem c) (length ys) 0 ≤ b'9')
    × (folds_equal (take (length ys) (stem c)) ys ≡ true)

stem-empty : (xs : List ℕ) → (length (stem xs) ≡ 0) ↔ IsNamed [] xs
unfolding stem
stem-empty [] = (λ _. tt, λ _. refl)
stem-empty (x ∷ xs) = (λ h. ground arith, λ h. ground arith)

HasPort-IsNumbered : (ys c : List ℕ) → All IsUpper ys → HasPort ys c ↔ IsNumbered ys c
unfolding stem folds_equal
HasPort-IsNumbered [] [] u = (λ h. ground arith, λ h. absurd h)
HasPort-IsNumbered [] (x ∷ xs) u =
    let rest = stem-empty xs in (λ h. ground (arith, rest), λ h. ground (arith, rest))
HasPort-IsNumbered (y ∷ ys) [] u = (λ h. ground arith, λ h. absurd h)
HasPort-IsNumbered (y ∷ ys) (x ∷ xs) (u, us) =
    let letter = fold-IsLetter x y u in
    let rest = HasPort-IsNumbered ys xs us in
    let plain = letter-dot x y u in
    (λ h. ground (arith, letter, rest), λ h. ground (arith, letter, rest, plain))

length-take : (n : ℕ) (xs : List ℕ) → n ≤ length xs → length (take n xs) ≡ n
length-take zero xs h = refl
length-take (suc n) [] h = absurd (omega arith)
length-take (suc n) (x ∷ xs) h = ap suc (length-take n xs (omega arith))

stem-IsNumbered :
    (a b c : ℕ) (x : List ℕ)
    → All IsUpper (a ∷ b ∷ c ∷ [])
    → ((lacks_device_number (stem x) ≡ false)
        × (ascii_case_insensitive_equals (take 3 (stem x)) (a ∷ b ∷ c ∷ []) ≡ true))
      ↔ IsNumbered (a ∷ b ∷ c ∷ []) x
unfolding lacks_device_number ascii_case_insensitive_equals
stem-IsNumbered a b c x u =
    let h = HasPort-IsNumbered (a ∷ b ∷ c ∷ []) x u in
    let size = length-take 3 (stem x) in
    (λ e. h.0 (ground (arith, size)), λ n. let s = h.1 n in ground (arith, s, size))

-- The last byte.
abbrev pub LacksEnd : ℕ → List ℕ → Type 0
LacksEnd x c = (front : List ℕ) → c ≢ front ++ (x ∷ [])

ends_with-back : (x : ℕ) (front : List ℕ) → ends_with x (front ++ (x ∷ [])) ≡ true
unfolding ends_with
ends_with-back x [] = ground arith
ends_with-back x (y ∷ []) = ground arith
ends_with-back x (y ∷ z ∷ front) = ends_with-back x (z ∷ front)

ends_with-front :
    (x : ℕ) (c : List ℕ) → ends_with x c ≡ true → (front : List ℕ) × (c ≡ front ++ (x ∷ []))
unfolding ends_with
ends_with-front x [] h = cc
ends_with-front x (y ∷ []) h = ([], ground arith)
ends_with-front x (y ∷ z ∷ c) h =
    let (front, e) = ends_with-front x (z ∷ c) h in (y ∷ front, ap (◌∷◌ y) e)

LacksEnd-iff : (x : ℕ) (c : List ℕ) → (ends_with x c ≡ false) ↔ LacksEnd x c
LacksEnd-iff x c = (
  λ h front e. let back = ends_with-back x front in cc,
  λ n. elim (Bool-cases (ends_with x c)) [
    | inl h ↦ let (front, e) = ends_with-front x c h in absurd (n front e)
    | inr h ↦ h
  ],
)

-- The test of the source against the description.
pub is_windows_reserved_component_iff :
    (c : List ℕ)
    → (is_windows_reserved_component c ≡ false)
      ↔ ((IsDevice c → ⊥) × LacksEnd dot c × LacksEnd space c)
unfolding is_windows_reserved_component is_reserved_stem
is_windows_reserved_component_iff c =
    let con_iff = stem-IsNamed (b'C' ∷ b'O' ∷ b'N' ∷ []) c (ground arith) in
    let prn_iff = stem-IsNamed (b'P' ∷ b'R' ∷ b'N' ∷ []) c (ground arith) in
    let aux_iff = stem-IsNamed (b'A' ∷ b'U' ∷ b'X' ∷ []) c (ground arith) in
    let nul_iff = stem-IsNamed (b'N' ∷ b'U' ∷ b'L' ∷ []) c (ground arith) in
    let com_iff = stem-IsNumbered b'C' b'O' b'M' c (ground arith) in
    let lpt_iff = stem-IsNumbered b'L' b'P' b'T' c (ground arith) in
    let dots = LacksEnd-iff dot c in
    let spaces = LacksEnd-iff space c in
    (
      λ h. (
        λ d. elim d [
          | IsDevice.is_con n ↦ let e = con_iff.1 n in ground (arith, e)
          | IsDevice.is_prn n ↦ let e = prn_iff.1 n in ground (arith, e)
          | IsDevice.is_aux n ↦ let e = aux_iff.1 n in ground (arith, e)
          | IsDevice.is_nul n ↦ let e = nul_iff.1 n in ground (arith, e)
          | IsDevice.is_com n ↦ let e = com_iff.1 n in ground (arith, e)
          | IsDevice.is_lpt n ↦ let e = lpt_iff.1 n in ground (arith, e)
        ],
        dots.0 (ground arith),
        spaces.0 (ground arith),
      ),
      λ (d, e, s).
          let no_dot = dots.1 e in
          let no_space = spaces.1 s in
          let con_no = λ (n : IsNamed (b'C' ∷ b'O' ∷ b'N' ∷ []) c). d (IsDevice.is_con n) in
          let prn_no = λ (n : IsNamed (b'P' ∷ b'R' ∷ b'N' ∷ []) c). d (IsDevice.is_prn n) in
          let aux_no = λ (n : IsNamed (b'A' ∷ b'U' ∷ b'X' ∷ []) c). d (IsDevice.is_aux n) in
          let nul_no = λ (n : IsNamed (b'N' ∷ b'U' ∷ b'L' ∷ []) c). d (IsDevice.is_nul n) in
          let com_no = λ (n : IsNumbered (b'C' ∷ b'O' ∷ b'M' ∷ []) c). d (IsDevice.is_com n) in
          let lpt_no = λ (n : IsNumbered (b'L' ∷ b'P' ∷ b'T' ∷ []) c). d (IsDevice.is_lpt n) in
          ground (
            arith, no_dot, no_space, con_no, prn_no, aux_no, nul_no, com_no, lpt_no, con_iff.0,
            prn_iff.0, aux_iff.0, nul_iff.0, com_iff.0, lpt_iff.0,
          ),
    )

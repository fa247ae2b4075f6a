-- ===== src/Storage/Path/Complete.antt =====
-- The other half: a path made of safe components is accepted, and taken apart into just these.
use mathlib.Core.List.{append_assoc}
use file_sender_byte_spark.Prelude.{
  ℕ, zero, suc, ◌+◌, ◌≤◌, ◌<◌, ◌≡◌, ◌≢◌, refl, ap, sym, ◌∙◌, true, false, none, some, List, [], ◌∷◌,
  ◌++◌, length, get_or, length-append, any, All, ◌==◌, arith,
}
use file_sender_byte_spark.Storage.Types.{ValidationError}
use file_sender_byte_spark.Storage.Component.{
  max_relative_path_bytes, max_path_components, slash, backslash, colon, dot,
  reserved_temporary_directory, ends_with, ascii_case_insensitive_equals, same_bytes,
}
use file_sender_byte_spark.Storage.Codepoints.{
  Utf8proc, is_strict_utf8, validate_codepoints, is_nfc,
}
use file_sender_byte_spark.Storage.Path.{
  PathValidationResult, text_error, component_error, components_loop, validate_receive_path,
}
use file_sender_byte_spark.Storage.Path.Device.{is_windows_reserved_component_iff}
use file_sender_byte_spark.Storage.Path.Split.{
  component_of, rest_of, join, Lacks, component_of-append, rest_of-append, component_of_alone,
  rest_of-Lacks, ends_with-append,
}
use file_sender_byte_spark.Storage.Path.Safe.{IsSafeComponent}

same_bytes→eq : (xs ys : List ℕ) → same_bytes xs ys ≡ true → xs ≡ ys
unfolding same_bytes
same_bytes→eq [] [] h = refl
same_bytes→eq [] (y ∷ ys) h = cc
same_bytes→eq (x ∷ xs) [] h = cc
same_bytes→eq (x ∷ xs) (y ∷ ys) h = ground (arith, same_bytes→eq xs ys)

component_error_safe :
    (c : List ℕ) (components : List (List ℕ))
    → IsSafeComponent c
    → length components + 1 ≤ max_path_components
    → (length components ≡ 0 → ascii_case_insensitive_equals c reserved_temporary_directory ≡ false)
    → component_error c components ≡ ValidationError.none
unfolding component_error
component_error_safe [] components s few fresh = absurd (s.named refl)
component_error_safe (x ∷ xs) components s few fresh = ground (
  arith,
  same_bytes→eq (x ∷ xs) (dot ∷ []),
  same_bytes→eq (x ∷ xs) (dot ∷ dot ∷ []),
  s.not_here,
  s.not_up,
  (is_windows_reserved_component_iff (x ∷ xs)).1 (s.not_device, s.not_dotted, s.not_spaced),
  s.short,
)

-- What the first component may not be.
abbrev pub IsFreshRoot : List (List ℕ) → Type 0
IsFreshRoot [] = Unit {0}
IsFreshRoot (c ∷ cs) = ascii_case_insensitive_equals c reserved_temporary_directory ≡ false

-- One round of the loop, on the last component and on another.
components_loop_last :
    (fuel : ℕ) (path c left : List ℕ) (components : List (List ℕ))
    → component_of left ≡ c
    → rest_of left ≡ none
    → c ≢ []
    → component_error c components ≡ ValidationError.none
    → components_loop (suc fuel) path left components
      ≡ PathValidationResult.accepted (record { utf8 = path; components = components ++ (c ∷ []) })
unfolding components_loop component_of
components_loop_last fuel path c [] components e r n h = absurd (n (sym e))
components_loop_last fuel path c (x ∷ left) components e r n h = ground arith

components_loop_more :
    (fuel : ℕ) (path c left rest : List ℕ) (components : List (List ℕ))
    → component_of left ≡ c
    → rest_of left ≡ some rest
    → c ≢ []
    → component_error c components ≡ ValidationError.none
    → components_loop (suc fuel) path left components
      ≡ components_loop fuel path rest (components ++ (c ∷ []))
unfolding components_loop component_of
components_loop_more fuel path c [] rest components e r n h = absurd (n (sym e))
components_loop_more fuel path c (x ∷ left) rest components e r n h = ground arith

components_loop-join :
    (fuel : ℕ) (path c : List ℕ) (cs components : List (List ℕ))
    → length cs < fuel
    → All IsSafeComponent (c ∷ cs)
    → length components + length (c ∷ cs) ≤ max_path_components
    → (length components ≡ 0 → ascii_case_insensitive_equals c reserved_temporary_directory ≡ false)
    → components_loop fuel path (join (c ∷ cs)) components
      ≡ PathValidationResult.accepted (record { utf8 = path; components = components ++ (c ∷ cs) })
unfolding join
components_loop-join zero path c cs components h s few fresh = absurd (omega arith)
components_loop-join (suc fuel) path c [] components h s few fresh =
    components_loop_last fuel path c c components (component_of_alone c s.0.one_step)
      (rest_of-Lacks c s.0.one_step) s.0.named
      (component_error_safe c components s.0 (omega arith) fresh)
components_loop-join (suc fuel) path c (d ∷ cs) components h s few fresh =
    components_loop_more fuel path c (join (c ∷ d ∷ cs)) (join (d ∷ cs)) components
      (component_of-append c (join (d ∷ cs)) s.0.one_step)
      (rest_of-append c (join (d ∷ cs)) s.0.one_step) s.0.named
      (component_error_safe c components s.0 (omega arith) fresh)
    ∙ components_loop-join fuel path d cs (components ++ (c ∷ [])) (omega arith) s.1
        (omega (arith, length-append components (c ∷ [])))
        (λ z. absurd (omega (arith, length-append components (c ∷ []))))
    ∙ rw (append_assoc components (c ∷ []) (d ∷ cs))

-- Text that is well formed throughout.
pub record IsCleanText (utf8 : Utf8proc) (encoded : List ℕ) : Type 0 where
  pub short : length encoded ≤ max_relative_path_bytes
  pub strict : is_strict_utf8 utf8 encoded ≡ true
  pub printable : validate_codepoints utf8 encoded ≡ ValidationError.none
  pub normalized : is_nfc utf8 encoded ≡ true
  pub no_backslash : Lacks backslash encoded
  pub no_colon : Lacks colon encoded

Lacks-any : (b : ℕ) (xs : List ℕ) → Lacks b xs → any (λ c. c == b) xs ≡ false
Lacks-any b [] h = refl
Lacks-any b (x ∷ xs) h = ground (arith, Lacks-any b xs h.1)

length-join :
    (c : List ℕ) (cs : List (List ℕ))
    → All IsSafeComponent (c ∷ cs)
    → length cs < length (join (c ∷ cs))
unfolding join
length-join [] cs s = absurd (s.0.named refl)
length-join (x ∷ c) [] s = omega arith
length-join c (d ∷ cs) s =
    omega (arith, length-append c (slash ∷ join (d ∷ cs)), length-join d cs s.1)

ends_with-Lacks : (c : List ℕ) → Lacks slash c → ends_with slash c ≡ false
unfolding ends_with
ends_with-Lacks [] h = refl
ends_with-Lacks (x ∷ []) h = ground arith
ends_with-Lacks (x ∷ y ∷ c) h = ends_with-Lacks (y ∷ c) h.1

ends_with-cons : (x : ℕ) (r : List ℕ) → r ≢ [] → ends_with slash (x ∷ r) ≡ ends_with slash r
unfolding ends_with
ends_with-cons x [] h = absurd (h refl)
ends_with-cons x (y ∷ r) h = refl

ends_with-join :
    (c : List ℕ) (cs : List (List ℕ))
    → All IsSafeComponent (c ∷ cs)
    → ends_with slash (join (c ∷ cs)) ≡ false
unfolding join
ends_with-join c [] s = ends_with-Lacks c s.0.one_step
ends_with-join c (d ∷ cs) s =
    ends_with-append slash slash c (join (d ∷ cs))
    ∙ ends_with-cons slash (join (d ∷ cs)) (λ e. omega (arith, ap length e, length-join d cs s.1))
    ∙ ends_with-join d cs s.1

Lacks-get_or : (b i : ℕ) (xs : List ℕ) → b ≢ 0 → Lacks b xs → get_or xs i 0 ≢ b
Lacks-get_or b i [] n h = λ e. n (sym e)
Lacks-get_or b zero (x ∷ xs) n h = h.0
Lacks-get_or b (suc i) (x ∷ xs) n h = Lacks-get_or b i xs n h.1

text_error_clean :
    (path : List ℕ)
    → get_or path 0 0 ≢ slash
    → Lacks backslash path
    → Lacks colon path
    → ends_with slash path ≡ false
    → text_error path ≡ ValidationError.none
unfolding text_error
text_error_clean path s b c e = ground (
  arith,
  Lacks-any backslash path b,
  Lacks-any colon path c,
  Lacks-get_or backslash 0 path (omega arith) b,
  Lacks-get_or colon 1 path (omega arith) c,
)

join_first :
    (c : List ℕ) (cs : List (List ℕ)) → IsSafeComponent c → get_or (join (c ∷ cs)) 0 0 ≢ slash
unfolding join
join_first [] cs s = absurd (s.named refl)
join_first (x ∷ c) [] s = s.one_step.0
join_first (x ∷ c) (d ∷ cs) s = s.one_step.0

accepted_when :
    (utf8 : Utf8proc) (encoded : List ℕ) (r : PathValidationResult)
    → 0 < length encoded
    → IsCleanText utf8 encoded
    → text_error encoded ≡ ValidationError.none
    → components_loop (length encoded) encoded encoded [] ≡ r
    → validate_receive_path utf8 encoded ≡ r
unfolding validate_receive_path
accepted_when utf8 encoded r h k t l = ground arith

-- A list of 1 to 32 safe components, the first of them not the temporary directory of the program
-- in any case of letters, is accepted when it is joined by '/' into a text of at most 1024 bytes
-- that is strict, printable and normalized UTF-8 with no backslash and no colon; and the
-- validator takes the text apart into just these components.
pub validate_receive_path-join :
    (utf8 : Utf8proc) (c : List ℕ) (cs : List (List ℕ))
    → All IsSafeComponent (c ∷ cs)
    → length (c ∷ cs) ≤ max_path_components
    → IsFreshRoot (c ∷ cs)
    → IsCleanText utf8 (join (c ∷ cs))
    → validate_receive_path utf8 (join (c ∷ cs))
      ≡ PathValidationResult.accepted (record { utf8 = join (c ∷ cs); components = c ∷ cs })
validate_receive_path-join utf8 c cs s few fresh clean =
    accepted_when utf8 (join (c ∷ cs)) _ (omega (arith, length-join c cs s)) clean
      (text_error_clean (join (c ∷ cs)) (join_first c cs s.0) clean.no_backslash clean.no_colon
        (ends_with-join c cs s))
      (components_loop-join (length (join (c ∷ cs))) (join (c ∷ cs)) c cs [] (length-join c cs s) s
        (omega arith) (λ _. fresh))

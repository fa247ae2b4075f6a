-- ===== src/Storage/Path/Safe.antt =====
-- What a path that `validate_receive_path` accepts can and cannot name.
use mathlib.Core.List.{append-nil, append_assoc}
use file_sender_byte_spark.Prelude.{
  ℕ, zero, suc, ◌+◌, ◌≤◌, ◌≡◌, ◌≢◌, ◌⊎◌, refl, ap, sym, ◌∙◌, inl, inr, false, some, List, [], ◌∷◌,
  ◌++◌, length, length-append, All, arith, Option-cases,
}
use file_sender_byte_spark.Storage.Types.{ValidationError, ValidatedReceivePath}
use file_sender_byte_spark.Storage.Component.{
  max_relative_path_bytes, max_path_components, max_path_component_bytes, slash, backslash, colon,
  dot, space, ends_with, same_bytes,
}
use file_sender_byte_spark.Storage.Codepoints.{Utf8proc}
use file_sender_byte_spark.Storage.Path.{
  PathValidationResult, text_error, component_error, components_loop, validate_receive_path,
}
use file_sender_byte_spark.Storage.Path.Device.{
  IsDevice, LacksEnd, is_windows_reserved_component_iff,
}
use file_sender_byte_spark.Storage.Path.Split.{
  component_of, rest_of, join, Lacks, any-Lacks, component_of-Lacks, component_of_whole,
  component_of-rest_of, ends_with-append,
}

-- A name for one step: not empty, not "." or "..", without '/', of at most 255 bytes, not the
-- name of a device of Windows, with or without an extension, and not ending in a dot or a space.
pub record IsSafeComponent (c : List ℕ) : Type 0 where
  pub named : c ≢ []
  pub not_here : c ≢ dot ∷ []
  pub not_up : c ≢ dot ∷ dot ∷ []
  pub one_step : Lacks slash c
  pub short : length c ≤ max_path_component_bytes
  pub not_device : IsDevice c → ⊥
  pub not_dotted : LacksEnd dot c
  pub not_spaced : LacksEnd space c

component_error_none :
    (c : List ℕ) (components : List (List ℕ))
    → Lacks slash c
    → component_error c components ≡ ValidationError.none
    → IsSafeComponent c × (length components + 1 ≤ max_path_components)
unfolding component_error same_bytes
component_error_none [] components l h = cc
component_error_none (x ∷ xs) components l h =
    let (device, dotted, spaced) = (is_windows_reserved_component_iff (x ∷ xs)).0 (ground arith) in
    (
      record {
        named = λ e. cc;
        not_here = ground arith;
        not_up = ground arith;
        one_step = l;
        short = ground arith;
        not_device = device;
        not_dotted = dotted;
        not_spaced = spaced;
      },
      ground arith,
    )

none-cases : (e : ValidationError) → (e ≡ ValidationError.none) ⊎ (e ≢ ValidationError.none)
none-cases e = ground arith

-- What the loop over `left` adds to the components that it was given.
abbrev Adds : List ℕ → List (List ℕ) → ValidatedReceivePath → Type 0
Adds left components p =
    (cs : List (List ℕ)) × (p.components ≡ components ++ cs)
    × (join cs ≡ left)
    × All IsSafeComponent cs
    × (left ≢ [] → cs ≢ [])
    × (length components ≤ max_path_components → length p.components ≤ max_path_components)

Adds-cons :
    (c : List ℕ) (rest left : List ℕ) (components : List (List ℕ)) (p : ValidatedReceivePath)
    → IsSafeComponent c
    → left ≡ c ++ (slash ∷ rest)
    → rest ≢ []
    → length components + 1 ≤ max_path_components
    → Adds rest (components ++ (c ∷ [])) p
    → Adds left components p
unfolding join
Adds-cons c rest left components p safe e nonempty few ([], pc, j, parts, n, m) =
    absurd (n nonempty refl)
Adds-cons c rest left components p safe e nonempty few (d ∷ cs, pc, j, parts, n, m) = (
  c ∷ d ∷ cs,
  pc ∙ append_assoc components (c ∷ []) (d ∷ cs),
  ap (λ r. c ++ (slash ∷ r)) j ∙ sym e,
  (safe, parts),
  λ _ h. cc,
  λ _. m (omega (arith, length-append components (c ∷ []))),
)

-- A text that does not end in a separator has something behind each separator.
ends_slash :
    (r : List ℕ) → ends_with slash (slash ∷ r) ≡ false → (ends_with slash r ≡ false) × (r ≢ [])
unfolding ends_with
ends_slash [] h = cc
ends_slash (y ∷ r) h = (h, λ e. cc)

rest_open :
    (xs rest : List ℕ)
    → rest_of xs ≡ some rest
    → ends_with slash xs ≡ false
    → (ends_with slash rest ≡ false) × (rest ≢ [])
rest_open xs rest more e = ends_slash rest (
    sym (ends_with-append slash slash (component_of xs) rest)
    ∙ ap (ends_with slash) (sym (component_of-rest_of xs rest more))
    ∙ e)

components_loop-Adds :
    (fuel : ℕ) (path left : List ℕ) (components : List (List ℕ)) (p : ValidatedReceivePath)
    → ends_with slash left ≡ false
    → components_loop fuel path left components ≡ PathValidationResult.accepted p
    → Adds left components p × (p.utf8 ≡ path)
unfolding components_loop join
components_loop-Adds fuel path [] components p e h = (
  ([], ground (arith, append-nil components), refl, tt, λ n. absurd (n refl), ground arith),
  ground arith,
)
components_loop-Adds zero path (x ∷ xs) components p e h = cc
components_loop-Adds (suc fuel) path (x ∷ xs) components p e h =
    elim (none-cases (component_error (component_of (x ∷ xs)) components)) [
      | inr bad ↦ absurd (ground arith)
      | inl good ↦
          let safe =
            component_error_none (component_of (x ∷ xs)) components (component_of-Lacks (x ∷ xs))
              good in
          elim (Option-cases (rest_of (x ∷ xs))) [
            | inl last ↦ (
              (
                component_of (x ∷ xs) ∷ [],
                ground arith,
                component_of_whole (x ∷ xs) last,
                (safe.0, tt),
                λ _ n. cc,
                λ _. ground (arith, safe.1, length-append components (component_of (x ∷ xs) ∷ [])),
              ),
              ground arith,
            )
            | inr (rest, more) ↦
                let (adds, same) =
                  components_loop-Adds fuel path rest (components ++ (component_of (x ∷ xs) ∷ [])) p
                    (rest_open (x ∷ xs) rest more e).0 (ground arith) in
                (
                  Adds-cons (component_of (x ∷ xs)) rest (x ∷ xs) components p safe.0
                      (component_of-rest_of (x ∷ xs) rest more) (rest_open (x ∷ xs) rest more e).1
                      safe.1 adds,
                  same,
                )
          ]
    ]

-- The text of an accepted path.
pub record IsSafePath (encoded : List ℕ) (p : ValidatedReceivePath) : Type 0 where
  pub same : p.utf8 ≡ encoded
  pub joined : join p.components ≡ encoded
  pub some_name : p.components ≢ []
  pub parts : All IsSafeComponent p.components
  pub few : length p.components ≤ max_path_components
  pub short : length encoded ≤ max_relative_path_bytes
  pub no_backslash : Lacks backslash encoded
  pub no_colon : Lacks colon encoded

text_error_none :
    (path : List ℕ)
    → text_error path ≡ ValidationError.none
    → Lacks backslash path × Lacks colon path × (ends_with slash path ≡ false)
unfolding text_error
text_error_none path h = ground (arith, any-Lacks backslash path, any-Lacks colon path)

accepted_steps :
    (utf8 : Utf8proc) (encoded : List ℕ) (p : ValidatedReceivePath)
    → validate_receive_path utf8 encoded ≡ PathValidationResult.accepted p
    → (length encoded ≢ 0)
      × (length encoded ≤ max_relative_path_bytes)
      × (text_error encoded ≡ ValidationError.none)
      × (components_loop (length encoded) encoded encoded [] ≡ PathValidationResult.accepted p)
unfolding validate_receive_path
accepted_steps utf8 encoded p h = ground arith

-- An accepted path is the given text, of 1 to 1024 bytes, and its components, 1 to 32 of them,
-- joined by '/' give that text back. No component is empty, ".", "..", longer than 255 bytes,
-- or holds a '/'; none is CON, PRN, AUX, NUL, COM1 to COM9 or LPT1 to LPT9, in any case of the
-- letters, with or without an extension; none ends in a dot or a space. The text holds no
-- backslash and no colon.
pub validate_receive_path-IsSafePath :
    (utf8 : Utf8proc) (encoded : List ℕ) (p : ValidatedReceivePath)
    → validate_receive_path utf8 encoded ≡ PathValidationResult.accepted p
    → IsSafePath encoded p
validate_receive_path-IsSafePath utf8 encoded p h =
    let (nonempty, short, text, looped) = accepted_steps utf8 encoded p h in
    let (no_backslash, no_colon, ended) = text_error_none encoded text in
    let ((cs, all, joined, parts, nonempty_cs, few), same) =
      components_loop-Adds (length encoded) encoded encoded [] p ended looped in
    record {
      same = same;
      joined = rw all joined;
      some_name = rw all (nonempty_cs (λ e. nonempty (ap length e)));
      parts = rw all parts;
      few = few (omega arith);
      short = short;
      no_backslash = no_backslash;
      no_colon = no_colon;
    }

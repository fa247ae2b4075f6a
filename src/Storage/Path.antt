-- ===== src/Storage/Path.antt =====
-- `ValidateReceivePath` and `ValidateReceiveRequest` of native/src/storage/path_validator.cpp.
-- The two calls of the library utf8proc are parameters.
pub mod Device
pub mod Split
pub mod Safe
pub mod Complete
use file_sender_byte_spark.Prelude.{
  ℕ, zero, suc, ◌+◌, ◌%◌, ◌≡◌, Bool, true, false, ◌&&◌, ◌||◌, not, Option, none, some, List, [],
  ◌∷◌, ◌++◌, length, get_or, take, drop, any, leb, ltb, ◌==◌, if◌then◌else◌, min,
}
use file_sender_byte_spark.Storage.Types.{
  ValidationError, ValidatedReceivePath, ValidatedReceiveRequest,
}
use file_sender_byte_spark.Storage.Component.{
  max_relative_path_bytes, max_path_components, max_path_component_bytes, max_file_bytes, slash,
  backslash, colon, dot, reserved_temporary_directory, is_ascii_alpha, ends_with,
  ascii_case_insensitive_equals, is_windows_reserved_component, same_bytes,
}
use file_sender_byte_spark.Storage.Codepoints.{
  Utf8proc, is_strict_utf8, validate_codepoints, is_nfc,
}
use Split.{component_of, rest_of}

-- `PathValidationResult`: an error, or a path.
pub data PathValidationResult : Type 0 where
  accepted : ValidatedReceivePath → PathValidationResult
  rejected : ValidationError → PathValidationResult

pub data RequestValidationResult : Type 0 where
  accepted : ValidatedReceiveRequest → RequestValidationResult
  rejected : ValidationError → RequestValidationResult

-- The checks of `ValidateReceivePath` on the text as a whole, before its code points.
unfoldable pub text_error : List ℕ → ValidationError
text_error path =
    if get_or path 0 0 == slash && get_or path 1 0 == slash
      || get_or path 0 0 == backslash && get_or path 1 0 == backslash
    then ValidationError.path_unc
    else if get_or path 0 0 == slash
    then ValidationError.path_absolute
    else if is_ascii_alpha (get_or path 0 0) && get_or path 1 0 == colon
    then (if get_or path 2 0 == slash || get_or path 2 0 == backslash
        then ValidationError.path_drive_absolute
        else ValidationError.path_drive_qualified)
    else if any (λ c. c == backslash) path
    then ValidationError.path_backslash
    else if any (λ c. c == colon) path
    then ValidationError.path_colon_or_ads
    else if ends_with slash path
    then ValidationError.path_trailing_separator
    else ValidationError.none

-- The checks on one component, before it is added to `components`.
unfoldable pub component_error : List ℕ → List (List ℕ) → ValidationError
component_error [] components = ValidationError.path_empty_component
component_error (x ∷ xs) components =
    if same_bytes (x ∷ xs) (dot ∷ [])
    then ValidationError.path_dot_component
    else if same_bytes (x ∷ xs) (dot ∷ dot ∷ [])
    then ValidationError.path_traversal
    else if length components == 0
        && ascii_case_insensitive_equals (x ∷ xs) reserved_temporary_directory
    then ValidationError.path_reserved_component
    else if is_windows_reserved_component (x ∷ xs)
    then ValidationError.path_reserved_component
    else if ltb max_path_components (length components + 1)
    then ValidationError.path_component_count_limit
    else if ltb max_path_component_bytes (length (x ∷ xs))
    then ValidationError.path_component_bytes_limit
    else ValidationError.none

-- The loop over the components: `left` is the text from `component_start` on.
unfoldable pub components_loop : ℕ → List ℕ → List ℕ → List (List ℕ) → PathValidationResult
components_loop fuel path [] components =
    PathValidationResult.accepted (record { utf8 = path; components = components })
components_loop zero path (x ∷ xs) components =
    PathValidationResult.rejected ValidationError.path_component_count_limit
components_loop (suc fuel) path (x ∷ xs) components = elim (component_error component components) [
  | ValidationError.none ↦ elim (rest_of (x ∷ xs)) [
    | none ↦
        PathValidationResult.accepted
          (record { utf8 = path; components = components ++ (component ∷ []) })
    | some rest ↦ components_loop fuel path rest (components ++ (component ∷ []))
  ]
  | error ↦ PathValidationResult.rejected error
]
  where
    component : List ℕ
    component = component_of (x ∷ xs)

module _ (utf8 : Utf8proc) where
  unfoldable pub validate_receive_path : List ℕ → PathValidationResult
  validate_receive_path encoded =
      if length encoded == 0
      then PathValidationResult.rejected ValidationError.path_empty
      else if ltb max_relative_path_bytes (length encoded)
      then PathValidationResult.rejected ValidationError.path_bytes_limit
      else if not (is_strict_utf8 utf8 encoded)
      then PathValidationResult.rejected ValidationError.invalid_utf8
      else elim (text_error encoded) [
        | ValidationError.none ↦ elim (validate_codepoints utf8 encoded) [
          | ValidationError.none ↦
              if not (is_nfc utf8 encoded)
              then PathValidationResult.rejected ValidationError.path_not_nfc
              else components_loop (length encoded) encoded encoded []
          | error ↦ PathValidationResult.rejected error
        ]
        | error ↦ PathValidationResult.rejected error
      ]

  unfoldable pub validate_receive_request : List ℕ → ℕ → ℕ → RequestValidationResult
  validate_receive_request encoded_path declared_size local_max_file_bytes =
      elim (validate_receive_path encoded_path) [
        | PathValidationResult.rejected error ↦ RequestValidationResult.rejected error
        | PathValidationResult.accepted path ↦
            if ltb (min local_max_file_bytes max_file_bytes) declared_size
            then RequestValidationResult.rejected ValidationError.declared_size_limit
            else RequestValidationResult.accepted
                (record { path = path; declared_size = declared_size })
      ]

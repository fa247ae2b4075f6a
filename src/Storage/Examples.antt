-- ===== src/Storage/Examples.antt =====
-- The theorems on the storage component at concrete inputs: a file system with one temporary file,
-- a verifier that counts bytes, and texts in ASCII.
use file_sender_byte_spark.Prelude.{
  ℕ, ◌+◌, ◌≡◌, refl, true, Option, none, some, List, [], ◌∷◌, ◌++◌, length, ◌==◌, arith,
}
use file_sender_byte_spark.Storage.Types.{
  PlatformError, PlatformCommitDisposition, ValidatedReceivePath, ValidatedReceiveRequest,
  PlatformBackend, StreamingIntegrityVerifier, TransactionState,
}
use file_sender_byte_spark.Storage.Budget.{create_budget, try_reserve}
use file_sender_byte_spark.Storage.Cleanup.{Sys, create_transaction, release_reservation}
use file_sender_byte_spark.Storage.Transaction.{
  begin_created, begin_reserved, begin_budgeted, begin, write_verified, write_data, write,
  commit_finished, commit_sealed, seal_verifier, seal_and_commit,
}
use file_sender_byte_spark.Storage.Transaction.Lifecycle.{IsValid}
use file_sender_byte_spark.Storage.Transaction.Calls.{Call, run, run-IsValid}
use file_sender_byte_spark.Storage.Transaction.Integrity.{BackendContract}
use file_sender_byte_spark.Storage.Transaction.Commit.{new_system, IsCommittedFile, run-committed}
use file_sender_byte_spark.Storage.Pool.{
  Event, pool_run, new_pool, IsBalanced, new_pool-IsBalanced_run,
}
use file_sender_byte_spark.Storage.Component.{
  fold_ascii, is_ascii_alpha, folds_equal, ascii_case_insensitive_equals, ends_with, stem,
  is_reserved_stem, lacks_device_number, is_windows_reserved_component, same_bytes,
}
use file_sender_byte_spark.Storage.Codepoints.{
  Utf8proc, is_noncharacter, codepoint_error, strict_utf8_loop, is_strict_utf8, codepoints_loop,
  validate_codepoints, is_nfc,
}
use file_sender_byte_spark.Storage.Path.{
  PathValidationResult, text_error, component_error, components_loop, validate_receive_path,
}
use file_sender_byte_spark.Storage.Path.Split.{component_of, rest_of, join}
use file_sender_byte_spark.Storage.Path.Device.{is_windows_reserved_component_iff}
use file_sender_byte_spark.Storage.Path.Safe.{
  IsSafeComponent, IsSafePath, validate_receive_path-IsSafePath,
}
use file_sender_byte_spark.Storage.Path.Complete.{
  IsFreshRoot, IsCleanText, validate_receive_path-join,
}

pub record Disk : Type 0 where
  pub temporary : List ℕ
  pub file : Option (List ℕ)

abbrev pub one_file : PlatformBackend
one_file = record {
  World = Disk;
  create_temporary = λ w path size. (record w { temporary = [] }, PlatformError.ok, 7);
  write_temporary = λ w h bytes. (
    record w { temporary = w.temporary ++ bytes },
    record { error = PlatformError.ok; bytes_written = length bytes },
  );
  flush_temporary = λ w h. (w, PlatformError.ok);
  commit_temporary = λ w h path. (
    record w { file = some w.temporary },
    record { disposition = PlatformCommitDisposition.committed; error = PlatformError.ok },
  );
  cleanup_temporary = λ w h. (record w { temporary = [] }, PlatformError.ok);
}

abbrev pub one_file_contract : BackendContract one_file
one_file_contract = record {
  content = λ w h. w.temporary;
  published = λ w path. w.file;
  create_empty = λ w path size. refl;
  write_appends = λ w h bytes e. refl;
  flush_keeps = λ w h. refl;
  commit_publishes = λ w h path e. refl;
}

abbrev pub counter : StreamingIntegrityVerifier
counter = record {
  Digest = ℕ;
  update = λ d bytes. (d + length bytes, true);
  seal = λ d. (d, d == 3);
}

abbrev pub empty_disk : Disk
empty_disk = record { temporary = []; file = none }

abbrev two_calls : List Call
two_calls = Call.begins ∷ Call.writes (1 ∷ 2 ∷ []) ∷ []

abbrev whole : List Call
whole = Call.begins ∷ Call.writes (1 ∷ 2 ∷ []) ∷ Call.writes (3 ∷ []) ∷ Call.seals ∷ []

abbrev request : ValidatedReceiveRequest
request = record {
  path = record { utf8 = 97 ∷ []; components = (97 ∷ []) ∷ [] };
  declared_size = 3;
}

abbrev fresh : Sys one_file counter
fresh = new_system request true 0 (create_budget 10) empty_disk

fresh-IsValid : IsValid fresh.tx
unfolding create_transaction
fresh-IsValid = ground arith

run-IsValid_example : IsValid (run one_file counter whole fresh).tx
run-IsValid_example = run-IsValid one_file counter whole fresh fresh-IsValid

whole_commits : (run one_file counter whole fresh).tx.state ≡ TransactionState.committed
unfolding begin begin_budgeted begin_reserved begin_created try_reserve write write_data
    write_verified seal_and_commit seal_verifier commit_sealed commit_finished release_reservation
    create_transaction create_budget
whole_commits = refl

run-committed_example :
    IsCommittedFile one_file counter one_file_contract 0 request
      (run one_file counter whole fresh).world
run-committed_example =
    run-committed one_file counter one_file_contract 0 request true (create_budget 10) empty_disk
      whole (ground arith) whole_commits

abbrev events : List (Event ℕ)
events =
    Event.opens request true (some 0)
    ∷ Event.opens request true (some 0)
    ∷ Event.calls 0 Call.begins
    ∷ Event.calls 1 Call.begins
    ∷ Event.calls 0 Call.aborts
    ∷ []

new_pool-IsBalanced_run_example :
    IsBalanced one_file counter 10
      (pool_run one_file counter events (new_pool one_file counter 10 empty_disk))
new_pool-IsBalanced_run_example =
    new_pool-IsBalanced_run one_file counter 10 empty_disk events (ground arith)
      (ground arith, (ground arith, (tt, (tt, (tt, tt)))))

-- The library for UTF-8, where the text is ASCII.
abbrev pub ascii : Utf8proc
ascii = record {
  iterate = λ xs. elim xs [ [] ↦ (0, 0) | x ∷ rest ↦ (1, x) ];
  compose = λ xs. some xs;
}

-- "a/b.c"
abbrev a_path : List ℕ
a_path = 97 ∷ 47 ∷ 98 ∷ 46 ∷ 99 ∷ []

abbrev its_components : List (List ℕ)
its_components = (97 ∷ []) ∷ (98 ∷ 46 ∷ 99 ∷ []) ∷ []

abbrev its_result : ValidatedReceivePath
its_result = record { utf8 = a_path; components = its_components }

a_path_accepted : validate_receive_path ascii a_path ≡ PathValidationResult.accepted its_result
unfolding validate_receive_path text_error components_loop component_error component_of rest_of
    is_strict_utf8 strict_utf8_loop validate_codepoints codepoints_loop codepoint_error
    is_noncharacter is_nfc same_bytes is_windows_reserved_component is_reserved_stem stem
    lacks_device_number ascii_case_insensitive_equals folds_equal fold_ascii is_ascii_alpha
    ends_with
a_path_accepted = refl

validate_receive_path-IsSafePath_example : IsSafePath a_path its_result
validate_receive_path-IsSafePath_example =
    validate_receive_path-IsSafePath ascii a_path its_result a_path_accepted

a_path_clean : IsCleanText ascii a_path
unfolding is_strict_utf8 strict_utf8_loop validate_codepoints codepoints_loop codepoint_error
    is_noncharacter is_nfc same_bytes
a_path_clean = record {
  short = ground arith;
  strict = refl;
  printable = refl;
  normalized = refl;
  no_backslash = ground arith;
  no_colon = ground arith;
}

one_safe : IsSafeComponent (97 ∷ [])
unfolding is_windows_reserved_component is_reserved_stem stem lacks_device_number
    ascii_case_insensitive_equals folds_equal fold_ascii is_ascii_alpha ends_with
one_safe =
    let names = (is_windows_reserved_component_iff (97 ∷ [])).0 refl in
    record {
      named = λ h. cc;
      not_here = λ h. ground arith;
      not_up = λ h. ground arith;
      one_step = ground arith;
      short = ground arith;
      not_device = names.0;
      not_dotted = names.1;
      not_spaced = names.2;
    }

other_safe : IsSafeComponent (98 ∷ 46 ∷ 99 ∷ [])
unfolding is_windows_reserved_component is_reserved_stem stem lacks_device_number
    ascii_case_insensitive_equals folds_equal fold_ascii is_ascii_alpha ends_with
other_safe =
    let names = (is_windows_reserved_component_iff (98 ∷ 46 ∷ 99 ∷ [])).0 refl in
    record {
      named = λ h. cc;
      not_here = λ h. ground arith;
      not_up = λ h. ground arith;
      one_step = ground arith;
      short = ground arith;
      not_device = names.0;
      not_dotted = names.1;
      not_spaced = names.2;
    }

a_fresh : IsFreshRoot its_components
unfolding ascii_case_insensitive_equals folds_equal fold_ascii is_ascii_alpha
a_fresh = refl

validate_receive_path-join_example :
    validate_receive_path ascii (join its_components)
    ≡ PathValidationResult.accepted
        (record { utf8 = join its_components; components = its_components })
unfolding join
validate_receive_path-join_example =
    validate_receive_path-join ascii (97 ∷ []) ((98 ∷ 46 ∷ 99 ∷ []) ∷ [])
      (one_safe, (other_safe, tt)) (ground arith) a_fresh a_path_clean

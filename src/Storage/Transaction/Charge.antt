-- ===== src/Storage/Transaction/Charge.antt =====
-- What one transaction takes out of the shared budget, and that each method keeps the books.
use file_sender_byte_spark.Prelude.{ℕ, ◌+◌, ◌%◌, ◌≤◌, ◌<◌, ◌≡◌, true, false, List, arith, u64_mod}
use file_sender_byte_spark.Storage.Types.{
  PlatformError, PlatformCommitDisposition, PlatformBackend, StreamingIntegrityVerifier,
  TransactionState, TransactionError,
}
use file_sender_byte_spark.Storage.Budget.{TemporaryBudget, try_reserve, release, mark_unresolved}
use file_sender_byte_spark.Storage.Cleanup.{
  ReceiveTransaction, Sys, release_reservation, finish_cleanup, fail_and_cleanup,
}
use file_sender_byte_spark.Storage.Transaction.{
  begin_created, begin_reserved, begin_budgeted, begin, write_verified, write_data, write,
  commit_finished, commit_sealed, seal_verifier, seal_and_commit, abort,
}
use file_sender_byte_spark.Storage.Transaction.Lifecycle.{IsValid}
use file_sender_byte_spark.Storage.Transaction.Calls.{Call, begins, writes, seals, aborts, step}

-- The bytes of a file that is or may still be on disk under a temporary name.
abbrev pub charged : {D : Type 0} → TransactionState → ReceiveTransaction D → ℕ
charged TransactionState.receiving tx = tx.request.declared_size
charged TransactionState.cleanup_unresolved tx = tx.request.declared_size
charged TransactionState.outcome_uncertain tx = tx.request.declared_size
charged _ tx = 0

-- The bytes of a file that nothing in the process will remove any more.
abbrev pub orphaned : {D : Type 0} → TransactionState → ReceiveTransaction D → ℕ
orphaned TransactionState.cleanup_unresolved tx = tx.request.declared_size
orphaned TransactionState.outcome_uncertain tx = tx.request.declared_size
orphaned _ tx = 0

-- Whether such a file is left.
abbrev pub leaves : TransactionState → ℕ
leaves TransactionState.cleanup_unresolved = 1
leaves TransactionState.outcome_uncertain = 1
leaves _ = 0

-- `taken` and `lost` are what the other transactions are charged and have orphaned, and `left` is
-- how many of them have orphaned a file. `unresolved_files` is a counter of 64 bits.
pub record Covers (taken lost left limit reserved unresolved files : ℕ) (b : TemporaryBudget)
    : Type 0 where
  pub limit_kept : b.limit_bytes ≡ limit
  pub limit_fits : limit < u64_mod
  pub lost_taken : lost ≤ taken
  pub reserved_sum : b.reserved_bytes ≡ taken + reserved
  pub unresolved_sum : b.unresolved_bytes ≡ lost + unresolved
  pub files_count : b.unresolved_files ≡ (left + files) % u64_mod
  pub within : b.reserved_bytes ≤ limit

module _ (platform : PlatformBackend) (integrity : StreamingIntegrityVerifier) where
  abbrev S : Type 0
  S = Sys platform integrity

  abbrev pub Balances : ℕ → ℕ → ℕ → ℕ → S → Type 0
  Balances taken lost left limit s =
      Covers taken lost left limit (charged s.tx.state s.tx) (orphaned s.tx.state s.tx)
        (leaves s.tx.state) s.budget

module _ (platform : PlatformBackend) (integrity : StreamingIntegrityVerifier)
    (taken lost left limit : ℕ) where
  abbrev Bal : Sys platform integrity → Type 0
  Bal = Balances platform integrity taken lost left limit

  fail-Balances :
      (e : TransactionError) (p : PlatformError) (s : Sys platform integrity)
      → s.tx.reservation_held ≡ true
      → Covers taken lost left limit s.tx.request.declared_size 0 0 s.budget
      → Bal (fail_and_cleanup platform integrity e p s).0
  unfolding fail_and_cleanup finish_cleanup release_reservation release mark_unresolved
  fail-Balances e p s held c = ground arith

  begin_created-Balances :
      (c : PlatformError) (h : ℕ) (s : Sys platform integrity)
      → s.tx.reservation_held ≡ true
      → Covers taken lost left limit s.tx.request.declared_size 0 0 s.budget
      → Bal (begin_created platform integrity c h s).0
  unfolding begin_created release_reservation release
  begin_created-Balances c h s held b = grind (arith, fail-Balances)

  -- A granted reservation is covered, and a refused one changes nothing.
  try_reserve-Covers :
      (b : TemporaryBudget) (n : ℕ)
      → n < u64_mod
      → Covers taken lost left limit 0 0 0 b
      → (try_reserve b n).1 ≡ true
      → Covers taken lost left limit n 0 0 (try_reserve b n).0
  unfolding try_reserve
  try_reserve-Covers b n h c = ground arith

  try_reserve_refused :
      (b : TemporaryBudget) (n : ℕ) → (try_reserve b n).1 ≡ false → (try_reserve b n).0 ≡ b
  unfolding try_reserve
  try_reserve_refused b n = ground arith

  begin_budgeted-Balances :
      (s : Sys platform integrity)
      → s.tx.request.declared_size < u64_mod
      → s.tx.state ≡ TransactionState.created
      → Covers taken lost left limit 0 0 0 s.budget
      → Bal (begin_budgeted platform integrity s).0
  unfolding begin_budgeted begin_reserved
  begin_budgeted-Balances s fits r c = grind (
    arith,
    begin_created-Balances,
    try_reserve-Covers s.budget s.tx.request.declared_size,
    try_reserve_refused s.budget s.tx.request.declared_size,
  )

  begin-Balances :
      (s : Sys platform integrity) → IsValid s.tx → Bal s → Bal (begin platform integrity s).0
  unfolding begin
  begin-Balances s v b = grind (arith, begin_budgeted-Balances)

  write_verified-Balances :
      (bytes : List ℕ) (s : Sys platform integrity)
      → s.tx.reservation_held ≡ true
      → s.tx.state ≡ TransactionState.receiving
      → Covers taken lost left limit s.tx.request.declared_size 0 0 s.budget
      → Bal (write_verified platform integrity bytes s).0
  unfolding write_verified
  write_verified-Balances bytes s held r b = grind (arith, fail-Balances)

  write_data-Balances :
      (bytes : List ℕ) (s : Sys platform integrity)
      → s.tx.reservation_held ≡ true
      → s.tx.state ≡ TransactionState.receiving
      → Covers taken lost left limit s.tx.request.declared_size 0 0 s.budget
      → Bal (write_data platform integrity bytes s).0
  unfolding write_data
  write_data-Balances bytes s held r b = grind (arith, fail-Balances, write_verified-Balances)

  write-Balances :
      (bytes : List ℕ) (s : Sys platform integrity)
      → IsValid s.tx
      → Bal s
      → Bal (write platform integrity bytes s).0
  unfolding write
  write-Balances bytes s v b = grind (arith, fail-Balances, write_data-Balances)

  commit_finished-Balances :
      (d : PlatformCommitDisposition) (e : PlatformError) (s : Sys platform integrity)
      → s.tx.reservation_held ≡ true
      → Covers taken lost left limit s.tx.request.declared_size 0 0 s.budget
      → Bal (commit_finished platform integrity d e s).0
  unfolding commit_finished release_reservation release mark_unresolved
  commit_finished-Balances d e s held b = grind (arith, fail-Balances)

  seal_and_commit-Balances :
      (s : Sys platform integrity)
      → IsValid s.tx
      → Bal s
      → Bal (seal_and_commit platform integrity s).0
  unfolding seal_and_commit seal_verifier commit_sealed
  seal_and_commit-Balances s v b = grind (arith, fail-Balances, commit_finished-Balances)

  abort-Balances :
      (s : Sys platform integrity) → IsValid s.tx → Bal s → Bal (abort platform integrity s).0
  unfolding abort
  abort-Balances s v b = grind (arith, fail-Balances)

  pub step-Balances :
      (c : Call) (s : Sys platform integrity)
      → IsValid s.tx
      → Bal s
      → Bal (step platform integrity c s).0
  step-Balances begins s v b = begin-Balances s v b
  step-Balances (writes bytes) s v b = write-Balances bytes s v b
  step-Balances seals s v b = seal_and_commit-Balances s v b
  step-Balances aborts s v b = abort-Balances s v b

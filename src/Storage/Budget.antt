-- ===== src/Storage/Budget.antt =====
-- `TemporaryBudget` of native/src/storage/receive_transaction.cpp. Each method runs under the
-- budget's mutex, so a call is one step.
use file_sender_byte_spark.Prelude.{ℕ, Bool, true, false, ◌||◌, ltb, if◌then◌else◌, add64, sub64}

-- The counters of `TemporaryBudget`, all uint64_t but `unresolved_files`, a size_t of 64 bits.
pub record TemporaryBudget : Type 0 where
  pub limit_bytes : ℕ
  pub reserved_bytes : ℕ
  pub unresolved_bytes : ℕ
  pub unresolved_files : ℕ

unfoldable pub create_budget : ℕ → TemporaryBudget
create_budget limit = record {
  limit_bytes = limit;
  reserved_bytes = 0;
  unresolved_bytes = 0;
  unresolved_files = 0;
}

unfoldable pub try_reserve : TemporaryBudget → ℕ → TemporaryBudget × Bool
try_reserve b bytes =
    if ltb b.limit_bytes b.reserved_bytes || ltb (sub64 b.limit_bytes b.reserved_bytes) bytes
    then (b, false)
    else (record b { reserved_bytes = add64 b.reserved_bytes bytes }, true)

unfoldable pub release : TemporaryBudget → ℕ → TemporaryBudget
release b bytes = record b { reserved_bytes = sub64 b.reserved_bytes bytes }

unfoldable pub mark_unresolved : TemporaryBudget → ℕ → TemporaryBudget
mark_unresolved b bytes = record b {
  unresolved_bytes = add64 b.unresolved_bytes bytes;
  unresolved_files = add64 b.unresolved_files 1;
}

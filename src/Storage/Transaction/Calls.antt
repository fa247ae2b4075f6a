-- ===== src/Storage/Transaction/Calls.antt =====
-- Histories of a receive transaction: the public methods in any order.
use file_sender_byte_spark.Prelude.{ℕ, List, [], ◌∷◌}
use file_sender_byte_spark.Storage.Types.{
  PlatformBackend, StreamingIntegrityVerifier, TransactionResult,
}
use file_sender_byte_spark.Storage.Cleanup.{Sys}
use file_sender_byte_spark.Storage.Transaction.{begin, write, seal_and_commit, abort}
use file_sender_byte_spark.Storage.Transaction.Lifecycle.{
  IsValid, begin-IsValid, write-IsValid, seal_and_commit-IsValid, abort-IsValid,
}

-- `aborts` is also what the destructor does.
pub data Call : Type 0 where
  begins : Call
  writes : List ℕ → Call
  seals : Call
  aborts : Call

module _ (platform : PlatformBackend) (integrity : StreamingIntegrityVerifier) where
  abbrev S : Type 0
  S = Sys platform integrity

  abbrev pub step : Call → S → S × TransactionResult
  step begins s = begin platform integrity s
  step (writes bytes) s = write platform integrity bytes s
  step seals s = seal_and_commit platform integrity s
  step aborts s = abort platform integrity s

  abbrev pub run : List Call → S → S
  run [] s = s
  run (c ∷ cs) s = run cs (step c s).0

  pub step-IsValid : (c : Call) (s : S) → IsValid s.tx → IsValid (step c s).0.tx
  step-IsValid begins s v = begin-IsValid platform integrity s v
  step-IsValid (writes bytes) s v = write-IsValid platform integrity bytes s v
  step-IsValid seals s v = seal_and_commit-IsValid platform integrity s v
  step-IsValid aborts s v = abort-IsValid platform integrity s v

  -- Whatever the methods called, in whatever order and with whatever answers of the platform and
  -- the verifier, the transaction is well formed: outside `receiving` it has no reservation and no
  -- open temporary file; in `receiving` it has both, a valid handle, and no more bytes than
  -- declared; a committed one has received exactly the declared size.
  pub run-IsValid : (cs : List Call) (s : S) → IsValid s.tx → IsValid (run cs s).tx
  run-IsValid [] s v = v
  run-IsValid (c ∷ cs) s v = run-IsValid cs (step c s).0 (step-IsValid c s v)

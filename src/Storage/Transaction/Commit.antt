-- ===== src/Storage/Transaction/Commit.antt =====
-- A committed file is the verified one: the trace of Integrity.antt kept by every method.
use file_sender_byte_spark.Prelude.{
  ℕ, ◌<◌, ◌≡◌, ◌≢◌, ◌⊎◌, ◌∙◌, refl, subst, inl, inr, Bool, true, some, List, [], ◌∷◌, length, arith,
  u64_mod,
}
use file_sender_byte_spark.Storage.Types.{
  PlatformBackend, ValidatedReceiveRequest, StreamingIntegrityVerifier, TransactionState,
}
use file_sender_byte_spark.Storage.Budget.{TemporaryBudget}
use file_sender_byte_spark.Storage.Cleanup.{System, Sys, create_transaction}
use file_sender_byte_spark.Storage.Transaction.{begin, write, seal_and_commit, abort}
use file_sender_byte_spark.Storage.Transaction.Lifecycle.{
  IsValid, begin-request, write-request, seal_and_commit-request, abort-request,
}
use file_sender_byte_spark.Storage.Transaction.Calls.{
  Call, begins, writes, seals, aborts, step, run, step-IsValid,
}
use file_sender_byte_spark.Storage.Transaction.Integrity.{
  BackendContract, Fed, StateTrace, IsTraced, fail-IsTraced, write-receiving, begin-created,
  seal_and_commit-receiving,
}

created-cases :
    (x : TransactionState) → (x ≡ TransactionState.created) ⊎ (x ≢ TransactionState.created)
created-cases x = ground arith

receiving-cases :
    (x : TransactionState) → (x ≡ TransactionState.receiving) ⊎ (x ≢ TransactionState.receiving)
receiving-cases x = ground arith

-- A new transaction, with the shared budget and the file system that it works on.
abbrev pub new_system :
    {Digest World : Type 0}
    → ValidatedReceiveRequest
    → Bool
    → Digest
    → TemporaryBudget
    → World
    → System Digest World
new_system request has_budget start b w = record {
  tx = create_transaction request has_budget (some start);
  budget = b;
  world = w;
}

module _ (platform : PlatformBackend) (integrity : StreamingIntegrityVerifier) where
  -- A method that the state does not admit leaves everything as it is.
  begin_late :
      (s : Sys platform integrity)
      → s.tx.state ≢ TransactionState.created
      → (begin platform integrity s).0 ≡ s
  unfolding begin
  begin_late s h = ground arith

  write_late :
      (bytes : List ℕ) (s : Sys platform integrity)
      → s.tx.state ≢ TransactionState.receiving
      → (write platform integrity bytes s).0 ≡ s
  unfolding write
  write_late bytes s h = ground arith

  seal_and_commit_late :
      (s : Sys platform integrity)
      → s.tx.state ≢ TransactionState.receiving
      → (seal_and_commit platform integrity s).0 ≡ s
  unfolding seal_and_commit
  seal_and_commit_late s h = ground arith

  abort_late :
      (s : Sys platform integrity)
      → s.tx.state ≢ TransactionState.created
      → s.tx.state ≢ TransactionState.receiving
      → (abort platform integrity s).0 ≡ s
  unfolding abort
  abort_late s h k = ground arith

  pub step-request :
      (c : Call) (s : Sys platform integrity)
      → (step platform integrity c s).0.tx.request ≡ s.tx.request
  step-request begins s = begin-request platform integrity s
  step-request (writes bytes) s = write-request platform integrity bytes s
  step-request seals s = seal_and_commit-request platform integrity s
  step-request aborts s = abort-request platform integrity s

module _ (platform : PlatformBackend) (integrity : StreamingIntegrityVerifier)
    (contract : BackendContract platform) (start : integrity.Digest) where
  abbrev Traced : Sys platform integrity → Type 0
  Traced = IsTraced platform integrity contract start

  abbrev At : TransactionState → Sys platform integrity → Type 0
  At = StateTrace platform integrity contract start

  -- Some bytes of the declared length stand at the requested path, and the verifier has agreed to
  -- each piece of them and to the whole.
  abbrev pub IsCommittedFile : ValidatedReceiveRequest → platform.World → Type 0
  IsCommittedFile request w =
      (seen : List ℕ) × (d : integrity.Digest) × (contract.published w request.path ≡ some seen)
      × (length seen ≡ request.declared_size)
      × Fed integrity start d seen
      × ((integrity.seal d).1 ≡ true)

  pub step-IsTraced :
      (c : Call) (s : Sys platform integrity)
      → IsValid s.tx
      → Traced s
      → Traced (step platform integrity c s).0
  unfolding abort
  step-IsTraced begins s v t = elim (created-cases s.tx.state) [
    | inl r ↦ begin-created platform integrity contract start s r v (subst (λ x. At x s) r t)
    | inr n ↦ rw (begin_late platform integrity s n) t
  ]
  step-IsTraced (writes bytes) s v t = elim (receiving-cases s.tx.state) [
    | inl r ↦
        write-receiving platform integrity contract start bytes s r v (subst (λ x. At x s) r t)
    | inr n ↦ rw (write_late platform integrity bytes s n) t
  ]
  step-IsTraced seals s v t = elim (receiving-cases s.tx.state) [
    | inl r ↦
        seal_and_commit-receiving platform integrity contract start s r (subst (λ x. At x s) r t)
    | inr n ↦ rw (seal_and_commit_late platform integrity s n) t
  ]
  step-IsTraced aborts s v t = elim (receiving-cases s.tx.state) [
    | inl r ↦ rw (r, abort) (fail-IsTraced platform integrity contract start _ _ s)
    | inr n ↦ elim (created-cases s.tx.state) [
      | inl r ↦ rw (r, abort) tt
      | inr m ↦ rw (abort_late platform integrity s m n) t
    ]
  ]

  run-IsTraced :
      (cs : List Call) (s : Sys platform integrity)
      → IsValid s.tx
      → Traced s
      → Traced (run platform integrity cs s)
  run-IsTraced [] s v t = t
  run-IsTraced (c ∷ cs) s v t =
      run-IsTraced cs (step platform integrity c s).0 (step-IsValid platform integrity c s v)
        (step-IsTraced c s v t)

  run-request :
      (cs : List Call) (s : Sys platform integrity)
      → (run platform integrity cs s).tx.request ≡ s.tx.request
  run-request [] s = refl
  run-request (c ∷ cs) s =
      run-request cs (step platform integrity c s).0 ∙ step-request platform integrity c s

  run_from-committed :
      (cs : List Call) (s : Sys platform integrity)
      → IsValid s.tx
      → Traced s
      → (run platform integrity cs s).tx.state ≡ TransactionState.committed
      → IsCommittedFile s.tx.request (run platform integrity cs s).world
  run_from-committed cs s v t done =
      let (seen, d, f, sealed, file, size) : At TransactionState.committed
          (run platform integrity cs s) =
        subst (λ x. At x (run platform integrity cs s)) done (run-IsTraced cs s v t) in
      (seen, d, rw (run-request cs s) at file, rw (run-request cs s) at size, f, sealed)

  -- Take a file system that keeps the contract of the backend, a new transaction for a request of
  -- less than 2^64 bytes, with a verifier, and any history of its methods. If it ends
  -- committed, there are bytes, exactly as many as declared, that the
  -- file at the requested path holds, that the verifier was shown in order and agreed to piece by
  -- piece, and over which its final check passed.
  pub run-committed :
      (request : ValidatedReceiveRequest) (has_budget : Bool) (b : TemporaryBudget)
      (w : platform.World) (cs : List Call)
      → request.declared_size < u64_mod
      → (run platform integrity cs (new_system request has_budget start b w)).tx.state
        ≡ TransactionState.committed
      → IsCommittedFile request
          (run platform integrity cs (new_system request has_budget start b w)).world
  unfolding create_transaction
  run-committed request has_budget b w cs fits done =
      run_from-committed cs (new_system request has_budget start b w) (ground arith)
        (λ d e. ground arith) done

-- ===== src/Storage/Pool.antt =====
-- Every receive transaction of the process draws on one `TemporaryBudget`. A pool is the budget,
-- the file system and all transactions ever made; its steps are their methods, interleaved.
use file_sender_byte_spark.Prelude.{
  ℕ, zero, suc, ◌+◌, ◌≤◌, ◌<◌, ◌≡◌, Bool, Option, List, [], ◌∷◌, ◌++◌, All, All-append, arith,
  u64_mod,
}
use file_sender_byte_spark.Storage.Types.{
  PlatformBackend, StreamingIntegrityVerifier, ValidatedReceiveRequest, TransactionState,
}
use file_sender_byte_spark.Storage.Budget.{TemporaryBudget, create_budget}
use file_sender_byte_spark.Storage.Cleanup.{ReceiveTransaction, Sys, create_transaction}
use file_sender_byte_spark.Storage.Transaction.Lifecycle.{IsValid}
use file_sender_byte_spark.Storage.Transaction.Calls.{Call, step, step-IsValid}
use file_sender_byte_spark.Storage.Transaction.Charge.{
  charged, orphaned, leaves, Covers, Balances, step-Balances,
}

pub record Pool (Digest World : Type 0) : Type 0 where
  pub transactions : List (ReceiveTransaction Digest)
  pub budget : TemporaryBudget
  pub world : World

-- A new transaction, or a call on an old one. Which one calls next is open.
pub data Event (Digest : Type 0) : Type 0 where
  opens : ValidatedReceiveRequest → Bool → Option Digest → Event Digest
  calls : ℕ → Call → Event Digest

abbrev pub total_charged : {D : Type 0} → List (ReceiveTransaction D) → ℕ
total_charged [] = 0
total_charged (tx ∷ txs) = charged tx.state tx + total_charged txs

abbrev pub total_orphaned : {D : Type 0} → List (ReceiveTransaction D) → ℕ
total_orphaned [] = 0
total_orphaned (tx ∷ txs) = orphaned tx.state tx + total_orphaned txs

-- How many of them left a file behind.
abbrev pub total_left : {D : Type 0} → List (ReceiveTransaction D) → ℕ
total_left [] = 0
total_left (tx ∷ txs) = leaves tx.state + total_left txs

orphaned-le-charged :
    {D : Type 0} (st : TransactionState) (tx : ReceiveTransaction D)
    → orphaned st tx ≤ charged st tx
orphaned-le-charged st tx = ground arith

total_orphaned-le :
    {D : Type 0} (txs : List (ReceiveTransaction D)) → total_orphaned txs ≤ total_charged txs
total_orphaned-le [] = omega arith
total_orphaned-le (tx ∷ txs) = omega (arith, orphaned-le-charged tx.state tx, total_orphaned-le txs)

module _ (platform : PlatformBackend) (integrity : StreamingIntegrityVerifier) where
  abbrev Tx : Type 0
  Tx = ReceiveTransaction integrity.Digest

  abbrev pub P : Type 0
  P = Pool integrity.Digest platform.World

  -- The call on the transaction at an index of the list; `done` are the ones before it.
  unfoldable pub call_at : ℕ → Call → List Tx → List Tx → TemporaryBudget → platform.World → P
  call_at i c done [] b w = record { transactions = done; budget = b; world = w }
  call_at zero c done (tx ∷ rest) b w =
      let s' = (step platform integrity c (record { tx = tx; budget = b; world = w })).0 in
      record { transactions = done ++ (s'.tx ∷ rest); budget = s'.budget; world = s'.world }
  call_at (suc i) c done (tx ∷ rest) b w = call_at i c (done ++ (tx ∷ [])) rest b w

  abbrev pub pool_step : Event integrity.Digest → P → P
  pool_step (opens request has_budget verifier) p = record p {
    transactions = create_transaction request has_budget verifier ∷ p.transactions;
  }
  pool_step (calls i c) p = call_at i c [] p.transactions p.budget p.world

  abbrev pub pool_run : List (Event integrity.Digest) → P → P
  pool_run [] p = p
  pool_run (e ∷ es) p = pool_run es (pool_step e p)

  abbrev pub new_pool : ℕ → platform.World → P
  new_pool limit w = record { transactions = []; budget = create_budget limit; world = w }

  pub record IsBalanced (limit : ℕ) (p : P) : Type 0 where
    pub valid : All IsValid p.transactions
    pub books :
        Covers 0 0 0 limit
          (total_charged p.transactions)
          (total_orphaned p.transactions)
          (total_left p.transactions)
          p.budget

  new_pool-IsBalanced :
      (limit : ℕ) (w : platform.World) → limit < u64_mod → IsBalanced limit (new_pool limit w)
  unfolding create_budget
  new_pool-IsBalanced limit w h = record { valid = tt; books = omega arith }

  total_charged-append :
      (xs ys : List Tx) → total_charged (xs ++ ys) ≡ total_charged xs + total_charged ys
  total_charged-append [] ys = omega arith
  total_charged-append (x ∷ xs) ys = omega (arith, total_charged-append xs ys)

  total_orphaned-append :
      (xs ys : List Tx) → total_orphaned (xs ++ ys) ≡ total_orphaned xs + total_orphaned ys
  total_orphaned-append [] ys = omega arith
  total_orphaned-append (x ∷ xs) ys = omega (arith, total_orphaned-append xs ys)

  total_left-append : (xs ys : List Tx) → total_left (xs ++ ys) ≡ total_left xs + total_left ys
  total_left-append [] ys = omega arith
  total_left-append (x ∷ xs) ys = omega (arith, total_left-append xs ys)

  call_at-IsBalanced :
      (limit i : ℕ) (c : Call) (done rest : List Tx) (b : TemporaryBudget) (w : platform.World)
      → All IsValid done
      → All IsValid rest
      → Covers 0 0 0 limit
          (total_charged done + total_charged rest)
          (total_orphaned done + total_orphaned rest)
          (total_left done + total_left rest)
          b
      → IsBalanced limit (call_at i c done rest b w)
  unfolding call_at
  call_at-IsBalanced limit i c done [] b w vd vr k = record { valid = vd; books = omega arith }
  call_at-IsBalanced limit zero c done (tx ∷ rest) b w vd vr k =
      let s : Sys platform integrity = record { tx = tx; budget = b; world = w } in
      let s' : Sys platform integrity = (step platform integrity c s).0 in
      let kept : Balances platform integrity (total_charged done + total_charged rest)
          (total_orphaned done + total_orphaned rest) (total_left done + total_left rest) limit s' =
        step-Balances platform integrity _ _ _ limit c s vr.0
          (omega (arith, total_orphaned-le done, total_orphaned-le rest)) in
      record {
        valid =
            All-append IsValid done (s'.tx ∷ rest) vd
              (step-IsValid platform integrity c s vr.0, vr.1);
        books = omega (
          arith,
          kept,
          total_charged-append done (s'.tx ∷ rest),
          total_orphaned-append done (s'.tx ∷ rest),
          total_left-append done (s'.tx ∷ rest),
        );
      }
  call_at-IsBalanced limit (suc i) c done (tx ∷ rest) b w vd vr k =
      call_at-IsBalanced limit i c (done ++ (tx ∷ [])) rest b w
        (All-append IsValid done (tx ∷ []) vd (vr.0, tt)) vr.1
        (omega (
          arith,
          total_charged-append done (tx ∷ []),
          total_orphaned-append done (tx ∷ []),
          total_left-append done (tx ∷ []),
        ))

  -- Only requests of less than 2^64 bytes are opened: their sizes are uint64_t.
  abbrev pub IsWord : Event integrity.Digest → Type 0
  IsWord (opens request has_budget verifier) = request.declared_size < u64_mod
  IsWord (calls i c) = Unit {0}

  pool_step-IsBalanced :
      (limit : ℕ) (e : Event integrity.Digest) (p : P)
      → IsWord e
      → IsBalanced limit p
      → IsBalanced limit (pool_step e p)
  unfolding create_transaction
  pool_step-IsBalanced limit (opens request has_budget verifier) p h v = record {
    valid = ((h, ground arith), v.valid);
    books = omega (arith, v.books);
  }
  pool_step-IsBalanced limit (calls i c) p h v =
      call_at-IsBalanced limit i c [] p.transactions p.budget p.world tt v.valid
        (omega (arith, v.books))

  pool_run-IsBalanced :
      (limit : ℕ) (es : List (Event integrity.Digest)) (p : P)
      → All IsWord es
      → IsBalanced limit p
      → IsBalanced limit (pool_run es p)
  pool_run-IsBalanced limit [] p h v = v
  pool_run-IsBalanced limit (e ∷ es) p h v =
      pool_run-IsBalanced limit es (pool_step e p) h.1 (pool_step-IsBalanced limit e p h.0 v)

  -- After any interleaving of any number of transactions, whatever the platform and the verifiers
  -- answered: the budget's reserved bytes are the declared sizes of the transactions that receive
  -- or that left a file behind, its unresolved bytes are those of the latter, its
  -- unresolved files are their number (on a counter of 64 bits), and the reserved bytes do not pass
  -- the limit. So no `release` wraps below zero.
  pub new_pool-IsBalanced_run :
      (limit : ℕ) (w : platform.World) (es : List (Event integrity.Digest))
      → limit < u64_mod
      → All IsWord es
      → IsBalanced limit (pool_run es (new_pool limit w))
  new_pool-IsBalanced_run limit w es h k =
      pool_run-IsBalanced limit es (new_pool limit w) k (new_pool-IsBalanced limit w h)

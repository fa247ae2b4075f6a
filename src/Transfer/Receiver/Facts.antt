-- ===== src/Transfer/Receiver/Facts.antt =====
-- The facts that a transaction carries along while a receiver of
-- native/src/transfer/receiver.cpp works on it:
-- that it is well formed, for an accepted request, and what its bytes have to do with the file.
use file_sender_byte_spark.Prelude.{
  ℕ, ◌≡◌, ◌≤◌, ◌⊎◌, inl, inr, refl, sym, subst, true, some, List, arith, ltb, if◌then◌else◌, min,
}
use file_sender_byte_spark.Storage.Types.{
  ValidatedReceiveRequest, ValidatedReceivePath, TransactionState, ValidationError,
}
use file_sender_byte_spark.Storage.Component.{max_file_bytes}
use file_sender_byte_spark.Storage.Codepoints.{Utf8proc}
use file_sender_byte_spark.Storage.Budget.{TemporaryBudget}
use file_sender_byte_spark.Storage.Cleanup.{Sys, create_transaction}
use file_sender_byte_spark.Storage.Path.{
  PathValidationResult, RequestValidationResult, validate_receive_path, validate_receive_request,
}
use file_sender_byte_spark.Storage.Path.Safe.{IsSafePath, validate_receive_path-IsSafePath}
use file_sender_byte_spark.Storage.Transaction.Lifecycle.{IsValid}
use file_sender_byte_spark.Storage.Transaction.Calls.{Call, step, step-IsValid}
use file_sender_byte_spark.Storage.Transaction.Integrity.{BackendContract, StateTrace, IsTraced}
use file_sender_byte_spark.Storage.Transaction.Commit.{step-IsTraced, step-request}
use file_sender_byte_spark.Transfer.Types.{OneFileManifest}
use file_sender_byte_spark.Transfer.Receiver.{Outside}
use file_sender_byte_spark.Transfer.Receiver.Share.{Lends, free}
use file_sender_byte_spark.Transfer.Receiver.Honest.{Carried, IsMadeFor}

-- What is known of a request that was accepted.
pub record IsAcceptedRequest (request : ValidatedReceiveRequest) : Type 0 where
  pub small : request.declared_size ≤ max_file_bytes
  pub safe : IsSafePath request.path.utf8 request.path

accepted_cases :
    (x : PathValidationResult)
    → ((e : ValidationError) × (x ≡ PathValidationResult.rejected e))
      ⊎ ((p : ValidatedReceivePath) × (x ≡ PathValidationResult.accepted p))
accepted_cases (PathValidationResult.rejected e) = inl (e, refl)
accepted_cases (PathValidationResult.accepted p) = inr (p, refl)

refused_request :
    (e : ValidationError) (r : ValidatedReceiveRequest)
    → RequestValidationResult.rejected e ≡ RequestValidationResult.accepted r
    → ⊥
refused_request e r h = ground arith

sized_request :
    (p : ValidatedReceivePath) (size : ℕ) (r : ValidatedReceiveRequest)
    → (if ltb (min max_file_bytes max_file_bytes) size
        then RequestValidationResult.rejected ValidationError.declared_size_limit
        else RequestValidationResult.accepted (record { path = p; declared_size = size }))
      ≡ RequestValidationResult.accepted r
    → (r.path ≡ p) × (r.declared_size ≤ max_file_bytes)
sized_request p size r h = ground arith

safe_same :
    (encoded : List ℕ) (p : ValidatedReceivePath) → IsSafePath encoded p → IsSafePath p.utf8 p
safe_same encoded p s = subst (λ x. IsSafePath x p) (sym s.same) s

pub accepted-IsAcceptedRequest :
    (utf8 : Utf8proc) (path : List ℕ) (size : ℕ) (request : ValidatedReceiveRequest)
    → validate_receive_request utf8 path size max_file_bytes
      ≡ RequestValidationResult.accepted request
    → IsAcceptedRequest request
unfolding validate_receive_request
accepted-IsAcceptedRequest utf8 path size request h =
    elim (accepted_cases (validate_receive_path utf8 path)) [
      | inl (error, e) ↦
          absurd (refused_request error request (rw (validate_receive_request, e) at h))
      | inr (p, e) ↦
          let (same, small) =
            sized_request p size request (rw (validate_receive_request, e) at h) in
          record {
            small = small;
            safe =
                subst (λ x. IsSafePath x.utf8 x) (sym same)
                  (safe_same path p (validate_receive_path-IsSafePath utf8 path p e));
          }
    ]

-- A well formed transaction for a request that was accepted.
abbrev pub IsSettledSystem : (o : Outside) → Sys o.platform o.integrity → Type 0
IsSettledSystem o s = IsValid s.tx × IsAcceptedRequest s.tx.request

pub new_transaction-IsValid :
    {D : Type 0} (request : ValidatedReceiveRequest) (verifier : D)
    → IsAcceptedRequest request
    → IsValid (create_transaction request true (some verifier))
unfolding create_transaction
new_transaction-IsValid request verifier a = ground (arith, a.small)

pub step-IsSettled :
    (o : Outside) (c : Call) (s : Sys o.platform o.integrity)
    → IsSettledSystem o s
    → IsSettledSystem o (step o.platform o.integrity c s).0
step-IsSettled o c s (v, a) = (
  step-IsValid o.platform o.integrity c s v,
  subst (λ r. IsAcceptedRequest r) (sym (step-request o.platform o.integrity c s)) a,
)

pub new_request-IsAccepted :
    {D : Type 0} (request : ValidatedReceiveRequest) (verifier : D)
    → IsAcceptedRequest request
    → IsAcceptedRequest (create_transaction request true (some verifier)).request
unfolding create_transaction
new_request-IsAccepted request verifier a = a

abbrev pub settled_with : (o : Outside) → Lends → Carried o
settled_with o lends = record {
  lends = lends;
  Fits = IsAcceptedRequest;
  Holds = λ m. IsSettledSystem o;
  keeps = λ m. step-IsSettled o;
  starts = λ m request verifier b w made a.
      (new_transaction-IsValid request verifier a, new_request-IsAccepted request verifier a);
  shares = λ m s b h. h;
  accepts = accepted-IsAcceptedRequest o.utf8;
}

abbrev pub settled : (o : Outside) → Carried o
settled o = settled_with o free

-- With the trace of the bytes since the verifier was made.
module _ (o : Outside) (contract : BackendContract o.platform) where
  abbrev pub IsTracedSystem : OneFileManifest → Sys o.platform o.integrity → Type 0
  IsTracedSystem m s =
      IsSettledSystem o s
      × ((start : o.integrity.Digest) × IsMadeFor o m (some start)
          × IsTraced o.platform o.integrity contract start s)

  pub step-IsTracedSystem :
      (m : OneFileManifest) (c : Call) (s : Sys o.platform o.integrity)
      → IsTracedSystem m s
      → IsTracedSystem m (step o.platform o.integrity c s).0
  step-IsTracedSystem m c s ((v, a), (start, made, t)) = (
    step-IsSettled o c s (v, a),
    (start, made, step-IsTraced o.platform o.integrity contract start c s v t),
  )

  pub new_system-IsTraced :
      (request : ValidatedReceiveRequest) (verifier : o.integrity.Digest) (b : TemporaryBudget)
      (w : o.platform.World)
      → IsTraced o.platform o.integrity contract verifier
          (record { tx = create_transaction request true (some verifier); budget = b; world = w })
  unfolding create_transaction
  new_system-IsTraced request verifier b w d e = ground arith

  pub other_budget-IsTraced :
      (start : o.integrity.Digest) (s : Sys o.platform o.integrity) (b : TemporaryBudget)
      → IsTraced o.platform o.integrity contract start s
      → IsTraced o.platform o.integrity contract start (record s { budget = b })
  other_budget-IsTraced start s b t = by_state s.tx.state t
    where
      by_state :
          (state : TransactionState)
          → StateTrace o.platform o.integrity contract start state s
          → StateTrace o.platform o.integrity contract start state (record s { budget = b })
      by_state TransactionState.created t' = t'
      by_state TransactionState.receiving t' = t'
      by_state TransactionState.committed t' = t'
      by_state _ t' = t'

  abbrev pub traced : Carried o
  traced = record {
    lends = free;
    Fits = IsAcceptedRequest;
    Holds = IsTracedSystem;
    keeps = step-IsTracedSystem;
    starts = λ m request verifier b w made a. (
      (new_transaction-IsValid request verifier a, new_request-IsAccepted request verifier a),
      (verifier, made, new_system-IsTraced request verifier b w),
    );
    shares = λ m s b (settles, (start, made, t)).
        (settles, (start, made, other_budget-IsTraced start s b t));
    accepts = accepted-IsAcceptedRequest o.utf8;
  }

-- ===== src/Transfer/Receiver/Honest.antt =====
-- The invariant of a receiver, and how the parts of `Implementation` in
-- native/src/transfer/receiver.cpp that end a transfer keep it.
use file_sender_byte_spark.Prelude.{
  ℕ, ◌≡◌, refl, sym, ap, subst, ◌∙◌, inl, inr, Bool, true, false, Option, none, some, List, arith,
  if◌then◌else◌, Bool-cases, Option-cases,
}
use file_sender_byte_spark.Storage.Types.{ValidatedReceiveRequest}
use file_sender_byte_spark.Storage.Budget.{TemporaryBudget}
use file_sender_byte_spark.Storage.Component.{max_file_bytes}
use file_sender_byte_spark.Storage.Path.{RequestValidationResult, validate_receive_request}
use file_sender_byte_spark.Storage.Cleanup.{ReceiveTransaction, Sys, create_transaction}
use file_sender_byte_spark.Storage.Transaction.Calls.{Call, aborts, step}
use file_sender_byte_spark.Transfer.Types.{
  OneFileManifest, TransferState, TransferError, WireErrorCode, TransferUpdate,
}
use file_sender_byte_spark.Transfer.Sequence.{ConnectionMessageSequence}
use file_sender_byte_spark.Transfer.Encode.{Encoded}
use file_sender_byte_spark.Transfer.Receiver.{
  Outside, Endpoint, end_in, Outcome, on_receiver, on_transaction, abort_transaction, is_durable,
  release_both, release_stream, release_reserved_credit, with_frame,
}
use file_sender_byte_spark.Transfer.Credit.{CreditDirection, release_credit, close_stream}
use file_sender_byte_spark.Transfer.Receiver.Share.{Share, Lends}
use file_sender_byte_spark.Transfer.Receiver.Stage.{
  Stage, stage_of, IsGone, StateFacts, FactsOf, abort-IsGone,
}

-- What the provider of the verification, in some state, made for the first file of this transfer
-- and for the file commitment of its manifest.
abbrev pub IsMadeFor : (o : Outside) → OneFileManifest → Option o.integrity.Digest → Type 0
IsMadeFor o m verifier =
    (p : o.provider.State) × ((o.provider.create_file_verifier p m.transfer_id 0
        m.file_commitment).1
      ≡ verifier)

-- A fact about the manifest, the transaction and what it works on, that every method of the
-- transaction keeps, that does not depend on the shared budget, and that a new transaction has if
-- its request was accepted and its verifier was made for the file commitment of the manifest.
pub record Carried (o : Outside) : Type 1 where
  pub lends : Lends
  pub Fits : ValidatedReceiveRequest → Type 0
  pub Holds : OneFileManifest → Sys o.platform o.integrity → Type 0
  pub keeps :
      (m : OneFileManifest) (c : Call) (s : Sys o.platform o.integrity)
      → Holds m s
      → Holds m (step o.platform o.integrity c s).0
  pub starts :
      (m : OneFileManifest) (request : ValidatedReceiveRequest) (verifier : o.integrity.Digest)
      (b : TemporaryBudget) (w : o.platform.World)
      → IsMadeFor o m (some verifier)
      → Fits request
      → Holds m
          (record { tx = create_transaction request true (some verifier); budget = b; world = w })
  pub shares :
      (m : OneFileManifest) (s : Sys o.platform o.integrity) (b : TemporaryBudget)
      → Holds m s
      → Holds m (record s { budget = b })
  pub accepts :
      (path : List ℕ) (size : ℕ) (request : ValidatedReceiveRequest)
      → validate_receive_request o.utf8 path size max_file_bytes
        ≡ RequestValidationResult.accepted request
      → Fits request

module _ (o : Outside) (q : Carried o) where
  abbrev D : Type 0
  D = o.integrity.Digest

  -- The fact about the transaction that is there, and about the request that is known.
  abbrev pub HoldsOf :
      OneFileManifest → Option (ReceiveTransaction D) → TemporaryBudget → o.platform.World → Type 0
  HoldsOf m none b w = Unit {0}
  HoldsOf m (some tx) b w = q.Holds m (record { tx = tx; budget = b; world = w })

  abbrev pub FitsOf : Option ValidatedReceiveRequest → Type 0
  FitsOf none = Unit {0}
  FitsOf (some request) = q.Fits request

  -- The request that is known, and the share of the credit budget.
  abbrev pub Backs : Option ValidatedReceiveRequest → Share → Type 0
  Backs request s = FitsOf request × q.lends.Lent s

  abbrev pub share : Endpoint o → Share
  share e = record {
    credit = e.credit;
    window = e.receiver.initial_window;
    stream_id = e.receiver.context.stream_id;
    credit_reserved = e.receiver.credit_reserved;
    stream_reserved = e.receiver.stream_reserved;
  }

  abbrev pub IsCarried : Endpoint o → Type 0
  IsCarried e =
      HoldsOf e.receiver.manifest e.receiver.transaction e.budget e.world
      × Backs e.receiver.request (share e)

  abbrev pub IsHonest : Endpoint o → Type 0
  IsHonest e = FactsOf o e × IsCarried e

  -- What a method leaves is honest.
  unfoldable pub IsKept : Outcome o → Type 0
  IsKept outcome = IsHonest outcome.0

  pub kept : (e : Endpoint o) (u : TransferUpdate) → IsHonest e → IsKept (e, u)
  unfolding IsKept
  kept e u h = h

  pub if-IsKept :
      (test : Bool) (a b : Outcome o)
      → (test ≡ true → IsKept a)
      → (test ≡ false → IsKept b)
      → IsKept (if test then a else b)
  if-IsKept true a b p q = p refl
  if-IsKept false a b p q = q refl

  pub with_frame-IsKept :
      (x : Encoded) (found : List ℕ → Endpoint o → Outcome o) (missing : Endpoint o → Outcome o)
      (e : Endpoint o)
      → ((frame : List ℕ) (s : ConnectionMessageSequence)
          → IsKept (found frame (record e { sequence = s })))
      → ((s : ConnectionMessageSequence) → IsKept (missing (record e { sequence = s })))
      → IsKept (with_frame o x found missing e)
  with_frame-IsKept (s, none) found missing e f m = m s
  with_frame-IsKept (s, some frame) found missing e f m = f frame s

  -- What the transaction is and works on, with the request and `cancel_sent`.
  abbrev Core : Type 0
  Core =
      Bool
      × Option (ReceiveTransaction D)
      × TemporaryBudget
      × o.platform.World
      × Option ValidatedReceiveRequest
      × OneFileManifest
      × Share

  abbrev pub core : Endpoint o → Core
  core e = (
    e.receiver.cancel_sent,
    e.receiver.transaction,
    e.budget,
    e.world,
    e.receiver.request,
    e.receiver.manifest,
    share e,
  )

  abbrev with_share : Core → Share → Core
  with_share (sent, tx, b, w, request, m, s) s' = (sent, tx, b, w, request, m, s')

  abbrev pub IsCarriedCore : Core → Type 0
  IsCarriedCore (sent, tx, b, w, request, m, s) = HoldsOf m tx b w × Backs request s

  -- A core without a file, or with a committed one.
  abbrev pub IsGoneCore : Core → Type 0
  IsGoneCore (sent, tx, b, w, request, m, s) =
      IsGone (stage_of tx) × HoldsOf m tx b w × Backs request s

  abbrev pub IsDurableCore : Core → Type 0
  IsDurableCore (sent, tx, b, w, request, m, s) =
      (stage_of tx ≡ Stage.durable) × HoldsOf m tx b w × Backs request s

  pub release_stream-core :
      (e : Endpoint o)
      → core (release_stream o e) ≡ with_share (core e) (share (release_stream o e))
  unfolding release_stream
  release_stream-core e = elim (Bool-cases e.receiver.stream_reserved) [
    | inl h ↦ rw (release_stream, h) refl
    | inr h ↦ rw (release_stream, h) refl
  ]

  pub release_reserved_credit-core :
      (e : Endpoint o)
      → core (release_reserved_credit o e)
        ≡ with_share (core e) (share (release_reserved_credit o e))
  unfolding release_reserved_credit
  release_reserved_credit-core e = elim (Bool-cases e.receiver.credit_reserved) [
    | inl h ↦ rw (release_reserved_credit, h) refl
    | inr h ↦ rw (release_reserved_credit, h) refl
  ]

  pub release_both-core :
      (e : Endpoint o) → core (release_both o e) ≡ with_share (core e) (share (release_both o e))
  release_both-core e =
      release_stream-core (release_reserved_credit o e)
      ∙ ap (λ c. with_share c (share (release_both o e))) (release_reserved_credit-core e)

  unreserved : (e : Endpoint o) → e.receiver.stream_reserved ≡ false → release_stream o e ≡ e
  unfolding release_stream
  unreserved e h =
      ap
        (λ b.
          if b
          then record e {
            credit = close_stream e.receiver.context.stream_id e.credit;
            receiver = record (e.receiver) { stream_reserved = false };
          }
          else e)
        h

  uncredited :
      (e : Endpoint o) → e.receiver.credit_reserved ≡ false → release_reserved_credit o e ≡ e
  unfolding release_reserved_credit
  uncredited e h =
      ap
        (λ b.
          if b
          then record e {
            credit = release_credit CreditDirection.inbound e.receiver.initial_window e.credit;
            receiver = record (e.receiver) { credit_reserved = false };
          }
          else e)
        h

  pub release_stream-Lent :
      (e : Endpoint o) → q.lends.Lent (share e) → q.lends.Lent (share (release_stream o e))
  unfolding release_stream
  release_stream-Lent e l = elim (Bool-cases e.receiver.stream_reserved) [
    | inl h ↦ rw (release_stream, h) (q.lends.stream_returned (share e) h l)
    | inr h ↦ subst (λ x. q.lends.Lent (share x)) (sym (unreserved e h)) l
  ]

  pub release_reserved_credit-Lent :
      (e : Endpoint o) → q.lends.Lent (share e) → q.lends.Lent (share (release_reserved_credit o e))
  unfolding release_reserved_credit
  release_reserved_credit-Lent e l = elim (Bool-cases e.receiver.credit_reserved) [
    | inl h ↦ rw (release_reserved_credit, h) (q.lends.credit_returned (share e) h l)
    | inr h ↦ subst (λ x. q.lends.Lent (share x)) (sym (uncredited e h)) l
  ]

  pub release_both-Lent :
      (e : Endpoint o) → q.lends.Lent (share e) → q.lends.Lent (share (release_both o e))
  release_both-Lent e l =
      release_stream-Lent (release_reserved_credit o e) (release_reserved_credit-Lent e l)

  pub release_reserved_credit-released :
      (e : Endpoint o) → (release_reserved_credit o e).receiver.credit_reserved ≡ false
  unfolding release_reserved_credit
  release_reserved_credit-released e = ground arith

  pub release_stream-released :
      (e : Endpoint o) → (release_stream o e).receiver.stream_reserved ≡ false
  unfolding release_stream
  release_stream-released e = ground arith

  pub release_stream-credit :
      (e : Endpoint o) → (release_stream o e).receiver.credit_reserved ≡ e.receiver.credit_reserved
  unfolding release_stream
  release_stream-credit e = ground arith

  pub release_stream-state :
      (e : Endpoint o) → (release_stream o e).receiver.state ≡ e.receiver.state
  unfolding release_stream
  release_stream-state e = ground arith

  pub release_both-credit : (e : Endpoint o) → (release_both o e).receiver.credit_reserved ≡ false
  release_both-credit e =
      release_stream-credit (release_reserved_credit o e) ∙ release_reserved_credit-released e

  pub release_both-stream : (e : Endpoint o) → (release_both o e).receiver.stream_reserved ≡ false
  release_both-stream e = release_stream-released (release_reserved_credit o e)

  -- A call of the transaction, and its abort.
  pub on_transaction-IsCarried :
      (c : Call) (e : Endpoint o)
      → IsCarried e
      → IsCarried (on_transaction o (step o.platform o.integrity c) e).0
  unfolding on_transaction
  on_transaction-IsCarried c e (h, f) = elim (Option-cases e.receiver.transaction) [
    | inl n ↦ rw (on_transaction, n) (h, f)
    | inr (tx, n) ↦ rw (on_transaction, n) (q.keeps _ c _ (rw n at h), f)
  ]

  pub on_transaction-sent :
      (c : Call) (e : Endpoint o)
      → (on_transaction o (step o.platform o.integrity c) e).0.receiver.cancel_sent
        ≡ e.receiver.cancel_sent
  unfolding on_transaction
  on_transaction-sent c e = elim (Option-cases e.receiver.transaction) [
    | inl n ↦ rw (on_transaction, n) refl
    | inr (tx, n) ↦ rw (on_transaction, n) refl
  ]

  abort_transaction-stage :
      (e : Endpoint o)
      → is_durable o e.receiver.transaction ≡ false
      → IsGone (stage_of (abort_transaction o e).receiver.transaction)
  unfolding abort_transaction on_transaction
  abort_transaction-stage e h = elim (Option-cases e.receiver.transaction) [
    | inl n ↦ rw (abort_transaction, on_transaction, n) (rw n tt)
    | inr (tx, n) ↦ rw (abort_transaction, on_transaction, n) (abort-IsGone o _ (rw n at h))
  ]

  pub abort_transaction-gone :
      (e : Endpoint o)
      → is_durable o e.receiver.transaction ≡ false
      → IsCarried e
      → IsGoneCore (core (abort_transaction o e))
  unfolding abort_transaction
  abort_transaction-gone e n h =
      let (held, fits) = on_transaction-IsCarried aborts e h in
      (abort_transaction-stage e n, held, fits)

  pub abort_transaction-sent :
      (e : Endpoint o) → (abort_transaction o e).receiver.cancel_sent ≡ e.receiver.cancel_sent
  unfolding abort_transaction
  abort_transaction-sent e = on_transaction-sent aborts e

  pub released-gone : (e : Endpoint o) → IsGoneCore (core e) → IsGoneCore (core (release_both o e))
  released-gone e (gone, held, (fits, lent)) =
      subst (λ c. IsGoneCore c) (sym (release_both-core e))
        (gone, held, (fits, release_both-Lent e lent))

  -- How a transfer ends, whatever it was doing.
  abbrev pub IsEndOfLost : TransferState → Type 0
  IsEndOfLost TransferState.failed = Unit {0}
  IsEndOfLost TransferState.cancelled = Unit {0}
  IsEndOfLost TransferState.rejected = Unit {0}
  IsEndOfLost _ = ⊥

  lost_facts :
      (state : TransferState) (sent : Bool) (stage : Stage)
      → IsEndOfLost state
      → IsGone stage
      → StateFacts state sent false false stage
  lost_facts state sent stage h g = ground arith

  pub lost-facts :
      (state : TransferState) (sent credit stream : Bool) (stage : Stage)
      → IsEndOfLost state
      → credit ≡ false
      → stream ≡ false
      → IsGone stage
      → StateFacts state sent credit stream stage
  lost-facts state sent credit stream stage h c s g = rw (c, s) (lost_facts state sent stage h g)

  -- The end of a transfer without its file.
  pub lost-IsHonest :
      (state : TransferState) (error : TransferError) (code : WireErrorCode)
      (fatal retryable : Bool) (e : Endpoint o)
      → IsEndOfLost state
      → IsGoneCore (core e)
      → IsHonest (on_receiver o (end_in state error code fatal retryable) (release_both o e))
  lost-IsHonest state error code fatal retryable e h g =
      let (gone, held, fits) = released-gone e g in
      (
        lost-facts state _ _ _ _ h (release_both-credit e) (release_both-stream e) gone,
        (held, fits),
      )

  abbrev pub IsEndOfKept : TransferState → Type 0
  IsEndOfKept TransferState.committed = Unit {0}
  IsEndOfKept TransferState.completed = Unit {0}
  IsEndOfKept _ = ⊥

  pub kept-facts :
      (state : TransferState) (sent credit stream : Bool) (stage : Stage)
      → IsEndOfKept state
      → sent ≡ false
      → credit ≡ false
      → stream ≡ false
      → stage ≡ Stage.durable
      → StateFacts state sent credit stream stage
  kept-facts state sent credit stream stage h s c t g = ground arith

  -- The end of a transfer with its file.
  pub kept-IsHonest :
      (state : TransferState) (error : TransferError) (code : WireErrorCode)
      (fatal retryable : Bool) (e : Endpoint o)
      → IsEndOfKept state
      → e.receiver.cancel_sent ≡ false
      → IsDurableCore (core e)
      → IsHonest (on_receiver o (end_in state error code fatal retryable) (release_both o e))
  kept-IsHonest state error code fatal retryable e h s (durable', held', (fits', lent)) =
      let (durable, held, fits) =
        subst (λ c. IsDurableCore c) (sym (release_both-core e))
          (durable', held', (fits', release_both-Lent e lent)) in
      (
        kept-facts state _ _ _ _ h (ap (λ c. c.0) (release_both-core e) ∙ s) (release_both-credit e)
            (release_both-stream e) durable,
        (held, fits),
      )

-- ===== src/Transfer/Receiver/Ends.antt =====
-- That every way to end a transfer in native/src/transfer/receiver.cpp keeps the invariant.
use file_sender_byte_spark.Prelude.{
  ℕ, ◌≡◌, ◌≢◌, inl, inr, Bool, true, false, none, some, arith, Bool-cases,
}
use file_sender_byte_spark.Transfer.Types.{
  TransferState, TransferError, WireErrorCode, TransferUpdate,
}
use file_sender_byte_spark.Transfer.Errors.{wire_error_may_retry}
use file_sender_byte_spark.Transfer.Encode.{Encoded}
use file_sender_byte_spark.Transfer.Receiver.{
  Outside, Authority, Endpoint, clear_cancel, on_receiver, abort_transaction, is_durable,
}
use file_sender_byte_spark.Transfer.Receiver.Endings.{
  with_report, report, settle_failure, fail, cancel_timeout, is_late, cancel_is_late, check_timeout,
}
use file_sender_byte_spark.Transfer.Receiver.Stage.{
  Stage, stage_of, IsGone, StateFacts, is_durable-stage, durable-sent,
}
use file_sender_byte_spark.Transfer.Receiver.Honest.{
  Carried, IsCarried, IsHonest, IsKept, kept, if-IsKept, core, IsDurableCore, release_both-credit,
  release_both-stream, abort_transaction-gone, released-gone, lost-facts, lost-IsHonest,
  kept-IsHonest,
}

sent_cleared :
    (state : TransferState) (sent credit stream : Bool) (stage : Stage)
    → StateFacts state sent credit stream stage
    → StateFacts state false credit stream stage
sent_cleared state sent credit stream stage f = ground arith

pub cancelling-IsGone :
    (state : TransferState) (sent credit stream : Bool) (stage : Stage)
    → state ≡ TransferState.cancelling
    → StateFacts state sent credit stream stage
    → IsGone stage
cancelling-IsGone state sent credit stream stage h f = ground arith

gone_not_durable : (stage : Stage) → IsGone stage → stage ≢ Stage.durable
gone_not_durable stage g = ground arith

module _ (o : Outside) (q : Carried o) where
  -- A committed file has no CANCEL of ours under way, so its transfer may still end well.
  abbrev pub IsCalm : Endpoint o → Type 0
  IsCalm e =
      (stage_of e.receiver.transaction ≡ Stage.durable → e.receiver.cancel_sent ≡ false)
      × IsCarried o q e

  pub honest-IsCalm : (e : Endpoint o) → IsHonest o q e → IsCalm e
  honest-IsCalm e (f, c) = (λ d. durable-sent _ _ _ _ _ d f, c)

  pub unsent-IsCalm : (e : Endpoint o) → e.receiver.cancel_sent ≡ false → IsCarried o q e → IsCalm e
  unsent-IsCalm e s c = (λ d. s, c)

  pub gone-undurable :
      (e : Endpoint o)
      → IsGone (stage_of e.receiver.transaction)
      → is_durable o e.receiver.transaction ≡ false
  gone-undurable e g = elim (Bool-cases (is_durable o e.receiver.transaction)) [
    | inl d ↦ elim (gone_not_durable _ g (is_durable-stage o _ d)) [ ]
    | inr n ↦ n
  ]

  pub durable-IsDurable :
      (e : Endpoint o)
      → is_durable o e.receiver.transaction ≡ true
      → IsCarried o q e
      → IsDurableCore o q (core o q e)
  durable-IsDurable e d (h, f) = (is_durable-stage o _ d, h, f)

  pub settle_failure-IsHonest :
      (error : TransferError) (code : WireErrorCode) (fatal retryable : Bool) (e : Endpoint o)
      → IsCalm e
      → IsHonest o q (
          settle_failure o TransferState.committed TransferState.failed error code fatal retryable
            e)
  unfolding settle_failure
  settle_failure-IsHonest error code fatal retryable e (calm, c) =
      elim (Bool-cases (is_durable o e.receiver.transaction)) [
        | inl d ↦
            rw (settle_failure, d)
              (kept-IsHonest o q TransferState.committed error code fatal retryable e tt
                (calm (is_durable-stage o _ d)) (durable-IsDurable e d c))
        | inr n ↦
            rw (settle_failure, n)
              (lost-IsHonest o q TransferState.failed error code fatal retryable
                (abort_transaction o e) tt (abort_transaction-gone o q e n c))
      ]

  cleared-IsHonest : (e : Endpoint o) → IsHonest o q e → IsHonest o q (on_receiver o clear_cancel e)
  cleared-IsHonest e (f, c) = (sent_cleared _ _ _ _ _ f, c)

  report-IsKept :
      (reports : Bool) (code : WireErrorCode) (retryable : Bool) (u : TransferUpdate)
      (e : Endpoint o)
      → IsHonest o q e
      → IsKept o q (report o reports code retryable u e)
  unfolding report
  report-IsKept reports code retryable u e h =
      if-IsKept o q reports _ _ (λ t. reported _ e h) (λ t. kept o q e u h)
    where
      reported :
          (x : Encoded) (e' : Endpoint o) → IsHonest o q e' → IsKept o q (with_report o x u e')
      reported (s, none) e' h' = kept o q _ _ h'
      reported (s, some frame) e' h' = kept o q _ _ h'

  pub fail-IsKept :
      (authority : Authority) (error : TransferError) (code : WireErrorCode) (fatal : Bool)
      (e : Endpoint o)
      → IsCalm e
      → IsKept o q (fail o authority error code fatal e)
  unfolding fail
  fail-IsKept authority error code fatal e calm = report-IsKept _ code _ _ _ (
      cleared-IsHonest
        (settle_failure o TransferState.committed TransferState.failed error code fatal
          (wire_error_may_retry code) e)
        (settle_failure-IsHonest error code fatal _ e calm))

  cancel_timeout-IsKept :
      (authority : Authority) (e : Endpoint o)
      → e.receiver.state ≡ TransferState.cancelling
      → IsHonest o q e
      → IsKept o q (cancel_timeout o authority e)
  unfolding cancel_timeout
  cancel_timeout-IsKept authority e r (f, c) =
      let aborted = abort_transaction o e in
      let (gone, held, fits) =
        released-gone o q aborted
          (abort_transaction-gone o q e (gone-undurable e (cancelling-IsGone _ _ _ _ _ r f)) c) in
      report-IsKept _ WireErrorCode.timeout _ _ _ (
        lost-facts o q TransferState.failed false _ _ _ tt (release_both-credit o q aborted)
            (release_both-stream o q aborted) gone,
        (held, fits),
      )

  late_cancelling :
      (now : ℕ) (e : Endpoint o)
      → cancel_is_late o now e.receiver.state e.receiver ≡ true
      → e.receiver.state ≡ TransferState.cancelling
  late_cancelling now e h = ground arith

  pub check_timeout-IsKept :
      (authority : Authority) (now : ℕ) (e : Endpoint o)
      → IsHonest o q e
      → IsKept o q (check_timeout o authority now e)
  unfolding check_timeout
  check_timeout-IsKept authority now e h =
      if-IsKept o q (is_late o now e.receiver.state e.receiver) _ _
        (λ t. fail-IsKept authority _ _ _ e (honest-IsCalm e h))
        (λ t.
          if-IsKept o q (cancel_is_late o now e.receiver.state e.receiver) _ _
            (λ l. cancel_timeout-IsKept authority e (late_cancelling now e l) h)
            (λ l. kept o q e _ h))

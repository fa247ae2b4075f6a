-- ===== src/Transfer/Receiver/Decides.antt =====
-- That `Accept`, `Reject`, `Advance`, `Cancel` and `Shutdown` of
-- native/src/transfer/receiver.cpp keep the
-- invariant.
use file_sender_byte_spark.Prelude.{
  ℕ, ◌≡◌, ◌≢◌, refl, sym, subst, ◌∙◌, inl, inr, Bool, true, false, ◌&&◌, ◌||◌, not, Option, none,
  some, arith, ◌==◌, Option-cases,
}
use file_sender_byte_spark.Storage.Types.{
  PlatformError, ValidatedReceiveRequest, TransactionResult, TransactionState, TransactionError,
}
use file_sender_byte_spark.Storage.Cleanup.{
  ReceiveTransaction, Sys, create_transaction, fail_and_cleanup, finish_cleanup,
}
use file_sender_byte_spark.Storage.Transaction.{
  begin_created, begin_reserved, begin_budgeted, begin,
}
use file_sender_byte_spark.Storage.Transaction.Calls.{begins}
use file_sender_byte_spark.Transfer.Types.{TransferState, TransferError, WireErrorCode, is_terminal}
use file_sender_byte_spark.Transfer.Errors.{
  wire_error_value, wire_error_is_reject_reason, wire_error_may_retry,
}
use file_sender_byte_spark.Transfer.Limits.{observe_time}
use file_sender_byte_spark.Transfer.Credit.{
  CreditDirection, ConnectionCreditBudget, try_reserve_credit,
}
use file_sender_byte_spark.Transfer.Receiver.{
  Outside, Authority, Endpoint, end_in, clear_cancel, on_receiver, on_transaction,
  abort_transaction, is_durable,
}
use file_sender_byte_spark.Transfer.Receiver.Endings.{check_timeout, encode_accept}
use file_sender_byte_spark.Transfer.Receiver.Offer.{is_created, is_success, is_cancelling}
use file_sender_byte_spark.Transfer.Receiver.Stage.{Stage, stage_of, IsGone, StateFacts, FactsOf}
use file_sender_byte_spark.Transfer.Receiver.Honest.{
  Carried, IsMadeFor, FitsOf, share, IsCarried, IsHonest, IsKept, kept, if-IsKept,
  with_frame-IsKept, on_transaction-IsCarried, on_transaction-sent, abort_transaction-gone,
}
use file_sender_byte_spark.Transfer.Receiver.Ends.{
  unsent-IsCalm, gone-undurable, fail-IsKept, check_timeout-IsKept,
}
use file_sender_byte_spark.Transfer.Receiver.Closes.{
  finish_committed-IsHonest, finish-IsHonest, finish_cancelled-kept, emit_cancel-IsKept,
}
use file_sender_byte_spark.Transfer.Receiver.Answers.{
  begin_reject-IsKept, reject_for_storage-IsKept,
}
use file_sender_byte_spark.Transfer.Receiver.Offers.{idle_facts, failed-IsKept}
use file_sender_byte_spark.Transfer.Receiver.Contents.{begin-stage}
use file_sender_byte_spark.Transfer.Receiver.Calls.{
  is_receiving_file, is_awaiting_decision, is_rejecting, timed, in_time,
}
use file_sender_byte_spark.Transfer.Receiver.Decisions.{
  accept_begun, accept_verifier, accept_reserved, window_fits, accept_timely, accept, reject_timely,
  same_flag, reject, advance, cancel_aborted, cancel_observed, cancel, shut_down,
}
use file_sender_byte_spark.Transfer.Receiver.Sends.{timed-IsKept, in_time-IsKept}

awaiting_state :
    (s : TransferState) → not (is_awaiting_decision s) ≡ false → s ≡ TransferState.awaiting_decision
awaiting_state s h = ground arith

or_false : (a b : Bool) → (a || b) ≡ false → a ≡ false
or_false a b h = ground arith

not-false : (b : Bool) → not b ≡ false → b ≡ true
not-false b h = ground arith

sent_off :
    (state : TransferState) (sent credit stream : Bool) (stage : Stage)
    → StateFacts state sent credit stream stage
    → StateFacts state false credit stream stage
sent_off state sent credit stream stage f = ground arith

module _ (o : Outside) (q : Carried o) where
  fail-state :
      (e : TransactionError) (p : PlatformError) (s : Sys o.platform o.integrity)
      → (fail_and_cleanup o.platform o.integrity e p s).0.tx.state ≢ TransactionState.committed
  unfolding fail_and_cleanup finish_cleanup
  fail-state e p s h = ground arith

  begin_created-state :
      (c : PlatformError) (h : ℕ) (s : Sys o.platform o.integrity)
      → (begin_created o.platform o.integrity c h s).0.tx.state ≢ TransactionState.committed
  unfolding begin_created
  begin_created-state c h s k = grind (arith, fail-state)

  -- Opening a file does not commit it.
  begin-state :
      (s : Sys o.platform o.integrity)
      → s.tx.state ≡ TransactionState.created
      → (begin o.platform o.integrity s).0.tx.state ≢ TransactionState.committed
  unfolding begin begin_budgeted begin_reserved
  begin-state s r k = grind (arith, begin_created-state)

  begun_undurable :
      (tx : ReceiveTransaction o.integrity.Digest)
      → tx.state ≢ TransactionState.committed
      → is_durable o (some tx) ≡ false
  begun_undurable tx h = ground arith

  -- Accept.
  accept_begun-IsKept :
      (authority : Authority) (chunk_size initial_window now : ℕ)
      (x : Endpoint o × TransactionResult)
      → x.0.receiver.cancel_sent ≡ false
      → is_durable o x.0.receiver.transaction ≡ false
      → (is_success x.1.error ≡ true → stage_of x.0.receiver.transaction ≡ Stage.underway)
      → IsCarried o q x.0
      → IsKept o q (accept_begun o authority chunk_size initial_window now x)
  unfolding accept_begun
  accept_begun-IsKept authority chunk_size initial_window now (e, begun) unsent n good c =
      let ready =
        on_receiver o (λ r. record r { chunk_size = chunk_size; available_credit = initial_window })
          e in
      if-IsKept o q (not (is_success begun.error)) _ _
        (λ t. reject_for_storage-IsKept o q authority begun now e unsent n c)
        (λ t.
          with_frame-IsKept o q (encode_accept o ready.receiver ready.sequence) _ _ ready
            (λ frame s. kept o q _ _ ((unsent, good (not-false _ t)), c))
            (λ s.
              fail-IsKept o q authority _ _ _ (record ready { sequence = s })
                (unsent-IsCalm o q (record ready { sequence = s }) unsent c)))

  begun-undurable :
      (request : ValidatedReceiveRequest) (v : o.integrity.Digest) (e : Endpoint o)
      → is_durable o
          (on_transaction o (begin o.platform o.integrity) (
            on_receiver o
              (λ r. record r { transaction = some (create_transaction request true (some v)) })
              e)).0.receiver.transaction
        ≡ false
  unfolding on_transaction create_transaction
  begun-undurable request v e =
      let s : Sys o.platform o.integrity = record {
        tx = create_transaction request true (some v);
        budget = e.budget;
        world = e.world;
      } in
      begun_undurable (begin o.platform o.integrity s).0.tx (begin-state s refl)

  accept_verifier-IsKept :
      (authority : Authority) (request : ValidatedReceiveRequest)
      (chunk_size initial_window now : ℕ) (verifier : Option o.integrity.Digest) (e : Endpoint o)
      → e.receiver.cancel_sent ≡ false
      → is_durable o e.receiver.transaction ≡ false
      → q.Fits request
      → IsMadeFor o e.receiver.manifest verifier
      → IsCarried o q e
      → IsKept o q (accept_verifier o authority request chunk_size initial_window now verifier e)
  unfolding accept_verifier
  accept_verifier-IsKept authority request chunk_size initial_window now none e unsent n fits made
        c =
      reject_for_storage-IsKept o q authority _ now e unsent n c
  accept_verifier-IsKept authority request chunk_size initial_window now (some verifier) e unsent n
        fits made c =
      let e' : Endpoint o =
        on_receiver o
          (λ r. record r { transaction = some (create_transaction request true (some verifier)) })
          e in
      accept_begun-IsKept authority chunk_size initial_window now
        (on_transaction o (begin o.platform o.integrity) e')
        (on_transaction-sent o q begins e' ∙ unsent) (begun-undurable request verifier e)
        (begin-stage o q e')
        (on_transaction-IsCarried o q begins e'
          (q.starts e.receiver.manifest request verifier e.budget e.world made fits, c.1))

  accept_reserved-IsKept :
      (authority : Authority) (request : ValidatedReceiveRequest)
      (chunk_size initial_window now : ℕ) (x : ConnectionCreditBudget × Bool) (e : Endpoint o)
      → e.receiver.credit_reserved ≡ false
      → try_reserve_credit CreditDirection.inbound initial_window e.credit ≡ x
      → e.receiver.cancel_sent ≡ false
      → is_durable o e.receiver.transaction ≡ false
      → q.Fits request
      → IsCarried o q e
      → IsKept o q (accept_reserved o authority request chunk_size initial_window now x e)
  unfolding accept_reserved
  accept_reserved-IsKept authority request chunk_size initial_window now (credit, false) e unlent x
        unsent n fits (held, (fit, lent)) =
      reject_for_storage-IsKept o q authority _ now (record e { credit = credit }) unsent n
        (held, (fit, q.lends.credit_refused (share o q e) initial_window credit x lent))
  accept_reserved-IsKept authority request chunk_size initial_window now (credit, true) e unlent x
        unsent n fits (held, (fit, lent)) =
      let answer =
        o.provider.create_file_verifier e.provided e.receiver.manifest.transfer_id 0
          e.receiver.manifest.file_commitment in
      accept_verifier-IsKept authority request chunk_size initial_window now answer.1
        (record e {
          credit = credit;
          provided = answer.0;
          receiver = record (e.receiver) {
            initial_window = initial_window;
            credit_reserved = true;
          };
        })
        unsent n fits (e.provided, refl)
        (held, (fit, q.lends.credit_taken (share o q e) initial_window credit unlent x lent))

  accept_timely-IsKept :
      (authority : Authority) (request : ValidatedReceiveRequest)
      (chunk_size initial_window now : ℕ) (e : Endpoint o)
      → e.receiver.credit_reserved ≡ false
      → e.receiver.cancel_sent ≡ false
      → is_durable o e.receiver.transaction ≡ false
      → q.Fits request
      → IsCarried o q e
      → IsKept o q (accept_timely o authority request chunk_size initial_window now e)
  unfolding accept_timely
  accept_timely-IsKept authority request chunk_size initial_window now e unlent unsent n fits c =
      let calm = unsent-IsCalm o q e unsent c in
      if-IsKept o q (not authority.admits) _ _ (λ t. fail-IsKept o q authority _ _ _ e calm)
        (λ t.
          if-IsKept o q (not (window_fits o e.receiver.context chunk_size initial_window)) _ _
            (λ u. fail-IsKept o q authority _ _ _ e calm)
            (λ u.
              accept_reserved-IsKept authority request chunk_size initial_window now _ e unlent refl
                unsent n fits c))

  -- What a receiver that awaits a decision has done.
  idle :
      (e : Endpoint o)
      → e.receiver.state ≡ TransferState.awaiting_decision
      → FactsOf o e
      → (e.receiver.cancel_sent ≡ false)
        × (is_durable o e.receiver.transaction ≡ false)
        × (e.receiver.credit_reserved ≡ false)
  idle e r f =
      let (unsent, credit, stage) = idle_facts _ _ _ _ _ (inr (inr r)) f in
      (unsent, gone-undurable o q e (subst (λ s. IsGone s) (sym stage) tt), credit)

  pub accept-IsKept :
      (authority : Authority) (chunk_size initial_window now : ℕ) (e : Endpoint o)
      → IsHonest o q e
      → IsKept o q (accept o authority chunk_size initial_window now e)
  unfolding accept
  accept-IsKept authority chunk_size initial_window now e (f, (held, fits)) =
      let r = e.receiver in
      if-IsKept o q (is_terminal r.state) _ _ (λ t. kept o q e _ (f, (held, fits)))
        (λ t. elim (Option-cases r.request) [
          | inl n ↦ rw n (kept o q e _ (f, (held, fits)))
          | inr (request, n) ↦ rw n (
              if-IsKept o q (is_receiving_file r.state) _ _
                (λ u.
                  if-IsKept o q (r.chunk_size == chunk_size && r.initial_window == initial_window) _
                    _ (λ v. kept o q e _ (f, (held, fits))) (λ v. kept o q e _ (f, (held, fits))))
                (λ u.
                  if-IsKept o q (not (is_awaiting_decision r.state)) _ _
                    (λ v. kept o q e _ (f, (held, fits)))
                    (λ v.
                      accepted request (subst (λ x. FitsOf o q x) n fits.0) (awaiting_state _ v))))
        ])
    where
      accepted :
          (request : ValidatedReceiveRequest)
          → q.Fits request
          → e.receiver.state ≡ TransferState.awaiting_decision
          → IsKept o q (
              timed o authority
                (observe_time now e.receiver.last_now_ms)
                (λ e'.
                  in_time o
                    (check_timeout o authority now e')
                    (accept_timely o authority request chunk_size initial_window now))
                e)
      accepted request fit r =
          let (unsent, n, unlent) = idle e r f in
          timed-IsKept o q authority (observe_time now e.receiver.last_now_ms)
            (λ e'.
              in_time o (check_timeout o authority now e')
                (accept_timely o authority request chunk_size initial_window now))
            e (f, (held, fits))
            (λ seen.
              in_time-IsKept o q authority now
                (accept_timely o authority request chunk_size initial_window now)
                (on_receiver o (λ r'. record r' { last_now_ms = seen }) e) (f, (held, fits))
                (accept_timely-IsKept authority request chunk_size initial_window now
                  (on_receiver o (λ r'. record r' { last_now_ms = seen }) e) unlent unsent n fit
                  (held, fits)))

  reject_timely-IsKept :
      (authority : Authority) (code : WireErrorCode) (retryable : Bool) (now : ℕ) (e : Endpoint o)
      → e.receiver.cancel_sent ≡ false
      → is_durable o e.receiver.transaction ≡ false
      → IsCarried o q e
      → IsKept o q (reject_timely o authority code retryable now e)
  reject_timely-IsKept authority code retryable now e unsent n c =
      if-IsKept o q (not authority.admits) _ _
        (λ t. fail-IsKept o q authority _ _ _ e (unsent-IsCalm o q e unsent c))
        (λ t. begin_reject-IsKept o q authority _ code retryable now e unsent n c)

  pub reject-IsKept :
      (authority : Authority) (code : WireErrorCode) (retryable : Bool) (now : ℕ) (e : Endpoint o)
      → IsHonest o q e
      → IsKept o q (reject o authority code retryable now e)
  unfolding reject
  reject-IsKept authority code retryable now e (f, c) =
      let r = e.receiver in
      if-IsKept o q (is_terminal r.state) _ _ (λ t. kept o q e _ (f, c))
        (λ t.
          if-IsKept o q (is_rejecting r.state) _ _
            (λ u.
              if-IsKept o q
                (r.pending_reject
                  && wire_error_value r.pending_reject_code == wire_error_value code
                  && same_flag o r.pending_reject_retryable retryable)
                _ _ (λ v. kept o q e _ (f, c)) (λ v. kept o q e _ (f, c)))
            (λ u.
              if-IsKept o q
                (not (is_awaiting_decision r.state)
                  || not (wire_error_is_reject_reason code)
                  || (retryable && not (wire_error_may_retry code)))
                _ _ (λ v. kept o q e _ (f, c))
                (λ v.
                  let (unsent, n, unlent) =
                    idle e (awaiting_state _ (or_false _ _ (or_false _ _ v))) f in
                  timed-IsKept o q authority (observe_time now r.last_now_ms) _ e (f, c)
                    (λ seen.
                      in_time-IsKept o q authority now
                        (reject_timely o authority code retryable now)
                        (on_receiver o (λ r'. record r' { last_now_ms = seen }) e) (f, c)
                        (reject_timely-IsKept authority code retryable now
                          (on_receiver o (λ r'. record r' { last_now_ms = seen }) e) unsent n c)))))

  pub advance-IsKept :
      (authority : Authority) (now : ℕ) (e : Endpoint o)
      → IsHonest o q e
      → IsKept o q (advance o authority now e)
  unfolding advance
  advance-IsKept authority now e h =
      if-IsKept o q (is_terminal e.receiver.state) _ _ (λ t. kept o q e _ h)
        (λ t. timed-IsKept o q authority (observe_time now e.receiver.last_now_ms) _ e h (λ seen.
          if-IsKept o q authority.admits _ _
            (λ u.
              check_timeout-IsKept o q authority now
                (on_receiver o (λ r. record r { last_now_ms = seen }) e) h)
            (λ u.
              failed-IsKept o q authority _ _ _
                (on_receiver o (λ r. record r { last_now_ms = seen }) e) h)))

  -- Cancel and shut down.
  cancel_aborted-IsKept :
      (authority : Authority) (e : Endpoint o)
      → IsGone (stage_of e.receiver.transaction)
      → IsCarried o q e
      → IsKept o q (cancel_aborted o authority e)
  unfolding cancel_aborted
  cancel_aborted-IsKept authority e g c =
      if-IsKept o q (is_created e.receiver.state || not authority.admits) _ _
        (λ t. kept o q _ _ (finish_cancelled-kept o q e g c))
        (λ t.
          emit_cancel-IsKept o q
            (on_receiver o
              (λ r.
                record (end_in TransferState.cancelling TransferError.none WireErrorCode.none false
                  false r) {
                    cancel_origin_state = r.state;
                    cancel_frame_pending = true;
                    cancel_ack_pending = false;
                  })
              e)
            refl (g, c))

  cancel_observed-IsKept :
      (authority : Authority) (e : Endpoint o)
      → IsHonest o q e
      → IsKept o q (cancel_observed o authority e)
  unfolding cancel_observed
  cancel_observed-IsKept authority e (f, c) =
      if-IsKept o q (is_durable o e.receiver.transaction) _ _
        (λ t. kept o q _ _ (finish_committed-IsHonest o q e t c))
        (λ t.
          let (gone, held, fits) = abort_transaction-gone o q e t c in
          cancel_aborted-IsKept authority (abort_transaction o e) gone (held, fits))

  pub cancel-IsKept :
      (authority : Authority) (now : ℕ) (e : Endpoint o)
      → IsHonest o q e
      → IsKept o q (cancel o authority now e)
  unfolding cancel
  cancel-IsKept authority now e h =
      if-IsKept o q (is_terminal e.receiver.state) _ _ (λ t. kept o q e _ h)
        (λ t.
          if-IsKept o q (is_cancelling e.receiver.state) _ _ (λ u. kept o q e _ h)
            (λ u.
              timed-IsKept o q authority (observe_time now e.receiver.last_now_ms)
                (cancel_observed o authority) e h
                (λ seen.
                  cancel_observed-IsKept authority
                    (on_receiver o (λ r. record r { last_now_ms = seen }) e) h)))

  pub shut_down-IsKept : (e : Endpoint o) → IsHonest o q e → IsKept o q (shut_down o e)
  unfolding shut_down
  shut_down-IsKept e (f, c) =
      if-IsKept o q (is_terminal e.receiver.state) _ _ (λ t. kept o q _ _ (sent_off _ _ _ _ _ f, c))
        (λ t. kept o q _ _ (
          finish-IsHonest o q (on_receiver o (λ r. record (clear_cancel r) { shutdown = true }) e)
            c))

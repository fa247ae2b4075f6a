-- ===== src/Transfer/Receiver/Outcomes.antt =====
-- What a receiver of native/src/transfer/receiver.cpp holds and has stored, by its state.
use file_sender_byte_spark.Prelude.{
  ◌≡◌, ◌∙◌, inl, inr, refl, sym, subst, Bool, true, false, Option, none, some, List, arith,
  Bool-cases,
}
use file_sender_byte_spark.Storage.Types.{TransactionState}
use file_sender_byte_spark.Storage.Budget.{TemporaryBudget}
use file_sender_byte_spark.Storage.Cleanup.{ReceiveTransaction}
use file_sender_byte_spark.Storage.Transaction.Lifecycle.{IsClosed}
use file_sender_byte_spark.Storage.Transaction.Integrity.{BackendContract, StateTrace}
use file_sender_byte_spark.Storage.Transaction.Commit.{IsCommittedFile}
use file_sender_byte_spark.Transfer.Credit.{ConnectionCreditBudget}
use file_sender_byte_spark.Transfer.Types.{
  OneFileManifest, TransferState, TransferContext, is_terminal,
}
use file_sender_byte_spark.Transfer.Sequence.{ConnectionMessageSequence}
use file_sender_byte_spark.Transfer.Receiver.{Outside, Endpoint, is_durable}
use file_sender_byte_spark.Transfer.Receiver.Share.{Share, repays}
use file_sender_byte_spark.Transfer.Receiver.Stage.{
  Stage, stage_of, StateFacts, FactsOf, is_durable-stage, durable-stage,
}
use file_sender_byte_spark.Transfer.Receiver.Honest.{Carried, IsMadeFor, HoldsOf, share, IsHonest}
use file_sender_byte_spark.Transfer.Receiver.Run.{
  Event, receiver_run, new_endpoint, Heeded, heeded, receiver_run-IsHonest, new_endpoint-IsHonest,
}
use file_sender_byte_spark.Transfer.Receiver.Facts.{
  IsAcceptedRequest, settled_with, settled, traced,
}

-- The credit budget has the reserved inbound bytes and the active streams that it had `before`, and
-- the transaction has no bytes of the temporary budget reserved and no temporary file open.
abbrev pub HoldsNothing : (o : Outside) → ConnectionCreditBudget → Endpoint o → Type 0
HoldsNothing o before e =
    (e.credit.reserved_inbound ≡ before.reserved_inbound)
    × (e.credit.active_stream_ids ≡ before.active_stream_ids)
    × ((tx : ReceiveTransaction o.integrity.Digest)
        → e.receiver.transaction ≡ some tx
        → IsClosed tx)

-- The states that say that the file is received.
abbrev pub says_received : TransferState → Bool
says_received TransferState.completed = true
says_received TransferState.committed = true
says_received _ = false

received_stage :
    (state : TransferState) (sent credit stream : Bool) (stage : Stage)
    → says_received state ≡ true
    → StateFacts state sent credit stream stage
    → stage ≡ Stage.durable
received_stage state sent credit stream stage h f = ground arith

durable_end :
    (state : TransferState) (sent credit stream : Bool) (stage : Stage)
    → is_terminal state ≡ true
    → stage ≡ Stage.durable
    → StateFacts state sent credit stream stage
    → says_received state ≡ true
durable_end state sent credit stream stage h s f = ground arith

durable_state :
    {D : Type 0} (tx : ReceiveTransaction D)
    → stage_of (some tx) ≡ Stage.durable
    → tx.state ≡ TransactionState.committed
durable_state tx h = ground arith

module _ (o : Outside) where
  says_of :
      (e : Endpoint o) (b : Bool)
      → is_durable o e.receiver.transaction ≡ b
      → is_terminal e.receiver.state ≡ true
      → FactsOf o e
      → says_received e.receiver.state ≡ b
  says_of e true d ended f = durable_end _ _ _ _ _ ended (is_durable-stage o _ d) f
  says_of e false d ended f = elim (Bool-cases (says_received e.receiver.state)) [
    | inl says ↦ absurd (differ (sym d ∙ durable-stage o _ (received_stage _ _ _ _ _ says f)))
    | inr unsaid ↦ unsaid
  ]
    where
      differ : false ≡ true → ⊥
      differ h = ground arith

  pub ended-says_received :
      (e : Endpoint o)
      → IsHonest o (settled o) e
      → is_terminal e.receiver.state ≡ true
      → says_received e.receiver.state ≡ is_durable o e.receiver.transaction
  ended-says_received e h ended = says_of e (is_durable o e.receiver.transaction) refl ended h.0

  -- The file of a transaction that was made for an accepted request: it stands at a safe path and
  -- has as many bytes as declared; and the verifier that the provider made for the transfer id and
  -- the file commitment of the manifest agreed to each piece of them and to the whole.
  abbrev pub IsReceivedFile :
      BackendContract o.platform
      → OneFileManifest
      → ReceiveTransaction o.integrity.Digest
      → o.platform.World
      → Type 0
  IsReceivedFile contract m tx w =
      IsAcceptedRequest tx.request
      × ((start : o.integrity.Digest) × IsMadeFor o m (some start)
          × IsCommittedFile o.platform o.integrity contract start tx.request w)

  received_file :
      (contract : BackendContract o.platform) (m : OneFileManifest)
      (x : Option (ReceiveTransaction o.integrity.Digest)) (b : TemporaryBudget)
      (w : o.platform.World)
      → stage_of x ≡ Stage.durable
      → HoldsOf o (traced o contract) m x b w
      → (tx : ReceiveTransaction o.integrity.Digest) × (x ≡ some tx)
        × IsReceivedFile contract m tx w
  received_file contract m none b w d h = absurd (not_durable d)
    where
      not_durable : Stage.absent ≡ Stage.durable → ⊥
      not_durable e = ground arith
  received_file contract m (some tx) b w d ((v, a), (start, made, t)) =
      let (seen, digest, f, sealed, file, size) : StateTrace o.platform o.integrity contract start
          TransactionState.committed (record { tx = tx; budget = b; world = w }) =
        subst
          (λ s.
            StateTrace o.platform o.integrity contract start s
              (record { tx = tx; budget = b; world = w }))
          (durable_state tx d) t in
      (tx, refl, (a, (start, made, (seen, digest, file, size, f, sealed))))

module _ (o : Outside) (context : TransferContext) (sequence : ConnectionMessageSequence)
    (credit : ConnectionCreditBudget) (budget : TemporaryBudget) (world : o.platform.World)
    (provided : o.provider.State) (xs : List Event) where
  abbrev pub after : Endpoint o
  after = receiver_run o xs (new_endpoint o context sequence credit budget world provided)

  abbrev start : Endpoint o
  start = new_endpoint o context sequence credit budget world provided

  after-IsHonest :
      (q : Carried o) → Heeded o q xs start → q.lends.Lent (share o q start) → IsHonest o q after
  after-IsHonest q h l =
      receiver_run-IsHonest o q xs start h
        (new_endpoint-IsHonest o q context sequence credit budget world provided l)

  pub after-IsSettled : IsHonest o (settled o) after
  after-IsSettled = after-IsHonest (settled o) (heeded o (settled o) (λ c c'. tt) xs start) tt

  -- The history leaves the reserved inbound bytes and the active streams of the credit budget to
  -- this receiver: no other event changes them. Others may take and return outbound credit, and do
  -- what they like to the message ids and the temporary budget.
  abbrev pub LeavesCredit : Type 0
  LeavesCredit = Heeded o (settled_with o (repays credit)) xs start

  -- With any history, in which others may change the shared credit too: when the transfer has ended, its state is `completed` or
  -- `committed` if
  -- its transaction has committed the file, and otherwise another one.
  pub run-says_received :
      is_terminal after.receiver.state ≡ true
      → says_received after.receiver.state ≡ is_durable o after.receiver.transaction
  run-says_received ended = ended-says_received o after after-IsSettled ended

  -- With any history, on a file system that keeps the contract of the backend: a receiver
  -- that says `completed` or `committed` has a transaction whose request was accepted, with a
  -- size of at most 2^44 bytes and a path of safe components; and the file at this path holds
  -- as many bytes as declared, and these were shown in order to the verifier that the provider
  -- made for the transfer id and the file commitment of the receiver's manifest, which agreed to
  -- them, piece by piece and over the whole.
  pub run-IsReceivedFile :
      (contract : BackendContract o.platform)
      → says_received after.receiver.state ≡ true
      → (tx : ReceiveTransaction o.integrity.Digest) × (after.receiver.transaction ≡ some tx)
        × IsReceivedFile o contract after.receiver.manifest tx after.world
  run-IsReceivedFile contract says =
      let (f, (held, fits)) =
        after-IsHonest (traced o contract) (heeded o (traced o contract) (λ c c'. tt) xs start)
          tt in
      received_file o contract after.receiver.manifest after.receiver.transaction after.budget
        after.world (received_stage _ _ _ _ _ says f) held

-- ===== src/Transfer/Receiver/Run.antt =====
-- Histories of a receiver of native/src/transfer/receiver.cpp: its methods in any order, with
-- any frames, times and
-- answers of the session authority, and with anything that other transfers do to the shared
-- message ids, credit and temporary budget in between.
use file_sender_byte_spark.Prelude.{
  ℕ, ◌≡◌, refl, Bool, true, false, any, arith, Option, none, some, List, [], ◌∷◌,
}
use file_sender_byte_spark.Storage.Budget.{TemporaryBudget}
use file_sender_byte_spark.Storage.Cleanup.{ReceiveTransaction}
use file_sender_byte_spark.Transfer.Credit.{ConnectionCreditBudget}
use file_sender_byte_spark.Transfer.Types.{WireErrorCode, OneFileManifest, TransferContext}
use file_sender_byte_spark.Transfer.Sequence.{ConnectionMessageSequence}
use file_sender_byte_spark.Transfer.Receiver.{Outside, Authority, Endpoint, new_receiver, Outcome}
use file_sender_byte_spark.Transfer.Receiver.Frames.{receive_frame}
use file_sender_byte_spark.Transfer.Receiver.Calls.{next_outbound, confirm_chunk_ack_written}
use file_sender_byte_spark.Transfer.Receiver.Decisions.{accept, reject, advance, cancel, shut_down}
use file_sender_byte_spark.Transfer.Receiver.Honest.{Carried, HoldsOf, share, IsHonest, IsKept}
use file_sender_byte_spark.Transfer.Receiver.Receives.{receive_frame-IsKept}
use file_sender_byte_spark.Transfer.Receiver.Sends.{
  next_outbound-IsKept, confirm_chunk_ack_written-IsKept,
}
use file_sender_byte_spark.Transfer.Receiver.Decides.{
  accept-IsKept, reject-IsKept, advance-IsKept, cancel-IsKept, shut_down-IsKept,
}

pub data Event : Type 0 where
  receives : Authority → List ℕ → ℕ → Event
  sends : Authority → ℕ → Event
  confirms : Authority → ℕ → ℕ → Event
  accepts : Authority → ℕ → ℕ → ℕ → Event
  rejects : Authority → WireErrorCode → Bool → ℕ → Event
  advances : Authority → ℕ → Event
  cancels : Authority → ℕ → Event
  shuts_down : Event
  others : ConnectionMessageSequence → ConnectionCreditBudget → TemporaryBudget → Event

abbrev pub is_others : Event → Bool
is_others (Event.others sequence credit budget) = true
is_others _ = false

module _ (o : Outside) where
  abbrev pub receiver_step : Event → Endpoint o → Endpoint o
  receiver_step (Event.receives authority encoded now) e =
      (receive_frame o authority encoded now e).0
  receiver_step (Event.sends authority now) e = (next_outbound o authority now e).0
  receiver_step (Event.confirms authority next_offset now) e =
      (confirm_chunk_ack_written o authority next_offset now e).0
  receiver_step (Event.accepts authority chunk_size window now) e =
      (accept o authority chunk_size window now e).0
  receiver_step (Event.rejects authority code retryable now) e =
      (reject o authority code retryable now e).0
  receiver_step (Event.advances authority now) e = (advance o authority now e).0
  receiver_step (Event.cancels authority now) e = (cancel o authority now e).0
  receiver_step Event.shuts_down e = (shut_down o e).0
  receiver_step (Event.others sequence credit budget) e = record e {
    sequence = sequence;
    credit = credit;
    budget = budget;
  }

  abbrev pub receiver_run : List Event → Endpoint o → Endpoint o
  receiver_run [] e = e
  receiver_run (x ∷ xs) e = receiver_run xs (receiver_step x e)

  -- A receiver as `Create` leaves it, with what it shares.
  abbrev pub new_endpoint :
      TransferContext
      → ConnectionMessageSequence
      → ConnectionCreditBudget
      → TemporaryBudget
      → o.platform.World
      → o.provider.State
      → Endpoint o
  new_endpoint context sequence credit budget world provided = record {
    receiver = new_receiver context;
    sequence = sequence;
    credit = credit;
    budget = budget;
    world = world;
    provided = provided;
  }

module _ (o : Outside) (q : Carried o) where
  pub outcome-IsHonest : (x : Outcome o) → IsKept o q x → IsHonest o q x.0
  unfolding IsKept
  outcome-IsHonest x h = h

  other_budget :
      (m : OneFileManifest) (tx : Option (ReceiveTransaction o.integrity.Digest))
      (b b' : TemporaryBudget) (w : o.platform.World)
      → HoldsOf o q m tx b w
      → HoldsOf o q m tx b' w
  other_budget m none b b' w h = tt
  other_budget m (some tx) b b' w h = q.shares m (record { tx = tx; budget = b; world = w }) b' h

  -- What others may do to the credit budget, step by step.
  abbrev pub HeedsOf : Event → Endpoint o → Type 0
  HeedsOf (Event.others sequence credit budget) e = q.lends.Heeds e.credit credit
  HeedsOf _ e = Unit {0}

  abbrev pub Heeded : List Event → Endpoint o → Type 0
  Heeded [] e = Unit {0}
  Heeded (x ∷ xs) e = HeedsOf x e × Heeded xs (receiver_step o x e)

  receiver_step-IsHonest :
      (x : Event) (e : Endpoint o)
      → HeedsOf x e
      → IsHonest o q e
      → IsHonest o q (receiver_step o x e)
  receiver_step-IsHonest (Event.receives a encoded now) e a' h =
      outcome-IsHonest _ (receive_frame-IsKept o q a encoded now e h)
  receiver_step-IsHonest (Event.sends a now) e a' h =
      outcome-IsHonest _ (next_outbound-IsKept o q a now e h)
  receiver_step-IsHonest (Event.confirms a next_offset now) e a' h =
      outcome-IsHonest _ (confirm_chunk_ack_written-IsKept o q a next_offset now e h)
  receiver_step-IsHonest (Event.accepts a chunk_size window now) e a' h =
      outcome-IsHonest _ (accept-IsKept o q a chunk_size window now e h)
  receiver_step-IsHonest (Event.rejects a code retryable now) e a' h =
      outcome-IsHonest _ (reject-IsKept o q a code retryable now e h)
  receiver_step-IsHonest (Event.advances a now) e a' h =
      outcome-IsHonest _ (advance-IsKept o q a now e h)
  receiver_step-IsHonest (Event.cancels a now) e a' h =
      outcome-IsHonest _ (cancel-IsKept o q a now e h)
  receiver_step-IsHonest Event.shuts_down e a' h = outcome-IsHonest _ (shut_down-IsKept o q e h)
  receiver_step-IsHonest (Event.others sequence credit budget) e a' (f, (held, (fits, lent))) = (
    f,
    (
      other_budget _ _ e.budget budget e.world held,
      (fits, q.lends.heeds (share o q e) credit a' lent),
    ),
  )

  pub receiver_run-IsHonest :
      (xs : List Event) (e : Endpoint o)
      → Heeded xs e
      → IsHonest o q e
      → IsHonest o q (receiver_run o xs e)
  receiver_run-IsHonest [] e a h = h
  receiver_run-IsHonest (x ∷ xs) e (a, later) h =
      receiver_run-IsHonest xs (receiver_step o x e) later (receiver_step-IsHonest x e a h)

  -- Where others may do what they like, they may in any history.
  pub heeded :
      ((c c' : ConnectionCreditBudget) → q.lends.Heeds c c')
      → (xs : List Event) (e : Endpoint o) → Heeded xs e
  heeded all [] e = tt
  heeded all (x ∷ xs) e = (heeds_of x, heeded all xs (receiver_step o x e))
    where
      heeds_of : (x' : Event) → HeedsOf x' e
      heeds_of (Event.others sequence credit budget) = all e.credit credit
      heeds_of (Event.receives a encoded now) = tt
      heeds_of (Event.sends a now) = tt
      heeds_of (Event.confirms a next_offset now) = tt
      heeds_of (Event.accepts a chunk_size window now) = tt
      heeds_of (Event.rejects a code retryable now) = tt
      heeds_of (Event.advances a now) = tt
      heeds_of (Event.cancels a now) = tt
      heeds_of Event.shuts_down = tt

  -- A history in which no other transfer does anything.
  pub Heeded-alone : (xs : List Event) (e : Endpoint o) → any is_others xs ≡ false → Heeded xs e
  Heeded-alone [] e h = tt
  Heeded-alone (Event.others sequence credit budget ∷ xs) e h = absurd (ground arith)
  Heeded-alone (Event.receives a encoded now ∷ xs) e h = (tt, Heeded-alone xs _ h)
  Heeded-alone (Event.sends a now ∷ xs) e h = (tt, Heeded-alone xs _ h)
  Heeded-alone (Event.confirms a next_offset now ∷ xs) e h = (tt, Heeded-alone xs _ h)
  Heeded-alone (Event.accepts a chunk_size window now ∷ xs) e h = (tt, Heeded-alone xs _ h)
  Heeded-alone (Event.rejects a code retryable now ∷ xs) e h = (tt, Heeded-alone xs _ h)
  Heeded-alone (Event.advances a now ∷ xs) e h = (tt, Heeded-alone xs _ h)
  Heeded-alone (Event.cancels a now ∷ xs) e h = (tt, Heeded-alone xs _ h)
  Heeded-alone (Event.shuts_down ∷ xs) e h = (tt, Heeded-alone xs _ h)

  pub new_endpoint-IsHonest :
      (context : TransferContext) (s : ConnectionMessageSequence) (c : ConnectionCreditBudget)
      (b : TemporaryBudget) (w : o.platform.World) (p : o.provider.State)
      → q.lends.Lent (share o q (new_endpoint o context s c b w p))
      → IsHonest o q (new_endpoint o context s c b w p)
  unfolding new_receiver
  new_endpoint-IsHonest context s c b w p l = ((refl, refl, refl), (tt, (tt, l)))

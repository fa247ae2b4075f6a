-- ===== src/Transfer/Receiver.antt =====
-- `OneFileReceiver` of native/src/transfer/receiver.cpp: its state, the objects that it shares,
-- and the
-- parts of `Implementation` that need no frame. Running out of memory is left out. Each method
-- holds
-- the receiver's mutex, so a call is one step on all that it shares.
pub mod Endings
pub mod Closing
pub mod Offer
pub mod Content
pub mod Frames
pub mod Calls
pub mod Decisions
pub mod Share
pub mod Stage
pub mod Honest
pub mod Ends
pub mod Closes
pub mod Answers
pub mod Offers
pub mod Contents
pub mod Receives
pub mod Sends
pub mod Decides
pub mod Run
pub mod Facts
pub mod Outcomes
pub mod Ended
pub mod Examples
use file_sender_byte_spark.Prelude.{
  ℕ, Bool, true, false, not, Option, none, some, List, [], ◌∷◌, if◌then◌else◌,
}
use file_sender_byte_spark.Storage.Types.{
  PlatformBackend, StreamingIntegrityVerifier, ValidatedReceiveRequest, TransactionState,
  TransactionError, TransactionResult,
}
use file_sender_byte_spark.Storage.Codepoints.{Utf8proc}
use file_sender_byte_spark.Storage.Budget.{TemporaryBudget}
use file_sender_byte_spark.Storage.Cleanup.{ReceiveTransaction, System, Sys, failed}
use file_sender_byte_spark.Storage.Transaction.{abort}
use file_sender_byte_spark.Transfer.Credit.{
  CreditDirection, ConnectionCreditBudget, release_credit, close_stream,
}
use file_sender_byte_spark.Transfer.Types.{
  TransferState, TransferError, WireErrorCode, TransferContext, OneFileManifest, IncomingOffer,
  TransferUpdate, is_terminal,
}
use file_sender_byte_spark.Transfer.Sequence.{ConnectionMessageSequence}
use file_sender_byte_spark.Transfer.Encode.{Encoded}

-- The abstract class `TransferIntegrityProvider`, with what it may keep between calls.
pub record TransferIntegrityProvider (Digest : Type 0) : Type 1 where
  pub State : Type 0
  pub verify_manifest : State → OneFileManifest → List ℕ → List ℕ → List ℕ → State × Bool
  pub verify_chunk_commitment : State → List ℕ → ℕ → ℕ → List ℕ → List ℕ → State × Bool
  pub create_file_verifier : State → List ℕ → ℕ → List ℕ → State × Option Digest

-- What the receiver calls and does not implement.
pub record Outside : Type 1 where
  pub platform : PlatformBackend
  pub integrity : StreamingIntegrityVerifier
  pub provider : TransferIntegrityProvider integrity.Digest
  pub utf8 : Utf8proc

-- What the session authority answers during a call: when the call asks, and when the failure of
-- the call asks before it reports the error.
pub record Authority : Type 0 where
  pub admits : Bool
  pub admits_report : Bool

-- The members of `Implementation` that are its own.
pub record Receiver (Digest : Type 0) : Type 0 where
  pub context : TransferContext
  pub state : TransferState
  pub cancel_origin_state : TransferState
  pub manifest : OneFileManifest
  pub request : Option ValidatedReceiveRequest
  pub transaction : Option (ReceiveTransaction Digest)
  pub raw_offer_frame : List ℕ
  pub raw_entry_frame : List ℕ
  pub raw_end_frame : List ℕ
  pub chunk_size : ℕ
  pub initial_window : ℕ
  pub available_credit : ℕ
  pub last_chunk_size : ℕ
  pub next_offset : ℕ
  pub last_ack_encoded_offset : ℕ
  pub last_ack_written_offset : ℕ
  pub last_now_ms : ℕ
  pub manifest_deadline_ms : ℕ
  pub manifest_progress_deadline_ms : ℕ
  pub decision_deadline_ms : ℕ
  pub data_deadline_ms : ℕ
  pub cancel_deadline_ms : ℕ
  pub manifest_entry_received : Bool
  pub file_begin_received : Bool
  pub file_commit_sent : Bool
  pub completion_ack_pending : Bool
  pub pending_reject : Bool
  pub stream_reserved : Bool
  pub credit_reserved : Bool
  pub cancel_frame_pending : Bool
  pub cancel_sent : Bool
  pub cancel_ack_pending : Bool
  pub cancel_ack_failure_is_terminal : Bool
  pub shutdown : Bool
  pub pending_cancel_ack_code : WireErrorCode
  pub pending_reject_error : TransferError
  pub pending_reject_code : WireErrorCode
  pub pending_reject_retryable : Bool
  pub terminal_error : TransferError
  pub terminal_wire_error : WireErrorCode
  pub terminal_connection_fatal : Bool
  pub terminal_retryable : Bool

-- The receiver with the objects that it points to.
pub record Endpoint (o : Outside) : Type 0 where
  pub receiver : Receiver o.integrity.Digest
  pub sequence : ConnectionMessageSequence
  pub credit : ConnectionCreditBudget
  pub budget : TemporaryBudget
  pub world : o.platform.World
  pub provided : o.provider.State

abbrev pub no_manifest : OneFileManifest
no_manifest = record {
  transfer_id = 0 ∷ 0 ∷ 0 ∷ 0 ∷ 0 ∷ 0 ∷ 0 ∷ 0 ∷ 0 ∷ 0 ∷ 0 ∷ 0 ∷ 0 ∷ 0 ∷ 0 ∷ 0 ∷ [];
  relative_path = [];
  file_size = 0;
  file_commitment = [];
  manifest_commitment = [];
  display_name = [];
}

-- `Implementation`, as `Create` leaves it.
unfoldable pub new_receiver : {Digest : Type 0} → TransferContext → Receiver Digest
new_receiver context = record {
  context = context;
  state = TransferState.created;
  cancel_origin_state = TransferState.created;
  manifest = no_manifest;
  request = none;
  transaction = none;
  raw_offer_frame = [];
  raw_entry_frame = [];
  raw_end_frame = [];
  chunk_size = 0;
  initial_window = 0;
  available_credit = 0;
  last_chunk_size = 0;
  next_offset = 0;
  last_ack_encoded_offset = 0;
  last_ack_written_offset = 0;
  last_now_ms = 0;
  manifest_deadline_ms = 0;
  manifest_progress_deadline_ms = 0;
  decision_deadline_ms = 0;
  data_deadline_ms = 0;
  cancel_deadline_ms = 0;
  manifest_entry_received = false;
  file_begin_received = false;
  file_commit_sent = false;
  completion_ack_pending = false;
  pending_reject = false;
  stream_reserved = false;
  credit_reserved = false;
  cancel_frame_pending = false;
  cancel_sent = false;
  cancel_ack_pending = false;
  cancel_ack_failure_is_terminal = false;
  shutdown = false;
  pending_cancel_ack_code = WireErrorCode.none;
  pending_reject_error = TransferError.none;
  pending_reject_code = WireErrorCode.none;
  pending_reject_retryable = false;
  terminal_error = TransferError.none;
  terminal_wire_error = WireErrorCode.none;
  terminal_connection_fatal = false;
  terminal_retryable = false;
}

module _ {Digest : Type 0} where
  abbrev pub update_of : Receiver Digest → TransferUpdate
  update_of r = record {
    state = r.state;
    error = r.terminal_error;
    wire_error = r.terminal_wire_error;
    outbound_frame = [];
    offer = none;
    terminal = is_terminal r.state;
    connection_fatal = r.terminal_connection_fatal;
    retryable = r.terminal_retryable;
  }

  -- `state = state; RememberTerminal(…)`
  abbrev pub end_in :
      TransferState
      → TransferError
      → WireErrorCode
      → Bool
      → Bool
      → Receiver Digest
      → Receiver Digest
  end_in state error wire_error connection_fatal retryable r = record r {
    state = state;
    terminal_error = error;
    terminal_wire_error = wire_error;
    terminal_connection_fatal = connection_fatal;
    terminal_retryable = retryable;
  }

  abbrev pub clear_cancel : Receiver Digest → Receiver Digest
  clear_cancel r = record r {
    cancel_frame_pending = false;
    cancel_ack_pending = false;
    cancel_ack_failure_is_terminal = false;
    cancel_sent = false;
    cancel_deadline_ms = 0;
  }

module _ (o : Outside) where
  abbrev pub E : Type 0
  E = Endpoint o

  -- What a method leaves and returns.
  abbrev pub Outcome : Type 0
  Outcome = Endpoint o × TransferUpdate

  abbrev pub on_receiver :
      (Receiver o.integrity.Digest → Receiver o.integrity.Digest) → Endpoint o → Endpoint o
  on_receiver f e = record e { receiver = f e.receiver }

  -- The endpoint and its current update.
  abbrev pub quiet : Endpoint o → Outcome
  quiet e = (e, update_of e.receiver)

  unfoldable pub release_reserved_credit : Endpoint o → Endpoint o
  release_reserved_credit e =
      if e.receiver.credit_reserved
      then record e {
        credit = release_credit CreditDirection.inbound e.receiver.initial_window e.credit;
        receiver = record (e.receiver) { credit_reserved = false };
      }
      else e

  unfoldable pub release_stream : Endpoint o → Endpoint o
  release_stream e =
      if e.receiver.stream_reserved
      then record e {
        credit = close_stream e.receiver.context.stream_id e.credit;
        receiver = record (e.receiver) { stream_reserved = false };
      }
      else e

  abbrev pub release_both : Endpoint o → Endpoint o
  release_both e = release_stream (release_reserved_credit e)

  abbrev pub with_system :
      Endpoint o → Sys o.platform o.integrity × TransactionResult → Endpoint o × TransactionResult
  with_system e (s, result) = (
    record e {
      receiver = record (e.receiver) { transaction = some s.tx };
      budget = s.budget;
      world = s.world;
    },
    result,
  )

  -- A call on the transaction. The source makes it where there is one.
  unfoldable pub on_transaction :
      (Sys o.platform o.integrity → Sys o.platform o.integrity × TransactionResult)
      → Endpoint o
      → Endpoint o × TransactionResult
  on_transaction call e = elim e.receiver.transaction [
    | none ↦ (e, failed TransactionError.invalid_state)
    | some tx ↦ with_system e (call (record { tx = tx; budget = e.budget; world = e.world }))
  ]

  unfoldable pub abort_transaction : Endpoint o → Endpoint o
  abort_transaction e = (on_transaction (abort o.platform o.integrity) e).0

  abbrev pub is_durable : Option (ReceiveTransaction o.integrity.Digest) → Bool
  is_durable none = false
  is_durable (some tx) = elim tx.state [ TransactionState.committed ↦ true | _ ↦ false ]

  -- Goes on with the frame that was encoded, or without one. The sequence may have moved.
  abbrev pub with_frame :
      Encoded → (List ℕ → Endpoint o → Outcome) → (Endpoint o → Outcome) → Endpoint o → Outcome
  with_frame (sequence, none) found missing e = missing (record e { sequence = sequence })
  with_frame (sequence, some frame) found missing e = found frame (record e { sequence = sequence })

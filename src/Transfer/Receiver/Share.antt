-- ===== src/Transfer/Receiver/Share.antt =====
-- A receiver's share of the credit budget that the transfers of a connection have in common,
-- `ConnectionCreditBudget` of native/src/transfer/frame_codec.cpp, and what its own calls do to it.
use file_sender_byte_spark.Prelude.{
  ℕ, ◌+◌, ◌≡◌, ◌≢◌, ap, ◌∙◌, Bool, true, false, List, [], ◌∷◌, ◌++◌, any, ◌==◌, arith,
}
use file_sender_byte_spark.Transfer.Credit.{
  CreditDirection, Role, StreamOpenResult, ConnectionCreditBudget, try_reserve_credit,
  release_credit, with_role, consume_id, open_expected, open_stream, remove_stream, close_stream,
}

-- The budget, and what of it this receiver has: `window` bytes and its stream, if it has them.
pub record Share : Type 0 where
  pub credit : ConnectionCreditBudget
  pub window : ℕ
  pub stream_id : ℕ
  pub credit_reserved : Bool
  pub stream_reserved : Bool

-- A fact about the share that the calls of a receiver keep, and what others may do to the budget
-- in between.
pub record Lends : Type 1 where
  pub Lent : Share → Type 0
  pub Heeds : ConnectionCreditBudget → ConnectionCreditBudget → Type 0
  pub heeds :
      (s : Share) (c : ConnectionCreditBudget)
      → Heeds s.credit c
      → Lent s
      → Lent (record s { credit = c })
  pub credit_returned :
      (s : Share)
      → s.credit_reserved ≡ true
      → Lent s
      → Lent (record s {
        credit = release_credit CreditDirection.inbound s.window s.credit;
        credit_reserved = false;
      })
  pub stream_returned :
      (s : Share)
      → s.stream_reserved ≡ true
      → Lent s
      → Lent (record s { credit = close_stream s.stream_id s.credit; stream_reserved = false })
  pub credit_taken :
      (s : Share) (bytes : ℕ) (c : ConnectionCreditBudget)
      → s.credit_reserved ≡ false
      → try_reserve_credit CreditDirection.inbound bytes s.credit ≡ (c, true)
      → Lent s
      → Lent (record s { credit = c; window = bytes; credit_reserved = true })
  pub credit_refused :
      (s : Share) (bytes : ℕ) (c : ConnectionCreditBudget)
      → try_reserve_credit CreditDirection.inbound bytes s.credit ≡ (c, false)
      → Lent s
      → Lent (record s { credit = c })
  pub stream_opened :
      (s : Share) (creator : Bool) (role : Role) (c : ConnectionCreditBudget)
      → s.stream_reserved ≡ false
      → open_stream s.stream_id creator role s.credit ≡ (c, StreamOpenResult.opened)
      → Lent s
      → Lent (record s { credit = c; stream_reserved = true })
  pub stream_refused :
      (s : Share) (creator : Bool) (role : Role) (c : ConnectionCreditBudget)
      (answer : StreamOpenResult)
      → answer ≢ StreamOpenResult.opened
      → open_stream s.stream_id creator role s.credit ≡ (c, answer)
      → Lent s
      → Lent (record s { credit = c })

-- Nothing is known, and others may do what they like.
abbrev pub free : Lends
free = record {
  Lent = λ s. Unit {0};
  Heeds = λ c c'. Unit {0};
  heeds = λ s c h l. tt;
  credit_returned = λ s r l. tt;
  stream_returned = λ s r l. tt;
  credit_taken = λ s n c r e l. tt;
  credit_refused = λ s n c e l. tt;
  stream_opened = λ s b r c f e l. tt;
  stream_refused = λ s b r c a n e l. tt;
}

abbrev pub owed : Bool → ℕ → ℕ
owed true window = window
owed false window = 0

abbrev pub StreamsAre : Bool → ℕ → List ℕ → List ℕ → Type 0
StreamsAre true id base ids = (ids ≡ base ++ (id ∷ [])) × (any (λ x. x == id) base ≡ false)
StreamsAre false id base ids = ids ≡ base

-- The budget is `base` with just what this receiver has, in the direction of a receiver.
pub record Owes (base : ConnectionCreditBudget) (s : Share) : Type 0 where
  pub bytes : s.credit.reserved_inbound ≡ base.reserved_inbound + owed s.credit_reserved s.window
  pub streams :
      StreamsAre s.stream_reserved s.stream_id base.active_stream_ids s.credit.active_stream_ids

remove_stream-append :
    (id : ℕ) (ids : List ℕ)
    → any (λ x. x == id) ids ≡ false
    → remove_stream id (ids ++ (id ∷ [])) ≡ ids
unfolding remove_stream
remove_stream-append id [] h = ground arith
remove_stream-append id (x ∷ ids) h = ground (arith, remove_stream-append id ids)

module _ (base : ConnectionCreditBudget) where
  pub returned_bytes :
      (s : Share)
      → s.credit_reserved ≡ true
      → Owes base s
      → Owes base (record s {
        credit = release_credit CreditDirection.inbound s.window s.credit;
        credit_reserved = false;
      })
  unfolding release_credit
  returned_bytes s r l = ground (arith, l.bytes, l.streams)

  closed_ids :
      (id : ℕ) (ids : List ℕ)
      → StreamsAre true id base.active_stream_ids ids
      → remove_stream id ids ≡ base.active_stream_ids
  closed_ids id ids (e, n) =
      ap (remove_stream id) e ∙ remove_stream-append id base.active_stream_ids n

  pub returned_stream :
      (s : Share)
      → s.stream_reserved ≡ true
      → Owes base s
      → Owes base (record s { credit = close_stream s.stream_id s.credit; stream_reserved = false })
  unfolding close_stream
  returned_stream s r l = record {
    bytes = l.bytes;
    streams = closed_ids s.stream_id _ (rw r at l.streams);
  }

  pub taken :
      (s : Share) (bytes : ℕ) (c : ConnectionCreditBudget)
      → s.credit_reserved ≡ false
      → try_reserve_credit CreditDirection.inbound bytes s.credit ≡ (c, true)
      → Owes base s
      → Owes base (record s { credit = c; window = bytes; credit_reserved = true })
  unfolding try_reserve_credit
  taken s bytes c r e l = ground (arith, l.bytes, l.streams)

  pub refused :
      (s : Share) (bytes : ℕ) (c : ConnectionCreditBudget)
      → try_reserve_credit CreditDirection.inbound bytes s.credit ≡ (c, false)
      → Owes base s
      → Owes base (record s { credit = c })
  unfolding try_reserve_credit
  refused s bytes c e l = ground (arith, l.bytes, l.streams)

  pub opened :
      (s : Share) (creator : Bool) (role : Role) (c : ConnectionCreditBudget)
      → s.stream_reserved ≡ false
      → open_stream s.stream_id creator role s.credit ≡ (c, StreamOpenResult.opened)
      → Owes base s
      → Owes base (record s { credit = c; stream_reserved = true })
  unfolding open_stream open_expected with_role consume_id
  opened s creator role c r e l = ground (arith, l.bytes, l.streams)

  pub unopened :
      (s : Share) (creator : Bool) (role : Role) (c : ConnectionCreditBudget)
      (answer : StreamOpenResult)
      → answer ≢ StreamOpenResult.opened
      → open_stream s.stream_id creator role s.credit ≡ (c, answer)
      → Owes base s
      → Owes base (record s { credit = c })
  unfolding open_stream open_expected with_role consume_id
  unopened s creator role c answer n e l = ground (arith, l.bytes, l.streams)

  -- Others may change all but the reserved bytes of the inbound direction and the active streams.
  abbrev pub repays : Lends
  repays = record {
    Lent = Owes base;
    Heeds = λ c c'.
        (c'.reserved_inbound ≡ c.reserved_inbound) × (c'.active_stream_ids ≡ c.active_stream_ids);
    heeds = λ s c (b, i) l. record { bytes = b ∙ l.bytes; streams = rw i l.streams };
    credit_returned = returned_bytes;
    stream_returned = returned_stream;
    credit_taken = taken;
    credit_refused = refused;
    stream_opened = opened;
    stream_refused = unopened;
  }

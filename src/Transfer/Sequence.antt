-- ===== src/Transfer/Sequence.antt =====
-- `ConnectionMessageSequence` of native/src/transfer/frame_codec.cpp. Each method holds the
-- mutex, so
-- it is one step.
use file_sender_byte_spark.Prelude.{
  ℕ, ◌+◌, ◌<◌, ◌≡◌, ◌⊎◌, Bool, true, false, Option, some, none, List, [], ◌∷◌, ◌==◌, ◌!=◌,
  if◌then◌else◌, arith, u64_max,
}

pub record ConnectionMessageSequence : Type 0 where
  pub next_outbound : ℕ
  pub next_inbound : ℕ
  pub outbound_exhausted : Bool
  pub inbound_exhausted : Bool

unfoldable pub new_sequence : ℕ → ℕ → ConnectionMessageSequence
new_sequence next_outbound next_inbound = record {
  next_outbound = next_outbound;
  next_inbound = next_inbound;
  outbound_exhausted = next_outbound == 0;
  inbound_exhausted = next_inbound == 0;
}

-- The id, where the method returns true.
unfoldable pub next_outbound_id : ConnectionMessageSequence → ConnectionMessageSequence × Option ℕ
next_outbound_id s =
    if s.outbound_exhausted
    then (s, none)
    else if s.next_outbound == u64_max
    then (record s { outbound_exhausted = true }, some s.next_outbound)
    else (record s { next_outbound = s.next_outbound + 1 }, some s.next_outbound)

unfoldable pub observe_inbound : ℕ → ConnectionMessageSequence → ConnectionMessageSequence × Bool
observe_inbound message_id s =
    if s.inbound_exhausted
    then (s, false)
    else if message_id != s.next_inbound
    then (record s { inbound_exhausted = true }, false)
    else if s.next_inbound == u64_max
    then (record s { inbound_exhausted = true }, true)
    else (record s { next_inbound = s.next_inbound + 1 }, true)

-- What the two directions do, in any order.
pub data Numbering : Type 0 where
  sends : Numbering
  observes : ℕ → Numbering

abbrev pub number_step : Numbering → ConnectionMessageSequence → ConnectionMessageSequence
number_step sends s = (next_outbound_id s).0
number_step (observes id) s = (observe_inbound id s).0

abbrev pub number_all : List Numbering → ConnectionMessageSequence → ConnectionMessageSequence
number_all [] s = s
number_all (n ∷ ns) s = number_all ns (number_step n s)

-- All ids that are still given lie above `id`.
abbrev IsPast : ℕ → ConnectionMessageSequence → Type 0
IsPast id s = (s.outbound_exhausted ≡ true) ⊎ (id < s.next_outbound)

number_step-IsPast :
    (id : ℕ) (n : Numbering) (s : ConnectionMessageSequence)
    → IsPast id s
    → IsPast id (number_step n s)
unfolding next_outbound_id observe_inbound
number_step-IsPast id sends s p = ground arith
number_step-IsPast id (observes m) s p = ground arith

number_all-IsPast :
    (id : ℕ) (ns : List Numbering) (s : ConnectionMessageSequence)
    → IsPast id s
    → IsPast id (number_all ns s)
number_all-IsPast id [] s p = p
number_all-IsPast id (n ∷ ns) s p = number_all-IsPast id ns _ (number_step-IsPast id n s p)

past_ids :
    (id next : ℕ) (s : ConnectionMessageSequence)
    → IsPast id s
    → (next_outbound_id s).1 ≡ some next
    → id < next
unfolding next_outbound_id
past_ids id next s p e = ground arith

given_once :
    (id : ℕ) (s : ConnectionMessageSequence)
    → (next_outbound_id s).1 ≡ some id
    → IsPast id (next_outbound_id s).0
unfolding next_outbound_id
given_once id s e = ground arith

-- An outbound id that is given after another, with any steps of both directions in between, is
-- larger. So no id is given twice, and ids grow along the connection.
pub next_outbound_id-lt :
    (ns : List Numbering) (s : ConnectionMessageSequence) (id next : ℕ)
    → (next_outbound_id s).1 ≡ some id
    → (next_outbound_id (number_all ns (next_outbound_id s).0)).1 ≡ some next
    → id < next
next_outbound_id-lt ns s id next e f =
    past_ids id next _ (number_all-IsPast id ns _ (given_once id s e)) f

abbrev IsSeen : ℕ → ConnectionMessageSequence → Type 0
IsSeen id s = (s.inbound_exhausted ≡ true) ⊎ (id < s.next_inbound)

number_step-IsSeen :
    (id : ℕ) (n : Numbering) (s : ConnectionMessageSequence)
    → IsSeen id s
    → IsSeen id (number_step n s)
unfolding next_outbound_id observe_inbound
number_step-IsSeen id sends s p = ground arith
number_step-IsSeen id (observes m) s p = ground arith

number_all-IsSeen :
    (id : ℕ) (ns : List Numbering) (s : ConnectionMessageSequence)
    → IsSeen id s
    → IsSeen id (number_all ns s)
number_all-IsSeen id [] s p = p
number_all-IsSeen id (n ∷ ns) s p = number_all-IsSeen id ns _ (number_step-IsSeen id n s p)

observed-IsSeen : (id : ℕ) (s : ConnectionMessageSequence) → IsSeen id (observe_inbound id s).0
unfolding observe_inbound
observed-IsSeen id s = ground arith

seen_refused :
    (id : ℕ) (s : ConnectionMessageSequence) → IsSeen id s → (observe_inbound id s).1 ≡ false
unfolding observe_inbound
seen_refused id s p = ground arith

-- An inbound id that was observed, accepted or not, is never accepted afterwards.
pub observe_inbound-once :
    (ns : List Numbering) (id : ℕ) (s : ConnectionMessageSequence)
    → (observe_inbound id (number_all ns (observe_inbound id s).0)).1 ≡ false
observe_inbound-once ns id s = seen_refused id _ (number_all-IsSeen id ns _ (observed-IsSeen id s))

-- ===== src/Transfer/Credit/Bounds.antt =====
-- What a connection never passes: its bytes in flight and its streams.
use file_sender_byte_spark.Prelude.{
  ℕ, suc, ◌≤◌, Bool, true, false, List, [], ◌∷◌, length, length-append, arith, ◌≡◌, refl,
}
use file_sender_byte_spark.Transfer.Credit.{
  CreditDirection, Role, ConnectionCreditBudget, maximum_connection_window, new_credit,
  try_reserve_credit, try_adjust, release_credit, with_role, consume_id, open_expected, open_stream,
  last_first, remove_stream, close_stream,
}

pub record IsWithin (c : ConnectionCreditBudget) : Type 0 where
  pub window : c.limit_bytes ≤ maximum_connection_window
  pub outbound : c.reserved_outbound ≤ c.limit_bytes
  pub inbound : c.reserved_inbound ≤ c.limit_bytes
  pub cap : c.maximum_streams ≤ 32
  pub streams : length c.active_stream_ids ≤ c.maximum_streams

length-last_first : (x : ℕ) (xs : List ℕ) → length (last_first x xs) ≡ suc (length xs)
unfolding last_first
length-last_first x [] = refl
length-last_first x (y ∷ ys) = ground (arith, length-last_first y ys)

length-remove_stream : (id : ℕ) (xs : List ℕ) → length (remove_stream id xs) ≤ length xs
unfolding remove_stream
length-remove_stream id [] = ground arith
length-remove_stream id (x ∷ []) = ground arith
length-remove_stream id (x ∷ y ∷ ys) =
    grind (arith, length-last_first, length-remove_stream id (y ∷ ys))

pub data Operation : Type 0 where
  reserves : CreditDirection → ℕ → Operation
  adjusts : CreditDirection → ℕ → ℕ → Operation
  releases : CreditDirection → ℕ → Operation
  opens : ℕ → Bool → Role → Operation
  closes : ℕ → Operation

abbrev pub apply : Operation → ConnectionCreditBudget → ConnectionCreditBudget
apply (reserves d bytes) c = (try_reserve_credit d bytes c).0
apply (adjusts d released reserved) c = (try_adjust d released reserved c).0
apply (releases d bytes) c = release_credit d bytes c
apply (opens id is_local role) c = (open_stream id is_local role c).0
apply (closes id) c = close_stream id c

abbrev pub apply_all : List Operation → ConnectionCreditBudget → ConnectionCreditBudget
apply_all [] c = c
apply_all (o ∷ os) c = apply_all os (apply o c)

with_role-IsWithin :
    (role : Role) (c : ConnectionCreditBudget) → IsWithin c → IsWithin (with_role role c)
unfolding with_role
with_role-IsWithin Role.initiator c w = ground arith
with_role-IsWithin Role.responder c w = ground arith

open_expected-IsWithin :
    (id : ℕ) (is_local : Bool) (c : ConnectionCreditBudget)
    → IsWithin c
    → IsWithin (open_expected id is_local c).0
unfolding open_expected consume_id
open_expected-IsWithin id true c w = ground (arith, length-append c.active_stream_ids (id ∷ []))
open_expected-IsWithin id false c w = ground (arith, length-append c.active_stream_ids (id ∷ []))

apply-IsWithin : (o : Operation) (c : ConnectionCreditBudget) → IsWithin c → IsWithin (apply o c)
unfolding try_reserve_credit try_adjust release_credit open_stream close_stream
apply-IsWithin (reserves CreditDirection.outbound bytes) c w = ground arith
apply-IsWithin (reserves CreditDirection.inbound bytes) c w = ground arith
apply-IsWithin (adjusts CreditDirection.outbound a b) c w = ground arith
apply-IsWithin (adjusts CreditDirection.inbound a b) c w = ground arith
apply-IsWithin (releases CreditDirection.outbound bytes) c w = ground arith
apply-IsWithin (releases CreditDirection.inbound bytes) c w = ground arith
apply-IsWithin (opens id is_local role) c w =
    grind (arith, open_expected-IsWithin id is_local, with_role-IsWithin role c)
apply-IsWithin (closes id) c w = ground (arith, length-remove_stream id c.active_stream_ids)

apply_all-IsWithin :
    (os : List Operation) (c : ConnectionCreditBudget) → IsWithin c → IsWithin (apply_all os c)
apply_all-IsWithin [] c w = w
apply_all-IsWithin (o ∷ os) c w = apply_all-IsWithin os (apply o c) (apply-IsWithin o c w)

-- After any operations on a new budget, whatever they were answered, the reserved bytes of each
-- direction do not pass the limit, the limit does not pass 64 MiB, and there are at most as many
-- active streams as allowed, which are at most 32.
pub new_credit-IsWithin_run :
    (limit streams : ℕ) (os : List Operation) → IsWithin (apply_all os (new_credit limit streams))
unfolding new_credit
new_credit-IsWithin_run limit streams os =
    apply_all-IsWithin os (new_credit limit streams) (ground arith)

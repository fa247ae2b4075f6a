-- ===== src/Transfer/Examples.antt =====
-- The theorems on the credit and the message ids of a connection at concrete operations.
use file_sender_byte_spark.Prelude.{◌≡◌, ◌<◌, refl, true, false, List, [], ◌∷◌}
use file_sender_byte_spark.Transfer.Credit.{CreditDirection, Role, new_credit}
use file_sender_byte_spark.Transfer.Credit.Bounds.{
  Operation, apply_all, IsWithin, new_credit-IsWithin_run,
}
use file_sender_byte_spark.Transfer.Sequence.{
  Numbering, new_sequence, next_outbound_id, observe_inbound, number_all, next_outbound_id-lt,
  observe_inbound-once,
}

abbrev operations : List Operation
operations =
    Operation.opens 1 true Role.initiator
    ∷ Operation.reserves CreditDirection.outbound 4096
    ∷ Operation.adjusts CreditDirection.outbound 4096 1024
    ∷ Operation.closes 1
    ∷ []

new_credit-IsWithin_run_example : IsWithin (apply_all operations (new_credit 65536 4))
new_credit-IsWithin_run_example = new_credit-IsWithin_run 65536 4 operations

abbrev numberings : List Numbering
numberings = Numbering.observes 4 ∷ Numbering.sends ∷ []

next_outbound_id-lt_example : 5 < 7
unfolding next_outbound_id observe_inbound new_sequence
next_outbound_id-lt_example = next_outbound_id-lt numberings (new_sequence 5 4) 5 7 refl refl

observe_inbound-once_example :
    (observe_inbound 4 (number_all numberings (observe_inbound 4 (new_sequence 5 4)).0)).1 ≡ false
observe_inbound-once_example = observe_inbound-once numberings 4 (new_sequence 5 4)

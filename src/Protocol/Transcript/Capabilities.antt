-- ===== src/Protocol/Transcript/Capabilities.antt =====
-- The intersection of the capabilities that two HELLOs offer, in
-- native/src/protocol/v1_parser.cpp.
use file_sender_byte_spark.Prelude.{
  ℕ, zero, suc, ◌+◌, ◌≤◌, ◌≡◌, refl, true, false, ◌&&◌, List, [], ◌∷◌, length, arith,
}
use file_sender_byte_spark.Protocol.Transcript.Hello.{contains, strictly_sorted}
use file_sender_byte_spark.Protocol.Transcript.Negotiate.{intersect, intersection}

tail-sorted : (x : ℕ) (xs : List ℕ) → strictly_sorted (x ∷ xs) ≡ true → strictly_sorted xs ≡ true
unfolding strictly_sorted
tail-sorted x [] e = refl
tail-sorted x (y ∷ ys) e = ground arith

sorted-lacks :
    (v x : ℕ) (xs : List ℕ) → strictly_sorted (x ∷ xs) ≡ true → v ≤ x → contains xs v ≡ false
unfolding strictly_sorted contains
sorted-lacks v x [] e le = refl
sorted-lacks v x (y ∷ ys) e le = grind (arith, sorted-lacks v y ys)

intersect-contains :
    (v fuel : ℕ) (xs ys : List ℕ)
    → length xs + length ys ≤ fuel
    → strictly_sorted xs ≡ true
    → strictly_sorted ys ≡ true
    → contains (intersect fuel xs ys) v ≡ (contains xs v && contains ys v)
unfolding intersect contains
intersect-contains v fuel [] ys le p q = refl
intersect-contains v fuel (x ∷ xs) [] le p q = ground arith
intersect-contains v zero (x ∷ xs) (y ∷ ys) le p q = ground arith
intersect-contains v (suc fuel) (x ∷ xs) (y ∷ ys) le p q = grind (
  arith,
  tail-sorted x xs,
  tail-sorted y ys,
  sorted-lacks v x xs,
  sorted-lacks v y ys,
  intersect-contains v fuel xs ys,
  intersect-contains v fuel (x ∷ xs) ys,
  intersect-contains v fuel xs (y ∷ ys),
)

-- Of two strictly ascending lists the intersection has exactly the capabilities that both have.
pub intersection-contains :
    (xs ys : List ℕ)
    → strictly_sorted xs ≡ true
    → strictly_sorted ys ≡ true
    → (v : ℕ) → contains (intersection xs ys) v ≡ (contains xs v && contains ys v)
unfolding intersection
intersection-contains xs ys p q v =
    intersect-contains v (length xs + length ys) xs ys (ground arith) p q

-- ===== src/Storage/Path/Split.antt =====
-- `path.find('/', component_start)` and the two pieces that it gives.
use file_sender_byte_spark.Prelude.{
  ℕ, ◌<◌, ◌≡◌, ◌≢◌, refl, false, Option, none, some, List, [], ◌∷◌, ◌++◌, length, any, ◌==◌,
  if◌then◌else◌, arith,
}
use file_sender_byte_spark.Storage.Component.{slash, ends_with}

-- The bytes up to the first separator, or to the end.
unfoldable pub component_of : List ℕ → List ℕ
component_of [] = []
component_of (x ∷ xs) = if x == slash then [] else x ∷ component_of xs

-- The bytes behind the first separator, if there is one.
unfoldable pub rest_of : List ℕ → Option (List ℕ)
rest_of [] = none
rest_of (x ∷ xs) = if x == slash then some xs else rest_of xs

-- The components with a separator between each two.
unfoldable pub join : List (List ℕ) → List ℕ
join [] = []
join (c ∷ []) = c
join (c ∷ d ∷ cs) = c ++ (slash ∷ join (d ∷ cs))

abbrev pub Lacks : ℕ → List ℕ → Type 0
Lacks b [] = Unit {0}
Lacks b (x ∷ xs) = (x ≢ b) × Lacks b xs

pub any-Lacks : (b : ℕ) (xs : List ℕ) → any (λ c. c == b) xs ≡ false → Lacks b xs
any-Lacks b [] h = tt
any-Lacks b (x ∷ xs) h = ground (arith, any-Lacks b xs)

pub component_of-Lacks : (xs : List ℕ) → Lacks slash (component_of xs)
unfolding component_of
component_of-Lacks [] = tt
component_of-Lacks (x ∷ xs) = ground (arith, component_of-Lacks xs)

pub component_of_whole : (xs : List ℕ) → rest_of xs ≡ none → component_of xs ≡ xs
unfolding component_of rest_of
component_of_whole [] h = refl
component_of_whole (x ∷ xs) h = ground (arith, component_of_whole xs)

pub component_of-rest_of :
    (xs r : List ℕ) → rest_of xs ≡ some r → xs ≡ component_of xs ++ (slash ∷ r)
unfolding component_of rest_of
component_of-rest_of [] r h = cc
component_of-rest_of (x ∷ xs) r h = ground (arith, component_of-rest_of xs r)

pub rest_of-length : (xs r : List ℕ) → rest_of xs ≡ some r → length r < length xs
unfolding rest_of
rest_of-length [] r h = cc
rest_of-length (x ∷ xs) r h = ground (arith, rest_of-length xs r)

pub component_of-append : (c r : List ℕ) → Lacks slash c → component_of (c ++ (slash ∷ r)) ≡ c
unfolding component_of
component_of-append [] r h = refl
component_of-append (x ∷ xs) r h = ground (arith, component_of-append xs r h.1)

pub rest_of-append : (c r : List ℕ) → Lacks slash c → rest_of (c ++ (slash ∷ r)) ≡ some r
unfolding rest_of
rest_of-append [] r h = refl
rest_of-append (x ∷ xs) r h = ground (arith, rest_of-append xs r h.1)

pub component_of_alone : (c : List ℕ) → Lacks slash c → component_of c ≡ c
unfolding component_of
component_of_alone [] h = refl
component_of_alone (x ∷ xs) h = ground (arith, component_of_alone xs h.1)

pub rest_of-Lacks : (c : List ℕ) → Lacks slash c → rest_of c ≡ none
unfolding rest_of
rest_of-Lacks [] h = refl
rest_of-Lacks (x ∷ xs) h = ground (arith, rest_of-Lacks xs h.1)

pub ends_with-append : (b x : ℕ) (c r : List ℕ) → ends_with b (c ++ (x ∷ r)) ≡ ends_with b (x ∷ r)
unfolding ends_with
ends_with-append b x [] r = refl
ends_with-append b x (y ∷ []) r = refl
ends_with-append b x (y ∷ z ∷ c) r = ends_with-append b x (z ∷ c) r

pub join-cons :
    (c d : List ℕ) (cs : List (List ℕ)) → join (c ∷ d ∷ cs) ≡ c ++ (slash ∷ join (d ∷ cs))
unfolding join
join-cons c d cs = refl

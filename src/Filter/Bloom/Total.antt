-- ===== src/Filter/Bloom/Total.antt =====
-- A bloom filter answers for every label.
use pipe_ann.Base.{
  ℕ, zero, suc, ◌/◌, ◌%◌, ◌<◌, ◌≡◌, refl, Bool, true, false, Option, some, List, [], ◌∷◌, arith,
  length,
}
use pipe_ann.Filter.Bloom.{
  test_bit, BloomFilter, filter_bits, num_hash_functions, place_of, test_at, if_set,
  contains_rounds, contains,
}
use pipe_ann.Filter.Bloom.Holds.{IsFilter, place_of-bound, has_bits}

test_at-total : (d : List ℕ) (q r : ℕ) → q < length d → (b : Bool) × (test_at d q r ≡ some b)
unfolding test_at
test_at-total [] q r h = absurd (omega (arith, h))
test_at-total (b ∷ d) zero r h = (test_bit r b, refl)
test_at-total (b ∷ d) (suc q) r h = test_at-total d q r (omega (arith, h))

if_set-total :
    (o o' : Option Bool)
    → (b : Bool) × (o ≡ some b)
    → (b : Bool) × (o' ≡ some b)
    → (b : Bool) × (if_set o o' ≡ some b)
unfolding if_set
if_set-total o o' (true, e) (b, e') = (b, rw e e')
if_set-total o o' (false, e) (b, e') = (false, rw e refl)

contains_rounds-total :
    (n i : ℕ) (place : ℕ → ℕ) (d : List ℕ)
    → ((j : ℕ) → place j / 8 < length d)
    → (b : Bool) × (contains_rounds n i place d ≡ some b)
unfolding contains_rounds
contains_rounds-total zero i place d h = (true, refl)
contains_rounds-total (suc n) i place d h =
    if_set-total (test_at d (place i / 8) (place i % 8)) (contains_rounds n (suc i) place d)
      (test_at-total d (place i / 8) (place i % 8) (h i))
      (contains_rounds-total n (suc i) place d h)

-- A filter answers for every label.
pub contains_answers :
    (f : BloomFilter) (label : ℕ) → IsFilter f → (b : Bool) × (contains f label ≡ some b)
unfolding contains
contains_answers f label h =
    let r =
      contains_rounds-total (num_hash_functions f.size) 0 (place_of (filter_bits f.size) label)
        f.bytes (λ j. place_of-bound f label j h) in
    (r.0, rw (has_bits f h) r.1)

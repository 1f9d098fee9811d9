-- ===== src/Filter/Bloom.antt =====
-- The bloom filter of a vector's labels: `BloomFilter` of include/filter/attribute.h.
pub mod Rounds
pub mod Holds
pub mod Total
use pipe_ann.Base.{
  ℕ, zero, suc, ◌+◌, ◌-◌, ◌*◌, ◌/◌, ◌%◌, ◌^◌, ◌≤◌, ◌<◌, min, max, compare, Ordering, ◌≡◌, refl, sym,
  ap, ◌∙◌, subst, ◌≢◌, ◌↔◌, ◌⊎◌, inl, inr, Bool, true, false, ◌&&◌, ◌||◌, not, Option, none, some,
  List, [], ◌∷◌, ◌++◌, map, reverse, append-nil, append_assoc, arith, dec_lt, dec_le, ℕ_discrete,
  ltb, leb, ◌==◌, if◌then◌else◌, ltb→lt, lt→ltb, leb→le, ltb_false→le, le→ltb_false, ==→eq, ==_self,
  ne→==_false, ==_false→ne, tests, Bool-cases, Option-cases, trichotomy, All, length, get_elem?,
  get_or, set, take, drop, replicate, length-append, length-set, length-take, length-drop,
  length-replicate, take-append-drop, take_all, get_or-set_self, get_or-set_ne, get_or-take,
  memmove, All-append, All-take, All-drop, All-get_or, tally, tally-append, tally-replicate_zero,
  tally_le, All-middle, All-replicate,
}

-- `b & (1 << k)` of a byte, as a test.
unfoldable pub test_bit : ℕ → ℕ → Bool
test_bit zero b = b % 2 == 1
test_bit (suc k) b = test_bit k (b / 2)

-- `b | (1 << k)` of a byte.
unfoldable pub set_bit : ℕ → ℕ → ℕ
set_bit zero b = if b % 2 == 1 then b else b + 1
set_bit (suc k) b = b % 2 + 2 * set_bit k (b / 2)

-- `a ^ b` in the lowest `w` bits.
unfoldable pub xor : ℕ → ℕ → ℕ → ℕ
xor zero a b = 0
xor (suc w) a b = (a + b) % 2 + 2 * xor w (a / 2) (b / 2)

unfoldable pub mix_hash : ℕ → ℕ
unfolding xor
mix_hash k =
    let k1 = xor 32 k (k / 2 ^ 16) in
    let k2 = (k1 * 2246822507) % 2 ^ 32 in
    let k3 = xor 32 k2 (k2 / 2 ^ 13) in
    let k4 = (k3 * 3266489909) % 2 ^ 32 in xor 32 k4 (k4 / 2 ^ 16)

-- The bytes from the pointer of the slice on, and the size of the slice.
pub record BloomFilter : Type 0 where
  pub bytes : List ℕ
  pub size : ℕ

unfoldable pub filter_bits : ℕ → ℕ
filter_bits size = (size * 8) % 2 ^ 32

unfoldable pub num_hash_functions : ℕ → ℕ
num_hash_functions size = max 2 (min 8 (filter_bits size / 8))

-- `(h1 + i * h2) % bits` of the label's two hashes.
unfoldable pub place_of : ℕ → ℕ → ℕ → ℕ
unfolding mix_hash xor
place_of bits label i =
    ((mix_hash label + (i * mix_hash (xor 32 label 2654435769)) % 2 ^ 32) % 2 ^ 32) % bits

unfoldable pub after : ℕ → Option (List ℕ) → Option (List ℕ)
after b none = none
after b (some d) = some (b ∷ d)

-- `data[q] |= 1u << r`; `none` past the end of the bytes.
unfoldable pub set_at : List ℕ → ℕ → ℕ → Option (List ℕ)
unfolding after set_bit
set_at [] q r = none
set_at (b ∷ d) zero r = some (set_bit r b ∷ d)
set_at (b ∷ d) (suc q) r = after b (set_at d q r)

-- `data[q] & (1u << r)`.
unfoldable pub test_at : List ℕ → ℕ → ℕ → Option Bool
unfolding test_bit
test_at [] q r = none
test_at (b ∷ d) zero r = some (test_bit r b)
test_at (b ∷ d) (suc q) r = test_at d q r

unfoldable pub chain {ℓ κ} : {A : Type ℓ} {B : Type κ} → Option A → (A → Option B) → Option B
chain none f = none
chain (some a) f = f a

-- The `n` rounds of `add` from round `i` on, the places of the bits in `place`.
unfoldable pub add_rounds : ℕ → ℕ → (ℕ → ℕ) → List ℕ → Option (List ℕ)
unfolding chain
add_rounds zero i place d = some d
add_rounds (suc n) i place d =
    chain (set_at d (place i / 8) (place i % 8)) (add_rounds n (suc i) place)

-- `none` where the code takes a remainder by zero or leaves the bytes.
unfoldable pub add : BloomFilter → ℕ → Option BloomFilter
unfolding chain
add f label =
    let bits = filter_bits f.size in
    if bits == 0
    then none
    else chain (add_rounds (num_hash_functions f.size) 0 (place_of bits label) f.bytes)
        (λ d. some (record { bytes = d; size = f.size }))

unfoldable pub if_set : Option Bool → Option Bool → Option Bool
if_set none rest = none
if_set (some b) rest = if b then rest else some false

unfoldable pub contains_rounds : ℕ → ℕ → (ℕ → ℕ) → List ℕ → Option Bool
unfolding if_set
contains_rounds zero i place d = some true
contains_rounds (suc n) i place d =
    if_set (test_at d (place i / 8) (place i % 8)) (contains_rounds n (suc i) place d)

unfoldable pub contains : BloomFilter → ℕ → Option Bool
contains f label =
    let bits = filter_bits f.size in
    if bits == 0
    then none
    else contains_rounds (num_hash_functions f.size) 0 (place_of bits label) f.bytes

-- The labels of one vector.
unfoldable pub add_all : List ℕ → BloomFilter → Option BloomFilter
unfolding chain
add_all [] f = some f
add_all (label ∷ labels) f = chain (add f label) (add_all labels)

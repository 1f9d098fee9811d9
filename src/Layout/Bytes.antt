-- ===== src/Layout/Bytes.antt =====
-- Numbers as little-endian bytes, and reads from a byte stream that may be too short.
use native.Mathlib.Nat.{pow-suc}
use pipe_ann.Base.{
  ℕ, zero, suc, ◌+◌, ◌*◌, ◌/◌, ◌%◌, ◌^◌, ◌<◌, ◌≡◌, refl, ap, ◌∙◌, subst, Option, none, some, List,
  [], ◌∷◌, ◌++◌, arith, ltb, if◌then◌else◌, le→ltb_false, length, take, drop, length-append,
}

-- `out.write((char *) &x, n)` of a number of n bytes.
unfoldable pub to_bytes : ℕ → ℕ → List ℕ
to_bytes zero x = []
to_bytes (suc n) x = x % 256 ∷ to_bytes n (x / 256)

unfoldable pub from_bytes : List ℕ → ℕ
from_bytes [] = 0
from_bytes (b ∷ bs) = b + 256 * from_bytes bs

-- `in.read`: `none` when the stream fails.
unfoldable pub read : ℕ → List ℕ → Option (ℕ × List ℕ)
unfolding from_bytes
read n bs = if ltb (length bs) n then none else some (from_bytes (take n bs), drop n bs)

pub length-to_bytes : (n x : ℕ) → length (to_bytes n x) ≡ n
unfolding to_bytes
length-to_bytes zero x = refl
length-to_bytes (suc n) x = ap suc (length-to_bytes n (x / 256))

from_bytes-to_bytes : (n x : ℕ) → x < 256 ^ n → from_bytes (to_bytes n x) ≡ x
unfolding from_bytes to_bytes
from_bytes-to_bytes zero x h = omega arith
from_bytes-to_bytes (suc n) x h =
    omega (arith, from_bytes-to_bytes n (x / 256) (omega (arith, pow-suc 256 n)))

take_append {ℓ} : {A : Type ℓ} (xs ys : List A) → take (length xs) (xs ++ ys) ≡ xs
take_append [] ys = refl
take_append (x ∷ xs) ys = ap (◌∷◌ x) (take_append xs ys)

drop_append {ℓ} : {A : Type ℓ} (xs ys : List A) → drop (length xs) (xs ++ ys) ≡ ys
drop_append [] ys = refl
drop_append (x ∷ xs) ys = drop_append xs ys

read_append : (bs rest : List ℕ) → read (length bs) (bs ++ rest) ≡ some (from_bytes bs, rest)
unfolding read
read_append bs rest = rw (
  le→ltb_false (length (bs ++ rest)) (length bs) (omega (arith, length-append bs rest)),
  take_append bs rest,
  drop_append bs rest,
)

-- A number is read back, and the rest of the stream is left.
pub read-to_bytes :
    (n x : ℕ) (rest : List ℕ) → x < 256 ^ n → read n (to_bytes n x ++ rest) ≡ some (x, rest)
unfolding read
read-to_bytes n x rest h =
    subst (λ t. read t (to_bytes n x ++ rest) ≡ some (from_bytes (to_bytes n x), rest))
      (length-to_bytes n x) (read_append (to_bytes n x) rest)
    ∙ ap (λ t. some (t, rest)) (from_bytes-to_bytes n x h)

-- One read of a chain of reads that fails as a whole.
unfoldable pub then_read {ℓ} : {A : Type ℓ} → ℕ → List ℕ → (ℕ → List ℕ → Option A) → Option A
unfolding read
then_read n bs k = elim (read n bs) [ none ↦ none | some (x, rest) ↦ k x rest ]

pub then_read-to_bytes {ℓ} :
    {A : Type ℓ} (n x : ℕ) (rest : List ℕ) (k : ℕ → List ℕ → Option A)
    → x < 256 ^ n
    → then_read n (to_bytes n x ++ rest) k ≡ k x rest
unfolding then_read
then_read-to_bytes n x rest k h = rw (read-to_bytes n x rest h, then_read)

-- ===== src/Filter/Bloom/Rounds.antt =====
-- The bits that the rounds of `add` set, and the rounds of `contains` find.
use pipe_ann.Base.{
  ℕ, zero, suc, ◌+◌, ◌*◌, ◌/◌, ◌%◌, ◌<◌, ◌≡◌, refl, ap, ◌∙◌, inl, inr, true, false, Option, some,
  List, [], ◌∷◌, arith, ◌==◌, Bool-cases, length,
}
use pipe_ann.Filter.Bloom.{
  test_bit, set_bit, after, set_at, test_at, chain, add_rounds, if_set, contains_rounds,
}

test-set_bit : (k b : ℕ) → test_bit k (set_bit k b) ≡ true
unfolding test_bit set_bit
test-set_bit zero b = ground arith
test-set_bit (suc k) b =
    let half : (b % 2 + 2 * set_bit k (b / 2)) / 2 ≡ set_bit k (b / 2) = omega arith in
    rw half (test-set_bit k (b / 2))

even_half : (b : ℕ) → (b % 2 == 1) ≡ false → (b + 1) / 2 ≡ b / 2
even_half b e = ground arith

set_bit-keeps : (k j b : ℕ) → test_bit j b ≡ true → test_bit j (set_bit k b) ≡ true
unfolding test_bit set_bit
set_bit-keeps zero zero b h = ground arith
set_bit-keeps zero (suc j) b h = elim (Bool-cases (b % 2 == 1)) [
  | inl e ↦ rw e h
  | inr e ↦ rw e (rw (even_half b e) h)
]
set_bit-keeps (suc k) zero b h = ground arith
set_bit-keeps (suc k) (suc j) b h =
    let half : (b % 2 + 2 * set_bit k (b / 2)) / 2 ≡ set_bit k (b / 2) = omega arith in
    rw half (set_bit-keeps k j (b / 2) h)

-- Every bit of `d` is a bit of `e`.
unfoldable pub Keeps : List ℕ → List ℕ → Type 0
Keeps d e = (q r : ℕ) → test_at d q r ≡ some true → test_at e q r ≡ some true

-- `o` is `d` with the bit `q`, `r`.
record Marked (d : List ℕ) (q r : ℕ) (o : Option (List ℕ)) : Type 0 where
  out : List ℕ
  eq : o ≡ some out
  same_size : length out ≡ length d
  keeps : Keeps d out
  bit : test_at out q r ≡ some true

Keeps-first : (b : ℕ) (d : List ℕ) (r : ℕ) → Keeps (b ∷ d) (set_bit r b ∷ d)
unfolding Keeps test_at
Keeps-first b d r zero j h = ap some (set_bit-keeps r j b (cc h))
Keeps-first b d r (suc q) j h = h

Keeps-rest : (b : ℕ) (d e : List ℕ) → Keeps d e → Keeps (b ∷ d) (b ∷ e)
unfolding Keeps test_at
Keeps-rest b d e k zero j h = h
Keeps-rest b d e k (suc q) j h = k q j h

set_at-Marked : (d : List ℕ) (q r : ℕ) → q < length d → Marked d q r (set_at d q r)
unfolding set_at test_at after
set_at-Marked [] q r h = absurd (omega (arith, h))
set_at-Marked (b ∷ d) zero r h = record {
  out = set_bit r b ∷ d;
  eq = refl;
  same_size = refl;
  keeps = Keeps-first b d r;
  bit = ap some (test-set_bit r b);
}
set_at-Marked (b ∷ d) (suc q) r h =
    let m = set_at-Marked d q r (omega (arith, h)) in
    record {
      out = b ∷ m.out;
      eq = rw m.eq refl;
      same_size = ap suc m.same_size;
      keeps = Keeps-rest b d m.out m.keeps;
      bit = m.bit;
    }

-- All the bits of the rounds are set.
unfoldable pub AreSet : ℕ → ℕ → (ℕ → ℕ) → List ℕ → Type 0
AreSet zero i place d = Unit
AreSet (suc n) i place d =
    (test_at d (place i / 8) (place i % 8) ≡ some true) × AreSet n (suc i) place d

pub AreSet-Keeps :
    (n i : ℕ) (place : ℕ → ℕ) (d e : List ℕ) → Keeps d e → AreSet n i place d → AreSet n i place e
unfolding AreSet Keeps
AreSet-Keeps zero i place d e k h = tt
AreSet-Keeps (suc n) i place d e k h =
    (k (place i / 8) (place i % 8) h.0, AreSet-Keeps n (suc i) place d e k h.1)

pub contains_rounds-AreSet :
    (n i : ℕ) (place : ℕ → ℕ) (d : List ℕ)
    → AreSet n i place d
    → contains_rounds n i place d ≡ some true
unfolding AreSet contains_rounds if_set
contains_rounds-AreSet zero i place d h = refl
contains_rounds-AreSet (suc n) i place d h = rw h.0 (contains_rounds-AreSet n (suc i) place d h.1)

pub record Added (n i : ℕ) (place : ℕ → ℕ) (d : List ℕ) (o : Option (List ℕ)) : Type 0 where
  pub out : List ℕ
  pub eq : o ≡ some out
  pub same_size : length out ≡ length d
  pub keeps : Keeps d out
  pub bits : AreSet n i place out

pub add_rounds-Added :
    (n i : ℕ) (place : ℕ → ℕ) (d : List ℕ)
    → ((j : ℕ) → place j / 8 < length d)
    → Added n i place d (add_rounds n i place d)
unfolding AreSet Keeps add_rounds chain
add_rounds-Added zero i place d h = record {
  out = d;
  eq = refl;
  same_size = refl;
  keeps = λ q r t. t;
  bits = tt;
}
add_rounds-Added (suc n) i place d h =
    let m = set_at-Marked d (place i / 8) (place i % 8) (h i) in
    let rest = add_rounds-Added n (suc i) place m.out (λ j. rw m.same_size (h j)) in
    record {
      out = rest.out;
      eq = rw m.eq rest.eq;
      same_size = rest.same_size ∙ m.same_size;
      keeps = λ q r t. rest.keeps q r (m.keeps q r t);
      bits = (rest.keeps (place i / 8) (place i % 8) m.bit, rest.bits);
    }

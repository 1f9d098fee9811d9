-- ===== src/Pool/Position/Order.antt =====
-- Sorted windows, insertion by order as the pool's specification, and the place of an entry.
use pipe_ann.Base.{
  ℕ, zero, suc, ◌≤◌, ◌<◌, ◌≡◌, refl, ap, ◌≢◌, inl, inr, true, false, List, [], ◌∷◌, ◌++◌, arith,
  if◌then◌else◌, All, length, take, drop, Bool-cases,
}
use pipe_ann.Neighbor.{Neighbor, lt, lt_trans, lt_total}
use pipe_ann.Pool.Position.{at}

-- Strictly ascending, so no key stands twice.
abbrev pub IsSorted : List Neighbor → Type 0
IsSorted [] = Unit
IsSorted (x ∷ xs) = All (λ y. lt x y ≡ true) xs × IsSorted xs

abbrev pub IsFresh : Neighbor → List Neighbor → Type 0
IsFresh nn = All (λ x. x.id ≢ nn.id)

unfoldable pub ordered_insert : Neighbor → List Neighbor → List Neighbor
ordered_insert nn [] = nn ∷ []
ordered_insert nn (x ∷ xs) = if lt x nn then x ∷ ordered_insert nn xs else nn ∷ x ∷ xs

-- How many entries stand before `nn`.
unfoldable pub rank : Neighbor → List Neighbor → ℕ
rank nn [] = 0
rank nn (x ∷ xs) = if lt x nn then suc (rank nn xs) else 0

pub rank-le : (nn : Neighbor) (xs : List Neighbor) → rank nn xs ≤ length xs
unfolding rank
rank-le nn [] = omega arith
rank-le nn (x ∷ xs) = ground (arith, rank-le nn xs)

pub length-ordered_insert :
    (nn : Neighbor) (xs : List Neighbor) → length (ordered_insert nn xs) ≡ suc (length xs)
unfolding ordered_insert
length-ordered_insert nn [] = refl
length-ordered_insert nn (x ∷ xs) = elim (Bool-cases (lt x nn)) [
  | inl e ↦ rw e (ap suc (length-ordered_insert nn xs))
  | inr e ↦ rw e
]

-- What stands before the new entry is left alone.
pub take-ordered_insert :
    (nn : Neighbor) (xs : List Neighbor) (j : ℕ)
    → j ≤ rank nn xs
    → take j (ordered_insert nn xs) ≡ take j xs
unfolding ordered_insert rank
take-ordered_insert nn xs zero h = refl
take-ordered_insert nn [] (suc j) h = absurd (omega arith)
take-ordered_insert nn (x ∷ xs) (suc j) h = elim (Bool-cases (lt x nn)) [
  | inl e ↦ rw e (ap (◌∷◌ x) (take-ordered_insert nn xs j (ground arith)))
  | inr e ↦ absurd (ground arith)
]

All-ordered_insert {ℓ} :
    (P : Neighbor → Type ℓ) (nn : Neighbor) (xs : List Neighbor)
    → P nn
    → All P xs
    → All P (ordered_insert nn xs)
unfolding ordered_insert
All-ordered_insert P nn [] h hs = (h, tt)
All-ordered_insert P nn (x ∷ xs) h hs = elim (Bool-cases (lt x nn)) [
  | inl e ↦ rw e (hs.0, All-ordered_insert P nn xs h hs.1)
  | inr e ↦ rw e (h, hs)
]

All-lt_trans :
    (a b : Neighbor) (xs : List Neighbor)
    → lt a b ≡ true
    → All (λ y. lt b y ≡ true) xs
    → All (λ y. lt a y ≡ true) xs
All-lt_trans a b [] h hs = tt
All-lt_trans a b (x ∷ xs) h hs = (lt_trans a b x h hs.0, All-lt_trans a b xs h hs.1)

-- An entry with a new id lies strictly on one side.
pub lt_of_fresh : (x nn : Neighbor) → x.id ≢ nn.id → lt x nn ≡ false → lt nn x ≡ true
lt_of_fresh x nn h e = ground (arith, lt_total x nn)

pub ordered_insert-IsSorted :
    (nn : Neighbor) (xs : List Neighbor)
    → IsSorted xs
    → IsFresh nn xs
    → IsSorted (ordered_insert nn xs)
unfolding ordered_insert
ordered_insert-IsSorted nn [] s f = (tt, tt)
ordered_insert-IsSorted nn (x ∷ xs) s f = elim (Bool-cases (lt x nn)) [
  | inl e ↦
      rw e
        (All-ordered_insert (λ y. lt x y ≡ true) nn xs e s.0, ordered_insert-IsSorted nn xs s.1 f.1)
  | inr e ↦
      let below : lt nn x ≡ true = lt_of_fresh x nn f.0 e in
      rw e ((below, All-lt_trans nn x xs below s.0), s)
]

pub IsSorted-take : (n : ℕ) (xs : List Neighbor) → IsSorted xs → IsSorted (take n xs)
IsSorted-take zero xs s = tt
IsSorted-take (suc n) [] s = tt
IsSorted-take (suc n) (x ∷ xs) s = (bound n xs s.0, IsSorted-take n xs s.1)
  where
    bound :
        (m : ℕ) (ys : List Neighbor)
        → All (λ y. lt x y ≡ true) ys
        → All (λ y. lt x y ≡ true) (take m ys)
    bound zero ys h = tt
    bound (suc m) [] h = tt
    bound (suc m) (y ∷ ys) h = (h.0, bound m ys h.1)

pub All-at :
    (x : Neighbor) (ys : List Neighbor) (i : ℕ)
    → All (λ y. lt x y ≡ true) ys
    → i < length ys
    → lt x (at ys i) ≡ true
All-at x [] i a l = absurd (omega arith)
All-at x (y ∷ ys) zero a l = a.0
All-at x (y ∷ ys) (suc i) a l = All-at x ys i a.1 (omega arith)

first_below :
    (nn x : Neighbor) (xs : List Neighbor) (r : ℕ)
    → All (λ y. lt x y ≡ true) xs
    → r ≤ length xs
    → ((i : ℕ) → suc i ≡ suc r → lt (at (x ∷ xs) i) nn ≡ true)
    → lt x nn ≡ true
first_below nn x xs zero a l b = b 0 refl
first_below nn x xs (suc r) a l b =
    lt_trans x (at xs r) nn (All-at x xs r a (omega arith)) (b (suc r) refl)

-- Between a smaller entry and one that is not smaller is the place by order.
pub insert_place :
    (nn : Neighbor) (xs : List Neighbor) (r : ℕ)
    → IsSorted xs
    → r ≤ length xs
    → ((i : ℕ) → suc i ≡ r → lt (at xs i) nn ≡ true)
    → (r < length xs → lt (at xs r) nn ≡ false)
    → (take r xs ++ (nn ∷ drop r xs) ≡ ordered_insert nn xs) × (rank nn xs ≡ r)
unfolding ordered_insert rank
insert_place nn [] zero s h below above = (refl, refl)
insert_place nn [] (suc r) s h below above = absurd (omega arith)
insert_place nn (x ∷ xs) zero s h below above = rw (above (omega arith)) (refl, refl)
insert_place nn (x ∷ xs) (suc r) s h below above =
    let rest : (take r xs ++ (nn ∷ drop r xs) ≡ ordered_insert nn xs) × (rank nn xs ≡ r) =
      insert_place nn xs r s.1 (omega arith) (λ i e. below (suc i) (ap suc e))
        (λ l. above (omega arith)) in
    rw (first_below nn x xs r s.0 (omega arith) below) (ap (◌∷◌ x) rest.0, ap suc rest.1)

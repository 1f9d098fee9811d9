-- ===== src/Filter/Selector/Complement.antt =====
-- The ids that a negation leaves: the loops of `NotSelector::pre_filter`.
use pipe_ann.Base.{
  ℕ, zero, suc, ◌+◌, ◌-◌, ◌%◌, ◌^◌, ◌≤◌, ◌<◌, ◌≡◌, refl, sym, ap, ◌∙◌, subst, true, ◌&&◌, ◌||◌, not,
  List, [], ◌∷◌, ◌++◌, append-nil, arith, ltb, leb, length, some,
}
use pipe_ann.Filter.Ids.{
  VectorIdList, has, IsAscendingFrom, IsAscending, IsAscendingFrom-weaken, has_below,
  or_sorted_unique, and_sorted_unique, or_sorted_unique-union, and_sorted_unique-intersection,
}
use pipe_ann.Filter.Selector.PreFilter.{push_ids, complement, exclude}

-- The largest id stands for none.
abbrev pub max_id : ℕ
max_id = 2 ^ 32 - 1

-- Ascending ids of the vectors, which are those below `n`.
pub record IsIdList (n : ℕ) (ids : VectorIdList) : Type 0 where
  pub ascending : IsAscending ids
  pub valid : (id : ℕ) → has ids id ≡ true → id < n

has-append : (xs ys : List ℕ) (z : ℕ) → has (xs ++ ys) z ≡ (has xs z || has ys z)
unfolding has
has-append [] ys z = refl
has-append (x ∷ xs) ys z = ground (arith, has-append xs ys z)

has-push_ids : (st n z : ℕ) → has (push_ids st n) z ≡ (leb st z && ltb z (st + n))
unfolding has push_ids
has-push_ids st zero z = ground arith
has-push_ids st (suc n) z = ground (arith, has-push_ids (suc st) n z)

IsAscendingFrom-push_ids :
    (st n : ℕ) (xs : List ℕ)
    → IsAscendingFrom (st + n) xs
    → IsAscendingFrom st (push_ids st n ++ xs)
unfolding push_ids
IsAscendingFrom-push_ids st zero xs d = IsAscendingFrom-weaken st (st + 0) xs (omega arith) d
IsAscendingFrom-push_ids st (suc n) xs d = (
  omega arith,
  IsAscendingFrom-push_ids (suc st) n xs
      (IsAscendingFrom-weaken (suc st + n) (st + suc n) xs (omega arith) d),
)

-- A tail of valid ids is valid.
abbrev AreValid : ℕ → List ℕ → Type 0
AreValid n ids = (id : ℕ) → has ids id ≡ true → id < n

AreValid-cons : (n e : ℕ) (xs : List ℕ) → AreValid n (e ∷ xs) → (e < n) × AreValid n xs
unfolding has
AreValid-cons n e xs v = (v e (ground arith), λ id h. v id (ground arith))

-- There are at most as many ids as vectors.
length-IsAscendingFrom :
    (n lo : ℕ) (xs : List ℕ) → IsAscendingFrom lo xs → AreValid n xs → length xs ≤ n - lo
length-IsAscendingFrom n lo [] d v = omega arith
length-IsAscendingFrom n lo (x ∷ xs) d v =
    let (ve, vs) = AreValid-cons n x xs v in
    omega (arith, length-IsAscendingFrom n (suc x) xs d.1 vs, d.0, ve)

module _ (n : ℕ) (max : n ≤ max_id) where
  has-complement :
      (st : ℕ) (xs : List ℕ) (z : ℕ)
      → IsAscendingFrom st xs
      → AreValid n xs
      → z < n
      → has (complement n st xs) z ≡ (leb st z && not (has xs z))
  unfolding complement has
  has-complement st [] z d v h = ground (arith, has-push_ids st (n - st) z)
  has-complement st (e ∷ xs) z d v h =
      let (ve, vs) = AreValid-cons n e xs v in
      let rest = complement n ((e + 1) % 2 ^ 32) xs in
      let next : (e + 1) % 2 ^ 32 ≡ suc e = omega arith in
      let ih : has rest z ≡ (leb (suc e) z && not (has xs z)) =
        ap (λ t. has (complement n t xs) z) next ∙ has-complement (suc e) xs z d.1 vs h in
      ground (
        arith,
        has-append (push_ids st (e - st)) rest z,
        has-push_ids st (e - st) z,
        ih,
        λ (p : z < suc e). has_below (suc e) z xs d.1 p,
      )

  IsAscendingFrom-complement :
      (st : ℕ) (xs : List ℕ)
      → IsAscendingFrom st xs
      → AreValid n xs
      → IsAscendingFrom st (complement n st xs)
  unfolding complement
  IsAscendingFrom-complement st [] d v =
      subst (IsAscendingFrom st) (append-nil (push_ids st (n - st)))
        (IsAscendingFrom-push_ids st (n - st) [] tt)
  IsAscendingFrom-complement st (e ∷ xs) d v =
      let (ve, vs) = AreValid-cons n e xs v in
      let next : (e + 1) % 2 ^ 32 ≡ suc e = omega arith in
      IsAscendingFrom-push_ids st (e - st) (complement n ((e + 1) % 2 ^ 32) xs) (
        IsAscendingFrom-weaken (st + (e - st)) (suc e) (complement n ((e + 1) % 2 ^ 32) xs)
          (omega (arith, d.0)) (rw next (IsAscendingFrom-complement (suc e) xs d.1 vs)))

  AreValid-complement :
      (st : ℕ) (xs : List ℕ)
      → IsAscendingFrom st xs
      → AreValid n xs
      → AreValid n (complement n st xs)
  unfolding complement
  AreValid-complement st [] d v z p = ground (arith, has-push_ids st (n - st) z)
  AreValid-complement st (e ∷ xs) d v z p =
      let (ve, vs) = AreValid-cons n e xs v in
      let rest = complement n ((e + 1) % 2 ^ 32) xs in
      let next : (e + 1) % 2 ^ 32 ≡ suc e = omega arith in
      let ih : (has rest z ≡ true → z < n) = λ q.
        AreValid-complement (suc e) xs d.1 vs z
          (ap (λ t. has (complement n t xs) z) (sym next) ∙ q) in
      ground (arith, has-append (push_ids st (e - st)) rest z, has-push_ids st (e - st) z, ih)

-- A negation takes ids of the vectors without a failure, and leaves exactly the other ids below `n`.
pub exclude_lem :
    (n : ℕ) (xs : List ℕ)
    → n ≤ max_id
    → IsIdList n xs
    → (exclude n xs ≡ some (complement n 0 xs))
      × IsIdList n (complement n 0 xs)
      × ((z : ℕ) → z < n → has (complement n 0 xs) z ≡ not (has xs z))
unfolding exclude
exclude_lem n xs h i =
    let few : leb (length xs) n ≡ true =
      ground (arith, length-IsAscendingFrom n 0 xs i.ascending i.valid) in
    (
      rw few refl,
      record {
        ascending = IsAscendingFrom-complement n h 0 xs i.ascending i.valid;
        valid = AreValid-complement n h 0 xs i.ascending i.valid;
      },
      λ z hz. ground (arith, has-complement n h 0 xs z i.ascending i.valid hz),
    )

pub IsIdList-or :
    (n : ℕ) (xs ys : List ℕ) → IsIdList n xs → IsIdList n ys → IsIdList n (or_sorted_unique xs ys)
IsIdList-or n xs ys i j = record {
  ascending = (or_sorted_unique-union xs ys 0 i.ascending j.ascending).0;
  valid = λ z h.
      ground (arith, or_sorted_unique-union xs ys z i.ascending j.ascending, i.valid z, j.valid z);
}

pub IsIdList-and :
    (n : ℕ) (xs ys : List ℕ) → IsIdList n xs → IsIdList n ys → IsIdList n (and_sorted_unique xs ys)
IsIdList-and n xs ys i j = record {
  ascending = (and_sorted_unique-intersection xs ys 0 i.ascending j.ascending).0;
  valid = λ z h.
      ground (arith, and_sorted_unique-intersection xs ys z i.ascending j.ascending, i.valid z);
}

pub IsIdList-nil : (n : ℕ) → IsIdList n []
unfolding has
IsIdList-nil n = record { ascending = tt; valid = λ z h. absurd (cc h) }

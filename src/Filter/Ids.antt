-- ===== src/Filter/Ids.antt =====
-- Lists of vector ids, which the filters keep ascending, and the merge loops of
-- `include/filter/filter_utils.h`.
use pipe_ann.Base.{
  ℕ, suc, ◌≤◌, ◌<◌, compare, Ordering, ◌≡◌, refl, Bool, false, ◌&&◌, ◌||◌, List, [], ◌∷◌, arith,
  ◌==◌,
}

abbrev pub VectorIdList : Type 0
VectorIdList = List ℕ

-- `std::find(ids.begin(), ids.end(), x) != ids.end()`; on an ascending list also
-- `std::binary_search`.
unfoldable pub has : List ℕ → ℕ → Bool
has [] x = false
has (y ∷ ys) x = (y == x) || has ys x

-- Ascending, with no id twice, and none below `lo`.
abbrev pub IsAscendingFrom : ℕ → List ℕ → Type 0
IsAscendingFrom lo [] = Unit
IsAscendingFrom lo (x ∷ xs) = (lo ≤ x) × IsAscendingFrom (suc x) xs

abbrev pub IsAscending : List ℕ → Type 0
IsAscending xs = IsAscendingFrom 0 xs

-- The loop over both lists, with the two copies of what is left of one of them.
unfoldable pub or_sorted_unique : List ℕ → List ℕ → List ℕ
or_sorted_unique [] b = b
or_sorted_unique (x ∷ a) [] = x ∷ a
or_sorted_unique (x ∷ a) (y ∷ b) = elim (compare x y) [
  | Ordering.lt ↦ x ∷ or_sorted_unique a (y ∷ b)
  | Ordering.gt ↦ y ∷ or_sorted_unique (x ∷ a) b
  | Ordering.eq ↦ x ∷ or_sorted_unique a b
]

unfoldable pub and_sorted_unique : List ℕ → List ℕ → List ℕ
and_sorted_unique [] b = []
and_sorted_unique (x ∷ a) [] = []
and_sorted_unique (x ∷ a) (y ∷ b) = elim (compare x y) [
  | Ordering.lt ↦ and_sorted_unique a (y ∷ b)
  | Ordering.gt ↦ and_sorted_unique (x ∷ a) b
  | Ordering.eq ↦ x ∷ and_sorted_unique a b
]

pub IsAscendingFrom-weaken :
    (m n : ℕ) (xs : List ℕ) → m ≤ n → IsAscendingFrom n xs → IsAscendingFrom m xs
IsAscendingFrom-weaken m n [] h d = tt
IsAscendingFrom-weaken m n (x ∷ xs) h d = (omega arith, d.1)

pub has_below : (lo x : ℕ) (xs : List ℕ) → IsAscendingFrom lo xs → x < lo → has xs x ≡ false
unfolding has
has_below lo x [] d h = refl
has_below lo x (y ∷ ys) d h = ground (arith, has_below (suc y) x ys d.1 (omega arith))

lower : (lo x : ℕ) (xs : List ℕ) → IsAscendingFrom lo (x ∷ xs) → IsAscendingFrom lo xs
lower lo x xs d = IsAscendingFrom-weaken lo (suc x) xs (omega arith) d.1

IsAscendingFrom-or :
    (lo : ℕ) (a b : List ℕ)
    → IsAscendingFrom lo a
    → IsAscendingFrom lo b
    → IsAscendingFrom lo (or_sorted_unique a b)
unfolding or_sorted_unique
IsAscendingFrom-or lo [] b da db = db
IsAscendingFrom-or lo (x ∷ a) [] da db = da
IsAscendingFrom-or lo (x ∷ a) (y ∷ b) da db = ground (
  arith,
  λ (p : x < y). IsAscendingFrom-or (suc x) a (y ∷ b) da.1 (p, db.1),
  λ (p : y < x). IsAscendingFrom-or (suc y) (x ∷ a) b (p, da.1) db.1,
  λ (p : x ≡ y). IsAscendingFrom-or (suc x) a b da.1 (rw p db.1),
)

IsAscendingFrom-and :
    (lo : ℕ) (a b : List ℕ)
    → IsAscendingFrom lo a
    → IsAscendingFrom lo b
    → IsAscendingFrom lo (and_sorted_unique a b)
unfolding and_sorted_unique
IsAscendingFrom-and lo [] b da db = tt
IsAscendingFrom-and lo (x ∷ a) [] da db = tt
IsAscendingFrom-and lo (x ∷ a) (y ∷ b) da db = ground (
  arith,
  λ (p : x < y). IsAscendingFrom-and lo a (y ∷ b) (lower lo x a da) db,
  λ (p : y < x). IsAscendingFrom-and lo (x ∷ a) b da (lower lo y b db),
  λ (p : x ≡ y). IsAscendingFrom-and (suc x) a b da.1 (rw p db.1),
)

has-or : (a b : List ℕ) (z : ℕ) → has (or_sorted_unique a b) z ≡ (has a z || has b z)
unfolding or_sorted_unique has
has-or [] b z = refl
has-or (x ∷ a) [] z = ground arith
has-or (x ∷ a) (y ∷ b) z = ground (arith, has-or a (y ∷ b) z, has-or (x ∷ a) b z, has-or a b z)

has-and :
    (lo : ℕ) (a b : List ℕ) (z : ℕ)
    → IsAscendingFrom lo a
    → IsAscendingFrom lo b
    → has (and_sorted_unique a b) z ≡ (has a z && has b z)
unfolding and_sorted_unique has
has-and lo [] b z da db = refl
has-and lo (x ∷ a) [] z da db = ground arith
has-and lo (x ∷ a) (y ∷ b) z da db = ground (
  arith,
  λ (p : x < y). has-and (suc x) a (y ∷ b) z da.1 (p, db.1),
  λ (p : y < x). has-and (suc y) (x ∷ a) b z (p, da.1) db.1,
  λ (p : x ≡ y). has-and (suc x) a b z da.1 (rw p db.1),
  λ (p : z < suc x). has_below (suc x) z a da.1 p,
  λ (p : z < suc y). has_below (suc y) z b db.1 p,
)

-- Of two ascending lists `or_sorted_unique` makes an ascending list, and it holds an id exactly when
-- one of them does.
pub or_sorted_unique-union :
    (a b : List ℕ) (z : ℕ)
    → IsAscending a
    → IsAscending b
    → IsAscending (or_sorted_unique a b) × (has (or_sorted_unique a b) z ≡ (has a z || has b z))
or_sorted_unique-union a b z da db = (IsAscendingFrom-or 0 a b da db, has-or a b z)

-- Of two ascending lists `and_sorted_unique` makes an ascending list, and it holds an id exactly
-- when both of them do.
pub and_sorted_unique-intersection :
    (a b : List ℕ) (z : ℕ)
    → IsAscending a
    → IsAscending b
    → IsAscending (and_sorted_unique a b) × (has (and_sorted_unique a b) z ≡ (has a z && has b z))
and_sorted_unique-intersection a b z da db =
    (IsAscendingFrom-and 0 a b da db, has-and 0 a b z da db)

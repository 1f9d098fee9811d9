-- ===== src/Pool/Position/Search.antt =====
-- `insert_into_pool` finds the place by order: the binary search, the shift, and the whole.
use pipe_ann.Base.{
  ℕ, zero, suc, ◌+◌, ◌-◌, ◌/◌, ◌≤◌, ◌<◌, ◌≡◌, refl, ap, ◌⊎◌, inl, inr, true, false, List, [], ◌∷◌,
  ◌++◌, arith, ltb, Bool-cases, length, take, drop, length-append, length-take, length-drop,
  memmove,
}
use pipe_ann.Neighbor.{Neighbor, lt, gt}
use pipe_ann.Pool.Position.{at, bisect, equal_id, shift_in}

-- The bounds that the search keeps, and that stand next to one another at its end.
pub record Bracket (addr : List Neighbor) (nn : Neighbor) (left right l r : ℕ) : Type 0 where
  pub next : r ≡ suc l
  pub lower : left ≤ l
  pub upper : r ≤ right
  pub not_above : gt (at addr l) nn ≡ false
  pub not_below : (r ≡ right) ⊎ (gt (at addr r) nn ≡ true)

pub bisect-Bracket :
    (fuel : ℕ) (addr : List Neighbor) (nn : Neighbor) (left right : ℕ)
    → left < right
    → right ≤ left + fuel
    → gt (at addr left) nn ≡ false
    → Bracket addr nn left right
        (bisect fuel addr nn left right).0
        (bisect fuel addr nn left right).1
unfolding bisect
bisect-Bracket zero addr nn left right h m g = absurd (omega arith)
bisect-Bracket (suc fuel) addr nn left right h m g = elim (Bool-cases (ltb (left + 1) right)) [
  | inl wide ↦ elim (Bool-cases (gt (at addr ((left + right) / 2)) nn)) [
    | inl e ↦ ground (
      arith,
      bisect-Bracket fuel addr nn left ((left + right) / 2) (ground arith) (ground arith) g,
    )
    | inr e ↦ ground (
      arith,
      bisect-Bracket fuel addr nn ((left + right) / 2) right (ground arith) (ground arith) e,
    )
  ]
  | inr narrow ↦ ground arith
]

-- A fresh entry ends the loop at once.
pub equal_id_fresh :
    (addr : List Neighbor) (nn : Neighbor) (left : ℕ)
    → ((0 < left) → lt (at addr left) nn ≡ true)
    → equal_id addr nn left ≡ (false, left)
unfolding equal_id
equal_id_fresh addr nn zero h = refl
equal_id_fresh addr nn (suc left) h = rw (h (omega arith))

pub take-take_append {ℓ} :
    {A : Type ℓ} (k m : ℕ) (xs ys : List A)
    → k ≤ length xs
    → k ≤ m
    → take k (take m (take k xs ++ ys)) ≡ take k xs
take-take_append zero m xs ys h l = refl
take-take_append (suc k) zero xs ys h l = absurd (omega arith)
take-take_append (suc k) (suc m) [] ys h l = absurd (omega arith)
take-take_append (suc k) (suc m) (x ∷ xs) ys h l =
    ap (◌∷◌ x) (take-take_append k m xs ys (omega arith) (omega arith))

memmove-cons {ℓ} :
    {A : Type ℓ} (x : A) (xs : List A) (dst src n : ℕ)
    → memmove (x ∷ xs) (suc dst) (suc src) n ≡ x ∷ memmove xs dst src n
unfolding memmove
memmove-cons x xs dst src n = let e : suc dst + n ≡ suc (dst + n) = omega arith in rw e

shift_in-cons :
    (x : Neighbor) (xs : List Neighbor) (k pos : ℕ) (nn : Neighbor)
    → shift_in (x ∷ xs) (suc k) (suc pos) nn ≡ x ∷ shift_in xs k pos nn
shift_in-cons x xs k pos nn =
    let e : suc pos + 1 ≡ suc (pos + 1) = omega arith in
    let d : suc k - suc pos ≡ k - pos = omega arith in rw (e, d, memmove-cons)

-- The shift opens the place `pos`, and the window becomes one longer.
pub shift_in_lem :
    (addr : List Neighbor) (k pos : ℕ) (nn : Neighbor)
    → pos ≤ k
    → k < length addr
    → take (suc k) (shift_in addr k pos nn)
      ≡ take pos (take k addr) ++ (nn ∷ drop pos (take k addr))
unfolding memmove
shift_in_lem [] k pos nn h l = absurd (omega arith)
shift_in_lem (x ∷ xs) k zero nn h l =
    let e : k - 0 ≡ k = omega arith in
    rw e (ap (◌∷◌ nn) (take-take_append k (length xs) (x ∷ xs) _ (omega arith) (omega arith)))
shift_in_lem (x ∷ xs) zero (suc pos) nn h l = absurd (omega arith)
shift_in_lem (x ∷ xs) (suc k) (suc pos) nn h l =
    rw (shift_in-cons x xs k pos nn)
      (ap (◌∷◌ x) (shift_in_lem xs k pos nn (omega arith) (omega arith)))

pub length-memmove {ℓ} :
    {A : Type ℓ} (xs : List A) (dst src n : ℕ)
    → dst + n ≤ length xs
    → src + n ≤ length xs
    → length (memmove xs dst src n) ≡ length xs
unfolding memmove
length-memmove xs dst src n h k = omega (
  arith,
  length-take (length xs) (take dst xs ++ (take n (drop src xs) ++ drop (dst + n) xs)),
  length-append (take dst xs) (take n (drop src xs) ++ drop (dst + n) xs),
  length-append (take n (drop src xs)) (drop (dst + n) xs),
  length-take dst xs,
  length-take n (drop src xs),
  length-drop src xs,
  length-drop (dst + n) xs,
)

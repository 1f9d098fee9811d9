-- ===== src/Pool/Window.antt =====
-- `reset`, `drop_front`, and runs of `insert` from an empty pool.
use pipe_ann.Base.{
  ℕ, zero, suc, ◌+◌, ◌-◌, ◌≤◌, ◌<◌, max, ◌≡◌, refl, sym, ap, ◌∙◌, ◌≢◌, inl, inr, List, [], ◌∷◌,
  arith, Bool-cases, All, length, take, drop, length-drop, length-replicate, take_all, memmove,
  All-take,
}
use pipe_ann.Neighbor.{Neighbor, lt}
use pipe_ann.Pool.{Pool, live, reset, drop_front, insert}
use pipe_ann.Pool.Position.{placeholder}
use pipe_ann.Pool.Position.Order.{IsSorted, IsFresh, ordered_insert}
use pipe_ann.Pool.Position.Search.{length-memmove, take-take_append}
use pipe_ann.Pool.Insert.{IsValid, length-live, insert-IsValid, insert-Refines, Refines, take-take}

pub reset-IsValid : (l_pool capacity : ℕ) → 0 < l_pool → IsValid (reset l_pool capacity)
unfolding reset live
reset-IsValid l_pool capacity h = record {
  capacity = h;
  room = omega (arith, length-replicate (max capacity (l_pool + 1)) placeholder);
  bounded = omega arith;
  sorted = tt;
  unvisited_in = omega arith;
  settled = tt;
  send_in = omega arith;
  issued = tt;
}

-- The pool after the candidates of a list, in their order.
unfoldable pub insert_all : Pool → List Neighbor → Pool
insert_all p [] = p
insert_all p (n ∷ ns) = insert_all (insert p n).0 ns

-- All candidates in order, with none evicted.
unfoldable pub insert_each : List Neighbor → List Neighbor → List Neighbor
insert_each xs [] = xs
insert_each xs (n ∷ ns) = insert_each (ordered_insert n xs) ns

take-ordered_insert-take :
    (l : ℕ) (n : Neighbor) (xs : List Neighbor)
    → take l (ordered_insert n (take l xs)) ≡ take l (ordered_insert n xs)
unfolding ordered_insert
take-ordered_insert-take zero n xs = refl
take-ordered_insert-take (suc l) n [] = refl
take-ordered_insert-take (suc l) n (x ∷ xs) = elim (Bool-cases (lt x n)) [
  | inl e ↦ rw e (ap (◌∷◌ x) (take-ordered_insert-take l n xs))
  | inr e ↦ rw e (ap (◌∷◌ n) (cut l xs))
]
  where
    cut : (m : ℕ) (ys : List Neighbor) → take m (x ∷ take m ys) ≡ take m (x ∷ ys)
    cut zero ys = refl
    cut (suc m) ys = ap (◌∷◌ x) (take-take m (suc m) ys (omega arith))

-- An evicted candidate never comes back among the l closest.
take-insert_each :
    (l : ℕ) (xs ys ns : List Neighbor)
    → take l xs ≡ take l ys
    → take l (insert_each xs ns) ≡ take l (insert_each ys ns)
unfolding insert_each
take-insert_each l xs ys [] h = h
take-insert_each l xs ys (n ∷ ns) h =
    take-insert_each l (ordered_insert n xs) (ordered_insert n ys) ns (
      sym (take-ordered_insert-take l n xs)
      ∙ (ap (λ t. take l (ordered_insert n t)) h ∙ take-ordered_insert-take l n ys))

abbrev pub AreDistinct : List Neighbor → Type 0
AreDistinct [] = Unit
AreDistinct (n ∷ ns) = All (λ m. m.id ≢ n.id) ns × AreDistinct ns

-- No candidate of the list has an id of the window.
abbrev pub AreNew : List Neighbor → List Neighbor → Type 0
AreNew [] xs = Unit
AreNew (n ∷ ns) xs = IsFresh n xs × AreNew ns xs

fresh_in :
    (m n : Neighbor) (xs : List Neighbor)
    → m.id ≢ n.id
    → IsFresh m xs
    → IsFresh m (ordered_insert n xs)
unfolding ordered_insert
fresh_in m n [] e f = ((λ q. e (sym q)), tt)
fresh_in m n (x ∷ xs) e f = elim (Bool-cases (lt x n)) [
  | inl t ↦ rw t (f.0, fresh_in m n xs e f.1)
  | inr t ↦ rw t ((λ q. e (sym q)), f)
]

new_in :
    (n : Neighbor) (ns xs : List Neighbor) (l : ℕ)
    → All (λ m. m.id ≢ n.id) ns
    → AreNew ns xs
    → AreNew ns (take l (ordered_insert n xs))
new_in n [] xs l d a = tt
new_in n (m ∷ ns) xs l d a = (
  All-take (λ x. x.id ≢ m.id) l (ordered_insert n xs) (fresh_in m n xs d.0 a.0),
  new_in n ns xs l d.1 a.1,
)

-- On a valid pool, a run of `insert` on candidates whose ids are distinct, and are not in the pool,
-- keeps the pool valid and leaves the `l_pool` closest of all candidates.
pub insert_all-closest :
    (p : Pool) (ns : List Neighbor)
    → IsValid p
    → AreDistinct ns
    → AreNew ns (live p)
    → IsValid (insert_all p ns) × (live (insert_all p ns) ≡ take p.l_pool (insert_each (live p) ns))
unfolding insert_all insert_each
insert_all-closest p [] v d a =
    (v, sym (take_all p.l_pool (live p) (omega (arith, length-live p v, v.bounded))))
insert_all-closest p (n ∷ ns) v d a =
    let step : Refines p n v a.0 (insert p n).0 (insert p n).1 = insert-Refines p n v a.0 in
    let rest : IsValid (insert_all (insert p n).0 ns)
        × (live (insert_all (insert p n).0 ns)
            ≡ take (insert p n).0.l_pool (insert_each (live (insert p n).0) ns)) =
      insert_all-closest (insert p n).0 ns (insert-IsValid p n v a.0) d.1
        (rw step.contents (new_in n ns (live p) p.l_pool d.0 a.1)) in
    (
      rest.0,
      rest.1
          ∙ rw (step.same_pool, step.contents)
              (take-insert_each p.l_pool (take p.l_pool (ordered_insert n (live p)))
                (ordered_insert n (live p)) ns
                (take-take p.l_pool p.l_pool (ordered_insert n (live p)) (omega arith))),
    )

take_nil {ℓ} : {A : Type ℓ} (m : ℕ) → take {A = A} m [] ≡ []
take_nil zero = refl
take_nil (suc m) = refl

take-drop {ℓ} : {A : Type ℓ} (n k : ℕ) (xs : List A) → take (k - n) (drop n xs) ≡ drop n (take k xs)
take-drop zero k xs = let e : k - 0 ≡ k = omega arith in rw e
take-drop (suc n) zero xs = let e : 0 - suc n ≡ 0 = omega arith in rw e
take-drop (suc n) (suc k) [] = take_nil (suc k - suc n)
take-drop (suc n) (suc k) (x ∷ xs) =
    let e : suc k - suc n ≡ k - n = omega arith in rw e (take-drop n k xs)

-- `drop_front` leaves the rest of the window.
pub live-drop_front :
    (p : Pool) (n : ℕ)
    → n ≤ p.cur_list_size
    → p.cur_list_size ≤ length p.retset
    → live (drop_front p n) ≡ drop n (live p)
unfolding live drop_front memmove
live-drop_front p n h k =
    take-take_append (p.cur_list_size - n) (length p.retset) (drop n p.retset) _
      (omega (arith, length-drop n p.retset)) (omega arith)
    ∙ take-drop n p.cur_list_size p.retset

IsSorted-drop : (n : ℕ) (xs : List Neighbor) → IsSorted xs → IsSorted (drop n xs)
IsSorted-drop zero xs s = s
IsSorted-drop (suc n) [] s = tt
IsSorted-drop (suc n) (x ∷ xs) s = IsSorted-drop n xs s.1

drop_front-IsValid : (p : Pool) (n : ℕ) → IsValid p → n ≤ p.cur_list_size → IsValid (drop_front p n)
unfolding drop_front
drop_front-IsValid p n v h = record {
  capacity = v.capacity;
  room = omega (
    arith,
    v.room,
    v.bounded,
    length-memmove p.retset 0 n (p.cur_list_size - n) (omega (arith, v.room, v.bounded))
        (omega (arith, v.room, v.bounded)),
  );
  bounded = omega (arith, v.bounded);
  sorted =
      rw (live-drop_front p n h (omega (arith, v.room, v.bounded)))
        (IsSorted-drop n (live p) v.sorted);
  unvisited_in = omega arith;
  settled = tt;
  send_in = omega arith;
  issued = tt;
}

-- Promoting the front of a pool leaves it valid, with the other candidates in their order.
pub drop_front-rest :
    (p : Pool) (n : ℕ)
    → IsValid p
    → n ≤ p.cur_list_size
    → IsValid (drop_front p n) × (live (drop_front p n) ≡ drop n (live p))
drop_front-rest p n v h =
    (drop_front-IsValid p n v h, live-drop_front p n h (omega (arith, v.room, v.bounded)))

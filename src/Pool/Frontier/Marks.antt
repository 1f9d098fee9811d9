-- ===== src/Pool/Frontier/Marks.antt =====
-- A walk from a marker, over the window of a valid pool; marking an entry keeps the pool valid.
use pipe_ann.Base.{
  ℕ, zero, suc, ◌-◌, ◌≤◌, ◌<◌, ◌≡◌, refl, sym, ap, ◌∙◌, Bool, true, not, none, some, List, [], ◌∷◌,
  arith, dec_lt, ltb, if◌then◌else◌, All, length, set, take, length-set, length-take, get_or-take,
  All-get_or,
}
use pipe_ann.Neighbor.{Neighbor, lt, lt_of_key, lt_of_key_right}
use pipe_ann.Pool.{Pool, live, skip_while}
use pipe_ann.Pool.Position.{at, placeholder}
use pipe_ann.Pool.Position.Order.{IsSorted}
use pipe_ann.Pool.Insert.{IsValid, length-live}
use pipe_ann.Pool.Frontier.Scan.{first_such, first_such_lem, skip_while_lem, Stops}

All-of_at {ℓ} :
    (P : Neighbor → Type ℓ) (xs : List Neighbor)
    → ((k : ℕ) → k < length xs → P (at xs k))
    → All P xs
All-of_at P [] h = tt
All-of_at P (x ∷ xs) h = (h 0 (omega arith), All-of_at P xs (λ k l. h (suc k) (omega arith)))

module _ (p : Pool) (v : IsValid p) (settled test : Neighbor → Bool)
    (opposite : (n : Neighbor) → settled n ≡ not (test n)) (m : ℕ) (within : m ≤ p.cur_list_size)
    (prefix : All (λ n. settled n ≡ true) (take m p.retset)) where
  abbrev stop : ℕ
  stop = skip_while settled (p.cur_list_size - m) p.retset m

  stops : Stops settled p.retset m (p.cur_list_size - m) stop
  stops = skip_while_lem settled (p.cur_list_size - m) p.retset m

  pub stop-le : stop ≤ p.cur_list_size
  stop-le = omega (arith, stops.to)

  passed : (k : ℕ) → k < stop → settled (at p.retset k) ≡ true
  passed k h = elim (dec_lt k m) [
    | yes l ↦ rw (← get_or-take m p.retset k placeholder l) (
        All-get_or (λ n. settled n ≡ true) (take m p.retset) k placeholder prefix
          (omega (arith, length-take m p.retset, v.bounded, v.room)))
    | no l ↦ stops.passed k (omega arith) h
  ]

  pub stop_prefix : All (λ n. settled n ≡ true) (take stop p.retset)
  stop_prefix = All-of_at _ (take stop p.retset) (λ k l.
      let h : k < stop = omega (arith, length-take stop p.retset) in
      rw (get_or-take stop p.retset k placeholder h) (passed k h))

  at-live : (k : ℕ) → k < p.cur_list_size → at (live p) k ≡ at p.retset k
  unfolding live
  at-live k h = get_or-take p.cur_list_size p.retset k placeholder h

  pub stop-first : first_such test (live p) ≡ (if ltb stop p.cur_list_size then some stop else none)
  stop-first =
      first_such_lem test (live p) stop (omega (arith, stop-le, length-live p v))
        (λ k h.
          rw (at-live k (omega (arith, stop-le)))
            (ground (arith, opposite (at p.retset k), passed k h)))
        (λ h.
          let l : stop < p.cur_list_size = omega (arith, length-live p v) in
          rw (at-live stop l) (
            ground (arith, opposite (at p.retset stop), stops.stopped (omega (arith, stops.from)))))
      ∙ ap (λ t. if ltb stop t then some stop else none) (length-live p v)

module _ {ℓ} (P : Neighbor → Type ℓ) where
  All-set :
      (xs : List Neighbor) (i : ℕ) (n : Neighbor)
      → All P xs
      → (i < length xs → P n)
      → All P (set xs i n)
  All-set [] i n h f = tt
  All-set (x ∷ xs) zero n h f = (f (omega arith), h.1)
  All-set (x ∷ xs) (suc i) n h f = (h.0, All-set xs i n h.1 (λ l. f (omega arith)))

pub take-set {ℓ} :
    {A : Type ℓ} (m : ℕ) (xs : List A) (i : ℕ) (n : A) → take m (set xs i n) ≡ set (take m xs) i n
take-set zero xs i n = refl
take-set (suc m) [] i n = refl
take-set (suc m) (x ∷ xs) zero n = refl
take-set (suc m) (x ∷ xs) (suc i) n = ap (◌∷◌ x) (take-set m xs i n)

-- An entry with the key of the one that it replaces leaves the order as it was.
IsSorted-set :
    (xs : List Neighbor) (i : ℕ) (n : Neighbor)
    → n.id ≡ (at xs i).id
    → n.distance ≡ (at xs i).distance
    → IsSorted xs
    → IsSorted (set xs i n)
IsSorted-set [] i n e d s = tt
IsSorted-set (x ∷ xs) zero n e d s = (same xs s.0, s.1)
  where
    same : (ys : List Neighbor) → All (λ y. lt x y ≡ true) ys → All (λ y. lt n y ≡ true) ys
    same [] h = tt
    same (y ∷ ys) h = (lt_of_key n x y e d ∙ h.0, same ys h.1)
IsSorted-set (x ∷ xs) (suc i) n e d s = (replaced xs i e d s.0, IsSorted-set xs i n e d s.1)
  where
    replaced :
        (ys : List Neighbor) (j : ℕ)
        → n.id ≡ (at ys j).id
        → n.distance ≡ (at ys j).distance
        → All (λ y. lt x y ≡ true) ys
        → All (λ y. lt x y ≡ true) (set ys j n)
    replaced [] j e d h = tt
    replaced (y ∷ ys) zero e d h = (lt_of_key_right x n y e d ∙ h.0, h.1)
    replaced (y ∷ ys) (suc j) e d h = (h.0, replaced ys j e d h.1)

module _ (p : Pool) (v : IsValid p) (i : ℕ) (within : i < p.cur_list_size) (n : Neighbor) where
  at_taken : (m : ℕ) → i < length (take m p.retset) → at (take m p.retset) i ≡ at p.retset i
  at_taken m h = get_or-take m p.retset i placeholder (omega (arith, length-take m p.retset))

  kept :
      (P : Neighbor → Type 0) (m : ℕ)
      → (P (at p.retset i) → P n)
      → All P (take m p.retset)
      → All P (take m (set p.retset i n))
  kept P m f a = rw (take-set m p.retset i n) (
      All-set P (take m p.retset) i n a
        (λ h. f (rw (← at_taken m h) (All-get_or P (take m p.retset) i placeholder a h))))

  -- An entry may be marked as visited, or as read, wherever it stands.
  pub set-IsValid :
      n.id ≡ (at p.retset i).id
      → n.distance ≡ (at p.retset i).distance
      → ((at p.retset i).visited ≡ true → n.visited ≡ true)
      → (not (at p.retset i).flag ≡ true → not n.flag ≡ true)
      → IsValid (record p { retset = set p.retset i n })
  unfolding live
  set-IsValid e d vis fl = record {
    capacity = v.capacity;
    room = omega (arith, v.room, length-set p.retset i n);
    bounded = v.bounded;
    sorted = rw (take-set p.cur_list_size p.retset i n) (
        IsSorted-set (take p.cur_list_size p.retset) i n
          (e ∙ ap (λ t. t.id) (sym (get_or-take p.cur_list_size p.retset i placeholder within)))
          (d
            ∙ ap (λ t. t.distance)
                (sym (get_or-take p.cur_list_size p.retset i placeholder within)))
          v.sorted);
    unvisited_in = v.unvisited_in;
    settled = kept (λ x. x.visited ≡ true) p.first_unvisited vis v.settled;
    send_in = v.send_in;
    issued = kept (λ x. not x.flag ≡ true) p.send_marker fl v.issued;
  }

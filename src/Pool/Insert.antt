-- ===== src/Pool/Insert.antt =====
-- The pool's invariant, and `insert` against insertion by order.
use pipe_ann.Base.{
  ℕ, zero, suc, ◌+◌, ◌-◌, ◌≤◌, ◌<◌, min, ◌≡◌, refl, sym, ap, ◌∙◌, ◌≢◌, inl, inr, true, not, List,
  [], ◌∷◌, arith, ltb, ◌==◌, ltb→lt, ltb_false→le, ==→eq, Bool-cases, All, length, set, take,
  length-set, length-take, take_all, get_or-take, All-take, All-get_or,
}
use pipe_ann.Neighbor.{Neighbor, lt, ge, ge-eq-not_lt}
use pipe_ann.Pool.{Pool, live, worst, ensure_room, settle, insert_live, insert}
use pipe_ann.Pool.Position.{at, insert_into_pool}
use pipe_ann.Pool.Position.Order.{
  IsSorted, IsFresh, ordered_insert, rank, rank-le, insert_place, length-ordered_insert,
  take-ordered_insert, ordered_insert-IsSorted, IsSorted-take, lt_of_fresh,
}
use pipe_ann.Pool.Position.Place.{Inserted, insert_into_pool-Inserted}

-- Sorted and within its bounds; nothing unvisited stands before `first_unvisited`, and nothing
-- flagged for a read before `send_marker`.
pub record IsValid (p : Pool) : Type 0 where
  pub capacity : 0 < p.l_pool
  pub room : p.l_pool < length p.retset
  pub bounded : p.cur_list_size ≤ p.l_pool
  pub sorted : IsSorted (live p)
  pub unvisited_in : p.first_unvisited ≤ p.cur_list_size
  pub settled : All (λ n. n.visited ≡ true) (take p.first_unvisited p.retset)
  pub send_in : p.send_marker ≤ p.cur_list_size
  pub issued : All (λ n. not n.flag ≡ true) (take p.send_marker p.retset)

pub length-live : (p : Pool) → IsValid p → length (live p) ≡ p.cur_list_size
unfolding live
length-live p v = omega (arith, length-take p.cur_list_size p.retset, v.bounded, v.room)

pub take-take {ℓ} : {A : Type ℓ} (m n : ℕ) (xs : List A) → m ≤ n → take m (take n xs) ≡ take m xs
take-take zero n xs h = refl
take-take (suc m) zero xs h = absurd (omega arith)
take-take (suc m) (suc n) [] h = refl
take-take (suc m) (suc n) (x ∷ xs) h = ap (◌∷◌ x) (take-take m n xs (omega arith))

take-set_zero {ℓ} :
    {A : Type ℓ} {a : A} (xs : List A) → 0 < length xs → take 1 (set xs 0 a) ≡ a ∷ []
take-set_zero [] h = absurd (omega arith)
take-set_zero (x ∷ xs) h = refl

module _ (p : Pool) (nn : Neighbor) (v : IsValid p) (fresh : IsFresh nn (live p)) where
  placed :
      0 < p.cur_list_size
      → Inserted p.retset p.cur_list_size nn
          (insert_into_pool p.retset p.cur_list_size nn).0
          (insert_into_pool p.retset p.cur_list_size nn).1
  unfolding live
  placed pos =
      insert_into_pool-Inserted p.retset p.cur_list_size nn (omega (arith, v.room, v.bounded))
        v.sorted fresh pos

  -- What `insert` must leave: the closest entries of the union, and markers that are lowered to
  -- the place of the new entry.
  pub record Refines (q : Pool) (r : ℕ) : Type 0 where
    pub contents : live q ≡ take p.l_pool (ordered_insert nn (live p))
    pub same_pool : q.l_pool ≡ p.l_pool
    pub same_room : length q.retset ≡ length p.retset
    pub count : q.cur_list_size ≡ min p.l_pool (p.cur_list_size + 1)
    pub unvisited : q.first_unvisited ≡ min p.first_unvisited r
    pub send : q.send_marker ≡ min p.send_marker r
    pub place : r ≡ rank nn (live p)

  ensure_room_idle : (size : ℕ) (xs : List Neighbor) → size < length xs → ensure_room size xs ≡ xs
  unfolding ensure_room
  ensure_room_idle size xs h = ground arith

  settle-Refines :
      (xs : List Neighbor) (r : ℕ)
      → Inserted p.retset p.cur_list_size nn xs r
      → Refines (settle p xs r) r
  unfolding settle live
  settle-Refines xs r i = elim (Bool-cases (ltb p.cur_list_size p.l_pool)) [
    | inl e ↦
        let small : p.cur_list_size < p.l_pool = ltb→lt _ _ e in
        let idle : ensure_room (p.cur_list_size + 1) xs ≡ xs =
          ensure_room_idle (p.cur_list_size + 1) xs (omega (arith, v.room, i.size)) in
        let next : p.cur_list_size + 1 ≡ suc p.cur_list_size = omega arith in
        rw (e, idle)
          (record {
            contents =
                rw (next, i.window)
                  (sym (
                    take_all p.l_pool _ (
                      omega (
                        arith,
                        length-ordered_insert nn (take p.cur_list_size p.retset),
                        length-take p.cur_list_size p.retset,
                      ))));
            same_pool = refl;
            same_room = i.size;
            count = omega arith;
            unvisited = ground arith;
            send = refl;
            place = sym i.place;
          })
    | inr e ↦
        let at_end : p.cur_list_size ≡ p.l_pool = omega (arith, v.bounded, ltb_false→le _ _ e) in
        rw e (record {
          contents =
              sym (take-take p.cur_list_size (suc p.cur_list_size) xs (omega arith))
              ∙ rw i.window
                  (ap (λ t. take t (ordered_insert nn (take p.cur_list_size p.retset))) at_end);
          same_pool = refl;
          same_room = i.size;
          count = omega arith;
          unvisited = ground arith;
          send = refl;
          place = sym i.place;
        })
  ]

  insert_live-Refines : 0 < p.cur_list_size → Refines (insert_live p nn).0 (insert_live p nn).1
  unfolding insert_live
  insert_live-Refines pos = settle-Refines _ _ (placed pos)

  live_empty : p.cur_list_size ≡ 0 → live p ≡ []
  unfolding live
  live_empty z = ap (λ t. take t p.retset) z

  first_window :
      p.cur_list_size ≡ 0 → take 1 (set p.retset 0 nn) ≡ take p.l_pool (ordered_insert nn (live p))
  unfolding ordered_insert
  first_window z =
      take-set_zero p.retset (omega (arith, v.room))
      ∙ (sym (take_all p.l_pool (nn ∷ []) (omega (arith, v.capacity)))
          ∙ ap (λ t. take p.l_pool (ordered_insert nn t)) (sym (live_empty z)))

  first-Refines :
      p.cur_list_size ≡ 0
      → Refines
          (record p {
            retset = set p.retset 0 nn;
            cur_list_size = 1;
            first_unvisited = 0;
            send_marker = 0;
          })
          0
  unfolding live
  first-Refines z = record {
    contents = first_window z;
    same_pool = refl;
    same_room = length-set p.retset 0 nn;
    count = omega (arith, v.capacity);
    unvisited = omega (arith, v.unvisited_in);
    send = omega (arith, v.send_in);
    place = omega (arith, rank-le nn (live p), length-live p v);
  }

  last_below :
      p.cur_list_size ≡ p.l_pool
      → ge nn (worst p) ≡ true
      → (i : ℕ) → suc i ≡ p.cur_list_size
      → lt (at (live p) i) nn ≡ true
  unfolding worst live
  last_below e g i z =
      let q : i ≡ p.cur_list_size - 1 = omega arith in
      rw (get_or-take p.cur_list_size p.retset i _ (omega arith), q)
        (lt_of_fresh nn (at p.retset (p.cur_list_size - 1)) (λ same. apart (sym same))
          (ground (arith, ge-eq-not_lt nn (at p.retset (p.cur_list_size - 1)))))
    where
      apart : (at p.retset (p.cur_list_size - 1)).id ≢ nn.id
      apart = rw (← get_or-take p.cur_list_size p.retset (p.cur_list_size - 1) _ (omega arith)) (
          All-get_or (λ x. x.id ≢ nn.id) (live p) (p.cur_list_size - 1) _ fresh
            (omega (arith, length-live p v)))

  rank_of_rejected :
      p.cur_list_size ≡ p.l_pool → ge nn (worst p) ≡ true → rank nn (live p) ≡ p.l_pool
  rank_of_rejected e g =
      (insert_place nn (live p) p.cur_list_size v.sorted (omega (arith, length-live p v))
        (last_below e g) (λ m. absurd (omega (arith, length-live p v)))).1
      ∙ e

  rejected-Refines :
      0 < p.cur_list_size → p.cur_list_size ≡ p.l_pool → ge nn (worst p) ≡ true → Refines p p.l_pool
  rejected-Refines pos e g = record {
    contents = sym (
        take-ordered_insert nn (live p) p.l_pool (omega (arith, rank_of_rejected e g))
        ∙ take_all p.l_pool (live p) (omega (arith, length-live p v)));
    same_pool = refl;
    same_room = refl;
    count = omega arith;
    unvisited = omega (arith, v.unvisited_in);
    send = omega (arith, v.send_in);
    place = sym (rank_of_rejected e g);
  }

  -- `insert` of a new id leaves the `l_pool` closest entries of the union in order, answers with the
  -- place of the entry, and lowers the markers to it; a full pool rejects only what ranks last.
  pub insert-Refines : Refines (insert p nn).0 (insert p nn).1
  unfolding insert
  insert-Refines = elim (Bool-cases (p.cur_list_size == 0)) [
    | inl z ↦ rw z (first-Refines (==→eq _ _ z))
    | inr n ↦
        let pos : 0 < p.cur_list_size = ground arith in
        elim (Bool-cases (ge nn (worst p))) [
          | inl g ↦ elim (Bool-cases (p.cur_list_size == p.l_pool)) [
            | inl e ↦ rw (n, g, e) (rejected-Refines pos (==→eq _ _ e) g)
            | inr e ↦ rw (n, g, e) (insert_live-Refines pos)
          ]
          | inr g ↦ rw (n, g) (insert_live-Refines pos)
        ]
  ]

  -- `insert` leaves the entries that stand before the new one.
  prefix_kept :
      (j : ℕ)
      → j ≤ p.cur_list_size
      → j ≤ (insert p nn).1
      → take j (insert p nn).0.retset ≡ take j p.retset
  unfolding live
  prefix_kept j h k =
      sym (
        take-take j (insert p nn).0.cur_list_size (insert p nn).0.retset
          (omega (arith, insert-Refines.count, v.bounded)))
      ∙ (ap (take j) insert-Refines.contents
          ∙ (take-take j p.l_pool (ordered_insert nn (live p)) (omega (arith, v.bounded))
              ∙ (take-ordered_insert nn (live p) j (omega (arith, insert-Refines.place))
                  ∙ take-take j p.cur_list_size p.retset h)))

  -- `insert` of a new id keeps the pool valid.
  pub insert-IsValid : IsValid (insert p nn).0
  insert-IsValid = record {
    capacity = omega (arith, v.capacity, insert-Refines.same_pool);
    room = omega (arith, v.room, insert-Refines.same_pool, insert-Refines.same_room);
    bounded = omega (arith, v.bounded, insert-Refines.same_pool, insert-Refines.count);
    sorted = rw insert-Refines.contents (
        IsSorted-take p.l_pool (ordered_insert nn (live p))
          (ordered_insert-IsSorted nn (live p) v.sorted fresh));
    unvisited_in =
        omega (arith, v.unvisited_in, v.bounded, insert-Refines.unvisited, insert-Refines.count);
    settled =
        marked (λ n. n.visited ≡ true) p.first_unvisited (insert p nn).0.first_unvisited
          insert-Refines.unvisited v.unvisited_in v.settled;
    send_in = omega (arith, v.send_in, v.bounded, insert-Refines.send, insert-Refines.count);
    issued =
        marked (λ n. not n.flag ≡ true) p.send_marker (insert p nn).0.send_marker
          insert-Refines.send v.send_in v.issued;
  }
    where
      marked :
          (P : Neighbor → Type 0) (m m' : ℕ)
          → m' ≡ min m (insert p nn).1
          → m ≤ p.cur_list_size
          → All P (take m p.retset)
          → All P (take m' (insert p nn).0.retset)
      marked P m m' e h a =
          rw (prefix_kept m' (omega arith) (omega arith), ← take-take m' m p.retset (omega arith))
            (All-take P m' (take m p.retset) a)

-- ===== src/Pool/Duplicate.antt =====
-- `insert` of a candidate that is in the window already.
use pipe_ann.Base.{
  ℕ, zero, suc, ◌+◌, ◌-◌, ◌≤◌, ◌<◌, ◌≡◌, refl, sym, ◌∙◌, ◌⊎◌, inl, inr, Bool, true, false, ◌||◌,
  List, [], ◌∷◌, arith, dec_lt, ◌==◌, le→ltb_false, trichotomy, length, take, get_or-take,
}
use pipe_ann.Neighbor.{Neighbor, lt, gt, lt_asymm, gt-eq-lt, lt_of_key, lt_of_key_right}
use pipe_ann.Pool.{Pool, live, settle, insert_live, insert, ensure_room}
use pipe_ann.Pool.Position.{at, placeholder, bisect, insert_between, insert_into_pool}
use pipe_ann.Pool.Position.Order.{IsSorted, All-at}
use pipe_ann.Pool.Position.Search.{Bracket, bisect-Bracket}
use pipe_ann.Pool.Insert.{IsValid, length-live}

sorted_at :
    (xs : List Neighbor) (i j : ℕ)
    → IsSorted xs
    → i < j
    → j < length xs
    → lt (at xs i) (at xs j) ≡ true
sorted_at [] i j s h l = absurd (omega arith)
sorted_at (x ∷ xs) zero zero s h l = absurd (omega arith)
sorted_at (x ∷ xs) zero (suc j) s h l = All-at x xs j s.0 (omega arith)
sorted_at (x ∷ xs) (suc i) zero s h l = absurd (omega arith)
sorted_at (x ∷ xs) (suc i) (suc j) s h l = sorted_at xs i j s.1 (omega arith) (omega arith)

bisect_narrow :
    (fuel : ℕ) (xs : List Neighbor) (nn : Neighbor) (left right : ℕ)
    → right ≤ 1
    → bisect fuel xs nn left right ≡ (left, right)
unfolding bisect
bisect_narrow zero xs nn left right h = refl
bisect_narrow (suc fuel) xs nn left right h = rw (le→ltb_false 1 right h)

module _ (p : Pool) (nn : Neighbor) (v : IsValid p) (i : ℕ) (within : i < p.cur_list_size)
    (same_id : (at p.retset i).id ≡ nn.id)
    (same_distance : (at p.retset i).distance ≡ nn.distance) where
  abbrev addr : List Neighbor
  addr = p.retset

  abbrev k : ℕ
  k = p.cur_list_size

  ascending : (a b : ℕ) → a < b → b < k → lt (at addr a) (at addr b) ≡ true
  unfolding live
  ascending a b h l =
      rw (← get_or-take k addr a placeholder (omega arith), ← get_or-take k addr b placeholder l)
        (sorted_at (take k addr) a b v.sorted h (omega (arith, length-live p v)))

  after : (j : ℕ) → i < j → j < k → lt nn (at addr j) ≡ true
  after j h l = sym (lt_of_key (at addr i) nn (at addr j) same_id same_distance) ∙ ascending i j h l

  before : (j : ℕ) → j < i → lt (at addr j) nn ≡ true
  before j h =
      sym (lt_of_key_right (at addr j) (at addr i) nn same_id same_distance)
      ∙ ascending j i h within

  itself : (lt (at addr i) nn ≡ false) × (lt nn (at addr i) ≡ false)
  unfolding lt
  itself = (ground arith, ground arith)

  at_itself : (j : ℕ) → j ≡ i → (lt (at addr j) nn ≡ false) × (lt nn (at addr j) ≡ false)
  at_itself j e = rw e itself

  not_above : gt (at addr 0) nn ≡ false
  not_above = gt-eq-lt (at addr 0) nn ∙ elim (dec_lt 0 i) [
    | yes h ↦ lt_asymm (at addr 0) nn (before 0 h)
    | no h ↦ (at_itself 0 (omega arith)).1
  ]

  not_below : lt (at addr (k - 1)) nn ≡ false
  not_below = elim (dec_lt i (k - 1)) [
    | yes h ↦ lt_asymm nn (at addr (k - 1)) (after (k - 1) h (omega arith))
    | no h ↦ (at_itself (k - 1) (omega arith)).0
  ]

  -- The bracket of the search has the entry at one of its ends.
  caught : (l r : ℕ) → Bracket addr nn 0 (k - 1) l r → (l ≡ i) ⊎ (r ≡ i)
  caught l r b = elim (trichotomy i l) [
    | inl h ↦ absurd (ground (arith, after l h (omega arith), gt-eq-lt (at addr l) nn))
    | inr (inl e) ↦ inl (sym e)
    | inr (inr h) ↦ elim (dec_lt r i) [
      | yes m ↦
          absurd (ground (arith, before r m, gt-eq-lt (at addr r) nn, lt_asymm (at addr r) nn))
      | no m ↦ inr (omega arith)
    ]
  ]

  same_at : (j : ℕ) → j ≡ i → ((at addr j).id == nn.id) ≡ true
  same_at j e = rw e (ground arith)

  or_true : (a b c : Bool) → c ≡ true → (a || (b || c)) ≡ true
  or_true a b c h = ground arith

  detected_at : (l r : ℕ) → (l ≡ i) ⊎ (r ≡ i) → insert_between addr k nn l r ≡ (addr, k + 1)
  unfolding insert_between
  detected_at l r (inr e) = rw (or_true _ _ _ (same_at r e))
  detected_at zero r (inl e) = rw (same_at 0 e)
  detected_at (suc l) r (inl e) = rw ((at_itself (suc l) e).0, same_at (suc l) e)

  bounds_caught : (bisect k addr nn 0 (k - 1)).0 ≡ i ⊎ (bisect k addr nn 0 (k - 1)).1 ≡ i
  unfolding bisect
  bounds_caught = elim (dec_lt 0 (k - 1)) [
    | yes h ↦ caught _ _ (bisect-Bracket k addr nn 0 (k - 1) h (omega arith) not_above)
    | no h ↦ inl (rw (bisect_narrow k addr nn 0 (k - 1) (omega arith)) (omega arith))
  ]

  detected : insert_into_pool addr k nn ≡ (addr, k + 1)
  unfolding insert_into_pool
  detected = rw (not_above, not_below) (detected_at _ _ bounds_caught)

  settled_grows :
      p.cur_list_size < p.l_pool → settle p addr (k + 1) ≡ record p { cur_list_size = k + 1 }
  unfolding settle ensure_room
  settled_grows h = ground (arith, v.room, v.unvisited_in, v.send_in)

  -- A duplicate in a pool with room: the answer is the sentinel, and the window still grows.
  pub insert_duplicate :
      p.cur_list_size < p.l_pool
      → insert p nn ≡ (record p { cur_list_size = p.cur_list_size + 1 }, p.cur_list_size + 1)
  unfolding insert insert_live
  insert_duplicate h = ground (arith, detected, settled_grows h)

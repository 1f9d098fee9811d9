-- ===== src/Pool/Position/Place.antt =====
-- `insert_into_pool` puts a new id at its place by order and moves nothing else.
use pipe_ann.Base.{
  ℕ, zero, suc, ◌+◌, ◌-◌, ◌≤◌, ◌<◌, ◌≡◌, refl, sym, ap, ◌∙◌, ◌≢◌, ◌⊎◌, inl, inr, true, false, List,
  [], ◌∷◌, ◌++◌, arith, dec_lt, ne→==_false, Bool-cases, length, set, take, drop, length-set,
  length-take, take_all, get_or-take, memmove, All-get_or,
}
use pipe_ann.Neighbor.{Neighbor, lt, gt, gt-eq-lt, lt_asymm, lt_total}
use pipe_ann.Pool.Position.{at, bisect, shift_in, insert_between, insert_into_pool}
use pipe_ann.Pool.Position.Order.{IsSorted, IsFresh, ordered_insert, rank, insert_place}
use pipe_ann.Pool.Position.Search.{
  Bracket, bisect-Bracket, equal_id_fresh, shift_in_lem, length-memmove,
}

pub record Inserted (addr : List Neighbor) (k : ℕ) (nn : Neighbor) (addr' : List Neighbor) (r : ℕ)
    : Type 0 where
  pub window : take (suc k) addr' ≡ ordered_insert nn (take k addr)
  pub place : rank nn (take k addr) ≡ r
  pub size : length addr' ≡ length addr

-- A write behind the window appends to it.
take-set_end {ℓ} :
    {A : Type ℓ} (xs : List A) (k : ℕ) (v : A)
    → k < length xs
    → take (suc k) (set xs k v) ≡ take k xs ++ (v ∷ [])
take-set_end [] k v h = absurd (omega arith)
take-set_end (x ∷ xs) zero v h = refl
take-set_end (x ∷ xs) (suc k) v h = ap (◌∷◌ x) (take-set_end xs k v (omega arith))

drop_all {ℓ} : {A : Type ℓ} (n : ℕ) (xs : List A) → length xs ≤ n → drop n xs ≡ []
drop_all zero [] h = refl
drop_all zero (x ∷ xs) h = absurd (omega arith)
drop_all (suc n) [] h = refl
drop_all (suc n) (x ∷ xs) h = drop_all n xs (omega arith)

module _ (addr : List Neighbor) (k : ℕ) (nn : Neighbor) (room : k < length addr)
    (sorted : IsSorted (take k addr)) (fresh : IsFresh nn (take k addr)) where
  at_window : (i : ℕ) → i < k → at (take k addr) i ≡ at addr i
  at_window i l = get_or-take k addr i _ l

  window_length : length (take k addr) ≡ k
  window_length = omega (arith, length-take k addr)

  fresh_at : (i : ℕ) → i < k → (at addr i).id ≢ nn.id
  fresh_at i l =
      rw (← at_window i l)
        (All-get_or (λ x. x.id ≢ nn.id) (take k addr) i _ fresh (omega (arith, window_length)))

  placed :
      (pos : ℕ)
      → pos ≤ k
      → ((i : ℕ) → suc i ≡ pos → lt (at addr i) nn ≡ true)
      → (pos < k → lt (at addr pos) nn ≡ false)
      → (take pos (take k addr) ++ (nn ∷ drop pos (take k addr)) ≡ ordered_insert nn (take k addr))
        × (rank nn (take k addr) ≡ pos)
  placed pos l below above =
      insert_place nn (take k addr) pos sorted (omega (arith, window_length))
        (λ i e. rw (at_window i (omega arith)) (below i e))
        (λ m. let m' : pos < k = omega (arith, window_length) in rw (at_window pos m') (above m'))

  shifted :
      (pos : ℕ)
      → pos ≤ k
      → ((i : ℕ) → suc i ≡ pos → lt (at addr i) nn ≡ true)
      → (pos < k → lt (at addr pos) nn ≡ false)
      → Inserted addr k nn (shift_in addr k pos nn) pos
  shifted pos l below above = record {
    window = shift_in_lem addr k pos nn l room ∙ (placed pos l below above).0;
    place = (placed pos l below above).1;
    size =
        length-set (memmove addr (pos + 1) pos (k - pos)) pos nn
        ∙ length-memmove addr (pos + 1) pos (k - pos) (omega arith) (omega arith);
  }

  appended : ((i : ℕ) → suc i ≡ k → lt (at addr i) nn ≡ true) → Inserted addr k nn (set addr k nn) k
  appended below = record {
    window =
        take-set_end addr k nn room
        ∙ (ap (λ t. t ++ (nn ∷ [])) (sym (take_all k (take k addr) (omega (arith, window_length))))
            ∙ (ap (λ t. take k (take k addr) ++ (nn ∷ t))
                  (sym (drop_all k (take k addr) (omega (arith, window_length))))
                ∙ at_end.0));
    place = at_end.1;
    size = length-set addr k nn;
  }
    where
      at_end :
          (take k (take k addr) ++ (nn ∷ drop k (take k addr)) ≡ ordered_insert nn (take k addr))
          × (rank nn (take k addr) ≡ k)
      at_end = placed k (omega arith) below (λ m. absurd (omega arith))

  -- Neither bound of the search has the new id.
  lower_bound : (l : ℕ) → l < k → gt (at addr l) nn ≡ false → lt (at addr l) nn ≡ true
  lower_bound l h g = ground (arith, lt_total (at addr l) nn, fresh_at l h, gt-eq-lt (at addr l) nn)

  not_below_of_gt : (r : ℕ) → gt (at addr r) nn ≡ true → lt (at addr r) nn ≡ false
  not_below_of_gt r g = lt_asymm nn (at addr r) (sym (gt-eq-lt (at addr r) nn) ∙ g)

  upper_bound :
      (r : ℕ)
      → ((r ≡ k - 1) ⊎ (gt (at addr r) nn ≡ true))
      → lt (at addr (k - 1)) nn ≡ false
      → lt (at addr r) nn ≡ false
  upper_bound r (inl e) last = rw e last
  upper_bound r (inr g) last = not_below_of_gt r g

  -- So the code goes past its tests for an equal id and shifts at the upper bound.
  between :
      (l r : ℕ)
      → Bracket addr nn 0 (k - 1) l r
      → lt (at addr (k - 1)) nn ≡ false
      → 0 < k
      → Inserted addr k nn (insert_between addr k nn l r).0 (insert_between addr k nn l r).1
  unfolding insert_between
  between l r b last pos =
      rw
        (
          equal_id_fresh addr nn l (λ _. low),
          ne→==_false _ _ (fresh_at l (omega arith)),
          ne→==_false _ _ (fresh_at r (omega arith)),
        )
        (shifted r (omega arith) (λ i e. let q : i ≡ l = omega arith in rw q low)
          (λ _. upper_bound r b.not_below last))
    where
      low : lt (at addr l) nn ≡ true
      low = lower_bound l (omega arith) b.not_above

  -- With one entry in the window one of the first two tests passes.
  two_entries : 0 < k → gt (at addr 0) nn ≡ false → lt (at addr (k - 1)) nn ≡ false → 0 < k - 1
  two_entries pos g last = elim (dec_lt 0 (k - 1)) [
    | yes h ↦ h
    | no h ↦
        let e : k - 1 ≡ 0 = omega arith in
        absurd (fresh_at 0 pos (ground (arith, lt_total (at addr 0) nn, gt-eq-lt (at addr 0) nn)))
  ]

  pub insert_into_pool-Inserted :
      0 < k → Inserted addr k nn (insert_into_pool addr k nn).0 (insert_into_pool addr k nn).1
  unfolding insert_into_pool
  insert_into_pool-Inserted pos = elim (Bool-cases (gt (at addr 0) nn)) [
    | inl e ↦
        rw e (shifted 0 (omega arith) (λ i z. absurd (omega arith)) (λ m. not_below_of_gt 0 e))
    | inr e ↦ elim (Bool-cases (lt (at addr (k - 1)) nn)) [
      | inl f ↦ rw (e, f) (appended (λ i z. let q : i ≡ k - 1 = omega arith in rw q f))
      | inr f ↦
          rw (e, f)
            (between (bisect k addr nn 0 (k - 1)).0 (bisect k addr nn 0 (k - 1)).1
              (bisect-Bracket k addr nn 0 (k - 1) (two_entries pos e f) (omega arith) e) f pos)
    ]
  ]

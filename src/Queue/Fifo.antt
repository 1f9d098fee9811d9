-- ===== src/Queue/Fifo.antt =====
-- The ring is a queue: first in, first out, of at most `cap - 1` elements.
use pipe_ann.Base.{
  ℕ, zero, suc, ◌+◌, ◌-◌, ◌%◌, ◌<◌, ◌≡◌, refl, sym, ap, ◌∙◌, ◌≢◌, inl, inr, Bool, true, false,
  Option, none, some, List, [], ◌∷◌, ◌++◌, arith, ◌==◌, ==→eq, ne→==_false, ==_false→ne, Bool-cases,
  length, get_or, set, replicate, length-set, length-replicate, get_or-set_self, get_or-set_ne,
}
use pipe_ann.Queue.{Ring, new_ring, push, pop, drain, pop_all_fn, walk, size, items, IsRing}
use pipe_ann.Queue.Gap.{
  Apart, Apart-next, Apart-unique, full_gap, gap-Apart, next_low, popped_gap, pushed_gap,
}

module _ {ℓ} {A : Type ℓ} (blank : A) where
  walk-set :
      (d : List A) (c h t n : ℕ) (x : A)
      → h < c
      → t < c
      → Apart h t c n
      → walk blank (set d t x) c h n ≡ walk blank d c h n
  walk-set d c h t zero x hh ht a = refl
  walk-set d c h t (suc n) x hh ht a =
      let ne : t ≢ h =
        λ e. elim a [ inl (le, q) ↦ omega (arith, e, q) | inr (lt, q) ↦ omega (arith, e, lt) ] in
      rw (get_or-set_ne d t h x blank ne) (
        ap (◌∷◌ (get_or d h blank))
          (walk-set d c ((h + 1) % c) t n x (next_low h c hh) ht (Apart-next h t c n hh ht a)))

  walk-append :
      (d : List A) (c h t n : ℕ)
      → h < c
      → t < c
      → Apart h t c n
      → walk blank d c h (suc n) ≡ walk blank d c h n ++ (get_or d t blank ∷ [])
  walk-append d c h t zero hh ht a =
      let e : h ≡ t = elim a [
        | inl (le, q) ↦ omega (arith, q)
        | inr (lt, q) ↦ absurd (omega (arith, lt, q, hh))
      ] in
      ap (λ i. get_or d i blank ∷ []) e
  walk-append d c h t (suc n) hh ht a =
      ap (◌∷◌ (get_or d h blank))
        (walk-append d c ((h + 1) % c) t n (next_low h c hh) ht (Apart-next h t c n hh ht a))

  size-Apart : (q : Ring A) → IsRing q → Apart q.sq_head q.sq_tail q.cap (size blank q)
  size-Apart q v = gap-Apart q.sq_head q.sq_tail q.cap v.head_low v.tail_low

  length-walk : (d : List A) (c h n : ℕ) → length (walk blank d c h n) ≡ n
  length-walk d c h zero = refl
  length-walk d c h (suc n) = ap suc (length-walk d c ((h + 1) % c) n)

  full_size :
      (q : Ring A) → IsRing q → (q.sq_tail + 1) % q.cap ≡ q.sq_head → size blank q + 1 ≡ q.cap
  full_size q v e =
      full_gap q.sq_head q.sq_tail q.cap (size blank q) v.head_low v.tail_low e (size-Apart q v)

  -- One more element: the size after a push.
  pushed_size :
      (q : Ring A) (d : List A)
      → IsRing q
      → (q.sq_tail + 1) % q.cap ≢ q.sq_head
      → size blank (record q { sq_data = d; sq_tail = (q.sq_tail + 1) % q.cap })
        ≡ suc (size blank q)
  pushed_size q d v ne =
      pushed_gap q.sq_head q.sq_tail q.cap (size blank q)
        (size blank (record q { sq_data = d; sq_tail = (q.sq_tail + 1) % q.cap })) v.head_low
        v.tail_low ne (size-Apart q v)
        (gap-Apart q.sq_head ((q.sq_tail + 1) % q.cap) q.cap v.head_low
          (next_low q.sq_tail q.cap v.tail_low))

  pushed_items :
      (q : Ring A) (x : A)
      → IsRing q
      → walk blank (set q.sq_data q.sq_tail x) q.cap q.sq_head (size blank q)
          ++ (get_or (set q.sq_data q.sq_tail x) q.sq_tail blank ∷ [])
        ≡ walk blank q.sq_data q.cap q.sq_head (size blank q) ++ (x ∷ [])
  pushed_items q x v =
      rw
        (
          walk-set q.sq_data q.cap q.sq_head q.sq_tail (size blank q) x v.head_low v.tail_low
              (size-Apart q v),
          get_or-set_self q.sq_data q.sq_tail x blank (omega (arith, v.tail_low, v.sized)),
        )
        refl

  abbrev pub Pushed : Ring A → A → Bool × Ring A → Type ℓ
  Pushed q x (true, q') = IsRing q' × (items blank q' ≡ items blank q ++ (x ∷ []))
  Pushed q x (false, q') = (q' ≡ q) × (length (items blank q) + 1 ≡ q.cap)

  -- A push adds its element after those that the ring holds, or, if the ring holds one less than
  -- `cap`, leaves it as it is.
  pub push_lem : (q : Ring A) (x : A) → IsRing q → Pushed q x (push blank q x)
  unfolding push items
  push_lem q x v =
      let next = (q.sq_tail + 1) % q.cap in
      let a = size-Apart q v in
      elim (Bool-cases (next == q.sq_head)) [
        | inl e ↦ rw (e) (
          refl,
          omega (
            arith,
            length-walk q.sq_data q.cap q.sq_head (size blank q),
            full_size q v (==→eq _ _ e),
          ),
        )
        | inr e ↦ rw (e) (
          record {
            head_low = v.head_low;
            tail_low = next_low q.sq_tail q.cap v.tail_low;
            sized = length-set q.sq_data q.sq_tail x ∙ v.sized;
          },
          ap (walk blank (set q.sq_data q.sq_tail x) q.cap q.sq_head)
                (pushed_size q (set q.sq_data q.sq_tail x) v (==_false→ne _ _ e))
              ∙ (walk-append (set q.sq_data q.sq_tail x) q.cap q.sq_head q.sq_tail (size blank q)
                    v.head_low v.tail_low a
                  ∙ pushed_items q x v),
        )
      ]

  abbrev pub Popped : Ring A → Option A × Ring A → Type ℓ
  Popped q (some x, q') = IsRing q' × (items blank q ≡ x ∷ items blank q')
  Popped q (none, q') = (q' ≡ q) × (items blank q ≡ [])

  -- A pop takes the oldest element that the ring holds, or finds that it holds none.
  pub pop_lem : (q : Ring A) → IsRing q → Popped q (pop blank q)
  unfolding pop items
  pop_lem q v = elim (Bool-cases (q.sq_head == q.sq_tail)) [
    | inl e ↦ rw (e) (
      refl,
      ap (walk blank q.sq_data q.cap q.sq_head) (
          Apart-unique q.sq_head q.sq_tail q.cap (size blank q) 0 v.tail_low (size-Apart q v)
            (inl (omega (arith, ==→eq _ _ e), omega (arith, ==→eq _ _ e)))),
    )
    | inr e ↦
        let h' = (q.sq_head + 1) % q.cap in
        let m = (q.sq_tail + q.cap - h') % q.cap in
        let low : h' < q.cap = next_low q.sq_head q.cap v.head_low in
        rw (e) (
          record { head_low = low; tail_low = v.tail_low; sized = v.sized },
          ap (walk blank q.sq_data q.cap q.sq_head) (
              popped_gap q.sq_head q.sq_tail q.cap (size blank q) m v.head_low v.tail_low
                (==_false→ne _ _ e) (size-Apart q v) (gap-Apart h' q.sq_tail q.cap low v.tail_low)),
        )
  ]

  drain_lem :
      (fuel : ℕ) (d : List A) (c h t n : ℕ)
      → h < c
      → t < c
      → Apart h t c n
      → n < fuel
      → drain blank fuel d c h t ≡ (walk blank d c h n, t)
  unfolding drain
  drain_lem zero d c h t n hh ht a lt = absurd (omega (arith, lt))
  drain_lem (suc fuel) d c h t zero hh ht a lt =
      let e : h ≡ t = elim a [
        | inl (x, y) ↦ omega (arith, y)
        | inr (x, y) ↦ absurd (omega (arith, x, y, hh))
      ] in
      let q : (h == t) ≡ true = ground (arith, e) in rw (q) (ap (λ k. ([], k)) e)
  drain_lem (suc fuel) d c h t (suc n) hh ht a lt =
      let ne : h ≢ t =
        λ e. elim a [ inl (x, y) ↦ omega (arith, e, y) | inr (x, y) ↦ omega (arith, e, x) ] in
      rw
        (
          ne→==_false h t ne,
          drain_lem fuel d c ((h + 1) % c) t n (next_low h c hh) ht (Apart-next h t c n hh ht a)
              (omega (arith, lt)),
        )
        refl

  Apart-low : (h t c n : ℕ) → h < c → t < c → Apart h t c n → n < c
  Apart-low h t c n hh ht (inl (x, y)) = omega (arith, y, ht)
  Apart-low h t c n hh ht (inr (x, y)) = omega (arith, x, y, hh)

  -- `pop_all_fn` passes every element that the ring holds, the oldest first, and leaves it empty.
  pub pop_all_fn_lem :
      (q : Ring A)
      → IsRing q
      → ((pop_all_fn blank q).0 ≡ items blank q)
        × IsRing (pop_all_fn blank q).1
        × (items blank (pop_all_fn blank q).1 ≡ [])
  unfolding pop_all_fn items
  pop_all_fn_lem q v = elim (Bool-cases (q.sq_head == q.sq_tail)) [
    | inl e ↦
        let none_left = ap (walk blank q.sq_data q.cap q.sq_head) (
          Apart-unique q.sq_head q.sq_tail q.cap (size blank q) 0 v.tail_low (size-Apart q v)
            (inl (omega (arith, ==→eq _ _ e), omega (arith, ==→eq _ _ e)))) in
        rw (e) (sym none_left, v, none_left)
    | inr ne ↦
        let all =
          drain_lem q.cap q.sq_data q.cap q.sq_head q.sq_tail (size blank q) v.head_low v.tail_low
            (size-Apart q v)
            (Apart-low q.sq_head q.sq_tail q.cap (size blank q) v.head_low v.tail_low
              (size-Apart q v)) in
        rw (ne, all)
          (
            refl,
            record { head_low = v.tail_low; tail_low = v.tail_low; sized = v.sized },
            ap (walk blank q.sq_data q.cap q.sq_tail) (
                Apart-unique q.sq_tail q.sq_tail q.cap ((q.sq_tail + q.cap - q.sq_tail) % q.cap) 0
                  v.tail_low (gap-Apart q.sq_tail q.sq_tail q.cap v.tail_low v.tail_low)
                  (inl (omega arith, omega arith))),
          )
  ]

  -- A new ring of at least one slot holds nothing.
  pub new_ring-IsRing :
      (cap : ℕ) → 0 < cap → IsRing (new_ring blank cap) × (items blank (new_ring blank cap) ≡ [])
  unfolding new_ring items
  new_ring-IsRing cap pos = (
    record { head_low = pos; tail_low = pos; sized = length-replicate cap blank },
    ap (walk blank (replicate cap blank) cap 0) (
        Apart-unique 0 0 cap ((0 + cap - 0) % cap) 0 pos (gap-Apart 0 0 cap pos pos)
          (inl (omega arith, omega arith))),
  )

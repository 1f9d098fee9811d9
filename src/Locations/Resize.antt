-- ===== src/Locations/Resize.antt =====
-- Step 3 of `alloc_loc`: the table grows, and `cur_loc` moves to the start of a page.
use pipe_ann.Base.{
  ℕ, zero, suc, ◌+◌, ◌-◌, ◌*◌, ◌/◌, ◌%◌, ◌≤◌, ◌<◌, ◌≡◌, refl, ap, ◌∙◌, subst, ◌≢◌, ◌⊎◌, inl, inr,
  true, false, List, [], ◌∷◌, ◌++◌, arith, dec_lt, ℕ_discrete, leb, ◌==◌, lt→ltb, ==→eq,
  ==_false→ne, Bool-cases, length, set, replicate, length-append, length-set, length-replicate,
  take_all, get_or-set_self, get_or-set_ne,
}
use native.Mathlib.Nat.{div-add-mod', mod-lt, mul-mod_left}
use pipe_ann.Layout.{Metadata}
use pipe_ann.Locations.{Locations, Outcome, ok, invalid_id, allocated_id}
use pipe_ann.Locations.Tables.{resize, resize_set, set_loc2id}
use pipe_ann.Locations.Alloc.{append_new, align, open_pages}
use pipe_ann.Locations.Claims.{entry}

-- The table after a write that may have to grow it.
pub record Written (t : List ℕ) (i v : ℕ) (t' : List ℕ) : Type 0 where
  pub inside : i < length t'
  pub grown : length t ≤ length t'
  pub wrote : entry t' i ≡ v
  pub kept : (j : ℕ) → i ≢ j → entry t' j ≡ entry t j

entry-zeros : (n j : ℕ) → entry (replicate n 0) j ≡ 0
entry-zeros zero j = refl
entry-zeros (suc n) zero = refl
entry-zeros (suc n) (suc j) = entry-zeros n j

entry-append_zeros : (t : List ℕ) (n j : ℕ) → entry (t ++ replicate n 0) j ≡ entry t j
entry-append_zeros [] n j = entry-zeros n j
entry-append_zeros (x ∷ t) n zero = refl
entry-append_zeros (x ∷ t) n (suc j) = entry-append_zeros t n j

resize_up : (t : List ℕ) (n : ℕ) → length t ≤ n → resize t n ≡ t ++ replicate (n - length t) 0
unfolding resize
resize_up t n h = ap (λ u. u ++ replicate (n - length t) 0) (take_all n t h)

length-resize_up : (t : List ℕ) (n : ℕ) → length t ≤ n → length (resize t n) ≡ n
length-resize_up t n h =
    ap length (resize_up t n h)
    ∙ omega (
      arith,
      length-append t (replicate (n - length t) 0),
      length-replicate {A = ℕ} (n - length t) 0,
    )

Written-set : (t : List ℕ) (i v : ℕ) → i < length t → Written t i v (set t i v)
Written-set t i v h = record {
  inside = omega (arith, length-set t i v);
  grown = omega (arith, length-set t i v);
  wrote = get_or-set_self t i v 0 h;
  kept = λ j ne. get_or-set_ne t i j v 0 ne;
}

-- At 2 and above, half as much again is more than the index.
pub resize_set_lem :
    (t : List ℕ) (i v : ℕ)
    → (2 ≤ i) ⊎ (i < length t)
    → (t' : List ℕ) × (resize_set t i v ≡ ok t') × Written t i v t'
unfolding resize_set
resize_set_lem t i v h = elim (dec_lt i (length t)) [
  | yes l ↦ (
    set t i v,
    (let e : leb (length t) i ≡ false = ground (arith, l) in rw (e, lt→ltb i (length t) l) refl),
    Written-set t i v l,
  )
  | no nl ↦
      let two : 2 ≤ i = elim h [ inl a ↦ a | inr b ↦ absurd (nl b) ] in
      let up : length t ≤ 3 * i / 2 = omega arith in
      let big : i < length (resize t (3 * i / 2)) =
        omega (arith, length-resize_up t (3 * i / 2) up) in
      let w : Written (resize t (3 * i / 2)) i v (set (resize t (3 * i / 2)) i v) =
        Written-set (resize t (3 * i / 2)) i v big in
      (
        set (resize t (3 * i / 2)) i v,
        (let e : leb (length t) i ≡ true = ground (arith, nl) in rw (e, lt→ltb i _ big) refl),
        record {
          inside = w.inside;
          grown = omega (arith, w.grown, length-resize_up t (3 * i / 2) up);
          wrote = w.wrote;
          kept = λ j ne.
              w.kept j ne
              ∙ (ap (λ u. entry u j) (resize_up t (3 * i / 2) up) ∙ entry-append_zeros t _ j);
        },
      )
]

pub set_loc2id_lem :
    (s : Locations) (loc id : ℕ)
    → (2 ≤ loc) ⊎ (loc < length s.loc2id)
    → (t : List ℕ) × (set_loc2id s loc id ≡ ok (record s { loc2id = t }))
      × Written s.loc2id loc id t
unfolding set_loc2id
set_loc2id_lem s loc id h =
    let r : (t' : List ℕ) × (resize_set s.loc2id loc id ≡ ok t') × Written s.loc2id loc id t' =
      resize_set_lem s.loc2id loc id h in
    (r.0, rw (r.1) refl, r.2)

-- The table with the slots from `loc` to `end` filled with `v`, and those below kept.
pub record Filled (t : List ℕ) (loc end v : ℕ) (t' : List ℕ) : Type 0 where
  pub ordered : loc ≤ end
  pub fits : end ≤ length t'
  pub grown : length t ≤ length t'
  pub filled : (j : ℕ) → loc ≤ j → j < end → entry t' j ≡ v
  pub below : (j : ℕ) → j < loc → entry t' j ≡ entry t j

Filled-nil : (t : List ℕ) (loc v : ℕ) → loc ≤ length t → Filled t loc loc v t
Filled-nil t loc v h = record {
  ordered = omega arith;
  fits = h;
  grown = omega arith;
  filled = λ j a b. absurd (omega (arith, a, b));
  below = λ j a. refl;
}

Filled-cons :
    (t t1 t2 : List ℕ) (loc end v : ℕ)
    → Written t loc v t1
    → Filled t1 (loc + 1) end v t2
    → Filled t loc end v t2
Filled-cons t t1 t2 loc end v w f = record {
  ordered = omega (arith, f.ordered);
  fits = f.fits;
  grown = omega (arith, w.grown, f.grown);
  filled = λ j a b. elim (ℕ_discrete loc j) [
    | yes e ↦ subst (λ k. entry t2 k ≡ v) e (f.below loc (omega arith) ∙ w.wrote)
    | no ne ↦ f.filled j (omega (arith, a, ne)) b
  ];
  below = λ j a. f.below j (omega (arith, a)) ∙ w.kept j (λ e. omega (arith, a, e));
}

-- The `n` new slots are taken.
pub append_new_lem :
    (n loc : ℕ) (s : Locations)
    → 2 ≤ loc
    → loc ≤ length s.loc2id
    → (t : List ℕ) × (append_new s loc n ≡ ok (record s { loc2id = t }))
      × Filled s.loc2id loc (loc + n) allocated_id t
unfolding append_new
append_new_lem zero loc s two h = (
  s.loc2id,
  refl,
  subst (λ e. Filled s.loc2id loc e allocated_id s.loc2id) (omega arith)
      (Filled-nil s.loc2id loc allocated_id h),
)
append_new_lem (suc n) loc s two h =
    let w : (t : List ℕ) × (set_loc2id s loc allocated_id ≡ ok (record s { loc2id = t }))
        × Written s.loc2id loc allocated_id t =
      set_loc2id_lem s loc allocated_id (inl two) in
    let r =
      append_new_lem n (loc + 1) (record s { loc2id = w.0 }) (omega arith)
        (omega (arith, w.2.inside)) in
    (
      r.0,
      rw (w.1) r.1,
      subst (λ e. Filled s.loc2id loc e allocated_id r.0) (omega arith)
          (Filled-cons s.loc2id w.0 r.0 loc (loc + 1 + n) allocated_id w.2 r.2),
    )

abbrev pub IsAligned : Metadata → ℕ → Type 0
IsAligned m loc = (m.nnodes_per_sector ≡ 0) ⊎ (loc % m.nnodes_per_sector ≡ 0)

abbrev Aligned : Locations → Outcome Locations → Type 0
Aligned s r =
    (t : List ℕ) × (end : ℕ) × (r ≡ ok (record s { loc2id = t; cur_loc = end }))
    × Filled s.loc2id s.cur_loc end invalid_id t
    × IsAligned s.meta end

step_aligned :
    (m : Metadata) (loc k fuel : ℕ)
    → m.nnodes_per_sector ≢ 0
    → (loc % m.nnodes_per_sector) ≢ 0
    → (d : ℕ) × (d ≤ suc fuel) × (loc + d ≡ k * m.nnodes_per_sector)
    → (d : ℕ) × (d ≤ fuel) × (loc + 1 + d ≡ k * m.nnodes_per_sector)
step_aligned m loc k fuel nz off (zero, le, e) = absurd (
    off (ap (λ l. l % m.nnodes_per_sector) (omega (arith, e)) ∙ mul-mod_left k m.nnodes_per_sector))
step_aligned m loc k fuel nz off (suc d, le, e) = (d, omega arith, omega arith)

pub align_lem :
    (fuel : ℕ) (s : Locations) (k : ℕ)
    → 2 ≤ s.cur_loc
    → s.cur_loc ≤ length s.loc2id
    → (d : ℕ) × (d ≤ fuel) × (s.cur_loc + d ≡ k * s.meta.nnodes_per_sector)
    → Aligned s (align fuel s)
unfolding align
align_lem zero s k two h (d, le, e) = (
  s.loc2id,
  s.cur_loc,
  refl,
  Filled-nil s.loc2id s.cur_loc invalid_id h,
  inr (
      ap (λ l. l % s.meta.nnodes_per_sector) (omega (arith, le, e))
      ∙ mul-mod_left k s.meta.nnodes_per_sector),
)
align_lem (suc fuel) s k two h (d, le, e) = elim (Bool-cases (s.meta.nnodes_per_sector == 0)) [
  | inl z ↦ (
    s.loc2id,
    s.cur_loc,
    rw (z) refl,
    Filled-nil s.loc2id s.cur_loc invalid_id h,
    inl (==→eq _ _ z),
  )
  | inr nz ↦ elim (Bool-cases (s.cur_loc % s.meta.nnodes_per_sector == 0)) [
    | inl al ↦ (
      s.loc2id,
      s.cur_loc,
      rw (nz, al) refl,
      Filled-nil s.loc2id s.cur_loc invalid_id h,
      inr (==→eq _ _ al),
    )
    | inr off ↦
        let w : (t : List ℕ) × (set_loc2id s s.cur_loc invalid_id ≡ ok (record s { loc2id = t }))
            × Written s.loc2id s.cur_loc invalid_id t =
          set_loc2id_lem s s.cur_loc invalid_id (inl two) in
        let r : Aligned (record s { loc2id = w.0; cur_loc = s.cur_loc + 1 })
            (align fuel (record s { loc2id = w.0; cur_loc = s.cur_loc + 1 })) =
          align_lem fuel (record s { loc2id = w.0; cur_loc = s.cur_loc + 1 }) k (omega arith)
            (omega (arith, w.2.inside))
            (step_aligned s.meta s.cur_loc k fuel (==_false→ne _ _ nz) (==_false→ne _ _ off)
              (d, le, e)) in
        (
          r.0,
          r.1,
          rw (nz, off, w.1) r.2,
          Filled-cons s.loc2id w.0 r.0 s.cur_loc r.1 invalid_id w.2 r.3,
          r.4,
        )
  ]
]

next_boundary : (n loc : ℕ) → 0 < n → (d : ℕ) × (d ≤ n) × (loc + d ≡ (loc / n + 1) * n)
next_boundary n loc pos =
    (n - loc % n, omega arith, omega (arith, div-add-mod' loc n, mod-lt loc pos))

align-Aligned :
    (s : Locations)
    → 2 ≤ s.cur_loc
    → s.cur_loc ≤ length s.loc2id
    → Aligned s (align s.meta.nnodes_per_sector s)
unfolding align
align-Aligned s two h = elim (dec_lt 0 s.meta.nnodes_per_sector) [
  | yes pos ↦
      align_lem s.meta.nnodes_per_sector s (s.cur_loc / s.meta.nnodes_per_sector + 1) two h
        (next_boundary s.meta.nnodes_per_sector s.cur_loc pos)
  | no z ↦
      let e : s.meta.nnodes_per_sector ≡ 0 = omega arith in
      (
        s.loc2id,
        s.cur_loc,
        ap (λ n. align n s) e,
        Filled-nil s.loc2id s.cur_loc invalid_id h,
        inl e,
      )
]

-- Step 3: `n` slots from `cur_loc` on are taken, the rest of the last page is free.
pub record Opened (s : Locations) (n : ℕ) (t : List ℕ) (end : ℕ) : Type 0 where
  pub taken : Filled s.loc2id s.cur_loc (s.cur_loc + n) allocated_id t
  pub room : s.cur_loc + n ≤ end
  pub fits : end ≤ length t
  pub aligned : IsAligned s.meta end

pub open_pages_lem :
    (s : Locations) (n : ℕ)
    → 2 ≤ s.cur_loc
    → s.cur_loc ≤ length s.loc2id
    → (t : List ℕ) × (end : ℕ) × (open_pages s n ≡ ok (record s { loc2id = t; cur_loc = end }))
      × Opened s n t end
unfolding open_pages
open_pages_lem s n two h =
    let (t, e, f) = append_new_lem n s.cur_loc s two h in
    let s' : Locations = record s { loc2id = t; cur_loc = s.cur_loc + n } in
    let (u, end, g, k, al) : Aligned s' (align s'.meta.nnodes_per_sector s') =
      align-Aligned s' (omega arith) f.fits in
    (
      u,
      end,
      rw (e) g,
      record {
        taken = record {
          ordered = f.ordered;
          fits = omega (arith, f.fits, k.grown);
          grown = omega (arith, f.grown, k.grown);
          filled = λ j a b. k.below j b ∙ f.filled j a b;
          below = λ j a. k.below j (omega (arith, a)) ∙ f.below j a;
        };
        room = k.ordered;
        fits = k.fits;
        aligned = al;
      },
    )

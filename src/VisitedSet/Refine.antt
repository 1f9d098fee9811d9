-- ===== src/VisitedSet/Refine.antt =====
-- `FlatVisitedSet` is a set: an insert tells whether the key is new and adds it, growth included.
use pipe_ann.Base.{
  ℕ, zero, suc, ◌+◌, ◌*◌, ◌%◌, ◌≤◌, ◌<◌, ◌≡◌, refl, sym, ap, ◌∙◌, subst, ◌≢◌, ◌↔◌, ◌⊎◌, inl, inr,
  Bool, true, false, not, some, List, [], ◌∷◌, arith, ltb, ◌==◌, ltb_false→le, ==→eq, ==_false→ne,
  Bool-cases, length, set, replicate, length-replicate, tally, tally-replicate_zero,
}
use native.Mathlib.Nat.{mod-eq_of_lt}
use pipe_ann.VisitedSet.{
  k_empty, FlatVisitedSet, Probe, found, vacant, at, slot_of, probe, add_at, insert, clear,
  capacity, new_set,
}
use pipe_ann.VisitedSet.Walk.{pos, pos_reaches, Holds, Ends, probe-Ends, IsProbed, absent}
use pipe_ann.VisitedSet.Grow.{at-replicate, grow-Grown}
use pipe_ann.VisitedSet.Fill.{used, empty_slot, Written, set-Written, slot_low}

-- The keys are where a probe finds them, `size` counts them, and at most half of the slots is used.
pub record IsValid (s : FlatVisitedSet) : Type 0 where
  pub probed : IsProbed (slot_of (length s.slots)) s.slots
  pub counted : s.size ≡ tally used s.slots
  pub roomy : 2 * s.size ≤ length s.slots
  pub large : 8 ≤ length s.slots

-- The abstract set.
abbrev pub Member : FlatVisitedSet → ℕ → Type 0
Member s j = ((j ≡ k_empty) × (s.has_empty_key ≡ true)) ⊎ ((j ≢ k_empty) × Holds s.slots j)

-- What an insert of `key` that returns `fresh` leaves.
pub record Inserted (s : FlatVisitedSet) (key : ℕ) (fresh : Bool) (s' : FlatVisitedSet)
    : Type 0 where
  pub valid : IsValid s'
  pub fresh_iff : (fresh ≡ true) ↔ ¬ Member s key
  pub members : (j : ℕ) → Member s' j ↔ (Member s j ⊎ (j ≡ key))

insert_empty :
    (s : FlatVisitedSet) (key : ℕ)
    → key ≡ k_empty
    → IsValid s
    → Inserted s key (not s.has_empty_key) (record s { has_empty_key = true })
insert_empty s key e v = record {
  valid = record { probed = v.probed; counted = v.counted; roomy = v.roomy; large = v.large };
  fresh_iff = (
    λ f m. elim m [
      | inl (q, h) ↦ let no : false ≡ true = sym (ap not h) ∙ f in absurd (cc no)
      | inr (ne, h) ↦ ne e
    ],
    λ nm. elim (Bool-cases s.has_empty_key) [ inl h ↦ absurd (nm (inl (e, h))) | inr h ↦ ap not h ],
  );
  members = λ j. (
    λ m. elim m [ inl (q, h) ↦ inr (q ∙ sym e) | inr x ↦ inl (inr x) ],
    λ m. elim m [
      | inl (inl (q, h)) ↦ inl (q, refl)
      | inl (inr x) ↦ inr x
      | inr q ↦ inl (q ∙ e, refl)
    ],
  );
}

insert_again :
    (s : FlatVisitedSet) (key : ℕ)
    → key ≢ k_empty
    → IsValid s
    → Holds s.slots key
    → Inserted s key false s
insert_again s key ne v h = record {
  valid = v;
  fresh_iff = (λ no. absurd (cc no), λ nm. absurd (nm (inr (ne, h))));
  members = λ j. (
    λ m. inl m,
    λ m. elim m [ inl x ↦ x | inr q ↦ inr (λ z. ne (sym q ∙ z), subst (Holds s.slots) (sym q) h) ],
  );
}

insert_new :
    (s : FlatVisitedSet) (key : ℕ) (slots : List ℕ)
    → key ≢ k_empty
    → IsValid s
    → ¬ Holds s.slots key
    → IsProbed (slot_of (length slots)) slots
    → tally used slots ≡ tally used s.slots + 1
    → 2 * (s.size + 1) ≤ length slots
    → 8 ≤ length slots
    → ((j : ℕ) → j ≢ k_empty → Holds slots j ↔ (Holds s.slots j ⊎ (j ≡ key)))
    → Inserted s key true (record s { slots = slots; size = s.size + 1 })
insert_new s key slots ne v nh inv t roomy large holds = record {
  valid = record {
    probed = inv;
    counted = omega (arith, t, v.counted);
    roomy = roomy;
    large = large;
  };
  fresh_iff = (λ f m. elim m [ inl (q, h) ↦ ne q | inr (q, h) ↦ nh h ], λ nm. refl);
  members = λ j. (
    λ m. elim m [
      | inl x ↦ inl (inl x)
      | inr (nj, h) ↦ elim ((holds j nj).0 h) [ inl y ↦ inl (inr (nj, y)) | inr q ↦ inr q ]
    ],
    λ m. elim m [
      | inl (inl x) ↦ inl x
      | inl (inr (nj, h)) ↦ inr (nj, (holds j nj).1 (inl h))
      | inr q ↦ let nj : j ≢ k_empty = λ z. ne (sym q ∙ z) in inr (nj, (holds j nj).1 (inr q))
    ],
  );
}

insert_at :
    (s : FlatVisitedSet) (key i : ℕ)
    → key ≢ k_empty
    → IsValid s
    → ¬ Holds s.slots key
    → Written (slot_of (length s.slots)) s.slots key (set s.slots i key)
    → (s' : FlatVisitedSet) × (add_at s key i ≡ some (true, s')) × Inserted s key true s'
unfolding add_at
insert_at s key i ne v nh w =
    let slots = set s.slots i key in
    elim (Bool-cases (ltb (length slots) (2 * (s.size + 1)))) [
      | inl full ↦
          let (t, e, g) =
            grow-Grown slots (omega (arith, w.used_more, v.counted, v.roomy, v.large, w.size)) in
          (
            record s { slots = t; size = s.size + 1 },
            rw (full, e) refl,
            insert_new s key t ne v nh g.probed (g.used_same ∙ w.used_more)
                (omega (arith, g.size, w.size, v.roomy, v.large))
                (omega (arith, g.size, w.size, v.large))
                (λ j nj.
                  let (f, f') = g.holds j nj in
                  let (k, k') = w.holds j nj in (λ x. k (f x), λ x. f' (k' x))),
          )
      | inr room ↦ (
        record s { slots = slots; size = s.size + 1 },
        rw (room) refl,
        insert_new s key slots ne v nh
            (subst (λ c. IsProbed (slot_of c) slots) (sym w.size) w.probed) w.used_more
            (ltb_false→le _ _ room) (omega (arith, w.size, v.large)) w.holds,
      )
    ]

start_probe :
    (s : FlatVisitedSet) (key : ℕ)
    → IsValid s
    → (r : Probe) × (probe (length s.slots) s.slots key (slot_of (length s.slots) key) ≡ some r)
      × Ends s.slots key (slot_of (length s.slots) key) r
start_probe s key v =
    let c = length s.slots in
    let h = slot_of c key in
    let low : h < c = slot_low c key (omega (arith, v.large)) in
    let (i0, lt0, e0) = empty_slot s.slots (omega (arith, v.counted, v.roomy, v.large)) in
    let (z, zl, zq) = pos_reaches c h i0 low lt0 in
    let start : pos c h 0 ≡ h = ap (λ k. k % c) (omega arith) ∙ mod-eq_of_lt low in
    let (r, q, w) =
      probe-Ends c s.slots key h 0 z (λ e el. absurd (omega (arith, el)))
        (zl, ap (at s.slots) zq ∙ e0) (omega (arith, zl)) (omega arith) in
    (r, ap (probe c s.slots key) (sym start) ∙ q, w)

insert_probed :
    (s : FlatVisitedSet) (key : ℕ) (r : Probe)
    → (key == k_empty) ≡ false
    → IsValid s
    → probe (length s.slots) s.slots key (slot_of (length s.slots) key) ≡ some r
    → Ends s.slots key (slot_of (length s.slots) key) r
    → (b : Bool) × (s' : FlatVisitedSet) × (insert s key ≡ some (b, s')) × Inserted s key b s'
unfolding insert
insert_probed s key found ne v q h =
    (false, s, rw (ne, q) refl, insert_again s key (==_false→ne _ _ ne) v h)
insert_probed s key (vacant i) ne v q (d, e, vac, passed) =
    let ne' : key ≢ k_empty = ==_false→ne _ _ ne in
    let nh = absent (slot_of (length s.slots)) s.slots key d v.probed ne' vac passed in
    let w =
      set-Written (slot_of (length s.slots)) s.slots key d v.probed ne' vac
        (λ k l. (passed k l).0) in
    let (s', f, x) =
      insert_at s key i ne' v nh
        (subst (λ k. Written (slot_of (length s.slots)) s.slots key (set s.slots k key)) e w) in
    (true, s', rw (ne, q) f, x)

-- On a valid set an insert returns: neither the probe nor the growth of the table runs for ever. It
-- tells that the key is new exactly when the set did not have it, the keys of the new set are those
-- of the old and the key, and the new set is valid. The key 0xFFFFFFFF is one like the others.
pub insert-Inserted :
    (s : FlatVisitedSet) (key : ℕ)
    → IsValid s
    → (b : Bool) × (s' : FlatVisitedSet) × (insert s key ≡ some (b, s')) × Inserted s key b s'
unfolding insert
insert-Inserted s key v = elim (Bool-cases (key == k_empty)) [
  | inl e ↦ (
    not s.has_empty_key,
    record s { has_empty_key = true },
    rw (e) refl,
    insert_empty s key (==→eq _ _ e) v,
  )
  | inr ne ↦ let (r, q, w) = start_probe s key v in insert_probed s key r ne v q w
]

capacity_lem :
    (fuel cap m : ℕ)
    → 8 ≤ cap
    → m ≤ cap + fuel
    → (8 ≤ capacity fuel cap m) × (m ≤ capacity fuel cap m)
unfolding capacity
capacity_lem zero cap m h k = (h, omega arith)
capacity_lem (suc fuel) cap m h k = elim (Bool-cases (ltb cap m)) [
  | inl e ↦ rw (e) (capacity_lem fuel (cap * 2) m (omega arith) (omega arith))
  | inr e ↦ rw (e) (h, ltb_false→le _ _ e)
]

blank-IsValid :
    (n : ℕ)
    → 8 ≤ n
    → IsValid (record { slots = replicate n k_empty; size = 0; has_empty_key = false })
blank-IsValid n h =
    let size : length (replicate n k_empty) ≡ n = length-replicate n k_empty in
    record {
      probed = λ i lt ne. absurd (ne (at-replicate n i));
      counted = sym (tally-replicate_zero used n k_empty refl);
      roomy = omega arith;
      large = omega (arith, size, h);
    }

-- A new set is valid, has no key, and has at least the capacity that was asked for.
pub new_set-IsValid :
    (min_capacity : ℕ)
    → IsValid (new_set min_capacity)
      × ((j : ℕ) → ¬ Member (new_set min_capacity) j)
      × (min_capacity ≤ length (new_set min_capacity).slots)
unfolding new_set
new_set-IsValid m =
    let n = capacity m 8 m in
    let (large, enough) = capacity_lem m 8 m (omega arith) (omega arith) in
    (
      blank-IsValid n large,
      λ j x. elim x [
        | inl (q, never) ↦ absurd (cc never)
        | inr (ne, (i, lt, e)) ↦ ne (sym e ∙ at-replicate n i)
      ],
      omega (arith, enough, length-replicate n k_empty),
    )

used_none : (slots : List ℕ) (i : ℕ) → tally used slots ≡ 0 → at slots i ≡ k_empty
used_none [] i e = refl
used_none (x ∷ xs) zero e = elim (Bool-cases (x == k_empty)) [
  | inl q ↦ ==→eq x k_empty q
  | inr ne ↦ let one : used x ≡ 1 = rw (ne) refl in absurd (omega (arith, e, one))
]
used_none (x ∷ xs) (suc i) e = used_none xs i (omega (arith, e))

-- A cleared set is valid, has no key, and keeps its capacity.
pub clear-IsValid :
    (s : FlatVisitedSet)
    → IsValid s
    → IsValid (clear s)
      × ((j : ℕ) → ¬ Member (clear s) j)
      × (length (clear s).slots ≡ length s.slots)
unfolding clear
clear-IsValid s v = elim (Bool-cases (s.size == 0)) [
  | inl z ↦
      let none_used : tally used s.slots ≡ 0 = omega (arith, v.counted, ==→eq _ _ z) in
      rw (z) (
        record { probed = v.probed; counted = sym none_used; roomy = omega arith; large = v.large },
        λ j x. elim x [
          | inl (q, never) ↦ absurd (cc never)
          | inr (ne, (i, lt, e)) ↦ ne (sym e ∙ used_none s.slots i none_used)
        ],
        refl,
      )
  | inr some_used ↦ rw (some_used) (
    blank-IsValid (length s.slots) v.large,
    λ j x. elim x [
      | inl (q, never) ↦ absurd (cc never)
      | inr (ne, (i, lt, e)) ↦ ne (sym e ∙ at-replicate (length s.slots) i)
    ],
    length-replicate (length s.slots) k_empty,
  )
]

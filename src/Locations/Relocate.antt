-- ===== src/Locations/Relocate.antt =====
-- src/update/direct_insert.cpp: the update of the maps at the end of an insert.
use pipe_ann.Base.{
  ℕ, ◌+◌, ◌≤◌, ◌<◌, ◌≡◌, refl, sym, ap, ◌∙◌, subst, ◌⊎◌, inl, inr, List, [], ◌∷◌, arith, ℕ_discrete,
  All, length,
}
use pipe_ann.Locations.{Locations, Outcome, ok, ◌>>=◌, allocated_id, invalid_id}
use pipe_ann.Locations.Tables.{set_id2loc, erase_and_set_loc}
use pipe_ann.Locations.Claims.{In, AreDistinct, entry, All-In, All-of_In}
use pipe_ann.Locations.Resize.{Written, IsAligned}
use pipe_ann.Locations.Assign.{
  keys, Assigned, Erased, old_locs, move_ids, set_each_lem, erase_each_lem, move_ids_lem,
  set_id2loc_lem,
}

-- The neighbors' new locations, then the target's, each with its id.
abbrev pub new_pairs : List (ℕ × ℕ) → ℕ → ℕ → List (ℕ × ℕ)
new_pairs [] target loc = (loc, target) ∷ []
new_pairs ((id, l) ∷ ps) target loc = (l, id) ∷ new_pairs ps target loc

unfoldable pub relocate : Locations → ℕ → ℕ → List (ℕ × ℕ) → Outcome Locations
unfolding move_ids erase_and_set_loc
relocate s target loc ps = set_id2loc s target loc >>= λ s1.
    move_ids s1 ps >>= λ (olds, s2). erase_and_set_loc s2 olds (new_pairs ps target loc)

-- The id is mapped below `cur_loc`, to a location that is mapped back to it.
pub record Maps (s : Locations) (id : ℕ) : Type 0 where
  pub known : id < length s.id2loc
  pub low : entry s.id2loc id < s.cur_loc
  pub back : entry s.loc2id (entry s.id2loc id) ≡ id

abbrev pub IsConsistent : Locations → ℕ → Type 0
IsConsistent s n = (id : ℕ) → id < n → Maps s id

All-keys {ℓ} : (P : ℕ → Type ℓ) (ps : List (ℕ × ℕ)) → All P (keys ps) → All (λ p. P p.0) ps
All-keys P [] a = tt
All-keys P (p ∷ ps) a = (a.0, All-keys P ps a.1)

All-swapped {ℓ} :
    (P : ℕ × ℕ → Type ℓ) (ps : List (ℕ × ℕ)) (target loc : ℕ)
    → All P (new_pairs ps target loc)
    → All (λ p. P (p.1, p.0)) ps × P (loc, target)
All-swapped P [] target loc a = (tt, a.0)
All-swapped P ((id, l) ∷ ps) target loc a =
    let (b, c) = All-swapped P ps target loc a.1 in ((a.0, b), c)

at_key {ℓ κ} :
    (P : ℕ × ℕ → Type ℓ) (Q : ℕ × ℕ → Type κ) (ps : List (ℕ × ℕ)) (id : ℕ)
    → All P ps
    → All Q ps
    → In id (keys ps)
    → (loc : ℕ) × P (id, loc) × Q (id, loc)
at_key P Q [] id a b h = absurd h
at_key P Q ((i, l) ∷ ps) id a b (inl e) =
    (l, subst (λ k. P (k, l)) (sym e) a.0, subst (λ k. Q (k, l)) (sym e) b.0)
at_key P Q (p ∷ ps) id a b (inr h) = at_key P Q ps id a.1 b.1 h

All-second {ℓ κ} :
    (P : ℕ × ℕ → Type ℓ) (Q : ℕ × ℕ → Type κ) (ps : List (ℕ × ℕ))
    → All (λ p. P p × Q p) ps
    → All Q ps
All-second P Q [] a = tt
All-second P Q (p ∷ ps) a = (a.0.1, All-second P Q ps a.1)

In-old_locs :
    (t : List ℕ) (ps : List (ℕ × ℕ)) (l : ℕ)
    → In l (old_locs t ps)
    → (j : ℕ) × In j (keys ps) × (l ≡ entry t j)
In-old_locs t [] l h = absurd h
In-old_locs t (p ∷ ps) l (inl e) = (p.0, inl refl, e)
In-old_locs t (p ∷ ps) l (inr h) = let (j, i, e) = In-old_locs t ps l h in (j, inr i, e)

-- The tables after an insert, from what the loops have written.
module _ (s : Locations) (n loc : ℕ) (ps : List (ℕ × ℕ)) (t1 t2 u w : List ℕ)
    (cons : IsConsistent s n) (bound : n < allocated_id) (nbrs : All (λ j. j < n) (keys ps))
    (fresh : All
      (λ l. (l < s.cur_loc) × (entry s.loc2id l ≡ allocated_id))
      (keys (new_pairs ps n loc)))
    (first : Written s.id2loc n loc t1) (moved : Assigned t1 ps t2)
    (named : Assigned s.loc2id (new_pairs ps n loc) u) (erased : Erased u (old_locs t1 ps) w) where
  abbrev after : List ℕ → Locations
  after q = record s { id2loc = t2; loc2id = w; empty_pages = q }

  was_nbr :
      (l : ℕ) → In l (old_locs t1 ps) → (j : ℕ) × In j (keys ps) × (j < n) × (entry s.loc2id l ≡ j)
  was_nbr l h =
      let (j, i, e) = In-old_locs t1 ps l h in
      let lt : j < n = All-In _ (keys ps) j nbrs i in
      let same : entry t1 j ≡ entry s.id2loc j = first.kept j (λ q. omega (arith, lt, q)) in
      (j, i, lt, ap (entry s.loc2id) (e ∙ same) ∙ (cons j lt).back)

  -- A new location, once named, is not erased.
  new_stays : (l id : ℕ) → entry s.loc2id l ≡ allocated_id → entry u l ≡ id → entry w l ≡ id
  new_stays l id a e = elim (erased.kept l) [
    | inl k ↦ k ∙ e
    | inr h ↦ let (j, i, lt, q) = was_nbr l h in absurd (omega (arith, bound, lt, a, q))
  ]

  new_fresh :
      All (λ p. (p.0 < s.cur_loc) × (entry s.loc2id p.0 ≡ allocated_id)) (new_pairs ps n loc)
  new_fresh = All-keys _ (new_pairs ps n loc) fresh

  nbr-Maps : (q : List ℕ) (id : ℕ) → In id (keys ps) → Maps (after q) id
  nbr-Maps q id h =
      let back = (All-swapped _ ps n loc named.wrote).0 in
      let free = (All-swapped _ ps n loc new_fresh).0 in
      let (l, (k, e), b) = at_key _ _ ps id moved.wrote back h in
      let (l', (k', e'), f) = at_key _ _ ps id moved.wrote free h in
      record {
        known = k;
        low = omega (arith, e, e', f.0);
        back = ap (entry w) e ∙ new_stays l id (ap (entry s.loc2id) (sym e ∙ e') ∙ f.1) b.1;
      }

  target-Maps : (q : List ℕ) → (entry t2 n ≡ loc) × Maps (after q) n
  target-Maps q =
      let f = (All-swapped _ ps n loc new_fresh).1 in
      let b = (All-swapped _ ps n loc named.wrote).1 in
      let e : entry t2 n ≡ loc = elim (moved.kept n) [
        | inl k ↦ k ∙ first.wrote
        | inr h ↦ absurd (omega (arith, All-In _ (keys ps) n nbrs h))
      ] in
      (
        e,
        record {
          known = omega (arith, first.inside, moved.grown);
          low = omega (arith, e, f.0);
          back = ap (entry w) e ∙ new_stays loc n f.1 b.1;
        },
      )

  other-Maps : (q : List ℕ) (id : ℕ) → id < n → entry t2 id ≡ entry t1 id → Maps (after q) id
  other-Maps q id lt k =
      let old = cons id lt in
      let e : entry t2 id ≡ entry s.id2loc id = k ∙ first.kept id (λ q. omega (arith, lt, q)) in
      let l : ℕ = entry s.id2loc id in
      elim (erased.kept l) [
        | inr h ↦
            let (j, i, lt', p) = was_nbr l h in
            nbr-Maps q id (subst (λ i. In i (keys ps)) (sym p ∙ old.back) i)
        | inl k' ↦ elim (named.kept l) [
          | inr h ↦ absurd (omega (arith, bound, lt, old.back, (All-In _ _ l fresh h).1))
          | inl k'' ↦ record {
            known = omega (arith, old.known, first.grown, moved.grown);
            low = omega (arith, e, old.low);
            back = ap (entry w) e ∙ (k' ∙ (k'' ∙ old.back));
          }
        ]
      ]

  after-IsConsistent : (q : List ℕ) → IsConsistent (after q) (n + 1)
  after-IsConsistent q id lt = elim (ℕ_discrete id n) [
    | yes e ↦ subst (Maps (after q)) (sym e) (target-Maps q).1
    | no ne ↦ elim (moved.kept id) [
      | inl k ↦ other-Maps q id (omega (arith, lt, ne)) k
      | inr h ↦ nbr-Maps q id h
    ]
  ]

old-In : (t : List ℕ) (ps : List (ℕ × ℕ)) (j : ℕ) → In j (keys ps) → In (entry t j) (old_locs t ps)
old-In t [] j h = absurd h
old-In t (p ∷ ps) j (inl e) = inl (ap (entry t) e)
old-In t (p ∷ ps) j (inr h) = inr (old-In t ps j h)

-- What an insert of the new id `n` at `loc` leaves, its neighbors at their new locations.
pub record Relocated (s : Locations) (n loc : ℕ) (ps : List (ℕ × ℕ)) (s' : Locations) : Type 0 where
  pub consistent : IsConsistent s' (n + 1)
  pub target : entry s'.id2loc n ≡ loc
  pub freed : All (λ j. entry s'.loc2id (entry s.id2loc j) ≡ invalid_id) (keys ps)
  pub neighbors : All (λ p. entry s'.id2loc p.0 ≡ p.1) ps
  pub others : (id : ℕ) → id < n → (entry s'.id2loc id ≡ entry s.id2loc id) ⊎ In id (keys ps)

-- In an index with a page of one record at least, with `cur_loc` at the beginning of a page and within
-- the table of locations, whose ids below `n` are mapped to locations that are mapped back, let `n` be
-- 2 at least and below the reserved ids. The insert of the id `n` with distinct neighbors below `n`,
-- it and they moved to distinct allocated locations below `cur_loc`, succeeds. Then the target and the neighbors are at those
-- locations, the old locations of the neighbors are free, the other ids are where they were, and
-- every id below `n + 1` is again mapped to a location that is mapped back.
pub relocate-Relocated :
    (s : Locations) (n loc : ℕ) (ps : List (ℕ × ℕ))
    → 0 < s.meta.nnodes_per_sector
    → IsAligned s.meta s.cur_loc
    → s.cur_loc ≤ length s.loc2id
    → IsConsistent s n
    → 2 ≤ n
    → n < allocated_id
    → AreDistinct (keys ps)
    → All (λ j. j < n) (keys ps)
    → AreDistinct (keys (new_pairs ps n loc))
    → All (λ l. (l < s.cur_loc) × (entry s.loc2id l ≡ allocated_id)) (keys (new_pairs ps n loc))
    → (s' : Locations) × (relocate s n loc ps ≡ ok s') × Relocated s n loc ps s'
unfolding relocate erase_and_set_loc
relocate-Relocated s n loc ps pos al sized cons two bound dn nbrs dl fresh =
    let (t1, e1, first) = set_id2loc_lem s n loc (inl two) in
    let (t2, e2, moved) =
      move_ids_lem (record s { id2loc = t1 }) ps
        (All-of_In _ _ (λ j h. omega (arith, (cons j (All-In _ _ j nbrs h)).known, first.grown)))
        dn in
    let (u, e3, named) =
      set_each_lem (record s { id2loc = t2 }) (new_pairs ps n loc)
        (All-of_In _ _ (λ j h. omega (arith, (All-In _ _ j fresh h).0, sized))) dl in
    let old_low : All (λ l. l < s.cur_loc) (old_locs t1 ps) = All-of_In _ _ (λ l h.
      let (j, i, e) = In-old_locs t1 ps l h in
      let lt : j < n = All-In _ (keys ps) j nbrs i in
      let same : entry t1 j ≡ entry s.id2loc j = first.kept j (λ q. omega (arith, lt, q)) in
      omega (arith, e, same, (cons j lt).low)) in
    let (w, q, e4, erased) =
      erase_each_lem (record s { id2loc = t2; loc2id = u }) (old_locs t1 ps) pos al
        (omega (arith, sized, named.grown)) old_low in
    (
      record s { id2loc = t2; loc2id = w; empty_pages = q },
      rw (e1, e2, e3) e4,
      record {
        consistent =
            after-IsConsistent s n loc ps t1 t2 u w cons bound nbrs fresh first moved named erased
              q;
        target =
            (target-Maps s n loc ps t1 t2 u w cons bound nbrs fresh first moved named erased q).0;
        freed = All-of_In _ (keys ps) (λ j h.
            let same : entry t1 j ≡ entry s.id2loc j =
              first.kept j (λ q. omega (arith, All-In _ (keys ps) j nbrs h, q)) in
            ap (entry w) (sym same)
            ∙ All-In _ (old_locs t1 ps) (entry t1 j) erased.freed (old-In t1 ps j h));
        neighbors = All-second _ _ ps moved.wrote;
        others = λ id lt. elim (moved.kept id) [
          | inl k ↦ inl (k ∙ first.kept id (λ q. omega (arith, lt, q)))
          | inr h ↦ inr h
        ];
      },
    )

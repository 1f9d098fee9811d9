-- ===== src/Locations/Assign.antt =====
-- Runs of writes to the maps: `set_each`, `erase_each`, and the ids of relocated neighbors.
use pipe_ann.Base.{
  ℕ, ◌+◌, ◌-◌, ◌*◌, ◌/◌, ◌%◌, ◌≤◌, ◌<◌, ◌≡◌, refl, sym, ap, ◌∙◌, ◌≢◌, ◌⊎◌, inl, inr, true, false,
  List, [], ◌∷◌, ◌++◌, arith, dec_lt, ℕ_discrete, leb, ◌==◌, lt→ltb, ==→eq, ne→==_false, Bool-cases,
  All, length, set, length-set, get_or-set_self, get_or-set_ne,
}
use native.Mathlib.Nat.{div-add-mod'}
use pipe_ann.Layout.{Metadata, loc_sector_no, sector_to_loc}
use pipe_ann.Locations.{Locations, Outcome, ok, ◌>>=◌, invalid_id}
use pipe_ann.Locations.Tables.{
  id2loc, set_id2loc, set_each, erase_loc2id, erase_each, all_invalid, count_up,
}
use pipe_ann.Locations.Claims.{In, AreDistinct, entry, All-In, All-of_In, index_lem, In-count_up}
use pipe_ann.Layout.Sectors.{mul_mono}
use pipe_ann.Locations.Resize.{Written, resize_set_lem, set_loc2id_lem, IsAligned}

abbrev pub keys : List (ℕ × ℕ) → List ℕ
keys [] = []
keys (p ∷ ps) = p.0 ∷ keys ps

-- The pairs are written, each at its own key, and nothing else has changed.
pub record Assigned (t : List ℕ) (ps : List (ℕ × ℕ)) (t' : List ℕ) : Type 0 where
  pub grown : length t ≤ length t'
  pub wrote : All (λ p. (p.0 < length t') × (entry t' p.0 ≡ p.1)) ps
  pub kept : (j : ℕ) → (entry t' j ≡ entry t j) ⊎ In j (keys ps)

Assigned-nil : (t : List ℕ) → Assigned t [] t
Assigned-nil t = record { grown = omega arith; wrote = tt; kept = λ j. inl refl }

Assigned-cons :
    (t t1 t2 : List ℕ) (i v : ℕ) (ps : List (ℕ × ℕ))
    → Written t i v t1
    → All (λ j. i ≢ j) (keys ps)
    → Assigned t1 ps t2
    → Assigned t ((i, v) ∷ ps) t2
Assigned-cons t t1 t2 i v ps w apart a = record {
  grown = omega (arith, w.grown, a.grown);
  wrote = (
    (
      omega (arith, w.inside, a.grown),
      elim (a.kept i) [
        | inl e ↦ e ∙ w.wrote
        | inr h ↦ absurd (All-In (λ j. i ≢ j) (keys ps) i apart h refl)
      ],
    ),
    a.wrote,
  );
  kept = λ j. elim (ℕ_discrete i j) [
    | yes e ↦ inr (inl (sym e))
    | no ne ↦ elim (a.kept j) [ inl e ↦ inl (e ∙ w.kept j ne) | inr h ↦ inr (inr h) ]
  ];
}

pub set_each_lem :
    (s : Locations) (ps : List (ℕ × ℕ))
    → All (λ j. j < length s.loc2id) (keys ps)
    → AreDistinct (keys ps)
    → (t : List ℕ) × (set_each s ps ≡ ok (record s { loc2id = t })) × Assigned s.loc2id ps t
unfolding set_each
set_each_lem s [] low d = (s.loc2id, refl, Assigned-nil s.loc2id)
set_each_lem s ((loc, id) ∷ ps) low d =
    let (t, e, w) = set_loc2id_lem s loc id (inr low.0) in
    let (u, e', a) =
      set_each_lem (record s { loc2id = t }) ps
        (All-of_In _ _ (λ j h. omega (arith, All-In _ _ j low.1 h, w.grown))) d.1 in
    (u, rw (e) e', Assigned-cons s.loc2id t u loc id ps w d.0 a)

-- The locations of the ids before the writes.
abbrev pub old_locs : List ℕ → List (ℕ × ℕ) → List ℕ
old_locs t [] = []
old_locs t (p ∷ ps) = entry t p.0 ∷ old_locs t ps

pub id2loc_lem :
    (s : Locations) (id : ℕ) → id < length s.id2loc → id2loc s id ≡ ok (entry s.id2loc id)
unfolding id2loc
id2loc_lem s id h =
    let e : leb (length s.id2loc) id ≡ false = ground (arith, h) in rw (e) (index_lem s.id2loc id h)

pub set_id2loc_lem :
    (s : Locations) (id loc : ℕ)
    → (2 ≤ id) ⊎ (id < length s.id2loc)
    → (t : List ℕ) × (set_id2loc s id loc ≡ ok (record s { id2loc = t }))
      × Written s.id2loc id loc t
unfolding set_id2loc
set_id2loc_lem s id loc h = let (t, e, w) = resize_set_lem s.id2loc id loc h in (t, rw (e) refl, w)

old_locs-kept :
    (t u : List ℕ) (ps : List (ℕ × ℕ))
    → All (λ j. entry u j ≡ entry t j) (keys ps)
    → old_locs u ps ≡ old_locs t ps
old_locs-kept t u [] a = refl
old_locs-kept t u (p ∷ ps) (e, a) = rw (e, old_locs-kept t u ps a) refl

-- The loop of an insert over its neighbors and their new locations.
unfoldable pub move_ids : Locations → List (ℕ × ℕ) → Outcome (List ℕ × Locations)
unfolding id2loc set_id2loc
move_ids s [] = ok ([], s)
move_ids s ((id, loc) ∷ rest) = id2loc s id >>= λ old.
    set_id2loc s id loc >>= λ s'. move_ids s' rest >>= λ (olds, s''). ok (old ∷ olds, s'')

pub move_ids_lem :
    (s : Locations) (ps : List (ℕ × ℕ))
    → All (λ j. j < length s.id2loc) (keys ps)
    → AreDistinct (keys ps)
    → (t : List ℕ) × (move_ids s ps ≡ ok (old_locs s.id2loc ps, record s { id2loc = t }))
      × Assigned s.id2loc ps t
unfolding move_ids
move_ids_lem s [] low d = (s.id2loc, refl, Assigned-nil s.id2loc)
move_ids_lem s ((id, loc) ∷ ps) low d =
    let (t, e, w) = set_id2loc_lem s id loc (inr low.0) in
    let (u, e', a) =
      move_ids_lem (record s { id2loc = t }) ps
        (All-of_In _ _ (λ j h. omega (arith, All-In _ _ j low.1 h, w.grown))) d.1 in
    let same : old_locs t ps ≡ old_locs s.id2loc ps =
      old_locs-kept s.id2loc t ps (All-of_In _ _ (λ j h. w.kept j (All-In _ _ j d.0 h))) in
    (u, rw (id2loc_lem s id low.0, e, e', same) refl, Assigned-cons s.id2loc t u id loc ps w d.0 a)

all_invalid_lem :
    (t is : List ℕ)
    → All (λ i. i < length t) is
    → ((all_invalid t is ≡ ok true) × All (λ i. entry t i ≡ invalid_id) is)
      ⊎ (all_invalid t is ≡ ok false)
unfolding all_invalid
all_invalid_lem t [] low = inl (refl, tt)
all_invalid_lem t (i ∷ is) low = elim (Bool-cases (entry t i == invalid_id)) [
  | inl e ↦ elim (all_invalid_lem t is low.1) [
    | inl r ↦ inl (rw (index_lem t i low.0, e) r.0, (==→eq _ _ e, r.1))
    | inr r ↦ inr (rw (index_lem t i low.0, e) r)
  ]
  | inr e ↦ inr (rw (index_lem t i low.0, e) refl)
]

below_page :
    (n loc r end i q k : ℕ) → q * n + r ≡ loc → k * n ≡ end → loc < end → i < q * n + n → i < end
below_page n loc r end i q k e e' lt h = elim (dec_lt q k) [
  | yes l ↦ omega (arith, mul_mono (q + 1) k n (omega arith))
  | no nl ↦ absurd (omega (arith, mul_mono k q n (omega (arith, nl))))
]

whole_rows : (q n : ℕ) → (1 + q - 1) * n + 0 ≡ q * n
whole_rows q n = let e : 1 + q - 1 ≡ q = omega arith in ap (λ u. u * n + 0) e ∙ omega arith

-- The slots of the page of a location below an aligned end are below that end.
page_below :
    (m : Metadata) (loc end i : ℕ)
    → 0 < m.nnodes_per_sector
    → IsAligned m end
    → loc < end
    → In i (count_up (sector_to_loc m (loc_sector_no m loc) 0) m.nnodes_per_sector)
    → i < end
unfolding sector_to_loc loc_sector_no
page_below m loc end i pos al lt h =
    let n : ℕ = m.nnodes_per_sector in
    let nz : (n == 0) ≡ false = ne→==_false n 0 (omega (arith, pos)) in
    let start : sector_to_loc m (loc_sector_no m loc) 0 ≡ loc / n * n =
      rw (nz, lt→ltb 0 n pos) (whole_rows (loc / n) n) in
    let range = In-count_up (sector_to_loc m (loc_sector_no m loc) 0) n i h in
    let whole : end % n ≡ 0 = elim al [ inl z ↦ absurd (omega (arith, pos, z)) | inr a ↦ a ] in
    below_page n loc (loc % n) end i (loc / n) (end / n) (div-add-mod' loc n)
      (omega (arith, div-add-mod' end n, whole)) lt (omega (arith, range.1, start))

-- The locations are freed; nothing else in the table has changed.
pub record Erased (t olds t' : List ℕ) : Type 0 where
  pub size : length t' ≡ length t
  pub freed : All (λ i. entry t' i ≡ invalid_id) olds
  pub kept : (j : ℕ) → (entry t' j ≡ entry t j) ⊎ In j olds

pub erase_loc2id_lem :
    (s : Locations) (loc : ℕ)
    → 0 < s.meta.nnodes_per_sector
    → IsAligned s.meta s.cur_loc
    → s.cur_loc ≤ length s.loc2id
    → loc < s.cur_loc
    → (q : List ℕ) × (erase_loc2id s loc
        ≡ ok (record s { loc2id = set s.loc2id loc invalid_id; empty_pages = q }))
unfolding erase_loc2id
erase_loc2id_lem s loc pos al sized low =
    let t : List ℕ = set s.loc2id loc invalid_id in
    let page : ℕ = loc_sector_no s.meta loc in
    let e : leb (length s.loc2id) loc ≡ false = ground (arith, sized, low) in
    let z : (s.meta.nnodes_per_sector == 0) ≡ false = ne→==_false _ _ (omega (arith, pos)) in
    elim (all_invalid_lem t (count_up (sector_to_loc s.meta page 0) s.meta.nnodes_per_sector) (
      All-of_In _ _ (λ i h. omega (
        arith,
        page_below s.meta loc s.cur_loc i pos al low h,
        sized,
        length-set s.loc2id loc invalid_id,
      )))) [
        | inl r ↦ (s.empty_pages ++ (page ∷ []), rw (e, z, r.0) refl)
        | inr r ↦ (s.empty_pages, rw (e, z, r) refl)
      ]

pub erase_each_lem :
    (s : Locations) (olds : List ℕ)
    → 0 < s.meta.nnodes_per_sector
    → IsAligned s.meta s.cur_loc
    → s.cur_loc ≤ length s.loc2id
    → All (λ i. i < s.cur_loc) olds
    → (t q : List ℕ) × (erase_each s olds ≡ ok (record s { loc2id = t; empty_pages = q }))
      × Erased s.loc2id olds t
unfolding erase_each
erase_each_lem s [] pos al sized low =
    (s.loc2id, s.empty_pages, refl, record { size = refl; freed = tt; kept = λ j. inl refl })
erase_each_lem s (i ∷ is) pos al sized low =
    let (q, e) = erase_loc2id_lem s i pos al sized low.0 in
    let s' : Locations = record s { loc2id = set s.loc2id i invalid_id; empty_pages = q } in
    let (t, q', e', r) =
      erase_each_lem s' is pos al (omega (arith, sized, length-set s.loc2id i invalid_id)) low.1 in
    (
      t,
      q',
      rw (e) e',
      record {
        size = r.size ∙ length-set s.loc2id i invalid_id;
        freed = (
          elim (r.kept i) [
            | inl k ↦ k ∙ get_or-set_self s.loc2id i invalid_id 0 (omega (arith, low.0, sized))
            | inr h ↦ All-In _ is i r.freed h
          ],
          r.freed,
        );
        kept = λ j. elim (r.kept j) [
          | inl k ↦ elim (ℕ_discrete i j) [
            | yes p ↦ inr (inl (sym p))
            | no ne ↦ inl (k ∙ get_or-set_ne s.loc2id i j invalid_id 0 ne)
          ]
          | inr h ↦ inr (inr h)
        ];
      },
    )

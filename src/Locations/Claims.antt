-- ===== src/Locations/Claims.antt =====
-- What the loops of `alloc_loc` do to the table: they take free slots, each once, and leave the
-- others as they were.
use pipe_ann.Base.{
  ℕ, zero, suc, ◌+◌, ◌-◌, ◌≤◌, ◌<◌, ◌≡◌, refl, sym, ap, ◌∙◌, subst, ◌≢◌, ◌⊎◌, inl, inr, List, [],
  ◌∷◌, ◌++◌, arith, ◌==◌, if◌then◌else◌, lt→ltb, ==→eq, Bool-cases, trichotomy, All, length, get_or,
  set, length-set, get_or-set_self, get_or-set_ne, All-append,
}
use pipe_ann.Locations.{Outcome, ok, invalid_id, allocated_id}
use pipe_ann.Locations.Tables.{index, count_up}
use pipe_ann.Locations.Alloc.{Claim, claim_empty, claim_holes, count_holes}

abbrev pub In : ℕ → List ℕ → Type 0
In j [] = ⊥
In j (i ∷ is) = (j ≡ i) ⊎ In j is

abbrev pub AreDistinct : List ℕ → Type 0
AreDistinct [] = Unit
AreDistinct (i ∷ is) = All (λ j. i ≢ j) is × AreDistinct is

abbrev pub entry : List ℕ → ℕ → ℕ
entry t i = get_or t i 0

pub In-append_left : (j : ℕ) (xs ys : List ℕ) → In j xs → In j (xs ++ ys)
In-append_left j [] ys h = absurd h
In-append_left j (x ∷ xs) ys (inl e) = inl e
In-append_left j (x ∷ xs) ys (inr h) = inr (In-append_left j xs ys h)

pub In-append_right : (j : ℕ) (xs ys : List ℕ) → In j ys → In j (xs ++ ys)
In-append_right j [] ys h = h
In-append_right j (x ∷ xs) ys h = inr (In-append_right j xs ys h)

pub All-In {ℓ} : (P : ℕ → Type ℓ) (xs : List ℕ) (j : ℕ) → All P xs → In j xs → P j
All-In P [] j a h = absurd h
All-In P (x ∷ xs) j a (inl e) = subst P (sym e) a.0
All-In P (x ∷ xs) j a (inr h) = All-In P xs j a.1 h

pub All-of_In {ℓ} : (P : ℕ → Type ℓ) (xs : List ℕ) → ((j : ℕ) → In j xs → P j) → All P xs
All-of_In P [] f = tt
All-of_In P (x ∷ xs) f = (f x (inl refl), All-of_In P xs (λ j h. f j (inr h)))

pub AreDistinct-append :
    (xs ys : List ℕ)
    → AreDistinct xs
    → AreDistinct ys
    → ((i : ℕ) → In i xs → All (λ j. i ≢ j) ys)
    → AreDistinct (xs ++ ys)
AreDistinct-append [] ys dx dy f = dy
AreDistinct-append (x ∷ xs) ys dx dy f = (
  All-append (λ j. x ≢ j) xs ys dx.0 (f x (inl refl)),
  AreDistinct-append xs ys dx.1 dy (λ i h. f i (inr h)),
)

-- The slots of `got` were free in `t` and are taken in `t'`; nothing else has changed.
pub record Claims (t t' : List ℕ) (got : List ℕ) : Type 0 where
  pub size : length t' ≡ length t
  pub were_free : All (λ i. (i < length t) × (entry t i ≡ invalid_id)) got
  pub are_taken : All (λ i. entry t' i ≡ allocated_id) got
  pub kept : (j : ℕ) → (entry t' j ≡ entry t j) ⊎ In j got
  pub distinct : AreDistinct got

pub Claims-nil : (t : List ℕ) → Claims t t []
Claims-nil t = record {
  size = refl;
  were_free = tt;
  are_taken = tt;
  kept = λ j. inl refl;
  distinct = tt;
}

pub Claims-one :
    (t : List ℕ) (i : ℕ)
    → i < length t
    → entry t i ≡ invalid_id
    → Claims t (set t i allocated_id) (i ∷ [])
Claims-one t i h e = record {
  size = length-set t i allocated_id;
  were_free = ((h, e), tt);
  are_taken = (get_or-set_self t i allocated_id 0 h, tt);
  kept = λ j. elim (trichotomy i j) [
    | inl l ↦ inl (get_or-set_ne t i j allocated_id 0 (omega arith))
    | inr (inl q) ↦ inr (inl (sym q))
    | inr (inr g) ↦ inl (get_or-set_ne t i j allocated_id 0 (omega arith))
  ];
  distinct = (tt, tt);
}

-- Claims follow one another: what the first has taken the second does not find free.
module _ (t t' t'' : List ℕ) (g g' : List ℕ) (c : Claims t t' g) (c' : Claims t' t'' g') where
  apart : (i j : ℕ) → In i g → In j g' → i ≢ j
  apart i j hi hj e = omega (
    arith,
    All-In (λ k. entry t' k ≡ allocated_id) g i c.are_taken hi,
    (All-In (λ k. (k < length t') × (entry t' k ≡ invalid_id)) g' j c'.were_free hj).1,
    ap (entry t') e,
  )

  free_first : (j : ℕ) → In j g' → (j < length t) × (entry t j ≡ invalid_id)
  free_first j h =
      let now : (j < length t') × (entry t' j ≡ invalid_id) = All-In _ g' j c'.were_free h in
      (
        omega (arith, now.0, c.size),
        elim (c.kept j) [ inl e ↦ sym e ∙ now.1 | inr i ↦ absurd (apart j j i h refl) ],
      )

  taken_last : (j : ℕ) → In j g → entry t'' j ≡ allocated_id
  taken_last j h = elim (c'.kept j) [
    | inl e ↦ e ∙ All-In (λ k. entry t' k ≡ allocated_id) g j c.are_taken h
    | inr i ↦ absurd (apart j j h i refl)
  ]

  kept_through : (j : ℕ) → (entry t'' j ≡ entry t j) ⊎ In j (g ++ g')
  kept_through j = elim (c'.kept j) [
    | inl e ↦ elim (c.kept j) [ inl f ↦ inl (e ∙ f) | inr i ↦ inr (In-append_left j g g' i) ]
    | inr i ↦ inr (In-append_right j g g' i)
  ]

  pub Claims-append : Claims t t'' (g ++ g')
  Claims-append = record {
    size = c'.size ∙ c.size;
    were_free = All-append _ g g' c.were_free (All-of_In _ g' free_first);
    are_taken = All-append _ g g' (All-of_In _ g taken_last) c'.are_taken;
    kept = kept_through;
    distinct =
        AreDistinct-append g g' c.distinct c'.distinct
          (λ i hi. All-of_In _ g' (λ j hj. apart i j hi hj));
  }

-- What a loop that looks for `need` locations among `slots` leaves.
pub record Found (slots : List ℕ) (need : ℕ) (t : List ℕ) (c : Claim) : Type 0 where
  pub claims : Claims t c.table c.found
  pub count : length c.found + c.need ≡ need
  pub among : All (λ i. In i slots) c.found

abbrev pub FoundBy : List ℕ → ℕ → List ℕ → Outcome Claim → Type 0
FoundBy slots need t r = (c : Claim) × (r ≡ ok c) × Found slots need t c

pub index_lem : (t : List ℕ) (i : ℕ) → i < length t → index t i ≡ ok (entry t i)
unfolding index
index_lem t i h = rw (lt→ltb i (length t) h)

still_free :
    (t : List ℕ) (i : ℕ) (is : List ℕ)
    → All (λ j. i ≢ j) is
    → All (λ j. (j < length t) × (entry t j ≡ invalid_id)) is
    → All
        (λ j. (j < length (set t i allocated_id)) × (entry (set t i allocated_id) j ≡ invalid_id))
        is
still_free t i [] d f = tt
still_free t i (j ∷ is) d f = (
  (
    omega (arith, length-set t i allocated_id, f.0.0),
    get_or-set_ne t i j allocated_id 0 d.0 ∙ f.0.1,
  ),
  still_free t i is d.1 f.1,
)

Found-cons :
    (i : ℕ) (is : List ℕ) (need : ℕ) (t : List ℕ) (c : Claim)
    → 0 < need
    → i < length t
    → entry t i ≡ invalid_id
    → Found is (need - 1) (set t i allocated_id) c
    → Found (i ∷ is) need t (record c { found = i ∷ c.found })
Found-cons i is need t c pos h e f = record {
  claims =
      Claims-append t (set t i allocated_id) c.table (i ∷ []) c.found (Claims-one t i h e) f.claims;
  count = omega (arith, f.count);
  among = (inl refl, All-of_In _ c.found (λ j m. inr (All-In _ c.found j f.among m)));
}

last_claim :
    (i : ℕ) (is : List ℕ) (need : ℕ) (t : List ℕ)
    → i < length t
    → entry t i ≡ invalid_id
    → need ≡ 1
    → Found (i ∷ is) need t (record { table = set t i allocated_id; found = i ∷ []; need = 0 })
last_claim i is need t h e one = record {
  claims = Claims-one t i h e;
  count = omega arith;
  among = (inl refl, tt);
}

within :
    (t : List ℕ) (i : ℕ) (is : List ℕ)
    → All (λ j. j < length t) is
    → All (λ j. j < length (set t i allocated_id)) is
within t i [] f = tt
within t i (j ∷ is) f = (omega (arith, length-set t i allocated_id, f.0), within t i is f.1)

-- On a free page the loop of step 1 does not crash.
pub claim_empty-Found :
    (slots : List ℕ) (need : ℕ) (t : List ℕ)
    → 0 < need
    → AreDistinct slots
    → All (λ i. (i < length t) × (entry t i ≡ invalid_id)) slots
    → FoundBy slots need t (claim_empty slots need t)
unfolding claim_empty
claim_empty-Found [] need t pos d f =
    (_, refl, record { claims = Claims-nil t; count = omega arith; among = tt })
claim_empty-Found (i ∷ is) need t pos d f = elim (Bool-cases (need == 1)) [
  | inl last ↦ (
    _,
    rw (index_lem t i f.0.0, f.0.1, last) refl,
    last_claim i is need t f.0.0 f.0.1 (==→eq need 1 last),
  )
  | inr more ↦
      let rest : FoundBy is (need - 1) (set t i allocated_id)
          (claim_empty is (need - 1) (set t i allocated_id)) =
        claim_empty-Found is (need - 1) (set t i allocated_id) (ground (arith, more)) d.1
          (still_free t i is d.0 f.1) in
      (
        _,
        rw (index_lem t i f.0.0, f.0.1, more, rest.1) refl,
        Found-cons i is need t rest.0 pos f.0.0 f.0.1 rest.2,
      )
]

-- Step 2 takes the free slots of a page and passes over the others.
pub claim_holes-Found :
    (slots : List ℕ) (need : ℕ) (t : List ℕ)
    → 0 < need
    → All (λ i. i < length t) slots
    → FoundBy slots need t (claim_holes slots need t)
unfolding claim_holes
claim_holes-Found [] need t pos f =
    (_, refl, record { claims = Claims-nil t; count = omega arith; among = tt })
claim_holes-Found (i ∷ is) need t pos f = elim (Bool-cases (entry t i == invalid_id)) [
  | inl free ↦
      let e : entry t i ≡ invalid_id = ==→eq _ _ free in
      elim (Bool-cases (need == 1)) [
        | inl last ↦ (
          _,
          rw (index_lem t i f.0, free, last) refl,
          last_claim i is need t f.0 e (==→eq need 1 last),
        )
        | inr more ↦
            let rest : FoundBy is (need - 1) (set t i allocated_id)
                (claim_holes is (need - 1) (set t i allocated_id)) =
              claim_holes-Found is (need - 1) (set t i allocated_id) (ground (arith, more))
                (within t i is f.1) in
            (
              _,
              rw (index_lem t i f.0, free, more, rest.1) refl,
              Found-cons i is need t rest.0 pos f.0 e rest.2,
            )
      ]
  | inr used ↦
      let rest : FoundBy is need t (claim_holes is need t) = claim_holes-Found is need t pos f.1 in
      (
        rest.0,
        rw (index_lem t i f.0, used, rest.1) refl,
        record {
          claims = rest.2.claims;
          count = rest.2.count;
          among = All-of_In _ rest.0.found (λ j m. inr (All-In _ rest.0.found j rest.2.among m));
        },
      )
]

pub count_holes_total :
    (t slots : List ℕ) → All (λ i. i < length t) slots → (n : ℕ) × (count_holes t slots ≡ ok n)
unfolding count_holes
count_holes_total t [] f = (0, refl)
count_holes_total t (i ∷ is) f =
    let rest : (n : ℕ) × (count_holes t is ≡ ok n) = count_holes_total t is f.1 in
    (if entry t i == invalid_id then rest.0 + 1 else rest.0, rw (index_lem t i f.0, rest.1) refl)

pub In-count_up : (st n i : ℕ) → In i (count_up st n) → (st ≤ i) × (i < st + n)
In-count_up st zero i h = absurd h
In-count_up st (suc n) i (inl e) = (omega arith, omega arith)
In-count_up st (suc n) i (inr h) =
    let (a, b) = In-count_up (st + 1) n i h in (omega (arith, a), omega (arith, b))

pub length-count_up : (st n : ℕ) → length (count_up st n) ≡ n
length-count_up st zero = refl
length-count_up st (suc n) = ap suc (length-count_up (st + 1) n)

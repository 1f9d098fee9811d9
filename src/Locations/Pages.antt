-- ===== src/Locations/Pages.antt =====
-- Steps 1 and 2 of `alloc_loc`: the loops over the pages of the queue and of the hints.
use pipe_ann.Base.{
  ℕ, ◌<◌, ◌≡◌, refl, sym, ◌∙◌, ◌≢◌, ◌⊎◌, inl, inr, List, [], ◌∷◌, ◌++◌, arith, ltb, ◌==◌,
  if◌then◌else◌, ==→eq, Bool-cases, All, length, length-append, All-append,
}
use pipe_ann.Layout.{Metadata}
use pipe_ann.Locations.{ok, invalid_id}
use pipe_ann.Locations.Tables.{page_slots}
use pipe_ann.Locations.Alloc.{
  Claim, add_found, claim_empty, claim_holes, count_holes, drain_empty, use_hints, threshold,
}
use pipe_ann.Locations.Claims.{
  In, AreDistinct, entry, Claims, Claims-nil, Claims-append, Found, FoundBy, claim_empty-Found,
  claim_holes-Found, count_holes_total, In-append_left, In-append_right, All-In, All-of_In,
}

abbrev pub all_slots : Metadata → List ℕ → List ℕ
all_slots m [] = []
all_slots m (page ∷ pages) = page_slots m page ++ all_slots m pages

abbrev pub IsFree : List ℕ → ℕ → Type 0
IsFree t i = (i < length t) × (entry t i ≡ invalid_id)

All-left {ℓ} : (P : ℕ → Type ℓ) (xs ys : List ℕ) → All P (xs ++ ys) → All P xs
All-left P [] ys a = tt
All-left P (x ∷ xs) ys a = (a.0, All-left P xs ys a.1)

All-right {ℓ} : (P : ℕ → Type ℓ) (xs ys : List ℕ) → All P (xs ++ ys) → All P ys
All-right P [] ys a = a
All-right P (x ∷ xs) ys a = All-right P xs ys a.1

AreDistinct-left : (xs ys : List ℕ) → AreDistinct (xs ++ ys) → AreDistinct xs
AreDistinct-left [] ys d = tt
AreDistinct-left (x ∷ xs) ys d = (All-left _ xs ys d.0, AreDistinct-left xs ys d.1)

AreDistinct-right : (xs ys : List ℕ) → AreDistinct (xs ++ ys) → AreDistinct ys
AreDistinct-right [] ys d = d
AreDistinct-right (x ∷ xs) ys d = AreDistinct-right xs ys d.1

AreDistinct-apart : (xs ys : List ℕ) (i j : ℕ) → AreDistinct (xs ++ ys) → In i xs → In j ys → i ≢ j
AreDistinct-apart [] ys i j d hi hj = absurd hi
AreDistinct-apart (x ∷ xs) ys i j d (inl e) hj =
    λ q. All-In (λ k. x ≢ k) ys j (All-right _ xs ys d.0) hj (sym e ∙ q)
AreDistinct-apart (x ∷ xs) ys i j d (inr hi) hj = AreDistinct-apart xs ys i j d.1 hi hj

-- What is free and apart from the slots claimed stays free.
pub still-IsFree :
    (t t' got xs : List ℕ)
    → Claims t t' got
    → All (IsFree t) xs
    → ((i j : ℕ) → In i got → In j xs → i ≢ j)
    → All (IsFree t') xs
still-IsFree t t' got xs c free apart = All-of_In (IsFree t') xs (λ j h.
    let was : IsFree t j = All-In (IsFree t) xs j free h in
    (
      omega (arith, was.0, c.size),
      elim (c.kept j) [ inl e ↦ e ∙ was.1 | inr i ↦ absurd (apart j j i h refl) ],
    ))

pub Found-append :
    (xs ys : List ℕ) (need : ℕ) (t : List ℕ) (c r : Claim)
    → Found xs need t c
    → Found ys c.need c.table r
    → Found (xs ++ ys) need t (add_found c.found r)
Found-append xs ys need t c r f g = record {
  claims = Claims-append t c.table r.table c.found r.found f.claims g.claims;
  count = omega (arith, f.count, g.count, length-append c.found r.found);
  among =
      All-append _ c.found r.found
        (All-of_In _ c.found (λ j h. In-append_left j xs ys (All-In _ c.found j f.among h)))
        (All-of_In _ r.found (λ j h. In-append_right j xs ys (All-In _ r.found j g.among h)));
}

Found-widen_left :
    (xs ys : List ℕ) (need : ℕ) (t : List ℕ) (c : Claim)
    → Found xs need t c
    → Found (xs ++ ys) need t c
Found-widen_left xs ys need t c f = record {
  claims = f.claims;
  count = f.count;
  among = All-of_In _ c.found (λ j h. In-append_left j xs ys (All-In _ c.found j f.among h));
}

Found-widen_right :
    (xs ys : List ℕ) (need : ℕ) (t : List ℕ) (c : Claim)
    → Found ys need t c
    → Found (xs ++ ys) need t c
Found-widen_right xs ys need t c f = record {
  claims = f.claims;
  count = f.count;
  among = All-of_In _ c.found (λ j h. In-append_right j xs ys (All-In _ c.found j f.among h));
}

Found-nothing :
    (xs : List ℕ) (need : ℕ) (t : List ℕ)
    → Found xs need t (record { table = t; found = []; need = need })
Found-nothing xs need t = record { claims = Claims-nil t; count = omega arith; among = tt }

-- Step 1 leaves a queue whose slots are still free and apart, and slots of the queue it was given.
pub record Drained (m : Metadata) (pages : List ℕ) (need : ℕ) (t : List ℕ) (r : Claim × List ℕ)
    : Type 0 where
  pub claimed : Found (all_slots m pages) need t r.0
  pub free : All (IsFree r.0.table) (all_slots m r.1)
  pub distinct : AreDistinct (all_slots m r.1)
  pub remaining : All (λ i. In i (all_slots m pages)) (all_slots m r.1)
  pub exhausted : (r.0.need ≡ 0) ⊎ (r.1 ≡ [])

pub drain_empty_lem :
    (m : Metadata) (pages : List ℕ) (need : ℕ) (t : List ℕ)
    → 0 < need
    → AreDistinct (all_slots m pages)
    → All (IsFree t) (all_slots m pages)
    → (r : Claim × List ℕ) × (drain_empty m pages need t ≡ ok r) × Drained m pages need t r
unfolding drain_empty
drain_empty_lem m [] need t pos d f = (
  _,
  refl,
  record {
    claimed = Found-nothing [] need t;
    free = tt;
    distinct = tt;
    remaining = tt;
    exhausted = inr refl;
  },
)
drain_empty_lem m (page ∷ pages) need t pos d f =
    let xs : List ℕ = page_slots m page in
    let ys : List ℕ = all_slots m pages in
    let (c, e, g) : FoundBy xs need t (claim_empty xs need t) =
      claim_empty-Found xs need t pos (AreDistinct-left xs ys d) (All-left _ xs ys f) in
    let now : All (IsFree c.table) ys =
      still-IsFree t c.table c.found ys g.claims (All-right _ xs ys f)
        (λ i j hi hj. AreDistinct-apart xs ys i j d (All-In _ c.found i g.among hi) hj) in
    elim (Bool-cases (c.need == 0)) [
      | inl done ↦ (
        (c, pages),
        rw (e, done) refl,
        record {
          claimed = Found-widen_left xs ys need t c g;
          free = now;
          distinct = AreDistinct-right xs ys d;
          remaining = All-of_In _ ys (λ j h. In-append_right j xs ys h);
          exhausted = inl (==→eq _ _ done);
        },
      )
      | inr more ↦
          let (r, e', k) : (r : Claim × List ℕ) × (drain_empty m pages c.need c.table ≡ ok r)
              × Drained m pages c.need c.table r =
            drain_empty_lem m pages c.need c.table (ground (arith, more))
              (AreDistinct-right xs ys d) now in
          (
            (add_found c.found r.0, r.1),
            rw (e, more, e') refl,
            record {
              claimed = Found-append xs ys need t c r.0 g k.claimed;
              free = k.free;
              distinct = k.distinct;
              remaining =
                  All-of_In _ _ (λ j h. In-append_right j xs ys (All-In _ _ j k.remaining h));
              exhausted = k.exhausted;
            },
          )
    ]

pub use_hints_lem :
    (m : Metadata) (pages : List ℕ) (need : ℕ) (t : List ℕ)
    → 0 < need
    → All (λ i. i < length t) (all_slots m pages)
    → (r : Claim × List ℕ) × (use_hints m pages need t ≡ ok r)
      × Found (all_slots m pages) need t r.0
unfolding use_hints
use_hints_lem m [] need t pos f = (_, refl, Found-nothing [] need t)
use_hints_lem m (page ∷ pages) need t pos f =
    let xs : List ℕ = page_slots m page in
    let ys : List ℕ = all_slots m pages in
    let (cnt, e) : (n : ℕ) × (count_holes t xs ≡ ok n) =
      count_holes_total t xs (All-left _ xs ys f) in
    elim (Bool-cases (ltb cnt (threshold m))) [
      | inl few ↦
          let (r, e', k) : (r : Claim × List ℕ) × (use_hints m pages need t ≡ ok r)
              × Found ys need t r.0 =
            use_hints_lem m pages need t pos (All-right _ xs ys f) in
          (r, rw (e, few) e', Found-widen_right xs ys need t r.0 k)
      | inr enough ↦
          let (c, e', g) : FoundBy xs need t (claim_holes xs need t) =
            claim_holes-Found xs need t pos (All-left _ xs ys f) in
          let reads : List ℕ = if ltb cnt m.nnodes_per_sector then page ∷ [] else [] in
          elim (Bool-cases (c.need == 0)) [
            | inl done ↦
                ((c, reads), rw (e, enough, e', done) refl, Found-widen_left xs ys need t c g)
            | inr more ↦
                let (r, e'', k) : (r : Claim × List ℕ) × (use_hints m pages c.need c.table ≡ ok r)
                    × Found ys c.need c.table r.0 =
                  use_hints_lem m pages c.need c.table (ground (arith, more)) (
                    All-of_In _ ys (λ j h.
                      omega (arith, All-In _ ys j (All-right _ xs ys f) h, g.claims.size))) in
                (
                  (add_found c.found r.0, reads ++ r.1),
                  rw (e, enough, e', more, e'') refl,
                  Found-append xs ys need t c r.0 g k,
                )
          ]
    ]

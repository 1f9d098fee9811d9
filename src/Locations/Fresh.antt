-- ===== src/Locations/Fresh.antt =====
-- `alloc_loc` as a whole: it never crashes, and what it returns is free, new and distinct.
use pipe_ann.Base.{
  ℕ, zero, suc, ◌+◌, ◌≤◌, ◌<◌, ◌≡◌, refl, sym, ◌∙◌, subst, ◌⊎◌, inl, inr, List, [], ◌++◌,
  append_assoc, arith, ◌==◌, if◌then◌else◌, ==→eq, ==_false→ne, Bool-cases, All, length,
  length-append, All-append,
}
use pipe_ann.Locations.{Locations, Outcome, ok, ◌>>=◌, invalid_id, allocated_id}
use pipe_ann.Locations.Tables.{count_up}
use pipe_ann.Locations.Alloc.{Claim, Allocation, add_found, use_hints, open_pages, alloc_loc}
use pipe_ann.Locations.Claims.{
  In, In-append_left, AreDistinct, AreDistinct-append, entry, Claims, Found, All-In, All-of_In,
  In-count_up, length-count_up,
}
use pipe_ann.Locations.Pages.{
  all_slots, IsFree, Drained, drain_empty_lem, use_hints_lem, Found-append,
}
use pipe_ann.Locations.Resize.{IsAligned, Opened, open_pages_lem}

-- `cur_loc` starts a page and the table reaches it; every slot of a queued page is free, and no
-- page is queued twice.
pub record IsValid (s : Locations) : Type 0 where
  pub started : 2 ≤ s.cur_loc
  pub sized : s.cur_loc ≤ length s.loc2id
  pub aligned : IsAligned s.meta s.cur_loc
  pub queue_free :
      All (λ i. (i < s.cur_loc) × (entry s.loc2id i ≡ invalid_id)) (all_slots s.meta s.empty_pages)
  pub queue_distinct : AreDistinct (all_slots s.meta s.empty_pages)

-- `n` distinct locations that were free or past the end are now taken, and no other location
-- below the old end has changed.
pub record Allocates (s : Locations) (n : ℕ) (a : Allocation) : Type 0 where
  pub count : length a.locs ≡ n
  pub distinct : AreDistinct a.locs
  pub were_free : All (λ i. (s.cur_loc ≤ i) ⊎ (entry s.loc2id i ≡ invalid_id)) a.locs
  pub are_taken : All (λ i. (i < a.state.cur_loc) × (entry a.state.loc2id i ≡ allocated_id)) a.locs
  pub kept : (j : ℕ) → j < s.cur_loc → (entry a.state.loc2id j ≡ entry s.loc2id j) ⊎ In j a.locs
  pub valid : IsValid a.state

AreDistinct-count_up : (st n : ℕ) → AreDistinct (count_up st n)
AreDistinct-count_up st zero = tt
AreDistinct-count_up st (suc n) = (
  All-of_In _ _ (λ j h e. omega (arith, (In-count_up (st + 1) n j h).0, e)),
  AreDistinct-count_up (st + 1) n,
)

-- Steps 1 and 2 only: the table changes by claims below `cur_loc`.
Allocates-Claims :
    (s : Locations) (n : ℕ) (locs reads t queue : List ℕ)
    → IsValid s
    → Claims s.loc2id t locs
    → length locs ≡ n
    → All (λ i. i < s.cur_loc) locs
    → All (λ i. i < s.cur_loc) (all_slots s.meta queue)
    → All (IsFree t) (all_slots s.meta queue)
    → AreDistinct (all_slots s.meta queue)
    → Allocates s n (record {
      locs = locs;
      reads = reads;
      state = record s { loc2id = t; empty_pages = queue };
    })
Allocates-Claims s n locs reads t queue v c count bound low free distinct = record {
  count = count;
  distinct = c.distinct;
  were_free = All-of_In _ locs (λ i h. inr (All-In _ locs i c.were_free h).1);
  are_taken = All-of_In _ locs (λ i h. (All-In _ locs i bound h, All-In _ locs i c.are_taken h));
  kept = λ j lt. c.kept j;
  valid = record {
    started = v.started;
    sized = omega (arith, v.sized, c.size);
    aligned = v.aligned;
    queue_free = All-of_In _ _ (λ i h. (All-In _ _ i low h, (All-In _ _ i free h).1));
    queue_distinct = distinct;
  };
}

-- Step 3 as well: the queue is used up, and the last locations are new.
Allocates-Opened :
    (s : Locations) (n need : ℕ) (found reads t t' : List ℕ) (end : ℕ)
    → IsValid s
    → Claims s.loc2id t found
    → length found + need ≡ n
    → All (λ i. i < s.cur_loc) found
    → Opened (record s { loc2id = t; empty_pages = [] }) need t' end
    → Allocates s n (record {
      locs = found ++ count_up s.cur_loc need;
      reads = reads;
      state = record s { loc2id = t'; empty_pages = []; cur_loc = end };
    })
Allocates-Opened s n need found reads t t' end v c count bound o =
    let new : List ℕ = count_up s.cur_loc need in
    let range : (i : ℕ) → In i new → (s.cur_loc ≤ i) × (i < s.cur_loc + need) =
      In-count_up s.cur_loc need in
    record {
      count = omega (arith, count, length-append found new, length-count_up s.cur_loc need);
      distinct =
          AreDistinct-append found new c.distinct (AreDistinct-count_up s.cur_loc need) (λ i hi.
            All-of_In _ new
              (λ j hj e. omega (arith, All-In _ found i bound hi, (range j hj).0, e)));
      were_free =
          All-append _ found new (All-of_In _ found (λ i h. inr (All-In _ found i c.were_free h).1))
            (All-of_In _ new (λ i h. inl (range i h).0));
      are_taken =
          All-append _ found new
            (All-of_In _ found (λ i h. (
              omega (arith, All-In _ found i bound h, o.room),
              o.taken.below i (All-In _ found i bound h) ∙ All-In _ found i c.are_taken h,
            )))
            (All-of_In _ new (λ i h. (
              omega (arith, (range i h).1, o.room),
              o.taken.filled i (range i h).0 (range i h).1,
            )));
      kept = λ j lt. elim (c.kept j) [
        | inl e ↦ inl (o.taken.below j lt ∙ e)
        | inr h ↦ inr (In-append_left j found new h)
      ];
      valid = record {
        started = omega (arith, v.started, o.room);
        sized = o.fits;
        aligned = o.aligned;
        queue_free = tt;
        queue_distinct = tt;
      };
    }

-- What follows steps 1 and 2, for an empty queue.
module _ (s : Locations) (n : ℕ) (v : IsValid s) where
  finish : List ℕ → List ℕ → Claim → Outcome Allocation
  unfolding alloc_loc
  finish found reads h =
      let s2 = record s { loc2id = h.table; empty_pages = [] } in
      if h.need == 0
      then ok (record { locs = found ++ h.found; reads = reads; state = s2 })
      else (open_pages s2 h.need >>= λ s3. ok (record {
        locs = found ++ (h.found ++ count_up s.cur_loc h.need);
        reads = reads;
        state = s3;
      }))

  finish_lem :
      (slots found reads : List ℕ) (h : Claim)
      → Found slots n s.loc2id (add_found found h)
      → All (λ i. i < s.cur_loc) (found ++ h.found)
      → (a : Allocation) × (finish found reads h ≡ ok a) × Allocates s n a
  unfolding finish
  finish_lem slots found reads h g low = elim (Bool-cases (h.need == 0)) [
    | inl done ↦ (
      _,
      rw (done) refl,
      Allocates-Claims s n (found ++ h.found) reads h.table [] v g.claims
          (omega (arith, g.count, ==→eq _ _ done)) low tt tt tt,
    )
    | inr more ↦
        let (t, end, e, o) =
          open_pages_lem (record s { loc2id = h.table; empty_pages = [] }) h.need v.started
            (omega (arith, v.sized, g.claims.size)) in
        (
          record {
            locs = found ++ (h.found ++ count_up s.cur_loc h.need);
            reads = reads;
            state = record s { loc2id = t; empty_pages = []; cur_loc = end };
          },
          rw (more, e) refl,
          subst
              (λ l. Allocates s n (record {
                locs = l;
                reads = reads;
                state = record s { loc2id = t; empty_pages = []; cur_loc = end };
              }))
              (append_assoc found h.found (count_up s.cur_loc h.need))
              (Allocates-Opened s n h.need (found ++ h.found) reads h.table t end v g.claims g.count
                low o),
        )
  ]

  -- What follows step 1.
  continue : List ℕ → Claim → List ℕ → Outcome Allocation
  unfolding finish
  continue hints c queue =
      let s1 = record s { loc2id = c.table; empty_pages = queue } in
      if c.need == 0
      then ok (record { locs = c.found; reads = []; state = s1 })
      else (use_hints s.meta hints c.need c.table >>= λ (h, reads).
          let s2 = record s1 { loc2id = h.table } in
          if h.need == 0
          then ok (record { locs = c.found ++ h.found; reads = reads; state = s2 })
          else (open_pages s2 h.need >>= λ s3. ok (record {
            locs = c.found ++ (h.found ++ count_up s.cur_loc h.need);
            reads = reads;
            state = s3;
          })))

  continue_lem :
      (hints : List ℕ) (c : Claim) (queue : List ℕ)
      → Drained s.meta s.empty_pages n s.loc2id (c, queue)
      → All (λ i. i < s.cur_loc) (all_slots s.meta hints)
      → (a : Allocation) × (continue hints c queue ≡ ok a) × Allocates s n a
  unfolding continue finish
  continue_lem hints c queue d low =
      let queue_low : All (λ i. i < s.cur_loc) (all_slots s.meta s.empty_pages) =
        All-of_In _ _ (λ i h. (All-In _ _ i v.queue_free h).0) in
      let c_low : All (λ i. i < s.cur_loc) c.found =
        All-of_In _ _ (λ i h. All-In _ _ i queue_low (All-In _ _ i d.claimed.among h)) in
      let left_low : All (λ i. i < s.cur_loc) (all_slots s.meta queue) =
        All-of_In _ _ (λ i h. All-In _ _ i queue_low (All-In _ _ i d.remaining h)) in
      elim (Bool-cases (c.need == 0)) [
        | inl done ↦ (
          _,
          rw (done) refl,
          Allocates-Claims s n c.found [] c.table queue v d.claimed.claims
              (omega (arith, d.claimed.count, ==→eq _ _ done)) c_low left_low d.free d.distinct,
        )
        | inr more ↦
            let empty : queue ≡ [] = elim d.exhausted [
              | inl z ↦ absurd (==_false→ne _ _ more z)
              | inr q ↦ q
            ] in
            let (r, e, f) = use_hints_lem s.meta hints c.need c.table (ground (arith, more)) (
              All-of_In _ _
                (λ i m. omega (arith, All-In _ _ i low m, v.sized, d.claimed.claims.size))) in
            let (a, e', alloc) =
              finish_lem (all_slots s.meta s.empty_pages ++ all_slots s.meta hints) c.found r.1 r.0
                (Found-append _ _ n s.loc2id c r.0 d.claimed f)
                (All-append _ c.found r.0.found c_low
                  (All-of_In _ _ (λ i m. All-In _ _ i low (All-In _ _ i f.among m)))) in
            (a, subst (λ q. continue hints c q ≡ ok a) (sym empty) (rw (more, e) e'), alloc)
      ]

-- Asked for at least one location, with hint pages below the end of the file, `alloc_loc` returns
-- without a crash or an access out of bounds. It returns as many locations as were asked for;
-- they are distinct, each was free or past the end, all are marked allocated, no other location
-- below the old end has changed, and the allocator's invariant holds again.
pub alloc_loc-Allocates :
    (s : Locations) (n : ℕ) (hints : List ℕ)
    → IsValid s
    → 0 < n
    → All (λ i. i < s.cur_loc) (all_slots s.meta hints)
    → (a : Allocation) × (alloc_loc s n hints ≡ ok a) × Allocates s n a
unfolding alloc_loc continue
alloc_loc-Allocates s n hints v pos low =
    let (r, e, d) = drain_empty_lem s.meta s.empty_pages n s.loc2id pos v.queue_distinct (
      All-of_In _ _
        (λ i h. let q = All-In _ _ i v.queue_free h in (omega (arith, q.0, v.sized), q.1))) in
    let (a, e', alloc) = continue_lem s n v hints r.0 r.1 d low in (a, rw (e) e', alloc)

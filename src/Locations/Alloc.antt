-- ===== src/Locations/Alloc.antt =====
-- `alloc_loc`. The number `need` of locations still to find is positive in each loop: the callers
-- ask for at least one.
use pipe_ann.Base.{
  ℕ, zero, suc, ◌+◌, ◌-◌, ◌/◌, ◌%◌, ◌||◌, List, [], ◌∷◌, ◌++◌, ltb, ◌==◌, if◌then◌else◌, set,
}
use pipe_ann.Layout.{Metadata}
use pipe_ann.Locations.{Locations, Outcome, ok, crashed, ◌>>=◌, invalid_id, allocated_id}
use pipe_ann.Locations.Tables.{index, page_slots, set_loc2id, count_up}

-- The table, the locations found, in order, and how many are still to find.
pub record Claim : Type 0 where
  pub table : List ℕ
  pub found : List ℕ
  pub need : ℕ

abbrev pub add_found : List ℕ → Claim → Claim
add_found is c = record c { found = is ++ c.found }

-- Step 1 at one page of the queue: every slot must be free.
unfoldable pub claim_empty : List ℕ → ℕ → List ℕ → Outcome Claim
unfolding index
claim_empty [] need t = ok (record { table = t; found = []; need = need })
claim_empty (i ∷ is) need t =
    let t' = set t i allocated_id in
    let rest = claim_empty is (need - 1) t' in
    index t i >>= λ v.
    if v == invalid_id
    then if need == 1
      then ok (record { table = t'; found = i ∷ []; need = 0 })
      else (rest >>= λ c. ok (add_found (i ∷ []) c))
    else crashed

-- Step 1: the pages of the queue, and what is left of it.
unfoldable pub drain_empty : Metadata → List ℕ → ℕ → List ℕ → Outcome (Claim × List ℕ)
unfolding claim_empty
drain_empty m [] need t = ok (record { table = t; found = []; need = need }, [])
drain_empty m (page ∷ pages) need t = claim_empty (page_slots m page) need t >>= λ c.
    let rest = drain_empty m pages c.need c.table in
    if c.need == 0 then ok (c, pages) else (rest >>= λ r. ok (add_found c.found r.0, r.1))

unfoldable pub count_holes : List ℕ → List ℕ → Outcome ℕ
unfolding index
count_holes t [] = ok 0
count_holes t (i ∷ is) =
    let rest = count_holes t is in
    index t i >>= λ v. rest >>= λ n. ok (if v == invalid_id then n + 1 else n)

-- Step 2 at one page: the free slots.
unfoldable pub claim_holes : List ℕ → ℕ → List ℕ → Outcome Claim
unfolding index
claim_holes [] need t = ok (record { table = t; found = []; need = need })
claim_holes (i ∷ is) need t =
    let t' = set t i allocated_id in
    let taken = claim_holes is (need - 1) t' in
    let skipped = claim_holes is need t in
    index t i >>= λ v.
    if v == invalid_id
    then if need == 1
      then ok (record { table = t'; found = i ∷ []; need = 0 })
      else (taken >>= λ c. ok (add_found (i ∷ []) c))
    else skipped

-- Half of the slots of a page, rounded up: (nnodes_per_sector + INDEX_SIZE_FACTOR - 1) /
-- INDEX_SIZE_FACTOR.
abbrev pub threshold : Metadata → ℕ
threshold m = (m.nnodes_per_sector + 2 - 1) / 2

-- Step 2: the hint pages with enough holes, and those of them that must be read first.
unfoldable pub use_hints : Metadata → List ℕ → ℕ → List ℕ → Outcome (Claim × List ℕ)
unfolding count_holes claim_holes
use_hints m [] need t = ok (record { table = t; found = []; need = need }, [])
use_hints m (page ∷ pages) need t =
    let skipped = use_hints m pages need t in
    count_holes t (page_slots m page) >>= λ cnt.
    if ltb cnt (threshold m)
    then skipped
    else (claim_holes (page_slots m page) need t >>= λ c.
        let reads = if ltb cnt m.nnodes_per_sector then page ∷ [] else [] in
        let rest = use_hints m pages c.need c.table in
        if c.need == 0
        then ok (c, reads)
        else (rest >>= λ r. ok (add_found c.found r.0, reads ++ r.1)))

-- Step 3: `n` new locations from `loc` on.
unfoldable pub append_new : Locations → ℕ → ℕ → Outcome Locations
unfolding set_loc2id
append_new s loc zero = ok s
append_new s loc (suc n) = set_loc2id s loc allocated_id >>= λ s'. append_new s' (loc + 1) n

-- The loop that aligns `cur_loc`; `nnodes_per_sector` rounds are enough.
unfoldable pub align : ℕ → Locations → Outcome Locations
unfolding set_loc2id
align zero s = ok s
align (suc fuel) s =
    let rest = set_loc2id s s.cur_loc invalid_id >>= λ s'.
    align fuel (record s' { cur_loc = s.cur_loc + 1 }) in
    if s.meta.nnodes_per_sector == 0 || s.cur_loc % s.meta.nnodes_per_sector == 0
    then ok s
    else rest

unfoldable pub open_pages : Locations → ℕ → Outcome Locations
unfolding append_new align
open_pages s n = append_new s s.cur_loc n >>= λ s'.
    align s.meta.nnodes_per_sector (record s' { cur_loc = s.cur_loc + n })

abbrev pub Allocation : Type 0
Allocation = record { locs : List ℕ; reads : List ℕ; state : Locations }

unfoldable pub alloc_loc : Locations → ℕ → List ℕ → Outcome Allocation
unfolding drain_empty use_hints open_pages
alloc_loc s n hints = drain_empty s.meta s.empty_pages n s.loc2id >>= λ (c, queue).
    let s1 = record s { loc2id = c.table; empty_pages = queue } in
    if c.need == 0
    then ok (record { locs = c.found; reads = []; state = s1 })
    else (use_hints s.meta hints c.need c.table >>= λ (h, reads).
        let s2 = record s1 { loc2id = h.table } in
        if h.need == 0
        then ok (record { locs = c.found ++ h.found; reads = reads; state = s2 })
        else (open_pages s2 h.need >>= λ s3. ok (record {
          locs = c.found ++ (h.found ++ count_up s.cur_loc h.need);
          reads = reads;
          state = s3;
        })))

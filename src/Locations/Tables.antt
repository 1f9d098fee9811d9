-- ===== src/Locations/Tables.antt =====
-- `id2loc`, `loc2id` and their setters, `erase_loc2id`, `get_page_layout`.
use pipe_ann.Base.{
  ℕ, zero, suc, ◌+◌, ◌-◌, ◌*◌, ◌/◌, Bool, true, false, ◌||◌, List, [], ◌∷◌, ◌++◌, ltb, leb, ◌==◌,
  if◌then◌else◌, length, get_or, set, take, replicate,
}
use pipe_ann.Layout.{Metadata, loc_sector_no, sector_to_loc}
use pipe_ann.Locations.{Locations, Outcome, ok, crashed, undefined, ◌>>=◌, invalid_id}

-- `v.resize(n)` fills with zeros.
unfoldable pub resize : List ℕ → ℕ → List ℕ
resize xs n = take n xs ++ replicate (n - length xs) 0

-- A write that first resizes to 1.5 times the index when that is past the end.
unfoldable pub resize_set : List ℕ → ℕ → ℕ → Outcome (List ℕ)
unfolding resize
resize_set xs i v =
    let xs' = if leb (length xs) i then resize xs (3 * i / 2) else xs in
    if ltb i (length xs') then ok (set xs' i v) else undefined

-- `v[i]` without a test.
unfoldable pub index : List ℕ → ℕ → Outcome ℕ
index xs i = if ltb i (length xs) then ok (get_or xs i 0) else undefined

unfoldable pub id2loc : Locations → ℕ → Outcome ℕ
unfolding index
id2loc s id = if leb (length s.id2loc) id then crashed else index s.id2loc id

-- The test lets the index at the end of the table through.
unfoldable pub loc2id : Locations → ℕ → Outcome ℕ
unfolding index
loc2id s loc = if ltb (length s.loc2id) loc then crashed else index s.loc2id loc

unfoldable pub set_id2loc : Locations → ℕ → ℕ → Outcome Locations
set_id2loc s id loc = resize_set s.id2loc id loc >>= λ t. ok (record s { id2loc = t })

unfoldable pub set_loc2id : Locations → ℕ → ℕ → Outcome Locations
set_loc2id s loc id = resize_set s.loc2id loc id >>= λ t. ok (record s { loc2id = t })

unfoldable pub id2page : Locations → ℕ → Outcome ℕ
unfolding id2loc
id2page s id =
    id2loc s id >>= λ loc. ok (if loc == invalid_id then invalid_id else loc_sector_no s.meta loc)

abbrev pub count_up : ℕ → ℕ → List ℕ
count_up st zero = []
count_up st (suc n) = st ∷ count_up (st + 1) n

-- The locations `[st, ed)` of a page.
unfoldable pub page_slots : Metadata → ℕ → List ℕ
page_slots m page =
    count_up (sector_to_loc m page 0) (if m.nnodes_per_sector == 0 then 1 else m.nnodes_per_sector)

unfoldable pub index_all : List ℕ → List ℕ → Outcome (List ℕ)
unfolding index
index_all xs [] = ok []
index_all xs (i ∷ is) = let rest = index_all xs is in index xs i >>= λ v. rest >>= λ vs. ok (v ∷ vs)

unfoldable pub get_page_layout : Locations → ℕ → Outcome (List ℕ)
unfolding index_all page_slots
get_page_layout s page = index_all s.loc2id (page_slots s.meta page)

-- The loop of `erase_loc2id`: it stops at the first slot that is in use.
unfoldable pub all_invalid : List ℕ → List ℕ → Outcome Bool
unfolding index
all_invalid xs [] = ok true
all_invalid xs (i ∷ is) =
    let rest = all_invalid xs is in index xs i >>= λ v. if v == invalid_id then rest else ok false

-- The last two lines of the function compute `loc % nnodes_per_sector`.
unfoldable pub erase_loc2id : Locations → ℕ → Outcome Locations
unfolding all_invalid
erase_loc2id s loc =
    if leb (length s.loc2id) loc || s.meta.nnodes_per_sector == 0
    then undefined
    else let t = set s.loc2id loc invalid_id in
      let page = loc_sector_no s.meta loc in
      all_invalid t (count_up (sector_to_loc s.meta page 0) s.meta.nnodes_per_sector) >>= λ empty.
      ok (record s {
        loc2id = t;
        empty_pages = if empty then s.empty_pages ++ (page ∷ []) else s.empty_pages;
      })

unfoldable pub set_each : Locations → List (ℕ × ℕ) → Outcome Locations
unfolding set_loc2id
set_each s [] = ok s
set_each s ((loc, id) ∷ rest) = set_loc2id s loc id >>= λ s'. set_each s' rest

unfoldable pub erase_each : Locations → List ℕ → Outcome Locations
unfolding erase_loc2id
erase_each s [] = ok s
erase_each s (loc ∷ rest) = erase_loc2id s loc >>= λ s'. erase_each s' rest

-- The new locations with their ids, paired.
unfoldable pub erase_and_set_loc : Locations → List ℕ → List (ℕ × ℕ) → Outcome Locations
unfolding set_each erase_each
erase_and_set_loc s old_locs new_locs = set_each s new_locs >>= λ s'. erase_each s' old_locs

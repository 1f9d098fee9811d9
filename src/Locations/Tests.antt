-- ===== src/Locations/Tests.antt =====
-- Two records to a page. Page 2 is queued, one slot of page 1 is free.
use pipe_ann.Base.{ℕ, zero, suc, ◌<◌, ◌≡◌, refl, ◌↔◌, inr, true, List, [], ◌∷◌, arith, All}
use pipe_ann.Layout.{Metadata, VectorType, sector_to_loc}
use pipe_ann.Locations.{crashed, Locations, ok, invalid_id, allocated_id}
use pipe_ann.Locations.Tables.{page_slots, resize_set}
use pipe_ann.Locations.Alloc.{Allocation, alloc_loc}
use pipe_ann.Locations.Pages.{all_slots}
use pipe_ann.Locations.Fresh.{IsValid, Allocates, alloc_loc-Allocates}
use pipe_ann.Locations.Relocate.{relocate, IsConsistent, Relocated, relocate-Relocated}
use pipe_ann.Locations.Load.{load_equal, load_equal-IsValid}
use pipe_ann.Locations.Verify.{IsBack, verify_id2loc, verify_id2loc-IsConsistent}

abbrev pairs_meta : Metadata
pairs_meta = record {
  nr = 0;
  nc = 0;
  npoints = 3;
  data_dim = 32;
  entry_point = 0;
  max_node_len = 2048;
  nnodes_per_sector = 2;
  npts_cur_shard = 3;
  attr_size = 0;
  max_npts = 3;
  range = 31;
  r_ood = 8;
  vector_type = VectorType.raw;
  normal_node_len = 2048;
  range_dense = 31;
  entry_point_id = 0;
}

abbrev holes : Locations
holes = record {
  meta = pairs_meta;
  id2loc = 0 ∷ [];
  loc2id = 0 ∷ (invalid_id ∷ (invalid_id ∷ (invalid_id ∷ [])));
  empty_pages = 2 ∷ [];
  cur_loc = 4;
}

holes-IsValid : IsValid holes
unfolding page_slots sector_to_loc
holes-IsValid = record {
  started = omega arith;
  sized = omega arith;
  aligned = inr refl;
  queue_free = ((omega arith, refl), ((omega arith, refl), tt));
  queue_distinct = ((λ e. omega (arith, e), tt), (tt, tt));
}

page_one_low : All (λ i. i < 4) (all_slots pairs_meta (1 ∷ []))
unfolding page_slots sector_to_loc
page_one_low = (omega arith, (omega arith, tt))

alloc_loc-Allocates_example :
    (a : Allocation) × (alloc_loc holes 4 (1 ∷ []) ≡ ok a) × Allocates holes 4 a
alloc_loc-Allocates_example =
    alloc_loc-Allocates holes 4 (1 ∷ []) holes-IsValid (omega arith) page_one_low

-- The queue's page, the hole of the hint, and one new location.
alloc_loc_run : List ℕ
unfolding alloc_loc page_slots sector_to_loc
alloc_loc_run = elim (alloc_loc holes 4 (1 ∷ [])) [ ok a ↦ a.locs | _ ↦ [] ]

alloc_loc_test : alloc_loc_run ≡ 2 ∷ (3 ∷ (1 ∷ (4 ∷ [])))
unfolding alloc_loc_run resize_set
alloc_loc_test = refl

load_equal-IsValid_run : IsValid (load_equal pairs_meta) × IsConsistent (load_equal pairs_meta) 3
load_equal-IsValid_run = load_equal-IsValid pairs_meta (omega arith)

-- Ids 0 to 2 at their own locations; locations 4 and 5 are allocated for the insert of id 3.
abbrev ready : Locations
ready = record {
  meta = pairs_meta;
  id2loc = 0 ∷ (1 ∷ (2 ∷ []));
  loc2id = 0 ∷ (1 ∷ (2 ∷ (invalid_id ∷ (allocated_id ∷ (allocated_id ∷ [])))));
  empty_pages = [];
  cur_loc = 6;
}

ready-IsConsistent : IsConsistent ready 3
ready-IsConsistent zero lt = record { known = omega arith; low = omega arith; back = refl }
ready-IsConsistent (suc zero) lt = record { known = omega arith; low = omega arith; back = refl }
ready-IsConsistent (suc (suc zero)) lt = record {
  known = omega arith;
  low = omega arith;
  back = refl;
}
ready-IsConsistent (suc (suc (suc id))) lt = absurd (omega arith)

relocate-Relocated_example :
    (s : Locations) × (relocate ready 3 5 ((1, 4) ∷ []) ≡ ok s)
    × Relocated ready 3 5 ((1, 4) ∷ []) s
relocate-Relocated_example =
    relocate-Relocated ready 3 5 ((1, 4) ∷ []) (omega arith) (inr refl) (omega arith)
      ready-IsConsistent (omega arith) (omega arith) (tt, tt) (omega arith, tt)
      ((λ e. omega (arith, e), tt), (tt, tt)) ((omega arith, refl), ((omega arith, refl), tt))

verify_id2loc-IsConsistent_example :
    (verify_id2loc ready 3 ≡ ok true)
    ↔ (IsConsistent ready 3 × ((i : ℕ) → i < ready.cur_loc → IsBack ready i))
verify_id2loc-IsConsistent_example = verify_id2loc-IsConsistent ready 3 (omega arith)

-- Location 3 holds the id 9, which is past the table of ids.
verify_stale_run :
    verify_id2loc (record ready { loc2id = 0 ∷ 1 ∷ 2 ∷ 9 ∷ allocated_id ∷ allocated_id ∷ [] }) 3
    ≡ crashed
unfolding verify_id2loc
verify_stale_run = refl

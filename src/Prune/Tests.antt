-- ===== src/Prune/Tests.antt =====
-- Whole numbers as distances: the distance of two ids is their difference.
use pipe_ann.Base.{ℕ, ◌+◌, ◌-◌, ◌/◌, ◌≡◌, refl, List, [], ◌∷◌, arith, ltb, ◌==◌}
use pipe_ann.Prune.{
  l2, Floats, get_occlude_factor, before, place, sort_pool, triangle, scan_evict, rounds,
  first_occluded, slow_path, finish, delta_prune_neighbors,
}
use pipe_ann.Prune.Evict.{count, one_if, delta_prune_neighbors-evicts}

abbrev whole : Floats ℕ
whole = record { zero_f = 0; max_f = 1000; lt_f = ltb; eq_f = ◌==◌; div_f = ◌/◌ }

abbrev gap : ℕ → ℕ → ℕ
gap a b = (a - b) + (b - a)

abbrev around_ten : List ℕ
around_ten = 12 ∷ (40 ∷ (9 ∷ (45 ∷ [])))

-- 40 is close to the target 45, which occludes neither; 45 is the farther one.
evict_test : delta_prune_neighbors whole l2 gap 1 2 1 1 10 45 around_ten ≡ 9 ∷ (12 ∷ (40 ∷ []))
unfolding delta_prune_neighbors sort_pool place before triangle rounds scan_evict first_occluded
    slow_path finish get_occlude_factor
evict_test = refl

delta_prune_neighbors-evicts_example :
    (x : ℕ) × ((j : ℕ)
      → count j (delta_prune_neighbors whole l2 gap 1 2 1 1 10 45 around_ten) + one_if (x == j)
        ≡ count j around_ten)
delta_prune_neighbors-evicts_example =
    delta_prune_neighbors-evicts whole l2 gap 1 2 1 1 10 45 around_ten (omega arith)

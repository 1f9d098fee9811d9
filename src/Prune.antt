-- ===== src/Prune.antt =====
-- src/include/utils/prune_neighbors.h: the occlusion test and `delta_prune_neighbors`. The arithmetic
-- of `float` and the distances that the caller computes are parameters.
pub mod Evict
mod Tests
use pipe_ann.Base.{
  ℕ, zero, suc, ◌+◌, ◌-◌, ◌*◌, ◌/◌, ◌%◌, ◌^◌, ◌≤◌, ◌<◌, min, max, ◌≡◌, refl, sym, ap, ◌∙◌, subst,
  ◌≢◌, ◌↔◌, ◌⊎◌, inl, inr, Bool, true, false, ◌&&◌, ◌||◌, not, Option, none, some, List, [], ◌∷◌,
  ◌++◌, map, reverse, append-nil, append_assoc, arith, dec_lt, dec_le, ℕ_discrete, ltb, leb, ◌==◌,
  if◌then◌else◌, ltb→lt, lt→ltb, leb→le, ltb_false→le, le→ltb_false, ==→eq, ==_self, ne→==_false,
  ==_false→ne, tests, Bool-cases, Option-cases, trichotomy, All, length, get_elem?, get_or, set,
  take, drop, replicate, length-append, length-set, length-take, length-drop, length-replicate,
  take-append-drop, take_all, get_or-set_self, get_or-set_ne, get_or-take, memmove, All-append,
  All-take, All-drop, All-get_or, tally, tally-append, tally-replicate_zero, tally_le, All-middle,
  All-replicate,
}
use pipe_ann.Locations.{invalid_id}

pub data Metric : Type 0 where
  l2 : Metric
  inner_product : Metric
  cosine : Metric

-- The operations of `float` that the code uses.
pub record Floats (F : Type 0) : Type 0 where
  pub zero_f : F
  pub max_f : F
  pub lt_f : F → F → Bool
  pub eq_f : F → F → Bool
  pub div_f : F → F → F

module _ {F : Type 0} (ops : Floats F) where
  unfoldable pub get_occlude_factor : Metric → F → F → F
  get_occlude_factor inner_product dik djk =
      if ops.lt_f djk dik
      then if ops.lt_f ops.zero_f djk
        then ops.div_f dik djk
        else if ops.lt_f dik ops.zero_f
        then ops.div_f djk dik
        else ops.max_f
      else ops.zero_f
  get_occlude_factor _ dik djk = if ops.eq_f djk ops.zero_f then ops.max_f else ops.div_f dik djk

-- A neighbor with its distances to the target and to the center.
pub record TriangleNeighbor (F : Type 0) : Type 0 where
  pub id : ℕ
  pub tgt_dis : F
  pub distance : F

module _ {F : Type 0} (ops : Floats F) where
  unfoldable pub before : TriangleNeighbor F → TriangleNeighbor F → Bool
  before a b = ops.lt_f a.distance b.distance || (ops.eq_f a.distance b.distance && ltb a.id b.id)

  unfoldable pub place : TriangleNeighbor F → List (TriangleNeighbor F) → List (TriangleNeighbor F)
  place x [] = x ∷ []
  place x (y ∷ ys) = let rest = place x ys in if before x y then x ∷ (y ∷ ys) else y ∷ rest

  -- `std::sort`
  unfoldable pub sort_pool : List (TriangleNeighbor F) → List (TriangleNeighbor F)
  sort_pool [] = []
  sort_pool (x ∷ xs) = place x (sort_pool xs)

-- The caller's `compute_distances`, one pair at a time.
abbrev pub Distances : Type 0 → Type 0
Distances F = ℕ → ℕ → F

module _ {F : Type 0} (ops : Floats F) (metric : Metric) (dist : Distances F) where
  unfoldable pub triangle : ℕ → ℕ → List ℕ → List (TriangleNeighbor F)
  triangle center target [] = []
  triangle center target (j ∷ js) =
      record { id = j; tgt_dis = dist target j; distance = dist center j }
      ∷ triangle center target js

  abbrev pub nth : List (TriangleNeighbor F) → ℕ → TriangleNeighbor F
  nth pool i = get_or pool i (record { id = 0; tgt_dis = ops.zero_f; distance = ops.zero_f })

  -- The inner loop of the fast path, from `i - 1` down: what to evict, and where the target is.
  unfoldable pub scan_evict : List (TriangleNeighbor F) → ℕ → F → F → ℕ → ℕ → ℕ × ℕ
  scan_evict pool target center_dist cur_alpha zero tgt_idx = (invalid_id, tgt_idx)
  scan_evict pool target center_dist cur_alpha (suc i) tgt_idx =
      let p = nth pool i in
      let at_target = scan_evict pool target center_dist cur_alpha i i in
      let next = scan_evict pool target center_dist cur_alpha i tgt_idx in
      if p.id == target
      then at_target
      else if ops.lt_f center_dist p.distance
      then if ops.lt_f cur_alpha (get_occlude_factor ops metric p.distance p.tgt_dis)
        then (i, tgt_idx)
        else next
      else if ops.lt_f cur_alpha (get_occlude_factor ops metric center_dist p.tgt_dis)
      then (tgt_idx, tgt_idx)
      else next

  -- The rounds of the fast path, at most `fuel`: alpha is divided by `step` down to `bound`.
  unfoldable pub rounds : ℕ → F → F → List (TriangleNeighbor F) → ℕ → F → F → ℕ × ℕ → ℕ × ℕ
  rounds zero step bound pool target center_dist cur_alpha s = s
  rounds (suc fuel) step bound pool target center_dist cur_alpha s =
      let s' = scan_evict pool target center_dist cur_alpha (length pool) s.1 in
      let rest = rounds fuel step bound pool target center_dist (ops.div_f cur_alpha step) s' in
      if not (ops.lt_f cur_alpha bound) && (s.0 == invalid_id) then rest else s

  -- The inner loop of the slow path: `n` positions from `t` on.
  unfoldable pub first_occluded : List (TriangleNeighbor F) → F → ℕ → ℕ → ℕ → Option ℕ
  first_occluded pool alpha start zero t = none
  first_occluded pool alpha start (suc n) t =
      let rest = first_occluded pool alpha start n (t + 1) in
      let d = dist (nth pool start).id (nth pool t).id in
      if ops.lt_f alpha (get_occlude_factor ops metric (nth pool t).distance d)
      then some t
      else rest

  -- The slow path: `n` positions from `start` on, all but the last of the pool.
  unfoldable pub slow_path : List (TriangleNeighbor F) → F → ℕ → ℕ → ℕ → ℕ
  slow_path pool alpha tgt_idx zero start = length pool - 1
  slow_path pool alpha tgt_idx (suc n) start =
      let rest = slow_path pool alpha tgt_idx n (start + 1) in
      if start == tgt_idx
      then rest
      else elim (first_occluded pool alpha start (length pool - start - 1) (start + 1)) [
        | some t ↦ t
        | none ↦ rest
      ]

  -- `finish`: the ids but the one at `to_evict`.
  unfoldable pub finish : List (TriangleNeighbor F) → ℕ → List ℕ
  finish [] e = []
  finish (p ∷ ps) zero = map (λ q. q.id) ps
  finish (p ∷ ps) (suc e) = p.id ∷ finish ps e

  unfoldable pub delta_prune_neighbors : ℕ → F → F → F → ℕ → ℕ → List ℕ → List ℕ
  delta_prune_neighbors fuel step bound alpha center target nhood =
      let pool = sort_pool ops (triangle center target nhood) in
      let center_dist = dist center (get_or nhood (length nhood - 1) 0) in
      let (to_evict, tgt_idx) =
        rounds fuel step bound pool target center_dist alpha (invalid_id, invalid_id) in
      if to_evict == invalid_id
      then finish pool (slow_path pool alpha tgt_idx (length pool - 1) 0)
      else finish pool to_evict

-- ===== src/Prune/Evict.antt =====
-- `delta_prune_neighbors` evicts exactly one neighbor, whatever the distances are.
use pipe_ann.Base.{
  ℕ, zero, suc, ◌+◌, ◌-◌, ◌≤◌, ◌<◌, ◌≡◌, refl, sym, ap, ◌∙◌, ◌⊎◌, inl, inr, Bool, true, false, ◌&&◌,
  not, some, List, [], ◌∷◌, map, arith, ◌==◌, ==_false→ne, Bool-cases, Option-cases, length, get_or,
}
use mathlib.Core.Option.{some-injective}
use pipe_ann.Locations.{invalid_id}
use pipe_ann.Prune.{
  Metric, Floats, get_occlude_factor, TriangleNeighbor, before, place, sort_pool, Distances,
  triangle, nth, scan_evict, rounds, first_occluded, slow_path, finish, delta_prune_neighbors,
}

abbrev pub one_if : Bool → ℕ
one_if true = 1
one_if false = 0

abbrev pub count : ℕ → List ℕ → ℕ
count j [] = 0
count j (x ∷ xs) = one_if (x == j) + count j xs

abbrev ids : {F : Type 0} → List (TriangleNeighbor F) → List ℕ
ids ps = map (λ q. q.id) ps

-- A position of the pool, or none.
abbrev Within : ℕ → ℕ → Type 0
Within n i = (i ≡ invalid_id) ⊎ (i < n)

module _ {F : Type 0} (ops : Floats F) where
  count-place :
      (j : ℕ) (x : TriangleNeighbor F) (ys : List (TriangleNeighbor F))
      → count j (ids (place ops x ys)) ≡ one_if (x.id == j) + count j (ids ys)
  unfolding place
  count-place j x [] = refl
  count-place j x (y ∷ ys) = elim (Bool-cases (before ops x y)) [
    | inl e ↦ rw (e) refl
    | inr e ↦ rw (e) (omega (arith, count-place j x ys))
  ]

  length-place :
      (x : TriangleNeighbor F) (ys : List (TriangleNeighbor F))
      → length (place ops x ys) ≡ suc (length ys)
  unfolding place
  length-place x [] = refl
  length-place x (y ∷ ys) = elim (Bool-cases (before ops x y)) [
    | inl e ↦ rw (e) refl
    | inr e ↦ rw (e) (ap suc (length-place x ys))
  ]

  count-sort_pool :
      (j : ℕ) (xs : List (TriangleNeighbor F)) → count j (ids (sort_pool ops xs)) ≡ count j (ids xs)
  unfolding sort_pool
  count-sort_pool j [] = refl
  count-sort_pool j (x ∷ xs) =
      omega (arith, count-place j x (sort_pool ops xs), count-sort_pool j xs)

  length-sort_pool : (xs : List (TriangleNeighbor F)) → length (sort_pool ops xs) ≡ length xs
  unfolding sort_pool
  length-sort_pool [] = refl
  length-sort_pool (x ∷ xs) = length-place x (sort_pool ops xs) ∙ ap suc (length-sort_pool xs)

module _ {F : Type 0} (ops : Floats F) (metric : Metric) (dist : Distances F) where
  ids-triangle :
      (center target : ℕ) (js : List ℕ) → ids (triangle ops metric dist center target js) ≡ js
  unfolding triangle
  ids-triangle center target [] = refl
  ids-triangle center target (j ∷ js) = ap (◌∷◌ j) (ids-triangle center target js)

  length-triangle :
      (center target : ℕ) (js : List ℕ)
      → length (triangle ops metric dist center target js) ≡ length js
  unfolding triangle
  length-triangle center target [] = refl
  length-triangle center target (j ∷ js) = ap suc (length-triangle center target js)

  count-finish :
      (ps : List (TriangleNeighbor F)) (e : ℕ)
      → e < length ps
      → (x : ℕ) × ((j : ℕ)
          → count j (finish ops metric dist ps e) + one_if (x == j) ≡ count j (ids ps))
  unfolding finish
  count-finish [] e h = elim h [ ]
  count-finish (p ∷ ps) zero h = (p.id, λ j. omega arith)
  count-finish (p ∷ ps) (suc e) h =
      let (x, f) = count-finish ps e (omega arith) in (x, λ j. omega (arith, f j))

  scan_evict-Within :
      (pool : List (TriangleNeighbor F)) (target : ℕ) (c a : F) (i tgt : ℕ)
      → i ≤ length pool
      → Within (length pool) tgt
      → let r = scan_evict ops metric dist pool target c a i tgt in
        Within (length pool) r.0 × Within (length pool) r.1
  unfolding scan_evict
  scan_evict-Within pool target c a zero tgt h w = (inl refl, w)
  scan_evict-Within pool target c a (suc i) tgt h w =
      let p = nth ops metric dist pool i in
      let here : i < length pool = omega arith in
      elim (Bool-cases (p.id == target)) [
        | inl e ↦ rw (e) (scan_evict-Within pool target c a i i (omega arith) (inr here))
        | inr e ↦ elim (Bool-cases (ops.lt_f c p.distance)) [
          | inl far ↦
              elim (Bool-cases (ops.lt_f a (get_occlude_factor ops metric p.distance p.tgt_dis))) [
                | inl o ↦ rw (e, far, o) (inr here, w)
                | inr o ↦ rw (e, far, o) (scan_evict-Within pool target c a i tgt (omega arith) w)
              ]
          | inr near ↦ elim (Bool-cases (ops.lt_f a (get_occlude_factor ops metric c p.tgt_dis))) [
            | inl o ↦ rw (e, near, o) (w, w)
            | inr o ↦ rw (e, near, o) (scan_evict-Within pool target c a i tgt (omega arith) w)
          ]
        ]
      ]

  rounds-Within :
      (fuel : ℕ) (step bound : F) (pool : List (TriangleNeighbor F)) (target : ℕ) (c a : F)
      (s : ℕ × ℕ)
      → Within (length pool) s.0
      → Within (length pool) s.1
      → Within (length pool) (rounds ops metric dist fuel step bound pool target c a s).0
  unfolding rounds
  rounds-Within zero step bound pool target c a s w w' = w
  rounds-Within (suc fuel) step bound pool target c a s w w' =
      let (v, v') = scan_evict-Within pool target c a (length pool) s.1 (omega arith) w' in
      elim (Bool-cases (not (ops.lt_f a bound) && (s.0 == invalid_id))) [
        | inl e ↦ rw (e) (rounds-Within fuel step bound pool target c (ops.div_f a step) _ v v')
        | inr e ↦ rw (e) w
      ]

  first_occluded-below :
      (pool : List (TriangleNeighbor F)) (alpha : F) (start n t u : ℕ)
      → first_occluded ops metric dist pool alpha start n t ≡ some u
      → u < t + n
  unfolding first_occluded
  first_occluded-below pool alpha start zero t u e = absurd (cc e)
  first_occluded-below pool alpha start (suc n) t u e =
      let d = dist (nth ops metric dist pool start).id (nth ops metric dist pool t).id in
      elim (Bool-cases
        (ops.lt_f alpha (get_occlude_factor ops metric (nth ops metric dist pool t).distance d))) [
          | inl o ↦
              let q : some t ≡ some u = rw (← e, o) refl in omega (arith, some-injective t u q)
          | inr o ↦
              let q : first_occluded ops metric dist pool alpha start n (t + 1) ≡ some u =
                sym (rw (o) refl) ∙ e in
              omega (arith, first_occluded-below pool alpha start n (t + 1) u q)
        ]

  slow_path-below :
      (pool : List (TriangleNeighbor F)) (alpha : F) (tgt n start : ℕ)
      → 0 < length pool
      → start + n < length pool
      → slow_path ops metric dist pool alpha tgt n start < length pool
  unfolding slow_path
  slow_path-below pool alpha tgt zero start pos h = omega arith
  slow_path-below pool alpha tgt (suc n) start pos h =
      let rest = slow_path-below pool alpha tgt n (start + 1) pos (omega arith) in
      elim (Bool-cases (start == tgt)) [
        | inl e ↦ rw (e) rest
        | inr e ↦
            elim (Option-cases (
              first_occluded ops metric dist pool alpha start (length pool - start - 1)
                (start + 1))) [
                  | inl o ↦ rw (e, o) rest
                  | inr (u, o) ↦
                      rw (e, o)
                        (omega (
                          arith,
                          first_occluded-below pool alpha start (length pool - start - 1)
                              (start + 1) u o,
                        ))
                ]
      ]

-- Whatever the metric, the arithmetic, the distances and the number of rounds, one neighbor of a
-- nonempty list is evicted, once, and every other keeps all its occurrences.
pub delta_prune_neighbors-evicts :
    {F : Type 0} (ops : Floats F) (metric : Metric) (dist : Distances F) (fuel : ℕ)
    (step bound alpha : F) (center target : ℕ) (nhood : List ℕ)
    → 0 < length nhood
    → (x : ℕ) × ((j : ℕ)
        → count j (delta_prune_neighbors ops metric dist fuel step bound alpha center target nhood)
            + one_if (x == j)
          ≡ count j nhood)
unfolding delta_prune_neighbors
delta_prune_neighbors-evicts ops metric dist fuel step bound alpha center target nhood pos =
    let pool = sort_pool ops (triangle ops metric dist center target nhood) in
    let size : length pool ≡ length nhood =
      length-sort_pool ops (triangle ops metric dist center target nhood)
      ∙ length-triangle ops metric dist center target nhood in
    let same : (j : ℕ) → count j (ids pool) ≡ count j nhood = λ j.
      count-sort_pool ops j (triangle ops metric dist center target nhood)
      ∙ ap (count j) (ids-triangle ops metric dist center target nhood) in
    let c = dist center (get_or nhood (length nhood - 1) 0) in
    let s = rounds ops metric dist fuel step bound pool target c alpha (invalid_id, invalid_id) in
    let w : Within (length pool) s.0 =
      rounds-Within ops metric dist fuel step bound pool target c alpha (invalid_id, invalid_id)
        (inl refl) (inl refl) in
    let evict : (e : ℕ)
        → e < length pool
        → (x : ℕ) × ((j : ℕ)
            → count j (finish ops metric dist pool e) + one_if (x == j) ≡ count j nhood) =
      λ e lt. let (x, f) = count-finish ops metric dist pool e lt in (x, λ j. f j ∙ same j) in
    elim (Bool-cases (s.0 == invalid_id)) [
      | inl fast_failed ↦ rw (fast_failed) (
          evict (slow_path ops metric dist pool alpha s.1 (length pool - 1) 0) (
            slow_path-below ops metric dist pool alpha s.1 (length pool - 1) 0
              (omega (arith, size, pos)) (omega (arith, size, pos))))
      | inr found ↦
          rw (found) (evict s.0 (elim w [ inl e ↦ absurd (==_false→ne _ _ found e) | inr lt ↦ lt ]))
    ]

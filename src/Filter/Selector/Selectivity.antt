-- ===== src/Filter/Selector/Selectivity.antt =====
-- The estimated selectivity, which orders the branches of a conjunction: `estimate_selectivity` and
-- `estimate_precision` of the selectors.
use pipe_ann.Base.{
  ℕ, ◌≤◌, ◌<◌, ◌≡◌, refl, ap, ◌∙◌, inl, inr, Bool, true, false, Option, some, List, [], ◌∷◌,
  if◌then◌else◌, Bool-cases,
}
use pipe_ann.Filter.Ids.{has}
use pipe_ann.Filter.Attributes.{Attribute, Attributes, get}
use pipe_ann.Filter.Selector.{
  Double, Doubles, AttrIndex, Indexes, Leaf, Selector, Branches, Selectors, leaf, and_selector,
  or_selector, not_selector, no_branch, branch, no_selector, selector,
}
use pipe_ann.Filter.Selector.Member.{
  and_then, or_else, negate, is_member, is_member_all, is_member_any,
}
use pipe_ann.Filter.Selector.PreFilter.{◌>>=◌}
use pipe_ann.Filter.Selector.Complement.{max_id}
use pipe_ann.Filter.Selector.{question, by_record}
use pipe_ann.Filter.Selector.Records.{records}
use pipe_ann.Filter.Selector.Exact.{IsExact, AreExactBranches, AreExact, pre_filter_strict}

module _ (d : Doubles) where
  -- `std::min(x, 1.0)`
  unfoldable pub at_most_one : Double → Double
  at_most_one x = if d.lt_d d.one_d x then d.one_d else x

  unfoldable pub fraction : AttrIndex → Leaf → Attribute → Double
  unfolding question
  fraction index kind query =
      d.div_d (d.of_count (index.estimate_count (question kind) query)) (d.of_count index.n_vectors)

  unfoldable pub add_fractions : AttrIndex → Leaf → Double → List Attribute → Double
  unfolding fraction
  add_fractions index kind total [] = total
  add_fractions index kind total (r ∷ rs) =
      add_fractions index kind (d.add_d total (fraction index kind r)) rs

  unfoldable pub leaf_selectivity : AttrIndex → Leaf → Attribute → Double
  unfolding at_most_one fraction add_fractions records by_record
  leaf_selectivity index kind query =
      if by_record kind
      then at_most_one (add_fractions index kind d.zero_d (records query))
      else fraction index kind query

  -- `std::sort` by selectivity, one branch put in its place.
  unfoldable pub place : Selector → Double → Branches → Branches
  place s w no_branch = branch s w no_branch
  place s w (branch s' w' bs) =
      let rest = place s w bs in
      if d.lt_d w' w then branch s' w' rest else branch s w (branch s' w' bs)

  module _ (indexes : Indexes) (query : Attributes) where
    -- The estimate, with the selector after it: its branches have their selectivities, in order.
    unfoldable mutual
      unfolding leaf_selectivity place get

      pub estimate_selectivity : Selector → Option (Double × Selector)
      estimate_selectivity (leaf kind key base_key index list) = get query key >>= λ q.
          some (leaf_selectivity (indexes index) kind q, leaf kind key base_key index list)
      estimate_selectivity (and_selector bs) =
          multiply d.one_d bs >>= λ r. some (r.0, and_selector r.1)
      estimate_selectivity (or_selector ss) =
          add_up d.zero_d ss >>= λ r. some (r.0, or_selector r.1)
      estimate_selectivity (not_selector s n_vectors ids) =
          estimate_selectivity s >>= λ r. some (d.sub_d d.one_d r.0, not_selector r.1 n_vectors ids)

      -- The product, and the branches sorted.
      pub multiply : Double → Branches → Option (Double × Branches)
      multiply selectivity no_branch = some (selectivity, no_branch)
      multiply selectivity (branch s w bs) = estimate_selectivity s >>= λ r.
          multiply (d.mul_d selectivity r.0) bs >>= λ rs. some (rs.0, place r.1 r.0 rs.1)

      pub add_up : Double → Selectors → Option (Double × Selectors)
      add_up selectivity no_selector = some (selectivity, no_selector)
      add_up selectivity (selector s ss) = estimate_selectivity s >>= λ r.
          add_up (d.add_d selectivity r.0) ss >>= λ rs. some (rs.0, selector r.1 rs.1)

and_then_swap :
    (b b' : Bool) (x : Option Bool)
    → and_then (some b) (and_then (some b') x) ≡ and_then (some b') (and_then (some b) x)
unfolding and_then
and_then_swap true b' x = refl
and_then_swap false true x = refl
and_then_swap false false x = refl

and_then_swap_eq :
    (o o' : Option Bool) (b b' : Bool) (x : Option Bool)
    → o ≡ some b
    → o' ≡ some b'
    → and_then o' (and_then o x) ≡ and_then o (and_then o' x)
and_then_swap_eq o o' b b' x p q = rw (p, q) (and_then_swap b' b x)

module _ (d : Doubles) (indexes : Indexes) (query : Attributes) (rows : ℕ → Attributes) (n : ℕ)
    (h : n ≤ max_id) where
  abbrev pub IsExactHere : Selector → Type 0
  IsExactHere = IsExact d indexes query rows n

  -- The answers for the vectors are the same.
  abbrev pub Same : (ℕ → Option Bool) → (ℕ → Option Bool) → Type 0
  Same f g = (id : ℕ) → id < n → f id ≡ g id

  place-AreExactBranches :
      (s : Selector) (w : Double) (bs : Branches)
      → IsExactHere s
      → AreExactBranches d indexes query rows n bs
      → IsExactHere (and_selector (place d s w bs))
        × AreExactBranches d indexes query rows n (place d s w bs)
  unfolding place IsExact
  place-AreExactBranches s w no_branch i is = ((i, is), (i, is))
  place-AreExactBranches s w (branch s' w' bs) i (i', is) = elim (Bool-cases (d.lt_d w' w)) [
    | inl e ↦ let (p, q) = place-AreExactBranches s w bs i is in rw e ((i', q), (i', q))
    | inr e ↦ rw e ((i, (i', is)), (i, (i', is)))
  ]

  is_member_all-place :
      (s : Selector) (w : Double) (bs : Branches) (id : ℕ)
      → IsExactHere s
      → AreExactBranches d indexes query rows n bs
      → id < n
      → is_member_all (place d s w bs) query (rows id)
        ≡ and_then (is_member s query (rows id)) (is_member_all bs query (rows id))
  unfolding place is_member IsExact
  is_member_all-place s w no_branch id i is lt = refl
  is_member_all-place s w (branch s' w' bs) id i (i', is) lt =
      let (l, _, _, a) = pre_filter_strict d indexes query rows n h s i in
      let (l', _, _, a') = pre_filter_strict d indexes query rows n h s' i' in
      let ih = is_member_all-place s w bs id i is lt in
      elim (Bool-cases (d.lt_d w' w)) [
        | inl e ↦ rw e (
            ap (and_then (is_member s' query (rows id))) ih
            ∙ and_then_swap_eq (is_member s query (rows id)) (is_member s' query (rows id))
                (has l id) (has l' id) (is_member_all bs query (rows id)) (a id lt) (a' id lt))
        | inr e ↦ rw e refl
      ]

  -- What the estimate has of one selector, of branches, and of selectors.
  abbrev pub Estimated : Selector → Type 0
  Estimated s =
      (r : Double × Selector) × (estimate_selectivity d indexes query s ≡ some r)
      × IsExactHere r.1
      × Same (λ id. is_member r.1 query (rows id)) (λ id. is_member s query (rows id))

  abbrev EstimatedBranches : Double → Branches → Type 0
  EstimatedBranches w bs =
      (r : Double × Branches) × (multiply d indexes query w bs ≡ some r)
      × AreExactBranches d indexes query rows n r.1
      × Same (λ id. is_member_all r.1 query (rows id)) (λ id. is_member_all bs query (rows id))

  multiply_branch :
      (v w : Double) (s : Selector) (bs : Branches)
      → Estimated s
      → ((u : Double) → EstimatedBranches u bs)
      → (r : Double × Branches) × (multiply d indexes query v (branch s w bs) ≡ some r)
        × IsExactHere (and_selector r.1)
        × AreExactBranches d indexes query rows n r.1
        × Same
            (λ id. is_member_all r.1 query (rows id))
            (λ id. is_member_all (branch s w bs) query (rows id))
  unfolding estimate_selectivity is_member
  multiply_branch v w s bs (r, e, j, same) f =
      let (rs, es, js, sames) = f (d.mul_d v r.0) in
      let (p, q) = place-AreExactBranches r.1 r.0 rs.1 j js in
      (
        (rs.0, place d r.1 r.0 rs.1),
        ap
              (λ o. o >>= λ t. multiply d indexes query (d.mul_d v t.0) bs >>= λ ts.
                some (ts.0, place d t.1 t.0 ts.1))
              e
            ∙ ap (λ o. o >>= λ ts. some (ts.0, place d r.1 r.0 ts.1)) es,
        p,
        q,
        λ id lt.
            is_member_all-place r.1 r.0 rs.1 id j js lt
            ∙ ap (λ o. and_then o (is_member_all rs.1 query (rows id))) (same id lt)
            ∙ ap (and_then (is_member s query (rows id))) (sames id lt),
      )

  mutual
    unfolding estimate_selectivity is_member IsExact

    estimate-Same : (s : Selector) → IsExactHere s → Estimated s
    estimate-Same (leaf kind key base_key index list) i = (
      (leaf_selectivity d (indexes index) kind i.attribute, leaf kind key base_key index list),
      ap
          (λ o. o >>= λ q.
            some (leaf_selectivity d (indexes index) kind q, leaf kind key base_key index list))
          i.bound,
      i,
      λ id lt. refl,
    )
    estimate-Same (and_selector no_branch) i = absurd i
    estimate-Same (and_selector (branch s w bs)) i =
        let (r, e, j, js, same) =
          multiply_branch d.one_d w s bs (estimate-Same s i.0) (λ u. multiply-Same u bs i.1) in
        ((r.0, and_selector r.1), ap (λ o. o >>= λ t. some (t.0, and_selector t.1)) e, j, same)
    estimate-Same (or_selector ss) i =
        let (r, e, j, same) = add_up-Same d.zero_d ss i in
        ((r.0, or_selector r.1), ap (λ o. o >>= λ t. some (t.0, or_selector t.1)) e, j, same)
    estimate-Same (not_selector s n_vectors ids) (p, i) =
        let (r, e, j, same) = estimate-Same s i in
        (
          (d.sub_d d.one_d r.0, not_selector r.1 n_vectors ids),
          ap (λ o. o >>= λ t. some (d.sub_d d.one_d t.0, not_selector t.1 n_vectors ids)) e,
          (p, j),
          λ id lt. ap negate (same id lt),
        )

    multiply-Same :
        (w : Double) (bs : Branches)
        → AreExactBranches d indexes query rows n bs
        → EstimatedBranches w bs
    multiply-Same w no_branch i = ((w, no_branch), refl, tt, λ id lt. refl)
    multiply-Same w (branch s w' bs) (i, is) =
        let (r, e, j, js, same) =
          multiply_branch w w' s bs (estimate-Same s i) (λ u. multiply-Same u bs is) in
        (r, e, js, same)

    add_up-Same :
        (w : Double) (ss : Selectors)
        → AreExact d indexes query rows n ss
        → (r : Double × Selectors) × (add_up d indexes query w ss ≡ some r)
          × AreExact d indexes query rows n r.1
          × Same (λ id. is_member_any r.1 query (rows id)) (λ id. is_member_any ss query (rows id))
    add_up-Same w no_selector i = ((w, no_selector), refl, tt, λ id lt. refl)
    add_up-Same w (selector s ss) (i, is) =
        let (r, e, j, same) = estimate-Same s i in
        let (rs, es, js, sames) = add_up-Same (d.add_d w r.0) ss is in
        (
          (rs.0, selector r.1 rs.1),
          ap
                (λ o. o >>= λ t. add_up d indexes query (d.add_d w t.0) ss >>= λ ts.
                  some (ts.0, selector t.1 ts.1))
                e
              ∙ ap (λ o. o >>= λ ts. some (ts.0, selector r.1 ts.1)) es,
          (j, js),
          λ id lt.
              ap (λ o. or_else o (is_member_any rs.1 query (rows id))) (same id lt)
              ∙ ap (or_else (is_member s query (rows id))) (sames id lt),
        )

  -- Over exact leaves the estimate succeeds; the selector that it leaves is exact again and accepts
  -- the same vectors.
  pub estimate_selectivity_keeps : (s : Selector) → IsExactHere s → Estimated s
  estimate_selectivity_keeps s i = estimate-Same s i

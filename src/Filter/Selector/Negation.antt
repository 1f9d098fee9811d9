-- ===== src/Filter/Selector/Negation.antt =====
-- A negation over a conjunction that skips a branch.
use pipe_ann.Base.{ℕ, ◌≤◌, ◌<◌, ◌≡◌, refl, ap, ◌∙◌, Bool, true, false, not, Option, some, []}
use pipe_ann.Filter.Ids.{VectorIdList, has}
use pipe_ann.Filter.Attributes.{Attributes}
use pipe_ann.Filter.Selector.{
  Double, Doubles, Indexes, Selector, and_selector, not_selector, no_branch, branch,
}
use pipe_ann.Filter.Selector.Member.{and_then, negate, is_member}
use pipe_ann.Filter.Selector.PreFilter.{
  ◌>>=◌, complement, exclude, is_used, pre_filter, pre_filter_rest,
}
use pipe_ann.Filter.Selector.Complement.{max_id, exclude_lem}
use pipe_ann.Filter.Selector.InFilter.{prepare_in_filter, is_member_approx}
use pipe_ann.Filter.Selector.Exact.{IsExact, pre_filter_strict}
use pipe_ann.Filter.Selector.Complete.{KeepsBranches, pre_filter-KeepsBranches}

has_of_member :
    {o : Option Bool} (id : ℕ) (l : VectorIdList)
    → o ≡ some (has l id)
    → o ≡ some true
    → has l id ≡ true
has_of_member id l e m = cc (e, m)

module _ (d : Doubles) (indexes : Indexes) (query : Attributes) (rows : ℕ → Attributes)
    (n : ℕ) where
  -- `NOT (s0 AND s1)`, the second of them with the selectivity `w1`.
  abbrev pub negated_pair : Selector → Double → Selector → Double → Selector
  negated_pair s0 w0 s1 w1 =
      not_selector (and_selector (branch s0 w0 (branch s1 w1 no_branch))) n []

  rest_skipped :
      (s1 : Selector) (w1 : Double) (l : VectorIdList)
      → is_used d false w1 ≡ false
      → pre_filter_rest d indexes query false (branch s1 w1 no_branch) l ≡ some l
  unfolding pre_filter is_used
  rest_skipped s1 w1 l skip = rw skip refl

  pair_skipped :
      (s0 s1 : Selector) (w0 w1 : Double) (l : VectorIdList)
      → is_used d false w1 ≡ false
      → pre_filter d indexes query false s0 ≡ some l
      → pre_filter d indexes query false (negated_pair s0 w0 s1 w1) ≡ exclude n l
  unfolding pre_filter
  pair_skipped s0 s1 w0 w1 l skip e =
      ap (λ o. o >>= exclude n)
        (ap (λ o. o >>= pre_filter_rest d indexes query false (branch s1 w1 no_branch)) e
          ∙ rest_skipped s1 w1 l skip)

  -- Of at most 2 ^ 32 - 1 vectors, where the first branch is exact and skips none of its own branches
  -- and the second is skipped, a vector that the first branch accepts and the second does not is a
  -- member of the negation, which is prepared without a failure and then rejects it.
  pub negation_over_skipped :
      (s0 s1 : Selector) (w0 w1 : Double) (id : ℕ)
      → n ≤ max_id
      → IsExact d indexes query rows n s0
      → KeepsBranches d s0
      → is_used d false w1 ≡ false
      → id < n
      → is_member s0 query (rows id) ≡ some true
      → is_member s1 query (rows id) ≡ some false
      → (is_member (negated_pair s0 w0 s1 w1) query (rows id) ≡ some true)
        × ((s' : Selector) × (prepare_in_filter d indexes query (negated_pair s0 w0 s1 w1)
              ≡ some s')
            × (is_member_approx d indexes query id s' ≡ some false))
  unfolding is_member negate and_then prepare_in_filter is_member_approx
  negation_over_skipped s0 s1 w0 w1 id h i k skip lt m0 m1 =
      let (l, e, il, agrees) = pre_filter_strict d indexes query rows n h s0 i in
      let scanned : pre_filter d indexes query false s0 ≡ some l =
        pre_filter-KeepsBranches d indexes query s0 k ∙ e in
      let (left, _, out) = exclude_lem n l h il in
      let pair = and_selector (branch s0 w0 (branch s1 w1 no_branch)) in
      (
        rw (m0, m1) refl,
        (
          not_selector pair n (complement n 0 l),
          ap (λ o. o >>= λ t. some (not_selector pair n t))
              (pair_skipped s0 s1 w0 w1 l skip scanned ∙ left),
          ap some (out id lt ∙ ap not (has_of_member id l (agrees id lt) m0)),
        ),
      )

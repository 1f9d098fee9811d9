-- ===== src/Filter/Selector/PreFilter.antt =====
-- The scan of the indexes for the members: `pre_filter` of the selectors.
use pipe_ann.Base.{
  ℕ, zero, suc, ◌+◌, ◌-◌, ◌%◌, ◌^◌, Bool, ◌||◌, Option, none, some, List, [], ◌∷◌, ◌++◌,
  if◌then◌else◌, leb, length,
}
use pipe_ann.Filter.Ids.{VectorIdList, or_sorted_unique, and_sorted_unique}
use pipe_ann.Filter.Attributes.{Attribute, Attributes, get}
use pipe_ann.Filter.Selector.{
  Double, Doubles, AttrIndex, Indexes, Leaf, Selector, Branches, Selectors, leaf, and_selector,
  or_selector, not_selector, no_branch, branch, no_selector, selector, question, by_record,
}
use pipe_ann.Filter.Selector.Records.{records}

infixl 30 ◌>>=◌
abbrev pub ◌>>=◌ {ℓ κ} : {A : Type ℓ} {B : Type κ} → Option A → (A → Option B) → Option B
none >>= f = none
some a >>= f = f a

-- `result = or_sorted_unique(result, sub)` for each record.
unfoldable pub union_records :
    (Attribute → VectorIdList) → VectorIdList → List Attribute → VectorIdList
unfolding or_sorted_unique
union_records f result [] = result
union_records f result (r ∷ rs) = union_records f (or_sorted_unique result (f r)) rs

unfoldable pub leaf_pre_filter : AttrIndex → Leaf → Attribute → VectorIdList
unfolding union_records records question by_record
leaf_pre_filter index kind query =
    if by_record kind
    then union_records (index.pre_filter (question kind)) [] (records query)
    else index.pre_filter (question kind) query

-- `n` ids from `id` on.
unfoldable pub push_ids : ℕ → ℕ → VectorIdList
push_ids id zero = []
push_ids id (suc n) = id ∷ push_ids (suc id) n

-- The loops of `NotSelector::pre_filter`: the ids from `start_id` on that are not excluded.
unfoldable pub complement : ℕ → ℕ → VectorIdList → VectorIdList
unfolding push_ids
complement n_vectors start_id [] = push_ids start_id (n_vectors - start_id)
complement n_vectors start_id (exclude_id ∷ ids) =
    push_ids start_id (exclude_id - start_id)
    ++ complement n_vectors ((exclude_id + 1) % 2 ^ 32) ids

-- The scan of `NotSelector`. `reserve` is given `n_vectors - not_vector_ids.size()`, which wraps
-- when there are more ids than vectors: then it throws, `none`.
unfoldable pub exclude : ℕ → VectorIdList → Option VectorIdList
unfolding complement
exclude n_vectors not_vector_ids =
    if leb (length not_vector_ids) n_vectors
    then some (complement n_vectors 0 not_vector_ids)
    else none

module _ (d : Doubles) where
  -- The branch is intersected: it is not skipped for its selectivity.
  unfoldable pub is_used : Bool → Double → Bool
  is_used strict selectivity = strict || d.le_d selectivity d.high_selectivity_threshold

module _ (d : Doubles) (indexes : Indexes) (query : Attributes) (strict : Bool) where
  -- `none`: an attribute is missing, the first branch of none is taken, or a negation throws.
  unfoldable mutual
    unfolding leaf_pre_filter exclude or_sorted_unique and_sorted_unique is_used get

    pub pre_filter : Selector → Option VectorIdList
    pre_filter (leaf kind key base_key index list) =
        get query key >>= λ q. some (leaf_pre_filter (indexes index) kind q)
    pre_filter (and_selector no_branch) = none
    pre_filter (and_selector (branch s selectivity bs)) = pre_filter s >>= pre_filter_rest bs
    pre_filter (or_selector ss) = pre_filter_union ss []
    pre_filter (not_selector s n_vectors ids) = pre_filter s >>= exclude n_vectors

    -- The branches after the first.
    pub pre_filter_rest : Branches → VectorIdList → Option VectorIdList
    pre_filter_rest no_branch ret = some ret
    pre_filter_rest (branch s selectivity bs) ret =
        if is_used d strict selectivity
        then (pre_filter s >>= λ cur_set. pre_filter_rest bs (and_sorted_unique ret cur_set))
        else pre_filter_rest bs ret

    pub pre_filter_union : Selectors → VectorIdList → Option VectorIdList
    pre_filter_union no_selector ids = some ids
    pre_filter_union (selector s ss) ids =
        pre_filter s >>= λ ret. pre_filter_union ss (or_sorted_unique ids ret)

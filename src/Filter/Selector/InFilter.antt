-- ===== src/Filter/Selector/InFilter.antt =====
-- The approximate check during the graph traversal: `prepare_in_filter` and `is_member_approx` of
-- the selectors, and the indexes that a traversal locks.
use pipe_ann.Base.{ℕ, Bool, true, false, ◌||◌, Option, some, List, [], ◌∷◌, ◌++◌, if◌then◌else◌}
use pipe_ann.Filter.Ids.{VectorIdList, has}
use pipe_ann.Filter.Attributes.{Attribute, Attributes, get}
use pipe_ann.Filter.Selector.{
  Double, Doubles, AttrIndex, Indexes, whole, with_prefix, with_suffix, Leaf, string_eq,
  string_prefix, string_suffix, string_like, Selector, Branches, Selectors, leaf, and_selector,
  or_selector, not_selector, no_branch, branch, no_selector, selector, question, prepare_question,
  by_record,
}
use pipe_ann.Filter.Selector.Records.{records}
use pipe_ann.Filter.Selector.Member.{any_record, and_then, or_else}
use pipe_ann.Filter.Selector.PreFilter.{◌>>=◌, union_records, pre_filter}

unfoldable pub leaf_prepare : AttrIndex → Leaf → Attribute → VectorIdList
unfolding union_records records prepare_question by_record
leaf_prepare index kind query =
    if by_record kind
    then union_records (index.prepare_in_filter (prepare_question kind)) [] (records query)
    else index.prepare_in_filter (prepare_question kind) query

unfoldable pub leaf_approx : AttrIndex → Leaf → ℕ → Attribute → VectorIdList → Bool
unfolding any_record records question has
leaf_approx index string_eq target_id query cold_list =
    has cold_list target_id
    || any_record (λ r. index.is_member_approx whole target_id r []) (records query)
leaf_approx index string_prefix target_id query cold_list =
    any_record (λ r. index.is_member_approx with_prefix target_id r []) (records query)
leaf_approx index string_suffix target_id query cold_list =
    any_record (λ r. index.is_member_approx with_suffix target_id r []) (records query)
leaf_approx index string_like target_id query cold_list = true
leaf_approx index kind target_id query cold_list =
    index.is_member_approx (question kind) target_id query cold_list

-- `StringLikeSelector` does not look at its query, and `StringEqSelector` not before its list.
unfoldable pub leaf_member_approx :
    AttrIndex → Leaf → ℕ → ℕ → Attributes → VectorIdList → Option Bool
unfolding leaf_approx get has
leaf_member_approx index string_like target_id key query cold_list = some true
leaf_member_approx index string_eq target_id key query cold_list =
    if has cold_list target_id
    then some true
    else (get query key >>= λ q. some (leaf_approx index string_eq target_id q cold_list))
leaf_member_approx index kind target_id key query cold_list =
    get query key >>= λ q. some (leaf_approx index kind target_id q cold_list)

module _ (d : Doubles) (indexes : Indexes) (query : Attributes) where
  -- The selector with what it has prepared; a negation scans as `pre_filter` does by default.
  unfoldable mutual
    unfolding leaf_prepare get pre_filter

    pub prepare_in_filter : Selector → Option Selector
    prepare_in_filter (leaf kind key base_key index list) = get query key >>= λ q.
        some (leaf kind key base_key index (leaf_prepare (indexes index) kind q))
    prepare_in_filter (and_selector bs) = prepare_branches bs >>= λ r. some (and_selector r)
    prepare_in_filter (or_selector ss) = prepare_selectors ss >>= λ r. some (or_selector r)
    prepare_in_filter (not_selector s n_vectors ids) =
        pre_filter d indexes query false (not_selector s n_vectors ids) >>= λ r.
        some (not_selector s n_vectors r)

    pub prepare_branches : Branches → Option Branches
    prepare_branches no_branch = some no_branch
    prepare_branches (branch s selectivity bs) =
        prepare_in_filter s >>= λ r. prepare_branches bs >>= λ rs. some (branch r selectivity rs)

    pub prepare_selectors : Selectors → Option Selectors
    prepare_selectors no_selector = some no_selector
    prepare_selectors (selector s ss) =
        prepare_in_filter s >>= λ r. prepare_selectors ss >>= λ rs. some (selector r rs)

  unfoldable mutual
    unfolding leaf_member_approx and_then or_else has

    pub is_member_approx : ℕ → Selector → Option Bool
    is_member_approx target_id (leaf kind key base_key index list) =
        leaf_member_approx (indexes index) kind target_id key query list
    is_member_approx target_id (and_selector bs) = approx_all target_id bs
    is_member_approx target_id (or_selector ss) = approx_any target_id ss
    is_member_approx target_id (not_selector s n_vectors ids) = some (has ids target_id)

    pub approx_all : ℕ → Branches → Option Bool
    approx_all target_id no_branch = some true
    approx_all target_id (branch s selectivity bs) =
        and_then (is_member_approx target_id s) (approx_all target_id bs)

    pub approx_any : ℕ → Selectors → Option Bool
    approx_any target_id no_selector = some false
    approx_any target_id (selector s ss) =
        or_else (is_member_approx target_id s) (approx_any target_id ss)

-- `merge_attr_indexes`: what is there already is not added again.
unfoldable pub merge_attr_indexes : List ℕ → List ℕ → List ℕ
unfolding has
merge_attr_indexes mine [] = mine
merge_attr_indexes mine (index ∷ theirs) =
    merge_attr_indexes (if has mine index then mine else mine ++ (index ∷ [])) theirs

-- `attr_indexes_`, as the constructors fill it.
unfoldable mutual
  unfolding merge_attr_indexes

  pub attr_indexes : Selector → List ℕ
  attr_indexes (leaf kind key base_key index list) = index ∷ []
  attr_indexes (and_selector bs) = merge_branches [] bs
  attr_indexes (or_selector ss) = merge_selectors [] ss
  attr_indexes (not_selector s n_vectors ids) = []

  pub merge_branches : List ℕ → Branches → List ℕ
  merge_branches mine no_branch = mine
  merge_branches mine (branch s selectivity bs) =
      merge_branches (merge_attr_indexes mine (attr_indexes s)) bs

  pub merge_selectors : List ℕ → Selectors → List ℕ
  merge_selectors mine no_selector = mine
  merge_selectors mine (selector s ss) =
      merge_selectors (merge_attr_indexes mine (attr_indexes s)) ss

-- `copy`: new selectors over the same indexes, with nothing prepared and no selectivity known.
unfoldable mutual
  pub copy : Double → Selector → Selector
  copy one (leaf kind key base_key index list) = leaf kind key base_key index []
  copy one (and_selector bs) = and_selector (copy_branches one bs)
  copy one (or_selector ss) = or_selector (copy_selectors one ss)
  copy one (not_selector s n_vectors ids) = not_selector (copy one s) n_vectors []

  pub copy_branches : Double → Branches → Branches
  copy_branches one no_branch = no_branch
  copy_branches one (branch s selectivity bs) = branch (copy one s) one (copy_branches one bs)

  pub copy_selectors : Double → Selectors → Selectors
  copy_selectors one no_selector = no_selector
  copy_selectors one (selector s ss) = selector (copy one s) (copy_selectors one ss)

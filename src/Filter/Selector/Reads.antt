-- ===== src/Filter/Selector/Reads.antt =====
-- The pages that a filter is expected to read: `estimate_prefilter_reads` and
-- `estimate_infilter_reads` of the selectors.
use pipe_ann.Base.{
  ℕ, ◌+◌, ◌-◌, ◌/◌, ◌%◌, ◌^◌, min, false, Option, none, some, List, [], ◌∷◌, if◌then◌else◌,
}
use pipe_ann.Filter.Attributes.{Attribute, Attributes, get}
use pipe_ann.Filter.Selector.{
  Doubles, AttrIndex, Indexes, Leaf, string_suffix, string_like, Selector, Branches, Selectors,
  leaf, and_selector, or_selector, not_selector, no_branch, branch, no_selector, selector, question,
  prepare_question, by_record,
}
use pipe_ann.Filter.Selector.Records.{records}
use pipe_ann.Filter.Selector.PreFilter.{◌>>=◌, is_used}

unfoldable pub sum_records : (Attribute → ℕ) → List Attribute → ℕ
sum_records f [] = 0
sum_records f (r ∷ rs) = f r + sum_records f rs

-- `std::numeric_limits<uint32_t>::max() / 2`
abbrev pub half_max : ℕ
half_max = (2 ^ 32 - 1) / 2

-- A `uint32_t` sum wraps; that of `StringLikeSelector` has 64 bits and is capped.
unfoldable pub leaf_prefilter_reads : AttrIndex → Leaf → Attribute → ℕ
unfolding sum_records records question
leaf_prefilter_reads index string_like query =
    min (sum_records (index.estimate_prefilter_reads (question string_like)) (records query))
      half_max
leaf_prefilter_reads index kind query =
    if by_record kind
    then sum_records (index.estimate_prefilter_reads (question kind)) (records query) % 2 ^ 32
    else index.estimate_prefilter_reads (question kind) query

-- `StringSuffixSelector` and `StringLikeSelector` do not look at the query.
unfoldable pub leaf_infilter_reads : AttrIndex → Leaf → ℕ → Attributes → Option ℕ
unfolding sum_records records prepare_question by_record get
leaf_infilter_reads index string_suffix key query = some 0
leaf_infilter_reads index string_like key query = some half_max
leaf_infilter_reads index kind key query = get query key >>= λ q. some (
    if by_record kind
    then sum_records (index.estimate_infilter_reads (prepare_question kind)) (records q) % 2 ^ 32
    else index.estimate_infilter_reads (prepare_question kind) q)

-- The sums of 64 bits that `and_selector` and `or_selector` make are cut to 32 as they return.
unfoldable pub to_uint32 : Option ℕ → Option ℕ
to_uint32 none = none
to_uint32 (some reads) = some (reads % 2 ^ 32)

unfoldable pub add_reads : Option ℕ → Option ℕ → Option ℕ
add_reads none rest = none
add_reads (some reads) none = none
add_reads (some reads) (some rest) = some (reads + rest)

module _ (d : Doubles) (indexes : Indexes) (query : Attributes) where
  unfoldable mutual
    unfolding leaf_prefilter_reads to_uint32 add_reads is_used get

    pub estimate_prefilter_reads : Selector → Option ℕ
    estimate_prefilter_reads (leaf kind key base_key index list) =
        get query key >>= λ q. some (leaf_prefilter_reads (indexes index) kind q)
    estimate_prefilter_reads (and_selector bs) = to_uint32 (prefilter_reads_all bs)
    estimate_prefilter_reads (or_selector ss) = to_uint32 (prefilter_reads_any ss)
    estimate_prefilter_reads (not_selector s n_vectors ids) = estimate_prefilter_reads s

    -- Up to the first branch of a high selectivity.
    pub prefilter_reads_all : Branches → Option ℕ
    prefilter_reads_all no_branch = some 0
    prefilter_reads_all (branch s selectivity bs) =
        let rest = add_reads (estimate_prefilter_reads s) (prefilter_reads_all bs) in
        if is_used d false selectivity then rest else some 0

    pub prefilter_reads_any : Selectors → Option ℕ
    prefilter_reads_any no_selector = some 0
    prefilter_reads_any (selector s ss) =
        add_reads (estimate_prefilter_reads s) (prefilter_reads_any ss)

  unfoldable mutual
    unfolding leaf_infilter_reads to_uint32 add_reads estimate_prefilter_reads

    pub estimate_infilter_reads : Selector → Option ℕ
    estimate_infilter_reads (leaf kind key base_key index list) =
        leaf_infilter_reads (indexes index) kind key query
    estimate_infilter_reads (and_selector bs) = to_uint32 (infilter_reads_all bs)
    estimate_infilter_reads (or_selector ss) = to_uint32 (infilter_reads_any ss)
    estimate_infilter_reads (not_selector s n_vectors ids) =
        estimate_prefilter_reads (not_selector s n_vectors ids)

    pub infilter_reads_all : Branches → Option ℕ
    infilter_reads_all no_branch = some 0
    infilter_reads_all (branch s selectivity bs) =
        add_reads (estimate_infilter_reads s) (infilter_reads_all bs)

    pub infilter_reads_any : Selectors → Option ℕ
    infilter_reads_any no_selector = some 0
    infilter_reads_any (selector s ss) =
        add_reads (estimate_infilter_reads s) (infilter_reads_any ss)

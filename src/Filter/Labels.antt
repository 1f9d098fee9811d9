-- ===== src/Filter/Labels.antt =====
-- The inverted index of labels: `InvertedLabelAttrIndex` of include/filter/attribute.h, the side of
-- the queries. A list of ids on disk stands for the range of `label_loc_` that holds it.
use pipe_ann.Base.{
  ℕ, zero, suc, ◌+◌, ◌-◌, ◌*◌, ◌/◌, ◌%◌, ◌^◌, ◌≤◌, ◌<◌, min, max, compare, Ordering, ◌≡◌, refl, sym,
  ap, ◌∙◌, subst, ◌≢◌, ◌↔◌, ◌⊎◌, inl, inr, Bool, true, false, ◌&&◌, ◌||◌, not, Option, none, some,
  List, [], ◌∷◌, ◌++◌, map, reverse, append-nil, append_assoc, arith, dec_lt, dec_le, ℕ_discrete,
  ltb, leb, ◌==◌, if◌then◌else◌, ltb→lt, lt→ltb, leb→le, ltb_false→le, le→ltb_false, ==→eq, ==_self,
  ne→==_false, ==_false→ne, tests, Bool-cases, Option-cases, trichotomy, All, length, get_elem?,
  get_or, set, take, drop, replicate, length-append, length-set, length-take, length-drop,
  length-replicate, take-append-drop, take_all, get_or-set_self, get_or-set_ne, get_or-take,
  memmove, All-append, All-take, All-drop, All-get_or, tally, tally-append, tally-replicate_zero,
  tally_le, All-middle, All-replicate,
}
pub mod Lists
pub mod Conjunction
pub mod Members
pub mod Tests
use pipe_ann.Filter.Ids.{VectorIdList, has, or_sorted_unique, and_sorted_unique}
use pipe_ann.Filter.Attributes.{Attribute}
use pipe_ann.Filter.Bloom.{BloomFilter, chain, contains}

pub record LabelIndex : Type 0 where
  pub label_loc : List VectorIdList
  pub delta : ℕ → VectorIdList
  pub bloom_filters : List ℕ
  pub bloom_bytes_per_point : ℕ
  pub n_vectors : ℕ

abbrev pub approx_filter_threshold : ℕ
approx_filter_threshold = 65536

-- The offset is a product of 32 bits.
unfoldable pub get_bloom_filter : LabelIndex → ℕ → BloomFilter
get_bloom_filter index vector_id = record {
  bytes = drop ((vector_id * index.bloom_bytes_per_point) % 2 ^ 32) index.bloom_filters;
  size = index.bloom_bytes_per_point;
}

-- The labels inserted since the last merge are not counted.
unfoldable pub estimate_label_cnt : LabelIndex → ℕ → ℕ
estimate_label_cnt index label = length (get_or index.label_loc label [])

unfoldable pub is_cold_label : LabelIndex → ℕ → Bool
is_cold_label index label = ltb (estimate_label_cnt index label) approx_filter_threshold

unfoldable pub estimate_count : LabelIndex → Attribute → ℕ
estimate_count index query = min (tally (estimate_label_cnt index) query % 2 ^ 32) index.n_vectors

unfoldable pub min_count : LabelIndex → ℕ → Attribute → ℕ
min_count index count [] = count
min_count index count (label ∷ query) =
    min_count index (min count (estimate_label_cnt index label)) query

unfoldable pub estimate_count_and : LabelIndex → Attribute → ℕ
unfolding min_count
estimate_count_and index [] = 0
estimate_count_and index (label ∷ query) = min_count index (estimate_label_cnt index label) query

-- The list on disk and what was inserted later; `none` for a label that the index has no list for.
unfoldable pub list_of : LabelIndex → ℕ → Option VectorIdList
list_of index label =
    if ltb label (length index.label_loc)
    then some (get_or index.label_loc label [] ++ index.delta label)
    else none

-- `std::sort` by the number of ids.
unfoldable pub insert_by_size : VectorIdList → List VectorIdList → List VectorIdList
insert_by_size a [] = a ∷ []
insert_by_size a (b ∷ bs) =
    if ltb (length b) (length a) then b ∷ insert_by_size a bs else a ∷ (b ∷ bs)

unfoldable pub sort_by_size : List VectorIdList → List VectorIdList
unfolding insert_by_size
sort_by_size [] = []
sort_by_size (a ∷ ls) = insert_by_size a (sort_by_size ls)

unfoldable pub merge_lists : VectorIdList → List VectorIdList → VectorIdList
unfolding or_sorted_unique
merge_lists result [] = result
merge_lists result (a ∷ ls) = merge_lists (or_sorted_unique result a) ls

-- The lists of the query's labels that are not empty.
unfoldable pub add_list : Option VectorIdList → List VectorIdList → List VectorIdList
add_list none lists = lists
add_list (some []) lists = lists
add_list (some (i ∷ is)) lists = (i ∷ is) ∷ lists

unfoldable pub lists_of : LabelIndex → Attribute → List VectorIdList
unfolding list_of add_list
lists_of index [] = []
lists_of index (label ∷ query) = add_list (list_of index label) (lists_of index query)

-- One of the labels of the query.
unfoldable pub pre_filter : LabelIndex → Attribute → VectorIdList
unfolding lists_of sort_by_size merge_lists
pre_filter index query = merge_lists [] (sort_by_size (lists_of index query))

-- The lists of all the labels, or `none` when one of them is empty.
unfoldable pub push_list :
    Option VectorIdList → Option (List VectorIdList) → Option (List VectorIdList)
push_list none lists = none
push_list (some []) lists = none
push_list (some (i ∷ is)) none = none
push_list (some (i ∷ is)) (some lists) = some ((i ∷ is) ∷ lists)

unfoldable pub all_lists : LabelIndex → Attribute → Option (List VectorIdList)
unfolding list_of push_list
all_lists index [] = some []
all_lists index (label ∷ query) = push_list (list_of index label) (all_lists index query)

unfoldable pub intersect_lists : VectorIdList → List VectorIdList → VectorIdList
unfolding and_sorted_unique
intersect_lists result [] = result
intersect_lists result (a ∷ ls) = intersect_lists (and_sorted_unique result a) ls

unfoldable pub intersect_all : List VectorIdList → VectorIdList
unfolding intersect_lists
intersect_all [] = []
intersect_all (a ∷ ls) = intersect_lists a ls

unfoldable pub intersect_found : Option (List VectorIdList) → VectorIdList
unfolding sort_by_size intersect_all
intersect_found none = []
intersect_found (some lists) = intersect_all (sort_by_size lists)

-- All the labels of the query.
unfoldable pub pre_filter_and : LabelIndex → Attribute → VectorIdList
unfolding all_lists intersect_found
pre_filter_and index query = intersect_found (all_lists index query)

unfoldable pub cold_labels : LabelIndex → Attribute → Attribute
unfolding is_cold_label estimate_label_cnt
cold_labels index [] = []
cold_labels index (label ∷ query) =
    let rest = cold_labels index query in if is_cold_label index label then label ∷ rest else rest

unfoldable pub prepare_in_filter : LabelIndex → Attribute → VectorIdList
unfolding cold_labels pre_filter
prepare_in_filter index query = pre_filter index (cold_labels index query)

-- Without a cold label, the conjunction of none is empty as well.
unfoldable pub prepare_in_filter_and : LabelIndex → Attribute → VectorIdList
unfolding cold_labels pre_filter_and
prepare_in_filter_and index query = pre_filter_and index (cold_labels index query)

unfoldable pub estimate_prefilter_reads : LabelIndex → Attribute → ℕ
unfolding estimate_count
estimate_prefilter_reads index query = estimate_count index query * 4 / 4096

unfoldable pub estimate_infilter_reads : LabelIndex → Attribute → ℕ
unfolding cold_labels
estimate_infilter_reads index query =
    (tally (estimate_label_cnt index) (cold_labels index query) % 2 ^ 32) * 4 / 4096

-- The loops over the hot labels.
unfoldable pub any_hot : LabelIndex → BloomFilter → Attribute → Option Bool
unfolding is_cold_label chain contains
any_hot index bf [] = some false
any_hot index bf (label ∷ query) =
    let rest = any_hot index bf query in
    if is_cold_label index label
    then rest
    else chain (contains bf label) (λ b. if b then some true else rest)

unfoldable pub all_hot : LabelIndex → BloomFilter → Attribute → Option Bool
unfolding is_cold_label chain contains
all_hot index bf [] = some true
all_hot index bf (label ∷ query) =
    let rest = all_hot index bf query in
    if is_cold_label index label
    then rest
    else chain (contains bf label) (λ b. if b then rest else some false)

unfoldable pub is_member_approx : LabelIndex → ℕ → Attribute → VectorIdList → Option Bool
unfolding any_hot get_bloom_filter has
is_member_approx index target_id query cold_list =
    let hot = any_hot index (get_bloom_filter index target_id) query in
    if has cold_list target_id then some true else hot

unfoldable pub has_cold : LabelIndex → Attribute → Bool
unfolding is_cold_label
has_cold index [] = false
has_cold index (label ∷ query) = is_cold_label index label || has_cold index query

unfoldable pub is_member_approx_and : LabelIndex → ℕ → Attribute → VectorIdList → Option Bool
unfolding all_hot get_bloom_filter has has_cold
is_member_approx_and index target_id query cold_list =
    let hot = all_hot index (get_bloom_filter index target_id) query in
    if has_cold index query && not (has cold_list target_id) then some false else hot

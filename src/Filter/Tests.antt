-- ===== src/Filter/Tests.antt =====
-- The theorems on filters at concrete texts, attributes and selectors, and runs of the definitions.
use pipe_ann.Base.{
  ℕ, zero, suc, ◌+◌, ◌-◌, ◌*◌, ◌<◌, ◌≡◌, refl, inl, inr, true, false, ◌&&◌, ◌||◌, none, some, List,
  [], ◌∷◌, ◌++◌, arith, ltb, leb, ◌==◌, if◌then◌else◌, length,
}
use pipe_ann.Filter.Ids.{
  VectorIdList, has, IsAscending, or_sorted_unique, and_sorted_unique, or_sorted_unique-union,
  and_sorted_unique-intersection,
}
use pipe_ann.Filter.Attributes.{
  Attribute, Attributes, serialize, serialized_size, deserialize, find, get, IsMap,
  deserialize-serialize,
}
use pipe_ann.Filter.Text.{
  Text, words_of, pack_string_attr, next_bytes, str_attr_less, string_attr_view,
  string_attr_starts_with, string_attr_view-pack,
}
use pipe_ann.Filter.Bloom.{BloomFilter, chain, add_all, contains}
use pipe_ann.Filter.Bloom.Holds.{contains-add_all}
use pipe_ann.Filter.Ended.{IsEnded}
use pipe_ann.Filter.Prefix.{in_prefix_range, IsEndedBound, in_prefix_range-starts_with}
use pipe_ann.Filter.Like.{percent, underscore, like_match, like, fixed_prefix, fixed_suffix}
use pipe_ann.Filter.Like.Loop.{like_match_iff_like, like_match-percent}
use pipe_ann.Filter.Selector.{
  Double, Doubles, AttrIndex, Indexes, label_or, Selector, leaf, and_selector, not_selector,
  no_branch, branch,
}
use pipe_ann.Filter.Selector.Records.{records, append_records, records-append_records}
use pipe_ann.Filter.Selector.Member.{leaf_member, is_member}
use pipe_ann.Filter.Selector.PreFilter.{leaf_pre_filter, is_used, pre_filter}
use pipe_ann.Filter.Selector.InFilter.{
  prepare_in_filter, is_member_approx, attr_indexes, leaf_prepare, leaf_member_approx,
}
use pipe_ann.Filter.Selector.Complement.{IsIdList}
use pipe_ann.Filter.Selector.Exact.{Finds, IsExactLeaf, IsExact, pre_filter_strict}
use pipe_ann.Filter.Selector.Complete.{
  KeepsBranches, IsCompleteLeaf, IsComplete, Covers, is_member_approx_no_false_negative,
}
use pipe_ann.Filter.Selector.Selectivity.{estimate_selectivity}
use pipe_ann.Filter.Selector.Ordered.{value, IsOrdered, estimate_selectivity_orders}
use pipe_ann.Filter.Selector.Locked.{NoRepeat, attr_indexes-lock}
use pipe_ann.Filter.Selector.Negation.{negated_pair, negation_over_skipped}

abbrev odd_ids : VectorIdList
odd_ids = 1 ∷ 3 ∷ []

abbrev small_ids : VectorIdList
small_ids = 2 ∷ 3 ∷ []

or_sorted_unique-union_run :
    IsAscending (or_sorted_unique odd_ids small_ids)
    × (has (or_sorted_unique odd_ids small_ids) 3 ≡ (has odd_ids 3 || has small_ids 3))
or_sorted_unique-union_run = or_sorted_unique-union odd_ids small_ids 3 (omega arith) (omega arith)

and_sorted_unique-intersection_run :
    IsAscending (and_sorted_unique odd_ids small_ids)
    × (has (and_sorted_unique odd_ids small_ids) 3 ≡ (has odd_ids 3 && has small_ids 3))
and_sorted_unique-intersection_run =
    and_sorted_unique-intersection odd_ids small_ids 3 (omega arith) (omega arith)

abbrev two_keys : Attributes
two_keys = (5, 1 ∷ 2 ∷ []) ∷ (6, []) ∷ []

two_keys-IsMap : IsMap two_keys
unfolding find
two_keys-IsMap =
    (omega arith, omega arith, omega arith, refl, (omega arith, omega arith, tt, refl, tt))

deserialize-serialize_example :
    deserialize (serialize two_keys ++ (9 ∷ [])) ≡ some (two_keys, 9 ∷ [])
deserialize-serialize_example = deserialize-serialize two_keys (9 ∷ []) two_keys-IsMap (omega arith)

two_keys_size : serialized_size two_keys ≡ 28
unfolding serialized_size
two_keys_size = refl

abbrev word_ab : Text
word_ab = b'a' ∷ b'b' ∷ []

abbrev word_abcde : Text
word_abcde = b'a' ∷ b'b' ∷ b'c' ∷ b'd' ∷ b'e' ∷ []

string_attr_view-pack_example : string_attr_view (pack_string_attr word_abcde) ≡ word_abcde
string_attr_view-pack_example = string_attr_view-pack word_abcde (omega arith)

word_abcde-IsEnded : IsEnded word_abcde
word_abcde-IsEnded = inr (λ e. omega (arith, e))

word_ab-IsEnded : IsEnded word_ab
word_ab-IsEnded = inr (λ e. omega (arith, e))

next_of_ab-IsEndedBound : IsEndedBound (next_bytes word_ab)
unfolding next_bytes
next_of_ab-IsEndedBound = inr (λ e. omega (arith, e))

in_prefix_range-starts_with_example :
    in_prefix_range (pack_string_attr word_abcde) (pack_string_attr word_ab)
    ≡ some (string_attr_starts_with (pack_string_attr word_abcde) (pack_string_attr word_ab))
in_prefix_range-starts_with_example =
    in_prefix_range-starts_with word_abcde word_ab (omega arith) (omega arith) word_abcde-IsEnded
      word_ab-IsEnded next_of_ab-IsEndedBound

-- Four bytes fill a word, and a NUL has no room.
abbrev word_abcd : Text
word_abcd = b'a' ∷ b'b' ∷ b'c' ∷ b'd' ∷ []

unended_run : str_attr_less (pack_string_attr word_abcd) (pack_string_attr word_abcd) ≡ none
unfolding str_attr_less pack_string_attr words_of
unended_run = refl

abbrev a_any_e : Text
a_any_e = b'a' ∷ percent ∷ underscore ∷ b'e' ∷ []

like_match_iff_like_example : like_match word_abcde a_any_e ≡ some (like a_any_e word_abcde)
like_match_iff_like_example = like_match_iff_like word_abcde a_any_e (
  λ e. absurd (omega (arith, e)),
  (
    λ e. absurd (omega (arith, e)),
    (
      λ e. absurd (omega (arith, e)),
      (λ e. absurd (omega (arith, e)), (λ e. absurd (omega (arith, e)), tt)),
    ),
  ),
)

like_match_run : like_match word_abcde a_any_e ≡ some true
unfolding like_match
like_match_run = refl

like_match-percent_example :
    (like_match (percent ∷ b'a' ∷ word_ab) (percent ∷ []) ≡ some false)
    × (like (percent ∷ []) (percent ∷ b'a' ∷ word_ab) ≡ true)
like_match-percent_example = like_match-percent b'a' word_ab

fixed_ends : (fixed_prefix a_any_e ≡ b'a' ∷ []) × (fixed_suffix a_any_e ≡ b'e' ∷ [])
unfolding fixed_prefix fixed_suffix
fixed_ends = (refl, refl)

abbrev two_records : List Attribute
two_records = (1 ∷ 2 ∷ []) ∷ (3 ∷ []) ∷ []

records-append_records_example : records (append_records [] two_records) ≡ two_records
records-append_records_example = records-append_records two_records (omega arith)

-- Doubles as counts, and a threshold of 100.
abbrev counts : Doubles
counts = record {
  zero_d = 0;
  one_d = 1;
  of_count = λ c. c;
  add_d = λ a b. a + b;
  sub_d = λ a b. a - b;
  mul_d = λ a b. a * b;
  div_d = λ a b. a;
  lt_d = ltb;
  le_d = leb;
  high_selectivity_threshold = 100;
}

-- An index that has found `ids`, and whose filter accepts those and vector 0.
abbrev index_of : VectorIdList → AttrIndex
index_of ids = record {
  n_vectors = 3;
  estimate_count = λ q a. length ids;
  estimate_precision = λ q a. 1;
  estimate_prefilter_reads = λ q a. 1;
  estimate_infilter_reads = λ q a. 1;
  pre_filter = λ q a. ids;
  prepare_in_filter = λ q a. [];
  is_member_approx = λ q id a l. (id == 0) || ltb 0 id;
}

-- Vectors 0 and 1 have the label 1, vectors 1 and 2 the label 2.
abbrev two_indexes : Indexes
two_indexes zero = index_of (0 ∷ 1 ∷ [])
two_indexes (suc k) = index_of (1 ∷ 2 ∷ [])

abbrev rows : ℕ → Attributes
rows zero = (7, 1 ∷ []) ∷ []
rows (suc zero) = (7, 1 ∷ 2 ∷ []) ∷ []
rows (suc (suc k)) = (7, 2 ∷ []) ∷ []

abbrev labels_query : Attributes
labels_query = (0, 1 ∷ []) ∷ (1, 2 ∷ []) ∷ []

abbrev with_label_1 : Selector
with_label_1 = leaf label_or 0 7 0 []

abbrev with_label_2 : Selector
with_label_2 = leaf label_or 1 7 1 []

abbrev one_not_two : Selector
one_not_two =
    and_selector (branch with_label_1 1 (branch (not_selector with_label_2 3 []) 200 no_branch))

ids_below_3 : (a b : ℕ) → a < b → b < 3 → IsIdList 3 (a ∷ b ∷ [])
unfolding has
ids_below_3 a b h k = record {
  ascending = (omega arith, (omega arith, tt));
  valid = λ id e. ground arith;
}

label_1_agrees :
    (id : ℕ)
    → id < 3
    → leaf_member label_or 0 7 labels_query (rows id)
      ≡ some (has (leaf_pre_filter (two_indexes 0) label_or (1 ∷ [])) id)
unfolding leaf_member leaf_pre_filter
label_1_agrees zero h = refl
label_1_agrees (suc zero) h = refl
label_1_agrees (suc (suc zero)) h = refl
label_1_agrees (suc (suc (suc k))) h = absurd (omega arith)

label_2_agrees :
    (id : ℕ)
    → id < 3
    → leaf_member label_or 1 7 labels_query (rows id)
      ≡ some (has (leaf_pre_filter (two_indexes 1) label_or (2 ∷ [])) id)
unfolding leaf_member leaf_pre_filter
label_2_agrees zero h = refl
label_2_agrees (suc zero) h = refl
label_2_agrees (suc (suc zero)) h = refl
label_2_agrees (suc (suc (suc k))) h = absurd (omega arith)

label_1_exact : IsExactLeaf counts two_indexes labels_query rows 3 label_or 0 7 0
unfolding get leaf_pre_filter
label_1_exact = record {
  attribute = 1 ∷ [];
  bound = refl;
  ids = ids_below_3 0 1 (omega arith) (omega arith);
  agrees = label_1_agrees;
}

label_2_exact : IsExactLeaf counts two_indexes labels_query rows 3 label_or 1 7 1
unfolding get leaf_pre_filter
label_2_exact = record {
  attribute = 2 ∷ [];
  bound = refl;
  ids = ids_below_3 1 2 (omega arith) (omega arith);
  agrees = label_2_agrees;
}

one_not_two-IsExact : IsExact counts two_indexes labels_query rows 3 one_not_two
unfolding IsExact
one_not_two-IsExact = (label_1_exact, ((refl, label_2_exact), tt))

pre_filter_strict_example :
    Finds counts two_indexes labels_query rows 3
      (pre_filter counts two_indexes labels_query true one_not_two)
      (λ id. is_member one_not_two labels_query (rows id))
pre_filter_strict_example =
    pre_filter_strict counts two_indexes labels_query rows 3 (omega arith) one_not_two
      one_not_two-IsExact

one_not_two_run : pre_filter counts two_indexes labels_query true one_not_two ≡ some (0 ∷ [])
unfolding pre_filter
one_not_two_run = refl

label_1_complete : IsCompleteLeaf counts two_indexes labels_query rows 3 label_or 0 7 0
unfolding get leaf_prepare leaf_member_approx leaf_pre_filter
label_1_complete = record {
  attribute = 1 ∷ [];
  bound = refl;
  exact = λ id. has (leaf_pre_filter (two_indexes 0) label_or (1 ∷ [])) id;
  approx = λ id. (id == 0) || ltb 0 id;
  answers = label_1_agrees;
  approximates = λ id h. refl;
  covers = λ id h e. ground arith;
}

abbrev one_not_two_kept : Selector
one_not_two_kept =
    and_selector (branch with_label_1 1 (branch (not_selector with_label_2 3 []) 50 no_branch))

one_not_two-IsComplete : IsComplete counts two_indexes labels_query rows 3 one_not_two_kept
unfolding IsComplete IsExact KeepsBranches
one_not_two-IsComplete = (label_1_complete, ((refl, label_2_exact, tt), tt))

is_member_approx_no_false_negative_example :
    (s' : Selector) × (prepare_in_filter counts two_indexes labels_query one_not_two_kept ≡ some s')
    × ((id : ℕ)
        → id < 3
        → Covers counts two_indexes labels_query rows 3
            (is_member one_not_two_kept labels_query (rows id))
            (is_member_approx counts two_indexes labels_query id s'))
is_member_approx_no_false_negative_example =
    is_member_approx_no_false_negative counts two_indexes labels_query rows 3 (omega arith)
      one_not_two_kept one_not_two-IsComplete

ltb_asym : (a b : ℕ) → ltb a b ≡ true → ltb b a ≡ false
ltb_asym a b h = ground arith

estimate_selectivity_orders_example :
    (r : Double × Selector) × (estimate_selectivity counts two_indexes labels_query one_not_two
      ≡ some r)
    × (value counts two_indexes labels_query one_not_two ≡ some r.0)
    × IsOrdered counts two_indexes labels_query r.1
    × IsExact counts two_indexes labels_query rows 3 r.1
    × ((id : ℕ)
        → id < 3
        → is_member r.1 labels_query (rows id) ≡ is_member one_not_two labels_query (rows id))
estimate_selectivity_orders_example =
    estimate_selectivity_orders counts two_indexes labels_query ltb_asym rows 3 (omega arith)
      one_not_two one_not_two-IsExact

-- The same indexes but for one that no leaf has.
abbrev other_indexes : Indexes
other_indexes z = if z == 9 then index_of [] else two_indexes z

same_where_locked :
    (z : ℕ) → has (attr_indexes one_not_two) z ≡ true → two_indexes z ≡ other_indexes z
unfolding attr_indexes has
same_where_locked z h = ground arith

attr_indexes-lock_example :
    NoRepeat (attr_indexes one_not_two)
    × (is_member_approx counts two_indexes labels_query 2 one_not_two
        ≡ is_member_approx counts other_indexes labels_query 2 one_not_two)
attr_indexes-lock_example =
    attr_indexes-lock counts two_indexes other_indexes labels_query 2 one_not_two same_where_locked

label_1_member : is_member with_label_1 labels_query (rows 0) ≡ some true
unfolding is_member
label_1_member = refl

label_2_no_member : is_member with_label_2 labels_query (rows 0) ≡ some false
unfolding is_member
label_2_no_member = refl

label_2_skipped : is_used counts false 200 ≡ false
unfolding is_used
label_2_skipped = refl

label_1_leaf : IsExact counts two_indexes labels_query rows 3 with_label_1
unfolding IsExact
label_1_leaf = label_1_exact

label_1_kept : KeepsBranches counts with_label_1
unfolding KeepsBranches
label_1_kept = tt

negation_over_skipped_example :
    (is_member
        (negated_pair counts two_indexes labels_query rows 3 with_label_1 1 with_label_2 200)
        labels_query
        (rows 0)
      ≡ some true)
    × ((s' : Selector) × (prepare_in_filter counts two_indexes labels_query
            (negated_pair counts two_indexes labels_query rows 3 with_label_1 1 with_label_2 200)
          ≡ some s')
        × (is_member_approx counts two_indexes labels_query 0 s' ≡ some false))
negation_over_skipped_example =
    negation_over_skipped counts two_indexes labels_query rows 3 with_label_1 with_label_2 1 200 0
      (omega arith) label_1_leaf label_1_kept label_2_skipped (omega arith) label_1_member
      label_2_no_member

abbrev empty_filter : BloomFilter
empty_filter = record { bytes = 0 ∷ 0 ∷ 0 ∷ 0 ∷ []; size = 4 }

three_hundred : has (7 ∷ 300 ∷ []) 300 ≡ true
unfolding has
three_hundred = refl

contains-add_all_example :
    chain (add_all (7 ∷ 300 ∷ []) empty_filter) (λ g. contains g 300) ≡ some true
contains-add_all_example =
    contains-add_all (7 ∷ 300 ∷ []) empty_filter 300 (omega arith, (omega arith, omega arith))
      (inl three_hundred)

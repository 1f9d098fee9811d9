-- ===== src/Filter/Labels/Tests.antt =====
-- The inverted index at a concrete index.
use pipe_ann.Base.{ℕ, zero, suc, ◌≡◌, refl, true, false, some, List, [], ◌∷◌, arith, replicate}
use pipe_ann.Filter.Ids.{has}
use pipe_ann.Filter.Attributes.{Attribute}
use pipe_ann.Filter.Bloom.{contains}
use pipe_ann.Filter.Bloom.Holds.{IsFilter}
use pipe_ann.Filter.Selector.Member.{any_label, all_labels}
use pipe_ann.Filter.Labels.{
  LabelIndex, get_bloom_filter, estimate_label_cnt, is_cold_label, list_of, pre_filter,
  pre_filter_and, prepare_in_filter, prepare_in_filter_and, is_member_approx, is_member_approx_and,
}
use pipe_ann.Filter.Labels.Lists.{ids_in, ids_of}
use pipe_ann.Filter.Labels.Members.{
  IsIndexed, AreAscending, pre_filter_exact, is_member_approx_any, is_member_approx_all,
}

-- The vector 3 was inserted after the last merge.
abbrev later : ℕ → List ℕ
later zero = 3 ∷ []
later (suc zero) = 3 ∷ []
later (suc (suc l)) = []

abbrev two_labels : LabelIndex
two_labels = record {
  label_loc = (1 ∷ []) ∷ (0 ∷ 2 ∷ []) ∷ [];
  delta = later;
  bloom_filters = replicate 16 0;
  bloom_bytes_per_point = 4;
  n_vectors = 4;
}

abbrev row_3 : Attribute
row_3 = 0 ∷ 1 ∷ []

listed_3 : (l : ℕ) → has (ids_of two_labels l) 3 ≡ has row_3 l
unfolding has ids_of ids_in list_of
listed_3 zero = refl
listed_3 (suc zero) = refl
listed_3 (suc (suc l)) = ground arith

slice_3-IsFilter : IsFilter (get_bloom_filter two_labels 3)
unfolding get_bloom_filter
slice_3-IsFilter = (omega arith, (omega arith, omega arith))

marked_3 :
    (l : ℕ)
    → is_cold_label two_labels l ≡ false
    → has row_3 l ≡ true
    → contains (get_bloom_filter two_labels 3) l ≡ some true
unfolding is_cold_label estimate_label_cnt
marked_3 zero c r = absurd (cc c)
marked_3 (suc zero) c r = absurd (cc c)
marked_3 (suc (suc l)) c r = absurd (cc c)

two_labels-IsIndexed : IsIndexed two_labels 3 row_3
two_labels-IsIndexed = record { listed = listed_3; filter = slice_3-IsFilter; marked = marked_3 }

row_3-AreAscending : AreAscending two_labels row_3
unfolding ids_of ids_in list_of
row_3-AreAscending = (omega arith, (omega arith, tt))

row_3-any : any_label row_3 row_3 ≡ true
unfolding any_label has
row_3-any = refl

row_3-all : all_labels row_3 row_3 ≡ true
unfolding all_labels has
row_3-all = refl

pre_filter_exact_example :
    (has (pre_filter two_labels row_3) 3 ≡ any_label row_3 row_3)
    × (has (pre_filter_and two_labels row_3) 3 ≡ all_labels row_3 row_3)
pre_filter_exact_example =
    pre_filter_exact two_labels 3 row_3 0 (1 ∷ []) two_labels-IsIndexed row_3-AreAscending

is_member_approx_any_example :
    is_member_approx two_labels 3 row_3 (prepare_in_filter two_labels row_3) ≡ some true
is_member_approx_any_example =
    is_member_approx_any two_labels 3 row_3 row_3 two_labels-IsIndexed row_3-AreAscending row_3-any

is_member_approx_all_example :
    is_member_approx_and two_labels 3 row_3 (prepare_in_filter_and two_labels row_3) ≡ some true
is_member_approx_all_example =
    is_member_approx_all two_labels 3 row_3 row_3 two_labels-IsIndexed row_3-AreAscending row_3-all

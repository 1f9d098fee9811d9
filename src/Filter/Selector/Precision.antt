-- ===== src/Filter/Selector/Precision.antt =====
-- The expected share of true members among those that the approximate check accepts:
-- `estimate_precision` of the leaf selectors.
use pipe_ann.Base.{ℕ, Option, some, List, [], ◌∷◌, if◌then◌else◌}
use pipe_ann.Filter.Attributes.{Attribute, Attributes, get}
use pipe_ann.Filter.Selector.{
  Double, Doubles, AttrIndex, Question, whole, Leaf, string_eq, string_prefix, string_suffix,
  string_like, question,
}
use pipe_ann.Filter.Selector.Records.{records}
use pipe_ann.Filter.Selector.PreFilter.{◌>>=◌}
use pipe_ann.Filter.Selector.Selectivity.{at_most_one}

module _ (d : Doubles) where
  -- `tp_sum` and `total_sum` of `StringEqSelector`.
  unfoldable pub eq_sums : AttrIndex → Double → Double → List Attribute → Double × Double
  eq_sums index tp total [] = (tp, total)
  eq_sums index tp total (r ∷ rs) =
      let cnt = d.of_count (index.estimate_count whole r) in
      let p = index.estimate_precision whole r in
      eq_sums index (d.add_d tp (d.mul_d p cnt)) (d.add_d total cnt) rs

  -- Those of `StringPrefixSelector` and `StringSuffixSelector`.
  unfoldable pub affix_sums :
      AttrIndex → Question → Double → Double → List Attribute → Double × Double
  affix_sums index asked tp total [] = (tp, total)
  affix_sums index asked tp total (r ∷ rs) =
      let cnt = d.of_count (index.estimate_count asked r) in
      let p = index.estimate_precision asked r in
      affix_sums index asked (d.add_d tp cnt)
        (d.add_d total (if d.lt_d d.zero_d p then d.div_d cnt p else cnt)) rs

  unfoldable pub leaf_precision : AttrIndex → Leaf → ℕ → Attributes → Option Double
  unfolding eq_sums affix_sums at_most_one question records get
  leaf_precision index string_eq key query = get query key >>= λ q.
      let sums = eq_sums index d.zero_d d.zero_d (records q) in some (d.div_d sums.0 sums.1)
  leaf_precision index string_prefix key query = get query key >>= λ q.
      let sums = affix_sums index (question string_prefix) d.zero_d d.zero_d (records q) in
      some (at_most_one d (d.div_d sums.0 sums.1))
  leaf_precision index string_suffix key query = get query key >>= λ q.
      let sums = affix_sums index (question string_suffix) d.zero_d d.zero_d (records q) in
      some (at_most_one d (d.div_d sums.0 sums.1))
  leaf_precision index string_like key query = some d.one_d
  leaf_precision index kind key query =
      get query key >>= λ q. some (index.estimate_precision (question kind) q)

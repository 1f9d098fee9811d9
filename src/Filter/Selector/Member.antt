-- ===== src/Filter/Selector/Member.antt =====
-- The exact check of a candidate: `is_member` of the selectors.
use pipe_ann.Base.{
  ℕ, ◌+◌, ◌%◌, ◌^◌, Bool, true, false, ◌&&◌, ◌||◌, not, Option, none, some, List, [], ◌∷◌, ltb, leb,
  if◌then◌else◌,
}
use pipe_ann.Filter.Ids.{has}
use pipe_ann.Filter.Attributes.{Attribute, Attributes, find, get}
use pipe_ann.Filter.Text.{
  same_bytes, string_attr_starts_with, string_attr_ends_with, string_attr_view,
}
use pipe_ann.Filter.Like.{like_match}
use pipe_ann.Filter.Selector.{
  Leaf, label_or, label_and, range, string_eq, string_prefix, string_suffix, string_like, Selector,
  Branches, Selectors, leaf, and_selector, or_selector, not_selector, no_branch, branch,
  no_selector, selector,
}
use pipe_ann.Filter.Selector.Records.{records}

unfoldable pub any_label : Attribute → Attribute → Bool
unfolding has
any_label [] target = false
any_label (label ∷ query) target = has target label || any_label query target

unfoldable pub all_labels : Attribute → Attribute → Bool
unfolding has
all_labels [] target = true
all_labels (label ∷ query) target = has target label && all_labels query target

-- `query_attr[1]`, or one past `query_attr[0]`, which wraps at 2 ^ 32.
unfoldable pub range_end : Attribute → ℕ → ℕ
range_end [] l = (l + 1) % 2 ^ 32
range_end (r ∷ query) l = r

-- `none`: the first element of an empty attribute is read.
unfoldable pub in_range : Attribute → Attribute → Option Bool
unfolding range_end
in_range [] target = none
in_range (l ∷ query) [] = none
in_range (l ∷ query) (v ∷ target) = some (leb l v && ltb v (range_end query l))

unfoldable pub any_record : (Attribute → Bool) → List Attribute → Bool
any_record f [] = false
any_record f (r ∷ rs) = f r || any_record f rs

-- `like_match`, which always stops.
unfoldable pub record_like : Attribute → Attribute → Bool
unfolding like_match
record_like target r = elim (like_match (string_attr_view target) (string_attr_view r)) [
  | some b ↦ b
  | none ↦ false
]

-- What `is_member` of a leaf makes of the query's attribute and of the target's.
unfoldable pub leaf_is_member : Leaf → Attribute → Attribute → Option Bool
unfolding any_label all_labels in_range any_record same_bytes record_like records
leaf_is_member label_or query target = some (any_label query target)
leaf_is_member label_and query target = some (all_labels query target)
leaf_is_member range query target = in_range query target
leaf_is_member string_eq query target = some (any_record (λ r. same_bytes r target) (records query))
leaf_is_member string_prefix query target =
    some (any_record (λ r. string_attr_starts_with target r) (records query))
leaf_is_member string_suffix query target =
    some (any_record (λ r. string_attr_ends_with target r) (records query))
leaf_is_member string_like query target = some (any_record (record_like target) (records query))

-- A target without the attribute is no member; the query's attribute has to be there.
unfoldable pub leaf_member : Leaf → ℕ → ℕ → Attributes → Attributes → Option Bool
unfolding leaf_is_member find get
leaf_member kind key base_key query target =
    if not (find target base_key) then some false else elim (get query key) [
      | none ↦ none
      | some q ↦ elim (get target base_key) [ none ↦ none | some t ↦ leaf_is_member kind q t ]
    ]

-- One round of the loops of `AndSelector` and of `OrSelector`, with the other branches' answer.
unfoldable pub and_then : Option Bool → Option Bool → Option Bool
and_then none rest = none
and_then (some false) rest = some false
and_then (some true) rest = rest

unfoldable pub or_else : Option Bool → Option Bool → Option Bool
or_else none rest = none
or_else (some true) rest = some true
or_else (some false) rest = rest

unfoldable pub negate : Option Bool → Option Bool
negate none = none
negate (some b) = some (not b)

-- `none`: the call throws, or reads out of bounds.
unfoldable mutual
  unfolding leaf_member and_then or_else negate

  pub is_member : Selector → Attributes → Attributes → Option Bool
  is_member (leaf kind key base_key index list) query target =
      leaf_member kind key base_key query target
  is_member (and_selector bs) query target = is_member_all bs query target
  is_member (or_selector ss) query target = is_member_any ss query target
  is_member (not_selector s n_vectors ids) query target = negate (is_member s query target)

  pub is_member_all : Branches → Attributes → Attributes → Option Bool
  is_member_all no_branch query target = some true
  is_member_all (branch s selectivity bs) query target =
      and_then (is_member s query target) (is_member_all bs query target)

  pub is_member_any : Selectors → Attributes → Attributes → Option Bool
  is_member_any no_selector query target = some false
  is_member_any (selector s ss) query target =
      or_else (is_member s query target) (is_member_any ss query target)

-- ===== src/Filter/Labels/Lists.antt =====
-- The lists of labels answer for the labels: what `pre_filter` of the inverted index finds.
use pipe_ann.Base.{
  ℕ, ◌≡◌, refl, ap, ◌∙◌, inl, inr, Bool, true, false, ◌&&◌, ◌||◌, Option, none, some, List, [], ◌∷◌,
  arith, ltb, Bool-cases, All, length,
}
use pipe_ann.Filter.Ids.{
  VectorIdList, has, IsAscending, or_sorted_unique, and_sorted_unique, or_sorted_unique-union,
  and_sorted_unique-intersection,
}
use pipe_ann.Filter.Attributes.{Attribute}
use pipe_ann.Filter.Labels.{
  LabelIndex, list_of, insert_by_size, sort_by_size, merge_lists, add_list, lists_of, pre_filter,
  intersect_lists,
}

any_has : List VectorIdList → ℕ → Bool
any_has [] id = false
any_has (a ∷ rest) id = has a id || any_has rest id

unfoldable pub every_has : List VectorIdList → ℕ → Bool
every_has [] id = true
every_has (a ∷ rest) id = has a id && every_has rest id

any_has-insert_by_size :
    (a : VectorIdList) (ls : List VectorIdList) (id : ℕ)
    → any_has (insert_by_size a ls) id ≡ (has a id || any_has ls id)
unfolding any_has insert_by_size
any_has-insert_by_size a [] id = refl
any_has-insert_by_size a (b ∷ ls) id = ground (arith, any_has-insert_by_size a ls id)

any_has-sort_by_size :
    (ls : List VectorIdList) (id : ℕ) → any_has (sort_by_size ls) id ≡ any_has ls id
unfolding any_has sort_by_size
any_has-sort_by_size [] id = refl
any_has-sort_by_size (a ∷ ls) id =
    any_has-insert_by_size a (sort_by_size ls) id
    ∙ ap (λ b. has a id || b) (any_has-sort_by_size ls id)

every_has-insert_by_size :
    (a : VectorIdList) (ls : List VectorIdList) (id : ℕ)
    → every_has (insert_by_size a ls) id ≡ (has a id && every_has ls id)
unfolding every_has insert_by_size
every_has-insert_by_size a [] id = refl
every_has-insert_by_size a (b ∷ ls) id = ground (arith, every_has-insert_by_size a ls id)

pub every_has-sort_by_size :
    (ls : List VectorIdList) (id : ℕ) → every_has (sort_by_size ls) id ≡ every_has ls id
unfolding every_has sort_by_size
every_has-sort_by_size [] id = refl
every_has-sort_by_size (a ∷ ls) id =
    every_has-insert_by_size a (sort_by_size ls) id
    ∙ ap (λ b. has a id && b) (every_has-sort_by_size ls id)

All-insert_by_size :
    (a : VectorIdList) (ls : List VectorIdList)
    → IsAscending a
    → All IsAscending ls
    → All IsAscending (insert_by_size a ls)
unfolding insert_by_size
All-insert_by_size a [] h hs = (h, tt)
All-insert_by_size a (b ∷ ls) h hs = elim (Bool-cases (ltb (length b) (length a))) [
  | inl e ↦ rw e (hs.0, All-insert_by_size a ls h hs.1)
  | inr e ↦ rw e (h, hs)
]

pub All-sort_by_size :
    (ls : List VectorIdList) → All IsAscending ls → All IsAscending (sort_by_size ls)
unfolding sort_by_size
All-sort_by_size [] hs = tt
All-sort_by_size (a ∷ ls) hs =
    All-insert_by_size a (sort_by_size ls) hs.0 (All-sort_by_size ls hs.1)

has-merge_lists :
    (r : VectorIdList) (ls : List VectorIdList) (id : ℕ)
    → IsAscending r
    → All IsAscending ls
    → has (merge_lists r ls) id ≡ (has r id || any_has ls id)
unfolding merge_lists any_has
has-merge_lists r [] id h hs = ground arith
has-merge_lists r (a ∷ ls) id h hs =
    let u = or_sorted_unique-union r a id h hs.0 in
    let ih = has-merge_lists (or_sorted_unique r a) ls id u.0 hs.1 in ground (arith, ih, u.1)

pub has-intersect_lists :
    (r : VectorIdList) (ls : List VectorIdList) (id : ℕ)
    → IsAscending r
    → All IsAscending ls
    → has (intersect_lists r ls) id ≡ (has r id && every_has ls id)
unfolding intersect_lists every_has
has-intersect_lists r [] id h hs = ground arith
has-intersect_lists r (a ∷ ls) id h hs =
    let u = and_sorted_unique-intersection r a id h hs.0 in
    let ih = has-intersect_lists (and_sorted_unique r a) ls id u.0 hs.1 in ground (arith, ih, u.1)

unfoldable pub ids_in : Option VectorIdList → VectorIdList
ids_in none = []
ids_in (some ids) = ids

-- The ids that the index has for a label.
unfoldable pub ids_of : LabelIndex → ℕ → VectorIdList
unfolding list_of ids_in
ids_of index label = ids_in (list_of index label)

any_has-add_list :
    (o : Option VectorIdList) (ls : List VectorIdList) (id : ℕ)
    → any_has (add_list o ls) id ≡ (has (ids_in o) id || any_has ls id)
unfolding any_has add_list ids_in has
any_has-add_list none ls id = refl
any_has-add_list (some []) ls id = refl
any_has-add_list (some (i ∷ is)) ls id = refl

All-add_list :
    (o : Option VectorIdList) (ls : List VectorIdList)
    → IsAscending (ids_in o)
    → All IsAscending ls
    → All IsAscending (add_list o ls)
unfolding add_list ids_in
All-add_list none ls h hs = hs
All-add_list (some []) ls h hs = hs
All-add_list (some (i ∷ is)) ls h hs = (h, hs)

module _ (index : LabelIndex) where
  unfoldable pub any_id : Attribute → ℕ → Bool
  any_id [] id = false
  any_id (label ∷ query) id = has (ids_of index label) id || any_id query id

  any_has-lists_of :
      (query : Attribute) (id : ℕ) → any_has (lists_of index query) id ≡ any_id query id
  unfolding any_has lists_of any_id ids_of
  any_has-lists_of [] id = refl
  any_has-lists_of (label ∷ query) id =
      any_has-add_list (list_of index label) (lists_of index query) id
      ∙ ap (λ b. has (ids_in (list_of index label)) id || b) (any_has-lists_of query id)

  All-lists_of :
      (query : Attribute)
      → All (λ l. IsAscending (ids_of index l)) query
      → All IsAscending (lists_of index query)
  unfolding lists_of ids_of
  All-lists_of [] hs = tt
  All-lists_of (label ∷ query) hs =
      All-add_list (list_of index label) (lists_of index query) hs.0 (All-lists_of query hs.1)

  pub has-pre_filter :
      (query : Attribute) (id : ℕ)
      → All (λ l. IsAscending (ids_of index l)) query
      → has (pre_filter index query) id ≡ any_id query id
  unfolding pre_filter has
  has-pre_filter query id hs =
      has-merge_lists [] (sort_by_size (lists_of index query)) id tt
        (All-sort_by_size (lists_of index query) (All-lists_of query hs))
      ∙ any_has-sort_by_size (lists_of index query) id
      ∙ any_has-lists_of query id

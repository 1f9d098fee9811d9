-- ===== src/Filter/Labels/Conjunction.antt =====
-- The intersection of the lists of all labels of a query.
use pipe_ann.Base.{
  ℕ, ◌<◌, ◌≡◌, refl, ap, ◌∙◌, Bool, true, false, ◌&&◌, Option, none, some, List, [], ◌∷◌, arith,
  All, length,
}
use pipe_ann.Filter.Ids.{VectorIdList, has, IsAscending}
use pipe_ann.Filter.Attributes.{Attribute}
use pipe_ann.Filter.Labels.{
  LabelIndex, list_of, insert_by_size, sort_by_size, push_list, all_lists, intersect_all,
  intersect_found, pre_filter_and,
}
use pipe_ann.Filter.Labels.Lists.{
  every_has, every_has-sort_by_size, All-sort_by_size, has-intersect_lists, ids_in, ids_of,
}

length-insert_by_size :
    (a : VectorIdList) (ls : List VectorIdList) → 0 < length (insert_by_size a ls)
unfolding insert_by_size
length-insert_by_size a [] = omega arith
length-insert_by_size a (b ∷ ls) = ground arith

has-intersect_all :
    (ls : List VectorIdList) (id : ℕ)
    → 0 < length ls
    → All IsAscending ls
    → has (intersect_all ls) id ≡ every_has ls id
unfolding intersect_all every_has
has-intersect_all [] id n hs = absurd (omega (arith, n))
has-intersect_all (a ∷ ls) id n hs = has-intersect_lists a ls id hs.0 hs.1

every_found : Option (List VectorIdList) → ℕ → Bool
every_found none id = false
every_found (some ls) id = every_has ls id

every_found-push_list :
    (o : Option VectorIdList) (os : Option (List VectorIdList)) (id : ℕ)
    → every_found (push_list o os) id ≡ (has (ids_in o) id && every_found os id)
unfolding every_found push_list ids_in has every_has
every_found-push_list none os id = refl
every_found-push_list (some []) os id = refl
every_found-push_list (some (i ∷ is)) none id = ground arith
every_found-push_list (some (i ∷ is)) (some ls) id = refl

AreFound : Option (List VectorIdList) → Type 0
AreFound none = Unit
AreFound (some ls) = All IsAscending ls

push_list-AreFound :
    (o : Option VectorIdList) (os : Option (List VectorIdList))
    → IsAscending (ids_in o)
    → AreFound os
    → AreFound (push_list o os)
unfolding push_list ids_in AreFound
push_list-AreFound none os h hs = tt
push_list-AreFound (some []) os h hs = tt
push_list-AreFound (some (i ∷ is)) none h hs = tt
push_list-AreFound (some (i ∷ is)) (some ls) h hs = (h, hs)

has-intersect_found :
    (o : Option VectorIdList) (os : Option (List VectorIdList)) (id : ℕ)
    → AreFound (push_list o os)
    → has (intersect_found (push_list o os)) id ≡ every_found (push_list o os) id
unfolding push_list AreFound intersect_found every_found has sort_by_size every_has
has-intersect_found none os id hs = refl
has-intersect_found (some []) os id hs = refl
has-intersect_found (some (i ∷ is)) none id hs = refl
has-intersect_found (some (i ∷ is)) (some ls) id hs =
    has-intersect_all (insert_by_size (i ∷ is) (sort_by_size ls)) id
      (length-insert_by_size (i ∷ is) (sort_by_size ls)) (All-sort_by_size ((i ∷ is) ∷ ls) hs)
    ∙ every_has-sort_by_size ((i ∷ is) ∷ ls) id

module _ (index : LabelIndex) where
  unfoldable pub every_id : Attribute → ℕ → Bool
  every_id [] id = true
  every_id (label ∷ query) id = has (ids_of index label) id && every_id query id

  every_found-all_lists :
      (query : Attribute) (id : ℕ) → every_found (all_lists index query) id ≡ every_id query id
  unfolding every_found all_lists every_id ids_of every_has
  every_found-all_lists [] id = refl
  every_found-all_lists (label ∷ query) id =
      every_found-push_list (list_of index label) (all_lists index query) id
      ∙ ap (λ b. has (ids_in (list_of index label)) id && b) (every_found-all_lists query id)

  all_lists-AreFound :
      (query : Attribute)
      → All (λ l. IsAscending (ids_of index l)) query
      → AreFound (all_lists index query)
  unfolding all_lists ids_of AreFound
  all_lists-AreFound [] hs = tt
  all_lists-AreFound (label ∷ query) hs =
      push_list-AreFound (list_of index label) (all_lists index query) hs.0
        (all_lists-AreFound query hs.1)

  pub has-pre_filter_and :
      (label : ℕ) (query : Attribute) (id : ℕ)
      → All (λ l. IsAscending (ids_of index l)) (label ∷ query)
      → has (pre_filter_and index (label ∷ query)) id ≡ every_id (label ∷ query) id
  unfolding pre_filter_and all_lists
  has-pre_filter_and label query id hs =
      has-intersect_found (list_of index label) (all_lists index query) id
        (all_lists-AreFound (label ∷ query) hs)
      ∙ every_found-all_lists (label ∷ query) id

-- ===== src/Filter/Labels/Members.antt =====
-- Whom the inverted index accepts: its scan and its check of a vector during a traversal.
use pipe_ann.Base.{
  ℕ, ◌≡◌, refl, ap, ◌∙◌, ◌≢◌, ◌⊎◌, inl, inr, Bool, true, false, ◌&&◌, ◌||◌, Option, some, [], ◌∷◌,
  arith, Bool-cases, All,
}
use pipe_ann.Filter.Ids.{has, IsAscending}
use pipe_ann.Filter.Attributes.{Attribute}
use pipe_ann.Filter.Bloom.{chain, contains}
use pipe_ann.Filter.Bloom.Holds.{IsFilter}
use pipe_ann.Filter.Bloom.Total.{contains_answers}
use pipe_ann.Filter.Selector.Member.{any_label, all_labels}
use pipe_ann.Filter.Labels.{
  LabelIndex, get_bloom_filter, is_cold_label, pre_filter, pre_filter_and, cold_labels,
  prepare_in_filter, prepare_in_filter_and, any_hot, all_hot, is_member_approx, has_cold,
  is_member_approx_and,
}
use pipe_ann.Filter.Labels.Lists.{ids_of, any_id, has-pre_filter}
use pipe_ann.Filter.Labels.Conjunction.{every_id, has-pre_filter_and}

-- The index has the labels `row` of the vector `id`: its lists hold `id` for these labels alone,
-- and its bloom filter, which lies in the bytes of the filters, answers yes to the hot ones.
pub record IsIndexed (index : LabelIndex) (id : ℕ) (row : Attribute) : Type 0 where
  pub listed : (l : ℕ) → has (ids_of index l) id ≡ has row l
  pub filter : IsFilter (get_bloom_filter index id)
  pub marked :
      (l : ℕ)
      → is_cold_label index l ≡ false
      → has row l ≡ true
      → contains (get_bloom_filter index id) l ≡ some true

abbrev pub AreAscending : LabelIndex → Attribute → Type 0
AreAscending index query = All (λ l. IsAscending (ids_of index l)) query

module _ (index : LabelIndex) (id : ℕ) (row : Attribute) (h : IsIndexed index id row) where
  any_id-any_label : (query : Attribute) → any_id index query id ≡ any_label query row
  unfolding any_id any_label
  any_id-any_label [] = refl
  any_id-any_label (label ∷ query) = ground (arith, h.listed label, any_id-any_label query)

  every_id-all_labels : (query : Attribute) → every_id index query id ≡ all_labels query row
  unfolding every_id all_labels
  every_id-all_labels [] = refl
  every_id-all_labels (label ∷ query) = ground (arith, h.listed label, every_id-all_labels query)

  AreAscending-cold_labels :
      (query : Attribute) → AreAscending index query → AreAscending index (cold_labels index query)
  unfolding cold_labels
  AreAscending-cold_labels [] d = tt
  AreAscending-cold_labels (label ∷ query) d = elim (Bool-cases (is_cold_label index label)) [
    | inl e ↦ rw e (d.0, AreAscending-cold_labels query d.1)
    | inr e ↦ rw e (AreAscending-cold_labels query d.1)
  ]

  -- The two halves of the check, on the cold labels and on the hot ones, find a label of the row.
  AnyFound : Attribute → Option Bool → Type 0
  AnyFound query o =
      (b : Bool) × (o ≡ some b)
      × (any_label query row ≡ true → (any_label (cold_labels index query) row || b) ≡ true)

  any_hot-AnyFound :
      (query : Attribute) → AnyFound query (any_hot index (get_bloom_filter index id) query)
  unfolding AnyFound any_hot any_label cold_labels chain
  any_hot-AnyFound [] = (false, refl, λ e. absurd (cc e))
  any_hot-AnyFound (label ∷ query) =
      let (b, e, f) = any_hot-AnyFound query in
      elim (Bool-cases (is_cold_label index label)) [
        | inl c ↦ rw c (b, e, λ t. ground (arith, f, t))
        | inr c ↦
            let (y, w) = contains_answers (get_bloom_filter index id) label h.filter in
            elim (Bool-cases y) [
              | inl t ↦ rw (c, w, t) (true, refl, λ m. ground arith)
              | inr t ↦
                  rw (c, w, t)
                    (
                      b,
                      e,
                      λ m. elim (Bool-cases (has row label)) [
                        | inl r ↦ absurd (let g = h.marked label c r in cc (g, w, t))
                        | inr r ↦ f (rw r at m)
                      ],
                    )
            ]
      ]

  AllFound : Attribute → Option Bool → Type 0
  AllFound query o =
      (b : Bool) × (o ≡ some b)
      × (all_labels query row ≡ true → (all_labels (cold_labels index query) row && b) ≡ true)

  all_hot-AllFound :
      (query : Attribute) → AllFound query (all_hot index (get_bloom_filter index id) query)
  unfolding AllFound all_hot all_labels cold_labels chain
  all_hot-AllFound [] = (true, refl, λ e. e)
  all_hot-AllFound (label ∷ query) =
      let (b, e, f) = all_hot-AllFound query in
      elim (Bool-cases (is_cold_label index label)) [
        | inl c ↦ rw c (b, e, λ t. ground (arith, f, t))
        | inr c ↦
            let (y, w) = contains_answers (get_bloom_filter index id) label h.filter in
            elim (Bool-cases y) [
              | inl t ↦
                  rw (c, w, t)
                    (
                      b,
                      e,
                      λ m. elim (Bool-cases (has row label)) [
                        | inl r ↦ f (rw r at m)
                        | inr r ↦ absurd (let g = rw r at m in cc g)
                      ],
                    )
              | inr t ↦
                  rw (c, w, t)
                    (
                      false,
                      refl,
                      λ m. elim (Bool-cases (has row label)) [
                        | inl r ↦ absurd (let g = h.marked label c r in cc (g, w, t))
                        | inr r ↦ absurd (let g = rw r at m in cc g)
                      ],
                    )
            ]
      ]

  has-pre_filter_and_found :
      (query : Attribute)
      → AreAscending index query
      → (has (pre_filter_and index query) id ≡ all_labels query row) ⊎ (query ≡ [])
  has-pre_filter_and_found [] d = inr refl
  has-pre_filter_and_found (label ∷ query) d =
      inl (has-pre_filter_and index label query id d ∙ every_id-all_labels (label ∷ query))

  has_cold_lem : (query : Attribute) → has_cold index query ≡ true → cold_labels index query ≢ []
  unfolding has_cold cold_labels
  has_cold_lem [] c e = absurd (cc c)
  has_cold_lem (label ∷ query) c e = elim (Bool-cases (is_cold_label index label)) [
    | inl t ↦ let g = rw t at e in absurd (cc g)
    | inr t ↦ has_cold_lem query (rw t at c) (rw t at e)
  ]

  has-prepare_in_filter_and :
      (query : Attribute)
      → AreAscending index query
      → has_cold index query ≡ true
      → all_labels (cold_labels index query) row ≡ true
      → has (prepare_in_filter_and index query) id ≡ true
  unfolding prepare_in_filter_and
  has-prepare_in_filter_and query d c m =
      elim (has-pre_filter_and_found (cold_labels index query) (AreAscending-cold_labels query d)) [
        | inl e ↦ e ∙ m
        | inr e ↦ absurd (has_cold_lem query c e)
      ]

-- Where the lists of the query's labels are ascending and the index has the labels of a vector,
-- `pre_filter` finds the vector exactly when it has one of the query's labels, and
-- `pre_filter_and` of a query that is not empty exactly when it has them all.
pub pre_filter_exact :
    (index : LabelIndex) (id : ℕ) (row : Attribute) (label : ℕ) (query : Attribute)
    → IsIndexed index id row
    → AreAscending index (label ∷ query)
    → (has (pre_filter index (label ∷ query)) id ≡ any_label (label ∷ query) row)
      × (has (pre_filter_and index (label ∷ query)) id ≡ all_labels (label ∷ query) row)
pre_filter_exact index id row label query h d = (
  has-pre_filter index (label ∷ query) id d ∙ any_id-any_label index id row h (label ∷ query),
  has-pre_filter_and index label query id d ∙ every_id-all_labels index id row h (label ∷ query),
)

-- Where the lists of the query's labels are ascending and the index has the labels of a vector, a
-- vector with one of the query's labels passes the check of a traversal against the prepared list.
pub is_member_approx_any :
    (index : LabelIndex) (id : ℕ) (row query : Attribute)
    → IsIndexed index id row
    → AreAscending index query
    → any_label query row ≡ true
    → is_member_approx index id query (prepare_in_filter index query) ≡ some true
unfolding is_member_approx prepare_in_filter AnyFound
is_member_approx_any index id row query h d m =
    let (b, e, f) = any_hot-AnyFound index id row h query in
    let cold = cold_labels index query in
    let l =
      has-pre_filter index cold id (AreAscending-cold_labels index id row h query d)
      ∙ any_id-any_label index id row h cold in
    rw (l, e) (ground (arith, f m))

-- Where the lists of the query's labels are ascending and the index has the labels of a vector, a
-- vector with all of the query's labels passes the conjunctive check against the list that is
-- prepared for it.
pub is_member_approx_all :
    (index : LabelIndex) (id : ℕ) (row query : Attribute)
    → IsIndexed index id row
    → AreAscending index query
    → all_labels query row ≡ true
    → is_member_approx_and index id query (prepare_in_filter_and index query) ≡ some true
unfolding is_member_approx_and AllFound
is_member_approx_all index id row query h d m =
    let (b, e, f) = all_hot-AllFound index id row h query in
    let both = f m in
    let hot : b ≡ true = ground (arith, both) in
    let cold : all_labels (cold_labels index query) row ≡ true = ground (arith, both) in
    elim (Bool-cases (has_cold index query)) [
      | inl c ↦ rw (c, has-prepare_in_filter_and index id row h query d c cold, e) (ap some hot)
      | inr c ↦ rw (c, e) (ap some hot)
    ]

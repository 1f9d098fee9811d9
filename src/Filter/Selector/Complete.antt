-- ===== src/Filter/Selector/Complete.antt =====
-- The approximate check of the traversal loses no member.
use pipe_ann.Base.{
  ℕ, ◌≤◌, ◌<◌, ◌≡◌, refl, ap, ◌∙◌, subst, Bool, true, false, ◌&&◌, ◌||◌, Option, none, some, [],
  arith,
}
use pipe_ann.Filter.Ids.{VectorIdList, has, or_sorted_unique, and_sorted_unique}
use pipe_ann.Filter.Attributes.{Attribute, Attributes, get}
use pipe_ann.Filter.Selector.{
  Doubles, Indexes, Leaf, Selector, Branches, Selectors, leaf, and_selector, or_selector,
  not_selector, no_branch, branch, no_selector, selector,
}
use pipe_ann.Filter.Selector.Member.{
  and_then, or_else, leaf_member, is_member, is_member_all, is_member_any,
}
use pipe_ann.Filter.Selector.PreFilter.{
  ◌>>=◌, exclude, is_used, pre_filter, pre_filter_rest, pre_filter_union,
}
use pipe_ann.Filter.Selector.Complement.{max_id}
use pipe_ann.Filter.Selector.InFilter.{
  leaf_prepare, leaf_member_approx, prepare_in_filter, prepare_branches, prepare_selectors,
  is_member_approx, approx_all, approx_any,
}
use pipe_ann.Filter.Selector.Exact.{IsExact, pre_filter_strict, and_then-some, or_else-some}

bind_same {ℓ κ} :
    {A : Type ℓ} {B : Type κ} (o o' : Option A) (f g : A → Option B)
    → o ≡ o'
    → ((a : A) → f a ≡ g a)
    → (o >>= f) ≡ (o' >>= g)
bind_same none o' f g e h = subst (λ t. none ≡ (t >>= g)) e refl
bind_same (some a) o' f g e h = h a ∙ subst (λ t. g a ≡ (t >>= g)) e refl

module _ (d : Doubles) where
  -- No branch is skipped for its selectivity.
  unfoldable mutual
    pub KeepsBranches : Selector → Type 0
    KeepsBranches (leaf kind key base_key index list) = Unit
    KeepsBranches (and_selector no_branch) = Unit
    KeepsBranches (and_selector (branch s selectivity bs)) = KeepsBranches s × KeepAll bs
    KeepsBranches (or_selector ss) = KeepEach ss
    KeepsBranches (not_selector s n_vectors ids) = KeepsBranches s

    pub KeepAll : Branches → Type 0
    KeepAll no_branch = Unit
    KeepAll (branch s selectivity bs) =
        (is_used d false selectivity ≡ true) × KeepsBranches s × KeepAll bs

    pub KeepEach : Selectors → Type 0
    KeepEach no_selector = Unit
    KeepEach (selector s ss) = KeepsBranches s × KeepEach ss

  module _ (indexes : Indexes) (query : Attributes) where
    mutual
      unfolding pre_filter KeepsBranches is_used

      pub pre_filter-KeepsBranches :
          (s : Selector)
          → KeepsBranches s
          → pre_filter d indexes query false s ≡ pre_filter d indexes query true s
      pre_filter-KeepsBranches (leaf kind key base_key index list) k = refl
      pre_filter-KeepsBranches (and_selector no_branch) k = refl
      pre_filter-KeepsBranches (and_selector (branch s selectivity bs)) (k, ks) =
          bind_same (pre_filter d indexes query false s) (pre_filter d indexes query true s)
            (pre_filter_rest d indexes query false bs) (pre_filter_rest d indexes query true bs)
            (pre_filter-KeepsBranches s k) (λ ret. pre_filter_rest-KeepAll bs ret ks)
      pre_filter-KeepsBranches (or_selector ss) k = pre_filter_union-KeepEach ss [] k
      pre_filter-KeepsBranches (not_selector s n_vectors ids) k =
          ap (λ o. o >>= exclude n_vectors) (pre_filter-KeepsBranches s k)

      pre_filter_rest-KeepAll :
          (bs : Branches) (ret : VectorIdList)
          → KeepAll bs
          → pre_filter_rest d indexes query false bs ret
            ≡ pre_filter_rest d indexes query true bs ret
      pre_filter_rest-KeepAll no_branch ret k = refl
      pre_filter_rest-KeepAll (branch s selectivity bs) ret (u, k, ks) = rw u (
          bind_same (pre_filter d indexes query false s) (pre_filter d indexes query true s)
            (λ cur. pre_filter_rest d indexes query false bs (and_sorted_unique ret cur))
            (λ cur. pre_filter_rest d indexes query true bs (and_sorted_unique ret cur))
            (pre_filter-KeepsBranches s k)
            (λ cur. pre_filter_rest-KeepAll bs (and_sorted_unique ret cur) ks))

      pre_filter_union-KeepEach :
          (ss : Selectors) (ids : VectorIdList)
          → KeepEach ss
          → pre_filter_union d indexes query false ss ids
            ≡ pre_filter_union d indexes query true ss ids
      pre_filter_union-KeepEach no_selector ids k = refl
      pre_filter_union-KeepEach (selector s ss) ids (k, ks) =
          bind_same (pre_filter d indexes query false s) (pre_filter d indexes query true s)
            (λ ret. pre_filter_union d indexes query false ss (or_sorted_unique ids ret))
            (λ ret. pre_filter_union d indexes query true ss (or_sorted_unique ids ret))
            (pre_filter-KeepsBranches s k)
            (λ ret. pre_filter_union-KeepEach ss (or_sorted_unique ids ret) ks)

module _ (d : Doubles) (indexes : Indexes) (query : Attributes) (rows : ℕ → Attributes)
    (n : ℕ) where
  -- A leaf's approximate check answers, and accepts what the exact one accepts.
  pub record IsCompleteLeaf (kind : Leaf) (key base_key index : ℕ) : Type 0 where
    pub attribute : Attribute
    pub bound : get query key ≡ some attribute
    pub exact : ℕ → Bool
    pub approx : ℕ → Bool
    pub answers :
        (id : ℕ) → id < n → leaf_member kind key base_key query (rows id) ≡ some (exact id)
    pub approximates :
        (id : ℕ)
        → id < n
        → leaf_member_approx
            (indexes index)
            kind
            id
            key
            query
            (leaf_prepare (indexes index) kind attribute)
          ≡ some (approx id)
    pub covers : (id : ℕ) → id < n → exact id ≡ true → approx id ≡ true

  -- The leaves are complete; the negations range over the vectors, and below them the leaves are
  -- exact and no branch is skipped.
  unfoldable mutual
    unfolding KeepsBranches IsExact

    pub IsComplete : Selector → Type 0
    IsComplete (leaf kind key base_key index list) = IsCompleteLeaf kind key base_key index
    IsComplete (and_selector bs) = AreCompleteBranches bs
    IsComplete (or_selector ss) = AreComplete ss
    IsComplete (not_selector s n_vectors ids) =
        (n_vectors ≡ n) × IsExact d indexes query rows n s × KeepsBranches d s

    pub AreCompleteBranches : Branches → Type 0
    AreCompleteBranches no_branch = Unit
    AreCompleteBranches (branch s selectivity bs) = IsComplete s × AreCompleteBranches bs

    pub AreComplete : Selectors → Type 0
    AreComplete no_selector = Unit
    AreComplete (selector s ss) = IsComplete s × AreComplete ss

  -- Both checks answer, and the second accepts what the first accepts.
  abbrev pub Covers : Option Bool → Option Bool → Type 0
  Covers exact approx =
      (b : Bool) × (a : Bool) × (exact ≡ some b) × (approx ≡ some a) × (b ≡ true → a ≡ true)

  Covers-and :
      (e a e' a' : Option Bool) → Covers e a → Covers e' a' → Covers (and_then e e') (and_then a a')
  Covers-and e a e' a' (b, c, p, q, i) (b', c', p', q', i') = (
    b && b',
    c && c',
    ap (λ o. and_then o e') p ∙ ap (and_then (some b)) p' ∙ and_then-some b b',
    ap (λ o. and_then o a') q ∙ ap (and_then (some c)) q' ∙ and_then-some c c',
    λ t. ground arith,
  )

  Covers-or :
      (e a e' a' : Option Bool) → Covers e a → Covers e' a' → Covers (or_else e e') (or_else a a')
  Covers-or e a e' a' (b, c, p, q, i) (b', c', p', q', i') = (
    b || b',
    c || c',
    ap (λ o. or_else o e') p ∙ ap (or_else (some b)) p' ∙ or_else-some b b',
    ap (λ o. or_else o a') q ∙ ap (or_else (some c)) q' ∙ or_else-some c c',
    λ t. ground arith,
  )

  module _ (h : n ≤ max_id) where
    mutual
      unfolding prepare_in_filter is_member is_member_approx IsComplete

      prepare-Covers :
          (s : Selector)
          → IsComplete s
          → (s' : Selector) × (prepare_in_filter d indexes query s ≡ some s')
            × ((id : ℕ)
                → id < n
                → Covers (is_member s query (rows id)) (is_member_approx d indexes query id s'))
      prepare-Covers (leaf kind key base_key index list) i = (
        leaf kind key base_key index (leaf_prepare (indexes index) kind i.attribute),
        ap
            (λ o.
              o >>= λ q. some (leaf kind key base_key index (leaf_prepare (indexes index) kind q)))
            i.bound,
        λ id lt. (i.exact id, i.approx id, i.answers id lt, i.approximates id lt, i.covers id lt),
      )
      prepare-Covers (and_selector bs) i =
          let (r, e, c) = prepare_branches-Covers bs i in
          (and_selector r, ap (λ o. o >>= λ t. some (and_selector t)) e, c)
      prepare-Covers (or_selector ss) i =
          let (r, e, c) = prepare_selectors-Covers ss i in
          (or_selector r, ap (λ o. o >>= λ t. some (or_selector t)) e, c)
      prepare-Covers (not_selector s n_vectors ids) (e, i, k) =
          let (r, er, ir, agrees) =
            pre_filter_strict d indexes query rows n h (not_selector s n_vectors ids) (e, i) in
          (
            not_selector s n_vectors r,
            ap (λ o. o >>= λ t. some (not_selector s n_vectors t))
                (pre_filter-KeepsBranches d indexes query (not_selector s n_vectors ids) k ∙ er),
            λ id lt. (has r id, has r id, agrees id lt, refl, λ t. t),
          )

      prepare_branches-Covers :
          (bs : Branches)
          → AreCompleteBranches bs
          → (bs' : Branches) × (prepare_branches d indexes query bs ≡ some bs')
            × ((id : ℕ)
                → id < n
                → Covers (is_member_all bs query (rows id)) (approx_all d indexes query id bs'))
      prepare_branches-Covers no_branch i =
          (no_branch, refl, λ id lt. (true, true, refl, refl, λ e. e))
      prepare_branches-Covers (branch s selectivity bs) (i, is) =
          let (r, e, c) = prepare-Covers s i in
          let (rs, es, cs) = prepare_branches-Covers bs is in
          (
            branch r selectivity rs,
            ap
                  (λ o. o >>= λ r.
                    prepare_branches d indexes query bs >>= λ rs. some (branch r selectivity rs))
                  e
                ∙ ap (λ o. o >>= λ rs. some (branch r selectivity rs)) es,
            λ id lt.
                Covers-and (is_member s query (rows id)) (is_member_approx d indexes query id r)
                  (is_member_all bs query (rows id)) (approx_all d indexes query id rs) (c id lt)
                  (cs id lt),
          )

      prepare_selectors-Covers :
          (ss : Selectors)
          → AreComplete ss
          → (ss' : Selectors) × (prepare_selectors d indexes query ss ≡ some ss')
            × ((id : ℕ)
                → id < n
                → Covers (is_member_any ss query (rows id)) (approx_any d indexes query id ss'))
      prepare_selectors-Covers no_selector i =
          (no_selector, refl, λ id lt. (false, false, refl, refl, λ e. e))
      prepare_selectors-Covers (selector s ss) (i, is) =
          let (r, e, c) = prepare-Covers s i in
          let (rs, es, cs) = prepare_selectors-Covers ss is in
          (
            selector r rs,
            ap (λ o. o >>= λ r. prepare_selectors d indexes query ss >>= λ rs. some (selector r rs))
                  e
                ∙ ap (λ o. o >>= λ rs. some (selector r rs)) es,
            λ id lt.
                Covers-or (is_member s query (rows id)) (is_member_approx d indexes query id r)
                  (is_member_any ss query (rows id)) (approx_any d indexes query id rs) (c id lt)
                  (cs id lt),
          )

    -- Of at most 2 ^ 32 - 1 vectors, a selector is prepared without a failure, and then its
    -- approximate check accepts each vector that the exact check accepts, and both answer for every
    -- vector: when the leaves do so, the negations range over these vectors, and below a negation no
    -- conjunction is empty, the leaves are exact and `pre_filter` skips no branch.
    pub is_member_approx_no_false_negative :
        (s : Selector)
        → IsComplete s
        → (s' : Selector) × (prepare_in_filter d indexes query s ≡ some s')
          × ((id : ℕ)
              → id < n
              → Covers (is_member s query (rows id)) (is_member_approx d indexes query id s'))
    is_member_approx_no_false_negative s i = prepare-Covers s i

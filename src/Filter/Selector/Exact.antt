-- ===== src/Filter/Selector/Exact.antt =====
-- The strict scan of the indexes finds what the exact check accepts.
use pipe_ann.Base.{
  ℕ, ◌≤◌, ◌<◌, ◌≡◌, refl, sym, ap, ◌∙◌, Bool, true, false, ◌&&◌, ◌||◌, Option, some, [], arith,
}
use pipe_ann.Filter.Ids.{
  VectorIdList, has, or_sorted_unique, and_sorted_unique, or_sorted_unique-union,
  and_sorted_unique-intersection,
}
use pipe_ann.Filter.Attributes.{Attribute, Attributes, get}
use pipe_ann.Filter.Selector.{
  Doubles, Indexes, Leaf, Selector, Branches, Selectors, leaf, and_selector, or_selector,
  not_selector, no_branch, branch, no_selector, selector,
}
use pipe_ann.Filter.Selector.Member.{
  and_then, or_else, negate, leaf_member, is_member, is_member_all, is_member_any,
}
use pipe_ann.Filter.Selector.PreFilter.{
  ◌>>=◌, leaf_pre_filter, complement, exclude, pre_filter, pre_filter_rest, pre_filter_union,
}
use pipe_ann.Filter.Selector.Complement.{
  max_id, IsIdList, exclude_lem, IsIdList-or, IsIdList-and, IsIdList-nil,
}

pub and_then-some : (a b : Bool) → and_then (some a) (some b) ≡ some (a && b)
unfolding and_then
and_then-some true b = refl
and_then-some false b = refl

pub or_else-some : (a b : Bool) → or_else (some a) (some b) ≡ some (a || b)
unfolding or_else
or_else-some true b = refl
or_else-some false b = refl

-- The vectors are those below `n`, with their attributes `rows`.
module _ (d : Doubles) (indexes : Indexes) (query : Attributes) (rows : ℕ → Attributes)
    (n : ℕ) where
  -- The answer of one leaf is right: the index has found the vectors that the leaf accepts.
  pub record IsExactLeaf (kind : Leaf) (key base_key index : ℕ) : Type 0 where
    pub attribute : Attribute
    pub bound : get query key ≡ some attribute
    pub ids : IsIdList n (leaf_pre_filter (indexes index) kind attribute)
    pub agrees :
        (id : ℕ)
        → id < n
        → leaf_member kind key base_key query (rows id)
          ≡ some (has (leaf_pre_filter (indexes index) kind attribute) id)

  -- The leaves are exact, no conjunction is empty, and the negations range over the vectors.
  unfoldable mutual
    pub IsExact : Selector → Type 0
    IsExact (leaf kind key base_key index list) = IsExactLeaf kind key base_key index
    IsExact (and_selector no_branch) = ⊥
    IsExact (and_selector (branch s selectivity bs)) = IsExact s × AreExactBranches bs
    IsExact (or_selector ss) = AreExact ss
    IsExact (not_selector s n_vectors ids) = (n_vectors ≡ n) × IsExact s

    pub AreExactBranches : Branches → Type 0
    AreExactBranches no_branch = Unit
    AreExactBranches (branch s selectivity bs) = IsExact s × AreExactBranches bs

    pub AreExact : Selectors → Type 0
    AreExact no_selector = Unit
    AreExact (selector s ss) = IsExact s × AreExact ss

  -- A scan has found exactly the vectors of a check.
  abbrev pub Finds : Option VectorIdList → (ℕ → Option Bool) → Type 0
  Finds found check =
      (ids : VectorIdList) × (found ≡ some ids)
      × IsIdList n ids
      × ((id : ℕ) → id < n → check id ≡ some (has ids id))

  -- The same, of what a loop adds to the ids at hand.
  abbrev FindsWith :
      (Bool → Bool → Bool) → VectorIdList → Option VectorIdList → (ℕ → Option Bool) → Type 0
  FindsWith op ret found check =
      (ids : VectorIdList) × (found ≡ some ids)
      × IsIdList n ids
      × ((id : ℕ) → id < n → (b : Bool) × (check id ≡ some b) × (has ids id ≡ op (has ret id) b))

  module _ (found : Option VectorIdList) (check check' : ℕ → Option Bool) where
    Finds-first :
        (rest : VectorIdList → Option VectorIdList)
        → Finds found check
        → ((ret : VectorIdList) → IsIdList n ret → FindsWith (λ a b. a && b) ret (rest ret) check')
        → Finds (found >>= rest) (λ id. and_then (check id) (check' id))
    unfolding and_then
    Finds-first rest (ids, e, i, agree) f =
        let (r, e', j, agree') = f ids i in
        (r, ap (λ o. o >>= rest) e ∙ e', j, λ id lt. ground (arith, agree id lt, agree' id lt))

    FindsWith-and :
        (ret : VectorIdList) (rest : VectorIdList → Option VectorIdList)
        → Finds found check
        → IsIdList n ret
        → ((ret : VectorIdList) → IsIdList n ret → FindsWith (λ a b. a && b) ret (rest ret) check')
        → FindsWith
            (λ a b. a && b)
            ret
            (found >>= λ cur. rest (and_sorted_unique ret cur))
            (λ id. and_then (check id) (check' id))
    unfolding and_then
    FindsWith-and ret rest (ids, e, i, agree) k f =
        let (r, e', j, agree') = f (and_sorted_unique ret ids) (IsIdList-and n ret ids k i) in
        (
          r,
          ap (λ o. o >>= λ cur. rest (and_sorted_unique ret cur)) e ∙ e',
          j,
          λ id lt.
              let (b, e1, e2) = agree' id lt in
              (
                has ids id && b,
                ap (λ o. and_then o (check' id)) (agree id lt)
                    ∙ ap (and_then (some (has ids id))) e1
                    ∙ and_then-some (has ids id) b,
                ground
                    (arith, e2, and_sorted_unique-intersection ret ids id k.ascending i.ascending),
              ),
        )

    FindsWith-or :
        (ret : VectorIdList) (rest : VectorIdList → Option VectorIdList)
        → Finds found check
        → IsIdList n ret
        → ((ret : VectorIdList) → IsIdList n ret → FindsWith (λ a b. a || b) ret (rest ret) check')
        → FindsWith
            (λ a b. a || b)
            ret
            (found >>= λ cur. rest (or_sorted_unique ret cur))
            (λ id. or_else (check id) (check' id))
    unfolding or_else
    FindsWith-or ret rest (ids, e, i, agree) k f =
        let (r, e', j, agree') = f (or_sorted_unique ret ids) (IsIdList-or n ret ids k i) in
        (
          r,
          ap (λ o. o >>= λ cur. rest (or_sorted_unique ret cur)) e ∙ e',
          j,
          λ id lt.
              let (b, e1, e2) = agree' id lt in
              (
                has ids id || b,
                ap (λ o. or_else o (check' id)) (agree id lt)
                    ∙ ap (or_else (some (has ids id))) e1
                    ∙ or_else-some (has ids id) b,
                ground (arith, e2, or_sorted_unique-union ret ids id k.ascending i.ascending),
              ),
        )

  Finds-union :
      (found : Option VectorIdList) (check : ℕ → Option Bool)
      → FindsWith (λ a b. a || b) [] found check
      → Finds found check
  unfolding has
  Finds-union found check (ids, e, i, agree) =
      (ids, e, i, λ id lt. let (b, e1, e2) = agree id lt in e1 ∙ ap some (sym e2))

  module _ (h : n ≤ max_id) where
    Finds-negate :
        (found : Option VectorIdList) (check : ℕ → Option Bool)
        → Finds found check
        → Finds (found >>= exclude n) (λ id. negate (check id))
    unfolding negate
    Finds-negate found check (ids, e, i, agree) =
        let (out, j, c) = exclude_lem n ids h i in
        (
          complement n 0 ids,
          ap (λ o. o >>= exclude n) e ∙ out,
          j,
          λ id lt. ap negate (agree id lt) ∙ ap some (sym (c id lt)),
        )

    mutual
      unfolding pre_filter is_member IsExact

      pre_filter-Finds :
          (s : Selector)
          → IsExact s
          → Finds (pre_filter d indexes query true s) (λ id. is_member s query (rows id))
      pre_filter-Finds (leaf kind key base_key index list) i = (
        leaf_pre_filter (indexes index) kind i.attribute,
        ap (λ o. o >>= λ q. some (leaf_pre_filter (indexes index) kind q)) i.bound,
        i.ids,
        i.agrees,
      )
      pre_filter-Finds (and_selector no_branch) i = absurd i
      pre_filter-Finds (and_selector (branch s selectivity bs)) (i, is) =
          Finds-first (pre_filter d indexes query true s) (λ id. is_member s query (rows id))
            (λ id. is_member_all bs query (rows id)) (pre_filter_rest d indexes query true bs)
            (pre_filter-Finds s i) (λ ret r. pre_filter_rest-Finds bs ret is r)
      pre_filter-Finds (or_selector ss) i =
          Finds-union (pre_filter_union d indexes query true ss [])
            (λ id. is_member_any ss query (rows id))
            (pre_filter_union-Finds ss [] i (IsIdList-nil n))
      pre_filter-Finds (not_selector s n_vectors ids) (e, i) = rw e (
          Finds-negate (pre_filter d indexes query true s) (λ id. is_member s query (rows id))
            (pre_filter-Finds s i))

      pre_filter_rest-Finds :
          (bs : Branches) (ret : VectorIdList)
          → AreExactBranches bs
          → IsIdList n ret
          → FindsWith
              (λ a b. a && b)
              ret
              (pre_filter_rest d indexes query true bs ret)
              (λ id. is_member_all bs query (rows id))
      pre_filter_rest-Finds no_branch ret i r = (ret, refl, r, λ id lt. (true, refl, ground arith))
      pre_filter_rest-Finds (branch s selectivity bs) ret (i, is) r =
          FindsWith-and (pre_filter d indexes query true s) (λ id. is_member s query (rows id))
            (λ id. is_member_all bs query (rows id)) ret (pre_filter_rest d indexes query true bs)
            (pre_filter-Finds s i) r (λ ret' r'. pre_filter_rest-Finds bs ret' is r')

      pre_filter_union-Finds :
          (ss : Selectors) (ret : VectorIdList)
          → AreExact ss
          → IsIdList n ret
          → FindsWith
              (λ a b. a || b)
              ret
              (pre_filter_union d indexes query true ss ret)
              (λ id. is_member_any ss query (rows id))
      pre_filter_union-Finds no_selector ret i r =
          (ret, refl, r, λ id lt. (false, refl, ground arith))
      pre_filter_union-Finds (selector s ss) ret (i, is) r =
          FindsWith-or (pre_filter d indexes query true s) (λ id. is_member s query (rows id))
            (λ id. is_member_any ss query (rows id)) ret (pre_filter_union d indexes query true ss)
            (pre_filter-Finds s i) r (λ ret' r'. pre_filter_union-Finds ss ret' is r')

    -- Of at most 2 ^ 32 - 1 vectors, a strict `pre_filter` returns an ascending list of ids of
    -- vectors, and a vector is in it exactly when `is_member` accepts its attributes: when no
    -- conjunction is empty, the negations range over these vectors, and each leaf is exact, the ids
    -- that its index finds being ascending and those of the vectors that it accepts.
    pub pre_filter_strict :
        (s : Selector)
        → IsExact s
        → Finds (pre_filter d indexes query true s) (λ id. is_member s query (rows id))
    pre_filter_strict s i = pre_filter-Finds s i

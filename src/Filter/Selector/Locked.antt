-- ===== src/Filter/Selector/Locked.antt =====
-- The indexes that a traversal locks are each locked once, and are all that it reads.
use pipe_ann.Base.{
  ℕ, ◌≡◌, refl, ap, ◌∙◌, subst, inl, inr, true, false, ◌||◌, List, [], ◌∷◌, ◌++◌, arith, ◌==◌,
  Bool-cases,
}
use pipe_ann.Filter.Ids.{has}
use pipe_ann.Filter.Attributes.{Attributes}
use pipe_ann.Filter.Selector.{
  Doubles, Indexes, Selector, Branches, Selectors, leaf, and_selector, or_selector, not_selector,
  no_branch, branch, no_selector, selector,
}
use pipe_ann.Filter.Selector.Member.{and_then, or_else}
use pipe_ann.Filter.Selector.InFilter.{
  leaf_member_approx, is_member_approx, approx_all, approx_any, merge_attr_indexes, attr_indexes,
  merge_branches, merge_selectors,
}

-- No address twice.
abbrev pub NoRepeat : List ℕ → Type 0
NoRepeat [] = Unit
NoRepeat (x ∷ xs) = (has xs x ≡ false) × NoRepeat xs

has-snoc : (xs : List ℕ) (y z : ℕ) → has (xs ++ (y ∷ [])) z ≡ (has xs z || (y == z))
unfolding has
has-snoc [] y z = ground arith
has-snoc (x ∷ xs) y z = ground (arith, has-snoc xs y z)

NoRepeat-snoc : (xs : List ℕ) (y : ℕ) → has xs y ≡ false → NoRepeat xs → NoRepeat (xs ++ (y ∷ []))
unfolding has
NoRepeat-snoc [] y h d = (refl, tt)
NoRepeat-snoc (x ∷ xs) y h d =
    (ground (arith, has-snoc xs y x), NoRepeat-snoc xs y (ground arith) d.1)

merge-NoRepeat : (mine theirs : List ℕ) → NoRepeat mine → NoRepeat (merge_attr_indexes mine theirs)
unfolding merge_attr_indexes
merge-NoRepeat mine [] d = d
merge-NoRepeat mine (x ∷ theirs) d = elim (Bool-cases (has mine x)) [
  | inl e ↦ rw e (merge-NoRepeat mine theirs d)
  | inr e ↦ rw e (merge-NoRepeat (mine ++ (x ∷ [])) theirs (NoRepeat-snoc mine x e d))
]

has-merge :
    (mine theirs : List ℕ) (z : ℕ)
    → has (merge_attr_indexes mine theirs) z ≡ (has mine z || has theirs z)
unfolding merge_attr_indexes has
has-merge mine [] z = ground arith
has-merge mine (x ∷ theirs) z = elim (Bool-cases (has mine x)) [
  | inl e ↦
      rw e (
        has-merge mine theirs z ∙ ground (arith, λ (p : x ≡ z). subst (λ t. has mine t ≡ true) p e))
  | inr e ↦ rw e (has-merge (mine ++ (x ∷ [])) theirs z ∙ ground (arith, has-snoc mine x z))
]

mutual
  unfolding attr_indexes

  attr_indexes-NoRepeat : (s : Selector) → NoRepeat (attr_indexes s)
  attr_indexes-NoRepeat (leaf kind key base_key index list) = (refl, tt)
  attr_indexes-NoRepeat (and_selector bs) = merge_branches-NoRepeat [] bs tt
  attr_indexes-NoRepeat (or_selector ss) = merge_selectors-NoRepeat [] ss tt
  attr_indexes-NoRepeat (not_selector s n_vectors ids) = tt

  merge_branches-NoRepeat :
      (mine : List ℕ) (bs : Branches) → NoRepeat mine → NoRepeat (merge_branches mine bs)
  merge_branches-NoRepeat mine no_branch d = d
  merge_branches-NoRepeat mine (branch s selectivity bs) d =
      merge_branches-NoRepeat (merge_attr_indexes mine (attr_indexes s)) bs
        (merge-NoRepeat mine (attr_indexes s) d)

  merge_selectors-NoRepeat :
      (mine : List ℕ) (ss : Selectors) → NoRepeat mine → NoRepeat (merge_selectors mine ss)
  merge_selectors-NoRepeat mine no_selector d = d
  merge_selectors-NoRepeat mine (selector s ss) d =
      merge_selectors-NoRepeat (merge_attr_indexes mine (attr_indexes s)) ss
        (merge-NoRepeat mine (attr_indexes s) d)

-- What is there already stays.
abbrev Includes : List ℕ → List ℕ → Type 0
Includes xs ys = (z : ℕ) → has xs z ≡ true → has ys z ≡ true

Includes-merge_left : (mine theirs : List ℕ) → Includes mine (merge_attr_indexes mine theirs)
Includes-merge_left mine theirs z h = ground (arith, has-merge mine theirs z)

Includes-merge_right : (mine theirs : List ℕ) → Includes theirs (merge_attr_indexes mine theirs)
Includes-merge_right mine theirs z h = ground (arith, has-merge mine theirs z)

Includes-merge_branches : (mine : List ℕ) (bs : Branches) → Includes mine (merge_branches mine bs)
unfolding merge_branches
Includes-merge_branches mine no_branch z h = h
Includes-merge_branches mine (branch s selectivity bs) z h =
    Includes-merge_branches (merge_attr_indexes mine (attr_indexes s)) bs z
      (Includes-merge_left mine (attr_indexes s) z h)

Includes-merge_selectors :
    (mine : List ℕ) (ss : Selectors) → Includes mine (merge_selectors mine ss)
unfolding merge_selectors
Includes-merge_selectors mine no_selector z h = h
Includes-merge_selectors mine (selector s ss) z h =
    Includes-merge_selectors (merge_attr_indexes mine (attr_indexes s)) ss z
      (Includes-merge_left mine (attr_indexes s) z h)

module _ (d : Doubles) (indexes indexes' : Indexes) (query : Attributes) (id : ℕ) where
  -- The two agree at the addresses of the list.
  abbrev pub AgreeOn : List ℕ → Type 0
  AgreeOn locked = (z : ℕ) → has locked z ≡ true → indexes z ≡ indexes' z

  mutual
    unfolding is_member_approx attr_indexes has

    approx-AgreeOn :
        (s : Selector)
        → AgreeOn (attr_indexes s)
        → is_member_approx d indexes query id s ≡ is_member_approx d indexes' query id s
    approx-AgreeOn (leaf kind key base_key index list) a =
        ap (λ x. leaf_member_approx x kind id key query list) (a index (ground arith))
    approx-AgreeOn (and_selector bs) a = approx_all-AgreeOn [] bs a
    approx-AgreeOn (or_selector ss) a = approx_any-AgreeOn [] ss a
    approx-AgreeOn (not_selector s n_vectors ids) a = refl

    approx_all-AgreeOn :
        (mine : List ℕ) (bs : Branches)
        → AgreeOn (merge_branches mine bs)
        → approx_all d indexes query id bs ≡ approx_all d indexes' query id bs
    approx_all-AgreeOn mine no_branch a = refl
    approx_all-AgreeOn mine (branch s selectivity bs) a =
        let locked = merge_attr_indexes mine (attr_indexes s) in
        ap (λ o. and_then o (approx_all d indexes query id bs))
          (approx-AgreeOn s (λ z h.
            a z (
              Includes-merge_branches locked bs z
                (Includes-merge_right mine (attr_indexes s) z h))))
        ∙ ap (and_then (is_member_approx d indexes' query id s)) (approx_all-AgreeOn locked bs a)

    approx_any-AgreeOn :
        (mine : List ℕ) (ss : Selectors)
        → AgreeOn (merge_selectors mine ss)
        → approx_any d indexes query id ss ≡ approx_any d indexes' query id ss
    approx_any-AgreeOn mine no_selector a = refl
    approx_any-AgreeOn mine (selector s ss) a =
        let locked = merge_attr_indexes mine (attr_indexes s) in
        ap (λ o. or_else o (approx_any d indexes query id ss))
          (approx-AgreeOn s (λ z h. a z (
            Includes-merge_selectors locked ss z (Includes-merge_right mine (attr_indexes s) z h))))
        ∙ ap (or_else (is_member_approx d indexes' query id s)) (approx_any-AgreeOn locked ss a)

-- `lock_shared` of a selector locks no index twice, and `is_member_approx` reads no index that it
-- has not locked: what the other indexes hold makes no difference.
pub attr_indexes-lock :
    (d : Doubles) (indexes indexes' : Indexes) (query : Attributes) (id : ℕ) (s : Selector)
    → ((z : ℕ) → has (attr_indexes s) z ≡ true → indexes z ≡ indexes' z)
    → NoRepeat (attr_indexes s)
      × (is_member_approx d indexes query id s ≡ is_member_approx d indexes' query id s)
attr_indexes-lock d indexes indexes' query id s a =
    (attr_indexes-NoRepeat s, approx-AgreeOn d indexes indexes' query id s a)

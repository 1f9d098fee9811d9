-- ===== src/Filter/Selector/Ordered.antt =====
-- The estimate as a number, and the order in which it leaves the branches of a conjunction.
use pipe_ann.Base.{
  ℕ, ◌≤◌, ◌<◌, max, ◌≡◌, refl, ap, ◌∙◌, subst, inl, inr, true, false, Option, none, some,
  Bool-cases,
}
use mathlib.Core.Option.{some-injective}
use pipe_ann.Filter.Attributes.{Attributes, get}
use pipe_ann.Filter.Selector.{
  Double, Doubles, Indexes, Selector, Branches, Selectors, leaf, and_selector, or_selector,
  not_selector, no_branch, branch, no_selector, selector,
}
use pipe_ann.Filter.Selector.Member.{is_member}
use pipe_ann.Filter.Selector.PreFilter.{◌>>=◌}
use pipe_ann.Filter.Selector.Complement.{max_id}
use pipe_ann.Filter.Selector.Exact.{IsExact}
use pipe_ann.Filter.Selector.Selectivity.{
  leaf_selectivity, place, estimate_selectivity, multiply, add_up, estimate_selectivity_keeps,
}

Option-bind {ℓ κ} :
    {A : Type ℓ} {B : Type κ} (o : Option A) (f : A → Option B) (b : B)
    → (o >>= f) ≡ some b
    → (a : A) × (o ≡ some a) × (f a ≡ some b)
Option-bind none f b e = absurd (cc e)
Option-bind (some a) f b e = (a, refl, e)

module _ (d : Doubles) (indexes : Indexes) (query : Attributes) where
  -- The estimate alone: of a conjunction the product, of a disjunction the sum, of a negation the
  -- difference from one.
  unfoldable mutual
    pub value : Selector → Option Double
    value (leaf kind key base_key index list) =
        get query key >>= λ q. some (leaf_selectivity d (indexes index) kind q)
    value (and_selector bs) = product d.one_d bs
    value (or_selector ss) = sum d.zero_d ss
    value (not_selector s n_vectors ids) = value s >>= λ v. some (d.sub_d d.one_d v)

    pub product : Double → Branches → Option Double
    product w no_branch = some w
    product w (branch s v bs) = value s >>= λ u. product (d.mul_d w u) bs

    pub sum : Double → Selectors → Option Double
    sum w no_selector = some w
    sum w (selector s ss) = value s >>= λ u. sum (d.add_d w u) ss

  -- The first branch does not have a smaller selectivity than `w`.
  unfoldable pub IsFirst : Double → Branches → Type 0
  IsFirst w no_branch = Unit
  IsFirst w (branch s v bs) = d.lt_d v w ≡ false

  -- A branch is what the estimate has left of a selector, with the value of that estimate.
  abbrev pub IsLeft : Selector → Double → Type 0
  IsLeft s w = (s0 : Selector) × (estimate_selectivity d indexes query s0 ≡ some (w, s))

  -- In each conjunction the branches have their selectivities, and none is followed by a smaller
  -- one.
  unfoldable mutual
    pub IsOrdered : Selector → Type 0
    IsOrdered (leaf kind key base_key index list) = Unit
    IsOrdered (and_selector bs) = AreOrdered bs
    IsOrdered (or_selector ss) = EachOrdered ss
    IsOrdered (not_selector s n_vectors ids) = IsOrdered s

    pub AreOrdered : Branches → Type 0
    AreOrdered no_branch = Unit
    AreOrdered (branch s w bs) = IsOrdered s × IsFirst w bs × IsLeft s w × AreOrdered bs

    pub EachOrdered : Selectors → Type 0
    EachOrdered no_selector = Unit
    EachOrdered (selector s ss) = IsOrdered s × EachOrdered ss

  place-IsFirst :
      (v : Double) (s : Selector) (w : Double) (bs : Branches)
      → d.lt_d w v ≡ false
      → IsFirst v bs
      → IsFirst v (place d s w bs)
  unfolding place IsFirst
  place-IsFirst v s w no_branch h f = h
  place-IsFirst v s w (branch s' w' bs) h f = elim (Bool-cases (d.lt_d w' w)) [
    | inl e ↦ rw e f
    | inr e ↦ rw e h
  ]

  module _ (asym : (a b : Double) → d.lt_d a b ≡ true → d.lt_d b a ≡ false) where
    place-AreOrdered :
        (s : Selector) (w : Double) (bs : Branches)
        → IsOrdered s
        → IsLeft s w
        → AreOrdered bs
        → AreOrdered (place d s w bs)
    unfolding place IsOrdered IsFirst
    place-AreOrdered s w no_branch o l os = (o, tt, l, tt)
    place-AreOrdered s w (branch s' w' bs) o l (o', f, l', os) = elim (Bool-cases (d.lt_d w' w)) [
      | inl e ↦
          rw e (o', place-IsFirst w' s w bs (asym w' w e) f, l', place-AreOrdered s w bs o l os)
      | inr e ↦ rw e (o, e, l, (o', f, l', os))
    ]

    mutual
      unfolding estimate_selectivity IsOrdered value

      estimate-IsOrdered :
          (s : Selector) (w : Double) (s' : Selector)
          → estimate_selectivity d indexes query s ≡ some (w, s')
          → IsOrdered s' × (value s ≡ some w)
      estimate-IsOrdered (leaf kind key base_key index list) w s' h =
          let (q, e, e') = Option-bind (get query key) _ (w, s') h in
          let p = some-injective _ _ e' in
          (subst IsOrdered (ap (λ t. t.1) p) tt, rw e (ap (λ t. some t.0) p))
      estimate-IsOrdered (and_selector bs) w s' h =
          let (r, e, e') = Option-bind (multiply d indexes query d.one_d bs) _ (w, s') h in
          let (o, v) = multiply-AreOrdered d.one_d bs r.0 r.1 e in
          let p = some-injective _ _ e' in
          (subst IsOrdered (ap (λ t. t.1) p) o, v ∙ ap (λ t. some t.0) p)
      estimate-IsOrdered (or_selector ss) w s' h =
          let (r, e, e') = Option-bind (add_up d indexes query d.zero_d ss) _ (w, s') h in
          let (o, v) = add_up-EachOrdered d.zero_d ss r.0 r.1 e in
          let p = some-injective _ _ e' in
          (subst IsOrdered (ap (λ t. t.1) p) o, v ∙ ap (λ t. some t.0) p)
      estimate-IsOrdered (not_selector s n_vectors ids) w s' h =
          let (r, e, e') = Option-bind (estimate_selectivity d indexes query s) _ (w, s') h in
          let (o, v) = estimate-IsOrdered s r.0 r.1 e in
          let p = some-injective _ _ e' in
          (
            subst IsOrdered (ap (λ t. t.1) p) o,
            ap (λ o. o >>= λ v. some (d.sub_d d.one_d v)) v ∙ ap (λ t. some t.0) p,
          )

      multiply-AreOrdered :
          (u : Double) (bs : Branches) (w : Double) (bs' : Branches)
          → multiply d indexes query u bs ≡ some (w, bs')
          → AreOrdered bs' × (product u bs ≡ some w)
      multiply-AreOrdered u no_branch w bs' h =
          let p = some-injective _ _ h in
          (subst AreOrdered (ap (λ t. t.1) p) tt, ap (λ t. some t.0) p)
      multiply-AreOrdered u (branch s v bs) w bs' h =
          let (r, e, h') = Option-bind (estimate_selectivity d indexes query s) _ (w, bs') h in
          let (rs, es, e') =
            Option-bind (multiply d indexes query (d.mul_d u r.0) bs) _ (w, bs') h' in
          let (o, y) = estimate-IsOrdered s r.0 r.1 e in
          let (os, ys) = multiply-AreOrdered (d.mul_d u r.0) bs rs.0 rs.1 es in
          let p = some-injective _ _ e' in
          (
            subst AreOrdered (ap (λ t. t.1) p) (place-AreOrdered r.1 r.0 rs.1 o (s, e) os),
            ap (λ o. o >>= λ t. product (d.mul_d u t) bs) y ∙ ys ∙ ap (λ t. some t.0) p,
          )

      add_up-EachOrdered :
          (u : Double) (ss : Selectors) (w : Double) (ss' : Selectors)
          → add_up d indexes query u ss ≡ some (w, ss')
          → EachOrdered ss' × (sum u ss ≡ some w)
      add_up-EachOrdered u no_selector w ss' h =
          let p = some-injective _ _ h in
          (subst EachOrdered (ap (λ t. t.1) p) tt, ap (λ t. some t.0) p)
      add_up-EachOrdered u (selector s ss) w ss' h =
          let (r, e, h') = Option-bind (estimate_selectivity d indexes query s) _ (w, ss') h in
          let (rs, es, e') =
            Option-bind (add_up d indexes query (d.add_d u r.0) ss) _ (w, ss') h' in
          let (o, y) = estimate-IsOrdered s r.0 r.1 e in
          let (os, ys) = add_up-EachOrdered (d.add_d u r.0) ss rs.0 rs.1 es in
          let p = some-injective _ _ e' in
          (
            subst EachOrdered (ap (λ t. t.1) p) (o, os),
            ap (λ o. o >>= λ t. sum (d.add_d u t) ss) y ∙ ys ∙ ap (λ t. some t.0) p,
          )

    -- Of at most 2 ^ 32 - 1 vectors, over exact leaves and with an asymmetric order of doubles, the
    -- estimate succeeds, and is the product over a conjunction, the sum over a disjunction, and the
    -- difference from one for a negation. In each conjunction of the selector that it leaves the
    -- branches have their estimates, and none is followed by one with a smaller estimate; that
    -- selector is exact again and accepts the same vectors.
    pub estimate_selectivity_orders :
        (rows : ℕ → Attributes) (n : ℕ) (max : n ≤ max_id) (s : Selector)
        → IsExact d indexes query rows n s
        → (r : Double × Selector) × (estimate_selectivity d indexes query s ≡ some r)
          × (value s ≡ some r.0)
          × IsOrdered r.1
          × IsExact d indexes query rows n r.1
          × ((id : ℕ) → id < n → is_member r.1 query (rows id) ≡ is_member s query (rows id))
    estimate_selectivity_orders rows n max s i =
        let (r, e, j, same) = estimate_selectivity_keeps d indexes query rows n max s i in
        let (o, v) = estimate-IsOrdered s r.0 r.1 e in (r, e, v, o, j, same)

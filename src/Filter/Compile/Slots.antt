-- ===== src/Filter/Compile/Slots.antt =====
-- The slots of the query's attributes: each is new, and a placeholder that is used twice is bound
-- once.
use pipe_ann.Base.{
  ℕ, suc, ◌^◌, ◌≤◌, ◌<◌, ◌≡◌, refl, sym, ap, ◌∙◌, subst, inl, inr, Bool, true, false, ◌||◌, some,
  List, [], ◌∷◌, arith, ltb, ◌==◌, Bool-cases, Option-cases, All, length,
}
use pipe_ann.Filter.Attributes.{Attribute, Attributes, put, get}
use pipe_ann.Filter.Text.{Text, same_bytes}
use pipe_ann.Filter.Selector.PreFilter.{◌>>=◌}
use pipe_ann.Filter.Compile.{
  FieldType, CompiledFilter, alloc_slot, alloc_placeholder_slot, emplace, with_attrs,
}
use native.Mathlib.Nat.{mod-eq_of_lt}
use pipe_ann.Filter.Attributes.{find, get-put}
use pipe_ann.Filter.Compile.Nodes.{bind_row, bind_slots, value_at}

-- The keys of the template are the numbers below its size, and the slots are among them.
pub record IsNumbered (cf : CompiledFilter) : Type 0 where
  pub keys : (k : ℕ) → find cf.attrs_template k ≡ ltb k (length cf.attrs_template)
  pub slots : All (λ s. s.1 < length cf.attrs_template) cf.slot_map

find-put :
    (m : Attributes) (key k : ℕ) (a : Attribute) → find (put m key a) k ≡ ((key == k) || find m k)
unfolding find put
find-put [] key k a = refl
find-put ((j, b) ∷ m) key k a = ground (arith, find-put m key k a)

length-put :
    (m : Attributes) (key : ℕ) (a : Attribute)
    → find m key ≡ false
    → length (put m key a) ≡ suc (length m)
unfolding find put
length-put [] key a h = refl
length-put ((j, b) ∷ m) key a h = ground (arith, length-put m key a)

All-weaken : (m : List (Text × ℕ)) (n : ℕ) → All (λ s. s.1 < n) m → All (λ s. s.1 < suc n) m
All-weaken [] n h = tt
All-weaken (x ∷ m) n h = (omega (arith, h.0), All-weaken m n h.1)

module _ (cf : CompiledFilter) (a : Attribute) (lt : length cf.attrs_template < 2 ^ 32)
    (w : IsNumbered cf) where
  alloc_slot-number : (alloc_slot cf a).0 ≡ length cf.attrs_template
  unfolding alloc_slot
  alloc_slot-number = mod-eq_of_lt lt

  alloc_slot-template :
      (alloc_slot cf a).1.attrs_template ≡ put cf.attrs_template (length cf.attrs_template) a
  unfolding alloc_slot with_attrs
  alloc_slot-template = ap (λ s. put cf.attrs_template s a) (mod-eq_of_lt lt)

  alloc_slot-slot_map : (alloc_slot cf a).1.slot_map ≡ cf.slot_map
  unfolding alloc_slot with_attrs
  alloc_slot-slot_map = refl

  fresh : find cf.attrs_template (length cf.attrs_template) ≡ false
  fresh = w.keys (length cf.attrs_template) ∙ ground arith

  alloc_slot-length : length (alloc_slot cf a).1.attrs_template ≡ suc (length cf.attrs_template)
  alloc_slot-length =
      ap length alloc_slot-template
      ∙ length-put cf.attrs_template (length cf.attrs_template) a fresh

  alloc_slot-IsNumbered : IsNumbered (alloc_slot cf a).1
  alloc_slot-IsNumbered = record {
    keys = λ k.
        ap (λ m. find m k) alloc_slot-template
        ∙ find-put cf.attrs_template (length cf.attrs_template) k a
        ∙ ground (arith, w.keys k, alloc_slot-length);
    slots =
        subst (λ n. All (λ s. s.1 < n) (alloc_slot cf a).1.slot_map) (sym alloc_slot-length)
          (subst (All (λ s. s.1 < suc (length cf.attrs_template))) (sym alloc_slot-slot_map)
            (All-weaken cf.slot_map (length cf.attrs_template) w.slots));
  }

  -- `alloc_slot` takes a slot that no selector has, puts the value there, leaves the other slots as
  -- they are, and keeps the numbering.
  pub alloc_slot_lem :
      (find cf.attrs_template (alloc_slot cf a).0 ≡ false)
      × (get (alloc_slot cf a).1.attrs_template (alloc_slot cf a).0 ≡ some a)
      × ((k : ℕ)
          → k < length cf.attrs_template
          → get (alloc_slot cf a).1.attrs_template k ≡ get cf.attrs_template k)
      × IsNumbered (alloc_slot cf a).1
  alloc_slot_lem =
      let n = length cf.attrs_template in
      rw (alloc_slot-number, alloc_slot-template)
        (
          fresh,
          get-put cf.attrs_template n n a ∙ ground arith,
          λ k h. get-put cf.attrs_template n k a ∙ ground arith,
          alloc_slot-IsNumbered,
        )

-- The variable has a slot already.
unfoldable pub has_var : List (Text × ℕ) → Text → Bool
has_var [] var = false
has_var ((k, s) ∷ m) var = same_bytes k var || has_var m var

emplace_present :
    (m : List (Text × ℕ)) (var : Text) (s : ℕ) → has_var m var ≡ true → emplace m var s ≡ m
unfolding emplace has_var
emplace_present [] var s h = absurd (cc h)
emplace_present ((k, t) ∷ m) var s h = elim (Bool-cases (same_bytes k var)) [
  | inl e ↦ rw e refl
  | inr e ↦ rw e (ap (λ r. (k, t) ∷ r) (emplace_present m var s (rw e at h)))
]

bind_slots_other :
    (m : List (Text × ℕ)) (values : List (Text × Attribute)) (out r : Attributes) (n k : ℕ)
    → All (λ s. s.1 < n) m
    → n ≤ k
    → bind_slots m values out ≡ some r
    → get r k ≡ get out k
unfolding bind_slots
bind_slots_other [] values out r n k h le e = ap (λ m. get m k) (cc e)
bind_slots_other ((var, s) ∷ m) values out r n k h le e =
    elim (Option-cases (value_at values var)) [
      | inl z ↦ absurd (cc (e, ap (λ o. o >>= λ a. bind_slots m values (put out s a)) z))
      | inr (a, z) ↦
          bind_slots_other m values (put out s a) r n k h.1 le
            (sym (ap (λ o. o >>= λ a. bind_slots m values (put out s a)) z) ∙ e)
          ∙ get-put out s k a
          ∙ ground (arith, h.0)
    ]

-- When a variable has a slot already, a further use of it takes a new slot, and no binding of the
-- variables fills that one: its attribute stays empty.
pub placeholder_used_twice :
    (cf : CompiledFilter) (var : Text) (type : FieldType) (values : List (Text × Attribute))
    (out : Attributes)
    → length cf.attrs_template < 2 ^ 32
    → IsNumbered cf
    → has_var cf.slot_map var ≡ true
    → bind_row (alloc_placeholder_slot cf var type).1 values ≡ some out
    → get out (alloc_placeholder_slot cf var type).0 ≡ some []
unfolding alloc_placeholder_slot bind_row
placeholder_used_twice cf var type values out lt w h e =
    let slot = (alloc_slot cf []).0 in
    let template = (alloc_slot cf []).1.attrs_template in
    let (_, filled, _, _) = alloc_slot_lem cf [] lt w in
    let same : emplace (alloc_slot cf []).1.slot_map var slot ≡ cf.slot_map =
      ap (λ m. emplace m var slot) (alloc_slot-slot_map cf [] lt w)
      ∙ emplace_present cf.slot_map var slot h in
    bind_slots_other cf.slot_map values template out (length cf.attrs_template) slot w.slots
      (omega (arith, alloc_slot-number cf [] lt w))
      (sym (ap (λ m. bind_slots m values template) same) ∙ e)
    ∙ filled

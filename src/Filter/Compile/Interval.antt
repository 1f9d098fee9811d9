-- ===== src/Filter/Compile/Interval.antt =====
-- The interval of a field's comparators selects what the comparators say.
use pipe_ann.Base.{
  ℕ, ◌+◌, ◌%◌, ◌^◌, ◌<◌, min, ◌≡◌, refl, ap, ◌∙◌, ◌⊎◌, inl, inr, Bool, true, false, ◌&&◌, some, [],
  ◌∷◌, arith, ltb, leb, lt→ltb, ==_self, length,
}
use pipe_ann.Filter.Attributes.{Attribute, Attributes, get}
use pipe_ann.Filter.Text.{Text, same_bytes}
use pipe_ann.Filter.Sql.{codes}
use pipe_ann.Filter.Selector.{range, Selector, leaf}
use pipe_ann.Filter.Selector.PreFilter.{◌>>=◌}
use pipe_ann.Filter.Compile.{
  Fields, num, obj, no_fields, field, FieldInfo, CompiledFilter, alloc_slot, with_attrs, to_u32,
  count, max_u32, new_leaf,
}
use pipe_ann.Filter.Attributes.{find, get-put}
use pipe_ann.Filter.Selector.Member.{is_member, leaf_member, leaf_is_member, in_range}
use pipe_ann.Filter.Compile.Nodes.{
  compare_step, compare_all, compile_interval, compile_operators, compile_field_clause,
}

-- The comparators, and what each says of a value.
abbrev pub IsComparator : Text → Type 0
IsComparator op =
    (op ≡ codes "$gt") ⊎ ((op ≡ codes "$ge") ⊎ ((op ≡ codes "$lt") ⊎ (op ≡ codes "$le")))

pub holds : {op : Text} → IsComparator op → ℕ → ℕ → Bool
holds (inl e) n v = ltb n v
holds (inr (inl e)) n v = leb n v
holds (inr (inr (inl e))) n v = ltb v n
holds (inr (inr (inr e))) n v = leb v n

-- An object of comparators with numbers.
pub data Comparators : Fields → Type 0 where
  none_left : Comparators no_fields
  comparator :
      {op : Text} {n : ℕ} {fs : Fields}
      → IsComparator op
      → n < 2 ^ 32
      → Comparators fs
      → Comparators (field op (num n) fs)

-- All of them hold.
pub all_hold : {fs : Fields} → Comparators fs → ℕ → Bool
unfolding holds
all_hold none_left v = true
all_hold (comparator {n} c h cs) v = holds c n v && all_hold cs v

inside : ℕ × ℕ → ℕ → Bool
inside (lo, hi) v = leb lo v && ltb v hi

inside-compare_step :
    (op : Text) (c : IsComparator op) (n v lo hi : ℕ)
    → inside (compare_step op n (lo, hi)) v ≡ (inside (lo, hi) v && holds c n v)
unfolding inside holds compare_step
inside-compare_step op (inl e) n v lo hi =
    ap (λ o. inside (compare_step o n (lo, hi)) v) e ∙ ground arith
inside-compare_step op (inr (inl e)) n v lo hi =
    ap (λ o. inside (compare_step o n (lo, hi)) v) e ∙ ground arith
inside-compare_step op (inr (inr (inl e))) n v lo hi =
    ap (λ o. inside (compare_step o n (lo, hi)) v) e ∙ ground arith
inside-compare_step op (inr (inr (inr e))) n v lo hi =
    ap (λ o. inside (compare_step o n (lo, hi)) v) e ∙ ground arith

compare_all-inside :
    (fs : Fields) (cs : Comparators fs) (interval : ℕ × ℕ)
    → (r : ℕ × ℕ) × (compare_all fs interval ≡ some r)
      × ((v : ℕ) → inside r v ≡ (inside interval v && all_hold cs v))
unfolding compare_all all_hold to_u32
compare_all-inside fs none_left interval = (interval, refl, λ v. ground arith)
compare_all-inside fs (comparator {op} {n} {fs = gs} c h cs) interval =
    let (r, e, f) = compare_all-inside gs cs (compare_step op n interval) in
    (
      r,
      rw (lt→ltb n (2 ^ 32) h) e,
      λ v. f v ∙ ground (arith, inside-compare_step op c n v interval.0 interval.1),
    )

count_none :
    {fs : Fields} (cs : Comparators fs) (k : Text)
    → ((op : Text) → IsComparator op → same_bytes op k ≡ false)
    → count fs k ≡ false
unfolding count
count_none none_left k h = refl
count_none (comparator {op} c lt cs) k h = ground (arith, h op c, count_none cs k h)

-- A comparator is spelled otherwise than `k`.
differs :
    (k op : Text)
    → (same_bytes (codes "$gt") k ≡ false)
      × (same_bytes (codes "$ge") k ≡ false)
      × (same_bytes (codes "$lt") k ≡ false)
      × (same_bytes (codes "$le") k ≡ false)
    → IsComparator op
    → same_bytes op k ≡ false
differs k op (a, b, c, d) (inl e) = rw e a
differs k op (a, b, c, d) (inr (inl e)) = rw e b
differs k op (a, b, c, d) (inr (inr (inl e))) = rw e c
differs k op (a, b, c, d) (inr (inr (inr e))) = rw e d

module _ (info : FieldInfo) {fs : Fields} (cs : Comparators fs) (cf : CompiledFilter) where
  field_clause-interval : compile_field_clause info (obj fs) cf ≡ compile_interval info fs cf
  unfolding compile_field_clause compile_operators same_bytes
  field_clause-interval =
      rw
        (
          count_none cs (codes "$eq") (λ op. differs (codes "$eq") op (refl, refl, refl, refl)),
          count_none cs (codes "$in") (λ op. differs (codes "$in") op (refl, refl, refl, refl)),
          count_none cs (codes "$all") (λ op. differs (codes "$all") op (refl, refl, refl, refl)),
          count_none cs (codes "$prefix")
              (λ op. differs (codes "$prefix") op (refl, refl, refl, refl)),
          count_none cs (codes "$suffix")
              (λ op. differs (codes "$suffix") op (refl, refl, refl, refl)),
          count_none cs (codes "$like") (λ op. differs (codes "$like") op (refl, refl, refl, refl)),
        )
        refl

-- A target of one value under the field's key is accepted by a range of the template.
range_member :
    (slot key index lo hi v : ℕ) (query target : Attributes)
    → get query slot ≡ some (lo ∷ hi ∷ [])
    → find target key ≡ true
    → get target key ≡ some (v ∷ [])
    → is_member (leaf range slot key index []) query target ≡ some (inside (lo, hi) v)
unfolding is_member leaf_member leaf_is_member in_range inside
range_member slot key index lo hi v query target q f t = rw (f, q, t) refl

inside_clamped :
    (lo hi v : ℕ)
    → v < 2 ^ 32
    → inside (min lo max_u32, min hi max_u32) v ≡ (inside (lo, hi) v && ltb v max_u32)
unfolding inside
inside_clamped lo hi v h = ground arith

get-alloc_slot :
    (cf : CompiledFilter) (a : Attribute)
    → get (alloc_slot cf a).1.attrs_template (alloc_slot cf a).0 ≡ some a
unfolding alloc_slot with_attrs
get-alloc_slot cf a =
    let slot = length cf.attrs_template % 2 ^ 32 in
    get-put cf.attrs_template slot slot a ∙ ground (arith, ==_self slot)

compiled_interval :
    (info : FieldInfo) (fs : Fields) (cf : CompiledFilter) (r : ℕ × ℕ)
    → compare_all fs (0, max_u32 + 1) ≡ some r
    → compile_interval info fs cf
      ≡ new_leaf range info (alloc_slot cf (min r.0 max_u32 ∷ min r.1 max_u32 ∷ []))
unfolding compile_interval
compiled_interval info fs cf r e =
    ap
      (λ o. o >>= λ (lo, hi).
        new_leaf range info (alloc_slot cf (min lo max_u32 ∷ min hi max_u32 ∷ [])))
      e

inside_all : (v : ℕ) → v < 2 ^ 32 → (b : Bool) → (inside (0, max_u32 + 1) v && b) ≡ b
unfolding inside
inside_all v h b = ground arith

-- A field's comparators compile to one selector, which accepts a value exactly when all of them
-- hold of it and it is not the largest `uint32_t`.
pub compile_comparators :
    (info : FieldInfo) {fs : Fields} (cs : Comparators fs) (cf : CompiledFilter)
    → (s : Selector) × (cf' : CompiledFilter) × (compile_field_clause info (obj fs) cf
        ≡ some (s, cf'))
      × ((v : ℕ) (target : Attributes)
          → v < 2 ^ 32
          → find target info.key ≡ true
          → get target info.key ≡ some (v ∷ [])
          → is_member s cf'.attrs_template target ≡ some (all_hold cs v && ltb v max_u32))
unfolding new_leaf
compile_comparators info {fs} cs cf =
    let (r, e, f) = compare_all-inside fs cs (0, max_u32 + 1) in
    let a : Attribute = min r.0 max_u32 ∷ min r.1 max_u32 ∷ [] in
    let slot = (alloc_slot cf a).0 in
    (
      leaf range slot info.key info.attr_index [],
      (alloc_slot cf a).1,
      field_clause-interval info cs cf ∙ compiled_interval info fs cf r e,
      λ v target h g t.
          range_member slot info.key info.attr_index (min r.0 max_u32) (min r.1 max_u32) v
            (alloc_slot cf a).1.attrs_template target (get-alloc_slot cf a) g t
          ∙ ap some (
              inside_clamped r.0 r.1 v h
              ∙ ap (λ b. b && ltb v max_u32) (f v ∙ inside_all v h (all_hold cs v))),
    )

-- ===== src/Filter/Compile/Nodes.antt =====
-- The clauses of a field and the nodes of an expression: the rest of `compile_field_clause`,
-- `compile_node`, `bind_row`.
use pipe_ann.Base.{ℕ, ◌+◌, min, max, Bool, ◌||◌, Option, none, some, List, [], ◌∷◌, if◌then◌else◌}
use pipe_ann.Filter.Attributes.{Attribute, Attributes, put}
use pipe_ann.Filter.Text.{Text, same_bytes}
use pipe_ann.Filter.Sql.{codes}
use pipe_ann.Filter.Selector.{
  Double, range, string_prefix, string_suffix, string_like, Selector, Branches, Selectors,
  and_selector, or_selector, not_selector, no_branch, branch, no_selector, selector,
}
use pipe_ann.Filter.Selector.PreFilter.{◌>>=◌}
use pipe_ann.Filter.Compile.{
  Value, Items, Fields, num, str, arr, obj, no_items, item, no_fields, field, FieldInfo,
  CompiledFilter, alloc_slot, to_u32, count, at_key, max_u32, Compiled, new_leaf, compile_scalar,
  compile_in, compile_all, compile_text,
}

-- The interval of the comparators so far, [lo, hi), after one more.
unfoldable pub compare_step : Text → ℕ → ℕ × ℕ → ℕ × ℕ
unfolding same_bytes
compare_step op v (lo, hi) =
    if same_bytes op (codes "$gt")
    then (max lo (v + 1), hi)
    else if same_bytes op (codes "$ge")
    then (max lo v, hi)
    else if same_bytes op (codes "$lt")
    then (lo, min hi v)
    else if same_bytes op (codes "$le")
    then (lo, min hi (v + 1))
    else (lo, hi)

unfoldable pub compare_all : Fields → ℕ × ℕ → Option (ℕ × ℕ)
unfolding compare_step to_u32
compare_all no_fields interval = some interval
compare_all (field op v fs) interval = to_u32 v >>= λ n. compare_all fs (compare_step op n interval)

unfoldable pub compile_interval : FieldInfo → Fields → CompiledFilter → Compiled
unfolding compare_all alloc_slot new_leaf
compile_interval info fs cf = compare_all fs (0, max_u32 + 1) >>= λ (lo, hi).
    new_leaf range info (alloc_slot cf (min lo max_u32 ∷ min hi max_u32 ∷ []))

-- An object without `$eq`.
unfoldable pub compile_operators : FieldInfo → Fields → CompiledFilter → Compiled
unfolding count at_key compile_in compile_all compile_text compile_interval
compile_operators info fs cf =
    if count fs (codes "$in")
    then (at_key fs (codes "$in") >>= λ v. compile_in info v cf)
    else if count fs (codes "$all")
    then (at_key fs (codes "$all") >>= λ v. compile_all info v cf)
    else if count fs (codes "$prefix")
    then (at_key fs (codes "$prefix") >>= λ v. compile_text string_prefix info v cf)
    else if count fs (codes "$suffix")
    then (at_key fs (codes "$suffix") >>= λ v. compile_text string_suffix info v cf)
    else if count fs (codes "$like")
    then (at_key fs (codes "$like") >>= λ v. compile_text string_like info v cf)
    else compile_interval info fs cf

-- `compile_field_clause`; `compile_eq` goes to the value of `$eq`.
unfoldable mutual
  unfolding compile_scalar compile_operators count same_bytes

  pub compile_field_clause : FieldInfo → Value → CompiledFilter → Compiled
  compile_field_clause info (obj fs) cf =
      if count fs (codes "$eq") then compile_eq info fs cf else compile_operators info fs cf
  compile_field_clause info (num n) cf = compile_scalar info (num n) cf
  compile_field_clause info (str s) cf = compile_scalar info (str s) cf
  compile_field_clause info (arr vs) cf = compile_scalar info (arr vs) cf

  pub compile_eq : FieldInfo → Fields → CompiledFilter → Compiled
  compile_eq info no_fields cf = none
  compile_eq info (field k v fs) cf =
      let here = compile_field_clause info v cf in
      let later = compile_eq info fs cf in if same_bytes k (codes "$eq") then here else later

abbrev pub Schema : Type 0
Schema = List (Text × FieldInfo)

-- `schema.at(name)`
unfoldable pub field_info : Schema → Text → Option FieldInfo
unfolding same_bytes
field_info [] name = none
field_info ((k, info) ∷ schema) name =
    if same_bytes k name then some info else field_info schema name

-- `schema.begin()->second.n_vectors`
unfoldable pub schema_n_vectors : Schema → Option ℕ
schema_n_vectors [] = none
schema_n_vectors ((k, info) ∷ schema) = some info.n_vectors

unfoldable pub fields_of : Value → Option Fields
fields_of (obj fs) = some fs
fields_of v = none

-- A negation over what was compiled.
unfoldable pub negated : Schema → Compiled → Compiled
unfolding schema_n_vectors
negated schema r = r >>= λ (s, cf). schema_n_vectors schema >>= λ n. some (not_selector s n [], cf)

-- The operators of a field in a node: `$ne` and `$nin` negate a clause of `$eq` and `$in`.
unfoldable pub compile_field_operators : Schema → FieldInfo → Fields → CompiledFilter → Compiled
unfolding count at_key negated compile_field_clause compile_in
compile_field_operators schema info fs cf =
    if count fs (codes "$ne")
    then negated schema (at_key fs (codes "$ne") >>= λ v. compile_field_clause info v cf)
    else if count fs (codes "$nin")
    then negated schema (at_key fs (codes "$nin") >>= λ v. compile_in info v cf)
    else compile_field_clause info (obj fs) cf

unfoldable pub compile_field : Schema → Text → Value → CompiledFilter → Compiled
unfolding field_info compile_field_operators compile_field_clause
compile_field schema name (obj fs) cf =
    field_info schema name >>= λ info. compile_field_operators schema info fs cf
compile_field schema name v cf = field_info schema name >>= λ info. compile_field_clause info v cf

-- `AndSelector` and `OrSelector` over their children, in order.
unfoldable pub branches_of : Double → List Selector → Branches
branches_of one [] = no_branch
branches_of one (s ∷ ss) = branch s one (branches_of one ss)

unfoldable pub selectors_of : List Selector → Selectors
selectors_of [] = no_selector
selectors_of (s ∷ ss) = selector s (selectors_of ss)

-- One child stands for itself.
unfoldable pub join_children : Double → List Selector × CompiledFilter → Compiled
unfolding branches_of
join_children one (s ∷ [], cf) = some (s, cf)
join_children one (ss, cf) = some (and_selector (branches_of one ss), cf)

unfoldable pub is_logical : Text → Bool
unfolding same_bytes
is_logical name =
    same_bytes name (codes "$and")
    || (same_bytes name (codes "$or") || same_bytes name (codes "$not"))

module _ (one : Double) (schema : Schema) where
  unfoldable mutual
    unfolding compile_field negated branches_of selectors_of join_children is_logical same_bytes

    pub compile_node : Value → CompiledFilter → Compiled
    compile_node (obj fs) cf = compile_members fs cf >>= join_children one
    compile_node (num n) cf = none
    compile_node (str s) cf = none
    compile_node (arr vs) cf = none

    pub compile_members : Fields → CompiledFilter → Option (List Selector × CompiledFilter)
    compile_members no_fields cf = some ([], cf)
    compile_members (field name v fs) cf = compile_member name v cf >>= λ (s, cf').
        compile_members fs cf' >>= λ (ss, cf''). some (s ∷ ss, cf'')

    pub compile_member : Text → Value → CompiledFilter → Compiled
    compile_member name (arr vs) cf =
        let subs = compile_items vs cf in
        if same_bytes name (codes "$and")
        then (subs >>= λ (ss, cf'). some (and_selector (branches_of one ss), cf'))
        else if same_bytes name (codes "$or")
        then (subs >>= λ (ss, cf'). some (or_selector (selectors_of ss), cf'))
        else if same_bytes name (codes "$not")
        then none
        else compile_field schema name (arr vs) cf
    compile_member name (obj fs) cf =
        let inner = compile_members fs cf in
        if same_bytes name (codes "$and") || same_bytes name (codes "$or")
        then none
        else if same_bytes name (codes "$not")
        then negated schema (inner >>= join_children one)
        else compile_field schema name (obj fs) cf
    compile_member name (num n) cf =
        if is_logical name then none else compile_field schema name (num n) cf
    compile_member name (str s) cf =
        if is_logical name then none else compile_field schema name (str s) cf

    pub compile_items : Items → CompiledFilter → Option (List Selector × CompiledFilter)
    compile_items no_items cf = some ([], cf)
    compile_items (item v vs) cf =
        compile_node v cf >>= λ (s, cf'). compile_items vs cf' >>= λ (ss, cf''). some (s ∷ ss, cf'')

-- `bind_row`: the value of each placeholder is put in its slot; `values.at` throws on one that is
-- missing.
unfoldable pub value_at : List (Text × Attribute) → Text → Option Attribute
unfolding same_bytes
value_at [] var = none
value_at ((k, a) ∷ values) var = if same_bytes k var then some a else value_at values var

unfoldable pub bind_slots :
    List (Text × ℕ) → List (Text × Attribute) → Attributes → Option Attributes
unfolding value_at put
bind_slots [] values out = some out
bind_slots ((var, slot) ∷ slots) values out =
    value_at values var >>= λ a. bind_slots slots values (put out slot a)

unfoldable pub bind_row : CompiledFilter → List (Text × Attribute) → Option Attributes
unfolding bind_slots
bind_row cf values = bind_slots cf.slot_map values cf.attrs_template

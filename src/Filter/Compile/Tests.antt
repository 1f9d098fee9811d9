-- ===== src/Filter/Compile/Tests.antt =====
-- The theorems on compiled filters at concrete clauses, and a filter compiled.
use pipe_ann.Base.{ℕ, ◌^◌, ◌<◌, ◌≡◌, refl, inl, inr, true, ◌&&◌, some, [], ◌∷◌, arith, ltb}
use pipe_ann.Filter.Attributes.{Attributes, get}
use pipe_ann.Filter.Text.{same_bytes}
use pipe_ann.Filter.Sql.{codes}
use pipe_ann.Filter.Selector.{range, Selector, leaf, not_selector}
use pipe_ann.Filter.Compile.{
  Fields, num, obj, no_fields, field, label_field, range_field, FieldInfo, CompiledFilter,
  alloc_placeholder_slot, max_u32,
}
use pipe_ann.Filter.Attributes.{find}
use pipe_ann.Filter.Selector.Member.{is_member}
use pipe_ann.Filter.Compile.Nodes.{compile_field_clause, compile_node, bind_row, Schema}
use pipe_ann.Filter.Compile.Interval.{
  Comparators, none_left, comparator, all_hold, compile_comparators,
}
use pipe_ann.Filter.Compile.Slots.{IsNumbered, has_var, placeholder_used_twice}

abbrev price : FieldInfo
price = record { key = 4; type = range_field; attr_index = 1; n_vectors = 10 }

abbrev nothing_yet : CompiledFilter
nothing_yet = record { attrs_template = []; slot_map = []; var_field_type = [] }

abbrev at_least_3_below_9 : Fields
at_least_3_below_9 = field (codes "$ge") (num 3) (field (codes "$lt") (num 9) no_fields)

abbrev two_comparators : Comparators at_least_3_below_9
two_comparators =
    comparator (inr (inl refl)) (omega arith)
      (comparator (inr (inr (inl refl))) (omega arith) none_left)

compile_comparators_example :
    (s : Selector) × (cf' : CompiledFilter) × (compile_field_clause price
        (obj at_least_3_below_9)
        nothing_yet
      ≡ some (s, cf'))
    × ((v : ℕ) (target : Attributes)
        → v < 2 ^ 32
        → find target 4 ≡ true
        → get target 4 ≡ some (v ∷ [])
        → is_member s cf'.attrs_template target
          ≡ some (all_hold two_comparators v && ltb v max_u32))
compile_comparators_example = compile_comparators price two_comparators nothing_yet

-- A filter whose variable `t` has the slot 0.
abbrev one_variable : CompiledFilter
one_variable = record {
  attrs_template = (0, []) ∷ [];
  slot_map = (codes "t", 0) ∷ [];
  var_field_type = (codes "t", label_field) ∷ [];
}

one_variable-IsNumbered : IsNumbered one_variable
unfolding find
one_variable-IsNumbered = record { keys = λ k. ground arith; slots = (omega arith, tt) }

t_has_slot : has_var one_variable.slot_map (codes "t") ≡ true
unfolding has_var same_bytes
t_has_slot = refl

abbrev t_again : CompiledFilter
t_again = record {
  attrs_template = (0, 7 ∷ []) ∷ (1, []) ∷ [];
  slot_map = (codes "t", 0) ∷ [];
  var_field_type = (codes "t", label_field) ∷ [];
}

t_is_bound :
    bind_row
      (alloc_placeholder_slot one_variable (codes "t") label_field).1
      ((codes "t", 7 ∷ []) ∷ [])
    ≡ some t_again.attrs_template
unfolding bind_row alloc_placeholder_slot
t_is_bound = refl

placeholder_used_twice_example :
    get t_again.attrs_template (alloc_placeholder_slot one_variable (codes "t") label_field).0
    ≡ some []
placeholder_used_twice_example =
    placeholder_used_twice one_variable (codes "t") label_field ((codes "t", 7 ∷ []) ∷ [])
      t_again.attrs_template (omega arith) one_variable-IsNumbered t_has_slot t_is_bound

abbrev one_field : Schema
one_field = (codes "price", price) ∷ []

negation_run :
    compile_node 1 one_field
      (obj (field (codes "price") (obj (field (codes "$ne") (num 5) no_fields)) no_fields))
      nothing_yet
    ≡ some (
      not_selector (leaf range 0 4 1 []) 10 [],
      record nothing_yet { attrs_template = (0, 5 ∷ 6 ∷ []) ∷ [] },
    )
unfolding compile_node
negation_run = refl

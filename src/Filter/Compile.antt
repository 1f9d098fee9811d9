-- ===== src/Filter/Compile.antt =====
-- A filter expression's JSON made into selectors and their query attributes:
-- `compile_field_clause`, `compile_node` and `bind_row` of `include/filter/dsl_compiler.h`.
use pipe_ann.Base.{
  ℕ, zero, suc, ◌+◌, ◌-◌, ◌*◌, ◌/◌, ◌%◌, ◌^◌, ◌≤◌, ◌<◌, min, max, compare, Ordering, ◌≡◌, refl, sym,
  ap, ◌∙◌, subst, ◌≢◌, ◌↔◌, ◌⊎◌, inl, inr, Bool, true, false, ◌&&◌, ◌||◌, not, Option, none, some,
  List, [], ◌∷◌, ◌++◌, map, reverse, append-nil, append_assoc, arith, dec_lt, dec_le, ℕ_discrete,
  ltb, leb, ◌==◌, if◌then◌else◌, ltb→lt, lt→ltb, leb→le, ltb_false→le, le→ltb_false, ==→eq, ==_self,
  ne→==_false, ==_false→ne, tests, Bool-cases, Option-cases, trichotomy, All, length, get_elem?,
  get_or, set, take, drop, replicate, length-append, length-set, length-take, length-drop,
  length-replicate, take-append-drop, take_all, get_or-set_self, get_or-set_ne, get_or-take,
  memmove, All-append, All-take, All-drop, All-get_or, tally, tally-append, tally-replicate_zero,
  tally_le, All-middle, All-replicate,
}
pub mod Nodes
pub mod Interval
pub mod Slots
pub mod Tests
use pipe_ann.Filter.Attributes.{Attribute, Attributes, put}
use pipe_ann.Filter.Text.{Text, same_bytes, pack_string_attr}
use pipe_ann.Filter.Sql.{codes}
use pipe_ann.Filter.Sql.Values.{is_placeholder}
use pipe_ann.Filter.Selector.{
  Double, Leaf, label_or, label_and, range, string_eq, string_prefix, string_suffix, string_like,
  Selector, Branches, Selectors, leaf, and_selector, or_selector, not_selector, no_branch, branch,
  no_selector, selector,
}
use pipe_ann.Filter.Selector.PreFilter.{◌>>=◌}
use pipe_ann.Filter.Selector.Records.{append_record, append_records}

-- `picojson::value`, with the numbers as integers; an object has its members in the order of an
-- iteration.
mutual
  pub data Value : Type 0 where
    num : ℕ → Value
    str : Text → Value
    arr : Items → Value
    obj : Fields → Value

  pub data Items : Type 0 where
    no_items : Items
    item : Value → Items → Items

  pub data Fields : Type 0 where
    no_fields : Fields
    field : Text → Value → Fields → Fields

-- `type`, of a field, which says the class of its index: "label", "range" or "string".
pub data FieldType : Type 0 where
  label_field : FieldType
  range_field : FieldType
  text_field : FieldType

pub record FieldInfo : Type 0 where
  pub key : ℕ
  pub type : FieldType
  pub attr_index : ℕ
  pub n_vectors : ℕ

pub record CompiledFilter : Type 0 where
  pub attrs_template : Attributes
  pub slot_map : List (Text × ℕ)
  pub var_field_type : List (Text × FieldType)

-- `emplace`: a key that is there keeps its value.
unfoldable pub emplace {ℓ} : {A : Type ℓ} → List (Text × A) → Text → A → List (Text × A)
unfolding same_bytes
emplace [] k a = (k, a) ∷ []
emplace ((j, b) ∷ m) k a = if same_bytes j k then (j, b) ∷ m else (j, b) ∷ emplace m k a

unfoldable pub with_attrs : CompiledFilter → Attributes → CompiledFilter
with_attrs cf attrs = record cf { attrs_template = attrs }

-- The new slot's number, and the template with it.
unfoldable pub alloc_slot : CompiledFilter → Attribute → ℕ × CompiledFilter
unfolding put with_attrs
alloc_slot cf value =
    let slot = length cf.attrs_template % 2 ^ 32 in
    (slot, with_attrs cf (put cf.attrs_template slot value))

unfoldable pub alloc_placeholder_slot : CompiledFilter → Text → FieldType → ℕ × CompiledFilter
unfolding alloc_slot emplace
alloc_placeholder_slot cf var type =
    let (slot, cf') = alloc_slot cf [] in
    (
      slot,
      record cf' {
        slot_map = emplace cf'.slot_map var slot;
        var_field_type = emplace cf'.var_field_type var type;
      },
    )

-- `placeholder_name`
unfoldable pub placeholder_name : Text → Text
placeholder_name s = drop 2 s

-- `to_u32`, which throws on what is no number; a number that does not fit has no defined value.
unfoldable pub to_u32 : Value → Option ℕ
to_u32 (num n) = if ltb n (2 ^ 32) then some n else none
to_u32 v = none

unfoldable pub all_u32 : Items → Option Attribute
unfolding to_u32
all_u32 no_items = some []
all_u32 (item v vs) = to_u32 v >>= λ n. all_u32 vs >>= λ ns. some (n ∷ ns)

unfoldable pub text_of : Value → Option Text
text_of (str s) = some s
text_of v = none

unfoldable pub all_texts : Items → Option (List Attribute)
unfolding text_of pack_string_attr
all_texts no_items = some []
all_texts (item v vs) = text_of v >>= λ s. all_texts vs >>= λ rs. some (pack_string_attr s ∷ rs)

unfoldable pub items_of : Value → Option Items
items_of (arr vs) = some vs
items_of v = none

-- `std::string` and a placeholder
unfoldable pub placeholder_of : Value → Option Text
unfolding is_placeholder placeholder_name
placeholder_of (str s) = if is_placeholder s then some (placeholder_name s) else none
placeholder_of v = none

unfoldable pub count : Fields → Text → Bool
unfolding same_bytes
count no_fields k = false
count (field j v fs) k = same_bytes j k || count fs k

-- `ops.at(k)`
unfoldable pub at_key : Fields → Text → Option Value
unfolding same_bytes
at_key no_fields k = none
at_key (field j v fs) k = if same_bytes j k then some v else at_key fs k

-- `std::numeric_limits<uint32_t>::max()`
abbrev pub max_u32 : ℕ
max_u32 = 2 ^ 32 - 1

-- What compiling gives; `none` is an exception.
abbrev pub Compiled : Type 0
Compiled = Option (Selector × CompiledFilter)

unfoldable pub new_leaf : Leaf → FieldInfo → ℕ × CompiledFilter → Compiled
new_leaf kind info (slot, cf) = some (leaf kind slot info.key info.attr_index [], cf)

unfoldable pub is_text_field : FieldInfo → Bool
is_text_field info = elim info.type [ text_field ↦ true | _ ↦ false ]

-- The constructors of the text selectors throw on an index of another class.
unfoldable pub new_text_leaf : Leaf → FieldInfo → ℕ × CompiledFilter → Compiled
unfolding new_leaf is_text_field
new_text_leaf kind info r = if is_text_field info then new_leaf kind info r else none

unfoldable pub placeholder_leaf : FieldType → FieldInfo → ℕ × CompiledFilter → Compiled
unfolding new_leaf new_text_leaf
placeholder_leaf label_field info r = new_leaf label_or info r
placeholder_leaf range_field info r = new_leaf range info r
placeholder_leaf text_field info r = new_text_leaf string_eq info r

-- A value that is no object and no placeholder.
unfoldable pub compile_literal : FieldType → FieldInfo → Value → CompiledFilter → Compiled
unfolding to_u32 alloc_slot new_leaf text_of append_record pack_string_attr new_text_leaf
compile_literal label_field info v cf =
    to_u32 v >>= λ n. new_leaf label_or info (alloc_slot cf (n ∷ []))
compile_literal range_field info v cf = to_u32 v >>= λ n.
    let hi = if n == max_u32 then n else n + 1 in new_leaf range info (alloc_slot cf (n ∷ hi ∷ []))
compile_literal text_field info v cf = text_of v >>= λ s.
    new_text_leaf string_eq info (alloc_slot cf (append_record [] (pack_string_attr s)))

unfoldable pub compile_scalar : FieldInfo → Value → CompiledFilter → Compiled
unfolding placeholder_of alloc_placeholder_slot placeholder_leaf compile_literal
compile_scalar info v cf = elim (placeholder_of v) [
  | some var ↦ placeholder_leaf info.type info (alloc_placeholder_slot cf var info.type)
  | none ↦ compile_literal info.type info v cf
]

unfoldable pub compile_in_items : FieldType → FieldInfo → Value → CompiledFilter → Compiled
unfolding items_of all_u32 all_texts alloc_slot new_leaf append_records new_text_leaf
compile_in_items label_field info v cf =
    items_of v >>= λ vs. all_u32 vs >>= λ ns. new_leaf label_or info (alloc_slot cf ns)
compile_in_items type info v cf = items_of v >>= λ vs.
    all_texts vs >>= λ rs. new_text_leaf string_eq info (alloc_slot cf (append_records [] rs))

-- `$in`: a placeholder only in a label field.
unfoldable pub compile_in : FieldInfo → Value → CompiledFilter → Compiled
unfolding placeholder_of alloc_placeholder_slot new_leaf compile_in_items
compile_in info v cf = elim info.type [
  | label_field ↦ elim (placeholder_of v) [
    | some var ↦ new_leaf label_or info (alloc_placeholder_slot cf var info.type)
    | none ↦ compile_in_items info.type info v cf
  ]
  | _ ↦ compile_in_items info.type info v cf
]

-- `$all`
unfoldable pub compile_all : FieldInfo → Value → CompiledFilter → Compiled
unfolding placeholder_of alloc_placeholder_slot new_leaf items_of all_u32 alloc_slot
compile_all info v cf = elim (placeholder_of v) [
  | some var ↦ new_leaf label_and info (alloc_placeholder_slot cf var info.type)
  | none ↦ items_of v >>= λ vs. all_u32 vs >>= λ ns. new_leaf label_and info (alloc_slot cf ns)
]

-- `$prefix`, `$suffix` and `$like`
unfoldable pub compile_text : Leaf → FieldInfo → Value → CompiledFilter → Compiled
unfolding text_of append_record pack_string_attr alloc_slot new_text_leaf
compile_text kind info v cf = text_of v >>= λ s.
    new_text_leaf kind info (alloc_slot cf (append_record [] (pack_string_attr s)))

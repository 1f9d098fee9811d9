-- ===== src/Filter/Selector.antt =====
-- The selectors of a query, trees over the attribute indexes: `include/filter/selector.h`.
use pipe_ann.Base.{
  ℕ, zero, suc, ◌+◌, ◌-◌, ◌*◌, ◌/◌, ◌%◌, ◌^◌, ◌≤◌, ◌<◌, min, max, compare, Ordering, ◌≡◌, refl, sym,
  ap, ◌∙◌, subst, ◌≢◌, ◌↔◌, ◌⊎◌, inl, inr, Bool, true, false, ◌&&◌, ◌||◌, not, Option, none, some,
  List, [], ◌∷◌, ◌++◌, map, reverse, append-nil, append_assoc, arith, dec_lt, dec_le, ℕ_discrete,
  ltb, leb, ◌==◌, if◌then◌else◌, ltb→lt, lt→ltb, leb→le, ltb_false→le, le→ltb_false, ==→eq, ==_self,
  ne→==_false, ==_false→ne, tests, Bool-cases, Option-cases, trichotomy, All, length, get_elem?,
  get_or, set, take, drop, replicate, length-append, length-set, length-take, length-drop,
  length-replicate, take-append-drop, take_all, get_or-set_self, get_or-set_ne, get_or-take,
  memmove, All-append, All-take, All-drop, All-get_or, tally, tally-append, tally-replicate_zero,
  tally_le, All-middle, All-replicate,
}
pub mod Records
pub mod Member
pub mod PreFilter
pub mod InFilter
pub mod Reads
pub mod Selectivity
pub mod Ordered
pub mod Precision
pub mod Complement
pub mod Exact
pub mod Complete
pub mod Locked
pub mod Negation
use pipe_ann.Filter.Ids.{VectorIdList}
use pipe_ann.Filter.Attributes.{Attribute}

-- A double, as its bits.
abbrev pub Double : Type 0
Double = ℕ

-- The arithmetic of doubles that the estimates use.
pub record Doubles : Type 0 where
  pub zero_d : Double
  pub one_d : Double
  pub of_count : ℕ → Double
  pub add_d : Double → Double → Double
  pub sub_d : Double → Double → Double
  pub mul_d : Double → Double → Double
  pub div_d : Double → Double → Double
  pub lt_d : Double → Double → Bool
  pub le_d : Double → Double → Bool
  pub high_selectivity_threshold : Double

-- What an index is asked for: the virtual functions (`whole`), their `_and` and `_like` versions,
-- and those that take a `Direction`.
pub data Question : Type 0 where
  whole : Question
  conjunction : Question
  with_prefix : Question
  with_suffix : Question
  pattern_like : Question

-- `AttrIndex`, what a selector calls of it. The reader that it reads the disk with is left out.
pub record AttrIndex : Type 0 where
  pub n_vectors : ℕ
  pub estimate_count : Question → Attribute → ℕ
  pub estimate_precision : Question → Attribute → Double
  pub estimate_prefilter_reads : Question → Attribute → ℕ
  pub estimate_infilter_reads : Question → Attribute → ℕ
  pub pre_filter : Question → Attribute → VectorIdList
  pub prepare_in_filter : Question → Attribute → VectorIdList
  pub is_member_approx : Question → ℕ → Attribute → VectorIdList → Bool

-- The indexes by their addresses.
abbrev pub Indexes : Type 0
Indexes = ℕ → AttrIndex

-- The leaf selectors, by their classes.
pub data Leaf : Type 0 where
  label_or : Leaf
  label_and : Leaf
  range : Leaf
  string_eq : Leaf
  string_prefix : Leaf
  string_suffix : Leaf
  string_like : Leaf

mutual
  -- A leaf has its `key_`, `base_key_`, `attr_index_`, and `cold_list_` or `prepared_list_`; a
  -- negation its `n_vectors_` and `vector_id_set_`.
  pub data Selector : Type 0 where
    leaf : Leaf → ℕ → ℕ → ℕ → VectorIdList → Selector
    and_selector : Branches → Selector
    or_selector : Selectors → Selector
    not_selector : Selector → ℕ → VectorIdList → Selector

  -- `std::vector<std::pair<Selector *, double>>`
  pub data Branches : Type 0 where
    no_branch : Branches
    branch : Selector → Double → Branches → Branches

  -- `std::vector<Selector *>`
  pub data Selectors : Type 0 where
    no_selector : Selectors
    selector : Selector → Selectors → Selectors

-- What is asked of its index by `pre_filter`, and by the in-filter.
unfoldable pub question : Leaf → Question
question label_and = conjunction
question string_prefix = with_prefix
question string_suffix = with_suffix
question string_like = pattern_like
question _ = whole

-- `StringPrefixSelector` and the other subclasses of `StringEqSelector` inherit
-- `prepare_in_filter`.
unfoldable pub prepare_question : Leaf → Question
prepare_question label_and = conjunction
prepare_question _ = whole

-- Text leaves ask for each record of their query, the others for the query as a whole.
unfoldable pub by_record : Leaf → Bool
by_record label_or = false
by_record label_and = false
by_record range = false
by_record _ = true

-- ===== src/VisitedSet.antt =====
-- src/include/utils/visited_set.h: `FlatVisitedSet`. The capacity is a power of two, so `& mask_` is
-- the remainder by it; a loop over slots runs at most once around, and `none` is a loop that goes on.
pub mod Walk
pub mod Fill
pub mod Grow
pub mod Refine
mod Tests
use pipe_ann.Base.{
  ℕ, zero, suc, ◌+◌, ◌-◌, ◌*◌, ◌/◌, ◌%◌, ◌^◌, ◌≤◌, ◌<◌, min, max, ◌≡◌, refl, sym, ap, ◌∙◌, subst,
  ◌≢◌, ◌↔◌, ◌⊎◌, inl, inr, Bool, true, false, ◌&&◌, ◌||◌, not, Option, none, some, List, [], ◌∷◌,
  ◌++◌, map, reverse, append-nil, append_assoc, arith, dec_lt, dec_le, ℕ_discrete, ltb, leb, ◌==◌,
  if◌then◌else◌, ltb→lt, lt→ltb, leb→le, ltb_false→le, le→ltb_false, ==→eq, ==_self, ne→==_false,
  ==_false→ne, tests, Bool-cases, Option-cases, trichotomy, All, length, get_elem?, get_or, set,
  take, drop, replicate, length-append, length-set, length-take, length-drop, length-replicate,
  take-append-drop, take_all, get_or-set_self, get_or-set_ne, get_or-take, memmove, All-append,
  All-take, All-drop, All-get_or, tally, tally-append, tally-replicate_zero, tally_le, All-middle,
  All-replicate,
}

abbrev pub k_empty : ℕ
k_empty = 0xFFFFFFFF

pub record FlatVisitedSet : Type 0 where
  pub slots : List ℕ
  pub size : ℕ
  pub has_empty_key : Bool

-- The least power of two from `cap` on that is at least `min_capacity`.
unfoldable pub capacity : ℕ → ℕ → ℕ → ℕ
capacity zero cap min_capacity = cap
capacity (suc fuel) cap min_capacity =
    let rest = capacity fuel (cap * 2) min_capacity in if ltb cap min_capacity then rest else cap

unfoldable pub new_set : ℕ → FlatVisitedSet
unfolding capacity
new_set min_capacity = record {
  slots = replicate (capacity min_capacity 8 min_capacity) k_empty;
  size = 0;
  has_empty_key = false;
}

unfoldable pub clear : FlatVisitedSet → FlatVisitedSet
clear s = record {
  slots = if not (s.size == 0) then replicate (length s.slots) k_empty else s.slots;
  size = 0;
  has_empty_key = false;
}

unfoldable pub slot_of : ℕ → ℕ → ℕ
slot_of cap key = key * 0x9E3779B1 % 2 ^ 32 % cap

pub data Probe : Type 0 where
  found : Probe
  vacant : ℕ → Probe

abbrev pub at : List ℕ → ℕ → ℕ
at slots i = get_or slots i k_empty

-- The loop of `insert` from the slot `i` on.
unfoldable pub probe : ℕ → List ℕ → ℕ → ℕ → Option Probe
probe zero slots key i = none
probe (suc fuel) slots key i =
    let rest = probe fuel slots key ((i + 1) % length slots) in
    if at slots i == key
    then some found
    else if at slots i == k_empty
    then some (vacant i)
    else rest

-- The inner loop of `grow`.
unfoldable pub vacancy : ℕ → List ℕ → ℕ → Option ℕ
vacancy zero slots i = none
vacancy (suc fuel) slots i =
    let rest = vacancy fuel slots ((i + 1) % length slots) in
    if at slots i == k_empty then some i else rest

-- The loop of `grow` over the old slots.
unfoldable pub refill : List ℕ → List ℕ → Option (List ℕ)
unfolding vacancy slot_of
refill [] slots = some slots
refill (v ∷ old) slots =
    let skipped = refill old slots in
    if v == k_empty
    then skipped
    else elim (vacancy (length slots) slots (slot_of (length slots) v)) [
      | none ↦ none
      | some i ↦ refill old (set slots i v)
    ]

unfoldable pub grow : List ℕ → Option (List ℕ)
unfolding refill
grow slots = refill slots (replicate (length slots * 2) k_empty)

-- The write of a new key, and the growth above half the capacity.
unfoldable pub add_at : FlatVisitedSet → ℕ → ℕ → Option (Bool × FlatVisitedSet)
unfolding grow
add_at s key i =
    let slots = set s.slots i key in
    if ltb (length slots) (2 * (s.size + 1))
    then elim (grow slots) [
      | none ↦ none
      | some slots' ↦ some (true, record s { slots = slots'; size = s.size + 1 })
    ]
    else some (true, record s { slots = slots; size = s.size + 1 })

-- Whether the key is new, and the set.
unfoldable pub insert : FlatVisitedSet → ℕ → Option (Bool × FlatVisitedSet)
unfolding probe slot_of add_at
insert s key =
    if key == k_empty
    then some (not s.has_empty_key, record s { has_empty_key = true })
    else elim (probe (length s.slots) s.slots key (slot_of (length s.slots) key)) [
      | none ↦ none
      | some found ↦ some (false, s)
      | some (vacant i) ↦ add_at s key i
    ]

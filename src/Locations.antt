-- ===== src/Locations.antt =====
-- src/ssd_index.cpp: the maps between ids and locations of records, and the allocation of
-- locations for an insert. The resize locks and `alloc_lock` make each operation one step.
pub mod Tables
pub mod Alloc
pub mod Claims
pub mod Resize
pub mod Pages
pub mod Fresh
pub mod Assign
pub mod Relocate
pub mod Load
pub mod Verify
mod Tests
use pipe_ann.Base.{
  ℕ, zero, suc, ◌+◌, ◌-◌, ◌*◌, ◌/◌, ◌%◌, ◌^◌, ◌≤◌, ◌<◌, min, max, ◌≡◌, refl, sym, ap, ◌∙◌, subst,
  ◌≢◌, ◌↔◌, ◌⊎◌, inl, inr, Bool, true, false, ◌&&◌, ◌||◌, not, Option, none, some, List, [], ◌∷◌,
  ◌++◌, map, reverse, append-nil, append_assoc, arith, dec_lt, dec_le, ℕ_discrete, ltb, leb, ◌==◌,
  if◌then◌else◌, ltb→lt, lt→ltb, leb→le, ltb_false→le, le→ltb_false, ==→eq, ==_self, ne→==_false,
  ==_false→ne, tests, Bool-cases, Option-cases, trichotomy, All, length, get_elem?, get_or, set,
  take, drop, replicate, length-append, length-set, length-take, length-drop, length-replicate,
  take-append-drop, take_all, get_or-set_self, get_or-set_ne, get_or-take, memmove, All-append,
  All-take, All-drop, All-get_or,
}
use pipe_ann.Layout.{Metadata, loc_sector_no, sector_to_loc}

-- kInvalidID and kAllocatedID
abbrev pub invalid_id : ℕ
invalid_id = 0xFFFFFFFF

abbrev pub allocated_id : ℕ
allocated_id = 0xFFFFFFFE

-- `crashed` is a call of `crash()`; `undefined` an access out of bounds or a remainder by zero.
pub data Outcome {ℓ} (A : Type ℓ) : Type ℓ where
  ok : A → Outcome A
  crashed : Outcome A
  undefined : Outcome A

infixl 5 ◌>>=◌
abbrev pub ◌>>=◌ {ℓ κ} : {A : Type ℓ} {B : Type κ} → Outcome A → (A → Outcome B) → Outcome B
ok a >>= f = f a
crashed >>= f = crashed
undefined >>= f = undefined

pub record Locations : Type 0 where
  pub meta : Metadata
  pub id2loc : List ℕ
  pub loc2id : List ℕ
  pub empty_pages : List ℕ  -- the front of the queue first
  pub cur_loc : ℕ

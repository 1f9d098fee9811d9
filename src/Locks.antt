-- ===== src/Locks.antt =====
-- src/include/utils/lock_table.h: the spin lock, the table of locks by key, and the fixed table.
pub mod Spin
pub mod Exclusion
pub mod Table
pub mod Pinned
pub mod Safety
pub mod Order
pub mod Round
mod Tests
use pipe_ann.Base.{
  ℕ, zero, suc, ◌+◌, ◌-◌, ◌*◌, ◌/◌, ◌%◌, ◌^◌, ◌≤◌, ◌<◌, min, max, ◌≡◌, refl, sym, ap, ◌∙◌, subst,
  ◌≢◌, ◌↔◌, ◌⊎◌, inl, inr, Bool, true, false, ◌&&◌, ◌||◌, not, Option, none, some, List, [], ◌∷◌,
  ◌++◌, map, reverse, append-nil, append_assoc, arith, dec_lt, dec_le, ℕ_discrete, ltb, leb, ◌==◌,
  if◌then◌else◌, ltb→lt, lt→ltb, leb→le, ltb_false→le, le→ltb_false, ==→eq, ==_self, ne→==_false,
  ==_false→ne, tests, Bool-cases, Option-cases, trichotomy, All, length, get_elem?, get_or, set,
  take, drop, replicate, length-append, length-set, length-take, length-drop, length-replicate,
  take-append-drop, take_all, get_or-set_self, get_or-set_ne, get_or-take, memmove, All-append,
  All-take, All-drop, All-get_or,
}

-- An `int`.
pub data ℤ : Type 0 where
  pos : ℕ → ℤ
  negsuc : ℕ → ℤ

abbrev pub int_max : ℕ
int_max = 2147483647

abbrev pub Kind : Type 0
Kind = Bool

abbrev pub rd : Kind
rd = false

abbrev pub wr : Kind
wr = true

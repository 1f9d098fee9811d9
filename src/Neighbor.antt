-- ===== src/Neighbor.antt =====
-- include/utils.h: `Neighbor`, a candidate of a graph search, and its order.
-- A distance is the place of the float among the floats that are not NaN, from 0 for minus
-- infinity; both zeros have the place 0x7F800000. The code of the pool only compares distances.
use pipe_ann.Base.{ℕ, ◌≡◌, ◌⊎◌, Bool, true, false, ◌&&◌, ◌||◌, arith, ltb, leb, ◌==◌, if◌then◌else◌}

pub record Neighbor : Type 0 where
  pub id : ℕ
  pub distance : ℕ
  pub flag : Bool
  pub visited : Bool
  pub is_member : Bool

-- std::numeric_limits<float>::max()
abbrev pub float_max : ℕ
float_max = 0xFEFFFFFF

abbrev pub new_neighbor : ℕ → ℕ → Neighbor
new_neighbor id distance = record {
  id = id;
  distance = distance;
  flag = true;
  visited = false;
  is_member = false;
}

-- `operator<`, `operator>` and `operator>=`; `operator==` compares the ids alone.
unfoldable pub lt : Neighbor → Neighbor → Bool
lt a b = ltb a.distance b.distance || (a.distance == b.distance && ltb a.id b.id)

unfoldable pub gt : Neighbor → Neighbor → Bool
gt a b = ltb b.distance a.distance || (a.distance == b.distance && ltb b.id a.id)

unfoldable pub ge : Neighbor → Neighbor → Bool
ge a b = ltb b.distance a.distance || (a.distance == b.distance && leb b.id a.id)

pub lt_trans : (a b c : Neighbor) → lt a b ≡ true → lt b c ≡ true → lt a c ≡ true
unfolding lt
lt_trans a b c h k = ground arith

pub lt_asymm : (a b : Neighbor) → lt a b ≡ true → lt b a ≡ false
unfolding lt
lt_asymm a b h = ground arith

pub gt-eq-lt : (a b : Neighbor) → gt a b ≡ lt b a
unfolding lt gt
gt-eq-lt a b = ground arith

pub ge-eq-not_lt : (a b : Neighbor) → ge a b ≡ (if lt a b then false else true)
unfolding lt ge
ge-eq-not_lt a b = ground arith

-- Two entries that the order does not tell apart have the same id.
pub lt_total : (a b : Neighbor) → (lt a b ≡ true) ⊎ ((lt b a ≡ true) ⊎ (a.id ≡ b.id))
unfolding lt
lt_total a b = ground arith

-- Marking an entry does not move it.
pub lt_of_key : (a b c : Neighbor) → a.id ≡ b.id → a.distance ≡ b.distance → lt a c ≡ lt b c
unfolding lt
lt_of_key a b c p q = ground arith

pub lt_of_key_right : (a b c : Neighbor) → b.id ≡ c.id → b.distance ≡ c.distance → lt a b ≡ lt a c
unfolding lt
lt_of_key_right a b c p q = ground arith

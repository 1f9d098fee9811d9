-- ===== src/Pool/Position.antt =====
-- include/candidate_pool.h: `insert_into_pool`, on the backing array alone.
pub mod Order
pub mod Search
pub mod Place
use pipe_ann.Base.{
  ℕ, zero, suc, ◌+◌, ◌-◌, ◌/◌, Bool, true, false, ◌&&◌, ◌||◌, List, ltb, ◌==◌, if◌then◌else◌,
  get_or, set, memmove,
}
use pipe_ann.Neighbor.{Neighbor, new_neighbor, float_max, lt, gt}

-- What `reset` fills the array with.
abbrev pub placeholder : Neighbor
placeholder = new_neighbor 0 float_max

abbrev pub at : List Neighbor → ℕ → Neighbor
at xs i = get_or xs i placeholder

-- The binary search: the bounds at which it stops. The fuel is the length of the window.
unfoldable pub bisect : ℕ → List Neighbor → Neighbor → ℕ → ℕ → ℕ × ℕ
bisect zero addr nn left right = (left, right)
bisect (suc fuel) addr nn left right =
    let mid = (left + right) / 2 in
    let lower = bisect fuel addr nn left mid in
    let upper = bisect fuel addr nn mid right in
    if ltb 1 right && ltb (left + 1) right
    then if gt (at addr mid) nn then lower else upper
    else (left, right)

-- The loop `check equal ID`: whether it returns, and where it stops. It recurs on `left`.
unfoldable pub equal_id : List Neighbor → Neighbor → ℕ → Bool × ℕ
equal_id addr nn zero = (false, 0)
equal_id addr nn (suc left) =
    let rest = equal_id addr nn left in
    if lt (at addr (suc left)) nn
    then (false, suc left)
    else if (at addr (suc left)).id == nn.id
    then (true, suc left)
    else rest

abbrev shift_in : List Neighbor → ℕ → ℕ → Neighbor → List Neighbor
shift_in addr k pos nn = set (memmove addr (pos + 1) pos (k - pos)) pos nn

-- What follows the binary search: the test for an equal id, and the shift.
unfoldable pub insert_between : List Neighbor → ℕ → Neighbor → ℕ → ℕ → List Neighbor × ℕ
unfolding equal_id
insert_between addr k nn left right =
    let (found, left') = equal_id addr nn left in
    if found || ((at addr left').id == nn.id || (at addr right).id == nn.id)
    then (addr, k + 1)
    else (shift_in addr k right nn, right)

unfoldable pub insert_into_pool : List Neighbor → ℕ → Neighbor → List Neighbor × ℕ
unfolding bisect insert_between
insert_into_pool addr k nn =
    if gt (at addr 0) nn
    then (shift_in addr k 0 nn, 0)
    else if lt (at addr (k - 1)) nn
    then (set addr k nn, k)
    else let (left, right) = bisect k addr nn 0 (k - 1) in insert_between addr k nn left right

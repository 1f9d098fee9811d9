-- ===== src/Pool.antt =====
-- include/candidate_pool.h: the candidate pool of the graph searches.
-- The backing array is the list `retset`; the live window is its first `size` entries.
pub mod Position
pub mod Insert
pub mod Frontier
pub mod Window
pub mod Duplicate
mod Tests
use pipe_ann.Base.{
  ℕ, zero, suc, ◌+◌, ◌-◌, ◌*◌, ◌/◌, ◌≡◌, Bool, true, false, ◌&&◌, not, List, [], ◌∷◌, ◌++◌, Option,
  none, some, arith, max, min, ltb, leb, ◌==◌, if◌then◌else◌, length, get_or, set, take, drop,
  replicate, memmove,
}
use pipe_ann.Neighbor.{Neighbor, new_neighbor, float_max, lt, gt, ge}
use Position.{placeholder, at, insert_into_pool}

pub record Pool : Type 0 where
  pub retset : List Neighbor
  pub cur_list_size : ℕ
  pub l_pool : ℕ
  pub first_unvisited : ℕ
  pub send_marker : ℕ

-- `reset`, and the constructor, which calls it.
unfoldable pub reset : ℕ → ℕ → Pool
reset l_pool capacity = record {
  retset = replicate (max capacity (l_pool + 1)) placeholder;
  cur_list_size = 0;
  l_pool = l_pool;
  first_unvisited = 0;
  send_marker = 0;
}

unfoldable pub full : Pool → Bool
full p = p.cur_list_size == p.l_pool

unfoldable pub worst : Pool → Neighbor
worst p = at p.retset (p.cur_list_size - 1)

-- The entries that `begin` and `end` delimit.
unfoldable pub live : Pool → List Neighbor
live p = take p.cur_list_size p.retset

-- `retset_.resize(2 * cur_list_size_, placeholder)`, when the window has reached the end.
unfoldable pub ensure_room : ℕ → List Neighbor → List Neighbor
ensure_room size xs =
    if leb (length xs) size then xs ++ replicate (2 * size - length xs) placeholder else xs

-- What `insert` does with the answer of `insert_into_pool`. The window grows also where that has
-- found a duplicate.
unfoldable pub settle : Pool → List Neighbor → ℕ → Pool
settle p retset' r =
    let grows = ltb p.cur_list_size p.l_pool in
    record p {
      retset = if grows then ensure_room (p.cur_list_size + 1) retset' else retset';
      cur_list_size = if grows then p.cur_list_size + 1 else p.cur_list_size;
      first_unvisited = if ltb r p.first_unvisited then r else p.first_unvisited;
      send_marker = min p.send_marker r;
    }

unfoldable pub insert_live : Pool → Neighbor → Pool × ℕ
insert_live p nn =
    let (retset', r) = insert_into_pool p.retset p.cur_list_size nn in (settle p retset' r, r)

unfoldable pub insert : Pool → Neighbor → Pool × ℕ
unfolding worst
insert p nn =
    if p.cur_list_size == 0
    then (
      record p {
        retset = set p.retset 0 nn;
        cur_list_size = 1;
        first_unvisited = 0;
        send_marker = 0;
      },
      0,
    )
    else if ge nn (worst p) && p.cur_list_size == p.l_pool
    then (p, p.l_pool)
    else insert_live p nn

unfoldable pub seed : Pool → Neighbor → Pool
seed p nn = record p {
  retset = set p.retset p.cur_list_size nn;
  cur_list_size = p.cur_list_size + 1;
}

-- `while (i < size && settled(retset[i])) ++i`, with `left` entries of the window still ahead.
unfoldable pub skip_while : (Neighbor → Bool) → ℕ → List Neighbor → ℕ → ℕ
skip_while settled zero xs i = i
skip_while settled (suc left) xs i =
    let rest = skip_while settled left xs (i + 1) in if settled (at xs i) then rest else i

unfoldable pub advance_to_flagged : Pool → Pool
unfolding skip_while
advance_to_flagged p = record p {
  send_marker =
      skip_while (λ n. not n.flag) (p.cur_list_size - p.send_marker) p.retset p.send_marker;
}

unfoldable pub advance_unvisited : Pool → Pool
unfolding skip_while
advance_unvisited p = record p {
  first_unvisited =
      skip_while (λ n. n.visited) (p.cur_list_size - p.first_unvisited) p.retset p.first_unvisited;
}

-- The index of the entry that the pointer of the source points to, `none` for nullptr.
unfoldable pub next_read_nbr : Pool → Pool × Option ℕ
unfolding advance_to_flagged
next_read_nbr p =
    let p' = advance_to_flagged p in
    (p', if ltb p'.send_marker p'.cur_list_size then some p'.send_marker else none)

-- The scan of `next_calc_nbr`: the first entry from `i` that is unvisited and `ready`.
unfoldable pub find_ready : (ℕ → Bool) → ℕ → List Neighbor → ℕ → Option ℕ
find_ready ready zero xs i = none
find_ready ready (suc left) xs i =
    let rest = find_ready ready left xs (i + 1) in
    if not (at xs i).visited && ready (at xs i).id then some i else rest

abbrev mark_calc : List Neighbor → ℕ → List Neighbor
mark_calc xs i = set xs i n'
  where
    n : Neighbor
    n = at xs i

    n' : Neighbor
    n' = record n { flag = false; visited = true }

unfoldable pub next_calc_nbr : (ℕ → Bool) → Pool → Pool × Option ℕ
unfolding find_ready
next_calc_nbr ready p =
    elim (find_ready ready (p.cur_list_size - p.first_unvisited) p.retset p.first_unvisited) [
      | none ↦ (p, none)
      | some i ↦ (record p { retset = mark_calc p.retset i }, some i)
    ]

unfoldable pub frontier : Pool → Pool × ℕ
unfolding advance_unvisited advance_to_flagged
frontier p = let p' = advance_to_flagged (advance_unvisited p) in (p', p'.send_marker)

abbrev mark_visited : List Neighbor → ℕ → List Neighbor
mark_visited xs i = set xs i n'
  where
    n : Neighbor
    n = at xs i

    n' : Neighbor
    n' = record n { visited = true }

unfoldable pub next_unvisited : Pool → Pool × Option ℕ
unfolding advance_unvisited
next_unvisited p =
    let p' = advance_unvisited p in
    if leb p'.cur_list_size p'.first_unvisited
    then (p', none)
    else (record p' { retset = mark_visited p'.retset p'.first_unvisited }, some p'.first_unvisited)

unfoldable pub all_visited : Pool → Pool × Bool
unfolding advance_unvisited
all_visited p = let p' = advance_unvisited p in (p', leb p'.cur_list_size p'.first_unvisited)

unfoldable pub drop_front : Pool → ℕ → Pool
unfolding memmove
drop_front p n = record p {
  retset = memmove p.retset 0 n (p.cur_list_size - n);
  cur_list_size = p.cur_list_size - n;
  first_unvisited = 0;
  send_marker = 0;
}

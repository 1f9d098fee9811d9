-- ===== src/Pool/Frontier.antt =====
-- The frontier walks of the pool: each finds the closest candidate of its kind.
mod Scan
mod Marks
use pipe_ann.Base.{
  ℕ, zero, suc, ◌+◌, ◌-◌, ◌*◌, ◌/◌, ◌%◌, ◌^◌, ◌≤◌, ◌<◌, min, max, ◌≡◌, refl, sym, ap, ◌∙◌, subst,
  ◌≢◌, ◌↔◌, ◌⊎◌, inl, inr, Bool, true, false, ◌&&◌, ◌||◌, not, Option, none, some, List, [], ◌∷◌,
  ◌++◌, map, reverse, append-nil, append_assoc, arith, dec_lt, dec_le, ℕ_discrete, ltb, leb, ◌==◌,
  if◌then◌else◌, ltb→lt, lt→ltb, leb→le, ltb_false→le, le→ltb_false, ==→eq, ==_self, ne→==_false,
  ==_false→ne, tests, Bool-cases, Option-cases, trichotomy, All, length, get_elem?, get_or, set,
  take, drop, replicate, length-append, length-set, length-take, length-drop, length-replicate,
  take-append-drop, take_all, get_or-set_self, get_or-set_ne, get_or-take, memmove, All-append,
  All-take, All-drop, All-get_or,
}
use pipe_ann.Neighbor.{Neighbor}
use pipe_ann.Pool.{
  Pool, live, skip_while, advance_to_flagged, advance_unvisited, next_read_nbr, find_ready,
  next_calc_nbr, frontier, next_unvisited, all_visited, mark_visited, mark_calc,
}
use pipe_ann.Pool.Position.{at, placeholder}
use pipe_ann.Pool.Insert.{IsValid, length-live}
use Scan.{first_such_lem, skip_while_lem, find_ready_lem}
use Marks.{stop-first, stop-le, stop_prefix, set-IsValid}
pub use Scan.{first_such}

not-not : (b : Bool) → b ≡ not (not b)
not-not true = refl
not-not false = refl

abbrev unvisited : Neighbor → Bool
unvisited n = not n.visited

module _ (p : Pool) (v : IsValid p) where
  advance_unvisited-IsValid : IsValid (advance_unvisited p)
  unfolding advance_unvisited live
  advance_unvisited-IsValid = record {
    capacity = v.capacity;
    room = v.room;
    bounded = v.bounded;
    sorted = v.sorted;
    unvisited_in =
        stop-le p v (λ n. n.visited) unvisited (λ n. not-not n.visited) p.first_unvisited
          v.unvisited_in v.settled;
    settled =
        stop_prefix p v (λ n. n.visited) unvisited (λ n. not-not n.visited) p.first_unvisited
          v.unvisited_in v.settled;
    send_in = v.send_in;
    issued = v.issued;
  }

  advance_to_flagged-IsValid : IsValid (advance_to_flagged p)
  unfolding advance_to_flagged live
  advance_to_flagged-IsValid = record {
    capacity = v.capacity;
    room = v.room;
    bounded = v.bounded;
    sorted = v.sorted;
    unvisited_in = v.unvisited_in;
    settled = v.settled;
    send_in =
        stop-le p v (λ n. not n.flag) (λ n. n.flag) (λ n. refl) p.send_marker v.send_in v.issued;
    issued =
        stop_prefix p v (λ n. not n.flag) (λ n. n.flag) (λ n. refl) p.send_marker v.send_in
          v.issued;
  }

  first_unvisited_lem : first_such unvisited (live p) ≡ (
      let q = advance_unvisited p in
      if ltb q.first_unvisited p.cur_list_size then some q.first_unvisited else none)
  unfolding advance_unvisited
  first_unvisited_lem =
      stop-first p v (λ n. n.visited) unvisited (λ n. not-not n.visited) p.first_unvisited
        v.unvisited_in v.settled

  first_flagged_lem : first_such (λ n. n.flag) (live p) ≡ (
      let q = advance_to_flagged p in
      if ltb q.send_marker p.cur_list_size then some q.send_marker else none)
  unfolding advance_to_flagged
  first_flagged_lem =
      stop-first p v (λ n. not n.flag) (λ n. n.flag) (λ n. refl) p.send_marker v.send_in v.issued

  -- `next_unvisited` answers with the closest candidate that is not visited, `none` when all are.
  pub next_unvisited-first : (next_unvisited p).1 ≡ first_such unvisited (live p)
  unfolding next_unvisited
  next_unvisited-first = ground (arith, first_unvisited_lem)

  -- `all_visited` answers true exactly when no candidate of the window is unvisited.
  pub all_visited-first : ((all_visited p).1 ≡ true) ↔ (first_such unvisited (live p) ≡ none)
  unfolding all_visited
  all_visited-first = ground (arith, first_unvisited_lem)

  -- `next_read_nbr` answers with the closest candidate that is flagged for a read, `none` when none is.
  pub next_read_nbr-first : (next_read_nbr p).1 ≡ first_such (λ n. n.flag) (live p)
  unfolding next_read_nbr
  next_read_nbr-first = ground (arith, first_flagged_lem)

  pub next_unvisited-IsValid : IsValid (next_unvisited p).0
  unfolding next_unvisited
  next_unvisited-IsValid =
      elim (Bool-cases (leb p.cur_list_size (advance_unvisited p).first_unvisited)) [
        | inl e ↦ rw e advance_unvisited-IsValid
        | inr e ↦ rw e (
            set-IsValid (advance_unvisited p) advance_unvisited-IsValid
              (advance_unvisited p).first_unvisited (ground arith) _ refl refl (λ _. refl) (λ f. f))
      ]

  pub next_read_nbr-IsValid : IsValid (next_read_nbr p).0
  unfolding next_read_nbr
  next_read_nbr-IsValid = advance_to_flagged-IsValid

live-advance_unvisited : (p : Pool) → live (advance_unvisited p) ≡ live p
unfolding live advance_unvisited
live-advance_unvisited p = refl

module _ (p : Pool) (v : IsValid p) where
  -- `frontier` is the place of the closest candidate that is flagged for a read, or the size.
  pub frontier-first :
      (let at_flag = first_such (λ n. n.flag) (live p) in
        ((at_flag ≡ some (frontier p).1) × ((frontier p).1 < p.cur_list_size))
        ⊎ ((at_flag ≡ none) × ((frontier p).1 ≡ p.cur_list_size)))
  unfolding frontier
  frontier-first = ground (
    arith,
    first_flagged_lem (advance_unvisited p) (advance_unvisited-IsValid p v),
    live-advance_unvisited p,
    size_kept,
    (advance_to_flagged-IsValid (advance_unvisited p) (advance_unvisited-IsValid p v)).send_in,
    size_kept',
  )
    where
      size_kept : (advance_unvisited p).cur_list_size ≡ p.cur_list_size
      size_kept = refl

      size_kept' : (advance_to_flagged (advance_unvisited p)).cur_list_size ≡ p.cur_list_size
      size_kept' = refl

  pub frontier-IsValid : IsValid (frontier p).0
  unfolding frontier
  frontier-IsValid =
      advance_to_flagged-IsValid (advance_unvisited p) (advance_unvisited-IsValid p v)

module _ (ready : ℕ → Bool) (p : Pool) (v : IsValid p) where
  abbrev expandable : Neighbor → Bool
  expandable n = not n.visited && ready n.id

  not-expandable :
      (xs : List Neighbor)
      → All (λ n. n.visited ≡ true) xs
      → All (λ n. not (expandable n) ≡ true) xs
  not-expandable [] h = tt
  not-expandable (x ∷ xs) h = (ground arith, not-expandable xs h.1)

  -- `next_calc_nbr` answers with the closest candidate that is unvisited and `ready`.
  pub next_calc_nbr-first : (next_calc_nbr ready p).1 ≡ first_such expandable (live p)
  unfolding next_calc_nbr
  next_calc_nbr-first = ground (
    arith,
    found,
    find_ready_lem ready (p.cur_list_size - p.first_unvisited) p.retset p.first_unvisited,
  )
    where
      found : first_such expandable (live p) ≡ (
          let j =
            skip_while
              (λ n. not (expandable n))
              (p.cur_list_size - p.first_unvisited)
              p.retset
              p.first_unvisited in
          if ltb j p.cur_list_size then some j else none)
      found =
          stop-first p v (λ n. not (expandable n)) expandable (λ n. refl) p.first_unvisited
            v.unvisited_in (not-expandable (take p.first_unvisited p.retset) v.settled)

  pub next_calc_nbr-IsValid : IsValid (next_calc_nbr ready p).0
  unfolding next_calc_nbr
  next_calc_nbr-IsValid =
      elim (Option-cases
        (find_ready ready (p.cur_list_size - p.first_unvisited) p.retset p.first_unvisited)) [
          | inl e ↦ rw (e, next_calc_nbr) v
          | inr (i, e) ↦
              rw (e, next_calc_nbr)
                (set-IsValid p v i
                  (ground (
                    arith,
                    e,
                    find_ready_lem ready (p.cur_list_size - p.first_unvisited) p.retset
                        p.first_unvisited,
                    v.unvisited_in,
                  ))
                  _ refl refl (λ _. refl) (λ _. refl))
        ]

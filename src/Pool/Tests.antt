-- ===== src/Pool/Tests.antt =====
-- Runs of the pool at concrete inputs.
use pipe_ann.Base.{
  ℕ, ◌<◌, ◌≡◌, refl, ◌↔◌, ◌⊎◌, true, ◌&&◌, not, none, some, List, [], ◌∷◌, map, arith, ◌==◌, take,
  drop, memmove,
}
use pipe_ann.Neighbor.{Neighbor, new_neighbor, lt}
use pipe_ann.Pool.{
  Pool, live, reset, insert, next_unvisited, next_calc_nbr, next_read_nbr, frontier, all_visited,
  drop_front,
}
use pipe_ann.Pool.Position.{at, placeholder}
use pipe_ann.Pool.Position.Order.{IsFresh}
use pipe_ann.Pool.Insert.{IsValid, insert-Refines, insert-IsValid, Refines}
use pipe_ann.Pool.Window.{
  insert_all, insert_each, insert_all-closest, reset-IsValid, drop_front-rest, AreDistinct, AreNew,
}
use pipe_ann.Pool.Frontier.{
  first_such, next_unvisited-first, next_calc_nbr-first, frontier-first, next_read_nbr-first,
  all_visited-first,
}
use pipe_ann.Pool.Duplicate.{insert_duplicate}

-- Three candidates for a pool of two.
abbrev candidates : List Neighbor
candidates = new_neighbor 7 50 ∷ new_neighbor 4 20 ∷ new_neighbor 9 30 ∷ []

abbrev fresh_pool : Pool
fresh_pool = reset 2 3

abbrev filled : Pool
filled = insert_all fresh_pool candidates

-- Opens what a run of the pool computes through.
ids_after : Pool → List Neighbor → List ℕ
unfolding live reset insert_all insert pipe_ann.Neighbor.ge pipe_ann.Pool.insert_live
    pipe_ann.Pool.settle pipe_ann.Pool.ensure_room pipe_ann.Pool.Position.insert_into_pool
    pipe_ann.Neighbor.gt memmove lt
ids_after p ns = map (λ n. n.id) (live (insert_all p ns))

filled_ids : ids_after fresh_pool candidates ≡ 4 ∷ 9 ∷ []
unfolding ids_after
filled_ids = refl

fresh_pool-IsValid : IsValid fresh_pool
fresh_pool-IsValid = reset-IsValid 2 3 (omega arith)

candidates-AreDistinct : AreDistinct candidates
candidates-AreDistinct = omega arith

candidates-AreNew : AreNew candidates (live fresh_pool)
unfolding live reset
candidates-AreNew = omega arith

insert_all-closest_example :
    IsValid filled × (live filled ≡ take 2 (insert_each (live fresh_pool) candidates))
unfolding reset
insert_all-closest_example =
    insert_all-closest fresh_pool candidates fresh_pool-IsValid candidates-AreDistinct
      candidates-AreNew

filled-IsValid : IsValid filled
filled-IsValid = insert_all-closest_example.0

newcomer-IsFresh : IsFresh (new_neighbor 5 10) (live filled)
unfolding ids_after
newcomer-IsFresh = omega arith

insert-Refines_example :
    Refines filled
      (new_neighbor 5 10)
      filled-IsValid
      newcomer-IsFresh
      (insert filled (new_neighbor 5 10)).0
      (insert filled (new_neighbor 5 10)).1
insert-Refines_example = insert-Refines filled (new_neighbor 5 10) filled-IsValid newcomer-IsFresh

insert-IsValid_example : IsValid (insert filled (new_neighbor 5 10)).0
insert-IsValid_example = insert-IsValid filled (new_neighbor 5 10) filled-IsValid newcomer-IsFresh

next_unvisited-first_run : (next_unvisited filled).1 ≡ first_such (λ n. not n.visited) (live filled)
next_unvisited-first_run = next_unvisited-first filled filled-IsValid

next_calc_nbr-first_run :
    (next_calc_nbr (λ i. i == 9) filled).1
    ≡ first_such (λ n. not n.visited && n.id == 9) (live filled)
next_calc_nbr-first_run = next_calc_nbr-first (λ i. i == 9) filled filled-IsValid

frontier-first_run :
    ((first_such (λ n. n.flag) (live filled) ≡ some (frontier filled).1)
      × ((frontier filled).1 < filled.cur_list_size))
    ⊎ ((first_such (λ n. n.flag) (live filled) ≡ none)
        × ((frontier filled).1 ≡ filled.cur_list_size))
frontier-first_run = frontier-first filled filled-IsValid

next_read_nbr-first_run : (next_read_nbr filled).1 ≡ first_such (λ n. n.flag) (live filled)
next_read_nbr-first_run = next_read_nbr-first filled filled-IsValid

all_visited-first_run :
    ((all_visited filled).1 ≡ true) ↔ (first_such (λ n. not n.visited) (live filled) ≡ none)
all_visited-first_run = all_visited-first filled filled-IsValid

drop_front-rest_run :
    IsValid (drop_front filled 1) × (live (drop_front filled 1) ≡ drop 1 (live filled))
unfolding ids_after
drop_front-rest_run = drop_front-rest filled 1 filled-IsValid (omega arith)

-- One candidate in a pool of two, and the same candidate once more.
abbrev one_candidate : List Neighbor
one_candidate = new_neighbor 7 50 ∷ []

one_candidate-AreNew : AreNew one_candidate (live fresh_pool)
unfolding live reset
one_candidate-AreNew = omega arith

half_filled-IsValid : IsValid (insert_all fresh_pool one_candidate)
half_filled-IsValid =
    (insert_all-closest fresh_pool one_candidate fresh_pool-IsValid (tt, tt) one_candidate-AreNew).0

insert_duplicate_example :
    insert (insert_all fresh_pool one_candidate) (new_neighbor 7 50)
    ≡ (record (insert_all fresh_pool one_candidate) { cur_list_size = 2 }, 2)
unfolding ids_after
insert_duplicate_example =
    insert_duplicate (insert_all fresh_pool one_candidate) (new_neighbor 7 50) half_filled-IsValid 0
      (omega arith) refl refl (omega arith)

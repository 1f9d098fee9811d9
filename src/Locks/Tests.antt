-- ===== src/Locks/Tests.antt =====
-- Two threads: one takes a lock, the other waits for it.
use pipe_ann.Base.{
  ℕ, ◌≡◌, refl, ◌≢◌, ◌↔◌, ◌⊎◌, true, false, none, some, [], ◌∷◌, arith, ◌==◌, if◌then◌else◌,
}
use pipe_ann.Locks.{pos, negsuc}
use pipe_ann.Locks.Spin
use pipe_ann.Locks.Table
use pipe_ann.Locks.Exclusion.{IsExclusive, Reach-IsExclusive}
use pipe_ann.Locks.Table.{Task, out, waiting, holding, try_lock, pin, acquire, enter, try_state}
use pipe_ann.Locations.{invalid_id}
use pipe_ann.Locations.Claims.{In}
use pipe_ann.Locks.Order.{get_to_lock_idx, IsAscending, get_to_lock_idx-IsAscending}
use pipe_ann.Locks.Round.{Locks, attempt, Attempted, attempt-Attempted}
use pipe_ann.Locks.Safety.{IsPinned, IsSafe, Reach-IsPinned, Reach-IsSafe}
use pipe_ann.Locks.Spin.{
  Mode, try, wait, Pc, idle, wr_load, wr_try, writing, is_zero, can_read, incr, Move, call_wr,
  load_wr, swap_wr, System,
}

abbrev one_writes : System
one_writes = record { state = negsuc 0; threads = writing ∷ (idle ∷ []) }

one_writes-Reach : Spin.Reach one_writes
unfolding is_zero
one_writes-Reach =
    Spin.Reach.more
      (Spin.Reach.more
        (Spin.Reach.more (Spin.Reach.start 2)
          (Spin.step (pos 0) (pos 0) [] idle (wr_load wait) (idle ∷ []) (call_wr (pos 0) wait)))
        (Spin.step (pos 0) (pos 0) [] (wr_load wait) (wr_try wait (pos 0)) (idle ∷ [])
          (load_wr (pos 0) wait)))
      (Spin.step (pos 0) (negsuc 0) [] (wr_try wait (pos 0)) writing (idle ∷ [])
        (swap_wr (pos 0) wait refl))

Reach-IsExclusive_example : IsExclusive one_writes
Reach-IsExclusive_example = Reach-IsExclusive one_writes one_writes-Reach

-- The first thread has locked the key by `trywrlock`, and the second waits to read.
abbrev held_table : Table.Table
held_table = record { heap = some (negsuc 0) ∷ []; entry = some (0, 2) }

one_waits-Reach : Table.Reach held_table (holding true ∷ (waiting false 0 ∷ []))
unfolding try_lock pin enter try_state is_zero
one_waits-Reach =
    Table.Reach.more (holding true ∷ []) []
      (Table.Reach.more [] (out ∷ []) (Table.Reach.start 2) (
        Table.tried true (record { heap = []; entry = none })
          (record { heap = some (negsuc 0) ∷ []; entry = some (0, 1) }) refl))
      (Table.pinned false (record { heap = some (negsuc 0) ∷ []; entry = some (0, 1) }))

Reach-IsPinned_example : IsPinned held_table (holding true ∷ (waiting false 0 ∷ []))
Reach-IsPinned_example =
    Reach-IsPinned held_table (holding true ∷ (waiting false 0 ∷ [])) one_waits-Reach

Reach-IsSafe_example : IsSafe held_table (waiting false 0)
Reach-IsSafe_example =
    Reach-IsSafe held_table (holding true ∷ []) (waiting false 0) [] one_waits-Reach

to_lock_test : get_to_lock_idx 5 (9 ∷ (5 ∷ (2 ∷ (9 ∷ [])))) ≡ 2 ∷ (5 ∷ (9 ∷ []))
unfolding get_to_lock_idx
to_lock_test = refl

get_to_lock_idx-IsAscending_example :
    IsAscending (get_to_lock_idx 5 (9 ∷ (5 ∷ [])))
    × ((j : ℕ)
        → In j (get_to_lock_idx 5 (9 ∷ (5 ∷ [])))
          ↔ (In j (9 ∷ (5 ∷ [])) ⊎ ((j ≡ 5) × (5 ≢ invalid_id))))
get_to_lock_idx-IsAscending_example = get_to_lock_idx-IsAscending 5 (9 ∷ (5 ∷ []))

-- The lock of 7 is held by two readers.
abbrev seven_read : Locks
seven_read k = if k == 7 then pos 2 else pos 0

attempt-Attempted_run : Attempted seven_read (3 ∷ (7 ∷ [])) (attempt seven_read (3 ∷ (7 ∷ [])))
attempt-Attempted_run =
    attempt-Attempted seven_read (3 ∷ (7 ∷ [])) ((λ e. omega (arith, e), tt), (tt, tt))

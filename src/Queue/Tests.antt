-- ===== src/Queue/Tests.antt =====
-- A ring of three slots whose tail has wrapped.
use pipe_ann.Base.{ℕ, ◌≡◌, refl, [], ◌∷◌, arith}
use pipe_ann.Queue.{Ring, new_ring, push, pop, pop_all_fn, items, IsRing}
use pipe_ann.Queue.Fifo.{Pushed, Popped, push_lem, pop_lem, pop_all_fn_lem, new_ring-IsRing}

abbrev wrapped : Ring ℕ
wrapped = record { sq_head = 2; sq_tail = 0; cap = 3; sq_data = 5 ∷ (6 ∷ (7 ∷ [])) }

wrapped-IsRing : IsRing wrapped
wrapped-IsRing = record { head_low = omega arith; tail_low = omega arith; sized = refl }

items_test : items 0 wrapped ≡ 7 ∷ []
unfolding items
items_test = refl

push_lem_example : Pushed 0 wrapped 8 (push 0 wrapped 8)
push_lem_example = push_lem 0 wrapped 8 wrapped-IsRing

pop_lem_example : Popped 0 wrapped (pop 0 wrapped)
pop_lem_example = pop_lem 0 wrapped wrapped-IsRing

pop_all_fn_lem_run :
    ((pop_all_fn 0 wrapped).0 ≡ items 0 wrapped)
    × IsRing (pop_all_fn 0 wrapped).1
    × (items 0 (pop_all_fn 0 wrapped).1 ≡ [])
pop_all_fn_lem_run = pop_all_fn_lem 0 wrapped wrapped-IsRing

new_ring-IsRing_run : IsRing (new_ring {A = ℕ} 0 4) × (items {A = ℕ} 0 (new_ring 0 4) ≡ [])
new_ring-IsRing_run = new_ring-IsRing {A = ℕ} 0 4 (omega arith)

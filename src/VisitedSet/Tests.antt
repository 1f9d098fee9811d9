-- ===== src/VisitedSet/Tests.antt =====
-- Four keys in eight slots: the fifth makes the table grow.
use pipe_ann.Base.{ℕ, ◌≤◌, ◌≡◌, refl, Bool, false, Option, none, some, List, [], ◌∷◌, length}
use pipe_ann.VisitedSet.{
  FlatVisitedSet, capacity, new_set, clear, slot_of, probe, vacancy, refill, grow, add_at, insert,
}
use pipe_ann.VisitedSet.Refine.{
  IsValid, Member, Inserted, insert-Inserted, new_set-IsValid, clear-IsValid,
}

abbrev or_new : Option (Bool × FlatVisitedSet) → FlatVisitedSet
or_new none = record { slots = []; size = 0; has_empty_key = false }
or_new (some r) = r.1

abbrev fresh_set : FlatVisitedSet
fresh_set = new_set 1

insert_all : List ℕ → FlatVisitedSet
unfolding insert
insert_all [] = fresh_set
insert_all (k ∷ ks) = or_new (insert (insert_all ks) k)

grown_test : length (insert_all (1 ∷ (2 ∷ (3 ∷ (4 ∷ (5 ∷ [])))))).slots ≡ 16
unfolding insert_all insert new_set capacity probe slot_of add_at grow refill vacancy
grown_test = refl

full_test : length (insert_all (2 ∷ (3 ∷ (4 ∷ (5 ∷ []))))).slots ≡ 8
unfolding insert_all insert new_set capacity probe slot_of add_at grow refill vacancy
full_test = refl

fresh_set-IsValid : IsValid fresh_set
fresh_set-IsValid = (new_set-IsValid 1).0

insert-Inserted_example :
    (b : Bool) × (s : FlatVisitedSet) × (insert fresh_set 77 ≡ some (b, s))
    × Inserted fresh_set 77 b s
insert-Inserted_example = insert-Inserted fresh_set 77 fresh_set-IsValid

new_set-IsValid_run :
    IsValid (new_set 20) × ((j : ℕ) → ¬ Member (new_set 20) j) × (20 ≤ length (new_set 20).slots)
new_set-IsValid_run = new_set-IsValid 20

clear-IsValid_run :
    IsValid (clear fresh_set)
    × ((j : ℕ) → ¬ Member (clear fresh_set) j)
    × (length (clear fresh_set).slots ≡ length fresh_set.slots)
clear-IsValid_run = clear-IsValid fresh_set fresh_set-IsValid

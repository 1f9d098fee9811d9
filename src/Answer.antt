-- ===== src/Answer.antt =====
-- src/ssd_index.cpp: `id2tag` and `copy_top_k`, which make a search's answer of the sorted candidates.
-- The concurrent map of tags is a parameter, read by `find`.
mod Tests
use pipe_ann.Base.{
  ℕ, zero, suc, ◌+◌, ◌-◌, ◌*◌, ◌/◌, ◌%◌, ◌^◌, ◌≤◌, ◌<◌, min, max, ◌≡◌, refl, sym, ap, ◌∙◌, subst,
  ◌≢◌, ◌↔◌, ◌⊎◌, inl, inr, Bool, true, false, ◌&&◌, ◌||◌, not, Option, none, some, List, [], ◌∷◌,
  ◌++◌, map, reverse, append-nil, append_assoc, arith, dec_lt, dec_le, ℕ_discrete, ltb, leb, ◌==◌,
  if◌then◌else◌, ltb→lt, lt→ltb, leb→le, ltb_false→le, le→ltb_false, ==→eq, ==_self, ne→==_false,
  ==_false→ne, tests, Bool-cases, Option-cases, trichotomy, All, length, get_elem?, get_or, set,
  take, drop, replicate, length-append, length-set, length-take, length-drop, length-replicate,
  take-append-drop, take_all, get_or-set_self, get_or-set_ne, get_or-take, memmove, All-append,
  All-take, All-drop, All-get_or, tally, tally-append, tally-replicate_zero, tally_le, All-middle,
  All-replicate,
}
use pipe_ann.Neighbor.{Neighbor}

abbrev pub Tags : Type 0
Tags = ℕ → Option ℕ

unfoldable pub id2tag : Tags → ℕ → ℕ
id2tag find id = elim (find id) [ some tag ↦ tag | none ↦ id ]

-- Whether the candidate has the id of the one before it.
abbrev pub repeats : Option ℕ → ℕ → Bool
repeats none id = false
repeats (some prev) id = id == prev

-- The loop from a candidate on, with the id before it and `k - t` answers still to write.
unfoldable pub copy_from : Tags → ℕ → Option ℕ → ℕ → List Neighbor → List (ℕ × ℕ)
unfolding id2tag
copy_from find max_dist prev k [] = []
copy_from find max_dist prev zero (r ∷ rs) = []
copy_from find max_dist prev (suc k) (r ∷ rs) =
    let skipped = copy_from find max_dist (some r.id) (suc k) rs in
    let rest = copy_from find max_dist (some r.id) k rs in
    if ltb max_dist r.distance
    then []
    else if repeats prev r.id
    then skipped
    else (id2tag find r.id, r.distance) ∷ rest

-- The tags and distances written; `t` is how many.
unfoldable pub copy_top_k : Tags → List Neighbor → ℕ → ℕ → List (ℕ × ℕ)
unfolding copy_from
copy_top_k find sorted_results k max_dist = copy_from find max_dist none k sorted_results

-- The candidates before the first that is too far.
abbrev pub near : ℕ → List Neighbor → List Neighbor
near max_dist [] = []
near max_dist (r ∷ rs) =
    let rest = near max_dist rs in if ltb max_dist r.distance then [] else r ∷ rest

-- What is left of a list behind the candidates of the id `i` at its front, one of each run of equal
-- ids.
abbrev pub runs_after : ℕ → List Neighbor → List Neighbor
runs_after i [] = []
runs_after i (r ∷ rs) = let rest = runs_after r.id rs in if r.id == i then rest else r ∷ rest

-- One candidate of each run of equal ids.
abbrev pub runs : List Neighbor → List Neighbor
runs [] = []
runs (r ∷ rs) = r ∷ runs_after r.id rs

-- The tag of the map, and the id where the map has none.
abbrev pub tag_or : Option ℕ → ℕ → ℕ
tag_or (some tag) id = tag
tag_or none id = id

abbrev pub answer_of : Tags → Neighbor → ℕ × ℕ
answer_of find r = (tag_or (find r.id) r.id, r.distance)

tag_of_answer : (o : Option ℕ) (id : ℕ) → elim o [ some tag ↦ tag | none ↦ id ] ≡ tag_or o id
tag_of_answer none id = refl
tag_of_answer (some tag) id = refl

id2tag_lem : (find : Tags) (id : ℕ) → id2tag find id ≡ tag_or (find id) id
unfolding id2tag
id2tag_lem find id = tag_of_answer (find id) id

answer_lem :
    (find : Tags) (r : Neighbor) (l m : List (ℕ × ℕ))
    → l ≡ m
    → (id2tag find r.id, r.distance) ∷ l ≡ answer_of find r ∷ m
answer_lem find r l m e = rw (id2tag_lem find r.id, e) refl

module _ (find : Tags) (max_dist : ℕ) where
  copy_after :
      (i k : ℕ) (rs : List Neighbor)
      → copy_from find max_dist (some i) k rs
        ≡ take k (map (answer_of find) (runs_after i (near max_dist rs)))
  unfolding copy_from
  copy_after i zero [] = refl
  copy_after i (suc k) [] = refl
  copy_after i zero (r ∷ rs) = refl
  copy_after i (suc k) (r ∷ rs) = elim (Bool-cases (ltb max_dist r.distance)) [
    | inl far ↦ rw far refl
    | inr close ↦ elim (Bool-cases (r.id == i)) [
      | inl again ↦ rw (close, again) (copy_after r.id (suc k) rs)
      | inr fresh ↦ rw (close, fresh) (answer_lem find r _ _ (copy_after r.id k rs))
    ]
  ]

  copy_first :
      (k : ℕ) (rs : List Neighbor)
      → copy_from find max_dist none k rs ≡ take k (map (answer_of find) (runs (near max_dist rs)))
  unfolding copy_from
  copy_first zero [] = refl
  copy_first (suc k) [] = refl
  copy_first zero (r ∷ rs) = refl
  copy_first (suc k) (r ∷ rs) = elim (Bool-cases (ltb max_dist r.distance)) [
    | inl far ↦ rw far refl
    | inr close ↦ rw close (answer_lem find r _ _ (copy_after r.id k rs))
  ]

-- The answer is the first `k` of the candidates before the first that is too far, one of each run
-- of equal ids, each with its distance and its tag, or its id if the map has no tag for it.
pub copy_top_k_lem :
    (find : Tags) (rs : List Neighbor) (k max_dist : ℕ)
    → copy_top_k find rs k max_dist ≡ take k (map (answer_of find) (runs (near max_dist rs)))
unfolding copy_top_k
copy_top_k_lem find rs k max_dist = copy_first find max_dist k rs

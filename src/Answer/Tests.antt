-- ===== src/Answer/Tests.antt =====
-- Candidate 7 twice, and one too far; candidate 4 has the tag 400.
use pipe_ann.Base.{◌≡◌, refl, none, some, List, [], ◌∷◌, map, ◌==◌, if◌then◌else◌, take}
use pipe_ann.Neighbor.{Neighbor, new_neighbor}
use pipe_ann.Answer.{Tags, id2tag, copy_from, copy_top_k, near, runs, answer_of, copy_top_k_lem}

abbrev four_tagged : Tags
four_tagged id = if id == 4 then some 400 else none

abbrev candidates : List Neighbor
candidates =
    new_neighbor 7 10 ∷ (new_neighbor 7 10 ∷ (new_neighbor 4 20 ∷ (new_neighbor 5 90 ∷ [])))

copy_test : copy_top_k four_tagged candidates 5 50 ≡ (7, 10) ∷ ((400, 20) ∷ [])
unfolding copy_top_k copy_from id2tag
copy_test = refl

copy_top_k_lem_example :
    copy_top_k four_tagged candidates 5 50
    ≡ take 5 (map (answer_of four_tagged) (runs (near 50 candidates)))
copy_top_k_lem_example = copy_top_k_lem four_tagged candidates 5 50

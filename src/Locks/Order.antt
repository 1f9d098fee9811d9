-- ===== src/Locks/Order.antt =====
-- `get_to_lock_idx`, the ids that `lock_idx` takes, in order.
use pipe_ann.Base.{
  ℕ, ◌≤◌, ◌<◌, ◌≡◌, sym, ◌∙◌, ◌≢◌, ◌↔◌, ◌⊎◌, inl, inr, not, List, [], ◌∷◌, ◌++◌, arith, leb, ◌==◌,
  if◌then◌else◌, leb→le, ==→eq, ==_false→ne, Bool-cases, All,
}
use pipe_ann.Locations.{invalid_id}
use pipe_ann.Locations.Claims.{In, All-In, All-of_In, In-append_left, In-append_right}

abbrev place : ℕ → List ℕ → List ℕ
place x [] = x ∷ []
place x (y ∷ ys) = let rest = place x ys in if leb x y then x ∷ (y ∷ ys) else y ∷ rest

-- `std::sort`
abbrev pub sort : List ℕ → List ℕ
sort [] = []
sort (x ∷ xs) = place x (sort xs)

abbrev drop_run : ℕ → List ℕ → List ℕ
drop_run x [] = []
drop_run x (y ∷ ys) =
    let skipped = drop_run x ys in let kept = drop_run y ys in if x == y then skipped else y ∷ kept

-- `std::unique` and `erase`
abbrev pub unique : List ℕ → List ℕ
unique [] = []
unique (x ∷ xs) = x ∷ drop_run x xs

unfoldable pub get_to_lock_idx : ℕ → List ℕ → List ℕ
get_to_lock_idx target neighbors =
    unique (sort (if not (target == invalid_id) then neighbors ++ (target ∷ []) else neighbors))

In-place : (x j : ℕ) (ys : List ℕ) → In j (place x ys) ↔ ((j ≡ x) ⊎ In j ys)
In-place x j [] = (λ h. h, λ h. h)
In-place x j (y ∷ ys) = elim (Bool-cases (leb x y)) [
  | inl e ↦ rw (e) (λ h. h, λ h. h)
  | inr e ↦
      let (f, g) = In-place x j ys in
      rw (e) (
        λ h. elim h [
          | inl q ↦ inr (inl q)
          | inr i ↦ elim (f i) [ inl q ↦ inl q | inr i' ↦ inr (inr i') ]
        ],
        λ h. elim h [
          | inl q ↦ inr (g (inl q))
          | inr (inl q) ↦ inl q
          | inr (inr i) ↦ inr (g (inr i))
        ],
      )
]

In-sort : (j : ℕ) (xs : List ℕ) → In j (sort xs) ↔ In j xs
In-sort j [] = (λ h. h, λ h. h)
In-sort j (x ∷ xs) =
    let (f, g) = In-place x j (sort xs) in
    let (f', g') = In-sort j xs in
    (
      λ h. elim (f h) [ inl q ↦ inl q | inr i ↦ inr (f' i) ],
      λ h. elim h [ inl q ↦ g (inl q) | inr i ↦ g (inr (g' i)) ],
    )

-- Each element is at most those after it.
abbrev IsSorted : List ℕ → Type 0
IsSorted [] = Unit
IsSorted (x ∷ xs) = All (λ y. x ≤ y) xs × IsSorted xs

-- Each element is below those after it.
abbrev pub IsAscending : List ℕ → Type 0
IsAscending [] = Unit
IsAscending (x ∷ xs) = All (λ y. x < y) xs × IsAscending xs

place-IsSorted : (x : ℕ) (ys : List ℕ) → IsSorted ys → IsSorted (place x ys)
place-IsSorted x [] s = (tt, tt)
place-IsSorted x (y ∷ ys) s = elim (Bool-cases (leb x y)) [
  | inl e ↦
      let le : x ≤ y = leb→le x y e in
      rw (e) ((le, All-of_In _ ys (λ j h. omega (arith, le, All-In _ ys j s.0 h))), s)
  | inr e ↦ rw (e) (
    All-of_In _ (place x ys) (λ j h. elim ((In-place x j ys).0 h) [
      | inl q ↦ ground (arith, e, q)
      | inr i ↦ All-In _ ys j s.0 i
    ]),
    place-IsSorted x ys s.1,
  )
]

sort-IsSorted : (xs : List ℕ) → IsSorted (sort xs)
sort-IsSorted [] = tt
sort-IsSorted (x ∷ xs) = place-IsSorted x (sort xs) (sort-IsSorted xs)

In-drop_run : (x j : ℕ) (ys : List ℕ) → (j ≡ x) ⊎ In j (drop_run x ys) ↔ ((j ≡ x) ⊎ In j ys)
In-drop_run x j [] = (λ h. h, λ h. h)
In-drop_run x j (y ∷ ys) = elim (Bool-cases (x == y)) [
  | inl e ↦
      let (f, g) = In-drop_run x j ys in
      let q : x ≡ y = ==→eq x y e in
      rw (e) (
        λ h. elim (f h) [ inl p ↦ inl p | inr i ↦ inr (inr i) ],
        λ h. elim h [ inl p ↦ inl p | inr (inl p) ↦ inl (p ∙ sym q) | inr (inr i) ↦ g (inr i) ],
      )
  | inr e ↦
      let (f, g) = In-drop_run y j ys in
      rw (e) (
        λ h. elim h [ inl p ↦ inl p | inr i ↦ inr (f i) ],
        λ h. elim h [ inl p ↦ inl p | inr i ↦ inr (g i) ],
      )
]

drop_run-IsAscending :
    (x : ℕ) (ys : List ℕ)
    → All (λ y. x ≤ y) ys
    → IsSorted ys
    → All (λ y. x < y) (drop_run x ys) × IsAscending (drop_run x ys)
drop_run-IsAscending x [] a s = (tt, tt)
drop_run-IsAscending x (y ∷ ys) a s = elim (Bool-cases (x == y)) [
  | inl e ↦ rw (e) (drop_run-IsAscending x ys a.1 s.1)
  | inr e ↦
      let lt : x < y = ground (arith, e, a.0) in
      let (f, g) = drop_run-IsAscending y ys s.0 s.1 in
      rw (e) (
        (
          lt,
          All-of_In _ (drop_run y ys) (λ j h. omega (arith, lt, All-In _ (drop_run y ys) j f h)),
        ),
        (f, g),
      )
]

unique-IsAscending : (xs : List ℕ) → IsSorted xs → IsAscending (unique xs)
unique-IsAscending [] s = tt
unique-IsAscending (x ∷ xs) s = drop_run-IsAscending x xs s.0 s.1

In-unique_sorted : (j : ℕ) (xs : List ℕ) → In j (unique xs) ↔ In j xs
In-unique_sorted j [] = (λ h. h, λ h. h)
In-unique_sorted j (x ∷ xs) = In-drop_run x j xs

In-unique : (j : ℕ) (xs : List ℕ) → In j (unique (sort xs)) ↔ In j xs
In-unique j xs =
    let (f, g) = In-sort j xs in
    let (f', g') = In-unique_sorted j (sort xs) in (λ h. f (f' h), λ h. g' (g h))

In-append : (j : ℕ) (xs ys : List ℕ) → In j (xs ++ ys) → In j xs ⊎ In j ys
In-append j [] ys h = inr h
In-append j (x ∷ xs) ys (inl e) = inl (inl e)
In-append j (x ∷ xs) ys (inr h) = elim (In-append j xs ys h) [ inl i ↦ inl (inr i) | inr i ↦ inr i ]

-- The ids to lock are those of the neighbors and of a valid target, each once and in ascending
-- order.
pub get_to_lock_idx-IsAscending :
    (target : ℕ) (neighbors : List ℕ)
    → IsAscending (get_to_lock_idx target neighbors)
      × ((j : ℕ)
          → In j (get_to_lock_idx target neighbors)
            ↔ (In j neighbors ⊎ ((j ≡ target) × (target ≢ invalid_id))))
unfolding get_to_lock_idx
get_to_lock_idx-IsAscending target neighbors = elim (Bool-cases (target == invalid_id)) [
  | inl e ↦ rw (e) (
    unique-IsAscending (sort neighbors) (sort-IsSorted neighbors),
    λ j.
        let (f, g) = In-unique j neighbors in
        (
          λ h. inl (f h),
          λ h. elim h [ inl i ↦ g i | inr (q, ne) ↦ absurd (ne (==→eq target invalid_id e)) ],
        ),
  )
  | inr e ↦
      let all : List ℕ = neighbors ++ (target ∷ []) in
      rw (e) (
        unique-IsAscending (sort all) (sort-IsSorted all),
        λ j.
            let (f, g) = In-unique j all in
            (
              λ h. elim (In-append j neighbors (target ∷ []) (f h)) [
                | inl i ↦ inl i
                | inr (inl q) ↦ inr (q, ==_false→ne target invalid_id e)
                | inr (inr n) ↦ absurd n
              ],
              λ h. elim h [
                | inl i ↦ g (In-append_left j neighbors (target ∷ []) i)
                | inr (q, ne) ↦ g (In-append_right j neighbors (target ∷ []) (inl q))
              ],
            ),
      )
]

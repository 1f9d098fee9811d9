-- ===== src/Locks/Round.antt =====
-- One round of the loop of `lock_idx`.
use pipe_ann.Base.{
  ℕ, ◌≡◌, refl, sym, ap, ◌∙◌, subst, ◌≢◌, ◌⊎◌, inl, inr, Bool, true, false, List, [], ◌∷◌,
  ℕ_discrete, ◌==◌, if◌then◌else◌, ==→eq, ==_self, ne→==_false, Bool-cases, All,
}
use pipe_ann.Locations.Claims.{In, AreDistinct, All-In, All-of_In}
use pipe_ann.Locks.{ℤ, pos, negsuc}
use pipe_ann.Locks.Spin.{is_zero, released, is_write_held}

-- The locks of all keys; a key that is not in the table has a free lock.
abbrev pub Locks : Type 0
Locks = ℕ → ℤ

unfoldable pub put : Locks → ℕ → ℤ → Locks
put l k v j = if k == j then v else l j

-- A round of the loop: the keys in order, and on the first refusal back again.
unfoldable pub attempt : Locks → List ℕ → Bool × Locks
unfolding put is_zero released
attempt l [] = (true, l)
attempt l (k ∷ ks) =
    let (all, l') = attempt (put l k (negsuc 0)) ks in
    if is_zero (l k)
    then if all then (true, l') else (false, put l' k (released (l' k) (l' k)))
    else (false, l)

-- What one round leaves.
abbrev pub Attempted : Locks → List ℕ → Bool × Locks → Type 0
Attempted l ks (true, l') =
    All (λ k. (is_zero (l k) ≡ true) × (l' k ≡ negsuc 0)) ks × ((j : ℕ) → (l' j ≡ l j) ⊎ In j ks)
Attempted l ks (false, l') = ((k : ℕ) × In k ks × (is_zero (l k) ≡ false)) × ((j : ℕ) → l' j ≡ l j)

put_self : (l : Locks) (k : ℕ) (v : ℤ) → put l k v k ≡ v
unfolding put
put_self l k v = rw (==_self k) refl

put_other : (l : Locks) (k j : ℕ) (v : ℤ) → k ≢ j → put l k v j ≡ l j
unfolding put
put_other l k j v h = rw (ne→==_false k j h) refl

zero_state : (s : ℤ) → is_zero s ≡ true → s ≡ pos 0
unfolding is_zero
zero_state (pos n) e = ap pos (==→eq n 0 e)
zero_state (negsuc n) e = absurd (cc e)

released_write : released (negsuc 0) (negsuc 0) ≡ pos 0
unfolding released is_write_held
released_write = refl

cons_round :
    (l : Locks) (k : ℕ) (ks : List ℕ)
    → All (λ j. k ≢ j) ks
    → (r : Bool × Locks) → Attempted (put l k (negsuc 0)) ks r
    → Attempted l (k ∷ ks) (
        if is_zero (l k)
        then if r.0 then (true, r.1) else (false, put r.1 k (released (r.1 k) (r.1 k)))
        else (false, l))
cons_round l k ks d (true, l') (a, kept) = elim (Bool-cases (is_zero (l k))) [
  | inl free ↦ rw (free) (
    (
      (
        free,
        elim (kept k) [
          | inl e ↦ e ∙ put_self l k (negsuc 0)
          | inr h ↦ absurd (All-In (λ j. k ≢ j) ks k d h refl)
        ],
      ),
      All-of_In _ ks (λ j h.
          let (f, t) = All-In _ ks j a h in
          (ap is_zero (sym (put_other l k j (negsuc 0) (All-In (λ j. k ≢ j) ks j d h))) ∙ f, t)),
    ),
    λ j. elim (ℕ_discrete k j) [
      | yes e ↦ inr (inl (sym e))
      | no ne ↦ elim (kept j) [
        | inl e ↦ inl (e ∙ put_other l k j (negsuc 0) ne)
        | inr h ↦ inr (inr h)
      ]
    ],
  )
  | inr busy ↦ rw (busy) ((k, inl refl, busy), λ j. refl)
]
cons_round l k ks d (false, l') ((i, h, held), same) = elim (Bool-cases (is_zero (l k))) [
  | inl free ↦
      let here : l' k ≡ negsuc 0 = same k ∙ put_self l k (negsuc 0) in
      let back : released (l' k) (l' k) ≡ l k =
        ap (λ s. released s s) here ∙ (released_write ∙ sym (zero_state (l k) free)) in
      rw (free) (
        (
          i,
          inr h,
          ap is_zero (sym (put_other l k i (negsuc 0) (All-In (λ j. k ≢ j) ks i d h))) ∙ held,
        ),
        λ j. elim (ℕ_discrete k j) [
          | yes e ↦
              subst (λ i. put l' k (released (l' k) (l' k)) i ≡ l i) e
                (put_self l' k (released (l' k) (l' k)) ∙ back)
          | no ne ↦
              put_other l' k j (released (l' k) (l' k)) ne
              ∙ (same j ∙ put_other l k j (negsuc 0) ne)
        ],
      )
  | inr busy ↦ rw (busy) ((k, inl refl, busy), λ j. refl)
]

-- A round over distinct ids, with no step of another thread in it: if it succeeds every lock was
-- free and is now held for writing, and no other lock has changed; if not, one lock was not free
-- and all locks are as they were.
pub attempt-Attempted : (l : Locks) (ks : List ℕ) → AreDistinct ks → Attempted l ks (attempt l ks)
unfolding attempt
attempt-Attempted l [] d = (tt, λ j. inl refl)
attempt-Attempted l (k ∷ ks) d =
    cons_round l k ks d.0 (attempt (put l k (negsuc 0)) ks)
      (attempt-Attempted (put l k (negsuc 0)) ks d.1)

-- ===== src/VisitedSet/Grow.antt =====
-- `grow` keeps the keys.
use pipe_ann.Base.{
  ℕ, zero, suc, ◌*◌, ◌<◌, ◌≡◌, refl, sym, ◌∙◌, subst, ◌≢◌, ◌↔◌, inl, inr, some, List, [], ◌∷◌,
  arith, length, replicate, length-replicate, tally, tally-replicate_zero,
}
use pipe_ann.Locations.Claims.{In}
use pipe_ann.VisitedSet.{k_empty, at, slot_of, grow}
use pipe_ann.VisitedSet.Walk.{Holds, IsProbed}
use pipe_ann.VisitedSet.Fill.{used, refill-Refilled}

pub at-replicate : (n i : ℕ) → at (replicate n k_empty) i ≡ k_empty
at-replicate zero i = refl
at-replicate (suc n) zero = refl
at-replicate (suc n) (suc i) = at-replicate n i

at_cons :
    (x : ℕ) (xs : List ℕ) (j : ℕ)
    → (Holds xs j → In j xs)
    → (i : ℕ) → i < suc (length xs)
    → at (x ∷ xs) i ≡ j
    → In j (x ∷ xs)
at_cons x xs j g zero lt e = inl (sym e)
at_cons x xs j g (suc i) lt e = inr (g (i, omega (arith, lt), e))

In-at : (slots : List ℕ) (j : ℕ) → In j slots ↔ Holds slots j
In-at [] j = (λ n. absurd n, λ (i, lt, e). elim lt [ ])
In-at (x ∷ xs) j =
    let (f, g) = In-at xs j in
    (
      λ h. elim h [
        | inl e ↦ (0, omega arith, sym e)
        | inr i ↦ let (k, lt, e) = f i in (suc k, omega (arith, lt), e)
      ],
      λ (i, lt, e). at_cons x xs j g i lt e,
    )

-- `grow` keeps the keys in a table of twice the size.
pub record Grown (slots slots' : List ℕ) : Type 0 where
  pub size : length slots' ≡ length slots * 2
  pub probed : IsProbed (slot_of (length slots')) slots'
  pub used_same : tally used slots' ≡ tally used slots
  pub holds : (j : ℕ) → j ≢ k_empty → Holds slots' j ↔ Holds slots j

pub grow-Grown :
    (slots : List ℕ)
    → tally used slots < length slots
    → (slots' : List ℕ) × (grow slots ≡ some slots') × Grown slots slots'
unfolding grow
grow-Grown slots room =
    let n = length slots * 2 in
    let blank : List ℕ = replicate n k_empty in
    let size : length blank ≡ n = length-replicate n k_empty in
    let none_used : tally used blank ≡ 0 = tally-replicate_zero used n k_empty refl in
    let (t, e, r) =
      refill-Refilled slots blank (λ i lt ne. absurd (ne (at-replicate n i)))
        (omega (arith, room, size, none_used)) in
    (
      t,
      e,
      record {
        size = r.size ∙ size;
        probed = subst (λ k. IsProbed (slot_of k) t) (sym r.size) r.probed;
        used_same = omega (arith, r.used_all, none_used);
        holds = λ j nj.
            let (f, g) = r.holds j nj in
            let (f', g') = In-at slots j in
            (
              λ x. elim (f x) [
                | inl (i, lt, q) ↦ absurd (nj (sym q ∙ at-replicate n i))
                | inr i ↦ f' i
              ],
              λ x. g (inr (g' x)),
            );
      },
    )

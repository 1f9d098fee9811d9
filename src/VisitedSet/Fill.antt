-- ===== src/VisitedSet/Fill.antt =====
-- Writing a key into an empty slot, and filling a new table with the keys of the old.
use pipe_ann.Base.{
  ℕ, zero, suc, ◌+◌, ◌*◌, ◌%◌, ◌^◌, ◌<◌, ◌≡◌, refl, sym, ap, ◌∙◌, subst, ◌≢◌, ◌↔◌, ◌⊎◌, inl, inr,
  true, false, some, List, [], ◌∷◌, arith, ℕ_discrete, ◌==◌, if◌then◌else◌, ==→eq, ne→==_false,
  ==_false→ne, Bool-cases, length, set, length-set, get_or-set_self, get_or-set_ne, tally,
}
use native.Mathlib.Nat.{mod-eq_of_lt, mod-lt}
use pipe_ann.VisitedSet.{k_empty, at, slot_of, vacancy, refill}
use pipe_ann.Locations.Claims.{In}
use pipe_ann.VisitedSet.Walk.{
  pos, pos_low, pos_reaches, Occupied, Holds, Vacant, IsProbed, vacancy-Vacant,
}

-- One for a slot in use.
abbrev pub used : ℕ → ℕ
used v = if v == k_empty then 0 else 1

tally-set :
    (slots : List ℕ) (i v : ℕ)
    → i < length slots
    → at slots i ≡ k_empty
    → v ≢ k_empty
    → tally used (set slots i v) ≡ tally used slots + 1
tally-set [] i v h e ne = elim h [ ]
tally-set (x ∷ xs) zero v h e ne =
    let a : used v ≡ 1 = rw (ne→==_false v k_empty ne) refl in
    let b : used x ≡ 0 = ap used e in omega (arith, a, b)
tally-set (x ∷ xs) (suc i) v h e ne = omega (arith, tally-set xs i v (omega arith) e ne)

-- A table with fewer keys than slots has an empty slot.
pub empty_slot :
    (slots : List ℕ)
    → tally used slots < length slots
    → (i : ℕ) × (i < length slots) × (at slots i ≡ k_empty)
empty_slot [] h = elim h [ ]
empty_slot (x ∷ xs) h = elim (Bool-cases (x == k_empty)) [
  | inl e ↦ (0, omega arith, ==→eq x k_empty e)
  | inr ne ↦
      let u : used x ≡ 1 = rw (ne) refl in
      let (i, lt, e) = empty_slot xs (omega (arith, h, u)) in (suc i, omega (arith, lt), e)
]

-- Writing keeps a slot in use in use.
set_occupied :
    (slots : List ℕ) (i v j : ℕ)
    → v ≢ k_empty
    → i < length slots
    → at slots j ≢ k_empty
    → at (set slots i v) j ≢ k_empty
set_occupied slots i v j ne lt h z = elim (ℕ_discrete i j) [
  | yes e ↦ ne (sym (get_or-set_self slots i v k_empty lt) ∙ (ap (at (set slots i v)) e ∙ z))
  | no q ↦ h (sym (get_or-set_ne slots i j v k_empty q) ∙ z)
]

module _ (h : ℕ → ℕ) where
  -- The slot `i` is on the walk of `w`, behind slots in use.
  abbrev Walked : ℕ → List ℕ → ℕ → ℕ → Type 0
  Walked c slots w i =
      (d : ℕ) × (d < c)
      × (pos c (h w) d ≡ i)
      × ((e : ℕ) → e < d → at slots (pos c (h w) e) ≢ k_empty)

  -- What writing the key `v` at the end of its walk leaves.
  pub record Written (slots : List ℕ) (v : ℕ) (slots' : List ℕ) : Type 0 where
    pub size : length slots' ≡ length slots
    pub probed : IsProbed h slots'
    pub used_more : tally used slots' ≡ tally used slots + 1
    pub holds : (j : ℕ) → j ≢ k_empty → Holds slots' j ↔ (Holds slots j ⊎ (j ≡ v))

  pub set-Written :
      (slots : List ℕ) (v d : ℕ)
      → IsProbed h slots
      → v ≢ k_empty
      → Vacant slots (h v) d
      → Occupied slots (h v) d
      → Written slots v (set slots (pos (length slots) (h v) d) v)
  set-Written slots v d inv ne vac occ =
      let c = length slots in
      let i = pos c (h v) d in
      let low : i < c = pos_low c (h v) d (omega (arith, vac.0)) in
      let here : at (set slots i v) i ≡ v = get_or-set_self slots i v k_empty low in
      let size : length (set slots i v) ≡ c = length-set slots i v in
      record {
        size = size;
        probed = λ k lt ne'.
            subst (λ c'. Walked c' (set slots i v) (at (set slots i v) k) k) (sym size)
              (elim (ℕ_discrete i k) [
                | yes q ↦
                    let new : at (set slots i v) k ≡ v = ap (at (set slots i v)) (sym q) ∙ here in
                    subst (λ w. Walked c (set slots i v) w k) (sym new)
                      (
                        d,
                        vac.0,
                        q,
                        λ e el. set_occupied slots i v (pos c (h v) e) ne low (occ e el),
                      )
                | no q ↦
                    let old : at (set slots i v) k ≡ at slots k =
                      get_or-set_ne slots i k v k_empty q in
                    let (d', lt', r, occ') = inv k (omega (arith, lt, size)) (λ z. ne' (old ∙ z)) in
                    subst (λ w. Walked c (set slots i v) w k) (sym old)
                      (
                        d',
                        lt',
                        r,
                        λ e el.
                            set_occupied slots i v (pos c (h (at slots k)) e) ne low (occ' e el),
                      )
              ]);
        used_more = tally-set slots i v low vac.1 ne;
        holds = λ j nj. (
          λ (k, lt, e). elim (ℕ_discrete i k) [
            | yes q ↦ inr (sym e ∙ (ap (at (set slots i v)) (sym q) ∙ here))
            | no q ↦ inl (k, omega (arith, lt, size), sym (get_or-set_ne slots i k v k_empty q) ∙ e)
          ],
          λ x. elim x [
            | inl (k, lt, e) ↦ elim (ℕ_discrete i k) [
              | yes q ↦ absurd (nj (sym e ∙ (ap (at slots) (sym q) ∙ vac.1)))
              | no q ↦ (k, omega (arith, lt, size), get_or-set_ne slots i k v k_empty q ∙ e)
            ]
            | inr q ↦ (i, omega (arith, low, size), here ∙ sym q)
          ],
        );
      }

-- What `refill` leaves: the keys of both tables.
pub record Refilled (old slots slots' : List ℕ) : Type 0 where
  pub size : length slots' ≡ length slots
  pub probed : IsProbed (slot_of (length slots)) slots'
  pub used_all : tally used slots' ≡ tally used slots + tally used old
  pub holds : (j : ℕ) → j ≢ k_empty → Holds slots' j ↔ (Holds slots j ⊎ In j old)

pub slot_low : (c key : ℕ) → 0 < c → slot_of c key < c
unfolding slot_of
slot_low c key lt = mod-lt (key * 0x9E3779B1 % 2 ^ 32) lt

refill_step :
    (v : ℕ) (old slots : List ℕ) (i : ℕ) (t : List ℕ)
    → (v == k_empty) ≡ false
    → vacancy (length slots) slots (slot_of (length slots) v) ≡ some i
    → refill old (set slots i v) ≡ some t
    → refill (v ∷ old) slots ≡ some t
unfolding refill
refill_step v old slots i t ne q e = rw (ne, q) e

refill_skip :
    (v : ℕ) (old slots t : List ℕ)
    → (v == k_empty) ≡ true
    → refill old slots ≡ some t
    → refill (v ∷ old) slots ≡ some t
unfolding refill
refill_skip v old slots t e q = rw (e) q

vacancy-Written :
    (slots : List ℕ) (v : ℕ)
    → IsProbed (slot_of (length slots)) slots
    → v ≢ k_empty
    → tally used slots < length slots
    → (i : ℕ) × (vacancy (length slots) slots (slot_of (length slots) v) ≡ some i)
      × Written (slot_of (length slots)) slots v (set slots i v)
vacancy-Written slots v inv ne room =
    let c = length slots in
    let low : slot_of c v < c = slot_low c v (omega (arith, room)) in
    let (i0, lt0, e0) = empty_slot slots room in
    let (z, zl, zq) = pos_reaches c (slot_of c v) i0 low lt0 in
    let start : pos c (slot_of c v) 0 ≡ slot_of c v =
      ap (λ k. k % c) (omega arith) ∙ mod-eq_of_lt low in
    let (d, q, vac, occ) =
      vacancy-Vacant c slots (slot_of c v) 0 z (λ e el. absurd (omega (arith, el)))
        (zl, ap (at slots) zq ∙ e0) (omega (arith, zl)) (omega arith) in
    (
      pos c (slot_of c v) d,
      ap (vacancy c slots) (sym start) ∙ q,
      set-Written (slot_of c) slots v d inv ne vac occ,
    )

Refilled-cons :
    (v : ℕ) (old slots : List ℕ) (i : ℕ)
    → IsProbed (slot_of (length slots)) slots
    → used v ≡ 1
    → (v == k_empty) ≡ false
    → vacancy (length slots) slots (slot_of (length slots) v) ≡ some i
    → Written (slot_of (length slots)) slots v (set slots i v)
    → (t : List ℕ) × (refill old (set slots i v) ≡ some t) × Refilled old (set slots i v) t
    → (t : List ℕ) × (refill (v ∷ old) slots ≡ some t) × Refilled (v ∷ old) slots t
Refilled-cons v old slots i inv one ne q w (t, e, r) = (
  t,
  refill_step v old slots i t ne q e,
  record {
    size = r.size ∙ w.size;
    probed = subst (λ k. IsProbed (slot_of k) t) w.size r.probed;
    used_all = omega (arith, r.used_all, w.used_more, one);
    holds = λ j nj.
        let (f, g) = r.holds j nj in
        let (f', g') = w.holds j nj in
        (
          λ x. elim (f x) [
            | inl y ↦ elim (f' y) [ inl o ↦ inl o | inr o ↦ inr (inl o) ]
            | inr y ↦ inr (inr y)
          ],
          λ x. elim x [
            | inl y ↦ g (inl (g' (inl y)))
            | inr (inl y) ↦ g (inl (g' (inr y)))
            | inr (inr y) ↦ g (inr y)
          ],
        );
  },
)

pub refill-Refilled :
    (old slots : List ℕ)
    → IsProbed (slot_of (length slots)) slots
    → tally used slots + tally used old < length slots
    → (slots' : List ℕ) × (refill old slots ≡ some slots') × Refilled old slots slots'
unfolding refill
refill-Refilled [] slots inv room = (
  slots,
  refl,
  record {
    size = refl;
    probed = inv;
    used_all = omega arith;
    holds = λ j nj. (λ x. inl x, λ x. elim x [ inl y ↦ y | inr n ↦ absurd n ]);
  },
)
refill-Refilled (v ∷ old) slots inv room = elim (Bool-cases (v == k_empty)) [
  | inl e ↦
      let z : used v ≡ 0 = rw (e) refl in
      let (t, q, r) = refill-Refilled old slots inv (omega (arith, room, z)) in
      (
        t,
        refill_skip v old slots t e q,
        record {
          size = r.size;
          probed = r.probed;
          used_all = omega (arith, r.used_all, z);
          holds = λ j nj.
              let (f, g) = r.holds j nj in
              (
                λ x. elim (f x) [ inl y ↦ inl y | inr y ↦ inr (inr y) ],
                λ x. elim x [
                  | inl y ↦ g (inl y)
                  | inr (inl y) ↦ absurd (nj (y ∙ ==→eq v k_empty e))
                  | inr (inr y) ↦ g (inr y)
                ],
              );
        },
      )
  | inr ne ↦
      let one : used v ≡ 1 = rw (ne) refl in
      let (i, q, w) =
        vacancy-Written slots v inv (==_false→ne v k_empty ne) (omega (arith, room, one)) in
      Refilled-cons v old slots i inv one ne q w (
        refill-Refilled old (set slots i v)
          (subst (λ k. IsProbed (slot_of k) (set slots i v)) (sym w.size) w.probed)
          (omega (arith, room, w.used_more, one, w.size)))
]

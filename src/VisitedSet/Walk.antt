-- ===== src/VisitedSet/Walk.antt =====
-- A probe walks from the slot of its key to the first empty slot: it finds a key that is there, and
-- stops after at most one round.
use pipe_ann.Base.{
  ℕ, zero, suc, ◌+◌, ◌-◌, ◌%◌, ◌≤◌, ◌<◌, ◌≡◌, refl, sym, ap, ◌∙◌, ◌≢◌, inl, inr, some, List, arith,
  dec_le, ℕ_discrete, ◌==◌, ==→eq, ==_false→ne, Bool-cases, trichotomy, length,
}
use native.Mathlib.Nat.{mod-eq_of_lt, add-mod_right, mod-lt, mod-add-mod}
use pipe_ann.VisitedSet.{k_empty, Probe, found, vacant, at, probe, vacancy}

-- The slot `d` after `h`, around the table.
abbrev pub pos : ℕ → ℕ → ℕ → ℕ
pos c h d = (h + d) % c

pub pos_next : (c h d : ℕ) → (pos c h d + 1) % c ≡ pos c h (d + 1)
pos_next c h d = mod-add-mod (h + d) c 1 ∙ ap (λ k. k % c) (omega arith)

pub pos_low : (c h d : ℕ) → 0 < c → pos c h d < c
pos_low c h d lt = mod-lt (h + d) lt

-- Every slot is some way after `h`.
pub pos_reaches : (c h i : ℕ) → h < c → i < c → (d : ℕ) × (d < c) × (pos c h d ≡ i)
pos_reaches c h i hh hi = elim (dec_le h i) [
  | yes l ↦ (i - h, omega arith, ap (λ k. k % c) (omega arith) ∙ mod-eq_of_lt hi)
  | no g ↦ (
    i + c - h,
    omega (arith, g),
    ap (λ k. k % c) (omega (arith, g)) ∙ (add-mod_right i c ∙ mod-eq_of_lt hi),
  )
]

-- The walk of a key: the slots before `d` hold other keys.
abbrev pub Passed : List ℕ → ℕ → ℕ → ℕ → Type 0
Passed slots key h d =
    (e : ℕ)
    → e < d
    → (at slots (pos (length slots) h e) ≢ k_empty) × (at slots (pos (length slots) h e) ≢ key)

abbrev pub Occupied : List ℕ → ℕ → ℕ → Type 0
Occupied slots h d = (e : ℕ) → e < d → at slots (pos (length slots) h e) ≢ k_empty

abbrev pub Holds : List ℕ → ℕ → Type 0
Holds slots key = (i : ℕ) × (i < length slots) × (at slots i ≡ key)

-- An empty slot `d` after `h`.
abbrev pub Vacant : List ℕ → ℕ → ℕ → Type 0
Vacant slots h d = (d < length slots) × (at slots (pos (length slots) h d) ≡ k_empty)

-- What a walk from `h` ends with.
abbrev pub Ends : List ℕ → ℕ → ℕ → Probe → Type 0
Ends slots key h found = Holds slots key
Ends slots key h (vacant i) =
    (d : ℕ) × (pos (length slots) h d ≡ i) × Vacant slots h d × Passed slots key h d

Passed-step :
    (slots : List ℕ) (key h d : ℕ)
    → Passed slots key h d
    → at slots (pos (length slots) h d) ≢ k_empty
    → at slots (pos (length slots) h d) ≢ key
    → Passed slots key h (d + 1)
Passed-step slots key h d p ne nk e lt = elim (ℕ_discrete e d) [
  | yes q ↦ (
    λ z. ne (ap (λ k. at slots (pos (length slots) h k)) (sym q) ∙ z),
    λ z. nk (ap (λ k. at slots (pos (length slots) h k)) (sym q) ∙ z),
  )
  | no q ↦ p e (omega (arith, lt, q))
]

pub probe-Ends :
    (fuel : ℕ) (slots : List ℕ) (key h d z : ℕ)
    → Passed slots key h d
    → Vacant slots h z
    → z < d + fuel
    → d ≤ z
    → (r : Probe) × (probe fuel slots key (pos (length slots) h d) ≡ some r) × Ends slots key h r
unfolding probe
probe-Ends zero slots key h d z p v lt le = absurd (omega (arith, lt, le))
probe-Ends (suc fuel) slots key h d z p v lt le =
    let i = pos (length slots) h d in
    elim (Bool-cases (at slots i == key)) [
      | inl e ↦
          (found, rw (e) refl, (i, pos_low (length slots) h d (omega (arith, v.0)), ==→eq _ _ e))
      | inr nk ↦ elim (Bool-cases (at slots i == k_empty)) [
        | inl e ↦ (vacant i, rw (nk, e) refl, (d, refl, (omega (arith, le, v.0), ==→eq _ _ e), p))
        | inr ne ↦
            let more : d ≢ z =
              λ q. ==_false→ne _ _ ne (ap (λ k. at slots (pos (length slots) h k)) q ∙ v.1) in
            let (r, e, w) =
              probe-Ends fuel slots key h (d + 1) z
                (Passed-step slots key h d p (==_false→ne _ _ ne) (==_false→ne _ _ nk)) v
                (omega (arith, lt)) (omega (arith, le, more)) in
            (r, rw (nk, ne) (ap (probe fuel slots key) (pos_next (length slots) h d) ∙ e), w)
      ]
    ]

-- Each key can be walked to from its own slot.
abbrev pub IsProbed : (ℕ → ℕ) → List ℕ → Type 0
IsProbed h slots =
    (i : ℕ)
    → i < length slots
    → at slots i ≢ k_empty
    → (d : ℕ) × (d < length slots)
      × (pos (length slots) (h (at slots i)) d ≡ i)
      × Occupied slots (h (at slots i)) d

-- A walk that ends at an empty slot has missed no slot of its key.
pub absent :
    (h : ℕ → ℕ) (slots : List ℕ) (key d : ℕ)
    → IsProbed h slots
    → key ≢ k_empty
    → Vacant slots (h key) d
    → Passed slots key (h key) d
    → ¬ Holds slots key
absent h slots key d inv ne v p (i, lt, e) =
    let (d', lt', q, occ) = inv i lt (λ z. ne (sym e ∙ z)) in
    let c = length slots in
    let q' : pos c (h key) d' ≡ i = ap (λ k. pos c (h k) d') (sym e) ∙ q in
    let here : at slots (pos c (h key) d') ≡ key = ap (at slots) q' ∙ e in
    elim (trichotomy d' d) [
      | inl l ↦ (p d' l).1 here
      | inr (inl s) ↦ ne (sym here ∙ (ap (λ k. at slots (pos c (h key) k)) s ∙ v.1))
      | inr (inr g) ↦ occ d g (ap (λ k. at slots (pos c (h k) d)) e ∙ v.1)
    ]

pub vacancy-Vacant :
    (fuel : ℕ) (slots : List ℕ) (h d z : ℕ)
    → Occupied slots h d
    → Vacant slots h z
    → z < d + fuel
    → d ≤ z
    → (e : ℕ) × (vacancy fuel slots (pos (length slots) h d) ≡ some (pos (length slots) h e))
      × Vacant slots h e
      × Occupied slots h e
unfolding vacancy
vacancy-Vacant zero slots h d z o v lt le = absurd (omega (arith, lt, le))
vacancy-Vacant (suc fuel) slots h d z o v lt le =
    let i = pos (length slots) h d in
    elim (Bool-cases (at slots i == k_empty)) [
      | inl e ↦ (d, rw (e) refl, (omega (arith, le, v.0), ==→eq _ _ e), o)
      | inr ne ↦
          let more : d ≢ z =
            λ q. ==_false→ne _ _ ne (ap (λ k. at slots (pos (length slots) h k)) q ∙ v.1) in
          let o' : Occupied slots h (d + 1) = λ k kl. elim (ℕ_discrete k d) [
            | yes q ↦
                λ z. ==_false→ne _ _ ne (ap (λ k. at slots (pos (length slots) h k)) (sym q) ∙ z)
            | no q ↦ o k (omega (arith, kl, q))
          ] in
          let (k, e, w, w') =
            vacancy-Vacant fuel slots h (d + 1) z o' v (omega (arith, lt))
              (omega (arith, le, more)) in
          (k, rw (ne) (ap (vacancy fuel slots) (pos_next (length slots) h d) ∙ e), w, w')
    ]

-- ===== src/Queue/Gap.antt =====
-- Distances around a ring of `c` slots.
use pipe_ann.Base.{
  ℕ, zero, suc, ◌+◌, ◌-◌, ◌%◌, ◌≤◌, ◌<◌, ◌≡◌, ap, ◌∙◌, ◌≢◌, ◌⊎◌, inl, inr, arith, dec_lt, dec_le,
}
use native.Mathlib.Nat.{mod-eq_of_lt, add-mod_right}

pub wrap_below : (a c : ℕ) → a < c → a % c ≡ a
wrap_below a c h = mod-eq_of_lt h

pub wrap_above : (a c : ℕ) → c ≤ a → a < c + c → a % c ≡ a - c
wrap_above a c h k =
    ap (λ n. n % c) (omega (arith, h))
    ∙ (add-mod_right (a - c) c ∙ mod-eq_of_lt (omega (arith, h, k)))

pub next_lem :
    (a c : ℕ) → a < c → (((a + 1) % c ≡ a + 1) × (a + 1 < c)) ⊎ (((a + 1) % c ≡ 0) × (a + 1 ≡ c))
next_lem a c h = elim (dec_lt (a + 1) c) [
  | yes l ↦ inl (wrap_below (a + 1) c l, l)
  | no g ↦ inr (
    wrap_above (a + 1) c (omega (arith, g)) (omega (arith, h, g)) ∙ omega (arith, h, g),
    omega (arith, h, g),
  )
]

pub size_lem :
    (h t c : ℕ)
    → h < c
    → t < c
    → ((h ≤ t) × ((t + c - h) % c ≡ t - h)) ⊎ ((t < h) × ((t + c - h) % c ≡ t + c - h))
size_lem h t c hh ht = elim (dec_le h t) [
  | yes l ↦ inl (l, wrap_above (t + c - h) c (omega arith) (omega arith) ∙ omega arith)
  | no g ↦ inr (omega (arith, g), wrap_below (t + c - h) c (omega (arith, g)))
]

-- `t` is `n` slots after `h`.
abbrev pub Apart : ℕ → ℕ → ℕ → ℕ → Type 0
Apart h t c n = ((h ≤ t) × (h + n ≡ t)) ⊎ ((t < h) × (h + n ≡ t + c))

pub Apart-next : (h t c n : ℕ) → h < c → t < c → Apart h t c (suc n) → Apart ((h + 1) % c) t c n
Apart-next h t c n hh ht (inl (le, e)) = elim (next_lem h c hh) [
  | inl (q, l) ↦ inl (omega (arith, q, e), omega (arith, q, e))
  | inr (q, l) ↦ absurd (omega (arith, l, e, ht))
]
Apart-next h t c n hh ht (inr (lt, e)) = elim (next_lem h c hh) [
  | inl (q, l) ↦ inr (omega (arith, q, lt), omega (arith, q, e))
  | inr (q, l) ↦ inl (omega (arith, q), omega (arith, q, l, e))
]

pub next_low : (h c : ℕ) → h < c → (h + 1) % c < c
next_low h c hh = elim (next_lem h c hh) [
  | inl (q, l) ↦ omega (arith, q, l)
  | inr (q, l) ↦ omega (arith, q, hh)
]

pub gap-Apart : (h t c : ℕ) → h < c → t < c → Apart h t c ((t + c - h) % c)
gap-Apart h t c hh ht = elim (size_lem h t c hh ht) [
  | inl (le, e) ↦ inl (le, omega (arith, le, e))
  | inr (lt, e) ↦ inr (lt, omega (arith, lt, e, hh))
]

pub full_gap : (h t c n : ℕ) → h < c → t < c → (t + 1) % c ≡ h → Apart h t c n → n + 1 ≡ c
full_gap h t c n hh ht e a = elim (next_lem t c ht) [
  | inl (q, l) ↦ elim a [
    | inl (x, y) ↦ absurd (omega (arith, q, e, x))
    | inr (x, y) ↦ omega (arith, q, e, y)
  ]
  | inr (q, l) ↦ elim a [
    | inl (x, y) ↦ omega (arith, q, l, e, y)
    | inr (x, y) ↦ absurd (omega (arith, q, e, x))
  ]
]

pub Apart-unique : (h t c n m : ℕ) → t < c → Apart h t c n → Apart h t c m → n ≡ m
Apart-unique h t c n m ht (inl (x, y)) (inl (x', y')) = omega (arith, y, y')
Apart-unique h t c n m ht (inl (x, y)) (inr (x', y')) = absurd (omega (arith, x, x'))
Apart-unique h t c n m ht (inr (x, y)) (inl (x', y')) = absurd (omega (arith, x, x'))
Apart-unique h t c n m ht (inr (x, y)) (inr (x', y')) = omega (arith, y, y')

pub popped_gap :
    (h t c n m : ℕ) → h < c → t < c → h ≢ t → Apart h t c n → Apart ((h + 1) % c) t c m → n ≡ suc m
popped_gap h t c zero m hh ht ne a b = elim a [
  | inl (x, y) ↦ absurd (omega (arith, y, ne))
  | inr (x, y) ↦ absurd (omega (arith, y, x, hh))
]
popped_gap h t c (suc n) m hh ht ne a b =
    ap suc (Apart-unique ((h + 1) % c) t c n m ht (Apart-next h t c n hh ht a) b)

pub pushed_gap :
    (h t c n m : ℕ)
    → h < c
    → t < c
    → (t + 1) % c ≢ h
    → Apart h t c n
    → Apart h ((t + 1) % c) c m
    → m ≡ suc n
pushed_gap h t c n m hh ht ne a b = elim (next_lem t c ht) [
  | inl (q, l) ↦ elim a [
    | inl (x, y) ↦ elim b [
      | inl (x', y') ↦ omega (arith, q, y, y')
      | inr (x', y') ↦ absurd (omega (arith, q, x, x'))
    ]
    | inr (x, y) ↦ elim b [
      | inl (x', y') ↦ absurd (omega (arith, q, x, x', ne))
      | inr (x', y') ↦ omega (arith, q, y, y')
    ]
  ]
  | inr (q, l) ↦ elim a [
    | inl (x, y) ↦ elim b [
      | inl (x', y') ↦ absurd (omega (arith, q, x', ne))
      | inr (x', y') ↦ omega (arith, q, l, y, y')
    ]
    | inr (x, y) ↦ absurd (omega (arith, x, l, hh))
  ]
]

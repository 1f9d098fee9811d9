-- ===== src/Filter/Like/Loop.antt =====
-- The loop of `like_match` stops and decides what its pattern means.
use pipe_ann.Base.{
  ℕ, zero, suc, ◌+◌, ◌*◌, ◌≤◌, ◌<◌, ◌≡◌, refl, sym, ap, ◌∙◌, ◌≢◌, inl, inr, Bool, true, false, ◌||◌,
  none, some, [], ◌∷◌, arith, ◌==◌, ==_false→ne, Bool-cases, All, length,
}
use native.Mathlib.Nat.{mul-le-mul_right}
use pipe_ann.Filter.Text.{Text}
use pipe_ann.Filter.Like.{
  percent, underscore, Mark, only_stars, retry, match_loop, match_fuel, like_match, some_suffix,
  like,
}

-- What is still to be tried after the mark.
later : Mark → Bool
unfolding some_suffix
later none = false
later (some (bp, [])) = false
later (some (bp, c ∷ m)) = some_suffix (like bp) m

some_suffix_here : (f : Text → Bool) (s : Text) → f s ≡ true → some_suffix f s ≡ true
unfolding some_suffix
some_suffix_here f [] h = h
some_suffix_here f (c ∷ s) h = ground arith

-- A match of a star and a pattern has a match of the pattern behind it.
some_suffix_star :
    (d : ℕ) (p s : Text)
    → (d == percent) ≡ true
    → some_suffix (like (d ∷ p)) s ≡ true
    → some_suffix (like p) s ≡ true
unfolding some_suffix like
some_suffix_star d p [] hd h = ground arith
some_suffix_star d p (c ∷ s) hd h = ground (arith, some_suffix_star d p s hd)

-- A later match of a byte and a pattern has a match of the pattern behind it.
some_suffix_byte :
    (d : ℕ) (p : Text) (c : ℕ) (s : Text)
    → (d == percent) ≡ false
    → some_suffix (like (d ∷ p)) (c ∷ s) ≡ true
    → some_suffix (like p) s ≡ true
unfolding some_suffix like
some_suffix_byte d p c [] hd h = ground arith
some_suffix_byte d p c (e ∷ s) hd h =
    ground (arith, some_suffix_byte d p e s hd, some_suffix_here (like p) (e ∷ s))

abbrev NoPercent : Text → Type 0
NoPercent = All (λ c. c ≢ percent)

abbrev MarkFits : ℕ → Text → Mark → Type 0
MarkFits k s none = Unit
MarkFits k s (some (bp, m)) = (length s ≤ length m) × (length bp < k) × NoPercent m

abbrev room : Mark → Text → ℕ
room none s = length s + 1
room (some (bp, m)) s = length m

record Inv (k f : ℕ) (s p : Text) (back : Mark) : Type 0 where
  text : NoPercent s
  fits : MarkFits k s back
  short : length p < k
  fuel : room back s * k + length p < f
  covered : later back ≡ true → some_suffix (like p) s ≡ true

-- The attempt at the mark itself, and the later ones.
later_at : (bp m : Text) → (like bp m || later (some (bp, m))) ≡ some_suffix (like bp) m
unfolding later some_suffix
later_at bp [] = ground arith
later_at bp (c ∷ m) = refl

later-imp_suffix : (bp m : Text) → later (some (bp, m)) ≡ true → some_suffix (like bp) m ≡ true
later-imp_suffix bp m h = sym (later_at bp m) ∙ ground arith

MarkFits-tail : (k c : ℕ) (s : Text) (back : Mark) → MarkFits k (c ∷ s) back → MarkFits k s back
MarkFits-tail k c s none h = tt
MarkFits-tail k c s (some (bp, m)) h = (omega (arith, h.0), h.1, h.2)

room_tail : (k c : ℕ) (s : Text) (back : Mark) → room back s * k ≤ room back (c ∷ s) * k
room_tail k c s none = omega arith
room_tail k c s (some (bp, m)) = omega arith

room_mark :
    (k c : ℕ) (s : Text) (back : Mark)
    → MarkFits k (c ∷ s) back
    → suc (length s) * k ≤ room back (c ∷ s) * k
room_mark k c s none h = omega arith
room_mark k c s (some (bp, m)) h = mul-le-mul_right k h.0

Inv-byte :
    (k f c d : ℕ) (s p : Text) (back : Mark)
    → ((d == underscore) || (d == c)) ≡ true
    → Inv k (suc f) (c ∷ s) (d ∷ p) back
    → (d ≢ percent) × Inv k f s p back
Inv-byte k f c d s p back h i =
    let nd : (d == percent) ≡ false = ground (arith, i.text.0) in
    (
      ==_false→ne d percent nd,
      record {
        text = i.text.1;
        fits = MarkFits-tail k c s back i.fits;
        short = omega (arith, i.short);
        fuel = omega (arith, room_tail k c s back, i.fuel);
        covered = λ h. some_suffix_byte d p c s nd (i.covered h);
      },
    )

Inv-star :
    (k f c d : ℕ) (s p : Text) (back : Mark)
    → Inv k (suc f) (c ∷ s) (d ∷ p) back
    → Inv k f (c ∷ s) p (some (p, c ∷ s))
Inv-star k f c d s p back i = record {
  text = i.text;
  fits = (omega arith, omega (arith, i.short), i.text);
  short = omega (arith, i.short);
  fuel = omega (arith, room_mark k c s back i.fits, i.fuel);
  covered = later-imp_suffix p (c ∷ s);
}

Inv-retry :
    (k f c x : ℕ) (s p bp m : Text)
    → Inv k (suc f) (c ∷ s) p (some (bp, x ∷ m))
    → Inv k f m bp (some (bp, m))
Inv-retry k f c x s p bp m i = record {
  text = i.fits.2.1;
  fits = (omega arith, i.fits.1, i.fits.2.1);
  short = i.fits.1;
  fuel = omega (arith, i.fuel, i.fits.1);
  covered = later-imp_suffix bp m;
}

retry_lem :
    (k f c : ℕ) (s p : Text) (back : Mark)
    → ((s p : Text) (back : Mark)
        → Inv k f s p back
        → match_loop f s p back ≡ some (like p s || later back))
    → Inv k (suc f) (c ∷ s) p back
    → retry back (match_loop f) ≡ some (later back)
unfolding retry later
retry_lem k f c s p none ih i = refl
retry_lem k f c s p (some (bp, [])) ih i = absurd (omega (arith, i.fits.0))
retry_lem k f c s p (some (bp, x ∷ m)) ih i =
    ih m bp (some (bp, m)) (Inv-retry k f c x s p bp m i) ∙ ap some (later_at bp m)

absorb : (a b : Bool) → (b ≡ true → a ≡ true) → a ≡ (a || b)
absorb true b h = refl
absorb false true h = h refl
absorb false false h = refl

only_stars_lem : (p : Text) → only_stars p ≡ like p []
unfolding only_stars like some_suffix
only_stars_lem [] = refl
only_stars_lem (d ∷ p) = ground (arith, only_stars_lem p)

like_star : (d : ℕ) (p s : Text) → (d == percent) ≡ true → like (d ∷ p) s ≡ some_suffix (like p) s
unfolding like
like_star d p s e = ground arith

match_loop_end :
    (k f : ℕ) (p : Text) (back : Mark)
    → Inv k (suc f) [] p back
    → match_loop (suc f) [] p back ≡ some (like p [] || later back)
unfolding match_loop some_suffix
match_loop_end k f p back i = ap some (only_stars_lem p ∙ absorb (like p []) (later back) i.covered)

module _ (f c d : ℕ) (s p : Text) (back : Mark) where
  match_loop_byte :
      ((d == underscore) || (d == c)) ≡ true
      → match_loop (suc f) (c ∷ s) (d ∷ p) back ≡ match_loop f s p back
  unfolding match_loop
  match_loop_byte e = ground arith

  match_loop_star :
      ((d == underscore) || (d == c)) ≡ false
      → (d == percent) ≡ true
      → match_loop (suc f) (c ∷ s) (d ∷ p) back ≡ match_loop f (c ∷ s) p (some (p, c ∷ s))
  unfolding match_loop
  match_loop_star e e' = ground arith

  match_loop-retry :
      ((d == underscore) || (d == c)) ≡ false
      → (d == percent) ≡ false
      → match_loop (suc f) (c ∷ s) (d ∷ p) back ≡ retry back (match_loop f)
  unfolding match_loop
  match_loop-retry e e' = ground arith

  like_as_byte :
      ((d == underscore) || (d == c)) ≡ true → d ≢ percent → like (d ∷ p) (c ∷ s) ≡ like p s
  unfolding like
  like_as_byte e h = ground arith

  like_as_none :
      ((d == underscore) || (d == c)) ≡ false
      → (d == percent) ≡ false
      → like (d ∷ p) (c ∷ s) ≡ false
  unfolding like
  like_as_none e h = ground arith

  like_as_star :
      (later back ≡ true → some_suffix (like (d ∷ p)) (c ∷ s) ≡ true)
      → (d == percent) ≡ true
      → (like p (c ∷ s) || later (some (p, c ∷ s))) ≡ (like (d ∷ p) (c ∷ s) || later back)
  like_as_star h e =
      later_at p (c ∷ s)
      ∙ absorb (some_suffix (like p) (c ∷ s)) (later back)
          (λ l. some_suffix_star d p (c ∷ s) e (h l))
      ∙ ap (λ b. b || later back) (sym (like_star d p (c ∷ s) e))

match_loop_lem :
    (k f : ℕ) (s p : Text) (back : Mark)
    → Inv k f s p back
    → match_loop f s p back ≡ some (like p s || later back)
unfolding match_loop like
match_loop_lem k zero s p back i = absurd (omega (arith, i.fuel))
match_loop_lem k (suc f) [] p back i = match_loop_end k f p back i
match_loop_lem k (suc f) (c ∷ s) [] back i = retry_lem k f c s [] back (match_loop_lem k f) i
match_loop_lem k (suc f) (c ∷ s) (d ∷ p) back i =
    elim (Bool-cases ((d == underscore) || (d == c))) [
      | inl e ↦
          let (nd, i') = Inv-byte k f c d s p back e i in
          match_loop_byte f c d s p back e
          ∙ match_loop_lem k f s p back i'
          ∙ ap (λ b. some (b || later back)) (sym (like_as_byte f c d s p back e nd))
      | inr e ↦ elim (Bool-cases (d == percent)) [
        | inl e' ↦
            match_loop_star f c d s p back e e'
            ∙ match_loop_lem k f (c ∷ s) p (some (p, c ∷ s)) (Inv-star k f c d s p back i)
            ∙ ap some (like_as_star f c d s p back i.covered e')
        | inr e' ↦
            match_loop-retry f c d s p back e e'
            ∙ retry_lem k f c s (d ∷ p) back (match_loop_lem k f) i
            ∙ ap (λ b. some (b || later back)) (sym (like_as_none f c d s p back e e'))
      ]
    ]

-- On a text with no `%` in it, `like_match` stops within its fuel with the pattern's answer.
pub like_match_iff_like : (s p : Text) → All (λ c. c ≢ percent) s → like_match s p ≡ some (like p s)
unfolding like_match match_fuel later
like_match_iff_like s p h =
    match_loop_lem (length p + 1) (match_fuel s p) s p none (record {
      text = h;
      fits = tt;
      short = omega arith;
      fuel = omega arith;
      covered = λ e. absurd (cc e);
    })
    ∙ ap some (ground arith)

fuel_of_percent :
    (c : ℕ) (s : Text) → match_fuel (percent ∷ c ∷ s) (percent ∷ []) ≡ suc (suc (2 * length s + 6))
unfolding match_fuel
fuel_of_percent c s = omega arith

some_suffix_end : (s : Text) → some_suffix (like []) s ≡ true
unfolding some_suffix like
some_suffix_end [] = refl
some_suffix_end (c ∷ s) = some_suffix_end s

-- On a text that begins with `%` and goes on, `like_match` refuses the pattern `%`, which every text
-- matches: the pattern's star is taken as the text's first byte.
pub like_match-percent :
    (c : ℕ) (s : Text)
    → (like_match (percent ∷ c ∷ s) (percent ∷ []) ≡ some false)
      × (like (percent ∷ []) (percent ∷ c ∷ s) ≡ true)
unfolding like_match like match_loop retry
like_match-percent c s =
    let e : match_fuel (percent ∷ c ∷ s) (percent ∷ []) ≡ suc (suc (2 * length s + 6)) =
      fuel_of_percent c s in
    (ap (λ f. match_loop f (percent ∷ c ∷ s) (percent ∷ []) none) e, some_suffix_end s)

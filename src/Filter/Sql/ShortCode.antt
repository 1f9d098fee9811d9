-- ===== src/Filter/Sql/ShortCode.antt =====
-- Control characters that have no escape of their own.
use pipe_ann.Base.{
  ℕ, zero, suc, ◌+◌, ◌-◌, ◌*◌, ◌/◌, ◌%◌, ◌≤◌, ◌<◌, ◌≡◌, refl, ap, ◌∙◌, inl, inr, Option, none, some,
  [], ◌∷◌, ◌++◌, append-nil, arith, ltb, if◌then◌else◌, Bool-cases, length,
}
use pipe_ann.Filter.Text.{Text}
use pipe_ann.Filter.Sql.Json.{hex_digits, escape_char, json_escape}
use pipe_ann.Filter.Sql.Quote.{hex_value, push_hex, read_string, IsShort}

escape_char_code : (c : ℕ) → c < 32 → ¬ IsShort c → escape_char c ≡ 92 ∷ b'u' ∷ hex_digits c
unfolding escape_char
escape_char_code c h n = ground (
  arith,
  λ (e : c ≡ 8). n (inl e),
  λ (e : c ≡ 9). n (inr (inl e)),
  λ (e : c ≡ 10). n (inr (inr (inl e))),
  λ (e : c ≡ 12). n (inr (inr (inr (inl e)))),
  λ (e : c ≡ 13). n (inr (inr (inr (inr e)))),
)

push_hex_second : (a c d : Option ℕ) (r : Option (Text × Text)) → push_hex a none c d r ≡ none
unfolding push_hex
push_hex_second none c d r = refl
push_hex_second (some a) c d r = refl

push_hex_third : (a b d : Option ℕ) (r : Option (Text × Text)) → push_hex a b none d r ≡ none
unfolding push_hex
push_hex_third none b d r = refl
push_hex_third (some a) none d r = refl
push_hex_third (some a) (some b) d r = refl

read_short_code :
    (f c : ℕ) (rest : Text) → read_string (suc f) (92 ∷ b'u' ∷ (hex_digits c ++ (34 ∷ rest))) ≡ none
unfolding read_string hex_digits
read_short_code f c rest = elim (Bool-cases (ltb c 16)) [
  | inl e ↦ rw e (push_hex_second _ _ _ _)
  | inr e ↦ rw e (push_hex_third _ _ _ _)
]

unfoldable pub then_digit : Option ℕ → (ℕ → Option ℕ) → Option ℕ
then_digit none f = none
then_digit (some v) f = f v

-- What hexadecimal digits say, after the number `n`.
unfoldable pub hex_number : ℕ → Text → Option ℕ
unfolding hex_value then_digit
hex_number n [] = some n
hex_number n (d ∷ ds) = then_digit (hex_value d) (λ v. hex_number (n * 16 + v) ds)

hex_number_one : (d v : ℕ) → hex_value d ≡ some v → hex_number 0 (d ∷ []) ≡ some v
unfolding hex_number then_digit
hex_number_one d v e = ap (λ o. then_digit o (λ v. some (0 * 16 + v))) e ∙ ap some (omega arith)

hex_number_two :
    (d e v w : ℕ)
    → hex_value d ≡ some v
    → hex_value e ≡ some w
    → hex_number 0 (d ∷ e ∷ []) ≡ some (v * 16 + w)
unfolding hex_number then_digit
hex_number_two d e v w h k =
    ap (λ o. then_digit o (λ v. hex_number (0 * 16 + v) (e ∷ []))) h
    ∙ ap (λ o. then_digit o (λ w. some ((0 * 16 + v) * 16 + w))) k
    ∙ ap some (omega arith)

digit_below_10 : (n : ℕ) → n < 10 → hex_value (b'0' + n) ≡ some n
unfolding hex_value
digit_below_10 n h = ground (arith, h)

digit_below_16 : (n : ℕ) → 10 ≤ n → n < 16 → hex_value (b'A' + (n - 10)) ≡ some n
unfolding hex_value
digit_below_16 n l h = ground (arith, l, h)

digit_value : (n : ℕ) → n < 16 → hex_value (if ltb n 10 then b'0' + n else b'A' + (n - 10)) ≡ some n
digit_value n h = elim (Bool-cases (ltb n 10)) [
  | inl e ↦ rw e (digit_below_10 n (ground (arith, e)))
  | inr e ↦ rw e (digit_below_16 n (ground (arith, e)) h)
]

hex_digits-value :
    (c : ℕ) → c < 32 → (hex_number 0 (hex_digits c) ≡ some c) × (length (hex_digits c) ≤ 2)
unfolding hex_digits
hex_digits-value c h = elim (Bool-cases (ltb c 16)) [
  | inl e ↦ rw e (hex_number_one _ c (digit_value c (ground (arith, e))), omega arith)
  | inr e ↦
      let first : c / 16 < 16 = omega (arith, h) in
      let second : c % 16 < 16 = omega arith in
      rw e (
        hex_number_two _ _ (c / 16) (c % 16) (digit_value (c / 16) first)
              (digit_value (c % 16) second)
            ∙ ap some (omega arith),
        omega arith,
      )
]

code_refused :
    (f c : ℕ) (rest : Text)
    → c < 32
    → ¬ IsShort c
    → read_string f (json_escape (c ∷ []) ++ (34 ∷ rest)) ≡ none
unfolding json_escape read_string
code_refused zero c rest h n = refl
code_refused (suc f) c rest h n =
    ap (λ t. read_string (suc f) ((t ++ []) ++ (34 ∷ rest))) (escape_char_code c h n)
    ∙ ap (λ t. read_string (suc f) (92 ∷ b'u' ∷ (t ++ (34 ∷ rest)))) (append-nil (hex_digits c))
    ∙ read_short_code f c rest

-- A control character that is no backspace, tab, newline, form feed or carriage return is written as a
-- backslash, `u`, and no more than two hexadecimal digits that say it, whatever follows it; the text of
-- this character alone is refused when it is read.
pub json_escape_short_code :
    (f c : ℕ) (s rest : Text)
    → c < 32
    → ¬ IsShort c
    → (ds : Text) × (json_escape (c ∷ s) ≡ 92 ∷ b'u' ∷ (ds ++ json_escape s))
      × (hex_number 0 ds ≡ some c)
      × (length ds ≤ 2)
      × (read_string f (json_escape (c ∷ []) ++ (34 ∷ rest)) ≡ none)
unfolding json_escape
json_escape_short_code f c s rest h n =
    let (says, short) = hex_digits-value c h in
    (
      hex_digits c,
      ap (λ t. t ++ json_escape s) (escape_char_code c h n),
      says,
      short,
      code_refused f c rest h n,
    )

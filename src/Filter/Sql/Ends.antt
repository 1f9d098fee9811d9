-- ===== src/Filter/Sql/Ends.antt =====
-- The tokens and the values of a filter expression are read within the fuel.
use pipe_ann.Base.{
  ℕ, zero, suc, ◌≤◌, ◌<◌, ◌≡◌, refl, Bool, true, false, Option, none, some, List, [], ◌∷◌, ◌++◌,
  arith, if◌then◌else◌,
}
use pipe_ann.Filter.Text.{Text}
use pipe_ann.Filter.Sql.{
  Failure, expected_literal, Result, ok, failed, bind, Tok, end_of_input, ident, number, quoted,
  lparen, rparen, lbrack, rbrack, comma, op, SqlParser,
}
use pipe_ann.Filter.Sql.Json.{SqlValue, json}
use pipe_ann.Filter.Sql.Values.{
  Parser, pure, advance, is_lbrack, is_rbrack, is_comma, expect, value_of, took, take_token,
  parse_value, separator, array_loop, parse_array_values, values_loop,
}
use pipe_ann.Filter.Sql.Sizes.{weight, size, Fits, fits, rejected, next-Fits}

-- The call ended, with less than `n` to read if it has a value.
pub data Within {A : Type 0} (n : ℕ) : Result (A × SqlParser) → Type 0 where
  at : {a : A} {q : SqlParser} → size q < n → Within n (ok (a, q))
  stopped : {e : Failure} → Within n (failed e)

module _ {A : Type 0} where
  pub Within-weaken : {m n : ℕ} {r : Result (A × SqlParser)} → m ≤ n → Within m r → Within n r
  Within-weaken h (at k) = at (omega (arith, h, k))
  Within-weaken h stopped = stopped

  pub Within-then :
      {B : Type 0} {m n : ℕ} {r : Result (A × SqlParser)}
      (f : A × SqlParser → Result (B × SqlParser))
      → Within m r
      → ((a : A) (q : SqlParser) → size q < m → Within n (f (a, q)))
      → Within n (bind r f)
  Within-then f (at {a} {q} k) g = g a q k
  Within-then f stopped g = stopped

  pub Within-if :
      {n : ℕ} (b : Bool) {r s : Result (A × SqlParser)}
      → (b ≡ true → Within n r)
      → (b ≡ false → Within n s)
      → Within n (if b then r else s)
  Within-if true p q = p refl
  Within-if false p q = q refl

-- Of two parsers, the one that runs.
pub Within-choose :
    {A : Type 0} {n : ℕ} (b : Bool) (f g : Parser A) (p : SqlParser)
    → (b ≡ true → Within n (f p))
    → (b ≡ false → Within n (g p))
    → Within n ((if b then f else g) p)
Within-choose true f g p x y = x refl
Within-choose false f g p x y = y refl

pub weight_of :
    (kind : Tok → Bool) (t : Tok) → kind end_of_input ≡ false → kind t ≡ true → weight t ≡ 1
unfolding weight
weight_of kind end_of_input h e = absurd (cc (h, e))
weight_of kind (ident s) h e = refl
weight_of kind (number s) h e = refl
weight_of kind (quoted s) h e = refl
weight_of kind lparen h e = refl
weight_of kind rparen h e = refl
weight_of kind lbrack h e = refl
weight_of kind rbrack h e = refl
weight_of kind comma h e = refl
weight_of kind (op s) h e = refl

weight-some :
    {A : Type 0} (f : Tok → Option A) (t : Tok) (a : A)
    → f end_of_input ≡ none
    → f t ≡ some a
    → weight t ≡ 1
unfolding weight
weight-some f end_of_input a h e = absurd (cc (h, e))
weight-some f (ident s) a h e = refl
weight-some f (number s) a h e = refl
weight-some f (quoted s) a h e = refl
weight-some f lparen a h e = refl
weight-some f rparen a h e = refl
weight-some f lbrack a h e = refl
weight-some f rbrack a h e = refl
weight-some f comma a h e = refl
weight-some f (op s) a h e = refl

advance_fits :
    {n : ℕ} {r : Result SqlParser} → Fits n r → Within (suc n) (bind r (λ q. ok (tt {0}, q)))
advance_fits (fits k) = at (omega (arith, k))
advance_fits rejected = stopped

pub advance-Within : (p : SqlParser) → weight p.tok ≡ 1 → Within (size p) (advance p)
unfolding advance size
advance-Within p w = Within-weaken (omega (arith, w)) (advance_fits (next-Fits p.input))

pub pure-Within : {A : Type 0} (a : A) (p : SqlParser) → Within (suc (size p)) (pure a p)
pure-Within a p = at (omega arith)

pub expect-Within :
    (kind : Tok → Bool) (p : SqlParser)
    → kind end_of_input ≡ false
    → Within (size p) (expect kind p)
unfolding expect
expect-Within kind p h =
    Within-if (kind p.tok) (λ e. advance-Within p (weight_of kind p.tok h e)) (λ e. stopped)

took-Within :
    {A : Type 0} (o : Option A) (e : Failure) (p : SqlParser)
    → ((a : A) → o ≡ some a → weight p.tok ≡ 1)
    → Within (size p) (took o e p)
unfolding took
took-Within none e p h = stopped
took-Within (some a) e p h = Within-then _ (advance-Within p (h a refl)) (λ u q k. at k)

pub take_token-Within :
    {A : Type 0} (f : Tok → Option A) (e : Failure) (p : SqlParser)
    → f end_of_input ≡ none
    → Within (size p) (take_token f e p)
unfolding take_token
take_token-Within f e p h = took-Within (f p.tok) e p (λ a s. weight-some f p.tok a h s)

pub parse_value-Within : (p : SqlParser) → Within (size p) (parse_value p)
unfolding parse_value value_of
parse_value-Within p = take_token-Within value_of expected_literal p refl

separator-Within : (first : Bool) (p : SqlParser) → Within (suc (size p)) (separator first p)
unfolding separator is_comma
separator-Within true p = pure-Within tt p
separator-Within false p = Within-weaken (omega arith) (expect-Within is_comma p refl)

array_loop-Within :
    (f : ℕ) (first : Bool) (arr : List Text) (p : SqlParser)
    → size p < f
    → Within (suc (size p)) (array_loop f first arr p)
unfolding array_loop
array_loop-Within zero first arr p h = absurd (omega arith)
array_loop-Within (suc f) first arr p h =
    Within-if (is_rbrack p.tok) (λ e. pure-Within arr p)
      (λ e.
        Within-then {m = size p} _
          (Within-then _ (separator-Within first p)
            (λ u q k. Within-weaken (omega (arith, k)) (parse_value-Within q)))
          (λ v q k.
            Within-weaken (omega (arith, k))
              (array_loop-Within f false (arr ++ (json v ∷ [])) q (omega (arith, h, k)))))

pub parse_array_values-Within :
    (f : ℕ) (p : SqlParser) → size p ≤ f → Within (size p) (parse_array_values f p)
unfolding parse_array_values is_lbrack is_rbrack
parse_array_values-Within f p h = Within-then _ (expect-Within is_lbrack p refl) (λ u q k.
    Within-then _ (array_loop-Within f true [] q (omega (arith, h, k))) (λ arr q' k'.
      Within-then _ (expect-Within is_rbrack q' refl)
        (λ u' q'' k''. at (omega (arith, k, k', k'')))))

pub values_loop-Within :
    (f : ℕ) (vals : List SqlValue) (p : SqlParser)
    → size p < f
    → Within (suc (size p)) (values_loop f vals p)
unfolding values_loop is_comma
values_loop-Within zero vals p h = absurd (omega arith)
values_loop-Within (suc f) vals p h =
    Within-if (is_comma p.tok)
      (λ e.
        Within-then {m = size p} _
          (Within-then _ (advance-Within p (weight_of is_comma p.tok refl e))
            (λ u q k. Within-weaken (omega (arith, k)) (parse_value-Within q)))
          (λ v q k.
            Within-weaken (omega (arith, k))
              (values_loop-Within f (vals ++ (v ∷ [])) q (omega (arith, h, k)))))
      (λ e. pure-Within vals p)

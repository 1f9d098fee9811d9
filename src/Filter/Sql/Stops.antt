-- ===== src/Filter/Sql/Stops.antt =====
-- The parser stops within its fuel.
use pipe_ann.Base.{
  ℕ, zero, suc, ◌+◌, ◌*◌, ◌≤◌, ◌<◌, ◌≡◌, refl, ◌≢◌, Bool, true, false, ◌&&◌, ◌||◌, List, [], ◌∷◌,
  ◌++◌, arith, if◌then◌else◌, length,
}
use pipe_ann.Filter.Text.{Text, same_bytes}
use pipe_ann.Filter.Sql.{
  codes, Failure, expected_field, expected_operator, trailing_token, Result, ok, failed,
  out_of_fuel, bind, Tok, lower, SqlParser, next,
}
use pipe_ann.Filter.Sql.Json.{SqlValue, string_value, placeholder, number_value, logical}
use pipe_ann.Filter.Sql.Values.{
  current, ident_is, is_ident, is_lparen, is_rparen, is_lbrack, is_rbrack, is_comma, ident_text,
  op_text, parse_values, compare_clause,
}
use pipe_ann.Filter.Sql.Grammar.{
  parse_between, is_function, parse_list_argument, parse_argument, parse_call, parse_negation,
  like_of, parse_like, parse_comparison, parse_condition, parse_cmp, parse_or, or_loop, parse_and,
  and_loop, parse_unary, is_end, parse_fuel, sql_to_mongo_json,
}
use pipe_ann.Filter.Sql.Sizes.{weight, size, Fits, fits, rejected, next-Fits}
use pipe_ann.Filter.Sql.Ends.{
  Within, at, stopped, Within-weaken, Within-then, Within-if, Within-choose, weight_of,
  advance-Within, pure-Within, expect-Within, take_token-Within, parse_value-Within,
  parse_array_values-Within, values_loop-Within,
}

parse_values-Within : (f : ℕ) (p : SqlParser) → size p ≤ f → Within (size p) (parse_values f p)
unfolding parse_values current is_lbrack is_rbrack
parse_values-Within f p h = Within-then _ (expect-Within is_lbrack p refl) (λ u q k.
    Within-then {m = suc (size q)} _
      (Within-choose (is_rbrack q.tok) _ _ q (λ e. pure-Within [] q)
        (λ e. Within-then {m = size q} _ (parse_value-Within q) (λ v q' k'.
          Within-weaken (omega (arith, k'))
            (values_loop-Within f (v ∷ []) q' (omega (arith, h, k, k'))))))
      (λ vals q' k'.
        Within-then _ (expect-Within is_rbrack q' refl)
          (λ u' q'' k''. at {q = q''} (omega (arith, k, k', k'')))))

ident_is-weight : (kw : Text) (t : Tok) → ident_is kw t ≡ true → weight t ≡ 1
unfolding ident_is
ident_is-weight kw t e = weight_of (ident_is kw) t refl e

parse_between-Within : (p : SqlParser) → Within (size p) (parse_between p)
unfolding parse_between current
parse_between-Within p = Within-then _ (parse_value-Within p) (λ lo q k.
    Within-then {m = size q} _
      (Within-choose (ident_is (codes "and") q.tok) _ _ q
        (λ e. advance-Within q (ident_is-weight (codes "and") q.tok e)) (λ e. stopped))
      (λ u q' k'.
        Within-then _ (parse_value-Within q')
          (λ hi q'' k''. at {q = q''} (omega (arith, k, k', k'')))))

parse_list_argument-Within :
    (f : ℕ) (p : SqlParser) → size p ≤ f → Within (size p) (parse_list_argument f p)
unfolding parse_list_argument current
parse_list_argument-Within f p h =
    Within-choose (is_ident p.tok) _ _ p (λ e. Within-then _ (parse_value-Within p) (λ v q k. at k))
      (λ e. parse_array_values-Within f p h)

parse_argument-Within :
    (f : ℕ) (name : Text) (p : SqlParser) → size p ≤ f → Within (size p) (parse_argument f name p)
unfolding parse_argument
parse_argument-Within f name p h =
    Within-choose (same_bytes name (codes "array_contains")) _ _ p
      (λ e. Within-then _ (parse_value-Within p) (λ v q k. at k))
      (λ e.
        Within-choose (same_bytes name (codes "array_contains_all")) _ _ p
          (λ e'. Within-then _ (parse_list_argument-Within f p h) (λ a q k. at k))
          (λ e'. Within-then _ (parse_list_argument-Within f p h) (λ a q k. at k)))

parse_call-Within :
    (f : ℕ) (name : Text) (p : SqlParser)
    → size p ≤ f
    → weight p.tok ≡ 1
    → Within (size p) (parse_call f name p)
unfolding parse_call ident_text is_comma is_rparen
parse_call-Within f name p h w = Within-then _ (advance-Within p w) (λ u q k.
    Within-then _ (take_token-Within ident_text expected_field q refl) (λ field q1 k1.
      Within-then _ (expect-Within is_comma q1 refl) (λ u' q2 k2.
        Within-then _ (parse_argument-Within f name q2 (omega (arith, h, k, k1, k2))) (λ body q3 k3.
          Within-then _ (expect-Within is_rparen q3 refl)
            (λ u'' q4 k4. at {q = q4} (omega (arith, k, k1, k2, k3, k4)))))))

parse_negation-Within : (p : SqlParser) → Within (suc (size p)) (parse_negation p)
unfolding parse_negation current
parse_negation-Within p =
    Within-choose (ident_is (codes "not") p.tok) _ _ p
      (λ e.
        Within-then _ (advance-Within p (ident_is-weight (codes "not") p.tok e))
          (λ u q k. at (omega (arith, k))))
      (λ e. pure-Within false p)

like_value :
    {n : ℕ} (field : Text) (v : SqlValue) (q : SqlParser)
    → size q < n
    → Within n (like_of field v q)
unfolding like_of
like_value field (string_value s) q k = at k
like_value field (placeholder s) q k = stopped
like_value field (number_value s) q k = stopped

-- A clause that is refused ends the parse.
data Answers : Result Text → Type 0 where
  answer : {n : Text} → Answers (ok n)
  refusal : {e : Failure} → Answers (failed e)

Answers-if : (b : Bool) {r s : Result Text} → Answers r → Answers s → Answers (if b then r else s)
Answers-if true x y = x
Answers-if false x y = y

compare_clause-Answers : (field o : Text) (v : SqlValue) → Answers (compare_clause field o v)
unfolding compare_clause
compare_clause-Answers field o v =
    Answers-if (same_bytes o (codes "=") || same_bytes o (codes "==")) answer (
      Answers-if (same_bytes o (codes "!=") || same_bytes o (codes "<>")) answer (
        Answers-if (same_bytes o (codes ">")) answer (
          Answers-if (same_bytes o (codes ">=")) answer (
            Answers-if (same_bytes o (codes "<")) answer
              (Answers-if (same_bytes o (codes "<=")) answer refusal)))))

clause_ends :
    {m : ℕ} {r : Result Text} (q : SqlParser)
    → size q < m
    → Answers r
    → Within m (bind r (λ n. ok (n, q)))
clause_ends q k answer = at k
clause_ends q k refusal = stopped

parse_like-Within : (field : Text) (p : SqlParser) → Within (size p) (parse_like field p)
unfolding parse_like
parse_like-Within field p = Within-then _ (parse_value-Within p) (λ v q k. like_value field v q k)

parse_comparison-Within :
    (field : Text) (p : SqlParser) → Within (size p) (parse_comparison field p)
unfolding parse_comparison op_text
parse_comparison-Within field p =
    Within-then _ (take_token-Within op_text expected_operator p refl) (λ o q k.
      Within-then _ (parse_value-Within q)
        (λ v q' k'. clause_ends q' (omega (arith, k, k')) (compare_clause-Answers field o v)))

parse_condition-Within :
    (f : ℕ) (field : Text) (p : SqlParser)
    → size p ≤ f
    → Within (size p) (parse_condition f field p)
unfolding parse_condition current
parse_condition-Within f field p h =
    Within-choose (ident_is (codes "between") p.tok) _ _ p
      (λ e.
        Within-then {m = size p} _
          (Within-then {m = size p} _ (advance-Within p (ident_is-weight (codes "between") p.tok e))
            (λ u q k. Within-weaken (omega (arith, k)) (parse_between-Within q)))
          (λ r q k. at k))
      (λ e.
        Within-choose (ident_is (codes "in") p.tok) _ _ p
          (λ e'.
            Within-then {m = size p} _
              (Within-then {m = size p} _ (advance-Within p (ident_is-weight (codes "in") p.tok e'))
                (λ u q k.
                  Within-weaken (omega (arith, k)) (parse_values-Within f q (omega (arith, h, k)))))
              (λ r q k. at k))
          (λ e'.
            Within-choose (ident_is (codes "like") p.tok) _ _ p
              (λ e''.
                Within-then _ (advance-Within p (ident_is-weight (codes "like") p.tok e''))
                  (λ u q k. Within-weaken (omega (arith, k)) (parse_like-Within field q)))
              (λ e''. parse_comparison-Within field p)))

is_lparen-weight : (t : Tok) → is_lparen t ≡ true → weight t ≡ 1
unfolding is_lparen
is_lparen-weight t e = weight_of is_lparen t refl e

and_right : (a b : Bool) → (a && b) ≡ true → b ≡ true
and_right a b e = ground arith

parse_cmp-Within : (f : ℕ) (p : SqlParser) → size p ≤ f → Within (size p) (parse_cmp f p)
unfolding parse_cmp ident_text current
parse_cmp-Within f p h =
    Within-then _ (take_token-Within ident_text expected_field p refl) (λ field q k.
      Within-choose (is_function (lower field) && is_lparen q.tok) _ _ q
        (λ e. Within-weaken (omega (arith, k)) (
          parse_call-Within f (lower field) q (omega (arith, h, k))
            (is_lparen-weight q.tok (and_right (is_function (lower field)) (is_lparen q.tok) e))))
        (λ e. Within-then _ (parse_negation-Within q) (λ negate q' k'.
          Within-then _ (parse_condition-Within f field q' (omega (arith, h, k, k')))
            (λ n q'' k''. at {q = q''} (omega (arith, k, k', k''))))))

mutual
  unfolding parse_or is_rparen

  parse_or-Within : (f : ℕ) (p : SqlParser) → 3 * size p + 3 ≤ f → Within (size p) (parse_or f p)
  parse_or-Within zero p h = absurd (omega arith)
  parse_or-Within (suc f) p h = Within-then _ (parse_and-Within f p (omega (arith, h))) (λ n q k.
      Within-weaken (omega (arith, k)) (or_loop-Within f (n ∷ []) q (omega (arith, h, k))))

  or_loop-Within :
      (f : ℕ) (nodes : List Text) (p : SqlParser)
      → 3 * size p + 1 ≤ f
      → Within (suc (size p)) (or_loop f nodes p)
  or_loop-Within zero nodes p h = absurd (omega arith)
  or_loop-Within (suc f) nodes p h =
      Within-if (ident_is (codes "or") p.tok)
        (λ e.
          Within-then {m = size p} _
            (Within-then {m = size p} _ (advance-Within p (ident_is-weight (codes "or") p.tok e))
              (λ u q k.
                Within-weaken (omega (arith, k)) (parse_and-Within f q (omega (arith, h, k)))))
            (λ n q k.
              Within-weaken (omega (arith, k))
                (or_loop-Within f (nodes ++ (n ∷ [])) q (omega (arith, h, k)))))
        (λ e. pure-Within (logical (codes "$or") nodes) p)

  parse_and-Within : (f : ℕ) (p : SqlParser) → 3 * size p + 2 ≤ f → Within (size p) (parse_and f p)
  parse_and-Within zero p h = absurd (omega arith)
  parse_and-Within (suc f) p h = Within-then _ (parse_unary-Within f p (omega (arith, h))) (λ n q k.
      Within-weaken (omega (arith, k)) (and_loop-Within f (n ∷ []) q (omega (arith, h, k))))

  and_loop-Within :
      (f : ℕ) (nodes : List Text) (p : SqlParser)
      → 3 * size p + 1 ≤ f
      → Within (suc (size p)) (and_loop f nodes p)
  and_loop-Within zero nodes p h = absurd (omega arith)
  and_loop-Within (suc f) nodes p h =
      Within-if (ident_is (codes "and") p.tok)
        (λ e.
          Within-then {m = size p} _
            (Within-then {m = size p} _ (advance-Within p (ident_is-weight (codes "and") p.tok e))
              (λ u q k.
                Within-weaken (omega (arith, k)) (parse_unary-Within f q (omega (arith, h, k)))))
            (λ n q k.
              Within-weaken (omega (arith, k))
                (and_loop-Within f (nodes ++ (n ∷ [])) q (omega (arith, h, k)))))
        (λ e. pure-Within (logical (codes "$and") nodes) p)

  parse_unary-Within :
      (f : ℕ) (p : SqlParser) → 3 * size p + 1 ≤ f → Within (size p) (parse_unary f p)
  parse_unary-Within zero p h = absurd (omega arith)
  parse_unary-Within (suc f) p h =
      Within-if (ident_is (codes "not") p.tok)
        (λ e.
          Within-then {m = size p} _
            (Within-then {m = size p} _ (advance-Within p (ident_is-weight (codes "not") p.tok e))
              (λ u q k.
                Within-weaken (omega (arith, k)) (parse_unary-Within f q (omega (arith, h, k)))))
            (λ n q k. at k))
        (λ e.
          Within-if (is_lparen p.tok)
            (λ e'.
              Within-then {m = size p} _
                (Within-then {m = size p} _ (advance-Within p (is_lparen-weight p.tok e')) (λ u q k.
                  Within-weaken (omega (arith, k)) (parse_or-Within f q (omega (arith, h, k)))))
                (λ n q k.
                  Within-then _ (expect-Within is_rparen q refl)
                    (λ u q' k'. at {q = q'} (omega (arith, k, k')))))
            (λ e'. parse_cmp-Within f p (omega (arith, h))))

if_ends : (b : Bool) (out : Text) → (if b then ok out else failed trailing_token) ≢ out_of_fuel
if_ends true out e = cc e
if_ends false out e = cc e

out_ends :
    {n : ℕ} {r : Result (Text × SqlParser)}
    → Within n r
    → bind r (λ (out, q). if is_end q.tok then ok out else failed trailing_token) ≢ out_of_fuel
out_ends (at {a} {q} k) e = if_ends (is_end q.tok) a e
out_ends stopped e = cc e

-- The parser and what it was given end: no fuel is missing.
sql-Ends :
    (r : Result SqlParser) (n f : ℕ)
    → Fits n r
    → 3 * n + 3 ≤ f
    → bind r (λ p.
      bind (parse_or f p) (λ (out, q). if is_end q.tok then ok out else failed trailing_token))
      ≢ out_of_fuel
sql-Ends r n f (fits {q} k) h e = out_ends (parse_or-Within f q (omega (arith, k, h))) e
sql-Ends r n f rejected h e = cc e

-- Every text is either parsed or refused: the fuel of `sql_to_mongo_json` is enough.
pub sql_to_mongo_json_ends : (expr : Text) → sql_to_mongo_json expr ≢ out_of_fuel
unfolding sql_to_mongo_json parse_fuel
sql_to_mongo_json_ends expr =
    sql-Ends (next expr) (length expr) (parse_fuel expr) (next-Fits expr) (omega arith)

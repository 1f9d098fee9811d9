-- ===== src/Filter/Sql/Values.antt =====
-- The values of a filter expression and the clauses that they make, of
-- `include/filter/dsl_compiler.h`.
use pipe_ann.Base.{
  ℕ, zero, suc, Bool, true, false, ◌&&◌, ◌||◌, not, Option, none, some, List, [], ◌∷◌, ◌++◌, map,
  leb, ◌==◌, if◌then◌else◌, length, get_or,
}
use pipe_ann.Filter.Ids.{has}
use pipe_ann.Filter.Text.{Text, same_bytes}
use pipe_ann.Filter.Like.{percent, underscore}
use pipe_ann.Filter.Sql.{
  codes, Failure, expected_literal, expected_punctuation, unsupported_operator, Result, ok, failed,
  out_of_fuel, bind, Tok, ident, number, quoted, lparen, rparen, lbrack, rbrack, comma, op, lower,
  SqlParser, next,
}
use pipe_ann.Filter.Sql.Json.{
  SqlValue, string_value, placeholder, number_value, json, field_clause, operator, unary_not,
  in_brackets, logical,
}

abbrev pub Parser {ℓ} : Type ℓ → Type ℓ
Parser A = SqlParser → Result (A × SqlParser)

abbrev pub pure {ℓ} : {A : Type ℓ} → A → Parser A
pure a p = ok (a, p)

abbrev pub throw {ℓ} : {A : Type ℓ} → Failure → Parser A
throw e p = failed e

module _ {ℓ κ} {A : Type ℓ} {B : Type κ} where
  infixl 1 ◌>>=◌ ◌>>◌
  abbrev pub ◌>>=◌ : Parser A → (A → Parser B) → Parser B
  p >>= f = λ s. bind (p s) λ (a, rest). f a rest

  abbrev pub ◌>>◌ : Parser A → Parser B → Parser B
  p >> q = p >>= λ _. q

-- The token that is read next, which stays.
unfoldable pub current : Parser Tok
current p = ok (p.tok, p)

-- `next()`
unfoldable pub advance : Parser (Unit {0})
advance p = bind (next p.input) λ q. ok (tt, q)

unfoldable pub ident_is : Text → Tok → Bool
unfolding lower same_bytes
ident_is kw (ident s) = same_bytes (lower s) kw
ident_is kw t = false

unfoldable pub is_ident : Tok → Bool
is_ident (ident s) = true
is_ident t = false

unfoldable pub is_lparen : Tok → Bool
is_lparen lparen = true
is_lparen t = false

unfoldable pub is_rparen : Tok → Bool
is_rparen rparen = true
is_rparen t = false

unfoldable pub is_lbrack : Tok → Bool
is_lbrack lbrack = true
is_lbrack t = false

unfoldable pub is_rbrack : Tok → Bool
is_rbrack rbrack = true
is_rbrack t = false

unfoldable pub is_comma : Tok → Bool
is_comma comma = true
is_comma t = false

unfoldable pub expect : (Tok → Bool) → Parser (Unit {0})
unfolding advance
expect kind p = if kind p.tok then advance p else failed expected_punctuation

unfoldable pub is_placeholder : Text → Bool
is_placeholder s = leb 3 (length s) && ((get_or s 0 0 == b'$') && (get_or s 1 0 == b'$'))

unfoldable pub value_of : Tok → Option SqlValue
unfolding ident_is is_placeholder
value_of (quoted s) = some (string_value s)
value_of (number s) = some (number_value s)
value_of (ident s) =
    if ident_is (codes "true") (ident s)
    then some (number_value (codes "1"))
    else if ident_is (codes "false") (ident s)
    then some (number_value (codes "0"))
    else if is_placeholder s
    then some (placeholder s)
    else none
value_of t = none

unfoldable pub took {ℓ} : {A : Type ℓ} → Option A → Failure → Parser A
unfolding advance
took none e p = failed e
took (some a) e p = (advance >> pure a) p

-- The token is read when `f` makes something of it.
unfoldable pub take_token {ℓ} : {A : Type ℓ} → (Tok → Option A) → Failure → Parser A
unfolding took
take_token f e p = took (f p.tok) e p

unfoldable pub parse_value : Parser SqlValue
unfolding take_token value_of
parse_value = take_token value_of expected_literal

unfoldable pub ident_text : Tok → Option Text
ident_text (ident s) = some s
ident_text t = none

unfoldable pub op_text : Tok → Option Text
op_text (op s) = some s
op_text t = none

-- A comma before each value but the first.
unfoldable pub separator : Bool → Parser (Unit {0})
unfolding expect is_comma
separator first = if first then pure tt else expect is_comma

-- The loop of `parse_array_values`.
unfoldable pub array_loop : ℕ → Bool → List Text → Parser (List Text)
unfolding is_rbrack separator parse_value json
array_loop zero first arr p = out_of_fuel
array_loop (suc f) first arr p =
    let more =
      (separator first >> parse_value >>= λ v. array_loop f false (arr ++ (json v ∷ []))) p in
    if is_rbrack p.tok then ok (arr, p) else more

unfoldable pub parse_array_values : ℕ → Parser Text
unfolding expect array_loop in_brackets is_lbrack is_rbrack
parse_array_values f = do
  expect is_lbrack
  arr ← array_loop f true []
  expect is_rbrack
  pure (in_brackets arr)

-- The values of `IN [...]`: none, or one and then each after a comma.
unfoldable pub values_loop : ℕ → List SqlValue → Parser (List SqlValue)
unfolding is_comma parse_value advance
values_loop zero vals p = out_of_fuel
values_loop (suc f) vals p =
    let more = (advance >> parse_value >>= λ v. values_loop f (vals ++ (v ∷ []))) p in
    if is_comma p.tok then more else ok (vals, p)

unfoldable pub parse_values : ℕ → Parser (List SqlValue)
unfolding expect values_loop is_lbrack is_rbrack parse_value current
parse_values f = do
  expect is_lbrack
  t ← current
  vals ← (if is_rbrack t then pure [] else (parse_value >>= λ v. values_loop f (v ∷ [])))
  expect is_rbrack
  pure vals

unfoldable pub is_string : SqlValue → Bool
is_string (string_value s) = true
is_string v = false

unfoldable pub all_numeric : List SqlValue → Bool
unfolding is_string
all_numeric [] = true
all_numeric (v ∷ vs) = not (is_string v) && all_numeric vs

unfoldable pub negate_if : Bool → Text → Text
unfolding unary_not
negate_if negate n = if negate then unary_not n else n

unfoldable pub in_clause : Text → List SqlValue → Text
unfolding all_numeric field_clause logical in_brackets json operator
in_clause field vals =
    if all_numeric vals
    then logical (codes "$or") (map (λ v. field_clause field (json v)) vals)
    else field_clause field (operator (codes "$in") (in_brackets (map json vals)))

-- The text but for its last character, when that is the only `%` and there is no `_`.
unfoldable pub prefix_of_like : Text → Option Text
unfolding has
prefix_of_like [] = none
prefix_of_like (c ∷ []) = if c == percent then some [] else none
prefix_of_like (c ∷ d ∷ s) = elim (prefix_of_like (d ∷ s)) [
  | none ↦ none
  | some t ↦ if (c == percent) || (c == underscore) then none else some (c ∷ t)
]

-- The text but for its first character, likewise.
unfoldable pub suffix_of_like : Text → Option Text
unfolding has
suffix_of_like [] = none
suffix_of_like (c ∷ s) =
    if (c == percent) && not (has s percent || has s underscore) then some s else none

unfoldable pub like_clause : Text → Text → Text
unfolding prefix_of_like suffix_of_like has field_clause operator json
like_clause field s = elim (prefix_of_like s) [
  | some t ↦ field_clause field (operator (codes "$prefix") (json (string_value t)))
  | none ↦ elim (suffix_of_like s) [
    | some t ↦ field_clause field (operator (codes "$suffix") (json (string_value t)))
    | none ↦
        if has s percent || has s underscore
        then field_clause field (operator (codes "$like") (json (string_value s)))
        else field_clause field (json (string_value s))
  ]
]

unfoldable pub compare_clause : Text → Text → SqlValue → Result Text
unfolding same_bytes field_clause operator json
compare_clause field o v =
    if same_bytes o (codes "=") || same_bytes o (codes "==")
    then ok (field_clause field (json v))
    else if same_bytes o (codes "!=") || same_bytes o (codes "<>")
    then ok (field_clause field (operator (codes "$ne") (json v)))
    else if same_bytes o (codes ">")
    then ok (field_clause field (operator (codes "$gt") (json v)))
    else if same_bytes o (codes ">=")
    then ok (field_clause field (operator (codes "$ge") (json v)))
    else if same_bytes o (codes "<")
    then ok (field_clause field (operator (codes "$lt") (json v)))
    else if same_bytes o (codes "<=")
    then ok (field_clause field (operator (codes "$le") (json v)))
    else failed unsupported_operator

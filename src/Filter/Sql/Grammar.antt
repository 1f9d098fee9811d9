-- ===== src/Filter/Sql/Grammar.antt =====
-- The grammar of filter expressions: the `parse_` functions of `SqlParser` and `sql_to_mongo_json`,
-- of `include/filter/dsl_compiler.h`.
use pipe_ann.Base.{
  ℕ, zero, suc, ◌+◌, ◌*◌, Bool, true, false, ◌&&◌, ◌||◌, List, [], ◌∷◌, ◌++◌, if◌then◌else◌, length,
}
use pipe_ann.Filter.Text.{Text, same_bytes}
use pipe_ann.Filter.Sql.{
  codes, expected_field, expected_and, expected_string, expected_operator, trailing_token, Result,
  ok, failed, out_of_fuel, bind, Tok, end_of_input, lower, next, skip_ws,
}
use pipe_ann.Filter.Sql.Json.{
  SqlValue, string_value, placeholder, number_value, json, field_clause, operator, unary_not,
  logical,
}
use pipe_ann.Filter.Sql.Values.{
  Parser, pure, throw, ◌>>=◌, ◌>>◌, current, advance, ident_is, is_ident, is_lparen, is_rparen,
  is_comma, expect, take_token, parse_value, ident_text, op_text, parse_array_values, parse_values,
  negate_if, in_clause, like_clause, compare_clause,
}

-- `{"$ge":lo,"$le":hi}`
unfoldable pub between_body : SqlValue → SqlValue → Text
unfolding json
between_body lo hi =
    codes "{\"$ge\":" ++ (json lo ++ (codes ",\"$le\":" ++ (json hi ++ (b'}' ∷ []))))

unfoldable pub parse_between : Parser (SqlValue × SqlValue)
unfolding parse_value current ident_is advance
parse_between = do
  lo ← parse_value
  t ← current
  if ident_is (codes "and") t then advance else throw expected_and
  hi ← parse_value
  pure (lo, hi)

unfoldable pub is_function : Text → Bool
unfolding same_bytes
is_function name =
    same_bytes name (codes "array_contains")
    || (same_bytes name (codes "array_contains_all")
        || same_bytes name (codes "array_contains_any"))

-- What stands for the second argument: a placeholder or an array.
unfoldable pub parse_list_argument : ℕ → Parser Text
unfolding current is_ident parse_value parse_array_values json
parse_list_argument f = do
  t ← current
  if is_ident t then (parse_value >>= λ v. pure (json v)) else parse_array_values f

unfoldable pub parse_argument : ℕ → Text → Parser Text
unfolding same_bytes parse_value json parse_list_argument operator
parse_argument f name =
    if same_bytes name (codes "array_contains")
    then (parse_value >>= λ v. pure (json v))
    else if same_bytes name (codes "array_contains_all")
    then (parse_list_argument f >>= λ a. pure (operator (codes "$all") a))
    else (parse_list_argument f >>= λ a. pure (operator (codes "$in") a))

-- A call, from its opening parenthesis on.
unfoldable pub parse_call : ℕ → Text → Parser Text
unfolding advance take_token ident_text expect parse_argument field_clause is_comma is_rparen
parse_call f name = do
  advance
  field ← take_token ident_text expected_field
  expect is_comma
  body ← parse_argument f name
  expect is_rparen
  pure (field_clause field body)

-- An optional `NOT` before the operator.
unfoldable pub parse_negation : Parser Bool
unfolding current ident_is advance
parse_negation = do
  t ← current
  if ident_is (codes "not") t then (advance >> pure true) else pure false

unfoldable pub like_of : Text → SqlValue → Parser Text
unfolding like_clause
like_of field (string_value s) = pure (like_clause field s)
like_of field (placeholder s) = throw expected_string
like_of field (number_value s) = throw expected_string

unfoldable pub parse_like : Text → Parser Text
unfolding parse_value like_of
parse_like field = parse_value >>= λ v. like_of field v

unfoldable pub parse_comparison : Text → Parser Text
unfolding take_token op_text parse_value compare_clause
parse_comparison field = do
  o ← take_token op_text expected_operator
  v ← parse_value
  λ p. bind (compare_clause field o v) (λ n. ok (n, p))

-- What follows a field's name and an optional `NOT`.
unfoldable pub parse_condition : ℕ → Text → Parser Text
unfolding current ident_is advance parse_between field_clause between_body parse_values in_clause
    parse_like parse_comparison
parse_condition f field = do
  t ← current
  if ident_is (codes "between") t
      then (advance >> parse_between >>= λ (lo, hi). pure (field_clause field (between_body lo hi)))
      else if ident_is (codes "in") t
      then (advance >> parse_values f >>= λ vals. pure (in_clause field vals))
      else if ident_is (codes "like") t
      then (advance >> parse_like field)
      else parse_comparison field

unfoldable pub parse_cmp : ℕ → Parser Text
unfolding take_token ident_text current is_function is_lparen lower parse_call parse_negation
    parse_condition negate_if
parse_cmp f = do
  field ← take_token ident_text expected_field
  t ← current
  if is_function (lower field) && is_lparen t
      then parse_call f (lower field)
      else (parse_negation >>= λ negate. parse_condition f field >>= λ n. pure (negate_if negate n))

-- Each call and each round costs a unit of fuel.
unfoldable mutual
  unfolding ident_is advance current logical unary_not is_lparen is_rparen expect parse_cmp

  pub parse_or : ℕ → Parser Text
  parse_or zero p = out_of_fuel
  parse_or (suc f) p = (parse_and f >>= λ n. or_loop f (n ∷ [])) p

  pub or_loop : ℕ → List Text → Parser Text
  or_loop zero nodes p = out_of_fuel
  or_loop (suc f) nodes p =
      let more = (advance >> parse_and f >>= λ n. or_loop f (nodes ++ (n ∷ []))) p in
      if ident_is (codes "or") p.tok then more else ok (logical (codes "$or") nodes, p)

  pub parse_and : ℕ → Parser Text
  parse_and zero p = out_of_fuel
  parse_and (suc f) p = (parse_unary f >>= λ n. and_loop f (n ∷ [])) p

  pub and_loop : ℕ → List Text → Parser Text
  and_loop zero nodes p = out_of_fuel
  and_loop (suc f) nodes p =
      let more = (advance >> parse_unary f >>= λ n. and_loop f (nodes ++ (n ∷ []))) p in
      if ident_is (codes "and") p.tok then more else ok (logical (codes "$and") nodes, p)

  pub parse_unary : ℕ → Parser Text
  parse_unary zero p = out_of_fuel
  parse_unary (suc f) p =
      let negated = (advance >> parse_unary f >>= λ n. pure (unary_not n)) p in
      let grouped = (advance >> parse_or f >>= λ n. expect is_rparen >> pure n) p in
      if ident_is (codes "not") p.tok
      then negated
      else if is_lparen p.tok
      then grouped
      else parse_cmp f p

unfoldable pub is_end : Tok → Bool
is_end end_of_input = true
is_end t = false

unfoldable pub parse_fuel : Text → ℕ
parse_fuel expr = 3 * length expr + 6

unfoldable pub sql_to_mongo_json : Text → Result Text
unfolding next parse_or is_end parse_fuel
sql_to_mongo_json expr = bind (next expr) λ p.
    bind (parse_or (parse_fuel expr) p)
      λ (out, q). if is_end q.tok then ok out else failed trailing_token

-- `trim_left`
unfoldable pub trim_left : Text → Text
unfolding skip_ws
trim_left s = skip_ws s

-- ===== src/Filter/Sql/Json.antt =====
-- The JSON text that the parser writes: `json_escape`, `SqlValue::json`, `field_clause`,
-- `unary_not` and `logical` of `include/filter/dsl_compiler.h`.
use pipe_ann.Base.{ℕ, ◌+◌, ◌-◌, ◌/◌, ◌%◌, List, [], ◌∷◌, ◌++◌, ltb, ◌==◌, if◌then◌else◌}
use pipe_ann.Filter.Text.{Text}
use pipe_ann.Filter.Sql.{codes}

-- `std::hex << std::uppercase << (int) c`, of a number below 32.
unfoldable pub hex_digits : ℕ → Text
hex_digits c =
    let digit = λ (n : ℕ). if ltb n 10 then b'0' + n else b'A' + (n - 10) in
    if ltb c 16 then digit c ∷ [] else digit (c / 16) ∷ digit (c % 16) ∷ []

unfoldable pub escape_char : ℕ → Text
unfolding hex_digits
escape_char c =
    if c == 34
    then 92 ∷ 34 ∷ []
    else if c == 92
    then 92 ∷ 92 ∷ []
    else if c == 8
    then 92 ∷ b'b' ∷ []
    else if c == 12
    then 92 ∷ b'f' ∷ []
    else if c == 10
    then 92 ∷ b'n' ∷ []
    else if c == 13
    then 92 ∷ b'r' ∷ []
    else if c == 9
    then 92 ∷ b't' ∷ []
    else if ltb c 32
    then 92 ∷ b'u' ∷ hex_digits c
    else c ∷ []

unfoldable pub json_escape : Text → Text
unfolding escape_char
json_escape [] = []
json_escape (c ∷ s) = escape_char c ++ json_escape s

-- `SqlValue`; a placeholder keeps its dollars.
pub data SqlValue : Type 0 where
  string_value : Text → SqlValue
  placeholder : Text → SqlValue
  number_value : Text → SqlValue

unfoldable pub in_quotes : Text → Text
unfolding json_escape
in_quotes s = 34 ∷ (json_escape s ++ (34 ∷ []))

unfoldable pub json : SqlValue → Text
unfolding in_quotes
json (string_value s) = in_quotes s
json (placeholder s) = in_quotes s
json (number_value s) = s

unfoldable pub field_clause : Text → Text → Text
unfolding in_quotes
field_clause field body = b'{' ∷ (in_quotes field ++ (b':' ∷ (body ++ (b'}' ∷ []))))

-- `{"op":body}`, as the source writes it for the operators of a field and for `$not`.
unfoldable pub operator : Text → Text → Text
operator name body = b'{' ∷ 34 ∷ (name ++ (34 ∷ b':' ∷ (body ++ (b'}' ∷ []))))

unfoldable pub unary_not : Text → Text
unfolding operator
unary_not node = operator (codes "$not") node

unfoldable pub with_commas : List Text → Text
with_commas [] = []
with_commas (n ∷ []) = n
with_commas (n ∷ m ∷ nodes) = n ++ (b',' ∷ with_commas (m ∷ nodes))

unfoldable pub in_brackets : List Text → Text
unfolding with_commas
in_brackets nodes = b'[' ∷ (with_commas nodes ++ (b']' ∷ []))

unfoldable pub logical : Text → List Text → Text
unfolding in_brackets operator
logical name (n ∷ []) = n
logical name nodes = operator name (in_brackets nodes)

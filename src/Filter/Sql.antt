-- ===== src/Filter/Sql.antt =====
-- The tokens of a filter expression: `SqlParser::next` of `include/filter/dsl_compiler.h`.
use pipe_ann.Base.{
  ℕ, zero, suc, ◌+◌, ◌-◌, ◌*◌, ◌/◌, ◌%◌, ◌^◌, ◌≤◌, ◌<◌, min, max, compare, Ordering, ◌≡◌, refl, sym,
  ap, ◌∙◌, subst, ◌≢◌, ◌↔◌, ◌⊎◌, inl, inr, Bool, true, false, ◌&&◌, ◌||◌, not, Option, none, some,
  List, [], ◌∷◌, ◌++◌, map, reverse, append-nil, append_assoc, arith, dec_lt, dec_le, ℕ_discrete,
  ltb, leb, ◌==◌, if◌then◌else◌, ltb→lt, lt→ltb, leb→le, ltb_false→le, le→ltb_false, ==→eq, ==_self,
  ne→==_false, ==_false→ne, tests, Bool-cases, Option-cases, trichotomy, All, length, get_elem?,
  get_or, set, take, drop, replicate, length-append, length-set, length-take, length-drop,
  length-replicate, take-append-drop, take_all, get_or-set_self, get_or-set_ne, get_or-take,
  memmove, All-append, All-take, All-drop, All-get_or, tally, tally-append, tally-replicate_zero,
  tally_le, All-middle, All-replicate,
}
pub mod Json
pub mod Values
pub mod Grammar
pub mod Sizes
pub mod Ends
pub mod Stops
pub mod Quote
pub mod ShortCode
pub mod Tests
use Prim.Native.Char.{code}
use Prim.Native.String.{String}
use pipe_ann.Filter.Text.{Text, same_bytes}

-- The codes of a literal of the source.
abbrev pub codes : String → Text
codes String.[] = []
codes (String.◌∷◌ c s) = code c ∷ codes s

-- What `error` throws, by its message; the position in it is left out.
pub data Failure : Type 0 where
  unterminated_string : Failure
  unexpected_character : Failure
  expected_literal : Failure
  expected_field : Failure
  expected_and : Failure
  expected_punctuation : Failure
  expected_string : Failure
  expected_operator : Failure
  unsupported_operator : Failure
  trailing_token : Failure

-- `out_of_fuel` has no counterpart in the program.
pub data Result {ℓ} (A : Type ℓ) : Type ℓ where
  ok : A → Result A
  failed : Failure → Result A
  out_of_fuel : Result A

abbrev pub bind {ℓ κ} : {A : Type ℓ} {B : Type κ} → Result A → (A → Result B) → Result B
bind (ok a) f = f a
bind (failed e) f = failed e
bind out_of_fuel f = out_of_fuel

-- `Tok`, its kind and its text.
pub data Tok : Type 0 where
  end_of_input : Tok
  ident : Text → Tok
  number : Text → Tok
  quoted : Text → Tok
  lparen : Tok
  rparen : Tok
  lbrack : Tok
  rbrack : Tok
  comma : Tok
  op : Text → Tok

-- `isspace`, `isalpha`, `isdigit`, `isalnum` and `tolower` in the C locale.
unfoldable pub is_space : ℕ → Bool
is_space c = (c == 32) || (leb 9 c && leb c 13)

unfoldable pub is_alpha : ℕ → Bool
is_alpha c = (leb b'a' c && leb c b'z') || (leb b'A' c && leb c b'Z')

unfoldable pub is_digit : ℕ → Bool
is_digit c = leb b'0' c && leb c b'9'

unfoldable pub to_lower : ℕ → ℕ
to_lower c = if leb b'A' c && leb c b'Z' then c + 32 else c

unfoldable pub lower : Text → Text
unfolding to_lower
lower s = map to_lower s

unfoldable pub skip_ws : Text → Text
unfolding is_space
skip_ws [] = []
skip_ws (c ∷ s) = let rest = skip_ws s in if is_space c then rest else c ∷ s

-- The characters up to the first that `p` refuses, and what follows.
unfoldable pub span : (ℕ → Bool) → Text → Text × Text
span p [] = ([], [])
span p (c ∷ s) = let r = span p s in if p c then (c ∷ r.0, r.1) else ([], c ∷ s)

unfoldable pub starts_ident : ℕ → Bool
unfolding is_alpha
starts_ident c = is_alpha c || ((c == b'_') || (c == b'$'))

unfoldable pub continues_ident : ℕ → Bool
unfolding is_alpha is_digit
continues_ident c = is_alpha c || (is_digit c || ((c == b'_') || ((c == b'.') || (c == b'$'))))

unfoldable pub unescape : ℕ → ℕ
unescape e = if e == b'n' then 10 else if e == b'r' then 13 else if e == b't' then 9 else e

unfoldable pub push : ℕ → Result (Text × Text) → Result (Text × Text)
push c (ok (s, rest)) = ok (c ∷ s, rest)
push c (failed e) = failed e
push c out_of_fuel = out_of_fuel

-- The characters up to the closing quote, and what follows it.
unfoldable pub lex_quoted : ℕ → Text → Result (Text × Text)
unfolding push unescape
lex_quoted quote [] = failed unterminated_string
lex_quoted quote (c ∷ []) = if c == quote then ok ([], []) else failed unterminated_string
lex_quoted quote (c ∷ e ∷ s) =
    let escaped = push (unescape e) (lex_quoted quote s) in
    let plain = push c (lex_quoted quote (e ∷ s)) in
    if c == quote then ok ([], e ∷ s) else if c == 92 then escaped else plain

-- The state of the parser: `tok`, and the input from `pos` on.
pub record SqlParser : Type 0 where
  pub tok : Tok
  pub input : Text

-- An operator takes a second character with it.
unfoldable pub lex_op : ℕ → Text → SqlParser
lex_op c [] = record { tok = op (c ∷ []); input = [] }
lex_op c (e ∷ s) =
    if (e == b'=') || ((c == b'<') && (e == b'>'))
    then record { tok = op (c ∷ e ∷ []); input = s }
    else record { tok = op (c ∷ []); input = e ∷ s }

unfoldable pub lex_punct : ℕ → Text → Result SqlParser
unfolding lex_op
lex_punct c s =
    if c == b'('
    then ok (record { tok = lparen; input = s })
    else if c == b')'
    then ok (record { tok = rparen; input = s })
    else if c == b'['
    then ok (record { tok = lbrack; input = s })
    else if c == b']'
    then ok (record { tok = rbrack; input = s })
    else if c == b','
    then ok (record { tok = comma; input = s })
    else if (c == b'=') || ((c == b'!') || ((c == b'<') || (c == b'>')))
    then ok (lex_op c s)
    else failed unexpected_character

unfoldable pub lex_at : Text → Result SqlParser
unfolding starts_ident continues_ident is_digit span lex_quoted lex_punct
lex_at [] = ok (record { tok = end_of_input; input = [] })
lex_at (c ∷ s) =
    let r = span continues_ident s in
    let n = span is_digit s in
    if starts_ident c
    then ok (record { tok = ident (c ∷ r.0); input = r.1 })
    else if is_digit c
    then ok (record { tok = number (c ∷ n.0); input = n.1 })
    else if (c == 39) || (c == 34)
    then bind (lex_quoted c s) (λ q. ok (record { tok = quoted q.0; input = q.1 }))
    else lex_punct c s

-- `next`, from the input at `pos`.
unfoldable pub next : Text → Result SqlParser
unfolding skip_ws lex_at
next input = lex_at (skip_ws input)

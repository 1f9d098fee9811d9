-- ===== src/Filter/Sql/Sizes.antt =====
-- How much of a filter expression a token takes.
use pipe_ann.Base.{
  ℕ, suc, ◌+◌, ◌≤◌, Bool, true, false, ◌||◌, [], ◌∷◌, arith, ◌==◌, if◌then◌else◌, length,
}
use pipe_ann.Filter.Text.{Text}
use pipe_ann.Filter.Sql.{
  Failure, Result, ok, failed, bind, Tok, end_of_input, ident, number, quoted, lparen, rparen,
  lbrack, rbrack, comma, op, SqlParser, next, skip_ws, span, starts_ident, continues_ident,
  is_digit, push, unescape, lex_quoted, lex_op, lex_punct, lex_at,
}

-- What is left to read: the token at hand and the characters behind it.
unfoldable pub weight : Tok → ℕ
weight end_of_input = 0
weight _ = 1

unfoldable pub size : SqlParser → ℕ
unfolding weight
size p = weight p.tok + length p.input

-- A lexer state that is no larger than the text it was read from.
pub data Fits (n : ℕ) : Result SqlParser → Type 0 where
  fits : {q : SqlParser} → size q ≤ n → Fits n (ok q)
  rejected : {e : Failure} → Fits n (failed e)

length-skip_ws : (s : Text) → length (skip_ws s) ≤ length s
unfolding skip_ws
length-skip_ws [] = omega arith
length-skip_ws (c ∷ s) = ground (arith, length-skip_ws s)

length-span : (p : ℕ → Bool) (s : Text) → length (span p s).1 ≤ length s
unfolding span
length-span p [] = omega arith
length-span p (c ∷ s) = ground (arith, length-span p s)

-- A quoted text, and less of the input than `n`.
data Quoted (n : ℕ) : Result (Text × Text) → Type 0 where
  closed : {s rest : Text} → length rest ≤ n → Quoted n (ok (s, rest))
  open_ended : {e : Failure} → Quoted n (failed e)

Quoted-push :
    {m n : ℕ} (c : ℕ) {r : Result (Text × Text)} → m ≤ n → Quoted m r → Quoted n (push c r)
unfolding push
Quoted-push c h (closed k) = closed (omega (arith, h, k))
Quoted-push c h open_ended = open_ended

Quoted-if :
    {n : ℕ} (b : Bool) {r s : Result (Text × Text)}
    → Quoted n r
    → Quoted n s
    → Quoted n (if b then r else s)
Quoted-if true p q = p
Quoted-if false p q = q

lex_quoted-Quoted : (quote : ℕ) (s : Text) → Quoted (length s) (lex_quoted quote s)
unfolding lex_quoted
lex_quoted-Quoted quote [] = open_ended
lex_quoted-Quoted quote (c ∷ []) = Quoted-if (c == quote) (closed (omega arith)) open_ended
lex_quoted-Quoted quote (c ∷ e ∷ s) = Quoted-if (c == quote) (closed (omega arith)) (
    Quoted-if (c == 92) (Quoted-push (unescape e) (omega arith) (lex_quoted-Quoted quote s))
      (Quoted-push c (omega arith) (lex_quoted-Quoted quote (e ∷ s))))

size-lex_op : (c : ℕ) (s : Text) → size (lex_op c s) ≤ suc (length s)
unfolding lex_op size weight
size-lex_op c [] = omega arith
size-lex_op c (e ∷ s) = ground arith

Fits-if :
    {n : ℕ} (b : Bool) {r s : Result SqlParser} → Fits n r → Fits n s → Fits n (if b then r else s)
Fits-if true p q = p
Fits-if false p q = q

weight_le : (t : Tok) → weight t ≤ 1
unfolding weight
weight_le end_of_input = omega arith
weight_le (ident s) = omega arith
weight_le (number s) = omega arith
weight_le (quoted s) = omega arith
weight_le lparen = omega arith
weight_le rparen = omega arith
weight_le lbrack = omega arith
weight_le rbrack = omega arith
weight_le comma = omega arith
weight_le (op s) = omega arith

Fits-token : (t : Tok) (s : Text) → Fits (suc (length s)) (ok (record { tok = t; input = s }))
unfolding size
Fits-token t s = fits (omega (arith, weight_le t))

lex_punct-Fits : (c : ℕ) (s : Text) → Fits (suc (length s)) (lex_punct c s)
unfolding lex_punct size weight
lex_punct-Fits c s = Fits-if (c == b'(') (Fits-token lparen s) (
    Fits-if (c == b')') (Fits-token rparen s) (
      Fits-if (c == b'[') (Fits-token lbrack s) (
        Fits-if (c == b']') (Fits-token rbrack s) (
          Fits-if (c == b',') (Fits-token comma s) (
            Fits-if ((c == b'=') || ((c == b'!') || ((c == b'<') || (c == b'>'))))
              (fits (size-lex_op c s)) rejected)))))

quoted-Fits :
    {n : ℕ} {r : Result (Text × Text)}
    → Quoted n r
    → Fits (suc n) (bind r (λ q. ok (record { tok = quoted q.0; input = q.1 })))
unfolding size weight
quoted-Fits (closed k) = fits (omega (arith, k))
quoted-Fits open_ended = rejected

lex_at-Fits : (s : Text) → Fits (length s) (lex_at s)
unfolding lex_at size weight
lex_at-Fits [] = fits (omega arith)
lex_at-Fits (c ∷ s) =
    Fits-if (starts_ident c) (fits (omega (arith, length-span continues_ident s))) (
      Fits-if (is_digit c) (fits (omega (arith, length-span is_digit s))) (
        Fits-if ((c == 39) || (c == 34)) (quoted-Fits (lex_quoted-Quoted c s))
          (lex_punct-Fits c s)))

Fits-weaken : {m n : ℕ} {r : Result SqlParser} → m ≤ n → Fits m r → Fits n r
Fits-weaken h (fits k) = fits (omega (arith, h, k))
Fits-weaken h rejected = rejected

pub next-Fits : (s : Text) → Fits (length s) (next s)
unfolding next
next-Fits s = Fits-weaken (length-skip_ws s) (lex_at-Fits (skip_ws s))

-- ===== src/Filter/Sql/Quote.antt =====
-- The strings that the parser writes are read back by JSON's rules.
use pipe_ann.Base.{
  ℕ, zero, suc, ◌+◌, ◌-◌, ◌*◌, ◌≤◌, ◌<◌, ◌≡◌, refl, sym, ap, ◌∙◌, subst, ◌⊎◌, inl, inr, false, ◌&&◌,
  Option, none, some, [], ◌∷◌, ◌++◌, append_assoc, arith, ltb, leb, ◌==◌, if◌then◌else◌, ==→eq,
  Bool-cases, All, length, get_or, drop,
}
use pipe_ann.Filter.Text.{Text}
use pipe_ann.Filter.Sql.Json.{escape_char, json_escape}

unfoldable pub hex_value : ℕ → Option ℕ
hex_value c =
    if leb b'0' c && leb c b'9'
    then some (c - b'0')
    else if leb b'A' c && leb c b'F'
    then some (c - b'A' + 10)
    else if leb b'a' c && leb c b'f'
    then some (c - b'a' + 10)
    else none

unfoldable pub push_char : ℕ → Option (Text × Text) → Option (Text × Text)
push_char c none = none
push_char c (some (s, rest)) = some (c ∷ s, rest)

unfoldable pub push_hex :
    Option ℕ → Option ℕ → Option ℕ → Option ℕ → Option (Text × Text) → Option (Text × Text)
unfolding push_char
push_hex (some a) (some b) (some c) (some d) r = push_char (((a * 16 + b) * 16 + c) * 16 + d) r
push_hex _ _ _ _ r = none

-- A character after a backslash, but for `u`.
unfoldable pub short_escape : ℕ → Option ℕ
short_escape c =
    if c == 34
    then some 34
    else if c == 92
    then some 92
    else if c == b'/'
    then some b'/'
    else if c == b'b'
    then some 8
    else if c == b'f'
    then some 12
    else if c == b'n'
    then some 10
    else if c == b'r'
    then some 13
    else if c == b't'
    then some 9
    else none

unfoldable pub push_short : Option ℕ → Option (Text × Text) → Option (Text × Text)
unfolding push_char
push_short none r = none
push_short (some c) r = push_char c r

-- After a backslash, with the reader of the rest.
unfoldable pub read_escape : (Text → Option (Text × Text)) → Text → Option (Text × Text)
unfolding push_hex push_short short_escape hex_value
read_escape next [] = none
read_escape next (d ∷ s) =
    if d == b'u'
    then push_hex (hex_value (get_or s 0 0)) (hex_value (get_or s 1 0)) (hex_value (get_or s 2 0))
        (hex_value (get_or s 3 0)) (next (drop 4 s))
    else push_short (short_escape d) (next s)

-- The characters of a JSON string behind its opening quote, and what follows it: a control character
-- and an unknown escape are refused, and `u` takes four digits.
unfoldable pub read_string : ℕ → Text → Option (Text × Text)
unfolding push_char read_escape
read_string zero s = none
read_string (suc f) [] = none
read_string (suc f) (c ∷ s) =
    let plain = push_char c (read_string f s) in
    if c == 34
    then some ([], s)
    else if c == 92
    then read_escape (read_string f) s
    else if ltb c 32
    then none
    else plain

-- The control characters that have an escape of their own.
abbrev pub IsShort : ℕ → Type 0
IsShort c = (c ≡ 8) ⊎ ((c ≡ 9) ⊎ ((c ≡ 10) ⊎ ((c ≡ 12) ⊎ (c ≡ 13))))

-- A printable character, or one of those.
abbrev pub IsWritable : ℕ → Type 0
IsWritable c = (32 ≤ c) ⊎ IsShort c

escape_char_printable :
    (c : ℕ) → 32 ≤ c → (c == 34) ≡ false → (c == 92) ≡ false → escape_char c ≡ c ∷ []
unfolding escape_char
escape_char_printable c h a b = ground arith

read_printable :
    (f c : ℕ) (rest : Text)
    → 32 ≤ c
    → (c == 34) ≡ false
    → (c == 92) ≡ false
    → read_string (suc f) (c ∷ rest) ≡ push_char c (read_string f rest)
unfolding read_string
read_printable f c rest h a b = ground arith

-- What is shown of one character at a time.
abbrev IsReadBack : ℕ → Text → ℕ → Type 0
IsReadBack f rest c = read_string (suc f) (escape_char c ++ rest) ≡ push_char c (read_string f rest)

read_char :
    (f c : ℕ) (rest : Text)
    → IsWritable c
    → read_string (suc f) (escape_char c ++ rest) ≡ push_char c (read_string f rest)
unfolding read_string escape_char
read_char f c rest (inl h) = elim (Bool-cases (c == 34)) [
  | inl a ↦ subst (IsReadBack f rest) (sym (==→eq c 34 a)) refl
  | inr a ↦ elim (Bool-cases (c == 92)) [
    | inl b ↦ subst (IsReadBack f rest) (sym (==→eq c 92 b)) refl
    | inr b ↦
        ap (λ t. read_string (suc f) (t ++ rest)) (escape_char_printable c h a b)
        ∙ read_printable f c rest h a b
  ]
]
read_char f c rest (inr (inl e)) = subst (IsReadBack f rest) (sym e) refl
read_char f c rest (inr (inr (inl e))) = subst (IsReadBack f rest) (sym e) refl
read_char f c rest (inr (inr (inr (inl e)))) = subst (IsReadBack f rest) (sym e) refl
read_char f c rest (inr (inr (inr (inr (inl e))))) = subst (IsReadBack f rest) (sym e) refl
read_char f c rest (inr (inr (inr (inr (inr e))))) = subst (IsReadBack f rest) (sym e) refl

-- A text of writable characters is read back from what `json_escape` writes, with its closing quote.
pub read_string-json_escape :
    (f : ℕ) (s rest : Text)
    → All IsWritable s
    → length s < f
    → read_string f (json_escape s ++ (34 ∷ rest)) ≡ some (s, rest)
unfolding json_escape push_char
read_string-json_escape zero s rest d h = absurd (omega arith)
read_string-json_escape (suc f) [] rest d h = unfold read_string in refl
read_string-json_escape (suc f) (c ∷ s) rest d h =
    ap (read_string (suc f)) (append_assoc (escape_char c) (json_escape s) (34 ∷ rest))
    ∙ read_char f c (json_escape s ++ (34 ∷ rest)) d.0
    ∙ ap (push_char c) (read_string-json_escape f s rest d.1 (omega arith))

-- ===== src/Filter/Text.antt =====
-- Text attributes: bytes packed into words, and the prefix tests on them, of
-- `include/filter/attribute.h`.
use pipe_ann.Base.{
  ℕ, zero, suc, ◌+◌, ◌-◌, ◌*◌, ◌/◌, ◌%◌, ◌≤◌, ◌<◌, compare, Ordering, ◌≡◌, refl, sym, ap, ◌∙◌, Bool,
  true, false, ◌&&◌, Option, none, some, List, [], ◌∷◌, ◌++◌, reverse, arith, leb, ◌==◌,
  if◌then◌else◌, All, length, take, drop, replicate, All-replicate,
}
use pipe_ann.Layout.Bytes.{to_bytes, from_bytes}
use pipe_ann.Filter.Attributes.{Attribute}

abbrev pub Text : Type 0
Text = List ℕ

abbrev pub IsByte : ℕ → Type 0
IsByte c = c < 256

-- `memcpy` of the bytes into n words that are zero.
unfoldable pub words_of : ℕ → Text → Attribute
unfolding from_bytes
words_of zero s = []
words_of (suc n) s = from_bytes (take 4 s) ∷ words_of n (drop 4 s)

unfoldable pub pack_string_attr : Text → Attribute
unfolding words_of
pack_string_attr s = let pad = (4 - length s % 4) % 4 in words_of ((length s + pad) / 4) s

unfoldable pub bytes_of : Attribute → Text
unfolding to_bytes
bytes_of [] = []
bytes_of (w ∷ a) = to_bytes 4 w ++ bytes_of a

-- The bytes before the first NUL.
unfoldable pub until_nul : Text → Text
until_nul [] = []
until_nul (c ∷ s) = if c == 0 then [] else c ∷ until_nul s

unfoldable pub string_attr_view : Attribute → Text
unfolding bytes_of until_nul
string_attr_view a = until_nul (bytes_of a)

unfoldable pub reverse_string_attr : Attribute → Attribute
reverse_string_attr a = pack_string_attr (reverse (string_attr_view a))

-- The byte `c`, with what the loop has made of the bytes behind it: `none` while they are all 0xFF.
unfoldable pub bump : ℕ → Option Text → Option Text
bump c none = if c == 255 then none else some ((c + 1) ∷ [])
bump c (some r) = some (c ∷ r)

-- The loop from the last byte: the last byte that is not 0xFF goes up by one and ends the text.
unfoldable pub next_bytes : Text → Option Text
unfolding bump
next_bytes [] = none
next_bytes (c ∷ s) = bump c (next_bytes s)

-- The empty attribute stands for no upper bound.
unfoldable pub bound_of : Option Text → Attribute
bound_of none = []
bound_of (some b) = pack_string_attr b

unfoldable pub next_string_attr_prefix : Attribute → Attribute
unfolding bound_of next_bytes
next_string_attr_prefix prefix = bound_of (next_bytes (string_attr_view prefix))

unfoldable pub same_bytes : Text → Text → Bool
same_bytes [] [] = true
same_bytes [] (d ∷ t) = false
same_bytes (c ∷ s) [] = false
same_bytes (c ∷ s) (d ∷ t) = (c == d) && same_bytes s t

unfoldable pub string_attr_starts_with : Attribute → Attribute → Bool
unfolding same_bytes
string_attr_starts_with s prefix =
    let sv = string_attr_view s in
    let pv = string_attr_view prefix in
    leb (length pv) (length sv) && same_bytes (take (length pv) sv) pv

unfoldable pub string_attr_ends_with : Attribute → Attribute → Bool
unfolding same_bytes
string_attr_ends_with s suffix =
    let sv = string_attr_view s in
    let pv = string_attr_view suffix in
    leb (length pv) (length sv) && same_bytes (drop (length sv - length pv) sv) pv

-- The order of texts with no NUL inside.
unfoldable pub text_less : Text → Text → Bool
text_less s [] = false
text_less [] (d ∷ t) = true
text_less (c ∷ s) (d ∷ t) = elim (compare c d) [
  | Ordering.lt ↦ true
  | Ordering.eq ↦ text_less s t
  | Ordering.gt ↦ false
]

-- `strcmp(a, b) < 0` on bytes; `none` where it reads past the end of one of them.
unfoldable pub strcmp_less : Text → Text → Option Bool
strcmp_less [] t = none
strcmp_less (c ∷ s) [] = none
strcmp_less (c ∷ s) (d ∷ t) =
    let rest = strcmp_less s t in
    elim (compare c d) [
      | Ordering.lt ↦ some true
      | Ordering.gt ↦ some false
      | Ordering.eq ↦ if c == 0 then some false else rest
    ]

-- `""` for an empty attribute.
unfoldable pub c_string : Attribute → Text
unfolding bytes_of
c_string [] = 0 ∷ []
c_string (w ∷ a) = bytes_of (w ∷ a)

unfoldable pub str_attr_less : Attribute → Attribute → Option Bool
unfolding strcmp_less c_string
str_attr_less a b = strcmp_less (c_string a) (c_string b)

-- A byte of a text that a NUL ends.
abbrev pub IsTextByte : ℕ → Type 0
IsTextByte c = (0 < c) × (c < 256)

pub to_bytes-from_bytes : (s : Text) → All IsByte s → to_bytes (length s) (from_bytes s) ≡ s
unfolding to_bytes from_bytes
to_bytes-from_bytes [] d = refl
to_bytes-from_bytes (c ∷ s) d =
    ap (λ l. l ∷ to_bytes (length s) ((c + 256 * from_bytes s) / 256)) (omega arith)
    ∙ ap (λ l. c ∷ to_bytes (length s) l) (omega arith)
    ∙ ap (◌∷◌ c) (to_bytes-from_bytes s d.1)

-- One word, whose four bytes are `q`, and then the others.
view_word :
    (n : ℕ) (q s : Text)
    → length q ≡ 4
    → All IsByte q
    → until_nul (bytes_of (from_bytes q ∷ words_of n s)) ≡ until_nul (q ++ bytes_of (words_of n s))
unfolding bytes_of
view_word n q s h d =
    ap (λ l. until_nul (l ++ bytes_of (words_of n s)))
      (ap (λ k. to_bytes k (from_bytes q)) (sym h) ∙ to_bytes-from_bytes q d)

pub zero_bytes : (n : ℕ) → All IsByte (replicate n 0)
zero_bytes n = All-replicate IsByte n 0 (omega arith)

until_nul-append :
    (p s t : Text) → until_nul s ≡ until_nul t → until_nul (p ++ s) ≡ until_nul (p ++ t)
unfolding until_nul
until_nul-append [] s t e = e
until_nul-append (c ∷ p) s t e = rw (until_nul-append p s t e) refl

view_words :
    (n : ℕ) (s : Text)
    → length s ≤ 4 * n
    → All IsByte s
    → until_nul (bytes_of (words_of n s)) ≡ until_nul s
unfolding until_nul bytes_of words_of from_bytes to_bytes
view_words zero [] h d = refl
view_words zero (c ∷ s) h d = absurd (omega arith)
view_words (suc n) [] h d = refl
view_words (suc n) (a ∷ []) h d =
    view_word n (a ∷ 0 ∷ 0 ∷ 0 ∷ []) [] refl (d.0, zero_bytes 3)
    ∙ until_nul-append (a ∷ []) (0 ∷ 0 ∷ 0 ∷ bytes_of (words_of n [])) [] refl
view_words (suc n) (a ∷ b ∷ []) h d =
    view_word n (a ∷ b ∷ 0 ∷ 0 ∷ []) [] refl (d.0, (d.1.0, zero_bytes 2))
    ∙ until_nul-append (a ∷ b ∷ []) (0 ∷ 0 ∷ bytes_of (words_of n [])) [] refl
view_words (suc n) (a ∷ b ∷ c ∷ []) h d =
    view_word n (a ∷ b ∷ c ∷ 0 ∷ []) [] refl (d.0, (d.1.0, (d.1.1.0, zero_bytes 1)))
    ∙ until_nul-append (a ∷ b ∷ c ∷ []) (0 ∷ bytes_of (words_of n [])) [] refl
view_words (suc n) (a ∷ b ∷ c ∷ e ∷ s) h d =
    let (ha, (hb, (hc, (he, hs)))) = d in
    view_word n (a ∷ b ∷ c ∷ e ∷ []) s refl (ha, (hb, (hc, (he, tt))))
    ∙ until_nul-append (a ∷ b ∷ c ∷ e ∷ []) (bytes_of (words_of n s)) s
        (view_words n s (omega arith) hs)

pub until_nul-text : (s : Text) → All IsTextByte s → until_nul s ≡ s
unfolding until_nul
until_nul-text [] d = refl
until_nul-text (c ∷ s) d = ground (arith, until_nul-text s d.1)

pub All-IsByte : (s : Text) → All IsTextByte s → All IsByte s
All-IsByte [] d = tt
All-IsByte (c ∷ s) d = (d.0.1, All-IsByte s d.1)

-- A text is read back from its words.
pub string_attr_view-pack :
    (s : Text) → All IsTextByte s → string_attr_view (pack_string_attr s) ≡ s
unfolding string_attr_view pack_string_attr
string_attr_view-pack s d = view_words _ s (omega arith) (All-IsByte s d) ∙ until_nul-text s d

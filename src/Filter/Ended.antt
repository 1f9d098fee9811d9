-- ===== src/Filter/Ended.antt =====
-- Packed texts that a NUL ends, and `strcmp` on them.
use pipe_ann.Base.{
  ℕ, zero, suc, ◌+◌, ◌-◌, ◌*◌, ◌/◌, ◌%◌, ◌<◌, ◌≡◌, refl, sym, ap, ◌∙◌, subst, ◌≢◌, ◌⊎◌, inl, inr,
  some, [], ◌∷◌, ◌++◌, arith, ◌==◌, Bool-cases, All, length,
}
use pipe_ann.Layout.Bytes.{to_bytes, from_bytes}
use pipe_ann.Filter.Attributes.{Attribute}
use pipe_ann.Filter.Text.{
  Text, IsByte, IsTextByte, words_of, pack_string_attr, bytes_of, until_nul, string_attr_view,
  text_less, strcmp_less, c_string, str_attr_less, to_bytes-from_bytes, zero_bytes,
  string_attr_view-pack, All-IsByte,
}

HasNul : Text → Type 0
HasNul [] = ⊥
HasNul (c ∷ s) = (c ≡ 0) ⊎ HasNul s

HasNul-append : (p s : Text) → HasNul s → HasNul (p ++ s)
unfolding HasNul
HasNul-append [] s h = h
HasNul-append (c ∷ p) s h = inr (HasNul-append p s h)

-- `strcmp` reads no further than the NULs, and orders the texts before them.
strcmp_less-HasNul :
    (s t : Text)
    → HasNul s
    → HasNul t
    → strcmp_less s t ≡ some (text_less (until_nul s) (until_nul t))
unfolding HasNul strcmp_less text_less until_nul
strcmp_less-HasNul [] t h k = absurd h
strcmp_less-HasNul (c ∷ s) [] h k = absurd k
strcmp_less-HasNul (c ∷ s) (d ∷ t) h k = elim (Bool-cases (c == 0)) [
  | inl e ↦ ground (arith, e)
  | inr e ↦ elim (Bool-cases (d == 0)) [
    | inl f ↦ ground (arith, e, f)
    | inr f ↦
        let hs : HasNul s = elim h [ inl z ↦ absurd (ground (arith, z, e)) | inr x ↦ x ] in
        let ht : HasNul t = elim k [ inl z ↦ absurd (ground (arith, z, f)) | inr x ↦ x ] in
        ground (arith, e, f, strcmp_less-HasNul s t hs ht)
  ]
]

-- One word, of the bytes `q`.
word_HasNul :
    (q : Text) (rest : Text)
    → length q ≡ 4
    → All IsByte q
    → HasNul (q ++ rest)
    → HasNul (to_bytes 4 (from_bytes q) ++ rest)
word_HasNul q rest h d n =
    subst (λ l. HasNul (l ++ rest))
      (sym (ap (λ k. to_bytes k (from_bytes q)) (sym h) ∙ to_bytes-from_bytes q d)) n

words_of-HasNul :
    (n : ℕ) (s : Text) → length s < 4 * n → All IsByte s → HasNul (bytes_of (words_of n s))
unfolding HasNul bytes_of words_of from_bytes to_bytes
words_of-HasNul zero s h d = absurd (omega (arith, h))
words_of-HasNul (suc n) [] h d = inl refl
words_of-HasNul (suc n) (a ∷ []) h d =
    word_HasNul (a ∷ 0 ∷ 0 ∷ 0 ∷ []) (bytes_of (words_of n [])) refl (d.0, zero_bytes 3)
      (inr (inl refl))
words_of-HasNul (suc n) (a ∷ b ∷ []) h d =
    word_HasNul (a ∷ b ∷ 0 ∷ 0 ∷ []) (bytes_of (words_of n [])) refl (d.0, (d.1.0, zero_bytes 2))
      (inr (inr (inl refl)))
words_of-HasNul (suc n) (a ∷ b ∷ c ∷ []) h d =
    word_HasNul (a ∷ b ∷ c ∷ 0 ∷ []) (bytes_of (words_of n [])) refl
      (d.0, (d.1.0, (d.1.1.0, zero_bytes 1))) (inr (inr (inr (inl refl))))
words_of-HasNul (suc n) (a ∷ b ∷ c ∷ e ∷ s) h d =
    let (ha, (hb, (hc, (he, hs)))) = d in
    HasNul-append (to_bytes 4 (from_bytes (a ∷ b ∷ c ∷ e ∷ []))) (bytes_of (words_of n s))
      (words_of-HasNul n s (omega (arith, h)) hs)

-- The packed text has room for a NUL: its length is no multiple of four, or it is empty, which the
-- code takes for `""`.
abbrev pub IsEnded : Text → Type 0
IsEnded s = (s ≡ []) ⊎ (length s % 4 ≢ 0)

until_nul-c_string : (a : Attribute) → until_nul (c_string a) ≡ string_attr_view a
unfolding c_string string_attr_view until_nul bytes_of
until_nul-c_string [] = refl
until_nul-c_string (w ∷ a) = refl

c_string-HasNul : (a : Attribute) → HasNul (bytes_of a) → HasNul (c_string a)
unfolding c_string bytes_of HasNul
c_string-HasNul [] h = inl refl
c_string-HasNul (w ∷ a) h = h

empty_HasNul : HasNul (c_string (pack_string_attr []))
unfolding HasNul c_string pack_string_attr words_of
empty_HasNul = inl refl

IsEnded-HasNul : (s : Text) → All IsByte s → IsEnded s → HasNul (c_string (pack_string_attr s))
unfolding pack_string_attr
IsEnded-HasNul s d (inl e) =
    subst (λ t. HasNul (c_string (pack_string_attr t))) (sym e) empty_HasNul
IsEnded-HasNul s d (inr n) =
    c_string-HasNul _
      (words_of-HasNul ((length s + (4 - length s % 4) % 4) / 4) s (ground (arith, n)) d)

-- On packed texts that a NUL ends, the comparison is that of the texts.
pub str_attr_less-pack :
    (s t : Text)
    → All IsTextByte s
    → All IsTextByte t
    → IsEnded s
    → IsEnded t
    → str_attr_less (pack_string_attr s) (pack_string_attr t) ≡ some (text_less s t)
unfolding str_attr_less
str_attr_less-pack s t ds dt es et =
    let a = pack_string_attr s in
    let b = pack_string_attr t in
    strcmp_less-HasNul (c_string a) (c_string b) (IsEnded-HasNul s (All-IsByte s ds) es)
      (IsEnded-HasNul t (All-IsByte t dt) et)
    ∙ ap (λ l. some (text_less l (until_nul (c_string b))))
        (until_nul-c_string a ∙ string_attr_view-pack s ds)
    ∙ ap (λ l. some (text_less s l)) (until_nul-c_string b ∙ string_attr_view-pack t dt)

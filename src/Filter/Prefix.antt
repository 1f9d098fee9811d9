-- ===== src/Filter/Prefix.antt =====
-- The texts with a given prefix are a range in the order of `strcmp`.
use pipe_ann.Base.{
  ℕ, suc, ◌+◌, ◌-◌, ◌/◌, ◌%◌, ◌<◌, ◌≡◌, refl, sym, ap, ◌∙◌, inl, inr, Bool, true, false, ◌&&◌, not,
  Option, none, some, [], ◌∷◌, arith, leb, ◌==◌, Option-cases, All, length, take, if◌then◌else◌,
}
use pipe_ann.Filter.Attributes.{Attribute}
use pipe_ann.Filter.Ended.{IsEnded, str_attr_less-pack}
use pipe_ann.Filter.Text.{
  words_of, Text, IsByte, IsTextByte, pack_string_attr, bump, next_bytes, bound_of,
  next_string_attr_prefix, same_bytes, string_attr_starts_with, text_less, str_attr_less,
  string_attr_view-pack, All-IsByte,
}

-- `p` is a prefix of `t`, byte by byte.
starts : Text → Text → Bool
starts [] t = true
starts (c ∷ p) [] = false
starts (c ∷ p) (d ∷ t) = (c == d) && starts p t

below : Text → Option Text → Bool
below t none = true
below t (some b) = text_less t b

starts_step :
    (p t : Text) → (leb (length p) (length t) && same_bytes (take (length p) t) p) ≡ starts p t
unfolding starts same_bytes
starts_step [] t = ground arith
starts_step (c ∷ p) [] = ground arith
starts_step (c ∷ p) (d ∷ t) = ground (arith, starts_step p t)

starts_range :
    (p t : Text) → All IsByte t → starts p t ≡ (not (text_less t p) && below t (next_bytes p))
unfolding starts below text_less next_bytes
starts_range [] t d = refl
starts_range (c ∷ p) [] d = refl
starts_range (c ∷ p) (e ∷ t) d =
    let ih = starts_range p t d.1 in
    elim (Option-cases (next_bytes p)) [
      | inl n ↦ rw n (ground (arith, rw n at ih))
      | inr (r, n) ↦ rw n (ground (arith, rw n at ih))
    ]

-- A text that can be packed and is not empty.
abbrev IsBound : Option Text → Type 0
IsBound none = Unit
IsBound (some b) = All IsTextByte b × (0 < length b)

bump-IsBound : (c : ℕ) (o : Option Text) → IsTextByte c → IsBound o → IsBound (bump c o)
unfolding bump
bump-IsBound c none d h = ground arith
bump-IsBound c (some r) d h = ((d, h.0), omega arith)

next_bytes-IsBound : (p : Text) → All IsTextByte p → IsBound (next_bytes p)
unfolding next_bytes
next_bytes-IsBound [] d = tt
next_bytes-IsBound (c ∷ p) d = bump-IsBound c (next_bytes p) d.0 (next_bytes-IsBound p d.1)

pub is_empty : Attribute → Bool
is_empty [] = true
is_empty (w ∷ a) = false

in_bound : Attribute → Attribute → Option Bool
unfolding str_attr_less is_empty
in_bound key hi = if is_empty hi then some true else str_attr_less key hi

unless : Option Bool → Option Bool → Option Bool
unless none o = none
unless (some true) o = some false
unless (some false) o = o

-- What `StringAttrIndex::pre_filter` keeps of the texts in its range, [`lo`, the next prefix).
unfoldable pub in_prefix_range : Attribute → Attribute → Option Bool
unfolding str_attr_less next_string_attr_prefix unless in_bound
in_prefix_range key lo = unless (str_attr_less key lo) (in_bound key (next_string_attr_prefix lo))

starts_with-pack :
    (key prefix : Text)
    → All IsTextByte key
    → All IsTextByte prefix
    → string_attr_starts_with (pack_string_attr key) (pack_string_attr prefix) ≡ starts prefix key
unfolding string_attr_starts_with
starts_with-pack key prefix dk dp =
    rw (string_attr_view-pack key dk, string_attr_view-pack prefix dp) (starts_step prefix key)

is_empty-pack : (b : Text) → 0 < length b → is_empty (pack_string_attr b) ≡ false
unfolding is_empty pack_string_attr words_of
is_empty-pack b h =
    let e : (length b + (4 - length b % 4) % 4) / 4
        ≡ suc ((length b + (4 - length b % 4) % 4) / 4 - 1) =
      omega arith in
    rw e refl

-- The upper bound, where there is one, is packed with a NUL.
abbrev pub IsEndedBound : Option Text → Type 0
IsEndedBound none = Unit
IsEndedBound (some b) = IsEnded b

in_bound_lem :
    (key : Text) (o : Option Text)
    → All IsTextByte key
    → IsEnded key
    → IsBound o
    → IsEndedBound o
    → in_bound (pack_string_attr key) (bound_of o) ≡ some (below key o)
unfolding in_bound bound_of below is_empty
in_bound_lem key none dk ek h eh = refl
in_bound_lem key (some b) dk ek h eh =
    rw (is_empty-pack b h.1) (str_attr_less-pack key b dk h.0 ek eh)

unless-some : (a b : Bool) → unless (some a) (some b) ≡ some (not a && b)
unfolding unless
unless-some true b = refl
unless-some false b = refl

-- For a text and a prefix with no NUL inside: where the packed text, the packed prefix and the packed
-- upper bound, if there is one, end with a NUL, the comparisons read no further, and the text is in the
-- range of the prefix exactly when it starts with it.
pub in_prefix_range-starts_with :
    (key prefix : Text)
    → All IsTextByte key
    → All IsTextByte prefix
    → IsEnded key
    → IsEnded prefix
    → IsEndedBound (next_bytes prefix)
    → in_prefix_range (pack_string_attr key) (pack_string_attr prefix)
      ≡ some (string_attr_starts_with (pack_string_attr key) (pack_string_attr prefix))
unfolding in_prefix_range next_string_attr_prefix
in_prefix_range-starts_with key prefix dk dp ek ep eb =
    let k = pack_string_attr key in
    let p = pack_string_attr prefix in
    let next = next_bytes prefix in
    ap (λ v. unless (str_attr_less k p) (in_bound k (bound_of (next_bytes v))))
      (string_attr_view-pack prefix dp)
    ∙ ap (λ o. unless o (in_bound k (bound_of next))) (str_attr_less-pack key prefix dk dp ek ep)
    ∙ ap (unless (some (text_less key prefix)))
        (in_bound_lem key next dk ek (next_bytes-IsBound prefix dp) eb)
    ∙ unless-some (text_less key prefix) (below key next)
    ∙ ap some (
        sym (starts_range prefix key (All-IsByte key dk)) ∙ sym (starts_with-pack key prefix dk dp))

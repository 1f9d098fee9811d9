-- ===== src/Filter/Like.antt =====
-- `LIKE` patterns: `StringAttrIndex::like_match` and the fixed ends of a pattern, of
-- `include/filter/attribute.h`.
pub mod Loop
use pipe_ann.Base.{
  ℕ, zero, suc, ◌+◌, ◌-◌, ◌*◌, ◌/◌, ◌%◌, ◌^◌, ◌≤◌, ◌<◌, min, max, compare, Ordering, ◌≡◌, refl, sym,
  ap, ◌∙◌, subst, ◌≢◌, ◌↔◌, ◌⊎◌, inl, inr, Bool, true, false, ◌&&◌, ◌||◌, not, Option, none, some,
  List, [], ◌∷◌, ◌++◌, map, reverse, append-nil, append_assoc, arith, dec_lt, dec_le, ℕ_discrete,
  ltb, leb, ◌==◌, if◌then◌else◌, ltb→lt, lt→ltb, leb→le, ltb_false→le, le→ltb_false, ==→eq, ==_self,
  ne→==_false, ==_false→ne, tests, Bool-cases, Option-cases, trichotomy, All, length, get_elem?,
  get_or, set, take, drop, replicate, length-append, length-set, length-take, length-drop,
  length-replicate, take-append-drop, take_all, get_or-set_self, get_or-set_ne, get_or-take,
  memmove, All-append, All-take, All-drop, All-get_or, tally, tally-append, tally-replicate_zero,
  tally_le, All-middle, All-replicate,
}
use pipe_ann.Filter.Attributes.{Attribute}
use pipe_ann.Filter.Text.{Text, string_attr_view, pack_string_attr}

abbrev pub percent : ℕ
percent = b'%'

abbrev pub underscore : ℕ
underscore = b'_'

-- `star` and `mark`: what of the pattern follows the last star, and the text from its mark on.
abbrev pub Mark : Type 0
Mark = Option (Text × Text)

pub only_stars : Text → Bool
only_stars [] = true
only_stars (d ∷ p) = (d == percent) && only_stars p

-- What is left of the text and of the pattern, `s[i..]` and `p[j..]`, and the mark. `none` is the
-- end of the fuel.
pub retry : Mark → (Text → Text → Mark → Option Bool) → Option Bool
retry none next = some false
retry (some (bp, m)) next = next (drop 1 m) bp (some (bp, drop 1 m))

pub match_loop : ℕ → Text → Text → Mark → Option Bool
unfolding retry only_stars
match_loop zero s p back = none
match_loop (suc f) [] p back = some (only_stars p)
match_loop (suc f) (c ∷ s) [] back = retry back (match_loop f)
match_loop (suc f) (c ∷ s) (d ∷ p) back = elim ((d == underscore) || (d == c)) [
  | true ↦ match_loop f s p back
  | false ↦ elim (d == percent) [
    | true ↦ match_loop f (c ∷ s) p (some (p, c ∷ s))
    | false ↦ retry back (match_loop f)
  ]
]

unfoldable pub match_fuel : Text → Text → ℕ
match_fuel s p = (length s + 2) * (length p + 1)

unfoldable pub like_match : Text → Text → Option Bool
unfolding match_loop match_fuel
like_match s p = match_loop (match_fuel s p) s p none

pub some_suffix : (Text → Bool) → Text → Bool
some_suffix f [] = f []
some_suffix f (c ∷ s) = f (c ∷ s) || some_suffix f s

pub like_byte : ℕ → (Text → Bool) → Text → Bool
like_byte d f [] = false
like_byte d f (c ∷ s) = ((d == underscore) || (d == c)) && f s

-- What a pattern means: `%` stands for any text, `_` for any byte, and a byte for itself.
unfoldable pub like : Text → Text → Bool
unfolding some_suffix like_byte
like [] [] = true
like [] (c ∷ s) = false
like (d ∷ p) s = if d == percent then some_suffix (like p) s else like_byte d (like p) s

-- The bytes before the first wildcard.
unfoldable pub fixed_prefix : Text → Text
fixed_prefix [] = []
fixed_prefix (c ∷ p) = if (c == percent) || (c == underscore) then [] else c ∷ fixed_prefix p

unfoldable pub like_fixed_prefix : Attribute → Attribute
unfolding fixed_prefix
like_fixed_prefix pattern = pack_string_attr (fixed_prefix (string_attr_view pattern))

has_wildcard : Text → Bool
has_wildcard [] = false
has_wildcard (c ∷ p) = (c == percent) || ((c == underscore) || has_wildcard p)

-- The bytes after the last wildcard: the loop from the last byte.
unfoldable pub fixed_suffix : Text → Text
unfolding has_wildcard
fixed_suffix [] = []
fixed_suffix (c ∷ p) =
    let rest = fixed_suffix p in
    if has_wildcard p || ((c == percent) || (c == underscore)) then rest else c ∷ p

unfoldable pub like_fixed_suffix : Attribute → Attribute
unfolding fixed_suffix
like_fixed_suffix pattern = pack_string_attr (fixed_suffix (string_attr_view pattern))

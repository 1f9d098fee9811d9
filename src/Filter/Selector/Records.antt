-- ===== src/Filter/Selector/Records.antt =====
-- The records of a text query: `for_each_record` of `include/filter/selector.h` and
-- `append_record` of `include/filter/dsl_compiler.h`.
use pipe_ann.Base.{
  ℕ, zero, suc, ◌%◌, ◌^◌, ◌≤◌, ◌≡◌, refl, sym, ap, ◌∙◌, List, [], ◌∷◌, ◌++◌, append-nil,
  append_assoc, arith, ltb, if◌then◌else◌, le→ltb_false, All, length, take, drop, length-append,
  length-drop,
}
use pipe_ann.Filter.Attributes.{Attribute, IsWord}

-- The loop, on fuel: each round takes at least the length of a record.
records_from : ℕ → Attribute → List Attribute
records_from zero q = []
records_from (suc f) [] = []
records_from (suc f) (rec_len ∷ q) =
    let rest = records_from f (drop rec_len q) in
    if ltb (length q) rec_len then [] else take rec_len q ∷ rest

-- The records that `for_each_record` calls its function on, in order.
unfoldable pub records : Attribute → List Attribute
unfolding records_from
records q = records_from (length q) q

unfoldable pub append_record : Attribute → Attribute → Attribute
append_record dest bare = dest ++ ((length bare % 2 ^ 32) ∷ bare)

-- The query of several texts: `append_record` in a loop from an empty attribute.
unfoldable pub append_records : Attribute → List Attribute → Attribute
unfolding append_record
append_records dest [] = dest
append_records dest (bare ∷ bares) = append_records (append_record dest bare) bares

-- A longer fuel changes nothing.
records_from_enough :
    (f g : ℕ) (q : Attribute) → length q ≤ f → length q ≤ g → records_from f q ≡ records_from g q
unfolding records_from
records_from_enough zero zero q h k = refl
records_from_enough zero (suc g) [] h k = refl
records_from_enough zero (suc g) (n ∷ q) h k = absurd (omega arith)
records_from_enough (suc f) zero [] h k = refl
records_from_enough (suc f) zero (n ∷ q) h k = absurd (omega arith)
records_from_enough (suc f) (suc g) [] h k = refl
records_from_enough (suc f) (suc g) (n ∷ q) h k = ground (
  arith,
  records_from_enough f g (drop n q) (omega (arith, length-drop n q))
      (omega (arith, length-drop n q)),
)

take_append : (xs ys : Attribute) → take (length xs) (xs ++ ys) ≡ xs
take_append [] ys = refl
take_append (x ∷ xs) ys = ap (◌∷◌ x) (take_append xs ys)

drop_append : (xs ys : Attribute) → drop (length xs) (xs ++ ys) ≡ ys
drop_append [] ys = refl
drop_append (x ∷ xs) ys = drop_append xs ys

records_cons :
    (r q : Attribute) → IsWord (length r) → records ((length r % 2 ^ 32) ∷ (r ++ q)) ≡ r ∷ records q
unfolding records records_from
records_cons r q h =
    let e : length r % 2 ^ 32 ≡ length r = omega arith in
    rw
      (
        e,
        le→ltb_false (length (r ++ q)) (length r) (omega (arith, length-append r q)),
        take_append r q,
        drop_append r q,
      )
      (ap (◌∷◌ r) (
        records_from_enough (length (r ++ q)) (length q) q (omega (arith, length-append r q))
          (omega arith)))

-- The words of a list of records.
record_words : List Attribute → Attribute
record_words [] = []
record_words (r ∷ rs) = (length r % 2 ^ 32) ∷ (r ++ record_words rs)

append_records_lem :
    (dest : Attribute) (rs : List Attribute) → append_records dest rs ≡ dest ++ record_words rs
unfolding append_records append_record record_words
append_records_lem dest [] = sym (append-nil dest)
append_records_lem dest (r ∷ rs) =
    append_records_lem (dest ++ ((length r % 2 ^ 32) ∷ r)) rs
    ∙ append_assoc dest ((length r % 2 ^ 32) ∷ r) (record_words rs)

records-record_words :
    (rs : List Attribute) → All (λ r. IsWord (length r)) rs → records (record_words rs) ≡ rs
unfolding record_words
records-record_words [] h = unfold records records_from in refl
records-record_words (r ∷ rs) h =
    records_cons r (record_words rs) h.0 ∙ ap (◌∷◌ r) (records-record_words rs h.1)

-- The records that a query was made of are the ones that its selector reads.
pub records-append_records :
    (rs : List Attribute) → All (λ r. IsWord (length r)) rs → records (append_records [] rs) ≡ rs
records-append_records rs h = ap records (append_records_lem [] rs) ∙ records-record_words rs h

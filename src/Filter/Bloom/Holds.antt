-- ===== src/Filter/Bloom/Holds.antt =====
-- What is added to a bloom filter stays in it.
use pipe_ann.Base.{
  ℕ, zero, suc, ◌*◌, ◌/◌, ◌%◌, ◌^◌, ◌≤◌, ◌<◌, ◌≡◌, refl, ap, ◌∙◌, subst, ◌⊎◌, inl, inr, true, false,
  Option, some, List, [], ◌∷◌, arith, ◌==◌, ==→eq, ne→==_false, Bool-cases, Option-cases, length,
}
use native.Mathlib.Nat.{mod-lt}
use pipe_ann.Filter.Ids.{has}
use pipe_ann.Filter.Bloom.{
  BloomFilter, filter_bits, num_hash_functions, place_of, test_at, chain, add, if_set,
  contains_rounds, contains, add_all,
}
use pipe_ann.Filter.Bloom.Rounds.{AreSet, AreSet-Keeps, contains_rounds-AreSet, add_rounds-Added}

-- The size of a filter that the code can use: not empty, its bits counted in 32 bits, and within
-- its bytes.
abbrev pub IsFilter : BloomFilter → Type 0
IsFilter f = (0 < f.size) × ((f.size < 2 ^ 29) × (f.size ≤ length f.bytes))

filter_bits_lem : (f : BloomFilter) → IsFilter f → filter_bits f.size ≡ f.size * 8
unfolding filter_bits
filter_bits_lem f h = omega (arith, h.1.0)

byte_of_bit : (x s n : ℕ) → 0 < s → s ≤ n → x % (s * 8) < s * 8 → x % (s * 8) / 8 < n
byte_of_bit x s n p l h = omega (arith, l, h)

pub place_of-bound :
    (f : BloomFilter) (label j : ℕ)
    → IsFilter f
    → place_of (filter_bits f.size) label j / 8 < length f.bytes
unfolding place_of
place_of-bound f label j h =
    rw (filter_bits_lem f h)
      (byte_of_bit _ f.size (length f.bytes) h.0 h.1.1 (mod-lt _ (omega (arith, h.0))))

rounds_AreSet :
    (n i : ℕ) (place : ℕ → ℕ) (d : List ℕ)
    → contains_rounds n i place d ≡ some true
    → AreSet n i place d
unfolding AreSet contains_rounds if_set
rounds_AreSet zero i place d h = tt
rounds_AreSet (suc n) i place d h = elim (Option-cases (test_at d (place i / 8) (place i % 8))) [
  | inl e ↦ absurd (let g = rw e at h in cc g)
  | inr (b, e) ↦ elim (Bool-cases b) [
    | inl t ↦ (e ∙ ap some t, rounds_AreSet n (suc i) place d (rw (e, t) at h))
    | inr t ↦ absurd (let g = rw (e, t) at h in cc g)
  ]
]

Holds : BloomFilter → ℕ → Type 0
Holds f label = AreSet (num_hash_functions f.size) 0 (place_of (filter_bits f.size) label) f.bytes

module _ (f : BloomFilter) (h : IsFilter f) where
  pub has_bits : (filter_bits f.size == 0) ≡ false
  has_bits = ne→==_false _ _ (λ e. omega (arith, e, filter_bits_lem f h, h.0))

  contains-Holds : (label : ℕ) → Holds f label → contains f label ≡ some true
  unfolding Holds contains
  contains-Holds label s = rw has_bits (
      contains_rounds-AreSet (num_hash_functions f.size) 0 (place_of (filter_bits f.size) label)
        f.bytes s)

  Holds-contains : (label : ℕ) → contains f label ≡ some true → Holds f label
  unfolding Holds contains
  Holds-contains label s =
      rounds_AreSet (num_hash_functions f.size) 0 (place_of (filter_bits f.size) label) f.bytes
        (rw has_bits at s)

-- `o` is a filter that holds what `f` held, and the labels in `labels`.
record AddedTo (f : BloomFilter) (labels : List ℕ) (o : Option BloomFilter) : Type 0 where
  out : BloomFilter
  eq : o ≡ some out
  filter : IsFilter out
  kept : (l : ℕ) → Holds f l → Holds out l
  held : (l : ℕ) → has labels l ≡ true → Holds out l

add-AddedTo : (f : BloomFilter) (label : ℕ) → IsFilter f → AddedTo f (label ∷ []) (add f label)
unfolding Holds add chain has
add-AddedTo f label h =
    let place = place_of (filter_bits f.size) in
    let r =
      add_rounds-Added (num_hash_functions f.size) 0 (place label) f.bytes
        (λ j. place_of-bound f label j h) in
    record {
      out = record { bytes = r.out; size = f.size };
      eq = rw (has_bits f h, r.eq) refl;
      filter = (h.0, (h.1.0, rw r.same_size h.1.1));
      kept = λ l s. AreSet-Keeps (num_hash_functions f.size) 0 (place l) f.bytes r.out r.keeps s;
      held = λ l m. elim (Bool-cases (label == l)) [
        | inl e ↦
            subst (λ x. AreSet (num_hash_functions f.size) 0 (place x) r.out) (==→eq label l e)
              r.bits
        | inr e ↦ absurd (let g = rw e at m in cc g)
      ];
    }

add_all-AddedTo :
    (labels : List ℕ) (f : BloomFilter) → IsFilter f → AddedTo f labels (add_all labels f)
unfolding add_all chain has
add_all-AddedTo [] f h = record {
  out = f;
  eq = refl;
  filter = h;
  kept = λ l s. s;
  held = λ l m. absurd (cc m);
}
add_all-AddedTo (label ∷ labels) f h =
    let one = add-AddedTo f label h in
    let rest = add_all-AddedTo labels one.out one.filter in
    record {
      out = rest.out;
      eq = rw one.eq rest.eq;
      filter = rest.filter;
      kept = λ l s. rest.kept l (one.kept l s);
      held = λ l m. elim (Bool-cases (label == l)) [
        | inl e ↦ rest.kept l (one.held l (rw e refl))
        | inr e ↦ rest.held l (rw e at m)
      ];
    }

-- A bloom filter of 1 to 2 ^ 29 - 1 bytes takes any labels without a failure, and then answers
-- yes for each of them and for every label for which it answered yes before.
pub contains-add_all :
    (labels : List ℕ) (f : BloomFilter) (l : ℕ)
    → IsFilter f
    → (has labels l ≡ true) ⊎ (contains f l ≡ some true)
    → chain (add_all labels f) (λ g. contains g l) ≡ some true
unfolding chain
contains-add_all labels f l h (inl m) =
    let r = add_all-AddedTo labels f h in rw r.eq (contains-Holds r.out r.filter l (r.held l m))
contains-add_all labels f l h (inr s) =
    let r = add_all-AddedTo labels f h in
    rw r.eq (contains-Holds r.out r.filter l (r.kept l (Holds-contains f h l s)))

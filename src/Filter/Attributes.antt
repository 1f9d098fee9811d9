-- ===== src/Filter/Attributes.antt =====
-- The attributes of a vector or of a query, and their bytes in a record: `Attributes` of
-- `include/filter/attribute.h`.
use pipe_ann.Base.{
  ℕ, zero, suc, ◌+◌, ◌*◌, ◌%◌, ◌^◌, ◌<◌, ◌≡◌, refl, ap, ◌∙◌, Bool, false, ◌||◌, Option, none, some,
  List, [], ◌∷◌, ◌++◌, append-nil, append_assoc, arith, ◌==◌, if◌then◌else◌, All, length,
  length-append,
}
use native.Mathlib.Nat.{mod-eq_of_lt}
use pipe_ann.Layout.Bytes.{to_bytes, then_read, length-to_bytes, then_read-to_bytes}

-- `std::vector<uint32_t>`
abbrev pub Attribute : Type 0
Attribute = List ℕ

-- `std::unordered_map<uint32_t, Attribute>`, its entries in the order of an iteration.
abbrev pub Attributes : Type 0
Attributes = List (ℕ × Attribute)

unfoldable pub find : Attributes → ℕ → Bool
find [] key = false
find ((k, a) ∷ m) key = (k == key) || find m key

-- `attrs_.at(key)`, which throws on a missing key.
unfoldable pub get : Attributes → ℕ → Option Attribute
get [] key = none
get ((k, a) ∷ m) key = if k == key then some a else get m key

unfoldable pub put : Attributes → ℕ → Attribute → Attributes
put [] key attr = (key, attr) ∷ []
put ((k, a) ∷ m) key attr = if k == key then (k, attr) ∷ m else (k, a) ∷ put m key attr

unfoldable pub remove : Attributes → ℕ → Attributes
remove [] key = []
remove ((k, a) ∷ m) key = if k == key then m else (k, a) ∷ remove m key

unfoldable pub clear : Attributes → Attributes
clear m = []

-- The two numbers of an entry and its values, over all entries.
words : Attributes → ℕ
words [] = 0
words ((k, a) ∷ m) = 2 + length a + words m

unfoldable pub serialized_size : Attributes → ℕ
unfolding words
serialized_size m = 4 * (1 + words m)

put_values : Attribute → List ℕ
put_values [] = []
put_values (v ∷ a) = to_bytes 4 v ++ put_values a

put_entries : Attributes → List ℕ
unfolding put_values
put_entries [] = []
put_entries ((k, a) ∷ m) =
    to_bytes 4 k ++ (to_bytes 4 (length a % 2 ^ 32) ++ (put_values a ++ put_entries m))

unfoldable pub serialize : Attributes → List ℕ
unfolding put_entries
serialize m = to_bytes 4 (length m % 2 ^ 32) ++ put_entries m

take_values :
    ℕ → List ℕ → (Attribute → List ℕ → Option (Attributes × List ℕ)) → Option (Attributes × List ℕ)
take_values zero bs f = f [] bs
take_values (suc n) bs f = then_read 4 bs (λ v rest. take_values n rest (λ a. f (v ∷ a)))

take_entries : ℕ → Attributes → List ℕ → Option (Attributes × List ℕ)
take_entries zero ret bs = some (ret, bs)
take_entries (suc n) ret bs = then_read 4 bs λ key rest.
    then_read 4 rest
      λ n_attrs rest'. take_values n_attrs rest' λ attr. take_entries n (put ret key attr)

-- With what is left of the buffer; `none` when it goes past the end of the buffer.
unfoldable pub deserialize : List ℕ → Option (Attributes × List ℕ)
unfolding take_values take_entries put
deserialize bs = then_read 4 bs (λ size rest. take_entries size [] rest)

keys : Attributes → List ℕ
keys [] = []
keys ((k, a) ∷ m) = k ∷ keys m

abbrev pub IsWord : ℕ → Type 0
IsWord v = v < 2 ^ 32

-- What an iteration over the map gives: no key twice, and words that fit.
abbrev pub IsMap : Attributes → Type 0
IsMap [] = Unit
IsMap ((k, a) ∷ m) = IsWord k × IsWord (length a) × All IsWord a × (find m k ≡ false) × IsMap m

length-put_values : (a : Attribute) → length (put_values a) ≡ 4 * length a
unfolding put_values
length-put_values [] = omega arith
length-put_values (v ∷ a) =
    omega
      (arith, length-append (to_bytes 4 v) (put_values a), length-to_bytes 4 v, length-put_values a)

length-put_entries : (m : Attributes) → length (put_entries m) ≡ 4 * words m
unfolding put_entries words
length-put_entries [] = omega arith
length-put_entries ((k, a) ∷ m) =
    let n = length a % 2 ^ 32 in
    omega (
      arith,
      length-append (to_bytes 4 k) (to_bytes 4 n ++ (put_values a ++ put_entries m)),
      length-append (to_bytes 4 n) (put_values a ++ put_entries m),
      length-append (put_values a) (put_entries m),
      length-to_bytes 4 k,
      length-to_bytes 4 n,
      length-put_values a,
      length-put_entries m,
    )

-- A record's buffer is as long as `serialized_size` says.
pub length-serialize : (m : Attributes) → length (serialize m) ≡ serialized_size m
unfolding serialize serialized_size
length-serialize m = omega (
  arith,
  length-append (to_bytes 4 (length m % 2 ^ 32)) (put_entries m),
  length-to_bytes 4 (length m % 2 ^ 32),
  length-put_entries m,
)

take_values-put_values :
    (a : Attribute) (rest : List ℕ) (f : Attribute → List ℕ → Option (Attributes × List ℕ))
    → All IsWord a
    → take_values (length a) (put_values a ++ rest) f ≡ f a rest
unfolding take_values put_values
take_values-put_values [] rest f h = refl
take_values-put_values (v ∷ a) rest f h = rw (append_assoc (to_bytes 4 v) (put_values a) rest) (
    then_read-to_bytes 4 v (put_values a ++ rest) (λ w r. take_values (length a) r (λ b. f (w ∷ b)))
      h.0
    ∙ take_values-put_values a rest (λ b. f (v ∷ b)) h.1)

find-append : (m m' : Attributes) (key : ℕ) → find (m ++ m') key ≡ (find m key || find m' key)
unfolding find
find-append [] m' key = refl
find-append ((k, a) ∷ m) m' key = ground (arith, find-append m m' key)

put_absent :
    (m : Attributes) (key : ℕ) (attr : Attribute)
    → find m key ≡ false
    → put m key attr ≡ m ++ ((key, attr) ∷ [])
unfolding find put
put_absent [] key attr h = refl
put_absent ((k, a) ∷ m) key attr h = ground (arith, put_absent m key attr)

-- No key of `m` is in `ret` yet.
abbrev AllAbsent : Attributes → Attributes → Type 0
AllAbsent ret [] = Unit
AllAbsent ret ((k, a) ∷ m) = (find ret k ≡ false) × AllAbsent ret m

AllAbsent-snoc :
    (ret : Attributes) (k : ℕ) (a : Attribute) (m : Attributes)
    → find m k ≡ false
    → AllAbsent ret m
    → AllAbsent (ret ++ ((k, a) ∷ [])) m
unfolding find
AllAbsent-snoc ret k a [] h d = tt
AllAbsent-snoc ret k a ((j, b) ∷ m) h d =
    ground (arith, find-append ret ((k, a) ∷ []) j, AllAbsent-snoc ret k a m)

AllAbsent-nil : (m : Attributes) → AllAbsent [] m
unfolding find
AllAbsent-nil [] = tt
AllAbsent-nil ((k, a) ∷ m) = (refl, AllAbsent-nil m)

-- The reads of `take_entries` after the key, and after the number of values.
read_key : ℕ → Attributes → ℕ → List ℕ → Option (Attributes × List ℕ)
unfolding take_entries
read_key n ret key rest =
    then_read 4 rest
      λ n_attrs rest'. take_values n_attrs rest' λ attr. take_entries n (put ret key attr)

read_count : ℕ → Attributes → ℕ → ℕ → List ℕ → Option (Attributes × List ℕ)
read_count n ret key n_attrs rest =
    take_values n_attrs rest λ attr. take_entries n (put ret key attr)

put_entries_append :
    (k : ℕ) (a : Attribute) (m : Attributes) (rest : List ℕ)
    → put_entries ((k, a) ∷ m) ++ rest
      ≡ to_bytes 4 k
        ++ (to_bytes 4 (length a % 2 ^ 32) ++ (put_values a ++ (put_entries m ++ rest)))
unfolding put_entries
put_entries_append k a m rest =
    let c = to_bytes 4 (length a % 2 ^ 32) in
    append_assoc (to_bytes 4 k) (c ++ (put_values a ++ put_entries m)) rest
    ∙ ap (◌++◌ (to_bytes 4 k)) (
        append_assoc c (put_values a ++ put_entries m) rest
        ∙ ap (◌++◌ c) (append_assoc (put_values a) (put_entries m) rest))

take_entry :
    (n k : ℕ) (a : Attribute) (ret : Attributes) (rest : List ℕ)
    → IsWord k
    → IsWord (length a)
    → All IsWord a
    → take_entries
        (suc n)
        ret
        (to_bytes 4 k ++ (to_bytes 4 (length a % 2 ^ 32) ++ (put_values a ++ rest)))
      ≡ take_entries n (put ret k a) rest
unfolding take_entries read_key read_count
take_entry n k a ret rest hk hn ha =
    let c = length a % 2 ^ 32 in
    then_read-to_bytes 4 k (to_bytes 4 c ++ (put_values a ++ rest)) (read_key n ret) hk
    ∙ then_read-to_bytes 4 c (put_values a ++ rest) (read_count n ret k) (omega arith)
    ∙ ap (λ l. read_count n ret k l (put_values a ++ rest)) (mod-eq_of_lt hn)
    ∙ take_values-put_values a rest (λ attr. take_entries n (put ret k attr)) ha

take_entries-put_entries :
    (m ret : Attributes) (rest : List ℕ)
    → IsMap m
    → AllAbsent ret m
    → take_entries (length m) ret (put_entries m ++ rest) ≡ some (ret ++ m, rest)
unfolding take_entries put_entries
take_entries-put_entries [] ret rest h d = rw (append-nil ret) refl
take_entries-put_entries ((k, a) ∷ m) ret rest h d =
    let (hk, hn, ha, fresh, h') = h in
    ap (take_entries (suc (length m)) ret) (put_entries_append k a m rest)
    ∙ take_entry (length m) k a ret (put_entries m ++ rest) hk hn ha
    ∙ ap (λ r. take_entries (length m) r (put_entries m ++ rest)) (put_absent ret k a d.0)
    ∙ take_entries-put_entries m (ret ++ ((k, a) ∷ [])) rest h' (AllAbsent-snoc ret k a m fresh d.1)
    ∙ ap (λ r. some (r, rest)) (append_assoc ret ((k, a) ∷ []) m)

-- A record's attributes are read back from its bytes, and what follows them in the record is left.
pub deserialize-serialize :
    (m : Attributes) (rest : List ℕ)
    → IsMap m
    → IsWord (length m)
    → deserialize (serialize m ++ rest) ≡ some (m, rest)
unfolding deserialize serialize
deserialize-serialize m rest h lt =
    ap deserialize (append_assoc (to_bytes 4 (length m % 2 ^ 32)) (put_entries m) rest)
    ∙ then_read-to_bytes 4 (length m % 2 ^ 32) (put_entries m ++ rest)
        (λ size r. take_entries size [] r) (omega arith)
    ∙ ap (λ l. take_entries l [] (put_entries m ++ rest)) (mod-eq_of_lt lt)
    ∙ take_entries-put_entries m [] rest h (AllAbsent-nil m)

-- `get` after `set`, and after `remove` on a map: only the key at hand is changed.
pub get-put :
    (m : Attributes) (key k : ℕ) (attr : Attribute)
    → get (put m key attr) k ≡ (if key == k then some attr else get m k)
unfolding get put
get-put [] key k attr = refl
get-put ((j, a) ∷ m) key k attr = ground (arith, get-put m key k attr)

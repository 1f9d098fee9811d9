-- ===== src/Locations/Load.antt =====
-- The maps of an index without a partition file, and `verify_id2loc`.
use pipe_ann.Base.{
  ℕ, zero, suc, ◌+◌, ◌-◌, ◌*◌, ◌/◌, ◌%◌, ◌≤◌, ◌<◌, ◌≡◌, refl, sym, ap, ◌∙◌, subst, ◌↔◌, inl, inr,
  Bool, true, false, ◌&&◌, not, List, [], ◌∷◌, ◌++◌, arith, ℕ_discrete, ltb, leb, ◌==◌,
  if◌then◌else◌, ==→eq, Bool-cases, length, replicate, length-append, length-replicate,
}
use native.Mathlib.Nat.{div-add-mod', mod-lt, mul-mod_left}
use pipe_ann.Layout.{Metadata}
use pipe_ann.Locations.{Locations, Outcome, ok, crashed, undefined, ◌>>=◌, invalid_id}
use pipe_ann.Locations.Tables.{id2loc, loc2id, count_up}
use pipe_ann.Locations.Claims.{entry, index_lem, length-count_up}
use pipe_ann.Locations.Resize.{IsAligned}
use pipe_ann.Locations.Assign.{id2loc_lem}
use pipe_ann.Locations.Relocate.{Maps, IsConsistent}
use pipe_ann.Locations.Fresh.{IsValid}

-- The first loop of `verify_id2loc`, on the ids below `cur_id`.
unfoldable pub verify_ids : Locations → ℕ → Outcome Bool
unfolding id2loc loc2id
verify_ids s zero = ok true
verify_ids s (suc id) = verify_ids s id >>= λ b. id2loc s id >>= λ loc.
    if leb s.cur_loc loc then crashed else (loc2id s loc >>= λ i. if i == id then ok b else crashed)

-- `cur_loc` after `init_metadata`: the number of points, up to the end of the last page.
unfoldable pub first_loc : Metadata → ℕ
first_loc m =
    if not (m.nnodes_per_sector == 0) && not (m.npoints % m.nnodes_per_sector == 0)
    then m.npoints + (m.nnodes_per_sector - m.npoints % m.nnodes_per_sector)
    else m.npoints

-- `load_page_layout` without a partition file.
unfoldable pub load_equal : Metadata → Locations
unfolding first_loc
load_equal m = record {
  meta = m;
  id2loc = count_up 0 m.npoints;
  loc2id = count_up 0 m.npoints ++ replicate (first_loc m - m.npoints) invalid_id;
  empty_pages = [];
  cur_loc = first_loc m;
}

entry-count_up : (st n i : ℕ) → i < n → entry (count_up st n) i ≡ st + i
entry-count_up st zero i h = absurd (omega arith)
entry-count_up st (suc n) zero h = omega arith
entry-count_up st (suc n) (suc i) h = entry-count_up (st + 1) n i (omega arith) ∙ omega arith

entry-append : (xs ys : List ℕ) (i : ℕ) → i < length xs → entry (xs ++ ys) i ≡ entry xs i
entry-append [] ys i h = elim h [ ]
entry-append (x ∷ xs) ys zero h = refl
entry-append (x ∷ xs) ys (suc i) h = entry-append xs ys i (omega arith)

next_page : (n p : ℕ) → 0 < n → (p + (n - p % n)) % n ≡ 0
next_page n p pos =
    let e : p + (n - p % n) ≡ (p / n + 1) * n = omega (arith, div-add-mod' p n, mod-lt p pos) in
    ap (λ k. k % n) e ∙ mul-mod_left (p / n + 1) n

first_loc-IsAligned : (m : Metadata) → (m.npoints ≤ first_loc m) × IsAligned m (first_loc m)
unfolding first_loc
first_loc-IsAligned m = elim (Bool-cases (m.nnodes_per_sector == 0)) [
  | inl z ↦ (rw (z) (omega arith), inl (==→eq _ _ z))
  | inr nz ↦ elim (Bool-cases (m.npoints % m.nnodes_per_sector == 0)) [
    | inl a ↦ (rw (nz, a) (omega arith), inr (rw (nz, a) (==→eq _ _ a)))
    | inr off ↦ (
      rw (nz, off) (omega arith),
      inr (rw (nz, off) (next_page m.nnodes_per_sector m.npoints (ground (arith, nz)))),
    )
  ]
]

-- With at least two points, the maps loaded without a partition file meet the allocator's
-- invariant, and every id below the number of points is mapped to a location that is mapped back.
pub load_equal-IsValid :
    (m : Metadata) → 2 ≤ m.npoints → IsValid (load_equal m) × IsConsistent (load_equal m) m.npoints
unfolding load_equal
load_equal-IsValid m two =
    let (le, al) = first_loc-IsAligned m in
    let n : ℕ = m.npoints in
    let size : length (count_up 0 n) ≡ n = length-count_up 0 n in
    let pad : ℕ = first_loc m - n in
    (
      record {
        started = omega (arith, le, two);
        sized = omega (
          arith,
          le,
          length-append (count_up 0 n) (replicate pad invalid_id),
          length-replicate pad invalid_id,
          size,
        );
        aligned = al;
        queue_free = tt;
        queue_distinct = tt;
      },
      λ id lt.
          let e : entry (count_up 0 n) id ≡ id = entry-count_up 0 n id lt ∙ omega arith in
          record {
            known = omega (arith, lt, size);
            low = omega (arith, e, lt, le);
            back =
                ap (entry (count_up 0 n ++ replicate pad invalid_id)) e
                ∙ (entry-append (count_up 0 n) (replicate pad invalid_id) id
                      (omega (arith, lt, size))
                    ∙ e);
          },
    )

abbrev IsOk {ℓ} : {A : Type ℓ} → Outcome A → Type 0
IsOk (ok a) = Unit
IsOk crashed = ⊥
IsOk undefined = ⊥

pub Outcome-bind {ℓ κ} :
    {A : Type ℓ} {B : Type κ} (m : Outcome A) (f : A → Outcome B) (b : B)
    → (m >>= f) ≡ ok b
    → (a : A) × (m ≡ ok a) × (f a ≡ ok b)
Outcome-bind (ok a) f b e = (a, refl, e)
Outcome-bind crashed f b e = absurd (subst IsOk (sym e) tt)
Outcome-bind undefined f b e = absurd (subst IsOk (sym e) tt)

pub else_ok {ℓ} :
    {A : Type ℓ} (t : Bool) (m : Outcome A) (a : A)
    → (if t then crashed else m) ≡ ok a
    → (t ≡ false) × (m ≡ ok a)
else_ok true m a e = absurd (subst IsOk (sym e) tt)
else_ok false m a e = (refl, e)

then_ok {ℓ} :
    {A : Type ℓ} (t : Bool) (m : Outcome A) (a : A)
    → (if t then m else crashed) ≡ ok a
    → (t ≡ true) × (m ≡ ok a)
then_ok true m a e = (refl, e)
then_ok false m a e = absurd (subst IsOk (sym e) tt)

pub ok-injective {ℓ} : {A : Type ℓ} (a b : A) → ok a ≡ ok b → a ≡ b
ok-injective a b e = ap (λ o. elim o [ ok x ↦ x | crashed ↦ a | undefined ↦ a ]) e

verify_one : Locations → ℕ → Bool → Outcome Bool
unfolding verify_ids
verify_one s id b = id2loc s id >>= λ loc.
    if leb s.cur_loc loc then crashed else (loc2id s loc >>= λ i. if i == id then ok b else crashed)

pub loc2id_lem :
    (s : Locations) (loc : ℕ) → loc < length s.loc2id → loc2id s loc ≡ ok (entry s.loc2id loc)
unfolding loc2id
loc2id_lem s loc h =
    let e : ltb (length s.loc2id) loc ≡ false = ground (arith, h) in
    rw (e) (index_lem s.loc2id loc h)

one_passes :
    (s : Locations) (id : ℕ) (b : Bool)
    → s.cur_loc ≤ length s.loc2id
    → Maps s id
    → verify_one s id b ≡ ok b
unfolding verify_one
one_passes s id b sized m =
    let e : leb s.cur_loc (entry s.id2loc id) ≡ false = ground (arith, m.low) in
    let back : (entry s.loc2id (entry s.id2loc id) == id) ≡ true = ground (arith, m.back) in
    rw
      (
        id2loc_lem s id m.known,
        e,
        loc2id_lem s (entry s.id2loc id) (omega (arith, m.low, sized)),
        back,
      )
      refl

one-Maps :
    (s : Locations) (id : ℕ) (b c : Bool)
    → s.cur_loc ≤ length s.loc2id
    → verify_one s id b ≡ ok c
    → Maps s id × (b ≡ c)
unfolding verify_one id2loc
one-Maps s id b c sized h =
    let (loc, e, h1) = Outcome-bind (id2loc s id) _ c h in
    let (in_table, e') = else_ok (leb (length s.id2loc) id) _ loc e in
    let known : id < length s.id2loc = ground (arith, in_table) in
    let at : loc ≡ entry s.id2loc id =
      ok-injective loc (entry s.id2loc id) (sym e ∙ id2loc_lem s id known) in
    let (below, h2) = else_ok (leb s.cur_loc loc) _ c h1 in
    let low : loc < s.cur_loc = ground (arith, below) in
    let (i, e'', h3) = Outcome-bind (loc2id s loc) _ c h2 in
    let there : i ≡ entry s.loc2id loc =
      ok-injective i (entry s.loc2id loc)
        (sym e'' ∙ loc2id_lem s loc (omega (arith, low, sized))) in
    let (same, h4) = then_ok (i == id) _ c h3 in
    (
      record {
        known = known;
        low = omega (arith, at, low);
        back = ap (entry s.loc2id) (sym at) ∙ (sym there ∙ ==→eq i id same);
      },
      ok-injective b c h4,
    )

-- The first loop lets an index pass exactly when its ids are mapped below `cur_loc`, each to a
-- location that is mapped back to it.
pub verify_ids-IsConsistent :
    (s : Locations) (n : ℕ)
    → s.cur_loc ≤ length s.loc2id
    → (verify_ids s n ≡ ok true) ↔ IsConsistent s n
unfolding verify_ids verify_one
verify_ids-IsConsistent s zero sized = (λ e id lt. absurd (omega arith), λ c. refl)
verify_ids-IsConsistent s (suc n) sized =
    let rest = verify_ids-IsConsistent s n sized in
    (
      λ e id lt.
          let (b, e', h) = Outcome-bind (verify_ids s n) (verify_one s n) true e in
          let (m, q) = one-Maps s n b true sized h in
          elim (ℕ_discrete id n) [
            | yes p ↦ subst (Maps s) (sym p) m
            | no ne ↦ rest.0 (e' ∙ ap ok q) id (omega (arith, lt, ne))
          ],
      λ c.
          let before = rest.1 (λ id lt. c id (omega arith)) in
          rw (before) (one_passes s n true sized (c n (omega arith))),
    )

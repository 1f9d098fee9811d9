-- ===== src/Locations/Verify.antt =====
-- `verify_id2loc` as a whole: the second loop goes over the locations.
use pipe_ann.Base.{
  ℕ, zero, suc, ◌≤◌, ◌<◌, ◌≡◌, refl, sym, ap, ◌∙◌, subst, ◌↔◌, ◌⊎◌, inl, inr, Bool, true, ◌&&◌,
  ◌||◌, arith, ℕ_discrete, leb, ◌==◌, if◌then◌else◌, Bool-cases, length,
}
use pipe_ann.Locations.{Locations, Outcome, ok, ◌>>=◌, invalid_id, allocated_id}
use pipe_ann.Locations.Tables.{id2loc, loc2id}
use pipe_ann.Locations.Claims.{entry}
use pipe_ann.Locations.Assign.{id2loc_lem}
use pipe_ann.Locations.Relocate.{IsConsistent}
use pipe_ann.Locations.Load.{
  verify_ids, verify_ids-IsConsistent, Outcome-bind, else_ok, loc2id_lem, ok-injective,
}

unfoldable pub is_reserved : ℕ → Bool
is_reserved id = id == invalid_id || id == allocated_id

-- One round. A location that the id is not mapped to is logged, `false`, and lets the loop go on; an
-- id past the table is a crash.
unfoldable pub verify_loc : Locations → ℕ → Bool → Outcome Bool
unfolding loc2id id2loc is_reserved
verify_loc s i b = loc2id s i >>= λ id.
    if is_reserved id then ok b else (id2loc s id >>= λ loc. ok (b && (loc == i)))

-- The rounds on the locations below a bound.
unfoldable pub verify_locs : Locations → ℕ → Bool → Outcome Bool
unfolding verify_loc
verify_locs s zero b = ok b
verify_locs s (suc i) b = verify_locs s i b >>= verify_loc s i

-- `true` when no error is logged.
unfoldable pub verify_id2loc : Locations → ℕ → Outcome Bool
unfolding verify_ids verify_locs
verify_id2loc s cur_id = verify_ids s cur_id >>= verify_locs s s.cur_loc

-- A location is free or claimed, or the id in it is mapped back to the location.
pub IsBack : Locations → ℕ → Type 0
IsBack s i =
    let id = entry s.loc2id i in
    (is_reserved id ≡ true) ⊎ ((id < length s.id2loc) × (entry s.id2loc id ≡ i))

verify_loc-true :
    (s : Locations) (i : ℕ) → i < length s.loc2id → IsBack s i → verify_loc s i true ≡ ok true
unfolding verify_loc IsBack
verify_loc-true s i h (inl r) = rw (loc2id_lem s i h, r) refl
verify_loc-true s i h (inr (k, e)) =
    let back : (entry s.id2loc (entry s.loc2id i) == i) ≡ true = ground (arith, e) in
    elim (Bool-cases (is_reserved (entry s.loc2id i))) [
      | inl r ↦ rw (loc2id_lem s i h, r) refl
      | inr r ↦ rw (loc2id_lem s i h, r, id2loc_lem s (entry s.loc2id i) k, back) refl
    ]

verify_loc-IsBack :
    (s : Locations) (i : ℕ) (b : Bool)
    → i < length s.loc2id
    → verify_loc s i b ≡ ok true
    → (b ≡ true) × IsBack s i
unfolding verify_loc IsBack id2loc
verify_loc-IsBack s i b h p =
    let q = rw (loc2id_lem s i h) at p in
    elim (Bool-cases (is_reserved (entry s.loc2id i))) [
      | inl r ↦ (ok-injective b true (rw r at q), inl r)
      | inr r ↦
          let q' = rw r at q in
          let (loc, e, e') = Outcome-bind (id2loc s (entry s.loc2id i)) _ true q' in
          let (in_table, _) = else_ok (leb (length s.id2loc) (entry s.loc2id i)) _ loc e in
          let k : entry s.loc2id i < length s.id2loc = ground (arith, in_table) in
          let at : loc ≡ entry s.id2loc (entry s.loc2id i) =
            ok-injective loc _ (sym e ∙ id2loc_lem s (entry s.loc2id i) k) in
          let both : (b && (loc == i)) ≡ true = ok-injective _ true e' in
          (ground (arith, both), inr (k, ground (arith, both, at)))
    ]

verify_locs-IsBack :
    (s : Locations) (m : ℕ) (b : Bool)
    → m ≤ length s.loc2id
    → (verify_locs s m b ≡ ok true) ↔ ((b ≡ true) × ((i : ℕ) → i < m → IsBack s i))
unfolding verify_locs
verify_locs-IsBack s zero b h =
    (λ e. (ok-injective b true e, λ i lt. absurd (omega arith)), λ c. ap ok c.0)
verify_locs-IsBack s (suc m) b h =
    let rest = verify_locs-IsBack s m b (omega (arith, h)) in
    (
      λ e.
          let (c, e1, e2) = Outcome-bind (verify_locs s m b) (verify_loc s m) true e in
          let (t, back) = verify_loc-IsBack s m c (omega (arith, h)) e2 in
          let (tb, before) = rest.0 (e1 ∙ ap ok t) in
          (
            tb,
            λ i lt. elim (ℕ_discrete i m) [
              | yes p ↦ subst (IsBack s) (sym p) back
              | no ne ↦ before i (omega (arith, lt, ne))
            ],
          ),
      λ c.
          rw (rest.1 (c.0, λ i lt. c.1 i (omega arith)))
            (verify_loc-true s m (omega (arith, h)) (c.1 m (omega arith))),
    )

-- With `cur_loc` within the table, `verify_id2loc` ends without a crash and logs no error exactly when
-- its ids are mapped below `cur_loc`, each to a location that is mapped back to it, and each location
-- below `cur_loc` is free or claimed or holds an id that is mapped to it.
pub verify_id2loc-IsConsistent :
    (s : Locations) (n : ℕ)
    → s.cur_loc ≤ length s.loc2id
    → (verify_id2loc s n ≡ ok true) ↔ (IsConsistent s n × ((i : ℕ) → i < s.cur_loc → IsBack s i))
unfolding verify_id2loc
verify_id2loc-IsConsistent s n h =
    let ids = verify_ids-IsConsistent s n h in
    (
      λ e.
          let (b, e1, e2) = Outcome-bind (verify_ids s n) (verify_locs s s.cur_loc) true e in
          let (t, back) = (verify_locs-IsBack s s.cur_loc b h).0 e2 in (ids.0 (e1 ∙ ap ok t), back),
      λ c. rw (ids.1 c.0) ((verify_locs-IsBack s s.cur_loc true h).1 (refl, c.1)),
    )

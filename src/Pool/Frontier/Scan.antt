-- ===== src/Pool/Frontier/Scan.antt =====
-- The first entry of a window that passes a test, and the loops that look for it from a marker.
use pipe_ann.Base.{
  ℕ, zero, suc, ◌+◌, ◌≤◌, ◌<◌, ◌≡◌, inl, inr, Bool, true, false, ◌&&◌, not, Option, none, some,
  List, [], ◌∷◌, arith, dec_lt, ltb, if◌then◌else◌, Bool-cases, length,
}
use mathlib.Core.Option
use pipe_ann.Neighbor.{Neighbor}
use pipe_ann.Pool.{skip_while, find_ready}
use pipe_ann.Pool.Position.{at}

-- The index of the first entry that passes the test.
unfoldable pub first_such : (Neighbor → Bool) → List Neighbor → Option ℕ
first_such test [] = none
first_such test (x ∷ xs) = if test x then some 0 else Option.map suc (first_such test xs)

pub first_such_lem :
    (test : Neighbor → Bool) (xs : List Neighbor) (j : ℕ)
    → j ≤ length xs
    → ((k : ℕ) → k < j → test (at xs k) ≡ false)
    → (j < length xs → test (at xs j) ≡ true)
    → first_such test xs ≡ (if ltb j (length xs) then some j else none)
unfolding first_such
first_such_lem test [] j h before found = ground arith
first_such_lem test (x ∷ xs) zero h before found = rw (found (omega arith)) (ground arith)
first_such_lem test (x ∷ xs) (suc j) h before found = rw (before 0 (omega arith)) (
    ground (
      arith,
      first_such_lem test xs j (omega arith) (λ k l. before (suc k) (omega arith))
          (λ l. found (omega arith)),
    ))

-- Where the walk from `i` over `left` entries stops.
pub record Stops (settled : Neighbor → Bool) (xs : List Neighbor) (i left j : ℕ) : Type 0 where
  pub from : i ≤ j
  pub to : j ≤ i + left
  pub passed : (k : ℕ) → i ≤ k → k < j → settled (at xs k) ≡ true
  pub stopped : j < i + left → settled (at xs j) ≡ false

pub skip_while_lem :
    (settled : Neighbor → Bool) (left : ℕ) (xs : List Neighbor) (i : ℕ)
    → Stops settled xs i left (skip_while settled left xs i)
unfolding skip_while
skip_while_lem settled zero xs i = record {
  from = omega arith;
  to = omega arith;
  passed = λ k h l. absurd (omega arith);
  stopped = λ h. absurd (omega arith);
}
skip_while_lem settled (suc left) xs i = elim (Bool-cases (settled (at xs i))) [
  | inl e ↦
      let rest = skip_while_lem settled left xs (i + 1) in
      rw e (record {
        from = omega (arith, rest.from);
        to = omega (arith, rest.to);
        passed = λ k h l. elim (dec_lt i k) [
          | yes m ↦ rest.passed k (omega arith) l
          | no m ↦ let q : k ≡ i = omega arith in rw q e
        ];
        stopped = λ l. rest.stopped (omega arith);
      })
  | inr e ↦ rw e (record {
    from = omega arith;
    to = omega arith;
    passed = λ k h l. absurd (omega arith);
    stopped = λ l. e;
  })
]

-- The scan of `next_calc_nbr` is such a walk.
pub find_ready_lem :
    (ready : ℕ → Bool) (left : ℕ) (xs : List Neighbor) (i : ℕ)
    → find_ready ready left xs i ≡ (
        let j = skip_while (λ n. not (not n.visited && ready n.id)) left xs i in
        if ltb j (i + left) then some j else none)
unfolding find_ready skip_while
find_ready_lem ready zero xs i = ground arith
find_ready_lem ready (suc left) xs i =
    elim (Bool-cases (not (at xs i).visited && ready (at xs i).id)) [
      | inl e ↦ rw e (ground arith)
      | inr e ↦
          let q : i + suc left ≡ i + 1 + left = omega arith in
          rw (e, q) (find_ready_lem ready left xs (i + 1))
    ]

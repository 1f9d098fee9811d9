-- ===== src/Locks/Safety.antt =====
-- The table of locks under threads that try, wait, hold and unlock in any order.
use pipe_ann.Base.{
  ℕ, suc, ◌+◌, ◌≤◌, ◌≡◌, refl, sym, ap, ◌∙◌, subst, inl, inr, Bool, true, false, Option, none, List,
  [], ◌∷◌, ◌++◌, arith, if◌then◌else◌, All, tally, tally-append, tally-replicate_zero, tally_le,
  All-middle, All-replicate,
}
use pipe_ann.Locations.{Outcome, ok, crashed, undefined}
use pipe_ann.Locks.{Kind}
use pipe_ann.Locks.Table.{
  Table, try_lock, pin, acquire, unlock, Task, out, waiting, holding, Turn, tried, refused, pinned,
  acquired, spun, unlocked, Reach, start, more,
}
use pipe_ann.Locks.Pinned.{
  rd_of, wr_of, Sound, Points, Keeps, Tried, try_lock_lem, acquire_lem, pin_lem, unlock_lem,
}

abbrev pub reads : Task → ℕ
reads (holding k) = rd_of k
reads _ = 0

abbrev pub writes : Task → ℕ
writes (holding k) = wr_of k
writes _ = 0

abbrev pub pins : Task → ℕ
pins out = 0
pins (waiting k p) = 1
pins (holding k) = 1

abbrev pub PointsTo : Option (ℕ × ℕ) → Task → Type 0
PointsTo e (waiting k q) = Points e q
PointsTo e _ = Unit

ok-injective {ℓ} : {A : Type ℓ} (a b : A) → ok a ≡ ok b → a ≡ b
ok-injective a b e = ap (λ o. elim o [ ok x ↦ x | crashed ↦ a | undefined ↦ a ]) e

reads_le : (a : Task) → reads a ≤ pins a
reads_le out = omega arith
reads_le (waiting k p) = omega arith
reads_le (holding false) = omega arith
reads_le (holding true) = omega arith

writes_le : (a : Task) → writes a ≤ pins a
writes_le out = omega arith
writes_le (waiting k p) = omega arith
writes_le (holding false) = omega arith
writes_le (holding true) = omega arith

-- What is known of one thread and of the counts of the others.
abbrev Fits : Table → ℕ → ℕ → ℕ → Task → Type 0
Fits t r w n a = Sound t.heap t.entry (r + reads a) (w + writes a) (n + pins a) × PointsTo t.entry a

Sound-subst :
    (t : Table) {r r' w w' n n' : ℕ}
    → r ≡ r'
    → w ≡ w'
    → n ≡ n'
    → Sound t.heap t.entry r w n
    → Sound t.heap t.entry r' w' n'
Sound-subst t {r} {r'} {w} {w'} {n} {n'} e f g s =
    subst (λ k. Sound t.heap t.entry k w' n') e
      (subst (λ k. Sound t.heap t.entry r k n') f (subst (λ k. Sound t.heap t.entry r w k) g s))

Tried-result :
    (k : Kind) (t t' : Table) (b : Bool) (r w n m : ℕ) (o : Outcome (Table × Bool))
    → Tried k t r w n m o
    → o ≡ ok (t', b)
    → (if b
        then Sound t'.heap t'.entry (r + rd_of k) (w + wr_of k) (suc m)
        else Sound t'.heap t'.entry r w n)
      × Keeps t.entry t'.entry m
Tried-result k t t' b r w n m o f e =
    subst
      (λ v.
        (if v.1
          then Sound v.0.heap v.0.entry (r + rd_of k) (w + wr_of k) (suc m)
          else Sound v.0.heap v.0.entry r w n)
        × Keeps t.entry v.0.entry m)
      (ok-injective (f.table, f.got) (t', b) (sym f.returns ∙ e)) (f.sound, f.keeps)

spun_same :
    (k : Kind) (t t' : Table) (r w n m : ℕ) (o : Outcome (Table × Bool))
    → Tried k t r w n m o
    → o ≡ ok (t', false)
    → t ≡ t'
spun_same k t t' r w n m o f e =
    let q = ok-injective (f.table, f.got) (t', false) (sym f.returns ∙ e) in
    sym (f.same (ap (λ v. v.1) q)) ∙ ap (λ v. v.0) q

Turn-Fits :
    {t t' : Table} {a b : Task} (r w n : ℕ)
    → (n ≡ 0 → (r ≡ 0) × (w ≡ 0))
    → Turn t a t' b
    → Fits t r w n a
    → Fits t' r w n b × Keeps t.entry t'.entry n
Turn-Fits r w n alone (tried k t t' e) (f, x) =
    let s = Sound-subst t (omega arith) (omega arith) (omega arith) f in
    let (g, keep) =
      Tried-result k t t' true r w n n (try_lock k t) (try_lock_lem k t.heap t.entry r w n s) e in
    ((Sound-subst t' refl refl (omega arith) g, tt), keep)
Turn-Fits r w n alone (refused k t t' e) (f, x) =
    let s = Sound-subst t (omega arith) (omega arith) (omega arith) f in
    let (g, keep) =
      Tried-result k t t' false r w n n (try_lock k t) (try_lock_lem k t.heap t.entry r w n s) e in
    ((Sound-subst t' (omega arith) (omega arith) (omega arith) g, tt), keep)
Turn-Fits r w n alone (pinned k t) (f, x) =
    let s = Sound-subst t (omega arith) (omega arith) (omega arith) f in
    let (g, y, keep) = pin_lem t.heap t.entry r w n s in
    ((Sound-subst (pin t).0 (omega arith) (omega arith) (omega arith) g, y), keep)
Turn-Fits r w n alone (acquired k p t t' e) (f, x) =
    let s = Sound-subst t (omega arith) (omega arith) (omega arith) f in
    let (g, keep) =
      Tried-result k t t' true r w (suc n) n (acquire k p t)
        (acquire_lem k p t.heap t.entry r w n s x) e in
    ((Sound-subst t' refl refl (omega arith) g, tt), keep)
Turn-Fits r w n alone (spun k p t t' e) (f, x) =
    let s = Sound-subst t (omega arith) (omega arith) (omega arith) f in
    let q =
      spun_same k t t' r w (suc n) n (acquire k p t) (acquire_lem k p t.heap t.entry r w n s x) e in
    subst (λ v. Fits v r w n (waiting k p) × Keeps t.entry v.entry n) q ((f, x), inr (λ i y. y))
Turn-Fits r w n alone (unlocked k t t' e) (f, x) =
    let s = Sound-subst t refl refl (omega arith) f in
    let u = unlock_lem k t.heap t.entry r w n s alone in
    let q = ok-injective u.table t' (sym u.returns ∙ e) in
    (
      (
        Sound-subst t' (omega arith) (omega arith) (omega arith)
            (subst (λ v. Sound v.heap v.entry r w n) q u.sound),
        tt,
      ),
      subst (λ v. Keeps t.entry v.entry n) q u.keeps,
    )

Keeps-le : (e e' : Option (ℕ × ℕ)) (n m : ℕ) → m ≤ n → Keeps e e' n → Keeps e e' m
Keeps-le e e' n m h (inl z) = inl (omega (arith, z, h))
Keeps-le e e' n m h (inr f) = inr f

-- Others that wait keep a good pointer: if there are none the entry may be erased.
others-PointsTo :
    (e e' : Option (ℕ × ℕ)) (xs : List Task)
    → Keeps e e' (tally pins xs)
    → All (PointsTo e) xs
    → All (PointsTo e') xs
others-PointsTo e e' [] k a = tt
others-PointsTo e e' (out ∷ xs) k a =
    (tt, others-PointsTo e e' xs (Keeps-le e e' _ _ (omega arith) k) a.1)
others-PointsTo e e' (holding h ∷ xs) (inl z) a = absurd (omega (arith, z))
others-PointsTo e e' (holding h ∷ xs) (inr f) a = (tt, others-PointsTo e e' xs (inr f) a.1)
others-PointsTo e e' (waiting h q ∷ xs) (inl z) a = absurd (omega (arith, z))
others-PointsTo e e' (waiting h q ∷ xs) (inr f) a = (f q a.0, others-PointsTo e e' xs (inr f) a.1)

-- Without a thread that holds or waits there is no entry; else the entry counts these threads, its
-- lock is live, its state counts the holders, and each waiting thread has its pointer.
pub record IsPinned (t : Table) (ts : List Task) : Type 0 where
  pub sound : Sound t.heap t.entry (tally reads ts) (tally writes ts) (tally pins ts)
  pub points : All (PointsTo t.entry) ts

-- One thread, apart from the others.
Fits-of :
    (t : Table) (before : List Task) (a : Task) (after : List Task)
    → IsPinned t (before ++ (a ∷ after))
    → Fits t
        (tally reads before + tally reads after)
        (tally writes before + tally writes after)
        (tally pins before + tally pins after)
        a
Fits-of t before a after i = (
  Sound-subst t (tally-append reads before a after) (tally-append writes before a after)
      (tally-append pins before a after) i.sound,
  (All-middle (PointsTo t.entry) before a a after i.points).0,
)

All-around :
    (P Q : Task → Type 0) (b : List Task) (p p' : Task) (a : List Task)
    → ((xs : List Task) → tally pins xs ≤ tally pins b + tally pins a → All P xs → All Q xs)
    → All P (b ++ (p ∷ a))
    → Q p'
    → All Q (b ++ (p' ∷ a))
All-around P Q [] p p' a f h q = (q, f a (omega arith) h.1)
All-around P Q (x ∷ b) p p' a f h q = (
  (f (x ∷ []) (omega arith) (h.0, tt)).0,
  All-around P Q b p p' a (λ xs le. f xs (omega (arith, le))) h.1 q,
)

Turn-IsPinned :
    {t t' : Table} {a b : Task} (before after : List Task)
    → IsPinned t (before ++ (a ∷ after))
    → Turn t a t' b
    → IsPinned t' (before ++ (b ∷ after))
Turn-IsPinned {t} {t'} {a} {b} before after i u =
    let r = tally reads before + tally reads after in
    let w = tally writes before + tally writes after in
    let n = tally pins before + tally pins after in
    let alone : n ≡ 0 → (r ≡ 0) × (w ≡ 0) = λ z. (
      omega (arith, z, tally_le reads pins reads_le before, tally_le reads pins reads_le after),
      omega (arith, z, tally_le writes pins writes_le before, tally_le writes pins writes_le after),
    ) in
    let ((s, x), keep) = Turn-Fits r w n alone u (Fits-of t before a after i) in
    record {
      sound =
          Sound-subst t' (sym (tally-append reads before b after))
            (sym (tally-append writes before b after)) (sym (tally-append pins before b after)) s;
      points =
          All-around (PointsTo t.entry) (PointsTo t'.entry) before a b after
            (λ xs le. others-PointsTo t.entry t'.entry xs (Keeps-le _ _ n _ le keep)) i.points x;
    }

-- However threads try, wait for, hold and unlock the lock of one key: while none of them holds it
-- or waits for it the key has no entry; else the entry counts these threads, its lock is not
-- deleted, the state of the lock is that of the holders (one writer alone, or readers), and every
-- waiting thread keeps the pointer to that lock.
pub Reach-IsPinned : (t : Table) (ts : List Task) → Reach t ts → IsPinned t ts
Reach-IsPinned t ts (start n) = record {
  sound = (
    tally-replicate_zero reads n out refl,
    tally-replicate_zero writes n out refl,
    tally-replicate_zero pins n out refl,
  );
  points = All-replicate (PointsTo none) n out tt;
}
Reach-IsPinned t0 ts (more {t} {t'} {a} {b} before after r u) =
    Turn-IsPinned before after (Reach-IsPinned t (before ++ (a ∷ after)) r) u

-- What the thread may call next returns: no deleted lock is touched, and no unlock traps.
abbrev pub IsSafe : Table → Task → Type 0
IsSafe t out = (k : Kind) → (v : Table × Bool) × (try_lock k t ≡ ok v)
IsSafe t (waiting k p) = (v : Table × Bool) × (acquire k p t ≡ ok v)
IsSafe t (holding k) = (t' : Table) × (unlock t ≡ ok t')

Fits-IsSafe :
    (t : Table) (r w n : ℕ) (a : Task) → (n ≡ 0 → (r ≡ 0) × (w ≡ 0)) → Fits t r w n a → IsSafe t a
Fits-IsSafe t r w n out alone (f, x) = λ k.
    let s = Sound-subst t (omega arith) (omega arith) (omega arith) f in
    let v = try_lock_lem k t.heap t.entry r w n s in ((v.table, v.got), v.returns)
Fits-IsSafe t r w n (waiting k p) alone (f, x) =
    let s = Sound-subst t (omega arith) (omega arith) (omega arith) f in
    let v = acquire_lem k p t.heap t.entry r w n s x in ((v.table, v.got), v.returns)
Fits-IsSafe t r w n (holding k) alone (f, x) =
    let s = Sound-subst t refl refl (omega arith) f in
    let u = unlock_lem k t.heap t.entry r w n s alone in (u.table, u.returns)

-- In every reachable state each call that a thread may make next returns: a try by a thread
-- outside, an attempt through the kept pointer by a waiting thread, an unlock by a holder. None of
-- them touches a deleted lock, and the unlock finds a count above zero.
pub Reach-IsSafe :
    (t : Table) (before : List Task) (a : Task) (after : List Task)
    → Reach t (before ++ (a ∷ after))
    → IsSafe t a
Reach-IsSafe t before a after r =
    let r' = tally reads before + tally reads after in
    let w = tally writes before + tally writes after in
    let n = tally pins before + tally pins after in
    let alone : n ≡ 0 → (r' ≡ 0) × (w ≡ 0) = λ z. (
      omega (arith, z, tally_le reads pins reads_le before, tally_le reads pins reads_le after),
      omega (arith, z, tally_le writes pins writes_le before, tally_le writes pins writes_le after),
    ) in
    Fits-IsSafe t r' w n a alone
      (Fits-of t before a after (Reach-IsPinned t (before ++ (a ∷ after)) r))

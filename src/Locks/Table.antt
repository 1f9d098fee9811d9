-- ===== src/Locks/Table.antt =====
-- `SparseLockTable`, at one key: the callbacks that it passes to the map, which runs them under the
-- lock of the key's bucket, and the calls on the lock that a thread keeps a pointer to.
use pipe_ann.Base.{
  ℕ, ◌+◌, ◌-◌, ◌≡◌, Bool, true, false, Option, none, some, List, [], ◌∷◌, ◌++◌, ◌==◌, if◌then◌else◌,
  length, get_or, set, replicate,
}
use pipe_ann.Locations.{Outcome, ok, crashed, undefined, ◌>>=◌}
use pipe_ann.Locks.{ℤ, pos, negsuc, Kind}
use pipe_ann.Locks.Spin.{can_read, is_zero, incr, released}

-- `tryrdlock` and `trywrlock` of a lock as one step; `none` is EBUSY.
unfoldable pub try_state : Kind → ℤ → Option ℤ
unfolding can_read is_zero incr
try_state false s = if can_read s then some (incr s) else none
try_state true s = if is_zero s then some (negsuc 0) else none

-- The locks allocated so far, a deleted one `none`, and the key's pair of pointer and count.
pub record Table : Type 0 where
  pub heap : List (Option ℤ)
  pub entry : Option (ℕ × ℕ)

abbrev pub deref : List (Option ℤ) → ℕ → Outcome ℤ
deref h p = elim (get_or h p none) [ none ↦ undefined | some s ↦ ok s ]

-- The pair that a callback of `upsert` works on; a new one has a new lock and the count 0.
unfoldable pub enter : Table → (ℕ × ℕ) × List (Option ℤ)
enter t = elim t.entry [
  | none ↦ ((length t.heap, 0), t.heap ++ (some (pos 0) ∷ []))
  | some v ↦ (v, t.heap)
]

-- What an attempt leaves at the pointer, with the count of either result.
abbrev pub outcome : List (Option ℤ) → ℕ → ℕ → ℕ → Option ℤ → Table × Bool
outcome h p c c' (some s) = (record { heap = set h p (some s); entry = some (p, c') }, true)
outcome h p c c' none = (record { heap = h; entry = some (p, c) }, false)

-- `tryrdlock` and `trywrlock` of the table, and whether the lock is taken.
unfoldable pub try_lock : Kind → Table → Outcome (Table × Bool)
unfolding enter try_state
try_lock k t =
    let ((p, c), h) = enter t in deref h p >>= λ s. ok (outcome h p c (c + 1) (try_state k s))

-- The callback of `lock`, and the pointer that it leaves with the caller.
unfoldable pub pin : Table → Table × ℕ
unfolding enter
pin t = let ((p, c), h) = enter t in (record { heap = h; entry = some (p, c + 1) }, p)

abbrev pub attempt : Table → ℕ → Option ℤ → Table × Bool
attempt t p (some s) = (record t { heap = set t.heap p (some s) }, true)
attempt t p none = (t, false)

-- One attempt of `rwlock->wrlock()` or `rwlock->rdlock()`.
unfoldable pub acquire : Kind → ℕ → Table → Outcome (Table × Bool)
unfolding try_state
acquire k p t = deref t.heap p >>= λ s. ok (attempt t p (try_state k s))

-- `unlock`: `erase_fn` does nothing if the key is not there, and else erases it if the callback
-- returns true.
unfoldable pub unlock : Table → Outcome Table
unfolding released
unlock t = elim t.entry [
  | none ↦ ok t
  | some (p, c) ↦
      if c == 0
      then crashed
      else (deref t.heap p >>= λ s.
          let h = set t.heap p (some (released s s)) in
          ok (record {
            heap = if c == 1 then set h p none else h;
            entry = if c - 1 == 0 then none else some (p, c - 1);
          }))
]

pub data Task : Type 0 where
  out : Task
  waiting : Kind → ℕ → Task
  holding : Kind → Task

pub data Turn : Table → Task → Table → Task → Type 0 where
  tried : (k : Kind) (t t' : Table) → try_lock k t ≡ ok (t', true) → Turn t out t' (holding k)
  refused : (k : Kind) (t t' : Table) → try_lock k t ≡ ok (t', false) → Turn t out t' out
  pinned : (k : Kind) (t : Table) → Turn t out (pin t).0 (waiting k (pin t).1)
  acquired :
      (k : Kind) (p : ℕ) (t t' : Table)
      → acquire k p t ≡ ok (t', true)
      → Turn t (waiting k p) t' (holding k)
  spun :
      (k : Kind) (p : ℕ) (t t' : Table)
      → acquire k p t ≡ ok (t', false)
      → Turn t (waiting k p) t' (waiting k p)
  unlocked : (k : Kind) (t t' : Table) → unlock t ≡ ok t' → Turn t (holding k) t' out

pub data Reach : Table → List Task → Type 0 where
  start : (n : ℕ) → Reach (record { heap = []; entry = none }) (replicate n out)
  more :
      {t t' : Table} {a b : Task} (before after : List Task)
      → Reach t (before ++ (a ∷ after))
      → Turn t a t' b
      → Reach t' (before ++ (b ∷ after))

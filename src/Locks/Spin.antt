-- ===== src/Locks/Spin.antt =====
-- `RWSpinLock`: every load, store and exchange of `state_` is one step of one thread.
use pipe_ann.Base.{
  ℕ, zero, suc, ◌≡◌, ◌≢◌, Bool, true, false, List, ◌∷◌, ◌++◌, ltb, ◌==◌, if◌then◌else◌, replicate,
}
use pipe_ann.Locks.{ℤ, pos, negsuc, int_max}

-- Whether the caller waits: `rdlock` and `wrlock` do, `tryrdlock` and `trywrlock` do not.
pub data Mode : Type 0 where
  try : Mode
  wait : Mode

-- Where a thread stands in the code. `seen` is its local `state`; a thread between two operations
-- holds the lock or is `idle`.
pub data Pc : Type 0 where
  idle : Pc
  rd_load : Mode → Pc
  rd_try : Mode → ℤ → Pc
  rd_spin : Pc
  wr_load : Mode → Pc
  wr_try : Mode → ℤ → Pc
  wr_spin : Pc
  reading : Pc
  writing : Pc
  release_rd : ℤ → Pc
  release_wr : ℤ → Pc

-- `state >= 0 && state < std::numeric_limits<int>::max()`
unfoldable pub can_read : ℤ → Bool
can_read (pos n) = ltb n int_max
can_read (negsuc n) = false

unfoldable pub is_zero : ℤ → Bool
is_zero (pos n) = n == 0
is_zero (negsuc n) = false

unfoldable pub is_write_held : ℤ → Bool
is_write_held (pos n) = false
is_write_held (negsuc n) = n == 0

unfoldable pub incr : ℤ → ℤ
incr (pos n) = pos (suc n)
incr (negsuc zero) = pos 0
incr (negsuc (suc n)) = negsuc n

-- `fetch_sub(1)`
unfoldable pub decr : ℤ → ℤ
decr (pos zero) = negsuc 0
decr (pos (suc n)) = pos n
decr (negsuc n) = negsuc (suc n)

-- What `unlock` leaves of the state, when its load has seen `seen`.
unfoldable pub released : ℤ → ℤ → ℤ
unfolding is_write_held decr
released seen s = if is_write_held seen then pos 0 else decr s

-- `EBUSY` is returned by `tryrdlock`, and sends `rdlock` to its inner loop.
abbrev pub rd_busy : Mode → Pc
rd_busy try = idle
rd_busy wait = rd_spin

abbrev pub wr_busy : Mode → Pc
wr_busy try = idle
wr_busy wait = wr_spin

-- One step of one thread, from a state of the lock to the next.
pub data Move : ℤ → Pc → ℤ → Pc → Type 0 where
  call_rd : (s : ℤ) (m : Mode) → Move s idle s (rd_load m)
  load_rd : (s : ℤ) (m : Mode) → Move s (rd_load m) s (rd_try m s)
  -- The exchange succeeds only if the state is the one seen; a weak one may fail all the same.
  swap_rd : (s : ℤ) (m : Mode) → can_read s ≡ true → Move s (rd_try m s) (incr s) reading
  retry_rd : (s seen : ℤ) (m : Mode) → can_read seen ≡ true → Move s (rd_try m seen) s (rd_try m s)
  busy_rd : (s seen : ℤ) (m : Mode) → can_read seen ≡ false → Move s (rd_try m seen) s (rd_busy m)
  spin_rd : (s : ℤ) → is_write_held s ≡ true → Move s rd_spin s rd_spin
  wake_rd : (s : ℤ) → is_write_held s ≡ false → Move s rd_spin s (rd_load wait)
  call_wr : (s : ℤ) (m : Mode) → Move s idle s (wr_load m)
  load_wr : (s : ℤ) (m : Mode) → Move s (wr_load m) s (wr_try m s)
  swap_wr : (s : ℤ) (m : Mode) → is_zero s ≡ true → Move s (wr_try m s) (negsuc 0) writing
  lost_wr : (s seen : ℤ) (m : Mode) → s ≢ seen → Move s (wr_try m seen) s (wr_busy m)
  busy_wr : (s seen : ℤ) (m : Mode) → is_zero seen ≡ false → Move s (wr_try m seen) s (wr_busy m)
  spin_wr : (s : ℤ) → is_zero s ≡ false → Move s wr_spin s wr_spin
  wake_wr : (s : ℤ) → is_zero s ≡ true → Move s wr_spin s (wr_load wait)
  load_release_rd : (s : ℤ) → Move s reading s (release_rd s)
  load_release_wr : (s : ℤ) → Move s writing s (release_wr s)
  release_rd_step : (s seen : ℤ) → Move s (release_rd seen) (released seen s) idle
  release_wr_step : (s seen : ℤ) → Move s (release_wr seen) (released seen s) idle

pub record System : Type 0 where
  pub state : ℤ
  pub threads : List Pc

-- The threads take their steps in any order.
pub data Step : System → System → Type 0 where
  step :
      (s s' : ℤ) (before : List Pc) (p p' : Pc) (after : List Pc)
      → Move s p s' p'
      → Step
          (record { state = s; threads = before ++ (p ∷ after) })
          (record { state = s'; threads = before ++ (p' ∷ after) })

pub data Reach : System → Type 0 where
  start : (n : ℕ) → Reach (record { state = pos 0; threads = replicate n idle })
  more : {a b : System} → Reach a → Step a b → Reach b

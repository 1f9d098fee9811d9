-- ===== src/Queue.antt =====
-- src/include/utils/concurrent_queue.h: `SPSCQueue`, a ring of `cap` slots of which one stays free.
-- The producer and the consumer each run one operation at a time, an operation is one step.
pub mod Gap
pub mod Fifo
mod Tests
use pipe_ann.Base.{
  ℕ, zero, suc, ◌+◌, ◌-◌, ◌*◌, ◌/◌, ◌%◌, ◌^◌, ◌≤◌, ◌<◌, min, max, ◌≡◌, refl, sym, ap, ◌∙◌, subst,
  ◌≢◌, ◌↔◌, ◌⊎◌, inl, inr, Bool, true, false, ◌&&◌, ◌||◌, not, Option, none, some, List, [], ◌∷◌,
  ◌++◌, map, reverse, append-nil, append_assoc, arith, dec_lt, dec_le, ℕ_discrete, ltb, leb, ◌==◌,
  if◌then◌else◌, ltb→lt, lt→ltb, leb→le, ltb_false→le, le→ltb_false, ==→eq, ==_self, ne→==_false,
  ==_false→ne, tests, Bool-cases, Option-cases, trichotomy, All, length, get_elem?, get_or, set,
  take, drop, replicate, length-append, length-set, length-take, length-drop, length-replicate,
  take-append-drop, take_all, get_or-set_self, get_or-set_ne, get_or-take, memmove, All-append,
  All-take, All-drop, All-get_or, tally, tally-append, tally-replicate_zero, tally_le, All-middle,
  All-replicate,
}

pub record Ring {ℓ} (A : Type ℓ) : Type ℓ where
  pub sq_head : ℕ
  pub sq_tail : ℕ
  pub cap : ℕ
  pub sq_data : List A

module _ {ℓ} {A : Type ℓ} (blank : A) where
  -- `new T[cap]`, its values blank.
  unfoldable pub new_ring : ℕ → Ring A
  new_ring cap = record { sq_head = 0; sq_tail = 0; cap = cap; sq_data = replicate cap blank }

  unfoldable pub push : Ring A → A → Bool × Ring A
  push q x =
      let next = (q.sq_tail + 1) % q.cap in
      if next == q.sq_head
      then (false, q)
      else (true, record q { sq_data = set q.sq_data q.sq_tail x; sq_tail = next })

  unfoldable pub pop : Ring A → Option A × Ring A
  pop q =
      if q.sq_head == q.sq_tail
      then (none, q)
      else (some (get_or q.sq_data q.sq_head blank), record q { sq_head = (q.sq_head + 1) % q.cap })

  -- The loop of `pop_all_fn`: the elements passed to the function, and where it stops.
  unfoldable pub drain : ℕ → List A → ℕ → ℕ → ℕ → List A × ℕ
  drain zero d c h t = ([], h)
  drain (suc fuel) d c h t =
      let (xs, e) = drain fuel d c ((h + 1) % c) t in
      if h == t then ([], h) else (get_or d h blank ∷ xs, e)

  unfoldable pub pop_all_fn : Ring A → List A × Ring A
  unfolding drain
  pop_all_fn q =
      let (xs, e) = drain q.cap q.sq_data q.cap q.sq_head q.sq_tail in
      if q.sq_head == q.sq_tail then ([], q) else (xs, record q { sq_head = e })

  -- `n` slots from `h` on.
  abbrev pub walk : List A → ℕ → ℕ → ℕ → List A
  walk d c h zero = []
  walk d c h (suc n) = get_or d h blank ∷ walk d c ((h + 1) % c) n

  abbrev pub size : Ring A → ℕ
  size q = (q.sq_tail + q.cap - q.sq_head) % q.cap

  -- What the queue holds, the oldest first.
  unfoldable pub items : Ring A → List A
  items q = walk q.sq_data q.cap q.sq_head (size q)

pub record IsRing {ℓ} {A : Type ℓ} (q : Ring A) : Type 0 where
  pub head_low : q.sq_head < q.cap
  pub tail_low : q.sq_tail < q.cap
  pub sized : length q.sq_data ≡ q.cap

-- ===== src/Locks/Pinned.antt =====
-- The count of a key pins its lock: it is there while a thread holds it or waits for it, and gone
-- when no thread does.
use pipe_ann.Base.{
  ℕ, suc, ◌+◌, ◌-◌, ◌<◌, ◌≡◌, refl, sym, ap, ◌∙◌, subst, ◌⊎◌, inl, inr, Bool, true, false, Option,
  none, some, List, [], ◌∷◌, ◌++◌, arith, ℕ_discrete, ◌==◌, if◌then◌else◌, ne→==_false,
  Option-cases, length, get_or, set, length-append, length-set, get_or-set_self,
}
use mathlib.Core.Option.{some-injective}
use pipe_ann.Locations.{Outcome, ok, ◌>>=◌}
use pipe_ann.Locks.{ℤ, pos, negsuc, Kind}
use pipe_ann.Locks.Spin.{can_read, is_zero, incr, released}
use pipe_ann.Locks.Exclusion.{Agrees, swap_rd-Fits, swap_wr-Fits, rd_held, wr_held}
use pipe_ann.Locks.Table.{
  Table, try_state, deref, enter, outcome, attempt, try_lock, pin, acquire, unlock,
}

abbrev pub rd_of : Kind → ℕ
rd_of false = 1
rd_of true = 0

abbrev pub wr_of : Kind → ℕ
wr_of false = 0
wr_of true = 1

-- `r` readers, `w` writers and `n` threads that hold the key's lock or wait for it.
abbrev pub Sound : List (Option ℤ) → Option (ℕ × ℕ) → ℕ → ℕ → ℕ → Type 0
Sound h none r w n = (r ≡ 0) × (w ≡ 0) × (n ≡ 0)
Sound h (some (p, c)) r w n =
    (c ≡ n) × (0 < n) × (p < length h) × ((s : ℤ) × (get_or h p none ≡ some s) × Agrees s r w)

-- The pointer that a waiting thread keeps is the key's.
abbrev pub Points : Option (ℕ × ℕ) → ℕ → Type 0
Points none q = ⊥
Points (some (p, c)) q = p ≡ q

abbrev pub Keeps : Option (ℕ × ℕ) → Option (ℕ × ℕ) → ℕ → Type 0
Keeps e e' n = (n ≡ 0) ⊎ ((q : ℕ) → Points e q → Points e' q)

Agrees-subst : (s : ℤ) {r r' w w' : ℕ} → r ≡ r' → w ≡ w' → Agrees s r w → Agrees s r' w'
Agrees-subst s {r} {r'} {w} {w'} e f a =
    subst (λ k. Agrees s k w') e (subst (λ k. Agrees s r k) f a)

else_some {ℓ} :
    {A : Type ℓ} (b : Bool) (x y : A) → (if b then some x else none) ≡ some y → (b ≡ true) × (x ≡ y)
else_some true x y e = (refl, some-injective x y e)
else_some false x y e = absurd (cc e)

try_state-Agrees :
    (k : Kind) (s s' : ℤ) (r w : ℕ)
    → try_state k s ≡ some s'
    → Agrees s r w
    → Agrees s' (r + rd_of k) (w + wr_of k)
unfolding try_state
try_state-Agrees false s s' r w e a =
    let (c, q) = else_some (can_read s) (incr s) s' e in
    subst (λ z. Agrees z (r + 1) (w + 0)) q
      (swap_rd-Fits s r w c (Agrees-subst s (omega arith) (omega arith) a))
try_state-Agrees true s s' r w e a =
    let (c, q) = else_some (is_zero s) (negsuc 0) s' e in
    subst (λ z. Agrees z (r + 0) (w + 1)) q
      (swap_wr-Fits s r w c (Agrees-subst s (omega arith) (omega arith) a))

released-Agrees :
    (k : Kind) (s : ℤ) (r w : ℕ) → Agrees s (r + rd_of k) (w + wr_of k) → Agrees (released s s) r w
unfolding released
released-Agrees false s r w a =
    let (held, d, z, b) = rd_held s r w a in
    inl (rw (held) (d ∙ ap pos (omega arith)), z, omega (arith, b))
released-Agrees true s r w a =
    let (held, zr, zw) = wr_held s r w a in
    inl (rw (held) (ap pos (omega (arith, zr))), zw, omega (arith, zr))

-- What `enter` works on: a live lock whose state agrees, and the count.
record Entered (t : Table) (r w n : ℕ) (v : (ℕ × ℕ) × List (Option ℤ)) : Type 0 where
  value : ℤ
  count : v.0.1 ≡ n
  inside : v.0.0 < length v.1
  live : get_or v.1 v.0.0 none ≡ some value
  agrees : Agrees value r w
  points : (n ≡ 0) ⊎ ((q : ℕ) → Points t.entry q → v.0.0 ≡ q)

get_or-append_new :
    (h : List (Option ℤ)) (s : ℤ) → get_or (h ++ (some s ∷ [])) (length h) none ≡ some s
get_or-append_new [] s = refl
get_or-append_new (x ∷ h) s = get_or-append_new h s

enter-Entered :
    (h : List (Option ℤ)) (e : Option (ℕ × ℕ)) (r w n : ℕ)
    → Sound h e r w n
    → Entered (record { heap = h; entry = e }) r w n (enter (record { heap = h; entry = e }))
unfolding enter
enter-Entered h none r w n (zr, zw, zn) = record {
  value = pos 0;
  count = sym zn;
  inside = omega (arith, length-append h (some (pos 0) ∷ []));
  live = get_or-append_new h (pos 0);
  agrees = inl (ap pos (sym zr), zw, omega (arith, zr));
  points = inl zn;
}
enter-Entered h (some (p, c)) r w n (e, pos_n, low, (s, l, a)) = record {
  value = s;
  count = e;
  inside = low;
  live = l;
  agrees = a;
  points = inr (λ q x. x);
}

taken-Sound :
    (k : Kind) (h : List (Option ℤ)) (p c : ℕ) (s s' : ℤ) (r w n : ℕ)
    → p < length h
    → Agrees s r w
    → try_state k s ≡ some s'
    → c ≡ n
    → 0 < n
    → Sound (set h p (some s')) (some (p, c)) (r + rd_of k) (w + wr_of k) n
taken-Sound k h p c s s' r w n low a e q pos_n = (
  q,
  pos_n,
  omega (arith, low, length-set h p (some s')),
  (s', get_or-set_self h p (some s') none low, try_state-Agrees k s s' r w e a),
)

deref_lem : (h : List (Option ℤ)) (p : ℕ) (s : ℤ) → get_or h p none ≡ some s → deref h p ≡ ok s
deref_lem h p s e = rw (e, deref) refl

-- A free lock is not refused.
not_refused : (k : Kind) → ¬ (try_state k (pos 0) ≡ none)
unfolding try_state can_read is_zero
not_refused false e = absurd (cc e)
not_refused true e = absurd (cc e)

-- A call that does not fail and leaves a sound table, with or without the lock.
pub record Tried (k : Kind) (t : Table) (r w n others : ℕ) (o : Outcome (Table × Bool))
    : Type 0 where
  pub table : Table
  pub got : Bool
  pub returns : o ≡ ok (table, got)
  pub sound :
      if got
      then Sound table.heap table.entry (r + rd_of k) (w + wr_of k) (suc others)
      else Sound table.heap table.entry r w n
  pub keeps : Keeps t.entry table.entry others
  pub same : got ≡ false → table ≡ t

pub try_lock_lem :
    (k : Kind) (h : List (Option ℤ)) (e : Option (ℕ × ℕ)) (r w n : ℕ)
    → Sound h e r w n
    → Tried k (record { heap = h; entry = e }) r w n n (try_lock k (record { heap = h; entry = e }))
unfolding try_lock enter
try_lock_lem k h none r w n (zr, zw, zn) =
    let h' : List (Option ℤ) = h ++ (some (pos 0) ∷ []) in
    elim (Option-cases (try_state k (pos 0))) [
      | inl never ↦ absurd (not_refused k never)
      | inr (s', took) ↦ record {
        table = record { heap = set h' (length h) (some s'); entry = some (length h, 0 + 1) };
        got = true;
        same = λ e. absurd (cc e);
        returns =
            ap (λ o. o >>= (λ s. ok (outcome h' (length h) 0 (0 + 1) (try_state k s))))
              (deref_lem h' (length h) (pos 0) (get_or-append_new h (pos 0)))
            ∙ ap (λ o. ok (outcome h' (length h) 0 (0 + 1) o)) took;
        sound =
            taken-Sound k h' (length h) (0 + 1) (pos 0) s' r w (suc n)
              (omega (arith, length-append h (some (pos 0) ∷ [])))
              (inl (ap pos (sym zr), zw, omega (arith, zr))) took (omega (arith, zn)) (omega arith);
        keeps = inl zn;
      }
    ]
try_lock_lem k h (some (p, c)) r w n (q, pos_n, low, (s, l, a)) =
    elim (Option-cases (try_state k s)) [
      | inl never ↦ record {
        table = record { heap = h; entry = some (p, c) };
        got = false;
        same = λ e. refl;
        returns =
            ap (λ o. o >>= (λ s. ok (outcome h p c (c + 1) (try_state k s)))) (deref_lem h p s l)
            ∙ ap (λ o. ok (outcome h p c (c + 1) o)) never;
        sound = (q, pos_n, low, (s, l, a));
        keeps = inr (λ q x. x);
      }
      | inr (s', took) ↦ record {
        table = record { heap = set h p (some s'); entry = some (p, c + 1) };
        got = true;
        same = λ e. absurd (cc e);
        returns =
            ap (λ o. o >>= (λ s. ok (outcome h p c (c + 1) (try_state k s)))) (deref_lem h p s l)
            ∙ ap (λ o. ok (outcome h p c (c + 1) o)) took;
        sound =
            taken-Sound k h p (c + 1) s s' r w (suc n) low a took (omega (arith, q)) (omega arith);
        keeps = inr (λ q x. x);
      }
    ]

pub acquire_lem :
    (k : Kind) (q : ℕ) (h : List (Option ℤ)) (e : Option (ℕ × ℕ)) (r w n : ℕ)
    → Sound h e r w (suc n)
    → Points e q
    → Tried k
        (record { heap = h; entry = e })
        r
        w
        (suc n)
        n
        (acquire k q (record { heap = h; entry = e }))
unfolding acquire
acquire_lem k q h none r w n f x = absurd x
acquire_lem k q h (some (p, c)) r w n (cn, pos_n, low, (s, l, a)) x =
    let live : get_or h q none ≡ some s = ap (λ i. get_or h i none) (sym x) ∙ l in
    elim (Option-cases (try_state k s)) [
      | inl never ↦ record {
        table = record { heap = h; entry = some (p, c) };
        got = false;
        same = λ e. refl;
        returns =
            ap
              (λ o. o >>= (λ s.
                ok (attempt (record { heap = h; entry = some (p, c) }) q (try_state k s))))
              (deref_lem h q s live)
            ∙ ap (λ o. ok (attempt (record { heap = h; entry = some (p, c) }) q o)) never;
        sound = (cn, pos_n, low, (s, l, a));
        keeps = inr (λ q x. x);
      }
      | inr (s', took) ↦ record {
        table = record { heap = set h q (some s'); entry = some (p, c) };
        got = true;
        same = λ e. absurd (cc e);
        returns =
            ap
              (λ o. o >>= (λ s.
                ok (attempt (record { heap = h; entry = some (p, c) }) q (try_state k s))))
              (deref_lem h q s live)
            ∙ ap (λ o. ok (attempt (record { heap = h; entry = some (p, c) }) q o)) took;
        sound =
            subst (λ i. Sound (set h i (some s')) (some (p, c)) (r + rd_of k) (w + wr_of k) (suc n))
              x (taken-Sound k h p c s s' r w (suc n) low a took cn pos_n);
        keeps = inr (λ q x. x);
      }
    ]

pub pin_lem :
    (h : List (Option ℤ)) (e : Option (ℕ × ℕ)) (r w n : ℕ)
    → Sound h e r w n
    → let t' = (pin (record { heap = h; entry = e })).0 in
      Sound t'.heap t'.entry r w (suc n)
      × Points t'.entry (pin (record { heap = h; entry = e })).1
      × Keeps e t'.entry n
unfolding pin enter
pin_lem h none r w n (zr, zw, zn) = (
  (
    omega (arith, zn),
    omega arith,
    omega (arith, length-append h (some (pos 0) ∷ [])),
    (pos 0, get_or-append_new h (pos 0), inl (ap pos (sym zr), zw, omega (arith, zr))),
  ),
  refl,
  inl zn,
)
pin_lem h (some (p, c)) r w n (q, pos_n, low, rest) =
    ((omega (arith, q), omega arith, low, rest), refl, inr (λ q x. x))

-- An unlock by a holder finds the lock and frees it with the last thread.
pub record Unlocked (t : Table) (r w n : ℕ) (o : Outcome Table) : Type 0 where
  pub table : Table
  pub returns : o ≡ ok table
  pub sound : Sound table.heap table.entry r w n
  pub keeps : Keeps t.entry table.entry n

pub unlock_lem :
    (k : Kind) (h : List (Option ℤ)) (e : Option (ℕ × ℕ)) (r w n : ℕ)
    → Sound h e (r + rd_of k) (w + wr_of k) (suc n)
    → (n ≡ 0 → (r ≡ 0) × (w ≡ 0))
    → Unlocked (record { heap = h; entry = e }) r w n (unlock (record { heap = h; entry = e }))
unfolding unlock
unlock_lem k h none r w n (zr, zw, zn) alone = absurd (omega (arith, zn))
unlock_lem k h (some (p, c)) r w n (cn, pos_n, low, (s, l, a)) alone =
    let z : (c == 0) ≡ false = ne→==_false c 0 (omega (arith, cn)) in
    let a' : Agrees (released s s) r w = released-Agrees k s r w a in
    elim (ℕ_discrete n 0) [
      | yes last ↦
          let o : (c == 1) ≡ true = ground (arith, cn, last) in
          let o' : (c - 1 == 0) ≡ true = ground (arith, cn, last) in
          record {
            table = record { heap = set (set h p (some (released s s))) p none; entry = none };
            returns = rw (z, deref_lem h p s l, o, o') refl;
            sound = ((alone last).0, (alone last).1, last);
            keeps = inl last;
          }
      | no others ↦
          let o : (c == 1) ≡ false = ne→==_false c 1 (omega (arith, cn, others)) in
          let o' : (c - 1 == 0) ≡ false = ne→==_false (c - 1) 0 (omega (arith, cn, others)) in
          record {
            table = record { heap = set h p (some (released s s)); entry = some (p, c - 1) };
            returns = rw (z, deref_lem h p s l, o, o') refl;
            sound = (
              omega (arith, cn),
              omega (arith, others),
              omega (arith, low, length-set h p (some (released s s))),
              (released s s, get_or-set_self h p (some (released s s)) none low, a'),
            );
            keeps = inr (λ q x. x);
          }
    ]

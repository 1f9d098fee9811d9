-- ===== src/Locks/Exclusion.antt =====
-- The state of a spin lock counts its holders, whatever the interleaving.
use pipe_ann.Base.{
  ℕ, suc, ◌+◌, ◌≤◌, ◌≡◌, refl, sym, ap, ◌∙◌, subst, ◌⊎◌, inl, inr, true, false, ◌∷◌, ◌++◌, arith,
  ltb, ◌==◌, All, tally, tally-append, tally-replicate_zero, All-middle, All-replicate,
}
use pipe_ann.Locks.{ℤ, pos, negsuc, int_max}
use pipe_ann.Locks.Spin.{
  Mode, try, wait, Pc, idle, reading, writing, release_rd, release_wr, can_read, is_zero,
  is_write_held, incr, decr, released, rd_busy, wr_busy, Move, call_rd, load_rd, swap_rd, retry_rd,
  busy_rd, spin_rd, wake_rd, call_wr, load_wr, swap_wr, lost_wr, busy_wr, spin_wr, wake_wr,
  load_release_rd, load_release_wr, release_rd_step, release_wr_step, System, Step, step, Reach,
  start, more,
}

-- A thread holds the lock until the step that gives it up.
abbrev pub reads : Pc → ℕ
reads reading = 1
reads (release_rd seen) = 1
reads _ = 0

abbrev pub writes : Pc → ℕ
writes writing = 1
writes (release_wr seen) = 1
writes _ = 0

abbrev pub Agrees : ℤ → ℕ → ℕ → Type 0
Agrees s r w = ((s ≡ pos r) × (w ≡ 0) × (r ≤ int_max)) ⊎ ((s ≡ negsuc 0) × (r ≡ 0) × (w ≡ 1))

-- What a release has loaded tells its kind.
abbrev SawRight : Pc → Type 0
SawRight (release_rd seen) = is_write_held seen ≡ false
SawRight (release_wr seen) = is_write_held seen ≡ true
SawRight _ = Unit

-- The count of one thread and that of the others.
abbrev Fits : ℤ → ℕ → ℕ → Pc → Type 0
Fits s r w p = Agrees s (r + reads p) (w + writes p) × SawRight p

rd_busy-Fits : (s : ℤ) (r w : ℕ) (m : Mode) → Agrees s (r + 0) (w + 0) → Fits s r w (rd_busy m)
rd_busy-Fits s r w try a = (a, tt)
rd_busy-Fits s r w wait a = (a, tt)

wr_busy-Fits : (s : ℤ) (r w : ℕ) (m : Mode) → Agrees s (r + 0) (w + 0) → Fits s r w (wr_busy m)
wr_busy-Fits s r w try a = (a, tt)
wr_busy-Fits s r w wait a = (a, tt)

pub swap_rd-Fits :
    (s : ℤ) (r w : ℕ)
    → can_read s ≡ true
    → Agrees s (r + 0) (w + 0)
    → Agrees (incr s) (r + 1) (w + 0)
unfolding can_read incr
swap_rd-Fits s r w c (inl (e, z, b)) =
    let room : ltb (r + 0) int_max ≡ true = sym (ap can_read e) ∙ c in
    inl (ap incr e ∙ ap pos (omega arith), z, ground (arith, room))
swap_rd-Fits s r w c (inr (e, z, b)) =
    let no : false ≡ true = sym (ap can_read e) ∙ c in absurd (cc no)

pub swap_wr-Fits :
    (s : ℤ) (r w : ℕ)
    → is_zero s ≡ true
    → Agrees s (r + 0) (w + 0)
    → Agrees (negsuc 0) (r + 0) (w + 1)
unfolding is_zero
swap_wr-Fits s r w c (inl (e, z, b)) =
    let none_left : (r + 0 == 0) ≡ true = sym (ap is_zero e) ∙ c in
    inr (refl, ground (arith, none_left), omega (arith, z))
swap_wr-Fits s r w c (inr (e, z, b)) =
    let no : false ≡ true = sym (ap is_zero e) ∙ c in absurd (cc no)

pub rd_held :
    (s : ℤ) (r w : ℕ)
    → Agrees s (r + 1) (w + 0)
    → (is_write_held s ≡ false) × (decr s ≡ pos (r + 0)) × (w ≡ 0) × (r + 0 ≤ int_max)
unfolding is_write_held decr
rd_held s r w (inl (e, z, b)) =
    let e' : s ≡ pos (suc (r + 0)) = e ∙ ap pos (omega arith) in
    (ap is_write_held e', ap decr e', omega (arith, z), omega (arith, b))
rd_held s r w (inr (e, z, b)) = absurd (omega (arith, z))

pub wr_held :
    (s : ℤ) (r w : ℕ) → Agrees s (r + 0) (w + 1) → (is_write_held s ≡ true) × (r ≡ 0) × (w ≡ 0)
unfolding is_write_held
wr_held s r w (inl (e, z, b)) = absurd (omega (arith, z))
wr_held s r w (inr (e, z, b)) = (ap is_write_held e, omega (arith, z), omega (arith, b))

Move-Fits : {s s' : ℤ} {p p' : Pc} (r w : ℕ) → Move s p s' p' → Fits s r w p → Fits s' r w p'
unfolding released
Move-Fits r w (call_rd s m) f = f
Move-Fits r w (load_rd s m) f = f
Move-Fits r w (swap_rd s m c) f = (swap_rd-Fits s r w c f.0, tt)
Move-Fits r w (retry_rd s seen m c) f = f
Move-Fits r w (busy_rd s seen m c) f = rd_busy-Fits s r w m f.0
Move-Fits r w (spin_rd s c) f = f
Move-Fits r w (wake_rd s c) f = f
Move-Fits r w (call_wr s m) f = f
Move-Fits r w (load_wr s m) f = f
Move-Fits r w (swap_wr s m c) f = (swap_wr-Fits s r w c f.0, tt)
Move-Fits r w (lost_wr s seen m c) f = wr_busy-Fits s r w m f.0
Move-Fits r w (busy_wr s seen m c) f = wr_busy-Fits s r w m f.0
Move-Fits r w (spin_wr s c) f = f
Move-Fits r w (wake_wr s c) f = f
Move-Fits r w (load_release_rd s) f = (f.0, (rd_held s r w f.0).0)
Move-Fits r w (load_release_wr s) f = (f.0, (wr_held s r w f.0).0)
Move-Fits r w (release_rd_step s seen) f =
    let (held, d, z, b) = rd_held s r w f.0 in (inl (rw (f.1) d, omega (arith, z), b), tt)
Move-Fits r w (release_wr_step s seen) f =
    let (held, zr, zw) = wr_held s r w f.0 in
    (inl (rw (f.1) (ap pos (omega (arith, zr))), omega (arith, zw), omega (arith, zr)), tt)

-- The state counts the holders, at most one writes, and then none reads.
pub record IsExclusive (a : System) : Type 0 where
  pub agrees : Agrees a.state (tally reads a.threads) (tally writes a.threads)
  pub saw : All SawRight a.threads

Step-IsExclusive : (a b : System) → Step a b → IsExclusive a → IsExclusive b
Step-IsExclusive a b (step s s' before p p' after m) i =
    let r : ℕ = tally reads before + tally reads after in
    let w : ℕ = tally writes before + tally writes after in
    let (saw, put) = All-middle SawRight before p p' after i.saw in
    let here : Agrees s (r + reads p) (w + writes p) =
      subst (λ k. Agrees s k (w + writes p)) (tally-append reads before p after)
        (subst (Agrees s (tally reads (before ++ (p ∷ after)))) (tally-append writes before p after)
          i.agrees) in
    let (next, saw') = Move-Fits r w m (here, saw) in
    record {
      agrees =
          subst (λ k. Agrees s' k (tally writes (before ++ (p' ∷ after))))
            (sym (tally-append reads before p' after))
            (subst (Agrees s' (r + reads p')) (sym (tally-append writes before p' after)) next);
      saw = put saw';
    }

-- From a free lock, however the threads interleave their loads, exchanges and releases: while a
-- thread writes no other thread reads or writes, and the state is -1 then and otherwise the
-- number of threads that read.
pub Reach-IsExclusive : (a : System) → Reach a → IsExclusive a
Reach-IsExclusive a (start n) = record {
  agrees = inl (
    ap pos (sym (tally-replicate_zero reads n idle refl)),
    tally-replicate_zero writes n idle refl,
    omega (arith, tally-replicate_zero reads n idle refl),
  );
  saw = All-replicate SawRight n idle tt;
}
Reach-IsExclusive b (more {a} r s) = Step-IsExclusive a b s (Reach-IsExclusive a r)

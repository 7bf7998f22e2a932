-- ===== src/Lock/Exclusion.antt =====
-- One thread at a time is in a section.
use vee.Base.{ℕ, ◌≡◌, refl, sym, ap, ◌∙◌, Bool, true, false, List, arith, update}
use vee.Lock.{SpinLock, new_spin_lock, lock_round, test_and_set, unlock}
use vee.Lock.Threads.{
  Pc, outside, spinning, entered, loaded, leaving, Shared, start, Step, calls, spins, locks, loads,
  stores, unlocks, Reach, here, later,
}

-- Between the end of `lock` and `unlock`.
abbrev pub critical {ℓ} : {X : Type ℓ} → Pc X → Bool
critical outside = false
critical (spinning f) = false
critical (entered f) = true
critical (loaded f x) = true
critical leaving = true

-- The flag is set just where a thread is in a section, and no other is then.
pub record IsExclusive {ℓ} {X : Type ℓ} (s : Shared X) : Type ℓ where
  pub set : (i : ℕ) → critical (s.pc i) ≡ true → s.guard.flag ≡ true
  pub unique : (i j : ℕ) → critical (s.pc i) ≡ true → critical (s.pc j) ≡ true → i ≡ j
  pub held : s.guard.flag ≡ true → (i : ℕ) × (critical (s.pc i) ≡ true)

module _ {ℓ} {X : Type ℓ} where
  -- A thread that stays inside or outside.
  kept-IsExclusive :
      (s : Shared X) (i : ℕ) (p : Pc X) (x : X)
      → IsExclusive s
      → critical p ≡ critical (s.pc i)
      → IsExclusive (record s { object = x; pc = update s.pc i p })
  kept-IsExclusive s i p x v same = record {
    set = λ j h. v.set j (by_thread j h);
    unique = λ j k h g. v.unique j k (by_thread j h) (by_thread k g);
    held = λ h. let (j, g) = v.held h in (j, ground (arith, g, same));
  }
    where
      by_thread : (j : ℕ) → critical (update s.pc i p j) ≡ true → critical (s.pc j) ≡ true
      by_thread j h = ground (arith, same, h)

  -- The lock was tried while it was held.
  again-IsExclusive :
      (s : Shared X) (l : SpinLock)
      → IsExclusive s
      → s.guard.flag ≡ l.flag
      → IsExclusive (record s { guard = l })
  again-IsExclusive s l v same = record {
    set = λ j h. sym same ∙ v.set j h;
    unique = v.unique;
    held = λ h. v.held (same ∙ h);
  }

  entered-IsExclusive :
      (s : Shared X) (i : ℕ) (p : Pc X) (l : SpinLock)
      → IsExclusive s
      → s.guard.flag ≡ false
      → l.flag ≡ true
      → critical p ≡ true
      → IsExclusive (record s { guard = l; pc = update s.pc i p })
  entered-IsExclusive s i p l v free taken inside = record {
    set = λ j h. taken;
    unique = λ j k h g. ground (arith, v.set j, v.set k, free);
    held = λ h. (i, ground (arith, inside));
  }

  left-IsExclusive :
      (s : Shared X) (i : ℕ) (p : Pc X) (l : SpinLock)
      → IsExclusive s
      → l.flag ≡ false
      → critical (s.pc i) ≡ true
      → critical p ≡ false
      → IsExclusive (record s { guard = l; pc = update s.pc i p })
  left-IsExclusive s i p l v free was out = record {
    set = λ j h. ground (arith, v.unique i j);
    unique = λ j k h g. ground (arith, v.unique i j, v.unique i k);
    held = λ h. ground (arith, free, h);
  }

  pub Step-IsExclusive :
      {s t : Shared X} {fs : List (X → X)} → Step s fs t → IsExclusive s → IsExclusive t
  unfolding lock_round test_and_set unlock
  Step-IsExclusive {s} (calls i f e) v =
      kept-IsExclusive s i (spinning f) s.object v (ap critical (sym e))
  Step-IsExclusive {s} (spins i {f} {l} e r) v = again-IsExclusive s l v (ground (arith, r))
  Step-IsExclusive {s} (locks i {f} {l} e r) v =
      entered-IsExclusive s i (entered f) l v (ground (arith, r)) (ground (arith, r)) refl
  Step-IsExclusive {s} (loads i {f} e) v =
      kept-IsExclusive s i (loaded f s.object) s.object v (ap critical (sym e))
  Step-IsExclusive {s} (stores i {f} {x} e) v =
      kept-IsExclusive s i leaving (f x) v (ap critical (sym e))
  Step-IsExclusive {s} (unlocks i e) v =
      left-IsExclusive s i outside (unlock s.guard) v refl (ap critical e) refl

  start-IsExclusive : (x : X) → IsExclusive (start x)
  unfolding new_spin_lock
  start-IsExclusive x = record {
    set = λ i h. absurd (ground (arith, h));
    unique = λ i j h g. absurd (ground (arith, h));
    held = λ h. absurd (ground (arith, h));
  }

  -- However the calls of `lock` and `unlock` of threads that share a spin lock interleave, where
  -- none calls `try_lock`: at most one thread is between the end of `lock` and `unlock`, and the
  -- flag is set just while there is one.
  pub Reach-IsExclusive :
      {x : X} {t : Shared X} {fs : List (X → X)} → Reach (start x) fs t → IsExclusive t
  Reach-IsExclusive {x} here = start-IsExclusive x
  Reach-IsExclusive (later r st) = Step-IsExclusive st (Reach-IsExclusive r)

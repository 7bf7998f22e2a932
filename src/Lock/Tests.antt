-- ===== src/Lock/Tests.antt =====
-- Two threads that increment a number under a spin lock.
use vee.Base.{ℕ, suc, ◌≡◌, refl, true, false, [], ◌∷◌, update}
use vee.Lock.{new_spin_lock, test_and_set, lock_round, try_lock}
use vee.Lock.Threads.{
  Shared, start, outside, spinning, entered, loaded, leaving, calls, spins, locks, loads, stores,
  Reach, here, later,
}
use vee.Lock.Exclusion.{IsExclusive, Reach-IsExclusive}
use vee.Lock.Serial.{run, Reach-serial}

-- `try_lock` of a free lock returns false, and takes it; that of a held lock returns true.
try_lock_inverted : (try_lock new_spin_lock).0 ≡ false
unfolding try_lock test_and_set new_spin_lock
try_lock_inverted = refl

try_lock_held : (try_lock (try_lock new_spin_lock).1).0 ≡ true
unfolding try_lock test_and_set new_spin_lock
try_lock_held = refl

abbrev both_called : Shared ℕ
both_called = record {
  guard = new_spin_lock;
  object = 5;
  pc = update (update (λ i. outside) 0 (spinning suc)) 1 (spinning suc);
}

-- The second thread has the lock and the first waits.
abbrev one_inside : Shared ℕ
one_inside = record {
  guard = record { flag = true };
  object = 5;
  pc = update both_called.pc 1 (entered suc);
}

abbrev one_loaded : Shared ℕ
one_loaded = record one_inside { pc = update one_inside.pc 1 (loaded suc 5) }

abbrev one_stored : Shared ℕ
one_stored = record one_loaded { object = 6; pc = update one_loaded.pc 1 leaving }

waiting : Reach (start 5) (suc ∷ []) one_stored
unfolding lock_round test_and_set new_spin_lock
waiting =
    later
      (later
        (later
          (later (later (later here (calls 0 suc refl)) (calls 1 suc refl)) (locks 1 refl refl))
          (spins 0 refl refl))
        (loads 1 refl))
      (stores 1 refl)

Reach-IsExclusive_example : IsExclusive one_stored
Reach-IsExclusive_example = Reach-IsExclusive waiting

Reach-serial_example : 6 ≡ run (suc ∷ []) 5
Reach-serial_example = Reach-serial waiting

-- ===== src/Queue/GuardedTests.antt =====
-- A thread that has reserved a slot of an empty queue and is about to unlock.
use vee.Base.{ℕ, ◌≡◌, refl, true, false, [], ◌∷◌, map, arith, update}
use vee.Lock.{new_spin_lock, test_and_set, lock_round}
use vee.Lock.Threads.{
  Shared, start, outside, spinning, entered, loaded, leaving, calls, locks, loads, stores, Reach,
  here, later,
}
use vee.Lock.Serial.{run}
use vee.Queue.{Ring}
use vee.Queue.Invariant.{IsValid}
use vee.Queue.Guarded.{reserving, section_of, guarded-IsValid}

abbrev two_slots : Ring ℕ
two_slots = record {
  item_guards = false ∷ false ∷ [];
  item_container = 0 ∷ 0 ∷ [];
  capacity = 2;
  overwrite_mode = false;
  rear = 0;
  front = 0;
  size = 0;
}

two_slots-IsValid : IsValid two_slots
two_slots-IsValid = record {
  small = omega arith;
  guards = refl;
  items = refl;
  front_in = omega arith;
  size_in = omega arith;
  rear_at = refl;
}

abbrev reserved_one : Shared (Ring ℕ)
reserved_one = record {
  guard = record { flag = true };
  object = section_of reserving two_slots;
  pc =
      update
        (update
          (update (update (λ i. outside) 0 (spinning (section_of reserving))) 0
            (entered (section_of reserving)))
          0 (loaded (section_of reserving) two_slots))
        0 leaving;
}

reserved_one-Reach : Reach (start two_slots) (map section_of (reserving ∷ [])) reserved_one
unfolding lock_round test_and_set new_spin_lock
reserved_one-Reach =
    later
      (later (later (later here (calls 0 (section_of reserving) refl)) (locks 0 refl refl))
        (loads 0 refl))
      (stores 0 refl)

guarded-IsValid_example :
    (reserved_one.object ≡ run (map section_of (reserving ∷ [])) two_slots)
    × IsValid reserved_one.object
guarded-IsValid_example =
    guarded-IsValid 0 two_slots (reserving ∷ []) reserved_one two_slots-IsValid reserved_one-Reach

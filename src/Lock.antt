-- ===== src/Lock.antt =====
-- vee/lock.h, libvee_master/lock/lock_impl.cpp, vee/flag.h: the locks and the flags. The memory
-- orders are those of the defaults, acquire and release, under which the sections of a lock are
-- in one order; a step is one access to what the threads share.
pub mod Threads
pub mod Exclusion
pub mod Serial
mod Tests
use vee.Base.{ℕ, Bool, true, false, not, ◌==◌, if◌then◌else◌}

-- `spin_lock`, with the value of its `std::atomic_flag`.
pub record SpinLock : Type 0 where
  pub flag : Bool

-- The constructor clears the flag.
unfoldable pub new_spin_lock : SpinLock
new_spin_lock = record { flag = false }

-- `test_and_set`: the value before, and the flag set.
unfoldable pub test_and_set : SpinLock → Bool × SpinLock
test_and_set l = (l.flag, record { flag = true })

-- One round of the loop of `lock`: whether the loop goes on, and the lock after.
unfoldable pub lock_round : SpinLock → Bool × SpinLock
unfolding test_and_set
lock_round l = let r = test_and_set l in if r.0 then (true, r.1) else (false, r.1)

-- `try_lock` returns what `test_and_set` does: the value of the flag before.
unfoldable pub try_lock : SpinLock → Bool × SpinLock
unfolding test_and_set
try_lock l = test_and_set l

unfoldable pub unlock : SpinLock → SpinLock
unlock l = record { flag = false }

-- `empty_mutex`, which has no state: `lock` and `unlock` do nothing.
unfoldable pub empty_try_lock : Bool
empty_try_lock = true

-- `flag`, as `integer_flag` and `bool_flag` have it: false is 0.
pub record Flag : Type 0 where
  pub value : ℕ

unfoldable pub new_flag : Flag
new_flag = record { value = 0 }

unfoldable pub set_flag : Flag → ℕ → Flag
set_flag f val = record { value = val }

unfoldable pub is_true : Flag → Bool
is_true f = not (f.value == 0)

unfoldable pub is_false : Flag → Bool
is_false f = f.value == 0

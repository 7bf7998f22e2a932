-- ===== src/Timer.antt =====
-- libvee_master/voost/timer/xtimer.cpp: `xasync_timer`. `_state_id` is a number, since
-- `_running_state` is one: 0 is IDLE and 1 is RUN. A callback is known by a number too; what it
-- does to the timer and to the world outside is a parameter, as is the steady timer of boost.
pub mod Ticks
pub mod Waits
mod Tests
use vee.Base.{ℕ, ◌*◌, ◌%◌, ◌^◌, Bool, true, false, ◌==◌, if◌then◌else◌}
use vee.Base.Word.{u32, increment}

abbrev pub idle : ℕ
idle = 0

abbrev pub running : ℕ
running = 1

-- The members, with the steady timer's own state.
pub record Timer (Steady : Type 0) : Type 0 where
  pub e : ℕ
  pub tick : ℕ
  pub steady : Steady
  pub running_state : ℕ
  pub period : ℕ

-- What the code calls of a steady timer of boost.
pub record SteadyTimer : Type 1 where
  pub State : Type 0
  pub expires_from_now : State → ℕ → State
  pub async_wait : State → State

module _ (boost : SteadyTimer) (World : Type 0) where
  open boost use {State, expires_from_now, async_wait}

  unfoldable pub is_running : Timer State → Bool
  is_running t = t.running_state == running

  unfoldable pub set_timer : Timer State → Timer State
  set_timer t = record t { steady = async_wait (expires_from_now t.steady t.period) }

  -- `run` with a period in milliseconds: whether the timer was idle, and the timer after it. The
  -- running state is set by the exchange, and once more.
  unfoldable pub run : Timer State → ℕ → ℕ → Bool × Timer State
  unfolding set_timer
  run t time_period_ms callback =
      if t.running_state == idle
      then (
        true,
        set_timer
            (record t { e = callback; tick = 0; running_state = running; period = time_period_ms }),
      )
      else (false, t)

  -- `run` with a period in seconds, whose product with 1000 is an unsigned int.
  unfoldable pub run_seconds : Timer State → ℕ → ℕ → Bool × Timer State
  unfolding run
  run_seconds t seconds callback = run t (u32 (seconds * 1000)) callback

  unfoldable pub stop : Timer State → Bool × Timer State
  stop t =
      if t.running_state == running then (true, record t { running_state = idle }) else (false, t)

  module _ (calls : ℕ → ℕ → Timer State × World → Timer State × World) where
    -- Behind the call of `_e`, which may have changed the timer.
    unfoldable pub rearm : Timer State × World → Timer State × World
    unfolding set_timer
    rearm (t, w) = (set_timer t, w)

    -- The steady timer has fired, with an error or without. An error is only printed.
    unfoldable pub on_timer : Bool → Timer State × World → Timer State × World
    unfolding is_running rearm
    on_timer error (t, w) =
        if error
        then (t, w)
        else if is_running t
        then (let next = increment t.tick in rearm (calls t.e next (record t { tick = next }, w)))
        else (t, w)

-- ===== src/Timer/Tests.antt =====
-- The timer at work: a steady timer that counts the waits that were started.
use vee.Base.{ℕ, ◌+◌, ◌≡◌, ◌==◌, if◌then◌else◌, List, refl, true, false, List, [], ◌∷◌}
use vee.Timer.{set_timer, Timer, SteadyTimer, run, run_seconds, stop, on_timer}
use vee.Timer.Waits.{Call, call_run, call_stop, waits_timer, Waits, Scene, idle_timer}
use vee.Timer.Ticks.{stop-on_timer, notes}

abbrev counting : SteadyTimer
counting = record { State = ℕ; expires_from_now = λ s p. s; async_wait = λ s. s + 1 }

abbrev new_timer : Timer ℕ
new_timer = record { e = 0; tick = 0; steady = 0; running_state = 0; period = 0 }

abbrev on : Timer ℕ
on = record new_timer { running_state = 1 }

-- The product of the seconds wraps.
run_seconds_test : (run_seconds counting (List ℕ) new_timer 4294968 5).1.period ≡ 704
unfolding run_seconds
run_seconds_test = refl

stop-on_timer_example :
    (run counting (List ℕ) on 100 5 ≡ (false, on))
    × ((stop counting (List ℕ) on).0 ≡ true)
    × (on_timer counting (List ℕ) (notes counting) false ((stop counting (List ℕ) on).1, [])
        ≡ ((stop counting (List ℕ) on).1, []))
stop-on_timer_example = stop-on_timer counting (List ℕ) (notes counting) on 100 5 false [] refl

-- The callback 6 stops its timer and runs it again at its first tick.
abbrev restarts : ℕ → ℕ → List Call
restarts callback tick = if callback == 6 then call_stop ∷ call_run 30 7 ∷ [] else []

-- Run, stopped and run again: the first wait is cancelled, and the second has ticked once, with a
-- callback that has run the timer anew.
abbrev ticked : Scene
ticked = (
  record {
    e = 7;
    tick = 0;
    steady = record { pending = 1; over = 0; cancelled = 2 };
    running_state = 1;
    period = 30;
  },
  1 ∷ [],
)

-- Run while the handler of the run before is queued: two waits are under way.
abbrev queued : Timer Waits
queued = record idle_timer { steady = record { pending = 0; over = 1; cancelled = 0 } }

run_queued_test :
    (run waits_timer (List ℕ) queued 10 5).1.steady
    ≡ record { pending = 1; over = 1; cancelled = 0 }
unfolding run set_timer
run_queued_test = refl

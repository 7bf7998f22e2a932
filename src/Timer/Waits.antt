-- ===== src/Timer/Waits.antt =====
-- The waits of a timer: what is pending with the steady timer of boost, and which handlers are in
-- the queue of its event loop, while the timer is run and stopped.
use vee.Base.{ℕ, suc, ◌+◌, ◌≤◌, ◌≡◌, ◌≢◌, ◌⊎◌, true, false, List, [], ◌++◌, ◌∷◌}
use vee.Timer.{Timer, SteadyTimer, idle, running, run, stop, on_timer}

-- A steady timer as it is documented: the waits that are pending, and the handlers that are queued,
-- those of waits that are over and those of waits that were cancelled.
pub record Waits : Type 0 where
  pub pending : ℕ
  pub over : ℕ
  pub cancelled : ℕ

-- A new expiry cancels the waits that are pending, but no handler that is queued.
abbrev pub waits_timer : SteadyTimer
waits_timer = record {
  State = Waits;
  expires_from_now =
      λ s period. record { pending = 0; over = s.over; cancelled = s.cancelled + s.pending };
  async_wait = λ s. record s { pending = s.pending + 1 };
}

-- The timer, with the ticks that its callbacks were called with.
abbrev pub Scene : Type 0
Scene = Timer Waits × List ℕ

-- What is called of the timer while its callback is run: by the callback, or by another thread
-- between the test of `_on_timer` and its `_set_timer`.
pub data Call : Type 0 where
  call_run : ℕ → ℕ → Call
  call_stop : Call

abbrev pub perform : Call → Timer Waits → Timer Waits
perform (call_run period callback) t = (run waits_timer (List ℕ) t period callback).1
perform call_stop t = (stop waits_timer (List ℕ) t).1

abbrev pub perform_all : List Call → Timer Waits → Timer Waits
perform_all [] t = t
perform_all (c ∷ cs) t = perform_all cs (perform c t)

-- Callbacks that note their tick, and what is called of the timer at each tick.
abbrev pub noting : (ℕ → ℕ → List Call) → ℕ → ℕ → Scene → Scene
noting script callback tick (t, log) = (perform_all (script callback tick) t, log ++ tick ∷ [])

abbrev pub with_waits : Timer Waits → Waits → Timer Waits
with_waits t s = record t { steady = s }

-- Outside of a callback, `run` is called where no handler of an expiry is queued.
pub data Step (script : ℕ → ℕ → List Call) (s : Scene) : Scene → Type 0 where
  runs :
      (period callback : ℕ)
      → s.0.steady.over ≡ 0
      → Step script s ((run waits_timer (List ℕ) s.0 period callback).1, s.1)
  stops : Step script s ((stop waits_timer (List ℕ) s.0).1, s.1)
  expires :
      (n : ℕ)
      → s.0.steady.pending ≡ suc n
      → Step script s
          (with_waits s.0 (record s.0.steady { pending = n; over = suc s.0.steady.over }), s.1)
  fires :
      (n : ℕ)
      → s.0.steady.over ≡ suc n
      → Step script s (
          on_timer waits_timer
            (List ℕ)
            (noting script)
            false
            (with_waits s.0 (record s.0.steady { over = n }), s.1))
  aborts :
      (n : ℕ)
      → s.0.steady.cancelled ≡ suc n
      → Step script s (
          on_timer waits_timer
            (List ℕ)
            (noting script)
            true
            (with_waits s.0 (record s.0.steady { cancelled = n }), s.1))

pub data Reach (script : ℕ → ℕ → List Call) (s : Scene) : Scene → Type 0 where
  here : Reach script s s
  later : {t u : Scene} → Reach script s t → Step script t u → Reach script s u

-- One wait is pending or over while the timer runs, and never two.
abbrev pub IsSingle : Scene → Type 0
IsSingle s =
    (s.0.steady.pending + s.0.steady.over ≤ 1)
    × ((s.0.running_state ≢ running) ⊎ (s.0.steady.pending + s.0.steady.over ≡ 1))

-- A timer that is idle, and has not been run.
abbrev pub idle_timer : Timer Waits
idle_timer = record {
  e = 0;
  tick = 0;
  steady = record { pending = 0; over = 0; cancelled = 0 };
  running_state = idle;
  period = 0;
}

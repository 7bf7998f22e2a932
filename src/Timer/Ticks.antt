-- ===== src/Timer/Ticks.antt =====
-- The ticks that a timer hands to its callback, and the end of them.
use vee.Base.{
  ℕ, zero, suc, ◌+◌, ◌≡◌, refl, sym, ap, ◌∙◌, Bool, true, false, List, [], ◌∷◌, ◌++◌, ◌==◌,
  if◌then◌else◌,
}
use vee.Base.Word.{increment}
use vee.Timer.{Timer, SteadyTimer, idle, running, run, stop, set_timer, is_running, on_timer}

-- The numbers `first + 1`, `first + 2`, ..., `first + n`.
abbrev pub ticks : ℕ → ℕ → List ℕ
ticks first zero = []
ticks first (suc n) = (first + 1) ∷ ticks (first + 1) n

module _ (boost : SteadyTimer) where
  open boost use {State}

  -- A callback that notes its tick and leaves the timer.
  abbrev pub notes : ℕ → ℕ → Timer State × List ℕ → Timer State × List ℕ
  notes callback tick (t, log) = (t, log ++ tick ∷ [])

  -- `n` times in a row, the steady timer fires without an error.
  unfoldable pub fires : ℕ → Timer State × List ℕ → Timer State × List ℕ
  fires zero tw = tw
  fires (suc n) tw = fires n (on_timer boost (List ℕ) notes false tw)

  -- The timer after it has fired while it was running.
  abbrev fired : Timer State → Timer State
  fired t = set_timer boost (List ℕ) (record t { tick = increment t.tick })

  -- The timer after it is run.
  abbrev started : Timer State → ℕ → ℕ → Timer State
  started t period_ms callback =
      set_timer boost (List ℕ)
        (record t { e = callback; tick = 0; running_state = running; period = period_ms })

module _ (boost : SteadyTimer) (World : Type 0)
    (calls : ℕ → ℕ → Timer boost.State × World → Timer boost.State × World) where
  open boost use {State}

  -- A running timer is not run again: `run` returns false and leaves it. `stop` returns true, and
  -- when the steady timer then fires, with an error or without, no callback is called and no wait
  -- is started.
  pub stop-on_timer :
      (t : Timer State) (period callback : ℕ) (error : Bool) (w : World)
      → t.running_state ≡ running
      → (run boost World t period callback ≡ (false, t))
        × ((stop boost World t).0 ≡ true)
        × (on_timer boost World calls error ((stop boost World t).1, w)
            ≡ ((stop boost World t).1, w))
  unfolding run stop on_timer is_running
  stop-on_timer t period callback error w on = (
    ap
        (λ s.
          if s == idle
          then (
            true,
            set_timer boost World
                (record t { e = callback; tick = 0; running_state = running; period = period }),
          )
          else (false, t))
        on,
    ap (λ r. r.0) stopped,
    ap (λ r. on_timer boost World calls error (r.1, w)) stopped
        ∙ by_error error
        ∙ ap (λ r. (r.1, w)) (sym stopped),
  )
    where
      off : Timer State
      off = record t { running_state = idle }

      stopped : stop boost World t ≡ (true, off)
      stopped = ap (λ s. if s == running then (true, off) else (false, t)) on

      by_error : (b : Bool) → on_timer boost World calls b (off, w) ≡ (off, w)
      by_error true = refl
      by_error false = refl

-- ===== src/Actor/Sound/Orders.antt =====
-- Every order of the steps keeps an actor sound.
use mathlib.Core.Path.{subst}
use vee.Base.{All, ◌≡◌, refl, arith, ℕ, ◌≤◌, ◌<◌, length}
use vee.Base.Word.{int_max}
use vee.Actor.{
  spawn, proc, Worker, starting, greeting, readying, enabling, receiving, dequeuing, fetching,
  calling, finishing, resting, leaving, ending, ended, failed, Actor, init, Step, tests, admits,
  posts, stores, counts, exchanges, wakes, works, kills, Reach, here, later,
}
use vee.Actor.Sound.{IsSound, init-IsSound}
use vee.Actor.Sound.Calls.{
  test-IsSound, admit-IsSound, post-IsSound, write_slot-IsSound, count-IsSound, exchange-IsSound,
  wake-IsSound, kill-IsSound,
}
use vee.Actor.Sound.Work.{placed, work-IsSound}

module _ {ℓ} {A : Type ℓ} where
  pub Step-IsSound : {s t : Actor A} → Step s t → IsSound s → IsSound t
  Step-IsSound {s} (tests e) f = subst (All IsSound) e (test-IsSound s f)
  Step-IsSound {s} (admits e) f = subst (All IsSound) e (admit-IsSound s f)
  Step-IsSound {s} (posts mail alone free e) f = subst (All IsSound) e (post-IsSound mail s alone f)
  Step-IsSound {s} (stores e) f = subst (All IsSound) e (write_slot-IsSound s.writer s refl f)
  Step-IsSound {s} (counts e) f = subst (All IsSound) e (count-IsSound s f)
  Step-IsSound {s} (exchanges e) f = subst (All IsSound) e (exchange-IsSound s f)
  Step-IsSound {s} (wakes e) f = subst (All IsSound) e (wake-IsSound s f)
  Step-IsSound {s} (works e) f = subst (All IsSound) e (work-IsSound s.worker s refl f)
  Step-IsSound {s} (kills e) f = subst (All IsSound) e (kill-IsSound s.killer s refl f)

  pub Reach-IsSound : {s t : Actor A} → IsSound s → Reach s t → IsSound t
  Reach-IsSound f here = f
  Reach-IsSound f (later r st) = Step-IsSound st (Reach-IsSound f r)

  -- What the worker relies on where it stands: a new thread finds SPAWN, `dequeue` finds a mail,
  -- the exchange at the end of `_epoch` finds PROC, and no exception has ended the thread.
  abbrev pub IsReady : Worker A → Actor A → Type 0
  IsReady failed s = ⊥
  IsReady starting s = s.state ≡ spawn
  IsReady resting s = s.state ≡ proc
  IsReady dequeuing s = 0 < length s.mailbox
  IsReady w s = Unit

  pub ready : (w : Worker A) (s : Actor A) → s.worker ≡ w → IsSound s → IsReady w s
  ready failed s e f = absurd (placed failed s e f)
  ready starting s e f = placed starting s e f
  ready resting s e f = placed resting s e f
  ready dequeuing s e f = ground (arith, e, f.counted, f.tokens)
  ready greeting s e f = tt
  ready readying s e f = tt
  ready enabling s e f = tt
  ready receiving s e f = tt
  ready (fetching mail) s e f = tt
  ready (calling mail) s e f = tt
  ready finishing s e f = tt
  ready leaving s e f = tt
  ready ending s e f = tt
  ready ended s e f = tt

  -- In the runs in which no `enqueue` begins while another one, or a `dequeue`, is under way, and
  -- with mails that do not throw, whatever the order of the threads that post mails, kill the actor
  -- and work, from a new actor on, whose mailbox has at most 2 ^ 31 - 1 places: the worker never
  -- throws and never reads a slot that is not written, `_epoch` finds a written mail whenever it
  -- looks for one, and the state is PROC when `_epoch` takes it back to IDLE.
  pub worker-IsReady : (n : ℕ) (s : Actor A) → n ≤ int_max → Reach (init n) s → IsReady s.worker s
  worker-IsReady n s h r = ready s.worker s refl (Reach-IsSound (init-IsSound n h) r)

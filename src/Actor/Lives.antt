-- ===== src/Actor/Lives.antt =====
-- An actor that is killed and lives again is as sound as a new one.
use mathlib.Core.Path.{subst}
use vee.Base.{
  length, All, All-if, ℕ, ◌+◌, ◌≤◌, ◌≡◌, refl, Option, none, some, List, ◌==◌, ◌&&◌, arith,
}
use vee.Base.Word.{int_max}
use vee.Queue.Fifo
use vee.Actor.{
  spawn, idle, proc, dead, Signal, active, go_exit, Worker, starting, greeting, readying, enabling,
  receiving, dequeuing, fetching, calling, finishing, resting, leaving, ending, ended, failed,
  Killer, outside, killing, stopping, awaiting, Actor, init, test, admit, reserved, post,
  write_slot, count, exchange, wake, is_receiving, is_free, receive, take_mail, leave, work, kill,
  Step, tests, admits, posts, stores, counts, exchanges, wakes, works, kills,
}
use vee.Actor.Sound.{IsSound, init-IsSound, is_exit}
use vee.Actor.Sound.Orders.{Step-IsSound}
use vee.Actor.Respawn.{Life, begins, steps, respawns, respawn, spawn_thread}

abbrev is_awaiting : Killer → ℕ
is_awaiting awaiting = 1
is_awaiting _ = 0

module _ {ℓ} {A : Type ℓ} where
  abbrev is_leaving : Worker A → ℕ
  is_leaving leaving = 1
  is_leaving _ = 0

  -- While `go_exit` is under way, and until `exit_ok` is, `kill` waits.
  abbrev IsAwaited : Actor A → Type 0
  IsAwaited s = is_exit s.signal + is_leaving s.worker ≤ is_awaiting s.killer

  receive-IsAwaited :
      (signal : Option Signal) (s : Actor A)
      → s.signal ≡ signal
      → s.worker ≡ receiving
      → IsAwaited s
      → All IsAwaited (receive signal s)
  unfolding receive
  receive-IsAwaited none s e g f = tt
  receive-IsAwaited (some active) s e g f = ground (arith, e, g, f)
  receive-IsAwaited (some go_exit) s e g f = ground (arith, e, g, f)

  leave-IsAwaited :
      (k : Killer) (s : Actor A)
      → s.killer ≡ k
      → s.worker ≡ leaving
      → IsAwaited s
      → All IsAwaited (leave k s)
  unfolding leave
  leave-IsAwaited outside s e g f = tt
  leave-IsAwaited killing s e g f = tt
  leave-IsAwaited stopping s e g f = tt
  leave-IsAwaited awaiting s e g f = ground (arith, e, g, f)

  take_mail-IsAwaited :
      (r : Option A × List A) (writer : Option A) (s : Actor A)
      → s.worker ≡ dequeuing
      → IsAwaited s
      → IsAwaited (take_mail r writer s)
  unfolding take_mail
  take_mail-IsAwaited (none, items) none s e f = ground (arith, e, f)
  take_mail-IsAwaited (none, items) (some mail) s e f = ground (arith, e, f)
  take_mail-IsAwaited (some mail, items) writer s e f = ground (arith, e, f)

  work-IsAwaited :
      (w : Worker A) (s : Actor A) → s.worker ≡ w → IsAwaited s → All IsAwaited (work w s)
  unfolding work
  work-IsAwaited starting s e f =
      All-if IsAwaited (s.state == spawn) _ _ (λ b. ground (arith, e, f))
        (λ b. ground (arith, e, f))
  work-IsAwaited greeting s e f = ground (arith, e, f)
  work-IsAwaited readying s e f = ground (arith, e, f)
  work-IsAwaited enabling s e f = ground (arith, e, f)
  work-IsAwaited receiving s e f = receive-IsAwaited s.signal s refl e f
  work-IsAwaited dequeuing s e f = take_mail-IsAwaited (Fifo.pop s.mailbox) s.writer s e f
  work-IsAwaited (fetching mail) s e f = ground (arith, e, f)
  work-IsAwaited (calling mail) s e f = ground (arith, e, f)
  work-IsAwaited finishing s e f = ground (arith, e, f)
  work-IsAwaited resting s e f =
      All-if IsAwaited (s.state == proc) _ _ (λ b. ground (arith, e, f)) (λ b. ground (arith, e, f))
  work-IsAwaited leaving s e f = leave-IsAwaited s.killer s refl e f
  work-IsAwaited ending s e f = ground (arith, e, f)
  work-IsAwaited ended s e f = tt
  work-IsAwaited failed s e f = tt

  kill-IsAwaited :
      (k : Killer) (s : Actor A) → s.killer ≡ k → IsAwaited s → All IsAwaited (kill k s)
  unfolding kill
  kill-IsAwaited outside s e f = ground (arith, e, f)
  kill-IsAwaited killing s e f =
      All-if IsAwaited (s.state == idle) _ _ (λ b. ground (arith, e, f)) (λ b. tt)
  kill-IsAwaited stopping s e f =
      All-if IsAwaited (is_receiving s.worker && is_free s.signal) _ _ (λ b. ground (arith, e, f))
        (λ b. tt)
  kill-IsAwaited awaiting s e f = tt

  -- The calls of `request` leave the exit of the actor as it is.
  test-IsAwaited : (s : Actor A) → IsAwaited s → All IsAwaited (test s)
  unfolding test
  test-IsAwaited s f = All-if IsAwaited s.workable _ _ (λ b. f) (λ b. tt)

  admit-IsAwaited : (s : Actor A) → IsAwaited s → All IsAwaited (admit s)
  unfolding admit
  admit-IsAwaited s f =
      All-if IsAwaited (s.requests.tested == 0) _ _ (λ b. tt)
        (λ b. All-if IsAwaited (s.state == dead) _ _ (λ c. f) (λ c. f))

  post-IsAwaited : (mail : A) (s : Actor A) → IsAwaited s → All IsAwaited (post mail s)
  unfolding post
  post-IsAwaited mail s f =
      All-if IsAwaited (s.requests.admitted == 0) _ _ (λ b. tt)
        (λ b.
          All-if IsAwaited (length s.mailbox + length (reserved s.writer) == s.queue_size) _ _
            (λ c. f) (λ c. f))

  write_slot-IsAwaited : (w : Option A) (s : Actor A) → IsAwaited s → All IsAwaited (write_slot w s)
  unfolding write_slot
  write_slot-IsAwaited none s f = tt
  write_slot-IsAwaited (some mail) s f = f

  count-IsAwaited : (s : Actor A) → IsAwaited s → All IsAwaited (count s)
  unfolding count
  count-IsAwaited s f = All-if IsAwaited (s.requests.counting == 0) _ _ (λ b. tt) (λ b. f)

  exchange-IsAwaited : (s : Actor A) → IsAwaited s → All IsAwaited (exchange s)
  unfolding exchange
  exchange-IsAwaited s f =
      All-if IsAwaited (s.requests.exchanging == 0) _ _ (λ b. tt)
        (λ b. All-if IsAwaited (s.state == idle) _ _ (λ c. f) (λ c. tt))

  wake-IsAwaited : (s : Actor A) → IsAwaited s → All IsAwaited (wake s)
  unfolding wake
  wake-IsAwaited s f =
      All-if IsAwaited (s.requests.signalling == 0) _ _ (λ b. tt)
        (λ b.
          All-if IsAwaited (is_receiving s.worker && is_free s.signal) _ _ (λ c. ground (arith, f))
            (λ c. tt))

  Step-IsAwaited : {s t : Actor A} → Step s t → IsAwaited s → IsAwaited t
  Step-IsAwaited {s} (tests e) f = subst (All IsAwaited) e (test-IsAwaited s f)
  Step-IsAwaited {s} (admits e) f = subst (All IsAwaited) e (admit-IsAwaited s f)
  Step-IsAwaited {s} (posts mail alone free e) f = subst (All IsAwaited) e (post-IsAwaited mail s f)
  Step-IsAwaited {s} (stores e) f = subst (All IsAwaited) e (write_slot-IsAwaited s.writer s f)
  Step-IsAwaited {s} (counts e) f = subst (All IsAwaited) e (count-IsAwaited s f)
  Step-IsAwaited {s} (exchanges e) f = subst (All IsAwaited) e (exchange-IsAwaited s f)
  Step-IsAwaited {s} (wakes e) f = subst (All IsAwaited) e (wake-IsAwaited s f)
  Step-IsAwaited {s} (works e) f = subst (All IsAwaited) e (work-IsAwaited s.worker s refl f)
  Step-IsAwaited {s} (kills e) f = subst (All IsAwaited) e (kill-IsAwaited s.killer s refl f)

  -- The new thread finds the mails and the calls of `request` that the old one left.
  respawn-IsSound :
      (s : Actor A)
      → s.killer ≡ outside
      → s.worker ≡ ended
      → IsAwaited s
      → IsSound s
      → All (λ t. IsSound t × IsAwaited t) (respawn s)
  unfolding respawn spawn_thread
  respawn-IsSound s k w a f =
      All-if (λ t. IsSound t × IsAwaited t) (s.state == dead) _ _
        (λ b. (
          record {
            small = f.small;
            held = f.held;
            counted = ground (arith, w, f.counted);
            tokens = ground (arith, w, f.tokens);
            busy = ground (arith, w, f.busy);
            at = refl;
            past = ground (arith, k);
            leaves = ground (arith, k, w, a);
            in_order = ground (arith, w, f.in_order);
          },
          ground (arith, k, w, a),
        ))
        (λ b. tt)

  pub Life-IsSound : (n : ℕ) (s : Actor A) → n ≤ int_max → Life (init n) s → IsSound s × IsAwaited s
  Life-IsSound n s h begins = (init-IsSound n h, omega arith)
  Life-IsSound n s h (steps {t} r st) =
      let f = Life-IsSound n t h r in (Step-IsSound st f.0, Step-IsAwaited st f.1)
  Life-IsSound n s h (respawns {t} r k w e) =
      let f = Life-IsSound n t h r in
      subst (All (λ t. IsSound t × IsAwaited t)) e (respawn-IsSound t k w f.1 f.0)

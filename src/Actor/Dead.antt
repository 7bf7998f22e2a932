-- ===== src/Actor/Dead.antt =====
-- What is left waiting when an actor is dead. `respawn` is not among the steps.
use mathlib.Core.Path.{subst}
use vee.Base.{
  ◌+◌, length, All, All-if, ℕ, ◌≤◌, ◌≡◌, ◌≢◌, ◌⊎◌, inl, inr, refl, ◌∙◌, Option, none, some, List,
  ◌==◌, ◌&&◌, arith,
}
use vee.Base.Word.{int_max}
use vee.Queue.Fifo
use vee.Actor.{
  idle, dead, Signal, active, go_exit, Worker, starting, greeting, readying, enabling, receiving,
  dequeuing, fetching, calling, finishing, resting, leaving, ending, ended, failed, Killer, outside,
  killing, stopping, awaiting, Actor, init, is_receiving, is_free, test, admit, reserved, post,
  write_slot, count, exchange, wake, receive, take_mail, leave, work, kill, Step, tests, admits,
  posts, stores, counts, exchanges, wakes, works, kills, Reach, here, later,
}
use vee.Actor.Sound.{IsSound, init-IsSound}
use vee.Actor.Sound.Work.{placed}
use vee.Actor.Sound.Orders.{Reach-IsSound}

-- The actor stays dead, and threads that wait for another state of it stay where they are: in the
-- loop of the exchange in `request_with_argstuple`, and in that of `kill`.
pub record IsStuck {ℓ} {A : Type ℓ} (s t : Actor A) : Type ℓ where
  pub stays : t.state ≡ dead
  pub waiting : s.requests.exchanging ≤ t.requests.exchanging
  pub hangs : (s.killer ≢ killing) ⊎ (t.killer ≡ killing)

Killer-cases : (k : Killer) → (k ≢ killing) ⊎ (k ≡ killing)
Killer-cases outside = inl (λ e. ground (arith, e))
Killer-cases killing = inr refl
Killer-cases stopping = inl (λ e. ground (arith, e))
Killer-cases awaiting = inl (λ e. ground (arith, e))

module _ {ℓ} {A : Type ℓ} where
  same-IsStuck :
      (s t : Actor A)
      → t.state ≡ dead
      → s.requests.exchanging ≤ t.requests.exchanging
      → t.killer ≡ s.killer
      → IsStuck s t
  same-IsStuck s t d w k = record {
    stays = d;
    waiting = w;
    hangs = elim (Killer-cases s.killer) [ inl ne ↦ inl ne | inr e ↦ inr (k ∙ e) ];
  }

  test-IsStuck : (s : Actor A) → s.state ≡ dead → All (IsStuck s) (test s)
  unfolding test
  test-IsStuck s d =
      All-if (IsStuck s) s.workable _ _ (λ e. same-IsStuck s _ d (omega arith) refl) (λ e. tt)

  admit-IsStuck : (s : Actor A) → s.state ≡ dead → All (IsStuck s) (admit s)
  unfolding admit
  admit-IsStuck s d =
      All-if (IsStuck s) (s.requests.tested == 0) _ _ (λ e. tt)
        (λ e.
          All-if (IsStuck s) (s.state == dead) _ _ (λ b. same-IsStuck s _ d (omega arith) refl)
            (λ b. same-IsStuck s _ d (omega arith) refl))

  post-IsStuck : (mail : A) (s : Actor A) → s.state ≡ dead → All (IsStuck s) (post mail s)
  unfolding post
  post-IsStuck mail s d =
      All-if (IsStuck s) (s.requests.admitted == 0) _ _ (λ e. tt)
        (λ e.
          All-if (IsStuck s) (length s.mailbox + length (reserved s.writer) == s.queue_size) _ _
            (λ b. same-IsStuck s _ d (omega arith) refl)
            (λ b. same-IsStuck s _ d (omega arith) refl))

  write_slot-IsStuck :
      (w : Option A) (s : Actor A) → s.state ≡ dead → All (IsStuck s) (write_slot w s)
  unfolding write_slot
  write_slot-IsStuck none s d = tt
  write_slot-IsStuck (some mail) s d = same-IsStuck s _ d (omega arith) refl

  count-IsStuck : (s : Actor A) → s.state ≡ dead → All (IsStuck s) (count s)
  unfolding count
  count-IsStuck s d =
      All-if (IsStuck s) (s.requests.counting == 0) _ _ (λ e. tt)
        (λ e. same-IsStuck s _ d (ground arith) refl)

  exchange-IsStuck : (s : Actor A) → s.state ≡ dead → All (IsStuck s) (exchange s)
  unfolding exchange
  exchange-IsStuck s d =
      All-if (IsStuck s) (s.requests.exchanging == 0) _ _ (λ e. tt)
        (λ e.
          All-if (IsStuck s) (s.state == idle) _ _ (λ b. absurd (ground (arith, b, d))) (λ b. tt))

  wake-IsStuck : (s : Actor A) → s.state ≡ dead → All (IsStuck s) (wake s)
  unfolding wake
  wake-IsStuck s d =
      All-if (IsStuck s) (s.requests.signalling == 0) _ _ (λ e. tt)
        (λ e.
          All-if (IsStuck s) (is_receiving s.worker && is_free s.signal) _ _
            (λ b. same-IsStuck s _ d (omega arith) refl) (λ b. tt))

  receive-IsStuck :
      (signal : Option Signal) (s : Actor A) → s.state ≡ dead → All (IsStuck s) (receive signal s)
  unfolding receive
  receive-IsStuck none s d = tt
  receive-IsStuck (some active) s d = same-IsStuck s _ d (omega arith) refl
  receive-IsStuck (some go_exit) s d = same-IsStuck s _ d (omega arith) refl

  take-IsStuck :
      (out : Option A × List A) (w : Option A) (s : Actor A)
      → s.state ≡ dead
      → IsStuck s (take_mail out w s)
  unfolding take_mail
  take-IsStuck (none, items) none s d = same-IsStuck s _ d (omega arith) refl
  take-IsStuck (none, items) (some mail) s d = same-IsStuck s _ d (omega arith) refl
  take-IsStuck (some mail, items) w s d = same-IsStuck s _ d (omega arith) refl

  leave-IsStuck :
      (k : Killer) (s : Actor A) → s.killer ≡ k → s.state ≡ dead → All (IsStuck s) (leave k s)
  unfolding leave
  leave-IsStuck outside s e d = tt
  leave-IsStuck killing s e d = tt
  leave-IsStuck stopping s e d = tt
  leave-IsStuck awaiting s e d = record {
    stays = d;
    waiting = omega arith;
    hangs = inl (λ k. ground (arith, e, k));
  }

  work-IsStuck :
      (w : Worker A) (s : Actor A)
      → s.worker ≡ w
      → IsSound s
      → s.state ≡ dead
      → All (IsStuck s) (work w s)
  unfolding work
  work-IsStuck starting s e f d = absurd (omega (arith, d, placed starting s e f))
  work-IsStuck greeting s e f d = absurd (omega (arith, d, placed greeting s e f))
  work-IsStuck readying s e f d = absurd (omega (arith, d, placed readying s e f))
  work-IsStuck enabling s e f d = same-IsStuck s _ d (omega arith) refl
  work-IsStuck receiving s e f d = receive-IsStuck s.signal s d
  work-IsStuck dequeuing s e f d = take-IsStuck (Fifo.pop s.mailbox) s.writer s d
  work-IsStuck (fetching mail) s e f d = same-IsStuck s _ d (omega arith) refl
  work-IsStuck (calling mail) s e f d = same-IsStuck s _ d (omega arith) refl
  work-IsStuck finishing s e f d = same-IsStuck s _ d (omega arith) refl
  work-IsStuck resting s e f d = absurd (omega (arith, d, placed resting s e f))
  work-IsStuck leaving s e f d = leave-IsStuck s.killer s refl d
  work-IsStuck ending s e f d = same-IsStuck s _ refl (omega arith) refl
  work-IsStuck ended s e f d = tt
  work-IsStuck failed s e f d = tt

  kill-IsStuck :
      (k : Killer) (s : Actor A) → s.killer ≡ k → s.state ≡ dead → All (IsStuck s) (kill k s)
  unfolding kill
  kill-IsStuck outside s e d = record { stays = d; waiting = omega arith; hangs = inr refl }
  kill-IsStuck killing s e d =
      All-if (IsStuck s) (s.state == idle) _ _ (λ b. absurd (ground (arith, b, d))) (λ b. tt)
  kill-IsStuck stopping s e d =
      All-if (IsStuck s) (is_receiving s.worker && is_free s.signal) _ _
        (λ b. record { stays = d; waiting = omega arith; hangs = inl (λ k. ground (arith, e, k)) })
        (λ b. tt)
  kill-IsStuck awaiting s e d = tt

  Step-IsStuck : {s t : Actor A} → Step s t → IsSound s → s.state ≡ dead → IsStuck s t
  Step-IsStuck {s} (tests e) f d = subst (All (IsStuck s)) e (test-IsStuck s d)
  Step-IsStuck {s} (admits e) f d = subst (All (IsStuck s)) e (admit-IsStuck s d)
  Step-IsStuck {s} (posts mail alone free e) f d = subst (All (IsStuck s)) e (post-IsStuck mail s d)
  Step-IsStuck {s} (stores e) f d = subst (All (IsStuck s)) e (write_slot-IsStuck s.writer s d)
  Step-IsStuck {s} (counts e) f d = subst (All (IsStuck s)) e (count-IsStuck s d)
  Step-IsStuck {s} (exchanges e) f d = subst (All (IsStuck s)) e (exchange-IsStuck s d)
  Step-IsStuck {s} (wakes e) f d = subst (All (IsStuck s)) e (wake-IsStuck s d)
  Step-IsStuck {s} (works e) f d = subst (All (IsStuck s)) e (work-IsStuck s.worker s refl f d)
  Step-IsStuck {s} (kills e) f d = subst (All (IsStuck s)) e (kill-IsStuck s.killer s refl d)

  IsStuck-trans : {s t u : Actor A} → IsStuck s t → IsStuck t u → IsStuck s u
  IsStuck-trans {s} {t} {u} f g = record {
    stays = g.stays;
    waiting = omega (arith, f.waiting, g.waiting);
    hangs = later_hangs f.hangs g.hangs;
  }
    where
      later_hangs :
          (s.killer ≢ killing) ⊎ (t.killer ≡ killing)
          → (t.killer ≢ killing) ⊎ (u.killer ≡ killing)
          → (s.killer ≢ killing) ⊎ (u.killer ≡ killing)
      later_hangs (inl ne) other = inl ne
      later_hangs (inr e) (inl ne) = absurd (ne e)
      later_hangs (inr e) (inr e') = inr e'

  Reach-IsStuck : {s t : Actor A} → IsSound s → s.state ≡ dead → Reach s t → IsStuck s t
  Reach-IsStuck {s} f d here = same-IsStuck s s d (omega arith) refl
  Reach-IsStuck {s} f d (later r st) =
      let before = Reach-IsStuck f d r in
      IsStuck-trans before (Step-IsStuck st (Reach-IsSound f r) before.stays)

  -- An actor whose mailbox has at most 2 ^ 31 - 1 places and that was killed stays dead as long as
  -- `respawn` is not called, whatever the order of the steps in the runs in which no `enqueue`
  -- begins while another one, or a `dequeue`, is under way: a thread in the loop of the exchange in
  -- `request` never leaves it, and a `kill` that has come to its loop never does.
  pub dead-IsStuck :
      (n : ℕ) (s t : Actor A)
      → n ≤ int_max
      → Reach (init n) s
      → s.state ≡ dead
      → Reach s t
      → IsStuck s t
  dead-IsStuck n s t h r d later_steps =
      Reach-IsStuck (Reach-IsSound (init-IsSound n h) r) d later_steps

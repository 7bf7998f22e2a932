-- ===== src/Actor/Tests.antt =====
-- An actor at work, with numbers as mails.
use vee.Base.{ℕ, ◌≡◌, refl, some, true, false, [], ◌∷◌, arith}
use vee.Actor.{
  spawn, starting, failed, idle, dead, receiving, ended, leave, stopping, outside, Actor, init,
  test, admit, post, write_slot, count, exchange, wake, is_receiving, is_free, work, receive,
  take_mail, kill, tests, admits, posts, stores, counts, exchanges, wakes, works, kills, Reach,
  here, later,
}
use vee.Actor.Sound.Orders.{IsReady, worker-IsReady}
use vee.Actor.Respawn.{late_store}
use vee.Actor.Dead.{IsStuck, dead-IsStuck}

-- The worker waits.
abbrev started : Actor ℕ
started = record (init 2) { workable = true; state = idle; worker = receiving }

started-Reach : Reach (init 2) started
unfolding work
started-Reach =
    later (later (later (later here (works refl)) (works refl)) (works refl)) (works refl)

-- A mail is in the mailbox and not yet counted.
abbrev posted : Actor ℕ
posted = record started {
  mailbox = 7 ∷ [];
  accepted = 7 ∷ [];
  requests = record { tested = 0; admitted = 0; counting = 1; exchanging = 0; signalling = 0 };
}

posted-Reach : Reach (init 2) posted
unfolding test admit post write_slot
posted-Reach =
    later (later (later (later started-Reach (tests refl)) (admits refl)) (posts 7 refl refl refl))
      (stores refl)

worker-IsReady_example : IsReady posted.worker posted
worker-IsReady_example = worker-IsReady 2 posted (omega arith) posted-Reach

-- The mail has been called.
abbrev rested : Actor ℕ
rested = record started { accepted = 7 ∷ []; done = 7 ∷ [] }

rested-Reach : Reach (init 2) rested
unfolding count exchange wake is_receiving is_free work receive take_mail
rested-Reach =
    later
      (later
        (later
          (later
            (later
              (later
                (later (later (later posted-Reach (counts refl)) (exchanges refl)) (wakes refl))
                (works refl))
              (works refl))
            (works refl))
          (works refl))
        (works refl))
      (works refl)

-- The actor is killed between the tests of a thread and its exchange.
abbrev killed : Actor ℕ
killed = record started {
  workable = false;
  state = dead;
  killer = stopping;
  mailbox = 7 ∷ [];
  mailbox_counter = 1;
  accepted = 7 ∷ [];
  requests = record { tested = 0; admitted = 0; counting = 0; exchanging = 1; signalling = 0 };
}

killed-Reach : Reach (init 2) killed
unfolding test admit post write_slot count kill
killed-Reach =
    later
      (later
        (later
          (later (later (later (later started-Reach (tests refl)) (admits refl)) (kills refl))
            (kills refl))
          (posts 7 refl refl refl))
        (stores refl))
      (counts refl)

-- The worker has left.
abbrev left_waiting : Actor ℕ
left_waiting = record killed { killer = outside; worker = ended }

dead-IsStuck_example : IsStuck killed left_waiting
unfolding kill is_receiving is_free work receive leave
dead-IsStuck_example =
    dead-IsStuck 2 killed left_waiting (omega arith) killed-Reach refl
      (later (later (later (later here (kills refl)) (works refl)) (works refl)) (works refl))

-- The new thread has the mail of the old one.
abbrev revived : Actor ℕ
revived = record left_waiting { state = spawn; worker = starting }

-- Respawned while the old thread has yet to store DEAD, the new thread finds DEAD and throws.
late_store_test :
    (work starting (late_store revived)) ≡ some (record (late_store revived) { worker = failed })
unfolding late_store work
late_store_test = refl

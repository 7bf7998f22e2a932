-- ===== src/Actor/Sound/Work.antt =====
-- The steps of the worker keep an actor sound.
use mathlib.Core.Path.{subst}
use vee.Base.{
  ◌++◌, All, All-if, ◌≡◌, inl, refl, Bool, true, false, Option, none, some, List, [], ◌∷◌, ◌==◌,
  if◌then◌else◌, arith, append_assoc,
}
use vee.Base.Word.{decrement}
use vee.Queue.Fifo
use vee.Actor.{
  reserved, spawn, proc, Signal, active, go_exit, Worker, starting, greeting, readying, enabling,
  receiving, dequeuing, fetching, calling, finishing, resting, leaving, ending, ended, failed,
  Killer, outside, killing, stopping, awaiting, Actor, receive, take_mail, leave, work,
}
use vee.Actor.Sound.{IsAt, IsSound}

module _ {ℓ} {A : Type ℓ} where
  -- Where the worker stands, the phase is one of those for it.
  pub placed : (w : Worker A) (s : Actor A) → s.worker ≡ w → IsSound s → IsAt w s.state
  placed w s e f = subst (λ v. IsAt v s.state) e f.at

  receive-IsSound :
      (signal : Option Signal) (s : Actor A)
      → s.worker ≡ receiving
      → s.signal ≡ signal
      → IsSound s
      → All IsSound (receive signal s)
  unfolding receive
  receive-IsSound none s e g f = tt
  receive-IsSound (some active) s e g f = record {
    small = f.small;
    held = f.held;
    counted = ground (arith, e, f.counted);
    tokens = ground (arith, e, g, f.tokens);
    busy = ground (arith, e, g, f.busy);
    at = ground (arith, e, g, f.busy);
    past = f.past;
    leaves = omega arith;
    in_order = ground (arith, e, f.in_order);
  }
  receive-IsSound (some go_exit) s e g f = record {
    small = f.small;
    held = f.held;
    counted = ground (arith, e, f.counted);
    tokens = ground (arith, e, g, f.tokens);
    busy = ground (arith, e, g, f.busy);
    at = ground (arith, g, f.leaves);
    past = f.past;
    leaves = omega arith;
    in_order = ground (arith, e, f.in_order);
  }

  take-IsSound :
      (items : List A) (s : Actor A)
      → s.worker ≡ dequeuing
      → s.mailbox ≡ items
      → IsSound s
      → IsSound (take_mail (Fifo.pop items) s.writer s)
  unfolding take_mail Fifo.pop
  take-IsSound [] s e g f = absurd (ground (arith, e, g, f.counted, f.tokens))
  take-IsSound (mail ∷ rest) s e g f = record {
    small = f.small;
    held = ground (arith, g, f.held);
    counted = ground (arith, e, g, f.counted);
    tokens = ground (arith, e, f.tokens);
    busy = ground (arith, e, f.busy);
    at = placed dequeuing s e f;
    past = f.past;
    leaves = f.leaves;
    in_order = ground (arith, e, g, f.in_order);
  }

  leave-IsSound :
      (k : Killer) (s : Actor A)
      → s.worker ≡ leaving
      → s.killer ≡ k
      → IsSound s
      → All IsSound (leave k s)
  unfolding leave
  leave-IsSound outside s e g f = tt
  leave-IsSound killing s e g f = tt
  leave-IsSound stopping s e g f = tt
  leave-IsSound awaiting s e g f = record {
    small = f.small;
    held = f.held;
    counted = ground (arith, e, f.counted);
    tokens = ground (arith, e, f.tokens);
    busy = ground (arith, e, f.busy);
    at = placed leaving s e f;
    past = omega arith;
    leaves = f.leaves;
    in_order = ground (arith, e, f.in_order);
  }

  finish-IsSound :
      (last : Bool) (s : Actor A)
      → s.worker ≡ finishing
      → (decrement s.mailbox_counter == 0) ≡ last
      → IsSound s
      → IsSound (record s {
        mailbox_counter = decrement s.mailbox_counter;
        worker = if last then resting else dequeuing;
      })
  finish-IsSound true s e b f = record {
    small = f.small;
    held = f.held;
    counted = ground (arith, e, b, f.small, f.held, f.counted, f.tokens);
    tokens = ground (arith, e, b, f.small, f.held, f.counted, f.tokens);
    busy = ground (arith, e, f.busy);
    at = placed finishing s e f;
    past = f.past;
    leaves = f.leaves;
    in_order = ground (arith, e, f.in_order);
  }
  finish-IsSound false s e b f = record {
    small = f.small;
    held = f.held;
    counted = ground (arith, e, b, f.small, f.held, f.counted, f.tokens);
    tokens = ground (arith, e, b, f.small, f.held, f.counted, f.tokens);
    busy = ground (arith, e, f.busy);
    at = placed finishing s e f;
    past = f.past;
    leaves = f.leaves;
    in_order = ground (arith, e, f.in_order);
  }

  -- The worker of a sound actor never fails.
  pub work-IsSound :
      (w : Worker A) (s : Actor A) → s.worker ≡ w → IsSound s → All IsSound (work w s)
  unfolding work
  work-IsSound starting s e f =
      All-if IsSound (s.state == spawn) _ _
        (λ b. record {
          small = f.small;
          held = f.held;
          counted = ground (arith, e, f.counted);
          tokens = ground (arith, e, f.tokens);
          busy = ground (arith, e, b, f.busy);
          at = refl;
          past = ground (arith, b, f.past);
          leaves = ground (arith, b, f.leaves);
          in_order = ground (arith, e, f.in_order);
        })
        (λ b. absurd (ground (arith, b, placed starting s e f)))
  work-IsSound greeting s e f = record {
    small = f.small;
    held = f.held;
    counted = ground (arith, e, f.counted);
    tokens = ground (arith, e, f.tokens);
    busy = ground (arith, e, f.busy);
    at = placed greeting s e f;
    past = f.past;
    leaves = f.leaves;
    in_order = ground (arith, e, f.in_order);
  }
  work-IsSound readying s e f = record {
    small = f.small;
    held = f.held;
    counted = ground (arith, e, f.counted);
    tokens = ground (arith, e, f.tokens);
    busy = ground (arith, e, placed readying s e f, f.busy);
    at = inl refl;
    past = ground (arith, placed readying s e f, f.past);
    leaves = ground (arith, placed readying s e f, f.leaves);
    in_order = ground (arith, e, f.in_order);
  }
  work-IsSound enabling s e f = record {
    small = f.small;
    held = f.held;
    counted = ground (arith, e, f.counted);
    tokens = ground (arith, e, f.tokens);
    busy = ground (arith, e, f.busy);
    at = placed enabling s e f;
    past = f.past;
    leaves = f.leaves;
    in_order = ground (arith, e, f.in_order);
  }
  work-IsSound receiving s e f = receive-IsSound s.signal s e refl f
  work-IsSound dequeuing s e f = take-IsSound s.mailbox s e refl f
  work-IsSound (fetching mail) s e f = record {
    small = f.small;
    held = f.held;
    counted = ground (arith, e, f.counted);
    tokens = ground (arith, e, f.tokens);
    busy = ground (arith, e, f.busy);
    at = placed (fetching mail) s e f;
    past = f.past;
    leaves = f.leaves;
    in_order = ground (arith, e, f.in_order);
  }
  work-IsSound (calling mail) s e f = record {
    small = f.small;
    held = f.held;
    counted = ground (arith, e, f.counted);
    tokens = ground (arith, e, f.tokens);
    busy = ground (arith, e, f.busy);
    at = placed (calling mail) s e f;
    past = f.past;
    leaves = f.leaves;
    in_order =
        ground
          (arith, e, f.in_order, append_assoc s.done (mail ∷ []) (s.mailbox ++ reserved s.writer));
  }
  work-IsSound finishing s e f = finish-IsSound (decrement s.mailbox_counter == 0) s e refl f
  work-IsSound resting s e f =
      All-if IsSound (s.state == proc) _ _
        (λ b. record {
          small = f.small;
          held = f.held;
          counted = ground (arith, e, f.counted);
          tokens = ground (arith, e, f.tokens);
          busy = ground (arith, e, b, f.busy);
          at = inl refl;
          past = ground (arith, b, f.past);
          leaves = ground (arith, b, f.leaves);
          in_order = ground (arith, e, f.in_order);
        })
        (λ b. absurd (ground (arith, b, placed resting s e f)))
  work-IsSound leaving s e f = leave-IsSound s.killer s e refl f
  work-IsSound ending s e f = record {
    small = f.small;
    held = f.held;
    counted = ground (arith, e, f.counted);
    tokens = ground (arith, e, f.tokens);
    busy = ground (arith, e, placed ending s e f, f.busy);
    at = refl;
    past = ground (arith, placed ending s e f, f.past);
    leaves = ground (arith, placed ending s e f, f.leaves);
    in_order = ground (arith, e, f.in_order);
  }
  work-IsSound ended s e f = tt
  work-IsSound failed s e f = tt

-- ===== src/Actor/Sound/Calls.antt =====
-- The steps of the threads that call `request`, and of `kill`, keep an actor sound.
use vee.Base.{
  sym, append-nil, ◌+◌, All, All-if, ℕ, suc, ◌-◌, ◌≤◌, ◌≡◌, inl, inr, refl, ap, ◌∙◌, true, ◌&&◌,
  Option, none, some, List, [], ◌∷◌, ◌++◌, ◌==◌, arith, length, length-append, append_assoc,
}
use vee.Actor.{
  idle, proc, dead, Signal, Worker, starting, greeting, readying, enabling, receiving, dequeuing,
  fetching, calling, finishing, resting, leaving, ending, ended, failed, Killer, outside, killing,
  stopping, awaiting, Requests, Actor, is_receiving, is_free, test, admit, reserved, post,
  write_slot, count, exchange, wake, kill,
}
use vee.Actor.Sound.{in_call, in_hand, IsAt, is_active, IsSound}

free : (signal : Option Signal) → is_free signal ≡ true → is_active signal ≡ 0
unfolding is_free
free none h = refl
free (some signal) h = absurd (ground arith)

module _ {ℓ} {A : Type ℓ} where
  -- Where the phase is IDLE, the worker waits, or is about to.
  IsAt-proc : (w : Worker A) (p : ℕ) → p ≡ idle → IsAt w p → IsAt w proc
  IsAt-proc starting p e h = absurd (omega (arith, e, h))
  IsAt-proc greeting p e h = absurd (omega (arith, e, h))
  IsAt-proc readying p e h = absurd (omega (arith, e, h))
  IsAt-proc enabling p e h = inr (inl refl)
  IsAt-proc receiving p e h = inr (inl refl)
  IsAt-proc dequeuing p e h = refl
  IsAt-proc (fetching mail) p e h = refl
  IsAt-proc (calling mail) p e h = refl
  IsAt-proc finishing p e h = refl
  IsAt-proc resting p e h = refl
  IsAt-proc leaving p e h = absurd (omega (arith, e, h))
  IsAt-proc ending p e h = absurd (omega (arith, e, h))
  IsAt-proc ended p e h = absurd (omega (arith, e, h))
  IsAt-proc failed p e h = h

  IsAt-dead : (w : Worker A) (p : ℕ) → p ≡ idle → IsAt w p → IsAt w dead
  IsAt-dead starting p e h = absurd (omega (arith, e, h))
  IsAt-dead greeting p e h = absurd (omega (arith, e, h))
  IsAt-dead readying p e h = absurd (omega (arith, e, h))
  IsAt-dead enabling p e h = inr (inr refl)
  IsAt-dead receiving p e h = inr (inr refl)
  IsAt-dead dequeuing p e h = absurd (omega (arith, e, h))
  IsAt-dead (fetching mail) p e h = absurd (omega (arith, e, h))
  IsAt-dead (calling mail) p e h = absurd (omega (arith, e, h))
  IsAt-dead finishing p e h = absurd (omega (arith, e, h))
  IsAt-dead resting p e h = absurd (omega (arith, e, h))
  IsAt-dead leaving p e h = refl
  IsAt-dead ending p e h = refl
  IsAt-dead ended p e h = refl
  IsAt-dead failed p e h = h

  -- Threads in front of `enqueue` make no difference.
  requests-IsSound :
      (s : Actor A) (r : Requests)
      → r.counting ≡ s.requests.counting
      → r.exchanging ≡ s.requests.exchanging
      → r.signalling ≡ s.requests.signalling
      → IsSound s
      → IsSound (record s { requests = r })
  requests-IsSound s r c e g f = record {
    small = f.small;
    held = f.held;
    counted = omega (arith, c, f.counted);
    tokens = ground (arith, e, g, f.tokens);
    busy = ground (arith, g, f.busy);
    at = f.at;
    past = f.past;
    leaves = f.leaves;
    in_order = f.in_order;
  }

  pub test-IsSound : (s : Actor A) → IsSound s → All IsSound (test s)
  unfolding test
  test-IsSound s f =
      All-if IsSound s.workable _ _
        (λ e.
          requests-IsSound s (record s.requests { tested = suc s.requests.tested }) refl refl refl
            f)
        (λ e. tt)

  pub admit-IsSound : (s : Actor A) → IsSound s → All IsSound (admit s)
  unfolding admit
  admit-IsSound s f =
      All-if IsSound (s.requests.tested == 0) _ _ (λ e. tt)
        (λ waiting.
          All-if IsSound (s.state == dead) _ _
            (λ e.
              requests-IsSound s (record s.requests { tested = s.requests.tested - 1 }) refl refl
                refl f)
            (λ e.
              requests-IsSound s
                (record s.requests {
                  tested = s.requests.tested - 1;
                  admitted = suc s.requests.admitted;
                })
                refl refl refl f))

  pub post-IsSound :
      (mail : A) (s : Actor A) → s.writer ≡ none → IsSound s → All IsSound (post mail s)
  unfolding post
  post-IsSound mail s alone f =
      All-if IsSound (s.requests.admitted == 0) _ _ (λ e. tt)
        (λ waiting.
          All-if IsSound (length s.mailbox + length (reserved s.writer) == s.queue_size) _ _
            (λ full.
              requests-IsSound s (record s.requests { admitted = s.requests.admitted - 1 }) refl
                refl refl f)
            (λ room. record {
              small = f.small;
              held = ground (arith, f.held, room, alone);
              counted = f.counted;
              tokens = f.tokens;
              busy = f.busy;
              at = f.at;
              past = f.past;
              leaves = f.leaves;
              in_order =
                  ap (λ (mails : List A). mails ++ mail ∷ [])
                    (f.in_order
                      ∙ ap
                          (λ (w : Option A).
                            s.done ++ (in_hand s.worker ++ (s.mailbox ++ reserved w)))
                          alone)
                  ∙ append_assoc s.done (in_hand s.worker ++ (s.mailbox ++ [])) (mail ∷ [])
                  ∙ ap (λ (mails : List A). s.done ++ mails)
                      (append_assoc (in_hand s.worker) (s.mailbox ++ []) (mail ∷ [])
                        ∙ ap (λ (mails : List A). in_hand s.worker ++ mails)
                            (append_assoc s.mailbox [] (mail ∷ [])));
            }))

  pub write_slot-IsSound :
      (writer : Option A) (s : Actor A)
      → s.writer ≡ writer
      → IsSound s
      → All IsSound (write_slot writer s)
  unfolding write_slot
  write_slot-IsSound none s e f = tt
  write_slot-IsSound (some mail) s e f = record {
    small = f.small;
    held = ground (arith, e, f.held, length-append s.mailbox (mail ∷ []));
    counted = omega (arith, f.counted, length-append s.mailbox (mail ∷ []));
    tokens = f.tokens;
    busy = f.busy;
    at = f.at;
    past = f.past;
    leaves = f.leaves;
    in_order =
        f.in_order
        ∙ ap (λ (w : Option A). s.done ++ (in_hand s.worker ++ (s.mailbox ++ reserved w))) e
        ∙ ap (λ (mails : List A). s.done ++ (in_hand s.worker ++ mails))
            (sym (append-nil (s.mailbox ++ mail ∷ [])));
  }

  in_call-le : (w : Worker A) → in_call w ≤ 1
  in_call-le starting = omega arith
  in_call-le greeting = omega arith
  in_call-le readying = omega arith
  in_call-le enabling = omega arith
  in_call-le receiving = omega arith
  in_call-le dequeuing = omega arith
  in_call-le (fetching mail) = omega arith
  in_call-le (calling mail) = omega arith
  in_call-le finishing = omega arith
  in_call-le resting = omega arith
  in_call-le leaving = omega arith
  in_call-le ending = omega arith
  in_call-le ended = omega arith
  in_call-le failed = omega arith

  pub count-IsSound : (s : Actor A) → IsSound s → All IsSound (count s)
  unfolding count
  count-IsSound s f =
      All-if IsSound (s.requests.counting == 0) _ _ (λ e. tt)
        (λ waiting. record {
          small = f.small;
          held = f.held;
          counted = ground (arith, f.counted, f.small, f.held, in_call-le s.worker);
          tokens = ground (arith, f.counted, f.tokens, f.small, f.held, in_call-le s.worker);
          busy = f.busy;
          at = f.at;
          past = f.past;
          leaves = f.leaves;
          in_order = f.in_order;
        })

  pub exchange-IsSound : (s : Actor A) → IsSound s → All IsSound (exchange s)
  unfolding exchange
  exchange-IsSound s f =
      All-if IsSound (s.requests.exchanging == 0) _ _ (λ e. tt)
        (λ waiting.
          All-if IsSound (s.state == idle) _ _
            (λ e. record {
              small = f.small;
              held = f.held;
              counted = f.counted;
              tokens = ground (arith, f.tokens);
              busy = ground (arith, f.busy, f.tokens);
              at = IsAt-proc s.worker s.state (ground arith) f.at;
              past = ground (arith, f.past);
              leaves = ground (arith, f.leaves);
              in_order = f.in_order;
            })
            (λ e. tt))

  pub wake-IsSound : (s : Actor A) → IsSound s → All IsSound (wake s)
  unfolding wake is_free
  wake-IsSound s f =
      All-if IsSound (s.requests.signalling == 0) _ _ (λ e. tt)
        (λ waiting.
          All-if IsSound (is_receiving s.worker && is_free s.signal) _ _
            (λ e. record {
              small = f.small;
              held = f.held;
              counted = f.counted;
              tokens = ground (arith, f.tokens, free s.signal (ground arith));
              busy = ground (arith, f.busy, free s.signal (ground arith));
              at = f.at;
              past = f.past;
              leaves = omega arith;
              in_order = f.in_order;
            })
            (λ e. tt))

  pub kill-IsSound : (k : Killer) (s : Actor A) → s.killer ≡ k → IsSound s → All IsSound (kill k s)
  unfolding kill is_free
  kill-IsSound outside s at f = record {
    small = f.small;
    held = f.held;
    counted = f.counted;
    tokens = f.tokens;
    busy = f.busy;
    at = f.at;
    past = omega arith;
    leaves = f.leaves;
    in_order = f.in_order;
  }
  kill-IsSound killing s at f =
      All-if IsSound (s.state == idle) _ _
        (λ e. record {
          small = f.small;
          held = f.held;
          counted = f.counted;
          tokens = f.tokens;
          busy = ground (arith, f.busy);
          at = IsAt-dead s.worker s.state (ground arith) f.at;
          past = omega arith;
          leaves = ground (arith, f.leaves);
          in_order = f.in_order;
        })
        (λ e. tt)
  kill-IsSound stopping s at f =
      All-if IsSound (is_receiving s.worker && is_free s.signal) _ _
        (λ e. record {
          small = f.small;
          held = f.held;
          counted = f.counted;
          tokens = ground (arith, f.tokens, free s.signal (ground arith));
          busy = ground (arith, f.busy, free s.signal (ground arith));
          at = f.at;
          past = ground (arith, f.past);
          leaves = ground (arith, f.past);
          in_order = f.in_order;
        })
        (λ e. tt)
  kill-IsSound awaiting s at f = tt

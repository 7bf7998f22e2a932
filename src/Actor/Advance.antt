-- ===== src/Actor/Advance.antt =====
-- While an actor is not dead and not at rest, a step of a thread under way brings it closer to its
-- rest.
use vee.Base.{
  Option-cases, length-append, ℕ, ◌+◌, ◌*◌, ◌<◌, ◌≡◌, ◌≢◌, ◌⊎◌, inl, inr, Bool-cases, refl, ap, ◌∙◌,
  Bool, true, false, Option, none, some, List, [], ◌∷◌, ◌==◌, ◌&&◌, if◌then◌else◌, arith, length,
}
use vee.Base.Word.{decrement}
use vee.Queue.Fifo
use vee.Actor.{
  spawn, idle, proc, dead, Signal, active, go_exit, Worker, starting, greeting, readying, enabling,
  receiving, dequeuing, fetching, calling, finishing, resting, leaving, ending, ended, failed,
  Actor, is_receiving, is_free, count, exchange, wake, receive, take_mail, work, Step, counts,
  exchanges, wakes, stores, write_slot, reserved, works,
}
use vee.Actor.Sound.{is_active, IsSound}
use vee.Actor.Sound.Work.{placed}
use vee.Actor.Drained.{IsQuiet}

-- How far a worker is from its next `recv`, and an actor from its rest.
abbrev pub rank {ℓ} : {A : Type ℓ} → Worker A → ℕ
rank starting = 4
rank greeting = 3
rank readying = 2
rank enabling = 1
rank dequeuing = 1
rank (fetching mail) = 4
rank (calling mail) = 3
rank finishing = 2
rank resting = 1
rank _ = 0

abbrev pub to_rest {ℓ} : {A : Type ℓ} → Actor A → ℕ
to_rest s =
    5 * s.requests.counting
    + 4 * s.requests.exchanging
    + 3 * s.requests.signalling
    + 2 * is_active s.signal
    + 4 * length s.mailbox
    + 10 * length (reserved s.writer)
    + rank s.worker

if-false {ℓ} : {A : Type ℓ} (b : Bool) (x y : A) → b ≡ false → (if b then x else y) ≡ y
if-false true x y h = absurd (ground (arith, h))
if-false false x y h = refl

if-true {ℓ} : {A : Type ℓ} (b : Bool) (x y : A) → b ≡ true → (if b then x else y) ≡ x
if-true true x y h = refl
if-true false x y h = absurd (ground (arith, h))

module _ {ℓ} {A : Type ℓ} where
  -- A step of a thread under way, by which an actor that is not dead comes closer to its rest.
  pub record Advance (s : Actor A) : Type ℓ where
    pub next : Actor A
    pub step : Step s next
    pub closer : to_rest next < to_rest s
    pub alive : next.state ≢ dead
    pub same : next.accepted ≡ s.accepted

  count-Advance : (s : Actor A) → s.state ≢ dead → (s.requests.counting == 0) ≡ false → Advance s
  unfolding count
  count-Advance s alive h = record {
    next = _;
    step = counts (if-false (s.requests.counting == 0) none _ h);
    closer = ground (arith, h);
    alive = alive;
    same = refl;
  }

  write_slot-Advance : (s : Actor A) (mail : A) → s.state ≢ dead → s.writer ≡ some mail → Advance s
  unfolding write_slot
  write_slot-Advance s mail alive e = record {
    next = _;
    step = stores (ap (λ w. write_slot w s) e);
    closer = ground (arith, e, length-append s.mailbox (mail ∷ []));
    alive = alive;
    same = refl;
  }

  exchange-Advance :
      (s : Actor A) → (s.requests.exchanging == 0) ≡ false → (s.state == idle) ≡ true → Advance s
  unfolding exchange
  exchange-Advance s h free = record {
    next = _;
    step =
        exchanges
          (if-false (s.requests.exchanging == 0) none _ h ∙ if-true (s.state == idle) _ none free);
    closer = ground (arith, h);
    alive = λ e. omega (arith, e);
    same = refl;
  }

  wake-Advance :
      (s : Actor A)
      → s.state ≢ dead
      → (s.requests.signalling == 0) ≡ false
      → s.worker ≡ receiving
      → s.signal ≡ none
      → Advance s
  unfolding wake is_receiving is_free
  wake-Advance s alive h w silent = record {
    next = _;
    step = wakes (
        if-false (s.requests.signalling == 0) none _ h
        ∙ if-true (is_receiving s.worker && is_free s.signal) _ none (ground (arith, w, silent)));
    closer = ground (arith, h, silent);
    alive = alive;
    same = refl;
  }

  is_idle :
      (s : Actor A)
      → IsSound s
      → s.state ≢ dead
      → s.worker ≡ receiving
      → s.signal ≡ none
      → (s.requests.signalling == 0) ≡ true
      → (s.state ≡ idle) ⊎ ((s.state ≡ proc) ⊎ (s.state ≡ dead))
      → (s.state == idle) ≡ true
  is_idle s f alive w g h (inl e) = ground (arith, e)
  is_idle s f alive w g h (inr (inl e)) = absurd (ground (arith, w, g, h, e, f.busy))
  is_idle s f alive w g h (inr (inr e)) = absurd (alive e)

  -- The worker waits in `recv`, and nothing is about to be counted.
  receiving-Advance :
      (signal : Option Signal) (s : Actor A)
      → IsSound s
      → s.state ≢ dead
      → s.writer ≡ none
      → s.requests.counting ≡ 0
      → s.worker ≡ receiving
      → s.signal ≡ signal
      → IsQuiet s ⊎ Advance s
  unfolding work receive
  receiving-Advance (some active) s f alive v c w g = inr (record {
    next = _;
    step = works (ap (λ p. work p s) w ∙ ap (λ o. receive o s) g);
    closer = ground (arith, w, g);
    alive = alive;
    same = refl;
  })
  receiving-Advance (some go_exit) s f alive v c w g = absurd (alive (ground (arith, g, f.leaves)))
  receiving-Advance none s f alive v c w g = elim (Bool-cases (s.requests.signalling == 0)) [
    | inr h ↦ inr (wake-Advance s alive h w g)
    | inl none_signals ↦ elim (Bool-cases (s.requests.exchanging == 0)) [
      | inl none_exchange ↦ inl (record {
        written = v;
        counting = c;
        exchanging = ground (arith, none_exchange);
        signalling = ground (arith, none_signals);
        waits = w;
        silent = g;
      })
      | inr h ↦
          inr (exchange-Advance s h (is_idle s f alive w g none_signals (placed receiving s w f)))
    ]
  ]

  take-Advance :
      (items : List A) (s : Actor A)
      → IsSound s
      → s.state ≢ dead
      → s.worker ≡ dequeuing
      → s.mailbox ≡ items
      → IsQuiet s ⊎ Advance s
  unfolding work take_mail Fifo.pop
  take-Advance [] s f alive e g = absurd (ground (arith, e, g, f.counted, f.tokens))
  take-Advance (mail ∷ rest) s f alive e g = inr (record {
    next = _;
    step = works (
        ap (λ v. work v s) e
        ∙ ap (λ (items : List A). some (take_mail (Fifo.pop items) s.writer s)) g);
    closer = ground (arith, e, g);
    alive = alive;
    same = refl;
  })

  finish-Advance :
      (last : Bool) (s : Actor A)
      → s.state ≢ dead
      → s.worker ≡ finishing
      → (decrement s.mailbox_counter == 0) ≡ last
      → IsQuiet s ⊎ Advance s
  unfolding work
  finish-Advance true s alive e b = inr (record {
    next = _;
    step = works (ap (λ v. work v s) e);
    closer = ground (arith, e, b);
    alive = alive;
    same = refl;
  })
  finish-Advance false s alive e b = inr (record {
    next = _;
    step = works (ap (λ v. work v s) e);
    closer = ground (arith, e, b);
    alive = alive;
    same = refl;
  })

  -- Nothing is about to be counted.
  work-Advance :
      (w : Worker A) (s : Actor A)
      → IsSound s
      → s.state ≢ dead
      → s.writer ≡ none
      → s.requests.counting ≡ 0
      → s.worker ≡ w
      → IsQuiet s ⊎ Advance s
  unfolding work take_mail Fifo.pop
  work-Advance starting s f alive v c e = inr (record {
    next = _;
    step = works (
        ap (λ v. work v s) e
        ∙ if-true (s.state == spawn) _ _ (ground (arith, placed starting s e f)));
    closer = ground (arith, e);
    alive = λ h. omega (arith, h);
    same = refl;
  })
  work-Advance greeting s f alive v c e = inr (record {
    next = _;
    step = works (ap (λ v. work v s) e);
    closer = ground (arith, e);
    alive = alive;
    same = refl;
  })
  work-Advance readying s f alive v c e = inr (record {
    next = _;
    step = works (ap (λ v. work v s) e);
    closer = ground (arith, e);
    alive = λ h. omega (arith, h);
    same = refl;
  })
  work-Advance enabling s f alive v c e = inr (record {
    next = _;
    step = works (ap (λ v. work v s) e);
    closer = ground (arith, e);
    alive = alive;
    same = refl;
  })
  work-Advance receiving s f alive v c e = receiving-Advance s.signal s f alive v c e refl
  work-Advance dequeuing s f alive v c e = take-Advance s.mailbox s f alive e refl
  work-Advance (fetching mail) s f alive v c e = inr (record {
    next = _;
    step = works (ap (λ v. work v s) e);
    closer = ground (arith, e);
    alive = alive;
    same = refl;
  })
  work-Advance (calling mail) s f alive v c e = inr (record {
    next = _;
    step = works (ap (λ v. work v s) e);
    closer = ground (arith, e);
    alive = alive;
    same = refl;
  })
  work-Advance finishing s f alive v c e =
      finish-Advance (decrement s.mailbox_counter == 0) s alive e refl
  work-Advance resting s f alive v c e = inr (record {
    next = _;
    step = works (
        ap (λ v. work v s) e
        ∙ if-true (s.state == proc) _ _ (ground (arith, placed resting s e f)));
    closer = ground (arith, e);
    alive = λ h. omega (arith, h);
    same = refl;
  })
  work-Advance leaving s f alive v c e = absurd (alive (placed leaving s e f))
  work-Advance ending s f alive v c e = absurd (alive (placed ending s e f))
  work-Advance ended s f alive v c e = absurd (alive (placed ended s e f))
  work-Advance failed s f alive v c e = absurd (placed failed s e f)

  pub advance : (s : Actor A) → IsSound s → s.state ≢ dead → IsQuiet s ⊎ Advance s
  advance s f alive = elim (Bool-cases (s.requests.counting == 0)) [
    | inl h ↦ elim (Option-cases s.writer) [
      | inl v ↦ work-Advance s.worker s f alive v (ground (arith, h)) refl
      | inr (mail, e) ↦ inr (write_slot-Advance s mail alive e)
    ]
    | inr h ↦ inr (count-Advance s alive h)
  ]

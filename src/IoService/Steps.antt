-- ===== src/IoService/Steps.antt =====
-- What the two threads of the singleton and the channel between them go through.
use mathlib.Core.Path.{subst}
use vee.Base.{
  All, All-if, All-map, All-both, All-weaken, ℕ, suc, ◌+◌, ◌≡◌, ◌⊎◌, inl, inr, refl, sym, ap, ◌∙◌,
  Bool, true, [], ◌∷◌, ◌++◌, arith,
}
use vee.Signal.{
  Receiver, outside, entering, offering, getting, clearing, leaving, recv, try_send, set_value,
}
use vee.Signal.Order.{IsSound, recv-IsSound, try_send-IsSound, deliver-IsSound, init-IsSound}
use vee.IoService.{
  Runner, running, signalling, setting, finished, Owner, alive, stopped, receiving, gone, Singleton,
  new_singleton, after_recv, destroy, run, Step, destroys, runs, Reach, here, later,
}
use vee.IoService.Counts.{
  Units, sent_by, sending_by, received_by, IsCalledBy, left, received_after, Received,
  recv-Received, Sent, try_send-Sent, Set, set_value-Set,
}

module _ {ℓ} {S : Type ℓ} (stop : S → S) (can_return : S → Bool) where
  pub record IsOrderly (s : Singleton S) : Type ℓ where
    pub sound : IsSound s.sigch
    pub sent : s.sigch.sent ≡ sent_by s.runner
    pub sending : s.sigch.sending ≡ sending_by s.runner
    pub received : s.sigch.received ≡ received_by s.owner
    pub called : IsCalledBy s.owner s.sigch.receiver
    pub stop_called : (s.owner ≡ alive) ⊎ (can_return s.io_service ≡ true)

  -- A step of a thread, with one fewer left.
  abbrev Counted : Singleton S → Singleton S → Type ℓ
  Counted s t = IsOrderly t × (suc (left t) ≡ left s)

  called :
      (r : Receiver (Unit {0})) (values : Units)
      → values ≡ []
      → received_after values r ≡ received_by (after_recv r)
  called outside values e = e
  called entering values e = e
  called offering values e = e
  called getting values e = e
  called (clearing u) values e = e
  called (leaving tt) values e = ap (λ (l : Units). l ++ tt ∷ []) e

  destroy-Counted :
      (o : Owner) (s : Singleton S)
      → s.owner ≡ o
      → ((x : S) → can_return (stop x) ≡ true)
      → IsOrderly s
      → All (Counted s) (destroy stop can_return o s)
  unfolding destroy
  destroy-Counted alive s e stops h = (
    record {
      sound = h.sound;
      sent = h.sent;
      sending = h.sending;
      received = ground (arith, e, h.received);
      called = subst (λ v. IsCalledBy v s.sigch.receiver) e h.called;
      stop_called = inr (stops s.io_service);
    },
    ground (arith, e),
  )
  destroy-Counted stopped s e stops h = (
    record {
      sound = h.sound;
      sent = h.sent;
      sending = h.sending;
      received = ground (arith, e, h.received);
      called = tt;
      stop_called = ground (arith, e, h.stop_called);
    },
    ground (arith, e, subst (λ v. IsCalledBy v s.sigch.receiver) e h.called),
  )
  destroy-Counted receiving s e stops h = All-map (Counted s) _ (recv s.sigch.receiver s.sigch) (
      All-weaken _ _ (recv s.sigch.receiver s.sigch)
        (λ d (v, f). (
          record {
            sound = v;
            sent = f.0 ∙ h.sent;
            sending = f.1 ∙ h.sending;
            received =
                f.2 ∙ called s.sigch.receiver s.sigch.received (ground (arith, e, h.received));
            called = f.3;
            stop_called = ground (arith, e, h.stop_called);
          },
          ground (arith, e, f.4),
        ))
        (All-both IsSound (Received s.sigch s.sigch.receiver) (recv s.sigch.receiver s.sigch)
          (recv-IsSound s.sigch.receiver s.sigch refl h.sound)
          (recv-Received s.sigch s.sigch.receiver)))
  destroy-Counted gone s e stops h = tt

  run-Counted :
      (r : Runner) (s : Singleton S)
      → s.runner ≡ r
      → IsOrderly s
      → All (Counted s) (run stop can_return r s)
  unfolding run
  run-Counted running s e h =
      All-if (Counted s) (can_return s.io_service) _ _
        (λ b. (
          record {
            sound = h.sound;
            sent = ground (arith, e, h.sent);
            sending = ground (arith, e, h.sending);
            received = h.received;
            called = h.called;
            stop_called = h.stop_called;
          },
          ground (arith, e),
        ))
        (λ b. tt)
  run-Counted signalling s e h = All-map (Counted s) _ (try_send tt s.sigch) (
      All-weaken _ _ (try_send tt s.sigch)
        (λ d (v, f). (
          record {
            sound = v;
            sent = f.0 ∙ ground (arith, e, h.sent);
            sending = f.1 ∙ ground (arith, e, h.sending);
            received = f.2 ∙ h.received;
            called = subst (IsCalledBy s.owner) (sym f.3) h.called;
            stop_called = h.stop_called;
          },
          ground (arith, e, f.3),
        ))
        (All-both IsSound (Sent s.sigch) (try_send tt s.sigch) (try_send-IsSound tt s.sigch h.sound)
          (try_send-Sent s.sigch)))
  run-Counted setting s e h = All-map (Counted s) _ (set_value 0 s.sigch) (
      All-weaken _ _ (set_value 0 s.sigch)
        (λ d (v, f). (
          record {
            sound = v;
            sent = f.0 ∙ ground (arith, e, h.sent);
            sending = f.1;
            received = f.2 ∙ h.received;
            called = subst (IsCalledBy s.owner) (sym f.3) h.called;
            stop_called = h.stop_called;
          },
          ground (arith, e, f.3),
        ))
        (All-both IsSound (Set s.sigch) (set_value 0 s.sigch)
          (unfold set_value in deliver-IsSound s.sigch.sending 0 s.sigch refl h.sound)
          (set_value-Set s.sigch (ground (arith, e, h.sending)))))
  run-Counted finished s e h = tt

  Step-Counted :
      {s t : Singleton S}
      → ((x : S) → can_return (stop x) ≡ true)
      → Step stop can_return s t
      → IsOrderly s
      → Counted s t
  Step-Counted {s} stops (destroys e) h =
      subst (All (Counted s)) e (destroy-Counted s.owner s refl stops h)
  Step-Counted {s} stops (runs e) h = subst (All (Counted s)) e (run-Counted s.runner s refl h)

  new_singleton-IsOrderly : (x : S) → IsOrderly (new_singleton x)
  new_singleton-IsOrderly x = record {
    sound = init-IsSound;
    sent = refl;
    sending = refl;
    received = refl;
    called = refl;
    stop_called = inl refl;
  }

  pub Reach-Counted :
      {x : S} {n : ℕ} {t : Singleton S}
      → ((y : S) → can_return (stop y) ≡ true)
      → Reach stop can_return (new_singleton x) n t
      → IsOrderly t × (n + left t ≡ 11)
  Reach-Counted {x} stops here = (new_singleton-IsOrderly x, refl)
  Reach-Counted stops (later r st) =
      let (h, e) = Reach-Counted stops r in
      let (g, f) = Step-Counted stops st h in (g, omega (arith, e, f))

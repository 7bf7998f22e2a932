-- ===== src/IoService/Shutdown.antt =====
-- The destructor of the singleton.
use mathlib.Core.Path.{subst}
use mathlib.Core.Option as Option
use vee.Base.{ℕ, ◌≡◌, refl, Bool, true, Option, none, some, ◌++◌, arith, length-append}
use vee.Signal.{idle, outside, getting}
use vee.Signal.Order.{placed, value_of, held_by}
use vee.IoService.{
  Runner, running, signalling, setting, finished, gone, Singleton, new_singleton, Step, Reach,
}
use vee.IoService.Counts.{IsCalledBy}
use vee.IoService.Steps.{IsOrderly, Reach-Counted}

abbrev pub IsSome {κ} : {A : Type κ} → Option A → Type κ
IsSome {A = A} o = (a : A) × (o ≡ some a)

module _ {ℓ} {S : Type ℓ} (stop : S → S) (can_return : S → Bool) where
  finished_of :
      (r : Runner) (s : Singleton S)
      → s.runner ≡ r
      → s.owner ≡ gone
      → IsOrderly stop can_return s
      → r ≡ finished
  finished_of running s e g h = absurd (ground (arith, e, g, h.sent, h.received, h.sound.in_order))
  finished_of signalling s e g h =
      absurd (ground (arith, e, g, h.sent, h.received, h.sound.in_order))
  finished_of setting s e g h = absurd (
      ground (
        arith,
        e,
        g,
        h.sending,
        h.sound.one,
        (placed outside s.sigch (subst (λ o. IsCalledBy o s.sigch.receiver) g h.called) h.sound).0,
        length-append (held_by s.sigch.receiver) (value_of s.sigch.promise ++ s.sigch.sending),
        length-append (value_of s.sigch.promise) s.sigch.sending,
      ))
  finished_of finished s e g h = refl

  -- Where stopping the service lets `run` return: the destructor returns only when the thread is
  -- behind its last access to the members, and the channel is idle then.
  pub gone-finished :
      {x : S} {n : ℕ} {t : Singleton S}
      → ((y : S) → can_return (stop y) ≡ true)
      → Reach stop can_return (new_singleton x) n t
      → t.owner ≡ gone
      → (t.runner ≡ finished) × (t.sigch.state ≡ idle)
  gone-finished {t = t} stops r g =
      let (h, e) = Reach-Counted stop can_return stops r in
      (
        finished_of t.runner t refl g h,
        (placed outside t.sigch (subst (λ o. IsCalledBy o t.sigch.receiver) g h.called) h.sound).0,
      )

  -- A step of `recv` that waits for the promise waits for the thread.
  abbrev Waits : Singleton S → Type 0
  Waits s = (s.sigch.receiver ≡ getting) × (s.sigch.promise ≡ none)

  -- Some thread can go on.
  abbrev pub CanStep : Singleton S → Type ℓ
  CanStep s = (t : Singleton S) × Step stop can_return s t

-- ===== src/Actor/Progress.antt =====
-- While the actor is not dead, the steps under way lead to its rest.
use vee.Base.{ℕ, zero, suc, ◌<◌, ◌≡◌, ◌≢◌, inl, inr, refl, ◌∙◌, [], arith}
use vee.Actor.{dead, Actor, Reach, here, later}
use vee.Actor.Sound.{IsSound}
use vee.Actor.Sound.Orders.{Step-IsSound, Reach-IsSound}
use vee.Actor.Drained.{IsQuiet, sound-drained}
use vee.Actor.Advance.{to_rest, advance}

module _ {ℓ} {A : Type ℓ} where
  -- Steps put together.
  pub Reach-trans : {s t u : Actor A} → Reach s t → Reach t u → Reach s u
  Reach-trans r here = r
  Reach-trans r (later r' st) = later (Reach-trans r r') st

  -- A run to the rest of an actor.
  pub record Rest (s : Actor A) : Type ℓ where
    pub last : Actor A
    pub run : Reach s last
    pub quiet : IsQuiet last
    pub same : last.accepted ≡ s.accepted

  rest : (fuel : ℕ) (s : Actor A) → to_rest s < fuel → IsSound s → s.state ≢ dead → Rest s
  rest zero s h f alive = absurd (omega (arith, h))
  rest (suc fuel) s h f alive = elim (advance s f alive) [
    | inl q ↦ record { last = s; run = here; quiet = q; same = refl }
    | inr a ↦
        let r = rest fuel a.next (omega (arith, h, a.closer)) (Step-IsSound a.step f) a.alive in
        record {
          last = r.last;
          run = Reach-trans (later here a.step) r.run;
          quiet = r.quiet;
          same = r.same ∙ a.same;
        }
  ]

pub sound-called {ℓ} :
    {A : Type ℓ} (s : Actor A)
    → IsSound s
    → s.state ≢ dead
    → (t : Actor A) × (Reach s t × ((t.done ≡ s.accepted) × (t.mailbox ≡ [])))
sound-called s f alive =
    let end = rest (suc (to_rest s)) s (omega arith) f alive in
    let drained = sound-drained end.last (Reach-IsSound f end.run) end.quiet in
    (end.last, (end.run, (drained.1.1 ∙ end.same, drained.0)))

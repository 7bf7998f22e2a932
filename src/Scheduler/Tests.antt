-- ===== src/Scheduler/Tests.antt =====
-- A scheduler at work, with actors that have as many places as their number says.
use vee.Base.{ℕ, suc, zero, ◌≡◌, refl, true, false, some, Bool, [], ◌∷◌, arith}
use vee.Scheduler.{construct, Scheduler, request}
use vee.Scheduler.Rounds.{request-Takes}

-- An actor takes a mail where it has a place.
abbrev place : ℕ → ℕ → Bool × ℕ × ℕ
place mail zero = (false, zero, mail)
place mail (suc places) = (true, suc places, mail)

abbrev three : Scheduler ℕ
three = record {
  actor_group = record { actor_pointers = 0 ∷ 0 ∷ 4 ∷ []; size = 3 };
  counter = 1000;
}

-- The group that the constructor makes where the memory of its size was zero.
three_test : construct 0 (0 ∷ 0 ∷ 4 ∷ []) ≡ three.actor_group
unfolding construct
three_test = refl

request-Takes_example : (last : Scheduler ℕ) × (request place 3 three 7 ≡ some (true, last))
request-Takes_example =
    request-Takes place three 7 2 (record { actor = 4; stands = refl; takes = λ mail. refl }) refl
      (omega arith) (omega arith)

-- With a counter that has wrapped around, no actor is asked.
wrapped_test :
    request place 1 (record three { counter = 0xffff_ffff }) 7
    ≡ some (false, record three { counter = 0 })
unfolding request
wrapped_test = refl

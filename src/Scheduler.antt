-- ===== src/Scheduler.antt =====
-- `actor_group` of vee/actor.h and `scheduler` of vee/scheduler.h, by one thread. An actor is known
-- by what it does with a mail: whether `request_with_argstuple` returns a number that is not
-- negative, the actor after it, and what it leaves of a mail that it was to move.
pub mod Rounds
mod Tests
use vee.Base.{
  ℕ, zero, suc, ◌+◌, ◌-◌, ◌%◌, ◌^◌, ◌≡◌, Bool, true, false, Option, none, some, List, [], ◌∷◌, ◌++◌,
  ◌==◌, if◌then◌else◌, ltb, leb, length, get_elem?, set,
}
use vee.Base.Word.{increment, decrement}

-- `_actor_pointers` and `_size`, an `int` that has no first value of its own.
pub record Group {ℓ} (A : Type ℓ) : Type ℓ where
  pub actor_pointers : List A
  pub size : ℕ

module _ {ℓ} {A : Type ℓ} where
  -- `add_actor`, with the actor that it makes.
  unfoldable pub add_actor : Group A → A → ℕ × Group A
  add_actor g actor = (
    increment g.size,
    record { actor_pointers = g.actor_pointers ++ actor ∷ []; size = increment g.size },
  )

  -- `pop_back` of a vector, which is undefined of an empty one.
  unfoldable pub pop_back : List A → Option (List A)
  pop_back [] = none
  pop_back (actor ∷ []) = some []
  pop_back (actor ∷ other ∷ actors) = elim (pop_back (other ∷ actors)) [
    | none ↦ none
    | some rest ↦ some (actor ∷ rest)
  ]

  unfoldable pub remove_actor : Group A → Option (ℕ × Group A)
  unfolding pop_back
  remove_actor g = elim (pop_back g.actor_pointers) [
    | none ↦ none
    | some actors ↦
        some (decrement g.size, record { actor_pointers = actors; size = decrement g.size })
  ]

  -- The loop of the constructor, with the actors that it makes, and the constructor, with what the
  -- memory of `_size` holds.
  unfoldable pub add_each : Group A → List A → Group A
  unfolding add_actor
  add_each g [] = g
  add_each g (actor ∷ actors) = add_each (add_actor g actor).1 actors

  unfoldable pub construct : ℕ → List A → Group A
  unfolding add_each
  construct memory actors = add_each (record { actor_pointers = []; size = memory }) actors

  abbrev pub capacity : Group A → ℕ
  capacity g = g.size

  -- `at`; none is the null pointer.
  unfoldable pub at : Group A → ℕ → Option A
  at g idx = if leb (length g.actor_pointers) idx then none else get_elem? g.actor_pointers idx

-- A scheduler, with the counter that all of one type share.
pub record Scheduler {ℓ} (A : Type ℓ) : Type ℓ where
  pub actor_group : Group A
  pub counter : ℕ

-- `i % n` of two patterns of 32 bits as `int`: it has the sign of `i`, and none is a negative one.
unfoldable pub remainder : ℕ → ℕ → Option ℕ
remainder i n =
    let size = if ltb n (2 ^ 31) then n else 2 ^ 32 - n in
    if ltb i (2 ^ 31) then some (i % size) else if (2 ^ 32 - i) % size == 0 then some 0 else none

-- The actor at an index after it was asked.
abbrev pub with_actor {ℓ} : {A : Type ℓ} → Scheduler A → ℕ → A → Scheduler A
with_actor s i actor = record s {
  actor_group = record s.actor_group { actor_pointers = set s.actor_group.actor_pointers i actor };
}

module _ {ℓ κ} {A : Type ℓ} {M : Type κ} (ask : M → A → Bool × A × M) where
  -- `_get_current_actor_index`
  unfoldable pub get_current_actor_index : Scheduler A → Option ℕ × Scheduler A
  unfolding remainder
  get_current_actor_index s = (
    if capacity s.actor_group == 0 then none else remainder s.counter (capacity s.actor_group),
    record s { counter = increment s.counter },
  )

  -- What a round of the loop does with the actor at its index, where `again` is the rest of the loop.
  unfoldable pub ask_actor :
      (Scheduler A → M → Option (Bool × Scheduler A))
      → Option A
      → ℕ
      → Scheduler A
      → M
      → Option (Bool × Scheduler A)
  ask_actor again none i s mail = again s mail
  ask_actor again (some actor) i s mail =
      let (taken, actor', mail') = ask mail actor in
      elim taken [
        | true ↦ some (true, with_actor s i actor')
        | false ↦ again (with_actor s i actor') mail'
      ]

  unfoldable pub round :
      (Scheduler A → M → Option (Bool × Scheduler A))
      → Option ℕ × Scheduler A
      → M
      → Option (Bool × Scheduler A)
  unfolding ask_actor at
  round again (none, s) mail = some (false, s)
  round again (some i, s) mail = ask_actor again (at s.actor_group i) i s mail

  -- The loop of `request_with_argstuple`, with fuel; `none` is too little of it.
  unfoldable pub request : ℕ → Scheduler A → M → Option (Bool × Scheduler A)
  unfolding round get_current_actor_index
  request zero s mail = none
  request (suc fuel) s mail = round (request fuel) (get_current_actor_index s) mail

-- ===== src/Queue/Tests.antt =====
-- The ring queue at work: a queue of three slots, calls on it, and each theorem at such a queue.
use vee.Base.{update, ℕ, zero, suc, ◌≡◌, refl, true, false, none, some, List, [], ◌∷◌, arith}
use vee.Queue.{Ring}
use vee.Queue.Fifo
use vee.Queue.Fifo.{Call, enqueues, dequeues, shallow_dequeues, clears, accepts, hands_out, done}
use vee.Queue.Invariant.{IsValid}
use vee.Queue.Refine.{contents}
use vee.Queue.Run.{run, run_refines}
use vee.Queue.Race.{System, outside, storing, reserves, Reach, here, later}
use vee.Queue.Race.Granted.{reserved, reserve_room}
use vee.Queue.Race.Safety.{AreFree, IsSafe, Reach-IsSafe}

-- A move of a number leaves it.
abbrev moved : ℕ → ℕ
moved n = n

abbrev three_slots : Ring ℕ
three_slots = record {
  item_guards = false ∷ false ∷ false ∷ [];
  item_container = 7 ∷ 8 ∷ 5 ∷ [];
  capacity = 3;
  overwrite_mode = true;
  rear = 1;
  front = 2;
  size = 2;
}

three_slots-IsValid : IsValid three_slots
three_slots-IsValid = record {
  small = omega arith;
  guards = refl;
  items = refl;
  front_in = omega arith;
  size_in = omega arith;
  rear_at = refl;
}

abbrev one_item : Ring ℕ
one_item = record three_slots { rear = 0; size = 1 }

one_item-IsValid : IsValid one_item
one_item-IsValid = record {
  small = omega arith;
  guards = refl;
  items = refl;
  front_in = omega arith;
  size_in = omega arith;
  rear_at = refl;
}

abbrev full : Ring ℕ
full = record three_slots { rear = 2; size = 3 }

full-IsValid : IsValid full
full-IsValid = record {
  small = omega arith;
  guards = refl;
  items = refl;
  front_in = omega arith;
  size_in = omega arith;
  rear_at = refl;
}

abbrev two_empty : Ring ℕ
two_empty = record {
  item_guards = false ∷ false ∷ [];
  item_container = 0 ∷ 0 ∷ [];
  capacity = 2;
  overwrite_mode = false;
  rear = 0;
  front = 0;
  size = 0;
}

two_empty-IsValid : IsValid two_empty
two_empty-IsValid = record {
  small = omega arith;
  guards = refl;
  items = refl;
  front_in = omega arith;
  size_in = omega arith;
  rear_at = refl;
}

abbrev calls : List (Call ℕ)
calls = enqueues 1 ∷ enqueues 2 ∷ dequeues ∷ shallow_dequeues ∷ clears ∷ dequeues ∷ []

run_test :
    run moved three_slots calls
    ≡ some (
        accepts true
        ∷ accepts true
        ∷ hands_out (some 7)
        ∷ accepts true
        ∷ done
        ∷ hands_out none
        ∷ [])
unfolding run
run_test = refl

run_refines_example :
    run moved three_slots calls ≡ some (Fifo.run 3 true (contents 0 three_slots) calls)
run_refines_example = run_refines 0 moved calls three_slots three_slots-IsValid

-- Threads on an empty queue.
abbrev start : System ℕ
start = record { ring = two_empty; pc = λ i. outside }

free_start : AreFree (false ∷ false ∷ [])
free_start zero = refl
free_start (suc zero) = refl
free_start (suc (suc k)) = refl

start-IsSafe : IsSafe start
start-IsSafe = record {
  valid = two_empty-IsValid;
  storing_in = λ i slot x e. ground arith;
  fetching_in = λ i slot e. ground arith;
  free = free_start;
}

one_reserved : System ℕ
one_reserved = record { ring = reserved two_empty; pc = update (λ i. outside) 0 (storing 0 9) }

one_step : Reach moved start one_reserved
unfolding one_reserved
one_step = later here (reserves 0 9 refl (reserve_room two_empty two_empty-IsValid (omega arith)))

Reach-IsSafe_example : IsSafe one_reserved
Reach-IsSafe_example = Reach-IsSafe 0 moved start-IsSafe one_step

-- ===== src/Delegate/Tests.antt =====
-- Delegates at work: functions are numbers, and a call notes them.
use vee.Base.{ℕ, ◌≡◌, refl, true, false, some, none, List, [], ◌∷◌, ◌==◌, if◌then◌else◌, arith}
use vee.Delegate.{
  call, erase, Delegate, add, add_keyed, remove, remove_key, deep_copy, empty_delegate,
}
use vee.Delegate.Arguments.{
  rvalue, pass, forwarded, sequence_generator, call_tuple, call_rvalue_tuple,
}
use vee.Delegate.Equal.{call_tuple-call}
use vee.Delegate.Targets.{
  Callable, Function, target, both_targets, compare_functions, make_compareable, function_equals,
  equals_function, remove_callable, remove_binder,
}
use vee.Delegate.Removal.{remove-add_by_target}
use vee.Delegate.Keys.{IsSorted, find, or_else, remove_key-add_keyed}

abbrev some_functions : Delegate ℕ
some_functions = record { container = 4 ∷ 2 ∷ []; idx_container = (1, 9) ∷ (5, 8) ∷ [] }

abbrev entries : List (ℕ × ℕ)
entries = (1, 9) ∷ (5, 8) ∷ []

abbrev keyed : Delegate ℕ
keyed = record { container = 4 ∷ []; idx_container = entries }

-- The copy of a delegate without functions leaves those of the left side.
deep_copy_test : deep_copy some_functions empty_delegate ≡ some_functions
unfolding deep_copy
deep_copy_test = refl

remove_key-add_keyed_example :
    IsSorted (add_keyed keyed 3 7).idx_container
    × (find 3 (add_keyed keyed 3 7).idx_container
        ≡ (if 3 == 3 then or_else 7 (find 3 entries) else find 3 entries))
    × ((add_keyed keyed 3 7).container ≡ 4 ∷ [])
    × ((remove_key (add_keyed keyed 3 7) 3).0 ≡ true)
    × (find 3 (remove_key (add_keyed keyed 3 7) 3).1.idx_container
        ≡ (if 3 == 3 then none else find 3 entries))
    × ((remove_key (add_keyed keyed 3 7) 3).1.container ≡ 4 ∷ [])
remove_key-add_keyed_example = remove_key-add_keyed 3 3 7 keyed (omega arith, (tt, tt))

-- A sum that notes the arguments of each call; what is moved from becomes 0.
abbrev noting : ℕ → List ℕ → List (ℕ × List ℕ) → List (ℕ × List ℕ)
noting f args log = (f, args) ∷ log

abbrev two_args : List ℕ
two_args = 7 ∷ 3 ∷ []

indices_test : sequence_generator 3 [] ≡ 0 ∷ 1 ∷ 2 ∷ []
unfolding sequence_generator
indices_test = refl

-- Forwarded as rvalues, the arguments would be gone behind the first function.
rvalue_test : forwarded (λ a. 0) rvalue (0 ∷ 1 ∷ []) two_args ≡ some (two_args, 0 ∷ 0 ∷ [])
unfolding forwarded pass
rvalue_test = refl

call_tuple-call_example :
    (call_tuple (λ a. 0) noting some_functions two_args []
      ≡ some (call (λ f. noting f two_args) some_functions [], two_args))
    × (call_rvalue_tuple (λ a. 0) noting some_functions two_args []
        ≡ some (call (λ f. noting f two_args) some_functions [], two_args))
call_tuple-call_example = call_tuple-call (λ a. 0) noting some_functions two_args []

-- A lambda, whose type is 2; the pointers to functions have the type 1.
abbrev a_lambda : Callable ℕ
a_lambda = record { type = 2; value = 5 }

abbrev with_pointer : Delegate (Function ℕ)
with_pointer = record { container = some (record { type = 1; value = 5 }) ∷ []; idx_container = [] }

remove-add_by_target_example :
    (remove_callable (λ t. ◌==◌) (add with_pointer (some a_lambda)) a_lambda ≡ (true, with_pointer))
    × (remove_binder (λ t. ◌==◌) 1 (add with_pointer (some a_lambda)) (some a_lambda)
        ≡ (if 2 == 1 then (true, with_pointer) else (false, add with_pointer (some a_lambda))))
remove-add_by_target_example =
    remove-add_by_target (λ t. ◌==◌) 1 with_pointer a_lambda refl
      (unfold remove_callable remove erase compare_functions target both_targets in refl)

-- The two orders of the comparison of a `compareable_function` agree.
compareable_test :
    (function_equals (λ t. ◌==◌) (some a_lambda) (make_compareable a_lambda) ≡ true)
    × (equals_function (λ t. ◌==◌) (make_compareable a_lambda) none ≡ false)
unfolding function_equals equals_function make_compareable compare_functions target both_targets
compareable_test = (refl, refl)

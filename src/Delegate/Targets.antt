-- ===== src/Delegate/Targets.antt =====
-- What `std::function` holds, and which functions are the same: `compare_functions`,
-- `compareable_function` and the overloads of `operator-=`.
use vee.Base.{ℕ, Bool, false, Option, none, some, ◌==◌, if◌then◌else◌}
use vee.Delegate.{Delegate, remove}

-- A callable object: its type and its value.
pub record Callable {ℓ} (V : Type ℓ) : Type ℓ where
  pub type : ℕ
  pub value : V

-- `std::function`, which is empty or has a target.
abbrev pub Function {ℓ} : Type ℓ → Type ℓ
Function V = Option (Callable V)

-- `target<T>()`
unfoldable pub target {ℓ} : {V : Type ℓ} → ℕ → Function V → Option V
target t none = none
target t (some f) = if f.type == t then some f.value else none

-- `compareable_function`: a function, and the type with which `_type_holder` compares.
pub record CompareableFunction {ℓ} (V : Type ℓ) : Type ℓ where
  pub function : Function V
  pub type_holder : ℕ

-- The constructor and the assignment from a callable object.
unfoldable pub make_compareable {ℓ} : {V : Type ℓ} → Callable V → CompareableFunction V
make_compareable f = record { function = some f; type_holder = f.type }

-- `equal` is `operator==` of each type.
module _ {ℓ} {V : Type ℓ} (equal : ℕ → V → V → Bool) where
  unfoldable pub both_targets : ℕ → Option V → Option V → Bool
  both_targets t (some lhs) (some rhs) = equal t rhs lhs
  both_targets t (some lhs) none = false
  both_targets t none rhs = false

  unfoldable pub compare_functions : ℕ → Function V → Function V → Bool
  unfolding both_targets target
  compare_functions t lhs rhs = both_targets t (target t lhs) (target t rhs)

  -- The two orders of `operator==`.
  unfoldable pub function_equals : Function V → CompareableFunction V → Bool
  unfolding compare_functions
  function_equals lhs rhs = compare_functions rhs.type_holder lhs rhs.function

  unfoldable pub equals_function : CompareableFunction V → Function V → Bool
  unfolding function_equals
  equals_function lhs rhs = function_equals rhs lhs

  -- `operator-=` of a callable object, and of a `std::function`, where `pointer` is the type of the
  -- pointers to functions of the delegate's signature.
  unfoldable pub remove_callable : Delegate (Function V) → Callable V → Bool × Delegate (Function V)
  unfolding remove compare_functions
  remove_callable d f = remove (compare_functions f.type) d (some f)

  unfoldable pub remove_binder :
      ℕ → Delegate (Function V) → Function V → Bool × Delegate (Function V)
  unfolding remove compare_functions
  remove_binder pointer d binder = remove (compare_functions pointer) d binder

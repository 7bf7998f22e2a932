-- ===== src/Delegate.antt =====
-- vee/delegate.h: `delegate`, the functions that are called together. A function is a value of a
-- type, with a test for the same target (`compare_functions`) and its effect on a world as
-- parameters. A key, an `int64_t`, is written with 2 ^ 63 added, so keys are in the order of
-- numbers. The map is the list of its entries in the order of its iterators.
pub mod Calls
pub mod Keys
pub mod Arguments
pub mod Equal
pub mod Targets
pub mod Removal
mod Tests
use vee.Base.{ℕ, Bool, true, false, List, [], ◌∷◌, ◌++◌, ◌==◌, ltb, if◌then◌else◌}

pub record Delegate {ℓ} (F : Type ℓ) : Type ℓ where
  pub container : List F
  pub idx_container : List (ℕ × F)

abbrev pub empty_delegate {ℓ} : {F : Type ℓ} → Delegate F
empty_delegate = record { container = []; idx_container = [] }

-- `_deep_copy` of an lvalue: a container of the right side that is empty is not copied.
unfoldable pub copy_unless_empty {ℓ} : {A : Type ℓ} → List A → List A → List A
copy_unless_empty old [] = old
copy_unless_empty old (x ∷ xs) = x ∷ xs

-- `_deep_copy` of an rvalue, which the moving constructor and assignment call: the left and the
-- right side after. What a moved container has is left to the library, and is `rest`.
unfoldable pub move_unless_empty {ℓ} :
    {A : Type ℓ} → (List A → List A) → List A → List A → List A × List A
move_unless_empty rest old [] = (old, [])
move_unless_empty rest old (x ∷ xs) = (x ∷ xs, rest (x ∷ xs))

module _ {ℓ} {F : Type ℓ} where
  -- `std::map::insert`, which keeps the entry of a key that is there.
  unfoldable pub insert : ℕ → F → List (ℕ × F) → List (ℕ × F)
  insert key f [] = (key, f) ∷ []
  insert key f ((k, g) ∷ entries) =
      let rest = insert key f entries in
      if ltb key k
      then (key, f) ∷ (k, g) ∷ entries
      else if key == k
      then (k, g) ∷ entries
      else (k, g) ∷ rest

  -- `operator+=`, of a function and of a key with a function.
  unfoldable pub add : Delegate F → F → Delegate F
  add d f = record d { container = d.container ++ f ∷ [] }

  unfoldable pub add_keyed : Delegate F → ℕ → F → Delegate F
  unfolding insert
  add_keyed d key f = record d { idx_container = insert key f d.idx_container }

  -- The loops of `operator-=`: the first match is erased.
  unfoldable pub erase : (F → F → Bool) → F → List F → Bool × List F
  erase same f [] = (false, [])
  erase same f (g ∷ fs) =
      let rest = erase same f fs in if same g f then (true, fs) else (rest.0, g ∷ rest.1)

  unfoldable pub erase_key : ℕ → List (ℕ × F) → Bool × List (ℕ × F)
  erase_key key [] = (false, [])
  erase_key key ((k, g) ∷ entries) =
      let rest = erase_key key entries in
      if k == key then (true, entries) else (rest.0, (k, g) ∷ rest.1)

  unfoldable pub remove : (F → F → Bool) → Delegate F → F → Bool × Delegate F
  unfolding erase
  remove same d f = let r = erase same f d.container in (r.0, record d { container = r.1 })

  unfoldable pub remove_key : Delegate F → ℕ → Bool × Delegate F
  unfolding erase_key
  remove_key d key =
      let r = erase_key key d.idx_container in (r.0, record d { idx_container = r.1 })

  unfoldable pub deep_copy : Delegate F → Delegate F → Delegate F
  unfolding copy_unless_empty
  deep_copy lhs rhs = record {
    container = copy_unless_empty lhs.container rhs.container;
    idx_container = copy_unless_empty lhs.idx_container rhs.idx_container;
  }

  unfoldable pub deep_move :
      (List F → List F)
      → (List (ℕ × F) → List (ℕ × F))
      → Delegate F
      → Delegate F
      → Delegate F × Delegate F
  unfolding move_unless_empty
  deep_move rest rest_entries lhs rhs =
      let c = move_unless_empty rest lhs.container rhs.container in
      let i = move_unless_empty rest_entries lhs.idx_container rhs.idx_container in
      (
        record { container = c.0; idx_container = i.0 },
        record { container = c.1; idx_container = i.1 },
      )

  -- The copying and the moving constructor start from no functions.
  unfoldable pub copied_delegate : Delegate F → Delegate F
  unfolding deep_copy
  copied_delegate rhs = deep_copy empty_delegate rhs

  unfoldable pub moved_delegate :
      (List F → List F) → (List (ℕ × F) → List (ℕ × F)) → Delegate F → Delegate F × Delegate F
  unfolding deep_move
  moved_delegate rest rest_entries rhs = deep_move rest rest_entries empty_delegate rhs

  unfoldable pub make_delegate : F → Delegate F
  unfolding add
  make_delegate f = add empty_delegate f

-- `operator()`: the two loops.
module _ {ℓ κ} {F : Type ℓ} {World : Type κ} (invoke : F → World → World) where
  unfoldable pub call_each : List F → World → World
  call_each [] w = w
  call_each (f ∷ fs) w = call_each fs (invoke f w)

  unfoldable pub call_entries : List (ℕ × F) → World → World
  call_entries [] w = w
  call_entries ((k, f) ∷ entries) w = call_entries entries (invoke f w)

  unfoldable pub call : Delegate F → World → World
  unfolding call_each call_entries
  call d w = call_entries d.idx_container (call_each d.container w)

-- ===== src/Delegate/Removal.antt =====
-- Which functions of a delegate can be removed again, and what copies and moves have.
use vee.Base.{
  ℕ, ◌≡◌, refl, sym, ap, ap₂, ◌∙◌, Bool, Bool-cases, inl, inr, true, false, Option, none, some,
  List, [], ◌∷◌, ◌==◌, ==→eq, arith, if◌then◌else◌,
}
use vee.Delegate.{
  Delegate, add, remove, erase, deep_copy, copied_delegate, copy_unless_empty, deep_move,
  moved_delegate, move_unless_empty,
}
use vee.Delegate.Calls.{remove-add}
use vee.Delegate.Targets.{
  Callable, Function, target, both_targets, compare_functions, remove_callable, remove_binder,
}

copy_all {ℓ} : {A : Type ℓ} (xs : List A) → copy_unless_empty [] xs ≡ xs
unfolding copy_unless_empty
copy_all [] = refl
copy_all (x ∷ xs) = refl

move_all {ℓ} :
    {A : Type ℓ} (rest : List A → List A) (xs : List A) → (move_unless_empty rest [] xs).0 ≡ xs
unfolding move_unless_empty
move_all rest [] = refl
move_all rest (x ∷ xs) = refl

module _ {ℓ} {F : Type ℓ} where
  erase_none :
      (same : F → F → Bool) (f : F) (fs : List F)
      → ((g : F) → same g f ≡ false)
      → erase same f fs ≡ (false, fs)
  unfolding erase
  erase_none same f [] h = refl
  erase_none same f (g ∷ fs) h = rw (h g, erase_none same f fs h) refl

  -- Behind the copying and the moving constructor, the delegate is what the right side was.
  pub constructed :
      (rest : List F → List F) (rest_entries : List (ℕ × F) → List (ℕ × F)) (rhs : Delegate F)
      → (copied_delegate rhs ≡ rhs) × ((moved_delegate rest rest_entries rhs).0 ≡ rhs)
  unfolding copied_delegate deep_copy moved_delegate deep_move
  constructed rest rest_entries rhs = (
    ap₂ (λ c i. record { container = c; idx_container = i }) (copy_all rhs.container)
        (copy_all rhs.idx_container),
    ap₂ (λ c i. record { container = c; idx_container = i }) (move_all rest rhs.container)
        (move_all rest_entries rhs.idx_container),
  )

module _ {ℓ} {V : Type ℓ} (equal : ℕ → V → V → Bool) (pointer : ℕ) where
  compare_itself :
      (f : Callable V)
      → equal f.type f.value f.value ≡ true
      → compare_functions equal f.type (some f) (some f) ≡ true
  unfolding compare_functions target both_targets
  compare_itself f e = ground (arith, e)

  both_targets-none : (t : ℕ) (o : Option V) → both_targets equal t o none ≡ false
  unfolding both_targets
  both_targets-none t none = refl
  both_targets-none t (some v) = refl

  compare_other_type :
      (t : ℕ) (f : Callable V) (g : Function V)
      → (f.type == t) ≡ false
      → compare_functions equal t g (some f) ≡ false
  unfolding compare_functions target both_targets
  compare_other_type t f none e = refl
  compare_other_type t f (some g) e =
      ground (arith, e, both_targets-none t (if g.type == t then some g.value else none))

  -- A callable object that equals itself and no function of the delegate, added and then removed:
  -- as an object it is removed; as a `std::function` it is where its type is that of the pointers
  -- to functions, and otherwise false is returned, and the delegate keeps it.
  pub remove-add_by_target :
      (d : Delegate (Function V)) (f : Callable V)
      → equal f.type f.value f.value ≡ true
      → (remove_callable equal d f).0 ≡ false
      → (remove_callable equal (add d (some f)) f ≡ (true, d))
        × (remove_binder equal pointer (add d (some f)) (some f)
            ≡ (if f.type == pointer then (true, d) else (false, add d (some f))))
  unfolding remove_callable remove_binder
  remove-add_by_target d f self absent = (
    remove-add (compare_functions equal f.type) d (some f) (compare_itself f self) absent,
    elim (Bool-cases (f.type == pointer)) [
      | inl e ↦
          ap (λ t. remove (compare_functions equal t) (add d (some f)) (some f))
            (sym (==→eq f.type pointer e))
          ∙ (remove-add (compare_functions equal f.type) d (some f) (compare_itself f self) absent
              ∙ sym (ap (λ b. if b then (true, d) else (false, add d (some f))) e))
      | inr e ↦ rw (e) (
          ap (λ (r : Bool × List (Function V)). (r.0, record (add d (some f)) { container = r.1 }))
            (erase_none (compare_functions equal pointer) (some f) (add d (some f)).container
              (λ g. compare_other_type pointer f g e)))
    ],
  )

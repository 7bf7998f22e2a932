-- ===== src/Delegate/Equal.antt =====
-- The three ways to call a delegate are one.
use mathlib.Core.Option as Option
use vee.Base.{
  ℕ, zero, suc, ◌≤◌, ◌<◌, ◌≡◌, refl, sym, ap, some, List, [], ◌∷◌, arith, length, get_elem?, set,
  drop, drop_all,
}
use vee.Delegate.{Delegate, call, call_each, call_entries}
use vee.Delegate.Arguments.{
  Category, lvalue, rvalue, named, sequence_generator, forwarded, do_call, call_by_tuple,
  tuple_each, tuple_entries, call_tuple, call_rvalue_tuple,
}

module _ {ℓ} {A : Type ℓ} where
  -- The element at an index, in front of those behind it, and written back.
  element :
      (tuple : List A) (i : ℕ)
      → i < length tuple
      → (a : A) × (get_elem? tuple i ≡ some a)
        × (drop i tuple ≡ a ∷ drop (suc i) tuple)
        × (set tuple i a ≡ tuple)
  element [] i h = absurd (omega arith)
  element (a ∷ tuple) zero h = (a, refl, refl, refl)
  element (b ∷ tuple) (suc i) h =
      let (a, e, f, g) = element tuple i (omega arith) in (a, e, f, ap (λ (l : List A). b ∷ l) g)

  forwarded_from :
      (moved : A → A) (tuple : List A) (n : ℕ) (indices : List ℕ)
      → n ≤ length tuple
      → forwarded moved lvalue indices tuple ≡ some (drop n tuple, tuple)
      → forwarded moved lvalue (sequence_generator n indices) tuple ≡ some (tuple, tuple)
  unfolding sequence_generator forwarded
  forwarded_from moved tuple zero indices h e = e
  forwarded_from moved tuple (suc n) indices h e =
      let (a, at, behind, same) = element tuple n (omega arith) in
      forwarded_from moved tuple n (n ∷ indices) (omega arith) (ground (arith, at, behind, same, e))

  forwarded_lvalues :
      (moved : A → A) (tuple : List A)
      → forwarded moved lvalue (sequence_generator (length tuple) []) tuple ≡ some (tuple, tuple)
  unfolding forwarded
  forwarded_lvalues moved tuple =
      forwarded_from moved tuple (length tuple) [] (omega arith)
        (ap (λ (l : List A). some (l, tuple)) (sym (drop_all (length tuple) tuple (omega arith))))

  module _ {κ ι} {F : Type κ} {World : Type ι} (moved : A → A)
      (invoke : F → List A → World → World) where
    call_by_tuple_lem :
        (f : F) (c : Category) (tuple : List A) (w : World)
        → call_by_tuple moved invoke f c tuple w ≡ some (invoke f tuple w, tuple)
    unfolding call_by_tuple do_call named
    call_by_tuple_lem f c tuple w =
        ap (Option.map (λ (r : List A × List A). (invoke f r.0 w, r.1)))
          (forwarded_lvalues moved tuple)

    tuple_each_lem :
        (c : Category) (fs : List F) (w : World) (args : List A)
        → tuple_each moved invoke c fs (w, args) ≡ some (call_each (λ f. invoke f args) fs w, args)
    unfolding tuple_each call_each
    tuple_each_lem c [] w args = refl
    tuple_each_lem c (f ∷ fs) w args =
        ground (arith, call_by_tuple_lem f c args w, tuple_each_lem c fs (invoke f args w) args)

    tuple_entries_lem :
        (c : Category) (entries : List (ℕ × F)) (w : World) (args : List A)
        → tuple_entries moved invoke c entries (w, args)
          ≡ some (call_entries (λ f. invoke f args) entries w, args)
    unfolding tuple_entries call_entries
    tuple_entries_lem c [] w args = refl
    tuple_entries_lem c ((k, f) ∷ entries) w args =
        ground
          (arith, call_by_tuple_lem f c args w, tuple_entries_lem c entries (invoke f args w) args)

    -- The calls of a delegate with a tuple, and with a tuple that may be moved from, are the call
    -- with the elements as the arguments: every function receives all the elements in their order,
    -- none of them moved, and the tuple is left as it was.
    pub call_tuple-call :
        (d : Delegate F) (args : List A) (w : World)
        → (call_tuple moved invoke d args w ≡ some (call (λ f. invoke f args) d w, args))
          × (call_rvalue_tuple moved invoke d args w ≡ some (call (λ f. invoke f args) d w, args))
    unfolding call_tuple call_rvalue_tuple call
    call_tuple-call d args w = (
      ground (
        arith,
        tuple_each_lem lvalue d.container w args,
        tuple_entries_lem lvalue d.idx_container (call_each (λ f. invoke f args) d.container w)
            args,
      ),
      ground (
        arith,
        tuple_each_lem rvalue d.container w args,
        tuple_entries_lem rvalue d.idx_container (call_each (λ f. invoke f args) d.container w)
            args,
      ),
    )

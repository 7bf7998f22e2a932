-- ===== src/Delegate/Arguments.antt =====
-- vee/tuple_unpacker.h and the calls of a delegate with a tuple of arguments. What a function
-- receives depends on the value category of the expression that names the argument: it copies an
-- lvalue, and moves from an rvalue.
use mathlib.Core.Option as Option
use vee.Base.{ℕ, zero, suc, Option, none, some, List, [], ◌∷◌, length, get_elem?, set}
use vee.Delegate.{Delegate}

pub data Category : Type 0 where
  lvalue rvalue : Category

-- An expression that is a name, also that of a reference to an rvalue.
unfoldable pub named : Category → Category
named c = lvalue

-- `sequence_generator`: N - 1 is put in front, until N is 0.
unfoldable pub sequence_generator : ℕ → List ℕ → List ℕ
sequence_generator zero indices = indices
sequence_generator (suc n) indices = sequence_generator n (n ∷ indices)

-- `moved` is what an argument is after a function has moved from it.
module _ {ℓ} {A : Type ℓ} (moved : A → A) where
  -- What the function receives, and what the argument is after.
  unfoldable pub pass : Category → A → A × A
  pass lvalue a = (a, a)
  pass rvalue a = (a, moved a)

  -- `std::forward<decltype(std::get<S>(tuple))>(std::get<S>(tuple)) ...`: the arguments that the
  -- function receives, and the tuple after. A reference of `std::get` is of the category of the
  -- tuple's expression. An index outside the tuple does not compile, and is none.
  unfoldable pub forwarded : Category → List ℕ → List A → Option (List A × List A)
  unfolding pass
  forwarded c [] tuple = some ([], tuple)
  forwarded c (i ∷ indices) tuple = elim (get_elem? tuple i) [
    | none ↦ none
    | some a ↦
        let given = pass c a in
        Option.map (λ (r : List A × List A). (given.0 ∷ r.0, r.1))
          (forwarded c indices (set tuple i given.1))
  ]

  module _ {κ ι} {F : Type κ} {World : Type ι} (invoke : F → List A → World → World) where
    -- `_do_call` and `call_by_tuple`, with an argument of the category `c`: the world after, and
    -- the tuple. The parameter `tuple` is a name.
    unfoldable pub do_call : F → Category → List A → List ℕ → World → Option (World × List A)
    unfolding forwarded named
    do_call f c tuple indices w =
        Option.map (λ (r : List A × List A). (invoke f r.0 w, r.1))
          (forwarded (named c) indices tuple)

    unfoldable pub call_by_tuple : F → Category → List A → World → Option (World × List A)
    unfolding do_call sequence_generator
    call_by_tuple f c tuple w = do_call f c tuple (sequence_generator (length tuple) []) w

    -- The two loops of `operator()`, where `args` is passed on with the category `c`.
    unfoldable pub tuple_each : Category → List F → World × List A → Option (World × List A)
    unfolding call_by_tuple
    tuple_each c [] r = some r
    tuple_each c (f ∷ fs) (w, args) = elim (call_by_tuple f c args w) [
      | none ↦ none
      | some r ↦ tuple_each c fs r
    ]

    unfoldable pub tuple_entries :
        Category → List (ℕ × F) → World × List A → Option (World × List A)
    unfolding call_by_tuple
    tuple_entries c [] r = some r
    tuple_entries c ((k, f) ∷ entries) (w, args) = elim (call_by_tuple f c args w) [
      | none ↦ none
      | some r ↦ tuple_entries c entries r
    ]

    abbrev both_loops : Category → Delegate F → List A → World → Option (World × List A)
    unfolding tuple_each tuple_entries
    both_loops c d args w = elim (tuple_each c d.container (w, args)) [
      | none ↦ none
      | some r ↦ tuple_entries c d.idx_container r
    ]

    -- `operator()(argstuple_t&)`, which passes the name on.
    unfoldable pub call_tuple : Delegate F → List A → World → Option (World × List A)
    unfolding both_loops
    call_tuple d args w = both_loops lvalue d args w

    -- `operator()(argstuple_t&&)`, which casts it back to an rvalue in front of each function.
    unfoldable pub call_rvalue_tuple : Delegate F → List A → World → Option (World × List A)
    unfolding both_loops
    call_rvalue_tuple d args w = both_loops rvalue d args w

-- ===== src/Delegate/Keys.antt =====
-- The functions of a delegate that have keys: adding and removing by key.
use mathlib.Core.Path.{subst}
use vee.Base.{
  ℕ, ◌⊎◌, inl, inr, Bool-cases, ◌<◌, ◌≡◌, refl, sym, ap, ◌∙◌, Bool, true, false, Option, none, some,
  List, [], ◌∷◌, ◌==◌, if◌then◌else◌, arith,
}
use vee.Delegate.{Delegate, insert, add_keyed, erase_key, remove_key}

module _ {ℓ} {F : Type ℓ} where
  -- The entries are in strict order of their keys, as an iterator of a map meets them.
  abbrev pub IsAbove : ℕ → List (ℕ × F) → Type 0
  IsAbove key [] = Unit
  IsAbove key ((k, f) ∷ entries) = key < k

  abbrev pub IsSorted : List (ℕ × F) → Type 0
  IsSorted [] = Unit
  IsSorted ((k, f) ∷ entries) = IsAbove k entries × IsSorted entries

  -- The function of a key.
  unfoldable pub find : ℕ → List (ℕ × F) → Option F
  find key [] = none
  find key ((k, f) ∷ entries) = let rest = find key entries in if key == k then some f else rest

  abbrev pub or_else : F → Option F → Option F
  or_else f none = some f
  or_else f (some g) = some g

  IsAbove-insert :
      (j key : ℕ) (f : F) (entries : List (ℕ × F))
      → j < key
      → IsAbove j entries
      → IsAbove j (insert key f entries)
  unfolding insert
  IsAbove-insert j key f [] lt above = lt
  IsAbove-insert j key f ((k, g) ∷ entries) lt above = ground arith

  insert-IsSorted :
      (key : ℕ) (f : F) (entries : List (ℕ × F))
      → IsSorted entries
      → IsSorted (insert key f entries)
  unfolding insert
  insert-IsSorted key f [] s = (tt, tt)
  insert-IsSorted key f ((k, g) ∷ entries) s =
      ground (arith, insert-IsSorted key f entries s.1, IsAbove-insert k key f entries)

  IsAbove-lt : (j k : ℕ) (entries : List (ℕ × F)) → j < k → IsAbove k entries → IsAbove j entries
  IsAbove-lt j k [] lt a = tt
  IsAbove-lt j k ((i, f) ∷ entries) lt a = omega arith

  find_below :
      (key : ℕ) (entries : List (ℕ × F))
      → IsAbove key entries
      → IsSorted entries
      → find key entries ≡ none
  unfolding find
  find_below key [] a s = refl
  find_below key ((k, f) ∷ entries) a s =
      let rest = find_below key entries (IsAbove-lt key k entries a s.0) s.1 in ground (arith, rest)

  find-insert :
      (j key : ℕ) (f : F) (entries : List (ℕ × F))
      → IsSorted entries
      → find j (insert key f entries)
        ≡ (if j == key then or_else f (find key entries) else find j entries)
  unfolding find insert
  find-insert j key f [] s = refl
  find-insert j key f ((k, g) ∷ entries) s =
      ground (arith, find-insert j key f entries s.1, find_below key entries)

  insert_lem :
      (j key : ℕ) (f : F) (entries : List (ℕ × F))
      → IsSorted entries
      → IsSorted (insert key f entries)
        × (find j (insert key f entries)
            ≡ (if j == key then or_else f (find key entries) else find j entries))
  insert_lem j key f entries s = (insert-IsSorted key f entries s, find-insert j key f entries s)

  abbrev pub is_some : Option F → Bool
  is_some none = false
  is_some (some f) = true

  erased_here :
      (j key k : ℕ) (g : F) (rest : Option F)
      → (k == key) ≡ true
      → (j ≡ k → rest ≡ none)
      → rest ≡ (if j == key then none else if j == k then some g else rest)
  erased_here j key k g rest e absent = ground (arith, absent)

  erased_later :
      (j key k : ℕ) (g : F) (rest found : Option F)
      → (k == key) ≡ false
      → rest ≡ (if j == key then none else found)
      → (if j == k then some g else rest)
        ≡ (if j == key then none else if j == k then some g else found)
  erased_later j key k g rest found e below = ground (arith, below)

  erase_key_lem :
      (j key : ℕ) (entries : List (ℕ × F))
      → IsSorted entries
      → ((erase_key key entries).0 ≡ is_some (find key entries))
        × (find j (erase_key key entries).1 ≡ (if j == key then none else find j entries))
  unfolding find erase_key
  erase_key_lem j key [] s = (refl, ground arith)
  erase_key_lem j key ((k, g) ∷ entries) s = (
    ground (arith, (erase_key_lem j key entries s.1).0),
    by_key (erase_key_lem j key entries s.1).1 (Bool-cases (k == key)),
  )
    where
      by_key :
          (find j (erase_key key entries).1 ≡ (if j == key then none else find j entries))
          → ((k == key) ≡ true) ⊎ ((k == key) ≡ false)
          → find j (erase_key key ((k, g) ∷ entries)).1
            ≡ (if j == key then none else find j ((k, g) ∷ entries))
      by_key rest (inl e) =
          ap
            (λ b.
              find j
                (if◌then◌else◌ {A = Bool × List (ℕ × F)} b (true, entries)
                  ((erase_key key entries).0, (k, g) ∷ (erase_key key entries).1)).1)
            e
          ∙ erased_here j key k g (find j entries) e
              (λ same. find_below j entries (subst (λ i. IsAbove i entries) (sym same) s.0) s.1)
      by_key rest (inr e) =
          ap
            (λ b.
              find j
                (if◌then◌else◌ {A = Bool × List (ℕ × F)} b (true, entries)
                  ((erase_key key entries).0, (k, g) ∷ (erase_key key entries).1)).1)
            e
          ∙ erased_later j key k g (find j (erase_key key entries).1) (find j entries) e rest

  -- A function is added by key to a delegate whose keys are in strict order. They are in strict
  -- order still; the key has the function that it had before, or the new one if it had none; no
  -- other key and no function without one changes. When the key is then removed, that succeeds, and
  -- the key has no function, while the other keys have theirs.
  pub remove_key-add_keyed :
      (j key : ℕ) (f : F) (d : Delegate F)
      → IsSorted d.idx_container
      → IsSorted (add_keyed d key f).idx_container
        × (find j (add_keyed d key f).idx_container
            ≡ (if j == key then or_else f (find key d.idx_container) else find j d.idx_container))
        × ((add_keyed d key f).container ≡ d.container)
        × ((remove_key (add_keyed d key f) key).0 ≡ true)
        × (find j (remove_key (add_keyed d key f) key).1.idx_container
            ≡ (if j == key then none else find j d.idx_container))
        × ((remove_key (add_keyed d key f) key).1.container ≡ d.container)
  unfolding add_keyed remove_key
  remove_key-add_keyed j key f d sorted =
      let old = d.idx_container in
      let (still, found) = insert_lem j key f old sorted in
      let (succeeds, erased) = erase_key_lem j key (insert key f old) still in
      let (also, own) = insert_lem key key f old sorted in
      (
        still,
        found,
        refl,
        succeeds ∙ ap is_some own ∙ has_one (find key old),
        erased ∙ ground (arith, found),
        refl,
      )
    where
      has_one : (o : Option F) → is_some (if key == key then or_else f o else o) ≡ true
      has_one none = ground arith
      has_one (some g) = ground arith

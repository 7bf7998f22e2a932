-- ===== src/Delegate/Calls.antt =====
-- The order of the calls of a delegate, and copies.
use vee.Base.{
  ℕ, append-nil, append_assoc, arith, Bool-cases, inl, inr, ◌≡◌, refl, sym, ap, ◌∙◌, Bool, true,
  false, List, [], ◌∷◌, ◌++◌, map, if◌then◌else◌,
}
use vee.Delegate.{Delegate, add, remove, erase, call, call_each, call_entries}

module _ {ℓ} {F : Type ℓ} where
  -- A delegate that notes each call.
  abbrev pub noted : F → List F → List F
  noted f log = log ++ f ∷ []

  -- The functions in the order of their calls.
  abbrev pub functions : Delegate F → List F
  functions d = d.container ++ map (λ (entry : ℕ × F). entry.1) d.idx_container

  call_each-noted : (fs log : List F) → call_each noted fs log ≡ log ++ fs
  unfolding call_each
  call_each-noted [] log = sym (append-nil log)
  call_each-noted (f ∷ fs) log = call_each-noted fs (log ++ f ∷ []) ∙ append_assoc log (f ∷ []) fs

  call_entries-noted :
      (entries : List (ℕ × F)) (log : List F)
      → call_entries noted entries log ≡ log ++ map (λ (entry : ℕ × F). entry.1) entries
  unfolding call_entries
  call_entries-noted [] log = sym (append-nil log)
  call_entries-noted ((k, f) ∷ entries) log =
      call_entries-noted entries (log ++ f ∷ [])
      ∙ append_assoc log (f ∷ []) (map (λ (entry : ℕ × F). entry.1) entries)

  -- A call of a delegate calls each of its functions once: those without a key in the order in
  -- which they were added, and then those with one in the order of the keys' entries.
  pub call-noted : (d : Delegate F) (log : List F) → call noted d log ≡ log ++ functions d
  unfolding call
  call-noted d log =
      call_entries-noted d.idx_container (call_each noted d.container log)
      ∙ ap (λ l. l ++ map (λ (entry : ℕ × F). entry.1) d.idx_container)
          (call_each-noted d.container log)
      ∙ append_assoc log d.container (map (λ (entry : ℕ × F). entry.1) d.idx_container)

  erase-append :
      (same : F → F → Bool) (f : F) (fs : List F)
      → same f f ≡ true
      → (erase same f fs).0 ≡ false
      → erase same f (fs ++ f ∷ []) ≡ (true, fs)
  unfolding erase
  erase-append same f [] self absent = rw (self, erase) refl
  erase-append same f (g ∷ fs) self absent = elim (Bool-cases (same g f)) [
    | inl e ↦ absurd (ground arith)
    | inr e ↦
        let rest : (erase same f fs).0 ≡ false =
          sym (
            ap
              (λ b.
                (if◌then◌else◌ {A = Bool × List F} b (true, fs)
                  ((erase same f fs).0, g ∷ (erase same f fs).1)).0)
              e)
          ∙ absent in
        ap
          (λ b.
            if b
            then (true, fs ++ f ∷ [])
            else ((erase same f (fs ++ f ∷ [])).0, g ∷ (erase same f (fs ++ f ∷ [])).1))
          e
        ∙ ap (λ (r : Bool × List F). (r.0, g ∷ r.1)) (erase-append same f fs self rest)
  ]

  -- A function that equals itself and no function of the delegate, added and removed again: the
  -- removal succeeds, and leaves the delegate as it was.
  pub remove-add :
      (same : F → F → Bool) (d : Delegate F) (f : F)
      → same f f ≡ true
      → (remove same d f).0 ≡ false
      → remove same (add d f) f ≡ (true, d)
  unfolding remove add
  remove-add same d f self absent =
      ap (λ r. (r.0, record d { container = r.1 })) (erase-append same f d.container self absent)

-- ===== src/Lock/Serial.antt =====
-- The sections of threads that share a lock are as if each was done at once.
use vee.Base.{ℕ, ◌≡◌, refl, sym, ap, ◌∙◌, true, List, [], ◌∷◌, ◌++◌, arith, append-nil}
use vee.Lock.Threads.{
  Pc, loaded, Shared, start, Step, calls, spins, locks, loads, stores, unlocks, Reach, here, later,
}
use vee.Lock.Exclusion.{critical, IsExclusive, Reach-IsExclusive}

-- The reference: one section after the other.
abbrev pub run {ℓ} : {X : Type ℓ} → List (X → X) → X → X
run [] x = x
run (f ∷ fs) x = run fs (f x)

-- What a thread has read is what the object still is, and the object is what the sections made of
-- it.
record IsSerial {ℓ} {X : Type ℓ} (x : X) (fs : List (X → X)) (s : Shared X) : Type ℓ where
  fresh : (i : ℕ) (f : X → X) (y : X) → s.pc i ≡ loaded f y → y ≡ s.object
  whole : s.object ≡ run fs x

module _ {ℓ} {X : Type ℓ} where
  run-append : (fs gs : List (X → X)) (x : X) → run (fs ++ gs) x ≡ run gs (run fs x)
  run-append [] gs x = refl
  run-append (f ∷ fs) gs x = run-append fs gs (f x)

  loaded-critical : (p : Pc X) (f : X → X) (y : X) → p ≡ loaded f y → critical p ≡ true
  loaded-critical p f y e = ap critical e

  Step-IsSerial :
      {x : X} {s t : Shared X} {fs gs : List (X → X)}
      → Step s gs t
      → IsExclusive s
      → IsSerial x fs s
      → IsSerial x (fs ++ gs) t
  Step-IsSerial {x} {s} {t} {fs} st v r = record { fresh = fresh st; whole = whole st }
    where
      fresh :
          {gs : List (X → X)} {t : Shared X}
          → Step s gs t
          → (j : ℕ) (g : X → X) (y : X) → t.pc j ≡ loaded g y
          → y ≡ t.object
      fresh (calls i f e) j g y h = ground (arith, r.fresh j g y, h)
      fresh (spins i e l) j g y h = r.fresh j g y h
      fresh (locks i {f} e l) j g y h = ground (arith, r.fresh j g y, h)
      fresh (loads i {f} e) j g y h = ground (arith, r.fresh j g y, h)
      fresh (stores i {f} {x = z} e) j g y h =
          ground (arith, v.unique i j (ap critical e), loaded-critical (s.pc j) g y, h)
      fresh (unlocks i e) j g y h = ground (arith, r.fresh j g y, h)

      unchanged : s.object ≡ run (fs ++ []) x
      unchanged = r.whole ∙ ap (λ l. run l x) (sym (append-nil fs))

      whole : {gs : List (X → X)} {t : Shared X} → Step s gs t → t.object ≡ run (fs ++ gs) x
      whole (calls i f e) = unchanged
      whole (spins i e l) = unchanged
      whole (locks i e l) = unchanged
      whole (loads i e) = unchanged
      whole (stores i {f} {x = z} e) =
          ap f (r.fresh i f z e ∙ r.whole) ∙ sym (run-append fs (f ∷ []) x)
      whole (unlocks i e) = unchanged

  serial : {x : X} {t : Shared X} {fs : List (X → X)} → Reach (start x) fs t → IsSerial x fs t
  serial here = record { fresh = λ i f y h. absurd (ground (arith, h)); whole = refl }
  serial (later r st) = Step-IsSerial st (Reach-IsExclusive r) (serial r)

  -- Whatever order the threads that share a spin lock run in, each with its sections between `lock`
  -- and `unlock` and none with `try_lock`: the object is what their completed sections make of it
  -- one after the other. None is lost, and none sees another half done.
  pub Reach-serial :
      {x : X} {t : Shared X} {fs : List (X → X)} → Reach (start x) fs t → t.object ≡ run fs x
  Reach-serial r = (serial r).whole

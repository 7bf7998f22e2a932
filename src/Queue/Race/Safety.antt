-- ===== src/Queue/Race/Safety.antt =====
-- Every interleaving keeps the indices of the queue valid, and every guard free.
use mathlib.Core.Path.{subst}
use vee.Base.{
  update, ℕ, zero, suc, ◌<◌, ◌≡◌, refl, ap, ◌∙◌, Bool, false, some, arith, List, [], ◌∷◌, get_or,
  get_elem?-of_lt, set,
}
use vee.Queue.{Ring, store, fetch}
use vee.Queue.Invariant.{IsValid}
use vee.Queue.Race.{
  Pc, outside, storing, fetching, fetched, System, Step, reserves, stores, releases, fetches,
  returns, Reach, here, later,
}
use vee.Queue.Race.Granted.{reserve-Granted, release-Granted, IsValid-stored}

-- No guard is held.
abbrev pub AreFree : List Bool → Type 0
AreFree guards = (k : ℕ) → get_or guards k false ≡ false

pub record IsSafe {ℓ} {A : Type ℓ} (s : System A) : Type ℓ where
  pub valid : IsValid s.ring
  pub storing_in : (i slot : ℕ) (x : A) → s.pc i ≡ storing slot x → slot < s.ring.capacity
  pub fetching_in : (i slot : ℕ) → s.pc i ≡ fetching slot → slot < s.ring.capacity
  pub free : AreFree s.ring.item_guards

free-set : (guards : List Bool) (i : ℕ) → AreFree guards → AreFree (set guards i false)
free-set [] i f k = refl
free-set (g ∷ guards) zero f zero = refl
free-set (g ∷ guards) zero f (suc k) = f (suc k)
free-set (g ∷ guards) (suc i) f zero = f 0
free-set (g ∷ guards) (suc i) f (suc k) = free-set guards i (λ n. f (suc n)) k

-- The slot that a thread is about to use is in range.
abbrev InRange {ℓ} : {A : Type ℓ} → ℕ → Pc A → Type 0
InRange n (storing slot x) = slot < n
InRange n (fetching slot) = slot < n
InRange n outside = Unit
InRange n (fetched x) = Unit

module _ {ℓ} {A : Type ℓ} where
  moved-IsSafe :
      (s : System A) (i : ℕ) (p : Pc A) (q : Ring A)
      → IsSafe s
      → InRange q.capacity p
      → IsValid q
      → q.capacity ≡ s.ring.capacity
      → AreFree q.item_guards
      → IsSafe (record { ring = q; pc = update s.pc i p })
  moved-IsSafe s i p q f in_range v same free = record {
    valid = v;
    storing_in = λ j k y h. ground (arith, f.storing_in j k y);
    fetching_in = λ j k h. ground (arith, f.fetching_in j k);
    free = free;
  }

  -- The ring after an access to a slot in range, which unlocks the guard that was never locked.
  Accessed : (slot : ℕ) (x : A) (q : Ring A) → Ring A
  Accessed slot x q = record q {
    item_guards = set q.item_guards slot false;
    item_container = set q.item_container slot x;
  }

  accessed-IsSafe :
      (s : System A) (i slot : ℕ) (x : A) (p : Pc A) {q : Ring A}
      → IsSafe s
      → InRange s.ring.capacity p
      → Accessed slot x s.ring ≡ q
      → IsSafe (record { ring = q; pc = update s.pc i p })
  unfolding Accessed
  accessed-IsSafe s i slot x p f in_range e =
      subst (λ r. IsSafe (record { ring = r; pc = update s.pc i p })) e
        (moved-IsSafe s i p (Accessed slot x s.ring) f in_range
          (IsValid-stored s.ring slot x f.valid) refl (free-set s.ring.item_guards slot f.free))

module _ {ℓ} {A : Type ℓ} (d : A) (moved : A → A) where
  -- Every step of every thread keeps the system safe.
  pub Step-IsSafe : {s t : System A} → Step moved s t → IsSafe s → IsSafe t
  unfolding Accessed store fetch
  Step-IsSafe {s} (reserves i x {slot} {q} e r) f =
      let g = reserve-Granted d s.ring f.valid r in
      moved-IsSafe s i (storing slot x) q f (omega (arith, g)) g.1 g.2
        (λ k. ap (λ guards. get_or guards k false) g.3 ∙ f.free k)
  Step-IsSafe {s} (stores i {slot} {x} {q} e r) f =
      accessed-IsSafe s i slot x outside f tt (ground (arith, f.valid.items, f.storing_in i slot x))
  Step-IsSafe {s} (releases i {slot} {q} e r) f =
      let g = release-Granted d s.ring f.valid r in
      moved-IsSafe s i (fetching slot) q f (omega (arith, g)) g.1 g.2
        (λ k. ap (λ guards. get_or guards k false) g.3 ∙ f.free k)
  Step-IsSafe {s} (fetches i {slot} {x} {q} e r) f =
      accessed-IsSafe s i slot (moved x) (fetched x) f tt (
        ground (
          arith,
          f.valid.items,
          f.fetching_in i slot,
          get_elem?-of_lt s.ring.item_container slot d,
        ))
  Step-IsSafe {s} (returns i e) f = moved-IsSafe s i outside s.ring f tt f.valid refl f.free

  -- Threads that start from a safe system reach safe systems only, whatever their order: the queue
  -- is valid, each slot that a thread is about to write or read is in range, and no guard of a
  -- slot is held.
  pub Reach-IsSafe : {s t : System A} → IsSafe s → Reach moved s t → IsSafe t
  Reach-IsSafe f here = f
  Reach-IsSafe f (later r st) = Step-IsSafe st (Reach-IsSafe f r)

  -- No access under way is undefined: a thread with a reserved slot can write it, and one with a
  -- released slot can read it.
  pub progress :
      {s : System A} (i : ℕ)
      → IsSafe s
      → ((slot : ℕ) (x : A)
          → s.pc i ≡ storing slot x
          → (q : Ring A) × (store s.ring slot x ≡ some q))
        × ((slot : ℕ)
            → s.pc i ≡ fetching slot
            → (x : A) × (q : Ring A) × (fetch moved s.ring slot ≡ some (x, q)))
  unfolding store fetch
  progress {s} i f = (
    λ slot x e. (
      Accessed slot x s.ring,
      unfold Accessed in ground (arith, f.valid.items, f.storing_in i slot x),
    ),
    λ slot e. (
      get_or s.ring.item_container slot d,
      Accessed slot (moved (get_or s.ring.item_container slot d)) s.ring,
      unfold Accessed in
          ground (
            arith,
            f.valid.items,
            f.fetching_in i slot,
            get_elem?-of_lt s.ring.item_container slot d,
          ),
    ),
  )

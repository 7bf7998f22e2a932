-- ===== src/Lock/Threads.antt =====
-- Threads that change one shared object in sections under a `spin_lock`, the way `vee::ring_queue`
-- does under `_index_guard`.
use vee.Base.{ℕ, ◌≡◌, true, false, List, [], ◌∷◌, ◌++◌, update}
use vee.Lock.{SpinLock, new_spin_lock, lock_round, unlock}

-- Where a thread stands, with what its section makes of the object: outside, in the loop of `lock`,
-- in the section, with the object read, and with it written, in front of `unlock`.
pub data Pc {ℓ} (X : Type ℓ) : Type ℓ where
  outside : Pc X
  spinning entered : (X → X) → Pc X
  loaded : (X → X) → X → Pc X
  leaving : Pc X

pub record Shared {ℓ} (X : Type ℓ) : Type ℓ where
  pub guard : SpinLock
  pub object : X
  pub pc : ℕ → Pc X

abbrev pub start {ℓ} : {X : Type ℓ} → X → Shared X
start x = record { guard = new_spin_lock; object = x; pc = λ i. outside }

-- One step of thread `i`, with the sections that it completes. No thread calls `try_lock`.
pub data Step {ℓ} {X : Type ℓ} (s : Shared X) : List (X → X) → Shared X → Type ℓ where
  calls :
      (i : ℕ) (f : X → X)
      → s.pc i ≡ outside
      → Step s [] (record s { pc = update s.pc i (spinning f) })
  spins :
      (i : ℕ) {f : X → X} {l : SpinLock}
      → s.pc i ≡ spinning f
      → lock_round s.guard ≡ (true, l)
      → Step s [] (record s { guard = l })
  locks :
      (i : ℕ) {f : X → X} {l : SpinLock}
      → s.pc i ≡ spinning f
      → lock_round s.guard ≡ (false, l)
      → Step s [] (record s { guard = l; pc = update s.pc i (entered f) })
  loads :
      (i : ℕ) {f : X → X}
      → s.pc i ≡ entered f
      → Step s [] (record s { pc = update s.pc i (loaded f s.object) })
  stores :
      (i : ℕ) {f : X → X} {x : X}
      → s.pc i ≡ loaded f x
      → Step s (f ∷ []) (record s { object = f x; pc = update s.pc i leaving })
  unlocks :
      (i : ℕ)
      → s.pc i ≡ leaving
      → Step s [] (record s { guard = unlock s.guard; pc = update s.pc i outside })

-- What is reached, with the sections in the order in which they were completed.
pub data Reach {ℓ} {X : Type ℓ} (s : Shared X) : List (X → X) → Shared X → Type ℓ where
  here : Reach s [] s
  later :
      {t u : Shared X} {fs gs : List (X → X)} → Reach s fs t → Step t gs u → Reach s (fs ++ gs) u

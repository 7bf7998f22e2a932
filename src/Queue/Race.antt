-- ===== src/Queue/Race.antt =====
-- Threads that share one ring queue, interleaved between what they do under `_index_guard` and
-- their access to the slot. The guard of the slot is adopted, so it keeps no thread waiting.
pub mod Granted
pub mod Safety
pub mod Stale
use vee.Base.{ℕ, ◌≡◌, Option, some, update}
use vee.Queue.{Ring, reserve, store, release, fetch}

-- Where a thread stands: outside, with a slot reserved and not yet written, with a slot released
-- and not yet read, or back from a dequeue with what it read.
pub data Pc {ℓ} (A : Type ℓ) : Type ℓ where
  outside : Pc A
  storing : ℕ → A → Pc A
  fetching : ℕ → Pc A
  fetched : A → Pc A

pub record System {ℓ} (A : Type ℓ) : Type ℓ where
  pub ring : Ring A
  pub pc : ℕ → Pc A

module _ {ℓ} {A : Type ℓ} (moved : A → A) where
  -- One step of thread `i`.
  pub data Step (s : System A) : System A → Type ℓ where
    reserves :
        (i : ℕ) (x : A) {slot : ℕ} {q : Ring A}
        → s.pc i ≡ outside
        → reserve s.ring ≡ some (some slot, q)
        → Step s (record { ring = q; pc = update s.pc i (storing slot x) })
    stores :
        (i : ℕ) {slot : ℕ} {x : A} {q : Ring A}
        → s.pc i ≡ storing slot x
        → store s.ring slot x ≡ some q
        → Step s (record { ring = q; pc = update s.pc i outside })
    releases :
        (i : ℕ) {slot : ℕ} {q : Ring A}
        → s.pc i ≡ outside
        → release s.ring ≡ some (some slot, q)
        → Step s (record { ring = q; pc = update s.pc i (fetching slot) })
    fetches :
        (i : ℕ) {slot : ℕ} {x : A} {q : Ring A}
        → s.pc i ≡ fetching slot
        → fetch moved s.ring slot ≡ some (x, q)
        → Step s (record { ring = q; pc = update s.pc i (fetched x) })
    returns :
        (i : ℕ) {x : A} → s.pc i ≡ fetched x → Step s (record s { pc = update s.pc i outside })

  pub data Reach (s : System A) : System A → Type ℓ where
    here : Reach s s
    later : {t u : System A} → Reach s t → Step t u → Reach s u

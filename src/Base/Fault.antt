-- ===== src/Base/Fault.antt =====
-- Code with undefined behaviour: `none` is a run that divides by zero or leaves an array.
use mathlib.Core.Option.{Option, none, some}

infixl 5 ◌>>=◌
abbrev pub ◌>>=◌ {ℓ κ} : {A : Type ℓ} {B : Type κ} → Option A → (A → Option B) → Option B
none >>= f = none
some a >>= f = f a

-- ===== src/Base/Defined.antt =====
-- What holds of a result where there is one.
use mathlib.Core.Path.{◌≡◌, refl}
use mathlib.Core.Bool.{Bool, true, false}
use mathlib.Core.Option.{Option, none, some}
use mathlib.Core.Option as Option
use vee.Base.Compare.{if◌then◌else◌}

abbrev pub All {ℓ κ} : {A : Type ℓ} → (A → Type κ) → Option A → Type κ
All P none = Unit
All P (some a) = P a

pub All-if {ℓ κ} :
    {A : Type ℓ} (P : A → Type κ) (b : Bool) (x y : Option A)
    → (b ≡ true → All P x)
    → (b ≡ false → All P y)
    → All P (if b then x else y)
All-if P true x y f g = f refl
All-if P false x y f g = g refl

pub All-map {ℓ ι κ} :
    {A : Type ℓ} {B : Type ι} (P : B → Type κ) (f : A → B) (o : Option A)
    → All (λ a. P (f a)) o
    → All P (Option.map f o)
All-map P f none h = tt
All-map P f (some a) h = h

-- Two facts that hold of a result.
pub All-both {ℓ κ ι} :
    {A : Type ℓ} (P : A → Type κ) (Q : A → Type ι) (o : Option A)
    → All P o
    → All Q o
    → All (λ a. P a × Q a) o
All-both P Q none h g = tt
All-both P Q (some a) h g = (h, g)

pub All-weaken {ℓ κ ι} :
    {A : Type ℓ} (P : A → Type κ) (Q : A → Type ι) (o : Option A)
    → ((a : A) → P a → Q a)
    → All P o
    → All Q o
All-weaken P Q none f h = tt
All-weaken P Q (some a) f h = f a h

-- ===== src/Base/Bits.antt =====
-- Facts about the bit operations on bytes, by checking every value.
use Prim.Native.Nat.{ℕ, zero, suc, ◌<◌, bit_xor}
use mathlib.Core.Path.{◌≡◌, refl}
use mathlib.Core.Bool.{Bool, true}
use native.Mathlib.Omega.{arith}
use vee.Base.Compare.{◌==◌, ==→eq, if◌then◌else◌}
use mathlib.Core.List.{List, [], ◌∷◌}

-- The number of values under a bound at which a test fails.
unfoldable pub failures : (ℕ → Bool) → ℕ → ℕ
failures test zero = 0
failures test (suc bound) =
    let below = failures test bound in if test bound then below else suc below

pub passes : (test : ℕ → Bool) (bound k : ℕ) → k < bound → failures test bound ≡ 0 → test k ≡ true
unfolding failures
passes test zero k k_in e = absurd (omega arith)
passes test (suc bound) k k_in e = ground (arith, passes test bound k)

-- Two functions of a byte agree when their tables do.
pub byte_table : (f g : ℕ → ℕ) → failures (λ x. f x == g x) 256 ≡ 0 → (x : ℕ) → x < 256 → f x ≡ g x
byte_table f g table x h = ==→eq (f x) (g x) (passes (λ y. f y == g y) 256 x h table)

-- A list of bytes.
abbrev pub AreBytes : List ℕ → Type 0
AreBytes [] = Unit
AreBytes (x ∷ xs) = (x < 256) × AreBytes xs

pub bit_xor-zero : (x : ℕ) → x < 256 → bit_xor x 0 ≡ x
unfolding failures
bit_xor-zero = byte_table (λ x. bit_xor x 0) (λ x. x) refl

xor_failures : ℕ → ℕ
xor_failures k = failures (λ x. bit_xor (bit_xor x k) k == x) 256

xor_table : failures (λ k. xor_failures k == 0) 256 ≡ 0
unfolding failures xor_failures
xor_table = refl

-- XOR with one byte twice gives the first byte back.
pub bit_xor_twice : (x k : ℕ) → x < 256 → k < 256 → bit_xor (bit_xor x k) k ≡ x
unfolding xor_failures
bit_xor_twice x k hx hk =
    byte_table (λ y. bit_xor (bit_xor y k) k) (λ y. y)
      (==→eq (xor_failures k) 0 (passes (λ m. xor_failures m == 0) 256 k hk xor_table)) x hx

-- ===== src/Base/Word.antt =====
-- Machine words as bit patterns: a w-bit value is a number below 2 ^ w, and every operation
-- keeps its wrap-around. A signed value is its two's complement pattern.
use Prim.Native.Nat.{ℕ, ◌+◌, ◌-◌, ◌%◌, ◌^◌}
use vee.Base.Compare.{ltb, if◌then◌else◌}

abbrev pub u8 : ℕ → ℕ
u8 n = n % 2 ^ 8

abbrev pub u16 : ℕ → ℕ
u16 n = n % 2 ^ 16

abbrev pub u32 : ℕ → ℕ
u32 n = n % 2 ^ 32

abbrev pub u64 : ℕ → ℕ
u64 n = n % 2 ^ 64

-- `++n` and `--n` on a 32-bit pattern, and a difference of two.
abbrev pub increment : ℕ → ℕ
increment n = u32 (n + 1)

abbrev pub decrement : ℕ → ℕ
decrement n = u32 (n + 2 ^ 32 - 1)

abbrev pub sub32 : ℕ → ℕ → ℕ
sub32 a b = u32 (a + 2 ^ 32 - b)

-- Conversion of an `int8_t` to `int`, and of an `int16_t` to `uint64_t`: the sign is extended.
abbrev pub sign_extend8 : ℕ → ℕ
sign_extend8 b = if ltb b 0x80 then b else b + 2 ^ 32 - 2 ^ 8

abbrev pub sign_extend16 : ℕ → ℕ
sign_extend16 h = if ltb h 0x8000 then h else h + 2 ^ 64 - 2 ^ 16

abbrev pub int_max : ℕ
int_max = 2 ^ 31 - 1

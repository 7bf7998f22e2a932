-- ===== src/Websocket/Rfc.antt =====
-- RFC 6455, section 5.2: the layout of a frame header, described without the code.
use vee.Base.{ℕ, ◌+◌, ◌^◌, ◌<◌, Bool, Option, none, some, List, [], ◌∷◌, ◌++◌, if◌then◌else◌}
use vee.Websocket.Endian.{big16, big64}

-- The three forms of a payload length.
pub data Length : Type 0 where
  short medium long : ℕ → Length

abbrev pub IsLength : Length → Type 0
IsLength (short n) = n < 126
IsLength (medium n) = n < 2 ^ 16
IsLength (long n) = n < 2 ^ 64

-- The length in bytes that a form stands for, its seven bits, and the bytes behind them.
abbrev pub value : Length → ℕ
value (short n) = n
value (medium n) = n
value (long n) = n

abbrev pub seven_bits : Length → ℕ
seven_bits (short n) = n
seven_bits (medium n) = 126
seven_bits (long n) = 127

abbrev pub extended : Length → List ℕ
extended (short n) = []
extended (medium n) = big16 n
extended (long n) = big64 n

-- A masking key, for a masked frame.
abbrev pub Key : Type 0
Key = Option (ℕ × ℕ × ℕ × ℕ)

abbrev pub key_bytes : Key → List ℕ
key_bytes none = []
key_bytes (some (a, b, c, d)) = a ∷ b ∷ c ∷ d ∷ []

abbrev pub mask_flag : Key → ℕ
mask_flag none = 0
mask_flag (some k) = 128

-- The bytes of a header: FIN and opcode, MASK and length, the rest of the length, the key.
abbrev pub encode : Bool → ℕ → Key → Length → List ℕ
encode fin nibble key len =
    ((if fin then 128 else 0) + nibble)
    ∷ (mask_flag key + seven_bits len)
    ∷ (extended len ++ key_bytes key)

-- ===== src/Websocket/Frame/Tables.antt =====
-- The bit operations on the flag bytes, as arithmetic: each fact by checking every byte.
use vee.Base.{
  ℕ, ◌+◌, ◌-◌, ◌/◌, ◌%◌, ◌^◌, ◌≤◌, ◌<◌, ◌≡◌, refl, ◌∙◌, Bool, true, false, bit_and, bit_or, arith,
  ltb, leb, if◌then◌else◌,
}
use vee.Base.Word.{u8, sign_extend8}
use vee.Base.Bits.{byte_table, failures}
use vee.Websocket.Frame.{high_bit, marked_length, length_block, second_block}

pub nibble_table : (b : ℕ) → b < 256 → bit_and (sign_extend8 b) 0x0f ≡ b % 16
unfolding failures
nibble_table = byte_table (λ b. bit_and (sign_extend8 b) 0x0f) (λ b. b % 16) refl

pub seven_bits_table : (b : ℕ) → b < 256 → bit_and (sign_extend8 b) 0x7f ≡ b % 128
unfolding failures
seven_bits_table = byte_table (λ b. bit_and (sign_extend8 b) 0x7f) (λ b. b % 128) refl

flag_table : (b : ℕ) → b < 256 → bit_and (sign_extend8 b) 0x80 / 2 ^ 7 ≡ b / 128
unfolding failures
flag_table = byte_table (λ b. bit_and (sign_extend8 b) 0x80 / 2 ^ 7) (λ b. b / 128) refl

pub high_bit_lem : (b : ℕ) → b < 256 → high_bit b ≡ leb 128 b
unfolding high_bit
high_bit_lem b h = rw (flag_table b h) (ground arith)

-- `& ~0x80` on an `int8_t` leaves the copies of its sign above bit 7.
pub marked_length_table :
    (b : ℕ) → b < 256 → marked_length b ≡ (if ltb b 128 then b else b + 2 ^ 32 - 384)
unfolding failures marked_length
marked_length_table = byte_table marked_length (λ b. if ltb b 128 then b else b + 2 ^ 32 - 384) refl

plain_table : (b : ℕ) → b < 256 → u8 (bit_or (sign_extend8 b) 0x00) ≡ b
unfolding failures
plain_table = byte_table (λ b. u8 (bit_or (sign_extend8 b) 0x00)) (λ b. b) refl

masked_table : (b : ℕ) → b < 256 → u8 (bit_or (sign_extend8 b) 0x80) ≡ b % 128 + 128
unfolding failures
masked_table = byte_table (λ b. u8 (bit_or (sign_extend8 b) 0x80)) (λ b. b % 128 + 128) refl

pub length_block_le : (len : ℕ) → length_block len ≤ 0x7f
unfolding length_block
length_block_le len = ground arith

pub second_block_lem :
    (mask : Bool) (len : ℕ)
    → second_block mask len ≡ (if mask then length_block len + 128 else length_block len)
unfolding second_block
second_block_lem true len =
    let small : length_block len % 128 + 128 ≡ length_block len + 128 =
      omega (arith, length_block_le len) in
    masked_table (length_block len) (omega (arith, length_block_le len)) ∙ small
second_block_lem false len = plain_table (length_block len) (omega (arith, length_block_le len))

-- The mark of an unmasked block is the block, and that of a masked one is no mark at all.
pub unmasked_mark : (len : ℕ) → marked_length (second_block false len) ≡ length_block len
unmasked_mark len =
    rw (second_block_lem false len)
      (ground (arith, marked_length_table (length_block len), length_block_le len))

pub masked_mark : (len : ℕ) → 0x7f < marked_length (second_block true len)
masked_mark len =
    rw (second_block_lem true len)
      (ground (arith, marked_length_table (length_block len + 128), length_block_le len))

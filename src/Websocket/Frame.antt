-- ===== src/Websocket/Frame.antt =====
-- `data_frame_header`: `analyze`, `binary_pack` and `binary_pack_size`. `none` is undefined
-- behaviour, a read or a write outside the buffer. An `int8_t` is a byte, and takes part in an
-- expression after its conversion to `int`.
mod Tables
pub mod Pack
pub mod Analyze
pub mod RoundTrip
use vee.Base.{
  ℕ, zero, suc, ◌+◌, ◌-◌, ◌*◌, ◌/◌, ◌%◌, ◌^◌, Bool, true, false, Option, none, some, List, [], ◌∷◌,
  ◌++◌, bit_and, bit_or, ◌==◌, ltb, leb, not, if◌then◌else◌, ◌>>=◌, get_elem?, length, write_at,
}
use vee.Base.Word.{u8, u16, u32, sign_extend8, sign_extend16}
use vee.Websocket.Endian.{Endian, load16, load64, store16, store64}

-- `enum class opcode_id`
pub data Opcode : Type 0 where
  undefined continuation_frame text_frame binary_frame connnection_close ping pong : Opcode
  reserved_for_further : Opcode

pub record Header : Type 0 where
  pub fin : Bool
  pub use_mask : Bool
  pub payload_len : ℕ
  pub payload_pos : ℕ
  pub fin_opcode : ℕ
  pub mask_payload_len : ℕ
  pub extended_payload_len16 : ℕ
  pub extended_payload_len64 : ℕ
  pub opcode : Opcode
  pub masking_key : List ℕ

-- A header with the initial values of its class, in memory that was zeroed before: `std::pair`
-- initialises it by value.
abbrev pub fresh : Header
fresh = record {
  fin = true;
  use_mask = false;
  payload_len = 0;
  payload_pos = 0;
  fin_opcode = 0;
  mask_payload_len = 0;
  extended_payload_len16 = 0;
  extended_payload_len64 = 0;
  opcode = undefined;
  masking_key = 0 ∷ 0 ∷ 0 ∷ 0 ∷ [];
}

-- `((flags & 0x80) >> 7) ? true : false` of an `int8_t`
pub high_bit : ℕ → Bool
high_bit flags = not (bit_and (sign_extend8 flags) 0x80 / 2 ^ 7 == 0)

-- The first switch of `analyze`.
unfoldable pub opcode_of : ℕ → Opcode
opcode_of nibble =
    if nibble == 0x0
    then continuation_frame
    else if nibble == 0x1
    then text_frame
    else if nibble == 0x2
    then binary_frame
    else if nibble == 0x8
    then connnection_close
    else if nibble == 0x9
    then ping
    else if nibble == 0xa
    then pong
    else reserved_for_further

-- The masking key, if the frame has one.
pub analyze_key : Header → List ℕ → ℕ → Option (Header × ℕ)
analyze_key h raw shift =
    if h.use_mask
    then (do
      a ← get_elem? raw shift
      b ← get_elem? raw (shift + 1)
      c ← get_elem? raw (shift + 2)
      d ← get_elem? raw (shift + 3)
      some (record h { masking_key = a ∷ b ∷ c ∷ d ∷ [] }, shift + 4))
    else some (h, shift)

module _ (boost : Endian) where
  open boost use {native_to_big16, native_to_big64, big_to_native16, big_to_native64}

  -- The extended length behind the second byte: the header with `payload_len` set, and `shift`.
  pub analyze_length : Header → List ℕ → ℕ → Option (Header × ℕ)
  analyze_length h raw shift =
      if h.payload_len == 0x7e
      then (do
        a ← get_elem? raw shift
        b ← get_elem? raw (shift + 1)
        let word = load16 a b
        some (
          record h {
            payload_len = sign_extend16 (big_to_native16 word);
            extended_payload_len16 = word;
          },
          shift + 2,
        ))
      else if h.payload_len == 0x7f
      then (do
        a ← get_elem? raw shift
        b ← get_elem? raw (shift + 1)
        c ← get_elem? raw (shift + 2)
        d ← get_elem? raw (shift + 3)
        e ← get_elem? raw (shift + 4)
        f ← get_elem? raw (shift + 5)
        g ← get_elem? raw (shift + 6)
        k ← get_elem? raw (shift + 7)
        let word = load64 a b c d e f g k
        some (
          record h { payload_len = big_to_native64 word; extended_payload_len64 = word },
          shift + 8,
        ))
      else some (h, shift)

  -- The null pointer is `none`. The length of the data is a parameter that no line reads.
  pub analyze : Header → Option (List ℕ) → ℕ → Option Header
  analyze h none length = some h
  analyze h (some raw) length = do
    first ← get_elem? raw 0
    second ← get_elem? raw 1
    let flags = record h {
      fin = high_bit first;
      fin_opcode = first;
      opcode = opcode_of (bit_and (sign_extend8 first) 0x0f);
      use_mask = high_bit second;
      mask_payload_len = second;
      payload_len = bit_and (sign_extend8 second) 0x7f;
    }
    (sized, shift) ← analyze_length flags raw 2
    (keyed, shift') ← analyze_key sized raw shift
    some (record keyed { payload_pos = shift' })

-- The switch of `binary_pack`.
pub opcode_block : Opcode → ℕ
opcode_block continuation_frame = 0x0
opcode_block text_frame = 0x1
opcode_block binary_frame = 0x2
opcode_block connnection_close = 0x8
opcode_block ping = 0x9
opcode_block pong = 0xa
opcode_block reserved_for_further = 0x2
opcode_block undefined = 0x2

-- `fin_opcode_block` after `|=` with the FIN flag
pub first_block : Bool → Opcode → ℕ
unfolding opcode_block
first_block fin op = u8 (bit_or (sign_extend8 (opcode_block op)) (if fin then 0x80 else 0x00))

-- `mask_payload_len_block`: the short length or the mark of a longer one, `|=` with the mask flag
pub length_block : ℕ → ℕ
length_block len = if leb 0x7e len then (if leb len 0x7fff then 0x7e else 0x7f) else u8 len

pub second_block : Bool → ℕ → ℕ
unfolding length_block
second_block mask len = u8 (bit_or (sign_extend8 (length_block len)) (if mask then 0x80 else 0x00))

-- `mask_payload_len_block & (~0x80)`, an `int`
pub marked_length : ℕ → ℕ
marked_length block = bit_and (sign_extend8 block) 0xffff_ff7f

-- The returned size of the header, without its bytes.
pub binary_pack_size : Header → ℕ
binary_pack_size h =
    let mark = marked_length (second_block h.use_mask h.payload_len) in
    let extended = if mark == 0x7e then 2 else if mark == 0x7f then 8 else 0 in
    let key = if h.use_mask then 4 else 0 in 2 + extended + key

-- `if (use_mask)` at the end of `binary_pack`
pub append_key : Bool → List ℕ → List ℕ → ℕ → Option (ℕ × List ℕ)
append_key use_mask masking_key out_buffer shift =
    if use_mask
    then (do with_key ← write_at out_buffer shift masking_key; some (shift + 4, with_key))
    else some (shift, out_buffer)

module _ (boost : Endian) where
  open boost use {native_to_big16, native_to_big64}

  -- The bytes of the extended length. `(int16_t)payload_len` keeps the low 16 bits.
  pub extended_length : ℕ → ℕ → List ℕ
  extended_length mark len =
      if mark == 0x7e
      then store16 (native_to_big16 (u16 len))
      else if mark == 0x7f
      then store64 (native_to_big64 len)
      else []

  -- The size of the header and the buffer with it in front.
  pub binary_pack : Header → Opcode → List ℕ → Option (ℕ × List ℕ)
  binary_pack h op out_buffer = do
    let second = second_block h.use_mask h.payload_len
    let extended = extended_length (marked_length second) h.payload_len
    with_first ← write_at out_buffer 0 (first_block h.fin op ∷ [])
    with_second ← write_at with_first 1 (second ∷ [])
    with_length ← write_at with_second 2 extended
    let shift = 2 + length extended
    append_key h.use_mask h.masking_key with_length shift

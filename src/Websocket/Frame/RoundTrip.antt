-- ===== src/Websocket/Frame/RoundTrip.antt =====
-- A packed header is the header of RFC 6455, and `analyze` reads it back; where it is not.
use native.Mathlib.Decide.{dec_lt}
use native.Mathlib.Nat.{mod-eq_of_lt, zero-add}
use vee.Base.{
  ℕ, ◌+◌, ◌^◌, ◌≤◌, ◌<◌, ◌≡◌, refl, sym, ap, ap₂, ◌∙◌, Bool, true, false, none, some, List, [], ◌∷◌,
  ◌++◌, length, drop, arith, leb, if◌then◌else◌,
}
use vee.Websocket.Endian.{Endian}
use vee.Websocket.Rfc.{Length, short, medium, long, IsLength, seven_bits, extended, encode}
use vee.Websocket.Frame.{
  Opcode, undefined, reserved_for_further, Header, opcode_of, opcode_block, first_block,
  length_block, extended_length, analyze, binary_pack, binary_pack_size,
}
use vee.Websocket.Frame.Tables.{unmasked_mark, masked_mark, second_block_lem}
use vee.Websocket.Frame.Pack.{header_bytes, length-header_bytes, binary_pack_lem}
use vee.Websocket.Frame.Analyze.{analyzed, decoded, analyze_lem}

-- The form of a length that `binary_pack` chooses: a medium one up to INT16_MAX.
abbrev pub form : ℕ → Length
form len = if leb 126 len then (if leb len 0x7fff then medium len else long len) else short len

-- The opcodes that stand for a frame on the wire.
abbrev pub IsFrame : Opcode → Type 0
IsFrame undefined = ⊥
IsFrame reserved_for_further = ⊥
IsFrame op = Unit

pub opcode-block : (op : Opcode) → IsFrame op → opcode_of (opcode_block op) ≡ op
unfolding opcode_of opcode_block
opcode-block undefined h = absurd h
opcode-block reserved_for_further h = absurd h
opcode-block op h = refl

pub block_fits : (op : Opcode) → opcode_block op < 16
unfolding opcode_block
block_fits undefined = omega arith
block_fits op = omega arith

first_block_lem :
    (fin : Bool) (op : Opcode) → first_block fin op ≡ (if fin then 128 else 0) + opcode_block op
unfolding first_block opcode_block
first_block_lem true undefined = refl
first_block_lem true op = refl
first_block_lem false undefined = refl
first_block_lem false op = refl

-- The three forms with what the code computes for them.
pub data Chosen (len : ℕ) : Type 0 where
  as_short : len < 126 → form len ≡ short len → length_block len ≡ len → Chosen len
  as_medium : 126 ≤ len → len ≤ 0x7fff → form len ≡ medium len → length_block len ≡ 126 → Chosen len
  as_long : 0x7fff < len → form len ≡ long len → length_block len ≡ 127 → Chosen len

pub chosen : (len : ℕ) → Chosen len
unfolding length_block
chosen len = elim (dec_lt len 126) [
  | yes low ↦ as_short low (ground arith) (ground arith)
  | no high ↦ elim (dec_lt 0x7fff len) [
    | yes top ↦ as_long top (ground arith) (ground arith)
    | no mid ↦ as_medium (omega arith) (omega arith) (ground arith) (ground arith)
  ]
]

IsLength-form : (len : ℕ) → len < 2 ^ 64 → IsLength (form len)
IsLength-form len h = elim (chosen len) [
  | as_short low e b ↦ rw e low
  | as_medium low high e b ↦ rw e (omega arith)
  | as_long low e b ↦ rw e h
]

decoded-form : (len : ℕ) → decoded (form len) ≡ len
decoded-form len = elim (chosen len) [
  | as_short low e b ↦ rw e
  | as_medium low high e b ↦ rw e (ground arith)
  | as_long low e b ↦ rw e
]

seven_bits-form : (len : ℕ) → length_block len ≡ seven_bits (form len)
seven_bits-form len = elim (chosen len) [
  | as_short low e b ↦ rw e b
  | as_medium low high e b ↦ rw e b
  | as_long low e b ↦ rw e b
]

module _ (boost : Endian) where
  extended_length-form :
      (len : ℕ) → len < 2 ^ 64 → extended_length boost (length_block len) len ≡ extended (form len)
  unfolding extended_length
  extended_length-form len h = elim (chosen len) [
    | as_short low e b ↦ rw (e, b) (ground arith)
    | as_medium low high e b ↦
        rw (e, b)
          (rw (mod-eq_of_lt {n = len} {m = 2 ^ 16} (omega arith))
            (boost.stored16 len (omega arith)))
    | as_long low e b ↦ rw (e, b) (boost.stored64 len h)
  ]

  -- The bytes of an unmasked header are those of RFC 6455.
  pub header_bytes-plain :
      (h : Header) (op : Opcode)
      → h.use_mask ≡ false
      → h.payload_len < 2 ^ 64
      → header_bytes boost h op ≡ encode h.fin (opcode_block op) none (form h.payload_len)
  unfolding header_bytes
  header_bytes-plain h op plain fits = rw plain (
      ap₂ ◌∷◌ (first_block_lem h.fin op) (
        ap₂ ◌∷◌
          (second_block_lem false h.payload_len ∙ seven_bits-form h.payload_len ∙ sym (zero-add _))
          (rw unmasked_mark (ap (λ bytes. bytes ++ []) (extended_length-form h.payload_len fits)))))

  -- For every unmasked header with one of the six opcodes of a frame, any FIN flag and any length
  -- of 64 bits, packed into a buffer with room for it: `analyze` on the buffer gives back FIN, the
  -- opcode, the length and no mask, and the payload starts where `binary_pack` said it ends.
  pub analyze-binary_pack :
      (h g : Header) (op : Opcode) (buffer : List ℕ) (n : ℕ)
      → h.use_mask ≡ false
      → h.payload_len < 2 ^ 64
      → length h.masking_key ≡ 4
      → IsFrame op
      → binary_pack_size h ≤ length buffer
      → (out : List ℕ) × (a : Header) × (binary_pack boost h op buffer
          ≡ some (binary_pack_size h, out))
        × (analyze boost g (some out) n ≡ some a)
        × (a.fin ≡ h.fin)
        × (a.opcode ≡ op)
        × (a.payload_len ≡ h.payload_len)
        × (a.use_mask ≡ false)
        × (a.payload_pos ≡ binary_pack_size h)
  analyze-binary_pack h g op buffer n plain fits four real room =
      let len = form h.payload_len in
      let nibble = opcode_block op in
      let bytes = header_bytes-plain h op plain fits in
      (
        header_bytes boost h op ++ drop (binary_pack_size h) buffer,
        analyzed g h.fin nibble none len,
        binary_pack_lem boost h op buffer four room,
        rw bytes (
            analyze_lem boost g h.fin nibble none len (drop (binary_pack_size h) buffer) n
              (block_fits op) (IsLength-form h.payload_len fits)),
        refl,
        opcode-block op real,
        decoded-form h.payload_len,
        refl,
        ap length (sym bytes) ∙ length-header_bytes boost h op four,
      )

  -- A masked header is packed without its extended length: with a payload of 126 bytes or more the
  -- bytes are 6, and RFC 6455 asks for 8 or 14.
  pub masked_length_lost :
      (h : Header) (op : Opcode) (a b c d : ℕ)
      → h.use_mask ≡ true
      → h.masking_key ≡ a ∷ b ∷ c ∷ d ∷ []
      → 126 ≤ h.payload_len
      → (binary_pack_size h ≡ 6)
        × (length (header_bytes boost h op) ≡ 6)
        × (8 ≤ length (encode h.fin (opcode_block op) (some (a, b, c, d)) (form h.payload_len)))
  masked_length_lost h op a b c d masked keyed big = (
    six,
    length-header_bytes boost h op (ap length keyed) ∙ six,
    elim (chosen h.payload_len) [
      | as_short low e n ↦ absurd (omega arith)
      | as_medium low high e n ↦ rw e (omega arith)
      | as_long low e n ↦ rw e (omega arith)
    ],
  )
    where
      six : binary_pack_size h ≡ 6
      six = unfold binary_pack_size in rw masked (ground (arith, masked_mark h.payload_len))

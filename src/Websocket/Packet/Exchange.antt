-- ===== src/Websocket/Packet/Exchange.antt =====
-- From one side of a connection to the other, and the frames that the receiver cannot take.
use vee.Base.{
  ℕ, ◌+◌, ◌^◌, ◌≤◌, ◌<◌, ◌≡◌, refl, sym, ap₂, ◌∙◌, Bool, true, none, some, arith, List, ◌++◌,
  append_assoc, length, length-append,
}
use vee.Base.Word.{sub32}
use vee.Base.Bits.{AreBytes}
use vee.System.{returns, undefined}
use vee.Websocket.Endian.{Endian}
use vee.Websocket.Rfc.{Length, short, medium, long, IsLength, value, Key, encode}
use vee.Websocket.Frame.{
  Opcode, Header, fresh, opcode_of, opcode_block, continuation_frame, text_frame, binary_frame,
}
use vee.Websocket.Frame.Analyze.{analyzed, decoded, analyze_lem}
use vee.Websocket.Frame.RoundTrip.{
  form, chosen, as_short, as_medium, as_long, opcode-block, block_fits,
}
use vee.Websocket.Packet.{IoResult, convert, refusal, accept, preprocess}
use vee.Websocket.Packet.Unmask.{masked-zero, unmask_overrun}
use vee.Websocket.Packet.RoundTrip.{
  IsData, IsRead, convert_lem, preprocess_lem, preprocess-analyzed, data_refusal, length-key_or,
}

pub IsRead-form : (n : ℕ) → n < 2 ^ 32 → IsRead (form n)
IsRead-form n h = elim (chosen n) [
  | as_short low e b ↦ rw e low
  | as_medium low high e b ↦ rw e (omega arith)
  | as_long low e b ↦ rw e h
]

pub value-form : (n : ℕ) → value (form n) ≡ n
value-form n = elim (chosen n) [
  | as_short low e b ↦ rw e
  | as_medium low high e b ↦ rw e
  | as_long low e b ↦ rw e
]

-- A frame of the program with data.
abbrev pub CarriesData : Opcode → Type 0
CarriesData continuation_frame = Unit
CarriesData text_frame = Unit
CarriesData binary_frame = Unit
CarriesData op = ⊥

pub IsData-block : (op : Opcode) → CarriesData op → IsData (opcode_of (opcode_block op))
IsData-block continuation_frame h = rw (opcode-block continuation_frame tt) tt
IsData-block text_frame h = rw (opcode-block text_frame tt) tt
IsData-block binary_frame h = rw (opcode-block binary_frame tt) tt
IsData-block _ h = absurd h

pub front_le : (op : Opcode) (n : ℕ) → length (encode true (opcode_block op) none (form n)) ≤ 10
front_le op n = elim (chosen n) [
  | as_short low e b ↦ rw e (omega arith)
  | as_medium low high e b ↦ rw e (omega arith)
  | as_long low e b ↦ rw e (omega arith)
]

accept_overrun :
    (h : Header) (buffer : List ℕ) (received : ℕ)
    → refusal h.opcode ≡ none
    → length h.masking_key ≡ 4
    → length buffer < 2 ^ 32
    → h.payload_pos ≤ length buffer
    → length buffer < h.payload_pos + h.payload_len
    → accept h buffer received ≡ undefined
unfolding accept
accept_overrun h buffer received data_op four small start over = rw (
  data_op,
  unmask_overrun h.masking_key h.payload_pos h.payload_len 0 buffer four small (omega arith)
      (omega arith),
  accept,
)

decoded-ge : (len : Length) → value len ≤ decoded len
decoded-ge (short n) = omega arith
decoded-ge (medium n) = ground arith
decoded-ge (long n) = omega arith

module _ (boost : Endian) where
  -- What one side packs, the other gets: for every payload of bytes whose packet fits 32 bits and
  -- every opcode with data, `_convert_to_websocket_form` gives a packet on which, received whole
  -- with anything behind it in the buffer, `_preprocess_received_data` returns the same sizes, and
  -- the payload stands behind the header.
  pub preprocess-convert :
      (op : Opcode) (payload rest : List ℕ)
      → CarriesData op
      → AreBytes payload
      → length payload + 14 < 2 ^ 32
      → (sizes : IoResult) × (header : Header) × (front : List ℕ) × (convert boost op payload
            (length payload)
          ≡ some (sizes, front ++ payload))
        × (length front ≡ sizes.header_size)
        × (length payload ≡ sizes.payload_size)
        × (preprocess boost ((front ++ payload) ++ rest) (length (front ++ payload))
            ≡ returns (sizes, header, (front ++ payload) ++ rest))
  preprocess-convert op payload rest data_op bytes fits = (
    record { header_size = length front; payload_size = length payload },
    analyzed fresh true nibble none (form len),
    front,
    convert_lem boost op payload fits,
    refl,
    refl,
    rw (append_assoc front payload rest) (
        preprocess_lem boost true nibble none (form len) payload rest (length (front ++ payload))
          (block_fits op) (IsData-block op data_op) (IsRead-form len (omega arith))
          (sym (value-form len)) (omega (arith, front_le op len, value-form len))
        ∙ ap₂
            (λ n behind.
              returns (n, analyzed fresh true nibble none (form len), front ++ (behind ++ rest)))
            (ap₂ (λ n k. record { header_size = n; payload_size = k }) received (value-form len))
            (masked-zero 0 payload bytes)),
  )
    where
      len : ℕ
      len = length payload

      nibble : ℕ
      nibble = opcode_block op

      front : List ℕ
      front = encode true nibble none (form len)

      received : sub32 (length (front ++ payload)) (value (form len)) ≡ length front
      received = omega (arith, front_le op len, value-form len, length-append front payload)

  -- A frame with data whose header announces more bytes than the whole buffer has behind it, those
  -- that were not received included: the loop leaves the buffer, whatever the number of bytes that
  -- is given as received.
  pub preprocess_overrun :
      (fin : Bool) (nibble : ℕ) (key : Key) (len : Length) (payload : List ℕ) (received : ℕ)
      → nibble < 16
      → IsData (opcode_of nibble)
      → IsLength len
      → length payload < value len
      → length (encode fin nibble key len ++ payload) < 2 ^ 32
      → preprocess boost (encode fin nibble key len ++ payload) received ≡ undefined
  preprocess_overrun fin nibble key len payload received hn data_op hl short_by fits =
      preprocess-analyzed boost _ _ received
        (analyze_lem boost fresh fin nibble key len payload received hn hl)
      ∙ accept_overrun (analyzed fresh fin nibble key len) (encode fin nibble key len ++ payload)
          received (data_refusal (opcode_of nibble) data_op) (length-key_or key) fits
          (omega (arith, length-append (encode fin nibble key len) payload))
          (omega (arith, length-append (encode fin nibble key len) payload, decoded-ge len))

  -- A 16-bit length from 0x8000 on is read with its sign extended, so a complete frame of that
  -- size is never taken: in every buffer of less than 2 ^ 32 bytes the loop leaves the buffer.
  pub medium_overrun :
      (fin : Bool) (nibble : ℕ) (key : Key) (n : ℕ) (behind : List ℕ) (received : ℕ)
      → nibble < 16
      → IsData (opcode_of nibble)
      → 0x8000 ≤ n
      → n < 2 ^ 16
      → length (encode fin nibble key (medium n) ++ behind) < 2 ^ 32
      → preprocess boost (encode fin nibble key (medium n) ++ behind) received ≡ undefined
  medium_overrun fin nibble key n behind received hn data_op big hl fits =
      preprocess-analyzed boost _ _ received
        (analyze_lem boost fresh fin nibble key (medium n) behind received hn hl)
      ∙ accept_overrun (analyzed fresh fin nibble key (medium n))
          (encode fin nibble key (medium n) ++ behind) received
          (data_refusal (opcode_of nibble) data_op) (length-key_or key) fits
          (omega (arith, length-append (encode fin nibble key (medium n)) behind)) (ground arith)

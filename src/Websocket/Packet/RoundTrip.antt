-- ===== src/Websocket/Packet/RoundTrip.antt =====
-- A packet holds its payload, and `_preprocess_received_data` gets it out.
use native.Mathlib.Nat.{mod-eq_of_lt}
use vee.Base.{
  ℕ, ◌+◌, ◌^◌, ◌<◌, ◌≡◌, refl, sym, ap, ap₂, ◌∙◌, Bool, true, false, none, some, arith, List, [],
  ◌∷◌, ◌++◌, append-nil, take_all, drop_all, leb_refl, length, length-replicate, length-drop, drop,
  replicate, write_at, write_at-append,
}
use vee.Base.Word.{u32, sub32}
use vee.System.{
  rfc6455_websocket_heartbeat, stream_disconnected_by_host, ErrorCode, throws, returns,
}
use vee.Websocket.Endian.{Endian}
use vee.Websocket.Rfc.{Length, short, medium, long, IsLength, value, Key, encode}
use vee.Websocket.Frame.{
  Opcode, connnection_close, ping, pong, Header, fresh, opcode_of, opcode_block, analyze,
  binary_pack_size,
}
use vee.Websocket.Frame.Pack.{
  header_bytes, length-header_bytes, binary_pack_lem, binary_pack_size_le,
}
use vee.Websocket.Frame.Analyze.{analyzed, decoded, key_or, analyze_lem}
use vee.Websocket.Frame.RoundTrip.{form, header_bytes-plain}
use vee.Websocket.Packet.{unmask, outgoing, convert, refusal, accept, preprocess}
use vee.Websocket.Packet.Unmask.{masked, unmask_lem}

-- An opcode with data, for which `preprocess` does not throw.
abbrev pub IsData : Opcode → Type 0
IsData ping = ⊥
IsData pong = ⊥
IsData connnection_close = ⊥
IsData op = Unit

-- A length that the code reads as RFC 6455 means it, and that fits the 32 bits of a size.
abbrev pub IsRead : Length → Type 0
IsRead (short n) = n < 126
IsRead (medium n) = n < 2 ^ 15
IsRead (long n) = n < 2 ^ 32

IsRead-IsLength : (len : Length) → IsRead len → IsLength len
IsRead-IsLength (short n) h = h
IsRead-IsLength (medium n) h = omega arith
IsRead-IsLength (long n) h = omega arith

decoded-IsRead : (len : Length) → IsRead len → decoded len ≡ value len
decoded-IsRead (short n) h = refl
decoded-IsRead (medium n) h = ground arith
decoded-IsRead (long n) h = refl

abbrev pub zeros : List ℕ
zeros = 0 ∷ 0 ∷ 0 ∷ 0 ∷ []

pub length-key_or : (key : Key) → length (key_or key zeros) ≡ 4
length-key_or none = refl
length-key_or (some k) = refl

pub data_refusal : (op : Opcode) → IsData op → refusal op ≡ none
unfolding refusal
data_refusal ping h = absurd h
data_refusal pong h = absurd h
data_refusal connnection_close h = absurd h
data_refusal op h = refl

pub refusal_close : refusal connnection_close ≡ some stream_disconnected_by_host
unfolding refusal
refusal_close = refl

pub refusal_ping : refusal (opcode_of 9) ≡ some rfc6455_websocket_heartbeat
unfolding refusal opcode_of
refusal_ping = refl

pub preprocess-analyzed :
    (boost : Endian) (buffer : List ℕ) (h : Header) (n : ℕ)
    → analyze boost fresh (some buffer) n ≡ some h
    → preprocess boost buffer n ≡ accept h buffer n
unfolding preprocess
preprocess-analyzed boost buffer h n e = rw (e, preprocess)

-- A frame whose opcode is refused, whatever stands behind its header.
pub preprocess-refused :
    (boost : Endian) (fin : Bool) (nibble : ℕ) (key : Key) (len : Length) (rest : List ℕ)
    (received : ℕ) (e : ErrorCode)
    → nibble < 16
    → IsLength len
    → refusal (opcode_of nibble) ≡ some e
    → preprocess boost (encode fin nibble key len ++ rest) received ≡ throws e
unfolding accept
preprocess-refused boost fin nibble key len rest received e hn hl refused =
    preprocess-analyzed boost _ _ received
      (analyze_lem boost fresh fin nibble key len rest received hn hl)
    ∙ rw (refused, accept) refl

accept_lem :
    (h : Header) (front payload rest : List ℕ) (received : ℕ)
    → refusal h.opcode ≡ none
    → length h.masking_key ≡ 4
    → length front ≡ h.payload_pos
    → h.payload_len ≡ length payload
    → length front + length payload < 2 ^ 32
    → accept h (front ++ (payload ++ rest)) received
      ≡ returns (
        record { header_size = sub32 received (length payload); payload_size = length payload },
        h,
        front ++ (masked h.masking_key 0 payload ++ rest),
      )
unfolding accept
accept_lem h front payload rest received data_op four at size fits =
    rw (data_op, loop, accept)
      (ap
        (λ n. returns (
          record { header_size = sub32 received n; payload_size = n },
          h,
          front ++ (masked h.masking_key 0 payload ++ rest),
        ))
        {x = u32 h.payload_len} (omega arith))
  where
    loop :
        unmask h.masking_key h.payload_pos h.payload_len 0 (front ++ (payload ++ rest))
        ≡ some (front ++ (masked h.masking_key 0 payload ++ rest))
    loop =
        ap (λ n. unmask h.masking_key h.payload_pos n 0 (front ++ (payload ++ rest))) size
        ∙ unmask_lem h.masking_key h.payload_pos 0 front payload rest four (omega arith)
            (omega arith)

-- The bytes of a packet: an unmasked final header of RFC 6455, and the payload.
abbrev pub packet : Opcode → List ℕ → List ℕ
packet op payload = encode true (opcode_block op) none (form (length payload)) ++ payload

module _ (boost : Endian) where
  -- `_preprocess_received_data` on a frame of RFC 6455 with data, masked or not, whose length is
  -- read right, and whose bytes and what follows them fit the buffer: it returns, the payload is
  -- unmasked in place, the rest of the buffer is kept, and the sizes are those of the payload and
  -- of all the other bytes that were received.
  pub preprocess_lem :
      (fin : Bool) (nibble : ℕ) (key : Key) (len : Length) (payload rest : List ℕ) (received : ℕ)
      → nibble < 16
      → IsData (opcode_of nibble)
      → IsRead len
      → length payload ≡ value len
      → length (encode fin nibble key len) + value len < 2 ^ 32
      → preprocess boost (encode fin nibble key len ++ (payload ++ rest)) received
        ≡ returns (
          record { header_size = sub32 received (value len); payload_size = value len },
          analyzed fresh fin nibble key len,
          encode fin nibble key len ++ (masked (key_or key zeros) 0 payload ++ rest),
        )
  preprocess_lem fin nibble key len payload rest received hn data_op read size fits =
      preprocess-analyzed boost _ _ received (
        analyze_lem boost fresh fin nibble key len (payload ++ rest) received hn
          (IsRead-IsLength len read))
      ∙ accept_lem (analyzed fresh fin nibble key len) (encode fin nibble key len) payload rest
          received (data_refusal (opcode_of nibble) data_op) (length-key_or key) refl
          (decoded-IsRead len read ∙ sym size) (omega (arith, size))
      ∙ ap
          (λ n. returns (
            record { header_size = sub32 received n; payload_size = n },
            analyzed fresh fin nibble key len,
            encode fin nibble key len ++ (masked (key_or key zeros) 0 payload ++ rest),
          ))
          size

  -- `_convert_to_websocket_form` of a payload whose packet fits 32 bits returns its packet, and
  -- the sizes of the two parts.
  pub convert_lem :
      (op : Opcode) (payload : List ℕ)
      → length payload + 14 < 2 ^ 32
      → convert boost op payload (length payload)
        ≡ some (
          record {
            header_size = length (encode true (opcode_block op) none (form (length payload)));
            payload_size = length payload;
          },
          packet op payload,
        )
  unfolding convert outgoing
  convert_lem op payload fits =
      rw
        (
          binary_pack_lem boost header op room refl (omega (arith, room_size)),
          leb_refl (length payload),
          take_all (length payload) payload (omega arith),
          written,
        )
        (ap₂ (λ n sized. some (record { header_size = n; payload_size = sized }, bytes ++ payload))
            (sym size) (mod-eq_of_lt {n = len} {m = 2 ^ 32} (omega arith))
          ∙ ap
              (λ front.
                some (record { header_size = length front; payload_size = len }, front ++ payload))
              plain)
    where
      len : ℕ
      len = length payload

      header : Header
      header = record fresh { fin = true; use_mask = false; payload_len = len }

      room : List ℕ
      room = replicate (u32 (len + binary_pack_size header)) 0

      room_size : length room ≡ len + binary_pack_size header
      room_size =
          length-replicate (u32 (len + binary_pack_size header)) 0
          ∙ mod-eq_of_lt (omega (arith, binary_pack_size_le header))

      bytes : List ℕ
      bytes = header_bytes boost header op

      plain : bytes ≡ encode true (opcode_block op) none (form len)
      plain = header_bytes-plain boost header op refl (omega arith)

      size : length bytes ≡ binary_pack_size header
      size = length-header_bytes boost header op refl

      tail : List ℕ
      tail = drop (binary_pack_size header) room

      tail_size : length tail ≡ len
      tail_size = omega (arith, length-drop (binary_pack_size header) room, room_size)

      written : write_at (bytes ++ tail) (binary_pack_size header) payload ≡ some (bytes ++ payload)
      written =
          ap (λ n. write_at (bytes ++ tail) n payload) (sym size)
          ∙ write_at-append bytes payload tail (omega (arith, tail_size))
          ∙ ap (λ rest. some (bytes ++ (payload ++ rest)))
              (drop_all len tail (omega (arith, tail_size)))
          ∙ ap (λ whole. some (bytes ++ whole)) (append-nil payload)

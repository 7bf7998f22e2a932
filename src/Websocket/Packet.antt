-- ===== src/Websocket/Packet.antt =====
-- `_convert_to_websocket_form` and `_preprocess_received_data`: a payload to a packet, and the
-- bytes of a packet back to its payload, in place.
pub mod Unmask
pub mod RoundTrip
pub mod Exchange
use vee.Base.{
  ℕ, zero, suc, ◌+◌, ◌-◌, ◌%◌, ◌^◌, Bool, true, false, Option, none, some, List, [], ◌∷◌, bit_xor,
  leb, if◌then◌else◌, ◌>>=◌, get_elem?, set, length, take, replicate, write_at,
}
use vee.Base.Word.{u32, sub32, increment}
use vee.System.{
  ErrorCode, rfc6455_websocket_heartbeat, stream_disconnected_by_host, Outcome, returns, throws,
  undefined,
}
use vee.Websocket.Endian.{Endian}
use vee.Websocket.Frame.{
  Opcode, connnection_close, ping, pong, Header, fresh, analyze, binary_pack, binary_pack_size,
}

-- `websocket_stream::io_result`
pub record IoResult : Type 0 where
  pub header_size : ℕ
  pub payload_size : ℕ

-- `for (i = 0; i < header.payload_len; ++i)`, with `left` rounds left: the counter and the index
-- are 32 bits wide, and an index outside the buffer is undefined behaviour.
pub unmask : List ℕ → ℕ → ℕ → ℕ → List ℕ → Option (List ℕ)
unmask key pos zero i buffer = some buffer
unmask key pos (suc left) i buffer = elim (get_elem? key (i % 4)) [
  | none ↦ none
  | some mask ↦ elim (get_elem? buffer (u32 (i + pos))) [
    | none ↦ none
    | some byte ↦ unmask key pos left (increment i) (set buffer (u32 (i + pos)) (bit_xor byte mask))
  ]
]

-- The header of an outgoing packet.
pub outgoing : ℕ → Header
outgoing len = record fresh { fin = true; use_mask = false; payload_len = len }

module _ (boost : Endian) where
  -- The sizes and the packet; `data` must hold `len` bytes.
  pub convert : Opcode → List ℕ → ℕ → Option (IoResult × List ℕ)
  unfolding outgoing
  convert op payload len =
      let header = outgoing len in
      let header_size = binary_pack_size header in
      let packet = replicate (u32 (len + header_size)) 0 in
      do
        (shift, headed) ← binary_pack boost header op packet
        source ← if leb len (length payload) then some (take len payload) else none
        whole ← write_at headed shift source
        some (record { header_size = header_size; payload_size = u32 len }, whole)

-- What an opcode makes `_preprocess_received_data` throw.
pub refusal : Opcode → Option ErrorCode
refusal ping = some rfc6455_websocket_heartbeat
refusal pong = some rfc6455_websocket_heartbeat
refusal connnection_close = some stream_disconnected_by_host
refusal op = none

-- The part behind `analyze`: the refusal or the loop, and the sizes.
pub accept : Header → List ℕ → ℕ → Outcome (IoResult × Header × List ℕ)
accept header buffer len = elim (refusal header.opcode) [
  | some e ↦ throws e
  | none ↦ elim (unmask header.masking_key header.payload_pos header.payload_len 0 buffer) [
    | none ↦ undefined
    | some unmasked ↦ returns (
      record {
        header_size = sub32 len (u32 header.payload_len);
        payload_size = u32 header.payload_len;
      },
      header,
      unmasked,
    )
  ]
]

-- The sizes, the header and the buffer with the payload unmasked; `len` bytes were received.
pub preprocess : Endian → List ℕ → ℕ → Outcome (IoResult × Header × List ℕ)
preprocess boost buffer len = elim (analyze boost fresh (some buffer) len) [
  | none ↦ undefined
  | some header ↦ accept header buffer len
]

-- ===== src/Websocket/Stream/Write.antt =====
-- `write` and `disconnect`, and a payload from one stream to another.
use vee.Base.{
  ℕ, ◌+◌, ◌-◌, ◌^◌, ◌≤◌, ◌<◌, ◌≡◌, refl, sym, ap, ap₂, ◌∙◌, true, Option, none, some, List, [],
  ◌++◌, arith, leb_refl, length, length-append, take_all, replicate, append-nil,
}
use native.Mathlib.Nat.{mod-eq_of_lt}
use vee.Base.Word.{u32}
use vee.Base.Bits.{AreBytes}
use vee.System.{stream_send_failure, Outcome, returns, throws}
use vee.Net.Socket.{Socket}
use vee.Net.Tcp
use vee.Websocket.Endian.{Endian}
use vee.Websocket.Rfc.{encode}
use vee.Websocket.Frame.{Opcode, connnection_close, opcode_block}
use vee.Websocket.Frame.RoundTrip.{form, block_fits}
use vee.Websocket.Packet.{IoResult, convert}
use vee.Websocket.Packet.Unmask.{masked, masked-zero}
use vee.Websocket.Packet.RoundTrip.{zeros, packet, convert_lem}
use vee.Websocket.Packet.Exchange.{CarriesData, IsData-block, IsRead-form, value-form, front_le}
use vee.Websocket.Stream.{reports, write, closes_behind, disconnect, read_payload_only}
use vee.Websocket.Stream.Read.{Heartbeats, read_payload_only_lem}

module _ (boost : Endian) (socket : Socket) where
  open socket use {State, write_some, read_some, closes}

  -- The sizes of a packet.
  abbrev pub sizes_of : Opcode → List ℕ → IoResult
  sizes_of op payload = record {
    header_size = length (encode true (opcode_block op) none (form (length payload)));
    payload_size = length payload;
  }

  -- What `write` reports of an attempt to send.
  abbrev pub sent : IoResult → Option ℕ × State → Outcome IoResult × State
  sent sizes (none, s) = (throws stream_send_failure, s)
  sent sizes (some n, s) = (returns sizes, s)

  tcp_write_lem :
      (s : State) (bytes : List ℕ)
      → length bytes < 2 ^ 32
      → Tcp.write socket s bytes (u32 (length bytes)) ≡ Tcp.counted socket (write_some s bytes)
  unfolding Tcp.write
  tcp_write_lem s bytes small =
      ap (Tcp.write socket s bytes) (mod-eq_of_lt {n = length bytes} {m = 2 ^ 32} small)
      ∙ rw (leb_refl (length bytes)) (
          ap (λ b. Tcp.counted socket (write_some s b))
            (take_all (length bytes) bytes (omega arith)))

  reports-sent :
      (sizes : IoResult) (r : Option ℕ × State)
      → reports boost socket sizes (Tcp.counted socket r) ≡ sent sizes r
  unfolding reports Tcp.counted
  reports-sent sizes (none, s) = refl
  reports-sent sizes (some n, s) = refl

  length-packet :
      (op : Opcode) (payload : List ℕ) → length (packet op payload) ≤ 10 + length payload
  length-packet op payload = omega (
    arith,
    front_le op (length payload),
    length-append (encode true (opcode_block op) none (form (length payload))) payload,
  )

  -- `write` of a payload whose packet fits 32 bits hands the packet to the socket once. If the
  -- socket fails it throws a send failure, and otherwise returns the sizes of the whole packet,
  -- however many of its bytes the socket took.
  pub write_lem :
      (s : State) (op : Opcode) (payload : List ℕ)
      → length payload + 14 < 2 ^ 32
      → write boost socket s op payload (length payload)
        ≡ sent (sizes_of op payload) (write_some s (packet op payload))
  unfolding write
  write_lem s op payload fits =
      rw (convert_lem boost op payload fits, write)
        (ap (reports boost socket (sizes_of op payload))
            (tcp_write_lem s (packet op payload) (omega (arith, length-packet op payload)))
          ∙ reports-sent (sizes_of op payload) (write_some s (packet op payload)))

  read_payload_only-packet :
      {n capacity : ℕ} {s t t' : State} (buffer : List ℕ) (op : Opcode) (payload : List ℕ)
      → CarriesData op
      → AreBytes payload
      → length payload + 14 < 2 ^ 32
      → length buffer ≡ capacity
      → capacity < 2 ^ 32
      → Heartbeats boost socket capacity n s t
      → read_some t capacity ≡ (some (packet op payload), t')
      → read_payload_only boost socket (n + 1) s buffer capacity
        ≡ some
            (returns (sizes_of op payload), payload ++ replicate (capacity - length payload) 0, t')
  read_payload_only-packet {n} {capacity} {s} {t} {t'} buffer op payload data_op bytes fits sized
        small beats got =
      read_payload_only_lem boost socket buffer true (opcode_block op) none (form (length payload))
        payload [] sized small beats (block_fits op) (IsData-block op data_op)
        (IsRead-form (length payload) (omega arith)) (sym (value-form (length payload)))
        (got
          ∙ ap (λ b. (some (encode true (opcode_block op) none (form (length payload)) ++ b), t'))
              (sym (append-nil payload)))
      ∙ ap₂
          (λ k b. some (
            returns (record { header_size = k; payload_size = length payload }),
            b ++ replicate (capacity - length payload) 0,
            t',
          ))
          {x = length (encode true (opcode_block op) none (form (length payload))) + 0}
          (omega arith) (append-nil (masked zeros 0 payload) ∙ masked-zero 0 payload bytes)

  -- For a payload of bytes whose packet fits 32 bits, with an opcode of data, where
  -- `_convert_to_websocket_form` gives the sizes and the bytes `wire`: `write` hands `wire` to the
  -- socket, and returns the sizes where it is sent. On a socket that delivers `n` heartbeats and then
  -- `wire`, `read_payload_only` with fuel for `n + 1` rounds returns the same sizes, and has the
  -- payload with zeros behind it in the buffer.
  pub read_payload_only-write :
      {n capacity : ℕ} {s t t' : State} (u : State) (buffer : List ℕ) (op : Opcode)
      (payload wire : List ℕ) (sizes : IoResult)
      → CarriesData op
      → AreBytes payload
      → length payload + 14 < 2 ^ 32
      → convert boost op payload (length payload) ≡ some (sizes, wire)
      → length buffer ≡ capacity
      → capacity < 2 ^ 32
      → Heartbeats boost socket capacity n s t
      → read_some t capacity ≡ (some wire, t')
      → (write boost socket u op payload (length payload) ≡ sent sizes (write_some u wire))
        × (read_payload_only boost socket (n + 1) s buffer capacity
            ≡ some (returns sizes, payload ++ replicate (capacity - length payload) 0, t'))
  read_payload_only-write {n} {capacity} {s} {t} {t'} u buffer op payload wire sizes data_op bytes
        fits packs sized small beats got =
      (
        write_lem u op payload fits ∙ ap₂ (λ k b. sent k (write_some u b)) same_sizes same_wire,
        read_payload_only-packet buffer op payload data_op bytes fits sized small beats
              (got ∙ ap (λ b. (some b, t')) (sym same_wire))
            ∙ ap (λ k. some (returns k, payload ++ replicate (capacity - length payload) 0, t'))
                same_sizes,
      )
    where
      packed :
          ◌≡◌ {A = Option (IoResult × List ℕ)}
            (some (sizes_of op payload, packet op payload))
            (some (sizes, wire))
      packed = sym (convert_lem boost op payload fits) ∙ packs

      same_sizes : sizes_of op payload ≡ sizes
      same_sizes =
          ap (λ (o : Option (IoResult × List ℕ)). elim o [ none ↦ sizes | some r ↦ r.0 ]) packed

      same_wire : packet op payload ≡ wire
      same_wire =
          ap (λ (o : Option (IoResult × List ℕ)). elim o [ none ↦ wire | some r ↦ r.1 ]) packed

  -- What `disconnect` comes to after the attempt to send its frame.
  abbrev pub ended : Option ℕ × State → Outcome (Unit {0}) × State
  ended (none, s) = (throws stream_send_failure, s)
  ended (some n, s) = (returns tt, closes s)

  -- `disconnect` sends one close frame of 128 zeros and then closes the socket; if the socket
  -- fails to send, it throws a send failure and leaves the socket open.
  pub disconnect_lem :
      (s : State)
      → disconnect boost socket s
        ≡ ended (write_some s (packet connnection_close (replicate 128 0)))
  unfolding disconnect Tcp.disconnect closes_behind
  disconnect_lem s =
      ap (closes_behind boost socket)
        (write_lem s connnection_close (replicate 128 0) (omega arith))
      ∙ by_result (write_some s (packet connnection_close (replicate 128 0)))
    where
      by_result :
          (r : Option ℕ × State)
          → closes_behind boost socket (sent (sizes_of connnection_close (replicate 128 0)) r)
            ≡ ended r
      by_result (none, s) = refl
      by_result (some n, s) = refl

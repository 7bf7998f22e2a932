-- ===== src/Websocket/Stream/Read.antt =====
-- `read_all` and `read_payload_only`: heartbeats are passed over, and the payload of the first
-- other frame stands alone in the buffer.
use vee.Base.{
  ℕ, suc, ◌+◌, ◌-◌, ◌^◌, ◌≤◌, ◌<◌, ◌≡◌, refl, sym, ap, ◌∙◌, Bool, none, some, List, ◌++◌, arith,
  leb, leb_refl, if◌then◌else◌, length, drop, replicate, append-nil, drop_all,
}
use vee.System.{
  stream_read_failure, stream_disconnected_by_host, rfc6455_websocket_heartbeat, returns, throws,
  undefined,
}
use vee.Net.Socket.{Socket}
use vee.Net.Tcp
use vee.Websocket.Endian.{Endian}
use vee.Websocket.Rfc.{Length, IsLength, value, Key, encode}
use vee.Websocket.Frame.{connnection_close, opcode_of}
use vee.Websocket.Frame.Analyze.{key_or}
use vee.Websocket.Packet.{refusal}
use vee.Websocket.Packet.Unmask.{masked, length-masked}
use vee.Websocket.Packet.RoundTrip.{IsData, IsRead, zeros, refusal_close}
use vee.Websocket.Stream.{
  unpack, try_read, catch_heartbeat, read_all, read_payload_only, payload_only, is_heartbeat,
}
use vee.Net.Receive.{filled, length-filled, receives}
use vee.Websocket.Stream.Fill.{payload_only-unpacked, reported}
use vee.Websocket.Stream.Attempt.{try_read-refused, try_read-data}

module _ (boost : Endian) (socket : Socket) where
  open socket use {State, read_some}

  -- `n` reads in a row, each of which receives a heartbeat.
  pub data Heartbeats (capacity : ℕ) : ℕ → State → State → Type 0 where
    none_yet : {s : State} → Heartbeats capacity 0 s s
    one_more :
        {n : ℕ} {s s' t : State} (fin : Bool) (nibble : ℕ) (key : Key) (len : Length)
        (rest : List ℕ)
        → nibble < 16
        → IsLength len
        → refusal (opcode_of nibble) ≡ some rfc6455_websocket_heartbeat
        → read_some s capacity ≡ (some (encode fin nibble key len ++ rest), s')
        → Heartbeats capacity n s' t
        → Heartbeats capacity (suc n) s t

  skips :
      {capacity n : ℕ} {s t : State} (fuel : ℕ) (buffer : List ℕ)
      → Heartbeats capacity n s t
      → length buffer ≡ capacity
      → capacity < 2 ^ 32
      → (last : List ℕ) × (length last ≡ capacity)
        × (read_all boost socket (n + fuel) s buffer capacity
            ≡ read_all boost socket fuel t last capacity)
  unfolding read_all catch_heartbeat is_heartbeat
  skips fuel buffer none_yet sized small =
      (buffer, sized, ap (λ k. read_all boost socket k _ buffer _) (omega arith))
  skips {capacity = capacity} {s = s} fuel buffer
        (one_more {n} {s' = s'} fin nibble key len rest hn hl refused got more) sized small =
      let bytes = encode fin nibble key len ++ rest in
      let round =
        try_read-refused boost socket s s' buffer capacity fin nibble key len rest
          rfc6455_websocket_heartbeat sized small hn hl refused got in
      let bound = (receives socket s s' buffer bytes capacity sized got small).0 in
      let (last, sized', later) =
        skips fuel (filled bytes capacity) more (length-filled bytes capacity bound) small in
      (
        last,
        sized',
        ap (λ k. read_all boost socket k s buffer capacity) {y = suc (n + fuel)} (omega arith)
            ∙ ap
                (catch_heartbeat boost socket
                  (λ u b. read_all boost socket (n + fuel) u b capacity))
                round
            ∙ later,
      )

  -- `read_payload_only` into a buffer of the given capacity, below 2 ^ 32, from a socket that
  -- delivers `n` heartbeats and then a frame with data, whose length is read right, and any bytes
  -- behind it: with fuel for `n + 1` rounds it returns. The sizes are that of the payload and of
  -- all the other bytes received, and at the front of the buffer stand, of the unmasked payload and
  -- the bytes behind it, the last ones, as many as the payload has; the rest is zeros.
  pub read_payload_only_lem :
      {n capacity : ℕ} {s t t' : State} (buffer : List ℕ) (fin : Bool) (nibble : ℕ) (key : Key)
      (len : Length) (payload behind : List ℕ)
      → length buffer ≡ capacity
      → capacity < 2 ^ 32
      → Heartbeats capacity n s t
      → nibble < 16
      → IsData (opcode_of nibble)
      → IsRead len
      → length payload ≡ value len
      → read_some t capacity ≡ (some (encode fin nibble key len ++ (payload ++ behind)), t')
      → read_payload_only boost socket (n + 1) s buffer capacity
        ≡ some (
          returns (record {
            header_size = length (encode fin nibble key len) + length behind;
            payload_size = length payload;
          }),
          drop (length behind) (masked (key_or key zeros) 0 payload ++ behind)
              ++ replicate (capacity - length payload) 0,
          t',
        )
  unfolding read_payload_only read_all unpack catch_heartbeat try_read
  read_payload_only_lem {n} {capacity} {s} {t} {t'} buffer fin nibble key len payload behind sized
        small beats hn data_op read size got =
      let (last, last_sized, skipped) = skips 1 buffer beats sized small in
      let (room, once) =
        try_read-data boost socket t t' last capacity fin nibble key len payload behind last_sized
          small hn data_op read size got in
      let all = skipped ∙ ap (catch_heartbeat boost socket (λ u b. none)) once in
      rw (all, alone room, read_payload_only) refl
    where
      front : List ℕ
      front = encode fin nibble key len

      mask : List ℕ
      mask = masked (key_or key zeros) 0 payload

      alone :
          length front + (length payload + length behind) ≤ capacity
          → payload_only
              (reported front payload behind)
              (front
                ++ (mask
                    ++ (behind
                        ++ replicate
                            (capacity - (length front + (length payload + length behind)))
                            0)))
              capacity
            ≡ some
                (drop (length behind) (mask ++ behind) ++ replicate (capacity - length payload) 0)
      alone room =
          ap
            (λ k.
              payload_only (record { header_size = length front + length behind; payload_size = k })
                (front
                  ++ (mask
                      ++ (behind ++ replicate (capacity - (length front + (k + length behind))) 0)))
                capacity)
            (sym same)
          ∙ payload_only-unpacked front mask behind capacity small (omega (arith, room, same))
          ∙ ap (λ k. some (drop (length behind) (mask ++ behind) ++ replicate (capacity - k) 0))
              same
        where
          same : length mask ≡ length payload
          same = length-masked (key_or key zeros) 0 payload

  -- From a socket that delivers `n` heartbeats and then a close frame, `read_payload_only` with
  -- fuel for `n + 1` rounds throws that the host has disconnected.
  pub read_payload_only_closed :
      {n capacity : ℕ} {s t t' : State} (buffer : List ℕ) (fin : Bool) (nibble : ℕ) (key : Key)
      (len : Length) (rest : List ℕ)
      → length buffer ≡ capacity
      → capacity < 2 ^ 32
      → Heartbeats capacity n s t
      → nibble < 16
      → IsLength len
      → opcode_of nibble ≡ connnection_close
      → read_some t capacity ≡ (some (encode fin nibble key len ++ rest), t')
      → (last : List ℕ) × (read_payload_only boost socket (n + 1) s buffer capacity
          ≡ some (throws stream_disconnected_by_host, last, t'))
  unfolding read_payload_only read_all catch_heartbeat is_heartbeat
  read_payload_only_closed {n} {capacity} {s} {t} {t'} buffer fin nibble key len rest sized small
        beats hn hl closing got =
      let (last, last_sized, skipped) = skips 1 buffer beats sized small in
      let once =
        try_read-refused boost socket t t' last capacity fin nibble key len rest
          stream_disconnected_by_host last_sized small hn hl (ap refusal closing ∙ refusal_close)
          got in
      let all = skipped ∙ ap (catch_heartbeat boost socket (λ u b. none)) once in
      (filled (encode fin nibble key len ++ rest) capacity, rw (all, read_payload_only) refl)

  -- From a socket that delivers `n` heartbeats and then fails, `read_payload_only` with fuel for
  -- `n + 1` rounds throws a read failure, and leaves zeros in the buffer.
  pub read_payload_only_failed :
      {n capacity : ℕ} {s t t' : State} (buffer : List ℕ)
      → length buffer ≡ capacity
      → capacity < 2 ^ 32
      → Heartbeats capacity n s t
      → read_some t capacity ≡ (none, t')
      → read_payload_only boost socket (n + 1) s buffer capacity
        ≡ some (throws stream_read_failure, replicate capacity 0, t')
  unfolding read_payload_only read_all catch_heartbeat is_heartbeat try_read unpack Tcp.read
      Tcp.received
  read_payload_only_failed {n} {capacity} {s} {t} {t'} buffer sized small beats got =
      let (last, last_sized, skipped) = skips 1 buffer beats sized small in
      let once : Tcp.read socket t last capacity
          ≡ (throws stream_read_failure, replicate capacity 0, t') =
        ap
          (λ c.
            if leb capacity c
            then Tcp.received socket capacity last (read_some t capacity)
            else (undefined, last, t))
          last_sized
        ∙ rw (leb_refl capacity) (
            ap (Tcp.received socket capacity last) got
            ∙ ap (λ tail. (throws stream_read_failure, replicate capacity 0 ++ tail, t'))
                (drop_all capacity last (omega (arith, last_sized)))
            ∙ ap (λ b. (throws stream_read_failure, b, t')) (append-nil (replicate capacity 0))) in
      let all =
        skipped
        ∙ ap (λ r. catch_heartbeat boost socket (λ u b. none) (unpack boost socket r)) once in
      rw (all, read_payload_only) refl

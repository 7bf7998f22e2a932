-- ===== src/Websocket/Stream/Attempt.antt =====
-- One round of the loop of `read_all`: what the `try` block makes of what is received.
use vee.Base.{
  ℕ, ◌+◌, ◌-◌, ◌^◌, ◌≤◌, ◌<◌, ◌≡◌, refl, sym, ap, ap₂, ◌∙◌, Bool, some, List, ◌++◌, arith, length,
  length-append, replicate, append_assoc,
}
use vee.System.{ErrorCode, returns, throws}
use vee.Net.Socket.{Socket}
use vee.Net.Tcp
use vee.Websocket.Endian.{Endian}
use vee.Websocket.Rfc.{Length, IsLength, value, Key, encode}
use vee.Websocket.Frame.{fresh, opcode_of}
use vee.Websocket.Frame.Analyze.{analyzed, key_or}
use vee.Websocket.Packet.{refusal, preprocess}
use vee.Websocket.Packet.Unmask.{masked}
use vee.Websocket.Packet.RoundTrip.{IsData, IsRead, zeros, preprocess_lem, preprocess-refused}
use vee.Websocket.Stream.{unpack, try_read}
use vee.Net.Receive.{filled, receives}
use vee.Websocket.Stream.Fill.{reported}

module _ (boost : Endian) (socket : Socket) where
  open socket use {State, read_some, read_bound}

  -- A frame whose opcode is refused, received into the buffer, makes the `try` block throw.
  pub try_read-refused :
      (s s' : State) (buffer : List ℕ) (capacity : ℕ) (fin : Bool) (nibble : ℕ) (key : Key)
      (len : Length) (rest : List ℕ) (e : ErrorCode)
      → length buffer ≡ capacity
      → capacity < 2 ^ 32
      → nibble < 16
      → IsLength len
      → refusal (opcode_of nibble) ≡ some e
      → read_some s capacity ≡ (some (encode fin nibble key len ++ rest), s')
      → try_read boost socket s buffer capacity
        ≡ (throws e, filled (encode fin nibble key len ++ rest) capacity, s')
  unfolding try_read unpack
  try_read-refused s s' buffer capacity fin nibble key len rest e sized small hn hl refused got =
      let front = encode fin nibble key len in
      let r = receives socket s s' buffer (front ++ rest) capacity sized got small in
      let behind = replicate (capacity - length (front ++ rest)) 0 in
      let thrown : preprocess boost (filled (front ++ rest) capacity) (length (front ++ rest))
          ≡ throws e =
        ap (λ b. preprocess boost b (length (front ++ rest))) (append_assoc front rest behind)
        ∙ preprocess-refused boost fin nibble key len (rest ++ behind) (length (front ++ rest)) e hn
            hl refused in
      ap (unpack boost socket) r.1 ∙ rw (thrown, unpack) refl

  pub try_read-data :
      (t t' : State) (buffer : List ℕ) (capacity : ℕ) (fin : Bool) (nibble : ℕ) (key : Key)
      (len : Length) (payload behind : List ℕ)
      → length buffer ≡ capacity
      → capacity < 2 ^ 32
      → nibble < 16
      → IsData (opcode_of nibble)
      → IsRead len
      → length payload ≡ value len
      → read_some t capacity ≡ (some (encode fin nibble key len ++ (payload ++ behind)), t')
      → (length (encode fin nibble key len) + (length payload + length behind) ≤ capacity)
        × (try_read boost socket t buffer capacity ≡ (
          returns (reported (encode fin nibble key len) payload behind),
          encode fin nibble key len
              ++ (masked (key_or key zeros) 0 payload
                  ++ (behind
                      ++ replicate
                          (capacity
                            - (length (encode fin nibble key len)
                                + (length payload + length behind)))
                          0)),
          t',
        ))
  unfolding try_read unpack
  try_read-data t t' buffer capacity fin nibble key len payload behind sized small hn data_op read
        size got =
      (room, ap (unpack boost socket) r.1 ∙ rw (pre, unpack) refl)
    where
      front : List ℕ
      front = encode fin nibble key len

      bytes : List ℕ
      bytes = front ++ (payload ++ behind)

      r :
          (length bytes ≤ capacity)
          × (Tcp.read socket t buffer capacity
              ≡ (returns (length bytes), filled bytes capacity, t'))
      r = receives socket t t' buffer bytes capacity sized got small

      counted : length bytes ≡ length front + (length payload + length behind)
      counted = omega (arith, length-append front (payload ++ behind), length-append payload behind)

      room : length front + (length payload + length behind) ≤ capacity
      room = omega (arith, r.0, counted)

      padding : List ℕ
      padding = replicate (capacity - (length front + (length payload + length behind))) 0

      pre :
          preprocess boost (filled bytes capacity) (length bytes)
          ≡ returns (
            reported front payload behind,
            analyzed fresh fin nibble key len,
            front ++ (masked (key_or key zeros) 0 payload ++ (behind ++ padding)),
          )
      pre =
          ap (λ n. preprocess boost (bytes ++ replicate (capacity - n) 0) (length bytes)) counted
          ∙ ap (λ b. preprocess boost b (length bytes))
              (append_assoc front (payload ++ behind) padding
                ∙ ap (λ b. front ++ b) (append_assoc payload behind padding))
          ∙ preprocess_lem boost fin nibble key len payload (behind ++ padding) (length bytes) hn
              data_op read size (omega (arith, room, size))
          ∙ ap₂
              (λ n k. returns (
                record { header_size = n; payload_size = k },
                analyzed fresh fin nibble key len,
                front ++ (masked (key_or key zeros) 0 payload ++ (behind ++ padding)),
              ))
              (omega (arith, room, counted, size)) (sym size)

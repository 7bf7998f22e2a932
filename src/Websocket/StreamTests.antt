-- ===== src/Websocket/StreamTests.antt =====
-- Streams at work: each theorem at a scripted socket.
use vee.Base.{ℕ, ◌≡◌, refl, true, false, none, some, List, [], ◌∷◌, ◌++◌, arith, replicate, drop}
use vee.System.{
  success, stream_read_failure, stream_disconnected_by_host, OperationResult, returns, throws,
}
use vee.Websocket.Machine.{little_endian, hi, key, scripted}
use vee.Websocket.Rfc.{short, encode}
use vee.Websocket.Frame.{opcode_of, text_frame, binary_frame}
use vee.Websocket.Packet.RoundTrip.{convert_lem, IsData, packet, refusal_ping}
use vee.Websocket.Packet.Unmask.{masked}
use vee.Websocket.Stream.{write, read_payload_only, on_all, on_payload_only, Callback}
use vee.Websocket.Stream.Read.{
  Heartbeats, none_yet, one_more, read_payload_only_lem, read_payload_only_closed,
}
use vee.Websocket.Stream.Write.{sizes_of, sent, write_lem, read_payload_only-write}
use vee.Net.Tcp.{handle_read}
use vee.Websocket.Stream.Async.{behind_read, reported, async_payload-read_payload_only}
use vee.Websocket.Stream.Callbacks.{on_all_data}

-- A ping with two bytes.
abbrev ping_bytes : List ℕ
ping_bytes = encode true 9 none (short 2) ++ hi

abbrev room : List ℕ
room = replicate 16 7

IsData-nibble : IsData (opcode_of 1)
unfolding opcode_of
IsData-nibble = tt

pinged :
    (packets : List (List ℕ))
    → Heartbeats little_endian scripted 16 1 (ping_bytes ∷ packets) packets
unfolding opcode_of
pinged packets =
    one_more true 9 none (short 2) hi (omega arith) (omega arith) refusal_ping refl none_yet

read_payload_only_lem_example :
    read_payload_only little_endian scripted 2
      (ping_bytes ∷ (encode true 1 (some (1, 2, 3, 4)) (short 2) ++ (hi ++ 9 ∷ [])) ∷ [])
      room
      16
    ≡ some (
      returns (record { header_size = 7; payload_size = 2 }),
      drop 1 (masked key 0 hi ++ 9 ∷ []) ++ replicate 14 0,
      [],
    )
read_payload_only_lem_example =
    read_payload_only_lem little_endian scripted room true 1 (some (1, 2, 3, 4)) (short 2) hi
      (9 ∷ []) refl (omega arith)
      (pinged ((encode true 1 (some (1, 2, 3, 4)) (short 2) ++ (hi ++ 9 ∷ [])) ∷ [])) (omega arith)
      IsData-nibble (omega arith) refl refl

read_payload_only_closed_example :
    (last : List ℕ) × (read_payload_only little_endian scripted 2
        (ping_bytes ∷ (encode true 8 none (short 0) ++ []) ∷ [])
        room
        16
      ≡ some (throws stream_disconnected_by_host, last, []))
read_payload_only_closed_example =
    read_payload_only_closed little_endian scripted room true 8 none (short 0) [] refl (omega arith)
      (pinged ((encode true 8 none (short 0) ++ []) ∷ [])) (omega arith) (omega arith)
      (unfold opcode_of in refl) refl

write_lem_example :
    write little_endian scripted [] text_frame hi 2
    ≡ sent little_endian scripted (sizes_of little_endian scripted text_frame hi) (some 4, [])
write_lem_example = write_lem little_endian scripted [] text_frame hi (omega arith)

read_payload_only-write_example :
    (write little_endian scripted [] binary_frame hi 2
      ≡ sent little_endian scripted (sizes_of little_endian scripted binary_frame hi) (some 4, []))
    × (read_payload_only little_endian scripted 2 (ping_bytes ∷ packet binary_frame hi ∷ []) room 16
        ≡ some
            (returns (sizes_of little_endian scripted binary_frame hi), hi ++ replicate 14 0, []))
read_payload_only-write_example =
    read_payload_only-write little_endian scripted [] room binary_frame hi (packet binary_frame hi)
      (sizes_of little_endian scripted binary_frame hi) tt (omega arith, (omega arith, tt))
      (omega arith) (convert_lem little_endian binary_frame hi (omega arith)) refl (omega arith)
      (pinged (packet binary_frame hi ∷ [])) refl

-- A callback that leaves the buffer.
abbrev leaves : Callback
leaves result buffer capacity received = buffer

abbrev fine : OperationResult
fine = record { error = success }

abbrev failed : OperationResult
failed = record { error = stream_read_failure }

on_all_data_example :
    on_all little_endian leaves fine (encode true 1 (some (1, 2, 3, 4)) (short 2) ++ (hi ++ [])) 8 8
    ≡ (
      (fine, 8) ∷ [],
      returns (encode true 1 (some (1, 2, 3, 4)) (short 2) ++ (masked key 0 hi ++ [])),
    )
on_all_data_example =
    on_all_data little_endian leaves fine true 1 (some (1, 2, 3, 4)) (short 2) hi [] 8 8 refl
      (omega arith) IsData-nibble (omega arith) refl (omega arith)

async_payload-read_payload_only_example :
    handle_read
      (on_payload_only little_endian leaves)
      (behind_read room (packet binary_frame hi))
      16
      false
      4
    ≡ reported little_endian scripted leaves 16
        (read_payload_only little_endian scripted 1 (packet binary_frame hi ∷ []) room 16)
async_payload-read_payload_only_example =
    async_payload-read_payload_only little_endian scripted leaves {s = packet binary_frame hi ∷ []}
      room (packet binary_frame hi) refl

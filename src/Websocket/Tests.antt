-- ===== src/Websocket/Tests.antt =====
-- Frames and packets at work: each theorem at a frame.
use vee.Base.{ℕ, ◌≡◌, refl, true, false, none, some, List, [], ◌∷◌, ◌++◌, arith, length, replicate}
use vee.System.{returns, undefined}
use vee.Websocket.Machine.{little_endian, hi, key}
use vee.Websocket.Rfc.{short, medium, encode}
use vee.Websocket.Frame.{
  Header, fresh, text_frame, binary_frame, binary_pack, binary_pack_size, analyze, opcode_of,
}
use vee.Websocket.Frame.Pack.{binary_pack_size_le}
use vee.Websocket.Frame.Analyze.{analyzed, analyze_lem}
use vee.Websocket.Frame.RoundTrip.{analyze-binary_pack}
use vee.Websocket.Packet.{IoResult, convert, preprocess}
use vee.Websocket.Packet.Unmask.{masked, masked_twice}
use vee.Websocket.Packet.RoundTrip.{IsData, preprocess_lem}
use vee.Websocket.Packet.Exchange.{preprocess-convert, preprocess_overrun}

abbrev room : List ℕ
room = replicate 14 0

abbrev two_bytes : Header
two_bytes = record fresh { payload_len = 2 }

abbrev masked_300 : Header
masked_300 = record fresh { use_mask = true; payload_len = 300; masking_key = key }

IsData-nibble : IsData (opcode_of 1)
unfolding opcode_of
IsData-nibble = tt

masked_twice_example : masked key 0 (masked key 0 hi) ≡ hi
masked_twice_example =
    masked_twice key 0 hi (omega arith, (omega arith, (omega arith, (omega arith, tt))))
      (omega arith, (omega arith, tt))

analyze_lem_example :
    analyze little_endian fresh (some (encode true 1 (some (1, 2, 3, 4)) (medium 300) ++ hi)) 10
    ≡ some (analyzed fresh true 1 (some (1, 2, 3, 4)) (medium 300))
analyze_lem_example =
    analyze_lem little_endian fresh true 1 (some (1, 2, 3, 4)) (medium 300) hi 10 (omega arith)
      (omega arith)

analyze-binary_pack_example :
    (out : List ℕ) × (a : Header) × (binary_pack little_endian two_bytes text_frame room
      ≡ some (binary_pack_size two_bytes, out))
    × (analyze little_endian fresh (some out) 3 ≡ some a)
    × (a.fin ≡ true)
    × (a.opcode ≡ text_frame)
    × (a.payload_len ≡ 2)
    × (a.use_mask ≡ false)
    × (a.payload_pos ≡ binary_pack_size two_bytes)
analyze-binary_pack_example =
    analyze-binary_pack little_endian two_bytes fresh text_frame room 3 refl (omega arith) refl tt
      (binary_pack_size_le two_bytes)

preprocess_lem_example :
    preprocess little_endian (encode true 1 (some (1, 2, 3, 4)) (short 2) ++ (hi ++ 9 ∷ [])) 8
    ≡ returns (
      record { header_size = 6; payload_size = 2 },
      analyzed fresh true 1 (some (1, 2, 3, 4)) (short 2),
      encode true 1 (some (1, 2, 3, 4)) (short 2) ++ (masked key 0 hi ++ 9 ∷ []),
    )
preprocess_lem_example =
    preprocess_lem little_endian true 1 (some (1, 2, 3, 4)) (short 2) hi (9 ∷ []) 8 (omega arith)
      IsData-nibble (omega arith) refl (omega arith)

preprocess-convert_example :
    (sizes : IoResult) × (header : Header) × (front : List ℕ) × (convert little_endian binary_frame
        hi 2
      ≡ some (sizes, front ++ hi))
    × (length front ≡ sizes.header_size)
    × (2 ≡ sizes.payload_size)
    × (preprocess little_endian ((front ++ hi) ++ 0 ∷ []) (length (front ++ hi))
        ≡ returns (sizes, header, (front ++ hi) ++ 0 ∷ []))
preprocess-convert_example =
    preprocess-convert little_endian binary_frame hi (0 ∷ []) tt (omega arith, (omega arith, tt))
      (omega arith)

preprocess_overrun_example :
    preprocess little_endian (encode true 1 none (short 9) ++ hi) 4 ≡ undefined
preprocess_overrun_example =
    preprocess_overrun little_endian true 1 none (short 9) hi 4 (omega arith) IsData-nibble
      (omega arith) (omega arith) (omega arith)

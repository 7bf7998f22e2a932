-- ===== src/Websocket/Frame/Analyze.antt =====
-- `analyze` against the layout of RFC 6455.
use vee.Base.{
  ℕ, ◌+◌, ◌/◌, ◌%◌, ◌^◌, ◌<◌, ◌≡◌, refl, ap, ◌∙◌, Bool, true, false, none, some, List, ◌∷◌, ◌++◌,
  append_assoc, length-append, length, arith, leb, if◌then◌else◌,
}
use vee.Base.Word.{sign_extend16}
use vee.Websocket.Endian.{Endian, load16, load64}
use vee.Websocket.Rfc.{
  Length, short, medium, long, IsLength, seven_bits, extended, Key, key_bytes, mask_flag, encode,
}
use vee.Websocket.Frame.{Header, opcode_of, analyze_length, analyze_key, analyze}
use vee.Websocket.Frame.Tables.{nibble_table, seven_bits_table, high_bit_lem}

-- The length that the code takes from a form: a medium one passes through an `int16_t`.
abbrev pub decoded : Length → ℕ
decoded (short n) = n
decoded (medium n) = sign_extend16 n
decoded (long n) = n

abbrev pub is_masked : Key → Bool
is_masked none = false
is_masked (some k) = true

abbrev pub key_or : Key → List ℕ → List ℕ
key_or none old = old
key_or (some k) old = key_bytes (some k)

abbrev word16 : Length → ℕ → ℕ
word16 (medium n) old = load16 (n / 256 % 256) (n % 256)
word16 len old = old

abbrev word64 : Length → ℕ → ℕ
word64 (long n) old =
    load64 (n / 2 ^ 56 % 256) (n / 2 ^ 48 % 256) (n / 2 ^ 40 % 256) (n / 2 ^ 32 % 256)
      (n / 2 ^ 24 % 256) (n / 2 ^ 16 % 256) (n / 2 ^ 8 % 256) (n % 256)
word64 len old = old

-- The header after the flag bytes of a frame were read.
abbrev flags : Header → Bool → ℕ → Key → Length → Header
flags h fin nibble key len = record h {
  fin = fin;
  fin_opcode = (if fin then 128 else 0) + nibble;
  opcode = opcode_of nibble;
  use_mask = is_masked key;
  mask_payload_len = mask_flag key + seven_bits len;
  payload_len = seven_bits len;
}

-- The header after its length was read.
abbrev sized : Header → Length → Header
sized h len = record h {
  payload_len = decoded len;
  extended_payload_len16 = word16 len h.extended_payload_len16;
  extended_payload_len64 = word64 len h.extended_payload_len64;
}

module _ (boost : Endian) where
  big16-decoded :
      (n : ℕ) → n < 2 ^ 16 → boost.big_to_native16 (load16 (n / 256 % 256) (n % 256)) ≡ n
  big16-decoded n h =
      boost.loaded16 (n / 256 % 256) (n % 256) (omega arith) (omega arith) ∙ omega arith

  big64-decoded : (n old : ℕ) → n < 2 ^ 64 → boost.big_to_native64 (word64 (long n) old) ≡ n
  big64-decoded n old h =
      boost.loaded64 (n / 2 ^ 56 % 256) (n / 2 ^ 48 % 256) (n / 2 ^ 40 % 256) (n / 2 ^ 32 % 256)
        (n / 2 ^ 24 % 256) (n / 2 ^ 16 % 256) (n / 2 ^ 8 % 256) (n % 256) (omega arith)
        (omega arith)
      ∙ omega arith

  analyze_length_lem :
      (h : Header) (first second : ℕ) (len : Length) (rest : List ℕ)
      → IsLength len
      → h.payload_len ≡ seven_bits len
      → analyze_length boost h (first ∷ second ∷ (extended len ++ rest)) 2
        ≡ some (sized h len, 2 + length (extended len))
  unfolding analyze_length
  analyze_length_lem h first second (short n) rest lt e = ground arith
  analyze_length_lem h first second (medium n) rest lt e = rw e (rw (big16-decoded n lt))
  analyze_length_lem h first second (long n) rest lt e =
      rw e (rw (big64-decoded n h.extended_payload_len64 lt))

-- The header after its masking key was read.
abbrev keyed : Header → Key → Header
keyed h key = record h { masking_key = key_or key h.masking_key }

analyze_key_lem :
    (h : Header) (first second : ℕ) (len : Length) (key : Key) (rest : List ℕ)
    → h.use_mask ≡ is_masked key
    → analyze_key h
        (first ∷ second ∷ (extended len ++ (key_bytes key ++ rest)))
        (2 + length (extended len))
      ≡ some (keyed h key, 2 + length (extended len) + length (key_bytes key))
unfolding analyze_key
analyze_key_lem h first second (short n) none rest e = rw e
analyze_key_lem h first second (medium n) none rest e = rw e
analyze_key_lem h first second (long n) none rest e = rw e
analyze_key_lem h first second (short n) (some (a, b, c, d)) rest e = rw e
analyze_key_lem h first second (medium n) (some (a, b, c, d)) rest e = rw e
analyze_key_lem h first second (long n) (some (a, b, c, d)) rest e = rw e

-- The header that `analyze` leaves for a frame.
abbrev pub analyzed : Header → Bool → ℕ → Key → Length → Header
analyzed h fin nibble key len = record h {
  fin = fin;
  use_mask = is_masked key;
  payload_len = decoded len;
  payload_pos = length (encode fin nibble key len);
  fin_opcode = (if fin then 128 else 0) + nibble;
  mask_payload_len = mask_flag key + seven_bits len;
  extended_payload_len16 = word16 len h.extended_payload_len16;
  extended_payload_len64 = word64 len h.extended_payload_len64;
  opcode = opcode_of nibble;
  masking_key = key_or key h.masking_key;
}

first_fits : (fin : Bool) (nibble : ℕ) → nibble < 16 → (if fin then 128 else 0) + nibble < 256
first_fits fin nibble h = ground arith

second_fits : (key : Key) (len : Length) → IsLength len → mask_flag key + seven_bits len < 256
second_fits none (short n) h = omega arith
second_fits none (medium n) h = omega arith
second_fits none (long n) h = omega arith
second_fits (some k) (short n) h = omega arith
second_fits (some k) (medium n) h = omega arith
second_fits (some k) (long n) h = omega arith

first_fin :
    (fin : Bool) (nibble : ℕ) → nibble < 16 → leb 128 ((if fin then 128 else 0) + nibble) ≡ fin
first_fin fin nibble h = ground arith

first_nibble :
    (fin : Bool) (nibble : ℕ) → nibble < 16 → ((if fin then 128 else 0) + nibble) % 16 ≡ nibble
first_nibble fin nibble h = ground arith

second_mask :
    (key : Key) (len : Length)
    → IsLength len
    → leb 128 (mask_flag key + seven_bits len) ≡ is_masked key
second_mask none (short n) h = ground arith
second_mask none (medium n) h = refl
second_mask none (long n) h = refl
second_mask (some k) (short n) h = ground arith
second_mask (some k) (medium n) h = refl
second_mask (some k) (long n) h = refl

second_length :
    (key : Key) (len : Length)
    → IsLength len
    → (mask_flag key + seven_bits len) % 128 ≡ seven_bits len
second_length none (short n) h = omega arith
second_length none (medium n) h = refl
second_length none (long n) h = refl
second_length (some k) (short n) h = omega arith
second_length (some k) (medium n) h = refl
second_length (some k) (long n) h = refl

module _ (boost : Endian) where
  -- `analyze` on the bytes of any frame header of RFC 6455, with anything behind them, is defined
  -- and gives FIN, the opcode, MASK, the key, the position behind the header, and the length; a
  -- length of 16 bits is given with its sign extended.
  pub analyze_lem :
      (h : Header) (fin : Bool) (nibble : ℕ) (key : Key) (len : Length) (rest : List ℕ) (n : ℕ)
      → nibble < 16
      → IsLength len
      → analyze boost h (some (encode fin nibble key len ++ rest)) n
        ≡ some (analyzed h fin nibble key len)
  unfolding analyze
  analyze_lem h fin nibble key len rest n hn hl =
      rw
        (
          high_bit_lem _ (first_fits fin nibble hn),
          high_bit_lem _ (second_fits key len hl),
          nibble_table _ (first_fits fin nibble hn),
          seven_bits_table _ (second_fits key len hl),
          first_fin fin nibble hn,
          first_nibble fin nibble hn,
          second_mask key len hl,
          second_length key len hl,
          append_assoc (extended len) (key_bytes key) rest,
        )
        (rw
          (
            analyze_length_lem boost (flags h fin nibble key len)
                ((if fin then 128 else 0) + nibble) (mask_flag key + seven_bits len) len
                (key_bytes key ++ rest) hl refl,
            analyze_key_lem (sized (flags h fin nibble key len) len)
                ((if fin then 128 else 0) + nibble) (mask_flag key + seven_bits len) len key rest
                refl,
          )
          (ap (λ pos. some (record (analyzed h fin nibble key len) { payload_pos = pos }))
            {x = 2 + length (extended len) + length (key_bytes key)}
            (omega (arith, length-append (extended len) (key_bytes key)))))

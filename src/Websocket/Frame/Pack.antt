-- ===== src/Websocket/Frame/Pack.antt =====
-- What `binary_pack` writes, and that `binary_pack_size` is its length.
use vee.Base.{
  ℕ, ◌+◌, ◌≤◌, ◌≡◌, refl, ap, ◌∙◌, Bool, true, false, some, List, [], ◌∷◌, ◌++◌, append_assoc,
  append-nil, length, length-append, drop, length-drop, drop-drop, write_at, write_at-append, arith,
  ◌==◌, if◌then◌else◌,
}
use vee.Websocket.Endian.{Endian}
use vee.Websocket.Frame.{
  Opcode, Header, first_block, second_block, marked_length, extended_length, append_key,
  binary_pack, binary_pack_size,
}

-- `binary_pack_size` counts the bytes of the extended length.
extended_size : ℕ → ℕ
extended_size mark = if mark == 0x7e then 2 else if mark == 0x7f then 8 else 0

module _ (boost : Endian) where
  length-extended_length :
      (mark len : ℕ) → length (extended_length boost mark len) ≡ extended_size mark
  unfolding extended_length extended_size
  length-extended_length mark len = ground arith

  abbrev extension : Header → List ℕ
  extension h =
      extended_length boost (marked_length (second_block h.use_mask h.payload_len)) h.payload_len

  abbrev key : Header → List ℕ
  key h = if h.use_mask then h.masking_key else []

  -- The bytes of a packed header.
  unfoldable pub header_bytes : Header → Opcode → List ℕ
  header_bytes h op =
      first_block h.fin op ∷ second_block h.use_mask h.payload_len ∷ (extension h ++ key h)

  pub length-header_bytes :
      (h : Header) (op : Opcode)
      → length h.masking_key ≡ 4
      → length (header_bytes h op) ≡ binary_pack_size h
  unfolding header_bytes binary_pack_size extended_size
  length-header_bytes h op four = ground (
    arith,
    length-append (extension h) (key h),
    length-extended_length (marked_length (second_block h.use_mask h.payload_len)) h.payload_len,
  )

  -- A write after bytes that were written one after another at the start of a buffer.
  write_next :
      (front bytes buffer : List ℕ) (offset : ℕ)
      → offset ≡ length front
      → length front + length bytes ≤ length buffer
      → write_at (front ++ drop offset buffer) offset bytes
        ≡ some ((front ++ bytes) ++ drop (offset + length bytes) buffer)
  write_next front bytes buffer offset e fits = rw (
    e,
    write_at-append front bytes (drop (length front) buffer)
        (omega (arith, length-drop (length front) buffer)),
    drop-drop (length front) (length bytes) buffer,
    append_assoc front bytes,
  )

  -- The last write, of the masking key.
  append_key_lem :
      (mask : Bool) (first second : ℕ) (ext masking_key buffer : List ℕ)
      → length masking_key ≡ 4
      → 2 + length ext + length (if mask then masking_key else []) ≤ length buffer
      → let shift = 2 + length ext in
        let written = first ∷ second ∷ (ext ++ drop shift buffer) in
        let used = if mask then masking_key else [] in
        append_key mask masking_key written shift
        ≡ some (
          shift + length used,
          first ∷ second ∷ ((ext ++ used) ++ drop (shift + length used) buffer),
        )
  unfolding append_key
  append_key_lem true first second ext masking_key buffer four fits =
      rw
        (write_next (first ∷ second ∷ ext) masking_key buffer (2 + length ext) (omega arith)
          (omega arith))
        (ap
          (λ n. some (
            n,
            first
                ∷ second
                ∷ ((ext ++ masking_key) ++ drop (2 + length ext + length masking_key) buffer),
          ))
          (omega arith))
  append_key_lem false first second ext masking_key buffer four fits = rw append-nil (
      ap (λ n. some (n, first ∷ second ∷ (ext ++ drop n buffer))) {x = 2 + length ext}
        (omega arith))

  -- `binary_pack` into a buffer with room for the header writes its bytes at the start, leaves the
  -- rest of the buffer, and returns the number that `binary_pack_size` announces.
  pub binary_pack_lem :
      (h : Header) (op : Opcode) (buffer : List ℕ)
      → length h.masking_key ≡ 4
      → binary_pack_size h ≤ length buffer
      → binary_pack boost h op buffer
        ≡ some (binary_pack_size h, header_bytes h op ++ drop (binary_pack_size h) buffer)
  unfolding binary_pack header_bytes
  binary_pack_lem h op buffer four fits =
      rw
        (
          write_next [] (first ∷ []) buffer 0 refl (omega (arith, size)),
          write_next (first ∷ []) (second ∷ []) buffer 1 refl (omega (arith, size)),
          write_next (first ∷ second ∷ []) (extension h) buffer 2 refl (omega (arith, size)),
        )
        (append_key_lem h.use_mask first second (extension h) h.masking_key buffer four
            (omega (arith, size))
          ∙ ap (λ n. some (n, header_bytes h op ++ drop n buffer)) {y = binary_pack_size h}
              (omega (arith, size)))
    where
      first : ℕ
      first = first_block h.fin op

      second : ℕ
      second = second_block h.use_mask h.payload_len

      size : binary_pack_size h ≡ 2 + length (extension h) + length (key h)
      size =
          unfold header_bytes in
          omega (arith, length-header_bytes h op four, length-append (extension h) (key h))

-- A header takes at most 14 bytes.
pub binary_pack_size_le : (h : Header) → binary_pack_size h ≤ 14
unfolding binary_pack_size
binary_pack_size_le h = ground arith

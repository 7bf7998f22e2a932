-- ===== src/Websocket/Stream/Fill.antt =====
-- A payload moved to the front of a buffer, as `memmove` and `memset` leave it.
use vee.Base.{
  ℕ, ◌+◌, ◌-◌, ◌^◌, ◌≤◌, ◌<◌, ◌≡◌, sym, ap, ap₂, ◌∙◌, true, some, List, [], ◌++◌, arith, leb,
  length, length-append, length-replicate, length-drop, length-take, take, drop, replicate,
  append-nil, drop_all, append_assoc, drop-append_add, drop-append_le, take-append, write_at,
  write_at-append,
}
use vee.Base.Word.{sub32}
use vee.Websocket.Packet.{IoResult}
use vee.Websocket.Stream.{payload_only, move_front}

le→leb : (m n : ℕ) → m ≤ n → leb m n ≡ true
le→leb m n h = ground arith

move_front_lem :
    (buffer : List ℕ) (position size : ℕ)
    → position + size ≤ length buffer
    → move_front buffer position size ≡ some (take size (drop position buffer) ++ drop size buffer)
unfolding move_front
move_front_lem buffer position size fits = rw (le→leb (position + size) (length buffer) fits) (
    write_at-append [] moved buffer (omega (arith, sized))
    ∙ ap (λ n. some (moved ++ drop n buffer)) sized)
  where
    moved : List ℕ
    moved = take size (drop position buffer)

    sized : length moved ≡ size
    sized = length-take size (drop position buffer) (omega (arith, length-drop position buffer))

-- The payload is moved to the front of a buffer that holds it, and the rest is zeros.
pub payload_only_lem :
    (sizes : IoResult) (buffer : List ℕ)
    → length buffer < 2 ^ 32
    → sizes.header_size + sizes.payload_size ≤ length buffer
    → payload_only sizes buffer (length buffer)
      ≡ some (
          take sizes.payload_size (drop sizes.header_size buffer)
          ++ replicate (length buffer - sizes.payload_size) 0)
unfolding payload_only
payload_only_lem sizes buffer small fits =
    rw (move_front_lem buffer sizes.header_size n fits, payload_only)
      (ap₂ (λ at count. write_at (moved ++ drop n buffer) at (replicate count 0)) (sym sized) behind
        ∙ write_at-append moved (replicate (len - n) 0) (drop n buffer)
            (omega (arith, length-replicate {A = ℕ} (len - n) 0, length-drop n buffer))
        ∙ ap (λ tail. some (moved ++ (replicate (len - n) 0 ++ tail)))
            (drop_all (length (replicate (len - n) 0)) (drop n buffer)
              (omega (arith, length-replicate {A = ℕ} (len - n) 0, length-drop n buffer)))
        ∙ ap (λ tail. some (moved ++ tail)) (append-nil (replicate (len - n) 0)))
  where
    n : ℕ
    n = sizes.payload_size

    len : ℕ
    len = length buffer

    moved : List ℕ
    moved = take n (drop sizes.header_size buffer)

    sized : length moved ≡ n
    sized =
        length-take n (drop sizes.header_size buffer)
          (omega (arith, length-drop sizes.header_size buffer))

    behind : sub32 len n ≡ len - n
    behind = omega arith

-- The buffer after a data frame is unpacked and its payload moved to the front.
pub payload_only-unpacked :
    (front payload behind : List ℕ) (capacity : ℕ)
    → capacity < 2 ^ 32
    → length front + (length payload + length behind) ≤ capacity
    → payload_only
        (record { header_size = length front + length behind; payload_size = length payload })
        (front
          ++ (payload
              ++ (behind
                  ++ replicate (capacity - (length front + (length payload + length behind))) 0)))
        capacity
      ≡ some (drop (length behind) (payload ++ behind) ++ replicate (capacity - length payload) 0)
payload_only-unpacked front payload behind capacity small fits =
    ap (payload_only sizes whole) (sym whole_size)
    ∙ payload_only_lem sizes whole (omega (arith, whole_size)) (omega (arith, whole_size))
    ∙ ap₂ (λ (xs : List ℕ) k. some (xs ++ replicate (k - length payload) 0)) moved whole_size
  where
    sizes : IoResult
    sizes = record { header_size = length front + length behind; payload_size = length payload }

    zeros_behind : List ℕ
    zeros_behind = replicate (capacity - (length front + (length payload + length behind))) 0

    whole : List ℕ
    whole = front ++ (payload ++ (behind ++ zeros_behind))

    whole_size : length whole ≡ capacity
    whole_size = omega (
      arith,
      length-append front (payload ++ (behind ++ zeros_behind)),
      length-append payload (behind ++ zeros_behind),
      length-append behind zeros_behind,
      length-replicate {A = ℕ} (capacity - (length front + (length payload + length behind))) 0,
    )

    kept : List ℕ
    kept = drop (length behind) (payload ++ behind)

    kept_size : length kept ≡ length payload
    kept_size =
        omega (arith, length-drop (length behind) (payload ++ behind), length-append payload behind)

    moved : take (length payload) (drop (length front + length behind) whole) ≡ kept
    moved =
        ap (take (length payload))
          (drop-append_add front (payload ++ (behind ++ zeros_behind)) (length behind))
        ∙ ap (λ xs. take (length payload) (drop (length behind) xs))
            (sym (append_assoc payload behind zeros_behind))
        ∙ ap (take (length payload)) (
            drop-append_le (length behind) (payload ++ behind) zeros_behind
              (omega (arith, length-append payload behind)))
        ∙ ap (λ k. take k (kept ++ zeros_behind)) (sym kept_size)
        ∙ take-append kept zeros_behind

-- The sizes that a data frame is reported with.
abbrev pub reported : List ℕ → List ℕ → List ℕ → IoResult
reported front payload behind = record {
  header_size = length front + length behind;
  payload_size = length payload;
}

-- ===== src/Websocket/Packet/Unmask.antt =====
-- The unmasking loop of `_preprocess_received_data`.
use native.Mathlib.Decide.{dec_lt}
use vee.Base.{
  ℕ, zero, suc, ◌+◌, ◌%◌, ◌^◌, ◌≤◌, ◌<◌, ◌≡◌, refl, sym, ap, ap₂, ◌∙◌, none, some, arith, List, [],
  ◌∷◌, ◌++◌, append_assoc, bit_xor, length, length-append, length-set, get_or, get_elem?-of_lt,
  get_elem?-of_ge, get_elem?-append, set, set-append,
}
use vee.Base.Word.{u32, increment}
use vee.Base.Bits.{AreBytes, bit_xor-zero, bit_xor_twice}
use vee.Websocket.Packet.{unmask}

-- A payload with a key laid over it, from index `i` on: RFC 6455, section 5.3.
abbrev pub masked : List ℕ → ℕ → List ℕ → List ℕ
masked key i [] = []
masked key i (x ∷ xs) = bit_xor x (get_or key (i % 4) 0) ∷ masked key (i + 1) xs

pub length-masked : (key : List ℕ) (i : ℕ) (xs : List ℕ) → length (masked key i xs) ≡ length xs
length-masked key i [] = refl
length-masked key i (x ∷ xs) = ap suc (length-masked key (i + 1) xs)

-- One round of the loop at an index in range.
unmask_round :
    (key : List ℕ) (pos left i x : ℕ) (front rest : List ℕ)
    → length key ≡ 4
    → length front ≡ i + pos
    → i + pos + 1 < 2 ^ 32
    → unmask key pos (suc left) i (front ++ x ∷ rest)
      ≡ unmask key pos left (i + 1) (front ++ bit_xor x (get_or key (i % 4) 0) ∷ rest)
unfolding unmask
unmask_round key pos left i x front rest four at small = rw (
  get_elem?-of_lt key (i % 4) 0 (omega arith),
  index,
  get_elem?-append front rest x,
  index,
  set-append front rest x (bit_xor x (get_or key (i % 4) 0)),
  next,
  unmask,
)
  where
    index : u32 (i + pos) ≡ length front
    index = omega arith

    next : increment i ≡ i + 1
    next = omega arith

-- The loop lays the key over the bytes behind `payload_pos`, and leaves the others.
pub unmask_lem :
    (key : List ℕ) (pos i : ℕ) (front payload rest : List ℕ)
    → length key ≡ 4
    → length front ≡ i + pos
    → i + pos + length payload < 2 ^ 32
    → unmask key pos (length payload) i (front ++ (payload ++ rest))
      ≡ some (front ++ (masked key i payload ++ rest))
unmask_lem key pos i front [] rest four at small = unfold unmask in refl
unmask_lem key pos i front (x ∷ xs) rest four at small =
    unmask_round key pos (length xs) i x front (xs ++ rest) four at (omega arith)
    ∙ sym (ap (unmask key pos (length xs) (i + 1)) (append_assoc front (y ∷ []) (xs ++ rest)))
    ∙ unmask_lem key pos (i + 1) (front ++ y ∷ []) xs rest four
        (omega (arith, length-append front (y ∷ []))) (omega arith)
    ∙ ap some (append_assoc front (y ∷ []) (masked key (i + 1) xs ++ rest))
  where
    y : ℕ
    y = bit_xor x (get_or key (i % 4) 0)

-- A payload length beyond the end of the buffer makes the loop write outside it.
pub unmask_overrun :
    (key : List ℕ) (pos left i : ℕ) (buffer : List ℕ)
    → length key ≡ 4
    → length buffer < 2 ^ 32
    → i + pos ≤ length buffer
    → length buffer < i + pos + left
    → unmask key pos left i buffer ≡ none
unfolding unmask
unmask_overrun key pos zero i buffer four small start over = absurd (omega arith)
unmask_overrun key pos (suc left) i buffer four small start over =
    elim (dec_lt (i + pos) (length buffer)) [
      | yes inside ↦
          let here = u32 (i + pos) in
          let y = bit_xor (get_or buffer here 0) (get_or key (i % 4) 0) in
          rw
            (
              get_elem?-of_lt key (i % 4) 0 (omega arith),
              get_elem?-of_lt buffer here 0 (omega arith),
              unmask,
            )
            (unmask_overrun key pos left (increment i) (set buffer here y) four
              (omega (arith, length-set buffer here y)) (omega (arith, length-set buffer here y))
              (omega (arith, length-set buffer here y)))
      | no end ↦ rw (
        get_elem?-of_lt key (i % 4) 0 (omega arith),
        get_elem?-of_ge buffer (u32 (i + pos)) (omega arith),
        unmask,
      )
    ]

zero_key : (j : ℕ) → get_or {A = ℕ} (0 ∷ 0 ∷ 0 ∷ 0 ∷ []) j 0 ≡ 0
zero_key zero = refl
zero_key (suc zero) = refl
zero_key (suc (suc zero)) = refl
zero_key (suc (suc (suc zero))) = refl
zero_key (suc (suc (suc (suc j)))) = refl

get_or-byte : (key : List ℕ) (j : ℕ) → AreBytes key → get_or key j 0 < 256
get_or-byte [] j h = omega arith
get_or-byte (k ∷ key) zero h = h.0
get_or-byte (k ∷ key) (suc j) h = get_or-byte key j h.1

-- The key of zeros of an unmasked frame changes nothing.
pub masked-zero : (i : ℕ) (xs : List ℕ) → AreBytes xs → masked (0 ∷ 0 ∷ 0 ∷ 0 ∷ []) i xs ≡ xs
masked-zero i [] h = refl
masked-zero i (x ∷ xs) h =
    ap₂ ◌∷◌ (ap (bit_xor x) (zero_key (i % 4)) ∙ bit_xor-zero x h.0) (masked-zero (i + 1) xs h.1)

-- Masking twice with a key of bytes gives the payload back.
pub masked_twice :
    (key : List ℕ) (i : ℕ) (xs : List ℕ)
    → AreBytes key
    → AreBytes xs
    → masked key i (masked key i xs) ≡ xs
masked_twice key i [] hk h = refl
masked_twice key i (x ∷ xs) hk h =
    ap₂ ◌∷◌ (bit_xor_twice x (get_or key (i % 4) 0) h.0 (get_or-byte key (i % 4) hk))
      (masked_twice key (i + 1) xs hk h.1)

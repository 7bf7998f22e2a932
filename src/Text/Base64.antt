-- ===== src/Text/Base64.antt =====
-- libvee_master/voost/string/base64.cpp: `decode`, and `encode` of a string. The iterators of boost,
-- which turn bytes into digits and digits into bytes, are a parameter.
use vee.Base.{
  ℕ, zero, suc, ◌-◌, ◌%◌, ◌≡◌, refl, ap, ◌∙◌, Bool, true, false, ◌&&◌, List, [], ◌∷◌, ◌++◌, ◌==◌,
  if◌then◌else◌, length, replicate, arith,
}
use vee.Text.{Text}

-- `(3 - dst.size() % 3) % 3`
unfoldable pub pad_size : Text → ℕ
pad_size dst = (3 - length dst % 3) % 3

-- The digits of a string, and the bytes of a text of digits: `=` is the digit 0 to it, so the marks
-- behind the digits of a string come out as bytes 0.
pub record Base64 : Type 0 where
  pub digits : List ℕ → Text
  pub bytes : Text → List ℕ
  pub bytes-digits :
      (s : List ℕ) → bytes (digits s ++ replicate (pad_size s) b'=') ≡ s ++ replicate (pad_size s) 0

unfoldable pub all_nul : Text → Bool
all_nul [] = true
all_nul (c ∷ cs) = let rest = all_nul cs in c == 0 && rest

-- `trim_right_copy_if`, for the bytes 0.
unfoldable pub trim_nuls : Text → Text
unfolding all_nul
trim_nuls [] = []
trim_nuls (c ∷ cs) = let rest = trim_nuls cs in if all_nul (c ∷ cs) then [] else c ∷ rest

module _ (boost : Base64) where
  unfoldable pub decode : Text → Text
  unfolding trim_nuls
  decode dst = trim_nuls (boost.bytes dst)

  unfoldable pub encode_string : Text → Text
  unfolding pad_size
  encode_string dst = boost.digits dst ++ replicate (pad_size dst) b'='

all_nul-replicate : (n : ℕ) → all_nul (replicate n 0) ≡ true
unfolding all_nul
all_nul-replicate zero = refl
all_nul-replicate (suc n) = all_nul-replicate n

all_nul-append : (s : Text) (n : ℕ) → all_nul (s ++ replicate n 0) ≡ all_nul s
unfolding all_nul
all_nul-append [] n = all_nul-replicate n
all_nul-append (c ∷ cs) n = ap (λ rest. c == 0 && rest) (all_nul-append cs n)

trim_nuls-replicate : (n : ℕ) → trim_nuls (replicate n 0) ≡ []
unfolding trim_nuls
trim_nuls-replicate zero = refl
trim_nuls-replicate (suc n) = rw (all_nul-replicate n) refl

trim_nuls-append : (s : Text) (n : ℕ) → trim_nuls (s ++ replicate n 0) ≡ trim_nuls s
unfolding trim_nuls
trim_nuls-append [] n = trim_nuls-replicate n
trim_nuls-append (c ∷ cs) n = rw (all_nul-append cs n, trim_nuls-append cs n) refl

-- Trimmed, a text that ends in another byte than 0 is as it was.
all_nul-last : (s : Text) (c : ℕ) → (c == 0) ≡ false → all_nul (s ++ c ∷ []) ≡ false
unfolding all_nul
all_nul-last [] c h = rw h refl
all_nul-last (b ∷ bs) c h = rw (all_nul-last bs c h) (ground arith)

trim_nuls-last : (s : Text) (c : ℕ) → (c == 0) ≡ false → trim_nuls (s ++ c ∷ []) ≡ s ++ c ∷ []
unfolding trim_nuls all_nul
trim_nuls-last [] c h = rw h refl
trim_nuls-last (b ∷ bs) c h = rw (all_nul-last (b ∷ bs) c h, trim_nuls-last bs c h) refl

-- Encoded and decoded, a string loses the bytes 0 at its end, and nothing else.
decode-encode_string :
    (boost : Base64) (s : Text) → decode boost (encode_string boost s) ≡ trim_nuls s
unfolding decode encode_string
decode-encode_string boost s = ap trim_nuls (boost.bytes-digits s) ∙ trim_nuls-append s (pad_size s)

-- A string that ends in another byte than 0 is the same after it is encoded and decoded.
decode-encode_last :
    (boost : Base64) (s : Text) (c : ℕ)
    → (c == 0) ≡ false
    → decode boost (encode_string boost (s ++ c ∷ [])) ≡ s ++ c ∷ []
decode-encode_last boost s c h = decode-encode_string boost (s ++ c ∷ []) ∙ trim_nuls-last s c h

-- ===== src/Websocket/Endian.antt =====
-- Words in memory, and the byte order functions of boost that the frames use.
use vee.Base.{ℕ, ◌+◌, ◌*◌, ◌/◌, ◌%◌, ◌^◌, ◌<◌, ◌≡◌, List, [], ◌∷◌}

-- The bytes of a word in the memory of the target, an x86, and the word that is read from there.
abbrev pub store16 : ℕ → List ℕ
store16 w = w % 256 ∷ (w / 256 % 256) ∷ []

abbrev pub load16 : ℕ → ℕ → ℕ
load16 a b = a + b * 256

abbrev pub store64 : ℕ → List ℕ
store64 w =
    w % 256
    ∷ (w / 2 ^ 8 % 256)
    ∷ (w / 2 ^ 16 % 256)
    ∷ (w / 2 ^ 24 % 256)
    ∷ (w / 2 ^ 32 % 256)
    ∷ (w / 2 ^ 40 % 256)
    ∷ (w / 2 ^ 48 % 256)
    ∷ (w / 2 ^ 56 % 256)
    ∷ []

abbrev pub load64 : ℕ → ℕ → ℕ → ℕ → ℕ → ℕ → ℕ → ℕ → ℕ
load64 a b c d e f g h =
    a + b * 2 ^ 8 + c * 2 ^ 16 + d * 2 ^ 24 + e * 2 ^ 32 + f * 2 ^ 40 + g * 2 ^ 48 + h * 2 ^ 56

-- The same words with the most significant byte first.
abbrev pub big16 : ℕ → List ℕ
big16 w = (w / 256 % 256) ∷ w % 256 ∷ []

abbrev pub big64 : ℕ → List ℕ
big64 w =
    (w / 2 ^ 56 % 256)
    ∷ (w / 2 ^ 48 % 256)
    ∷ (w / 2 ^ 40 % 256)
    ∷ (w / 2 ^ 32 % 256)
    ∷ (w / 2 ^ 24 % 256)
    ∷ (w / 2 ^ 16 % 256)
    ∷ (w / 2 ^ 8 % 256)
    ∷ w % 256
    ∷ []

-- `boost::endian::native_to_big` and `big_to_native`, which the repository does not hold: a word
-- converted and stored has its most significant byte first, and the other way round.
pub record Endian : Type 0 where
  pub native_to_big16 : ℕ → ℕ
  pub native_to_big64 : ℕ → ℕ
  pub big_to_native16 : ℕ → ℕ
  pub big_to_native64 : ℕ → ℕ
  pub stored16 : (w : ℕ) → w < 2 ^ 16 → store16 (native_to_big16 w) ≡ big16 w
  pub stored64 : (w : ℕ) → w < 2 ^ 64 → store64 (native_to_big64 w) ≡ big64 w
  pub loaded16 : (a b : ℕ) → a < 256 → b < 256 → big_to_native16 (load16 a b) ≡ load16 b a
  pub loaded64 :
      (a b c d e f g h : ℕ)
      → (a < 256) × (b < 256) × (c < 256) × (d < 256)
      → (e < 256) × (f < 256) × (g < 256) × (h < 256)
      → big_to_native64 (load64 a b c d e f g h) ≡ load64 h g f e d c b a

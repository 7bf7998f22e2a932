-- ===== src/Websocket/Machine.antt =====
-- Where the tests run: the byte order functions of a little-endian machine, and a socket that
-- follows a script.
use vee.Base.{
  ℕ, zero, suc, ◌+◌, ◌*◌, ◌/◌, ◌%◌, ◌≤◌, ◌<◌, ◌≡◌, refl, ap, ap₂, true, false, Option, none, some,
  List, [], ◌∷◌, arith, length, take,
}
use vee.Websocket.Endian.{Endian, load64, store64}
use vee.Net.Socket.{Socket}

abbrev swap16 : ℕ → ℕ
swap16 w = w / 256 % 256 + (w % 256) * 256

-- The word of eight bytes, the most significant first.
abbrev from_big64 : List ℕ → ℕ
from_big64 (a ∷ b ∷ c ∷ d ∷ e ∷ f ∷ g ∷ h ∷ []) = load64 h g f e d c b a
from_big64 bytes = 0

abbrev swap64 : ℕ → ℕ
swap64 w = from_big64 (store64 w)

pub stored-loaded :
    (a b c d e f g h : ℕ)
    → (a < 256) × (b < 256) × (c < 256) × (d < 256)
    → (e < 256) × (f < 256) × (g < 256) × (h < 256)
    → store64 (load64 a b c d e f g h) ≡ a ∷ b ∷ c ∷ d ∷ e ∷ f ∷ g ∷ h ∷ []
stored-loaded a b c d e f g h lt lt' = ap₂ ◌∷◌ (omega (arith, lt, lt')) (
    ap₂ ◌∷◌ (omega (arith, lt, lt')) (
      ap₂ ◌∷◌ (omega (arith, lt, lt')) (
        ap₂ ◌∷◌ (omega (arith, lt, lt')) (
          ap₂ ◌∷◌ (omega (arith, lt, lt')) (
            ap₂ ◌∷◌ (omega (arith, lt, lt'))
              (ap₂ ◌∷◌ (omega (arith, lt, lt')) (ap₂ ◌∷◌ (omega (arith, lt, lt')) refl)))))))

abbrev pub little_endian : Endian
little_endian = record {
  native_to_big16 = swap16;
  native_to_big64 = swap64;
  big_to_native16 = swap16;
  big_to_native64 = swap64;
  stored16 = λ w h. ap₂ ◌∷◌ (omega arith) (ap₂ ◌∷◌ (omega arith) refl);
  stored64 = λ w h.
      stored-loaded _ _ _ _ _ _ _ _ (omega arith, omega arith, omega arith, omega arith)
        (omega arith, omega arith, omega arith, omega arith);
  loaded16 = λ a b ha hb. omega arith;
  loaded64 = λ a b c d e f g h lt lt'. ap from_big64 (stored-loaded a b c d e f g h lt lt');
}

-- "Hi", and the key 1 2 3 4.
abbrev pub hi : List ℕ
hi = 72 ∷ 105 ∷ []

abbrev pub key : List ℕ
key = 1 ∷ 2 ∷ 3 ∷ 4 ∷ []

-- What the peer sends, packet by packet. The socket takes all that is written, and fails to read
-- where the script has ended.
count_or : Option ℕ → ℕ
count_or none = 0
count_or (some n) = n

length_or : Option (List ℕ) → ℕ
length_or none = 0
length_or (some bytes) = length bytes

length-take_le : (n : ℕ) (bytes : List ℕ) → length (take n bytes) ≤ n
length-take_le zero bytes = omega arith
length-take_le (suc n) [] = omega arith
length-take_le (suc n) (b ∷ bytes) = omega (arith, length-take_le n bytes)

abbrev next : List (List ℕ) → ℕ → Option (List ℕ) × List (List ℕ)
next [] n = (none, [])
next (packet ∷ packets) n = (some (take n packet), packets)

pub next_bound :
    (s : List (List ℕ)) (n : ℕ) (bytes : List ℕ) → (next s n).0 ≡ some bytes → length bytes ≤ n
unfolding length_or
next_bound [] n bytes e = omega (arith, ap length_or e)
next_bound (packet ∷ packets) n bytes e = omega (arith, ap length_or e, length-take_le n packet)

pub written_bound : (s bytes : List ℕ) (n : ℕ) → some (length bytes) ≡ some n → n ≤ length bytes
unfolding count_or
written_bound s bytes n e = omega (arith, ap count_or e)

abbrev pub scripted : Socket
scripted = record {
  State = List (List ℕ);
  is_open = λ s. true;
  connects = λ s ep. (false, s);
  write_some = λ s bytes. (some (length bytes), s);
  read_some = next;
  closes = λ s. [];
  start_connect = λ s ep. s;
  start_write = λ s bytes. s;
  start_read = λ s n. s;
  write_bound = λ s bytes n e. written_bound [] bytes n e;
  read_bound = next_bound;
}

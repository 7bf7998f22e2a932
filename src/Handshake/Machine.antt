-- ===== src/Handshake/Machine.antt =====
-- A tokenizer and a codec to run the handshake with. The digest is a table of one key.
use vee.Base.{
  ℕ, suc, ◌+◌, ◌*◌, ◌/◌, ◌%◌, ◌≡◌, refl, ap, true, List, [], ◌∷◌, ◌++◌, arith, if◌then◌else◌,
  get_or,
}
use vee.Text.{Text, text}
use vee.Handshake.Lines.{Tokenizer, is_break, is_unbroken}
use vee.Handshake.Codec.{Codec, guid, sample_key, sample_words}
use vee.Handshake.Client.{same_text}

abbrev closed : Text × List Text → List Text
closed ([], lines) = lines
closed (c ∷ cs, lines) = (c ∷ cs) ∷ lines

abbrev put : ℕ → Text × List Text → Text × List Text
put c (line, lines) = (c ∷ line, lines)

-- The line that a text begins with, which may be empty, and the lines behind it.
abbrev split : Text → Text × List Text
split [] = ([], [])
split (c ∷ cs) = let rest = split cs in if is_break c then ([], closed rest) else put c rest

pub split-last : (s : Text) → is_unbroken s ≡ true → split s ≡ (s, [])
split-last [] h = refl
split-last (c ∷ cs) h = ground (arith, split-last cs (ground arith))

pub split-cut :
    (s : Text) (b : ℕ) (rest : Text)
    → is_unbroken s ≡ true
    → is_break b ≡ true
    → split (s ++ b ∷ rest) ≡ (s, closed (split rest))
split-cut [] b rest h e = ground arith
split-cut (c ∷ cs) b rest h e = ground (arith, split-cut cs b rest (ground arith) e)

pub split-break :
    (c : ℕ) (rest : Text) → is_break c ≡ true → closed (split (c ∷ rest)) ≡ closed (split rest)
split-break c rest e = ground arith

abbrev pub splitter : Tokenizer
splitter = record {
  lines = λ s. closed (split s);
  lines_nil = refl;
  lines_break = split-break;
  lines_last = λ c cs h. ap closed (split-last (c ∷ cs) h);
  lines_cut = λ c cs b rest h e. ap closed (split-cut (c ∷ cs) b rest h e);
}

abbrev alphabet : Text
alphabet = text "ABCDEFGHIJKLMNOPQRSTUVWXYZabcdefghijklmnopqrstuvwxyz0123456789+/"

abbrev digit : ℕ → ℕ
digit v = get_or alphabet v b'='

-- The digits of the first `n` bytes, three bytes at a time.
abbrev digits_of : List ℕ → ℕ → Text
digits_of (a ∷ b ∷ c ∷ rest) (suc (suc (suc n))) =
    digit (a / 4)
    ∷ digit (a % 4 * 16 + b / 16)
    ∷ digit (b % 16 * 4 + c / 64)
    ∷ digit (c % 64)
    ∷ digits_of rest n
digits_of (a ∷ b ∷ rest) (suc (suc n)) =
    digit (a / 4) ∷ digit (a % 4 * 16 + b / 16) ∷ digit (b % 16 * 4) ∷ []
digits_of (a ∷ rest) (suc n) = digit (a / 4) ∷ digit (a % 4 * 16) ∷ []
digits_of _ _ = []

pub table_digest :
    (if same_text (sample_key ++ guid) (sample_key ++ guid) then sample_words else [])
    ≡ sample_words
unfolding same_text
table_digest = refl

abbrev pub table : Codec
table = record {
  digest = λ s. if same_text s (sample_key ++ guid) then sample_words else [];
  digits = digits_of;
  digest_sample = table_digest;
  digits_sample = refl;
}

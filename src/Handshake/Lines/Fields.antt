-- ===== src/Handshake/Lines/Fields.antt =====
-- Lines `Name: value`: how they are told apart, and how a value comes back.
use vee.Base.{ℕ, ◌≡◌, refl, ap, ◌∙◌, true, false, List, [], ◌∷◌, ◌++◌, arith}
use vee.Text.{Text, contains}
use vee.Text.Search.{lacks, contains-split, c_str-lacks, lacks-append}
use vee.Text.Trim.{first_is_blank, last_is_blank}
use vee.Handshake.Lines.{Tokenizer, is_unbroken, has}

-- A text that mentions none of these keys.
abbrev pub IsQuiet : List Text → Text → Type 0
IsQuiet [] v = Unit
IsQuiet (key ∷ keys) v = (contains key v ≡ false) × IsQuiet keys v

-- A value that a header can carry: not empty, without blanks at its ends, line breaks and zeros,
-- and without the keys that the parser looks for.
pub record IsField (keys : List Text) (v : Text) : Type 0 where
  pub unbroken : is_unbroken v ≡ true
  pub no_zero : lacks 0 v ≡ true
  pub first : first_is_blank v ≡ false
  pub last : last_is_blank v ≡ false
  pub quiet : IsQuiet keys v

-- A key without the byte behind the name is in a line just when it is in the name, where the rest
-- is quiet.
pub has_field :
    (b p : ℕ) (ps name rest : Text)
    → lacks b (p ∷ ps) ≡ true
    → lacks 0 name ≡ true
    → lacks 0 (b ∷ rest) ≡ true
    → contains (p ∷ ps) rest ≡ false
    → has (p ∷ ps) (name ++ b ∷ rest) ≡ contains (p ∷ ps) name
unfolding has
has_field b p ps name rest absent hn hv quiet =
    ap (contains (p ∷ ps)) (c_str-lacks (name ++ b ∷ rest) clean)
    ∙ contains-split p ps name rest b absent
    ∙ ground (arith, quiet)
  where
    clean : lacks 0 (name ++ b ∷ rest) ≡ true
    clean = lacks-append 0 name (b ∷ rest) ∙ ground (arith, hn, hv)

-- Lines that the tokenizer leaves whole.
abbrev pub AreLines : List Text → Type 0
AreLines [] = Unit
AreLines ([] ∷ lines) = ⊥
AreLines ((c ∷ cs) ∷ lines) = (is_unbroken (c ∷ cs) ≡ true) × AreLines lines

-- A header: each line with its end, and an empty line.
abbrev pub joined : List Text → Text
joined [] = b'\r' ∷ b'\n' ∷ []
joined (line ∷ lines) = line ++ b'\r' ∷ b'\n' ∷ joined lines

pub lines-joined :
    (boost : Tokenizer) (lines : List Text) → AreLines lines → boost.lines (joined lines) ≡ lines
lines-joined boost [] h =
    boost.lines_break b'\r' (b'\n' ∷ []) refl ∙ boost.lines_break b'\n' [] refl ∙ boost.lines_nil
lines-joined boost ([] ∷ lines) h = absurd h
lines-joined boost ((c ∷ cs) ∷ lines) h =
    boost.lines_cut c cs b'\r' (b'\n' ∷ joined lines) h.0 refl
    ∙ ap (λ (ls : List Text). (c ∷ cs) ∷ ls)
        (boost.lines_break b'\n' (joined lines) refl ∙ lines-joined boost lines h.1)

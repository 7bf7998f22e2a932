-- ===== src/Handshake/Lines.antt =====
-- The lines of a header and their values: what the two `parse` functions share.
pub mod Fields
use vee.Base.{
  ℕ, ◌≡◌, ◌≢◌, Bool, true, false, not, ◌&&◌, ◌||◌, Option, none, some, List, [], ◌∷◌, ◌++◌, ◌==◌,
  if◌then◌else◌,
}
use vee.Text.{Text, c_str, contains, trim}

-- The separators of the program, `"\r\n"`.
abbrev pub is_break : ℕ → Bool
is_break c = c == b'\r' || c == b'\n'

abbrev pub is_unbroken : Text → Bool
is_unbroken [] = true
is_unbroken (c ∷ cs) = not (is_break c) && is_unbroken cs

-- `boost::tokenizer` with `char_separator("\r\n")`, which the repository does not hold: the
-- longest pieces of a text without separators, in their order, and no empty ones.
pub record Tokenizer : Type 0 where
  pub lines : Text → List Text
  pub lines_nil : lines [] ≡ []
  pub lines_break : (c : ℕ) (rest : Text) → is_break c ≡ true → lines (c ∷ rest) ≡ lines rest
  pub lines_last :
      (c : ℕ) (cs : Text) → is_unbroken (c ∷ cs) ≡ true → lines (c ∷ cs) ≡ (c ∷ cs) ∷ []
  pub lines_cut :
      (c : ℕ) (cs : Text) (b : ℕ) (rest : Text)
      → is_unbroken (c ∷ cs) ≡ true
      → is_break b ≡ true
      → lines ((c ∷ cs) ++ b ∷ rest) ≡ (c ∷ cs) ∷ lines rest

-- `strstr(it.data(), key)`
unfoldable pub has : Text → Text → Bool
unfolding c_str contains
has key line = contains key (c_str line)

-- The rest of a line behind its first colon.
unfoldable pub after_colon : Text → Option Text
after_colon [] = none
after_colon (c ∷ cs) = let rest = after_colon cs in if c == b':' then some cs else rest

-- `get_value`, and `set_value` on the field that had the text `dst`.
unfoldable pub get_value : Text → Option Text
unfolding after_colon trim
get_value line = elim (after_colon line) [ none ↦ none | some value ↦ some (trim value) ]

unfoldable pub set_value : Option Text → Text → Text
set_value none dst = dst
set_value (some value) dst = value

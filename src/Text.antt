-- ===== src/Text.antt =====
-- vee/string.h: texts, as the lists of their bytes, with the standard functions that the program
-- calls on them (`strlen`, `strstr`, `strupr`, `string::find`) as its library describes them.
pub mod Search
pub mod Trim
pub mod Find
pub mod Base64
pub mod Substring
mod Tests
use Prim.Native.Char.{code}
use Prim.Native.String.{String}
use vee.Base.{
  ℕ, zero, suc, ◌+◌, ◌-◌, ◌≤◌, Bool, true, false, not, ◌&&◌, ◌||◌, Option, none, some, List, [],
  ◌∷◌, map, ◌==◌, ltb, leb, if◌then◌else◌, length,
}
use vee.Base.Word.{sub32}

abbrev pub Text : Type 0
Text = List ℕ

-- The bytes of a text in ASCII.
abbrev pub text : String → Text
text String.[] = []
text (String.◌∷◌ c s) = code c ∷ text s

-- What a C function sees of a text: the bytes in front of the first 0.
unfoldable pub c_str : Text → Text
c_str [] = []
c_str (c ∷ cs) = let rest = c_str cs in if c == 0 then [] else c ∷ rest

-- `make_string`: none where no 0 ends the text in the memory that is given.
unfoldable pub make_string : List ℕ → Option Text
make_string [] = none
make_string (c ∷ cs) =
    let rest = make_string cs in
    if c == 0 then some [] else elim rest [ none ↦ none | some s ↦ some (c ∷ s) ]

unfoldable pub is_prefix : Text → Text → Bool
is_prefix [] s = true
is_prefix (p ∷ ps) [] = false
is_prefix (p ∷ ps) (c ∷ cs) = let rest = is_prefix ps cs in p == c && rest

-- The position at which a text is found first.
unfoldable pub find : Text → Text → Option ℕ
unfolding is_prefix
find pattern [] = if is_prefix pattern [] then some 0 else none
find pattern (c ∷ cs) =
    let rest = find pattern cs in
    if is_prefix pattern (c ∷ cs) then some 0 else elim rest [ none ↦ none | some n ↦ some (suc n) ]

-- `strstr(s, pattern) != nullptr`
unfoldable pub contains : Text → Text → Bool
unfolding is_prefix
contains pattern [] = is_prefix pattern []
contains pattern (c ∷ cs) = let rest = contains pattern cs in is_prefix pattern (c ∷ cs) || rest

-- `" \t\v\n"`
unfoldable pub is_blank : ℕ → Bool
is_blank c = c == b' ' || (c == 9 || (c == 11 || c == 10))

unfoldable pub all_blank : Text → Bool
unfolding is_blank
all_blank [] = true
all_blank (c ∷ cs) = let rest = all_blank cs in is_blank c && rest

unfoldable pub drop_blanks : Text → Text
unfolding is_blank
drop_blanks [] = []
drop_blanks (c ∷ cs) = let rest = drop_blanks cs in if is_blank c then rest else c ∷ cs

-- The text up to its last byte that is not blank.
unfoldable pub drop_last_blanks : Text → Text
unfolding all_blank
drop_last_blanks [] = []
drop_last_blanks (c ∷ cs) =
    let rest = drop_last_blanks cs in if all_blank (c ∷ cs) then [] else c ∷ rest

-- A text that is all blank is not trimmed.
unfoldable pub trim_left : Text → Text
unfolding all_blank drop_blanks
trim_left str = if all_blank str then str else drop_blanks str

unfoldable pub trim_right : Text → Text
unfolding all_blank drop_last_blanks
trim_right str = if all_blank str then str else drop_last_blanks str

unfoldable pub trim : Text → Text
unfolding trim_left trim_right
trim str = trim_left (trim_right str)

-- `strupr` of a byte
unfoldable pub to_upper : ℕ → ℕ
to_upper c = if leb b'a' c && leb c b'z' then c - 32 else c

abbrev pub not_found : ℕ
not_found = 0xffff_ffff

-- The distance back from the match to the start, as an `int` (a pattern of 32 bits), or
-- `not_found`. `none` is a text that does not fit its buffer of 512 bytes.
unfoldable pub find_case_insensitive : Text → Text → Option ℕ
unfolding c_str find to_upper
find_case_insensitive src substr =
    if ltb (length (c_str src)) 512 && ltb (length (c_str substr)) 512
    then (elim (find (map to_upper (c_str substr)) (map to_upper (c_str src))) [
      | none ↦ some not_found
      | some n ↦ some (sub32 0 n)
    ])
    else none

-- ===== src/Text/Substring.antt =====
-- vee/string.h: `my_equal` and `ci_find_substr`. `toupper` of a locale is a parameter.
use vee.Base.{
  ℕ, zero, suc, ◌^◌, ◌<◌, inl, inr, Option-cases, ◌≡◌, refl, ap, ◌∙◌, Bool, true, false, ◌&&◌,
  Option, none, some, [], ◌∷◌, map, ◌==◌, if◌then◌else◌, length, arith,
}
use vee.Base.Word.{u32}
use vee.Text.{Text, is_prefix, find, not_found}

module _ (toupper : ℕ → ℕ) where
  unfoldable pub my_equal : ℕ → ℕ → Bool
  my_equal ch1 ch2 = toupper ch1 == toupper ch2

  -- `std::search` at one position.
  unfoldable pub matches : Text → Text → Bool
  unfolding my_equal
  matches str1 [] = true
  matches [] (p ∷ ps) = false
  matches (c ∷ cs) (p ∷ ps) = let rest = matches cs ps in my_equal c p && rest

  -- `std::search`: the first position that matches, or the end.
  unfoldable pub search_from : Text → Text → ℕ
  unfolding matches
  search_from [] str2 = 0
  search_from (c ∷ cs) str2 =
      let rest = search_from cs str2 in if matches (c ∷ cs) str2 then 0 else suc rest

  -- The distance is an `int`, a pattern of 32 bits. A match at the end, which only an empty text
  -- has, is taken for none.
  unfoldable pub ci_find_substr : Text → Text → ℕ
  unfolding search_from
  ci_find_substr str1 str2 =
      let it = search_from str1 str2 in if it == length str1 then not_found else u32 it

  matches-is_prefix :
      (str1 str2 : Text) → matches str1 str2 ≡ is_prefix (map toupper str2) (map toupper str1)
  unfolding matches is_prefix my_equal
  matches-is_prefix str1 [] = refl
  matches-is_prefix [] (p ∷ ps) = refl
  matches-is_prefix (c ∷ cs) (p ∷ ps) =
      ap (λ rest. my_equal c p && rest) (matches-is_prefix cs ps) ∙ ground arith

  -- The position in a text, where the end stands for none.
  abbrev position : Text → Option ℕ → ℕ
  position str1 none = length str1
  position str1 (some n) = n

  search_from-find :
      (str1 str2 : Text)
      → search_from str1 str2 ≡ position str1 (find (map toupper str2) (map toupper str1))
  unfolding search_from find
  search_from-find [] [] = refl
  search_from-find [] (p ∷ ps) = refl
  search_from-find (c ∷ cs) str2 =
      ground (arith, matches-is_prefix (c ∷ cs) str2, search_from-find cs str2)

length-map : (f : ℕ → ℕ) (s : Text) → length (map f s) ≡ length s
length-map f [] = refl
length-map f (c ∷ cs) = ap suc (length-map f cs)

find_below : (p : ℕ) (ps s : Text) (n : ℕ) → find (p ∷ ps) s ≡ some n → n < length s
unfolding find is_prefix
find_below p ps [] n e = ground arith
find_below p ps (c ∷ cs) zero e = omega arith
find_below p ps (c ∷ cs) (suc n) e = ground (arith, find_below p ps cs n)

-- What is returned for a position.
abbrev int_of : Option ℕ → ℕ
int_of none = not_found
int_of (some n) = n

module _ (toupper : ℕ → ℕ) where
  -- `ci_find_substr` of a text that is not empty returns the position at which the second text
  -- stands first in it, both in capitals, and `not_found` where it does not.
  ci_find_substr_lem :
      (c : ℕ) (cs str2 : Text)
      → length (c ∷ cs) < 2 ^ 32
      → ci_find_substr toupper (c ∷ cs) str2
        ≡ int_of (find (map toupper str2) (map toupper (c ∷ cs)))
  unfolding ci_find_substr find is_prefix
  ci_find_substr_lem c cs [] short = rw (search_from-find toupper (c ∷ cs) []) (ground arith)
  ci_find_substr_lem c cs (p ∷ ps) short =
      elim (Option-cases (find (map toupper (p ∷ ps)) (map toupper (c ∷ cs)))) [
        | inl e ↦ rw (search_from-find toupper (c ∷ cs) (p ∷ ps), e) (ground arith)
        | inr (n, e) ↦
            let below = find_below (toupper p) (map toupper ps) (map toupper (c ∷ cs)) n e in
            rw (search_from-find toupper (c ∷ cs) (p ∷ ps), e)
              (ground (arith, below, length-map toupper (c ∷ cs)))
      ]

-- ===== src/Text/Find.antt =====
-- Where a text is found, and what `find_case_insensitive` returns.
use vee.Base.{
  ℕ, zero, suc, ◌<◌, ◌≡◌, ◌⊎◌, inl, inr, true, false, none, some, Option-cases, [], ◌∷◌, map, arith,
  length,
}
use vee.Base.Word.{sub32}
use vee.Text.{Text, c_str, is_prefix, find, contains, to_upper, find_case_insensitive, not_found}

-- A pattern stands in a text at a position, and at no position before it.
abbrev pub IsFirstAt : Text → Text → ℕ → Type 0
IsFirstAt pattern s zero = is_prefix pattern s ≡ true
IsFirstAt pattern [] (suc n) = ⊥
IsFirstAt pattern (c ∷ cs) (suc n) = (is_prefix pattern (c ∷ cs) ≡ false) × IsFirstAt pattern cs n

find-contains : (pattern s : Text) → find pattern s ≡ none → contains pattern s ≡ false
unfolding find contains
find-contains pattern [] e = ground arith
find-contains pattern (c ∷ cs) e = ground (arith, find-contains pattern cs)

find-IsFirstAt : (pattern s : Text) (n : ℕ) → find pattern s ≡ some n → IsFirstAt pattern s n
unfolding find
find-IsFirstAt pattern [] zero e = ground arith
find-IsFirstAt pattern [] (suc n) e = ground arith
find-IsFirstAt pattern (c ∷ cs) zero e = ground arith
find-IsFirstAt pattern (c ∷ cs) (suc n) e = ground (arith, find-IsFirstAt pattern cs n)

-- `strupr` of what C sees of a text.
abbrev pub upper : Text → Text
upper s = map to_upper (c_str s)

-- In two texts that fit the buffers, `find_case_insensitive` returns `not_found` where the second
-- stands nowhere in the first, both in capitals, and the negated position of its first occurrence
-- otherwise.
pub find_case_insensitive_lem :
    (src substr : Text)
    → length (c_str src) < 512
    → length (c_str substr) < 512
    → ((contains (upper substr) (upper src) ≡ false)
        × (find_case_insensitive src substr ≡ some not_found))
      ⊎ ((n : ℕ) × (IsFirstAt (upper substr) (upper src) n
            × (find_case_insensitive src substr ≡ some (sub32 0 n))))
unfolding find_case_insensitive
find_case_insensitive_lem src substr short small =
    elim (Option-cases (find (upper substr) (upper src))) [
      | inl e ↦ inl (find-contains (upper substr) (upper src) e, ground arith)
      | inr (n, e) ↦ inr (n, (find-IsFirstAt (upper substr) (upper src) n e, ground arith))
    ]

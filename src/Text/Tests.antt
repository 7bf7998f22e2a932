-- ===== src/Text/Tests.antt =====
-- Texts at work.
use vee.Base.{
  ℕ, zero, suc, ◌+◌, ◌-◌, ◌≡◌, ◌⊎◌, refl, ap, ◌∙◌, false, some, List, [], ◌∷◌, ◌++◌, map, replicate,
  arith,
}
use vee.Base.Word.{sub32}
use vee.Text.{text, c_str, contains, trim, to_upper, find_case_insensitive, not_found}
use vee.Text.Base64.{Base64, all_nul, pad_size, trim_nuls, decode, encode_string}
use vee.Text.Substring.{my_equal, matches, search_from, ci_find_substr}
use vee.Text.Find.{IsFirstAt, upper, find_case_insensitive_lem}

trim_test : trim (text "\t ab c \n") ≡ text "ab c"
unfolding trim
trim_test = refl

-- A word at the second byte is not told apart from a word that is absent.
find_test :
    (find_case_insensitive (text "xwebsocket") (text "Websocket") ≡ some not_found)
    × (find_case_insensitive (text "socket") (text "Websocket") ≡ some not_found)
unfolding find_case_insensitive
find_test = (refl, refl)

find_case_insensitive_lem_example :
    ((contains (upper (text "Upgrade")) (upper (text "keep-alive, upgrade")) ≡ false)
      × (find_case_insensitive (text "keep-alive, upgrade") (text "Upgrade") ≡ some not_found))
    ⊎ ((n : ℕ) × (IsFirstAt (upper (text "Upgrade")) (upper (text "keep-alive, upgrade")) n
          × (find_case_insensitive (text "keep-alive, upgrade") (text "Upgrade")
              ≡ some (sub32 0 n))))
unfolding c_str
find_case_insensitive_lem_example =
    find_case_insensitive_lem (text "keep-alive, upgrade") (text "Upgrade") (omega arith)
      (omega arith)

-- Digits that are numbers above the code of `=`.
bytes-digits_shifted :
    (s : List ℕ) (n : ℕ)
    → map (λ c. c - 62) (map (λ c. c + 62) s ++ replicate n b'=') ≡ s ++ replicate n 0
bytes-digits_shifted [] zero = refl
bytes-digits_shifted [] (suc n) = ap (λ rest. 0 ∷ rest) (bytes-digits_shifted [] n)
bytes-digits_shifted (c ∷ cs) n =
    ap (λ b. b ∷ map (λ c. c - 62) (map (λ c. c + 62) cs ++ replicate n b'=')) (omega arith)
    ∙ ap (λ rest. c ∷ rest) (bytes-digits_shifted cs n)

abbrev shifted : Base64
shifted = record {
  digits = map (λ c. c + 62);
  bytes = map (λ c. c - 62);
  bytes-digits = λ s. bytes-digits_shifted s (pad_size s);
}

-- The bytes 0 at the end are lost.
decode_test : decode shifted (encode_string shifted (7 ∷ 0 ∷ 8 ∷ 0 ∷ [])) ≡ 7 ∷ 0 ∷ 8 ∷ []
unfolding decode encode_string trim_nuls all_nul pad_size
decode_test = refl

-- Two empty texts: the match is the end.
ci_find_substr_test :
    (ci_find_substr to_upper (text "ab cD") (text "Cd") ≡ 3)
    × (ci_find_substr to_upper [] [] ≡ not_found)
unfolding ci_find_substr search_from matches my_equal to_upper
ci_find_substr_test = (refl, refl)

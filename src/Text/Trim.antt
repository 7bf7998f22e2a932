-- ===== src/Text/Trim.antt =====
-- `trim` takes off the blanks around a text.
use vee.Base.{
  ℕ, ◌≡◌, refl, ap, ◌∙◌, inl, inr, append_assoc, Bool, Bool-cases, true, false, [], ◌∷◌, ◌++◌,
  arith,
}
use vee.Text.{Text, is_blank, all_blank, drop_blanks, drop_last_blanks, trim_left, trim_right, trim}

abbrev pub first_is_blank : Text → Bool
first_is_blank [] = true
first_is_blank (c ∷ cs) = is_blank c

abbrev pub last_is_blank : Text → Bool
last_is_blank [] = true
last_is_blank (c ∷ []) = is_blank c
last_is_blank (c ∷ d ∷ cs) = last_is_blank (d ∷ cs)

all_blank-last : (s : Text) → last_is_blank s ≡ false → all_blank s ≡ false
unfolding all_blank
all_blank-last [] h = absurd (ground arith)
all_blank-last (c ∷ []) h = ground arith
all_blank-last (c ∷ d ∷ cs) h = ground (arith, all_blank-last (d ∷ cs) h)

drop_last_blanks-last : (s : Text) → last_is_blank s ≡ false → drop_last_blanks s ≡ s
unfolding drop_last_blanks
drop_last_blanks-last [] h = refl
drop_last_blanks-last (c ∷ []) h = ground arith
drop_last_blanks-last (c ∷ d ∷ cs) h =
    ground (arith, all_blank-last (d ∷ cs) h, drop_last_blanks-last (d ∷ cs) h)

trim_right-last : (s : Text) → last_is_blank s ≡ false → trim_right s ≡ s
unfolding trim_right
trim_right-last s h = rw (all_blank-last s h, trim_right) (drop_last_blanks-last s h)

-- A blank in front of a text with none at its ends is taken off.
pub trim_value :
    (v : Text) → first_is_blank v ≡ false → last_is_blank v ≡ false → trim (b' ' ∷ v) ≡ v
unfolding trim trim_left drop_blanks all_blank
trim_value [] f l = absurd (ground arith)
trim_value (c ∷ cs) f l = ap trim_left (trim_right-last (b' ' ∷ c ∷ cs) l) ∙ ground arith

drop_blanks_lem :
    (s : Text)
    → all_blank s ≡ false
    → (front : Text) × ((all_blank front ≡ true)
        × ((s ≡ front ++ drop_blanks s) × (first_is_blank (drop_blanks s) ≡ false)))
unfolding all_blank drop_blanks
drop_blanks_lem [] h = absurd (ground arith)
drop_blanks_lem (c ∷ cs) h = elim (Bool-cases (is_blank c)) [
  | inl e ↦
      let (front, (blank, (whole, first))) = drop_blanks_lem cs (ground arith) in
      (c ∷ front, (ground arith, (ground arith, ground arith)))
  | inr e ↦ ([], (refl, (ground arith, ground arith)))
]

drop_last_blanks_nil : (s : Text) → all_blank s ≡ true → drop_last_blanks s ≡ []
unfolding drop_last_blanks
drop_last_blanks_nil [] h = refl
drop_last_blanks_nil (c ∷ cs) h = ground arith

last_is_blank_cons :
    (c : ℕ) (s : Text) → all_blank s ≡ false → last_is_blank (c ∷ s) ≡ last_is_blank s
unfolding all_blank
last_is_blank_cons c [] h = absurd (ground arith)
last_is_blank_cons c (d ∷ s) h = refl

drop_last_blanks_lem :
    (s : Text)
    → all_blank s ≡ false
    → (back : Text) × ((all_blank back ≡ true)
        × ((s ≡ drop_last_blanks s ++ back)
            × ((last_is_blank (drop_last_blanks s) ≡ false)
                × (all_blank (drop_last_blanks s) ≡ false))))
unfolding all_blank drop_last_blanks
drop_last_blanks_lem [] h = absurd (ground arith)
drop_last_blanks_lem (c ∷ cs) h = elim (Bool-cases (all_blank cs)) [
  | inl e ↦ (
    cs,
    (
      e,
      (
        ground (arith, drop_last_blanks_nil cs e),
        (ground (arith, drop_last_blanks_nil cs e), ground (arith, drop_last_blanks_nil cs e)),
      ),
    ),
  )
  | inr e ↦
      let (back, (blank, (whole, (last, some_text)))) = drop_last_blanks_lem cs e in
      (
        back,
        (
          blank,
          (
            ground (arith, whole),
            (
              ground (arith, last, last_is_blank_cons c (drop_last_blanks cs) some_text),
              ground (arith, some_text),
            ),
          ),
        ),
      )
]

drop_blanks-last :
    (s : Text) → all_blank s ≡ false → last_is_blank (drop_blanks s) ≡ last_is_blank s
unfolding drop_blanks all_blank
drop_blanks-last [] h = refl
drop_blanks-last (c ∷ cs) h = elim (Bool-cases (is_blank c)) [
  | inl e ↦
      ground (arith, drop_blanks-last cs (ground arith), last_is_blank_cons c cs (ground arith))
  | inr e ↦ ground arith
]

-- A text with a byte that is not blank is what `trim` makes of it between blanks, and that has no
-- blank at its ends.
pub trim_lem :
    (s : Text)
    → all_blank s ≡ false
    → (front : Text) × ((back : Text) × ((all_blank front ≡ true)
          × ((all_blank back ≡ true)
              × ((s ≡ front ++ (trim s ++ back))
                  × ((first_is_blank (trim s) ≡ false) × (last_is_blank (trim s) ≡ false))))))
unfolding trim trim_left trim_right
trim_lem s h =
    let (back, (back_blank, (whole, (last, some_text)))) = drop_last_blanks_lem s h in
    let (front, (front_blank, (rest, first))) = drop_blanks_lem (drop_last_blanks s) some_text in
    rw (h, some_text)
      (
        front,
        (
          back,
          (
            front_blank,
            (
              back_blank,
              (
                whole ∙ ap (λ (t : Text). t ++ back) rest ∙ append_assoc front _ back,
                (first, drop_blanks-last (drop_last_blanks s) some_text ∙ last),
              ),
            ),
          ),
        ),
      )

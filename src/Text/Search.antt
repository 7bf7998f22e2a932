-- ===== src/Text/Search.antt =====
-- Searching a text that is put together from two.
use vee.Base.{ℕ, ◌≡◌, refl, Bool, true, false, not, ◌&&◌, ◌||◌, [], ◌∷◌, ◌++◌, arith, ◌==◌, some}
use vee.Text.{Text, c_str, make_string, is_prefix, contains}

-- A test holds of every byte, or of some.
abbrev pub every : (ℕ → Bool) → Text → Bool
every test [] = true
every test (c ∷ cs) = test c && every test cs

abbrev pub lacks : ℕ → Text → Bool
lacks b [] = true
lacks b (c ∷ cs) = not (c == b) && lacks b cs

is_prefix-split :
    (pattern s v : Text) (b : ℕ)
    → lacks b pattern ≡ true
    → is_prefix pattern (s ++ b ∷ v) ≡ is_prefix pattern s
unfolding is_prefix
is_prefix-split [] s v b h = refl
is_prefix-split (p ∷ ps) [] v b h = ground arith
is_prefix-split (p ∷ ps) (c ∷ cs) v b h = ground (arith, is_prefix-split ps cs v b)

-- A pattern that lacks a byte is found on one side of it.
pub contains-split :
    (p : ℕ) (ps s v : Text) (b : ℕ)
    → lacks b (p ∷ ps) ≡ true
    → contains (p ∷ ps) (s ++ b ∷ v) ≡ (contains (p ∷ ps) s || contains (p ∷ ps) v)
unfolding contains is_prefix
contains-split p ps [] v b h = ground arith
contains-split p ps (c ∷ cs) v b h =
    ground (arith, is_prefix-split (p ∷ ps) (c ∷ cs) v b, contains-split p ps cs v b)

is_prefix-every :
    (test : ℕ → Bool) (pattern s : Text)
    → every test s ≡ true
    → every test pattern ≡ false
    → is_prefix pattern s ≡ false
unfolding is_prefix
is_prefix-every test [] s h e = absurd (ground arith)
is_prefix-every test (p ∷ ps) [] h e = refl
is_prefix-every test (p ∷ ps) (c ∷ cs) h e = ground (arith, is_prefix-every test ps cs)

-- A pattern with a byte that fails a test is in no text whose bytes all pass it.
pub contains-every :
    (test : ℕ → Bool) (pattern s : Text)
    → every test s ≡ true
    → every test pattern ≡ false
    → contains pattern s ≡ false
unfolding contains
contains-every test pattern [] h e = is_prefix-every test pattern [] h e
contains-every test pattern (c ∷ cs) h e =
    ground (arith, is_prefix-every test pattern (c ∷ cs), contains-every test pattern cs)

pub c_str-lacks : (s : Text) → lacks 0 s ≡ true → c_str s ≡ s
unfolding c_str
c_str-lacks [] h = refl
c_str-lacks (c ∷ cs) h = ground (arith, c_str-lacks cs)

pub make_string-lacks : (s rest : Text) → lacks 0 s ≡ true → make_string (s ++ 0 ∷ rest) ≡ some s
unfolding make_string
make_string-lacks [] rest h = refl
make_string-lacks (c ∷ cs) rest h = ground (arith, make_string-lacks cs rest)

pub lacks-append : (b : ℕ) (s v : Text) → lacks b (s ++ v) ≡ (lacks b s && lacks b v)
lacks-append b [] v = refl
lacks-append b (c ∷ cs) v = ground (arith, lacks-append b cs v)

-- ===== src/Handshake/Sendable.antt =====
-- The request that `connect` sends, and the response to it, can be sent: their fields are values
-- that a header can carry, for every port, and they fit the buffers of the two sides.
use vee.Base.{
  some, ℕ, zero, suc, ◌+◌, ◌/◌, ◌%◌, ◌≤◌, ◌<◌, ◌≡◌, refl, ◌∙◌, Bool, true, false, not, ◌&&◌, ◌||◌,
  List, [], ◌∷◌, ◌++◌, arith, leb, length, length-append,
}
use vee.Text.{Text, text, contains, is_blank}
use vee.Text.Search.{every, lacks, contains-every, lacks-append}
use vee.Text.Trim.{first_is_blank, last_is_blank}
use vee.Handshake.Lines.{is_break, is_unbroken}
use vee.Handshake.Lines.Fields.{IsQuiet, IsField}
use vee.Handshake.Codec.{sample_accept}
use vee.Handshake.Request
use vee.Handshake.Request.{Request}
use vee.Handshake.Request.Keys.{keys}
use vee.Handshake.Request.RoundTrip as RequestTrip
use vee.Handshake.Response
use vee.Handshake.Response.RoundTrip as ResponseTrip
use vee.Handshake.Client.{digits_before, decimal, request}

-- Digits, small letters, and `./:`.
abbrev pub plain : ℕ → Bool
plain c = leb 46 c && leb c 58 || leb b'a' c && leb c b'z'

abbrev pub all_odd : List Text → Bool
all_odd [] = true
all_odd (key ∷ keys) = not (every plain key) && all_odd keys

IsQuiet-plain :
    (keys : List Text) (v : Text) → every plain v ≡ true → all_odd keys ≡ true → IsQuiet keys v
IsQuiet-plain [] v h odd = tt
IsQuiet-plain (key ∷ keys) v h odd =
    (contains-every plain key v h (ground arith), IsQuiet-plain keys v h (ground arith))

plain-is_break : (c : ℕ) → plain c ≡ true → is_break c ≡ false
plain-is_break c h = ground arith

plain-is_blank : (c : ℕ) → plain c ≡ true → is_blank c ≡ false
unfolding is_blank
plain-is_blank c h = ground arith

plain-is_unbroken : (v : Text) → every plain v ≡ true → is_unbroken v ≡ true
plain-is_unbroken [] h = refl
plain-is_unbroken (c ∷ cs) h =
    ground (arith, plain-is_break c (ground arith), plain-is_unbroken cs (ground arith))

plain-lacks : (v : Text) → every plain v ≡ true → lacks 0 v ≡ true
plain-lacks [] h = refl
plain-lacks (c ∷ cs) h = ground (arith, plain-lacks cs (ground arith))

plain-last : (c : ℕ) (cs : Text) → every plain (c ∷ cs) ≡ true → last_is_blank (c ∷ cs) ≡ false
plain-last c [] h = plain-is_blank c (ground arith)
plain-last c (d ∷ cs) h = plain-last d cs (ground arith)

IsField-plain : (c : ℕ) (cs : Text) → every plain (c ∷ cs) ≡ true → IsField keys (c ∷ cs)
IsField-plain c cs h = record {
  unbroken = plain-is_unbroken (c ∷ cs) h;
  no_zero = plain-lacks (c ∷ cs) h;
  first = plain-is_blank c (ground arith);
  last = plain-last c cs h;
  quiet = IsQuiet-plain keys (c ∷ cs) h refl;
}

-- The test of a field.
abbrev is_quiet : List Text → Text → Bool
is_quiet [] v = true
is_quiet (key ∷ keys) v = not (contains key v) && is_quiet keys v

abbrev is_field : List Text → Text → Bool
is_field keys v =
    is_unbroken v
    && (lacks 0 v && (not (first_is_blank v) && (not (last_is_blank v) && is_quiet keys v)))

IsQuiet-test : (keys : List Text) (v : Text) → is_quiet keys v ≡ true → IsQuiet keys v
IsQuiet-test [] v h = tt
IsQuiet-test (key ∷ keys) v h = (ground arith, IsQuiet-test keys v (ground arith))

IsField-test : (keys : List Text) (v : Text) → is_field keys v ≡ true → IsField keys v
IsField-test keys v h = record {
  unbroken = ground arith;
  no_zero = ground arith;
  first = ground arith;
  last = ground arith;
  quiet = IsQuiet-test keys v (ground arith);
}

every-append : (test : ℕ → Bool) (s v : Text) → every test (s ++ v) ≡ (every test s && every test v)
every-append test [] v = refl
every-append test (c ∷ cs) v = ground (arith, every-append test cs v)

digits_before-every :
    (fuel n : ℕ) (rest : Text)
    → every plain rest ≡ true
    → every plain (digits_before fuel n rest) ≡ true
unfolding digits_before
digits_before-every zero n rest h = h
digits_before-every (suc fuel) n rest h =
    ground
      (arith, digits_before-every fuel (n / 10) ((b'0' + n % 10) ∷ rest) (ground (arith, digit)))
  where
    digit : plain (b'0' + n % 10) ≡ true
    digit = ground arith

digits_before-length :
    (fuel n : ℕ) (rest : Text) → length (digits_before fuel n rest) ≤ fuel + length rest
unfolding digits_before
digits_before-length zero n rest = omega arith
digits_before-length (suc fuel) n rest =
    ground (arith, digits_before-length fuel (n / 10) ((b'0' + n % 10) ∷ rest))

decimal-every : (n : ℕ) → every plain (decimal n) ≡ true
unfolding decimal
decimal-every n = digits_before-every 5 n [] refl

decimal-length : (n : ℕ) → length (decimal n) ≤ 5
unfolding decimal
decimal-length n = digits_before-length 5 n []

-- The request for any port can be sent.
pub request-IsSendable : (port : ℕ) → RequestTrip.IsSendable (request port)
unfolding request contains is_blank
request-IsSendable port = record {
  uri_unbroken = refl;
  uri_no_zero = refl;
  uri_get = refl;
  host_field =
      IsField-plain b'1' (text "27.0.0.1:" ++ decimal port) (
        every-append plain (text "127.0.0.1:") (decimal port) ∙ ground (arith, decimal-every port));
  upgrade_field = IsField-plain b'w' (text "ebsocket") refl;
  connection_field = IsField-test _ _ refl;
  key_field = IsField-test _ _ refl;
  origin_field = IsField-plain b'h' (text "ttp://127.0.0.1" ++ decimal port) (
      every-append plain (text "http://127.0.0.1") (decimal port)
      ∙ ground (arith, decimal-every port));
  protocol_field = IsField-test _ _ refl;
  version_field = IsField-plain b'1' (text "3") refl;
}

-- The response with the accept key of the sample can be sent.
pub response-IsSendable : ResponseTrip.IsSendable (Response.init sample_accept)
unfolding contains is_blank
response-IsSendable = record {
  status_unbroken = refl;
  status_no_zero = refl;
  status_101 = refl;
  upgrade_field = IsField-test _ _ refl;
  connection_field = IsField-test _ _ refl;
  accept_field = IsField-test _ _ refl;
}

-- What is sent has no zero inside, and it is shorter than the buffer of the server.
pub request-lacks : (port : ℕ) → lacks 0 (Request.binary_pack (request port)) ≡ true
unfolding request Request.binary_pack
request-lacks port =
    ground (arith, lacks-append 0 (decimal port) _, plain-lacks (decimal port) (decimal-every port))

pub request-fits : (port : ℕ) → length (Request.binary_pack (request port)) < 4096
unfolding request Request.binary_pack
request-fits port = omega (
  arith,
  length-append (decimal port) _,
  length-append (decimal port)
      (text "\r\nSec-WebSocket-Protocol: char, superchat\r\nSec-WebSocket-Version: 13\r\n\r\n"),
  decimal-length port,
)

pub response-lacks : lacks 0 (Response.binary_pack (Response.init sample_accept)) ≡ true
unfolding Response.binary_pack
response-lacks = refl

pub response-fits : length (Response.binary_pack (Response.init sample_accept)) < 512
unfolding Response.binary_pack
response-fits = omega arith

-- The request passes the test of the server.
pub request-is_valid : (port : ℕ) → Request.is_valid (request port) ≡ some true
unfolding request Request.is_valid
request-is_valid port = refl

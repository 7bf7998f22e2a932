-- ===== src/Handshake/Codec.antt =====
-- The digest of a key: `sha1_hashing` of libvee_master/voost/string/utilites.cpp, and
-- `base64::encode` of a vector of libvee_master/voost/string/base64.cpp. SHA-1 and the base64
-- iterators are boost's.
use vee.Base.{
  ℕ, ap, ◌-◌, ◌/◌, ◌%◌, ◌^◌, ◌≡◌, List, [], ◌∷◌, ◌++◌, ◌==◌, if◌then◌else◌, length, replicate,
}
use vee.Text.{Text, text}

-- `RFC4122_GUID::get`
abbrev pub guid : Text
guid = text "258EAFA5-E914-47DA-95CA-C5AB0DC85B11"

-- The sample of RFC 6455, section 1.3: a key, its digest in words and in bytes, and the text of it.
abbrev pub sample_key : Text
sample_key = text "dGhlIHNhbXBsZSBub25jZQ=="

abbrev pub sample_words : List ℕ
sample_words = 0xb37a4f2c ∷ 0xc0624f16 ∷ 0x90f64606 ∷ 0xcf385945 ∷ 0xb2bec4ea ∷ []

abbrev pub sample_bytes : List ℕ
sample_bytes =
    0xb3 ∷ 0x7a ∷ 0x4f ∷ 0x2c ∷ 0xc0 ∷ 0x62 ∷ 0x4f ∷ 0x16 ∷ 0x90 ∷ 0xf6 ∷ 0x46 ∷ 0x06 ∷ 0xcf ∷ 0x38
    ∷ 0x59 ∷ 0x45 ∷ 0xb2 ∷ 0xbe ∷ 0xc4 ∷ 0xea ∷ []

abbrev pub sample_accept : Text
sample_accept = text "s3pPLMBiTxaQ9kYGzzhZRbK+xOo="

-- The five words of a SHA-1 digest, and the base64 digits of the first bytes of a buffer: their
-- number is given, and the buffer goes on behind them. The laws are the published sample.
pub record Codec : Type 0 where
  pub digest : Text → List ℕ
  pub digits : List ℕ → ℕ → Text
  pub digest_sample : digest (sample_key ++ guid) ≡ sample_words
  pub digits_sample : digits (sample_bytes ++ 0 ∷ []) 20 ≡ text "s3pPLMBiTxaQ9kYGzzhZRbK+xOo"

-- `hash[i * 4] = tmp[i * 4 + 3]` and so on, where `tmp` is the word in the memory of an x86.
unfoldable pub hash_bytes : List ℕ → List ℕ
hash_bytes [] = []
hash_bytes (w ∷ words) =
    (w / 2 ^ 24 % 256) ∷ (w / 2 ^ 16 % 256) ∷ (w / 2 ^ 8 % 256) ∷ (w % 256) ∷ hash_bytes words

module _ (boost : Codec) where
  unfoldable pub sha1_hashing : Text → List ℕ
  unfolding hash_bytes
  sha1_hashing dst = hash_bytes (boost.digest dst)

  -- `encode` of a vector: padded with zeros, and then with `=`.
  unfoldable pub padding : List ℕ → ℕ
  padding bytes = if length bytes % 3 == 0 then 0 else 3 - length bytes % 3

  unfoldable pub encode : List ℕ → Text
  unfolding padding
  encode bytes =
      boost.digits (bytes ++ replicate (padding bytes) 0) (length bytes)
      ++ replicate (padding bytes) b'='

  -- The accept key of a request's key.
  unfoldable pub accept_key : Text → Text
  unfolding sha1_hashing encode
  accept_key key = encode (sha1_hashing (key ++ guid))

-- The key of the sample gives the accept key of the sample.
pub accept_key-sample : (boost : Codec) → accept_key boost sample_key ≡ sample_accept
unfolding accept_key sha1_hashing encode padding hash_bytes
accept_key-sample boost =
    rw (boost.digest_sample, accept_key) (ap (λ (d : Text). d ++ b'=' ∷ []) boost.digits_sample)

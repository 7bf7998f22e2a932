-- ===== src/Handshake/Checked.antt =====
-- What the client does with a response: it goes on just where the accept key is the one that it
-- waits for.
use vee.Base.{
  ℕ, ◌<◌, ◌≡◌, ◌≢◌, ◌⊎◌, refl, ap, ap₂, ◌∙◌, Bool, Bool-cases, inl, inr, true, false, some, List,
  [], ◌∷◌, arith, ==→eq, if◌then◌else◌, length,
}
use vee.System.{rfc6455_handshake_failure, Outcome, returns, throws}
use vee.Text.{Text}
use vee.Text.Search.{lacks}
use vee.Net.Socket.{Socket, Endpoint}
use vee.Net.Tcp
use vee.Net.Receive.{filled, make_string-filled, receives, write_all_lem}
use vee.Handshake.Lines.{Tokenizer}
use vee.Handshake.Codec.{sample_accept}
use vee.Handshake.Request
use vee.Handshake.Response
use vee.Handshake.Client.{request, same_text, check_response, conclude, await, ask, connect}

same_text_refl : (s : Text) → same_text s s ≡ true
unfolding same_text
same_text_refl [] = refl
same_text_refl (c ∷ cs) = ground (arith, same_text_refl cs)

same_text→eq : (s t : Text) → same_text s t ≡ true → s ≡ t
unfolding same_text
same_text→eq [] [] h = refl
same_text→eq [] (d ∷ ds) h = absurd (ground arith)
same_text→eq (c ∷ cs) [] h = absurd (ground arith)
same_text→eq (c ∷ cs) (d ∷ ds) h =
    ap₂ (◌∷◌) (==→eq c d (ground arith)) (same_text→eq cs ds (ground arith))

-- The accept key in a response.
abbrev pub parsed_key : Tokenizer → List ℕ → Text
parsed_key boost bytes = (Response.parse boost (Response.init []) bytes).sec_websocket_accept

module _ (boost : Tokenizer) (socket : Socket) where
  open socket use {State, connects, write_some, read_some}

  pub connect-received :
      (s s1 s2 s3 : State) (ep : Endpoint) (buffer bytes : List ℕ) (n : ℕ)
      → length buffer ≡ 512
      → connects s ep ≡ (false, s1)
      → write_some s1 (Request.binary_pack (request ep.port)) ≡ (some n, s2)
      → read_some s2 512 ≡ (some bytes, s3)
      → connect boost socket s ep buffer ≡ (check_response boost socket (filled bytes 512), s3)
  unfolding connect Tcp.connect Tcp.connected ask await conclude Tcp.counted
  connect-received s s1 s2 s3 ep buffer bytes n sized joined taken got =
      ap (λ r. ask boost socket pack buffer (Tcp.connected socket r)) joined
      ∙ ap (await boost socket buffer) (write_all_lem socket s1 s2 pack (some n) taken)
      ∙ ap (conclude boost socket)
          (receives socket s2 s3 buffer bytes 512 sized got (omega arith)).1
    where
      pack : Text
      pack = Request.binary_pack (request ep.port)

  -- A response of fewer than 512 bytes, none of them zero, that is read after a connection and a
  -- write: `connect` returns where its accept key is the one of the sample, and throws
  -- `rfc6455_handshake_failure` where it is another. Its other fields make no difference.
  pub connect-checked :
      (s s1 s2 s3 : State) (ep : Endpoint) (buffer bytes : List ℕ) (n : ℕ)
      → length buffer ≡ 512
      → connects s ep ≡ (false, s1)
      → write_some s1 (Request.binary_pack (request ep.port)) ≡ (some n, s2)
      → read_some s2 512 ≡ (some bytes, s3)
      → lacks 0 bytes ≡ true
      → length bytes < 512
      → ((parsed_key boost bytes ≡ sample_accept)
          × (connect boost socket s ep buffer ≡ (returns tt, s3)))
        ⊎ ((parsed_key boost bytes ≢ sample_accept)
            × (connect boost socket s ep buffer ≡ (throws rfc6455_handshake_failure, s3)))
  unfolding check_response
  connect-checked s s1 s2 s3 ep buffer bytes n sized joined taken got clean short =
      elim (Bool-cases (same_text key sample_accept)) [
        | inl e ↦ inl (same_text→eq key sample_accept e, received ∙ ap tested e)
        | inr e ↦ inr (differ e, received ∙ ap tested e)
      ]
    where
      key : Text
      key = parsed_key boost bytes

      differ : same_text key sample_accept ≡ false → key ≢ sample_accept
      differ e same =
          ground (arith, e, ap (λ k. same_text k sample_accept) same, same_text_refl sample_accept)

      tested : Bool → Outcome (Unit {0}) × State
      tested b = (if b then returns tt else throws rfc6455_handshake_failure, s3)

      received : connect boost socket s ep buffer ≡ tested (same_text key sample_accept)
      received =
          connect-received s s1 s2 s3 ep buffer bytes n sized joined taken got
          ∙ ap (λ r. (r, s3)) (rw (make_string-filled bytes 512 clean short, check_response) refl)

-- ===== src/Handshake/Complete.antt =====
-- The two sides of a handshake together: what each does with what the other sends.
use vee.Base.{ℕ, ◌≡◌, refl, sym, ap, ◌∙◌, false, some, List, [], arith, length}
use vee.System.{returns}
use vee.Text.{Text}
use vee.Net.Socket.{Socket, Endpoint}
use vee.Net.Tcp
use vee.Net.Receive.{filled, make_string-filled, receives, write_all_lem}
use vee.Handshake.Lines.{Tokenizer}
use vee.Handshake.Codec.{Codec, sample_accept, accept_key-sample}
use vee.Handshake.Request
use vee.Handshake.Request.{Request, is_valid}
use vee.Handshake.Request.RoundTrip.{parse-binary_pack}
use vee.Handshake.Response
use vee.Handshake.Response.RoundTrip.{response_parse-binary_pack}
use vee.Handshake.Sendable.{
  request-IsSendable, response-IsSendable, request-lacks, request-fits, response-lacks,
  response-fits, request-is_valid,
}
use vee.Handshake.Server.{
  response_data, validate, answer, finish, reply, process, handshake, admit, accept,
}
use vee.Handshake.Checked.{connect-received}
use vee.Handshake.Client.{request, check_response, connect}

-- The response that the client waits for.
abbrev pub expected : Text
expected = Response.binary_pack (Response.init sample_accept)

answer-request :
    (boost : Tokenizer) (codec : Codec) (port : ℕ)
    → answer boost codec (filled (Request.binary_pack (request port)) 4096)
      ≡ returns (some expected)
unfolding answer validate response_data request
answer-request boost codec port =
    rw
      (
        make_string-filled (Request.binary_pack (request port)) 4096 (request-lacks port)
            (request-fits port),
        answer,
      )
      (ap (validate boost codec)
          (parse-binary_pack boost (request port) Request.init (request-IsSendable port))
        ∙ rw (request-is_valid port, validate)
            (ap (λ key. returns (some (Response.binary_pack (Response.init key))))
              (accept_key-sample codec)))

check-expected :
    (boost : Tokenizer) (socket : Socket)
    → check_response boost socket (filled expected 512) ≡ returns tt
unfolding check_response
check-expected boost socket =
    rw
      (
        make_string-filled expected 512 response-lacks response-fits,
        response_parse-binary_pack boost (Response.init sample_accept) (Response.init [])
            response-IsSendable,
        check_response,
      )
      refl

module _ (boost : Tokenizer) (codec : Codec) (socket : Socket) where
  open socket use {State, write_some, read_some, connects}

  accept-request :
      (s s1 s2 : State) (buffer : List ℕ) (port n : ℕ)
      → length buffer ≡ 4096
      → read_some s 4096 ≡ (some (Request.binary_pack (request port)), s1)
      → write_some s1 expected ≡ (some n, s2)
      → accept boost codec socket s buffer ≡ (returns tt, s2)
  unfolding accept handshake process reply finish Tcp.counted admit
  accept-request s s1 s2 buffer port n sized got taken =
      ap (λ r. admit boost codec socket (process boost codec socket r))
        (receives socket s s1 buffer (Request.binary_pack (request port)) 4096 sized got
          (omega arith)).1
      ∙ ap (λ r. admit boost codec socket (reply boost codec socket r s1))
          (answer-request boost codec port)
      ∙ ap (λ r. admit boost codec socket (finish boost codec socket r))
          (write_all_lem socket s1 s2 expected (some n) taken)

  connect-response :
      (s s1 s2 s3 : State) (ep : Endpoint) (buffer : List ℕ) (n : ℕ)
      → length buffer ≡ 512
      → connects s ep ≡ (false, s1)
      → write_some s1 (Request.binary_pack (request ep.port)) ≡ (some n, s2)
      → read_some s2 512 ≡ (some expected, s3)
      → connect boost socket s ep buffer ≡ (returns tt, s3)
  connect-response s s1 s2 s3 ep buffer n sized joined taken got =
      connect-received boost socket s s1 s2 s3 ep buffer expected n sized joined taken got
      ∙ ap (λ r. (r, s3)) (check-expected boost socket)

  -- The handshake of this program's client with its own server succeeds on both sides, for every
  -- port: where the client is connected and the server's read gives the bytes that the client
  -- writes, `accept` answers with a response, and where the client's read gives the bytes of
  -- that response, `connect` returns too. The counts of bytes that the two writes are told to
  -- have taken make no difference.
  pub accept-connect :
      (s s1 s2 c c1 c2 c3 : State) (ep : Endpoint) (arrived waiting : List ℕ) (m n : ℕ)
      → length arrived ≡ 4096
      → length waiting ≡ 512
      → connects c ep ≡ (false, c1)
      → write_some c1 (Request.binary_pack (request ep.port)) ≡ (some m, c2)
      → read_some s 4096 ≡ (some (Request.binary_pack (request ep.port)), s1)
      → write_some s1 (response_data codec (request ep.port).sec_websocket_key) ≡ (some n, s2)
      → read_some c2 512 ≡ (some (response_data codec (request ep.port).sec_websocket_key), c3)
      → (accept boost codec socket s arrived ≡ (returns tt, s2))
        × (connect boost socket c ep waiting ≡ (returns tt, c3))
  unfolding response_data request
  accept-connect s s1 s2 c c1 c2 c3 ep arrived waiting m n sized ready joined sent came answered
        got =
      (
        accept-request s s1 s2 arrived ep.port n sized came
            (ap (λ bytes. write_some s1 bytes) (sym same) ∙ answered),
        connect-response c c1 c2 c3 ep waiting m ready joined sent
            (got ∙ ap (λ bytes. (some bytes, c3)) same),
      )
    where
      same : response_data codec (request ep.port).sec_websocket_key ≡ expected
      same = ap (λ key. Response.binary_pack (Response.init key)) (accept_key-sample codec)

-- ===== src/Handshake/Client.antt =====
-- `xwebsocket_stream::connect` of libvee_master/voost/net/xwebsocket_stream_impl.cpp.
use vee.Base.{
  ℕ, zero, suc, ◌+◌, ◌/◌, ◌%◌, Bool, true, false, ◌&&◌, none, some, List, [], ◌∷◌, ◌++◌, ◌==◌,
  if◌then◌else◌, length,
}
use vee.System.{rfc6455_handshake_failure, Outcome, returns, throws, undefined}
use vee.Text.{Text, text, make_string}
use vee.Net.Socket.{Socket, Endpoint}
use vee.Net.Tcp
use vee.Handshake.Lines.{Tokenizer}
use vee.Handshake.Codec.{sample_key, sample_accept}
use vee.Handshake.Request
use vee.Handshake.Request.{Request}
use vee.Handshake.Response

-- The digits in front of a text; the number of them is bounded by the fuel.
unfoldable pub digits_before : ℕ → ℕ → Text → Text
digits_before zero n rest = rest
digits_before (suc fuel) n rest =
    let longer = digits_before fuel (n / 10) ((b'0' + n % 10) ∷ rest) in
    if n / 10 == 0 then (b'0' + n % 10) ∷ rest else longer

-- `sprintf("%d")` of a number of 16 bits, which has at most five digits.
unfoldable pub decimal : ℕ → Text
unfolding digits_before
decimal n = digits_before 5 n []

-- The request for a port.
unfoldable pub request : ℕ → Request
unfolding decimal
request port = record {
  request_uri = text "GET /chat HTTP/1.1";
  host = text "127.0.0.1:" ++ decimal port;
  upgrade = text "websocket";
  connection = text "Upgrade";
  origin = text "http://127.0.0.1" ++ decimal port;
  sec_websocket_key = sample_key;
  sec_websocket_protocol = text "char, superchat";
  sec_web_socket_version = text "13";
}

unfoldable pub same_text : Text → Text → Bool
same_text [] [] = true
same_text (c ∷ cs) (d ∷ ds) = let rest = same_text cs ds in c == d && rest
same_text _ _ = false

module _ (boost : Tokenizer) (socket : Socket) where
  open socket use {State}

  -- `response.parse`, and the test of its accept key.
  unfoldable pub check_response : List ℕ → Outcome (Unit {0})
  unfolding make_string same_text
  check_response buffer = elim (make_string buffer) [
    | none ↦ undefined
    | some bytes ↦
        let response = Response.parse boost (Response.init []) bytes in
        if same_text response.sec_websocket_accept sample_accept
        then returns tt
        else throws rfc6455_handshake_failure
  ]

  -- Behind the read of the response, behind the write of the request, and behind the connection.
  unfoldable pub conclude : Outcome ℕ × List ℕ × State → Outcome (Unit {0}) × State
  unfolding check_response
  conclude (returns n, buffer, s) = (check_response buffer, s)
  conclude (throws e, buffer, s) = (throws e, s)
  conclude (undefined, buffer, s) = (undefined, s)

  unfoldable pub await : List ℕ → Outcome ℕ × State → Outcome (Unit {0}) × State
  unfolding conclude
  await buffer (returns n, s) = conclude (Tcp.read socket s buffer 512)
  await buffer (throws e, s) = (throws e, s)
  await buffer (undefined, s) = (undefined, s)

  unfoldable pub ask : Text → List ℕ → Outcome (Unit {0}) × State → Outcome (Unit {0}) × State
  unfolding await
  ask pack buffer (returns u, s) = await buffer (Tcp.write socket s pack (length pack))
  ask pack buffer (throws e, s) = (throws e, s)
  ask pack buffer (undefined, s) = (undefined, s)

  -- `connect`, with what its array of 512 bytes holds at first.
  unfoldable pub connect : State → Endpoint → List ℕ → Outcome (Unit {0}) × State
  unfolding ask request
  connect s ep buffer = ask (Request.binary_pack (request ep.port)) buffer (Tcp.connect socket s ep)

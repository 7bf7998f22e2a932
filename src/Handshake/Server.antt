-- ===== src/Handshake/Server.antt =====
-- `xwebsocket_server` of libvee_master/voost/net/xwebsocket_stream_impl.cpp: `_handshake` on an
-- accepted socket, `accept`, and the handler of `async_accept`. What is printed is left out.
use vee.Base.{ℕ, Bool, true, false, Option, none, some, List, [], ◌∷◌, length}
use vee.System.{
  success, rfc6455_handshake_failure, OperationResult, Outcome, returns, throws, undefined,
}
use vee.Text.{Text, make_string}
use vee.Net.Socket.{Socket}
use vee.Net.Tcp
use vee.Handshake.Lines.{Tokenizer}
use vee.Handshake.Codec.{Codec, accept_key}
use vee.Handshake.Request
use vee.Handshake.Request.{Request, is_valid}
use vee.Handshake.Response

-- What is sent to the client.
unfoldable pub response_data : Codec → Text → Text
response_data codec key = Response.binary_pack (Response.init (accept_key codec key))

module _ (boost : Tokenizer) (codec : Codec) where
  -- What a header is answered: none where the handshake is refused. Undefined is a field that
  -- does not fit the test of it.
  unfoldable pub validate : Request → Outcome (Option Text)
  unfolding response_data
  validate header = elim (is_valid header) [
    | none ↦ undefined
    | some false ↦ returns none
    | some true ↦ returns (some (response_data codec header.sec_websocket_key))
  ]

  -- What a request in the buffer is answered. Undefined is a buffer without a zero.
  unfoldable pub answer : List ℕ → Outcome (Option Text)
  unfolding make_string validate
  answer buffer = elim (make_string buffer) [
    | none ↦ undefined
    | some bytes ↦ validate (Request.parse boost Request.init bytes)
  ]

  module _ (socket : Socket) where
    open socket use {State}

    -- Behind the write of the response; an exception is caught.
    unfoldable pub finish : Outcome ℕ × State → Outcome Bool × State
    finish (returns n, s) = (returns true, s)
    finish (throws e, s) = (returns false, s)
    finish (undefined, s) = (undefined, s)

    -- Behind the answer to the request.
    unfoldable pub reply : Outcome (Option Text) → State → Outcome Bool × State
    unfolding finish
    reply (returns none) s = (returns false, s)
    reply (returns (some bytes)) s = finish (Tcp.write socket s bytes (length bytes))
    reply (throws e) s = (returns false, s)
    reply undefined s = (undefined, s)

    -- Behind the read of the request; an exception is caught.
    unfoldable pub process : Outcome ℕ × List ℕ × State → Outcome Bool × State
    unfolding answer reply
    process (returns n, buffer, s) = reply (answer buffer) s
    process (throws e, buffer, s) = (returns false, s)
    process (undefined, buffer, s) = (undefined, s)

    -- `_handshake`, with what its array of 4096 bytes holds at first.
    unfoldable pub handshake : State → List ℕ → Outcome Bool × State
    unfolding process
    handshake s buffer = process (Tcp.read socket s buffer 4096)

    -- `accept` behind the accepted connection: the stream, or an exception.
    unfoldable pub admit : Outcome Bool × State → Outcome (Unit {0}) × State
    admit (returns true, s) = (returns tt, s)
    admit (returns false, s) = (throws rfc6455_handshake_failure, s)
    admit (throws e, s) = (throws e, s)
    admit (undefined, s) = (undefined, s)

    unfoldable pub accept : State → List ℕ → Outcome (Unit {0}) × State
    unfolding handshake admit
    accept s buffer = admit (handshake s buffer)

    -- Behind the handshake of `async_accept`: what the callback is called with. After a refused
    -- handshake it is not called.
    unfoldable pub report :
        OperationResult → Outcome Bool × State → Outcome (List (OperationResult × Option State))
    report result (returns true, s) = returns ((result, some s) ∷ [])
    report result (returns false, s) = returns []
    report result (throws e, s) = throws e
    report result (undefined, s) = undefined

    unfoldable pub serve :
        OperationResult → Option State → List ℕ → Outcome (List (OperationResult × Option State))
    unfolding handshake report
    serve result none buffer = undefined
    serve result (some s) buffer = report result (handshake s buffer)

    -- `handle_accept`: the first test is `result.error != error_code::success`.
    unfoldable pub on_accept :
        List ℕ → OperationResult → Option State → Outcome (List (OperationResult × Option State))
    unfolding serve
    on_accept buffer result stream = elim result.error [
      | success ↦ serve result stream buffer
      | _ ↦ returns ((result, stream) ∷ [])
    ]

    -- A connection, or an error, that `async_accept` has waited for.
    unfoldable pub async_accept :
        State → List ℕ → Bool → Outcome (List (OperationResult × Option State))
    unfolding on_accept
    async_accept s buffer error = Tcp.handle_accept (on_accept buffer) s error

-- ===== src/Handshake/Tests.antt =====
-- The handshake at work, at a scripted socket whose reads give the packets of a list.
use vee.Base.{ℕ, ◌≡◌, ◌≢◌, ◌⊎◌, refl, List, [], ◌∷◌, arith, length, replicate}
use vee.System.{rfc6455_handshake_failure, returns, throws}
use vee.Text.{Text, text}
use vee.Websocket.Machine.{scripted}
use vee.Handshake.Machine.{splitter, table}
use vee.Handshake.Codec.{accept_key, sample_accept}
use vee.Handshake.Request
use vee.Handshake.Request.{Request}
use vee.Handshake.Request.RoundTrip.{parse-binary_pack}
use vee.Handshake.Response
use vee.Handshake.Sendable.{request-IsSendable}
use vee.Handshake.Server.{response_data, accept}
use vee.Handshake.Client.{request, same_text, connect}
use vee.Handshake.Checked.{parsed_key, connect-checked}
use vee.Handshake.Complete.{accept-connect}

-- The request as bytes.
request_test :
    Request.binary_pack (request 1992)
    ≡ text
        "GET /chat HTTP/1.1\r\nHost: 127.0.0.1:1992\r\nUpgrade: websocket\r\nConnection: Upgrade\r\nSec-WebSocket-Key: dGhlIHNhbXBsZSBub25jZQ==\r\nOrigin: http://127.0.0.11992\r\nSec-WebSocket-Protocol: char, superchat\r\nSec-WebSocket-Version: 13\r\n\r\n"
unfolding Request.binary_pack request
request_test = refl

parse-binary_pack_example :
    Request.parse splitter (request 7) (Request.binary_pack (request 1992)) ≡ request 1992
parse-binary_pack_example =
    parse-binary_pack splitter (request 1992) (request 7) (request-IsSendable 1992)

abbrev arrived : List ℕ
arrived = replicate 4096 0xcd

abbrev waiting : List ℕ
waiting = replicate 512 0xcd

abbrev sent : List ℕ
sent = Request.binary_pack (request 1992)

abbrev answered : List ℕ
answered = response_data table (request 1992).sec_websocket_key

accept-connect_example :
    (accept splitter table scripted (sent ∷ []) arrived ≡ (returns tt, []))
    × (connect splitter scripted (answered ∷ []) (record { ip_addr = []; port = 1992 }) waiting
        ≡ (returns tt, []))
unfolding request Request.binary_pack response_data Response.binary_pack accept_key same_text
accept-connect_example =
    accept-connect splitter table scripted (sent ∷ []) [] [] (answered ∷ []) (answered ∷ [])
      (answered ∷ []) [] (record { ip_addr = []; port = 1992 }) arrived waiting (length sent)
      (length answered) refl refl refl refl refl refl refl

-- A request of HTTP/1.0.
abbrev old_request : Text
old_request = text "GET / HTTP/1.0\r\nHost: localhost\r\n\r\n"

-- A response with another key.
abbrev other_response : Text
other_response = text "HTTP/1.1 101 Switching Protocols\r\nSec-WebSocket-Accept: AAAA\r\n\r\n"

connect-checked_example :
    ((parsed_key splitter other_response ≡ sample_accept)
      × (connect splitter scripted
            (other_response ∷ [])
            (record { ip_addr = []; port = 1992 })
            waiting
          ≡ (returns tt, [])))
    ⊎ ((parsed_key splitter other_response ≢ sample_accept)
        × (connect splitter scripted
              (other_response ∷ [])
              (record { ip_addr = []; port = 1992 })
              waiting
            ≡ (throws rfc6455_handshake_failure, [])))
connect-checked_example =
    connect-checked splitter scripted (other_response ∷ []) (other_response ∷ [])
      (other_response ∷ []) [] (record { ip_addr = []; port = 1992 }) waiting other_response
      (length sent) refl refl refl refl refl (omega arith)

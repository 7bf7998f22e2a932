-- ===== src/Handshake/Request/RoundTrip.antt =====
-- A packed request is parsed back.
use vee.Base.{◌≡◌, refl, ap, ◌∙◌, true, List, [], ◌∷◌, ◌++◌, arith}
use vee.Text.{Text, text, contains}
use vee.Text.Search.{lacks, c_str-lacks}
use vee.Handshake.Lines.{Tokenizer, is_unbroken, has}
use vee.Handshake.Lines.Fields.{IsField, AreLines, lines-joined}
use vee.Handshake.Request.{Request, parse_line, parse_lines, parse, binary_pack}
use vee.Handshake.Request.Keys.{
  keys, host_line, upgrade_line, connection_line, origin_line, sec_websocket_key_line,
  sec_websocket_protocol_line, sec_web_socket_version_line,
}

-- A request that can be sent: the first line asks for something with GET, on one line, and each
-- other field is a value.
pub record IsSendable (r : Request) : Type 0 where
  pub uri_unbroken : is_unbroken r.request_uri ≡ true
  pub uri_no_zero : lacks 0 r.request_uri ≡ true
  pub uri_get : contains (text "GET") r.request_uri ≡ true
  pub host_field : IsField keys r.host
  pub upgrade_field : IsField keys r.upgrade
  pub connection_field : IsField keys r.connection
  pub key_field : IsField keys r.sec_websocket_key
  pub origin_field : IsField keys r.origin
  pub protocol_field : IsField keys r.sec_websocket_protocol
  pub version_field : IsField keys r.sec_web_socket_version

uri_line :
    (r : Request) (line : Text)
    → lacks 0 line ≡ true
    → contains (text "GET") line ≡ true
    → parse_line r line ≡ record r { request_uri = line }
unfolding parse_line has
uri_line r line clean get = rw (c_str-lacks line clean, get, parse_line) refl

-- The lines of a packed request.
abbrev packed : Request → List Text
packed r =
    r.request_uri
    ∷ (text "Host: " ++ r.host)
    ∷ (text "Upgrade: " ++ r.upgrade)
    ∷ (text "Connection: " ++ r.connection)
    ∷ (text "Sec-WebSocket-Key: " ++ r.sec_websocket_key)
    ∷ (text "Origin: " ++ r.origin)
    ∷ (text "Sec-WebSocket-Protocol: " ++ r.sec_websocket_protocol)
    ∷ (text "Sec-WebSocket-Version: " ++ r.sec_web_socket_version)
    ∷ []

AreLines-uri :
    (uri : Text) (lines : List Text)
    → is_unbroken uri ≡ true
    → contains (text "GET") uri ≡ true
    → AreLines lines
    → AreLines (uri ∷ lines)
unfolding contains
AreLines-uri [] lines h get rest = absurd (ground arith)
AreLines-uri (c ∷ cs) lines h get rest = (h, rest)

AreLines-packed : (r : Request) → IsSendable r → AreLines (packed r)
AreLines-packed r s = AreLines-uri r.request_uri _ s.uri_unbroken s.uri_get (
  s.host_field.unbroken,
  (
    s.upgrade_field.unbroken,
    (
      s.connection_field.unbroken,
      (
        s.key_field.unbroken,
        (s.origin_field.unbroken, (s.protocol_field.unbroken, (s.version_field.unbroken, tt))),
      ),
    ),
  ),
)

parse_lines-packed : (r old : Request) → IsSendable r → parse_lines old (packed r) ≡ r
unfolding parse_lines
parse_lines-packed r old s =
    rw
      (
        uri_line old r.request_uri s.uri_no_zero s.uri_get,
        host_line _ r.host s.host_field,
        upgrade_line _ r.upgrade s.upgrade_field,
        connection_line _ r.connection s.connection_field,
        sec_websocket_key_line _ r.sec_websocket_key s.key_field,
        origin_line _ r.origin s.origin_field,
        sec_websocket_protocol_line _ r.sec_websocket_protocol s.protocol_field,
        sec_web_socket_version_line _ r.sec_web_socket_version s.version_field,
        parse_lines,
      )
      refl

-- `parse` of what `binary_pack` makes of a request that can be sent gives that request back,
-- whatever the object held before.
pub parse-binary_pack :
    (boost : Tokenizer) (r old : Request) → IsSendable r → parse boost old (binary_pack r) ≡ r
unfolding parse binary_pack
parse-binary_pack boost r old s =
    ap (parse_lines old) (lines-joined boost (packed r) (AreLines-packed r s))
    ∙ parse_lines-packed r old s

-- ===== src/Handshake/Request/Keys.antt =====
-- What `parse` does with each line of a packed request.
use vee.Base.{◌≡◌, refl, ap, List, [], ◌∷◌, ◌++◌}
use vee.Text.{Text, text}
use vee.Handshake.Lines.{get_value, set_value}
use vee.Text.Trim.{trim_value}
use vee.Handshake.Lines.Fields.{IsField, has_field}
use vee.Handshake.Request.{Request, parse_line}

-- The keys in the order of the tests.
abbrev pub keys : List Text
keys =
    text "GET"
    ∷ text "Host:"
    ∷ text "Upgrade:"
    ∷ text "Connection:"
    ∷ text "Sec-WebSocket-Key:"
    ∷ text "Origin:"
    ∷ text "Sec-WebSocket-Protocol:"
    ∷ text "Sec-WebSocket-Version:"
    ∷ []

pub host_line :
    (r : Request) (v : Text)
    → IsField keys v
    → parse_line r (text "Host: " ++ v) ≡ record r { host = v }
unfolding parse_line set_value get_value
host_line r v f =
    rw (has_field b' ' b'G' (text "ET") (text "Host:") v refl refl f.no_zero f.quiet.0, parse_line)
      (ap (λ value. record r { host = value }) (trim_value v f.first f.last))

pub upgrade_line :
    (r : Request) (v : Text)
    → IsField keys v
    → parse_line r (text "Upgrade: " ++ v) ≡ record r { upgrade = v }
unfolding parse_line set_value get_value
upgrade_line r v f =
    rw
      (
        has_field b' ' b'G' (text "ET") (text "Upgrade:") v refl refl f.no_zero f.quiet.0,
        has_field b' ' b'H' (text "ost:") (text "Upgrade:") v refl refl f.no_zero f.quiet.1.0,
        parse_line,
      )
      (ap (λ value. record r { upgrade = value }) (trim_value v f.first f.last))

pub connection_line :
    (r : Request) (v : Text)
    → IsField keys v
    → parse_line r (text "Connection: " ++ v) ≡ record r { connection = v }
unfolding parse_line set_value get_value
connection_line r v f =
    rw
      (
        has_field b' ' b'G' (text "ET") (text "Connection:") v refl refl f.no_zero f.quiet.0,
        has_field b' ' b'H' (text "ost:") (text "Connection:") v refl refl f.no_zero f.quiet.1.0,
        has_field b' ' b'U' (text "pgrade:") (text "Connection:") v refl refl f.no_zero
            f.quiet.1.1.0,
        parse_line,
      )
      (ap (λ value. record r { connection = value }) (trim_value v f.first f.last))

pub sec_websocket_key_line :
    (r : Request) (v : Text)
    → IsField keys v
    → parse_line r (text "Sec-WebSocket-Key: " ++ v) ≡ record r { sec_websocket_key = v }
unfolding parse_line set_value get_value
sec_websocket_key_line r v f =
    rw
      (
        has_field b' ' b'G' (text "ET") (text "Sec-WebSocket-Key:") v refl refl f.no_zero f.quiet.0,
        has_field b' ' b'H' (text "ost:") (text "Sec-WebSocket-Key:") v refl refl f.no_zero
            f.quiet.1.0,
        has_field b' ' b'U' (text "pgrade:") (text "Sec-WebSocket-Key:") v refl refl f.no_zero
            f.quiet.1.1.0,
        has_field b' ' b'C' (text "onnection:") (text "Sec-WebSocket-Key:") v refl refl f.no_zero
            f.quiet.1.1.1.0,
        parse_line,
      )
      (ap (λ value. record r { sec_websocket_key = value }) (trim_value v f.first f.last))

pub origin_line :
    (r : Request) (v : Text)
    → IsField keys v
    → parse_line r (text "Origin: " ++ v) ≡ record r { origin = v }
unfolding parse_line set_value get_value
origin_line r v f =
    rw
      (
        has_field b' ' b'G' (text "ET") (text "Origin:") v refl refl f.no_zero f.quiet.0,
        has_field b' ' b'H' (text "ost:") (text "Origin:") v refl refl f.no_zero f.quiet.1.0,
        has_field b' ' b'U' (text "pgrade:") (text "Origin:") v refl refl f.no_zero f.quiet.1.1.0,
        has_field b' ' b'C' (text "onnection:") (text "Origin:") v refl refl f.no_zero
            f.quiet.1.1.1.0,
        has_field b' ' b'S' (text "ec-WebSocket-Key:") (text "Origin:") v refl refl f.no_zero
            f.quiet.1.1.1.1.0,
        parse_line,
      )
      (ap (λ value. record r { origin = value }) (trim_value v f.first f.last))

pub sec_websocket_protocol_line :
    (r : Request) (v : Text)
    → IsField keys v
    → parse_line r (text "Sec-WebSocket-Protocol: " ++ v) ≡ record r { sec_websocket_protocol = v }
unfolding parse_line set_value get_value
sec_websocket_protocol_line r v f =
    rw
      (
        has_field b' ' b'G' (text "ET") (text "Sec-WebSocket-Protocol:") v refl refl f.no_zero
            f.quiet.0,
        has_field b' ' b'H' (text "ost:") (text "Sec-WebSocket-Protocol:") v refl refl f.no_zero
            f.quiet.1.0,
        has_field b' ' b'U' (text "pgrade:") (text "Sec-WebSocket-Protocol:") v refl refl f.no_zero
            f.quiet.1.1.0,
        has_field b' ' b'C' (text "onnection:") (text "Sec-WebSocket-Protocol:") v refl refl
            f.no_zero f.quiet.1.1.1.0,
        has_field b' ' b'S' (text "ec-WebSocket-Key:") (text "Sec-WebSocket-Protocol:") v refl refl
            f.no_zero f.quiet.1.1.1.1.0,
        has_field b' ' b'O' (text "rigin:") (text "Sec-WebSocket-Protocol:") v refl refl f.no_zero
            f.quiet.1.1.1.1.1.0,
        parse_line,
      )
      (ap (λ value. record r { sec_websocket_protocol = value }) (trim_value v f.first f.last))

pub sec_web_socket_version_line :
    (r : Request) (v : Text)
    → IsField keys v
    → parse_line r (text "Sec-WebSocket-Version: " ++ v) ≡ record r { sec_web_socket_version = v }
unfolding parse_line set_value get_value
sec_web_socket_version_line r v f =
    rw
      (
        has_field b' ' b'G' (text "ET") (text "Sec-WebSocket-Version:") v refl refl f.no_zero
            f.quiet.0,
        has_field b' ' b'H' (text "ost:") (text "Sec-WebSocket-Version:") v refl refl f.no_zero
            f.quiet.1.0,
        has_field b' ' b'U' (text "pgrade:") (text "Sec-WebSocket-Version:") v refl refl f.no_zero
            f.quiet.1.1.0,
        has_field b' ' b'C' (text "onnection:") (text "Sec-WebSocket-Version:") v refl refl
            f.no_zero f.quiet.1.1.1.0,
        has_field b' ' b'S' (text "ec-WebSocket-Key:") (text "Sec-WebSocket-Version:") v refl refl
            f.no_zero f.quiet.1.1.1.1.0,
        has_field b' ' b'O' (text "rigin:") (text "Sec-WebSocket-Version:") v refl refl f.no_zero
            f.quiet.1.1.1.1.1.0,
        has_field b' ' b'S' (text "ec-WebSocket-Protocol:") (text "Sec-WebSocket-Version:") v refl
            refl f.no_zero f.quiet.1.1.1.1.1.1.0,
        parse_line,
      )
      (ap (λ value. record r { sec_web_socket_version = value }) (trim_value v f.first f.last))

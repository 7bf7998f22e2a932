-- ===== src/Handshake/Response/RoundTrip.antt =====
-- A packed response is parsed back.
use vee.Base.{◌≡◌, refl, ap, ◌∙◌, true, List, [], ◌∷◌, ◌++◌, arith}
use vee.Text.{Text, text, contains}
use vee.Text.Search.{lacks, c_str-lacks}
use vee.Text.Trim.{trim_value}
use vee.Handshake.Lines.{Tokenizer, is_unbroken, has, get_value, set_value}
use vee.Handshake.Lines.Fields.{IsField, has_field, AreLines, lines-joined}
use vee.Handshake.Response.{Response, parse_line, parse_lines, parse, binary_pack}

abbrev pub keys : List Text
keys =
    text "HTTP/1.1 101 Switching Protocols"
    ∷ text "Upgrade:"
    ∷ text "Connection:"
    ∷ text "Sec-WebSocket-Accept:"
    ∷ []

-- A response that can be sent: the status of a successful handshake on one line, and values.
pub record IsSendable (r : Response) : Type 0 where
  pub status_unbroken : is_unbroken r.http_status ≡ true
  pub status_no_zero : lacks 0 r.http_status ≡ true
  pub status_101 : contains (text "HTTP/1.1 101 Switching Protocols") r.http_status ≡ true
  pub upgrade_field : IsField keys r.upgrade
  pub connection_field : IsField keys r.connection
  pub accept_field : IsField keys r.sec_websocket_accept

upgrade_line :
    (r : Response) (v : Text)
    → IsField keys v
    → parse_line r (text "Upgrade: " ++ v) ≡ record r { upgrade = v }
unfolding parse_line set_value get_value contains
upgrade_line r v f =
    rw
      (
        has_field b':' b'H' (text "TTP/1.1 101 Switching Protocols") (text "Upgrade") (b' ' ∷ v)
            refl refl f.no_zero f.quiet.0,
        parse_line,
      )
      (ap (λ value. record r { upgrade = value }) (trim_value v f.first f.last))

connection_line :
    (r : Response) (v : Text)
    → IsField keys v
    → parse_line r (text "Connection: " ++ v) ≡ record r { connection = v }
unfolding parse_line set_value get_value contains
connection_line r v f =
    rw
      (
        has_field b':' b'H' (text "TTP/1.1 101 Switching Protocols") (text "Connection") (b' ' ∷ v)
            refl refl f.no_zero f.quiet.0,
        has_field b' ' b'U' (text "pgrade:") (text "Connection:") v refl refl f.no_zero f.quiet.1.0,
        parse_line,
      )
      (ap (λ value. record r { connection = value }) (trim_value v f.first f.last))

sec_websocket_accept_line :
    (r : Response) (v : Text)
    → IsField keys v
    → parse_line r (text "Sec-WebSocket-Accept: " ++ v) ≡ record r { sec_websocket_accept = v }
unfolding parse_line set_value get_value contains
sec_websocket_accept_line r v f =
    rw
      (
        has_field b':' b'H' (text "TTP/1.1 101 Switching Protocols") (text "Sec-WebSocket-Accept")
            (b' ' ∷ v) refl refl f.no_zero f.quiet.0,
        has_field b' ' b'U' (text "pgrade:") (text "Sec-WebSocket-Accept:") v refl refl f.no_zero
            f.quiet.1.0,
        has_field b' ' b'C' (text "onnection:") (text "Sec-WebSocket-Accept:") v refl refl f.no_zero
            f.quiet.1.1.0,
        parse_line,
      )
      (ap (λ value. record r { sec_websocket_accept = value }) (trim_value v f.first f.last))

status_line :
    (r : Response) (line : Text)
    → lacks 0 line ≡ true
    → contains (text "HTTP/1.1 101 Switching Protocols") line ≡ true
    → parse_line r line ≡ record r { http_status = line }
unfolding parse_line has
status_line r line clean status = rw (c_str-lacks line clean, status, parse_line) refl

-- The lines of a packed response.
abbrev packed : Response → List Text
packed r =
    r.http_status
    ∷ (text "Upgrade: " ++ r.upgrade)
    ∷ (text "Connection: " ++ r.connection)
    ∷ (text "Sec-WebSocket-Accept: " ++ r.sec_websocket_accept)
    ∷ []

AreLines-status :
    (status : Text) (lines : List Text)
    → is_unbroken status ≡ true
    → contains (text "HTTP/1.1 101 Switching Protocols") status ≡ true
    → AreLines lines
    → AreLines (status ∷ lines)
unfolding contains
AreLines-status [] lines h found rest = absurd (ground arith)
AreLines-status (c ∷ cs) lines h found rest = (h, rest)

parse_lines-packed : (r old : Response) → IsSendable r → parse_lines old (packed r) ≡ r
unfolding parse_lines
parse_lines-packed r old s =
    rw
      (
        status_line old r.http_status s.status_no_zero s.status_101,
        upgrade_line _ r.upgrade s.upgrade_field,
        connection_line _ r.connection s.connection_field,
        sec_websocket_accept_line _ r.sec_websocket_accept s.accept_field,
        parse_lines,
      )
      refl

-- `parse` of what `binary_pack` makes of a response that can be sent gives that response back,
-- whatever the object held before.
pub response_parse-binary_pack :
    (boost : Tokenizer) (r old : Response) → IsSendable r → parse boost old (binary_pack r) ≡ r
unfolding parse binary_pack
response_parse-binary_pack boost r old s =
    ap (parse_lines old) (
      lines-joined boost (packed r) (
        AreLines-status r.http_status _ s.status_unbroken s.status_101
          (s.upgrade_field.unbroken, (s.connection_field.unbroken, (s.accept_field.unbroken, tt)))))
    ∙ parse_lines-packed r old s

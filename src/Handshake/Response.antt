-- ===== src/Handshake/Response.antt =====
-- `handshake_server_response`
pub mod RoundTrip
use vee.Base.{ℕ, Bool, true, false, Option, none, some, List, [], ◌∷◌, ◌++◌, ◌==◌, if◌then◌else◌}
use vee.Text.{Text, text}
use vee.Handshake.Lines.{Tokenizer, has, get_value, set_value}

pub record Response : Type 0 where
  pub http_status : Text
  pub upgrade : Text
  pub connection : Text
  pub sec_websocket_accept : Text

-- The constructor from a secret key; the default constructor has an empty one.
abbrev pub init : Text → Response
init secret_key = record {
  http_status = text "HTTP/1.1 101 Switching Protocols";
  upgrade = text "websocket";
  connection = text "Upgrade";
  sec_websocket_accept = secret_key;
}

abbrev pub clear : Response → Response
clear r = init []

-- One line of the loop of `parse`.
unfoldable pub parse_line : Response → Text → Response
unfolding has get_value set_value
parse_line r line =
    if has (text "HTTP/1.1 101 Switching Protocols") line
    then record r { http_status = line }
    else if has (text "Upgrade:") line
    then record r { upgrade = set_value (get_value line) r.upgrade }
    else if has (text "Connection:") line
    then record r { connection = set_value (get_value line) r.connection }
    else if has (text "Sec-WebSocket-Accept:") line
    then record r { sec_websocket_accept = set_value (get_value line) r.sec_websocket_accept }
    else r

unfoldable pub parse_lines : Response → List Text → Response
parse_lines r [] = r
parse_lines r (line ∷ lines) = parse_lines (parse_line r line) lines

unfoldable pub parse : Tokenizer → Response → Text → Response
parse boost r bytes = parse_lines r (boost.lines bytes)

unfoldable pub binary_pack : Response → Text
binary_pack r =
    r.http_status
    ++ (text "\r\nUpgrade: "
        ++ (r.upgrade
            ++ (text "\r\nConnection: "
                ++ (r.connection
                    ++ (text "\r\nSec-WebSocket-Accept: "
                        ++ (r.sec_websocket_accept ++ text "\r\n\r\n"))))))

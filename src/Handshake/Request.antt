-- ===== src/Handshake/Request.antt =====
-- `handshake_client_request`
pub mod Keys
pub mod RoundTrip
use vee.Base.{
  ℕ, Bool, true, false, ◌||◌, Option, none, some, List, [], ◌∷◌, ◌++◌, ◌==◌, if◌then◌else◌, ◌>>=◌,
}
use vee.Text.{Text, text, find_case_insensitive, not_found}
use vee.Handshake.Lines.{Tokenizer, has, get_value, set_value}

pub record Request : Type 0 where
  pub request_uri : Text
  pub host : Text
  pub upgrade : Text
  pub connection : Text
  pub origin : Text
  pub sec_websocket_key : Text
  pub sec_websocket_protocol : Text
  pub sec_web_socket_version : Text

-- The constructor; `clear` gives every object these values.
abbrev pub init : Request
init = record {
  request_uri = [];
  host = [];
  upgrade = [];
  connection = [];
  origin = [];
  sec_websocket_key = [];
  sec_websocket_protocol = [];
  sec_web_socket_version = [];
}

abbrev pub clear : Request → Request
clear r = init

-- One line of the loop of `parse`.
unfoldable pub parse_line : Request → Text → Request
unfolding has get_value set_value
parse_line r line =
    if has (text "GET") line
    then record r { request_uri = line }
    else if has (text "Host:") line
    then record r { host = set_value (get_value line) r.host }
    else if has (text "Upgrade:") line
    then record r { upgrade = set_value (get_value line) r.upgrade }
    else if has (text "Connection:") line
    then record r { connection = set_value (get_value line) r.connection }
    else if has (text "Sec-WebSocket-Key:") line
    then record r { sec_websocket_key = set_value (get_value line) r.sec_websocket_key }
    else if has (text "Origin:") line
    then record r { origin = set_value (get_value line) r.origin }
    else if has (text "Sec-WebSocket-Protocol:") line
    then record r { sec_websocket_protocol = set_value (get_value line) r.sec_websocket_protocol }
    else if has (text "Sec-WebSocket-Version:") line
    then record r { sec_web_socket_version = set_value (get_value line) r.sec_web_socket_version }
    else r

unfoldable pub parse_lines : Request → List Text → Request
parse_lines r [] = r
parse_lines r (line ∷ lines) = parse_lines (parse_line r line) lines

unfoldable pub parse : Tokenizer → Request → Text → Request
parse boost r bytes = parse_lines r (boost.lines bytes)

unfoldable pub binary_pack : Request → Text
binary_pack r =
    r.request_uri
    ++ (text "\r\nHost: "
        ++ (r.host
            ++ (text "\r\nUpgrade: "
                ++ (r.upgrade
                    ++ (text "\r\nConnection: "
                        ++ (r.connection
                            ++ (text "\r\nSec-WebSocket-Key: "
                                ++ (r.sec_websocket_key
                                    ++ (text "\r\nOrigin: "
                                        ++ (r.origin
                                            ++ (text "\r\nSec-WebSocket-Protocol: "
                                                ++ (r.sec_websocket_protocol
                                                    ++ (text "\r\nSec-WebSocket-Version: "
                                                        ++ (r.sec_web_socket_version
                                                            ++ text "\r\n\r\n"))))))))))))))

-- `strtool::find_case_insensitive(...) == strtool::not_found`
unfoldable pub lacks_word : Text → Text → Option Bool
unfolding find_case_insensitive
lacks_word src word = do found ← find_case_insensitive src word; some (found == not_found)

-- `||`, which leaves out the second test where the first holds.
unfoldable pub or_then : Option Bool → Option Bool → Option Bool
or_then none second = none
or_then (some true) second = some true
or_then (some false) second = second

-- `none` is a field that does not fit the buffer of a test.
unfoldable pub is_valid : Request → Option Bool
unfolding lacks_word or_then
is_valid r =
    elim (or_then (lacks_word r.request_uri (text "GET")) (
      or_then (lacks_word r.request_uri (text "HTTP/1.1")) (
        or_then (lacks_word r.upgrade (text "Websocket")) (
          or_then (lacks_word r.connection (text "Upgrade"))
            (lacks_word r.sec_web_socket_version (text "13")))))) [
              | none ↦ none
              | some true ↦ some false
              | some false ↦ some true
            ]

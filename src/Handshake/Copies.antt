-- ===== src/Handshake/Copies.antt =====
-- The copies, the moves and the printing of `handshake_client_request` and
-- `handshake_server_response`. `rest` is what a string has that was moved from.
use vee.Base.{[], ◌++◌}
use vee.Text.{Text, text, c_str}
use vee.Handshake.Request.{Request}
use vee.Handshake.Response.{Response}

unfoldable pub copy_request : Request → Request
copy_request other = record {
  request_uri = other.request_uri;
  host = other.host;
  upgrade = other.upgrade;
  connection = other.connection;
  origin = other.origin;
  sec_websocket_key = other.sec_websocket_key;
  sec_websocket_protocol = other.sec_websocket_protocol;
  sec_web_socket_version = other.sec_web_socket_version;
}

unfoldable pub assign_request : Request → Request → Request
assign_request self rhs = record self {
  request_uri = rhs.request_uri;
  host = rhs.host;
  upgrade = rhs.upgrade;
  connection = rhs.connection;
  origin = rhs.origin;
  sec_websocket_key = rhs.sec_websocket_key;
  sec_websocket_protocol = rhs.sec_websocket_protocol;
  sec_web_socket_version = rhs.sec_web_socket_version;
}

unfoldable pub copy_response : Response → Response
copy_response other = record {
  http_status = other.http_status;
  upgrade = other.upgrade;
  connection = other.connection;
  sec_websocket_accept = other.sec_websocket_accept;
}

unfoldable pub assign_response : Response → Response → Response
assign_response self rhs = record self {
  http_status = rhs.http_status;
  upgrade = rhs.upgrade;
  connection = rhs.connection;
  sec_websocket_accept = rhs.sec_websocket_accept;
}

unfoldable pub new_response : Response
new_response = record {
  http_status = text "HTTP/1.1 101 Switching Protocols";
  upgrade = text "websocket";
  connection = text "Upgrade";
  sec_websocket_accept = [];
}

module _ (rest : Text → Text) where
  -- What is left in the object that was moved from.
  abbrev pub request_left : Request → Request
  request_left other = record {
    request_uri = rest other.request_uri;
    host = rest other.host;
    upgrade = rest other.upgrade;
    connection = rest other.connection;
    origin = rest other.origin;
    sec_websocket_key = rest other.sec_websocket_key;
    sec_websocket_protocol = rest other.sec_websocket_protocol;
    sec_web_socket_version = rest other.sec_web_socket_version;
  }

  abbrev pub response_left : Response → Response
  response_left other = record {
    http_status = rest other.http_status;
    upgrade = rest other.upgrade;
    connection = rest other.connection;
    sec_websocket_accept = rest other.sec_websocket_accept;
  }

  unfoldable pub move_request : Request → Request × Request
  unfolding copy_request
  move_request other = (copy_request other, request_left other)

  unfoldable pub assign_moved_request : Request → Request → Request × Request
  unfolding assign_request
  assign_moved_request self rhs = (assign_request self rhs, request_left rhs)

  unfoldable pub move_response : Response → Response × Response
  unfolding copy_response
  move_response other = (copy_response other, response_left other)

  unfoldable pub assign_moved_response : Response → Response → Response × Response
  unfolding assign_response
  assign_moved_response self rhs = (assign_response self rhs, response_left rhs)

-- What `print` writes: each string up to its first NUL.
unfoldable pub printed_request : Request → Text
printed_request r =
    c_str r.request_uri
    ++ (text "\nHost: "
        ++ (c_str r.host
            ++ (text "\nUpgrade: "
                ++ (c_str r.upgrade
                    ++ (text "\nConnection: "
                        ++ (c_str r.connection
                            ++ (text "\nOrigin: "
                                ++ (c_str r.origin
                                    ++ (text "\nSec-Websocket-Key: "
                                        ++ (c_str r.sec_websocket_key
                                            ++ (text "\nSec-Websocket-Protocol: "
                                                ++ (c_str r.sec_websocket_protocol
                                                    ++ (text "\nSec-Websocket-Version: "
                                                        ++ (c_str r.sec_web_socket_version
                                                            ++ (text "\n")))))))))))))))

unfoldable pub printed_response : Response → Text
printed_response r =
    c_str r.http_status
    ++ (text "\nUpgrade: "
        ++ (c_str r.upgrade
            ++ (text "\nConnection: "
                ++ (c_str r.connection
                    ++ (text "\nSec-Websocket-Accept: "
                        ++ (c_str r.sec_websocket_accept ++ (text "\n")))))))

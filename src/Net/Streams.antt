-- ===== src/Net/Streams.antt =====
-- Which stream has which socket: the constructors, the moves and the assignments of `tcp_stream`,
-- `tcp_server`, `xwebsocket_stream` and `xwebsocket_server`. An event loop and a connection are
-- numbers. A socket of boost::asio that was moved from is as a new one of the same event loop.
pub mod Moves
mod Tests
use vee.Base.{ℕ, Option, none, some}

pub record Socket : Type 0 where
  pub io_service : ℕ
  pub connection : Option ℕ

abbrev pub new_socket : ℕ → Socket
new_socket io_service = record { io_service = io_service; connection = none }

-- The members of `tcp_stream`; the first is a reference.
pub record TcpStream : Type 0 where
  pub host_io_service : ℕ
  pub socket : Socket

-- The constructors from an event loop, by default that of the singleton, and from a socket, with
-- what the socket is after.
unfoldable pub new_stream : ℕ → TcpStream
new_stream io_service = record { host_io_service = io_service; socket = new_socket io_service }

unfoldable pub take_socket : Socket → TcpStream × Socket
take_socket socket =
    (record { host_io_service = socket.io_service; socket = socket }, new_socket socket.io_service)

-- The moving constructor, with what the other is after.
unfoldable pub move_stream : TcpStream → TcpStream × TcpStream
move_stream other = (
  record { host_io_service = other.host_io_service; socket = other.socket },
  record other { socket = new_socket other.socket.io_service },
)

-- The moving assignment swaps the sockets, and leaves the references.
unfoldable pub assign_stream : TcpStream → TcpStream → TcpStream × TcpStream
assign_stream lhs rhs = (record lhs { socket = rhs.socket }, record rhs { socket = lhs.socket })

-- `tcp_server`: its acceptor listens while it has a connection.
pub record TcpServer : Type 0 where
  pub host_io_service : ℕ
  pub port : ℕ
  pub acceptor : Socket
  pub socket : Socket

-- `listening` is the connection that the system gives an acceptor for the port.
unfoldable pub new_server : ℕ → ℕ → ℕ → TcpServer
new_server io_service port listening = record {
  host_io_service = io_service;
  port = port;
  acceptor = record { io_service = io_service; connection = some listening };
  socket = new_socket io_service;
}

unfoldable pub move_server : TcpServer → TcpServer × TcpServer
move_server other = (
  other,
  record other {
    acceptor = new_socket other.acceptor.io_service;
    socket = new_socket other.socket.io_service;
  },
)

-- `close`, of the socket that is not the acceptor's.
unfoldable pub close_server : TcpServer → TcpServer
close_server server = record server { socket = new_socket server.socket.io_service }

-- `accept`, behind the call of the acceptor, which connects the client.
unfoldable pub accept_stream : TcpServer → ℕ → TcpStream
unfolding take_socket
accept_stream server connection =
    (take_socket (record { io_service = server.host_io_service; connection = some connection })).0

-- The members of `xwebsocket_stream`. The pointer is declared, and so initialised, in front of the
-- stream that it is computed from: behind a constructor it is indeterminate, which is none.
pub record WebsocketStream : Type 0 where
  pub host_io_service_ptr : Option ℕ
  pub tcp_stream : TcpStream

unfoldable pub new_websocket : ℕ → WebsocketStream
unfolding new_stream
new_websocket io_service = record { host_io_service_ptr = none; tcp_stream = new_stream io_service }

unfoldable pub take_stream : TcpStream → WebsocketStream × TcpStream
unfolding move_stream
take_stream stream =
    let moved = move_stream stream in
    (record { host_io_service_ptr = none; tcp_stream = moved.0 }, moved.1)

unfoldable pub convert_stream : WebsocketStream → TcpStream → WebsocketStream × TcpStream
unfolding assign_stream
convert_stream self stream =
    let assigned = assign_stream self.tcp_stream stream in
    (
      record { host_io_service_ptr = some assigned.0.host_io_service; tcp_stream = assigned.0 },
      assigned.1,
    )

unfoldable pub assign_websocket :
    WebsocketStream → WebsocketStream → WebsocketStream × WebsocketStream
unfolding convert_stream
assign_websocket self rhs =
    let converted = convert_stream self rhs.tcp_stream in
    (converted.0, record rhs { tcp_stream = converted.1 })

-- `xwebsocket_server`; its `close` does nothing.
pub record WebsocketServer : Type 0 where
  pub host_io_service : ℕ
  pub tcp_server : TcpServer

unfoldable pub new_websocket_server : ℕ → ℕ → ℕ → WebsocketServer
unfolding new_server
new_websocket_server port io_service listening = record {
  host_io_service = io_service;
  tcp_server = new_server io_service port listening;
}

unfoldable pub move_websocket_server : WebsocketServer → WebsocketServer × WebsocketServer
unfolding move_server
move_websocket_server other =
    let moved = move_server other.tcp_server in
    (
      record { host_io_service = other.host_io_service; tcp_server = moved.0 },
      record other { tcp_server = moved.1 },
    )

unfoldable pub close_websocket_server : WebsocketServer → WebsocketServer
close_websocket_server server = server

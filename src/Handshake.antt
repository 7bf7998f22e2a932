-- ===== src/Handshake.antt =====
-- The opening handshake of a websocket, of
-- libvee_master/voost/net/xwebsocket_stream_impl.cpp: `handshake_client_request` (Request),
-- `handshake_server_response` (Response), what their `parse` shares (Lines), `_handshake` of the
-- server (Server) and `connect` (Client).
pub mod Lines
pub mod Request
pub mod Response
pub mod Codec
pub mod Copies
pub mod Server
pub mod Client
pub mod Sendable
pub mod Refused
pub mod Checked
pub mod Complete
mod Machine
mod Tests

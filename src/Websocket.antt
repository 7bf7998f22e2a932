-- ===== src/Websocket.antt =====
-- libvee_master/voost/net/xwebsocket_stream_impl.cpp: RFC 6455 frames, packets and streams.
pub mod Endian
pub mod Rfc
pub mod Frame
pub mod Packet
pub mod Stream
pub mod Machine
mod Tests
mod StreamTests

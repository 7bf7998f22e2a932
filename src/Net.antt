-- ===== src/Net.antt =====
-- The sockets of vee/voost/net.h and the streams on them.
pub mod Socket
pub mod Tcp
pub mod Client
pub mod Streams
pub mod Receive

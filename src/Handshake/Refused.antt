-- ===== src/Handshake/Refused.antt =====
-- What the server does with a request that it does not take, and with a connection that fails.
use vee.Net.Socket.{Socket}
use vee.Net.Tcp
use vee.Handshake.Codec.{Codec}
use vee.Handshake.Request
use vee.Handshake.Request.{Request}

-- ===== src/Lib.antt =====
-- vee: a C++ library for Windows of queues, channels, streams and actors, and models of its parts
-- with the theorems that are proved of them.
--
-- - Queue models vee/queue.h: `syncronized_ringqueue`, one function per member. Queue/Fifo is what
--   a queue promises, Queue/Race the threads that share one, and Queue/Guarded its sections under a
--   spin lock of Lock.
-- - System models vee/system.h and vee/exception.h: the error codes, and what a call that may throw
--   comes to.
-- - Websocket models the frames and packets of libvee_master/voost/net/xwebsocket_stream_impl.cpp,
--   with the types of vee/voost/xwebsocket_stream.h and vee/voost/net.h: Websocket/Frame is
--   `data_frame_header` (`analyze`, `binary_pack`, `binary_pack_size`), Websocket/Packet is
--   `_convert_to_websocket_form` (`convert`) and `_preprocess_received_data` (`preprocess`).
--   Websocket/Rfc describes the layout of RFC 6455 without the code.
--   Websocket/Stream is `xwebsocket_stream`: `write`, `disconnect`, `read_all`, `read_payload_only`,
--   and the handlers of `async_read_payload_only` and `async_read_all`; Websocket/Stream/Async is an
--   asynchronous read from its start to its end.
-- - Net has the socket of boost::asio that they stand on, a record of what the code calls and of the
--   documented bounds, and Net/Tcp models `tcp_stream` of libvee_master/voost/net/tcp_stream.cpp.
--   Net/Streams is which stream has which connection, when streams and servers are made, moved and
--   assigned, and Net/Client the `tcp_client` of libvee_master/voost/net/tcp_client_impl.cpp.
-- - Text models vee/string.h on texts as lists of bytes, and Handshake the opening handshake:
--   Handshake/Request and Handshake/Response are `handshake_client_request` and
--   `handshake_server_response`, Handshake/Server the `_handshake`, `accept` and `async_accept` of
--   `xwebsocket_server`, Handshake/Client the `connect` of `xwebsocket_stream`, all of
--   libvee_master/voost/net/xwebsocket_stream_impl.cpp. Handshake/Lines has the tokenizer of boost as
--   a record, Handshake/Codec SHA-1 and base64, with what libvee_master/voost/string/utilites.cpp and
--   libvee_master/voost/string/base64.cpp do around them. Text/Base64 is the `encode` of a string
--   and the `decode` of the latter, Text/Substring the `ci_find_substr` of vee/string.h.
-- - Timer models `xasync_timer` of libvee_master/voost/timer/xtimer.cpp, on a steady timer of boost
--   that is a parameter, with callbacks known by a number. Timer/Waits has a steady timer as it is
--   documented: the waits that are pending and the handlers that are queued, while the timer is run
--   and stopped.
-- - Pipe models `win32_named_pipe` of libvee_master/voost/interprocess/win32_named_pipe.cpp:
--   `connect`, `disconnect`, `read` and `write`. Pipe/Win32 has what it calls of Windows. Pipe/Handle is
--   `win32_handle` of vee/win32.h, and Pipe/Server the `accept` of
--   libvee_master/voost/interprocess/win32_named_pipe_server.cpp. Pipe/Async has the constructors,
--   the moves and the asynchronous operations.
-- - SharedMemory models libvee_master/voost/interprocess/xshared_memory.cpp as it is built for Windows;
--   SharedMemory/Boost has the segments and regions of the library.
-- - Delegate models vee/delegate.h: Delegate/Calls the order of the calls, Delegate/Keys the map of
--   functions with keys, Delegate/Targets what a `std::function` holds and when two are the same, and
--   Delegate/Arguments the calls with a tuple and `call_by_tuple` of vee/tuple_unpacker.h.
-- - Actor models `actor` of vee/actor.h as interleaved steps of the threads that call `request` and
--   `kill` and of the worker in `_actormain` and `_epoch`: Actor/Sound has what every order of them
--   keeps, Actor/Drained and Actor/Progress what becomes of the mails, Actor/Dead what is left when an
--   actor is killed and not respawned, and Actor/Lives the actor that is killed and respawned.
--   `enqueue` and `dequeue` on its mailbox are two steps each, the one under the lock of the indices and
--   the access to the slot. No slot is locked (Queue/Race), so mails can be lost where calls overlap:
--   the steps of Actor are those of the runs in which no `enqueue` begins while another one, or a
--   `dequeue`, is between its two steps. In these the slots are a list. Mails do not throw. The channel
--   is one place for a signal, the view of a channel that Signal/Order takes.
-- - Signal models `signal_channel` of vee/signal_channel.h, in the same way.
-- - Scheduler models `actor_group` of vee/actor.h and `scheduler` of vee/scheduler.h, over actors that
--   are a parameter.
-- - Adapters models the overloads of libvee_master/voost/net/net.cpp and
--   libvee_master/stream/async_stream.cpp that take a delegate, or no opcode; Adapters/Passing has the
--   families of overloads by the ways to pass a delegate, and the delegates that pointers share.
-- - Lock models vee/lock.h, libvee_master/lock/lock_impl.cpp and vee/flag.h: Lock/Threads is threads
--   that change one object between `lock` and `unlock` of a `spin_lock`, which is what the guards of a
--   queue are. None of them calls `try_lock`, which returns true where it has not got the lock.
-- - IoService models `io_service_sigleton` of vee/voost/asio.h and libvee_master/voost/asio_impl.cpp:
--   the steps of its thread and of its destructor, over the channel of Signal.
-- - Base has the helpers that they share.
--
-- Machine integers are natural numbers below 2 ^ w with the wrap-around written out, bytes are
-- numbers below 256. A result `none`, or `undefined` in an Outcome, is undefined behaviour; of a
-- step in Actor, Signal and IoService, `none` is a thread that waits. An Attempt has exceptions of
-- a library too. The loop of `clear` runs on fuel, one more than the number of items, and that is
-- enough on a valid queue. The loop of `read_all` runs on fuel for its rounds, one more than the
-- heartbeats that arrive before another frame, and that of a scheduler on fuel for its rounds, as
-- many as there are actors. The byte order functions of boost are a record with their documented
-- behaviour. The number of the digits of a port runs on fuel: five, for numbers of 16 bits.
-- Not modelled: templates and macros that leave nothing at run time, vee/object_pool.h, which cannot
-- be instantiated, the manual tests of libvee_master/main.cpp, and the calls that only forward.
pub mod Base
pub mod System
pub mod Text
pub mod Queue
pub mod Net
pub mod Websocket
pub mod Timer
pub mod Pipe
pub mod Delegate
pub mod Adapters
pub mod Handshake
pub mod Signal
pub mod Actor
pub mod Scheduler
pub mod Lock
pub mod IoService
pub mod SharedMemory

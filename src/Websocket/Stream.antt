-- ===== src/Websocket/Stream.antt =====
-- libvee_master/voost/net/xwebsocket_stream_impl.cpp: the operations of `xwebsocket_stream` on a
-- `tcp_stream`. Each gives its outcome, the caller's buffer where it has one, and the socket.
mod Fill
mod Attempt
pub mod Read
pub mod Write
pub mod Callbacks
pub mod Async
use vee.Base.{
  ℕ, zero, suc, ◌+◌, Bool, true, false, Option, none, some, List, [], ◌∷◌, ◌++◌, leb, if◌then◌else◌,
  length, take, drop, replicate, write_at,
}
use vee.Base.Word.{u32, sub32}
use vee.System.{
  ErrorCode, success, stream_disconnected_by_host, rfc6455_websocket_heartbeat, closed_stream,
  OperationResult, Outcome, returns, throws, undefined,
}
use vee.Net.Socket.{Socket}
use vee.Net.Tcp
use vee.Websocket.Endian.{Endian}
use vee.Websocket.Frame.{Opcode, connnection_close, Header}
use vee.Websocket.Packet.{IoResult, convert, preprocess}

-- `e.code == (int)error_code::rfc6455_websocket_heartbeat`
unfoldable pub is_heartbeat : ErrorCode → Bool
is_heartbeat rfc6455_websocket_heartbeat = true
is_heartbeat _ = false

-- `memmove(buffer, buffer + position, size)`
unfoldable pub move_front : List ℕ → ℕ → ℕ → Option (List ℕ)
move_front buffer position size =
    if leb (position + size) (length buffer)
    then write_at buffer 0 (take size (drop position buffer))
    else none

-- The `memmove` and the `memset` by which a payload comes to stand alone in the buffer.
unfoldable pub payload_only : IoResult → List ℕ → ℕ → Option (List ℕ)
unfolding move_front
payload_only sizes buffer buf_capacity =
    elim (move_front buffer sizes.header_size sizes.payload_size) [
      | none ↦ none
      | some moved ↦
          write_at moved sizes.payload_size (replicate (sub32 buf_capacity sizes.payload_size) 0)
    ]

module _ (boost : Endian) (socket : Socket) where
  open socket use {State, is_open}

  -- The count of the bytes that were sent is dropped.
  unfoldable pub reports : IoResult → Outcome ℕ × State → Outcome IoResult × State
  reports sizes (returns n, s) = (returns sizes, s)
  reports sizes (throws e, s) = (throws e, s)
  reports sizes (undefined, s) = (undefined, s)

  unfoldable pub write : State → Opcode → List ℕ → ℕ → Outcome IoResult × State
  unfolding reports
  write s op bytes len = elim (convert boost op bytes len) [
    | none ↦ (undefined, s)
    | some (sizes, packet) ↦ reports sizes (Tcp.write socket s packet (u32 (length packet)))
  ]

  -- The packet is gone when the function returns, before the started operation reads it.
  unfoldable pub loses_packet : Outcome (Unit {0}) × State → Outcome (Unit {0}) × State
  loses_packet (returns u, s) = (undefined, s)
  loses_packet (throws e, s) = (throws e, s)
  loses_packet (undefined, s) = (undefined, s)

  unfoldable pub async_write : State → Opcode → List ℕ → ℕ → Outcome (Unit {0}) × State
  unfolding loses_packet
  async_write s op bytes len = elim (convert boost op bytes len) [
    | none ↦ (undefined, s)
    | some (sizes, packet) ↦
        loses_packet (Tcp.async_write socket s packet (u32 (sizes.header_size + len)))
  ]

  -- The socket is closed behind a close frame that was sent.
  unfoldable pub closes_behind : Outcome IoResult × State → Outcome (Unit {0}) × State
  closes_behind (returns sizes, s) = (returns tt, Tcp.disconnect socket s)
  closes_behind (throws e, s) = (throws e, s)
  closes_behind (undefined, s) = (undefined, s)

  -- The close frame has 128 zeros.
  unfoldable pub disconnect : State → Outcome (Unit {0}) × State
  unfolding write closes_behind
  disconnect s = closes_behind (write s connnection_close (replicate 128 0) 128)

  -- The `try` block of `read_all`: the read, and what follows it.
  unfoldable pub unpack : Outcome ℕ × List ℕ × State → Outcome IoResult × List ℕ × State
  unpack (throws e, filled, s) = (throws e, filled, s)
  unpack (undefined, filled, s) = (undefined, filled, s)
  unpack (returns n, filled, s) = elim (preprocess boost filled n) [
    | returns (sizes, header, unmasked) ↦ (returns sizes, unmasked, s)
    | throws e ↦ (throws e, filled, s)
    | undefined ↦ (undefined, filled, s)
  ]

  unfoldable pub try_read : State → List ℕ → ℕ → Outcome IoResult × List ℕ × State
  unfolding unpack
  try_read s buffer buf_capacity = unpack (Tcp.read socket s buffer buf_capacity)

  -- The `catch` block: a heartbeat goes on with the loop, and all else leaves it.
  unfoldable pub catch_heartbeat :
      (State → List ℕ → Option (Outcome IoResult × List ℕ × State))
      → Outcome IoResult × List ℕ × State
      → Option (Outcome IoResult × List ℕ × State)
  unfolding is_heartbeat
  catch_heartbeat continues (returns sizes, filled, s) = some (returns sizes, filled, s)
  catch_heartbeat continues (undefined, filled, s) = some (undefined, filled, s)
  catch_heartbeat continues (throws e, filled, s) = elim (is_heartbeat e) [
    | true ↦ continues s filled
    | false ↦ some (throws e, filled, s)
  ]

  -- The loop, with fuel for its rounds; `none` is a loop that has not ended with the fuel.
  unfoldable pub read_all : ℕ → State → List ℕ → ℕ → Option (Outcome IoResult × List ℕ × State)
  unfolding try_read catch_heartbeat
  read_all zero s buffer buf_capacity = none
  read_all (suc fuel) s buffer buf_capacity =
      catch_heartbeat (λ s' filled. read_all fuel s' filled buf_capacity)
        (try_read s buffer buf_capacity)

  unfoldable pub read_payload_only :
      ℕ → State → List ℕ → ℕ → Option (Outcome IoResult × List ℕ × State)
  unfolding read_all payload_only
  read_payload_only fuel s buffer buf_capacity = elim (read_all fuel s buffer buf_capacity) [
    | none ↦ none
    | some (result, filled, s') ↦ elim result [
      | throws e ↦ some (throws e, filled, s')
      | undefined ↦ some (undefined, filled, s')
      | returns sizes ↦ elim (payload_only sizes filled buf_capacity) [
        | none ↦ some (undefined, filled, s')
        | some alone ↦ some (returns sizes, alone, s')
      ]
    ]
  ]

-- The handlers that the asynchronous reads leave with the socket. A callback is what it leaves of
-- the buffer that it is given, with the capacity and the count of bytes.
abbrev pub Callback : Type 0
Callback = OperationResult → List ℕ → ℕ → ℕ → List ℕ

-- The calls of the callback, with their count of bytes, and what the handler comes to.
abbrev pub Handled : Type 0
Handled = List (OperationResult × ℕ) × Outcome (List ℕ)

-- `function_result.error != error_code::success`
unfoldable pub is_failure : ErrorCode → Bool
is_failure success = false
is_failure _ = true

-- The first `if` of a handler, which does not return: the calls, and the buffer after it.
unfoldable pub report_failure :
    Callback → OperationResult → List ℕ → ℕ → ℕ → List (OperationResult × ℕ) × List ℕ
unfolding is_failure
report_failure e result buffer buf_capacity bytes_transferred =
    if is_failure result.error
    then ((result, bytes_transferred) ∷ [], e result buffer buf_capacity bytes_transferred)
    else ([], buffer)

-- The `catch` block. On a heartbeat it copies `preprocess`, a local variable of a function that
-- has returned.
unfoldable pub rethrow : ErrorCode → Outcome (List ℕ)
unfolding is_heartbeat
rethrow e = if is_heartbeat e then undefined else throws e

module _ (boost : Endian) where
  -- The `try` blocks of the handlers of `async_read_payload_only` and `async_read_all`, behind the
  -- first `if`.
  unfoldable pub try_payload_only :
      Callback → OperationResult → ℕ → ℕ → List (OperationResult × ℕ) × List ℕ → Handled
  unfolding rethrow payload_only
  try_payload_only e result buf_capacity bytes_transferred (calls, buffer) =
      elim (preprocess boost buffer bytes_transferred) [
        | throws code ↦ (calls, rethrow code)
        | undefined ↦ (calls, undefined)
        | returns (sizes, header, unmasked) ↦ elim (payload_only sizes unmasked buf_capacity) [
          | none ↦ (calls, undefined)
          | some alone ↦ (
            calls ++ (result, sizes.payload_size) ∷ [],
            returns (e result alone buf_capacity sizes.payload_size),
          )
        ]
      ]

  unfoldable pub try_all :
      Callback → OperationResult → ℕ → ℕ → List (OperationResult × ℕ) × List ℕ → Handled
  unfolding rethrow
  try_all e result buf_capacity bytes_transferred (calls, buffer) =
      elim (preprocess boost buffer bytes_transferred) [
        | throws code ↦ (calls, rethrow code)
        | undefined ↦ (calls, undefined)
        | returns (sizes, header, unmasked) ↦ (
          calls ++ (result, bytes_transferred) ∷ [],
          returns (e result unmasked buf_capacity bytes_transferred),
        )
      ]

  -- The handlers.
  unfoldable pub on_payload_only : Callback → OperationResult → List ℕ → ℕ → ℕ → Handled
  unfolding report_failure try_payload_only
  on_payload_only e result buffer buf_capacity bytes_transferred =
      try_payload_only e result buf_capacity bytes_transferred
        (report_failure e result buffer buf_capacity bytes_transferred)

  unfoldable pub on_all : Callback → OperationResult → List ℕ → ℕ → ℕ → Handled
  unfolding report_failure try_all
  on_all e result buffer buf_capacity bytes_transferred =
      try_all e result buf_capacity bytes_transferred
        (report_failure e result buffer buf_capacity bytes_transferred)

-- ===== src/Net/Tcp.antt =====
-- libvee_master/voost/net/tcp_stream.cpp: `tcp_stream` on a socket. An operation gives its outcome
-- and the socket after it, which has changed whether or not it throws.
use vee.Base.{
  ℕ, Bool, true, false, Option, none, some, List, ◌++◌, if◌then◌else◌, leb, length, take, drop,
  replicate,
}
use vee.Base.Word.{u32}
use vee.System.{
  ErrorCode, success, server_accept_failure, stream_connection_failure, stream_send_failure,
  stream_read_failure, closed_stream, OperationResult, Outcome, returns, throws, undefined,
}
use vee.Net.Socket.{Endpoint, Socket}

-- `memset(buffer, 0, size)`
abbrev pub zeroed : ℕ → List ℕ → List ℕ
zeroed size buffer = replicate size 0 ++ drop size buffer

-- What a handler makes of the error flag of an operation.
unfoldable pub result_of : ErrorCode → Bool → OperationResult
result_of failure error = record { error = if error then failure else success }

-- What a completed operation calls: `e(result)`, `e(result, bytes_transferred)`, or
-- `e(result, buffer, buf_capacity, bytes_transferred)`.
unfoldable pub handle_connect {ℓ} : {R : Type ℓ} → (OperationResult → R) → Bool → R
unfolding result_of
handle_connect e error = e (result_of stream_connection_failure error)

unfoldable pub handle_write {ℓ} : {R : Type ℓ} → (OperationResult → ℕ → R) → Bool → ℕ → R
unfolding result_of
handle_write e error bytes_transferred = e (result_of stream_send_failure error) bytes_transferred

unfoldable pub handle_read {ℓ} :
    {R : Type ℓ} → (OperationResult → List ℕ → ℕ → ℕ → R) → List ℕ → ℕ → Bool → ℕ → R
unfolding result_of
handle_read e buffer buf_capacity error bytes_transferred =
    e (result_of stream_read_failure error) buffer buf_capacity bytes_transferred

-- `handle_accept`: the handler gets the new stream, or none.
unfoldable pub handle_accept {ℓ κ} :
    {S : Type ℓ} {R : Type κ} → (OperationResult → Option S → R) → S → Bool → R
unfolding result_of
handle_accept e stream true = e (result_of server_accept_failure true) none
handle_accept e stream false = e (result_of server_accept_failure false) (some stream)

module _ (socket : Socket) where
  open socket use {
    State, is_open, connects, write_some, read_some, closes, start_connect, start_write, start_read,
  }

  -- `_socket.connect` and what follows it.
  unfoldable pub connected : Bool × State → Outcome (Unit {0}) × State
  connected (true, s) = (throws stream_connection_failure, s)
  connected (false, s) = (returns tt, s)

  unfoldable pub connect : State → Endpoint → Outcome (Unit {0}) × State
  unfolding connected
  connect s ep = connected (connects s ep)

  -- `_socket.write_some` and what follows it: the count of the bytes that were taken.
  unfoldable pub counted : Option ℕ × State → Outcome ℕ × State
  counted (none, s) = (throws stream_send_failure, s)
  counted (some n, s) = (returns (u32 n), s)

  -- `len` bytes of the data must be there, and fewer may be taken.
  unfoldable pub write : State → List ℕ → ℕ → Outcome ℕ × State
  unfolding counted
  write s bytes len =
      if leb len (length bytes) then counted (write_some s (take len bytes)) else (undefined, s)

  -- `_socket.read_some` into the zeroed buffer, and what follows it.
  unfoldable pub received : ℕ → List ℕ → Option (List ℕ) × State → Outcome ℕ × List ℕ × State
  received buf_capacity buffer (none, s) =
      (throws stream_read_failure, zeroed buf_capacity buffer, s)
  received buf_capacity buffer (some bytes, s) =
      (returns (u32 (length bytes)), bytes ++ drop (length bytes) (zeroed buf_capacity buffer), s)

  unfoldable pub read : State → List ℕ → ℕ → Outcome ℕ × List ℕ × State
  unfolding received
  read s buffer buf_capacity =
      if leb buf_capacity (length buffer)
      then received buf_capacity buffer (read_some s buf_capacity)
      else (undefined, buffer, s)

  unfoldable pub disconnect : State → State
  disconnect s = closes s

  -- The operation is started, or the stream is closed.
  pub async_connect : State → Endpoint → State
  async_connect s ep = start_connect s ep

  unfoldable pub async_write : State → List ℕ → ℕ → Outcome (Unit {0}) × State
  async_write s bytes len =
      if is_open s
      then (if leb len (length bytes)
          then (returns tt, start_write s (take len bytes))
          else (undefined, s))
      else (throws closed_stream, s)

  unfoldable pub async_read : State → List ℕ → ℕ → Outcome (Unit {0}) × State
  async_read s buffer buf_capacity =
      if is_open s
      then (if leb buf_capacity (length buffer)
          then (returns tt, start_read s buf_capacity)
          else (undefined, s))
      else (throws closed_stream, s)

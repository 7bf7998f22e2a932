-- ===== src/Pipe/Async.antt =====
-- The constructors, the moves and the asynchronous operations of `win32_named_pipe`.
use vee.Base.{ℕ, Bool, false, Option, none, some, List, [], ◌==◌, if◌then◌else◌, leb, length, take}
use vee.System.{
  closed_stream, stream_send_failure, stream_read_failure, OperationResult, Outcome, returns,
  throws, undefined,
}
use vee.Net.Tcp.{result_of}
use vee.Pipe.{Pipe, disconnect}
use vee.Pipe.Win32.{Windows}

-- The constructors; `create_named_pipe` makes a pipe of the first. A handle of boost::asio that is
-- closed is none, and one that was moved from is closed. `_is_server_side` of a new pipe, which the
-- first constructor leaves indeterminate and `connect` sets, is taken as false.
unfoldable pub new_pipe : Pipe
new_pipe = record { pipe_name = []; is_server_side = false; stream_handle = none }

unfoldable pub pipe_of_handle : ℕ → List ℕ → Bool → Pipe
pipe_of_handle handle pipe_name is_server_side = record {
  pipe_name = pipe_name;
  is_server_side = is_server_side;
  stream_handle = some handle;
}

unfoldable pub pipe_of_stream_handle : Option ℕ → List ℕ → Bool → Pipe × Option ℕ
pipe_of_stream_handle handle pipe_name is_server_side = (
  record { pipe_name = pipe_name; is_server_side = is_server_side; stream_handle = handle },
  none,
)

-- The moving constructor, with what the other is after; `rest` is what a string has that was moved
-- from.
unfoldable pub move_pipe : (List ℕ → List ℕ) → Pipe → Pipe × Pipe
move_pipe rest other =
    (other, record other { pipe_name = rest other.pipe_name; stream_handle = none })

-- `_stream_handler.native_handle() == NULL`: that of a closed handle is not NULL.
unfoldable pub is_null : Option ℕ → Bool
is_null none = false
is_null (some handle) = handle == 0

-- What a completed operation calls.
unfoldable pub handle_read {ℓ} :
    {R : Type ℓ} → (OperationResult → List ℕ → ℕ → ℕ → R) → List ℕ → ℕ → Bool → ℕ → R
unfolding result_of
handle_read e buffer buf_capacity error bytes_transferred =
    e (result_of stream_read_failure error) buffer buf_capacity bytes_transferred

unfoldable pub handle_write {ℓ} : {R : Type ℓ} → (OperationResult → ℕ → R) → Bool → ℕ → R
unfolding result_of
handle_write e error bytes_transferred = e (result_of stream_send_failure error) bytes_transferred

-- `async_read_some` and `async_write_some` of boost::asio, which start an operation; on a closed
-- handle it ends with an error.
module _ (windows : Windows) where
  open windows use {State, close_handle}

  -- The moving assignment closes the handle of the left side.
  unfoldable pub assign_pipe : (List ℕ → List ℕ) → State → Pipe → Pipe → Pipe × Pipe × State
  unfolding move_pipe
  assign_pipe rest s self other = (
    (move_pipe rest other).0,
    (move_pipe rest other).1,
    elim self.stream_handle [ none ↦ s | some h ↦ close_handle s h ],
  )

  -- The destructor.
  unfoldable pub destroy_pipe : Pipe → State → State
  unfolding disconnect
  destroy_pipe pipe s = (disconnect windows pipe s).1

  unfoldable pub async_read :
      (State → Option ℕ → ℕ → State) → Pipe → State → List ℕ → ℕ → Outcome (Unit {0}) × State
  unfolding is_null
  async_read async_read_some pipe s buffer buf_capacity =
      if is_null pipe.stream_handle
      then (throws closed_stream, s)
      else if leb buf_capacity (length buffer)
      then (returns tt, async_read_some s pipe.stream_handle buf_capacity)
      else (undefined, s)

  unfoldable pub async_write :
      (State → Option ℕ → List ℕ → State) → Pipe → State → List ℕ → ℕ → Outcome (Unit {0}) × State
  unfolding is_null
  async_write async_write_some pipe s bytes len =
      if is_null pipe.stream_handle
      then (throws closed_stream, s)
      else if leb len (length bytes)
      then (returns tt, async_write_some s pipe.stream_handle (take len bytes))
      else (undefined, s)

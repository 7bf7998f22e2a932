-- ===== src/Pipe.antt =====
-- libvee_master/voost/interprocess/win32_named_pipe.cpp: `win32_named_pipe`, with the options of
-- vee/voost/pipe.h. An operation gives its outcome, and the pipe and the system after it.
pub mod Win32
pub mod Handle
pub mod Server
pub mod Errors
pub mod Async
mod Tests
mod ServerTests
use vee.Base.{
  ℕ, ◌+◌, ◌%◌, ◌^◌, Bool, true, false, not, ◌&&◌, Option, none, some, List, [], ◌∷◌, ◌++◌, ◌==◌,
  if◌then◌else◌, leb, length, take, drop, replicate,
}
use vee.Base.Word.{u8, u32}
use vee.System.{
  ErrorCode, stream_already_connected, stream_connection_failure, stream_send_failure,
  stream_disconnected_by_host, closed_stream, win32_busy_named_pipe, buffer_is_too_small, Attempt,
  succeeds, fails, library_fails, Outcome, returns, throws, undefined,
}
use vee.Pipe.Win32.{Windows}

-- `creation_option`
pub data CreationOption : Type 0 where
  create_or_truncate create_new open_or_crate open_existing truncate_existing : CreationOption

-- `pipe_data_transfer_mode`
pub data TransferMode : Type 0 where
  iomode_byte iomode_message : TransferMode

-- The members; the handle is `none` while the stream handle is closed.
pub record Pipe : Type 0 where
  pub pipe_name : List ℕ
  pub is_server_side : Bool
  pub stream_handle : Option ℕ

abbrev pub is_open : Pipe → Bool
is_open pipe = elim pipe.stream_handle [ none ↦ false | some h ↦ true ]

module _ (windows : Windows) where
  open windows use {
    State, error_pipe_busy, error_more_data, nmpwait_use_default_wait, nmpwait_wait_forever,
    nmpwait_nowait, create_always, create_new_flag, open_always, open_existing_flag,
    truncate_existing_flag, readmode_byte, readmode_message, create_file, wait_named_pipe,
    set_named_pipe_handle_state, assign_handle, flush_file_buffers, disconnect_named_pipe,
    close_handle, read_some, write_some,
  }

  -- `time_out_arg`, by `pipe_time_out_constant`.
  unfoldable pub time_out_arg : ℕ → ℕ
  time_out_arg time_out_millisec =
      if time_out_millisec == 0
      then nmpwait_use_default_wait
      else if time_out_millisec == 0xffff_ffff
      then nmpwait_wait_forever
      else if time_out_millisec == 1
      then nmpwait_nowait
      else time_out_millisec

  -- `win32_file_craetion_opt`
  unfoldable pub creation_flag : CreationOption → ℕ
  creation_flag create_or_truncate = create_always
  creation_flag create_new = create_new_flag
  creation_flag open_or_crate = open_always
  creation_flag open_existing = open_existing_flag
  creation_flag truncate_existing = truncate_existing_flag

  unfoldable pub read_mode_flag : TransferMode → ℕ
  read_mode_flag iomode_byte = readmode_byte
  read_mode_flag iomode_message = readmode_message

  -- Behind `assign`, whose exception comes after the name and the side were set.
  unfoldable pub assigned : Pipe → Option ℕ → Bool × State → Attempt (Unit {0}) × Pipe × State
  assigned named handle (false, s) = (library_fails, named, s)
  assigned named handle (true, s) = (succeeds tt, record named { stream_handle = handle }, s)

  -- The end of `connect`: the handle is put into the read mode and becomes the pipe's own.
  unfoldable pub adopt : Pipe → List ℕ → Option ℕ → Bool × State → Attempt (Unit {0}) × Pipe × State
  unfolding assigned
  adopt pipe name handle (false, s) = (fails stream_connection_failure, pipe, s)
  adopt pipe name handle (true, s) =
      assigned (record pipe { pipe_name = name; is_server_side = false }) handle
        (assign_handle s handle)

  unfoldable pub enter_mode :
      Pipe → List ℕ → TransferMode → Option ℕ → State → Attempt (Unit {0}) × Pipe × State
  unfolding adopt read_mode_flag
  enter_mode pipe name read_mode handle s =
      adopt pipe name handle (set_named_pipe_handle_state s handle (read_mode_flag read_mode))

  -- Behind the wait for a busy pipe: the handle is the one of before the wait.
  unfoldable pub waited :
      Pipe → List ℕ → TransferMode → Option ℕ → Bool × State → Attempt (Unit {0}) × Pipe × State
  unfolding enter_mode
  waited pipe name read_mode handle (false, s) = (fails win32_busy_named_pipe, pipe, s)
  waited pipe name read_mode handle (true, s) = enter_mode pipe name read_mode handle s

  -- `pipe_handle == INVALID_HANDLE_VALUE`
  unfoldable pub is_invalid : Option ℕ → Bool
  is_invalid none = true
  is_invalid (some h) = false

  -- Behind `CreateFileA`: its handle, the last error, and the system.
  unfoldable pub created :
      Pipe → List ℕ → TransferMode → ℕ → Option ℕ × ℕ × State → Attempt (Unit {0}) × Pipe × State
  unfolding waited time_out_arg is_invalid
  created pipe name read_mode time_out_millisec (handle, error, s) =
      if is_invalid handle && not (error == error_pipe_busy)
      then (fails stream_connection_failure, pipe, s)
      else if error == error_pipe_busy
      then waited pipe name read_mode handle
          (wait_named_pipe s name (time_out_arg time_out_millisec))
      else enter_mode pipe name read_mode handle s

  unfoldable pub connect :
      Pipe → State → List ℕ → CreationOption → TransferMode → ℕ → Attempt (Unit {0}) × Pipe × State
  unfolding created creation_flag
  connect pipe s name creation_opt read_mode time_out_millisec =
      if is_open pipe
      then (fails stream_already_connected, pipe, s)
      else created pipe name read_mode time_out_millisec
          (create_file s name (creation_flag creation_opt))

  -- An error of the library when it closes the handle is only printed.
  unfoldable pub disconnect : Pipe → State → Pipe × State
  disconnect pipe s = elim pipe.stream_handle [
    | none ↦ (pipe, s)
    | some h ↦ (
      record pipe { is_server_side = false; stream_handle = none },
      close_handle
          (if pipe.is_server_side then disconnect_named_pipe (flush_file_buffers s h) h else s) h,
    )
  ]

  -- Behind `read_some`: the bytes, none of them after an error, and the last error of Windows.
  unfoldable pub received : List ℕ → Option (List ℕ) × ℕ × State → Outcome ℕ × List ℕ × State
  received zeroed (none, error, s) =
      if error == 109
      then (throws stream_disconnected_by_host, zeroed, s)
      else (throws stream_send_failure, zeroed, s)
  received zeroed (some bytes, error, s) =
      let filled = bytes ++ drop (length bytes) zeroed in
      if error == error_more_data
      then (throws buffer_is_too_small, filled, s)
      else (returns (u32 (length bytes)), filled, s)

  unfoldable pub read : Pipe → State → List ℕ → ℕ → Outcome ℕ × List ℕ × State
  unfolding received
  read pipe s buffer buf_capacity = elim pipe.stream_handle [
    | none ↦ (throws closed_stream, buffer, s)
    | some h ↦
        if leb buf_capacity (length buffer)
        then received (replicate buf_capacity 0 ++ drop buf_capacity buffer)
            (read_some s h buf_capacity)
        else (undefined, buffer, s)
  ]

  -- Behind `write_some`: the count is cast to 8 bits.
  unfoldable pub written : Option ℕ × State → Outcome ℕ × State
  written (none, s) = (throws stream_send_failure, s)
  written (some n, s) = (returns (u8 (u32 n)), s)

  unfoldable pub write : Pipe → State → List ℕ → ℕ → Outcome ℕ × State
  unfolding written
  write pipe s bytes size = elim pipe.stream_handle [
    | none ↦ (throws closed_stream, s)
    | some h ↦
        if leb size (length bytes)
        then written (write_some s h (take size bytes))
        else (undefined, s)
  ]

-- ===== src/Pipe/Tests.antt =====
-- Pipes at work: a system whose state is the list of the bytes that were written, and on which
-- every pipe is busy.
use vee.Base.{ℕ, ◌≡◌, refl, false, true, none, some, List, [], ◌∷◌, ◌++◌, length}
use vee.System.{closed_stream, returns, throws}
use vee.Pipe.{Pipe, open_existing, iomode_message, connect, read}
use vee.Pipe.Win32.{Windows}
use vee.Pipe.Async.{async_read, is_null, assign_pipe, move_pipe, new_pipe}
use vee.Pipe.Errors.{Atomic, connect-Atomic}

abbrev busy : Windows
busy = record {
  State = List ℕ;
  error_pipe_busy = 1;
  error_more_data = 2;
  nmpwait_use_default_wait = 0;
  nmpwait_wait_forever = 1;
  nmpwait_nowait = 2;
  readmode_byte = 0;
  readmode_message = 1;
  create_always = 0;
  create_new_flag = 1;
  open_always = 2;
  open_existing_flag = 3;
  truncate_existing_flag = 4;
  create_file = λ s name flag. (none, 1, s);
  wait_named_pipe = λ s name time_out. (true, s);
  set_named_pipe_handle_state = λ s handle mode. (false, s);
  assign_handle = λ s handle. (true, s);
  flush_file_buffers = λ s h. s;
  disconnect_named_pipe = λ s h. s;
  close_handle = λ s h. s;
  read_some = λ s h n. (none, 109, s);
  write_some = λ s h bytes. (some (length bytes), s ++ bytes);
  invalid_refused = λ s mode. refl;
}

abbrev shut : Pipe
shut = record { pipe_name = []; is_server_side = false; stream_handle = none }

abbrev server : Pipe
server = record { pipe_name = 7 ∷ []; is_server_side = true; stream_handle = some 3 }

connect-Atomic_example :
    Atomic busy shut (7 ∷ []) (connect busy shut [] (7 ∷ []) open_existing iomode_message 5)
connect-Atomic_example = connect-Atomic busy shut [] (7 ∷ []) open_existing iomode_message 5

-- Where `read` of a closed pipe throws, `async_read` starts an operation.
closed_read_test :
    ((read busy shut [] (9 ∷ []) 1).0 ≡ throws closed_stream)
    × ((async_read busy (λ s handle n. n ∷ s) shut [] (9 ∷ []) 1) ≡ (returns tt, 1 ∷ []))
unfolding read async_read is_null
closed_read_test = (refl, refl)

-- A pipe that is assigned closes its handle and takes the other's.
assigned_test : (assign_pipe busy (λ l. []) [] new_pipe server).0 ≡ server
unfolding assign_pipe move_pipe new_pipe
assigned_test = refl

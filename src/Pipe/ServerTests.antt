-- ===== src/Pipe/ServerTests.antt =====
-- The acceptor at work: a system with one handle, of which its state says whether it is open.
use vee.Base.{◌≡◌, refl, Bool, true, false, [], ◌∷◌}
use vee.System.{server_accept_failure, throws}
use vee.Pipe.{iomode_byte}
use vee.Pipe.Handle.{Kernel}
use vee.Pipe.Server.{accept_pipe, IsOwned, accept-IsOwned}

-- No client comes.
abbrev lonely : Kernel
lonely = record {
  State = Bool;
  invalid_handle_value = 0xffff_ffff;
  error_pipe_connected = 535;
  readmode_byte = 0;
  readmode_message = 2;
  type_byte = 0;
  type_message = 4;
  pipe_wait = 0;
  create_named_pipe = λ s name mode in_size out_size. (7, true);
  connect_named_pipe = λ s h. (false, 536, s);
  close_handle = λ s h. (true, false);
  is_open = λ s h. s;
  created_open = λ s name mode in_size out_size ne. refl;
  created_handle = λ s name mode in_size out_size. refl;
  connected_open = λ s h e. e;
  closed = λ s h e. refl;
}

accept_test :
    accept_pipe lonely false (b'p' ∷ []) iomode_byte 512 512 ≡ (throws server_accept_failure, false)
unfolding accept_pipe
accept_test = refl

accept-IsOwned_example : IsOwned lonely 7 (accept_pipe lonely false (b'p' ∷ []) iomode_byte 512 512)
accept-IsOwned_example = accept-IsOwned lonely false (b'p' ∷ []) iomode_byte 512 512

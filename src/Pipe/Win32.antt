-- ===== src/Pipe/Win32.antt =====
-- The functions of Windows that a pipe calls, and the transfers of boost::asio on a handle. The
-- repository holds none of them, nor the values of the constants.
use vee.Base.{ℕ, ◌≡◌, Bool, false, Option, none, List}

-- A state of the system has all its pipes and handles. An invalid handle is `none`, and it cannot
-- be put into a read mode.
pub record Windows : Type 1 where
  pub State : Type 0
  pub error_pipe_busy : ℕ
  pub error_more_data : ℕ
  pub nmpwait_use_default_wait : ℕ
  pub nmpwait_wait_forever : ℕ
  pub nmpwait_nowait : ℕ
  pub readmode_byte : ℕ
  pub readmode_message : ℕ
  pub create_always : ℕ
  pub create_new_flag : ℕ
  pub open_always : ℕ
  pub open_existing_flag : ℕ
  pub truncate_existing_flag : ℕ
  -- `CreateFileA` with the last error after it.
  pub create_file : State → List ℕ → ℕ → Option ℕ × ℕ × State
  pub wait_named_pipe : State → List ℕ → ℕ → Bool × State
  pub set_named_pipe_handle_state : State → Option ℕ → ℕ → Bool × State
  -- `assign` of a handle of boost::asio, which throws where it is not taken.
  pub assign_handle : State → Option ℕ → Bool × State
  pub flush_file_buffers : State → ℕ → State
  pub disconnect_named_pipe : State → ℕ → State
  pub close_handle : State → ℕ → State
  -- The bytes and the last error; the count of bytes.
  pub read_some : State → ℕ → ℕ → Option (List ℕ) × ℕ × State
  pub write_some : State → ℕ → List ℕ → Option ℕ × State
  pub invalid_refused : (s : State) (mode : ℕ) → (set_named_pipe_handle_state s none mode).0 ≡ false

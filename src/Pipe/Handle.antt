-- ===== src/Pipe/Handle.antt =====
-- `win32_handle` of vee/win32.h and libvee_master/win32/win32_handle.cpp. A handle is a number, and
-- NULL is 0. What an operation changes besides the object comes behind the object.
use vee.Base.{ℕ, ◌≡◌, ◌≢◌, Bool, true, false, ◌==◌, if◌then◌else◌, List}
use vee.System.{win32_close_handle_failure, Outcome, returns, throws}

-- The functions of Windows that it calls, and those that the acceptor of a pipe calls. The
-- repository holds none of them, nor the values of the constants. A call that fails has its last
-- error behind it. The laws are documented: a new handle is open and not NULL, a wait leaves it
-- open, and a handle is open no longer where the call that closes it succeeds.
pub record Kernel : Type 1 where
  pub State : Type 0
  pub invalid_handle_value : ℕ
  pub error_pipe_connected : ℕ
  pub readmode_byte : ℕ
  pub readmode_message : ℕ
  pub type_byte : ℕ
  pub type_message : ℕ
  pub pipe_wait : ℕ
  pub create_named_pipe : State → List ℕ → ℕ → ℕ → ℕ → ℕ × State
  pub connect_named_pipe : State → ℕ → Bool × ℕ × State
  pub close_handle : State → ℕ → Bool × State
  pub is_open : State → ℕ → Bool
  pub created_open :
      (s : State) (name : List ℕ) (mode in_size out_size : ℕ)
      → (create_named_pipe s name mode in_size out_size).0 ≢ invalid_handle_value
      → is_open
          (create_named_pipe s name mode in_size out_size).1
          (create_named_pipe s name mode in_size out_size).0
        ≡ true
  pub created_handle :
      (s : State) (name : List ℕ) (mode in_size out_size : ℕ)
      → ((create_named_pipe s name mode in_size out_size).0 == 0) ≡ false
  pub connected_open :
      (s : State) (h : ℕ) → is_open s h ≡ true → is_open (connect_named_pipe s h).2 h ≡ true
  pub closed :
      (s : State) (h : ℕ) → (close_handle s h).0 ≡ true → is_open (close_handle s h).1 h ≡ false

-- A constructor, with what is left in the handle that it is given.
unfoldable pub take_handle : ℕ → ℕ × ℕ
take_handle handle = (handle, 0)

-- The move constructor and the move assignment, with what is left in the other.
unfoldable pub move_handle : ℕ → ℕ × ℕ
move_handle other = (other, 0)

unfoldable pub assign_moved : ℕ → ℕ → ℕ × ℕ
assign_moved self other = (other, 0)

-- The assignments of a `HANDLE`, an rvalue and an lvalue.
unfoldable pub assign_rvalue : ℕ → ℕ → ℕ × ℕ
assign_rvalue self handle = (self, 0)

unfoldable pub assign_lvalue : ℕ → ℕ → ℕ
assign_lvalue self handle = handle

-- `operator()` and `get`, `set`, the overloads of `compare`, and those of `operator==`.
unfoldable pub get_handle : ℕ → ℕ
get_handle self = self

unfoldable pub set_handle : ℕ → ℕ → ℕ
set_handle self handle = handle

unfoldable pub compare_handle : ℕ → ℕ → Bool
compare_handle self other = self == other

unfoldable pub equals_handle : ℕ → ℕ → Bool
equals_handle self other = self == other

abbrev pub clear : ℕ → ℕ
clear self = 0

module _ (kernel : Kernel) where
  open kernel use {State, close_handle}

  unfoldable pub close : State → ℕ → Outcome (Unit {0}) × ℕ × State
  close s self =
      let (done, s') = close_handle s self in
      if self == 0
      then (returns tt, self, s)
      else if done
      then (returns tt, clear self, s')
      else (throws win32_close_handle_failure, self, s')

  -- Also the destructor.
  unfoldable pub close_nothrow : State → ℕ → ℕ × State
  close_nothrow s self =
      let (done, s') = close_handle s self in
      if self == 0 then (self, s) else if done then (clear self, s') else (self, s')

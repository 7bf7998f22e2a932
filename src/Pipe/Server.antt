-- ===== src/Pipe/Server.antt =====
-- libvee_master/voost/interprocess/win32_named_pipe_server.cpp: `win32_named_pipe_acceptor::accept`,
-- which the server only forwards to. The constructor of a pipe is noexcept: where boost::asio does
-- not take the handle the program ends, and that is not modelled.
use vee.Base.{
  ℕ, ◌≡◌, ◌≢◌, ◌⊎◌, inl, inr, refl, sym, ap, ◌∙◌, Bool-cases, Bool, true, false, ◌||◌, some, List,
  ◌==◌, ==→eq, if◌then◌else◌, bit_or, arith,
}
use vee.System.{server_accept_failure, Outcome, returns, throws, undefined}
use vee.Pipe.{Pipe, TransferMode, iomode_byte, iomode_message}
use vee.Pipe.Handle.{Kernel, close_nothrow}

module _ (kernel : Kernel) where
  open kernel use {
    State, invalid_handle_value, error_pipe_connected, readmode_byte, readmode_message, type_byte,
    type_message, pipe_wait, create_named_pipe, connect_named_pipe, close_handle, is_open,
    created_open, created_handle, connected_open, closed,
  }

  -- `win32_pipe_type_arg`
  unfoldable pub pipe_type : TransferMode → ℕ
  pipe_type iomode_byte = bit_or readmode_byte type_byte
  pipe_type iomode_message = bit_or readmode_message type_message

  -- Behind the wait for a client: the pipe has the handle, or the destructor of the handle closes it.
  unfoldable pub accepted : List ℕ → ℕ → Bool × ℕ × State → Outcome Pipe × State
  unfolding close_nothrow
  accepted name handle (result, error, s) =
      if result || error == error_pipe_connected
      then (
        returns (record { pipe_name = name; is_server_side = true; stream_handle = some handle }),
        s,
      )
      else (throws server_accept_failure, (close_nothrow kernel s handle).1)

  -- Behind the creation of the pipe.
  unfoldable pub instance_created : List ℕ → ℕ × State → Outcome Pipe × State
  unfolding accepted
  instance_created name (handle, s) =
      if handle == invalid_handle_value
      then (throws server_accept_failure, (close_nothrow kernel s handle).1)
      else accepted name handle (connect_named_pipe s handle)

  unfoldable pub accept_pipe : State → List ℕ → TransferMode → ℕ → ℕ → Outcome Pipe × State
  unfolding instance_created pipe_type
  accept_pipe s name io_mode in_size out_size =
      instance_created name
        (create_named_pipe s name (bit_or (pipe_type io_mode) pipe_wait) in_size out_size)

  -- Either a pipe has this handle, and it is open, or the call throws, and the handle was none, or
  -- it is not open, or the last step was to close it, and Windows reported a failure of that.
  abbrev pub IsOwned : ℕ → Outcome Pipe × State → Type 0
  IsOwned handle (returns pipe, s) =
      (pipe.stream_handle ≡ some handle)
      × ((pipe.is_server_side ≡ true) × (is_open s handle ≡ true))
  IsOwned handle (throws e, s) =
      (e ≡ server_accept_failure)
      × ((handle ≡ invalid_handle_value)
          ⊎ ((is_open s handle ≡ false) ⊎ ((u : State) × (close_handle u handle ≡ (false, s)))))
  IsOwned handle (undefined, s) = ⊥

  close_nothrow_state :
      (s : State) (handle : ℕ)
      → (handle == 0) ≡ false
      → (close_nothrow kernel s handle).1 ≡ (close_handle s handle).1
  unfolding close_nothrow
  close_nothrow_state s handle present = elim (Bool-cases (close_handle s handle).0) [
    | inl done ↦ rw (present, done) refl
    | inr kept ↦ rw (present, kept) refl
  ]

  -- A handle that is not NULL is given to `CloseHandle`.
  close_nothrow_lem :
      (s : State) (handle : ℕ)
      → (handle == 0) ≡ false
      → (is_open (close_nothrow kernel s handle).1 handle ≡ false)
        ⊎ ((u : State) × (close_handle u handle ≡ (false, (close_nothrow kernel s handle).1)))
  close_nothrow_lem s handle present =
      let same = close_nothrow_state s handle present in
      elim (Bool-cases (close_handle s handle).0) [
        | inl done ↦ inl (ap (λ t. is_open t handle) same ∙ closed s handle done)
        | inr kept ↦
            inr (s, ap (λ b. (b, (close_handle s handle).1)) kept ∙ ap (λ t. (false, t)) (sym same))
      ]

  accepted-IsOwned :
      (name : List ℕ) (handle : ℕ) (r : Bool × ℕ × State)
      → (handle == 0) ≡ false
      → is_open r.2 handle ≡ true
      → IsOwned handle (accepted name handle r)
  unfolding accepted
  accepted-IsOwned name handle (result, error, s) present open_still =
      elim (Bool-cases (result || error == error_pipe_connected)) [
        | inl e ↦ rw e (refl, (refl, open_still))
        | inr e ↦ rw e (refl, inr (close_nothrow_lem s handle present))
      ]

  instance-IsOwned :
      (name : List ℕ) (r : ℕ × State)
      → (r.0 == 0) ≡ false
      → (r.0 ≢ invalid_handle_value → is_open r.1 r.0 ≡ true)
      → IsOwned r.0 (instance_created name r)
  unfolding instance_created
  instance-IsOwned name (handle, s) present opened =
      elim (Bool-cases (handle == invalid_handle_value)) [
        | inl e ↦ rw e (refl, inl (==→eq handle invalid_handle_value e))
        | inr e ↦ rw e (
            accepted-IsOwned name handle (connect_named_pipe s handle) present
              (connected_open s handle (opened (λ same. ground (arith, e, same)))))
      ]

  -- `accept` keeps no handle to itself: with the handle that the system made it gives out a pipe of
  -- the server's side on that handle, which is open, or it throws `server_accept_failure`. Where it
  -- throws, the handle was none, or it is not open then, or the last call was that which closes it,
  -- and Windows reported a failure of that.
  pub accept-IsOwned :
      (s : State) (name : List ℕ) (io_mode : TransferMode) (in_size out_size : ℕ)
      → IsOwned
          (create_named_pipe s name (bit_or (pipe_type io_mode) pipe_wait) in_size out_size).0
          (accept_pipe s name io_mode in_size out_size)
  unfolding accept_pipe
  accept-IsOwned s name io_mode in_size out_size =
      let mode = bit_or (pipe_type io_mode) pipe_wait in
      instance-IsOwned name (create_named_pipe s name mode in_size out_size)
        (created_handle s name mode in_size out_size) (created_open s name mode in_size out_size)

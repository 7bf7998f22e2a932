-- ===== src/Pipe/Errors.antt =====
-- What the operations of a pipe leave when they fail, and what they report.
use mathlib.Core.Path.{subst}
use vee.Base.{
  ℕ, ◌%◌, ◌^◌, ◌<◌, ◌≡◌, inl, inr, refl, sym, ap, ◌∙◌, Bool, true, false, not, ◌&&◌, Option, none,
  some, List, ◌==◌, ==_refl, Bool-cases, Option-cases, if◌then◌else◌, arith, leb_refl, length,
  take_all,
}
use vee.System.{
  stream_connection_failure, closed_stream, stream_already_connected, Attempt, succeeds, fails,
  library_fails, returns, throws,
}
use vee.Pipe.{
  Pipe, CreationOption, TransferMode, is_open, creation_flag, assigned, adopt, enter_mode, waited,
  is_invalid, created, connect, disconnect, read, written, write, time_out_arg, read_mode_flag,
}
use vee.Pipe.Win32.{Windows}

module _ (windows : Windows) where
  open windows use {
    State, error_pipe_busy, create_file, wait_named_pipe, set_named_pipe_handle_state, write_some,
    invalid_refused,
  }

  -- What `connect` leaves of a pipe, by how it ends.
  abbrev pub Atomic : Pipe → List ℕ → Attempt (Unit {0}) × Pipe × State → Type 0
  Atomic pipe name (succeeds u, p, s) =
      (p.pipe_name ≡ name) × ((p.is_server_side ≡ false) × (is_open pipe ≡ false))
  Atomic pipe name (fails e, p, s) = p ≡ pipe
  Atomic pipe name (library_fails, p, s) =
      (p ≡ record pipe { pipe_name = name; is_server_side = false }) × (is_open pipe ≡ false)

  assigned-Atomic :
      (pipe : Pipe) (name : List ℕ) (handle : Option ℕ) (r : Bool × State)
      → is_open pipe ≡ false
      → Atomic pipe name
          (assigned windows (record pipe { pipe_name = name; is_server_side = false }) handle r)
  unfolding assigned
  assigned-Atomic pipe name handle (false, s) shut = (refl, shut)
  assigned-Atomic pipe name handle (true, s) shut = (refl, (refl, shut))

  adopt-Atomic :
      (pipe : Pipe) (name : List ℕ) (handle : Option ℕ) (r : Bool × State)
      → is_open pipe ≡ false
      → Atomic pipe name (adopt windows pipe name handle r)
  unfolding adopt
  adopt-Atomic pipe name handle (false, s) shut = refl
  adopt-Atomic pipe name handle (true, s) shut = assigned-Atomic pipe name handle _ shut

  waited-Atomic :
      (pipe : Pipe) (name : List ℕ) (mode : TransferMode) (handle : Option ℕ) (r : Bool × State)
      → is_open pipe ≡ false
      → Atomic pipe name (waited windows pipe name mode handle r)
  unfolding waited enter_mode
  waited-Atomic pipe name mode handle (false, s) shut = refl
  waited-Atomic pipe name mode handle (true, s) shut = adopt-Atomic pipe name handle _ shut

  created-Atomic :
      (pipe : Pipe) (name : List ℕ) (mode : TransferMode) (time_out : ℕ) (r : Option ℕ × ℕ × State)
      → is_open pipe ≡ false
      → Atomic pipe name (created windows pipe name mode time_out r)
  unfolding created enter_mode
  created-Atomic pipe name mode time_out (handle, error, s) shut =
      elim (Bool-cases (is_invalid windows handle && not (error == error_pipe_busy))) [
        | inl bad ↦ rw bad refl
        | inr good ↦ elim (Bool-cases (error == error_pipe_busy)) [
          | inl busy ↦ rw (good, busy) (waited-Atomic pipe name mode handle _ shut)
          | inr free ↦ rw (good, free) (adopt-Atomic pipe name handle _ shut)
        ]
      ]

  -- Whatever the system answers: where `connect` returns, the pipe was closed and now has the new
  -- name and the client's side. Where it throws a `vee::exception`, the members of the pipe are as
  -- they were. Where the library throws at `assign`, the handle is as it was, and the name and the
  -- side have changed.
  pub connect-Atomic :
      (pipe : Pipe) (s : State) (name : List ℕ) (option : CreationOption) (mode : TransferMode)
      (time_out : ℕ)
      → Atomic pipe name (connect windows pipe s name option mode time_out)
  unfolding connect
  connect-Atomic pipe s name option mode time_out = elim (Bool-cases (is_open pipe)) [
    | inl opened ↦ rw opened refl
    | inr closed ↦ rw closed (created-Atomic pipe name mode time_out _ closed)
  ]

  adopt_refused :
      (pipe : Pipe) (name : List ℕ) (handle : Option ℕ) (r : Bool × State)
      → r.0 ≡ false
      → ((adopt windows pipe name handle r).0 ≡ fails stream_connection_failure)
        × ((adopt windows pipe name handle r).1 ≡ pipe)
  unfolding adopt
  adopt_refused pipe name handle (false, s) e = (refl, refl)
  adopt_refused pipe name handle (true, s) e = absurd (ground arith)

  -- A closed pipe whose file is busy when it is opened is never connected: even if the wait for
  -- it succeeds, `connect` fails a connection failure and leaves the pipe closed.
  pub connect_busy :
      (pipe : Pipe) (s opened free : State) (name : List ℕ) (option : CreationOption)
      (mode : TransferMode) (time_out : ℕ)
      → pipe.stream_handle ≡ none
      → create_file s name (creation_flag windows option) ≡ (none, error_pipe_busy, opened)
      → wait_named_pipe opened name (time_out_arg windows time_out) ≡ (true, free)
      → ((connect windows pipe s name option mode time_out).0 ≡ fails stream_connection_failure)
        × ((connect windows pipe s name option mode time_out).1 ≡ pipe)
  unfolding connect created waited enter_mode
  connect_busy pipe s opened free name option mode time_out shut busy waits =
      subst (λ r. (r.0 ≡ fails stream_connection_failure) × (r.1 ≡ pipe))
        (sym (
          ap
            (λ b.
              if b
              then (fails stream_already_connected, pipe, s)
              else created windows pipe name mode time_out
                  (create_file s name (creation_flag windows option)))
            closed
          ∙ ap (created windows pipe name mode time_out) busy
          ∙ ap
              (λ b.
                if not b
                then (fails stream_connection_failure, pipe, opened)
                else if b
                then waited windows pipe name mode none
                    (wait_named_pipe opened name (time_out_arg windows time_out))
                else enter_mode windows pipe name mode none opened)
              (==_refl error_pipe_busy)
          ∙ ap (waited windows pipe name mode none) waits))
        (adopt_refused pipe name none
          (set_named_pipe_handle_state free none (read_mode_flag windows mode))
          (invalid_refused free (read_mode_flag windows mode)))
    where
      closed : is_open pipe ≡ false
      closed = ap (λ (h : Option ℕ). elim h [ none ↦ false | some k ↦ true ]) shut

  disconnect_handle : (pipe : Pipe) (s : State) → (disconnect windows pipe s).0.stream_handle ≡ none
  unfolding disconnect
  disconnect_handle pipe s = elim (Option-cases pipe.stream_handle) [
    | inl e ↦ rw e refl
    | inr (h, e) ↦ rw e refl
  ]

  -- `disconnect` closes any pipe, and the pipe then neither reads nor writes.
  pub disconnect-closed :
      (pipe : Pipe) (s t : State) (buffer bytes : List ℕ) (n : ℕ)
      → (is_open (disconnect windows pipe s).0 ≡ false)
        × ((read windows (disconnect windows pipe s).0 t buffer n).0 ≡ throws closed_stream)
        × ((write windows (disconnect windows pipe s).0 t bytes n).0 ≡ throws closed_stream)
  unfolding read write
  disconnect-closed pipe s t buffer bytes n = ground (arith, disconnect_handle pipe s)

  -- A write on an open pipe that the system takes whole reports the size modulo 256.
  pub write_count :
      (pipe : Pipe) (h : ℕ) (s t : State) (bytes : List ℕ)
      → pipe.stream_handle ≡ some h
      → length bytes < 2 ^ 32
      → write_some s h bytes ≡ (some (length bytes), t)
      → write windows pipe s bytes (length bytes) ≡ (returns (length bytes % 256), t)
  unfolding write written
  write_count pipe h s t bytes opened small whole =
      rw (opened, leb_refl (length bytes))
        (ap (λ b. written windows (write_some s h b)) (take_all (length bytes) bytes (omega arith))
          ∙ ap (written windows) whole
          ∙ ap (λ n. (returns n, t)) (omega arith))

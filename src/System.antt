-- ===== src/System.antt =====
-- vee/system.h and vee/exception.h: the error codes, and what a call that may throw comes to.
use vee.Base.{Option, none, some}

-- `enum class error_code`
pub data ErrorCode : Type 0 where
  success stream_already_connected stream_connection_failure server_accept_failure : ErrorCode
  stream_send_failure stream_read_failure stream_disconnected_by_host closed_stream : ErrorCode
  rfc6455_handshake_failure rfc6455_websocket_heartbeat win32_busy_named_pipe : ErrorCode
  win32_close_handle_failure invalid_parameter buffer_is_too_small : ErrorCode

-- A return, a `vee::exception` with its code (no code in the program reads its text), or
-- undefined behaviour.
pub data Outcome {ℓ} (A : Type ℓ) : Type ℓ where
  returns : A → Outcome A
  throws : ErrorCode → Outcome A
  undefined : Outcome A

infixl 5 ◌>>=◌
abbrev pub ◌>>=◌ {ℓ κ} : {A : Type ℓ} {B : Type κ} → Outcome A → (A → Outcome B) → Outcome B
returns a >>= f = f a
throws e >>= f = throws e
undefined >>= f = undefined

-- A step that is undefined where it is `none`.
abbrev pub defined {ℓ} : {A : Type ℓ} → Option A → Outcome A
defined none = undefined
defined (some a) = returns a

-- A return, a `vee::exception` with its code, or an exception of a library.
pub data Attempt {ℓ} (A : Type ℓ) : Type ℓ where
  succeeds : A → Attempt A
  fails : ErrorCode → Attempt A
  library_fails : Attempt A

-- `operation_result`, whose text is not modelled either.
pub record OperationResult : Type 0 where
  pub error : ErrorCode

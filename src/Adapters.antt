-- ===== src/Adapters.antt =====
-- The overloads of libvee_master/stream/async_stream.cpp and libvee_master/voost/net/net.cpp that
-- take a delegate, and the calls without an opcode. A delegate that is passed by reference is copied;
-- one that is passed by a pointer is shared. `invoke` is the effect of a function with arguments.
pub mod Calls
pub mod Passing
pub mod Sharing
mod Tests
use vee.Base.{ℕ, ◌+◌, Option, none, some, List}
use vee.Base.Word.{u32}
use vee.System.{OperationResult, Outcome, returns, throws, undefined}
use vee.Delegate.{Delegate, empty_delegate, deep_copy, call}
use vee.Net.Socket.{Socket}
use vee.Websocket.Endian.{Endian}
use vee.Websocket.Frame.{Opcode, binary_frame}
use vee.Websocket.Packet.{IoResult}
use vee.Websocket.Stream

-- `make_shared` of a delegate.
unfoldable pub copied {ℓ} : {F : Type ℓ} → Delegate F → Delegate F
unfolding deep_copy
copied e = deep_copy empty_delegate e

module _ {ℓ κ} {F : Type ℓ} {World : Type κ} where
  -- The lambda `caller` of each kind of operation.
  unfoldable pub connect_caller :
      (F → OperationResult → World → World) → Delegate F → OperationResult → World → World
  unfolding call
  connect_caller invoke e result = call (λ f. invoke f result) e

  unfoldable pub accept_caller {μ} :
      {S : Type μ}
      → (F → OperationResult → S → World → World)
      → Delegate F
      → OperationResult
      → S
      → World
      → World
  unfolding call
  accept_caller invoke e result stream = call (λ f. invoke f result stream) e

  unfoldable pub read_caller :
      (F → OperationResult → List ℕ → ℕ → ℕ → World → World)
      → Delegate F
      → OperationResult
      → List ℕ
      → ℕ
      → ℕ
      → World
      → World
  unfolding call
  read_caller invoke e result buffer buf_capacity bytes_transferred =
      call (λ f. invoke f result buffer buf_capacity bytes_transferred) e

  unfoldable pub write_caller :
      (F → OperationResult → ℕ → World → World) → Delegate F → OperationResult → ℕ → World → World
  unfolding call
  write_caller invoke e result bytes_transferred = call (λ f. invoke f result bytes_transferred) e

-- `websocket_stream`, by its operations with an opcode.
module _ (boost : Endian) (socket : Socket) where
  open socket use {State}

  unfoldable pub total : Outcome IoResult × State → Outcome ℕ × State
  total (returns result, s) = (returns (u32 (result.header_size + result.payload_size)), s)
  total (throws e, s) = (throws e, s)
  total (undefined, s) = (undefined, s)

  unfoldable pub write_binary : State → List ℕ → ℕ → Outcome ℕ × State
  unfolding total
  write_binary s bytes len = total (Stream.write boost socket s binary_frame bytes len)

  unfoldable pub payload_count :
      Option (Outcome IoResult × List ℕ × State) → Option (Outcome ℕ × List ℕ × State)
  payload_count none = none
  payload_count (some (returns result, buffer, s)) = some (returns result.payload_size, buffer, s)
  payload_count (some (throws e, buffer, s)) = some (throws e, buffer, s)
  payload_count (some (undefined, buffer, s)) = some (undefined, buffer, s)

  unfoldable pub read_payload : ℕ → State → List ℕ → ℕ → Option (Outcome ℕ × List ℕ × State)
  unfolding payload_count
  read_payload fuel s buffer buf_capacity =
      payload_count (Stream.read_payload_only boost socket fuel s buffer buf_capacity)

  -- `async_write` with an opcode and a pointer to a delegate, which does not use the opcode.
  unfoldable pub async_write_shared : State → Opcode → List ℕ → ℕ → Outcome (Unit {0}) × State
  async_write_shared s opcode bytes len = Stream.async_write boost socket s binary_frame bytes len

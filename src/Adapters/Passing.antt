-- ===== src/Adapters/Passing.antt =====
-- The families of overloads of libvee_master/voost/net/net.cpp and
-- libvee_master/stream/async_stream.cpp by the ways to pass a delegate. `start` is the overload
-- with a callback, which is a virtual function. The callback looks into the delegates that are
-- shared by pointers when it is called.
use vee.Base.{ℕ, suc, List, update}
use vee.System.{OperationResult}
use vee.Delegate.{Delegate, copied_delegate, moved_delegate}
use vee.Websocket.Frame.{Opcode, binary_frame}
use vee.Adapters.{connect_caller, accept_caller, read_caller, write_caller}

-- The objects of `make_shared`.
pub record Heap {ℓ} (F : Type ℓ) : Type ℓ where
  pub next : ℕ
  pub cells : ℕ → Delegate F

-- The argument: a delegate, or a pointer to one.
pub data Passing {ℓ} (F : Type ℓ) : Type ℓ where
  reference rvalue : Delegate F → Passing F
  pointer rvalue_pointer : ℕ → Passing F

unfoldable pub make_shared {ℓ} : {F : Type ℓ} → Heap F → Delegate F → ℕ × Heap F
make_shared heap e =
    (heap.next, record { next = suc heap.next; cells = update heap.cells heap.next e })

-- `rest` and `rest_entries` are what a container has that was moved from.
module _ {ℓ} {F : Type ℓ} (rest : List F → List F)
    (rest_entries : List (ℕ × F) → List (ℕ × F)) where
  -- The pointer that the lambda `caller` has, and the objects after.
  unfoldable pub hold : Heap F → Passing F → ℕ × Heap F
  unfolding make_shared copied_delegate moved_delegate
  hold heap (reference e) = make_shared heap (copied_delegate e)
  hold heap (rvalue e) = make_shared heap (moved_delegate rest rest_entries e).0
  hold heap (pointer p) = (p, heap)
  hold heap (rvalue_pointer p) = (p, heap)

  -- A parameter that is a value is copied again.
  unfoldable pub hold_value : Heap F → Passing F → ℕ × Heap F
  unfolding make_shared copied_delegate moved_delegate
  hold_value heap (reference e) = make_shared heap (copied_delegate (copied_delegate e))
  hold_value heap (rvalue e) =
      make_shared heap (copied_delegate (moved_delegate rest rest_entries e).0)
  hold_value heap (pointer p) = (p, heap)
  hold_value heap (rvalue_pointer p) = (p, heap)

module _ {ℓ κ ι} {F : Type ℓ} {World : Type κ} {R : Type ι} (rest : List F → List F)
    (rest_entries : List (ℕ × F) → List (ℕ × F)) where
  -- `net_stream::async_connect`
  unfoldable pub async_connect :
      (F → OperationResult → World → World)
      → ((OperationResult → Heap F → World → World) → R)
      → Heap F
      → Passing F
      → R × Heap F
  unfolding hold connect_caller
  async_connect invoke start heap e =
      let held = hold rest rest_entries heap e in
      (start (λ result later. connect_caller invoke (later.cells held.0) result), held.1)

  -- `net_server::async_accept`
  unfoldable pub async_accept {μ} :
      {S : Type μ}
      → (F → OperationResult → S → World → World)
      → ((OperationResult → S → Heap F → World → World) → R)
      → Heap F
      → Passing F
      → R × Heap F
  unfolding hold_value accept_caller
  async_accept invoke start heap e =
      let held = hold_value rest rest_entries heap e in
      (
        start (λ result stream later. accept_caller invoke (later.cells held.0) result stream),
        held.1,
      )

  -- `async_stream::async_write`, of any stream.
  unfoldable pub async_write :
      (F → OperationResult → ℕ → World → World)
      → ((OperationResult → ℕ → Heap F → World → World) → R)
      → Heap F
      → Passing F
      → R × Heap F
  unfolding hold write_caller
  async_write invoke start heap e =
      let held = hold rest rest_entries heap e in
      (start (λ result n later. write_caller invoke (later.cells held.0) result n), held.1)

  -- `websocket_stream::async_write` with an opcode, which only the overloads with a callback use.
  unfoldable pub async_write_opcode :
      (F → OperationResult → ℕ → World → World)
      → (Opcode → (OperationResult → ℕ → Heap F → World → World) → R)
      → Opcode
      → Heap F
      → Passing F
      → R × Heap F
  unfolding hold write_caller
  async_write_opcode invoke start opcode heap e =
      let held = hold rest rest_entries heap e in
      (
        start binary_frame (λ result n later. write_caller invoke (later.cells held.0) result n),
        held.1,
      )

  -- `async_stream::async_read`, of any stream.
  unfoldable pub async_read :
      (F → OperationResult → List ℕ → ℕ → ℕ → World → World)
      → ((OperationResult → List ℕ → ℕ → ℕ → Heap F → World → World) → R)
      → Heap F
      → Passing F
      → R × Heap F
  unfolding hold read_caller
  async_read invoke start heap e =
      let held = hold rest rest_entries heap e in
      (
        start (λ result buffer buf_capacity n later.
            read_caller invoke (later.cells held.0) result buffer buf_capacity n),
        held.1,
      )

  -- `websocket_stream::async_read_payload_only`
  unfoldable pub async_read_payload_only :
      (F → OperationResult → List ℕ → ℕ → ℕ → World → World)
      → ((OperationResult → List ℕ → ℕ → ℕ → Heap F → World → World) → R)
      → Heap F
      → Passing F
      → R × Heap F
  unfolding hold read_caller
  async_read_payload_only invoke start heap e =
      let held = hold rest rest_entries heap e in
      (
        start (λ result buffer buf_capacity n later.
            read_caller invoke (later.cells held.0) result buffer buf_capacity n),
        held.1,
      )

  -- `websocket_stream::async_read_all`
  unfoldable pub async_read_all :
      (F → OperationResult → List ℕ → ℕ → ℕ → World → World)
      → ((OperationResult → List ℕ → ℕ → ℕ → Heap F → World → World) → R)
      → Heap F
      → Passing F
      → R × Heap F
  unfolding hold read_caller
  async_read_all invoke start heap e =
      let held = hold rest rest_entries heap e in
      (
        start (λ result buffer buf_capacity n later.
            read_caller invoke (later.cells held.0) result buffer buf_capacity n),
        held.1,
      )

-- `websocket_stream::async_write` and `async_read` of a callback.
unfoldable pub async_write_callback {ℓ κ} : {C : Type ℓ} {R : Type κ} → (Opcode → C → R) → C → R
async_write_callback start e = start binary_frame e

unfoldable pub async_read_callback {ℓ κ} : {C : Type ℓ} {R : Type κ} → (C → R) → C → R
async_read_callback start_payload_only e = start_payload_only e

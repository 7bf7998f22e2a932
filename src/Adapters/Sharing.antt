-- ===== src/Adapters/Sharing.antt =====
-- Which functions are called when an operation ends, by the way its delegate was passed.
use vee.Base.{ℕ, ◌≡◌, refl, ap, ◌∙◌, List, [], ◌∷◌, ◌++◌, map, ==_refl, if◌then◌else◌}
use vee.System.{OperationResult}
use vee.Websocket.Frame.{Opcode, binary_frame}
use vee.Delegate.{Delegate, copied_delegate, moved_delegate}
use vee.Delegate.Calls.{functions}
use vee.Delegate.Removal.{constructed}
use vee.Adapters.{connect_caller, read_caller, write_caller}
use vee.Adapters.Calls.{call-log}
use vee.Adapters.Passing.{
  Heap, Passing, reference, rvalue, pointer, rvalue_pointer, make_shared, hold, async_connect,
  async_read_payload_only, async_write_opcode,
}

module _ {ℓ} {F : Type ℓ} where
  -- The delegate as it was passed, or the one that a pointer has at the end.
  abbrev pub delegate_of : Heap F → Passing F → Delegate F
  delegate_of later (reference e) = e
  delegate_of later (rvalue e) = e
  delegate_of later (pointer p) = later.cells p
  delegate_of later (rvalue_pointer p) = later.cells p

module _ {ℓ κ} {F : Type ℓ} {X : Type κ} where
  -- A function notes the arguments of its call.
  abbrev pub noting_result : (F → OperationResult → X) → F → OperationResult → List X → List X
  noting_result note f result log = log ++ note f result ∷ []

  abbrev pub noting_write :
      (F → OperationResult → ℕ → X) → F → OperationResult → ℕ → List X → List X
  noting_write note f result n log = log ++ note f result n ∷ []

  abbrev pub noting_read :
      (F → OperationResult → List ℕ → ℕ → ℕ → X)
      → F
      → OperationResult
      → List ℕ
      → ℕ
      → ℕ
      → List X
      → List X
  noting_read note f result buffer buf_capacity n log =
      log ++ note f result buffer buf_capacity n ∷ []

module _ {ℓ} {F : Type ℓ} (rest : List F → List F)
    (rest_entries : List (ℕ × F) → List (ℕ × F)) where
  -- No one else has the pointer to a copy, and so the copy is what it was.
  abbrev pub IsKept : Heap F → Passing F → Heap F → Type ℓ
  IsKept heap passing later =
      later.cells heap.next ≡ (hold rest rest_entries heap passing).1.cells heap.next

  held_lem :
      (heap later : Heap F) (passing : Passing F)
      → IsKept heap passing later
      → later.cells (hold rest rest_entries heap passing).0 ≡ delegate_of later passing
  unfolding hold make_shared
  held_lem heap later (reference e) kept =
      kept
      ∙ (ap (λ b. if b then copied_delegate e else heap.cells heap.next) (==_refl heap.next)
          ∙ (constructed rest rest_entries e).0)
  held_lem heap later (rvalue e) kept =
      kept
      ∙ (ap (λ b. if b then (moved_delegate rest rest_entries e).0 else heap.cells heap.next)
            (==_refl heap.next)
          ∙ (constructed rest rest_entries e).1)
  held_lem heap later (pointer p) kept = refl
  held_lem heap later (rvalue_pointer p) kept = refl

  module _ {κ} {X : Type κ} where
    called :
        (note : F → X) (heap later : Heap F) (passing : Passing F) (log : List X)
        → IsKept heap passing later
        → log ++ map note (functions (later.cells (hold rest rest_entries heap passing).0))
          ≡ log ++ map note (functions (delegate_of later passing))
    called note heap later passing log kept =
        ap (λ d. log ++ map note (functions d)) (held_lem heap later passing kept)

    -- The callback that an overload with a delegate starts a connect, a read or a WebSocket write
    -- with: at the end of the operation it calls each function once and in order, with the results.
    -- Of a delegate that was passed itself these are the functions it had at the start, and of a
    -- pointer those that the delegate has at the end. The write is of a binary frame for any opcode.
    pub started_functions :
        (connects : F → OperationResult → X) (writes : F → OperationResult → ℕ → X)
        (reads : F → OperationResult → List ℕ → ℕ → ℕ → X) (opcode : Opcode) (heap later : Heap F)
        (passing : Passing F) (result : OperationResult) (buffer : List ℕ) (buf_capacity n : ℕ)
        (log : List X)
        → IsKept heap passing later
        → ((async_connect rest rest_entries (noting_result connects) (λ e. e) heap passing).0 result
              later log
            ≡ log ++ map (λ f. connects f result) (functions (delegate_of later passing)))
          × ((async_read_payload_only rest rest_entries (noting_read reads) (λ e. e) heap passing).0
                result buffer buf_capacity n later log
              ≡ log
                ++ map
                    (λ f. reads f result buffer buf_capacity n)
                    (functions (delegate_of later passing)))
          × (◌≡◌ {A = Opcode × List X}
              (async_write_opcode rest rest_entries
                (noting_write writes)
                (λ sent e. (sent, e result n later log))
                opcode
                heap
                passing).0
              (
                binary_frame,
                log ++ map (λ f. writes f result n) (functions (delegate_of later passing)),
              ))
    unfolding async_connect async_read_payload_only async_write_opcode connect_caller read_caller
        write_caller
    started_functions connects writes reads opcode heap later passing result buffer buf_capacity n
          log kept =
        (
          call-log (λ f. connects f result) (later.cells (hold rest rest_entries heap passing).0)
                log
              ∙ called (λ f. connects f result) heap later passing log kept,
          call-log (λ f. reads f result buffer buf_capacity n)
                (later.cells (hold rest rest_entries heap passing).0) log
              ∙ called (λ f. reads f result buffer buf_capacity n) heap later passing log kept,
          ap (λ l. (binary_frame, l))
              (call-log (λ f. writes f result n)
                  (later.cells (hold rest rest_entries heap passing).0) log
                ∙ called (λ f. writes f result n) heap later passing log kept),
        )

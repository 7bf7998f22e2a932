-- ===== src/Adapters/Tests.antt =====
-- Delegates in operations at work, with numbers as functions.
use vee.Base.{ℕ, ◌+◌, refl, ◌==◌, if◌then◌else◌, List, ◌≡◌, true, [], ◌∷◌, ◌++◌, map}
use vee.System.{stream_read_failure, OperationResult}
use vee.Delegate.{Delegate, add, call, call_each, call_entries}
use vee.Delegate.Calls.{functions}
use vee.Net.Tcp.{result_of}
use vee.Adapters.{connect_caller}
use vee.Adapters.Passing.{
  Heap, reference, pointer, hold, make_shared, async_connect, async_read_payload_only,
  async_write_opcode,
}
use vee.Adapters.Sharing.{noting_result, noting_read, noting_write, started_functions}
use vee.Websocket.Frame.{Opcode, binary_frame, text_frame}

abbrev two : Delegate ℕ
two = record { container = 5 ∷ []; idx_container = (1, 6) ∷ [] }

-- The delegate is the object 0, and it has one function more when the operations end.
abbrev before : Heap ℕ
before = record { next = 1; cells = λ p. two }

abbrev after : Heap ℕ
after = record { next = 2; cells = λ p. if p == 0 then add two 4 else two }

abbrev note_result : ℕ → OperationResult → ℕ
note_result f result = f

abbrev note_count : ℕ → OperationResult → ℕ → ℕ
note_count f result n = f + n

abbrev note_buffer : ℕ → OperationResult → List ℕ → ℕ → ℕ → ℕ
note_buffer f result buffer buf_capacity n = f

started_functions_example :
    ((async_connect (λ l. l) (λ l. l) (noting_result note_result) (λ e. e) before (reference two)).0
        (result_of stream_read_failure true)
        after
        []
      ≡ [] ++ map (λ f. f) (functions two))
    × ((async_read_payload_only
            (λ l. l)
            (λ l. l)
            (noting_read note_buffer)
            (λ e. e)
            before
            (reference two)).0
          (result_of stream_read_failure true)
          (0 ∷ [])
          1
          1
          after
          []
        ≡ [] ++ map (λ f. f) (functions two))
    × (◌≡◌ {A = Opcode × List ℕ}
        (async_write_opcode
          (λ l. l)
          (λ l. l)
          (noting_write note_count)
          (λ sent e. (sent, e (result_of stream_read_failure true) 1 after []))
          text_frame
          before
          (reference two)).0
        (binary_frame, [] ++ map (λ f. f + 1) (functions two)))
started_functions_example =
    started_functions (λ l. l) (λ l. l) note_result note_count note_buffer text_frame before after
      (reference two) (result_of stream_read_failure true) (0 ∷ []) 1 1 []
      (unfold hold make_shared in refl)

-- Passed by a pointer, the function that was added meanwhile is called too.
pointer_test :
    (async_connect (λ l. l) (λ l. l) (noting_result note_result) (λ e. e) before (pointer 0)).0
      (result_of stream_read_failure true)
      after
      []
    ≡ 5 ∷ 4 ∷ 6 ∷ []
unfolding async_connect hold connect_caller add call call_each call_entries
pointer_test = refl

-- ===== src/Adapters/Calls.antt =====
-- What a delegate is called with when an operation ends.
use vee.Base.{
  ℕ, ◌≡◌, refl, sym, ap, ap₂, ◌∙◌, Bool, List, [], ◌∷◌, ◌++◌, map, append_assoc, append-nil,
}
use vee.System.{stream_read_failure, stream_send_failure, OperationResult}
use vee.Delegate.{Delegate, copy_unless_empty, deep_copy, call, call_each, call_entries}
use vee.Delegate.Calls.{functions}
use vee.Net.Tcp.{result_of, handle_read, handle_write}
use vee.Adapters.{copied, read_caller, write_caller}

module _ {ℓ κ} {F : Type ℓ} {X : Type κ} (note : F → X) where
  -- A call is noted with its arguments.
  abbrev log_of : F → List X → List X
  log_of f log = log ++ note f ∷ []

  call_each-log : (fs : List F) (log : List X) → call_each log_of fs log ≡ log ++ map note fs
  unfolding call_each
  call_each-log [] log = sym (append-nil log)
  call_each-log (f ∷ fs) log =
      call_each-log fs (log ++ note f ∷ []) ∙ append_assoc log (note f ∷ []) (map note fs)

  call_entries-log :
      (entries : List (ℕ × F)) (log : List X)
      → call_entries log_of entries log ≡ log ++ map (λ (entry : ℕ × F). note entry.1) entries
  unfolding call_entries
  call_entries-log [] log = sym (append-nil log)
  call_entries-log ((k, f) ∷ entries) log =
      call_entries-log entries (log ++ note f ∷ [])
      ∙ append_assoc log (note f ∷ []) (map (λ (entry : ℕ × F). note entry.1) entries)

  map-functions :
      (fs : List F) (entries : List (ℕ × F))
      → map note (fs ++ map (λ (entry : ℕ × F). entry.1) entries)
        ≡ map note fs ++ map (λ (entry : ℕ × F). note entry.1) entries
  map-functions [] [] = refl
  map-functions [] ((k, f) ∷ entries) = ap (◌∷◌ (note f)) (map-functions [] entries)
  map-functions (f ∷ fs) entries = ap (◌∷◌ (note f)) (map-functions fs entries)

  pub call-log : (d : Delegate F) (log : List X) → call log_of d log ≡ log ++ map note (functions d)
  unfolding call
  call-log d log =
      call_entries-log d.idx_container (call_each log_of d.container log)
      ∙ ap (λ l. l ++ map (λ (entry : ℕ × F). note entry.1) d.idx_container)
          (call_each-log d.container log)
      ∙ append_assoc log (map note d.container)
          (map (λ (entry : ℕ × F). note entry.1) d.idx_container)
      ∙ ap (λ l. log ++ l) (sym (map-functions d.container d.idx_container))

copy-nil {ℓ} : {A : Type ℓ} (xs : List A) → copy_unless_empty [] xs ≡ xs
unfolding copy_unless_empty
copy-nil [] = refl
copy-nil (x ∷ xs) = refl

functions-copied {ℓ} : {F : Type ℓ} (d : Delegate F) → functions (copied d) ≡ functions d
unfolding copied deep_copy
functions-copied {F} d =
    ap₂ (λ fs (entries : List (ℕ × F)). fs ++ map (λ (entry : ℕ × F). entry.1) entries)
      (copy-nil d.container) (copy-nil d.idx_container)

-- What a function is called with.
pub data Note {ℓ} (F : Type ℓ) : Type ℓ where
  reads : F → OperationResult → List ℕ → ℕ → ℕ → Note F
  writes : F → OperationResult → ℕ → Note F

module _ {ℓ} {F : Type ℓ} where
  abbrev pub note_read : F → OperationResult → List ℕ → ℕ → ℕ → List (Note F) → List (Note F)
  note_read f result buffer buf_capacity n log = log ++ reads f result buffer buf_capacity n ∷ []

  abbrev pub note_write : F → OperationResult → ℕ → List (Note F) → List (Note F)
  note_write f result n log = log ++ writes f result n ∷ []

  -- When a read or a write of a TCP stream that was started with a delegate ends, each function
  -- that the delegate had is called once, in the order of the delegate, with the result of the
  -- operation, the buffer and its capacity where it is a read, and the count of bytes.
  pub caller-functions :
      (d : Delegate F) (error : Bool) (buffer : List ℕ) (buf_capacity n : ℕ) (log : List (Note F))
      → (handle_read (read_caller note_read (copied d)) buffer buf_capacity error n log
          ≡ log
            ++ map
                (λ f. reads f (result_of stream_read_failure error) buffer buf_capacity n)
                (functions d))
        × (handle_write (write_caller note_write (copied d)) error n log
            ≡ log ++ map (λ f. writes f (result_of stream_send_failure error) n) (functions d))
  unfolding handle_read handle_write read_caller write_caller
  caller-functions d error buffer buf_capacity n log = (
    call-log reading (copied d) log ∙ ap (λ fs. log ++ map reading fs) (functions-copied d),
    call-log writing (copied d) log ∙ ap (λ fs. log ++ map writing fs) (functions-copied d),
  )
    where
      reading : F → Note F
      reading f = reads f (result_of stream_read_failure error) buffer buf_capacity n

      writing : F → Note F
      writing f = writes f (result_of stream_send_failure error) n

-- ===== src/Websocket/Stream/Callbacks.antt =====
-- The handlers of the asynchronous reads: data is handed to the callback once, a failure twice.
use vee.Base.{ℕ, ◌+◌, ◌^◌, ◌<◌, ◌≡◌, refl, ap, ◌∙◌, Bool, true, some, List, [], ◌∷◌, ◌++◌, length}
use vee.System.{success, rfc6455_websocket_heartbeat, OperationResult, returns, undefined}
use vee.Websocket.Endian.{Endian}
use vee.Websocket.Rfc.{Length, IsLength, value, Key, encode}
use vee.Websocket.Frame.{opcode_of}
use vee.Websocket.Frame.Analyze.{key_or}
use vee.Websocket.Packet.{refusal}
use vee.Websocket.Packet.Unmask.{masked}
use vee.Websocket.Packet.RoundTrip.{IsData, IsRead, zeros, preprocess_lem, preprocess-refused}
use vee.Websocket.Stream.{
  Callback, is_failure, report_failure, is_heartbeat, rethrow, try_all, try_payload_only, on_all,
  on_payload_only,
}

module _ (boost : Endian) (e : Callback) where
  no_report :
      (result : OperationResult) (buffer : List ℕ) (capacity received : ℕ)
      → result.error ≡ success
      → report_failure e result buffer capacity received ≡ ([], buffer)
  unfolding report_failure is_failure
  no_report result buffer capacity received fine = rw (fine, report_failure) refl

  one_report :
      (result : OperationResult) (buffer : List ℕ) (capacity received : ℕ)
      → is_failure result.error ≡ true
      → e result buffer capacity received ≡ buffer
      → report_failure e result buffer capacity received ≡ ((result, received) ∷ [], buffer)
  unfolding report_failure
  one_report result buffer capacity received failed left = rw (failed, left, report_failure) refl

  -- An `async_read_all` that has succeeded with a frame with data, whose length is read right, in
  -- the buffer: the callback is called once, with the count of bytes received, and is given the
  -- buffer with the payload unmasked.
  pub on_all_data :
      (result : OperationResult) (fin : Bool) (nibble : ℕ) (key : Key) (len : Length)
      (payload rest : List ℕ) (capacity received : ℕ)
      → result.error ≡ success
      → nibble < 16
      → IsData (opcode_of nibble)
      → IsRead len
      → length payload ≡ value len
      → length (encode fin nibble key len) + value len < 2 ^ 32
      → on_all boost e result (encode fin nibble key len ++ (payload ++ rest)) capacity received ≡ (
        (result, received) ∷ [],
        returns (
            e result
              (encode fin nibble key len ++ (masked (key_or key zeros) 0 payload ++ rest))
              capacity
              received),
      )
  unfolding on_all try_all
  on_all_data result fin nibble key len payload rest capacity received fine hn data_op read size
        fits =
      ap (try_all boost e result capacity received)
        (no_report result (encode fin nibble key len ++ (payload ++ rest)) capacity received fine)
      ∙ rw
          (
            preprocess_lem boost fin nibble key len payload rest received hn data_op read size fits,
            try_all,
          )
          refl

  -- After a read that has failed, with a frame with data, whose length is read right, in the
  -- buffer, and a callback that leaves the buffer: the callback is called twice with the failure.
  pub on_all_failed :
      (result : OperationResult) (fin : Bool) (nibble : ℕ) (key : Key) (len : Length)
      (payload rest : List ℕ) (capacity received : ℕ)
      → is_failure result.error ≡ true
      → e result (encode fin nibble key len ++ (payload ++ rest)) capacity received
        ≡ encode fin nibble key len ++ (payload ++ rest)
      → nibble < 16
      → IsData (opcode_of nibble)
      → IsRead len
      → length payload ≡ value len
      → length (encode fin nibble key len) + value len < 2 ^ 32
      → (on_all boost e result (encode fin nibble key len ++ (payload ++ rest)) capacity received).0
        ≡ (result, received) ∷ (result, received) ∷ []
  unfolding on_all try_all
  on_all_failed result fin nibble key len payload rest capacity received failed left hn data_op read
        size fits =
      ap (λ r. (try_all boost e result capacity received r).0)
        (one_report result (encode fin nibble key len ++ (payload ++ rest)) capacity received failed
          left)
      ∙ rw
          (
            preprocess_lem boost fin nibble key len payload rest received hn data_op read size fits,
            try_all,
          )
          refl

  -- A heartbeat in the buffer of either asynchronous read that has succeeded: the callback is not
  -- called, and the handler uses a variable that is gone.
  pub handlers_heartbeat :
      (result : OperationResult) (fin : Bool) (nibble : ℕ) (key : Key) (len : Length)
      (rest : List ℕ) (capacity received : ℕ)
      → result.error ≡ success
      → nibble < 16
      → IsLength len
      → refusal (opcode_of nibble) ≡ some rfc6455_websocket_heartbeat
      → (on_all boost e result (encode fin nibble key len ++ rest) capacity received
          ≡ ([], undefined))
        × (on_payload_only boost e result (encode fin nibble key len ++ rest) capacity received
            ≡ ([], undefined))
  unfolding on_all on_payload_only try_all try_payload_only rethrow is_heartbeat
  handlers_heartbeat result fin nibble key len rest capacity received fine hn hl beat =
      let thrown =
        preprocess-refused boost fin nibble key len rest received rfc6455_websocket_heartbeat hn hl
          beat in
      let silent = no_report result (encode fin nibble key len ++ rest) capacity received fine in
      (
        ap (try_all boost e result capacity received) silent ∙ rw (thrown, try_all) refl,
        ap (try_payload_only boost e result capacity received) silent
            ∙ rw (thrown, try_payload_only) refl,
      )

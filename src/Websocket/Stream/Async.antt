-- ===== src/Websocket/Stream/Async.antt =====
-- The asynchronous reads of `xwebsocket_stream` from their start to their end, and how they compare
-- with the others.
use vee.Base.{
  ℕ, ◌≡◌, refl, sym, ap, ◌∙◌, Bool, true, false, Option, none, some, List, [], ◌∷◌, ◌++◌, length,
  drop, leb_refl, if◌then◌else◌,
}
use vee.Base.Word.{u32}
use vee.System.{success, Outcome, returns, throws, undefined}
use vee.Net.Socket.{Socket, Endpoint}
use vee.Net.Tcp
use vee.Net.Tcp.{zeroed, handle_read, result_of}
use vee.Websocket.Endian.{Endian}
use vee.Websocket.Frame.{Header}
use vee.Websocket.Packet.{IoResult, preprocess}
use vee.Websocket.Stream.{
  Callback, Handled, is_failure, report_failure, is_heartbeat, rethrow, try_payload_only,
  on_payload_only, payload_only, read_all, read_payload_only, catch_heartbeat, try_read, unpack,
}

-- The buffer behind a read of these bytes.
abbrev pub behind_read : List ℕ → List ℕ → List ℕ
behind_read buffer bytes = bytes ++ drop (length bytes) (zeroed (length buffer) buffer)

module _ (boost : Endian) (socket : Socket) where
  open socket use {State, read_some}

  -- The starts: the stream below gets the operation.
  unfoldable pub start_connect : State → Endpoint → State
  start_connect s ep = Tcp.async_connect socket s ep

  unfoldable pub start_read : State → List ℕ → ℕ → Outcome (Unit {0}) × State
  unfolding Tcp.async_read
  start_read s buffer buf_capacity = Tcp.async_read socket s buffer buf_capacity

  -- What a read without a failure comes to, as the handler of an asynchronous read reports it. A
  -- round that has to be repeated is one behind which the handler is undefined.
  abbrev pub reported : Callback → ℕ → Option (Outcome IoResult × List ℕ × State) → Handled
  reported e buf_capacity none = ([], undefined)
  reported e buf_capacity (some (throws code, filled, s)) = ([], throws code)
  reported e buf_capacity (some (undefined, filled, s)) = ([], undefined)
  reported e buf_capacity (some (returns sizes, filled, s)) = (
    (result_of success false, sizes.payload_size) ∷ [],
    returns (e (result_of success false) filled buf_capacity sizes.payload_size),
  )

  -- What `read_payload_only` makes of a round.
  abbrev alone :
      ℕ → Option (Outcome IoResult × List ℕ × State) → Option (Outcome IoResult × List ℕ × State)
  alone buf_capacity none = none
  alone buf_capacity (some (throws code, filled, s)) = some (throws code, filled, s)
  alone buf_capacity (some (undefined, filled, s)) = some (undefined, filled, s)
  alone buf_capacity (some (returns sizes, filled, s)) =
      elim (payload_only sizes filled buf_capacity) [
        | none ↦ some (undefined, filled, s)
        | some payload ↦ some (returns sizes, payload, s)
      ]

  alone_lem :
      (s : State) (buffer : List ℕ) (buf_capacity : ℕ)
      (r : Option (Outcome IoResult × List ℕ × State))
      → read_all boost socket 1 s buffer buf_capacity ≡ r
      → read_payload_only boost socket 1 s buffer buf_capacity ≡ alone buf_capacity r
  unfolding read_payload_only
  alone_lem s buffer buf_capacity none e = rw (e, read_payload_only) refl
  alone_lem s buffer buf_capacity (some (throws code, filled, t)) e = rw (e, read_payload_only) refl
  alone_lem s buffer buf_capacity (some (undefined, filled, t)) e = rw (e, read_payload_only) refl
  alone_lem s buffer buf_capacity (some (returns sizes, filled, t)) e =
      rw (e, read_payload_only) refl

  tcp_read_lem :
      {s t : State} (buffer bytes : List ℕ)
      → read_some s (length buffer) ≡ (some bytes, t)
      → Tcp.read socket s buffer (length buffer)
        ≡ (returns (u32 (length bytes)), behind_read buffer bytes, t)
  unfolding Tcp.read Tcp.received
  tcp_read_lem {s} {t} buffer bytes got =
      ap
        (λ b.
          if b
          then Tcp.received socket (length buffer) buffer (read_some s (length buffer))
          else (undefined, buffer, s))
        (leb_refl (length buffer))
      ∙ ap (Tcp.received socket (length buffer) buffer) got

  -- A round behind what the frame in the buffer is unpacked to.
  abbrev round :
      List ℕ
      → State
      → Outcome (IoResult × Header × List ℕ)
      → Option (Outcome IoResult × List ℕ × State)
  round filled t (returns (sizes, header, unmasked)) = some (returns sizes, unmasked, t)
  round filled t (throws code) = if is_heartbeat code then none else some (throws code, filled, t)
  round filled t undefined = some (undefined, filled, t)

  round_lem :
      {s t : State} (buffer bytes : List ℕ) (p : Outcome (IoResult × Header × List ℕ))
      → read_some s (length buffer) ≡ (some bytes, t)
      → preprocess boost (behind_read buffer bytes) (u32 (length bytes)) ≡ p
      → read_all boost socket 1 s buffer (length buffer) ≡ round (behind_read buffer bytes) t p
  unfolding read_all try_read catch_heartbeat
  round_lem {s} {t} buffer bytes p got e =
      ap (λ r. catch_heartbeat boost socket (λ s' filled. none) (unpack boost socket r))
        (tcp_read_lem buffer bytes got)
      ∙ caught p e
    where
      caught :
          (p : Outcome (IoResult × Header × List ℕ))
          → preprocess boost (behind_read buffer bytes) (u32 (length bytes)) ≡ p
          → catch_heartbeat boost socket
              (λ s' filled. none)
              (unpack boost socket (returns (u32 (length bytes)), behind_read buffer bytes, t))
            ≡ round (behind_read buffer bytes) t p
      caught (returns (sizes, header, unmasked)) e = rw (e, unpack) refl
      caught undefined e = rw (e, unpack) refl
      caught (throws code) e = rw (e, unpack) (by_code (is_heartbeat code))
        where
          by_code :
              (b : Bool)
              → ◌≡◌ {A = Option (Outcome IoResult × List ℕ × State)}
                  (elim b [ true ↦ none | false ↦ some (throws code, behind_read buffer bytes, t) ])
                  (if b then none else some (throws code, behind_read buffer bytes, t))
          by_code true = refl
          by_code false = refl

  -- The handler behind a frame that is unpacked to this.
  handled_lem :
      (e : Callback) (buffer bytes : List ℕ) (t : State) (p : Outcome (IoResult × Header × List ℕ))
      → preprocess boost (behind_read buffer bytes) (u32 (length bytes)) ≡ p
      → on_payload_only boost e
          (result_of success false)
          (behind_read buffer bytes)
          (length buffer)
          (u32 (length bytes))
        ≡ reported e (length buffer) (alone (length buffer) (round (behind_read buffer bytes) t p))
  unfolding on_payload_only report_failure is_failure result_of try_payload_only rethrow
  handled_lem e buffer bytes t (returns (sizes, header, unmasked)) h =
      rw (h, try_payload_only) (by_payload (payload_only sizes unmasked (length buffer)))
    where
      by_payload :
          (o : Option (List ℕ))
          → ◌≡◌ {A = Handled}
              (elim o [
                | none ↦ ([], undefined)
                | some payload ↦ (
                  (result_of success false, sizes.payload_size) ∷ [],
                  returns (e (result_of success false) payload (length buffer) sizes.payload_size),
                )
              ])
              (reported e (length buffer) (elim o [
                | none ↦ some (undefined, unmasked, t)
                | some payload ↦ some (returns sizes, payload, t)
              ]))
      by_payload none = refl
      by_payload (some payload) = refl
  handled_lem e buffer bytes t (throws code) h =
      rw (h, try_payload_only) (by_code (is_heartbeat code))
    where
      by_code :
          (b : Bool)
          → ◌≡◌ {A = Handled}
              ([], if b then undefined else throws code)
              (reported e (length buffer) (
                alone
                  (length buffer)
                  (if b then none else some (throws code, behind_read buffer bytes, t))))
      by_code true = refl
      by_code false = refl
  handled_lem e buffer bytes t undefined h = rw (h, try_payload_only) refl

  -- Bytes have been read without a failure into a zeroed buffer. What the handler of
  -- `async_read_payload_only` comes to is then what one round of `read_payload_only` comes to that
  -- reads the same bytes: the callback is called once, with the payload in the same buffer, or there
  -- is the same exception and no call. Where the round has read a heartbeat, and is repeated, the
  -- handler is undefined.
  pub async_payload-read_payload_only :
      (e : Callback) {s t : State} (buffer bytes : List ℕ)
      → read_some s (length buffer) ≡ (some bytes, t)
      → handle_read
          (on_payload_only boost e)
          (behind_read buffer bytes)
          (length buffer)
          false
          (u32 (length bytes))
        ≡ reported e (length buffer) (read_payload_only boost socket 1 s buffer (length buffer))
  unfolding handle_read result_of
  async_payload-read_payload_only e {s} {t} buffer bytes got =
      handled_lem e buffer bytes t
        (preprocess boost (behind_read buffer bytes) (u32 (length bytes))) refl
      ∙ ap (reported e (length buffer)) (
          sym (
            alone_lem s buffer (length buffer) _ (
              round_lem buffer bytes
                (preprocess boost (behind_read buffer bytes) (u32 (length bytes))) got refl)))

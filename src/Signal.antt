-- ===== src/Signal.antt =====
-- vee/signal_channel.h: `signal_channel`, as the steps of one thread that calls `recv` and of the
-- threads that call `try_send`. Each function is one access to what they share; `none` is a thread
-- that has to wait, or one that is elsewhere. An exchange may fail without a reason, and is
-- repeated, or `try_send` returns false: then it changes nothing.
pub mod Order
mod Tests
use vee.Base.{
  ℕ, suc, ◌≡◌, Bool, true, false, Option, none, some, List, [], ◌∷◌, ◌++◌, ◌==◌, if◌then◌else◌,
  get_elem?, take, drop,
}

-- The values of `_state`.
abbrev pub idle : ℕ
idle = 0

abbrev pub wait : ℕ
wait = 1

abbrev pub sig : ℕ
sig = 2

-- Where the thread stands that calls `recv`: outside, in the loop of the first exchange, in front
-- of the publication of its promise, in `future.get()`, and with a result in front of
-- `_receiver_ptr = nullptr` and in the loop of the last exchange.
pub data Receiver {ℓ} (T : Type ℓ) : Type ℓ where
  outside entering offering getting : Receiver T
  clearing leaving : T → Receiver T

-- The members, with the promise that `_receiver_ptr` points to where it is not null, and the values
-- of the threads in `try_send` behind their exchange. `broken` is the exception of `set_value` on a
-- promise that has a value. The values of the calls of `try_send` that return true are in `sent`, in
-- the order of their exchanges, and those that `recv` has returned in `received`.
pub record Channel {ℓ} (T : Type ℓ) : Type ℓ where
  pub state : ℕ
  pub receiver_ptr : Bool
  pub promise : Option T
  pub receiver : Receiver T
  pub sending : List T
  pub broken : Bool
  pub sent : List T
  pub received : List T

abbrev pub init {ℓ} : {T : Type ℓ} → Channel T
init = record {
  state = idle;
  receiver_ptr = false;
  promise = none;
  receiver = outside;
  sending = [];
  broken = false;
  sent = [];
  received = [];
}

module _ {ℓ} {T : Type ℓ} where
  -- Behind `future.get()`.
  unfoldable pub get : Option T → Channel T → Option (Channel T)
  get none c = none
  get (some value) c = some (record c { promise = none; receiver = clearing value })

  -- One step of `recv`; outside it is called, and throws where the state is WAIT.
  unfoldable pub recv : Receiver T → Channel T → Option (Channel T)
  unfolding get
  recv outside c = if c.state == wait then none else some (record c { receiver = entering })
  recv entering c =
      if c.state == idle then some (record c { state = wait; receiver = offering }) else none
  recv offering c = some (record c { receiver_ptr = true; promise = none; receiver = getting })
  recv getting c = get c.promise c
  recv (clearing result) c = some (record c { receiver_ptr = false; receiver = leaving result })
  recv (leaving result) c =
      if c.state == sig
      then some
          (record c { state = idle; receiver = outside; received = c.received ++ result ∷ [] })
      else none

  -- The exchange of `try_send`; where it fails, false is returned.
  unfoldable pub try_send : T → Channel T → Option (Channel T)
  try_send value c =
      if c.state == wait
      then some
          (record c { state = sig; sending = c.sending ++ value ∷ []; sent = c.sent ++ value ∷ [] })
      else none

  -- `_receiver_ptr->set_value(value)` of a thread behind its exchange, when the pointer is not null.
  unfoldable pub put : T → Option T → Channel T → Channel T
  put value none c = record c { promise = some value }
  put value (some other) c = record c { broken = true }

  unfoldable pub deliver : Option T → List T → Channel T → Option (Channel T)
  unfolding put
  deliver none others c = none
  deliver (some value) others c =
      if c.receiver_ptr then some (put value c.promise (record c { sending = others })) else none

  -- The thread is one of those behind their exchange.
  unfoldable pub set_value : ℕ → Channel T → Option (Channel T)
  unfolding deliver
  set_value i c = deliver (get_elem? c.sending i) (take i c.sending ++ drop (suc i) c.sending) c

  -- A step of some thread.
  pub data Step (c : Channel T) (d : Channel T) : Type ℓ where
    receives : recv c.receiver c ≡ some d → Step c d
    sends : (value : T) → try_send value c ≡ some d → Step c d
    sets : (i : ℕ) → set_value i c ≡ some d → Step c d

  pub data Reach (c : Channel T) : Channel T → Type ℓ where
    here : Reach c c
    later : {d e : Channel T} → Reach c d → Step d e → Reach c e

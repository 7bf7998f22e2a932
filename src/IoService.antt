-- ===== src/IoService.antt =====
-- vee/voost/asio.h and libvee_master/voost/asio_impl.cpp: `io_service_sigleton`, as the steps of
-- the thread that its constructor starts and of the thread that destroys it. The event loop is a
-- library's: what stopping makes of it, and whether `run` can return, are parameters. An exception
-- of `run`, which ends the program, is left out.
pub mod Counts
pub mod Steps
pub mod Shutdown
mod Tests
use vee.Base.{ℕ, suc, ◌≡◌, Bool, Option, none, some, if◌then◌else◌}
use mathlib.Core.Option as Option
use vee.Signal.{Channel, Receiver, leaving}
use vee.Signal as Signal

-- `alram_channel`, the channel whose signals carry no value.
abbrev pub AlramChannel : Type 0
AlramChannel = Channel (Unit {0})

-- `recv` of `signal_channel<void>`, and `try_send` with what is behind its exchange, where one thread
-- sends: the code of any other channel without the value.
abbrev pub alram_recv : AlramChannel → Option AlramChannel
alram_recv c = Signal.recv c.receiver c

abbrev pub alram_try_send : AlramChannel → Option AlramChannel
alram_try_send c = Signal.try_send tt c

abbrev pub alram_set_value : AlramChannel → Option AlramChannel
alram_set_value c = Signal.set_value 0 c

-- Where the thread stands: in `run`, in the loop of `try_send`, behind its exchange, and behind the
-- lambda.
pub data Runner : Type 0 where
  running signalling setting finished : Runner

-- Where the destructor stands: not called, in front of `detach`, in `recv`, and returned.
pub data Owner : Type 0 where
  alive stopped receiving gone : Owner

pub record Singleton {ℓ} (S : Type ℓ) : Type ℓ where
  pub io_service : S
  pub runner : Runner
  pub owner : Owner
  pub sigch : AlramChannel

-- After the constructor.
abbrev pub new_singleton {ℓ} : {S : Type ℓ} → S → Singleton S
new_singleton s = record { io_service = s; runner = running; owner = alive; sigch = Signal.init }

-- `recv` returns behind its last exchange, and the destructor with it.
abbrev pub after_recv : Receiver (Unit {0}) → Owner
after_recv (leaving u) = gone
after_recv _ = receiving

module _ {ℓ} {S : Type ℓ} (stop : S → S) (can_return : S → Bool) where
  -- One step of the destructor.
  unfoldable pub destroy : Owner → Singleton S → Option (Singleton S)
  destroy alive s = some (record s { io_service = stop s.io_service; owner = stopped })
  destroy stopped s = some (record s { owner = receiving })
  destroy receiving s =
      Option.map (λ c. record s { sigch = c; owner = after_recv s.sigch.receiver })
        (alram_recv s.sigch)
  destroy gone s = none

  -- One step of the thread. A `try_send` that returns false is repeated, and is no step.
  unfoldable pub run : Runner → Singleton S → Option (Singleton S)
  run running s = if can_return s.io_service then some (record s { runner = signalling }) else none
  run signalling s =
      Option.map (λ c. record s { sigch = c; runner = setting }) (alram_try_send s.sigch)
  run setting s =
      Option.map (λ c. record s { sigch = c; runner = finished }) (alram_set_value s.sigch)
  run finished s = none

  pub data Step (s : Singleton S) (t : Singleton S) : Type ℓ where
    destroys : destroy s.owner s ≡ some t → Step s t
    runs : run s.runner s ≡ some t → Step s t

  -- What is reached in a number of steps.
  pub data Reach (s : Singleton S) : ℕ → Singleton S → Type ℓ where
    here : Reach s 0 s
    later : {n : ℕ} {t u : Singleton S} → Reach s n t → Step t u → Reach s (suc n) u

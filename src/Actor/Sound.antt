-- ===== src/Actor/Sound.antt =====
-- What every order of the steps keeps.
pub mod Calls
pub mod Work
pub mod Orders
use mathlib.Core.Path.{subst}
use vee.Base.{
  ℕ, suc, ◌+◌, ◌-◌, ◌≤◌, ◌<◌, ◌≡◌, ◌≢◌, ◌⊎◌, inl, inr, Bool-cases, refl, sym, ap, ◌∙◌, Bool, true,
  false, Option, none, some, List, [], ◌∷◌, ◌++◌, ◌==◌, if◌then◌else◌, arith, length, length-append,
  append_assoc, append-nil,
}
use vee.Base.Word.{increment, decrement, int_max}
use vee.Queue.Fifo
use vee.Actor.{
  spawn, loaded, idle, proc, dead, Signal, active, go_exit, Worker, starting, greeting, readying,
  enabling, receiving, dequeuing, fetching, calling, finishing, resting, leaving, ending, ended,
  failed, Killer, outside, killing, stopping, awaiting, Requests, Actor, init, is_receiving,
  is_free, test, admit, reserved, post, write_slot, count, exchange, wake, receive, take_mail,
  leave, work, kill, Step, tests, admits, posts, stores, counts, exchanges, wakes, works, kills,
  Reach, here, later,
}

module _ {ℓ} {A : Type ℓ} where
  -- 1 where the worker has a mail that it has not counted down.
  abbrev pub in_call : Worker A → ℕ
  in_call (fetching mail) = 1
  in_call (calling mail) = 1
  in_call finishing = 1
  in_call _ = 0

  -- 1 where the worker is in the loop of `_epoch`, and 1 where it is in `_epoch`.
  abbrev pub in_loop : Worker A → ℕ
  in_loop dequeuing = 1
  in_loop (fetching mail) = 1
  in_loop (calling mail) = 1
  in_loop finishing = 1
  in_loop _ = 0

  abbrev pub in_epoch : Worker A → ℕ
  in_epoch resting = 1
  in_epoch w = in_loop w

  -- The mail that is taken and not yet called.
  abbrev pub in_hand : Worker A → List A
  in_hand (fetching mail) = mail ∷ []
  in_hand (calling mail) = mail ∷ []
  in_hand _ = []

  -- The phases in which the worker may stand where it does.
  abbrev pub IsAt : Worker A → ℕ → Type 0
  IsAt starting p = p ≡ spawn
  IsAt greeting p = p ≡ loaded
  IsAt readying p = p ≡ loaded
  IsAt enabling p = (p ≡ idle) ⊎ ((p ≡ proc) ⊎ (p ≡ dead))
  IsAt receiving p = (p ≡ idle) ⊎ ((p ≡ proc) ⊎ (p ≡ dead))
  IsAt dequeuing p = p ≡ proc
  IsAt (fetching mail) p = p ≡ proc
  IsAt (calling mail) p = p ≡ proc
  IsAt finishing p = p ≡ proc
  IsAt resting p = p ≡ proc
  IsAt leaving p = p ≡ dead
  IsAt ending p = p ≡ dead
  IsAt ended p = p ≡ dead
  IsAt failed p = ⊥

abbrev pub is_active : Option Signal → ℕ
is_active (some active) = 1
is_active _ = 0

abbrev pub is_exit : Option Signal → ℕ
is_exit (some go_exit) = 1
is_exit _ = 0

abbrev pub is_proc : ℕ → ℕ
is_proc p = if p == proc then 1 else 0

abbrev pub is_dead : ℕ → ℕ
is_dead p = if p == dead then 1 else 0

-- 1 where `kill` has made its exchange.
abbrev pub is_past : Killer → ℕ
is_past stopping = 1
is_past awaiting = 1
is_past _ = 0

-- The mails are all there, in their order, and counted, or about to be counted. One thread or
-- signal, and no more, is to wake the worker or keeps it awake, just where mails are counted. The
-- phase is PROC just from the exchange that wakes the worker to the one at the end of `_epoch`.
pub record IsSound {ℓ} {A : Type ℓ} (s : Actor A) : Type ℓ where
  pub small : s.queue_size ≤ int_max
  pub held : length s.mailbox + length (reserved s.writer) ≤ s.queue_size
  pub counted : length s.mailbox + in_call s.worker ≡ s.mailbox_counter + s.requests.counting
  pub tokens :
      s.requests.exchanging + s.requests.signalling + is_active s.signal + in_loop s.worker
      ≡ (if s.mailbox_counter == 0 then 0 else 1)
  pub busy : s.requests.signalling + is_active s.signal + in_epoch s.worker ≡ is_proc s.state
  pub at : IsAt s.worker s.state
  pub past : is_past s.killer ≤ is_dead s.state
  pub leaves : is_exit s.signal ≤ is_dead s.state
  pub in_order : s.accepted ≡ s.done ++ (in_hand s.worker ++ (s.mailbox ++ reserved s.writer))

pub init-IsSound {ℓ} : {A : Type ℓ} (n : ℕ) → n ≤ int_max → IsSound (init {A = A} n)
init-IsSound n h = record {
  small = h;
  held = omega arith;
  counted = refl;
  tokens = refl;
  busy = refl;
  at = refl;
  past = omega arith;
  leaves = omega arith;
  in_order = refl;
}

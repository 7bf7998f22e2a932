-- ===== src/Actor.antt =====
-- vee/actor.h: `actor`, as the steps of the threads that share one. Each function here is one
-- access to what they share; `none` is a thread that has to wait, or one that is elsewhere.
-- A mail, which is a delegate with its arguments, is an item of any type, and calling it is noted.
-- A signal is in the channel from the end of `try_send` to the end of `recv`. A mail that throws
-- would end the worker and the program with it: mails are such that do not throw.
--
-- The mailbox is the queue of vee/queue.h, whose slots are not locked. `enqueue` is two steps, the
-- one under `_index_guard`, which reserves a slot, and the write into the slot; `dequeue` is two
-- steps, the one under `_index_guard` and the read of the slot. `mailbox` has the mails that are
-- written, and `writer` the one whose slot is reserved. The steps are those of the runs in which no
-- `enqueue` begins while another one, or a `dequeue`, is between its two steps; in other runs a
-- mail may be lost. A `dequeue` may begin at any time.
pub mod Sound
pub mod Drained
pub mod Advance
pub mod Progress
pub mod Dead
pub mod Respawn
pub mod Lives
mod Tests
use vee.Base.{
  ℕ, suc, ◌+◌, length, ◌-◌, ◌≡◌, Bool, true, false, ◌&&◌, Option, none, some, List, [], ◌∷◌, ◌++◌,
  ◌==◌, if◌then◌else◌,
}
use vee.Base.Word.{increment, decrement}
use vee.Queue.Fifo

-- The values of `_state`.
abbrev pub spawn : ℕ
spawn = 0

abbrev pub loaded : ℕ
loaded = 1

abbrev pub idle : ℕ
idle = 3

abbrev pub proc : ℕ
proc = 4

abbrev pub dead : ℕ
dead = 5

-- The values of `sigid` that go to the worker.
pub data Signal : Type 0 where
  active go_exit : Signal

-- Where the worker thread stands, in `_actormain` (up to `receiving`, and from `leaving` on) and in
-- `_epoch`. `fetching` is in `dequeue`, with the mail in the slot. `failed` is an exception that
-- ends the thread, or the read of a slot that is not written.
pub data Worker {ℓ} (A : Type ℓ) : Type ℓ where
  starting greeting readying enabling receiving dequeuing : Worker A
  fetching calling : A → Worker A
  finishing resting leaving ending ended failed : Worker A

-- Where a thread that calls `kill` stands.
pub data Killer : Type 0 where
  outside killing stopping awaiting : Killer

-- How many threads stand at a place of `request_with_argstuple`: between the two tests, behind
-- them, behind `enqueue`, in the loop of the exchange, and in the loop of `try_send`.
pub record Requests : Type 0 where
  pub tested : ℕ
  pub admitted : ℕ
  pub counting : ℕ
  pub exchanging : ℕ
  pub signalling : ℕ

-- The members of an actor and its threads, with the mails taken into the mailbox so far, and those
-- called so far.
pub record Actor {ℓ} (A : Type ℓ) : Type ℓ where
  pub workable : Bool
  pub state : ℕ
  pub signal : Option Signal
  pub queue_size : ℕ
  pub mailbox : List A
  pub writer : Option A
  pub mailbox_counter : ℕ
  pub worker : Worker A
  pub requests : Requests
  pub killer : Killer
  pub accepted : List A
  pub done : List A

-- `actor(mailbox_size)`, with its thread not yet at work.
abbrev pub init {ℓ} : {A : Type ℓ} → ℕ → Actor A
init mailbox_size = record {
  workable = false;
  state = spawn;
  signal = none;
  queue_size = mailbox_size;
  mailbox = [];
  writer = none;
  mailbox_counter = 0;
  worker = starting;
  requests = record { tested = 0; admitted = 0; counting = 0; exchanging = 0; signalling = 0 };
  killer = outside;
  accepted = [];
  done = [];
}

-- `try_send` succeeds where the worker waits in `recv` and no other signal is on its way.
unfoldable pub is_receiving {ℓ} : {A : Type ℓ} → Worker A → Bool
is_receiving receiving = true
is_receiving _ = false

unfoldable pub is_free : Option Signal → Bool
is_free none = true
is_free (some signal) = false

module _ {ℓ} {A : Type ℓ} where
  -- `!_workable`; where it holds, -1 is returned.
  unfoldable pub test : Actor A → Option (Actor A)
  test s =
      if s.workable
      then some (record s { requests = record s.requests { tested = suc s.requests.tested } })
      else none

  -- `_state.load() == DEAD`, where -1 is returned.
  unfoldable pub admit : Actor A → Option (Actor A)
  admit s =
      let left = s.requests.tested - 1 in
      if s.requests.tested == 0
      then none
      else if s.state == dead
      then some (record s { requests = record s.requests { tested = left } })
      else some (record s {
        requests = record s.requests { tested = left; admitted = suc s.requests.admitted };
      })

  -- The slot that is reserved, as a list.
  abbrev pub reserved : Option A → List A
  reserved none = []
  reserved (some mail) = mail ∷ []

  -- `enqueue` under `_index_guard`; where the queue is full it refuses the mail, and -2 is
  -- returned.
  unfoldable pub post : A → Actor A → Option (Actor A)
  post mail s =
      let left = s.requests.admitted - 1 in
      if s.requests.admitted == 0
      then none
      else if length s.mailbox + length (reserved s.writer) == s.queue_size
      then some (record s { requests = record s.requests { admitted = left } })
      else some (record s {
        writer = some mail;
        accepted = s.accepted ++ mail ∷ [];
        requests = record s.requests { admitted = left };
      })

  -- The write into the slot that is reserved, and the end of `enqueue`.
  unfoldable pub write_slot : Option A → Actor A → Option (Actor A)
  write_slot none s = none
  write_slot (some mail) s = some (record s {
    writer = none;
    mailbox = s.mailbox ++ mail ∷ [];
    requests = record s.requests { counting = suc s.requests.counting };
  })

  -- `_mailbox_counter++`; where the old value is 0, the worker is woken, and else it is returned.
  unfoldable pub count : Actor A → Option (Actor A)
  count s =
      let left = s.requests.counting - 1 in
      if s.requests.counting == 0
      then none
      else some (record s {
        mailbox_counter = increment s.mailbox_counter;
        requests = record s.requests {
          counting = left;
          exchanging =
              if s.mailbox_counter == 0 then suc s.requests.exchanging else s.requests.exchanging;
        };
      })

  -- `compare_and_swap_strong(_state, IDLE, PROC)`
  unfoldable pub exchange : Actor A → Option (Actor A)
  exchange s =
      let left = s.requests.exchanging - 1 in
      if s.requests.exchanging == 0
      then none
      else if s.state == idle
      then some (record s {
        state = proc;
        requests = record s.requests { exchanging = left; signalling = suc s.requests.signalling };
      })
      else none

  -- `try_send(sigid::active)`
  unfoldable pub wake : Actor A → Option (Actor A)
  unfolding is_receiving is_free
  wake s =
      let left = s.requests.signalling - 1 in
      if s.requests.signalling == 0
      then none
      else if is_receiving s.worker && is_free s.signal
      then some
          (record s { signal = some active; requests = record s.requests { signalling = left } })
      else none

  -- Behind `recv` of the worker, in `dequeue` behind `_index_guard`, and `exit_ok`, for which
  -- `kill` waits.
  unfoldable pub receive : Option Signal → Actor A → Option (Actor A)
  receive none s = none
  receive (some active) s = some (record s { signal = none; worker = dequeuing })
  receive (some go_exit) s = some (record s { signal = none; worker = leaving })

  unfoldable pub take_mail : Option A × List A → Option A → Actor A → Actor A
  take_mail (none, items) none s = record s { worker = receiving }
  take_mail (none, items) (some unwritten) s = record s { worker = failed }
  take_mail (some mail, items) writer s = record s { mailbox = items; worker = fetching mail }

  unfoldable pub leave : Killer → Actor A → Option (Actor A)
  leave awaiting s = some (record s { killer = outside; worker = ending })
  leave _ s = none

  -- One step of the worker.
  unfoldable pub work : Worker A → Actor A → Option (Actor A)
  unfolding Fifo.pop receive take_mail leave
  work starting s =
      if s.state == spawn
      then some (record s { state = loaded; worker = greeting })
      else some (record s { worker = failed })
  work greeting s = some (record s { worker = readying })
  work readying s = some (record s { state = idle; worker = enabling })
  work enabling s = some (record s { workable = true; worker = receiving })
  work receiving s = receive s.signal s
  work dequeuing s = some (take_mail (Fifo.pop s.mailbox) s.writer s)
  work (fetching mail) s = some (record s { worker = calling mail })
  work (calling mail) s = some (record s { done = s.done ++ mail ∷ []; worker = finishing })
  work finishing s =
      let left = decrement s.mailbox_counter in
      some (record s { mailbox_counter = left; worker = if left == 0 then resting else dequeuing })
  work resting s =
      if s.state == proc
      then some (record s { state = idle; worker = receiving })
      else some (record s { worker = failed })
  work leaving s = leave s.killer s
  work ending s = some (record s { state = dead; worker = ended })
  work ended s = none
  work failed s = none

  -- One step of `kill`: `_workable = false`, the exchange of IDLE for DEAD, and `go_exit`. The
  -- worker ends it with `exit_ok`.
  unfoldable pub kill : Killer → Actor A → Option (Actor A)
  unfolding is_receiving is_free
  kill outside s = some (record s { workable = false; killer = killing })
  kill killing s =
      if s.state == idle then some (record s { state = dead; killer = stopping }) else none
  kill stopping s =
      if is_receiving s.worker && is_free s.signal
      then some (record s { signal = some go_exit; killer = awaiting })
      else none
  kill awaiting s = none

  abbrev pub is_fetching : Worker A → Bool
  is_fetching (fetching mail) = true
  is_fetching _ = false

  -- A step of some thread.
  pub data Step (s : Actor A) (t : Actor A) : Type ℓ where
    tests : test s ≡ some t → Step s t
    admits : admit s ≡ some t → Step s t
    posts :
        (mail : A)
        → s.writer ≡ none
        → is_fetching s.worker ≡ false
        → post mail s ≡ some t
        → Step s t
    stores : write_slot s.writer s ≡ some t → Step s t
    counts : count s ≡ some t → Step s t
    exchanges : exchange s ≡ some t → Step s t
    wakes : wake s ≡ some t → Step s t
    works : work s.worker s ≡ some t → Step s t
    kills : kill s.killer s ≡ some t → Step s t

  pub data Reach (s : Actor A) : Actor A → Type ℓ where
    here : Reach s s
    later : {t u : Actor A} → Reach s t → Step t u → Reach s u

-- ===== src/IoService/Counts.antt =====
-- What the steps of the channel leave and what each thread has left to do.
use vee.Base.{
  All, All-if, ℕ, suc, ◌+◌, ◌≡◌, refl, Option, none, some, List, [], ◌∷◌, ◌++◌, ◌==◌, arith, take,
  drop, get_elem?,
}
use vee.Signal.{
  Receiver, idle, wait, sig, outside, entering, offering, getting, clearing, leaving, get, recv,
  try_send, set_value, deliver, put,
}
use vee.IoService.{
  AlramChannel, Runner, running, signalling, setting, finished, Owner, alive, stopped, receiving,
  gone, Singleton, after_recv,
}

abbrev pub Units : Type 0
Units = List (Unit {0})

-- The signals that the thread has sent, and the one that it has not put into the promise.
abbrev pub sent_by : Runner → Units
sent_by running = []
sent_by signalling = []
sent_by setting = tt ∷ []
sent_by finished = tt ∷ []

abbrev pub sending_by : Runner → Units
sending_by running = []
sending_by signalling = []
sending_by setting = tt ∷ []
sending_by finished = []

abbrev pub received_by : Owner → Units
received_by alive = []
received_by stopped = []
received_by receiving = []
received_by gone = tt ∷ []

-- `recv` is under way in the destructor only.
abbrev pub IsCalledBy : Owner → Receiver (Unit {0}) → Type 0
IsCalledBy receiving r = Unit
IsCalledBy alive r = r ≡ outside
IsCalledBy stopped r = r ≡ outside
IsCalledBy gone r = r ≡ outside

-- The steps that are left to each thread.
abbrev pub receiver_left : Receiver (Unit {0}) → ℕ
receiver_left outside = 6
receiver_left entering = 5
receiver_left offering = 4
receiver_left getting = 3
receiver_left (clearing u) = 2
receiver_left (leaving u) = 1

abbrev pub owner_left : Owner → Receiver (Unit {0}) → ℕ
owner_left alive r = 8
owner_left stopped r = 7
owner_left receiving r = receiver_left r
owner_left gone r = 0

abbrev pub runner_left : Runner → ℕ
runner_left running = 3
runner_left signalling = 2
runner_left setting = 1
runner_left finished = 0

abbrev pub left {ℓ} : {S : Type ℓ} → Singleton S → ℕ
left s = owner_left s.owner s.sigch.receiver + runner_left s.runner

abbrev pub received_after : List (Unit {0}) → Receiver (Unit {0}) → Units
received_after values (leaving u) = values ++ u ∷ []
received_after values _ = values

-- The lists of signals and the steps left, behind a step of `recv`.
abbrev pub Received : AlramChannel → Receiver (Unit {0}) → AlramChannel → Type 0
Received c r d =
    (d.sent ≡ c.sent)
    × (d.sending ≡ c.sending)
    × (d.received ≡ received_after c.received r)
    × IsCalledBy (after_recv r) d.receiver
    × (suc (owner_left (after_recv r) d.receiver) ≡ receiver_left r)

get-Received :
    (c : AlramChannel) (promise : Option (Unit {0})) → All (Received c getting) (get promise c)
unfolding get
get-Received c none = tt
get-Received c (some value) = (refl, refl, refl, tt, refl)

pub recv-Received : (c : AlramChannel) (r : Receiver (Unit {0})) → All (Received c r) (recv r c)
unfolding recv
recv-Received c outside =
    All-if (Received c outside) (c.state == wait) _ _ (λ b. tt) (λ b. (refl, refl, refl, tt, refl))
recv-Received c entering =
    All-if (Received c entering) (c.state == idle) _ _ (λ b. (refl, refl, refl, tt, refl)) (λ b. tt)
recv-Received c offering = (refl, refl, refl, tt, refl)
recv-Received c getting = get-Received c c.promise
recv-Received c (clearing u) = (refl, refl, refl, tt, refl)
recv-Received c (leaving u) =
    All-if (Received c (leaving u)) (c.state == sig) _ _ (λ b. (refl, refl, refl, refl, refl))
      (λ b. tt)

-- Behind the exchange of `try_send`, and behind `set_value`.
abbrev pub Sent : AlramChannel → AlramChannel → Type 0
Sent c d =
    (d.sent ≡ c.sent ++ tt ∷ [])
    × (d.sending ≡ c.sending ++ tt ∷ [])
    × (d.received ≡ c.received)
    × (d.receiver ≡ c.receiver)

pub try_send-Sent : (c : AlramChannel) → All (Sent c) (try_send tt c)
unfolding try_send
try_send-Sent c = All-if (Sent c) (c.state == wait) _ _ (λ b. (refl, refl, refl, refl)) (λ b. tt)

abbrev pub Set : AlramChannel → AlramChannel → Type 0
Set c d =
    (d.sent ≡ c.sent) × (d.sending ≡ []) × (d.received ≡ c.received) × (d.receiver ≡ c.receiver)

put-Set :
    (c : AlramChannel) (promise : Option (Unit {0})) → c.sending ≡ [] → Set c (put tt promise c)
unfolding put
put-Set c none e = (refl, e, refl, refl)
put-Set c (some u) e = (refl, e, refl, refl)

deliver-Set :
    (c : AlramChannel) (sending : Units)
    → sending ≡ tt ∷ []
    → All (Set c) (deliver (get_elem? sending 0) (take 0 sending ++ drop 1 sending) c)
unfolding deliver
deliver-Set c [] e = absurd (ground (arith, e))
deliver-Set c (u ∷ v ∷ rest) e = absurd (ground (arith, e))
deliver-Set c (tt ∷ []) e =
    All-if (Set c) c.receiver_ptr _ _ (λ b. put-Set (record c { sending = [] }) c.promise refl)
      (λ b. tt)

pub set_value-Set : (c : AlramChannel) → c.sending ≡ tt ∷ [] → All (Set c) (set_value 0 c)
unfolding set_value
set_value-Set c e = deliver-Set c c.sending e

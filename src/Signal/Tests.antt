-- ===== src/Signal/Tests.antt =====
-- A channel at work, with numbers as signals.
use vee.Base.{ℕ, ◌≡◌, ◌≤◌, refl, false, [], ◌∷◌, ◌++◌, length}
use vee.Signal.{
  sig, leaving, Channel, init, get, recv, try_send, put, deliver, set_value, receives, sends, sets,
  Reach, here, later,
}
use vee.Signal.Order.{under_way, channel-one_place}

-- The sender exchanges before the receiver publishes its promise, and sets the promise after.
abbrev taken : Channel ℕ
taken = record init { state = sig; receiver = leaving 5; sent = 5 ∷ [] }

taken-Reach : Reach init taken
unfolding recv get try_send set_value deliver put
taken-Reach =
    later
      (later
        (later
          (later (later (later (later here (receives refl)) (receives refl)) (sends 5 refl))
            (receives refl))
          (sets 0 refl))
        (receives refl))
      (receives refl)

channel-one_place_example :
    (taken.sent ≡ taken.received ++ under_way taken)
    × ((length (under_way taken) ≤ 1) × (taken.broken ≡ false))
channel-one_place_example = channel-one_place taken taken-Reach

-- ===== src/IoService/Tests.antt =====
-- A service that only knows whether it was stopped, and a whole shutdown.
use vee.Base.{◌≡◌, refl, Bool, true, false, [], ◌∷◌}
use vee.Signal.{idle, outside}
use vee.Signal as Signal
use vee.IoService.{
  Singleton, new_singleton, finished, gone, destroy, run, destroys, runs, Reach, here, later,
}
use vee.IoService.Shutdown.{gone-finished}

abbrev stop_service : Bool → Bool
stop_service s = true

abbrev can_return : Bool → Bool
can_return s = s

abbrev shut_down : Singleton Bool
shut_down = record {
  io_service = true;
  runner = finished;
  owner = gone;
  sigch = record (Signal.init {T = Unit {0}}) { sent = tt ∷ []; received = tt ∷ [] };
}

shutdown : Reach stop_service can_return (new_singleton false) 11 shut_down
unfolding destroy run Signal.recv Signal.get Signal.try_send Signal.set_value Signal.deliver
    Signal.put
shutdown =
    later
      (later
        (later
          (later
            (later
              (later
                (later
                  (later
                    (later (later (later here (destroys refl)) (destroys refl)) (destroys refl))
                    (runs refl))
                  (destroys refl))
                (runs refl))
              (destroys refl))
            (runs refl))
          (destroys refl))
        (destroys refl))
      (destroys refl)

gone-finished_example : (shut_down.runner ≡ finished) × (shut_down.sigch.state ≡ idle)
gone-finished_example = gone-finished stop_service can_return (λ s. refl) shutdown refl

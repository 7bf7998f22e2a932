-- ===== src/Actor/Respawn.antt =====
-- `respawn` of vee/actor.h: an actor that is killed and lives again. Its exchange and the start of
-- the new thread are one step, with which the worker is at its start; the one thread that kills an
-- actor calls it. A detached thread cannot be waited for: the step is there only where the old
-- thread has stored DEAD, and `late_store` is what it does otherwise.
use vee.Base.{◌≡◌, Option, none, some, ◌==◌, if◌then◌else◌}
use vee.Actor.{spawn, dead, starting, ended, outside, Actor, Step, Reach, here, later}

module _ {ℓ} {A : Type ℓ} where
  -- `_spawn`: a new thread is at its start.
  unfoldable pub spawn_thread : Actor A → Actor A
  spawn_thread s = record s { worker = starting }

  -- `respawn`; where the state is not DEAD, false is returned.
  unfoldable pub respawn : Actor A → Option (Actor A)
  unfolding spawn_thread
  respawn s = if s.state == dead then some (spawn_thread (record s { state = spawn })) else none

  -- The end of `_actormain` of an old thread.
  unfoldable pub late_store : Actor A → Actor A
  late_store s = record s { state = dead }

  pub data Life (s : Actor A) : Actor A → Type ℓ where
    begins : Life s s
    steps : {t u : Actor A} → Life s t → Step t u → Life s u
    respawns :
        {t u : Actor A}
        → Life s t
        → t.killer ≡ outside
        → t.worker ≡ ended
        → respawn t ≡ some u
        → Life s u

  pub Life-Reach : {s t u : Actor A} → Life s t → Reach t u → Life s u
  Life-Reach r here = r
  Life-Reach r (later r' st) = steps (Life-Reach r r') st

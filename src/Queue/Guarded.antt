-- ===== src/Queue/Guarded.antt =====
-- The sections under `_index_guard` of a ring queue, step by step of the spin lock.
use mathlib.Core.Path.{subst}
use native.Mathlib.Decide.{dec_lt}
use vee.Base.{
  ℕ, ◌≡◌, refl, sym, ◌∙◌, false, Option, none, some, List, [], ◌∷◌, map, arith, get_elem?-of_lt,
}
use vee.Lock.Threads.{Shared, start, Reach}
use vee.Lock.Serial.{run, Reach-serial}
use vee.Queue.{Ring, reserve, release}
use vee.Queue.Invariant.{IsValid, advance_lem}
use vee.Queue.Race.Granted.{reserve-Granted, release-Granted, reserve_room, release_first}

-- What a thread does under the guard: it reserves a slot to write, or releases one to read.
pub data Section : Type 0 where
  reserving releasing : Section

module _ {ℓ} {A : Type ℓ} where
  some_slot :
      {slot : ℕ} {q q' : Ring A}
      → ◌≡◌ {A = Option (Option ℕ × Ring A)} (some (some slot, q)) (some (none, q'))
      → ⊥
  some_slot e = ground (arith, e)

  -- The ring after; a refusal leaves it as it is.
  unfoldable pub ring_of : Ring A → Option (Option ℕ × Ring A) → Ring A
  ring_of q none = q
  ring_of q (some (slot, q')) = q'

  unfoldable pub section_of : Section → Ring A → Ring A
  unfolding ring_of
  section_of reserving q = ring_of q (reserve q)
  section_of releasing q = ring_of q (release q)

  refused_reserve : (q q' : Ring A) → IsValid q → reserve q ≡ some (none, q') → q ≡ q'
  unfolding reserve
  refused_reserve q q' v e = elim (dec_lt q.size q.capacity) [
    | yes room ↦ absurd (some_slot (sym (reserve_room q v room) ∙ e))
    | no full ↦ ground (
      arith,
      e,
      advance_lem q.rear q.capacity,
      advance_lem q.front q.capacity,
      get_elem?-of_lt q.item_guards q.rear false,
      v.guards,
      v.rear_at,
      v.front_in,
    )
  ]

  refused_release : (q q' : Ring A) → IsValid q → release q ≡ some (none, q') → q ≡ q'
  unfolding release
  refused_release q q' v e = elim (dec_lt 0 q.size) [
    | yes some_items ↦ absurd (some_slot (sym (release_first q v some_items) ∙ e))
    | no empty ↦ ground (arith, e)
  ]

  section-IsValid : (d : A) (s : Section) (q : Ring A) → IsValid q → IsValid (section_of s q)
  unfolding section_of ring_of
  section-IsValid d reserving q v = by_result (reserve q) refl
    where
      by_result : (r : Option (Option ℕ × Ring A)) → reserve q ≡ r → IsValid (ring_of q r)
      by_result none e = v
      by_result (some (none, q')) e = subst IsValid (refused_reserve q q' v e) v
      by_result (some (some slot, q')) e = (reserve-Granted d q v e).1
  section-IsValid d releasing q v = by_result (release q) refl
    where
      by_result : (r : Option (Option ℕ × Ring A)) → release q ≡ r → IsValid (ring_of q r)
      by_result none e = v
      by_result (some (none, q')) e = subst IsValid (refused_release q q' v e) v
      by_result (some (some slot, q')) e = (release-Granted d q v e).1

  run-IsValid :
      (d : A) (ss : List Section) (q : Ring A) → IsValid q → IsValid (run (map section_of ss) q)
  run-IsValid d [] q v = v
  run-IsValid d (s ∷ ss) q v = run-IsValid d ss (section_of s q) (section-IsValid d s q v)

  -- Threads that reserve and release slots of a valid queue, interleaved at each step of the spin
  -- lock that is `_index_guard`: at any moment the indices are what the completed sections make of
  -- them one after the other, and the queue is valid.
  pub guarded-IsValid :
      (d : A) (q : Ring A) (ss : List Section) (t : Shared (Ring A))
      → IsValid q
      → Reach (start q) (map section_of ss) t
      → (t.object ≡ run (map section_of ss) q) × IsValid t.object
  guarded-IsValid d q ss t v r =
      (Reach-serial r, subst IsValid (sym (Reach-serial r)) (run-IsValid d ss q v))

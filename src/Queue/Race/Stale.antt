-- ===== src/Queue/Race/Stale.antt =====
-- A dequeue may overtake the enqueue whose slot it reads.
use native.Mathlib.Nat.{add-zero, mod-eq_of_lt}
use vee.Base.{update, ℕ, ◌+◌, ◌%◌, ◌≡◌, ◌≢◌, ap, ◌∙◌, false, arith, get_or, get_elem?-of_lt, set}
use vee.Queue.{Ring, fetch}
use vee.Queue.Invariant.{IsValid}
use vee.Queue.Race.{
  outside, storing, fetching, fetched, System, reserves, releases, fetches, Reach, here, later,
}
use vee.Queue.Race.Granted.{
  reserve_room, release_first, reserved, released, Granted, reserved-Granted,
}

module _ {ℓ} {A : Type ℓ} (d : A) (moved : A → A) where
  -- From any valid empty queue with threads `i` and `j` outside: thread `i` enqueues `x` up to its
  -- reservation, and `j` dequeues in full. Thread `j` is then back with what the slot held before,
  -- while `i` has not yet written `x`, and the queue counts as empty.
  pub stale_read :
      (s : System A) (i j : ℕ) (x : A)
      → IsValid s.ring
      → s.ring.size ≡ 0
      → i ≢ j
      → s.pc i ≡ outside
      → s.pc j ≡ outside
      → (t : System A) × Reach moved s t
        × (t.pc i ≡ storing s.ring.rear x)
        × (t.pc j ≡ fetched (get_or s.ring.item_container s.ring.rear d))
        × (t.ring.size ≡ 0)
  unfolding fetch
  stale_read s i j x v empty ne at_i at_j = (
    record {
      ring = read;
      pc = update (update (update s.pc i (storing q.rear x)) j (fetching q.front)) j (fetched old);
    },
    later
        (later (later here (reserves i x at_i (reserve_room q v (omega arith)))) (
          releases j {slot = q.front} {q = released (reserved q)} (ground arith)
            (release_first (reserved q) g.1 (omega arith))))
        (fetches j {slot = q.front} {x = old} {q = read} (ground arith) (
          ground (
            arith,
            v.items,
            get_elem?-of_lt q.item_container q.front d (omega (arith, v.items, v.front_in)),
          ))),
    ground arith,
    ground (arith, front_meets_rear),
    omega arith,
  )
    where
      q : Ring A
      q = s.ring

      g : Granted q q.rear (reserved q)
      g = reserved-Granted d q v (omega arith)

      old : A
      old = get_or q.item_container q.front d

      read : Ring A
      read = record (released (reserved q)) {
        item_guards = set q.item_guards q.front false;
        item_container = set q.item_container q.front (moved old);
      }

      front_meets_rear : q.rear ≡ q.front
      front_meets_rear =
          v.rear_at
          ∙ ap (λ n. (q.front + n) % q.capacity) empty
          ∙ rw add-zero (mod-eq_of_lt v.front_in)

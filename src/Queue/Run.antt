-- ===== src/Queue/Run.antt =====
-- A client's calls in order: the ring queue answers as the specification does.
use native.Mathlib.Decide.{dec_lt}
use vee.Base.{
  ℕ, zero, suc, ◌+◌, ◌-◌, ◌%◌, ◌<◌, ◌≡◌, refl, sym, ap, Option, some, arith, List, [], ◌∷◌, drop,
  get_or, ◌>>=◌,
}
use vee.Queue.{Ring, enqueue, dequeue, shallow_dequeue, clear_loop, clear}
use vee.Queue.Fifo
use vee.Queue.Fifo.{
  Call, enqueues, dequeues, shallow_dequeues, clears, Reply, accepts, hands_out, done,
}
use vee.Queue.Invariant.{
  IsValid, advance_lem, without_first, without_first-IsValid, dequeue_first, dequeue_empty,
}
use vee.Queue.Refine.{
  contents, length-contents, enqueue_refines, dequeue_refines, contents-suc, window,
}

module _ {ℓ} {A : Type ℓ} (moved : A → A) where
  -- A call on the ring.
  unfoldable pub step : Ring A → Call A → Option (Reply A × Ring A)
  unfolding enqueue dequeue shallow_dequeue clear
  step q (enqueues x) = enqueue q x >>= λ (b, q'). some (accepts b, q')
  step q dequeues = dequeue moved q >>= λ (x, q'). some (hands_out x, q')
  step q shallow_dequeues = shallow_dequeue q >>= λ (b, q'). some (accepts b, q')
  step q clears = clear moved q >>= λ q'. some (done, q')

  unfoldable pub run : Ring A → List (Call A) → Option (List (Reply A))
  unfolding step
  run q [] = some []
  run q (c ∷ calls) = do (reply, q') ← step q c; replies ← run q' calls; some (reply ∷ replies)

module _ {ℓ} {A : Type ℓ} (d : A) where
  -- The loop of `clear` ends on an empty queue, with one round more than there are items.
  pub record Cleared (q : Ring A) (result : Option (Ring A)) : Type ℓ where
    pub last : Ring A
    pub returns : result ≡ some last
    pub empty : last.size ≡ 0
    pub valid : IsValid last
    pub same_capacity : last.capacity ≡ q.capacity
    pub same_mode : last.overwrite_mode ≡ q.overwrite_mode

  pub clear_loop-Cleared :
      (moved : A → A) (fuel : ℕ) (q : Ring A)
      → IsValid q
      → q.size < fuel
      → Cleared q (clear_loop moved fuel q)
  unfolding clear_loop
  clear_loop-Cleared moved zero q v lt = absurd (omega arith)
  clear_loop-Cleared moved (suc fuel) q v lt = elim (dec_lt 0 q.size) [
    | yes pos ↦
        let x = get_or q.item_container q.front d in
        let rest =
          clear_loop-Cleared moved fuel (without_first q (moved x))
            (without_first-IsValid q (moved x) v pos) (omega arith) in
        record {
          last = rest.last;
          returns = rw (dequeue_first d moved q v pos) rest.returns;
          empty = rest.empty;
          valid = rest.valid;
          same_capacity = rest.same_capacity;
          same_mode = rest.same_mode;
        }
    | no none_left ↦ record {
      last = q;
      returns = rw (dequeue_empty moved q (omega arith));
      empty = omega arith;
      valid = v;
      same_capacity = refl;
      same_mode = refl;
    }
  ]

  -- `clear` on a valid queue ends, and leaves it empty, valid and of the same capacity.
  pub clear-Cleared : (moved : A → A) (q : Ring A) → IsValid q → Cleared q (clear moved q)
  unfolding clear
  clear-Cleared moved q v = clear_loop-Cleared moved (q.size + 1) q v (omega arith)

  -- The ring after `shallow_dequeue`, which leaves the slot as it is.
  abbrev skipped : Ring A → Ring A
  skipped q = record q { front = (q.front + 1) % q.capacity; size = q.size - 1 }

  skipped-IsValid : (q : Ring A) → IsValid q → 0 < q.size → IsValid (skipped q)
  skipped-IsValid q v pos = record {
    small = v.small;
    guards = v.guards;
    items = v.items;
    front_in = omega (arith, v.front_in);
    size_in = omega (arith, v.size_in);
    rear_at = (without_first-IsValid q d v pos).rear_at;
  }

  -- One call: the reply and the items of the specification.
  record Stepped (moved : A → A) (q : Ring A) (c : Call A) : Type ℓ where
    last : Ring A
    returns :
        step moved q c ≡ some ((Fifo.step q.capacity q.overwrite_mode (contents d q) c).0, last)
    holds : contents d last ≡ (Fifo.step q.capacity q.overwrite_mode (contents d q) c).1
    valid : IsValid last
    same_capacity : last.capacity ≡ q.capacity
    same_mode : last.overwrite_mode ≡ q.overwrite_mode

  step-Stepped : (moved : A → A) (q : Ring A) (c : Call A) → IsValid q → Stepped moved q c
  unfolding step Fifo.step
  step-Stepped moved q (enqueues x) v =
      let r = enqueue_refines d q x v in
      record {
        last = r.last;
        returns = rw r.returns;
        holds = r.holds;
        valid = r.valid;
        same_capacity = r.same_capacity;
        same_mode = r.same_mode;
      }
  step-Stepped moved q dequeues v =
      let r = dequeue_refines d moved q v in
      record {
        last = r.last;
        returns = rw r.returns;
        holds = r.holds;
        valid = r.valid;
        same_capacity = r.same_capacity;
        same_mode = r.same_mode;
      }
  step-Stepped moved q shallow_dequeues v = elim (dec_lt 0 q.size) [
    | yes pos ↦ record {
      last = skipped q;
      returns = ground (arith, length-contents d q, advance_lem q.front q.capacity);
      holds = ap (drop 1) (sym (contents-suc d q pos));
      valid = skipped-IsValid q v pos;
      same_capacity = refl;
      same_mode = refl;
    }
    | no none_left ↦ record {
      last = q;
      returns = ground (arith, length-contents d q);
      holds = rw (no_items (omega arith));
      valid = v;
      same_capacity = refl;
      same_mode = refl;
    }
  ]
    where
      no_items : q.size ≡ 0 → contents d q ≡ []
      no_items e = ap (window d q.capacity q.item_container q.front) e
  step-Stepped moved q clears v =
      let r = clear-Cleared moved q v in
      record {
        last = r.last;
        returns = rw r.returns;
        holds = ap (window d r.last.capacity r.last.item_container r.last.front) r.empty;
        valid = r.valid;
        same_capacity = r.same_capacity;
        same_mode = r.same_mode;
      }

  -- No sequence of calls tells a valid ring from the bounded queue of its items, and no call of
  -- one is undefined.
  pub run_refines :
      (moved : A → A) (calls : List (Call A)) (q : Ring A)
      → IsValid q
      → run moved q calls ≡ some (Fifo.run q.capacity q.overwrite_mode (contents d q) calls)
  unfolding run Fifo.run
  run_refines moved [] q v = refl
  run_refines moved (c ∷ calls) q v =
      let r = step-Stepped moved q c v in
      rw (r.returns, run_refines moved calls r.last r.valid, r.holds, r.same_capacity, r.same_mode)

-- ===== src/Queue/Fifo.antt =====
-- What a queue promises: a first-in first-out list of at most `capacity` items. In overwrite mode
-- a full queue drops its oldest item for the new one.
use vee.Base.{
  ℕ, Bool, true, false, Option, none, some, List, [], ◌∷◌, ◌++◌, ◌==◌, if◌then◌else◌, length, drop,
  ltb,
}

-- The calls that a client can make on a queue, and what it sees of one.
pub data Call {ℓ} (A : Type ℓ) : Type ℓ where
  enqueues : A → Call A
  dequeues shallow_dequeues clears : Call A

pub data Reply {ℓ} (A : Type ℓ) : Type ℓ where
  accepts : Bool → Reply A
  hands_out : Option A → Reply A
  done : Reply A

module _ {ℓ} {A : Type ℓ} where
  unfoldable pub push : ℕ → Bool → List A → A → Bool × List A
  push capacity overwrite items x =
      if length items == capacity
      then (if overwrite then (true, drop 1 items ++ x ∷ []) else (false, items))
      else (true, items ++ x ∷ [])

  unfoldable pub pop : List A → Option A × List A
  pop [] = (none, [])
  pop (x ∷ items) = (some x, items)

  unfoldable pub step : ℕ → Bool → List A → Call A → Reply A × List A
  unfolding push pop
  step capacity overwrite items (enqueues x) =
      let (accepted, rest) = push capacity overwrite items x in (accepts accepted, rest)
  step capacity overwrite items dequeues = let (out, rest) = pop items in (hands_out out, rest)
  step capacity overwrite items shallow_dequeues = (accepts (ltb 0 (length items)), drop 1 items)
  step capacity overwrite items clears = (done, [])

  unfoldable pub run : ℕ → Bool → List A → List (Call A) → List (Reply A)
  unfolding step
  run capacity overwrite items [] = []
  run capacity overwrite items (c ∷ calls) =
      let (reply, rest) = step capacity overwrite items c in
      reply ∷ run capacity overwrite rest calls

-- ===== src/Queue.antt =====
-- vee/queue.h: `syncronized_ringqueue` and `ringqueue`, each member as a function on the object.
-- `none` is undefined behaviour: a remainder by a capacity of 0, or an index outside a vector.
-- `int` members are 32-bit patterns. What an operation does under `_index_guard` is one function,
-- with that lock taken and released in it; what it does after is another, so that other threads
-- can be put between the two. `adopt_lock` takes an item's guard for held and does not lock it.
pub mod Fifo
pub mod Invariant
pub mod Refine
pub mod Run
pub mod Assign
pub mod Race
pub mod Guarded
mod Tests
mod GuardedTests
use vee.Base.{
  ℕ, zero, suc, ◌+◌, ◌%◌, ◌^◌, Bool, true, false, Option, none, some, List, ◌==◌, if◌then◌else◌,
  ◌>>=◌, ltb, length, get_elem?, set, replicate,
}
use vee.Base.Word.{increment, decrement, int_max}

-- The members. A lock is true while it is held.
pub record Ring {ℓ} (A : Type ℓ) : Type ℓ where
  pub item_guards : List Bool
  pub item_container : List A
  pub capacity : ℕ
  pub overwrite_mode : Bool
  pub rear : ℕ
  pub front : ℕ
  pub size : ℕ

-- `++index %= _capacity`
pub advance : ℕ → ℕ → Option ℕ
advance index capacity = if capacity == 0 then none else some (increment index % capacity)

module _ {ℓ} {A : Type ℓ} where
  -- The constructor; `d` is a value-initialised item.
  pub init : A → ℕ → Ring A
  init d n = record {
    item_guards = replicate n false;
    item_container = replicate n d;
    capacity = n;
    overwrite_mode = false;
    rear = 0;
    front = 0;
    size = 0;
  }

  pub is_empty : Ring A → Bool
  is_empty q = q.size == 0

  pub is_full : Ring A → Bool
  is_full q = q.size == q.capacity

  -- `enqueue` under `_index_guard`: the slot that is taken, `none` where it returns false.
  -- `_item_guards[rear]` is named and not locked.
  pub reserve : Ring A → Option (Option ℕ × Ring A)
  unfolding is_full advance
  reserve q =
      if is_full q
      then (if q.overwrite_mode
          then (do
            next_rear ← advance q.rear q.capacity
            next_front ← advance q.front q.capacity
            adopted ← get_elem? q.item_guards q.rear
            some (some q.rear, record q { rear = next_rear; front = next_front }))
          else some (none, q))
      else (do
        next_rear ← advance q.rear q.capacity
        adopted ← get_elem? q.item_guards q.rear
        some (some q.rear, record q { rear = next_rear; size = increment q.size }))

  -- `_item_container[slot] = data`, and the guard is released at the end.
  pub store : Ring A → ℕ → A → Option (Ring A)
  store q slot x =
      if ltb slot (length q.item_container)
      then some (record q {
        item_guards = set q.item_guards slot false;
        item_container = set q.item_container slot x;
      })
      else none

  pub enqueue : Ring A → A → Option (Bool × Ring A)
  unfolding reserve store
  enqueue q x = do
    (slot, q') ← reserve q
    elim slot [ none ↦ some (false, q') | some i ↦ store q' i x >>= λ q''. some (true, q'') ]

  -- `dequeue` under `_index_guard`: the slot that is given up, `none` where it returns false.
  pub release : Ring A → Option (Option ℕ × Ring A)
  unfolding advance
  release q = if q.size == 0 then some (none, q) else (do
    next_front ← advance q.front q.capacity
    adopted ← get_elem? q.item_guards q.front
    some (some q.front, record q { size = decrement q.size; front = next_front }))

  pub shallow_dequeue : Ring A → Option (Bool × Ring A)
  unfolding advance
  shallow_dequeue q = if q.size == 0 then some (false, q) else (do
    next_front ← advance q.front q.capacity
    some (true, record q { size = decrement q.size; front = next_front }))

-- `moved` is what a move leaves of an item (the item itself, where it can only be copied).
module _ {ℓ} {A : Type ℓ} (moved : A → A) where
  -- `out = std::move(_item_container[slot])`, and the guard is released at the end.
  pub fetch : Ring A → ℕ → Option (A × Ring A)
  fetch q slot = do
    x ← get_elem? q.item_container slot
    some (
      x,
      record q {
        item_guards = set q.item_guards slot false;
        item_container = set q.item_container slot (moved x);
      },
    )

  -- The item is what goes through `out`; `none` is the result false.
  pub dequeue : Ring A → Option (Option A × Ring A)
  unfolding release fetch
  dequeue q = do
    (slot, q') ← release q
    elim slot [ none ↦ some (none, q') | some i ↦ fetch q' i >>= λ (x, q''). some (some x, q'') ]

  -- `while (this->dequeue());` with fuel; the outer `none` also stands for too little of it.
  pub clear_loop : ℕ → Ring A → Option (Ring A)
  unfolding dequeue
  clear_loop zero q = none
  clear_loop (suc fuel) q = do
    (out, q') ← dequeue q
    elim out [ none ↦ some q' | some x ↦ clear_loop fuel q' ]

  pub clear : Ring A → Option (Ring A)
  unfolding clear_loop
  clear q = clear_loop (q.size + 1) q

-- The rounds of the loop of `operator=` that are left, from `rear` of the right-hand side on.
pub copy_loop {ℓ} : {A : Type ℓ} → ℕ → ℕ → Ring A → Ring A → Option (Ring A)
unfolding advance enqueue
copy_loop zero rear rhs lhs = some lhs
copy_loop (suc left) rear rhs lhs = do
  locked ← get_elem? rhs.item_guards rear
  x ← get_elem? rhs.item_container rear
  (accepted, lhs') ← enqueue lhs x
  next_rear ← advance rear rhs.capacity
  copy_loop left next_rear rhs lhs'

-- `operator=`. The type of the right-hand side is never an rvalue reference, so items are copied.
pub assign {ℓ} : {A : Type ℓ} → (A → A) → Ring A → Ring A → Option (Bool × Ring A)
unfolding clear copy_loop
assign moved lhs rhs = do
  emptied ← clear moved lhs
  if ltb emptied.capacity rhs.capacity
      then some (false, emptied)
      else (do filled ← copy_loop rhs.size rhs.rear rhs emptied; some (true, filled))

-- The copy constructor: a new queue of the same capacity, assigned to.
pub copy {ℓ} : {A : Type ℓ} → A → (A → A) → Ring A → Option (Ring A)
unfolding assign init
copy d moved other = do (done, q) ← assign moved (init d other.capacity) other; some q

-- The move constructor: the copies that `operator=` makes, and what is left of the other queue.
pub move {ℓ} : {A : Type ℓ} → A → (A → A) → Ring A → Option (Ring A × Ring A)
unfolding assign init
move d moved other = do (done, q) ← assign moved (init d other.capacity) other; some (q, other)

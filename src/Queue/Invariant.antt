-- ===== src/Queue/Invariant.antt =====
-- The representation invariant of the ring queue, and that every operation keeps it.
use native.Mathlib.Nat.{mod-add-mod}
use vee.Base.{
  ℕ, ◌+◌, ◌-◌, ◌%◌, ◌≤◌, ◌<◌, ◌≡◌, sym, ap, ◌∙◌, true, false, none, some, arith, length, length-set,
  length-replicate, get_elem?-of_lt, get_or, set,
}
use vee.Base.Word.{int_max}
use vee.Queue.{Ring, init, advance, enqueue, dequeue}

pub record IsValid {ℓ} {A : Type ℓ} (q : Ring A) : Type 0 where
  pub small : q.capacity ≤ int_max
  pub guards : length q.item_guards ≡ q.capacity
  pub items : length q.item_container ≡ q.capacity
  pub front_in : q.front < q.capacity
  pub size_in : q.size ≤ q.capacity
  pub rear_at : q.rear ≡ (q.front + q.size) % q.capacity

module _ {ℓ} {A : Type ℓ} where
  -- A constructed queue with room for an item is valid.
  pub init-IsValid : (d : A) (n : ℕ) → 0 < n → n ≤ int_max → IsValid (init d n)
  unfolding init
  init-IsValid d n pos small = record {
    small = small;
    guards = length-replicate n false;
    items = length-replicate n d;
    front_in = pos;
    size_in = omega arith;
    rear_at = grind arith;
  }

-- Below the capacity, `++index %= _capacity` does not wrap and does not divide by zero.
pub advance_lem : (i n : ℕ) → i < n → n ≤ int_max → advance i n ≡ some ((i + 1) % n)
unfolding advance
advance_lem i n h small = ground arith

module _ {ℓ} {A : Type ℓ} where
  -- The ring after an item is stored behind its last one.
  abbrev pub with_last : Ring A → A → Ring A
  with_last q x = record q {
    item_guards = set q.item_guards q.rear false;
    item_container = set q.item_container q.rear x;
    rear = (q.rear + 1) % q.capacity;
    size = q.size + 1;
  }

  -- The full ring after an item is stored in place of its first one.
  abbrev pub with_overwritten : Ring A → A → Ring A
  with_overwritten q x = record q {
    item_guards = set q.item_guards q.rear false;
    item_container = set q.item_container q.rear x;
    rear = (q.rear + 1) % q.capacity;
    front = (q.front + 1) % q.capacity;
  }

  -- The ring after its first item was taken, with `y` left in the slot.
  abbrev pub without_first : Ring A → A → Ring A
  without_first q y = record q {
    item_guards = set q.item_guards q.front false;
    item_container = set q.item_container q.front y;
    front = (q.front + 1) % q.capacity;
    size = q.size - 1;
  }

  pub enqueue_room :
      (q : Ring A) (x : A)
      → IsValid q
      → q.size < q.capacity
      → enqueue q x ≡ some (true, with_last q x)
  unfolding enqueue
  enqueue_room q x v room =
      ground (arith, advance_lem q.rear q.capacity, get_elem?-of_lt q.item_guards q.rear false)

  pub enqueue_overwrite :
      (q : Ring A) (x : A)
      → IsValid q
      → q.size ≡ q.capacity
      → q.overwrite_mode ≡ true
      → enqueue q x ≡ some (true, with_overwritten q x)
  unfolding enqueue
  enqueue_overwrite q x v full mode = ground (
    arith,
    advance_lem q.rear q.capacity,
    advance_lem q.front q.capacity,
    get_elem?-of_lt q.item_guards q.rear false,
  )

  pub enqueue_full :
      (q : Ring A) (x : A)
      → q.size ≡ q.capacity
      → q.overwrite_mode ≡ false
      → enqueue q x ≡ some (false, q)
  unfolding enqueue
  enqueue_full q x full mode = ground arith

  pub dequeue_empty : (moved : A → A) (q : Ring A) → q.size ≡ 0 → dequeue moved q ≡ some (none, q)
  unfolding dequeue
  dequeue_empty moved q empty = ground arith

  pub dequeue_first :
      (d : A) (moved : A → A) (q : Ring A)
      → IsValid q
      → 0 < q.size
      → let x = get_or q.item_container q.front d in
        dequeue moved q ≡ some (some x, without_first q (moved x))
  unfolding dequeue
  dequeue_first d moved q v some_item = ground (
    arith,
    advance_lem q.front q.capacity,
    get_elem?-of_lt q.item_guards q.front false,
    get_elem?-of_lt q.item_container q.front d,
  )

  pub with_last-IsValid :
      (q : Ring A) (x : A) → IsValid q → q.size < q.capacity → IsValid (with_last q x)
  with_last-IsValid q x v room = record {
    small = v.small;
    guards = omega (arith, length-set q.item_guards q.rear false, v.guards);
    items = omega (arith, length-set q.item_container q.rear x, v.items);
    front_in = v.front_in;
    size_in = omega arith;
    rear_at =
        ap (λ r. (r + 1) % q.capacity) v.rear_at
        ∙ mod-add-mod (q.front + q.size) q.capacity 1
        ∙ ap (λ t. t % q.capacity) (omega arith);
  }

  pub with_overwritten-IsValid :
      (q : Ring A) (x : A) → IsValid q → q.size ≡ q.capacity → IsValid (with_overwritten q x)
  with_overwritten-IsValid q x v full = record {
    small = v.small;
    guards = omega (arith, length-set q.item_guards q.rear false, v.guards);
    items = omega (arith, length-set q.item_container q.rear x, v.items);
    front_in = omega (arith, v.front_in);
    size_in = v.size_in;
    rear_at =
        ap (λ r. (r + 1) % q.capacity) v.rear_at
        ∙ mod-add-mod (q.front + q.size) q.capacity 1
        ∙ ap (λ t. t % q.capacity) (omega arith)
        ∙ sym (mod-add-mod (q.front + 1) q.capacity q.size);
  }

  pub without_first-IsValid :
      (q : Ring A) (y : A) → IsValid q → 0 < q.size → IsValid (without_first q y)
  without_first-IsValid q y v pos = record {
    small = v.small;
    guards = omega (arith, length-set q.item_guards q.front false, v.guards);
    items = omega (arith, length-set q.item_container q.front y, v.items);
    front_in = omega (arith, v.front_in);
    size_in = omega (arith, v.size_in);
    rear_at =
        v.rear_at
        ∙ ap (λ t. t % q.capacity) (omega arith)
        ∙ sym (mod-add-mod (q.front + 1) q.capacity (q.size - 1));
  }

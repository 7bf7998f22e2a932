-- ===== src/Queue/Refine.antt =====
-- A valid ring holds the items of its queue in a window of the container.
use native.Mathlib.Nat.{mod-add-mod, mod-eq_of_lt, div-add-mod, add-zero}
use vee.Base.{
  ℕ, zero, suc, ◌+◌, ◌-◌, ◌%◌, ◌<◌, ◌≡◌, refl, sym, ◌≢◌, some, arith, length, List, [], ◌∷◌, ◌++◌,
  get_or, set, drop, inl, inr, Bool-cases, ap, ap₂, ◌∙◌, get_or-set_ne, get_or-set_self,
}
use vee.Queue.Fifo
use vee.Queue.{Ring, enqueue, dequeue}
use vee.Queue.Invariant.{
  IsValid, with_last, with_overwritten, without_first, enqueue_room, enqueue_overwrite,
  enqueue_full, dequeue_empty, dequeue_first, with_last-IsValid, with_overwritten-IsValid,
  without_first-IsValid,
}
use native.Mathlib.Decide.{dec_lt}

mod-ne : (a b n : ℕ) → a < b → b < a + n → a % n ≢ b % n
mod-ne a b n lt near = λ e. grind (arith, div-add-mod a n, div-add-mod b n)

module _ {ℓ} {A : Type ℓ} (d : A) (cap : ℕ) where
  -- The `n` items from index `h` on, going round at `cap`.
  abbrev pub window : List A → ℕ → ℕ → List A
  window c h zero = []
  window c h (suc n) = get_or c h d ∷ window c ((h + 1) % cap) n

  shift : (h k : ℕ) → ((h + 1) % cap + k) % cap ≡ (h + suc k) % cap
  shift h k = simp mod-add-mod (ap (λ x. x % cap) (omega arith))

  window-set_ne :
      (c : List A) (i : ℕ) (v : A) (h n : ℕ)
      → h < cap
      → ((k : ℕ) → k < n → (h + k) % cap ≢ i)
      → window (set c i v) h n ≡ window c h n
  window-set_ne c i v h zero lt away = refl
  window-set_ne c i v h (suc n) lt away =
      ap₂ ◌∷◌
        (get_or-set_ne c i h v d
          (λ e. away 0 (omega arith) (rw add-zero (mod-eq_of_lt lt ∙ sym e))))
        (window-set_ne c i v ((h + 1) % cap) n (omega arith)
          (λ k kn. rw shift (away (suc k) (omega arith))))

  window-snoc :
      (c : List A) (h n : ℕ)
      → h < cap
      → window c h (suc n) ≡ window c h n ++ get_or c ((h + n) % cap) d ∷ []
  window-snoc c h zero lt = ap (λ i. get_or c i d ∷ []) (sym (rw add-zero (mod-eq_of_lt lt)))
  window-snoc c h (suc n) lt =
      ap (◌∷◌ (get_or c h d)) (rw (← shift h n) (window-snoc c ((h + 1) % cap) n (omega arith)))

  pub length-window : (c : List A) (h n : ℕ) → length (window c h n) ≡ n
  length-window c h zero = refl
  length-window c h (suc n) = ap suc (length-window c ((h + 1) % cap) n)

  -- A write just past a window makes it longer by the item that is written.
  pub window-set_end :
      (c : List A) (h n i : ℕ) (x : A)
      → length c ≡ cap
      → h < cap
      → n < cap
      → i ≡ (h + n) % cap
      → window (set c i x) h (suc n) ≡ window c h n ++ x ∷ []
  window-set_end c h n i x len hh hn e = rw (window-snoc (set c i x) h n hh) (
      ap₂ (λ xs y. xs ++ y ∷ [])
        (window-set_ne c i x h n hh
          (λ k kn. rw e (mod-ne (h + k) (h + n) cap (omega arith) (omega arith))))
        (rw (← e) (get_or-set_self c i x d (omega arith))))

  -- A write to the slot just before a window that is not the whole ring is not seen in it.
  pub window-set_before :
      (c : List A) (h n : ℕ) (x : A)
      → h < cap
      → n < cap
      → window (set c h x) ((h + 1) % cap) n ≡ window c ((h + 1) % cap) n
  window-set_before c h n x hh hn = window-set_ne c h x ((h + 1) % cap) n (omega arith) (λ k kn.
      rw shift (λ e. mod-ne (h + suc k) (h + cap) cap (omega arith) (omega arith) (e ∙ round)))
    where
      round : h ≡ (h + cap) % cap
      round = grind (arith, mod-eq_of_lt hh)

module _ {ℓ} {A : Type ℓ} (d : A) where
  -- The items of the queue, the oldest first.
  abbrev pub contents : Ring A → List A
  contents q = window d q.capacity q.item_container q.front q.size

  pub length-contents : (q : Ring A) → length (contents q) ≡ q.size
  length-contents q = length-window d q.capacity q.item_container q.front q.size

  pub contents-suc :
      (q : Ring A)
      → 0 < q.size
      → contents q
        ≡ get_or q.item_container q.front d
          ∷ window d q.capacity q.item_container ((q.front + 1) % q.capacity) (q.size - 1)
  contents-suc q pos = go q.size pos
    where
      go :
          (n : ℕ)
          → 0 < n
          → window d q.capacity q.item_container q.front n
            ≡ get_or q.item_container q.front d
              ∷ window d q.capacity q.item_container ((q.front + 1) % q.capacity) (n - 1)
      go zero h = absurd (omega arith)
      go (suc n) h =
          ap
            (λ k.
              get_or q.item_container q.front d
              ∷ window d q.capacity q.item_container ((q.front + 1) % q.capacity) k)
            (omega arith)

  pub contents-with_last :
      (q : Ring A) (x : A)
      → IsValid q
      → q.size < q.capacity
      → contents (with_last q x) ≡ contents q ++ x ∷ []
  contents-with_last q x v room =
      ap (window d q.capacity (set q.item_container q.rear x) q.front) add-one
      ∙ window-set_end d q.capacity q.item_container q.front q.size q.rear x v.items v.front_in room
          v.rear_at
    where
      add-one : q.size + 1 ≡ suc q.size
      add-one = omega arith

  contents-without_first :
      (q : Ring A) (y : A)
      → IsValid q
      → 0 < q.size
      → contents q ≡ get_or q.item_container q.front d ∷ contents (without_first q y)
  contents-without_first q y v pos =
      contents-suc q pos
      ∙ ap (◌∷◌ (get_or q.item_container q.front d)) (
          sym (
            window-set_before d q.capacity q.item_container q.front (q.size - 1) y v.front_in
              (omega arith)))

  contents-with_overwritten :
      (q : Ring A) (x : A)
      → IsValid q
      → q.size ≡ q.capacity
      → contents (with_overwritten q x) ≡ drop 1 (contents q) ++ x ∷ []
  contents-with_overwritten q x v full =
      ap (window d q.capacity (set q.item_container q.rear x) second) {y = suc (q.size - 1)}
        (omega arith)
      ∙ window-set_end d q.capacity q.item_container second (q.size - 1) q.rear x v.items
          (omega arith) (omega arith) rear_from_second
      ∙ ap (λ items. drop 1 items ++ x ∷ []) (sym (contents-suc q (omega arith)))
    where
      second : ℕ
      second = (q.front + 1) % q.capacity

      rear_from_second : q.rear ≡ (second + (q.size - 1)) % q.capacity
      rear_from_second =
          v.rear_at
          ∙ ap (λ t. t % q.capacity) (omega arith)
          ∙ sym (mod-add-mod (q.front + 1) q.capacity (q.size - 1))

  -- What is shown of an enqueue: it ends, with the result and the items of the specification.
  pub record Enqueued (q : Ring A) (x : A) : Type ℓ where
    pub last : Ring A
    pub returns :
        enqueue q x ≡ some ((Fifo.push q.capacity q.overwrite_mode (contents q) x).0, last)
    pub holds : contents last ≡ (Fifo.push q.capacity q.overwrite_mode (contents q) x).1
    pub valid : IsValid last
    pub same_capacity : last.capacity ≡ q.capacity
    pub same_mode : last.overwrite_mode ≡ q.overwrite_mode

  -- `enqueue` on a valid queue is defined, returns what `Fifo.push` returns, leaves its items, and
  -- keeps the invariant, the capacity and the mode.
  pub enqueue_refines : (q : Ring A) (x : A) → IsValid q → Enqueued q x
  unfolding Fifo.push
  enqueue_refines q x v = elim (dec_lt q.size q.capacity) [
    | yes room ↦ record {
      last = with_last q x;
      returns = ground (arith, length-contents q, enqueue_room q x v room);
      holds = ground (arith, length-contents q, contents-with_last q x v room);
      valid = with_last-IsValid q x v room;
      same_capacity = refl;
      same_mode = refl;
    }
    | no full ↦ elim (Bool-cases q.overwrite_mode) [
      | inl mode ↦ record {
        last = with_overwritten q x;
        returns = ground (arith, length-contents q, enqueue_overwrite q x v);
        holds = ground (arith, length-contents q, contents-with_overwritten q x v);
        valid = with_overwritten-IsValid q x v (omega arith);
        same_capacity = refl;
        same_mode = refl;
      }
      | inr mode ↦ record {
        last = q;
        returns = ground (arith, length-contents q, enqueue_full q x);
        holds = ground (arith, length-contents q);
        valid = v;
        same_capacity = refl;
        same_mode = refl;
      }
    ]
  ]

  pub record Dequeued (moved : A → A) (q : Ring A) : Type ℓ where
    pub last : Ring A
    pub returns : dequeue moved q ≡ some ((Fifo.pop (contents q)).0, last)
    pub holds : contents last ≡ (Fifo.pop (contents q)).1
    pub valid : IsValid last
    pub same_capacity : last.capacity ≡ q.capacity
    pub same_mode : last.overwrite_mode ≡ q.overwrite_mode

  -- `dequeue` on a valid queue is defined, hands out the oldest item or returns false on an empty
  -- queue, leaves the other items, and keeps the invariant, the capacity and the mode.
  pub dequeue_refines : (moved : A → A) (q : Ring A) → IsValid q → Dequeued moved q
  unfolding Fifo.pop
  dequeue_refines moved q v = elim (dec_lt 0 q.size) [
    | yes pos ↦
        let x = get_or q.item_container q.front d in
        record {
          last = without_first q (moved x);
          returns = rw (contents-without_first q (moved x) v pos) (dequeue_first d moved q v pos);
          holds = ap (λ items. (Fifo.pop items).1) (sym (contents-without_first q (moved x) v pos));
          valid = without_first-IsValid q (moved x) v pos;
          same_capacity = refl;
          same_mode = refl;
        }
    | no empty ↦ record {
      last = q;
      returns = rw (no_items (omega arith)) (dequeue_empty moved q (omega arith));
      holds = rw (no_items (omega arith));
      valid = v;
      same_capacity = refl;
      same_mode = refl;
    }
  ]
    where
      no_items : q.size ≡ 0 → contents q ≡ []
      no_items e = ap (window d q.capacity q.item_container q.front) e

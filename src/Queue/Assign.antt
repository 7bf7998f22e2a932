-- ===== src/Queue/Assign.antt =====
-- `operator=` and the copy constructor of the ring queue: the slots that they copy.
use native.Mathlib.Nat.{mod-eq_of_lt, add-mod_right}
use vee.Base.{
  ℕ, zero, suc, ◌+◌, ◌%◌, ◌≤◌, ◌<◌, ◌≡◌, ◌≢◌, refl, sym, ap, ◌∙◌, Bool, true, false, Option, some,
  arith, List, [], ◌∷◌, ◌++◌, append-nil, append_assoc, get_or, lt→ltb, ge→ltb, get_elem?-of_lt,
}
use vee.Queue.{Ring, init, copy_loop, assign, copy, move}
use vee.Queue.Invariant.{
  IsValid, init-IsValid, advance_lem, enqueue_room, with_last, with_last-IsValid,
}
use vee.Queue.Refine.{window, contents, contents-with_last}
use vee.Queue.Run.{clear-Cleared}

module _ {ℓ} {A : Type ℓ} (d : A) where
  -- The `size` slots of a ring from `_rear` on.
  abbrev pub from_rear : Ring A → List A
  from_rear q = window d q.capacity q.item_container q.rear q.size

  -- In a full ring these are the items, since the rear has met the front.
  from_rear-full : (q : Ring A) → IsValid q → q.size ≡ q.capacity → from_rear q ≡ contents d q
  from_rear-full q v full = ap (λ h. window d q.capacity q.item_container h q.size) met
    where
      met : q.rear ≡ q.front
      met =
          v.rear_at
          ∙ ap (λ s. (q.front + s) % q.capacity) full
          ∙ add-mod_right q.front q.capacity
          ∙ mod-eq_of_lt v.front_in

  record Copied (lhs : Ring A) (items : List A) (result : Option (Ring A)) : Type ℓ where
    last : Ring A
    returns : result ≡ some last
    holds : contents d last ≡ contents d lhs ++ items
    valid : IsValid last
    same_capacity : last.capacity ≡ lhs.capacity

  copy_loop-Copied :
      (left rear : ℕ) (rhs lhs : Ring A)
      → IsValid rhs
      → IsValid lhs
      → rear < rhs.capacity
      → lhs.size + left ≤ lhs.capacity
      → Copied lhs
          (window d rhs.capacity rhs.item_container rear left)
          (copy_loop left rear rhs lhs)
  unfolding copy_loop
  copy_loop-Copied zero rear rhs lhs vr vl rear_in room = record {
    last = lhs;
    returns = refl;
    holds = sym (append-nil (contents d lhs));
    valid = vl;
    same_capacity = refl;
  }
  copy_loop-Copied (suc left) rear rhs lhs vr vl rear_in room =
      let x = get_or rhs.item_container rear d in
      let lhs' = with_last lhs x in
      let next = (rear + 1) % rhs.capacity in
      let rest =
        copy_loop-Copied left next rhs lhs' vr (with_last-IsValid lhs x vl (omega arith))
          (omega arith) (omega arith) in
      record {
        last = rest.last;
        returns =
            rw
              (
                get_elem?-of_lt rhs.item_guards rear false (omega (arith, vr.guards)),
                get_elem?-of_lt rhs.item_container rear d (omega (arith, vr.items)),
                enqueue_room lhs x vl (omega arith),
                advance_lem rear rhs.capacity rear_in vr.small,
              )
              rest.returns;
        holds =
            rest.holds
            ∙ ap (λ items. items ++ window d rhs.capacity rhs.item_container next left)
                (contents-with_last d lhs x vl (omega arith))
            ∙ append_assoc (contents d lhs) (x ∷ [])
                (window d rhs.capacity rhs.item_container next left);
        valid = rest.valid;
        same_capacity = rest.same_capacity;
      }

  -- What is shown of an assignment that is not refused.
  pub record Assigned (rhs : Ring A) (result : Option (Bool × Ring A)) : Type ℓ where
    pub last : Ring A
    pub returns : result ≡ some (true, last)
    pub holds : contents d last ≡ from_rear rhs
    pub valid : IsValid last

  -- `operator=` between valid queues, the left of at least the capacity of the right, ends and
  -- returns true; the left side then is valid and holds the slots of the right side from `_rear`
  -- on, as many as that has items.
  pub assign-Assigned :
      (moved : A → A) (lhs rhs : Ring A)
      → IsValid lhs
      → IsValid rhs
      → rhs.capacity ≤ lhs.capacity
      → Assigned rhs (assign moved lhs rhs)
  unfolding assign
  assign-Assigned moved lhs rhs vl vr fits =
      let c = clear-Cleared d moved lhs vl in
      let r =
        copy_loop-Copied rhs.size rhs.rear rhs c.last vr c.valid (omega arith) (omega arith) in
      let held : contents d r.last ≡ from_rear rhs =
        r.holds ∙ ap (λ items. items ++ from_rear rhs) (no_items c.last c.empty) in
      record {
        last = r.last;
        returns =
            rw (c.returns, ge→ltb c.last.capacity rhs.capacity (omega (arith, c.same_capacity)))
              (rw r.returns);
        holds = held;
        valid = r.valid;
      }
    where
      no_items : (q : Ring A) → q.size ≡ 0 → contents d q ≡ []
      no_items q e = ap (window d q.capacity q.item_container q.front) e

  -- A full right-hand side is copied with its items in their order.
  pub assign_full :
      (moved : A → A) (lhs rhs : Ring A)
      → IsValid lhs
      → IsValid rhs
      → rhs.size ≡ rhs.capacity
      → rhs.capacity ≤ lhs.capacity
      → (last : Ring A) × (assign moved lhs rhs ≡ some (true, last))
        × (contents d last ≡ contents d rhs)
  assign_full moved lhs rhs vl vr full fits =
      let r = assign-Assigned moved lhs rhs vl vr fits in
      (r.last, r.returns, r.holds ∙ from_rear-full rhs vr full)

  -- A right-hand side of more capacity is refused, and the left side has lost its items by then.
  pub assign_refused :
      (moved : A → A) (lhs rhs : Ring A)
      → IsValid lhs
      → lhs.capacity < rhs.capacity
      → (last : Ring A) × (assign moved lhs rhs ≡ some (false, last))
        × (contents d last ≡ [])
        × (last.capacity ≡ lhs.capacity)
  unfolding assign
  assign_refused moved lhs rhs vl wide =
      let c = clear-Cleared d moved lhs vl in
      (
        c.last,
        rw (c.returns, lt→ltb c.last.capacity rhs.capacity (omega (arith, c.same_capacity))),
        ap (window d c.last.capacity c.last.item_container c.last.front) c.empty,
        c.same_capacity,
      )

  -- The copy constructor on a queue of one item and more room holds the slot behind the item, so
  -- the copy differs wherever that slot does.
  pub copy_misses_item :
      (moved : A → A) (q : Ring A)
      → IsValid q
      → q.size ≡ 1
      → 1 < q.capacity
      → get_or q.item_container q.rear d ≢ get_or q.item_container q.front d
      → (last : Ring A) × (copy d moved q ≡ some last)
        × (contents d last ≡ get_or q.item_container q.rear d ∷ [])
        × (contents d last ≢ contents d q)
  unfolding copy init
  copy_misses_item moved q v one wide differ =
      let r =
        assign-Assigned moved (init d q.capacity) q
          (init-IsValid d q.capacity (omega arith) v.small) v (omega arith) in
      let held : contents d r.last ≡ get_or q.item_container q.rear d ∷ [] =
        r.holds ∙ ap (window d q.capacity q.item_container q.rear) one in
      (
        r.last,
        rw r.returns,
        held,
        λ same. differ (
            ap (λ items. get_or items 0 d)
              (sym held ∙ same ∙ ap (window d q.capacity q.item_container q.front) one)),
      )

  -- The move constructor on a full queue makes a queue of its items, in their order, and the other
  -- queue keeps all of them too.
  move_full :
      (moved : A → A) (q : Ring A)
      → IsValid q
      → q.size ≡ q.capacity
      → (last : Ring A) × (move d moved q ≡ some (last, q)) × (contents d last ≡ contents d q)
  unfolding move init
  move_full moved q v full =
      let r =
        assign_full moved (init d q.capacity) q
          (init-IsValid d q.capacity (omega (arith, v)) v.small) v full (omega arith) in
      (r.0, rw r.1 refl, r.2)

-- ===== src/Queue/Race/Granted.antt =====
-- What the sections under `_index_guard` hand out: a slot in range, on a ring that stays valid.
use native.Mathlib.Decide.{dec_lt}
use mathlib.Core.Path.{subst}
use vee.Base.{
  ℕ, ◌+◌, ◌-◌, ◌%◌, ◌<◌, ◌≡◌, refl, sym, ap, ◌∙◌, Bool-cases, inl, inr, false, Option, none, some,
  arith, length-set, get_elem?-of_lt, set,
}
use vee.Queue.{Ring, reserve, release}
use vee.Queue.Invariant.{
  IsValid, advance_lem, with_last-IsValid, with_overwritten-IsValid, without_first-IsValid,
}

-- Two results of one call that both succeed have the same slot and the same ring.
module _ {ℓ κ} {A : Type ℓ} (P : ℕ → Ring A → Type κ) where
  abbrev slot_of : ℕ × Ring A → Option (Option ℕ × Ring A) → ℕ × Ring A
  slot_of other none = other
  slot_of other (some (none, q)) = other
  slot_of other (some (some i, q)) = (i, q)

  transfer :
      {r : Option (Option ℕ × Ring A)} (i j : ℕ) (q q' : Ring A)
      → r ≡ some (some i, q)
      → r ≡ some (some j, q')
      → P i q
      → P j q'
  transfer i j q q' e e' h =
      subst (λ (p : ℕ × Ring A). P p.0 p.1) (ap (slot_of (i, q)) (sym e ∙ e')) h

module _ {ℓ} {A : Type ℓ} where
  -- What is known of a slot that was handed to a thread, and of the ring after.
  abbrev pub Granted : Ring A → ℕ → Ring A → Type 0
  Granted q slot q' =
      (slot < q.capacity)
      × IsValid q'
      × (q'.capacity ≡ q.capacity)
      × (q'.item_guards ≡ q.item_guards)

  -- Validity is about the indices and the lengths alone.
  pub IsValid-stored :
      (q : Ring A) (i : ℕ) (x : A)
      → IsValid q
      → IsValid (record q {
        item_guards = set q.item_guards i false;
        item_container = set q.item_container i x;
      })
  IsValid-stored q i x v = record {
    small = v.small;
    guards = length-set q.item_guards i false ∙ v.guards;
    items = length-set q.item_container i x ∙ v.items;
    front_in = v.front_in;
    size_in = v.size_in;
    rear_at = v.rear_at;
  }

  -- The ring after a slot was reserved and before it is written.
  abbrev pub reserved : Ring A → Ring A
  reserved q = record q { rear = (q.rear + 1) % q.capacity; size = q.size + 1 }

  pub reserved-Granted :
      (d : A) (q : Ring A) → IsValid q → q.size < q.capacity → Granted q q.rear (reserved q)
  reserved-Granted d q v room =
      let w = with_last-IsValid q d v room in
      (
        omega arith,
        record {
          small = v.small;
          guards = v.guards;
          items = v.items;
          front_in = v.front_in;
          size_in = w.size_in;
          rear_at = w.rear_at;
        },
        refl,
        refl,
      )

  overwriting : Ring A → Ring A
  overwriting q = record q { rear = (q.rear + 1) % q.capacity; front = (q.front + 1) % q.capacity }

  overwriting-Granted :
      (d : A) (q : Ring A) → IsValid q → q.size ≡ q.capacity → Granted q q.rear (overwriting q)
  unfolding overwriting
  overwriting-Granted d q v full =
      let w = with_overwritten-IsValid q d v full in
      (
        omega arith,
        record {
          small = v.small;
          guards = v.guards;
          items = v.items;
          front_in = w.front_in;
          size_in = w.size_in;
          rear_at = w.rear_at;
        },
        refl,
        refl,
      )

  pub reserve_room :
      (q : Ring A) → IsValid q → q.size < q.capacity → reserve q ≡ some (some q.rear, reserved q)
  unfolding reserve
  reserve_room q v room =
      ground (arith, advance_lem q.rear q.capacity, get_elem?-of_lt q.item_guards q.rear false)

  pub reserve-Granted :
      (d : A) (q : Ring A) {slot : ℕ} {q' : Ring A}
      → IsValid q
      → reserve q ≡ some (some slot, q')
      → Granted q slot q'
  unfolding reserve overwriting
  reserve-Granted d q {slot} {q'} v e = elim (dec_lt q.size q.capacity) [
    | yes room ↦
        transfer (Granted q) q.rear slot (reserved q) q' (reserve_room q v room) e
          (reserved-Granted d q v room)
    | no full ↦ elim (Bool-cases q.overwrite_mode) [
      | inl mode ↦
          transfer (Granted q) q.rear slot (overwriting q) q'
            (ground (
              arith,
              advance_lem q.rear q.capacity,
              advance_lem q.front q.capacity,
              get_elem?-of_lt q.item_guards q.rear false,
            ))
            e (overwriting-Granted d q v (omega arith))
      | inr mode ↦ absurd (ground arith)
    ]
  ]

  -- The ring after a slot was released and before it is read.
  abbrev pub released : Ring A → Ring A
  released q = record q { size = q.size - 1; front = (q.front + 1) % q.capacity }

  released-Granted : (d : A) (q : Ring A) → IsValid q → 0 < q.size → Granted q q.front (released q)
  released-Granted d q v pos =
      let w = without_first-IsValid q d v pos in
      (
        v.front_in,
        record {
          small = v.small;
          guards = v.guards;
          items = v.items;
          front_in = w.front_in;
          size_in = w.size_in;
          rear_at = w.rear_at;
        },
        refl,
        refl,
      )

  pub release_first :
      (q : Ring A) → IsValid q → 0 < q.size → release q ≡ some (some q.front, released q)
  unfolding release
  release_first q v pos =
      ground (arith, advance_lem q.front q.capacity, get_elem?-of_lt q.item_guards q.front false)

  pub release-Granted :
      (d : A) (q : Ring A) {slot : ℕ} {q' : Ring A}
      → IsValid q
      → release q ≡ some (some slot, q')
      → Granted q slot q'
  release-Granted d q {slot} {q'} v e = elim (dec_lt 0 q.size) [
    | yes pos ↦
        transfer (Granted q) q.front slot (released q) q' (release_first q v pos) e
          (released-Granted d q v pos)
    | no empty ↦ absurd (unfold release in ground arith)
  ]

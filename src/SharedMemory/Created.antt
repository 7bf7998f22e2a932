-- ===== src/SharedMemory/Created.antt =====
-- What is known of a shared memory that was created.
use native.Mathlib.Decide.{dec_le}
use vee.Base.{
  All, ℕ, ◌<◌, ◌≤◌, ◌≡◌, refl, ap, ◌⊎◌, inl, inr, Bool, Bool-cases, true, false, Option, none, some,
  List, arith,
}
use vee.SharedMemory.Boost.{Segments}
use vee.SharedMemory.{
  SharedMemory, CreateOption, create_only, open_or_create, mapped, construct, create_shared_memory,
  get_size, get_name,
}

abbrev pub is_some {ℓ} : {A : Type ℓ} → Option A → Bool
is_some none = false
is_some (some a) = true

module _ (boost : Segments) where
  open boost use {
    State, Segment, Region, exists, size_of, create_segment, open_or_create_segment, map_region,
    closed, region_size, create_taken, map_beyond, map_size,
  }

  -- The object has the name and the size, and all of its size is mapped and in the segment.
  pub record IsCreated (name : List ℕ) (size : ℕ) (m : SharedMemory boost) : Type 0 where
    pub has_name : get_name boost m ≡ name
    pub sized : get_size boost m ≡ size
    pub whole : region_size m.master_region ≡ size
    pub within : size ≤ size_of m.shm

  mapped-IsCreated :
      (name : List ℕ) (size : ℕ) (g : Segment) (o : Option Region) (s s' : State)
      → 0 < size
      → (map_region s g 0 size).0 ≡ o
      → All (IsCreated name size) (mapped boost name size g (o, s')).0
  unfolding mapped get_name get_size
  mapped-IsCreated name size g none s s' h e = tt
  mapped-IsCreated name size g (some r) s s' h e = record {
    has_name = refl;
    sized = refl;
    whole = map_size s g 0 size r h e;
    within = elim (dec_le size (size_of g)) [
      | yes le ↦ le
      | no gt ↦ absurd (ground (arith, e, map_beyond s g 0 size (omega arith)))
    ];
  }

  construct-IsCreated :
      (name : List ℕ) (size : ℕ) (o : Option Segment) (s : State)
      → 0 < size
      → All (IsCreated name size) (construct boost name size (o, s)).0
  unfolding construct
  construct-IsCreated name size none s h = tt
  construct-IsCreated name size (some g) s h =
      mapped-IsCreated name size g (map_region s g 0 size).0 s (map_region s g 0 size).1 h refl

  -- The segment that the library makes or opens, and the system behind it.
  abbrev pub made : State → List ℕ → ℕ → CreateOption → Option Segment × State
  made s name size create_only = create_segment s name size
  made s name size open_or_create = open_or_create_segment s name size

  -- With a segment, either an object is given out, and the size fits the segment, or none is, and
  -- the segment is closed.
  abbrev pub IsSettled : State → List ℕ → ℕ → CreateOption → Segment → Type 0
  IsSettled s name size opt g =
      ((is_some (create_shared_memory boost s name size opt).0 ≡ true) × (size ≤ size_of g))
      ⊎ (((create_shared_memory boost s name size opt).0 ≡ none)
          × ((create_shared_memory boost s name size opt).1
              ≡ closed (map_region (made s name size opt).1 g 0 size).1 g))

  fits :
      (s : State) (g : Segment) (size : ℕ) (r : Region)
      → (map_region s g 0 size).0 ≡ some r
      → size ≤ size_of g
  fits s g size r e = elim (dec_le size (size_of g)) [
    | yes le ↦ le
    | no gt ↦ absurd (ground (arith, e, map_beyond s g 0 size (omega arith)))
  ]

  mapped_settled :
      (name : List ℕ) (size : ℕ) (g : Segment) (o : Option Region) (s s' : State)
      → (map_region s g 0 size).0 ≡ o
      → ((is_some (mapped boost name size g (o, s')).0 ≡ true) × (size ≤ size_of g))
        ⊎ (((mapped boost name size g (o, s')).0 ≡ none)
            × ((mapped boost name size g (o, s')).1 ≡ closed s' g))
  unfolding mapped
  mapped_settled name size g none s s' e = inr (refl, refl)
  mapped_settled name size g (some r) s s' e = inl (refl, fits s g size r e)

  settled :
      (name : List ℕ) (size : ℕ) (o : Option Segment) (s : State)
      → All
          (λ g.
            ((is_some (construct boost name size (o, s)).0 ≡ true) × (size ≤ size_of g))
            ⊎ (((construct boost name size (o, s)).0 ≡ none)
                × ((construct boost name size (o, s)).1 ≡ closed (map_region s g 0 size).1 g)))
          o
  unfolding construct
  settled name size none s = tt
  settled name size (some g) s =
      mapped_settled name size g (map_region s g 0 size).0 s (map_region s g 0 size).1 refl

  -- A shared memory of a size that is not 0, created in either way: where an object is given out, it
  -- has the name and the size that were asked for, and all of the size is mapped and lies in the
  -- segment. Where the library has a segment and none is given out, the segment was closed. With
  -- `create_only` none is given out where the name is taken.
  pub create_shared_memory-IsCreated :
      (s : State) (name : List ℕ) (size : ℕ) (create_opt : CreateOption)
      → 0 < size
      → All (IsCreated name size) (create_shared_memory boost s name size create_opt).0
        × All (IsSettled s name size create_opt) (made s name size create_opt).0
        × ((exists s name ≡ false)
            ⊎ ((create_shared_memory boost s name size create_only).0 ≡ none))
  unfolding create_shared_memory construct
  create_shared_memory-IsCreated s name size create_opt h = (
    created create_opt,
    settles create_opt,
    elim (Bool-cases (exists s name)) [
      | inl e ↦ inr (
          ap
            (λ (o : Option Segment).
              (construct boost name size (o, (create_segment s name size).1)).0)
            (create_taken s name size e))
      | inr e ↦ inl e
    ],
  )
    where
      created :
          (create_opt : CreateOption)
          → All (IsCreated name size) (create_shared_memory boost s name size create_opt).0
      created create_only =
          construct-IsCreated name size (create_segment s name size).0
            (create_segment s name size).1 h
      created open_or_create =
          construct-IsCreated name size (open_or_create_segment s name size).0
            (open_or_create_segment s name size).1 h

      settles : (opt : CreateOption) → All (IsSettled s name size opt) (made s name size opt).0
      settles create_only =
          settled name size (create_segment s name size).0 (create_segment s name size).1
      settles open_or_create =
          settled name size (open_or_create_segment s name size).0
            (open_or_create_segment s name size).1

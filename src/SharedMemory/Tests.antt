-- ===== src/SharedMemory/Tests.antt =====
-- A system with room for one segment: its state is whether the segment, of four bytes, is there.
use vee.Base.{
  All, ℕ, ◌+◌, ◌<◌, ◌≤◌, Option, ◌≡◌, ◌⊎◌, refl, Bool, true, false, none, some, [], ◌∷◌, leb,
  if◌then◌else◌, arith,
}
use vee.SharedMemory.Boost.{Segments}
use vee.SharedMemory.{create_only, open_or_create, construct, mapped, create_shared_memory}
use vee.SharedMemory.Created.{IsCreated, made, IsSettled, create_shared_memory-IsCreated}

taken : (s : Bool) (size : ℕ) → s ≡ true → (if s then none else some size) ≡ none
taken s size e = ground (arith, e)

at_least : (s : Bool) (size g : ℕ) → (if s then none else some size) ≡ some g → size ≤ g
at_least s size g e = ground (arith, e)

abbrev region_at : (offset size g : ℕ) → Option ℕ
region_at offset size g = if leb (offset + size) g then some size else none

beyond : (offset size g : ℕ) → g < offset + size → region_at offset size g ≡ none
beyond offset size g gt = ground (arith, gt)

region_of : (offset size g r : ℕ) → region_at offset size g ≡ some r → r ≡ size
region_of offset size g r e = ground (arith, e)

abbrev one_segment : Segments
one_segment = record {
  State = Bool;
  Segment = ℕ;
  Region = ℕ;
  exists = λ s name. s;
  size_of = λ g. g;
  create_segment = λ s name size. (if s then none else some size, true);
  open_or_create_segment = λ s name size. (if s then some 4 else some size, true);
  map_region = λ s g offset size. (region_at offset size g, s);
  closed = λ s g. s;
  region_size = λ r. r;
  address = λ r. 0;
  create_taken = λ s name size e. taken s size e;
  create_size = λ s name size g e. at_least s size g e;
  map_beyond = λ s g offset size gt. beyond offset size g gt;
  map_size = λ s g offset size r h e. region_of offset size g r e;
}

-- A smaller segment that is there already cannot be mapped.
small_test : (create_shared_memory one_segment true (7 ∷ []) 5 open_or_create).0 ≡ none
unfolding create_shared_memory construct mapped
small_test = refl

create_shared_memory-IsCreated_example :
    All
      (IsCreated one_segment (7 ∷ []) 3)
      (create_shared_memory one_segment true (7 ∷ []) 3 open_or_create).0
    × All
        (IsSettled one_segment true (7 ∷ []) 3 open_or_create)
        (made one_segment true (7 ∷ []) 3 open_or_create).0
    × ((true ≡ false) ⊎ ((create_shared_memory one_segment true (7 ∷ []) 3 create_only).0 ≡ none))
create_shared_memory-IsCreated_example =
    create_shared_memory-IsCreated one_segment true (7 ∷ []) 3 open_or_create (omega arith)

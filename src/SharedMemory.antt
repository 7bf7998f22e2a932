-- ===== src/SharedMemory.antt =====
-- libvee_master/voost/interprocess/xshared_memory.cpp and vee/voost/shared_memory.h, as they are
-- built for Windows: `xshared_memory`. An exception of the library is none.
pub mod Boost
pub mod Created
mod Tests
use mathlib.Core.Option as Option
use vee.Base.{ℕ, Bool, false, Option, none, some, List}
use vee.SharedMemory.Boost.{Segments}

-- `create_option`
pub data CreateOption : Type 0 where
  create_only open_or_create : CreateOption

module _ (boost : Segments) where
  open boost use {
    State, Segment, Region, create_segment, open_or_create_segment, map_region, closed, address,
  }

  -- The members.
  pub record SharedMemory : Type 0 where
    pub shm_name : List ℕ
    pub master_region : Region
    pub shm_size : ℕ
    pub shm : Segment

  -- The end of the constructor: where the region cannot be mapped, the segment is closed.
  unfoldable pub mapped : List ℕ → ℕ → Segment → Option Region × State → Option SharedMemory × State
  mapped name size shm (none, s) = (none, closed s shm)
  mapped name size shm (some region, s) =
      (some (record { shm_name = name; master_region = region; shm_size = size; shm = shm }), s)

  -- The constructor, behind the one of its segment.
  unfoldable pub construct : List ℕ → ℕ → Option Segment × State → Option SharedMemory × State
  unfolding mapped
  construct name size (none, s) = (none, s)
  construct name size (some shm, s) = mapped name size shm (map_region s shm 0 size)

  unfoldable pub create_shared_memory :
      State → List ℕ → ℕ → CreateOption → Option SharedMemory × State
  unfolding construct
  create_shared_memory s name size create_only = construct name size (create_segment s name size)
  create_shared_memory s name size open_or_create =
      construct name size (open_or_create_segment s name size)

  -- The moving constructor, which maps the segment again; `rest` and `left` are what a string and a
  -- segment are that were moved from.
  unfoldable pub move_shared_memory :
      (List ℕ → List ℕ)
      → (Segment → Segment)
      → State
      → SharedMemory
      → (Option SharedMemory × State) × SharedMemory
  unfolding construct
  move_shared_memory rest left s other = (
    construct other.shm_name other.shm_size (some other.shm, s),
    record other { shm_name = rest other.shm_name; shm = left other.shm },
  )

  unfoldable pub get_region : State → SharedMemory → ℕ → ℕ → Option Region × State
  get_region s self offset size = map_region s self.shm offset size

  unfoldable pub get_address : SharedMemory → ℕ
  get_address self = address self.master_region

  unfoldable pub get_size : SharedMemory → ℕ
  get_size self = self.shm_size

  unfoldable pub get_name : SharedMemory → List ℕ
  get_name self = self.shm_name

-- `remove`
unfoldable pub remove : List ℕ → Bool
remove name = false

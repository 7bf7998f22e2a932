-- ===== src/SharedMemory/Boost.antt =====
-- The named segments of boost::interprocess and their mapped regions, which the repository does not
-- hold. An exception is none.
use vee.Base.{ℕ, ◌+◌, ◌<◌, ◌≤◌, ◌≡◌, Bool, true, Option, none, some, List}

-- The laws are documented. A segment is made only under a name that is free, and has at least the
-- size asked for; one that is there is opened with its own size. A region is
-- mapped only where it lies within the segment, and even there an error of the system can prevent it;
-- one of a size that is not 0 has that size.
pub record Segments : Type 1 where
  pub State : Type 0
  pub Segment : Type 0
  pub Region : Type 0
  pub exists : State → List ℕ → Bool
  pub size_of : Segment → ℕ
  pub create_segment : State → List ℕ → ℕ → Option Segment × State
  pub open_or_create_segment : State → List ℕ → ℕ → Option Segment × State
  pub map_region : State → Segment → ℕ → ℕ → Option Region × State
  pub closed : State → Segment → State
  pub region_size : Region → ℕ
  pub address : Region → ℕ
  pub create_taken :
      (s : State) (name : List ℕ) (size : ℕ)
      → exists s name ≡ true
      → (create_segment s name size).0 ≡ none
  pub create_size :
      (s : State) (name : List ℕ) (size : ℕ) (g : Segment)
      → (create_segment s name size).0 ≡ some g
      → size ≤ size_of g
  pub map_beyond :
      (s : State) (g : Segment) (offset size : ℕ)
      → size_of g < offset + size
      → (map_region s g offset size).0 ≡ none
  pub map_size :
      (s : State) (g : Segment) (offset size : ℕ) (r : Region)
      → 0 < size
      → (map_region s g offset size).0 ≡ some r
      → region_size r ≡ size

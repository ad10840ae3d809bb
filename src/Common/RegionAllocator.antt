-- ===== src/Common/RegionAllocator.antt =====
-- RegionAllocatorResource (src/common/MemoryUtils.h) with the strategy eExactRegion, which tracks the
-- free memory of a segment in a boost::icl::interval_map. Addresses are numbers, and the segment lies
-- within them; the contents of the memory and the creation of the segment are left out.
pub mod Intervals
pub mod Ownership
use data_distribution.Prelude.{
  ℕ, ◌+◌, ◌-◌, ◌*◌, ◌/◌, Bool, true, false, not, ◌&&◌, ◌||◌, ◌==◌, nat_eq, List, [], ◌∷◌, Option,
  none, some, if◌then◌else◌, ltb, leb, add64, sub64,
}
use data_distribution.Common.RegionAllocator.Intervals.{Segment, IntervalMap}

pub data AllocStrategy : Type 0 where
  find_longest find_first : AllocStrategy

-- A part of the segment: its address and its size.
pub record Block : Type 0 where
  pub ptr : ℕ
  pub size : ℕ

-- `start` of 0 is the null pointer. `free` is an int64, whose 64 bits it is.
pub record Region (Ranges : Type 0) : Type 0 where
  pub segment_addr : ℕ
  pub segment_size : ℕ
  pub running : Bool
  pub can_fail : Bool
  pub start : ℕ
  pub size : ℕ
  pub free : ℕ
  pub generation : ℕ
  pub free_ranges : Ranges

-- What one pass of do_allocate comes to: an address, the null pointer, or a wait for memory.
pub data Allocation : Type 0 where
  allocated : ℕ → Allocation
  failed waits : Allocation

-- ALIGN is a power of 2.
abbrev pub align_size_up : ℕ → ℕ → ℕ
align_size_up align n = (n + align - 1) / align * align

abbrev pub extent_of : Segment → ℕ
extent_of s = s.upper - s.lower

unfoldable pub first_fit : ℕ → List Segment → Option Segment
first_fit n [] = none
first_fit n (s ∷ ss) = if leb n (extent_of s) then some s else first_fit n ss

-- std::max_element: the first of the longest.
unfoldable pub longest_from : Segment → List Segment → Segment
longest_from s [] = s
longest_from s (t ∷ ts) =
    if ltb (extent_of s) (extent_of t) then longest_from t ts else longest_from s ts

unfoldable pub longest : List Segment → Option Segment
longest [] = none
longest (s ∷ ss) = some (longest_from s ss)

unfoldable pub choose : AllocStrategy → ℕ → List Segment → Option Segment
choose find_first n ss = first_fit n ss
choose find_longest n ss = longest ss

module _ {Ranges : Type 0} ⦃I : IntervalMap Ranges⦄ where
  -- The region that the constructor makes of a segment.
  unfoldable pub new_region : ℕ → ℕ → Bool → Region Ranges
  new_region addr n can_fail = record {
    segment_addr = addr;
    segment_size = n;
    running = true;
    can_fail = can_fail;
    start = addr;
    size = n;
    free = n;
    generation = 0;
    free_ranges = I.nothing;
  }

  unfoldable pub stop : Region Ranges → Region Ranges
  stop r = record r { running = false }

  unfoldable pub try_alloc : ℕ → Region Ranges → Option ℕ × Region Ranges
  try_alloc n r =
      if leb n r.size
      then (
        some r.start,
        record r { start = if (r.size - n) == 0 then 0 else r.start + n; size = r.size - n },
      )
      else (none, r)

  unfoldable pub reclaim_shm_message : ℕ → ℕ → Ranges → Ranges
  reclaim_shm_message ptr n ranges = I.add ptr (ptr + n) ranges

  -- The first half of try_reclaim: the rest of the working extent is free.
  unfoldable pub give_back : Region Ranges → Region Ranges
  give_back r = record r {
    start = 0;
    size = 0;
    free_ranges =
        if ltb 0 r.size then reclaim_shm_message r.start r.size r.free_ranges else r.free_ranges;
  }

  -- The second half, with the segment that was found.
  unfoldable pub take_extent : ℕ → Segment → Region Ranges → Bool × Region Ranges
  take_extent n s r =
      if ltb (extent_of s) n
      then (false, r)
      else if ltb 1 s.value
      then (
        false,
        record r {
          free = sub64 r.free (extent_of s);
          free_ranges = I.erase s.lower s.upper r.free_ranges;
        },
      )
      else (
        true,
        record r {
          start = s.lower;
          size = extent_of s;
          free_ranges = I.erase s.lower s.upper r.free_ranges;
        },
      )

  unfoldable pub try_reclaim : AllocStrategy → ℕ → Region Ranges → Bool × Region Ranges
  try_reclaim strategy n r =
      let r' = give_back r in
      elim (choose strategy n (I.segments r'.free_ranges)) [
        | none ↦ (false, r')
        | some s ↦ take_extent n s r'
      ]

  -- try_alloc, and once more behind a successful try_reclaim.
  unfoldable pub find_memory : AllocStrategy → ℕ → Region Ranges → Option ℕ × Region Ranges
  find_memory strategy n r = elim (try_alloc n r).0 [
    | some p ↦ try_alloc n r
    | none ↦
        let (found, r') = try_reclaim strategy n r in if found then try_alloc n r' else (none, r')
  ]

  -- do_allocate up to its wait, behind which it is called again.
  unfoldable pub do_allocate : AllocStrategy → ℕ → ℕ → Region Ranges → Allocation × Region Ranges
  do_allocate strategy align n r =
      if not r.running
      then (failed, r)
      else if n == 0
      then (allocated (r.segment_addr + r.segment_size), r)
      else (let (found, r') = find_memory strategy (align_size_up align n) r in
          elim found [
            | none ↦ if r'.can_fail then (failed, r') else (waits, r')
            | some p ↦ (allocated p, record r' { free = sub64 r'.free (align_size_up align n) })
          ])

  -- The map that the callback makes of the returned blocks.
  unfoldable pub returned : ℕ → List Block → Ranges → Ranges
  returned align [] ranges = ranges
  returned align (b ∷ bs) ranges =
      returned align bs
        (if b.size == 0 then ranges else I.add b.ptr (b.ptr + align_size_up align b.size) ranges)

  unfoldable pub reclaim_segments : List Segment → Region Ranges → Region Ranges
  reclaim_segments [] r = r
  reclaim_segments (s ∷ ss) r = reclaim_segments ss (record r {
    free = add64 r.free (extent_of s);
    free_ranges = reclaim_shm_message s.lower (extent_of s) r.free_ranges;
  })

  -- The callback for blocks that the transport returns.
  unfoldable pub reclaim : ℕ → List Block → Region Ranges → Region Ranges
  reclaim align bs r =
      let r' = reclaim_segments (I.segments (returned align bs I.nothing)) r in
      record r' { generation = add64 r'.generation 1 }

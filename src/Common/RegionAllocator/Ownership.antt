-- ===== src/Common/RegionAllocator/Ownership.antt =====
-- Who owns an address of a segment (src/common/MemoryUtils.h): the map of free memory, the working
-- extent, or one block that was handed out.
pub mod Allocating
pub mod Returning
pub mod Reachable
use mathlib.Core.List.Perm
use data_distribution.Prelude.{
  ℕ, suc, ◌+◌, ◌-◌, ◌*◌, ◌/◌, ◌≤◌, ◌<◌, Bool, true, false, not, ◌&&◌, ◌==◌, nat_eq, List, [], ◌∷◌,
  ◌++◌, Option, none, some, ◌≡◌, refl, sym, subst, ap, ◌∙◌, inl, inr, Bool-cases, Option-cases,
  arith, if◌then◌else◌, ltb, leb, Perm, All, sub64, add64,
}
use data_distribution.Common.RegionAllocator.Intervals.{Segment, IntervalMap, within, hits}
use data_distribution.Common.RegionAllocator.{
  AllocStrategy, find_first, find_longest, Block, Region, Allocation, allocated, failed, waits,
  align_size_up, extent_of, first_fit, longest_from, longest, choose, new_region, stop, try_alloc,
  reclaim_shm_message, give_back, take_extent, try_reclaim, find_memory, do_allocate, returned,
  reclaim_segments, reclaim,
}

-- How many of the blocks an address lies in, with their sizes aligned up.
abbrev pub holders : ℕ → ℕ → List Block → ℕ
holders align x [] = 0
holders align x (b ∷ bs) = within b.ptr (b.ptr + align_size_up align b.size) x + holders align x bs

pub holders-append :
    (align x : ℕ) (cs bs : List Block)
    → holders align x (cs ++ bs) ≡ holders align x cs + holders align x bs
holders-append align x [] bs = omega arith
holders-append align x (c ∷ cs) bs = omega (arith, holders-append align x cs bs)

-- The block of a request that was met.
abbrev pub handed : Option ℕ → ℕ → List Block
handed none n = []
handed (some p) n = record { ptr = p; size = n } ∷ []

-- The blocks that a request adds to those that are handed out: none for one of no bytes.
abbrev pub granted : ℕ → Allocation → List Block
granted n (allocated p) = if n == 0 then [] else record { ptr = p; size = n } ∷ []
granted n failed = []
granted n waits = []

module _ {Ranges : Type 0} ⦃I : IntervalMap Ranges⦄ where
  -- The blocks that are handed out, the working extent and the free memory have no address in common, and
  -- none outside of the segment.
  abbrev pub IsOwned : ℕ → List Block → Region Ranges → Type 0
  IsOwned align live r =
      (x : ℕ)
      → I.count r.free_ranges x + within r.start (r.start + r.size) x + holders align x live
        ≤ within r.segment_addr (r.segment_addr + r.segment_size) x

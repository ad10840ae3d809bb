-- ===== src/Tests/MemoryExamples.antt =====
-- Examples for src/common/MemoryUtils.h: a segment of 16 addresses, aligned by 4.
use data_distribution.Prelude.{false, List, [], ◌∷◌, ◌++◌, ◌≡◌, refl}
use data_distribution.Common.RegionAllocator.{
  Block, Region, find_longest, waits, new_region, do_allocate, find_memory, try_alloc, try_reclaim,
  give_back, choose, longest,
}
use data_distribution.Common.RegionAllocator.Ownership.{granted, IsOwned}
use data_distribution.Common.RegionAllocator.Ownership.Reachable.{
  Reaches, creates, allocates, Reaches-IsOwned,
}
use data_distribution.Tests.AddressCounts.{AddressCounts, address_counts}

abbrev segment : Region AddressCounts
segment = new_region 64 16 false

abbrev first_served : Region AddressCounts
first_served = (do_allocate find_longest 4 5 segment).1

abbrev first_blocks : List Block
first_blocks = granted 5 (do_allocate find_longest 4 5 segment).0 ++ []

abbrev second_served : Region AddressCounts
second_served = (do_allocate find_longest 4 8 first_served).1

abbrev second_blocks : List Block
second_blocks = granted 8 (do_allocate find_longest 4 8 first_served).0 ++ first_blocks

two_served : Reaches 4 second_blocks second_served
two_served =
    allocates find_longest 8 first_blocks first_served
      (allocates find_longest 5 [] segment (creates 64 16 false))

Reaches-IsOwned_example : IsOwned 4 second_blocks second_served
Reaches-IsOwned_example = Reaches-IsOwned 4 second_blocks second_served two_served

-- The two requests take the segment up, and a third one waits.
two_blocks : second_blocks ≡ record { ptr = 72; size = 8 } ∷ record { ptr = 64; size = 5 } ∷ []
unfolding do_allocate find_memory try_alloc new_region
two_blocks = refl

third_waits : (do_allocate find_longest 4 1 second_served).0 ≡ waits
unfolding do_allocate find_memory try_alloc new_region try_reclaim give_back choose longest
third_waits = refl

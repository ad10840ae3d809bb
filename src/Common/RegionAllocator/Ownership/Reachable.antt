-- ===== src/Common/RegionAllocator/Ownership/Reachable.antt =====
-- The regions that a sequence of calls of src/common/MemoryUtils.h can reach.
use data_distribution.Prelude.{ℕ, Bool, nat_eq, List, [], ◌∷◌, ◌++◌, arith}
use data_distribution.Common.RegionAllocator.Intervals.{IntervalMap}
use data_distribution.Common.RegionAllocator.{
  AllocStrategy, Block, Region, new_region, stop, do_allocate, reclaim,
}
use data_distribution.Common.RegionAllocator.Ownership.{holders-append, granted, IsOwned}
use data_distribution.Common.RegionAllocator.Ownership.Allocating.{do_allocate-Grants}
use data_distribution.Common.RegionAllocator.Ownership.Returning.{reclaim-IsOwned}

new_region-IsOwned :
    (Ranges : Type 0) ⦃I : IntervalMap Ranges⦄ (align addr n : ℕ) (can_fail : Bool)
    → IsOwned {Ranges = Ranges} align [] (new_region addr n can_fail)
unfolding new_region
new_region-IsOwned Ranges ⦃I⦄ align addr n can_fail x = omega (arith, I.count-nothing x)

module _ {Ranges : Type 0} ⦃I : IntervalMap Ranges⦄ where
  swapped-IsOwned :
      (align : ℕ) (cs : List Block) (a b : Block) (live : List Block) (r : Region Ranges)
      → IsOwned align (cs ++ a ∷ b ∷ live) r
      → IsOwned align (cs ++ b ∷ a ∷ live) r
  swapped-IsOwned align cs a b live r h x = omega (
    arith,
    h x,
    holders-append align x cs (a ∷ b ∷ live),
    holders-append align x cs (b ∷ a ∷ live),
  )

-- What a region can come to: it is made of a segment, a request is met or not, the transport returns
-- blocks, or it is stopped. The blocks that are handed out have no order.
pub data Reaches {Ranges : Type 0} ⦃I : IntervalMap Ranges⦄ (align : ℕ)
    : List Block → Region Ranges → Type 0 where
  creates : (addr n : ℕ) (can_fail : Bool) → Reaches align [] (new_region addr n can_fail)
  allocates :
      (strategy : AllocStrategy) (n : ℕ) (live : List Block) (r : Region Ranges)
      → Reaches align live r
      → Reaches align
          (granted n (do_allocate strategy align n r).0 ++ live)
          (do_allocate strategy align n r).1
  returns :
      (bs live : List Block) (r : Region Ranges)
      → Reaches align (bs ++ live) r
      → Reaches align live (reclaim align bs r)
  swaps :
      (cs : List Block) (a b : Block) (live : List Block) (r : Region Ranges)
      → Reaches align (cs ++ a ∷ b ∷ live) r
      → Reaches align (cs ++ b ∷ a ∷ live) r
  stops :
      (live : List Block) (r : Region Ranges) → Reaches align live r → Reaches align live (stop r)

-- In every region that can be reached with a sequence of requests, returned blocks and a stop, the
-- blocks that are handed out and not returned, with their sizes aligned up, the working extent and the
-- free memory have no address in common, and none outside of the segment.
pub Reaches-IsOwned :
    {Ranges : Type 0} ⦃I : IntervalMap Ranges⦄ (align : ℕ) (live : List Block) (r : Region Ranges)
    → Reaches align live r
    → IsOwned align live r
unfolding stop
Reaches-IsOwned align _ _ (creates addr n can_fail) = new_region-IsOwned _ align addr n can_fail
Reaches-IsOwned align _ _ (allocates strategy n live r h) =
    do_allocate-Grants strategy align n live r (Reaches-IsOwned align live r h)
Reaches-IsOwned align _ _ (returns bs live r h) =
    reclaim-IsOwned align bs live r (Reaches-IsOwned align (bs ++ live) r h)
Reaches-IsOwned align _ _ (swaps cs a b live r h) =
    swapped-IsOwned align cs a b live r (Reaches-IsOwned align (cs ++ a ∷ b ∷ live) r h)
Reaches-IsOwned align _ _ (stops live r h) = Reaches-IsOwned align live r h

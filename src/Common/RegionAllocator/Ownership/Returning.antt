-- ===== src/Common/RegionAllocator/Ownership/Returning.antt =====
-- What the callback for returned blocks (src/common/MemoryUtils.h) does to the ownership of addresses.
use data_distribution.Prelude.{
  ℕ, ◌+◌, ◌≤◌, ◌<◌, ◌==◌, nat_eq, List, [], ◌∷◌, ◌++◌, ◌≡◌, refl, inl, inr, Bool-cases, arith, All,
  add64,
}
use data_distribution.Common.RegionAllocator.Intervals.{Segment, IntervalMap, hits}
use data_distribution.Common.RegionAllocator.{
  Block, Region, align_size_up, extent_of, reclaim_shm_message, returned, reclaim_segments, reclaim,
}
use data_distribution.Common.RegionAllocator.Ownership.{holders, holders-append, IsOwned}

module _ {Ranges : Type 0} ⦃I : IntervalMap Ranges⦄ where
  count-returned :
      (align : ℕ) (bs : List Block) (ranges : Ranges) (x : ℕ)
      → I.count (returned align bs ranges) x ≤ I.count ranges x + holders align x bs
  unfolding returned
  count-returned align [] ranges x = omega arith
  count-returned align (b ∷ bs) ranges x =
      let m = align_size_up align b.size in
      elim (Bool-cases (b.size == 0)) [
        | inl e ↦ rw e omega (arith, count-returned align bs ranges x)
        | inr e ↦ rw e omega (
          arith,
          count-returned align bs (I.add b.ptr (b.ptr + m) ranges) x,
          I.count-add b.ptr (b.ptr + m) ranges x,
        )
      ]

  count-reclaim_segments :
      (ss : List Segment) (r : Region Ranges) (x : ℕ)
      → All (λ s. s.lower < s.upper) ss
      → let r' = reclaim_segments ss r in
        (I.count r'.free_ranges x ≡ I.count r.free_ranges x + hits x ss)
        × (r'.start ≡ r.start)
        × (r'.size ≡ r.size)
        × (r'.segment_addr ≡ r.segment_addr)
        × (r'.segment_size ≡ r.segment_size)
  unfolding reclaim_segments reclaim_shm_message
  count-reclaim_segments [] r x h = (omega arith, refl, refl, refl, refl)
  count-reclaim_segments (s ∷ ss) r x h =
      let r' : Region Ranges = record r {
        free = add64 r.free (extent_of s);
        free_ranges = I.add s.lower (s.lower + extent_of s) r.free_ranges;
      } in
      let (c, a, b, d, e) = count-reclaim_segments ss r' x h.1 in
      (
        ground (arith, c, h.0, I.count-add s.lower (s.lower + extent_of s) r.free_ranges x),
        a,
        b,
        d,
        e,
      )

  pub reclaim-IsOwned :
      (align : ℕ) (bs live : List Block) (r : Region Ranges)
      → IsOwned align (bs ++ live) r
      → IsOwned align live (reclaim align bs r)
  unfolding reclaim
  reclaim-IsOwned align bs live r h x =
      let map = returned align bs I.nothing in
      let (c, a, b, d, e) = count-reclaim_segments (I.segments map) r x (I.segments_proper map) in
      ground (
        arith,
        h x,
        c,
        a,
        b,
        d,
        e,
        holders-append align x bs live,
        I.hits-segments map x,
        count-returned align bs I.nothing x,
        I.count-nothing x,
      )

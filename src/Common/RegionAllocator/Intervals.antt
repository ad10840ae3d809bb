-- ===== src/Common/RegionAllocator/Intervals.antt =====
-- boost::icl::interval_map from addresses to counts, which is a parameter: the operations that
-- src/common/MemoryUtils.h uses, with their documented behaviour. Adding an interval counts it once more
-- at each of its addresses, and the segments are disjoint and cover what is counted.
use data_distribution.Prelude.{ℕ, ◌+◌, ◌<◌, ◌&&◌, List, [], ◌∷◌, ◌≡◌, if◌then◌else◌, ltb, leb, All}

pub record Segment : Type 0 where
  pub lower : ℕ
  pub upper : ℕ
  pub value : ℕ

-- 1 for an address of a right-open interval, else 0.
abbrev pub within : ℕ → ℕ → ℕ → ℕ
within a b x = if leb a x && ltb x b then 1 else 0

-- The number of segments that an address lies in.
abbrev pub hits : ℕ → List Segment → ℕ
hits x [] = 0
hits x (s ∷ ss) = within s.lower s.upper x + hits x ss

pub record IntervalMap (Ranges : Type 0) : Type 0 where
  pub nothing : Ranges
  pub add : ℕ → ℕ → Ranges → Ranges
  pub erase : ℕ → ℕ → Ranges → Ranges
  pub segments : Ranges → List Segment
  pub count : Ranges → ℕ → ℕ
  pub count-nothing : (x : ℕ) → count nothing x ≡ 0
  pub count-add : (a b : ℕ) (r : Ranges) (x : ℕ) → count (add a b r) x ≡ count r x + within a b x
  pub count-erase :
      (a b : ℕ) (r : Ranges) (x : ℕ)
      → count (erase a b r) x ≡ (if leb a x && ltb x b then 0 else count r x)
  pub hits-segments :
      (r : Ranges) (x : ℕ) → hits x (segments r) ≡ (if ltb 0 (count r x) then 1 else 0)
  pub segments_proper : (r : Ranges) → All (λ s. s.lower < s.upper) (segments r)

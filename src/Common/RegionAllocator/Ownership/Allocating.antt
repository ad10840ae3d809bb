-- ===== src/Common/RegionAllocator/Ownership/Allocating.antt =====
-- What do_allocate (src/common/MemoryUtils.h) does to the ownership of addresses.
use data_distribution.Prelude.{
  ℕ, ◌+◌, ◌-◌, ◌≤◌, true, false, ◌==◌, nat_eq, List, [], ◌∷◌, ◌++◌, Option, none, some, ◌≡◌, refl,
  sym, subst, ap, ◌∙◌, inl, inr, Bool-cases, Option-cases, arith, if◌then◌else◌, ltb, leb, sub64,
}
use data_distribution.Common.RegionAllocator.Intervals.{Segment, IntervalMap, within, hits}
use data_distribution.Common.RegionAllocator.{
  AllocStrategy, find_first, find_longest, Block, Region, Allocation, allocated, failed, waits,
  align_size_up, extent_of, first_fit, longest_from, longest, choose, try_alloc,
  reclaim_shm_message, give_back, take_extent, try_reclaim, find_memory, do_allocate,
}
use data_distribution.Common.RegionAllocator.Ownership.{handed, granted, IsOwned}

-- A segment that is chosen is one of those of the map.
hits-first_fit :
    (n x : ℕ) (ss : List Segment) (s : Segment)
    → first_fit n ss ≡ some s
    → within s.lower s.upper x ≤ hits x ss
unfolding first_fit
hits-first_fit n x [] s e = ground (arith, e)
hits-first_fit n x (t ∷ ts) s e = elim (Bool-cases (leb n (extent_of t))) [
  | inl b ↦
      let same : (t ≡ s) = ground (arith, e, b) in
      subst (λ u. within u.lower u.upper x ≤ within t.lower t.upper x + hits x ts) same
        (omega arith)
  | inr b ↦
      let rest : (first_fit n ts ≡ some s) = ground (arith, e, b) in
      omega (arith, hits-first_fit n x ts s rest)
]

hits-longest_from :
    (x : ℕ) (s : Segment) (ss : List Segment)
    → within (longest_from s ss).lower (longest_from s ss).upper x
      ≤ within s.lower s.upper x + hits x ss
unfolding longest_from
hits-longest_from x s [] = omega arith
hits-longest_from x s (t ∷ ts) = elim (Bool-cases (ltb (extent_of s) (extent_of t))) [
  | inl b ↦ rw b omega (arith, hits-longest_from x t ts)
  | inr b ↦ rw b omega (arith, hits-longest_from x s ts)
]

pub hits-choose :
    (strategy : AllocStrategy) (n x : ℕ) (ss : List Segment) (s : Segment)
    → choose strategy n ss ≡ some s
    → within s.lower s.upper x ≤ hits x ss
unfolding choose longest
hits-choose find_first n x ss s e = hits-first_fit n x ss s e
hits-choose find_longest n x [] s e = ground (arith, e)
hits-choose find_longest n x (t ∷ ts) s e =
    let same : (longest_from t ts ≡ s) = ground (arith, e) in
    subst (λ u. within u.lower u.upper x ≤ hits x (t ∷ ts)) same (hits-longest_from x t ts)

split_within :
    (s l m x : ℕ)
    → leb m l ≡ true
    → within s (s + l) x
      ≡ within (if (l - m) == 0 then 0 else s + m) ((if (l - m) == 0 then 0 else s + m) + (l - m)) x
        + within s (s + m) x
split_within s l m x h = ground arith

module _ {Ranges : Type 0} ⦃I : IntervalMap Ranges⦄ where
  give_back-IsOwned :
      (align : ℕ) (live : List Block) (r : Region Ranges)
      → IsOwned align live r
      → IsOwned align live (give_back r)
  unfolding give_back reclaim_shm_message
  give_back-IsOwned align live r h x =
      ground (arith, h x, I.count-add r.start (r.start + r.size) r.free_ranges x)

  take_extent-IsOwned :
      (align n : ℕ) (live : List Block) (s : Segment) (r : Region Ranges)
      → r.size ≡ 0
      → ((x : ℕ) → within s.lower s.upper x ≤ hits x (I.segments r.free_ranges))
      → IsOwned align live r
      → IsOwned align live (take_extent n s r).1
  unfolding take_extent
  take_extent-IsOwned align n live s r z member h x = ground (
    arith,
    z,
    member x,
    h x,
    I.count-erase s.lower s.upper r.free_ranges x,
    I.hits-segments r.free_ranges x,
  )

  give_back_empty : (r : Region Ranges) → (give_back r).size ≡ 0
  unfolding give_back
  give_back_empty r = refl

  try_reclaim-IsOwned :
      (strategy : AllocStrategy) (align n : ℕ) (live : List Block) (r : Region Ranges)
      → IsOwned align live r
      → IsOwned align live (try_reclaim strategy n r).1
  unfolding try_reclaim
  try_reclaim-IsOwned strategy align n live r h =
      let r' = give_back r in
      let k = give_back-IsOwned align live r h in
      elim (Option-cases (choose strategy n (I.segments r'.free_ranges))) [
        | inl e ↦ rw (e, try_reclaim) k
        | inr (s, e) ↦
            rw (e, try_reclaim)
              (take_extent-IsOwned align n live s r' (give_back_empty r)
                (λ x. hits-choose strategy n x (I.segments r'.free_ranges) s e) k)
      ]

  no_address :
      (m : ℕ) (r : Region Ranges) (p : ℕ) → leb m r.size ≡ false → (try_alloc m r).0 ≡ some p → ⊥
  unfolding try_alloc
  no_address m r p b e = ground (arith, e, b)

  split_extent :
      (m x : ℕ) (r : Region Ranges) (p : ℕ)
      → (try_alloc m r).0 ≡ some p
      → let r' = (try_alloc m r).1 in
        (within r.start (r.start + r.size) x
          ≡ within r'.start (r'.start + r'.size) x + within p (p + m) x)
        × (r'.free_ranges ≡ r.free_ranges)
        × (r'.segment_addr ≡ r.segment_addr)
        × (r'.segment_size ≡ r.segment_size)
  unfolding try_alloc
  split_extent m x r p e = elim (Bool-cases (leb m r.size)) [
    | inl b ↦
        let rest : Region Ranges = record r {
          start = if (r.size - m) == 0 then 0 else r.start + m;
          size = r.size - m;
        } in
        let same : ((try_alloc m r).1 ≡ rest) = ground (arith, b) in
        let at_start : (r.start ≡ p) = ground (arith, e, b) in
        (
          split_within r.start r.size m x b
              ∙ ap (λ j. within j.start (j.start + j.size) x + within r.start (r.start + m) x)
                  (sym same)
              ∙ ap
                  (λ q.
                    within (try_alloc m r).1.start
                      ((try_alloc m r).1.start + (try_alloc m r).1.size) x
                    + within q (q + m) x)
                  at_start,
          ap (λ j. j.free_ranges) same,
          ap (λ j. j.segment_addr) same,
          ap (λ j. j.segment_size) same,
        )
    | inr b ↦ absurd (no_address m r p b e)
  ]

  -- A block that is handed out was in the working extent.
  try_alloc-IsOwned :
      (align n : ℕ) (live : List Block) (r : Region Ranges) (p : ℕ)
      → IsOwned align live r
      → (try_alloc (align_size_up align n) r).0 ≡ some p
      → IsOwned align (record { ptr = p; size = n } ∷ live) (try_alloc (align_size_up align n) r).1
  unfolding try_alloc
  try_alloc-IsOwned align n live r p h e x =
      let (q, f, a, z) = split_extent (align_size_up align n) x r p e in
      ground (arith, h x, q, f, a, z)

  try_alloc-none : (n : ℕ) (r : Region Ranges) → (try_alloc n r).0 ≡ none → (try_alloc n r).1 ≡ r
  unfolding try_alloc
  try_alloc-none n r e = ground (arith, e)

  -- What a request leaves, when its block counts as handed out.
  abbrev pub Keeps : ℕ → ℕ → List Block → Option ℕ × Region Ranges → Type 0
  Keeps align n live f = IsOwned align (handed f.0 n ++ live) f.1

  try_alloc-Keeps :
      (align n : ℕ) (live : List Block) (r : Region Ranges)
      → IsOwned align live r
      → Keeps align n live (try_alloc (align_size_up align n) r)
  try_alloc-Keeps align n live r h =
      let f = try_alloc (align_size_up align n) r in
      elim (Option-cases f.0) [
        | inl e ↦
            subst (λ o. IsOwned align (handed o n ++ live) f.1) (sym e)
              (subst (λ j. IsOwned align live j) (sym (try_alloc-none (align_size_up align n) r e))
                h)
        | inr (p, e) ↦
            subst (λ o. IsOwned align (handed o n ++ live) f.1) (sym e)
              (try_alloc-IsOwned align n live r p h e)
      ]

  find_memory-Keeps :
      (strategy : AllocStrategy) (align n : ℕ) (live : List Block) (r : Region Ranges)
      → IsOwned align live r
      → Keeps align n live (find_memory strategy (align_size_up align n) r)
  unfolding find_memory try_alloc
  find_memory-Keeps strategy align n live r h =
      let m = align_size_up align n in
      let r' = (try_reclaim strategy m r).1 in
      let k = try_reclaim-IsOwned strategy align m live r h in
      elim (Option-cases (try_alloc m r).0) [
        | inr (p, e) ↦
            let same : (find_memory strategy m r ≡ try_alloc m r) = rw (e, find_memory) refl in
            subst (Keeps align n live) (sym same) (try_alloc-Keeps align n live r h)
        | inl e ↦ elim (Bool-cases (try_reclaim strategy m r).0) [
          | inr f ↦
              let same : (find_memory strategy m r ≡ (none, r')) = rw (e, f, find_memory) refl in
              subst (Keeps align n live) (sym same) k
          | inl f ↦
              let same : (find_memory strategy m r ≡ try_alloc m r') =
                rw (e, f, find_memory) refl in
              subst (Keeps align n live) (sym same) (try_alloc-Keeps align n live r' k)
        ]
      ]

  -- What a request leaves behind do_allocate.
  abbrev pub Grants : ℕ → ℕ → List Block → Allocation × Region Ranges → Type 0
  Grants align n live f = IsOwned align (granted n f.0 ++ live) f.1

  granted_block :
      (align n p : ℕ) (live : List Block) (r : Region Ranges)
      → (n == 0) ≡ false
      → IsOwned align (record { ptr = p; size = n } ∷ live) r
      → IsOwned align (granted n (allocated p) ++ live) r
  granted_block align n p live r z h = rw z h

  granted_nothing :
      (align n p : ℕ) (live : List Block) (r : Region Ranges)
      → (n == 0) ≡ true
      → IsOwned align live r
      → IsOwned align (granted n (allocated p) ++ live) r
  granted_nothing align n p live r z h = rw z h

  pub do_allocate-Grants :
      (strategy : AllocStrategy) (align n : ℕ) (live : List Block) (r : Region Ranges)
      → IsOwned align live r
      → Grants align n live (do_allocate strategy align n r)
  unfolding do_allocate
  do_allocate-Grants strategy align n live r h =
      let m = align_size_up align n in
      let f = find_memory strategy m r in
      let k = find_memory-Keeps strategy align n live r h in
      elim (Bool-cases r.running) [
        | inr e ↦ rw (e, do_allocate) h
        | inl e ↦ elim (Bool-cases (n == 0)) [
          | inl z ↦
              let end = r.segment_addr + r.segment_size in
              let same : (do_allocate strategy align n r ≡ (allocated end, r)) =
                ground (arith, e, z) in
              subst (Grants align n live) (sym same) (granted_nothing align n end live r z h)
          | inr z ↦ elim (Option-cases f.0) [
            | inl g ↦
                let left : IsOwned align live f.1 =
                  subst (λ o. IsOwned align (handed o n ++ live) f.1) g k in
                elim (Bool-cases f.1.can_fail) [
                  | inl c ↦
                      let same : (do_allocate strategy align n r ≡ (failed, f.1)) =
                        ground (arith, e, z, g, c) in
                      subst (Grants align n live) (sym same) left
                  | inr c ↦
                      let same : (do_allocate strategy align n r ≡ (waits, f.1)) =
                        ground (arith, e, z, g, c) in
                      subst (Grants align n live) (sym same) left
                ]
            | inr (p, g) ↦
                let after : Region Ranges = record (f.1) { free = sub64 f.1.free m } in
                let same : (do_allocate strategy align n r ≡ (allocated p, after)) =
                  ground (arith, e, z, g) in
                let taken : IsOwned align (record { ptr = p; size = n } ∷ live) f.1 =
                  subst (λ o. IsOwned align (handed o n ++ live) f.1) g k in
                subst (Grants align n live) (sym same) (granted_block align n p live after z taken)
          ]
        ]
      ]

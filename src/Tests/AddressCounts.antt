-- ===== src/Tests/AddressCounts.antt =====
-- An interval map that counts each address: an instance of the parameter of the region allocator.
use data_distribution.Prelude.{
  ℕ, zero, suc, ◌+◌, ◌<◌, ◌≡◌, ◌&&◌, List, [], ◌∷◌, arith, if◌then◌else◌, ltb, leb, max, All, ◌==◌,
  nat_eq, nat_beq_iff, Bool-cases, inl, inr, subst, sym,
}
use data_distribution.Common.RegionAllocator.Intervals.{Segment, within, hits, IntervalMap}

-- The counts below a bound.
pub record AddressCounts : Type 0 where
  pub bound : ℕ
  pub counts : ℕ → ℕ

abbrev pub count_at : AddressCounts → ℕ → ℕ
count_at m x = if ltb x m.bound then m.counts x else 0

abbrev pub units : ℕ → (ℕ → ℕ) → List Segment
units zero f = []
units (suc n) f =
    let rest = units n f in
    if ltb 0 (f n) then record { lower = n; upper = suc n; value = f n } ∷ rest else rest

pub hits-units :
    (n : ℕ) (f : ℕ → ℕ) (x : ℕ)
    → hits x (units n f) ≡ (if ltb 0 (if ltb x n then f x else 0) then 1 else 0)
hits-units zero f x = ground arith
hits-units (suc n) f x = elim (Bool-cases (x == n)) [
  | inl e ↦
      subst
        (λ y.
          hits y (units (suc n) f) ≡ (if ltb 0 (if ltb y (suc n) then f y else 0) then 1 else 0))
        (sym ((nat_beq_iff x n).0 e)) (ground (arith, hits-units n f n))
  | inr e ↦ ground (arith, e, hits-units n f x)
]

pub units_proper : (n : ℕ) (f : ℕ → ℕ) → All (λ s. s.lower < s.upper) (units n f)
units_proper zero f = tt
units_proper (suc n) f = elim (Bool-cases (ltb 0 (f n))) [
  | inl e ↦ rw e (omega arith, units_proper n f)
  | inr e ↦ rw e (units_proper n f)
]

abbrev pub none_counted : AddressCounts
none_counted = record { bound = 0; counts = λ x. 0 }

abbrev pub add_counts : ℕ → ℕ → AddressCounts → AddressCounts
add_counts a b m = record { bound = max m.bound b; counts = λ x. count_at m x + within a b x }

abbrev pub erase_counts : ℕ → ℕ → AddressCounts → AddressCounts
erase_counts a b m = record {
  bound = m.bound;
  counts = λ x. if leb a x && ltb x b then 0 else m.counts x;
}

pub count_at-none_counted : (x : ℕ) → count_at none_counted x ≡ 0
count_at-none_counted x = ground arith

pub count_at-add_counts :
    (a b : ℕ) (m : AddressCounts) (x : ℕ)
    → count_at (add_counts a b m) x ≡ count_at m x + within a b x
count_at-add_counts a b m x = ground arith

pub count_at-erase_counts :
    (a b : ℕ) (m : AddressCounts) (x : ℕ)
    → count_at (erase_counts a b m) x ≡ (if leb a x && ltb x b then 0 else count_at m x)
count_at-erase_counts a b m x = ground arith

instance abbrev pub address_counts : IntervalMap AddressCounts
address_counts = record {
  nothing = none_counted;
  add = add_counts;
  erase = erase_counts;
  segments = λ m. units m.bound m.counts;
  count = count_at;
  count-nothing = count_at-none_counted;
  count-add = count_at-add_counts;
  count-erase = count_at-erase_counts;
  hits-segments = λ m x. hits-units m.bound m.counts x;
  segments_proper = λ m. units_proper m.bound m.counts;
}

-- ===== src/Tests/BitVector.antt =====
-- A bit set of the documented behaviour of boost::dynamic_bitset, for the examples: a size, and a
-- function that says which bits are set.
use data_distribution.Prelude.{
  ℕ, ◌≡◌, ◌≢◌, ◌<◌, ◌≤◌, Bool, false, refl, ◌==◌, nat_eq, ltb, if◌then◌else◌, arith,
}
use data_distribution.Common.Bitset.{DynamicBitset}

pub record BitVector : Type 0 where
  pub count : ℕ
  pub bit : ℕ → Bool

abbrev pub nothing : BitVector
nothing = record { count = 0; bit = λ i. false }

pub write_self : (f : ℕ → Bool) (i : ℕ) (v : Bool) → (if i == i then v else f i) ≡ v
write_self f i v = ground arith

pub write_ne : (f : ℕ → Bool) (i j : ℕ) (v : Bool) → i ≢ j → (if i == j then v else f j) ≡ f j
write_ne f i j v n = ground arith

pub resize_old : (f : ℕ → Bool) (i n : ℕ) → i < n → (if ltb i n then f i else false) ≡ f i
resize_old f i n h = ground arith

pub resize_new : (f : ℕ → Bool) (i n : ℕ) → n ≤ i → (if ltb i n then f i else false) ≡ false
resize_new f i n h = ground arith

instance abbrev pub bit_vector : DynamicBitset BitVector
bit_vector = record {
  size = λ b. b.count;
  test = λ b i. b.bit i;
  write = λ b i v. record b { bit = λ j. if i == j then v else b.bit j };
  resize = λ b n. record { count = n; bit = λ j. if ltb j b.count then b.bit j else false };
  reset = λ b. record b { bit = λ j. false };
  size-write = λ b i v h. refl;
  size-resize = λ b n. refl;
  size-reset = λ b. refl;
  test-write_self = λ b i v h. write_self b.bit i v;
  test-write_ne = λ b i j v h k n. write_ne b.bit i j v n;
  test-resize_old = λ b n i h k. resize_old b.bit i b.count h;
  test-resize_new = λ b n i h k. resize_new b.bit i b.count h;
  test-reset = λ b i h. refl;
}

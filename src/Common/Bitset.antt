-- ===== src/Common/Bitset.antt =====
-- boost::dynamic_bitset, as src/common/base/Utilities.h uses it: the operations that EventRecorder
-- calls, with their documented behaviour. The implementation is a parameter of every user.
use data_distribution.Prelude.{ℕ, ◌≡◌, ◌≢◌, ◌<◌, ◌≤◌, Bool, false}

pub record DynamicBitset (Bits : Type 0) : Type 0 where
  pub size : Bits → ℕ
  -- operator[] as a read
  pub test : Bits → ℕ → Bool
  -- operator[] as a write
  pub write : Bits → ℕ → Bool → Bits
  pub resize : Bits → ℕ → Bits
  -- reset() clears every bit and keeps the size
  pub reset : Bits → Bits
  pub size-write : (b : Bits) (i : ℕ) (v : Bool) → i < size b → size (write b i v) ≡ size b
  pub size-resize : (b : Bits) (n : ℕ) → size (resize b n) ≡ n
  pub size-reset : (b : Bits) → size (reset b) ≡ size b
  pub test-write_self : (b : Bits) (i : ℕ) (v : Bool) → i < size b → test (write b i v) i ≡ v
  pub test-write_ne :
      (b : Bits) (i j : ℕ) (v : Bool)
      → i < size b
      → j < size b
      → i ≢ j
      → test (write b i v) j ≡ test b j
  pub test-resize_old : (b : Bits) (n i : ℕ) → i < size b → i < n → test (resize b n) i ≡ test b i
  pub test-resize_new : (b : Bits) (n i : ℕ) → size b ≤ i → i < n → test (resize b n) i ≡ false
  pub test-reset : (b : Bits) (i : ℕ) → i < size b → test (reset b) i ≡ false

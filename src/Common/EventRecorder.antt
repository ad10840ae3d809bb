-- ===== src/Common/EventRecorder.antt =====
-- EventRecorder of src/common/base/Utilities.h: the set of time frame ids that were handled, as a
-- bit set that starts at the first id recorded.
pub mod Laws
use data_distribution.Prelude.{
  ℕ, ◌+◌, ◌-◌, ◌*◌, ◌/◌, ◌%◌, ◌≡◌, ◌<◌, ◌≤◌, Bool, true, false, not, ◌||◌, ◌^◌, ltb, leb, ◌==◌,
  nat_eq, if◌then◌else◌, u64_mod,
}
use data_distribution.Common.Bitset.{DynamicBitset}

-- std::uint64_t(-1): nothing is recorded yet.
abbrev pub no_event : ℕ
no_event = u64_mod - 1

pub record EventRecorder (Bits : Type 0) : Type 0 where
  pub first_event : ℕ
  pub records : Bits

abbrev pub bool_ne : Bool → Bool → Bool
bool_ne true b = not b
bool_ne false b = b

module _ {Bits : Type 0} ⦃B : DynamicBitset Bits⦄ where
  -- The constructor, over a bit set with no bit.
  unfoldable pub init : Bits → ℕ → EventRecorder Bits
  init nothing n = record { first_event = no_event; records = B.resize nothing n }

  -- The arithmetic of the new size is that of std::uint64_t.
  unfoldable pub manage_size : Bits → ℕ → Bits
  manage_size b idx =
      if leb (B.size b) idx then B.resize b ((idx + 3) % u64_mod * 4 % u64_mod / 3) else b

  -- The body of SetEvent behind the choice of the first event.
  unfoldable pub set_from : EventRecorder Bits → ℕ → Bool → Bool × EventRecorder Bits
  unfolding manage_size
  set_from r evt v =
      if ltb evt r.first_event
      then (false, r)
      else (let bits = manage_size r.records (evt - r.first_event) in
          (
            bool_ne (B.test bits (evt - r.first_event)) v,
            record r { records = B.write bits (evt - r.first_event) v },
          ))

  -- Returns whether the record changed, and the recorder behind the call.
  unfoldable pub set_event : EventRecorder Bits → ℕ → Bool → Bool × EventRecorder Bits
  unfolding set_from
  set_event r evt v =
      set_from (if r.first_event == no_event then record r { first_event = evt } else r) evt v

  unfoldable pub get_event : EventRecorder Bits → ℕ → Bool
  get_event r evt =
      if r.first_event == no_event
      then false
      else if ltb evt r.first_event
      then false
      else if leb (B.size r.records) (evt - r.first_event)
      then false
      else B.test r.records (evt - r.first_event)

  unfoldable pub reset : EventRecorder Bits → EventRecorder Bits
  reset r = record { first_event = no_event; records = B.reset r.records }

  -- No bit is set while no event is recorded.
  abbrev pub IsValid : EventRecorder Bits → Type 0
  IsValid r = r.first_event ≡ no_event → (i : ℕ) → i < B.size r.records → B.test r.records i ≡ false

  -- The first event is kept, so an id below it has no place.
  abbrev pub recordable : EventRecorder Bits → ℕ → Bool
  recordable r evt = r.first_event == no_event || leb r.first_event evt

-- Ids below this bound have a position for which the new size does not wrap.
abbrev pub event_limit : ℕ
event_limit = 2 ^ 61

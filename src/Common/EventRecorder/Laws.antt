-- ===== src/Common/EventRecorder/Laws.antt =====
-- What EventRecorder (src/common/base/Utilities.h) remembers.
use data_distribution.Prelude.{
  ℕ, ◌+◌, ◌-◌, ◌*◌, ◌/◌, ◌%◌, ◌≡◌, ◌<◌, ◌≢◌, ◌&&◌, Bool, false, leb, ◌==◌, nat_eq, if◌then◌else◌,
  u64_mod, arith, refl, Bool-cases, inl, inr, nat_beq_iff,
}
use data_distribution.Common.Bitset.{DynamicBitset}
use data_distribution.Common.EventRecorder.{
  EventRecorder, no_event, init, manage_size, set_from, set_event, get_event, reset, IsValid,
  bool_ne, recordable, event_limit,
}

module _ {Bits : Type 0} ⦃B : DynamicBitset Bits⦄ where
  -- The test of a position, as get_event makes it.
  abbrev read : Bits → ℕ → Bool
  read b i = if leb (B.size b) i then false else B.test b i

  size-manage_size : (b : Bits) (i : ℕ) → i < event_limit → i < B.size (manage_size b i)
  unfolding manage_size
  size-manage_size b i h = ground (arith, B.size-resize b ((i + 3) % u64_mod * 4 % u64_mod / 3))

  read-manage_size : (b : Bits) (i j : ℕ) → i < event_limit → read (manage_size b i) j ≡ read b j
  unfolding manage_size
  read-manage_size b i j h =
      let n = (i + 3) % u64_mod * 4 % u64_mod / 3 in
      ground (arith, B.size-resize b n, B.test-resize_old b n j, B.test-resize_new b n j)

  read-write :
      (b : Bits) (i j : ℕ) (v : Bool)
      → i < B.size b
      → read (B.write b i v) j ≡ (if i == j then v else read b j)
  read-write b i j v h =
      ground (arith, B.size-write b i v, B.test-write_self b i v, B.test-write_ne b i j v)

  set_from-get :
      (r : EventRecorder Bits) (evt j : ℕ) (v : Bool)
      → r.first_event ≢ no_event
      → evt < event_limit
      → get_event (set_from r evt v).1 j
        ≡ (if leb r.first_event evt && (evt == j) then v else get_event r j)
  unfolding get_event set_from
  set_from-get r evt j v n h =
      let i = evt - r.first_event in
      let b = manage_size r.records i in
      ground (
        arith,
        size-manage_size r.records i,
        read-manage_size r.records i (j - r.first_event),
        read-write b i (j - r.first_event) v,
      )

  -- Before the first event nothing is recorded, whatever the position.
  get_fresh :
      (r : EventRecorder Bits) (evt j : ℕ)
      → IsValid r
      → r.first_event ≡ no_event
      → get_event (record r { first_event = evt }) j ≡ false
  unfolding get_event
  get_fresh r evt j ok e = ground (arith, ok e (j - evt))

  pub get_nothing :
      (r : EventRecorder Bits) (j : ℕ) → r.first_event ≡ no_event → get_event r j ≡ false
  unfolding get_event
  get_nothing r j e = ground arith

  -- For every recorder in which no bit is set while nothing is recorded, and every id below 2 ^ 61:
  -- after SetEvent, GetEvent at the same id returns the value written, provided that nothing had been
  -- recorded before or the id is not below the first one recorded; otherwise, and at every other id,
  -- GetEvent answers as before.
  pub get_event-set_event :
      (r : EventRecorder Bits) (evt j : ℕ) (v : Bool)
      → IsValid r
      → evt < event_limit
      → get_event (set_event r evt v).1 j
        ≡ (if recordable r evt && (evt == j) then v else get_event r j)
  unfolding set_event
  get_event-set_event r evt j v ok h = elim (Bool-cases (r.first_event == no_event)) [
    | inl e ↦
        let fresh = record r { first_event = evt } in
        ground (
          arith,
          set_from-get fresh evt j v,
          get_fresh r evt j ok ((nat_beq_iff r.first_event no_event).0 e),
          get_nothing r j,
        )
    | inr e ↦ ground (arith, set_from-get r evt j v)
  ]

  -- For every recorder in which no bit is set while nothing is recorded, and every id below 2 ^ 61:
  -- SetEvent returns true exactly when the id has a place (nothing was recorded before, or the id is
  -- not below the first one recorded) and GetEvent answered something else than the value written.
  pub set_event-changed :
      (r : EventRecorder Bits) (evt : ℕ) (v : Bool)
      → IsValid r
      → evt < event_limit
      → (set_event r evt v).0 ≡ (recordable r evt && bool_ne (get_event r evt) v)
  unfolding set_event set_from get_event
  set_event-changed r evt v ok h =
      let i = evt - r.first_event in
      ground (
        arith,
        size-manage_size r.records i,
        read-manage_size r.records i i,
        size-manage_size r.records (evt - evt),
        read-manage_size r.records (evt - evt) (evt - evt),
        λ (e : r.first_event ≡ no_event). ok e (evt - evt),
      )

  -- For every recorder with a first event, id below it and value: SetEvent returns false and changes
  -- nothing, so GetEvent at the id answers false behind it, also when true was to be recorded.
  pub set_event_below :
      (r : EventRecorder Bits) (evt : ℕ) (v : Bool)
      → r.first_event ≢ no_event
      → evt < r.first_event
      → (set_event r evt v ≡ (false, r)) × (get_event (set_event r evt v).1 evt ≡ false)
  unfolding set_event set_from get_event
  set_event_below r evt v n h = (ground arith, ground arith)

  pub set_event-IsValid :
      (r : EventRecorder Bits) (evt : ℕ) (v : Bool)
      → IsValid r
      → evt < event_limit
      → IsValid (set_event r evt v).1
  unfolding set_event set_from
  set_event-IsValid r evt v ok h e i k = absurd (ground arith)

  pub reset-IsValid : (r : EventRecorder Bits) → IsValid (reset r)
  unfolding reset
  reset-IsValid r e i h = B.test-reset r.records i (ground (arith, B.size-reset r.records))

  pub get_event-reset : (r : EventRecorder Bits) (j : ℕ) → get_event (reset r) j ≡ false
  unfolding reset
  get_event-reset r j = get_nothing _ j refl

  -- The write of SetEvent stays inside the bit set, for every id below 2 ^ 61.
  pub set_event_in_bounds :
      (b : Bits) (first evt : ℕ)
      → evt < event_limit
      → evt - first < B.size (manage_size b (evt - first))
  set_event_in_bounds b first evt h = size-manage_size b (evt - first) (omega arith)

  pub init-IsValid : (nothing : Bits) (n : ℕ) → B.size nothing ≡ 0 → IsValid (init nothing n)
  unfolding init
  init-IsValid nothing n z e i h =
      B.test-resize_new nothing n i (omega arith) (ground (arith, B.size-resize nothing n))

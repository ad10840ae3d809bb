-- ===== src/TfScheduler/StfInfo/Invariant.antt =====
-- What holds of the collected updates (src/TfScheduler/TfSchedulerStfInfo.cxx) between two steps: the
-- asserts of the source on the map and the event records, and the form of the map.
use data_distribution.Prelude.{
  ℕ, suc, ◌<◌, ◌≡◌, ◌≢◌, subst, inl, inr, true, false, List, [], ◌∷◌, some, ◌==◌, nat_eq, ltb, find,
  remove, put, length, All, Ascends, Ascends-mono, remove-Ascends, Bool-cases, arith,
}
use data_distribution.Common.Bitset.{DynamicBitset}
use data_distribution.Common.EventRecorder.{
  EventRecorder, set_event, get_event, event_limit, IsValid as IsRecorder,
}
use data_distribution.Common.EventRecorder.Laws.{get_event-set_event, set_event-IsValid}
use data_distribution.TfScheduler.StfInfo.{
  StfInfo, Scheduler, request_drop_all, hand_over, queue_older,
}

abbrev pub Entry : Type 0
Entry = ℕ × List StfInfo

-- The updates of a time frame that is not complete: at least one, fewer than there are StfSenders, and
-- all of that time frame.
abbrev pub IsCollecting : ℕ → Entry → Type 0
IsCollecting n p = (0 < length p.1) × (length p.1 < n) × All (λ i. i.stf_info.stf_id ≡ p.0) p.1

module _ {Bits : Type 0} ⦃B : DynamicBitset Bits⦄ where
  -- A handled id is not in the map, in every state whose entries satisfy `P`.
  pub record Consistent (P : Entry → Type 0) (s : Scheduler Bits) : Type 0 where
    pub ascends : Ascends 0 s.stf_info_map
    pub entries : All P s.stf_info_map
    pub bounded : All (λ p. p.0 < event_limit) s.stf_info_map
    pub not_dropped : All (λ p. get_event s.dropped_stfs p.0 ≡ false) s.stf_info_map
    pub not_built : All (λ p. get_event s.built_tfs p.0 ≡ false) s.stf_info_map
    pub dropped_recorder : IsRecorder s.dropped_stfs
    pub built_recorder : IsRecorder s.built_tfs

  abbrev pub IsValid : ℕ → Scheduler Bits → Type 0
  IsValid n = Consistent (IsCollecting n)

module _ (P : Entry → Type 0) where
  pub All-remove : (k : ℕ) (m : List Entry) → All P m → All P (remove k m)
  unfolding remove
  All-remove k [] h = tt
  All-remove k (p ∷ m) h = elim (Bool-cases (p.0 == k)) [
    | inl e ↦ rw e (All-remove k m h.1)
    | inr e ↦ rw e (h.0, All-remove k m h.1)
  ]

  pub All-put : (k : ℕ) (v : List StfInfo) (m : List Entry) → P (k, v) → All P m → All P (put k v m)
  unfolding put
  All-put k v [] h a = (h, tt)
  All-put k v (p ∷ m) h a = elim (Bool-cases (ltb k p.0)) [
    | inl e ↦ rw e (h, a)
    | inr e ↦ rw e (elim (Bool-cases (p.0 == k)) [
      | inl f ↦ rw f (h, a.1)
      | inr f ↦ rw f (a.0, All-put k v m h a.1)
    ])
  ]

  pub All-find :
      (k : ℕ) (v : List StfInfo) (m : List Entry) → All P m → find k m ≡ some v → P (k, v)
  unfolding find
  All-find k v [] a e = cc
  All-find k v (p ∷ m) a e = elim (Bool-cases (p.0 == k)) [
    | inl f ↦ subst P (ground (arith, f, e)) a.0
    | inr f ↦ All-find k v m a.1 (ground (arith, f, e))
  ]

abbrev pub Apart : ℕ → List Entry → Type 0
Apart k m = All (λ p. p.0 ≢ k) m

pub remove-Apart : (k : ℕ) (m : List Entry) → Apart k (remove k m)
unfolding remove
remove-Apart k [] = tt
remove-Apart k (p ∷ m) = elim (Bool-cases (p.0 == k)) [
  | inl e ↦ rw e (remove-Apart k m)
  | inr e ↦ rw e ((λ f. ground (arith, e, f)), remove-Apart k m)
]

pub Ascends-Apart : (lo k : ℕ) (m : List Entry) → Ascends lo m → k < lo → Apart k m
Ascends-Apart lo k [] a h = tt
Ascends-Apart lo k (p ∷ m) a h =
    ((λ e. omega (arith, e)), Ascends-Apart (suc p.0) k m a.1 (omega arith))

module _ {Bits : Type 0} ⦃B : DynamicBitset Bits⦄ where
  -- Marking an id leaves the others of the map unmarked.
  set_event-unmarked :
      (r : EventRecorder Bits) (k : ℕ) (m : List Entry)
      → IsRecorder r
      → k < event_limit
      → Apart k m
      → All (λ p. get_event r p.0 ≡ false) m
      → All (λ p. get_event (set_event r k true).1 p.0 ≡ false) m
  set_event-unmarked r k [] ok h a u = tt
  set_event-unmarked r k (p ∷ m) ok h a u = (
    ground (arith, get_event-set_event r k p.0 true ok h, λ (e : p.0 ≡ k). a.0 e),
    set_event-unmarked r k m ok h a.1 u.1,
  )

  module _ {P : Entry → Type 0} where
    pub request_drop_all-Consistent :
        (k : ℕ) {s : Scheduler Bits}
        → k < event_limit
        → Consistent P s
        → Consistent P (request_drop_all k s)
    unfolding request_drop_all
    request_drop_all-Consistent k {s} h v =
        let m = s.stf_info_map in
        record {
          ascends = remove-Ascends 0 k m v.ascends;
          entries = All-remove _ k m v.entries;
          bounded = All-remove _ k m v.bounded;
          not_dropped =
              set_event-unmarked s.dropped_stfs k (remove k m) v.dropped_recorder h
                (remove-Apart k m) (All-remove _ k m v.not_dropped);
          not_built = All-remove _ k m v.not_built;
          dropped_recorder = set_event-IsValid s.dropped_stfs k true v.dropped_recorder h;
          built_recorder = v.built_recorder;
        }

    pub hand_over-Consistent :
        (k : ℕ) (infos : List StfInfo) {s : Scheduler Bits}
        → k < event_limit
        → Apart k s.stf_info_map
        → Consistent P s
        → Consistent P (hand_over k infos s)
    unfolding hand_over
    hand_over-Consistent k infos {s} h apart v = record {
      ascends = v.ascends;
      entries = v.entries;
      bounded = v.bounded;
      not_dropped = v.not_dropped;
      not_built =
          set_event-unmarked s.built_tfs k s.stf_info_map v.built_recorder h apart v.not_built;
      dropped_recorder = v.dropped_recorder;
      built_recorder = set_event-IsValid s.built_tfs k true v.built_recorder h;
    }

    pub tail-Consistent :
        (p : Entry) (m : List Entry) (s : Scheduler Bits)
        → Consistent P (record s { stf_info_map = p ∷ m })
        → Consistent P (record s { stf_info_map = m })
    tail-Consistent p m s v = record {
      ascends = Ascends-mono 0 (suc p.0) m (omega arith) v.ascends.1;
      entries = v.entries.1;
      bounded = v.bounded.1;
      not_dropped = v.not_dropped.1;
      not_built = v.not_built.1;
      dropped_recorder = v.dropped_recorder;
      built_recorder = v.built_recorder;
    }

    hand_over_tail :
        (k : ℕ) (infos : List StfInfo) (m : List Entry) (s : Scheduler Bits)
        → k < event_limit
        → Apart k m
        → Consistent P (record s { stf_info_map = m })
        → Consistent P (record (hand_over k infos s) { stf_info_map = m })
    unfolding hand_over
    hand_over_tail k infos m s h apart v =
        hand_over-Consistent k infos {s = record s { stf_info_map = m }} h apart v

    pub queue_older-Consistent :
        (k : ℕ) (m : List Entry) (s : Scheduler Bits)
        → Consistent P (record s { stf_info_map = m })
        → Consistent P (queue_older k m s)
    unfolding queue_older
    queue_older-Consistent k [] s v = v
    queue_older-Consistent k (p ∷ m) s v = elim (Bool-cases (ltb p.0 k)) [
      | inl e ↦ rw e (
          queue_older-Consistent k m (hand_over p.0 p.1 s) (
            hand_over_tail p.0 p.1 m s v.bounded.0
              (Ascends-Apart (suc p.0) p.0 m v.ascends.1 (omega arith)) (tail-Consistent p m s v)))
      | inr e ↦ rw e v
    ]

    pub remove-Consistent :
        (k : ℕ) {s : Scheduler Bits}
        → Consistent P s
        → Consistent P (record s { stf_info_map = remove k s.stf_info_map })
    remove-Consistent k {s} v =
        let m = s.stf_info_map in
        record {
          ascends = remove-Ascends 0 k m v.ascends;
          entries = All-remove _ k m v.entries;
          bounded = All-remove _ k m v.bounded;
          not_dropped = All-remove _ k m v.not_dropped;
          not_built = All-remove _ k m v.not_built;
          dropped_recorder = v.dropped_recorder;
          built_recorder = v.built_recorder;
        }

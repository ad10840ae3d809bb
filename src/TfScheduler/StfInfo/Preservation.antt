-- ===== src/TfScheduler/StfInfo/Preservation.antt =====
-- addStfInfo (src/TfScheduler/TfSchedulerStfInfo.cxx) and the invariant of the collected updates.
use data_distribution.Prelude.{
  ℕ, ◌/◌, ◌<◌, ◌≡◌, ◌≢◌, refl, inl, inr, true, false, not, ◌&&◌, List, [], ◌∷◌, ◌++◌, ◌==◌, nat_eq,
  ltb, find, remove, put, length, length-append, mul64, All, All-map, All-append, put-Ascends,
  Bool-cases, Option-cases, arith,
}
use data_distribution.Common.Bitset.{DynamicBitset}
use data_distribution.Common.EventRecorder.{get_event, event_limit}
use data_distribution.Common.EventRecorder.Laws.{reset-IsValid}
use data_distribution.TfScheduler.Messages.{StfUpdate, StfSenderState, is_topological}
use data_distribution.TfScheduler.StfInfo.{
  StfInfo, Scheduler, updates_of, reset, queue_older, queue_complete, record_update, judge_update,
  admit_update, check_update, add_default_stf_info, add_topology_stf_info, add_stf_info, has_key,
  min_accept, is_ok,
}
use data_distribution.TfScheduler.StfInfo.Invariant.{
  Entry, IsCollecting, Consistent, IsValid, All-put, All-find, Apart, remove-Apart,
  request_drop_all-Consistent, hand_over-Consistent, queue_older-Consistent, remove-Consistent,
}

All-settle :
    (Q : Entry → Type 0) (k : ℕ) (m : List Entry) → Apart k m → All (λ p. p.0 ≢ k → Q p) m → All Q m
All-settle Q k [] a h = tt
All-settle Q k (p ∷ m) a h = (h.0 a.0, All-settle Q k m a.1 h.1)

pub collected :
    (n k : ℕ) (m : List Entry)
    → 0 < n
    → All (IsCollecting n) m
    → let v = updates_of (find k m) in (length v < n) × All (λ i. i.stf_info.stf_id ≡ k) v
collected n k m pos a = elim (Option-cases (find k m)) [
  | inl e ↦ rw e (pos, tt)
  | inr (v, e) ↦ let c = All-find (IsCollecting n) k v m a e in rw e (c.1, c.2)
]

module _ {Bits : Type 0} ⦃B : DynamicBitset Bits⦄ where
  Consistent-map :
      {P Q : Entry → Type 0} {s : Scheduler Bits}
      → (All P s.stf_info_map → All Q s.stf_info_map)
      → Consistent P s
      → Consistent Q s
  Consistent-map f v = record {
    ascends = v.ascends;
    entries = f v.entries;
    bounded = v.bounded;
    not_dropped = v.not_dropped;
    not_built = v.not_built;
    dropped_recorder = v.dropped_recorder;
    built_recorder = v.built_recorder;
  }

  -- Completing a time frame takes its entry out of the map, so it need not satisfy `Q`.
  pub queue_complete-Consistent :
      (Q : Entry → Type 0) (k : ℕ) {s : Scheduler Bits}
      → k < event_limit
      → Consistent (λ p. p.0 ≢ k → Q p) s
      → Consistent Q (queue_complete k s)
  unfolding queue_complete
  queue_complete-Consistent Q k {s} h v =
      let older = queue_older k s.stf_info_map s in
      let apart = remove-Apart k older.stf_info_map in
      hand_over-Consistent k (updates_of (find k older.stf_info_map))
        {s = record older { stf_info_map = remove k older.stf_info_map }} h apart
        (Consistent-map (All-settle Q k (remove k older.stf_info_map) apart)
          (remove-Consistent k (queue_older-Consistent k s.stf_info_map s v)))

  put-Consistent :
      (P Q : Entry → Type 0) (k last : ℕ) (infos : List StfInfo) (s : Scheduler Bits)
      → k < event_limit
      → get_event s.dropped_stfs k ≡ false
      → get_event s.built_tfs k ≡ false
      → ((p : Entry) → P p → Q p)
      → Q (k, infos)
      → Consistent P s
      → Consistent Q (record s { last_stf_id = last; stf_info_map = put k infos s.stf_info_map })
  put-Consistent P Q k last infos s h d b f q v =
      let m = s.stf_info_map in
      record {
        ascends = put-Ascends 0 k infos m (omega arith) v.ascends;
        entries = All-put Q k infos m q (All-map f m v.entries);
        bounded = All-put _ k infos m h v.bounded;
        not_dropped = All-put _ k infos m d v.not_dropped;
        not_built = All-put _ k infos m b v.not_built;
        dropped_recorder = v.dropped_recorder;
        built_recorder = v.built_recorder;
      }

  pub record_update-IsValid :
      (n now : ℕ) (m : StfUpdate) {s : Scheduler Bits}
      → 0 < n
      → m.stf_id < event_limit
      → get_event s.dropped_stfs m.stf_id ≡ false
      → get_event s.built_tfs m.stf_id ≡ false
      → IsValid n s
      → IsValid n (record_update n now m s)
  unfolding record_update
  record_update-IsValid n now m {s} pos h d b v =
      let old = updates_of (find m.stf_id s.stf_info_map) in
      let i : StfInfo = record { update_local_time = now; stf_info = m } in
      let infos = old ++ i ∷ [] in
      let c = collected n m.stf_id s.stf_info_map pos v.entries in
      let long = length-append old (i ∷ []) in
      elim (Bool-cases (length infos == n)) [
        | inl full ↦ rw full (
            queue_complete-Consistent (IsCollecting n) m.stf_id h (
              put-Consistent (IsCollecting n) (λ p. p.0 ≢ m.stf_id → IsCollecting n p) m.stf_id _
                infos s h d b (λ p q _. q) (λ ne. absurd (ne refl)) v))
        | inr more ↦ rw more (
            put-Consistent (IsCollecting n) (IsCollecting n) m.stf_id _ infos s h d b (λ p q. q)
              (
                omega (arith, long),
                ground (arith, long, more, c.0),
                All-append _ old (i ∷ []) c.1 (refl, tt),
              )
              v)
      ]

  -- What the invariant reads stays.
  pub same_map :
      {P : Entry → Type 0} {s t : Scheduler Bits}
      → Consistent P s
      → t.stf_info_map ≡ s.stf_info_map
      → t.dropped_stfs ≡ s.dropped_stfs
      → t.built_tfs ≡ s.built_tfs
      → Consistent P t
  same_map {P} {s} {t} v m d b = record {
    ascends = rw m v.ascends;
    entries = rw m v.entries;
    bounded = rw m v.bounded;
    not_dropped = rw (m, d) v.not_dropped;
    not_built = rw (m, b) v.not_built;
    dropped_recorder = rw d v.dropped_recorder;
    built_recorder = rw b v.built_recorder;
  }

  judge_update-IsValid :
      (n now : ℕ) (m : StfUpdate) {s : Scheduler Bits}
      → 0 < n
      → m.stf_id < event_limit
      → get_event s.dropped_stfs m.stf_id ≡ false
      → get_event s.built_tfs m.stf_id ≡ false
      → IsValid n s
      → IsValid n (judge_update n now m s).1
  unfolding judge_update
  judge_update-IsValid n now m {s} pos h d b v =
      elim (Bool-cases (ltb (mul64 m.stfs_info.buffer_size 97 / 100) m.stfs_info.buffer_used)) [
        | inl e ↦ rw e (request_drop_all-Consistent m.stf_id h v)
        | inr e ↦
            rw e
              (elim (Bool-cases
                (ltb m.stf_id (min_accept s) && not (has_key m.stf_id s.stf_info_map))) [
                  | inl f ↦ rw f (request_drop_all-Consistent m.stf_id h v)
                  | inr f ↦ rw f (record_update-IsValid n now m pos h d b v)
                ])
      ]

  admit_update-IsValid :
      (n now : ℕ) (m : StfUpdate) {s : Scheduler Bits}
      → 0 < n
      → m.stf_id < event_limit
      → get_event s.dropped_stfs m.stf_id ≡ false
      → get_event s.built_tfs m.stf_id ≡ false
      → IsValid n s
      → IsValid n (admit_update n now m s).1
  unfolding admit_update
  admit_update-IsValid n now m {s} pos h d b v =
      elim (Bool-cases (ltb (mul64 m.stfs_info.buffer_size 95 / 100) m.stfs_info.buffer_used)) [
        | inl e ↦ rw e (
            judge_update-IsValid n now m {s = record s { watermark = true }} pos h d b
              (same_map v refl refl refl))
        | inr e ↦ rw e (judge_update-IsValid n now m pos h d b v)
      ]

  check_update-IsValid :
      (n : ℕ) (state : StfSenderState) (now : ℕ) (m : StfUpdate) {s : Scheduler Bits}
      → 0 < n
      → m.stf_id < event_limit
      → IsValid n s
      → IsValid n (check_update n state now m s).1
  unfolding check_update
  check_update-IsValid n state now m {s} pos h v =
      elim (Bool-cases (get_event s.dropped_stfs m.stf_id)) [
        | inl e ↦ rw e v
        | inr d ↦ rw d (elim (Bool-cases (get_event s.built_tfs m.stf_id)) [
          | inl e ↦ rw e v
          | inr b ↦ rw b (elim (Bool-cases (not s.running)) [
            | inl e ↦ rw e (request_drop_all-Consistent m.stf_id h v)
            | inr r ↦ rw r (elim (Bool-cases (not (is_ok state))) [
              | inl e ↦ rw e (request_drop_all-Consistent m.stf_id h v)
              | inr o ↦ rw o (admit_update-IsValid n now m pos h d b v)
            ])
          ])
        ])
      ]

  pub new_run-IsValid :
      (n run : ℕ) (s : Scheduler Bits) → IsValid n (record (reset s) { run_number = run })
  unfolding reset
  new_run-IsValid n run s = record {
    ascends = tt;
    entries = tt;
    bounded = tt;
    not_dropped = tt;
    not_built = tt;
    dropped_recorder = reset-IsValid s.dropped_stfs;
    built_recorder = reset-IsValid s.built_tfs;
  }

  add_default_stf_info-IsValid :
      (n : ℕ) (state : StfSenderState) (now : ℕ) (m : StfUpdate) {s : Scheduler Bits}
      → 0 < n
      → m.stf_id < event_limit
      → IsValid n s
      → IsValid n (add_default_stf_info n state now m s).1
  unfolding add_default_stf_info
  add_default_stf_info-IsValid n state now m {s} pos h v =
      elim (Bool-cases (ltb s.run_number m.run_number)) [
        | inl e ↦ rw e (check_update-IsValid n state now m pos h (new_run-IsValid n m.run_number s))
        | inr e ↦ rw e (elim (Bool-cases (ltb m.run_number s.run_number)) [
          | inl f ↦ rw f v
          | inr f ↦ rw f (check_update-IsValid n state now m pos h v)
        ])
      ]

  -- For every number of StfSenders above 0, connection state, time, update whose id is below 2 ^ 61
  -- and state: if the map rises by id, holds for each id from one update to one less than there are
  -- StfSenders, all of that id, and holds no id that is recorded as dropped or as built, then so it is
  -- behind addStfInfo, whatever its answer.
  pub add_stf_info-IsValid :
      (n : ℕ) (state : StfSenderState) (now : ℕ) (m : StfUpdate) {s : Scheduler Bits}
      → 0 < n
      → m.stf_id < event_limit
      → IsValid n s
      → IsValid n (add_stf_info n state now m s).1
  unfolding add_stf_info add_topology_stf_info
  add_stf_info-IsValid n state now m {s} pos h v = elim (Bool-cases (is_topological m.stf_source)) [
    | inl e ↦ rw e (elim (Bool-cases (not s.running)) [
      | inl f ↦ rw f v
      | inr f ↦ rw f (same_map v refl refl refl)
    ])
    | inr e ↦ rw e (add_default_stf_info-IsValid n state now m pos h (same_map v refl refl refl))
  ]

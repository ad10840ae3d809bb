-- ===== src/TfScheduler/StfInfo/Queued.antt =====
-- The vectors that TfSchedulerStfInfo (src/TfScheduler/TfSchedulerStfInfo.cxx) puts on the queue of the
-- scheduling thread.
use data_distribution.Prelude.{
  ℕ, ◌/◌, ◌≤◌, ◌<◌, ◌≡◌, refl, sym, subst, ◌∙◌, inl, inr, true, not, ◌&&◌, List, [], ◌∷◌, ◌++◌,
  some, ◌==◌, nat_eq, ltb, find, remove, find-put, mul64, length, length-append, All, All-append,
  Bool-cases, arith,
}
use data_distribution.Common.Bitset.{DynamicBitset}
use data_distribution.Common.EventRecorder.{event_limit, get_event}
use data_distribution.Common.ConcurrentQueue.{push}
use data_distribution.TfScheduler.Messages.{StfUpdate, StfSenderState, is_topological}
use data_distribution.TfScheduler.StfInfo.{
  StfInfo, Scheduler, updates_of, reset, request_drop_all, hand_over, queue_older, queue_complete,
  record_update, judge_update, admit_update, check_update, add_default_stf_info,
  add_topology_stf_info, add_stf_info, has_key, min_accept, is_ok,
}
use data_distribution.TfScheduler.StfInfo.Invariant.{
  Entry, IsCollecting, IsValid, All-find, All-put,
}
use data_distribution.TfScheduler.StfInfo.Preservation.{collected, same_map, new_run-IsValid}

-- A vector of updates that SchedulingThread can handle.
abbrev pub IsQueued : ℕ → List StfInfo → Type 0
IsQueued n v =
    (k : ℕ) × (k < event_limit)
    × (0 < length v)
    × (length v ≤ n)
    × All (λ i. i.stf_info.stf_id ≡ k) v

abbrev pub QueuedEntry : ℕ → Entry → Type 0
QueuedEntry n p = IsQueued n p.1

pub collecting-IsQueued :
    (n : ℕ) (m : List Entry)
    → All (IsCollecting n) m
    → All (λ p. p.0 < event_limit) m
    → All (QueuedEntry n) m
collecting-IsQueued n [] a b = tt
collecting-IsQueued n (p ∷ m) a b =
    ((p.0, b.0, a.0.0, omega (arith, a.0.1), a.0.2), collecting-IsQueued n m a.1 b.1)

module _ {Bits : Type 0} ⦃B : DynamicBitset Bits⦄ where
  abbrev pub AllQueued : ℕ → Scheduler Bits → Type 0
  AllQueued n s = All (IsQueued n) s.complete_stfs_info_queue.container

  pub hand_over-Queued :
      (n k : ℕ) (v : List StfInfo) (s : Scheduler Bits)
      → IsQueued n v
      → AllQueued n s
      → AllQueued n (hand_over k v s)
  unfolding hand_over push
  hand_over-Queued n k v s q a = elim (Bool-cases s.complete_stfs_info_queue.running) [
    | inl e ↦ rw e (All-append (IsQueued n) s.complete_stfs_info_queue.container (v ∷ []) a (q, tt))
    | inr e ↦ rw e a
  ]

  queue_older-Queued :
      (n k : ℕ) (m : List Entry) (s : Scheduler Bits)
      → All (QueuedEntry n) m
      → AllQueued n s
      → AllQueued n (queue_older k m s)
  unfolding queue_older
  queue_older-Queued n k [] s q a = a
  queue_older-Queued n k (p ∷ m) s q a = elim (Bool-cases (ltb p.0 k)) [
    | inl e ↦
        rw e
          (queue_older-Queued n k m (hand_over p.0 p.1 s) q.1 (hand_over-Queued n p.0 p.1 s q.0 a))
    | inr e ↦ rw e a
  ]

  -- The entry of the complete time frame is still there behind the loop.
  pub find-queue_older :
      (k : ℕ) (m : List Entry) (s : Scheduler Bits)
      → find k (queue_older k m s).stf_info_map ≡ find k m
  unfolding find queue_older
  find-queue_older k [] s = refl
  find-queue_older k (p ∷ m) s = ground (arith, find-queue_older k m (hand_over p.0 p.1 s))

  pub queue_complete-Queued :
      (n k : ℕ) (v : List StfInfo) (s : Scheduler Bits)
      → find k s.stf_info_map ≡ some v
      → All (QueuedEntry n) s.stf_info_map
      → AllQueued n s
      → AllQueued n (queue_complete k s)
  unfolding queue_complete
  queue_complete-Queued n k v s e q a =
      let older = queue_older k s.stf_info_map s in
      let there = find-queue_older k s.stf_info_map s ∙ e in
      hand_over-Queued n k (updates_of (find k older.stf_info_map))
        (record older { stf_info_map = remove k older.stf_info_map })
        (subst (λ o. IsQueued n (updates_of o)) (sym there)
          (All-find (QueuedEntry n) k v s.stf_info_map q e))
        (queue_older-Queued n k s.stf_info_map s q a)

  pub record_update-Queued :
      (n now : ℕ) (m : StfUpdate) {s : Scheduler Bits}
      → 0 < n
      → m.stf_id < event_limit
      → IsValid n s
      → AllQueued n s
      → AllQueued n (record_update n now m s)
  unfolding record_update
  record_update-Queued n now m {s} pos h v a =
      let old = updates_of (find m.stf_id s.stf_info_map) in
      let i : StfInfo = record { update_local_time = now; stf_info = m } in
      let infos = old ++ i ∷ [] in
      let c = collected n m.stf_id s.stf_info_map pos v.entries in
      let long = length-append old (i ∷ []) in
      let new : IsQueued n infos = (
        m.stf_id,
        h,
        omega (arith, long),
        omega (arith, long, c.0),
        All-append _ old (i ∷ []) c.1 (refl, tt),
      ) in
      elim (Bool-cases (length infos == n)) [
        | inl full ↦ rw full (
            queue_complete-Queued n m.stf_id infos _
              (ground (arith, find-put 0 m.stf_id m.stf_id infos s.stf_info_map v.ascends))
              (All-put (QueuedEntry n) m.stf_id infos s.stf_info_map new
                (collecting-IsQueued n s.stf_info_map v.entries v.bounded))
              a)
        | inr more ↦ rw more a
      ]

  judge_update-Queued :
      (n now : ℕ) (m : StfUpdate) {s : Scheduler Bits}
      → 0 < n
      → m.stf_id < event_limit
      → IsValid n s
      → AllQueued n s
      → AllQueued n (judge_update n now m s).1
  unfolding judge_update request_drop_all
  judge_update-Queued n now m {s} pos h v a =
      elim (Bool-cases (ltb (mul64 m.stfs_info.buffer_size 97 / 100) m.stfs_info.buffer_used)) [
        | inl e ↦ rw e a
        | inr e ↦
            rw e
              (elim (Bool-cases
                (ltb m.stf_id (min_accept s) && not (has_key m.stf_id s.stf_info_map))) [
                  | inl f ↦ rw f a
                  | inr f ↦ rw f (record_update-Queued n now m pos h v a)
                ])
      ]

  check_update-Queued :
      (n : ℕ) (state : StfSenderState) (now : ℕ) (m : StfUpdate) (s : Scheduler Bits)
      → 0 < n
      → m.stf_id < event_limit
      → IsValid n s
      → AllQueued n s
      → AllQueued n (check_update n state now m s).1
  unfolding check_update admit_update request_drop_all
  check_update-Queued n state now m s pos h v a =
      elim (Bool-cases (get_event s.dropped_stfs m.stf_id)) [
        | inl e ↦ rw e a
        | inr d ↦ rw d (elim (Bool-cases (get_event s.built_tfs m.stf_id)) [
          | inl e ↦ rw e a
          | inr b ↦ rw b (elim (Bool-cases (not s.running)) [
            | inl e ↦ rw e a
            | inr r ↦ rw r (elim (Bool-cases (not (is_ok state))) [
              | inl e ↦ rw e a
              | inr o ↦
                  rw o
                    (elim (Bool-cases
                      (ltb (mul64 m.stfs_info.buffer_size 95 / 100) m.stfs_info.buffer_used)) [
                        | inl e ↦ rw e (
                            judge_update-Queued n now m {s = record s { watermark = true }} pos h
                              (same_map v refl refl refl) a)
                        | inr e ↦ rw e (judge_update-Queued n now m pos h v a)
                      ])
            ])
          ])
        ])
      ]

  add_default_stf_info-Queued :
      (n : ℕ) (state : StfSenderState) (now : ℕ) (m : StfUpdate) (s : Scheduler Bits)
      → 0 < n
      → m.stf_id < event_limit
      → IsValid n s
      → AllQueued n s
      → AllQueued n (add_default_stf_info n state now m s).1
  unfolding add_default_stf_info
  add_default_stf_info-Queued n state now m s pos h v a =
      elim (Bool-cases (ltb s.run_number m.run_number)) [
        | inl e ↦ rw e (
            check_update-Queued n state now m _ pos h (new_run-IsValid n m.run_number s)
              (unfold reset in a))
        | inr e ↦ rw e (elim (Bool-cases (ltb m.run_number s.run_number)) [
          | inl f ↦ rw f a
          | inr f ↦ rw f (check_update-Queued n state now m s pos h v a)
        ])
      ]

  -- Under the invariant of the map, and for at least one StfSender: addStfInfo queues for scheduling
  -- only vectors of one to as many updates as there are StfSenders, all of one time frame.
  pub add_stf_info-Queued :
      (n : ℕ) (state : StfSenderState) (now : ℕ) (m : StfUpdate) (s : Scheduler Bits)
      → 0 < n
      → m.stf_id < event_limit
      → IsValid n s
      → AllQueued n s
      → AllQueued n (add_stf_info n state now m s).1
  unfolding add_stf_info add_topology_stf_info
  add_stf_info-Queued n state now m s pos h v a = elim (Bool-cases (is_topological m.stf_source)) [
    | inl e ↦ rw e (elim (Bool-cases (not s.running)) [ inl f ↦ rw f a | inr f ↦ rw f a ])
    | inr e ↦ rw e (add_default_stf_info-Queued n state now m _ pos h (same_map v refl refl refl) a)
  ]

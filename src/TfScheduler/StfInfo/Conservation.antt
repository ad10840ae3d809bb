-- ===== src/TfScheduler/StfInfo/Conservation.antt =====
-- The updates in the map and on the queue of the scheduling thread, across addStfInfo
-- (src/TfScheduler/TfSchedulerStfInfo.cxx).
use mathlib.Core.List.Perm
use mathlib.Core.List.{append_assoc, append-nil, perm_append_comm, perm_middle}
use data_distribution.Prelude.{
  ℕ, suc, ◌/◌, ◌<◌, ◌≡◌, ◌≢◌, refl, sym, subst, ap, ◌∙◌, inl, inr, true, false, not, ◌&&◌, List, [],
  ◌∷◌, ◌++◌, none, some, ◌==◌, nat_eq, ltb, find, remove, find_below, mul64, put, insert, string_eq,
  put-Ascends, Ascends-mono, length, Ascends, Bool-cases, arith, Perm,
}
use data_distribution.Common.Bitset.{DynamicBitset}
use data_distribution.Common.EventRecorder.{get_event}
use data_distribution.Common.ConcurrentQueue.{push}
use data_distribution.TfScheduler.Messages.{
  StfUpdate, StfSenderState, StfInfoStatus, is_topological,
}
use data_distribution.TfScheduler.StfInfo.{
  StfInfo, Scheduler, updates_of, hand_over, queue_older, queue_complete, record_update,
  judge_update, admit_update, check_update, add_default_stf_info, add_stf_info, has_key, min_accept,
  is_ok, discarded,
}
use data_distribution.TfScheduler.StfInfo.Invariant.{Entry}

-- All updates of a map, and of a queue.
abbrev pub in_map : List Entry → List StfInfo
in_map [] = []
in_map (p ∷ m) = p.1 ++ in_map m

abbrev pub in_queue : List (List StfInfo) → List StfInfo
in_queue [] = []
in_queue (v ∷ vs) = v ++ in_queue vs

in_queue-append :
    (xs : List (List StfInfo)) (v : List StfInfo) → in_queue (xs ++ v ∷ []) ≡ in_queue xs ++ v
in_queue-append [] v = append-nil v
in_queue-append (x ∷ xs) v =
    ap (◌++◌ x) (in_queue-append xs v) ∙ sym (append_assoc x (in_queue xs) v)

module _ (k : ℕ) (p : Entry) (m : List Entry) where
  find_head : (p.0 == k) ≡ true → find k (p ∷ m) ≡ some p.1
  unfolding find
  find_head e = rw e

  find_tail : (p.0 == k) ≡ false → find k (p ∷ m) ≡ find k m
  unfolding find
  find_tail e = rw e

find_nothing : (k : ℕ) → updates_of (find k []) ≡ []
unfolding find
find_nothing k = refl

-- The new update joins those of its time frame.
put-perm :
    (lo k : ℕ) (i : StfInfo) (old : List StfInfo) (m : List Entry)
    → Ascends lo m
    → old ≡ updates_of (find k m)
    → Perm (in_map (put k (old ++ i ∷ []) m)) (i ∷ in_map m)
unfolding put
put-perm lo k i old [] a h = rw (h ∙ find_nothing k) Perm.rfl
put-perm lo k i old (p ∷ m) a h = elim (Bool-cases (p.0 == k)) [
  | inl e ↦
      let not_below : ltb k p.0 ≡ false = ground (arith, e) in
      let same : old ≡ p.1 = h ∙ ap updates_of (find_head k p m e) in
      rw (e, not_below, same)
        (subst (λ l. Perm l (i ∷ p.1 ++ in_map m)) (sym (append_assoc p.1 (i ∷ []) (in_map m)))
          (perm_middle p.1 (in_map m)))
  | inr e ↦ elim (Bool-cases (ltb k p.0)) [
    | inl f ↦
        let absent : find k m ≡ none = find_below (suc p.0) k m a.1 (ground (arith, f)) in
        let new : old ≡ [] = h ∙ ap updates_of (find_tail k p m e ∙ absent) in rw (f, new) Perm.rfl
    | inr f ↦
        rw (e, f)
          (Perm.trans
            (Perm.append_left p.1
              (put-perm (suc p.0) k i old m a.1 (h ∙ ap updates_of (find_tail k p m e))))
            (perm_middle p.1 (in_map m)))
  ]
]

remove_absent : (lo k : ℕ) (m : List Entry) → Ascends lo m → k < lo → remove k m ≡ m
unfolding remove
remove_absent lo k [] a h = refl
remove_absent lo k (p ∷ m) a h = ground (arith, remove_absent (suc p.0) k m a.1)

remove-perm :
    (lo k : ℕ) (m : List Entry)
    → Ascends lo m
    → Perm (in_map m) (updates_of (find k m) ++ in_map (remove k m))
unfolding find remove
remove-perm lo k [] a = Perm.rfl
remove-perm lo k (p ∷ m) a = elim (Bool-cases (p.0 == k)) [
  | inl e ↦ let rest = remove_absent (suc p.0) k m a.1 (ground (arith, e)) in rw (e, rest) Perm.rfl
  | inr e ↦
      let old = updates_of (find k m) in
      let shift : Perm (p.1 ++ (old ++ in_map (remove k m))) (old ++ (p.1 ++ in_map (remove k m))) =
        subst (λ l. Perm l (old ++ (p.1 ++ in_map (remove k m))))
          (append_assoc p.1 old (in_map (remove k m)))
          (subst (Perm ((p.1 ++ old) ++ in_map (remove k m)))
            (append_assoc old p.1 (in_map (remove k m)))
            (Perm.append_right (in_map (remove k m)) (perm_append_comm p.1 old))) in
      rw e (Perm.trans (Perm.append_left p.1 (remove-perm (suc p.0) k m a.1)) shift)
]

abbrev pub update_at : ℕ → StfUpdate → StfInfo
update_at now m = record { update_local_time = now; stf_info = m }

-- From the front of the map to the back of the queue.
moved :
    (v rest queued after : List StfInfo)
    → after ≡ queued ++ v
    → Perm (rest ++ after) ((v ++ rest) ++ queued)
moved v rest queued after e =
    subst (λ l. Perm (rest ++ l) ((v ++ rest) ++ queued)) (sym e)
      (subst (λ l. Perm l ((v ++ rest) ++ queued)) (append_assoc rest queued v)
        (Perm.trans (perm_append_comm (rest ++ queued) v)
          (subst (Perm (v ++ (rest ++ queued))) (sym (append_assoc v rest queued)) Perm.rfl)))

module _ {Bits : Type 0} ⦃B : DynamicBitset Bits⦄ where
  -- The updates that addStfInfo accepted and that no thread has taken yet.
  abbrev pub pending : Scheduler Bits → List StfInfo
  pending s = in_map s.stf_info_map ++ in_queue s.complete_stfs_info_queue.container

  hand_over-queue :
      (k : ℕ) (v : List StfInfo) (s : Scheduler Bits)
      → s.complete_stfs_info_queue.running ≡ true
      → in_queue (hand_over k v s).complete_stfs_info_queue.container
        ≡ in_queue s.complete_stfs_info_queue.container ++ v
  unfolding hand_over push
  hand_over-queue k v s e = rw e (in_queue-append s.complete_stfs_info_queue.container v)

  hand_over-running :
      (k : ℕ) (v : List StfInfo) (s : Scheduler Bits)
      → s.complete_stfs_info_queue.running ≡ true
      → (hand_over k v s).complete_stfs_info_queue.running ≡ true
  unfolding hand_over push
  hand_over-running k v s e = ground (arith, e)

  queue_older-running :
      (k : ℕ) (m : List Entry) (s : Scheduler Bits)
      → s.complete_stfs_info_queue.running ≡ true
      → (queue_older k m s).complete_stfs_info_queue.running ≡ true
  unfolding queue_older
  queue_older-running k [] s e = e
  queue_older-running k (p ∷ m) s e = elim (Bool-cases (ltb p.0 k)) [
    | inl f ↦ rw f (queue_older-running k m (hand_over p.0 p.1 s) (hand_over-running p.0 p.1 s e))
    | inr f ↦ rw f e
  ]

  queue_older-Ascends :
      (k : ℕ) (m : List Entry) (s : Scheduler Bits)
      → Ascends 0 m
      → Ascends 0 (queue_older k m s).stf_info_map
  unfolding queue_older
  queue_older-Ascends k [] s a = tt
  queue_older-Ascends k (p ∷ m) s a = elim (Bool-cases (ltb p.0 k)) [
    | inl f ↦ rw f (
        queue_older-Ascends k m (hand_over p.0 p.1 s)
          (Ascends-mono 0 (suc p.0) m (omega arith) a.1))
    | inr f ↦ rw f a
  ]

  queue_older-pending :
      (k : ℕ) (m : List Entry) (s : Scheduler Bits)
      → s.complete_stfs_info_queue.running ≡ true
      → Perm
          (pending (queue_older k m s))
          (in_map m ++ in_queue s.complete_stfs_info_queue.container)
  unfolding queue_older
  queue_older-pending k [] s e = Perm.rfl
  queue_older-pending k (p ∷ m) s e = elim (Bool-cases (ltb p.0 k)) [
    | inl f ↦ rw f (
        Perm.trans (queue_older-pending k m (hand_over p.0 p.1 s) (hand_over-running p.0 p.1 s e)) (
          moved p.1 (in_map m) (in_queue s.complete_stfs_info_queue.container) _
            (hand_over-queue p.0 p.1 s e)))
    | inr f ↦ rw f Perm.rfl
  ]

  -- Completing a time frame moves updates to the queue, and loses none.
  queue_complete-pending :
      (k : ℕ) (s : Scheduler Bits)
      → Ascends 0 s.stf_info_map
      → s.complete_stfs_info_queue.running ≡ true
      → Perm (pending (queue_complete k s)) (pending s)
  unfolding queue_complete hand_over remove
  queue_complete-pending k s a e =
      let older = queue_older k s.stf_info_map s in
      let taken = updates_of (find k older.stf_info_map) in
      let rest = remove k older.stf_info_map in
      let queued = in_queue older.complete_stfs_info_queue.container in
      Perm.trans
        (Perm.trans
          (moved taken (in_map rest) queued _ (
            hand_over-queue k taken (record older { stf_info_map = rest })
              (queue_older-running k s.stf_info_map s e)))
          (Perm.append_right queued (
            Perm.symm
              (remove-perm 0 k older.stf_info_map (queue_older-Ascends k s.stf_info_map s a)))))
        (queue_older-pending k s.stf_info_map s e)

  record_update-pending :
      (n now : ℕ) (m : StfUpdate) (s : Scheduler Bits)
      → Ascends 0 s.stf_info_map
      → s.complete_stfs_info_queue.running ≡ true
      → Perm (pending (record_update n now m s)) (update_at now m ∷ pending s)
  unfolding record_update
  record_update-pending n now m s a e =
      let old = updates_of (find m.stf_id s.stf_info_map) in
      let infos = old ++ update_at now m ∷ [] in
      let joined =
        Perm.append_right (in_queue s.complete_stfs_info_queue.container)
          (put-perm 0 m.stf_id (update_at now m) old s.stf_info_map a refl) in
      elim (Bool-cases (length infos == n)) [
        | inl full ↦ rw full (
            Perm.trans
              (queue_complete-pending m.stf_id _
                (put-Ascends 0 m.stf_id infos s.stf_info_map (omega arith) a) e)
              joined)
        | inr more ↦ rw more joined
      ]

  judge_update-pending :
      (n now : ℕ) (m : StfUpdate) (s : Scheduler Bits)
      → Ascends 0 s.stf_info_map
      → s.complete_stfs_info_queue.running ≡ true
      → (judge_update n now m s).0 ≡ StfInfoStatus.ok
      → Perm (pending (judge_update n now m s).1) (update_at now m ∷ pending s)
  unfolding judge_update
  judge_update-pending n now m s a e =
      elim (Bool-cases (ltb (mul64 m.stfs_info.buffer_size 97 / 100) m.stfs_info.buffer_used)) [
        | inl f ↦ rw f (λ o. cc)
        | inr f ↦
            rw f
              (elim (Bool-cases
                (ltb m.stf_id (min_accept s) && not (has_key m.stf_id s.stf_info_map))) [
                  | inl g ↦ rw g (λ o. cc)
                  | inr g ↦ rw g (λ o. record_update-pending n now m s a e)
                ])
      ]

  discarded-not_ok : (s : Scheduler Bits) → discarded s ≢ StfInfoStatus.ok
  discarded-not_ok s = elim (Bool-cases (not s.running)) [
    | inl e ↦ rw e (λ p. cc)
    | inr e ↦ rw e (λ p. cc)
  ]

  admit_update-pending :
      (n now : ℕ) (m : StfUpdate) (s : Scheduler Bits)
      → Ascends 0 s.stf_info_map
      → s.complete_stfs_info_queue.running ≡ true
      → (admit_update n now m s).0 ≡ StfInfoStatus.ok
      → Perm (pending (admit_update n now m s).1) (update_at now m ∷ pending s)
  unfolding admit_update
  admit_update-pending n now m s a e =
      elim (Bool-cases (ltb (mul64 m.stfs_info.buffer_size 95 / 100) m.stfs_info.buffer_used)) [
        | inl f ↦ rw f (judge_update-pending n now m (record s { watermark = true }) a e)
        | inr f ↦ rw f (judge_update-pending n now m s a e)
      ]

  check_update-pending :
      (n : ℕ) (state : StfSenderState) (now : ℕ) (m : StfUpdate) (s : Scheduler Bits)
      → Ascends 0 s.stf_info_map
      → s.complete_stfs_info_queue.running ≡ true
      → (check_update n state now m s).0 ≡ StfInfoStatus.ok
      → Perm (pending (check_update n state now m s).1) (update_at now m ∷ pending s)
  unfolding check_update
  check_update-pending n state now m s a e = elim (Bool-cases (get_event s.dropped_stfs m.stf_id)) [
    | inl f ↦ rw f (λ o. absurd (discarded-not_ok s o))
    | inr d ↦ rw d (elim (Bool-cases (get_event s.built_tfs m.stf_id)) [
      | inl f ↦ rw f (λ o. absurd (discarded-not_ok s o))
      | inr b ↦ rw b (elim (Bool-cases (not s.running)) [
        | inl f ↦ rw f (λ o. cc)
        | inr r ↦ rw r (elim (Bool-cases (not (is_ok state))) [
          | inl f ↦ rw f (λ o. cc)
          | inr o ↦ rw o (admit_update-pending n now m s a e)
        ])
      ])
    ])
  ]

  -- For an update of the current run that is not topological, a map that rises by id and a queue that
  -- runs: if addStfInfo answers ok, then the updates that are in the map or on the queue behind it are
  -- those before it and this one, with the time of its arrival, up to their order: none is lost,
  -- copied or made up, whether its time frame is completed or not.
  pub add_stf_info_conserves :
      (n : ℕ) (state : StfSenderState) (now : ℕ) (m : StfUpdate) (s : Scheduler Bits)
      → is_topological m.stf_source ≡ false
      → m.run_number ≡ s.run_number
      → Ascends 0 s.stf_info_map
      → s.complete_stfs_info_queue.running ≡ true
      → (add_stf_info n state now m s).0 ≡ StfInfoStatus.ok
      → Perm (pending (add_stf_info n state now m s).1) (update_at now m ∷ pending s)
  unfolding add_stf_info add_default_stf_info
  add_stf_info_conserves n state now m s t r a e =
      let newer : ltb s.run_number m.run_number ≡ false = ground (arith, r) in
      let older : ltb m.run_number s.run_number ≡ false = ground (arith, r) in
      rw (t, newer, older)
        (check_update-pending n state now m
          (record s { stf_sender_info_map = insert m.process_id m.stfs_info s.stf_sender_info_map })
          a e)

-- ===== src/TfScheduler/Threads/Invariant.antt =====
-- The cleanup and drop threads of the scheduler (src/TfScheduler/TfSchedulerStfInfo.cxx) and the
-- invariants of the collected updates.
use data_distribution.Prelude.{
  ℕ, suc, ◌≤◌, ◌<◌, ◌≡◌, refl, inl, inr, List, [], ◌∷◌, some, nat_eq, ltb, find, remove,
  find-remove, All, Ascends, Bool-cases, arith,
}
use data_distribution.Common.Bitset.{DynamicBitset}
use data_distribution.Common.EventRecorder.{event_limit}
use data_distribution.TfScheduler.StfInfo.{
  StfInfo, Scheduler, updates_of, request_drop_all, hand_over,
}
use data_distribution.TfScheduler.StfInfo.Invariant.{
  Entry, IsValid, All-find, request_drop_all-Consistent, hand_over-Consistent, remove-Consistent,
  remove-Apart,
}
use data_distribution.TfScheduler.StfInfo.Preservation.{same_map}
use data_distribution.TfScheduler.StfInfo.Queued.{
  IsQueued, AllQueued, collecting-IsQueued, hand_over-Queued,
}
use data_distribution.TfScheduler.Threads.{
  take_out, take_all_out, stale_ids, stale_cleanup, clamp_timeout, drop_each, distance, last_time,
}

-- Ids that rise strictly, from `lo` on, and are keys of the map.
abbrev Rises : ℕ → List ℕ → Type 0
Rises lo [] = Unit {0}
Rises lo (k ∷ ks) = (lo ≤ k) × Rises (suc k) ks

abbrev IsKey : List Entry → ℕ → Type 0
IsKey m k = (v : List StfInfo) × (find k m ≡ some v)

Rises-mono : (lo hi : ℕ) (ks : List ℕ) → lo ≤ hi → Rises hi ks → Rises lo ks
Rises-mono lo hi [] h r = tt
Rises-mono lo hi (k ∷ ks) h r = (omega arith, r.1)

stale_ids-Rises :
    (now timeout lo : ℕ) (m : List Entry) → Ascends lo m → Rises lo (stale_ids now timeout m)
unfolding stale_ids
stale_ids-Rises now timeout lo [] a = tt
stale_ids-Rises now timeout lo ((k, []) ∷ m) a = (a.0, stale_ids-Rises now timeout (suc k) m a.1)
stale_ids-Rises now timeout lo ((k, i ∷ is) ∷ m) a =
    elim (Bool-cases (ltb timeout (distance (last_time i.update_local_time is) now))) [
      | inl e ↦ rw e (a.0, stale_ids-Rises now timeout (suc k) m a.1)
      | inr e ↦ rw e tt
    ]

-- A key of the rest is a key of the whole.
IsKey-cons :
    (p : Entry) (m : List Entry) (ks : List ℕ)
    → Rises (suc p.0) ks
    → All (IsKey m) ks
    → All (IsKey (p ∷ m)) ks
unfolding find
IsKey-cons p m [] r a = tt
IsKey-cons p m (k ∷ ks) r a = (
  (a.0.0, ground (arith, a.0.1)),
  IsKey-cons p m ks (Rises-mono (suc p.0) (suc k) ks (omega arith) r.1) a.1,
)

IsKey-head : (p : Entry) (m : List Entry) → IsKey (p ∷ m) p.0
unfolding find
IsKey-head p m = (p.1, ground arith)

stale_ids-IsKey :
    (now timeout lo : ℕ) (m : List Entry) → Ascends lo m → All (IsKey m) (stale_ids now timeout m)
unfolding stale_ids
stale_ids-IsKey now timeout lo [] a = tt
stale_ids-IsKey now timeout lo ((k, []) ∷ m) a = (
  IsKey-head (k, []) m,
  IsKey-cons (k, []) m (stale_ids now timeout m) (stale_ids-Rises now timeout (suc k) m a.1)
      (stale_ids-IsKey now timeout (suc k) m a.1),
)
stale_ids-IsKey now timeout lo ((k, i ∷ is) ∷ m) a =
    elim (Bool-cases (ltb timeout (distance (last_time i.update_local_time is) now))) [
      | inl e ↦ rw e (
        IsKey-head (k, i ∷ is) m,
        IsKey-cons (k, i ∷ is) m (stale_ids now timeout m)
            (stale_ids-Rises now timeout (suc k) m a.1) (stale_ids-IsKey now timeout (suc k) m a.1),
      )
      | inr e ↦ rw e tt
    ]

IsKey-remove :
    (k : ℕ) (m : List Entry) (ks : List ℕ)
    → Rises (suc k) ks
    → All (IsKey m) ks
    → All (IsKey (remove k m)) ks
IsKey-remove k m [] r a = tt
IsKey-remove k m (j ∷ js) r a = (
  (a.0.0, ground (arith, find-remove k j m, a.0.1)),
  IsKey-remove k m js (Rises-mono (suc k) (suc j) js (omega arith) r.1) a.1,
)

module _ {Bits : Type 0} ⦃B : DynamicBitset Bits⦄ where
  -- The invariant of the map, and of the queue behind it.
  abbrev pub IsReady : ℕ → Scheduler Bits → Type 0
  IsReady n s = IsValid n s × AllQueued n s

  take_out-IsReady :
      (n k : ℕ) (s : Scheduler Bits)
      → IsKey s.stf_info_map k
      → IsReady n s
      → IsReady n (take_out k s)
  unfolding take_out
  take_out-IsReady n k s (v, e) (valid, queued) =
      let m = s.stf_info_map in
      let rest = record s { stf_info_map = remove k m } in
      (
        hand_over-Consistent k (updates_of (find k m)) {s = rest}
            (All-find (λ p. p.0 < event_limit) k v m valid.bounded e) (remove-Apart k m)
            (remove-Consistent k valid),
        hand_over-Queued n k (updates_of (find k m)) rest
            (rw e (
              All-find (λ p. IsQueued n p.1) k v m
                (collecting-IsQueued n m valid.entries valid.bounded) e))
            queued,
      )

  take_all_out-IsReady :
      (n lo : ℕ) (ks : List ℕ) (s : Scheduler Bits)
      → Rises lo ks
      → All (IsKey s.stf_info_map) ks
      → IsReady n s
      → IsReady n (take_all_out ks s)
  unfolding take_all_out
  take_all_out-IsReady n lo [] s r a v = v
  take_all_out-IsReady n lo (k ∷ ks) s r a v =
      take_all_out-IsReady n (suc k) ks (take_out k s) r.1
        (unfold take_out hand_over in IsKey-remove k s.stf_info_map ks r.1 a.1)
        (take_out-IsReady n k s a.0 v)

  pub stale_cleanup-IsReady :
      (n now timeout : ℕ) (s : Scheduler Bits)
      → IsReady n s
      → IsReady n (stale_cleanup now timeout s)
  unfolding stale_cleanup
  stale_cleanup-IsReady n now timeout s v =
      let m = s.stf_info_map in
      let ks = stale_ids now (clamp_timeout timeout) m in
      let r =
        take_all_out-IsReady n 0 ks s (stale_ids-Rises now (clamp_timeout timeout) 0 m v.0.ascends)
          (stale_ids-IsKey now (clamp_timeout timeout) 0 m v.0.ascends) v in
      (same_map r.0 refl refl refl, r.1)

  pub request_drop_all-IsReady :
      (n k : ℕ) (s : Scheduler Bits)
      → k < event_limit
      → IsReady n s
      → IsReady n (request_drop_all k s)
  request_drop_all-IsReady n k s h v =
      (request_drop_all-Consistent k h v.0, unfold request_drop_all in v.1)

  pub drop_each-IsReady :
      (n : ℕ) (ks : List ℕ) (s : Scheduler Bits)
      → All (λ k. k < event_limit) ks
      → IsReady n s
      → IsReady n (drop_each ks s)
  unfolding drop_each
  drop_each-IsReady n [] s h v = v
  drop_each-IsReady n (k ∷ ks) s h v =
      drop_each-IsReady n ks (request_drop_all k s) h.1 (request_drop_all-IsReady n k s h.0 v)

-- ===== src/TfScheduler/Threads/Rounds.antt =====
-- Each round of the scheduler's threads (src/TfScheduler/TfSchedulerStfInfo.cxx), and the invariants of
-- its state.
use data_distribution.Prelude.{
  ℕ, ◌<◌, ◌≡◌, refl, sym, subst, ◌⊎◌, inl, inr, Bool, true, false, not, ◌&&◌, ◌||◌, List, [], ◌∷◌,
  Option, none, some, String, ◌==◌, nat_eq, ltb, length, All, Bool-cases, Option-cases, add64,
}
use data_distribution.Common.Bitset.{DynamicBitset}
use data_distribution.Common.EventRecorder.{event_limit}
use data_distribution.Common.ConcurrentQueue.{Queue, waits, closed, got, pop}
use data_distribution.TfScheduler.Messages.{
  TfBuildingInformation, BuildTfStatus, error_nomem, error_not_running, other,
}
use data_distribution.TfScheduler.TfBuilders.{
  selected, rejected, find_tf_builder_for_tf, find_tf_builder_for_topo_stf, TopoKey,
}
use data_distribution.TfScheduler.TfBuilders.Invariant.{IsValid as IsBuilders}
use data_distribution.TfScheduler.TfBuilders.Preservation.{
  Call, selects, assigns, marks, removes, step as builders_step,
  step-IsValid as builders_step-IsValid,
}
use data_distribution.TfScheduler.StfInfo.{
  StfInfo, TopoStfInfo, Scheduler, request_drop_all, request_drop_topo_stf,
}
use data_distribution.TfScheduler.StfInfo.Invariant.{Entry}
use data_distribution.TfScheduler.StfInfo.Preservation.{same_map}
use data_distribution.TfScheduler.StfInfo.Queued.{IsQueued}
use data_distribution.TfScheduler.Threads.{
  World, Rpc, no_client, grpc_error, answered, watermark_ids, high_watermark, gib, update_of,
  is_recent, conclude, schedule_tf, schedule_infos, scheduling_round, conclude_topo, schedule_topo,
  topo_scheduling_round, drop_round, build_request, topo_request,
}
use data_distribution.TfScheduler.Threads.Invariant.{
  IsReady, request_drop_all-IsReady, drop_each-IsReady,
}

watermark_ids-bounded :
    (victim : String) (now newest size : ℕ) (m : List Entry)
    → All (λ p. p.0 < event_limit) m
    → All (λ k. k < event_limit) (watermark_ids victim now newest size m)
unfolding watermark_ids
watermark_ids-bounded victim now newest size [] b = tt
watermark_ids-bounded victim now newest size (p ∷ m) b =
    elim (Bool-cases (ltb gib size || ltb newest p.0 || is_recent now p.1)) [
      | inl e ↦ rw e tt
      | inr e ↦ rw e (elim (Option-cases (update_of victim p.1)) [
        | inl f ↦ rw (f, watermark_ids) (watermark_ids-bounded victim now newest size m b.1)
        | inr (i, f) ↦
            rw (f, watermark_ids)
              (b.0, watermark_ids-bounded victim now newest (add64 size i.stf_info.stf_size) m b.1)
      ])
    ]

pub anything : {A : Type 0} (xs : List A) → All (λ x. Unit {0}) xs
anything [] = tt
anything (x ∷ xs) = (tt, anything xs)

-- What a pop delivers satisfies what the elements of the queue do, and so do the others.
abbrev pub Delivers : {A : Type 0} → (A → Type 0) → Queue A → Type 0
Delivers {A} P q =
    ((a : A) × ((pop q).0 ≡ got a) × P a × All P (pop q).1.container)
    ⊎ ((pop q).0 ≡ waits)
    ⊎ ((pop q).0 ≡ closed)

pub pop_from :
    {A : Type 0} (P : A → Type 0) (xs : List A) (r : Bool)
    → All P xs
    → Delivers P (record { container = xs; running = r })
unfolding pop
pop_from P [] true h = inr (inl refl)
pop_from P [] false h = inr (inr refl)
pop_from P (x ∷ xs) r h = inl (x, refl, h.0, h.1)

module _ {Bits : Type 0} ⦃B : DynamicBitset Bits⦄ where
  pub high_watermark-IsReady :
      (n : ℕ) (victim : Option String) (now : ℕ) (s : Scheduler Bits)
      → IsReady n s
      → IsReady n (high_watermark victim now s)
  unfolding high_watermark
  high_watermark-IsReady n none now s v = (same_map v.0 refl refl refl, v.1)
  high_watermark-IsReady n (some name) now s v =
      drop_each-IsReady n _ _
        (watermark_ids-bounded name now s.max_completed_tf_id 0 s.stf_info_map v.0.bounded)
        (same_map v.0 refl refl refl, v.1)

  -- What holds of the scheduler between two rounds of its threads, for `n` StfSenders.
  pub record IsSound (n : ℕ) (w : World Bits) : Type 0 where
    pub ready : IsReady n w.scheduler
    pub known : IsBuilders w.builders

  -- The builders change by the calls of TfSchedulerTfBuilderInfo alone.
  pub builders-IsSound :
      (n : ℕ) (c : Call) (w : World Bits)
      → IsSound n w
      → IsSound n (record w { builders = builders_step w.builders c })
  builders-IsSound n c w v = record { ready = v.ready; known = builders_step-IsValid c v.known }

  pub dropped-IsSound :
      (n k : ℕ) (w : World Bits)
      → k < event_limit
      → IsSound n w
      → IsSound n (record w { scheduler = request_drop_all k w.scheduler })
  dropped-IsSound n k w h v = record {
    ready = request_drop_all-IsReady n k w.scheduler h v.ready;
    known = v.known;
  }

  pub disconnect-IsSound :
      (n : ℕ) (names : List String) (w : World Bits)
      → IsSound n w
      → IsSound n (record w { disconnected = names })
  disconnect-IsSound n names w v = record { ready = v.ready; known = v.known }

  conclude-IsSound :
      (n k : ℕ) (name : String) (r : Rpc) (w : World Bits)
      → k < event_limit
      → IsSound n w
      → IsSound n (conclude k name r w)
  unfolding conclude builders_step
  conclude-IsSound n k name no_client w h v =
      builders-IsSound n (removes name) _ (dropped-IsSound n k w h v)
  conclude-IsSound n k name grpc_error w h v =
      builders-IsSound n (removes name) _ (disconnect-IsSound n _ _ (dropped-IsSound n k w h v))
  conclude-IsSound n k name (answered BuildTfStatus.ok) w h v =
      builders-IsSound n (marks name k) w v
  conclude-IsSound n k name (answered error_nomem) w h v = dropped-IsSound n k w h v
  conclude-IsSound n k name (answered error_not_running) w h v = dropped-IsSound n k w h v
  conclude-IsSound n k name (answered other) w h v = v

  schedule_tf-IsSound :
      (n : ℕ) (incomplete : Bool) (ask : String → TfBuildingInformation → Rpc) (k : ℕ)
      (infos : List StfInfo) (w : World Bits)
      → k < event_limit
      → IsSound n w
      → IsSound n (schedule_tf n incomplete ask k infos w)
  unfolding schedule_tf builders_step
  schedule_tf-IsSound n incomplete ask k infos w h v =
      elim (Bool-cases (not (length infos == n) && not incomplete)) [
        | inl e ↦ rw e (dropped-IsSound n k w h v)
        | inr e ↦
            let request = build_request k infos in
            let found = find_tf_builder_for_tf request.tf_size w.builders in
            let v' = builders-IsSound n (selects request.tf_size) w v in
            rw e
              (elim found.0
                as (λ r. IsSound n (elim r [
                  | rejected why ↦ record w {
                    builders = found.1;
                    scheduler = request_drop_all k w.scheduler;
                  }
                  | selected name ↦
                      conclude k name (ask name request) (record w { builders = found.1 })
                ])) [
                  | rejected why ↦ dropped-IsSound n k _ h v'
                  | selected name ↦ conclude-IsSound n k name (ask name request) _ h v'
                ])
      ]

  schedule_infos-IsSound :
      (n : ℕ) (incomplete : Bool) (ask : String → TfBuildingInformation → Rpc)
      (infos : List StfInfo) (w : World Bits)
      → IsQueued n infos
      → IsSound n w
      → IsSound n (schedule_infos n incomplete ask infos w)
  schedule_infos-IsSound n incomplete ask [] w q v = v
  schedule_infos-IsSound n incomplete ask (i ∷ is) w (k, h, some_there, few, same) v =
      schedule_tf-IsSound n incomplete ask i.stf_info.stf_id (i ∷ is) w
        (subst (λ j. j < event_limit) (sym same.0) h) v

  pub queue-IsSound :
      (n : ℕ) (w : World Bits) (q : Queue (List StfInfo))
      → All (IsQueued n) q.container
      → IsSound n w
      → IsSound n (record w { scheduler = record (w.scheduler) { complete_stfs_info_queue = q } })
  queue-IsSound n w q a v = record {
    ready = (same_map v.ready.0 refl refl refl, a);
    known = v.known;
  }

  pub scheduling_round-IsSound :
      (n : ℕ) (incomplete : Bool) (ask : String → TfBuildingInformation → Rpc) (w : World Bits)
      → IsSound n w
      → IsSound n (scheduling_round n incomplete ask w)
  unfolding scheduling_round
  scheduling_round-IsSound n incomplete ask w v =
      let q = w.scheduler.complete_stfs_info_queue in
      elim (pop_from (IsQueued n) q.container q.running v.ready.1) [
        | inl (infos, e, here, rest) ↦
            rw (e, scheduling_round)
              (schedule_infos-IsSound n incomplete ask infos _ here
                (queue-IsSound n w (pop q).1 rest v))
        | inr (inl e) ↦ rw (e, scheduling_round) v
        | inr (inr e) ↦ rw (e, scheduling_round) v
      ]

  -- The topological threads and the drop thread touch no part of the map.
  pub apart-IsSound :
      (n : ℕ) (w : World Bits) (s : Scheduler Bits)
      → s.stf_info_map ≡ w.scheduler.stf_info_map
      → s.dropped_stfs ≡ w.scheduler.dropped_stfs
      → s.built_tfs ≡ w.scheduler.built_tfs
      → s.complete_stfs_info_queue ≡ w.scheduler.complete_stfs_info_queue
      → IsSound n w
      → IsSound n (record w { scheduler = s })
  apart-IsSound n w s m d b q v = record {
    ready = (same_map v.ready.0 m d b, rw q v.ready.1);
    known = v.known;
  }

  pub dropped_topo-IsSound :
      (n k : ℕ) (name : String) (w : World Bits)
      → IsSound n w
      → IsSound n (record w { scheduler = request_drop_topo_stf k name w.scheduler })
  unfolding request_drop_topo_stf
  dropped_topo-IsSound n k name w v = apart-IsSound n w _ refl refl refl refl v

  conclude_topo-IsSound :
      (n k : ℕ) (stfs name : String) (r : Rpc) (w : World Bits)
      → IsSound n w
      → IsSound n (conclude_topo k stfs name r w)
  unfolding conclude_topo builders_step
  conclude_topo-IsSound n k stfs name no_client w v =
      builders-IsSound n (removes name) _ (dropped_topo-IsSound n k stfs w v)
  conclude_topo-IsSound n k stfs name grpc_error w v =
      builders-IsSound n (removes name) _
        (disconnect-IsSound n _ _ (dropped_topo-IsSound n k stfs w v))
  conclude_topo-IsSound n k stfs name (answered BuildTfStatus.ok) w v = v
  conclude_topo-IsSound n k stfs name (answered error_nomem) w v = dropped_topo-IsSound n k stfs w v
  conclude_topo-IsSound n k stfs name (answered error_not_running) w v =
      dropped_topo-IsSound n k stfs w v
  conclude_topo-IsSound n k stfs name (answered other) w v = v

  schedule_topo-IsSound :
      (n : ℕ) (ask : String → TfBuildingInformation → Rpc) (t : TopoStfInfo) (w : World Bits)
      → IsSound n w
      → IsSound n (schedule_topo ask t w)
  unfolding schedule_topo builders_step
  schedule_topo-IsSound n ask t w v =
      let m = t.stf_info in
      let key : TopoKey = record { sub_spec = t.sub_spec; data_origin = t.data_origin } in
      let v' = builders-IsSound n (assigns key) w v in
      elim (Option-cases (find_tf_builder_for_topo_stf key w.builders).0) [
        | inl e ↦ rw (e, schedule_topo) (dropped_topo-IsSound n m.stf_id m.process_id _ v')
        | inr (name, e) ↦
            rw (e, schedule_topo)
              (conclude_topo-IsSound n m.stf_id m.process_id name (ask name (topo_request t)) _ v')
      ]

  pub topo_scheduling_round-IsSound :
      (n : ℕ) (ask : String → TfBuildingInformation → Rpc) (w : World Bits)
      → IsSound n w
      → IsSound n (topo_scheduling_round ask w)
  unfolding topo_scheduling_round
  topo_scheduling_round-IsSound n ask w v =
      let q = w.scheduler.topo_stf_info_queue in
      elim (pop_from (λ t. Unit {0}) q.container q.running (anything q.container)) [
        | inl (t, e, here, rest) ↦
            rw (e, topo_scheduling_round)
              (schedule_topo-IsSound n ask t _ (apart-IsSound n w _ refl refl refl refl v))
        | inr (inl e) ↦ rw (e, topo_scheduling_round) v
        | inr (inr e) ↦ rw (e, topo_scheduling_round) v
      ]

  pub drop_round-IsSound : (n : ℕ) (w : World Bits) → IsSound n w → IsSound n (drop_round w).1
  unfolding drop_round
  drop_round-IsSound n w v =
      let q = w.scheduler.drop_queue in
      elim (pop_from (λ d. Unit {0}) q.container q.running (anything q.container)) [
        | inl (d, e, here, rest) ↦ rw (e, drop_round) (apart-IsSound n w _ refl refl refl refl v)
        | inr (inl e) ↦ rw (e, drop_round) v
        | inr (inr e) ↦ rw (e, drop_round) v
      ]

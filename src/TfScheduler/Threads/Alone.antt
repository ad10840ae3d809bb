-- ===== src/TfScheduler/Threads/Alone.antt =====
-- The steps of SchedulingThread (src/TfScheduler/TfSchedulerStfInfo.cxx) without other threads in between.
use data_distribution.Prelude.{
  ℕ, zero, suc, ◌≡◌, ◌∙◌, ap, refl, sym, inl, inr, Bool, not, ◌&&◌, Bool-cases, List, [], ◌∷◌,
  String, ◌==◌, nat_eq, length,
}
use data_distribution.Common.Bitset.{DynamicBitset}
use data_distribution.Common.ConcurrentQueue.{pop}
use data_distribution.TfScheduler.Messages.{
  TfBuildingInformation, BuildTfStatus, error_nomem, error_not_running, other,
}
use data_distribution.TfScheduler.TfBuilders.{find_tf_builder_for_tf}
use data_distribution.TfScheduler.StfInfo.{StfInfo}
use data_distribution.TfScheduler.Threads.{
  World, Rpc, no_client, grpc_error, answered, build_request, conclude, schedule_tf, schedule_infos,
  scheduling_round,
}
use data_distribution.TfScheduler.Threads.Decisions.{Selected-cases}
use data_distribution.TfScheduler.Threads.Rounds.{pop_from, anything}
use data_distribution.TfScheduler.Threads.Steps.{
  default, Phase, at_queue, taken, answer, drop_job, select_tf, take_tf, advance,
}

module _ {Bits : Type 0} ⦃B : DynamicBitset Bits⦄ (n : ℕ) (incomplete : Bool)
    (ask : String → TfBuildingInformation → Rpc) where
  abbrev pub alone : ℕ → Phase × World Bits → Phase × World Bits
  alone zero p = p
  alone (suc k) p = alone k (advance take_tf n incomplete ask p.0 p.1)

  answer-alone :
      (k : ℕ) (name : String) (r : Rpc) (w : World Bits)
      → (j : ℕ) × (alone j (answer (default k) name r, w) ≡ (at_queue, conclude k name r w))
  unfolding answer conclude advance drop_job
  answer-alone k name no_client w = (2, refl)
  answer-alone k name grpc_error w = (3, refl)
  answer-alone k name (answered BuildTfStatus.ok) w = (1, refl)
  answer-alone k name (answered error_nomem) w = (1, refl)
  answer-alone k name (answered error_not_running) w = (1, refl)
  answer-alone k name (answered other) w = (0, refl)

  select_alone :
      (k : ℕ) (infos : List StfInfo) (w : World Bits)
      → (j : ℕ) × (alone j (select_tf n incomplete k infos w)
          ≡ (at_queue, schedule_tf n incomplete ask k infos w))
  unfolding select_tf schedule_tf advance drop_job
  select_alone k infos w =
      let request = build_request k infos in
      let found = find_tf_builder_for_tf request.tf_size w.builders in
      elim (Bool-cases (not (length infos == n) && not incomplete)) [
        | inl e ↦ (1, rw e refl)
        | inr e ↦ elim (Selected-cases found.0) [
          | inl (why, f) ↦ (1, rw (e, f) refl)
          | inr (name, f) ↦
              let (j, g) =
                answer-alone k name (ask name request) (record w { builders = found.1 }) in
              (suc j, rw (e, f) g)
        ]
      ]

  taken_alone :
      (infos : List StfInfo) (w : World Bits)
      → (j : ℕ) × (alone j (taken infos, w) ≡ (at_queue, schedule_infos n incomplete ask infos w))
  unfolding advance
  taken_alone [] w = (1, refl)
  taken_alone (i ∷ is) w = let (j, e) = select_alone i.stf_info.stf_id (i ∷ is) w in (suc j, e)

  nothing_taken :
      (w : World Bits)
      → take_tf w ≡ (at_queue, w)
      → scheduling_round n incomplete ask w ≡ w
      → alone 1 (at_queue, w) ≡ (at_queue, scheduling_round n incomplete ask w)
  unfolding advance
  nothing_taken w h k = h ∙ ap (λ x. (at_queue, x)) (sym k)

  -- A round of the scheduling thread is what its steps come to from its queue back to it, if no other
  -- thread runs in between.
  pub scheduling_round-alone :
      (w : World Bits)
      → (j : ℕ) × (alone (suc j) (at_queue, w) ≡ (at_queue, scheduling_round n incomplete ask w))
  unfolding advance take_tf pop scheduling_round
  scheduling_round-alone w =
      let q = w.scheduler.complete_stfs_info_queue in
      elim (pop_from (λ x. Unit {0}) q.container q.running (anything q.container)) [
        | inl (infos, e, here, rest) ↦
            let w' : World Bits = record w {
              scheduler = record (w.scheduler) { complete_stfs_info_queue = (pop q).1 };
            } in
            let took : (take_tf w ≡ (taken infos, w')) = rw (e, take_tf) refl in
            let round : (scheduling_round n incomplete ask w
                ≡ schedule_infos n incomplete ask infos w') =
              rw (e, scheduling_round) refl in
            let (j, f) = taken_alone infos w' in
            (j, ap (λ p. alone j p) took ∙ f ∙ ap (λ x. (at_queue, x)) (sym round))
        | inr (inl e) ↦ (0, nothing_taken w (rw (e, take_tf) refl) (rw (e, scheduling_round) refl))
        | inr (inr e) ↦ (0, nothing_taken w (rw (e, take_tf) refl) (rw (e, scheduling_round) refl))
      ]

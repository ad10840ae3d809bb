-- ===== src/TfScheduler/Threads/Steps.antt =====
-- SchedulingThread and TopoSchedulingThread (src/TfScheduler/TfSchedulerStfInfo.cxx) in the steps between
-- which other threads can run: each step takes one lock, or is the remote call.
use data_distribution.Prelude.{
  ℕ, Bool, not, ◌&&◌, List, [], ◌∷◌, String, ◌==◌, nat_eq, length, none, some, if◌then◌else◌,
}
use data_distribution.Common.Bitset.{DynamicBitset}
use data_distribution.Common.ConcurrentQueue.{waits, closed, got, pop}
use data_distribution.TfScheduler.Messages.{
  TfBuildingInformation, BuildTfStatus, error_nomem, error_not_running, other,
}
use data_distribution.TfScheduler.TfBuilders.{
  selected, rejected, find_tf_builder_for_tf, find_tf_builder_for_topo_stf,
  mark_tf_builder_with_tf_id,
}
use data_distribution.TfScheduler.StfInfo.{StfInfo, TopoStfInfo}
use data_distribution.TfScheduler.Threads.{
  World, Rpc, no_client, grpc_error, answered, build_request, topo_request, dropped, dropped_topo,
  off_ready, disconnect,
}

pub data Job : Type 0 where
  default : ℕ → Job
  topological : TopoStfInfo → Job

-- Where the thread is, with what it holds: in front of its queue; with the updates of a time frame, or
-- with a topological STF; in front of the remote call to the selected TfBuilder; and in front of what
-- follows from the answer.
pub data Phase : Type 0 where
  at_queue : Phase
  taken : List StfInfo → Phase
  taken_topo : TopoStfInfo → Phase
  asking : Job → String → TfBuildingInformation → Phase
  marking : String → ℕ → Phase
  dropping : Job → Phase → Phase
  disconnecting removing : String → Phase

-- Behind the remote call.
unfoldable pub answer : Job → String → Rpc → Phase
answer job name no_client = dropping job (removing name)
answer job name grpc_error = dropping job (disconnecting name)
answer (default tf_id) name (answered BuildTfStatus.ok) = marking name tf_id
answer (topological t) name (answered BuildTfStatus.ok) = at_queue
answer job name (answered error_nomem) = dropping job at_queue
answer job name (answered error_not_running) = dropping job at_queue
answer job name (answered other) = at_queue

module _ {Bits : Type 0} ⦃B : DynamicBitset Bits⦄ where
  unfoldable pub drop_job : Job → World Bits → World Bits
  drop_job (default tf_id) w = dropped tf_id w
  drop_job (topological t) w = dropped_topo t.stf_info.stf_id t.stf_info.process_id w

  -- The updates are checked, and a TfBuilder is selected.
  unfoldable pub select_tf : ℕ → Bool → ℕ → List StfInfo → World Bits → Phase × World Bits
  select_tf num_stf_senders build_incomplete tf_id infos w =
      if not (length infos == num_stf_senders) && not build_incomplete
      then (dropping (default tf_id) at_queue, w)
      else (let request = build_request tf_id infos in
          let (result, builders) = find_tf_builder_for_tf request.tf_size w.builders in
          let w' = record w { builders = builders } in
          elim result [
            | rejected why ↦ (dropping (default tf_id) at_queue, w')
            | selected name ↦ (asking (default tf_id) name request, w')
          ])

  unfoldable pub select_topo : TopoStfInfo → World Bits → Phase × World Bits
  select_topo t w =
      let (result, builders) =
        find_tf_builder_for_topo_stf (record { sub_spec = t.sub_spec; data_origin = t.data_origin })
          w.builders in
      let w' = record w { builders = builders } in
      elim result [
        | none ↦ (dropping (topological t) at_queue, w')
        | some name ↦ (asking (topological t) name (topo_request t), w')
      ]

  unfoldable pub take_tf : World Bits → Phase × World Bits
  take_tf w =
      let (r, queue) = pop w.scheduler.complete_stfs_info_queue in
      let w' = record w { scheduler = record (w.scheduler) { complete_stfs_info_queue = queue } } in
      elim r [ waits ↦ (at_queue, w) | closed ↦ (at_queue, w) | got infos ↦ (taken infos, w') ]

  unfoldable pub take_topo : World Bits → Phase × World Bits
  take_topo w =
      let (r, queue) = pop w.scheduler.topo_stf_info_queue in
      let w' = record w { scheduler = record (w.scheduler) { topo_stf_info_queue = queue } } in
      elim r [ waits ↦ (at_queue, w) | closed ↦ (at_queue, w) | got t ↦ (taken_topo t, w') ]

  -- The step of a thread from where it is, with `take` for its queue. An empty vector, which the source
  -- asserts against, is passed over.
  unfoldable pub advance :
      (World Bits → Phase × World Bits)
      → ℕ
      → Bool
      → (String → TfBuildingInformation → Rpc)
      → Phase
      → World Bits
      → Phase × World Bits
  unfolding answer drop_job select_tf select_topo
  advance take n incomplete ask at_queue w = take w
  advance take n incomplete ask (taken []) w = (at_queue, w)
  advance take n incomplete ask (taken (i ∷ is)) w =
      select_tf n incomplete i.stf_info.stf_id (i ∷ is) w
  advance take n incomplete ask (taken_topo t) w = select_topo t w
  advance take n incomplete ask (asking job name request) w =
      (answer job name (ask name request), w)
  advance take n incomplete ask (marking name tf_id) w =
      (at_queue, record w { builders = (mark_tf_builder_with_tf_id name tf_id w.builders).1 })
  advance take n incomplete ask (dropping job next) w = (next, drop_job job w)
  advance take n incomplete ask (disconnecting name) w = (removing name, disconnect name w)
  advance take n incomplete ask (removing name) w = (at_queue, off_ready name w)

-- ===== src/TfScheduler/Threads.antt =====
-- The threads of TfSchedulerStfInfo (src/TfScheduler/TfSchedulerStfInfo.cxx): one round of each loop.
-- What the remote TfBuilder answers, the clock and the configuration are arguments.
pub mod Invariant
pub mod Decisions
pub mod Rounds
pub mod Steps
pub mod Alone
pub mod Interleavings
use data_distribution.Prelude.{
  ℕ, suc, ◌+◌, ◌-◌, ◌*◌, ◌^◌, ◌/◌, ◌%◌, ◌≤◌, ◌<◌, ◌≡◌, Bool, true, false, not, ◌&&◌, ◌||◌, List, [],
  ◌∷◌, ◌++◌, Option, none, some, String, ◌==◌, nat_eq, string_eq, ltb, leb, if◌then◌else◌, find,
  remove, insert, put, length, max, min, add64, sub64, mul64, map,
}
use data_distribution.Common.Bitset.{DynamicBitset}
use data_distribution.Common.ConcurrentQueue.{Queue, Popped, waits, closed, got, pop}
use data_distribution.TfScheduler.Messages.{
  StfUpdate, StfSource, TfBuildingInformation, BuildTfStatus, error_nomem, error_not_running, other,
}
use data_distribution.TfScheduler.TfBuilders.{
  TfBuilders, TopoKey, Selected, selected, rejected, find_tf_builder_for_tf,
  find_tf_builder_for_topo_stf, mark_tf_builder_with_tf_id, remove_ready_tf_builder, distance,
}
use data_distribution.TfScheduler.StfInfo.{
  StfInfo, TopoStfInfo, Scheduler, updates_of, request_drop_all, request_drop_topo_stf, hand_over,
}

-- What comes of getTfBuilderRpcClient and BuildTfRequest.
pub data Rpc : Type 0 where
  no_client grpc_error : Rpc
  answered : BuildTfStatus → Rpc

-- The scheduler's state, the TfBuilders, and the calls of TfSchedulerConnManager::removeTfBuilder so
-- far, the last one first.
pub record World (Bits : Type 0) : Type 0 where
  pub scheduler : Scheduler Bits
  pub builders : TfBuilders
  pub disconnected : List String

abbrev pub total_size : ℕ → List StfInfo → ℕ
total_size acc [] = acc
total_size acc (i ∷ is) = total_size (add64 acc i.stf_info.stf_size) is

-- stf_size_map: a second update of one StfSender overwrites the first.
abbrev pub size_map : List (String × ℕ) → List StfInfo → List (String × ℕ)
size_map acc [] = acc
size_map acc (i ∷ is) = size_map (insert i.stf_info.process_id i.stf_info.stf_size acc) is

abbrev pub build_request : ℕ → List StfInfo → TfBuildingInformation
build_request tf_id infos = record {
  tf_id = tf_id;
  tf_size = total_size 0 infos;
  stf_size_map = size_map [] infos;
  tf_source = StfSource.default;
}

abbrev pub topo_request : TopoStfInfo → TfBuildingInformation
topo_request t = record {
  tf_id = t.stf_info.stf_id;
  tf_size = t.stf_info.stf_size;
  stf_size_map = (t.stf_info.process_id, t.stf_info.stf_size) ∷ [];
  tf_source = StfSource.topological;
}

-- std::clamp(timeout, 250, 60000)
abbrev pub clamp_timeout : ℕ → ℕ
clamp_timeout t = max 250 (min t 60000)

abbrev pub last_time : ℕ → List StfInfo → ℕ
last_time t [] = t
last_time t (i ∷ is) = last_time i.update_local_time is

-- The scan of StaleCleanupThread: it stops at the first time frame that was updated in time.
unfoldable pub stale_ids : ℕ → ℕ → List (ℕ × List StfInfo) → List ℕ
stale_ids now timeout [] = []
stale_ids now timeout ((k, []) ∷ m) = k ∷ stale_ids now timeout m
stale_ids now timeout ((k, i ∷ is) ∷ m) =
    let rest = stale_ids now timeout m in
    if ltb timeout (distance (last_time i.update_local_time is) now) then k ∷ rest else []

abbrev pub gib : ℕ
gib = 2 ^ 30

abbrev pub update_of : String → List StfInfo → Option StfInfo
update_of name [] = none
update_of name (i ∷ is) = if i.stf_info.process_id == name then some i else update_of name is

abbrev pub is_recent : ℕ → List StfInfo → Bool
is_recent now [] = false
is_recent now (i ∷ is) = ltb now (i.update_local_time + 1000)

-- The scan of HighWatermarkThread for incomplete time frames with an update of the StfSender that
-- runs out of memory; `size` is lStfsToDropSize so far.
unfoldable pub watermark_ids : String → ℕ → ℕ → ℕ → List (ℕ × List StfInfo) → List ℕ
watermark_ids victim now newest size [] = []
watermark_ids victim now newest size (p ∷ m) =
    if ltb gib size || ltb newest p.0 || is_recent now p.1
    then []
    else elim (update_of victim p.1) [
      | none ↦ watermark_ids victim now newest size m
      | some i ↦ p.0 ∷ watermark_ids victim now newest (add64 size i.stf_info.stf_size) m
    ]

-- What DropThread asks of TfSchedulerConnManager.
pub data DropRequest : Type 0 where
  drop_all_stfs : ℕ → DropRequest
  drop_single_stfs : ℕ → String → DropRequest

unfoldable pub drop_request : ℕ × String → DropRequest
drop_request (stf_id, stfs_id) =
    if stfs_id == "" then drop_all_stfs stf_id else drop_single_stfs stf_id stfs_id

module _ {Bits : Type 0} ⦃B : DynamicBitset Bits⦄ where
  unfoldable pub take_out : ℕ → Scheduler Bits → Scheduler Bits
  take_out stf_id s =
      hand_over stf_id (updates_of (find stf_id s.stf_info_map))
        (record s { stf_info_map = remove stf_id s.stf_info_map })

  unfoldable pub take_all_out : List ℕ → Scheduler Bits → Scheduler Bits
  unfolding take_out
  take_all_out [] s = s
  take_all_out (k ∷ ks) s = take_all_out ks (take_out k s)

  -- One round of StaleCleanupThread.
  unfoldable pub stale_cleanup : ℕ → ℕ → Scheduler Bits → Scheduler Bits
  stale_cleanup now timeout s =
      let ids = stale_ids now (clamp_timeout timeout) s.stf_info_map in
      let s' = take_all_out ids s in
      record s' { stale_tf_count = add64 s'.stale_tf_count (length ids) }

  unfoldable pub drop_each : List ℕ → Scheduler Bits → Scheduler Bits
  drop_each [] s = s
  drop_each (k ∷ ks) s = drop_each ks (request_drop_all k s)

  -- One round of HighWatermarkThread behind the scan of the buffer utilization, whose result is
  -- `victim`: the StfSender with the largest one, if it is above 0.90.
  unfoldable pub high_watermark : Option String → ℕ → Scheduler Bits → Scheduler Bits
  high_watermark none now s = record s { stf_sender_info_map = []; watermark = false }
  high_watermark (some victim) now s =
      drop_each (watermark_ids victim now s.max_completed_tf_id 0 s.stf_info_map)
        (record s { stf_sender_info_map = []; watermark = false })

  abbrev pub dropped : ℕ → World Bits → World Bits
  dropped tf_id w = record w { scheduler = request_drop_all tf_id w.scheduler }

  abbrev pub off_ready : String → World Bits → World Bits
  off_ready name w = record w { builders = remove_ready_tf_builder name w.builders }

  abbrev pub disconnect : String → World Bits → World Bits
  disconnect name w = record w { disconnected = name ∷ w.disconnected }

  -- The answer to BuildTfRequest, in SchedulingThread.
  unfoldable pub conclude : ℕ → String → Rpc → World Bits → World Bits
  conclude tf_id name no_client w = off_ready name (dropped tf_id w)
  conclude tf_id name grpc_error w = off_ready name (disconnect name (dropped tf_id w))
  conclude tf_id name (answered BuildTfStatus.ok) w = record w {
    builders = (mark_tf_builder_with_tf_id name tf_id w.builders).1;
  }
  conclude tf_id name (answered error_nomem) w = dropped tf_id w
  conclude tf_id name (answered error_not_running) w = dropped tf_id w
  conclude tf_id name (answered other) w = w

  -- The body of SchedulingThread, for the id of the first update.
  unfoldable pub schedule_tf :
      ℕ → Bool → (String → TfBuildingInformation → Rpc) → ℕ → List StfInfo → World Bits → World Bits
  unfolding conclude
  schedule_tf num_stf_senders build_incomplete ask tf_id infos w =
      if not (length infos == num_stf_senders) && not build_incomplete
      then dropped tf_id w
      else (let request = build_request tf_id infos in
          let (result, builders) = find_tf_builder_for_tf request.tf_size w.builders in
          let w' = record w { builders = builders } in
          elim result [
            | rejected why ↦ dropped tf_id w'
            | selected name ↦ conclude tf_id name (ask name request) w'
          ])

  abbrev pub schedule_infos :
      ℕ → Bool → (String → TfBuildingInformation → Rpc) → List StfInfo → World Bits → World Bits
  schedule_infos n build_incomplete ask [] w = w
  schedule_infos n build_incomplete ask (i ∷ is) w =
      schedule_tf n build_incomplete ask i.stf_info.stf_id (i ∷ is) w

  -- One round of SchedulingThread, as one step, although the source releases its locks between its parts.
  -- An empty vector, which the source asserts against, is passed over.
  unfoldable pub scheduling_round :
      ℕ → Bool → (String → TfBuildingInformation → Rpc) → World Bits → World Bits
  unfolding schedule_tf
  scheduling_round n build_incomplete ask w =
      let (r, queue) = pop w.scheduler.complete_stfs_info_queue in
      let w' = record w { scheduler = record (w.scheduler) { complete_stfs_info_queue = queue } } in
      elim r [ waits ↦ w | closed ↦ w | got infos ↦ schedule_infos n build_incomplete ask infos w' ]

  abbrev pub dropped_topo : ℕ → String → World Bits → World Bits
  dropped_topo tf_id stfs w = record w { scheduler = request_drop_topo_stf tf_id stfs w.scheduler }

  -- The answer to BuildTfRequest, in TopoSchedulingThread.
  unfoldable pub conclude_topo : ℕ → String → String → Rpc → World Bits → World Bits
  conclude_topo tf_id stfs name no_client w = off_ready name (dropped_topo tf_id stfs w)
  conclude_topo tf_id stfs name grpc_error w =
      off_ready name (disconnect name (dropped_topo tf_id stfs w))
  conclude_topo tf_id stfs name (answered BuildTfStatus.ok) w = w
  conclude_topo tf_id stfs name (answered error_nomem) w = dropped_topo tf_id stfs w
  conclude_topo tf_id stfs name (answered error_not_running) w = dropped_topo tf_id stfs w
  conclude_topo tf_id stfs name (answered other) w = w

  -- The body of TopoSchedulingThread.
  unfoldable pub schedule_topo :
      (String → TfBuildingInformation → Rpc) → TopoStfInfo → World Bits → World Bits
  unfolding conclude_topo
  schedule_topo ask t w =
      let m = t.stf_info in
      let (result, builders) =
        find_tf_builder_for_topo_stf (record { sub_spec = t.sub_spec; data_origin = t.data_origin })
          w.builders in
      let w' = record w { builders = builders } in
      elim result [
        | none ↦ dropped_topo m.stf_id m.process_id w'
        | some name ↦ conclude_topo m.stf_id m.process_id name (ask name (topo_request t)) w'
      ]

  -- One round of TopoSchedulingThread, likewise as one step.
  unfoldable pub topo_scheduling_round :
      (String → TfBuildingInformation → Rpc) → World Bits → World Bits
  unfolding schedule_topo
  topo_scheduling_round ask w =
      let (r, queue) = pop w.scheduler.topo_stf_info_queue in
      elim r [
        | waits ↦ w
        | closed ↦ w
        | got t ↦
            schedule_topo ask t
              (record w { scheduler = record (w.scheduler) { topo_stf_info_queue = queue } })
      ]

  -- One round of DropThread: the request that it makes, if there is one.
  unfoldable pub drop_round : World Bits → Option DropRequest × World Bits
  unfolding drop_request
  drop_round w =
      let (r, queue) = pop w.scheduler.drop_queue in
      elim r [
        | waits ↦ (none, w)
        | closed ↦ (none, w)
        | got d ↦ (
          some (drop_request d),
          record w { scheduler = record (w.scheduler) { drop_queue = queue } },
        )
      ]

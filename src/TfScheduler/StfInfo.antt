-- ===== src/TfScheduler/StfInfo.antt =====
-- TfSchedulerStfInfo (src/TfScheduler/TfSchedulerStfInfo.h and .cxx): the updates of the StfSenders,
-- collected by time frame, and the queues between its threads. Every method holds mGlobalStfInfoLock
-- while it touches the map, so it is one step on the state. Time is in milliseconds.
pub mod Invariant
pub mod Preservation
pub mod Queued
pub mod Conservation
pub mod Refusals
use data_distribution.Prelude.{
  ℕ, suc, ◌+◌, ◌-◌, ◌*◌, ◌/◌, ◌%◌, ◌≤◌, ◌<◌, ◌≡◌, Bool, true, false, not, ◌&&◌, ◌||◌, List, [], ◌∷◌,
  ◌++◌, Option, none, some, String, ◌==◌, nat_eq, string_eq, ltb, leb, if◌then◌else◌, find, remove,
  insert, put, length, max, min, add64, sub64, mul64, map,
}
use data_distribution.Common.Bitset.{DynamicBitset}
use data_distribution.Common.EventRecorder.{EventRecorder, set_event, get_event}
use data_distribution.Common.EventRecorder
use data_distribution.Common.ConcurrentQueue.{Queue, fifo, push, stop as stop_queue}
use data_distribution.TfScheduler.Messages.{
  StfUpdate, StfSenderInfo, StfInfoStatus, StfSenderState, is_topological, drop_not_running,
  drop_sched_discarded, drop_stfs_incomplete, drop_stfs_buffer_full,
}

-- mIsScheduled is never read.
pub record StfInfo : Type 0 where
  pub update_local_time : ℕ
  pub stf_info : StfUpdate

pub record TopoStfInfo : Type 0 where
  pub stf_info : StfUpdate
  pub data_origin : String
  pub sub_spec : ℕ

-- `watermark` says whether mMemWatermarkCondition was notified since it was last cleared.
pub record Scheduler (Bits : Type 0) : Type 0 where
  pub running : Bool
  pub drop_queue : Queue (ℕ × String)
  pub watermark : Bool
  pub stf_info_map : List (ℕ × List StfInfo)
  pub stf_sender_info_map : List (String × StfSenderInfo)
  pub run_number : ℕ
  pub last_stf_id : ℕ
  pub max_completed_tf_id : ℕ
  pub not_scheduled_tfs_count : ℕ
  pub stale_tf_count : ℕ
  pub dropped_stfs : EventRecorder Bits
  pub built_tfs : EventRecorder Bits
  pub complete_stfs_info_queue : Queue (List StfInfo)
  pub topo_stf_info_queue : Queue TopoStfInfo

-- sStfDiscardTimeout.count() * 88
abbrev pub max_delay_tf : ℕ
max_delay_tf = 5 * 88

abbrev pub updates_of : Option (List StfInfo) → List StfInfo
updates_of none = []
updates_of (some v) = v

abbrev pub is_ok : StfSenderState → Bool
is_ok StfSenderState.ok = true
is_ok StfSenderState.initializing = false
is_ok StfSenderState.incomplete = false

abbrev pub has_key : ℕ → List (ℕ × List StfInfo) → Bool
has_key k m = elim (find k m) [ none ↦ false | some v ↦ true ]

module _ {Bits : Type 0} ⦃B : DynamicBitset Bits⦄ where
  unfoldable pub start : Scheduler Bits → Scheduler Bits
  start s = record s { stf_info_map = []; running = true }

  -- The state behind stop(), once the threads are joined.
  unfoldable pub stop : Scheduler Bits → Scheduler Bits
  stop s = record s {
    running = false;
    drop_queue = stop_queue s.drop_queue;
    complete_stfs_info_queue = stop_queue s.complete_stfs_info_queue;
    topo_stf_info_queue = stop_queue s.topo_stf_info_queue;
    stf_info_map = [];
  }

  unfoldable pub reset : Scheduler Bits → Scheduler Bits
  reset s = record s {
    last_stf_id = 0;
    max_completed_tf_id = 0;
    not_scheduled_tfs_count = 0;
    stale_tf_count = 0;
    dropped_stfs = EventRecorder.reset s.dropped_stfs;
    built_tfs = EventRecorder.reset s.built_tfs;
    stf_info_map = [];
  }

  -- requestDropAllLocked and requestDropAllFromSchedule, which differ in an assert and a log line.
  unfoldable pub request_drop_all : ℕ → Scheduler Bits → Scheduler Bits
  request_drop_all stf_id s = record s {
    dropped_stfs = (set_event s.dropped_stfs stf_id true).1;
    stf_info_map = remove stf_id s.stf_info_map;
    drop_queue = (push fifo s.drop_queue (stf_id, "")).1;
    not_scheduled_tfs_count = add64 s.not_scheduled_tfs_count 1;
  }

  unfoldable pub request_drop_topo_stf : ℕ → String → Scheduler Bits → Scheduler Bits
  request_drop_topo_stf stf_id stfs_id s = record s {
    drop_queue = (push fifo s.drop_queue (stf_id, stfs_id)).1;
    not_scheduled_tfs_count = add64 s.not_scheduled_tfs_count 1;
  }

  -- A time frame that left the map goes to the scheduling thread.
  unfoldable pub hand_over : ℕ → List StfInfo → Scheduler Bits → Scheduler Bits
  hand_over stf_id infos s = record s {
    max_completed_tf_id = max s.max_completed_tf_id stf_id;
    built_tfs = (set_event s.built_tfs stf_id true).1;
    complete_stfs_info_queue = (push fifo s.complete_stfs_info_queue infos).1;
  }

  -- The loop over mStfInfoMap.begin(), while its key is below the id of the complete time frame. The
  -- list is the map.
  unfoldable pub queue_older : ℕ → List (ℕ × List StfInfo) → Scheduler Bits → Scheduler Bits
  queue_older stf_id [] s = record s { stf_info_map = [] }
  queue_older stf_id (p ∷ m) s =
      if ltb p.0 stf_id
      then queue_older stf_id m (hand_over p.0 p.1 s)
      else record s { stf_info_map = p ∷ m }

  unfoldable pub queue_complete : ℕ → Scheduler Bits → Scheduler Bits
  queue_complete stf_id s =
      let older = queue_older stf_id s.stf_info_map s in
      hand_over stf_id (updates_of (find stf_id older.stf_info_map))
        (record older { stf_info_map = remove stf_id older.stf_info_map })

  -- The update joins the others of its time frame; the last one completes it.
  unfoldable pub record_update : ℕ → ℕ → StfUpdate → Scheduler Bits → Scheduler Bits
  record_update num_stf_senders now m s =
      let infos =
        updates_of (find m.stf_id s.stf_info_map)
        ++ record { update_local_time = now; stf_info = m } ∷ [] in
      let s' = record s {
        last_stf_id = max s.last_stf_id m.stf_id;
        stf_info_map = put m.stf_id infos s.stf_info_map;
      } in
      if length infos == num_stf_senders then queue_complete m.stf_id s' else s'

  abbrev pub min_accept : Scheduler Bits → ℕ
  min_accept s = if ltb s.last_stf_id max_delay_tf then 0 else s.last_stf_id - max_delay_tf

  -- The checks on a full buffer and on the age of the update.
  unfoldable pub judge_update : ℕ → ℕ → StfUpdate → Scheduler Bits → StfInfoStatus × Scheduler Bits
  judge_update num_stf_senders now m s =
      if ltb (mul64 m.stfs_info.buffer_size 97 / 100) m.stfs_info.buffer_used
      then (drop_stfs_buffer_full, request_drop_all m.stf_id s)
      else if ltb m.stf_id (min_accept s) && not (has_key m.stf_id s.stf_info_map)
      then (drop_sched_discarded, request_drop_all m.stf_id s)
      else (StfInfoStatus.ok, record_update num_stf_senders now m s)

  -- Before them the watermark thread is notified of a buffer that is nearly full.
  unfoldable pub admit_update : ℕ → ℕ → StfUpdate → Scheduler Bits → StfInfoStatus × Scheduler Bits
  admit_update num_stf_senders now m s = judge_update num_stf_senders now m (
      if ltb (mul64 m.stfs_info.buffer_size 95 / 100) m.stfs_info.buffer_used
      then record s { watermark = true }
      else s)

  abbrev pub discarded : Scheduler Bits → StfInfoStatus
  discarded s = if not s.running then drop_not_running else drop_sched_discarded

  -- The checks behind the one of the run number.
  unfoldable pub check_update :
      ℕ → StfSenderState → ℕ → StfUpdate → Scheduler Bits → StfInfoStatus × Scheduler Bits
  check_update num_stf_senders state now m s =
      if get_event s.dropped_stfs m.stf_id
      then (discarded s, s)
      else if get_event s.built_tfs m.stf_id
      then (discarded s, s)
      else if not s.running
      then (drop_not_running, request_drop_all m.stf_id s)
      else if not (is_ok state)
      then (drop_stfs_incomplete, request_drop_all m.stf_id s)
      else admit_update num_stf_senders now m s

  unfoldable pub add_default_stf_info :
      ℕ → StfSenderState → ℕ → StfUpdate → Scheduler Bits → StfInfoStatus × Scheduler Bits
  add_default_stf_info num_stf_senders state now m s =
      if ltb s.run_number m.run_number
      then check_update num_stf_senders state now m (record (reset s) { run_number = m.run_number })
      else if ltb m.run_number s.run_number
      then (discarded s, s)
      else check_update num_stf_senders state now m s

  unfoldable pub add_topology_stf_info : StfUpdate → Scheduler Bits → StfInfoStatus × Scheduler Bits
  add_topology_stf_info m s = if not s.running then (drop_not_running, s) else (
    StfInfoStatus.ok,
    record s {
      topo_stf_info_queue =
          (push fifo s.topo_stf_info_queue
            (record { stf_info = m; data_origin = m.data_origin; sub_spec = m.data_subspec })).1;
    },
  )

  -- addStfInfo, for the configured number of StfSenders and the state of their connections.
  unfoldable pub add_stf_info :
      ℕ → StfSenderState → ℕ → StfUpdate → Scheduler Bits → StfInfoStatus × Scheduler Bits
  add_stf_info num_stf_senders state now m s =
      if is_topological m.stf_source
      then add_topology_stf_info m s
      else add_default_stf_info num_stf_senders state now m
          (record s { stf_sender_info_map = insert m.process_id m.stfs_info s.stf_sender_info_map })

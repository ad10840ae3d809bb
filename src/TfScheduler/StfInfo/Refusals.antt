-- ===== src/TfScheduler/StfInfo/Refusals.antt =====
-- What addStfInfo (src/TfScheduler/TfSchedulerStfInfo.cxx) does with an update that it does not accept.
use data_distribution.Prelude.{
  ℕ, ◌≡◌, Bool, true, false, ◌||◌, nat_eq, string_eq, if◌then◌else◌, insert, remove, add64, arith,
}
use data_distribution.Common.Bitset.{DynamicBitset}
use data_distribution.Common.EventRecorder.{set_event, get_event}
use data_distribution.Common.ConcurrentQueue.{push, fifo}
use data_distribution.TfScheduler.Messages.{
  StfUpdate, StfSenderState, is_topological, drop_not_running, drop_sched_discarded,
}
use data_distribution.TfScheduler.StfInfo.{
  Scheduler, check_update, add_default_stf_info, add_stf_info,
}

module _ {Bits : Type 0} ⦃B : DynamicBitset Bits⦄ where
  abbrev pub is_handled : ℕ → Scheduler Bits → Bool
  is_handled k s = get_event s.dropped_stfs k || get_event s.built_tfs k

  -- The time frame left the map, is recorded as dropped, and waits to be dropped at all StfSenders.
  pub record IsDropped (k : ℕ) (s t : Scheduler Bits) : Type 0 where
    pub out_of_map : t.stf_info_map ≡ remove k s.stf_info_map
    pub recorded : t.dropped_stfs ≡ (set_event s.dropped_stfs k true).1
    pub requested : t.drop_queue ≡ (push fifo s.drop_queue (k, "")).1
    pub counted : t.not_scheduled_tfs_count ≡ add64 s.not_scheduled_tfs_count 1
    pub not_queued : t.complete_stfs_info_queue ≡ s.complete_stfs_info_queue
    pub not_built : t.built_tfs ≡ s.built_tfs

  -- For an update of the current run that is not topological, whose time frame is recorded as dropped
  -- or as built: addStfInfo answers that it is discarded, or that the scheduler does not run, and
  -- changes nothing but the last known buffer of the StfSender.
  pub add_stf_info_repeats :
      (n : ℕ) (state : StfSenderState) (now : ℕ) (m : StfUpdate) (s : Scheduler Bits)
      → is_topological m.stf_source ≡ false
      → m.run_number ≡ s.run_number
      → is_handled m.stf_id s ≡ true
      → add_stf_info n state now m s ≡ (
        (if s.running then drop_sched_discarded else drop_not_running),
        record s { stf_sender_info_map = insert m.process_id m.stfs_info s.stf_sender_info_map },
      )
  unfolding add_stf_info add_default_stf_info check_update
  add_stf_info_repeats n state now m s t r h = ground (arith, t, r, h)

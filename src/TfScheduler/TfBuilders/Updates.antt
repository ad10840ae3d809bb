-- ===== src/TfScheduler/TfBuilders/Updates.antt =====
-- What updateTfBuilderInfo (src/TfScheduler/TfSchedulerTfBuilderInfo.cxx) makes of a report.
use data_distribution.Prelude.{
  ℕ, ◌<◌, ◌≡◌, ◌≢◌, [], ◌∷◌, ◌++◌, none, some, String, ◌==◌, nat_eq, string_eq, if◌then◌else◌, refl,
  arith, find, find-remove, find-insert, ==_refl, min,
}
use data_distribution.TfScheduler.TfBuilders.{
  TfBuilders, TfBuilderInfo, TfBuilderUpdate, not_running, update_known, update_tf_builder_info,
  leave, join, remove_ready_tf_builder,
}
use data_distribution.TfScheduler.TfBuilders.Invariant.{
  IsValid, Without, remove_ready_tf_builder-Without,
}

-- For every known TfBuilder and report: the reported memory and the number of time frames in building
-- are the reported ones; the memory estimate is the reported memory if the last scheduled time frame
-- is the last one built, the smaller of estimate and reported memory if a scheduled one is not built
-- yet, and unchanged if the TfBuilder is ahead of the record. Only in the first case is the message
-- itself kept, and the last scheduled time frame never changes.
pub update_known_estimate :
    (now : ℕ) (u : TfBuilderUpdate) (i : TfBuilderInfo)
    → let j = update_known now u i in
      (j.reported_free_memory ≡ u.free_memory)
      × (j.tfs_in_building ≡ u.num_tfs_in_building)
      × (j.update_local_time ≡ now)
      × (j.last_scheduled_tf ≡ i.last_scheduled_tf)
      × (u.last_built_tf_id ≡ i.last_scheduled_tf
          → (j.estimated_free_memory ≡ u.free_memory) × (j.tf_builder_update ≡ u))
      × (u.last_built_tf_id < i.last_scheduled_tf
          → (j.estimated_free_memory ≡ min i.estimated_free_memory u.free_memory)
            × (j.tf_builder_update ≡ i.tf_builder_update))
      × (i.last_scheduled_tf < u.last_built_tf_id
          → (j.estimated_free_memory ≡ i.estimated_free_memory)
            × (j.tf_builder_update ≡ i.tf_builder_update))
unfolding update_known
update_known_estimate now u i = (
  ground arith,
  ground arith,
  ground arith,
  ground arith,
  λ (e : u.last_built_tf_id ≡ i.last_scheduled_tf). (ground arith, ground arith),
  λ (e : u.last_built_tf_id < i.last_scheduled_tf). (ground arith, ground arith),
  λ (e : i.last_scheduled_tf < u.last_built_tf_id). (ground arith, ground arith),
)

-- For every valid state and report of a TfBuilder that is known and stops running: the partition no
-- longer knows it, no ready or assigned reference to it is left, every other TfBuilder keeps its
-- entry, and no object changes.
pub update_tf_builder_info_leaves :
    (now : ℕ) (u : TfBuilderUpdate) (s : TfBuilders) (r : ℕ)
    → IsValid s
    → u.process_state ≡ not_running
    → find u.process_id s.global_info ≡ some r
    → let s' = update_tf_builder_info now u s in
      ((k : String)
        → find k s'.global_info ≡ (if u.process_id == k then none else find k s.global_info))
      × Without s'.objects u.process_id (λ i. i) s'.ready
      × Without s'.objects u.process_id (λ p. p.1) s'.topo
      × (s'.objects ≡ s.objects)
unfolding update_tf_builder_info leave
update_tf_builder_info_leaves now u s r v e known =
    let (ready, topo) = remove_ready_tf_builder-Without u.process_id v in
    rw (e, known, update_tf_builder_info, leave)
      (unfold remove_ready_tf_builder in
        ((λ k. find-remove u.process_id k s.global_info), ready, topo, refl))

-- For every TfBuilder that the partition knows, and report of it that it is not NOT_RUNNING: the ready
-- list, the assignments and the map of the partition stay as they are, so a TfBuilder that was taken
-- off the ready list does not come back by its reports.
pub update_tf_builder_info_ready :
    (now : ℕ) (u : TfBuilderUpdate) (s : TfBuilders) (r : ℕ)
    → find u.process_id s.global_info ≡ some r
    → u.process_state ≢ not_running
    → let s' = update_tf_builder_info now u s in
      (s'.ready ≡ s.ready) × (s'.topo ≡ s.topo) × (s'.global_info ≡ s.global_info)
unfolding update_tf_builder_info
update_tf_builder_info_ready now u s r known n = ground (arith, known, n)

-- For every state in which the partition does not know the sender of a report that is running: behind
-- updateTfBuilderInfo its entry is the next free reference, which is the last one on the ready list,
-- with the reported memory as its estimate, nothing scheduled and nothing in building.
pub update_tf_builder_info_joins :
    (now : ℕ) (u : TfBuilderUpdate) (s : TfBuilders)
    → find u.process_id s.global_info ≡ none
    → u.process_state ≢ not_running
    → let s' = update_tf_builder_info now u s in
      let i = s'.objects s.next_object in
      (find u.process_id s'.global_info ≡ some s.next_object)
      × (s'.ready ≡ s.ready ++ s.next_object ∷ [])
      × (i.estimated_free_memory ≡ u.free_memory)
      × (i.tfs_in_building ≡ 0)
      × (i.last_scheduled_tf ≡ 0)
unfolding update_tf_builder_info join
update_tf_builder_info_joins now u s new n =
    let g = find-insert u.process_id u.process_id s.next_object s.global_info in
    (
      ground (arith, new, g, ==_refl u.process_id),
      ground (arith, new),
      ground (arith, new),
      ground (arith, new),
      ground (arith, new),
    )

-- ===== src/TfScheduler/Service/Teardown.antt =====
-- When a partition that is told to terminate does so (src/TfScheduler/TfSchedulerInstanceRpc.cxx with
-- src/TfScheduler/TfSchedulerConnManager.cxx).
use data_distribution.Prelude.{
  Bool, true, false, String, string_eq, none, ◌≡◌, ◌↔◌, ◌⊎◌, refl, sym, ◌∙◌, arith, if◌then◌else◌,
  find, inl, inr,
}
use data_distribution.Common.Bitset.{DynamicBitset}
use data_distribution.TfScheduler.Instance.{
  Instance, PartitionState, terminating, terminated, update_partition_state, monitor_check,
}
use data_distribution.TfScheduler.ConnManager.Ending.Clients.{teardown_pass, teardown_ends}
use data_distribution.TfScheduler.Service.{Service, monitor_pass}

ended_told :
    (told : Bool) → ((if told then terminated else terminating) ≡ terminated) ↔ (told ≡ true)
ended_told true = ((λ h. refl), (λ h. refl))
ended_told false = ((λ h. ground (arith, h)), (λ h. ground (arith, h)))

ended_or_not :
    (told : Bool) (state : PartitionState)
    → state ≡ (if told then terminated else terminating)
    → (state ≡ terminated) ⊎ (state ≡ terminating)
ended_or_not true state e = inl e
ended_or_not false state e = inr e

module _ {Bits : Type 0} ⦃B : DynamicBitset Bits⦄ where
  monitor_check_told :
      (told : Bool) (i : Instance Bits)
      → i.running ≡ true
      → i.partition_state ≡ terminating
      → (monitor_check told i).partition_state ≡ (if told then terminated else terminating)
  unfolding monitor_check update_partition_state
  monitor_check_told true i h e = ground (arith, h, e)
  monitor_check_told false i h e = ground (arith, h, e)

  -- If no StfSender has the id of a TfBuilder, then a pass of the monitor of a running instance leaves a
  -- partition that is told to terminate terminated or terminating, and it is terminated exactly if every
  -- TfBuilder that has a client fails to answer TerminatePartition: as long as one of them answers, the
  -- partition goes on terminating.
  pub monitor_pass_terminates :
      (told_builder told_sender : String → Bool) (s : Service Bits)
      → s.instance_state.running ≡ true
      → s.instance_state.partition_state ≡ terminating
      → ((j : String)
          → (find j s.connections.stf_senders.clients ≡ none)
            ⊎ (find j s.connections.tf_builders ≡ none))
      → let end = (monitor_pass told_builder told_sender s).instance_state.partition_state in
        ((end ≡ terminated) ⊎ (end ≡ terminating))
        × ((end ≡ terminated) ↔ (
            (j : String)
            → (if told_builder j then find j s.connections.tf_builders else none) ≡ none))
  unfolding monitor_pass
  monitor_pass_terminates told_builder told_sender s h e apart =
      let told = (teardown_pass told_builder told_sender s.connections).0 in
      let (ends, _) = teardown_ends told_builder told_sender s.connections apart in
      let state : ((monitor_pass told_builder told_sender s).instance_state.partition_state
          ≡ (if told then terminated else terminating)) =
        ground (arith, h, e, monitor_check_told told s.instance_state h e) in
      (
        ended_or_not told (monitor_pass told_builder told_sender s).instance_state.partition_state
            state,
        (
          (λ k. ends.0 ((ended_told told).0 (sym state ∙ k))),
          (λ k. state ∙ (ended_told told).1 (ends.1 k)),
        ),
      )

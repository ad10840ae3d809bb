-- ===== src/TfScheduler/Service.antt =====
-- The scheduler's instance with its connections (src/TfScheduler/TfSchedulerInstanceRpc.cxx): the gRPC
-- calls that go on to the connection manager, and the monitor's pass over an ending partition.
pub mod Teardown
use data_distribution.Prelude.{
  ℕ, Bool, true, false, not, ◌&&◌, ◌||◌, String, List, [], Option, none, some, if◌then◌else◌,
}
use data_distribution.Common.Bitset.{DynamicBitset}
use data_distribution.TfScheduler.Instance.{
  Instance, is_same, terminating, error, accepting_updates, monitor_check,
}
use data_distribution.TfScheduler.ConnManager.{
  IpPort, TfBuilderStatus, Call, Connections, connect_tf_builder, disconnect_tf_builder,
}
use data_distribution.TfScheduler.ConnManager.Ucx.{
  connect_tf_builder_ucx, disconnect_tf_builder_ucx,
}
use data_distribution.TfScheduler.ConnManager.Ending.Clients.{teardown_pass}

pub record Service (Bits : Type 0) : Type 0 where
  pub instance_state : Instance Bits
  pub connections : Connections

abbrev pub error_partition_terminating : ℕ
error_partition_terminating = 9

module _ {Bits : Type 0} ⦃B : DynamicBitset Bits⦄ where
  unfoldable pub tf_builder_connection_request :
      (Call → Option ℕ)
      → (String → Option String)
      → (String → Bool)
      → TfBuilderStatus
      → Service Bits
      → Option (ℕ × List (ℕ × String) × Service Bits)
  tf_builder_connection_request answer config alive u s =
      if not (accepting_updates s.instance_state)
      then some (error_partition_terminating, [], s)
      else elim (connect_tf_builder answer config alive u s.connections) [
        | none ↦ none
        | some (st, made, c) ↦ some (st, made, record s { connections = c })
      ]

  unfoldable pub tf_builder_disconnection_request :
      (Call → Option ℕ) → TfBuilderStatus → Service Bits → ℕ × Service Bits
  tf_builder_disconnection_request answer u s =
      let (st, c) = disconnect_tf_builder answer u s.connections in
      (st, record s { connections = c })

  unfoldable pub tf_builder_ucx_connection_request :
      (Call → Option ℕ)
      → (String → IpPort)
      → (String → Option String)
      → (String → Bool)
      → TfBuilderStatus
      → Service Bits
      → Option (ℕ × List (String × IpPort) × Service Bits)
  tf_builder_ucx_connection_request answer endpoint config alive u s =
      if not (accepting_updates s.instance_state)
      then some (error_partition_terminating, [], s)
      else elim (connect_tf_builder_ucx answer endpoint config alive u s.connections) [
        | none ↦ none
        | some (st, made, c) ↦ some (st, made, record s { connections = c })
      ]

  unfoldable pub tf_builder_ucx_disconnection_request :
      (Call → Option ℕ) → TfBuilderStatus → Service Bits → ℕ × Service Bits
  tf_builder_ucx_disconnection_request answer u s =
      let (st, c) = disconnect_tf_builder_ucx answer u s.connections in
      (st, record s { connections = c })

  abbrev pub is_ending : Instance Bits → Bool
  is_ending i =
      i.running && (is_same i.partition_state terminating || is_same i.partition_state error)

  -- The first half of a pass of PartitionMonitorThread, with the requests it makes of an ending
  -- partition: whether a TfBuilder and a StfSender answer TerminatePartition.
  unfoldable pub monitor_pass : (String → Bool) → (String → Bool) → Service Bits → Service Bits
  monitor_pass told_builder told_sender s =
      if is_ending s.instance_state
      then (let (told, c) = teardown_pass told_builder told_sender s.connections in
          record { instance_state = monitor_check told s.instance_state; connections = c })
      else record s { instance_state = monitor_check false s.instance_state }

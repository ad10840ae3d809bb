-- ===== src/TfScheduler/Instance.antt =====
-- TfSchedulerInstanceRpcImpl (src/TfScheduler/TfSchedulerInstanceRpc.h and .cxx): the state of the
-- partition, the thread that monitors it and the gRPC service of the scheduler. What the connection
-- manager answers is an argument, and the texts of the responses are left out.
pub mod Lifecycle
use data_distribution.Prelude.{
  ℕ, Bool, true, false, not, ◌||◌, List, [], ◌∷◌, Option, none, some, ◌==◌, nat_eq, if◌then◌else◌,
}
use data_distribution.Common.Bitset.{DynamicBitset}
use data_distribution.TfScheduler.Messages.{
  StfUpdate, StfSenderState, StfInfoStatus, drop_not_running, initializing, incomplete,
}
use data_distribution.TfScheduler.StfInfo.{
  add_stf_info, start as start_stf_info, stop as stop_stf_info,
}
use data_distribution.TfScheduler.TfBuilders.{
  TfBuilderUpdate, update_tf_builder_info, start as start_tf_builders, stop as stop_tf_builders,
}
use data_distribution.TfScheduler.Threads.{World}

-- PartitionState of discovery.proto, the states that an instance can be in.
pub data PartitionState : Type 0 where
  error configuring configured terminating terminated : PartitionState

abbrev pub number : PartitionState → ℕ
number error = 2
number configuring = 4
number configured = 5
number terminating = 6
number terminated = 7

abbrev pub is_same : PartitionState → PartitionState → Bool
is_same s t = number s == number t

-- Where PartitionMonitorThread stands: in front of its look at the partition state, behind it with
-- the state of the StfSenders still to be reported, or at its end.
pub data Monitor : Type 0 where
  checks reports exited : Monitor

-- `persisted` holds the states written to the discovery service, the last one first.
pub record Instance (Bits : Type 0) : Type 0 where
  pub running : Bool
  pub partition_state : PartitionState
  pub persisted : List PartitionState
  pub monitor : Monitor
  pub world : World Bits

abbrev pub is_final : PartitionState → Bool
is_final s = is_same s terminated || is_same s error

abbrev pub is_accepting : PartitionState → Bool
is_accepting s = not (is_same s terminating || is_same s terminated || is_same s error)

-- What one pass of the loop in start() comes to: start() returns true or false, or tries again.
pub data Progress : Type 0 where
  started failed retries : Progress

-- The state of the partition that the connections to the StfSenders amount to.
abbrev pub state_of : StfSenderState → PartitionState
state_of StfSenderState.ok = configured
state_of initializing = configuring
state_of incomplete = error

module _ {Bits : Type 0} ⦃B : DynamicBitset Bits⦄ where
  abbrev pub accepting_updates : Instance Bits → Bool
  accepting_updates i = is_accepting i.partition_state

  unfoldable pub update_partition_state : PartitionState → Instance Bits → Instance Bits
  update_partition_state new i =
      if is_final i.partition_state
      then i
      else if not (is_same new i.partition_state)
      then record i { partition_state = new; persisted = new ∷ i.persisted }
      else i

  -- start() up to its loop.
  unfoldable pub start : Instance Bits → Instance Bits
  start i = record i {
    running = true;
    monitor = checks;
    world = record (i.world) {
      scheduler = start_stf_info i.world.scheduler;
      builders = start_tf_builders i.world.builders;
    };
  }

  -- One pass of that loop: whether all StfSenders could be reached, and whether five minutes are over.
  unfoldable pub start_pass : Bool → Bool → Instance Bits → Progress × Instance Bits
  start_pass reached late i =
      if not (accepting_updates i)
      then (started, i)
      else if reached
      then (started, i)
      else if late
      then (failed, update_partition_state error i)
      else (retries, i)

  -- The state behind stop(), once the monitor thread is joined.
  unfoldable pub stop : Instance Bits → Instance Bits
  stop i = record i {
    running = false;
    monitor = exited;
    world = record (i.world) {
      scheduler = stop_stf_info i.world.scheduler;
      builders = stop_tf_builders i.world.builders;
    };
  }

  -- One pass of PartitionMonitorThread, in two steps, since it takes no lock: the look at the state,
  -- with the teardown, and the report. `told` is whether requestStfSendersTerminate succeeds.
  unfoldable pub monitor_check : Bool → Instance Bits → Instance Bits
  monitor_check told i =
      if not i.running
      then record i { monitor = exited }
      else if is_same i.partition_state terminating || is_same i.partition_state error
      then (if told
          then (if is_same i.partition_state terminating
              then record (update_partition_state terminated i) { monitor = exited }
              else record i { monitor = exited })
          else i)
      else record i { monitor = reports }

  unfoldable pub monitor_report : StfSenderState → Instance Bits → Instance Bits
  monitor_report state i = record (update_partition_state (state_of state) i) { monitor = checks }

  unfoldable pub get_partition_state : StfSenderState → Instance Bits → PartitionState
  get_partition_state state i =
      if not (accepting_updates i) then i.partition_state else state_of state

  -- The answer holds the state of the partition behind the request.
  unfoldable pub terminate_partition : Instance Bits → PartitionState × Instance Bits
  terminate_partition i =
      let i' = if accepting_updates i then update_partition_state terminating i else i in
      (i'.partition_state, i')

  -- NumStfSendersInPartitionRequest, where `none` is Status::CANCELLED.
  unfoldable pub num_stf_senders_in_partition : ℕ → Instance Bits → Option ℕ
  num_stf_senders_in_partition n i = if not (accepting_updates i) then none else some n

  -- The RPC TfBuilderUpdate.
  unfoldable pub tf_builder_update : ℕ → TfBuilderUpdate → Instance Bits → Instance Bits
  tf_builder_update now u i = if not (accepting_updates i) then i else record i {
    world = record (i.world) { builders = update_tf_builder_info now u i.world.builders };
  }

  unfoldable pub stf_sender_stf_update :
      ℕ → StfSenderState → ℕ → StfUpdate → Instance Bits → StfInfoStatus × Instance Bits
  stf_sender_stf_update n state now m i =
      if not (accepting_updates i)
      then (drop_not_running, i)
      else (let (status, s) = add_stf_info n state now m i.world.scheduler in
          (status, record i { world = record (i.world) { scheduler = s } }))

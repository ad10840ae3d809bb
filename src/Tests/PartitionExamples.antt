-- ===== src/Tests/PartitionExamples.antt =====
-- Examples for src/TfScheduler/TfSchedulerInstanceRpc.cxx: a partition from its configuration to its
-- end.
use data_distribution.Prelude.{◌≡◌, refl, true, false, List, [], ◌∷◌, ◌++◌}
use data_distribution.TfScheduler.Messages.{StfSenderState}
use data_distribution.TfScheduler.Instance.{
  Instance, configuring, terminating, terminated, checks, reports, exited, update_partition_state,
  stop, monitor_check, monitor_report, terminate_partition,
}
use data_distribution.TfScheduler.Instance.Lifecycle.{
  Event, looks, tells, terminates, stops, step, run, IsClosed, run-IsClosed, teardown, waits,
}
use data_distribution.Tests.BitVector.{BitVector, bit_vector}
use data_distribution.Tests.SchedulerExamples.{idle}

abbrev pub connecting : Instance BitVector
connecting = record {
  running = true;
  partition_state = configuring;
  persisted = configuring ∷ [];
  monitor = checks;
  world = idle;
}

abbrev life : List Event
life =
    looks false
    ∷ tells StfSenderState.ok
    ∷ terminates
    ∷ looks false
    ∷ looks true
    ∷ tells StfSenderState.ok
    ∷ stops
    ∷ []

abbrev ended : Instance BitVector
ended = record connecting { partition_state = terminated }

run-IsClosed_example : IsClosed (run ended life)
run-IsClosed_example = run-IsClosed ended life (refl, refl)

abbrev about_to_report : Instance BitVector
about_to_report = record connecting { monitor = reports }

teardown_example :
    let end = run connecting ((terminates ∷ waits 3) ++ looks true ∷ []) in
    ((run connecting (terminates ∷ waits 3)).partition_state ≡ terminating)
    × (end.partition_state ≡ terminated)
    × (end.monitor ≡ exited)
teardown_example = teardown connecting 3 refl refl refl

-- The whole life ends in TERMINATED.
life_ends : (run connecting life).partition_state ≡ terminated
unfolding run step stop terminate_partition monitor_check monitor_report update_partition_state
life_ends = refl

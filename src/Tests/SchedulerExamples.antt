-- ===== src/Tests/SchedulerExamples.antt =====
-- Examples for src/TfScheduler/TfSchedulerStfInfo.cxx: two StfSenders, whose updates complete a time
-- frame.
use data_distribution.Prelude.{ℕ, ◌≡◌, refl, true, false, List, [], ◌∷◌, String, arith, Perm}
use data_distribution.Common.ConcurrentQueue.{empty}
use data_distribution.Common.EventRecorder.{init, get_event}
use data_distribution.Common.EventRecorder.Laws.{init-IsValid}
use data_distribution.TfScheduler.Messages.{
  StfUpdate, StfSource, StfSenderState, StfInfoStatus, BuildTfStatus,
}
use data_distribution.TfScheduler.StfInfo.{
  Scheduler, add_stf_info, add_default_stf_info, check_update, admit_update, judge_update,
}
use data_distribution.TfScheduler.StfInfo.Invariant.{IsValid}
use data_distribution.TfScheduler.StfInfo.Preservation.{add_stf_info-IsValid}
use data_distribution.TfScheduler.StfInfo.Queued.{AllQueued, add_stf_info-Queued}
use data_distribution.TfScheduler.StfInfo.Conservation.{pending, update_at, add_stf_info_conserves}
use data_distribution.TfScheduler.TfBuilders.Preservation.{updates}
use data_distribution.TfScheduler.Threads.{World, answered, no_client}
use data_distribution.TfScheduler.Threads.Interleavings.{
  Event, receives, reports, schedules, cleans, drops, Threads, AreSound, run, run-AreSound,
}
use data_distribution.TfScheduler.Threads.Steps.{at_queue}
use data_distribution.Prelude.{◌==◌, nat_eq, string_eq}
use data_distribution.TfScheduler.Messages.{TfBuildingInformation}
use data_distribution.TfScheduler.StfInfo.{StfInfo}
use data_distribution.TfScheduler.StfInfo.Refusals.{is_handled}
use data_distribution.TfScheduler.Threads.{Rpc}
use data_distribution.Tests.BuilderExamples.{two_ready}
use data_distribution.Tests.BitVector.{BitVector, nothing, bit_vector}
use data_distribution.Tests.BuilderExamples.{none_yet, none_yet-IsValid, joining}

abbrev pub sub_time_frame : String → ℕ → StfUpdate
sub_time_frame name stf = record {
  process_id = name;
  run_number = 1;
  stf_id = stf;
  stf_size = 100;
  stfs_info = record { buffer_size = 1000; buffer_used = 10 };
  stf_source = StfSource.default;
  data_origin = "TST";
  data_subspec = 0;
}

abbrev pub waiting : Scheduler BitVector
waiting = record {
  running = true;
  drop_queue = empty;
  watermark = false;
  stf_info_map = [];
  stf_sender_info_map = [];
  run_number = 1;
  last_stf_id = 0;
  max_completed_tf_id = 0;
  not_scheduled_tfs_count = 0;
  stale_tf_count = 0;
  dropped_stfs = init nothing 100;
  built_tfs = init nothing 100;
  complete_stfs_info_queue = empty;
  topo_stf_info_queue = empty;
}

pub waiting-IsValid : IsValid 2 waiting
waiting-IsValid = record {
  ascends = tt;
  entries = tt;
  bounded = tt;
  not_dropped = tt;
  not_built = tt;
  dropped_recorder = init-IsValid nothing 100 refl;
  built_recorder = init-IsValid nothing 100 refl;
}

abbrev pub idle : World BitVector
idle = record { scheduler = waiting; builders = none_yet; disconnected = [] }

add_stf_info-IsValid_example :
    IsValid 2 (add_stf_info 2 StfSenderState.ok 100 (sub_time_frame "s1" 7) waiting).1
add_stf_info-IsValid_example =
    add_stf_info-IsValid 2 StfSenderState.ok 100 (sub_time_frame "s1" 7) (omega arith) (omega arith)
      waiting-IsValid

add_stf_info-Queued_example :
    AllQueued 2 (add_stf_info 2 StfSenderState.ok 100 (sub_time_frame "s1" 7) waiting).1
add_stf_info-Queued_example =
    add_stf_info-Queued 2 StfSenderState.ok 100 (sub_time_frame "s1" 7) waiting (omega arith)
      (omega arith) waiting-IsValid tt

accepted :
    (add_stf_info 2 StfSenderState.ok 100 (sub_time_frame "s1" 7) waiting).0 ≡ StfInfoStatus.ok
unfolding add_stf_info add_default_stf_info check_update get_event init admit_update judge_update
accepted = refl

add_stf_info_conserves_example :
    Perm
      (pending (add_stf_info 2 StfSenderState.ok 100 (sub_time_frame "s1" 7) waiting).1)
      (update_at 100 (sub_time_frame "s1" 7) ∷ pending waiting)
add_stf_info_conserves_example =
    add_stf_info_conserves 2 StfSenderState.ok 100 (sub_time_frame "s1" 7) waiting refl refl tt refl
      accepted

abbrev day : List Event
day =
    reports (updates 90 joining)
    ∷ receives StfSenderState.ok 100 (sub_time_frame "s1" 7)
    ∷ receives StfSenderState.ok 110 (sub_time_frame "s2" 7)
    ∷ schedules false (λ name request. no_client)
    ∷ receives StfSenderState.ok 120 (sub_time_frame "s1" 8)
    ∷ schedules false (λ name request. no_client)
    ∷ cleans 9000 500
    ∷ schedules false (λ name request. no_client)
    ∷ drops
    ∷ schedules false (λ name request. no_client)
    ∷ []

abbrev threads : Threads BitVector
threads = record { world = idle; scheduling = at_queue; topo = at_queue }

run-AreSound_example : AreSound 2 (run 2 threads day)
run-AreSound_example =
    run-AreSound 2 day threads (omega arith)
      (tt, (omega arith, (omega arith, (tt, (omega arith, (tt, (tt, (tt, (tt, (tt, tt))))))))))
      (record {
        sound = record { ready = (waiting-IsValid, tt); known = none_yet-IsValid };
        scheduling = tt;
        topo = tt;
      })

abbrev full : StfUpdate
full = record (sub_time_frame "s1" 7) {
  stfs_info = record { buffer_size = 1000; buffer_used = 990 };
}

abbrev seven_dropped : Scheduler BitVector
seven_dropped = record waiting {
  dropped_stfs = record { first_event = 7; records = record { count = 100; bit = λ i. i == 0 } };
}

seven_handled : is_handled 7 seven_dropped ≡ true
unfolding get_event
seven_handled = refl

abbrev seven_complete : List StfInfo
seven_complete = update_at 100 (sub_time_frame "s1" 7) ∷ update_at 110 (sub_time_frame "s2" 7) ∷ []

abbrev staffed : World BitVector
staffed = record idle { builders = two_ready }

abbrev agrees : String → TfBuildingInformation → Rpc
agrees name request = answered BuildTfStatus.ok

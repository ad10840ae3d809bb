-- ===== src/Tests/RpcExamples.antt =====
-- Examples for src/TfBuilder/TfBuilderRpc.cxx.
use data_distribution.Prelude.{
  ◌+◌, ◌<◌, ◌≡◌, refl, Bool, true, false, List, [], ◌∷◌, ◌++◌, ◌==◌, nat_eq, string_eq, arith,
  length, Perm, find, insert, remove,
}
use data_distribution.Prelude.{◌⊎◌, List, true, false}
use data_distribution.Common.ConcurrentQueue.{empty}
use data_distribution.TfScheduler.Messages.{TfBuildingInformation, StfSource}
use data_distribution.TfBuilder.Rpc.{
  TfBuilderRpc, StfRequest, record_tf_built, record_tf_forwarded, reset_run_counters, request_stfs,
  stf_requests,
}
use data_distribution.TfBuilder.Rpc.Accounting.{
  Event, builds, forwards, resets, step, run, Fits, IsBalanced, run-IsBalanced, overrun, total,
}
use data_distribution.TfBuilder.Rpc.Requests.{senders, request_stfs_asks_all}

abbrev pub ready : TfBuilderRpc
ready = record {
  running = true;
  terminate_requested = false;
  accepting_tfs = true;
  buffer_size = 1000;
  current_tf_buffer_size = 1000;
  last_built_tf_id = 0;
  num_buffered_tfs = 0;
  num_tfs_in_building = 0;
  tf_id_sizes = [];
  topo_stf_id = 1;
  topo_tf_id_rename_map = [];
  stfs_count_map = [];
  stf_request_queue = empty;
  received_data_queue = empty;
  stf_input_queue = empty;
}

ready-IsBalanced : IsBalanced ready
ready-IsBalanced = record { bounded = omega arith; sizes = refl; counted = refl; unique = tt }

abbrev building : TfBuildingInformation
building = record {
  tf_id = 7;
  tf_size = 300;
  stf_size_map = ("s1", 200) ∷ ("s2", 100) ∷ [];
  tf_source = StfSource.default;
}

abbrev work : List Event
work = builds 7 300 ∷ builds 8 600 ∷ forwards 7 ∷ forwards 9 ∷ resets ∷ builds 7 1000 ∷ []

work-Fits : Fits ready work
unfolding find insert remove step record_tf_built record_tf_forwarded reset_run_counters
work-Fits = (refl, omega arith, (refl, omega arith, (refl, omega arith, tt)))

run-IsBalanced_example : IsBalanced (run ready work)
run-IsBalanced_example = run-IsBalanced ready work work-Fits ready-IsBalanced

overrun_example :
    let r' = run ready (builds 7 1500 ∷ forwards 7 ∷ []) in
    (r'.current_tf_buffer_size ≡ 1500)
    × (ready.buffer_size < r'.current_tf_buffer_size + total r'.tf_id_sizes)
unfolding find
overrun_example = overrun 7 1500 ready ready-IsBalanced refl refl (omega arith) (omega arith)

abbrev wanted : List StfRequest
wanted = stf_requests building.tf_id building.stf_size_map

abbrev answers : StfRequest → Bool
answers q = q.stf_sender_id == "s2"

request_stfs_asks_all_example :
    let (calls, expected, input') =
      request_stfs (length wanted) (λ n. true) (λ n. 5) answers wanted [] 0 ready.stf_input_queue in
    (left : List StfRequest) × Perm (calls ++ left) wanted
    × ((left ≡ []) ⊎ (true ≡ false))
    × (expected ≡ length (senders answers calls))
    × (input'.container ≡ ready.stf_input_queue.container ++ senders answers calls)
request_stfs_asks_all_example =
    request_stfs_asks_all (λ n. true) (λ n. 5) answers wanted ready.stf_input_queue refl

abbrev topological_one : TfBuildingInformation
topological_one = record {
  tf_id = 7;
  tf_size = 200;
  stf_size_map = ("s1", 200) ∷ [];
  tf_source = StfSource.topological;
}

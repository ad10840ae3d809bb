-- ===== src/TfBuilder/Rpc.antt =====
-- TfBuilderRpcImpl (src/TfBuilder/TfBuilderRpc.h and .cxx): the accounting of the memory that the time
-- frames take, the requests to build one, the new ids of topological SubTimeFrames, and the thread
-- that requests SubTimeFrames from the StfSenders. Each method is one step on the state.
pub mod Accounting
pub mod Requests
pub mod TopoIds
use data_distribution.Prelude.{
  ℕ, zero, suc, ◌+◌, ◌-◌, ◌%◌, ◌^◌, Bool, true, false, not, ◌||◌, List, [], ◌∷◌, ◌++◌, Option, none,
  some, String, ◌==◌, nat_eq, string_eq, ltb, leb, if◌then◌else◌, find, remove, insert, max, min,
  add64, length,
}
use data_distribution.Common.ConcurrentQueue.{Queue, fifo, push}
use data_distribution.TfScheduler.Messages.{
  TfBuildingInformation, BuildTfStatus, error_nomem, error_not_running, is_topological,
}
use data_distribution.TfScheduler.TfBuilders.{
  TfBuilderUpdate, ProcessState, running as is_running, not_running,
}

-- The request message holds, besides the TfBuilder's id, that of the time frame.
pub record StfRequest : Type 0 where
  pub stf_sender_id : String
  pub stf_data_size : ℕ
  pub stf_id : ℕ

-- ReceivedStfMeta, the two types that TfBuilderRpcImpl sends.
pub data ReceivedStfMeta : Type 0 where
  add delete : ℕ → ReceivedStfMeta

-- The counters are uint64, but num_buffered_tfs, which is uint32, and num_tfs_in_building, an int32
-- that is never negative.
pub record TfBuilderRpc : Type 0 where
  pub running : Bool
  pub terminate_requested : Bool
  pub accepting_tfs : Bool
  pub buffer_size : ℕ
  pub current_tf_buffer_size : ℕ
  pub last_built_tf_id : ℕ
  pub num_buffered_tfs : ℕ
  pub num_tfs_in_building : ℕ
  pub tf_id_sizes : List (ℕ × ℕ)
  pub topo_stf_id : ℕ
  pub topo_tf_id_rename_map : List (String × List (ℕ × ℕ))
  pub stfs_count_map : List (ℕ × ℕ)
  pub stf_request_queue : Queue (ℕ × Bool × ℕ × List StfRequest)
  pub received_data_queue : Queue ReceivedStfMeta
  pub stf_input_queue : Queue String

abbrev pub u32_mod : ℕ
u32_mod = 2 ^ 32

-- start(), for connections that could be made.
unfoldable pub start : ℕ → TfBuilderRpc → TfBuilderRpc
start size r = record r { buffer_size = size; current_tf_buffer_size = size; running = true }

-- mTfBuildRequests, which nothing fills, is left out.
unfoldable pub reset_run_counters : TfBuilderRpc → TfBuilderRpc
reset_run_counters r = record r {
  tf_id_sizes = [];
  current_tf_buffer_size = r.buffer_size;
  last_built_tf_id = 0;
  num_buffered_tfs = 0;
  num_tfs_in_building = 0;
  topo_stf_id = 1;
  topo_tf_id_rename_map = [];
}

-- The message of sendTfBuilderUpdate, where `free_data` is what the memory resource has left.
unfoldable pub tf_builder_update : String → ℕ → TfBuilderRpc → TfBuilderUpdate
tf_builder_update process_id free_data r = record {
  process_id = process_id;
  process_state = if r.accepting_tfs then is_running else not_running;
  last_built_tf_id = r.last_built_tf_id;
  free_memory = min r.current_tf_buffer_size free_data;
  num_tfs_in_building = r.num_tfs_in_building;
}

unfoldable pub start_accepting_tfs : TfBuilderRpc → TfBuilderRpc
start_accepting_tfs r = record r { accepting_tfs = true }

unfoldable pub stop_accepting_tfs : TfBuilderRpc → TfBuilderRpc
stop_accepting_tfs r = record r { accepting_tfs = false }

unfoldable pub terminate_partition : TfBuilderRpc → TfBuilderRpc
terminate_partition r = record r { terminate_requested = true }

-- recordTfBuilt, for a time frame of that id and size. The request times that it erases are left out.
unfoldable pub record_tf_built : ℕ → ℕ → TfBuilderRpc → Bool × TfBuilderRpc
record_tf_built tf_id tf_size r = if not r.running then (false, r) else (
  true,
  record r {
    current_tf_buffer_size =
        if leb tf_size r.current_tf_buffer_size then r.current_tf_buffer_size - tf_size else 0;
    num_tfs_in_building = r.num_tfs_in_building - 1;
    tf_id_sizes = insert tf_id tf_size r.tf_id_sizes;
    num_buffered_tfs = (r.num_buffered_tfs + 1) % u32_mod;
    last_built_tf_id = max r.last_built_tf_id tf_id;
  },
)

unfoldable pub record_tf_forwarded : ℕ → TfBuilderRpc → Bool × TfBuilderRpc
record_tf_forwarded tf_id r =
    if not r.running then (false, r) else elim (find tf_id r.tf_id_sizes) [
      | none ↦ (false, r)
      | some tf_size ↦ (
        true,
        record r {
          current_tf_buffer_size = add64 r.current_tf_buffer_size tf_size;
          tf_id_sizes = remove tf_id r.tf_id_sizes;
          num_buffered_tfs = (r.num_buffered_tfs + (u32_mod - 1)) % u32_mod;
        },
      )
    ]

-- std::sort by size, with requests of one size in the order in which they came.
unfoldable pub insert_by_size : StfRequest → List StfRequest → List StfRequest
insert_by_size q [] = q ∷ []
insert_by_size q (p ∷ ps) =
    if ltb p.stf_data_size q.stf_data_size then p ∷ insert_by_size q ps else q ∷ p ∷ ps

unfoldable pub sort_by_size : List StfRequest → List StfRequest
unfolding insert_by_size
sort_by_size [] = []
sort_by_size (q ∷ qs) = insert_by_size q (sort_by_size qs)

abbrev pub stf_requests : ℕ → List (String × ℕ) → List StfRequest
stf_requests tf_id [] = []
stf_requests tf_id (p ∷ m) =
    record { stf_sender_id = p.0; stf_data_size = p.1; stf_id = tf_id } ∷ stf_requests tf_id m

abbrev pub renamed : Option (List (ℕ × ℕ)) → List (ℕ × ℕ)
renamed none = []
renamed (some m) = m

-- The entry of the rename map; the source takes begin() of stf_size_map, which has an entry.
unfoldable pub rename_topo : List (String × ℕ) → ℕ → TfBuilderRpc → TfBuilderRpc
rename_topo [] tf_id r = r
rename_topo (p ∷ m) tf_id r = record r {
  topo_tf_id_rename_map =
      insert p.0 (insert tf_id r.topo_stf_id (renamed (find p.0 r.topo_tf_id_rename_map)))
        r.topo_tf_id_rename_map;
  received_data_queue = (push fifo r.received_data_queue (add r.topo_stf_id)).1;
  topo_stf_id = add64 r.topo_stf_id 1;
}

-- What BuildTfRequest does once the request is accepted.
unfoldable pub enqueue_request : TfBuildingInformation → TfBuilderRpc → TfBuilderRpc
unfolding rename_topo sort_by_size
enqueue_request q r =
    let requests = sort_by_size (stf_requests q.tf_id q.stf_size_map) in
    if is_topological q.tf_source
    then (let r' = rename_topo q.stf_size_map q.tf_id r in
        record r' {
          stf_request_queue =
              (push fifo r'.stf_request_queue (q.tf_id, true, r.topo_stf_id, requests)).1;
        })
    else record r {
      received_data_queue = (push fifo r.received_data_queue (add q.tf_id)).1;
      stf_request_queue = (push fifo r.stf_request_queue (q.tf_id, false, q.tf_id, requests)).1;
    }

unfoldable pub build_tf_request :
    TfBuildingInformation → TfBuilderRpc → BuildTfStatus × TfBuilderRpc
unfolding enqueue_request
build_tf_request q r =
    if not r.running || r.terminate_requested
    then (error_not_running, r)
    else if ltb r.current_tf_buffer_size q.tf_size
    then (error_nomem, r)
    else (
      BuildTfStatus.ok,
      enqueue_request q (record r { num_tfs_in_building = r.num_tfs_in_building + 1 }),
    )

unfoldable pub set_number_of_stfs : ℕ → Option ℕ → TfBuilderRpc → TfBuilderRpc
set_number_of_stfs tf_id none r = record r { stfs_count_map = remove tf_id r.stfs_count_map }
set_number_of_stfs tf_id (some n) r = record r { stfs_count_map = insert tf_id n r.stfs_count_map }

unfoldable pub get_number_of_stfs : ℕ → TfBuilderRpc → Option ℕ
get_number_of_stfs tf_id r = find tf_id r.stfs_count_map

-- `none` is a failed assert: there is no such id to rename.
unfoldable pub get_id_for_topo_tf : String → ℕ → TfBuilderRpc → Option (ℕ × TfBuilderRpc)
get_id_for_topo_tf stf_sender_id tf_id r = elim (find stf_sender_id r.topo_tf_id_rename_map) [
  | none ↦ none
  | some m ↦ elim (find tf_id m) [
    | none ↦ none
    | some id ↦ some (
      id,
      record r {
        topo_tf_id_rename_map = insert stf_sender_id (remove tf_id m) r.topo_tf_id_rename_map;
      },
    )
  ]
]

-- The element of an index, and the others. No index is past the end.
unfoldable pub take_at {ℓ} : {A : Type ℓ} → ℕ → A → List A → A × List A
take_at zero x xs = (x, xs)
take_at (suc k) x [] = (x, [])
take_at (suc k) x (y ∷ ys) = let (z, zs) = take_at k y ys in (z, x ∷ zs)

-- The loop of StfRequestThread over the requests of a time frame, while the TfBuilder runs and has
-- transfers to spare: `running` says whether mRunning is still set with that many requests left, `pick`
-- is the random number drawn then, and `ask` says whether the StfSender could be reached and answered
-- OK. The first number is the fuel, which is the number of the requests. The result is the calls of
-- StfDataRequest in their order, lNumExpectedStfs and the queue of the input stage.
unfoldable pub request_stfs :
    ℕ
    → (ℕ → Bool)
    → (ℕ → ℕ)
    → (StfRequest → Bool)
    → List StfRequest
    → List StfRequest
    → ℕ
    → Queue String
    → List StfRequest × ℕ × Queue String
unfolding take_at
request_stfs fuel running pick ask [] calls expected input = (calls, expected, input)
request_stfs zero running pick ask (q ∷ qs) calls expected input = (calls, expected, input)
request_stfs (suc fuel) running pick ask (q ∷ qs) calls expected input =
    let left = suc (length qs) in
    let (next, rest) = take_at (pick left % left) q qs in
    let asked : ℕ × Queue String =
      if ask next
      then (expected + 1, (push fifo input next.stf_sender_id).1)
      else (expected, input) in
    let others = request_stfs fuel running pick ask rest (calls ++ next ∷ []) asked.0 asked.1 in
    if running left then others else (calls, expected, input)

-- Behind the loop: the number of SubTimeFrames to wait for, and no waiting where there is none.
unfoldable pub conclude_requests : ℕ → Bool → ℕ → String → ℕ → TfBuilderRpc → TfBuilderRpc
unfolding set_number_of_stfs
conclude_requests tf_id is_topo renamed_id sender expected r =
    let r' = set_number_of_stfs (if is_topo then renamed_id else tf_id) (some expected) r in
    if expected == 0
    then (if is_topo
        then record r' {
          topo_tf_id_rename_map =
              insert sender (remove tf_id (renamed (find sender r'.topo_tf_id_rename_map)))
                r'.topo_tf_id_rename_map;
          received_data_queue = (push fifo r'.received_data_queue (delete renamed_id)).1;
        }
        else record r' {
          received_data_queue = (push fifo r'.received_data_queue (delete tf_id)).1;
        })
    else r'

abbrev pub first_sender : List StfRequest → String
first_sender [] = ""
first_sender (q ∷ qs) = q.stf_sender_id

-- What StfRequestThread does with an entry of its queue.
unfoldable pub handle_request :
    (ℕ → Bool)
    → (ℕ → ℕ)
    → (StfRequest → Bool)
    → ℕ × Bool × ℕ × List StfRequest
    → TfBuilderRpc
    → TfBuilderRpc
unfolding request_stfs conclude_requests
handle_request running pick ask (tf_id, is_topo, renamed_id, requests) r =
    let (calls, expected, input) =
      request_stfs (length requests) running pick ask requests [] 0 r.stf_input_queue in
    conclude_requests tf_id is_topo renamed_id (if is_topo then first_sender requests else "")
      expected (record r { stf_input_queue = input })

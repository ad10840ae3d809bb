-- ===== src/StfSender/Output.antt =====
-- StfSenderOutput (src/StfSender/StfSenderOutput.h and .cxx): the SubTimeFrames that wait for the
-- decision of the scheduler. Each step holds mScheduledStfMapLock; between the two steps of an
-- announcement, other threads may act. What the scheduler and the transport answer is an argument.
pub mod Conservation
use data_distribution.Prelude.{
  ℕ, ◌+◌, ◌-◌, ◌%◌, ◌^◌, Bool, true, false, not, List, [], ◌∷◌, Option, none, some, String, ◌==◌,
  nat_eq, string_eq, if◌then◌else◌, find, remove, put, add64, sub64,
}
use data_distribution.Common.ConcurrentQueue.{
  Queue, Popped, waits, closed, got, fifo, push, pop, stop as stop_queue,
}

-- SubTimeFrame::Header::Origin
pub data Origin : Type 0 where
  readout readout_topology null unknown : Origin

-- What the output reads of a SubTimeFrame.
pub record SubTimeFrame : Type 0 where
  pub stf_id : ℕ
  pub data_size : ℕ
  pub origin : Origin
  pub num_equipments : ℕ

-- The counters are uint64 for sizes and uint32 for counts. `handed_over` and `deleted` are no fields
-- of the source: the SubTimeFrames that went to the transport, and those that StfDropThread freed.
pub record Output : Type 0 where
  pub last_stf_id : ℕ
  pub scheduled_stf_map : List (ℕ × SubTimeFrame)
  pub drop_queue : Queue SubTimeFrame
  pub buffered_size : ℕ
  pub buffered_cnt : ℕ
  pub in_sending_size : ℕ
  pub in_sending_cnt : ℕ
  pub missing : ℕ
  pub handed_over : List SubTimeFrame
  pub deleted : List SubTimeFrame

abbrev pub add32 : ℕ → ℕ → ℕ
add32 a b = (a + b) % 2 ^ 32

-- StfDataResponse::StfDataStatus
pub data StfDataStatus : Type 0 where
  ok data_dropped_unknown data_dropped_scheduler tf_builder_unknown : StfDataStatus

unfoldable pub enqueue_drop : SubTimeFrame → Output → Output
enqueue_drop stf o = record o { drop_queue = (push fifo o.drop_queue stf).1 }

-- The counters at the head of the loop. The count of missing ones is a uint32.
unfoldable pub count_in : SubTimeFrame → Output → Output
count_in stf o = record o {
  missing = add32 o.missing (sub64 (sub64 stf.stf_id o.last_stf_id) 1);
  last_stf_id = stf.stf_id;
  buffered_size = add64 o.buffered_size stf.data_size;
  buffered_cnt = add32 o.buffered_cnt 1;
}

-- Whether a SubTimeFrame of that origin can be announced.
abbrev pub is_announceable : Origin → ℕ → Bool
is_announceable readout n = true
is_announceable readout_topology n = n == 1
is_announceable null n = true
is_announceable unknown n = false

-- StfSchedulerThread up to the announcement: the SubTimeFrame goes to the triage map or is dropped.
unfoldable pub triage : Bool → SubTimeFrame → Output → Output
unfolding count_in enqueue_drop
triage is_ready stf o =
    let o' = count_in stf o in
    if not is_ready
    then enqueue_drop stf o'
    else if not (is_announceable stf.origin stf.num_equipments)
    then enqueue_drop stf o'
    else elim (find stf.stf_id o.scheduled_stf_map) [
      | some other ↦ enqueue_drop stf o'
      | none ↦ record o' { scheduled_stf_map = put stf.stf_id stf o.scheduled_stf_map }
    ]

-- Behind the announcement: the scheduler rejected it, or could not be reached.
unfoldable pub reject : ℕ → Output → Output
unfolding enqueue_drop
reject stf_id o = elim (find stf_id o.scheduled_stf_map) [
  | none ↦ o
  | some stf ↦ enqueue_drop stf (record o { scheduled_stf_map = remove stf_id o.scheduled_stf_map })
]

-- sendStfToTfBuilder, where "-1" asks to drop; `is_known` is what the transport answers.
unfoldable pub send_stf_to_tf_builder : ℕ → String → Bool → Output → StfDataStatus × Output
unfolding enqueue_drop
send_stf_to_tf_builder stf_id tf_builder_id is_known o = elim (find stf_id o.scheduled_stf_map) [
  | none ↦ ((if tf_builder_id == "-1" then data_dropped_scheduler else data_dropped_unknown), o)
  | some stf ↦
      let o' = record o { scheduled_stf_map = remove stf_id o.scheduled_stf_map } in
      if tf_builder_id == "-1"
      then (data_dropped_scheduler, enqueue_drop stf o')
      else if not is_known
      then (tf_builder_unknown, enqueue_drop stf o')
      else (
        ok,
        record o' {
          handed_over = stf ∷ o.handed_over;
          in_sending_size = add64 o.in_sending_size stf.data_size;
          in_sending_cnt = add32 o.in_sending_cnt 1;
        },
      )
]

abbrev pub delete_stf : SubTimeFrame → Output → Output
delete_stf stf o = record o {
  deleted = stf ∷ o.deleted;
  buffered_size = sub64 o.buffered_size stf.data_size;
  buffered_cnt = add32 o.buffered_cnt (2 ^ 32 - 1);
}

-- One round of StfDropThread.
unfoldable pub drop_round : Output → Output
drop_round o =
    let (r, queue) = pop o.drop_queue in
    elim r [ waits ↦ o | closed ↦ o | got stf ↦ delete_stf stf (record o { drop_queue = queue }) ]

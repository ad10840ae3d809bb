-- ===== src/TfBuilder/Input.antt =====
-- TfBuilderInput (src/TfBuilder/TfBuilderInput.h and .cxx): one pass of each of its threads, which
-- collect the received SubTimeFrames by time frame and merge them. The transports and what
-- deserializing a message gives, which may be nothing, are arguments, and monitoring is left out.
pub mod Building
pub mod Safety
use data_distribution.Prelude.{
  ℕ, Bool, true, false, not, String, ◌==◌, nat_eq, List, [], ◌∷◌, ◌++◌, Option, none, some,
  if◌then◌else◌, ltb, length, find, remove, put, max,
}
use data_distribution.Common.ConcurrentQueue.{
  Queue, Popped, waits, closed, got, fifo, push, pop, start as start_queue, stop as stop_queue,
  flush,
}
use data_distribution.Common.SubTimeFrame.{
  SubTimeFrame, Origin, readout_topology, update_id, merge_stf, get_data_size,
}
use data_distribution.TfBuilder.Rpc.{
  TfBuilderRpc, get_id_for_topo_tf, get_number_of_stfs, set_number_of_stfs, record_tf_built,
  start_accepting_tfs, stop_accepting_tfs,
}

-- ReceivedStfMeta of type INFO. The header and the data of the message are one, `received`, which is
-- gone once it has been deserialized.
pub record ReceivedStf (Raw : Type 0) : Type 0 where
  pub stf_id : ℕ
  pub origin : Origin
  pub stf_sender_id : String
  pub received : Option Raw
  pub stf : Option SubTimeFrame

pub data Meta (Raw : Type 0) : Type 0 where
  add delete : ℕ → Meta Raw
  info : ReceivedStf Raw → Meta Raw

-- `forwarded` is no field of the source: the time frames queued to the next stage of the device.
pub record Input (Raw : Type 0) : Type 0 where
  pub running : Bool
  pub stf_merge_map : List (ℕ × List (ReceivedStf Raw))
  pub stf_merger_run : Bool
  pub max_merged_tf_id : ℕ
  pub stfs_for_merging : Queue (List (ReceivedStf Raw))
  pub rpc : TfBuilderRpc
  pub forwarded : List SubTimeFrame

abbrev pub is_topo : Origin → Bool
is_topo readout_topology = true
is_topo Origin.invalid = false
is_topo Origin.readout = false
is_topo Origin.null = false

module _ {Raw : Type 0} where
  abbrev pub stfs_of : Option (List (ReceivedStf Raw)) → List (ReceivedStf Raw)
  stfs_of none = []
  stfs_of (some v) = v

  unfoldable pub start : Input Raw → Input Raw
  start i = record i {
    running = true;
    stf_merge_map = [];
    stfs_for_merging = start_queue i.stfs_for_merging;
    rpc = start_accepting_tfs i.rpc;
  }

  -- The state behind stop(), once the threads are joined.
  unfoldable pub stop : Input Raw → Input Raw
  stop i = record i {
    running = false;
    stf_merge_map = [];
    stf_merger_run = true;
    stfs_for_merging = stop_queue i.stfs_for_merging;
    rpc = stop_accepting_tfs i.rpc;
  }

  unfoldable pub reset : Input Raw → Input Raw
  reset i = record i {
    stf_merge_map = [];
    max_merged_tf_id = 0;
    stfs_for_merging = (flush i.stfs_for_merging).1;
  }

  -- The end of a pass of StfPacingThread, for a SubTimeFrame with the id it keeps.
  unfoldable pub queue_for_merging : ReceivedStf Raw → Input Raw → Input Raw
  queue_for_merging s i = record i {
    stf_merge_map =
        if ltb i.max_merged_tf_id s.stf_id
        then put s.stf_id (stfs_of (find s.stf_id i.stf_merge_map) ++ s ∷ []) i.stf_merge_map
        else remove s.stf_id i.stf_merge_map;
    stf_merger_run = true;
  }

  -- What IovDeserializer makes of the message, where `none` is a null pointer.
  abbrev pub deserialized : (Raw → Option SubTimeFrame) → Option Raw → Option SubTimeFrame
  deserialized deserialize none = none
  deserialized deserialize (some raw) = deserialize raw

  -- A pass of StfPacingThread for a message, where `none` is a failed assert of the RPC, there being no
  -- id to rename, or the use of a null pointer, where a topological STF cannot be deserialized. The
  -- other asserts are left out.
  unfoldable pub pace : (Raw → Option SubTimeFrame) → Meta Raw → Input Raw → Option (Input Raw)
  pace deserialize (add id) i =
      some (record i { stf_merge_map = put id (stfs_of (find id i.stf_merge_map)) i.stf_merge_map })
  pace deserialize (delete id) i = some (record i { stf_merge_map = remove id i.stf_merge_map })
  pace deserialize (info s) i =
      if is_topo s.origin
      then elim (get_id_for_topo_tf s.stf_sender_id s.stf_id i.rpc) [
        | none ↦ none
        | some (id, rpc) ↦ elim (deserialized deserialize s.received) [
          | none ↦ none
          | some f ↦ some (
              queue_for_merging
                (record s { stf_id = id; received = none; stf = some (update_id id f) })
                (record i { rpc = rpc }))
        ]
      ]
      else some (queue_for_merging s i)

  -- A null pointer is what deserialize returns when it fails, and the message is gone then too. `none`
  -- is the use of a message that is gone.
  unfoldable pub deserialize_header :
      (Raw → Option SubTimeFrame) → ReceivedStf Raw → Option (ReceivedStf Raw)
  deserialize_header deserialize s = elim s.stf [
    | some f ↦ some s
    | none ↦ elim s.received [
      | none ↦ none
      | some raw ↦ some (record s { received = none; stf = deserialize raw })
    ]
  ]

  unfoldable pub deserialize_headers :
      (Raw → Option SubTimeFrame) → List (ReceivedStf Raw) → Option (List (ReceivedStf Raw))
  deserialize_headers deserialize [] = some []
  deserialize_headers deserialize (s ∷ ss) = elim (deserialize_header deserialize s) [
    | none ↦ none
    | some t ↦ elim (deserialize_headers deserialize ss) [ none ↦ none | some ts ↦ some (t ∷ ts) ]
  ]

  -- A pass of StfDeserializingThread behind its wait, where `none` is the use of a message that is gone.
  unfoldable pub complete_first : (Raw → Option SubTimeFrame) → Input Raw → Option (Input Raw)
  complete_first deserialize i = elim i.stf_merge_map [
    | [] ↦ some (record i { stf_merger_run = false })
    | p ∷ m ↦ elim (deserialize_headers deserialize p.1) [
      | none ↦ none
      | some v ↦ elim (get_number_of_stfs p.0 i.rpc) [
        | none ↦ some (record i { stf_merge_map = (p.0, v) ∷ m; stf_merger_run = true })
        | some n ↦
            if length v == n
            then some (record i {
              stf_merge_map = m;
              stf_merger_run = false;
              stfs_for_merging = (push fifo i.stfs_for_merging v).1;
              rpc = set_number_of_stfs p.0 none i.rpc;
            })
            else some (record i { stf_merge_map = (p.0, v) ∷ m; stf_merger_run = false })
      ]
    ]
  ]

  -- The loop over the other SubTimeFrames, where `none` is the use of a null pointer.
  unfoldable pub merge_rest : SubTimeFrame → List (ReceivedStf Raw) → Option SubTimeFrame
  merge_rest tf [] = some tf
  merge_rest tf (s ∷ ss) = elim s.stf [ none ↦ none | some f ↦ merge_rest (merge_stf tf f) ss ]

  -- The time frame behind recordTfBuilt, which asks for its size.
  unfoldable pub build_tf : SubTimeFrame → Input Raw → Input Raw
  build_tf tf i =
      let (size, tf') = get_data_size tf in
      record i {
        max_merged_tf_id = max i.max_merged_tf_id tf.header.id;
        rpc = (record_tf_built tf.header.id size i.rpc).1;
        forwarded = i.forwarded ++ tf' ∷ [];
      }

  unfoldable pub merge_vector : List (ReceivedStf Raw) → Input Raw → Option (Input Raw)
  merge_vector [] i = none
  merge_vector (s ∷ ss) i = elim s.stf [
    | none ↦ some i
    | some f ↦ elim (merge_rest f ss) [ none ↦ none | some tf ↦ some (build_tf tf i) ]
  ]

  -- A pass of StfMergerThread, where `none` is the use of a null pointer or of an empty vector.
  unfoldable pub merge_next : Input Raw → Option (Input Raw)
  merge_next i =
      let (popped, q) = pop i.stfs_for_merging in
      let i' : Input Raw = record i { stfs_for_merging = q } in
      elim popped [ waits ↦ some i' | closed ↦ some i' | got v ↦ merge_vector v i' ]

-- ===== src/TfScheduler/Messages.antt =====
-- The protobuf messages and enumerations of src/common/discovery/discovery.proto that the scheduler
-- and its clients exchange, with the fields that the modelled code reads. IGNORE values and IDs of
-- protobuf are left out, but for the sources, where the code tells apart what is TOPOLOGICAL only.
use data_distribution.Prelude.{ℕ, String, List, Bool, true, false}

pub data StfSource : Type 0 where
  ignore default empty topological : StfSource

abbrev pub is_topological : StfSource → Bool
is_topological topological = true
is_topological ignore = false
is_topological default = false
is_topological empty = false

pub record StfSenderInfo : Type 0 where
  pub buffer_size : ℕ
  pub buffer_used : ℕ

-- StfSenderStfInfo. The origin and sub-specification are those of its only stf_source_info entry,
-- which the code reads for topological sources.
pub record StfUpdate : Type 0 where
  pub process_id : String
  pub run_number : ℕ
  pub stf_id : ℕ
  pub stf_size : ℕ
  pub stfs_info : StfSenderInfo
  pub stf_source : StfSource
  pub data_origin : String
  pub data_subspec : ℕ

-- SchedulerStfInfoResponse::StfInfoStatus, the values that the scheduler sends.
pub data StfInfoStatus : Type 0 where
  ok drop_not_running drop_sched_discarded drop_stfs_incomplete drop_stfs_buffer_full :
      StfInfoStatus

-- TfBuildingInformation
pub record TfBuildingInformation : Type 0 where
  pub tf_id : ℕ
  pub tf_size : ℕ
  pub stf_size_map : List (String × ℕ)
  pub tf_source : StfSource

-- BuildTfResponse::TfBuildingStatus; protobuf enums are open, so there may be others.
pub data BuildTfStatus : Type 0 where
  ok error_nomem error_not_running other : BuildTfStatus

-- StfSenderState of src/TfScheduler/TfSchedulerConnManager.h
pub data StfSenderState : Type 0 where
  ok initializing incomplete : StfSenderState

-- ===== src/Tests/InputExamples.antt =====
-- Examples for src/TfBuilder/TfBuilderInput.cxx and src/common/SubTimeFrameDataModel.cxx: time frames of
-- two SubTimeFrames.
use data_distribution.Prelude.{
  ℕ, ◌+◌, ◌%◌, true, false, [], ◌∷◌, ◌++◌, Option, none, some, ◌≡◌, refl, find, u64_mod, arith,
}
use data_distribution.Common.SubTimeFrame.{
  EquipmentIdentifier, equipment_eq, DataHeader, StfMessage, SubTimeFrame, Origin, merge_stf,
  get_data_size, messages_of, total,
}
use data_distribution.Common.SubTimeFrame.Merging.{merge_stf_adopts}
use data_distribution.TfBuilder.Rpc.{get_number_of_stfs}
use data_distribution.TfBuilder.Input.{ReceivedStf, Input, complete_first, merge_next}
use data_distribution.TfBuilder.Input.Building.{pace_all, tf_built}
use data_distribution.TfBuilder.Input.Safety.{broken_message, announced_nothing}
use data_distribution.Tests.RpcExamples.{ready}

abbrev tpc : EquipmentIdentifier
tpc = record { data_description = "RAWDATA"; data_origin = "TPC"; sub_specification = 1 }

abbrev pub its : EquipmentIdentifier
its = record { data_description = "RAWDATA"; data_origin = "ITS"; sub_specification = 1 }

abbrev plain : EquipmentIdentifier → DataHeader
plain e = record {
  tf_counter = 0;
  run_number = 0;
  equipment = e;
  first_tf_orbit = 0;
  split_payload_index = 0;
  split_payload_parts = 0;
}

abbrev message_of : EquipmentIdentifier → ℕ → StfMessage
message_of e size = record { header = plain e; data_parts = size ∷ [] }

abbrev first_half : SubTimeFrame
first_half = record {
  header = record { id = 7; first_orbit = 0; run_number = 1; origin = Origin.readout };
  content = (tpc, message_of tpc 100 ∷ []) ∷ [];
  data_size = 0;
  data_updated = false;
}

abbrev pub second_half : SubTimeFrame
second_half = record first_half {
  content = (its, message_of its 20 ∷ []) ∷ (tpc, message_of tpc 3 ∷ []) ∷ [];
}

merge_stf_adopts_example :
    ((e : EquipmentIdentifier)
      → messages_of (find e (merge_stf first_half second_half).content)
        ≡ messages_of (find e first_half.content) ++ messages_of (find e second_half.content))
    × ((get_data_size (merge_stf first_half second_half)).0
        ≡ (total first_half.content + total second_half.content) % u64_mod)
unfolding find
merge_stf_adopts_example = merge_stf_adopts first_half second_half refl refl (refl, (refl, tt))

-- The message is the SubTimeFrame itself, if it has content.
abbrev as_it_is : SubTimeFrame → Option SubTimeFrame
as_it_is f = elim f.content [ [] ↦ none | p ∷ c ↦ some f ]

abbrev from_first : ReceivedStf SubTimeFrame
from_first = record {
  stf_id = 7;
  origin = Origin.readout;
  stf_sender_id = "s1";
  received = some first_half;
  stf = none;
}

abbrev from_second : ReceivedStf SubTimeFrame
from_second = record from_first { stf_sender_id = "s2"; received = some second_half }

abbrev broken : ReceivedStf SubTimeFrame
broken = record from_first {
  stf_sender_id = "s2";
  received = some (record first_half { content = [] });
}

abbrev waiting : Input SubTimeFrame
waiting = record {
  running = true;
  stf_merge_map = (7, []) ∷ (9, from_first ∷ []) ∷ [];
  stf_merger_run = false;
  max_merged_tf_id = 6;
  stfs_for_merging = record { container = []; running = true };
  rpc = record ready { stfs_count_map = (7, 2) ∷ [] };
  forwarded = [];
}

tf_built_example :
    (paced : Input SubTimeFrame) × (completed : Input SubTimeFrame) × (merged : Input SubTimeFrame)
    × (pace_all as_it_is (from_first ∷ from_second ∷ []) waiting ≡ some paced)
    × (complete_first as_it_is paced ≡ some completed)
    × (merge_next completed ≡ some merged)
    × (merged.forwarded ≡ (get_data_size (merge_stf first_half second_half)).1 ∷ [])
    × (merged.stf_merge_map ≡ (9, from_first ∷ []) ∷ [])
    × (merged.stfs_for_merging ≡ waiting.stfs_for_merging)
unfolding get_number_of_stfs find
tf_built_example =
    tf_built as_it_is waiting 7 ((9, from_first ∷ []) ∷ []) from_first (from_second ∷ []) first_half
      (second_half ∷ []) refl (omega arith) refl refl ((refl, refl), ((refl, refl), tt))
      (refl, (refl, tt))

abbrev half_broken : Input SubTimeFrame
half_broken = record waiting { stf_merge_map = (7, from_first ∷ broken ∷ []) ∷ [] }

broken_message_example :
    (i' : Input SubTimeFrame) × (complete_first as_it_is half_broken ≡ some i')
    × (merge_next i' ≡ none)
unfolding get_number_of_stfs find
broken_message_example =
    broken_message as_it_is half_broken 7 [] from_first broken [] [] first_half [] [] refl refl refl
      refl tt (record first_half { content = [] }, refl, refl, refl) tt

abbrev given_up : Input SubTimeFrame
given_up = record waiting { rpc = record ready { stfs_count_map = (7, 0) ∷ [] } }

announced_nothing_example :
    (i' : Input SubTimeFrame) × (complete_first as_it_is given_up ≡ some i')
    × (i'.stfs_for_merging.container ≡ [] ∷ [])
    × (merge_next i' ≡ none)
unfolding get_number_of_stfs find
announced_nothing_example =
    announced_nothing as_it_is given_up 7 ((9, from_first ∷ []) ∷ []) refl refl refl

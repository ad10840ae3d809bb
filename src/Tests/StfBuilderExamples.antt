-- ===== src/Tests/StfBuilderExamples.antt =====
-- Examples for src/StfBuilder/StfBuilderInput.cxx, src/common/SubTimeFrameBuilder.cxx and
-- src/common/ReadoutDataModel.cxx: blocks of one and of two packets.
use data_distribution.Prelude.{
  find, ℕ, ◌≤◌, Bool, true, false, ◌≡◌, ◌≢◌, ◌↔◌, ◌⊎◌, refl, arith, List, [], ◌∷◌, ◌++◌, Option,
  none, some, ◌==◌, nat_eq, if◌then◌else◌, length,
}
use data_distribution.Common.SubTimeFrame.{
  EquipmentIdentifier, DataHeader, SubTimeFrame, new_stf, null, set_origin, readout_topology,
}
use data_distribution.Common.Readout.{
  Rdh, Block, ReadoutSettings, cru_link_id, no_sanity_check, sanity_check_print, rdh_ver6,
  rdh_reader, get_sub_specification, rdh_sanity_check, check_packets, accepted, throws,
  filter_empty_trigger_blocks, second_packet_empty,
}
use data_distribution.Common.Readout.Packets.{Packets, rdh_sanity_check-Packets}
use data_distribution.StfBuilder.Builder.{
  ReadoutHeader, ReadoutBuilder, Run, done, then_do, unfinished, add_hb_frames, first_orbit_of,
  orbit_of_first, check_block, get_stf, stf_for,
}
use data_distribution.StfBuilder.Builder.Adding.{parts_of, sizes, added}
use data_distribution.StfBuilder.Builder.Frames.{Kept, Marks}
use data_distribution.StfBuilder.Builder.Calls.{add_hb_frames-parts}
use data_distribution.StfBuilder.Builder.Memory.{add_hb_frames-all_parts, add_hb_frames_no_memory}
use data_distribution.StfBuilder.Builder.Printing.{check_block_unfinished}
use data_distribution.StfBuilder.Input.{
  Input, ReadoutMsg, Received, bytes, timeout, receive_all, start_stf, insert_loop, insert_span,
  Building,
}
use data_distribution.StfBuilder.Input.Spans.{
  Span, insert_all, blocks_of, Cut, Begins, insert_loop-AreSpans,
}
use data_distribution.StfBuilder.Input.Receiving.{
  ArrivedFrom, receive_all-Arrive, IsBuilding, finished_stf, start_stf-IsBuilding,
}
use data_distribution.StfBuilder.Topology.{
  TopoInput, add_topo_stf_data, topo_stf_for, finish_building_current_stfs, get_topo_stf,
}
use data_distribution.StfBuilder.Topology.Collecting.{add_topo_stf_data-parts}
use data_distribution.StfBuilder.Sequencer.{Sequencer, sequence_all, sequence, create_missing}
use data_distribution.StfBuilder.Sequencer.Sequence.{
  QueuesFrom, sequence_all-IsSequence, Fills, fresh_stfs, sequence_all-Fills,
}

abbrev idle : Sequencer
idle = record { accepting = true; last_seq_stf_id = 0; missing_stfs = 0; queued = [] }

-- The STFs 2, 2 and 4, of which the sequencer makes 1, 2, 3 and 4.
abbrev arriving : List (Option SubTimeFrame)
arriving = some (new_stf 2) ∷ none ∷ some (new_stf 2) ∷ some (new_stf 4) ∷ []

sequence_all-IsSequence_example : QueuesFrom 0 [] (sequence_all arriving idle)
sequence_all-IsSequence_example = sequence_all-IsSequence arriving idle

sequence_all-Fills_example :
    (added : List SubTimeFrame) × ((sequence_all arriving idle).queued ≡ [] ++ added)
    × Fills (fresh_stfs 0 arriving) added
sequence_all-Fills_example = sequence_all-Fills arriving idle refl

abbrev ids : List SubTimeFrame → List ℕ
ids [] = []
ids (s ∷ ss) = s.header.id ∷ ids ss

four_queued : ids (sequence_all arriving idle).queued ≡ 1 ∷ 2 ∷ 3 ∷ 4 ∷ []
unfolding sequence_all sequence create_missing new_stf set_origin
four_queued = refl

abbrev settings : ReadoutSettings
settings = record {
  sub_spec_mode = cru_link_id;
  sanity_check_mode = no_sanity_check;
  rdh_version = rdh_ver6;
  specified_data_origin = "FLP";
  empty_trigger_filtering = false;
  sizeof_rdh = 64;
  daq_to_o2 = λ n. if n == 32 then "ITS" else "UNK";
  daq_invalid = 255;
}

abbrev packet : ℕ → ℕ → Bool → Rdh
packet link memory stop = record {
  system_id = 32;
  fee_id = 0;
  link_id = link;
  end_point_id = 0;
  cru_id = 1;
  memory_size = memory;
  offset_to_next = 64;
  stop_bit = stop;
  orbit = 7;
}

-- One packet of 64 bytes, and two of 64 and 40.
abbrev one_packet : ℕ → Block
one_packet link = record { size = 64; rdh_at = λ i. packet link 64 true }

abbrev two_packets : Block
two_packets = record {
  size = 136;
  rdh_at = λ i. if i == 0 then packet 2 64 false else packet 2 72 true;
}

rdh_sanity_check-Packets_example :
    ((rdh_sanity_check 137 settings two_packets 5).0 ≡ some accepted) ↔ (
      (5 ≤ 7)
      × Packets settings two_packets (get_sub_specification settings (packet 2 64 false)) 0 136)
rdh_sanity_check-Packets_example =
    rdh_sanity_check-Packets 137 settings two_packets 5 (omega arith) (omega arith)

two_packets_accepted : (rdh_sanity_check 137 settings two_packets 5).0 ≡ some accepted
unfolding rdh_sanity_check check_packets get_sub_specification
two_packets_accepted = refl

-- 40 bytes of a second packet are too few for its RDH.
short_rest : (rdh_sanity_check 137 settings (record two_packets { size = 104 }) 5).0 ≡ some throws
unfolding rdh_sanity_check check_packets get_sub_specification
short_rest = refl

-- The bytes behind the packet with the stop bit are not missed.
bytes_behind :
    (rdh_sanity_check 201 settings (record (one_packet 1) { size = 200 }) 5).0 ≡ some accepted
unfolding rdh_sanity_check check_packets get_sub_specification
bytes_behind = refl

-- A block of 128 bytes whose first packet sends the reader beyond the block.
far_packet :
    filter_empty_trigger_blocks settings (record {
      size = 128;
      rdh_at = λ i.
          if i == 0 then record (packet 2 64 false) { offset_to_next = 4096 } else packet 2 64 true;
    })
    ≡ true
unfolding filter_empty_trigger_blocks second_packet_empty get_sub_specification
far_packet = refl

abbrev equipment : ℕ → EquipmentIdentifier
equipment sub = record {
  data_description = "RAWDATA";
  data_origin = "ITS";
  sub_specification = sub;
}

abbrev fresh_header : DataHeader
fresh_header = record {
  equipment = equipment 0;
  tf_counter = 0;
  run_number = 0;
  first_tf_orbit = 0;
  split_payload_index = 0;
  split_payload_parts = 1;
}

abbrev of_stf : ℕ → ReadoutHeader
of_stf id = record {
  version = 2;
  time_frame_id = id;
  run_number = 11;
  link_id = 2;
  timeframe_orbit_first = 0;
  last_tf_message = false;
  is_rdh_format = true;
}

abbrev new_builder : ReadoutBuilder
new_builder = record {
  running = true;
  stf = none;
  accept_stf_data = true;
  first_filtered = [];
  first_seen_orbit = 0;
}

orbit_seven : first_orbit_of settings (of_stf 3) (one_packet 2 ∷ two_packets ∷ []) ≡ some 7
unfolding first_orbit_of orbit_of_first rdh_reader
orbit_seven = refl

add_hb_frames-all_parts_example :
    (r' : ReadoutBuilder) × (s' : SubTimeFrame) × (add_hb_frames 200 settings true fresh_header
        (equipment 3)
        (of_stf 3)
        (one_packet 2 ∷ two_packets ∷ [])
        new_builder
      ≡ done (true, r'))
    × (r'.stf ≡ some s')
    × (parts_of (equipment 3) s' ≡ [] ++ (64 ∷ 136 ∷ []))
add_hb_frames-all_parts_example =
    add_hb_frames-all_parts 200 settings fresh_header (equipment 3) (equipment 3) (of_stf 3)
      (one_packet 2) (two_packets ∷ []) new_builder 7 (refl, refl) (refl, refl) orbit_seven

both_added :
    add_hb_frames 200 settings true fresh_header
      (equipment 3)
      (of_stf 3)
      (one_packet 2 ∷ two_packets ∷ [])
      new_builder
    ≡ done (true, add_hb_frames-all_parts_example.0)
both_added = add_hb_frames-all_parts_example.2

add_hb_frames-parts_example :
    (s' : SubTimeFrame) × (ks : List Block) × (marks : List Bool)
    × (add_hb_frames-all_parts_example.0.stf ≡ some s')
    × Marks settings
        (stf_for (of_stf 3) new_builder).first_filtered
        marks
        (one_packet 2 ∷ two_packets ∷ [])
    × Kept 200 settings
        (stf_for (of_stf 3) new_builder).first_seen_orbit
        marks
        (one_packet 2 ∷ two_packets ∷ [])
        ks
    × (parts_of (equipment 3) s' ≡ [] ++ added (equipment 3) (equipment 3) (sizes ks))
add_hb_frames-parts_example =
    add_hb_frames-parts 200 settings true fresh_header (equipment 3) (equipment 3) (of_stf 3)
      (one_packet 2 ∷ two_packets ∷ []) new_builder add_hb_frames-all_parts_example.0 both_added

add_hb_frames_no_memory_example :
    (r' : ReadoutBuilder) × (s' : SubTimeFrame) × (add_hb_frames 200 settings false fresh_header
        (equipment 3)
        (of_stf 3)
        (one_packet 2 ∷ two_packets ∷ [])
        new_builder
      ≡ done (false, r'))
    × (add_hb_frames 200 settings true fresh_header (equipment 4) (of_stf 3) (one_packet 3 ∷ []) r'
        ≡ done (false, r'))
    × ((get_stf r').0 ≡ some s')
    × (s'.content ≡ [])
    × (s'.header.origin ≡ null)
add_hb_frames_no_memory_example =
    add_hb_frames_no_memory 200 settings fresh_header (equipment 3) (of_stf 3) (one_packet 2)
      (two_packets ∷ []) new_builder 7 true fresh_header (equipment 4) (of_stf 3)
      (one_packet 3 ∷ []) (refl, refl) (refl, refl) (λ s e. absurd (ground (arith, e))) orbit_seven

-- A packet without stop bit and without offset, in print mode.
abbrev no_offset : Block
no_offset = record { size = 64; rdh_at = λ i. record (packet 2 64 false) { offset_to_next = 0 } }

abbrev printing : ReadoutSettings
printing = record settings { sanity_check_mode = sanity_check_print }

check_block_unfinished_example : check_block 1000 printing no_offset 0 ≡ unfinished
check_block_unfinished_example =
    check_block_unfinished 1000 printing no_offset 0 refl (omega arith) (omega arith) refl refl

abbrev environment : Building
environment = record {
  fuel = 200;
  settings = settings;
  fee_id_mask = 0xffffffff;
  raw_data = "RAWDATA";
  data_header = fresh_header;
  has_header_memory = λ e bs. true;
}

abbrev insert_of_three : ℕ → List Block → ReadoutBuilder → Run ReadoutBuilder
insert_of_three = insert_span environment "ITS" (of_stf 3)

first_parses : rdh_reader settings (one_packet 2) 0 64 ≡ some (packet 2 64 true)
unfolding rdh_reader
first_parses = refl

insert_loop-AreSpans_example :
    (ss : List Span) × (left : List Block) × (failed : Bool) × (insert_loop settings insert_of_three
        0
        (get_sub_specification settings (packet 2 64 true))
        (one_packet 2 ∷ [])
        (two_packets ∷ one_packet 3 ∷ [])
        new_builder
      ≡ then_do
          (insert_all insert_of_three ss new_builder)
          (λ r'. done (r', length (blocks_of ss), failed)))
    × (blocks_of ss ++ left ≡ one_packet 2 ∷ two_packets ∷ one_packet 3 ∷ [])
    × Cut settings (Begins (get_sub_specification settings (packet 2 64 true))) (ss, left, failed)
insert_loop-AreSpans_example =
    insert_loop-AreSpans settings insert_of_three (one_packet 2) (two_packets ∷ one_packet 3 ∷ [])
      (packet 2 64 true) new_builder first_parses

abbrev start_of_run : Input
start_of_run = record {
  running = true;
  build_stf = true;
  started = false;
  stf_id_receiving = 0;
  stf_id_building = 0;
  builder_input_queue = [];
  builder = new_builder;
  seq_stf_queue = [];
  sequencer = idle;
}

abbrev message : ℕ → ReadoutMsg
message id = record { header_size = 32; header = of_stf id; blocks = one_packet 2 ∷ [] }

abbrev received : List Received
received =
    bytes 96 (some (message 3))
    ∷ timeout
    ∷ bytes 96 (some (message 2))
    ∷ bytes 96 (some (message 4))
    ∷ []

receive_all-Arrive_example : ArrivedFrom 32 0 [] (receive_all 32 received start_of_run)
receive_all-Arrive_example = receive_all-Arrive 32 received start_of_run refl

abbrev in_building : Input
in_building = record start_of_run { builder = record new_builder { stf = some (new_stf 3) } }

start_stf-IsBuilding_example :
    IsBuilding 4 (start_stf (of_stf 4) in_building).builder
    × (IsBuilding 4 in_building.builder
          × ((start_stf (of_stf 4) in_building).seq_stf_queue ≡ [])
          × ((start_stf (of_stf 4) in_building).builder.stf ≡ some (new_stf 3))
        ⊎ (f : SubTimeFrame) × (some (new_stf 3) ≡ some f)
          × (f.header.id ≢ 4)
          × ((start_stf (of_stf 4) in_building).seq_stf_queue
              ≡ [] ++ (finished_stf in_building.builder f ∷ []))
          × ((start_stf (of_stf 4) in_building).builder.stf ≡ none))
start_stf-IsBuilding_example = start_stf-IsBuilding (of_stf 4) in_building

abbrev start_of_scan : TopoInput
start_of_scan = record {
  running = true;
  started = false;
  accept_stf_data = true;
  topo_stf_map = (3, (1, some (new_stf 5))) ∷ [];
  next_tf_id = 6;
  stf_id = 0;
  queued = [];
}

-- With two blocks the link has three messages, which are enough for an STF.
add_topo_stf_data-parts_example :
    let (answer, r') =
      add_topo_stf_data true fresh_header
        (equipment 3)
        (of_stf 9)
        (one_packet 2 ∷ two_packets ∷ [])
        3
        start_of_scan in
    (s : SubTimeFrame) × (parts_of (equipment 3) s
      ≡ parts_of (equipment 3) (new_stf 5) ++ added (equipment 3) (equipment 3) (64 ∷ 136 ∷ []))
    × (((true ≡ true)
          × (answer ≡ some (set_origin readout_topology s))
          × (find 3 r'.topo_stf_map ≡ some (0, none)))
        ⊎ ((true ≡ false) × (answer ≡ none) × (find 3 r'.topo_stf_map ≡ some (3, some s))))
unfolding find topo_stf_for
add_topo_stf_data-parts_example =
    add_topo_stf_data-parts fresh_header (equipment 3) (equipment 3) (of_stf 9)
      (one_packet 2 ∷ two_packets ∷ []) 3 start_of_scan refl refl

-- Of the links 4 and 3, link 4 has no STF any more, so that the one of link 3 is not queued.
abbrev after_link_four : TopoInput
after_link_four = record start_of_scan {
  topo_stf_map = (4, (0, none)) ∷ (3, (1, some (new_stf 5))) ∷ [];
}

nothing_queued : (finish_building_current_stfs (4 ∷ 3 ∷ []) after_link_four).queued ≡ []
unfolding finish_building_current_stfs get_topo_stf find
nothing_queued = refl

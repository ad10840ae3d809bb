-- ===== src/StfBuilder/Input.antt =====
-- StfInputInterface (src/StfBuilder/StfBuilderInput.h and .cxx): the thread that receives the readout's
-- messages and the thread that builds physics STFs of them, a round at a time. FairMQ's channel, whether
-- there is memory for a header, and the sizes and headers that the compiler and O2 fix are arguments.
pub mod Receiving
pub mod Spans
use data_distribution.Prelude.{
  ℕ, zero, suc, ◌+◌, Bool, true, false, not, ◌&&◌, ◌==◌, nat_eq, String, List, [], ◌∷◌, ◌++◌,
  Option, none, some, if◌then◌else◌, ltb, length,
}
use Prim.Native.Nat.{bit_and}
use data_distribution.Common.SubTimeFrame.{
  EquipmentIdentifier, DataHeader, SubTimeFrame, set_origin, readout,
}
use data_distribution.Common.Readout.{
  Rdh, Block, ReadoutSettings, SubSpecMode, cru_link_id, fee_id_mode, rdh_reader, get_data_origin,
  get_sub_specification,
}
use data_distribution.StfBuilder.Builder.{
  ReadoutHeader, ReadoutBuilder, Run, done, thrown, then_do, add_hb_frames, get_current_stf_id,
  get_stf,
}
use data_distribution.StfBuilder.Sequencer.{Sequencer}

-- A multipart message of the readout: its first part, which is to be the header, and the others.
pub record ReadoutMsg : Type 0 where
  pub header_size : ℕ
  pub header : ReadoutHeader
  pub blocks : List Block

-- `sequencer` has mAcceptingData and mLastSeqStfId.
pub record Input : Type 0 where
  pub running : Bool
  pub build_stf : Bool
  pub started : Bool
  pub stf_id_receiving : ℕ
  pub stf_id_building : ℕ
  pub builder_input_queue : List ReadoutMsg
  pub builder : ReadoutBuilder
  pub seq_stf_queue : List SubTimeFrame
  pub sequencer : Sequencer

unfoldable pub set_running_state : Bool → Input → Input
set_running_state on s =
    let s' =
      if on && not s.sequencer.accepting
      then record s {
        stf_id_receiving = 0;
        stf_id_building = 0;
        sequencer = record (s.sequencer) { last_seq_stf_id = 0 };
      }
      else s in
    record s' { sequencer = record (s'.sequencer) { accepting = on } }

-- What Receive of the input channel gives: a number of bytes and the messages, or a code.
pub data Received : Type 0 where
  timeout interrupted error : Received
  bytes : ℕ → Option ReadoutMsg → Received

abbrev pub readout_interface_version : ℕ
readout_interface_version = 2

-- One round of StfReceiverThread; `sizeof_header` is the size of ReadoutSubTimeframeHeader.
unfoldable pub receive : ℕ → Received → Input → Input
receive sizeof_header timeout s = s
receive sizeof_header interrupted s = s
receive sizeof_header error s = s
receive sizeof_header (bytes n none) s = s
receive sizeof_header (bytes n (some m)) s =
    let id = m.header.time_frame_id in
    if ltb 0 n && not s.sequencer.accepting
    then s
    else if not (m.header_size == sizeof_header)
    then s
    else if not (m.header.version == readout_interface_version)
    then s
    else if s.build_stf && ltb id s.stf_id_receiving
    then s
    else record s {
      stf_id_receiving = if s.build_stf then id else s.stf_id_receiving;
      builder_input_queue = s.builder_input_queue ++ (m ∷ []);
    }

unfoldable pub receive_all : ℕ → List Received → Input → Input
receive_all sizeof_header [] s = s
receive_all sizeof_header (r ∷ rs) s = receive_all sizeof_header rs (receive sizeof_header r s)

-- finishBuildingCurrentStf
unfoldable pub finish_building_current_stf : Input → Input
finish_building_current_stf s =
    let (stf, builder) = get_stf (record (s.builder) { first_seen_orbit = 0 }) in
    elim stf [
      | none ↦ record s { builder = builder }
      | some f ↦ record s {
        builder = builder;
        seq_stf_queue = s.seq_stf_queue ++ (set_origin readout f ∷ []);
      }
    ]

-- lInsertWithFeeIdMasking, without the call
unfoldable pub mask_sub_specification : ReadoutSettings → ℕ → ℕ → ℕ
mask_sub_specification cfg mask sub = elim cfg.sub_spec_mode [
  | cru_link_id ↦ sub
  | fee_id_mode ↦ bit_and sub mask
]

-- The loop over the blocks of a message: `span` are those from lStartHbf to lEndHbf, the list those from
-- there on, and `insert` adds a span with its sub-specification. The result has lAdded and whether there
-- was an error.
unfoldable pub insert_loop :
    ReadoutSettings
    → (ℕ → List Block → ReadoutBuilder → Run ReadoutBuilder)
    → ℕ
    → ℕ
    → List Block
    → List Block
    → ReadoutBuilder
    → Run (ReadoutBuilder × ℕ × Bool)
insert_loop cfg insert added sub span [] r =
    then_do (insert sub span r) (λ r'. done (r', added + length span, false))
insert_loop cfg insert added sub span (b ∷ bs) r = elim (rdh_reader cfg b 0 b.size) [
  | none ↦ done (r, added, true)
  | some h ↦
      let new = get_sub_specification cfg h in
      if not (new == sub)
      then then_do (insert sub span r)
          (λ r'. insert_loop cfg insert (added + length span) new (b ∷ []) bs r')
      else insert_loop cfg insert added sub (span ++ (b ∷ [])) bs r
]

-- What the thread has at hand: fuel, the settings, the mask of FEE ids, O2's description of raw data and
-- DataHeader, and the memory for the header of a call.
pub record Building : Type 0 where
  pub fuel : ℕ
  pub settings : ReadoutSettings
  pub fee_id_mask : ℕ
  pub raw_data : String
  pub data_header : DataHeader
  pub has_header_memory : EquipmentIdentifier → List Block → Bool

unfoldable pub insert_span :
    Building → String → ReadoutHeader → ℕ → List Block → ReadoutBuilder → Run ReadoutBuilder
insert_span env origin hdr sub span r =
    let e : EquipmentIdentifier = record {
      data_description = env.raw_data;
      data_origin = origin;
      sub_specification = mask_sub_specification env.settings env.fee_id_mask sub;
    } in
    then_do
      (add_hb_frames env.fuel env.settings (env.has_header_memory e span) env.data_header e hdr span
        r)
      (λ p. done p.1)

-- The blocks of a message; false where it is discarded.
unfoldable pub insert_blocks :
    Building → ReadoutHeader → List Block → ReadoutBuilder → Run (ReadoutBuilder × Bool)
insert_blocks env hdr [] r = done (r, true)
insert_blocks env hdr (b ∷ bs) r = elim (rdh_reader env.settings b 0 b.size) [
  | none ↦ done (r, false)
  | some h ↦
      then_do
        (insert_loop env.settings (insert_span env (get_data_origin env.settings h) hdr) 0
          (get_sub_specification env.settings h) (b ∷ []) bs r)
        (λ p. done (p.0, true))
]

-- The check for a new TF marker.
unfoldable pub start_stf : ReadoutHeader → Input → Input
start_stf hdr s = elim (get_current_stf_id s.builder) [
  | none ↦ record s { stf_id_building = hdr.time_frame_id }
  | some id ↦
      if not (hdr.time_frame_id == id)
      then record (finish_building_current_stf s) { stf_id_building = hdr.time_frame_id }
      else record s { stf_id_building = id }
]

abbrev pub is_empty : List Block → Bool
is_empty [] = true
is_empty (b ∷ bs) = false

-- The check of the first block of a message in RDH format.
unfoldable pub first_block_parses : ReadoutSettings → ReadoutMsg → Bool
first_block_parses cfg m = elim m.blocks [
  | [] ↦ true
  | b ∷ bs ↦
      if m.header.is_rdh_format
      then elim (rdh_reader cfg b 0 b.size) [ none ↦ false | some r ↦ true ]
      else true
]

-- The part of a round on a message that is not empty.
unfoldable pub build_message : Building → ReadoutMsg → Input → Run Input
build_message env m s =
    let s0 = record s { started = true } in
    if is_empty m.blocks && not m.header.last_tf_message
    then done s0
    else if not (first_block_parses env.settings m)
    then done s0
    else (let s1 = start_stf m.header s0 in
        then_do (insert_blocks env m.header m.blocks s1.builder) (λ p.
          let s2 = record s1 { builder = p.0 } in
          done (if p.1 && m.header.last_tf_message then finish_building_current_stf s2 else s2)))

-- One round of StfBuilderThread on what pop_wait_for gave, if anything.
unfoldable pub build_round : Building → Option (Option ReadoutMsg) → Input → Run Input
build_round env none s = done (if s.running && s.started then finish_building_current_stf s else s)
build_round env (some none) s = done s
build_round env (some (some m)) s = build_message env m s

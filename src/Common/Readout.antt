-- ===== src/Common/Readout.antt =====
-- ReadoutDataUtils and RDHReader (src/common/ReadoutDataModel.h and .cxx). The layouts of the RDH versions
-- and DAQID belong to O2: a block shows the fields that an RDH has at each of its offsets, and the size
-- of an RDH and the detectors' names are arguments. The static settings are a record.
pub mod Packets
pub mod SubSpecs
use data_distribution.Prelude.{
  ℕ, zero, suc, ◌+◌, ◌-◌, ◌*◌, ◌%◌, ◌^◌, min, Bool, true, false, not, ◌&&◌, ◌||◌, ◌==◌, nat_eq,
  string_eq, String, List, [], ◌∷◌, Option, none, some, if◌then◌else◌, ltb, leb, sub64,
}
use Prim.Native.Nat.{bit_or}

-- What RDHReaderIf reads of an RDH.
pub record Rdh : Type 0 where
  pub system_id : ℕ
  pub fee_id : ℕ
  pub link_id : ℕ
  pub end_point_id : ℕ
  pub cru_id : ℕ
  pub memory_size : ℕ
  pub offset_to_next : ℕ
  pub stop_bit : Bool
  pub orbit : ℕ

pub record Block : Type 0 where
  pub size : ℕ
  pub rdh_at : ℕ → Rdh

pub data SubSpecMode : Type 0 where
  cru_link_id fee_id_mode : SubSpecMode

pub data SanityCheckMode : Type 0 where
  no_sanity_check sanity_check_drop sanity_check_print : SanityCheckMode

pub data RdhVersion : Type 0 where
  rdh_invalid rdh_ver3 rdh_ver4 rdh_ver5 rdh_ver6 : RdhVersion

pub data RunType : Type 0 where
  run_invalid physics topology : RunType

abbrev is_ver6 : RdhVersion → Bool
is_ver6 rdh_ver6 = true
is_ver6 rdh_invalid = false
is_ver6 rdh_ver3 = false
is_ver6 rdh_ver4 = false
is_ver6 rdh_ver5 = false

-- The static members of ReadoutDataUtils, the size of an RDH, and DAQID with its invalid id.
pub record ReadoutSettings : Type 0 where
  pub sub_spec_mode : SubSpecMode
  pub sanity_check_mode : SanityCheckMode
  pub rdh_version : RdhVersion
  pub specified_data_origin : String
  pub empty_trigger_filtering : Bool
  pub sizeof_rdh : ℕ
  pub daq_to_o2 : ℕ → String
  pub daq_invalid : ℕ

-- The constructor of RDHReader, on the `size` bytes from an offset on: none when CheckRdhData throws.
unfoldable pub rdh_reader : ReadoutSettings → Block → ℕ → ℕ → Option Rdh
rdh_reader cfg b at size = if ltb size cfg.sizeof_rdh then none else some (b.rdh_at at)

unfoldable pub get_data_origin : ReadoutSettings → Rdh → String
get_data_origin cfg r =
    let orig = cfg.daq_to_o2 r.system_id in
    if is_ver6 cfg.rdh_version && not (orig == cfg.daq_to_o2 cfg.daq_invalid)
    then orig
    else cfg.specified_data_origin

unfoldable pub get_sub_specification : ReadoutSettings → Rdh → ℕ
get_sub_specification cfg r = elim cfg.sub_spec_mode [
  | cru_link_id ↦
      bit_or (r.cru_id * 2 ^ 16) ((r.link_id + 1) * (if r.end_point_id == 0 then 1 else 2 ^ 8))
      % 2 ^ 32
  | fee_id_mode ↦ r.fee_id % 2 ^ 32
]

-- RDHReader::next, from the RDH at an offset with `size` bytes left.
unfoldable pub next : ReadoutSettings → Block → ℕ → ℕ → Option (ℕ × ℕ)
next cfg b at size =
    let off = (b.rdh_at at).offset_to_next in
    if (b.rdh_at at).stop_bit
    then none
    else if ltb off 64 || ltb 8192 off
    then none
    else if ltb (at + size) (at + off + cfg.sizeof_rdh)
    then none
    else some (at + off, size - off)

-- The loop of getHBFrameMemorySize; none is to be out of fuel.
unfoldable pub memory_size_loop :
    ℕ → ReadoutSettings → Block → ℕ → Bool → Option (ℕ × ℕ) → Option (ℕ × Bool)
memory_size_loop fuel cfg b mem stop none = some (mem, stop)
memory_size_loop zero cfg b mem stop (some r) = none
memory_size_loop (suc fuel) cfg b mem stop (some r) =
    memory_size_loop fuel cfg b ((mem + (b.rdh_at r.0).memory_size) % 2 ^ 64)
      (b.rdh_at r.0).stop_bit (next cfg b r.0 r.1)

unfoldable pub get_hb_frame_memory_size : ℕ → ReadoutSettings → Block → Option (ℕ × Bool)
get_hb_frame_memory_size fuel cfg b = elim (rdh_reader cfg b 0 b.size) [
  | none ↦ some (0, false)
  | some r ↦ elim (memory_size_loop fuel cfg b 0 false (some (0, b.size))) [
    | none ↦ none
    | some (mem, stop) ↦ some (mem, stop && not (ltb b.size mem))
  ]
]

-- The ends of rdhSanityCheck: its result, or the exception of RDHReader.
pub data Check : Type 0 where
  accepted refused throws : Check

-- The loop over the packets of a block; none is to be out of fuel.
unfoldable pub check_packets : ℕ → ReadoutSettings → Block → ℕ → ℕ → ℕ → Option Check
check_packets zero cfg b sub at left = none
check_packets (suc fuel) cfg b sub at left =
    let r = b.rdh_at at in
    let rest = check_packets fuel cfg b sub (at + r.offset_to_next) (left - r.offset_to_next) in
    if left == 0
    then some accepted
    else if ltb left cfg.sizeof_rdh
    then some throws
    else if ltb left 64
    then some refused
    else if not (sub == get_sub_specification cfg r)
    then some refused
    else if r.stop_bit
    then (if leb r.memory_size left then some accepted else some refused)
    else if r.offset_to_next == 0
    then some refused
    else if leb left r.offset_to_next
    then some refused
    else if leb left r.memory_size
    then some refused
    else rest

-- rdhSanityCheck, with sFirstSeenHBOrbitCnt before and after.
unfoldable pub rdh_sanity_check : ℕ → ReadoutSettings → Block → ℕ → Option Check × ℕ
rdh_sanity_check fuel cfg b first_seen =
    let r = b.rdh_at 0 in
    let seen = if first_seen == 0 then r.orbit else first_seen in
    if ltb b.size cfg.sizeof_rdh
    then (some throws, first_seen)
    else if ltb r.orbit seen
    then (some refused, seen)
    else (check_packets fuel cfg b (get_sub_specification cfg r) 0 b.size, seen)

abbrev pub trigger_block_size : ℕ → Bool
trigger_block_size n = n == 64 || (n == 128 || n == 16384)

-- The part of filterEmptyTriggerBlocks on the second packet.
unfoldable pub second_packet_empty : ReadoutSettings → Block → Bool
second_packet_empty cfg b =
    let r1 = b.rdh_at 0 in
    let r2 = b.rdh_at r1.offset_to_next in
    if ltb (min (sub64 b.size r1.offset_to_next) 8192) cfg.sizeof_rdh
    then false
    else if not (get_sub_specification cfg r1 == get_sub_specification cfg r2)
    then false
    else if not (r1.memory_size == r2.memory_size) || not (r1.memory_size == cfg.sizeof_rdh)
    then false
    else r2.stop_bit

unfoldable pub filter_empty_trigger_blocks : ReadoutSettings → Block → Bool
filter_empty_trigger_blocks cfg b =
    let r1 = b.rdh_at 0 in
    if not (trigger_block_size b.size)
    then false
    else if ltb b.size cfg.sizeof_rdh
    then false
    else if r1.stop_bit
    then b.size == cfg.sizeof_rdh && r1.memory_size == cfg.sizeof_rdh
    else second_packet_empty cfg b

-- The operators >> of the settings, on the token: what the stream's failure leaves, with no value for the
-- enumerations that it leaves alone.
unfoldable pub read_sanity_check_mode : String → Option SanityCheckMode
read_sanity_check_mode token =
    if token == "off"
    then some no_sanity_check
    else if token == "drop"
    then some sanity_check_drop
    else if token == "print"
    then some sanity_check_print
    else none

unfoldable pub read_sub_spec_mode : String → Option SubSpecMode
read_sub_spec_mode token =
    if token == "cru_linkid"
    then some cru_link_id
    else if token == "feeid"
    then some fee_id_mode
    else none

-- With the value written and whether the stream is good.
unfoldable pub read_rdh_version : String → RdhVersion × Bool
read_rdh_version token =
    if token == "3"
    then (rdh_ver3, true)
    else if token == "4"
    then (rdh_ver4, true)
    else if token == "5"
    then (rdh_ver5, true)
    else if token == "6"
    then (rdh_ver6, true)
    else (rdh_invalid, false)

unfoldable pub read_run_type : String → RunType × Bool
read_run_type token =
    if token == "physics"
    then (physics, true)
    else if token == "topology"
    then (topology, true)
    else (run_invalid, false)

unfoldable pub sub_spec_to_string : SubSpecMode → String
sub_spec_to_string cru_link_id = "cru_linkid"
sub_spec_to_string fee_id_mode = "feeid"

unfoldable pub run_type_to_string : RunType → String
run_type_to_string physics = "physics"
run_type_to_string topology = "topology"
run_type_to_string run_invalid = "invalid"

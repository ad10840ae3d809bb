-- ===== src/StfBuilder/Topology.antt =====
-- Topological STFs, of which there is one for each link: addTopoStfData and getTopoStf of
-- SubTimeFrameReadoutBuilder (src/common/SubTimeFrameBuilder.h and .cxx), and a round of
-- TopologicalStfBuilderThread (src/StfBuilder/StfBuilderInput.cxx). The entry that begin() of the
-- unordered map shows is an argument, and so is whether there is memory for a header.
pub mod Flushing
pub mod Collecting
use data_distribution.Prelude.{
  ℕ, ◌+◌, ◌%◌, ◌^◌, min, max, Bool, true, false, not, ◌&&◌, ◌||◌, ◌==◌, nat_eq, String, List, [],
  ◌∷◌, ◌++◌, Option, none, some, if◌then◌else◌, ltb, leb, length, find, insert, remove, u64_mod,
}
use data_distribution.Common.SubTimeFrame.{
  EquipmentIdentifier, DataHeader, SubTimeFrame, new_stf, update_id, update_run_number,
  update_first_orbit, clear, set_origin, readout_topology, add_stf_data_readout,
}
use data_distribution.Common.Readout.{
  Rdh, Block, rdh_reader, get_data_origin, get_sub_specification,
}
use data_distribution.StfBuilder.Builder.{ReadoutHeader}
use data_distribution.StfBuilder.Input.{ReadoutMsg, Building, mask_sub_specification}

-- mTopoStfMap: for a sub-specification, the number of messages and the STF.
abbrev pub TopoStfMap : Type 0
TopoStfMap = List (ℕ × (ℕ × Option SubTimeFrame))

-- With the static counters sTfId and sStfId, and what the device was given at eStfBuilderOut.
pub record TopoInput : Type 0 where
  pub running : Bool
  pub started : Bool
  pub accept_stf_data : Bool
  pub topo_stf_map : TopoStfMap
  pub next_tf_id : ℕ
  pub stf_id : ℕ
  pub queued : List SubTimeFrame

abbrev pub entry_of : Option (ℕ × Option SubTimeFrame) → ℕ × Option SubTimeFrame
entry_of none = (0, none)
entry_of (some p) = p

-- The STF of an entry with its number of messages, or a new one.
unfoldable pub topo_stf_for : ReadoutHeader → ℕ → ℕ × Option SubTimeFrame → ℕ × SubTimeFrame × ℕ
topo_stf_for hdr next (n, some s) = (n, s, next)
topo_stf_for hdr next (n, none) =
    let s = update_run_number hdr.run_number (new_stf next) in
    (
      0,
      (if not (hdr.timeframe_orbit_first == 0)
          then update_first_orbit hdr.timeframe_orbit_first s
          else s),
      (next + 1) % 2 ^ 32,
    )

unfoldable pub add_topo_blocks :
    EquipmentIdentifier → DataHeader → List Block → SubTimeFrame → SubTimeFrame
add_topo_blocks e dh [] s = s
add_topo_blocks e dh (b ∷ bs) s = add_topo_blocks e dh bs (add_stf_data_readout e dh b.size s)

abbrev needs_header : List Block → Bool
needs_header [] = false
needs_header (b ∷ bs) = true

unfoldable pub add_topo_stf_data :
    Bool
    → DataHeader
    → EquipmentIdentifier
    → ReadoutHeader
    → List Block
    → ℕ
    → TopoInput
    → Option SubTimeFrame × TopoInput
add_topo_stf_data alloc dh e hdr bs max_messages r =
    let sub = e.sub_specification in
    let (n, s, next) = topo_stf_for hdr r.next_tf_id (entry_of (find sub r.topo_stf_map)) in
    let all = add_topo_blocks e (record dh { equipment = e }) bs s in
    let count = (n + length bs) % u64_mod in
    let r1 = record r { next_tf_id = next } in
    if not r.running || not r.accept_stf_data
    then (none, r)
    else if needs_header bs && not alloc
    then (
      none,
      record r1 {
        accept_stf_data = false;
        topo_stf_map = insert sub (n, some (clear s)) r.topo_stf_map;
      },
    )
    else if leb max_messages count
    then (
      some (set_origin readout_topology all),
      record r1 { topo_stf_map = insert sub (0, none) r.topo_stf_map },
    )
    else (none, record r1 { topo_stf_map = insert sub (count, some all) r.topo_stf_map })

abbrev is_empty_map : TopoStfMap → Bool
is_empty_map [] = true
is_empty_map (p ∷ m) = false

-- getTopoStf, where the map begins with the entry of `sub`.
unfoldable pub get_topo_stf : ℕ → TopoInput → Option SubTimeFrame × TopoInput
get_topo_stf sub r = if is_empty_map r.topo_stf_map then (none, r) else (
  (entry_of (find sub r.topo_stf_map)).1,
  record r { topo_stf_map = remove sub r.topo_stf_map; accept_stf_data = true },
)

-- queueStf
unfoldable pub queue_stf : SubTimeFrame → TopoInput → TopoInput
queue_stf s r =
    let id = (r.stf_id + 1) % u64_mod in
    record r {
      stf_id = id;
      queued = r.queued ++ (set_origin readout_topology (update_id id s) ∷ []);
    }

-- finishBuildingCurrentStfs, where the list has the entries that the map begins with, one after another.
unfoldable pub finish_building_current_stfs : List ℕ → TopoInput → TopoInput
finish_building_current_stfs [] r = r
finish_building_current_stfs (sub ∷ subs) r =
    let (stf, r') = get_topo_stf sub r in
    let next = λ (s : SubTimeFrame). finish_building_current_stfs subs (queue_stf s r') in
    elim stf [ none ↦ r' | some s ↦ next s ]

-- The number of pages of an STF, from the configuration.
unfoldable pub num_pages : ℕ → ℕ
num_pages param = min (max param 1) 50000

-- The part of a round on a message.
unfoldable pub topo_message : Building → ℕ → ReadoutMsg → TopoInput → TopoInput
topo_message env pages m r = elim m.blocks [
  | [] ↦ r
  | b ∷ bs ↦
      let r0 = record r { started = true } in
      elim (rdh_reader env.settings b 0 b.size) [
        | none ↦ r0
        | some h ↦
            let e : EquipmentIdentifier = record {
              data_description = env.raw_data;
              data_origin = get_data_origin env.settings h;
              sub_specification =
                  mask_sub_specification env.settings env.fee_id_mask
                    (get_sub_specification env.settings h);
            } in
            let (stf, r1) =
              add_topo_stf_data (env.has_header_memory e (b ∷ bs)) env.data_header e m.header
                (b ∷ bs) pages r0 in
            elim stf [ none ↦ r1 | some s ↦ queue_stf s r1 ]
      ]
]

-- One round of TopologicalStfBuilderThread on what pop_wait_for gave; `order` is how the map is gone
-- through.
unfoldable pub topo_round :
    Building → ℕ → List ℕ → Option (Option ReadoutMsg) → TopoInput → TopoInput
topo_round env param order none r =
    if r.running && r.started then finish_building_current_stfs order r else r
topo_round env param order (some none) r = r
topo_round env param order (some (some m)) r = topo_message env (num_pages param) m r

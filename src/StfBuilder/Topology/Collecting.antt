-- ===== src/StfBuilder/Topology/Collecting.antt =====
-- SubTimeFrameReadoutBuilder::addTopoStfData (src/common/SubTimeFrameBuilder.cxx): where the blocks of a
-- link go, and when its STF leaves.
use data_distribution.Prelude.{
  ℕ, ◌+◌, ◌%◌, Bool, true, false, not, ◌||◌, ◌&&◌, ◌==◌, nat_eq, ==_refl, List, [], ◌∷◌, ◌++◌,
  Option, none, some, ◌≡◌, ◌⊎◌, refl, sym, ap, ◌∙◌, inl, inr, find, insert, find-insert, Bool-cases,
  leb, length, u64_mod, arith,
}
use mathlib.Core.List.{append-nil}
use data_distribution.Common.SubTimeFrame.{
  EquipmentIdentifier, DataHeader, SubTimeFrame, new_stf, update_run_number, update_first_orbit,
  set_origin, readout_topology, add_stf_data_readout,
}
use data_distribution.Common.Readout.{Block}
use data_distribution.StfBuilder.Builder.{ReadoutHeader}
use data_distribution.StfBuilder.Builder.Adding.{
  parts_of, sizes, added, added_none, join, readout-parts,
}
use data_distribution.StfBuilder.Builder.Calls.{
  parts_before, parts_of_same, content-update_run_number, content-update_first_orbit,
  parts_of-new_stf,
}
use data_distribution.StfBuilder.Topology.{
  TopoInput, entry_of, topo_stf_for, add_topo_blocks, add_topo_stf_data, needs_header,
}

add_topo_blocks-parts :
    (e d : EquipmentIdentifier) (dh : DataHeader) (bs : List Block) (s : SubTimeFrame)
    → parts_of d (add_topo_blocks e dh bs s) ≡ parts_of d s ++ added e d (sizes bs)
unfolding add_topo_blocks
add_topo_blocks-parts e d dh [] s =
    sym (ap (λ xs. parts_of d s ++ xs) (added_none e d) ∙ append-nil (parts_of d s))
add_topo_blocks-parts e d dh (b ∷ bs) s =
    add_topo_blocks-parts e d dh bs (add_stf_data_readout e dh b.size s)
    ∙ join e d b.size bs (parts_of d (add_stf_data_readout e dh b.size s)) (parts_of d s)
        (readout-parts e d dh b.size s)

topo_stf_for-parts :
    (d : EquipmentIdentifier) (hdr : ReadoutHeader) (next n : ℕ) (o : Option SubTimeFrame)
    → parts_of d (topo_stf_for hdr next (n, o)).1 ≡ parts_before d o
unfolding topo_stf_for
topo_stf_for-parts d hdr next n (some s) = refl
topo_stf_for-parts d hdr next n none =
    let fresh = new_stf next in
    let s = update_run_number hdr.run_number fresh in
    let start =
      parts_of_same d s fresh (content-update_run_number hdr.run_number fresh)
      ∙ parts_of-new_stf d next in
    elim (Bool-cases (hdr.timeframe_orbit_first == 0)) [
      | inl e ↦ rw e start
      | inr e ↦ rw e (
          parts_of_same d (update_first_orbit hdr.timeframe_orbit_first s) s
            (content-update_first_orbit hdr.timeframe_orbit_first s)
          ∙ start)
    ]

no_lack : (b : Bool) → (b && not true) ≡ false
no_lack true = refl
no_lack false = refl

find-insert_same : {V : Type 0} (k : ℕ) (v : V) (m : List (ℕ × V)) → find k (insert k v m) ≡ some v
find-insert_same k v m = rw (find-insert k k v m, ==_refl k) refl

-- When data is accepted and there is memory for a header, the blocks of a call become the last parts of
-- their equipment in the STF of their sub-specification, and the other equipments keep their parts. The
-- STF is handed out, and leaves an entry without STF, exactly when the number of messages counted for it
-- has come to the wanted one; otherwise it stays in the map with that number.
pub add_topo_stf_data-parts :
    (dh : DataHeader) (e d : EquipmentIdentifier) (hdr : ReadoutHeader) (bs : List Block)
    (wanted : ℕ) (r : TopoInput)
    → r.running ≡ true
    → r.accept_stf_data ≡ true
    → let old = entry_of (find e.sub_specification r.topo_stf_map) in
      let count = ((topo_stf_for hdr r.next_tf_id old).0 + length bs) % u64_mod in
      let (answer, r') = add_topo_stf_data true dh e hdr bs wanted r in
      (s : SubTimeFrame) × (parts_of d s ≡ parts_before d old.1 ++ added e d (sizes bs))
      × (((leb wanted count ≡ true)
            × (answer ≡ some (set_origin readout_topology s))
            × (find e.sub_specification r'.topo_stf_map ≡ some (0, none)))
          ⊎ ((leb wanted count ≡ false)
              × (answer ≡ none)
              × (find e.sub_specification r'.topo_stf_map ≡ some (count, some s))))
unfolding add_topo_stf_data
add_topo_stf_data-parts dh e d hdr bs wanted r on accepting =
    let sub = e.sub_specification in
    let old = entry_of (find sub r.topo_stf_map) in
    let start = topo_stf_for hdr r.next_tf_id old in
    let count = (start.0 + length bs) % u64_mod in
    let s = add_topo_blocks e (record dh { equipment = e }) bs start.1 in
    let go : ((not r.running || not r.accept_stf_data) ≡ false) = ground (arith, on, accepting) in
    let memory = no_lack (needs_header bs) in
    let parts =
      add_topo_blocks-parts e d (record dh { equipment = e }) bs start.1
      ∙ ap (λ l. l ++ added e d (sizes bs)) (topo_stf_for-parts d hdr r.next_tf_id old.0 old.1) in
    (
      s,
      parts,
      elim (Bool-cases (leb wanted count)) [
        | inl full ↦ inl (
          full,
          rw (go, memory, full) refl,
          rw (go, memory, full) (find-insert_same sub (0, none) r.topo_stf_map),
        )
        | inr few ↦ inr (
          few,
          rw (go, memory, few) refl,
          rw (go, memory, few) (find-insert_same sub (count, some s) r.topo_stf_map),
        )
      ],
    )

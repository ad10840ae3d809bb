-- ===== src/StfBuilder/Topology/Flushing.antt =====
-- What becomes of the STFs of the links when no message comes (src/StfBuilder/StfBuilderInput.cxx).
use data_distribution.Prelude.{
  ℕ, true, false, nat_eq, List, [], ◌∷◌, Option, none, some, ◌≡◌, refl, ap, find, remove, arith,
}
use data_distribution.Common.SubTimeFrame.{SubTimeFrame}
use data_distribution.StfBuilder.Topology.{
  TopoInput, is_empty_map, get_topo_stf, finish_building_current_stfs,
}

found_not_empty :
    (sub : ℕ) (p : ℕ × Option SubTimeFrame) (m : List (ℕ × (ℕ × Option SubTimeFrame)))
    → find sub m ≡ some p
    → is_empty_map m ≡ false
unfolding find
found_not_empty sub p [] h = absurd (ground (arith, h))
found_not_empty sub p (q ∷ m) h = refl

get_topo_stf_found :
    (sub n : ℕ) (o : Option SubTimeFrame) (r : TopoInput)
    → find sub r.topo_stf_map ≡ some (n, o)
    → get_topo_stf sub r
      ≡ (o, record r { topo_stf_map = remove sub r.topo_stf_map; accept_stf_data = true })
unfolding get_topo_stf
get_topo_stf_found sub n o r h =
    let there = found_not_empty sub (n, o) r.topo_stf_map h in rw (get_topo_stf, there, h) refl

-- An entry whose STF has been sent on ends the flushing: where the map begins with such an entry, only
-- that entry goes, and nothing is queued of the other links.
pub finish_building_current_stfs_stops :
    (sub n : ℕ) (subs : List ℕ) (r : TopoInput)
    → find sub r.topo_stf_map ≡ some (n, none)
    → finish_building_current_stfs (sub ∷ subs) r
      ≡ record r { topo_stf_map = remove sub r.topo_stf_map; accept_stf_data = true }
unfolding finish_building_current_stfs
finish_building_current_stfs_stops sub n subs r h =
    let first = get_topo_stf_found sub n none r h in
    rw (finish_building_current_stfs, first) (ap (λ p. p.1) first)

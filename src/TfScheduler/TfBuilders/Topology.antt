-- ===== src/TfScheduler/TfBuilders/Topology.antt =====
-- Topological distribution: findTfBuilderForTopoStf (src/TfScheduler/TfSchedulerTfBuilderInfo.cxx).
use data_distribution.Prelude.{
  ℕ, ◌+◌, ◌≤◌, ◌≡◌, ◌⊎◌, inl, inr, List, [], ◌∷◌, ◌++◌, none, some, ◌==◌, nat_eq, ltb,
  if◌then◌else◌, Option-cases, refl, arith, find, All,
}
use data_distribution.TfScheduler.TfBuilders.{
  Store, TfBuilders, TopoKey, topo_eq, id, write, least, find_tf_builder_for_topo_stf,
}

abbrev utilization : Store → ℕ → ℕ
utilization o r = (o r).total_utilization

-- `b` has the least utilization of the list, and is the candidate at hand or in the list.
abbrev pub LeastOf : Store → ℕ → List ℕ → Type 0
LeastOf o b rs = All (λ r. (o b).total_utilization ≤ (o r).total_utilization) rs

least-some :
    (o : Store) (b : ℕ) (rs : List ℕ)
    → (r : ℕ) × (least o (some b) rs ≡ some r)
      × (utilization o r ≤ utilization o b)
      × LeastOf o r rs
unfolding least
least-some o b [] = (b, refl, omega arith, tt)
least-some o b (x ∷ xs) =
    let c = if ltb (o x).total_utilization (o b).total_utilization then x else b in
    let (r, found, le, all) = least-some o c xs in
    let bounds : (utilization o c ≤ utilization o b) × (utilization o c ≤ utilization o x) =
      ground arith in
    (r, found, omega (arith, bounds.0), (omega (arith, bounds.1), all))

least-cases :
    (o : Store) (rs : List ℕ)
    → ((rs ≡ []) × (least o none rs ≡ none))
      ⊎ ((r : ℕ) × (least o none rs ≡ some r) × LeastOf o r rs)
unfolding least
least-cases o [] = inl (refl, refl)
least-cases o (x ∷ xs) = let (r, found, le, all) = least-some o x xs in inr (r, found, (le, all))

find-append_new :
    (key j : TopoKey) (r : ℕ) (m : List (TopoKey × ℕ))
    → find key m ≡ none
    → find j (m ++ (key, r) ∷ []) ≡ (if key == j then some r else find j m)
unfolding find
find-append_new key j r [] e = refl
find-append_new key j r (p ∷ m) e = ground (
  arith,
  topo_eq.beq_iff p.0 j,
  topo_eq.beq_iff key j,
  topo_eq.beq_iff p.0 key,
  find-append_new key j r m,
)

-- For every state and equipment: an equipment that is assigned keeps its TfBuilder, and nothing
-- changes. Otherwise, if no TfBuilder is ready, nobody is found and nothing changes; else a TfBuilder
-- is found whose utilization is the least of the ready list, its utilization grows by one, and no
-- other object changes, the
-- equipment is assigned to it, every other equipment keeps its assignment, and the ready list and
-- the map of the partition stay.
pub find_tf_builder_for_topo_stf_assigns :
    (key : TopoKey) (s : TfBuilders)
    → let (result, s') = find_tf_builder_for_topo_stf key s in
      ((r : ℕ) × (find key s.topo ≡ some r) × (result ≡ some (id s.objects r)) × (s' ≡ s))
      ⊎ ((find key s.topo ≡ none) × (s.ready ≡ []) × (result ≡ none) × (s' ≡ s))
      ⊎ ((r : ℕ) × (find key s.topo ≡ none)
          × LeastOf s.objects r s.ready
          × (result ≡ some (id s.objects r))
          × ((j : TopoKey) → find j s'.topo ≡ (if key == j then some r else find j s.topo))
          × (s'.objects
              ≡ write s.objects r (record (s.objects r) {
                total_utilization = (s.objects r).total_utilization + 1;
              }))
          × (s'.ready ≡ s.ready)
          × (s'.global_info ≡ s.global_info))
unfolding find_tf_builder_for_topo_stf
find_tf_builder_for_topo_stf_assigns key s = elim (Option-cases (find key s.topo)) [
  | inr (r, e) ↦ rw (e, find_tf_builder_for_topo_stf) (inl (r, refl, refl, refl))
  | inl e ↦
      rw (e, find_tf_builder_for_topo_stf)
        (elim (least-cases s.objects s.ready) [
          | inl (none_ready, found) ↦
              rw (found, find_tf_builder_for_topo_stf) (inr (inl (refl, none_ready, refl, refl)))
          | inr (r, found, all) ↦
              rw (found, find_tf_builder_for_topo_stf)
                (inr (
                  inr (
                    r,
                    refl,
                    all,
                    refl,
                    (λ j. find-append_new key j r s.topo e),
                    refl,
                    refl,
                    refl,
                  )))
        ])
]

-- ===== src/TfBuilder/Rpc/TopoIds.antt =====
-- The new ids of topological SubTimeFrames (src/TfBuilder/TfBuilderRpc.h and .cxx).
use data_distribution.Prelude.{
  ℕ, ◌≡◌, refl, ap, subst, ◌∙◌, inl, inr, true, false, not, ◌||◌, List, [], ◌∷◌, ◌++◌, Option, none,
  some, String, nat_eq, string_eq, ltb, find, remove, insert, find-insert, find-remove, add64,
  Option-cases, ==_refl,
}
use data_distribution.Common.ConcurrentQueue.{push}
use data_distribution.TfScheduler.Messages.{TfBuildingInformation, BuildTfStatus, is_topological}
use data_distribution.TfBuilder.Rpc.{
  TfBuilderRpc, add, build_tf_request, enqueue_request, rename_topo, renamed, get_id_for_topo_tf,
}

find_inserted :
    {V : Type 0} (name : String) (v : V) (m : List (String × V))
    → find name (insert name v m) ≡ some v
find_inserted name v m = find-insert name name v m ∙ (rw (==_refl name) refl)

find_renamed : (k v : ℕ) (m : List (ℕ × ℕ)) → find k (insert k v m) ≡ some v
find_renamed k v m = find-insert k k v m ∙ (rw (==_refl k) refl)

-- What the rename map says of a time frame of a StfSender.
abbrev pub new_id : String → ℕ → TfBuilderRpc → Option ℕ
new_id name id r = find id (renamed (find name r.topo_tf_id_rename_map))

entry-new :
    (name : String) (id new : ℕ) (old : List (ℕ × ℕ)) (m : List (String × List (ℕ × ℕ)))
    → find id (renamed (find name (insert name (insert id new old) m))) ≡ some new
entry-new name id new old m =
    ap (λ o. find id (renamed o)) (find_inserted name (insert id new old) m)
    ∙ find_renamed id new old

-- A new id is given back, and forgotten.
taken_back :
    (name : String) (id new : ℕ) (r : TfBuilderRpc)
    → new_id name id r ≡ some new
    → (r' : TfBuilderRpc) × (get_id_for_topo_tf name id r ≡ some (new, r'))
      × (new_id name id r' ≡ none)
unfolding get_id_for_topo_tf find
taken_back name id new r e = elim (Option-cases (find name r.topo_tf_id_rename_map)) [
  | inl f ↦ let nothing : none ≡ some new = subst (λ o. find id (renamed o) ≡ some new) f e in cc
  | inr (m, f) ↦
      let there : find id m ≡ some new = subst (λ o. find id (renamed o) ≡ some new) f e in
      let left = insert name (remove id m) r.topo_tf_id_rename_map in
      (
        record r { topo_tf_id_rename_map = left },
        rw (f, there, get_id_for_topo_tf) refl,
        ap (λ o. find id (renamed o)) (find_inserted name (remove id m) r.topo_tf_id_rename_map)
            ∙ find-remove id id m
            ∙ (rw (==_refl id) refl),
      )
]

-- For a running TfBuilder that is not to terminate, and a request for a topological SubTimeFrame of
-- one StfSender that fits into the free memory: BuildTfRequest answers OK, notices of a new id go to
-- the input stage if its queue runs, the id is the next one, so the next request gets a higher one
-- unless it wraps; getIdForTopoTf then gives that id for the StfSender's, and forgets it.
pub topo_round_trip :
    (q : TfBuildingInformation) (name : String) (size : ℕ) (r : TfBuilderRpc)
    → (not r.running || r.terminate_requested) ≡ false
    → ltb r.current_tf_buffer_size q.tf_size ≡ false
    → is_topological q.tf_source ≡ true
    → q.stf_size_map ≡ (name, size) ∷ []
    → r.received_data_queue.running ≡ true
    → let (status, r') = build_tf_request q r in
      (status ≡ BuildTfStatus.ok)
      × (r'.topo_stf_id ≡ add64 r.topo_stf_id 1)
      × (r'.received_data_queue.container
          ≡ r.received_data_queue.container ++ add r.topo_stf_id ∷ [])
      × ((r'' : TfBuilderRpc) × (get_id_for_topo_tf name q.tf_id r' ≡ some (r.topo_stf_id, r''))
          × (new_id name q.tf_id r'' ≡ none))
unfolding build_tf_request enqueue_request rename_topo push
topo_round_trip q name size r on fits topo one runs =
    rw (on, fits, topo, one, runs)
      (
        refl,
        refl,
        refl,
        taken_back name q.tf_id r.topo_stf_id _ (
            entry-new name q.tf_id r.topo_stf_id (renamed (find name r.topo_tf_id_rename_map))
              r.topo_tf_id_rename_map),
      )

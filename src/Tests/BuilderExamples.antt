-- ===== src/Tests/BuilderExamples.antt =====
-- Examples for src/TfScheduler/TfSchedulerTfBuilderInfo.cxx: two TfBuilders, one equipment.
use data_distribution.Prelude.{
  ℕ, ◌≡◌, ◌⊎◌, refl, true, List, [], ◌∷◌, some, String, ◌==◌, nat_eq, string_eq, if◌then◌else◌,
  find, insert, All, arith,
}
use data_distribution.TfScheduler.TfBuilders.{
  TfBuilders, TfBuilderUpdate, TopoKey, topo_eq, running, not_running, id, new_info, selected,
  rejected, reason, find_tf_builder_for_tf, update_tf_builder_info, estimated_size,
}
use data_distribution.TfScheduler.TfBuilders.Selection.{
  find_tf_builder_for_tf_selects, Reserved, IsUnfit, any_exceeded,
}
use data_distribution.TfScheduler.TfBuilders.Invariant.{IsValid}
use data_distribution.TfScheduler.TfBuilders.Preservation.{
  Call, updates, selects, assigns, marks, housekeeps, step, run, run-IsValid,
}

abbrev pub report : String → ℕ → TfBuilderUpdate
report name free = record {
  process_id = name;
  process_state = running;
  last_built_tf_id = 0;
  free_memory = free;
  num_tfs_in_building = 0;
}

abbrev pub joining : TfBuilderUpdate
joining = report "a" 1000

abbrev pub none_yet : TfBuilders
none_yet = record {
  running = true;
  max_tfs_in_building = 16;
  objects = λ r. new_info 0 (report "" 0);
  next_object = 0;
  global_info = [];
  ready = [];
  topo = [];
}

pub none_yet-IsValid : IsValid none_yet
unfolding find
none_yet-IsValid = record {
  named = λ k r e. cc;
  used = λ k r e. cc;
  ready_current = tt;
  ready_once = λ r. omega arith;
  topo_current = tt;
}

abbrev tst : TopoKey
tst = record { sub_spec = 3; data_origin = "TST" }

abbrev calls : List Call
calls =
    updates 10 (report "a" 1000)
    ∷ updates 20 (report "b" 5000)
    ∷ selects 2000
    ∷ marks "b" 1
    ∷ assigns tst
    ∷ housekeeps 5015 8
    ∷ []

run-IsValid_example : IsValid (run none_yet calls)
run-IsValid_example = run-IsValid calls none_yet-IsValid

-- Two known TfBuilders, of which the first has too little memory.
abbrev pub two_ready : TfBuilders
two_ready = record none_yet {
  objects = λ r. new_info 10 (if r == 0 then report "a" 1000 else report "b" 5000);
  next_object = 2;
  global_info = ("a", 0) ∷ ("b", 1) ∷ [];
  ready = 0 ∷ 1 ∷ [];
}

find_tf_builder_for_tf_selects_example :
    let est = estimated_size 2000 in
    let (result, after) = find_tf_builder_for_tf 2000 two_ready in
    ((r : ℕ) × (result ≡ selected (id two_ready.objects r)) × Reserved two_ready est r after)
    ⊎ ((result
          ≡ rejected (
              reason two_ready.ready
                (any_exceeded two_ready.objects two_ready.max_tfs_in_building est two_ready.ready)))
        × All (IsUnfit two_ready.objects two_ready.max_tfs_in_building est) two_ready.ready
        × (after ≡ two_ready))
find_tf_builder_for_tf_selects_example = find_tf_builder_for_tf_selects two_ready 2000

-- The second of the ready list is selected, and goes to its end.
selected_second : (find_tf_builder_for_tf 2000 two_ready).0 ≡ selected "b"
unfolding find_tf_builder_for_tf estimated_size
selected_second = refl

abbrev joined : TfBuilders
joined = run none_yet (updates 10 (report "a" 1000) ∷ [])

abbrev left : TfBuilderUpdate
left = record (report "a" 0) { process_state = not_running }

joined_first : find "a" joined.global_info ≡ some 0
unfolding run find step update_tf_builder_info insert
joined_first = refl

-- ===== src/TfScheduler/TfBuilders/Preservation.antt =====
-- The methods of TfSchedulerTfBuilderInfo (src/TfScheduler/TfSchedulerTfBuilderInfo.h and .cxx), in any
-- order, and the invariant of its three containers.
use data_distribution.Prelude.{
  ℕ, ◌≤◌, ◌<◌, ◌≡◌, ◌⊎◌, inl, inr, List, [], ◌∷◌, ◌++◌, none, some, String, nat_eq, string_eq, ltb,
  if◌then◌else◌, All, All-append, Bool-cases, Option-cases, refl, arith, ◌∙◌, sym, subst, find,
  find-insert, eq_iff,
}
use data_distribution.TfScheduler.TfBuilders.{
  Store, TfBuilders, TfBuilderInfo, TfBuilderUpdate, TopoKey, topo_eq, id, write, new_info,
  remove_ready_tf_builder, update_known, join, update_tf_builder_info, mark_tf_builder_with_tf_id,
  find_tf_builder_for_tf, find_tf_builder_for_topo_stf, is_not_running, least,
  set_max_tfs_in_building, housekeeping, erase_tf_builder, reap, stale_ids, stop,
}
use data_distribution.TfScheduler.TfBuilders.Selection.{find_tf_builder_for_tf_selects, Reserved}
use data_distribution.TfScheduler.TfBuilders.Invariant.{
  times, times-append, times-absent, Current, Current-same, Current-join, IsValid, same_id-IsValid,
  leave-IsValid, erase_removed-IsValid, remove_ready_tf_builder-IsValid,
}

join-IsValid :
    (now : ℕ) (u : TfBuilderUpdate) {s : TfBuilders}
    → find u.process_id s.global_info ≡ none
    → IsValid s
    → IsValid (join now u s)
unfolding join
join-IsValid now u {s} new v =
    let n = s.next_object in
    let i = new_info now u in
    let g = s.global_info in
    record {
      named = λ k r e.
          ground
            (arith, find-insert u.process_id k n g, eq_iff u.process_id k, v.named k r, v.used k r);
      used = λ k r e. ground (arith, find-insert u.process_id k n g, v.used k r);
      ready_current =
          All-append _ s.ready (n ∷ [])
            (Current-join (λ r. r) s.objects n i g s.ready v.used new v.ready_current)
            (
              ground (
                arith,
                find-insert u.process_id u.process_id n g,
                eq_iff u.process_id u.process_id,
              ),
              tt,
            );
      ready_once = λ r. ground (
        arith,
        times-append r s.ready (n ∷ []),
        v.ready_once r,
        times-absent s.objects g n s.ready v.used v.ready_current,
      );
      topo_current = Current-join (λ p. p.1) s.objects n i g s.topo v.used new v.topo_current;
    }

id-update_known :
    (now : ℕ) (u : TfBuilderUpdate) (i : TfBuilderInfo)
    → i.tf_builder_update.process_id ≡ u.process_id
    → (update_known now u i).tf_builder_update.process_id ≡ i.tf_builder_update.process_id
unfolding update_known
id-update_known now u i e = ground arith

id-write :
    (o : Store) (r j : ℕ) (i : TfBuilderInfo)
    → i.tf_builder_update.process_id ≡ id o r
    → id (write o r i) j ≡ id o j
id-write o r j i e = ground arith

-- updateTfBuilderInfo keeps the invariant, whether the TfBuilder joins, reports or leaves.
pub update_tf_builder_info-IsValid :
    (now : ℕ) (u : TfBuilderUpdate) {s : TfBuilders}
    → IsValid s
    → IsValid (update_tf_builder_info now u s)
unfolding update_tf_builder_info
update_tf_builder_info-IsValid now u {s} v = elim (Bool-cases (is_not_running u.process_state)) [
  | inl e ↦ rw e (leave-IsValid u.process_id v)
  | inr e ↦ rw e (elim (Option-cases (find u.process_id s.global_info)) [
    | inl new ↦ rw (new, update_tf_builder_info) (join-IsValid now u new v)
    | inr (r, known) ↦
        rw (known, update_tf_builder_info)
          (same_id-IsValid _
            (λ j.
              id-write s.objects r j (update_known now u (s.objects r))
                (id-update_known now u (s.objects r) (v.named u.process_id r known)))
            v)
  ])
]

mark_tf_builder_with_tf_id-IsValid :
    (name : String) (tf_id : ℕ) {s : TfBuilders}
    → IsValid s
    → IsValid (mark_tf_builder_with_tf_id name tf_id s).1
unfolding mark_tf_builder_with_tf_id
mark_tf_builder_with_tf_id-IsValid name tf_id {s} v =
    elim (Option-cases (find name s.global_info)) [
      | inl e ↦ rw (e, mark_tf_builder_with_tf_id) v
      | inr (r, e) ↦
          rw (e, mark_tf_builder_with_tf_id)
            (same_id-IsValid _ (λ j. id-write s.objects r j _ refl) v)
    ]

All-rotate :
    (P : ℕ → Type 0) (xs ys : List ℕ) (r : ℕ) → All P (xs ++ r ∷ ys) → All P ((xs ++ ys) ++ r ∷ [])
All-rotate P [] ys r h = All-append P ys (r ∷ []) h.1 (h.0, tt)
All-rotate P (x ∷ xs) ys r h = (h.0, All-rotate P xs ys r h.1)

times-rotate :
    (j : ℕ) (xs ys : List ℕ) (r : ℕ) → times j ((xs ++ ys) ++ r ∷ []) ≡ times j (xs ++ r ∷ ys)
times-rotate j xs ys r =
    ground
      (arith, times-append j (xs ++ ys) (r ∷ []), times-append j xs ys, times-append j xs (r ∷ ys))

Reserved-IsValid :
    {s after : TfBuilders} (est r : ℕ)
    → Reserved s est r after
    → after.next_object ≡ s.next_object
    → IsValid s
    → IsValid after
Reserved-IsValid {s} {after} est r t n v =
    let ready = subst (All (Current s.objects s.global_info)) t.was v.ready_current in
    record {
      named = λ k j e. t.same_id j ∙ v.named k j (subst (λ g. find k g ≡ some j) t.same_global e);
      used = λ k j e.
          subst (λ m. j < m) (sym n) (v.used k j (subst (λ g. find k g ≡ some j) t.same_global e));
      ready_current =
          subst (λ g. All (Current after.objects g) after.ready) (sym t.same_global)
            (Current-same (λ r. r) s.objects after.objects s.global_info after.ready t.same_id
              (subst (All (Current s.objects s.global_info)) (sym t.rotated)
                (All-rotate _ t.before t.behind r ready)));
      ready_once = λ j.
          subst (λ l. times j l ≤ 1) (sym t.rotated)
            (ground (
              arith,
              times-rotate j t.before t.behind r,
              subst (λ l. times j l ≤ 1) t.was (v.ready_once j),
            ));
      topo_current =
          subst (λ g. All (λ p. Current after.objects g p.1) after.topo) (sym t.same_global)
            (Current-same (λ p. p.1) s.objects after.objects s.global_info after.topo t.same_id
              (subst (All (λ p. Current s.objects s.global_info p.1)) (sym t.same_topo)
                v.topo_current));
    }

next_object-find_tf_builder_for_tf :
    (size : ℕ) (s : TfBuilders) → (find_tf_builder_for_tf size s).1.next_object ≡ s.next_object
unfolding find_tf_builder_for_tf
next_object-find_tf_builder_for_tf size s = ground arith

find_tf_builder_for_tf-IsValid :
    (size : ℕ) {s : TfBuilders} → IsValid s → IsValid (find_tf_builder_for_tf size s).1
find_tf_builder_for_tf-IsValid size {s} v = elim (find_tf_builder_for_tf_selects s size) [
  | inl (r, e, t) ↦ Reserved-IsValid _ r t (next_object-find_tf_builder_for_tf size s) v
  | inr (e, all, same) ↦ rw same v
]

least-All :
    (P : ℕ → Type 0) (o : Store) (b : ℕ) (rs : List ℕ)
    → P b
    → All P rs
    → (r : ℕ) × (least o (some b) rs ≡ some r) × P r
unfolding least
least-All P o b [] h a = (b, refl, h)
least-All P o b (x ∷ xs) h a =
    least-All P o (if ltb (o x).total_utilization (o b).total_utilization then x else b) xs
      (elim (Bool-cases (ltb (o x).total_utilization (o b).total_utilization)) [
        | inl e ↦ rw e a.0
        | inr e ↦ rw e h
      ])
      a.1

least_cases :
    (P : ℕ → Type 0) (o : Store) (rs : List ℕ)
    → All P rs
    → (least o none rs ≡ none) ⊎ ((r : ℕ) × (least o none rs ≡ some r) × P r)
unfolding least
least_cases P o [] a = inl refl
least_cases P o (x ∷ xs) a = inr (least-All P o x xs a.0 a.1)

assign-IsValid :
    (key : TopoKey) (r : ℕ) {s : TfBuilders}
    → Current s.objects s.global_info r
    → IsValid s
    → IsValid (record s { topo = s.topo ++ (key, r) ∷ [] })
assign-IsValid key r {s} c v = record {
  named = v.named;
  used = v.used;
  ready_current = v.ready_current;
  ready_once = v.ready_once;
  topo_current = All-append _ s.topo ((key, r) ∷ []) v.topo_current (c, tt);
}

find_tf_builder_for_topo_stf-IsValid :
    (key : TopoKey) {s : TfBuilders} → IsValid s → IsValid (find_tf_builder_for_topo_stf key s).1
unfolding find_tf_builder_for_topo_stf
find_tf_builder_for_topo_stf-IsValid key {s} v = elim (Option-cases (find key s.topo)) [
  | inr (r, e) ↦ rw (e, find_tf_builder_for_topo_stf) v
  | inl e ↦
      rw (e, find_tf_builder_for_topo_stf)
        (elim (least_cases _ s.objects s.ready v.ready_current) [
          | inl nobody ↦ rw (nobody, find_tf_builder_for_topo_stf) v
          | inr (r, found, current) ↦
              rw (found, find_tf_builder_for_topo_stf)
                (same_id-IsValid _ (λ j. id-write s.objects r j _ refl)
                  (assign-IsValid key r current v))
        ])
]

reap-IsValid : (names : List String) {s : TfBuilders} → IsValid s → IsValid (reap names s)
unfolding reap erase_tf_builder
reap-IsValid [] v = v
reap-IsValid (name ∷ names) {s} v = reap-IsValid names (erase_removed-IsValid name v)

housekeeping-IsValid :
    (now max_tfs : ℕ) {s : TfBuilders} → IsValid s → IsValid (housekeeping now max_tfs s)
unfolding housekeeping set_max_tfs_in_building
housekeeping-IsValid now max_tfs {s} v =
    let s' = set_max_tfs_in_building max_tfs s in
    reap-IsValid (stale_ids s'.objects now s'.global_info) {s = s'} (record {
      named = v.named;
      used = v.used;
      ready_current = v.ready_current;
      ready_once = v.ready_once;
      topo_current = v.topo_current;
    })

erased-IsValid : (name : String) {s : TfBuilders} → IsValid s → IsValid (erase_tf_builder name s)
unfolding erase_tf_builder
erased-IsValid name v = erase_removed-IsValid name v

limited-IsValid : (n : ℕ) {s : TfBuilders} → IsValid s → IsValid (set_max_tfs_in_building n s)
unfolding set_max_tfs_in_building
limited-IsValid n v = record {
  named = v.named;
  used = v.used;
  ready_current = v.ready_current;
  ready_once = v.ready_once;
  topo_current = v.topo_current;
}

-- The calls of the scheduler's threads. Each holds the locks of what it reads and writes; a round of
-- HousekeepingThread is a call as a whole, and so is each of the parts in which it holds its lock.
pub data Call : Type 0 where
  updates : ℕ → TfBuilderUpdate → Call
  selects : ℕ → Call
  assigns : TopoKey → Call
  marks : String → ℕ → Call
  removes : String → Call
  housekeeps : ℕ → ℕ → Call
  erases : String → Call
  limits : ℕ → Call
  stops : Call

unfoldable pub step : TfBuilders → Call → TfBuilders
step s (updates now u) = update_tf_builder_info now u s
step s (selects size) = (find_tf_builder_for_tf size s).1
step s (assigns key) = (find_tf_builder_for_topo_stf key s).1
step s (marks name tf_id) = (mark_tf_builder_with_tf_id name tf_id s).1
step s (removes name) = remove_ready_tf_builder name s
step s (housekeeps now n) = housekeeping now n s
step s (erases name) = erase_tf_builder name s
step s (limits n) = set_max_tfs_in_building n s
step s stops = stop s

unfoldable pub run : TfBuilders → List Call → TfBuilders
run s [] = s
run s (c ∷ cs) = run (step s c) cs

stop-IsValid : (s : TfBuilders) → IsValid (stop s)
unfolding stop find
stop-IsValid s = record {
  named = λ k r e. cc;
  used = λ k r e. cc;
  ready_current = tt;
  ready_once = λ r. omega arith;
  topo_current = tt;
}

pub step-IsValid : (c : Call) {s : TfBuilders} → IsValid s → IsValid (step s c)
unfolding step
step-IsValid (updates now u) v = update_tf_builder_info-IsValid now u v
step-IsValid (selects size) v = find_tf_builder_for_tf-IsValid size v
step-IsValid (assigns key) v = find_tf_builder_for_topo_stf-IsValid key v
step-IsValid (marks name tf_id) v = mark_tf_builder_with_tf_id-IsValid name tf_id v
step-IsValid (removes name) v = remove_ready_tf_builder-IsValid name v
step-IsValid (housekeeps now n) v = housekeeping-IsValid now n v
step-IsValid (erases name) v = erased-IsValid name v
step-IsValid (limits n) v = limited-IsValid n v
step-IsValid stops {s} v = stop-IsValid s

-- For every sequence of calls and every state from which it starts: if each entry of the map of the
-- partition is under its own name and below the next reference, and each ready or assigned reference
-- is the one that the map has for its TfBuilder, no ready one twice, then this holds behind the
-- sequence.
pub run-IsValid : (cs : List Call) {s : TfBuilders} → IsValid s → IsValid (run s cs)
unfolding run
run-IsValid [] v = v
run-IsValid (c ∷ cs) {s} v = run-IsValid cs (step-IsValid c v)

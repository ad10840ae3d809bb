-- ===== src/TfBuilder/Rpc/Accounting.antt =====
-- The memory accounting of the TfBuilder (src/TfBuilder/TfBuilderRpc.cxx).
use data_distribution.Prelude.{
  ℕ, suc, ◌+◌, ◌%◌, ◌≤◌, ◌<◌, ◌≡◌, refl, ap, ◌∙◌, inl, inr, true, false, not, ◌||◌, List, [], ◌∷◌,
  none, some, String, ◌==◌, nat_eq, ltb, leb, find, remove, insert, find-insert, find-remove,
  length, add64, u64_mod, Bool-cases, Option-cases, arith,
}
use data_distribution.TfScheduler.Messages.{TfBuildingInformation, is_topological}
use data_distribution.TfBuilder.Rpc.{
  TfBuilderRpc, u32_mod, record_tf_built, record_tf_forwarded, build_tf_request, enqueue_request,
  rename_topo, reset_run_counters,
}

abbrev pub Sizes : Type 0
Sizes = List (ℕ × ℕ)

abbrev pub total : Sizes → ℕ
total [] = 0
total (p ∷ m) = p.1 + total m

abbrev pub Unique : Sizes → Type 0
Unique [] = Unit
Unique (p ∷ m) = (find p.0 m ≡ none) × Unique m

insert_new :
    (k v : ℕ) (m : Sizes)
    → find k m ≡ none
    → Unique m
    → (total (insert k v m) ≡ total m + v)
      × (length (insert k v m) ≡ suc (length m))
      × Unique (insert k v m)
unfolding find insert
insert_new k v [] h u = (omega arith, refl, (refl, tt))
insert_new k v (p ∷ m) h u = elim (Bool-cases (p.0 == k)) [
  | inl e ↦ ground (arith, e, h)
  | inr e ↦
      let (t, l, w) = insert_new k v m (ground (arith, e, h)) u.1 in
      rw e (omega (arith, t), omega (arith, l), (ground (arith, find-insert k p.0 v m, e, u.0), w))
]

remove_absent : (k : ℕ) (m : Sizes) → find k m ≡ none → remove k m ≡ m
unfolding find remove
remove_absent k [] h = refl
remove_absent k (p ∷ m) h = ground (arith, remove_absent k m)

remove_there :
    (k v : ℕ) (m : Sizes)
    → find k m ≡ some v
    → Unique m
    → (total (remove k m) + v ≡ total m)
      × (suc (length (remove k m)) ≡ length m)
      × Unique (remove k m)
unfolding find remove
remove_there k v [] h u = cc
remove_there k v (p ∷ m) h u = elim (Bool-cases (p.0 == k)) [
  | inl e ↦
      let same : v ≡ p.1 = ground (arith, e, h) in
      let rest = remove_absent k m (ground (arith, e, u.0)) in
      rw (e, rest, same) (omega arith, refl, u.1)
  | inr e ↦
      let (t, l, w) = remove_there k v m (ground (arith, e, h)) u.1 in
      rw e (omega (arith, t), omega (arith, l), (ground (arith, find-remove k p.0 m, e, u.0), w))
]

-- What is free and what the built time frames take make up the buffer.
pub record IsBalanced (r : TfBuilderRpc) : Type 0 where
  pub bounded : r.buffer_size < u64_mod
  pub sizes : r.current_tf_buffer_size + total r.tf_id_sizes ≡ r.buffer_size
  pub counted : r.num_buffered_tfs ≡ length r.tf_id_sizes % u32_mod
  pub unique : Unique r.tf_id_sizes

record_tf_built-IsBalanced :
    (id size : ℕ) (r : TfBuilderRpc)
    → find id r.tf_id_sizes ≡ none
    → size ≤ r.current_tf_buffer_size
    → IsBalanced r
    → IsBalanced (record_tf_built id size r).1
unfolding record_tf_built
record_tf_built-IsBalanced id size r new fits v = elim (Bool-cases (not r.running)) [
  | inl e ↦ rw e v
  | inr e ↦
      let (t, l, u) = insert_new id size r.tf_id_sizes new v.unique in
      let enough : leb size r.current_tf_buffer_size ≡ true = ground arith in
      rw e (record {
        bounded = v.bounded;
        sizes = rw enough (omega (arith, t, v.sizes));
        counted = omega (arith, l, v.counted);
        unique = u;
      })
]

record_tf_forwarded-IsBalanced :
    (id : ℕ) (r : TfBuilderRpc) → IsBalanced r → IsBalanced (record_tf_forwarded id r).1
unfolding record_tf_forwarded
record_tf_forwarded-IsBalanced id r v = elim (Bool-cases (not r.running)) [
  | inl e ↦ rw e v
  | inr e ↦ rw e (elim (Option-cases (find id r.tf_id_sizes)) [
    | inl f ↦ rw (f, record_tf_forwarded) v
    | inr (size, f) ↦
        let (t, l, u) = remove_there id size r.tf_id_sizes f v.unique in
        rw (f, record_tf_forwarded)
          (record {
            bounded = v.bounded;
            sizes = omega (arith, t, v.sizes, v.bounded);
            counted = omega (arith, l, v.counted);
            unique = u;
          })
  ])
]

same_sizes :
    (r t : TfBuilderRpc)
    → t.buffer_size ≡ r.buffer_size
    → t.current_tf_buffer_size ≡ r.current_tf_buffer_size
    → t.tf_id_sizes ≡ r.tf_id_sizes
    → t.num_buffered_tfs ≡ r.num_buffered_tfs
    → IsBalanced r
    → IsBalanced t
same_sizes r t b c s n v = record {
  bounded = rw b v.bounded;
  sizes = rw (b, c, s) v.sizes;
  counted = rw (n, s) v.counted;
  unique = rw s v.unique;
}

rename_topo-IsBalanced :
    (m : List (String × ℕ)) (id : ℕ) (r : TfBuilderRpc)
    → IsBalanced r
    → IsBalanced (rename_topo m id r)
unfolding rename_topo
rename_topo-IsBalanced [] id r v = v
rename_topo-IsBalanced (p ∷ m) id r v = same_sizes r _ refl refl refl refl v

build_tf_request-IsBalanced :
    (q : TfBuildingInformation) (r : TfBuilderRpc)
    → IsBalanced r
    → IsBalanced (build_tf_request q r).1
unfolding build_tf_request enqueue_request
build_tf_request-IsBalanced q r v =
    let r' = record r { num_tfs_in_building = r.num_tfs_in_building + 1 } in
    let v' : IsBalanced r' = same_sizes r _ refl refl refl refl v in
    elim (Bool-cases (not r.running || r.terminate_requested)) [
      | inl e ↦ rw e v
      | inr e ↦ rw e (elim (Bool-cases (ltb r.current_tf_buffer_size q.tf_size)) [
        | inl f ↦ rw f v
        | inr f ↦ rw f (elim (Bool-cases (is_topological q.tf_source)) [
          | inl g ↦ rw g (
              same_sizes (rename_topo q.stf_size_map q.tf_id r') _ refl refl refl refl
                (rename_topo-IsBalanced q.stf_size_map q.tf_id r' v'))
          | inr g ↦ rw g (same_sizes r _ refl refl refl refl v)
        ])
      ])
    ]

-- The calls that the accounting sees: requests, the stages of a time frame, and a new run.
pub data Event : Type 0 where
  requests : TfBuildingInformation → Event
  builds : ℕ → ℕ → Event
  forwards : ℕ → Event
  resets : Event

unfoldable pub step : TfBuilderRpc → Event → TfBuilderRpc
step r (requests q) = (build_tf_request q r).1
step r (builds id size) = (record_tf_built id size r).1
step r (forwards id) = (record_tf_forwarded id r).1
step r resets = reset_run_counters r

unfoldable pub run : TfBuilderRpc → List Event → TfBuilderRpc
run r [] = r
run r (e ∷ es) = run (step r e) es

-- Every time frame that is built is new, as the source asserts, and there is room for it.
abbrev pub Fits : TfBuilderRpc → List Event → Type 0
Fits r [] = Unit
Fits r (builds id size ∷ es) =
    (find id r.tf_id_sizes ≡ none)
    × (size ≤ r.current_tf_buffer_size)
    × Fits (step r (builds id size)) es
Fits r (requests q ∷ es) = Fits (step r (requests q)) es
Fits r (forwards id ∷ es) = Fits (step r (forwards id)) es
Fits r (resets ∷ es) = Fits (step r resets) es

-- For every sequence of requests, built and forwarded time frames and new runs, in which each built
-- time frame is new and no larger than what is free: if the free size and the sizes of the buffered
-- time frames make up the buffer, which is below 2 ^ 64 bytes, the count of buffered time frames is
-- theirs modulo 2 ^ 32 and no id is buffered twice, then this is so at the end.
pub run-IsBalanced :
    (r : TfBuilderRpc) (es : List Event) → Fits r es → IsBalanced r → IsBalanced (run r es)
unfolding run step reset_run_counters
run-IsBalanced r [] f v = v
run-IsBalanced r (requests q ∷ es) f v =
    run-IsBalanced (build_tf_request q r).1 es f (build_tf_request-IsBalanced q r v)
run-IsBalanced r (builds id size ∷ es) (new, fits, f) v =
    run-IsBalanced (record_tf_built id size r).1 es f
      (record_tf_built-IsBalanced id size r new fits v)
run-IsBalanced r (forwards id ∷ es) f v =
    run-IsBalanced (record_tf_forwarded id r).1 es f (record_tf_forwarded-IsBalanced id r v)
run-IsBalanced r (resets ∷ es) f v =
    run-IsBalanced (reset_run_counters r) es f
      (record { bounded = v.bounded; sizes = omega arith; counted = refl; unique = tt })

forwarded :
    (id size : ℕ) (r : TfBuilderRpc)
    → r.running ≡ true
    → find id r.tf_id_sizes ≡ some size
    → ((record_tf_forwarded id r).1.current_tf_buffer_size ≡ add64 r.current_tf_buffer_size size)
      × ((record_tf_forwarded id r).1.tf_id_sizes ≡ remove id r.tf_id_sizes)
unfolding record_tf_forwarded
forwarded id size r e f = rw (e, f, record_tf_forwarded) (refl, refl)

built_over :
    (id size : ℕ) (r : TfBuilderRpc)
    → r.running ≡ true
    → r.current_tf_buffer_size < size
    → ((record_tf_built id size r).1.running ≡ true)
      × ((record_tf_built id size r).1.current_tf_buffer_size ≡ 0)
      × ((record_tf_built id size r).1.tf_id_sizes ≡ insert id size r.tf_id_sizes)
unfolding record_tf_built
built_over id size r e large =
    let no_room : leb size r.current_tf_buffer_size ≡ false = ground arith in
    rw (e, no_room) (refl, refl, refl)

-- For a running TfBuilder with balanced accounting: a time frame that is larger than what is free,
-- once built and forwarded, leaves its own size free, so more than there was before, and what is free
-- and what is buffered exceed the buffer.
pub overrun :
    (id size : ℕ) (r : TfBuilderRpc)
    → IsBalanced r
    → r.running ≡ true
    → find id r.tf_id_sizes ≡ none
    → r.current_tf_buffer_size < size
    → size < u64_mod
    → let r' = run r (builds id size ∷ forwards id ∷ []) in
      (r'.current_tf_buffer_size ≡ size)
      × (r.buffer_size < r'.current_tf_buffer_size + total r'.tf_id_sizes)
unfolding run step
overrun id size r v e new large small =
    let sizes = insert id size r.tf_id_sizes in
    let (t, l, u) = insert_new id size r.tf_id_sizes new v.unique in
    let there : find id sizes ≡ some size = ground (arith, find-insert id id size r.tf_id_sizes) in
    let (t', l', u') = remove_there id size sizes there u in
    let b = (record_tf_built id size r).1 in
    let (on, nothing, kept) = built_over id size r e large in
    let (free, left) = forwarded id size b on (ap (find id) kept ∙ there) in
    let whole : add64 b.current_tf_buffer_size size ≡ size = rw nothing (omega arith) in
    let remains : total (record_tf_forwarded id b).1.tf_id_sizes ≡ total (remove id sizes) =
      ap total (left ∙ ap (remove id) kept) in
    (free ∙ whole, omega (arith, t, t', v.sizes, free, whole, remains))

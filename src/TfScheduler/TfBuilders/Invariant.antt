-- ===== src/TfScheduler/TfBuilders/Invariant.antt =====
-- The invariant of the three containers of TfSchedulerTfBuilderInfo
-- (src/TfScheduler/TfSchedulerTfBuilderInfo.h): what is ready or assigned is current, once.
use data_distribution.Prelude.{
  ℕ, suc, ◌+◌, ◌≤◌, ◌<◌, ◌≡◌, ◌≢◌, inl, inr, List, [], ◌∷◌, ◌++◌, none, some, String, ◌==◌, ==_iff,
  nat_eq, string_eq, if◌then◌else◌, All, All-map, Bool-cases, Option-cases, refl, ap, arith, ◌∙◌,
  sym, subst, find, remove, insert, find-insert, find-remove, eq_iff,
}
use data_distribution.TfScheduler.TfBuilders.{
  Store, TfBuilders, TfBuilderInfo, TopoKey, id, write, remove_first, remove_assigned,
  remove_ready_tf_builder, leave,
}

-- How often a reference stands in a list.
abbrev pub times : ℕ → List ℕ → ℕ
times r [] = 0
times r (x ∷ xs) = if x == r then suc (times r xs) else times r xs

pub times-append : (r : ℕ) (xs ys : List ℕ) → times r (xs ++ ys) ≡ times r xs + times r ys
times-append r [] ys = omega arith
times-append r (x ∷ xs) ys = ground (arith, times-append r xs ys)

-- The reference is the one under which the partition knows its TfBuilder.
abbrev pub Current : Store → List (String × ℕ) → ℕ → Type 0
Current o g r = find (id o r) g ≡ some r

pub record IsValid (s : TfBuilders) : Type 0 where
  pub named : (k : String) (r : ℕ) → find k s.global_info ≡ some r → id s.objects r ≡ k
  pub used : (k : String) (r : ℕ) → find k s.global_info ≡ some r → r < s.next_object
  pub ready_current : All (Current s.objects s.global_info) s.ready
  pub ready_once : (r : ℕ) → times r s.ready ≤ 1
  pub topo_current : All (λ p. Current s.objects s.global_info p.1) s.topo

-- No reference of the list is to a TfBuilder of this name.
abbrev pub Without {ℓ} : {A : Type ℓ} → Store → String → (A → ℕ) → List A → Type ℓ
Without o name ref [] = Unit
Without o name ref (p ∷ ps) = (id o (ref p) ≢ name) × Without o name ref ps

module _ (o : Store) (name : String) where
  times-remove_first : (r : ℕ) (rs : List ℕ) → times r (remove_first o name rs) ≤ times r rs
  unfolding remove_first
  times-remove_first r [] = omega arith
  times-remove_first r (x ∷ xs) = ground (arith, times-remove_first r xs)

  remove_first-All : (P : ℕ → Type 0) (rs : List ℕ) → All P rs → All P (remove_first o name rs)
  unfolding remove_first
  remove_first-All P [] h = tt
  remove_first-All P (x ∷ xs) h = elim (Bool-cases (id o x == name)) [
    | inl e ↦ rw e h.1
    | inr e ↦ rw e (h.0, remove_first-All P xs h.1)
  ]

  remove_assigned-All :
      (P : TopoKey × ℕ → Type 0) (ps : List (TopoKey × ℕ))
      → All P ps
      → All P (remove_assigned o name ps)
  unfolding remove_assigned
  remove_assigned-All P [] h = tt
  remove_assigned-All P (x ∷ xs) h = elim (Bool-cases (id o x.1 == name)) [
    | inl e ↦ rw e (remove_assigned-All P xs h.1)
    | inr e ↦ rw e (h.0, remove_assigned-All P xs h.1)
  ]

  remove_assigned-Without :
      (ps : List (TopoKey × ℕ)) → Without o name (λ p. p.1) (remove_assigned o name ps)
  unfolding remove_assigned
  remove_assigned-Without [] = tt
  remove_assigned-Without (x ∷ xs) = elim (Bool-cases (id o x.1 == name)) [
    | inl e ↦ rw e (remove_assigned-Without xs)
    | inr e ↦ rw e ((λ p. cc (e, (==_iff (id o x.1) name).1 p)), remove_assigned-Without xs)
  ]

  -- Two current references to one TfBuilder are the same.
  absent-Without :
      (g : List (String × ℕ)) (r : ℕ) (rs : List ℕ)
      → find name g ≡ some r
      → All (Current o g) rs
      → times r rs ≡ 0
      → Without o name (λ x. x) rs
  absent-Without g r [] e h n = tt
  absent-Without g r (x ∷ xs) e h n =
      (λ p. ground (arith, ap (λ k. find k g) p), absent-Without g r xs e h.1 (ground arith))

  remove_first-Without :
      (g : List (String × ℕ)) (rs : List ℕ)
      → All (Current o g) rs
      → ((r : ℕ) → times r rs ≤ 1)
      → Without o name (λ x. x) (remove_first o name rs)
  unfolding remove_first
  remove_first-Without g [] h once = tt
  remove_first-Without g (x ∷ xs) h once = elim (Bool-cases (id o x == name)) [
    | inl e ↦ rw e (
        absent-Without g x xs (subst (λ k. find k g ≡ some x) ((==_iff (id o x) name).0 e) h.0) h.1
          (ground (arith, once x)))
    | inr e ↦ rw e (
      (λ p. cc (e, (==_iff (id o x) name).1 p)),
      remove_first-Without g xs h.1 (λ r. ground (arith, once r)),
    )
  ]

module _ {A : Type 0} (ref : A → ℕ) where
  Current-remove :
      (o : Store) (name : String) (g : List (String × ℕ)) (ps : List A)
      → All (λ p. Current o g (ref p)) ps
      → Without o name ref ps
      → All (λ p. Current o (remove name g) (ref p)) ps
  Current-remove o name g [] h w = tt
  Current-remove o name g (p ∷ ps) h w = (
    ground (
      arith,
      find-remove name (id o (ref p)) g,
      eq_iff name (id o (ref p)),
      λ (e : id o (ref p) ≡ name). w.0 e,
    ),
    Current-remove o name g ps h.1 w.1,
  )

  -- Objects change, their names do not.
  pub Current-same :
      (o o' : Store) (g : List (String × ℕ)) (ps : List A)
      → ((r : ℕ) → id o' r ≡ id o r)
      → All (λ p. Current o g (ref p)) ps
      → All (λ p. Current o' g (ref p)) ps
  Current-same o o' g ps same =
      All-map (λ p c. subst (λ k. find k g ≡ some (ref p)) (sym (same (ref p))) c) ps

  -- A new TfBuilder, under a new reference.
  pub Current-join :
      (o : Store) (n : ℕ) (i : TfBuilderInfo) (g : List (String × ℕ)) (ps : List A)
      → ((k : String) (r : ℕ) → find k g ≡ some r → r < n)
      → find i.tf_builder_update.process_id g ≡ none
      → All (λ p. Current o g (ref p)) ps
      → All (λ p. Current (write o n i) (insert i.tf_builder_update.process_id n g) (ref p)) ps
  Current-join o n i g [] used new h = tt
  Current-join o n i g (p ∷ ps) used new h =
      let name = i.tf_builder_update.process_id in
      let k = id o (ref p) in
      (
        ground (
          arith,
          used k (ref p) h.0,
          find-insert name k n g,
          eq_iff name k,
          λ (e : name ≡ k). ap (λ t. find t g) e,
        ),
        Current-join o n i g ps used new h.1,
      )

pub times-absent :
    (o : Store) (g : List (String × ℕ)) (n : ℕ) (rs : List ℕ)
    → ((k : String) (r : ℕ) → find k g ≡ some r → r < n)
    → All (Current o g) rs
    → times n rs ≡ 0
times-absent o g n [] used h = refl
times-absent o g n (x ∷ xs) used h =
    ground (arith, used (id o x) x h.0, times-absent o g n xs used h.1)

-- Objects change, their names do not, and the containers stay.
pub same_id-IsValid :
    {s : TfBuilders} (o : Store)
    → ((r : ℕ) → id o r ≡ id s.objects r)
    → IsValid s
    → IsValid (record s { objects = o })
same_id-IsValid {s} o same v = record {
  named = λ k r e. same r ∙ v.named k r e;
  used = v.used;
  ready_current = Current-same (λ r. r) s.objects o s.global_info s.ready same v.ready_current;
  ready_once = v.ready_once;
  topo_current = Current-same (λ p. p.1) s.objects o s.global_info s.topo same v.topo_current;
}

-- removeReadyTfBuilder keeps the invariant, and leaves no reference to the TfBuilder.
pub remove_ready_tf_builder-IsValid :
    (name : String) {s : TfBuilders} → IsValid s → IsValid (remove_ready_tf_builder name s)
unfolding remove_ready_tf_builder
remove_ready_tf_builder-IsValid name {s} v = record {
  named = v.named;
  used = v.used;
  ready_current =
      remove_first-All s.objects name (Current s.objects s.global_info) s.ready v.ready_current;
  ready_once = λ r. omega (arith, times-remove_first s.objects name r s.ready, v.ready_once r);
  topo_current = remove_assigned-All s.objects name _ s.topo v.topo_current;
}

-- In a valid state no reference to the TfBuilder is left by removeReadyTfBuilder.
pub remove_ready_tf_builder-Without :
    (name : String) {s : TfBuilders}
    → IsValid s
    → let s' = remove_ready_tf_builder name s in
      Without s.objects name (λ r. r) s'.ready × Without s.objects name (λ p. p.1) s'.topo
unfolding remove_ready_tf_builder
remove_ready_tf_builder-Without name {s} v = (
  remove_first-Without s.objects name s.global_info s.ready v.ready_current v.ready_once,
  remove_assigned-Without s.objects name s.topo,
)

-- Erasing a TfBuilder from the partition after removing the references to it.
erase-IsValid :
    (name : String) {s : TfBuilders}
    → IsValid s
    → Without s.objects name (λ r. r) s.ready
    → Without s.objects name (λ p. p.1) s.topo
    → IsValid (record s { global_info = remove name s.global_info })
erase-IsValid name {s} v wr wt = record {
  named = λ k r e. ground (arith, find-remove name k s.global_info, v.named k r);
  used = λ k r e. ground (arith, find-remove name k s.global_info, v.used k r);
  ready_current = Current-remove (λ r. r) s.objects name s.global_info s.ready v.ready_current wr;
  ready_once = v.ready_once;
  topo_current = Current-remove (λ p. p.1) s.objects name s.global_info s.topo v.topo_current wt;
}

-- The same two calls, in either order.
pub erase_removed-IsValid :
    (name : String) {s : TfBuilders}
    → IsValid s
    → let s' = remove_ready_tf_builder name s in
      IsValid (record s' { global_info = remove name s'.global_info })
erase_removed-IsValid name {s} v =
    let w = remove_ready_tf_builder-Without name v in
    erase-IsValid name (remove_ready_tf_builder-IsValid name v)
      (unfold remove_ready_tf_builder in w.0) (unfold remove_ready_tf_builder in w.1)

pub leave-IsValid : (name : String) {s : TfBuilders} → IsValid s → IsValid (leave name s)
unfolding leave
leave-IsValid name {s} v = elim (Option-cases (find name s.global_info)) [
  | inl e ↦ rw (e, leave) v
  | inr (r, e) ↦ rw (e, leave) (erase_removed-IsValid name v)
]

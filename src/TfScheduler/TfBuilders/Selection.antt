-- ===== src/TfScheduler/TfBuilders/Selection.antt =====
-- Which TfBuilder findTfBuilderForTf (src/TfScheduler/TfSchedulerTfBuilderInfo.cxx) selects.
use data_distribution.Prelude.{
  ℕ, ◌+◌, ◌-◌, ◌≤◌, ◌<◌, ◌≡◌, ◌⊎◌, inl, inr, Bool, true, false, ◌||◌, List, [], ◌∷◌, ◌++◌, nat_eq,
  string_eq, leb, All, Bool-cases, refl, ap, arith, ◌∙◌, sym, subst,
}
use data_distribution.TfScheduler.TfBuilders.{
  Store, TfBuilders, Scan, hit, miss, behind, scan, estimated_size, find_tf_builder_for_tf,
  selected, rejected, reason, id, write,
}

module _ (o : Store) (max_tfs size : ℕ) where
  abbrev pub IsFit : ℕ → Type 0
  IsFit r = ((o r).tfs_in_building < max_tfs) × (size ≤ (o r).estimated_free_memory)

  abbrev pub IsUnfit : ℕ → Type 0
  IsUnfit r = (max_tfs ≤ (o r).tfs_in_building) ⊎ ((o r).estimated_free_memory < size)

  abbrev pub any_exceeded : List ℕ → Bool
  any_exceeded [] = false
  any_exceeded (r ∷ rs) = leb max_tfs (o r).tfs_in_building || any_exceeded rs

  abbrev pub Hits : List ℕ → ℕ → List ℕ → Type 0
  Hits rs found others =
      (before : List ℕ) × (after : List ℕ) × (rs ≡ before ++ found ∷ after)
      × (others ≡ before ++ after)
      × All IsUnfit before
      × IsFit found

  abbrev pub Outcome : List ℕ → Bool → Scan → Type 0
  Outcome rs exceeded r =
      ((found : ℕ) × (others : List ℕ) × (r ≡ hit found others) × Hits rs found others)
      ⊎ ((r ≡ miss (exceeded || any_exceeded rs)) × All IsUnfit rs)

  behind-Outcome :
      (e e' : Bool) (r : ℕ) (rs : List ℕ) (t : Scan)
      → IsUnfit r
      → (e' || any_exceeded rs) ≡ (e || any_exceeded (r ∷ rs))
      → Outcome rs e' t
      → Outcome (r ∷ rs) e (behind r t)
  behind-Outcome e e' r rs t u same (inl (f, others, p, (before, after, split, rest, unfit, fit))) =
      inl (
        f,
        r ∷ others,
        ap (behind r) p,
        (r ∷ before, after, ap (◌∷◌ r) split, ap (◌∷◌ r) rest, (u, unfit), fit),
      )
  behind-Outcome e e' r rs t u same (inr (p, all)) = inr (ap (behind r) p ∙ ap miss same, (u, all))

  module _ (e : Bool) (r : ℕ) (rs : List ℕ) where
    scan_exceeded :
        leb max_tfs (o r).tfs_in_building ≡ true
        → scan o max_tfs size e (r ∷ rs) ≡ behind r (scan o max_tfs size true rs)
    unfolding scan
    scan_exceeded over = rw over

    scan_fits :
        leb max_tfs (o r).tfs_in_building ≡ false
        → leb size (o r).estimated_free_memory ≡ true
        → scan o max_tfs size e (r ∷ rs) ≡ hit r rs
    unfolding scan
    scan_fits under enough = rw (under, enough)

    scan_small :
        leb max_tfs (o r).tfs_in_building ≡ false
        → leb size (o r).estimated_free_memory ≡ false
        → scan o max_tfs size e (r ∷ rs) ≡ behind r (scan o max_tfs size e rs)
    unfolding scan
    scan_small under small = rw (under, small)

  -- The loop ends at the first fit, and otherwise reports whether one was at its limit.
  scan-Outcome : (e : Bool) (rs : List ℕ) → Outcome rs e (scan o max_tfs size e rs)
  scan-Outcome e [] = inr (unfold scan in ground arith, tt)
  scan-Outcome e (r ∷ rs) =
      let goal = Outcome (r ∷ rs) e in
      elim (Bool-cases (leb max_tfs (o r).tfs_in_building)) [
        | inl over ↦ subst goal (sym (scan_exceeded e r rs over)) (
            behind-Outcome e true r rs _ (inl (ground arith)) (ground arith) (scan-Outcome true rs))
        | inr under ↦ elim (Bool-cases (leb size (o r).estimated_free_memory)) [
          | inl enough ↦
              subst goal (sym (scan_fits e r rs under enough))
                (inl (r, rs, refl, ([], rs, refl, refl, tt, (ground arith, ground arith))))
          | inr small ↦
              subst goal (sym (scan_small e r rs under small))
                (behind-Outcome e e r rs _ (inr (ground arith)) (ground arith) (scan-Outcome e rs))
        ]
      ]

-- What findTfBuilderForTf did when it reserved memory on the TfBuilder `r`.
pub record Reserved (s : TfBuilders) (est r : ℕ) (after : TfBuilders) : Type 0 where
  pub before : List ℕ
  pub behind : List ℕ
  pub was : s.ready ≡ before ++ r ∷ behind
  pub unfit : All (IsUnfit s.objects s.max_tfs_in_building est) before
  pub fit : IsFit s.objects s.max_tfs_in_building est r
  pub rotated : after.ready ≡ (before ++ behind) ++ r ∷ []
  pub reserved : (after.objects r).estimated_free_memory + est ≡ (s.objects r).estimated_free_memory
  pub same_others :
      after.objects
      ≡ write s.objects r (record (s.objects r) {
        estimated_free_memory = (s.objects r).estimated_free_memory - est;
      })
  pub same_id : (j : ℕ) → id after.objects j ≡ id s.objects j
  pub same_building : (after.objects r).tfs_in_building ≡ (s.objects r).tfs_in_building
  pub same_global : after.global_info ≡ s.global_info
  pub same_topo : after.topo ≡ s.topo

-- For every state and size, findTfBuilderForTf either selects the first TfBuilder of the ready list
-- that is below its limit of time frames and has the size plus ten per cent free (every one before
-- it fails one of the two), takes that much from its estimate, moves it to the end of the list and
-- changes nothing else; or no TfBuilder of the list is fit, the state is unchanged, and the reason is
-- the empty list, or that one was at its limit, or else memory.
pub find_tf_builder_for_tf_selects :
    (s : TfBuilders) (size : ℕ)
    → let est = estimated_size size in
      let (result, after) = find_tf_builder_for_tf size s in
      ((r : ℕ) × (result ≡ selected (id s.objects r)) × Reserved s est r after)
      ⊎ ((result
            ≡ rejected (reason s.ready (any_exceeded s.objects s.max_tfs_in_building est s.ready)))
          × All (IsUnfit s.objects s.max_tfs_in_building est) s.ready
          × (after ≡ s))
unfolding find_tf_builder_for_tf
find_tf_builder_for_tf_selects s size =
    let est = estimated_size size in
    elim (scan-Outcome s.objects s.max_tfs_in_building est false s.ready) [
      | inl (r, others, e, (before, after, split, rest, unfit, fit)) ↦
          rw (e, find_tf_builder_for_tf)
            (inl (
              r,
              refl,
              record {
                before = before;
                behind = after;
                was = split;
                unfit = unfit;
                fit = fit;
                rotated = ap (λ l. l ++ r ∷ []) rest;
                reserved = ground arith;
                same_others = refl;
                same_id = λ j. ground arith;
                same_building = ground arith;
                same_global = refl;
                same_topo = refl;
              },
            ))
      | inr (e, all) ↦ rw (e, find_tf_builder_for_tf) (inr (refl, all, refl))
    ]

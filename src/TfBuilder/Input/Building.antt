-- ===== src/TfBuilder/Input/Building.antt =====
-- From the received SubTimeFrames to the time frame (src/TfBuilder/TfBuilderInput.cxx).
use mathlib.Core.List.{append_assoc, append-nil}
use data_distribution.Prelude.{
  ℕ, suc, ◌<◌, Bool, true, false, nat_eq, List, [], ◌∷◌, ◌++◌, Option, none, some, ◌≡◌, refl, sym,
  ap, ◌∙◌, inl, inr, Option-cases, arith, length, find, put, All,
}
use data_distribution.Common.ConcurrentQueue.{push, pop}
use data_distribution.Common.SubTimeFrame.{SubTimeFrame, merge_stf, get_data_size}
use data_distribution.TfBuilder.Rpc.{get_number_of_stfs, set_number_of_stfs}
use data_distribution.TfBuilder.Input.{
  ReceivedStf, info, Input, is_topo, queue_for_merging, pace, deserialized, deserialize_header,
  deserialize_headers, complete_first, merge_rest, build_tf, merge_vector, merge_next,
}

abbrev pub merge_all : SubTimeFrame → List SubTimeFrame → SubTimeFrame
merge_all tf [] = tf
merge_all tf (f ∷ fs) = merge_all (merge_stf tf f) fs

module _ {Raw : Type 0} where
  -- The passes of StfPacingThread for received SubTimeFrames in turn.
  abbrev pub pace_all :
      (Raw → Option SubTimeFrame) → List (ReceivedStf Raw) → Input Raw → Option (Input Raw)
  pace_all deserialize [] i = some i
  pace_all deserialize (s ∷ ss) i = elim (pace deserialize (info s) i) [
    | none ↦ none
    | some i' ↦ pace_all deserialize ss i'
  ]

  -- What a received SubTimeFrame holds, if it is deserialized or can be.
  abbrev pub content_of : (Raw → Option SubTimeFrame) → ReceivedStf Raw → Option SubTimeFrame
  content_of deserialize s = elim s.stf [
    | none ↦ deserialized deserialize s.received
    | some f ↦ some f
  ]

  -- What each of the received SubTimeFrames holds.
  abbrev pub Contents :
      (Raw → Option SubTimeFrame) → List (ReceivedStf Raw) → List SubTimeFrame → Type 0
  Contents deserialize [] [] = Unit {0}
  Contents deserialize (s ∷ ss) (f ∷ fs) =
      (content_of deserialize s ≡ some f) × Contents deserialize ss fs
  Contents deserialize [] (f ∷ fs) = ⊥
  Contents deserialize (s ∷ ss) [] = ⊥

  -- A physics SubTimeFrame of a time frame.
  abbrev pub IsPartOf : ℕ → ReceivedStf Raw → Type 0
  IsPartOf k s = (s.stf_id ≡ k) × (is_topo s.origin ≡ false)

  pace_all_collects :
      (deserialize : Raw → Option SubTimeFrame) (ss v : List (ReceivedStf Raw)) (i : Input Raw)
      (k : ℕ) (m : List (ℕ × List (ReceivedStf Raw))) (run : Bool)
      → i.max_merged_tf_id < k
      → All (IsPartOf k) ss
      → (run' : Bool) × (pace_all deserialize ss
            (record i { stf_merge_map = (k, v) ∷ m; stf_merger_run = run })
          ≡ some (record i { stf_merge_map = (k, v ++ ss) ∷ m; stf_merger_run = run' }))
  unfolding pace queue_for_merging put find
  pace_all_collects deserialize [] v i k m run h a = (run, ground (arith, append-nil v))
  pace_all_collects deserialize (s ∷ ss) v i k m run h a =
      let (run', e) = pace_all_collects deserialize ss (v ++ s ∷ []) i k m true h a.1 in
      (run', ground (arith, h, a.0.0, a.0.1, e, append_assoc v (s ∷ []) ss))

  -- The SubTimeFrames are deserialized, with these contents.
  abbrev Hold : List (ReceivedStf Raw) → List SubTimeFrame → Type 0
  Hold [] [] = Unit {0}
  Hold (s ∷ ss) (f ∷ fs) = (s.stf ≡ some f) × Hold ss fs
  Hold [] (f ∷ fs) = ⊥
  Hold (s ∷ ss) [] = ⊥

  pub deserialize_header-some :
      (deserialize : Raw → Option SubTimeFrame) (s : ReceivedStf Raw) (f : SubTimeFrame)
      → content_of deserialize s ≡ some f
      → (t : ReceivedStf Raw) × (deserialize_header deserialize s ≡ some t) × (t.stf ≡ some f)
  unfolding deserialize_header
  deserialize_header-some deserialize s f h = elim (Option-cases s.stf) [
    | inr (g, e) ↦ (s, ground (arith, e), ground (arith, e, h))
    | inl e ↦ elim (Option-cases s.received) [
      | inl r ↦ absurd (ground (arith, e, r, h))
      | inr (raw, r) ↦ (
        record s { received = none; stf = deserialize raw },
        ground (arith, e, r),
        ground (arith, e, r, h),
      )
    ]
  ]

  pub deserialize_headers-some :
      (deserialize : Raw → Option SubTimeFrame) (ss : List (ReceivedStf Raw))
      (fs : List SubTimeFrame)
      → Contents deserialize ss fs
      → (v : List (ReceivedStf Raw)) × (deserialize_headers deserialize ss ≡ some v)
        × (length v ≡ length ss)
        × Hold v fs
  unfolding deserialize_headers
  deserialize_headers-some deserialize [] [] h = ([], refl, refl, tt)
  deserialize_headers-some deserialize [] (f ∷ fs) h = absurd h
  deserialize_headers-some deserialize (s ∷ ss) [] h = absurd h
  deserialize_headers-some deserialize (s ∷ ss) (f ∷ fs) h =
      let (t, e, there) = deserialize_header-some deserialize s f h.0 in
      let (v, rest, n, hold) = deserialize_headers-some deserialize ss fs h.1 in
      (t ∷ v, ground (arith, e, rest), ap suc n, (there, hold))

  merge_rest-Hold :
      (v : List (ReceivedStf Raw)) (fs : List SubTimeFrame) (tf : SubTimeFrame)
      → Hold v fs
      → merge_rest tf v ≡ some (merge_all tf fs)
  unfolding merge_rest
  merge_rest-Hold [] [] tf h = refl
  merge_rest-Hold [] (f ∷ fs) tf h = absurd h
  merge_rest-Hold (s ∷ ss) [] tf h = absurd h
  merge_rest-Hold (s ∷ ss) (f ∷ fs) tf h =
      ground (arith, h.0, merge_rest-Hold ss fs (merge_stf tf f) h.1)

  merge_vector-Hold :
      (v : List (ReceivedStf Raw)) (f : SubTimeFrame) (fs : List SubTimeFrame) (i : Input Raw)
      → Hold v (f ∷ fs)
      → merge_vector v i ≡ some (build_tf (merge_all f fs) i)
  unfolding merge_vector
  merge_vector-Hold [] f fs i h = absurd h
  merge_vector-Hold (s ∷ ss) f fs i h = ground (arith, h.0, merge_rest-Hold ss fs f h.1)

  -- If the first time frame of the merge map waits for some SubTimeFrames, is above the last one merged,
  -- as many physics SubTimeFrames of it are received as StfRequestThread announced, and all of them can
  -- be deserialized, then a pass of the deserializing thread and one of the merging thread forward it,
  -- merged from exactly these in the order of their arrival, and leave the other time frames waiting.
  pub tf_built :
      (deserialize : Raw → Option SubTimeFrame) (i : Input Raw) (k : ℕ)
      (m : List (ℕ × List (ReceivedStf Raw))) (s : ReceivedStf Raw) (ss : List (ReceivedStf Raw))
      (f : SubTimeFrame) (fs : List SubTimeFrame)
      → i.stf_merge_map ≡ (k, []) ∷ m
      → i.max_merged_tf_id < k
      → get_number_of_stfs k i.rpc ≡ some (suc (length ss))
      → i.stfs_for_merging ≡ record { container = []; running = true }
      → All (IsPartOf k) (s ∷ ss)
      → Contents deserialize (s ∷ ss) (f ∷ fs)
      → (paced : Input Raw) × (completed : Input Raw) × (merged : Input Raw) × (pace_all deserialize
            (s ∷ ss)
            i
          ≡ some paced)
        × (complete_first deserialize paced ≡ some completed)
        × (merge_next completed ≡ some merged)
        × (merged.forwarded ≡ i.forwarded ++ (get_data_size (merge_all f fs)).1 ∷ [])
        × (merged.stf_merge_map ≡ m)
        × (merged.stfs_for_merging ≡ i.stfs_for_merging)
  unfolding complete_first merge_next build_tf push pop
  tf_built deserialize i k m s ss f fs h0 h1 h2 h3 h4 h5 =
      let (run', e) = pace_all_collects deserialize (s ∷ ss) [] i k m i.stf_merger_run h1 h4 in
      let (v, read, n, hold) = deserialize_headers-some deserialize (s ∷ ss) (f ∷ fs) h5 in
      let i' : Input Raw = record i { stf_merge_map = (k, s ∷ ss) ∷ m; stf_merger_run = run' } in
      let done : Input Raw = record i' {
        stf_merge_map = m;
        stf_merger_run = false;
        stfs_for_merging = record { container = []; running = true };
        rpc = set_number_of_stfs k none i.rpc;
      } in
      let handed : Input Raw = record done {
        stfs_for_merging = record { container = v ∷ []; running = true };
      } in
      (
        i',
        handed,
        build_tf (merge_all f fs) done,
        ap (pace_all deserialize (s ∷ ss)) (ap (λ x. record i { stf_merge_map = x }) h0) ∙ e,
        ground (arith, h2, h3, read, n),
        merge_vector-Hold v f fs done hold,
        refl,
        refl,
        sym h3,
      )

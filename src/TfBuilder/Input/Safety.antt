-- ===== src/TfBuilder/Input/Safety.antt =====
-- What the merging thread (src/TfBuilder/TfBuilderInput.cxx) uses without a look: the first element of a
-- vector, and SubTimeFrames that could not be deserialized.
use data_distribution.Prelude.{
  ℕ, suc, true, false, nat_eq, List, [], ◌∷◌, ◌++◌, Option, none, some, ◌≡◌, refl, ap, arith,
  length,
}
use data_distribution.Common.ConcurrentQueue.{push, pop}
use data_distribution.Common.SubTimeFrame.{SubTimeFrame, merge_stf}
use data_distribution.TfBuilder.Rpc.{get_number_of_stfs, set_number_of_stfs}
use data_distribution.TfBuilder.Input.{
  ReceivedStf, Input, deserialize_header, deserialize_headers, complete_first, merge_rest,
  merge_vector, merge_next,
}
use data_distribution.TfBuilder.Input.Building.{
  Contents, content_of, deserialize_header-some, deserialize_headers-some,
}

module _ {Raw : Type 0} (deserialize : Raw → Option SubTimeFrame) where
  -- A message that cannot be deserialized.
  abbrev pub IsBroken : ReceivedStf Raw → Type 0
  IsBroken s = (raw : Raw) × (s.stf ≡ none) × (s.received ≡ some raw) × (deserialize raw ≡ none)

  broken_rest :
      (fs gs : List SubTimeFrame) (ss ts : List (ReceivedStf Raw)) (s : ReceivedStf Raw)
      → Contents deserialize ss fs
      → IsBroken s
      → Contents deserialize ts gs
      → (v : List (ReceivedStf Raw)) × (deserialize_headers deserialize (ss ++ s ∷ ts) ≡ some v)
        × (length v ≡ length (ss ++ s ∷ ts))
        × ((tf : SubTimeFrame) → merge_rest tf v ≡ none)
  unfolding deserialize_headers deserialize_header merge_rest
  broken_rest [] gs [] ts s h (raw, e, r, d) k =
      let (v, read, n, _) = deserialize_headers-some deserialize ts gs k in
      (
        record s { received = none; stf = none } ∷ v,
        ground (arith, e, r, d, read),
        ap suc n,
        λ tf. refl,
      )
  broken_rest (f ∷ fs) gs [] ts s h b k = absurd h
  broken_rest [] gs (t ∷ ss) ts s h b k = absurd h
  broken_rest (f ∷ fs) gs (t ∷ ss) ts s h b k =
      let (t', e, there) = deserialize_header-some deserialize t f h.0 in
      let (v, rest, n, fails) = broken_rest fs gs ss ts s h.1 b k in
      (
        t' ∷ v,
        ground (arith, e, rest),
        ap suc n,
        λ tf. ground (arith, there, fails (merge_stf tf f)),
      )

  -- If the SubTimeFrames of the first time frame of the merge map are as many as announced, the first
  -- one can be deserialized, and the message of a later one cannot, then a pass of the deserializing
  -- thread hands them over all the same, and the next pass of the merging thread uses a null pointer.
  pub broken_message :
      (i : Input Raw) (k : ℕ) (m : List (ℕ × List (ReceivedStf Raw))) (s t : ReceivedStf Raw)
      (ss ts : List (ReceivedStf Raw)) (f : SubTimeFrame) (fs gs : List SubTimeFrame)
      → i.stf_merge_map ≡ (k, s ∷ (ss ++ t ∷ ts)) ∷ m
      → get_number_of_stfs k i.rpc ≡ some (suc (length (ss ++ t ∷ ts)))
      → i.stfs_for_merging ≡ record { container = []; running = true }
      → content_of deserialize s ≡ some f
      → Contents deserialize ss fs
      → IsBroken t
      → Contents deserialize ts gs
      → (i' : Input Raw) × (complete_first deserialize i ≡ some i') × (merge_next i' ≡ none)
  unfolding complete_first merge_next merge_vector push pop deserialize_headers
  broken_message i k m s t ss ts f fs gs h0 h1 h2 h3 h4 h5 h6 =
      let (s', e, there) = deserialize_header-some deserialize s f h3 in
      let (v, read, n, fails) = broken_rest fs gs ss ts t h4 h5 h6 in
      let handed : Input Raw = record i {
        stf_merge_map = m;
        stf_merger_run = false;
        stfs_for_merging = record { container = (s' ∷ v) ∷ []; running = true };
        rpc = set_number_of_stfs k none i.rpc;
      } in
      (handed, ground (arith, h0, h1, h2, e, read, n), ground (arith, there, fails f))

  -- If StfRequestThread has announced 0 for the first time frame of the merge map and its request to
  -- delete the time frame is still on its way, then the deserializing thread hands an empty vector over,
  -- and the merging thread reads its first element.
  pub announced_nothing :
      (i : Input Raw) (k : ℕ) (m : List (ℕ × List (ReceivedStf Raw)))
      → i.stf_merge_map ≡ (k, []) ∷ m
      → get_number_of_stfs k i.rpc ≡ some 0
      → i.stfs_for_merging ≡ record { container = []; running = true }
      → (i' : Input Raw) × (complete_first deserialize i ≡ some i')
        × (i'.stfs_for_merging.container ≡ [] ∷ [])
        × (merge_next i' ≡ none)
  unfolding complete_first merge_next merge_vector push pop deserialize_headers
  announced_nothing i k m h0 h1 h2 =
      let handed : Input Raw = record i {
        stf_merge_map = m;
        stf_merger_run = false;
        stfs_for_merging = record { container = [] ∷ []; running = true };
        rpc = set_number_of_stfs k none i.rpc;
      } in
      (handed, ground (arith, h0, h1, h2), refl, refl)

-- ===== src/StfBuilder/Builder/Calls.antt =====
-- SubTimeFrameReadoutBuilder::addHbFrames (src/common/SubTimeFrameBuilder.cxx) as a whole: which data
-- parts the STF under construction has after a call.
use data_distribution.Prelude.{
  ℕ, Bool, true, false, ◌&&◌, inl, inr, Option, some, none, List, [], ◌∷◌, ◌++◌, ◌≡◌, refl, sym, ap,
  ◌∙◌, arith, Bool-cases, Option-cases, ◌==◌, nat_eq, find, ltb,
}
use data_distribution.Common.SubTimeFrame.{
  EquipmentIdentifier, equipment_eq, DataHeader, SubTimeFrame, messages_of, new_stf,
  update_run_number, update_first_orbit,
}
use data_distribution.Common.Readout.{Block, ReadoutSettings}
use data_distribution.StfBuilder.Builder.{
  done, then_do, ReadoutHeader, ReadoutBuilder, filter_blocks, check_blocks, add_to_stf, add_kept,
  add_hb_frames, stf_for, first_orbit_of, add_blocks,
}
use data_distribution.StfBuilder.Builder.Adding.{parts_in, parts_of, sizes, added, add_blocks-parts}
use data_distribution.StfBuilder.Builder.Frames.{
  Marks, Kept, length-Marks, then_do-done, done-injective, filter_blocks-Marks, check_blocks-Kept,
}

-- The parts that an equipment has in the STF under construction.
abbrev pub parts_before : EquipmentIdentifier → Option SubTimeFrame → List ℕ
parts_before d none = []
parts_before d (some s) = parts_of d s

add_kept-some :
    (alloc : Bool) (dh : DataHeader) (e d : EquipmentIdentifier) (s : SubTimeFrame)
    (ks : List Block) (r r' : ReadoutBuilder)
    → add_kept alloc dh e s ks r ≡ (true, r')
    → (s' : SubTimeFrame) × (r'.stf ≡ some s')
      × (parts_of d s' ≡ parts_of d s ++ added e d (sizes ks))
unfolding add_kept add_blocks
add_kept-some alloc dh e d s [] r r' h =
    (s, ap (λ p. p.1.stf) (sym h), add_blocks-parts e d dh [] s)
add_kept-some true dh e d s (b ∷ bs) r r' h = (
  add_blocks e (record dh { equipment = e }) (b ∷ bs) s,
  ap (λ p. p.1.stf) (sym h),
  add_blocks-parts e d (record dh { equipment = e }) (b ∷ bs) s,
)
add_kept-some false dh e d s (b ∷ bs) r r' h = absurd (ground (arith, ap (λ p. p.0) h))

pub content-update_run_number :
    (n : ℕ) (s : SubTimeFrame) → (update_run_number n s).content ≡ s.content
unfolding update_run_number
content-update_run_number n s = elim (Bool-cases (s.header.run_number == n)) [
  | inl e ↦ rw (update_run_number, e) refl
  | inr e ↦ rw (update_run_number, e) refl
]

pub content-update_first_orbit :
    (n : ℕ) (s : SubTimeFrame) → (update_first_orbit n s).content ≡ s.content
unfolding update_first_orbit
content-update_first_orbit n s = elim (Bool-cases (ltb n s.header.first_orbit)) [
  | inl e ↦ rw (update_first_orbit, e) refl
  | inr e ↦ rw (update_first_orbit, e) refl
]

pub parts_of_same :
    (d : EquipmentIdentifier) (s t : SubTimeFrame)
    → s.content ≡ t.content
    → parts_of d s ≡ parts_of d t
parts_of_same d s t h = ap (λ c. parts_in (messages_of (find d c))) h

pub parts_of-new_stf : (d : EquipmentIdentifier) (id : ℕ) → parts_of d (new_stf id) ≡ []
unfolding new_stf find
parts_of-new_stf d id = refl

pub stf_for-some :
    (hdr : ReadoutHeader) (r : ReadoutBuilder) (d : EquipmentIdentifier)
    → (s : SubTimeFrame) × ((stf_for hdr r).stf ≡ some s) × (parts_of d s ≡ parts_before d r.stf)
unfolding stf_for
stf_for-some hdr r d = elim (Option-cases r.stf) [
  | inl e ↦
      let s = update_run_number hdr.run_number (new_stf hdr.time_frame_id) in
      let start =
        parts_of_same d s (new_stf hdr.time_frame_id)
          (content-update_run_number hdr.run_number (new_stf hdr.time_frame_id))
        ∙ parts_of-new_stf d hdr.time_frame_id in
      (s, rw (stf_for, e) refl, rw e start)
  | inr (s, e) ↦ (s, rw (stf_for, e) e, rw e refl)
]

add_to_stf-some :
    (fuel : ℕ) (cfg : ReadoutSettings) (alloc : Bool) (dh : DataHeader) (e d : EquipmentIdentifier)
    (bs : List Block) (s : SubTimeFrame) (r r' : ReadoutBuilder)
    → add_to_stf fuel cfg alloc dh e bs s r ≡ done (true, r')
    → (s' : SubTimeFrame) × (ks : List Block) × (marks : List Bool) × (r'.stf ≡ some s')
      × Marks cfg r.first_filtered marks bs
      × Kept fuel cfg r.first_seen_orbit marks bs ks
      × (parts_of d s' ≡ parts_of d s ++ added e d (sizes ks))
unfolding add_to_stf
add_to_stf-some fuel cfg alloc dh e d bs s r r' h =
    let finish = λ (f : List Bool × List (ℕ × Bool)) (k : List Block × ℕ).
      add_kept alloc dh e s k.0 (record r { first_filtered = f.1; first_seen_orbit = k.1 }) in
    let (f, marks, rest) =
      then_do-done (filter_blocks cfg bs r.first_filtered)
        (λ f. then_do (check_blocks fuel cfg f.0 bs r.first_seen_orbit) (λ k. done (finish f k)))
        (true, r') h in
    let (k, kept, last) =
      then_do-done (check_blocks fuel cfg f.0 bs r.first_seen_orbit) (λ k. done (finish f k))
        (true, r') rest in
    let (s', there, parts) =
      add_kept-some alloc dh e d s k.0 (record r { first_filtered = f.1; first_seen_orbit = k.1 })
        r' (done-injective last) in
    let marked = filter_blocks-Marks cfg bs r.first_filtered f marks in
    (
      s',
      k.0,
      f.0,
      there,
      marked,
      check_blocks-Kept fuel cfg f.0 bs r.first_seen_orbit k
          (length-Marks cfg r.first_filtered f.0 bs marked) kept,
      parts,
    )

-- When addHbFrames returns true, the equipment's data parts in the STF under construction are those from
-- before and then, in order, the sizes of the blocks of the call that stay; the parts of every other
-- equipment stay as they are. If the filter is on, the empty triggers are left out, but for the call's
-- first block where its sub-specification is new to the STF. Of the other blocks all stay in print mode
-- and without the sanity check, and in drop mode exactly those that the check accepts, where the first
-- orbit seen goes through the checks from block to block.
pub add_hb_frames-parts :
    (fuel : ℕ) (cfg : ReadoutSettings) (alloc : Bool) (dh : DataHeader) (e d : EquipmentIdentifier)
    (hdr : ReadoutHeader) (bs : List Block) (r r' : ReadoutBuilder)
    → add_hb_frames fuel cfg alloc dh e hdr bs r ≡ done (true, r')
    → (s' : SubTimeFrame) × (ks : List Block) × (marks : List Bool) × (r'.stf ≡ some s')
      × Marks cfg (stf_for hdr r).first_filtered marks bs
      × Kept fuel cfg (stf_for hdr r).first_seen_orbit marks bs ks
      × (parts_of d s' ≡ parts_before d r.stf ++ added e d (sizes ks))
unfolding add_hb_frames stf_for
add_hb_frames-parts fuel cfg alloc dh e d hdr bs r r' h =
    let call = add_hb_frames fuel cfg alloc dh e hdr bs r in
    let r1 = stf_for hdr r in
    let (s, there, before) = stf_for-some hdr r d in
    elim (Bool-cases (r.running && r.accept_stf_data)) [
      | inr off ↦ absurd (ground (arith, h, off))
      | inl on ↦
          let running : (r.running ≡ true) = ground (arith, on) in
          let accepting : (r.accept_stf_data ≡ true) = ground (arith, on) in
          elim (Option-cases (first_orbit_of cfg hdr bs)) [
            | inl no_orbit ↦
                let same : (call ≡ done (false, r1)) =
                  rw (add_hb_frames, there, no_orbit, running, accepting) refl in
                absurd (ground (arith, sym same ∙ h))
            | inr (orbit, o) ↦
                let same : (call
                    ≡ add_to_stf fuel cfg alloc dh e bs (update_first_orbit orbit s) r1) =
                  rw (add_hb_frames, there, o, running, accepting) refl in
                let (s', ks, marks, here, marked, kept, parts) =
                  add_to_stf-some fuel cfg alloc dh e d bs (update_first_orbit orbit s) r1 r'
                    (sym same ∙ h) in
                let old =
                  parts_of_same d (update_first_orbit orbit s) s
                    (content-update_first_orbit orbit s)
                  ∙ before in
                (
                  s',
                  ks,
                  marks,
                  here,
                  marked,
                  kept,
                  parts ∙ ap (λ ps. ps ++ added e d (sizes ks)) old,
                )
          ]
    ]

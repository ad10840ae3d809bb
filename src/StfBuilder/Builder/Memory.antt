-- ===== src/StfBuilder/Builder/Memory.antt =====
-- SubTimeFrameReadoutBuilder::addHbFrames (src/common/SubTimeFrameBuilder.cxx) with and without memory for
-- a header, where neither the filter nor the sanity check is on.
use data_distribution.Prelude.{
  ℕ, Bool, true, false, inl, inr, some, List, [], ◌∷◌, ◌++◌, ◌≡◌, refl, sym, ap, ◌∙◌, Bool-cases,
  Option-cases, ◌==◌, nat_eq, ltb,
}
use mathlib.Core.Option.{some-injective}
use data_distribution.Common.SubTimeFrame.{
  EquipmentIdentifier, equipment_eq, DataHeader, SubTimeFrame, invalid, null, set_origin, clear,
  update_first_orbit, new_stf, update_run_number,
}
use data_distribution.Common.Readout.{Block, ReadoutSettings, no_sanity_check}
use data_distribution.StfBuilder.Builder.{
  done, ReadoutHeader, ReadoutBuilder, filter_blocks, check_blocks, keep_all, add_to_stf, add_kept,
  add_hb_frames, stf_for, first_orbit_of, get_stf, add_blocks,
}
use data_distribution.StfBuilder.Builder.Adding.{parts_of, sizes, added, add_blocks-parts}
use data_distribution.StfBuilder.Builder.Calls.{
  stf_for-some, parts_of_same, content-update_first_orbit, parts_before,
}

-- Neither the filter nor the sanity check.
abbrev pub KeepsAll : ReadoutSettings → Type 0
KeepsAll cfg = (cfg.empty_trigger_filtering ≡ false) × (cfg.sanity_check_mode ≡ no_sanity_check)

filter_blocks_off :
    (cfg : ReadoutSettings) (bs : List Block) (seen : List (ℕ × Bool))
    → cfg.empty_trigger_filtering ≡ false
    → filter_blocks cfg bs seen ≡ done (keep_all bs, seen)
unfolding filter_blocks
filter_blocks_off cfg [] seen off = refl
filter_blocks_off cfg (b ∷ bs) seen off = rw (filter_blocks, off) refl

check_blocks_off :
    (fuel : ℕ) (cfg : ReadoutSettings) (bs : List Block) (seen : ℕ)
    → cfg.sanity_check_mode ≡ no_sanity_check
    → check_blocks fuel cfg (keep_all bs) bs seen ≡ done (bs, seen)
unfolding check_blocks
check_blocks_off fuel cfg [] seen off = refl
check_blocks_off fuel cfg (b ∷ bs) seen off =
    rw (check_blocks, check_blocks_off fuel cfg bs seen off, off) refl

add_to_stf_off :
    (fuel : ℕ) (cfg : ReadoutSettings) (alloc : Bool) (dh : DataHeader) (e : EquipmentIdentifier)
    (bs : List Block) (s : SubTimeFrame) (r : ReadoutBuilder)
    → KeepsAll cfg
    → add_to_stf fuel cfg alloc dh e bs s r ≡ done (add_kept alloc dh e s bs r)
unfolding add_to_stf
add_to_stf_off fuel cfg alloc dh e bs s r off =
    rw
      (
        add_to_stf,
        filter_blocks_off cfg bs r.first_filtered off.0,
        check_blocks_off fuel cfg bs r.first_seen_orbit off.1,
      )
      refl

-- A builder that takes data.
abbrev pub IsAccepting : ReadoutBuilder → Type 0
IsAccepting r = (r.running ≡ true) × (r.accept_stf_data ≡ true)

add_hb_frames_off :
    (fuel : ℕ) (cfg : ReadoutSettings) (alloc : Bool) (dh : DataHeader) (e : EquipmentIdentifier)
    (hdr : ReadoutHeader) (bs : List Block) (r : ReadoutBuilder) (orbit : ℕ) (s : SubTimeFrame)
    → KeepsAll cfg
    → IsAccepting r
    → first_orbit_of cfg hdr bs ≡ some orbit
    → (stf_for hdr r).stf ≡ some s
    → add_hb_frames fuel cfg alloc dh e hdr bs r
      ≡ done (add_kept alloc dh e (update_first_orbit orbit s) bs (stf_for hdr r))
unfolding add_hb_frames stf_for
add_hb_frames_off fuel cfg alloc dh e hdr bs r orbit s off on o there =
    let rest =
      add_to_stf_off fuel cfg alloc dh e bs (update_first_orbit orbit s) (stf_for hdr r) off in
    let same : (add_hb_frames fuel cfg alloc dh e hdr bs r
        ≡ add_to_stf fuel cfg alloc dh e bs (update_first_orbit orbit s) (stf_for hdr r)) =
      rw (add_hb_frames, there, o, on.0, on.1) refl in
    same ∙ rest

-- Where neither the filter nor the sanity check is on, the builder takes data and the first orbit is
-- known, a call with at least one block and memory for a header returns true, and all its blocks, in
-- order, become the last data parts of their equipment, while the other equipments keep their parts.
pub add_hb_frames-all_parts :
    (fuel : ℕ) (cfg : ReadoutSettings) (dh : DataHeader) (e d : EquipmentIdentifier)
    (hdr : ReadoutHeader) (b : Block) (bs : List Block) (r : ReadoutBuilder) (orbit : ℕ)
    → KeepsAll cfg
    → IsAccepting r
    → first_orbit_of cfg hdr (b ∷ bs) ≡ some orbit
    → (r' : ReadoutBuilder) × (s' : SubTimeFrame) × (add_hb_frames fuel cfg true dh e hdr (b ∷ bs) r
        ≡ done (true, r'))
      × (r'.stf ≡ some s')
      × (parts_of d s' ≡ parts_before d r.stf ++ added e d (sizes (b ∷ bs)))
unfolding add_kept
add_hb_frames-all_parts fuel cfg dh e d hdr b bs r orbit off on o =
    let (s, there, before) = stf_for-some hdr r d in
    let s1 = update_first_orbit orbit s in
    let s' = add_blocks e (record dh { equipment = e }) (b ∷ bs) s1 in
    (
      record (stf_for hdr r) { stf = some s' },
      s',
      add_hb_frames_off fuel cfg true dh e hdr (b ∷ bs) r orbit s off on o there,
      refl,
      add_blocks-parts e d (record dh { equipment = e }) (b ∷ bs) s1
          ∙ ap (λ ps. ps ++ added e d (sizes (b ∷ bs)))
              (parts_of_same d s1 s (content-update_first_orbit orbit s) ∙ before),
    )

running-stf_for : (hdr : ReadoutHeader) (r : ReadoutBuilder) → (stf_for hdr r).running ≡ r.running
unfolding stf_for
running-stf_for hdr r = elim (Option-cases r.stf) [
  | inl e ↦ rw (stf_for, e) refl
  | inr (s, e) ↦ rw (stf_for, e) refl
]

refused_call :
    (fuel : ℕ) (cfg : ReadoutSettings) (alloc : Bool) (dh : DataHeader) (e : EquipmentIdentifier)
    (hdr : ReadoutHeader) (bs : List Block) (r : ReadoutBuilder)
    → r.running ≡ true
    → r.accept_stf_data ≡ false
    → add_hb_frames fuel cfg alloc dh e hdr bs r ≡ done (false, r)
unfolding add_hb_frames
refused_call fuel cfg alloc dh e hdr bs r on off = rw (add_hb_frames, on, off) refl

-- The STF under construction has not got its origin yet.
abbrev pub HasNoOrigin : ReadoutBuilder → Type 0
HasNoOrigin r = (s : SubTimeFrame) → r.stf ≡ some s → s.header.origin ≡ invalid

origin-update_first_orbit :
    (n : ℕ) (s : SubTimeFrame) → (update_first_orbit n s).header.origin ≡ s.header.origin
unfolding update_first_orbit
origin-update_first_orbit n s = elim (Bool-cases (ltb n s.header.first_orbit)) [
  | inl e ↦ rw (update_first_orbit, e) refl
  | inr e ↦ rw (update_first_orbit, e) refl
]

origin-update_run_number :
    (n : ℕ) (s : SubTimeFrame) → (update_run_number n s).header.origin ≡ s.header.origin
unfolding update_run_number
origin-update_run_number n s = elim (Bool-cases (s.header.run_number == n)) [
  | inl e ↦ rw (update_run_number, e) refl
  | inr e ↦ rw (update_run_number, e) refl
]

origin-new_stf : (id : ℕ) → (new_stf id).header.origin ≡ invalid
unfolding new_stf
origin-new_stf id = refl

stf_for-HasNoOrigin :
    (hdr : ReadoutHeader) (r : ReadoutBuilder) → HasNoOrigin r → HasNoOrigin (stf_for hdr r)
unfolding stf_for
stf_for-HasNoOrigin hdr r h s there = elim (Option-cases r.stf) [
  | inl e ↦
      let fresh = update_run_number hdr.run_number (new_stf hdr.time_frame_id) in
      let same : ((stf_for hdr r).stf ≡ some fresh) = rw (stf_for, e) refl in
      ap (λ t. t.header.origin) (some-injective s fresh (sym there ∙ same))
      ∙ origin-update_run_number hdr.run_number (new_stf hdr.time_frame_id)
      ∙ origin-new_stf hdr.time_frame_id
  | inr (t, e) ↦
      let same : ((stf_for hdr r).stf ≡ some t) = rw (stf_for, e) e in h s (e ∙ sym same ∙ there)
]

set_origin_null :
    (s : SubTimeFrame)
    → s.header.origin ≡ invalid
    → ((set_origin null (clear s)).content ≡ [])
      × ((set_origin null (clear s)).header.origin ≡ null)
unfolding set_origin clear
set_origin_null s h = (rw (set_origin, clear, h) refl, rw (set_origin, clear, h) refl)

-- Where neither the filter nor the sanity check is on, the builder takes data, the first orbit is known
-- and the STF has no origin yet, a call with a block but without memory for a header returns false, the
-- calls after it change nothing, and getStf then gives an STF without data whose origin is null.
pub add_hb_frames_no_memory :
    (fuel : ℕ) (cfg : ReadoutSettings) (dh : DataHeader) (e : EquipmentIdentifier)
    (hdr : ReadoutHeader) (b : Block) (bs : List Block) (r : ReadoutBuilder) (orbit : ℕ)
    (alloc : Bool) (dh' : DataHeader) (e' : EquipmentIdentifier) (hdr' : ReadoutHeader)
    (bs' : List Block)
    → KeepsAll cfg
    → IsAccepting r
    → HasNoOrigin r
    → first_orbit_of cfg hdr (b ∷ bs) ≡ some orbit
    → (r' : ReadoutBuilder) × (s' : SubTimeFrame) × (add_hb_frames fuel cfg false dh e hdr
          (b ∷ bs)
          r
        ≡ done (false, r'))
      × (add_hb_frames fuel cfg alloc dh' e' hdr' bs' r' ≡ done (false, r'))
      × ((get_stf r').0 ≡ some s')
      × (s'.content ≡ [])
      × (s'.header.origin ≡ null)
unfolding add_kept get_stf
add_hb_frames_no_memory fuel cfg dh e hdr b bs r orbit alloc dh' e' hdr' bs' off on fresh o =
    let (s, there, before) = stf_for-some hdr r e in
    let s1 = update_first_orbit orbit s in
    let r' = record (stf_for hdr r) { accept_stf_data = false; stf = some (clear s1) } in
    let first = add_hb_frames_off fuel cfg false dh e hdr (b ∷ bs) r orbit s off on o there in
    let origin = origin-update_first_orbit orbit s ∙ stf_for-HasNoOrigin hdr r fresh s there in
    let empty = set_origin_null s1 origin in
    (
      r',
      set_origin null (clear s1),
      first,
      refused_call fuel cfg alloc dh' e' hdr' bs' r' (running-stf_for hdr r ∙ on.0) refl,
      refl,
      empty.0,
      empty.1,
    )

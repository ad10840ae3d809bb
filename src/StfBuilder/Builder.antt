-- ===== src/StfBuilder/Builder.antt =====
-- SubTimeFrameReadoutBuilder (src/common/SubTimeFrameBuilder.h and .cxx). Whether the header region gives
-- a message, and the DataHeader with which O2 starts, are arguments. What addHbFrames can do is a result
-- of its own: RDHReader's exceptions are not caught in it, and its loop that prints a block can go on
-- without end, for which it has fuel.
pub mod Adding
pub mod Frames
pub mod Calls
pub mod Memory
pub mod Printing
use data_distribution.Prelude.{
  ℕ, zero, suc, ◌+◌, ◌-◌, min, Bool, true, false, not, ◌&&◌, ◌==◌, nat_eq, String, List, [], ◌∷◌,
  Option, none, some, if◌then◌else◌, ltb, leb, length, find, insert,
}
use data_distribution.Common.SubTimeFrame.{
  EquipmentIdentifier, DataHeader, SubTimeFrame, new_stf, update_run_number, update_first_orbit,
  clear, set_origin, null, add_stf_data_readout, add_stf_data_append,
}
use data_distribution.Common.Readout.{
  Rdh, Block, ReadoutSettings, SanityCheckMode, no_sanity_check, sanity_check_drop,
  sanity_check_print, Check, accepted, refused, throws, rdh_reader, get_sub_specification,
  rdh_sanity_check, filter_empty_trigger_blocks,
}

-- ReadoutSubTimeframeHeader, as far as the StfBuilder reads it.
pub record ReadoutHeader : Type 0 where
  pub version : ℕ
  pub time_frame_id : ℕ
  pub run_number : ℕ
  pub link_id : ℕ
  pub timeframe_orbit_first : ℕ
  pub last_tf_message : Bool
  pub is_rdh_format : Bool

-- With sFirstSeenHBOrbitCnt, which is static in the source.
pub record ReadoutBuilder : Type 0 where
  pub running : Bool
  pub stf : Option SubTimeFrame
  pub accept_stf_data : Bool
  pub first_filtered : List (ℕ × Bool)
  pub first_seen_orbit : ℕ

-- The ends of a call: its result and the state after it, an exception, or a loop that takes more rounds
-- than there is fuel.
pub data Run {ℓ} (A : Type ℓ) : Type ℓ where
  done : A → Run A
  thrown : Run A
  unfinished : Run A

abbrev pub then_do {ℓ κ} : {A : Type ℓ} {B : Type κ} → Run A → (A → Run B) → Run B
then_do (done a) f = f a
then_do thrown f = thrown
then_do unfinished f = unfinished

-- The filter of empty triggers, which keeps the first block of each equipment: which blocks to remove.
unfoldable pub filter_rest : ReadoutSettings → List Block → List Bool
filter_rest cfg [] = []
filter_rest cfg (b ∷ bs) = filter_empty_trigger_blocks cfg b ∷ filter_rest cfg bs

abbrev pub keep_all : List Block → List Bool
keep_all [] = []
keep_all (b ∷ bs) = false ∷ keep_all bs

abbrev pub already : Option Bool → Bool
already none = false
already (some b) = b

unfoldable pub filter_blocks :
    ReadoutSettings → List Block → List (ℕ × Bool) → Run (List Bool × List (ℕ × Bool))
filter_blocks cfg [] seen = done ([], seen)
filter_blocks cfg (b ∷ bs) seen =
    if not cfg.empty_trigger_filtering
    then done (keep_all (b ∷ bs), seen)
    else elim (rdh_reader cfg b 0 b.size) [
      | none ↦ thrown
      | some r ↦
          let sub = get_sub_specification cfg r in
          if already (find sub seen)
          then done (filter_rest cfg (b ∷ bs), seen)
          else done (false ∷ filter_rest cfg bs, insert sub true seen)
    ]

-- The loop that prints the packets of a block, on the bytes it has gone through.
unfoldable pub print_block : ℕ → ReadoutSettings → Block → ℕ → Run Bool
print_block zero cfg b at = unfinished
print_block (suc fuel) cfg b at =
    let rest = print_block fuel cfg b (at + min (b.rdh_at at).offset_to_next (b.size - at)) in
    if leb b.size at then done true else if ltb (b.size - at) cfg.sizeof_rdh then thrown else rest

-- What is made of a block by the result of its sanity check and what printing it comes to: whether it is
-- to be removed.
unfoldable pub judge : SanityCheckMode → Run Bool → ℕ → Option Check → Run (Bool × ℕ)
judge mode printed seen none = unfinished
judge mode printed seen (some throws) = thrown
judge mode printed seen (some accepted) = done (false, seen)
judge no_sanity_check printed seen (some refused) = done (false, seen)
judge sanity_check_drop printed seen (some refused) = done (true, seen)
judge sanity_check_print printed seen (some refused) = then_do printed (λ _. done (false, seen))

unfoldable pub check_block : ℕ → ReadoutSettings → Block → ℕ → Run (Bool × ℕ)
check_block fuel cfg b seen =
    let (result, seen') = rdh_sanity_check fuel cfg b seen in
    judge cfg.sanity_check_mode (print_block fuel cfg b 0) seen' result

abbrev pub checks : SanityCheckMode → Bool
checks no_sanity_check = false
checks sanity_check_drop = true
checks sanity_check_print = true

-- The blocks that stay, of those that the filter has left.
unfoldable pub check_blocks :
    ℕ → ReadoutSettings → List Bool → List Block → ℕ → Run (List Block × ℕ)
check_blocks fuel cfg (r ∷ rs) (b ∷ bs) seen =
    if r
    then check_blocks fuel cfg rs bs seen
    else if not (checks cfg.sanity_check_mode)
    then then_do (check_blocks fuel cfg rs bs seen) (λ k. done (b ∷ k.0, k.1))
    else then_do (check_block fuel cfg b seen) (λ c.
      then_do (check_blocks fuel cfg rs bs c.1) (λ k. done ((if c.0 then k.0 else b ∷ k.0), k.1)))
check_blocks fuel cfg [] bs seen = done ([], seen)
check_blocks fuel cfg (r ∷ rs) [] seen = done ([], seen)

-- The loop that adds the blocks, the first of them with the header.
unfoldable pub append_blocks : EquipmentIdentifier → List Block → SubTimeFrame → SubTimeFrame
append_blocks e [] s = s
append_blocks e (b ∷ bs) s = append_blocks e bs (add_stf_data_append e b.size s)

unfoldable pub add_blocks :
    EquipmentIdentifier → DataHeader → List Block → SubTimeFrame → SubTimeFrame
add_blocks e hdr [] s = s
add_blocks e hdr (b ∷ bs) s = append_blocks e bs (add_stf_data_readout e hdr b.size s)

-- The STF under construction, or a new one.
unfoldable pub stf_for : ReadoutHeader → ReadoutBuilder → ReadoutBuilder
stf_for hdr r = elim r.stf [
  | some s ↦ r
  | none ↦ record r {
    stf = some (update_run_number hdr.run_number (new_stf hdr.time_frame_id));
    accept_stf_data = true;
    first_filtered = [];
  }
]

-- The orbit of the first block, if it has an RDH. The callers have at least one block.
unfoldable pub orbit_of_first : ReadoutSettings → List Block → Option ℕ
orbit_of_first cfg [] = none
orbit_of_first cfg (b ∷ bs) = elim (rdh_reader cfg b 0 b.size) [
  | none ↦ none
  | some r ↦ some r.orbit
]

-- The first orbit that the STF gets, from the header or from the first block.
unfoldable pub first_orbit_of : ReadoutSettings → ReadoutHeader → List Block → Option ℕ
first_orbit_of cfg hdr bs =
    if not (hdr.timeframe_orbit_first == 0)
    then some hdr.timeframe_orbit_first
    else orbit_of_first cfg bs

-- The part of addHbFrames on the blocks that stay, where `alloc` is whether there is a header message.
unfoldable pub add_kept :
    Bool
    → DataHeader
    → EquipmentIdentifier
    → SubTimeFrame
    → List Block
    → ReadoutBuilder
    → Bool × ReadoutBuilder
add_kept alloc dh e s [] r = (true, record r { stf = some s })
add_kept alloc dh e s (b ∷ bs) r =
    if alloc
    then (true, record r { stf = some (add_blocks e (record dh { equipment = e }) (b ∷ bs) s) })
    else (false, record r { accept_stf_data = false; stf = some (clear s) })

-- The part of addHbFrames from the filter on, for the STF with its first orbit.
unfoldable pub add_to_stf :
    ℕ
    → ReadoutSettings
    → Bool
    → DataHeader
    → EquipmentIdentifier
    → List Block
    → SubTimeFrame
    → ReadoutBuilder
    → Run (Bool × ReadoutBuilder)
add_to_stf fuel cfg alloc dh e bs s r = then_do (filter_blocks cfg bs r.first_filtered) (λ f.
    then_do (check_blocks fuel cfg f.0 bs r.first_seen_orbit) (λ k.
      done (add_kept alloc dh e s k.0 (record r { first_filtered = f.1; first_seen_orbit = k.1 }))))

unfoldable pub add_hb_frames :
    ℕ
    → ReadoutSettings
    → Bool
    → DataHeader
    → EquipmentIdentifier
    → ReadoutHeader
    → List Block
    → ReadoutBuilder
    → Run (Bool × ReadoutBuilder)
add_hb_frames fuel cfg alloc dh e hdr bs r =
    if not r.running
    then done (false, record r { accept_stf_data = false })
    else if not r.accept_stf_data
    then done (false, r)
    else (let r' = stf_for hdr r in
        elim r'.stf [
          | none ↦ done (false, r')
          | some s ↦ elim (first_orbit_of cfg hdr bs) [
            | none ↦ done (false, r')
            | some orbit ↦ add_to_stf fuel cfg alloc dh e bs (update_first_orbit orbit s) r'
          ]
        ])

unfoldable pub get_current_stf_id : ReadoutBuilder → Option ℕ
get_current_stf_id r = elim r.stf [ none ↦ none | some s ↦ some s.header.id ]

unfoldable pub get_stf : ReadoutBuilder → Option SubTimeFrame × ReadoutBuilder
get_stf r = (
  elim r.stf [ none ↦ none | some s ↦ some (if r.accept_stf_data then s else set_origin null s) ],
  record r { stf = none; accept_stf_data = true; first_filtered = [] },
)

unfoldable pub stop : ReadoutBuilder → ReadoutBuilder
stop r = record r { running = false }

-- ===== src/StfBuilder/Builder/Printing.antt =====
-- The loop of addHbFrames (src/common/SubTimeFrameBuilder.cxx) that prints the packets of a block which
-- the sanity check has refused.
use data_distribution.Prelude.{
  Bool, Option, nat_beq_iff, ◌⊎◌, ℕ, zero, suc, ◌+◌, ◌-◌, ◌≤◌, ◌<◌, ◌≡◌, ◌≢◌, refl, min, false,
  arith, ap, ◌∙◌, Bool-cases, leb, inl, inr, none, some,
}
use data_distribution.Common.Readout.{
  Check, SanityCheckMode, get_sub_specification, Block, ReadoutSettings, sanity_check_print,
  rdh_sanity_check, check_packets, refused,
}
use data_distribution.StfBuilder.Builder.{Run, unfinished, print_block, check_block, judge}

-- At a packet with no offset to the next one.
print_block_stuck :
    (fuel : ℕ) (cfg : ReadoutSettings) (b : Block)
    → (b.rdh_at 0).offset_to_next ≡ 0
    → 0 < b.size
    → cfg.sizeof_rdh ≤ b.size
    → print_block fuel cfg b 0 ≡ unfinished
unfolding print_block
print_block_stuck zero cfg b z pos s = refl
print_block_stuck (suc fuel) cfg b z pos s =
    let same : (0 + min (b.rdh_at 0).offset_to_next (b.size - 0) ≡ 0) = omega (arith, z) in
    let rest = ap (λ i. print_block fuel cfg b i) same ∙ print_block_stuck fuel cfg b z pos s in
    ground (arith, rest, pos, s)

rdh_sanity_check_refused :
    (fuel : ℕ) (cfg : ReadoutSettings) (b : Block) (seen : ℕ)
    → cfg.sizeof_rdh ≤ b.size
    → 64 ≤ b.size
    → (b.rdh_at 0).stop_bit ≡ false
    → (b.rdh_at 0).offset_to_next ≡ 0
    → (rdh_sanity_check (suc fuel) cfg b seen).0 ≡ some refused
unfolding rdh_sanity_check check_packets
rdh_sanity_check_refused fuel cfg b seen s l stop z =
    let sub = get_sub_specification cfg (b.rdh_at 0) in
    ground (arith, s, l, stop, z, nat_beq_iff sub sub)

rdh_sanity_check_zero :
    (cfg : ReadoutSettings) (b : Block) (seen : ℕ)
    → cfg.sizeof_rdh ≤ b.size
    → ((rdh_sanity_check 0 cfg b seen).0 ≡ none)
      ⊎ ((rdh_sanity_check 0 cfg b seen).0 ≡ some refused)
unfolding rdh_sanity_check check_packets
rdh_sanity_check_zero cfg b seen s = elim (Bool-cases (leb seen (b.rdh_at 0).orbit)) [
  | inl e ↦ inl (ground (arith, s, e))
  | inr e ↦ inr (ground (arith, s, e))
]

rdh_sanity_check_zero_offset :
    (fuel : ℕ) (cfg : ReadoutSettings) (b : Block) (seen : ℕ)
    → cfg.sizeof_rdh ≤ b.size
    → 64 ≤ b.size
    → (b.rdh_at 0).stop_bit ≡ false
    → (b.rdh_at 0).offset_to_next ≡ 0
    → ((rdh_sanity_check fuel cfg b seen).0 ≡ none)
      ⊎ ((rdh_sanity_check fuel cfg b seen).0 ≡ some refused)
rdh_sanity_check_zero_offset zero cfg b seen s l stop z = rdh_sanity_check_zero cfg b seen s
rdh_sanity_check_zero_offset (suc fuel) cfg b seen s l stop z =
    inr (rdh_sanity_check_refused fuel cfg b seen s l stop z)

judge_stuck :
    (mode : SanityCheckMode) (printed : Run Bool) (seen : ℕ) (result : Option Check)
    → mode ≡ sanity_check_print
    → printed ≡ unfinished
    → (result ≡ none) ⊎ (result ≡ some refused)
    → judge mode printed seen result ≡ unfinished
unfolding judge
judge_stuck mode printed seen result m p (inl e) = rw (judge, e) refl
judge_stuck mode printed seen result m p (inr e) = rw (judge, e, m, p) refl

-- In print mode, the sanity check of a block that begins with a packet of at least 64 bytes without stop
-- bit and without offset to the next packet never comes to an end, however much fuel there is.
pub check_block_unfinished :
    (fuel : ℕ) (cfg : ReadoutSettings) (b : Block) (seen : ℕ)
    → cfg.sanity_check_mode ≡ sanity_check_print
    → cfg.sizeof_rdh ≤ b.size
    → 64 ≤ b.size
    → (b.rdh_at 0).stop_bit ≡ false
    → (b.rdh_at 0).offset_to_next ≡ 0
    → check_block fuel cfg b seen ≡ unfinished
unfolding check_block
check_block_unfinished fuel cfg b seen mode s l stop z =
    judge_stuck cfg.sanity_check_mode (print_block fuel cfg b 0)
      (rdh_sanity_check fuel cfg b seen).1 (rdh_sanity_check fuel cfg b seen).0 mode
      (print_block_stuck fuel cfg b z (omega (arith, l)) s)
      (rdh_sanity_check_zero_offset fuel cfg b seen s l stop z)

-- Where every packet has an offset to the next one, the loop ends after no more rounds than bytes.
pub print_block_ends :
    (fuel : ℕ) (cfg : ReadoutSettings) (b : Block) (at : ℕ)
    → ((i : ℕ) → 0 < (b.rdh_at i).offset_to_next)
    → b.size - at < fuel
    → print_block fuel cfg b at ≢ unfinished
unfolding print_block
print_block_ends zero cfg b at pos h e = absurd (omega (arith, h))
print_block_ends (suc fuel) cfg b at pos h e =
    let off = (b.rdh_at at).offset_to_next in
    let rest = print_block_ends fuel cfg b (at + min off (b.size - at)) pos in
    elim (Bool-cases (leb b.size at)) [
      | inl end ↦ ground (arith, e, end)
      | inr on ↦
          let less : (b.size - (at + min off (b.size - at)) < fuel) =
            ground (arith, h, pos at, on) in
          ground (arith, e, on, rest less)
    ]

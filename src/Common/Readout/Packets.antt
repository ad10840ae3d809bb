-- ===== src/Common/Readout/Packets.antt =====
-- ReadoutDataUtils::rdhSanityCheck (src/common/ReadoutDataModel.cxx): which blocks it accepts, and that it
-- comes to an end.
use data_distribution.Prelude.{
  ℕ, zero, suc, ◌+◌, ◌-◌, ◌≤◌, ◌<◌, ◌==◌, nat_eq, nat_beq_iff, true, false, some, ◌≡◌, ◌↔◌, ◌⊎◌,
  inl, inr, refl, sym, ◌∙◌, Bool-cases, Option-cases, subst, ◌||◌, leb, arith,
}
use data_distribution.Common.Readout.{
  Block, ReadoutSettings, get_sub_specification, Check, accepted, check_packets, rdh_sanity_check,
  filter_empty_trigger_blocks, second_packet_empty,
}

-- The bytes from an offset on are packets of one sub-specification: the one with the stop bit is the last
-- and has its memory, and each one before it has its memory and its successor in what is left.
pub data Packets (cfg : ReadoutSettings) (b : Block) (sub : ℕ) : ℕ → ℕ → Type 0 where
  last :
      {at left : ℕ}
      → cfg.sizeof_rdh ≤ left
      → 64 ≤ left
      → sub ≡ get_sub_specification cfg (b.rdh_at at)
      → (b.rdh_at at).stop_bit ≡ true
      → (b.rdh_at at).memory_size ≤ left
      → Packets cfg b sub at left
  more :
      {at left : ℕ}
      → cfg.sizeof_rdh ≤ left
      → 64 ≤ left
      → sub ≡ get_sub_specification cfg (b.rdh_at at)
      → (b.rdh_at at).stop_bit ≡ false
      → 0 < (b.rdh_at at).offset_to_next
      → (b.rdh_at at).offset_to_next < left
      → (b.rdh_at at).memory_size < left
      → Packets cfg b sub (at + (b.rdh_at at).offset_to_next) (left - (b.rdh_at at).offset_to_next)
      → Packets cfg b sub at left

Packets-check :
    (fuel : ℕ) (cfg : ReadoutSettings) (b : Block) (sub at left : ℕ)
    → left < fuel
    → Packets cfg b sub at left
    → check_packets fuel cfg b sub at left ≡ some accepted
unfolding check_packets
Packets-check zero cfg b sub at left h p = absurd (omega (arith, h))
Packets-check (suc fuel) cfg b sub at left h (last s l e stop m) =
    ground (arith, s, l, e, stop, m, nat_beq_iff sub (get_sub_specification cfg (b.rdh_at at)))
Packets-check (suc fuel) cfg b sub at left h (more s l e stop pos off m rest) = ground (
  arith,
  s,
  l,
  e,
  stop,
  pos,
  off,
  m,
  nat_beq_iff sub (get_sub_specification cfg (b.rdh_at at)),
  Packets-check fuel cfg b sub (at + (b.rdh_at at).offset_to_next)
      (left - (b.rdh_at at).offset_to_next) (omega (arith, h, pos, off)) rest,
)

check-Packets :
    (fuel : ℕ) (cfg : ReadoutSettings) (b : Block) (sub at left : ℕ)
    → 0 < left
    → check_packets fuel cfg b sub at left ≡ some accepted
    → Packets cfg b sub at left
unfolding check_packets
check-Packets zero cfg b sub at left h e = absurd (ground (arith, e))
check-Packets (suc fuel) cfg b sub at left h e =
    let r = b.rdh_at at in
    let same = nat_beq_iff sub (get_sub_specification cfg r) in
    let s : (cfg.sizeof_rdh ≤ left) = ground (arith, h, e) in
    let l : (64 ≤ left) = ground (arith, h, e, s) in
    let q : (sub ≡ get_sub_specification cfg r) = ground (arith, h, e, s, l, same) in
    elim (Bool-cases r.stop_bit) [
      | inl stop ↦ last s l q stop (ground (arith, h, e, s, l, q, same, stop))
      | inr stop ↦
          let pos : (0 < r.offset_to_next) = ground (arith, h, e, s, l, q, same, stop) in
          let off : (r.offset_to_next < left) = ground (arith, h, e, s, l, q, same, stop, pos) in
          let m : (r.memory_size < left) = ground (arith, h, e, s, l, q, same, stop, pos, off) in
          let rest : (check_packets fuel cfg b sub (at + r.offset_to_next) (left - r.offset_to_next)
              ≡ some accepted) =
            ground (arith, h, e, s, l, q, same, stop, pos, off, m) in
          more s l q stop pos off m (
            check-Packets fuel cfg b sub (at + r.offset_to_next) (left - r.offset_to_next)
              (omega (arith, off)) rest)
    ]

Packets-size :
    (cfg : ReadoutSettings) (b : Block) (sub at left : ℕ)
    → Packets cfg b sub at left
    → cfg.sizeof_rdh ≤ left
Packets-size cfg b sub at left (last s l e stop m) = s
Packets-size cfg b sub at left (more s l e stop pos off m rest) = s

nat_cases : (n : ℕ) → (n ≡ 0) ⊎ (0 < n)
nat_cases zero = inl refl
nat_cases (suc n) = inr (omega arith)

from_zero : (n : ℕ) → n ≡ 0 + n
from_zero n = omega arith

room :
    (z off n : ℕ)
    → 64 ≤ z
    → 0 < off
    → off + z ≤ n
    → (64 ≤ n) × (off < n) × (z < n) × (z ≤ n - off) × (64 ≤ n - off)
room z off n h pos fits = (
  omega (arith, h, fits),
  omega (arith, h, fits),
  omega (arith, pos, fits),
  omega (arith, fits),
  omega (arith, h, fits),
)

check_packets_total :
    (fuel : ℕ) (cfg : ReadoutSettings) (b : Block) (sub at left : ℕ)
    → left < fuel
    → (r : Check) × (check_packets fuel cfg b sub at left ≡ some r)
unfolding check_packets
check_packets_total zero cfg b sub at left h = absurd (omega (arith, h))
check_packets_total (suc fuel) cfg b sub at left h =
    let off = (b.rdh_at at).offset_to_next in
    let answer = check_packets (suc fuel) cfg b sub at left in
    elim (Bool-cases (off == 0 || leb left off)) [
      | inl stuck ↦ elim (Option-cases answer) [
        | inl e ↦ absurd (ground (arith, e, stuck, h))
        | inr (r, e) ↦ (r, e)
      ]
      | inr on ↦
          let pos : (0 < off) = ground (arith, on) in
          let less : (off < left) = ground (arith, on) in
          let rest =
            check_packets_total fuel cfg b sub (at + off) (left - off)
              (omega (arith, h, pos, less)) in
          elim (Option-cases answer) [
            | inl e ↦ absurd (ground (arith, e, rest.1, pos, less, h))
            | inr (r, e) ↦ (r, e)
          ]
    ]

-- With more fuel than the block has bytes, the sanity check of a block comes to an end, with true, with
-- false or with an exception.
pub rdh_sanity_check_total :
    (fuel : ℕ) (cfg : ReadoutSettings) (b : Block) (first_seen : ℕ)
    → b.size < fuel
    → (r : Check) × ((rdh_sanity_check fuel cfg b first_seen).0 ≡ some r)
unfolding rdh_sanity_check
rdh_sanity_check_total fuel cfg b first_seen h =
    let rest = check_packets_total fuel cfg b (get_sub_specification cfg (b.rdh_at 0)) 0 b.size h in
    elim (Option-cases (rdh_sanity_check fuel cfg b first_seen).0) [
      | inl e ↦ absurd (ground (arith, e, rest.1))
      | inr (r, e) ↦ (r, e)
    ]

-- With more fuel than the block has bytes, and an RDH that has a size, the sanity check accepts exactly
-- the blocks whose orbit is not before the first one seen and which are one chain of packets: of the
-- sub-specification of the first, each inside what the ones before it leave, up to one with the stop bit.
pub rdh_sanity_check-Packets :
    (fuel : ℕ) (cfg : ReadoutSettings) (b : Block) (first_seen : ℕ)
    → 0 < cfg.sizeof_rdh
    → b.size < fuel
    → ((rdh_sanity_check fuel cfg b first_seen).0 ≡ some accepted) ↔ (
        (first_seen ≤ (b.rdh_at 0).orbit)
        × Packets cfg b (get_sub_specification cfg (b.rdh_at 0)) 0 b.size)
unfolding rdh_sanity_check
rdh_sanity_check-Packets fuel cfg b first_seen pos h =
    let sub = get_sub_specification cfg (b.rdh_at 0) in
    (
      λ e.
          let s : (cfg.sizeof_rdh ≤ b.size) = ground (arith, e) in
          let o : (first_seen ≤ (b.rdh_at 0).orbit) = ground (arith, e, s) in
          let c : (check_packets fuel cfg b sub 0 b.size ≡ some accepted) =
            ground (arith, e, s, o) in
          (o, check-Packets fuel cfg b sub 0 b.size (omega (arith, pos, s)) c),
      λ p.
          let c = Packets-check fuel cfg b sub 0 b.size h p.1 in
          let s : (cfg.sizeof_rdh ≤ b.size) = Packets-size cfg b sub 0 b.size p.1 in
          ground (arith, p.0, c, s),
    )

-- A block that the filter removes, whose second packet if it has one lies inside the block, has no
-- payload in its packets and is one chain of packets: the sanity check has nothing against it but its
-- orbit.
pub filter-Packets :
    (cfg : ReadoutSettings) (b : Block)
    → 64 ≤ cfg.sizeof_rdh
    → ((b.rdh_at 0).stop_bit ≡ false → (b.rdh_at 0).offset_to_next + cfg.sizeof_rdh ≤ b.size)
    → filter_empty_trigger_blocks cfg b ≡ true
    → ((b.rdh_at 0).memory_size ≡ cfg.sizeof_rdh)
      × Packets cfg b (get_sub_specification cfg (b.rdh_at 0)) 0 b.size
unfolding filter_empty_trigger_blocks second_packet_empty
filter-Packets cfg b h inside e =
    let r1 = b.rdh_at 0 in
    let s : (cfg.sizeof_rdh ≤ b.size) = ground (arith, e) in
    elim (Bool-cases r1.stop_bit) [
      | inl stop ↦
          let m : (r1.memory_size ≡ cfg.sizeof_rdh) = ground (arith, e, stop, s) in
          (m, last s (omega (arith, h, s)) refl stop (omega (arith, m, s)))
      | inr stop ↦
          let off = r1.offset_to_next in
          let r2 = b.rdh_at off in
          let fits = inside stop in
          let same = nat_beq_iff (get_sub_specification cfg r1) (get_sub_specification cfg r2) in
          let m : (r1.memory_size ≡ cfg.sizeof_rdh) = ground (arith, e, stop, s) in
          let q : (get_sub_specification cfg r1 ≡ get_sub_specification cfg r2) =
            ground (arith, e, stop, s, same) in
          let m2 : (r1.memory_size ≡ r2.memory_size) = ground (arith, e, stop, s) in
          let stop2 : (r2.stop_bit ≡ true) = ground (arith, e, stop, s) in
          let pos : (0 < off) = elim (nat_cases off) [
            | inl z ↦
                let again : (r2.stop_bit ≡ false) =
                  subst (λ i. (b.rdh_at i).stop_bit ≡ false) (sym z) stop in
                absurd (ground (arith, again, stop2))
            | inr p ↦ p
          ] in
          let (whole, off_less, size_less, rest, rest_64) =
            room cfg.sizeof_rdh off b.size h pos fits in
          let first : (r1.memory_size < b.size) = subst (λ i. i < b.size) (sym m) size_less in
          let memory : (r2.memory_size ≤ b.size - off) =
            subst (λ i. i ≤ b.size - off) (sym m ∙ m2) rest in
          let second = last {at = off} {left = b.size - off} rest rest_64 q stop2 memory in
          (
            m,
            more s whole refl stop pos off_less first (
                subst (λ i. Packets cfg b (get_sub_specification cfg r1) i (b.size - off))
                  (from_zero off) second),
          )
    ]

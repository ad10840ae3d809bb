-- ===== src/Common/Readout/SubSpecs.antt =====
-- ReadoutDataUtils::getSubSpecification (src/common/ReadoutDataModel.cxx): that it tells equipments apart.
use Prim.Native.Nat.{bit_or, digits, bit_or-bitwise}
use native.Mathlib.Nat.{pow-suc}
use data_distribution.Prelude.{
  ℕ, zero, suc, ◌+◌, ◌*◌, ◌/◌, ◌%◌, ◌^◌, ◌≤◌, ◌<◌, max, ◌≡◌, refl, sym, ap, ◌∙◌, arith, ◌==◌,
  nat_eq, if◌then◌else◌,
}
use data_distribution.Common.Readout.{ReadoutSettings, Rdh, get_sub_specification, cru_link_id}

abbrev or_digits : ℕ → ℕ → ℕ → ℕ
or_digits n a b = digits (λ b. b) max n a b

or_digits_fuel : (n m a b : ℕ) → a ≤ n → a ≤ m → or_digits n a b ≡ or_digits m a b
or_digits_fuel zero zero a b p q = refl
or_digits_fuel zero (suc m) zero b p q = refl
or_digits_fuel zero (suc m) (suc a) b p q = absurd (omega (arith, p))
or_digits_fuel (suc n) zero zero b p q = refl
or_digits_fuel (suc n) zero (suc a) b p q = absurd (omega (arith, q))
or_digits_fuel (suc n) (suc m) zero b p q = refl
or_digits_fuel (suc n) (suc m) (suc a) b p q =
    omega (arith, or_digits_fuel n m (suc a / 2) (b / 2) (omega (arith, p)) (omega (arith, q)))

zero-bit_or : (b : ℕ) → bit_or 0 b ≡ b
zero-bit_or b = bit_or-bitwise 0 b

bit_or_step : (a b : ℕ) → bit_or a b ≡ bit_or (a / 2) (b / 2) * 2 + max (a % 2) (b % 2)
bit_or_step zero b = omega (arith, zero-bit_or b, zero-bit_or (b / 2))
bit_or_step (suc a) b = omega (
  arith,
  bit_or-bitwise (suc a) b,
  bit_or-bitwise (suc a / 2) (b / 2),
  or_digits_fuel a (suc a / 2) (suc a / 2) (b / 2) (omega arith) (omega arith),
)

bit_or-zero_fuel : (n a : ℕ) → a ≤ n → bit_or a 0 ≡ a
bit_or-zero_fuel n zero h = zero-bit_or 0
bit_or-zero_fuel zero (suc a) h = absurd (omega (arith, h))
bit_or-zero_fuel (suc n) (suc a) h =
    omega (arith, bit_or_step (suc a) 0, bit_or-zero_fuel n (suc a / 2) (omega (arith, h)))

double_pow : (k : ℕ) → 2 ^ suc k ≡ 2 * 2 ^ k
double_pow k = omega (arith, pow-suc 2 k)

double_high : (c k : ℕ) → c * 2 ^ suc k ≡ 2 * (c * 2 ^ k)
double_high c k = omega (arith, ap (λ t. c * t) (double_pow k))

-- Below bit `k` the one, from there on the other.
bit_or_high : (k c x : ℕ) → x < 2 ^ k → bit_or (c * 2 ^ k) x ≡ c * 2 ^ k + x
bit_or_high zero c x h =
    let none : (x ≡ 0) = omega (arith, h) in
    rw none (omega (arith, bit_or-zero_fuel (c * 1) (c * 1) (omega arith)))
bit_or_high (suc k) c x h =
    let half : (x / 2 < 2 ^ k) = omega (arith, h, double_pow k) in
    let even : (c * 2 ^ suc k / 2 ≡ c * 2 ^ k) = omega (arith, double_high c k) in
    let now = bit_or_step (c * 2 ^ suc k) x in
    let rest = bit_or_high k c (x / 2) half in
    let mid : (bit_or (c * 2 ^ suc k / 2) (x / 2) ≡ c * 2 ^ k + x / 2) =
      ap (λ t. bit_or t (x / 2)) even ∙ rest in
    omega (arith, now, mid, double_high c k)

-- The ranges of the fields of an RDH, with the link ids below 255.
abbrev pub IsEquipment : Rdh → Type 0
IsEquipment r = (r.cru_id < 2 ^ 16) × (r.link_id < 255) × (r.end_point_id < 2)

abbrev link_part : Rdh → ℕ
link_part r = (r.link_id + 1) * (if r.end_point_id == 0 then 1 else 2 ^ 8)

link_part_below : (r : Rdh) → r.link_id < 255 → link_part r < 2 ^ 16
link_part_below r h = ground (arith, h)

sub_specification_value :
    (cfg : ReadoutSettings) (r : Rdh)
    → cfg.sub_spec_mode ≡ cru_link_id
    → IsEquipment r
    → get_sub_specification cfg r ≡ r.cru_id * 2 ^ 16 + link_part r
unfolding get_sub_specification
sub_specification_value cfg r mode h =
    let low = link_part_below r h.1 in
    rw mode (omega (arith, bit_or_high 16 r.cru_id (link_part r) low, low, h.0))

high_low :
    (c d x y : ℕ) → x < 2 ^ 16 → y < 2 ^ 16 → c * 2 ^ 16 + x ≡ d * 2 ^ 16 + y → (c ≡ d) × (x ≡ y)
high_low c d x y hx hy e = (omega (arith, hx, hy, e), omega (arith, hx, hy, e))

link_part-injective :
    (a b : Rdh)
    → IsEquipment a
    → IsEquipment b
    → link_part a ≡ link_part b
    → (a.link_id ≡ b.link_id) × (a.end_point_id ≡ b.end_point_id)
link_part-injective a b h k e =
    (ground (arith, h.1, h.2, k.1, k.2, e), ground (arith, h.1, h.2, k.1, k.2, e))

-- By CRU and link, two RDHs have the same sub-specification only if CRU, link and end point are the same,
-- where the CRU is a 16-bit number, the link is below 255 and the end point is 0 or 1.
pub get_sub_specification-injective :
    (cfg : ReadoutSettings) (a b : Rdh)
    → cfg.sub_spec_mode ≡ cru_link_id
    → IsEquipment a
    → IsEquipment b
    → get_sub_specification cfg a ≡ get_sub_specification cfg b
    → (a.cru_id ≡ b.cru_id) × (a.link_id ≡ b.link_id) × (a.end_point_id ≡ b.end_point_id)
get_sub_specification-injective cfg a b mode h k e =
    let va = sub_specification_value cfg a mode h in
    let vb = sub_specification_value cfg b mode k in
    let la = link_part_below a h.1 in
    let lb = link_part_below b k.1 in
    let split = high_low a.cru_id b.cru_id (link_part a) (link_part b) la lb (sym va ∙ e ∙ vb) in
    let links = link_part-injective a b h k split.1 in (split.0, links.0, links.1)

-- ===== src/StfBuilder/Builder/Frames.antt =====
-- SubTimeFrameReadoutBuilder::addHbFrames (src/common/SubTimeFrameBuilder.cxx): which of the blocks it
-- keeps, where they go, and what becomes of the STF when there is no memory for a header.
use data_distribution.Prelude.{
  ℕ, suc, Bool, ◌&&◌, length, true, false, ◌⊎◌, inl, inr, Option, some, none, List, [], ◌∷◌, ◌≡◌,
  refl, sym, ap, ◌∙◌, arith, Bool-cases, Option-cases, if◌then◌else◌, subst, nat_eq, find, insert,
}
use data_distribution.Common.Readout.{
  Block, Rdh, ReadoutSettings, SanityCheckMode, no_sanity_check, sanity_check_drop,
  sanity_check_print, Check, accepted, refused, throws, rdh_reader, rdh_sanity_check,
  filter_empty_trigger_blocks, get_sub_specification,
}
use data_distribution.StfBuilder.Builder.{
  Run, done, thrown, unfinished, then_do, filter_blocks, filter_rest, keep_all, check_block, judge,
  check_blocks, checks, print_block, already,
}

-- The blocks marked are the empty triggers, and none where the filter is off.
abbrev pub AreMarked : ReadoutSettings → List Bool → List Block → Type 0
AreMarked cfg [] [] = Unit {0}
AreMarked cfg (r ∷ rs) (b ∷ bs) =
    (r ≡ (cfg.empty_trigger_filtering && filter_empty_trigger_blocks cfg b)) × AreMarked cfg rs bs
AreMarked cfg [] (b ∷ bs) = ⊥
AreMarked cfg (r ∷ rs) [] = ⊥

-- Whether a block of the sub-specification has been kept before in this STF.
abbrev pub WasSeen : ReadoutSettings → List (ℕ × Bool) → Block → Bool → Type 0
WasSeen cfg seen b was =
    (h : Rdh) × (rdh_reader cfg b 0 b.size ≡ some h)
    × (already (find (get_sub_specification cfg h) seen) ≡ was)

-- The marks of the filter: those of the empty triggers, but where the call's sub-specification is new to
-- the STF, its first block has no mark.
pub data Marks (cfg : ReadoutSettings) (seen : List (ℕ × Bool))
    : List Bool → List Block → Type 0 where
  no_blocks : Marks cfg seen [] []
  filter_off :
      {rs : List Bool} {bs : List Block}
      → cfg.empty_trigger_filtering ≡ false
      → AreMarked cfg rs bs
      → Marks cfg seen rs bs
  known :
      {rs : List Bool} {b : Block} {bs : List Block}
      → WasSeen cfg seen b true
      → AreMarked cfg rs (b ∷ bs)
      → Marks cfg seen rs (b ∷ bs)
  first_block :
      {rs : List Bool} {b : Block} {bs : List Block}
      → cfg.empty_trigger_filtering ≡ true
      → WasSeen cfg seen b false
      → AreMarked cfg rs bs
      → Marks cfg seen (false ∷ rs) (b ∷ bs)

-- A block that is checked stays if the blocks are only printed, or if the check accepts it.
abbrev pub Stays : SanityCheckMode → Option Check → Type 0
Stays mode result =
    (mode ≡ sanity_check_print) ⊎ ((mode ≡ sanity_check_drop) × (result ≡ some accepted))

-- The marked blocks are left out, and in drop mode those that the sanity check refuses, and all others
-- stay. The number is the first orbit seen, which goes through the checks from block to block.
pub data Kept (fuel : ℕ) (cfg : ReadoutSettings)
    : ℕ → List Bool → List Block → List Block → Type 0 where
  end : {seen : ℕ} → Kept fuel cfg seen [] [] []
  filtered :
      {seen : ℕ} {rs : List Bool} {b : Block} {bs ks : List Block}
      → Kept fuel cfg seen rs bs ks
      → Kept fuel cfg seen (true ∷ rs) (b ∷ bs) ks
  unchecked :
      {seen : ℕ} {rs : List Bool} {b : Block} {bs ks : List Block}
      → cfg.sanity_check_mode ≡ no_sanity_check
      → Kept fuel cfg seen rs bs ks
      → Kept fuel cfg seen (false ∷ rs) (b ∷ bs) (b ∷ ks)
  stays :
      {seen : ℕ} {rs : List Bool} {b : Block} {bs ks : List Block}
      → Stays cfg.sanity_check_mode (rdh_sanity_check fuel cfg b seen).0
      → Kept fuel cfg (rdh_sanity_check fuel cfg b seen).1 rs bs ks
      → Kept fuel cfg seen (false ∷ rs) (b ∷ bs) (b ∷ ks)
  dropped :
      {seen : ℕ} {rs : List Bool} {b : Block} {bs ks : List Block}
      → cfg.sanity_check_mode ≡ sanity_check_drop
      → (rdh_sanity_check fuel cfg b seen).0 ≡ some refused
      → Kept fuel cfg (rdh_sanity_check fuel cfg b seen).1 rs bs ks
      → Kept fuel cfg seen (false ∷ rs) (b ∷ bs) ks

keep_all-AreMarked :
    (cfg : ReadoutSettings) (bs : List Block)
    → cfg.empty_trigger_filtering ≡ false
    → AreMarked cfg (keep_all bs) bs
keep_all-AreMarked cfg [] off = tt
keep_all-AreMarked cfg (b ∷ bs) off = (ground (arith, off), keep_all-AreMarked cfg bs off)

filter_rest-AreMarked :
    (cfg : ReadoutSettings) (bs : List Block)
    → cfg.empty_trigger_filtering ≡ true
    → AreMarked cfg (filter_rest cfg bs) bs
unfolding filter_rest
filter_rest-AreMarked cfg [] on = tt
filter_rest-AreMarked cfg (b ∷ bs) on = (ground (arith, on), filter_rest-AreMarked cfg bs on)

length-AreMarked :
    (cfg : ReadoutSettings) (rs : List Bool) (bs : List Block)
    → AreMarked cfg rs bs
    → length rs ≡ length bs
length-AreMarked cfg [] [] m = refl
length-AreMarked cfg (r ∷ rs) (b ∷ bs) m = ap suc (length-AreMarked cfg rs bs m.1)
length-AreMarked cfg [] (b ∷ bs) m = absurd m
length-AreMarked cfg (r ∷ rs) [] m = absurd m

pub length-Marks :
    (cfg : ReadoutSettings) (seen : List (ℕ × Bool)) (rs : List Bool) (bs : List Block)
    → Marks cfg seen rs bs
    → length rs ≡ length bs
length-Marks cfg seen [] [] no_blocks = refl
length-Marks cfg seen rs bs (filter_off off are) = length-AreMarked cfg rs bs are
length-Marks cfg seen rs (b ∷ bs) (known was are) = length-AreMarked cfg rs (b ∷ bs) are
length-Marks cfg seen (false ∷ rs) (b ∷ bs) (first_block on was are) =
    ap suc (length-AreMarked cfg rs bs are)

result_or : {A : Type 0} → A → Run A → A
result_or d (done a) = a
result_or d thrown = d
result_or d unfinished = d

pub done-injective : {A : Type 0} {a b : A} → done a ≡ done b → a ≡ b
unfolding result_or
done-injective {a = a} e = ap (λ r. result_or a r) e

pub then_do-done :
    {A B : Type 0} (m : Run A) (f : A → Run B) (b : B)
    → then_do m f ≡ done b
    → (a : A) × (m ≡ done a) × (f a ≡ done b)
then_do-done (done a) f b e = (a, refl, e)
then_do-done thrown f b e = absurd (ground (arith, e))
then_do-done unfinished f b e = absurd (ground (arith, e))

pub filter_blocks-Marks :
    (cfg : ReadoutSettings) (bs : List Block) (seen : List (ℕ × Bool))
    (f : List Bool × List (ℕ × Bool))
    → filter_blocks cfg bs seen ≡ done f
    → Marks cfg seen f.0 bs
unfolding filter_blocks
filter_blocks-Marks cfg [] seen f e =
    subst (λ g. Marks cfg seen g.0 []) (done-injective e) no_blocks
filter_blocks-Marks cfg (b ∷ bs) seen f e = elim (Bool-cases cfg.empty_trigger_filtering) [
  | inr off ↦
      let same : (filter_blocks cfg (b ∷ bs) seen ≡ done (keep_all (b ∷ bs), seen)) =
        rw (filter_blocks, off) refl in
      subst (λ g. Marks cfg seen g.0 (b ∷ bs)) (done-injective (sym same ∙ e))
        (filter_off off (keep_all-AreMarked cfg (b ∷ bs) off))
  | inl on ↦ elim (Option-cases (rdh_reader cfg b 0 b.size)) [
    | inl none_there ↦
        let same : (filter_blocks cfg (b ∷ bs) seen ≡ thrown) =
          rw (filter_blocks, none_there, on) refl in
        absurd (ground (arith, sym same ∙ e))
    | inr (r, there) ↦
        let sub = get_sub_specification cfg r in
        elim (Bool-cases (already (find sub seen))) [
          | inl again ↦
              let same : (filter_blocks cfg (b ∷ bs) seen ≡ done (filter_rest cfg (b ∷ bs), seen)) =
                rw (filter_blocks, there, again, on) refl in
              subst (λ g. Marks cfg seen g.0 (b ∷ bs)) (done-injective (sym same ∙ e))
                (known (r, there, again) (filter_rest-AreMarked cfg (b ∷ bs) on))
          | inr new ↦
              let same : (filter_blocks cfg (b ∷ bs) seen
                  ≡ done (false ∷ filter_rest cfg bs, insert sub true seen)) =
                rw (filter_blocks, there, new, on) refl in
              subst (λ g. Marks cfg seen g.0 (b ∷ bs)) (done-injective (sym same ∙ e))
                (first_block on (r, there, new) (filter_rest-AreMarked cfg bs on))
        ]
  ]
]

checks_off : (mode : SanityCheckMode) → checks mode ≡ false → mode ≡ no_sanity_check
checks_off no_sanity_check e = refl
checks_off sanity_check_drop e = absurd (ground (arith, e))
checks_off sanity_check_print e = absurd (ground (arith, e))

judge_cases :
    (mode : SanityCheckMode) (printed : Run Bool) (seen : ℕ) (result : Option Check) (c : Bool × ℕ)
    → checks mode ≡ true
    → judge mode printed seen result ≡ done c
    → (c ≡ (true, seen)) × (mode ≡ sanity_check_drop) × (result ≡ some refused)
      ⊎ (c ≡ (false, seen)) × Stays mode result
unfolding judge
judge_cases mode printed seen none c on e = absurd (ground (arith, e))
judge_cases mode printed seen (some throws) c on e = absurd (ground (arith, e))
judge_cases no_sanity_check printed seen (some accepted) c on e = absurd (ground (arith, on))
judge_cases sanity_check_drop printed seen (some accepted) c on e =
    inr (sym (done-injective e), inr (refl, refl))
judge_cases sanity_check_print printed seen (some accepted) c on e =
    inr (sym (done-injective e), inl refl)
judge_cases no_sanity_check printed seen (some refused) c on e = absurd (ground (arith, on))
judge_cases sanity_check_drop printed seen (some refused) c on e =
    inl (sym (done-injective e), refl, refl)
judge_cases sanity_check_print printed seen (some refused) c on e =
    let (a, p, q) = then_do-done printed (λ _. done (false, seen)) c e in
    inr (sym (done-injective q), inl refl)

pub check_blocks-Kept :
    (fuel : ℕ) (cfg : ReadoutSettings) (rs : List Bool) (bs : List Block) (seen : ℕ)
    (k : List Block × ℕ)
    → length rs ≡ length bs
    → check_blocks fuel cfg rs bs seen ≡ done k
    → Kept fuel cfg seen rs bs k.0
unfolding check_blocks check_block
check_blocks-Kept fuel cfg [] [] seen k m e =
    subst (λ l. Kept fuel cfg seen [] [] l.0) (done-injective e) end
check_blocks-Kept fuel cfg [] (b ∷ bs) seen k m e = absurd (omega (arith, m))
check_blocks-Kept fuel cfg (r ∷ rs) [] seen k m e = absurd (omega (arith, m))
check_blocks-Kept fuel cfg (true ∷ rs) (b ∷ bs) seen k m e =
    filtered (check_blocks-Kept fuel cfg rs bs seen k (omega (arith, m)) e)
check_blocks-Kept fuel cfg (false ∷ rs) (b ∷ bs) seen k m e =
    let all = b ∷ bs in
    elim (Bool-cases (checks cfg.sanity_check_mode)) [
      | inr off ↦
          let same : (check_blocks fuel cfg (false ∷ rs) (b ∷ bs) seen
              ≡ then_do (check_blocks fuel cfg rs bs seen) (λ k. done (b ∷ k.0, k.1))) =
            rw (check_blocks, off) refl in
          let (rest, first, last) =
            then_do-done (check_blocks fuel cfg rs bs seen) (λ k. done (b ∷ k.0, k.1)) k
              (sym same ∙ e) in
          subst (λ l. Kept fuel cfg seen (false ∷ rs) all l.0) (done-injective last)
            (unchecked (checks_off cfg.sanity_check_mode off)
              (check_blocks-Kept fuel cfg rs bs seen rest (omega (arith, m)) first))
      | inl on ↦
          let same : (check_blocks fuel cfg (false ∷ rs) (b ∷ bs) seen
              ≡ then_do (check_block fuel cfg b seen) (λ c.
                then_do (check_blocks fuel cfg rs bs c.1)
                  (λ k. done ((if c.0 then k.0 else b ∷ k.0), k.1)))) =
            rw (check_blocks, on) refl in
          let (c, checked, after) =
            then_do-done (check_block fuel cfg b seen)
              (λ c.
                then_do (check_blocks fuel cfg rs bs c.1)
                  (λ k. done ((if c.0 then k.0 else b ∷ k.0), k.1)))
              k (sym same ∙ e) in
          let (rest, first, last) =
            then_do-done (check_blocks fuel cfg rs bs c.1)
              (λ k. done ((if c.0 then k.0 else b ∷ k.0), k.1)) k after in
          let others : Kept fuel cfg c.1 rs bs rest.0 =
            check_blocks-Kept fuel cfg rs bs c.1 rest (omega (arith, m)) first in
          let seen' = (rdh_sanity_check fuel cfg b seen).1 in
          let here : Kept fuel cfg seen (false ∷ rs) all (if c.0 then rest.0 else b ∷ rest.0) =
            elim (judge_cases cfg.sanity_check_mode (print_block fuel cfg b 0) seen'
              (rdh_sanity_check fuel cfg b seen).0 c on checked) [
                | inl (goes, drop, refused_here) ↦
                    subst
                      (λ d.
                        Kept fuel cfg seen (false ∷ rs) all (if d.0 then rest.0 else b ∷ rest.0))
                      (sym goes)
                      (dropped drop refused_here
                        (subst (λ d. Kept fuel cfg d.1 rs bs rest.0) goes others))
                | inr (kept, why) ↦
                    subst
                      (λ d.
                        Kept fuel cfg seen (false ∷ rs) all (if d.0 then rest.0 else b ∷ rest.0))
                      (sym kept)
                      (stays why (subst (λ d. Kept fuel cfg d.1 rs bs rest.0) kept others))
              ] in
          subst (λ l. Kept fuel cfg seen (false ∷ rs) all l.0) (done-injective last) here
    ]

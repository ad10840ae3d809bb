-- ===== src/Common/FileReader/Ordering.antt =====
-- The order in which SubTimeFrameFileWriter::visit (src/common/SubTimeFrameFileWriter.cxx) collects the
-- messages, as the reader finds them again.
use data_distribution.Prelude.{
  ℕ, zero, suc, ◌+◌, Bool, true, false, ◌==◌, ==_iff, List, [], ◌∷◌, ◌++◌, map, none, ◌≡◌, refl,
  sym, ap, ◌∙◌, subst, inl, inr, Bool-cases, arith, if◌then◌else◌, All, All-append, All-map, find,
}
use mathlib.Core.List.{append-nil}
use data_distribution.Common.SubTimeFrame.{
  EquipmentIdentifier, equipment_eq, StfMessage, DataMap, messages_of, get_equipment_identifiers,
}
use data_distribution.Common.SubTimeFrame.Merging.{Unique}
use data_distribution.Common.FileWriter.{collect, sort, insert_sorted}
use data_distribution.Common.FileReader.Blocks.{CountsParts}
use data_distribution.Common.FileReader.Rebuilding.{select, first_message}

-- A message of the equipment, with as many parts as its header says.
abbrev pub IsOf : EquipmentIdentifier → StfMessage → Type 0
IsOf e m = (m.header.equipment ≡ e) × CountsParts m

-- Every message stands at the equipment of its header.
abbrev pub IsKeyed : DataMap → Type 0
IsKeyed [] = Unit {0}
IsKeyed (p ∷ m) = All (IsOf p.0) p.1 × IsKeyed m

find-IsKeyed :
    (m : DataMap) (e : EquipmentIdentifier) → IsKeyed m → All (IsOf e) (messages_of (find e m))
unfolding find
find-IsKeyed [] e k = tt
find-IsKeyed (p ∷ m) e k = elim (Bool-cases (p.0 == e)) [
  | inl same ↦ rw (find, same) (subst (λ d. All (IsOf d) p.1) ((==_iff p.0 e).0 same) k.0)
  | inr other ↦ rw (find, other) (find-IsKeyed m e k.1)
]

pub collect-CountsParts :
    (m : DataMap) (es : List EquipmentIdentifier) → IsKeyed m → All CountsParts (collect m es)
unfolding collect
collect-CountsParts m [] k = tt
collect-CountsParts m (e ∷ es) k =
    All-append CountsParts (messages_of (find e m)) (collect m es)
      (All-map (λ n h. h.1) (messages_of (find e m)) (find-IsKeyed m e k))
      (collect-CountsParts m es k)

select-append :
    (d : EquipmentIdentifier) (xs ys : List StfMessage)
    → select d (xs ++ ys) ≡ select d xs ++ select d ys
select-append d [] ys = refl
select-append d (x ∷ xs) ys = elim (Bool-cases (x.header.equipment == d)) [
  | inl e ↦ rw e (ap (λ l. first_message x ∷ l) (select-append d xs ys))
  | inr e ↦ rw e (select-append d xs ys)
]

select_own :
    (d : EquipmentIdentifier) (ms : List StfMessage)
    → All (IsOf d) ms
    → select d ms ≡ map first_message ms
select_own d [] h = refl
select_own d (m ∷ ms) h =
    let same : ((m.header.equipment == d) ≡ true) = (==_iff m.header.equipment d).1 h.0.0 in
    rw same (ap (λ l. first_message m ∷ l) (select_own d ms h.1))

select_other :
    (e d : EquipmentIdentifier) (ms : List StfMessage)
    → (e == d) ≡ false
    → All (IsOf e) ms
    → select d ms ≡ []
select_other e d [] h k = refl
select_other e d (m ∷ ms) h k =
    let other : ((m.header.equipment == d) ≡ false) = ap (λ x. x == d) k.0.0 ∙ h in
    rw other (select_other e d ms h k.1)

abbrev occurs : EquipmentIdentifier → List EquipmentIdentifier → ℕ
occurs d [] = 0
occurs d (e ∷ es) = (if e == d then 1 else 0) + occurs d es

abbrev copies : ℕ → List StfMessage → List StfMessage
copies zero xs = []
copies (suc n) xs = xs ++ copies n xs

one_plus : (n : ℕ) → 1 + n ≡ suc n
one_plus n = omega arith

zero_plus : (n : ℕ) → n ≡ 0 + n
zero_plus n = omega arith

one_more : (n : ℕ) (xs : List StfMessage) → copies (1 + n) xs ≡ xs ++ copies n xs
one_more n xs = ap (λ k. copies k xs) (one_plus n)

select-collect :
    (d : EquipmentIdentifier) (m : DataMap) (es : List EquipmentIdentifier)
    → IsKeyed m
    → select d (collect m es) ≡ copies (occurs d es) (map first_message (messages_of (find d m)))
unfolding collect
select-collect d m [] k = refl
select-collect d m (e ∷ es) k =
    let ms = messages_of (find e m) in
    let ih = select-collect d m es k in
    let split = select-append d ms (collect m es) in
    elim (Bool-cases (e == d)) [
      | inl same ↦
          let eq = (==_iff e d).0 same in
          let own : (select d ms ≡ map first_message (messages_of (find d m))) =
            subst
              (λ x. select d (messages_of (find x m)) ≡ map first_message (messages_of (find d m)))
              (sym eq) (select_own d (messages_of (find d m)) (find-IsKeyed m d k)) in
          split
          ∙ ap (λ l. l ++ select d (collect m es)) own
          ∙ ap (λ l. map first_message (messages_of (find d m)) ++ l) ih
          ∙ sym (one_more (occurs d es) (map first_message (messages_of (find d m))))
          ∙ ap
              (λ b.
                copies ((if b then 1 else 0) + occurs d es)
                  (map first_message (messages_of (find d m))))
              (sym same)
      | inr other ↦
          split
          ∙ ap (λ l. l ++ select d (collect m es)) (select_other e d ms other (find-IsKeyed m e k))
          ∙ ih
          ∙ ap (λ n. copies n (map first_message (messages_of (find d m))))
              (zero_plus (occurs d es))
          ∙ ap
              (λ b.
                copies ((if b then 1 else 0) + occurs d es)
                  (map first_message (messages_of (find d m))))
              (sym other)
    ]

occurs-insert_sorted :
    (before : EquipmentIdentifier → EquipmentIdentifier → Bool) (d e : EquipmentIdentifier)
    (es : List EquipmentIdentifier)
    → occurs d (insert_sorted before e es) ≡ occurs d (e ∷ es)
unfolding insert_sorted
occurs-insert_sorted before d e [] = refl
occurs-insert_sorted before d e (x ∷ es) = elim (Bool-cases (before x e)) [
  | inl later ↦ rw later (omega (arith, occurs-insert_sorted before d e es))
  | inr here ↦ rw here refl
]

occurs-sort :
    (before : EquipmentIdentifier → EquipmentIdentifier → Bool) (d : EquipmentIdentifier)
    (es : List EquipmentIdentifier)
    → occurs d (sort before es) ≡ occurs d es
unfolding sort
occurs-sort before d [] = refl
occurs-sort before d (e ∷ es) =
    occurs-insert_sorted before d e (sort before es)
    ∙ ap (λ n. (if e == d then 1 else 0) + n) (occurs-sort before d es)

occurs-none :
    (d : EquipmentIdentifier) (m : DataMap)
    → find d m ≡ none
    → occurs d (get_equipment_identifiers m) ≡ 0
unfolding find
occurs-none d [] h = refl
occurs-none d (p ∷ m) h = elim (Bool-cases (p.0 == d)) [
  | inl same ↦ absurd (ground (arith, h, same))
  | inr other ↦
      let rest : (find d m ≡ none) = ground (arith, h, other) in
      rw other (omega (arith, occurs-none d m rest))
]

occurs-find :
    (d : EquipmentIdentifier) (m : DataMap)
    → Unique m
    → copies (occurs d (get_equipment_identifiers m)) (map first_message (messages_of (find d m)))
      ≡ map first_message (messages_of (find d m))
unfolding find
occurs-find d [] u = refl
occurs-find d (p ∷ m) u = elim (Bool-cases (p.0 == d)) [
  | inl same ↦
      let eq = (==_iff p.0 d).0 same in
      let gone : (find d m ≡ none) = subst (λ x. find x m ≡ none) eq u.0 in
      let once : (1 + occurs d (get_equipment_identifiers m) ≡ 1) =
        omega (arith, occurs-none d m gone) in
      rw (find, same, once) (append-nil (map first_message p.1))
  | inr other ↦
      let count : (0 + occurs d (get_equipment_identifiers m)
          ≡ occurs d (get_equipment_identifiers m)) =
        omega arith in
      rw (find, other, count) (occurs-find d m u.1)
]

-- What the writer collects has, for each equipment, the messages that the map has.
pub select-collect-sort :
    (before : EquipmentIdentifier → EquipmentIdentifier → Bool) (d : EquipmentIdentifier)
    (m : DataMap)
    → IsKeyed m
    → Unique m
    → select d (collect m (sort before (get_equipment_identifiers m)))
      ≡ map first_message (messages_of (find d m))
select-collect-sort before d m k u =
    select-collect d m (sort before (get_equipment_identifiers m)) k
    ∙ ap (λ n. copies n (map first_message (messages_of (find d m))))
        (occurs-sort before d (get_equipment_identifiers m))
    ∙ occurs-find d m u

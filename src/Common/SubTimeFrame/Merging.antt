-- ===== src/Common/SubTimeFrame/Merging.antt =====
-- What updateStf and mergeStf do to the messages and the size of a SubTimeFrame
-- (src/common/SubTimeFrameDataModel.cxx).
use mathlib.Core.List.{append-nil}
use data_distribution.Prelude.{
  ◌+◌, ◌%◌, true, false, ◌&&◌, ◌==◌, nat_eq, List, [], ◌∷◌, ◌++◌, none, ◌≡◌, refl, sym, subst, ap,
  inl, inr, Bool-cases, arith, sum, find, insert, find-insert, u64_mod,
}
use data_distribution.Common.SubTimeFrame.{
  EquipmentIdentifier, equipment_eq, equipment_beq_iff, StfMessage, StfHeader, DataMap,
  SubTimeFrame, is_null, update_message, update_messages, update_data, size_of, total, update_stf,
  get_data_size, messages_of, adopt, merge_stf,
}

-- No equipment has two entries.
abbrev pub Unique : DataMap → Type 0
Unique [] = Unit
Unique (p ∷ m) = (find p.0 m ≡ none) × Unique m

pub find-adopt :
    (m n : DataMap) (e : EquipmentIdentifier)
    → Unique n
    → messages_of (find e (adopt m n)) ≡ messages_of (find e m) ++ messages_of (find e n)
unfolding adopt find
find-adopt m [] e h = sym (append-nil (messages_of (find e m)))
find-adopt m (p ∷ n) e h =
    let old = messages_of (find p.0 m) in
    let ih = find-adopt (insert p.0 (old ++ p.1) m) n e h.1 in
    let found = find-insert p.0 e (old ++ p.1) m in
    elim (Bool-cases (p.0 == e)) [
      | inl b ↦
          let same = (equipment_beq_iff p.0 e).0 b in
          let none_left : (find e n ≡ none) = subst (λ k. find k n ≡ none) same h.0 in
          let old_same : (old ≡ messages_of (find e m)) = ap (λ k. messages_of (find k m)) same in
          ground
            (arith, ih, found, b, none_left, old_same, append-nil (messages_of (find e m) ++ p.1))
      | inr b ↦ ground (arith, ih, found, b)
    ]

size_of-append : (xs ys : List StfMessage) → size_of (xs ++ ys) ≡ size_of xs + size_of ys
size_of-append [] ys = omega arith
size_of-append (x ∷ xs) ys = omega (arith, size_of-append xs ys)

total-insert :
    (e : EquipmentIdentifier) (ms : List StfMessage) (m : DataMap)
    → total (insert e (messages_of (find e m) ++ ms) m) ≡ total m + size_of ms
unfolding insert find
total-insert e ms [] = omega arith
total-insert e ms (p ∷ m) = elim (Bool-cases (p.0 == e)) [
  | inl b ↦ ground (arith, b, size_of-append p.1 ms)
  | inr b ↦ ground (arith, b, total-insert e ms m)
]

pub total-adopt : (m n : DataMap) → total (adopt m n) ≡ total m + total n
unfolding adopt
total-adopt m [] = omega arith
total-adopt m (p ∷ n) =
    omega (
      arith,
      total-adopt (insert p.0 (messages_of (find p.0 m) ++ p.1) m) n,
      total-insert p.0 p.1 m,
    )

sum-update_message :
    (h : StfHeader) (m : StfMessage) → (update_message h m).data_parts ≡ m.data_parts
unfolding update_message
sum-update_message h m = ground arith

size_of-update_messages :
    (h : StfHeader) (ms : List StfMessage) → size_of (update_messages h ms) ≡ size_of ms
size_of-update_messages h [] = refl
size_of-update_messages h (m ∷ ms) =
    omega (arith, ap sum (sum-update_message h m), size_of-update_messages h ms)

total-update_data : (h : StfHeader) (m : DataMap) → total (update_data h m) ≡ total m
total-update_data h [] = refl
total-update_data h (p ∷ m) = omega (arith, size_of-update_messages h p.1, total-update_data h m)

-- mergeStf of a SubTimeFrame whose origin is not eNull into one that counts as changed: each equipment
-- has the messages of both, those of the other one at the end, and the size is that of both together,
-- as a 64-bit number.
pub merge_stf_adopts :
    (s other : SubTimeFrame)
    → is_null other.header.origin ≡ false
    → s.data_updated ≡ false
    → Unique other.content
    → ((e : EquipmentIdentifier)
        → messages_of (find e (merge_stf s other).content)
          ≡ messages_of (find e s.content) ++ messages_of (find e other.content))
      × ((get_data_size (merge_stf s other)).0 ≡ (total s.content + total other.content) % u64_mod)
unfolding merge_stf get_data_size update_stf
merge_stf_adopts s other h0 h1 h2 = (
  (λ e. ground (arith, h0, find-adopt s.content other.content e h2)),
  ground (arith, h0, h1, total-adopt s.content other.content),
)

-- mergeStf does not mark its SubTimeFrame as changed: if that one was up to date, then its size is still
-- said to be the old one, whatever it takes over.
pub merge_stf_stale :
    (s other : SubTimeFrame)
    → s.data_updated ≡ true
    → (get_data_size (merge_stf s other)).0 ≡ s.data_size
unfolding merge_stf get_data_size update_stf
merge_stf_stale s other h =
    ground
      (arith, h, Bool-cases (is_null other.header.origin && ((update_stf other).data_size == 0)))

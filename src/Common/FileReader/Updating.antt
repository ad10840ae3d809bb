-- ===== src/Common/FileReader/Updating.antt =====
-- SubTimeFrame::updateStf (src/common/SubTimeFrameDataModel.cxx), as far as the writer and the reader of
-- files need it.
use data_distribution.Prelude.{
  ◌%◌, ◌^◌, ◌<◌, false, ◌==◌, nat_eq, List, [], ◌∷◌, none, ◌≡◌, refl, ap, inl, inr, Bool-cases,
  arith, length, All, find,
}
use data_distribution.Common.SubTimeFrame.{
  EquipmentIdentifier, equipment_eq, StfHeader, StfMessage, SubTimeFrame, DataMap, update_stf,
  update_data, update_messages, update_message,
}
use data_distribution.Common.SubTimeFrame.Merging.{Unique}
use data_distribution.Common.FileReader.Ordering.{IsOf, IsKeyed}

-- Every message of the map has the equipment of its place and parts, fewer than 2 ^ 32.
abbrev IsMessageOf : EquipmentIdentifier → StfMessage → Type 0
IsMessageOf e m =
    (m.header.equipment ≡ e) × (0 < length m.data_parts) × (length m.data_parts < 2 ^ 32)

abbrev pub IsStored : DataMap → Type 0
IsStored [] = Unit {0}
IsStored (p ∷ m) = All (IsMessageOf p.0) p.1 × IsStored m

update_message-IsOf :
    (h : StfHeader) (e : EquipmentIdentifier) (m : StfMessage)
    → IsMessageOf e m
    → IsOf e (update_message h m)
unfolding update_message
update_message-IsOf h e m (same, pos, small) =
    let some_parts : ((length m.data_parts == 0) ≡ false) = ground (arith, pos) in
    let count : (length m.data_parts % 2 ^ 32 ≡ length m.data_parts) = omega (arith, small) in
    rw (update_message, some_parts) (same, (pos, small, count))

update_messages-IsOf :
    (h : StfHeader) (e : EquipmentIdentifier) (ms : List StfMessage)
    → All (IsMessageOf e) ms
    → All (IsOf e) (update_messages h ms)
update_messages-IsOf h e [] a = tt
update_messages-IsOf h e (m ∷ ms) a =
    (update_message-IsOf h e m a.0, update_messages-IsOf h e ms a.1)

pub update_data-IsKeyed : (h : StfHeader) (m : DataMap) → IsStored m → IsKeyed (update_data h m)
update_data-IsKeyed h [] a = tt
update_data-IsKeyed h (p ∷ m) a = (update_messages-IsOf h p.0 p.1 a.0, update_data-IsKeyed h m a.1)

find-update_data :
    (h : StfHeader) (e : EquipmentIdentifier) (m : DataMap)
    → find e m ≡ none
    → find e (update_data h m) ≡ none
unfolding find
find-update_data h e [] n = refl
find-update_data h e (p ∷ m) n = elim (Bool-cases (p.0 == e)) [
  | inl same ↦ absurd (ground (arith, n, same))
  | inr other ↦
      let rest : (find e m ≡ none) = ground (arith, n, other) in
      rw (find, other) (find-update_data h e m rest)
]

pub update_data-Unique : (h : StfHeader) (m : DataMap) → Unique m → Unique (update_data h m)
update_data-Unique h [] u = tt
update_data-Unique h (p ∷ m) u = (find-update_data h p.0 m u.0, update_data-Unique h m u.1)

pub content-update_stf :
    (s : SubTimeFrame)
    → s.data_updated ≡ false
    → (update_stf s).content ≡ update_data s.header s.content
unfolding update_stf
content-update_stf s h = rw (update_stf, h) refl

pub content-update_empty : (s : SubTimeFrame) → s.content ≡ [] → (update_stf s).content ≡ []
unfolding update_stf
content-update_empty s h = elim (Bool-cases s.data_updated) [
  | inl e ↦ rw (update_stf, e) h
  | inr e ↦ rw (update_stf, e) (ap (λ c. update_data s.header c) h)
]

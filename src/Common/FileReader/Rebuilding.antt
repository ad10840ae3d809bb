-- ===== src/Common/FileReader/Rebuilding.antt =====
-- SubTimeFrameFileReader::visit (src/common/SubTimeFrameFileReader.cxx): the SubTimeFrame that it makes of
-- the data parts of a file.
use data_distribution.Prelude.{
  ℕ, ◌<◌, ◌==◌, ==_iff, ==_refl, List, [], ◌∷◌, ◌++◌, Option, some, ◌≡◌, refl, sym, ap, ◌∙◌, subst,
  inl, inr, Bool-cases, arith, if◌then◌else◌, length, All, find, insert, find-insert,
}
use mathlib.Core.List.{append_assoc, append-nil}
use data_distribution.Common.SubTimeFrame.{
  EquipmentIdentifier, equipment_eq, DataHeader, StfMessage, SubTimeFrame, messages_of, set_last,
  add_stf_data_start, add_stf_data_append,
}
use data_distribution.Common.FileReader.{StfData, visit}
use data_distribution.Common.FileReader.Blocks.{
  first_header, plain, entries, all_entries, CountsParts,
}

abbrev pub first_message : StfMessage → StfMessage
first_message m = record m { header = first_header m.header }

-- The messages of an equipment, by their headers, as the file has them.
abbrev pub select : EquipmentIdentifier → List StfMessage → List StfMessage
select d [] = []
select d (m ∷ ms) = if m.header.equipment == d then first_message m ∷ select d ms else select d ms

abbrev messages : EquipmentIdentifier → SubTimeFrame → List StfMessage
messages d s = messages_of (find d s.content)

abbrev message : DataHeader → List ℕ → StfMessage
message h ns = record { header = h; data_parts = ns }

set_last-append :
    (n : ℕ) (ms : List StfMessage) (h : DataHeader) (ns : List ℕ)
    → set_last n (ms ++ (message h ns ∷ [])) ≡ ms ++ (message h (ns ++ (n ∷ [])) ∷ [])
set_last-append n [] h ns = refl
set_last-append n (m ∷ []) h ns = refl
set_last-append n (m ∷ k ∷ ms) h ns = ap (λ l. m ∷ l) (set_last-append n (k ∷ ms) h ns)

append-content :
    (e : EquipmentIdentifier) (n : ℕ) (s : SubTimeFrame) (ms : List StfMessage)
    → find e s.content ≡ some ms
    → (add_stf_data_append e n s).content ≡ insert e (set_last n ms) s.content
unfolding add_stf_data_append
append-content e n s ms here = rw (add_stf_data_append, here) refl

-- `old` with the messages of `e`, of which the last one is `m`, in front of it.
abbrev with_message :
    EquipmentIdentifier
    → EquipmentIdentifier
    → List StfMessage
    → StfMessage
    → Option (List StfMessage)
    → Option (List StfMessage)
with_message e d old m other = if e == d then some (old ++ (m ∷ [])) else other

abbrev HasLast :
    EquipmentIdentifier → List StfMessage → StfMessage → SubTimeFrame → SubTimeFrame → Type 0
HasLast e old m s0 s =
    (d : EquipmentIdentifier) → find d s.content ≡ with_message e d old m (find d s0.content)

HasLast-append :
    (e : EquipmentIdentifier) (old : List StfMessage) (h : DataHeader) (ns : List ℕ) (n : ℕ)
    (s0 s : SubTimeFrame)
    → HasLast e old (message h ns) s0 s
    → HasLast e old (message h (ns ++ (n ∷ []))) s0 (add_stf_data_append e n s)
HasLast-append e old h ns n s0 s last d =
    let here : (find e s.content ≡ some (old ++ (message h ns ∷ []))) =
      last e
      ∙ ap (λ b. if b then some (old ++ (message h ns ∷ [])) else find e s0.content) (==_refl e) in
    let content =
      append-content e n s (old ++ (message h ns ∷ [])) here
      ∙ ap (λ ms. insert e ms s.content) (set_last-append n old h ns) in
    let new = old ++ (message h (ns ++ (n ∷ [])) ∷ []) in
    let found = ap (λ c. find d c) content ∙ find-insert e d new s.content in
    elim (Bool-cases (e == d)) [
      | inl same ↦ found ∙ rw same refl
      | inr other ↦ found ∙ rw other (last d ∙ rw other refl)
    ]

visit-plain :
    (e : EquipmentIdentifier) (old : List StfMessage) (h : DataHeader) (ns more : List ℕ)
    (rest : List StfData) (s0 s : SubTimeFrame)
    → HasLast e old (message h ns) s0 s
    → (s' : SubTimeFrame) × HasLast e old (message h (ns ++ more)) s0 s'
      × (visit (plain more ++ rest) (some e) s ≡ visit rest (some e) s')
unfolding visit
visit-plain e old h ns [] rest s0 s last =
    (s, subst (λ l. HasLast e old (message h l) s0 s) (sym (append-nil ns)) last, refl)
visit-plain e old h ns (n ∷ more) rest s0 s last =
    let (s', last', same) =
      visit-plain e old h (ns ++ (n ∷ [])) more rest s0 (add_stf_data_append e n s)
        (HasLast-append e old h ns n s0 s last) in
    (s', subst (λ l. HasLast e old (message h l) s0 s') (append_assoc ns (n ∷ []) more) last', same)

HasLast-start :
    (e : EquipmentIdentifier) (h : DataHeader) (n : ℕ) (s : SubTimeFrame)
    → HasLast e (messages e s) (message h (n ∷ [])) s (add_stf_data_start e h n s)
unfolding add_stf_data_start
HasLast-start e h n s d = find-insert e d (messages e s ++ (message h (n ∷ []) ∷ [])) s.content

abbrev one_of : EquipmentIdentifier → EquipmentIdentifier → StfMessage → List StfMessage
one_of e d m = if e == d then m ∷ [] else []

visit_one :
    (h : DataHeader) (ns : List ℕ) (rest : List StfData) (last : Option EquipmentIdentifier)
    (s : SubTimeFrame)
    → 0 < length ns
    → (s' : SubTimeFrame) × (visit (entries h ns ++ rest) last s ≡ visit rest (some h.equipment) s')
      × ((d : EquipmentIdentifier)
          → messages d s' ≡ messages d s ++ one_of h.equipment d (message (first_header h) ns))
unfolding visit
visit_one h [] rest last s pos = absurd (omega (arith, pos))
visit_one h (n ∷ ns) rest last s pos =
    let e = h.equipment in
    let h0 = first_header h in
    let (s', last', same) =
      visit-plain e (messages e s) h0 (n ∷ []) ns rest s (add_stf_data_start e h0 n s)
        (HasLast-start e h0 n s) in
    (
      s',
      same,
      λ d. elim (Bool-cases (e == d)) [
        | inl here ↦
            let eq = (==_iff e d).0 here in
            let old : (messages e s ≡ messages d s) = ap (λ k. messages k s) eq in
            ap messages_of (last' d) ∙ rw here (ap (λ l. l ++ (message h0 (n ∷ ns) ∷ [])) old)
        | inr other ↦ ap messages_of (last' d) ∙ rw other (sym (append-nil (messages d s)))
      ],
    )

select_cons :
    (d : EquipmentIdentifier) (m : StfMessage) (ms : List StfMessage)
    → one_of m.header.equipment d (first_message m) ++ select d ms ≡ select d (m ∷ ms)
select_cons d m ms = elim (Bool-cases (m.header.equipment == d)) [
  | inl e ↦ rw e refl
  | inr e ↦ rw e refl
]

-- Every part of a file is added behind the messages that its equipment has.
pub visit_all :
    (ms : List StfMessage) (last : Option EquipmentIdentifier) (s : SubTimeFrame)
    (d : EquipmentIdentifier)
    → All CountsParts ms
    → messages_of (find d (visit (all_entries ms) last s).content)
      ≡ messages_of (find d s.content) ++ select d ms
unfolding visit
visit_all [] last s d c = sym (append-nil (messages d s))
visit_all (m ∷ ms) last s d c =
    let (s', same, one) = visit_one m.header m.data_parts (all_entries ms) last s c.0.0 in
    ap (λ t. messages d t) same
    ∙ visit_all ms (some m.header.equipment) s' d c.1
    ∙ ap (λ l. l ++ select d ms) (one d)
    ∙ append_assoc (messages d s) (one_of m.header.equipment d (first_message m)) (select d ms)
    ∙ ap (λ l. messages d s ++ l) (select_cons d m ms)

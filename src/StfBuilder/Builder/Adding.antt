-- ===== src/StfBuilder/Builder/Adding.antt =====
-- What SubTimeFrameReadoutBuilder::addHbFrames (src/common/SubTimeFrameBuilder.cxx) makes of the blocks
-- that it gets.
use data_distribution.Prelude.{
  ℕ, false, ◌⊎◌, inl, inr, some, List, [], ◌∷◌, ◌++◌, ◌≡◌, refl, sym, ap, subst, ◌∙◌, arith,
  Bool-cases, ◌==◌, nat_eq, ==_iff, ==_refl, if◌then◌else◌, find, insert, find-insert, length,
}
use mathlib.Core.List.{append_assoc, append-nil}
use data_distribution.Common.SubTimeFrame.{
  EquipmentIdentifier, equipment_eq, DataHeader, StfMessage, SubTimeFrame, DataMap, messages_of,
  set_last, add_stf_data_readout, add_stf_data_append,
}
use data_distribution.Common.Readout.{Block}
use data_distribution.StfBuilder.Builder.{append_blocks, add_blocks}

-- The data parts of an equipment, in order.
abbrev pub parts_in : List StfMessage → List ℕ
parts_in [] = []
parts_in (m ∷ ms) = m.data_parts ++ parts_in ms

abbrev pub parts_of : EquipmentIdentifier → SubTimeFrame → List ℕ
parts_of e s = parts_in (messages_of (find e s.content))

abbrev pub sizes : List Block → List ℕ
sizes [] = []
sizes (b ∷ bs) = b.size ∷ sizes bs

set_last-parts :
    (n : ℕ) (m : StfMessage) (ms : List StfMessage)
    → parts_in (set_last n (m ∷ ms)) ≡ parts_in (m ∷ ms) ++ (n ∷ [])
set_last-parts n m [] =
    append-nil (m.data_parts ++ (n ∷ []))
    ∙ ap (λ xs. xs ++ (n ∷ [])) (sym (append-nil m.data_parts))
set_last-parts n m (k ∷ ms) =
    ap (λ xs. m.data_parts ++ xs) (set_last-parts n k ms)
    ∙ sym (append_assoc m.data_parts (parts_in (k ∷ ms)) (n ∷ []))

-- What a step adds to the parts of an equipment.
abbrev pub added : EquipmentIdentifier → EquipmentIdentifier → List ℕ → List ℕ
added e d ns = if e == d then ns else []

abbrev HasMessage : EquipmentIdentifier → SubTimeFrame → Type 0
HasMessage e s = (m : StfMessage) × (ms : List StfMessage) × (find e s.content ≡ some (m ∷ ms))

-- The map with the messages of `e` replaced by ones that have a part more.
insert-parts :
    (e d : EquipmentIdentifier) (n : ℕ) (s : SubTimeFrame) (ms : List StfMessage)
    → parts_in ms ≡ parts_of e s ++ (n ∷ [])
    → parts_in (messages_of (find d (insert e ms s.content))) ≡ parts_of d s ++ added e d (n ∷ [])
insert-parts e d n s ms h = elim (Bool-cases (e == d)) [
  | inl same ↦
      let eq = (==_iff e d).0 same in
      let here : (parts_in (messages_of (find e (insert e ms s.content)))
          ≡ parts_of e s ++ added e e (n ∷ [])) =
        rw (find-insert e e ms s.content, ==_refl e) h in
      subst
        (λ k.
          parts_in (messages_of (find k (insert e ms s.content)))
          ≡ parts_of k s ++ added e k (n ∷ []))
        eq here
  | inr other ↦ rw (find-insert e d ms s.content, other) (sym (append-nil (parts_of d s)))
]

find-insert_same :
    (e : EquipmentIdentifier) (ms : List StfMessage) (m : DataMap)
    → find e (insert e ms m) ≡ some ms
find-insert_same e ms m = rw (find-insert e e ms m, ==_refl e) refl

set_last_some :
    (n : ℕ) (m : StfMessage) (ms : List StfMessage)
    → (k : StfMessage) × (ks : List StfMessage) × (set_last n (m ∷ ms) ≡ k ∷ ks)
set_last_some n m [] = (record m { data_parts = m.data_parts ++ (n ∷ []) }, [], refl)
set_last_some n m (k ∷ ms) = (m, set_last n (k ∷ ms), refl)

append-content :
    (e : EquipmentIdentifier) (n : ℕ) (s : SubTimeFrame) (ms : List StfMessage)
    → find e s.content ≡ some ms
    → (add_stf_data_append e n s).content ≡ insert e (set_last n ms) s.content
unfolding add_stf_data_append
append-content e n s ms here = rw (add_stf_data_append, here) refl

append-HasMessage :
    (e : EquipmentIdentifier) (n : ℕ) (s : SubTimeFrame)
    → HasMessage e s
    → HasMessage e (add_stf_data_append e n s)
append-HasMessage e n s (m, ms, here) =
    let (k, ks, new) = set_last_some n m ms in
    (
      k,
      ks,
      ap (λ c. find e c) (append-content e n s (m ∷ ms) here)
          ∙ find-insert_same e (set_last n (m ∷ ms)) s.content
          ∙ ap (λ l. some l) new,
    )

append-parts :
    (e d : EquipmentIdentifier) (n : ℕ) (s : SubTimeFrame)
    → HasMessage e s
    → parts_of d (add_stf_data_append e n s) ≡ parts_of d s ++ added e d (n ∷ [])
append-parts e d n s (m, ms, here) =
    let old : (parts_in (m ∷ ms) ≡ parts_of e s) = sym (ap (λ o. parts_in (messages_of o)) here) in
    ap (λ c. parts_in (messages_of (find d c))) (append-content e n s (m ∷ ms) here)
    ∙ insert-parts e d n s (set_last n (m ∷ ms))
        (set_last-parts n m ms ∙ ap (λ ps. ps ++ (n ∷ [])) old)

messages_cases :
    (l : List StfMessage) → (l ≡ []) ⊎ ((m : StfMessage) × (ms : List StfMessage) × (l ≡ m ∷ ms))
messages_cases [] = inl refl
messages_cases (m ∷ ms) = inr (m, ms, refl)

-- The messages that addStfDataReadout appends to.
readout_start :
    (e : EquipmentIdentifier) (dh : DataHeader) (n : ℕ) (s : SubTimeFrame)
    → (m : StfMessage) × (ms : List StfMessage) × ((add_stf_data_readout e dh n s).content
        ≡ insert e (set_last n (m ∷ ms)) s.content)
      × (parts_in (m ∷ ms) ≡ parts_of e s)
unfolding add_stf_data_readout
readout_start e dh n s = elim (messages_cases (messages_of (find e s.content))) [
  | inl nothing ↦ (record { header = dh; data_parts = [] }, [], rw nothing refl, rw nothing refl)
  | inr (m, ms, some_there) ↦
      let nonempty : ((length (m ∷ ms) == 0) ≡ false) = ground arith in
      (m, ms, rw (some_there, nonempty) refl, rw some_there refl)
]

readout-HasMessage :
    (e : EquipmentIdentifier) (dh : DataHeader) (n : ℕ) (s : SubTimeFrame)
    → HasMessage e (add_stf_data_readout e dh n s)
readout-HasMessage e dh n s =
    let (m, ms, content, parts) = readout_start e dh n s in
    let (k, ks, new) = set_last_some n m ms in
    (
      k,
      ks,
      ap (λ c. find e c) content
          ∙ find-insert_same e (set_last n (m ∷ ms)) s.content
          ∙ ap (λ l. some l) new,
    )

pub readout-parts :
    (e d : EquipmentIdentifier) (dh : DataHeader) (n : ℕ) (s : SubTimeFrame)
    → parts_of d (add_stf_data_readout e dh n s) ≡ parts_of d s ++ added e d (n ∷ [])
readout-parts e d dh n s =
    let (m, ms, content, parts) = readout_start e dh n s in
    ap (λ c. parts_in (messages_of (find d c))) content
    ∙ insert-parts e d n s (set_last n (m ∷ ms))
        (set_last-parts n m ms ∙ ap (λ ps. ps ++ (n ∷ [])) parts)

added-append :
    (e d : EquipmentIdentifier) (xs ys : List ℕ)
    → added e d xs ++ added e d ys ≡ added e d (xs ++ ys)
added-append e d xs ys = elim (Bool-cases (e == d)) [ inl h ↦ rw h refl | inr h ↦ rw h refl ]

pub added_none : (e d : EquipmentIdentifier) → added e d [] ≡ []
added_none e d = elim (Bool-cases (e == d)) [ inl h ↦ rw h refl | inr h ↦ rw h refl ]

pub join :
    (e d : EquipmentIdentifier) (n : ℕ) (bs : List Block) (new old : List ℕ)
    → new ≡ old ++ added e d (n ∷ [])
    → new ++ added e d (sizes bs) ≡ old ++ added e d (n ∷ sizes bs)
join e d n bs new old h =
    ap (λ xs. xs ++ added e d (sizes bs)) h
    ∙ append_assoc old (added e d (n ∷ [])) (added e d (sizes bs))
    ∙ ap (λ xs. old ++ xs) (added-append e d (n ∷ []) (sizes bs))

append_blocks-parts :
    (e d : EquipmentIdentifier) (bs : List Block) (s : SubTimeFrame)
    → HasMessage e s
    → parts_of d (append_blocks e bs s) ≡ parts_of d s ++ added e d (sizes bs)
unfolding append_blocks
append_blocks-parts e d [] s h =
    sym (ap (λ xs. parts_of d s ++ xs) (added_none e d) ∙ append-nil (parts_of d s))
append_blocks-parts e d (b ∷ bs) s h =
    append_blocks-parts e d bs (add_stf_data_append e b.size s) (append-HasMessage e b.size s h)
    ∙ join e d b.size bs (parts_of d (add_stf_data_append e b.size s)) (parts_of d s)
        (append-parts e d b.size s h)

pub add_blocks-parts :
    (e d : EquipmentIdentifier) (dh : DataHeader) (bs : List Block) (s : SubTimeFrame)
    → parts_of d (add_blocks e dh bs s) ≡ parts_of d s ++ added e d (sizes bs)
unfolding add_blocks
add_blocks-parts e d dh [] s =
    sym (ap (λ xs. parts_of d s ++ xs) (added_none e d) ∙ append-nil (parts_of d s))
add_blocks-parts e d dh (b ∷ bs) s =
    append_blocks-parts e d bs (add_stf_data_readout e dh b.size s)
      (readout-HasMessage e dh b.size s)
    ∙ join e d b.size bs (parts_of d (add_stf_data_readout e dh b.size s)) (parts_of d s)
        (readout-parts e d dh b.size s)

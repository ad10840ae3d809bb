-- ===== src/StfBuilder/Sequencer/Sequence.antt =====
-- Which SubTimeFrames the sequencer of src/StfBuilder/StfBuilderInput.cxx passes on.
use data_distribution.Prelude.{
  ℕ, zero, suc, ◌+◌, ◌-◌, ◌<◌, ◌≤◌, Bool-cases, ltb, leb, true, false, ◌⊎◌, inl, inr, Option, none,
  some, List, [], ◌∷◌, ◌++◌, ◌≡◌, refl, sym, subst, ap, ◌∙◌, ◌==◌, nat_eq, arith, if◌then◌else◌,
}
use data_distribution.Common.SubTimeFrame.{SubTimeFrame, new_stf, set_origin}
use data_distribution.StfBuilder.Sequencer.{
  Sequencer, create_missing, missing_stf, max_missing_stfs_for_seq, sequence, sequence_all,
}
use mathlib.Core.List.{append_assoc, append-nil}

-- The ids of the list, after `last` and up to `end`: each is the one after the id before it, or it leaves
-- out at least as many as the sequencer does not make up for.
abbrev pub IsSequence : ℕ → List SubTimeFrame → ℕ → Type 0
IsSequence last [] end = last ≡ end
IsSequence last (s ∷ ss) end =
    ((s.header.id ≡ suc last) ⊎ (last + max_missing_stfs_for_seq < s.header.id))
    × IsSequence s.header.id ss end

IsSequence-append :
    (a b c : ℕ) (xs ys : List SubTimeFrame)
    → IsSequence a xs b
    → IsSequence b ys c
    → IsSequence a (xs ++ ys) c
IsSequence-append a b c [] ys h k = ground (arith, h, k)
IsSequence-append a b c (x ∷ xs) ys h k = (h.0, IsSequence-append x.header.id b c xs ys h.1 k)

id-missing_stf : (id : ℕ) → (missing_stf id).header.id ≡ id
unfolding set_origin new_stf
id-missing_stf id = refl

create_missing-IsSequence : (last n : ℕ) → IsSequence last (create_missing (suc last) n) (last + n)
unfolding create_missing
create_missing-IsSequence last zero = omega arith
create_missing-IsSequence last (suc n) =
    let next = create_missing-IsSequence (suc last) n in
    let same : (suc last + n ≡ last + suc n) = omega arith in
    let head : ((missing_stf (suc last)).header.id ≡ suc last) = id-missing_stf (suc last) in
    (
      inl head,
      subst (λ i. IsSequence i (create_missing (suc (suc last)) n) (last + suc n)) (sym head)
          (subst (λ e. IsSequence (suc last) (create_missing (suc (suc last)) n) e) same next),
    )

-- A round that passes the STF on, after the `n` empty ones before it.
abbrev PassesOn : ℕ → SubTimeFrame → Sequencer → Sequencer → Type 0
PassesOn n stf q q' =
    (q'.queued ≡ q.queued ++ (create_missing (q.last_seq_stf_id + 1) n ++ (stf ∷ [])))
    × (q'.last_seq_stf_id ≡ stf.header.id)
    × (q'.accepting ≡ q.accepting)
    × ((stf.header.id ≡ suc (q.last_seq_stf_id + n))
        ⊎ ((n ≡ 0) × (q.last_seq_stf_id + max_missing_stfs_for_seq < stf.header.id)))

sequence_cases :
    (stf : SubTimeFrame) (q : Sequencer)
    → ((sequence (some stf) q ≡ q) × ((q.accepting ≡ false) ⊎ (stf.header.id ≤ q.last_seq_stf_id)))
      ⊎ ((q.last_seq_stf_id < stf.header.id) × (n : ℕ) × PassesOn n stf q (sequence (some stf) q))
unfolding sequence create_missing
sequence_cases stf q =
    let id = stf.header.id in
    let start = q.last_seq_stf_id + 1 in
    elim (Bool-cases q.accepting) [
      | inl on ↦ elim (Bool-cases (leb id q.last_seq_stf_id)) [
        | inl old ↦ inl (rw (on, old) refl, inr (ground (arith, old)))
        | inr new ↦
            let later : (q.last_seq_stf_id < id) = ground (arith, new) in
            elim (Bool-cases (start == id)) [
              | inl next ↦
                  inr (later, 0, rw (on, new, next) (refl, refl, refl, inl (ground (arith, next))))
              | inr gap ↦ elim (Bool-cases (ltb (id - start) max_missing_stfs_for_seq)) [
                | inl few ↦ inr (
                  later,
                  id - start,
                  rw (on, new, gap, few) (refl, refl, refl, inl (omega (arith, later))),
                )
                | inr many ↦ inr (
                  later,
                  0,
                  rw (on, new, gap, many)
                      (refl, refl, refl, inr (refl, ground (arith, many, later))),
                )
              ]
            ]
      ]
      | inr off ↦ inl (rw off refl, inl off)
    ]

IsSequence-last :
    (last n : ℕ) (stf : SubTimeFrame)
    → (stf.header.id ≡ suc (last + n))
      ⊎ ((n ≡ 0) × (last + max_missing_stfs_for_seq < stf.header.id))
    → IsSequence last (create_missing (last + 1) n ++ (stf ∷ [])) stf.header.id
IsSequence-last last n stf h =
    let same : (suc last ≡ last + 1) = omega arith in
    subst (λ i. IsSequence last (create_missing i n ++ (stf ∷ [])) stf.header.id) same
      (IsSequence-append last (last + n) stf.header.id (create_missing (suc last) n) (stf ∷ [])
        (create_missing-IsSequence last n)
        (elim h [ inl e ↦ (inl e, refl) | inr (e, lt) ↦ (inr (omega (arith, e, lt)), refl) ]))

-- What the queue has got since `first`, behind `before`.
abbrev pub QueuesFrom : ℕ → List SubTimeFrame → Sequencer → Type 0
QueuesFrom first before q =
    (added : List SubTimeFrame) × (q.queued ≡ before ++ added)
    × IsSequence first added q.last_seq_stf_id

sequence-QueuesFrom :
    (first : ℕ) (before : List SubTimeFrame) (o : Option SubTimeFrame) (q : Sequencer)
    → QueuesFrom first before q
    → QueuesFrom first before (sequence o q)
unfolding sequence
sequence-QueuesFrom first before none q h = h
sequence-QueuesFrom first before (some stf) q h = elim (sequence_cases stf q) [
  | inl (same, _) ↦ subst (λ q'. QueuesFrom first before q') (sym same) h
  | inr (later, n, (queued, last, on, place)) ↦
      let new = create_missing (q.last_seq_stf_id + 1) n ++ (stf ∷ []) in
      let here : ((sequence (some stf) q).queued ≡ before ++ (h.0 ++ new)) =
        queued ∙ ap (λ xs. xs ++ new) h.1 ∙ append_assoc before h.0 new in
      (
        h.0 ++ new,
        here,
        subst (λ e. IsSequence first (h.0 ++ new) e) (sym last)
            (IsSequence-append first q.last_seq_stf_id stf.header.id h.0 new h.2
              (IsSequence-last q.last_seq_stf_id n stf place)),
      )
]

sequence_all-QueuesFrom :
    (first : ℕ) (before : List SubTimeFrame) (os : List (Option SubTimeFrame)) (q : Sequencer)
    → QueuesFrom first before q
    → QueuesFrom first before (sequence_all os q)
unfolding sequence_all
sequence_all-QueuesFrom first before [] q h = h
sequence_all-QueuesFrom first before (o ∷ os) q h =
    sequence_all-QueuesFrom first before os (sequence o q) (sequence-QueuesFrom first before o q h)

-- Whatever arrives, what the sequencer queues has ascending ids from its last id on, each the next one
-- or after a gap of more than 87 ids, and its last id stays that of the last STF that it has queued.
pub sequence_all-IsSequence :
    (os : List (Option SubTimeFrame)) (q : Sequencer)
    → QueuesFrom q.last_seq_stf_id q.queued (sequence_all os q)
sequence_all-IsSequence os q =
    sequence_all-QueuesFrom q.last_seq_stf_id q.queued os q ([], sym (append-nil q.queued), refl)

sequence-none : (q : Sequencer) → sequence none q ≡ q
unfolding sequence
sequence-none q = refl

-- The STFs whose id is above every id before them.
unfoldable pub fresh_stfs : ℕ → List (Option SubTimeFrame) → List SubTimeFrame
fresh_stfs last [] = []
fresh_stfs last (none ∷ os) = fresh_stfs last os
fresh_stfs last (some s ∷ os) =
    if ltb last s.header.id then s ∷ fresh_stfs s.header.id os else fresh_stfs last os

-- The second list is the first one with empty STFs put in.
pub data Fills : List SubTimeFrame → List SubTimeFrame → Type 0 where
  done : Fills [] []
  fill : (id : ℕ) {xs ys : List SubTimeFrame} → Fills xs ys → Fills xs (missing_stf id ∷ ys)
  keep : (s : SubTimeFrame) {xs ys : List SubTimeFrame} → Fills xs ys → Fills (s ∷ xs) (s ∷ ys)

fill_all :
    (id n : ℕ) (xs ys : List SubTimeFrame) → Fills xs ys → Fills xs (create_missing id n ++ ys)
unfolding create_missing
fill_all id zero xs ys h = h
fill_all id (suc n) xs ys h = fill id (fill_all (suc id) n xs ys h)

-- While data is accepted, the sequencer queues exactly the STFs whose id is above all ids before them,
-- in the order in which they arrive and unchanged, with nothing but empty STFs between them.
pub sequence_all-Fills :
    (os : List (Option SubTimeFrame)) (q : Sequencer)
    → q.accepting ≡ true
    → (added : List SubTimeFrame) × ((sequence_all os q).queued ≡ q.queued ++ added)
      × Fills (fresh_stfs q.last_seq_stf_id os) added
unfolding sequence_all fresh_stfs
sequence_all-Fills [] q on = ([], sym (append-nil q.queued), done)
sequence_all-Fills (none ∷ os) q on =
    rw (sequence_all, sequence-none q) (sequence_all-Fills os q on)
sequence_all-Fills (some s ∷ os) q on = elim (sequence_cases s q) [
  | inl (same, inl off) ↦ absurd (ground (arith, on, off))
  | inl (same, inr old) ↦
      let skipped : (ltb q.last_seq_stf_id s.header.id ≡ false) = ground (arith, old) in
      rw (sequence_all, same, skipped) (sequence_all-Fills os q on)
  | inr (later, n, (queued, last, same, place)) ↦
      let kept : (ltb q.last_seq_stf_id s.header.id ≡ true) = ground (arith, later) in
      let q' = sequence (some s) q in
      let new = create_missing (q.last_seq_stf_id + 1) n in
      let rest = sequence_all-Fills os q' (same ∙ on) in
      let here : ((sequence_all os q').queued ≡ q.queued ++ ((new ++ (s ∷ [])) ++ rest.0)) =
        rest.1 ∙ ap (λ xs. xs ++ rest.0) queued ∙ append_assoc q.queued (new ++ (s ∷ [])) rest.0 in
      let tail : Fills (fresh_stfs s.header.id os) rest.0 =
        subst (λ l. Fills (fresh_stfs l os) rest.0) last rest.2 in
      let all : Fills (s ∷ fresh_stfs s.header.id os) ((new ++ (s ∷ [])) ++ rest.0) =
        subst (λ ys. Fills (s ∷ fresh_stfs s.header.id os) ys)
          (sym (append_assoc new (s ∷ []) rest.0))
          (fill_all (q.last_seq_stf_id + 1) n (s ∷ fresh_stfs s.header.id os) (s ∷ rest.0)
            (keep s tail)) in
      rw kept ((new ++ (s ∷ [])) ++ rest.0, here, all)
]

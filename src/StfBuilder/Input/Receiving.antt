-- ===== src/StfBuilder/Input/Receiving.antt =====
-- StfReceiverThread and the new-TF check of StfBuilderThread (src/StfBuilder/StfBuilderInput.cxx): which
-- messages reach the builder, and which STFs the sequencer.
use data_distribution.Prelude.{
  ℕ, ◌≤◌, true, not, ◌&&◌, ◌==◌, nat_eq, nat_beq_iff, List, [], ◌∷◌, ◌++◌, none, some, ◌≡◌, ◌≢◌,
  refl, sym, ap, ◌∙◌, subst, inl, inr, Bool-cases, Option-cases, arith, if◌then◌else◌, ltb, ◌⊎◌,
}
use mathlib.Core.List.{append_assoc, append-nil}
use data_distribution.Common.SubTimeFrame.{SubTimeFrame, set_origin, readout, null}
use data_distribution.StfBuilder.Builder.{
  ReadoutHeader, ReadoutBuilder, get_stf, get_current_stf_id,
}
use data_distribution.StfBuilder.Input.{
  ReadoutMsg, Input, Received, timeout, interrupted, error, bytes, readout_interface_version,
  receive, receive_all, start_stf, finish_building_current_stf,
}

-- The messages' ids do not decrease, from `low` to `high`, and each message has a header of the size and
-- of the version that the StfBuilder reads.
abbrev pub Arrive : ℕ → ℕ → List ReadoutMsg → ℕ → Type 0
Arrive size low [] high = low ≡ high
Arrive size low (m ∷ ms) high =
    (low ≤ m.header.time_frame_id)
    × (m.header_size ≡ size)
    × (m.header.version ≡ readout_interface_version)
    × Arrive size m.header.time_frame_id ms high

Arrive-append :
    (size a b c : ℕ) (xs ys : List ReadoutMsg)
    → Arrive size a xs b
    → Arrive size b ys c
    → Arrive size a (xs ++ ys) c
Arrive-append size a b c [] ys h k = subst (λ i. Arrive size i ys c) (sym h) k
Arrive-append size a b c (x ∷ xs) ys (lo, s, v, h) k =
    (lo, s, v, Arrive-append size x.header.time_frame_id b c xs ys h k)

-- What the queue of the builder has got since the id `low`, behind `before`, while physics STFs are built.
abbrev pub ArrivedFrom : ℕ → ℕ → List ReadoutMsg → Input → Type 0
ArrivedFrom size low before s =
    (s.build_stf ≡ true)
    × (new : List ReadoutMsg) × (s.builder_input_queue ≡ before ++ new)
    × Arrive size low new s.stf_id_receiving

receive_cases :
    (size n : ℕ) (m : ReadoutMsg) (s : Input)
    → s.build_stf ≡ true
    → (receive size (bytes n (some m)) s ≡ s)
      ⊎ ((s.stf_id_receiving ≤ m.header.time_frame_id)
          × (m.header_size ≡ size)
          × (m.header.version ≡ readout_interface_version)
          × (receive size (bytes n (some m)) s ≡ record s {
            stf_id_receiving = m.header.time_frame_id;
            builder_input_queue = s.builder_input_queue ++ (m ∷ []);
          }))
unfolding receive
receive_cases size n m s on = elim (Bool-cases (ltb 0 n && not s.sequencer.accepting)) [
  | inl off ↦ inl (rw (receive, off) refl)
  | inr taken ↦ elim (Bool-cases (m.header_size == size)) [
    | inr bad ↦ inl (rw (receive, taken, bad) refl)
    | inl sized ↦ elim (Bool-cases (m.header.version == readout_interface_version)) [
      | inr bad ↦ inl (rw (receive, taken, sized, bad) refl)
      | inl version ↦ elim (Bool-cases (ltb m.header.time_frame_id s.stf_id_receiving)) [
        | inl back ↦ inl (rw (receive, taken, sized, version, back, on) refl)
        | inr ahead ↦ inr (
          ground (arith, ahead),
          (nat_beq_iff m.header_size size).0 sized,
          (nat_beq_iff m.header.version readout_interface_version).0 version,
          rw (receive, taken, sized, version, ahead, on) refl,
        )
      ]
    ]
  ]
]

receive-ArrivedFrom :
    (size low : ℕ) (before : List ReadoutMsg) (r : Received) (s : Input)
    → ArrivedFrom size low before s
    → ArrivedFrom size low before (receive size r s)
unfolding receive
receive-ArrivedFrom size low before timeout s h = h
receive-ArrivedFrom size low before interrupted s h = h
receive-ArrivedFrom size low before error s h = h
receive-ArrivedFrom size low before (bytes n none) s h = h
receive-ArrivedFrom size low before (bytes n (some m)) s h = elim (receive_cases size n m s h.0) [
  | inl same ↦ subst (λ t. ArrivedFrom size low before t) (sym same) h
  | inr (later, sized, version, pushed) ↦
      let (on, new, queue, old) = h in
      let more : Arrive size low (new ++ (m ∷ [])) m.header.time_frame_id =
        Arrive-append size low s.stf_id_receiving m.header.time_frame_id new (m ∷ []) old
          (later, sized, version, refl) in
      subst (λ t. ArrivedFrom size low before t) (sym pushed)
        (
          on,
          new ++ (m ∷ []),
          ap (λ q. q ++ (m ∷ [])) queue ∙ append_assoc before new (m ∷ []),
          more,
        )
]

receive_all-ArrivedFrom :
    (size low : ℕ) (before : List ReadoutMsg) (rs : List Received) (s : Input)
    → ArrivedFrom size low before s
    → ArrivedFrom size low before (receive_all size rs s)
unfolding receive_all
receive_all-ArrivedFrom size low before [] s h = h
receive_all-ArrivedFrom size low before (r ∷ rs) s h =
    receive_all-ArrivedFrom size low before rs (receive size r s)
      (receive-ArrivedFrom size low before r s h)

-- While physics STFs are built, the messages that the receiving thread queues for the builder have ids
-- that do not decrease, from the last one received on, and headers of the expected size and version,
-- whatever the channel gives.
pub receive_all-Arrive :
    (size : ℕ) (rs : List Received) (s : Input)
    → s.build_stf ≡ true
    → ArrivedFrom size s.stf_id_receiving s.builder_input_queue (receive_all size rs s)
receive_all-Arrive size rs s on =
    receive_all-ArrivedFrom size s.stf_id_receiving s.builder_input_queue rs s
      (on, [], sym (append-nil s.builder_input_queue), refl)

-- The STF that leaves the builder.
abbrev pub finished_stf : ReadoutBuilder → SubTimeFrame → SubTimeFrame
finished_stf r f = set_origin readout (if r.accept_stf_data then f else set_origin null f)

finish_some :
    (s : Input) (f : SubTimeFrame)
    → s.builder.stf ≡ some f
    → ((finish_building_current_stf s).seq_stf_queue
        ≡ s.seq_stf_queue ++ (finished_stf s.builder f ∷ []))
      × ((finish_building_current_stf s).builder.stf ≡ none)
unfolding finish_building_current_stf get_stf
finish_some s f e = (
  rw (finish_building_current_stf, get_stf, e) refl,
  rw (finish_building_current_stf, get_stf, e) refl,
)

current_none : (r : ReadoutBuilder) → r.stf ≡ none → get_current_stf_id r ≡ none
unfolding get_current_stf_id
current_none r e = rw (get_current_stf_id, e) refl

current_some :
    (r : ReadoutBuilder) (f : SubTimeFrame)
    → r.stf ≡ some f
    → get_current_stf_id r ≡ some f.header.id
unfolding get_current_stf_id
current_some r f e = rw (get_current_stf_id, e) refl

-- At most the STF of that id is under construction.
abbrev pub IsBuilding : ℕ → ReadoutBuilder → Type 0
IsBuilding id r = (r.stf ≡ none) ⊎ ((f : SubTimeFrame) × (r.stf ≡ some f) × (f.header.id ≡ id))

-- Before the blocks of a message are added, the STF under construction is that of the message, which
-- addHbFrames asserts, or there is none. If there was none or one with the message's id, then it stays
-- and nothing goes to the sequencer; if there was one with another id, it goes to the sequencer as it
-- was, marked as null if data of it was rejected, and none is left under construction.
pub start_stf-IsBuilding :
    (hdr : ReadoutHeader) (s : Input)
    → IsBuilding hdr.time_frame_id (start_stf hdr s).builder
      × (IsBuilding hdr.time_frame_id s.builder
            × ((start_stf hdr s).seq_stf_queue ≡ s.seq_stf_queue)
            × ((start_stf hdr s).builder.stf ≡ s.builder.stf)
          ⊎ (f : SubTimeFrame) × (s.builder.stf ≡ some f)
            × (f.header.id ≢ hdr.time_frame_id)
            × ((start_stf hdr s).seq_stf_queue ≡ s.seq_stf_queue ++ (finished_stf s.builder f ∷ []))
            × ((start_stf hdr s).builder.stf ≡ none))
unfolding start_stf
start_stf-IsBuilding hdr s = elim (Option-cases s.builder.stf) [
  | inl e ↦
      let stays : (start_stf hdr s ≡ record s { stf_id_building = hdr.time_frame_id }) =
        rw (start_stf, current_none s.builder e) refl in
      let builder = ap (λ t. t.builder.stf) stays in
      (inl (builder ∙ e), inl (inl e, ap (λ t. t.seq_stf_queue) stays, builder))
  | inr (f, e) ↦ elim (Bool-cases (hdr.time_frame_id == f.header.id)) [
    | inl same ↦
        let id = sym ((nat_beq_iff hdr.time_frame_id f.header.id).0 same) in
        let stays : (start_stf hdr s ≡ record s { stf_id_building = f.header.id }) =
          rw (start_stf, current_some s.builder f e, same) refl in
        (
          inr (f, ap (λ t. t.builder.stf) stays ∙ e, id),
          inl (inr (f, e, id), ap (λ t. t.seq_stf_queue) stays, ap (λ t. t.builder.stf) stays),
        )
    | inr other ↦
        let goes : (start_stf hdr s
            ≡ record (finish_building_current_stf s) { stf_id_building = hdr.time_frame_id }) =
          rw (start_stf, current_some s.builder f e, other) refl in
        let (queue, builder) = finish_some s f e in
        let none_left = ap (λ t. t.builder.stf) goes ∙ builder in
        let differ : (f.header.id ≢ hdr.time_frame_id) =
          λ q. ground (arith, other, (nat_beq_iff hdr.time_frame_id f.header.id).1 (sym q)) in
        (inl none_left, inr (f, e, differ, ap (λ t. t.seq_stf_queue) goes ∙ queue, none_left))
  ]
]

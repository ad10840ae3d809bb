-- ===== src/TfScheduler/Instance/Lifecycle.antt =====
-- The life of a partition (src/TfScheduler/TfSchedulerInstanceRpc.cxx): which states it can come to,
-- what is persisted of them, and what the service does once it is torn down.
use data_distribution.Prelude.{
  ℕ, zero, suc, ◌++◌, ◌≡◌, refl, sym, ap, subst, ◌∙◌, inl, inr, Bool, true, false, not, ◌||◌, List,
  [], ◌∷◌, none, nat_eq, if◌then◌else◌, Bool-cases, arith,
}
use data_distribution.Common.Bitset.{DynamicBitset}
use data_distribution.TfScheduler.Messages.{StfUpdate, StfSenderState, drop_not_running}
use data_distribution.TfScheduler.TfBuilders.{TfBuilderUpdate}
use data_distribution.TfScheduler.Instance.{
  PartitionState, error, configuring, configured, terminating, terminated, Monitor, checks, reports,
  exited, Instance, is_final, is_accepting, is_same, accepting_updates, update_partition_state,
  start_pass, stop, state_of, monitor_check, monitor_report, get_partition_state,
  terminate_partition, num_stf_senders_in_partition, tf_builder_update, stf_sender_stf_update,
}

-- What can happen to an instance behind start(): steps of its threads and calls of its service.
pub data Event : Type 0 where
  passes : Bool → Bool → Event
  looks : Bool → Event
  tells : StfSenderState → Event
  terminates : Event
  builder_reports : ℕ → TfBuilderUpdate → Event
  stf_reports : ℕ → StfSenderState → ℕ → StfUpdate → Event
  stops : Event

abbrev pub is_reporting : Monitor → Bool
is_reporting checks = false
is_reporting reports = true
is_reporting exited = false

final-closed : (s : PartitionState) → is_final s ≡ true → is_accepting s ≡ false
final-closed error h = refl
final-closed configuring h = cc
final-closed configured h = cc
final-closed terminating h = refl
final-closed terminated h = refl

-- The states that were written, the last one first: each differs from the one before it.
abbrev pub NoRepeats : List PartitionState → Type 0
NoRepeats [] = Unit
NoRepeats (s ∷ []) = Unit
NoRepeats (s ∷ t ∷ ss) = (is_same s t ≡ false) × NoRepeats (t ∷ ss)

-- Passes in which the StfSenders cannot be told to terminate.
abbrev pub waits : ℕ → List Event
waits zero = []
waits (suc k) = looks false ∷ waits k

module _ {Bits : Type 0} ⦃B : DynamicBitset Bits⦄ where
  -- The monitor thread reports only from where it reports.
  unfoldable pub step : Instance Bits → Event → Instance Bits
  step i (passes reached late) = (start_pass reached late i).1
  step i (looks told) = if is_reporting i.monitor then i else monitor_check told i
  step i (tells state) = if is_reporting i.monitor then monitor_report state i else i
  step i terminates = (terminate_partition i).1
  step i (builder_reports now u) = tf_builder_update now u i
  step i (stf_reports n state now m) = (stf_sender_stf_update n state now m i).1
  step i stops = stop i

  unfoldable pub run : Instance Bits → List Event → Instance Bits
  run i [] = i
  run i (e ∷ es) = run (step i e) es

  -- In a final state no update of the partition state has an effect.
  update_final :
      (new : PartitionState) (i : Instance Bits)
      → is_final i.partition_state ≡ true
      → update_partition_state new i ≡ i
  unfolding update_partition_state
  update_final new i h = rw h refl

  abbrev pub Kept : Instance Bits → Instance Bits → Type 0
  Kept i j = (j.partition_state ≡ i.partition_state) × (j.persisted ≡ i.persisted)

  step_final :
      (i : Instance Bits) (e : Event) → is_final i.partition_state ≡ true → Kept i (step i e)
  unfolding step start_pass monitor_check monitor_report terminate_partition tf_builder_update
      stf_sender_stf_update stop
  step_final i (passes reached late) h =
      ground (arith, final-closed i.partition_state h, update_final error i h)
  step_final i (looks told) h = ground (arith, update_final terminated i h)
  step_final i (tells state) h = ground (arith, update_final (state_of state) i h)
  step_final i terminates h = ground (arith, final-closed i.partition_state h)
  step_final i (builder_reports now u) h = ground (arith, final-closed i.partition_state h)
  step_final i (stf_reports n state now m) h = ground (arith, final-closed i.partition_state h)
  step_final i stops h = (refl, refl)

  -- For every sequence of events: an instance whose partition is TERMINATED or in ERROR stays in that
  -- state, and nothing more is written to the discovery service about it.
  pub run_final :
      (i : Instance Bits) (es : List Event) → is_final i.partition_state ≡ true → Kept i (run i es)
  unfolding run
  run_final i [] h = (refl, refl)
  run_final i (e ∷ es) h =
      let (s, p) = step_final i e h in
      let (s', p') = run_final (step i e) es (ap is_final s ∙ h) in (s' ∙ s, p' ∙ p)

  -- The partition is torn down, and the monitor thread cannot revive it: it is not about to report a
  -- state, or the state is final.
  abbrev pub IsClosed : Instance Bits → Type 0
  IsClosed i =
      (accepting_updates i ≡ false)
      × ((is_final i.partition_state || not (is_reporting i.monitor)) ≡ true)

  step-IsClosed : (i : Instance Bits) (e : Event) → IsClosed i → IsClosed (step i e)
  unfolding step start_pass monitor_check monitor_report terminate_partition tf_builder_update
      stf_sender_stf_update stop update_partition_state
  step-IsClosed i (passes reached late) h = ground arith
  step-IsClosed i (looks told) h = ground arith
  step-IsClosed i (tells state) h = ground arith
  step-IsClosed i terminates h = ground arith
  step-IsClosed i (builder_reports now u) h = ground arith
  step-IsClosed i (stf_reports n state now m) h = ground arith
  step-IsClosed i stops h = ground arith

  -- For every sequence of events: an instance that accepts no updates, and whose state is final or
  -- whose monitor thread does not stand behind its look at the partition state, never accepts updates
  -- again.
  pub run-IsClosed : (i : Instance Bits) (es : List Event) → IsClosed i → IsClosed (run i es)
  unfolding run
  run-IsClosed i [] h = h
  run-IsClosed i (e ∷ es) h = run-IsClosed (step i e) es (step-IsClosed i e h)

  -- For every instance that accepts updates and whose monitor thread stands behind its look at the
  -- partition state: if TerminatePartition, which answers TERMINATING, comes before the thread reports
  -- that all StfSenders are connected, then the partition is CONFIGURED and accepts updates again, and
  -- the request to terminate is lost.
  pub terminate_lost :
      (i : Instance Bits)
      → accepting_updates i ≡ true
      → is_reporting i.monitor ≡ true
      → let j = run i (terminates ∷ tells StfSenderState.ok ∷ []) in
        ((terminate_partition i).0 ≡ terminating)
        × (j.partition_state ≡ configured)
        × (accepting_updates j ≡ true)
  unfolding run step terminate_partition monitor_report update_partition_state
  terminate_lost i a m = ground arith

  -- The state that the discovery service has is that of the partition, and no state was written twice
  -- in a row.
  pub record IsPersisted (i : Instance Bits) : Type 0 where
    pub current : (ss : List PartitionState) × (i.persisted ≡ i.partition_state ∷ ss)
    pub changes : NoRepeats i.persisted

  update-IsPersisted :
      (new : PartitionState) (i : Instance Bits)
      → IsPersisted i
      → IsPersisted (update_partition_state new i)
  unfolding update_partition_state
  update-IsPersisted new i v = elim (Bool-cases (is_final i.partition_state)) [
    | inl e ↦ rw e v
    | inr e ↦ rw e (elim (Bool-cases (is_same new i.partition_state)) [
      | inl f ↦ rw f v
      | inr f ↦ rw f (record {
        current = (i.persisted, refl);
        changes =
            let (ss, there) = v.current in
            subst (λ l. NoRepeats (new ∷ l)) (sym there) (f, subst NoRepeats there v.changes);
      })
    ])
  ]

  Kept-IsPersisted : (i j : Instance Bits) → Kept i j → IsPersisted i → IsPersisted j
  Kept-IsPersisted i j (s, p) v = record {
    current = (v.current.0, p ∙ v.current.1 ∙ ap (λ t. t ∷ v.current.0) (sym s));
    changes = subst NoRepeats (sym p) v.changes;
  }

  check-IsPersisted :
      (told : Bool) (i : Instance Bits) → IsPersisted i → IsPersisted (monitor_check told i)
  unfolding monitor_check
  check-IsPersisted told i v =
      let moved = update-IsPersisted terminated i v in
      elim (Bool-cases (not i.running)) [
        | inl a ↦ rw a (Kept-IsPersisted i _ (refl, refl) v)
        | inr a ↦
            rw a
              (elim (Bool-cases
                (is_same i.partition_state terminating || is_same i.partition_state error)) [
                  | inr b ↦ rw b (Kept-IsPersisted i _ (refl, refl) v)
                  | inl b ↦ rw b (elim (Bool-cases told) [
                    | inr c ↦ rw c v
                    | inl c ↦ rw c (elim (Bool-cases (is_same i.partition_state terminating)) [
                      | inl d ↦ rw d (
                          Kept-IsPersisted (update_partition_state terminated i) _ (refl, refl)
                            moved)
                      | inr d ↦ rw d (Kept-IsPersisted i _ (refl, refl) v)
                    ])
                  ])
                ])
      ]

  pass-IsPersisted :
      (reached late : Bool) (i : Instance Bits)
      → IsPersisted i
      → IsPersisted (start_pass reached late i).1
  unfolding start_pass
  pass-IsPersisted reached late i v = elim (Bool-cases (accepting_updates i)) [
    | inr e ↦ rw e v
    | inl e ↦ rw e (elim (Bool-cases reached) [
      | inl f ↦ rw f v
      | inr f ↦
          rw f (elim (Bool-cases late) [
            | inl g ↦ rw g (update-IsPersisted error i v)
            | inr g ↦ rw g v
          ])
    ])
  ]

  terminate-IsPersisted :
      (i : Instance Bits) → IsPersisted i → IsPersisted (terminate_partition i).1
  unfolding terminate_partition
  terminate-IsPersisted i v = elim (Bool-cases (accepting_updates i)) [
    | inl e ↦ rw e (update-IsPersisted terminating i v)
    | inr e ↦ rw e v
  ]

  step-IsPersisted : (i : Instance Bits) (e : Event) → IsPersisted i → IsPersisted (step i e)
  unfolding step start_pass monitor_report terminate_partition tf_builder_update
      stf_sender_stf_update stop
  step-IsPersisted i (passes reached late) v = pass-IsPersisted reached late i v
  step-IsPersisted i (looks told) v = elim (Bool-cases (is_reporting i.monitor)) [
    | inl e ↦ rw e v
    | inr e ↦ rw e (check-IsPersisted told i v)
  ]
  step-IsPersisted i (tells state) v = elim (Bool-cases (is_reporting i.monitor)) [
    | inl e ↦ rw e (
        Kept-IsPersisted (update_partition_state (state_of state) i) _ (refl, refl)
          (update-IsPersisted (state_of state) i v))
    | inr e ↦ rw e v
  ]
  step-IsPersisted i terminates v = terminate-IsPersisted i v
  step-IsPersisted i (builder_reports now u) v = Kept-IsPersisted i _ (ground arith) v
  step-IsPersisted i (stf_reports n state now m) v = Kept-IsPersisted i _ (ground arith) v
  step-IsPersisted i stops v = Kept-IsPersisted i _ (refl, refl) v

  -- For every sequence of events: if the discovery service has the state of the partition, written
  -- last, and no state twice in a row, then this is so at the end.
  pub run-IsPersisted :
      (i : Instance Bits) (es : List Event) → IsPersisted i → IsPersisted (run i es)
  unfolding run
  run-IsPersisted i [] v = v
  run-IsPersisted i (e ∷ es) v = run-IsPersisted (step i e) es (step-IsPersisted i e v)

  -- An instance that accepts no updates answers a StfSender with DROP_NOT_RUNNING, cancels the request
  -- for the number of StfSenders, answers GetPartitionState and TerminatePartition with the state it
  -- is in, whatever the StfSenders' connections are, and no call changes it.
  pub refuses :
      (i : Instance Bits) (n now : ℕ) (state : StfSenderState) (m : StfUpdate) (u : TfBuilderUpdate)
      → accepting_updates i ≡ false
      → (stf_sender_stf_update n state now m i ≡ (drop_not_running, i))
        × (tf_builder_update now u i ≡ i)
        × (num_stf_senders_in_partition n i ≡ none)
        × (get_partition_state state i ≡ i.partition_state)
        × (terminate_partition i ≡ (i.partition_state, i))
  unfolding stf_sender_stf_update tf_builder_update num_stf_senders_in_partition get_partition_state
      terminate_partition
  refuses i n now state m u e = rw e (refl, refl, refl, refl, refl)

  run-append : (i : Instance Bits) (es fs : List Event) → run i (es ++ fs) ≡ run (run i es) fs
  unfolding run
  run-append i [] fs = refl
  run-append i (e ∷ es) fs = run-append (step i e) es fs

  abbrev IsWaiting : Instance Bits → Type 0
  IsWaiting i =
      (i.running ≡ true)
      × (is_same i.partition_state terminating ≡ true)
      × (is_reporting i.monitor ≡ false)

  run-waits : (i : Instance Bits) (k : ℕ) → IsWaiting i → run i (waits k) ≡ i
  unfolding run
  run-waits i zero h = refl
  run-waits i (suc k) (r, t, m) =
      let same : step i (looks false) ≡ i = unfold step monitor_check in rw (m, r, t) refl in
      rw (same, run) (run-waits i k (r, t, m))

  told_once :
      (i : Instance Bits)
      → IsWaiting i
      → ((step i (looks true)).partition_state ≡ terminated)
        × ((step i (looks true)).monitor ≡ exited)
  unfolding step monitor_check update_partition_state
  told_once i (r, t, m) = ground arith

  request-IsWaiting :
      (i : Instance Bits)
      → accepting_updates i ≡ true
      → i.running ≡ true
      → is_reporting i.monitor ≡ false
      → IsWaiting (step i terminates) × ((step i terminates).partition_state ≡ terminating)
  unfolding step terminate_partition update_partition_state
  request-IsWaiting i a r m = ground arith

  -- For a running instance that accepts updates and whose monitor thread is not between its look at the
  -- state and its report: behind TerminatePartition the state is TERMINATING; passes of the monitor in
  -- which requestTerminate answers false keep it there, however many there are; the first in which it
  -- answers true ends in TERMINATED, with the thread at its end.
  pub teardown :
      (i : Instance Bits) (k : ℕ)
      → accepting_updates i ≡ true
      → i.running ≡ true
      → is_reporting i.monitor ≡ false
      → let end = run i ((terminates ∷ waits k) ++ looks true ∷ []) in
        ((run i (terminates ∷ waits k)).partition_state ≡ terminating)
        × (end.partition_state ≡ terminated)
        × (end.monitor ≡ exited)
  teardown i k a r m =
      let (w, t) = request-IsWaiting i a r m in
      let same : run i (terminates ∷ waits k) ≡ step i terminates =
        unfold run in run-waits (step i terminates) k w in
      let last : run i ((terminates ∷ waits k) ++ looks true ∷ [])
          ≡ step (step i terminates) (looks true) =
        run-append i (terminates ∷ waits k) (looks true ∷ [])
        ∙ (unfold run in ap (λ j. step j (looks true)) same) in
      let done : ((step (step i terminates) (looks true)).partition_state ≡ terminated)
          × ((step (step i terminates) (looks true)).monitor ≡ exited) =
        told_once (step i terminates) w in
      (
        ap (λ j. j.partition_state) same ∙ t,
        ap (λ j. j.partition_state) last ∙ done.0,
        ap (λ j. j.monitor) last ∙ done.1,
      )

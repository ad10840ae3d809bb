-- ===== src/StfSender/Output/Conservation.antt =====
-- Where the SubTimeFrames of StfSenderOutput (src/StfSender/StfSenderOutput.cxx) are.
use mathlib.Core.List.Perm
use mathlib.Core.List.{append_assoc, perm_middle}
use data_distribution.Prelude.{
  ℕ, suc, ◌<◌, ◌≡◌, refl, sym, subst, inl, inr, Bool, true, false, not, List, [], ◌∷◌, ◌++◌, none,
  some, String, ◌==◌, nat_eq, string_eq, find, remove, put, Ascends, put-Ascends, remove-Ascends,
  ltb, Bool-cases, Option-cases, arith, Perm,
}
use data_distribution.Common.ConcurrentQueue.{push, pop}
use data_distribution.StfSender.Output.{
  Output, SubTimeFrame, triage, reject, send_stf_to_tf_builder, drop_round, enqueue_drop, count_in,
  is_announceable,
}

abbrev pub Waiting : Type 0
Waiting = List (ℕ × SubTimeFrame)

abbrev pub values : Waiting → List SubTimeFrame
values [] = []
values (p ∷ m) = p.1 ∷ values m

put-perm_new :
    (k : ℕ) (v : SubTimeFrame) (m : Waiting)
    → find k m ≡ none
    → Perm (values (put k v m)) (v ∷ values m)
unfolding find put
put-perm_new k v [] h = Perm.rfl
put-perm_new k v (p ∷ m) h = elim (Bool-cases (p.0 == k)) [
  | inl e ↦ absurd (ground (arith, e, h))
  | inr e ↦ elim (Bool-cases (ltb k p.0)) [
    | inl f ↦ rw f Perm.rfl
    | inr f ↦
        rw (f, e)
          (Perm.trans (Perm.append_left (p.1 ∷ []) (put-perm_new k v m (ground (arith, e, h))))
            (perm_middle (p.1 ∷ []) (values m)))
  ]
]

remove_absent : (lo k : ℕ) (m : Waiting) → Ascends lo m → k < lo → remove k m ≡ m
unfolding remove
remove_absent lo k [] a h = refl
remove_absent lo k (p ∷ m) a h = ground (arith, remove_absent (suc p.0) k m a.1)

remove-perm_there :
    (lo k : ℕ) (v : SubTimeFrame) (m : Waiting)
    → Ascends lo m
    → find k m ≡ some v
    → Perm (v ∷ values (remove k m)) (values m)
unfolding find remove
remove-perm_there lo k v [] a h = cc
remove-perm_there lo k v (p ∷ m) a h = elim (Bool-cases (p.0 == k)) [
  | inl e ↦
      let same : v ≡ p.1 = ground (arith, e, h) in
      let rest = remove_absent (suc p.0) k m a.1 (ground (arith, e)) in rw (e, same, rest) Perm.rfl
  | inr e ↦ rw e (
      Perm.trans (Perm.symm (perm_middle (p.1 ∷ []) (values (remove k m)))) (
        Perm.append_left (p.1 ∷ []) (remove-perm_there (suc p.0) k v m a.1 (ground (arith, e, h)))))
]

-- From a place behind the map and the queue to the front, and from the queue.
module _ (x : SubTimeFrame) (M Q : List SubTimeFrame) where
  to_front : (R : List SubTimeFrame) → Perm (M ++ (Q ++ x ∷ R)) (x ∷ (M ++ (Q ++ R)))
  to_front R = Perm.trans (Perm.append_left M (perm_middle Q R)) (perm_middle M (Q ++ R))

  from_queue : (R : List SubTimeFrame) → Perm (M ++ ((Q ++ x ∷ []) ++ R)) (x ∷ (M ++ (Q ++ R)))
  from_queue R =
      subst (λ l. Perm (M ++ l) (x ∷ (M ++ (Q ++ R)))) (sym (append_assoc Q (x ∷ []) R))
        (to_front R)

  to_deleted :
      (H D : List SubTimeFrame) → Perm (M ++ (Q ++ (H ++ x ∷ D))) (M ++ ((x ∷ Q) ++ (H ++ D)))
  to_deleted H D =
      Perm.trans (Perm.append_left M (Perm.append_left Q (perm_middle H D)))
        (Perm.trans (to_front (H ++ D)) (Perm.symm (perm_middle M (Q ++ (H ++ D)))))

-- Every SubTimeFrame that the output has taken in: waiting, to be dropped, handed over or deleted.
abbrev pub taken_in : Output → List SubTimeFrame
taken_in o = values o.scheduled_stf_map ++ (o.drop_queue.container ++ (o.handed_over ++ o.deleted))

-- The map rises by id, and the drop queue runs.
pub record IsOpen (o : Output) : Type 0 where
  pub ascends : Ascends 0 o.scheduled_stf_map
  pub running : o.drop_queue.running ≡ true

enqueue_drop-perm :
    (stf : SubTimeFrame) (o : Output)
    → IsOpen o
    → Perm (taken_in (enqueue_drop stf o)) (stf ∷ taken_in o) × IsOpen (enqueue_drop stf o)
unfolding enqueue_drop push
enqueue_drop-perm stf o v = rw v.running (
  from_queue stf (values o.scheduled_stf_map) o.drop_queue.container (o.handed_over ++ o.deleted),
  record { ascends = v.ascends; running = refl },
)

-- What a step does: `new` came in, and what was there is still there.
abbrev Keeps : List SubTimeFrame → Output → Output → Type 0
Keeps new o o' = Perm (taken_in o') (new ++ taken_in o) × IsOpen o'

triage-Keeps :
    (is_ready : Bool) (stf : SubTimeFrame) (o : Output)
    → IsOpen o
    → Keeps (stf ∷ []) o (triage is_ready stf o)
unfolding triage count_in
triage-Keeps is_ready stf o v =
    let v' : IsOpen (count_in stf o) = record { ascends = v.ascends; running = v.running } in
    let dropped = enqueue_drop-perm stf (count_in stf o) v' in
    elim (Bool-cases (not is_ready)) [
      | inl e ↦ rw e dropped
      | inr e ↦ rw e (elim (Bool-cases (not (is_announceable stf.origin stf.num_equipments))) [
        | inl f ↦ rw f dropped
        | inr f ↦ rw f (elim (Option-cases (find stf.stf_id o.scheduled_stf_map)) [
          | inr (other, g) ↦ rw (g, triage) dropped
          | inl g ↦
              rw (g, triage)
                (
                  Perm.append_right (o.drop_queue.container ++ (o.handed_over ++ o.deleted))
                      (put-perm_new stf.stf_id stf o.scheduled_stf_map g),
                  record {
                    ascends =
                        put-Ascends 0 stf.stf_id stf o.scheduled_stf_map (omega arith) v.ascends;
                    running = v.running;
                  },
                )
        ])
      ])
    ]

-- Taking a SubTimeFrame out of the map.
taken_out-perm :
    (k : ℕ) (stf : SubTimeFrame) (o : Output)
    → IsOpen o
    → find k o.scheduled_stf_map ≡ some stf
    → let o' = record o { scheduled_stf_map = remove k o.scheduled_stf_map } in
      Perm (stf ∷ taken_in o') (taken_in o) × IsOpen o'
taken_out-perm k stf o v e = (
  Perm.append_right (o.drop_queue.container ++ (o.handed_over ++ o.deleted))
      (remove-perm_there 0 k stf o.scheduled_stf_map v.ascends e),
  record { ascends = remove-Ascends 0 k o.scheduled_stf_map v.ascends; running = v.running },
)

moved_to_drop :
    (k : ℕ) (stf : SubTimeFrame) (o : Output)
    → IsOpen o
    → find k o.scheduled_stf_map ≡ some stf
    → Keeps [] o (enqueue_drop stf (record o { scheduled_stf_map = remove k o.scheduled_stf_map }))
moved_to_drop k stf o v e =
    let (out, w) = taken_out-perm k stf o v e in
    let (dropped, w') =
      enqueue_drop-perm stf (record o { scheduled_stf_map = remove k o.scheduled_stf_map }) w in
    (Perm.trans dropped out, w')

reject-Keeps : (k : ℕ) (o : Output) → IsOpen o → Keeps [] o (reject k o)
unfolding reject
reject-Keeps k o v = elim (Option-cases (find k o.scheduled_stf_map)) [
  | inl e ↦ rw (e, reject) (Perm.rfl, v)
  | inr (stf, e) ↦ rw (e, reject) (moved_to_drop k stf o v e)
]

send-Keeps :
    (k : ℕ) (name : String) (is_known : Bool) (o : Output)
    → IsOpen o
    → Keeps [] o (send_stf_to_tf_builder k name is_known o).1
unfolding send_stf_to_tf_builder
send-Keeps k name is_known o v = elim (Option-cases (find k o.scheduled_stf_map)) [
  | inl e ↦ rw (e, send_stf_to_tf_builder) (Perm.rfl, v)
  | inr (stf, e) ↦
      rw (e, send_stf_to_tf_builder)
        (elim (Bool-cases (name == "-1")) [
          | inl f ↦ rw f (moved_to_drop k stf o v e)
          | inr f ↦ rw f (elim (Bool-cases (not is_known)) [
            | inl g ↦ rw g (moved_to_drop k stf o v e)
            | inr g ↦
                let (out, w) = taken_out-perm k stf o v e in
                rw g (
                  Perm.trans
                      (to_front stf (values (remove k o.scheduled_stf_map)) o.drop_queue.container
                        (o.handed_over ++ o.deleted))
                      out,
                  record { ascends = w.ascends; running = w.running },
                )
          ])
        ])
]

drop_from :
    (o : Output) (Q : List SubTimeFrame) (r : Bool)
    → IsOpen (record o { drop_queue = record { container = Q; running = r } })
    → Keeps []
        (record o { drop_queue = record { container = Q; running = r } })
        (drop_round (record o { drop_queue = record { container = Q; running = r } }))
unfolding drop_round pop
drop_from o [] true v = (Perm.rfl, v)
drop_from o [] false v = (Perm.rfl, v)
drop_from o (x ∷ Q) r v = (
  to_deleted x (values o.scheduled_stf_map) Q o.handed_over o.deleted,
  record { ascends = v.ascends; running = v.running },
)

-- What happens to the output: SubTimeFrames arrive, answers come, the scheduler and the TfBuilders
-- ask, and the drop thread makes a round.
pub data Event : Type 0 where
  arrives : Bool → SubTimeFrame → Event
  is_rejected : ℕ → Event
  is_requested : ℕ → String → Bool → Event
  drops : Event

abbrev pub arrival : Event → List SubTimeFrame
arrival (arrives is_ready stf) = stf ∷ []
arrival (is_rejected k) = []
arrival (is_requested k name is_known) = []
arrival drops = []

unfoldable pub step : Output → Event → Output
step o (arrives is_ready stf) = triage is_ready stf o
step o (is_rejected k) = reject k o
step o (is_requested k name is_known) = (send_stf_to_tf_builder k name is_known o).1
step o drops = drop_round o

unfoldable pub run : Output → List Event → Output
run o [] = o
run o (e ∷ es) = run (step o e) es

abbrev pub arrivals : List Event → List SubTimeFrame
arrivals [] = []
arrivals (e ∷ es) = arrivals es ++ arrival e

step-Keeps : (o : Output) (e : Event) → IsOpen o → Keeps (arrival e) o (step o e)
unfolding step
step-Keeps o (arrives is_ready stf) v = triage-Keeps is_ready stf o v
step-Keeps o (is_rejected k) v = reject-Keeps k o v
step-Keeps o (is_requested k name is_known) v = send-Keeps k name is_known o v
step-Keeps o drops v = drop_from o o.drop_queue.container o.drop_queue.running v

-- For every sequence of arrivals, answers, requests and rounds of the drop thread, from a state whose
-- map rises by id and whose drop queue runs: the SubTimeFrames that wait, are to be dropped, were
-- handed over to the transport or were deleted are, up to order, those of the start and those that
-- arrived.
pub run_conserves :
    (o : Output) (es : List Event)
    → IsOpen o
    → Perm (taken_in (run o es)) (arrivals es ++ taken_in o)
unfolding run
run_conserves o [] v = Perm.rfl
run_conserves o (e ∷ es) v =
    let (p, w) = step-Keeps o e v in
    subst (Perm (taken_in (run (step o e) es)))
      (sym (append_assoc (arrivals es) (arrival e) (taken_in o)))
      (Perm.trans (run_conserves (step o e) es w) (Perm.append_left (arrivals es) p))
